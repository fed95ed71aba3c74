-- ===== src/Ops/Recover/Prepare.antt =====
-- scripts/vps-crawl-auto-recover.py: what a run of the script leaves, and the update of a job's config before
-- it is started or recovered.
use healtharchive_backend.Base.{
  ℕ, String, Bool, true, false, ◌||◌, Option, none, some, List, [], ◌∷◌, ◌++◌, if◌then◌else◌,
}
use healtharchive_backend.Base.Int.{ℤ}
use healtharchive_backend.Json.{Fields}
use healtharchive_backend.Ops.{JobRow, JobTable, get_row, update_row}
use healtharchive_backend.Ops.Recover.Host.{Host}
use healtharchive_backend.Ops.Recover.Annual.{ensure_annual_campaign_metadata}
use healtharchive_backend.Ops.Recover.Options.{ensure_recovery_tool_options}
use healtharchive_backend.Ops.Recover.Sync.{compute_scope_args, apply_scope_args, count_rewrites}

-- The commands that the script runs.
pub data Command : Type 0 where
  systemctl_stop systemctl_start : String → Command
  recover_stale : String → Command
  systemd_run : List String → Command

-- The table, the state in memory, the one in the file (`none` where the run has not written it), and the commands
-- that were run, in their order.
pub record World : Type 0 where
  pub table : JobTable
  pub state : Fields
  pub saved : Option Fields
  pub commands : List Command

-- The script exits with a code, after it has written its metrics with a result and a reason or without them, or
-- raises.
pub data RunEnd : Type 0 where
  finishes : ℤ → String → String → World → RunEnd
  quits : ℤ → World → RunEnd
  raises : World → RunEnd

unfoldable pub run_command : Command → World → World
run_command c w = record w { commands = w.commands ++ (c ∷ []) }

-- A row on its way through the corrections: the row, whether it changed, and the state.
pub record UpdatedRow : Type 0 where
  pub row : JobRow
  pub changed : Bool
  pub state : Fields

-- The scope arguments; `none` is an exception.
unfoldable pub prepare_scope : Host → String → JobRow → Bool → Fields → Option UpdatedRow
unfolding compute_scope_args apply_scope_args count_rewrites
prepare_scope h source j changed state = elim (compute_scope_args h source j) [
  | none ↦ none
  | some (args, false) ↦ some (record { row = j; changed = changed; state = state })
  | some (args, true) ↦ elim (count_rewrites h 1 state) [
    | none ↦ none
    | some counted ↦
        some (record { row = apply_scope_args args j; changed = true; state = counted })
  ]
]

-- The metadata of an annual job, where they are to be filled in.
unfoldable pub prepare_metadata : Host → Option ℤ → JobRow → JobRow × Bool
unfolding ensure_annual_campaign_metadata
prepare_metadata h none j = (j, false)
prepare_metadata h (some year) j = ensure_annual_campaign_metadata h year j

unfoldable pub prepare_row : Host → Option ℤ → String → JobRow → Fields → Option UpdatedRow
unfolding prepare_metadata ensure_recovery_tool_options prepare_scope
prepare_row h backfill source j state =
    elim (ensure_recovery_tool_options h (prepare_metadata h backfill j).0) [
      | none ↦ none
      | some (k, changed) ↦
          prepare_scope h source k ((prepare_metadata h backfill j).1 || changed) state
    ]

-- The update of a row; an exception is caught, and the session rolled back. `commits` says whether the
-- commit works.
unfoldable pub update_config : Host → Bool → Option ℤ → ℕ → String → World → World
unfolding prepare_row
update_config h commits backfill id source w = elim (get_row id w.table) [
  | none ↦ w
  | some j ↦ elim (prepare_row h backfill source j w.state) [
    | none ↦ w
    | some p ↦ record w {
      table = if commits then update_row id (λ _. p.row) w.table else w.table;
      state = p.state;
    }
  ]
]
