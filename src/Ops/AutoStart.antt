-- ===== src/Ops/AutoStart.antt =====
-- scripts/vps-worker-auto-start.py: a watchdog that starts the worker when it is down and jobs wait.
pub mod Recount
pub mod Gates
pub mod Notes
use Prim.Native.String.{◌++◌ as concat}
use healtharchive_backend.Base.{
  ℕ, ◌+◌, ◌-◌, ◌*◌, ◌/◌, String, Bool, true, false, ◌||◌, ◌&&◌, not, Option, none, some, List, [],
  ◌∷◌, ◌++◌, ◌==◌, nat_eq, string_eq, if◌then◌else◌, ltb, leb, length, keep,
}
use healtharchive_backend.Base.Int.{ℤ, pos, negsuc, int_eq, leb_ℤ, max_ℤ, ◌+ℤ◌}
use healtharchive_backend.Base.Texts.{str_ℤ}
use healtharchive_backend.Json.{Json, Fields, null, int, str, obj, end, field, get_field}
use healtharchive_backend.Registry.Templates.{set_item}
use healtharchive_backend.Ops.{
  JobRow, JobTable, Stat, Probe, deploy_lock_is_active, PsRow, output_dir_has_running_crawl_process,
}
use healtharchive_backend.Ops.Stale.{to_ℕ, started_before, sort_rows, first_rows, mark_with}
use healtharchive_backend.Ops.RunState.{
  WatchdogArgs, probe_readable_dir, WatchdogEnv, load_state_file, RunNote, update_run_state,
  record_start_attempt,
}

abbrev pub is_running : JobRow → Bool
is_running j = j.status == "running"

abbrev pub is_pending : JobRow → Bool
is_pending j = j.status == "queued" || j.status == "retryable"

unfoldable pub reconcile_cutoff : WatchdogArgs → WatchdogEnv → ℕ
reconcile_cutoff args e =
    e.now - to_ℕ (max_ℤ (pos 1) args.reconcile_older_than_minutes) * (60 * 1000000)

-- The rows that the query of the reconciliation gives.
unfoldable pub drifted_rows : WatchdogArgs → WatchdogEnv → JobTable → List JobRow
unfolding reconcile_cutoff
drifted_rows args e table = first_rows (to_ℕ args.reconcile_limit) (
    sort_rows (
      keep
        (λ (j : JobRow).
          is_running j && started_before false (reconcile_cutoff args e) j.started_at)
        table))

abbrev pub is_orphaned : List PsRow → JobRow → Bool
is_orphaned rows j = not (output_dir_has_running_crawl_process j.output_dir rows)

abbrev pub reconciled : JobRow → JobRow
reconciled j = record j {
  status = "retryable";
  crawler_stage = some "reconciled_worker_down_running_drift";
}

-- The rows that are reconciled: none where the reconciliation is off or fails.
unfoldable pub rows_to_reconcile : WatchdogArgs → WatchdogEnv → JobTable → List JobRow
unfolding drifted_rows
rows_to_reconcile args e table =
    if not e.worker_active
      && (ltb 0 (length (keep is_running table))
          && (args.reconcile_running_drift && leb_ℤ (pos 1) args.reconcile_limit))
    then elim e.ps_rows [
      | none ↦ []
      | some rows ↦
          if e.reconcile_fails then [] else keep (is_orphaned rows) (drifted_rows args e table)
    ]
    else []

-- What the run decides: whether it runs `systemctl start`, and the result and reason.
pub data Decision : Type 0 where
  skips : String → Decision
  starts : Decision

unfoldable pub decide_start : WatchdogArgs → WatchdogEnv → ℕ → ℕ → Decision
decide_start args e running pending =
    if e.worker_active
    then skips "worker_active"
    else if ltb 0 running
    then skips "running_jobs_present_worker_inactive"
    else if pending == 0
    then skips "no_pending_jobs"
    else if args.apply
    then starts
    else skips "dry_run_would_start"

-- How a run ends: whether `systemctl start` was run, the states that were saved, in their order, the table, the
-- result and reason of the metrics (`none` where none are written), and whether the run raises.
pub record StartEnd : Type 0 where
  pub start_called : Bool
  pub saved : List Fields
  pub table : JobTable
  pub metrics : Option (String × String)
  pub raised : Bool

abbrev pub note_of : String → String → ℕ → ℕ → RunNote
note_of result reason running pending = record {
  result = result;
  reason = reason;
  running_jobs = pos running;
  pending_jobs = pos pending;
  exception = none;
  rc = none;
  stdout = none;
  stderr = none;
}

-- A save whose failure is caught.
unfoldable pub wrote : Bool → Fields → List Fields
wrote works state = if works then state ∷ [] else []

-- The start has failed: the attempt is counted, and the failure noted.
unfoldable pub failed_state : WatchdogEnv → ℕ → ℕ → Fields → Fields
unfolding update_run_state record_start_attempt
failed_state e running pending state =
    update_run_state e
      (record (note_of "fail" "systemctl_start_failed" running pending) {
        rc = some e.start.returncode;
        stdout = some e.start.stdout;
        stderr = some e.start.stderr;
      })
      (record_start_attempt e false state)

-- The failure is saved, and the run noted and saved again; a first save that fails raises.
unfoldable pub failed_end : WatchdogEnv → ℕ → ℕ → Fields → JobTable → StartEnd
unfolding failed_state wrote update_run_state
failed_end e running pending state table =
    let failure = failed_state e running pending state in
    if e.saves 0
    then record {
      start_called = true;
      saved =
          failure
          ∷ wrote (e.saves 1) (
              update_run_state e (note_of "fail" "systemctl_start_failed" running pending) failure);
      table = table;
      metrics = some ("fail", "systemctl_start_failed");
      raised = false;
    }
    else record { start_called = true; saved = []; table = table; metrics = none; raised = true }

unfoldable pub act : WatchdogArgs → WatchdogEnv → Fields → JobTable → ℕ → ℕ → StartEnd
unfolding failed_end wrote decide_start update_run_state record_start_attempt
act args e state table running pending = elim (decide_start args e running pending) [
  | skips reason ↦ record {
    start_called = false;
    saved = wrote (e.saves 0) (update_run_state e (note_of "skip" reason running pending) state);
    table = table;
    metrics = some ("skip", reason);
    raised = false;
  }
  | starts ↦
      if e.start.returncode == pos 0
      then record {
        start_called = true;
        saved = wrote (e.saves 0) (
            update_run_state e (note_of "ok" "started_worker" running pending)
              (record_start_attempt e true state));
        table = table;
        metrics = some ("ok", "started_worker");
        raised = false;
      }
      else failed_end e running pending state table
]

abbrev pub skip_end : JobTable → List Fields → String → StartEnd
skip_end table saved reason = record {
  start_called = false;
  saved = saved;
  table = table;
  metrics = some ("skip", reason);
  raised = false;
}

abbrev pub silent_end : JobTable → Bool → StartEnd
silent_end table raised = record {
  start_called = false;
  saved = [];
  table = table;
  metrics = none;
  raised = raised;
}

-- The first queries have failed; a save that fails raises.
unfoldable pub db_error_end : WatchdogEnv → String → JobTable → StartEnd
unfolding update_run_state load_state_file
db_error_end e text table =
    if e.saves 0
    then skip_end table
        (update_run_state e (record (note_of "skip" "db_error" 0 0) { exception = some text })
            (load_state_file e.state_file)
          ∷ [])
        "db_error"
    else silent_end table true

-- After the gates: the counts, the reconciliation and the decision.
unfoldable pub reconcile_and_act : WatchdogArgs → WatchdogEnv → Fields → JobTable → StartEnd
unfolding rows_to_reconcile act
reconcile_and_act args e state table =
    let rows = rows_to_reconcile args e table in
    let n = length rows in
    act args e state (mark_with reconciled rows table) (length (keep is_running table) - n)
      (length (keep is_pending table) + n)

-- `main`; it exits with 0 where it does not raise.
unfoldable pub auto_start : WatchdogArgs → WatchdogEnv → JobTable → StartEnd
unfolding reconcile_and_act db_error_end load_state_file probe_readable_dir
auto_start args e table =
    if not e.sentinel
    then skip_end table [] "disabled"
    else if not e.lock_free
    then silent_end table false
    else if deploy_lock_is_active e.now args.deploy_lock_max_age e.deploy_stat e.deploy_probe
    then skip_end table [] "deploy_lock"
    else if not (probe_readable_dir e.storagebox).0
    then skip_end table []
        (concat "storagebox_unreadable_errno_" (str_ℤ (probe_readable_dir e.storagebox).1))
    else elim e.count_fails [
      | some text ↦ db_error_end e text table
      | none ↦ reconcile_and_act args e (load_state_file e.state_file) table
    ]
