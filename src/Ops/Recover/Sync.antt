-- ===== src/Ops/Recover/Sync.antt =====
-- scripts/vps-crawl-auto-recover.py, the first passes over the database: rows whose job runs although they do
-- not say so, the list of running jobs, and their scope arguments.
use healtharchive_backend.Base.{
  ℕ, ◌+◌, String, Bool, true, false, ◌&&◌, not, Option, none, some, is_some, List, [], ◌∷◌, ◌++◌,
  ◌==◌, nat_eq, string_eq, if◌then◌else◌, leb, contains, keep, map,
}
use healtharchive_backend.Base.Int.{pos, ◌+ℤ◌}
use healtharchive_backend.Json.{Fields, null, int, arr, strings, get_field}
use healtharchive_backend.Contract.{truthy}
use healtharchive_backend.Contract.JobConfig.{text_list}
use healtharchive_backend.Registry.{reconcile_scope_passthrough_args}
use healtharchive_backend.Registry.Templates.{set_item}
use healtharchive_backend.Ops.{
  JobRow, JobTable, get_row, update_row, PsRow, output_dir_has_running_crawl_process,
}
use healtharchive_backend.Ops.Recover.Host.{Host}
use healtharchive_backend.Ops.Recover.Options.{infer_source_code}

-- The row of a job that runs.
unfoldable pub set_running : ℕ → JobRow → JobRow
set_running now j = record j {
  status = "running";
  started_at = if is_some j.started_at then j.started_at else some now;
  finished_at = none;
}

-- A row that does not say so, although the job's lock is held.
unfoldable pub lock_drifted : List ℕ → JobRow → Bool
lock_drifted held j = contains held j.id && not (j.status == "running")

-- A row that does not say so, although a crawl of its directory runs.
unfoldable pub process_drifted : List ℕ → List PsRow → JobRow → Bool
process_drifted held rows j =
    not (j.status == "running")
    && (is_some j.started_at
        && (not (is_some j.finished_at)
            && (not (contains held j.id)
                && output_dir_has_running_crawl_process j.output_dir rows)))

-- `write` is `args.apply and not simulate_mode`.
unfoldable pub sync_rows : Bool → ℕ → (JobRow → Bool) → JobTable → JobTable
unfolding set_running
sync_rows write now drifted table =
    if write then map (λ (j : JobRow). if drifted j then set_running now j else j) table else table

-- Both repairs; the second one only where `ps` answers.
unfoldable pub sync_table : Bool → ℕ → List ℕ → Option (List PsRow) → JobTable → JobTable
unfolding sync_rows lock_drifted process_drifted
sync_table write now held none table = sync_rows write now (lock_drifted held) table
sync_table write now held (some rows) table =
    sync_rows write now (process_drifted held rows) (sync_rows write now (lock_drifted held) table)

pub record RunningJob : Type 0 where
  pub job_id : ℕ
  pub source_code : String
  pub output_dir : Option String
  pub combined_log_path : Option String

unfoldable pub insert_by_id : JobRow → List JobRow → List JobRow
insert_by_id j [] = j ∷ []
insert_by_id j (k ∷ rest) =
    let later = insert_by_id j rest in if leb j.id k.id then j ∷ (k ∷ rest) else k ∷ later

unfoldable pub by_id : List JobRow → List JobRow
unfolding insert_by_id
by_id [] = []
by_id (j ∷ rest) = insert_by_id j (by_id rest)

-- A row that joins no source is no running job.
unfoldable pub as_running : List JobRow → List RunningJob
as_running [] = []
as_running (j ∷ rest) = elim j.source_code [
  | none ↦ as_running rest
  | some code ↦
      record {
        job_id = j.id;
        source_code = code;
        output_dir = j.output_dir;
        combined_log_path = j.combined_log_path;
      }
      ∷ as_running rest
]

-- The running jobs, then those of a drill that do not run.
unfoldable pub running_jobs : List ℕ → JobTable → List RunningJob
unfolding by_id as_running
running_jobs simulated table =
    as_running (by_id (keep (λ (j : JobRow). j.status == "running") table))
    ++ as_running (
        by_id (keep (λ (j : JobRow). contains simulated j.id && not (j.status == "running")) table))

-- `_compute_scope_args_for_job`: the arguments, and whether they drifted; `none` is an exception, or
-- arguments that are no texts.
unfoldable pub compute_scope_args : Host → String → JobRow → Option (List String × Bool)
unfolding infer_source_code
compute_scope_args h source_code j =
    let given = h.fold source_code in
    let code = if given == "" then infer_source_code ("hc" ∷ ("phac" ∷ [])) h j else given in
    elim (text_list h.py (get_field "zimit_passthrough_args" null j.config)) [
      | none ↦ none
      | some args ↦ some (reconcile_scope_passthrough_args h.fold code args)
    ]

-- `_apply_scope_args`
unfoldable pub apply_scope_args : List String → JobRow → JobRow
apply_scope_args args j = record j {
  config = set_item "zimit_passthrough_args" (arr (strings args)) j.config;
}

-- The pass over the running jobs: the table and how many jobs drifted.
unfoldable pub reconcile_scopes : Host → Bool → List RunningJob → JobTable → Option (JobTable × ℕ)
unfolding compute_scope_args apply_scope_args
reconcile_scopes h write [] table = some (table, 0)
reconcile_scopes h write (r ∷ rest) table =
    let unchanged = reconcile_scopes h write rest table in
    elim (get_row r.job_id table) [
      | none ↦ unchanged
      | some j ↦ elim (compute_scope_args h r.source_code j) [
        | none ↦ none
        | some (args, false) ↦ unchanged
        | some (args, true) ↦
            elim (reconcile_scopes h write rest
              (if write then update_row r.job_id (apply_scope_args args) table else table)) [
                | none ↦ none
                | some (after, n) ↦ some (after, n + 1)
              ]
      ]
    ]

-- `state["scope_rewrites_total"] = int(state.get("scope_rewrites_total") or 0) + n`
unfoldable pub count_rewrites : Host → ℕ → Fields → Option Fields
unfolding truthy
count_rewrites h n state =
    let v = get_field "scope_rewrites_total" null state in
    if truthy h.py v
    then elim (h.py.to_int v) [
      | none ↦ none
      | some total ↦ some (set_item "scope_rewrites_total" (int (total +ℤ pos n)) state)
    ]
    else some (set_item "scope_rewrites_total" (int (pos n)) state)
