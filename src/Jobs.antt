-- ===== src/Jobs.antt =====
-- src/ha_backend/jobs.py and the ArchiveJob row of src/ha_backend/models.py: one run of a job from the
-- database. Times are microseconds. What the run meets outside is a `RunEnv`.
pub mod Run
pub mod Tests
use healtharchive_backend.Base.{
  ℕ, String, Bool, true, false, ◌||◌, Option, none, some, is_some, List, [], ◌∷◌, ◌==◌, nat_eq,
  string_eq, if◌then◌else◌, ltb, some_of,
}
use healtharchive_backend.Base.Int.{ℤ, pos, int_eq}
use healtharchive_backend.Infra.{Exception, Heap, is_storage_infra_errno, is_storage_infra_error}
use healtharchive_backend.Infra.Paths.{PathLib, FilePath, is_output_dir_write_infra_error}
use text.Mathlib.Text.{find?}

-- `ArchiveJobConfig.from_dict(job.config)`: it raises, or yields seeds.
pub data JobConfig : Type 0 where
  malformed : JobConfig
  config : List String → JobConfig

pub record Job : Type 0 where
  pub id : ℕ
  pub has_source : Bool
  pub status : String
  pub queued_at : Option ℕ
  pub created_at : ℕ
  pub updated_at : ℕ
  pub started_at : Option ℕ
  pub finished_at : Option ℕ
  pub retry_count : ℕ
  pub config : JobConfig
  pub crawler_exit_code : Option ℤ
  pub crawler_status : Option String
  pub crawler_stage : Option String
  pub combined_log_path : Option String

abbrev pub Database : Type 0
Database = List Job

-- `session.get(ArchiveJob, job_id)`
unfoldable pub get_job : ℕ → Database → Option Job
get_job k [] = none
get_job k (j ∷ rest) = if j.id == k then some j else get_job k rest

-- A change of the row with this identity, at its commit.
unfoldable pub update_job : ℕ → (Job → Job) → Database → Database
update_job k f [] = []
update_job k f (j ∷ rest) = if j.id == k then f j ∷ rest else j ∷ update_job k f rest

-- `output_dir.stat()` after the run: a directory, another file, or an `OSError` on the heap.
pub data DirCheck : Type 0 where
  directory no_directory : DirCheck
  unreadable : Heap → Exception → DirCheck

-- `runtime_job.run(…)`: an exit code, or an exception on the heap.
pub data RunOutcome : Type 0 where
  exited : Option ℤ → RunOutcome
  raised : Heap → ℕ → RunOutcome

pub record RunEnv : Type 0 where
  pub lock_free : Bool
  pub started : ℕ
  pub finished : ℕ
  pub outcome : RunOutcome
  pub dir_check : DirCheck
  pub lib : PathLib
  pub output_dir : FilePath
  -- the latest combined log, and its tail in lower case
  pub combined_log : Option String
  pub log_tail : String

abbrev pub max_infra_error_retries : ℕ
max_infra_error_retries = 5

unfoldable pub should_retry_as_infra_error : ℕ → Bool
should_retry_as_infra_error retry_count = ltb retry_count max_infra_error_retries

-- `marker in lower`
abbrev pub mentions : String → String → Bool
mentions text marker = is_some (find? text marker)

unfoldable pub looks_like_config_error_from_log : String → Bool
looks_like_config_error_from_log lower =
    some_of (mentions lower) ("unrecognized arguments" ∷ "unknown option" ∷ [])

unfoldable pub looks_like_infra_error_from_log : String → Bool
looks_like_infra_error_from_log lower = some_of (mentions lower) (
    "is invalid or not writable" ∷ "permission denied" ∷ "transport endpoint is not connected"
    ∷ "[errno 107]" ∷ "[errno 13]" ∷ "[errno 1]" ∷ [])

-- How a run ends: what is written to the row, and what is returned.
pub record Verdict : Type 0 where
  pub status : String
  pub crawler_status : String
  pub crawler_exit_code : Option ℤ
  pub returned : ℤ

-- An infrastructure error is retried while the row's retry count is below the cap.
unfoldable pub infra_verdict : ℕ → Option ℤ → ℤ → Verdict
unfolding should_retry_as_infra_error
infra_verdict retry_count code rc = record {
  status = if should_retry_as_infra_error retry_count then "retryable" else "failed";
  crawler_status = "infra_error";
  crawler_exit_code = code;
  returned = rc;
}

abbrev pub config_verdict : Option ℤ → ℤ → Verdict
config_verdict code rc = record {
  status = "failed";
  crawler_status = "infra_error_config";
  crawler_exit_code = code;
  returned = rc;
}

abbrev pub yes_of : Option Bool → Bool
yes_of none = false
yes_of (some b) = b

-- The exception of the run is one of the storage, or of the output directory.
unfoldable pub is_infra : RunEnv → Heap → ℕ → Bool
is_infra env heap k =
    yes_of (is_storage_infra_error heap k)
    || yes_of (is_output_dir_write_infra_error env.lib env.output_dir heap k)

-- A nonzero exit code with a readable directory: the log's tail decides.
unfoldable pub log_verdict : RunEnv → ℕ → ℤ → Verdict
unfolding infra_verdict
log_verdict env retry_count rc =
    let failed : Verdict = record {
      status = "failed";
      crawler_status = "failed";
      crawler_exit_code = some rc;
      returned = rc;
    } in
    if is_some env.combined_log
    then (if looks_like_infra_error_from_log env.log_tail
        then infra_verdict retry_count (some rc) rc
        else if looks_like_config_error_from_log env.log_tail
        then config_verdict (some rc) rc
        else failed)
    else failed

-- A nonzero exit code, by what the output directory is.
unfoldable pub failure_verdict : RunEnv → ℕ → ℤ → DirCheck → Verdict
failure_verdict env retry_count rc no_directory = config_verdict (some rc) rc
failure_verdict env retry_count rc directory = log_verdict env retry_count rc
failure_verdict env retry_count rc (unreadable heap x) =
    if is_storage_infra_errno x.errno
      || yes_of (is_output_dir_write_infra_error env.lib env.output_dir heap x.id)
    then infra_verdict retry_count (some rc) rc
    else log_verdict env retry_count rc

-- The second session of `run_persistent_job`, by how the run ended.
unfoldable pub verdict : RunEnv → ℕ → RunOutcome → Verdict
verdict env retry_count (raised heap k) =
    if is_infra env heap k
    then infra_verdict retry_count none (pos 1)
    else config_verdict none (pos 1)
verdict env retry_count (exited none) = config_verdict none (pos 1)
verdict env retry_count (exited (some rc)) =
    if rc == pos 0
    then record {
      status = "completed";
      crawler_status = "success";
      crawler_exit_code = some rc;
      returned = rc;
    }
    else failure_verdict env retry_count rc env.dir_check

-- The row as the first session marks it.
unfoldable pub mark_running : RunEnv → Job → Job
mark_running env j = record j {
  status = "running";
  started_at = some env.started;
  finished_at = none;
  crawler_exit_code = none;
  crawler_status = none;
  crawler_stage = none;
  combined_log_path = none;
  updated_at = env.started;
}

-- The row as the second session leaves it.
unfoldable pub record_verdict : RunEnv → Verdict → Job → Job
record_verdict env v j = record j {
  status = v.status;
  crawler_status = some v.crawler_status;
  crawler_exit_code = v.crawler_exit_code;
  finished_at = some env.finished;
  combined_log_path = elim env.combined_log [ none ↦ j.combined_log_path | some path ↦ some path ];
  updated_at = env.finished;
}

-- What `run_persistent_job` does to its caller.
pub data Ran : Type 0 where
  lock_held value_error : Ran
  returned : ℤ → Ran

-- The checks of the first session.
unfoldable pub is_runnable : Job → Bool
is_runnable j =
    if j.status == "queued" || j.status == "retryable"
    then elim j.config [ malformed ↦ false | config [] ↦ false | config (_ ∷ _) ↦ true ]
    else false

unfoldable pub run_persistent_job : RunEnv → ℕ → Database → Ran × Database
unfolding is_runnable mark_running record_verdict
run_persistent_job env k db =
    if env.lock_free
    then elim (get_job k db) [
      | none ↦ (value_error, db)
      | some j ↦
          if is_runnable j
          then (let v = verdict env j.retry_count env.outcome in
              (
                returned v.returned,
                update_job k (λ i. record_verdict env v (mark_running env i)) db,
              ))
          else (value_error, db)
    ]
    else (lock_held, db)
