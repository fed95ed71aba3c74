-- ===== src/Worker.antt =====
-- src/ha_backend/worker/main.py: one iteration of the worker, and its loop.
pub mod Select
pub mod Retries
pub mod Outcome
pub mod Others
mod Tests
use healtharchive_backend.Base.{
  ℕ, ◌+◌, ◌-◌, ◌*◌, ◌/◌, String, Bool, true, false, ◌||◌, ◌&&◌, not, Option, none, some, is_some,
  List, [], ◌∷◌, ◌==◌, nat_eq, string_eq, if◌then◌else◌, ltb, leb,
}
use healtharchive_backend.Base.Int.{ℤ, pos, int_eq}
use healtharchive_backend.Jobs.{
  Job, Database, get_job, update_job, RunEnv, Ran, lock_held, value_error, returned,
  run_persistent_job,
}

abbrev pub max_crawl_retries : ℕ
max_crawl_retries = 2

-- Ten minutes.
abbrev pub infra_error_retry_cooldown : ℕ
infra_error_retry_cooldown = 10 * 60 * 1000000

abbrev pub disk_headroom_threshold_percent : ℕ
disk_headroom_threshold_percent = 85

-- The size and the free space that `os.statvfs` gives, or an `OSError`.
unfoldable pub check_disk_headroom : Option (ℕ × ℕ) → Bool × ℕ
check_disk_headroom none = (true, 0)
check_disk_headroom (some (total, free)) =
    let usage = 100 * (total - free) / total in
    if total == 0 then (true, 0) else (ltb usage disk_headroom_threshold_percent, usage)

-- What `_tier_annual_job_if_needed` asks about a job, and the script's exit code (`none` is an
-- exception or a timeout) and the device of the directory after it.
pub record Tiering : Type 0 where
  pub is_annual : Bool
  pub dir_exists : Bool
  pub is_mountpoint : Bool
  pub has_campaign_year : Bool
  pub script : Option ℤ
  pub device : Option String

unfoldable pub is_on_root_device : Option String → Bool
is_on_root_device none = true
is_on_root_device (some device) = device == "/dev/sda1"

-- Whether `_tier_annual_job_if_needed` raises.
unfoldable pub tiering_raises : Tiering → Bool
unfolding is_on_root_device
tiering_raises t =
    if t.is_annual && (t.dir_exists && (not t.is_mountpoint && t.has_campaign_year))
    then elim t.script [
      | none ↦ true
      | some rc ↦ if rc == pos 0 then is_on_root_device t.device else true
    ]
    else false

-- The filter of `_select_next_crawl_job`; the join drops a job with no source.
unfoldable pub is_eligible : ℕ → Job → Bool
is_eligible now j =
    j.has_source
    && ((j.status == "queued" || j.status == "retryable") && elim j.crawler_status [
      | none ↦ true
      | some status ↦
          not (status == "infra_error") || leb (j.updated_at + infra_error_retry_cooldown) now
    ])

-- `queued_at ASC NULLS FIRST, created_at ASC`: strictly before.
unfoldable pub is_before : Job → Job → Bool
is_before a b = elim a.queued_at [
  | none ↦ elim b.queued_at [ none ↦ ltb a.created_at b.created_at | some _ ↦ true ]
  | some q ↦ elim b.queued_at [
    | none ↦ false
    | some r ↦ ltb q r || (q == r && ltb a.created_at b.created_at)
  ]
]

-- The first row in that order; the earlier row of the table on a tie.
unfoldable pub select_next_crawl_job : ℕ → Database → Option Job
select_next_crawl_job now [] = none
select_next_crawl_job now (j ∷ rest) =
    let later = select_next_crawl_job now rest in
    if is_eligible now j
    then elim later [ none ↦ some j | some k ↦ some (if is_before k j then k else j) ]
    else later

-- How `index_job` ends for a job that it may index.
pub data Indexing : Type 0 where
  indexes fails : Indexing

-- What one iteration meets outside.
pub record WorkerEnv : Type 0 where
  pub now : ℕ
  pub disk : Option (ℕ × ℕ)
  pub tiering : Tiering
  pub run : RunEnv
  pub indexing : Indexing

-- An iteration returns whether it did something, or raises.
pub data Iteration : Type 0 where
  processed : Bool → Iteration
  unexpected_error : Iteration

-- The row when another process holds the job's lock.
unfoldable pub sync_running : ℕ → Job → Job
sync_running now j = if j.status == "running" then j else record j {
  status = "running";
  started_at = if is_some j.started_at then j.started_at else some now;
  finished_at = none;
  updated_at = now;
}

-- The row after `index_job`, as far as its status goes.
unfoldable pub after_indexing : ℕ → Indexing → Job → Job
after_indexing now indexes j = record j { status = "indexed"; updated_at = now }
after_indexing now fails j = record j { status = "index_failed"; updated_at = now }

abbrev pub has_crawler_status : String → Job → Bool
has_crawler_status status j = elim j.crawler_status [ none ↦ false | some s ↦ s == status ]

-- `index_job` refuses a job that is not complete.
unfoldable pub may_index : Job → Bool
may_index j =
    j.has_source
    && (j.status == "completed" || (j.status == "index_failed" || j.status == "indexed"))

-- The row after a crawl that returned `rc`, and whether indexing follows.
unfoldable pub after_crawl : ℕ → ℤ → Job → Job × Bool
after_crawl now rc j =
    if has_crawler_status "infra_error" j
    then (
      (if j.status == "retryable" then j else record j { status = "retryable"; updated_at = now }),
      false,
    )
    else if has_crawler_status "infra_error_config" j
    then (j, false)
    else if not (rc == pos 0) || j.status == "failed"
    then (
      (if ltb j.retry_count max_crawl_retries
          then record j { retry_count = j.retry_count + 1; status = "retryable"; updated_at = now }
          else j),
      false,
    )
    else (j, true)

-- The second half of `_process_single_job`: the row is read again, and indexed after a success.
unfoldable pub finish_crawl : WorkerEnv → ℤ → ℕ → Database → Iteration × Database
finish_crawl env rc k db = elim (get_job k db) [
  | none ↦ (processed true, db)
  | some j ↦
      let db' = update_job k (λ i. (after_crawl env.now rc i).0) db in
      if (after_crawl env.now rc j).1
      then (if may_index j
          then (processed true, update_job k (after_indexing env.now env.indexing) db')
          else (unexpected_error, db'))
      else (processed true, db')
]

-- The worker's reaction to how the run ended.
unfoldable pub after_run : WorkerEnv → ℕ → Ran → Database → Iteration × Database
after_run env k lock_held db = (processed true, update_job k (sync_running env.now) db)
after_run env k value_error db = (unexpected_error, db)
after_run env k (returned rc) db = finish_crawl env rc k db

-- The crawl of the job that was selected.
unfoldable pub crawl_job : WorkerEnv → ℕ → Database → Iteration × Database
crawl_job env k db = let (ran, db') = run_persistent_job env.run k db in after_run env k ran db'

-- `_process_single_job`
unfoldable pub process_single_job : WorkerEnv → Database → Iteration × Database
process_single_job env db =
    if (check_disk_headroom env.disk).0
    then elim (select_next_crawl_job env.now db) [
      | none ↦ (processed false, db)
      | some j ↦
          if tiering_raises env.tiering then (unexpected_error, db) else crawl_job env j.id db
    ]
    else (processed false, db)

-- `run_worker_loop`, one environment for each iteration; an error ends only its own iteration.
unfoldable pub run_worker_loop : List WorkerEnv → Database → Database
run_worker_loop [] db = db
run_worker_loop (env ∷ rest) db = run_worker_loop rest (process_single_job env db).1
