-- ===== src/Worker/Outcome.antt =====
-- The row of the selected job after an iteration of the worker (src/ha_backend/worker/main.py).
use healtharchive_backend.Base.{
  ℕ, ◌+◌, ◌≤◌, ◌<◌, String, true, false, ◌≡◌, refl, some, nat_eq, string_eq, eq_iff, arith,
  if◌then◌else◌, ◌⊎◌,
}
use mathlib.Core.Path.{subst}
use healtharchive_backend.Base.Int.{ℤ, pos, int_eq}
use healtharchive_backend.Jobs.{
  Job, Database, get_job, update_job, RunEnv, Verdict, verdict, returned, is_runnable, mark_running,
  record_verdict, run_persistent_job,
}
use healtharchive_backend.Jobs.Run.{get-update_job, verdict_lem}
use healtharchive_backend.Worker.{
  WorkerEnv, check_disk_headroom, select_next_crawl_job, tiering_raises, after_indexing, Indexing,
  indexes, fails, after_crawl, after_run, finish_crawl, crawl_job, process_single_job,
  max_crawl_retries, may_index,
}

get-update_self :
    (k : ℕ) (f : Job → Job) (db : Database) {j : Job}
    → ((i : Job) → (f i).id ≡ i.id)
    → get_job k db ≡ some j
    → get_job k (update_job k f db) ≡ some (f j)
get-update_self k f db keeps found = ground (arith, get-update_job k k f db keeps)

-- The row after the crawl, and after indexing if that follows.
final : WorkerEnv → ℤ → Job → Job
final env rc j =
    let next = after_crawl env.now rc j in
    if next.1
    then (if may_index j then after_indexing env.now env.indexing next.0 else next.0)
    else next.0

pub id-after_crawl : (now : ℕ) (rc : ℤ) (j : Job) → (after_crawl now rc j).0.id ≡ j.id
unfolding after_crawl
id-after_crawl now rc j = ground arith

pub id-after_indexing : (now : ℕ) (i : Indexing) (j : Job) → (after_indexing now i j).id ≡ j.id
unfolding after_indexing
id-after_indexing now indexes j = refl
id-after_indexing now fails j = refl

get-finish :
    (env : WorkerEnv) (rc : ℤ) (k : ℕ) (db : Database) (j : Job)
    → get_job k db ≡ some j
    → get_job k (finish_crawl env rc k db).1 ≡ some (final env rc j)
unfolding finish_crawl final
get-finish env rc k db j found =
    let f = λ (i : Job). (after_crawl env.now rc i).0 in
    let once = get-update_self k f db (id-after_crawl env.now rc) found in
    let twice =
      get-update_self k (after_indexing env.now env.indexing) (update_job k f db)
        (id-after_indexing env.now env.indexing) once in
    rw (found, finish_crawl) (ground (arith, once, twice))

-- What becomes of the job of an iteration, by the crawler's status that its run ended with.
abbrev pub Settled : WorkerEnv → Job → Verdict → Job → Type 0
Settled env j v i =
    (v.crawler_status ≡ "infra_error" → (i.status ≡ "retryable") × (i.retry_count ≡ j.retry_count))
    × (v.crawler_status ≡ "infra_error_config"
        → (i.status ≡ "failed") × (i.retry_count ≡ j.retry_count))
    × (v.crawler_status ≡ "failed"
        → ((j.retry_count < max_crawl_retries)
            × (i.status ≡ "retryable")
            × (i.retry_count ≡ j.retry_count + 1))
          ⊎ ((max_crawl_retries ≤ j.retry_count)
              × (i.status ≡ "failed")
              × (i.retry_count ≡ j.retry_count)))
    × (v.crawler_status ≡ "success"
        → j.has_source ≡ true
        → (i.status ≡ elim env.indexing [ indexes ↦ "indexed" | fails ↦ "index_failed" ])
          × (i.retry_count ≡ j.retry_count))

-- The row after a run with this verdict.
abbrev final_of : WorkerEnv → Job → Verdict → Job
final_of env j v = final env v.returned (record_verdict env.run v (mark_running env.run j))

module _ (env : WorkerEnv) (j : Job) (v : Verdict) where
  after_infra_error :
      let w = record v { crawler_status = "infra_error" } in
      ((final_of env j w).status ≡ "retryable") × ((final_of env j w).retry_count ≡ j.retry_count)
  unfolding final after_crawl record_verdict mark_running
  after_infra_error = ground (arith, eq_iff v.status "retryable")

  after_config_error :
      let w = record v { crawler_status = "infra_error_config"; status = "failed" } in
      ((final_of env j w).status ≡ "failed") × ((final_of env j w).retry_count ≡ j.retry_count)
  unfolding final after_crawl record_verdict mark_running
  after_config_error = (refl, refl)

  after_failure :
      let w = record v { crawler_status = "failed"; status = "failed" } in
      let i = final_of env j w in
      ((j.retry_count < max_crawl_retries)
        × (i.status ≡ "retryable")
        × (i.retry_count ≡ j.retry_count + 1))
      ⊎ ((max_crawl_retries ≤ j.retry_count)
          × (i.status ≡ "failed")
          × (i.retry_count ≡ j.retry_count))
  unfolding final after_crawl record_verdict mark_running
  after_failure = ground arith

  after_success :
      let w = record v { crawler_status = "success"; status = "completed"; returned = pos 0 } in
      let i = final_of env j w in
      j.has_source ≡ true
      → (i.status ≡ elim env.indexing [ indexes ↦ "indexed" | fails ↦ "index_failed" ])
        × (i.retry_count ≡ j.retry_count)
  unfolding final after_crawl record_verdict mark_running may_index after_indexing
  after_success h = ground arith

-- The status that goes with a crawler's status.
module _ (env : RunEnv) (n : ℕ) where
  abbrev ended : Verdict
  ended = verdict env n env.outcome

  failed_of_config : ended.crawler_status ≡ "infra_error_config" → ended.status ≡ "failed"
  failed_of_config h = ground (
    arith,
    verdict_lem env n env.outcome,
    eq_iff "infra_error_config" "success",
    eq_iff "infra_error_config" "infra_error",
  )

  failed_of_failed : ended.crawler_status ≡ "failed" → ended.status ≡ "failed"
  failed_of_failed h = ground (
    arith,
    verdict_lem env n env.outcome,
    eq_iff "failed" "success",
    eq_iff "failed" "infra_error",
  )

  completed_of_success :
      ended.crawler_status ≡ "success" → (ended.status ≡ "completed") × (ended.returned ≡ pos 0)
  completed_of_success h = ground (
    arith,
    verdict_lem env n env.outcome,
    eq_iff "success" "infra_error",
    eq_iff "success" "infra_error_config",
    eq_iff "success" "failed",
  )

-- The final row has this status and the retry count from before.
abbrev EndsAs : WorkerEnv → Job → String → Verdict → Type 0
EndsAs env j status v =
    ((final_of env j v).status ≡ status) × ((final_of env j v).retry_count ≡ j.retry_count)

-- The final row is retried within the worker's budget, and failed beyond it.
abbrev EndsBudgeted : WorkerEnv → Job → Verdict → Type 0
EndsBudgeted env j v =
    let i = final_of env j v in
    ((j.retry_count < max_crawl_retries)
      × (i.status ≡ "retryable")
      × (i.retry_count ≡ j.retry_count + 1))
    ⊎ ((max_crawl_retries ≤ j.retry_count)
        × (i.status ≡ "failed")
        × (i.retry_count ≡ j.retry_count))

final-Settled :
    (env : WorkerEnv) (j : Job)
    → let v = verdict env.run j.retry_count env.run.outcome in Settled env j v (final_of env j v)
final-Settled env j =
    let n = j.retry_count in
    let v = verdict env.run n env.run.outcome in
    let indexed : String = elim env.indexing [ indexes ↦ "indexed" | fails ↦ "index_failed" ] in
    (
      λ h. subst (EndsAs env j "retryable") (ground arith) (after_infra_error env j v),
      λ h.
          let s = failed_of_config env.run n h in
          subst (EndsAs env j "failed") (ground arith) (after_config_error env j v),
      λ h.
          let s = failed_of_failed env.run n h in
          subst (EndsBudgeted env j) (ground arith) (after_failure env j v),
      λ h source.
          let s = completed_of_success env.run n h in
          subst (EndsAs env j indexed) (ground arith) (after_success env j v source),
    )

get-run :
    (env : RunEnv) (db : Database) (j : Job)
    → env.lock_free ≡ true
    → get_job j.id db ≡ some j
    → is_runnable j ≡ true
    → let v = verdict env j.retry_count env.outcome in
      ((run_persistent_job env j.id db).0 ≡ returned v.returned)
      × (get_job j.id (run_persistent_job env j.id db).1
          ≡ some (record_verdict env v (mark_running env j)))
unfolding run_persistent_job
get-run env db j free found runs =
    let v = verdict env j.retry_count env.outcome in
    let write = λ (i : Job). record_verdict env v (mark_running env i) in
    let kept : (i : Job) → (write i).id ≡ i.id = λ i. unfold record_verdict mark_running in refl in
    let row = get-update_self j.id write db kept found in (ground (arith, row), ground (arith, row))

-- When the selected job is crawled, that is, with headroom, tiering that does not raise, the lock free
-- and a row that may run (the first one with its identity), the crawler's status of the run settles
-- the row. After an infrastructure error it is retryable, at any retry count, which stays. After a
-- configuration error it is failed. After any other failure it is retryable with one retry more if
-- fewer than two were made, and failed if not. After a success of a job with a source, its status is
-- the one that indexing leaves.
pub process_single_job-Settled :
    (env : WorkerEnv) (db : Database) (j : Job)
    → (check_disk_headroom env.disk).0 ≡ true
    → select_next_crawl_job env.now db ≡ some j
    → get_job j.id db ≡ some j
    → tiering_raises env.tiering ≡ false
    → env.run.lock_free ≡ true
    → is_runnable j ≡ true
    → (i : Job) × (get_job j.id (process_single_job env db).1 ≡ some i)
      × Settled env j (verdict env.run j.retry_count env.run.outcome) i
unfolding process_single_job crawl_job after_run
process_single_job-Settled env db j room picked found passes free runs =
    let v = verdict env.run j.retry_count env.run.outcome in
    let (ran, row) = get-run env.run db j free found runs in
    (
      final_of env j v,
      simp (room, picked, passes, ran) (get-finish env v.returned j.id _ _ row),
      final-Settled env j,
    )
