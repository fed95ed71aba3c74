-- ===== src/Worker/Retries.antt =====
-- How often the worker retries (src/ha_backend/worker/main.py, `_process_single_job`).
use healtharchive_backend.Base.{
  ℕ, ◌≤◌, List, [], ◌∷◌, ◌==◌, nat_eq, string_eq, arith, inl, inr, Option-cases, Bool-cases, All,
}
use healtharchive_backend.Base.Int.{ℤ, int_eq}
use healtharchive_backend.Jobs.{
  Job, Database, get_job, update_job, RunEnv, Ran, lock_held, value_error, returned, is_runnable,
  run_persistent_job,
}
use healtharchive_backend.Worker.{
  WorkerEnv, check_disk_headroom, select_next_crawl_job, tiering_raises, sync_running,
  after_indexing, Indexing, indexes, fails, after_crawl, finish_crawl, after_run, crawl_job,
  process_single_job, run_worker_loop, max_crawl_retries, may_index,
}

-- A property of single rows that every change keeps.
module _ (P : Job → Type 0) where
  All-update :
      (k : ℕ) (f : Job → Job) (db : Database)
      → ((j : Job) → P j → P (f j))
      → All P db
      → All P (update_job k f db)
  unfolding update_job
  All-update k f [] keeps h = tt
  All-update k f (j ∷ db) keeps (hj, h) = elim (Bool-cases (j.id == k)) [
    | inl this ↦ rw this (keeps j hj, h)
    | inr that ↦ rw that (hj, All-update k f db keeps h)
  ]

-- The retry count of a row is within the worker's budget.
abbrev pub InBudget : Job → Type 0
InBudget j = j.retry_count ≤ max_crawl_retries

InBudget-after_crawl : (now : ℕ) (rc : ℤ) (j : Job) → InBudget j → InBudget (after_crawl now rc j).0
unfolding after_crawl
InBudget-after_crawl now rc j h = ground arith

InBudget-sync_running : (now : ℕ) (j : Job) → InBudget j → InBudget (sync_running now j)
unfolding sync_running
InBudget-sync_running now j h = ground arith

InBudget-after_indexing :
    (now : ℕ) (i : Indexing) (j : Job) → InBudget j → InBudget (after_indexing now i j)
unfolding after_indexing
InBudget-after_indexing now indexes j h = h
InBudget-after_indexing now fails j h = h

InBudget-run :
    (env : RunEnv) (k : ℕ) (db : Database)
    → All InBudget db
    → All InBudget (run_persistent_job env k db).1
unfolding run_persistent_job
InBudget-run env k db h = elim (Bool-cases env.lock_free) [
  | inr held ↦ rw (held, run_persistent_job) h
  | inl free ↦ elim (Option-cases (get_job k db)) [
    | inl gone ↦ rw (free, gone, run_persistent_job) h
    | inr (j, found) ↦ elim (Bool-cases (is_runnable j)) [
      | inr refused ↦ rw (free, found, refused, run_persistent_job) h
      | inl runs ↦
          rw (free, found, runs, run_persistent_job) (All-update InBudget k _ db (λ i b. b) h)
    ]
  ]
]

InBudget-finish :
    (env : WorkerEnv) (rc : ℤ) (k : ℕ) (db : Database)
    → All InBudget db
    → All InBudget (finish_crawl env rc k db).1
unfolding finish_crawl
InBudget-finish env rc k db h =
    let crawled =
      All-update InBudget k (λ i. (after_crawl env.now rc i).0) db (InBudget-after_crawl env.now rc)
        h in
    let done =
      All-update InBudget k (after_indexing env.now env.indexing) _
        (InBudget-after_indexing env.now env.indexing) crawled in
    elim (Option-cases (get_job k db)) [
      | inl gone ↦ rw (gone, finish_crawl) h
      | inr (j, found) ↦ elim (Bool-cases (after_crawl env.now rc j).1) [
        | inr over ↦ rw (found, over, finish_crawl) crawled
        | inl complete ↦ elim (Bool-cases (may_index j)) [
          | inl may ↦ rw (found, complete, may, finish_crawl) done
          | inr refused ↦ rw (found, complete, refused, finish_crawl) crawled
        ]
      ]
    ]

InBudget-ran :
    (env : WorkerEnv) (k : ℕ) (db : Database) (ran : Ran)
    → All InBudget db
    → All InBudget (after_run env k ran db).1
unfolding after_run
InBudget-ran env k db lock_held h = All-update InBudget k _ db (InBudget-sync_running env.now) h
InBudget-ran env k db value_error h = h
InBudget-ran env k db (returned rc) h = InBudget-finish env rc k db h

InBudget-process :
    (env : WorkerEnv) (db : Database) → All InBudget db → All InBudget (process_single_job env db).1
unfolding process_single_job crawl_job
InBudget-process env db h = elim (Bool-cases (check_disk_headroom env.disk).0) [
  | inr full ↦ rw (full, process_single_job) h
  | inl room ↦ elim (Option-cases (select_next_crawl_job env.now db)) [
    | inl nothing ↦ rw (room, nothing, process_single_job) h
    | inr (j, picked) ↦ elim (Bool-cases (tiering_raises env.tiering)) [
      | inl raises ↦ rw (room, picked, raises, process_single_job) h
      | inr passes ↦
          rw (room, picked, passes, process_single_job)
            (InBudget-ran env j.id _ _ (InBudget-run env.run j.id db h))
    ]
  ]
]

-- If every row's retry count is within the budget of two, that stays so however long the worker runs.
pub run_worker_loop-InBudget :
    (envs : List WorkerEnv) (db : Database)
    → All InBudget db
    → All InBudget (run_worker_loop envs db)
unfolding run_worker_loop
run_worker_loop-InBudget [] db h = h
run_worker_loop-InBudget (env ∷ envs) db h =
    run_worker_loop-InBudget envs (process_single_job env db).1 (InBudget-process env db h)
