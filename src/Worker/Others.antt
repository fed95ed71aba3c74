-- ===== src/Worker/Others.antt =====
-- What an iteration of the worker leaves alone (src/ha_backend/worker/main.py).
use healtharchive_backend.Base.{
  ℕ, ◌≡◌, ◌≢◌, refl, ◌∙◌, some, nat_eq, arith, inl, inr, Bool-cases, Option-cases,
}
use healtharchive_backend.Base.Int.{ℤ}
use healtharchive_backend.Jobs.{
  Job, Database, get_job, update_job, RunEnv, Ran, lock_held, value_error, returned, is_runnable,
  mark_running, record_verdict, run_persistent_job,
}
use healtharchive_backend.Jobs.Run.{get-update_job}
use healtharchive_backend.Worker.{
  WorkerEnv, check_disk_headroom, select_next_crawl_job, tiering_raises, sync_running,
  after_indexing, after_crawl, may_index, finish_crawl, after_run, crawl_job, process_single_job,
}
use healtharchive_backend.Worker.Outcome.{id-after_crawl, id-after_indexing}

module _ (i k : ℕ) (other : k ≢ i) where
  get-update_other :
      (f : Job → Job) (db : Database)
      → ((j : Job) → (f j).id ≡ j.id)
      → get_job k (update_job i f db) ≡ get_job k db
  get-update_other f db keeps = ground (arith, get-update_job i k f db keeps)

  get-run_other :
      (env : RunEnv) (db : Database) → get_job k (run_persistent_job env i db).1 ≡ get_job k db
  unfolding run_persistent_job record_verdict mark_running
  get-run_other env db = elim (Bool-cases env.lock_free) [
    | inr held ↦ rw (held, run_persistent_job) refl
    | inl free ↦ elim (Option-cases (get_job i db)) [
      | inl gone ↦ rw (free, gone, run_persistent_job) refl
      | inr (j, found) ↦ elim (Bool-cases (is_runnable j)) [
        | inr refused ↦ rw (free, found, refused, run_persistent_job) refl
        | inl runs ↦ rw (free, found, runs, run_persistent_job) (get-update_other _ db (λ j. refl))
      ]
    ]
  ]

  get-finish_other :
      (env : WorkerEnv) (rc : ℤ) (db : Database)
      → get_job k (finish_crawl env rc i db).1 ≡ get_job k db
  unfolding finish_crawl
  get-finish_other env rc db =
      let once =
        get-update_other (λ j. (after_crawl env.now rc j).0) db (id-after_crawl env.now rc) in
      let twice =
        get-update_other (after_indexing env.now env.indexing)
          (update_job i (λ j. (after_crawl env.now rc j).0) db)
          (id-after_indexing env.now env.indexing) in
      elim (Option-cases (get_job i db)) [
        | inl gone ↦ rw (gone, finish_crawl) refl
        | inr (j, found) ↦ elim (Bool-cases (after_crawl env.now rc j).1) [
          | inr over ↦ rw (found, over, finish_crawl) once
          | inl complete ↦ elim (Bool-cases (may_index j)) [
            | inl may ↦ rw (found, complete, may, finish_crawl) (twice ∙ once)
            | inr refused ↦ rw (found, complete, refused, finish_crawl) once
          ]
        ]
      ]

  get-ran_other :
      (env : WorkerEnv) (ran : Ran) (db : Database)
      → get_job k (after_run env i ran db).1 ≡ get_job k db
  unfolding after_run sync_running
  get-ran_other env lock_held db = get-update_other (sync_running env.now) db (λ j. ground arith)
  get-ran_other env value_error db = refl
  get-ran_other env (returned rc) db = get-finish_other env rc db

-- An iteration that selects a job changes no other row, however the run ends.
pub get-process_single_job_other :
    (env : WorkerEnv) (db : Database) (j : Job) (k : ℕ)
    → select_next_crawl_job env.now db ≡ some j
    → k ≢ j.id
    → get_job k (process_single_job env db).1 ≡ get_job k db
unfolding process_single_job crawl_job
get-process_single_job_other env db j k picked other =
    elim (Bool-cases (check_disk_headroom env.disk).0) [
      | inr full ↦ rw (full, process_single_job) refl
      | inl room ↦ elim (Bool-cases (tiering_raises env.tiering)) [
        | inl raises ↦ rw (room, picked, raises, process_single_job) refl
        | inr passes ↦
            rw (room, picked, passes, process_single_job)
              (get-ran_other j.id k other env (run_persistent_job env.run j.id db).0 _
                ∙ get-run_other j.id k other env.run db)
      ]
    ]
