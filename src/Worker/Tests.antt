-- ===== src/Worker/Tests.antt =====
-- The worker's laws at a table of two jobs, the first of which was retried too recently.
use healtharchive_backend.Base.{
  ◌≡◌, true, false, refl, arith, none, some, [], ◌∷◌, All, nat_eq, string_eq,
}
use healtharchive_backend.Jobs.{Job, Database, get_job, verdict, is_runnable}
use healtharchive_backend.Jobs.Tests.{queued_job, failing_run}
use healtharchive_backend.Worker.{
  WorkerEnv, Tiering, indexes, check_disk_headroom, is_eligible, select_next_crawl_job,
  tiering_raises, process_single_job, run_worker_loop,
}
use healtharchive_backend.Worker.Select.{Row, IsFirst, select-some}
use healtharchive_backend.Worker.Retries.{InBudget, run_worker_loop-InBudget}
use healtharchive_backend.Worker.Others.{get-process_single_job_other}
use healtharchive_backend.Worker.Outcome.{Settled, process_single_job-Settled}

abbrev cooling_job : Job
cooling_job = record queued_job {
  id = 3;
  status = "retryable";
  crawler_status = some "infra_error";
}

abbrev table : Database
table = cooling_job ∷ queued_job ∷ []

abbrev untiered : Tiering
untiered = record {
  is_annual = false;
  dir_exists = true;
  is_mountpoint = false;
  has_campaign_year = false;
  script = none;
  device = none;
}

abbrev worker : WorkerEnv
worker = record {
  now = 400;
  disk = some (1000, 500);
  tiering = untiered;
  run = failing_run;
  indexing = indexes;
}

select-some_example :
    Row queued_job table × (is_eligible 400 queued_job ≡ true) × IsFirst 400 queued_job table
unfolding select_next_crawl_job is_eligible
select-some_example = select-some 400 table queued_job refl

run_worker_loop-InBudget_example : All InBudget (run_worker_loop (worker ∷ worker ∷ []) table)
run_worker_loop-InBudget_example =
    run_worker_loop-InBudget (worker ∷ worker ∷ []) table (omega arith, (omega arith, tt))

process_single_job-Settled_example :
    (i : Job) × (get_job 7 (process_single_job worker table).1 ≡ some i)
    × Settled worker queued_job (verdict failing_run 1 failing_run.outcome) i
unfolding check_disk_headroom select_next_crawl_job is_eligible get_job tiering_raises is_runnable
process_single_job-Settled_example =
    process_single_job-Settled worker table queued_job refl refl refl refl refl refl

get-process_single_job_other_example :
    get_job 3 (process_single_job worker table).1 ≡ get_job 3 table
unfolding select_next_crawl_job is_eligible
get-process_single_job_other_example =
    get-process_single_job_other worker table queued_job 3 refl (λ e. omega arith)
