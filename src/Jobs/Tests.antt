-- ===== src/Jobs/Tests.antt =====
-- A queued job, and a run of it that fails with the log showing a broken mount.
use healtharchive_backend.Base.{◌≡◌, ◌≢◌, ◌⊎◌, true, none, some, [], ◌∷◌}
use healtharchive_backend.Base.Int.{pos}
use healtharchive_backend.Jobs.{Job, config, RunEnv, exited, directory, verdict}
use healtharchive_backend.Jobs.Run.{Failed, verdict_lem}

abbrev pub queued_job : Job
queued_job = record {
  id = 7;
  has_source = true;
  status = "queued";
  queued_at = some 100;
  created_at = 90;
  updated_at = 100;
  started_at = none;
  finished_at = none;
  retry_count = 1;
  config = config ("https://www.canada.ca/en/health-canada.html" ∷ []);
  crawler_exit_code = none;
  crawler_status = none;
  crawler_stage = none;
  combined_log_path = none;
}

abbrev pub failing_run : RunEnv
failing_run = record {
  lock_free = true;
  started = 200;
  finished = 300;
  outcome = exited (some (pos 2));
  dir_check = directory;
  lib = record { of_text = λ raw. none; resolve = λ p. none };
  output_dir = record { absolute = true; parts = "jobs" ∷ "7" ∷ [] };
  combined_log = some "/jobs/7/archive_crawl.combined.log";
  log_tail = "oserror: [errno 107] transport endpoint is not connected";
}

verdict_lem_example :
    let v = verdict failing_run 1 (exited (some (pos 2))) in
    ((exited (some (pos 2)) ≡ exited (some (pos 0)))
      × (v.status ≡ "completed")
      × (v.crawler_status ≡ "success")
      × (v.returned ≡ pos 0))
    ⊎ ((exited (some (pos 2)) ≢ exited (some (pos 0))) × Failed 1 v)
verdict_lem_example = verdict_lem failing_run 1 (exited (some (pos 2)))
