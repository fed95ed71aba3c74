-- ===== src/Ops/Tests/RecoverTests.antt =====
-- The recovery of the stuck job.
use healtharchive_backend.Contract.{truthy}
use healtharchive_backend.Ops.Logs.{find_log_for_job}
use healtharchive_backend.Registry.{
  canonical_scope_filters_for_source, normalize_scope_passthrough_args,
  reconcile_scope_passthrough_args,
}
use healtharchive_backend.Registry.Templates.{set_item}
use healtharchive_backend.Ops.Recover.Fixes.{writes_any}
use healtharchive_backend.Contract.JobConfig.{fields_or_empty, text_list}
use healtharchive_backend.Ops.Recover.History.{count_recent}
use healtharchive_backend.Base.{ℕ, inl, ◌+◌, ◌<◌, ◌≡◌, refl, true, false, none, some, List, [], ◌∷◌}
use healtharchive_backend.Base.Int.{pos}
use healtharchive_backend.Json.{Fields, end, find_field, get_field}
use healtharchive_backend.Ops.{JobRow, missing, free, get_row, update_row}
use healtharchive_backend.Ops.Stale.{recover_stale_jobs}
use healtharchive_backend.Ops.Tests.{host, host-IsHost, stuck, now, no_files, stale_env}
use healtharchive_backend.Ops.Recover.Options.{ensure_recovery_tool_options}
use healtharchive_backend.Ops.Recover.Healed.{
  restarts_wanted, Heals, tool_of, ensure_recovery_tool_options_lem,
}
use healtharchive_backend.Ops.Recover.Runner.{Processes, worker_runner}
use healtharchive_backend.Ops.Recover.Sync.{RunningJob}
use healtharchive_backend.Ops.Recover.Watch.{Sight, drill}
use healtharchive_backend.Ops.Recover.Prepare.{
  World, RunEnd, finishes, raises, systemctl_stop, recover_stale,
}
use healtharchive_backend.Ops.Recover.Act.{ActArgs, ActEnv, circuit_of, recover_with, recover_job}
use healtharchive_backend.Ops.Recover.Main.{RecoverArgs, RecoverEnv, recover_first, auto_recover}
use healtharchive_backend.Ops.Recover.DryRun.{world_of, auto_recover-dry}
use healtharchive_backend.Ops.Recover.Counted.{recent}
use healtharchive_backend.Ops.Recover.Capped.{recover_job-capped}
use healtharchive_backend.Ops.Recover.Restart.{
  stop_mark_start, recover_with-restarts, recover_with-stranded,
}

abbrev act_hc : ActArgs
act_hc = record {
  apply = true;
  guard_seconds = 600;
  soft_recover_when_guarded = true;
  stall_threshold_seconds = 60;
  recover_older_than_minutes = pos 1;
  max_recoveries = 3;
  min_progress = pos 10;
  circuit_window = 3;
}

abbrev act_env_now : ActEnv
act_env_now = record { now = now; commits = true; stops = true; stale = stale_env; restarts = true }

abbrev stuck_job : RunningJob
stuck_job = record {
  job_id = 7;
  source_code = "hc";
  output_dir = some "/jobs/7";
  combined_log_path = none;
}

abbrev other_job : RunningJob
other_job = record {
  job_id = 8;
  source_code = "phac";
  output_dir = some "/jobs/8";
  combined_log_path = none;
}

abbrev world : World
world = record { table = stuck ∷ []; state = end; saved = none; commands = [] }

-- The recovery under the worker.
abbrev recovery : RunEnd
recovery = recover_job host act_hc act_env_now [] stuck_job worker_runner none world

recovery_done : recovery ≡ finishes (pos 0) "ok" "full_recovered" (world_of recovery)
unfolding recover_job circuit_of count_recent find_field get_field recover_stale_jobs get_row
    fields_or_empty text_list writes_any set_item reconcile_scope_passthrough_args
    canonical_scope_filters_for_source normalize_scope_passthrough_args update_row find_log_for_job
recovery_done = refl

recover_job-capped_example :
    (n : ℕ) × (recent host 7 now end ≡ some n)
    × (n < 3)
    × (circuit_of host act_hc 7 none end ≡ some false)
    × (recent host 7 now (world_of recovery).state ≡ some (n + 1))
recover_job-capped_example =
    recover_job-capped host host-IsHost act_hc act_env_now [] stuck_job worker_runner none world
      recovery_done

abbrev restart : RunEnd
restart =
    recover_with host act_hc act_env_now stuck_job none (some "healtharchive-worker.service") world

restart_done : restart ≡ finishes (pos 0) "ok" "full_recovered" (world_of restart)
unfolding recover_with recover_stale_jobs find_log_for_job find_field get_field truthy
restart_done = refl

recover_with-restarts_example :
    (world_of restart).commands ≡ stop_mark_start "healtharchive-worker.service" "hc" []
recover_with-restarts_example =
    recover_with-restarts host act_hc act_env_now stuck_job none "healtharchive-worker.service"
      world restart_done

-- Every row may be recovered, whatever its age.
abbrev any_age : ActArgs
any_age = record act_hc { recover_older_than_minutes = pos 0 }

recover_with-stranded_example :
    recover_with host any_age act_env_now stuck_job none (some "healtharchive-worker.service") world
    ≡ raises (record world {
      commands = systemctl_stop "healtharchive-worker.service" ∷ (recover_stale "hc" ∷ []);
    })
recover_with-stranded_example =
    recover_with-stranded host any_age act_env_now stuck_job none "healtharchive-worker.service"
      world (inl refl) refl

abbrev all_args : RecoverArgs
all_args = record {
  apply = true;
  watch = record {
    stall_threshold_seconds = 60;
    simulated = [];
    simulated_age_seconds = none;
    degraded_rate_enabled = false;
    degraded_threshold_milli_ppm = 0;
    degraded_max_age_seconds = 0;
    degraded_min_runs = 1;
    degraded_sources = [];
  };
  act = act_hc;
  launch = record {
    apply = true;
    ensure_min_running = 0;
    ensure_year = none;
    max_starts = 1;
    working_dir = "/opt";
    env_file = "/etc/env";
    user = "ha";
    group = "ha";
    ha_backend = "ha-backend";
    cpu_limit = "";
    memory_limit = "";
    max_disk_percent = pos 90;
  };
  simulated_runner = none;
  state_file = "state.json";
  lock_file = "lock";
  textfile_out_dir = "out";
  textfile_out_file = "out.prom";
  deploy_lock_max_age = 0;
}

abbrev nothing_seen : Processes
nothing_seen = record { services = []; ps_rows = some []; worker_pid = none; lock_files = some [] }

abbrev all_env : RecoverEnv
all_env = record {
  now = now;
  sentinel = true;
  lock_free = true;
  deploy_stat = missing;
  deploy_probe = free;
  state_json = none;
  processes = nothing_seen;
  files = no_files;
  later = nothing_seen;
  act = act_env_now;
  launch = record {
    now = now;
    year = pos 2025;
    disk_percent = none;
    unit_name = λ id. "unit";
    commits = true;
    returncode = pos 0;
  };
}

auto_recover-dry_example :
    ((world_of (auto_recover host (record all_args { apply = false }) all_env (stuck ∷ []))).table
      ≡ stuck ∷ [])
    × ((world_of
          (auto_recover host (record all_args { apply = false }) all_env (stuck ∷ []))).commands
        ≡ [])
auto_recover-dry_example =
    auto_recover-dry host (record all_args { apply = false }) all_env (stuck ∷ []) refl

-- Another job has just made progress.
abbrev progressing : List (RunningJob × Sight)
progressing = (other_job, drill 1000000) ∷ []

abbrev soft : RunEnd
soft = recover_first host all_args all_env progressing stuck_job world

-- The options of the job: its year is not known, so it is no annual job.
abbrev with_options : JobRow
with_options = elim (ensure_recovery_tool_options host stuck) [ none ↦ stuck | some (k, _) ↦ k ]

options_ensured : ensure_recovery_tool_options host stuck ≡ some (with_options, true)
unfolding ensure_recovery_tool_options fields_or_empty get_field writes_any
options_ensured = refl

ensure_recovery_tool_options_lem_example :
    (ensure_recovery_tool_options host with_options ≡ some (with_options, false))
    × ((tool : Fields) × (tool_of host with_options ≡ some tool)
        × Heals host (restarts_wanted host stuck) tool)
    × (with_options ≡ record stuck { config = with_options.config })
ensure_recovery_tool_options_lem_example =
    ensure_recovery_tool_options_lem host host-IsHost.python stuck options_ensured
