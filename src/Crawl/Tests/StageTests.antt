-- ===== src/Crawl/Tests/StageTests.antt =====
-- Whole runs of src/archive_tool/main.py: one stage, with its monitor dead or alive at its end.
use healtharchive_backend.Base.{
  ℕ, Bool, true, false, ◌≡◌, ◌≢◌, ◌⊎◌, refl, ap, Option, none, some, [], ◌∷◌, arith, inr, ◌==◌,
  string_eq,
}
use healtharchive_backend.Base.Int.{pos}
use healtharchive_backend.Crawl.Env.{absent}
use healtharchive_backend.Crawl.State.{CrawlState, save_persistent_state, load_persistent_state}
use healtharchive_backend.Crawl.State.TempDirs.{init, add_temp_dir, get_temp_dir_paths}
use healtharchive_backend.Crawl.State.Progress.{reset_runtime_errors, reset_adaptation_counts}
use healtharchive_backend.Crawl.Strategies.Budget.{budget}
use healtharchive_backend.Crawl.Stages.Watch.{RunArgs, watch}
use healtharchive_backend.Crawl.Stages.Prepare.{StageEnv, prepare, reset_for_stage}
use healtharchive_backend.Crawl.Stages.Final.{FinalEnv, Exit, consolidate}
use healtharchive_backend.Crawl.Stages.Spoiled.{crawl_loop-Spoiled, Spoiled}
use healtharchive_backend.Crawl.Stages.{Loop, crawl_loop, conclude, run_stage}
use healtharchive_backend.Crawl.Start.{Numbers, StartEnv, Begun, begins, quits, fails, begin, main}
use healtharchive_backend.Crawl.Start.Modes.{RunArchived, main_ends}
use healtharchive_backend.Crawl.Tests.{settled_env, crawl, adaptive, monitored}

abbrev run_args : RunArgs
run_args = record {
  adaptive = adaptive;
  monitoring = monitored;
  enable_monitoring = true;
  backoff_delay_minutes = pos 0;
  skip_final_build = true;
  relax_perms = false;
  cleanup = true;
  overwrite = false;
  dry_run = false;
  initial_workers = pos 2;
  seeds = "https://www.canada.ca/" ∷ [];
  name = "canada";
  docker_image = "ghcr.io/openzim/zimit";
  docker_shm_size = none;
  passthrough = [];
}

-- The container exits with 0 at once; its monitor has ended or not.
abbrev stage : Bool → StageEnv
stage alive = record {
  signal_before = false;
  env = settled_env;
  start_time = 0;
  managed = none;
  stable_resume = none;
  apply_managed = λ config. some config;
  latest_config = λ paths. none;
  persist = λ config. some config;
  container_path = λ path. some path;
  container = λ command. some true;
  discovered = some ("/old" ∷ []);
  monitor_starts = true;
  rounds = [];
  alive_at_end = alive;
  returncode = some (pos 0);
  poll_again = none;
  temp_dir = some "/new";
  stop_in_backoff = false;
}

abbrev final_env : FinalEnv
final_env = record {
  stop_before_build = false;
  env_relax = settled_env;
  env_find = settled_env;
  env_built = settled_env;
  env_summary = settled_env;
  find_all_warc_files = λ paths. paths;
  container_path = λ path. some path;
  mount = "/srv/canada:/output";
  run = λ command. some (pos 0);
  build_dir = none;
}

abbrev numbers : Numbers
numbers = record { is_digit = λ text. text == "4"; to_int = λ text. some (pos 4) }

abbrev start_env : StartEnv
start_env = record {
  docker_works = true;
  output_dir_writable = true;
  browsertrix_config = none;
  persist_managed = λ config. true;
  state_file = absent;
  env = settled_env;
  discovered_temp_dirs = "/old" ∷ [];
  stable_resume = none;
  apply_managed = λ config. some config;
  latest_config = λ paths. none;
  persist = λ config. some config;
  find_all_warc_files = λ paths. paths;
  zim_exists = false;
}

abbrev budget_begun : Begun → ℕ
budget_begun (begins name s) = budget adaptive s
budget_begun (quits code) = 0
budget_begun fails = 0

abbrev code_of : Option Exit → ℕ
code_of none = 9
code_of (some exit) = exit.code

-- One stage after which the WARC files are kept.
kept : code_of (main 200 numbers run_args start_env (λ k. stage false) final_env false) ≡ 0
unfolding main get_temp_dir_paths init save_persistent_state load_persistent_state add_temp_dir
    conclude crawl_loop run_stage prepare watch reset_for_stage reset_runtime_errors
    reset_adaptation_counts consolidate
kept = refl

-- The same stage, with a monitor that is alive when the container has ended.
abandoned : code_of (main 200 numbers run_args start_env (λ k. stage true) final_env false) ≡ 1
unfolding main get_temp_dir_paths init save_persistent_state load_persistent_state add_temp_dir
    conclude crawl_loop run_stage prepare watch reset_for_stage reset_runtime_errors
    reset_adaptation_counts consolidate
abandoned = refl

begun_budget : budget_begun (begin numbers run_args start_env) ≡ 4
unfolding begin get_temp_dir_paths init save_persistent_state load_persistent_state add_temp_dir
    reset_adaptation_counts budget
begun_budget = refl

main_ends_example :
    (exit : Exit) × (main 200 numbers run_args start_env (λ k. stage false) final_env false
      ≡ some exit)
    × (exit.code ≡ 0
        → (run_args.dry_run ≡ true)
          ⊎ RunArchived 200 run_args
              (λ k. stage false)
              final_env
              false
              (begin numbers run_args start_env))
main_ends_example =
    main_ends 200 numbers run_args start_env (λ k. stage false) final_env false
      (λ name s h. omega (arith, begun_budget, ap budget_begun h))

-- The first iteration of the loop.
abbrev first : Loop
first = record {
  stage_name = "Initial Crawl";
  attempt = 1;
  stop = false;
  state = crawl;
  queue = [];
}

abbrev failed_exit : Exit
failed_exit = record { code = 1; removed = [] }

spoiled_run :
    conclude run_args final_env (crawl_loop 9 run_args (λ k. stage true) 0 first) ≡ some failed_exit
unfolding get_temp_dir_paths save_persistent_state add_temp_dir conclude crawl_loop run_stage
    prepare watch reset_for_stage reset_runtime_errors consolidate
spoiled_run = refl

stage-Spoiled : Spoiled run_args (stage true)
stage-Spoiled = λ command. inr (refl, refl)

crawl_loop-Spoiled_example : failed_exit.code ≢ 0
crawl_loop-Spoiled_example =
    crawl_loop-Spoiled 9 run_args (λ k. stage true) final_env 0 first stage-Spoiled spoiled_run

-- The state after the mode of the run is chosen.
abbrev state_of : Begun → CrawlState
state_of (begins name s) = s
state_of (quits code) = crawl
state_of fails = crawl
