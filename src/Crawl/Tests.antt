-- ===== src/Crawl/Tests.antt =====
-- A crawl with four workers, and the laws of the crawl's modules on it.
mod StateTests
mod RunTests
mod StageTests
use healtharchive_backend.Base.{
  ℕ, String, Bool, true, false, not, ◌≡◌, refl, arith, none, some, List, [], ◌∷◌, ◌==◌, string_eq,
  eq_iff, if◌then◌else◌,
}
use healtharchive_backend.Base.Int.{ℤ, pos, negsuc}
use healtharchive_backend.Crawl.Env.{
  Env, IsSettled, answer, absent, accessible, canonical, mtime_of,
}
use healtharchive_backend.Crawl.State.{CrawlState, no_rate}
use healtharchive_backend.Crawl.Strategies.{Args, Shell}
use healtharchive_backend.Crawl.Monitor.{MonitorArgs}
use healtharchive_backend.Crawl.State.Progress.{Stats, second}

-- Every path but one is a directory; one directory is older than the others.
abbrev pub settled_env : Env
settled_env = record {
  is_dir = λ p. answer (not (p == "/gone"));
  resolve = λ p. some p;
  plain = λ p. p;
  mtime = λ p. some (if p == "/old" then 1 else 2);
  broken_write = none;
}

pub settled_env-IsSettled : IsSettled settled_env
unfolding accessible canonical mtime_of
settled_env-IsSettled = record {
  canonical_idem = λ p. refl;
  accessible-canonical = λ p. refl;
  mtime-canonical = λ p. refl;
  answers = λ p h. ground (arith, eq_iff p "/gone");
}

abbrev pub paths : List String
paths = "/new" ∷ "/gone" ∷ "/old" ∷ "/new" ∷ []

abbrev pub crawl : CrawlState
crawl = record {
  stage_start_time = some 0;
  last_crawled_count = pos 10;
  last_total_count = pos 50;
  last_pending_count = pos 40;
  last_failed_count = pos 0;
  last_progress_timestamp = some second;
  last_stats_timestamp = some second;
  last_no_stats_signal_timestamp = none;
  error_counts = record { timeout = 3; http = 1; other = 0 };
  last_error_type = none;
  previous_crawled_count = pos 10;
  previous_stats_timestamp = some second;
  progress_rate_ppm = no_rate;
  last_vpn_rotation_timestamp = some second;
  current_workers = pos 3;
  initial_workers = pos 4;
  temp_dirs_host_paths = paths;
  vpn_rotations_done = pos 0;
  worker_reductions_done = pos 1;
  container_restarts_done = pos 0;
  state_file = absent;
}

abbrev pub adaptive : Args
adaptive = record {
  enable_adaptive_workers = true;
  max_worker_reductions = pos 2;
  min_workers = pos 1;
  enable_adaptive_restart = true;
  max_container_restarts = pos 1;
  enable_vpn_rotation = true;
  max_vpn_rotations = pos 1;
  vpn_connect_command = some "vpn connect";
  vpn_rotation_frequency_minutes = pos 2;
}

-- Three minutes after the last rotation.
abbrev pub working_shell : Shell
working_shell = record {
  split = λ command. some (command ∷ []);
  which = λ base. true;
  now = 181000000000;
  command_succeeds = true;
  stop_is_set = false;
}

abbrev pub monitored : MonitorArgs
monitored = record {
  enable_monitoring = true;
  monitor_interval_seconds = 30;
  stall_timeout_minutes = 5;
  error_threshold_timeout = pos 10;
  error_threshold_http = pos 10;
}

-- Statistics that show no more pages.
abbrev pub stuck : Stats
stuck = record { crawled = some (pos 10); total = none; pending = some (pos 40); failed = none }
