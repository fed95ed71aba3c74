-- ===== src/Contract/Tests.antt =====
-- The options of an annual job, stored and handed to archive_tool.
use healtharchive_backend.Base.{
  String, true, false, ◌≡◌, ◌↔◌, refl, Option, none, some, List, [], ◌∷◌, ◌==◌, string_eq,
  if◌then◌else◌,
}
use healtharchive_backend.Base.Int.{ℤ, pos, int_eq}
use healtharchive_backend.Base.Texts.{str_ℤ}
use healtharchive_backend.Json.{Json, null, int, str, end}
use healtharchive_backend.Contract.{
  Python, IsPython, ArchiveToolOptions, to_dict, from_dict, valid, strip_or_empty,
  validate_tool_options,
}
use healtharchive_backend.Contract.Stored.{kept, from_dict-valid}
use healtharchive_backend.Contract.Command.{
  ToolArg, switch, setting, number_args, text_args, config_args, monitoring_args,
  adaptive_workers_args, vpn_args, restart_args, backoff_args, switches, words,
  build_tool_extra_args, CliArgs, cli_defaults, read_arg, read_args, accepted,
  min_workers_below_one, check_arguments, build_command,
}
use healtharchive_backend.Contract.Switches.{has_switch}
use healtharchive_backend.Contract.Accepted.{check_arguments-accepted, NumbersFit}

-- Python on the values of the tests: no text has blanks around it.
to_int_of : Json → Option ℤ
to_int_of (int n) = some n
to_int_of _ = none

to_text_of : Json → String
to_text_of (int n) = if n == pos 0 then "0" else "75"
to_text_of (str s) = s
to_text_of _ = "None"

abbrev python : Python
python = record {
  to_int = to_int_of;
  to_text = to_text_of;
  nonzero = λ text. true;
  strip = λ text. text;
  dumps = λ fields. "{}";
}

python-IsPython : IsPython python
unfolding to_int_of to_text_of
python-IsPython = record {
  to_int-int = λ n. refl;
  to_text-str = λ s. refl;
  strip_idem = λ s. refl;
  strip-empty = refl;
}

abbrev annual : Json → ArchiveToolOptions
annual least_workers = record {
  cleanup = false;
  overwrite = false;
  enable_monitoring = true;
  enable_adaptive_workers = true;
  enable_adaptive_restart = true;
  enable_vpn_rotation = false;
  initial_workers = pos 2;
  log_level = "INFO";
  docker_image = null;
  docker_shm_size = str "1g";
  browsertrix_config = some end;
  skip_final_build = true;
  monitor_interval_seconds = null;
  stall_timeout_minutes = int (pos 75);
  error_threshold_timeout = null;
  error_threshold_http = null;
  min_workers = least_workers;
  max_worker_reductions = null;
  max_container_restarts = null;
  vpn_connect_command = null;
  max_vpn_rotations = null;
  vpn_rotation_frequency_minutes = null;
  backoff_delay_minutes = null;
  relax_perms = true;
}

abbrev number : String → Option ℤ
number text = some (if text == "0" then pos 0 else pos 75)

annual_args :
    build_tool_extra_args python (annual null)
    ≡ some (
        setting "--docker-shm-size" "1g"
        ∷ switch "--enable-monitoring"
        ∷ setting "--stall-timeout-minutes" "75"
        ∷ switch "--enable-adaptive-workers"
        ∷ switch "--enable-adaptive-restart"
        ∷ switch "--relax-perms"
        ∷ switch "--skip-final-build"
        ∷ [])
unfolding build_tool_extra_args strip_or_empty text_args config_args monitoring_args
    adaptive_workers_args vpn_args restart_args backoff_args switches number_args to_text_of
annual_args = refl

annual_valid : validate_tool_options python (annual null) ≡ valid
unfolding validate_tool_options to_text_of
annual_valid = refl

-- A minimum of no workers passes the validation of the backend.
zero_workers_valid : validate_tool_options python (annual (int (pos 0))) ≡ valid
unfolding validate_tool_options to_text_of
zero_workers_valid = refl

-- What archive_tool reads of the annual job.
abbrev annual_read : CliArgs
annual_read = record {
  enable_monitoring = true;
  enable_adaptive_workers = true;
  enable_adaptive_restart = true;
  enable_vpn_rotation = false;
  vpn_connect_command = none;
  min_workers = pos 1;
  max_container_restarts = pos 5;
  vpn_rotation_frequency_minutes = pos 60;
}

abbrev annual_list : List ToolArg
annual_list =
    setting "--docker-shm-size" "1g"
    ∷ switch "--enable-monitoring"
    ∷ setting "--stall-timeout-minutes" "75"
    ∷ switch "--enable-adaptive-workers"
    ∷ switch "--enable-adaptive-restart"
    ∷ switch "--relax-perms"
    ∷ switch "--skip-final-build"
    ∷ []

annual_is_read : read_args number annual_list cli_defaults ≡ some annual_read
unfolding read_args read_arg cli_defaults
annual_is_read = refl

check_arguments-accepted_example :
    (annual_read.enable_monitoring ≡ (annual null).enable_monitoring)
    × (annual_read.enable_adaptive_workers ≡ (annual null).enable_adaptive_workers)
    × (annual_read.enable_adaptive_restart ≡ (annual null).enable_adaptive_restart)
    × (annual_read.enable_vpn_rotation ≡ (annual null).enable_vpn_rotation)
    × (has_switch "--relax-perms" annual_list ≡ (annual null).relax_perms)
    × (has_switch "--skip-final-build" annual_list ≡ (annual null).skip_final_build)
    × ((check_arguments annual_read ≡ accepted) ↔ NumbersFit annual_read)
check_arguments-accepted_example =
    check_arguments-accepted number python python-IsPython (annual null) annual_valid annual_args
      annual_is_read

from_dict-valid_example :
    (from_dict python (to_dict python (annual null)) ≡ some (kept python (annual null)))
    × (validate_tool_options python (kept python (annual null)) ≡ valid)
    × (from_dict python (to_dict python (kept python (annual null)))
        ≡ some (kept python (annual null)))
from_dict-valid_example = from_dict-valid python python-IsPython (annual null) annual_valid

-- With no workers as the minimum, archive_tool refuses to run.
zero_workers_refused :
    check_arguments (record annual_read { min_workers = pos 0 }) ≡ min_workers_below_one
unfolding check_arguments
zero_workers_refused = refl

command_line :
    build_command "archive-tool"
      (record { name = "hc"; seeds = "https://a.ca" ∷ "https://b.ca" ∷ [] })
      "/srv/hc"
      (pos 2)
      false
      true
      "INFO"
      (words annual_list)
    ≡ "archive-tool" ∷ "--seeds" ∷ "https://a.ca" ∷ "https://b.ca" ∷ "--name" ∷ "hc"
      ∷ "--output-dir" ∷ "/srv/hc" ∷ "--initial-workers" ∷ "2" ∷ "--log-level" ∷ "INFO"
      ∷ "--overwrite" ∷ "--docker-shm-size" ∷ "1g" ∷ "--enable-monitoring"
      ∷ "--stall-timeout-minutes" ∷ "75" ∷ "--enable-adaptive-workers" ∷ "--enable-adaptive-restart"
      ∷ "--relax-perms" ∷ "--skip-final-build" ∷ []
unfolding build_command words str_ℤ
command_line = refl
