-- ===== src/Contract/Command.antt =====
-- The command line of archive_tool: `_build_tool_extra_args` and `build_command` of src/ha_backend/jobs.py,
-- and the checks of `parse_arguments` in src/archive_tool/cli.py.
use healtharchive_backend.Base.{
  String, Bool, true, false, ◌&&◌, ◌||◌, not, Option, none, some, List, [], ◌∷◌, ◌++◌, ◌==◌,
  string_eq, if◌then◌else◌,
}
use healtharchive_backend.Base.Int.{ℤ, pos, ltb_ℤ}
use healtharchive_backend.Base.Texts.{str_ℤ}
use healtharchive_backend.Json.{Json, Fields, null, end, field}
use healtharchive_backend.Contract.{Python, ArchiveToolOptions, truthy, strip_or_empty}

-- A switch, or an option with its value.
pub data ToolArg : Type 0 where
  switch : String → ToolArg
  setting : String → String → ToolArg

unfoldable pub words : List ToolArg → List String
words [] = []
words (switch name ∷ rest) = name ∷ words rest
words (setting name value ∷ rest) = name ∷ (value ∷ words rest)

-- `if v is not None: extra_tool_args.extend([name, str(v)])`
unfoldable pub number_args : Python → String → Json → List ToolArg
number_args py name null = []
number_args py name v = setting name (py.to_text v) ∷ []

unfoldable pub text_args : String → String → List ToolArg
text_args name text = if text == "" then [] else setting name text ∷ []

unfoldable pub config_args : Python → Option Fields → List ToolArg
config_args py none = []
config_args py (some end) = []
config_args py (some (field k v rest)) =
    setting "--browsertrix-config-json" (py.dumps (field k v rest)) ∷ []

unfoldable pub monitoring_args : Python → ArchiveToolOptions → List ToolArg
monitoring_args py o =
    if o.enable_monitoring
    then switch "--enable-monitoring"
      ∷ (number_args py "--monitor-interval-seconds" o.monitor_interval_seconds
          ++ (number_args py "--stall-timeout-minutes" o.stall_timeout_minutes
              ++ (number_args py "--error-threshold-timeout" o.error_threshold_timeout
                  ++ number_args py "--error-threshold-http" o.error_threshold_http)))
    else []

unfoldable pub adaptive_workers_args : Python → ArchiveToolOptions → List ToolArg
adaptive_workers_args py o =
    if o.enable_monitoring && o.enable_adaptive_workers
    then switch "--enable-adaptive-workers"
      ∷ (number_args py "--min-workers" o.min_workers
          ++ number_args py "--max-worker-reductions" o.max_worker_reductions)
    else []

unfoldable pub vpn_args : Python → ArchiveToolOptions → List ToolArg
vpn_args py o =
    if o.enable_monitoring && (o.enable_vpn_rotation && truthy py o.vpn_connect_command)
    then switch "--enable-vpn-rotation"
      ∷ (setting "--vpn-connect-command" (py.to_text o.vpn_connect_command)
          ∷ (number_args py "--max-vpn-rotations" o.max_vpn_rotations
              ++ number_args py "--vpn-rotation-frequency-minutes"
                  o.vpn_rotation_frequency_minutes))
    else []

unfoldable pub restart_args : Python → ArchiveToolOptions → List ToolArg
restart_args py o =
    if o.enable_monitoring && o.enable_adaptive_restart
    then switch "--enable-adaptive-restart"
      ∷ number_args py "--max-container-restarts" o.max_container_restarts
    else []

unfoldable pub backoff_args : Python → ArchiveToolOptions → List ToolArg
backoff_args py o =
    if o.enable_monitoring
    then number_args py "--backoff-delay-minutes" o.backoff_delay_minutes
    else []

unfoldable pub switches : ArchiveToolOptions → List ToolArg
switches o =
    (if o.relax_perms then switch "--relax-perms" ∷ [] else [])
    ++ (if o.skip_final_build then switch "--skip-final-build" ∷ [] else [])

-- `_build_tool_extra_args`; `none` is an exception out of `strip`.
unfoldable pub build_tool_extra_args : Python → ArchiveToolOptions → Option (List ToolArg)
build_tool_extra_args py o = elim (strip_or_empty py o.docker_image) [
  | none ↦ none
  | some image ↦ elim (strip_or_empty py o.docker_shm_size) [
    | none ↦ none
    | some size ↦ some (
        text_args "--docker-image" image
        ++ (text_args "--docker-shm-size" size
            ++ (config_args py o.browsertrix_config
                ++ (monitoring_args py o
                    ++ (adaptive_workers_args py o
                        ++ (vpn_args py o
                            ++ (restart_args py o ++ (backoff_args py o ++ switches o))))))))
  ]
]

pub record RuntimeArchiveJob : Type 0 where
  pub name : String
  pub seeds : List String

-- The command line, with archive_tool's own command and the passthrough arguments in `extra`.
unfoldable pub build_command :
    String → RuntimeArchiveJob → String → ℤ → Bool → Bool → String → List String → List String
build_command tool job output_dir initial_workers cleanup overwrite log_level extra =
    (tool ∷ "--seeds" ∷ job.seeds)
    ++ (("--name"
          ∷ job.name
          ∷ "--output-dir"
          ∷ output_dir
          ∷ "--initial-workers"
          ∷ str_ℤ initial_workers
          ∷ "--log-level"
          ∷ log_level
          ∷ [])
        ++ ((if cleanup then "--cleanup" ∷ [] else [])
            ++ ((if overwrite then "--overwrite" ∷ [] else []) ++ extra)))

-- The attributes of archive_tool's arguments that `parse_arguments` checks.
pub record CliArgs : Type 0 where
  pub enable_monitoring : Bool
  pub enable_adaptive_workers : Bool
  pub enable_adaptive_restart : Bool
  pub enable_vpn_rotation : Bool
  pub vpn_connect_command : Option String
  pub min_workers : ℤ
  pub max_container_restarts : ℤ
  pub vpn_rotation_frequency_minutes : ℤ

unfoldable pub cli_defaults : CliArgs
cli_defaults = record {
  enable_monitoring = false;
  enable_adaptive_workers = false;
  enable_adaptive_restart = false;
  enable_vpn_rotation = false;
  vpn_connect_command = none;
  min_workers = pos 1;
  max_container_restarts = pos 5;
  vpn_rotation_frequency_minutes = pos 60;
}

-- What an argument sets; `none` where an integer is wanted and the text is none.
unfoldable pub read_arg : (String → Option ℤ) → ToolArg → CliArgs → Option CliArgs
read_arg to_int (switch name) c =
    if name == "--enable-monitoring"
    then some (record c { enable_monitoring = true })
    else if name == "--enable-adaptive-workers"
    then some (record c { enable_adaptive_workers = true })
    else if name == "--enable-adaptive-restart"
    then some (record c { enable_adaptive_restart = true })
    else if name == "--enable-vpn-rotation"
    then some (record c { enable_vpn_rotation = true })
    else some c
read_arg to_int (setting name value) c =
    if name == "--vpn-connect-command"
    then some (record c { vpn_connect_command = some value })
    else if name == "--min-workers"
    then elim (to_int value) [ none ↦ none | some n ↦ some (record c { min_workers = n }) ]
    else if name == "--max-container-restarts"
    then elim (to_int value) [
      | none ↦ none
      | some n ↦ some (record c { max_container_restarts = n })
    ]
    else if name == "--vpn-rotation-frequency-minutes"
    then elim (to_int value) [
      | none ↦ none
      | some n ↦ some (record c { vpn_rotation_frequency_minutes = n })
    ]
    else some c

unfoldable pub read_args : (String → Option ℤ) → List ToolArg → CliArgs → Option CliArgs
read_args to_int [] c = some c
read_args to_int (arg ∷ rest) c = elim (read_arg to_int arg c) [
  | none ↦ none
  | some d ↦ read_args to_int rest d
]

-- The checks of `parse_arguments`, in their order.
pub data CliCheck : Type 0 where
  accepted : CliCheck
  adaptive_needs_monitoring : CliCheck
  restart_needs_monitoring : CliCheck
  rotation_needs_command : CliCheck
  min_workers_below_one : CliCheck
  restarts_negative : CliCheck
  frequency_negative : CliCheck

unfoldable pub has_command : Option String → Bool
has_command none = false
has_command (some command) = not (command == "")

unfoldable pub check_arguments : CliArgs → CliCheck
unfolding has_command
check_arguments c =
    if (c.enable_adaptive_workers || c.enable_vpn_rotation) && not c.enable_monitoring
    then adaptive_needs_monitoring
    else if c.enable_adaptive_restart && not c.enable_monitoring
    then restart_needs_monitoring
    else if c.enable_vpn_rotation && not (has_command c.vpn_connect_command)
    then rotation_needs_command
    else if ltb_ℤ c.min_workers (pos 1)
    then min_workers_below_one
    else if ltb_ℤ c.max_container_restarts (pos 0)
    then restarts_negative
    else if ltb_ℤ c.vpn_rotation_frequency_minutes (pos 0)
    then frequency_negative
    else accepted
