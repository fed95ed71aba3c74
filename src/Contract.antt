-- ===== src/Contract.antt =====
-- src/ha_backend/archive_contract.py: the options of a job for archive_tool, as they are stored in
-- ArchiveJob.config, and their validation.
pub mod Command
pub mod JobConfig
pub mod Stored
pub mod Reading
pub mod Switches
pub mod Accepted
mod Tests
use healtharchive_backend.Base.{
  String, Bool, true, false, ◌≡◌, ◌||◌, ◌&&◌, not, Option, none, some, List, [], ◌∷◌, ◌==◌,
  string_eq, if◌then◌else◌,
}
use healtharchive_backend.Base.Int.{ℤ, pos, int_eq}
use healtharchive_backend.Json.{
  Json, Items, Fields, null, bool, int, float, str, arr, obj, nil, cons, end, field, get_field,
}

-- What the code uses of Python: `int(v)` (`none` is an exception), `str(v)`, `bool` of a `float` by its
-- text, `strip`, and `json.dumps` of a dict.
pub record Python : Type 0 where
  pub to_int : Json → Option ℤ
  pub to_text : Json → String
  pub nonzero : String → Bool
  pub strip : String → String
  pub dumps : Fields → String

-- What the theorems on the options rely on.
pub record IsPython (py : Python) : Type 0 where
  pub to_int-int : (n : ℤ) → py.to_int (int n) ≡ some n
  pub to_text-str : (s : String) → py.to_text (str s) ≡ s
  pub strip_idem : (s : String) → py.strip (py.strip s) ≡ py.strip s
  pub strip-empty : py.strip "" ≡ ""

-- `bool(v)`
unfoldable pub truthy : Python → Json → Bool
truthy py null = false
truthy py (bool b) = b
truthy py (int n) = not (n == pos 0)
truthy py (float text) = py.nonzero text
truthy py (str s) = not (s == "")
truthy py (arr nil) = false
truthy py (arr (cons x xs)) = true
truthy py (obj end) = false
truthy py (obj (field k v rest)) = true

-- An attribute that may be `None` is `null` then; no type of those is checked.
pub record ArchiveToolOptions : Type 0 where
  pub cleanup : Bool
  pub overwrite : Bool
  pub enable_monitoring : Bool
  pub enable_adaptive_workers : Bool
  pub enable_adaptive_restart : Bool
  pub enable_vpn_rotation : Bool
  pub initial_workers : ℤ
  pub log_level : String
  pub docker_image : Json
  pub docker_shm_size : Json
  pub browsertrix_config : Option Fields
  pub skip_final_build : Bool
  pub monitor_interval_seconds : Json
  pub stall_timeout_minutes : Json
  pub error_threshold_timeout : Json
  pub error_threshold_http : Json
  pub min_workers : Json
  pub max_worker_reductions : Json
  pub max_container_restarts : Json
  pub vpn_connect_command : Json
  pub max_vpn_rotations : Json
  pub vpn_rotation_frequency_minutes : Json
  pub backoff_delay_minutes : Json
  pub relax_perms : Bool

-- `if v is not None: data[key] = v`
unfoldable pub set_value : String → Json → Fields → Fields
set_value key null rest = rest
set_value key v rest = field key v rest

-- The stripped text of a value; `none` for `None` and for a blank one.
unfoldable pub clean_text : Python → Json → Json
clean_text py null = null
clean_text py v = let text = py.strip (py.to_text v) in if text == "" then null else str text

unfoldable pub config_value : Option Fields → Json
config_value none = null
config_value (some end) = null
config_value (some (field k v rest)) = obj (field k v rest)

unfoldable pub to_dict : Python → ArchiveToolOptions → Fields
to_dict py o = field "cleanup" (bool o.cleanup) (
    field "overwrite" (bool o.overwrite) (
      field "skip_final_build" (bool o.skip_final_build) (
        field "enable_monitoring" (bool o.enable_monitoring) (
          field "enable_adaptive_workers" (bool o.enable_adaptive_workers) (
            field "enable_adaptive_restart" (bool o.enable_adaptive_restart) (
              field "enable_vpn_rotation" (bool o.enable_vpn_rotation) (
                field "initial_workers" (int o.initial_workers) (
                  field "log_level" (str o.log_level) (
                    field "relax_perms" (bool o.relax_perms) (
                      set_value "docker_image" (clean_text py o.docker_image) (
                        set_value "docker_shm_size" (clean_text py o.docker_shm_size) (
                          set_value "browsertrix_config" (config_value o.browsertrix_config) (
                            set_value "monitor_interval_seconds" o.monitor_interval_seconds (
                              set_value "stall_timeout_minutes" o.stall_timeout_minutes (
                                set_value "error_threshold_timeout" o.error_threshold_timeout (
                                  set_value "error_threshold_http" o.error_threshold_http (
                                    set_value "min_workers" o.min_workers (
                                      set_value "max_worker_reductions" o.max_worker_reductions (
                                        set_value "max_container_restarts" o.max_container_restarts
                                          (set_value "vpn_connect_command" o.vpn_connect_command (
                                            set_value "max_vpn_rotations" o.max_vpn_rotations (
                                              set_value "vpn_rotation_frequency_minutes"
                                                o.vpn_rotation_frequency_minutes
                                                (set_value "backoff_delay_minutes"
                                                  o.backoff_delay_minutes end)))))))))))))))))))))))

-- `dict(v) if isinstance(v, dict) else None`
unfoldable pub as_config : Json → Option Fields
as_config (obj fields) = some fields
as_config _ = none

-- The attributes, with the number of workers.
unfoldable pub options_of : Python → Fields → ℤ → ArchiveToolOptions
unfolding as_config
options_of py d workers =
    let flag = λ (key : String). truthy py (get_field key (bool false) d) in
    let value = λ (key : String). get_field key null d in
    record {
      cleanup = flag "cleanup";
      overwrite = flag "overwrite";
      enable_monitoring = flag "enable_monitoring";
      enable_adaptive_workers = flag "enable_adaptive_workers";
      enable_adaptive_restart = flag "enable_adaptive_restart";
      enable_vpn_rotation = flag "enable_vpn_rotation";
      initial_workers = workers;
      log_level = py.to_text (get_field "log_level" (str "INFO") d);
      docker_image = value "docker_image";
      docker_shm_size = value "docker_shm_size";
      browsertrix_config = as_config (value "browsertrix_config");
      skip_final_build = flag "skip_final_build";
      monitor_interval_seconds = value "monitor_interval_seconds";
      stall_timeout_minutes = value "stall_timeout_minutes";
      error_threshold_timeout = value "error_threshold_timeout";
      error_threshold_http = value "error_threshold_http";
      min_workers = value "min_workers";
      max_worker_reductions = value "max_worker_reductions";
      max_container_restarts = value "max_container_restarts";
      vpn_connect_command = value "vpn_connect_command";
      max_vpn_rotations = value "max_vpn_rotations";
      vpn_rotation_frequency_minutes = value "vpn_rotation_frequency_minutes";
      backoff_delay_minutes = value "backoff_delay_minutes";
      relax_perms = flag "relax_perms";
    }

-- `none` is an exception out of `int`.
unfoldable pub from_dict : Python → Fields → Option ArchiveToolOptions
unfolding options_of
from_dict py d = elim (py.to_int (get_field "initial_workers" (int (pos 1)) d)) [
  | none ↦ none
  | some workers ↦ some (options_of py d workers)
]

-- The errors of the validation, in their order; `no_text` is the exception where `strip` is called on a
-- value that is no text.
pub data Validity : Type 0 where
  valid : Validity
  adaptive_workers_unmonitored : Validity
  adaptive_restart_unmonitored : Validity
  vpn_rotation_unmonitored : Validity
  vpn_command_missing : Validity
  no_text : Validity
  blank_docker_image : Validity
  blank_docker_shm_size : Validity

-- `(v or "").strip()`; `none` is an exception.
unfoldable pub strip_or_empty : Python → Json → Option String
unfolding truthy
strip_or_empty py (str s) = some (if s == "" then py.strip "" else py.strip s)
strip_or_empty py v = if truthy py v then none else some (py.strip "")

-- `v is not None and not str(v).strip()`
unfoldable pub is_blank : Python → Json → Bool
is_blank py null = false
is_blank py v = py.strip (py.to_text v) == ""

unfoldable pub validate_images : Python → ArchiveToolOptions → Validity
unfolding is_blank
validate_images py o =
    if is_blank py o.docker_image
    then blank_docker_image
    else if is_blank py o.docker_shm_size
    then blank_docker_shm_size
    else valid

unfoldable pub validate_tool_options : Python → ArchiveToolOptions → Validity
unfolding validate_images
validate_tool_options py o =
    if o.enable_adaptive_workers && not o.enable_monitoring
    then adaptive_workers_unmonitored
    else if o.enable_adaptive_restart && not o.enable_monitoring
    then adaptive_restart_unmonitored
    else if o.enable_vpn_rotation && not o.enable_monitoring
    then vpn_rotation_unmonitored
    else if o.enable_vpn_rotation
    then elim (strip_or_empty py o.vpn_connect_command) [
      | none ↦ no_text
      | some text ↦ if text == "" then vpn_command_missing else validate_images py o
    ]
    else validate_images py o
