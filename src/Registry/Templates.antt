-- ===== src/Registry/Templates.antt =====
-- src/ha_backend/job_registry.py: the templates of the sources and `build_job_config`.
use healtharchive_backend.Base.{
  String, true, false, Option, none, some, List, [], ◌∷◌, ◌++◌, ◌==◌, string_eq, if◌then◌else◌,
}
use healtharchive_backend.Base.Int.{pos}
use healtharchive_backend.Json.{Json, Fields, bool, int, str, arr, obj, end, field, strings}
use healtharchive_backend.Contract.{Python, from_dict, Validity, valid, validate_tool_options}
use healtharchive_backend.Contract.JobConfig.{job_to_dict}
use healtharchive_backend.Registry.{
  hc_canada_ca_scope_include_rx, hc_canada_ca_scope_exclude_rx, phac_canada_ca_scope_include_rx,
  phac_canada_ca_scope_exclude_rx,
}

-- The template of a source; its date format is the text of the source.
pub record SourceJobConfig : Type 0 where
  pub source_code : String
  pub name_template : String
  pub default_seeds : List String
  pub default_zimit_passthrough_args : List String
  pub default_tool_options : Fields
  pub schedule_hint : Option String

abbrev pub hc_job_config : SourceJobConfig
hc_job_config = record {
  source_code = "hc";
  name_template = "hc-{date:%Y%m%d}";
  default_seeds =
      "https://www.canada.ca/en/health-canada.html" ∷ "https://www.canada.ca/fr/sante-canada.html"
      ∷ [];
  default_zimit_passthrough_args =
      "--scopeType" ∷ "custom" ∷ "--scopeIncludeRx" ∷ hc_canada_ca_scope_include_rx
      ∷ "--scopeExcludeRx" ∷ hc_canada_ca_scope_exclude_rx ∷ [];
  default_tool_options = field "cleanup" (bool false) (
      field "overwrite" (bool false) (
        field "skip_final_build" (bool true) (
          field "browsertrix_config"
            (obj (field "extraChromeArgs" (arr (strings ("--disable-http2" ∷ []))) end))
            (field "enable_monitoring" (bool true) (
              field "enable_adaptive_workers" (bool true) (
                field "enable_adaptive_restart" (bool true) (
                  field "enable_vpn_rotation" (bool false) (
                    field "initial_workers" (int (pos 2)) (
                      field "stall_timeout_minutes" (int (pos 75)) (
                        field "docker_shm_size" (str "1g") (
                          field "max_container_restarts" (int (pos 24)) (
                            field "error_threshold_timeout" (int (pos 55)) (
                              field "error_threshold_http" (int (pos 55)) (
                                field "backoff_delay_minutes" (int (pos 15)) (
                                  field "log_level" (str "INFO")
                                    (field "relax_perms" (bool true) end))))))))))))))));
  schedule_hint = some "annual";
}

abbrev pub phac_job_config : SourceJobConfig
phac_job_config = record {
  source_code = "phac";
  name_template = "phac-{date:%Y%m%d}";
  default_seeds =
      "https://www.canada.ca/en/public-health.html" ∷ "https://www.canada.ca/fr/sante-publique.html"
      ∷ [];
  default_zimit_passthrough_args =
      "--scopeType" ∷ "custom" ∷ "--scopeIncludeRx" ∷ phac_canada_ca_scope_include_rx
      ∷ "--scopeExcludeRx" ∷ phac_canada_ca_scope_exclude_rx ∷ [];
  default_tool_options = field "cleanup" (bool false) (
      field "overwrite" (bool false) (
        field "skip_final_build" (bool true) (
          field "browsertrix_config"
            (obj (field "extraChromeArgs" (arr (strings ("--disable-http2" ∷ []))) end))
            (field "enable_monitoring" (bool true) (
              field "enable_adaptive_workers" (bool true) (
                field "enable_adaptive_restart" (bool true) (
                  field "enable_vpn_rotation" (bool false) (
                    field "initial_workers" (int (pos 2)) (
                      field "stall_timeout_minutes" (int (pos 90)) (
                        field "docker_shm_size" (str "1g") (
                          field "max_container_restarts" (int (pos 30)) (
                            field "error_threshold_timeout" (int (pos 65)) (
                              field "error_threshold_http" (int (pos 65)) (
                                field "backoff_delay_minutes" (int (pos 3)) (
                                  field "log_level" (str "INFO")
                                    (field "relax_perms" (bool true) end))))))))))))))));
  schedule_hint = some "annual";
}

abbrev pub cihr_job_config : SourceJobConfig
cihr_job_config = record {
  source_code = "cihr";
  name_template = "cihr-{date:%Y%m%d}";
  default_seeds = "https://cihr-irsc.gc.ca/e/193.html" ∷ "https://cihr-irsc.gc.ca/f/193.html" ∷ [];
  default_zimit_passthrough_args = "--scopeType" ∷ "host" ∷ [];
  default_tool_options = field "cleanup" (bool false) (
      field "overwrite" (bool false) (
        field "skip_final_build" (bool true) (
          field "enable_monitoring" (bool true) (
            field "enable_adaptive_workers" (bool true) (
              field "enable_adaptive_restart" (bool true) (
                field "enable_vpn_rotation" (bool false) (
                  field "initial_workers" (int (pos 3)) (
                    field "stall_timeout_minutes" (int (pos 45)) (
                      field "docker_shm_size" (str "1g") (
                        field "max_container_restarts" (int (pos 20)) (
                          field "error_threshold_timeout" (int (pos 35)) (
                            field "error_threshold_http" (int (pos 35)) (
                              field "backoff_delay_minutes" (int (pos 1)) (
                                field "log_level" (str "INFO")
                                  (field "relax_perms" (bool true) end)))))))))))))));
  schedule_hint = some "annual";
}

abbrev pub hc_canary_job_config : SourceJobConfig
hc_canary_job_config = record {
  source_code = "hc";
  name_template = "hc-canary";
  default_seeds = "https://www.canada.ca/en.html" ∷ [];
  default_zimit_passthrough_args = "--limit" ∷ "2" ∷ "--maxDepth" ∷ "0" ∷ [];
  default_tool_options = field "cleanup" (bool false) (
      field "overwrite" (bool false) (
        field "skip_final_build" (bool true) (
          field "enable_monitoring" (bool false) (
            field "enable_adaptive_workers" (bool false) (
              field "enable_adaptive_restart" (bool false) (
                field "enable_vpn_rotation" (bool false) (
                  field "initial_workers" (int (pos 1)) (
                    field "stall_timeout_minutes" (int (pos 10)) (
                      field "docker_shm_size" (str "512m") (
                        field "max_container_restarts" (int (pos 3)) (
                          field "log_level" (str "WARNING")
                            (field "relax_perms" (bool true) end))))))))))));
  schedule_hint = none;
}

-- SOURCE_JOB_CONFIGS, by the code in lower case.
unfoldable pub get_config_for_source : (String → String) → String → Option SourceJobConfig
get_config_for_source lower source_code =
    let code = lower source_code in
    if code == "hc"
    then some hc_job_config
    else if code == "phac"
    then some phac_job_config
    else if code == "cihr"
    then some cihr_job_config
    else if code == "hc_canary"
    then some hc_canary_job_config
    else none

-- `d[key] = v`
unfoldable pub set_item : String → Json → Fields → Fields
set_item key v end = field key v end
set_item key v (field k w rest) =
    let later = set_item key v rest in if k == key then field k v rest else field k w later

-- `d.update(overrides)`
unfoldable pub update_fields : Fields → Fields → Fields
unfolding set_item
update_fields d end = d
update_fields d (field k v rest) = update_fields (set_item k v d) rest

-- `none` is the exception of the validation.
unfoldable pub when_valid : Validity → Fields → Option Fields
when_valid valid d = some d
when_valid _ d = none

-- The config of a job; `none` is an exception, from the options or from their validation.
unfoldable pub build_job_config :
    Python → SourceJobConfig → List String → Fields → List String → Option Fields
unfolding when_valid
build_job_config py template extra_seeds overrides extra_zimit_args =
    elim (from_dict py (update_fields template.default_tool_options overrides)) [
      | none ↦ none
      | some options ↦ when_valid (validate_tool_options py options) (
          job_to_dict py (record {
            seeds = template.default_seeds ++ extra_seeds;
            zimit_passthrough_args = template.default_zimit_passthrough_args ++ extra_zimit_args;
            tool_options = options;
          }))
    ]
