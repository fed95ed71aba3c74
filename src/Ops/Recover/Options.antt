-- ===== src/Ops/Recover/Options.antt =====
-- `_ensure_recovery_tool_options` of scripts/vps-crawl-auto-recover.py: the options that a job needs to heal
-- itself, before it is retried.
use healtharchive_backend.Base.{
  String, Bool, true, false, ◌||◌, ◌&&◌, not, Option, none, some, is_some, List, [], ◌∷◌, ◌++◌,
  ◌==◌, string_eq, if◌then◌else◌, contains,
}
use Prim.Native.String.{◌++◌ as concat}
use healtharchive_backend.Base.Int.{ℤ, pos, int_eq, ltb_ℤ}
use healtharchive_backend.Base.Texts.{starts_with}
use healtharchive_backend.Json.{
  Json, Fields, null, bool, int, str, obj, as_int, find_field, get_field,
}
use healtharchive_backend.Contract.{truthy}
use healtharchive_backend.Contract.JobConfig.{fields_or_empty}
use healtharchive_backend.Registry.Templates.{
  SourceJobConfig, hc_job_config, phac_job_config, cihr_job_config, set_item,
}
use healtharchive_backend.Ops.{JobRow}
use healtharchive_backend.Ops.Recover.Host.{Host, fold_value}
use healtharchive_backend.Ops.Recover.Fixes.{Fix, run_fixes, writes_any, turn_on, default_to}
use healtharchive_backend.Ops.Recover.Annual.{kind_of, infer_annual_campaign_year}

-- The options of a source that the recovery knows.
pub record Profile : Type 0 where
  pub initial_workers : ℤ
  pub stall_timeout_minutes : ℤ
  pub error_threshold_timeout : ℤ
  pub error_threshold_http : ℤ
  pub backoff_delay_minutes : ℤ
  pub max_container_restarts : ℤ

-- `int(tool[key])`; `none` is an exception.
unfoldable pub option_number : Fields → String → Option ℤ
option_number tool key = elim (find_field key tool) [ none ↦ none | some v ↦ as_int v ]

-- The profile of a template, where it has all of the options.
unfoldable pub profile_of : SourceJobConfig → Option Profile
unfolding option_number
profile_of template =
    let number = λ (key : String). option_number template.default_tool_options key in
    elim (number "initial_workers") [
      | none ↦ none
      | some workers ↦ elim (number "stall_timeout_minutes") [
        | none ↦ none
        | some stall ↦ elim (number "error_threshold_timeout") [
          | none ↦ none
          | some timeouts ↦ elim (number "error_threshold_http") [
            | none ↦ none
            | some http ↦ elim (number "backoff_delay_minutes") [
              | none ↦ none
              | some backoff ↦ elim (number "max_container_restarts") [
                | none ↦ none
                | some restarts ↦ some (record {
                  initial_workers = workers;
                  stall_timeout_minutes = stall;
                  error_threshold_timeout = timeouts;
                  error_threshold_http = http;
                  backoff_delay_minutes = backoff;
                  max_container_restarts = restarts;
                })
              ]
            ]
          ]
        ]
      ]
    ]

-- `_ANNUAL_SOURCE_RECOVERY_PROFILES.get(source_code)`
unfoldable pub recovery_profile : String → Option Profile
unfolding profile_of
recovery_profile code =
    if code == "hc"
    then profile_of hc_job_config
    else if code == "phac"
    then profile_of phac_job_config
    else if code == "cihr"
    then profile_of cihr_job_config
    else none

-- The first of the codes that the name is or begins with, before a dash.
unfoldable pub code_in_name : List String → String → String
code_in_name [] name = ""
code_in_name (code ∷ rest) name =
    let later = code_in_name rest name in
    if name == code || starts_with name (concat code "-") then code else later

abbrev pub code_text : Option String → String
code_text none = ""
code_text (some code) = code

-- The source of a row, or what its name says.
unfoldable pub infer_source_code : List String → Host → JobRow → String
unfolding code_in_name
infer_source_code codes h j =
    let code = h.fold (code_text j.source_code) in
    if code == "" then code_in_name codes (h.fold j.name) else code

abbrev pub minimum_restarts : Option Profile → Bool → ℤ
minimum_restarts (some profile) annual = profile.max_container_restarts
minimum_restarts none annual = if annual then pos 20 else pos 6

-- `_int_or_none(v) or 0`
abbrev pub number_or_zero : Host → Json → ℤ
number_or_zero h v = elim (h.py.to_int v) [ none ↦ pos 0 | some n ↦ n ]

unfoldable pub raise_to : Host → ℤ → Json → Option Json
raise_to h least v = if ltb_ℤ (number_or_zero h v) least then some (int least) else none

-- A value of an earlier campaign, or none, gives way to the one of the profile.
unfoldable pub reconcile : Host → List ℤ → ℤ → Json → Option Json
reconcile h legacy desired v = elim (h.py.to_int v) [
  | none ↦ some (int desired)
  | some current ↦
      if contains legacy current && not (current == desired) then some (int desired) else none
]

unfoldable pub self_healing_fixes : Host → ℤ → List Fix
unfolding truthy raise_to
self_healing_fixes h least =
    record { key = "enable_monitoring"; decide = turn_on (truthy h.py) (bool true) }
    ∷ (record { key = "enable_adaptive_restart"; decide = turn_on (truthy h.py) (bool true) }
        ∷ (record { key = "max_container_restarts"; decide = raise_to h least } ∷ []))

abbrev pub annual_fixes : List Fix
annual_fixes =
    record { key = "skip_final_build"; decide = default_to (bool true) }
    ∷ (record { key = "docker_shm_size"; decide = default_to (str "1g") }
        ∷ (record { key = "stall_timeout_minutes"; decide = default_to (int (pos 60)) }
            ∷ (record { key = "error_threshold_timeout"; decide = default_to (int (pos 50)) }
                ∷ (record { key = "error_threshold_http"; decide = default_to (int (pos 50)) }
                    ∷ (record { key = "backoff_delay_minutes"; decide = default_to (int (pos 2)) }
                        ∷ [])))))

-- The values of earlier campaigns are those of _LEGACY_ANNUAL_BASELINE_VALUES.
unfoldable pub profile_fixes : Host → Profile → List Fix
unfolding reconcile
profile_fixes h p =
    record {
      key = "initial_workers";
      decide = reconcile h (pos 1 ∷ (pos 2 ∷ [])) p.initial_workers;
    }
    ∷ (record {
      key = "stall_timeout_minutes";
      decide = reconcile h (pos 60 ∷ []) p.stall_timeout_minutes;
    }
        ∷ (record {
          key = "error_threshold_timeout";
          decide = reconcile h (pos 50 ∷ []) p.error_threshold_timeout;
        }
            ∷ (record {
              key = "error_threshold_http";
              decide = reconcile h (pos 50 ∷ []) p.error_threshold_http;
            }
                ∷ (record {
                  key = "backoff_delay_minutes";
                  decide = reconcile h (pos 2 ∷ []) p.backoff_delay_minutes;
                }
                    ∷ []))))

-- The corrections of a job; only an annual one has a profile.
unfoldable pub option_fixes : Host → Bool → Option Profile → List Fix
unfolding self_healing_fixes profile_fixes
option_fixes h false profile = self_healing_fixes h (minimum_restarts none false)
option_fixes h true none = self_healing_fixes h (minimum_restarts none true) ++ annual_fixes
option_fixes h true (some p) =
    self_healing_fixes h (minimum_restarts (some p) true) ++ (annual_fixes ++ profile_fixes h p)

unfoldable pub is_annual : Host → JobRow → Bool
unfolding infer_annual_campaign_year fold_value
is_annual h j = kind_of h j.config == "annual" || is_some (infer_annual_campaign_year h j j.config)

unfoldable pub fixes_for : Host → JobRow → List Fix
unfolding option_fixes is_annual infer_source_code
fixes_for h j =
    option_fixes h (is_annual h j)
      (recovery_profile (infer_source_code ("hc" ∷ ("phac" ∷ ("cihr" ∷ []))) h j))

-- The row with its options, and whether it changed; `none` is an exception.
unfoldable pub ensure_recovery_tool_options : Host → JobRow → Option (JobRow × Bool)
unfolding fixes_for
ensure_recovery_tool_options h j =
    elim (fields_or_empty h.py (get_field "tool_options" null j.config)) [
      | none ↦ none
      | some tool ↦ some (
          if writes_any (fixes_for h j) tool
          then (
            record j {
              config = set_item "tool_options" (obj (run_fixes (fixes_for h j) tool)) j.config;
            },
            true,
          )
          else (j, false))
    ]
