-- ===== src/Registry/Tests.antt =====
-- The scope arguments of an older job of Health Canada, and the config of a canary.
use healtharchive_backend.Base.{
  String, true, false, ◌≡◌, ◌↔◌, refl, Option, none, some, List, [], ◌∷◌,
}
use healtharchive_backend.Base.Int.{ℤ, pos}
use healtharchive_backend.Json.{Json, Fields, int, str, end, field, get_field}
use healtharchive_backend.Contract.{
  Python, IsPython, ArchiveToolOptions, truthy, options_of, from_dict, valid, validate_tool_options,
}
use healtharchive_backend.Contract.JobConfig.{ArchiveJobConfig, job_to_dict, job_from_dict}
use healtharchive_backend.Registry.{
  remaining, existing_chrome_args, keep_chrome_args, normalize_scope_passthrough_args,
  reconcile_scope_passthrough_args,
}
use healtharchive_backend.Registry.Drift.{Unmanaged, reconcile_scope_passthrough_args_lem}
use healtharchive_backend.Registry.Templates.{
  cihr_job_config, get_config_for_source, hc_canary_job_config, update_fields, build_job_config,
}
use healtharchive_backend.Registry.Built.{config_of, build_job_config_lem}
use healtharchive_backend.Registry.Switch.{monitoring, build_job_config-monitoring}

abbrev old_args : List String
old_args =
    "--scopeType" ∷ "host" ∷ "--extraChromeArgs" ∷ "--disable-http2" ∷ "--lang" ∷ "en"
    ∷ "--extraChromeArgs" ∷ "--mute" ∷ []

normal_args :
    normalize_scope_passthrough_args "in" "out" [] ("--disable-http2" ∷ []) old_args
    ≡ "--scopeType" ∷ "custom" ∷ "--scopeIncludeRx" ∷ "in" ∷ "--scopeExcludeRx" ∷ "out"
      ∷ "--extraChromeArgs" ∷ "--mute" ∷ "--lang" ∷ "en" ∷ []
unfolding normalize_scope_passthrough_args remaining existing_chrome_args keep_chrome_args
normal_args = refl

reconcile_scope_passthrough_args_lem_example :
    let r = reconcile_scope_passthrough_args (λ code. code) "hc" old_args in
    (reconcile_scope_passthrough_args (λ code. code) "hc" r.0 ≡ (r.0, false))
    × ((r.1 ≡ false) ↔ (r.0 ≡ old_args))
    × ((out : List String) × Unmanaged old_args out × Unmanaged r.0 out)
reconcile_scope_passthrough_args_lem_example =
    reconcile_scope_passthrough_args_lem (λ code. code) "hc" old_args

-- Python on the values of the canary.
to_int_of : Json → Option ℤ
to_int_of (int n) = some n
to_int_of _ = none

to_text_of : Json → String
to_text_of (str s) = s
to_text_of _ = "None"

abbrev python : Python
python = record {
  to_int = to_int_of;
  to_text = to_text_of;
  nonzero = λ text. true;
  strip = λ text. text;
  dumps = λ fields. "{}";
}

python-IsPython : IsPython python
unfolding to_int_of to_text_of
python-IsPython = record {
  to_int-int = λ n. refl;
  to_text-str = λ s. refl;
  strip_idem = λ s. refl;
  strip-empty = refl;
}

abbrev two_workers : Fields
two_workers = field "initial_workers" (int (pos 2)) end

abbrev canary_options : ArchiveToolOptions
canary_options =
    options_of python (update_fields hc_canary_job_config.default_tool_options two_workers) (pos 2)

abbrev canary : Fields
canary = job_to_dict python (
    config_of hc_canary_job_config ("https://www.canada.ca/fr.html" ∷ []) ("--lang" ∷ [])
      canary_options)

canary_built :
    build_job_config python hc_canary_job_config
      ("https://www.canada.ca/fr.html" ∷ [])
      two_workers
      ("--lang" ∷ [])
    ≡ some canary
unfolding build_job_config update_fields from_dict validate_tool_options get_field truthy to_text_of
    to_int_of
canary_built = refl

build_job_config_lem_example :
    (c : ArchiveJobConfig) × (job_from_dict python canary ≡ some c)
    × (c.seeds ≡ "https://www.canada.ca/en.html" ∷ "https://www.canada.ca/fr.html" ∷ [])
    × (c.zimit_passthrough_args ≡ "--limit" ∷ "2" ∷ "--maxDepth" ∷ "0" ∷ "--lang" ∷ [])
    × (validate_tool_options python c.tool_options ≡ valid)
build_job_config_lem_example =
    build_job_config_lem python python-IsPython hc_canary_job_config
      ("https://www.canada.ca/fr.html" ∷ []) two_workers ("--lang" ∷ []) canary_built

cihr_found : get_config_for_source (λ code. code) "cihr" ≡ some cihr_job_config
unfolding get_config_for_source
cihr_found = refl

build_job_config-monitoring_example :
    ((d : Fields) × (build_job_config python cihr_job_config [] (monitoring true) [] ≡ some d))
    × ((build_job_config python cihr_job_config [] (monitoring false) [] ≡ none)
        ↔ (cihr_job_config.schedule_hint ≡ some "annual"))
build_job_config-monitoring_example =
    build_job_config-monitoring python python-IsPython refl refl (λ code. code) "cihr" cihr_found []
      []
