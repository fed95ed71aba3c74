-- ===== src/Registry/Switch.antt =====
-- The templates of src/ha_backend/job_registry.py with monitoring turned on or off.
use healtharchive_backend.Base.{
  String, Bool, true, false, ◌≡◌, ◌↔◌, ◌⊎◌, refl, sym, Option, none, some, List, ◌==◌, string_eq,
  arith, inl, inr, if◌then◌else◌,
}
use mathlib.Core.Path.{subst}
use healtharchive_backend.Base.Int.{ℤ, pos}
use healtharchive_backend.Json.{Fields, bool, int, end, field, get_field}
use healtharchive_backend.Contract.{
  Python, IsPython, ArchiveToolOptions, truthy, options_of, from_dict, Validity, valid,
  adaptive_workers_unmonitored, validate_tool_options,
}
use healtharchive_backend.Contract.JobConfig.{job_to_dict}
use healtharchive_backend.Registry.Templates.{
  SourceJobConfig, hc_job_config, phac_job_config, cihr_job_config, hc_canary_job_config,
  get_config_for_source, update_fields, when_valid, build_job_config,
}
use healtharchive_backend.Registry.Built.{config_of, build_job_config-some}

abbrev pub monitoring : Bool → Fields
monitoring b = field "enable_monitoring" (bool b) end

-- The options of a template with monitoring on or off.
abbrev switched : Python → SourceJobConfig → Bool → ℤ → ArchiveToolOptions
switched py t b n = options_of py (update_fields t.default_tool_options (monitoring b)) n

-- How the number of workers of a template is read.
abbrev initial_workers_of : Python → SourceJobConfig → Bool → Option ℤ
initial_workers_of py t b = py.to_int (
    get_field "initial_workers" (int (pos 1)) (update_fields t.default_tool_options (monitoring b)))

from_dict-some :
    (py : Python) (d : Fields) {n : ℤ}
    → py.to_int (get_field "initial_workers" (int (pos 1)) d) ≡ some n
    → from_dict py d ≡ some (options_of py d n)
unfolding from_dict
from_dict-some py d h = rw (h, from_dict) refl

built_as :
    (py : Python) (t : SourceJobConfig) (seeds : List String) (b : Bool) (args : List String)
    {n : ℤ} {v : Validity}
    → initial_workers_of py t b ≡ some n
    → validate_tool_options py (switched py t b n) ≡ v
    → build_job_config py t seeds (monitoring b) args
      ≡ when_valid v (job_to_dict py (config_of t seeds args (switched py t b n)))
built_as py t seeds b args {n} {v} h e = rw (sym e) (
    build_job_config-some py t seeds (monitoring b) args
      (from_dict-some py (update_fields t.default_tool_options (monitoring b)) h))

-- Whether a template builds a config, with monitoring on and with it off.
abbrev Switched : Python → SourceJobConfig → List String → List String → Type 0
Switched py t seeds args =
    ((d : Fields) × (build_job_config py t seeds (monitoring true) args ≡ some d))
    × ((build_job_config py t seeds (monitoring false) args ≡ none)
        ↔ (t.schedule_hint ≡ some "annual"))

annual-Switched :
    (py : Python) (t : SourceJobConfig) (seeds args : List String) {n : ℤ}
    → t.schedule_hint ≡ some "annual"
    → initial_workers_of py t true ≡ some n
    → validate_tool_options py (switched py t true n) ≡ valid
    → initial_workers_of py t false ≡ some n
    → validate_tool_options py (switched py t false n) ≡ adaptive_workers_unmonitored
    → Switched py t seeds args
unfolding when_valid
annual-Switched py t seeds args {n} annual on on_valid off off_invalid = (
  (
    job_to_dict py (config_of t seeds args (switched py t true n)),
    built_as py t seeds true args on on_valid,
  ),
  ((λ raised. annual), (λ scheduled. built_as py t seeds false args off off_invalid)),
)

hc_valid :
    (py : Python)
    → IsPython py
    → (py.strip "1g" == "") ≡ false
    → validate_tool_options py (switched py hc_job_config true (pos 2)) ≡ valid
unfolding validate_tool_options update_fields get_field truthy options_of
hc_valid py laws h = rw (laws.to_text-str "1g") (rw h refl)

hc_unmonitored :
    (py : Python)
    → validate_tool_options py (switched py hc_job_config false (pos 2))
      ≡ adaptive_workers_unmonitored
unfolding validate_tool_options update_fields get_field truthy options_of
hc_unmonitored py = refl

hc-Switched :
    (py : Python)
    → IsPython py
    → (py.strip "1g" == "") ≡ false
    → (seeds args : List String) → Switched py hc_job_config seeds args
unfolding update_fields get_field
hc-Switched py laws h seeds args =
    annual-Switched py hc_job_config seeds args refl (laws.to_int-int (pos 2)) (hc_valid py laws h)
      (laws.to_int-int (pos 2)) (hc_unmonitored py)

phac_valid :
    (py : Python)
    → IsPython py
    → (py.strip "1g" == "") ≡ false
    → validate_tool_options py (switched py phac_job_config true (pos 2)) ≡ valid
unfolding validate_tool_options update_fields get_field truthy options_of
phac_valid py laws h = rw (laws.to_text-str "1g") (rw h refl)

phac_unmonitored :
    (py : Python)
    → validate_tool_options py (switched py phac_job_config false (pos 2))
      ≡ adaptive_workers_unmonitored
unfolding validate_tool_options update_fields get_field truthy options_of
phac_unmonitored py = refl

phac-Switched :
    (py : Python)
    → IsPython py
    → (py.strip "1g" == "") ≡ false
    → (seeds args : List String) → Switched py phac_job_config seeds args
unfolding update_fields get_field
phac-Switched py laws h seeds args =
    annual-Switched py phac_job_config seeds args refl (laws.to_int-int (pos 2))
      (phac_valid py laws h) (laws.to_int-int (pos 2)) (phac_unmonitored py)

cihr_valid :
    (py : Python)
    → IsPython py
    → (py.strip "1g" == "") ≡ false
    → validate_tool_options py (switched py cihr_job_config true (pos 3)) ≡ valid
unfolding validate_tool_options update_fields get_field truthy options_of
cihr_valid py laws h = rw (laws.to_text-str "1g") (rw h refl)

cihr_unmonitored :
    (py : Python)
    → validate_tool_options py (switched py cihr_job_config false (pos 3))
      ≡ adaptive_workers_unmonitored
unfolding validate_tool_options update_fields get_field truthy options_of
cihr_unmonitored py = refl

cihr-Switched :
    (py : Python)
    → IsPython py
    → (py.strip "1g" == "") ≡ false
    → (seeds args : List String) → Switched py cihr_job_config seeds args
unfolding update_fields get_field
cihr-Switched py laws h seeds args =
    annual-Switched py cihr_job_config seeds args refl (laws.to_int-int (pos 3))
      (cihr_valid py laws h) (laws.to_int-int (pos 3)) (cihr_unmonitored py)

hc_canary_valid :
    (py : Python)
    → IsPython py
    → (py.strip "512m" == "") ≡ false
    → validate_tool_options py (switched py hc_canary_job_config true (pos 1)) ≡ valid
unfolding validate_tool_options update_fields get_field truthy options_of
hc_canary_valid py laws h = rw (laws.to_text-str "512m") (rw h refl)

hc_canary_unmonitored :
    (py : Python)
    → IsPython py
    → (py.strip "512m" == "") ≡ false
    → validate_tool_options py (switched py hc_canary_job_config false (pos 1)) ≡ valid
unfolding validate_tool_options update_fields get_field truthy options_of
hc_canary_unmonitored py laws h = rw (laws.to_text-str "512m") (rw h refl)

hc_canary-Switched :
    (py : Python)
    → IsPython py
    → (py.strip "512m" == "") ≡ false
    → (seeds args : List String) → Switched py hc_canary_job_config seeds args
unfolding update_fields get_field when_valid
hc_canary-Switched py laws h seeds args =
    let off =
      built_as py hc_canary_job_config seeds false args (laws.to_int-int (pos 1))
        (hc_canary_unmonitored py laws h) in
    (
      (
        job_to_dict py (
            config_of hc_canary_job_config seeds args
              (switched py hc_canary_job_config true (pos 1))),
        built_as py hc_canary_job_config seeds true args (laws.to_int-int (pos 1))
            (hc_canary_valid py laws h),
      ),
      ((λ raised. absurd (ground arith)), (λ annual. absurd (ground arith))),
    )

-- A choice among templates.
chosen :
    (b : Bool) (x : SourceJobConfig) (r : Option SourceJobConfig) {t : SourceJobConfig}
    → (if b then some x else r) ≡ some t
    → (x ≡ t) ⊎ (r ≡ some t)
chosen true x r h = inl (grind arith)
chosen false x r h = inr h

-- The templates, by their code.
templates :
    (lower : String → String) (code : String) {t : SourceJobConfig}
    → get_config_for_source lower code ≡ some t
    → (hc_job_config ≡ t)
      ⊎ ((phac_job_config ≡ t) ⊎ ((cihr_job_config ≡ t) ⊎ (hc_canary_job_config ≡ t)))
unfolding get_config_for_source
templates lower code h = elim (chosen (lower code == "hc") hc_job_config _ h) [
  | inl e ↦ inl e
  | inr p ↦ elim (chosen (lower code == "phac") phac_job_config _ p) [
    | inl e ↦ inr (inl e)
    | inr q ↦ elim (chosen (lower code == "cihr") cihr_job_config _ q) [
      | inl e ↦ inr (inr (inl e))
      | inr r ↦ elim (chosen (lower code == "hc_canary") hc_canary_job_config none r) [
        | inl e ↦ inr (inr (inr e))
        | inr none_left ↦ absurd (ground arith)
      ]
    ]
  ]
]

-- Every template that is found by a code builds a config where monitoring is turned on; where it is turned
-- off, exactly the annual templates are refused.
pub build_job_config-monitoring :
    (py : Python)
    → IsPython py
    → (py.strip "1g" == "") ≡ false
    → (py.strip "512m" == "") ≡ false
    → (lower : String → String) (code : String) {t : SourceJobConfig}
    → get_config_for_source lower code ≡ some t
    → (seeds args : List String)
    → ((d : Fields) × (build_job_config py t seeds (monitoring true) args ≡ some d))
      × ((build_job_config py t seeds (monitoring false) args ≡ none)
          ↔ (t.schedule_hint ≡ some "annual"))
build_job_config-monitoring py laws g m lower code h seeds args = elim (templates lower code h) [
  | inl e ↦ subst (λ x. Switched py x seeds args) e (hc-Switched py laws g seeds args)
  | inr (inl e) ↦ subst (λ x. Switched py x seeds args) e (phac-Switched py laws g seeds args)
  | inr (inr (inl e)) ↦ subst (λ x. Switched py x seeds args) e (cihr-Switched py laws g seeds args)
  | inr (inr (inr e)) ↦
      subst (λ x. Switched py x seeds args) e (hc_canary-Switched py laws m seeds args)
]
