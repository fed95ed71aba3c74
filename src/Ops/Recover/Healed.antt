-- ===== src/Ops/Recover/Healed.antt =====
-- A job after `_ensure_recovery_tool_options` of scripts/vps-crawl-auto-recover.py.
use healtharchive_backend.Base.{
  Bool, true, false, ◌≡◌, refl, sym, ◌∙◌, Option, none, some, [], ◌∷◌, string_eq, if◌then◌else◌,
  arith, inl, inr, Option-cases, Bool-cases,
}
use mathlib.Core.Path.{subst}
use healtharchive_backend.Base.Int.{ℤ, ◌≤ℤ◌}
use healtharchive_backend.Json.{Json, Fields, null, obj, get_field}
use healtharchive_backend.Contract.{IsPython, truthy}
use healtharchive_backend.Contract.JobConfig.{fields_or_empty}
use healtharchive_backend.Registry.Templates.{set_item}
use healtharchive_backend.Ops.{JobRow}
use healtharchive_backend.Ops.Recover.Host.{Host}
use healtharchive_backend.Ops.Recover.Fixes.{
  run_fixes, writes_any, Settled, get-set, run_fixes-Settled, run_fixes-unwritten,
}
use healtharchive_backend.Ops.Recover.Annual.{year_texts}
use healtharchive_backend.Ops.Recover.Options.{
  Profile, raise_to, number_or_zero, minimum_restarts, option_fixes, recovery_profile,
  infer_source_code, is_annual, fixes_for, ensure_recovery_tool_options,
}
use healtharchive_backend.Ops.Recover.Healing.{option_fixes-Settled}

-- The minimum of container restarts for a job.
abbrev pub restarts_wanted : Host → JobRow → ℤ
restarts_wanted h j = elim (is_annual h j) [
  | false ↦ minimum_restarts none false
  | true ↦
      minimum_restarts (recovery_profile (infer_source_code ("hc" ∷ ("phac" ∷ ("cihr" ∷ []))) h j))
        true
]

-- The options that let a job heal itself.
abbrev pub Heals : Host → ℤ → Fields → Type 0
Heals h least tool =
    (truthy h.py (get_field "enable_monitoring" null tool) ≡ true)
    × (truthy h.py (get_field "enable_adaptive_restart" null tool) ≡ true)
    × (least ≤ℤ number_or_zero h (get_field "max_container_restarts" null tool))

abbrev wanted : Bool → Option Profile → ℤ
wanted annual profile = elim annual [
  | false ↦ minimum_restarts none false
  | true ↦ minimum_restarts profile true
]

Settled-Heals :
    (h : Host) (annual : Bool) (profile : Option Profile) (tool : Fields)
    → Settled (option_fixes h annual profile) tool
    → Heals h (wanted annual profile) tool
unfolding option_fixes raise_to
Settled-Heals h false profile tool s = ground arith
Settled-Heals h true none tool s = ground arith
Settled-Heals h true (some p) tool s = ground arith

-- The corrections of a job do not depend on its options.
fixes_for-config :
    (h : Host) (j : JobRow) (v : Json)
    → fixes_for h (record j { config = set_item "tool_options" v j.config }) ≡ fixes_for h j
unfolding fixes_for year_texts
fixes_for-config h j v =
    let kind : get_field "campaign_kind" null (set_item "tool_options" v j.config)
        ≡ get_field "campaign_kind" null j.config =
      get-set "tool_options" "campaign_kind" v null j.config in
    let year : get_field "campaign_year" null (set_item "tool_options" v j.config)
        ≡ get_field "campaign_year" null j.config =
      get-set "tool_options" "campaign_year" v null j.config in
    rw kind (rw year refl)

-- The options of a row.
abbrev pub tool_of : Host → JobRow → Option Fields
tool_of h j = fields_or_empty h.py (get_field "tool_options" null j.config)

ensured :
    (h : Host) (j : JobRow) {tool : Fields}
    → tool_of h j ≡ some tool
    → ensure_recovery_tool_options h j
      ≡ some (
          if writes_any (fixes_for h j) tool
          then (
            record j {
              config = set_item "tool_options" (obj (run_fixes (fixes_for h j) tool)) j.config;
            },
            true,
          )
          else (j, false))
unfolding ensure_recovery_tool_options
ensured h j e = rw (e, ensure_recovery_tool_options) refl

fixed_tool :
    (h : Host) (j : JobRow) (fields : Fields)
    → tool_of h (record j { config = set_item "tool_options" (obj fields) j.config }) ≡ some fields
unfolding fields_or_empty
fixed_tool h j fields = rw (get-set "tool_options" "tool_options" (obj fields) null j.config) refl

heals :
    (h : Host) (j : JobRow) (tool : Fields)
    → Settled (fixes_for h j) tool
    → Heals h (restarts_wanted h j) tool
unfolding fixes_for
heals h j tool s =
    Settled-Heals h (is_annual h j)
      (recovery_profile (infer_source_code ("hc" ∷ ("phac" ∷ ("cihr" ∷ []))) h j)) tool s

taken :
    (b : Bool) (r s k : JobRow) {c : Bool}
    → ◌≡◌ {A = Option (JobRow × Bool)} (some (if b then (r, true) else (s, false))) (some (k, c))
    → (if b then r else s) ≡ k
taken true r s k e = grind arith
taken false r s k e = grind arith

-- A row whose corrections are settled is left alone, and heals.
Settled-row :
    (h : Host) (j : JobRow) {tool : Fields}
    → tool_of h j ≡ some tool
    → Settled (fixes_for h j) tool
    → (ensure_recovery_tool_options h j ≡ some (j, false)) × Heals h (restarts_wanted h j) tool
unfolding fixes_for
Settled-row h j {tool} e s =
    (ensured h j e ∙ rw ((run_fixes-Settled (fixes_for h j) tool s).1) refl, heals h j tool s)

Settled-by_run :
    (h : Host)
    → IsPython h.py
    → (j : JobRow) (tool : Fields) → Settled (fixes_for h j) (run_fixes (fixes_for h j) tool)
unfolding fixes_for
Settled-by_run h laws j tool =
    option_fixes-Settled h laws (is_annual h j)
      (recovery_profile (infer_source_code ("hc" ∷ ("phac" ∷ ("cihr" ∷ []))) h j)) tool

-- What is claimed of a row after the options were ensured.
abbrev Ensured : Host → JobRow → JobRow → Type 0
Ensured h j k =
    (ensure_recovery_tool_options h k ≡ some (k, false))
    × ((tool : Fields) × (tool_of h k ≡ some tool) × Heals h (restarts_wanted h j) tool)
    × (k ≡ record j { config = k.config })

unwritten :
    (h : Host)
    → IsPython h.py
    → (j : JobRow) {tool : Fields} → tool_of h j ≡ some tool
    → writes_any (fixes_for h j) tool ≡ false
    → Ensured h j j
unwritten h laws j {tool} e quiet =
    let s = Settled-row h j e (
      subst (Settled (fixes_for h j)) (run_fixes-unwritten (fixes_for h j) tool quiet)
        (Settled-by_run h laws j tool)) in
    (s.0, (tool, e, s.1), refl)

written :
    (h : Host)
    → IsPython h.py
    → (j : JobRow) (tool : Fields)
    → Ensured h j (record j {
      config = set_item "tool_options" (obj (run_fixes (fixes_for h j) tool)) j.config;
    })
written h laws j tool =
    let fixed = run_fixes (fixes_for h j) tool in
    let k = record j { config = set_item "tool_options" (obj fixed) j.config } in
    let same = fixes_for-config h j (obj fixed) in
    let s = Settled-row h k (fixed_tool h j fixed) (rw same (Settled-by_run h laws j tool)) in
    (s.0, (fixed, fixed_tool h j fixed, heals h j fixed (Settled-by_run h laws j tool)), refl)

-- With Python as IsPython says: where the options of a job are ensured without an exception, only its config may
-- change, and it can heal itself: it is monitored, it restarts its container, and at least as often as its
-- source and kind ask for. To ensure the options again changes nothing.
pub ensure_recovery_tool_options_lem :
    (h : Host)
    → IsPython h.py
    → (j : JobRow) {k : JobRow} {changed : Bool}
    → ensure_recovery_tool_options h j ≡ some (k, changed)
    → (ensure_recovery_tool_options h k ≡ some (k, false))
      × ((tool : Fields) × (tool_of h k ≡ some tool) × Heals h (restarts_wanted h j) tool)
      × (k ≡ record j { config = k.config })
unfolding ensure_recovery_tool_options
ensure_recovery_tool_options_lem h laws j {k} e = elim (Option-cases (tool_of h j)) [
  | inl raises ↦ absurd (ground arith)
  | inr (tool, reads) ↦
      let fixed = record j {
        config = set_item "tool_options" (obj (run_fixes (fixes_for h j) tool)) j.config;
      } in
      let p = taken (writes_any (fixes_for h j) tool) fixed j k (sym (ensured h j reads) ∙ e) in
      elim (Bool-cases (writes_any (fixes_for h j) tool)) [
        | inl writes ↦ subst (Ensured h j) (rw writes at p) (written h laws j tool)
        | inr quiet ↦ subst (Ensured h j) (rw quiet at p) (unwritten h laws j reads quiet)
      ]
]
