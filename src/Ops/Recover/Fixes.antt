-- ===== src/Ops/Recover/Fixes.antt =====
-- Corrections of a dict, key by key, that note whether they changed it: the form of
-- `_ensure_recovery_tool_options` and `_ensure_annual_campaign_metadata`
-- (scripts/vps-crawl-auto-recover.py).
use healtharchive_backend.Base.{
  String, Bool, false, ◌≡◌, refl, Option, none, some, is_some, List, [], ◌∷◌, ◌||◌, ◌==◌, string_eq,
  if◌then◌else◌, All, arith, eq_iff, inl, inr, Option-cases, ◌∙◌,
}
use healtharchive_backend.Json.{Json, Fields, null, end, field, get_field}
use healtharchive_backend.Registry.Templates.{set_item}

-- From the value at the key, `None` where there is none, the value to write there, if any.
pub record Fix : Type 0 where
  pub key : String
  pub decide : Json → Option Json

unfoldable pub write : String → Option Json → Fields → Fields
write key none d = d
write key (some v) d = set_item key v d

unfoldable pub fix_once : Fix → Fields → Fields
unfolding write
fix_once f d = write f.key (f.decide (get_field f.key null d)) d

unfoldable pub run_fixes : List Fix → Fields → Fields
unfolding fix_once
run_fixes [] d = d
run_fixes (f ∷ rest) d = run_fixes rest (fix_once f d)

-- Whether one of the corrections wrote something.
unfoldable pub writes_any : List Fix → Fields → Bool
writes_any [] d = false
writes_any (f ∷ rest) d =
    is_some (f.decide (get_field f.key null d)) || writes_any rest (fix_once f d)

-- `if not v: d[key] = True`, where `truth` is `bool`
abbrev pub turn_on : (Json → Bool) → Json → Json → Option Json
turn_on truth on v = if truth v then none else some on

-- `if v is None: d[key] = default`
abbrev pub default_to : Json → Json → Option Json
default_to default null = some default
default_to default _ = none

pub get-set :
    (k j : String) (v default : Json) (d : Fields)
    → get_field j default (set_item k v d) ≡ (if k == j then v else get_field j default d)
unfolding get_field set_item
get-set k j v default end = refl
get-set k j v default (field i w rest) =
    ground (arith, eq_iff k j, eq_iff i k, eq_iff i j, get-set k j v default rest)

-- What a correction makes of a value.
abbrev pub updated : Option Json → Json → Json
updated none v = v
updated (some w) v = w

-- What the corrections make of the value at a key.
unfoldable pub value_after : String → List Fix → Json → Json
value_after k [] v = v
value_after k (f ∷ rest) v = value_after k rest (if f.key == k then updated (f.decide v) v else v)

get-write :
    (k j : String) (o : Option Json) (d : Fields)
    → get_field j null (write k o d)
      ≡ (if k == j then updated o (get_field j null d) else get_field j null d)
unfolding write
get-write k j none d = ground arith
get-write k j (some v) d = get-set k j v null d

get-fix_once :
    (f : Fix) (j : String) (d : Fields)
    → get_field j null (fix_once f d) ≡ (
        if f.key == j
        then updated (f.decide (get_field j null d)) (get_field j null d)
        else get_field j null d)
unfolding fix_once
get-fix_once f j d =
    ground (arith, get-write f.key j (f.decide (get_field f.key null d)) d, eq_iff f.key j)

pub get-run_fixes :
    (j : String) (fixes : List Fix) (d : Fields)
    → get_field j null (run_fixes fixes d) ≡ value_after j fixes (get_field j null d)
unfolding run_fixes value_after
get-run_fixes j [] d = refl
get-run_fixes j (f ∷ rest) d = get-run_fixes j rest (fix_once f d) ∙ rw (get-fix_once f j d) refl

-- Corrections that find nothing to write leave the dict alone.
abbrev pub Settled : List Fix → Fields → Type 0
Settled fixes d = All (λ (f : Fix). f.decide (get_field f.key null d) ≡ none) fixes

pub run_fixes-Settled :
    (fixes : List Fix) (d : Fields)
    → Settled fixes d
    → (run_fixes fixes d ≡ d) × (writes_any fixes d ≡ false)
unfolding run_fixes writes_any fix_once write
run_fixes-Settled [] d h = (refl, refl)
run_fixes-Settled (f ∷ rest) d h = rw h.0 (run_fixes-Settled rest d h.1)

-- Without a write the dict is the same.
pub run_fixes-unwritten :
    (fixes : List Fix) (d : Fields) → writes_any fixes d ≡ false → run_fixes fixes d ≡ d
unfolding run_fixes writes_any fix_once write
run_fixes-unwritten [] d h = refl
run_fixes-unwritten (f ∷ rest) d h = elim (Option-cases (f.decide (get_field f.key null d))) [
  | inl quiet ↦ rw quiet (run_fixes-unwritten rest d (ground arith))
  | inr (v, loud) ↦ absurd (ground arith)
]
