-- ===== src/Base/Texts.antt =====
-- Texts: Python's `startswith`, `in`, `join` and `str` of a number.
use Prim.Native.Nat.{ℕ, zero, suc, ◌+◌, ◌/◌, ◌%◌}
use Prim.Native.String.{String, len, slice, ◌++◌ as concat}
use Prim.Native.Char.{Char, code}
use mathlib.Core.Path.{◌≡◌, refl, sym, ap, ◌∙◌}
use Prim.Native.String.append
use mathlib.Core.Logic.{◌≢◌, inl, inr}
use native.Mathlib.Omega.{arith}
use healtharchive_backend.Base.Lists.{All}
use mathlib.Core.Bool.{Bool, true, false}
use mathlib.Core.List.{List, [], ◌∷◌}
use text.Mathlib.Text.{find?}
pub use text.Mathlib.Text.{starts_with}
use text.Mathlib.TextEquality.{starts_with_iff}
use text.Mathlib.TextLemmas.{append_assoc}
use healtharchive_backend.Base.Tests.{ltb, Bool-cases, if◌then◌else◌, is_some}
use healtharchive_backend.Base.Int.{ℤ, pos, negsuc}

-- `sub in s`
abbrev pub has : String → String → Bool
has s sub = is_some (find? s sub)

-- `s[k:]` for a `k` within an ASCII prefix
abbrev pub after : String → ℕ → String
after s k = slice s k (len s)

-- `sep.join(xs)`
unfoldable pub join_with : String → List String → String
join_with sep [] = ""
join_with sep (x ∷ []) = x
join_with sep (x ∷ (y ∷ ys)) = concat x (concat sep (join_with sep (y ∷ ys)))

digit : ℕ → List String → String
digit n [] = "9"
digit zero (d ∷ ds) = d
digit (suc n) (d ∷ ds) = digit n ds

abbrev decimals : List String
decimals = "0" ∷ "1" ∷ "2" ∷ "3" ∷ "4" ∷ "5" ∷ "6" ∷ "7" ∷ "8" ∷ []

digits : ℕ → ℕ → String
digits zero n = "0"
digits (suc fuel) n =
    let last = digit (n % 10) decimals in
    let more = concat (digits fuel (n / 10)) last in if ltb n 10 then last else more

-- `str(n)`
unfoldable pub str_ℤ : ℤ → String
unfolding digits digit
str_ℤ (pos n) = digits (n + 1) n
str_ℤ (negsuc n) = concat "-" (digits (n + 2) (n + 1))

shown : str_ℤ (negsuc 906) ≡ "-907"
unfolding str_ℤ
shown = refl

-- A text that starts with `long` starts with what `long` starts with.
pub starts_with_trans :
    (s long short : String)
    → starts_with s long ≡ true
    → starts_with long short ≡ true
    → starts_with s short ≡ true
starts_with_trans s long short p q =
    let (u, e) = (starts_with_iff s long).0 p in
    let (v, d) = (starts_with_iff long short).0 q in
    (starts_with_iff s short).1
      (concat v u, sym (append_assoc short v u) ∙ (ap (λ x. concat x u) d ∙ e))

-- The text begins with a character that is no dash.
abbrev IsUndashed : String → Type 0
IsUndashed s = (c : Char) × (t : String) × (s ≡ String.◌∷◌ c t) × (code c ≢ b'-')

undashed : (c : Char) → code c ≢ b'-' → IsUndashed (String.◌∷◌ c "")
undashed c h = (c, "", refl, h)

digit-IsUndashed : (n : ℕ) (ds : List String) → All IsUndashed ds → IsUndashed (digit n ds)
unfolding digit
digit-IsUndashed n [] h = undashed "9" (omega arith)
digit-IsUndashed zero (d ∷ ds) h = h.0
digit-IsUndashed (suc n) (d ∷ ds) h = digit-IsUndashed n ds h.1

decimals-IsUndashed : All IsUndashed decimals
decimals-IsUndashed = (
  undashed "0" (omega arith),
  (
    undashed "1" (omega arith),
    (
      undashed "2" (omega arith),
      (
        undashed "3" (omega arith),
        (
          undashed "4" (omega arith),
          (
            undashed "5" (omega arith),
            (
              undashed "6" (omega arith),
              (undashed "7" (omega arith), (undashed "8" (omega arith), tt)),
            ),
          ),
        ),
      ),
    ),
  ),
)

concat-IsUndashed : (s t : String) → IsUndashed s → IsUndashed (concat s t)
concat-IsUndashed s t (c, u, e, h) = (c, concat u t, ap (λ x. concat x t) e ∙ append.cons c u t, h)

digits-IsUndashed : (fuel n : ℕ) → IsUndashed (digits fuel n)
unfolding digits
digits-IsUndashed zero n = undashed "0" (omega arith)
digits-IsUndashed (suc fuel) n = elim (Bool-cases (ltb n 10)) [
  | inl small ↦ rw small (digit-IsUndashed (n % 10) decimals decimals-IsUndashed)
  | inr large ↦ rw large (
      concat-IsUndashed (digits fuel (n / 10)) (digit (n % 10) decimals)
        (digits-IsUndashed fuel (n / 10)))
]

starts_with-dash : (s : String) → IsUndashed s → starts_with s "-" ≡ false
starts_with-dash s (c, u, e, h) = elim (Bool-cases (starts_with s "-")) [
  | inr fine ↦ fine
  | inl dashed ↦
      let (v, p) = (starts_with_iff s "-").0 dashed in
      let q : String.◌∷◌ "-" (concat "" v) ≡ String.◌∷◌ c u =
        sym (append.cons "-" "" v) ∙ (p ∙ e) in
      let head : ◌≡◌ {A = Char} "-" c = cc q in absurd (h (sym (ap code head)))
]

-- The text of a number is no option.
pub starts_with-str_ℤ : (n : ℤ) → starts_with (str_ℤ n) "--" ≡ false
unfolding str_ℤ
starts_with-str_ℤ (pos n) = elim (Bool-cases (starts_with (digits (n + 1) n) "--")) [
  | inr fine ↦ fine
  | inl dashed ↦
      let single = starts_with_trans (digits (n + 1) n) "--" "-" dashed refl in
      let none = starts_with-dash (digits (n + 1) n) (digits-IsUndashed (n + 1) n) in cc
]
starts_with-str_ℤ (negsuc n) =
    let d = digits (n + 2) (n + 1) in
    elim (Bool-cases (starts_with (concat "-" d) "--")) [
      | inr fine ↦ fine
      | inl dashed ↦
          let (v, p) = (starts_with_iff (concat "-" d) "--").0 dashed in
          let q : String.◌∷◌ "-" (concat "-" v) ≡ String.◌∷◌ "-" (concat "" d) =
            sym (append.cons "-" "-" v) ∙ (p ∙ append.cons "-" "" d) in
          let tail : concat "-" v ≡ concat "" d = cc q in
          let single = (starts_with_iff d "-").1 (v, tail ∙ append.nil d) in
          let none = starts_with-dash d (digits-IsUndashed (n + 2) (n + 1)) in cc
    ]
