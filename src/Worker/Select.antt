-- ===== src/Worker/Select.antt =====
-- Which job the worker picks (src/ha_backend/worker/main.py, `_select_next_crawl_job`).
use healtharchive_backend.Base.{
  ℕ, true, false, ◌≡◌, refl, none, some, [], ◌∷◌, arith, inl, inr, Bool-cases, Option-cases,
  if◌then◌else◌, All, ◌⊎◌,
}
use mathlib.Core.Path.{subst}
use healtharchive_backend.Jobs.{Job, Database}
use healtharchive_backend.Worker.{is_eligible, is_before, select_next_crawl_job}

-- A row of the table.
abbrev pub Row : Job → Database → Type 0
Row j [] = ⊥
Row j (i ∷ rest) = (i ≡ j) ⊎ Row j rest

-- If `b` is not before `a` and `c` is not before `b`, then `c` is not before `a`.
not_before_trans :
    (a b c : Job) → is_before b a ≡ false → is_before c b ≡ false → is_before c a ≡ false
unfolding is_before
not_before_trans a b c h k = ground arith

before_asymm : (a b : Job) → is_before a b ≡ true → is_before b a ≡ false
unfolding is_before
before_asymm a b h = ground arith

not_before_self : (a : Job) → is_before a a ≡ false
unfolding is_before
not_before_self a = ground arith

-- No eligible row of the table comes before `j`.
abbrev pub IsFirst : ℕ → Job → Database → Type 0
IsFirst now j = All (λ i. is_eligible now i ≡ true → is_before i j ≡ false)

IsFirst-trans :
    (now : ℕ) (a b : Job) (db : Database)
    → is_before b a ≡ false
    → IsFirst now b db
    → IsFirst now a db
IsFirst-trans now a b [] h f = tt
IsFirst-trans now a b (i ∷ db) h (fi, f) =
    (λ eligible. not_before_trans a b i h (fi eligible), IsFirst-trans now a b db h f)

IsFirst-ineligible :
    (now : ℕ) (j : Job) (db : Database) → All (λ i. is_eligible now i ≡ false) db → IsFirst now j db
IsFirst-ineligible now j [] h = tt
IsFirst-ineligible now j (i ∷ db) (hi, h) = (λ e. cc, IsFirst-ineligible now j db h)

-- If no job is selected, none is eligible.
pub select-none :
    (now : ℕ) (db : Database)
    → select_next_crawl_job now db ≡ none
    → All (λ i. is_eligible now i ≡ false) db
unfolding select_next_crawl_job
select-none now [] h = tt
select-none now (j ∷ db) h = (ground arith, select-none now db (ground arith))

abbrev IsChosen : ℕ → Database → Job → Type 0
IsChosen now db j = Row j db × (is_eligible now j ≡ true) × IsFirst now j db

IsChosen-cons :
    (now : ℕ) (i k c : Job) (db : Database)
    → (if is_eligible now i then (if is_before k i then k else i) else k) ≡ c
    → IsChosen now db k
    → IsChosen now (i ∷ db) c
IsChosen-cons now i k c db e (row, eligible, first) = elim (Bool-cases (is_eligible now i)) [
  | inr skipped ↦
      subst (IsChosen now (i ∷ db)) {x = k} {y = c} (ground arith)
        (inr row, eligible, (λ e'. cc, first))
  | inl taken ↦ elim (Bool-cases (is_before k i)) [
    | inl earlier ↦
        subst (IsChosen now (i ∷ db)) {x = k} {y = c} (ground arith)
          (inr row, eligible, (λ _. before_asymm k i earlier, first))
    | inr later ↦
        subst (IsChosen now (i ∷ db)) {x = i} {y = c} (ground arith)
          (inl refl, taken, (λ _. not_before_self i, IsFirst-trans now i k db later first))
  ]
]

-- A job that is selected is a row, is eligible, and no eligible row is queued before it.
pub select-some :
    (now : ℕ) (db : Database) (j : Job)
    → select_next_crawl_job now db ≡ some j
    → Row j db × (is_eligible now j ≡ true) × IsFirst now j db
unfolding select_next_crawl_job
select-some now [] j h = cc
select-some now (i ∷ db) j h = elim (Option-cases (select_next_crawl_job now db)) [
  | inl nothing ↦ (
    inl (ground arith),
    ground arith,
    (
      λ e. ground (arith, not_before_self j),
      IsFirst-ineligible now j db (select-none now db nothing),
    ),
  )
  | inr (k, picked) ↦ IsChosen-cons now i k j db (ground arith) (select-some now db k picked)
]
