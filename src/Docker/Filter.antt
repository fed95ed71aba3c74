-- ===== src/Docker/Filter.antt =====
-- `filter_args_for_final_run` of src/archive_tool/utils.py: what the final build gets of the
-- passthrough arguments.
use healtharchive_backend.Base.{
  String, Bool, true, ◌≡◌, refl, ap, ◌∙◌, ◌&&◌, not, List, [], ◌∷◌, some_of, all_of, arith, inl,
  inr, Bool-cases,
}
use healtharchive_backend.Base.Texts.{starts_with, starts_with_trans}
use healtharchive_backend.Docker.{
  filter_args_for_final_run, is_required, takes_next, required_final_args_prefixes,
}

prefix-dash :
    (arg : String) (prefixes : List String)
    → some_of (λ p. starts_with arg p) prefixes ≡ true
    → all_of (λ p. starts_with p "-") prefixes ≡ true
    → starts_with arg "-" ≡ true
prefix-dash arg [] h all = cc
prefix-dash arg (p ∷ ps) h all = elim (Bool-cases (starts_with arg p)) [
  | inl starts ↦ starts_with_trans arg p "-" starts (ground arith)
  | inr other ↦ prefix-dash arg ps (ground arith) (ground arith)
]

is_required-dash : (arg : String) → is_required arg ≡ true → starts_with arg "-" ≡ true
unfolding is_required
is_required-dash arg h = prefix-dash arg required_final_args_prefixes h refl

-- The list is empty or begins with an option.
abbrev starts_dash : List String → Bool
starts_dash [] = true
starts_dash (arg ∷ rest) = starts_with arg "-"

filter-starts_dash : (args : List String) → starts_dash (filter_args_for_final_run args) ≡ true
unfolding filter_args_for_final_run
filter-starts_dash [] = refl
filter-starts_dash (arg ∷ []) = ground (arith, is_required-dash arg)
filter-starts_dash (arg ∷ (next ∷ rest)) =
    ground (arith, is_required-dash arg, filter-starts_dash (next ∷ rest), filter-starts_dash rest)

filter-alone :
    (arg : String) (args : List String)
    → starts_dash args ≡ true
    → is_required arg ≡ true
    → filter_args_for_final_run (arg ∷ args) ≡ arg ∷ filter_args_for_final_run args
unfolding filter_args_for_final_run
filter-alone arg [] h r = ground arith
filter-alone arg (next ∷ rest) h r = ground arith

filter-pair :
    (arg next : String) (args : List String)
    → (takes_next arg && not (starts_with next "-")) ≡ true
    → is_required arg ≡ true
    → filter_args_for_final_run (arg ∷ (next ∷ args))
      ≡ arg ∷ (next ∷ filter_args_for_final_run args)
unfolding filter_args_for_final_run
filter-pair arg next args h r = ground arith

-- A second pass over the arguments removes nothing more.
filter-filter :
    (args : List String)
    → filter_args_for_final_run (filter_args_for_final_run args) ≡ filter_args_for_final_run args
unfolding filter_args_for_final_run
filter-filter [] = refl
filter-filter (arg ∷ []) = elim (Bool-cases (is_required arg)) [
  | inl kept ↦ rw kept (rw kept refl)
  | inr dropped ↦ rw dropped refl
]
filter-filter (arg ∷ (next ∷ rest)) =
    elim (Bool-cases (takes_next arg && not (starts_with next "-"))) [
      | inl pair ↦ elim (Bool-cases (is_required arg)) [
        | inl kept ↦
            rw (pair, kept)
              (filter-pair arg next (filter_args_for_final_run rest) pair kept
                ∙ ap (λ xs. arg ∷ (next ∷ xs)) (filter-filter rest))
        | inr dropped ↦ rw (pair, dropped) (filter-filter rest)
      ]
      | inr single ↦ elim (Bool-cases (is_required arg)) [
        | inl kept ↦
            rw (single, kept)
              (filter-alone arg (filter_args_for_final_run (next ∷ rest))
                  (filter-starts_dash (next ∷ rest)) kept
                ∙ ap (λ xs. arg ∷ xs) (filter-filter (next ∷ rest)))
        | inr dropped ↦ rw (single, dropped) (filter-filter (next ∷ rest))
      ]
    ]
