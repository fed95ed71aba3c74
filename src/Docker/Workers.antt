-- ===== src/Docker/Workers.antt =====
-- What `build_zimit_args` of src/archive_tool/docker_runner.py makes of the number of workers, and the
-- items that it always adds.
use healtharchive_backend.Base.{
  String, Bool, true, false, ◌≡◌, refl, sym, ap, ◌||◌, not, ◌&&◌, List, [], ◌∷◌, ◌++◌, ◌==◌,
  string_eq, eq_iff, if◌then◌else◌, contains, keep, keep-append, all_of, all_of-keep, ◌∙◌,
  contains-append, arith, inl, inr, Bool-cases,
}
use mathlib.Core.List.{append_assoc, append-nil}
use healtharchive_backend.Base.Int.{ℤ}
use healtharchive_backend.Base.Texts.{starts_with, starts_with_trans, str_ℤ, starts_with-str_ℤ}
use healtharchive_backend.Docker.{
  RequiredArgs, drop_workers, seeds_args, name_args, workers_args, zimit_items, with_keep,
  build_zimit_args, container_output_dir,
}

abbrev is_output : String → Bool
is_output arg = starts_with arg "--output"

abbrev is_workers : String → Bool
is_workers arg = arg == "--workers" || starts_with arg "--workers="

contains-keep :
    (x : String) (p : String → Bool) (ys : List String)
    → p x ≡ true
    → contains (keep p ys) x ≡ contains ys x
contains-keep x p [] h = refl
contains-keep x p (y ∷ ys) h = elim (Bool-cases (y == x)) [
  | inl same ↦ rw ((eq_iff y x).0 same, h, (eq_iff x x).1 refl) refl
  | inr other ↦ ground (arith, contains-keep x p ys)
]

-- Neither "--workers" with its value nor "--workers=…" is left of the passthrough arguments.
pub drop_workers-none :
    (skip : Bool) (args : List String)
    → all_of (λ arg. not (is_workers arg)) (drop_workers skip args) ≡ true
unfolding drop_workers
drop_workers-none skip [] = refl
drop_workers-none true (arg ∷ rest) = drop_workers-none false rest
drop_workers-none false (arg ∷ rest) =
    ground (arith, drop_workers-none false rest, drop_workers-none true rest)

abbrev pub no_output : String → Bool
no_output arg = not (is_output arg)

no_output-str_ℤ : (n : ℤ) → no_output (str_ℤ n) ≡ true
no_output-str_ℤ n = elim (Bool-cases (starts_with (str_ℤ n) "--output")) [
  | inr fine ↦ rw fine refl
  | inl out ↦
      let dashed = starts_with_trans (str_ℤ n) "--output" "--" out refl in
      let undashed = starts_with-str_ℤ n in cc
]

contains-with_keep : (items : List String) → contains (with_keep items) "--keep" ≡ true
unfolding with_keep
contains-with_keep items = ground (arith, contains-append items ("--keep" ∷ []) "--keep")

contains-with_keep_of :
    (items : List String) (x : String)
    → contains items x ≡ true
    → contains (with_keep items) x ≡ true
unfolding with_keep
contains-with_keep_of items x h = ground (arith, contains-append items ("--keep" ∷ []) x)

contains-extra :
    (base : List String) (required : RequiredArgs) (n : ℤ) (final : Bool) (extra : List String)
    (x : String)
    → contains extra x ≡ true
    → contains (zimit_items base required n final extra) x ≡ true
unfolding zimit_items
contains-extra base required n final extra x h =
    let dropped = drop_workers false base in
    let workers = workers_args n final in
    ground (
      arith,
      contains-append (seeds_args required final)
          (name_args required ++ (workers ++ (dropped ++ extra))) x,
      contains-append (name_args required) (workers ++ (dropped ++ extra)) x,
      contains-append workers (dropped ++ extra) x,
      contains-append dropped extra x,
    )

-- The command of zimit ends with the output directory of the container and names no other; it keeps the
-- temporary directories, and it has every extra argument that is no `--output…`.
build_zimit_args-output :
    (base : List String) (required : RequiredArgs) (n : ℤ) (final : Bool) (extra : List String)
    → (init : List String) × (build_zimit_args base required n final extra
        ≡ init ++ ("--output" ∷ container_output_dir ∷ []))
      × (all_of no_output init ≡ true)
      × (contains init "--keep" ≡ true)
      × ((x : String) → contains extra x ≡ true → no_output x ≡ true → contains init x ≡ true)
unfolding build_zimit_args
build_zimit_args-output base required n final extra =
    let items = with_keep (zimit_items base required n final extra) in
    (
      keep no_output items,
      refl,
      all_of-keep no_output items,
      contains-keep "--keep" no_output items refl
          ∙ contains-with_keep (zimit_items base required n final extra),
      λ x h p.
          contains-keep x no_output items p
          ∙ contains-with_keep_of (zimit_items base required n final extra) x
              (contains-extra base required n final extra x h),
    )

abbrev keep_flag : List String → List String
keep_flag items = if contains items "--keep" then [] else "--keep" ∷ []

with_keep_lem : (items : List String) → with_keep items ≡ items ++ keep_flag items
unfolding with_keep
with_keep_lem items = elim (Bool-cases (contains items "--keep")) [
  | inl there ↦ rw there (sym (append-nil items))
  | inr missing ↦ rw missing refl
]

-- The arguments of a stage before the number of workers.
abbrev front : RequiredArgs → List String
front required = "zimit" ∷ (seeds_args required false ++ name_args required)

zimit_items_lem :
    (base : List String) (required : RequiredArgs) (n : ℤ) (extra : List String)
    → zimit_items base required n false extra
      ≡ front required ++ ("--workers" ∷ (str_ℤ n ∷ (drop_workers false base ++ extra)))
unfolding zimit_items workers_args
zimit_items_lem base required n extra = simp append_assoc

keep-number :
    (n : ℤ) (xs : List String) → keep no_output (str_ℤ n ∷ xs) ≡ str_ℤ n ∷ keep no_output xs
keep-number n xs = rw (no_output-str_ℤ n) refl

keep-with_keep :
    (base : List String) (required : RequiredArgs) (n : ℤ) (extra flag : List String)
    → keep no_output (zimit_items base required n false extra ++ flag)
      ≡ keep no_output (front required)
        ++ ("--workers" ∷ (str_ℤ n ∷ keep no_output ((drop_workers false base ++ extra) ++ flag)))
keep-with_keep base required n extra flag =
    let numbered = "--workers" ∷ (str_ℤ n ∷ (drop_workers false base ++ extra)) in
    ap (λ xs. keep no_output (xs ++ flag)) (zimit_items_lem base required n extra)
    ∙ (ap (keep no_output) (append_assoc (front required) numbered flag)
        ∙ (keep-append no_output (front required) (numbered ++ flag)
            ∙ ap (λ xs. keep no_output (front required) ++ ("--workers" ∷ xs))
                (keep-number n ((drop_workers false base ++ extra) ++ flag))))

abbrev pub no_workers : String → Bool
no_workers arg = not (is_workers arg)

all_of-append :
    (p : String → Bool) (xs ys : List String) → all_of p (xs ++ ys) ≡ (all_of p xs && all_of p ys)
all_of-append p [] ys = refl
all_of-append p (x ∷ xs) ys = ground (arith, all_of-append p xs ys)

all_of-keep_other :
    (p q : String → Bool) (xs : List String) → all_of p xs ≡ true → all_of p (keep q xs) ≡ true
all_of-keep_other p q [] h = refl
all_of-keep_other p q (x ∷ xs) h = ground (arith, all_of-keep_other p q xs)

no_workers-keep_flag : (items : List String) → all_of no_workers (keep_flag items) ≡ true
no_workers-keep_flag items = elim (Bool-cases (contains items "--keep")) [
  | inl there ↦ rw there refl
  | inr missing ↦ rw missing refl
]

-- The command of zimit for a stage names the workers once, as `--workers` with the current number: there is no
-- other item `--workers` and none that starts with `--workers=`, whatever the passthrough arguments say of them,
-- if the seeds, the name and the extra arguments have no such item.
pub build_zimit_args-workers :
    (base : List String) (required : RequiredArgs) (n : ℤ) (extra : List String)
    → all_of no_workers (seeds_args required false ++ name_args required) ≡ true
    → all_of no_workers extra ≡ true
    → (before : List String) × (after : List String) × (build_zimit_args base required n false extra
        ≡ before ++ ("--workers" ∷ (str_ℤ n ∷ after)))
      × (all_of no_workers before ≡ true)
      × (all_of no_workers after ≡ true)
unfolding build_zimit_args
build_zimit_args-workers base required n extra first last =
    let dropped = drop_workers false base in
    let items = zimit_items base required n false extra in
    let rest = (dropped ++ extra) ++ keep_flag items in
    let output = "--output" ∷ container_output_dir ∷ [] in
    let rest_fine : all_of no_workers rest ≡ true = ground (
      arith,
      all_of-append no_workers (dropped ++ extra) (keep_flag items),
      all_of-append no_workers dropped extra,
      drop_workers-none false base,
      no_workers-keep_flag items,
    ) in
    (
      keep no_output (front required),
      keep no_output rest ++ output,
      ap (λ xs. keep no_output xs ++ output) (with_keep_lem items)
          ∙ (ap (λ xs. xs ++ output) (keep-with_keep base required n extra (keep_flag items))
              ∙ append_assoc (keep no_output (front required))
                  ("--workers" ∷ (str_ℤ n ∷ keep no_output rest)) output),
      all_of-keep_other no_workers no_output (front required) first,
      all_of-append no_workers (keep no_output rest) output
          ∙ rw (all_of-keep_other no_workers no_output rest rest_fine) refl,
    )
