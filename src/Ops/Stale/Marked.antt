-- ===== src/Ops/Stale/Marked.antt =====
-- Which rows `ha-backend recover-stale-jobs` changes, of src/ha_backend/cli.py.
use healtharchive_backend.Base.{
  ℕ, zero, suc, true, ◌≡◌, refl, sym, ap, ◌∙◌, ◌⊎◌, Option, none, some, List, [], ◌∷◌, ◌==◌, nat_eq,
  if◌then◌else◌, keep, All, All-imp, All-keep, inl, inr, Bool-cases, Option-cases, arith, not, ◌&&◌,
}
use mathlib.Core.Option.{map as Option_map}
use mathlib.Core.Path.{subst}
use healtharchive_backend.Base.Int.{ℤ}
use healtharchive_backend.Ops.{JobRow, JobTable, get_row, update_row}
use healtharchive_backend.Ops.Stale.{
  StaleArgs, StaleEnv, exits, is_stale, comes_first, insert_row, sort_rows, to_ℕ, first_rows,
  limited, lacks_progress, without_progress, progress_filter, is_unlocked, recovered, mark_with,
  stale_rows, is_positive, is_refused, recover_stale_jobs,
}

-- A row of the table.
abbrev pub RowOf : JobTable → JobRow → Type 0
RowOf [] j = ⊥
RowOf (k ∷ rest) j = (k ≡ j) ⊎ RowOf rest j

pub All-RowOf : (table : JobTable) → All (RowOf table) table
All-RowOf [] = tt
All-RowOf (j ∷ rest) =
    (inl refl, All-imp (RowOf rest) (RowOf (j ∷ rest)) rest (λ x h. inr h) (All-RowOf rest))

module _ (P : JobRow → Type 0) where
  pub All-insert_row :
      (j : JobRow) (rows : List JobRow) → P j → All P rows → All P (insert_row j rows)
  unfolding insert_row
  All-insert_row j [] p h = (p, tt)
  All-insert_row j (k ∷ rest) p (hk, h) = elim (Bool-cases (comes_first j k)) [
    | inl first ↦ rw (first, insert_row) (p, (hk, h))
    | inr later ↦ rw (later, insert_row) (hk, All-insert_row j rest p h)
  ]

  pub All-sort_rows : (rows : List JobRow) → All P rows → All P (sort_rows rows)
  unfolding sort_rows
  All-sort_rows [] h = tt
  All-sort_rows (j ∷ rest) (hj, h) = All-insert_row j (sort_rows rest) hj (All-sort_rows rest h)

  pub All-first_rows : (n : ℕ) (rows : List JobRow) → All P rows → All P (first_rows n rows)
  unfolding first_rows
  All-first_rows n [] h = tt
  All-first_rows zero (j ∷ rest) h = tt
  All-first_rows (suc n) (j ∷ rest) (hj, h) = (hj, All-first_rows n rest h)

  All-limited : (limit : Option ℤ) (rows : List JobRow) → All P rows → All P (limited limit rows)
  unfolding limited
  All-limited none rows h = h
  All-limited (some n) rows h = All-first_rows (to_ℕ n) rows h

  All-without_progress :
      (seconds : ℕ) (e : StaleEnv) (rows : List JobRow) {kept : List JobRow}
      → All P rows
      → without_progress seconds e rows ≡ some kept
      → All P kept
  unfolding without_progress
  All-without_progress seconds e [] {kept} h r =
      let none_kept : [] ≡ kept = ground arith in subst (All P) none_kept tt
  All-without_progress seconds e (j ∷ rest) {kept} (hj, h) r =
      elim (Option-cases (lacks_progress seconds e j)) [
        | inl failed ↦ absurd (ground arith)
        | inr (lacks, known) ↦ elim (Option-cases (without_progress seconds e rest)) [
          | inl failed ↦ absurd (ground arith)
          | inr (others, found) ↦
              let rest_ok = All-without_progress seconds e rest h found in
              let same : (if lacks then j ∷ others else others) ≡ kept = ground arith in
              elim (Bool-cases lacks) [
                | inl kept_too ↦
                    let taken : j ∷ others ≡ kept = ground arith in
                    subst (All P) taken (hj, rest_ok)
                | inr left_out ↦
                    let taken : others ≡ kept = ground arith in subst (All P) taken rest_ok
              ]
        ]
      ]

  All-progress_filter :
      (args : StaleArgs) (e : StaleEnv) (rows : List JobRow) {kept : List JobRow}
      → All P rows
      → progress_filter args e rows ≡ some kept
      → All P kept
  unfolding progress_filter
  All-progress_filter args e rows {kept} h r =
      elim (Option-cases args.require_no_progress_seconds) [
        | inl unset ↦ let same : rows ≡ kept = ground arith in subst (All P) same h
        | inr (seconds, set) ↦ All-without_progress (to_ℕ seconds) e rows h (ground arith)
      ]

-- A row of the table that the query gives, whose lock is free.
abbrev pub Recoverable : StaleArgs → StaleEnv → JobTable → JobRow → Type 0
Recoverable args e table j = RowOf table j × (is_stale args e j ≡ true) × (is_unlocked e j ≡ true)

All-stale_rows :
    (args : StaleArgs) (e : StaleEnv) (table : JobTable) {rows : List JobRow}
    → stale_rows args e table ≡ some rows
    → All (Recoverable args e table) rows
unfolding stale_rows
All-stale_rows args e table {rows} r =
    let Q = λ (j : JobRow). RowOf table j × (is_stale args e j ≡ true) in
    let found = limited args.limit (sort_rows (keep (is_stale args e) table)) in
    let found_ok = All-limited Q args.limit (sort_rows (keep (is_stale args e) table)) (
      All-sort_rows Q (keep (is_stale args e) table)
        (All-keep (RowOf table) (is_stale args e) table (All-RowOf table))) in
    elim (Option-cases (progress_filter args e found)) [
      | inl failed ↦ absurd (ground arith)
      | inr (others, passed) ↦
          let same : keep (is_unlocked e) others ≡ rows = ground arith in
          subst (All (Recoverable args e table)) same (
            All-imp (λ j. Q j × (is_unlocked e j ≡ true)) (Recoverable args e table)
              (keep (is_unlocked e) others) (λ j h. (h.0.0, h.0.1, h.1))
              (All-keep Q (is_unlocked e) others
                (All-progress_filter Q args e found found_ok passed)))
    ]

get_row-update_row :
    (id k : ℕ) (f : JobRow → JobRow) (table : JobTable)
    → ((j : JobRow) → (f j).id ≡ j.id)
    → get_row id (update_row k f table)
      ≡ (if k == id then Option_map f (get_row id table) else get_row id table)
unfolding get_row update_row
get_row-update_row id k f [] keeps = ground arith
get_row-update_row id k f (j ∷ rest) keeps =
    let same = keeps j in let later = get_row-update_row id k f rest keeps in ground arith

module _ (f : JobRow → JobRow) (keeps : (j : JobRow) → (f j).id ≡ j.id)
    (idem : (j : JobRow) → f (f j) ≡ f j) where
  map_twice : (o : Option JobRow) → Option_map f (Option_map f o) ≡ Option_map f o
  map_twice none = refl
  map_twice (some j) = ap some (idem j)

  -- A row is as before, or one with its identity is among the marked rows.
  pub get_row-mark_with :
      (P : JobRow → Type 0) (id : ℕ) (rows : List JobRow) (table : JobTable)
      → All P rows
      → (get_row id (mark_with f rows table) ≡ get_row id table)
        ⊎ ((k : JobRow) × P k
            × (k.id ≡ id)
            × (get_row id (mark_with f rows table) ≡ Option_map f (get_row id table)))
  unfolding mark_with
  get_row-mark_with P id [] table h = inl refl
  get_row-mark_with P id (k ∷ rest) table (hk, h) =
      let here = get_row-update_row id k.id f table keeps in
      elim (Bool-cases (k.id == id)) [
        | inr other ↦
            let here' : get_row id (update_row k.id f table) ≡ get_row id table = ground arith in
            elim (get_row-mark_with P id rest (update_row k.id f table) h) [
              | inl same ↦ inl (same ∙ here')
              | inr (l, hl, same_id, changed) ↦
                  inr (l, hl, same_id, changed ∙ ap (Option_map f) here')
            ]
        | inl this ↦
            let here' : get_row id (update_row k.id f table) ≡ Option_map f (get_row id table) =
              ground arith in
            elim (get_row-mark_with P id rest (update_row k.id f table) h) [
              | inl same ↦ inr (k, hk, ground arith, same ∙ here')
              | inr (l, hl, same_id, changed) ↦ inr (
                l,
                hl,
                same_id,
                changed ∙ (ap (Option_map f) here' ∙ map_twice (get_row id table)),
              )
            ]
      ]

-- Where `recover-stale-jobs` exits, the row of every identity is as before, or `--apply` was given, and a row of
-- the table with this identity is running, was started before the cutoff (or has no such time, where these are
-- included), is of the wanted source, if there is one, and has a free lock; the row is then the former one with
-- the status retryable and the stage recovered_stale_running.
pub recover_stale_jobs-marked :
    (args : StaleArgs) (e : StaleEnv) (table after : JobTable) (id : ℕ) {code : ℤ}
    → recover_stale_jobs args e table ≡ exits code after
    → (get_row id after ≡ get_row id table)
      ⊎ ((args.apply ≡ true)
          × ((k : JobRow) × Recoverable args e table k
              × (k.id ≡ id)
              × (get_row id after ≡ Option_map recovered (get_row id table))))
unfolding recover_stale_jobs
recover_stale_jobs-marked args e table after id r =
    let unchanged = λ (same : table ≡ after). ap (get_row id) (sym same) in
    elim (Bool-cases (
      is_positive args.older_than_minutes
      && (not (is_refused args.require_no_progress_seconds) && not (is_refused args.limit)))) [
        | inr refused ↦ inl (unchanged (ground arith))
        | inl valid ↦ elim (Option-cases (stale_rows args e table)) [
          | inl failed ↦ absurd (ground arith)
          | inr (rows, found) ↦ elim (Bool-cases args.apply) [
            | inr dry ↦ inl (unchanged (ground arith))
            | inl applied ↦
                let marked : mark_with recovered rows table ≡ after = ground arith in
                let row = ap (get_row id) marked in
                elim (get_row-mark_with recovered (λ j. refl) (λ j. refl) (Recoverable args e table)
                  id rows table (All-stale_rows args e table found)) [
                    | inl same ↦ inl (sym row ∙ same)
                    | inr (k, recoverable, same_id, changed) ↦
                        inr (applied, (k, recoverable, same_id, sym row ∙ changed))
                  ]
          ]
        ]
      ]
