-- ===== src/Ops/AutoStart/Recount.antt =====
-- The counts of scripts/vps-worker-auto-start.py after a reconciliation, against a new count of the table.
use healtharchive_backend.Base.{
  ℕ, zero, suc, ◌+◌, ◌*◌, Bool, true, false, ◌≡◌, sym, ap, List, [], ◌∷◌, ◌==◌, nat_eq, length,
  keep, All, All-imp, All-keep, inl, inr, Bool-cases, arith,
}
use mathlib.Core.Path.{subst}
use healtharchive_backend.Ops.{JobRow, JobTable, update_row}
use healtharchive_backend.Ops.Stale.{comes_first, insert_row, sort_rows, first_rows, mark_with}
use healtharchive_backend.Ops.Stale.Marked.{RowOf, All-insert_row, All-sort_rows, All-first_rows}

abbrev pub Other : JobRow → JobRow → Type 0
Other j k = (j.id == k.id) ≡ false

-- No two rows have the same identity.
abbrev pub Distinct : List JobRow → Type 0
Distinct [] = Unit
Distinct (j ∷ rest) = All (Other j) rest × Distinct rest

All-at : (P : JobRow → Type 0) (rows : List JobRow) (j : JobRow) → All P rows → RowOf rows j → P j
All-at P [] j h row = elim row [ ]
All-at P (k ∷ rest) j (hk, h) (inl same) = subst P same hk
All-at P (k ∷ rest) j (hk, h) (inr later) = All-at P rest j h later

All-and :
    (P Q : JobRow → Type 0) (rows : List JobRow)
    → All P rows
    → All Q rows
    → All (λ j. P j × Q j) rows
All-and P Q [] h k = tt
All-and P Q (j ∷ rest) (hj, h) (kj, k) = ((hj, kj), All-and P Q rest h k)

Other-sym : (j k : JobRow) → Other j k → Other k j
Other-sym j k differ = ground arith

pub Distinct-keep :
    (p : JobRow → Bool) (rows : List JobRow) → Distinct rows → Distinct (keep p rows)
Distinct-keep p [] d = tt
Distinct-keep p (j ∷ rest) (hj, d) = elim (Bool-cases (p j)) [
  | inl passes ↦ rw passes (
    All-imp (λ k. Other j k × (p k ≡ true)) (Other j) (keep p rest) (λ k h. h.0)
        (All-keep (Other j) p rest hj),
    Distinct-keep p rest d,
  )
  | inr fails ↦ rw fails (Distinct-keep p rest d)
]

Distinct-insert_row :
    (j : JobRow) (rows : List JobRow)
    → All (Other j) rows
    → Distinct rows
    → Distinct (insert_row j rows)
unfolding insert_row
Distinct-insert_row j [] h d = (tt, tt)
Distinct-insert_row j (k ∷ rest) (hk, h) (dk, d) = elim (Bool-cases (comes_first j k)) [
  | inl first ↦ rw (first, insert_row) ((hk, h), (dk, d))
  | inr later ↦
      rw (later, insert_row)
        (All-insert_row (Other k) j rest (Other-sym j k hk) dk, Distinct-insert_row j rest h d)
]

pub Distinct-sort_rows : (rows : List JobRow) → Distinct rows → Distinct (sort_rows rows)
unfolding sort_rows
Distinct-sort_rows [] d = tt
Distinct-sort_rows (j ∷ rest) (hj, d) =
    Distinct-insert_row j (sort_rows rest) (All-sort_rows (Other j) rest hj)
      (Distinct-sort_rows rest d)

pub Distinct-first_rows :
    (n : ℕ) (rows : List JobRow) → Distinct rows → Distinct (first_rows n rows)
unfolding first_rows
Distinct-first_rows n [] d = tt
Distinct-first_rows zero (j ∷ rest) d = tt
Distinct-first_rows (suc n) (j ∷ rest) (hj, d) =
    (All-first_rows (Other j) n rest hj, Distinct-first_rows n rest d)

-- The sum of a number of every row.
abbrev pub total : (JobRow → ℕ) → List JobRow → ℕ
total c [] = 0
total c (j ∷ rest) = c j + total c rest

module _ (f : JobRow → JobRow) (keeps : (j : JobRow) → (f j).id ≡ j.id) where
  All-update_row :
      (i : JobRow) (k : ℕ) (table : JobTable)
      → All (Other i) table
      → All (Other i) (update_row k f table)
  unfolding update_row
  All-update_row i k [] h = tt
  All-update_row i k (j ∷ rest) (hj, h) = elim (Bool-cases (j.id == k)) [
    | inl here ↦
        rw (here, update_row) (subst (λ (n : ℕ). (i.id == n) ≡ false) (sym (keeps j)) hj, h)
    | inr later ↦ rw (later, update_row) (hj, All-update_row i k rest h)
  ]

  Distinct-update_row :
      (k : ℕ) (table : JobTable) → Distinct table → Distinct (update_row k f table)
  unfolding update_row
  Distinct-update_row k [] d = tt
  Distinct-update_row k (j ∷ rest) (hj, d) = elim (Bool-cases (j.id == k)) [
    | inl here ↦
        rw (here, update_row)
          (
            All-imp (Other j) (Other (f j)) rest
                (λ i h. subst (λ (n : ℕ). (n == i.id) ≡ false) (sym (keeps j)) h) hj,
            d,
          )
    | inr later ↦ rw (later, update_row) (All-update_row j k rest hj, Distinct-update_row k rest d)
  ]

  RowOf-update_row :
      (i j : JobRow) (table : JobTable)
      → Other i j
      → RowOf table j
      → RowOf (update_row i.id f table) j
  unfolding update_row
  RowOf-update_row i j [] differ row = elim row [ ]
  RowOf-update_row i j (k ∷ rest) differ (inl same) =
      let other : (k.id == i.id) ≡ false =
        subst (λ (n : ℕ). (n == i.id) ≡ false) (ap JobRow.id (sym same)) (Other-sym i j differ) in
      rw (other, update_row) (inl same)
  RowOf-update_row i j (k ∷ rest) differ (inr later) = elim (Bool-cases (k.id == i.id)) [
    | inl here ↦ rw (here, update_row) (inr later)
    | inr other ↦ rw (other, update_row) (inr (RowOf-update_row i j rest differ later))
  ]

  module _ (c : JobRow → ℕ) (a b : ℕ) where
    total-update_row :
        (table : JobTable) (j : JobRow)
        → Distinct table
        → RowOf table j
        → c (f j) + a ≡ c j + b
        → total c (update_row j.id f table) + a ≡ total c table + b
    unfolding update_row
    total-update_row [] j d row change = elim row [ ]
    total-update_row (k ∷ rest) j (hk, d) (inl same) change =
        let here : (k.id == k.id) ≡ true = ground arith in
        let change' = subst (λ (i : JobRow). c (f i) + a ≡ c i + b) (sym same) change in
        let at_k : total c (update_row k.id f (k ∷ rest)) + a ≡ total c (k ∷ rest) + b =
          rw (here, update_row) (omega (arith, change')) in
        subst (λ (i : JobRow). total c (update_row i.id f (k ∷ rest)) + a ≡ total c (k ∷ rest) + b)
          same at_k
    total-update_row (k ∷ rest) j (hk, d) (inr later) change =
        let other = All-at (Other k) rest j hk later in
        let below = total-update_row rest j d later change in
        rw (other, update_row) (omega (arith, below))

    pub total-mark_with :
        (rows : List JobRow) (table : JobTable)
        → Distinct rows
        → Distinct table
        → All (λ j. RowOf table j × (c (f j) + a ≡ c j + b)) rows
        → total c (mark_with f rows table) + length rows * a ≡ total c table + length rows * b
    unfolding mark_with
    total-mark_with [] table dr d h = omega arith
    total-mark_with (j ∷ rest) table (hj, dr) d ((row, change), h) =
        let here = total-update_row table j d row change in
        let later =
          All-imp (λ k. (RowOf table k × (c (f k) + a ≡ c k + b)) × Other j k)
            (λ k. RowOf (update_row j.id f table) k × (c (f k) + a ≡ c k + b)) rest
            (λ k p. (RowOf-update_row j k table p.1 p.0.0, p.0.1))
            (All-and (λ k. RowOf table k × (c (f k) + a ≡ c k + b)) (Other j) rest h hj) in
        let there =
          total-mark_with rest (update_row j.id f table) dr (Distinct-update_row j.id table d)
            later in
        omega (arith, here, there)
