-- ===== src/Dedup/Found.antt =====
-- What the search for duplicates finds.
use healtharchive_backend.Base.{
  ℕ, ◌≡◌, ◌≢◌, refl, ◌⊎◌, inl, inr, true, false, Option, List, [], ◌∷◌, ◌++◌, map, nat_eq,
  string_eq, eq_iff, ltb, keep, length, some_of, All, All-imp, All-keep, Bool-cases, arith,
}
use healtharchive_backend.Dedup.{
  Snapshot, Archive, DedupCandidate, group_key, hash_of, same_group, in_base, min_id, canonical_of,
  representatives, is_duplicate, candidate_of, group_candidates, all_candidates,
  find_same_day_duplicates,
}

-- A row of the table.
abbrev pub Among : Snapshot → List Snapshot → Type 0
Among s [] = ⊥
Among s (t ∷ rest) = (t ≡ s) ⊎ Among s rest

All-Among : (t : List Snapshot) → All (λ s. Among s t) t
All-Among [] = tt
All-Among (s ∷ t) =
    (inl refl, All-imp (λ x. Among x t) (λ x. Among x (s ∷ t)) t (λ x h. inr h) (All-Among t))

All-representatives :
    (P : Snapshot → Type 0) (seen t : List Snapshot) → All P t → All P (representatives seen t)
unfolding representatives
All-representatives P seen [] h = tt
All-representatives P seen (s ∷ t) (hs, h) = elim (Bool-cases (some_of (same_group s) seen)) [
  | inl old ↦ rw (old, representatives) (All-representatives P (s ∷ seen) t h)
  | inr new ↦ rw (new, representatives) (hs, All-representatives P (s ∷ seen) t h)
]

-- The smallest identity is that of one of the rows.
min_id-row :
    (P : Snapshot → Type 0) (k : Snapshot) (t : List Snapshot)
    → P k
    → All P t
    → (r : Snapshot) × P r × (r.id ≡ min_id k.id t)
unfolding min_id
min_id-row P k [] hk h = (k, hk, refl)
min_id-row P k (s ∷ t) hk (hs, h) = elim (Bool-cases (ltb s.id k.id)) [
  | inl less ↦ rw less (min_id-row P s t hs h)
  | inr more ↦ rw more (min_id-row P k t hk h)
]

same_group_refl : (s : Snapshot) → same_group s s ≡ true
unfolding same_group
same_group_refl s =
    ground (
      arith,
      eq_iff (group_key s) (group_key s),
      eq_iff s.day s.day,
      eq_iff (hash_of s) (hash_of s),
    )

-- `a` and `b` are in the group of `r`.
same_group_trans :
    (r a b : Snapshot) → same_group r a ≡ true → same_group r b ≡ true → same_group a b ≡ true
unfolding same_group
same_group_trans r a b h k = ground (
  arith,
  eq_iff (group_key r) (group_key a),
  eq_iff (group_key r) (group_key b),
  eq_iff (group_key a) (group_key b),
  eq_iff r.day a.day,
  eq_iff r.day b.day,
  eq_iff a.day b.day,
  eq_iff (hash_of r) (hash_of a),
  eq_iff (hash_of r) (hash_of b),
  eq_iff (hash_of a) (hash_of b),
)

-- A row that is not marked, and another of its group that the search was asked for.
abbrev pub IsDuplicateOf : Option ℕ → Option ℕ → List Snapshot → DedupCandidate → Type 0
IsDuplicateOf job_id source_id table c =
    (s : Snapshot) × (k : Snapshot) × Among s table
    × Among k table
    × (s.id ≡ c.duplicate_id)
    × (k.id ≡ c.canonical_id)
    × (s.id ≢ k.id)
    × (same_group k s ≡ true)
    × (s.deduplicated ≡ false)
    × (in_base job_id source_id k ≡ true)

module _ (Q : DedupCandidate → Type 0) where
  All-append : (xs ys : List DedupCandidate) → All Q xs → All Q ys → All Q (xs ++ ys)
  All-append [] ys h k = k
  All-append (x ∷ xs) ys (hx, h) k = (hx, All-append xs ys h k)

  All-map :
      (P : Snapshot → Type 0) (f : Snapshot → DedupCandidate) (t : List Snapshot)
      → ((s : Snapshot) → P s → Q (f s))
      → All P t
      → All Q (map f t)
  All-map P f [] g h = tt
  All-map P f (s ∷ t) g (hs, h) = (g s hs, All-map P f t g h)

module _ (job_id source_id : Option ℕ) (table : List Snapshot) where
  -- A row of the base query.
  abbrev InBase : Snapshot → Type 0
  InBase s = Among s table × (in_base job_id source_id s ≡ true)

  abbrev base_rows : List Snapshot
  base_rows = keep (in_base job_id source_id) table

  All-base : All InBase base_rows
  All-base = All-keep (λ s. Among s table) (in_base job_id source_id) table (All-Among table)

  duplicate_found :
      (r k s : Snapshot) (canonical : ℕ)
      → InBase k
      → same_group r k ≡ true
      → k.id ≡ canonical
      → Among s table
      → is_duplicate canonical r s ≡ true
      → IsDuplicateOf job_id source_id table (candidate_of canonical s)
  unfolding is_duplicate candidate_of
  duplicate_found r k s canonical (row, based) same e among dup = (
    s,
    k,
    among,
    row,
    refl,
    e,
    ground arith,
    same_group_trans r k s same (ground arith),
    ground arith,
    based,
  )

  group-IsDuplicateOf :
      (r : Snapshot)
      → InBase r
      → All (IsDuplicateOf job_id source_id table) (group_candidates table base_rows r)
  unfolding group_candidates canonical_of
  group-IsDuplicateOf r h =
      let (k, (based, same), e) =
        min_id-row (λ s. InBase s × (same_group r s ≡ true)) r (keep (same_group r) base_rows)
          (h, same_group_refl r) (All-keep InBase (same_group r) base_rows All-base) in
      let c = canonical_of base_rows r in
      elim (Bool-cases (ltb 1 (length (keep (same_group r) base_rows)))) [
        | inr alone ↦ rw (alone, group_candidates) tt
        | inl several ↦
            rw (several, group_candidates)
              (All-map (IsDuplicateOf job_id source_id table)
                (λ s. Among s table × (is_duplicate c r s ≡ true)) (candidate_of c)
                (keep (is_duplicate c r) table)
                (λ s p. duplicate_found r k s c based same e p.0 p.1)
                (All-keep (λ s. Among s table) (is_duplicate c r) table (All-Among table)))
      ]

  All-IsDuplicateOf :
      (reps : List Snapshot)
      → All InBase reps
      → All (IsDuplicateOf job_id source_id table) (all_candidates table base_rows reps)
  unfolding all_candidates
  All-IsDuplicateOf [] h = tt
  All-IsDuplicateOf (r ∷ reps) (hr, h) =
      All-append (IsDuplicateOf job_id source_id table) (group_candidates table base_rows r) _
        (group-IsDuplicateOf r hr) (All-IsDuplicateOf reps h)

-- Each candidate names a row that is not marked and another row, with the same source, page, day and
-- content, that meets the filters.
pub find-IsDuplicateOf :
    (job_id source_id : Option ℕ) (a : Archive)
    → All (IsDuplicateOf job_id source_id a.snapshots) (find_same_day_duplicates job_id source_id a)
unfolding find_same_day_duplicates
find-IsDuplicateOf job_id source_id a = All-IsDuplicateOf job_id source_id a.snapshots _ (
    All-representatives (InBase job_id source_id a.snapshots) [] _
      (All-base job_id source_id a.snapshots))
