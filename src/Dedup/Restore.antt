-- ===== src/Dedup/Restore.antt =====
-- Marking snapshots as duplicates, and restoring them.
use healtharchive_backend.Base.{
  ℕ, suc, ◌+◌, Bool, true, false, ◌≡◌, refl, ap, ◌∙◌, not, none, List, [], ◌∷◌, map, ◌==◌, nat_eq,
  keep, length, all_of, Bool-cases, inl, inr, arith,
}
use healtharchive_backend.Dedup.{
  Snapshot, Archive, DedupCandidate, is_open, mark, apply_candidate, apply_all,
  deduplicate_snapshots, is_restored, restore_row, restore_deduped_snapshots,
}

-- Every candidate is either marked or skipped.
apply_all-counts :
    (cs : List DedupCandidate) (a : Archive)
    → let (b, deduped, skipped) = apply_all cs a in deduped + skipped ≡ length cs
unfolding apply_all
apply_all-counts [] a = refl
apply_all-counts (c ∷ cs) a =
    ground (arith, apply_all-counts cs a, apply_all-counts cs (apply_candidate c a))

abbrev cleared : Snapshot → Snapshot
cleared s = record s { deduplicated = false }

restore_row-cleared : (s : Snapshot) → restore_row none s ≡ cleared s
unfolding restore_row is_restored
restore_row-cleared s = elim (Bool-cases s.deduplicated) [
  | inl marked ↦ ground arith
  | inr open_row ↦ ground arith
]

cleared-mark : (k : ℕ) (t : List Snapshot) → map cleared (mark k t) ≡ map cleared t
unfolding mark
cleared-mark k [] = refl
cleared-mark k (s ∷ t) = elim (Bool-cases (s.id == k)) [
  | inl this ↦ rw (this, mark) refl
  | inr that ↦ rw (that, mark) (ap (λ rows. cleared s ∷ rows) (cleared-mark k t))
]

-- The rows that are marked.
abbrev marked_rows : List Snapshot → List Snapshot
marked_rows t = keep (is_restored none) t

marked-mark :
    (k : ℕ) (t : List Snapshot)
    → is_open k t ≡ true
    → length (marked_rows (mark k t)) ≡ suc (length (marked_rows t))
unfolding mark is_open is_restored
marked-mark k [] h = cc
marked-mark k (s ∷ t) h = ground (arith, marked-mark k t)

marked-apply_all :
    (cs : List DedupCandidate) (a : Archive)
    → let (b, deduped, skipped) = apply_all cs a in
      length (marked_rows b.snapshots) ≡ deduped + length (marked_rows a.snapshots)
unfolding apply_all apply_candidate
marked-apply_all [] a = omega arith
marked-apply_all (c ∷ cs) a = elim (Bool-cases (is_open c.duplicate_id a.snapshots)) [
  | inl is_unmarked ↦ ground (
    arith,
    marked-apply_all cs (apply_candidate c a),
    marked-mark c.duplicate_id a.snapshots is_unmarked,
  )
  | inr is_marked ↦ ground (arith, marked-apply_all cs a)
]

cleared-apply_all :
    (cs : List DedupCandidate) (a : Archive)
    → map cleared (apply_all cs a).0.snapshots ≡ map cleared a.snapshots
unfolding apply_all apply_candidate
cleared-apply_all [] a = refl
cleared-apply_all (c ∷ cs) a = elim (Bool-cases (is_open c.duplicate_id a.snapshots)) [
  | inl is_unmarked ↦
      rw (is_unmarked, apply_all)
        (cleared-apply_all cs (apply_candidate c a) ∙ cleared-mark c.duplicate_id a.snapshots)
  | inr is_marked ↦ rw (is_marked, apply_all) (cleared-apply_all cs a)
]

restored-cleared : (t : List Snapshot) → map (restore_row none) t ≡ map cleared t
restored-cleared [] = refl
restored-cleared (s ∷ t) = cc (restore_row-cleared s, restored-cleared t)

-- No row is marked.
abbrev pub none_marked : List Snapshot → Bool
none_marked t = all_of (λ (s : Snapshot). not s.deduplicated) t

cleared-eq_self : (t : List Snapshot) → none_marked t ≡ true → map cleared t ≡ t
cleared-eq_self [] h = refl
cleared-eq_self (s ∷ t) h = ground (arith, cleared-eq_self t)

marked-none : (t : List Snapshot) → none_marked t ≡ true → length (marked_rows t) ≡ 0
unfolding is_restored
marked-none [] h = refl
marked-none (s ∷ t) h = ground (arith, marked-none t)

-- A deduplication that is applied can be taken back: if no row was marked before it, a restore of all
-- jobs gives the rows as they were and restores as many as were marked. Whatever the candidates are,
-- each was marked or skipped.
pub restore-deduplicate :
    (candidates : List DedupCandidate) (a : Archive)
    → none_marked a.snapshots ≡ true
    → let (result, b) = deduplicate_snapshots candidates false a in
      let (restored, c) = restore_deduped_snapshots none b in
      (c.snapshots ≡ a.snapshots)
      × (restored ≡ result.deduped_count)
      × (result.deduped_count + result.skipped_count ≡ length candidates)
unfolding deduplicate_snapshots restore_deduped_snapshots
restore-deduplicate candidates a clean =
    let b = (apply_all candidates a).0 in
    (
      restored-cleared b.snapshots
          ∙ cleared-apply_all candidates a
          ∙ cleared-eq_self a.snapshots clean,
      omega (arith, marked-apply_all candidates a, marked-none a.snapshots clean),
      apply_all-counts candidates a,
    )
