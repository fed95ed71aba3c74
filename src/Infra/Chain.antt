-- ===== src/Infra/Chain.antt =====
-- The walk along an exception's causes ends, and visits exactly what can be reached.
use healtharchive_backend.Base.{
  ℕ, zero, suc, ◌≤◌, ◌<◌, true, false, ◌≡◌, refl, not, Option, none, some, List, [], ◌∷◌, arith,
  nat_eq, inl, inr, Bool-cases, Option-cases, contains, length, keep, ap,
}
use healtharchive_backend.Infra.{Exception, Heap, find, next_in_chain, iter_exception_chain, chain}

-- The objects that the walk has not seen.
abbrev unseen : List ℕ → Heap → ℕ
unseen seen heap = length (keep (λ (x : Exception). not (contains seen x.id)) heap)

unseen-le : (k : ℕ) (seen : List ℕ) (heap : Heap) → unseen (k ∷ seen) heap ≤ unseen seen heap
unseen-le k seen [] = omega arith
unseen-le k seen (x ∷ heap) = ground (arith, unseen-le k seen heap)

unseen-lt :
    (k : ℕ) (seen : List ℕ) (heap : Heap) (x : Exception)
    → find k heap ≡ some x
    → contains seen k ≡ false
    → unseen (k ∷ seen) heap < unseen seen heap
unfolding find
unseen-lt k seen [] x h n = cc
unseen-lt k seen (y ∷ heap) x h n = ground (arith, unseen-lt k seen heap x, unseen-le k seen heap)

-- How a walk goes, with the identities seen, the next one, and what it yields.
pub data Walk (heap : Heap) : List ℕ → Option ℕ → List Exception → Type 0 where
  ended : {seen : List ℕ} → Walk heap seen none []
  lost : {seen : List ℕ} {k : ℕ} → find k heap ≡ none → Walk heap seen (some k) []
  again :
      {seen : List ℕ} {k : ℕ} (x : Exception)
      → find k heap ≡ some x
      → contains seen k ≡ true
      → Walk heap seen (some k) []
  visit :
      {seen : List ℕ} {k : ℕ} {items : List Exception} (x : Exception)
      → find k heap ≡ some x
      → contains seen k ≡ false
      → Walk heap (k ∷ seen) (next_in_chain x) items
      → Walk heap seen (some k) (x ∷ items)

-- With more fuel than unseen objects the loop ends, and what it yields is a walk.
iter_total :
    (fuel : ℕ) (heap : Heap) (seen : List ℕ) (cur : Option ℕ)
    → unseen seen heap < fuel
    → (items : List Exception) × (iter_exception_chain fuel heap seen cur ≡ some items)
      × Walk heap seen cur items
unfolding iter_exception_chain
iter_total zero heap seen cur h = absurd (omega arith)
iter_total (suc fuel) heap seen none h = ([], refl, ended)
iter_total (suc fuel) heap seen (some k) h = elim (Option-cases (find k heap)) [
  | inl gone ↦ ([], rw (gone, iter_exception_chain), lost gone)
  | inr (x, found) ↦ elim (Bool-cases (contains seen k)) [
    | inl old ↦ ([], rw (found, old, iter_exception_chain), again x found old)
    | inr new ↦
        let (items, e, walk) =
          iter_total fuel heap (k ∷ seen) (next_in_chain x)
            (omega (arith, unseen-lt k seen heap x found new)) in
        (x ∷ items, rw (found, new, e, iter_exception_chain), visit x found new walk)
  ]
]

unseen-nil : (heap : Heap) → unseen [] heap ≡ length heap
unseen-nil [] = refl
unseen-nil (x ∷ heap) = ap suc (unseen-nil heap)

-- The walk from any exception ends, on a cycle too.
pub chain_total :
    (heap : Heap) (k : ℕ)
    → (items : List Exception) × (chain heap k ≡ some items) × Walk heap [] (some k) items
unfolding chain
chain_total heap k =
    iter_total (suc (length heap)) heap [] (some k) (omega (arith, unseen-nil heap))
