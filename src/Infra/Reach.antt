-- ===== src/Infra/Reach.antt =====
-- `is_storage_infra_error` against a description of the chain that does not walk it.
use healtharchive_backend.Base.{
  ℕ, Bool, true, ◌≡◌, ◌↔◌, refl, ◌||◌, ◌⊎◌, Option, none, Option-cases, some, List, [], ◌∷◌, arith,
  ◌==◌, nat_eq, inl, inr, Bool-cases, contains, some_of, All, ap, ◌∙◌,
}
use healtharchive_backend.Base.Int.{ℤ, int_eq}
use healtharchive_backend.Infra.{
  Exception, Heap, find, next_in_chain, storage_infra_errnos, is_storage_infra_errno,
  shows_infra_error, is_storage_infra_error,
}
use healtharchive_backend.Infra.Chain.{Walk, ended, lost, again, visit, chain_total}

-- `x` is the exception `k`, the cause of such an exception, or the context of one without a cause.
pub data Reaches (heap : Heap) (k : ℕ) : Exception → Type 0 where
  itself : {x : Exception} → find k heap ≡ some x → Reaches heap k x
  caused_by :
      {x y : Exception} (j : ℕ)
      → Reaches heap k x
      → x.cause ≡ some j
      → find j heap ≡ some y
      → Reaches heap k y
  in_context :
      {x y : Exception} (j : ℕ)
      → Reaches heap k x
      → x.cause ≡ none
      → x.context ≡ some j
      → find j heap ≡ some y
      → Reaches heap k y

-- The chain goes on to the cause, or to the context where there is no cause.
next-cases :
    (x : Exception) (j : ℕ)
    → next_in_chain x ≡ some j
    → (x.cause ≡ some j) ⊎ ((x.cause ≡ none) × (x.context ≡ some j))
unfolding next_in_chain
next-cases x j e = elim (Option-cases x.cause) [
  | inl missing ↦ inr (missing, ground arith)
  | inr (i, set) ↦ inl (ground arith)
]

next-cause : (x : Exception) (j : ℕ) → x.cause ≡ some j → next_in_chain x ≡ some j
unfolding next_in_chain
next-cause x j h = rw (h, next_in_chain) refl

next-context :
    (x : Exception) (j : ℕ) → x.cause ≡ none → x.context ≡ some j → next_in_chain x ≡ some j
unfolding next_in_chain
next-context x j h c = rw (h, next_in_chain) c

raised_from :
    {heap : Heap} {k : ℕ} {x y : Exception} (j : ℕ)
    → Reaches heap k x
    → next_in_chain x ≡ some j
    → find j heap ≡ some y
    → Reaches heap k y
raised_from {x = x} j r e f = elim (next-cases x j e) [
  | inl cause ↦ caused_by j r cause f
  | inr (missing, context) ↦ in_context j r missing context f
]

id-find : (k : ℕ) (heap : Heap) (x : Exception) → find k heap ≡ some x → x.id ≡ k
unfolding find
id-find k [] x h = cc
id-find k (y ∷ heap) x h = ground (arith, id-find k heap x)

find_self : (k : ℕ) (heap : Heap) (x : Exception) → find k heap ≡ some x → find x.id heap ≡ some x
find_self k heap x h = ap (λ i. find i heap) (id-find k heap x h) ∙ h

Reaches-find : (heap : Heap) (k : ℕ) (x : Exception) → Reaches heap k x → find x.id heap ≡ some x
Reaches-find heap k x (itself found) = find_self k heap x found
Reaches-find heap k x (caused_by j r e found) = find_self j heap x found
Reaches-find heap k x (in_context j r m e found) = find_self j heap x found

-- The exceptions yielded are the heap's, under their own identities.
abbrev Owned : Heap → List Exception → Type 0
Owned heap = All (λ y. find y.id heap ≡ some y)

Walk-Owned :
    {heap : Heap} {seen : List ℕ} {cur : Option ℕ} {items : List Exception}
    → Walk heap seen cur items
    → Owned heap items
Walk-Owned ended = tt
Walk-Owned (lost gone) = tt
Walk-Owned (again x found old) = tt
Walk-Owned {heap} (visit {k = k} x found new walk) = (find_self k heap x found, Walk-Owned walk)

-- What a walk yields can be reached, if where it starts can.
Walk-Reaches :
    {heap : Heap} {seen : List ℕ} {cur : Option ℕ} {items : List Exception} (root : ℕ)
    → Walk heap seen cur items
    → ((j : ℕ) (y : Exception) → cur ≡ some j → find j heap ≡ some y → Reaches heap root y)
    → All (Reaches heap root) items
Walk-Reaches root ended start = tt
Walk-Reaches root (lost gone) start = tt
Walk-Reaches root (again x found old) start = tt
Walk-Reaches root (visit {k = k} x found new walk) start =
    let here = start k x refl found in
    (here, Walk-Reaches root walk (λ j y e f. raised_from j here e f))

abbrev visited : List Exception → ℕ → Bool
visited items k = some_of (λ (y : Exception). y.id == k) items

-- Where the chain goes on from a yielded exception, it was yielded too, or it was seen before.
Covered : List ℕ → List Exception → ℕ → Type 0
Covered seen items j = (visited items j || contains seen j) ≡ true

-- The first identity of a walk is covered by it.
Walk-first :
    {heap : Heap} {seen : List ℕ} {cur : Option ℕ} {items : List Exception} (j : ℕ) (z : Exception)
    → Walk heap seen cur items
    → cur ≡ some j
    → find j heap ≡ some z
    → Covered seen items j
unfolding Covered
Walk-first j z ended e f = cc
Walk-first j z (lost gone) e f = ground arith
Walk-first j z (again x found old) e f = ground arith
Walk-first {heap} j z (visit {k = k} x found new walk) e f = ground (arith, id-find k heap x found)

Covered-cons :
    (x : Exception) (k : ℕ) (seen : List ℕ) (items : List Exception) (j : ℕ)
    → x.id ≡ k
    → Covered (k ∷ seen) items j
    → Covered seen (x ∷ items) j
unfolding Covered
Covered-cons x k seen items j e h = ground arith

Walk-Closed :
    {heap : Heap} {seen : List ℕ} {cur : Option ℕ} {items : List Exception} (i j : ℕ)
    (y z : Exception)
    → Walk heap seen cur items
    → visited items i ≡ true
    → find i heap ≡ some y
    → next_in_chain y ≡ some j
    → find j heap ≡ some z
    → Covered seen items j
Walk-Closed i j y z ended h f n g = cc
Walk-Closed i j y z (lost gone) h f n g = cc
Walk-Closed i j y z (again x found old) h f n g = cc
Walk-Closed {heap} {seen} i j y z (visit {k = k} {items = items} x found new walk) h f n g =
    Covered-cons x k seen items j (id-find k heap x found) (elim (Bool-cases (x.id == i)) [
      | inl here ↦ Walk-first j z walk (ground (arith, id-find k heap x found)) g
      | inr later ↦ Walk-Closed i j y z walk (ground arith) f n g
    ])

module _ {heap : Heap} {k : ℕ} {items : List Exception} (walk : Walk heap [] (some k) items) where
  -- Every exception that can be reached is yielded.
  reached-visited : (x : Exception) → Reaches heap k x → visited items x.id ≡ true
  unfolding Covered
  reached-visited x (itself found) =
      ground (arith, id-find k heap x found, Walk-first k x walk refl found)
  reached-visited y (caused_by {x = x} j r e f) = ground (
    arith,
    id-find j heap y f,
    Walk-Closed x.id j x y walk (reached-visited x r) (Reaches-find heap k x r) (next-cause x j e)
        f,
  )
  reached-visited y (in_context {x = x} j r m e f) = ground (
    arith,
    id-find j heap y f,
    Walk-Closed x.id j x y walk (reached-visited x r) (Reaches-find heap k x r)
        (next-context x j m e) f,
  )

-- Some exception that can be reached is of this kind.
abbrev pub ReachesOne : (Exception → Type 0) → Heap → ℕ → Type 0
ReachesOne P heap k = (x : Exception) × Reaches heap k x × P x

-- A test of the items of the chain, as in both functions of this file.
module _ (shows : Exception → Bool) where
  visited-some_of :
      (heap : Heap) (items : List Exception) (x : Exception)
      → Owned heap items
      → visited items x.id ≡ true
      → find x.id heap ≡ some x
      → shows x ≡ true
      → some_of shows items ≡ true
  visited-some_of heap [] x o v f h = cc
  visited-some_of heap (y ∷ items) x (oy, o) v f h = ground (arith, visited-some_of heap items x o)

  some_of-item :
      (P : Exception → Type 0) (items : List Exception)
      → All P items
      → some_of shows items ≡ true
      → (x : Exception) × P x × (shows x ≡ true)
  some_of-item P [] p h = cc
  some_of-item P (y ∷ items) (py, p) h = elim (Bool-cases (shows y)) [
    | inl shown ↦ (y, py, shown)
    | inr hidden ↦ some_of-item P items p (ground arith)
  ]

  start_reached :
      (heap : Heap) (k j : ℕ) (y : Exception)
      → ◌≡◌ {A = Option ℕ} (some k) (some j)
      → find j heap ≡ some y
      → Reaches heap k y
  start_reached heap k j y p q = itself (cc)

  pub some_of-chain_iff :
      (P : Exception → Type 0)
      → ((x : Exception) → (shows x ≡ true) ↔ P x)
      → (heap : Heap) (k : ℕ) {items : List Exception} → Walk heap [] (some k) items
      → (some_of shows items ≡ true) ↔ ReachesOne P heap k
  some_of-chain_iff P shows_iff heap k walk = (
    λ h.
        let (x, r, shown) =
          some_of-item (Reaches heap k) _ (Walk-Reaches k walk (start_reached heap k)) h in
        (x, r, (shows_iff x).0 shown),
    λ (x, r, h).
        visited-some_of heap _ x (Walk-Owned walk) (reached-visited walk x r)
          (Reaches-find heap k x r) ((shows_iff x).1 h),
  )

-- An `OSError` with one of the storage's values of `errno`.
abbrev pub IsInfraError : Exception → Type 0
IsInfraError x =
    (x.is_os_error ≡ true)
    × ((errno : ℤ) × (x.errno ≡ some errno) × (contains storage_infra_errnos errno ≡ true))

shows_infra_error_iff : (x : Exception) → (shows_infra_error x ≡ true) ↔ IsInfraError x
unfolding shows_infra_error is_storage_infra_errno
shows_infra_error_iff x = elim (Option-cases x.errno) [
  | inl missing ↦
      ((λ h. absurd (ground arith)), (λ (os, (errno, set, listed)). absurd (ground arith)))
  | inr (errno, set) ↦
      ((λ h. (ground arith, (errno, set, ground arith))), (λ (os, (n, same, listed)). ground arith))
]

-- `is_storage_infra_error` always returns, and returns true exactly if an `OSError` with one of the errnos of
-- `storage_infra_errnos` is the given exception or can be reached from it, at each step by the cause or, where
-- there is no cause, by the context.
pub is_storage_infra_error_iff :
    (heap : Heap) (k : ℕ)
    → (answer : Bool) × (is_storage_infra_error heap k ≡ some answer)
      × ((answer ≡ true) ↔ ReachesOne IsInfraError heap k)
unfolding is_storage_infra_error
is_storage_infra_error_iff heap k =
    let (items, e, walk) = chain_total heap k in
    (
      some_of shows_infra_error items,
      rw (e, is_storage_infra_error),
      some_of-chain_iff shows_infra_error IsInfraError shows_infra_error_iff heap k walk,
    )
