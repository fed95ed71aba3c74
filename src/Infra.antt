-- ===== src/Infra.antt =====
-- src/ha_backend/infra_errors.py: does an exception, or one that it was raised from, show a failure of
-- the storage. Exceptions are objects on a heap that name one another, so a chain may be a cycle.
pub mod Chain
pub mod Reach
pub mod Paths
mod Tests
use healtharchive_backend.Base.{
  ℕ, zero, suc, ◌+◌, String, Bool, true, false, ◌&&◌, Option, none, some, List, [], ◌∷◌, ◌==◌,
  nat_eq, if◌then◌else◌, contains, some_of, length,
}
use healtharchive_backend.Base.Int.{ℤ, pos, int_eq}

pub record Exception : Type 0 where
  pub id : ℕ
  pub is_os_error : Bool
  pub errno : Option ℤ
  pub filename : Option String
  pub cause : Option ℕ
  pub context : Option ℕ

abbrev pub Heap : Type 0
Heap = List Exception

unfoldable pub find : ℕ → Heap → Option Exception
find k [] = none
find k (x ∷ rest) = if x.id == k then some x else find k rest

-- `cur.__cause__ or cur.__context__`
unfoldable pub next_in_chain : Exception → Option ℕ
next_in_chain x = elim x.cause [ some k ↦ some k | none ↦ x.context ]

-- `iter_exception_chain`, with the identities seen so far; `none` is out of fuel.
unfoldable pub iter_exception_chain : ℕ → Heap → List ℕ → Option ℕ → Option (List Exception)
iter_exception_chain zero heap seen cur = none
iter_exception_chain (suc fuel) heap seen none = some []
iter_exception_chain (suc fuel) heap seen (some k) = elim (find k heap) [
  | none ↦ some []
  | some x ↦ elim (contains seen k) [
    | true ↦ some []
    | false ↦ elim (iter_exception_chain fuel heap (k ∷ seen) (next_in_chain x)) [
      | none ↦ none
      | some rest ↦ some (x ∷ rest)
    ]
  ]
]

-- One round for each object, and one for the end.
unfoldable pub chain : Heap → ℕ → Option (List Exception)
unfolding iter_exception_chain
chain heap k = iter_exception_chain (suc (length heap)) heap [] (some k)

-- ENOTCONN, EIO, ETIMEDOUT, ENETUNREACH, ECONNREFUSED, EHOSTUNREACH, ENOSPC, ESTALE, as on Linux.
abbrev pub storage_infra_errnos : List ℤ
storage_infra_errnos =
    pos 107 ∷ pos 5 ∷ pos 110 ∷ pos 101 ∷ pos 111 ∷ pos 113 ∷ pos 28 ∷ pos 116 ∷ []

unfoldable pub is_storage_infra_errno : Option ℤ → Bool
is_storage_infra_errno none = false
is_storage_infra_errno (some errno) = contains storage_infra_errnos errno

-- The test of one item of the chain.
unfoldable pub shows_infra_error : Exception → Bool
unfolding is_storage_infra_errno
shows_infra_error x = x.is_os_error && is_storage_infra_errno x.errno

unfoldable pub is_storage_infra_error : Heap → ℕ → Option Bool
is_storage_infra_error heap k = elim (chain heap k) [
  | none ↦ none
  | some items ↦ some (some_of shows_infra_error items)
]
