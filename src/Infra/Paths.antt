-- ===== src/Infra/Paths.antt =====
-- src/ha_backend/infra_errors.py: failures to write into the job's output directory.
use healtharchive_backend.Base.{
  ℕ, ◌≡◌, ◌≢◌, ◌⊎◌, ◌↔◌, refl, ap, ◌∙◌, inl, inr, Option-cases, Bool-cases, String, Bool, true,
  false, ◌&&◌, ◌||◌, Option, none, some, List, [], ◌∷◌, ◌++◌, map, ◌==◌, string_eq, eq_iff, arith,
  if◌then◌else◌, some_of,
}
use healtharchive_backend.Base.Int.{ℤ, pos, int_eq, int_beq_iff}
use healtharchive_backend.Infra.{Exception, Heap, chain}
use healtharchive_backend.Infra.Chain.{chain_total}
use healtharchive_backend.Infra.Reach.{ReachesOne, some_of-chain_iff}

-- A path of `pathlib`: whether it is absolute, and its parts below the root.
pub record FilePath : Type 0 where
  pub absolute : Bool
  pub parts : List String

-- `Path(raw)` and `path.resolve()`, which may raise.
pub record PathLib : Type 0 where
  pub of_text : String → Option FilePath
  pub resolve : FilePath → Option FilePath

same_parts : List String → List String → Bool
same_parts [] [] = true
same_parts (x ∷ xs) (y ∷ ys) = x == y && same_parts xs ys
same_parts _ _ = false

abbrev pub same_kind : Bool → Bool → Bool
same_kind true b = b
same_kind false b = if b then false else true

-- `c == b`
same_path : FilePath → FilePath → Bool
same_path c b = same_kind c.absolute b.absolute && same_parts c.parts b.parts

-- The parts of `path.parents`: the proper prefixes.
parents : List String → List (List String)
parents [] = []
parents (x ∷ xs) = [] ∷ map (λ ps. x ∷ ps) (parents xs)

unfoldable pub resolved : PathLib → FilePath → FilePath
resolved lib p = elim (lib.resolve p) [ none ↦ p | some q ↦ q ]

-- `c == b or b in c.parents`; a parent is absolute if its path is.
pub within_parts : List String → List String → Bool
unfolding parents same_parts
within_parts c b = same_parts c b || some_of (λ p. same_parts p b) (parents c)

unfoldable pub path_is_within : PathLib → FilePath → FilePath → Bool
path_is_within lib candidate base =
    let c = resolved lib candidate in
    let b = resolved lib base in same_kind c.absolute b.absolute && within_parts c.parts b.parts

-- EACCES and EPERM, with a file name (not empty) that is a path within the directory.
unfoldable pub shows_write_error : PathLib → FilePath → Exception → Bool
unfolding path_is_within
shows_write_error lib output_dir x =
    if x.is_os_error
    then elim x.errno [
      | none ↦ false
      | some errno ↦
          if errno == pos 13 || errno == pos 1
          then elim x.filename [
            | none ↦ false
            | some raw ↦ if raw == "" then false else elim (lib.of_text raw) [
              | none ↦ false
              | some path ↦ path_is_within lib path output_dir
            ]
          ]
          else false
    ]
    else false

unfoldable pub is_output_dir_write_infra_error : PathLib → FilePath → Heap → ℕ → Option Bool
is_output_dir_write_infra_error lib output_dir heap k = elim (chain heap k) [
  | none ↦ none
  | some items ↦ some (some_of (shows_write_error lib output_dir) items)
]

some_of-map :
    (x y : String) (bs : List String) (ps : List (List String))
    → some_of (λ p. same_parts p (y ∷ bs)) (map (λ p. x ∷ p) ps)
      ≡ (x == y && some_of (λ p. same_parts p bs) ps)
unfolding same_parts
some_of-map x y bs [] = ground arith
some_of-map x y bs (p ∷ ps) = ground (arith, some_of-map x y bs ps)

within_parts-cons :
    (x y : String) (cs bs : List String)
    → within_parts (x ∷ cs) (y ∷ bs) ≡ (x == y && within_parts cs bs)
unfolding within_parts
within_parts-cons x y cs bs = ground (arith, some_of-map x y bs (parents cs))

within_parts-nil : (cs : List String) → within_parts cs [] ≡ true
unfolding within_parts
within_parts-nil [] = refl
within_parts-nil (c ∷ cs) = refl

nil-within_parts : (y : String) (bs : List String) → within_parts [] (y ∷ bs) ≡ false
unfolding within_parts
nil-within_parts y bs = refl

-- The parts of a path that lies within begin with the parts of the base.
abbrev pub Extends : List String → List String → Type 0
Extends cs bs = (rest : List String) × (bs ++ rest ≡ cs)

Extends-cons :
    (c b : String) (cs bs : List String)
    → (within_parts cs bs ≡ true) ↔ Extends cs bs
    → (within_parts (c ∷ cs) (b ∷ bs) ≡ true) ↔ Extends (c ∷ cs) (b ∷ bs)
Extends-cons c b cs bs ih =
    let step = within_parts-cons c b cs bs in
    (
      λ h. let (rest, e) = ih.0 (ground (arith, step)) in (rest, ground (arith, step, eq_iff c b)),
      λ (rest, e). ground (arith, step, eq_iff c b, ih.1 (rest, cc)),
    )

Extends-within : (cs bs : List String) → (within_parts cs bs ≡ true) ↔ Extends cs bs
Extends-within cs [] = (λ _. (cs, refl), λ _. within_parts-nil cs)
Extends-within [] (b ∷ bs) = (λ h. cc (nil-within_parts b bs), λ (rest, e). cc)
Extends-within (c ∷ cs) (b ∷ bs) = Extends-cons c b cs bs (Extends-within cs bs)

-- A path lies within a directory exactly if, after both are resolved, both are absolute or both are
-- relative and the path's parts are the directory's with some more, or none, behind them.
pub path_is_within_iff :
    (lib : PathLib) (candidate base : FilePath)
    → let c = resolved lib candidate in
      let b = resolved lib base in
      (path_is_within lib candidate base ≡ true)
      ↔ ((c.absolute ≡ b.absolute) × Extends c.parts b.parts)
unfolding path_is_within
path_is_within_iff lib candidate base =
    let c = resolved lib candidate in
    let b = resolved lib base in
    let parts = Extends-within c.parts b.parts in
    (λ h. (ground arith, parts.0 (ground arith)), λ (kind, more). ground (arith, parts.1 more))

-- An `OSError` for a permission (EACCES or EPERM) with a file name that is no empty text and is a path within
-- the directory.
abbrev pub IsWriteError : PathLib → FilePath → Exception → Type 0
IsWriteError lib dir x =
    (x.is_os_error ≡ true)
    × ((x.errno ≡ some (pos 13)) ⊎ (x.errno ≡ some (pos 1)))
    × ((raw : String) × (path : FilePath) × (x.filename ≡ some raw)
        × (raw ≢ "")
        × (lib.of_text raw ≡ some path)
        × ((resolved lib path).absolute ≡ (resolved lib dir).absolute)
        × Extends (resolved lib path).parts (resolved lib dir).parts)

permission_errno :
    (x : Exception) (errno : ℤ)
    → x.errno ≡ some errno
    → (errno == pos 13 || errno == pos 1) ≡ true
    → (x.errno ≡ some (pos 13)) ⊎ (x.errno ≡ some (pos 1))
permission_errno x errno set h = elim (Bool-cases (errno == pos 13)) [
  | inl access ↦ inl (set ∙ ap some ((int_beq_iff errno (pos 13)).0 access))
  | inr other ↦ inr (set ∙ ap some ((int_beq_iff errno (pos 1)).0 (ground arith)))
]

not_empty : (raw : String) → (raw == "") ≡ false → raw ≢ ""
not_empty raw h = λ q. absurd (ground (arith, eq_iff raw ""))

shows-IsWriteError :
    (lib : PathLib) (dir : FilePath) (x : Exception)
    → shows_write_error lib dir x ≡ true
    → IsWriteError lib dir x
unfolding shows_write_error
shows-IsWriteError lib dir x h = elim (Option-cases x.errno) [
  | inl missing ↦ absurd (ground arith)
  | inr (errno, set) ↦ elim (Option-cases x.filename) [
    | inl missing ↦ absurd (ground arith)
    | inr (raw, named) ↦ elim (Option-cases (lib.of_text raw)) [
      | inl raises ↦ absurd (ground arith)
      | inr (path, parsed) ↦
          let within = (path_is_within_iff lib path dir).0 (ground arith) in
          let named_text : (raw == "") ≡ false = ground arith in
          let permission : (errno == pos 13 || errno == pos 1) ≡ true = ground arith in
          (
            ground arith,
            permission_errno x errno set permission,
            (raw, path, named, not_empty raw named_text, parsed, within.0, within.1),
          )
    ]
  ]
]

IsWriteError-shows :
    (lib : PathLib) (dir : FilePath) (x : Exception)
    → IsWriteError lib dir x
    → shows_write_error lib dir x ≡ true
unfolding shows_write_error
IsWriteError-shows lib dir x (os, kind, (raw, path, named, text, parsed, same, more)) =
    let within = (path_is_within_iff lib path dir).1 (same, more) in
    let named_text : (raw == "") ≡ false = elim (Bool-cases (raw == "")) [
      | inl empty ↦ absurd (text ((eq_iff raw "").0 empty))
      | inr full ↦ full
    ] in
    elim kind [
      | inl access ↦ rw (os, access, named, named_text, parsed, shows_write_error) within
      | inr permission ↦ rw (os, permission, named, named_text, parsed, shows_write_error) within
    ]

-- `is_output_dir_write_infra_error` always returns, and returns true exactly if the given exception, or one that
-- can be reached from it, at each step by the cause or, where there is no cause, by the context, is an `OSError`
-- for a permission (EACCES or EPERM) whose file name is no empty text and is a path that lies within the output
-- directory, both resolved.
pub is_output_dir_write_infra_error_iff :
    (lib : PathLib) (output_dir : FilePath) (heap : Heap) (k : ℕ)
    → (answer : Bool) × (is_output_dir_write_infra_error lib output_dir heap k ≡ some answer)
      × ((answer ≡ true) ↔ ReachesOne (IsWriteError lib output_dir) heap k)
unfolding is_output_dir_write_infra_error
is_output_dir_write_infra_error_iff lib output_dir heap k =
    let (items, e, walk) = chain_total heap k in
    (
      some_of (shows_write_error lib output_dir) items,
      rw (e, is_output_dir_write_infra_error),
      some_of-chain_iff (shows_write_error lib output_dir) (IsWriteError lib output_dir)
          (λ x. (shows-IsWriteError lib output_dir x, IsWriteError-shows lib output_dir x)) heap k
          walk,
    )
