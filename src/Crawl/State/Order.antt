-- ===== src/Crawl/State/Order.antt =====
-- The order of the saved temp directories, and that a second save changes nothing.
use healtharchive_backend.Base.{
  ℕ, ◌≤◌, String, Bool, true, ◌≡◌, refl, ◌∙◌, ap, ◌&&◌, not, List, [], ◌∷◌, arith, string_eq,
  eq_iff, contains, nodup, All, all_of, leb, inl, inr, Bool-cases,
}
use healtharchive_backend.Crawl.Env.{Env, IsSettled, accessible, canonical, mtime_of}
use healtharchive_backend.Crawl.State.{
  collect_entries, insert_entry, sort_entries, entry_paths, clean_temp_dirs,
}
use healtharchive_backend.Crawl.State.Save.{nodup-clean_temp_dirs}

-- Each path is followed by none that is older.
abbrev pub OldestFirst : Env → List String → Type 0
OldestFirst e [] = Unit
OldestFirst e (p ∷ ps) = All (λ q. mtime_of e p ≤ mtime_of e q) ps × OldestFirst e ps

-- An entry of a settled file system: an accessible, resolved path with its own time.
abbrev IsEntry : Env → ℕ × String → Type 0
IsEntry e x = (accessible e x.1 ≡ true) × (canonical e x.1 ≡ x.1) × (mtime_of e x.1 ≡ x.0)

abbrev Ordered : List (ℕ × String) → Type 0
Ordered [] = Unit
Ordered (x ∷ xs) = All (λ y. x.0 ≤ y.0) xs × Ordered xs

All-insert :
    (P : ℕ × String → Type 0) (x : ℕ × String) (ys : List (ℕ × String))
    → P x
    → All P ys
    → All P (insert_entry x ys)
unfolding insert_entry
All-insert P x [] px h = (px, tt)
All-insert P x (y ∷ ys) px (py, h) = elim (Bool-cases (leb x.0 y.0)) [
  | inl le ↦ rw le (px, (py, h))
  | inr gt ↦ rw gt (py, All-insert P x ys px h)
]

All-sort : (P : ℕ × String → Type 0) (xs : List (ℕ × String)) → All P xs → All P (sort_entries xs)
unfolding sort_entries
All-sort P [] h = tt
All-sort P (x ∷ xs) (px, h) = All-insert P x (sort_entries xs) px (All-sort P xs h)

All-le_trans :
    (a b : ℕ) (ys : List (ℕ × String)) → a ≤ b → All (λ y. b ≤ y.0) ys → All (λ y. a ≤ y.0) ys
All-le_trans a b [] h k = tt
All-le_trans a b (y ∷ ys) h (k, ks) = (omega arith, All-le_trans a b ys h ks)

Ordered-insert :
    (x : ℕ × String) (ys : List (ℕ × String)) → Ordered ys → Ordered (insert_entry x ys)
unfolding insert_entry
Ordered-insert x [] h = (tt, tt)
Ordered-insert x (y ∷ ys) (hy, h) = elim (Bool-cases (leb x.0 y.0)) [
  | inl le ↦ rw le ((ground arith, All-le_trans x.0 y.0 ys (ground arith) hy), (hy, h))
  | inr gt ↦ rw gt (All-insert (λ z. y.0 ≤ z.0) x ys (ground arith) hy, Ordered-insert x ys h)
]

Ordered-sort : (xs : List (ℕ × String)) → Ordered (sort_entries xs)
unfolding sort_entries
Ordered-sort [] = tt
Ordered-sort (x ∷ xs) = Ordered-insert x (sort_entries xs) (Ordered-sort xs)

sort-eq_self : (xs : List (ℕ × String)) → Ordered xs → sort_entries xs ≡ xs
unfolding sort_entries
sort-eq_self [] h = refl
sort-eq_self (x ∷ []) h = refl
sort-eq_self (x ∷ y ∷ xs) ((le, _), h) =
    rw (sort-eq_self (y ∷ xs) h) (unfold insert_entry in ground arith)

module _ (e : Env) (settled : IsSettled e) where
  All-collect : (seen paths : List String) → All (IsEntry e) (collect_entries e seen paths)
  unfolding collect_entries
  All-collect seen [] = tt
  All-collect seen (p ∷ paths) = ground (
    arith,
    settled.canonical_idem p,
    settled.accessible-canonical p,
    settled.mtime-canonical p,
    All-collect seen paths,
    All-collect (canonical e p ∷ seen) paths,
  )

disjoint : List String → List String → Bool
disjoint seen = all_of (λ p. not (contains seen p))

disjoint-cons :
    (x : String) (seen ps : List String)
    → disjoint (x ∷ seen) ps ≡ (not (contains ps x) && disjoint seen ps)
unfolding disjoint
disjoint-cons x seen [] = refl
disjoint-cons x seen (p ∷ ps) = ground (arith, eq_iff x p, eq_iff p x, disjoint-cons x seen ps)

disjoint-nil : (ps : List String) → disjoint [] ps ≡ true
unfolding disjoint
disjoint-nil [] = refl
disjoint-nil (p ∷ ps) = ground (arith, disjoint-nil ps)

collect-eq_self :
    (e : Env) (seen : List String) (xs : List (ℕ × String))
    → All (IsEntry e) xs
    → nodup (entry_paths xs) ≡ true
    → disjoint seen (entry_paths xs) ≡ true
    → collect_entries e seen (entry_paths xs) ≡ xs
unfolding collect_entries entry_paths disjoint
collect-eq_self e seen [] h n d = refl
collect-eq_self e seen (x ∷ xs) (hx, h) n d =
    ground (arith, collect-eq_self e (x.1 ∷ seen) xs h, disjoint-cons x.1 seen (entry_paths xs))

oldest-entry :
    (e : Env) (x : ℕ × String) (xs : List (ℕ × String))
    → mtime_of e x.1 ≡ x.0
    → All (λ y. x.0 ≤ y.0) xs
    → All (IsEntry e) xs
    → All (λ q. mtime_of e x.1 ≤ mtime_of e q) (entry_paths xs)
unfolding entry_paths
oldest-entry e x [] t h k = tt
oldest-entry e x (y ∷ ys) t (le, h) (hy, k) = (ground arith, oldest-entry e x ys t h k)

OldestFirst-entries :
    (e : Env) (xs : List (ℕ × String))
    → All (IsEntry e) xs
    → Ordered xs
    → OldestFirst e (entry_paths xs)
unfolding entry_paths
OldestFirst-entries e [] h k = tt
OldestFirst-entries e (x ∷ xs) (hx, h) (kx, k) =
    (oldest-entry e x xs hx.2 kx h, OldestFirst-entries e xs h k)

All-accessible :
    (e : Env) (xs : List (ℕ × String))
    → All (IsEntry e) xs
    → all_of (accessible e) (entry_paths xs) ≡ true
unfolding entry_paths
All-accessible e [] h = refl
All-accessible e (x ∷ xs) (hx, h) = ground (arith, All-accessible e xs h)

module _ (e : Env) (settled : IsSettled e) (paths : List String) where
  entries_sorted : All (IsEntry e) (sort_entries (collect_entries e [] paths))
  entries_sorted = All-sort (IsEntry e) _ (All-collect e settled [] paths)

  -- On a settled file system a save leaves the paths in the order of their modification times.
  pub OldestFirst-clean_temp_dirs : OldestFirst e (clean_temp_dirs e paths)
  unfolding clean_temp_dirs
  OldestFirst-clean_temp_dirs =
      OldestFirst-entries e _ entries_sorted (Ordered-sort (collect_entries e [] paths))

  pub accessible-clean_temp_dirs : all_of (accessible e) (clean_temp_dirs e paths) ≡ true
  unfolding clean_temp_dirs
  accessible-clean_temp_dirs = All-accessible e _ entries_sorted

  -- On a settled file system the list that a save leaves is left alone by the next save.
  pub clean_temp_dirs_idem : clean_temp_dirs e (clean_temp_dirs e paths) ≡ clean_temp_dirs e paths
  unfolding clean_temp_dirs entry_paths
  clean_temp_dirs_idem =
      let xs = sort_entries (collect_entries e [] paths) in
      let fresh : nodup (entry_paths xs) ≡ true = nodup-clean_temp_dirs e paths in
      let again : collect_entries e [] (entry_paths xs) ≡ xs =
        collect-eq_self e [] xs entries_sorted fresh (disjoint-nil (entry_paths xs)) in
      ap entry_paths
        (ap sort_entries again ∙ sort-eq_self xs (Ordered-sort (collect_entries e [] paths)))
