-- ===== src/Crawl/State/Save.antt =====
-- What `save_persistent_state` does with the list of temp directories (src/archive_tool/state.py).
use healtharchive_backend.Base.{
  ℕ, String, Bool, true, ◌≡◌, refl, ◌∙◌, ◌||◌, ◌&&◌, not, List, [], ◌∷◌, arith, ◌==◌, string_eq,
  eq_iff, contains, some_of, nodup,
}
use healtharchive_backend.Crawl.Env.{Env, accessible, canonical}
use healtharchive_backend.Crawl.State.{
  collect_entries, insert_entry, sort_entries, entry_paths, clean_temp_dirs,
}

-- Some path of the list is accessible and resolves to `c`.
abbrev pub resolves_to : Env → List String → String → Bool
resolves_to e paths c = some_of (λ p. accessible e p && canonical e p == c) paths

contains-collect :
    (e : Env) (seen paths : List String) (c : String)
    → contains (entry_paths (collect_entries e seen paths)) c
      ≡ (not (contains seen c) && resolves_to e paths c)
unfolding collect_entries entry_paths
contains-collect e seen [] c = ground arith
contains-collect e seen (p ∷ paths) c = ground (
  arith,
  eq_iff (canonical e p) c,
  contains-collect e seen paths c,
  contains-collect e (canonical e p ∷ seen) paths c,
)

nodup-collect :
    (e : Env) (seen paths : List String) → nodup (entry_paths (collect_entries e seen paths)) ≡ true
unfolding collect_entries entry_paths
nodup-collect e seen [] = refl
nodup-collect e seen (p ∷ paths) =
    let c = canonical e p in
    ground (
      arith,
      eq_iff c c,
      nodup-collect e seen paths,
      nodup-collect e (c ∷ seen) paths,
      contains-collect e (c ∷ seen) paths c,
    )

contains-insert :
    (x : ℕ × String) (ys : List (ℕ × String)) (c : String)
    → contains (entry_paths (insert_entry x ys)) c ≡ (x.1 == c || contains (entry_paths ys) c)
unfolding insert_entry entry_paths
contains-insert x [] c = refl
contains-insert x (y ∷ ys) c = ground (arith, contains-insert x ys c)

contains-sort :
    (xs : List (ℕ × String)) (c : String)
    → contains (entry_paths (sort_entries xs)) c ≡ contains (entry_paths xs) c
unfolding sort_entries entry_paths
contains-sort [] c = refl
contains-sort (x ∷ xs) c = ground (arith, contains-insert x (sort_entries xs) c, contains-sort xs c)

nodup-insert :
    (x : ℕ × String) (ys : List (ℕ × String))
    → nodup (entry_paths (insert_entry x ys))
      ≡ (not (contains (entry_paths ys) x.1) && nodup (entry_paths ys))
unfolding insert_entry entry_paths
nodup-insert x [] = refl
nodup-insert x (y ∷ ys) =
    ground (arith, eq_iff x.1 y.1, eq_iff y.1 x.1, nodup-insert x ys, contains-insert x ys y.1)

nodup-sort :
    (xs : List (ℕ × String)) → nodup (entry_paths (sort_entries xs)) ≡ nodup (entry_paths xs)
unfolding sort_entries entry_paths
nodup-sort [] = refl
nodup-sort (x ∷ xs) =
    ground (arith, nodup-insert x (sort_entries xs), nodup-sort xs, contains-sort xs x.1)

-- What a save keeps are exactly the resolved forms of the listed paths that are directories.
contains-clean_temp_dirs :
    (e : Env) (paths : List String) (c : String)
    → contains (clean_temp_dirs e paths) c ≡ resolves_to e paths c
unfolding clean_temp_dirs
contains-clean_temp_dirs e paths c =
    contains-sort (collect_entries e [] paths) c ∙ contains-collect e [] paths c

-- A save leaves no path twice.
pub nodup-clean_temp_dirs : (e : Env) (paths : List String) → nodup (clean_temp_dirs e paths) ≡ true
unfolding clean_temp_dirs
nodup-clean_temp_dirs e paths = nodup-sort (collect_entries e [] paths) ∙ nodup-collect e [] paths
