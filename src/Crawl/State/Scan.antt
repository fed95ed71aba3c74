-- ===== src/Crawl/State/Scan.antt =====
-- `get_temp_dir_paths` (src/archive_tool/state.py): the loop that removes from the list it scans.
use healtharchive_backend.Base.{
  String, Bool, true, false, ◌≡◌, refl, ◌||◌, not, inl, inr, Bool-cases, List, [], ◌∷◌, ◌++◌, arith,
  string_eq, eq_iff, if◌then◌else◌, contains, keep, all_of, keep-eq_self,
}
use mathlib.Core.List.{append_assoc}
use healtharchive_backend.Crawl.Env.{Env, accessible}
use healtharchive_backend.Crawl.State.{CrawlState, save_persistent_state}
use healtharchive_backend.Crawl.State.TempDirs.{remove_first, scan_temp_dirs, get_temp_dir_paths}

remove_first-append :
    (p : String) (pre rest : List String)
    → contains pre p ≡ false
    → remove_first p (pre ++ (p ∷ rest)) ≡ pre ++ rest
unfolding remove_first
remove_first-append p [] rest h = ground (arith, eq_iff p p)
remove_first-append p (x ∷ pre) rest h = ground (arith, remove_first-append p pre rest)

accessible-contains :
    (e : Env) (pre : List String) (p : String)
    → all_of (accessible e) pre ≡ true
    → accessible e p ≡ false
    → contains pre p ≡ false
accessible-contains e [] p h k = refl
accessible-contains e (x ∷ pre) p h k = ground (arith, eq_iff x p, accessible-contains e pre p)

contains-middle : (p : String) (pre rest : List String) → contains (pre ++ (p ∷ rest)) p ≡ true
contains-middle p [] rest = ground (arith, eq_iff p p)
contains-middle p (x ∷ pre) rest = ground (arith, contains-middle p pre rest)

all_of-snoc :
    (e : Env) (p : String) (pre : List String)
    → all_of (accessible e) pre ≡ true
    → accessible e p ≡ true
    → all_of (accessible e) (pre ++ (p ∷ [])) ≡ true
all_of-snoc e p [] h k = ground arith
all_of-snoc e p (x ∷ pre) h k = ground (arith, all_of-snoc e p pre)

-- The scan of `ps` with the kept paths before it.
scan_lem :
    (e : Env) (pre ps : List String) (changed : Bool)
    → all_of (accessible e) pre ≡ true
    → scan_temp_dirs e ps (pre ++ ps) changed ≡ (
      keep (accessible e) ps,
      pre ++ keep (accessible e) ps,
      changed || not (all_of (accessible e) ps),
    )
unfolding scan_temp_dirs
scan_lem e pre [] changed h = ground arith
scan_lem e pre (p ∷ ps) changed h = elim (Bool-cases (accessible e p)) [
  | inl there ↦ ground (
    arith,
    append_assoc pre (p ∷ []) ps,
    append_assoc pre (p ∷ []) (keep (accessible e) ps),
    scan_lem e (pre ++ (p ∷ [])) ps changed (all_of-snoc e p pre h there),
  )
  | inr gone ↦ ground (
    arith,
    remove_first-append p pre ps (accessible-contains e pre p h gone),
    contains-middle p pre ps,
    scan_lem e pre ps true h,
  )
]

-- The result lists the paths of the state that are directories, in their order. If that is all of
-- them the state stays as it was; if not, it keeps those and is saved.
get_temp_dir_paths_lem :
    (e : Env) (s : CrawlState)
    → let there = keep (accessible e) s.temp_dirs_host_paths in
      get_temp_dir_paths e s ≡ (
        there,
        if all_of (accessible e) s.temp_dirs_host_paths
            then s
            else save_persistent_state e (record s { temp_dirs_host_paths = there }),
      )
unfolding get_temp_dir_paths
get_temp_dir_paths_lem e s =
    let paths = s.temp_dirs_host_paths in
    elim (Bool-cases (all_of (accessible e) paths)) [
      | inl all ↦
          rw (all, scan_lem e [] paths false refl, all, keep-eq_self (accessible e) paths all)
      | inr some ↦ rw (some, scan_lem e [] paths false refl, some)
    ]
