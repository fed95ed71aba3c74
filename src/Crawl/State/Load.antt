-- ===== src/Crawl/State/Load.antt =====
-- What `load_persistent_state` takes from the state file (src/archive_tool/state.py), and that a new
-- CrawlState over a saved file is the saved one.
use healtharchive_backend.Base.{
  String, true, ◌≡◌, refl, none, some, List, [], ◌∷◌, arith, string_eq, all_of,
}
use healtharchive_backend.Base.Int.{ℤ, ◌≤ℤ◌, min_ℤ-le}
use healtharchive_backend.Json.{obj, strings, get_field, as_int}
use healtharchive_backend.Crawl.Env.{Env, IsSettled, StateFile, holds, accessible}
use healtharchive_backend.Crawl.State.{
  CrawlState, existing_dirs, load_fields, load_file, int_field, list_field, load_persistent_state,
  save_persistent_state, reset_persistent_state_values, state_data, clean_temp_dirs,
}
use healtharchive_backend.Crawl.State.TempDirs.{fresh, init}
use healtharchive_backend.Crawl.State.Order.{accessible-clean_temp_dirs, clean_temp_dirs_idem}

-- What outlives the process.
pub record Persistent : Type 0 where
  pub workers : ℤ
  pub temp_dirs : List String
  pub vpn_rotations : ℤ
  pub worker_reductions : ℤ
  pub container_restarts : ℤ

abbrev pub persistent : CrawlState → Persistent
persistent s = record {
  workers = s.current_workers;
  temp_dirs = s.temp_dirs_host_paths;
  vpn_rotations = s.vpn_rotations_done;
  worker_reductions = s.worker_reductions_done;
  container_restarts = s.container_restarts_done;
}

initial_workers-load_file :
    (e : Env) (f : StateFile) (s : CrawlState)
    → ((load_file e f s).initial_workers ≡ s.initial_workers)
      × ((load_file e f s).current_workers ≤ℤ s.initial_workers)
unfolding load_file load_fields reset_persistent_state_values
initial_workers-load_file e (holds (obj fields)) s =
    ground
      (arith, min_ℤ-le (int_field "current_workers" s.initial_workers fields) s.initial_workers)
initial_workers-load_file e _ s = ground arith

-- Whatever the state file holds, the workers after a load are at most the initial ones.
load-workers_le :
    (e : Env) (s : CrawlState)
    → (load_persistent_state e s).current_workers ≤ℤ (load_persistent_state e s).initial_workers
unfolding load_persistent_state
load-workers_le e s = ground (arith, initial_workers-load_file e s.state_file s)

existing_dirs-strings :
    (e : Env) (ps : List String)
    → IsSettled e
    → all_of (accessible e) ps ≡ true
    → existing_dirs e (strings ps) ≡ some ps
unfolding existing_dirs strings
existing_dirs-strings e [] settled h = refl
existing_dirs-strings e (p ∷ ps) settled h =
    ground (arith, settled.answers p, existing_dirs-strings e ps settled)

-- A loaded object has what was written, if its initial workers are the writer's.
load_file-state_data :
    (e : Env) (t u : CrawlState)
    → IsSettled e
    → all_of (accessible e) t.temp_dirs_host_paths ≡ true
    → u.initial_workers ≡ t.initial_workers
    → t.current_workers ≤ℤ t.initial_workers
    → persistent (load_file e (holds (state_data t)) u) ≡ persistent t
unfolding state_data load_file load_fields int_field list_field get_field as_int
load_file-state_data e t u settled h i le =
    ground (arith, existing_dirs-strings e t.temp_dirs_host_paths settled h)

module _ (e : Env) (settled : IsSettled e) (written : e.broken_write ≡ none) (s : CrawlState) where
  -- On a settled file system, if writes succeed and the workers are at most the initial ones, a
  -- crawl state made anew, with these initial workers, over the file that a save wrote has what was
  -- saved.
  pub persistent-init-save :
      s.current_workers ≤ℤ s.initial_workers
      → persistent (init e s.initial_workers (save_persistent_state e s).state_file)
        ≡ persistent (save_persistent_state e s)
  unfolding init save_persistent_state load_persistent_state
  persistent-init-save h =
      let t = record s { temp_dirs_host_paths = clean_temp_dirs e s.temp_dirs_host_paths } in
      let u = fresh s.initial_workers (holds (state_data t)) in
      rw written (
        cc (
          load_file-state_data e t u settled
              (accessible-clean_temp_dirs e settled s.temp_dirs_host_paths) refl h,
          clean_temp_dirs_idem e settled s.temp_dirs_host_paths,
        ))
