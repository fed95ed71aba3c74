-- ===== src/Crawl/State/TempDirs.antt =====
-- src/archive_tool/state.py: the constructor, `add_temp_dir` and `get_temp_dir_paths`.
use healtharchive_backend.Base.{
  String, Bool, true, false, Option, none, some, List, [], ◌∷◌, ◌++◌, ◌==◌, string_eq,
  if◌then◌else◌, contains,
}
use healtharchive_backend.Base.Int.{ℤ, pos, negsuc}
use healtharchive_backend.Crawl.Env.{Env, answer, os_error, StateFile, accessible}
use healtharchive_backend.Crawl.State.{
  CrawlState, no_errors, no_rate, load_persistent_state, save_persistent_state,
}

-- The attributes before the file is read.
unfoldable pub fresh : ℤ → StateFile → CrawlState
fresh workers file = record {
  stage_start_time = none;
  last_crawled_count = negsuc 0;
  last_total_count = negsuc 0;
  last_pending_count = negsuc 0;
  last_failed_count = negsuc 0;
  last_progress_timestamp = none;
  last_stats_timestamp = none;
  last_no_stats_signal_timestamp = none;
  error_counts = no_errors;
  last_error_type = none;
  previous_crawled_count = negsuc 0;
  previous_stats_timestamp = none;
  progress_rate_ppm = no_rate;
  last_vpn_rotation_timestamp = none;
  current_workers = workers;
  initial_workers = workers;
  temp_dirs_host_paths = [];
  vpn_rotations_done = pos 0;
  worker_reductions_done = pos 0;
  container_restarts_done = pos 0;
  state_file = file;
}

-- `CrawlState(host_output_dir, initial_workers)` over what the file holds.
unfoldable pub init : Env → ℤ → StateFile → CrawlState
unfolding fresh
init e workers file = save_persistent_state e (load_persistent_state e (fresh workers file))

-- `add_temp_dir(path)` for a path that is given; `none` is an `OSError` out of `is_dir` or `resolve`.
unfoldable pub add_temp_dir : Env → String → CrawlState → Option CrawlState
add_temp_dir e path s = elim (e.is_dir path) [
  | os_error ↦ none
  | answer false ↦ some s
  | answer true ↦ elim (e.resolve path) [
    | none ↦ none
    | some c ↦
        if contains s.temp_dirs_host_paths c
        then some s
        else some (
            save_persistent_state e
              (record s { temp_dirs_host_paths = s.temp_dirs_host_paths ++ (c ∷ []) }))
  ]
]

-- `l.remove(x)`: the first occurrence.
unfoldable pub remove_first : String → List String → List String
remove_first x [] = []
remove_first x (y ∷ ys) = if y == x then ys else y ∷ remove_first x ys

-- The loop over the copy `paths`: the existing ones, and what is left of the attribute.
unfoldable pub scan_temp_dirs :
    Env → List String → List String → Bool → List String × List String × Bool
unfolding accessible
scan_temp_dirs e [] current changed = ([], current, changed)
scan_temp_dirs e (p ∷ rest) current changed =
    let gone = contains current p in
    let found = scan_temp_dirs e rest current changed in
    let lost =
      scan_temp_dirs e rest (if gone then remove_first p current else current)
        (if gone then true else changed) in
    if accessible e p then (p ∷ found.0, found.1, found.2) else lost

-- `get_temp_dir_paths()`: the paths and the state after.
unfoldable pub get_temp_dir_paths : Env → CrawlState → List String × CrawlState
unfolding scan_temp_dirs remove_first
get_temp_dir_paths e s =
    let (existing, left, changed) =
      scan_temp_dirs e s.temp_dirs_host_paths s.temp_dirs_host_paths false in
    let t = record s { temp_dirs_host_paths = left } in
    (existing, if changed then save_persistent_state e t else t)
