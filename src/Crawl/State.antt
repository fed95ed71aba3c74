-- ===== src/Crawl/State.antt =====
-- src/archive_tool/state.py, class CrawlState: the attributes and the persistent half. Each method
-- runs under the object's lock and is one function here; what it logs is left out.
pub mod TempDirs
pub mod Save
pub mod Order
pub mod Load
pub mod Scan
pub mod Updates
pub mod Progress
use healtharchive_backend.Base.{
  ℕ, String, true, false, Option, none, some, List, [], ◌∷◌, string_eq, if◌then◌else◌, leb,
  contains,
}
use healtharchive_backend.Base.Int.{ℤ, pos, min_ℤ}
use healtharchive_backend.Json.{
  Json, int, str, arr, obj, Items, nil, cons, Fields, end, field, get_field, as_int, strings,
}
use healtharchive_backend.Crawl.Env.{
  Env, answer, os_error, StateFile, holds, accessible, canonical, mtime_of,
}

pub record ErrorCounts : Type 0 where
  pub timeout : ℕ
  pub http : ℕ
  pub other : ℕ

abbrev pub no_errors : ErrorCounts
no_errors = record { timeout = 0; http = 0; other = 0 }

-- Pages over nanoseconds: the rate is pages * 60 * 10^9 / elapsed pages a minute.
pub record Rate : Type 0 where
  pub pages : ℕ
  pub elapsed : ℕ

abbrev pub no_rate : Rate
no_rate = record { pages = 0; elapsed = 1 }

-- Times are nanoseconds of the monotonic clock. `state_file` is what the file on disk holds.
pub record CrawlState : Type 0 where
  pub stage_start_time : Option ℕ
  pub last_crawled_count : ℤ
  pub last_total_count : ℤ
  pub last_pending_count : ℤ
  pub last_failed_count : ℤ
  pub last_progress_timestamp : Option ℕ
  pub last_stats_timestamp : Option ℕ
  pub last_no_stats_signal_timestamp : Option ℕ
  pub error_counts : ErrorCounts
  pub last_error_type : Option String
  pub previous_crawled_count : ℤ
  pub previous_stats_timestamp : Option ℕ
  pub progress_rate_ppm : Rate
  pub last_vpn_rotation_timestamp : Option ℕ
  pub current_workers : ℤ
  pub initial_workers : ℤ
  pub temp_dirs_host_paths : List String
  pub vpn_rotations_done : ℤ
  pub worker_reductions_done : ℤ
  pub container_restarts_done : ℤ
  pub state_file : StateFile

-- `_reset_persistent_state_values`
unfoldable pub reset_persistent_state_values : CrawlState → CrawlState
reset_persistent_state_values s = record s {
  current_workers = s.initial_workers;
  temp_dirs_host_paths = [];
  vpn_rotations_done = pos 0;
  worker_reductions_done = pos 0;
  container_restarts_done = pos 0;
  last_vpn_rotation_timestamp = none;
}

-- `[p for p in paths if Path(p).is_dir()]`; `none` is an exception, from an item that is no text
-- or from the file system.
existing_dirs : Env → Items → Option (List String)
existing_dirs e nil = some []
existing_dirs e (cons (str p) rest) =
    let others = existing_dirs e rest in
    elim (e.is_dir p) [
      | os_error ↦ none
      | answer true ↦ elim others [ none ↦ none | some ps ↦ some (p ∷ ps) ]
      | answer false ↦ others
    ]
existing_dirs e (cons _ rest) = none

-- `data.get(key, default)` with a value that is no `int` replaced by the default.
int_field : String → ℤ → Fields → ℤ
unfolding as_int
int_field key default fields = elim (as_int (get_field key (int default) fields)) [
  | none ↦ default
  | some n ↦ n
]

-- `data.get("temp_dirs_host_paths", [])` with a value that is no list replaced by the empty one.
list_field : String → Fields → Items
list_field key fields = elim (get_field key (arr nil) fields) [ arr items ↦ items | _ ↦ nil ]

-- The assignments of the `try` block; `none` is an exception inside it.
load_fields : Env → Fields → CrawlState → Option CrawlState
load_fields e fields s = elim (existing_dirs e (list_field "temp_dirs_host_paths" fields)) [
  | none ↦ none
  | some paths ↦ some (record s {
    current_workers =
        min_ℤ (int_field "current_workers" s.initial_workers fields) s.initial_workers;
    temp_dirs_host_paths = paths;
    vpn_rotations_done = int_field "vpn_rotations_done" (pos 0) fields;
    worker_reductions_done = int_field "worker_reductions_done" (pos 0) fields;
    container_restarts_done = int_field "container_restarts_done" (pos 0) fields;
  })
]

-- A file that is missing, broken or no object resets the state, as does an exception on the way.
load_file : Env → StateFile → CrawlState → CrawlState
load_file e (holds (obj fields)) s = elim (load_fields e fields s) [
  | none ↦ reset_persistent_state_values s
  | some t ↦ t
]
load_file e _ s = reset_persistent_state_values s

unfoldable pub load_persistent_state : Env → CrawlState → CrawlState
unfolding load_file load_fields list_field int_field existing_dirs get_field
    reset_persistent_state_values
load_persistent_state e s = record (load_file e s.state_file s) {
  last_vpn_rotation_timestamp = none;
}

-- The loop of `save_persistent_state`, with `seen` the canonical paths that it has taken.
unfoldable pub collect_entries : Env → List String → List String → List (ℕ × String)
unfolding accessible canonical mtime_of
collect_entries e seen [] = []
collect_entries e seen (raw ∷ rest) =
    let c = canonical e raw in
    let skip = collect_entries e seen rest in
    let take = (mtime_of e raw, c) ∷ collect_entries e (c ∷ seen) rest in
    if accessible e raw then (if contains seen c then skip else take) else skip

-- `entries.sort(key=lambda item: item[0])`, which is stable.
insert_entry : ℕ × String → List (ℕ × String) → List (ℕ × String)
insert_entry x [] = x ∷ []
insert_entry x (y ∷ ys) = if leb x.0 y.0 then x ∷ y ∷ ys else y ∷ insert_entry x ys

unfoldable pub sort_entries : List (ℕ × String) → List (ℕ × String)
unfolding insert_entry
sort_entries [] = []
sort_entries (x ∷ xs) = insert_entry x (sort_entries xs)

unfoldable pub entry_paths : List (ℕ × String) → List String
entry_paths [] = []
entry_paths (x ∷ xs) = x.1 ∷ entry_paths xs

-- The paths that a save keeps: accessible, resolved, without repetition, oldest first.
unfoldable pub clean_temp_dirs : Env → List String → List String
unfolding collect_entries sort_entries entry_paths
clean_temp_dirs e paths = entry_paths (sort_entries (collect_entries e [] paths))

-- The object that is written.
unfoldable pub state_data : CrawlState → Json
unfolding strings
state_data s = obj (
    field "current_workers" (int s.current_workers) (
      field "initial_workers" (int s.initial_workers) (
        field "temp_dirs_host_paths" (arr (strings s.temp_dirs_host_paths)) (
          field "vpn_rotations_done" (int s.vpn_rotations_done) (
            field "worker_reductions_done" (int s.worker_reductions_done) (
              field "container_restarts_done" (int s.container_restarts_done) (
                field "error_counts"
                  (obj (
                    field "timeout" (int (pos s.error_counts.timeout)) (
                      field "http" (int (pos s.error_counts.http))
                        (field "other" (int (pos s.error_counts.other)) end))))
                  end)))))))

unfoldable pub save_persistent_state : Env → CrawlState → CrawlState
unfolding clean_temp_dirs state_data
save_persistent_state e s =
    let t = record s { temp_dirs_host_paths = clean_temp_dirs e s.temp_dirs_host_paths } in
    record t { state_file = elim e.broken_write [ none ↦ holds (state_data t) | some left ↦ left ] }
