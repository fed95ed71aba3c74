-- ===== src/Ops/Logs.antt =====
-- The combined logs of a job on disk, as the scripts look for them, and the progress that one shows.
use healtharchive_backend.Base.{
  ℕ, String, Bool, true, false, Option, none, some, List, [], ◌∷◌, ◌==◌, string_eq, if◌then◌else◌,
  ltb, leb,
}
use healtharchive_backend.Ops.Progress.{
  StatusReader, CrawlLogProgress, parse_crawl_status_events, progress_of_events,
}

-- What the file system answers; `none` is an `OSError`. `tail` has the lines of a log's tail, none where
-- it cannot be read.
pub record LogFiles : Type 0 where
  pub is_file : String → Option Bool
  pub is_dir : String → Option Bool
  pub glob_logs : String → Option (List String)
  pub mtime : String → Option ℕ
  pub tail : String → List String
  pub reader : StatusReader

-- `parse_crawl_log_progress`; the outer `none` is an exception.
unfoldable pub parse_crawl_log_progress : LogFiles → String → Option (Option CrawlLogProgress)
parse_crawl_log_progress files path =
    elim (parse_crawl_status_events files.reader (files.tail path)) [
      | none ↦ none
      | some events ↦ some (progress_of_events events)
    ]

-- `max(candidates, key=_safe_mtime)`: the first of the newest.
abbrev pub safe_mtime : LogFiles → String → ℕ
safe_mtime files path = elim (files.mtime path) [ none ↦ 0 | some t ↦ t ]

unfoldable pub newest : LogFiles → String → List String → String
newest files best [] = best
newest files best (p ∷ rest) =
    newest files (if ltb (safe_mtime files best) (safe_mtime files p) then p else best) rest

-- `_find_latest_combined_log` of scripts/vps-crawl-auto-recover.py
unfoldable pub find_latest_combined_log : LogFiles → String → Option String
unfolding newest
find_latest_combined_log files output_dir = elim (files.is_dir output_dir) [
  | none ↦ none
  | some false ↦ none
  | some true ↦ elim (files.glob_logs output_dir) [
    | none ↦ none
    | some [] ↦ none
    | some (p ∷ rest) ↦ some (newest files p rest)
  ]
]

-- The log that the row names, if it is a file.
unfoldable pub log_by_path : LogFiles → Option String → Option String
log_by_path files none = none
log_by_path files (some path) =
    if path == "" then none else elim (files.is_file path) [ some true ↦ some path | _ ↦ none ]

unfoldable pub log_by_output : LogFiles → Option String → Option String
unfolding find_latest_combined_log
log_by_output files none = none
log_by_output files (some dir) = if dir == "" then none else find_latest_combined_log files dir

-- The newer one of two logs; the second where one has no time.
unfoldable pub newer_log : LogFiles → String → String → String
newer_log files by_path by_output = elim (files.mtime by_output) [
  | none ↦ by_output
  | some t ↦ elim (files.mtime by_path) [
    | none ↦ by_output
    | some s ↦ if leb s t then by_output else by_path
  ]
]

-- `_find_job_log` of scripts/vps-crawl-auto-recover.py
unfoldable pub find_job_log : LogFiles → Option String → Option String → Option String
unfolding log_by_path log_by_output newer_log
find_job_log files combined_log_path output_dir = elim (log_by_path files combined_log_path) [
  | none ↦ log_by_output files output_dir
  | some by_path ↦ elim (log_by_output files output_dir) [
    | none ↦ some by_path
    | some by_output ↦ some (newer_log files by_path by_output)
  ]
]

-- `sorted(…, key=mtime, reverse=True)[0]`; `none` where a time cannot be read.
unfoldable pub newest_of_all : LogFiles → List String → Option (String × ℕ)
newest_of_all files [] = none
newest_of_all files (p ∷ []) = elim (files.mtime p) [ none ↦ none | some t ↦ some (p, t) ]
newest_of_all files (p ∷ (q ∷ rest)) =
    let others = newest_of_all files (q ∷ rest) in
    elim (files.mtime p) [
      | none ↦ none
      | some t ↦ elim others [
        | none ↦ none
        | some (best, s) ↦ some (if leb s t then (p, t) else (best, s))
      ]
    ]

-- The log in the directory of a job, for `cmd_recover_stale_jobs`.
unfoldable pub stale_log_in : LogFiles → Option String → Option String
unfolding newest_of_all
stale_log_in files none = none
stale_log_in files (some dir) = if dir == "" then none else elim (files.glob_logs dir) [
  | none ↦ none
  | some found ↦ elim (newest_of_all files found) [ none ↦ none | some (best, _) ↦ some best ]
]

-- `_find_log_for_job` of `cmd_recover_stale_jobs`: the log that the row names, if there is such a file.
unfoldable pub find_log_for_job : LogFiles → Option String → Option String → Option String
unfolding stale_log_in
find_log_for_job files none output_dir = stale_log_in files output_dir
find_log_for_job files (some path) output_dir =
    if path == "" then stale_log_in files output_dir else elim (files.is_file path) [
      | none ↦ none
      | some true ↦ some path
      | some false ↦ stale_log_in files output_dir
    ]
