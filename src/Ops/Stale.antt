-- ===== src/Ops/Stale.antt =====
-- src/ha_backend/cli.py, `cmd_recover_stale_jobs`: rows that are stuck in the status running.
pub mod Marked
use healtharchive_backend.Base.{
  ℕ, zero, suc, ◌-◌, ◌*◌, ◌/◌, String, Bool, true, false, ◌||◌, ◌&&◌, not, Option, none, some,
  is_some, List, [], ◌∷◌, ◌==◌, nat_eq, string_eq, if◌then◌else◌, ltb, leb, keep, contains, map,
}
use healtharchive_backend.Base.Int.{ℤ, pos, negsuc, leb_ℤ}
use healtharchive_backend.Ops.{JobRow, JobTable, update_row}
use healtharchive_backend.Ops.Progress.{CrawlLogProgress, last_progress_age}
use healtharchive_backend.Ops.Logs.{LogFiles, parse_crawl_log_progress, find_log_for_job}

-- The arguments; the source has been stripped and put in lower case.
pub record StaleArgs : Type 0 where
  pub apply : Bool
  pub older_than_minutes : ℤ
  pub require_no_progress_seconds : Option ℤ
  pub include_missing_started_at : Bool
  pub source : Option String
  pub limit : Option ℤ

-- `with _job_lock(job.id)`: it is free, held, or cannot be probed.
pub data JobLock : Type 0 where
  lock_free lock_held lock_fails : JobLock

pub record StaleEnv : Type 0 where
  pub now : ℕ
  pub files : LogFiles
  pub lock : ℕ → JobLock

-- The command exits with a code and leaves a table, or raises.
pub data StaleEnd : Type 0 where
  exits : ℤ → JobTable → StaleEnd
  stale_raised : StaleEnd

abbrev pub is_positive : ℤ → Bool
is_positive n = leb_ℤ (pos 1) n

abbrev pub to_ℕ : ℤ → ℕ
to_ℕ (pos n) = n
to_ℕ (negsuc n) = 0

unfoldable pub started_before : Bool → ℕ → Option ℕ → Bool
started_before include_missing cutoff none = include_missing
started_before include_missing cutoff (some t) = ltb t cutoff

unfoldable pub of_source : Option String → JobRow → Bool
of_source none j = true
of_source (some code) j = elim j.source_code [ none ↦ false | some c ↦ c == code ]

abbrev pub cutoff_of : StaleArgs → StaleEnv → ℕ
cutoff_of args e = e.now - to_ℕ args.older_than_minutes * (60 * 1000000)

-- The filters of the query.
unfoldable pub is_stale : StaleArgs → StaleEnv → JobRow → Bool
unfolding started_before of_source
is_stale args e j =
    j.status == "running"
    && (started_before args.include_missing_started_at (cutoff_of args e) j.started_at
        && of_source args.source j)

-- `started_at ASC NULLS FIRST, id ASC`: not after.
unfoldable pub comes_first : JobRow → JobRow → Bool
comes_first a b = elim a.started_at [
  | none ↦ elim b.started_at [ none ↦ leb a.id b.id | some _ ↦ true ]
  | some s ↦ elim b.started_at [ none ↦ false | some t ↦ ltb s t || (s == t && leb a.id b.id) ]
]

unfoldable pub insert_row : JobRow → List JobRow → List JobRow
unfolding comes_first
insert_row j [] = j ∷ []
insert_row j (k ∷ rest) =
    let later = insert_row j rest in if comes_first j k then j ∷ (k ∷ rest) else k ∷ later

unfoldable pub sort_rows : List JobRow → List JobRow
unfolding insert_row
sort_rows [] = []
sort_rows (j ∷ rest) = insert_row j (sort_rows rest)

unfoldable pub first_rows : ℕ → List JobRow → List JobRow
first_rows n [] = []
first_rows zero (j ∷ rest) = []
first_rows (suc n) (j ∷ rest) = j ∷ first_rows n rest

unfoldable pub limited : Option ℤ → List JobRow → List JobRow
unfolding first_rows
limited none rows = rows
limited (some n) rows = first_rows (to_ℕ n) rows

-- Whether a row goes on without progress: its age is unknown, or in whole seconds at least the required one.
abbrev pub age_suffices : ℕ → ℕ → Option CrawlLogProgress → Bool
age_suffices seconds now none = true
age_suffices seconds now (some p) = leb seconds (last_progress_age now p / 1000000)

-- `none` is an exception.
unfoldable pub lacks_progress : ℕ → StaleEnv → JobRow → Option Bool
lacks_progress seconds e j = elim (find_log_for_job e.files j.combined_log_path j.output_dir) [
  | none ↦ some true
  | some path ↦ elim (parse_crawl_log_progress e.files path) [
    | none ↦ none
    | some progress ↦ some (age_suffices seconds e.now progress)
  ]
]

unfoldable pub without_progress : ℕ → StaleEnv → List JobRow → Option (List JobRow)
unfolding lacks_progress
without_progress seconds e [] = some []
without_progress seconds e (j ∷ rest) =
    let later = without_progress seconds e rest in
    elim (lacks_progress seconds e j) [
      | none ↦ none
      | some lacks ↦ elim later [
        | none ↦ none
        | some others ↦ some (if lacks then j ∷ others else others)
      ]
    ]

unfoldable pub progress_filter : StaleArgs → StaleEnv → List JobRow → Option (List JobRow)
unfolding without_progress
progress_filter args e rows = elim args.require_no_progress_seconds [
  | none ↦ some rows
  | some seconds ↦ without_progress (to_ℕ seconds) e rows
]

abbrev pub is_unlocked : StaleEnv → JobRow → Bool
is_unlocked e j = elim (e.lock j.id) [ lock_free ↦ true | _ ↦ false ]

abbrev pub recovered : JobRow → JobRow
recovered j = record j { status = "retryable"; crawler_stage = some "recovered_stale_running" }

-- A change of each of these rows.
unfoldable pub mark_with : (JobRow → JobRow) → List JobRow → JobTable → JobTable
mark_with f [] table = table
mark_with f (j ∷ rest) table = mark_with f rest (update_row j.id f table)

-- The rows are printed with the age of their progress: whether no log raises.
unfoldable pub logs_read : StaleEnv → List JobRow → Bool
unfolding lacks_progress
logs_read e [] = true
logs_read e (j ∷ rest) = is_some (lacks_progress 0 e j) && logs_read e rest

-- The rows that the command marks; `none` is an exception.
unfoldable pub stale_rows : StaleArgs → StaleEnv → JobTable → Option (List JobRow)
unfolding is_stale sort_rows limited progress_filter logs_read
stale_rows args e table =
    elim (progress_filter args e (limited args.limit (sort_rows (keep (is_stale args e) table)))) [
      | none ↦ none
      | some rows ↦
          let found = keep (is_unlocked e) rows in if logs_read e found then some found else none
    ]

-- `n is not None and n <= 0`
abbrev pub is_refused : Option ℤ → Bool
is_refused none = false
is_refused (some n) = not (is_positive n)

unfoldable pub recover_stale_jobs : StaleArgs → StaleEnv → JobTable → StaleEnd
unfolding stale_rows mark_with
recover_stale_jobs args e table =
    if not (is_positive args.older_than_minutes)
    then exits (pos 2) table
    else if is_refused args.require_no_progress_seconds
    then exits (pos 2) table
    else if is_refused args.limit
    then exits (pos 2) table
    else elim (stale_rows args e table) [
      | none ↦ stale_raised
      | some rows ↦ exits (pos 0) (if args.apply then mark_with recovered rows table else table)
    ]
