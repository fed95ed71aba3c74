-- ===== src/Crawl/Stages/Prepare.antt =====
-- What src/archive_tool/main.py does before it starts a stage's container.
use healtharchive_backend.Base.{
  ℕ, String, Bool, Option, none, some, List, [], ◌∷◌, ◌==◌, string_eq, if◌then◌else◌,
}
use healtharchive_backend.Base.Int.{ℤ, negsuc}
use healtharchive_backend.Crawl.Env.{Env}
use healtharchive_backend.Crawl.State.{CrawlState, no_rate}
use healtharchive_backend.Crawl.State.TempDirs.{get_temp_dir_paths}
use healtharchive_backend.Crawl.State.Progress.{reset_runtime_errors}
use healtharchive_backend.Crawl.Stages.Watch.{Round}

pub record StageEnv : Type 0 where
  -- the stop event is set before the test of the loop
  pub signal_before : Bool
  pub env : Env
  pub start_time : ℕ
  -- a managed config, if there is one, with its path in the container or a failure to convert it
  pub managed : Option (Option String)
  pub stable_resume : Option String
  pub apply_managed : String → Option String
  pub latest_config : List String → Option String
  pub persist : String → Option String
  pub container_path : String → Option String
  -- the container for a command of zimit fails to start, or starts and its id is known or not
  pub container : List String → Option Bool
  -- the directories that the scan after the start finds
  pub discovered : Option (List String)
  pub monitor_starts : Bool
  pub rounds : List Round
  -- the monitor's thread is alive when the inner loop has ended
  pub alive_at_end : Bool
  pub returncode : Option ℤ
  pub poll_again : Option ℤ
  pub temp_dir : Option String
  pub stop_in_backoff : Bool

-- The name of the stage and the extra arguments, or the status "failed_state_error".
pub data Prepared : Type 0 where
  ready : String → List String → CrawlState → Prepared
  bad_state : CrawlState → Prepared

-- `none` is a failure, `some none` no config at all.
unfoldable pub find_resume_config : StageEnv → List String → Option (Option String)
find_resume_config e paths = elim e.stable_resume [
  | some config ↦ elim (e.apply_managed config) [ none ↦ none | some merged ↦ some (some merged) ]
  | none ↦ elim (e.latest_config paths) [
    | none ↦ some none
    | some config ↦ elim (e.persist config) [
      | none ↦ some (some config)
      | some persisted ↦ elim (e.apply_managed persisted) [
        | none ↦ none
        | some merged ↦ some (some merged)
      ]
    ]
  ]
]

-- A resume without a config becomes a new crawl phase.
unfoldable pub prepare_resume : StageEnv → CrawlState → Prepared
unfolding find_resume_config
prepare_resume e s =
    let (paths, t) = get_temp_dir_paths e.env s in
    elim (find_resume_config e paths) [
      | none ↦ bad_state t
      | some none ↦ ready "New Crawl Phase" [] t
      | some (some config) ↦ elim (e.container_path config) [
        | none ↦ bad_state t
        | some path ↦ ready "Resume Crawl" ("--config" ∷ path ∷ []) t
      ]
    ]

unfoldable pub prepare : StageEnv → String → CrawlState → Prepared
unfolding prepare_resume
prepare e name s = if name == "Resume Crawl" then prepare_resume e s else elim e.managed [
  | none ↦ ready name [] s
  | some none ↦ bad_state s
  | some (some path) ↦ ready name ("--config" ∷ path ∷ []) s
]

-- The attributes that a new stage resets.
unfoldable pub reset_for_stage : CrawlState → CrawlState
reset_for_stage s = reset_runtime_errors (record s {
  last_crawled_count = negsuc 0;
  last_total_count = negsuc 0;
  last_pending_count = negsuc 0;
  last_failed_count = negsuc 0;
  last_progress_timestamp = none;
  last_stats_timestamp = none;
  last_no_stats_signal_timestamp = none;
  previous_crawled_count = negsuc 0;
  previous_stats_timestamp = none;
  progress_rate_ppm = no_rate;
})
