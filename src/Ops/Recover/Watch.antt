-- ===== src/Ops/Recover/Watch.antt =====
-- scripts/vps-crawl-auto-recover.py: which running jobs are stalled or degraded, and the streaks of the
-- degraded ones.
use healtharchive_backend.Base.{
  ℕ, ◌+◌, ◌*◌, String, Bool, true, false, ◌||◌, ◌&&◌, not, Option, none, some, List, [], ◌∷◌, ◌==◌,
  nat_eq, string_eq, if◌then◌else◌, leb, contains,
}
use healtharchive_backend.Base.Int.{ℤ, pos, int_eq, ◌+ℤ◌}
use healtharchive_backend.Base.Texts.{str_ℤ}
use healtharchive_backend.Json.{Fields, null, int, str, obj, end, field, get_field}
use healtharchive_backend.Ops.Progress.{CrawlLogProgress, last_progress_age, is_slower_than}
use healtharchive_backend.Ops.Logs.{LogFiles, find_job_log, parse_crawl_log_progress}
use healtharchive_backend.Ops.Recover.Host.{Host}
use healtharchive_backend.Ops.Recover.Sync.{RunningJob}

-- The arguments of the watch. Numbers of seconds are natural; `min_runs` is at least 1.
pub record WatchArgs : Type 0 where
  pub stall_threshold_seconds : ℕ
  pub simulated : List ℕ
  pub simulated_age_seconds : Option ℕ
  pub degraded_rate_enabled : Bool
  pub degraded_threshold_milli_ppm : ℕ
  pub degraded_max_age_seconds : ℕ
  pub degraded_min_runs : ℕ
  pub degraded_sources : List String

-- What is seen of a job: nothing, the age of a drill, or the progress of its log.
pub data Sight : Type 0 where
  unseen : Sight
  drill : ℕ → Sight
  measured : CrawlLogProgress → Sight

unfoldable pub drill_age : WatchArgs → ℕ
drill_age a = elim a.simulated_age_seconds [ none ↦ a.stall_threshold_seconds + 1 | some s ↦ s ]

-- `none` is an exception.
unfoldable pub sight_of : WatchArgs → LogFiles → RunningJob → Option Sight
unfolding drill_age
sight_of a files r =
    if contains a.simulated r.job_id
    then some (drill (drill_age a * 1000000))
    else elim (find_job_log files r.combined_log_path r.output_dir) [
      | none ↦ some unseen
      | some path ↦ elim (parse_crawl_log_progress files path) [
        | none ↦ none
        | some none ↦ some unseen
        | some (some p) ↦ some (measured p)
      ]
    ]

unfoldable pub sights : WatchArgs → LogFiles → List RunningJob → Option (List (RunningJob × Sight))
unfolding sight_of
sights a files [] = some []
sights a files (r ∷ rest) =
    let later = sights a files rest in
    elim (sight_of a files r) [
      | none ↦ none
      | some s ↦ elim later [ none ↦ none | some others ↦ some ((r, s) ∷ others) ]
    ]

-- `progress_age_by_job_id`, in microseconds.
unfoldable pub age_of : ℕ → Sight → Option ℕ
age_of now unseen = none
age_of now (drill age) = some age
age_of now (measured p) = some (last_progress_age now p)

unfoldable pub is_stalled : WatchArgs → ℕ → Sight → Bool
unfolding age_of
is_stalled a now s = elim (age_of now s) [
  | none ↦ false
  | some age ↦ leb (a.stall_threshold_seconds * 1000000) age
]

unfoldable pub stalled_of : WatchArgs → ℕ → List (RunningJob × Sight) → List RunningJob
unfolding is_stalled
stalled_of a now [] = []
stalled_of a now ((r, s) ∷ rest) =
    let later = stalled_of a now rest in if is_stalled a now s then r ∷ later else later

unfoldable pub is_watched : Host → WatchArgs → RunningJob → Bool
is_watched h a r = contains a.degraded_sources (h.fold r.source_code)

unfoldable pub is_slow : WatchArgs → ℕ → Sight → Bool
is_slow a now (measured p) =
    leb (last_progress_age now p) (a.degraded_max_age_seconds * 1000000)
    && is_slower_than a.degraded_threshold_milli_ppm p
is_slow a now _ = false

-- `degraded_current_job_ids`
unfoldable pub is_degraded : Host → WatchArgs → ℕ → RunningJob → Sight → Bool
unfolding is_stalled is_slow is_watched
is_degraded h a now r s =
    not (is_stalled a now s) && (a.degraded_rate_enabled && (is_watched h a r && is_slow a now s))

-- The streaks: the number that the key of the dict shows, and the count.
abbrev pub Streaks : Type 0
Streaks = List (ℤ × ℤ)

unfoldable pub streak : ℤ → Streaks → Option ℤ
streak k [] = none
streak k ((j, n) ∷ rest) = if j == k then some n else streak k rest

unfoldable pub drop_streak : ℤ → Streaks → Streaks
drop_streak k [] = []
drop_streak k ((j, n) ∷ rest) =
    let later = drop_streak k rest in if j == k then later else (j, n) ∷ later

unfoldable pub set_streak : ℤ → ℤ → Streaks → Streaks
unfolding drop_streak
set_streak k n d = (k, n) ∷ drop_streak k d

-- The streaks of the state file; an entry that is no number is left out.
unfoldable pub load_entries : Host → Fields → Streaks → Streaks
unfolding set_streak
load_entries h end d = d
load_entries h (field k v rest) d = load_entries h rest (elim (h.py.to_int (str k)) [
  | none ↦ d
  | some id ↦ elim (h.py.to_int v) [ none ↦ d | some n ↦ set_streak id n d ]
])

unfoldable pub load_streaks : Host → Fields → Streaks
unfolding load_entries
load_streaks h state = elim (get_field "degraded_streaks" null state) [
  | obj entries ↦ load_entries h entries []
  | _ ↦ []
]

abbrev pub is_measured : Sight → Bool
is_measured (measured p) = true
is_measured _ = false

abbrev pub count_of : Option ℤ → ℤ
count_of none = pos 0
count_of (some n) = n

-- One running job.
unfoldable pub step_streak : Host → WatchArgs → ℕ → RunningJob → Sight → Streaks → Streaks
unfolding is_watched set_streak is_degraded
step_streak h a now r s d =
    let k = pos r.job_id in
    if not (is_watched h a r)
    then drop_streak k d
    else if not (is_measured s)
    then drop_streak k d
    else if is_degraded h a now r s
    then set_streak k (count_of (streak k d) +ℤ pos 1) d
    else drop_streak k d

unfoldable pub step_streaks : Host → WatchArgs → ℕ → List (RunningJob × Sight) → Streaks → Streaks
unfolding step_streak
step_streaks h a now [] d = d
step_streaks h a now ((r, s) ∷ rest) d = step_streaks h a now rest (step_streak h a now r s d)

unfoldable pub names_running : List (RunningJob × Sight) → ℤ → Bool
names_running [] k = false
names_running ((r, s) ∷ rest) k = pos r.job_id == k || names_running rest k

unfoldable pub keep_running : List (RunningJob × Sight) → Streaks → Streaks
unfolding names_running
keep_running seen [] = []
keep_running seen ((k, n) ∷ rest) =
    let later = keep_running seen rest in if names_running seen k then (k, n) ∷ later else later

-- The streaks after a run.
unfoldable pub update_streaks : Host → WatchArgs → ℕ → List (RunningJob × Sight) → Streaks → Streaks
unfolding step_streaks keep_running
update_streaks h a now seen d = keep_running seen (step_streaks h a now seen d)

unfoldable pub streaks_json : Streaks → Fields
streaks_json [] = end
streaks_json ((k, n) ∷ rest) = field (str_ℤ k) (int n) (streaks_json rest)
