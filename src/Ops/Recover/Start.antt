-- ===== src/Ops/Recover/Start.antt =====
-- scripts/vps-crawl-auto-recover.py: where no job is stalled and too few run, an annual job is started.
use Prim.Native.String.{◌++◌ as concat}
use healtharchive_backend.Base.{
  ℕ, ◌-◌, String, Bool, true, false, ◌||◌, ◌&&◌, not, Option, none, some, is_some, List, [], ◌∷◌,
  ◌++◌, ◌==◌, nat_eq, string_eq, if◌then◌else◌, ltb, leb, keep,
}
use healtharchive_backend.Base.Int.{ℤ, pos, int_eq, leb_ℤ}
use healtharchive_backend.Json.{null, get_field}
use healtharchive_backend.Ops.{JobRow, JobTable}
use healtharchive_backend.Ops.Progress.{is_null}
use healtharchive_backend.Ops.Recover.Host.{Host, int_or_zero, is_number}
use healtharchive_backend.Ops.Recover.Annual.{kind_of, infer_annual_campaign_year}
use healtharchive_backend.Ops.Recover.History.{job_key, record_start, count_recent}
use healtharchive_backend.Ops.Recover.Act.{day}
use healtharchive_backend.Ops.Recover.Prepare.{
  systemd_run, World, RunEnd, finishes, raises, run_command, update_config,
}

pub record LaunchArgs : Type 0 where
  pub apply : Bool
  pub ensure_min_running : ℕ
  pub ensure_year : Option ℤ
  pub max_starts : ℕ
  pub working_dir : String
  pub env_file : String
  pub user : String
  pub group : String
  pub ha_backend : String
  pub cpu_limit : String
  pub memory_limit : String
  pub max_disk_percent : ℤ

-- What the start meets: the time, its year, the disk usage (`none` where it cannot be read), the name of the unit
-- for a job, whether a commit works, and the exit code of `systemd-run`.
pub record LaunchEnv : Type 0 where
  pub now : ℕ
  pub year : ℤ
  pub disk_percent : Option ℤ
  pub unit_name : ℕ → String
  pub commits : Bool
  pub returncode : ℤ

-- `queued_at ASC NULLS FIRST, created_at ASC`: not after.
unfoldable pub queued_first : JobRow → JobRow → Bool
queued_first a b = elim a.queued_at [
  | none ↦ elim b.queued_at [ none ↦ leb a.created_at b.created_at | some _ ↦ true ]
  | some q ↦ elim b.queued_at [
    | none ↦ false
    | some r ↦ ltb q r || (q == r && leb a.created_at b.created_at)
  ]
]

unfoldable pub insert_queued : JobRow → List JobRow → List JobRow
unfolding queued_first
insert_queued j [] = j ∷ []
insert_queued j (k ∷ rest) =
    let later = insert_queued j rest in if queued_first j k then j ∷ (k ∷ rest) else k ∷ later

unfoldable pub in_queue_order : List JobRow → List JobRow
unfolding insert_queued
in_queue_order [] = []
in_queue_order (j ∷ rest) = insert_queued j (in_queue_order rest)

abbrev pub or_zero : Option ℤ → ℤ
or_zero none = pos 0
or_zero (some n) = n

-- The year that a candidate counts for; `none` for a job that is no annual one.
unfoldable pub candidate_year : Host → JobRow → Option ℤ
unfolding infer_annual_campaign_year int_or_zero
candidate_year h j =
    let inferred = infer_annual_campaign_year h j j.config in
    let given = int_or_zero h (get_field "campaign_year" null j.config) in
    if not (kind_of h j.config == "annual") && not (is_some inferred)
    then none
    else some (if leb_ℤ given (pos 0) then or_zero inferred else given)

unfoldable pub is_candidate : Host → ℤ → JobRow → Bool
unfolding candidate_year
is_candidate h year j = elim (candidate_year h j) [ none ↦ false | some y ↦ y == year ]

unfoldable pub needs_backfill : Host → ℤ → JobRow → Bool
unfolding is_number
needs_backfill h year j =
    not (kind_of h j.config == "annual")
    || (not (is_number h year (get_field "campaign_year" null j.config))
        || (is_null (get_field "campaign_date" null j.config)
            || (is_null (get_field "campaign_date_utc" null j.config)
                || is_null (get_field "scheduler_version" null j.config))))

unfoldable pub first_candidate : Host → ℤ → List JobRow → Option JobRow
unfolding is_candidate
first_candidate h year [] = none
first_candidate h year (j ∷ rest) =
    let later = first_candidate h year rest in if is_candidate h year j then some j else later

abbrev pub is_waiting : JobRow → Bool
is_waiting j = j.status == "queued" || j.status == "retryable"

unfoldable pub select_candidate : Host → ℤ → JobTable → Option JobRow
unfolding first_candidate in_queue_order
select_candidate h year table = first_candidate h year (in_queue_order (keep is_waiting table))

-- The command line of `systemd-run`; `strip` is Python's.
unfoldable pub start_command : Host → LaunchArgs → String → ℕ → List String
start_command h a unit id =
    let cpu = h.py.strip a.cpu_limit in
    let memory = h.py.strip a.memory_limit in
    ("systemd-run"
      ∷ (concat "--unit=" unit
          ∷ (concat "--property=WorkingDirectory=" a.working_dir
              ∷ (concat "--property=EnvironmentFile=" a.env_file
                  ∷ (concat "--property=User=" a.user
                      ∷ (concat "--property=Group=" a.group ∷ []))))))
    ++ ((if cpu == "" then [] else concat "--setenv=HEALTHARCHIVE_DOCKER_CPU_LIMIT=" cpu ∷ [])
        ++ ((if memory == ""
              then []
              else concat "--setenv=HEALTHARCHIVE_DOCKER_MEMORY_LIMIT=" memory ∷ [])
            ++ (a.ha_backend ∷ ("run-db-job" ∷ ("--id" ∷ (job_key id ∷ []))))))

abbrev pub source_text : Option String → String
source_text none = "unknown"
source_text (some code) = if code == "" then "unknown" else code

-- The start itself: the config is brought up to date, the unit is started, and the start noted.
unfoldable pub launch : Host → LaunchArgs → LaunchEnv → ℤ → JobRow → World → RunEnd
unfolding start_command record_start run_command needs_backfill update_config
launch h a e year j w =
    let backfill = if needs_backfill h year j then some year else none in
    let prepared = update_config h e.commits backfill j.id (source_text j.source_code) w in
    let ran = run_command (systemd_run (start_command h a (e.unit_name j.id) j.id)) prepared in
    if not (e.returncode == pos 0)
    then finishes (pos 2) "skip" "start_failed" ran
    else elim (record_start h j.id e.now ran.state) [
      | none ↦ raises ran
      | some noted ↦
          finishes (pos 0) "ok" "started_job" (record ran { state = noted; saved = some noted })
    ]

unfoldable pub start_candidate : Host → LaunchArgs → LaunchEnv → ℤ → JobRow → World → RunEnd
unfolding launch count_recent
start_candidate h a e year j w = elim (count_recent h "starts" j.id (e.now - day) w.state) [
  | none ↦ raises w
  | some n ↦
      if leb a.max_starts n
      then finishes (pos 0) "skip" "max_starts" w
      else if not a.apply
      then finishes (pos 0) "skip" "dry_run_start" w
      else launch h a e year j w
]

abbrev pub disk_is_high : LaunchArgs → Option ℤ → Bool
disk_is_high a none = false
disk_is_high a (some percent) = leb_ℤ a.max_disk_percent percent

abbrev pub year_wanted : Option ℤ → ℤ → ℤ
year_wanted none now = now
year_wanted (some y) now = y

-- No job is stalled: `quiet` is the reason where nothing is to be started, `running` the number of running jobs.
unfoldable pub ensure_running : Host → LaunchArgs → LaunchEnv → String → ℕ → World → RunEnd
unfolding start_candidate select_candidate
ensure_running h a e quiet running w =
    if leb a.ensure_min_running running
    then finishes (pos 0) "skip" quiet w
    else let year = year_wanted a.ensure_year e.year in
      if disk_is_high a e.disk_percent
      then finishes (pos 0) "skip" "start_disk_high" w
      else elim (select_candidate h year w.table) [
        | none ↦ finishes (pos 0) "skip" "no_start_candidates" w
        | some j ↦ start_candidate h a e year j w
      ]
