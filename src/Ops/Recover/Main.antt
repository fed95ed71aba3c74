-- ===== src/Ops/Recover/Main.antt =====
-- `main` of scripts/vps-crawl-auto-recover.py.
use healtharchive_backend.Base.{
  ℕ, String, Bool, true, false, ◌||◌, ◌&&◌, not, Option, none, some, is_some, List, [], ◌∷◌, ◌==◌,
  nat_eq, string_eq, if◌then◌else◌, some_of, length,
}
use healtharchive_backend.Base.Int.{ℤ, pos, ltb_ℤ}
use healtharchive_backend.Json.{Json, Fields, obj, end, field}
use healtharchive_backend.Registry.Templates.{set_item}
use healtharchive_backend.Ops.{JobTable, Stat, Probe, deploy_lock_is_active}
use healtharchive_backend.Ops.Logs.{LogFiles, find_job_log, parse_crawl_log_progress}
use healtharchive_backend.Ops.Recover.Host.{Host}
use healtharchive_backend.Ops.Recover.Runner.{
  JobRunner, Processes, held_job_lock_job_ids, detect_job_runner,
}
use healtharchive_backend.Ops.Recover.Sync.{
  RunningJob, sync_table, running_jobs, reconcile_scopes, count_rewrites,
}
use healtharchive_backend.Ops.Recover.Watch.{
  WatchArgs, Sight, sights, stalled_of, is_degraded, Streaks, streak, count_of, load_streaks,
  update_streaks, streaks_json,
}
use healtharchive_backend.Ops.Recover.Prepare.{World, RunEnd, finishes, quits, raises}
use healtharchive_backend.Ops.Recover.Act.{ActArgs, ActEnv, recover_job}
use healtharchive_backend.Ops.Recover.Start.{LaunchArgs, LaunchEnv, ensure_running}

-- `apply` of the parts is that of the whole.
pub record RecoverArgs : Type 0 where
  pub apply : Bool
  pub watch : WatchArgs
  pub act : ActArgs
  pub launch : LaunchArgs
  pub simulated_runner : Option JobRunner
  pub state_file : String
  pub lock_file : String
  pub textfile_out_dir : String
  pub textfile_out_file : String
  pub deploy_lock_max_age : ℕ

-- What the run meets. `state_file` is the JSON value of the state file, none where there is no file or no
-- JSON in it. `processes` is seen before the repair of the table, `later` where the runner is looked for.
-- The times of the parts are that of the whole.
pub record RecoverEnv : Type 0 where
  pub now : ℕ
  pub sentinel : Bool
  pub lock_free : Bool
  pub deploy_stat : Stat
  pub deploy_probe : Probe
  pub state_json : Option Json
  pub processes : Processes
  pub files : LogFiles
  pub later : Processes
  pub act : ActEnv
  pub launch : LaunchEnv

abbrev pub is_drill : RecoverArgs → Bool
is_drill a = elim a.watch.simulated [ [] ↦ false | _ ∷ _ ↦ true ]

abbrev pub act_args : RecoverArgs → ActArgs
act_args a = record a.act {
  apply = a.apply;
  stall_threshold_seconds = a.watch.stall_threshold_seconds;
}

abbrev pub launch_args : RecoverArgs → LaunchArgs
launch_args a = record a.launch { apply = a.apply }

abbrev pub act_env : RecoverEnv → ActEnv
act_env e = record e.act { now = e.now }

abbrev pub launch_env : RecoverEnv → LaunchEnv
launch_env e = record e.launch { now = e.now }

-- One of the paths is the one of production.
unfoldable pub uses_production : RecoverArgs → Bool
uses_production a =
    a.state_file == "/srv/healtharchive/ops/watchdog/crawl-auto-recover.json"
    || (a.lock_file == "/srv/healtharchive/ops/watchdog/crawl-auto-recover.lock"
        || (a.textfile_out_dir == "/var/lib/node_exporter/textfile_collector"
            || a.textfile_out_file == "healtharchive_crawl_auto_recover.prom"))

-- The checks of the arguments for a drill.
unfoldable pub is_misused : RecoverArgs → Bool
unfolding uses_production
is_misused a =
    is_some a.simulated_runner && not (is_drill a)
    || (is_drill a && (is_some a.simulated_runner && not (length a.watch.simulated == 1))
        || (is_drill a && (a.apply || uses_production a)))

-- `_load_state`
unfoldable pub load_state : Option Json → Json
load_state none = obj (field "recoveries" (obj end) end)
load_state (some v) = v

-- The number of crawled pages in the log of a job; the outer `none` is an exception.
unfoldable pub crawled_now : LogFiles → RunningJob → Option (Option ℤ)
crawled_now files r = elim (find_job_log files r.combined_log_path r.output_dir) [
  | none ↦ some none
  | some path ↦ elim (parse_crawl_log_progress files path) [
    | none ↦ none
    | some none ↦ some none
    | some (some p) ↦ some (some p.last_status.crawled)
  ]
]

-- The first stalled job: its runner, its pages, its recovery.
unfoldable pub recover_first :
    Host → RecoverArgs → RecoverEnv → List (RunningJob × Sight) → RunningJob → World → RunEnd
unfolding crawled_now recover_job detect_job_runner
recover_first h a e seen job w =
    elim (detect_job_runner h e.later (if is_drill a then a.simulated_runner else none) job.job_id
      job.output_dir) [
        | none ↦ raises w
        | some runner ↦ elim (crawled_now e.files job) [
          | none ↦ raises w
          | some crawled ↦ recover_job h (act_args a) (act_env e) seen job runner crawled w
        ]
      ]

-- Whether a degraded job has reached the number of runs.
unfoldable pub threshold_hit : Host → WatchArgs → ℕ → Streaks → List (RunningJob × Sight) → Bool
unfolding is_degraded streak
threshold_hit h a now d seen =
    some_of
      (λ (p : RunningJob × Sight).
        is_degraded h a now p.0 p.1
        && not (ltb_ℤ (count_of (streak (pos p.0.job_id) d)) (pos a.degraded_min_runs)))
      seen

abbrev pub quiet_reason : Bool → String
quiet_reason hit = if hit then "degraded_observe" else "no_stalled_jobs"

-- After the streaks: the recovery of the first stalled job, or perhaps a start.
unfoldable pub decide_run :
    Host → RecoverArgs → RecoverEnv → List (RunningJob × Sight) → Streaks → World → RunEnd
unfolding recover_first threshold_hit ensure_running stalled_of
decide_run h a e seen d w = elim (stalled_of a.watch e.now seen) [
  | [] ↦
      ensure_running h (launch_args a) (launch_env e)
        (quiet_reason (threshold_hit h a.watch e.now d seen)) (length seen) w
  | job ∷ _ ↦ recover_first h a e seen job w
]

-- The streaks are updated and the state written.
unfoldable pub watch_run :
    Host → RecoverArgs → RecoverEnv → List (RunningJob × Sight) → JobTable → Fields → RunEnd
unfolding decide_run load_streaks update_streaks streaks_json
watch_run h a e seen table state =
    let d = update_streaks h a.watch e.now seen (load_streaks h state) in
    let noted = set_item "degraded_streaks" (obj (streaks_json d)) state in
    decide_run h a e seen d
      (record { table = table; state = noted; saved = some noted; commands = [] })

abbrev pub bare_world : JobTable → World
bare_world table = record { table = table; state = end; saved = none; commands = [] }

-- The state with the number of rewrites, where there were some; `none` is an exception.
unfoldable pub counted_state : Host → Bool → ℕ → Json → Option Fields
unfolding count_rewrites
counted_state h write n (obj state) =
    if write && not (n == 0) then count_rewrites h n state else some state
counted_state h write n _ = none

unfoldable pub after_scopes :
    Host → RecoverArgs → RecoverEnv → List RunningJob → JobTable → ℕ → RunEnd
unfolding watch_run counted_state sights load_state
after_scopes h a e running table n =
    elim (counted_state h (a.apply && not (is_drill a)) n (load_state e.state_json)) [
      | none ↦ raises (bare_world table)
      | some state ↦ elim (sights a.watch e.files running) [
        | none ↦ raises (bare_world table)
        | some seen ↦ watch_run h a e seen table state
      ]
    ]

-- The scope arguments of the running jobs, then the watch; `write` is `args.apply and not simulate_mode`.
unfoldable pub run_scopes : Host → RecoverArgs → RecoverEnv → Bool → JobTable → RunEnd
unfolding after_scopes reconcile_scopes running_jobs
run_scopes h a e write synced =
    let running = running_jobs a.watch.simulated synced in
    elim (reconcile_scopes h write running synced) [
      | none ↦ raises (bare_world synced)
      | some (after, n) ↦ after_scopes h a e running after n
    ]

abbrev pub writes : RecoverArgs → Bool
writes a = a.apply && not (is_drill a)

unfoldable pub run_passes : Host → RecoverArgs → RecoverEnv → List ℕ → JobTable → RunEnd
unfolding run_scopes sync_table
run_passes h a e held table =
    run_scopes h a e (writes a) (sync_table (writes a) e.now held e.processes.ps_rows table)

unfoldable pub auto_recover : Host → RecoverArgs → RecoverEnv → JobTable → RunEnd
unfolding run_passes is_misused
auto_recover h a e table =
    if is_misused a
    then quits (pos 2) (bare_world table)
    else if not e.sentinel && not (is_drill a)
    then finishes (pos 0) "skip" "disabled" (bare_world table)
    else if not e.lock_free
    then quits (pos 0) (bare_world table)
    else if deploy_lock_is_active e.now a.deploy_lock_max_age e.deploy_stat e.deploy_probe
        && not (is_drill a)
    then finishes (pos 0) "skip" "deploy_lock" (bare_world table)
    else elim (held_job_lock_job_ids e.processes.lock_files) [
      | none ↦ raises (bare_world table)
      | some held ↦ run_passes h a e held table
    ]
