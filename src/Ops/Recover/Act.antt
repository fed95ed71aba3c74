-- ===== src/Ops/Recover/Act.antt =====
-- scripts/vps-crawl-auto-recover.py: the recovery of a stalled job.
use healtharchive_backend.Base.{
  ℕ, ◌-◌, ◌*◌, String, Bool, true, false, ◌||◌, ◌&&◌, not, Option, none, some, List, [], ◌∷◌, ◌==◌,
  nat_eq, string_eq, if◌then◌else◌, ltb, leb,
}
use healtharchive_backend.Base.Int.{ℤ, pos, int_eq}
use healtharchive_backend.Json.{Fields}
use healtharchive_backend.Ops.Stale.{
  StaleArgs, StaleEnv, StaleEnd, exits, stale_raised, recover_stale_jobs,
}
use healtharchive_backend.Ops.Recover.Host.{Host}
use healtharchive_backend.Ops.Recover.History.{
  record_recovery, record_recovery_progress, count_recent, is_progress_circuit_open,
}
use healtharchive_backend.Ops.Recover.Runner.{
  JobRunner, no_runner, worker_runner, unknown_runner, unit_runner,
}
use healtharchive_backend.Ops.Recover.Sync.{RunningJob}
use healtharchive_backend.Ops.Recover.Watch.{Sight, age_of}
use healtharchive_backend.Ops.Recover.Prepare.{
  Command, systemctl_stop, systemctl_start, recover_stale, World, RunEnd, finishes, raises,
  run_command, update_config,
}

pub record ActArgs : Type 0 where
  pub apply : Bool
  pub guard_seconds : ℕ
  pub soft_recover_when_guarded : Bool
  pub stall_threshold_seconds : ℕ
  pub recover_older_than_minutes : ℤ
  pub max_recoveries : ℕ
  pub min_progress : ℤ
  pub circuit_window : ℕ

-- What the actions meet: the time, whether the commit of a config works, the commands of `systemctl`, and what
-- `ha-backend recover-stale-jobs` meets.
pub record ActEnv : Type 0 where
  pub now : ℕ
  pub commits : Bool
  pub stops : Bool
  pub stale : StaleEnv
  pub restarts : Bool

-- One day.
abbrev pub day : ℕ
day = 24 * 60 * 60 * 1000000

abbrev pub stale_args : Host → ActArgs → String → StaleArgs
stale_args h a source = record {
  apply = true;
  older_than_minutes = a.recover_older_than_minutes;
  require_no_progress_seconds = some (pos a.stall_threshold_seconds);
  include_missing_started_at = false;
  source = if h.fold source == "" then none else some (h.fold source);
  limit = some (pos 5);
}

-- Whether another job than this one has made progress within the guard window.
unfoldable pub other_recent : ActArgs → ℕ → ℕ → List (RunningJob × Sight) → Bool
unfolding age_of
other_recent a now id [] = false
other_recent a now id ((r, s) ∷ rest) =
    (not (r.job_id == id)
      && elim (age_of now s) [ none ↦ false | some age ↦ ltb age (a.guard_seconds * 1000000) ])
    || other_recent a now id rest

-- The recovery is noted and the state written; `none` is an exception.
unfoldable pub note_recovery : Host → ℕ → ℕ → Option ℤ → Fields → Option Fields
unfolding record_recovery record_recovery_progress
note_recovery h now id crawled state = elim (record_recovery h id now state) [
  | none ↦ none
  | some noted ↦ elim crawled [
    | none ↦ some noted
    | some count ↦ record_recovery_progress h id count now noted
  ]
]

unfoldable pub finish_recovery : Host → ActEnv → ℕ → Option ℤ → String → World → RunEnd
unfolding note_recovery
finish_recovery h e id crawled reason w = elim (note_recovery h e.now id crawled w.state) [
  | none ↦ raises w
  | some noted ↦ finishes (pos 0) "ok" reason (record w { state = noted; saved = some noted })
]

-- `_run` of `ha-backend recover-stale-jobs`: it raises unless the command exits with 0.
unfoldable pub after_stale : StaleEnd → World → (World → RunEnd) → RunEnd
after_stale stale_raised w next = raises w
after_stale (exits code table) w next =
    if code == pos 0 then next (record w { table = table }) else raises (record w { table = table })

unfoldable pub run_stale : Host → ActArgs → ActEnv → String → World → (World → RunEnd) → RunEnd
unfolding after_stale run_command
run_stale h a e source w next =
    after_stale (recover_stale_jobs (stale_args h a source) e.stale w.table)
      (run_command (recover_stale source) w) next

-- A command of `systemctl`; it raises where it fails.
unfoldable pub run_systemctl : Bool → Command → World → (World → RunEnd) → RunEnd
unfolding run_command
run_systemctl works c w next = if works then next (run_command c w) else raises (run_command c w)

-- The unit that a runner is stopped by.
unfoldable pub unit_of : JobRunner → Option String
unit_of (unit_runner unit) = unit
unit_of worker_runner = some "healtharchive-worker.service"
unit_of _ = none

-- The circuit breaker asks for the number of crawled pages; `none` is an exception.
unfoldable pub circuit_of : Host → ActArgs → ℕ → Option ℤ → Fields → Option Bool
unfolding is_progress_circuit_open
circuit_of h a id none state = some false
circuit_of h a id (some current) state =
    is_progress_circuit_open h a.min_progress a.circuit_window id current state

-- What keeps a job from being recovered: the circuit breaker, then the cap of the last day; `none` is an
-- exception, and an empty text is no reason.
unfoldable pub refusal_of : ℕ → String → Option Bool → Option ℕ → Option String
refusal_of cap capped none recent = none
refusal_of cap capped (some true) recent = some "progress_circuit_open"
refusal_of cap capped (some false) none = none
refusal_of cap capped (some false) (some n) = some (if leb cap n then capped else "")

unfoldable pub refusal : Host → ActArgs → ActEnv → ℕ → Option ℤ → String → Fields → Option String
unfolding refusal_of
refusal h a e id crawled capped state =
    refusal_of a.max_recoveries capped (circuit_of h a id crawled state)
      (count_recent h "recoveries" id (e.now - day) state)

-- An end where the job is not refused.
unfoldable pub unless_refused : Option String → World → RunEnd → RunEnd
unless_refused none w next = raises w
unless_refused (some reason) w next =
    if reason == "" then next else finishes (pos 0) "skip" reason w

-- The row is marked without a stop of the worker.
unfoldable pub soft_recover : Host → ActArgs → ActEnv → RunningJob → Option ℤ → World → RunEnd
unfolding refusal unless_refused run_stale finish_recovery update_config
soft_recover h a e job crawled w =
    if not a.soft_recover_when_guarded
    then finishes (pos 0) "skip" "guard_window_healthy_job" w
    else if not a.apply
    then finishes (pos 0) "skip" "dry_run_soft_recover" w
    else unless_refused (refusal h a e job.job_id crawled "max_recoveries_soft" w.state) w (
        run_stale h a e job.source_code
          (update_config h e.commits none job.job_id job.source_code w)
          (finish_recovery h e job.job_id crawled "soft_recovered"))

-- With a unit: it is stopped, the row is marked, and it is started again.
unfoldable pub recover_with :
    Host → ActArgs → ActEnv → RunningJob → Option ℤ → Option String → World → RunEnd
unfolding run_systemctl run_stale finish_recovery
recover_with h a e job crawled none w =
    run_stale h a e job.source_code w (finish_recovery h e job.job_id crawled "full_recovered")
recover_with h a e job crawled (some unit) w =
    run_systemctl e.stops (systemctl_stop unit) w (λ stopped.
      run_stale h a e job.source_code stopped (λ marked.
        run_systemctl e.restarts (systemctl_start unit) marked
          (finish_recovery h e job.job_id crawled "full_recovered")))

unfoldable pub is_unknown : JobRunner → Bool
is_unknown unknown_runner = true
is_unknown _ = false

-- The recovery itself; a runner that is not known is not stopped.
unfoldable pub recover_under :
    Host → ActArgs → ActEnv → RunningJob → JobRunner → Option ℤ → World → RunEnd
unfolding recover_with unit_of is_unknown
recover_under h a e job found crawled w =
    if is_unknown found
    then finishes (pos 2) "skip" "runner_unknown" w
    else recover_with h a e job crawled (unit_of found) w

unfoldable pub full_recover :
    Host → ActArgs → ActEnv → RunningJob → JobRunner → Option ℤ → World → RunEnd
unfolding refusal unless_refused recover_under update_config
full_recover h a e job found crawled w =
    unless_refused (refusal h a e job.job_id crawled "max_recoveries_full" w.state) w (
      if not a.apply
      then finishes (pos 0) "skip" "dry_run_full_recover" w
      else recover_under h a e job found crawled
          (update_config h e.commits none job.job_id job.source_code w))

unfoldable pub is_idle : JobRunner → Bool
is_idle no_runner = true
is_idle _ = false

-- The recovery of the first stalled job: soft where another job progresses and no runner is found.
unfoldable pub recover_job :
    Host
    → ActArgs
    → ActEnv
    → List (RunningJob × Sight)
    → RunningJob
    → JobRunner
    → Option ℤ
    → World
    → RunEnd
unfolding soft_recover full_recover other_recent is_idle
recover_job h a e seen job found crawled w =
    if ltb 0 a.guard_seconds && (other_recent a e.now job.job_id seen && is_idle found)
    then soft_recover h a e job crawled w
    else full_recover h a e job found crawled w
