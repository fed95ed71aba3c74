-- ===== src/Crawl/Stages.antt =====
-- src/archive_tool/main.py: the stages of a crawl. Each iteration of the outer loop starts a container,
-- watches it in the inner loop and decides what comes next. What one iteration meets outside is a
-- `StageEnv`; the event that stops the threads is a Boolean that is never cleared.
pub mod Watch
pub mod Prepare
pub mod Final
pub mod Within
pub mod Ends
pub mod Command
pub mod Outcome
pub mod Spoiled
pub mod Success
use healtharchive_backend.Base.{
  ℕ, zero, suc, ◌+◌, String, Bool, true, false, ◌||◌, ◌&&◌, not, Option, none, some, List, [], ◌∷◌,
  ◌==◌, string_eq, if◌then◌else◌, leb, contains, ltb,
}
use healtharchive_backend.Base.Int.{ℤ, pos, int_eq, ltb_ℤ}
use healtharchive_backend.Crawl.State.{CrawlState}
use healtharchive_backend.Crawl.State.TempDirs.{add_temp_dir}
use healtharchive_backend.Crawl.Monitor.{Message}
use healtharchive_backend.Crawl.Stages.Watch.{RunArgs, Watched, watch, discover}
use healtharchive_backend.Docker.{RequiredArgs, build_zimit_args}
use healtharchive_backend.Crawl.Stages.Final.{FinalEnv, Exit, uncaught, finish_run}
use healtharchive_backend.Crawl.Stages.Prepare.{
  StageEnv, Prepared, ready, bad_state, prepare, reset_for_stage,
}

abbrev pub max_crawl_stages : ℕ
max_crawl_stages = 100

-- The variables of the outer loop.
pub record Loop : Type 0 where
  pub stage_name : String
  pub attempt : ℕ
  pub stop : Bool
  pub state : CrawlState
  pub queue : List Message

-- How an iteration ends: with another one, with a `break` under a final status, or with an exception.
pub data Step : Type 0 where
  again : Loop → Step
  leaves : String → Bool → CrawlState → Step
  raises : Step

-- Exit codes 16, 32 and 33 of the crawler count as a success.
abbrev pub acceptable_crawler_exit_codes : List ℤ
acceptable_crawler_exit_codes = pos 16 ∷ pos 32 ∷ pos 33 ∷ []

-- The process's code: `returncode`, or one more `poll()`.
unfoldable pub final_rc : StageEnv → Option ℤ
final_rc e = elim e.returncode [ none ↦ e.poll_again | some rc ↦ some rc ]

-- A process that still seems to run fails the stage, unless it was stopped on purpose.
unfoldable pub status_after_exit : Option ℤ → String → String
status_after_exit (some rc) status = status
status_after_exit none status =
    if status == "stopped" || status == "stopped_for_adaptation" then status else "failed"

unfoldable pub is_success : Option ℤ → Bool
is_success none = false
is_success (some rc) = rc == pos 0 || contains acceptable_crawler_exit_codes rc

-- A stage that no status has ended is judged by the exit code.
unfoldable pub judge : Bool → String → String
judge success status =
    if status == "running" || status == "running_no_monitor"
    then (if success then "success" else "failed")
    else status

unfoldable pub stage_status : StageEnv → String → String
unfolding final_rc status_after_exit is_success judge
stage_status e watched = let rc = final_rc e in judge (is_success rc) (status_after_exit rc watched)

-- The delay before a resume; it ends at once, and the loop with it, if the stop event is set.
unfoldable pub resume_after_backoff : RunArgs → StageEnv → Loop → Step
resume_after_backoff args e l =
    if ltb_ℤ (pos 0) args.backoff_delay_minutes
    then (if l.stop || e.stop_in_backoff
        then leaves "stopped" true l.state
        else again (record l { stage_name = "Resume Crawl" }))
    else again (record l { stage_name = "Resume Crawl" })

-- What follows a stage with this status.
unfoldable pub decide : RunArgs → StageEnv → String → Loop → Step
unfolding resume_after_backoff
decide args e status l =
    if status == "success"
    then leaves "pending_final_build" l.stop l.state
    else if status == "stopped_for_adaptation"
    then resume_after_backoff args e l
    else if status == "stopped"
    then leaves "stopped" l.stop l.state
    else if leb max_crawl_stages l.attempt
    then leaves "failed_max_attempts" l.stop l.state
    else resume_after_backoff args e (record l { attempt = l.attempt + 1 })

-- The temporary directory of the stage is recorded; `none` is an exception.
unfoldable pub record_temp_dir : StageEnv → CrawlState → Option CrawlState
record_temp_dir e s = elim e.temp_dir [ none ↦ some s | some path ↦ add_temp_dir e.env path s ]

-- A monitor for this stage.
unfoldable pub is_monitored : RunArgs → StageEnv → Bool → Bool
is_monitored args e has_id = has_id && (args.enable_monitoring && e.monitor_starts)

-- After the inner loop: a monitor that is still alive is stopped by the event that it shares with the
-- main loop.
unfoldable pub end_stage : RunArgs → StageEnv → Bool → String → ℕ → Watched → Step
unfolding stage_status decide record_temp_dir is_monitored
end_stage args e has_id name attempt w = elim (record_temp_dir e w.state) [
  | none ↦ raises
  | some s ↦ decide args e (stage_status e w.status) (record {
    stage_name = name;
    attempt = attempt;
    stop = w.stop || (is_monitored args e has_id && e.alive_at_end);
    state = s;
    queue = w.queue;
  })
]

-- The container runs: the state is reset for the stage and the inner loop watches it.
unfoldable pub watch_stage : RunArgs → StageEnv → Bool → String → Loop → CrawlState → Step
unfolding end_stage is_monitored
watch_stage args e has_id name l s =
    let status = if has_id then "running" else "running_no_monitor" in
    end_stage args e has_id name l.attempt (
      watch args (is_monitored args e has_id) e.rounds (record {
        status = status;
        state = discover args e.env e.discovered (reset_for_stage s);
        stop = l.stop;
        queue = l.queue;
      }))

-- What the container runs.
unfoldable pub stage_command : RunArgs → List String → CrawlState → List String
stage_command args extra s =
    build_zimit_args args.passthrough (record { seeds = some args.seeds; name = some args.name })
      s.current_workers false extra

-- One iteration of the outer loop.
unfoldable pub run_stage : RunArgs → StageEnv → Loop → Step
unfolding watch_stage stage_command
run_stage args e l =
    elim (prepare e l.stage_name (record l.state { stage_start_time = some e.start_time })) [
      | bad_state s ↦ leaves "failed_state_error" l.stop s
      | ready name extra s ↦ elim (e.container (stage_command args extra s)) [
        | none ↦ leaves "docker_start_failed" l.stop s
        | some has_id ↦ watch_stage args e has_id name l s
      ]
    ]

-- How the outer loop ends. `out_of_fuel` is no result.
pub data Ended : Type 0 where
  ended : String → Bool → CrawlState → Ended
  crashed : Ended
  out_of_fuel : Ended

-- The outer loop; the iterations are numbered from `k` on.
unfoldable pub crawl_loop : ℕ → RunArgs → (ℕ → StageEnv) → ℕ → Loop → Ended
crawl_loop zero args envs k l = out_of_fuel
crawl_loop (suc fuel) args envs k l =
    let stop = l.stop || (envs k).signal_before in
    if leb l.attempt max_crawl_stages && not stop
    then elim (run_stage args (envs k) (record l { stop = stop })) [
      | again next ↦ crawl_loop fuel args envs (suc k) next
      | leaves status stop' s ↦ ended status stop' s
      | raises ↦ crashed
    ]
    else ended "failed" stop l.state

-- The outer loop and the end of the run; `none` if the fuel runs out.
unfoldable pub conclude : RunArgs → FinalEnv → Ended → Option Exit
unfolding finish_run
conclude args e (ended status stop s) = some (finish_run args e status stop s)
conclude args e crashed = some uncaught
conclude args e out_of_fuel = none
