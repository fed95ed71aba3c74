-- ===== src/Crawl/Intervention.antt =====
-- src/archive_tool/main.py: what the main loop does with a message of the monitor. The strategies are
-- tried in turn until one acts. A strategy that raises is logged there as one that does not act; the
-- strategies of this model raise nothing.
pub mod Laws
pub mod Session
use healtharchive_backend.Base.{
  ℕ, String, Bool, true, false, ◌||◌, Option, none, some, is_some, List, [], ◌∷◌, ◌++◌, ◌==◌,
  string_eq, if◌then◌else◌,
}
use healtharchive_backend.Base.Int.{ℤ, pos, ltb_ℤ}
use healtharchive_backend.Crawl.Env.{Env}
use healtharchive_backend.Crawl.State.{CrawlState}
use healtharchive_backend.Crawl.State.Progress.{reset_runtime_errors}
use healtharchive_backend.Crawl.Strategies.{
  Args, Attempt, Effect, Shell, refused, attempt_worker_reduction, attempt_container_restart,
  attempt_vpn_rotation,
}
use healtharchive_backend.Crawl.Monitor.{Message, progress, stalled, error, failure}

pub data Adaptation : Type 0 where
  worker_reduction vpn_rotation container_restart : Adaptation

-- `left_with` is the status of the stage if the inner loop is left.
pub record Outcome : Type 0 where
  pub adaptation : Option Adaptation
  pub left_with : Option String
  pub state : CrawlState
  pub effects : List Effect

-- `_should_attempt_container_restart`
unfoldable pub should_attempt_container_restart : Bool → Bool → String → String → Bool
should_attempt_container_restart adaptation_performed enable_restart status reason =
    if adaptation_performed
    then false
    else if enable_restart
    then status == "stalled" || (reason == "http_threshold" || reason == "timeout_threshold")
    else false

-- The message's "status" and "reason".
unfoldable pub status_of : Message → String
status_of progress = "progress"
status_of (stalled reason) = "stalled"
status_of (error reason) = "error"
status_of (failure message) = "error"

unfoldable pub reason_of : Message → String
reason_of progress = "N/A"
reason_of (stalled reason) = reason
reason_of (error reason) = reason
reason_of (failure message) = "N/A"

-- No strategy acted: wait, unless that is turned off, and clear the errors unless a stop came.
unfoldable pub back_off : ℤ → Bool → List Effect → CrawlState → Outcome
back_off minutes stop_in_wait effects s =
    let carry_on : Outcome = record {
      adaptation = none;
      left_with = none;
      state = reset_runtime_errors s;
      effects = effects;
    } in
    if ltb_ℤ (pos 0) minutes
    then (if stop_in_wait
        then record { adaptation = none; left_with = some "stopped"; state = s; effects = effects }
        else carry_on)
    else carry_on

-- Each strategy under the main loop's own condition for it.
unfoldable pub try_reduction : Env → Args → CrawlState → Attempt
try_reduction e args s =
    if args.enable_adaptive_workers then attempt_worker_reduction e args s else refused s

unfoldable pub try_rotation : Env → Shell → Args → CrawlState → Attempt
try_rotation e shell args s =
    if args.enable_vpn_rotation then attempt_vpn_rotation e shell args s else refused s

unfoldable pub try_restart : Env → Args → Message → CrawlState → Attempt
try_restart e args message s =
    if should_attempt_container_restart false args.enable_adaptive_restart (status_of message)
      (reason_of message)
    then attempt_container_restart e args s
    else refused s

-- The outcome of an attempt that acted.
abbrev pub acted : Adaptation → Option String → List Effect → Attempt → Outcome
acted adaptation left_with effects a = record {
  adaptation = some adaptation;
  left_with = left_with;
  state = a.state;
  effects = effects ++ a.effects;
}

abbrev pub for_adaptation : Option String
for_adaptation = some "stopped_for_adaptation"

-- The third strategy and the outcome without any.
unfoldable pub restart_or_back_off :
    Env → Args → ℤ → Bool → Message → List Effect → CrawlState → Outcome
restart_or_back_off e args minutes stop_in_wait message effects s =
    let a = try_restart e args message s in
    if a.performed
    then acted container_restart for_adaptation effects a
    else back_off minutes stop_in_wait (effects ++ a.effects) a.state

-- The second strategy and what follows it.
unfoldable pub rotate_or_go_on :
    Env → Shell → Args → ℤ → Bool → Message → List Effect → CrawlState → Outcome
rotate_or_go_on e shell args minutes stop_in_wait message effects s =
    let a = try_rotation e shell args s in
    if a.performed
    then acted vpn_rotation none effects a
    else restart_or_back_off e args minutes stop_in_wait message (effects ++ a.effects) a.state

-- The three strategies in turn.
unfoldable pub adapt : Env → Shell → Args → ℤ → Bool → Message → CrawlState → Outcome
adapt e shell args minutes stop_in_wait message s =
    let a = try_reduction e args s in
    if a.performed
    then acted worker_reduction for_adaptation [] a
    else rotate_or_go_on e shell args minutes stop_in_wait message a.effects a.state

-- The reaction to one message. The test for "error" also takes a monitor failure, whose own branch
-- below it is never reached.
unfoldable pub handle_message : Env → Shell → Args → ℤ → Bool → Message → CrawlState → Outcome
unfolding status_of
handle_message e shell args minutes stop_in_wait message s =
    let ignored : Outcome = record {
      adaptation = none;
      left_with = none;
      state = s;
      effects = [];
    } in
    if status_of message == "progress"
    then ignored
    else if status_of message == "stalled" || status_of message == "error"
    then adapt e shell args minutes stop_in_wait message s
    else ignored
