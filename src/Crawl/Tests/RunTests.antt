-- ===== src/Crawl/Tests/RunTests.antt =====
-- The laws of the strategies, the monitor and the interventions at a concrete crawl.
use healtharchive_backend.Base.{
  true, false, ◌≡◌, ◌≢◌, ◌+◌, ◌*◌, ◌≤◌, ◌||◌, some, List, [], ◌∷◌, refl, arith, length,
  if◌then◌else◌,
}
use healtharchive_backend.Base.Int.{pos, leb_ℤ, ◌+ℤ◌}
use healtharchive_backend.Crawl.State.{no_errors}
use healtharchive_backend.Crawl.State.Progress.{second, update_progress}
use healtharchive_backend.Crawl.State.Load.{persistent}
use healtharchive_backend.Crawl.Strategies.{
  Args, Attempt, Shell, attempt_vpn_rotation, rotate, with_command, command_found, too_soon,
}
use healtharchive_backend.Crawl.Strategies.Budget.{budget}
use healtharchive_backend.Crawl.Strategies.Rotation.{rotations_apart}
use healtharchive_backend.Crawl.Monitor.{check, stalled, progress, no_stats_due, stall_due}
use healtharchive_backend.Crawl.Monitor.Signals.{feed, check_lem, check_quiet, stall_found}
use healtharchive_backend.Crawl.Intervention.{handle_message}
use healtharchive_backend.Crawl.Intervention.Session.{
  Incident, react_all, stops, for_restart, adaptations_bounded, handle_message_lem,
}
use healtharchive_backend.Crawl.Tests.{
  settled_env, crawl, adaptive, working_shell, monitored, stuck,
}

-- The crawl stalls twice, with statistics before the first message.
abbrev incidents : List Incident
incidents =
    record {
      statistics = (stuck, 2 * second) ∷ [];
      env = settled_env;
      shell = working_shell;
      stop_in_wait = false;
      message = stalled "timeout";
    }
    ∷ record {
      statistics = [];
      env = settled_env;
      shell = working_shell;
      stop_in_wait = false;
      message = stalled "timeout";
    }
    ∷ []

adaptations_bounded_example :
    let (t, n) = react_all adaptive (pos 1) incidents crawl in
    (budget adaptive t + n ≡ budget adaptive crawl) × (n ≤ budget adaptive crawl)
adaptations_bounded_example = adaptations_bounded adaptive (pos 1) incidents crawl

handle_message_lem_example :
    let o =
      handle_message settled_env working_shell adaptive (pos 1) false (stalled "timeout") crawl in
    (stops o.effects ≡ for_restart o.left_with)
    × (stalled "timeout" ≢ progress
        → o.left_with ≢ some "stopped"
        → o.state.error_counts ≡ no_errors)
handle_message_lem_example =
    handle_message_lem settled_env working_shell adaptive (pos 1) false (stalled "timeout") crawl

check_lem_example :
    let (messages, t, signaled) = check monitored (2 * second) crawl in
    (signaled ≡ (
      no_stats_due monitored (2 * second) crawl
      || (stall_due monitored (2 * second) crawl
          || (leb_ℤ (pos 10) (pos 3) || leb_ℤ (pos 10) (pos 1)))))
    × (length messages ≡ (if signaled then 1 else 0))
    × (signaled ≡ true → t.error_counts ≡ no_errors)
    × (signaled ≡ false → t ≡ crawl)
    × (persistent t ≡ persistent crawl)
check_lem_example = check_lem monitored (2 * second) crawl

check_quiet_example :
    let t = (check monitored (400 * second) crawl).1 in
    check monitored (500 * second) t ≡ ([], t, false)
unfolding stall_due no_stats_due
check_quiet_example =
    check_quiet monitored (400 * second) (500 * second) crawl (omega arith) (omega arith)
      (omega arith) (omega arith) (λ e. cc) refl refl

stall_found_example :
    (check monitored (400 * second) (feed ((stuck, 390 * second) ∷ []) crawl)).0
    ≡ stalled "timeout" ∷ []
unfolding feed update_progress
stall_found_example =
    stall_found monitored ((stuck, 390 * second) ∷ []) crawl second (400 * second) refl refl
      (refl, tt) (ground arith) (ground arith) (ground arith) (omega arith)

-- More than one rotation is allowed.
abbrev patient : Args
patient = record adaptive { max_vpn_rotations = pos 3 }

abbrev rotated : Attempt
rotated = attempt_vpn_rotation settled_env working_shell patient crawl

-- Three minutes later.
abbrev later_shell : Shell
later_shell = record working_shell { now = working_shell.now + 180 * second }

rotates : rotated.performed ≡ true
unfolding attempt_vpn_rotation with_command command_found too_soon rotate
rotates = refl

rotates_again :
    (attempt_vpn_rotation settled_env later_shell patient rotated.state).performed ≡ true
unfolding attempt_vpn_rotation with_command command_found too_soon rotate ◌+ℤ◌
rotates_again = refl

rotations_apart_example : working_shell.now + 2 * 60 * second ≤ later_shell.now
rotations_apart_example =
    rotations_apart settled_env settled_env working_shell later_shell patient crawl rotated.state
      rotates refl (omega arith) (omega arith) rotates_again
