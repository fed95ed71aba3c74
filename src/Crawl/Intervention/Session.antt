-- ===== src/Crawl/Intervention/Session.antt =====
-- Whole stages: container stops, error counts and the number of adaptations over many messages.
use healtharchive_backend.Base.{
  ℕ, ◌+◌, ◌≤◌, String, Bool, true, ◌≡◌, ◌≢◌, refl, ap, Option, none, some, is_some, List, [], ◌∷◌,
  ◌++◌, arith, ◌==◌, string_eq, inl, inr, Option-cases, if◌then◌else◌,
}
use healtharchive_backend.Base.Int.{ℤ}
use healtharchive_backend.Crawl.Env.{Env}
use healtharchive_backend.Crawl.State.{CrawlState, no_errors}
use healtharchive_backend.Crawl.State.Load.{Persistent, persistent}
use healtharchive_backend.Crawl.State.Progress.{Stats, reset_runtime_errors, update_progress}
use healtharchive_backend.Crawl.State.Updates.{update_progress_lem}
use healtharchive_backend.Crawl.Strategies.{Args, Effect, Shell, stop_container, run_command}
use healtharchive_backend.Crawl.Strategies.{attempt_vpn_rotation, with_command, rotate}
use healtharchive_backend.Crawl.Strategies.Budget.{
  budget, left, actions, attempt_worker_reduction_lem, attempt_container_restart_lem,
}
use healtharchive_backend.Crawl.Strategies.Rotation.{attempt_vpn_rotation_lem}
use healtharchive_backend.Crawl.Monitor.{Message, progress, stalled, error, failure}
use healtharchive_backend.Crawl.Monitor.Signals.{feed}
use healtharchive_backend.Crawl.Intervention.{
  Outcome, back_off, restart_or_back_off, rotate_or_go_on, adapt, handle_message, try_reduction,
  try_rotation, try_restart, status_of,
}
use healtharchive_backend.Crawl.Intervention.Laws.{budget-handle_message}

-- How often the container is stopped.
pub stops : List Effect → ℕ
stops [] = 0
stops (stop_container ∷ rest) = 1 + stops rest
stops (run_command _ ∷ rest) = stops rest

stops-append : (xs ys : List Effect) → stops (xs ++ ys) ≡ stops xs + stops ys
unfolding stops
stops-append [] ys = omega arith
stops-append (stop_container ∷ xs) ys = omega (arith, stops-append xs ys)
stops-append (run_command _ ∷ xs) ys = stops-append xs ys

-- The stage is left for an adaptation.
abbrev pub for_restart : Option String → ℕ
for_restart none = 0
for_restart (some status) = if status == "stopped_for_adaptation" then 1 else 0

-- The errors are cleared unless the stage was left by a stop.
abbrev Cleared : Outcome → Type 0
Cleared o = o.left_with ≢ some "stopped" → o.state.error_counts ≡ no_errors

module _ (e : Env) (shell : Shell) (args : Args) (minutes : ℤ) (stop_in_wait : Bool) where
  stops-try_reduction :
      (s : CrawlState) → let a = try_reduction e args s in stops a.effects ≡ actions a.performed
  unfolding try_reduction stops
  stops-try_reduction s = ground (arith, attempt_worker_reduction_lem e args s)

  stops-try_restart :
      (message : Message) (s : CrawlState)
      → let a = try_restart e args message s in stops a.effects ≡ actions a.performed
  unfolding try_restart stops
  stops-try_restart message s = ground (arith, attempt_container_restart_lem e args s)

  stops-with_command :
      (command : String) (s : CrawlState) → stops (with_command e shell args command s).effects ≡ 0
  unfolding with_command rotate stops
  stops-with_command command s = ground arith

  stops-try_rotation : (s : CrawlState) → stops (try_rotation e shell args s).effects ≡ 0
  unfolding try_rotation attempt_vpn_rotation stops
  stops-try_rotation s = elim (Option-cases args.vpn_connect_command) [
    | inl absent ↦ ground arith
    | inr (command, given) ↦ ground (arith, stops-with_command command s)
  ]

  cleared-try_reduction :
      (s : CrawlState)
      → let a = try_reduction e args s in a.performed ≡ true → a.state.error_counts ≡ no_errors
  unfolding try_reduction
  cleared-try_reduction s h = ground (arith, attempt_worker_reduction_lem e args s)

  cleared-try_rotation :
      (s : CrawlState)
      → let a = try_rotation e shell args s in a.performed ≡ true → a.state.error_counts ≡ no_errors
  unfolding try_rotation
  cleared-try_rotation s h = ground (arith, attempt_vpn_rotation_lem e shell args s)

  cleared-try_restart :
      (message : Message) (s : CrawlState)
      → let a = try_restart e args message s in
        a.performed ≡ true → a.state.error_counts ≡ no_errors
  unfolding try_restart
  cleared-try_restart message s h = ground (arith, attempt_container_restart_lem e args s)

  back_off_lem :
      (effects : List Effect) (s : CrawlState)
      → let o = back_off minutes stop_in_wait effects s in
        (o.effects ≡ effects) × (for_restart o.left_with ≡ 0) × Cleared o
  unfolding back_off reset_runtime_errors
  back_off_lem effects s = ground arith

  stops-restart_or_back_off :
      (message : Message) (effects : List Effect) (s : CrawlState)
      → let o = restart_or_back_off e args minutes stop_in_wait message effects s in
        (stops o.effects ≡ stops effects + for_restart o.left_with) × Cleared o
  unfolding restart_or_back_off
  stops-restart_or_back_off message effects s =
      let a = try_restart e args message s in
      ground (
        arith,
        stops-append effects a.effects,
        stops-try_restart message s,
        cleared-try_restart message s,
        back_off_lem (effects ++ a.effects) a.state,
      )

  stops-rotate_or_go_on :
      (message : Message) (effects : List Effect) (s : CrawlState)
      → let o = rotate_or_go_on e shell args minutes stop_in_wait message effects s in
        (stops o.effects ≡ stops effects + for_restart o.left_with) × Cleared o
  unfolding rotate_or_go_on
  stops-rotate_or_go_on message effects s =
      let a = try_rotation e shell args s in
      ground (
        arith,
        stops-append effects a.effects,
        stops-try_rotation s,
        cleared-try_rotation s,
        stops-restart_or_back_off message (effects ++ a.effects) a.state,
      )

  adapt_lem :
      (message : Message) (s : CrawlState)
      → let o = adapt e shell args minutes stop_in_wait message s in
        (stops o.effects ≡ for_restart o.left_with) × Cleared o
  unfolding adapt stops
  adapt_lem message s =
      let a = try_reduction e args s in
      ground (
        arith,
        stops-try_reduction s,
        cleared-try_reduction s,
        stops-rotate_or_go_on message a.effects a.state,
      )

  -- A reaction stops the container exactly if it leaves the stage for an adaptation, and then once.
  -- After a reaction to any message but one of progress the error counts are zero, unless the stage
  -- was left by a stop.
  pub handle_message_lem :
      (message : Message) (s : CrawlState)
      → let o = handle_message e shell args minutes stop_in_wait message s in
        (stops o.effects ≡ for_restart o.left_with)
        × (message ≢ progress → o.left_with ≢ some "stopped" → o.state.error_counts ≡ no_errors)
  unfolding handle_message status_of stops
  handle_message_lem progress s = (refl, λ h. absurd (h refl))
  handle_message_lem (stalled r) s = ((adapt_lem (stalled r) s).0, λ _. (adapt_lem (stalled r) s).1)
  handle_message_lem (error r) s = ((adapt_lem (error r) s).0, λ _. (adapt_lem (error r) s).1)
  handle_message_lem (failure m) s = ((adapt_lem (failure m) s).0, λ _. (adapt_lem (failure m) s).1)

-- One message of a session: the statistics read before it, and what the reaction meets.
pub record Incident : Type 0 where
  pub statistics : List (Stats × ℕ)
  pub env : Env
  pub shell : Shell
  pub stop_in_wait : Bool
  pub message : Message

-- The state after the incidents, and how many adaptations there were.
pub react_all : Args → ℤ → List Incident → CrawlState → CrawlState × ℕ
react_all args minutes [] s = (s, 0)
react_all args minutes (i ∷ rest) s =
    let o =
      handle_message i.env i.shell args minutes i.stop_in_wait i.message (feed i.statistics s) in
    let (t, n) = react_all args minutes rest o.state in (t, actions (is_some o.adaptation) + n)

persistent-feed :
    (events : List (Stats × ℕ)) (s : CrawlState) → persistent (feed events s) ≡ persistent s
unfolding feed
persistent-feed [] s = refl
persistent-feed ((stats, timestamp) ∷ rest) s = cc (
  persistent-feed rest (update_progress stats timestamp s),
  (update_progress_lem stats timestamp s).4,
)

abbrev pub budget_of : Args → Persistent → ℕ
budget_of args p =
    left args.max_worker_reductions p.worker_reductions
    + left args.max_container_restarts p.container_restarts
    + left args.max_vpn_rotations p.vpn_rotations

budget-feed :
    (args : Args) (events : List (Stats × ℕ)) (s : CrawlState)
    → budget args (feed events s) ≡ budget args s
unfolding budget
budget-feed args events s = ap (budget_of args) (persistent-feed events s)

-- Over a whole session, the adaptations performed and the budget that is left make up the budget at
-- the start: however often the monitor signals, the crawl is adapted at most that often.
pub adaptations_bounded :
    (args : Args) (minutes : ℤ) (incidents : List Incident) (s : CrawlState)
    → let (t, n) = react_all args minutes incidents s in
      (budget args t + n ≡ budget args s) × (n ≤ budget args s)
unfolding react_all
adaptations_bounded args minutes [] s = omega arith
adaptations_bounded args minutes (i ∷ rest) s =
    let f = feed i.statistics s in
    let o = handle_message i.env i.shell args minutes i.stop_in_wait i.message f in
    omega (
      arith,
      budget-handle_message i.env i.shell args minutes i.stop_in_wait i.message f,
      adaptations_bounded args minutes rest o.state,
      budget-feed args i.statistics s,
    )
