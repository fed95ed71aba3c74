-- ===== src/Crawl/Intervention/Laws.antt =====
-- What the reactions of the main loop to the monitor's messages add up to.
use healtharchive_backend.Base.{◌+◌, Bool, ◌≡◌, refl, is_some, List, ◌++◌, arith}
use healtharchive_backend.Base.Int.{ℤ}
use healtharchive_backend.Crawl.Env.{Env}
use healtharchive_backend.Crawl.State.{CrawlState}
use healtharchive_backend.Crawl.State.Progress.{reset_runtime_errors}
use healtharchive_backend.Crawl.Strategies.{Args, Effect, Shell}
use healtharchive_backend.Crawl.Strategies.Budget.{
  budget, actions, budget-reduction, budget-restart, budget-rotation,
}
use healtharchive_backend.Crawl.Monitor.{Message}
use healtharchive_backend.Crawl.Intervention.{
  back_off, restart_or_back_off, adapt, handle_message, rotate_or_go_on, try_reduction,
  try_rotation, try_restart,
}

budget-reset : (args : Args) (s : CrawlState) → budget args (reset_runtime_errors s) ≡ budget args s
unfolding reset_runtime_errors budget
budget-reset args s = refl

module _ (e : Env) (shell : Shell) (args : Args) (minutes : ℤ) (stop_in_wait : Bool) where
  budget-back_off :
      (effects : List Effect) (s : CrawlState)
      → let o = back_off minutes stop_in_wait effects s in
        budget args o.state + actions (is_some o.adaptation) ≡ budget args s
  unfolding back_off
  budget-back_off effects s = ground (arith, budget-reset args s)

  budget-try_reduction :
      (s : CrawlState)
      → let a = try_reduction e args s in budget args a.state + actions a.performed ≡ budget args s
  unfolding try_reduction
  budget-try_reduction s = ground (arith, budget-reduction e args s)

  budget-try_rotation :
      (s : CrawlState)
      → let a = try_rotation e shell args s in
        budget args a.state + actions a.performed ≡ budget args s
  unfolding try_rotation
  budget-try_rotation s = ground (arith, budget-rotation e shell args s)

  budget-try_restart :
      (message : Message) (s : CrawlState)
      → let a = try_restart e args message s in
        budget args a.state + actions a.performed ≡ budget args s
  unfolding try_restart
  budget-try_restart message s = ground (arith, budget-restart e args s)

  budget-restart_or_back_off :
      (message : Message) (effects : List Effect) (s : CrawlState)
      → let o = restart_or_back_off e args minutes stop_in_wait message effects s in
        budget args o.state + actions (is_some o.adaptation) ≡ budget args s
  unfolding restart_or_back_off
  budget-restart_or_back_off message effects s =
      let a = try_restart e args message s in
      ground (arith, budget-try_restart message s, budget-back_off (effects ++ a.effects) a.state)

  budget-rotate_or_go_on :
      (message : Message) (effects : List Effect) (s : CrawlState)
      → let o = rotate_or_go_on e shell args minutes stop_in_wait message effects s in
        budget args o.state + actions (is_some o.adaptation) ≡ budget args s
  unfolding rotate_or_go_on
  budget-rotate_or_go_on message effects s =
      let a = try_rotation e shell args s in
      ground (
        arith,
        budget-try_rotation s,
        budget-restart_or_back_off message (effects ++ a.effects) a.state,
      )

  -- An adaptation takes one from the budget, and a reaction without one takes nothing.
  pub budget-handle_message :
      (message : Message) (s : CrawlState)
      → let o = handle_message e shell args minutes stop_in_wait message s in
        budget args o.state + actions (is_some o.adaptation) ≡ budget args s
  unfolding handle_message adapt
  budget-handle_message message s =
      let a = try_reduction e args s in
      ground (arith, budget-try_reduction s, budget-rotate_or_go_on message a.effects a.state)
