-- ===== src/Crawl/Strategies/Budget.antt =====
-- When each strategy of src/archive_tool/strategies.py acts, what it changes, and the budget that it
-- uses up.
use healtharchive_backend.Base.{
  ℕ, ◌+◌, ◌-◌, String, Bool, true, false, ◌≡◌, ◌↔◌, [], ◌∷◌, arith, inl, inr, Option-cases,
}
use healtharchive_backend.Base.Int.{
  ℤ, pos, pos_part, neg_part, ◌+ℤ◌, ◌-ℤ◌, ◌≤ℤ◌, ◌<ℤ◌, +ℤ_parts, -ℤ_parts, eq_of_parts,
}
use healtharchive_backend.Crawl.Env.{Env}
use healtharchive_backend.Crawl.State.{CrawlState, no_errors}
use healtharchive_backend.Crawl.Strategies.{
  Args, Shell, stop_container, attempt_worker_reduction, attempt_container_restart,
  attempt_vpn_rotation, with_command, rotate,
}

-- A worker reduction acts exactly if it is enabled, reductions are left and the workers are above
-- the minimum. It then stops the container, takes one worker away, counts the reduction and clears
-- the errors; if it does not act it changes nothing and stops nothing.
pub attempt_worker_reduction_lem :
    (e : Env) (args : Args) (s : CrawlState)
    → let a = attempt_worker_reduction e args s in
      ((a.performed ≡ true) ↔ (
        (args.enable_adaptive_workers ≡ true)
        × (s.worker_reductions_done <ℤ args.max_worker_reductions)
        × (args.min_workers <ℤ s.current_workers)))
      × (a.performed ≡ true
          → (a.state.current_workers ≡ s.current_workers -ℤ pos 1)
            × (args.min_workers ≤ℤ a.state.current_workers)
            × (a.state.worker_reductions_done ≡ s.worker_reductions_done +ℤ pos 1)
            × (a.state.error_counts ≡ no_errors)
            × (a.effects ≡ stop_container ∷ []))
      × (a.performed ≡ false → (a.state ≡ s) × (a.effects ≡ []))
unfolding attempt_worker_reduction
attempt_worker_reduction_lem e args s = ground (
  arith,
  -ℤ_parts s.current_workers (pos 1),
  eq_of_parts args.min_workers (s.current_workers -ℤ pos 1),
)

-- A container restart acts exactly if it is enabled and restarts are left. It then stops the
-- container, counts the restart, keeps the workers and clears the errors; if it does not act it
-- changes nothing and stops nothing.
pub attempt_container_restart_lem :
    (e : Env) (args : Args) (s : CrawlState)
    → let a = attempt_container_restart e args s in
      ((a.performed ≡ true) ↔ (
        (args.enable_adaptive_restart ≡ true)
        × (pos 0 <ℤ args.max_container_restarts)
        × (s.container_restarts_done <ℤ args.max_container_restarts)))
      × (a.performed ≡ true
          → (a.state.container_restarts_done ≡ s.container_restarts_done +ℤ pos 1)
            × (a.state.current_workers ≡ s.current_workers)
            × (a.state.error_counts ≡ no_errors)
            × (a.effects ≡ stop_container ∷ []))
      × (a.performed ≡ false → (a.state ≡ s) × (a.effects ≡ []))
unfolding attempt_container_restart
attempt_container_restart_lem e args s = ground arith

-- How many more of a strategy's actions its maximum allows.
abbrev pub left : ℤ → ℤ → ℕ
left most done = pos_part most + neg_part done - (pos_part done + neg_part most)

-- How many more actions of any strategy are allowed.
unfoldable pub budget : Args → CrawlState → ℕ
budget args s =
    left args.max_worker_reductions s.worker_reductions_done
    + left args.max_container_restarts s.container_restarts_done
    + left args.max_vpn_rotations s.vpn_rotations_done

-- 1 for an attempt that acted.
abbrev pub actions : Bool → ℕ
actions true = 1
actions false = 0

pub budget-reduction :
    (e : Env) (args : Args) (s : CrawlState)
    → let a = attempt_worker_reduction e args s in
      budget args a.state + actions a.performed ≡ budget args s
unfolding attempt_worker_reduction budget
budget-reduction e args s = ground (arith, +ℤ_parts s.worker_reductions_done (pos 1))

pub budget-restart :
    (e : Env) (args : Args) (s : CrawlState)
    → let a = attempt_container_restart e args s in
      budget args a.state + actions a.performed ≡ budget args s
unfolding attempt_container_restart budget
budget-restart e args s = ground (arith, +ℤ_parts s.container_restarts_done (pos 1))

budget-rotate :
    (e : Env) (shell : Shell) (args : Args) (command : String) (s : CrawlState)
    → s.vpn_rotations_done <ℤ args.max_vpn_rotations
    → let a = rotate e shell command s in budget args a.state + actions a.performed ≡ budget args s
unfolding rotate budget
budget-rotate e shell args command s h = ground (arith, +ℤ_parts s.vpn_rotations_done (pos 1))

budget-with_command :
    (e : Env) (shell : Shell) (args : Args) (command : String) (s : CrawlState)
    → s.vpn_rotations_done <ℤ args.max_vpn_rotations
    → let a = with_command e shell args command s in
      budget args a.state + actions a.performed ≡ budget args s
unfolding with_command
budget-with_command e shell args command s h =
    ground (arith, budget-rotate e shell args command s h)

pub budget-rotation :
    (e : Env) (shell : Shell) (args : Args) (s : CrawlState)
    → let a = attempt_vpn_rotation e shell args s in
      budget args a.state + actions a.performed ≡ budget args s
unfolding attempt_vpn_rotation
budget-rotation e shell args s = elim (Option-cases args.vpn_connect_command) [
  | inl absent ↦ ground arith
  | inr (command, given) ↦ ground (arith, budget-with_command e shell args command s)
]
