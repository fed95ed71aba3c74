-- ===== src/Crawl/Strategies/Rotation.antt =====
-- When a VPN rotation acts (src/archive_tool/strategies.py, `attempt_vpn_rotation`), and how far apart
-- rotations are.
use healtharchive_backend.Base.{
  ℕ, ◌+◌, ◌*◌, ◌≤◌, String, true, false, ◌≡◌, ◌↔◌, some, [], ◌∷◌, arith, inl, inr, Option-cases,
  ◌==◌, string_eq, ◌∙◌,
}
use healtharchive_backend.Base.Int.{pos, pos_part, ◌+ℤ◌, ◌<ℤ◌}
use healtharchive_backend.Crawl.Env.{Env}
use healtharchive_backend.Crawl.State.{CrawlState, no_errors}
use healtharchive_backend.Crawl.State.Progress.{second}
use healtharchive_backend.Crawl.Strategies.{
  Args, Shell, run_command, attempt_vpn_rotation, with_command, command_found, too_soon, rotate,
}

-- A rotation with a command acts exactly if all checks pass, the command succeeds and no stop is asked for.
with_command_iff :
    (e : Env) (shell : Shell) (args : Args) (command : String) (s : CrawlState)
    → ((with_command e shell args command s).performed ≡ true) ↔ (
        ((command == "") ≡ false)
        × (command_found shell command ≡ true)
        × (too_soon shell args s ≡ false)
        × (shell.command_succeeds ≡ true)
        × (shell.stop_is_set ≡ false))
unfolding with_command rotate
with_command_iff e shell args command s = ground arith

-- What a rotation with a command changes.
with_command_effect :
    (e : Env) (shell : Shell) (args : Args) (command : String) (s : CrawlState)
    → let a = with_command e shell args command s in
      (a.performed ≡ true
        → (a.state.vpn_rotations_done ≡ s.vpn_rotations_done +ℤ pos 1)
          × (a.state.last_vpn_rotation_timestamp ≡ some shell.now)
          × (a.state.current_workers ≡ s.current_workers)
          × (a.state.error_counts ≡ no_errors)
          × (a.effects ≡ run_command command ∷ []))
      × (a.performed ≡ false → a.state ≡ s)
unfolding with_command rotate
with_command_effect e shell args command s = ground arith

-- A rotation that acts was enabled and had rotations left; it counts itself, notes its time, clears
-- the errors and keeps the workers. A rotation that does not act leaves the state as it was.
pub attempt_vpn_rotation_lem :
    (e : Env) (shell : Shell) (args : Args) (s : CrawlState)
    → let a = attempt_vpn_rotation e shell args s in
      (a.performed ≡ true
        → (args.enable_vpn_rotation ≡ true)
          × (s.vpn_rotations_done <ℤ args.max_vpn_rotations)
          × (a.state.vpn_rotations_done ≡ s.vpn_rotations_done +ℤ pos 1)
          × (a.state.last_vpn_rotation_timestamp ≡ some shell.now)
          × (a.state.current_workers ≡ s.current_workers)
          × (a.state.error_counts ≡ no_errors))
      × (a.performed ≡ false → a.state ≡ s)
unfolding attempt_vpn_rotation
attempt_vpn_rotation_lem e shell args s = elim (Option-cases args.vpn_connect_command) [
  | inl absent ↦ ground arith
  | inr (command, given) ↦ ground (arith, with_command_effect e shell args command s)
]

-- `too_soon` is the interval between rotations.
not_too_soon :
    (shell : Shell) (args : Args) (s : CrawlState) (last : ℕ)
    → s.last_vpn_rotation_timestamp ≡ some last
    → pos 0 <ℤ args.vpn_rotation_frequency_minutes
    → last ≤ shell.now
    → too_soon shell args s ≡ false
    → last + pos_part args.vpn_rotation_frequency_minutes * 60 * second ≤ shell.now
unfolding too_soon
not_too_soon shell args s last e h le k = ground arith

rotation_after :
    (e : Env) (shell : Shell) (args : Args) (s : CrawlState) (last : ℕ)
    → s.last_vpn_rotation_timestamp ≡ some last
    → pos 0 <ℤ args.vpn_rotation_frequency_minutes
    → last ≤ shell.now
    → (attempt_vpn_rotation e shell args s).performed ≡ true
    → last + pos_part args.vpn_rotation_frequency_minutes * 60 * second ≤ shell.now
unfolding attempt_vpn_rotation
rotation_after e shell args s last noted positive le h =
    elim (Option-cases args.vpn_connect_command) [
      | inl absent ↦ ground arith
      | inr (command, given) ↦ ground (
        arith,
        with_command_iff e shell args command s,
        not_too_soon shell args s last noted positive le,
      )
    ]

-- Two rotations that act are at least the configured minutes apart, if these are positive and the clock has not
-- gone back: the later one meets a state whose time of a rotation is still the one that the earlier one left.
pub rotations_apart :
    (e later_e : Env) (shell later : Shell) (args : Args) (s t : CrawlState)
    → (attempt_vpn_rotation e shell args s).performed ≡ true
    → t.last_vpn_rotation_timestamp
      ≡ (attempt_vpn_rotation e shell args s).state.last_vpn_rotation_timestamp
    → pos 0 <ℤ args.vpn_rotation_frequency_minutes
    → shell.now ≤ later.now
    → (attempt_vpn_rotation later_e later args t).performed ≡ true
    → shell.now + pos_part args.vpn_rotation_frequency_minutes * 60 * second ≤ later.now
rotations_apart e later_e shell later args s t first same positive le second_one =
    let noted = ((attempt_vpn_rotation_lem e shell args s).0 first).3 in
    rotation_after later_e later args t shell.now (same ∙ noted) positive le second_one
