-- ===== src/Crawl/Strategies.antt =====
-- src/archive_tool/strategies.py: the three adaptive strategies. Stopping a container and running
-- the VPN command are effects that an attempt lists; their outcome comes from outside.
pub mod Budget
pub mod Rotation
use healtharchive_backend.Base.{
  ℕ, ◌+◌, ◌-◌, ◌*◌, String, Bool, true, false, ◌||◌, Option, none, some, List, [], ◌∷◌, ◌==◌,
  string_eq, if◌then◌else◌, ltb,
}
use healtharchive_backend.Base.Int.{ℤ, pos, pos_part, ◌+ℤ◌, ◌-ℤ◌, ltb_ℤ, leb_ℤ, max_ℤ}
use healtharchive_backend.Crawl.Env.{Env}
use healtharchive_backend.Crawl.State.{CrawlState, save_persistent_state}
use healtharchive_backend.Crawl.State.Progress.{reset_runtime_errors, second}

-- The arguments that the strategies and the main loop read; the counts are Python integers.
pub record Args : Type 0 where
  pub enable_adaptive_workers : Bool
  pub max_worker_reductions : ℤ
  pub min_workers : ℤ
  pub enable_adaptive_restart : Bool
  pub max_container_restarts : ℤ
  pub enable_vpn_rotation : Bool
  pub max_vpn_rotations : ℤ
  pub vpn_connect_command : Option String
  pub vpn_rotation_frequency_minutes : ℤ

pub data Effect : Type 0 where
  stop_container : Effect
  run_command : String → Effect

pub record Attempt : Type 0 where
  pub performed : Bool
  pub state : CrawlState
  pub effects : List Effect

abbrev pub refused : CrawlState → Attempt
refused s = record { performed = false; state = s; effects = [] }

unfoldable pub attempt_worker_reduction : Env → Args → CrawlState → Attempt
unfolding reset_runtime_errors save_persistent_state
attempt_worker_reduction e args s =
    if args.enable_adaptive_workers
    then (if leb_ℤ args.max_worker_reductions s.worker_reductions_done
        then refused s
        else if leb_ℤ s.current_workers args.min_workers
        then refused s
        else record {
          performed = true;
          state = save_persistent_state e (
              reset_runtime_errors (record s {
                current_workers = max_ℤ args.min_workers (s.current_workers -ℤ pos 1);
                worker_reductions_done = s.worker_reductions_done +ℤ pos 1;
              }));
          effects = stop_container ∷ [];
        })
    else refused s

unfoldable pub attempt_container_restart : Env → Args → CrawlState → Attempt
unfolding reset_runtime_errors save_persistent_state
attempt_container_restart e args s =
    if args.enable_adaptive_restart
    then (if leb_ℤ args.max_container_restarts (pos 0)
        then refused s
        else if leb_ℤ args.max_container_restarts s.container_restarts_done
        then refused s
        else record {
          performed = true;
          state = save_persistent_state e (
              reset_runtime_errors
                (record s { container_restarts_done = s.container_restarts_done +ℤ pos 1 }));
          effects = stop_container ∷ [];
        })
    else refused s

-- What a rotation meets outside: `shlex.split` (`none` is its exception), `shutil.which`, the clock,
-- the command's success, and whether the stop event is set after the delay.
pub record Shell : Type 0 where
  pub split : String → Option (List String)
  pub which : String → Bool
  pub now : ℕ
  pub command_succeeds : Bool
  pub stop_is_set : Bool

-- The check that the connect command exists.
unfoldable pub command_found : Shell → String → Bool
command_found shell command = elim (shell.split command) [
  | none ↦ false
  | some [] ↦ false
  | some (base ∷ _) ↦ shell.which base
]

-- The frequency check: too soon after the last rotation.
unfoldable pub too_soon : Shell → Args → CrawlState → Bool
too_soon shell args s = elim s.last_vpn_rotation_timestamp [
  | none ↦ false
  | some last ↦
      if ltb_ℤ (pos 0) args.vpn_rotation_frequency_minutes
      then ltb (shell.now - last) (pos_part args.vpn_rotation_frequency_minutes * 60 * second)
      else false
]

-- The command's run and the update that follows it.
unfoldable pub rotate : Env → Shell → String → CrawlState → Attempt
unfolding reset_runtime_errors save_persistent_state
rotate e shell command s =
    let tried : Attempt = record {
      performed = false;
      state = s;
      effects = run_command command ∷ [];
    } in
    if shell.command_succeeds
    then (if shell.stop_is_set then tried else record {
      performed = true;
      state = save_persistent_state e (
          reset_runtime_errors (record s {
            vpn_rotations_done = s.vpn_rotations_done +ℤ pos 1;
            last_vpn_rotation_timestamp = some shell.now;
          }));
      effects = run_command command ∷ [];
    })
    else tried

-- `not args.vpn_connect_command`: no command, or an empty one.
unfoldable pub with_command : Env → Shell → Args → String → CrawlState → Attempt
with_command e shell args command s =
    if command == ""
    then refused s
    else if command_found shell command
    then (if too_soon shell args s then refused s else rotate e shell command s)
    else refused s

unfoldable pub attempt_vpn_rotation : Env → Shell → Args → CrawlState → Attempt
attempt_vpn_rotation e shell args s =
    if args.enable_vpn_rotation
    then (if leb_ℤ args.max_vpn_rotations s.vpn_rotations_done
        then refused s
        else elim args.vpn_connect_command [
          | none ↦ refused s
          | some command ↦ with_command e shell args command s
        ])
    else refused s
