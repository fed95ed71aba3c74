-- ===== src/Contract/Switches.antt =====
-- The switches among the arguments that `_build_tool_extra_args` of src/ha_backend/jobs.py builds.
use healtharchive_backend.Base.{
  String, Bool, false, ◌≡◌, refl, ◌&&◌, ◌||◌, ◌∙◌, Option, none, some, List, [], ◌∷◌, ◌++◌, ◌==◌,
  string_eq, if◌then◌else◌, arith, inl, inr, Option-cases,
}
use healtharchive_backend.Json.{Json, Fields, null, bool, int, float, str, arr, obj, end, field}
use healtharchive_backend.Contract.{Python, ArchiveToolOptions, strip_or_empty}
use healtharchive_backend.Contract.Command.{
  ToolArg, switch, setting, number_args, text_args, config_args, monitoring_args,
  adaptive_workers_args, vpn_args, restart_args, backoff_args, switches, build_tool_extra_args,
}

-- The switch is among the arguments.
abbrev pub has_switch : String → List ToolArg → Bool
has_switch name [] = false
has_switch name (switch other ∷ rest) = other == name || has_switch name rest
has_switch name (setting option value ∷ rest) = has_switch name rest

has_switch-append :
    (name : String) (xs ys : List ToolArg)
    → has_switch name (xs ++ ys) ≡ (has_switch name xs || has_switch name ys)
has_switch-append name [] ys = refl
has_switch-append name (switch other ∷ rest) ys = ground (arith, has_switch-append name rest ys)
has_switch-append name (setting option value ∷ rest) ys = has_switch-append name rest ys

module _ (name : String) where
  numbers_lem :
      (py : Python) (option : String) (v : Json) → has_switch name (number_args py option v) ≡ false
  unfolding number_args
  numbers_lem py option null = refl
  numbers_lem py option (bool b) = refl
  numbers_lem py option (int n) = refl
  numbers_lem py option (float text) = refl
  numbers_lem py option (str s) = refl
  numbers_lem py option (arr xs) = refl
  numbers_lem py option (obj fields) = refl

  then_numbers :
      (py : Python) (option : String) (v : Json) (rest : List ToolArg)
      → has_switch name (number_args py option v ++ rest) ≡ has_switch name rest
  then_numbers py option v rest =
      has_switch-append name (number_args py option v) rest ∙ rw (numbers_lem py option v) refl

  -- No switch of the groups before the last has this name.
  abbrev IsOther : Type 0
  IsOther =
      (("--enable-monitoring" == name)
        || (("--enable-adaptive-workers" == name)
            || (("--enable-vpn-rotation" == name) || ("--enable-adaptive-restart" == name))))
      ≡ false

  text_lem : (option text : String) → has_switch name (text_args option text) ≡ false
  unfolding text_args
  text_lem option text = ground arith

  config_lem :
      (py : Python) (config : Option Fields) → has_switch name (config_args py config) ≡ false
  unfolding config_args
  config_lem py none = refl
  config_lem py (some end) = refl
  config_lem py (some (field k v rest)) = refl

  monitoring_lem :
      IsOther
      → (py : Python) (o : ArchiveToolOptions) → has_switch name (monitoring_args py o) ≡ false
  unfolding monitoring_args
  monitoring_lem other py o = ground (
    arith,
    then_numbers py "--monitor-interval-seconds" o.monitor_interval_seconds (
        number_args py "--stall-timeout-minutes" o.stall_timeout_minutes
        ++ (number_args py "--error-threshold-timeout" o.error_threshold_timeout
            ++ number_args py "--error-threshold-http" o.error_threshold_http)),
    then_numbers py "--stall-timeout-minutes" o.stall_timeout_minutes (
        number_args py "--error-threshold-timeout" o.error_threshold_timeout
        ++ number_args py "--error-threshold-http" o.error_threshold_http),
    then_numbers py "--error-threshold-timeout" o.error_threshold_timeout
        (number_args py "--error-threshold-http" o.error_threshold_http),
    numbers_lem py "--error-threshold-http" o.error_threshold_http,
  )

  workers_lem :
      IsOther
      → (py : Python) (o : ArchiveToolOptions)
      → has_switch name (adaptive_workers_args py o) ≡ false
  unfolding adaptive_workers_args
  workers_lem other py o = ground (
    arith,
    then_numbers py "--min-workers" o.min_workers
        (number_args py "--max-worker-reductions" o.max_worker_reductions),
    numbers_lem py "--max-worker-reductions" o.max_worker_reductions,
  )

  vpn_lem :
      IsOther → (py : Python) (o : ArchiveToolOptions) → has_switch name (vpn_args py o) ≡ false
  unfolding vpn_args
  vpn_lem other py o = ground (
    arith,
    then_numbers py "--max-vpn-rotations" o.max_vpn_rotations
        (number_args py "--vpn-rotation-frequency-minutes" o.vpn_rotation_frequency_minutes),
    numbers_lem py "--vpn-rotation-frequency-minutes" o.vpn_rotation_frequency_minutes,
  )

  restart_lem :
      IsOther → (py : Python) (o : ArchiveToolOptions) → has_switch name (restart_args py o) ≡ false
  unfolding restart_args
  restart_lem other py o =
      ground (arith, numbers_lem py "--max-container-restarts" o.max_container_restarts)

  backoff_lem : (py : Python) (o : ArchiveToolOptions) → has_switch name (backoff_args py o) ≡ false
  unfolding backoff_args
  backoff_lem py o =
      ground (arith, numbers_lem py "--backoff-delay-minutes" o.backoff_delay_minutes)

  last_lem :
      (o : ArchiveToolOptions)
      → has_switch name (switches o) ≡ (
          ("--relax-perms" == name && o.relax_perms)
          || ("--skip-final-build" == name && o.skip_final_build))
  unfolding switches
  last_lem o = ground (
    arith,
    has_switch-append name (if o.relax_perms then switch "--relax-perms" ∷ [] else [])
        (if o.skip_final_build then switch "--skip-final-build" ∷ [] else []),
  )

  skip :
      (xs ys : List ToolArg) {b : Bool}
      → has_switch name xs ≡ false
      → has_switch name ys ≡ b
      → has_switch name (xs ++ ys) ≡ b
  skip xs ys {b} h k = has_switch-append name xs ys ∙ rw h k

  all_groups :
      (py : Python) (o : ArchiveToolOptions) (image size : String)
      → IsOther
      → has_switch name (
          text_args "--docker-image" image
          ++ (text_args "--docker-shm-size" size
              ++ (config_args py o.browsertrix_config
                  ++ (monitoring_args py o
                      ++ (adaptive_workers_args py o
                          ++ (vpn_args py o
                              ++ (restart_args py o ++ (backoff_args py o ++ switches o))))))))
        ≡ (("--relax-perms" == name && o.relax_perms)
            || ("--skip-final-build" == name && o.skip_final_build))
  all_groups py o image size other =
      skip (text_args "--docker-image" image) _ (text_lem "--docker-image" image) (
        skip (text_args "--docker-shm-size" size) _ (text_lem "--docker-shm-size" size) (
          skip (config_args py o.browsertrix_config) _ (config_lem py o.browsertrix_config) (
            skip (monitoring_args py o) _ (monitoring_lem other py o) (
              skip (adaptive_workers_args py o) _ (workers_lem other py o) (
                skip (vpn_args py o) _ (vpn_lem other py o) (
                  skip (restart_args py o) _ (restart_lem other py o)
                    (skip (backoff_args py o) (switches o) (backoff_lem py o) (last_lem o))))))))

  -- The last two switches are there just if their options are set.
  pub has_switch-build_tool_extra_args :
      (py : Python) (o : ArchiveToolOptions) {args : List ToolArg}
      → build_tool_extra_args py o ≡ some args
      → IsOther
      → has_switch name args ≡ (
          ("--relax-perms" == name && o.relax_perms)
          || ("--skip-final-build" == name && o.skip_final_build))
  unfolding build_tool_extra_args
  has_switch-build_tool_extra_args py o {args} built other =
      elim (Option-cases (strip_or_empty py o.docker_image)) [
        | inl raised ↦ absurd (ground arith)
        | inr (image, p) ↦ elim (Option-cases (strip_or_empty py o.docker_shm_size)) [
          | inl raised ↦ absurd (ground arith)
          | inr (size, q) ↦ ground (arith, all_groups py o image size other)
        ]
      ]
