-- ===== src/Contract/Reading.antt =====
-- What archive_tool (src/archive_tool/cli.py) reads of the arguments that src/ha_backend/jobs.py builds.
use healtharchive_backend.Base.{
  String, Bool, true, false, ◌≡◌, refl, ap, ◌∙◌, ◌&&◌, ◌||◌, Option, none, some, List, [], ◌∷◌,
  ◌++◌, ◌==◌, string_eq, if◌then◌else◌, arith, inl, inr, Option-cases,
}
use healtharchive_backend.Base.Int.{ℤ}
use healtharchive_backend.Json.{Json, Fields, null, bool, int, float, str, arr, obj, end, field}
use healtharchive_backend.Contract.{Python, ArchiveToolOptions, truthy, strip_or_empty}
use healtharchive_backend.Contract.Command.{
  ToolArg, switch, setting, number_args, text_args, config_args, monitoring_args,
  adaptive_workers_args, vpn_args, restart_args, backoff_args, switches, build_tool_extra_args,
  CliArgs, cli_defaults, read_arg, read_args,
}

-- The switches of the arguments, and the VPN command.
record Switches : Type 0 where
  monitoring : Bool
  workers : Bool
  restart : Bool
  rotation : Bool
  command : Option String

abbrev switches_of : CliArgs → Switches
switches_of c = record {
  monitoring = c.enable_monitoring;
  workers = c.enable_adaptive_workers;
  restart = c.enable_adaptive_restart;
  rotation = c.enable_vpn_rotation;
  command = c.vpn_connect_command;
}

abbrev no_switches : Switches
no_switches = record {
  monitoring = false;
  workers = false;
  restart = false;
  rotation = false;
  command = none;
}

-- The switches after the four groups of arguments that set some.
combined :
    (em aw ar rot : Bool) (command : String) (s4 s5 s6 s7 s9 : Switches)
    → s4 ≡ (if em then record no_switches { monitoring = true } else no_switches)
    → s5 ≡ (if em && aw then record s4 { workers = true } else s4)
    → s6 ≡ (if em && rot then record s5 { rotation = true; command = some command } else s5)
    → s7 ≡ (if em && ar then record s6 { restart = true } else s6)
    → s9 ≡ s7
    → (s9.monitoring ≡ em)
      × (s9.workers ≡ (em && aw))
      × (s9.restart ≡ (em && ar))
      × (s9.rotation ≡ (em && rot))
      × (s9.rotation ≡ true → s9.command ≡ some command)
combined em aw ar rot command s4 s5 s6 s7 s9 p q r t u = ground arith

module _ (to_int : String → Option ℤ) where
  read_args-append :
      (xs ys : List ToolArg) (c : CliArgs) {d : CliArgs}
      → read_args to_int (xs ++ ys) c ≡ some d
      → (m : CliArgs) × (read_args to_int xs c ≡ some m) × (read_args to_int ys m ≡ some d)
  unfolding read_args
  read_args-append [] ys c h = (c, refl, h)
  read_args-append (x ∷ xs) ys c {d} h = elim (Option-cases (read_arg to_int x c)) [
    | inl refused ↦ absurd (ground arith)
    | inr (e, first) ↦
        let (m, p, q) = read_args-append xs ys e {d = d} (ground arith) in (m, ground arith, q)
  ]

  -- Arguments that set no switch.
  abbrev Quiet : List ToolArg → Type 0
  Quiet xs = (c d : CliArgs) → read_args to_int xs c ≡ some d → switches_of d ≡ switches_of c

  Quiet-nil : Quiet []
  unfolding read_args
  Quiet-nil c d h = ground arith

  Quiet-if : (b : Bool) (xs : List ToolArg) → Quiet xs → Quiet (if b then xs else [])
  Quiet-if true xs p = p
  Quiet-if false xs p = Quiet-nil

  Quiet-append : (xs ys : List ToolArg) → Quiet xs → Quiet ys → Quiet (xs ++ ys)
  Quiet-append xs ys p q c d h =
      let (m, first, second) = read_args-append xs ys c {d = d} h in q m d second ∙ p c m first

  Quiet-setting :
      (name value : String)
      → (name == "--vpn-connect-command") ≡ false
      → Quiet (setting name value ∷ [])
  unfolding read_args read_arg
  Quiet-setting name value other c d h = elim (Option-cases (to_int value)) [
    | inl refused ↦ ground arith
    | inr (n, read) ↦ ground arith
  ]

  Quiet-number_args :
      (py : Python) (name : String) (v : Json)
      → (name == "--vpn-connect-command") ≡ false
      → Quiet (number_args py name v)
  unfolding number_args
  Quiet-number_args py name null other = Quiet-nil
  Quiet-number_args py name (bool b) other = Quiet-setting name (py.to_text (bool b)) other
  Quiet-number_args py name (int n) other = Quiet-setting name (py.to_text (int n)) other
  Quiet-number_args py name (float t) other = Quiet-setting name (py.to_text (float t)) other
  Quiet-number_args py name (str s) other = Quiet-setting name (py.to_text (str s)) other
  Quiet-number_args py name (arr xs) other = Quiet-setting name (py.to_text (arr xs)) other
  Quiet-number_args py name (obj fs) other = Quiet-setting name (py.to_text (obj fs)) other

  Quiet-text_args :
      (name text : String) → (name == "--vpn-connect-command") ≡ false → Quiet (text_args name text)
  unfolding text_args
  Quiet-text_args name text other =
      elim (text == "") as (λ b. Quiet (if b then [] else setting name text ∷ [])) [
        | true ↦ Quiet-nil
        | false ↦ Quiet-setting name text other
      ]

  Quiet-config_args : (py : Python) (config : Option Fields) → Quiet (config_args py config)
  unfolding config_args
  Quiet-config_args py none = Quiet-nil
  Quiet-config_args py (some end) = Quiet-nil
  Quiet-config_args py (some (field k v rest)) =
      Quiet-setting "--browsertrix-config-json" (py.dumps (field k v rest)) refl

  Quiet-switches : (o : ArchiveToolOptions) → Quiet (switches o)
  unfolding switches
  Quiet-switches o =
      Quiet-append (if o.relax_perms then switch "--relax-perms" ∷ [] else [])
        (if o.skip_final_build then switch "--skip-final-build" ∷ [] else [])
        (Quiet-if o.relax_perms (switch "--relax-perms" ∷ []) (quiet_switch "--relax-perms" refl))
        (Quiet-if o.skip_final_build (switch "--skip-final-build" ∷ [])
          (quiet_switch "--skip-final-build" refl))
    where
      quiet_switch :
          (name : String)
          → (name == "--enable-monitoring"
              || (name == "--enable-adaptive-workers"
                  || (name == "--enable-adaptive-restart" || name == "--enable-vpn-rotation")))
            ≡ false
          → Quiet (switch name ∷ [])
      quiet_switch name other c d h = unfold read_args read_arg in ground arith

  Quiet-backoff_args : (py : Python) (o : ArchiveToolOptions) → Quiet (backoff_args py o)
  unfolding backoff_args
  Quiet-backoff_args py o =
      Quiet-if o.enable_monitoring
        (number_args py "--backoff-delay-minutes" o.backoff_delay_minutes)
        (Quiet-number_args py "--backoff-delay-minutes" o.backoff_delay_minutes refl)

  -- The arguments of a switch, after a quiet tail.
  after_switch :
      (arg : ToolArg) (rest : List ToolArg) (c d e : CliArgs)
      → Quiet rest
      → read_arg to_int arg c ≡ some e
      → read_args to_int (arg ∷ rest) c ≡ some d
      → switches_of d ≡ switches_of e
  unfolding read_args
  after_switch arg rest c d e quiet first h = quiet e d (ground arith)

  -- The arguments of a switch that is set or not.
  guarded :
      (b : Bool) (arg : ToolArg) (rest : List ToolArg) (c d e : CliArgs)
      → Quiet rest
      → read_arg to_int arg c ≡ some e
      → read_args to_int (if b then arg ∷ rest else []) c ≡ some d
      → switches_of d ≡ (if b then switches_of e else switches_of c)
  guarded true arg rest c d e quiet first h = after_switch arg rest c d e quiet first h
  guarded false arg rest c d e quiet first h = Quiet-nil c d h

  module _ (py : Python) (o : ArchiveToolOptions) (c d : CliArgs) where
    Quiet-numbers :
        (first second : String) (v w : Json)
        → (first == "--vpn-connect-command") ≡ false
        → (second == "--vpn-connect-command") ≡ false
        → Quiet (number_args py first v ++ number_args py second w)
    Quiet-numbers first second v w p q =
        Quiet-append (number_args py first v) (number_args py second w)
          (Quiet-number_args py first v p) (Quiet-number_args py second w q)

    read-monitoring_args :
        read_args to_int (monitoring_args py o) c ≡ some d
        → switches_of d ≡ (
            if o.enable_monitoring
            then record (switches_of c) { monitoring = true }
            else switches_of c)
    unfolding monitoring_args read_arg
    read-monitoring_args h =
        guarded o.enable_monitoring (switch "--enable-monitoring") _ c d
          (record c { enable_monitoring = true })
          (Quiet-append (number_args py "--monitor-interval-seconds" o.monitor_interval_seconds) _
            (Quiet-number_args py "--monitor-interval-seconds" o.monitor_interval_seconds refl)
            (Quiet-append (number_args py "--stall-timeout-minutes" o.stall_timeout_minutes) _
              (Quiet-number_args py "--stall-timeout-minutes" o.stall_timeout_minutes refl)
              (Quiet-numbers "--error-threshold-timeout" "--error-threshold-http"
                o.error_threshold_timeout o.error_threshold_http refl refl)))
          refl h

    read-adaptive_workers_args :
        read_args to_int (adaptive_workers_args py o) c ≡ some d
        → switches_of d ≡ (
            if o.enable_monitoring && o.enable_adaptive_workers
            then record (switches_of c) { workers = true }
            else switches_of c)
    unfolding adaptive_workers_args read_arg
    read-adaptive_workers_args h =
        guarded (o.enable_monitoring && o.enable_adaptive_workers)
          (switch "--enable-adaptive-workers") _ c d (record c { enable_adaptive_workers = true })
          (Quiet-numbers "--min-workers" "--max-worker-reductions" o.min_workers
            o.max_worker_reductions refl refl)
          refl h

    read-restart_args :
        read_args to_int (restart_args py o) c ≡ some d
        → switches_of d ≡ (
            if o.enable_monitoring && o.enable_adaptive_restart
            then record (switches_of c) { restart = true }
            else switches_of c)
    unfolding restart_args read_arg
    read-restart_args h =
        guarded (o.enable_monitoring && o.enable_adaptive_restart)
          (switch "--enable-adaptive-restart") _ c d (record c { enable_adaptive_restart = true })
          (Quiet-number_args py "--max-container-restarts" o.max_container_restarts refl) refl h

    read-vpn_args :
        read_args to_int (vpn_args py o) c ≡ some d
        → switches_of d ≡ (
            if o.enable_monitoring && (o.enable_vpn_rotation && truthy py o.vpn_connect_command)
            then record (switches_of c) {
              rotation = true;
              command = some (py.to_text o.vpn_connect_command);
            }
            else switches_of c)
    unfolding vpn_args read_arg read_args
    read-vpn_args h =
        rotating (o.enable_monitoring && (o.enable_vpn_rotation && truthy py o.vpn_connect_command))
          h
      where
        rest : List ToolArg
        rest =
            number_args py "--max-vpn-rotations" o.max_vpn_rotations
            ++ number_args py "--vpn-rotation-frequency-minutes" o.vpn_rotation_frequency_minutes

        rotating :
            (b : Bool)
            → read_args to_int
                (if b
                  then switch "--enable-vpn-rotation"
                    ∷ (setting "--vpn-connect-command" (py.to_text o.vpn_connect_command) ∷ rest)
                  else [])
                c
              ≡ some d
            → switches_of d ≡ (
                if b
                then record (switches_of c) {
                  rotation = true;
                  command = some (py.to_text o.vpn_connect_command);
                }
                else switches_of c)
        rotating true h =
            after_switch (setting "--vpn-connect-command" (py.to_text o.vpn_connect_command)) rest
              (record c { enable_vpn_rotation = true }) d
              (record c {
                enable_vpn_rotation = true;
                vpn_connect_command = some (py.to_text o.vpn_connect_command);
              })
              (Quiet-numbers "--max-vpn-rotations" "--vpn-rotation-frequency-minutes"
                o.max_vpn_rotations o.vpn_rotation_frequency_minutes refl refl)
              refl h
        rotating false h = Quiet-nil c d h

  -- What archive_tool reads of the arguments is what the options say.
  pub read-build_tool_extra_args :
      (py : Python) (o : ArchiveToolOptions) {args : List ToolArg} {d : CliArgs}
      → build_tool_extra_args py o ≡ some args
      → read_args to_int args cli_defaults ≡ some d
      → (d.enable_monitoring ≡ o.enable_monitoring)
        × (d.enable_adaptive_workers ≡ (o.enable_monitoring && o.enable_adaptive_workers))
        × (d.enable_adaptive_restart ≡ (o.enable_monitoring && o.enable_adaptive_restart))
        × (d.enable_vpn_rotation
            ≡ (o.enable_monitoring && (o.enable_vpn_rotation && truthy py o.vpn_connect_command)))
        × (d.enable_vpn_rotation ≡ true
            → d.vpn_connect_command ≡ some (py.to_text o.vpn_connect_command))
  unfolding build_tool_extra_args cli_defaults
  read-build_tool_extra_args py o {args} {d} built h =
      elim (Option-cases (strip_or_empty py o.docker_image)) [
        | inl raised ↦ absurd (ground arith)
        | inr (image, p) ↦ elim (Option-cases (strip_or_empty py o.docker_shm_size)) [
          | inl raised ↦ absurd (ground arith)
          | inr (size, q) ↦
              let (c1, r1, h1) =
                read_args-append (text_args "--docker-image" image) _ cli_defaults {d = d}
                  (ground arith) in
              let (c2, r2, h2) =
                read_args-append (text_args "--docker-shm-size" size) _ c1 {d = d} h1 in
              let (c3, r3, h3) =
                read_args-append (config_args py o.browsertrix_config) _ c2 {d = d} h2 in
              let (c4, r4, h4) = read_args-append (monitoring_args py o) _ c3 {d = d} h3 in
              let (c5, r5, h5) = read_args-append (adaptive_workers_args py o) _ c4 {d = d} h4 in
              let (c6, r6, h6) = read_args-append (vpn_args py o) _ c5 {d = d} h5 in
              let (c7, r7, h7) = read_args-append (restart_args py o) _ c6 {d = d} h6 in
              let (c8, r8, h8) = read_args-append (backoff_args py o) (switches o) c7 {d = d} h7 in
              let s1 = Quiet-text_args "--docker-image" image refl cli_defaults c1 r1 in
              let s2 = Quiet-text_args "--docker-shm-size" size refl c1 c2 r2 in
              let s3 = Quiet-config_args py o.browsertrix_config c2 c3 r3 in
              let s4 = read-monitoring_args py o c3 c4 r4 in
              let s5 = read-adaptive_workers_args py o c4 c5 r5 in
              let s6 = read-vpn_args py o c5 c6 r6 in
              let s7 = read-restart_args py o c6 c7 r7 in
              let s8 = Quiet-backoff_args py o c7 c8 r8 in
              let s9 = Quiet-switches o c8 d h8 in
              let before : switches_of c3 ≡ no_switches = s3 ∙ (s2 ∙ s1) in
              let after : switches_of d ≡ switches_of c7 = s9 ∙ s8 in
              combined o.enable_monitoring o.enable_adaptive_workers o.enable_adaptive_restart
                (o.enable_vpn_rotation && truthy py o.vpn_connect_command)
                (py.to_text o.vpn_connect_command) (switches_of c4) (switches_of c5)
                (switches_of c6) (switches_of c7) (switches_of d)
                (s4
                  ∙ ap (λ w. if o.enable_monitoring then record w { monitoring = true } else w)
                      before)
                s5 s6 s7 after
        ]
      ]
