-- ===== src/Contract/Accepted.antt =====
-- The options of a job (src/ha_backend/archive_contract.py, src/ha_backend/jobs.py) against the checks of
-- src/archive_tool/cli.py.
use healtharchive_backend.Base.{
  String, Bool, true, false, ◌≡◌, ◌≢◌, ◌↔◌, refl, sym, ◌∙◌, ◌&&◌, Option, some, List, ◌==◌,
  string_eq, arith, inl, inr, Option-cases, Bool-cases, eq_iff, ◌||◌,
}
use healtharchive_backend.Base.Int.{ℤ, pos, ◌≤ℤ◌}
use healtharchive_backend.Json.{Json, null, bool, int, float, str, arr, obj, nil, cons, end, field}
use healtharchive_backend.Contract.{
  Python, IsPython, ArchiveToolOptions, truthy, strip_or_empty, validate_tool_options, valid,
}
use healtharchive_backend.Contract.Command.{
  ToolArg, build_tool_extra_args, CliArgs, cli_defaults, read_args, accepted, has_command,
  check_arguments,
}
use healtharchive_backend.Contract.Switches.{has_switch, has_switch-build_tool_extra_args}
use healtharchive_backend.Contract.Reading.{read-build_tool_extra_args}

-- A command that is set and passed the validation is a text that is not empty.
command_text :
    (py : Python)
    → IsPython py
    → (v : Json) {text : String} → strip_or_empty py v ≡ some text
    → truthy py v ≡ true
    → (py.to_text v == "") ≡ false
unfolding strip_or_empty truthy
command_text py laws null h t = absurd (ground arith)
command_text py laws (bool b) h t = absurd (ground arith)
command_text py laws (int n) h t = absurd (ground arith)
command_text py laws (float text) h t = absurd (ground arith)
command_text py laws (str s) h t = rw (laws.to_text-str s) (ground arith)
command_text py laws (arr nil) h t = absurd (ground arith)
command_text py laws (arr (cons x xs)) h t = absurd (ground arith)
command_text py laws (obj end) h t = absurd (ground arith)
command_text py laws (obj (field k v rest)) h t = absurd (ground arith)

-- The command of a rotation that the validation lets pass.
rotation_command :
    (py : Python)
    → IsPython py
    → (o : ArchiveToolOptions) → validate_tool_options py o ≡ valid
    → (o.enable_monitoring && (o.enable_vpn_rotation && truthy py o.vpn_connect_command)) ≡ true
    → (py.to_text o.vpn_connect_command == "") ≡ false
unfolding validate_tool_options
rotation_command py laws o h t = elim (Option-cases (strip_or_empty py o.vpn_connect_command)) [
  | inl raised ↦ absurd (ground arith)
  | inr (text, stripped) ↦ command_text py laws o.vpn_connect_command stripped (ground arith)
]

no_command :
    (py : Python) → IsPython py → (text : String) → py.strip "" ≡ text → (text == "") ≢ false
no_command py laws text h n =
    let empty : text ≡ "" = sym h ∙ laws.strip-empty in
    let same = (eq_iff text "").1 empty in ground arith

-- An option that the validation requires is no option that Python takes for false.
command_is_set :
    (py : Python)
    → IsPython py
    → (v : Json) {text : String} → strip_or_empty py v ≡ some text
    → (text == "") ≡ false
    → truthy py v ≡ true
unfolding strip_or_empty truthy
command_is_set py laws null {text} h n = absurd (no_command py laws text (ground arith) n)
command_is_set py laws (bool true) h n = refl
command_is_set py laws (bool false) {text} h n = absurd (no_command py laws text (ground arith) n)
command_is_set py laws (int m) {text} h n = elim (Bool-cases (truthy py (int m))) [
  | inl set ↦ set
  | inr unset ↦ absurd (no_command py laws text (ground arith) n)
]
command_is_set py laws (float literal) {text} h n = elim (Bool-cases (truthy py (float literal))) [
  | inl set ↦ set
  | inr unset ↦ absurd (no_command py laws text (ground arith) n)
]
command_is_set py laws (str s) {text} h n = elim (Bool-cases (s == "")) [
  | inr set ↦ ground arith
  | inl unset ↦ absurd (no_command py laws text (ground arith) n)
]
command_is_set py laws (arr nil) {text} h n = absurd (no_command py laws text (ground arith) n)
command_is_set py laws (arr (cons x xs)) h n = refl
command_is_set py laws (obj end) {text} h n = absurd (no_command py laws text (ground arith) n)
command_is_set py laws (obj (field k v rest)) h n = refl

-- The validation lets a rotation pass only where it has a command and a monitor.
rotates :
    (py : Python)
    → IsPython py
    → (o : ArchiveToolOptions) → validate_tool_options py o ≡ valid
    → (o.enable_monitoring && (o.enable_vpn_rotation && truthy py o.vpn_connect_command))
      ≡ o.enable_vpn_rotation
unfolding validate_tool_options
rotates py laws o h = elim (Bool-cases o.enable_vpn_rotation) [
  | inr none_wanted ↦ ground arith
  | inl wanted ↦ elim (Option-cases (strip_or_empty py o.vpn_connect_command)) [
    | inl raised ↦ absurd (ground arith)
    | inr (text, stripped) ↦
        let set = command_is_set py laws o.vpn_connect_command stripped (ground arith) in
        ground arith
  ]
]

-- The checks on numbers.
abbrev pub NumbersFit : CliArgs → Type 0
NumbersFit d =
    (pos 1 ≤ℤ d.min_workers)
    × (pos 0 ≤ℤ d.max_container_restarts)
    × (pos 0 ≤ℤ d.vpn_rotation_frequency_minutes)

valid-switches :
    (py : Python) (o : ArchiveToolOptions)
    → validate_tool_options py o ≡ valid
    → ((o.enable_monitoring && o.enable_adaptive_workers) ≡ o.enable_adaptive_workers)
      × ((o.enable_monitoring && o.enable_adaptive_restart) ≡ o.enable_adaptive_restart)
unfolding validate_tool_options
valid-switches py o h = ground arith

-- Where the switches agree, only the checks on numbers are left.
checks_left :
    (c : CliArgs)
    → (c.enable_adaptive_workers ≡ true → c.enable_monitoring ≡ true)
    → (c.enable_adaptive_restart ≡ true → c.enable_monitoring ≡ true)
    → (c.enable_vpn_rotation ≡ true → c.enable_monitoring ≡ true)
    → (c.enable_vpn_rotation ≡ true → has_command c.vpn_connect_command ≡ true)
    → (check_arguments c ≡ accepted) ↔ NumbersFit c
unfolding check_arguments
checks_left c w r v k = ground arith

and_left : (a b : Bool) → (a && b) ≡ true → a ≡ true
and_left a b h = ground arith

left_switch : (a b : Bool) → ((true && a) || (false && b)) ≡ a
left_switch a b = ground arith

right_switch : (a b : Bool) → ((false && a) || (true && b)) ≡ b
right_switch a b = refl

has_command_lem :
    (c : Option String) (text : String)
    → c ≡ some text
    → (text == "") ≡ false
    → has_command c ≡ true
unfolding has_command
has_command_lem c text h n = rw h (rw n refl)

-- If the options of a job pass the validation, then archive_tool reads from their arguments just the switches of
-- monitoring, of adaptive workers, of adaptive restarts and of VPN rotation that they set, `--relax-perms` and
-- `--skip-final-build` are among the arguments just if they are set, and archive_tool accepts them exactly if the minimum of workers is at least 1 and neither the maximum
-- of container restarts nor the frequency of VPN rotations is negative.
pub check_arguments-accepted :
    (to_int : String → Option ℤ) (py : Python)
    → IsPython py
    → (o : ArchiveToolOptions) {args : List ToolArg} {d : CliArgs}
    → validate_tool_options py o ≡ valid
    → build_tool_extra_args py o ≡ some args
    → read_args to_int args cli_defaults ≡ some d
    → (d.enable_monitoring ≡ o.enable_monitoring)
      × (d.enable_adaptive_workers ≡ o.enable_adaptive_workers)
      × (d.enable_adaptive_restart ≡ o.enable_adaptive_restart)
      × (d.enable_vpn_rotation ≡ o.enable_vpn_rotation)
      × (has_switch "--relax-perms" args ≡ o.relax_perms)
      × (has_switch "--skip-final-build" args ≡ o.skip_final_build)
      × ((check_arguments d ≡ accepted) ↔ NumbersFit d)
check_arguments-accepted to_int py laws o {args} {d} h built read =
    let r = read-build_tool_extra_args to_int py o built read in
    let v = valid-switches py o h in
    (
      r.0,
      r.1 ∙ v.0,
      r.2 ∙ v.1,
      r.3 ∙ rotates py laws o h,
      has_switch-build_tool_extra_args "--relax-perms" py o built refl
          ∙ left_switch o.relax_perms o.skip_final_build,
      has_switch-build_tool_extra_args "--skip-final-build" py o built refl
          ∙ right_switch o.relax_perms o.skip_final_build,
      checks_left d
          (λ q. r.0 ∙ and_left o.enable_monitoring o.enable_adaptive_workers (sym r.1 ∙ q))
          (λ q. r.0 ∙ and_left o.enable_monitoring o.enable_adaptive_restart (sym r.2 ∙ q))
          (λ q.
            r.0
            ∙ and_left o.enable_monitoring
                (o.enable_vpn_rotation && truthy py o.vpn_connect_command) (sym r.3 ∙ q))
          (λ q.
            has_command_lem d.vpn_connect_command (py.to_text o.vpn_connect_command) (r.4 q)
              (rotation_command py laws o h (sym r.3 ∙ q))),
    )
