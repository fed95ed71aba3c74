-- ===== src/Ops/RunState.antt =====
-- scripts/vps-worker-auto-start.py: what a run meets, and the state that it keeps of its runs.
use healtharchive_backend.Base.{
  ℕ, ◌*◌, ◌/◌, String, Bool, true, false, Option, none, some, List, ◌==◌, nat_eq, string_eq,
  if◌then◌else◌,
}
use healtharchive_backend.Base.Int.{ℤ, pos, negsuc, int_eq, ◌+ℤ◌}
use healtharchive_backend.Json.{Json, Fields, int, str, obj, end, field, get_field}
use healtharchive_backend.Registry.Templates.{set_item}
use healtharchive_backend.Ops.{Stat, Probe, PsRow}

-- `d.pop(key, None)`
unfoldable pub pop_item : String → Fields → Fields
pop_item key end = end
pop_item key (field k v rest) =
    let later = pop_item key rest in if k == key then later else field k v later

pub record WatchdogArgs : Type 0 where
  pub apply : Bool
  pub deploy_lock_max_age : ℕ
  pub reconcile_running_drift : Bool
  pub reconcile_older_than_minutes : ℤ
  pub reconcile_limit : ℤ

-- `path.stat()` and `os.listdir` of the mount: an error with its `errno`, no directory, or a readable one.
pub data DirProbe : Type 0 where
  dir_error : Option ℤ → DirProbe
  no_dir readable : DirProbe

-- `_probe_readable_dir`
unfoldable pub probe_readable_dir : DirProbe → Bool × ℤ
probe_readable_dir (dir_error none) = (false, negsuc 0)
probe_readable_dir (dir_error (some code)) = (false, if code == pos 0 then negsuc 0 else code)
probe_readable_dir no_dir = (false, pos 0)
probe_readable_dir readable = (true, negsuc 0)

-- `systemctl start`: its exit code and its output.
pub record StartResult : Type 0 where
  pub returncode : ℤ
  pub stdout : String
  pub stderr : String

-- What a run meets. `state_file` is the JSON value of the state file, if there is one that can be read;
-- `count_fails` is the text of an exception of the first queries, `reconcile_fails` is one of the reconciliation.
pub record WatchdogEnv : Type 0 where
  pub now : ℕ
  pub sentinel : Bool
  pub lock_free : Bool
  pub state_file : Option Json
  pub worker_active : Bool
  pub deploy_stat : Stat
  pub deploy_probe : Probe
  pub storagebox : DirProbe
  pub count_fails : Option String
  pub ps_rows : Option (List PsRow)
  pub reconcile_fails : Bool
  pub start : StartResult
  -- whether the first save of the state works, and the second
  pub saves : ℕ → Bool
  pub iso : ℕ → String
  -- `text[:400]`
  pub clip : String → String
  pub to_int : Json → Option ℤ

unfoldable pub load_state_file : Option Json → Fields
load_state_file (some (obj state)) = state
load_state_file _ = end

-- `int(state.get(key) or 0)`, 0 where it raises; `int` gives 0 for the falsy values that it takes.
unfoldable pub state_int : WatchdogEnv → Fields → String → ℤ
state_int e state key = elim (e.to_int (get_field key (int (pos 0)) state)) [
  | none ↦ pos 0
  | some n ↦ n
]

-- `if value: state[key] = value[:400] else: state.pop(key, None)`
unfoldable pub note_text : (String → String) → String → Option String → Fields → Fields
unfolding pop_item
note_text clip key none state = pop_item key state
note_text clip key (some text) state =
    if text == "" then pop_item key state else set_item key (str (clip text)) state

unfoldable pub note_code : Option ℤ → Fields → Fields
unfolding pop_item
note_code none state = pop_item "rc" state
note_code (some code) state = set_item "rc" (int code) state

-- What a run notes of itself.
pub record RunNote : Type 0 where
  pub result : String
  pub reason : String
  pub running_jobs : ℤ
  pub pending_jobs : ℤ
  pub exception : Option String
  pub rc : Option ℤ
  pub stdout : Option String
  pub stderr : Option String

abbrev pub bool_int : Bool → ℤ
bool_int true = pos 1
bool_int false = pos 0

-- `_update_run_state`
unfoldable pub update_run_state : WatchdogEnv → RunNote → Fields → Fields
unfolding note_text note_code
update_run_state e n state = note_text e.clip "stderr" n.stderr (
    note_text e.clip "stdout" n.stdout (
      note_code n.rc (
        note_text e.clip "exception" n.exception (
          set_item "pending_jobs" (int n.pending_jobs) (
            set_item "running_jobs" (int n.running_jobs) (
              set_item "worker_active" (int (bool_int e.worker_active)) (
                set_item "reason" (str n.reason) (
                  set_item "result" (str n.result) (
                    set_item "last_run_utc" (str (e.iso (e.now / 1000000 * 1000000))) state)))))))))

unfoldable pub count_up : WatchdogEnv → String → Fields → Fields
unfolding state_int
count_up e key state = set_item key (int (state_int e state key +ℤ pos 1)) state

-- `_record_start_attempt`
unfoldable pub record_start_attempt : WatchdogEnv → Bool → Fields → Fields
unfolding count_up
record_start_attempt e ok state =
    let epoch = int (pos (e.now / 1000000)) in
    let tried =
      set_item "last_start_attempt_epoch" epoch (count_up e "start_attempts_total" state) in
    if ok
    then set_item "last_start_success_epoch" epoch (count_up e "start_success_total" tried)
    else set_item "last_start_fail_epoch" epoch (count_up e "start_fail_total" tried)
