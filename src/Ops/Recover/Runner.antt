-- ===== src/Ops/Recover/Runner.antt =====
-- Where a job runs: the detection of scripts/vps-crawl-auto-recover.py.
use healtharchive_backend.Base.{
  ℕ, zero, suc, String, Bool, true, false, ◌||◌, ◌&&◌, Option, none, some, is_some, List, [], ◌∷◌,
  ◌==◌, nat_eq, string_eq, if◌then◌else◌, some_of, contains,
}
use healtharchive_backend.Base.Texts.{has, starts_with, after}
use healtharchive_backend.Ops.{PsRow, is_likely_crawl_runner_cmd, no_dir, names_dir}
use healtharchive_backend.Ops.Recover.Host.{Host}
use healtharchive_backend.Ops.Recover.History.{job_key}

-- The kind of a runner, with its unit.
pub data JobRunner : Type 0 where
  no_runner worker_runner unknown_runner : JobRunner
  unit_runner : Option String → JobRunner

-- A running service: its main process (none for 0), and the command line of that.
pub record Service : Type 0 where
  pub name : String
  pub main_pid : Option ℕ
  pub cmdline : String

-- A lock file `job-….lock`: the number in its name, and what opening and locking it meets.
pub data LockProbe : Type 0 where
  no_permission no_open blocked acquired lock_error : LockProbe

pub record LockFile : Type 0 where
  pub job_id : Option ℕ
  pub probe : LockProbe

-- What the detection sees of the host; `none` is a command or a listing that fails.
pub record Processes : Type 0 where
  pub services : List Service
  pub ps_rows : Option (List PsRow)
  pub worker_pid : Option ℕ
  pub lock_files : Option (List LockFile)

unfoldable pub names_id : String → List String → Bool
names_id id [] = false
names_id id (tok ∷ []) = starts_with tok "--id=" && after tok 5 == id
names_id id (tok ∷ (next ∷ rest)) =
    (tok == "--id" && next == id || starts_with tok "--id=" && after tok 5 == id)
    || names_id id (next ∷ rest)

unfoldable pub looks_like_run_db_job_for_id : Host → String → ℕ → Bool
unfolding names_id
looks_like_run_db_job_for_id h cmdline id =
    let toks = h.split cmdline in contains toks "run-db-job" && names_id (job_key id) toks

abbrev pub runs_job : Host → ℕ → Service → Bool
runs_job h id s =
    has s.name "healtharchive"
    && (is_some s.main_pid && looks_like_run_db_job_for_id h s.cmdline id)

unfoldable pub find_running_job_unit : Host → ℕ → List Service → Option String
unfolding looks_like_run_db_job_for_id
find_running_job_unit h id [] = none
find_running_job_unit h id (s ∷ rest) =
    let later = find_running_job_unit h id rest in if runs_job h id s then some s.name else later

-- `parent_by_pid.get(pid)`: of the last row with this process.
unfoldable pub parent_of : ℕ → List PsRow → Option ℕ
parent_of pid [] = none
parent_of pid (r ∷ rest) = elim (parent_of pid rest) [
  | some p ↦ some p
  | none ↦ if r.pid == pid then some r.ppid else none
]

-- The walk to the parents, for as many rounds.
unfoldable pub has_ancestor_within : ℕ → ℕ → ℕ → List PsRow → Bool
unfolding parent_of
has_ancestor_within zero pid ancestor rows = false
has_ancestor_within (suc n) pid ancestor rows =
    if pid == ancestor then true else elim (parent_of pid rows) [
      | none ↦ false
      | some p ↦ elim (p == 0 || p == pid) [
        | true ↦ false
        | false ↦ has_ancestor_within n p ancestor rows
      ]
    ]

unfoldable pub pid_has_ancestor : ℕ → ℕ → List PsRow → Bool
pid_has_ancestor pid ancestor rows = has_ancestor_within 64 pid ancestor rows

unfoldable pub output_dir_running_under_pid : Option String → Option ℕ → List PsRow → Bool
unfolding no_dir is_likely_crawl_runner_cmd
output_dir_running_under_pid dir none rows = false
output_dir_running_under_pid dir (some root) rows =
    if no_dir dir || root == 0
    then false
    else some_of
        (λ (r : PsRow).
          names_dir dir r
          && (is_likely_crawl_runner_cmd r.args && pid_has_ancestor r.pid root rows))
        rows

unfoldable pub output_dir_has_running_process : Option String → List PsRow → Bool
unfolding no_dir
output_dir_has_running_process dir rows = if no_dir dir then false else some_of (names_dir dir) rows

-- `_held_job_lock_job_ids`; `none` is an exception.
unfoldable pub held_in : List LockFile → Option (List ℕ)
held_in [] = some []
held_in (f ∷ rest) =
    let later = held_in rest in
    elim f.job_id [
      | none ↦ later
      | some id ↦ elim f.probe [
        | no_open ↦ later
        | acquired ↦ later
        | lock_error ↦ none
        | _ ↦ elim later [ none ↦ none | some ids ↦ some (id ∷ ids) ]
      ]
    ]

unfoldable pub held_job_lock_job_ids : Option (List LockFile) → Option (List ℕ)
unfolding held_in
held_job_lock_job_ids none = some []
held_job_lock_job_ids (some files) = held_in files

-- The last part of the detection: no process, but perhaps a lock.
unfoldable pub runner_by_lock : Processes → ℕ → Option JobRunner
unfolding held_job_lock_job_ids
runner_by_lock p id = elim (held_job_lock_job_ids p.lock_files) [
  | none ↦ none
  | some held ↦
      if contains held id
      then some (elim p.worker_pid [
        | none ↦ unknown_runner
        | some pid ↦ if pid == 0 then unknown_runner else worker_runner
      ])
      else some no_runner
]

unfoldable pub runner_by_process : Processes → ℕ → Option String → List PsRow → Option JobRunner
unfolding runner_by_lock output_dir_running_under_pid output_dir_has_running_process
runner_by_process p id dir rows =
    if output_dir_running_under_pid dir p.worker_pid rows
    then some worker_runner
    else if output_dir_has_running_process dir rows
    then some unknown_runner
    else runner_by_lock p id

unfoldable pub detect_by_rows : Processes → ℕ → Option String → Option JobRunner
unfolding runner_by_process
detect_by_rows p id dir = elim p.ps_rows [
  | none ↦ some unknown_runner
  | some rows ↦ runner_by_process p id dir rows
]

-- `_detect_job_runner`, with the runner that a drill simulates; `none` is an exception.
unfoldable pub detect_job_runner :
    Host → Processes → Option JobRunner → ℕ → Option String → Option JobRunner
unfolding find_running_job_unit detect_by_rows
detect_job_runner h p (some simulated) id dir = some simulated
detect_job_runner h p none id dir = elim (find_running_job_unit h id p.services) [
  | some unit ↦ some (unit_runner (some unit))
  | none ↦ detect_by_rows p id dir
]
