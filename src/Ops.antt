-- ===== src/Ops.antt =====
-- What the operations scripts share (scripts/vps-crawl-auto-recover.py,
-- scripts/vps-worker-auto-start.py, `cmd_recover_stale_jobs` of src/ha_backend/cli.py): the columns of
-- ArchiveJob that they use, the lock of a deployment, and the processes of the host. Times are microseconds.
pub mod Progress
pub mod Logs
pub mod Stale
pub mod RunState
pub mod AutoStart
pub mod Recover
mod Tests
use healtharchive_backend.Base.{
  ℕ, zero, suc, ◌-◌, String, Bool, true, false, ◌≡◌, ◌||◌, ◌&&◌, Option, none, some, List, [], ◌∷◌,
  ◌==◌, nat_eq, string_eq, if◌then◌else◌, leb, some_of,
}
use healtharchive_backend.Base.Texts.{has}
use healtharchive_backend.Json.{Fields}

pub record JobRow : Type 0 where
  pub id : ℕ
  -- the code of the source that the row joins
  pub source_code : Option String
  pub name : String
  pub output_dir : Option String
  pub status : String
  pub queued_at : Option ℕ
  pub created_at : ℕ
  pub started_at : Option ℕ
  pub finished_at : Option ℕ
  pub combined_log_path : Option String
  pub crawler_stage : Option String
  pub config : Fields

abbrev pub JobTable : Type 0
JobTable = List JobRow

-- `session.get(ArchiveJob, job_id)`
unfoldable pub get_row : ℕ → JobTable → Option JobRow
get_row k [] = none
get_row k (j ∷ rest) = if j.id == k then some j else get_row k rest

-- A change of the row with this identity.
unfoldable pub update_row : ℕ → (JobRow → JobRow) → JobTable → JobTable
update_row k f [] = []
update_row k f (j ∷ rest) = if j.id == k then f j ∷ rest else j ∷ update_row k f rest

-- `path.stat()`: no file, another `OSError`, or a file with its modification time (`none` where
-- `datetime.fromtimestamp` raises).
pub data Stat : Type 0 where
  missing unreadable : Stat
  file : Option ℕ → Stat

-- `_file_age_seconds`, in microseconds.
unfoldable pub file_age : ℕ → Stat → Option ℕ
file_age now missing = none
file_age now unreadable = some 0
file_age now (file none) = some 0
file_age now (file (some mtime)) = some (now - mtime)

-- What the probe of a lock file meets: `open` or `flock` fails, another process holds the lock, or it is free.
pub data Probe : Type 0 where
  open_fails flock_fails held free : Probe

-- Whether the lock is active, once the file has an age.
unfoldable pub probe_is_active : ℕ → ℕ → Probe → Bool
probe_is_active max_age age held = true
probe_is_active max_age age free = false
probe_is_active max_age age open_fails = leb age max_age
probe_is_active max_age age flock_fails = leb age max_age

unfoldable pub deploy_lock_is_active : ℕ → ℕ → Stat → Probe → Bool
unfolding file_age probe_is_active
deploy_lock_is_active now max_age stat probe = elim (file_age now stat) [
  | none ↦ false
  | some age ↦ probe_is_active max_age age probe
]

-- A line of `ps`.
pub record PsRow : Type 0 where
  pub pid : ℕ
  pub ppid : ℕ
  pub args : String

unfoldable pub is_likely_crawl_runner_cmd : String → Bool
is_likely_crawl_runner_cmd args =
    has args "archive-tool" || (has args "docker run" && has args "ghcr.io/openzim/zimit")

-- `not output_dir`
unfoldable pub no_dir : Option String → Bool
no_dir none = true
no_dir (some dir) = dir == ""

-- `needle in row.args`
abbrev pub names_dir : Option String → PsRow → Bool
names_dir none row = false
names_dir (some dir) row = has row.args dir

unfoldable pub output_dir_has_running_crawl_process : Option String → List PsRow → Bool
unfolding no_dir is_likely_crawl_runner_cmd
output_dir_has_running_crawl_process output_dir rows =
    if no_dir output_dir
    then false
    else some_of (λ (row : PsRow). names_dir output_dir row && is_likely_crawl_runner_cmd row.args)
        rows
