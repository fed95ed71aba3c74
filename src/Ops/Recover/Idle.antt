-- ===== src/Ops/Recover/Idle.antt =====
-- When scripts/vps-crawl-auto-recover.py marks a job without a stop of its runner.
use healtharchive_backend.Base.{
  ℕ, String, true, false, ◌≡◌, ◌&&◌, Option, none, some, List, ◌==◌, string_eq, contains, nat_eq,
}
use healtharchive_backend.Ops.{PsRow}
use healtharchive_backend.Ops.Recover.Host.{Host}
use healtharchive_backend.Ops.Recover.Runner.{
  Processes, find_running_job_unit, output_dir_has_running_process, held_job_lock_job_ids,
}
use healtharchive_backend.Ops.Recover.Prepare.{Command, RunEnd, finishes}

-- No unit runs the job, `ps` answers and shows no process with the job's directory, and its lock is not held.
abbrev pub NothingRuns : Host → Processes → ℕ → Option String → Type 0
NothingRuns h p id dir =
    (find_running_job_unit h id p.services ≡ none)
    × ((rows : List PsRow) × (p.ps_rows ≡ some rows)
        × (output_dir_has_running_process dir rows ≡ false))
    × ((held : List ℕ) × (held_job_lock_job_ids p.lock_files ≡ some held)
        × (contains held id ≡ false))

-- An end that is not that of a recovery without a stop.
abbrev NotSoft : RunEnd → Type 0
NotSoft (finishes code result reason v) = (result == "ok" && reason == "soft_recovered") ≡ false
NotSoft _ = Unit

-- A job that is recovered has been so by these commands.
abbrev DoneBy : List Command → RunEnd → Type 0
DoneBy commands (finishes code result reason v) = (result == "ok") ≡ true → v.commands ≡ commands
DoneBy commands _ = Unit
