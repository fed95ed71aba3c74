-- ===== src/Jobs/Run.antt =====
-- What a run of a job leaves in the database (src/ha_backend/jobs.py, `run_persistent_job`).
use healtharchive_backend.Base.{
  ℕ, ◌≤◌, ◌<◌, ◌≡◌, ◌≢◌, Option, none, some, [], ◌∷◌, ◌==◌, nat_eq, string_eq, arith, inl, inr,
  Bool-cases, if◌then◌else◌, ◌⊎◌,
}
use healtharchive_backend.Base.Int.{ℤ, pos, int_eq}
use healtharchive_backend.Jobs.{
  Job, Database, get_job, update_job, RunEnv, Verdict, DirCheck, directory, no_directory,
  unreadable, RunOutcome, exited, raised, verdict, failure_verdict, log_verdict, infra_verdict,
  max_infra_error_retries,
}

pub get-update_job :
    (k i : ℕ) (f : Job → Job) (db : Database)
    → ((j : Job) → (f j).id ≡ j.id)
    → get_job i (update_job k f db)
      ≡ (if i == k then elim (get_job k db) [ none ↦ none | some j ↦ some (f j) ] else get_job i db)
unfolding get_job update_job
get-update_job k i f [] keeps = ground arith
get-update_job k i f (j ∷ db) keeps = ground (arith, get-update_job k i f db keeps, keeps j)

-- A run that did not complete: what is written and returned.
abbrev pub Failed : ℕ → Verdict → Type 0
Failed n v =
    (v.returned ≢ pos 0)
    × (((v.status ≡ "retryable")
          × (v.crawler_status ≡ "infra_error")
          × (n < max_infra_error_retries))
        ⊎ ((v.status ≡ "failed")
            × (((v.crawler_status ≡ "infra_error") × (max_infra_error_retries ≤ n))
                ⊎ ((v.crawler_status ≡ "infra_error_config") ⊎ (v.crawler_status ≡ "failed")))))

infra_verdict-Failed :
    (n : ℕ) (code : Option ℤ) (rc : ℤ) → rc ≢ pos 0 → Failed n (infra_verdict n code rc)
unfolding infra_verdict
infra_verdict-Failed n code rc h = ground arith

log_verdict-Failed : (env : RunEnv) (n : ℕ) (rc : ℤ) → rc ≢ pos 0 → Failed n (log_verdict env n rc)
unfolding log_verdict
log_verdict-Failed env n rc h = ground arith

failure_verdict-Failed :
    (env : RunEnv) (n : ℕ) (rc : ℤ) (check : DirCheck)
    → rc ≢ pos 0
    → Failed n (failure_verdict env n rc check)
unfolding failure_verdict
failure_verdict-Failed env n rc no_directory h = ground arith
failure_verdict-Failed env n rc directory h = log_verdict-Failed env n rc h
failure_verdict-Failed env n rc (unreadable heap x) h =
    ground (arith, log_verdict-Failed env n rc h, infra_verdict-Failed n (some rc) rc h)

-- Every way a run can end: it is completed, with success and code 0, exactly if archive_tool exited
-- with 0. It is retryable exactly as an infrastructure error below the cap of five, and any other run
-- failed; then the code returned is not 0.
pub verdict_lem :
    (env : RunEnv) (n : ℕ) (outcome : RunOutcome)
    → let v = verdict env n outcome in
      ((outcome ≡ exited (some (pos 0)))
        × (v.status ≡ "completed")
        × (v.crawler_status ≡ "success")
        × (v.returned ≡ pos 0))
      ⊎ ((outcome ≢ exited (some (pos 0))) × Failed n v)
unfolding verdict
verdict_lem env n (raised heap k) =
    inr ((λ e. cc), ground (arith, infra_verdict-Failed n none (pos 1)))
verdict_lem env n (exited none) = inr ((λ e. cc), ground arith)
verdict_lem env n (exited (some rc)) = elim (Bool-cases (rc == pos 0)) [
  | inl zero ↦ inl (ground arith)
  | inr other ↦
      inr
        (ground arith, ground (arith, failure_verdict-Failed env n rc env.dir_check (ground arith)))
]
