-- ===== src/Ops/Recover/Capped.antt =====
-- The recoveries of scripts/vps-crawl-auto-recover.py are capped.
use healtharchive_backend.Base.{
  ℕ, ◌+◌, ◌<◌, String, Bool, true, false, ◌≡◌, refl, ap, ◌∙◌, Option, none, some, List, eq_iff, not,
  ◌&&◌, ltb, ◌==◌, string_eq, nat_eq, if◌then◌else◌, arith, inl, inr, Bool-cases,
}
use mathlib.Core.Path.{subst}
use healtharchive_backend.Base.Int.{ℤ, pos, int_eq}
use healtharchive_backend.Json.{Fields}
use healtharchive_backend.Ops.Recover.Host.{Host}
use healtharchive_backend.Ops.Recover.Counts.{IsHost}
use healtharchive_backend.Ops.Recover.Counted.{
  recent, Counted, run_stale-Counted, recover_with-Counted, update_config-recent,
}
use healtharchive_backend.Ops.Recover.Runner.{JobRunner}
use healtharchive_backend.Ops.Recover.Sync.{RunningJob}
use healtharchive_backend.Ops.Recover.Watch.{Sight}
use healtharchive_backend.Ops.Recover.Prepare.{
  World, RunEnd, finishes, quits, raises, update_config,
}
use healtharchive_backend.Ops.Recover.Act.{
  unless_refused, recover_under, unit_of, is_unknown, is_idle, other_recent, refusal_of, ActArgs,
  ActEnv, circuit_of, refusal, finish_recovery, run_stale, recover_with, soft_recover, full_recover,
  recover_job,
}

refusal_of-passed :
    (limit : ℕ) (capped : String) (circuit : Option Bool) (count : Option ℕ) {reason : String}
    → (capped == "") ≡ false
    → refusal_of limit capped circuit count ≡ some reason
    → (reason == "") ≡ true
    → (n : ℕ) × (count ≡ some n) × (n < limit) × (circuit ≡ some false)
unfolding refusal_of
refusal_of-passed limit capped none count full r passed = absurd (ground arith)
refusal_of-passed limit capped (some true) count {reason} full r passed =
    let same : "progress_circuit_open" ≡ reason = grind arith in
    let blank : ◌==◌ {T = String} "progress_circuit_open" "" ≡ true =
      ap (λ (t : String). t == "") same ∙ passed in
    absurd (ground arith)
refusal_of-passed limit capped (some false) none full r passed = absurd (ground arith)
refusal_of-passed limit capped (some false) (some n) full r passed = (n, refl, ground arith, refl)

-- What is known where a job has been recovered.
abbrev Capped : Host → ActArgs → ActEnv → RunningJob → Option ℤ → Fields → RunEnd → Type 0
Capped h a e job crawled state (finishes code result reason v) =
    result ≡ "ok"
    → (n : ℕ) × (recent h job.job_id e.now state ≡ some n)
      × (n < a.max_recoveries)
      × (circuit_of h a job.job_id crawled state ≡ some false)
      × (recent h job.job_id e.now v.state ≡ some (n + 1))
Capped h a e job crawled state _ = Unit {0}

skipped :
    (h : Host) (a : ActArgs) (e : ActEnv) (job : RunningJob) (crawled : Option ℤ) (state : Fields)
    (code : ℤ) (reason : String) (v : World)
    → Capped h a e job crawled state (finishes code "skip" reason v)
skipped h a e job crawled state code reason v ok =
    let same : ◌==◌ {T = String} "skip" "ok" ≡ true = (eq_iff "skip" "ok").1 ok in
    absurd (ground arith)

counted :
    (h : Host) (a : ActArgs) (e : ActEnv) (job : RunningJob) (crawled : Option ℤ) (state : Fields)
    (n : ℕ) (end : RunEnd)
    → recent h job.job_id e.now state ≡ some n
    → n < a.max_recoveries
    → circuit_of h a job.job_id crawled state ≡ some false
    → Counted h job.job_id e.now n end
    → Capped h a e job crawled state end
counted h a e job crawled state n (finishes code result reason v) c lt closed k =
    λ ok. (n, c, lt, closed, k ok)
counted h a e job crawled state n (quits code v) c lt closed k = tt
counted h a e job crawled state n (raises v) c lt closed k = tt

module _ (h : Host) (laws : IsHost h) (a : ActArgs) (e : ActEnv) (job : RunningJob)
    (crawled : Option ℤ) (w : World) where
  updated_world : World
  updated_world = update_config h e.commits none job.job_id job.source_code w

  either :
      (b : Bool) (x y : RunEnd)
      → Capped h a e job crawled w.state x
      → Capped h a e job crawled w.state y
      → Capped h a e job crawled w.state (if b then x else y)
  either true x y p q = p
  either false x y p q = q

  unless_refused-Capped :
      (capped : String) (next : RunEnd)
      → (capped == "") ≡ false
      → ((n : ℕ)
          → recent h job.job_id e.now w.state ≡ some n
          → n < a.max_recoveries
          → circuit_of h a job.job_id crawled w.state ≡ some false
          → Capped h a e job crawled w.state next)
      → (o : Option String) → refusal h a e job.job_id crawled capped w.state ≡ o
      → Capped h a e job crawled w.state (unless_refused o w next)
  unfolding unless_refused refusal
  unless_refused-Capped capped next full k none r = tt
  unless_refused-Capped capped next full k (some reason) r = elim (Bool-cases (reason == "")) [
    | inr refused ↦ rw refused (skipped h a e job crawled w.state (pos 0) reason w)
    | inl passed ↦
        let p =
          refusal_of-passed a.max_recoveries capped (circuit_of h a job.job_id crawled w.state)
            (recent h job.job_id e.now w.state) full r passed in
        rw passed (k p.0 p.1 p.2 p.3)
  ]

  -- The config has been updated; the history is the same.
  same_recent :
      {n : ℕ}
      → recent h job.job_id e.now w.state ≡ some n
      → recent h job.job_id e.now updated_world.state ≡ some n
  unfolding updated_world
  same_recent c =
      update_config-recent h e.commits none job.job_id job.job_id e.now job.source_code w ∙ c

  soft_recover-Capped : Capped h a e job crawled w.state (soft_recover h a e job crawled w)
  unfolding soft_recover updated_world
  soft_recover-Capped =
      let next =
        run_stale h a e job.source_code updated_world
          (finish_recovery h e job.job_id crawled "soft_recovered") in
      either (not a.soft_recover_when_guarded)
        (finishes (pos 0) "skip" "guard_window_healthy_job" w)
        (if not a.apply
          then finishes (pos 0) "skip" "dry_run_soft_recover" w
          else unless_refused (refusal h a e job.job_id crawled "max_recoveries_soft" w.state) w
              next)
        (skipped h a e job crawled w.state (pos 0) "guard_window_healthy_job" w)
        (either (not a.apply) (finishes (pos 0) "skip" "dry_run_soft_recover" w)
          (unless_refused (refusal h a e job.job_id crawled "max_recoveries_soft" w.state) w next)
          (skipped h a e job crawled w.state (pos 0) "dry_run_soft_recover" w)
          (unless_refused-Capped "max_recoveries_soft" next refl
            (λ n c lt closed. counted h a e job crawled w.state n next c lt closed (
              run_stale-Counted h laws a e job n crawled "soft_recovered" updated_world
                (same_recent c)))
            (refusal h a e job.job_id crawled "max_recoveries_soft" w.state) refl))

  full_recover-Capped :
      (found : JobRunner)
      → Capped h a e job crawled w.state (full_recover h a e job found crawled w)
  unfolding full_recover recover_under updated_world
  full_recover-Capped found =
      let unit = recover_with h a e job crawled (unit_of found) updated_world in
      let under =
        if is_unknown found then finishes (pos 2) "skip" "runner_unknown" updated_world else unit in
      let next = if not a.apply then finishes (pos 0) "skip" "dry_run_full_recover" w else under in
      unless_refused-Capped "max_recoveries_full" next refl
        (λ n c lt closed.
          either (not a.apply) (finishes (pos 0) "skip" "dry_run_full_recover" w) under
            (skipped h a e job crawled w.state (pos 0) "dry_run_full_recover" w)
            (either (is_unknown found) (finishes (pos 2) "skip" "runner_unknown" updated_world) unit
              (skipped h a e job crawled w.state (pos 2) "runner_unknown" updated_world)
              (counted h a e job crawled w.state n unit c lt closed (
                recover_with-Counted h laws a e job n crawled (unit_of found) updated_world
                  (same_recent c)))))
        (refusal h a e job.job_id crawled "max_recoveries_full" w.state) refl

  recover_job-Capped :
      (seen : List (RunningJob × Sight)) (found : JobRunner)
      → Capped h a e job crawled w.state (recover_job h a e seen job found crawled w)
  unfolding recover_job
  recover_job-Capped seen found =
      either (ltb 0 a.guard_seconds && (other_recent a e.now job.job_id seen && is_idle found))
        (soft_recover h a e job crawled w) (full_recover h a e job found crawled w)
        soft_recover-Capped (full_recover-Capped found)

-- On a host that reads the texts of its times back (IsHost), a job is recovered, with or without a stop of its
-- runner, only if fewer recoveries than the cap are noted for the last day and the circuit breaker on progress
-- is closed; one more is noted then.
pub recover_job-capped :
    (h : Host)
    → IsHost h
    → (a : ActArgs) (e : ActEnv) (seen : List (RunningJob × Sight)) (job : RunningJob)
      (found : JobRunner) (crawled : Option ℤ) (w : World) {code : ℤ} {reason : String} {v : World}
    → recover_job h a e seen job found crawled w ≡ finishes code "ok" reason v
    → (n : ℕ) × (recent h job.job_id e.now w.state ≡ some n)
      × (n < a.max_recoveries)
      × (circuit_of h a job.job_id crawled w.state ≡ some false)
      × (recent h job.job_id e.now v.state ≡ some (n + 1))
recover_job-capped h laws a e seen job found crawled w r =
    subst (Capped h a e job crawled w.state) r
      (recover_job-Capped h laws a e job crawled w seen found) refl
