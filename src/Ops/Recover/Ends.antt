-- ===== src/Ops/Recover/Ends.antt =====
-- What holds of every end of a recovery of scripts/vps-crawl-auto-recover.py: a command that fails raises, and
-- the state in memory waits for the last step.
use healtharchive_backend.Base.{
  String, Bool, true, false, ◌≡◌, refl, sym, ◌∙◌, Option, none, some, ◌==◌, inl, inr, Bool-cases,
}
use mathlib.Core.Path.{subst}
use healtharchive_backend.Base.Int.{ℤ, pos, int_eq}
use healtharchive_backend.Ops.Stale.{StaleEnd, exits, stale_raised, recover_stale_jobs}
use healtharchive_backend.Ops.Recover.Host.{Host}
use healtharchive_backend.Ops.Recover.Sync.{RunningJob}
use healtharchive_backend.Ops.Recover.Prepare.{
  Command, run_command, recover_stale, systemctl_stop, systemctl_start, World, RunEnd, raises,
}
use healtharchive_backend.Ops.Recover.Act.{
  ActArgs, ActEnv, stale_args, finish_recovery, after_stale, run_stale, run_systemctl, recover_with,
}

module _ (P : RunEnd → Type 0) (fails : (v : World) → P (raises v)) where
  run_systemctl_ends :
      (works : Bool) (c : Command) (w : World) (next : World → RunEnd)
      → ((v : World) → v.state ≡ w.state → P (next v))
      → P (run_systemctl works c w next)
  unfolding run_systemctl
  run_systemctl_ends true c w next k = k (run_command c w) refl
  run_systemctl_ends false c w next k = fails (run_command c w)

  after_stale_ends :
      (end : StaleEnd) (w : World) (next : World → RunEnd)
      → ((v : World) → v.state ≡ w.state → P (next v))
      → P (after_stale end w next)
  unfolding after_stale
  after_stale_ends stale_raised w next k = fails w
  after_stale_ends (exits code table) w next k = elim (Bool-cases (code == pos 0)) [
    | inl fine ↦
        let end : after_stale (exits code table) w next ≡ next (record w { table = table }) =
          rw (fine, after_stale) refl in
        subst P (sym end) (k (record w { table = table }) refl)
    | inr bad ↦
        let end : after_stale (exits code table) w next ≡ raises (record w { table = table }) =
          rw (bad, after_stale) refl in
        subst P (sym end) (fails (record w { table = table }))
  ]

  pub run_stale_ends :
      (h : Host) (a : ActArgs) (e : ActEnv) (source : String) (w : World) (next : World → RunEnd)
      → ((v : World) → v.state ≡ w.state → P (next v))
      → P (run_stale h a e source w next)
  unfolding run_stale
  run_stale_ends h a e source w next k =
      after_stale_ends (recover_stale_jobs (stale_args h a source) e.stale w.table)
        (run_command (recover_stale source) w) next k

  pub recover_with_ends :
      (h : Host) (a : ActArgs) (e : ActEnv) (job : RunningJob) (crawled : Option ℤ)
      (unit : Option String) (w : World)
      → ((v : World)
          → v.state ≡ w.state
          → P (finish_recovery h e job.job_id crawled "full_recovered" v))
      → P (recover_with h a e job crawled unit w)
  unfolding recover_with
  recover_with_ends h a e job crawled none w k =
      run_stale_ends h a e job.source_code w
        (finish_recovery h e job.job_id crawled "full_recovered") k
  recover_with_ends h a e job crawled (some unit) w k =
      let last = λ (marked : World).
        run_systemctl e.restarts (systemctl_start unit) marked
          (finish_recovery h e job.job_id crawled "full_recovered") in
      run_systemctl_ends e.stops (systemctl_stop unit) w
        (λ stopped. run_stale h a e job.source_code stopped last)
        (λ stopped p. run_stale_ends h a e job.source_code stopped last (λ marked q.
          run_systemctl_ends e.restarts (systemctl_start unit) marked
            (finish_recovery h e job.job_id crawled "full_recovered") (λ v r. k v (r ∙ (q ∙ p)))))
