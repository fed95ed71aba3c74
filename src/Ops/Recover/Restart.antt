-- ===== src/Ops/Recover/Restart.antt =====
-- The commands of a recovery of scripts/vps-crawl-auto-recover.py: stop, mark, start.
use healtharchive_backend.Base.{
  ◌⊎◌, arith, ℕ, String, Bool, true, false, ◌≡◌, refl, sym, Option, some, List, [], ◌∷◌, ◌++◌, ◌==◌,
  inl, inr, Bool-cases, Option-cases,
}
use mathlib.Core.Path.{subst}
use healtharchive_backend.Base.Int.{ℤ, pos, int_eq}
use healtharchive_backend.Ops.{JobTable}
use healtharchive_backend.Ops.Stale.{
  StaleEnd, exits, stale_raised, StaleEnv, is_positive, recover_stale_jobs,
}
use healtharchive_backend.Ops.Recover.Host.{Host}
use healtharchive_backend.Ops.Recover.Sync.{RunningJob}
use healtharchive_backend.Ops.Recover.Prepare.{
  Command, run_command, recover_stale, systemctl_stop, systemctl_start, World, RunEnd, finishes,
  raises,
}
use healtharchive_backend.Ops.Recover.Act.{
  ActArgs, ActEnv, stale_args, note_recovery, finish_recovery, after_stale, run_stale,
  run_systemctl, recover_with,
}

-- An end that is reached without an exception has run these commands.
abbrev pub HasRun : List Command → RunEnd → Type 0
HasRun commands (finishes code result reason v) = v.commands ≡ commands
HasRun commands _ = Unit

finish_recovery-HasRun :
    (h : Host) (e : ActEnv) (id : ℕ) (crawled : Option ℤ) (reason : String) (v : World)
    → HasRun v.commands (finish_recovery h e id crawled reason v)
unfolding finish_recovery
finish_recovery-HasRun h e id crawled reason v =
    elim (Option-cases (note_recovery h e.now id crawled v.state)) [
      | inl failed ↦
          let end : finish_recovery h e id crawled reason v ≡ raises v =
            rw (failed, finish_recovery) refl in
          subst (HasRun v.commands) (sym end) tt
      | inr (noted, done) ↦
          let end : finish_recovery h e id crawled reason v
              ≡ finishes (pos 0) "ok" reason (record v { state = noted; saved = some noted }) =
            rw (done, finish_recovery) refl in
          subst (HasRun v.commands) (sym end) refl
    ]

run_systemctl-HasRun :
    (works : Bool) (c : Command) (w : World) (next : World → RunEnd) (commands : List Command)
    → HasRun commands (next (run_command c w))
    → HasRun commands (run_systemctl works c w next)
unfolding run_systemctl
run_systemctl-HasRun true c w next commands k = k
run_systemctl-HasRun false c w next commands k = tt

after_stale-HasRun :
    (end : StaleEnd) (w : World) (next : World → RunEnd) (commands : List Command)
    → ((v : World) → v.commands ≡ w.commands → HasRun commands (next v))
    → HasRun commands (after_stale end w next)
unfolding after_stale
after_stale-HasRun stale_raised w next commands k = tt
after_stale-HasRun (exits code table) w next commands k = elim (Bool-cases (code == pos 0)) [
  | inl fine ↦ rw (fine, after_stale) (k (record w { table = table }) refl)
  | inr bad ↦ rw (bad, after_stale) tt
]

-- The commands of a recovery with a unit.
abbrev pub stop_mark_start : String → String → List Command → List Command
stop_mark_start unit source commands =
    ((commands ++ (systemctl_stop unit ∷ [])) ++ (recover_stale source ∷ []))
    ++ (systemctl_start unit ∷ [])

pub recover_with-HasRun :
    (h : Host) (a : ActArgs) (e : ActEnv) (job : RunningJob) (crawled : Option ℤ) (unit : String)
    (w : World)
    → HasRun
        (stop_mark_start unit job.source_code w.commands)
        (recover_with h a e job crawled (some unit) w)
unfolding recover_with run_stale run_command
recover_with-HasRun h a e job crawled unit w =
    let all = stop_mark_start unit job.source_code w.commands in
    let done = finish_recovery h e job.job_id crawled "full_recovered" in
    let last = λ (marked : World). run_systemctl e.restarts (systemctl_start unit) marked done in
    let stopped = run_command (systemctl_stop unit) w in
    let asked = run_command (recover_stale job.source_code) stopped in
    run_systemctl-HasRun e.stops (systemctl_stop unit) w
      (λ v. run_stale h a e job.source_code v last) all
      (after_stale-HasRun (recover_stale_jobs (stale_args h a job.source_code) e.stale w.table)
        asked last all
        (λ marked same. run_systemctl-HasRun e.restarts (systemctl_start unit) marked done all (
          subst
            (λ (cs : List Command).
              HasRun (cs ++ (systemctl_start unit ∷ []))
                (done (run_command (systemctl_start unit) marked)))
            same
            (finish_recovery-HasRun h e job.job_id crawled "full_recovered"
              (run_command (systemctl_start unit) marked)))))

-- A recovery that stops a unit and ends without an exception has stopped it, run `recover-stale-jobs` and
-- started the unit again, in this order, after the commands before.
pub recover_with-restarts :
    (h : Host) (a : ActArgs) (e : ActEnv) (job : RunningJob) (crawled : Option ℤ) (unit : String)
    (w : World) {code : ℤ} {result reason : String} {v : World}
    → recover_with h a e job crawled (some unit) w ≡ finishes code result reason v
    → v.commands ≡ stop_mark_start unit job.source_code w.commands
recover_with-restarts h a e job crawled unit w r =
    subst (HasRun (stop_mark_start unit job.source_code w.commands)) r
      (recover_with-HasRun h a e job crawled unit w)

-- The arguments of `recover-stale-jobs` that it refuses.
abbrev pub Refused : ActArgs → Type 0
Refused a = (is_positive a.recover_older_than_minutes ≡ false) ⊎ (a.stall_threshold_seconds ≡ 0)

recover_stale_jobs-Refused :
    (h : Host) (a : ActArgs) (source : String) (e : StaleEnv) (table : JobTable)
    → Refused a
    → recover_stale_jobs (stale_args h a source) e table ≡ exits (pos 2) table
unfolding recover_stale_jobs
recover_stale_jobs-Refused h a source e table (inl age) = ground arith
recover_stale_jobs-Refused h a source e table (inr threshold) =
    let unset : is_positive (pos a.stall_threshold_seconds) ≡ false = rw threshold refl in
    ground arith

-- The watchdog does not check the minimum age and the threshold that it passes on to `recover-stale-jobs`, which
-- refuses an age that is not positive and a threshold of 0: with such arguments a recovery whose stop works raises
-- after that command, with the unit stopped and not started again, and the row, the state in memory and the one in
-- the file are those before, so that nothing of the attempt is noted.
pub recover_with-stranded :
    (h : Host) (a : ActArgs) (e : ActEnv) (job : RunningJob) (crawled : Option ℤ) (unit : String)
    (w : World)
    → Refused a
    → e.stops ≡ true
    → recover_with h a e job crawled (some unit) w
      ≡ raises (record w {
        commands =
            (w.commands ++ (systemctl_stop unit ∷ [])) ++ (recover_stale job.source_code ∷ []);
      })
unfolding recover_with run_stale run_command run_systemctl after_stale
recover_with-stranded h a e job crawled unit w refused stopped =
    rw (stopped, recover_stale_jobs-Refused h a job.source_code e.stale w.table refused) refl
