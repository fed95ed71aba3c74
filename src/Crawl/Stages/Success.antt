-- ===== src/Crawl/Stages/Success.antt =====
-- The exit code of a run of src/archive_tool/main.py, from the outer loop on.
use healtharchive_backend.Base.{
  ℕ, zero, suc, ◌<◌, String, Bool, false, ◌≡◌, ◌≢◌, refl, ap, ◌∙◌, ◌||◌, ◌&&◌, not, some, ◌==◌,
  string_eq, eq_iff, leb, arith, inl, inr, Bool-cases,
}
use healtharchive_backend.Crawl.State.{CrawlState}
use healtharchive_backend.Crawl.Stages.Watch.{RunArgs}
use healtharchive_backend.Crawl.Stages.Prepare.{StageEnv}
use healtharchive_backend.Crawl.Stages.Final.{FinalEnv, Exit, uncaught, finish_run}
use healtharchive_backend.Crawl.Stages.Outcome.{Archived, finish_run-success}
use healtharchive_backend.Crawl.Stages.Ends.{crawl_loop-ends, measure}
use healtharchive_backend.Crawl.Stages.{
  Loop, Step, again, leaves, raises, max_crawl_stages, run_stage, Ended, ended, crashed,
  out_of_fuel, crawl_loop, conclude,
}
use healtharchive_backend.Crawl.Stages.Spoiled.{Stopped, run_stage-Stopped}

-- The exit code is 0 only if the run reached its end, was not stopped and is archived.
abbrev Justified : RunArgs → FinalEnv → Ended → Type 0
Justified args e (ended status stop s) =
    (finish_run args e status stop s).code ≡ 0
    → (status ≡ "pending_final_build") × (stop ≡ false) × Archived args e s
Justified args e crashed = Unit
Justified args e out_of_fuel = Unit

finish_run-Justified :
    (args : RunArgs) (e : FinalEnv) (status : String) (stop : Bool) (s : CrawlState)
    → (status == "success") ≡ false
    → Justified args e (ended status stop s)
finish_run-Justified args e status stop s n h =
    finish_run-success args e status stop s (ground (arith, eq_iff status "success")) h

crawl_loop-Justified :
    (fuel : ℕ) (args : RunArgs) (envs : ℕ → StageEnv) (e : FinalEnv) (k : ℕ) (l : Loop)
    → Justified args e (crawl_loop fuel args envs k l)
unfolding crawl_loop
crawl_loop-Justified zero args envs e k l = tt
crawl_loop-Justified (suc fuel) args envs e k l =
    let stop = l.stop || (envs k).signal_before in
    elim (Bool-cases (leb l.attempt max_crawl_stages && not stop)) [
      | inr over ↦
          rw (over, crawl_loop, Justified) (finish_run-Justified args e "failed" stop l.state refl)
      | inl runs ↦
          rw (runs, crawl_loop, Justified)
            (goes_on (run_stage args (envs k) (record l { stop = stop }))
              (run_stage-Stopped args (envs k) false (record l { stop = stop }) (λ q. cc))
              (λ next. crawl_loop-Justified fuel args envs e (suc k) next))
    ]
  where
    goes_on :
        (step : Step)
        → Stopped false step
        → ((next : Loop) → Justified args e (crawl_loop fuel args envs (suc k) next))
        → Justified args e (elim step [
          | again next ↦ crawl_loop fuel args envs (suc k) next
          | leaves status stop' s ↦ ended status stop' s
          | raises ↦ crashed
        ])
    goes_on (again next) c ih = ih next
    goes_on (leaves status stop' s) c ih = finish_run-Justified args e status stop' s c.0
    goes_on raises c ih = tt

-- A run that was not stopped and ended with this state is archived.
abbrev pub EndsArchived : RunArgs → FinalEnv → Ended → Type 0
EndsArchived args e r =
    (s : CrawlState) × (r ≡ ended "pending_final_build" false s) × Archived args e s

-- With fuel for the attempts and the adaptations that are left the run ends with an exit code, and the
-- code is 0 only if the run reached its end without a stop, in a state in which it is archived.
pub crawl_loop-exit :
    (fuel : ℕ) (args : RunArgs) (envs : ℕ → StageEnv) (e : FinalEnv) (k : ℕ) (l : Loop)
    → measure args l < fuel
    → (exit : Exit) × (conclude args e (crawl_loop fuel args envs k l) ≡ some exit)
      × (exit.code ≡ 0 → EndsArchived args e (crawl_loop fuel args envs k l))
unfolding conclude
crawl_loop-exit fuel args envs e k l enough =
    with_result (crawl_loop fuel args envs k l) (crawl_loop-ends fuel args envs k l enough)
      (crawl_loop-Justified fuel args envs e k l)
  where
    with_result :
        (r : Ended)
        → r ≢ out_of_fuel
        → Justified args e r
        → (exit : Exit) × (conclude args e r ≡ some exit) × (exit.code ≡ 0 → EndsArchived args e r)
    with_result (ended status stop s) n h = (
      finish_run args e status stop s,
      refl,
      λ q.
          let w = h q in
          (s, ap (λ x. ended x stop s) w.0 ∙ ap (λ b. ended "pending_final_build" b s) w.1, w.2),
    )
    with_result crashed n h = (uncaught, refl, λ q. absurd (omega (arith, q)))
    with_result out_of_fuel n h = absurd (n refl)
