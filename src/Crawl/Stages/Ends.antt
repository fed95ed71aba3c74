-- ===== src/Crawl/Stages/Ends.antt =====
-- The outer loop of src/archive_tool/main.py ends: an iteration is followed by another one only at the
-- cost of one of the hundred attempts or of one adaptation.
use healtharchive_backend.Base.{
  ℕ, zero, suc, ◌+◌, ◌-◌, ◌≤◌, ◌<◌, String, Bool, true, false, ◌≡◌, ◌≢◌, refl, ◌||◌, ◌&&◌, not,
  Option, none, some, List, ◌==◌, string_eq, if◌then◌else◌, arith, inl, inr, Bool-cases,
  Option-cases, leb,
}
use healtharchive_backend.Base.Int.{ℤ}
use healtharchive_backend.Crawl.State.{CrawlState, save_persistent_state}
use healtharchive_backend.Crawl.State.TempDirs.{get_temp_dir_paths}
use healtharchive_backend.Crawl.State.Progress.{reset_runtime_errors}
use healtharchive_backend.Crawl.Strategies.{Args}
use healtharchive_backend.Crawl.Strategies.Budget.{budget}
use healtharchive_backend.Crawl.Stages.Watch.{RunArgs, discover, Watched, watch}
use healtharchive_backend.Crawl.Stages.Prepare.{
  StageEnv, Prepared, ready, bad_state, prepare_resume, prepare, reset_for_stage,
}
use healtharchive_backend.Crawl.Stages.{
  Loop, Step, again, leaves, raises, max_crawl_stages, stage_status, status_after_exit, final_rc,
  is_success, judge, record_temp_dir, resume_after_backoff, decide, end_stage, watch_stage,
  stage_command, run_stage, is_monitored, Ended, ended, crashed, out_of_fuel, crawl_loop,
}
use healtharchive_backend.Crawl.Stages.Within.{
  paid, budget-add_temp_dir, budget-discover, watch-Within,
}

-- The state that a preparation leaves.
abbrev prepared_state : Prepared → CrawlState
prepared_state (ready name extra s) = s
prepared_state (bad_state s) = s

paid-if :
    (b : Bool) (x y : String) (n : ℕ) → paid x ≤ n → paid y ≤ n → paid (if b then x else y) ≤ n
paid-if true x y n p q = p
paid-if false x y n p q = q

paid-status_after_exit :
    (rc : Option ℤ) (status : String) → paid (status_after_exit rc status) ≤ paid status
unfolding status_after_exit
paid-status_after_exit (some rc) status = omega arith
paid-status_after_exit none status =
    paid-if (status == "stopped" || status == "stopped_for_adaptation") status "failed"
      (paid status) (omega arith) (omega arith)

paid-judge : (success : Bool) (status : String) → paid (judge success status) ≤ paid status
unfolding judge
paid-judge success status =
    paid-if (status == "running" || status == "running_no_monitor")
      (if success then "success" else "failed") status (paid status)
      (paid-if success "success" "failed" (paid status) (omega arith) (omega arith)) (omega arith)

-- What follows the inner loop.
module _ (e : StageEnv) where
  paid-stage_status : (status : String) → paid (stage_status e status) ≤ paid status
  unfolding stage_status
  paid-stage_status status =
      let rc = final_rc e in
      omega (
        arith,
        paid-judge (is_success rc) (status_after_exit rc status),
        paid-status_after_exit rc status,
      )

  budget-prepare_resume :
      (args : Args) (s : CrawlState)
      → budget args (prepared_state (prepare_resume e s)) ≡ budget args s
  unfolding prepare_resume get_temp_dir_paths save_persistent_state budget
  budget-prepare_resume args s = ground arith

  budget-prepare :
      (args : Args) (name : String) (s : CrawlState)
      → budget args (prepared_state (prepare e name s)) ≡ budget args s
  unfolding prepare
  budget-prepare args name s = ground (arith, budget-prepare_resume args s)

  budget-record_temp_dir :
      (args : Args) (s : CrawlState) {t : CrawlState}
      → record_temp_dir e s ≡ some t
      → budget args t ≡ budget args s
  unfolding record_temp_dir
  budget-record_temp_dir args s {t} h = elim (Option-cases e.temp_dir) [
    | inl unknown ↦ ground arith
    | inr (path, known) ↦ budget-add_temp_dir args e.env path s (ground arith)
  ]

  budget-reset_for_stage :
      (args : Args) (s : CrawlState) → budget args (reset_for_stage s) ≡ budget args s
  unfolding reset_for_stage reset_runtime_errors budget
  budget-reset_for_stage args s = refl

-- What an iteration can still be followed by: the attempts and the adaptations that are left.
abbrev pub measure : RunArgs → Loop → ℕ
measure args l = max_crawl_stages + 1 - l.attempt + budget args.adaptive l.state

-- Another iteration follows only at a cost.
abbrev Cheaper : RunArgs → ℕ → Step → Type 0
Cheaper args m (again next) = measure args next < m
Cheaper args m (leaves status stop s) = Unit
Cheaper args m raises = Unit

resume_after_backoff-Cheaper :
    (args : RunArgs) (e : StageEnv) (l : Loop) (m : ℕ)
    → measure args l < m
    → Cheaper args m (resume_after_backoff args e l)
unfolding resume_after_backoff
resume_after_backoff-Cheaper args e l m h = ground arith

decide-Cheaper :
    (args : RunArgs) (e : StageEnv) (status : String) (l : Loop) (m : ℕ)
    → max_crawl_stages + 1 - l.attempt + budget args.adaptive l.state + paid status ≤ m
    → l.attempt ≤ max_crawl_stages
    → Cheaper args m (decide args e status l)
unfolding decide
decide-Cheaper args e status l m h a = ground (
  arith,
  resume_after_backoff-Cheaper args e l m,
  resume_after_backoff-Cheaper args e (record l { attempt = l.attempt + 1 }) m,
)

end_stage-Cheaper :
    (args : RunArgs) (e : StageEnv) (has_id : Bool) (name : String) (attempt : ℕ) (w : Watched)
    (m : ℕ)
    → max_crawl_stages + 1 - attempt + (budget args.adaptive w.state + paid w.status) ≤ m
    → attempt ≤ max_crawl_stages
    → Cheaper args m (end_stage args e has_id name attempt w)
unfolding end_stage
end_stage-Cheaper args e has_id name attempt w m h a =
    elim (Option-cases (record_temp_dir e w.state)) [
      | inl failed ↦ rw (failed, Cheaper, end_stage) tt
      | inr (s, recorded) ↦
          rw (recorded, Cheaper, end_stage)
            (decide-Cheaper args e (stage_status e w.status)
              (record {
                stage_name = name;
                attempt = attempt;
                stop = w.stop || (is_monitored args e has_id && e.alive_at_end);
                state = s;
                queue = w.queue;
              })
              m
              (omega (
                arith,
                budget-record_temp_dir e args.adaptive w.state recorded,
                paid-stage_status e w.status,
              ))
              a)
    ]

watch_stage-Cheaper :
    (args : RunArgs) (e : StageEnv) (has_id : Bool) (name : String) (l : Loop) (s : CrawlState)
    (m : ℕ)
    → max_crawl_stages + 1 - l.attempt + budget args.adaptive s ≤ m
    → l.attempt ≤ max_crawl_stages
    → Cheaper args m (watch_stage args e has_id name l s)
unfolding watch_stage
watch_stage-Cheaper args e has_id name l s m h a =
    let w : Watched = record {
      status = if has_id then "running" else "running_no_monitor";
      state = discover args e.env e.discovered (reset_for_stage s);
      stop = l.stop;
      queue = l.queue;
    } in
    let free = paid-if has_id "running" "running_no_monitor" 0 (omega arith) (omega arith) in
    let kept = watch-Within args (is_monitored args e has_id) e.rounds w (budget args.adaptive s) (
      omega (
        arith,
        budget-discover args e.env e.discovered (reset_for_stage s),
        budget-reset_for_stage e args.adaptive s,
        free,
      )) in
    end_stage-Cheaper args e has_id name l.attempt
      (watch args (is_monitored args e has_id) e.rounds w) m (omega (arith, kept)) a

contained-Cheaper :
    (args : RunArgs) (e : StageEnv) (l : Loop)
    → l.attempt ≤ max_crawl_stages
    → (name : String) (s : CrawlState) (c : Option Bool)
    → budget args.adaptive s ≡ budget args.adaptive l.state
    → Cheaper args (measure args l) (elim c [
      | none ↦ leaves "docker_start_failed" l.stop s
      | some has_id ↦ watch_stage args e has_id name l s
    ])
contained-Cheaper args e l a name s none h = tt
contained-Cheaper args e l a name s (some has_id) h =
    watch_stage-Cheaper args e has_id name l s (measure args l) (omega (arith, h)) a

-- An iteration is followed by another one only if an attempt or an adaptation was used up.
run_stage-Cheaper :
    (args : RunArgs) (e : StageEnv) (l : Loop)
    → l.attempt ≤ max_crawl_stages
    → Cheaper args (measure args l) (run_stage args e l)
unfolding run_stage
run_stage-Cheaper args e l a =
    let kept =
      budget-prepare e args.adaptive l.stage_name
        (record l.state { stage_start_time = some e.start_time }) in
    started (prepare e l.stage_name (record l.state { stage_start_time = some e.start_time }))
      e.container
      (let same : budget args.adaptive (record l.state { stage_start_time = some e.start_time })
            ≡ budget args.adaptive l.state =
          unfold budget in refl in
        omega (arith, kept))
  where
    started :
        (p : Prepared) (start : List String → Option Bool)
        → budget args.adaptive (prepared_state p) ≡ budget args.adaptive l.state
        → Cheaper args (measure args l) (elim p [
          | bad_state s ↦ leaves "failed_state_error" l.stop s
          | ready name extra s ↦ elim (start (stage_command args extra s)) [
            | none ↦ leaves "docker_start_failed" l.stop s
            | some has_id ↦ watch_stage args e has_id name l s
          ]
        ])
    started (bad_state s) start h = tt
    started (ready name extra s) start h =
        contained-Cheaper args e l a name s (start (stage_command args extra s)) h

-- With fuel for a hundred and one attempts and every adaptation left the outer loop ends, whatever
-- the containers and the monitor's threads do.
pub crawl_loop-ends :
    (fuel : ℕ) (args : RunArgs) (envs : ℕ → StageEnv) (k : ℕ) (l : Loop)
    → measure args l < fuel
    → crawl_loop fuel args envs k l ≢ out_of_fuel
unfolding crawl_loop
crawl_loop-ends zero args envs k l h = absurd (omega arith)
crawl_loop-ends (suc fuel) args envs k l h =
    let stop = l.stop || (envs k).signal_before in
    elim (Bool-cases (leb l.attempt max_crawl_stages && not stop)) [
      | inr over ↦ rw (over, crawl_loop) (λ q. cc)
      | inl runs ↦
          rw (runs, crawl_loop)
            (goes_on (run_stage args (envs k) (record l { stop = stop }))
              (run_stage-Cheaper args (envs k) (record l { stop = stop }) (ground arith))
              (λ next c. crawl_loop-ends fuel args envs (suc k) next (omega (arith, c, h))))
    ]
  where
    goes_on :
        (step : Step)
        → Cheaper args (measure args l) step
        → ((next : Loop)
            → measure args next < measure args l
            → crawl_loop fuel args envs (suc k) next ≢ out_of_fuel)
        → ◌≢◌ {A = Ended}
            (elim step [
              | again next ↦ crawl_loop fuel args envs (suc k) next
              | leaves status stop' s ↦ ended status stop' s
              | raises ↦ crashed
            ])
            out_of_fuel
    goes_on (again next) c ih = ih next c
    goes_on (leaves status stop' s) c ih = λ q. cc
    goes_on raises c ih = λ q. cc
