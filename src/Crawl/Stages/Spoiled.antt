-- ===== src/Crawl/Stages/Spoiled.antt =====
-- The stop event that src/archive_tool/main.py shares with the monitor of a stage: what an iteration of
-- the outer loop leaves when the event is set.
use healtharchive_backend.Base.{
  ℕ, zero, suc, ◌+◌, String, Bool, true, false, ◌≡◌, ◌≢◌, ◌⊎◌, refl, ◌||◌, ◌&&◌, not, Option, none,
  some, List, ◌==◌, string_eq, eq_iff, leb, arith, inl, inr, Bool-cases, Option-cases,
}
use mathlib.Core.Path.{subst}
use healtharchive_backend.Crawl.State.{CrawlState}
use healtharchive_backend.Crawl.Stages.Watch.{RunArgs, Watched}
use healtharchive_backend.Crawl.Stages.Prepare.{StageEnv, Prepared, ready, bad_state, prepare}
use healtharchive_backend.Crawl.Stages.Final.{FinalEnv, Exit, finish_run}
use healtharchive_backend.Crawl.Stages.Outcome.{finish_run-success}
use healtharchive_backend.Crawl.Stages.{
  Loop, Step, again, leaves, raises, max_crawl_stages, stage_status, record_temp_dir, is_monitored,
  resume_after_backoff, decide, end_stage, watch_stage, stage_command, run_stage, ended, crashed,
  crawl_loop, conclude,
}

-- No iteration reports a success by itself; and where the event is set, nothing follows but the end of
-- the run, without a final build.
abbrev pub Stopped : Bool → Step → Type 0
Stopped set (again next) = set ≡ true → next.stop ≡ true
Stopped set (leaves status stop s) =
    ((status == "success") ≡ false)
    × (set ≡ true → (status == "pending_final_build" && not stop) ≡ false)
Stopped set raises = Unit

resume_after_backoff-Stopped :
    (args : RunArgs) (e : StageEnv) (l : Loop) → Stopped l.stop (resume_after_backoff args e l)
unfolding resume_after_backoff
resume_after_backoff-Stopped args e l = ground arith

decide-Stopped :
    (args : RunArgs) (e : StageEnv) (status : String) (l : Loop)
    → Stopped l.stop (decide args e status l)
unfolding decide
decide-Stopped args e status l = ground (
  arith,
  resume_after_backoff-Stopped args e l,
  resume_after_backoff-Stopped args e (record l { attempt = l.attempt + 1 }),
)

Stopped-weaken :
    (b c : Bool) (step : Step) → (b ≡ true → c ≡ true) → Stopped c step → Stopped b step
Stopped-weaken b c (again next) f h = λ q. h (f q)
Stopped-weaken b c (leaves status stop s) f h = (h.0, λ q. h.1 (f q))
Stopped-weaken b c raises f h = tt

end_stage-Stopped :
    (args : RunArgs) (e : StageEnv) (has_id : Bool) (name : String) (attempt : ℕ) (w : Watched)
    → Stopped
        (is_monitored args e has_id && e.alive_at_end)
        (end_stage args e has_id name attempt w)
unfolding end_stage
end_stage-Stopped args e has_id name attempt w = elim (Option-cases (record_temp_dir e w.state)) [
  | inl failed ↦ rw (failed, Stopped, end_stage) tt
  | inr (s, recorded) ↦
      let alive = is_monitored args e has_id && e.alive_at_end in
      let status = stage_status e w.status in
      let l : Loop = record {
        stage_name = name;
        attempt = attempt;
        stop = w.stop || alive;
        state = s;
        queue = w.queue;
      } in
      rw (recorded, Stopped, end_stage)
        (Stopped-weaken alive (w.stop || alive) (decide args e status l) (λ q. rw q (ground arith))
          (decide-Stopped args e status l))
]

-- A container does not start, or it starts with an id and gets a monitor that is alive when it has ended.
abbrev pub Spoiled : RunArgs → StageEnv → Type 0
Spoiled args e =
    (command : List String)
    → (e.container command ≡ none)
      ⊎ ((e.container command ≡ some true)
          × ((args.enable_monitoring && (e.monitor_starts && e.alive_at_end)) ≡ true))

contained-Stopped :
    (args : RunArgs) (e : StageEnv) (set : Bool)
    → (set ≡ true → Spoiled args e)
    → (name : String) (l : Loop) (s : CrawlState) (command : List String) (c : Option Bool)
    → e.container command ≡ c
    → Stopped set (elim c [
      | none ↦ leaves "docker_start_failed" l.stop s
      | some has_id ↦ watch_stage args e has_id name l s
    ])
unfolding watch_stage
contained-Stopped args e set why name l s command none h = (refl, λ q. refl)
contained-Stopped args e set why name l s command (some false) h =
    Stopped-weaken set (is_monitored args e false && e.alive_at_end) _
      (λ q. elim (why q command) [
        | inl fails ↦ absurd (ground arith)
        | inr (starts, _) ↦ absurd (ground arith)
      ])
      (end_stage-Stopped args e false name l.attempt _)
contained-Stopped args e set why name l s command (some true) h =
    Stopped-weaken set (is_monitored args e true && e.alive_at_end) _
      (λ q. elim (why q command) [
        | inl fails ↦ absurd (ground arith)
        | inr (_, watched) ↦ monitored watched
      ])
      (end_stage-Stopped args e true name l.attempt _)
  where
    monitored :
        (args.enable_monitoring && (e.monitor_starts && e.alive_at_end)) ≡ true
        → (is_monitored args e true && e.alive_at_end) ≡ true
    monitored q = ground arith

pub run_stage-Stopped :
    (args : RunArgs) (e : StageEnv) (set : Bool) (l : Loop)
    → (set ≡ true → Spoiled args e)
    → Stopped set (run_stage args e l)
unfolding run_stage
run_stage-Stopped args e set l why =
    started (prepare e l.stage_name (record l.state { stage_start_time = some e.start_time }))
  where
    started :
        (p : Prepared)
        → Stopped set (elim p [
          | bad_state s ↦ leaves "failed_state_error" l.stop s
          | ready name extra s ↦ elim (e.container (stage_command args extra s)) [
            | none ↦ leaves "docker_start_failed" l.stop s
            | some has_id ↦ watch_stage args e has_id name l s
          ]
        ])
    started (bad_state s) = (refl, λ q. refl)
    started (ready name extra s) =
        contained-Stopped args e set why name l s (stage_command args extra s)
          (e.container (stage_command args extra s)) refl

abbrev Unsuccessful : Option Exit → Type 0
Unsuccessful none = Unit
Unsuccessful (some exit) = exit.code ≢ 0

finish_run-Unsuccessful :
    (args : RunArgs) (e : FinalEnv) (status : String) (stop : Bool) (s : CrawlState)
    → (status == "success") ≡ false
    → (status == "pending_final_build" && not stop) ≡ false
    → (finish_run args e status stop s).code ≢ 0
finish_run-Unsuccessful args e status stop s n p zero_code =
    let done =
      finish_run-success args e status stop s (ground (arith, eq_iff status "success")) zero_code in
    ground (arith, eq_iff status "pending_final_build")

-- A loop that is entered with the event set.
stopped-Unsuccessful :
    (fuel : ℕ) (args : RunArgs) (envs : ℕ → StageEnv) (e : FinalEnv) (k : ℕ) (l : Loop)
    → l.stop ≡ true
    → Unsuccessful (conclude args e (crawl_loop fuel args envs k l))
unfolding crawl_loop conclude
stopped-Unsuccessful zero args envs e k l h = tt
stopped-Unsuccessful (suc fuel) args envs e k l h =
    let stop = l.stop || (envs k).signal_before in
    let over : (leb l.attempt max_crawl_stages && not stop) ≡ false = ground arith in
    rw (over, crawl_loop) (finish_run-Unsuccessful args e "failed" stop l.state refl refl)

Spoiled-Unsuccessful :
    (fuel : ℕ) (args : RunArgs) (envs : ℕ → StageEnv) (e : FinalEnv) (k : ℕ) (l : Loop)
    → Spoiled args (envs k)
    → Unsuccessful (conclude args e (crawl_loop fuel args envs k l))
unfolding crawl_loop conclude
Spoiled-Unsuccessful zero args envs e k l spoiled = tt
Spoiled-Unsuccessful (suc fuel) args envs e k l spoiled =
    let stop = l.stop || (envs k).signal_before in
    elim (Bool-cases (leb l.attempt max_crawl_stages && not stop)) [
      | inr over ↦
          rw (over, crawl_loop) (finish_run-Unsuccessful args e "failed" stop l.state refl refl)
      | inl runs ↦
          rw (runs, crawl_loop)
            (goes_on (run_stage args (envs k) (record l { stop = stop }))
              (run_stage-Stopped args (envs k) true (record l { stop = stop }) (λ q. spoiled)))
    ]
  where
    goes_on :
        (step : Step)
        → Stopped true step
        → Unsuccessful (
            conclude args e (elim step [
              | again next ↦ crawl_loop fuel args envs (suc k) next
              | leaves status stop' s ↦ ended status stop' s
              | raises ↦ crashed
            ]))
    goes_on (again next) c = stopped-Unsuccessful fuel args envs e (suc k) next (c refl)
    goes_on (leaves status stop' s) c = finish_run-Unsuccessful args e status stop' s c.0 (c.1 refl)
    goes_on raises c = λ q. absurd (omega (arith, q))

-- If the container of a stage does not start, or it starts, its monitor does, and the monitor is alive when the
-- container has ended, then the run does not exit with 0: the event that stops the monitor is the one that the
-- outer loop and the final stage test.
pub crawl_loop-Spoiled :
    (fuel : ℕ) (args : RunArgs) (envs : ℕ → StageEnv) (e : FinalEnv) (k : ℕ) (l : Loop)
    {exit : Exit}
    → Spoiled args (envs k)
    → conclude args e (crawl_loop fuel args envs k l) ≡ some exit
    → exit.code ≢ 0
crawl_loop-Spoiled fuel args envs e k l spoiled ends =
    subst Unsuccessful ends (Spoiled-Unsuccessful fuel args envs e k l spoiled)
