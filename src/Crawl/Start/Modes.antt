-- ===== src/Crawl/Start/Modes.antt =====
-- The modes in which `main` of src/archive_tool/main.py begins a run, what it keeps of the state in each, and
-- the exit code of the whole run.
use healtharchive_backend.Base.{
  ℕ, ◌+◌, ◌<◌, String, Bool, true, ◌≡◌, ◌≢◌, ◌⊎◌, refl, some, [], string_eq, arith, inl, inr,
  Bool-cases, Option-cases,
}
use healtharchive_backend.Base.Int.{ℤ, pos}
use healtharchive_backend.Crawl.Env.{Env}
use healtharchive_backend.Crawl.State.{CrawlState}
use healtharchive_backend.Crawl.State.TempDirs.{init}
use healtharchive_backend.Crawl.Strategies.Budget.{budget}
use healtharchive_backend.Crawl.Stages.Watch.{RunArgs}
use healtharchive_backend.Crawl.Stages.Prepare.{StageEnv}
use healtharchive_backend.Crawl.Stages.Final.{FinalEnv, Exit, uncaught}
use healtharchive_backend.Crawl.Stages.{Loop, crawl_loop}
use healtharchive_backend.Crawl.Stages.Success.{EndsArchived, crawl_loop-exit}
use healtharchive_backend.Crawl.Start.{
  Numbers, StartEnv, Begun, begins, quits, fails, merge_discovered, can_resume, has_prior_warcs,
  run_mode, choose_mode, effective_initial_workers, begin, exits, run_begun, main,
}

-- What a crawl has spent, and its workers.
pub record Counts : Type 0 where
  vpn_rotations : ℤ
  worker_reductions : ℤ
  container_restarts : ℤ
  workers : ℤ

abbrev pub counts : CrawlState → Counts
counts s = record {
  vpn_rotations = s.vpn_rotations_done;
  worker_reductions = s.worker_reductions_done;
  container_restarts = s.container_restarts_done;
  workers = s.current_workers;
}

-- Nothing is spent yet.
abbrev pub Unspent : CrawlState → Type 0
Unspent t =
    (t.vpn_rotations_done ≡ pos 0)
    × (t.worker_reductions_done ≡ pos 0)
    × (t.container_restarts_done ≡ pos 0)

run_mode-ne-quits :
    (args : RunArgs) (e : StartEnv) (resumable warcs : Bool) (s : CrawlState)
    → run_mode args e resumable warcs s ≢ quits 0
unfolding run_mode
run_mode-ne-quits args e resumable warcs s = λ q. ground arith

choose_mode-ne-quits :
    (args : RunArgs) (e : StartEnv) (s : CrawlState) → choose_mode args e s ≢ quits 0
unfolding choose_mode
choose_mode-ne-quits args e s = λ q. elim (Option-cases (merge_discovered e s)) [
  | inl raised ↦ ground arith
  | inr ((existing, u), merged) ↦ elim (Option-cases (can_resume e existing)) [
    | inl failed ↦ ground arith
    | inr (resumable, found) ↦
        run_mode-ne-quits args e resumable (has_prior_warcs e existing) u (ground arith)
  ]
]

-- The run quits with code 0 before its first stage only for a dry run.
begin-quits_zero :
    (numbers : Numbers) (args : RunArgs) (start : StartEnv)
    → begin numbers args start ≡ quits 0
    → args.dry_run ≡ true
unfolding begin
begin-quits_zero numbers args start h = elim (Bool-cases args.dry_run) [
  | inl dry ↦ dry
  | inr wet ↦ ground (
    arith,
    choose_mode-ne-quits args start
        (init start.env (effective_initial_workers numbers args) start.state_file),
  )
]

-- The first stage of a run.
abbrev first_stage : String → Bool → CrawlState → Loop
first_stage name stop s = record {
  stage_name = name;
  attempt = 1;
  stop = stop;
  state = s;
  queue = [];
}

-- The run began with a stage, and its last state is archived.
abbrev pub RunArchived : ℕ → RunArgs → (ℕ → StageEnv) → FinalEnv → Bool → Begun → Type 0
RunArchived fuel args envs e stop begun =
    (name : String) × (s : CrawlState) × (begun ≡ begins name s)
    × EndsArchived args e (crawl_loop fuel args envs 0 (first_stage name stop s))

run_begun_lem :
    (fuel : ℕ) (args : RunArgs) (envs : ℕ → StageEnv) (e : FinalEnv) (stop : Bool) (begun : Begun)
    → ((name : String) (s : CrawlState)
        → begun ≡ begins name s
        → 100 + budget args.adaptive s < fuel)
    → (exit : Exit) × (run_begun fuel args envs e stop begun ≡ some exit)
      × (exit.code ≡ 0 → (begun ≡ quits 0) ⊎ RunArchived fuel args envs e stop begun)
unfolding run_begun
run_begun_lem fuel args envs e stop (begins name s) enough =
    let (exit, ends, archived) =
      crawl_loop-exit fuel args envs e 0 (first_stage name stop s)
        (omega (arith, enough name s refl)) in
    (exit, ends, λ q. inr (name, s, refl, archived q))
run_begun_lem fuel args envs e stop (quits code) enough = (exits code, refl, λ q. inl (rw q refl))
run_begun_lem fuel args envs e stop fails enough = (uncaught, refl, λ q. absurd (omega (arith, q)))

-- With fuel for a hundred attempts and the adaptations that the state at the first stage allows, the run ends
-- with an exit code. The code is 0 only for a dry run, or if the outer loop, begun at the first stage, ended
-- without a stop in a state with these properties: WARC files are found in its tracked directories, and either
-- the final build is to be skipped or a command exited with 0 whose item after `--warcs` has the
-- names in the container of all these files, joined by commas (where that text does not begin with `--output`).
pub main_ends :
    (fuel : ℕ) (numbers : Numbers) (args : RunArgs) (start : StartEnv) (envs : ℕ → StageEnv)
    (e : FinalEnv) (stop : Bool)
    → ((name : String) (s : CrawlState)
        → begin numbers args start ≡ begins name s
        → 100 + budget args.adaptive s < fuel)
    → (exit : Exit) × (main fuel numbers args start envs e stop ≡ some exit)
      × (exit.code ≡ 0
          → (args.dry_run ≡ true) ⊎ RunArchived fuel args envs e stop (begin numbers args start))
unfolding main
main_ends fuel numbers args start envs e stop enough =
    let (exit, ends, well) =
      run_begun_lem fuel args envs e stop (begin numbers args start) enough in
    (
      exit,
      ends,
      λ q. elim (well q) [
        | inl early ↦ inl (begin-quits_zero numbers args start early)
        | inr archived ↦ inr archived
      ],
    )
