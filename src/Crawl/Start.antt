-- ===== src/Crawl/Start.antt =====
-- The beginning of `main` in src/archive_tool/main.py: the checks, the number of workers and the mode of the
-- run; and the run as a whole.
pub mod Modes
use healtharchive_backend.Base.{
  ℕ, String, Bool, true, false, ◌&&◌, not, Option, none, some, List, [], ◌∷◌, ◌==◌, string_eq,
  if◌then◌else◌, contains, keep,
}
use healtharchive_backend.Base.Int.{ℤ, pos, max_ℤ}
use healtharchive_backend.Base.Texts.{starts_with, after}
use healtharchive_backend.Json.{Json, obj, field}
use healtharchive_backend.Crawl.Env.{Env, StateFile, canonical}
use healtharchive_backend.Crawl.State.{
  CrawlState, reset_persistent_state_values, save_persistent_state,
}
use healtharchive_backend.Crawl.State.TempDirs.{init, add_temp_dir, get_temp_dir_paths}
use healtharchive_backend.Crawl.State.Progress.{reset_adaptation_counts}
use healtharchive_backend.Crawl.Stages.Watch.{RunArgs}
use healtharchive_backend.Crawl.Stages.Prepare.{StageEnv}
use healtharchive_backend.Crawl.Stages.Final.{FinalEnv, Exit, uncaught}
use healtharchive_backend.Crawl.Stages.{Loop, crawl_loop, conclude}

-- `str.isdigit` and `int` of a text (`none` for a `ValueError`).
pub record Numbers : Type 0 where
  pub is_digit : String → Bool
  pub to_int : String → Option ℤ

unfoldable pub next_number : Numbers → List String → Option ℤ
next_number numbers [] = none
next_number numbers (next ∷ rest) = if numbers.is_digit next then numbers.to_int next else none

-- The first number of workers among the passthrough arguments.
unfoldable pub passthrough_workers : Numbers → List String → Option ℤ
unfolding next_number
passthrough_workers numbers [] = none
passthrough_workers numbers (arg ∷ rest) =
    let others = passthrough_workers numbers rest in
    if arg == "--workers"
    then elim (next_number numbers rest) [ some n ↦ some n | none ↦ others ]
    else if starts_with arg "--workers="
    then elim (numbers.to_int (after arg 10)) [ some n ↦ some n | none ↦ others ]
    else others

unfoldable pub effective_initial_workers : Numbers → RunArgs → ℤ
unfolding passthrough_workers
effective_initial_workers numbers args = elim (passthrough_workers numbers args.passthrough) [
  | none ↦ max_ℤ (pos 1) args.initial_workers
  | some n ↦ max_ℤ (pos 1) n
]

-- What the beginning of the run meets outside.
pub record StartEnv : Type 0 where
  pub docker_works : Bool
  pub output_dir_writable : Bool
  -- the managed Browsertrix config: none, text that is no JSON, or a value
  pub browsertrix_config : Option (Option Json)
  pub persist_managed : Json → Bool
  pub state_file : StateFile
  pub env : Env
  pub discovered_temp_dirs : List String
  pub stable_resume : Option String
  pub apply_managed : String → Option String
  pub latest_config : List String → Option String
  pub persist : String → Option String
  pub find_all_warc_files : List String → List String
  pub zim_exists : Bool

-- The run goes on with a stage, exits with a code, or ends with an exception.
pub data Begun : Type 0 where
  begins : String → CrawlState → Begun
  quits : ℕ → Begun
  fails : Begun

-- `p.resolve()` of every item, or an exception.
unfoldable pub resolve_all : Env → List String → Option (List String)
resolve_all e [] = some []
resolve_all e (p ∷ ps) = elim (e.resolve p) [
  | none ↦ none
  | some c ↦ elim (resolve_all e ps) [ none ↦ none | some cs ↦ some (c ∷ cs) ]
]

-- The discovered directories that the state does not track.
unfoldable pub missing_dirs : Env → List String → List String → Option (List String)
missing_dirs e known [] = some []
missing_dirs e known (p ∷ ps) = elim (e.resolve p) [
  | none ↦ none
  | some c ↦ elim (missing_dirs e known ps) [
    | none ↦ none
    | some rest ↦ some (if contains known c then rest else p ∷ rest)
  ]
]

unfoldable pub add_temp_dirs : Env → List String → CrawlState → Option CrawlState
add_temp_dirs e [] s = some s
add_temp_dirs e (p ∷ ps) s = elim (add_temp_dir e p s) [
  | none ↦ none
  | some t ↦ add_temp_dirs e ps t
]

unfoldable pub add_missing :
    Env → List String → List String → CrawlState → Option (List String × CrawlState)
unfolding add_temp_dirs
add_missing e existing [] s = some (existing, s)
add_missing e existing (p ∷ ps) s = elim (add_temp_dirs e (p ∷ ps) s) [
  | none ↦ none
  | some t ↦ some (get_temp_dir_paths e t)
]

-- The tracked directories, with those that were discovered.
unfoldable pub merge_discovered : StartEnv → CrawlState → Option (List String × CrawlState)
unfolding resolve_all missing_dirs add_missing
merge_discovered e s =
    let (existing, t) = get_temp_dir_paths e.env s in
    elim e.discovered_temp_dirs [
      | [] ↦ some (existing, t)
      | p ∷ ps ↦ elim (resolve_all e.env existing) [
        | none ↦ none
        | some known ↦ elim (missing_dirs e.env known (p ∷ ps)) [
          | none ↦ none
          | some missing ↦ add_missing e.env existing missing t
        ]
      ]
    ]

-- Whether the crawl can be resumed; `none` where a config cannot be merged.
unfoldable pub can_resume : StartEnv → List String → Option Bool
can_resume e existing = elim e.stable_resume [
  | some config ↦ elim (e.apply_managed config) [ none ↦ none | some merged ↦ some true ]
  | none ↦ elim existing [
    | [] ↦ some false
    | dir ∷ dirs ↦ elim (e.latest_config (dir ∷ dirs)) [
      | none ↦ some false
      | some config ↦ elim (e.persist config) [
        | none ↦ some true
        | some persisted ↦ elim (e.apply_managed persisted) [
          | none ↦ none
          | some merged ↦ some true
        ]
      ]
    ]
  ]
]

unfoldable pub has_prior_warcs : StartEnv → List String → Bool
has_prior_warcs e [] = false
has_prior_warcs e (dir ∷ dirs) = elim (e.find_all_warc_files (dir ∷ dirs)) [
  | [] ↦ false
  | w ∷ ws ↦ true
]

-- The mode of the run.
unfoldable pub run_mode : RunArgs → StartEnv → Bool → Bool → CrawlState → Begun
run_mode args e resumable warcs s =
    if e.zim_exists && not args.skip_final_build
    then (if args.overwrite
        then begins "Initial Crawl" (save_persistent_state e.env (reset_persistent_state_values s))
        else quits 1)
    else if resumable
    then begins "Resume Crawl" s
    else if warcs
    then begins "New Crawl Phase" (reset_adaptation_counts e.env s)
    else begins "Initial Crawl" (reset_adaptation_counts e.env s)

-- From the state to the first stage.
unfoldable pub choose_mode : RunArgs → StartEnv → CrawlState → Begun
unfolding merge_discovered can_resume has_prior_warcs run_mode
choose_mode args e s = elim (merge_discovered e s) [
  | none ↦ fails
  | some (existing, t) ↦ elim (can_resume e existing) [
    | none ↦ quits 1
    | some resumable ↦ run_mode args e resumable (has_prior_warcs e existing) t
  ]
]

-- `isinstance(config, dict) and config`, and the config could be written.
unfoldable pub accepts_config : StartEnv → Option (Option Json) → Bool
accepts_config e none = true
accepts_config e (some none) = false
accepts_config e (some (some (obj (field key value rest)))) =
    e.persist_managed (obj (field key value rest))
accepts_config e (some (some _)) = false

-- Everything before the outer loop.
unfoldable pub begin : Numbers → RunArgs → StartEnv → Begun
unfolding accepts_config effective_initial_workers choose_mode
begin numbers args e =
    if not (e.docker_works && (e.output_dir_writable && accepts_config e e.browsertrix_config))
    then quits 1
    else if args.dry_run
    then quits 0
    else choose_mode args e (init e.env (effective_initial_workers numbers args) e.state_file)

abbrev pub exits : ℕ → Exit
exits code = record { code = code; removed = [] }

-- The run; `none` if the fuel of the outer loop runs out. The signal handler may have set the event.
unfoldable pub run_begun : ℕ → RunArgs → (ℕ → StageEnv) → FinalEnv → Bool → Begun → Option Exit
run_begun fuel args envs e stop (begins name s) = conclude args e (
    crawl_loop fuel args envs 0
      (record { stage_name = name; attempt = 1; stop = stop; state = s; queue = [] }))
run_begun fuel args envs e stop (quits code) = some (exits code)
run_begun fuel args envs e stop fails = some uncaught

unfoldable pub main :
    ℕ → Numbers → RunArgs → StartEnv → (ℕ → StageEnv) → FinalEnv → Bool → Option Exit
unfolding begin run_begun
main fuel numbers args start envs e stop =
    run_begun fuel args envs e stop (begin numbers args start)
