-- ===== src/Crawl/Stages/Final.antt =====
-- The end of `main` in src/archive_tool/main.py: the final build from the WARC files, the clean-up and the
-- exit code.
use healtharchive_backend.Base.{
  ℕ, String, Bool, true, ◌||◌, Option, none, some, List, [], ◌∷◌, ◌++◌, ◌==◌, string_eq,
  if◌then◌else◌, contains, some_of,
}
use healtharchive_backend.Base.Int.{ℤ, pos, int_eq}
use healtharchive_backend.Base.Texts.{starts_with, join_with}
use healtharchive_backend.Crawl.Env.{Env}
use healtharchive_backend.Crawl.State.{CrawlState}
use healtharchive_backend.Crawl.State.TempDirs.{add_temp_dir, get_temp_dir_paths}
use healtharchive_backend.Crawl.Stages.Watch.{RunArgs}
use healtharchive_backend.Docker.{build_docker_run_cmd, build_zimit_args, filter_args_for_final_run}

-- What the end of the run meets outside.
pub record FinalEnv : Type 0 where
  pub stop_before_build : Bool
  -- the file system before and after permissions are relaxed, after the build and at the summary
  pub env_relax : Env
  pub env_find : Env
  pub env_built : Env
  pub env_summary : Env
  pub find_all_warc_files : List String → List String
  pub container_path : String → Option String
  -- `f"{host_output_dir.resolve()}:/output"`
  pub mount : String
  -- the exit code of a command, or an exception
  pub run : List String → Option ℤ
  -- the temporary directory that the log of the build names
  pub build_dir : Option String

-- The command of the final build.
unfoldable pub final_build_command :
    RunArgs → FinalEnv → String → ℤ → List String → List String → List String
final_build_command args e seed workers passthrough extra =
    let named =
      if some_of (λ a. starts_with a "--name") passthrough
      then passthrough
      else passthrough ++ ("--name" ∷ args.name ∷ []) in
    let base = if contains named "--seeds" then named else named ++ ("--seeds" ∷ seed ∷ []) in
    build_docker_run_cmd
      (record {
        docker_image = args.docker_image;
        mount = e.mount;
        label = none;
        docker_shm_size = args.docker_shm_size;
        user = none;
        memory_limit = none;
        cpu_limit = none;
      })
      (build_zimit_args base (record { seeds = none; name = some args.name }) workers true extra)

-- `run_final_build_stage_sync`: the status and the temporary directory.
unfoldable pub run_final_build_stage_sync :
    RunArgs → FinalEnv → ℤ → List String → List String → String × Option String
unfolding final_build_command
run_final_build_stage_sync args e workers passthrough extra = elim args.seeds [
  | [] ↦ ("failed", none)
  | seed ∷ rest ↦ elim (e.run (final_build_command args e seed workers passthrough extra)) [
    | none ↦ ("failed", none)
    | some rc ↦ (if rc == pos 0 then "success" else "failed", e.build_dir)
  ]
]

-- The loop that converts the paths, up to the first failure.
unfoldable pub container_paths : FinalEnv → List String → Option (List String)
container_paths e [] = some []
container_paths e (path ∷ paths) = elim (e.container_path path) [
  | none ↦ none
  | some converted ↦ elim (container_paths e paths) [
    | none ↦ none
    | some rest ↦ some (converted ∷ rest)
  ]
]

-- The WARC files of the tracked directories.
unfoldable pub discover_warcs : RunArgs → FinalEnv → CrawlState → List String × CrawlState
discover_warcs args e s =
    let t = if args.relax_perms then (get_temp_dir_paths e.env_relax s).1 else s in
    let (paths, u) = get_temp_dir_paths e.env_find t in (e.find_all_warc_files paths, u)

-- `none` is an exception out of `add_temp_dir`.
unfoldable pub build_from :
    RunArgs → FinalEnv → List String → CrawlState → Option (String × CrawlState)
unfolding container_paths
build_from args e warcs s = elim (container_paths e warcs) [
  | none ↦ some ("failed_warc_path_conversion", s)
  | some paths ↦
      let (status, dir) =
        run_final_build_stage_sync args e s.current_workers
          (filter_args_for_final_run args.passthrough) ("--warcs" ∷ join_with "," paths ∷ []) in
      elim dir [
        | none ↦ some (status, s)
        | some path ↦ elim (add_temp_dir e.env_built path s) [
          | none ↦ none
          | some t ↦ some (status, t)
        ]
      ]
]

unfoldable pub consolidate : RunArgs → FinalEnv → CrawlState → Option (String × CrawlState)
unfolding discover_warcs
consolidate args e s =
    let (warcs, t) = discover_warcs args e s in
    elim warcs [
      | [] ↦ some ("failed_no_warcs", t)
      | warc ∷ rest ↦
          if args.skip_final_build then some ("success", t) else build_from args e (warc ∷ rest) t
    ]

-- The status after the final stage.
unfoldable pub final_stage :
    RunArgs → FinalEnv → String → Bool → CrawlState → Option (String × CrawlState)
final_stage args e status stop s =
    let stopped = stop || e.stop_before_build in
    if status == "pending_final_build"
    then (if stopped then some ("stopped", s) else consolidate args e s)
    else some (status, s)

-- The exit code, and the directories that the clean-up removes.
pub record Exit : Type 0 where
  pub code : ℕ
  pub removed : List String

abbrev pub uncaught : Exit
uncaught = record { code = 2; removed = [] }

unfoldable pub summary : RunArgs → FinalEnv → String → CrawlState → Exit
summary args e status s =
    let (paths, t) = get_temp_dir_paths e.env_summary s in
    if status == "success"
    then record { code = 0; removed = if args.cleanup then paths else [] }
    else record { code = 1; removed = [] }

-- The end of the run, after the outer loop.
unfoldable pub finish_run : RunArgs → FinalEnv → String → Bool → CrawlState → Exit
unfolding final_stage summary
finish_run args e status stop s = elim (final_stage args e status stop s) [
  | none ↦ uncaught
  | some (final, t) ↦ summary args e final t
]
