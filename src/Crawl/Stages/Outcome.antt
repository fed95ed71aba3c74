-- ===== src/Crawl/Stages/Outcome.antt =====
-- How the whole run of src/archive_tool/main.py ends: when the exit code is 0.
use healtharchive_backend.Base.{
  String, Bool, true, false, ◌≡◌, ◌≢◌, ◌⊎◌, ◌||◌, some, List, [], ◌∷◌, ◌==◌, string_eq, eq_iff,
  if◌then◌else◌, arith, inl, inr, Bool-cases, Option-cases, List-cases,
}
use healtharchive_backend.Base.Int.{ℤ, pos, int_eq}
use healtharchive_backend.Base.Texts.{starts_with, join_with}
use mathlib.Core.Path.{subst}
use healtharchive_backend.Crawl.Stages.Command.{HasItems, HasItems-final_build_command}
use healtharchive_backend.Crawl.State.{CrawlState}
use healtharchive_backend.Crawl.State.TempDirs.{get_temp_dir_paths}
use healtharchive_backend.Crawl.Stages.Watch.{RunArgs}
use healtharchive_backend.Crawl.Stages.Final.{
  FinalEnv, final_build_command, run_final_build_stage_sync, container_paths, discover_warcs,
  build_from, consolidate, final_stage, summary, finish_run,
}
use healtharchive_backend.Docker.{filter_args_for_final_run}

-- The second list has what the first one is in the container.
pub data Converted (e : FinalEnv) : List String → List String → Type 0 where
  no_more : Converted e [] []
  converts :
      {path converted : String} {paths rest : List String}
      → e.container_path path ≡ some converted
      → Converted e paths rest
      → Converted e (path ∷ paths) (converted ∷ rest)

-- The state in which the tracked directories are searched.
abbrev pub state_to_search : RunArgs → FinalEnv → CrawlState → CrawlState
state_to_search args e s = if args.relax_perms then (get_temp_dir_paths e.env_relax s).1 else s

-- A command that names these WARC files has exited with 0. `build_zimit_args` drops any item that starts with
-- `--output`, which the path of no file in the container does.
abbrev pub Built : FinalEnv → List String → Type 0
Built e paths =
    let warcs = join_with "," paths in
    (command : List String) × (e.run command ≡ some (pos 0))
    × (starts_with warcs "--output" ≡ false → HasItems ("--warcs" ∷ warcs ∷ []) command)

-- WARC files are found in the tracked directories, and the final build is to be skipped or a command that has
-- all of them, as they are named in the container, has exited with 0.
abbrev pub Archived : RunArgs → FinalEnv → CrawlState → Type 0
Archived args e s =
    let warcs =
      e.find_all_warc_files (get_temp_dir_paths e.env_find (state_to_search args e s)).0 in
    (warcs ≢ [])
    × ((args.skip_final_build ≡ true)
        ⊎ ((paths : List String) × Converted e warcs paths × Built e paths))

container_paths-Converted :
    (e : FinalEnv) (warcs : List String) {paths : List String}
    → container_paths e warcs ≡ some paths
    → Converted e warcs paths
unfolding container_paths
container_paths-Converted e [] {paths = []} h = no_more
container_paths-Converted e [] {paths = path ∷ paths} h = absurd (ground arith)
container_paths-Converted e (warc ∷ warcs) {paths} h = elim (Option-cases (e.container_path warc)) [
  | inl failed ↦ absurd (ground arith)
  | inr (converted, is_converted) ↦ elim (Option-cases (container_paths e warcs)) [
    | inl failed ↦ absurd (ground arith)
    | inr (rest, others) ↦
        subst (Converted e (warc ∷ warcs)) (ground arith)
          (converts is_converted (container_paths-Converted e warcs others))
  ]
]

abbrev pub BuildRan : RunArgs → FinalEnv → ℤ → List String → List String → String → Type 0
BuildRan args e workers passthrough extra seed =
    e.run (final_build_command args e seed workers passthrough extra) ≡ some (pos 0)

run_final_build_stage_sync-success :
    (args : RunArgs) (e : FinalEnv) (workers : ℤ) (passthrough extra : List String)
    → (run_final_build_stage_sync args e workers passthrough extra).0 ≡ "success"
    → (seed : String) × BuildRan args e workers passthrough extra seed
unfolding run_final_build_stage_sync
run_final_build_stage_sync-success args e workers passthrough extra h =
    elim (List-cases args.seeds) [
      | inl empty ↦ absurd (ground (arith, eq_iff "failed" "success"))
      | inr (seed, rest, seeds) ↦ (seed, ground (arith, eq_iff "failed" "success"))
    ]

build_from-success :
    (args : RunArgs) (e : FinalEnv) (warcs : List String) (s : CrawlState) {t : CrawlState}
    → build_from args e warcs s ≡ some ("success", t)
    → (paths : List String) × Converted e warcs paths × Built e paths
unfolding build_from
build_from-success args e warcs s h = elim (Option-cases (container_paths e warcs)) [
  | inl failed ↦ absurd (ground (arith, eq_iff "failed_warc_path_conversion" "success"))
  | inr (paths, converted) ↦
      let named = join_with "," paths in
      let passthrough = filter_args_for_final_run args.passthrough in
      let (seed, ran) =
        run_final_build_stage_sync-success args e s.current_workers passthrough
          ("--warcs" ∷ named ∷ []) (ground arith) in
      (
        paths,
        container_paths-Converted e warcs converted,
        (
          final_build_command args e seed s.current_workers passthrough ("--warcs" ∷ named ∷ []),
          ran,
          HasItems-final_build_command args e seed s.current_workers passthrough named,
        ),
      )
]

consolidate-success :
    (args : RunArgs) (e : FinalEnv) (s : CrawlState) {t : CrawlState}
    → consolidate args e s ≡ some ("success", t)
    → Archived args e s
unfolding consolidate
consolidate-success args e s {t} h =
    let found = discover_warcs args e s in
    elim (List-cases found.0) [
      | inl nothing ↦ absurd (ground (arith, eq_iff "failed_no_warcs" "success"))
      | inr (warc, rest, warcs) ↦ elim (Bool-cases args.skip_final_build) [
        | inl skips ↦ ((λ q. cc), inl skips)
        | inr builds ↦
            ((λ q. cc), inr (build_from-success args e found.0 found.1 {t = t} (ground arith)))
      ]
    ]

-- The exit code is 0 only after a crawl that reached the final stage, was not stopped and is archived.
pub finish_run-success :
    (args : RunArgs) (e : FinalEnv) (status : String) (stop : Bool) (s : CrawlState)
    → status ≢ "success"
    → (finish_run args e status stop s).code ≡ 0
    → (status ≡ "pending_final_build") × (stop ≡ false) × Archived args e s
unfolding finish_run final_stage summary
finish_run-success args e status stop s n h = elim (Bool-cases (status == "pending_final_build")) [
  | inr other ↦ absurd (ground (arith, eq_iff status "success"))
  | inl pending ↦ elim (Bool-cases (stop || e.stop_before_build)) [
    | inl stopped ↦ absurd (ground (arith, eq_iff "stopped" "success"))
    | inr goes_on ↦ (
      (eq_iff status "pending_final_build").0 pending,
      ground arith,
      elim (Option-cases (consolidate args e s)) [
        | inl raised ↦ absurd (ground arith)
        | inr ((final, t), done) ↦
            consolidate-success args e s {t = t} (ground (arith, eq_iff final "success"))
      ],
    )
  ]
]
