-- ===== src/Docker.antt =====
-- src/archive_tool/docker_runner.py: the command lines of the containers; and
-- `filter_args_for_final_run` of src/archive_tool/utils.py.
pub mod Workers
pub mod Filter
mod Tests
use healtharchive_backend.Base.{
  String, Bool, true, false, ◌||◌, ◌&&◌, not, Option, none, some, List, [], ◌∷◌, ◌++◌, ◌==◌,
  string_eq, if◌then◌else◌, contains, keep, some_of,
}
use healtharchive_backend.Base.Int.{ℤ}
use healtharchive_backend.Base.Texts.{starts_with, has, join_with, str_ℤ}

-- The arguments of `build_docker_run_cmd`, all but the last.
pub record DockerRun : Type 0 where
  pub docker_image : String
  -- `f"{host_output_dir.resolve()}:/output"`
  pub mount : String
  pub label : Option String
  pub docker_shm_size : Option String
  pub user : Option String
  pub memory_limit : Option String
  pub cpu_limit : Option String

-- The items that an argument adds; `None` and "" add nothing.
unfoldable pub given : Option String → (String → List String) → List String
given none items = []
given (some value) items = if value == "" then [] else items value

unfoldable pub build_docker_run_cmd : DockerRun → List String → List String
unfolding given
build_docker_run_cmd run zimit_args =
    ("docker" ∷ "run" ∷ "--rm" ∷ "-v" ∷ run.mount ∷ [])
    ++ (given run.label (λ value. "--label" ∷ value ∷ [])
        ++ (given run.docker_shm_size (λ value. "--shm-size" ∷ value ∷ [])
            ++ (given run.user (λ value. "--user" ∷ value ∷ [])
                ++ (given run.memory_limit (λ value.
                      "--memory" ∷ value ∷ "--memory-swap" ∷ value ∷ "--memory-swappiness" ∷ "10"
                      ∷ [])
                    ++ (given run.cpu_limit (λ value. "--cpus" ∷ value ∷ [])
                        ++ (run.docker_image ∷ zimit_args))))))

abbrev pub container_output_dir : String
container_output_dir = "/output"

-- `required_args`: the keys that it may have.
pub record RequiredArgs : Type 0 where
  pub seeds : Option (List String)
  pub name : Option String

-- The first item is there and is no option.
unfoldable pub value_follows : List String → Bool
value_follows [] = false
value_follows (next ∷ rest) = not (starts_with next "-")

-- The loop over the passthrough arguments, with `skip_next`.
unfoldable pub drop_workers : Bool → List String → List String
unfolding value_follows
drop_workers skip_next [] = []
drop_workers true (arg ∷ rest) = drop_workers false rest
drop_workers false (arg ∷ rest) =
    let dropped = drop_workers (value_follows rest) rest in
    let others = drop_workers false rest in
    if arg == "--workers"
    then dropped
    else if starts_with arg "--workers="
    then others
    else arg ∷ others

-- The seeds of a stage, joined by commas; none for the final build.
unfoldable pub seeds_args : RequiredArgs → Bool → List String
seeds_args required is_final_build = elim required.seeds [
  | none ↦ []
  | some seeds ↦ if is_final_build then [] else "--seeds" ∷ join_with "," seeds ∷ []
]

unfoldable pub name_args : RequiredArgs → List String
name_args required = elim required.name [ none ↦ [] | some name ↦ "--name" ∷ name ∷ [] ]

unfoldable pub workers_args : ℤ → Bool → List String
workers_args current_workers is_final_build =
    if is_final_build then [] else "--workers" ∷ str_ℤ current_workers ∷ []

-- The arguments before `--keep` and `--output` are seen to.
unfoldable pub zimit_items : List String → RequiredArgs → ℤ → Bool → List String → List String
unfolding seeds_args name_args workers_args drop_workers
zimit_items base required current_workers is_final_build extra =
    "zimit"
    ∷ (seeds_args required is_final_build
        ++ (name_args required
            ++ (workers_args current_workers is_final_build ++ (drop_workers false base ++ extra))))

unfoldable pub with_keep : List String → List String
with_keep items = if contains items "--keep" then items else items ++ ("--keep" ∷ [])

unfoldable pub build_zimit_args : List String → RequiredArgs → ℤ → Bool → List String → List String
unfolding zimit_items
build_zimit_args base required current_workers is_final_build extra =
    keep (λ arg. not (starts_with arg "--output"))
      (with_keep (zimit_items base required current_workers is_final_build extra))
    ++ ("--output" ∷ container_output_dir ∷ [])

abbrev pub required_final_args_prefixes : List String
required_final_args_prefixes =
    "--name" ∷ "--title" ∷ "--description" ∷ "--long-description" ∷ "--zim-lang" ∷ "--custom-css"
    ∷ "--adminEmail" ∷ "--favicon" ∷ "--warcPrefix" ∷ "--lang" ∷ []

unfoldable pub is_required : String → Bool
is_required arg = some_of (λ prefix. starts_with arg prefix) required_final_args_prefixes

-- The argument has its value in the next item, if that is no option.
unfoldable pub takes_next : String → Bool
takes_next arg = starts_with arg "--" && not (has arg "=")

unfoldable pub filter_args_for_final_run : List String → List String
filter_args_for_final_run [] = []
filter_args_for_final_run (arg ∷ []) = if is_required arg then arg ∷ [] else []
filter_args_for_final_run (arg ∷ (next ∷ rest)) =
    let alone = filter_args_for_final_run (next ∷ rest) in
    let after = filter_args_for_final_run rest in
    if takes_next arg && not (starts_with next "-")
    then (if is_required arg then arg ∷ (next ∷ after) else after)
    else (if is_required arg then arg ∷ alone else alone)
