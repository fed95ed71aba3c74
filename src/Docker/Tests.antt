-- ===== src/Docker/Tests.antt =====
-- Command lines of concrete containers.
use healtharchive_backend.Base.{
  all_of, true, String, false, ◌≡◌, refl, none, some, List, [], ◌∷◌, ◌++◌, string_eq,
}
use healtharchive_backend.Base.Int.{pos}
use healtharchive_backend.Base.Texts.{str_ℤ, join_with}
use healtharchive_backend.Docker.{
  RequiredArgs, build_zimit_args, filter_args_for_final_run, is_required, takes_next, with_keep,
  seeds_args, name_args, build_docker_run_cmd,
}
use healtharchive_backend.Docker.Workers.{no_workers, build_zimit_args-workers}

abbrev passthrough : List String
passthrough = "--workers" ∷ "7" ∷ "--lang" ∷ "en" ∷ "--workers=9" ∷ "--output=/x" ∷ "--title" ∷ []

abbrev required : RequiredArgs
required = record { seeds = some ("https://a.ca" ∷ "https://b.ca" ∷ []); name = some "a" }

abbrev config : List String
config = "--config" ∷ "/output/c.yaml" ∷ []

stage_zimit :
    build_zimit_args passthrough required (pos 3) false config
    ≡ "zimit" ∷ "--seeds" ∷ "https://a.ca,https://b.ca" ∷ "--name" ∷ "a" ∷ "--workers" ∷ "3"
      ∷ "--lang" ∷ "en" ∷ "--title" ∷ "--config" ∷ "/output/c.yaml" ∷ "--keep" ∷ "--output"
      ∷ "/output" ∷ []
unfolding build_zimit_args with_keep str_ℤ join_with
stage_zimit = refl

run_command :
    build_docker_run_cmd
      (record {
        docker_image = "zimit";
        mount = "/srv:/output";
        label = some "";
        docker_shm_size = none;
        user = some "0:0";
        memory_limit = some "4g";
        cpu_limit = none;
      })
      ("zimit" ∷ [])
    ≡ "docker" ∷ "run" ∷ "--rm" ∷ "-v" ∷ "/srv:/output" ∷ "--user" ∷ "0:0" ∷ "--memory" ∷ "4g"
      ∷ "--memory-swap" ∷ "4g" ∷ "--memory-swappiness" ∷ "10" ∷ "zimit" ∷ "zimit" ∷ []
unfolding build_docker_run_cmd
run_command = refl

final_args :
    filter_args_for_final_run
      ("--title" ∷ "A b" ∷ "--workers" ∷ "3" ∷ "--lang=en" ∷ "en" ∷ "--name" ∷ [])
    ≡ "--title" ∷ "A b" ∷ "--lang=en" ∷ "--name" ∷ []
unfolding filter_args_for_final_run is_required takes_next
final_args = refl

no_workers_before : all_of no_workers (seeds_args required false ++ name_args required) ≡ true
unfolding seeds_args name_args join_with
no_workers_before = refl

build_zimit_args-workers_example :
    (before : List String) × (after : List String) × (build_zimit_args passthrough required
        (pos 3)
        false
        config
      ≡ before ++ ("--workers" ∷ (str_ℤ (pos 3) ∷ after)))
    × (all_of no_workers before ≡ true)
    × (all_of no_workers after ≡ true)
build_zimit_args-workers_example =
    build_zimit_args-workers passthrough required (pos 3) config no_workers_before refl
