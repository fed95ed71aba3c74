-- ===== src/Crawl/Stages/Command.antt =====
-- What the command of the final build of src/archive_tool/main.py has of the WARC files.
use healtharchive_backend.Base.{
  String, Bool, true, false, ◌≡◌, refl, sym, ap, ◌∙◌, not, List, [], ◌∷◌, ◌++◌, keep, keep-append,
  contains, string_eq, inl, inr, Bool-cases,
}
use mathlib.Core.List.{append_assoc, append-nil}
use healtharchive_backend.Base.Int.{ℤ}
use healtharchive_backend.Base.Texts.{starts_with}
use healtharchive_backend.Docker.{
  DockerRun, RequiredArgs, given, build_docker_run_cmd, seeds_args, name_args, workers_args,
  drop_workers, zimit_items, with_keep, build_zimit_args, container_output_dir,
}
use healtharchive_backend.Crawl.Stages.Watch.{RunArgs}
use healtharchive_backend.Crawl.Stages.Final.{FinalEnv, final_build_command}

-- The items stand next to each other in the command.
abbrev pub HasItems : List String → List String → Type 0
HasItems items command =
    (before : List String) × (after : List String) × (command ≡ before ++ (items ++ after))

module _ (items : List String) where
  in_itself : HasItems items items
  in_itself = ([], [], sym (append-nil items))

  under : (xs : List String) {ys : List String} → HasItems items ys → HasItems items (xs ++ ys)
  under xs (before, after, same) = (
    xs ++ before,
    after,
    ap (λ zs. xs ++ zs) same ∙ sym (append_assoc xs before (items ++ after)),
  )

  over : {xs : List String} (ys : List String) → HasItems items xs → HasItems items (xs ++ ys)
  over ys (before, after, same) = (
    before,
    after ++ ys,
    ap (λ zs. zs ++ ys) same
        ∙ (append_assoc before (items ++ after) ys
            ∙ ap (λ zs. before ++ zs) (append_assoc items after ys)),
  )

  -- A filter that keeps the items.
  filtered :
      (p : String → Bool) {xs : List String}
      → keep p items ≡ items
      → HasItems items xs
      → HasItems items (keep p xs)
  filtered p kept (before, after, same) = (
    keep p before,
    keep p after,
    ap (keep p) same
        ∙ (keep-append p before (items ++ after)
            ∙ ap (λ zs. keep p before ++ zs)
                (keep-append p items after ∙ ap (λ zs. zs ++ keep p after) kept)),
  )

  with_keep_has : {xs : List String} → HasItems items xs → HasItems items (with_keep xs)
  unfolding with_keep
  with_keep_has {xs} h = elim (Bool-cases (contains xs "--keep")) [
    | inl there ↦ rw there h
    | inr missing ↦ rw missing (over ("--keep" ∷ []) h)
  ]

  zimit_items_has :
      (base : List String) (required : RequiredArgs) (n : ℤ) (is_final : Bool)
      → HasItems items (zimit_items base required n is_final items)
  unfolding zimit_items
  zimit_items_has base required n is_final = under ("zimit" ∷ []) (
      under (seeds_args required is_final) (
        under (name_args required)
          (under (workers_args n is_final) (under (drop_workers false base) in_itself))))

  build_zimit_args_has :
      keep (λ arg. not (starts_with arg "--output")) items ≡ items
      → (base : List String) (required : RequiredArgs) (n : ℤ) (is_final : Bool)
      → HasItems items (build_zimit_args base required n is_final items)
  unfolding build_zimit_args
  build_zimit_args_has kept base required n is_final =
      over ("--output" ∷ container_output_dir ∷ []) (
        filtered (λ arg. not (starts_with arg "--output")) kept
          (with_keep_has (zimit_items_has base required n is_final)))

  build_docker_run_cmd_has :
      (run : DockerRun) {xs : List String}
      → HasItems items xs
      → HasItems items (build_docker_run_cmd run xs)
  unfolding build_docker_run_cmd
  build_docker_run_cmd_has run h = under ("docker" ∷ "run" ∷ "--rm" ∷ "-v" ∷ run.mount ∷ []) (
      under (given run.label (λ value. "--label" ∷ value ∷ [])) (
        under (given run.docker_shm_size (λ value. "--shm-size" ∷ value ∷ [])) (
          under (given run.user (λ value. "--user" ∷ value ∷ [])) (
            under
              (given run.memory_limit (λ value.
                "--memory" ∷ value ∷ "--memory-swap" ∷ value ∷ "--memory-swappiness" ∷ "10" ∷ []))
              (under (given run.cpu_limit (λ value. "--cpus" ∷ value ∷ []))
                (under (run.docker_image ∷ []) h))))))

pub HasItems-final_build_command :
    (args : RunArgs) (e : FinalEnv) (seed : String) (n : ℤ) (passthrough : List String)
    (warcs : String)
    → starts_with warcs "--output" ≡ false
    → HasItems
        ("--warcs" ∷ warcs ∷ [])
        (final_build_command args e seed n passthrough ("--warcs" ∷ warcs ∷ []))
unfolding final_build_command
HasItems-final_build_command args e seed n passthrough warcs h =
    let items = "--warcs" ∷ warcs ∷ [] in
    build_docker_run_cmd_has items _ (build_zimit_args_has items (rw h refl) _ _ n true)
