-- ===== src/Crawl/Tests/StateTests.antt =====
-- The laws of the crawl state at a concrete state and file system.
use healtharchive_backend.Base.{◌≡◌, refl, arith, string_eq}
use healtharchive_backend.Base.Int.{pos}
use healtharchive_backend.Crawl.State.{clean_temp_dirs, save_persistent_state}
use healtharchive_backend.Crawl.State.TempDirs.{init}
use healtharchive_backend.Crawl.State.Load.{persistent, persistent-init-save}
use healtharchive_backend.Crawl.State.Order.{OldestFirst, OldestFirst-clean_temp_dirs}
use healtharchive_backend.Crawl.Tests.{settled_env, settled_env-IsSettled, paths, crawl}

persistent-init-save_example :
    persistent (init settled_env (pos 4) (save_persistent_state settled_env crawl).state_file)
    ≡ persistent (save_persistent_state settled_env crawl)
persistent-init-save_example =
    persistent-init-save settled_env settled_env-IsSettled refl crawl (omega arith)

OldestFirst-clean_temp_dirs_example : OldestFirst settled_env (clean_temp_dirs settled_env paths)
OldestFirst-clean_temp_dirs_example =
    OldestFirst-clean_temp_dirs settled_env settled_env-IsSettled paths
