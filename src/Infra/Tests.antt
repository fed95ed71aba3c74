-- ===== src/Infra/Tests.antt =====
-- The laws on a heap with a cycle of two exceptions, the second a failure of the storage.
use healtharchive_backend.Base.{true, false, ◌≡◌, ◌↔◌, Bool, none, some, [], ◌∷◌}
use healtharchive_backend.Base.Int.{pos}
use healtharchive_backend.Infra.{Heap, is_storage_infra_error}
use healtharchive_backend.Infra.Reach.{ReachesOne, IsInfraError, is_storage_infra_error_iff}
use healtharchive_backend.Infra.Paths.{
  FilePath, PathLib, resolved, path_is_within, Extends, IsWriteError,
  is_output_dir_write_infra_error, path_is_within_iff, is_output_dir_write_infra_error_iff,
}

abbrev cyclic : Heap
cyclic =
    record {
      id = 1;
      is_os_error = false;
      errno = none;
      filename = none;
      cause = some 2;
      context = none;
    }
    ∷ record {
      id = 2;
      is_os_error = true;
      errno = some (pos 107);
      filename = none;
      cause = none;
      context = some 1;
    }
    ∷ []

abbrev plain_lib : PathLib
plain_lib = record {
  of_text = λ raw. some (record { absolute = true; parts = "jobs" ∷ raw ∷ [] });
  resolve = λ p. some p;
}

abbrev jobs_dir : FilePath
jobs_dir = record { absolute = true; parts = "jobs" ∷ [] }

abbrev job_file : FilePath
job_file = record { absolute = true; parts = "jobs" ∷ "7" ∷ [] }

is_storage_infra_error_iff_example :
    (answer : Bool) × (is_storage_infra_error cyclic 1 ≡ some answer)
    × ((answer ≡ true) ↔ ReachesOne IsInfraError cyclic 1)
is_storage_infra_error_iff_example = is_storage_infra_error_iff cyclic 1

path_is_within_iff_example :
    (path_is_within plain_lib job_file jobs_dir ≡ true)
    ↔ ((true ≡ true) × Extends ("jobs" ∷ "7" ∷ []) ("jobs" ∷ []))
unfolding resolved
path_is_within_iff_example = path_is_within_iff plain_lib job_file jobs_dir

is_output_dir_write_infra_error_iff_example :
    (answer : Bool) × (is_output_dir_write_infra_error plain_lib jobs_dir cyclic 1 ≡ some answer)
    × ((answer ≡ true) ↔ ReachesOne (IsWriteError plain_lib jobs_dir) cyclic 1)
is_output_dir_write_infra_error_iff_example =
    is_output_dir_write_infra_error_iff plain_lib jobs_dir cyclic 1
