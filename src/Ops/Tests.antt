-- ===== src/Ops/Tests.antt =====
-- A job of Health Canada that is stuck, on a host where nothing else runs.
mod RecoverTests
mod ProgressTests
use Prim.Native.String.{len, ◌++◌ as concat}
use text.Mathlib.TextPositions.{len-append}
use healtharchive_backend.Base.{
  ℕ, zero, suc, ◌+◌, ◌-◌, ◌*◌, ◌/◌, ◌≤◌, ◌<◌, ◌⊎◌, String, Bool, true, false, ◌≡◌, refl, sym, ap,
  ◌∙◌, Option, none, some, List, [], ◌∷◌, ◌==◌, nat_eq, string_eq, arith, keep, length,
}
use mathlib.Core.Option.{map as Option_map}
use healtharchive_backend.Base.Int.{ℤ, pos}
use healtharchive_backend.Json.{Json, Fields, null, int, str, obj, nil, end, field, find_field}
use healtharchive_backend.Contract.{Python, IsPython}
use healtharchive_backend.Ops.{
  JobRow, JobTable, missing, free, PsRow, get_row, update_row, deploy_lock_is_active,
  output_dir_has_running_crawl_process,
}
use healtharchive_backend.Ops.Logs.{LogFiles, find_log_for_job}
use healtharchive_backend.Ops.Stale.{
  StaleArgs, StaleEnv, lock_free, exits, stale_raised, recovered, recover_stale_jobs, first_rows,
  sort_rows, started_before,
}
use healtharchive_backend.Ops.Stale.Marked.{Recoverable, recover_stale_jobs-marked}
use healtharchive_backend.Ops.RunState.{WatchdogArgs, WatchdogEnv, readable, probe_readable_dir}
use healtharchive_backend.Ops.AutoStart.{is_running, is_pending, StartEnd, auto_start}
use healtharchive_backend.Ops.AutoStart.Gates.{auto_start-gated}
use healtharchive_backend.Ops.AutoStart.Notes.{Forgets, auto_start-Forgets, auto_start-apply}
use healtharchive_backend.Ops.Recover.Host.{Host}
use healtharchive_backend.Ops.Recover.Counts.{IsHost}

to_int_of : Json → Option ℤ
to_int_of (int n) = some n
to_int_of _ = none

to_text_of : Json → String
to_text_of (str s) = s
to_text_of _ = "None"

abbrev python : Python
python = record {
  to_int = to_int_of;
  to_text = to_text_of;
  nonzero = λ text. true;
  strip = λ text. text;
  dumps = λ fields. "{}";
}

python-IsPython : IsPython python
unfolding to_int_of to_text_of
python-IsPython = record {
  to_int-int = λ n. refl;
  to_text-str = λ s. refl;
  strip_idem = λ s. refl;
  strip-empty = refl;
}

-- A time is written as so many strokes.
strokes : ℕ → String
strokes zero = ""
strokes (suc n) = concat "|" (strokes n)

read_strokes : Json → Option ℕ
read_strokes (str s) = some (len s * 1000000)
read_strokes _ = none

len-strokes : (n : ℕ) → len (strokes n) ≡ n
unfolding strokes
len-strokes zero = refl
len-strokes (suc n) = omega (arith, len-append "|" (strokes n), len-strokes n)

abbrev host : Host
host = record {
  py = python;
  fold = λ text. text;
  suffix_year = λ text. none;
  path_name = λ text. text;
  float_is = λ text n. false;
  list_of = λ v. some nil;
  split = λ text. text ∷ [];
  iso = λ t. strokes (t / 1000000);
  from_iso = read_strokes;
}

host-IsHost : IsHost host
unfolding read_strokes
host-IsHost = record {
  python = python-IsPython;
  from_iso-iso = λ s.
      let whole : s * 1000000 / 1000000 ≡ s = omega arith in
      ap (λ (n : ℕ). some (n * 1000000)) (ap (λ (n : ℕ). len (strokes n)) whole ∙ len-strokes s);
}

-- The job has run since the beginning; it is the third minute.
abbrev stuck : JobRow
stuck = record {
  id = 7;
  source_code = some "hc";
  name = "hc-20250101";
  output_dir = some "/jobs/7";
  status = "running";
  queued_at = none;
  created_at = 0;
  started_at = some 0;
  finished_at = none;
  combined_log_path = none;
  crawler_stage = none;
  config = end;
}

abbrev now : ℕ
now = 180000000

abbrev no_files : LogFiles
no_files = record {
  is_file = λ p. some false;
  is_dir = λ p. some false;
  glob_logs = λ p. none;
  mtime = λ p. none;
  tail = λ p. [];
  reader = record { loads = λ text. none; to_int = λ v. none; timestamp = λ v. none };
}

abbrev stale_args_hc : StaleArgs
stale_args_hc = record {
  apply = true;
  older_than_minutes = pos 1;
  require_no_progress_seconds = some (pos 60);
  include_missing_started_at = false;
  source = some "hc";
  limit = some (pos 5);
}

abbrev stale_env : StaleEnv
stale_env = record { now = now; files = no_files; lock = λ id. lock_free }

stuck-recovered :
    recover_stale_jobs stale_args_hc stale_env (stuck ∷ []) ≡ exits (pos 0) (recovered stuck ∷ [])
unfolding recover_stale_jobs find_log_for_job update_row
stuck-recovered = refl

recover_stale_jobs-marked_example :
    (get_row 7 (recovered stuck ∷ []) ≡ get_row 7 (stuck ∷ []))
    ⊎ ((stale_args_hc.apply ≡ true)
        × ((k : JobRow) × Recoverable stale_args_hc stale_env (stuck ∷ []) k
            × (k.id ≡ 7)
            × (get_row 7 (recovered stuck ∷ []) ≡ Option_map recovered (get_row 7 (stuck ∷ [])))))
recover_stale_jobs-marked_example =
    recover_stale_jobs-marked stale_args_hc stale_env (stuck ∷ []) (recovered stuck ∷ []) 7
      stuck-recovered

abbrev watchdog : WatchdogArgs
watchdog = record {
  apply = true;
  deploy_lock_max_age = 0;
  reconcile_running_drift = true;
  reconcile_older_than_minutes = pos 1;
  reconcile_limit = pos 10;
}

-- The worker is down, nothing runs, and its start fails.
abbrev worker_down : WatchdogEnv
worker_down = record {
  now = now;
  sentinel = true;
  lock_free = true;
  state_file = none;
  worker_active = false;
  deploy_stat = missing;
  deploy_probe = free;
  storagebox = readable;
  count_fails = none;
  ps_rows = some [];
  reconcile_fails = false;
  start = record { returncode = pos 1; stdout = ""; stderr = "failed" };
  saves = λ k. true;
  iso = λ t. "now";
  clip = λ text. text;
  to_int = λ v. none;
}

abbrev stuck_end : StartEnd
stuck_end = auto_start watchdog worker_down (stuck ∷ [])

called : stuck_end.start_called ≡ true
unfolding auto_start deploy_lock_is_active first_rows sort_rows started_before
    output_dir_has_running_crawl_process
called = refl

auto_start-gated_example :
    ((worker_down.sentinel ≡ true)
      × (worker_down.lock_free ≡ true)
      × (deploy_lock_is_active now 0 missing free ≡ false)
      × ((probe_readable_dir readable).0 ≡ true)
      × (worker_down.count_fails ≡ none))
    × ((watchdog.apply ≡ true) × (worker_down.worker_active ≡ false))
    × (length (keep is_running stuck_end.table) ≡ 0)
    × (1 ≤ length (keep is_pending stuck_end.table))
auto_start-gated_example = auto_start-gated watchdog worker_down (stuck ∷ []) (tt, tt) called

-- The states that the run has saved.
abbrev first_saved : Fields
first_saved = elim stuck_end.saved [ s ∷ _ ↦ s | [] ↦ end ]

abbrev second_saved : Fields
second_saved = elim stuck_end.saved [ _ ∷ (s ∷ _) ↦ s | _ ↦ end ]

saved_twice : stuck_end.saved ≡ first_saved ∷ (second_saved ∷ [])
unfolding auto_start deploy_lock_is_active first_rows sort_rows started_before
    output_dir_has_running_crawl_process
saved_twice = refl

auto_start-Forgets_example :
    (find_field "rc" first_saved ≡ some (int (pos 1))) × Forgets second_saved
auto_start-Forgets_example = auto_start-Forgets watchdog worker_down (stuck ∷ []) saved_twice

auto_start-apply_example :
    (auto_start (record watchdog { apply = false }) worker_down (stuck ∷ [])).table
    ≡ stuck_end.table
auto_start-apply_example = auto_start-apply watchdog worker_down (stuck ∷ []) false
