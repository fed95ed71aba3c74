-- ===== src/Ops/Recover/DryRun.antt =====
-- A dry run of scripts/vps-crawl-auto-recover.py.
use healtharchive_backend.Base.{
  ℕ, String, false, ◌≡◌, refl, sym, ap, ◌∙◌, ◌&&◌, not, Option, none, some, List, [], ◌∷◌, arith,
  inl, inr, Option-cases, List-cases, length, if◌then◌else◌,
}
use mathlib.Core.Path.{subst}
use healtharchive_backend.Base.Int.{ℤ}
use healtharchive_backend.Json.{Fields, obj}
use healtharchive_backend.Registry.Templates.{set_item}
use healtharchive_backend.Ops.{JobRow, JobTable, PsRow}
use healtharchive_backend.Ops.Recover.Host.{Host}
use healtharchive_backend.Ops.Recover.Runner.{JobRunner, held_job_lock_job_ids, detect_job_runner}
use healtharchive_backend.Ops.Recover.Sync.{RunningJob, sync_table, running_jobs, reconcile_scopes}
use healtharchive_backend.Ops.Recover.Watch.{
  update_streaks, load_streaks, streaks_json, Sight, sights, Streaks, stalled_of,
}
use healtharchive_backend.Ops.Recover.Prepare.{World, RunEnd, finishes, quits, raises}
use healtharchive_backend.Ops.Recover.Act.{ActArgs, ActEnv, soft_recover, full_recover, recover_job}
use healtharchive_backend.Ops.Recover.Start.{
  year_wanted, LaunchArgs, LaunchEnv, select_candidate, start_candidate, ensure_running,
}
use healtharchive_backend.Ops.Recover.Main.{
  act_args, act_env, launch_args, launch_env, quiet_reason, threshold_hit, RecoverArgs, RecoverEnv,
  is_drill, load_state, counted_state, crawled_now, recover_first, decide_run, watch_run,
  after_scopes, writes, run_scopes, run_passes, auto_recover,
}

abbrev pub world_of : RunEnd → World
world_of (finishes code result reason w) = w
world_of (quits code w) = w
world_of (raises w) = w

soft_recover-dry :
    (h : Host) (a : ActArgs) (e : ActEnv) (job : RunningJob) (crawled : Option ℤ) (w : World)
    → a.apply ≡ false
    → world_of (soft_recover h a e job crawled w) ≡ w
unfolding soft_recover
soft_recover-dry h a e job crawled w dry = rw dry (ground arith)

full_recover-dry :
    (h : Host) (a : ActArgs) (e : ActEnv) (job : RunningJob) (r : JobRunner) (crawled : Option ℤ)
    (w : World)
    → a.apply ≡ false
    → world_of (full_recover h a e job r crawled w) ≡ w
unfolding full_recover
full_recover-dry h a e job r crawled w dry = rw dry (ground arith)

recover_job-dry :
    (h : Host) (a : ActArgs) (e : ActEnv) (seen : List (RunningJob × Sight)) (job : RunningJob)
    (r : JobRunner) (crawled : Option ℤ) (w : World)
    → a.apply ≡ false
    → world_of (recover_job h a e seen job r crawled w) ≡ w
unfolding recover_job
recover_job-dry h a e seen job r crawled w dry =
    ground (arith, soft_recover-dry h a e job crawled w, full_recover-dry h a e job r crawled w)

start_candidate-dry :
    (h : Host) (a : LaunchArgs) (e : LaunchEnv) (year : ℤ) (j : JobRow) (w : World)
    → a.apply ≡ false
    → world_of (start_candidate h a e year j w) ≡ w
unfolding start_candidate
start_candidate-dry h a e year j w dry = rw dry (ground arith)

ensure_running-dry :
    (h : Host) (a : LaunchArgs) (e : LaunchEnv) (quiet : String) (running : ℕ) (w : World)
    → a.apply ≡ false
    → world_of (ensure_running h a e quiet running w) ≡ w
unfolding ensure_running
ensure_running-dry h a e quiet running w dry =
    let year = year_wanted a.ensure_year e.year in
    elim (Option-cases (select_candidate h year w.table)) [
      | inl nothing ↦ ground arith
      | inr (j, found) ↦ ground (arith, start_candidate-dry h a e year j w dry)
    ]

-- The rows and the commands of an end.
abbrev Untouched : JobTable → RunEnd → Type 0
Untouched table end = ((world_of end).table ≡ table) × ((world_of end).commands ≡ [])

untouched :
    (table : JobTable) (end : RunEnd) (w : World)
    → world_of end ≡ w
    → w.table ≡ table
    → w.commands ≡ []
    → Untouched table end
untouched table end w e t c = rw e (t, c)

recover_first-dry :
    (h : Host) (a : RecoverArgs) (e : RecoverEnv) (seen : List (RunningJob × Sight))
    (job : RunningJob) (w : World)
    → a.apply ≡ false
    → world_of (recover_first h a e seen job w) ≡ w
unfolding recover_first
recover_first-dry h a e seen job w dry =
    let found =
      detect_job_runner h e.later (if is_drill a then a.simulated_runner else none) job.job_id
        job.output_dir in
    elim (Option-cases found) [
      | inl failed ↦ ground arith
      | inr (r, detected) ↦ elim (Option-cases (crawled_now e.files job)) [
        | inl failed ↦ ground arith
        | inr (crawled, read) ↦
            ground (arith, recover_job-dry h (act_args a) (act_env e) seen job r crawled w dry)
      ]
    ]

decide_run-dry :
    (h : Host) (a : RecoverArgs) (e : RecoverEnv) (seen : List (RunningJob × Sight)) (d : Streaks)
    (w : World)
    → a.apply ≡ false
    → world_of (decide_run h a e seen d w) ≡ w
unfolding decide_run
decide_run-dry h a e seen d w dry = elim (List-cases (stalled_of a.watch e.now seen)) [
  | inl calm ↦ ground (
    arith,
    ensure_running-dry h (launch_args a) (launch_env e)
        (quiet_reason (threshold_hit h a.watch e.now d seen)) (length seen) w dry,
  )
  | inr (job, others, stalled) ↦ ground (arith, recover_first-dry h a e seen job w dry)
]

watch_run-dry :
    (h : Host) (a : RecoverArgs) (e : RecoverEnv) (seen : List (RunningJob × Sight))
    (table : JobTable) (state : Fields)
    → a.apply ≡ false
    → Untouched table (watch_run h a e seen table state)
unfolding watch_run
watch_run-dry h a e seen table state dry =
    let d = update_streaks h a.watch e.now seen (load_streaks h state) in
    let noted = set_item "degraded_streaks" (obj (streaks_json d)) state in
    let w : World = record { table = table; state = noted; saved = some noted; commands = [] } in
    untouched table (decide_run h a e seen d w) w (decide_run-dry h a e seen d w dry) refl refl

after_scopes-dry :
    (h : Host) (a : RecoverArgs) (e : RecoverEnv) (running : List RunningJob) (table : JobTable)
    (n : ℕ)
    → a.apply ≡ false
    → Untouched table (after_scopes h a e running table n)
unfolding after_scopes
after_scopes-dry h a e running table n dry =
    elim (Option-cases
      (counted_state h (a.apply && not (is_drill a)) n (load_state e.state_json))) [
        | inl failed ↦ ground arith
        | inr (state, counted) ↦ elim (Option-cases (sights a.watch e.files running)) [
          | inl failed ↦ ground arith
          | inr (seen, sighted) ↦ ground (arith, watch_run-dry h a e seen table state dry)
        ]
      ]

sync_table-dry :
    (now : ℕ) (held : List ℕ) (rows : Option (List PsRow)) (table : JobTable)
    → sync_table false now held rows table ≡ table
unfolding sync_table
sync_table-dry now held none table = refl
sync_table-dry now held (some rows) table = refl

reconcile_scopes-dry :
    (h : Host) (running : List RunningJob) (table : JobTable) {after : JobTable} {n : ℕ}
    → reconcile_scopes h false running table ≡ some (after, n)
    → after ≡ table
unfolding reconcile_scopes
reconcile_scopes-dry h [] table e = grind arith
reconcile_scopes-dry h (r ∷ rest) table e =
    elim (Option-cases (reconcile_scopes h false rest table)) [
      | inl failed ↦ absurd (ground arith)
      | inr ((t, m), later) ↦ let ih = reconcile_scopes-dry h rest table later in grind arith
    ]

run_scopes-dry :
    (h : Host) (a : RecoverArgs) (e : RecoverEnv) (table : JobTable)
    → a.apply ≡ false
    → Untouched table (run_scopes h a e false table)
unfolding run_scopes
run_scopes-dry h a e table dry =
    let running = running_jobs a.watch.simulated table in
    elim (Option-cases (reconcile_scopes h false running table)) [
      | inl failed ↦ ground arith
      | inr ((after, n), passed) ↦
          let same = reconcile_scopes-dry h running table passed in
          ground (arith, after_scopes-dry h a e running after n dry)
    ]

run_passes-dry :
    (h : Host) (a : RecoverArgs) (e : RecoverEnv) (held : List ℕ) (table : JobTable)
    → a.apply ≡ false
    → Untouched table (run_passes h a e held table)
unfolding run_passes
run_passes-dry h a e held table dry =
    let quiet : writes a ≡ false = ap (λ b. b && not (is_drill a)) dry in
    let same : sync_table (writes a) e.now held e.processes.ps_rows table ≡ table =
      ap (λ b. sync_table b e.now held e.processes.ps_rows table) quiet
      ∙ sync_table-dry e.now held e.processes.ps_rows table in
    subst (λ x. Untouched table (run_scopes h a e (writes a) x)) (sym same)
      (subst (λ b. Untouched table (run_scopes h a e b table)) (sym quiet)
        (run_scopes-dry h a e table dry))

-- Without `--apply` a run changes no row and runs no command, whatever it meets and however it ends.
pub auto_recover-dry :
    (h : Host) (a : RecoverArgs) (e : RecoverEnv) (table : JobTable)
    → a.apply ≡ false
    → ((world_of (auto_recover h a e table)).table ≡ table)
      × ((world_of (auto_recover h a e table)).commands ≡ [])
unfolding auto_recover
auto_recover-dry h a e table dry =
    elim (Option-cases (held_job_lock_job_ids e.processes.lock_files)) [
      | inl failed ↦ ground arith
      | inr (held, probed) ↦ ground (arith, run_passes-dry h a e held table dry)
    ]
