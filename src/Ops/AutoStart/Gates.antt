-- ===== src/Ops/AutoStart/Gates.antt =====
-- When scripts/vps-worker-auto-start.py starts the worker.
use healtharchive_backend.Base.{
  ℕ, ◌⊎◌, ◌≤◌, ◌+◌, ◌-◌, String, Bool, true, false, ◌≡◌, refl, sym, ap, ◌∙◌, List, [], ◌∷◌, ◌==◌,
  string_eq, nat_eq, eq_iff, if◌then◌else◌, length, keep, All, All-imp, All-keep, inl, inr,
  Bool-cases, none, Option-cases, arith, not, ◌&&◌, ◌||◌, ltb,
}
use mathlib.Core.Path.{subst}
use healtharchive_backend.Base.Int.{pos, int_eq, leb_ℤ}
use healtharchive_backend.Json.{Fields}
use healtharchive_backend.Ops.{JobRow, JobTable, PsRow, deploy_lock_is_active}
use healtharchive_backend.Ops.Stale.{started_before, to_ℕ, sort_rows, mark_with}
use healtharchive_backend.Ops.Stale.Marked.{RowOf, All-RowOf, All-sort_rows, All-first_rows}
use healtharchive_backend.Ops.RunState.{
  WatchdogArgs, WatchdogEnv, load_state_file, probe_readable_dir,
}
use healtharchive_backend.Ops.AutoStart.{
  is_running, is_pending, reconciled, is_orphaned, reconcile_cutoff, drifted_rows,
  rows_to_reconcile, Decision, skips, starts, decide_start, StartEnd, act, failed_end, db_error_end,
  reconcile_and_act, auto_start,
}
use healtharchive_backend.Ops.AutoStart.Recount.{
  Distinct, Distinct-keep, Distinct-sort_rows, Distinct-first_rows, total, total-mark_with,
}

-- 1 for a row that passes.
abbrev weight : (JobRow → Bool) → JobRow → ℕ
weight p j = if p j then 1 else 0

length-keep_total :
    (p : JobRow → Bool) (rows : List JobRow) → length (keep p rows) ≡ total (weight p) rows
length-keep_total p [] = refl
length-keep_total p (j ∷ rest) = elim (Bool-cases (p j)) [
  | inl passes ↦ rw passes (omega (arith, length-keep_total p rest))
  | inr fails ↦ rw fails (omega (arith, length-keep_total p rest))
]

-- The rows of the reconciliation: running rows of the table, no two with the same identity.
abbrev Sound : JobTable → List JobRow → Type 0
Sound table rows = All (λ j. RowOf table j × (is_running j ≡ true)) rows × Distinct rows

drifted_rows-Sound :
    (args : WatchdogArgs) (e : WatchdogEnv) (table : JobTable)
    → Distinct table
    → Sound table (drifted_rows args e table)
unfolding drifted_rows
drifted_rows-Sound args e table d =
    let p =
      λ (j : JobRow). is_running j && started_before false (reconcile_cutoff args e) j.started_at in
    let Q = λ (j : JobRow). RowOf table j × (is_running j ≡ true) in
    let both : (j : JobRow) → p j ≡ true → is_running j ≡ true = λ j h. ground (arith, h) in
    let n = to_ℕ args.reconcile_limit in
    let kept = keep p table in
    let kept_ok : All Q kept =
      All-imp (λ j. RowOf table j × (p j ≡ true)) Q kept (λ j h. (h.0, both j h.1))
        (All-keep (RowOf table) p table (All-RowOf table)) in
    (
      All-first_rows Q n (sort_rows kept) (All-sort_rows Q kept kept_ok),
      Distinct-first_rows n (sort_rows kept) (Distinct-sort_rows kept (Distinct-keep p table d)),
    )

rows_to_reconcile-cases :
    (args : WatchdogArgs) (e : WatchdogEnv) (table : JobTable)
    → (rows_to_reconcile args e table ≡ [])
      ⊎ ((rows : List PsRow) × (rows_to_reconcile args e table
            ≡ keep (is_orphaned rows) (drifted_rows args e table)))
unfolding rows_to_reconcile
rows_to_reconcile-cases args e table = elim (Option-cases e.ps_rows) [
  | inl failed ↦ inl (ground arith)
  | inr (rows, listed) ↦
      elim (Bool-cases (
        not e.worker_active
        && (ltb 0 (length (keep is_running table))
            && (args.reconcile_running_drift
                && (leb_ℤ (pos 1) args.reconcile_limit && not e.reconcile_fails))))) [
                  | inl tried ↦ inr (rows, ground arith)
                  | inr not_tried ↦ inl (ground arith)
                ]
]

rows_to_reconcile-Sound :
    (args : WatchdogArgs) (e : WatchdogEnv) (table : JobTable)
    → Distinct table
    → Sound table (rows_to_reconcile args e table)
rows_to_reconcile-Sound args e table d =
    let Q = λ (j : JobRow). RowOf table j × (is_running j ≡ true) in
    elim (rows_to_reconcile-cases args e table) [
      | inl empty ↦ subst (Sound table) (sym empty) (tt, tt)
      | inr (rows, kept) ↦
          let ok = drifted_rows-Sound args e table d in
          let drifted = drifted_rows args e table in
          subst (Sound table) (sym kept) (
            All-imp (λ j. Q j × (is_orphaned rows j ≡ true)) Q (keep (is_orphaned rows) drifted)
                (λ j h. h.0) (All-keep Q (is_orphaned rows) drifted ok.0),
            Distinct-keep (is_orphaned rows) drifted ok.1,
          )
    ]

running-weight :
    (j : JobRow)
    → is_running j ≡ true
    → weight is_running (reconciled j) + 1 ≡ weight is_running j + 0
running-weight j running = rw running refl

pending-weight :
    (j : JobRow)
    → is_running j ≡ true
    → weight is_pending (reconciled j) + 0 ≡ weight is_pending j + 1
pending-weight j running =
    let same : j.status ≡ "running" = (eq_iff j.status "running").0 running in
    let idle : is_pending j ≡ false = ap (λ (t : String). t == "queued" || t == "retryable") same in
    rw idle refl

-- The counts that the reconciliation corrects are those of the table that it leaves.
recount :
    (args : WatchdogArgs) (e : WatchdogEnv) (table : JobTable)
    → Distinct table
    → let rows = rows_to_reconcile args e table in
      let after = mark_with reconciled rows table in
      (length (keep is_running table) - length rows ≡ length (keep is_running after))
      × (length (keep is_pending table) + length rows ≡ length (keep is_pending after))
recount args e table d =
    let rows = rows_to_reconcile args e table in
    let ok = rows_to_reconcile-Sound args e table d in
    let after = mark_with reconciled rows table in
    let fewer =
      total-mark_with reconciled (λ j. refl) (weight is_running) 1 0 rows table ok.1 d
        (All-imp (λ j. RowOf table j × (is_running j ≡ true))
          (λ j. RowOf table j × (weight is_running (reconciled j) + 1 ≡ weight is_running j + 0))
          rows (λ j h. (h.0, running-weight j h.1)) ok.0) in
    let more =
      total-mark_with reconciled (λ j. refl) (weight is_pending) 0 1 rows table ok.1 d
        (All-imp (λ j. RowOf table j × (is_running j ≡ true))
          (λ j. RowOf table j × (weight is_pending (reconciled j) + 0 ≡ weight is_pending j + 1))
          rows (λ j h. (h.0, pending-weight j h.1)) ok.0) in
    (
      omega (arith, fewer, length-keep_total is_running table, length-keep_total is_running after),
      omega (arith, more, length-keep_total is_pending table, length-keep_total is_pending after),
    )

decide_start-starts :
    (args : WatchdogArgs) (e : WatchdogEnv) (running pending : ℕ)
    → decide_start args e running pending ≡ starts
    → (e.worker_active ≡ false) × (running ≡ 0) × (1 ≤ pending) × (args.apply ≡ true)
unfolding decide_start
decide_start-starts args e running pending r =
    (ground arith, ground arith, ground arith, ground arith)

pub Decision-cases : (d : Decision) → (d ≡ starts) ⊎ ((reason : String) × (d ≡ skips reason))
Decision-cases starts = inl refl
Decision-cases (skips reason) = inr (reason, refl)

act-called :
    (args : WatchdogArgs) (e : WatchdogEnv) (state : Fields) (table : JobTable)
    (running pending : ℕ)
    → (act args e state table running pending).start_called ≡ true
    → (decide_start args e running pending ≡ starts)
      × ((act args e state table running pending).table ≡ table)
unfolding act failed_end
act-called args e state table running pending r =
    elim (Decision-cases (decide_start args e running pending)) [
      | inr (reason, skipped) ↦ absurd (ground arith)
      | inl started ↦ (started, ground arith)
    ]

-- What passes the gates.
auto_start-passed :
    (args : WatchdogArgs) (e : WatchdogEnv) (table : JobTable)
    → (auto_start args e table).start_called ≡ true
    → ((e.sentinel ≡ true)
        × (e.lock_free ≡ true)
        × (deploy_lock_is_active e.now args.deploy_lock_max_age e.deploy_stat e.deploy_probe
            ≡ false)
        × ((probe_readable_dir e.storagebox).0 ≡ true)
        × (e.count_fails ≡ none))
      × (auto_start args e table ≡ reconcile_and_act args e (load_state_file e.state_file) table)
unfolding auto_start db_error_end
auto_start-passed args e table r = elim (Option-cases e.count_fails) [
  | inr (text, failed) ↦ absurd (ground arith)
  | inl counted ↦ ((ground arith, ground arith, ground arith, ground arith, counted), ground arith)
]

-- If no two rows of the table have the same identity, the worker is started only where the sentinel is there,
-- the lock is free, no deploy lock is active, the mount can be read, the first queries work, `--apply` is given
-- and the worker is not active; and in the table that the run leaves no row is running and one or more wait.
pub auto_start-gated :
    (args : WatchdogArgs) (e : WatchdogEnv) (table : JobTable)
    → Distinct table
    → (auto_start args e table).start_called ≡ true
    → ((e.sentinel ≡ true)
        × (e.lock_free ≡ true)
        × (deploy_lock_is_active e.now args.deploy_lock_max_age e.deploy_stat e.deploy_probe
            ≡ false)
        × ((probe_readable_dir e.storagebox).0 ≡ true)
        × (e.count_fails ≡ none))
      × ((args.apply ≡ true) × (e.worker_active ≡ false))
      × (length (keep is_running (auto_start args e table).table) ≡ 0)
      × (1 ≤ length (keep is_pending (auto_start args e table).table))
unfolding reconcile_and_act
auto_start-gated args e table d r =
    let passed = auto_start-passed args e table r in
    let state = load_state_file e.state_file in
    let rows = rows_to_reconcile args e table in
    let after = mark_with reconciled rows table in
    let running = length (keep is_running table) - length rows in
    let pending = length (keep is_pending table) + length rows in
    let called =
      act-called args e state after running pending (sym (ap StartEnd.start_called passed.1) ∙ r) in
    let started = decide_start-starts args e running pending called.0 in
    let left = ap StartEnd.table passed.1 ∙ called.1 in
    let count = recount args e table d in
    (
      passed.0,
      (started.3, started.0),
      ap (λ (t : JobTable). length (keep is_running t)) left ∙ (sym count.0 ∙ started.1),
      subst (λ (t : JobTable). 1 ≤ length (keep is_pending t)) (sym left)
          (subst (λ (n : ℕ). 1 ≤ n) count.1 started.2),
    )
