-- ===== src/Ops/AutoStart/Notes.antt =====
-- What scripts/vps-worker-auto-start.py writes: its state after a start that fails, and the table without --apply.
use healtharchive_backend.Base.{
  ℕ, ◌*◌, ◌/◌, ◌-◌, ◌+◌, length, keep, List, [], ◌∷◌, String, Bool, true, false, ◌≡◌, refl, sym, ap,
  ◌∙◌, ◌==◌, string_eq, eq_iff, if◌then◌else◌, inl, inr, Bool-cases, Option, none, some,
  Option-cases, arith,
}
use mathlib.Core.Path.{subst}
use healtharchive_backend.Ops.AutoStart.Gates.{Decision-cases}
use healtharchive_backend.Json.{Json, int, str, Fields, end, field, find_field}
use healtharchive_backend.Base.Int.{pos, int_eq}
use healtharchive_backend.Registry.Templates.{set_item}
use healtharchive_backend.Ops.Stale.{mark_with}
use healtharchive_backend.Ops.{JobTable}
use healtharchive_backend.Ops.RunState.{
  WatchdogArgs, WatchdogEnv, pop_item, note_text, note_code, bool_int, record_start_attempt,
  update_run_state, load_state_file,
}
use healtharchive_backend.Ops.AutoStart.{
  note_of, is_running, is_pending, reconciled, failed_state, failed_end, wrote, db_error_end,
  decide_start, act, reconcile_and_act, auto_start, rows_to_reconcile, drifted_rows,
  reconcile_cutoff,
}

find_field-pop_item : (key : String) (state : Fields) → find_field key (pop_item key state) ≡ none
unfolding find_field pop_item
find_field-pop_item key end = refl
find_field-pop_item key (field k v rest) = ground (arith, find_field-pop_item key rest)

find_field-pop_other :
    (key other : String) (state : Fields)
    → (other == key) ≡ false
    → find_field key (pop_item other state) ≡ find_field key state
unfolding find_field pop_item
find_field-pop_other key other end differ = refl
find_field-pop_other key other (field k v rest) differ =
    let below = find_field-pop_other key other rest differ in
    elim (Bool-cases (k == other)) [
      | inl popped ↦
          let same : k ≡ other = (eq_iff k other).0 popped in
          let unlike : (k == key) ≡ false =
            subst (λ (t : String). (t == key) ≡ false) (sym same) differ in
          rw (popped, pop_item) (rw (unlike, find_field) below)
      | inr stays ↦
          rw (stays, pop_item) (ap (λ (o : Option Json). if k == key then some v else o) below)
    ]

pops_three :
    (state : Fields)
    → let popped = pop_item "stderr" (pop_item "stdout" (pop_item "rc" state)) in
      (find_field "rc" popped ≡ none)
      × (find_field "stdout" popped ≡ none)
      × (find_field "stderr" popped ≡ none)
pops_three state =
    let two = pop_item "stdout" (pop_item "rc" state) in
    (
      find_field-pop_other "rc" "stderr" two refl
          ∙ (find_field-pop_other "rc" "stdout" (pop_item "rc" state) refl
              ∙ find_field-pop_item "rc" state),
      find_field-pop_other "stdout" "stderr" two refl
          ∙ find_field-pop_item "stdout" (pop_item "rc" state),
      find_field-pop_item "stderr" two,
    )

-- No exit code and no output of a command.
abbrev pub Forgets : Fields → Type 0
Forgets state =
    (find_field "rc" state ≡ none)
    × (find_field "stdout" state ≡ none)
    × (find_field "stderr" state ≡ none)

-- What a run notes of itself last.
update_run_state-Forgets :
    (e : WatchdogEnv) (result reason : String) (running pending : ℕ) (failure : Option String)
    (state : Fields)
    → Forgets (
        update_run_state e
          (record (note_of result reason running pending) { exception = failure })
          state)
unfolding update_run_state note_text note_code
update_run_state-Forgets e result reason running pending failure state = pops_three (
    note_text e.clip "exception" failure (
      set_item "pending_jobs" (int (pos pending)) (
        set_item "running_jobs" (int (pos running)) (
          set_item "worker_active" (int (bool_int e.worker_active)) (
            set_item "reason" (str reason) (
              set_item "result" (str result)
                (set_item "last_run_utc" (str (e.iso (e.now / 1000000 * 1000000))) state)))))))

find_field-set_item :
    (key other : String) (v : Json) (state : Fields)
    → find_field key (set_item other v state)
      ≡ (if other == key then some v else find_field key state)
unfolding find_field set_item
find_field-set_item key other v end = refl
find_field-set_item key other v (field k w rest) =
    ground
      (arith, eq_iff other key, eq_iff k other, eq_iff k key, find_field-set_item key other v rest)

find_field-note_text :
    (clip : String → String) (key other : String) (text : Option String) (state : Fields)
    → (other == key) ≡ false
    → find_field key (note_text clip other text state) ≡ find_field key state
unfolding note_text
find_field-note_text clip key other none state differ = find_field-pop_other key other state differ
find_field-note_text clip key other (some text) state differ = elim (Bool-cases (text == "")) [
  | inl empty ↦ rw (empty, note_text) (find_field-pop_other key other state differ)
  | inr full ↦
      rw (full, note_text)
        (rw (find_field-set_item key other (str (clip text)) state) (rw differ refl))
]

-- The failure has the exit code.
failed_state-rc :
    (e : WatchdogEnv) (running pending : ℕ) (state : Fields)
    → find_field "rc" (failed_state e running pending state) ≡ some (int e.start.returncode)
unfolding failed_state update_run_state note_code
failed_state-rc e running pending state =
    find_field-note_text e.clip "rc" "stderr" (some e.start.stderr) _ refl
    ∙ (find_field-note_text e.clip "rc" "stdout" (some e.start.stdout) _ refl
        ∙ find_field-set_item "rc" "rc" (int e.start.returncode) _)

-- The first of the two states has the exit code, the second has no exit code and no output.
abbrev pub Overwritten : WatchdogEnv → List Fields → Type 0
Overwritten e (first ∷ (second ∷ [])) =
    (find_field "rc" first ≡ some (int e.start.returncode)) × Forgets second
Overwritten e _ = Unit

wrote-Overwritten :
    (e : WatchdogEnv) (works : Bool) (state : Fields) → Overwritten e (wrote works state)
unfolding wrote
wrote-Overwritten e true state = tt
wrote-Overwritten e false state = tt

failed_end-Overwritten :
    (e : WatchdogEnv) (running pending : ℕ) (state : Fields) (table : JobTable) (b c : Bool)
    → e.saves 0 ≡ b
    → e.saves 1 ≡ c
    → Overwritten e (failed_end e running pending state table).saved
unfolding failed_end wrote
failed_end-Overwritten e running pending state table false c first last = rw (first, failed_end) tt
failed_end-Overwritten e running pending state table true false first last =
    rw (first, failed_end) (rw (last, wrote) tt)
failed_end-Overwritten e running pending state table true true first last =
    let failure = failed_state e running pending state in
    rw (first, failed_end)
      (rw (last, wrote)
        (
          failed_state-rc e running pending state,
          update_run_state-Forgets e "fail" "systemctl_start_failed" running pending none failure,
        ))

act-Overwritten :
    (args : WatchdogArgs) (e : WatchdogEnv) (state : Fields) (table : JobTable)
    (running pending : ℕ)
    → Overwritten e (act args e state table running pending).saved
unfolding act
act-Overwritten args e state table running pending =
    let saved = (act args e state table running pending).saved in
    elim (Decision-cases (decide_start args e running pending)) [
      | inr (reason, skipped) ↦
          let noted = update_run_state e (note_of "skip" reason running pending) state in
          let same : saved ≡ wrote (e.saves 0) noted = ground arith in
          subst (Overwritten e) (sym same) (wrote-Overwritten e (e.saves 0) noted)
      | inl started ↦ elim (Bool-cases (e.start.returncode == pos 0)) [
        | inl fine ↦
            let noted =
              update_run_state e (note_of "ok" "started_worker" running pending)
                (record_start_attempt e true state) in
            let same : saved ≡ wrote (e.saves 0) noted = ground arith in
            subst (Overwritten e) (sym same) (wrote-Overwritten e (e.saves 0) noted)
        | inr failed ↦
            let same : saved ≡ (failed_end e running pending state table).saved = ground arith in
            subst (Overwritten e) (sym same) (
              failed_end-Overwritten e running pending state table (e.saves 0) (e.saves 1) refl
                refl)
      ]
    ]

-- A run that saves its state twice, as it does after a start that fails, saves the exit code of `systemctl start`
-- first; the second state, which replaces the first, has no exit code and no output of the command.
pub auto_start-Forgets :
    (args : WatchdogArgs) (e : WatchdogEnv) (table : JobTable) {first second : Fields}
    → (auto_start args e table).saved ≡ first ∷ (second ∷ [])
    → (find_field "rc" first ≡ some (int e.start.returncode)) × Forgets second
unfolding auto_start db_error_end reconcile_and_act
auto_start-Forgets args e table {first} {second} r = elim (Option-cases e.count_fails) [
  | inr (text, failed) ↦ absurd (ground arith)
  | inl counted ↦
      let rows = rows_to_reconcile args e table in
      let after = mark_with reconciled rows table in
      let running = length (keep is_running table) - length rows in
      let pending = length (keep is_pending table) + length rows in
      let state = load_state_file e.state_file in
      let same : (act args e state after running pending).saved ≡ first ∷ (second ∷ []) =
        ground arith in
      subst (Overwritten e) same (act-Overwritten args e state after running pending)
]

act-table :
    (args : WatchdogArgs) (e : WatchdogEnv) (state : Fields) (table : JobTable)
    (running pending : ℕ)
    → (act args e state table running pending).table ≡ table
unfolding act failed_end
act-table args e state table running pending = ground arith

reconcile_and_act-apply :
    (args : WatchdogArgs) (e : WatchdogEnv) (state : Fields) (table : JobTable) (apply : Bool)
    → (reconcile_and_act (record args { apply = apply }) e state table).table
      ≡ (reconcile_and_act args e state table).table
unfolding reconcile_and_act rows_to_reconcile drifted_rows reconcile_cutoff
reconcile_and_act-apply args e state table apply =
    let rows = rows_to_reconcile args e table in
    let running = length (keep is_running table) - length rows in
    let pending = length (keep is_pending table) + length rows in
    let after = mark_with reconciled rows table in
    act-table (record args { apply = apply }) e state after running pending
    ∙ sym (act-table args e state after running pending)

-- The table that a run leaves does not depend on `--apply`: the reconciliation also writes in a dry run.
pub auto_start-apply :
    (args : WatchdogArgs) (e : WatchdogEnv) (table : JobTable) (apply : Bool)
    → (auto_start (record args { apply = apply }) e table).table ≡ (auto_start args e table).table
unfolding auto_start db_error_end
auto_start-apply args e table apply =
    let same = reconcile_and_act-apply args e (load_state_file e.state_file) table apply in
    elim (Option-cases e.count_fails) [
      | inr (text, failed) ↦ ground arith
      | inl counted ↦ ground arith
    ]
