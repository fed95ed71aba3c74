-- ===== src/Ops/Recover/Counted.antt =====
-- The recoveries of scripts/vps-crawl-auto-recover.py count in the history.
use healtharchive_backend.Base.{
  ℕ, ◌+◌, ◌-◌, String, Bool, true, false, ◌≡◌, refl, sym, ap, ◌∙◌, ◌||◌, Option, none, some,
  string_eq, nat_eq, arith, inl, inr, Option-cases, Bool-cases,
}
use mathlib.Core.Path.{subst}
use healtharchive_backend.Base.Int.{ℤ, pos, int_eq, ◌+ℤ◌}
use healtharchive_backend.Json.{Fields, null, int, get_field}
use healtharchive_backend.Contract.{truthy}
use healtharchive_backend.Registry.Templates.{set_item}
use healtharchive_backend.Ops.Recover.Options.{ensure_recovery_tool_options}
use healtharchive_backend.Ops.{JobRow, get_row}
use healtharchive_backend.Ops.Recover.Host.{Host}
use healtharchive_backend.Ops.Recover.History.{
  record_recovery, record_recovery_progress, count_recent,
}
use healtharchive_backend.Ops.Recover.Counts.{
  IsHost, record_recovery-count, record_recovery_progress-count, count_recent-rewrites,
}
use healtharchive_backend.Ops.Recover.Ends.{run_stale_ends, recover_with_ends}
use healtharchive_backend.Ops.Recover.Sync.{RunningJob, compute_scope_args, count_rewrites}
use healtharchive_backend.Ops.Recover.Prepare.{
  UpdatedRow, World, RunEnd, finishes, raises, prepare_metadata, prepare_scope, prepare_row,
  update_config,
}
use healtharchive_backend.Ops.Recover.Act.{
  ActArgs, ActEnv, day, note_recovery, finish_recovery, run_stale, recover_with,
}

-- The number of recoveries of the last day.
abbrev pub recent : Host → ℕ → ℕ → Fields → Option ℕ
recent h id now state = count_recent h "recoveries" id (now - day) state

-- After a recovery there is one more.
abbrev pub Counted : Host → ℕ → ℕ → ℕ → RunEnd → Type 0
Counted h id now n (finishes code result reason w) =
    result ≡ "ok" → recent h id now w.state ≡ some (n + 1)
Counted h id now n _ = Unit {0}

module _ (h : Host) (laws : IsHost h) (e : ActEnv) (id n : ℕ) where
  note_recovery-Counted :
      (crawled : Option ℤ) (state : Fields) {noted : Fields}
      → note_recovery h e.now id crawled state ≡ some noted
      → recent h id e.now state ≡ some n
      → recent h id e.now noted ≡ some (n + 1)
  unfolding note_recovery
  note_recovery-Counted none state {noted} r c =
      elim (Option-cases (record_recovery h id e.now state)) [
        | inl failed ↦ absurd (ground arith)
        | inr (s, recorded) ↦
            let same : s ≡ noted = grind arith in
            subst (λ x. recent h id e.now x ≡ some (n + 1)) same
              (record_recovery-count h laws id e.now (e.now - day) n state (omega arith) recorded c)
      ]
  note_recovery-Counted (some crawled) state {noted} r c =
      elim (Option-cases (record_recovery h id e.now state)) [
        | inl failed ↦ absurd (ground arith)
        | inr (s, recorded) ↦
            let last : record_recovery_progress h id crawled e.now s ≡ some noted = ground arith in
            record_recovery_progress-count h laws id e.now (e.now - day) crawled s last
            ∙ record_recovery-count h laws id e.now (e.now - day) n state (omega arith) recorded c
      ]

  finish_recovery-Counted :
      (crawled : Option ℤ) (reason : String) (w : World)
      → recent h id e.now w.state ≡ some n
      → Counted h id e.now n (finish_recovery h e id crawled reason w)
  unfolding finish_recovery
  finish_recovery-Counted crawled reason w c =
      elim (Option-cases (note_recovery h e.now id crawled w.state)) [
        | inl failed ↦
            let end : finish_recovery h e id crawled reason w ≡ raises w =
              rw (failed, finish_recovery) refl in
            subst (Counted h id e.now n) (sym end) tt
        | inr (noted, r) ↦
            let done = record w { state = noted; saved = some noted } in
            let end : finish_recovery h e id crawled reason w ≡ finishes (pos 0) "ok" reason done =
              rw (r, finish_recovery) refl in
            subst (Counted h id e.now n) (sym end) (λ ok. note_recovery-Counted crawled w.state r c)
      ]

module _ (h : Host) (laws : IsHost h) (a : ActArgs) (e : ActEnv) (job : RunningJob) (n : ℕ) where
  pub done :
      (crawled : Option ℤ) (reason : String) (w : World)
      → recent h job.job_id e.now w.state ≡ some n
      → (v : World) → v.state ≡ w.state
      → Counted h job.job_id e.now n (finish_recovery h e job.job_id crawled reason v)
  done crawled reason w c v same =
      finish_recovery-Counted h laws e job.job_id n crawled reason v
        (ap (recent h job.job_id e.now) same ∙ c)

  pub run_stale-Counted :
      (crawled : Option ℤ) (reason : String) (w : World)
      → recent h job.job_id e.now w.state ≡ some n
      → Counted h job.job_id e.now n
          (run_stale h a e job.source_code w (finish_recovery h e job.job_id crawled reason))
  run_stale-Counted crawled reason w c =
      run_stale_ends (Counted h job.job_id e.now n) (λ v. tt) h a e job.source_code w
        (finish_recovery h e job.job_id crawled reason) (done crawled reason w c)

  pub recover_with-Counted :
      (crawled : Option ℤ) (unit : Option String) (w : World)
      → recent h job.job_id e.now w.state ≡ some n
      → Counted h job.job_id e.now n (recover_with h a e job crawled unit w)
  recover_with-Counted crawled unit w c =
      recover_with_ends (Counted h job.job_id e.now n) (λ v. tt) h a e job crawled unit w
        (done crawled "full_recovered" w c)

-- The update of a config leaves the history alone.
count_rewrites-recent :
    (h : Host) (k id now : ℕ) (state : Fields) {counted : Fields}
    → count_rewrites h k state ≡ some counted
    → recent h id now counted ≡ recent h id now state
unfolding count_rewrites
count_rewrites-recent h k id now state {counted} r =
    let v = get_field "scope_rewrites_total" null state in
    elim (Bool-cases (truthy h.py v)) [
      | inr falsy ↦
          let same : set_item "scope_rewrites_total" (int (pos k)) state ≡ counted = grind arith in
          subst (λ s. recent h id now s ≡ recent h id now state) same
            (count_recent-rewrites h "recoveries" id (now - day) (int (pos k)) state refl)
      | inl true_value ↦ elim (Option-cases (h.py.to_int v)) [
        | inl failed ↦ absurd (ground arith)
        | inr (total, read) ↦
            let same : set_item "scope_rewrites_total" (int (total +ℤ pos k)) state ≡ counted =
              grind arith in
            subst (λ s. recent h id now s ≡ recent h id now state) same
              (count_recent-rewrites h "recoveries" id (now - day) (int (total +ℤ pos k)) state
                refl)
      ]
    ]

prepare_scope-recent :
    (h : Host) (id now : ℕ) (source : String) (j : JobRow) (changed : Bool) (state : Fields)
    {p : UpdatedRow}
    → prepare_scope h source j changed state ≡ some p
    → recent h id now p.state ≡ recent h id now state
unfolding prepare_scope
prepare_scope-recent h id now source j changed state {p} r =
    elim (Option-cases (compute_scope_args h source j)) [
      | inl failed ↦ absurd (ground arith)
      | inr ((args, false), computed) ↦
          let same : state ≡ p.state = grind arith in ap (recent h id now) (sym same)
      | inr ((args, true), computed) ↦ elim (Option-cases (count_rewrites h 1 state)) [
        | inl failed ↦ absurd (ground arith)
        | inr (counted, r2) ↦
            let same : counted ≡ p.state = grind arith in
            ap (recent h id now) (sym same) ∙ count_rewrites-recent h 1 id now state r2
      ]
    ]

prepare_row-recent :
    (h : Host) (id now : ℕ) (backfill : Option ℤ) (source : String) (j : JobRow) (state : Fields)
    {p : UpdatedRow}
    → prepare_row h backfill source j state ≡ some p
    → recent h id now p.state ≡ recent h id now state
unfolding prepare_row
prepare_row-recent h id now backfill source j state {p} r =
    elim (Option-cases (ensure_recovery_tool_options h (prepare_metadata h backfill j).0)) [
      | inl failed ↦ absurd (ground arith)
      | inr ((k, changed), ensured) ↦
          let scope : prepare_scope h source k ((prepare_metadata h backfill j).1 || changed) state
              ≡ some p =
            ground arith in
          prepare_scope-recent h id now source k ((prepare_metadata h backfill j).1 || changed)
            state scope
    ]

pub update_config-recent :
    (h : Host) (commits : Bool) (backfill : Option ℤ) (job id now : ℕ) (source : String) (w : World)
    → recent h id now (update_config h commits backfill job source w).state
      ≡ recent h id now w.state
unfolding update_config
update_config-recent h commits backfill job id now source w =
    elim (Option-cases (get_row job w.table)) [
      | inl missing ↦ ground arith
      | inr (j, found) ↦ elim (Option-cases (prepare_row h backfill source j w.state)) [
        | inl failed ↦ ground arith
        | inr (p, r) ↦
            let e = prepare_row-recent h id now backfill source j w.state r in ground arith
      ]
    ]
