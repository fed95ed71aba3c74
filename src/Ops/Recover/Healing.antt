-- ===== src/Ops/Recover/Healing.antt =====
-- The options after `_ensure_recovery_tool_options` of scripts/vps-crawl-auto-recover.py.
use healtharchive_backend.Base.{
  String, Bool, true, false, ◌≡◌, refl, sym, Option, none, some, List, [], ◌∷◌, string_eq, arith,
  inl, inr, Option-cases, Bool-cases,
}
use healtharchive_backend.Base.Int.{ℤ, pos, int_eq, int_beq_iff, ltb_ℤ}
use healtharchive_backend.Json.{Json, Fields, null, bool, int, str, get_field}
use healtharchive_backend.Contract.{Python, IsPython, truthy}
use healtharchive_backend.Ops.Recover.Host.{Host}
use healtharchive_backend.Ops.Recover.Fixes.{
  Fix, run_fixes, turn_on, default_to, updated, value_after, Settled, get-run_fixes,
}
use healtharchive_backend.Ops.Recover.Options.{
  Profile, raise_to, reconcile, number_or_zero, option_fixes,
}

turn_on_settled :
    (py : Python) (v : Json)
    → turn_on (truthy py) (bool true) (updated (turn_on (truthy py) (bool true) v) v) ≡ none
unfolding truthy
turn_on_settled py v = elim (Bool-cases (truthy py v)) [
  | inl on ↦ rw on (rw on refl)
  | inr off ↦ rw off refl
]

default_to_settled :
    (d v : Json) → (default_to d d ≡ none) → default_to d (updated (default_to d v) v) ≡ none
default_to_settled d null h = h
default_to_settled d _ h = refl

settled_at :
    (fixes : List Fix) (key : String) (decide : Json → Option Json) (d : Fields)
    → ((v : Json) → decide (value_after key fixes v) ≡ none)
    → decide (get_field key null (run_fixes fixes d)) ≡ none
settled_at fixes key decide d e = rw (get-run_fixes key fixes d) (e (get_field key null d))

module _ (h : Host) (laws : IsPython h.py) where
  number_or_zero-int : (n : ℤ) → number_or_zero h (int n) ≡ n
  number_or_zero-int n = rw (laws.to_int-int n, number_or_zero) refl

  raised : (n : ℤ) → raise_to h n (int n) ≡ none
  unfolding raise_to
  raised n = let e = number_or_zero-int n in ground arith

  raise_to_settled : (n : ℤ) (v : Json) → raise_to h n (updated (raise_to h n v) v) ≡ none
  unfolding raise_to
  raise_to_settled n v = elim (Bool-cases (ltb_ℤ (number_or_zero h v) n)) [
    | inl low ↦ rw low (raised n)
    | inr fine ↦ rw fine (rw fine refl)
  ]

  reconciled : (legacy : List ℤ) (n : ℤ) → reconcile h legacy n (int n) ≡ none
  unfolding reconcile
  reconciled legacy n = rw (laws.to_int-int n, reconcile) (ground (arith, int_beq_iff n n))

  reconcile-some :
      (legacy : List ℤ) (n : ℤ) (v : Json) {w : Json} → reconcile h legacy n v ≡ some w → int n ≡ w
  unfolding reconcile
  reconcile-some legacy n v e = elim (Option-cases (h.py.to_int v)) [
    | inl raises ↦ ground arith
    | inr (c, reads) ↦ ground arith
  ]

  reconcile_settled :
      (legacy : List ℤ) (n : ℤ) (v : Json)
      → reconcile h legacy n (updated (reconcile h legacy n v) v) ≡ none
  reconcile_settled legacy n v = elim (Option-cases (reconcile h legacy n v)) [
    | inl quiet ↦ rw quiet quiet
    | inr (w, loud) ↦ rw loud (rw (sym (reconcile-some legacy n v loud)) (reconciled legacy n))
  ]

  default_reconciled :
      (d v : Json) (legacy : List ℤ) (n : ℤ)
      → default_to d d ≡ none
      → default_to d
          (updated (reconcile h legacy n (updated (default_to d v) v)) (updated (default_to d v) v))
        ≡ none
  default_reconciled d v legacy n e =
      elim (Option-cases (reconcile h legacy n (updated (default_to d v) v))) [
        | inl quiet ↦ rw quiet (default_to_settled d v e)
        | inr (w, loud) ↦
            rw loud (rw (sym (reconcile-some legacy n (updated (default_to d v) v) loud)) refl)
      ]

  plain-Settled :
      (d : Fields) → Settled (option_fixes h false none) (run_fixes (option_fixes h false none) d)
  unfolding option_fixes value_after
  plain-Settled d =
      let fixes = option_fixes h false none in
      (
        settled_at fixes "enable_monitoring" (turn_on (truthy h.py) (bool true)) d
            (turn_on_settled h.py),
        (
          settled_at fixes "enable_adaptive_restart" (turn_on (truthy h.py) (bool true)) d
              (turn_on_settled h.py),
          (
            settled_at fixes "max_container_restarts" (raise_to h (pos 6)) d
                (raise_to_settled (pos 6)),
            tt,
          ),
        ),
      )

  annual-Settled :
      (d : Fields) → Settled (option_fixes h true none) (run_fixes (option_fixes h true none) d)
  unfolding option_fixes value_after
  annual-Settled d =
      let fixes = option_fixes h true none in
      (
        settled_at fixes "enable_monitoring" (turn_on (truthy h.py) (bool true)) d
            (turn_on_settled h.py),
        (
          settled_at fixes "enable_adaptive_restart" (turn_on (truthy h.py) (bool true)) d
              (turn_on_settled h.py),
          (
            settled_at fixes "max_container_restarts" (raise_to h (pos 20)) d
                (raise_to_settled (pos 20)),
            (
              settled_at fixes "skip_final_build" (default_to (bool true)) d
                  (λ v. default_to_settled (bool true) v refl),
              (
                settled_at fixes "docker_shm_size" (default_to (str "1g")) d
                    (λ v. default_to_settled (str "1g") v refl),
                (
                  settled_at fixes "stall_timeout_minutes" (default_to (int (pos 60))) d
                      (λ v. default_to_settled (int (pos 60)) v refl),
                  (
                    settled_at fixes "error_threshold_timeout" (default_to (int (pos 50))) d
                        (λ v. default_to_settled (int (pos 50)) v refl),
                    (
                      settled_at fixes "error_threshold_http" (default_to (int (pos 50))) d
                          (λ v. default_to_settled (int (pos 50)) v refl),
                      (
                        settled_at fixes "backoff_delay_minutes" (default_to (int (pos 2))) d
                            (λ v. default_to_settled (int (pos 2)) v refl),
                        tt,
                      ),
                    ),
                  ),
                ),
              ),
            ),
          ),
        ),
      )

  profile-Settled :
      (p : Profile) (d : Fields)
      → Settled (option_fixes h true (some p)) (run_fixes (option_fixes h true (some p)) d)
  unfolding option_fixes value_after
  profile-Settled p d =
      let fixes = option_fixes h true (some p) in
      (
        settled_at fixes "enable_monitoring" (turn_on (truthy h.py) (bool true)) d
            (turn_on_settled h.py),
        (
          settled_at fixes "enable_adaptive_restart" (turn_on (truthy h.py) (bool true)) d
              (turn_on_settled h.py),
          (
            settled_at fixes "max_container_restarts" (raise_to h p.max_container_restarts) d
                (raise_to_settled p.max_container_restarts),
            (
              settled_at fixes "skip_final_build" (default_to (bool true)) d
                  (λ v. default_to_settled (bool true) v refl),
              (
                settled_at fixes "docker_shm_size" (default_to (str "1g")) d
                    (λ v. default_to_settled (str "1g") v refl),
                (
                  settled_at fixes "stall_timeout_minutes" (default_to (int (pos 60))) d (λ v.
                      default_reconciled (int (pos 60)) v (pos 60 ∷ []) p.stall_timeout_minutes
                        refl),
                  (
                    settled_at fixes "error_threshold_timeout" (default_to (int (pos 50))) d (λ v.
                        default_reconciled (int (pos 50)) v (pos 50 ∷ []) p.error_threshold_timeout
                          refl),
                    (
                      settled_at fixes "error_threshold_http" (default_to (int (pos 50))) d (λ v.
                          default_reconciled (int (pos 50)) v (pos 50 ∷ []) p.error_threshold_http
                            refl),
                      (
                        settled_at fixes "backoff_delay_minutes" (default_to (int (pos 2))) d (λ v.
                            default_reconciled (int (pos 2)) v (pos 2 ∷ []) p.backoff_delay_minutes
                              refl),
                        (
                          settled_at fixes "initial_workers"
                              (reconcile h (pos 1 ∷ (pos 2 ∷ [])) p.initial_workers) d
                              (λ v. reconcile_settled (pos 1 ∷ (pos 2 ∷ [])) p.initial_workers v),
                          (
                            settled_at fixes "stall_timeout_minutes"
                                (reconcile h (pos 60 ∷ []) p.stall_timeout_minutes) d
                                (λ v.
                                  reconcile_settled (pos 60 ∷ []) p.stall_timeout_minutes
                                    (updated (default_to (int (pos 60)) v) v)),
                            (
                              settled_at fixes "error_threshold_timeout"
                                  (reconcile h (pos 50 ∷ []) p.error_threshold_timeout) d
                                  (λ v.
                                    reconcile_settled (pos 50 ∷ []) p.error_threshold_timeout
                                      (updated (default_to (int (pos 50)) v) v)),
                              (
                                settled_at fixes "error_threshold_http"
                                    (reconcile h (pos 50 ∷ []) p.error_threshold_http) d
                                    (λ v.
                                      reconcile_settled (pos 50 ∷ []) p.error_threshold_http
                                        (updated (default_to (int (pos 50)) v) v)),
                                (
                                  settled_at fixes "backoff_delay_minutes"
                                      (reconcile h (pos 2 ∷ []) p.backoff_delay_minutes) d
                                      (λ v.
                                        reconcile_settled (pos 2 ∷ []) p.backoff_delay_minutes
                                          (updated (default_to (int (pos 2)) v) v)),
                                  tt,
                                ),
                              ),
                            ),
                          ),
                        ),
                      ),
                    ),
                  ),
                ),
              ),
            ),
          ),
        ),
      )

  pub option_fixes-Settled :
      (annual : Bool) (profile : Option Profile) (d : Fields)
      → Settled (option_fixes h annual profile) (run_fixes (option_fixes h annual profile) d)
  unfolding option_fixes
  option_fixes-Settled false profile d = plain-Settled d
  option_fixes-Settled true none d = annual-Settled d
  option_fixes-Settled true (some p) d = profile-Settled p d
