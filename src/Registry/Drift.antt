-- ===== src/Registry/Drift.antt =====
-- The scope arguments of src/ha_backend/job_registry.py, once reconciled, do not drift.
use healtharchive_backend.Base.{
  String, Bool, true, false, ◌≡◌, ◌↔◌, refl, ap, ◌∙◌, ◌||◌, not, Option, none, some, List, [], ◌∷◌,
  ◌++◌, ◌==◌, string_eq, list_eq, Bool-cases, inl, inr, list_same_iff, all_of, arith,
}
use mathlib.Core.List.{append-nil}
use mathlib.Core.Path.{subst}
use healtharchive_backend.Registry.{
  canonical_scope_filters_for_source, legacy_canada_ca_extra_chrome_args, is_scope, remaining,
  existing_chrome_args, keep_chrome_args, chrome_tokens, normalize_scope_passthrough_args,
  reconcile_with, reconcile_scope_passthrough_args,
}

-- The argument is none of those that are managed.
abbrev pub is_free : String → Bool
is_free tok = not (is_scope tok || tok == "--extraChromeArgs")

pub all_free-remaining : (args : List String) → all_of is_free (remaining args) ≡ true
unfolding remaining
all_free-remaining [] = refl
all_free-remaining (tok ∷ []) = ground arith
all_free-remaining (tok ∷ (value ∷ rest)) =
    ground (arith, all_free-remaining rest, all_free-remaining (value ∷ rest))

remaining_of_free : (args : List String) → all_of is_free args ≡ true → remaining args ≡ args
unfolding remaining
remaining_of_free [] h = refl
remaining_of_free (tok ∷ []) h = ground arith
remaining_of_free (tok ∷ (value ∷ rest)) h = ground (arith, remaining_of_free (value ∷ rest))

existing_of_free :
    (args : List String) → all_of is_free args ≡ true → existing_chrome_args args ≡ []
unfolding existing_chrome_args
existing_of_free [] h = refl
existing_of_free (tok ∷ []) h = refl
existing_of_free (tok ∷ (value ∷ rest)) h = ground (arith, existing_of_free (value ∷ rest))

remaining-chrome_tokens :
    (values args : List String) → remaining (chrome_tokens values ++ args) ≡ remaining args
unfolding remaining chrome_tokens
remaining-chrome_tokens [] args = refl
remaining-chrome_tokens (value ∷ values) args = remaining-chrome_tokens values args

existing-chrome_tokens :
    (values args : List String)
    → existing_chrome_args (chrome_tokens values ++ args) ≡ values ++ existing_chrome_args args
unfolding existing_chrome_args chrome_tokens
existing-chrome_tokens [] args = refl
existing-chrome_tokens (value ∷ values) args =
    ap (λ xs. value ∷ xs) (existing-chrome_tokens values args)

keep_chrome_args_idem :
    (extra removed seen values : List String)
    → keep_chrome_args extra removed seen (keep_chrome_args extra removed seen values)
      ≡ keep_chrome_args extra removed seen values
unfolding keep_chrome_args
keep_chrome_args_idem extra removed seen [] = refl
keep_chrome_args_idem extra removed seen (value ∷ rest) = ground (
  arith,
  keep_chrome_args_idem extra removed seen rest,
  keep_chrome_args_idem extra removed (value ∷ seen) rest,
)

-- With no chrome arguments of its own, the normal form of the arguments is their normal form.
normalize_idem :
    (include_rx exclude_rx : String) (removed args : List String)
    → let normal = normalize_scope_passthrough_args include_rx exclude_rx [] removed args in
      normalize_scope_passthrough_args include_rx exclude_rx [] removed normal ≡ normal
unfolding normalize_scope_passthrough_args existing_chrome_args remaining
normalize_idem include_rx exclude_rx removed args =
    let kept = keep_chrome_args [] removed [] (existing_chrome_args args) in
    let free = all_free-remaining args in
    rw (existing-chrome_tokens kept (remaining args)) (
      rw (remaining-chrome_tokens kept (remaining args)) (
        rw (existing_of_free (remaining args) free) (
          rw (remaining_of_free (remaining args) free) (
            rw (append-nil kept)
              (rw (keep_chrome_args_idem [] removed [] (existing_chrome_args args)) refl)))))

remaining-normalize :
    (include_rx exclude_rx : String) (extra removed args : List String)
    → remaining (normalize_scope_passthrough_args include_rx exclude_rx extra removed args)
      ≡ remaining args
unfolding normalize_scope_passthrough_args remaining
remaining-normalize include_rx exclude_rx extra removed args =
    remaining-chrome_tokens (keep_chrome_args extra removed [] (extra ++ existing_chrome_args args))
      (remaining args)
    ∙ remaining_of_free (remaining args) (all_free-remaining args)

same_self : (args : List String) → (args == args) ≡ true
same_self args = (list_same_iff args args).1 refl

-- An option that is managed, with its value.
abbrev pub is_managed : String → Bool
is_managed tok =
    tok == "--scopeType"
    || (tok == "--scopeIncludeRx" || (tok == "--scopeExcludeRx" || tok == "--extraChromeArgs"))

-- The second list is the first one without the managed options and the item after each of them.
pub data Unmanaged : List String → List String → Type 0 where
  no_more : Unmanaged [] []
  drops_last : (tok : String) → is_managed tok ≡ true → Unmanaged (tok ∷ []) []
  drops :
      (tok value : String) {rest out : List String}
      → is_managed tok ≡ true
      → Unmanaged rest out
      → Unmanaged (tok ∷ (value ∷ rest)) out
  keeps :
      (tok : String) {rest out : List String}
      → is_managed tok ≡ false
      → Unmanaged rest out
      → Unmanaged (tok ∷ rest) (tok ∷ out)

managed_lem : (tok : String) → (is_scope tok || tok == "--extraChromeArgs") ≡ is_managed tok
unfolding is_scope
managed_lem tok = ground arith

Unmanaged-remaining : (args : List String) → Unmanaged args (remaining args)
unfolding remaining
Unmanaged-remaining [] = no_more
Unmanaged-remaining (tok ∷ []) = elim (Bool-cases (is_managed tok)) [
  | inl managed ↦ rw (managed_lem tok, managed) (drops_last tok managed)
  | inr free ↦ rw (managed_lem tok, free) (keeps tok free no_more)
]
Unmanaged-remaining (tok ∷ (value ∷ rest)) = elim (Bool-cases (is_managed tok)) [
  | inl managed ↦ rw (managed_lem tok, managed) (drops tok value managed (Unmanaged-remaining rest))
  | inr free ↦ rw (managed_lem tok, free) (keeps tok free (Unmanaged-remaining (value ∷ rest)))
]

reconcile_with_lem :
    (filters : Option (String × String)) (args : List String)
    → let r = reconcile_with filters args in
      (reconcile_with filters r.0 ≡ (r.0, false))
      × ((r.1 ≡ false) ↔ (r.0 ≡ args))
      × ((out : List String) × Unmanaged args out × Unmanaged r.0 out)
unfolding reconcile_with
reconcile_with_lem none args =
    let kept = Unmanaged-remaining args in
    (refl, ((λ h. refl), (λ h. refl)), (remaining args, kept, kept))
reconcile_with_lem (some (include_rx, exclude_rx)) args =
    let normal =
      normalize_scope_passthrough_args include_rx exclude_rx [] legacy_canada_ca_extra_chrome_args
        args in
    let stable = normalize_idem include_rx exclude_rx legacy_canada_ca_extra_chrome_args args in
    (
      rw stable (rw (same_self normal) refl),
      (
        (λ h. (list_same_iff normal args).0 (ground arith)),
        (λ h. ground (arith, list_same_iff normal args)),
      ),
      (
        remaining args,
        Unmanaged-remaining args,
        subst (Unmanaged normal)
            (remaining-normalize include_rx exclude_rx [] legacy_canada_ca_extra_chrome_args args)
            (Unmanaged-remaining normal),
      ),
    )

-- Arguments that were reconciled with the scope of a source show no drift and stay as they are when they are
-- reconciled again. Drift is reported exactly if the arguments were changed. The arguments that are left when
-- each of `--scopeType`, `--scopeIncludeRx`, `--scopeExcludeRx` and `--extraChromeArgs` is taken out together with
-- the item after it are the same before and after, in the same order.
pub reconcile_scope_passthrough_args_lem :
    (fold : String → String) (source_code : String) (args : List String)
    → let r = reconcile_scope_passthrough_args fold source_code args in
      (reconcile_scope_passthrough_args fold source_code r.0 ≡ (r.0, false))
      × ((r.1 ≡ false) ↔ (r.0 ≡ args))
      × ((out : List String) × Unmanaged args out × Unmanaged r.0 out)
unfolding reconcile_scope_passthrough_args
reconcile_scope_passthrough_args_lem fold source_code args =
    reconcile_with_lem (canonical_scope_filters_for_source fold source_code) args
