-- ===== src/Ops/Recover/Counts.antt =====
-- How the history of scripts/vps-crawl-auto-recover.py counts what it notes.
use healtharchive_backend.Base.{
  ℕ, ◌+◌, ◌*◌, ◌/◌, ◌≤◌, String, false, ◌≡◌, refl, sym, ap, ◌∙◌, some, ◌==◌, string_eq,
  if◌then◌else◌, arith, eq_iff, inl, inr, Option-cases,
}
use mathlib.Core.Path.{subst}
use healtharchive_backend.Base.Int.{ℤ}
use healtharchive_backend.Json.{
  Json, Items, Fields, null, str, arr, obj, nil, cons, end, field, find_field, get_field,
}
use healtharchive_backend.Contract.{IsPython}
use healtharchive_backend.Registry.Templates.{set_item}
use healtharchive_backend.Ops.Recover.Host.{Host, list_or_empty, append_item}
use healtharchive_backend.Ops.Recover.Fixes.{get-set}
use healtharchive_backend.Ops.Recover.History.{
  job_key, dict_at, entries_at, record_entry, iso_second, record_recovery, record_recovery_progress,
  count_since, count_recent,
}

-- What the history relies on: the text of a time in whole seconds is read as that time.
pub record IsHost (h : Host) : Type 0 where
  pub python : IsPython h.py
  pub from_iso-iso :
      (seconds : ℕ) → h.from_iso (str (h.iso (seconds * 1000000))) ≡ some (seconds * 1000000)

find-set :
    (k j : String) (v : Json) (d : Fields)
    → find_field j (set_item k v d) ≡ (if k == j then some v else find_field j d)
unfolding find_field set_item
find-set k j v end = refl
find-set k j v (field i w rest) =
    ground (arith, eq_iff k j, eq_iff i k, eq_iff i j, find-set k j v rest)

pub dict_at-set_other :
    (k j : String) (v : Json) (d : Fields)
    → (k == j) ≡ false
    → dict_at j (set_item k v d) ≡ dict_at j d
unfolding dict_at
dict_at-set_other k j v d h = rw (find-set k j v d, dict_at) (rw h refl)

dict_at-set : (k : String) (d state : Fields) → dict_at k (set_item k (obj d) state) ≡ some d
unfolding dict_at
dict_at-set k d state = rw (find-set k k (obj d) state, dict_at) (rw ((eq_iff k k).1 refl) refl)

count_since-append :
    (h : Host) (since : ℕ) (items : Items) (x : Json) {t : ℕ}
    → h.from_iso x ≡ some t
    → since ≤ t
    → count_since h since (append_item items x) ≡ count_since h since items + 1
unfolding count_since append_item
count_since-append h since nil x e le = ground arith
count_since-append h since (cons y rest) x e le =
    ground (arith, count_since-append h since rest x e le)

entries_at-some :
    (h : Host) (name : String) (id : ℕ) (state d : Fields) {items : Items}
    → dict_at name state ≡ some d
    → list_or_empty h (get_field (job_key id) null d) ≡ some items
    → entries_at h name id state ≡ some items
unfolding entries_at
entries_at-some h name id state d found listed = rw (found, entries_at) listed

count_recent-some :
    (h : Host) (name : String) (id since : ℕ) (state : Fields) {items : Items}
    → entries_at h name id state ≡ some items
    → count_recent h name id since state ≡ some (count_since h since items)
unfolding count_recent
count_recent-some h name id since state e = rw (e, count_recent) refl

-- The state with one more entry.
abbrev with_entry : String → ℕ → Items → Json → Fields → Fields → Fields
with_entry name id items entry d state =
    set_item name (obj (set_item (job_key id) (arr (append_item items entry)) d)) state

record_entry-some :
    (h : Host) (name : String) (id : ℕ) (entry : Json) (state d : Fields) {items : Items}
    → dict_at name state ≡ some d
    → list_or_empty h (get_field (job_key id) null d) ≡ some items
    → record_entry h name id entry state ≡ some (with_entry name id items entry d state)
unfolding record_entry
record_entry-some h name id entry state d found listed = rw (found, record_entry) (rw listed refl)

entries_at-with_entry :
    (h : Host) (name : String) (id : ℕ) (items : Items) (entry : Json) (d state : Fields)
    → entries_at h name id (with_entry name id items entry d state) ≡ some (append_item items entry)
unfolding list_or_empty
entries_at-with_entry h name id items entry d state =
    let key = job_key id in
    let inner = set_item key (arr (append_item items entry)) d in
    entries_at-some h name id (with_entry name id items entry d state) inner
      (dict_at-set name inner state)
      (rw (get-set key key (arr (append_item items entry)) null d)
        (rw ((eq_iff key key).1 refl) refl))

-- What is noted now counts from a moment within the second before it on.
record_entry-count :
    (h : Host) (name : String) (id : ℕ) (entry : Json) (since : ℕ) (state : Fields) {noted : Fields}
    {t n : ℕ}
    → h.from_iso entry ≡ some t
    → since ≤ t
    → record_entry h name id entry state ≡ some noted
    → count_recent h name id since state ≡ some n
    → count_recent h name id since noted ≡ some (n + 1)
unfolding record_entry
record_entry-count h name id entry since state {noted} {t} {n} e le r c =
    elim (Option-cases (dict_at name state)) [
      | inl failed ↦ absurd (ground arith)
      | inr (d, found) ↦ elim (Option-cases (list_or_empty h (get_field (job_key id) null d))) [
        | inl failed ↦ absurd (ground arith)
        | inr (items, listed) ↦
            let after : some (with_entry name id items entry d state) ≡ some noted =
              sym (record_entry-some h name id entry state d found listed) ∙ r in
            let before : some (count_since h since items) ≡ some n =
              sym (
                count_recent-some h name id since state
                  (entries_at-some h name id state d found listed))
              ∙ c in
            let m : count_since h since items ≡ n = grind arith in
            let w : with_entry name id items entry d state ≡ noted = grind arith in
            subst (λ s. count_recent h name id since s ≡ some (n + 1)) w
              (count_recent-some h name id since (with_entry name id items entry d state)
                  (entries_at-with_entry h name id items entry d state)
                ∙ ap some (count_since-append h since items entry e le ∙ ap (λ k. k + 1) m))
      ]
    ]

count_recent-set_other :
    (h : Host) (name k : String) (id since : ℕ) (v : Json) (state : Fields)
    → (k == name) ≡ false
    → count_recent h name id since (set_item k v state) ≡ count_recent h name id since state
unfolding count_recent entries_at
count_recent-set_other h name k id since v state ne =
    let e = dict_at-set_other k name v state ne in ground arith

-- A note under another name.
record_entry-other :
    (h : Host) (name other : String) (id since : ℕ) (entry : Json) (state : Fields) {noted : Fields}
    → (other == name) ≡ false
    → record_entry h other id entry state ≡ some noted
    → count_recent h name id since noted ≡ count_recent h name id since state
unfolding record_entry
record_entry-other h name other id since entry state {noted} ne r =
    elim (Option-cases (dict_at other state)) [
      | inl failed ↦ absurd (ground arith)
      | inr (d, found) ↦ elim (Option-cases (list_or_empty h (get_field (job_key id) null d))) [
        | inl failed ↦ absurd (ground arith)
        | inr (items, listed) ↦
            let after : some (with_entry other id items entry d state) ≡ some noted =
              sym (record_entry-some h other id entry state d found listed) ∙ r in
            let w : with_entry other id items entry d state ≡ noted = grind arith in
            subst (λ s. count_recent h name id since s ≡ count_recent h name id since state) w
              (count_recent-set_other h name other id since _ state ne)
      ]
    ]

module _ (h : Host) (laws : IsHost h) where
  iso_second-read : (now : ℕ) → h.from_iso (iso_second h now) ≡ some (now / 1000000 * 1000000)
  unfolding iso_second
  iso_second-read now = laws.from_iso-iso (now / 1000000)

  -- A recovery counts as one more of the last day.
  pub record_recovery-count :
      (id now since n : ℕ) (state : Fields) {noted : Fields}
      → since ≤ now / 1000000 * 1000000
      → record_recovery h id now state ≡ some noted
      → count_recent h "recoveries" id since state ≡ some n
      → count_recent h "recoveries" id since noted ≡ some (n + 1)
  unfolding record_recovery
  record_recovery-count id now since n state le r c =
      record_entry-count h "recoveries" id (iso_second h now) since state (iso_second-read now) le r
        c

  pub record_recovery_progress-count :
      (id now since : ℕ) (crawled : ℤ) (state : Fields) {noted : Fields}
      → record_recovery_progress h id crawled now state ≡ some noted
      → count_recent h "recoveries" id since noted ≡ count_recent h "recoveries" id since state
  unfolding record_recovery_progress
  record_recovery_progress-count id now since crawled state r =
      record_entry-other h "recoveries" "recovery_progress" id since _ state refl r

pub count_recent-rewrites :
    (h : Host) (name : String) (id since : ℕ) (v : Json) (state : Fields)
    → ("scope_rewrites_total" == name) ≡ false
    → count_recent h name id since (set_item "scope_rewrites_total" v state)
      ≡ count_recent h name id since state
count_recent-rewrites h name id since v state ne =
    count_recent-set_other h name "scope_rewrites_total" id since v state ne
