-- ===== src/Ops/Recover/History.antt =====
-- The history of recoveries and starts in the state file of scripts/vps-crawl-auto-recover.py, and the
-- circuit breaker on progress.
use healtharchive_backend.Base.{
  ℕ, zero, suc, ◌+◌, ◌-◌, ◌*◌, ◌/◌, String, Bool, true, false, ◌&&◌, Option, none, some, List, [],
  ◌∷◌, ◌++◌, ◌==◌, nat_eq, if◌then◌else◌, ltb, leb, length,
}
use healtharchive_backend.Base.Int.{ℤ, pos, ltb_ℤ, ◌-ℤ◌}
use healtharchive_backend.Base.Texts.{str_ℤ}
use healtharchive_backend.Json.{
  Json, Items, Fields, null, int, str, arr, obj, nil, cons, end, field, find_field, get_field,
}
use healtharchive_backend.Contract.{truthy}
use healtharchive_backend.Registry.Templates.{set_item}
use healtharchive_backend.Ops.Recover.Host.{Host, list_or_empty, append_item, items_list}

-- `str(job_id)`
abbrev pub job_key : ℕ → String
job_key id = str_ℤ (pos id)

-- `state.get(name, {})`; `none` is an exception where it is used, since it is no dict.
unfoldable pub dict_at : String → Fields → Option Fields
dict_at name state = elim (find_field name state) [
  | none ↦ some end
  | some (obj d) ↦ some d
  | some _ ↦ none
]

-- `list(state[name].get(str(job_id)) or [])`
unfoldable pub entries_at : Host → String → ℕ → Fields → Option Items
unfolding dict_at list_or_empty
entries_at h name id state = elim (dict_at name state) [
  | none ↦ none
  | some d ↦ list_or_empty h (get_field (job_key id) null d)
]

-- The entry is appended to those of the job.
unfoldable pub record_entry : Host → String → ℕ → Json → Fields → Option Fields
unfolding dict_at list_or_empty append_item
record_entry h name id entry state = elim (dict_at name state) [
  | none ↦ none
  | some d ↦ elim (list_or_empty h (get_field (job_key id) null d)) [
    | none ↦ none
    | some items ↦
        some (set_item name (obj (set_item (job_key id) (arr (append_item items entry)) d)) state)
  ]
]

-- `when_utc.replace(microsecond=0).isoformat()`
unfoldable pub iso_second : Host → ℕ → Json
iso_second h now = str (h.iso (now / 1000000 * 1000000))

unfoldable pub record_recovery : Host → ℕ → ℕ → Fields → Option Fields
unfolding record_entry iso_second
record_recovery h id now state = record_entry h "recoveries" id (iso_second h now) state

unfoldable pub record_start : Host → ℕ → ℕ → Fields → Option Fields
unfolding record_entry iso_second
record_start h id now state = record_entry h "starts" id (iso_second h now) state

unfoldable pub record_recovery_progress : Host → ℕ → ℤ → ℕ → Fields → Option Fields
unfolding record_entry iso_second
record_recovery_progress h id crawled now state =
    record_entry h "recovery_progress" id
      (obj (field "timestamp" (iso_second h now) (field "crawled_count" (int crawled) end))) state

-- The entries that are times from `since` on.
unfoldable pub count_since : Host → ℕ → Items → ℕ
count_since h since nil = 0
count_since h since (cons x rest) =
    let later = count_since h since rest in
    elim (h.from_iso x) [ none ↦ later | some t ↦ if leb since t then later + 1 else later ]

-- `_count_recent_recoveries` and `_count_recent_starts`; `none` is an exception.
unfoldable pub count_recent : Host → String → ℕ → ℕ → Fields → Option ℕ
unfolding entries_at count_since
count_recent h name id since state = elim (entries_at h name id state) [
  | none ↦ none
  | some items ↦ some (count_since h since items)
]

-- `int(e["crawled_count"])`; `none` is an exception.
unfoldable pub crawled_count : Host → Json → Option ℤ
crawled_count h (obj e) = elim (find_field "crawled_count" e) [
  | none ↦ none
  | some v ↦ h.py.to_int v
]
crawled_count h _ = none

unfoldable pub crawled_counts : Host → List Json → Option (List ℤ)
unfolding crawled_count
crawled_counts h [] = some []
crawled_counts h (x ∷ rest) =
    let later = crawled_counts h rest in
    elim (crawled_count h x) [
      | none ↦ none
      | some n ↦ elim later [ none ↦ none | some counts ↦ some (n ∷ counts) ]
    ]

unfoldable pub drop_items : ℕ → List Json → List Json
drop_items zero xs = xs
drop_items (suc n) [] = []
drop_items (suc n) (x ∷ rest) = drop_items n rest

-- `entries[-window:]`, which is the whole list for 0
unfoldable pub last_items : ℕ → List Json → List Json
unfolding drop_items
last_items window xs = if window == 0 then xs else drop_items (length xs - window) xs

-- Whether each count, and the current one after them, is below the one before it by less than the minimum.
unfoldable pub all_low : ℤ → ℤ → List ℤ → Bool
all_low min_progress before [] = true
all_low min_progress before (n ∷ rest) =
    ltb_ℤ (n -ℤ before) min_progress && all_low min_progress n rest

unfoldable pub no_progress : ℤ → List ℤ → Bool
unfolding all_low
no_progress min_progress [] = true
no_progress min_progress (n ∷ rest) = all_low min_progress n rest

-- `(state.get("recovery_progress") or {}).get(…)`
unfoldable pub progress_entries : Host → ℕ → Fields → Option Items
unfolding list_or_empty
progress_entries h id state = elim (get_field "recovery_progress" null state) [
  | obj d ↦ list_or_empty h (get_field (job_key id) null d)
  | v ↦ if truthy h.py v then none else some nil
]

-- `_is_progress_circuit_open`; `none` is an exception.
unfoldable pub is_progress_circuit_open : Host → ℤ → ℕ → ℕ → ℤ → Fields → Option Bool
unfolding progress_entries last_items crawled_counts no_progress
is_progress_circuit_open h min_progress window id current state =
    elim (progress_entries h id state) [
      | none ↦ none
      | some items ↦
          let entries = items_list items in
          if ltb (length entries) window
          then some false
          else elim (crawled_counts h (last_items window entries)) [
            | none ↦ none
            | some counts ↦ some (no_progress min_progress (counts ++ (current ∷ [])))
          ]
    ]
