-- ===== src/Dedup.antt =====
-- src/ha_backend/indexing/deduplication.py: snapshots of the same page, day and content. The rows are
-- those of Snapshot and SnapshotDeduplication (src/ha_backend/models.py), with the columns used here.
-- A query returns its rows in the order of the table.
pub mod Restore
pub mod Found
mod Tests
use healtharchive_backend.Base.{
  ℕ, zero, suc, ◌+◌, String, Bool, true, false, ◌&&◌, ◌||◌, not, Option, none, some, List, [], ◌∷◌,
  ◌++◌, map, ◌==◌, nat_eq, string_eq, if◌then◌else◌, ltb, keep, length, some_of, is_some,
}

-- `day` is `DATE(capture_timestamp)`.
pub record Snapshot : Type 0 where
  pub id : ℕ
  pub job_id : Option ℕ
  pub source_id : Option ℕ
  pub url : String
  pub normalized_url_group : Option String
  pub day : String
  pub content_hash : Option String
  pub deduplicated : Bool

pub record SnapshotDeduplication : Type 0 where
  pub snapshot_id : ℕ
  pub canonical_snapshot_id : ℕ

pub record Archive : Type 0 where
  pub snapshots : List Snapshot
  pub audit : List SnapshotDeduplication

pub record DedupCandidate : Type 0 where
  pub duplicate_id : ℕ
  pub canonical_id : ℕ
  pub candidate_url : String
  pub capture_date : String
  pub candidate_hash : String

-- `coalesce(normalized_url_group, url)`
unfoldable pub group_key : Snapshot → String
group_key s = elim s.normalized_url_group [ none ↦ s.url | some key ↦ key ]

abbrev pub hash_of : Snapshot → String
hash_of s = elim s.content_hash [ none ↦ "" | some hash ↦ hash ]

-- `GROUP BY` takes NULL for equal to NULL.
abbrev pub same_source : Option ℕ → Option ℕ → Bool
same_source none none = true
same_source (some a) (some b) = a == b
same_source _ _ = false

-- The four columns that the rows are grouped by; in the groups every row has a hash.
unfoldable pub same_group : Snapshot → Snapshot → Bool
unfolding group_key
same_group a b =
    same_source a.source_id b.source_id
    && (group_key a == group_key b && (a.day == b.day && hash_of a == hash_of b))

-- A filter that is not given, or an SQL equation, which NULL does not meet.
abbrev pub is_or_any : Option ℕ → Option ℕ → Bool
is_or_any none k = true
is_or_any (some wanted) none = false
is_or_any (some wanted) (some k) = k == wanted

-- The filter under the groups.
unfoldable pub in_base : Option ℕ → Option ℕ → Snapshot → Bool
in_base job_id source_id s =
    not (hash_of s == "")
    && (not s.deduplicated && (is_or_any job_id s.job_id && is_or_any source_id s.source_id))

-- `min(id)` of a group, from one of its rows on.
unfoldable pub min_id : ℕ → List Snapshot → ℕ
min_id k [] = k
min_id k (s ∷ rest) = min_id (if ltb s.id k then s.id else k) rest

unfoldable pub canonical_of : List Snapshot → Snapshot → ℕ
unfolding min_id
canonical_of base r = min_id r.id (keep (same_group r) base)

-- One row for each group.
unfoldable pub representatives : List Snapshot → List Snapshot → List Snapshot
representatives seen [] = []
representatives seen (s ∷ rest) =
    let more = representatives (s ∷ seen) rest in
    if some_of (same_group s) seen then more else s ∷ more

-- The second query: the rows of the whole table in the group of `r`, without the canonical one. Its
-- equations are SQL's, so a group whose source is NULL has none.
unfoldable pub is_duplicate : ℕ → Snapshot → Snapshot → Bool
unfolding same_group
is_duplicate canonical r s =
    is_some s.source_id && (same_group r s && (not s.deduplicated && not (s.id == canonical)))

unfoldable pub candidate_of : ℕ → Snapshot → DedupCandidate
candidate_of canonical s = record {
  duplicate_id = s.id;
  canonical_id = canonical;
  candidate_url = s.url;
  capture_date = s.day;
  candidate_hash = hash_of s;
}

-- The candidates of one group; a group of one row has none.
unfoldable pub group_candidates : List Snapshot → List Snapshot → Snapshot → List DedupCandidate
unfolding canonical_of is_duplicate candidate_of
group_candidates table base r =
    let canonical = canonical_of base r in
    if ltb 1 (length (keep (same_group r) base))
    then map (candidate_of canonical) (keep (is_duplicate canonical r) table)
    else []

unfoldable pub all_candidates : List Snapshot → List Snapshot → List Snapshot → List DedupCandidate
all_candidates table base [] = []
all_candidates table base (r ∷ rest) =
    group_candidates table base r ++ all_candidates table base rest

unfoldable pub find_same_day_duplicates : Option ℕ → Option ℕ → Archive → List DedupCandidate
unfolding in_base representatives all_candidates
find_same_day_duplicates job_id source_id a =
    let base = keep (in_base job_id source_id) a.snapshots in
    all_candidates a.snapshots base (representatives [] base)

pub record DedupResult : Type 0 where
  pub candidates : List DedupCandidate
  pub applied : Bool
  pub deduped_count : ℕ
  pub skipped_count : ℕ

-- `session.get(Snapshot, id)` finds a row that is not marked.
unfoldable pub is_open : ℕ → List Snapshot → Bool
is_open k [] = false
is_open k (s ∷ rest) = if s.id == k then not s.deduplicated else is_open k rest

unfoldable pub mark : ℕ → List Snapshot → List Snapshot
mark k [] = []
mark k (s ∷ rest) = if s.id == k then record s { deduplicated = true } ∷ rest else s ∷ mark k rest

-- One round of the loop over the candidates.
unfoldable pub apply_candidate : DedupCandidate → Archive → Archive
unfolding mark
apply_candidate c a = record {
  snapshots = mark c.duplicate_id a.snapshots;
  audit =
      a.audit
      ++ (record { snapshot_id = c.duplicate_id; canonical_snapshot_id = c.canonical_id } ∷ []);
}

-- The loop: the archive after it, and how many rows were marked and skipped.
unfoldable pub apply_all : List DedupCandidate → Archive → Archive × ℕ × ℕ
unfolding is_open apply_candidate
apply_all [] a = (a, 0, 0)
apply_all (c ∷ rest) a =
    let open_one = is_open c.duplicate_id a.snapshots in
    let (b, deduped, skipped) = apply_all rest (if open_one then apply_candidate c a else a) in
    if open_one then (b, suc deduped, skipped) else (b, deduped, suc skipped)

unfoldable pub deduplicate_snapshots : List DedupCandidate → Bool → Archive → DedupResult × Archive
unfolding apply_all
deduplicate_snapshots candidates dry_run a =
    let (b, deduped, skipped) = apply_all candidates a in
    if dry_run
    then (
      record {
        candidates = candidates;
        applied = false;
        deduped_count = length candidates;
        skipped_count = 0;
      },
      a,
    )
    else (
      record {
        candidates = candidates;
        applied = true;
        deduped_count = deduped;
        skipped_count = skipped;
      },
      b,
    )

-- The rows that a restore takes.
unfoldable pub is_restored : Option ℕ → Snapshot → Bool
is_restored job_id s = s.deduplicated && is_or_any job_id s.job_id

unfoldable pub restore_row : Option ℕ → Snapshot → Snapshot
unfolding is_restored
restore_row job_id s = if is_restored job_id s then record s { deduplicated = false } else s

unfoldable pub restore_deduped_snapshots : Option ℕ → Archive → ℕ × Archive
unfolding restore_row
restore_deduped_snapshots job_id a =
    let taken = keep (is_restored job_id) a.snapshots in
    (
      length taken,
      record {
        snapshots = map (restore_row job_id) a.snapshots;
        audit =
            keep
              (λ (d : SnapshotDeduplication).
                not (some_of (λ (s : Snapshot). s.id == d.snapshot_id) taken))
              a.audit;
      },
    )
