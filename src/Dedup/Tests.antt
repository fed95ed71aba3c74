-- ===== src/Dedup/Tests.antt =====
-- Three snapshots of one page on one day, one of them from another job.
use healtharchive_backend.Base.{◌≡◌, refl, false, none, some, [], ◌∷◌, ◌+◌, ℕ, map, All}
use healtharchive_backend.Dedup.{
  Snapshot, Archive, DedupCandidate, find_same_day_duplicates, group_candidates,
  deduplicate_snapshots, restore_deduped_snapshots,
}
use healtharchive_backend.Dedup.Restore.{restore-deduplicate}
use healtharchive_backend.Dedup.Found.{IsDuplicateOf, find-IsDuplicateOf}

abbrev snapshot : ℕ → ℕ → Snapshot
snapshot id job = record {
  id = id;
  job_id = some job;
  source_id = some 1;
  url = "https://www.canada.ca/";
  normalized_url_group = none;
  day = "2026-01-05";
  content_hash = some "abc";
  deduplicated = false;
}

abbrev archive : Archive
archive = record { snapshots = snapshot 1 7 ∷ snapshot 2 7 ∷ snapshot 3 8 ∷ []; audit = [] }

abbrev first_pair : DedupCandidate
first_pair = record {
  duplicate_id = 2;
  canonical_id = 1;
  candidate_url = "https://www.canada.ca/";
  capture_date = "2026-01-05";
  candidate_hash = "abc";
}

-- With a job given, the snapshot of the other job is a candidate all the same.
other_job_found :
    map (λ (c : DedupCandidate). c.duplicate_id) (find_same_day_duplicates (some 7) none archive)
    ≡ 2 ∷ 3 ∷ []
unfolding find_same_day_duplicates group_candidates
other_job_found = refl

find-IsDuplicateOf_example :
    All
      (IsDuplicateOf (some 7) none archive.snapshots)
      (find_same_day_duplicates (some 7) none archive)
find-IsDuplicateOf_example = find-IsDuplicateOf (some 7) none archive

restore-deduplicate_example :
    let (result, b) = deduplicate_snapshots (first_pair ∷ []) false archive in
    let (restored, c) = restore_deduped_snapshots none b in
    (c.snapshots ≡ archive.snapshots)
    × (restored ≡ result.deduped_count)
    × (result.deduped_count + result.skipped_count ≡ 1)
restore-deduplicate_example = restore-deduplicate (first_pair ∷ []) archive refl
