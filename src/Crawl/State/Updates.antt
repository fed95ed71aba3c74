-- ===== src/Crawl/State/Updates.antt =====
-- Laws of `update_progress` and `record_error` (src/archive_tool/state.py).
use healtharchive_backend.Base.{
  ℕ, ◌-◌, ◌≡◌, inl, inr, Option-cases, some, arith, ltb, ◌&&◌, if◌then◌else◌,
}
use healtharchive_backend.Base.Int.{ℤ, pos, pos_part, ◌-ℤ◌, ltb_ℤ, leb_ℤ}
use healtharchive_backend.Crawl.State.{CrawlState, no_errors}
use healtharchive_backend.Crawl.State.Progress.{
  Stats, second, or_last, start_rate, update_rate_since, update_rate, note_progress,
  update_progress,
}
use healtharchive_backend.Crawl.State.Load.{persistent}

-- The branch for more than sixty seconds without progress is never taken: more than one second
-- without progress takes the branch above it already.
update_rate_since_lem :
    (crawled : ℤ) (timestamp previous : ℕ) (s : CrawlState)
    → update_rate_since crawled timestamp previous s ≡ (
        if ltb second (timestamp - previous) && leb_ℤ (pos 0) (crawled -ℤ s.previous_crawled_count)
        then record s {
          progress_rate_ppm = record {
            pages = pos_part (crawled -ℤ s.previous_crawled_count);
            elapsed = timestamp - previous;
          };
          previous_stats_timestamp = some timestamp;
          previous_crawled_count = crawled;
        }
        else s)
unfolding update_rate_since
update_rate_since_lem crawled timestamp previous s = ground arith

-- The rate's bookkeeping leaves the rest of the state.
abbrev SameButRate : CrawlState → CrawlState → Type 0
SameButRate t s =
    (t.error_counts ≡ s.error_counts)
    × (t.last_progress_timestamp ≡ s.last_progress_timestamp)
    × (t.last_crawled_count ≡ s.last_crawled_count)
    × (persistent t ≡ persistent s)

start_rate-SameButRate :
    (crawled : ℤ) (timestamp : ℕ) (s : CrawlState) → SameButRate (start_rate crawled timestamp s) s
unfolding start_rate
start_rate-SameButRate crawled timestamp s = ground arith

update_rate_since-SameButRate :
    (crawled : ℤ) (timestamp previous : ℕ) (s : CrawlState)
    → SameButRate (update_rate_since crawled timestamp previous s) s
update_rate_since-SameButRate crawled timestamp previous s =
    ground (arith, update_rate_since_lem crawled timestamp previous s)

update_rate-SameButRate :
    (crawled : ℤ) (timestamp : ℕ) (s : CrawlState) → SameButRate (update_rate crawled timestamp s) s
unfolding update_rate
update_rate-SameButRate crawled timestamp s = elim (Option-cases s.previous_stats_timestamp) [
  | inl absent ↦ ground arith
  | inr (previous, e) ↦ ground (arith, update_rate_since-SameButRate crawled timestamp previous s)
]

-- An update that raises the crawled count clears the errors and sets the time of progress; any
-- other leaves both. The counts and the time of the statistics are the new ones, and nothing that
-- is persisted changes.
pub update_progress_lem :
    (stats : Stats) (timestamp : ℕ) (s : CrawlState)
    → let crawled = or_last stats.crawled s.last_crawled_count in
      let t = update_progress stats timestamp s in
      (t.error_counts ≡ (if ltb_ℤ s.last_crawled_count crawled then no_errors else s.error_counts))
      × (t.last_progress_timestamp ≡ (
          if ltb_ℤ s.last_crawled_count crawled then some timestamp else s.last_progress_timestamp))
      × (t.last_crawled_count ≡ crawled)
      × (t.last_stats_timestamp ≡ some timestamp)
      × (persistent t ≡ persistent s)
unfolding update_progress note_progress
update_progress_lem stats timestamp s =
    let crawled = or_last stats.crawled s.last_crawled_count in
    let started = start_rate crawled timestamp s in
    ground (
      arith,
      start_rate-SameButRate crawled timestamp s,
      update_rate-SameButRate crawled timestamp started,
    )
