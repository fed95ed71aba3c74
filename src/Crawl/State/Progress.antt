-- ===== src/Crawl/State/Progress.antt =====
-- src/archive_tool/state.py: the error counts and `update_progress`.
use healtharchive_backend.Base.{
  ℕ, ◌+◌, ◌-◌, ◌*◌, String, ◌||◌, ◌&&◌, Option, none, some, ◌==◌, string_eq, if◌then◌else◌, ltb,
}
use healtharchive_backend.Base.Int.{ℤ, pos, pos_part, ◌-ℤ◌, ltb_ℤ, leb_ℤ, int_eq}
use healtharchive_backend.Crawl.Env.{Env}
use healtharchive_backend.Crawl.State.{CrawlState, no_errors, no_rate, save_persistent_state}

abbrev pub second : ℕ
second = 1000000000

-- `reset_runtime_errors`
unfoldable pub reset_runtime_errors : CrawlState → CrawlState
reset_runtime_errors s = record s { error_counts = no_errors; last_error_type = none }

-- `reset_adaptation_counts`
unfoldable pub reset_adaptation_counts : Env → CrawlState → CrawlState
reset_adaptation_counts e s = save_persistent_state e (record s {
  vpn_rotations_done = pos 0;
  worker_reductions_done = pos 0;
  container_restarts_done = pos 0;
  last_vpn_rotation_timestamp = none;
})

-- `error_counts[error_type] += 1` for a key of the dict, the three fields.
unfoldable pub record_error : String → CrawlState → CrawlState
record_error kind s =
    let c = s.error_counts in
    if kind == "timeout"
    then record s {
      error_counts = record c { timeout = c.timeout + 1 };
      last_error_type = some kind;
    }
    else if kind == "http"
    then record s { error_counts = record c { http = c.http + 1 }; last_error_type = some kind }
    else if kind == "other"
    then record s { error_counts = record c { other = c.other + 1 }; last_error_type = some kind }
    else s

-- The keys that `update_progress` reads; the crawler's counts are integers.
pub record Stats : Type 0 where
  pub crawled : Option ℤ
  pub total : Option ℤ
  pub pending : Option ℤ
  pub failed : Option ℤ

-- `stats.get(key, default)`
abbrev pub or_last : Option ℤ → ℤ → ℤ
or_last none last = last
or_last (some n) last = n

-- The first count of a stage is where the rate starts.
unfoldable pub start_rate : ℤ → ℕ → CrawlState → CrawlState
start_rate crawled timestamp s =
    if ltb_ℤ s.previous_crawled_count (pos 0) && leb_ℤ (pos 0) crawled
    then record s { previous_crawled_count = crawled; previous_stats_timestamp = some timestamp }
    else s

-- The block under `timestamp > self.previous_stats_timestamp and crawled >= …`.
unfoldable pub update_rate_since : ℤ → ℕ → ℕ → CrawlState → CrawlState
unfolding ◌-ℤ◌
update_rate_since crawled timestamp previous s =
    let delta = timestamp - previous in
    let pages = crawled -ℤ s.previous_crawled_count in
    if ltb second delta && leb_ℤ (pos 0) pages
    then record s {
      progress_rate_ppm = record { pages = pos_part pages; elapsed = delta };
      previous_stats_timestamp = some timestamp;
      previous_crawled_count = crawled;
    }
    else if ltb (60 * second) delta && pages == pos 0
    then record s {
      progress_rate_ppm = no_rate;
      previous_stats_timestamp = some timestamp;
      previous_crawled_count = crawled;
    }
    else s

unfoldable pub update_rate : ℤ → ℕ → CrawlState → CrawlState
update_rate crawled timestamp s = elim s.previous_stats_timestamp [
  | none ↦ s
  | some previous ↦
      if ltb previous timestamp && leb_ℤ s.previous_crawled_count crawled
      then update_rate_since crawled timestamp previous s
      else s
]

-- The block under `if progress_made`.
unfoldable pub note_progress : ℕ → CrawlState → CrawlState
unfolding reset_runtime_errors
note_progress timestamp s =
    let c = s.error_counts in
    let t = record s {
      last_progress_timestamp = some timestamp;
      last_no_stats_signal_timestamp = none;
    } in
    if ltb 0 c.timeout || (ltb 0 c.http || ltb 0 c.other) then reset_runtime_errors t else t

unfoldable pub update_progress : Stats → ℕ → CrawlState → CrawlState
update_progress stats timestamp s =
    let crawled = or_last stats.crawled s.last_crawled_count in
    let rated = update_rate crawled timestamp (start_rate crawled timestamp s) in
    let noted =
      if ltb_ℤ s.last_crawled_count crawled then note_progress timestamp rated else rated in
    record noted {
      last_crawled_count = crawled;
      last_total_count = or_last stats.total s.last_total_count;
      last_pending_count = or_last stats.pending s.last_pending_count;
      last_failed_count = or_last stats.failed s.last_failed_count;
      last_stats_timestamp = some timestamp;
    }
