-- ===== src/Crawl/Monitor/Signals.antt =====
-- When the monitor signals (src/archive_tool/monitor.py, `_check_stall_and_error_conditions`).
use healtharchive_backend.Base.{
  ℕ, zero, suc, ◌+◌, ◌≤◌, ◌<◌, true, false, ◌≡◌, ◌≢◌, ◌||◌, ◌&&◌, refl, none, some, is_some, List,
  [], ◌∷◌, arith, length, if◌then◌else◌,
}
use healtharchive_backend.Base.Int.{pos, ◌<ℤ◌, ◌≤ℤ◌, leb_ℤ, ltb_ℤ}
use healtharchive_backend.Crawl.State.{CrawlState, no_errors}
use healtharchive_backend.Crawl.State.Load.{persistent}
use healtharchive_backend.Crawl.State.Progress.{Stats, or_last, update_progress}
use healtharchive_backend.Crawl.State.Updates.{update_progress_lem}
use healtharchive_backend.Crawl.Monitor.{
  stalled, MonitorArgs, timeout_of, no_stats_due, stall_due, check,
}

-- A check signals exactly if monitoring is on and one of its four conditions holds. It then sends
-- one message and leaves no errors; if not, it sends none and changes nothing. What is persisted
-- stays in any case.
pub check_lem :
    (args : MonitorArgs) (now : ℕ) (s : CrawlState)
    → let (messages, t, signaled) = check args now s in
      (signaled ≡ (
        args.enable_monitoring
        && (no_stats_due args now s
            || (stall_due args now s
                || (leb_ℤ args.error_threshold_timeout (pos s.error_counts.timeout)
                    || leb_ℤ args.error_threshold_http (pos s.error_counts.http))))))
      × (length messages ≡ (if signaled then 1 else 0))
      × (signaled ≡ true → t.error_counts ≡ no_errors)
      × (signaled ≡ false → t ≡ s)
      × (persistent t ≡ persistent s)
unfolding check
check_lem args now s = ground arith

-- After a signal for a stall or for missing statistics, a check that comes within the timeout and
-- with no log line in between signals nothing and changes nothing. The thresholds are positive, the
-- clock has left 0, and progress was noted only with statistics.
pub check_quiet :
    (args : MonitorArgs) (now later : ℕ) (s : CrawlState)
    → 0 < now
    → later ≤ now + timeout_of args
    → pos 0 <ℤ args.error_threshold_timeout
    → pos 0 <ℤ args.error_threshold_http
    → (s.last_stats_timestamp ≡ none → s.last_progress_timestamp ≡ none)
    → args.enable_monitoring ≡ true
    → (no_stats_due args now s || stall_due args now s) ≡ true
    → let t = (check args now s).1 in check args later t ≡ ([], t, false)
unfolding check
check_quiet args zero later s h le tt' th inv on due = absurd (omega arith)
check_quiet args (suc n) later s h le tt' th inv on due = ground arith

-- The statistics of several log lines.
unfoldable pub feed : List (Stats × ℕ) → CrawlState → CrawlState
feed [] s = s
feed ((stats, timestamp) ∷ rest) s = feed rest (update_progress stats timestamp s)

-- None of them raises the crawled count over the one before it.
abbrev pub NoProgress : List (Stats × ℕ) → CrawlState → Type 0
NoProgress [] s = Unit
NoProgress ((stats, timestamp) ∷ rest) s =
    (ltb_ℤ s.last_crawled_count (or_last stats.crawled s.last_crawled_count) ≡ false)
    × NoProgress rest (update_progress stats timestamp s)

last_progress-feed :
    (events : List (Stats × ℕ)) (s : CrawlState)
    → NoProgress events s
    → (feed events s).last_progress_timestamp ≡ s.last_progress_timestamp
unfolding feed
last_progress-feed [] s h = refl
last_progress-feed ((stats, timestamp) ∷ rest) s (h, k) = ground (
  arith,
  last_progress-feed rest (update_progress stats timestamp s) k,
  update_progress_lem stats timestamp s,
)

-- A stall is found: if progress was last made at `start` and no statistics since then show more
-- pages, a check more than the timeout later sends one stall message, as long as statistics were
-- seen, the crawled count is known and pages are pending or their number is unknown.
pub stall_found :
    (args : MonitorArgs) (events : List (Stats × ℕ)) (s : CrawlState) (start now : ℕ)
    → args.enable_monitoring ≡ true
    → s.last_progress_timestamp ≡ some start
    → NoProgress events s
    → let f = feed events s in
      is_some f.last_stats_timestamp ≡ true
      → pos 0 ≤ℤ f.last_crawled_count
      → f.last_pending_count ≢ pos 0
      → start + timeout_of args < now
      → (check args now f).0 ≡ stalled "timeout" ∷ []
unfolding check
stall_found args events s start now on noted quiet seen known pending late =
    ground (arith, last_progress-feed events s quiet)
