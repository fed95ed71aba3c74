-- ===== src/Ops/Tests/ProgressTests.antt =====
-- The progress that three events of a log show.
use healtharchive_backend.Base.{ℕ, ◌≡◌, refl, none, some, List, [], ◌∷◌}
use healtharchive_backend.Base.Int.{ℤ, pos, ◌-ℤ◌}
use healtharchive_backend.Ops.Progress.{
  CrawlStatusEvent, CrawlLogProgress, reversed, progress_of_events,
}
use healtharchive_backend.Ops.Progress.LastChange.{LastRun, progress_of_events-LastRun}

abbrev counted_at : ℕ → ℤ → CrawlStatusEvent
counted_at t n = record { timestamp = t; crawled = n; total = pos 9; pending = none; failed = none }

-- The second page was counted at the time 20.
abbrev three_events : List CrawlStatusEvent
three_events = counted_at 10 (pos 1) ∷ (counted_at 20 (pos 2) ∷ (counted_at 30 (pos 2) ∷ []))

abbrev last_change : CrawlLogProgress
last_change = record {
  last_status = counted_at 30 (pos 2);
  last_crawled_change = 20;
  rate_pages = 1;
  rate_micros = 20;
}

three_read : progress_of_events three_events ≡ some last_change
unfolding progress_of_events ◌-ℤ◌
three_read = refl

progress_of_events-LastRun_example :
    (run : List CrawlStatusEvent) × (first : CrawlStatusEvent) × (before : List CrawlStatusEvent)
    × LastRun (pos 2) (reversed [] three_events) run first before
    × (20 ≡ first.timestamp)
    × ((older : List CrawlStatusEvent) × (reversed [] three_events ≡ counted_at 30 (pos 2) ∷ older))
progress_of_events-LastRun_example = progress_of_events-LastRun three_events three_read
