-- ===== src/Ops/Progress/LastChange.antt =====
-- The last change of the number of crawled pages, of src/ha_backend/crawl_stats.py.
use healtharchive_backend.Base.{
  nat_eq, true, false, ◌≡◌, refl, ap, ◌∙◌, inl, inr, some, List, [], ◌∷◌, ◌++◌, ◌==◌, All,
  Bool-cases, List-cases, arith,
}
use mathlib.Core.Path.{subst}
use healtharchive_backend.Base.Int.{ℤ, pos, negsuc, int_eq}
use healtharchive_backend.Ops.Progress.{
  CrawlStatusEvent, CrawlLogProgress, walk_back, reversed, summarize, progress_of_events,
}

abbrev HasCount : ℤ → CrawlStatusEvent → Type 0
HasCount n e = (e.crawled == n) ≡ true

-- Events with another count before, or none at all; the newest comes first.
abbrev pub ChangedBefore : ℤ → List CrawlStatusEvent → Type 0
ChangedBefore n [] = Unit
ChangedBefore n (e ∷ rest) = (e.crawled == n) ≡ false

-- The newest events up to `first` have the same count, and before that comes another one.
abbrev pub LastRun :
    ℤ
    → List CrawlStatusEvent
    → List CrawlStatusEvent
    → CrawlStatusEvent
    → List CrawlStatusEvent
    → Type 0
LastRun n events run first before =
    (events ≡ run ++ (first ∷ before))
    × All (HasCount n) run
    × HasCount n first
    × ChangedBefore n before

walk_back-LastRun :
    (n : ℤ) (newest : CrawlStatusEvent) (older : List CrawlStatusEvent)
    → HasCount n newest
    → (run : List CrawlStatusEvent) × (first : CrawlStatusEvent) × (before : List CrawlStatusEvent)
      × LastRun n (newest ∷ older) run first before
      × (walk_back n newest.timestamp older ≡ first.timestamp)
unfolding walk_back
walk_back-LastRun n newest [] h = ([], newest, [], (refl, tt, h, tt), refl)
walk_back-LastRun n newest (e ∷ older) h = elim (Bool-cases (e.crawled == n)) [
  | inr other ↦ ([], newest, e ∷ older, (refl, tt, h, other), rw (other, walk_back) refl)
  | inl same ↦
      let (run, first, before, (split, counts, here, changed), at) =
        walk_back-LastRun n e older same in
      (
        newest ∷ run,
        first,
        before,
        (ap (λ (xs : List CrawlStatusEvent). newest ∷ xs) split, (h, counts), here, changed),
        rw (same, walk_back) at,
      )
]

same_count : (n : ℤ) → (n == n) ≡ true
same_count (pos k) = ground arith
same_count (negsuc k) = ground arith

abbrev Progress : List CrawlStatusEvent → CrawlLogProgress → Type 0
Progress events p =
    (run : List CrawlStatusEvent) × (first : CrawlStatusEvent) × (before : List CrawlStatusEvent)
    × LastRun p.last_status.crawled (reversed [] events) run first before
    × (p.last_crawled_change ≡ first.timestamp)
    × ((older : List CrawlStatusEvent) × (reversed [] events ≡ p.last_status ∷ older))

-- The progress of a log is that of its newest event, and the time of the last change is that of the first event of
-- the newest ones that all have its count: before it comes an event with another count, or none.
pub progress_of_events-LastRun :
    (events : List CrawlStatusEvent) {p : CrawlLogProgress}
    → progress_of_events events ≡ some p
    → (run : List CrawlStatusEvent) × (first : CrawlStatusEvent) × (before : List CrawlStatusEvent)
      × LastRun p.last_status.crawled (reversed [] events) run first before
      × (p.last_crawled_change ≡ first.timestamp)
      × ((older : List CrawlStatusEvent) × (reversed [] events ≡ p.last_status ∷ older))
unfolding progress_of_events summarize
progress_of_events-LastRun [] r = absurd (ground arith)
progress_of_events-LastRun (oldest ∷ rest) {p} r = elim (List-cases (reversed [] (oldest ∷ rest))) [
  | inl empty ↦ absurd (ground arith)
  | inr (last, older, found) ↦
      let walked = walk_back-LastRun last.crawled last older (same_count last.crawled) in
      let q : summarize oldest last older ≡ p = ground arith in
      let parts = walked.3 in
      subst (Progress (oldest ∷ rest)) q (
        walked.0,
        walked.1,
        walked.2,
        (found ∙ parts.0, parts.1, parts.2, parts.3),
        walked.4,
        (older, found),
      )
]
