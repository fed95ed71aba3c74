-- ===== src/Crawl/Monitor/Keeps.antt =====
-- A log line changes nothing that is persisted (src/archive_tool/monitor.py, `_parse_log_line`).
use healtharchive_backend.Base.{
  ℕ, String, ◌≡◌, refl, Option, none, some, ◌==◌, string_eq, Bool-cases, Option-cases, inl, inr,
  arith, eq_iff, ◌≢◌,
}
use healtharchive_backend.Json.{Json, obj, null, bool, int, float, str, arr}
use healtharchive_backend.Crawl.State.{CrawlState}
use healtharchive_backend.Crawl.State.Load.{persistent}
use healtharchive_backend.Crawl.State.Progress.{Stats, record_error}
use healtharchive_backend.Crawl.State.Updates.{update_progress_lem}
use healtharchive_backend.Crawl.Monitor.{
  LogReader, parse_log_line, record_kind, read_statistics, stats_of, statistics_of, failure_of,
  classify,
}

persistent-record_kind :
    (kind : Option String) (s : CrawlState) → persistent (record_kind kind s) ≡ persistent s
unfolding record_error
persistent-record_kind none s = refl
persistent-record_kind (some kind) s = ground arith

persistent-read_statistics :
    (stats : Option Stats) (timestamp : ℕ) (s : CrawlState)
    → persistent (read_statistics stats timestamp s) ≡ persistent s
unfolding read_statistics
persistent-read_statistics none timestamp s = refl
persistent-read_statistics (some stats) timestamp s = (update_progress_lem stats timestamp s).4

-- A line that is JSON.
persistent-loaded :
    (reader : LogReader) (line : String) (timestamp : ℕ) (s : CrawlState) (data' : Json)
    → line ≢ ""
    → reader.loads line ≡ some data'
    → persistent (parse_log_line reader line timestamp s) ≡ persistent s
unfolding parse_log_line
persistent-loaded reader line timestamp s (obj fields) full h =
    elim (Option-cases (statistics_of fields)) [
      | inl nothing ↦
          ground (arith, persistent-record_kind (failure_of reader line fields) s, eq_iff line "")
      | inr (details, found) ↦
          ground (arith, persistent-read_statistics (stats_of details) timestamp s, eq_iff line "")
    ]
persistent-loaded reader line timestamp s null full h = ground (arith, eq_iff line "")
persistent-loaded reader line timestamp s (bool b) full h = ground (arith, eq_iff line "")
persistent-loaded reader line timestamp s (int n) full h = ground (arith, eq_iff line "")
persistent-loaded reader line timestamp s (float t) full h = ground (arith, eq_iff line "")
persistent-loaded reader line timestamp s (str t) full h = ground (arith, eq_iff line "")
persistent-loaded reader line timestamp s (arr items) full h = ground (arith, eq_iff line "")

pub persistent-parse_log_line :
    (reader : LogReader) (line : String) (timestamp : ℕ) (s : CrawlState)
    → persistent (parse_log_line reader line timestamp s) ≡ persistent s
unfolding parse_log_line
persistent-parse_log_line reader line timestamp s = elim (Bool-cases (line == "")) [
  | inl empty ↦ rw empty refl
  | inr full ↦ elim (Option-cases (reader.loads line)) [
    | inl wrong ↦ ground (arith, persistent-record_kind (classify reader line none) s)
    | inr (data', h) ↦
        persistent-loaded reader line timestamp s data' (λ e. ground (arith, eq_iff line "")) h
  ]
]
