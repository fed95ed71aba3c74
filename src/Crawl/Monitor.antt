-- ===== src/Crawl/Monitor.antt =====
-- src/archive_tool/monitor.py: reading a log line, and the periodic check for stalls and errors.
pub mod Signals
pub mod Keeps
use healtharchive_backend.Base.{
  ℕ, zero, suc, ◌+◌, ◌-◌, ◌*◌, String, Bool, true, false, ◌||◌, ◌&&◌, not, Option, none, some,
  is_some, List, [], ◌∷◌, ◌++◌, ◌==◌, string_eq, nat_eq, if◌then◌else◌, ltb,
}
use healtharchive_backend.Base.Int.{ℤ, pos, ltb_ℤ, leb_ℤ}
use healtharchive_backend.Json.{Json, str, obj, Fields, end, get_field, find_field, as_int}
use healtharchive_backend.Crawl.State.{CrawlState}
use healtharchive_backend.Crawl.State.Progress.{
  Stats, second, reset_runtime_errors, record_error, update_progress,
}

-- What the monitor puts on the queue.
pub data Message : Type 0 where
  progress : Message
  stalled : String → Message
  error : String → Message
  -- an error of the monitor itself, with a message and no reason
  failure : String → Message

pub record MonitorArgs : Type 0 where
  pub enable_monitoring : Bool
  pub monitor_interval_seconds : ℕ
  pub stall_timeout_minutes : ℕ
  pub error_threshold_timeout : ℤ
  pub error_threshold_http : ℤ

-- `json.loads` (`none` is a `JSONDecodeError`) and the searches for the two patterns.
pub record LogReader : Type 0 where
  pub loads : String → Option Json
  pub is_timeout : String → Bool
  pub is_http_error : String → Bool

-- A count of the statistics: the outer `none` is a value of another type, the inner a missing key.
count_of : String → Fields → Option (Option ℤ)
unfolding find_field as_int
count_of key fields = elim (find_field key fields) [
  | none ↦ some none
  | some v ↦ elim (as_int v) [ none ↦ none | some n ↦ some (some n) ]
]

-- `details` as statistics. The crawler writes integers; other types are read as no statistics.
stats_of : Fields → Option Stats
stats_of d = elim (count_of "crawled" d) [
  | none ↦ none
  | some c ↦ elim (count_of "total" d) [
    | none ↦ none
    | some t ↦ elim (count_of "pending" d) [
      | none ↦ none
      | some p ↦ elim (count_of "failed" d) [
        | none ↦ none
        | some f ↦ some (record { crawled = c; total = t; pending = p; failed = f })
      ]
    ]
  ]
]

-- `value == text`
is_text : String → Json → Bool
is_text text (str s) = s == text
is_text text _ = false

-- The kind of error that a text shows, `rest` if it shows none.
classify : LogReader → String → Option String → Option String
classify reader text rest =
    if reader.is_timeout text
    then some "timeout"
    else if reader.is_http_error text
    then some "http"
    else rest

-- The same where the message or the whole line may show it.
classify_either : LogReader → String → String → Option String → Option String
classify_either reader message line rest =
    if reader.is_timeout message || reader.is_timeout line
    then some "timeout"
    else if reader.is_http_error message || reader.is_http_error line
    then some "http"
    else rest

abbrev record_kind : Option String → CrawlState → CrawlState
record_kind none s = s
record_kind (some kind) s = record_error kind s

-- "Page Load Failed: will retry": an exception (`details` no object, `msg` no text) records nothing.
page_failure : LogReader → Json → Option String
unfolding get_field classify
page_failure reader (obj details) = elim (get_field "msg" (str "") details) [
  | str text ↦ classify reader text (some "other")
  | _ ↦ none
]
page_failure reader _ = none

-- A line at level "error" or "warn": an exception (`message` no text) records nothing.
logged_failure : LogReader → String → Json → Bool → Option String
unfolding classify_either
logged_failure reader line (str message) is_error =
    classify_either reader message line (if is_error then some "other" else none)
logged_failure reader line _ is_error = none

-- The kind of error that a JSON line records, if it is no line of statistics.
failure_of : LogReader → String → Fields → Option String
unfolding page_failure logged_failure is_text get_field
failure_of reader line data' =
    let message = get_field "message" (str "") data' in
    let context = get_field "context" (str "") data' in
    let details = get_field "details" (obj end) data' in
    let level = get_field "logLevel" (str "info") data' in
    if is_text "pageStatus" context && is_text "Page Load Failed: will retry" message
    then page_failure reader details
    else if is_text "error" level || is_text "warn" level
    then logged_failure reader line message (is_text "error" level)
    else none

-- The statistics that a JSON line carries: the fields of `details` on a line of statistics.
statistics_of : Fields → Option Fields
unfolding is_text get_field
statistics_of data' =
    if is_text "crawlStatus" (get_field "context" (str "") data')
      && is_text "Crawl statistics" (get_field "message" (str "") data')
    then elim (get_field "details" (obj end) data') [ obj details ↦ some details | _ ↦ none ]
    else none

read_statistics : Option Stats → ℕ → CrawlState → CrawlState
read_statistics none timestamp s = s
read_statistics (some stats) timestamp s = update_progress stats timestamp s

-- `_parse_log_line(line, timestamp)`
unfoldable pub parse_log_line : LogReader → String → ℕ → CrawlState → CrawlState
unfolding failure_of statistics_of read_statistics stats_of count_of classify record_error
parse_log_line reader line timestamp s = if line == "" then s else elim (reader.loads line) [
  | none ↦ record_kind (classify reader line none) s
  | some (obj data') ↦ elim (statistics_of data') [
    | some details ↦ read_statistics (stats_of details) timestamp s
    | none ↦ record_kind (failure_of reader line data') s
  ]
  | some _ ↦ s
]

-- The check for a crawl that never wrote statistics: it starts at the last signal, or at the stage's
-- start if there was none (or one at time 0, which Python takes for none).
no_stats_anchor : CrawlState → Option ℕ
no_stats_anchor s = elim s.stage_start_time [
  | none ↦ none
  | some start ↦ elim s.last_no_stats_signal_timestamp [
    | none ↦ some start
    | some zero ↦ some start
    | some (suc t) ↦ some (suc t)
  ]
]

abbrev pub timeout_of : MonitorArgs → ℕ
timeout_of args = args.stall_timeout_minutes * 60 * second

unfoldable pub no_stats_due : MonitorArgs → ℕ → CrawlState → Bool
unfolding no_stats_anchor
no_stats_due args now s =
    if is_some s.last_stats_timestamp then false else elim (no_stats_anchor s) [
      | none ↦ false
      | some anchor ↦ ltb (timeout_of args) (now - anchor)
    ]

-- No progress for the timeout, while pages are pending or the count is unknown.
unfoldable pub stall_due : MonitorArgs → ℕ → CrawlState → Bool
stall_due args now s = elim s.last_progress_timestamp [
  | none ↦ false
  | some last ↦
      leb_ℤ (pos 0) s.last_crawled_count
      && ((ltb_ℤ s.last_pending_count (pos 0) || ltb_ℤ (pos 0) s.last_pending_count)
          && ltb (timeout_of args) (now - last))
]

-- `_check_stall_and_error_conditions(now)`: the messages, the state after, and whether it signalled.
unfoldable pub check : MonitorArgs → ℕ → CrawlState → List Message × CrawlState × Bool
unfolding no_stats_due stall_due reset_runtime_errors
check args now s =
    if not args.enable_monitoring
    then ([], s, false)
    else if no_stats_due args now s
    then (
      stalled "no_stats" ∷ [],
      reset_runtime_errors (record s { last_no_stats_signal_timestamp = some now }),
      true,
    )
    else if stall_due args now s
    then (
      stalled "timeout" ∷ [],
      reset_runtime_errors (record s { last_progress_timestamp = some now }),
      true,
    )
    else if leb_ℤ args.error_threshold_timeout (pos s.error_counts.timeout)
    then (error "timeout_threshold" ∷ [], reset_runtime_errors s, true)
    else if leb_ℤ args.error_threshold_http (pos s.error_counts.http)
    then (error "http_threshold" ∷ [], reset_runtime_errors s, true)
    else ([], s, false)
