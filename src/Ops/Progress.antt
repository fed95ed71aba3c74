-- ===== src/Ops/Progress.antt =====
-- src/ha_backend/crawl_stats.py: the progress of a crawl, from the tail of its combined log.
pub mod LastChange
use healtharchive_backend.Base.{
  ℕ, ◌-◌, ◌*◌, String, Bool, true, false, not, Option, none, some, List, [], ◌∷◌, ◌==◌, nat_eq,
  string_eq, if◌then◌else◌, ltb,
}
use healtharchive_backend.Base.Int.{ℤ, pos, negsuc, int_eq, ◌-ℤ◌}
use healtharchive_backend.Base.Texts.{has}
use healtharchive_backend.Json.{Json, Fields, null, str, obj, get_field}

pub record CrawlStatusEvent : Type 0 where
  pub timestamp : ℕ
  pub crawled : ℤ
  pub total : ℤ
  pub pending : Option ℤ
  pub failed : Option ℤ

-- What the reading uses of Python: `json.loads` (`none` is no JSON), `int` (`none` is an exception), and
-- `_parse_utc_timestamp`.
pub record StatusReader : Type 0 where
  pub loads : String → Option Json
  pub to_int : Json → Option ℤ
  pub timestamp : Json → Option ℕ

-- A line gives no event, an event, or an exception.
pub data Line : Type 0 where
  skipped raised : Line
  event : CrawlStatusEvent → Line

-- `int(details[key]) if details.get(key) is not None else None`; the outer `none` is an exception.
unfoldable pub optional_count : StatusReader → Json → Option (Option ℤ)
optional_count r null = some none
optional_count r v = elim (r.to_int v) [ none ↦ none | some n ↦ some (some n) ]

-- `x is None`
abbrev pub is_null : Json → Bool
is_null null = true
is_null _ = false

-- The event of a line whose timestamp is read.
unfoldable pub counted : StatusReader → Fields → ℕ → Line
unfolding optional_count
counted r details t = elim (r.to_int (get_field "crawled" null details)) [
  | none ↦ raised
  | some crawled ↦ elim (r.to_int (get_field "total" null details)) [
    | none ↦ raised
    | some total ↦ elim (optional_count r (get_field "pending" null details)) [
      | none ↦ raised
      | some pending ↦ elim (optional_count r (get_field "failed" null details)) [
        | none ↦ raised
        | some failed ↦ event (record {
          timestamp = t;
          crawled = crawled;
          total = total;
          pending = pending;
          failed = failed;
        })
      ]
    ]
  ]
]

unfoldable pub detailed : StatusReader → Json → Json → Line
unfolding counted
detailed r (obj details) time =
    if is_null (get_field "crawled" null details)
    then skipped
    else if is_null (get_field "total" null details)
    then skipped
    else elim (r.timestamp time) [ none ↦ skipped | some t ↦ counted r details t ]
detailed r _ time = skipped

-- `v == text`
abbrev pub is_text : String → Json → Bool
is_text text (str s) = s == text
is_text text _ = false

-- A payload that is no dict has no `get`.
unfoldable pub read_payload : StatusReader → Json → Line
unfolding detailed
read_payload r (obj payload) =
    if not (is_text "crawlStatus" (get_field "context" null payload))
    then skipped
    else if not (is_text "Crawl statistics" (get_field "message" null payload))
    then skipped
    else detailed r (get_field "details" null payload) (get_field "timestamp" null payload)
read_payload r _ = raised

unfoldable pub read_line : StatusReader → String → Line
unfolding read_payload
read_line r line =
    if not (has line "crawlStatus")
    then skipped
    else elim (r.loads line) [ none ↦ skipped | some payload ↦ read_payload r payload ]

-- The events of the lines; `none` is an exception.
unfoldable pub parse_crawl_status_events :
    StatusReader → List String → Option (List CrawlStatusEvent)
unfolding read_line
parse_crawl_status_events r [] = some []
parse_crawl_status_events r (line ∷ rest) =
    let later = parse_crawl_status_events r rest in
    elim (read_line r line) [
      | skipped ↦ later
      | raised ↦ none
      | event e ↦ elim later [ none ↦ none | some events ↦ some (e ∷ events) ]
    ]

-- `crawl_rate_ppm` is 60 * pages / seconds; a window in which the code computes none has no pages.
pub record CrawlLogProgress : Type 0 where
  pub last_status : CrawlStatusEvent
  pub last_crawled_change : ℕ
  pub rate_pages : ℕ
  pub rate_micros : ℕ

-- The newest first: the walk backwards ends at the first other count.
unfoldable pub walk_back : ℤ → ℕ → List CrawlStatusEvent → ℕ
walk_back last newer [] = newer
walk_back last newer (e ∷ older) =
    let on = walk_back last e.timestamp older in if e.crawled == last then on else newer

-- The events in reverse, after the ones that are given.
unfoldable pub reversed : List CrawlStatusEvent → List CrawlStatusEvent → List CrawlStatusEvent
reversed done [] = done
reversed done (e ∷ rest) = reversed (e ∷ done) rest

-- The pages of the window and its length, from its last and its first event.
unfoldable pub crawl_rate : CrawlStatusEvent → CrawlStatusEvent → ℕ × ℕ
crawl_rate last first = elim (last.crawled -ℤ first.crawled) [
  | pos pages ↦
      if ltb first.timestamp last.timestamp
      then (pages, last.timestamp - first.timestamp)
      else (0, 1)
  | negsuc _ ↦ (0, 1)
]

unfoldable pub summarize :
    CrawlStatusEvent → CrawlStatusEvent → List CrawlStatusEvent → CrawlLogProgress
unfolding walk_back crawl_rate
summarize first last older = record {
  last_status = last;
  last_crawled_change = walk_back last.crawled last.timestamp older;
  rate_pages = (crawl_rate last first).0;
  rate_micros = (crawl_rate last first).1;
}

-- `parse_crawl_log_progress`, from the events of the log.
unfoldable pub progress_of_events : List CrawlStatusEvent → Option CrawlLogProgress
unfolding summarize reversed
progress_of_events [] = none
progress_of_events (first ∷ rest) = elim (reversed [] (first ∷ rest)) [
  | [] ↦ none
  | last ∷ older ↦ some (summarize first last older)
]

-- `last_progress_age_seconds`, in microseconds.
unfoldable pub last_progress_age : ℕ → CrawlLogProgress → ℕ
last_progress_age now p = now - p.last_crawled_change

-- `crawl_rate_ppm < threshold`, for a threshold in thousandths.
unfoldable pub is_slower_than : ℕ → CrawlLogProgress → Bool
is_slower_than milli_ppm p = ltb (p.rate_pages * (60 * 1000000 * 1000)) (milli_ppm * p.rate_micros)
