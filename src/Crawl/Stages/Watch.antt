-- ===== src/Crawl/Stages/Watch.antt =====
-- The inner loop of src/archive_tool/main.py: it watches one container, with the monitor's thread of
-- src/archive_tool/monitor.py beside it.
use healtharchive_backend.Base.{
  ℕ, String, Bool, true, false, ◌||◌, ◌&&◌, Option, none, some, List, [], ◌∷◌, ◌++◌, ◌==◌,
  string_eq, if◌then◌else◌,
}
use healtharchive_backend.Base.Int.{ℤ}
use healtharchive_backend.Crawl.Env.{Env}
use healtharchive_backend.Crawl.State.{CrawlState}
use healtharchive_backend.Crawl.State.TempDirs.{add_temp_dir}
use healtharchive_backend.Crawl.Strategies.{Args, Shell}
use healtharchive_backend.Crawl.Monitor.{Message, LogReader, MonitorArgs, parse_log_line, check}
use healtharchive_backend.Crawl.Intervention.{handle_message}

-- The arguments that the loops read.
pub record RunArgs : Type 0 where
  pub adaptive : Args
  pub monitoring : MonitorArgs
  pub enable_monitoring : Bool
  pub backoff_delay_minutes : ℤ
  pub skip_final_build : Bool
  pub relax_perms : Bool
  pub cleanup : Bool
  pub overwrite : Bool
  pub dry_run : Bool
  pub initial_workers : ℤ
  pub seeds : List String
  pub name : String
  pub docker_image : String
  pub docker_shm_size : Option String
  pub passthrough : List String

-- What the monitor's thread does: it reads a line, makes its periodic check, or reports.
pub data Observation : Type 0 where
  log_line : String → ℕ → Observation
  checked : ℕ → Observation
  reported : Message → Observation

-- `_maybe_discover_and_relax`, if it is due: the directories that it finds are tracked, and one that raises
-- is passed over.
unfoldable pub track_all : Env → List String → CrawlState → CrawlState
track_all e [] s = s
track_all e (p ∷ ps) s = track_all e ps (elim (add_temp_dir e p s) [ none ↦ s | some t ↦ t ])

unfoldable pub discover : RunArgs → Env → Option (List String) → CrawlState → CrawlState
unfolding track_all
discover args e none s = s
discover args e (some found) s = if args.relax_perms then track_all e found s else s

-- One round of the loop, while the process runs.
pub record Round : Type 0 where
  pub stop_set : Bool
  pub reader : LogReader
  pub observations : List Observation
  pub monitor_alive : Bool
  -- the directories that a scan finds, if one is due
  pub discovered : Option (List String)
  pub env : Env
  pub shell : Shell
  pub stop_in_wait : Bool

-- The state, and the queue that the threads share.
unfoldable pub observe :
    RunArgs → LogReader → List Observation → CrawlState → List Message → CrawlState × List Message
observe args reader [] s queue = (s, queue)
observe args reader (log_line line timestamp ∷ rest) s queue =
    observe args reader rest (parse_log_line reader line timestamp s) queue
observe args reader (checked now ∷ rest) s queue =
    let (messages, t, signaled) = check args.monitoring now s in
    observe args reader rest t (queue ++ messages)
observe args reader (reported message ∷ rest) s queue =
    observe args reader rest s (queue ++ (message ∷ []))

-- What the loop leaves behind, or goes on with.
pub record Watched : Type 0 where
  pub status : String
  pub state : CrawlState
  pub stop : Bool
  pub queue : List Message

-- The reaction to a message, and whether the loop is left.
unfoldable pub react : RunArgs → Round → Message → Watched → Watched × Bool
react args r message w =
    let o =
      handle_message r.env r.shell args.adaptive args.backoff_delay_minutes
        (w.stop || r.stop_in_wait) message w.state in
    elim o.left_with [
      | none ↦ (record w { state = o.state }, false)
      | some status ↦ (
        record w { status = status; state = o.state; stop = w.stop || status == "stopped" },
        true,
      )
    ]

-- `monitor_queue.get(...)`, the periodic scan, and the reaction to the message, if there is one.
unfoldable pub take_message : RunArgs → Round → List Message → Watched → Watched × Bool
unfolding react discover
take_message args r [] w = (record w { state = discover args r.env r.discovered w.state }, false)
take_message args r (message ∷ rest) w =
    react args r message
      (record w { state = discover args r.env r.discovered w.state; queue = rest })

-- One round, and whether the loop is left. Without a monitor that lives no message is taken.
unfoldable pub watch_round : RunArgs → Bool → Round → Watched → Watched × Bool
unfolding observe take_message
watch_round args active r w =
    if w.stop || r.stop_set
    then (record w { status = "stopped"; stop = true }, true)
    else (let seen =
          observe args r.reader (if active then r.observations else []) w.state w.queue in
        let v = record w { state = seen.0; queue = seen.1 } in
        if active && r.monitor_alive
        then take_message args r seen.1 v
        else (record v { state = discover args r.env r.discovered seen.0 }, false))

-- The loop, until it is left or the process has ended.
unfoldable pub watch : RunArgs → Bool → List Round → Watched → Watched
unfolding watch_round
watch args active [] w = w
watch args active (r ∷ rest) w =
    let (v, left) = watch_round args active r w in
    elim left [ true ↦ v | false ↦ watch args active rest v ]
