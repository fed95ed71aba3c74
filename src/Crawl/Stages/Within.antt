-- ===== src/Crawl/Stages/Within.antt =====
-- The inner loop of src/archive_tool/main.py and the budget of adaptations: a stage that is left for an
-- adaptation has paid for it.
use healtharchive_backend.Base.{
  ℕ, ◌+◌, ◌≤◌, String, Bool, ◌≡◌, refl, ap, ◌∙◌, ◌||◌, ◌&&◌, Option, none, some, is_some, List, [],
  ◌∷◌, ◌++◌, ◌==◌, string_eq, if◌then◌else◌, arith, inl, inr, Bool-cases, Option-cases,
}
use healtharchive_backend.Base.Int.{ℤ}
use healtharchive_backend.Crawl.Env.{Env}
use healtharchive_backend.Crawl.State.{CrawlState, save_persistent_state}
use healtharchive_backend.Crawl.State.TempDirs.{add_temp_dir}
use healtharchive_backend.Crawl.Strategies.{Args, Shell, Effect}
use healtharchive_backend.Crawl.Strategies.Budget.{budget, actions}
use healtharchive_backend.Crawl.Monitor.{Message, LogReader, parse_log_line, check}
use healtharchive_backend.Crawl.Monitor.Signals.{check_lem}
use healtharchive_backend.Crawl.Monitor.Keeps.{persistent-parse_log_line}
use healtharchive_backend.Crawl.Intervention.{
  handle_message, adapt, rotate_or_go_on, restart_or_back_off, back_off, try_reduction,
  try_rotation,
}
use healtharchive_backend.Crawl.Intervention.Laws.{budget-handle_message}
use healtharchive_backend.Crawl.Intervention.Session.{budget_of, for_restart}
use healtharchive_backend.Crawl.Stages.Watch.{
  RunArgs, Round, Observation, log_line, checked, reported, observe, track_all, discover, Watched,
  react, take_message, watch_round, watch,
}

-- The stage was left for an adaptation.
abbrev pub paid : String → ℕ
paid status = if status == "stopped_for_adaptation" then 1 else 0

module _ (e : Env) (shell : Shell) (args : Args) (minutes : ℤ) (stop_in_wait : Bool)
    (message : Message) where
  left-restart_or_back_off :
      (effects : List Effect) (s : CrawlState)
      → let o = restart_or_back_off e args minutes stop_in_wait message effects s in
        for_restart o.left_with ≤ actions (is_some o.adaptation)
  unfolding restart_or_back_off back_off
  left-restart_or_back_off effects s = ground arith

  left-rotate_or_go_on :
      (effects : List Effect) (s : CrawlState)
      → let o = rotate_or_go_on e shell args minutes stop_in_wait message effects s in
        for_restart o.left_with ≤ actions (is_some o.adaptation)
  unfolding rotate_or_go_on
  left-rotate_or_go_on effects s =
      let a = try_rotation e shell args s in
      ground (arith, left-restart_or_back_off (effects ++ a.effects) a.state)

  left-handle_message :
      (s : CrawlState)
      → let o = handle_message e shell args minutes stop_in_wait message s in
        for_restart o.left_with ≤ actions (is_some o.adaptation)
  unfolding handle_message adapt
  left-handle_message s =
      let a = try_reduction e args s in ground (arith, left-rotate_or_go_on a.effects a.state)

budget-observe :
    (args : RunArgs) (reader : LogReader) (os : List Observation) (s : CrawlState)
    (queue : List Message)
    → budget args.adaptive (observe args reader os s queue).0 ≡ budget args.adaptive s
unfolding observe
budget-observe args reader [] s queue = refl
budget-observe args reader (log_line line timestamp ∷ os) s queue =
    let t = parse_log_line reader line timestamp s in
    let kept : budget args.adaptive t ≡ budget args.adaptive s =
      unfold budget in
      ap (budget_of args.adaptive) (persistent-parse_log_line reader line timestamp s) in
    omega (arith, budget-observe args reader os t queue)
budget-observe args reader (checked now ∷ os) s queue =
    let c = check args.monitoring now s in
    let kept : budget args.adaptive c.1 ≡ budget args.adaptive s =
      unfold budget in ap (budget_of args.adaptive) (check_lem args.monitoring now s).4 in
    omega (arith, budget-observe args reader os c.1 (queue ++ c.0))
budget-observe args reader (reported message ∷ os) s queue =
    budget-observe args reader os s (queue ++ (message ∷ []))

-- The budget and the cost of leaving for an adaptation come to at most this.
abbrev pub Within : RunArgs → ℕ → Watched → Type 0
Within args b w = budget args.adaptive w.state + paid w.status ≤ b

react-Within :
    (args : RunArgs) (r : Round) (message : Message) (w : Watched) (b : ℕ)
    → Within args b w
    → Within args b (react args r message w).0
unfolding react
react-Within args r message w b h =
    let o =
      handle_message r.env r.shell args.adaptive args.backoff_delay_minutes
        (w.stop || r.stop_in_wait) message w.state in
    let cost =
      budget-handle_message r.env r.shell args.adaptive args.backoff_delay_minutes
        (w.stop || r.stop_in_wait) message w.state in
    let left =
      left-handle_message r.env r.shell args.adaptive args.backoff_delay_minutes
        (w.stop || r.stop_in_wait) message w.state in
    elim (Option-cases o.left_with) [
      | inl stays ↦ ground (arith, cost, left)
      | inr (status, gone) ↦ ground (arith, cost, left)
    ]

pub budget-add_temp_dir :
    (args : Args) (e : Env) (p : String) (s : CrawlState) {t : CrawlState}
    → add_temp_dir e p s ≡ some t
    → budget args t ≡ budget args s
unfolding add_temp_dir save_persistent_state budget
budget-add_temp_dir args e p s h = ground arith

budget-track_all :
    (args : Args) (e : Env) (ps : List String) (s : CrawlState)
    → budget args (track_all e ps s) ≡ budget args s
unfolding track_all
budget-track_all args e [] s = refl
budget-track_all args e (p ∷ ps) s = elim (Option-cases (add_temp_dir e p s)) [
  | inl raised ↦ rw (raised, track_all) (budget-track_all args e ps s)
  | inr (t, added) ↦
      rw (added, track_all) (budget-track_all args e ps t ∙ budget-add_temp_dir args e p s added)
]

pub budget-discover :
    (args : RunArgs) (e : Env) (found : Option (List String)) (s : CrawlState)
    → budget args.adaptive (discover args e found s) ≡ budget args.adaptive s
unfolding discover
budget-discover args e none s = refl
budget-discover args e (some found) s = ground (arith, budget-track_all args.adaptive e found s)

-- What the round does with the queue, while the monitor lives.
take-Within :
    (args : RunArgs) (r : Round) (queue : List Message) (v : Watched) (b : ℕ)
    → Within args b v
    → Within args b (take_message args r queue v).0
unfolding take_message
take-Within args r [] v b h = omega (arith, budget-discover args r.env r.discovered v.state)
take-Within args r (message ∷ rest) v b h =
    react-Within args r message
      (record v { state = discover args r.env r.discovered v.state; queue = rest }) b
      (omega (arith, budget-discover args r.env r.discovered v.state))

watch_round-Within :
    (args : RunArgs) (active : Bool) (r : Round) (w : Watched) (b : ℕ)
    → Within args b w
    → Within args b (watch_round args active r w).0
unfolding watch_round
watch_round-Within args active r w b h =
    let os = if active then r.observations else [] in
    let seen = observe args r.reader os w.state w.queue in
    let kept = budget-observe args r.reader os w.state w.queue in
    elim (Bool-cases (w.stop || r.stop_set)) [
      | inl stopped ↦ rw stopped (omega arith)
      | inr running ↦ rw running (elim (Bool-cases (active && r.monitor_alive)) [
        | inr blind ↦ rw blind (omega (arith, budget-discover args r.env r.discovered seen.0))
        | inl sees ↦ rw sees (
            take-Within args r seen.1 (record w { state = seen.0; queue = seen.1 }) b (omega arith))
      ])
    ]

pub watch-Within :
    (args : RunArgs) (active : Bool) (rounds : List Round) (w : Watched) (b : ℕ)
    → Within args b w
    → Within args b (watch args active rounds w)
unfolding watch
watch-Within args active [] w b h = h
watch-Within args active (r ∷ rest) w b h =
    let one = watch_round args active r w in
    let kept = watch_round-Within args active r w b h in
    elim (Bool-cases one.1) [
      | inl left ↦ rw (left, watch) kept
      | inr stays ↦ rw (stays, watch) (watch-Within args active rest one.0 b kept)
    ]
