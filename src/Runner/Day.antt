-- ===== src/Runner/Day.antt =====
-- `_decide_day`, `_flush_new_events` and `_replay_historical_day` of shadow_runner/runner.py: one day,
-- from its bars to its events.
use the_bot.Common.{
  ℕ, suc, Bool, true, false, List, [], ◌∷◌, ◌++◌, map, length, drop, Option, none, some, ◌==◌, ◌-◌,
  if◌then◌else◌,
}
use the_bot.Common.Floats.{Arith}
use the_bot.Detection.Bars.{Bar, Trend}
use the_bot.Detection.Gate.{Gate, Selection, skip, tradeable, gate_for_day}
use the_bot.Detection.Orchestrator as Orchestrator
use the_bot.Detection.Orchestrator.{Ready, trade_candidate_ready}
use the_bot.DayState.{update_daily_range, is_session_bar, ready_to_decide, last_bar}
use the_bot.Orders.Broker.{Reply, raised, returned, attribute_error, Done, done}
use the_bot.Orders.Sizing.{Rounding}
use the_bot.Orders.Machine.{active, ModelConfig, Manager, new_manager}
use the_bot.Orders.Placing as Placing
use the_bot.Runner.Hub.{
  Subscriber, Event, day_skipped, day_trend_determined, narrated, ordered, DayRun, new_day, Hub,
  Outcome, and_then,
}

-- `order_managers[user_id] = …`
abbrev pub put_manager : ℕ → Manager → List (ℕ × Manager) → List (ℕ × Manager)
put_manager user m [] = (user, m) ∷ []
put_manager user m ((u, n) ∷ rest) =
    if u == user then (u, m) ∷ rest else (u, n) ∷ put_manager user m rest

abbrev pub append_event : Event → DayRun → DayRun
append_event e d = record d { todays_events = d.todays_events ++ e ∷ [] }

abbrev pub time_of_last : List Bar → ℕ
time_of_last bars = elim (last_bar bars) [ none ↦ 0 | some b ↦ b.time ]

module _ {World : Type 0} (hub : Hub World) (fl : Arith) (ro : Rounding) where
  -- Every order manager is shown the candidate; its events are tagged and appended to the day's.
  unfoldable pub fan_out :
      Ready → List (ℕ × Manager) → World → (List (ℕ × Manager) × List Event) × World
  fan_out ready [] w = (([], []), w)
  fan_out ready ((user, m) ∷ rest) w =
      let s =
        Placing.on_trade_candidate_ready (hub.orders user) fl ro ready
          (record { manager = m; world = w; journal = [] }) in
      let ((managers, events), w') = fan_out ready rest s.world in
      (((user, s.manager) ∷ managers, map (ordered user) s.journal ++ events), w')

  abbrev pub offer : Ready → DayRun → World → DayRun × World
  offer ready d w =
      let ((managers, events), w') = fan_out ready d.order_managers w in
      (record d { order_managers = managers; todays_events = d.todays_events ++ events }, w')

  -- `combined_sink`
  abbrev pub combined_sink : Orchestrator.Event → DayRun × World → DayRun × World
  combined_sink (trade_candidate_ready ready) (d, w) =
      offer ready (append_event (narrated (trade_candidate_ready ready)) d) w
  combined_sink e (d, w) = (append_event (narrated e) d, w)

  abbrev pub sink_all : List Orchestrator.Event → DayRun × World → DayRun × World
  sink_all [] s = s
  sink_all (e ∷ events) s = sink_all events (combined_sink e s)

  -- `cd.orchestrator.on_new_bar(…)`
  unfoldable pub show_bar : Orchestrator.Day → ℕ → Bar → DayRun × World → DayRun × World
  unfolding fan_out
  show_bar day idx b (d, w) =
      let (day', events) = Orchestrator.on_new_bar fl day b.time idx b.high b.low b.close in
      sink_all events (record d { orchestrator = some day' }, w)

  -- `_flush_new_events`
  abbrev pub flush_reply : List Event → Reply Done → DayRun × World → Outcome (DayRun × World)
  flush_reply events (raised e) s = (raised e, s)
  flush_reply events (returned _) (d, w) =
      (returned done, (record d { flushed_count = length d.todays_events }, w))

  abbrev pub write_new : List Event → DayRun × World → Outcome (DayRun × World)
  write_new [] (d, w) = (returned done, (record d { flushed_count = length d.todays_events }, w))
  write_new (e ∷ events) (d, w) =
      let (r, w') = hub.write_events (e ∷ events) w in flush_reply (e ∷ events) r (d, w')

  unfoldable pub flush_new_events : DayRun × World → Outcome (DayRun × World)
  flush_new_events (d, w) = write_new (drop d.flushed_count d.todays_events) (d, w)

  -- The backfill: the orchestrator is shown the bars so far.
  abbrev pub show_to : Option Orchestrator.Day → ℕ → Bar → DayRun × World → DayRun × World
  show_to none idx b s = s
  show_to (some day) idx b s = show_bar day idx b s

  abbrev pub backfill : ℕ → List Bar → DayRun × World → DayRun × World
  backfill idx [] s = s
  backfill idx (b ∷ bars) (d, w) = backfill (suc idx) bars (show_to d.orchestrator idx b (d, w))

  abbrev pub config_of : Subscriber → ModelConfig
  config_of s = record { status = active; risk_pct = s.risk_pct; magic_number = s.magic_number }

  abbrev pub subscribe_reply : Subscriber → Reply Done → DayRun × World → Outcome (DayRun × World)
  subscribe_reply s (raised e) t = (raised e, t)
  subscribe_reply s (returned _) (d, w) = (
    returned done,
    (
      record d {
        order_managers = put_manager s.user_id (new_manager (config_of s)) d.order_managers;
      },
      w,
    ),
  )

  abbrev pub subscribe : Subscriber → DayRun × World → Outcome (DayRun × World)
  subscribe s (d, w) = let (r, w') = hub.ensure_position_tracker s w in subscribe_reply s r (d, w')

  abbrev pub subscribe_all : List Subscriber → DayRun × World → Outcome (DayRun × World)
  subscribe_all [] t = (returned done, t)
  subscribe_all (s ∷ rest) t = and_then (subscribe s t) (subscribe_all rest)

  abbrev pub subscribers_reply : Reply (List Subscriber) → DayRun × World → Outcome (DayRun × World)
  subscribers_reply (raised e) t = (raised e, t)
  subscribers_reply (returned subscribers) t = subscribe_all subscribers t

  -- The order managers of the day; a historical day has none.
  abbrev pub subscribers : Bool → DayRun × World → Outcome (DayRun × World)
  subscribers true t = (returned done, t)
  subscribers false (d, w) =
      let (r, w') = hub.get_active_subscribers w in subscribers_reply r (d, w')

  -- The orchestrator is made once the order managers are there.
  abbrev pub begin : Trend → ℕ → ℕ → DayRun × World → Outcome (DayRun × World)
  begin trend s e (d, w) =
      let d' = record d { orchestrator = some (Orchestrator.new trend s e) } in
      flush_new_events (backfill 0 d.day.bars (d', w))

  abbrev pub decide : Bool → Selection → DayRun × World → Outcome (DayRun × World)
  decide historical (skip reason) (d, w) =
      let (r, w') = hub.write_events (day_skipped reason (time_of_last d.day.bars) ∷ []) w in
      (r, (record d { day = record d.day { decided = true }; tradeable = false }, w'))
  decide historical (tradeable trend s e) (d, w) =
      let d1 = record d {
        day = record d.day { decided = true };
        tradeable = true;
        trend = some trend;
      } in
      let d2 = append_event (day_trend_determined trend (time_of_last d.day.bars)) d1 in
      and_then (subscribers historical (d2, w)) (begin trend s e)

  unfoldable pub decide_day : List ℕ → Gate → Bool → DayRun × World → Outcome (DayRun × World)
  unfolding show_bar flush_new_events
  decide_day fomc_dates gate historical (d, w) =
      decide historical (gate_for_day fomc_dates gate d.day.date d.day.bars) (d, w)

  -- A further bar of a day that is traded; without an orchestrator it is an AttributeError.
  abbrev pub show_next : Option Orchestrator.Day → Bar → DayRun × World → Outcome (DayRun × World)
  show_next none b t = (raised attribute_error, t)
  show_next (some day) b (d, w) = flush_new_events (show_bar day (length d.day.bars - 1) b (d, w))

  -- What is done with a session bar, once it is appended.
  abbrev pub advance :
      List ℕ → Gate → Bool → Bool → Bool → Bar → DayRun × World → Outcome (DayRun × World)
  advance fomc_dates gate historical false false b t = (returned done, t)
  advance fomc_dates gate historical false true b t = decide_day fomc_dates gate historical t
  advance fomc_dates gate historical true ready b (d, w) =
      if d.tradeable then show_next d.orchestrator b (d, w) else (returned done, (d, w))

  -- The bar in its day: from `update_daily_range` to the end of `_process_bar`, and the body of the
  -- loop of `_replay_historical_day`.
  unfoldable pub take_bar : List ℕ → Gate → Bool → Bar → DayRun × World → Outcome (DayRun × World)
  unfolding decide_day
  take_bar fomc_dates gate historical b (d, w) =
      let day = update_daily_range d.day b in
      let d' = record d { day = day } in
      let d'' = record d { day = record day { bars = day.bars ++ b ∷ [] } } in
      if is_session_bar b
      then advance fomc_dates gate historical d''.day.decided (ready_to_decide d''.day) b (d'', w)
      else (returned done, (d', w))

  -- The bars of a day in turn, as long as none raises.
  unfoldable pub take_bars :
      List ℕ → Gate → Bool → List Bar → DayRun × World → Outcome (DayRun × World)
  unfolding take_bar
  take_bars fomc_dates gate historical [] t = (returned done, t)
  take_bars fomc_dates gate historical (b ∷ bars) t =
      and_then (take_bar fomc_dates gate historical b t) (take_bars fomc_dates gate historical bars)

  unfoldable pub replay_historical_day :
      List ℕ → Gate → ℕ → List Bar → World → Outcome (DayRun × World)
  unfolding take_bars new_day
  replay_historical_day fomc_dates gate date session_bars w =
      take_bars fomc_dates gate true session_bars (new_day date, w)
