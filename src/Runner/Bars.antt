-- ===== src/Runner/Bars.antt =====
-- `poll_once`, `_filter_new_closed_bars`, `_process_bar` and `_finalize_day` of
-- shadow_runner/runner.py: from the polled candles to the days.
use the_bot.Common.{
  ℕ, ◌+◌, ◌/◌, Bool, false, not, ◌||◌, List, [], ◌∷◌, ◌++◌, map, Option, none, some, ltb, leb, ◌==◌,
  if◌then◌else◌,
}
use the_bot.Common.Floats.{Float, Arith}
use the_bot.Detection.Bars.{Bar}
use the_bot.Detection.Attempt.{Attempt, close_as_scratch}
use the_bot.Detection.Gate as Gate
use the_bot.Detection.Gate.{Gate}
use the_bot.Detection.Swings.{Swing}
use the_bot.Detection.Orchestrator as Orchestrator
use the_bot.Detection.Orchestrator.{Keyed, Trade, finalize, winner_of, filled_of}
use the_bot.DayState.{last_bar}
use the_bot.Orders.Broker.{Reply, raised, returned, Done, done}
use the_bot.Orders.Sizing.{Rounding}
use the_bot.Orders.Machine.{Manager}
use the_bot.Orders.Fills as Fills
use the_bot.Runner.Hub.{
  Event, ordered, daily_swing_confirmed, DayRun, new_day, Hub, Outcome, and_then,
}
use the_bot.Runner.Day.{sink_all, flush_new_events, take_bar}

-- `last_processed` is `last_processed_bar_time_ny`; the trackers and the configuration are the hub's.
pub record Runner : Type 0 where
  pub gate : Gate
  pub current_day : Option DayRun
  pub last_processed : Option ℕ

-- `BAR_DURATION`, in minutes
abbrev pub bar_duration : ℕ
bar_duration = 5

-- `list.sort(key=…)`, which keeps the order of equal keys.
abbrev pub insert_by_time : Bar → List Bar → List Bar
insert_by_time b [] = b ∷ []
insert_by_time b (c ∷ bars) = if ltb c.time b.time then c ∷ insert_by_time b bars else b ∷ c ∷ bars

abbrev pub sort_by_time : List Bar → List Bar
sort_by_time [] = []
sort_by_time (b ∷ bars) = insert_by_time b (sort_by_time bars)

-- Still forming, or processed already.
abbrev pub is_old : Option ℕ → ℕ → Bool
is_old none time = false
is_old (some last) time = leb time last

abbrev pub is_new_closed : Option ℕ → ℕ → Bar → Bool
is_new_closed last now b = not (ltb now (b.time + bar_duration) || is_old last b.time)

abbrev pub keep_new : Option ℕ → ℕ → List Bar → List Bar
keep_new last now [] = []
keep_new last now (b ∷ bars) =
    let rest = keep_new last now bars in if is_new_closed last now b then b ∷ rest else rest

-- `_filter_new_closed_bars`
unfoldable pub filter_new_closed_bars : Option ℕ → ℕ → List Bar → List Bar
filter_new_closed_bars last now candles = sort_by_time (keep_new last now candles)

-- `finalize` closes the attempt that won in place.
abbrev pub settle : Keyed → Attempt → List Keyed → List Keyed
settle w a [] = []
settle w a (k ∷ ks) =
    if k.raid_bar == w.raid_bar
    then if k.mss_bar == w.mss_bar then record k { attempt = a } ∷ ks else k ∷ settle w a ks
    else k ∷ settle w a ks

abbrev pub settle_winner : ℕ → Float → Orchestrator.Day → Orchestrator.Day
settle_winner timestamp final_close day = elim (winner_of (filled_of day.attempts)) [
  | none ↦ day
  | some w ↦ record day {
    attempts = settle w (close_as_scratch w.attempt timestamp final_close).0 day.attempts;
  }
]

module _ {World : Type 0} (hub : Hub World) (fl : Arith) (ro : Rounding) where
  abbrev pub write_winner : Option Trade → Outcome (DayRun × World) → Outcome (DayRun × World)
  write_winner none s = s
  write_winner (some trade) s =
      and_then s λ t. let (r, w) = hub.write_trade t.0 trade t.1 in (r, (t.0, w))

  abbrev pub close_simulation :
      Option Orchestrator.Day → Option Bar → DayRun × World → Outcome (DayRun × World)
  close_simulation none b s = (returned done, s)
  close_simulation (some day) none s = (returned done, s)
  close_simulation (some day) (some b) (d, w) =
      let (trade, events) = finalize day b.time b.close in
      let d' = record d { orchestrator = some (settle_winner b.time b.close day) } in
      write_winner trade (flush_new_events hub fl ro (sink_all hub fl ro events (d', w)))

  -- What is left pending at the broker is cancelled, for every order manager.
  abbrev pub cancel_all : List (ℕ × Manager) → World → (List (ℕ × Manager) × List Event) × World
  cancel_all [] w = (([], []), w)
  cancel_all ((user, m) ∷ rest) w =
      let s =
        Fills.cancel_all_at_day_end (hub.orders user)
          (record { manager = m; world = w; journal = [] }) in
      let ((managers, events), w') = cancel_all rest s.world in
      (((user, s.manager) ∷ managers, map (ordered user) s.journal ++ events), w')

  abbrev pub flush_if_managed : List (ℕ × Manager) → DayRun × World → Outcome (DayRun × World)
  flush_if_managed [] s = (returned done, s)
  flush_if_managed (_ ∷ _) s = flush_new_events hub fl ro s

  abbrev pub cancel_pending : DayRun × World → Outcome (DayRun × World)
  cancel_pending (d, w) =
      let ((managers, events), w') = cancel_all d.order_managers w in
      flush_if_managed managers
        (record d { order_managers = managers; todays_events = d.todays_events ++ events }, w')

  abbrev pub write_swings : List Swing → World → Reply Done × World
  write_swings [] w = (returned done, w)
  write_swings (e ∷ events) w = hub.write_events (map daily_swing_confirmed (e ∷ events)) w

  -- The daily swings: the gate is told of the day, whether it was traded or not.
  abbrev pub close_range :
      Option Float → Option Float → Runner → DayRun × World → Outcome (Runner × World)
  close_range (some high) (some low) r (d, w) =
      let (gate, events) = Gate.on_day_closed r.gate d.day.date high low in
      let (reply, w') = write_swings events w in
      (reply, (record r { gate = gate; current_day = some d }, w'))
  close_range _ _ r (d, w) = (returned done, (record r { current_day = some d }, w))

  abbrev pub range_then : Runner → Outcome (DayRun × World) → Outcome (Runner × World)
  range_then r (raised e, (d, w)) = (raised e, (record r { current_day = some d }, w))
  range_then r (returned _, (d, w)) = close_range d.day.day_high d.day.day_low r (d, w)

  unfoldable pub finalize_day : Runner → DayRun → World → Outcome (Runner × World)
  finalize_day r d w =
      range_then r
        (and_then (close_simulation d.orchestrator (last_bar d.day.bars) (d, w)) cancel_pending)

  abbrev pub in_day : Runner → Outcome (DayRun × World) → Outcome (Runner × World)
  in_day r (reply, (d, w)) = (reply, (record r { current_day = some d }, w))

  abbrev pub take : List ℕ → Bar → DayRun → Runner × World → Outcome (Runner × World)
  take fomc_dates b d (r, w) = in_day r (take_bar hub fl ro fomc_dates r.gate false b (d, w))

  abbrev pub date_of : Bar → ℕ
  date_of b = b.time / 1440

  abbrev pub to_day : List ℕ → Bar → Option DayRun → Runner × World → Outcome (Runner × World)
  to_day fomc_dates b none (r, w) =
      if ltb (date_of b) (hub.now w / 1440)
      then (returned done, (r, w))
      else take fomc_dates b (new_day (date_of b)) (r, w)
  to_day fomc_dates b (some d) (r, w) =
      if date_of b == d.day.date
      then take fomc_dates b d (r, w)
      else and_then (finalize_day r d w) (take fomc_dates b (new_day (date_of b)))

  unfoldable pub process_bar : List ℕ → Bar → Runner × World → Outcome (Runner × World)
  unfolding take_bar finalize_day
  process_bar fomc_dates b (r, w) = to_day fomc_dates b r.current_day (r, w)

  -- The loop of `poll_once`: a bar counts as processed when it has not raised.
  unfoldable pub process_bars : List ℕ → List Bar → Runner × World → Outcome (Runner × World)
  unfolding process_bar
  process_bars fomc_dates [] s = (returned done, s)
  process_bars fomc_dates (b ∷ bars) s =
      and_then (process_bar fomc_dates b s)
        λ t. process_bars fomc_dates bars (record t.0 { last_processed = some b.time }, t.1)

  abbrev pub candles_reply :
      List ℕ → ℕ → Reply (List Bar) → Runner × World → Outcome (Runner × World)
  candles_reply fomc_dates now (raised e) s = (raised e, s)
  candles_reply fomc_dates now (returned candles) (r, w) =
      process_bars fomc_dates (filter_new_closed_bars r.last_processed now candles) (r, w)

  -- The bars of `poll_once`.
  unfoldable pub poll_bars : List ℕ → ℕ → Runner × World → Outcome (Runner × World)
  unfolding process_bars
  poll_bars fomc_dates fetch_count (r, w) =
      let now = hub.now w in
      let (reply, w') = hub.get_candles fetch_count w in candles_reply fomc_dates now reply (r, w')
