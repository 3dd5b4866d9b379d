-- ===== src/Runner/Tests.antt =====
-- A morning that is traded, at a database that may refuse, and the theorems of the runner at it.
use the_bot.Common.{
  take, ℕ, ◌+◌, ◌*◌, ◌≡◌, ◌↔◌, ◌≤◌, refl, Bool, true, false, List, [], ◌∷◌, ◌++◌, Option, none,
  some, length, if◌then◌else◌, All,
}
use the_bot.Common.Floats.{half_points}
use the_bot.Common.Deque.{last}
use the_bot.Detection.Bars.{up, Bar, long}
use the_bot.Detection.Swings as Swings
use the_bot.Detection.Raids as Raids
use the_bot.Detection.Gaps as Gaps
use the_bot.Detection.Shifts as Shifts
use the_bot.Detection.Attempt as Attempt
use the_bot.Detection.Gate as Gate
use the_bot.Detection.Gate.{Gate}
use the_bot.Detection.Orchestrator as Orchestrator
use the_bot.DayState.{is_session_bar, ready_to_decide, update_daily_range}
use the_bot.Orders.Broker.{raised, returned, raised_with, done, SymbolInfo, History, Outside}
use the_bot.Orders.Machine.{active, Manager, new_manager}
use the_bot.Runner.Polling.{check_order_manager_fills}
use the_bot.Runner.Once.{check_order_manager_fills-flush_new_events}
use the_bot.Orders.Sizing.{Rounding, compute_lot_size}
use the_bot.Orders.Placing.{on_trade_candidate_ready}
use the_bot.Runner.Hub.{Subscriber, DayRun, new_day, Hub, Outcome}
use the_bot.Runner.Day.{
  take_bars, take_bar, decide_day, show_bar, flush_new_events, fan_out, replay_historical_day,
}
use the_bot.Runner.Bars.{Runner, process_bar, process_bars, poll_bars, filter_new_closed_bars}
use the_bot.Runner.Narrative.{narrative}
use the_bot.Runner.Told.{Same}
use the_bot.Runner.Tale.{IsTold}
use the_bot.Runner.Alike.{HasReturned}
use the_bot.Runner.Whole.{take_bars-IsTold}
use the_bot.Runner.Replay.{replay_historical_day-Same}
use the_bot.Runner.Wedge.{IsInterrupted, StuckFor, process_bars-IsStuck}
use the_bot.Runner.Fresh.{IsSorted, IsOldOr, IsNoEarlier, filter_new_closed_bars-IsSorted}
use the_bot.Runner.Kept.{Processes}
use the_bot.Runner.Progress.{ReachedAll, poll_bars-IsReached}

-- The time, the tickets given, and whether the subscribers can be read.
record Paper : Type 0 where
  time : ℕ
  tickets : List ℕ
  refuses : Bool

abbrev info : SymbolInfo
info = record { tick_size = 1; tick_value = 1; volume_min = 1; volume_max = 3; volume_step = 1 }

abbrev history : History
history = record {
  is_closed = false;
  close_price = none;
  close_time = none;
  profit = none;
  close_reason = none;
}

abbrev broker : Outside Paper
broker = record {
  now = λ w. w.time;
  get_user_paused_status = λ w. (returned false, w);
  get_model_paused_status = λ w. (returned false, w);
  get_max_daily_loss_pct = λ w. (returned none, w);
  get_realized_pnl_today = λ w. (returned 0, w);
  balance = λ w. (returned 1000, w);
  get_symbol_info = λ w. (returned info, w);
  place_pending_order = λ order w. (
    returned (100 + length w.tickets),
    record w { tickets = w.tickets ++ (100 + length w.tickets) ∷ [] },
  );
  get_pending_orders = λ magic w. (returned w.tickets, w);
  get_positions = λ magic w. (returned [], w);
  cancel_pending_order = λ t w. (returned done, w);
  close_position = λ t w. (returned done, w);
  modify_position = λ t price w. (returned done, w);
  get_position_history = λ t w. (returned history, w);
}

abbrev rounding : Rounding
rounding = record { to_int = λ x. x; round8 = λ x. x; epsilon = 0; smallest_lot = 1 }

abbrev subscriber : Subscriber
subscriber = record { user_id = 1; risk_pct = 2; magic_number = 7 }

abbrev bar : ℕ → ℕ → ℕ → ℕ → Bar
bar i high low close = record { time = 1440 + 300 + i * 25; high = high; low = low; close = close }

-- Bars from five to ten: a raid, a shift and a gap.
abbrev first_bars : List Bar
first_bars =
    bar 0 1000 900 950
    ∷ bar 1 1010 890 960
    ∷ bar 2 1100 950 1000
    ∷ bar 3 1050 880 1000
    ∷ bar 4 1000 800 900
    ∷ bar 5 1010 850 900
    ∷ bar 6 1020 860 880
    ∷ bar 7 900 700 800
    ∷ bar 8 950 720 940
    ∷ bar 9 1300 940 1290
    ∷ bar 10 1000 910 980
    ∷ bar 11 1110 970 1100
    ∷ bar 12 1110 990 1100
    ∷ []

abbrev next_bar : Bar
next_bar = bar 13 1150 1000 1100

abbrev morning : List Bar
morning = first_bars ++ next_bar ∷ []

abbrev hub : Hub Paper
hub = record {
  now = λ w. w.time;
  get_candles = λ n w. (returned morning, w);
  get_active_subscribers =
      λ w. (if w.refuses then raised (raised_with 1) else returned (subscriber ∷ []), w);
  ensure_position_tracker = λ s w. (returned done, w);
  write_events = λ events w. (returned done, w);
  write_trade = λ d trade w. (returned done, w);
  orders = λ user. broker;
}

abbrev gate : Gate
gate = record Gate.new {
  confirmed_highs = (1, 10) ∷ (2, 20) ∷ [];
  confirmed_lows = (1, 5) ∷ (2, 6) ∷ [];
}

abbrev at_desk : Paper
at_desk = record { time = 1440 + 663; tickets = []; refuses = false }

abbrev in_trouble : Paper
in_trouble = record { time = 1440 + 663; tickets = []; refuses = true }

abbrev live : Outcome (DayRun × Paper)
live = take_bars hub half_points rounding [] gate false morning (new_day 1, at_desk)

abbrev starting : Runner
starting = record { gate = gate; current_day = none; last_processed = none }

abbrev replayed : Outcome (DayRun × Paper)
replayed = replay_historical_day hub half_points rounding [] gate 1 morning in_trouble

-- The live morning places an order, the replayed one does not.
runs :
    HasReturned live
    × (live.1.1.tickets ≡ 100 ∷ 101 ∷ [])
    × HasReturned replayed
    × (replayed.1.1.tickets ≡ [])
    × (length (narrative replayed.1.0.todays_events) ≡ 17)
unfolding replay_historical_day take_bars take_bar decide_day show_bar flush_new_events fan_out
    new_day update_daily_range is_session_bar ready_to_decide Gate.gate_for_day Gate.new
    Gate.trend_for_today Gate.last_two Gate.contains Gate.first_from Gate.session_of last
    on_trade_candidate_ready compute_lot_size Orchestrator.on_new_bar Orchestrator.new
    Orchestrator.feed_attempts Orchestrator.feed_watches Orchestrator.frame_of Swings.on_new_bar
    Swings.new Swings.start_new_day Swings.max_of Swings.min_of Raids.on_new_bar Raids.check
    Raids.fold_in Raids.new Raids.start_new_day Gaps.new Gaps.on_new_bar Gaps.check_fvg
    Shifts.on_new_bar Attempt.on_new_bar Attempt.init Attempt.is_active new_manager
runs = (refl, refl, refl, refl, refl)

take_bars-IsTold_example : IsTold half_points [] gate 1 live.1.0
take_bars-IsTold_example =
    take_bars-IsTold half_points [] gate 1 hub rounding false morning at_desk (
      refl,
      (
        refl,
        (
          refl,
          (
            refl,
            (refl, (refl, (refl, (refl, (refl, (refl, (refl, (refl, (refl, (refl, tt)))))))))),
          ),
        ),
      ),
    )

replay_historical_day-Same_example : Same live.1.0 replayed.1.0
replay_historical_day-Same_example =
    replay_historical_day-Same hub hub half_points rounding rounding [] gate 1 morning at_desk
      in_trouble runs.0 runs.2

-- The morning up to the bar at ten.
abbrev before_ten : Outcome (Runner × Paper)
before_ten = process_bars hub half_points rounding [] (take 12 first_bars) (starting, in_trouble)

abbrev day_of : Option DayRun → DayRun
day_of none = new_day 0
day_of (some d) = d

abbrev waiting : DayRun
waiting = day_of before_ten.1.0.current_day

abbrev at_ten : Runner
at_ten = record { gate = gate; current_day = some waiting; last_processed = some 2015 }

-- The subscribers cannot be read when the day is decided.
interrupts :
    (before_ten.1.0.last_processed ≡ some 2015)
    × IsInterrupted hub half_points rounding []
        (bar 12 1110 990 1100)
        (raised_with 1)
        waiting
        at_ten
        in_trouble
unfolding process_bars process_bar take_bar new_day update_daily_range is_session_bar
    ready_to_decide Gate.gate_for_day Gate.new Gate.trend_for_today Gate.last_two Gate.contains
    Gate.first_from Gate.session_of last
interrupts = (
  refl,
  record {
    undecided = refl;
    no_one = refl;
    in_session = refl;
    late = refl;
    of_date = refl;
    trend = up;
    session_start = 5;
    session_end = 12;
    selected = refl;
    unread = refl;
  },
)

-- The next polls find the database restored, and fail.
abbrev polls : List (List Bar × Paper)
polls = ([], at_desk) ∷ (next_bar ∷ [], at_desk) ∷ []

process_bars-IsStuck_example :
    ((process_bars hub half_points rounding [] (bar 12 1110 990 1100 ∷ []) (at_ten, in_trouble)).0
      ≡ raised (raised_with 1))
    × StuckFor hub half_points rounding [] waiting.day.date
        (some 2015)
        (bar 12 1110 990 1100)
        polls
        (waiting.day.bars ++ bar 12 1110 990 1100 ∷ [])
        (process_bars hub half_points rounding []
          (bar 12 1110 990 1100 ∷ [])
          (at_ten, in_trouble)).1.0
process_bars-IsStuck_example =
    process_bars-IsStuck hub half_points rounding [] (bar 12 1110 990 1100) [] (raised_with 1)
      waiting at_ten in_trouble polls refl interrupts.1

filter_new_closed_bars-IsSorted_example :
    IsSorted (filter_new_closed_bars (some 1815) 2068 morning)
    × (All (λ (b : Bar). b.time ≤ 2040) (filter_new_closed_bars (some 1815) 2068 morning)
        ↔ All (IsOldOr (some 1815) 2068 (λ (b : Bar). b.time ≤ 2040)) morning)
filter_new_closed_bars-IsSorted_example =
    filter_new_closed_bars-IsSorted (some 1815) 2068 morning (λ (b : Bar). b.time ≤ 2040)

polled : HasReturned (poll_bars hub half_points rounding [] 300 (starting, at_desk))
unfolding poll_bars filter_new_closed_bars process_bars process_bar take_bar decide_day show_bar
    flush_new_events fan_out new_day update_daily_range is_session_bar ready_to_decide
    Gate.gate_for_day Gate.new Gate.trend_for_today Gate.last_two Gate.contains Gate.first_from
    Gate.session_of last on_trade_candidate_ready compute_lot_size Orchestrator.on_new_bar
    Orchestrator.new Orchestrator.feed_attempts Orchestrator.feed_watches Orchestrator.frame_of
    Swings.on_new_bar Swings.new Swings.start_new_day Swings.max_of Swings.min_of Raids.on_new_bar
    Raids.check Raids.fold_in Raids.new Raids.start_new_day Gaps.new Gaps.on_new_bar Gaps.check_fvg
    Shifts.on_new_bar Attempt.on_new_bar Attempt.init Attempt.is_active new_manager
polled = refl

poll_bars-IsReached_example :
    ReachedAll hub half_points rounding 2103 morning
      (poll_bars hub half_points rounding [] 300 (starting, at_desk)).1.0.last_processed
    × IsNoEarlier none
        (poll_bars hub half_points rounding [] 300 (starting, at_desk)).1.0.last_processed
    × Processes hub half_points rounding
        (filter_new_closed_bars none 2103 morning)
        (starting, at_desk)
        (poll_bars hub half_points rounding [] 300 (starting, at_desk)).1
poll_bars-IsReached_example =
    poll_bars-IsReached hub half_points rounding [] 300 morning starting at_desk refl polled

-- The subscriber's first order has filled at an earlier poll.
abbrev won : ℕ × Manager
won = (
  1,
  record (new_manager (record { status = active; risk_pct = 2; magic_number = 7 })) {
    pending =
        (
          (7, 9),
          record { order_ticket = 100; direction = long; entry = 920; stop = 700; raid_bar = 7 },
        )
        ∷ [];
    winner_ticket = some 100;
    winner_position_ticket = some 100;
  },
)

abbrev after_fill : DayRun
after_fill = record (new_day 1) { order_managers = won ∷ [] }

check_order_manager_fills-flush_new_events_example :
    check_order_manager_fills hub half_points rounding (after_fill, at_desk)
    ≡ flush_new_events hub half_points rounding (after_fill, at_desk)
unfolding new_day new_manager
check_order_manager_fills-flush_new_events_example =
    check_order_manager_fills-flush_new_events hub half_points rounding after_fill at_desk won []
      refl ((100, refl), tt)
