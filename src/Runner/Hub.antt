-- ===== src/Runner/Hub.antt =====
-- What the runner calls, and the state of a day in progress.
use the_bot.Common.{ℕ, Bool, false, List, [], Option, none}
use the_bot.Common.Floats.{Float}
use the_bot.Detection.Bars.{Bar, Trend}
use the_bot.Detection.Swings.{Swing}
use the_bot.Detection.Gate.{SkipReason}
use the_bot.Detection.Orchestrator as Orchestrator
use the_bot.Detection.Orchestrator.{Trade}
use the_bot.DayState.{CurrentDay}
use the_bot.Orders.Broker.{Reply, raised, returned, Done, Outside}
use the_bot.Orders.Machine as Machine
use the_bot.Orders.Machine.{Manager}

-- A row of `get_active_subscribers`; its bridge is that of the user.
pub record Subscriber : Type 0 where
  pub user_id : ℕ
  pub risk_pct : Float
  pub magic_number : ℕ

-- An order manager's event carries its user (`_origin_user_id`).
pub data Event : Type 0 where
  day_skipped : SkipReason → ℕ → Event
  day_trend_determined : Trend → ℕ → Event
  narrated : Orchestrator.Event → Event
  ordered : ℕ → Machine.Event → Event
  daily_swing_confirmed : Swing → Event

-- `CurrentDay` with the fields that the runner sets; `flushed_count` is how many of the day's events
-- have been written.
pub record DayRun : Type 0 where
  pub day : CurrentDay
  pub tradeable : Bool
  pub trend : Option Trend
  pub orchestrator : Option Orchestrator.Day
  pub order_managers : List (ℕ × Manager)
  pub todays_events : List Event
  pub flushed_count : ℕ

unfoldable pub new_day : ℕ → DayRun
new_day date = record {
  day = record {
    date = date;
    bars = [];
    day_high = none;
    day_low = none;
    last_bar_seen = none;
    decided = false;
  };
  tradeable = false;
  trend = none;
  orchestrator = none;
  order_managers = [];
  todays_events = [];
  flushed_count = 0;
}

-- The reference bridge, the session of the database, the trackers and, for every user, what that
-- user's order manager calls. `write_events` is the transaction of `_write_events_now`, `write_trade`
-- all of `_write_trade`, and `ensure_position_tracker` reads the database for a new subscriber.
pub record Hub (World : Type 0) : Type 0 where
  pub now : World → ℕ
  pub get_candles : ℕ → World → Reply (List Bar) × World
  pub get_active_subscribers : World → Reply (List Subscriber) × World
  pub ensure_position_tracker : Subscriber → World → Reply Done × World
  pub write_events : List Event → World → Reply Done × World
  pub write_trade : DayRun → Trade → World → Reply Done × World
  pub orders : ℕ → Outside World

-- A method that may raise keeps what it has changed until then.
abbrev pub Outcome : Type 0 → Type 0
Outcome S = Reply Done × S

abbrev pub and_then : {S : Type 0} → Outcome S → (S → Outcome S) → Outcome S
and_then (raised e, s) f = (raised e, s)
and_then (returned _, s) f = f s
