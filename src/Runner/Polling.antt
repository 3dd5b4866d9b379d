-- ===== src/Runner/Polling.antt =====
-- `_check_order_manager_fills`, `_check_order_manager_close` and `_check_daily_loss_threshold` of
-- shadow_runner/runner.py: what a poll does with the order managers, after the bars.
use the_bot.Common.{
  ℕ, ◌+◌, Bool, true, false, ◌||◌, List, [], ◌∷◌, ◌++◌, map, Option, none, some, leb, if◌then◌else◌,
}
use the_bot.Common.Floats.{Arith}
use the_bot.Detection.Bars.{Bar}
use the_bot.Orders.Broker.{Reply, raised, returned, done}
use the_bot.Orders.Sizing.{Rounding}
use the_bot.Orders.Machine.{Manager, Machine}
use the_bot.Orders.Fills.{check_for_fills, attach_target}
use the_bot.Orders.Closes.{check_for_close, check_daily_loss_threshold}
use the_bot.Runner.Hub.{Event, ordered, DayRun, Hub, Outcome, and_then}
use the_bot.Runner.Day.{flush_new_events}
use the_bot.Runner.Bars.{Runner, bar_duration, poll_bars}

-- An entry of `order_managers` after the check for fills, and whether it filled in this poll.
pub record Checked : Type 0 where
  pub user_id : ℕ
  pub manager : Manager
  pub newly_filled : Bool

-- The bars that are closed by now.
abbrev pub closed_bars : ℕ → List Bar → List Bar
closed_bars now [] = []
closed_bars now (b ∷ bars) =
    let rest = closed_bars now bars in if leb (b.time + bar_duration) now then b ∷ rest else rest

-- `newly_filled_user_ids` is not empty.
abbrev pub any_filled : List Checked → Bool
any_filled [] = false
any_filled (c ∷ rest) = c.newly_filled || any_filled rest

abbrev pub managers_of : List Checked → List (ℕ × Manager)
managers_of [] = []
managers_of (c ∷ rest) = (c.user_id, c.manager) ∷ managers_of rest

module _ {World : Type 0} (hub : Hub World) (fl : Arith) (ro : Rounding) where
  -- The order managers in turn; an exception of one ends its own call, not the loop. Its events are
  -- tagged with the user.
  unfoldable pub for_each :
      (ℕ → Machine World → Machine World)
      → List (ℕ × Manager)
      → World
      → (List (ℕ × Manager) × List Event) × World
  for_each f [] w = (([], []), w)
  for_each f ((user, m) ∷ rest) w =
      let s = f user (record { manager = m; world = w; journal = [] }) in
      let ((managers, events), w') = for_each f rest s.world in
      (((user, s.manager) ∷ managers, map (ordered user) s.journal ++ events), w')

  abbrev pub put_back : (List (ℕ × Manager) × List Event) × World → DayRun → DayRun × World
  put_back ((managers, events), w) d =
      (record d { order_managers = managers; todays_events = d.todays_events ++ events }, w)

  abbrev pub flush_each :
      (ℕ → Machine World → Machine World)
      → List (ℕ × Manager)
      → DayRun × World
      → Outcome (DayRun × World)
  flush_each f [] t = (returned done, t)
  flush_each f (m ∷ rest) (d, w) = flush_new_events hub fl ro (put_back (for_each f (m ∷ rest) w) d)

  unfoldable pub check_order_manager_close : DayRun × World → Outcome (DayRun × World)
  unfolding for_each
  check_order_manager_close (d, w) =
      flush_each (λ user s. (check_for_close (hub.orders user) s).1) d.order_managers (d, w)

  unfoldable pub check_daily_loss : DayRun × World → Outcome (DayRun × World)
  unfolding for_each
  check_daily_loss (d, w) =
      flush_each (λ user s. check_daily_loss_threshold (hub.orders user) fl s) d.order_managers
        (d, w)

  -- The first loop of `_check_order_manager_fills`.
  unfoldable pub check_fills : List (ℕ × Manager) → World → (List Checked × List Event) × World
  check_fills [] w = (([], []), w)
  check_fills ((user, m) ∷ rest) w =
      let (filled, s) =
        check_for_fills (hub.orders user) (record { manager = m; world = w; journal = [] }) in
      let ((checked, events), w') = check_fills rest s.world in
      (
        (
          record { user_id = user; manager = s.manager; newly_filled = filled } ∷ checked,
          map (ordered user) s.journal ++ events,
        ),
        w',
      )

  -- The second loop: those that filled in this poll are given their target.
  unfoldable pub attach_targets :
      List Bar → List Checked → World → (List (ℕ × Manager) × List Event) × World
  attach_targets bars [] w = (([], []), w)
  attach_targets bars (c ∷ rest) w =
      let start : Machine World = record { manager = c.manager; world = w; journal = [] } in
      let s =
        if c.newly_filled then attach_target (hub.orders c.user_id) fl bars start else start in
      let ((managers, events), w') = attach_targets bars rest s.world in
      (((c.user_id, s.manager) ∷ managers, map (ordered c.user_id) s.journal ++ events), w')

  -- `get_candles` raises nothing but BridgeError, which is caught.
  abbrev pub fills_candles_reply :
      List Checked → Reply (List Bar) → DayRun × World → Outcome (DayRun × World)
  fills_candles_reply checked (raised e) t = (returned done, t)
  fills_candles_reply checked (returned candles) (d, w) =
      flush_new_events hub fl ro
        (put_back (attach_targets (closed_bars (hub.now w) candles) checked w) d)

  abbrev pub targets_for : List Checked → Bool → DayRun × World → Outcome (DayRun × World)
  targets_for checked false t = (returned done, t)
  targets_for checked true (d, w) =
      let (r, w') = hub.get_candles 20 w in fills_candles_reply checked r (d, w')

  abbrev pub fills_of : List (ℕ × Manager) → DayRun × World → Outcome (DayRun × World)
  fills_of [] t = (returned done, t)
  fills_of (m ∷ rest) (d, w) =
      let ((checked, events), w') = check_fills (m ∷ rest) w in
      and_then (flush_new_events hub fl ro (put_back ((managers_of checked, events), w') d))
        (targets_for checked (any_filled checked))

  unfoldable pub check_order_manager_fills : DayRun × World → Outcome (DayRun × World)
  unfolding check_fills attach_targets
  check_order_manager_fills (d, w) = fills_of d.order_managers (d, w)

  -- One of the three, on the runner's day, if there is one.
  abbrev pub on_day :
      (DayRun × World → Outcome (DayRun × World))
      → Option DayRun
      → Runner × World
      → Outcome (Runner × World)
  on_day f none s = (returned done, s)
  on_day f (some d) (r, w) =
      let (reply, (d', w')) = f (d, w) in (reply, (record r { current_day = some d' }, w'))

  abbrev pub on_current_day :
      (DayRun × World → Outcome (DayRun × World)) → Runner × World → Outcome (Runner × World)
  on_current_day f (r, w) = on_day f r.current_day (r, w)

  -- `poll_once`, up to the trackers.
  unfoldable pub poll_orders : List ℕ → ℕ → Runner × World → Outcome (Runner × World)
  unfolding check_order_manager_fills check_order_manager_close check_daily_loss
  poll_orders fomc_dates fetch_count s =
      and_then (poll_bars hub fl ro fomc_dates fetch_count s) λ s1.
        and_then (on_current_day check_order_manager_fills s1) λ s2.
          and_then (on_current_day check_order_manager_close s2) (on_current_day check_daily_loss)
