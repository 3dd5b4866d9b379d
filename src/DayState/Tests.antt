-- ===== src/DayState/Tests.antt =====
-- A morning of half-hour bars, and the theorem of the day's state at it.
use the_bot.Common.{ℕ, ◌+◌, ◌*◌, ◌≡◌, refl, arith, false, [], ◌∷◌, ◌++◌, none, some, map, range}
use the_bot.Common.Deque.{last}
use the_bot.Detection.Bars.{Bar, up}
use the_bot.Detection.Gate as Gate
use the_bot.Detection.Gate.{gate_for_day, tradeable, Gate}
use the_bot.DayState.{CurrentDay, ready_to_decide, update_daily_range, is_session_bar}
use the_bot.DayState.Final.{IsFinal, ready_to_decide-IsFinal}

abbrev bar : ℕ → Bar
bar i = record { time = 1440 + 300 + i * 30; high = 100 + i; low = 90; close = 95 }

abbrev gate : Gate
gate = record Gate.new {
  confirmed_highs = (1, 10) ∷ (2, 20) ∷ [];
  confirmed_lows = (1, 5) ∷ (2, 6) ∷ [];
}

abbrev morning : CurrentDay
morning = record {
  date = 1;
  bars = map bar (range 0 12);
  day_high = none;
  day_low = none;
  last_bar_seen = none;
  decided = false;
}

decision : gate_for_day [] gate 1 (morning.bars ++ bar 12 ∷ bar 13 ∷ []) ≡ tradeable up 4 10
unfolding gate_for_day Gate.new Gate.trend_for_today Gate.last_two Gate.contains last
decision = refl

day_range : (update_daily_range (update_daily_range morning (bar 3)) (bar 1)).day_high ≡ some 103
unfolding update_daily_range
day_range = refl

afternoon : is_session_bar (bar 24) ≡ false
unfolding is_session_bar
afternoon = refl

ready_to_decide-IsFinal_example : IsFinal [] gate morning
unfolding ready_to_decide
ready_to_decide-IsFinal_example =
    ready_to_decide-IsFinal [] gate morning
      (
        refl,
        (refl, (refl, (refl, (refl, (refl, (refl, (refl, (refl, (refl, (refl, (refl, tt))))))))))),
      )
      (omega arith) refl
