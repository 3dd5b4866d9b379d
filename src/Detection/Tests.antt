-- ===== src/Detection/Tests.antt =====
-- A trading day in half points, and the theorems of the detection engine at it.
use the_bot.Common.{
  none, arith, ℕ, suc, ◌≡◌, refl, List, [], ◌∷◌, Option, some, take, drop, map_from, ◌++◌,
}
use the_bot.Common.Floats.{half_points}
use the_bot.Common.Deque.{last}
use the_bot.Detection.Bars.{Bar, up, bull, long}
use the_bot.Detection.Swings as Swings
use the_bot.Detection.Swings.{Swing, swing_high, swing_low}
use the_bot.Detection.Swings.Batch.{pivots}
use the_bot.Detection.Swings.Refine.{feed-pivots}
use the_bot.Detection.Raids as Raids
use mathlib.Core.Option
use the_bot.Detection.Gaps as Gaps
use the_bot.Detection.Gaps.{Gap, check_fvg}
use the_bot.Detection.Gaps.Refine.{frame_at, report, find_fvg, check_fvg-find_fvg}
use the_bot.Detection.Shifts as Shifts
use the_bot.Detection.Shifts.{Watch}
use the_bot.Detection.Attempt as Attempt
use the_bot.Detection.Attempt.Batch.{search}
use the_bot.Detection.Attempt.Open.{result}
use the_bot.Detection.Attempt.Refine.{result-init}
use the_bot.Detection.Orchestrator as Orchestrator
use the_bot.Detection.Attempt.{close_as_scratch}
use the_bot.Detection.Orchestrator.Finalize.{FirstWins, finalize-FirstWins}
use the_bot.Detection.Orchestrator.{Day, Trade, on_new_bar, finalize}
use the_bot.Detection.Gate as Gate
use the_bot.Detection.Gate.{trend_for_today, gate_for_day}
use the_bot.Detection.Gate.Session.{Decided, gate_for_day-Decided}
use the_bot.Detection.Gate.Trends.{daily_trend_as_of}
use the_bot.Detection.Gate.Refine.{trend-daily_trend_as_of}

abbrev bar : ℕ → ℕ → ℕ → ℕ → Bar
bar time high low close = record { time = time; high = high; low = low; close = close }

-- A swing high at 2, a swing low at 4, a raid at 7, a shift and a gap at 9, a fill at 10, a win at 11.
abbrev day : List Bar
day =
    bar 300 1000 900 950
    ∷ bar 305 1010 890 960
    ∷ bar 310 1100 950 1000
    ∷ bar 315 1050 880 1000
    ∷ bar 320 1000 800 900
    ∷ bar 325 1010 850 900
    ∷ bar 330 1020 860 880
    ∷ bar 335 900 700 800
    ∷ bar 340 950 720 940
    ∷ bar 345 1300 940 1290
    ∷ bar 350 1000 910 980
    ∷ bar 355 1150 970 1100
    ∷ []

abbrev swing : Swings.Kind → ℕ → ℕ → ℕ → Swing
swing kind timestamp price index = record {
  kind = kind;
  timestamp = timestamp;
  price = price;
  index = index;
}

swings_of_day :
    Swings.Refine.feed (Swings.new 2) day
    ≡ swing swing_high 310 1100 2
      ∷ swing swing_low 320 800 4
      ∷ swing swing_high 330 1020 6
      ∷ swing swing_low 335 700 7
      ∷ swing swing_high 345 1300 9
      ∷ []
unfolding Swings.Refine.feed Swings.on_new_bar Swings.new Swings.max_of Swings.min_of last
swings_of_day = refl

feed-pivots_example :
    Swings.Refine.feed (Swings.start_new_day (Swings.new 2)) day ≡ pivots (Swings.new 2).pivot_n day
feed-pivots_example = feed-pivots (Swings.new 2) day

abbrev raid : ℕ → ℕ → ℕ → Raids.Raid
raid timestamp low i = record {
  timestamp = timestamp;
  side = bull;
  raid_level = 800;
  raid_bar_extreme = low;
  bar_index = i;
  mss_reference_level = 1100;
}

raids_of_day :
    Raids.Refine.feed (Swings.new 2) Raids.new up 5 20 0 day ≡ raid 335 700 7 ∷ raid 340 720 8 ∷ []
unfolding Raids.Refine.feed Raids.on_new_bar Raids.check Raids.fold_in Raids.new Swings.on_new_bar
    Swings.new Swings.max_of Swings.min_of last
raids_of_day = refl

abbrev watch : Watch
watch = record { raid_bar_index = 7; side = bull; reference_level = 1100 }

abbrev gap : Gap
gap = record {
  timestamp = 345;
  side = bull;
  top = 940;
  bottom = 900;
  frame_idx = 7;
  mss_bar_index = 9;
}

gap_of_day : check_fvg (Gaps.Refine.feed Gaps.new 0 (take 10 day)) 345 bull ≡ some gap
unfolding check_fvg Gaps.Refine.feed Gaps.on_new_bar Gaps.new last
gap_of_day = refl

check_fvg-find_fvg_example :
    check_fvg (Gaps.Refine.feed Gaps.new 0 (take 10 day)) 345 bull
    ≡ Option.map (report 345 bull 9) (find_fvg (take 10 day) 9 bull)
check_fvg-find_fvg_example = check_fvg-find_fvg 345 bull (take 10 day)

-- The attempt of the gap: entry 920, stop 700.
result-init_example :
    result (
      Attempt.Open.feed half_points
        (Attempt.init half_points long 920 700 9 (last 6 (map_from frame_at 0 (take 10 day))))
        10
        (drop 10 day))
    ≡ search half_points long 920 700 day 10 (drop 10 day)
unfolding Attempt.risk_of
result-init_example = result-init half_points long 920 700 (take 10 day) (drop 10 day) 9

trade_of_day :
    search half_points long 920 700 day 10 (drop 10 day)
    ≡ some (record { target = 1120; fill_bar = 10; exit = some (Attempt.win, 1120) })
unfolding search
trade_of_day = refl

-- The orchestrator over the whole day.
run : Day → ℕ → List Bar → Day
run d i [] = d
run d i (b ∷ bars) = run (on_new_bar half_points d b.time i b.high b.low b.close).0 (suc i) bars

abbrev finished : Day
finished = run (Orchestrator.new up 5 20) 0 day

abbrev decided : Option Trade
decided = some (record {
  direction = long;
  entry = 920;
  stop = 700;
  target = some 1120;
  risk_pips = 11;
  outcome = some Attempt.win;
  exit_price = some 1120;
})

trade_of_orchestrator : (finalize finished 355 1100).0 ≡ decided
unfolding run on_new_bar Orchestrator.new finalize Orchestrator.winner_of Orchestrator.filled_of
    Orchestrator.feed_attempts Orchestrator.feed_watches Orchestrator.frame_of Swings.on_new_bar
    Swings.new Swings.start_new_day Swings.max_of Swings.min_of Raids.on_new_bar Raids.check
    Raids.fold_in Raids.new Raids.start_new_day Gaps.new Gaps.on_new_bar check_fvg Shifts.on_new_bar
    Attempt.on_new_bar Attempt.init Attempt.is_active close_as_scratch last
trade_of_orchestrator = refl

finalize-FirstWins_example : FirstWins finished 355 1100
finalize-FirstWins_example = finalize-FirstWins finished 355 1100

abbrev days : List Bar
days =
    bar 0 100 90 95
    ∷ bar 1 110 92 95
    ∷ bar 2 120 80 95
    ∷ bar 3 110 85 95
    ∷ bar 4 105 90 95
    ∷ bar 5 115 95 95
    ∷ bar 6 130 82 95
    ∷ bar 7 120 90 95
    ∷ bar 8 110 91 95
    ∷ []

trend_of_days : trend_for_today (Gate.Trends.feed Gate.new days) ≡ some up
unfolding trend_for_today Gate.Trends.feed Gate.on_day_closed Gate.new Gate.record_swings
    Gate.last_two Swings.on_new_day Swings.new Swings.max_of Swings.min_of last
trend_of_days = refl

trend-daily_trend_as_of_example :
    (trend_for_today (Gate.Trends.feed Gate.new days)
      ≡ daily_trend_as_of (days ++ bar 9 1000 900 950 ∷ day) 9)
    × (daily_trend_as_of days 9 ≡ none)
trend-daily_trend_as_of_example =
    trend-daily_trend_as_of days (bar 9 1000 900 950) day (ground arith)

gate_for_day-Decided_example :
    Decided
      (1 ∷ [])
      (Gate.Trends.feed Gate.new days)
      0
      (day ++ day)
      (gate_for_day (1 ∷ []) (Gate.Trends.feed Gate.new days) 0 (day ++ day))
gate_for_day-Decided_example =
    gate_for_day-Decided (1 ∷ []) (Gate.Trends.feed Gate.new days) 0 (day ++ day)
