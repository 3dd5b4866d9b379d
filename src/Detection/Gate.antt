-- ===== src/Detection/Gate.antt =====
-- phase1/streaming/day_selection_gate.py: whether today is a day to trade, its trend and the bounds
-- of its Kill Zone. A date is a number of days, a time a number of minutes since the same origin, so
-- that `datetime.combine(date, time(h, m))` is `date * 1440 + h * 60 + m`. The dates of the meetings
-- are an argument (the source's set is a table of data); the warning that the table runs out goes to
-- the log only, and is left out.
pub mod Trends
pub mod Refine
pub mod Session
use the_bot.Common.{
  ℕ, suc, ◌+◌, ◌*◌, Bool, true, false, List, [], ◌∷◌, ◌++◌, Option, none, some, ltb, leb, ◌==◌,
  ◌&&◌, ◌||◌, if◌then◌else◌, length,
}
use the_bot.Common.Floats.{Float}
use the_bot.Common.Deque.{last}
use the_bot.Detection.Bars.{Bar, Trend, up, down}
use the_bot.Detection.Swings as Swings
use the_bot.Detection.Swings.{Kind, Swing, swing_high, swing_low}

-- The confirmed swings are pairs `(day_index, price)`, the newest last.
pub record Gate : Type 0 where
  pub swing_det : Swings.Detector
  pub confirmed_highs : List (ℕ × Float)
  pub confirmed_lows : List (ℕ × Float)
  pub closed_day_count : ℕ

pub data SkipReason : Type 0 where
  fomc no_trend insufficient_bars no_session_start : SkipReason

-- `DaySelectionResult`
pub data Selection : Type 0 where
  skip : SkipReason → Selection
  tradeable : Trend → ℕ → ℕ → Selection

abbrev pub pivot_n : ℕ
pivot_n = 2

abbrev pub min_session_bars : ℕ
min_session_bars = 12

unfoldable pub new : Gate
new = record {
  swing_det = Swings.new pivot_n;
  confirmed_highs = [];
  confirmed_lows = [];
  closed_day_count = 0;
}

unfoldable pub confirmed : Kind → ℕ × Float → Gate → Gate
confirmed swing_high p g = record g { confirmed_highs = g.confirmed_highs ++ p ∷ [] }
confirmed swing_low p g = record g { confirmed_lows = g.confirmed_lows ++ p ∷ [] }

unfoldable pub record_swings : Gate → List Swing → Gate
unfolding confirmed
record_swings g [] = g
record_swings g (e ∷ events) = record_swings (confirmed e.kind (e.index, e.price) g) events

unfoldable pub on_day_closed : Gate → ℕ → Float → Float → Gate × List Swing
on_day_closed g date high low =
    let (det, events) = Swings.on_new_day g.swing_det date high low in
    let g' = record_swings (record g { swing_det = det }) events in
    (record g' { closed_day_count = g.closed_day_count + 1 }, events)

unfoldable pub seed_trend_history : Gate → List (ℕ × Float) → List (ℕ × Float) → Gate
seed_trend_history g highs lows = record g { confirmed_highs = highs; confirmed_lows = lows }

abbrev pub trend_of : Float → Float → Float → Float → Option Trend
trend_of h1 h2 l1 l2 =
    if ltb h1 h2 && ltb l1 l2 then some up else if ltb h2 h1 && ltb l2 l1 then some down else none

-- `xs[-2]` and `xs[-1]`, if there are two.
abbrev pub pair_of {ℓ} : {A : Type ℓ} → List A → Option (A × A)
pair_of (a ∷ b ∷ []) = some (a, b)
pair_of _ = none

unfoldable pub last_two {ℓ} : {A : Type ℓ} → List A → Option (A × A)
last_two xs = pair_of (last 2 xs)

-- From the prices of the last two confirmed highs and of the last two confirmed lows.
abbrev pub trend_from : Option (Float × Float) → Option (Float × Float) → Option Trend
trend_from (some (h1, h2)) (some (l1, l2)) = trend_of h1 h2 l1 l2
trend_from _ _ = none

abbrev pub prices : Option ((ℕ × Float) × (ℕ × Float)) → Option (Float × Float)
prices none = none
prices (some (a, b)) = some (a.1, b.1)

unfoldable pub trend_for_today : Gate → Option Trend
trend_for_today g =
    trend_from (prices (last_two g.confirmed_highs)) (prices (last_two g.confirmed_lows))

-- `date in FOMC_DATES`
unfoldable pub contains : List ℕ → ℕ → Bool
contains [] date = false
contains (d ∷ dates) date = d == date || contains dates date

-- The place of the first bar at or after a time, counted from `i`.
unfoldable pub first_from : ℕ → ℕ → List Bar → Option ℕ
first_from time i [] = none
first_from time i (b ∷ bars) =
    let rest = first_from time (suc i) bars in if leb time b.time then some i else rest

-- `datetime.combine(date, time(hour, 0))`
abbrev pub at_hour : ℕ → ℕ → ℕ
at_hour date hour = date * 1440 + hour * 60

abbrev pub or_length : Option ℕ → List Bar → ℕ
or_length none bars = length bars
or_length (some i) bars = i

unfoldable pub session_of : ℕ → List Bar → Trend → Selection
unfolding first_from
session_of date bars trend = elim (first_from (at_hour date 7) 0 bars) [
  | none ↦ skip no_session_start
  | some start ↦ tradeable trend start (or_length (first_from (at_hour date 10) 0 bars) bars)
]

unfoldable pub gate_for_day : List ℕ → Gate → ℕ → List Bar → Selection
unfolding session_of
gate_for_day fomc_dates g date bars =
    if contains fomc_dates date then skip fomc else elim (trend_for_today g) [
      | none ↦ skip no_trend
      | some trend ↦
          if ltb (length bars) min_session_bars
          then skip insufficient_bars
          else session_of date bars trend
    ]
