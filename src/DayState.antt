-- ===== src/DayState.antt =====
-- shadow_runner/day_state.py: what the runner knows of the day in progress. The fields that only the
-- runner sets once it has decided (the orchestrator, the order managers, the events) are left out.
pub mod Final
mod Tests
use the_bot.Common.{
  ℕ, ◌-◌, ◌*◌, ◌/◌, min, max, Bool, true, false, not, ◌&&◌, List, [], ◌∷◌, Option, none, some, ltb,
  leb, ◌==◌, if◌then◌else◌,
}
use the_bot.Common.Floats.{Float}
use the_bot.Detection.Bars.{Bar}

pub record CurrentDay : Type 0 where
  pub date : ℕ
  pub bars : List Bar
  pub day_high : Option Float
  pub day_low : Option Float
  pub last_bar_seen : Option Bar
  pub decided : Bool

-- `time_ny.time()`, in minutes
abbrev pub time_of : Bar → ℕ
time_of b = b.time - b.time / 1440 * 1440

abbrev pub session_window_start : ℕ
session_window_start = 300

abbrev pub session_window_end : ℕ
session_window_end = 1020

abbrev pub decision_ready_time : ℕ
decision_ready_time = 600

abbrev pub highest : Option Float → Float → Option Float
highest none h = some h
highest (some x) h = some (max x h)

abbrev pub lowest : Option Float → Float → Option Float
lowest none l = some l
lowest (some x) l = some (min x l)

unfoldable pub update_daily_range : CurrentDay → Bar → CurrentDay
update_daily_range d b = record d {
  day_high = highest d.day_high b.high;
  day_low = lowest d.day_low b.low;
  last_bar_seen = some b;
}

unfoldable pub is_session_bar : Bar → Bool
is_session_bar b = leb session_window_start (time_of b) && ltb (time_of b) session_window_end

-- `self.bars[-1]`
abbrev pub last_bar : List Bar → Option Bar
last_bar [] = none
last_bar (b ∷ []) = some b
last_bar (b ∷ c ∷ rest) = last_bar (c ∷ rest)

abbrev pub is_late : Option Bar → Bool
is_late none = false
is_late (some b) = leb decision_ready_time (time_of b)

unfoldable pub ready_to_decide : CurrentDay → Bool
ready_to_decide d = not d.decided && is_late (last_bar d.bars)

abbrev pub find_time : ℕ → List Bar → Option Bar
find_time timestamp [] = none
find_time timestamp (b ∷ rest) = if b.time == timestamp then some b else find_time timestamp rest

unfoldable pub find_bar_by_time_ny : CurrentDay → ℕ → Option Bar
find_bar_by_time_ny d timestamp = find_time timestamp d.bars
