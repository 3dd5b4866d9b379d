-- ===== src/Detection/Bars.antt =====
-- What the detectors are fed: bars with a time stamp, as the bridge delivers them. Time stamps are
-- minutes, and no detector looks at them.
use the_bot.Common.{ℕ}
use the_bot.Common.Floats.{Float}

pub record Bar : Type 0 where
  pub time : ℕ
  pub high : Float
  pub low : Float
  pub close : Float

-- The daily trend; the side of a raid, of a shift and of a gap; the direction of a trade.
pub data Trend : Type 0 where
  up down : Trend

pub data Side : Type 0 where
  bull bear : Side

pub data Direction : Type 0 where
  long short : Direction
