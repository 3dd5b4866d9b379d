-- ===== src/Detection/Gaps.antt =====
-- phase1/streaming/fvg_detector.py: the rolling window of three bars and the test for a gap.
pub mod Refine
use the_bot.Common.{ℕ, List, [], ◌∷◌, Option, none, some, ltb, if◌then◌else◌}
use the_bot.Common.Floats.{Float}
use the_bot.Common.Deque.{push}
use the_bot.Detection.Bars.{Side, bull, bear}

-- A tuple `(bar_index, high, low)`.
pub record Frame : Type 0 where
  pub bar_index : ℕ
  pub high : Float
  pub low : Float

pub record GapDetector : Type 0 where
  pub window : List Frame

-- The event `fvg_found`.
pub record Gap : Type 0 where
  pub timestamp : ℕ
  pub side : Side
  pub top : Float
  pub bottom : Float
  pub frame_idx : ℕ
  pub mss_bar_index : ℕ

unfoldable pub new : GapDetector
new = record { window = [] }

unfoldable pub on_new_bar : GapDetector → ℕ → Float → Float → GapDetector
on_new_bar d bar_index high low = record d {
  window = push 3 d.window (record { bar_index = bar_index; high = high; low = low });
}

unfoldable pub gap_of : ℕ → Side → List Frame → Option Gap
gap_of timestamp bear (ago ∷ mid ∷ now ∷ []) =
    if ltb now.high ago.low
    then some (record {
      timestamp = timestamp;
      side = bear;
      top = ago.low;
      bottom = now.high;
      frame_idx = ago.bar_index;
      mss_bar_index = now.bar_index;
    })
    else none
gap_of timestamp bull (ago ∷ mid ∷ now ∷ []) =
    if ltb ago.high now.low
    then some (record {
      timestamp = timestamp;
      side = bull;
      top = now.low;
      bottom = ago.high;
      frame_idx = ago.bar_index;
      mss_bar_index = now.bar_index;
    })
    else none
gap_of timestamp side _ = none

unfoldable pub check_fvg : GapDetector → ℕ → Side → Option Gap
unfolding gap_of
check_fvg d timestamp side = gap_of timestamp side d.window
