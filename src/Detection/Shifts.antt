-- ===== src/Detection/Shifts.antt =====
-- phase1/streaming/mss_watch.py: the watch that one raid starts.
pub mod Refine
use the_bot.Common.{ℕ, ◌+◌, Bool, ◌||◌, List, [], ◌∷◌, ltb, leb, if◌then◌else◌}
use the_bot.Common.Floats.{Float}
use the_bot.Detection.Bars.{Side, bull, bear}

pub record Watch : Type 0 where
  pub raid_bar_index : ℕ
  pub side : Side
  pub reference_level : Float

-- The event `mss_confirmed`.
pub record Shift : Type 0 where
  pub timestamp : ℕ
  pub side : Side
  pub level : Float
  pub close : Float
  pub raid_bar_index : ℕ
  pub mss_bar_index : ℕ

abbrev pub mss_window_bars : ℕ
mss_window_bars = 9

unfoldable pub is_expired : Watch → ℕ → Bool
is_expired w bar_index = ltb (w.raid_bar_index + mss_window_bars) bar_index

-- `close` lies beyond the reference level, on the watch's side.
abbrev pub beyond : Side → Float → Float → Bool
beyond bull close level = ltb level close
beyond bear close level = ltb close level

unfoldable pub on_new_bar : Watch → ℕ → ℕ → Float → List Shift
unfolding is_expired
on_new_bar w timestamp bar_index close =
    if leb bar_index w.raid_bar_index || is_expired w bar_index
    then []
    else if beyond w.side close w.reference_level
    then record {
      timestamp = timestamp;
      side = w.side;
      level = w.reference_level;
      close = close;
      raid_bar_index = w.raid_bar_index;
      mss_bar_index = bar_index;
    }
      ∷ []
    else []
