-- ===== src/Detection/Raids.antt =====
-- phase1/streaming/raid_detector.py: raids against the latest confirmed intraday swings.
pub mod Batch
pub mod Latest
pub mod Refine
use the_bot.Common.{ℕ, Bool, List, [], ◌∷◌, Option, none, some, ltb, if◌then◌else◌}
use the_bot.Common.Floats.{Float}
use the_bot.Detection.Bars.{Trend, up, down, Side, bull, bear}
use the_bot.Detection.Swings.{Kind, swing_high, swing_low, Swing}

-- A pair `(bar_index, price)`.
pub record Level : Type 0 where
  pub bar_index : ℕ
  pub price : Float

pub record RaidDetector : Type 0 where
  pub latest_high : Option Level
  pub latest_low : Option Level

-- The event `raid_detected`: `raid_bar_extreme` is its `raid_bar_low` or `raid_bar_high`.
pub record Raid : Type 0 where
  pub timestamp : ℕ
  pub side : Side
  pub raid_level : Float
  pub raid_bar_extreme : Float
  pub bar_index : ℕ
  pub mss_reference_level : Float

unfoldable pub new : RaidDetector
new = record { latest_high = none; latest_low = none }

unfoldable pub start_new_day : RaidDetector → RaidDetector
start_new_day d = record d { latest_high = none; latest_low = none }

-- The check of one bar in the Kill Zone, against the latest swing high and the latest swing low.
unfoldable pub check : ℕ → ℕ → Float → Float → Trend → Option Level → Option Level → List Raid
check timestamp bar_index high low up (some h) (some l) =
    if ltb low l.price
    then record {
      timestamp = timestamp;
      side = bull;
      raid_level = l.price;
      raid_bar_extreme = low;
      bar_index = bar_index;
      mss_reference_level = h.price;
    }
      ∷ []
    else []
check timestamp bar_index high low down (some h) (some l) =
    if ltb h.price high
    then record {
      timestamp = timestamp;
      side = bear;
      raid_level = h.price;
      raid_bar_extreme = high;
      bar_index = bar_index;
      mss_reference_level = l.price;
    }
      ∷ []
    else []
check timestamp bar_index high low trend _ _ = []

-- One confirmation becomes the latest of its kind.
unfoldable pub confirmed : Kind → Level → RaidDetector → RaidDetector
confirmed swing_high level d = record d { latest_high = some level }
confirmed swing_low level d = record d { latest_low = some level }

unfoldable pub fold_in : RaidDetector → List Swing → RaidDetector
unfolding confirmed
fold_in d [] = d
fold_in d (e ∷ events) =
    fold_in (confirmed e.kind (record { bar_index = e.index; price = e.price }) d) events

-- The check sees the swings of earlier bars only: the new ones are folded in after it.
unfoldable pub on_new_bar :
    RaidDetector → ℕ → ℕ → Float → Float → Trend → Bool → List Swing → RaidDetector × List Raid
on_new_bar d timestamp bar_index high low trend in_kill_zone new_swing_events = (
  fold_in d new_swing_events,
  if in_kill_zone then check timestamp bar_index high low trend d.latest_high d.latest_low else [],
)
