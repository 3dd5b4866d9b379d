-- ===== src/Detection/Raids/Refine.antt =====
-- The raid detector, fed together with the intraday swing detector as `DayOrchestrator` feeds the
-- two, against the raids of phase1/extract_golden_master.py.
use the_bot.Common.{
  ℕ, suc, ◌≡◌, Bool, ◌&&◌, List, [], ◌∷◌, ◌++◌, none, ltb, leb, if◌then◌else◌, to_list,
}
use the_bot.Detection.Bars.{Bar, Trend}
use the_bot.Detection.Swings as Swings
use the_bot.Detection.Swings.{swing_high, swing_low, Swing, Detector}
use the_bot.Detection.Raids.{RaidDetector, Raid, on_new_bar}
use the_bot.Detection.Raids.Batch.{raid_at}
use the_bot.Detection.Raids.Latest.{latest_from}

-- The Kill Zone's test on the place of a bar.
abbrev pub in_kill_zone : ℕ → ℕ → ℕ → Bool
in_kill_zone start end i = leb start i && ltb i end

unfoldable pub feed : Detector → RaidDetector → Trend → ℕ → ℕ → ℕ → List Bar → List Raid
feed d r trend start end i [] = []
feed d r trend start end i (b ∷ bars) =
    let (d', swings) = Swings.on_new_bar d b.time b.high b.low in
    let (r', raids) = on_new_bar r b.time i b.high b.low trend (in_kill_zone start end i) swings in
    raids ++ feed d' r' trend start end (suc i) bars

-- The detector holds the latest of the swings that `events` confirm.
pub record Tracks (events : List Swing) (r : RaidDetector) : Type 0 where
  pub high : r.latest_high ≡ latest_from swing_high none events
  pub low : r.latest_low ≡ latest_from swing_low none events

module _ (trend : Trend) (start end : ℕ) where
  -- What the detector returns for the bar at `i` of a whole day.
  abbrev expected : List Bar → ℕ → List Raid
  expected bars i = if in_kill_zone start end i then to_list (raid_at trend bars i) else []
