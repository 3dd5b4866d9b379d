-- ===== src/Detection/Raids/Batch.antt =====
-- The raids of phase1/extract_golden_master.py: a bisection in the day's lists of pivots.
use mathlib.Core.Option
use the_bot.Common.{
  ℕ, ◌-◌, Bool, true, false, ◌||◌, suc, List, [], ◌∷◌, Option, none, some, ltb, leb, ◌==◌,
  if◌then◌else◌, get_elem?,
}
use the_bot.Common.Floats.{Float}
use the_bot.Detection.Bars.{Bar, Trend, up, down, bull, bear}
use the_bot.Detection.Swings.{swing_n, level_of, Kind, swing_high, swing_low, Swing}
use the_bot.Detection.Swings.Batch.{pivots}
use the_bot.Detection.Raids.{Raid}

abbrev pub same_kind : Kind → Kind → Bool
same_kind swing_high swing_high = true
same_kind swing_low swing_low = true
same_kind _ _ = false

-- `piv_high_all` and `piv_low_all`: the positions of the pivots of one kind.
unfoldable pub positions : Kind → List Swing → List ℕ
positions k [] = []
positions k (e ∷ events) =
    let rest = positions k events in if same_kind k e.kind then e.index ∷ rest else rest

-- Python's `bisect.bisect_left` on a list in increasing order.
unfoldable pub bisect_left : List ℕ → ℕ → ℕ
bisect_left [] x = 0
bisect_left (y ∷ ys) x = let rest = bisect_left ys x in if ltb y x then suc rest else 0

-- `highs[piv[pos - 1]]` or `lows[piv[pos - 1]]`
unfoldable pub level_at : Kind → List Bar → List ℕ → ℕ → Option Float
level_at kind bars piv pos = elim (get_elem? piv (pos - 1)) [
  | none ↦ none
  | some k ↦ Option.map (level_of kind) (get_elem? bars k)
]

unfoldable pub raid_of : Trend → ℕ → Option Bar → Option Float → Option Float → Option Raid
raid_of up i (some b) (some high_level) (some low_level) =
    if leb low_level b.low
    then none
    else some (record {
      timestamp = b.time;
      side = bull;
      raid_level = low_level;
      raid_bar_extreme = b.low;
      bar_index = i;
      mss_reference_level = high_level;
    })
raid_of down i (some b) (some high_level) (some low_level) =
    if leb b.high high_level
    then none
    else some (record {
      timestamp = b.time;
      side = bear;
      raid_level = high_level;
      raid_bar_extreme = b.high;
      bar_index = i;
      mss_reference_level = low_level;
    })
raid_of trend i _ _ _ = none

-- The raid at bar `i`, if there is one.
unfoldable pub raid_at : Trend → List Bar → ℕ → Option Raid
raid_at trend bars i =
    let piv_high = positions swing_high (pivots swing_n bars) in
    let piv_low = positions swing_low (pivots swing_n bars) in
    let ph_pos = bisect_left piv_high (i - swing_n) in
    let pl_pos = bisect_left piv_low (i - swing_n) in
    if pl_pos == 0 || ph_pos == 0
    then none
    else raid_of trend i (get_elem? bars i) (level_at swing_high bars piv_high ph_pos)
        (level_at swing_low bars piv_low pl_pos)
