-- ===== src/Detection/Shifts/Refine.antt =====
-- The watch against the bounded loop of phase1/extract_golden_master.py.
use the_bot.Common.{
  ℕ, Bool, ltb, suc, ◌+◌, ◌-◌, List, [], ◌∷◌, ◌++◌, min, Option, none, some, if◌then◌else◌, length,
  get_elem?, range, flat_map,
}
use the_bot.Common.Floats.{Float}
use the_bot.Detection.Bars.{Bar, Side, bull, bear}
use the_bot.Detection.Shifts.{Watch, Shift, on_new_bar}

-- `closes[j] > recent_high_level` and `closes[j] < recent_low_level`
abbrev pub crossed : Side → Float → Float → Bool
crossed bull close level = ltb level close
crossed bear close level = ltb close level

-- The body of the loop at `j`, of which the bar is given.
unfoldable pub shift : Watch → ℕ → Option Bar → List Shift
shift w j none = []
shift w j (some b) =
    if crossed w.side b.close w.reference_level
    then record {
      timestamp = b.time;
      side = w.side;
      level = w.reference_level;
      close = b.close;
      raid_bar_index = w.raid_bar_index;
      mss_bar_index = j;
    }
      ∷ []
    else []

-- `for j in range(i + 1, min(i + 10, n))`, where `i` is the raid's bar.
unfoldable pub shifts : Watch → List Bar → List Shift
unfolding shift
shifts w bars =
    let i = w.raid_bar_index in
    flat_map (λ j. shift w j (get_elem? bars j))
      (range (i + 1) (min (i + 10) (length bars) - (i + 1)))

-- The events of a watch that is shown every bar of the day, each with its place in the day.
unfoldable pub feed : Watch → ℕ → List Bar → List Shift
feed w i [] = []
feed w i (b ∷ bars) = on_new_bar w b.time i b.close ++ feed w (suc i) bars

abbrev shown : Watch → ℕ → Option Bar → List Shift
shown w j none = []
shown w j (some b) = on_new_bar w b.time j b.close
