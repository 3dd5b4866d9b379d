-- ===== src/Detection/Swings.antt =====
-- phase1/streaming/daily_swing_detector.py and phase1/streaming/intraday_swing_detector.py.
-- The two classes have one body; the second one also starts anew every day. `next_index` is the
-- source's `_day_index + 1` (`_bar_index + 1`), which is never negative.
pub mod Batch
pub mod Refine
pub mod Known
use the_bot.Common.{
  ℕ, ◌+◌, ◌*◌, List, [], ◌∷◌, ◌++◌, map, Option, none, some, max, min, ltb, ◌==◌, if◌then◌else◌,
  length, get_elem?,
}
use the_bot.Common.Floats.{Float}
use the_bot.Common.Deque.{push}
use the_bot.Detection.Bars.{Bar}

pub data Kind : Type 0 where
  swing_high swing_low : Kind

-- The event of a confirmed swing: `index` is its `day_index` or `bar_index`.
pub record Swing : Type 0 where
  pub kind : Kind
  pub timestamp : ℕ
  pub price : Float
  pub index : ℕ

pub record Entry : Type 0 where
  pub index : ℕ
  pub timestamp : ℕ
  pub high : Float
  pub low : Float

pub record Detector : Type 0 where
  pub pivot_n : ℕ
  pub window : List Entry
  pub next_index : ℕ

abbrev max_from : Float → List Float → Float
max_from m [] = m
max_from m (x ∷ xs) = max_from (max m x) xs

abbrev min_from : Float → List Float → Float
min_from m [] = m
min_from m (x ∷ xs) = min_from (min m x) xs

-- Python's `max` and `min` of a list. They raise on an empty one, which a full window is not.
unfoldable pub max_of : List Float → Float
max_of [] = 0
max_of (x ∷ xs) = max_from x xs

unfoldable pub min_of : List Float → Float
min_of [] = 0
min_of (x ∷ xs) = min_from x xs

-- `SWING_N` and `PIVOT_N` of the program.
abbrev pub swing_n : ℕ
swing_n = 2

-- `highs[k]` or `lows[k]`
abbrev pub level_of : Kind → Bar → Float
level_of swing_high b = b.high
level_of swing_low b = b.low

-- The capacity of the window, `2 * pivot_n + 1`.
abbrev pub maxlen : ℕ → ℕ
maxlen n = 2 * n + 1

unfoldable pub new : ℕ → Detector
new n = record { pivot_n = n; window = []; next_index = 0 }

-- The events for the candidate in the middle of a full window.
unfoldable pub confirm : Option Entry → List Entry → List Swing
confirm none window = []
confirm (some c) window =
    (if c.high == max_of (map (λ (e : Entry). e.high) window)
      then record { kind = swing_high; timestamp = c.timestamp; price = c.high; index = c.index }
        ∷ []
      else [])
    ++ (if c.low == min_of (map (λ (e : Entry). e.low) window)
        then record { kind = swing_low; timestamp = c.timestamp; price = c.low; index = c.index }
          ∷ []
        else [])

unfoldable pub on_new_day : Detector → ℕ → Float → Float → Detector × List Swing
unfolding confirm
on_new_day d timestamp high low =
    let n = d.pivot_n in
    let entry : Entry = record {
      index = d.next_index;
      timestamp = timestamp;
      high = high;
      low = low;
    } in
    let window = push (maxlen n) d.window entry in
    (
      record d { window = window; next_index = d.next_index + 1 },
      if ltb (length window) (maxlen n) then [] else confirm (get_elem? window n) window,
    )

-- `IntradaySwingDetector.on_new_bar` is `DailySwingDetector.on_new_day` at another unit of time.
unfoldable pub on_new_bar : Detector → ℕ → Float → Float → Detector × List Swing
unfolding on_new_day
on_new_bar d timestamp high low = on_new_day d timestamp high low

unfoldable pub start_new_day : Detector → Detector
start_new_day d = record d { window = []; next_index = 0 }
