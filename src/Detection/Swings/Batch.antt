-- ===== src/Detection/Swings/Batch.antt =====
-- The batch program's pivots: the loops of phase1/extract_golden_master.py over the whole array.
use the_bot.Common.{
  ℕ, ◌-◌, ◌*◌, List, [], ◌∷◌, ◌++◌, map, Option, none, some, ◌==◌, if◌then◌else◌, length, get_elem?,
  take, drop, range, flat_map,
}
use the_bot.Detection.Bars.{Bar}
use the_bot.Detection.Swings.{Swing, swing_high, swing_low, maxlen, max_of, min_of}

-- The body of the loop at position `k`, of which the bar is `b`, over the slice around it.
unfoldable pub pivot : List Bar → ℕ → Option Bar → List Swing
pivot slice k none = []
pivot slice k (some b) =
    (if b.high == max_of (map (λ (x : Bar). x.high) slice)
      then record { kind = swing_high; timestamp = b.time; price = b.high; index = k } ∷ []
      else [])
    ++ (if b.low == min_of (map (λ (x : Bar). x.low) slice)
        then record { kind = swing_low; timestamp = b.time; price = b.low; index = k } ∷ []
        else [])

-- At `k` the slice is `[k - n : k + n + 1]`.
unfoldable pub pivot_at : ℕ → List Bar → ℕ → List Swing
pivot_at n bars k = pivot (take (maxlen n) (drop (k - n) bars)) k (get_elem? bars k)

-- `for k in range(n, len(bars) - n)`
unfoldable pub pivots : ℕ → List Bar → List Swing
pivots n bars = flat_map (pivot_at n bars) (range n (length bars - 2 * n))
