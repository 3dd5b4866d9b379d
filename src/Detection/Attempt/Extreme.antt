-- ===== src/Detection/Attempt/Extreme.antt =====
-- The extreme bar of a window: the streaming code's `max(…, key=…)` over frames, and the batch
-- program's `np.argmax` over an array of prices.
use native.Mathlib.Nat.{add-zero, add-suc, suc-add, zero-add}
use the_bot.Common.{
  ℕ, suc, ◌+◌, ◌≡◌, refl, List, [], ◌∷◌, map, some, ltb, length, ◌<◌, get_elem?, map_from, inl, inr,
  Bool-cases,
}
use the_bot.Common.Floats.{Float}
use the_bot.Detection.Bars.{Bar, Direction, long, short}
use the_bot.Detection.Gaps.{Frame}
use the_bot.Detection.Gaps.Refine.{frame_at}
use the_bot.Detection.Attempt.{highest_from, lowest_from, extreme}
use the_bot.Detection.Attempt.Batch.{argmax_from, argmin_from, extreme_rel_idx}

-- The frame is made from the bar at `i` of the window.
abbrev pub IsAt : List Bar → ℕ → Frame → Type 0
IsAt window i f = (b : Bar) × (get_elem? window i ≡ some b) × (f.high ≡ b.high) × (f.low ≡ b.low)

abbrev highs : List Bar → List Float
highs = map (λ (b : Bar). b.high)

abbrev lows : List Bar → List Float
lows = map (λ (b : Bar). b.low)

tail_at :
    (window : List Bar) (i : ℕ) (b : Bar) (rest : List Bar)
    → ((j : ℕ) → get_elem? window (i + j) ≡ get_elem? (b ∷ rest) j)
    → (get_elem? window i ≡ some b) × ((j : ℕ) → get_elem? window (suc i + j) ≡ get_elem? rest j)
tail_at window i b rest h = (rw add-zero at (h 0), λ j. rw (suc-add, ← add-suc) (h (suc j)))

highest-IsAt :
    (window : List Bar) (s at i : ℕ) (best : Frame) (rest : List Bar)
    → IsAt window at best
    → ((j : ℕ) → get_elem? window (i + j) ≡ get_elem? rest j)
    → IsAt window
        (argmax_from at best.high i (highs rest))
        (highest_from best (map_from frame_at s rest))
highest-IsAt window s at i best [] found h = found
highest-IsAt window s at i best (b ∷ rest) found h =
    let (here, after) = tail_at window i b rest h in
    elim (Bool-cases (ltb best.high b.high)) [
      | inl more ↦
          rw (more, argmax_from, highest_from)
            (highest-IsAt window (suc s) i (suc i) (frame_at s b) rest (b, here, refl, refl) after)
      | inr less ↦
          rw (less, argmax_from, highest_from)
            (highest-IsAt window (suc s) at (suc i) best rest found after)
    ]

lowest-IsAt :
    (window : List Bar) (s at i : ℕ) (best : Frame) (rest : List Bar)
    → IsAt window at best
    → ((j : ℕ) → get_elem? window (i + j) ≡ get_elem? rest j)
    → IsAt window
        (argmin_from at best.low i (lows rest))
        (lowest_from best (map_from frame_at s rest))
lowest-IsAt window s at i best [] found h = found
lowest-IsAt window s at i best (b ∷ rest) found h =
    let (here, after) = tail_at window i b rest h in
    elim (Bool-cases (ltb b.low best.low)) [
      | inl more ↦
          rw (more, argmin_from, lowest_from)
            (lowest-IsAt window (suc s) i (suc i) (frame_at s b) rest (b, here, refl, refl) after)
      | inr less ↦
          rw (less, argmin_from, lowest_from)
            (lowest-IsAt window (suc s) at (suc i) best rest found after)
    ]

-- Over a window that is not empty both pick the bar at one place.
pub extreme-IsAt :
    (direction : Direction) (s : ℕ) (window : List Bar)
    → 0 < length window
    → (f : Frame) × (extreme direction (map_from frame_at s window) ≡ some f)
      × IsAt window (extreme_rel_idx direction window) f
unfolding extreme extreme_rel_idx
extreme-IsAt direction s [] h = elim h [ ]
extreme-IsAt long s (b ∷ rest) h = (
  _,
  refl,
  highest-IsAt (b ∷ rest) (suc s) 0 1 (frame_at s b) rest (b, refl, refl, refl)
      (λ j. rw (suc-add, zero-add)),
)
extreme-IsAt short s (b ∷ rest) h = (
  _,
  refl,
  lowest-IsAt (b ∷ rest) (suc s) 0 1 (frame_at s b) rest (b, refl, refl, refl)
      (λ j. rw (suc-add, zero-add)),
)
