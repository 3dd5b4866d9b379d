-- ===== src/Detection/Attempt/Batch.antt =====
-- The search for a fill and for the trade's exit in phase1/extract_golden_master.py (the loops over
-- `p` and `q`), for the long and the short half of the program.
use the_bot.Common.{
  ℕ, Bool, not, suc, ◌+◌, ◌-◌, List, [], ◌∷◌, map, Option, none, some, ltb, leb, if◌then◌else◌,
  get_elem?, take, drop,
}
use the_bot.Common.Floats.{Float, Arith}
use the_bot.Detection.Bars.{Bar, Direction, long, short}
use the_bot.Detection.Attempt.{Outcome, loss, win}

-- `np.argmax` and `np.argmin`: the first place of the extreme value.
abbrev pub argmax_from : ℕ → Float → ℕ → List Float → ℕ
argmax_from at best i [] = at
argmax_from at best i (x ∷ xs) =
    argmax_from (if ltb best x then i else at) (if ltb best x then x else best) (suc i) xs

abbrev pub argmin_from : ℕ → Float → ℕ → List Float → ℕ
argmin_from at best i [] = at
argmin_from at best i (x ∷ xs) =
    argmin_from (if ltb x best then i else at) (if ltb x best then x else best) (suc i) xs

unfoldable pub argmax : List Float → ℕ
argmax [] = 0
argmax (x ∷ xs) = argmax_from 0 x 1 xs

unfoldable pub argmin : List Float → ℕ
argmin [] = 0
argmin (x ∷ xs) = argmin_from 0 x 1 xs

-- `extreme_rel_idx`: the extreme bar of a window.
unfoldable pub extreme_rel_idx : Direction → List Bar → ℕ
unfolding argmax argmin
extreme_rel_idx long window = argmax (map (λ (b : Bar). b.high) window)
extreme_rel_idx short window = argmin (map (λ (b : Bar). b.low) window)

-- The loop over `q`: the first bar that reaches the stop or the target.
unfoldable pub exit_from : Direction → Float → Float → List Bar → Option (Outcome × Float)
exit_from direction stop target [] = none
exit_from long stop target (b ∷ bars) =
    let rest = exit_from long stop target bars in
    if leb b.low stop
    then some (loss, stop)
    else if leb target b.high
    then some (win, target)
    else rest
exit_from short stop target (b ∷ bars) =
    let rest = exit_from short stop target bars in
    if leb stop b.high
    then some (loss, stop)
    else if leb b.low target
    then some (win, target)
    else rest

-- A fill that the search found: the target, the bar of the fill, and the exit, if one was reached.
pub record Found : Type 0 where
  pub target : Float
  pub fill_bar : ℕ
  pub exit : Option (Outcome × Float)

-- `lows[p] <= entry_price` and `highs[p] >= entry_price`
abbrev pub reaches : Direction → Float → Bar → Bool
reaches long entry b = leb b.low entry
reaches short entry b = leb entry b.high

-- The negations of `target <= entry_price` and of `target >= entry_price`.
abbrev pub beyond_entry : Direction → Float → Float → Bool
beyond_entry long target entry = not (leb target entry)
beyond_entry short target entry = not (leb entry target)

module _ (fl : Arith) where
  -- The target at the bar `p`, from the window `[p - 6 : p]` of the whole day.
  unfoldable pub target_at : Direction → List Bar → ℕ → Option Float
  unfolding extreme_rel_idx
  target_at direction day p =
      let window = take 6 (drop (p - 6) day) in
      elim (get_elem? day (p - 6 + extreme_rel_idx direction window)) [
        | none ↦ none
        | some b ↦ some (fl.div (fl.add b.high b.low) fl.two)
      ]

  -- What follows the first touch, at the bar `p`; `bars` are those from `p` on.
  unfoldable pub at_touch :
      Direction → Float → Float → List Bar → ℕ → List Bar → Option Float → Option Found
  unfolding exit_from
  at_touch direction entry stop day p bars none = none
  at_touch direction entry stop day p bars (some target) =
      if ltb p 6
      then none
      else if beyond_entry direction target entry
      then some
          (record { target = target; fill_bar = p; exit = exit_from direction stop target bars })
      else none

  -- The loop over `p`, from the bars that are left: only the first touch is ever tried.
  unfoldable pub search : Direction → Float → Float → List Bar → ℕ → List Bar → Option Found
  unfolding at_touch target_at
  search direction entry stop day p [] = none
  search direction entry stop day p (b ∷ bars) =
      let rest = search direction entry stop day (suc p) bars in
      if reaches direction entry b
      then at_touch direction entry stop day p (b ∷ bars) (target_at direction day p)
      else rest
