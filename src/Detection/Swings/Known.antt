-- ===== src/Detection/Swings/Known.antt =====
-- What is known of a day's swings when some of its bars have come, and where a swing stands.
use mathlib.Core.Option
use native.Mathlib.Nat.{zero-add}
use the_bot.Common.{
  ℕ, suc, ◌+◌, ◌≤◌, ◌<◌, ◌≡◌, refl, ap, ◌∙◌, List, [], ◌∷◌, ◌++◌, append_assoc, append-nil, Option,
  none, some, arith, map, ◌==◌, if◌then◌else◌, length, get_elem?, length-append, range,
  range-append, flat_map, flat_map-append, All, All-append, All-if, All-flat_map-range,
}
use the_bot.Detection.Bars.{Bar}
use the_bot.Detection.Swings.{Swing, swing_n, level_of, max_of}
use the_bot.Detection.Swings.Batch.{pivot, pivot_at}
use the_bot.Detection.Swings.Refine.{known_at, known_at-append}

-- The swings that are known before the bar at `t`.
unfoldable pub known : List Bar → ℕ → List Swing
known bars t = flat_map (known_at swing_n bars) (range 0 t)

pub known-suc :
    (past : List Bar) (b : Bar) (bars : List Bar)
    → known (past ++ b ∷ bars) (suc (length past))
      ≡ known (past ++ b ∷ bars) (length past) ++ known_at swing_n (past ++ b ∷ []) (length past)
unfolding known
known-suc past b bars =
    let all = past ++ b ∷ bars in
    let now = past ++ b ∷ [] in
    let t = length past in
    let f = known_at swing_n all in
    let joined : now ++ bars ≡ all = append_assoc past (b ∷ []) bars in
    let size : t < length now = omega (arith, length-append past (b ∷ [])) in
    let newest : f t ≡ known_at swing_n now t =
      rw joined at (known_at-append swing_n now bars t size) in
    ap (λ m. flat_map f (range 0 m)) (let e : suc t ≡ t + 1 = omega arith in e)
    ∙ ap (flat_map f) (range-append 0 t 1 ∙ rw zero-add)
    ∙ flat_map-append f (range 0 t) (t ∷ [])
    ∙ ap (λ l. known all t ++ l) (append-nil (f t) ∙ newest)

-- A pivot's price is that of its bar, and its position lies in the range of the loop.
abbrev pub Fits : List Bar → ℕ → ℕ → Swing → Type 0
Fits bars lo hi e =
    (lo ≤ e.index)
    × (e.index < hi)
    × (Option.map (level_of e.kind) (get_elem? bars e.index) ≡ some e.price)

module _ (bars slice : List Bar) (lo hi k : ℕ) where
  pivot-Fits :
      (o : Option Bar)
      → get_elem? bars k ≡ o
      → lo ≤ k
      → k < hi
      → All (Fits bars lo hi) (pivot slice k o)
  unfolding pivot
  pivot-Fits none at p q = tt
  pivot-Fits (some b) at p q =
      All-append (Fits bars lo hi)
        (if b.high == max_of (map (λ (x : Bar). x.high) slice) then _ ∷ [] else []) _
        (All-if (Fits bars lo hi) _ _ (p, q, rw at)) (All-if (Fits bars lo hi) _ _ (p, q, rw at))

pub pivots-Fits :
    (bars : List Bar) (s m : ℕ)
    → All (Fits bars s (s + m)) (flat_map (pivot_at swing_n bars) (range s m))
unfolding pivot_at
pivots-Fits bars s m =
    All-flat_map-range (Fits bars s (s + m)) (pivot_at swing_n bars) s m
      (λ j p q. pivot-Fits bars _ s (s + m) j (get_elem? bars j) refl p q)
