-- ===== src/Orders/Target.antt =====
-- `compute_target` of shadow_runner/order_manager.py, and that it is the target that
-- phase1/streaming/trade_attempt.py computes from the same bars.
use the_bot.Common.{
  ℕ, suc, ◌≡◌, refl, ◌∙◌, ap, ap₂, sym, Option, none, some, List, [], ◌∷◌, map_from, length, ltb,
  ltb→lt, le→ltb, length-map_from, if◌then◌else◌, drop, Bool-cases, inl, inr, ◌⊎◌, ◌<◌, arith, true,
  false, ◌-◌, ◌≤◌,
}
use the_bot.Common.Floats.{Float, Arith}
use the_bot.Common.Deque.{last, last-map_from, length-last}
use the_bot.Detection.Bars.{Bar, Direction, long, short}
use the_bot.Detection.Gaps.{Frame}
use the_bot.Detection.Gaps.Refine.{frame_at}
use the_bot.Detection.Attempt.{
  mid, extreme, highest_from, lowest_from, target_lookback_bars, Attempt, Status, Event, Outcome,
  closed_with, check_close, exit_of, filled, valid, touched, touch, fill, on_pending,
}
use the_bot.Orders.Broker.{Reply, raised, returned, value_error}

-- `max(window, key=…["high"])` and `min(window, key=…["low"])`
abbrev pub highest_bar : Bar → List Bar → Bar
highest_bar best [] = best
highest_bar best (b ∷ bars) = highest_bar (if ltb best.high b.high then b else best) bars

abbrev pub lowest_bar : Bar → List Bar → Bar
lowest_bar best [] = best
lowest_bar best (b ∷ bars) = lowest_bar (if ltb b.low best.low then b else best) bars

abbrev pub extreme_bar : Direction → List Bar → Option Bar
extreme_bar direction [] = none
extreme_bar long (b ∷ bars) = some (highest_bar b bars)
extreme_bar short (b ∷ bars) = some (lowest_bar b bars)

module _ (fl : Arith) where
  abbrev pub midpoint : Option Bar → Reply Float
  midpoint none = raised value_error
  midpoint (some b) = returned (mid fl b.high b.low)

  unfoldable pub compute_target : List Bar → Direction → Reply Float
  compute_target bars direction =
      if ltb (length bars) target_lookback_bars
      then raised value_error
      else midpoint (extreme_bar direction (last target_lookback_bars bars))

abbrev Same : Frame → Bar → Type 0
Same f b = (f.high ≡ b.high) × (f.low ≡ b.low)

highest-Same :
    (s : ℕ) (f : Frame) (b : Bar) (bars : List Bar)
    → Same f b
    → Same (highest_from f (map_from frame_at s bars)) (highest_bar b bars)
highest-Same s f b [] h = h
highest-Same s f b (c ∷ bars) h = elim (Bool-cases (ltb b.high c.high)) [
  | inl more ↦
      let more' : ltb f.high c.high ≡ true = rw h.0 more in
      rw (more, more', highest_from, highest_bar)
        (highest-Same (suc s) (frame_at s c) c bars (refl, refl))
  | inr less ↦
      let less' : ltb f.high c.high ≡ false = rw h.0 less in
      rw (less, less', highest_from, highest_bar) (highest-Same (suc s) f b bars h)
]

lowest-Same :
    (s : ℕ) (f : Frame) (b : Bar) (bars : List Bar)
    → Same f b
    → Same (lowest_from f (map_from frame_at s bars)) (lowest_bar b bars)
lowest-Same s f b [] h = h
lowest-Same s f b (c ∷ bars) h = elim (Bool-cases (ltb c.low b.low)) [
  | inl more ↦
      let more' : ltb c.low f.low ≡ true = rw h.1 more in
      rw (more, more', lowest_from, lowest_bar)
        (lowest-Same (suc s) (frame_at s c) c bars (refl, refl))
  | inr less ↦
      let less' : ltb c.low f.low ≡ false = rw h.1 less in
      rw (less, less', lowest_from, lowest_bar) (lowest-Same (suc s) f b bars h)
]

extreme-Same :
    (d : Direction) (s : ℕ) (b : Bar) (bars : List Bar)
    → (f : Frame) × (c : Bar) × (extreme d (map_from frame_at s (b ∷ bars)) ≡ some f)
      × (extreme_bar d (b ∷ bars) ≡ some c)
      × Same f c
unfolding extreme
extreme-Same long s b bars =
    (_, _, refl, refl, highest-Same (suc s) (frame_at s b) b bars (refl, refl))
extreme-Same short s b bars =
    (_, _, refl, refl, lowest-Same (suc s) (frame_at s b) b bars (refl, refl))

closed_with-target :
    (a : Attempt) (timestamp : ℕ) (o : Option (Outcome × Float))
    → (closed_with a timestamp o).0.target ≡ a.target
closed_with-target a timestamp none = refl
closed_with-target a timestamp (some (o, price)) = refl

first_of : {A : Type 0} (xs : List A) → 0 < length xs → (x : A) × (rest : List A) × (xs ≡ x ∷ rest)
first_of [] h = absurd (omega arith)
first_of (x ∷ xs) h = (x, xs, refl)

touch_few :
    (fl : Arith) (a : Attempt) (timestamp bar_index : ℕ) (high low : Float) (o : Option Frame)
    → ltb (length a.recent_bars) target_lookback_bars ≡ true
    → touch fl a timestamp bar_index high low o ≡ (record a { status = Status.abandoned }, [])
unfolding touch
touch_few fl a timestamp bar_index high low none h = refl
touch_few fl a timestamp bar_index high low (some f) h = rw (h, touch)

-- The attempt sets the target, or is abandoned because the target does not lie beyond the entry.
abbrev pub Picks : Attempt → Float → Attempt → Type 0
Picks a t a' =
    if valid a.direction t a.entry_price then a'.target ≡ some t else a'.status ≡ Status.abandoned

touch-Picks :
    (fl : Arith) (a : Attempt) (timestamp bar_index : ℕ) (high low : Float) (f : Frame)
    → ltb (length a.recent_bars) target_lookback_bars ≡ false
    → Picks a (mid fl f.high f.low) (touch fl a timestamp bar_index high low (some f)).0
unfolding touch fill check_close
touch-Picks fl a timestamp bar_index high low f h =
    let t = mid fl f.high f.low in
    let opened = record a { target = some t; status = filled; fill_bar_index = some bar_index } in
    elim (Bool-cases (valid a.direction t a.entry_price)) [
      | inl v ↦
          rw (v, h)
            (closed_with-target opened timestamp
              (exit_of opened.direction opened.stop opened.target high low))
      | inr v ↦ rw (v, h) refl
    ]

-- What the two programs make of the same bars when a pending attempt is touched.
abbrev pub SameTarget : Arith → List Bar → Attempt → Attempt × List Event → Type 0
SameTarget fl bars a (a', events) =
    ((compute_target fl bars a.direction ≡ raised value_error)
      × (a'.status ≡ Status.abandoned)
      × (length bars < target_lookback_bars))
    ⊎ ((t : Float) × (compute_target fl bars a.direction ≡ returned t) × Picks a t a')

-- When the bar touches the entry of an attempt that has been fed `bars`, `compute_target` of the same
-- bars raises exactly if the attempt is abandoned for want of bars; otherwise it returns the target
-- that the attempt sets, or abandons as invalid.
pub compute_target-SameTarget :
    (fl : Arith) (bars : List Bar) (a : Attempt) (timestamp bar_index : ℕ) (high low : Float)
    → a.recent_bars ≡ last target_lookback_bars (map_from frame_at 0 bars)
    → touched a.direction a.entry_price high low ≡ true
    → SameTarget fl bars a (on_pending fl a timestamp bar_index high low)
unfolding on_pending touch fill check_close compute_target last
compute_target-SameTarget fl bars a timestamp bar_index high low fed hit =
    elim (Bool-cases (ltb (length bars) target_lookback_bars)) [
      | inl few ↦
          let e = length-last 6 (map_from frame_at 0 bars) in
          let e' = length-map_from frame_at 0 bars in
          let same : length a.recent_bars ≡ length bars =
            ap length fed ∙ omega (arith, e, e', ltb→lt (length bars) 6 few) in
          let none_left =
            touch_few fl a timestamp bar_index high low (extreme a.direction a.recent_bars)
              (rw same few) in
          rw (hit, none_left, few, SameTarget, compute_target, on_pending)
            (inl (refl, refl, ltb→lt (length bars) 6 few))
      | inr enough ↦
          let long_enough : 6 ≤ length bars = ground arith in
          let n = length bars - 6 in
          let e = length-last 6 (map_from frame_at 0 bars) in
          let e' = length-map_from frame_at 0 bars in
          let six : length a.recent_bars ≡ 6 = ap length fed ∙ omega (arith, e, e', long_enough) in
          let full : ltb (length a.recent_bars) 6 ≡ false =
            le→ltb (length a.recent_bars) 6 (omega (arith, six)) in
          let (b, rest, window) = first_of (last 6 bars) (omega (arith, length-last 6 bars)) in
          let window' : drop n bars ≡ b ∷ rest = window in
          let (f, c, found, found', same) = extreme-Same a.direction n b rest in
          let seen : extreme a.direction a.recent_bars ≡ some f =
            ap (extreme a.direction)
              (fed ∙ last-map_from frame_at 6 bars ∙ ap (map_from frame_at n) window')
            ∙ found in
          let target : compute_target fl bars a.direction ≡ returned (mid fl c.high c.low) =
            rw (enough, window, found', compute_target) refl in
          let picks = touch-Picks fl a timestamp bar_index high low f full in
          let same_target : mid fl c.high c.low ≡ mid fl f.high f.low =
            ap₂ (mid fl) (sym same.0) (sym same.1) in
          inr (
            mid fl f.high f.low,
            target ∙ ap returned same_target,
            rw (hit, seen, on_pending) picks,
          )
    ]
