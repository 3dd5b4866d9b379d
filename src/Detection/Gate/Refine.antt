-- ===== src/Detection/Gate/Refine.antt =====
-- `DaySelectionGate._trend_for_today` against `daily_trend_as_of`: the guard of the batch program
-- against looking ahead, and the gate's lack of one.
use mathlib.Core.Option
use the_bot.Common.{
  ℕ, suc, none, false, ◌==◌, ◌+◌, ◌-◌, ◌*◌, ◌≤◌, ◌<◌, ◌≡◌, refl, ap, ◌∙◌, List, [], ◌∷◌, ◌++◌, some,
  arith, lt→ltb, le→ltb, inl, inr, Bool-cases, length, get_elem?, map, range, range-append,
  flat_map, flat_map-append, All, length-append,
}
use the_bot.Common.Floats.{Float}
use the_bot.Common.Deque.{last, last-map, All-last}
use the_bot.Detection.Bars.{Bar}
use the_bot.Detection.Swings.{swing_n, level_of, Kind, swing_high, swing_low, Swing}
use the_bot.Detection.Swings.Batch.{pivot_at, pivots}
use the_bot.Detection.Swings.Refine.{Seen-new, known_at-pivot_at}
use the_bot.Detection.Swings.Known.{known, Fits, pivots-Fits}
use the_bot.Detection.Raids.Batch.{same_kind, positions}
use the_bot.Detection.Raids.Latest.{positions-append, positions-All, same_kind-eq}
use the_bot.Detection.Gate.{new, last_two, pair_of, prices, trend_for_today}
use the_bot.Detection.Gate.Trends.{
  confirmed_before, lookup_two, daily_trend_as_of, trend_at, index_of_date, feed, pairs, Holds,
  feed-Holds,
}

abbrev Between : ℕ → ℕ → ℕ → Type 0
Between lo hi i = (lo ≤ i) × (i < hi)

-- What is confirmed before the cutoff are the pivots two days or more behind it.
confirmed_before-none :
    (cutoff lo hi : ℕ) (is : List ℕ)
    → All (Between lo hi) is
    → cutoff ≤ lo + swing_n
    → confirmed_before cutoff is ≡ []
unfolding confirmed_before
confirmed_before-none cutoff lo hi [] h le = refl
confirmed_before-none cutoff lo hi (i ∷ is) h le =
    rw (le→ltb (i + swing_n) cutoff (omega arith)) (confirmed_before-none cutoff lo hi is h.1 le)

confirmed_before-append :
    (cutoff lo hi lo' hi' : ℕ) (xs ys : List ℕ)
    → All (Between lo hi) xs
    → All (Between lo' hi') ys
    → ((i : ℕ) → lo ≤ i → i < hi → i + swing_n < cutoff)
    → cutoff ≤ lo' + swing_n
    → confirmed_before cutoff (xs ++ ys) ≡ xs
unfolding confirmed_before
confirmed_before-append cutoff lo hi lo' hi' [] ys h k p q =
    confirmed_before-none cutoff lo' hi' ys k q
confirmed_before-append cutoff lo hi lo' hi' (i ∷ xs) ys h k p q =
    rw (lt→ltb (i + swing_n) cutoff (p i h.0.0 h.0.1))
      (ap (λ t. i ∷ t) (confirmed_before-append cutoff lo hi lo' hi' xs ys h.1 k p q))

-- A pair's price is that of its day.
abbrev Priced : Kind → List Bar → ℕ × Float → Type 0
Priced k days p = Option.map (level_of k) (get_elem? days p.0) ≡ some p.1

pairs-Priced :
    (k : Kind) (days : List Bar) (lo hi : ℕ) (xs : List Swing)
    → All (Fits days lo hi) xs
    → All (Priced k days) (pairs k xs)
unfolding pairs
pairs-Priced k days lo hi [] h = tt
pairs-Priced k days lo hi (e ∷ xs) h = elim (Bool-cases (same_kind k e.kind)) [
  | inl same ↦ rw same ((rw (same_kind-eq k e.kind same) h.0.2), pairs-Priced k days lo hi xs h.1)
  | inr other ↦ rw other (pairs-Priced k days lo hi xs h.1)
]

abbrev day_of : ℕ × Float → ℕ
day_of p = p.0

positions-pairs : (k : Kind) (xs : List Swing) → positions k xs ≡ map day_of (pairs k xs)
unfolding positions pairs
positions-pairs k [] = refl
positions-pairs k (e ∷ xs) = elim (Bool-cases (same_kind k e.kind)) [
  | inl same ↦ rw same (ap (λ t. e.index ∷ t) (positions-pairs k xs))
  | inr other ↦ rw other (positions-pairs k xs)
]

module _ (k : Kind) (days : List Bar) where
  lookup_two-pair :
      (w : List (ℕ × Float))
      → All (Priced k days) w
      → lookup_two k days (pair_of (map day_of w)) ≡ prices (pair_of w)
  lookup_two-pair [] h = refl
  lookup_two-pair (p ∷ []) h = refl
  lookup_two-pair (p ∷ q ∷ []) h = ground arith
  lookup_two-pair (p ∷ q ∷ r ∷ w) h = refl

  lookup_two-prices :
      (ps : List (ℕ × Float))
      → All (Priced k days) ps
      → lookup_two k days (last_two (map day_of ps)) ≡ prices (last_two ps)
  unfolding last_two
  lookup_two-prices ps h =
      rw (last-map day_of 2 ps) (lookup_two-pair (last 2 ps) (All-last (Priced k days) 2 ps h))

-- At the cutoff `t` the batch program keeps the pivots that the gate has been told of.
module _ (k : Kind) (days : List Bar) (t : ℕ) (inside : t ≤ length days) where
  confirmed_before-known :
      confirmed_before t (positions k (pivots swing_n days)) ≡ positions k (known days t)
  unfolding known pivots
  confirmed_before-known =
      let f = pivot_at swing_n days in
      let m = t - 2 * swing_n in
      let r = length days - 2 * swing_n - m in
      let below = flat_map f (range swing_n m) in
      let above = flat_map f (range (swing_n + m) r) in
      let cut : length days - 2 * swing_n ≡ m + r = omega arith in
      let split : flat_map f (range swing_n (length days - 2 * swing_n)) ≡ below ++ above =
        ap (λ n. flat_map f (range swing_n n)) cut
        ∙ ap (flat_map f) (range-append swing_n m r)
        ∙ flat_map-append f (range swing_n m) (range (swing_n + m) r) in
      let fits_below = positions-All k days _ _ below (pivots-Fits days swing_n m) in
      let fits_above = positions-All k days _ _ above (pivots-Fits days (swing_n + m) r) in
      rw (known_at-pivot_at swing_n days t, split, positions-append k below above)
        (confirmed_before-append t swing_n (swing_n + m) (swing_n + m) (swing_n + m + r)
          (positions k below) (positions k above) fits_below fits_above (λ i p q. omega arith)
          (omega arith))

  known-Priced : All (Priced k days) (pairs k (known days t))
  unfolding known
  known-Priced =
      rw (known_at-pivot_at swing_n days t)
        (pairs-Priced k days _ _ _ (pivots-Fits days swing_n (t - 2 * swing_n)))

  lookup_two-known :
      lookup_two k days (last_two (confirmed_before t (positions k (pivots swing_n days))))
      ≡ prices (last_two (pairs k (known days t)))
  lookup_two-known =
      rw (confirmed_before-known, positions-pairs k (known days t))
        (lookup_two-prices k days (pairs k (known days t)) known-Priced)

Holds-new : (all : List Bar) → Holds all [] new
unfolding new known pairs
Holds-new all = record { seen = Seen-new swing_n; highs = refl; lows = refl }

trend-trend_at :
    (days later : List Bar)
    → trend_for_today (feed new days) ≡ trend_at (days ++ later) (length days)
unfolding trend_for_today trend_at
trend-trend_at days later =
    let all = days ++ later in
    let t = length days in
    let inside : t ≤ length all = omega (arith, length-append days later) in
    let holds = feed-Holds [] days new later (Holds-new all) in
    rw (
      holds.highs,
      holds.lows,
      lookup_two-known swing_high all t inside,
      lookup_two-known swing_low all t inside,
    )

abbrev pub IsEarlier : ℕ → Bar → Type 0
IsEarlier date d = d.time < date

index_of_date-after :
    (i : ℕ) (days : List Bar) (today : Bar) (later : List Bar)
    → All (IsEarlier today.time) days
    → index_of_date today.time i (days ++ today ∷ later) ≡ some (i + length days)
unfolding index_of_date
index_of_date-after i [] today later h = ground arith
index_of_date-after i (d ∷ days) today later h =
    let other : (d.time == today.time) ≡ false = ground (arith, h.0) in
    let size : suc i + length days ≡ i + suc (length days) = omega arith in
    rw (other, index_of_date-after (suc i) days today later h.1, size) refl

index_of_date-absent :
    (date i : ℕ) (days : List Bar) → All (IsEarlier date) days → index_of_date date i days ≡ none
unfolding index_of_date
index_of_date-absent date i [] h = refl
index_of_date-absent date i (d ∷ days) h =
    let other : (d.time == date) ≡ false = ground (arith, h.0) in
    rw (other, index_of_date-absent date (suc i) days h.1) refl

-- If the days are all earlier than today: the gate that was told of them, one at a time, decides the
-- trend of today as the batch program does for today's date from the whole history, whatever days come
-- later, since what the batch program filters out is what the gate has not been told; and for a date
-- that the history has not reached, where the gate still decides, the batch program has no trend.
pub trend-daily_trend_as_of :
    (days : List Bar) (today : Bar) (later : List Bar)
    → All (IsEarlier today.time) days
    → (trend_for_today (feed new days) ≡ daily_trend_as_of (days ++ today ∷ later) today.time)
      × (daily_trend_as_of days today.time ≡ none)
unfolding daily_trend_as_of
trend-daily_trend_as_of days today later h =
    let start : 0 + length days ≡ length days = omega arith in
    (
      rw (index_of_date-after 0 days today later h, start) (trend-trend_at days (today ∷ later)),
      rw (index_of_date-absent today.time 0 days h) refl,
    )
