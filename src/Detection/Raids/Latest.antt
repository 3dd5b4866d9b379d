-- ===== src/Detection/Raids/Latest.antt =====
-- The latest confirmed swing that the raid detector holds is the one that the batch program finds
-- by bisection.
use mathlib.Core.Option
use the_bot.Common.{
  ℕ, zero, suc, ◌+◌, ◌-◌, ◌*◌, ◌≤◌, ◌<◌, ◌≡◌, refl, sym, ap, ◌⊎◌, get_elem?_lt, ◌∙◌, true, List, [],
  ◌∷◌, ◌++◌, Option, none, some, arith, if◌then◌else◌, inl, inr, Bool-cases, length, All, get_elem?,
  get_elem?-append, range, range-append, flat_map, flat_map-append, le→ltb, lt→ltb,
}
use the_bot.Detection.Bars.{Bar}
use the_bot.Detection.Swings.{swing_n, level_of, Kind, Swing}
use the_bot.Detection.Swings.Batch.{pivot_at, pivots}
use the_bot.Detection.Swings.Refine.{known_at-pivot_at}
use the_bot.Detection.Swings.Known.{known, Fits, pivots-Fits}
use the_bot.Detection.Raids.{Level}
use the_bot.Detection.Raids.Batch.{same_kind, positions, bisect_left, level_at}

abbrev pub level : Swing → Level
level e = record { bar_index = e.index; price = e.price }

-- The last event of one kind, or what was there before.
unfoldable pub latest_from : Kind → Option Level → List Swing → Option Level
latest_from k o [] = o
latest_from k o (e ∷ events) =
    latest_from k (if same_kind k e.kind then some (level e) else o) events

pub latest_from-append :
    (k : Kind) (o : Option Level) (xs ys : List Swing)
    → latest_from k o (xs ++ ys) ≡ latest_from k (latest_from k o xs) ys
unfolding latest_from
latest_from-append k o [] ys = refl
latest_from-append k o (e ∷ xs) ys =
    latest_from-append k (if same_kind k e.kind then some (level e) else o) xs ys

pub positions-append :
    (k : Kind) (xs ys : List Swing) → positions k (xs ++ ys) ≡ positions k xs ++ positions k ys
unfolding positions
positions-append k [] ys = refl
positions-append k (e ∷ xs) ys = ground (arith, positions-append k xs ys)

pub positions-All :
    (k : Kind) (bars : List Bar) (lo hi : ℕ) (xs : List Swing)
    → All (Fits bars lo hi) xs
    → All (λ i. (lo ≤ i) × (i < hi)) (positions k xs)
unfolding positions
positions-All k bars lo hi [] h = tt
positions-All k bars lo hi (e ∷ xs) h = elim (Bool-cases (same_kind k e.kind)) [
  | inl same ↦ rw same ((h.0.0, h.0.1), positions-All k bars lo hi xs h.1)
  | inr other ↦ rw other (positions-All k bars lo hi xs h.1)
]

bisect_left-none :
    (x lo hi : ℕ) (ys : List ℕ) → All (λ i. (lo ≤ i) × (i < hi)) ys → x ≤ lo → bisect_left ys x ≡ 0
unfolding bisect_left
bisect_left-none x lo hi [] h le = refl
bisect_left-none x lo hi (y ∷ ys) h le = rw (le→ltb y x (omega arith))

-- The bisection point between what lies below `x` and what does not.
bisect_left-append :
    (x lo hi lo' hi' : ℕ) (xs ys : List ℕ)
    → All (λ i. (lo ≤ i) × (i < hi)) xs
    → All (λ i. (lo' ≤ i) × (i < hi')) ys
    → hi ≤ x
    → x ≤ lo'
    → bisect_left (xs ++ ys) x ≡ length xs
unfolding bisect_left
bisect_left-append x lo hi lo' hi' [] ys h k p q = bisect_left-none x lo' hi' ys k q
bisect_left-append x lo hi lo' hi' (z ∷ xs) ys h k p q =
    rw (lt→ltb z x (omega arith)) (ap suc (bisect_left-append x lo hi lo' hi' xs ys h.1 k p q))

-- The last of a list of positions, or what was there before.
last_from : Option ℕ → List ℕ → Option ℕ
last_from o [] = o
last_from o (i ∷ is) = last_from (some i) is

get_elem?-last_from : (i : ℕ) (is : List ℕ) → get_elem? (i ∷ is) (length is) ≡ last_from (some i) is
unfolding last_from
get_elem?-last_from i [] = refl
get_elem?-last_from i (j ∷ is) = get_elem?-last_from j is

abbrev bar_index : Level → ℕ
bar_index l = l.bar_index

latest_from-last_from :
    (k : Kind) (o : Option Level) (xs : List Swing)
    → Option.map bar_index (latest_from k o xs)
      ≡ last_from (Option.map bar_index o) (positions k xs)
unfolding latest_from last_from positions
latest_from-last_from k o [] = refl
latest_from-last_from k o (e ∷ xs) = elim (Bool-cases (same_kind k e.kind)) [
  | inl same ↦ rw same (latest_from-last_from k (some (level e)) xs)
  | inr other ↦ rw other (latest_from-last_from k o xs)
]

-- A held level is the price of its bar.
abbrev Held : Kind → List Bar → Option Level → Type 0
Held k bars none = Unit
Held k bars (some l) = Option.map (level_of k) (get_elem? bars l.bar_index) ≡ some l.price

pub same_kind-eq : (j k : Kind) → same_kind j k ≡ true → j ≡ k
same_kind-eq j k h = ground arith

latest_from-Held :
    (k : Kind) (bars : List Bar) (lo hi : ℕ) (o : Option Level) (xs : List Swing)
    → Held k bars o
    → All (Fits bars lo hi) xs
    → Held k bars (latest_from k o xs)
unfolding latest_from
latest_from-Held k bars lo hi o [] held h = held
latest_from-Held k bars lo hi o (e ∷ xs) held h = elim (Bool-cases (same_kind k e.kind)) [
  | inl same ↦ rw same (
      latest_from-Held k bars lo hi (some (level e)) xs (rw (same_kind-eq k e.kind same) h.0.2) h.1)
  | inr other ↦ rw other (latest_from-Held k bars lo hi o xs held h.1)
]

-- What the bisection finds agrees with what the detector holds: nothing, or a level of one price.
abbrev pub Agrees : Kind → List Bar → List ℕ → ℕ → Option Level → Type 0
Agrees k bars piv pos o =
    ((pos ≡ 0) × (o ≡ none))
    ⊎ ((l : Level) × (0 < pos) × (o ≡ some l) × (level_at k bars piv pos ≡ some l.price))

level_at_lem :
    (k : Kind) (bars : List Bar) (piv : List ℕ) (pos : ℕ) {i : ℕ}
    → get_elem? piv (pos - 1) ≡ some i
    → level_at k bars piv pos ≡ Option.map (level_of k) (get_elem? bars i)
unfolding level_at
level_at_lem k bars piv pos h = rw (h, level_at)

Agrees-split :
    (k : Kind) (bars : List Bar) (below above : List ℕ) (o : Option Level)
    → Option.map bar_index o ≡ last_from none below
    → Held k bars o
    → Agrees k bars (below ++ above) (length below) o
unfolding last_from
Agrees-split k bars [] above none e held = inl (refl, refl)
Agrees-split k bars [] above (some l) e held = cc
Agrees-split k bars (i ∷ below) above none e held =
    let (x, at) = get_elem?_lt (i ∷ below) (length below) (omega arith) in
    cc (get_elem?-last_from i below, at, e)
Agrees-split k bars (i ∷ below) above (some l) e held =
    let n : suc (length below) - 1 ≡ length below = omega arith in
    let found : get_elem? (i ∷ below ++ above) (length below) ≡ some l.bar_index =
      get_elem?-append (i ∷ below) above (length below) (omega arith)
      ∙ get_elem?-last_from i below
      ∙ sym e in
    inr (l, omega arith, refl, level_at_lem k bars _ _ (rw n found) ∙ held)

bisection_point :
    (k : Kind) (bars : List Bar) (s m r x : ℕ)
    → (0 < m → s + m ≤ x)
    → x ≤ s + m
    → let below = positions k (flat_map (pivot_at swing_n bars) (range s m)) in
      let above = positions k (flat_map (pivot_at swing_n bars) (range (s + m) r)) in
      bisect_left (below ++ above) x ≡ length below
unfolding positions
bisection_point k bars s zero r x p q =
    bisect_left-none x (s + 0) (s + 0 + r) _
      (positions-All k bars (s + 0) (s + 0 + r) _ (pivots-Fits bars (s + 0) r)) q
bisection_point k bars s (suc m) r x p q =
    bisect_left-append x s (s + suc m) (s + suc m) (s + suc m + r) _ _
      (positions-All k bars s (s + suc m) _ (pivots-Fits bars s (suc m)))
      (positions-All k bars (s + suc m) (s + suc m + r) _ (pivots-Fits bars (s + suc m) r))
      (p (omega arith)) q

-- Before the bar at `i`, the latest swing that the detector can have seen is the batch program's:
-- the last pivot below `i - 2`.
pub latest-Agrees :
    (k : Kind) (bars : List Bar) (i : ℕ)
    → i < length bars
    → let piv = positions k (pivots swing_n bars) in
      Agrees k bars piv (bisect_left piv (i - swing_n)) (latest_from k none (known bars i))
unfolding known pivots
latest-Agrees k bars i h =
    let f = pivot_at swing_n bars in
    let m = i - 2 * swing_n in
    let r = length bars - 2 * swing_n - m in
    let below = flat_map f (range swing_n m) in
    let above = flat_map f (range (swing_n + m) r) in
    let cut : length bars - 2 * swing_n ≡ m + r = omega arith in
    let split : flat_map f (range swing_n (length bars - 2 * swing_n)) ≡ below ++ above =
      ap (λ t. flat_map f (range swing_n t)) cut
      ∙ ap (flat_map f) (range-append swing_n m r)
      ∙ flat_map-append f (range swing_n m) (range (swing_n + m) r) in
    let xs = positions k below in
    let ys = positions k above in
    let fits = pivots-Fits bars swing_n m in
    let point : bisect_left (xs ++ ys) (i - swing_n) ≡ length xs =
      bisection_point k bars swing_n m r (i - swing_n) (λ p. omega arith) (omega arith) in
    rw (known_at-pivot_at swing_n bars i, split, positions-append k below above)
      (rw point (
        Agrees-split k bars xs ys (latest_from k none below) (latest_from-last_from k none below)
          (latest_from-Held k bars swing_n (swing_n + m) none below tt fits)))
