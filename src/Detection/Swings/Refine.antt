-- ===== src/Detection/Swings/Refine.antt =====
-- The streaming detectors against the batch program: `on_new_day` and `on_new_bar`, fed one bar
-- at a time, and the loop of phase1/extract_golden_master.py over the finished array.
use native.Mathlib.Nat.{zero-add, suc-add}
use the_bot.Common.{
  ℕ, zero, suc, ◌+◌, ◌-◌, ◌*◌, ◌≤◌, ◌<◌, ◌≡◌, refl, sym, ap, ◌∙◌, List, [], ◌∷◌, ◌++◌, append_assoc,
  some, arith, ltb, lt→ltb, le→ltb, inl, inr, Bool-cases, if◌then◌else◌, length, get_elem?, take,
  drop, length-append, length-drop, drop-append, take-append, take_all, get_elem?-append,
  get_elem?-drop, get_elem?_lt, range, range-append, map_from, flat_map, flat_map-append,
  flat_map-range_nil, flat_map-range_start, ap₂, min, length-map_from, get_elem?-map_from,
  map-map_from,
}
use the_bot.Common.Deque.{last, push, length-last, last_all, push-map_from, last-map_from}
use the_bot.Detection.Bars.{Bar}
use the_bot.Detection.Swings.{
  Swing, Entry, Detector, maxlen, confirm, new, on_new_day, on_new_bar, start_new_day,
}
use the_bot.Detection.Swings.Batch.{pivot, pivot_at, pivots}

abbrev pub entry_at : ℕ → Bar → Entry
entry_at i b = record { index = i; timestamp = b.time; high = b.high; low = b.low }

-- What a detector with `pivot_n = n` holds after the bars `past`.
pub record Seen (n : ℕ) (past : List Bar) (d : Detector) : Type 0 where
  pub pivot_n : d.pivot_n ≡ n
  pub window : d.window ≡ last (maxlen n) (map_from entry_at 0 past)
  pub next_index : d.next_index ≡ length past

-- The batch program's pivots that can be known when the bar at `t` has come, and not before.
unfoldable pub known_at : ℕ → List Bar → ℕ → List Swing
known_at n bars t = if ltb t (2 * n) then [] else pivot_at n bars (t - n)

confirm-map_from :
    (n s : ℕ) (w : List Bar) (b : Bar)
    → get_elem? w n ≡ some b
    → confirm (get_elem? (map_from entry_at s w) n) (map_from entry_at s w)
      ≡ pivot w (s + n) (some b)
unfolding confirm pivot
confirm-map_from n s w b h = rw (get_elem?-map_from entry_at s w n h) (
    rw (map-map_from (λ (e : Entry). e.high) entry_at (λ (x : Bar). x.high) s w (λ i x. refl))
      (rw (map-map_from (λ (e : Entry). e.low) entry_at (λ (x : Bar). x.low) s w (λ i x. refl))))

confirm-full :
    (n : ℕ) (ys : List Bar)
    → maxlen n ≤ length ys
    → confirm
        (get_elem? (last (maxlen n) (map_from entry_at 0 ys)) n)
        (last (maxlen n) (map_from entry_at 0 ys))
      ≡ pivot_at n ys (length ys - 1 - n)
unfolding pivot_at
confirm-full n ys h =
    let s = length ys - maxlen n in
    let (b, at) = get_elem?_lt ys (s + n) (omega arith) in
    let here : get_elem? (drop s ys) n ≡ some b = get_elem?-drop s n ys ∙ at in
    let k : length ys - 1 - n ≡ s + n = omega arith in
    let slice : take (maxlen n) (drop (s + n - n) ys) ≡ drop s ys =
      ap (λ m. take (maxlen n) (drop m ys)) (let e : s + n - n ≡ s = omega arith in e)
      ∙ take_all (maxlen n) (drop s ys) (omega (arith, length-drop s ys)) in
    rw (last-map_from entry_at (maxlen n) ys)
      (confirm-map_from n s (drop s ys) b here ∙ rw (k, slice, at))

-- The window is full when `2 * n + 1` bars have come.
full_test :
    (n : ℕ) (past : List Bar) (b : Bar)
    → ltb (length (last (maxlen n) (map_from entry_at 0 (past ++ b ∷ [])))) (maxlen n)
      ≡ ltb (length past) (2 * n)
full_test n past b =
    let ys = past ++ b ∷ [] in
    ground (
      arith,
      length-last (maxlen n) (map_from entry_at 0 ys),
      length-map_from entry_at 0 ys,
      length-append past (b ∷ []),
    )

confirm-known_at :
    (n : ℕ) (past : List Bar) (b : Bar)
    → let ys = past ++ b ∷ [] in
      let w = last (maxlen n) (map_from entry_at 0 ys) in
      (if ltb (length w) (maxlen n) then [] else confirm (get_elem? w n) w)
      ≡ known_at n ys (length past)
unfolding known_at
confirm-known_at n past b = rw full_test (elim (Bool-cases (ltb (length past) (2 * n))) [
  | inl early ↦ rw early
  | inr full ↦
      let ys = past ++ b ∷ [] in
      let size : length ys ≡ length past + 1 = length-append past (b ∷ []) in
      let enough : maxlen n ≤ length ys = ground (arith, size) in
      let k : length ys - 1 - n ≡ length past - n = omega arith in
      rw full (confirm-full n ys enough ∙ ap (pivot_at n ys) k)
])

module _ {n : ℕ} {past : List Bar} {d : Detector} (seen : Seen n past d) (b : Bar) where
  window-step :
      push (maxlen n) d.window (entry_at d.next_index b)
      ≡ last (maxlen n) (map_from entry_at 0 (past ++ b ∷ []))
  window-step = rw (seen.window, seen.next_index) (push-map_from entry_at (maxlen n) past b)

  pub Seen-step : Seen n (past ++ b ∷ []) (on_new_day d b.time b.high b.low).0
  unfolding on_new_day
  Seen-step = record {
    pivot_n = seen.pivot_n;
    window = rw seen.pivot_n window-step;
    next_index = omega (arith, seen.next_index, length-append past (b ∷ []));
  }

  -- Each call returns exactly the pivots that the new bar makes known.
  pub events-step : (on_new_day d b.time b.high b.low).1 ≡ known_at n (past ++ b ∷ []) (length past)
  unfolding on_new_day known_at
  events-step = rw (seen.pivot_n, window-step) (confirm-known_at n past b)

-- The events of all calls, in order, when the detector is fed the bars one by one.
unfoldable pub feed : Detector → List Bar → List Swing
feed d [] = []
feed d (b ∷ bars) = let (d', events) = on_new_bar d b.time b.high b.low in events ++ feed d' bars

-- Bars that come later change nothing that is known.
pub known_at-append :
    (n : ℕ) (ys zs : List Bar) (t : ℕ) → t < length ys → known_at n (ys ++ zs) t ≡ known_at n ys t
unfolding known_at pivot_at
known_at-append n ys zs t h = elim (Bool-cases (ltb t (2 * n))) [
  | inl early ↦ rw early
  | inr full ↦
      let s = t - n - n in
      let enough : maxlen n ≤ length (drop s ys) = ground (arith, length-drop s ys) in
      rw (full, drop-append s ys zs (omega arith), take-append (maxlen n) (drop s ys) zs enough)
        (rw (get_elem?-append ys zs (t - n) (omega arith)))
]

feed-known_at :
    (n : ℕ) (past : List Bar) (d : Detector) (bars : List Bar)
    → Seen n past d
    → feed d bars ≡ flat_map (known_at n (past ++ bars)) (range (length past) (length bars))
unfolding feed on_new_bar
feed-known_at n past d [] seen = refl
feed-known_at n past d (b ∷ bars) seen =
    let now = past ++ b ∷ [] in
    let size : length now ≡ suc (length past) = omega (arith, length-append past (b ∷ [])) in
    let joined : now ++ bars ≡ past ++ b ∷ bars = append_assoc past (b ∷ []) bars in
    let later = feed-known_at n now (on_new_day d b.time b.high b.low).0 bars (Seen-step seen b) in
    let first = known_at-append n now bars (length past) (omega arith) in
    let tail = flat_map (known_at n (now ++ bars)) (range (suc (length past)) (length bars)) in
    rw (events-step seen b, later, size)
      (ap (λ e. e ++ tail) (sym first)
        ∙ ap
            (λ l.
              known_at n l (length past)
              ++ flat_map (known_at n l) (range (suc (length past)) (length bars)))
            joined)

flat_map-late :
    (n : ℕ) (bars : List Bar) (k m : ℕ)
    → n ≤ k
    → flat_map (known_at n bars) (range (k + n) m) ≡ flat_map (pivot_at n bars) (range k m)
unfolding known_at
flat_map-late n bars k zero h = refl
flat_map-late n bars k (suc m) h =
    let back : k + n - n ≡ k = omega arith in
    rw (le→ltb (k + n) (2 * n) (omega arith), back, ← suc-add)
      (ap (λ t. pivot_at n bars k ++ t) (flat_map-late n bars (suc k) m (omega arith)))

known_at_early : (n : ℕ) (bars : List Bar) (t : ℕ) → t < 2 * n → known_at n bars t ≡ []
unfolding known_at
known_at_early n bars t h = rw (lt→ltb t (2 * n) h)

-- After `t` bars, what is known are the pivots below `t - n`.
pub known_at-pivot_at :
    (n : ℕ) (bars : List Bar) (t : ℕ)
    → flat_map (known_at n bars) (range 0 t) ≡ flat_map (pivot_at n bars) (range n (t - 2 * n))
known_at-pivot_at n bars t =
    let f = known_at n bars in
    let p = min (2 * n) t in
    let m = t - 2 * n in
    let cut : t ≡ p + m = omega arith in
    ap (λ k. flat_map f (range 0 k)) cut
    ∙ ap (flat_map f) (range-append 0 p m ∙ rw zero-add)
    ∙ flat_map-append f (range 0 p) (range p m)
    ∙ ap₂ ◌++◌ (flat_map-range_nil f 0 p (λ j u v. known_at_early n bars j (omega arith))) (
        flat_map-range_start f p (n + n) m (λ h. omega arith)
        ∙ flat_map-late n bars n m (omega arith))

pub Seen-new : (n : ℕ) → Seen n [] (new n)
unfolding new
Seen-new n = record {
  pivot_n = refl;
  window = sym (last_all (maxlen n) [] (omega arith));
  next_index = refl;
}

-- Fed any bars one at a time, after a reset of whatever it held before, a detector confirms exactly
-- the swings that the batch program finds in the finished array, in the same order.
pub feed-pivots :
    (d : Detector) (bars : List Bar) → feed (start_new_day d) bars ≡ pivots d.pivot_n bars
unfolding start_new_day new pivots
feed-pivots d bars =
    feed-known_at d.pivot_n [] (start_new_day d) bars (Seen-new d.pivot_n)
    ∙ known_at-pivot_at d.pivot_n bars (length bars)
