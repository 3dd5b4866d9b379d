-- ===== src/Detection/Attempt/Refine.antt =====
-- The attempt, fed the bars after its gap one at a time, against the batch program's search.
use the_bot.Common.{
  ℕ, suc, ◌≤◌, ◌<◌, ◌≡◌, refl, sym, ap, ◌∙◌, true, false, List, [], ◌∷◌, ◌++◌, append_assoc, Option,
  none, some, arith, ltb, ltb→lt, if◌then◌else◌, length, length-append, map_from, length-map_from,
  inl, inr, Bool-cases,
}
use the_bot.Common.Floats.{Float, Arith}
use the_bot.Common.Deque.{last, push, length-last, push-map_from, last-last}
use the_bot.Detection.Bars.{Bar, Direction, long, short}
use the_bot.Detection.Gaps.{Frame}
use the_bot.Detection.Gaps.Refine.{frame_at}
use the_bot.Detection.Attempt.{
  Attempt, rejected_min_stop, filled, abandoned, risk_of, init, extreme, touched, valid, mid, fill,
  touch, on_pending, on_new_bar,
}
use the_bot.Detection.Attempt.Batch.{reaches, beyond_entry, target_at, at_touch, search}
use the_bot.Detection.Attempt.Open.{
  result, IsOpen, IsWaiting, feed, feed-abandoned, result-open, target-extreme,
}

-- The tests of the two programs are the same tests.
reaches-eq-touched :
    (direction : Direction) (entry : Float) (b : Bar)
    → reaches direction entry b ≡ touched direction entry b.high b.low
reaches-eq-touched long entry b = refl
reaches-eq-touched short entry b = refl

beyond_entry-eq-valid :
    (direction : Direction) (target entry : Float)
    → beyond_entry direction target entry ≡ valid direction target entry
beyond_entry-eq-valid long target entry = ground arith
beyond_entry-eq-valid short target entry = ground arith

module _ (fl : Arith) (direction : Direction) (entry stop : Float) where
  on_new_bar-early :
      (past : List Bar) (a : Attempt) (b : Bar)
      → IsWaiting direction entry stop past a
      → touched direction entry b.high b.low ≡ true
      → length past < 6
      → (on_new_bar fl a b.time (length past) b.high b.low).0.status ≡ abandoned
  unfolding on_new_bar on_pending touch
  on_new_bar-early past a b h t p =
      let size : length a.recent_bars < 6 = omega (
        arith,
        ap length h.recent_eq,
        length-last 6 (map_from frame_at 0 past),
        length-map_from frame_at 0 past,
      ) in
      ground arith

  at_touch-early :
      (day : List Bar) (p : ℕ) (bars : List Bar) (target : Option Float)
      → p < 6
      → at_touch fl direction entry stop day p bars target ≡ none
  unfolding at_touch
  at_touch-early day p bars none h = refl
  at_touch-early day p bars (some t) h = ground arith

  -- The bar that fills the order leaves the attempt as one that was open and is shown that bar.
  abbrev opened : Attempt → ℕ → Float → Attempt
  opened a p t = record a { target = some t; status = filled; fill_bar_index = some p }

  on_new_bar-late :
      (past : List Bar) (a : Attempt) (b : Bar) (f : Frame)
      → IsWaiting direction entry stop past a
      → touched direction entry b.high b.low ≡ true
      → 6 ≤ length past
      → extreme direction (last 6 (map_from frame_at 0 past)) ≡ some f
      → valid direction (mid fl f.high f.low) entry ≡ true
      → (on_new_bar fl a b.time (length past) b.high b.low).0
        ≡ (on_new_bar fl
            (opened a (length past) (mid fl f.high f.low))
            b.time
            (length past)
            b.high
            b.low).0
  unfolding on_new_bar on_pending touch fill
  on_new_bar-late past a b f h t p is v =
      let size : 6 ≤ length a.recent_bars = omega (
        arith,
        ap length h.recent_eq,
        length-last 6 (map_from frame_at 0 past),
        length-map_from frame_at 0 past,
      ) in
      ground arith

  on_new_bar-invalid :
      (past : List Bar) (a : Attempt) (b : Bar) (f : Frame)
      → IsWaiting direction entry stop past a
      → touched direction entry b.high b.low ≡ true
      → 6 ≤ length past
      → extreme direction (last 6 (map_from frame_at 0 past)) ≡ some f
      → valid direction (mid fl f.high f.low) entry ≡ false
      → (on_new_bar fl a b.time (length past) b.high b.low).0.status ≡ abandoned
  unfolding on_new_bar on_pending touch fill
  on_new_bar-invalid past a b f h t p is v = ground arith

  IsOpen-opened :
      (past : List Bar) (a : Attempt) (t : Float)
      → IsWaiting direction entry stop past a
      → IsOpen (opened a (length past) t) direction stop t (length past)
  IsOpen-opened past a t h = record {
    direction_eq = h.direction_eq;
    stop_eq = h.stop_eq;
    status_eq = refl;
    target_eq = refl;
    fill_eq = refl;
  }

  -- The first touch decides the attempt as the batch program does.
  result-touch :
      (past : List Bar) (a : Attempt) (b : Bar) (bars : List Bar)
      → IsWaiting direction entry stop past a
      → touched direction entry b.high b.low ≡ true
      → let day = past ++ b ∷ bars in
        let p = length past in
        result (feed fl a p (b ∷ bars))
        ≡ at_touch fl direction entry stop day p (b ∷ bars) (target_at fl direction day p)
  unfolding feed
  result-touch past a b bars h t = elim (Bool-cases (ltb (length past) 6)) [
    | inl early ↦
        let few = ltb→lt (length past) 6 early in
        feed-abandoned fl _ (suc (length past)) bars (on_new_bar-early past a b h t few)
        ∙ sym (at_touch-early _ (length past) (b ∷ bars) _ few)
    | inr late ↦
        let enough : 6 ≤ length past = ground arith in
        let (f, is, at) = target-extreme fl direction past (b ∷ bars) enough in
        let target = mid fl f.high f.low in
        rw at (elim (Bool-cases (valid direction target entry)) [
          | inl v ↦
              ap (λ x. result (feed fl x (suc (length past)) bars))
                (on_new_bar-late past a b f h t enough is v)
              ∙ result-open fl direction stop target (length past) (opened a (length past) target)
                  (length past) (b ∷ bars) (IsOpen-opened past a target h)
              ∙ unfold at_touch in rw (late, beyond_entry-eq-valid direction target entry, v)
          | inr v ↦
              feed-abandoned fl _ (suc (length past)) bars
                (on_new_bar-invalid past a b f h t enough is v)
              ∙ unfold at_touch in rw (late, beyond_entry-eq-valid direction target entry, v)
        ])
  ]

  -- A bar that does not touch is only remembered.
  on_new_bar-untouched :
      (past : List Bar) (a : Attempt) (b : Bar)
      → IsWaiting direction entry stop past a
      → touched direction entry b.high b.low ≡ false
      → (on_new_bar fl a b.time (length past) b.high b.low).0
        ≡ record a { recent_bars = push 6 a.recent_bars (frame_at (length past) b) }
  unfolding on_new_bar on_pending
  on_new_bar-untouched past a b h t = ground arith

  IsWaiting-step :
      (past : List Bar) (a : Attempt) (b : Bar)
      → IsWaiting direction entry stop past a
      → touched direction entry b.high b.low ≡ false
      → IsWaiting direction entry stop
          (past ++ b ∷ [])
          (on_new_bar fl a b.time (length past) b.high b.low).0
  IsWaiting-step past a b h t =
      let step = on_new_bar-untouched past a b h t in
      let window = push-map_from frame_at 6 past b in
      rw step (record {
        direction_eq = h.direction_eq;
        entry_eq = h.entry_eq;
        stop_eq = h.stop_eq;
        status_eq = h.status_eq;
        recent_eq = rw h.recent_eq window;
      })

  result-search :
      (past : List Bar) (a : Attempt) (bars : List Bar)
      → IsWaiting direction entry stop past a
      → result (feed fl a (length past) bars)
        ≡ search fl direction entry stop (past ++ bars) (length past) bars
  unfolding feed search
  result-search past a [] h = unfold result in ground arith
  result-search past a (b ∷ bars) h = elim (Bool-cases (touched direction entry b.high b.low)) [
    | inl t ↦ rw (reaches-eq-touched direction entry b, t) (result-touch past a b bars h t)
    | inr t ↦
        let now = past ++ b ∷ [] in
        let size : length now ≡ suc (length past) = omega (arith, length-append past (b ∷ [])) in
        let joined : now ++ bars ≡ past ++ b ∷ bars = append_assoc past (b ∷ []) bars in
        let rest =
          result-search now (on_new_bar fl a b.time (length past) b.high b.low).0 bars
            (IsWaiting-step past a b h t) in
        rw (reaches-eq-touched direction entry b, t) (rw joined at (rw size at rest))
  ]

  IsWaiting-init :
      (past : List Bar) (j : ℕ)
      → ltb (fl.div (risk_of fl direction entry stop) fl.pip) fl.five ≡ false
      → IsWaiting direction entry stop past
          (init fl direction entry stop j (last 6 (map_from frame_at 0 past)))
  unfolding init
  IsWaiting-init past j enough = record {
    direction_eq = refl;
    entry_eq = refl;
    stop_eq = refl;
    status_eq = rw enough;
    recent_eq = last-last 6 (map_from frame_at 0 past);
  }

  feed-rejected :
      (a : Attempt) (i : ℕ) (bars : List Bar)
      → a.status ≡ rejected_min_stop
      → result (feed fl a i bars) ≡ none
  unfolding feed on_new_bar result
  feed-rejected a i [] h = ground arith
  feed-rejected a i (b ∷ bars) h =
      let same : (on_new_bar fl a b.time i b.high b.low).0 ≡ a = ground arith in
      rw same (feed-rejected a (suc i) bars h)

  rejected-init :
      (seed : List Frame) (j : ℕ)
      → ltb (fl.div (risk_of fl direction entry stop) fl.pip) fl.five ≡ true
      → (init fl direction entry stop j seed).status ≡ rejected_min_stop
  unfolding init
  rejected-init seed j few = rw few

  -- An attempt made when the bars `past` had come, from the last six of them, and then fed the rest
  -- of the day one bar at a time, comes to what the batch program's search finds in the finished
  -- day: nothing if its risk is below the least number of pips; else the first touch, its target
  -- and, if there is one, its exit, or nothing if there is no touch or if the first one fails.
  pub result-init :
      (past bars : List Bar) (j : ℕ)
      → result (
          feed fl
            (init fl direction entry stop j (last 6 (map_from frame_at 0 past)))
            (length past)
            bars)
        ≡ (if ltb (fl.div (risk_of fl direction entry stop) fl.pip) fl.five
            then none
            else search fl direction entry stop (past ++ bars) (length past) bars)
  result-init past bars j =
      elim (Bool-cases (ltb (fl.div (risk_of fl direction entry stop) fl.pip) fl.five)) [
        | inl few ↦ rw few (feed-rejected _ (length past) bars (rejected-init _ j few))
        | inr enough ↦ rw enough (result-search past _ bars (IsWaiting-init past j enough))
      ]
