-- ===== src/Detection/Attempt/Open.antt =====
-- What an attempt comes to, in the terms of the batch program, and the parts of it that do not wait
-- for an entry: attempts that are over, open trades, and the target.
use the_bot.Common.{
  ℕ, suc, ◌+◌, ◌-◌, ◌≤◌, ◌≡◌, refl, sym, ap, ◌∙◌, List, [], ◌∷◌, ◌++◌, Option, none, some, arith,
  length, get_elem?, take, drop, length-drop, drop-append, take-append, take_all,
  get_elem?-append_some, get_elem?-drop, map_from, inl, inr, Option-cases,
}
use the_bot.Common.Floats.{Float, Arith}
use the_bot.Common.Deque.{last, last-map_from}
use the_bot.Detection.Bars.{Bar, Direction, long, short}
use the_bot.Detection.Gaps.{Frame}
use the_bot.Detection.Gaps.Refine.{frame_at}
use the_bot.Detection.Attempt.{
  Attempt, Outcome, pending, filled, abandoned, closed, exit_of, closed_with, check_close, extreme,
  mid, on_new_bar,
}
use the_bot.Detection.Attempt.Batch.{Found, exit_from, extreme_rel_idx, target_at}
use the_bot.Detection.Attempt.Extreme.{extreme-IsAt}

abbrev both {ℓ κ} : {A : Type ℓ} {B : Type κ} → Option A → Option B → Option (A × B)
both (some a) (some b) = some (a, b)
both _ _ = none

abbrev found : Option Float → Option ℕ → Option (Outcome × Float) → Option Found
found (some t) (some p) exit = some (record { target = t; fill_bar = p; exit = exit })
found _ _ exit = none

-- What an attempt has come to, in the terms of the batch program: nothing unless it filled.
unfoldable pub result : Attempt → Option Found
result a = elim a.status [
  | filled ↦ found a.target a.fill_bar_index none
  | closed ↦ found a.target a.fill_bar_index (both a.outcome a.exit_price)
  | _ ↦ none
]

abbrev or_else {ℓ} : {A : Type ℓ} → Option A → Option A → Option A
or_else none b = b
or_else (some a) b = some a

exit_from-exit_of :
    (direction : Direction) (stop t : Float) (b : Bar) (bars : List Bar)
    → exit_from direction stop t (b ∷ bars)
      ≡ or_else (exit_of direction stop (some t) b.high b.low) (exit_from direction stop t bars)
unfolding exit_from exit_of
exit_from-exit_of long stop t b bars = ground arith
exit_from-exit_of short stop t b bars = ground arith

-- An open trade, with what decides its exit.
pub record IsOpen (a : Attempt) (direction : Direction) (stop t : Float) (p : ℕ) : Type 0 where
  pub direction_eq : a.direction ≡ direction
  pub stop_eq : a.stop ≡ stop
  pub status_eq : a.status ≡ filled
  pub target_eq : a.target ≡ some t
  pub fill_eq : a.fill_bar_index ≡ some p

-- An attempt that waits for its entry, after the bars `past` of the day.
pub record IsWaiting (direction : Direction) (entry stop : Float) (past : List Bar) (a : Attempt)
    : Type 0 where
  pub direction_eq : a.direction ≡ direction
  pub entry_eq : a.entry_price ≡ entry
  pub stop_eq : a.stop ≡ stop
  pub status_eq : a.status ≡ pending
  pub recent_eq : a.recent_bars ≡ last 6 (map_from frame_at 0 past)

module _ (fl : Arith) where
  -- The attempt after more bars of the day, of which the first stands at `i`.
  unfoldable pub feed : Attempt → ℕ → List Bar → Attempt
  feed a i [] = a
  feed a i (b ∷ bars) = feed (on_new_bar fl a b.time i b.high b.low).0 (suc i) bars

  pub feed-abandoned :
      (a : Attempt) (i : ℕ) (bars : List Bar) → a.status ≡ abandoned → result (feed a i bars) ≡ none
  unfolding feed on_new_bar result
  feed-abandoned a i [] h = ground arith
  feed-abandoned a i (b ∷ bars) h =
      let same : (on_new_bar fl a b.time i b.high b.low).0 ≡ a = ground arith in
      rw same (feed-abandoned a (suc i) bars h)

  pub feed-closed : (a : Attempt) (i : ℕ) (bars : List Bar) → a.status ≡ closed → feed a i bars ≡ a
  unfolding feed on_new_bar
  feed-closed a i [] h = refl
  feed-closed a i (b ∷ bars) h =
      let same : (on_new_bar fl a b.time i b.high b.low).0 ≡ a = ground arith in
      rw same (feed-closed a (suc i) bars h)

  pub result-open :
      (direction : Direction) (stop t : Float) (p : ℕ) (a : Attempt) (i : ℕ) (bars : List Bar)
      → IsOpen a direction stop t p
      → result (feed a i bars)
        ≡ some (record { target = t; fill_bar = p; exit = exit_from direction stop t bars })
  unfolding feed on_new_bar check_close
  result-open direction stop t p a i [] h = unfold result exit_from in ground arith
  result-open direction stop t p a i (b ∷ bars) h =
      let step : (on_new_bar fl a b.time i b.high b.low).0
          ≡ (closed_with a b.time (exit_of direction stop (some t) b.high b.low)).0 =
        ground arith in
      elim (Option-cases (exit_of direction stop (some t) b.high b.low)) [
        | inl stays ↦
            rw (step, exit_from-exit_of direction stop t b bars, stays)
              (result-open direction stop t p a (suc i) bars h)
        | inr (e, exit) ↦
            rw (step, exit_from-exit_of direction stop t b bars, exit)
              (ap result (feed-closed (closed_with a b.time (some e)).0 (suc i) bars refl)
                ∙ unfold result in ground arith)
      ]

  target_at-found :
      (direction : Direction) (day : List Bar) (p : ℕ) (w : List Bar) (b : Bar)
      → take 6 (drop (p - 6) day) ≡ w
      → get_elem? day (p - 6 + extreme_rel_idx direction w) ≡ some b
      → target_at fl direction day p ≡ some (mid fl b.high b.low)
  unfolding target_at
  target_at-found direction day p w b e g = ground arith

  -- With six bars behind it, the attempt's target is the batch program's.
  pub target-extreme :
      (direction : Direction) (past bars : List Bar)
      → 6 ≤ length past
      → (f : Frame) × (extreme direction (last 6 (map_from frame_at 0 past)) ≡ some f)
        × (target_at fl direction (past ++ bars) (length past) ≡ some (mid fl f.high f.low))
  target-extreme direction past bars h =
      let s = length past - 6 in
      let w = drop s past in
      let size : length w ≡ 6 = omega (arith, length-drop s past) in
      let (f, is, (b, at, hi, lo)) = extreme-IsAt direction s w (omega (arith, size)) in
      let window : take 6 (drop s (past ++ bars)) ≡ w =
        rw (drop-append s past bars (omega arith), take-append 6 w bars (omega (arith, size)))
          (take_all 6 w (omega (arith, size))) in
      let found : get_elem? (past ++ bars) (s + extreme_rel_idx direction w) ≡ some b =
        sym (get_elem?-drop s (extreme_rel_idx direction w) (past ++ bars))
        ∙ rw (drop-append s past bars (omega arith)) (get_elem?-append_some w bars _ at) in
      (
        f,
        rw (last-map_from frame_at 6 past) is,
        rw (hi, lo) (target_at-found direction (past ++ bars) (length past) w b window found),
      )
