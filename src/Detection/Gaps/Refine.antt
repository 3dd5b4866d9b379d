-- ===== src/Detection/Gaps/Refine.antt =====
-- The gap detector against `find_fvg` of phase1/extract_golden_master.py.
use mathlib.Core.Option
use the_bot.Common.{
  ℕ, suc, ◌+◌, ◌-◌, ◌<◌, ◌≡◌, refl, sym, List, [], ◌∷◌, ◌++◌, append_assoc, append-nil, Option,
  none, some, arith, ltb, inl, inr, Bool-cases, if◌then◌else◌, length, get_elem?, drop,
  length-append, length-drop, get_elem?-drop, map_from, length-map_from,
}
use the_bot.Common.Floats.{Float}
use the_bot.Common.Deque.{last, push, last_all, push-map_from, last-map_from}
use the_bot.Detection.Bars.{Bar, Side, bull, bear}
use the_bot.Detection.Gaps.{Frame, Gap, GapDetector, new, on_new_bar, gap_of, check_fvg}

-- The dictionary that the batch program's `find_fvg` returns.
pub record Found : Type 0 where
  pub top : Float
  pub bottom : Float
  pub frame_idx : ℕ

unfoldable pub found_in : Side → ℕ → Option Bar → Option Bar → Option Found
found_in bear frame_idx (some ago) (some now) =
    if ltb now.high ago.low
    then some (record { top = ago.low; bottom = now.high; frame_idx = frame_idx })
    else none
found_in bull frame_idx (some ago) (some now) =
    if ltb ago.high now.low
    then some (record { top = now.low; bottom = ago.high; frame_idx = frame_idx })
    else none
found_in side frame_idx _ _ = none

unfoldable pub find_fvg : List Bar → ℕ → Side → Option Found
unfolding found_in
find_fvg bars i side =
    if ltb i 2 then none else found_in side (i - 2) (get_elem? bars (i - 2)) (get_elem? bars i)

abbrev pub frame_at : ℕ → Bar → Frame
frame_at i b = record { bar_index = i; high = b.high; low = b.low }

-- The detector after every bar of the day so far, each with its place in the day.
unfoldable pub feed : GapDetector → ℕ → List Bar → GapDetector
feed d i [] = d
feed d i (b ∷ bars) = feed (on_new_bar d i b.high b.low) (suc i) bars

pub window-feed :
    (d : GapDetector) (past bars : List Bar)
    → d.window ≡ last 3 (map_from frame_at 0 past)
    → (feed d (length past) bars).window ≡ last 3 (map_from frame_at 0 (past ++ bars))
unfolding feed on_new_bar
window-feed d past [] h = rw append-nil h
window-feed d past (b ∷ bars) h =
    let now = past ++ b ∷ [] in
    let size : length now ≡ suc (length past) = omega (arith, length-append past (b ∷ [])) in
    let step : push 3 d.window (frame_at (length past) b) ≡ last 3 (map_from frame_at 0 now) =
      rw h (push-map_from frame_at 3 past b) in
    let rest = window-feed (on_new_bar d (length past) b.high b.low) now bars step in
    rw (append_assoc past (b ∷ []) bars) at (rw size at rest)

-- What `check_fvg` reports of a gap, from what the batch program finds.
abbrev pub report : ℕ → Side → ℕ → Found → Gap
report timestamp side i f = record {
  timestamp = timestamp;
  side = side;
  top = f.top;
  bottom = f.bottom;
  frame_idx = f.frame_idx;
  mss_bar_index = i;
}

three :
    (timestamp : ℕ) (side : Side) (s : ℕ) (w : List Bar)
    → length w ≡ 3
    → gap_of timestamp side (map_from frame_at s w)
      ≡ Option.map (report timestamp side (s + 2)) (found_in side s (get_elem? w 0) (get_elem? w 2))
unfolding gap_of found_in
three timestamp bear s (a ∷ m ∷ z ∷ []) h = ground arith
three timestamp bull s (a ∷ m ∷ z ∷ []) h = ground arith
three timestamp side s [] h = absurd (omega arith)
three timestamp side s (a ∷ []) h = absurd (omega arith)
three timestamp side s (a ∷ m ∷ []) h = absurd (omega arith)
three timestamp side s (a ∷ m ∷ z ∷ y ∷ w) h = absurd (omega arith)

few :
    (timestamp : ℕ) (side : Side) (w : List Bar)
    → length w < 3
    → gap_of timestamp side (map_from frame_at 0 w) ≡ none
unfolding gap_of
few timestamp bull [] h = refl
few timestamp bull (a ∷ []) h = refl
few timestamp bull (a ∷ m ∷ []) h = refl
few timestamp bear [] h = refl
few timestamp bear (a ∷ []) h = refl
few timestamp bear (a ∷ m ∷ []) h = refl
few timestamp side (a ∷ m ∷ z ∷ w) h = absurd (omega arith)

new-window : new.window ≡ last 3 (map_from frame_at 0 [])
unfolding new
new-window = sym (last_all 3 [] (omega arith))

-- Fed every bar of the day so far, the detector reports a gap exactly when the batch program finds
-- one ending at the newest bar, with its edges, its frame candle and the newest bar's place.
pub check_fvg-find_fvg :
    (timestamp : ℕ) (side : Side) (bars : List Bar)
    → check_fvg (feed new 0 bars) timestamp side
      ≡ Option.map (report timestamp side (length bars - 1)) (find_fvg bars (length bars - 1) side)
unfolding check_fvg find_fvg
check_fvg-find_fvg timestamp side bars =
    let n = length bars in
    let held : (feed new 0 bars).window ≡ last 3 (map_from frame_at 0 bars) =
      window-feed new [] bars new-window in
    rw held (elim (Bool-cases (ltb (n - 1) 2)) [
      | inl early ↦
          rw
            (last_all 3 (map_from frame_at 0 bars)
              (ground (arith, length-map_from frame_at 0 bars)))
            (rw (few timestamp side bars (ground arith)) (rw early))
      | inr late ↦
          let s = n - 3 in
          let size : length (drop s bars) ≡ 3 = ground (arith, length-drop s bars) in
          let front : s + 0 ≡ n - 1 - 2 = ground arith in
          let back : s + 2 ≡ n - 1 = ground arith in
          let start : s ≡ n - 1 - 2 = ground arith in
          rw (last-map_from frame_at 3 bars, three timestamp side s (drop s bars) size)
            (rw (late, get_elem?-drop s 0 bars, get_elem?-drop s 2 bars, back, front, start))
    ])
