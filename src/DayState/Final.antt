-- ===== src/DayState/Final.antt =====
-- Why the runner waits until ten: from then on the decision about the day is final.
use mathlib.Core.Path.{subst}
use the_bot.Common.{
  ℕ, suc, ◌/◌, ◌≤◌, ◌≡◌, refl, Bool, true, false, List, [], ◌∷◌, ◌++◌, Option, none, some, arith,
  Bool-cases, Option-cases, inl, inr, leb, leb→le, le→leb, not, ◌&&◌, ltb, le→ltb, length,
  length-append, All,
}
use the_bot.Detection.Bars.{Bar, Trend}
use the_bot.Detection.Gate.{Gate, first_from, session_of, gate_for_day, at_hour, trend_for_today}
use the_bot.DayState.{CurrentDay, is_late, last_bar, ready_to_decide, time_of, decision_ready_time}

-- The bar is of the date.
abbrev pub IsOn : ℕ → Bar → Type 0
IsOn date b = b.time / 1440 ≡ date

-- Whatever bars follow, the gate decides the same.
abbrev pub IsFinal : List ℕ → Gate → CurrentDay → Type 0
IsFinal fomc_dates g d =
    (more : List Bar)
    → gate_for_day fomc_dates g d.date (d.bars ++ more) ≡ gate_for_day fomc_dates g d.date d.bars

first_from-append :
    (time i n : ℕ) (xs ys : List Bar)
    → first_from time i xs ≡ some n
    → first_from time i (xs ++ ys) ≡ some n
unfolding first_from
first_from-append time i n [] ys h = cc
first_from-append time i n (b ∷ xs) ys h = elim (Bool-cases (leb time b.time)) [
  | inl hit ↦ rw (hit, first_from) (rw (hit, first_from) at h)
  | inr miss ↦
      rw (miss, first_from) (first_from-append time (suc i) n xs ys (rw (miss, first_from) at h))
]

-- A list whose last bar is late enough has a first one that is.
first_from-last :
    (time i : ℕ) (xs : List Bar) (b : Bar)
    → last_bar xs ≡ some b
    → time ≤ b.time
    → (n : ℕ) × (first_from time i xs ≡ some n)
unfolding first_from
first_from-last time i [] b h late = cc
first_from-last time i (c ∷ []) b h late =
    let same : c ≡ b = cc in
    let hit : leb time c.time ≡ true = rw same (le→leb time b.time late) in
    (i, rw (hit, first_from) refl)
first_from-last time i (c ∷ d ∷ xs) b h late = elim (Bool-cases (leb time c.time)) [
  | inl hit ↦ (i, rw (hit, first_from) refl)
  | inr miss ↦
      let (n, e) = first_from-last time (suc i) (d ∷ xs) b h late in (n, rw (miss, first_from) e)
]

late-last :
    (decided : Bool) (o : Option Bar)
    → (not decided && is_late o) ≡ true
    → (b : Bar) × (o ≡ some b) × (decision_ready_time ≤ time_of b)
late-last true o h = cc
late-last false none h = cc
late-last false (some b) h = (b, refl, leb→le decision_ready_time (time_of b) h)

All-last_bar : (P : Bar → Type 0) (xs : List Bar) (b : Bar) → All P xs → last_bar xs ≡ some b → P b
All-last_bar P [] b h e = cc
All-last_bar P (c ∷ []) b h e = let same : c ≡ b = cc in subst P same h.0
All-last_bar P (c ∷ d ∷ xs) b h e = All-last_bar P (d ∷ xs) b h.1 e

session_of-append :
    (date : ℕ) (bars more : List Bar) (trend : Trend) (s e : ℕ)
    → first_from (at_hour date 7) 0 bars ≡ some s
    → first_from (at_hour date 10) 0 bars ≡ some e
    → session_of date (bars ++ more) trend ≡ session_of date bars trend
unfolding session_of
session_of-append date bars more trend s e h h' =
    let g = first_from-append (at_hour date 7) 0 s bars more h in
    let g' = first_from-append (at_hour date 10) 0 e bars more h' in
    rw (h, h', g, g', session_of) refl

-- Once the day is ready to be decided, on bars of its own date and no fewer than the gate asks for, the
-- gate's decision is final: it is the same for every continuation of the day.
pub ready_to_decide-IsFinal :
    (fomc_dates : List ℕ) (g : Gate) (d : CurrentDay)
    → All (IsOn d.date) d.bars
    → 12 ≤ length d.bars
    → ready_to_decide d ≡ true
    → IsFinal fomc_dates g d
unfolding gate_for_day ready_to_decide
ready_to_decide-IsFinal fomc_dates g d on_date enough ready more =
    let (b, last, late) = late-last d.decided (last_bar d.bars) ready in
    let same_date : b.time / 1440 ≡ d.date = All-last_bar (IsOn d.date) d.bars b on_date last in
    let (s, start) =
      first_from-last (at_hour d.date 7) 0 d.bars b last (omega (arith, same_date, late)) in
    let (e, end) =
      first_from-last (at_hour d.date 10) 0 d.bars b last (omega (arith, same_date, late)) in
    let few : ltb (length d.bars) 12 ≡ false = le→ltb (length d.bars) 12 enough in
    let few' : ltb (length (d.bars ++ more)) 12 ≡ false =
      le→ltb (length (d.bars ++ more)) 12 (omega (arith, enough, length-append d.bars more)) in
    elim (Option-cases (trend_for_today g)) [
      | inl unknown ↦ rw (unknown, gate_for_day) refl
      | inr (trend, known) ↦
          let same = session_of-append d.date d.bars more trend s e start end in
          rw (known, few, few', same, gate_for_day) refl
    ]
