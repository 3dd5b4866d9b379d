-- ===== src/Detection/Gate/Session.antt =====
-- The decision of `gate_for_day` and the bounds of the Kill Zone that it hands on.
use the_bot.Common.{
  ℕ, zero, suc, ◌+◌, ◌≤◌, ◌<◌, ◌≡◌, refl, sym, ◌⊎◌, inl, inr, true, false, List, [], ◌∷◌, none,
  some, arith, ltb, leb, All, Bool-cases, Option-cases, length, get_elem?, take, leb→le,
}
use mathlib.Core.Path.{subst}
use the_bot.Detection.Bars.{Bar, Trend}
use the_bot.Detection.Gate.{
  Gate, Selection, skip, tradeable, fomc, no_trend, insufficient_bars, no_session_start, contains,
  first_from, at_hour, session_of, trend_for_today, gate_for_day,
}

abbrev pub IsBefore : ℕ → Bar → Type 0
IsBefore time b = b.time < time

-- The bar at `i` is the first at or after a time.
pub record IsFirst (time : ℕ) (bars : List Bar) (i : ℕ) : Type 0 where
  pub bar : Bar
  pub found : get_elem? bars i ≡ some bar
  pub reached : time ≤ bar.time
  pub before : All (IsBefore time) (take i bars)

IsFirst-cons :
    (time : ℕ) (b : Bar) (bars : List Bar) (i : ℕ)
    → b.time < time
    → IsFirst time bars i
    → IsFirst time (b ∷ bars) (suc i)
IsFirst-cons time b bars i h f = record {
  bar = f.bar;
  found = f.found;
  reached = f.reached;
  before = (h, f.before);
}

-- The loop finds the first such bar, or there is none.
first_from-IsFirst :
    (time s : ℕ) (bars : List Bar)
    → ((first_from time s bars ≡ none) × All (IsBefore time) bars)
      ⊎ ((i : ℕ) × (first_from time s bars ≡ some (s + i)) × IsFirst time bars i)
unfolding first_from
first_from-IsFirst time s [] = inl (refl, tt)
first_from-IsFirst time s (b ∷ bars) = elim (Bool-cases (leb time b.time)) [
  | inl now ↦ inr (
    0,
    rw now (ground arith),
    record { bar = b; found = refl; reached = leb→le time b.time now; before = tt },
  )
  | inr not_yet ↦
      let early : b.time < time = ground arith in
      elim (first_from-IsFirst time (suc s) bars) [
        | inl (e, h) ↦ inl (rw not_yet e, (early, h))
        | inr (i, e, f) ↦ inr (suc i, rw not_yet (ground arith), IsFirst-cons time b bars i early f)
      ]
]

-- The place of the first bar after a later time does not come earlier.
IsFirst-le :
    (early late : ℕ) (bars : List Bar) (i j : ℕ)
    → early ≤ late
    → IsFirst early bars i
    → IsFirst late bars j
    → i ≤ j
IsFirst-le early late bars zero j h f g = omega arith
IsFirst-le early late [] (suc i) j h f g = cc (f.found)
IsFirst-le early late (b ∷ bars) (suc i) zero h f g = absurd (ground (arith, f.before.0))
IsFirst-le early late (b ∷ bars) (suc i) (suc j) h f g = omega (
  arith,
  IsFirst-le early late bars i j h
      (record { bar = f.bar; found = f.found; reached = f.reached; before = f.before.1 })
      (record { bar = g.bar; found = g.found; reached = g.reached; before = g.before.1 }),
)

get_elem?-lt-length :
    (bars : List Bar) (i : ℕ) {b : Bar} → get_elem? bars i ≡ some b → i < length bars
get_elem?-lt-length [] i h = cc
get_elem?-lt-length (b ∷ bars) zero h = omega arith
get_elem?-lt-length (b ∷ bars) (suc i) h = omega (arith, get_elem?-lt-length bars i h)

-- The end of the Kill Zone: the first bar at or after 10:00, or the end of the bars.
abbrev pub IsEnd : ℕ → List Bar → ℕ → Type 0
IsEnd time bars e = IsFirst time bars e ⊎ ((e ≡ length bars) × All (IsBefore time) bars)

-- A day that may be traded, with its bounds.
pub record IsSession (date : ℕ) (bars : List Bar) (s e : ℕ) : Type 0 where
  pub enough : 12 ≤ length bars
  pub start : IsFirst (at_hour date 7) bars s
  pub end : IsEnd (at_hour date 10) bars e
  pub ordered : s ≤ e
  pub bounded : e ≤ length bars

session_of-IsSession :
    (date : ℕ) (bars : List Bar) (trend : Trend)
    → 12 ≤ length bars
    → ((session_of date bars trend ≡ skip no_session_start) × All (IsBefore (at_hour date 7)) bars)
      ⊎ ((s : ℕ) × (e : ℕ) × (session_of date bars trend ≡ tradeable trend s e)
          × IsSession date bars s e)
unfolding session_of
session_of-IsSession date bars trend enough = elim (first_from-IsFirst (at_hour date 7) 0 bars) [
  | inl (e, early) ↦ inl (rw (e, session_of), early)
  | inr (s, at, start) ↦
      let at' : first_from (at_hour date 7) 0 bars ≡ some s = ground arith in
      let inside = get_elem?-lt-length bars s start.found in
      elim (first_from-IsFirst (at_hour date 10) 0 bars) [
        | inl (e, early) ↦ inr (
          s,
          length bars,
          rw (at', e, session_of),
          record {
            enough = enough;
            start = start;
            end = inr (refl, early);
            ordered = omega arith;
            bounded = omega arith;
          },
        )
        | inr (e, found, last) ↦
            let found' : first_from (at_hour date 10) 0 bars ≡ some e = ground arith in
            inr (
              s,
              e,
              rw (at', found', session_of),
              record {
                enough = enough;
                start = start;
                end = inl last;
                ordered =
                    IsFirst-le (at_hour date 7) (at_hour date 10) bars s e (omega arith) start last;
                bounded = omega (arith, get_elem?-lt-length bars e last.found);
              },
            )
      ]
]

-- The four reasons to skip a day, in the order in which they are tried, and what a day is that is
-- not skipped.
abbrev pub Decided : List ℕ → Gate → ℕ → List Bar → Selection → Type 0
Decided fomc_dates g date bars (skip fomc) = contains fomc_dates date ≡ true
Decided fomc_dates g date bars (skip no_trend) =
    (contains fomc_dates date ≡ false) × (trend_for_today g ≡ none)
Decided fomc_dates g date bars (skip insufficient_bars) =
    (contains fomc_dates date ≡ false)
    × ((trend : Trend) × (trend_for_today g ≡ some trend))
    × (length bars < 12)
Decided fomc_dates g date bars (skip no_session_start) =
    (contains fomc_dates date ≡ false)
    × ((trend : Trend) × (trend_for_today g ≡ some trend))
    × (12 ≤ length bars)
    × All (IsBefore (at_hour date 7)) bars
Decided fomc_dates g date bars (tradeable trend s e) =
    (contains fomc_dates date ≡ false) × (trend_for_today g ≡ some trend) × IsSession date bars s e

-- `gate_for_day` skips a meeting day; else a day with no trend; else one with fewer than 12 bars;
-- else one with no bar at or after 7:00. Any other day is traded with today's trend, from the first
-- bar at or after 7:00 up to the first at or after 10:00 or, against the module's docstring, which has
-- such a day skipped, the end of the bars; these bounds are in order and lie within the bars.
pub gate_for_day-Decided :
    (fomc_dates : List ℕ) (g : Gate) (date : ℕ) (bars : List Bar)
    → Decided fomc_dates g date bars (gate_for_day fomc_dates g date bars)
unfolding gate_for_day
gate_for_day-Decided fomc_dates g date bars = elim (Bool-cases (contains fomc_dates date)) [
  | inl meeting ↦ decide (skip fomc) (rw (meeting, gate_for_day)) meeting
  | inr ordinary ↦ elim (Option-cases (trend_for_today g)) [
    | inl none_today ↦
        decide (skip no_trend) (rw (ordinary, none_today, gate_for_day)) (ordinary, none_today)
    | inr (trend, is) ↦ elim (Bool-cases (ltb (length bars) 12)) [
      | inl few ↦
          decide (skip insufficient_bars) (rw (ordinary, is, few, gate_for_day))
            (ordinary, (trend, is), ground arith)
      | inr many ↦
          let enough : 12 ≤ length bars = ground arith in
          elim (session_of-IsSession date bars trend enough) [
            | inl (e, early) ↦
                decide (skip no_session_start) (rw (ordinary, is, many, e, gate_for_day))
                  (ordinary, (trend, is), enough, early)
            | inr (s, e, at, session) ↦
                decide (tradeable trend s e) (rw (ordinary, is, many, at, gate_for_day))
                  (ordinary, is, session)
          ]
    ]
  ]
]
  where
    decide :
        (x : Selection)
        → gate_for_day fomc_dates g date bars ≡ x
        → Decided fomc_dates g date bars x
        → Decided fomc_dates g date bars (gate_for_day fomc_dates g date bars)
    decide x e d = subst (Decided fomc_dates g date bars) (sym e) d
