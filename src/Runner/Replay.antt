-- ===== src/Runner/Replay.antt =====
-- The recovery of a missed day replays its bars: what that leaves is what the live day would have left.
use mathlib.Core.Path.{subst}
use the_bot.Common.{
  ℕ, ◌-◌, ◌≡◌, refl, ap, sym, Bool, true, false, List, [], ◌∷◌, ◌++◌, length, Option, none, some,
  if◌then◌else◌,
}
use the_bot.Common.Floats.{Arith}
use the_bot.Detection.Bars.{Bar}
use the_bot.Detection.Gate.{Gate, gate_for_day}
use the_bot.Detection.Orchestrator as Orchestrator
use the_bot.DayState.{CurrentDay, update_daily_range, is_session_bar, ready_to_decide}
use the_bot.Orders.Broker.{returned, done}
use the_bot.Orders.Sizing.{Rounding}
use the_bot.Runner.Hub.{DayRun, new_day, Hub, Outcome, and_then}
use the_bot.Runner.Day.{
  show_bar, flush_new_events, decide, decide_day, show_next, advance, take_bar, take_bars,
  replay_historical_day,
}
use the_bot.Runner.Told.{Same, Same-refl}
use the_bot.Runner.Alike.{
  HasReturned, and_then-HasReturned, show_bar-alike, flush-alike, decide-alike,
}

-- The day once its range is updated, and once `b` is appended.
abbrev in_range : Bar → DayRun → DayRun
in_range b d = record d { day = update_daily_range d.day b }

abbrev with_bar : Bar → DayRun → DayRun
with_bar b d =
    let day = update_daily_range d.day b in
    record d { day = record day { bars = day.bars ++ b ∷ [] } }

in_range-alike : (b : Bar) (d d' : DayRun) → Same d d' → Same (in_range b d) (in_range b d')
in_range-alike b d d' s = record {
  same_day = ap (λ (c : CurrentDay). update_daily_range c b) s.same_day;
  same_tradeable = s.same_tradeable;
  same_orchestrator = s.same_orchestrator;
  same_narrative = s.same_narrative;
}

with_bar-alike : (b : Bar) (d d' : DayRun) → Same d d' → Same (with_bar b d) (with_bar b d')
with_bar-alike b d d' s = record {
  same_day =
      ap
        (λ (c : CurrentDay).
          let day = update_daily_range c b in record day { bars = day.bars ++ b ∷ [] })
        s.same_day;
  same_tradeable = s.same_tradeable;
  same_orchestrator = s.same_orchestrator;
  same_narrative = s.same_narrative;
}

module _ {World World' : Type 0} (hub : Hub World) (hub' : Hub World') (fl : Arith)
    (ro ro' : Rounding) where
  -- Where both came back, what they came back with is alike.
  abbrev Alike : Outcome (DayRun × World) → Outcome (DayRun × World') → Type 0
  Alike o o' = HasReturned o → HasReturned o' → Same o.1.0 o'.1.0

  show_next-Alike :
      (s s' : Option Orchestrator.Day) (b : Bar) (d d' : DayRun) (w : World) (w' : World')
      → s' ≡ s
      → Same d d'
      → Alike (show_next hub fl ro s b (d, w)) (show_next hub' fl ro' s' b (d', w'))
  show_next-Alike none s' b d d' w w' e m back back' = cc
  show_next-Alike (some x) none b d d' w w' e m back back' = cc
  show_next-Alike (some x) (some y) b d d' w w' e m back back' =
      let same : x ≡ y = cc in
      let at = length d.day.bars - 1 in
      let after = λ (z : Orchestrator.Day) (n : ℕ). show_bar hub' fl ro' z n b (d', w') in
      subst
        (λ z.
          Same (show_next hub fl ro (some x) b (d, w)).1.0
            (show_next hub' fl ro' (some z) b (d', w')).1.0)
        same
        (subst
          (λ (c : CurrentDay).
            Same (show_next hub fl ro (some x) b (d, w)).1.0
              (flush_new_events hub' fl ro' (after x (length c.bars - 1))).1.0)
          (sym m.same_day)
          (flush-alike hub hub' fl ro ro' (show_bar hub fl ro x at b (d, w)) (after x at)
            (show_bar-alike hub hub' fl ro ro' x at b d d' w w' m)))

  if-Alike :
      (c c' : Bool) (o p : Outcome (DayRun × World)) (o' p' : Outcome (DayRun × World'))
      → c' ≡ c
      → Alike o o'
      → Alike p p'
      → Alike (if c then o else p) (if c' then o' else p')
  if-Alike true true o p o' p' e h g = h
  if-Alike true false o p o' p' e h g = cc
  if-Alike false true o p o' p' e h g = cc
  if-Alike false false o p o' p' e h g = g

  advance-Alike :
      (fomc_dates : List ℕ) (gate : Gate) (live live' decided ready : Bool) (b : Bar)
      (d d' : DayRun) (w : World) (w' : World')
      → Same d d'
      → Alike
          (advance hub fl ro fomc_dates gate live decided ready b (d, w))
          (advance hub' fl ro' fomc_dates gate live' decided ready b (d', w'))
  unfolding decide_day
  advance-Alike fomc_dates gate live live' false false b d d' w w' m = λ back back'. m
  advance-Alike fomc_dates gate live live' false true b d d' w w' m =
      let choice = λ (c : CurrentDay). gate_for_day fomc_dates gate c.date c.bars in
      subst
        (λ (c : CurrentDay).
          Alike (decide hub fl ro live (choice d.day) (d, w))
            (decide hub' fl ro' live' (choice c) (d', w')))
        (sym m.same_day) (decide-alike hub hub' fl ro ro' live live' (choice d.day) d d' w w' m)
  advance-Alike fomc_dates gate live live' true ready b d d' w w' m =
      if-Alike d.tradeable d'.tradeable (show_next hub fl ro d.orchestrator b (d, w))
        (returned done, (d, w)) (show_next hub' fl ro' d'.orchestrator b (d', w'))
        (returned done, (d', w')) m.same_tradeable
        (show_next-Alike d.orchestrator d'.orchestrator b d d' w w' m.same_orchestrator m)
        (λ back back'. m)

  take_bar-Alike :
      (fomc_dates : List ℕ) (gate : Gate) (live live' : Bool) (b : Bar) (d d' : DayRun) (w : World)
      (w' : World')
      → Same d d'
      → Alike
          (take_bar hub fl ro fomc_dates gate live b (d, w))
          (take_bar hub' fl ro' fomc_dates gate live' b (d', w'))
  unfolding take_bar
  take_bar-Alike fomc_dates gate live live' b d d' w w' m =
      let m' = with_bar-alike b d d' m in
      let go = λ (c : CurrentDay).
        advance hub' fl ro' fomc_dates gate live' c.decided (ready_to_decide c) b
          (with_bar b d', w') in
      let c = (with_bar b d).day in
      let o =
        advance hub fl ro fomc_dates gate live c.decided (ready_to_decide c) b (with_bar b d, w) in
      if-Alike (is_session_bar b) (is_session_bar b) o (returned done, (in_range b d, w))
        (go (with_bar b d').day) (returned done, (in_range b d', w')) refl
        (subst (λ (k : CurrentDay). Alike o (go k)) (sym m'.same_day)
          (advance-Alike fomc_dates gate live live' c.decided (ready_to_decide c) b (with_bar b d)
            (with_bar b d') w w' m'))
        (λ back back'. in_range-alike b d d' m)

  bars-Alike :
      (fomc_dates : List ℕ) (gate : Gate) (live live' : Bool) (bars : List Bar) (d d' : DayRun)
      (w : World) (w' : World')
      → Same d d'
      → Alike
          (take_bars hub fl ro fomc_dates gate live bars (d, w))
          (take_bars hub' fl ro' fomc_dates gate live' bars (d', w'))
  unfolding take_bars
  bars-Alike fomc_dates gate live live' [] d d' w w' m back back' = m
  bars-Alike fomc_dates gate live live' (b ∷ bars) d d' w w' m back back' =
      let o = take_bar hub fl ro fomc_dates gate live b (d, w) in
      let o' = take_bar hub' fl ro' fomc_dates gate live' b (d', w') in
      let (first, rest, is) =
        and_then-HasReturned o (take_bars hub fl ro fomc_dates gate live bars) back in
      let (first', rest', is') =
        and_then-HasReturned o' (take_bars hub' fl ro' fomc_dates gate live' bars) back' in
      subst
        (λ (t : DayRun × World).
          Same t.0 (and_then o' (take_bars hub' fl ro' fomc_dates gate live' bars)).1.0)
        (sym is)
        (subst
          (λ (t : DayRun × World').
            Same (take_bars hub fl ro fomc_dates gate live bars o.1).1.0 t.0)
          (sym is')
          (bars-Alike fomc_dates gate live live' bars o.1.0 o'.1.0 o.1.1 o'.1.1
            (take_bar-Alike fomc_dates gate live live' b d d' w w' m first first') rest rest'))

  -- When neither raises, a day that is replayed from its bars, with another database and other
  -- subscribers, ends with the same bars and range, decided alike, with the same orchestrator, and has
  -- told the same as the day that took the bars live.
  pub replay_historical_day-Same :
      (fomc_dates : List ℕ) (gate : Gate) (date : ℕ) (bars : List Bar) (w : World) (w' : World')
      → HasReturned (take_bars hub fl ro fomc_dates gate false bars (new_day date, w))
      → HasReturned (replay_historical_day hub' fl ro' fomc_dates gate date bars w')
      → Same
          (take_bars hub fl ro fomc_dates gate false bars (new_day date, w)).1.0
          (replay_historical_day hub' fl ro' fomc_dates gate date bars w').1.0
  unfolding replay_historical_day
  replay_historical_day-Same fomc_dates gate date bars w w' =
      bars-Alike fomc_dates gate false true bars (new_day date) (new_day date) w w'
        (Same-refl (new_day date))
