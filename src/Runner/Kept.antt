-- ===== src/Runner/Kept.antt =====
-- What a processed bar leaves of the day: `_process_bar` of shadow_runner/runner.py.
use mathlib.Core.Path.{subst}
use the_bot.Common.{
  ℕ, suc, ◌/◌, ◌≤◌, ◌<◌, ◌≡◌, refl, ap, sym, ◌∙◌, inl, inr, arith, Bool, true, false, not, ◌&&◌,
  ◌||◌, List, [], ◌∷◌, ◌++◌, Option, none, some, leb, ltb, ◌==◌, Bool-cases, if◌then◌else◌,
}
use the_bot.Common.Floats.{Arith}
use the_bot.Detection.Bars.{Bar, Trend}
use the_bot.Detection.Gate.{Gate, Selection, skip, tradeable, gate_for_day}
use the_bot.Detection.Orchestrator as Orchestrator
use the_bot.DayState.{
  CurrentDay, highest, lowest, last_bar, time_of, decision_ready_time, is_late, update_daily_range,
  is_session_bar, ready_to_decide,
}
use the_bot.Orders.Broker.{raised, returned, done}
use the_bot.Orders.Sizing.{Rounding}
use the_bot.Runner.Hub.{DayRun, new_day, day_trend_determined, Hub, Outcome, and_then}
use the_bot.Runner.Day.{
  append_event, time_of_last, show_to, backfill, begin, decide, decide_day, show_next, advance,
  subscribers, take_bar,
}
use the_bot.Runner.Told.{show_bar-Shows, flush-Same, subscribers-Same}
use the_bot.Runner.Wedge.{last_bar-append}
use the_bot.Runner.Alike.{HasReturned, and_then-HasReturned}
use the_bot.Runner.Bars.{Runner, finalize_day, take, to_day, process_bar, process_bars}

-- The day once it has taken the bar: its range covers the bar, a session bar is its last bar, and one at
-- or after 10:00 has it decided.
abbrev pub with_bar : Bar → CurrentDay → CurrentDay
with_bar b c = record {
  date = c.date;
  bars = if is_session_bar b then c.bars ++ b ∷ [] else c.bars;
  day_high = highest c.day_high b.high;
  day_low = lowest c.day_low b.low;
  last_bar_seen = some b;
  decided = c.decided || (is_session_bar b && leb decision_ready_time (time_of b));
}

-- A day with no bars.
abbrev pub fresh_day : ℕ → CurrentDay
fresh_day date = record {
  date = date;
  bars = [];
  day_high = none;
  day_low = none;
  last_bar_seen = none;
  decided = false;
}

or-ready : (a c : Bool) → (a || (not a && c)) ≡ (a || c)
or-ready true c = refl
or-ready false c = refl

module _ {World : Type 0} (hub : Hub World) (fl : Arith) (ro : Rounding) where
  show_to-day :
      (o : Option Orchestrator.Day) (idx : ℕ) (b : Bar) (d : DayRun) (w : World)
      → (show_to hub fl ro o idx b (d, w)).0.day ≡ d.day
  show_to-day none idx b d w = refl
  show_to-day (some day) idx b d w = (show_bar-Shows hub fl ro day idx b d w).same_day

  backfill-day :
      (idx : ℕ) (bars : List Bar) (d : DayRun) (w : World)
      → (backfill hub fl ro idx bars (d, w)).0.day ≡ d.day
  backfill-day idx [] d w = refl
  backfill-day idx (b ∷ bars) d w =
      let (d', w') = show_to hub fl ro d.orchestrator idx b (d, w) in
      backfill-day (suc idx) bars d' w' ∙ show_to-day d.orchestrator idx b d w

  begin-day :
      (trend : Trend) (s e : ℕ) (t : DayRun × World)
      → (begin hub fl ro trend s e t).1.0.day ≡ t.0.day
  begin-day trend s e (d, w) =
      let d' = record d { orchestrator = some (Orchestrator.new trend s e) } in
      let (d'', w') = backfill hub fl ro 0 d.day.bars (d', w) in
      (flush-Same hub fl ro d'' w').same_day ∙ backfill-day 0 d.day.bars d' w

  and_then-day :
      (c : CurrentDay) (o : Outcome (DayRun × World))
      (f : DayRun × World → Outcome (DayRun × World))
      → o.1.0.day ≡ c
      → ((t : DayRun × World) → (f t).1.0.day ≡ t.0.day)
      → (and_then o f).1.0.day ≡ c
  and_then-day c (raised x, t) f h go = h
  and_then-day c (returned x, t) f h go = go t ∙ h

  decide-day :
      (historical : Bool) (selection : Selection) (d : DayRun) (w : World)
      → (decide hub fl ro historical selection (d, w)).1.0.day ≡ record d.day { decided = true }
  decide-day historical (skip reason) d w = refl
  decide-day historical (tradeable trend s e) d w =
      let d1 = record d {
        day = record d.day { decided = true };
        tradeable = true;
        trend = some trend;
      } in
      let d2 = append_event (day_trend_determined trend (time_of_last d.day.bars)) d1 in
      and_then-day d2.day (subscribers hub fl ro historical (d2, w)) (begin hub fl ro trend s e)
        (subscribers-Same hub fl ro historical (d2, w)).same_day (begin-day trend s e)

  show_next-day :
      (o : Option Orchestrator.Day) (b : Bar) (d : DayRun) (w : World)
      → (show_next hub fl ro o b (d, w)).1.0.day ≡ d.day
  show_next-day none b d w = refl
  show_next-day (some day) b d w =
      let (d', w') = show_to hub fl ro (some day) _ b (d, w) in
      (flush-Same hub fl ro d' w').same_day ∙ (show_bar-Shows hub fl ro day _ b d w).same_day

  advance-day :
      (fomc_dates : List ℕ) (gate : Gate) (historical decided ready : Bool) (b : Bar) (d : DayRun)
      (w : World)
      → d.day.decided ≡ decided
      → (advance hub fl ro fomc_dates gate historical decided ready b (d, w)).1.0.day
        ≡ record d.day { decided = decided || ready }
  unfolding decide_day
  advance-day fomc_dates gate historical false false b d w h =
      ap (λ x. record d.day { decided = x }) h
  advance-day fomc_dates gate historical false true b d w h =
      decide-day historical (gate_for_day fomc_dates gate d.day.date d.day.bars) d w
  advance-day fomc_dates gate historical true ready b d w h =
      traded d.tradeable ∙ ap (λ x. record d.day { decided = x }) h
    where
      traded :
          (c : Bool)
          → (if c
              then show_next hub fl ro d.orchestrator b (d, w)
              else (returned done, (d, w))).1.0.day
            ≡ d.day
      traded true = show_next-day d.orchestrator b d w
      traded false = refl

  take_bar-with_bar :
      (fomc_dates : List ℕ) (gate : Gate) (historical : Bool) (b : Bar) (d : DayRun) (w : World)
      → (take_bar hub fl ro fomc_dates gate historical b (d, w)).1.0.day ≡ with_bar b d.day
  unfolding take_bar update_daily_range ready_to_decide
  take_bar-with_bar fomc_dates gate historical b d w = elim (Bool-cases (is_session_bar b)) [
    | inl is ↦
        let day = update_daily_range d.day b in
        let d' = record d { day = record day { bars = day.bars ++ b ∷ [] } } in
        let late : is_late (last_bar d'.day.bars) ≡ leb decision_ready_time (time_of b) =
          ap is_late (last_bar-append d.day.bars b) in
        let ready : (d.day.decided || ready_to_decide d'.day)
            ≡ (d.day.decided || leb decision_ready_time (time_of b)) =
          or-ready d.day.decided (is_late (last_bar d'.day.bars))
          ∙ ap (λ x. d.day.decided || x) late in
        rw is (
          advance-day fomc_dates gate historical d.day.decided (ready_to_decide d'.day) b d' w refl
          ∙ ap (λ x. record d'.day { decided = x }) ready)
    | inr is_not ↦
        rw is_not
          (ap (λ x. record (update_daily_range d.day b) { decided = x }) (or_false d.day.decided))
  ]
    where
      or_false : (a : Bool) → a ≡ (a || false)
      or_false true = refl
      or_false false = refl

  -- What becomes of the bar: it is passed over, being of a date before today's while there is no day;
  -- or the day that the runner has next has taken it, be it the current one, of the bar's date, or a new
  -- one, when there is none or it is of another date.
  pub data Takes (b : Bar) (s t : Runner × World) : Type 0 where
    stale : s.0.current_day ≡ none → b.time / 1440 < hub.now s.1 / 1440 → t ≡ s → Takes b s t
    begins :
        (d : DayRun)
        → s.0.current_day ≡ none
        → hub.now s.1 / 1440 ≤ b.time / 1440
        → t.0.current_day ≡ some d
        → d.day ≡ with_bar b (fresh_day (b.time / 1440))
        → Takes b s t
    continues :
        (d d' : DayRun)
        → s.0.current_day ≡ some d
        → b.time / 1440 ≡ d.day.date
        → t.0.current_day ≡ some d'
        → d'.day ≡ with_bar b d.day
        → Takes b s t
    changes :
        (d d' : DayRun)
        → s.0.current_day ≡ some d
        → ¬ (b.time / 1440 ≡ d.day.date)
        → t.0.current_day ≡ some d'
        → d'.day ≡ with_bar b (fresh_day (b.time / 1440))
        → Takes b s t

  -- The bars, in turn, each counted as processed once it is taken or passed over.
  pub data Processes : List Bar → Runner × World → Runner × World → Type 0 where
    no_more : (s : Runner × World) → Processes [] s s
    one_more :
        (b : Bar) (bars : List Bar) (s t u : Runner × World)
        → Takes b s t
        → Processes bars (record t.0 { last_processed = some b.time }, t.1) u
        → Processes (b ∷ bars) s u

  to_day-Takes :
      (fomc_dates : List ℕ) (b : Bar) (o : Option DayRun) (r : Runner) (w : World)
      → r.current_day ≡ o
      → HasReturned (to_day hub fl ro fomc_dates b o (r, w))
      → Takes b (r, w) (to_day hub fl ro fomc_dates b o (r, w)).1
  unfolding new_day
  to_day-Takes fomc_dates b none r w is back =
      elim (Bool-cases (ltb (b.time / 1440) (hub.now w / 1440))) [
        | inl early ↦ rw early (stale is (ground arith) refl)
        | inr timely ↦
            let d = new_day (b.time / 1440) in
            let o = take_bar hub fl ro fomc_dates r.gate false b (d, w) in
            rw timely (
              begins o.1.0 is (ground arith) refl (take_bar-with_bar fomc_dates r.gate false b d w))
      ]
  to_day-Takes fomc_dates b (some d) r w is back = elim (Bool-cases (b.time / 1440 == d.day.date)) [
    | inl same ↦
        let o = take_bar hub fl ro fomc_dates r.gate false b (d, w) in
        rw same (
          continues d o.1.0 is (ground arith) refl
            (take_bar-with_bar fomc_dates r.gate false b d w))
    | inr other ↦
        let f = finalize_day hub fl ro r d w in
        let d' = new_day (b.time / 1440) in
        let back' = rw other at back in
        let (_, _, e) = and_then-HasReturned f (take hub fl ro fomc_dates b d') back' in
        let o = take_bar hub fl ro fomc_dates f.1.0.gate false b (d', f.1.1) in
        let differ : ¬ (b.time / 1440 ≡ d.day.date) = λ x. ground (arith, x) in
        rw other (
          changes d o.1.0 is differ (ap (λ (t : Runner × World). t.0.current_day) e)
            (take_bar-with_bar fomc_dates f.1.0.gate false b d' f.1.1))
  ]

  process_bar-Takes :
      (fomc_dates : List ℕ) (b : Bar) (s : Runner × World)
      → HasReturned (process_bar hub fl ro fomc_dates b s)
      → Takes b s (process_bar hub fl ro fomc_dates b s).1
  unfolding process_bar
  process_bar-Takes fomc_dates b (r, w) back = to_day-Takes fomc_dates b r.current_day r w refl back

  pub process_bars-Processes :
      (fomc_dates : List ℕ) (bars : List Bar) (s : Runner × World)
      → HasReturned (process_bars hub fl ro fomc_dates bars s)
      → Processes bars s (process_bars hub fl ro fomc_dates bars s).1
  unfolding process_bars
  process_bars-Processes fomc_dates [] s back = no_more s
  process_bars-Processes fomc_dates (b ∷ bars) s back =
      let o = process_bar hub fl ro fomc_dates b s in
      let go = λ (t : Runner × World).
        process_bars hub fl ro fomc_dates bars (record t.0 { last_processed = some b.time }, t.1) in
      let (back', rest, is) = and_then-HasReturned o go back in
      let s' : Runner × World = (record o.1.0 { last_processed = some b.time }, o.1.1) in
      subst (Processes (b ∷ bars) s) (sym is) (
        one_more b bars s o.1 (go o.1).1 (process_bar-Takes fomc_dates b s back')
          (process_bars-Processes fomc_dates bars s' rest))
