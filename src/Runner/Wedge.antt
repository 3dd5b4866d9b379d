-- ===== src/Runner/Wedge.antt =====
-- What a day is left with when its decision is interrupted: it counts as decided and traded, and has no
-- orchestrator. `_decide_day` and `_process_bar` of shadow_runner/runner.py.
use mathlib.Core.Path.{subst}
use the_bot.Common.{
  ℕ, ◌/◌, ◌≡◌, arith, refl, ap, leb, sym, ◌∙◌, Bool, true, false, List, [], ◌∷◌, ◌++◌, Option, none,
  some, ◌==◌, if◌then◌else◌,
}
use the_bot.Common.Floats.{Arith}
use the_bot.Detection.Bars.{Bar, Trend}
use the_bot.Detection.Gate.{Selection, skip, tradeable, gate_for_day}
use the_bot.Detection.Orchestrator as Orchestrator
use the_bot.DayState.{
  CurrentDay, last_bar, time_of, decision_ready_time, update_daily_range, is_session_bar,
  ready_to_decide,
}
use the_bot.DayState.Final.{IsOn}
use the_bot.Orders.Broker.{Error, Reply, raised, returned, attribute_error, done}
use the_bot.Orders.Sizing.{Rounding}
use the_bot.Runner.Hub.{Subscriber, day_trend_determined, DayRun, Hub, Outcome, and_then}
use the_bot.Runner.Day.{
  append_event, time_of_last, subscribers_reply, begin, decide, decide_day, show_next, advance,
  take_bar,
}
use the_bot.Runner.Bars.{Runner, in_day, to_day, process_bar, process_bars}

-- The day with these bars, decided and traded, but without an orchestrator.
pub record IsWedged (date : ℕ) (bars : List Bar) (d : DayRun) : Type 0 where
  pub of_date : d.day.date ≡ date
  pub holds : d.day.bars ≡ bars
  pub decided : d.day.decided ≡ true
  pub traded : d.tradeable ≡ true
  pub no_one : d.orchestrator ≡ none

-- The runner's day is wedged, and `last` is the last bar that counts as processed.
pub record IsStuck (date : ℕ) (bars : List Bar) (last : Option ℕ) (r : Runner) : Type 0 where
  pub day : DayRun
  pub current : r.current_day ≡ some day
  pub wedged : IsWedged date bars day
  pub processed : r.last_processed ≡ last

pub last_bar-append : (bars : List Bar) (b : Bar) → last_bar (bars ++ b ∷ []) ≡ some b
last_bar-append [] b = refl
last_bar-append (c ∷ []) b = refl
last_bar-append (c ∷ d ∷ rest) b = last_bar-append (d ∷ rest) b

ready_to_decide-late :
    (d : CurrentDay) (b : Bar)
    → d.decided ≡ false
    → leb decision_ready_time (time_of b) ≡ true
    → last_bar d.bars ≡ some b
    → ready_to_decide d ≡ true
unfolding ready_to_decide
ready_to_decide-late d b open' late last = rw (open', last) late

module _ {World : Type 0} (hub : Hub World) (fl : Arith) (ro : Rounding) where
  -- The call raises, and the day is wedged.
  abbrev Fails : Error → ℕ → List Bar → Outcome (DayRun × World) → Type 0
  Fails x date bars o = (o.0 ≡ raised x) × IsWedged date bars o.1.0

  show_next-Fails :
      (date : ℕ) (bars : List Bar) (o : Option Orchestrator.Day) (b : Bar) (d : DayRun) (w : World)
      → o ≡ none
      → IsWedged date bars d
      → Fails attribute_error date bars (show_next hub fl ro o b (d, w))
  show_next-Fails date bars none b d w e h = (refl, h)
  show_next-Fails date bars (some x) b d w e h = cc

  advance-Fails :
      (fomc_dates : List ℕ) (date : ℕ) (bars : List Bar) (r : Runner) (decided ready : Bool)
      (b : Bar) (d : DayRun) (w : World)
      → decided ≡ true
      → IsWedged date bars d
      → Fails attribute_error date bars
          (advance hub fl ro fomc_dates r.gate false decided ready b (d, w))
  advance-Fails fomc_dates date bars r false ready b d w e h = cc
  advance-Fails fomc_dates date bars r true ready b d w e h = if-Fails d.tradeable h.traded
    where
      if-Fails :
          (c : Bool)
          → c ≡ true
          → Fails attribute_error date bars
              (if c then show_next hub fl ro d.orchestrator b (d, w) else (returned done, (d, w)))
      if-Fails true e' = show_next-Fails date bars d.orchestrator b d w h.no_one h
      if-Fails false e' = cc

  -- The decision to trade, when the subscribers cannot be read.
  decide-Fails :
      (trend : Trend) (s e : ℕ) (x : Error) (selection : Selection) (d : DayRun) (w : World)
      → selection ≡ tradeable trend s e
      → (hub.get_active_subscribers w).0 ≡ raised x
      → d.orchestrator ≡ none
      → Fails x d.day.date d.day.bars (decide hub fl ro false selection (d, w))
  decide-Fails trend s e x (skip reason) d w is answer no_one = cc
  decide-Fails trend s e x (tradeable trend' s' e') d w is answer no_one =
      let d1 = record d {
        day = record d.day { decided = true };
        tradeable = true;
        trend = some trend';
      } in
      let d2 = append_event (day_trend_determined trend' (time_of_last d.day.bars)) d1 in
      answered d2
        (record { of_date = refl; holds = refl; decided = refl; traded = refl; no_one = no_one })
        (hub.get_active_subscribers w).0 (hub.get_active_subscribers w).1 answer
    where
      answered :
          (d2 : DayRun)
          → IsWedged d.day.date d.day.bars d2
          → (reply : Reply (List Subscriber)) (v : World) → reply ≡ raised x
          → Fails x d.day.date d.day.bars
              (and_then (subscribers_reply hub fl ro reply (d2, v)) (begin hub fl ro trend' s' e'))
      answered d2 h (raised y) v a = (let g : raised y ≡ raised x = cc in g, h)
      answered d2 h (returned all) v a = cc

  advance-Interrupts :
      (fomc_dates : List ℕ) (trend : Trend) (s e : ℕ) (x : Error) (r : Runner)
      (decided ready : Bool) (b : Bar) (d : DayRun) (w : World)
      → decided ≡ false
      → ready ≡ true
      → gate_for_day fomc_dates r.gate d.day.date d.day.bars ≡ tradeable trend s e
      → (hub.get_active_subscribers w).0 ≡ raised x
      → d.orchestrator ≡ none
      → Fails x d.day.date d.day.bars
          (advance hub fl ro fomc_dates r.gate false decided ready b (d, w))
  unfolding decide_day
  advance-Interrupts fomc_dates trend s e x r true ready b d w i j g answer no_one = cc
  advance-Interrupts fomc_dates trend s e x r false false b d w i j g answer no_one = cc
  advance-Interrupts fomc_dates trend s e x r false true b d w i j g answer no_one =
      decide-Fails trend s e x (gate_for_day fomc_dates r.gate d.day.date d.day.bars) d w g answer
        no_one

  take_bar-Fails :
      (fomc_dates : List ℕ) (date : ℕ) (bars : List Bar) (r : Runner) (b : Bar) (d : DayRun)
      (w : World)
      → is_session_bar b ≡ true
      → IsWedged date bars d
      → Fails attribute_error date
          (bars ++ b ∷ [])
          (take_bar hub fl ro fomc_dates r.gate false b (d, w))
  unfolding take_bar update_daily_range
  take_bar-Fails fomc_dates date bars r b d w is h =
      let day = update_daily_range d.day b in
      let d' = record d { day = record day { bars = day.bars ++ b ∷ [] } } in
      rw is (
        advance-Fails fomc_dates date (bars ++ b ∷ []) r d.day.decided (ready_to_decide d'.day) b d'
          w h.decided
          (record {
            of_date = h.of_date;
            holds = ap (λ bs. bs ++ b ∷ []) h.holds;
            decided = h.decided;
            traded = h.traded;
            no_one = h.no_one;
          }))

  -- A bar that has the day decided, while the subscribers cannot be read.
  pub record IsInterrupted (fomc_dates : List ℕ) (b : Bar) (x : Error) (d : DayRun) (r : Runner)
      (w : World) : Type 0 where
    pub undecided : d.day.decided ≡ false
    pub no_one : d.orchestrator ≡ none
    pub in_session : is_session_bar b ≡ true
    pub late : leb decision_ready_time (time_of b) ≡ true
    pub of_date : IsOn d.day.date b
    pub trend : Trend
    pub session_start : ℕ
    pub session_end : ℕ
    pub selected :
        gate_for_day fomc_dates r.gate d.day.date (d.day.bars ++ b ∷ [])
        ≡ tradeable trend session_start session_end
    pub unread : (hub.get_active_subscribers w).0 ≡ raised x

  take_bar-Interrupts :
      (fomc_dates : List ℕ) (b : Bar) (x : Error) (d : DayRun) (r : Runner) (w : World)
      → IsInterrupted fomc_dates b x d r w
      → Fails x d.day.date
          (d.day.bars ++ b ∷ [])
          (take_bar hub fl ro fomc_dates r.gate false b (d, w))
  unfolding take_bar update_daily_range
  take_bar-Interrupts fomc_dates b x d r w h =
      let day = update_daily_range d.day b in
      let d' = record d { day = record day { bars = day.bars ++ b ∷ [] } } in
      let ready = ready_to_decide-late d'.day b h.undecided h.late (last_bar-append d.day.bars b) in
      rw (h.in_session) (
        advance-Interrupts fomc_dates h.trend h.session_start h.session_end x r d.day.decided
          (ready_to_decide d'.day) b d' w h.undecided ready h.selected h.unread h.no_one)

  abbrev Stops : Error → ℕ → List Bar → Option ℕ → Outcome (Runner × World) → Type 0
  Stops x date bars last o = (o.0 ≡ raised x) × IsStuck date bars last o.1.0

  and_then-Stops :
      (x : Error) (date : ℕ) (bars : List Bar) (last : Option ℕ) (o : Outcome (Runner × World))
      (f : Runner × World → Outcome (Runner × World))
      → Stops x date bars last o
      → Stops x date bars last (and_then o f)
  and_then-Stops x date bars last (raised y, s) f h = h
  and_then-Stops x date bars last (returned y, s) f h = cc

  in_day-Stops :
      (x : Error) (date : ℕ) (bars : List Bar) (last : Option ℕ) (r : Runner)
      (o : Outcome (DayRun × World))
      → r.last_processed ≡ last
      → Fails x date bars o
      → Stops x date bars last (in_day hub fl ro r o)
  in_day-Stops x date bars last r (y, (d, w)) e h =
      (h.0, record { day = d; current = refl; wedged = h.1; processed = e })

  to_day-Stops :
      (fomc_dates : List ℕ) (x : Error) (bars : List Bar) (b : Bar) (day : DayRun)
      (o : Option DayRun) (r : Runner) (w : World)
      → IsOn day.day.date b
      → Fails x day.day.date bars (take_bar hub fl ro fomc_dates r.gate false b (day, w))
      → o ≡ some day
      → Stops x day.day.date bars r.last_processed (to_day hub fl ro fomc_dates b o (r, w))
  to_day-Stops fomc_dates x bars b day none r w on h e = cc
  to_day-Stops fomc_dates x bars b day (some d) r w on h e =
      let day_is : day ≡ d = cc in
      let on' : b.time / 1440 ≡ d.day.date = subst (λ (t : DayRun). IsOn t.day.date b) day_is on in
      let same : (b.time / 1440 == d.day.date) ≡ true = ground arith in
      let fails =
        subst
          (λ (t : DayRun).
            Fails x day.day.date bars (take_bar hub fl ro fomc_dates r.gate false b (t, w)))
          day_is h in
      rw same (
        in_day-Stops x day.day.date bars r.last_processed r
          (take_bar hub fl ro fomc_dates r.gate false b (d, w)) refl fails)

  process_bars-Stops :
      (fomc_dates : List ℕ) (x : Error) (bars : List Bar) (b : Bar) (rest : List Bar) (day : DayRun)
      (r : Runner) (w : World)
      → r.current_day ≡ some day
      → IsOn day.day.date b
      → Fails x day.day.date bars (take_bar hub fl ro fomc_dates r.gate false b (day, w))
      → Stops x day.day.date bars r.last_processed
          (process_bars hub fl ro fomc_dates (b ∷ rest) (r, w))
  unfolding process_bars process_bar
  process_bars-Stops fomc_dates x bars b rest day r w current on fails =
      and_then-Stops x day.day.date bars r.last_processed
        (process_bar hub fl ro fomc_dates b (r, w)) _
        (to_day-Stops fomc_dates x bars b day r.current_day r w on fails current)

  -- The runner after each of the polls, which begin with `b`, with the bars after it and the world of
  -- each: every poll raises an AttributeError, the day has `b` once more, and no bar counts as processed.
  abbrev pub StuckFor :
      List ℕ → ℕ → Option ℕ → Bar → List (List Bar × World) → List Bar → Runner → Type 0
  StuckFor fomc_dates date last b [] bars r = IsStuck date bars last r
  StuckFor fomc_dates date last b ((rest, w) ∷ polls) bars r =
      IsStuck date bars last r
      × ((process_bars hub fl ro fomc_dates (b ∷ rest) (r, w)).0 ≡ raised attribute_error)
      × StuckFor fomc_dates date last b polls (bars ++ b ∷ [])
          (process_bars hub fl ro fomc_dates (b ∷ rest) (r, w)).1.0

  IsStuck-StuckFor :
      (fomc_dates : List ℕ) (date : ℕ) (last : Option ℕ) (b : Bar) (polls : List (List Bar × World))
      (bars : List Bar) (r : Runner)
      → is_session_bar b ≡ true
      → IsOn date b
      → IsStuck date bars last r
      → StuckFor fomc_dates date last b polls bars r
  IsStuck-StuckFor fomc_dates date last b [] bars r is on h = h
  IsStuck-StuckFor fomc_dates date last b ((rest, w) ∷ polls) bars r is on h =
      let more = bars ++ b ∷ [] in
      let fails = take_bar-Fails fomc_dates date bars r b h.day w is h.wedged in
      let o = process_bars hub fl ro fomc_dates (b ∷ rest) (r, w) in
      let stops : Stops attribute_error date more last o =
        subst (λ l. Stops attribute_error date more l o) h.processed
          (subst (λ t. Stops attribute_error t more r.last_processed o) h.wedged.of_date
            (process_bars-Stops fomc_dates attribute_error more b rest h.day r w h.current
              (on ∙ sym h.wedged.of_date)
              (subst
                (λ t.
                  Fails attribute_error t more
                    (take_bar hub fl ro fomc_dates r.gate false b (h.day, w)))
                (sym h.wedged.of_date) fails))) in
      (h, stops.0, IsStuck-StuckFor fomc_dates date last b polls more o.1.0 is on stops.1)

  -- If a session bar at or after 10:00 has the undecided day of its date decided, the gate trades it, and
  -- the subscribers cannot be read: the poll raises that error at this bar, which remains in the day; and
  -- then every poll that begins with the same bar, whatever the broker and the database answer from then
  -- on, raises an AttributeError and appends the bar to the day once more, while the day remains decided,
  -- traded and without an orchestrator, and the last bar that counts as processed remains the same.
  pub process_bars-IsStuck :
      (fomc_dates : List ℕ) (b : Bar) (rest : List Bar) (x : Error) (d : DayRun) (r : Runner)
      (w : World) (polls : List (List Bar × World))
      → r.current_day ≡ some d
      → IsInterrupted fomc_dates b x d r w
      → ((process_bars hub fl ro fomc_dates (b ∷ rest) (r, w)).0 ≡ raised x)
        × StuckFor fomc_dates d.day.date r.last_processed b polls
            (d.day.bars ++ b ∷ [])
            (process_bars hub fl ro fomc_dates (b ∷ rest) (r, w)).1.0
  process_bars-IsStuck fomc_dates b rest x d r w polls current h =
      let stops =
        process_bars-Stops fomc_dates x (d.day.bars ++ b ∷ []) b rest d r w current h.of_date
          (take_bar-Interrupts fomc_dates b x d r w h) in
      (
        stops.0,
        IsStuck-StuckFor fomc_dates d.day.date r.last_processed b polls (d.day.bars ++ b ∷ [])
            (process_bars hub fl ro fomc_dates (b ∷ rest) (r, w)).1.0 h.in_session h.of_date
            stops.1,
      )
