-- ===== src/Runner/Tale.antt =====
-- The invariant of a day: its orchestrator and what it told are those of the whole day's bars.
use mathlib.Core.Path.{subst}
use the_bot.Common.{
  ℕ, ◌≤◌, ◌≡◌, refl, ap, sym, ◌∙◌, Bool, true, false, List, [], ◌∷◌, ◌++◌, append-nil, length,
  Option, none, some, All,
}
use the_bot.Common.Floats.{Arith}
use the_bot.Detection.Bars.{Bar, Trend}
use the_bot.Detection.Gate.{Gate, Selection, skip, tradeable, gate_for_day}
use the_bot.Detection.Orchestrator as Orchestrator
use the_bot.DayState.{CurrentDay, ready_to_decide}
use the_bot.DayState.Final.{IsOn, ready_to_decide-IsFinal}
use the_bot.Orders.Broker.{raised, returned}
use the_bot.Orders.Sizing.{Rounding}
use the_bot.Detection.Gate.Session.{Decided, gate_for_day-Decided}
use mathlib.Core.Bool.{true≢false}
use the_bot.Runner.Hub.{Event, day_trend_determined, DayRun, Hub, Outcome, and_then}
use the_bot.Runner.Day.{append_event, subscribers, begin, decide, time_of_last}
use the_bot.Runner.Narrative.{Telling, tell_all, narrative, narrative-append}
use the_bot.Runner.Told.{Same, Shows, subscribers-Same, begin-Shows}

module _ (fl : Arith) (fomc_dates : List ℕ) (gate : Gate) (date : ℕ) where
  -- What there is to say of a day: nothing, without an orchestrator; with one, the gate decides to
  -- trade the day, on its bars and whatever bars follow, and the orchestrator and the day's narrative
  -- are those of a new orchestrator, with the gate's trend and bounds, that is shown all bars.
  abbrev pub Tale : CurrentDay → List Event → Option Orchestrator.Day → Type 0
  Tale day events none = narrative events ≡ []
  Tale day events (some o) =
      (trend : Trend) × (s : ℕ) × (e : ℕ) × ((more : List Bar)
        → gate_for_day fomc_dates gate day.date (day.bars ++ more) ≡ tradeable trend s e)
      × (tell_all fl (Orchestrator.new trend s e, []) 0 day.bars ≡ (o, narrative events))

  -- The day and its bars are of the date, a day that is undecided or not traded has no orchestrator, and the tale
  -- is true.
  pub record IsTold (d : DayRun) : Type 0 where
    pub of_date : d.day.date ≡ date
    pub on_date : All (IsOn d.day.date) d.day.bars
    pub undecided : d.day.decided ≡ false → d.orchestrator ≡ none
    pub untraded : d.tradeable ≡ false → d.orchestrator ≡ none
    pub tale : Tale d.day d.todays_events d.orchestrator

  pub Tale-eq :
      (day : CurrentDay) (events events' : List Event) (o o' : Option Orchestrator.Day)
      → narrative events' ≡ narrative events
      → o' ≡ o
      → Tale day events o
      → Tale day events' o'
  Tale-eq day events events' none none n e h = n ∙ h
  Tale-eq day events events' none (some x) n e h = cc
  Tale-eq day events events' (some x) none n e h = cc
  Tale-eq day events events' (some x) (some y) n e (trend, s, e', final, told) =
      let same : y ≡ x = cc in
      (
        trend,
        s,
        e',
        final,
        told
            ∙ (let p : Path Telling (x, narrative events) (y, narrative events') =
                  λ i. (sym same i, sym n i) in
                p),
      )

  pub IsTold-Same : (d d' : DayRun) → Same d d' → IsTold d → IsTold d'
  IsTold-Same d d' s h = record {
    of_date = ap (λ (c : CurrentDay). c.date) s.same_day ∙ h.of_date;
    on_date = subst (λ (c : CurrentDay). All (IsOn c.date) c.bars) (sym s.same_day) h.on_date;
    undecided = λ u.
        s.same_orchestrator ∙ h.undecided (sym (ap (λ (c : CurrentDay). c.decided) s.same_day) ∙ u);
    untraded = λ u. s.same_orchestrator ∙ h.untraded (sym s.same_tradeable ∙ u);
    tale =
        subst (λ c. Tale c d'.todays_events d'.orchestrator) (sym s.same_day)
          (Tale-eq d.day d.todays_events d'.todays_events d.orchestrator d'.orchestrator
            s.same_narrative s.same_orchestrator h.tale);
  }

  -- A gate that lets a day be traded has seen twelve bars.
  enough_bars :
      (day : ℕ) (bars : List Bar) (trend : Trend) (s e : ℕ)
      → gate_for_day fomc_dates gate day bars ≡ tradeable trend s e
      → 12 ≤ length bars
  enough_bars day bars trend s e h =
      let (_, _, session) =
        subst (Decided fomc_dates gate day bars) h
          (gate_for_day-Decided fomc_dates gate day bars) in
      session.enough

  -- A day whose orchestrator has been shown all its bars.
  pub shown-IsTold :
      (d d' : DayRun) (trend : Trend) (s e : ℕ) (t : Telling)
      → t ≡ tell_all fl (Orchestrator.new trend s e, []) 0 d.day.bars
      → d.day.date ≡ date
      → All (IsOn d.day.date) d.day.bars
      → d.day.decided ≡ true
      → d.tradeable ≡ true
      → ((more : List Bar)
          → gate_for_day fomc_dates gate d.day.date (d.day.bars ++ more) ≡ tradeable trend s e)
      → Shows d d' t
      → IsTold d'
  shown-IsTold d d' trend s e t is_all of_date on_date is_decided is_traded final h = record {
    of_date = ap (λ (c : CurrentDay). c.date) h.same_day ∙ of_date;
    on_date = subst (λ (c : CurrentDay). All (IsOn c.date) c.bars) (sym h.same_day) on_date;
    undecided = λ u.
        absurd
          (true≢false (sym is_decided ∙ sym (ap (λ (c : CurrentDay). c.decided) h.same_day) ∙ u));
    untraded = λ u. absurd (true≢false (sym is_traded ∙ sym h.same_tradeable ∙ u));
    tale =
        subst (λ c. Tale c d'.todays_events d'.orchestrator) (sym h.same_day)
          (tale_of d'.orchestrator h.shown);
  }
    where
      tale_of : (o : Option Orchestrator.Day) → o ≡ some t.0 → Tale d.day d'.todays_events o
      tale_of none e' = cc
      tale_of (some o) e' =
          let same : o ≡ t.0 = cc in
          (
            trend,
            s,
            e,
            final,
            sym is_all
                ∙ (let p : Path Telling t (o, narrative d'.todays_events) =
                      λ i. (sym same i, sym h.told i) in
                    p),
          )

  module _ {World : Type 0} (hub : Hub World) (ro : Rounding) where
    begin-IsTold :
        (trend : Trend) (s e : ℕ) (d : DayRun) (w : World)
        → d.day.date ≡ date
        → All (IsOn d.day.date) d.day.bars
        → d.day.decided ≡ true
        → d.tradeable ≡ true
        → ((more : List Bar)
            → gate_for_day fomc_dates gate d.day.date (d.day.bars ++ more) ≡ tradeable trend s e)
        → narrative d.todays_events ≡ []
        → IsTold (begin hub fl ro trend s e (d, w)).1.0
    begin-IsTold trend s e d w of_date on_date is_decided is_traded final silent =
        let (d', w') = (begin hub fl ro trend s e (d, w)).1 in
        let t = tell_all fl (Orchestrator.new trend s e, []) 0 d.day.bars in
        shown-IsTold d d' trend s e t refl of_date on_date is_decided is_traded final
          (begin-Shows hub fl ro trend s e d w silent)

    pub decide-IsTold :
        (historical : Bool) (choice : Selection) (d : DayRun) (w : World)
        → gate_for_day fomc_dates gate d.day.date d.day.bars ≡ choice
        → ready_to_decide d.day ≡ true
        → d.orchestrator ≡ none
        → IsTold d
        → IsTold (decide hub fl ro historical choice (d, w)).1.0
    decide-IsTold historical (skip reason) d w is ready no_one h = record {
      of_date = h.of_date;
      on_date = h.on_date;
      undecided = λ u. no_one;
      untraded = λ u. no_one;
      tale =
          Tale-eq d.day d.todays_events d.todays_events d.orchestrator d.orchestrator refl refl
            h.tale;
    }
    decide-IsTold historical (tradeable trend s e) d w is ready no_one h =
        let d1 = record d {
          day = record d.day { decided = true };
          tradeable = true;
          trend = some trend;
        } in
        let d2 = append_event (day_trend_determined trend (time_of_last d.day.bars)) d1 in
        let final = λ (more : List Bar).
          ready_to_decide-IsFinal fomc_dates gate d.day h.on_date
            (enough_bars d.day.date d.day.bars trend s e is) ready more
          ∙ is in
        let silent : narrative d2.todays_events ≡ [] =
          narrative-append d.todays_events
            (day_trend_determined trend (time_of_last d.day.bars) ∷ [])
          ∙ append-nil (narrative d.todays_events)
          ∙ silent_before d no_one h in
        begun d2 h.of_date h.on_date refl refl final silent no_one
          (subscribers hub fl ro historical (d2, w)) (subscribers-Same hub fl ro historical (d2, w))
      where
        silent_before :
            (d : DayRun) → d.orchestrator ≡ none → IsTold d → narrative d.todays_events ≡ []
        silent_before d no_one h =
            Tale-eq d.day d.todays_events d.todays_events d.orchestrator none refl (sym no_one)
              h.tale

        begun :
            (d : DayRun)
            → d.day.date ≡ date
            → All (IsOn d.day.date) d.day.bars
            → d.day.decided ≡ true
            → d.tradeable ≡ true
            → ((more : List Bar)
                → gate_for_day fomc_dates gate d.day.date (d.day.bars ++ more)
                  ≡ tradeable trend s e)
            → narrative d.todays_events ≡ []
            → d.orchestrator ≡ none
            → (o : Outcome (DayRun × World)) → Same d o.1.0
            → IsTold (and_then o (begin hub fl ro trend s e)).1.0
        begun d of_date on_date is_decided is_traded final silent no_one (raised x, t) s' =
            IsTold-Same d t.0 s' (record {
              of_date = of_date;
              on_date = on_date;
              undecided = λ u. no_one;
              untraded = λ u. no_one;
              tale =
                  Tale-eq d.day d.todays_events d.todays_events none d.orchestrator refl no_one
                    silent;
            })
        begun d of_date on_date is_decided is_traded final silent no_one (returned x, (d', w')) s' =
            begin-IsTold trend s e d' w' (ap (λ (c : CurrentDay). c.date) s'.same_day ∙ of_date)
              (subst (λ (c : CurrentDay). All (IsOn c.date) c.bars) (sym s'.same_day) on_date)
              (ap (λ (c : CurrentDay). c.decided) s'.same_day ∙ is_decided)
              (s'.same_tradeable ∙ is_traded)
              (subst
                (λ (c : CurrentDay).
                  (more : List Bar)
                  → gate_for_day fomc_dates gate c.date (c.bars ++ more) ≡ tradeable trend s e)
                (sym s'.same_day) final)
              (s'.same_narrative ∙ silent)
