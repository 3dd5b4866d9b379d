-- ===== src/Runner/Whole.antt =====
-- Whatever a day goes through, a bar at a time, its tale stays true.
use mathlib.Core.Path.{subst}
use the_bot.Common.{
  ℕ, ◌+◌, ◌-◌, ◌≡◌, refl, ap, ap₂, sym, ◌∙◌, Bool, true, false, List, [], ◌∷◌, ◌++◌, append_assoc,
  length, length-append, Option, none, some, arith, if◌then◌else◌, All, All-append,
}
use the_bot.Common.Floats.{Arith}
use the_bot.Detection.Bars.{Bar}
use the_bot.Detection.Gate.{Gate, gate_for_day}
use the_bot.Detection.Orchestrator as Orchestrator
use the_bot.DayState.{update_daily_range, is_session_bar, ready_to_decide}
use the_bot.DayState.Final.{IsOn}
use the_bot.Orders.Broker.{raised, returned, done}
use the_bot.Orders.Sizing.{Rounding}
use the_bot.Runner.Hub.{DayRun, new_day, Hub, Outcome, and_then}
use the_bot.Runner.Day.{
  show_bar, flush_new_events, decide_day, show_next, advance, take_bar, take_bars,
}
use the_bot.Runner.Narrative.{Telling, tell, tell_all-append, narrative}
use the_bot.Runner.Told.{Shows-Same, show_bar-Shows, flush-Same}
use the_bot.Runner.Tale.{Tale-eq, IsTold, shown-IsTold, decide-IsTold}

-- The day once `b` is appended.
abbrev with_bar : DayRun → Bar → DayRun
with_bar d b =
    let day = update_daily_range d.day b in
    record d { day = record day { bars = day.bars ++ b ∷ [] } }

module _ (fl : Arith) (fomc_dates : List ℕ) (gate : Gate) (date : ℕ) where
  abbrev Told : DayRun → Type 0
  Told d = IsTold fl fomc_dates gate date d

  with_bar-IsOn :
      (d : DayRun) (b : Bar)
      → IsOn d.day.date b
      → Told d
      → All (IsOn d.day.date) (d.day.bars ++ b ∷ [])
  with_bar-IsOn d b on h = All-append (IsOn d.day.date) d.day.bars (b ∷ []) h.on_date (on, tt)

  -- Without an orchestrator there is nothing to show the bar to.
  idle-IsTold :
      (d : DayRun) (b : Bar)
      → IsOn d.day.date b
      → d.orchestrator ≡ none
      → Told d
      → Told (with_bar d b)
  unfolding update_daily_range
  idle-IsTold d b on no_one h = record {
    of_date = h.of_date;
    on_date = with_bar-IsOn d b on h;
    undecided = λ u. no_one;
    untraded = λ u. no_one;
    tale =
        Tale-eq fl fomc_dates gate date (with_bar d b).day d.todays_events d.todays_events none
          d.orchestrator refl no_one
          (Tale-eq fl fomc_dates gate date d.day d.todays_events d.todays_events d.orchestrator none
            refl (sym no_one) h.tale);
  }

  module _ {World : Type 0} (hub : Hub World) (ro : Rounding) where
    if-IsTold :
        (c : Bool) (o o' : Outcome (DayRun × World))
        → (c ≡ true → Told o.1.0)
        → (c ≡ false → Told o'.1.0)
        → Told (if c then o else o').1.0
    if-IsTold true o o' h h' = h refl
    if-IsTold false o o' h h' = h' refl

    show_next-IsTold :
        (o : Option Orchestrator.Day) (d : DayRun) (b : Bar) (w : World)
        → IsOn d.day.date b
        → d.orchestrator ≡ o
        → d.day.decided ≡ true
        → d.tradeable ≡ true
        → Told d
        → Told (show_next hub fl ro o b (with_bar d b, w)).1.0
    unfolding update_daily_range
    show_next-IsTold none d b w on is is_decided is_traded h = idle-IsTold d b on is h
    show_next-IsTold (some o) d b w on is is_decided is_traded h =
        let (trend, s, e, final, told) =
          Tale-eq fl fomc_dates gate date d.day d.todays_events d.todays_events d.orchestrator
            (some o) refl (sym is) h.tale in
        let d' = with_bar d b in
        let t = tell fl (o, narrative d'.todays_events) (length d'.day.bars - 1) b in
        let new : Telling = (Orchestrator.new trend s e, []) in
        let at : 0 + length d.day.bars ≡ length d'.day.bars - 1 =
          omega (arith, length-append d.day.bars (b ∷ [])) in
        let (d'', w') = show_bar hub fl ro o (length d'.day.bars - 1) b (d', w) in
        shown-IsTold fl fomc_dates gate date d' (flush_new_events hub fl ro (d'', w')).1.0 trend s e
          t (sym (tell_all-append fl new 0 d.day.bars b ∙ ap₂ (λ x n. tell fl x n b) told at))
          h.of_date (with_bar-IsOn d b on h) is_decided is_traded
          (λ more.
            ap (gate_for_day fomc_dates gate d.day.date) (append_assoc d.day.bars (b ∷ []) more)
            ∙ final (b ∷ more))
          (Shows-Same t (show_bar-Shows hub fl ro o (length d'.day.bars - 1) b d' w)
            (flush-Same hub fl ro d'' w'))

    advance-IsTold :
        (historical decided ready : Bool) (d : DayRun) (b : Bar) (w : World)
        → IsOn d.day.date b
        → d.day.decided ≡ decided
        → ready_to_decide (with_bar d b).day ≡ ready
        → Told d
        → Told (advance hub fl ro fomc_dates gate historical decided ready b (with_bar d b, w)).1.0
    unfolding update_daily_range decide_day
    advance-IsTold historical false false d b w on is is_ready h =
        idle-IsTold d b on (h.undecided is) h
    advance-IsTold historical false true d b w on is is_ready h =
        let d' = with_bar d b in
        decide-IsTold fl fomc_dates gate date hub ro historical
          (gate_for_day fomc_dates gate d'.day.date d'.day.bars) d' w refl is_ready (h.undecided is)
          (idle-IsTold d b on (h.undecided is) h)
    advance-IsTold historical true ready d b w on is is_ready h =
        if-IsTold d.tradeable (show_next hub fl ro d.orchestrator b (with_bar d b, w))
          (returned done, (with_bar d b, w))
          (λ traded. show_next-IsTold d.orchestrator d b w on refl is traded h)
          (λ untraded. idle-IsTold d b on (h.untraded untraded) h)

    take_bar-IsTold :
        (historical : Bool) (b : Bar) (d : DayRun) (w : World)
        → IsOn d.day.date b
        → Told d
        → Told (take_bar hub fl ro fomc_dates gate historical b (d, w)).1.0
    unfolding take_bar update_daily_range
    take_bar-IsTold historical b d w on h =
        let day = update_daily_range d.day b in
        if-IsTold (is_session_bar b)
          (advance hub fl ro fomc_dates gate historical d.day.decided
            (ready_to_decide (with_bar d b).day) b (with_bar d b, w))
          (returned done, (record d { day = day }, w))
          (λ u.
            advance-IsTold historical d.day.decided (ready_to_decide (with_bar d b).day) d b w on
              refl refl h)
          (λ u. record {
            of_date = h.of_date;
            on_date = h.on_date;
            undecided = h.undecided;
            untraded = h.untraded;
            tale =
                Tale-eq fl fomc_dates gate date d.day d.todays_events d.todays_events d.orchestrator
                  d.orchestrator refl refl h.tale;
          })

    new_day-IsTold : Told (new_day date)
    unfolding new_day
    new_day-IsTold = record {
      of_date = refl;
      on_date = tt;
      undecided = λ u. refl;
      untraded = λ u. refl;
      tale = refl;
    }

    bars-IsTold :
        (historical : Bool) (bars : List Bar) (d : DayRun) (w : World)
        → All (IsOn date) bars
        → Told d
        → Told (take_bars hub fl ro fomc_dates gate historical bars (d, w)).1.0
    unfolding take_bars
    bars-IsTold historical [] d w on h = h
    bars-IsTold historical (b ∷ bars) d w on h =
        rest-IsTold (take_bar hub fl ro fomc_dates gate historical b (d, w))
          (take_bar-IsTold historical b d w (subst (λ n. IsOn n b) (sym h.of_date) on.0) h)
          (λ t h'. bars-IsTold historical bars t.0 t.1 on.1 h')
      where
        rest-IsTold :
            (o : Outcome (DayRun × World))
            → Told o.1.0
            → ((t : DayRun × World)
                → Told t.0
                → Told (take_bars hub fl ro fomc_dates gate historical bars t).1.0)
            → Told (and_then o (take_bars hub fl ro fomc_dates gate historical bars)).1.0
        rest-IsTold (raised x, t) h' go = h'
        rest-IsTold (returned x, t) h' go = go t h'

    -- Whatever bars of one date a new day takes, live or replayed, and whatever raises meanwhile: its
    -- orchestrator and its narrative are those of a new orchestrator, with the trend and the bounds that
    -- the gate decides on for the bars so far and for every continuation of them, which is shown all bars
    -- of the day in order, though the day was decided late; as long as there is none, nothing is told, and
    -- a day that is not traded has none.
    pub take_bars-IsTold :
        (historical : Bool) (bars : List Bar) (w : World)
        → All (IsOn date) bars
        → Told (take_bars hub fl ro fomc_dates gate historical bars (new_day date, w)).1.0
    take_bars-IsTold historical bars w on =
        bars-IsTold historical bars (new_day date) w on new_day-IsTold
