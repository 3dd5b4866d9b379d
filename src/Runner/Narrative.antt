-- ===== src/Runner/Narrative.antt =====
-- What the runner's day tells: the orchestrator's events on the bars of the day, from the first on,
-- although the day is decided late and its first bars are filled in.
use the_bot.Common.{
  ℕ, suc, ◌+◌, ◌≡◌, refl, ap, ap₂, sym, ◌∙◌, List, [], ◌∷◌, ◌++◌, append-nil, append_assoc, map,
  length, arith,
}
use the_bot.Common.Floats.{Arith}
use the_bot.Detection.Bars.{Bar}
use the_bot.Detection.Orchestrator as Orchestrator
use the_bot.Detection.Orchestrator.{Ready, trade_candidate_ready}
use the_bot.Orders.Sizing.{Rounding}
use the_bot.Orders.Machine as Machine
use the_bot.Orders.Placing as Placing
use the_bot.Orders.Machine.{Manager}
use the_bot.Runner.Hub.{
  Event, day_skipped, day_trend_determined, narrated, ordered, daily_swing_confirmed, DayRun, Hub,
}
use the_bot.Runner.Day.{append_event, fan_out, offer, combined_sink, sink_all}

-- An orchestrator, and what it has told so far.
abbrev pub Telling : Type 0
Telling = Orchestrator.Day × List Orchestrator.Event

-- One bar more, and every bar of a list, the first at the index `i`.
abbrev pub tell : Arith → Telling → ℕ → Bar → Telling
tell fl (day, told) i b =
    let (day', events) = Orchestrator.on_new_bar fl day b.time i b.high b.low b.close in
    (day', told ++ events)

unfoldable pub tell_all : Arith → Telling → ℕ → List Bar → Telling
tell_all fl t i [] = t
tell_all fl t i (b ∷ bars) = tell_all fl (tell fl t i b) (suc i) bars

-- The detection's own events among the day's.
abbrev pub narrative : List Event → List Orchestrator.Event
narrative [] = []
narrative (narrated e ∷ rest) = e ∷ narrative rest
narrative (_ ∷ rest) = narrative rest

pub narrative-append : (xs ys : List Event) → narrative (xs ++ ys) ≡ narrative xs ++ narrative ys
narrative-append [] ys = refl
narrative-append (narrated e ∷ xs) ys = ap (λ es. e ∷ es) (narrative-append xs ys)
narrative-append (day_skipped _ _ ∷ xs) ys = narrative-append xs ys
narrative-append (day_trend_determined _ _ ∷ xs) ys = narrative-append xs ys
narrative-append (ordered _ _ ∷ xs) ys = narrative-append xs ys
narrative-append (daily_swing_confirmed _ ∷ xs) ys = narrative-append xs ys

pub narrative-ordered :
    (user : ℕ) (journal : List Machine.Event) → narrative (map (ordered user) journal) ≡ []
narrative-ordered user [] = refl
narrative-ordered user (e ∷ rest) = narrative-ordered user rest

pub tell_all-append :
    (fl : Arith) (t : Telling) (i : ℕ) (bars : List Bar) (b : Bar)
    → tell_all fl t i (bars ++ b ∷ []) ≡ tell fl (tell_all fl t i bars) (i + length bars) b
unfolding tell_all
tell_all-append fl t i [] b = ap (λ n. tell fl t n b) (let e : i ≡ i + 0 = omega arith in e)
tell_all-append fl t i (c ∷ bars) b =
    tell_all-append fl (tell fl t i c) (suc i) bars b
    ∙ ap (λ n. tell fl (tell_all fl (tell fl t i c) (suc i) bars) n b)
        (let e : suc i + length bars ≡ i + suc (length bars) = omega arith in e)

-- From `d` to `d'` the orchestrator's events `es` have been told; the day and its orchestrator are the
-- same.
pub record Tells (d d' : DayRun) (es : List Orchestrator.Event) : Type 0 where
  pub same_day : d'.day ≡ d.day
  pub same_tradeable : d'.tradeable ≡ d.tradeable
  pub same_orchestrator : d'.orchestrator ≡ d.orchestrator
  pub told : narrative d'.todays_events ≡ narrative d.todays_events ++ es

Tells-trans :
    {d d' d'' : DayRun} (es es' : List Orchestrator.Event)
    → Tells d d' es
    → Tells d' d'' es'
    → Tells d d'' (es ++ es')
Tells-trans {d = d} es es' t t' = record {
  same_day = t'.same_day ∙ t.same_day;
  same_tradeable = t'.same_tradeable ∙ t.same_tradeable;
  same_orchestrator = t'.same_orchestrator ∙ t.same_orchestrator;
  told = t'.told ∙ ap (λ xs. xs ++ es') t.told ∙ append_assoc (narrative d.todays_events) es es';
}

append_event-Tells :
    (e : Orchestrator.Event) (d : DayRun) → Tells d (append_event (narrated e) d) (e ∷ [])
append_event-Tells e d = record {
  same_day = refl;
  same_tradeable = refl;
  same_orchestrator = refl;
  told = narrative-append d.todays_events (narrated e ∷ []);
}

module _ {World : Type 0} (hub : Hub World) (fl : Arith) (ro : Rounding) where
  -- The events of the order managers are not the detection's.
  fan_out-narrative :
      (ready : Ready) (managers : List (ℕ × Manager)) (w : World)
      → narrative (fan_out hub fl ro ready managers w).0.1 ≡ []
  unfolding fan_out
  fan_out-narrative ready [] w = refl
  fan_out-narrative ready ((user, m) ∷ rest) w =
      let s =
        Placing.on_trade_candidate_ready (hub.orders user) fl ro ready
          (record { manager = m; world = w; journal = [] }) in
      narrative-append (map (ordered user) s.journal) (fan_out hub fl ro ready rest s.world).0.1
      ∙ ap₂ (λ xs ys. xs ++ ys) (narrative-ordered user s.journal)
          (fan_out-narrative ready rest s.world)

  offer-Tells : (ready : Ready) (d : DayRun) (w : World) → Tells d (offer hub fl ro ready d w).0 []
  offer-Tells ready d w = record {
    same_day = refl;
    same_tradeable = refl;
    same_orchestrator = refl;
    told =
        narrative-append d.todays_events (fan_out hub fl ro ready d.order_managers w).0.1
        ∙ ap (λ xs. narrative d.todays_events ++ xs) (fan_out-narrative ready d.order_managers w);
  }

  combined_sink-Tells :
      (e : Orchestrator.Event) (d : DayRun) (w : World)
      → Tells d (combined_sink hub fl ro e (d, w)).0 (e ∷ [])
  combined_sink-Tells (trade_candidate_ready ready) d w =
      let e = trade_candidate_ready ready in
      Tells-trans (e ∷ []) [] (append_event-Tells e d)
        (offer-Tells ready (append_event (narrated e) d) w)
  combined_sink-Tells (Orchestrator.swing_confirmed x) d w = append_event-Tells _ d
  combined_sink-Tells (Orchestrator.raid_detected x) d w = append_event-Tells _ d
  combined_sink-Tells (Orchestrator.mss_confirmed x) d w = append_event-Tells _ d
  combined_sink-Tells (Orchestrator.fvg_found x) d w = append_event-Tells _ d
  combined_sink-Tells (Orchestrator.fvg_rejected_min_stop x y z) d w = append_event-Tells _ d
  combined_sink-Tells (Orchestrator.attempt_event x) d w = append_event-Tells _ d

  pub sink_all-Tells :
      (es : List Orchestrator.Event) (d : DayRun) (w : World)
      → Tells d (sink_all hub fl ro es (d, w)).0 es
  sink_all-Tells [] d w = record {
    same_day = refl;
    same_tradeable = refl;
    same_orchestrator = refl;
    told = sym (append-nil (narrative d.todays_events));
  }
  sink_all-Tells (e ∷ es) d w =
      let (d', w') = combined_sink hub fl ro e (d, w) in
      Tells-trans (e ∷ []) es (combined_sink-Tells e d w) (sink_all-Tells es d' w')
