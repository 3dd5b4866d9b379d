-- ===== src/Runner/Told.antt =====
-- A live day and a replayed day tell the same: what the orchestrator says of the day's bars.
use mathlib.Core.Path.{subst}
use the_bot.Common.{
  ℕ, suc, ◌≡◌, refl, ◌∙◌, Bool, true, false, List, [], ◌∷◌, Option, none, some, drop,
}
use the_bot.Common.Floats.{Arith}
use the_bot.Detection.Bars.{Bar, Trend}
use the_bot.Detection.Orchestrator as Orchestrator
use the_bot.Orders.Broker.{Reply, raised, returned, Done}
use the_bot.Orders.Sizing.{Rounding}
use the_bot.Runner.Hub.{Subscriber, Event, DayRun, Hub, Outcome, and_then}
use the_bot.Runner.Day.{
  show_bar, flush_reply, write_new, flush_new_events, show_to, backfill, subscribe_reply, subscribe,
  subscribe_all, subscribers_reply, subscribers, begin,
}
use the_bot.Runner.Narrative.{Telling, tell, tell_all, narrative, sink_all-Tells}

-- The parts of a day that the detection is about are the same.
pub record Same (d d' : DayRun) : Type 0 where
  pub same_day : d'.day ≡ d.day
  pub same_tradeable : d'.tradeable ≡ d.tradeable
  pub same_orchestrator : d'.orchestrator ≡ d.orchestrator
  pub same_narrative : narrative d'.todays_events ≡ narrative d.todays_events

pub Same-refl : (d : DayRun) → Same d d
Same-refl d = record {
  same_day = refl;
  same_tradeable = refl;
  same_orchestrator = refl;
  same_narrative = refl;
}

pub Same-trans : {d d' d'' : DayRun} → Same d d' → Same d' d'' → Same d d''
Same-trans s s' = record {
  same_day = s'.same_day ∙ s.same_day;
  same_tradeable = s'.same_tradeable ∙ s.same_tradeable;
  same_orchestrator = s'.same_orchestrator ∙ s.same_orchestrator;
  same_narrative = s'.same_narrative ∙ s.same_narrative;
}

-- The day's orchestrator and what it told are `t`; the day is that of `d`.
pub record Shows (d d' : DayRun) (t : Telling) : Type 0 where
  pub same_day : d'.day ≡ d.day
  pub same_tradeable : d'.tradeable ≡ d.tradeable
  pub shown : d'.orchestrator ≡ some t.0
  pub told : narrative d'.todays_events ≡ t.1

pub Shows-Same : {d d' d'' : DayRun} (t : Telling) → Shows d d' t → Same d' d'' → Shows d d'' t
Shows-Same t h s = record {
  same_day = s.same_day ∙ h.same_day;
  same_tradeable = s.same_tradeable ∙ h.same_tradeable;
  shown = s.same_orchestrator ∙ h.shown;
  told = s.same_narrative ∙ h.told;
}

module _ {World : Type 0} (hub : Hub World) (fl : Arith) (ro : Rounding) where
  pub show_bar-Shows :
      (day : Orchestrator.Day) (idx : ℕ) (b : Bar) (d : DayRun) (w : World)
      → Shows d
          (show_bar hub fl ro day idx b (d, w)).0
          (tell fl (day, narrative d.todays_events) idx b)
  unfolding show_bar
  show_bar-Shows day idx b d w =
      let (day', events) = Orchestrator.on_new_bar fl day b.time idx b.high b.low b.close in
      let t = sink_all-Tells hub fl ro events (record d { orchestrator = some day' }) w in
      record {
        same_day = t.same_day;
        same_tradeable = t.same_tradeable;
        shown = t.same_orchestrator;
        told = t.told;
      }

  show_to-Shows :
      (o : Option Orchestrator.Day) (idx : ℕ) (b : Bar) (d : DayRun) (w : World) (t : Telling)
      → o ≡ some t.0
      → narrative d.todays_events ≡ t.1
      → Shows d (show_to hub fl ro o idx b (d, w)).0 (tell fl t idx b)
  show_to-Shows none idx b d w t h told = cc
  show_to-Shows (some day) idx b d w t h told =
      let same : day ≡ t.0 = cc in
      subst (λ (x : Telling). Shows d (show_bar hub fl ro day idx b (d, w)).0 (tell fl x idx b))
        (let e : Path Telling (day, narrative d.todays_events) t = λ i. (same i, told i) in e)
        (show_bar-Shows day idx b d w)

  backfill-Shows :
      (idx : ℕ) (bars : List Bar) (d0 d : DayRun) (w : World) (t : Telling)
      → Shows d0 d t
      → Shows d0 (backfill hub fl ro idx bars (d, w)).0 (tell_all fl t idx bars)
  unfolding tell_all
  backfill-Shows idx [] d0 d w t h = h
  backfill-Shows idx (b ∷ bars) d0 d w t h =
      let (d', w') = show_to hub fl ro d.orchestrator idx b (d, w) in
      let s = show_to-Shows d.orchestrator idx b d w t h.shown h.told in
      backfill-Shows (suc idx) bars d0 d' w' (tell fl t idx b) (record {
        same_day = s.same_day ∙ h.same_day;
        same_tradeable = s.same_tradeable ∙ h.same_tradeable;
        shown = s.shown;
        told = s.told;
      })

  flush_reply-Same :
      (events : List Event) (r : Reply Done) (d : DayRun) (w : World)
      → Same d (flush_reply hub fl ro events r (d, w)).1.0
  flush_reply-Same events (raised e) d w = Same-refl d
  flush_reply-Same events (returned x) d w = record {
    same_day = refl;
    same_tradeable = refl;
    same_orchestrator = refl;
    same_narrative = refl;
  }

  write_new-Same :
      (events : List Event) (d : DayRun) (w : World)
      → Same d (write_new hub fl ro events (d, w)).1.0
  write_new-Same [] d w = record {
    same_day = refl;
    same_tradeable = refl;
    same_orchestrator = refl;
    same_narrative = refl;
  }
  write_new-Same (e ∷ events) d w =
      let (r, w') = hub.write_events (e ∷ events) w in flush_reply-Same (e ∷ events) r d w'

  pub flush-Same : (d : DayRun) (w : World) → Same d (flush_new_events hub fl ro (d, w)).1.0
  unfolding flush_new_events
  flush-Same d w = write_new-Same (drop d.flushed_count d.todays_events) d w

  subscribe_reply-Same :
      (s : Subscriber) (r : Reply Done) (d : DayRun) (w : World)
      → Same d (subscribe_reply hub fl ro s r (d, w)).1.0
  subscribe_reply-Same s (raised e) d w = Same-refl d
  subscribe_reply-Same s (returned x) d w = record {
    same_day = refl;
    same_tradeable = refl;
    same_orchestrator = refl;
    same_narrative = refl;
  }

  -- Whichever way the first ends, what it and the second leave is the same.
  and_then-Same :
      (d : DayRun) (o : Outcome (DayRun × World)) (f : DayRun × World → Outcome (DayRun × World))
      → Same d o.1.0
      → ((t : DayRun × World) → Same t.0 (f t).1.0)
      → Same d (and_then o f).1.0
  and_then-Same d (raised e, t) f h g = h
  and_then-Same d (returned x, t) f h g = Same-trans h (g t)

  subscribe_all-Same :
      (ss : List Subscriber) (t : DayRun × World) → Same t.0 (subscribe_all hub fl ro ss t).1.0
  subscribe_all-Same [] t = Same-refl t.0
  subscribe_all-Same (s ∷ rest) (d, w) =
      and_then-Same d (subscribe hub fl ro s (d, w)) (subscribe_all hub fl ro rest)
        (let (r, w') = hub.ensure_position_tracker s w in subscribe_reply-Same s r d w')
        (subscribe_all-Same rest)

  pub subscribers-Same :
      (historical : Bool) (t : DayRun × World) → Same t.0 (subscribers hub fl ro historical t).1.0
  subscribers-Same true t = Same-refl t.0
  subscribers-Same false (d, w) = let (r, w') = hub.get_active_subscribers w in reply-Same r w'
    where
      reply-Same :
          (r : Reply (List Subscriber)) (w' : World)
          → Same d (subscribers_reply hub fl ro r (d, w')).1.0
      reply-Same (raised e) w' = Same-refl d
      reply-Same (returned ss) w' = subscribe_all-Same ss (d, w')

  pub begin-Shows :
      (trend : Trend) (s e : ℕ) (d : DayRun) (w : World)
      → narrative d.todays_events ≡ []
      → Shows d
          (begin hub fl ro trend s e (d, w)).1.0
          (tell_all fl (Orchestrator.new trend s e, []) 0 d.day.bars)
  begin-Shows trend s e d w silent =
      let d' = record d { orchestrator = some (Orchestrator.new trend s e) } in
      let t = tell_all fl (Orchestrator.new trend s e, []) 0 d.day.bars in
      let (d'', w') = backfill hub fl ro 0 d.day.bars (d', w) in
      Shows-Same t
        (backfill-Shows 0 d.day.bars d d' w (Orchestrator.new trend s e, [])
          (record { same_day = refl; same_tradeable = refl; shown = refl; told = silent }))
        (flush-Same d'' w')
