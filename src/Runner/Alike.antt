-- ===== src/Runner/Alike.antt =====
-- Two days that are alike, each with its own hub, remain alike when both take the same step and neither
-- raises.
use mathlib.Core.Path.{subst}
use the_bot.Common.{
  ℕ, suc, ◌≡◌, refl, ap, sym, ◌∙◌, Bool, true, List, [], ◌∷◌, ◌++◌, append-nil, Option, none, some,
}
use the_bot.Common.Floats.{Arith}
use the_bot.Detection.Bars.{Bar, Trend}
use the_bot.Detection.Gate.{Selection, skip, tradeable}
use the_bot.Detection.Orchestrator as Orchestrator
use the_bot.DayState.{CurrentDay}
use the_bot.Orders.Broker.{raised, returned, done}
use the_bot.Orders.Sizing.{Rounding}
use the_bot.Runner.Hub.{day_trend_determined, DayRun, Hub, Outcome, and_then}
use the_bot.Runner.Day.{
  append_event, show_bar, flush_new_events, show_to, backfill, subscribers, begin, decide,
  time_of_last,
}
use the_bot.Runner.Narrative.{Telling, tell, narrative, narrative-append}
use the_bot.Runner.Told.{Same, Same-trans, show_bar-Shows, flush-Same, subscribers-Same}

-- The call came back.
abbrev pub HasReturned : {S : Type 0} → Outcome S → Type 0
HasReturned o = o.0 ≡ returned done

pub and_then-HasReturned :
    {S : Type 0} (o : Outcome S) (f : S → Outcome S)
    → HasReturned (and_then o f)
    → HasReturned o × HasReturned (f o.1) × ((and_then o f).1 ≡ (f o.1).1)
and_then-HasReturned (raised x, s) f h = cc
and_then-HasReturned (returned done, s) f h = (refl, h, refl)

Same-sym : {d d' : DayRun} → Same d d' → Same d' d
Same-sym s = record {
  same_day = sym s.same_day;
  same_tradeable = sym s.same_tradeable;
  same_orchestrator = sym s.same_orchestrator;
  same_narrative = sym s.same_narrative;
}

-- What the two lead to is the same.
pub between : {a a' b b' : DayRun} → Same a a' → Same b b' → Same a b → Same a' b'
between s s' m = Same-trans (Same-sym s) (Same-trans m s')

module _ {World World' : Type 0} (hub : Hub World) (hub' : Hub World') (fl : Arith)
    (ro ro' : Rounding) where
  pub show_bar-alike :
      (day : Orchestrator.Day) (idx : ℕ) (b : Bar) (d d' : DayRun) (w : World) (w' : World')
      → Same d d'
      → Same (show_bar hub fl ro day idx b (d, w)).0 (show_bar hub' fl ro' day idx b (d', w')).0
  show_bar-alike day idx b d d' w w' s =
      let h = show_bar-Shows hub fl ro day idx b d w in
      let h' = show_bar-Shows hub' fl ro' day idx b d' w' in
      let told : tell fl (day, narrative d'.todays_events) idx b
          ≡ tell fl (day, narrative d.todays_events) idx b =
        ap (λ es. tell fl (day, es) idx b) s.same_narrative in
      record {
        same_day = h'.same_day ∙ s.same_day ∙ sym h.same_day;
        same_tradeable = h'.same_tradeable ∙ s.same_tradeable ∙ sym h.same_tradeable;
        same_orchestrator = h'.shown ∙ sym h.shown;
        same_narrative = h'.told ∙ ap (λ (t : Telling). t.1) told ∙ sym h.told;
      }

  show_to-alike :
      (o o' : Option Orchestrator.Day) (idx : ℕ) (b : Bar) (d d' : DayRun) (w : World) (w' : World')
      → o' ≡ o
      → Same d d'
      → Same (show_to hub fl ro o idx b (d, w)).0 (show_to hub' fl ro' o' idx b (d', w')).0
  show_to-alike none none idx b d d' w w' e s = s
  show_to-alike none (some y) idx b d d' w w' e s = cc
  show_to-alike (some x) none idx b d d' w w' e s = cc
  show_to-alike (some x) (some y) idx b d d' w w' e s =
      let same : x ≡ y = cc in
      subst
        (λ z. Same (show_bar hub fl ro x idx b (d, w)).0 (show_bar hub' fl ro' z idx b (d', w')).0)
        same (show_bar-alike x idx b d d' w w' s)

  backfill-alike :
      (idx : ℕ) (bars : List Bar) (d d' : DayRun) (w : World) (w' : World')
      → Same d d'
      → Same (backfill hub fl ro idx bars (d, w)).0 (backfill hub' fl ro' idx bars (d', w')).0
  backfill-alike idx [] d d' w w' s = s
  backfill-alike idx (b ∷ bars) d d' w w' s =
      let (d1, w1) = show_to hub fl ro d.orchestrator idx b (d, w) in
      let (d1', w1') = show_to hub' fl ro' d'.orchestrator idx b (d', w') in
      backfill-alike (suc idx) bars d1 d1' w1 w1'
        (show_to-alike d.orchestrator d'.orchestrator idx b d d' w w' s.same_orchestrator s)

  pub flush-alike :
      (t : DayRun × World) (t' : DayRun × World')
      → Same t.0 t'.0
      → Same (flush_new_events hub fl ro t).1.0 (flush_new_events hub' fl ro' t').1.0
  flush-alike (d, w) (d', w') s =
      between (flush-Same hub fl ro d w) (flush-Same hub' fl ro' d' w') s

  begin-alike :
      (trend : Trend) (s e : ℕ) (t : DayRun × World) (t' : DayRun × World')
      → Same t.0 t'.0
      → Same (begin hub fl ro trend s e t).1.0 (begin hub' fl ro' trend s e t').1.0
  begin-alike trend s e (d, w) (d', w') m =
      let o = some (Orchestrator.new trend s e) in
      let d1 = record d { orchestrator = o } in
      let d1' = record d' { orchestrator = o } in
      flush-alike (backfill hub fl ro 0 d.day.bars (d1, w))
        (backfill hub' fl ro' 0 d'.day.bars (d1', w'))
        (subst
          (λ (c : CurrentDay).
            Same (backfill hub fl ro 0 d.day.bars (d1, w)).0
              (backfill hub' fl ro' 0 c.bars (d1', w')).0)
          (sym m.same_day)
          (backfill-alike 0 d.day.bars d1 d1' w w' (record {
            same_day = m.same_day;
            same_tradeable = m.same_tradeable;
            same_orchestrator = refl;
            same_narrative = m.same_narrative;
          })))

  pub decide-alike :
      (h h' : Bool) (choice : Selection) (d d' : DayRun) (w : World) (w' : World')
      → Same d d'
      → HasReturned (decide hub fl ro h choice (d, w))
      → HasReturned (decide hub' fl ro' h' choice (d', w'))
      → Same (decide hub fl ro h choice (d, w)).1.0 (decide hub' fl ro' h' choice (d', w')).1.0
  decide-alike h h' (skip reason) d d' w w' m back back' = record {
    same_day = ap (λ (c : CurrentDay). record c { decided = true }) m.same_day;
    same_tradeable = refl;
    same_orchestrator = m.same_orchestrator;
    same_narrative = m.same_narrative;
  }
  decide-alike h h' (tradeable trend s e) d d' w w' m back back' =
      let mark = λ (c : DayRun).
        append_event (day_trend_determined trend (time_of_last c.day.bars)) (record c {
          day = record c.day { decided = true };
          tradeable = true;
          trend = some trend;
        }) in
      let o = subscribers hub fl ro h (mark d, w) in
      let o' = subscribers hub' fl ro' h' (mark d', w') in
      let (_, _, is) = and_then-HasReturned o (begin hub fl ro trend s e) back in
      let (_, _, is') = and_then-HasReturned o' (begin hub' fl ro' trend s e) back' in
      let marked : Same (mark d) (mark d') = record {
        same_day = ap (λ (c : CurrentDay). record c { decided = true }) m.same_day;
        same_tradeable = refl;
        same_orchestrator = m.same_orchestrator;
        same_narrative = marked-narrative d' ∙ m.same_narrative ∙ sym (marked-narrative d);
      } in
      subst (λ t. Same t (and_then o' (begin hub' fl ro' trend s e)).1.0)
        (sym (ap (λ (t : DayRun × World). t.0) is))
        (subst (λ t. Same (begin hub fl ro trend s e o.1).1.0 t)
          (sym (ap (λ (t : DayRun × World'). t.0) is'))
          (begin-alike trend s e o.1 o'.1 (
            between (subscribers-Same hub fl ro h (mark d, w))
              (subscribers-Same hub' fl ro' h' (mark d', w')) marked)))
    where
      marked-narrative :
          (c : DayRun)
          → narrative (c.todays_events ++ day_trend_determined trend (time_of_last c.day.bars) ∷ [])
            ≡ narrative c.todays_events
      marked-narrative c =
          narrative-append c.todays_events _ ∙ append-nil (narrative c.todays_events)
