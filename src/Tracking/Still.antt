-- ===== src/Tracking/Still.antt =====
-- The recovery of orphans and the alerts halve nothing and take nothing into tracking.
use the_bot.Common.{Bool, ℕ, refl, inl, inr, List, [], ◌∷◌, Option, none, some, Bool-cases}
use the_bot.Common.Floats.{Float, Arith}
use the_bot.Orders.Broker.{Reply, raised, returned, Done, Position}
use the_bot.Tracking.Desk.{OpenTrade, Event, Desk, Scene, recorded, alerted, leave, call}
use the_bot.Tracking.Orphans.{
  Sunk, heal_reply, target_reply, target_of, heal_orphan, row_committed, row_reply, write_row,
  price_or_entry, or_nought, equity_reply, record_reply, record_orphan_trade, recover, recover_all,
  known_reply, broker_reply, knows, Result, times_of, times_reply, fill_time_reply, healed_reply,
  then_rest,
}
use the_bot.Tracking.Tracker.{alert_all}
use the_bot.Tracking.Trace.{Calm, Calm-refl, Calm-trans, Calm-append}

module _ {World : Type 0} (d : Desk World) (fl : Arith) (round2 : Float → Float) where
  abbrev Still : Sunk World → Sunk World → Type 0
  Still (events, s) (events', s') = Calm s.trace s'.trace

  target_reply-Still :
      (p : Position) (now : ℕ) (r : Reply Float) (t : Sunk World)
      → Still t (target_reply d fl p now r t).1
  target_reply-Still p now (raised e) (events, s) = Calm-refl s.trace
  target_reply-Still p now (returned target) (events, s) =
      let (r, s') = call d (d.modify_position p.ticket target) s in heal-Still r s'
    where
      heal-Still :
          (r : Reply Done) (s' : Scene World)
          → Calm s'.trace (heal_reply d fl p now target r (events, s')).1.1.trace
      heal-Still (raised e) s' = Calm-refl s'.trace
      heal-Still (returned x) s' = Calm-refl s'.trace

  row_reply-Calm :
      (p : Position) (r : Reply ℕ) (s : Scene World) → Calm s.trace (row_reply d fl p r s).1.trace
  row_reply-Calm p (raised e) s = Calm-refl s.trace
  row_reply-Calm p (returned trade) s = let (r, s') = call d d.commit s in committed-Calm r s'
    where
      committed-Calm :
          (r : Reply Done) (s : Scene World) → Calm s.trace (row_committed d fl p trade r s).1.trace
      committed-Calm (raised e) s = Calm-refl s.trace
      committed-Calm (returned x) s =
          Calm-append s.trace (recorded p.ticket trade ∷ []) (λ t. refl) (λ t. refl) refl

  write_row-Calm :
      (p : Position) (target : Option Float) (risk_pct : Float) (times : ℕ × ℕ) (equity : Float)
      (s : Scene World)
      → Calm s.trace (write_row d fl p target risk_pct times equity s).1.trace
  write_row-Calm p target risk_pct times equity s =
      let (r, s') =
        call d
          (d.write_orphan_trade (record {
            position = p;
            target_price = price_or_entry d fl p target;
            entry_time_utc = times.0;
            entry_time_ny = times.1;
            risk_pct = risk_pct;
            equity_before = equity;
          }))
          s in
      row_reply-Calm p r s'

  equity_reply-Calm :
      (p : Position) (target : Option Float) (risk_pct : Float) (times : ℕ × ℕ)
      (r : Reply (Option Float)) (s : Scene World)
      → Calm s.trace (equity_reply d fl p target risk_pct times r s).1.trace
  equity_reply-Calm p target risk_pct times (raised e) s = Calm-refl s.trace
  equity_reply-Calm p target risk_pct times (returned (some equity)) s =
      write_row-Calm p target risk_pct times equity s
  equity_reply-Calm p target risk_pct times (returned none) s =
      let (r, s') = call d d.balance s in
      write_row-Calm p target risk_pct times (or_nought d fl r) s'

  record_reply-Calm :
      (p : Position) (now ny : ℕ) (r : Reply ℕ) (events : List Event) (s : Scene World)
      → Calm s.trace (record_reply d fl p now ny r (events, s)).1.1.trace
  record_reply-Calm p now ny (raised e) events s = Calm-refl s.trace
  record_reply-Calm p now ny (returned trade) events s = Calm-refl s.trace

  times_reply-Still :
      (p : Position) (target : Option Float) (risk_pct : Float) (now : ℕ) (r : Reply (ℕ × ℕ))
      (t : Sunk World)
      → Still t (times_reply d fl p target risk_pct now r t).1
  times_reply-Still p target risk_pct now (raised e) (events, s) = Calm-refl s.trace
  times_reply-Still p target risk_pct now (returned times) (events, s) =
      let (r, s1) = call d d.get_current_equity s in
      let (r', s2) = equity_reply d fl p target risk_pct times r s1 in
      Calm-trans (equity_reply-Calm p target risk_pct times r s1)
        (record_reply-Calm p now times.1 r' events s2)

  fill_time_reply-Still :
      (p : Position) (now : ℕ) (r : Reply ℕ) (t : Sunk World)
      → Still t (fill_time_reply d fl p now r t).1
  fill_time_reply-Still p now (raised e) (events, s) = Calm-refl s.trace
  fill_time_reply-Still p now (returned time) (events, s) =
      let (r, s1) = call d d.get_candles s in
      target_reply-Still p now (target_of d fl p time r) (events, s1)

  healed_reply-Still :
      (p : Position) (risk_pct : Float) (now : ℕ) (r : Reply (Bool × Option Float)) (t : Sunk World)
      → Still t (healed_reply d fl p risk_pct now r t).1
  unfolding record_orphan_trade healed_reply
  healed_reply-Still p risk_pct now (raised e) (events, s) = Calm-refl s.trace
  healed_reply-Still p risk_pct now (returned (healed, target)) t =
      times_reply-Still p target risk_pct now (times_of d fl (d.utc_of p) (d.ny_of p)) t

  recover-Still :
      (p : Position) (risk_pct : Float) (now : ℕ) (t : Sunk World)
      → Still t (recover d fl p risk_pct now t).1
  unfolding recover heal_orphan
  recover-Still p risk_pct now t =
      let (r, t') = fill_time_reply d fl p now (d.utc_of p) t in
      Calm-trans (fill_time_reply-Still p now (d.utc_of p) t)
        (healed_reply-Still p risk_pct now r t')

  then_rest-Still :
      (t : Sunk World) (o : Reply Result × Sunk World)
      (f : Sunk World → Reply (List Result) × Sunk World)
      → Still t o.1
      → ((t' : Sunk World) → Still t' (f t').1)
      → Still t (then_rest d fl o f).1
  then_rest-Still t (raised e, t') f h go = h
  then_rest-Still t (returned result, t') f h go = Calm-trans h (go t')

  recover_all-Still :
      (known : List OpenTrade) (positions : List Position) (risk_pct : Float) (now : ℕ)
      (t : Sunk World)
      → Still t (recover_all d fl known positions risk_pct now t).1
  unfolding recover_all
  recover_all-Still known [] risk_pct now (events, s) = Calm-refl s.trace
  recover_all-Still known (p ∷ rest) risk_pct now t = elim (Bool-cases (knows p.ticket known)) [
    | inl is ↦ rw (is, recover_all) (recover_all-Still known rest risk_pct now t)
    | inr is_not ↦
        rw (is_not, recover_all)
          (then_rest-Still t (recover d fl p risk_pct now t)
            (recover_all d fl known rest risk_pct now) (recover-Still p risk_pct now t)
            (recover_all-Still known rest risk_pct now))
  ]

  known_reply-Calm :
      (positions : List Position) (risk_pct : Float) (now : ℕ) (r : Reply (List OpenTrade))
      (s : Scene World)
      → Calm s.trace (known_reply d fl positions risk_pct now r s).1.trace
  known_reply-Calm positions risk_pct now (raised e) s = Calm-refl s.trace
  known_reply-Calm positions risk_pct now (returned known) s =
      recover_all-Still known positions risk_pct now ([], s)

  pub broker_reply-Calm :
      (risk_pct : Float) (now : ℕ) (r : Reply (List Position)) (s : Scene World)
      → Calm s.trace (broker_reply d fl risk_pct now r s).1.trace
  broker_reply-Calm risk_pct now (raised e) s = Calm-refl s.trace
  broker_reply-Calm risk_pct now (returned positions) s =
      let (r, s') = call d d.get_open_real_trades s in known_reply-Calm positions risk_pct now r s'

  pub alert_all-Calm :
      (events : List Event) (s : Scene World) → Calm s.trace (alert_all d fl round2 events s).trace
  alert_all-Calm [] s = Calm-refl s.trace
  alert_all-Calm (e ∷ rest) s =
      Calm-trans (Calm-append s.trace (alerted e ∷ []) (λ t. refl) (λ t. refl) refl)
        (alert_all-Calm rest (leave d (alerted e) s))
