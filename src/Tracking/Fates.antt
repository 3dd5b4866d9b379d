-- ===== src/Tracking/Fates.antt =====
-- What an orphan check may come to, by the answers of the broker and of the database:
-- shadow_runner/orphan_recovery.py.
use the_bot.Common.{ℕ, ◌≡◌, Bool, true, false, List, [], ◌∷◌, ◌++◌, Option, none, some}
use the_bot.Common.Floats.{Float, Arith}
use the_bot.Common.Deque.{last}
use the_bot.Detection.Bars.{Bar}
use the_bot.Orders.Broker.{Error, Reply, raised, returned, done, Position}
use the_bot.Orders.Target.{compute_target}
use the_bot.Tracking.Desk.{
  OpenTrade, Event, safety_check_failed, orphan_position_check_bridge_call,
  orphan_position_target_compute_failed, orphan_position_heal_failed, orphan_trade_record_failed,
  orphan_position_recovered, orphan_trade_recorded, OrphanTrade, Desk, Scene, recorded, leave,
}
use the_bot.Tracking.Orphans.{
  Result, Sunk, knows, bars_before, price_or_entry, times_of, prepend, with_events,
}

module _ {World : Type 0} (d : Desk World) (fl : Arith) where
  -- After one more event, and with the world `w`.
  abbrev pub Told : Event → Sunk World → World → Sunk World
  Told e (events, s) w = (events ++ e ∷ [], record s { world = w })

  -- What becomes of the target of the orphan `p`, by the answers of the broker: it cannot be computed,
  -- for want of candles or of bars before the fill; or it is refused; or it is attached.
  pub data Heals (p : Position) (now : ℕ) (t : Sunk World)
      : Bool × Option Float → Sunk World → Type 0 where
    no_candles :
        (e : Error) (w : World)
        → d.get_candles t.1.world ≡ (raised e, w)
        → Heals p now t
            (false, none)
            (Told
              (safety_check_failed now orphan_position_target_compute_failed e (some p.ticket))
              t
              w)
    no_target :
        (candles : List Bar) (time : ℕ) (e : Error) (w : World)
        → d.utc_of p ≡ returned time
        → d.get_candles t.1.world ≡ (returned candles, w)
        → compute_target fl (last 6 (bars_before time candles)) p.direction ≡ raised e
        → Heals p now t
            (false, none)
            (Told
              (safety_check_failed now orphan_position_target_compute_failed e (some p.ticket))
              t
              w)
    refused :
        (candles : List Bar) (time : ℕ) (target : Float) (e : Error) (w w' : World)
        → d.utc_of p ≡ returned time
        → d.get_candles t.1.world ≡ (returned candles, w)
        → compute_target fl (last 6 (bars_before time candles)) p.direction ≡ returned target
        → d.modify_position p.ticket target w ≡ (raised e, w')
        → Heals p now t
            (false, some target)
            (Told (safety_check_failed now orphan_position_heal_failed e (some p.ticket)) t w')
    attached :
        (candles : List Bar) (time : ℕ) (target : Float) (w w' : World)
        → d.utc_of p ≡ returned time
        → d.get_candles t.1.world ≡ (returned candles, w)
        → compute_target fl (last 6 (bars_before time candles)) p.direction ≡ returned target
        → d.modify_position p.ticket target w ≡ (returned done, w')
        → Heals p now t
            (true, some target)
            (Told (orphan_position_recovered now p.ticket p.direction target p.open_price) t w')

  -- The equity before the trade: that of the last trade, else the account's balance, else nought.
  pub data HasEquity (w : World) : Float → World → Type 0 where
    of_trades :
        (x : Float) (w' : World)
        → d.get_current_equity w ≡ (returned (some x), w')
        → HasEquity w x w'
    of_account :
        (x : Float) (w' w'' : World)
        → d.get_current_equity w ≡ (returned none, w')
        → d.balance w' ≡ (returned x, w'')
        → HasEquity w x w''
    unknown :
        (e : Error) (w' w'' : World)
        → d.get_current_equity w ≡ (returned none, w')
        → d.balance w' ≡ (raised e, w'')
        → HasEquity w fl.nought w''

  -- The row of the orphan `p`: at its target, or its entry price for want of one.
  abbrev pub RowOf : Position → Option Float → Float → ℕ × ℕ → Float → OrphanTrade
  RowOf p target risk_pct times equity = record {
    position = p;
    target_price = price_or_entry d fl p target;
    entry_time_utc = times.0;
    entry_time_ny = times.1;
    risk_pct = risk_pct;
    equity_before = equity;
  }

  -- The row is written and committed, or an error comes first.
  pub data Writes (p : Position) (target : Option Float) (risk_pct : Float) (times : ℕ × ℕ)
      (s : Scene World) : Reply ℕ → Scene World → Type 0 where
    no_equity :
        (e : Error) (w : World)
        → d.get_current_equity s.world ≡ (raised e, w)
        → Writes p target risk_pct times s (raised e) (record s { world = w })
    unwritten :
        (equity : Float) (e : Error) (w w' : World)
        → HasEquity s.world equity w
        → d.write_orphan_trade (RowOf p target risk_pct times equity) w ≡ (raised e, w')
        → Writes p target risk_pct times s (raised e) (record s { world = w' })
    uncommitted :
        (equity : Float) (trade : ℕ) (e : Error) (w w' w'' : World)
        → HasEquity s.world equity w
        → d.write_orphan_trade (RowOf p target risk_pct times equity) w ≡ (returned trade, w')
        → d.commit w' ≡ (raised e, w'')
        → Writes p target risk_pct times s (raised e) (record s { world = w'' })
    written :
        (equity : Float) (trade : ℕ) (w w' w'' : World)
        → HasEquity s.world equity w
        → d.write_orphan_trade (RowOf p target risk_pct times equity) w ≡ (returned trade, w')
        → d.commit w' ≡ (returned done, w'')
        → Writes p target risk_pct times s
            (returned trade)
            (leave d (recorded p.ticket trade) (record s { world = w'' }))

  -- What becomes of the trade of the orphan `p`: it is recorded; or an error, a malformed New York time
  -- among them, is rolled back and reported.
  pub data Records (p : Position) (target : Option Float) (risk_pct : Float) (now : ℕ)
      (t : Sunk World) : Option (ℕ × ℕ) → Sunk World → Type 0 where
    untimed :
        (e : Error)
        → times_of d fl (d.utc_of p) (d.ny_of p) ≡ raised e
        → Records p target risk_pct now t none (
            Told
              (safety_check_failed now orphan_trade_record_failed e (some p.ticket))
              t
              (d.rollback t.1.world))
    failed :
        (times : ℕ × ℕ) (e : Error) (s : Scene World)
        → times_of d fl (d.utc_of p) (d.ny_of p) ≡ returned times
        → Writes p target risk_pct times t.1 (raised e) s
        → Records p target risk_pct now t none (
            Told
              (safety_check_failed now orphan_trade_record_failed e (some p.ticket))
              (t.0, s)
              (d.rollback s.world))
    kept :
        (times : ℕ × ℕ) (trade : ℕ) (s : Scene World)
        → times_of d fl (d.utc_of p) (d.ny_of p) ≡ returned times
        → Writes p target risk_pct times t.1 (returned trade) s
        → Records p target risk_pct now t
            (some (trade, times.1))
            (t.0 ++ orphan_trade_recorded now p.ticket trade ∷ [], s)

  -- The loop over the open positions, from `t` on: one that an open trade knows is passed over; one
  -- whose time is malformed ends it; and any other is healed and recorded, before the rest of them.
  pub data Recovers (known : List OpenTrade) (risk_pct : Float) (now : ℕ)
      : List Position → Sunk World → Reply (List Result) → Sunk World → Type 0 where
    finished : (t : Sunk World) → Recovers known risk_pct now [] t (returned []) t
    passed :
        (p : Position) (rest : List Position) (t t' : Sunk World) (r : Reply (List Result))
        → knows p.ticket known ≡ true
        → Recovers known risk_pct now rest t r t'
        → Recovers known risk_pct now (p ∷ rest) t r t'
    malformed :
        (p : Position) (rest : List Position) (t : Sunk World) (e : Error)
        → knows p.ticket known ≡ false
        → d.utc_of p ≡ raised e
        → Recovers known risk_pct now (p ∷ rest) t (raised e) t
    treated :
        (p : Position) (rest : List Position) (t t' t'' t''' : Sunk World) (time : ℕ)
        (healed : Bool × Option Float) (trade : Option (ℕ × ℕ)) (r : Reply (List Result))
        → knows p.ticket known ≡ false
        → d.utc_of p ≡ returned time
        → Heals p now t healed t'
        → Records p healed.1 risk_pct now t' trade t''
        → Recovers known risk_pct now rest t'' r t'''
        → Recovers known risk_pct now
            (p ∷ rest)
            t
            (prepend d fl (record { ticket = p.ticket; healed = healed.0; trade = trade }) r)
            t'''

  -- What an orphan check comes to.
  pub data Treats (magic : ℕ) (risk_pct : Float) (now : ℕ) (s : Scene World)
      : Reply (List Result × List Event) → Scene World → Type 0 where
    unlisted :
        (e : Error) (w : World)
        → d.get_positions magic s.world ≡ (raised e, w)
        → Treats magic risk_pct now s
            (returned ([], safety_check_failed now orphan_position_check_bridge_call e none ∷ []))
            (record s { world = w })
    unknown_trades :
        (positions : List Position) (e : Error) (w w' : World)
        → d.get_positions magic s.world ≡ (returned positions, w)
        → d.get_open_real_trades w ≡ (raised e, w')
        → Treats magic risk_pct now s (raised e) (record s { world = w' })
    looped :
        (positions : List Position) (known : List OpenTrade) (w w' : World)
        (r : Reply (List Result)) (events : List Event) (s' : Scene World)
        → d.get_positions magic s.world ≡ (returned positions, w)
        → d.get_open_real_trades w ≡ (returned known, w')
        → Recovers known risk_pct now positions ([], record s { world = w' }) r (events, s')
        → Treats magic risk_pct now s (with_events d fl events r) s'
