-- ===== src/Tracking/Orphans.antt =====
-- shadow_runner/orphan_recovery.py: open positions that no trade knows of are given a target and a row.
use the_bot.Common.{
  ℕ, Bool, true, false, List, [], ◌∷◌, ◌++◌, Option, none, some, ltb, ◌==◌, ◌||◌, if◌then◌else◌,
}
use the_bot.Common.Floats.{Float, Arith}
use the_bot.Common.Deque.{last}
use the_bot.Detection.Bars.{Bar}
use the_bot.Orders.Broker.{Error, Reply, raised, returned, Done, Position}
use the_bot.Orders.Target.{compute_target}
use the_bot.Tracking.Desk.{
  OpenTrade, orphan_position_check_bridge_call, orphan_position_target_compute_failed,
  orphan_position_heal_failed, orphan_trade_record_failed, Event, safety_check_failed,
  orphan_position_recovered, orphan_trade_recorded, Desk, Scene, recorded, leave, call, undo,
}

-- What became of one orphan. The trade and its entry time are there if the trade was recorded.
pub record Result : Type 0 where
  pub ticket : ℕ
  pub healed : Bool
  pub trade : Option (ℕ × ℕ)

-- `real_position_ticket in known_tickets`
abbrev pub knows : ℕ → List OpenTrade → Bool
knows ticket [] = false
knows ticket (t ∷ rest) = elim t.ticket [
  | none ↦ knows ticket rest
  | some k ↦ (ticket == k) || knows ticket rest
]

-- `[b for b in candles if b["time_utc"] < fill_time_utc]`
abbrev pub bars_before : ℕ → List Bar → List Bar
bars_before time [] = []
bars_before time (b ∷ rest) =
    if ltb b.time time then b ∷ bars_before time rest else bars_before time rest

-- The events for the caller's sink, after those that are there.
abbrev pub Sunk : Type 0 → Type 0
Sunk World = List Event × Scene World

module _ {World : Type 0} (d : Desk World) (fl : Arith) where
  -- `event_sink(…)`
  abbrev pub sink : Event → Sunk World → Sunk World
  sink e (events, s) = (events ++ e ∷ [], s)

  abbrev pub heal_reply :
      Position → ℕ → Float → Reply Done → Sunk World → (Bool × Option Float) × Sunk World
  heal_reply p now target (raised e) t = (
    (false, some target),
    sink (safety_check_failed now orphan_position_heal_failed e (some p.ticket)) t,
  )
  heal_reply p now target (returned _) t = (
    (true, some target),
    sink (orphan_position_recovered now p.ticket p.direction target p.open_price) t,
  )

  abbrev pub target_reply :
      Position → ℕ → Reply Float → Sunk World → (Bool × Option Float) × Sunk World
  target_reply p now (raised e) t = (
    (false, none),
    sink (safety_check_failed now orphan_position_target_compute_failed e (some p.ticket)) t,
  )
  target_reply p now (returned target) (events, s) =
      let (r, s') = call d (d.modify_position p.ticket target) s in
      heal_reply p now target r (events, s')

  abbrev pub target_of : Position → ℕ → Reply (List Bar) → Reply Float
  target_of p fill_time_utc (raised e) = raised e
  target_of p fill_time_utc (returned candles) =
      compute_target fl (last 6 (bars_before fill_time_utc candles)) p.direction

  abbrev pub fill_time_reply :
      Position → ℕ → Reply ℕ → Sunk World → Reply (Bool × Option Float) × Sunk World
  fill_time_reply p now (raised e) t = (raised e, t)
  fill_time_reply p now (returned fill_time_utc) (events, s) =
      let (r, s') = call d d.get_candles s in
      let (x, t) = target_reply p now (target_of p fill_time_utc r) (events, s') in (returned x, t)

  -- `_heal_orphan`, which raises if the position's time is malformed.
  unfoldable pub heal_orphan : Position → ℕ → Sunk World → Reply (Bool × Option Float) × Sunk World
  heal_orphan p now t = fill_time_reply p now (d.utc_of p) t

  abbrev pub price_or_entry : Position → Option Float → Float
  price_or_entry p (some target) = target
  price_or_entry p none = p.open_price

  abbrev pub row_committed : Position → ℕ → Reply Done → Scene World → Reply ℕ × Scene World
  row_committed p trade (raised e) s = (raised e, s)
  row_committed p trade (returned _) s = (returned trade, leave d (recorded p.ticket trade) s)

  abbrev pub row_reply : Position → Reply ℕ → Scene World → Reply ℕ × Scene World
  row_reply p (raised e) s = (raised e, s)
  row_reply p (returned trade) s = let (r, s') = call d d.commit s in row_committed p trade r s'

  abbrev pub write_row :
      Position → Option Float → Float → ℕ × ℕ → Float → Scene World → Reply ℕ × Scene World
  write_row p target risk_pct times equity s =
      let (r, s') =
        call d
          (d.write_orphan_trade (record {
            position = p;
            target_price = price_or_entry p target;
            entry_time_utc = times.0;
            entry_time_ny = times.1;
            risk_pct = risk_pct;
            equity_before = equity;
          }))
          s in
      row_reply p r s'

  -- The balance of the account, or 0.0 if it cannot be had.
  abbrev pub or_nought : Reply Float → Float
  or_nought (raised e) = fl.nought
  or_nought (returned balance) = balance

  abbrev pub equity_reply :
      Position
      → Option Float
      → Float
      → ℕ × ℕ
      → Reply (Option Float)
      → Scene World
      → Reply ℕ × Scene World
  equity_reply p target risk_pct times (raised e) s = (raised e, s)
  equity_reply p target risk_pct times (returned (some equity)) s =
      write_row p target risk_pct times equity s
  equity_reply p target risk_pct times (returned none) s =
      let (r, s') = call d d.balance s in write_row p target risk_pct times (or_nought r) s'

  -- `except`: rolled back and reported.
  abbrev pub record_failed : Position → ℕ → Error → Sunk World → Option (ℕ × ℕ) × Sunk World
  record_failed p now e (events, s) = (
    none,
    sink (safety_check_failed now orphan_trade_record_failed e (some p.ticket)) (events, undo d s),
  )

  abbrev pub record_reply : Position → ℕ → ℕ → Reply ℕ → Sunk World → Option (ℕ × ℕ) × Sunk World
  record_reply p now entry_time_ny (raised e) t = record_failed p now e t
  record_reply p now entry_time_ny (returned trade) t =
      (some (trade, entry_time_ny), sink (orphan_trade_recorded now p.ticket trade) t)

  -- The two times that are parsed at the start of the `try`.
  abbrev pub times_of : Reply ℕ → Reply ℕ → Reply (ℕ × ℕ)
  times_of (raised e) ny = raised e
  times_of (returned utc) (raised e) = raised e
  times_of (returned utc) (returned ny) = returned (utc, ny)

  abbrev pub times_reply :
      Position → Option Float → Float → ℕ → Reply (ℕ × ℕ) → Sunk World → Option (ℕ × ℕ) × Sunk World
  times_reply p target risk_pct now (raised e) t = record_failed p now e t
  times_reply p target risk_pct now (returned times) (events, s) =
      let (r, s') = call d d.get_current_equity s in
      let (r', s'') = equity_reply p target risk_pct times r s' in
      record_reply p now times.1 r' (events, s'')

  -- `_record_orphan_trade`
  unfoldable pub record_orphan_trade :
      Position → Option Float → Float → ℕ → Sunk World → Option (ℕ × ℕ) × Sunk World
  record_orphan_trade p target risk_pct now t =
      times_reply p target risk_pct now (times_of (d.utc_of p) (d.ny_of p)) t

  unfoldable pub healed_reply :
      Position → Float → ℕ → Reply (Bool × Option Float) → Sunk World → Reply Result × Sunk World
  unfolding record_orphan_trade
  healed_reply p risk_pct now (raised e) t = (raised e, t)
  healed_reply p risk_pct now (returned (healed, target)) t =
      let (trade, t') = record_orphan_trade p target risk_pct now t in
      (returned (record { ticket = p.ticket; healed = healed; trade = trade }), t')

  -- One orphan: its target, then its row.
  unfoldable pub recover : Position → Float → ℕ → Sunk World → Reply Result × Sunk World
  unfolding heal_orphan healed_reply
  recover p risk_pct now t = let (r, t') = heal_orphan p now t in healed_reply p risk_pct now r t'

  -- `results.append(…)`, before the results of the rest of the loop.
  abbrev pub prepend : Result → Reply (List Result) → Reply (List Result)
  prepend result (raised e) = raised e
  prepend result (returned results) = returned (result ∷ results)

  abbrev pub then_rest :
      Reply Result × Sunk World
      → (Sunk World → Reply (List Result) × Sunk World)
      → Reply (List Result) × Sunk World
  then_rest (raised e, t) f = (raised e, t)
  then_rest (returned result, t) f = let (r, t') = f t in (prepend result r, t')

  -- The loop over the open positions.
  unfoldable pub recover_all :
      List OpenTrade → List Position → Float → ℕ → Sunk World → Reply (List Result) × Sunk World
  unfolding recover
  recover_all known [] risk_pct now t = (returned [], t)
  recover_all known (p ∷ rest) risk_pct now t = elim (knows p.ticket known) [
    | true ↦ recover_all known rest risk_pct now t
    | false ↦ then_rest (recover p risk_pct now t) (recover_all known rest risk_pct now)
  ]

  -- The results and the events of the sink.
  abbrev pub with_events : List Event → Reply (List Result) → Reply (List Result × List Event)
  with_events events (raised e) = raised e
  with_events events (returned results) = returned (results, events)

  abbrev pub known_reply :
      List Position
      → Float
      → ℕ
      → Reply (List OpenTrade)
      → Scene World
      → Reply (List Result × List Event) × Scene World
  known_reply positions risk_pct now (raised e) s = (raised e, s)
  known_reply positions risk_pct now (returned known) s =
      let (r, (events, s')) = recover_all known positions risk_pct now ([], s) in
      (with_events events r, s')

  abbrev pub broker_reply :
      Float
      → ℕ
      → Reply (List Position)
      → Scene World
      → Reply (List Result × List Event) × Scene World
  broker_reply risk_pct now (raised e) s =
      (returned ([], safety_check_failed now orphan_position_check_bridge_call e none ∷ []), s)
  broker_reply risk_pct now (returned positions) s =
      let (r, s') = call d d.get_open_real_trades s in known_reply positions risk_pct now r s'

  -- What was sunk before it raises has no result: the caller drops it.
  unfoldable pub check_for_orphaned_positions :
      ℕ → Float → ℕ → Scene World → Reply (List Result × List Event) × Scene World
  unfolding recover_all
  check_for_orphaned_positions magic risk_pct now s =
      let (r, s') = call d (d.get_positions magic) s in broker_reply risk_pct now r s'
