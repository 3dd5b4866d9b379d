-- ===== src/Tracking/Tracker.antt =====
-- shadow_runner/position_tracker.py: the watch over open positions until they are closed for good.
use the_bot.Common.{
  ℕ, ◌+◌, ◌*◌, ◌/◌, Bool, true, false, not, List, [], ◌∷◌, map, Option, none, some, ltb, leb, ◌==◌,
  ◌||◌, ◌&&◌, if◌then◌else◌,
}
use the_bot.Common.Floats.{Float, Arith}
use the_bot.Orders.Broker.{Error, Reply, raised, returned, value_error, Done, Position, History}
use the_bot.Tracking.Desk.{
  PartialClose, OpenTrade, Check, check_positions_failed, get_history_failed,
  final_close_db_write_failed, partial_close_volume_validation, close_position_partial_failed,
  partial_close_db_write_failed, continuous_orphan_check, Event, safety_check_failed,
  partial_close_executed, real_trade_closed, write_event, update_trade_partial_close,
  update_trade_final_close, Desk, Scene, halved, alerted, taken, looked, leave, call, undo,
  transact,
}
use the_bot.Tracking.Orphans.{Result, check_for_orphaned_positions}

pub record Info : Type 0 where
  pub trade_id : ℕ
  pub entry_time : ℕ
  pub partial_closed : Bool

-- `tracked` is a dictionary by ticket, `magic_number` and `risk_pct` are read off `model_config`.
pub record Tracker : Type 0 where
  pub tracked : List (ℕ × Info)
  pub last_orphan_check : Option ℕ
  pub magic_number : ℕ
  pub risk_pct : Float

pub record Post (World : Type 0) : Type 0 where
  pub tracker : Tracker
  pub scene : Scene World

-- Times are in microseconds, as a `datetime` has them.
abbrev pub minute : ℕ
minute = 60000000

abbrev pub whole_day : ℕ
whole_day = 1440 * minute

-- `ORPHAN_CHECK_INTERVAL`
abbrev pub orphan_check_interval : ℕ
orphan_check_interval = 5 * minute

-- `time(PARTIAL_CLOSE_HOUR, 0)`
abbrev pub partial_close_time : ℕ
partial_close_time = 1020 * minute

-- `tracked[ticket] = info`
abbrev pub put : ℕ → Info → List (ℕ × Info) → List (ℕ × Info)
put ticket info [] = (ticket, info) ∷ []
put ticket info ((t, i) ∷ rest) =
    if t == ticket then (t, info) ∷ rest else (t, i) ∷ put ticket info rest

-- `del tracked[ticket]`
abbrev pub drop_ticket : ℕ → List (ℕ × Info) → List (ℕ × Info)
drop_ticket ticket [] = []
drop_ticket ticket ((t, i) ∷ rest) =
    if t == ticket then drop_ticket ticket rest else (t, i) ∷ drop_ticket ticket rest

-- `info["partial_closed"] = True`, where `info` is the dictionary's own entry.
abbrev pub mark : ℕ → List (ℕ × Info) → List (ℕ × Info)
mark ticket [] = []
mark ticket ((t, i) ∷ rest) =
    (t, if t == ticket then record i { partial_closed = true } else i) ∷ mark ticket rest

-- `{p["ticket"]: p for p in open_positions}.get(ticket)`: a later entry wins.
abbrev pub position_of : ℕ → List Position → Option Position
position_of ticket [] = none
position_of ticket (p ∷ rest) = elim (position_of ticket rest) [
  | some q ↦ some q
  | none ↦ if p.ticket == ticket then some p else none
]

-- `_partial_close_threshold`
unfoldable pub partial_close_threshold : ℕ → ℕ
partial_close_threshold entry_time = entry_time / whole_day * whole_day + partial_close_time

module _ {World : Type 0} (d : Desk World) where
  abbrev pub now_ny : Scene World → ℕ
  now_ny s = d.now s.world

  abbrev pub alert_reply : Event → Reply Done → Scene World → Scene World
  alert_reply e (raised _) s = s
  alert_reply e (returned _) s = leave d (alerted e) s

  -- `_emit_check_failure`: journaled, and alerted once that is committed.
  unfoldable pub emit_check_failure : Check → Error → Option ℕ → Scene World → Scene World
  emit_check_failure check e ticket s =
      let event = safety_check_failed (now_ny s) check e ticket in
      let (r, s') = transact d (write_event event ∷ []) s in alert_reply event r s'

  abbrev pub keep_tracked : List (ℕ × Info) → Tracker → Tracker
  keep_tracked tracked t = record t { tracked = tracked }

  unfoldable pub register_new_position : ℕ → ℕ → ℕ → Post World → Post World
  register_new_position ticket trade entry_time p = record {
    tracker =
        keep_tracked
          (put ticket (record { trade_id = trade; entry_time = entry_time; partial_closed = false })
            p.tracker.tracked)
          p.tracker;
    scene = leave d (taken ticket) p.scene;
  }

  -- A row with a ticket; `get_open_real_trades` selects no other.
  abbrev pub load_row : OpenTrade → Option ℕ → Post World → Post World
  load_row row none p = p
  load_row row (some ticket) p = record {
    tracker =
        keep_tracked
          (put ticket
            (record {
              trade_id = row.trade_id;
              entry_time = row.entry_time;
              partial_closed = row.partial_closed;
            })
            p.tracker.tracked)
          p.tracker;
    scene = leave d (taken ticket) p.scene;
  }

  abbrev pub load_rows : List OpenTrade → Post World → Post World
  load_rows [] p = p
  load_rows (row ∷ rest) p = load_rows rest (load_row row row.ticket p)

  abbrev pub load_reply : Reply (List OpenTrade) → Post World → Post World
  load_reply (raised e) p = p
  load_reply (returned rows) p = load_rows rows p

  -- An exception of the database ends the start of the process; here it leaves the tracker as it is.
  unfoldable pub load_from_db : Post World → Post World
  load_from_db p =
      let (r, s) = call d d.get_open_real_trades p.scene in load_reply r (record p { scene = s })

  abbrev pub marked : ℕ → Post World → Post World
  marked ticket p = record p { tracker = keep_tracked (mark ticket p.tracker.tracked) p.tracker }

  -- After the write of a partial close: it is marked in either case.
  abbrev pub partial_written : ℕ → Reply Done → Post World → Post World
  partial_written ticket (raised e) p = marked ticket (record p {
    scene = emit_check_failure partial_close_db_write_failed e (some ticket) (undo d p.scene);
  })
  partial_written ticket (returned _) p = marked ticket p

  abbrev pub partial_reply : ℕ → Info → Float → Reply PartialClose → Post World → Post World
  partial_reply ticket info half (raised e) p = record p {
    scene = emit_check_failure close_position_partial_failed e (some ticket) p.scene;
  }
  partial_reply ticket info half (returned result) p =
      let s = leave d (halved ticket half) p.scene in
      let (r, s') =
        transact d
          (update_trade_partial_close info.trade_id result
            ∷ write_event (partial_close_executed (now_ny s) ticket result)
            ∷ [])
          s in
      partial_written ticket r (record p { scene = s' })

  abbrev pub final_written : ℕ → Event → Reply Done → Post World → Post World
  final_written ticket event (raised e) p = record p {
    scene = emit_check_failure final_close_db_write_failed e (some ticket) (undo d p.scene);
  }
  final_written ticket event (returned _) p = record {
    tracker = keep_tracked (drop_ticket ticket p.tracker.tracked) p.tracker;
    scene = leave d (alerted event) p.scene;
  }

  abbrev pub final_close : ℕ → Info → History → Bool → Post World → Post World
  final_close ticket info history false p = p
  final_close ticket info history true p =
      let event = real_trade_closed (now_ny p.scene) ticket history in
      let (r, s) =
        transact d (update_trade_final_close info.trade_id history ∷ write_event event ∷ [])
          p.scene in
      final_written ticket event r (record p { scene = s })

  abbrev pub history_reply : ℕ → Info → Reply History → Post World → Post World
  history_reply ticket info (raised e) p = record p {
    scene = emit_check_failure get_history_failed e (some ticket) p.scene;
  }
  history_reply ticket info (returned history) p =
      final_close ticket info history history.is_closed p

  -- `_handle_vanished`
  unfoldable pub handle_vanished : ℕ → Info → Post World → Post World
  unfolding emit_check_failure transact
  handle_vanished ticket info p =
      let (r, s) = call d (d.get_position_history ticket) p.scene in
      history_reply ticket info r (record p { scene = s })

  module _ (fl : Arith) (round2 : Float → Float) where
    abbrev pub halve : ℕ → Info → Float → Bool → Post World → Post World
    halve ticket info half true p = record p {
      scene = emit_check_failure partial_close_volume_validation value_error (some ticket) p.scene;
    }
    halve ticket info half false p =
        let (r, s) = call d (d.close_position_partial ticket half) p.scene in
        partial_reply ticket info half r (record p { scene = s })

    -- `_do_partial_close`; `round2` is `round(…, 2)`.
    unfoldable pub do_partial_close : ℕ → Info → Position → Post World → Post World
    unfolding emit_check_failure transact
    do_partial_close ticket info position p =
        let half = round2 (fl.div position.volume fl.two) in
        halve ticket info half (leb half fl.nought || leb position.volume half) p

    -- The body of the loop of `check_positions`.
    abbrev pub check_found : ℕ → ℕ → Info → Option Position → Post World → Post World
    check_found now ticket info none p = handle_vanished ticket info p
    check_found now ticket info (some position) p =
        elim (not info.partial_closed && leb (partial_close_threshold info.entry_time) now) [
          | true ↦ do_partial_close ticket info position p
          | false ↦ p
        ]

    unfoldable pub check_each : ℕ → List Position → List (ℕ × Info) → Post World → Post World
    unfolding handle_vanished do_partial_close partial_close_threshold
    check_each now positions [] p = p
    check_each now positions ((ticket, info) ∷ rest) p =
        check_each now positions rest (check_found now ticket info (position_of ticket positions) p)

    abbrev pub positions_reply : ℕ → Reply (List Position) → Post World → Post World
    positions_reply now (raised e) p = record p {
      scene = emit_check_failure check_positions_failed e none p.scene;
    }
    positions_reply now (returned positions) p = check_each now positions p.tracker.tracked p

    abbrev pub check_some : List (ℕ × Info) → Post World → Post World
    check_some [] p = p
    check_some (_ ∷ _) p =
        let now = now_ny p.scene in
        let (r, s) = call d (d.get_positions p.tracker.magic_number) p.scene in
        positions_reply now r (record p { scene = s })

    unfoldable pub check_positions : Post World → Post World
    unfolding check_each emit_check_failure
    check_positions p = check_some p.tracker.tracked p

    -- The events of an orphan check, journaled.
    abbrev pub alert_all : List Event → Scene World → Scene World
    alert_all [] s = s
    alert_all (e ∷ rest) s = alert_all rest (leave d (alerted e) s)

    abbrev pub register_result : Result → Option (ℕ × ℕ) → Post World → Post World
    register_result r none p = p
    register_result r (some (trade, entry_time)) p =
        register_new_position r.ticket trade entry_time p

    abbrev pub register_results : List Result → Post World → Post World
    register_results [] p = p
    register_results (r ∷ rest) p = register_results rest (register_result r r.trade p)

    abbrev pub orphans_written : List Result → List Event → Reply Done → Post World → Post World
    orphans_written results events (raised e) p = record p {
      scene = emit_check_failure continuous_orphan_check e none p.scene;
    }
    orphans_written results events (returned _) p =
        register_results results (record p { scene = alert_all events p.scene })

    abbrev pub orphans_reply : Reply (List Result × List Event) → Post World → Post World
    orphans_reply (raised e) p = record p {
      scene = emit_check_failure continuous_orphan_check e none p.scene;
    }
    orphans_reply (returned (results, events)) p =
        let (r, s) = transact d (map write_event events) p.scene in
        orphans_written results events r (record p { scene = s })

    abbrev pub is_recent : ℕ → Option ℕ → Bool
    is_recent now none = false
    is_recent now (some last) = ltb now (last + orphan_check_interval)

    unfoldable pub check_for_orphans : Post World → Post World
    unfolding check_for_orphaned_positions register_new_position emit_check_failure transact
    check_for_orphans p =
        let now = now_ny p.scene in
        elim (is_recent now p.tracker.last_orphan_check) [
          | true ↦ p
          | false ↦
              let t = record p.tracker { last_orphan_check = some now } in
              let (r, s) =
                check_for_orphaned_positions d fl t.magic_number t.risk_pct now
                  (leave d (looked now) p.scene) in
              orphans_reply r (record { tracker = t; scene = s })
        ]
