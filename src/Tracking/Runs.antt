-- ===== src/Tracking/Runs.antt =====
-- A process of the position tracker: its calls in any order, with anything happening outside between
-- two of them.
use the_bot.Common.{ℕ, inl, inr, List, [], ◌∷◌, map, Option, none, some, arith, Bool-cases}
use the_bot.Common.Floats.{Float, Arith}
use the_bot.Orders.Broker.{Reply, raised, returned, Done}
use the_bot.Tracking.Desk.{OpenTrade, Event, write_event, Desk, looked, leave, call, transact}
use the_bot.Tracking.Orphans.{Result, broker_reply, check_for_orphaned_positions}
use the_bot.Tracking.Tracker.{
  Post, register_new_position, load_row, load_rows, load_reply, load_from_db, check_positions,
  alert_all, register_result, register_results, orphans_written, orphans_reply, is_recent,
  check_for_orphans, now_ny,
}
use the_bot.Tracking.Trace.{transact-Calm, emit_check_failure-Calm}
use the_bot.Tracking.Still.{broker_reply-Calm, alert_all-Calm}
use the_bot.Tracking.Sound.{Sound, Sound-Calm, Sound-taken, Sound-looked}
use the_bot.Tracking.Steps.{check_positions-Sound}

-- A tracker when the process starts.
abbrev pub opened : {World : Type 0} → ℕ → Float → World → Post World
opened magic risk_pct world = record {
  tracker = record {
    tracked = [];
    last_orphan_check = none;
    magic_number = magic;
    risk_pct = risk_pct;
  };
  scene = record { world = world; trace = [] };
}

module _ {World : Type 0} (d : Desk World) (fl : Arith) (round2 : Float → Float) where
  pub data Move (p : Post World) : Post World → Type 0 where
    loads : Move p (load_from_db d p)
    registers :
        (ticket trade entry_time : ℕ) → Move p (register_new_position d ticket trade entry_time p)
    checks : Move p (check_positions d fl round2 p)
    orphans : Move p (check_for_orphans d fl round2 p)
    elapses : (world : World) → Move p (record p { scene = record p.scene { world = world } })

  pub data Run (p : Post World) : Post World → Type 0 where
    start : Run p p
    after : {p' p'' : Post World} → Run p p' → Move p' p'' → Run p p''

  load_rows-Sound : (rows : List OpenTrade) (p : Post World) → Sound p → Sound (load_rows d rows p)
  load_rows-Sound [] p h = h
  load_rows-Sound (row ∷ rest) p h =
      load_rows-Sound rest (load_row d row row.ticket p) (row-Sound row.ticket)
    where
      row-Sound : (ticket : Option ℕ) → Sound (load_row d row ticket p)
      row-Sound none = h
      row-Sound (some ticket) = Sound-taken ticket _ h

  load_reply-Sound :
      (r : Reply (List OpenTrade)) (p : Post World) → Sound p → Sound (load_reply d r p)
  load_reply-Sound (raised e) p h = h
  load_reply-Sound (returned rows) p h = load_rows-Sound rows p h

  load_from_db-Sound : (p : Post World) → Sound p → Sound (load_from_db d p)
  unfolding load_from_db
  load_from_db-Sound p h =
      let (r, s) = call d d.get_open_real_trades p.scene in
      load_reply-Sound r (record p { scene = s }) h

  register-Sound :
      (ticket trade entry_time : ℕ) (p : Post World)
      → Sound p
      → Sound (register_new_position d ticket trade entry_time p)
  unfolding register_new_position
  register-Sound ticket trade entry_time p h = Sound-taken ticket _ h

  register_results-Sound :
      (results : List Result) (p : Post World)
      → Sound p
      → Sound (register_results d fl round2 results p)
  register_results-Sound [] p h = h
  register_results-Sound (r ∷ rest) p h =
      register_results-Sound rest (register_result d fl round2 r r.trade p) (one-Sound r.trade)
    where
      one-Sound : (trade : Option (ℕ × ℕ)) → Sound (register_result d fl round2 r trade p)
      one-Sound none = h
      one-Sound (some (trade, entry_time)) = register-Sound r.ticket trade entry_time p h

  orphans_written-Sound :
      (results : List Result) (events : List Event) (r : Reply Done) (p : Post World)
      → Sound p
      → Sound (orphans_written d fl round2 results events r p)
  orphans_written-Sound results events (raised e) p h =
      Sound-Calm (emit_check_failure-Calm d _ e none p.scene) h
  orphans_written-Sound results events (returned x) p h =
      register_results-Sound results (record p { scene = alert_all d fl round2 events p.scene })
        (Sound-Calm (alert_all-Calm d fl round2 events p.scene) h)

  orphans_reply-Sound :
      (r : Reply (List Result × List Event)) (p : Post World)
      → Sound p
      → Sound (orphans_reply d fl round2 r p)
  orphans_reply-Sound (raised e) p h = Sound-Calm (emit_check_failure-Calm d _ e none p.scene) h
  orphans_reply-Sound (returned (results, events)) p h =
      let (r, s) = transact d (map write_event events) p.scene in
      orphans_written-Sound results events r (record p { scene = s })
        (Sound-Calm (transact-Calm d (map write_event events) p.scene) h)

  check_for_orphans-Sound : (p : Post World) → Sound p → Sound (check_for_orphans d fl round2 p)
  unfolding check_for_orphans check_for_orphaned_positions
  check_for_orphans-Sound p h =
      let now = now_ny d p.scene in
      elim (Bool-cases (is_recent d fl round2 now p.tracker.last_orphan_check)) [
        | inl recent ↦ rw (recent, check_for_orphans) h
        | inr old ↦
            let t = record p.tracker { last_orphan_check = some now } in
            let s0 = leave d (looked now) p.scene in
            let (r, s1) = call d (d.get_positions t.magic_number) s0 in
            let (r', s2) = broker_reply d fl t.risk_pct now r s1 in
            rw (old, check_for_orphans)
              (orphans_reply-Sound r' (record { tracker = t; scene = s2 })
                (Sound-Calm (broker_reply-Calm d fl round2 t.risk_pct now r s1)
                  (Sound-looked now h)))
      ]

  Move-Sound : {p p' : Post World} → Move p p' → Sound p → Sound p'
  Move-Sound loads h = load_from_db-Sound _ h
  Move-Sound (registers ticket trade entry_time) h = register-Sound ticket trade entry_time _ h
  Move-Sound checks h = check_positions-Sound d fl round2 _ h
  Move-Sound orphans h = check_for_orphans-Sound _ h
  Move-Sound (elapses world) h = h

  Run-Sound_from : {p p' : Post World} → Run p p' → Sound p → Sound p'
  Run-Sound_from start h = h
  Run-Sound_from (after run move) h = Move-Sound move (Run-Sound_from run h)

  -- However the calls of a process are ordered, and whatever the broker and the database answer: no
  -- ticket is tracked twice; a position is halved at most once for each time that it was taken into
  -- tracking, even if the write of the partial close fails; and a position that was taken into tracking
  -- is tracked until its final close has been committed.
  pub Run-Sound :
      (magic : ℕ) (risk_pct : Float) (world : World) (p : Post World)
      → Run (opened magic risk_pct world) p
      → Sound p
  Run-Sound magic risk_pct world p run = Run-Sound_from run (record {
    distinct = λ t. omega arith;
    bounded = λ t. omega arith;
    kept = λ t took. absurd (omega arith);
  })
