-- ===== src/Tracking/Looks.antt =====
-- The steps of the position tracker that make no orphan check.
use the_bot.Common.{
  ℕ, ◌≡◌, refl, ap, ◌∙◌, inl, inr, Bool, true, false, not, ◌&&◌, ◌||◌, List, [], ◌∷◌, map, Option,
  none, some, leb, Bool-cases,
}
use the_bot.Common.Floats.{Float, Arith}
use the_bot.Orders.Broker.{Error, Reply, raised, returned, value_error, Done, Position, History}
use the_bot.Tracking.Desk.{
  PartialClose, OpenTrade, Check, Event, write_event, Desk, Scene, halved, alerted, taken, leave,
  call, undo, transact, partial_close_executed, real_trade_closed, update_trade_partial_close,
  update_trade_final_close,
}
use the_bot.Tracking.Orphans.{Result}
use the_bot.Tracking.Tracker.{
  Info, Post, now_ny, emit_check_failure, register_new_position, load_row, load_rows, load_reply,
  load_from_db, partial_written, partial_reply, final_written, final_close, history_reply,
  handle_vanished, halve, do_partial_close, check_found, check_each, positions_reply, check_some,
  check_positions, position_of, partial_close_threshold, alert_all, register_result,
  register_results, orphans_written, orphans_reply,
}
use the_bot.Tracking.Trace.{looks, looks-append-nil, Calm, transact-Calm, emit_check_failure-Calm}
use the_bot.Tracking.Still.{alert_all-Calm}

-- No orphan check is made, and the time of the last one is kept.
pub record Overlooks {World : Type 0} (p p' : Post World) : Type 0 where
  pub same_looks : looks p'.scene.trace ≡ looks p.scene.trace
  pub same_last : p'.tracker.last_orphan_check ≡ p.tracker.last_orphan_check

pub Overlooks-trans :
    {World : Type 0} {p p' p'' : Post World} → Overlooks p p' → Overlooks p' p'' → Overlooks p p''
Overlooks-trans h h' = record {
  same_looks = h'.same_looks ∙ h.same_looks;
  same_last = h'.same_last ∙ h.same_last;
}

module _ {World : Type 0} (d : Desk World) where
  stays : (p : Post World) → Overlooks p p
  stays p = record { same_looks = refl; same_last = refl }

  -- What follows a call.
  called :
      (p : Post World) (s : Scene World) (q : Post World)
      → s.trace ≡ p.scene.trace
      → Overlooks (record p { scene = s }) q
      → Overlooks p q
  called p s q e h = record { same_looks = h.same_looks ∙ ap looks e; same_last = h.same_last }

  Calm-Overlooks :
      (p : Post World) (s : Scene World)
      → Calm p.scene.trace s.trace
      → Overlooks p (record p { scene = s })
  Calm-Overlooks p s c = record { same_looks = c.same_looks; same_last = refl }

  failure-Overlooks :
      (p : Post World) (check : Check) (e : Error) (ticket : Option ℕ)
      → Overlooks p (record p { scene = emit_check_failure d check e ticket p.scene })
  failure-Overlooks p check e ticket =
      Calm-Overlooks p (emit_check_failure d check e ticket p.scene)
        (emit_check_failure-Calm d check e ticket p.scene)

  pub register-Overlooks :
      (ticket trade entry_time : ℕ) (p : Post World)
      → Overlooks p (register_new_position d ticket trade entry_time p)
  unfolding register_new_position
  register-Overlooks ticket trade entry_time p = record {
    same_looks = looks-append-nil p.scene.trace (taken ticket ∷ []) refl;
    same_last = refl;
  }

  load_rows-Overlooks : (rows : List OpenTrade) (p : Post World) → Overlooks p (load_rows d rows p)
  load_rows-Overlooks [] p = stays p
  load_rows-Overlooks (row ∷ rest) p =
      Overlooks-trans (row-Overlooks row.ticket)
        (load_rows-Overlooks rest (load_row d row row.ticket p))
    where
      row-Overlooks : (ticket : Option ℕ) → Overlooks p (load_row d row ticket p)
      row-Overlooks none = stays p
      row-Overlooks (some ticket) = record {
        same_looks = looks-append-nil p.scene.trace (taken ticket ∷ []) refl;
        same_last = refl;
      }

  pub load_from_db-Overlooks : (p : Post World) → Overlooks p (load_from_db d p)
  unfolding load_from_db
  load_from_db-Overlooks p =
      let (r, s) = call d d.get_open_real_trades p.scene in
      called p s (load_reply d r (record p { scene = s })) refl (replied r s)
    where
      replied :
          (r : Reply (List OpenTrade)) (s : Scene World)
          → Overlooks (record p { scene = s }) (load_reply d r (record p { scene = s }))
      replied (raised e) s = stays (record p { scene = s })
      replied (returned rows) s = load_rows-Overlooks rows (record p { scene = s })

  final_written-Overlooks :
      (k : ℕ) (event : Event) (r : Reply Done) (p : Post World)
      → Overlooks p (final_written d k event r p)
  final_written-Overlooks k event (raised e) p = record {
    same_looks = (emit_check_failure-Calm d _ e (some k) (undo d p.scene)).same_looks;
    same_last = refl;
  }
  final_written-Overlooks k event (returned x) p = record {
    same_looks = looks-append-nil p.scene.trace (alerted event ∷ []) refl;
    same_last = refl;
  }

  final_close-Overlooks :
      (k : ℕ) (info : Info) (history : History) (b : Bool) (p : Post World)
      → Overlooks p (final_close d k info history b p)
  final_close-Overlooks k info history false p = stays p
  final_close-Overlooks k info history true p =
      let event = real_trade_closed (now_ny d p.scene) k history in
      let qs = update_trade_final_close info.trade_id history ∷ write_event event ∷ [] in
      let (r, s) = transact d qs p.scene in
      Overlooks-trans (Calm-Overlooks p s (transact-Calm d qs p.scene))
        (final_written-Overlooks k event r (record p { scene = s }))

  handle_vanished-Overlooks :
      (k : ℕ) (info : Info) (p : Post World) → Overlooks p (handle_vanished d k info p)
  unfolding handle_vanished
  handle_vanished-Overlooks k info p =
      let (r, s) = call d (d.get_position_history k) p.scene in
      called p s (history_reply d k info r (record p { scene = s })) refl
        (replied r (record p { scene = s }))
    where
      replied : (r : Reply History) (q : Post World) → Overlooks q (history_reply d k info r q)
      replied (raised e) q = failure-Overlooks q _ e (some k)
      replied (returned history) q = final_close-Overlooks k info history history.is_closed q

  partial_written-Overlooks :
      (k : ℕ) (r : Reply Done) (p : Post World) → Overlooks p (partial_written d k r p)
  partial_written-Overlooks k (raised e) p = record {
    same_looks = (emit_check_failure-Calm d _ e (some k) (undo d p.scene)).same_looks;
    same_last = refl;
  }
  partial_written-Overlooks k (returned x) p = record { same_looks = refl; same_last = refl }

  partial_reply-Overlooks :
      (k : ℕ) (info : Info) (half : Float) (r : Reply PartialClose) (p : Post World)
      → Overlooks p (partial_reply d k info half r p)
  partial_reply-Overlooks k info half (raised e) p = failure-Overlooks p _ e (some k)
  partial_reply-Overlooks k info half (returned result) p =
      let s = leave d (halved k half) p.scene in
      let qs =
        update_trade_partial_close info.trade_id result
        ∷ write_event (partial_close_executed (now_ny d s) k result)
        ∷ [] in
      let (r, s') = transact d qs s in
      let c = transact-Calm d qs s in
      Overlooks-trans
        (record {
          same_looks = c.same_looks ∙ looks-append-nil p.scene.trace (halved k half ∷ []) refl;
          same_last = refl;
        })
        (partial_written-Overlooks k r (record p { scene = s' }))

  module _ (fl : Arith) (round2 : Float → Float) where
    halve-Overlooks :
        (k : ℕ) (info : Info) (half : Float) (b : Bool) (p : Post World)
        → Overlooks p (halve d fl round2 k info half b p)
    halve-Overlooks k info half true p = failure-Overlooks p _ value_error (some k)
    halve-Overlooks k info half false p =
        let (r, s) = call d (d.close_position_partial k half) p.scene in
        called p s (partial_reply d k info half r (record p { scene = s })) refl
          (partial_reply-Overlooks k info half r (record p { scene = s }))

    check_found-Overlooks :
        (now k : ℕ) (info : Info) (o : Option Position) (p : Post World)
        → Overlooks p (check_found d fl round2 now k info o p)
    unfolding do_partial_close
    check_found-Overlooks now k info none p = handle_vanished-Overlooks k info p
    check_found-Overlooks now k info (some position) p =
        elim (Bool-cases
          (not info.partial_closed && leb (partial_close_threshold info.entry_time) now)) [
            | inr idle ↦ rw (idle, check_found) (stays p)
            | inl due ↦
                let half = round2 (fl.div position.volume fl.two) in
                rw (due, check_found)
                  (halve-Overlooks k info half (leb half fl.nought || leb position.volume half) p)
          ]

    check_each-Overlooks :
        (now : ℕ) (positions : List Position) (rest : List (ℕ × Info)) (p : Post World)
        → Overlooks p (check_each d fl round2 now positions rest p)
    unfolding check_each
    check_each-Overlooks now positions [] p = stays p
    check_each-Overlooks now positions ((k, info) ∷ rest) p =
        Overlooks-trans (check_found-Overlooks now k info (position_of k positions) p) (
          check_each-Overlooks now positions rest
            (check_found d fl round2 now k info (position_of k positions) p))

    pub check_positions-Overlooks : (p : Post World) → Overlooks p (check_positions d fl round2 p)
    unfolding check_positions
    check_positions-Overlooks p = checked p.tracker.tracked
      where
        replied :
            (now : ℕ) (r : Reply (List Position)) (q : Post World)
            → Overlooks q (positions_reply d fl round2 now r q)
        replied now (raised e) q = failure-Overlooks q _ e none
        replied now (returned positions) q = check_each-Overlooks now positions q.tracker.tracked q

        checked : (tracked : List (ℕ × Info)) → Overlooks p (check_some d fl round2 tracked p)
        checked [] = stays p
        checked (x ∷ rest) =
            let (r, s) = call d (d.get_positions p.tracker.magic_number) p.scene in
            called p s (positions_reply d fl round2 (now_ny d p.scene) r (record p { scene = s }))
              refl (replied (now_ny d p.scene) r (record p { scene = s }))

    register_results-Overlooks :
        (results : List Result) (p : Post World)
        → Overlooks p (register_results d fl round2 results p)
    register_results-Overlooks [] p = stays p
    register_results-Overlooks (r ∷ rest) p =
        Overlooks-trans (one-Overlooks r.trade)
          (register_results-Overlooks rest (register_result d fl round2 r r.trade p))
      where
        one-Overlooks :
            (trade : Option (ℕ × ℕ)) → Overlooks p (register_result d fl round2 r trade p)
        one-Overlooks none = stays p
        one-Overlooks (some (trade, entry_time)) = register-Overlooks r.ticket trade entry_time p

    pub orphans_reply-Overlooks :
        (r : Reply (List Result × List Event)) (p : Post World)
        → Overlooks p (orphans_reply d fl round2 r p)
    orphans_reply-Overlooks (raised e) p = failure-Overlooks p _ e none
    orphans_reply-Overlooks (returned (results, events)) p =
        let qs = map write_event events in
        let (r, s) = transact d qs p.scene in
        Overlooks-trans (Calm-Overlooks p s (transact-Calm d qs p.scene))
          (written r (record p { scene = s }))
      where
        written :
            (r : Reply Done) (q : Post World)
            → Overlooks q (orphans_written d fl round2 results events r q)
        written (raised e) q = failure-Overlooks q _ e none
        written (returned x) q =
            let s = alert_all d fl round2 events q.scene in
            Overlooks-trans (Calm-Overlooks q s (alert_all-Calm d fl round2 events q.scene))
              (register_results-Overlooks results (record q { scene = s }))
