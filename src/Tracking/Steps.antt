-- ===== src/Tracking/Steps.antt =====
-- The operations of the position tracker keep it sound: vanished positions, partial closes, polls.
use the_bot.Common.{
  ℕ, ◌≤◌, ◌≡◌, refl, ap, sym, inl, inr, Bool, true, false, not, ◌&&◌, ◌||◌, List, [], ◌∷◌, Option,
  none, some, arith, ◌==◌, leb, Bool-cases,
}
use mathlib.Core.Path.{subst}
use the_bot.Common.Floats.{Float, Arith}
use the_bot.Orders.Broker.{Reply, raised, returned, value_error, Done, Position, History}
use the_bot.Tracking.Desk.{
  PartialClose, final_close_db_write_failed, partial_close_db_write_failed, Event,
  partial_close_executed, real_trade_closed, Statement, write_event, update_trade_partial_close,
  update_trade_final_close, Desk, Scene, halved, committed, alerted, leave, call, undo, transact,
}
use the_bot.Tracking.Tracker.{
  Info, Post, now_ny, partial_written, partial_reply, final_written, final_close, history_reply,
  handle_vanished, halve, do_partial_close, check_found, check_each, positions_reply, check_some,
  check_positions, emit_check_failure, position_of, partial_close_threshold,
}
use the_bot.Tracking.Trace.{
  here, halvings, takings, closings, halvings-append, takings-append, closings-append, Calm,
  Calm-refl, Calm-trans, Calm-append, Atomic, transact-Atomic, transact-Calm,
  emit_check_failure-Calm,
}
use the_bot.Tracking.Entries.{unhalved, fresh, Distinct, unhalved-le}
use the_bot.Tracking.Sound.{
  Sound, Sound-Calm, Steps, Grows, Grows-Calm, Calm-Steps, failure-Steps, dropped-Steps,
  marked-Steps,
}

-- An entry that is due has not been halved.
due_open :
    (k : ℕ) (info : Info) (late : Bool) (n : ℕ)
    → (not info.partial_closed && late) ≡ true
    → fresh k k info.partial_closed ≤ n
    → 1 ≤ n
due_open k info late n due open_half = ground arith

module _ {World : Type 0} (d : Desk World) where
  final_written-Steps :
      (k : ℕ) (event : Event) (qs : List Statement) (p : Post World) (r : Reply Done)
      (s : Scene World)
      → ((t : ℕ) → closings t (committed qs ∷ []) ≡ here t k)
      → Atomic d qs p.scene (r, s)
      → Sound p
      → Steps k p (final_written d k event r (record p { scene = s }))
  final_written-Steps k event qs p (raised e) s one (inl (e', _, same)) h =
      Calm-Steps d k p (emit_check_failure d final_close_db_write_failed e (some k) (undo d s))
        (Calm-trans (subst (Calm p.scene.trace) (sym same) (Calm-refl p.scene.trace))
          (emit_check_failure-Calm d _ e (some k) (undo d s)))
        h
  final_written-Steps k event qs p (raised e) s one (inr (x, no_way, _)) h = cc
  final_written-Steps k event qs p (returned x) s one (inl (e, no_way, _)) h = cc
  final_written-Steps k event qs p (returned x) s one (inr (x', _, more)) h =
      dropped-Steps d k p (leave d (alerted event) s)
        (Grows-Calm
          (record {
            halved_by = λ t.
                omega (
                  arith,
                  ap (halvings t) more,
                  halvings-append t p.scene.trace (committed qs ∷ []),
                );
            taken_by = λ t.
                omega
                  (arith, ap (takings t) more, takings-append t p.scene.trace (committed qs ∷ []));
            closed_by = λ t. omega (
              arith,
              ap (closings t) more,
              closings-append t p.scene.trace (committed qs ∷ []),
              one t,
            );
          })
          (Calm-append s.trace (alerted event ∷ []) (λ t. refl) (λ t. refl) refl))
        h

  final_close-Steps :
      (k : ℕ) (info : Info) (history : History) (b : Bool) (p : Post World)
      → Sound p
      → Steps k p (final_close d k info history b p)
  final_close-Steps k info history false p h = (h, λ t other. refl)
  final_close-Steps k info history true p h =
      let event = real_trade_closed (now_ny d p.scene) k history in
      let qs = update_trade_final_close info.trade_id history ∷ write_event event ∷ [] in
      let (r, s) = transact d qs p.scene in
      final_written-Steps k event qs p r s (λ t. omega arith) (transact-Atomic d qs p.scene) h

  history_reply-Steps :
      (k : ℕ) (info : Info) (r : Reply History) (p : Post World)
      → Sound p
      → Steps k p (history_reply d k info r p)
  history_reply-Steps k info (raised e) p h = failure-Steps d k p _ e (some k) h
  history_reply-Steps k info (returned history) p h =
      final_close-Steps k info history history.is_closed p h

  handle_vanished-Steps :
      (k : ℕ) (info : Info) (p : Post World) → Sound p → Steps k p (handle_vanished d k info p)
  unfolding handle_vanished
  handle_vanished-Steps k info p h =
      let (r, s) = call d (d.get_position_history k) p.scene in
      history_reply-Steps k info r (record p { scene = s }) h

  partial_written-Steps :
      (k : ℕ) (r : Reply Done) (p : Post World) (s : Scene World)
      → Grows (λ t. here t k) (λ t. 0) p.scene.trace s.trace
      → 1 ≤ unhalved k p.tracker.tracked
      → Sound p
      → Steps k p (partial_written d k r (record p { scene = s }))
  partial_written-Steps k (raised e) p s g open_half h =
      marked-Steps d k p (emit_check_failure d partial_close_db_write_failed e (some k) (undo d s))
        (Grows-Calm g (emit_check_failure-Calm d _ e (some k) (undo d s))) open_half h
  partial_written-Steps k (returned x) p s g open_half h = marked-Steps d k p s g open_half h

  partial_reply-Steps :
      (k : ℕ) (info : Info) (half : Float) (r : Reply PartialClose) (p : Post World)
      → 1 ≤ unhalved k p.tracker.tracked
      → Sound p
      → Steps k p (partial_reply d k info half r p)
  partial_reply-Steps k info half (raised e) p open_half h = failure-Steps d k p _ e (some k) h
  partial_reply-Steps k info half (returned result) p open_half h =
      let s = leave d (halved k half) p.scene in
      let qs =
        update_trade_partial_close info.trade_id result
        ∷ write_event (partial_close_executed (now_ny d s) k result)
        ∷ [] in
      let (r, s') = transact d qs s in
      partial_written-Steps k r p s'
        (Grows-Calm
          (record {
            halved_by = λ t. omega (arith, halvings-append t p.scene.trace (halved k half ∷ []));
            taken_by = λ t. omega (arith, takings-append t p.scene.trace (halved k half ∷ []));
            closed_by = λ t. omega (arith, closings-append t p.scene.trace (halved k half ∷ []));
          })
          (transact-Calm d qs s))
        open_half h

  module _ (fl : Arith) (round2 : Float → Float) where
    halve-Steps :
        (k : ℕ) (info : Info) (half : Float) (b : Bool) (p : Post World)
        → 1 ≤ unhalved k p.tracker.tracked
        → Sound p
        → Steps k p (halve d fl round2 k info half b p)
    halve-Steps k info half true p open_half h = failure-Steps d k p _ value_error (some k) h
    halve-Steps k info half false p open_half h =
        let (r, s) = call d (d.close_position_partial k half) p.scene in
        partial_reply-Steps k info half r (record p { scene = s }) open_half h

    check_found-Steps :
        (now k : ℕ) (info : Info) (o : Option Position) (p : Post World)
        → fresh k k info.partial_closed ≤ unhalved k p.tracker.tracked
        → Sound p
        → Steps k p (check_found d fl round2 now k info o p)
    unfolding do_partial_close
    check_found-Steps now k info none p open_half h = handle_vanished-Steps k info p h
    check_found-Steps now k info (some position) p open_half h =
        elim (Bool-cases
          (not info.partial_closed && leb (partial_close_threshold info.entry_time) now)) [
            | inr idle ↦ rw (idle, check_found) (h, λ t other. refl)
            | inl due ↦
                let half = round2 (fl.div position.volume fl.two) in
                rw (due, check_found)
                  (halve-Steps k info half (leb half fl.nought || leb position.volume half) p
                    (due_open k info _ (unhalved k p.tracker.tracked) due open_half) h)
          ]

    check_each-Sound :
        (now : ℕ) (positions : List Position) (rest : List (ℕ × Info)) (p : Post World)
        → Distinct rest
        → ((t : ℕ) → unhalved t rest ≤ unhalved t p.tracker.tracked)
        → Sound p
        → Sound (check_each d fl round2 now positions rest p)
    unfolding check_each
    check_each-Sound now positions [] p one below h = h
    check_each-Sound now positions ((k, info) ∷ rest) p one below h =
        let (h', others) =
          check_found-Steps now k info (position_of k positions) p (omega (arith, below k)) h in
        check_each-Sound now positions rest
          (check_found d fl round2 now k info (position_of k positions) p)
          (λ t. omega (arith, one t))
          (λ t. elim (Bool-cases (t == k)) [
            | inl same ↦ let once = one t in let bound = unhalved-le t rest in ground arith
            | inr other ↦ omega (arith, others t other, below t)
          ])
          h'

    positions_reply-Sound :
        (now : ℕ) (r : Reply (List Position)) (p : Post World)
        → Sound p
        → Sound (positions_reply d fl round2 now r p)
    positions_reply-Sound now (raised e) p h =
        Sound-Calm (emit_check_failure-Calm d _ e none p.scene) h
    positions_reply-Sound now (returned positions) p h =
        check_each-Sound now positions p.tracker.tracked p h.distinct (λ t. omega arith) h

    check_some-Sound :
        (tracked : List (ℕ × Info)) (p : Post World)
        → Sound p
        → Sound (check_some d fl round2 tracked p)
    check_some-Sound [] p h = h
    check_some-Sound (x ∷ rest) p h =
        let (r, s) = call d (d.get_positions p.tracker.magic_number) p.scene in
        positions_reply-Sound (now_ny d p.scene) r (record p { scene = s }) h

    pub check_positions-Sound : (p : Post World) → Sound p → Sound (check_positions d fl round2 p)
    unfolding check_positions
    check_positions-Sound p h = check_some-Sound p.tracker.tracked p h
