-- ===== src/Tracking/Resolved.antt =====
-- One poll resolves a position that the broker has closed.
use mathlib.Core.Path.{subst}
use the_bot.Common.{
  ℕ, ◌≤◌, ◌≡◌, refl, ap, sym, ◌∙◌, inl, inr, Bool, true, false, not, ◌&&◌, ◌||◌, List, [], ◌∷◌,
  Option, none, some, arith, ◌==◌, leb, Bool-cases,
}
use the_bot.Common.Floats.{Float, Arith}
use the_bot.Orders.Broker.{Reply, raised, returned, Done, done, Position, History}
use the_bot.Tracking.Desk.{
  PartialClose, Event, partial_close_executed, real_trade_closed, Statement, write_event,
  update_trade_partial_close, update_trade_final_close, Desk, Scene, halved, leave, call,
  execute_all, then_commit, commit_reply, transact,
}
use the_bot.Tracking.Tracker.{
  Info, Post, drop_ticket, now_ny, partial_written, partial_reply, final_written, final_close,
  history_reply, handle_vanished, halve, do_partial_close, check_found, check_each, positions_reply,
  check_some, check_positions, position_of, partial_close_threshold,
}
use the_bot.Tracking.Entries.{entries, entries-drop_ticket, entries-mark}

-- Whenever it is asked, the broker says that the position `t` is closed, and the database accepts what
-- is written to it.
pub record IsResponsive {World : Type 0} (d : Desk World) (t : ℕ) : Type 0 where
  pub closes :
      (w : World)
      → (h : History) × ((d.get_position_history t w).0 ≡ returned h) × (h.is_closed ≡ true)
  pub writes : (q : Statement) (w : World) → (d.execute q w).0 ≡ returned done
  pub commits : (w : World) → (d.commit w).0 ≡ returned done

module _ {World : Type 0} (d : Desk World) (t : ℕ) where
  abbrev Shrinks : Post World → Post World → Type 0
  Shrinks p p' = entries t p'.tracker.tracked ≤ entries t p.tracker.tracked

  drop-le : (k : ℕ) (l : List (ℕ × Info)) → entries t (drop_ticket k l) ≤ entries t l
  drop-le k l = let e = entries-drop_ticket t k l in ground arith

  final_written-Shrinks :
      (k : ℕ) (event : Event) (r : Reply Done) (p : Post World)
      → Shrinks p (final_written d k event r p)
  final_written-Shrinks k event (raised e) p = omega arith
  final_written-Shrinks k event (returned x) p = drop-le k p.tracker.tracked

  final_close-Shrinks :
      (k : ℕ) (info : Info) (history : History) (b : Bool) (p : Post World)
      → Shrinks p (final_close d k info history b p)
  final_close-Shrinks k info history false p = omega arith
  final_close-Shrinks k info history true p =
      let event = real_trade_closed (now_ny d p.scene) k history in
      let (r, s) =
        transact d (update_trade_final_close info.trade_id history ∷ write_event event ∷ [])
          p.scene in
      final_written-Shrinks k event r (record p { scene = s })

  history_reply-Shrinks :
      (k : ℕ) (info : Info) (r : Reply History) (p : Post World)
      → Shrinks p (history_reply d k info r p)
  history_reply-Shrinks k info (raised e) p = omega arith
  history_reply-Shrinks k info (returned history) p =
      final_close-Shrinks k info history history.is_closed p

  partial_written-Shrinks :
      (k : ℕ) (r : Reply Done) (p : Post World) → Shrinks p (partial_written d k r p)
  partial_written-Shrinks k (raised e) p = omega (arith, entries-mark t k p.tracker.tracked)
  partial_written-Shrinks k (returned x) p = omega (arith, entries-mark t k p.tracker.tracked)

  partial_reply-Shrinks :
      (k : ℕ) (info : Info) (half : Float) (r : Reply PartialClose) (p : Post World)
      → Shrinks p (partial_reply d k info half r p)
  partial_reply-Shrinks k info half (raised e) p = omega arith
  partial_reply-Shrinks k info half (returned result) p =
      let s = leave d (halved k half) p.scene in
      let (r, s') =
        transact d
          (update_trade_partial_close info.trade_id result
            ∷ write_event (partial_close_executed (now_ny d s) k result)
            ∷ [])
          s in
      partial_written-Shrinks k r (record p { scene = s' })

  module _ (fl : Arith) (round2 : Float → Float) where
    halve-Shrinks :
        (k : ℕ) (info : Info) (half : Float) (b : Bool) (p : Post World)
        → Shrinks p (halve d fl round2 k info half b p)
    halve-Shrinks k info half true p = omega arith
    halve-Shrinks k info half false p =
        let (r, s) = call d (d.close_position_partial k half) p.scene in
        partial_reply-Shrinks k info half r (record p { scene = s })

    check_found-Shrinks :
        (now k : ℕ) (info : Info) (o : Option Position) (p : Post World)
        → Shrinks p (check_found d fl round2 now k info o p)
    unfolding do_partial_close handle_vanished
    check_found-Shrinks now k info none p =
        let (r, s) = call d (d.get_position_history k) p.scene in
        history_reply-Shrinks k info r (record p { scene = s })
    check_found-Shrinks now k info (some position) p =
        elim (Bool-cases
          (not info.partial_closed && leb (partial_close_threshold info.entry_time) now)) [
            | inr idle ↦ rw (idle, check_found) (omega arith)
            | inl due ↦
                let half = round2 (fl.div position.volume fl.two) in
                rw (due, check_found)
                  (halve-Shrinks k info half (leb half fl.nought || leb position.volume half) p)
          ]

    module _ (ok : IsResponsive d t) where
      execute_all-returns :
          (qs : List Statement) (r : Reply Done) (s : Scene World)
          → r ≡ returned done
          → (execute_all d qs r s).0 ≡ returned done
      execute_all-returns [] r s h = h
      execute_all-returns (q ∷ rest) (raised e) s h = cc
      execute_all-returns (q ∷ rest) (returned x) s h =
          let (r, s') = call d (d.execute q) s in
          execute_all-returns rest r s' (ok.writes q s.world)

      commit_reply-returns :
          (qs : List Statement) (r : Reply Done) (s : Scene World)
          → r ≡ returned done
          → (commit_reply d qs r s).0 ≡ returned done
      commit_reply-returns qs (raised e) s h = h
      commit_reply-returns qs (returned x) s h = h

      then_commit-returns :
          (qs : List Statement) (r : Reply Done) (s : Scene World)
          → r ≡ returned done
          → (then_commit d qs r s).0 ≡ returned done
      then_commit-returns qs (raised e) s h = cc
      then_commit-returns qs (returned x) s h =
          let (r, s') = call d d.commit s in commit_reply-returns qs r s' (ok.commits s.world)

      transact-returns :
          (qs : List Statement) (s : Scene World) → (transact d qs s).0 ≡ returned done
      unfolding transact
      transact-returns qs s =
          let (r, s') = execute_all d qs (returned done) s in
          then_commit-returns qs r s' (execute_all-returns qs (returned done) s refl)

      -- What is left of the dictionary once the final close of `t` is written.
      abbrev Leaves : Post World → Post World → Type 0
      Leaves p p' = p'.tracker.tracked ≡ drop_ticket t p.tracker.tracked

      final_written-Leaves :
          (event : Event) (r : Reply Done) (p : Post World)
          → r ≡ returned done
          → Leaves p (final_written d t event r p)
      final_written-Leaves event (raised e) p h = cc
      final_written-Leaves event (returned x) p h = refl

      final_close-Leaves :
          (info : Info) (history : History) (b : Bool) (p : Post World)
          → b ≡ true
          → Leaves p (final_close d t info history b p)
      final_close-Leaves info history false p h = cc
      final_close-Leaves info history true p h =
          let event = real_trade_closed (now_ny d p.scene) t history in
          let qs = update_trade_final_close info.trade_id history ∷ write_event event ∷ [] in
          let (r, s) = transact d qs p.scene in
          final_written-Leaves event r (record p { scene = s }) (transact-returns qs p.scene)

      history_reply-Leaves :
          (info : Info) (h : History) (r : Reply History) (p : Post World)
          → r ≡ returned h
          → h.is_closed ≡ true
          → Leaves p (history_reply d t info r p)
      history_reply-Leaves info h (raised e) p answered closed = cc
      history_reply-Leaves info h (returned h') p answered closed =
          let same : h' ≡ h = cc in
          final_close-Leaves info h' h'.is_closed p
            (ap (λ (x : History). x.is_closed) same ∙ closed)

      handle_vanished-Leaves :
          (info : Info) (p : Post World) → Leaves p (handle_vanished d t info p)
      unfolding handle_vanished
      handle_vanished-Leaves info p =
          let (h, answered, closed) = ok.closes p.scene.world in
          let (r, s) = call d (d.get_position_history t) p.scene in
          history_reply-Leaves info h r (record p { scene = s }) answered closed

      found-resolves :
          (now k : ℕ) (info : Info) (o : Option Position) (p : Post World)
          → k ≡ t
          → o ≡ none
          → entries t (check_found d fl round2 now k info o p).tracker.tracked ≡ 0
      found-resolves now k info (some q) p same gone = cc
      found-resolves now k info none p same gone =
          let left = ap (entries t) (handle_vanished-Leaves info p) in
          let none_left = entries-drop_ticket t t p.tracker.tracked in
          let reflexive : (t == t) ≡ true = ground arith in
          subst (λ x. entries t (handle_vanished d x info p).tracker.tracked ≡ 0) (sym same)
            (left ∙ none_left ∙ rw reflexive refl)

      resolved_after :
          (now : ℕ) (positions : List Position) (rest : List (ℕ × Info)) (p : Post World)
          → position_of t positions ≡ none
          → entries t p.tracker.tracked ≤ entries t rest
          → entries t (check_each d fl round2 now positions rest p).tracker.tracked ≡ 0
      unfolding check_each
      resolved_after now positions [] p gone below = omega (arith, below)
      resolved_after now positions ((k, info) ∷ rest) p gone below =
          resolved_after now positions rest
            (check_found d fl round2 now k info (position_of k positions) p) gone
            (elim (Bool-cases (t == k)) [
              | inl same ↦
                  let k_is_t : k ≡ t = ground arith in
                  let gone' = ap (λ x. position_of x positions) k_is_t ∙ gone in
                  omega (arith, found-resolves now k info (position_of k positions) p k_is_t gone')
              | inr other ↦
                  let less = check_found-Shrinks now k info (position_of k positions) p in
                  ground arith
            ])

      -- A position that the broker no longer lists at a poll, and that it says is closed, is out of
      -- tracking after the poll if the database accepts the writes, whatever else is tracked and
      -- whatever goes wrong with it.
      pub check_positions_resolved :
          (p : Post World) (positions : List Position)
          → (d.get_positions p.tracker.magic_number p.scene.world).0 ≡ returned positions
          → position_of t positions ≡ none
          → entries t (check_positions d fl round2 p).tracker.tracked ≡ 0
      unfolding check_positions
      check_positions_resolved p positions listed gone = some-resolves p.tracker.tracked refl
        where
          reply-resolves :
              (now : ℕ) (r : Reply (List Position)) (p' : Post World)
              → r ≡ returned positions
              → entries t (positions_reply d fl round2 now r p').tracker.tracked ≡ 0
          reply-resolves now (raised e) p' h = cc
          reply-resolves now (returned ps) p' h =
              let same : ps ≡ positions = cc in
              resolved_after now ps p'.tracker.tracked p' (ap (position_of t) same ∙ gone)
                (omega arith)

          some-resolves :
              (tracked : List (ℕ × Info))
              → p.tracker.tracked ≡ tracked
              → entries t (check_some d fl round2 tracked p).tracker.tracked ≡ 0
          some-resolves [] h = ap (entries t) h
          some-resolves (x ∷ rest) h =
              let (r, s) = call d (d.get_positions p.tracker.magic_number) p.scene in
              reply-resolves (now_ny d p.scene) r (record p { scene = s }) listed
