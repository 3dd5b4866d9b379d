-- ===== src/Orders/Consistent/Fills.antt =====
-- Fills and the end of the day keep the journal consistent with the state.
use the_bot.Common.{
  ℕ, ◌≡◌, refl, ap, Bool, true, false, List, [], ◌∷◌, Option, none, some, arith, Option-cases,
  Bool-cases, inl, inr,
}
use the_bot.Orders.Broker.{Reply, raised, returned, Position, Outside}
use the_bot.Orders.Machine.{
  Key, Info, Machine, call, is_active, emit, Event, now_ny, candidate_filled,
}
use the_bot.Orders.Fills.{
  check_for_fills, on_fill, scan, cancel_all_at_day_end, pending_orders_reply, positions_reply,
  is_racing, is_open, contains_ticket, find_position, without, keep_pending, won_by,
}
use the_bot.Orders.View.{View, kind, count-append, filling, closing, crossing}
use the_bot.Orders.Quiet.{failure-Quiet, cancel_siblings-Quiet, cancel_unfilled-Quiet}
use the_bot.Orders.Steps.{decided, Consistent, follow, Alone-nil}

-- The race is on only while no candidate has won.
undecided :
    (b : Bool) (pending : List (Key × Info)) (winner : Option ℕ)
    → is_open b pending winner ≡ true
    → winner ≡ none
undecided b pending none h = refl
undecided true [] (some t) h = cc
undecided true (x ∷ pending) (some t) h = cc
undecided false pending (some t) h = cc

module _ {World : Type 0} (o : Outside World) where
  -- The fill of a candidate: it is the winner, and no other order is pending.
  on_fill-Consistent :
      (k : Key) (i : Info) (p : Position) (s : Machine World)
      → s.manager.winner_ticket ≡ none
      → Consistent s
      → Consistent (on_fill o k i p s)
  unfolding kind on_fill
  on_fill-Consistent k i p s h c =
      let won = record s { manager = won_by i p s.manager } in
      let e : Event = candidate_filled (now_ny o won) p.ticket i.direction p.open_price in
      let told = emit o e won in
      let zero_before : decided s.manager.winner_ticket ≡ 0 = ap decided h in
      follow
        (ap (λ (v : View). record v { pending = (k, i) ∷ [] })
          (cancel_siblings-Quiet o k told.manager.pending told))
        (record {
          fills = omega (arith, count-append filling s.journal (e ∷ []), c.fills, zero_before);
          closes = omega (arith, count-append closing s.journal (e ∷ []), c.closes);
          crossings = omega (arith, count-append crossing s.journal (e ∷ []), c.crossings);
          positions = refl;
          after_fill = omega (arith, c.after_fill, zero_before);
          alone = refl;
        })

  drop_pending-Consistent :
      (pending : List (Key × Info)) (s : Machine World)
      → s.manager.winner_ticket ≡ none
      → Consistent s
      → Consistent (keep_pending pending s)
  drop_pending-Consistent pending s h c = record {
    fills = c.fills;
    closes = c.closes;
    crossings = c.crossings;
    positions = c.positions;
    after_fill = c.after_fill;
    alone = rw h tt;
  }

  scan-Consistent :
      (ps : List Position) (still : List ℕ) (rest : List (Key × Info)) (s : Machine World)
      → s.manager.winner_ticket ≡ none
      → Consistent s
      → Consistent (scan o ps still rest s).1
  unfolding scan
  scan-Consistent ps still [] s h c = c
  scan-Consistent ps still ((k, i) ∷ rest) s h c =
      elim (Bool-cases (contains_ticket i.order_ticket still)) [
        | inl waits ↦ rw (waits, scan) (scan-Consistent ps still rest s h c)
        | inr gone ↦ elim (Option-cases (find_position i.order_ticket ps)) [
          | inl vanished ↦
              let s' = keep_pending (without k s.manager.pending) s in
              rw (gone, vanished, scan)
                (scan-Consistent ps still rest s' h
                  (drop_pending-Consistent (without k s.manager.pending) s h c))
          | inr (p, filled) ↦ rw (gone, filled, scan) (on_fill-Consistent k i p s h c)
        ]
      ]

  pending_orders_reply-Consistent :
      (ps : List Position) (r : Reply (List ℕ)) (s : Machine World)
      → s.manager.winner_ticket ≡ none
      → Consistent s
      → Consistent (pending_orders_reply o ps r s).1
  pending_orders_reply-Consistent ps (raised e) s h c = follow (failure-Quiet o _ e none s) c
  pending_orders_reply-Consistent ps (returned still) s h c =
      scan-Consistent ps still s.manager.pending s h c

  positions_reply-Consistent :
      (r : Reply (List Position)) (s : Machine World)
      → s.manager.winner_ticket ≡ none
      → Consistent s
      → Consistent (positions_reply o r s).1
  positions_reply-Consistent (raised e) s h c = follow (failure-Quiet o _ e none s) c
  positions_reply-Consistent (returned ps) s h c =
      let (r, s') = call o (o.get_pending_orders s.manager.config.magic_number) s in
      pending_orders_reply-Consistent ps r s' h c

  pub check_for_fills-Consistent :
      (s : Machine World) → Consistent s → Consistent (check_for_fills o s).1
  unfolding check_for_fills
  check_for_fills-Consistent s c = elim (Bool-cases (is_racing s.manager)) [
    | inr idle ↦ rw (idle, check_for_fills) c
    | inl races ↦
        let (r, s') = call o (o.get_positions s.manager.config.magic_number) s in
        rw (races, check_for_fills)
          (positions_reply-Consistent r s'
            (undecided (is_active s.manager) s.manager.pending s.manager.winner_ticket races) c)
  ]

  pub cancel_all_at_day_end-Consistent :
      (s : Machine World) → Consistent s → Consistent (cancel_all_at_day_end o s)
  unfolding cancel_all_at_day_end
  cancel_all_at_day_end-Consistent s c =
      follow
        (ap (λ (v : View). record v { pending = [] })
          (cancel_unfilled-Quiet o s.manager.winner_ticket s.manager.pending s))
        (record {
          fills = c.fills;
          closes = c.closes;
          crossings = c.crossings;
          positions = c.positions;
          after_fill = c.after_fill;
          alone = Alone-nil s.manager.winner_ticket;
        })
