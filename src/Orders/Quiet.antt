-- ===== src/Orders/Quiet.antt =====
-- The operations of the order manager that change nothing of a run's view: they only call the broker,
-- read, and journal failures and cancellations.
use the_bot.Common.{
  ℕ, ◌≡◌, refl, ◌∙◌, Bool, true, false, List, [], ◌∷◌, Option, none, some, if◌then◌else◌,
}
use the_bot.Common.Floats.{Float, Arith}
use the_bot.Detection.Bars.{Bar}
use the_bot.Detection.Orchestrator.{Ready}
use the_bot.Orders.Broker.{Reply, raised, returned, Error, SymbolInfo, Position, Outside, Done}
use the_bot.Orders.Sizing.{Rounding, compute_lot_size}
use the_bot.Orders.Target.{compute_target}
use the_bot.Orders.Machine.{
  Key, Info, Check, Machine, emit_check_failure, call, is_paused_check, model_is_paused_check,
  Reason,
}
use the_bot.Orders.Placing.{
  paused_reply, is_user_paused, is_model_paused, lot_size_reply, balance_reply, symbol_info_reply,
  compute_volume_from, compute_volume, stop_distance, skip_paused, same_key,
}
use the_bot.Orders.Fills.{
  find_position, close_duplicate_reply, close_if_duplicate, sibling_positions_reply,
  handle_sibling_cancel_failure, cancel_sibling_reply, cancel_sibling, cancel_siblings,
  modify_reply, target_reply, attach_to, attach_target, cancel_at_end_reply, cancel_at_end,
  is_ticket, cancel_unfilled,
}
use the_bot.Orders.View.{kind, view, view-emit}

module _ {World : Type 0} (o : Outside World) where
  abbrev pub Quiet : Machine World → Machine World → Type 0
  Quiet s s' = view s' ≡ view s

  pub failure-Quiet :
      (check : Check) (e : Error) (ticket : Option ℕ) (s : Machine World)
      → Quiet s (emit_check_failure o check e ticket s)
  unfolding kind
  failure-Quiet check e ticket s = view-emit o _ s refl

  paused_reply-Quiet :
      (check : Check) (r : Reply Bool) (s : Machine World) → Quiet s (paused_reply o check r s).1
  paused_reply-Quiet check (returned b) s = refl
  paused_reply-Quiet check (raised e) s = failure-Quiet check e none s

  pub is_user_paused-Quiet : (s : Machine World) → Quiet s (is_user_paused o s).1
  unfolding is_user_paused
  is_user_paused-Quiet s =
      let (r, s') = call o o.get_user_paused_status s in paused_reply-Quiet is_paused_check r s'

  pub is_model_paused-Quiet : (s : Machine World) → Quiet s (is_model_paused o s).1
  unfolding is_model_paused
  is_model_paused-Quiet s =
      let (r, s') = call o o.get_model_paused_status s in
      paused_reply-Quiet model_is_paused_check r s'

  pub skip_paused-Quiet :
      (event : Ready) (reason : Reason) (s : Machine World) → Quiet s (skip_paused o event reason s)
  unfolding kind
  skip_paused-Quiet event reason s = view-emit o _ s refl

  close_duplicate_reply-Quiet :
      (ticket : ℕ) (r : Reply Done) (s : Machine World)
      → Quiet s (close_duplicate_reply o ticket r s)
  unfolding kind
  close_duplicate_reply-Quiet ticket (returned d) s = view-emit o _ s refl
  close_duplicate_reply-Quiet ticket (raised e) s = failure-Quiet _ e _ s

  close_if_duplicate-Quiet :
      (ticket : ℕ) (e : Error) (p : Option Position) (s : Machine World)
      → Quiet s (close_if_duplicate o ticket e p s)
  close_if_duplicate-Quiet ticket e none s = failure-Quiet _ e _ s
  close_if_duplicate-Quiet ticket e (some p) s =
      let (r, s') = call o (o.close_position ticket) s in close_duplicate_reply-Quiet ticket r s'

  sibling_positions_reply-Quiet :
      (ticket : ℕ) (e : Error) (r : Reply (List Position)) (s : Machine World)
      → Quiet s (sibling_positions_reply o ticket e r s)
  sibling_positions_reply-Quiet ticket e (raised e') s = failure-Quiet _ e _ s
  sibling_positions_reply-Quiet ticket e (returned ps) s =
      close_if_duplicate-Quiet ticket e (find_position ticket ps) s

  cancel_sibling_reply-Quiet :
      (ticket : ℕ) (r : Reply Done) (s : Machine World)
      → Quiet s (cancel_sibling_reply o ticket r s)
  unfolding kind handle_sibling_cancel_failure
  cancel_sibling_reply-Quiet ticket (returned d) s = view-emit o _ s refl
  cancel_sibling_reply-Quiet ticket (raised e) s =
      let (r, s') = call o (o.get_positions s.manager.config.magic_number) s in
      sibling_positions_reply-Quiet ticket e r s'

  cancel_sibling-Quiet : (ticket : ℕ) (s : Machine World) → Quiet s (cancel_sibling o ticket s)
  unfolding cancel_sibling
  cancel_sibling-Quiet ticket s =
      let (r, s') = call o (o.cancel_pending_order ticket) s in
      cancel_sibling_reply-Quiet ticket r s'

  unless-Quiet : (b : Bool) (s s' : Machine World) → Quiet s s' → Quiet s (if b then s else s')
  unless-Quiet true s s' h = refl
  unless-Quiet false s s' h = h

  pub cancel_siblings-Quiet :
      (k : Key) (pending : List (Key × Info)) (s : Machine World)
      → Quiet s (cancel_siblings o k pending s)
  unfolding cancel_siblings
  cancel_siblings-Quiet k [] s = refl
  cancel_siblings-Quiet k ((k', i) ∷ rest) s =
      cancel_siblings-Quiet k rest _
      ∙ unless-Quiet (same_key k' k) s (cancel_sibling o i.order_ticket s)
          (cancel_sibling-Quiet i.order_ticket s)

  cancel_at_end_reply-Quiet :
      (ticket : ℕ) (r : Reply Done) (s : Machine World) → Quiet s (cancel_at_end_reply o ticket r s)
  unfolding kind
  cancel_at_end_reply-Quiet ticket (returned d) s = view-emit o _ s refl
  cancel_at_end_reply-Quiet ticket (raised e) s = failure-Quiet _ e _ s

  pub cancel_unfilled-Quiet :
      (winner : Option ℕ) (pending : List (Key × Info)) (s : Machine World)
      → Quiet s (cancel_unfilled o winner pending s)
  unfolding cancel_unfilled
  cancel_unfilled-Quiet winner [] s = refl
  cancel_unfilled-Quiet winner ((k, i) ∷ rest) s =
      let (r, s') = call o (o.cancel_pending_order i.order_ticket) s in
      cancel_unfilled-Quiet winner rest _
      ∙ unless-Quiet (is_ticket winner i.order_ticket) s (cancel_at_end o i.order_ticket s)
          (cancel_at_end_reply-Quiet i.order_ticket r s')

  modify_reply-Quiet :
      (ticket : ℕ) (target : Float) (r : Reply Done) (s : Machine World)
      → Quiet s (modify_reply o ticket target r s)
  unfolding kind
  modify_reply-Quiet ticket target (returned d) s = view-emit o _ s refl
  modify_reply-Quiet ticket target (raised e) s = failure-Quiet _ e _ s

  target_reply-Quiet :
      (ticket : ℕ) (r : Reply Float) (s : Machine World) → Quiet s (target_reply o ticket r s)
  target_reply-Quiet ticket (raised e) s = failure-Quiet _ e _ s
  target_reply-Quiet ticket (returned target) s =
      let (r, s') = call o (o.modify_position ticket target) s in
      modify_reply-Quiet ticket target r s'

  attach_to-Quiet :
      (fl : Arith) (bars : List Bar) (winner : Option ℕ) (pending : List (Key × Info))
      (s : Machine World)
      → Quiet s (attach_to o fl bars winner pending s)
  attach_to-Quiet fl bars none pending s = refl
  attach_to-Quiet fl bars (some t) [] s = refl
  attach_to-Quiet fl bars (some t) ((k, i) ∷ rest) s =
      target_reply-Quiet t (compute_target fl bars i.direction) s

  pub attach_target-Quiet :
      (fl : Arith) (bars : List Bar) (s : Machine World) → Quiet s (attach_target o fl bars s)
  unfolding attach_target
  attach_target-Quiet fl bars s =
      attach_to-Quiet fl bars s.manager.winner_position_ticket s.manager.pending s

  module _ (fl : Arith) (ro : Rounding) where
    lot_size_reply-Quiet :
        (r : Reply Float) (s : Machine World) → Quiet s (lot_size_reply o fl ro r s).1
    lot_size_reply-Quiet (returned lots) s = refl
    lot_size_reply-Quiet (raised e) s = failure-Quiet _ e _ s

    balance_reply-Quiet :
        (event : Ready) (i : SymbolInfo) (r : Reply Float) (s : Machine World)
        → Quiet s (balance_reply o fl ro event i r s).1
    balance_reply-Quiet event i (raised e) s = failure-Quiet _ e _ s
    balance_reply-Quiet event i (returned b) s =
        lot_size_reply-Quiet
          (compute_lot_size fl ro b s.manager.config.risk_pct (stop_distance fl event) i) s

    symbol_info_reply-Quiet :
        (event : Ready) (r : Reply SymbolInfo) (s : Machine World)
        → Quiet s (symbol_info_reply o fl ro event r s).1
    symbol_info_reply-Quiet event (raised e) s = failure-Quiet _ e _ s
    symbol_info_reply-Quiet event (returned i) s =
        let (r, s') = call o o.balance s in
        balance_reply-Quiet event i r
          (record s' { manager = record s'.manager { symbol_info_cache = some i } })

    compute_volume_from-Quiet :
        (event : Ready) (i : Option SymbolInfo) (s : Machine World)
        → Quiet s (compute_volume_from o fl ro event i s).1
    compute_volume_from-Quiet event (some i) s =
        let (r, s') = call o o.balance s in balance_reply-Quiet event i r s'
    compute_volume_from-Quiet event none s =
        let (r, s') = call o o.get_symbol_info s in symbol_info_reply-Quiet event r s'

    pub compute_volume-Quiet :
        (event : Ready) (s : Machine World) → Quiet s (compute_volume o fl ro event s).1
    unfolding compute_volume
    compute_volume-Quiet event s = compute_volume_from-Quiet event s.manager.symbol_info_cache s
