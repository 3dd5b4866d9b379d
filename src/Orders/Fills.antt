-- ===== src/Orders/Fills.antt =====
-- `check_for_fills`, `_on_fill`, `_handle_sibling_cancel_failure`, `attach_target` and
-- `cancel_all_at_day_end` of shadow_runner/order_manager.py.
use the_bot.Common.{
  ℕ, Bool, true, false, List, [], ◌∷◌, Option, none, some, ◌==◌, ◌||◌, if◌then◌else◌,
}
use the_bot.Common.Floats.{Float, Arith}
use the_bot.Detection.Bars.{Bar}
use the_bot.Orders.Broker.{Reply, raised, returned, Error, Position, Outside, Done}
use the_bot.Orders.Target.{compute_target}
use the_bot.Orders.Machine.{
  Key, Info, Manager, is_active, sibling_filled, day_end, check_for_fills_bridge_call,
  cancel_sibling_order, duplicate_fill_close_failed, compute_target_check,
  attach_target_modify_position, cancel_end_of_day_order, pending_order_cancelled, candidate_filled,
  duplicate_fill_closed, target_attached, Machine, emit, emit_check_failure, now_ny, call,
}
use the_bot.Orders.Placing.{same_key}

-- `next((p for p in open_positions if p["ticket"] == ticket), None)`
abbrev pub find_position : ℕ → List Position → Option Position
find_position ticket [] = none
find_position ticket (p ∷ rest) = if p.ticket == ticket then some p else find_position ticket rest

abbrev pub contains_ticket : ℕ → List ℕ → Bool
contains_ticket ticket [] = false
contains_ticket ticket (t ∷ rest) = (ticket == t) || contains_ticket ticket rest

-- `del self._pending[candidate_key]`
abbrev pub without : Key → List (Key × Info) → List (Key × Info)
without k [] = []
without k ((k', i) ∷ rest) = if same_key k k' then without k rest else (k', i) ∷ without k rest

abbrev pub is_ticket : Option ℕ → ℕ → Bool
is_ticket none ticket = false
is_ticket (some t) ticket = ticket == t

-- `not self.is_active() or not self._pending or self._winner_ticket is not None`
abbrev pub is_open : Bool → List (Key × Info) → Option ℕ → Bool
is_open true (_ ∷ _) none = true
is_open _ _ _ = false

abbrev pub is_racing : Manager → Bool
is_racing m = is_open (is_active m) m.pending m.winner_ticket

abbrev pub won_by : Info → Position → Manager → Manager
won_by i p m = record m {
  winner_ticket = some i.order_ticket;
  winner_position_ticket = some p.ticket;
  real_fill = some (p.open_price, p.time, p.volume);
}

abbrev pub keep_pending : {World : Type 0} → List (Key × Info) → Machine World → Machine World
keep_pending pending s = record s { manager = record s.manager { pending = pending } }

module _ {World : Type 0} (o : Outside World) where
  -- `_handle_sibling_cancel_failure`, by the answers of the bridge.
  abbrev pub close_duplicate_reply : ℕ → Reply Done → Machine World → Machine World
  close_duplicate_reply ticket (returned _) s = emit o (duplicate_fill_closed (now_ny o s) ticket) s
  close_duplicate_reply ticket (raised e) s =
      emit_check_failure o duplicate_fill_close_failed e (some ticket) s

  abbrev pub close_if_duplicate : ℕ → Error → Option Position → Machine World → Machine World
  close_if_duplicate ticket e none s = emit_check_failure o cancel_sibling_order e (some ticket) s
  close_if_duplicate ticket e (some p) s =
      let (r, s') = call o (o.close_position ticket) s in close_duplicate_reply ticket r s'

  abbrev pub sibling_positions_reply :
      ℕ → Error → Reply (List Position) → Machine World → Machine World
  sibling_positions_reply ticket e (raised _) s =
      emit_check_failure o cancel_sibling_order e (some ticket) s
  sibling_positions_reply ticket e (returned open_positions) s =
      close_if_duplicate ticket e (find_position ticket open_positions) s

  unfoldable pub handle_sibling_cancel_failure : ℕ → Error → Machine World → Machine World
  handle_sibling_cancel_failure ticket e s =
      let (r, s') = call o (o.get_positions s.manager.config.magic_number) s in
      sibling_positions_reply ticket e r s'

  abbrev pub cancel_sibling_reply : ℕ → Reply Done → Machine World → Machine World
  cancel_sibling_reply ticket (returned _) s =
      emit o (pending_order_cancelled (now_ny o s) ticket sibling_filled) s
  cancel_sibling_reply ticket (raised e) s = handle_sibling_cancel_failure ticket e s

  unfoldable pub cancel_sibling : ℕ → Machine World → Machine World
  unfolding handle_sibling_cancel_failure
  cancel_sibling ticket s =
      let (r, s') = call o (o.cancel_pending_order ticket) s in cancel_sibling_reply ticket r s'

  -- The loop of `_on_fill`, over a copy of the pending orders.
  unfoldable pub cancel_siblings : Key → List (Key × Info) → Machine World → Machine World
  unfolding cancel_sibling
  cancel_siblings winning_key [] s = s
  cancel_siblings winning_key ((k, i) ∷ rest) s =
      cancel_siblings winning_key rest
        (if same_key k winning_key then s else cancel_sibling i.order_ticket s)

  unfoldable pub on_fill : Key → Info → Position → Machine World → Machine World
  unfolding cancel_siblings
  on_fill winning_key i p s =
      let won = record s { manager = won_by i p s.manager } in
      let told = emit o (candidate_filled (now_ny o won) p.ticket i.direction p.open_price) won in
      keep_pending ((winning_key, i) ∷ []) (cancel_siblings winning_key told.manager.pending told)

  -- The loop of `check_for_fills`, over a copy of the pending orders.
  unfoldable pub scan :
      List Position → List ℕ → List (Key × Info) → Machine World → Bool × Machine World
  unfolding on_fill
  scan open_positions still_pending [] s = (false, s)
  scan open_positions still_pending ((k, i) ∷ rest) s =
      elim (contains_ticket i.order_ticket still_pending) [
        | true ↦ scan open_positions still_pending rest s
        | false ↦ elim (find_position i.order_ticket open_positions) [
          | none ↦
              scan open_positions still_pending rest (keep_pending (without k s.manager.pending) s)
          | some p ↦ (true, on_fill k i p s)
        ]
      ]

  abbrev pub pending_orders_reply :
      List Position → Reply (List ℕ) → Machine World → Bool × Machine World
  pending_orders_reply open_positions (raised e) s =
      (false, emit_check_failure o check_for_fills_bridge_call e none s)
  pending_orders_reply open_positions (returned still_pending) s =
      scan open_positions still_pending s.manager.pending s

  abbrev pub positions_reply : Reply (List Position) → Machine World → Bool × Machine World
  positions_reply (raised e) s = (false, emit_check_failure o check_for_fills_bridge_call e none s)
  positions_reply (returned open_positions) s =
      let (r, s') = call o (o.get_pending_orders s.manager.config.magic_number) s in
      pending_orders_reply open_positions r s'

  unfoldable pub check_for_fills : Machine World → Bool × Machine World
  unfolding scan
  check_for_fills s = elim (is_racing s.manager) [
    | false ↦ (false, s)
    | true ↦
        let (r, s') = call o (o.get_positions s.manager.config.magic_number) s in
        positions_reply r s'
  ]

  abbrev pub modify_reply : ℕ → Float → Reply Done → Machine World → Machine World
  modify_reply ticket target (returned _) s = emit o (target_attached (now_ny o s) ticket target) s
  modify_reply ticket target (raised e) s =
      emit_check_failure o attach_target_modify_position e (some ticket) s

  abbrev pub target_reply : ℕ → Reply Float → Machine World → Machine World
  target_reply ticket (raised e) s = emit_check_failure o compute_target_check e (some ticket) s
  target_reply ticket (returned target) s =
      let (r, s') = call o (o.modify_position ticket target) s in modify_reply ticket target r s'

  abbrev pub attach_to :
      Arith → List Bar → Option ℕ → List (Key × Info) → Machine World → Machine World
  attach_to fl recent_bars none pending s = s
  attach_to fl recent_bars (some ticket) [] s = s
  attach_to fl recent_bars (some ticket) ((k, i) ∷ rest) s =
      target_reply ticket (compute_target fl recent_bars i.direction) s

  unfoldable pub attach_target : Arith → List Bar → Machine World → Machine World
  attach_target fl recent_bars s =
      attach_to fl recent_bars s.manager.winner_position_ticket s.manager.pending s

  abbrev pub cancel_at_end_reply : ℕ → Reply Done → Machine World → Machine World
  cancel_at_end_reply ticket (returned _) s =
      emit o (pending_order_cancelled (now_ny o s) ticket day_end) s
  cancel_at_end_reply ticket (raised e) s =
      emit_check_failure o cancel_end_of_day_order e (some ticket) s

  abbrev pub cancel_at_end : ℕ → Machine World → Machine World
  cancel_at_end ticket s =
      let (r, s') = call o (o.cancel_pending_order ticket) s in cancel_at_end_reply ticket r s'

  unfoldable pub cancel_unfilled : Option ℕ → List (Key × Info) → Machine World → Machine World
  cancel_unfilled winner [] s = s
  cancel_unfilled winner ((k, i) ∷ rest) s =
      cancel_unfilled winner rest
        (if is_ticket winner i.order_ticket then s else cancel_at_end i.order_ticket s)

  unfoldable pub cancel_all_at_day_end : Machine World → Machine World
  unfolding cancel_unfilled
  cancel_all_at_day_end s =
      keep_pending [] (cancel_unfilled s.manager.winner_ticket s.manager.pending s)
