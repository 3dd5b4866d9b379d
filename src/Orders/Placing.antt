-- ===== src/Orders/Placing.antt =====
-- `on_trade_candidate_ready` of shadow_runner/order_manager.py, and what it calls.
use the_bot.Common.{
  ℕ, Bool, true, false, List, [], ◌∷◌, ◌++◌, Option, none, some, ◌==◌, ◌&&◌, ◌||◌, ltb,
  if◌then◌else◌,
}
use the_bot.Common.Floats.{Float, Arith}
use the_bot.Detection.Orchestrator.{Ready}
use the_bot.Orders.Broker.{Reply, raised, returned, SymbolInfo, Outside}
use the_bot.Orders.Sizing.{Rounding, compute_lot_size}
use the_bot.Orders.Machine.{
  Key, Info, Manager, is_active, Reason, account_paused, model_paused, Check, is_paused_check,
  model_is_paused_check, symbol_info_fetch, account_balance_fetch, compute_lot_size_check,
  order_skipped_paused, order_placement_failed, pending_order_placed, Machine, emit,
  emit_check_failure, call,
}

abbrev pub same_key : Key → Key → Bool
same_key (a, b) (c, d) = (a == c) && (b == d)

-- `candidate_key in self._pending`
abbrev pub has_key : Key → List (Key × Info) → Bool
has_key k [] = false
has_key k ((k', i) ∷ rest) = same_key k k' || has_key k rest

abbrev pub remember : Ready → ℕ → Manager → Manager
remember event ticket m = record m {
  pending =
      m.pending
      ++ (
        (event.raid_bar, event.mss_bar),
        record {
          order_ticket = ticket;
          direction = event.direction;
          entry = event.entry;
          stop = event.stop;
          raid_bar = event.raid_bar;
        },
      )
        ∷ [];
}

module _ {World : Type 0} (o : Outside World) where
  -- A read that fails counts as not paused, and is journaled.
  abbrev pub paused_reply : Check → Reply Bool → Machine World → Bool × Machine World
  paused_reply check (returned paused) s = (paused, s)
  paused_reply check (raised e) s = (false, emit_check_failure o check e none s)

  -- `_is_user_paused`
  unfoldable pub is_user_paused : Machine World → Bool × Machine World
  is_user_paused s =
      let (r, s') = call o o.get_user_paused_status s in paused_reply is_paused_check r s'

  -- `_is_model_paused`
  unfoldable pub is_model_paused : Machine World → Bool × Machine World
  is_model_paused s =
      let (r, s') = call o o.get_model_paused_status s in paused_reply model_is_paused_check r s'

  abbrev pub skip_paused : Ready → Reason → Machine World → Machine World
  skip_paused event reason s =
      emit o (order_skipped_paused event.timestamp event.direction event.entry reason) s

  abbrev pub place_reply : Ready → Reply ℕ → Machine World → Machine World
  place_reply event (raised e) s =
      emit o (order_placement_failed event.timestamp (event.raid_bar, event.mss_bar) e) s
  place_reply event (returned ticket) s =
      emit o (pending_order_placed event.timestamp ticket event.direction event.entry event.stop)
        (record s { manager = remember event ticket s.manager })

-- `abs(event["entry"] - event["stop"])`
abbrev pub stop_distance : Arith → Ready → Float
stop_distance fl event =
    if ltb event.entry event.stop
    then fl.sub event.stop event.entry
    else fl.sub event.entry event.stop

module _ {World : Type 0} (o : Outside World) (fl : Arith) (ro : Rounding) where
  abbrev pub lot_size_reply : Reply Float → Machine World → Float × Machine World
  lot_size_reply (returned lots) s = (lots, s)
  lot_size_reply (raised e) s =
      (ro.smallest_lot, emit_check_failure o compute_lot_size_check e none s)

  abbrev pub balance_reply :
      Ready → SymbolInfo → Reply Float → Machine World → Float × Machine World
  balance_reply event i (raised e) s =
      (ro.smallest_lot, emit_check_failure o account_balance_fetch e none s)
  balance_reply event i (returned balance) s =
      lot_size_reply
        (compute_lot_size fl ro balance s.manager.config.risk_pct (stop_distance fl event) i) s

  abbrev pub sized_with : Ready → SymbolInfo → Machine World → Float × Machine World
  sized_with event i s = let (r, s') = call o o.balance s in balance_reply event i r s'

  abbrev pub symbol_info_reply : Ready → Reply SymbolInfo → Machine World → Float × Machine World
  symbol_info_reply event (raised e) s =
      (ro.smallest_lot, emit_check_failure o symbol_info_fetch e none s)
  symbol_info_reply event (returned i) s =
      sized_with event i (record s { manager = record s.manager { symbol_info_cache = some i } })

  abbrev pub compute_volume_from : Ready → Option SymbolInfo → Machine World → Float × Machine World
  compute_volume_from event (some i) s = sized_with event i s
  compute_volume_from event none s =
      let (r, s') = call o o.get_symbol_info s in symbol_info_reply event r s'

  -- `_compute_volume`
  unfoldable pub compute_volume : Ready → Machine World → Float × Machine World
  compute_volume event s = compute_volume_from event s.manager.symbol_info_cache s

  unfoldable pub place : Ready → Machine World → Machine World
  unfolding compute_volume
  place event s =
      let (volume, s1) = compute_volume event s in
      let (r, s2) =
        call o
          (o.place_pending_order (record {
            direction = event.direction;
            volume = volume;
            entry_price = event.entry;
            stop_loss = event.stop;
            magic = s1.manager.config.magic_number;
          }))
          s1 in
      place_reply o event r s2

  abbrev pub unless_known : Ready → Bool → Machine World → Machine World
  unless_known event true s = s
  unless_known event false s = place event s

  abbrev pub unless_model_paused : Ready → Bool × Machine World → Machine World
  unless_model_paused event (true, s) = skip_paused o event model_paused s
  unless_model_paused event (false, s) =
      unless_known event (has_key (event.raid_bar, event.mss_bar) s.manager.pending) s

  abbrev pub unless_paused : Ready → Bool × Machine World → Machine World
  unless_paused event (true, s) = skip_paused o event account_paused s
  unless_paused event (false, s) = unless_model_paused event (is_model_paused o s)

  abbrev pub unless_decided : Ready → Option ℕ → Machine World → Machine World
  unless_decided event (some ticket) s = s
  unless_decided event none s = unless_paused event (is_user_paused o s)

  unfoldable pub on_trade_candidate_ready : Ready → Machine World → Machine World
  unfolding place is_model_paused is_user_paused
  on_trade_candidate_ready event s = elim (is_active s.manager) [
    | false ↦ s
    | true ↦ unless_decided event s.manager.winner_ticket s
  ]
