-- ===== src/Orders/Consistent.antt =====
-- Every step of the order manager keeps its journal consistent with its state.
mod Fills
mod Closes
use the_bot.Common.{
  ℕ, ◌+◌, ◌≡◌, ◌≤◌, refl, ap, sym, ◌∙◌, Bool, true, false, List, [], ◌∷◌, ◌++◌, Option, none, some,
  arith, Option-cases, Bool-cases, inl, inr, ltb, leb,
}
use the_bot.Common.Floats.{Float, Arith}
use the_bot.Detection.Orchestrator.{Ready}
use the_bot.Orders.Broker.{Reply, raised, returned, History, Position, Outside}
use the_bot.Orders.Sizing.{Rounding}
use the_bot.Orders.Machine.{
  Key, Info, Manager, Machine, ModelConfig, call, is_active, emit, Event, now_ny,
  pending_order_placed, candidate_filled, real_trade_closed, daily_loss_threshold_crossed,
  new_manager, account_paused, model_paused,
}
use the_bot.Orders.Placing.{
  on_trade_candidate_ready, place, place_reply, compute_volume, unless_known, unless_model_paused,
  unless_paused, unless_decided, is_user_paused, is_model_paused, has_key,
}
use the_bot.Orders.Fills.{
  check_for_fills, on_fill, scan, cancel_siblings, cancel_all_at_day_end, cancel_unfilled,
  pending_orders_reply, positions_reply, is_racing, is_open, contains_ticket, find_position,
  without, keep_pending, won_by,
}
use the_bot.Orders.Closes.{
  check_for_close, check_daily_loss_threshold, confirm_close, history_reply, if_vanished,
  open_positions_reply, watch_close, cross, equity_reply, pnl_reply, limit_reply, unless_emitted,
}
use the_bot.Orders.View.{
  View, view, kind, count, count-append, view-emit, filling, closing, crossing, placing,
}
use the_bot.Orders.Quiet.{
  Quiet, failure-Quiet, is_user_paused-Quiet, is_model_paused-Quiet, skip_paused-Quiet,
  cancel_siblings-Quiet, cancel_unfilled-Quiet, attach_target-Quiet, compute_volume-Quiet,
}
use the_bot.Orders.Steps.{
  Step, candidate, fills, target, closes, losses, day_ends, elapses, Run, start, after, fresh,
  decided, flag, Alone, IsConsistent, Consistent, follow, Alone-nil,
}
use the_bot.Orders.Consistent.Fills.{check_for_fills-Consistent, cancel_all_at_day_end-Consistent}
use the_bot.Orders.Consistent.Closes.{
  check_for_close-Consistent, check_daily_loss_threshold-Consistent,
}

module _ {World : Type 0} (o : Outside World) where
  place_reply-Consistent :
      (event : Ready) (r : Reply ℕ) (s : Machine World)
      → s.manager.winner_ticket ≡ none
      → Consistent s
      → Consistent (place_reply o event r s)
  unfolding kind
  place_reply-Consistent event (raised e) s h c = follow (view-emit o _ s refl) c
  place_reply-Consistent event (returned ticket) s h c =
      let e : Event =
        pending_order_placed event.timestamp ticket event.direction event.entry event.stop in
      record {
        fills = omega (arith, count-append filling s.journal (e ∷ []), c.fills);
        closes = omega (arith, count-append closing s.journal (e ∷ []), c.closes);
        crossings = omega (arith, count-append crossing s.journal (e ∷ []), c.crossings);
        positions = c.positions;
        after_fill = c.after_fill;
        alone = rw h tt;
      }

  module _ (fl : Arith) (ro : Rounding) where
    place-Consistent :
        (event : Ready) (s : Machine World)
        → s.manager.winner_ticket ≡ none
        → Consistent s
        → Consistent (place o fl ro event s)
    unfolding place
    place-Consistent event s h c =
        let q = compute_volume-Quiet o fl ro event s in
        let (volume, s1) = compute_volume o fl ro event s in
        let (r, s2) =
          call o
            (o.place_pending_order (record {
              direction = event.direction;
              volume = volume;
              entry_price = event.entry;
              stop_loss = event.stop;
              magic = s1.manager.config.magic_number;
            }))
            s1 in
        place_reply-Consistent event r s2 (ap (λ (v : View). v.winner) q ∙ h) (follow q c)

    unless_known-Consistent :
        (event : Ready) (b : Bool) (s : Machine World)
        → s.manager.winner_ticket ≡ none
        → Consistent s
        → Consistent (unless_known o fl ro event b s)
    unless_known-Consistent event true s h c = c
    unless_known-Consistent event false s h c = place-Consistent event s h c

    unless_model_paused-Consistent :
        (event : Ready) (b : Bool) (s : Machine World)
        → s.manager.winner_ticket ≡ none
        → Consistent s
        → Consistent (unless_model_paused o fl ro event (b, s))
    unless_model_paused-Consistent event true s h c = follow (skip_paused-Quiet o event _ s) c
    unless_model_paused-Consistent event false s h c =
        unless_known-Consistent event (has_key (event.raid_bar, event.mss_bar) s.manager.pending) s
          h c

    unless_paused-Consistent :
        (event : Ready) (b : Bool) (s : Machine World)
        → s.manager.winner_ticket ≡ none
        → Consistent s
        → Consistent (unless_paused o fl ro event (b, s))
    unless_paused-Consistent event true s h c = follow (skip_paused-Quiet o event _ s) c
    unless_paused-Consistent event false s h c =
        let q = is_model_paused-Quiet o s in
        let (b, s') = is_model_paused o s in
        unless_model_paused-Consistent event b s' (ap (λ (v : View). v.winner) q ∙ h) (follow q c)

    unless_decided-Consistent :
        (event : Ready) (winner : Option ℕ) (s : Machine World)
        → s.manager.winner_ticket ≡ winner
        → Consistent s
        → Consistent (unless_decided o fl ro event winner s)
    unless_decided-Consistent event (some t) s h c = c
    unless_decided-Consistent event none s h c =
        let q = is_user_paused-Quiet o s in
        let (b, s') = is_user_paused o s in
        unless_paused-Consistent event b s' (ap (λ (v : View). v.winner) q ∙ h) (follow q c)

    on_trade_candidate_ready-Consistent :
        (event : Ready) (s : Machine World)
        → Consistent s
        → Consistent (on_trade_candidate_ready o fl ro event s)
    unfolding on_trade_candidate_ready
    on_trade_candidate_ready-Consistent event s c = elim (Bool-cases (is_active s.manager)) [
      | inr idle ↦ rw (idle, on_trade_candidate_ready) c
      | inl acts ↦
          rw (acts, on_trade_candidate_ready)
            (unless_decided-Consistent event s.manager.winner_ticket s refl c)
    ]

    Step-Consistent : {s s' : Machine World} → Step o fl ro s s' → Consistent s → Consistent s'
    Step-Consistent (candidate event) c = on_trade_candidate_ready-Consistent event _ c
    Step-Consistent fills c = check_for_fills-Consistent o _ c
    Step-Consistent (target bars) c = follow (attach_target-Quiet o fl bars _) c
    Step-Consistent closes c = check_for_close-Consistent o _ c
    Step-Consistent losses c = check_daily_loss_threshold-Consistent o fl _ c
    Step-Consistent day_ends c = cancel_all_at_day_end-Consistent o _ c
    Step-Consistent (elapses world) c = c

    Run-Consistent_from : {s s' : Machine World} → Run o fl ro s s' → Consistent s → Consistent s'
    Run-Consistent_from start c = c
    Run-Consistent_from (after run step) c = Step-Consistent step (Run-Consistent_from run c)

    -- However the calls of a day are ordered, whatever the broker and the database answer, and whatever
    -- happens between two calls: from a fresh manager and an empty journal, the journal has as many
    -- `candidate_filled` events as there are winners (at most one), as many `real_trade_closed` events
    -- as there are recorded closes (at most one, and only with a winner), and one
    -- `daily_loss_threshold_crossed` event exactly if its flag is set; and once there is a winner, no
    -- other order is pending.
    pub Run-Consistent :
        (config : ModelConfig) (world : World) (s : Machine World)
        → Run o fl ro (fresh config world) s
        → Consistent s
    unfolding fresh new_manager
    Run-Consistent config world s run = Run-Consistent_from run (record {
      fills = refl;
      closes = refl;
      crossings = refl;
      positions = refl;
      after_fill = omega arith;
      alone = tt;
    })
