-- ===== src/Orders/Consistent/Closes.antt =====
-- The watch for the close and for the loss of the day keep the journal consistent with the state.
use the_bot.Common.{
  ℕ, ◌≡◌, refl, ap, Bool, true, false, List, [], ◌∷◌, Option, none, some, arith, Bool-cases, inl,
  inr, ltb, leb, if◌then◌else◌,
}
use the_bot.Common.Floats.{Float, Arith}
use the_bot.Orders.Broker.{Reply, raised, returned, History, Position, Outside}
use the_bot.Orders.Machine.{
  Machine, call, is_active, Event, now_ny, real_trade_closed, daily_loss_threshold_crossed,
}
use the_bot.Orders.Fills.{find_position}
use the_bot.Orders.Closes.{
  check_for_close, check_daily_loss_threshold, confirm_close, history_reply, if_vanished,
  open_positions_reply, watch_close, cross, equity_reply, pnl_reply, limit_reply, unless_emitted,
}
use the_bot.Orders.View.{kind, count-append, filling, closing, crossing}
use the_bot.Orders.Quiet.{failure-Quiet}
use the_bot.Orders.Steps.{decided, flag, Consistent, follow}

module _ {World : Type 0} (o : Outside World) where
  unless-Consistent :
      (b : Bool) (s s' : Machine World)
      → Consistent s
      → Consistent s'
      → Consistent (if b then s else s')
  unless-Consistent true s s' c c' = c
  unless-Consistent false s s' c c' = c'

  confirm_close-Consistent :
      (ticket : ℕ) (history : History) (b : Bool) (s : Machine World)
      → s.manager.winner_position_ticket ≡ some ticket
      → s.manager.closed_info ≡ none
      → Consistent s
      → Consistent (confirm_close o ticket history b s).1
  unfolding kind
  confirm_close-Consistent ticket history false s won unseen c = c
  confirm_close-Consistent ticket history true s won unseen c =
      let e : Event = real_trade_closed (now_ny o s) ticket history in
      let zero_before : decided s.manager.closed_info ≡ 0 = ap decided unseen in
      let one : decided s.manager.winner_position_ticket ≡ 1 = ap decided won in
      record {
        fills = omega (arith, count-append filling s.journal (e ∷ []), c.fills);
        closes = omega (arith, count-append closing s.journal (e ∷ []), c.closes, zero_before);
        crossings = omega (arith, count-append crossing s.journal (e ∷ []), c.crossings);
        positions = c.positions;
        after_fill = omega (arith, c.positions, one);
        alone = c.alone;
      }

  history_reply-Consistent :
      (ticket : ℕ) (r : Reply History) (s : Machine World)
      → s.manager.winner_position_ticket ≡ some ticket
      → s.manager.closed_info ≡ none
      → Consistent s
      → Consistent (history_reply o ticket r s).1
  history_reply-Consistent ticket (raised e) s won unseen c = follow (failure-Quiet o _ e _ s) c
  history_reply-Consistent ticket (returned history) s won unseen c =
      confirm_close-Consistent ticket history history.is_closed s won unseen c

  if_vanished-Consistent :
      (ticket : ℕ) (p : Option Position) (s : Machine World)
      → s.manager.winner_position_ticket ≡ some ticket
      → s.manager.closed_info ≡ none
      → Consistent s
      → Consistent (if_vanished o ticket p s).1
  if_vanished-Consistent ticket (some p) s won unseen c = c
  if_vanished-Consistent ticket none s won unseen c =
      let (r, s') = call o (o.get_position_history ticket) s in
      history_reply-Consistent ticket r s' won unseen c

  open_positions_reply-Consistent :
      (ticket : ℕ) (r : Reply (List Position)) (s : Machine World)
      → s.manager.winner_position_ticket ≡ some ticket
      → s.manager.closed_info ≡ none
      → Consistent s
      → Consistent (open_positions_reply o ticket r s).1
  open_positions_reply-Consistent ticket (raised e) s won unseen c =
      follow (failure-Quiet o _ e none s) c
  open_positions_reply-Consistent ticket (returned ps) s won unseen c =
      if_vanished-Consistent ticket (find_position ticket ps) s won unseen c

  watch_close-Consistent :
      (position : Option ℕ) (closed : Option History) (s : Machine World)
      → s.manager.winner_position_ticket ≡ position
      → s.manager.closed_info ≡ closed
      → Consistent s
      → Consistent (watch_close o position closed s).1
  watch_close-Consistent none closed s won unseen c = c
  watch_close-Consistent (some ticket) (some history) s won unseen c = c
  watch_close-Consistent (some ticket) none s won unseen c =
      let (r, s') = call o (o.get_positions s.manager.config.magic_number) s in
      open_positions_reply-Consistent ticket r s' won unseen c

  pub check_for_close-Consistent :
      (s : Machine World) → Consistent s → Consistent (check_for_close o s).1
  unfolding check_for_close
  check_for_close-Consistent s c =
      watch_close-Consistent s.manager.winner_position_ticket s.manager.closed_info s refl refl c

  cross-Consistent :
      (fl : Arith) (limit pnl equity : Float) (s : Machine World)
      → s.manager.loss_threshold_emitted_today ≡ false
      → Consistent s
      → Consistent (cross o fl limit pnl equity s)
  unfolding kind
  cross-Consistent fl limit pnl equity s unseen c =
      let loss = fl.div (fl.sub fl.nought pnl) equity in
      let e : Event = daily_loss_threshold_crossed (now_ny o s) pnl loss limit in
      let zero_before : flag s.manager.loss_threshold_emitted_today ≡ 0 = ap flag unseen in
      unless-Consistent (leb equity fl.nought) s _ c (
        unless-Consistent (ltb loss limit) s _ c (record {
          fills = omega (arith, count-append filling s.journal (e ∷ []), c.fills);
          closes = omega (arith, count-append closing s.journal (e ∷ []), c.closes);
          crossings =
              omega (arith, count-append crossing s.journal (e ∷ []), c.crossings, zero_before);
          positions = c.positions;
          after_fill = c.after_fill;
          alone = c.alone;
        }))

  equity_reply-Consistent :
      (fl : Arith) (limit pnl : Float) (r : Reply Float) (s : Machine World)
      → s.manager.loss_threshold_emitted_today ≡ false
      → Consistent s
      → Consistent (equity_reply o fl limit pnl r s)
  equity_reply-Consistent fl limit pnl (raised e) s unseen c = follow (failure-Quiet o _ e none s) c
  equity_reply-Consistent fl limit pnl (returned equity) s unseen c =
      cross-Consistent fl limit pnl equity s unseen c

  pnl_reply-Consistent :
      (fl : Arith) (limit : Float) (r : Reply Float) (s : Machine World)
      → s.manager.loss_threshold_emitted_today ≡ false
      → Consistent s
      → Consistent (pnl_reply o fl limit r s)
  pnl_reply-Consistent fl limit (raised e) s unseen c = follow (failure-Quiet o _ e none s) c
  pnl_reply-Consistent fl limit (returned pnl) s unseen c =
      let (r, s') = call o o.balance s in equity_reply-Consistent fl limit pnl r s' unseen c

  limit_reply-Consistent :
      (fl : Arith) (r : Reply (Option Float)) (s : Machine World)
      → s.manager.loss_threshold_emitted_today ≡ false
      → Consistent s
      → Consistent (limit_reply o fl r s)
  limit_reply-Consistent fl (raised e) s unseen c = follow (failure-Quiet o _ e none s) c
  limit_reply-Consistent fl (returned none) s unseen c = c
  limit_reply-Consistent fl (returned (some limit)) s unseen c =
      let (r, s') = call o o.get_realized_pnl_today s in pnl_reply-Consistent fl limit r s' unseen c

  unless_emitted-Consistent :
      (fl : Arith) (b : Bool) (s : Machine World)
      → s.manager.loss_threshold_emitted_today ≡ b
      → Consistent s
      → Consistent (unless_emitted o fl b s)
  unless_emitted-Consistent fl true s unseen c = c
  unless_emitted-Consistent fl false s unseen c =
      let (r, s') = call o o.get_max_daily_loss_pct s in limit_reply-Consistent fl r s' unseen c

  pub check_daily_loss_threshold-Consistent :
      (fl : Arith) (s : Machine World)
      → Consistent s
      → Consistent (check_daily_loss_threshold o fl s)
  unfolding check_daily_loss_threshold
  check_daily_loss_threshold-Consistent fl s c = elim (Bool-cases (is_active s.manager)) [
    | inr idle ↦ rw (idle, check_daily_loss_threshold) c
    | inl acts ↦
        rw (acts, check_daily_loss_threshold)
          (unless_emitted-Consistent fl s.manager.loss_threshold_emitted_today s refl c)
  ]
