-- ===== src/Orders/Closes.antt =====
-- `check_for_close`, `get_real_outcome` and `check_daily_loss_threshold` of
-- shadow_runner/order_manager.py.
use the_bot.Common.{ℕ, Bool, true, false, List, Option, none, some, ltb, leb, if◌then◌else◌}
use the_bot.Common.Floats.{Float, Arith}
use the_bot.Orders.Broker.{Reply, raised, returned, Position, History, Outside}
use the_bot.Orders.Machine.{
  Manager, is_active, check_for_close_get_positions, check_for_close_get_history,
  daily_loss_threshold_db, daily_loss_threshold_balance_fetch, real_trade_closed,
  daily_loss_threshold_crossed, Machine, emit, emit_check_failure, now_ny, call,
}
use the_bot.Orders.Fills.{find_position}

module _ {World : Type 0} (o : Outside World) where
  -- A close that the broker's history confirms.
  abbrev pub confirm_close : ℕ → History → Bool → Machine World → Option History × Machine World
  confirm_close ticket history false s = (none, s)
  confirm_close ticket history true s = (
    some history,
    emit o (real_trade_closed (now_ny o s) ticket history)
        (record s { manager = record s.manager { closed_info = some history } }),
  )

  abbrev pub history_reply : ℕ → Reply History → Machine World → Option History × Machine World
  history_reply ticket (raised e) s =
      (none, emit_check_failure o check_for_close_get_history e (some ticket) s)
  history_reply ticket (returned history) s = confirm_close ticket history history.is_closed s

  abbrev pub if_vanished : ℕ → Option Position → Machine World → Option History × Machine World
  if_vanished ticket (some p) s = (none, s)
  if_vanished ticket none s =
      let (r, s') = call o (o.get_position_history ticket) s in history_reply ticket r s'

  abbrev pub open_positions_reply :
      ℕ → Reply (List Position) → Machine World → Option History × Machine World
  open_positions_reply ticket (raised e) s =
      (none, emit_check_failure o check_for_close_get_positions e none s)
  open_positions_reply ticket (returned open_positions) s =
      if_vanished ticket (find_position ticket open_positions) s

  abbrev pub watch_close :
      Option ℕ → Option History → Machine World → Option History × Machine World
  watch_close none closed s = (none, s)
  watch_close (some ticket) (some history) s = (none, s)
  watch_close (some ticket) none s =
      let (r, s') = call o (o.get_positions s.manager.config.magic_number) s in
      open_positions_reply ticket r s'

  unfoldable pub check_for_close : Machine World → Option History × Machine World
  check_for_close s = watch_close s.manager.winner_position_ticket s.manager.closed_info s

  -- `realized_loss_pct = -realized_pnl / equity`, compared with the limit.
  abbrev pub cross : Arith → Float → Float → Float → Machine World → Machine World
  cross fl limit pnl equity s =
      let loss = fl.div (fl.sub fl.nought pnl) equity in
      if leb equity fl.nought
      then s
      else if ltb loss limit
      then s
      else emit o (daily_loss_threshold_crossed (now_ny o s) pnl loss limit)
          (record s { manager = record s.manager { loss_threshold_emitted_today = true } })

  abbrev pub equity_reply : Arith → Float → Float → Reply Float → Machine World → Machine World
  equity_reply fl limit pnl (raised e) s =
      emit_check_failure o daily_loss_threshold_balance_fetch e none s
  equity_reply fl limit pnl (returned equity) s = cross fl limit pnl equity s

  abbrev pub pnl_reply : Arith → Float → Reply Float → Machine World → Machine World
  pnl_reply fl limit (raised e) s = emit_check_failure o daily_loss_threshold_db e none s
  pnl_reply fl limit (returned pnl) s =
      let (r, s') = call o o.balance s in equity_reply fl limit pnl r s'

  abbrev pub limit_reply : Arith → Reply (Option Float) → Machine World → Machine World
  limit_reply fl (raised e) s = emit_check_failure o daily_loss_threshold_db e none s
  limit_reply fl (returned none) s = s
  limit_reply fl (returned (some limit)) s =
      let (r, s') = call o o.get_realized_pnl_today s in pnl_reply fl limit r s'

  abbrev pub unless_emitted : Arith → Bool → Machine World → Machine World
  unless_emitted fl true s = s
  unless_emitted fl false s = let (r, s') = call o o.get_max_daily_loss_pct s in limit_reply fl r s'

  unfoldable pub check_daily_loss_threshold : Arith → Machine World → Machine World
  check_daily_loss_threshold fl s = elim (is_active s.manager) [
    | false ↦ s
    | true ↦ unless_emitted fl s.manager.loss_threshold_emitted_today s
  ]

-- What the runner writes into the day's trade. The details of the close are there once it is confirmed.
pub record RealOutcome : Type 0 where
  pub position_ticket : ℕ
  pub fill : Option (Float × ℕ × Float)
  pub close : Option History

unfoldable pub get_real_outcome : Manager → Option RealOutcome
get_real_outcome m = elim m.winner_position_ticket [
  | none ↦ none
  | some ticket ↦
      some (record { position_ticket = ticket; fill = m.real_fill; close = m.closed_info })
]
