-- ===== src/Orders/Tests.antt =====
-- A paper broker, a day of trading on it, and the theorems of the order manager at them.
use the_bot.Common.{
  ℕ, suc, arith, ◌≡◌, refl, true, false, List, [], ◌∷◌, ◌++◌, some, if◌then◌else◌, ◌==◌, map_from,
}
use the_bot.Common.Floats.{half_points}
use the_bot.Common.Deque.{last}
use the_bot.Detection.Bars.{Bar, long}
use the_bot.Detection.Gaps.Refine.{frame_at}
use the_bot.Detection.Attempt as Attempt
use the_bot.Detection.Attempt.{Attempt, on_pending}
use the_bot.Detection.Orchestrator.{Ready}
use the_bot.Orders.Broker.{
  raised, returned, raised_with, done, SymbolInfo, Position, History, take_profit, Outside,
}
use the_bot.Orders.Sizing.{Rounding, Keeps, IsSized, compute_lot_size, compute_lot_size-IsSized}
use the_bot.Orders.Target.{SameTarget, compute_target, compute_target-SameTarget}
use the_bot.Orders.Machine.{
  active, Key, Info, ModelConfig, Machine, new_manager, pending_order_placed, candidate_filled,
  duplicate_fill_closed, target_attached, real_trade_closed, daily_loss_threshold_crossed,
}
use the_bot.Orders.Placing.{on_trade_candidate_ready}
use the_bot.Orders.Fills.{
  check_for_fills, attach_target, cancel_all_at_day_end, contains_ticket, on_fill, won_by,
}
use the_bot.Orders.Closes.{check_for_close, check_daily_loss_threshold, get_real_outcome}
use the_bot.Orders.View.{view}
use the_bot.Orders.Steps.{
  Run, start, after, candidate, fills, target, closes, losses, day_ends, elapses, fresh, Consistent,
}
use the_bot.Orders.Consistent.{Run-Consistent}
use the_bot.Orders.Siblings.{told, Settles, on_fill-Settles}
use the_bot.Orders.Frozen.{Frozen, Run-Frozen}

-- The broker's books.
record Paper : Type 0 where
  next_ticket : ℕ
  pending : List ℕ
  positions : List Position

abbrev without_ticket : ℕ → List ℕ → List ℕ
without_ticket t [] = []
without_ticket t (t' ∷ rest) = if t == t' then without_ticket t rest else t' ∷ without_ticket t rest

abbrev without_position : ℕ → List Position → List Position
without_position t [] = []
without_position t (p ∷ rest) =
    if t == p.ticket then without_position t rest else p ∷ without_position t rest

abbrev info : SymbolInfo
info = record { tick_size = 1; tick_value = 1; volume_min = 1; volume_max = 3; volume_step = 1 }

abbrev history : History
history = record {
  is_closed = true;
  close_price = some 1120;
  close_time = some 600;
  profit = some 9;
  close_reason = some take_profit;
}

abbrev paper : Outside Paper
paper = record {
  now = λ w. w.next_ticket;
  get_user_paused_status = λ w. (returned false, w);
  get_model_paused_status = λ w. (returned false, w);
  get_max_daily_loss_pct = λ w. (returned (some 0), w);
  get_realized_pnl_today = λ w. (returned 0, w);
  balance = λ w. (returned 1000, w);
  get_symbol_info = λ w. (returned info, w);
  place_pending_order = λ order w. (
    returned w.next_ticket,
    record w { next_ticket = suc w.next_ticket; pending = w.pending ++ w.next_ticket ∷ [] },
  );
  get_pending_orders = λ magic w. (returned w.pending, w);
  get_positions = λ magic w. (returned w.positions, w);
  cancel_pending_order = λ t w.
      if contains_ticket t w.pending
      then (returned done, record w { pending = without_ticket t w.pending })
      else (raised (raised_with 404), w);
  close_position = λ t w. (returned done, record w { positions = without_position t w.positions });
  modify_position = λ t price w. (returned done, w);
  get_position_history = λ t w. (returned history, w);
}

abbrev rounding : Rounding
rounding = record { to_int = λ x. x; round8 = λ x. x; epsilon = 0; smallest_lot = 1 }

abbrev config : ModelConfig
config = record { status = active; risk_pct = 2; magic_number = 7 }

abbrev ready : ℕ → Ready
ready mss_bar = record {
  timestamp = 345;
  direction = long;
  entry = 1000;
  stop = 600;
  raid_bar = 7;
  mss_bar = mss_bar;
}

abbrev opening : Paper
opening = record { next_ticket = 100; pending = []; positions = [] }

abbrev position : ℕ → Position
position t = record { ticket = t; direction = long; open_price = 1000; time = 350; volume = 3 }

-- Both orders fill before the next poll.
abbrev both_filled : Paper
both_filled = record {
  next_ticket = 102;
  pending = [];
  positions = position 100 ∷ position 101 ∷ [];
}

abbrev all_closed : Paper
all_closed = record { next_ticket = 102; pending = []; positions = [] }

abbrev bar : ℕ → ℕ → ℕ → Bar
bar time high low = record { time = time; high = high; low = low; close = low }

abbrev bars : List Bar
bars =
    bar 315 1050 880
    ∷ bar 320 1000 800
    ∷ bar 325 1010 850
    ∷ bar 330 1020 860
    ∷ bar 335 1100 700
    ∷ bar 340 1300 1100
    ∷ []

abbrev placed : Machine Paper
placed =
    on_trade_candidate_ready paper half_points rounding (ready 9)
      (on_trade_candidate_ready paper half_points rounding (ready 8) (fresh config opening))

abbrev after_fills : Machine Paper
after_fills = (check_for_fills paper (record placed { world = both_filled })).1

abbrev after_target : Machine Paper
after_target = attach_target paper half_points bars after_fills

abbrev after_close : Machine Paper
after_close = (check_for_close paper (record after_target { world = all_closed })).1

abbrev at_end : Machine Paper
at_end = cancel_all_at_day_end paper (
    check_daily_loss_threshold paper half_points
      (on_trade_candidate_ready paper half_points rounding (ready 10) after_close))

Run-after_fills : Run paper half_points rounding (fresh config opening) after_fills
Run-after_fills =
    after
      (after (after (after start (candidate (ready 8))) (candidate (ready 9)))
        (elapses both_filled))
      fills

Run-at_end : Run paper half_points rounding after_fills at_end
Run-at_end =
    after
      (after
        (after (after (after (after start (target bars)) (elapses all_closed)) closes)
          (candidate (ready 10)))
        losses)
      day_ends

Run-fresh : Run paper half_points rounding (fresh config opening) at_end
Run-fresh =
    after
      (after
        (after (after (after (after Run-after_fills (target bars)) (elapses all_closed)) closes)
          (candidate (ready 10)))
        losses)
      day_ends

-- The second order filled too; its position is closed.
journal_at_end :
    at_end.journal
    ≡ pending_order_placed 345 100 long 1000 600
      ∷ pending_order_placed 345 101 long 1000 600
      ∷ candidate_filled 102 100 long 1000
      ∷ duplicate_fill_closed 102 101
      ∷ target_attached 102 100 1200
      ∷ real_trade_closed 102 100 history
      ∷ daily_loss_threshold_crossed 102 0 0 0
      ∷ []
unfolding check_for_fills on_trade_candidate_ready fresh compute_lot_size check_for_close
    attach_target cancel_all_at_day_end check_daily_loss_threshold compute_target last
journal_at_end = refl

outcome_at_end :
    get_real_outcome at_end.manager
    ≡ some (record { position_ticket = 100; fill = some (1000, 350, 3); close = some history })
unfolding check_for_fills on_trade_candidate_ready fresh compute_lot_size check_for_close
    attach_target cancel_all_at_day_end check_daily_loss_threshold compute_target last
    get_real_outcome
outcome_at_end = refl

lots : compute_lot_size half_points rounding 1000 2 400 info ≡ returned 3
unfolding compute_lot_size
lots = refl

info_kept : Keeps half_points rounding info
info_kept = record {
  monotone = λ a b h. h;
  keeps_min = refl;
  keeps_max = refl;
  limits = omega arith;
}

compute_lot_size-IsSized_example : IsSized half_points rounding 1000 2 400 info
compute_lot_size-IsSized_example =
    compute_lot_size-IsSized half_points rounding 1000 2 400 info info_kept

abbrev attempt : Attempt
attempt = Attempt.init half_points long 1000 600 9 (map_from frame_at 0 bars)

compute_target-SameTarget_example :
    SameTarget half_points bars attempt (on_pending half_points attempt 345 9 1010 990)
unfolding Attempt.init last
compute_target-SameTarget_example =
    compute_target-SameTarget half_points bars attempt 345 9 1010 990 refl refl

Run-Consistent_example : Consistent at_end
Run-Consistent_example = Run-Consistent paper half_points rounding config opening at_end Run-fresh

Run-Frozen_example : Frozen (view after_fills) (view at_end)
unfolding check_for_fills on_trade_candidate_ready fresh compute_lot_size
Run-Frozen_example = Run-Frozen paper half_points rounding 100 Run-at_end refl

abbrev entry_of : ℕ → Key × Info
entry_of t =
    ((7, t), record { order_ticket = t; direction = long; entry = 1000; stop = 600; raid_bar = 7 })

abbrev two_pending : Machine Paper
two_pending = record {
  manager = record (new_manager config) { pending = entry_of 100 ∷ entry_of 101 ∷ [] };
  world = both_filled;
  journal = [];
}

on_fill-Settles_example :
    (s' : Machine Paper) × Settles paper
      (7, 100)
      (entry_of 100 ∷ entry_of 101 ∷ [])
      (told
        (candidate_filled
          (paper.now both_filled)
          (position 100).ticket
          long
          (position 100).open_price)
        (record two_pending {
          manager = won_by (entry_of 100).1 (position 100) two_pending.manager;
        })
        both_filled)
      s'
    × (on_fill paper (7, 100) (entry_of 100).1 (position 100) two_pending
        ≡ record s' { manager = record s'.manager { pending = entry_of 100 ∷ [] } })
    × ((on_fill paper (7, 100) (entry_of 100).1 (position 100) two_pending).manager.winner_ticket
        ≡ some 100)
    × ((on_fill paper
          (7, 100)
          (entry_of 100).1
          (position 100)
          two_pending).manager.winner_position_ticket
        ≡ some 100)
on_fill-Settles_example = on_fill-Settles paper (7, 100) (entry_of 100).1 (position 100) two_pending
