-- ===== src/Orders/Frozen.antt =====
-- After a fill the order manager places nothing more and does not change its mind.
use the_bot.Common.{
  ℕ, ◌≡◌, refl, ap, ◌∙◌, Bool, true, false, List, [], ◌∷◌, Option, none, some, arith, Bool-cases,
  inl, inr, ltb, leb, if◌then◌else◌,
}
use the_bot.Common.Floats.{Float, Arith}
use the_bot.Detection.Orchestrator.{Ready}
use the_bot.Orders.Broker.{Reply, raised, returned, History, Position, Outside}
use the_bot.Orders.Sizing.{Rounding}
use the_bot.Orders.Machine.{
  Key, Info, Machine, call, is_active, Event, now_ny, real_trade_closed,
  daily_loss_threshold_crossed,
}
use the_bot.Orders.Placing.{on_trade_candidate_ready, unless_decided}
use the_bot.Orders.Fills.{check_for_fills, is_racing, is_open, find_position, cancel_all_at_day_end}
use the_bot.Orders.Closes.{
  check_for_close, check_daily_loss_threshold, confirm_close, history_reply, if_vanished,
  open_positions_reply, watch_close, cross, equity_reply, pnl_reply, limit_reply, unless_emitted,
}
use the_bot.Orders.View.{View, view, kind, count-append, placing}
use the_bot.Orders.Quiet.{failure-Quiet, attach_target-Quiet, cancel_unfilled-Quiet}
use the_bot.Orders.Steps.{
  Step, candidate, fills, target, closes, losses, day_ends, elapses, Run, start, after,
}

-- The winner and its position are the same, and no order has been placed since.
abbrev pub Frozen : View → View → Type 0
Frozen v v' =
    (v'.winner ≡ v.winner) × (v'.position ≡ v.position) × (v'.counts placing ≡ v.counts placing)

quiet-Frozen : {v v' : View} → v' ≡ v → Frozen v v'
quiet-Frozen q = (
  ap (λ (v : View). v.winner) q,
  ap (λ (v : View). v.position) q,
  ap (λ (v : View). v.counts placing) q,
)

race_over : (b : Bool) (pending : List (Key × Info)) (t : ℕ) → is_open b pending (some t) ≡ false
race_over true [] t = refl
race_over true (x ∷ pending) t = refl
race_over false pending t = refl

module _ {World : Type 0} (o : Outside World) where
  confirm_close-Frozen :
      (ticket : ℕ) (history : History) (b : Bool) (s : Machine World)
      → Frozen (view s) (view (confirm_close o ticket history b s).1)
  unfolding kind
  confirm_close-Frozen ticket history false s = (refl, refl, refl)
  confirm_close-Frozen ticket history true s = (
    refl,
    refl,
    omega (
      arith,
      count-append placing s.journal (real_trade_closed (now_ny o s) ticket history ∷ []),
    ),
  )

  history_reply-Frozen :
      (ticket : ℕ) (r : Reply History) (s : Machine World)
      → Frozen (view s) (view (history_reply o ticket r s).1)
  history_reply-Frozen ticket (raised e) s = quiet-Frozen (failure-Quiet o _ e _ s)
  history_reply-Frozen ticket (returned history) s =
      confirm_close-Frozen ticket history history.is_closed s

  if_vanished-Frozen :
      (ticket : ℕ) (p : Option Position) (s : Machine World)
      → Frozen (view s) (view (if_vanished o ticket p s).1)
  if_vanished-Frozen ticket (some p) s = (refl, refl, refl)
  if_vanished-Frozen ticket none s =
      let (r, s') = call o (o.get_position_history ticket) s in history_reply-Frozen ticket r s'

  open_positions_reply-Frozen :
      (ticket : ℕ) (r : Reply (List Position)) (s : Machine World)
      → Frozen (view s) (view (open_positions_reply o ticket r s).1)
  open_positions_reply-Frozen ticket (raised e) s = quiet-Frozen (failure-Quiet o _ e none s)
  open_positions_reply-Frozen ticket (returned ps) s =
      if_vanished-Frozen ticket (find_position ticket ps) s

  watch_close-Frozen :
      (position : Option ℕ) (closed : Option History) (s : Machine World)
      → Frozen (view s) (view (watch_close o position closed s).1)
  watch_close-Frozen none closed s = (refl, refl, refl)
  watch_close-Frozen (some ticket) (some history) s = (refl, refl, refl)
  watch_close-Frozen (some ticket) none s =
      let (r, s') = call o (o.get_positions s.manager.config.magic_number) s in
      open_positions_reply-Frozen ticket r s'

  module _ (fl : Arith) where
    unless-Frozen :
        (b : Bool) (s s' : Machine World)
        → Frozen (view s) (view s')
        → Frozen (view s) (view (if b then s else s'))
    unless-Frozen true s s' h = (refl, refl, refl)
    unless-Frozen false s s' h = h

    cross-Frozen :
        (limit pnl equity : Float) (s : Machine World)
        → Frozen (view s) (view (cross o fl limit pnl equity s))
    unfolding kind
    cross-Frozen limit pnl equity s =
        let loss = fl.div (fl.sub fl.nought pnl) equity in
        let e : Event = daily_loss_threshold_crossed (now_ny o s) pnl loss limit in
        unless-Frozen (leb equity fl.nought) s _ (
          unless-Frozen (ltb loss limit) s _
            (refl, refl, omega (arith, count-append placing s.journal (e ∷ []))))

    equity_reply-Frozen :
        (limit pnl : Float) (r : Reply Float) (s : Machine World)
        → Frozen (view s) (view (equity_reply o fl limit pnl r s))
    equity_reply-Frozen limit pnl (raised e) s = quiet-Frozen (failure-Quiet o _ e none s)
    equity_reply-Frozen limit pnl (returned equity) s = cross-Frozen limit pnl equity s

    pnl_reply-Frozen :
        (limit : Float) (r : Reply Float) (s : Machine World)
        → Frozen (view s) (view (pnl_reply o fl limit r s))
    pnl_reply-Frozen limit (raised e) s = quiet-Frozen (failure-Quiet o _ e none s)
    pnl_reply-Frozen limit (returned pnl) s =
        let (r, s') = call o o.balance s in equity_reply-Frozen limit pnl r s'

    limit_reply-Frozen :
        (r : Reply (Option Float)) (s : Machine World)
        → Frozen (view s) (view (limit_reply o fl r s))
    limit_reply-Frozen (raised e) s = quiet-Frozen (failure-Quiet o _ e none s)
    limit_reply-Frozen (returned none) s = (refl, refl, refl)
    limit_reply-Frozen (returned (some limit)) s =
        let (r, s') = call o o.get_realized_pnl_today s in pnl_reply-Frozen limit r s'

    unless_emitted-Frozen :
        (b : Bool) (s : Machine World) → Frozen (view s) (view (unless_emitted o fl b s))
    unless_emitted-Frozen true s = (refl, refl, refl)
    unless_emitted-Frozen false s =
        let (r, s') = call o o.get_max_daily_loss_pct s in limit_reply-Frozen r s'

    losses-Frozen : (s : Machine World) → Frozen (view s) (view (check_daily_loss_threshold o fl s))
    unfolding check_daily_loss_threshold
    losses-Frozen s = elim (Bool-cases (is_active s.manager)) [
      | inr idle ↦ rw (idle, check_daily_loss_threshold) (refl, refl, refl)
      | inl acts ↦
          rw (acts, check_daily_loss_threshold)
            (unless_emitted-Frozen s.manager.loss_threshold_emitted_today s)
    ]

    day_ends-Frozen : (s : Machine World) → Frozen (view s) (view (cancel_all_at_day_end o s))
    unfolding cancel_all_at_day_end
    day_ends-Frozen s =
        let (w, p, n) =
          quiet-Frozen (cancel_unfilled-Quiet o s.manager.winner_ticket s.manager.pending s) in
        (w, p, n)

    fills-Frozen :
        (t : ℕ) (s : Machine World)
        → s.manager.winner_ticket ≡ some t
        → Frozen (view s) (view (check_for_fills o s).1)
    unfolding check_for_fills
    fills-Frozen t s h =
        let idle : is_racing s.manager ≡ false =
          ap (is_open (is_active s.manager) s.manager.pending) h
          ∙ race_over (is_active s.manager) s.manager.pending t in
        rw (idle, check_for_fills) (refl, refl, refl)

    closes-Frozen : (s : Machine World) → Frozen (view s) (view (check_for_close o s).1)
    unfolding check_for_close
    closes-Frozen s = watch_close-Frozen s.manager.winner_position_ticket s.manager.closed_info s

    module _ (ro : Rounding) where
      candidate-Frozen :
          (event : Ready) (t : ℕ) (s : Machine World)
          → s.manager.winner_ticket ≡ some t
          → on_trade_candidate_ready o fl ro event s ≡ s
      unfolding on_trade_candidate_ready
      candidate-Frozen event t s h = elim (Bool-cases (is_active s.manager)) [
        | inr idle ↦ rw (idle, on_trade_candidate_ready) refl
        | inl acts ↦
            rw (acts, on_trade_candidate_ready) (ap (λ w. unless_decided o fl ro event w s) h)
      ]

      Step-Frozen :
          {s s' : Machine World} (t : ℕ)
          → Step o fl ro s s'
          → s.manager.winner_ticket ≡ some t
          → Frozen (view s) (view s')
      Step-Frozen {s = s} t (candidate event) h =
          quiet-Frozen (ap view (candidate-Frozen event t s h))
      Step-Frozen t fills h = fills-Frozen t _ h
      Step-Frozen t (target bars) h = quiet-Frozen (attach_target-Quiet o fl bars _)
      Step-Frozen t closes h = closes-Frozen _
      Step-Frozen t losses h = losses-Frozen _
      Step-Frozen t day_ends h = day_ends-Frozen _
      Step-Frozen t (elapses world) h = (refl, refl, refl)

      -- Once a candidate has won, no later call of the day changes the winner or its position, and
      -- none places an order, whatever the calls are and whatever the broker answers.
      pub Run-Frozen :
          {s s' : Machine World} (t : ℕ)
          → Run o fl ro s s'
          → s.manager.winner_ticket ≡ some t
          → Frozen (view s) (view s')
      Run-Frozen t start h = (refl, refl, refl)
      Run-Frozen t (after run step) h =
          let (w, p, n) = Run-Frozen t run h in
          let (w', p', n') = Step-Frozen t step (w ∙ h) in (w' ∙ w, p' ∙ p, n' ∙ n)
