-- ===== src/Orders/Steps.antt =====
-- A day of the order manager: the calls of the runner in any order, with anything happening outside
-- between two of them.
use mathlib.Core.Path.{subst, sym}
use the_bot.Common.{ℕ, ◌≡◌, ◌≤◌, Bool, true, false, List, [], ◌∷◌, Option, none, some}
use the_bot.Common.Floats.{Arith}
use the_bot.Detection.Bars.{Bar}
use the_bot.Detection.Orchestrator.{Ready}
use the_bot.Orders.Broker.{Outside}
use the_bot.Orders.Sizing.{Rounding}
use the_bot.Orders.Machine.{Key, Info, Machine, ModelConfig, new_manager}
use the_bot.Orders.Placing.{on_trade_candidate_ready}
use the_bot.Orders.Fills.{check_for_fills, attach_target, cancel_all_at_day_end}
use the_bot.Orders.Closes.{check_for_close, check_daily_loss_threshold}
use the_bot.Orders.View.{View, view, filling, closing, crossing}

module _ {World : Type 0} (o : Outside World) (fl : Arith) (ro : Rounding) where
  pub data Step (s : Machine World) : Machine World → Type 0 where
    candidate : (event : Ready) → Step s (on_trade_candidate_ready o fl ro event s)
    fills : Step s (check_for_fills o s).1
    target : (recent_bars : List Bar) → Step s (attach_target o fl recent_bars s)
    closes : Step s (check_for_close o s).1
    losses : Step s (check_daily_loss_threshold o fl s)
    day_ends : Step s (cancel_all_at_day_end o s)
    -- the broker, the market and the database move on
    elapses : (world : World) → Step s (record s { world = world })

  -- The machines that a run passes, the last step first.
  pub data Run (s : Machine World) : Machine World → Type 0 where
    start : Run s s
    after : {s' s'' : Machine World} → Run s s' → Step s' s'' → Run s s''

-- The machine at the start of a day.
unfoldable pub fresh : {World : Type 0} → ModelConfig → World → Machine World
unfolding new_manager
fresh config world = record { manager = new_manager config; world = world; journal = [] }

abbrev pub decided {ℓ} : {A : Type ℓ} → Option A → ℕ
decided none = 0
decided (some _) = 1

abbrev pub flag : Bool → ℕ
flag true = 1
flag false = 0

-- Once a candidate has won, at most its own order is left.
abbrev pub Alone : Option ℕ → List (Key × Info) → Type 0
Alone none pending = Unit
Alone (some ticket) [] = Unit
Alone (some ticket) ((k, i) ∷ []) = i.order_ticket ≡ ticket
Alone (some ticket) (_ ∷ _ ∷ _) = ⊥

-- The journal has one `candidate_filled` if there is a winner and none otherwise; the same for
-- `real_trade_closed` and a recorded close, and for `daily_loss_threshold_crossed` and its flag; a
-- close is recorded only for a winner; and once there is a winner no other order is pending.
pub record IsConsistent (v : View) : Type 0 where
  pub fills : v.counts filling ≡ decided v.winner
  pub closes : v.counts closing ≡ decided v.closed
  pub crossings : v.counts crossing ≡ flag v.emitted
  pub positions : decided v.position ≡ decided v.winner
  pub after_fill : decided v.closed ≤ decided v.winner
  pub alone : Alone v.winner v.pending

abbrev pub Consistent : {World : Type 0} → Machine World → Type 0
Consistent s = IsConsistent (view s)

pub follow : {v v' : View} → v' ≡ v → IsConsistent v → IsConsistent v'
follow q c = subst IsConsistent (sym q) c

pub Alone-nil : (winner : Option ℕ) → Alone winner []
Alone-nil none = tt
Alone-nil (some ticket) = tt
