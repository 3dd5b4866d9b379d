-- ===== src/Orders/Machine.antt =====
-- The state of `OrderManager` (shadow_runner/order_manager.py), its events, and how it calls.
--
-- A run threads the manager, the outside world and the journal of the events emitted so far.
use the_bot.Common.{ℕ, Bool, true, false, List, [], ◌∷◌, ◌++◌, Option, none}
use the_bot.Common.Floats.{Float}
use the_bot.Detection.Bars.{Direction}
use the_bot.Orders.Broker.{Error, Reply, SymbolInfo, History, Outside}

pub data ModelStatus : Type 0 where
  active shadow disabled : ModelStatus

pub record ModelConfig : Type 0 where
  pub status : ModelStatus
  pub risk_pct : Float
  pub magic_number : ℕ

-- `(raid_bar, mss_bar)`
abbrev pub Key : Type 0
Key = ℕ × ℕ

pub record Info : Type 0 where
  pub order_ticket : ℕ
  pub direction : Direction
  pub entry : Float
  pub stop : Float
  pub raid_bar : ℕ

-- `real_fill` has the price, the time and the volume of the fill.
pub record Manager : Type 0 where
  pub config : ModelConfig
  pub pending : List (Key × Info)
  pub winner_ticket : Option ℕ
  pub winner_position_ticket : Option ℕ
  pub closed_info : Option History
  pub real_fill : Option (Float × ℕ × Float)
  pub loss_threshold_emitted_today : Bool
  pub symbol_info_cache : Option SymbolInfo

unfoldable pub new_manager : ModelConfig → Manager
new_manager config = record {
  config = config;
  pending = [];
  winner_ticket = none;
  winner_position_ticket = none;
  closed_info = none;
  real_fill = none;
  loss_threshold_emitted_today = false;
  symbol_info_cache = none;
}

abbrev pub is_active : Manager → Bool
is_active m = elim m.config.status [ active ↦ true | _ ↦ false ]

pub data Reason : Type 0 where
  account_paused model_paused sibling_filled day_end : Reason

-- `check_name`
pub data Check : Type 0 where
  is_paused_check model_is_paused_check symbol_info_fetch account_balance_fetch : Check
  compute_lot_size_check check_for_fills_bridge_call check_for_close_get_positions : Check
  check_for_close_get_history daily_loss_threshold_db daily_loss_threshold_balance_fetch : Check
  cancel_sibling_order duplicate_fill_close_failed compute_target_check : Check
  attach_target_modify_position cancel_end_of_day_order : Check

-- Every event begins with its time stamp. A failed check has the ticket that it is about, if any.
pub data Event : Type 0 where
  order_skipped_paused : ℕ → Direction → Float → Reason → Event
  order_placement_failed : ℕ → Key → Error → Event
  pending_order_placed : ℕ → ℕ → Direction → Float → Float → Event
  pending_order_cancelled : ℕ → ℕ → Reason → Event
  candidate_filled : ℕ → ℕ → Direction → Float → Event
  duplicate_fill_closed : ℕ → ℕ → Event
  target_attached : ℕ → ℕ → Float → Event
  real_trade_closed : ℕ → ℕ → History → Event
  daily_loss_threshold_crossed : ℕ → Float → Float → Float → Event
  safety_check_failed : ℕ → Check → Error → Option ℕ → Event

pub record Machine (World : Type 0) : Type 0 where
  pub manager : Manager
  pub world : World
  pub journal : List Event

module _ {World : Type 0} (o : Outside World) where
  abbrev pub emit : Event → Machine World → Machine World
  emit e s = record s { journal = s.journal ++ e ∷ [] }

  -- `_now_ny`
  abbrev pub now_ny : Machine World → ℕ
  now_ny s = o.now s.world

  abbrev pub emit_check_failure : Check → Error → Option ℕ → Machine World → Machine World
  emit_check_failure check e ticket s = emit (safety_check_failed (now_ny s) check e ticket) s

  abbrev pub call :
      {A : Type 0} → (World → Reply A × World) → Machine World → Reply A × Machine World
  call f s = let (r, w) = f s.world in (r, record s { world = w })
