-- ===== src/Orders/Broker.antt =====
-- What the order manager calls: the broker's bridge (shadow_runner/bridge_client.py, HTTP), the reads
-- of the database (shadow_runner/persistence.py, SQL) and the clock. None of it is in the code
-- modelled here, so it is a record of functions on the state of the outside world.
use the_bot.Common.{ℕ, Bool, List, Option}
use the_bot.Common.Floats.{Float}
use the_bot.Detection.Bars.{Direction}

-- An exception. The text of a bridge's or a database's is a number.
pub data Error : Type 0 where
  raised_with : ℕ → Error
  value_error zero_division attribute_error : Error

-- What a Python call may do: raise or return.
pub data Reply {ℓ} (A : Type ℓ) : Type ℓ where
  raised : Error → Reply A
  returned : A → Reply A

-- An answer that no caller reads.
pub data Done : Type 0 where
  done : Done

-- `SymbolInfoResponse`
pub record SymbolInfo : Type 0 where
  pub tick_size : Float
  pub tick_value : Float
  pub volume_min : Float
  pub volume_max : Float
  pub volume_step : Float

pub record Position : Type 0 where
  pub ticket : ℕ
  pub direction : Direction
  pub open_price : Float
  pub time : ℕ
  pub volume : Float

pub data CloseReason : Type 0 where
  stop_loss take_profit manual expert unknown : CloseReason

-- `/history/position/{ticket}`: the details are there once the position is closed.
pub record History : Type 0 where
  pub is_closed : Bool
  pub close_price : Option Float
  pub close_time : Option ℕ
  pub profit : Option Float
  pub close_reason : Option CloseReason

pub record Order : Type 0 where
  pub direction : Direction
  pub volume : Float
  pub entry_price : Float
  pub stop_loss : Float
  pub magic : ℕ

pub record Outside (World : Type 0) : Type 0 where
  pub now : World → ℕ
  pub get_user_paused_status : World → Reply Bool × World
  pub get_model_paused_status : World → Reply Bool × World
  pub get_max_daily_loss_pct : World → Reply (Option Float) × World
  pub get_realized_pnl_today : World → Reply Float × World
  pub balance : World → Reply Float × World
  pub get_symbol_info : World → Reply SymbolInfo × World
  pub place_pending_order : Order → World → Reply ℕ × World
  pub get_pending_orders : ℕ → World → Reply (List ℕ) × World
  pub get_positions : ℕ → World → Reply (List Position) × World
  pub cancel_pending_order : ℕ → World → Reply Done × World
  pub close_position : ℕ → World → Reply Done × World
  pub modify_position : ℕ → Float → World → Reply Done × World
  pub get_position_history : ℕ → World → Reply History × World
