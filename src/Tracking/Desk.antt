-- ===== src/Tracking/Desk.antt =====
-- What position tracking calls: the broker's bridge, the database session and the clock, as functions
-- on the state of the outside world; and how a run is recorded.
use the_bot.Common.{ℕ, Bool, List, [], ◌∷◌, ◌++◌, Option}
use the_bot.Common.Floats.{Float}
use the_bot.Detection.Bars.{Bar, Direction}
use the_bot.Orders.Broker.{Error, Reply, raised, returned, Done, done, Position, History}

-- `PartialCloseResult`
pub record PartialClose : Type 0 where
  pub close_price : Float
  pub closed_volume : Float
  pub remaining_volume : Float
  pub time : ℕ

-- A row of `get_open_real_trades`; `partial_closed` is its status.
pub record OpenTrade : Type 0 where
  pub trade_id : ℕ
  pub ticket : Option ℕ
  pub partial_closed : Bool
  pub entry_time : ℕ

pub data Check : Type 0 where
  check_positions_failed get_history_failed final_close_db_write_failed : Check
  partial_close_volume_validation close_position_partial_failed : Check
  partial_close_db_write_failed continuous_orphan_check : Check
  orphan_position_check_bridge_call orphan_position_target_compute_failed : Check
  orphan_position_heal_failed orphan_trade_record_failed : Check

-- Every event begins with its time stamp. A failed check has the ticket that it is about, if any.
pub data Event : Type 0 where
  safety_check_failed : ℕ → Check → Error → Option ℕ → Event
  partial_close_executed : ℕ → ℕ → PartialClose → Event
  real_trade_closed : ℕ → ℕ → History → Event
  orphan_position_recovered : ℕ → ℕ → Direction → Float → Float → Event
  -- the ticket and the trade
  orphan_trade_recorded : ℕ → ℕ → ℕ → Event

-- What is written through the session before a commit. An update names the trade.
pub data Statement : Type 0 where
  write_event : Event → Statement
  update_trade_partial_close : ℕ → PartialClose → Statement
  update_trade_final_close : ℕ → History → Statement

-- The row that `write_orphan_trade` adds.
pub record OrphanTrade : Type 0 where
  pub position : Position
  pub target_price : Float
  pub entry_time_utc : ℕ
  pub entry_time_ny : ℕ
  pub risk_pct : Float
  pub equity_before : Float

pub record Desk (World : Type 0) : Type 0 where
  pub now : World → ℕ
  pub get_positions : ℕ → World → Reply (List Position) × World
  pub get_position_history : ℕ → World → Reply History × World
  pub close_position_partial : ℕ → Float → World → Reply PartialClose × World
  pub modify_position : ℕ → Float → World → Reply Done × World
  pub get_candles : World → Reply (List Bar) × World
  pub balance : World → Reply Float × World
  pub get_open_real_trades : World → Reply (List OpenTrade) × World
  pub get_current_equity : World → Reply (Option Float) × World
  pub write_orphan_trade : OrphanTrade → World → Reply ℕ × World
  pub execute : Statement → World → Reply Done × World
  pub commit : World → Reply Done × World
  pub rollback : World → World
  -- `datetime.fromisoformat` of a position's `time_utc` and `time_ny`
  pub utc_of : Position → Reply ℕ
  pub ny_of : Position → Reply ℕ

-- What a run does that its surroundings can see: a partial close that the broker made, a transaction
-- that was committed, an alert, a position taken into tracking, an orphan check.
pub data Effect : Type 0 where
  halved : ℕ → Float → Effect
  committed : List Statement → Effect
  recorded : ℕ → ℕ → Effect
  alerted : Event → Effect
  taken : ℕ → Effect
  looked : ℕ → Effect

-- The world of a run and the trace of its effects.
pub record Scene (World : Type 0) : Type 0 where
  pub world : World
  pub trace : List Effect

module _ {World : Type 0} (d : Desk World) where
  abbrev pub leave : Effect → Scene World → Scene World
  leave e s = record s { trace = s.trace ++ e ∷ [] }

  abbrev pub call : {A : Type 0} → (World → Reply A × World) → Scene World → Reply A × Scene World
  call f s = let (r, w) = f s.world in (r, record s { world = w })

  -- `db.rollback()`
  abbrev pub undo : Scene World → Scene World
  undo s = record s { world = d.rollback s.world }

  abbrev pub commit_reply : List Statement → Reply Done → Scene World → Reply Done × Scene World
  commit_reply all (raised e) s = (raised e, s)
  commit_reply all (returned r) s = (returned r, leave (committed all) s)

  -- The statements in order; the first that raises ends it.
  abbrev pub execute_all : List Statement → Reply Done → Scene World → Reply Done × Scene World
  execute_all [] r s = (r, s)
  execute_all (q ∷ rest) (raised e) s = (raised e, s)
  execute_all (q ∷ rest) (returned _) s =
      let (r, s') = call (d.execute q) s in execute_all rest r s'

  abbrev pub then_commit : List Statement → Reply Done → Scene World → Reply Done × Scene World
  then_commit all (raised e) s = (raised e, s)
  then_commit all (returned _) s = let (r, s') = call d.commit s in commit_reply all r s'

  -- The statements and `db.commit()`.
  unfoldable pub transact : List Statement → Scene World → Reply Done × Scene World
  transact all s = let (r, s') = execute_all all (returned done) s in then_commit all r s'
