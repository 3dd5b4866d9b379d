-- ===== src/Lib.antt =====
-- The Bot: a verification library for the trading platform's own logic.
--
-- The program. `phase1/streaming` is the detection engine of the FVG model: classes that are fed one
-- closed bar at a time and return events. `phase1/extract_golden_master.py` is the batch program that
-- the engine restates: it has the whole history in memory and decides a day by loops over arrays.
-- `shadow_runner` polls bars, feeds them to the engine, and hands each `trade_candidate_ready` event
-- to one `OrderManager` for each subscriber, which places and watches real orders through a broker
-- bridge.
--
-- The library, by files.
--   Common            names of the libraries, and helpers: Boolean tests, lists over the native
--                     numbers, `collections.deque(maxlen=k)` (Deque), properties of all elements
--                     (Every), and Python's floats (Floats).
--   Detection/Bars    bars, and the enumerations that the detectors share.
--   Detection/Swings  daily_swing_detector.py and intraday_swing_detector.py; Batch has the pivot
--                     loops of the batch program, Refine and Known relate the two.
--   Detection/Raids   raid_detector.py; Batch has the bisection of the batch program, Latest and
--                     Refine relate the two.
--   Detection/Gaps    fvg_detector.py; Refine has `find_fvg` and relates the two.
--   Detection/Shifts  mss_watch.py; Refine has the bounded loop and relates the two.
--   Detection/Attempt trade_attempt.py; Batch has the search for a fill and an exit, and Extreme,
--                     Open and Refine relate the two.
--   Detection/Orchestrator  day_orchestrator.py; Finalize is about the choice of the day's trade.
--   Detection/Gate    day_selection_gate.py; Trends and Refine are about the trend of the day,
--                     Session about the decision and the bounds of the Kill Zone.
--   Detection/Tests   a concrete day, and the theorems at it.
--   Orders/Broker     what the order manager calls: the bridge, the database and the clock, as a record
--                     of functions on the state of the outside world.
--   Orders/Machine, Placing, Fills, Closes
--                     shadow_runner/order_manager.py: the class's state and events, the placing of
--                     orders, fills and cancellations, closes and the loss threshold.
--   Orders/Sizing, Target
--                     its functions compute_lot_size and compute_target; Target relates the latter to
--                     trade_attempt.py.
--   Orders/View, Quiet, Steps, Consistent, Frozen, Siblings
--                     days of calls as a step relation, what a run is judged by, and the invariants.
--   Orders/Tests      a paper broker and a day of trading on it, and the theorems at it.
--   DayState          shadow_runner/day_state.py; Final is about the time of the decision, Tests has a
--                     morning of bars.
--   Tracking/Desk     what the position tracker calls, as a record of functions on the state of the outside
--                     world, and the trace of what a run does there.
--   Tracking/Orphans  shadow_runner/orphan_recovery.py; Fates, Recovery are about what it does with each
--                     position, by the answers of the broker and of the database.
--   Tracking/Tracker  shadow_runner/position_tracker.py; Trace, Entries, Sound, Steps, Still and Runs
--                     are about the calls of a process in any order, Looks and Spread about the throttle
--                     of its orphan checks, Resolved about one poll.
--   Tracking/Tests    a desk on paper, and the theorems at it.
--   Runner/Hub, Day, Bars, Polling
--                     shadow_runner/runner.py: what it calls and a day's state; one day, from its bars
--                     to its events; the polled candles and the end of a day; what a poll does with the
--                     order managers after the bars.
--   Runner/Narrative, Told, Tale, Whole
--                     what a day tells, and that it is what the day's bars tell.
--   Runner/Alike, Replay
--                     a replayed day against a live one.
--   Runner/Fresh, Kept, Progress, Wedge, Once
--                     which candles are processed, what a day keeps of one, how far a poll comes, a day
--                     whose decision was interrupted, and the polls after a fill.
--   Runner/Tests      a morning that is traded, and the theorems at it.
--   Provisioning      app/routers/broker_credentials.py, internal_provisioning.py and
--                     internal_decommission.py: the life of an account on a machine; Places and Capacity
--                     are about the places of a machine, Tests has two accounts.
--
-- How the state corresponds. An object is a record with the source's fields, without the leading
-- underscore, and a method is a function from the record and its arguments to the new record and the
-- result. A dictionary for an event is a record, and the strings that name alternatives
-- ("bull"/"bear", "pending"/"filled"/…) are constructors. A callback (`event_sink`) is a list of
-- events beside the result, in the order of the calls. `DayOrchestrator.finalize` also closes the
-- winning attempt in place; the object is dropped after that call, and the model returns the trade.
-- The order manager talks to the world, so its methods take and return a machine: the manager, the
-- state of the world, and the journal of the events emitted. A call of the bridge or the database
-- answers with a value or an exception, and the next state of the world; each try block is a function
-- by clauses on the answer. A database read of persistence.py is such a call, its SQL is not modelled.
-- The position tracker is the same, on its own desk; a transaction is its statements and then the commit,
-- and the trace has what the surroundings see (a position halved, a transaction committed, an alert, a
-- position taken into tracking). A method of the runner that may raise returns the reply beside the state
-- that it has left until then, since the object keeps it. The runner's hub has `_write_events_now`,
-- `_write_trade` and `_ensure_position_tracker` as functions that may raise: they only write to the
-- database or read from it, and the state of the trackers is that of the hub.
-- A request of the API is a function on the rows of its table, as one transaction. The claim of a job is
-- two such steps, the count of the machine's accounts and the taking of a row, since the count locks
-- nothing; the second is told which rows are locked, and skips them.
-- The texts of comments, errors and logs are left out, and one time stands for its UTC and New York
-- spellings.
--
-- Floats. A finite float is its place in the increasing order of the finite floats, so comparisons
-- are exact; the arithmetic of Python is a record of functions (Common.Floats.Arith) that the
-- theorems take as an argument. Time stamps are whole numbers, and only the gate, the day
-- state and the clock of the order manager use them.
--
-- Bounds. No definition takes fuel: every loop of the source runs over a list, and the recursion
-- is on that list. Bar indices are unbounded natural numbers, as Python's are.
--
-- Not modelled: the database, HTTP, threads and clocks, beyond the parameters above; logging;
-- the table of meeting dates, which is an argument; loading and resampling of data, the equity curve
-- and the report of the batch program; in the runner, the recovery
-- after a restart and the bootstrap of the trend; the other parts of the repository.
pub mod Common
pub mod Detection
pub mod Orders
pub mod Tracking
pub mod Runner
pub mod DayState
pub mod Provisioning
