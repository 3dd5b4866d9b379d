-- ===== src/Detection/Orchestrator.antt =====
-- phase1/streaming/day_orchestrator.py: the five components over one trading day. A method returns
-- the events that it hands to `event_sink`, in order, beside the new state.
pub mod Finalize
use the_bot.Common.{
  ℕ, suc, ◌&&◌, Bool, true, false, List, [], ◌∷◌, ◌++◌, Option, none, some, map, to_list, ltb, leb,
  ◌==◌, if◌then◌else◌,
}
use the_bot.Common.Floats.{Float, Arith}
use the_bot.Common.Deque.{last}
use the_bot.Detection.Bars.{Trend, Side, bull, bear, Direction, long, short}
use the_bot.Detection.Swings as Swings
use the_bot.Detection.Swings.{Swing}
use the_bot.Detection.Raids as Raids
use the_bot.Detection.Raids.{Raid, RaidDetector}
use the_bot.Detection.Gaps as Gaps
use the_bot.Detection.Gaps.{Frame, Gap, GapDetector}
use the_bot.Detection.Shifts as Shifts
use the_bot.Detection.Shifts.{Watch, Shift}
use the_bot.Detection.Attempt as Attempt
use the_bot.Detection.Attempt.{
  Attempt, Outcome, filled, closed, rejected_min_stop, target_lookback_bars, mid, is_active, init,
  close_as_scratch, trade_closed,
}

pub record Candidate : Type 0 where
  pub raid_bar : ℕ
  pub watch : Watch

-- An attempt with its key `(raid_bar, mss_bar)`.
pub record Keyed : Type 0 where
  pub raid_bar : ℕ
  pub mss_bar : ℕ
  pub attempt : Attempt

pub record Ready : Type 0 where
  pub timestamp : ℕ
  pub direction : Direction
  pub entry : Float
  pub stop : Float
  pub raid_bar : ℕ
  pub mss_bar : ℕ

pub data Event : Type 0 where
  swing_confirmed : Swing → Event
  raid_detected : Raid → Event
  mss_confirmed : Shift → Event
  fvg_found : Gap → Event
  -- its time stamp, its direction and its `risk_pips`
  fvg_rejected_min_stop : ℕ → Side → Float → Event
  trade_candidate_ready : Ready → Event
  attempt_event : Attempt.Event → Event

pub record Day : Type 0 where
  pub trend : Trend
  pub session_start_idx : ℕ
  pub session_end_idx : ℕ
  pub swing_det : Swings.Detector
  pub raid_det : RaidDetector
  pub fvg_det : GapDetector
  pub candidates : List Candidate
  pub attempts : List Keyed
  pub recent_bars : List Frame

unfoldable pub new : Trend → ℕ → ℕ → Day
new trend session_start_idx session_end_idx = record {
  trend = trend;
  session_start_idx = session_start_idx;
  session_end_idx = session_end_idx;
  swing_det = Swings.start_new_day (Swings.new 2);
  raid_det = Raids.start_new_day Raids.new;
  fvg_det = Gaps.new;
  candidates = [];
  attempts = [];
  recent_bars = [];
}

-- `next(b for b in bars if b[0] == frame_idx)`
unfoldable pub frame_of : List Frame → ℕ → Option Frame
frame_of [] frame_idx = none
frame_of (b ∷ bars) frame_idx = if b.bar_index == frame_idx then some b else frame_of bars frame_idx

abbrev pub direction_of : Side → Direction
direction_of bull = long
direction_of bear = short

abbrev pub stop_of : Direction → Frame → Float
stop_of long f = f.low
stop_of short f = f.high

module _ (fl : Arith) where
  -- Step 1: every live attempt is shown the bar.
  unfoldable pub feed_attempts : ℕ → ℕ → Float → Float → List Keyed → List Keyed × List Event
  feed_attempts timestamp bar_index high low [] = ([], [])
  feed_attempts timestamp bar_index high low (k ∷ attempts) =
      let (rest, later) = feed_attempts timestamp bar_index high low attempts in
      let (a, events) = Attempt.on_new_bar fl k.attempt timestamp bar_index high low in
      if is_active k.attempt
      then (record k { attempt = a } ∷ rest, map attempt_event events ++ later)
      else (k ∷ rest, later)

  -- The attempt that a gap starts, or its rejection.
  unfoldable pub enter : ℕ → Shift → ℕ → Float → Attempt → List Keyed × List Event
  enter timestamp shift raid_bar stop attempt = elim attempt.status [
    | rejected_min_stop ↦ ([], fvg_rejected_min_stop timestamp shift.side attempt.risk_pips ∷ [])
    | _ ↦ (
      record { raid_bar = raid_bar; mss_bar = shift.mss_bar_index; attempt = attempt } ∷ [],
      trade_candidate_ready (record {
        timestamp = timestamp;
        direction = direction_of shift.side;
        entry = attempt.entry_price;
        stop = stop;
        raid_bar = raid_bar;
        mss_bar = shift.mss_bar_index;
      })
          ∷ [],
    )
  ]

  -- What one confirmed shift spawns. (`next` raises if the frame is gone; the gap's frame candle is
  -- two bars back, and the buffer has six bars.)
  unfoldable pub spawn_gap : ℕ → ℕ → List Frame → ℕ → Shift → Option Gap → List Keyed × List Event
  unfolding enter
  spawn_gap timestamp bar_index recent raid_bar shift none = ([], [])
  spawn_gap timestamp bar_index recent raid_bar shift (some gap) =
      let direction = direction_of shift.side in
      elim (frame_of recent gap.frame_idx) [
        | none ↦ ([], fvg_found gap ∷ [])
        | some frame ↦
            let stop = stop_of direction frame in
            let attempt = init fl direction (mid fl gap.top gap.bottom) stop bar_index recent in
            let (keyed, events) = enter timestamp shift raid_bar stop attempt in
            (keyed, fvg_found gap ∷ events)
      ]

  unfoldable pub spawn_shifts :
      GapDetector → ℕ → ℕ → List Frame → ℕ → List Shift → List Keyed × List Event
  unfolding spawn_gap
  spawn_shifts det timestamp bar_index recent raid_bar [] = ([], [])
  spawn_shifts det timestamp bar_index recent raid_bar (shift ∷ shifts) =
      let gap = Gaps.check_fvg det timestamp shift.side in
      let (keyed, events) = spawn_gap timestamp bar_index recent raid_bar shift gap in
      let (more, later) = spawn_shifts det timestamp bar_index recent raid_bar shifts in
      (keyed ++ more, mss_confirmed shift ∷ (events ++ later))

  -- Step 2: every live watch is shown the bar.
  unfoldable pub feed_watches :
      GapDetector → ℕ → ℕ → Float → List Frame → List Candidate → List Keyed × List Event
  unfolding spawn_shifts
  feed_watches det timestamp bar_index close recent [] = ([], [])
  feed_watches det timestamp bar_index close recent (c ∷ candidates) =
      let (more, later) = feed_watches det timestamp bar_index close recent candidates in
      let shifts = Shifts.on_new_bar c.watch timestamp bar_index close in
      let (keyed, events) = spawn_shifts det timestamp bar_index recent c.raid_bar shifts in
      if Shifts.is_expired c.watch bar_index
      then (more, later)
      else (keyed ++ more, events ++ later)

  -- Step 3: every raid starts a candidate of its own.
  abbrev pub candidate_of : Raid → Candidate
  candidate_of r = record {
    raid_bar = r.bar_index;
    watch = record {
      raid_bar_index = r.bar_index;
      side = r.side;
      reference_level = r.mss_reference_level;
    };
  }

  unfoldable pub on_new_bar : Day → ℕ → ℕ → Float → Float → Float → Day × List Event
  on_new_bar day timestamp bar_index high low close =
      let frame : Frame = record { bar_index = bar_index; high = high; low = low } in
      let recent = last target_lookback_bars (day.recent_bars ++ frame ∷ []) in
      let (swing_det, swings) = Swings.on_new_bar day.swing_det timestamp high low in
      let fvg_det = Gaps.on_new_bar day.fvg_det bar_index high low in
      let (attempts, fed) = feed_attempts timestamp bar_index high low day.attempts in
      let (spawned, seen) = feed_watches fvg_det timestamp bar_index close recent day.candidates in
      let in_kz = leb day.session_start_idx bar_index && ltb bar_index day.session_end_idx in
      let (raid_det, raids) =
        Raids.on_new_bar day.raid_det timestamp bar_index high low day.trend in_kz swings in
      (
        record day {
          recent_bars = recent;
          swing_det = swing_det;
          fvg_det = fvg_det;
          attempts = attempts ++ spawned;
          raid_det = raid_det;
          candidates = day.candidates ++ map candidate_of raids;
        },
        map swing_confirmed swings ++ (fed ++ (seen ++ map raid_detected raids)),
      )

-- An attempt that filled, whatever came of it.
unfoldable pub has_filled : Keyed → Bool
has_filled k = elim k.attempt.status [ closed ↦ true | filled ↦ true | _ ↦ false ]

unfoldable pub filled_of : List Keyed → List Keyed
unfolding has_filled
filled_of [] = []
filled_of (k ∷ ks) = let rest = filled_of ks in if has_filled k then k ∷ rest else rest

-- Python's order of tuples.
unfoldable pub key_lt : Keyed → Keyed → Bool
key_lt a b =
    if ltb a.raid_bar b.raid_bar
    then true
    else if ltb b.raid_bar a.raid_bar
    then false
    else ltb a.mss_bar b.mss_bar

-- `min(filled, key=…)`: the first of the least.
unfoldable pub least_from : Keyed → List Keyed → Keyed
unfolding key_lt
least_from best [] = best
least_from best (k ∷ ks) = least_from (if key_lt k best then k else best) ks

unfoldable pub winner_of : List Keyed → Option Keyed
unfolding least_from
winner_of [] = none
winner_of (k ∷ ks) = some (least_from k ks)

pub record Trade : Type 0 where
  pub direction : Direction
  pub entry : Float
  pub stop : Float
  pub target : Option Float
  pub risk_pips : Float
  pub outcome : Option Outcome
  pub exit_price : Option Float

abbrev pub trade_of : Attempt → Trade
trade_of a = record {
  direction = a.direction;
  entry = a.entry_price;
  stop = a.stop;
  target = a.target;
  risk_pips = a.risk_pips;
  outcome = a.outcome;
  exit_price = a.exit_price;
}

unfoldable pub finalize : Day → ℕ → Float → Option Trade × List Event
finalize day last_timestamp final_close = elim (winner_of (filled_of day.attempts)) [
  | none ↦ (none, [])
  | some w ↦
      let (a, scratch) = close_as_scratch w.attempt last_timestamp final_close in
      (some (trade_of a), map (λ c. attempt_event (trade_closed c)) (to_list scratch))
]
