-- ===== src/Detection/Attempt.antt =====
-- phase1/streaming/trade_attempt.py: what happens to one gap once it is found.
pub mod Batch
pub mod Extreme
pub mod Open
pub mod Refine
use the_bot.Common.{
  ℕ, Bool, true, false, List, [], ◌∷◌, Option, none, some, ltb, leb, if◌then◌else◌, length,
}
use the_bot.Common.Floats.{Float, Arith}
use the_bot.Common.Deque.{last, push}
use the_bot.Detection.Bars.{Direction, long, short}
use the_bot.Detection.Gaps.{Frame}

pub data Status : Type 0 where
  pending rejected_min_stop filled abandoned closed : Status

pub data Outcome : Type 0 where
  loss win scratch : Outcome

pub record Attempt : Type 0 where
  pub direction : Direction
  pub entry_price : Float
  pub stop : Float
  pub fvg_bar_index : ℕ
  pub target : Option Float
  pub status : Status
  pub outcome : Option Outcome
  pub exit_price : Option Float
  pub fill_bar_index : Option ℕ
  pub recent_bars : List Frame
  pub risk_pips : Float

-- The events `order_filled` and `trade_closed`.
pub record Fill : Type 0 where
  pub timestamp : ℕ
  pub direction : Direction
  pub entry : Float
  pub stop : Float
  pub target : Float
  pub fill_bar_index : ℕ

pub record Close : Type 0 where
  pub timestamp : ℕ
  pub direction : Direction
  pub outcome : Outcome
  pub exit_price : Float

pub data Event : Type 0 where
  order_filled : Fill → Event
  trade_closed : Close → Event

abbrev pub target_lookback_bars : ℕ
target_lookback_bars = 6

unfoldable pub is_active : Attempt → Bool
is_active a = elim a.status [ pending ↦ true | filled ↦ true | _ ↦ false ]

-- Python's `max(bars, key=high)` and `min(bars, key=low)`: the first of the extreme bars.
abbrev pub highest_from : Frame → List Frame → Frame
highest_from best [] = best
highest_from best (b ∷ bars) = highest_from (if ltb best.high b.high then b else best) bars

abbrev pub lowest_from : Frame → List Frame → Frame
lowest_from best [] = best
lowest_from best (b ∷ bars) = lowest_from (if ltb b.low best.low then b else best) bars

unfoldable pub extreme : Direction → List Frame → Option Frame
extreme direction [] = none
extreme long (b ∷ bars) = some (highest_from b bars)
extreme short (b ∷ bars) = some (lowest_from b bars)

-- The bar reaches the entry price; the target lies beyond it.
abbrev pub touched : Direction → Float → Float → Float → Bool
touched long entry high low = leb low entry
touched short entry high low = leb entry high

abbrev pub valid : Direction → Float → Float → Bool
valid long target entry = ltb entry target
valid short target entry = ltb target entry

-- The stop is tested first, then the target. (A filled attempt has a target.)
unfoldable pub exit_of : Direction → Float → Option Float → Float → Float → Option (Outcome × Float)
exit_of long stop target high low =
    if leb low stop
    then some (loss, stop)
    else elim target [ none ↦ none | some t ↦ if leb t high then some (win, t) else none ]
exit_of short stop target high low =
    if leb stop high
    then some (loss, stop)
    else elim target [ none ↦ none | some t ↦ if leb low t then some (win, t) else none ]

abbrev pub closed_with : Attempt → ℕ → Option (Outcome × Float) → Attempt × Option Close
closed_with a timestamp none = (a, none)
closed_with a timestamp (some (o, price)) = (
  record a { outcome = some o; exit_price = some price; status = closed },
  some (record { timestamp = timestamp; direction = a.direction; outcome = o; exit_price = price }),
)

-- `outcome` is none until this sets it, so that a call closes exactly if it finds an exit.
unfoldable pub check_close : Attempt → ℕ → Float → Float → Attempt × Option Close
unfolding exit_of
check_close a timestamp high low =
    closed_with a timestamp (exit_of a.direction a.stop a.target high low)

abbrev pub closing : Option Close → List Event
closing none = []
closing (some c) = trade_closed c ∷ []

-- `close_as_scratch`
unfoldable pub close_as_scratch : Attempt → ℕ → Float → Attempt × Option Close
close_as_scratch a timestamp final_close = elim a.status [
  | filled ↦ (
    record a { status = closed; outcome = some scratch; exit_price = some final_close },
    some (record {
      timestamp = timestamp;
      direction = a.direction;
      outcome = scratch;
      exit_price = final_close;
    }),
  )
  | _ ↦ (a, none)
]

module _ (fl : Arith) where
  -- `__init__`: the risk decides whether the attempt is rejected at once.
  unfoldable pub risk_of : Direction → Float → Float → Float
  risk_of long entry stop = fl.sub entry stop
  risk_of short entry stop = fl.sub stop entry

  unfoldable pub init : Direction → Float → Float → ℕ → List Frame → Attempt
  unfolding risk_of
  init direction entry stop fvg_bar_index seed_bars =
      let risk_pips = fl.div (risk_of direction entry stop) fl.pip in
      record {
        direction = direction;
        entry_price = entry;
        stop = stop;
        fvg_bar_index = fvg_bar_index;
        target = none;
        status = if ltb risk_pips fl.five then rejected_min_stop else pending;
        outcome = none;
        exit_price = none;
        fill_bar_index = none;
        recent_bars = last target_lookback_bars seed_bars;
        risk_pips = risk_pips;
      }

  abbrev pub mid : Float → Float → Float
  mid a b = fl.div (fl.add a b) fl.two

  -- A touch fills the order at a valid target, and the bar of the fill may close the trade.
  unfoldable pub fill : Attempt → ℕ → ℕ → Float → Float → Frame → Attempt × List Event
  unfolding check_close
  fill a timestamp bar_index high low e =
      let target = mid e.high e.low in
      let opened = record a {
        target = some target;
        status = filled;
        fill_bar_index = some bar_index;
      } in
      let (a', close) = check_close opened timestamp high low in
      if valid a.direction target a.entry_price
      then (
        a',
        order_filled (record {
          timestamp = timestamp;
          direction = a.direction;
          entry = a.entry_price;
          stop = a.stop;
          target = target;
          fill_bar_index = bar_index;
        })
            ∷ closing close,
      )
      else (record a { status = abandoned }, [])

  unfoldable pub touch : Attempt → ℕ → ℕ → Float → Float → Option Frame → Attempt × List Event
  unfolding fill
  touch a timestamp bar_index high low none = (record a { status = abandoned }, [])
  touch a timestamp bar_index high low (some e) =
      if ltb (length a.recent_bars) target_lookback_bars
      then (record a { status = abandoned }, [])
      else fill a timestamp bar_index high low e

  unfoldable pub on_pending : Attempt → ℕ → ℕ → Float → Float → Attempt × List Event
  unfolding touch extreme
  on_pending a timestamp bar_index high low =
      if touched a.direction a.entry_price high low
      then touch a timestamp bar_index high low (extreme a.direction a.recent_bars)
      else (
        record a {
          recent_bars =
              push target_lookback_bars a.recent_bars
                (record { bar_index = bar_index; high = high; low = low });
        },
        [],
      )

  unfoldable pub on_new_bar : Attempt → ℕ → ℕ → Float → Float → Attempt × List Event
  unfolding on_pending check_close
  on_new_bar a timestamp bar_index high low = elim a.status [
    | pending ↦ on_pending a timestamp bar_index high low
    | filled ↦ let (a', close) = check_close a timestamp high low in (a', closing close)
    | _ ↦ (a, [])
  ]
