-- ===== src/Detection/Gate/Trends.antt =====
-- The trend of the day: the gate, told of every closed day, against `daily_trend_as_of` of
-- phase1/extract_golden_master.py, which looks into the finished history.
use the_bot.Common.{
  ℕ, suc, ◌+◌, ◌≡◌, refl, sym, ◌∙◌, List, [], ◌∷◌, ◌++◌, append_assoc, append-nil, Option, none,
  some, arith, ltb, ◌==◌, ◌&&◌, if◌then◌else◌, length, get_elem?, length-append,
}
use the_bot.Common.Floats.{Float}
use the_bot.Detection.Bars.{Bar, Trend, up, down}
use the_bot.Detection.Swings.{swing_n, level_of, Kind, swing_high, swing_low, Swing, on_new_day}
use the_bot.Detection.Swings.Batch.{pivots}
use the_bot.Detection.Swings.Refine.{Seen, Seen-step, events-step}
use the_bot.Detection.Swings.Known.{known, known-suc}
use the_bot.Detection.Raids.Batch.{same_kind, positions}
use the_bot.Detection.Gate.{Gate, confirmed, record_swings, on_day_closed, last_two}

-- `[i for i in idx if i + PIVOT_N < cutoff]`
unfoldable pub confirmed_before : ℕ → List ℕ → List ℕ
confirmed_before cutoff [] = []
confirmed_before cutoff (i ∷ is) =
    let rest = confirmed_before cutoff is in if ltb (i + swing_n) cutoff then i ∷ rest else rest

abbrev pub lookup_two : Kind → List Bar → Option (ℕ × ℕ) → Option (Float × Float)
lookup_two k days none = none
lookup_two k days (some (i, j)) = elim (get_elem? days i) [
  | none ↦ none
  | some a ↦ elim (get_elem? days j) [ none ↦ none | some b ↦ some (level_of k a, level_of k b) ]
]

-- Higher highs with higher lows; lower highs with lower lows.
abbrev pub verdict : Option (Float × Float) → Option (Float × Float) → Option Trend
verdict (some (h1, h2)) (some (l1, l2)) =
    if ltb h1 h2 && ltb l1 l2 then some up else if ltb h2 h1 && ltb l2 l1 then some down else none
verdict _ _ = none

-- The trend of the day at `cutoff`, from the pivots of the whole history `days`.
unfoldable pub trend_at : List Bar → ℕ → Option Trend
trend_at days cutoff =
    let ch = confirmed_before cutoff (positions swing_high (pivots swing_n days)) in
    let cl = confirmed_before cutoff (positions swing_low (pivots swing_n days)) in
    verdict (lookup_two swing_high days (last_two ch)) (lookup_two swing_low days (last_two cl))

-- `daily.index[daily["ts"].dt.date == trade_date]`: the first of it, counted from `i`; the time of a
-- daily bar is its date.
unfoldable pub index_of_date : ℕ → ℕ → List Bar → Option ℕ
index_of_date trade_date i [] = none
index_of_date trade_date i (d ∷ days) =
    let rest = index_of_date trade_date (suc i) days in
    if d.time == trade_date then some i else rest

abbrev pub trend_of_index : List Bar → Option ℕ → Option Trend
trend_of_index days none = none
trend_of_index days (some cutoff) = trend_at days cutoff

-- The trend of a date, which is none if the history has no such day.
unfoldable pub daily_trend_as_of : List Bar → ℕ → Option Trend
daily_trend_as_of days trade_date = trend_of_index days (index_of_date trade_date 0 days)

-- The gate after it was told of every closed day, the oldest first.
unfoldable pub feed : Gate → List Bar → Gate
feed g [] = g
feed g (d ∷ days) = feed (on_day_closed g d.time d.high d.low).0 days

-- The pairs of the swings of one kind.
unfoldable pub pairs : Kind → List Swing → List (ℕ × Float)
pairs k [] = []
pairs k (e ∷ events) =
    let rest = pairs k events in if same_kind k e.kind then (e.index, e.price) ∷ rest else rest

pub pairs-append : (k : Kind) (xs ys : List Swing) → pairs k (xs ++ ys) ≡ pairs k xs ++ pairs k ys
unfolding pairs
pairs-append k [] ys = refl
pairs-append k (e ∷ xs) ys = ground (arith, pairs-append k xs ys)

swing_det-confirmed :
    (k : Kind) (p : ℕ × Float) (g : Gate) → (confirmed k p g).swing_det ≡ g.swing_det
unfolding confirmed
swing_det-confirmed swing_high p g = refl
swing_det-confirmed swing_low p g = refl

latest-confirmed :
    (k : Kind) (p : ℕ × Float) (g : Gate) (rest : List (ℕ × Float))
    → ((confirmed k p g).confirmed_highs ++ rest
        ≡ g.confirmed_highs ++ (if same_kind swing_high k then p ∷ rest else rest))
      × ((confirmed k p g).confirmed_lows ++ rest
          ≡ g.confirmed_lows ++ (if same_kind swing_low k then p ∷ rest else rest))
unfolding confirmed
latest-confirmed swing_high p g rest = (append_assoc g.confirmed_highs (p ∷ []) rest, refl)
latest-confirmed swing_low p g rest = (refl, append_assoc g.confirmed_lows (p ∷ []) rest)

record_swings-pairs :
    (g : Gate) (events : List Swing)
    → ((record_swings g events).confirmed_highs ≡ g.confirmed_highs ++ pairs swing_high events)
      × ((record_swings g events).confirmed_lows ≡ g.confirmed_lows ++ pairs swing_low events)
      × ((record_swings g events).swing_det ≡ g.swing_det)
unfolding record_swings pairs
record_swings-pairs g [] = (sym (append-nil _), sym (append-nil _), refl)
record_swings-pairs g (e ∷ events) =
    let g' = confirmed e.kind (e.index, e.price) g in
    let (h, l, d) = record_swings-pairs g' events in
    (
      h ∙ (latest-confirmed e.kind (e.index, e.price) g (pairs swing_high events)).0,
      l ∙ (latest-confirmed e.kind (e.index, e.price) g (pairs swing_low events)).1,
      d ∙ swing_det-confirmed e.kind (e.index, e.price) g,
    )

-- The gate holds the swings that are known when `t` days of `all` have closed.
pub record Holds (all past : List Bar) (g : Gate) : Type 0 where
  pub seen : Seen swing_n past g.swing_det
  pub highs : g.confirmed_highs ≡ pairs swing_high (known all (length past))
  pub lows : g.confirmed_lows ≡ pairs swing_low (known all (length past))

Holds-step :
    (past : List Bar) (b : Bar) (bars : List Bar) (g : Gate)
    → Holds (past ++ b ∷ bars) past g
    → Holds (past ++ b ∷ bars) (past ++ b ∷ []) (on_day_closed g b.time b.high b.low).0
unfolding on_day_closed
Holds-step past b bars g h =
    let all = past ++ b ∷ bars in
    let (det, events) = on_new_day g.swing_det b.time b.high b.low in
    let size : length (past ++ b ∷ []) ≡ suc (length past) =
      omega (arith, length-append past (b ∷ [])) in
    let (hs, ls, d) = record_swings-pairs (record g { swing_det = det }) events in
    let grown = known-suc past b bars in
    record {
      seen = rw d (Seen-step h.seen b);
      highs =
          hs ∙ rw (h.highs, events-step h.seen b, size, grown) (sym (pairs-append swing_high _ _));
      lows = ls ∙ rw (h.lows, events-step h.seen b, size, grown) (sym (pairs-append swing_low _ _));
    }

pub feed-Holds :
    (past bars : List Bar) (g : Gate) (later : List Bar)
    → Holds (past ++ (bars ++ later)) past g
    → Holds (past ++ (bars ++ later)) (past ++ bars) (feed g bars)
unfolding feed
feed-Holds past [] g later h = rw (append-nil past) h
feed-Holds past (b ∷ bars) g later h =
    let now = past ++ b ∷ [] in
    let joined : now ++ (bars ++ later) ≡ past ++ b ∷ (bars ++ later) =
      append_assoc past (b ∷ []) (bars ++ later) in
    let step = Holds-step past b (bars ++ later) g h in
    let g' = (on_day_closed g b.time b.high b.low).0 in
    let step' : Holds (now ++ (bars ++ later)) now g' = rw joined step in
    let rest = feed-Holds now bars g' later step' in
    rw (append_assoc past (b ∷ []) bars) at (rw joined at rest)
