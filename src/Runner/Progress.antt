-- ===== src/Runner/Progress.antt =====
-- How far the runner has come: a poll never goes back, and one that returns has processed all that was
-- closed: `poll_once` of shadow_runner/runner.py, up to the bars.
use mathlib.Core.Path.{subst}
use the_bot.Common.{
  ℕ, ◌/◌, ◌≤◌, ◌≡◌, ◌⊎◌, refl, sym, inl, inr, Bool, true, false, List, [], ◌∷◌, Option, none, some,
  arith, ltb, ◌==◌, if◌then◌else◌, All,
}
use the_bot.Common.Floats.{Float, Arith}
use the_bot.Detection.Bars.{Bar}
use the_bot.DayState.{last_bar}
use the_bot.Orders.Broker.{Reply, raised, returned, done}
use the_bot.Orders.Sizing.{Rounding}
use the_bot.Runner.Hub.{DayRun, new_day, Hub, Outcome, and_then}
use the_bot.Runner.Alike.{HasReturned, and_then-HasReturned}
use the_bot.Runner.Bars.{
  Runner, filter_new_closed_bars, close_simulation, cancel_pending, close_range, range_then,
  finalize_day, take, to_day, process_bar, process_bars, candles_reply, poll_bars,
}
use the_bot.Runner.Kept.{Processes, process_bars-Processes}
use the_bot.Runner.Fresh.{
  IsForming, IsNoEarlier, IsReached, IsLater, IsSorted, IfNew, IfNew-IsOldOr, All-weaken,
  filter_new_closed_bars-IfNew,
}

module _ {World : Type 0} (hub : Hub World) (fl : Arith) (ro : Rounding) where
  -- The call leaves `last_processed` as it is.
  abbrev Keeps : Option ℕ → Outcome (Runner × World) → Type 0
  Keeps last o = o.1.0.last_processed ≡ last

  take-Keeps :
      (fomc_dates : List ℕ) (b : Bar) (d : DayRun) (r : Runner) (w : World)
      → Keeps r.last_processed (take hub fl ro fomc_dates b d (r, w))
  take-Keeps fomc_dates b d r w = refl

  finalize_day-Keeps :
      (r : Runner) (d : DayRun) (w : World) → Keeps r.last_processed (finalize_day hub fl ro r d w)
  unfolding finalize_day
  finalize_day-Keeps r d w = ranged (
      and_then (close_simulation hub fl ro d.orchestrator (last_bar d.day.bars) (d, w))
        (cancel_pending hub fl ro))
    where
      ranged : (o : Outcome (DayRun × World)) → Keeps r.last_processed (range_then hub fl ro r o)
      ranged (raised x, t) = refl
      ranged (returned x, (e, v)) = closed e.day.day_high e.day.day_low
        where
          closed :
              (h l : Option Float) → Keeps r.last_processed (close_range hub fl ro h l r (e, v))
          closed none l = refl
          closed (some h) none = refl
          closed (some h) (some l) = refl

  then_take-Keeps :
      (last : Option ℕ) (fomc_dates : List ℕ) (b : Bar) (d : DayRun) (o : Outcome (Runner × World))
      → Keeps last o
      → Keeps last (and_then o (take hub fl ro fomc_dates b d))
  then_take-Keeps last fomc_dates b d (raised x, s) h = h
  then_take-Keeps last fomc_dates b d (returned x, s) h = h

  if-Keeps :
      (last : Option ℕ) (c : Bool) (o o' : Outcome (Runner × World))
      → Keeps last o
      → Keeps last o'
      → Keeps last (if c then o else o')
  if-Keeps last true o o' h h' = h
  if-Keeps last false o o' h h' = h'

  to_day-Keeps :
      (fomc_dates : List ℕ) (b : Bar) (day : Option DayRun) (r : Runner) (w : World)
      → Keeps r.last_processed (to_day hub fl ro fomc_dates b day (r, w))
  to_day-Keeps fomc_dates b none r w =
      if-Keeps r.last_processed (ltb (b.time / 1440) (hub.now w / 1440)) (returned done, (r, w))
        (take hub fl ro fomc_dates b (new_day (b.time / 1440)) (r, w)) refl refl
  to_day-Keeps fomc_dates b (some d) r w =
      if-Keeps r.last_processed (b.time / 1440 == d.day.date) (take hub fl ro fomc_dates b d (r, w))
        (and_then (finalize_day hub fl ro r d w)
          (take hub fl ro fomc_dates b (new_day (b.time / 1440))))
        refl
        (then_take-Keeps r.last_processed fomc_dates b (new_day (b.time / 1440))
          (finalize_day hub fl ro r d w) (finalize_day-Keeps r d w))

  process_bar-Keeps :
      (fomc_dates : List ℕ) (b : Bar) (r : Runner) (w : World)
      → Keeps r.last_processed (process_bar hub fl ro fomc_dates b (r, w))
  unfolding process_bar
  process_bar-Keeps fomc_dates b r w = to_day-Keeps fomc_dates b r.current_day r w

  -- A time that is reached, and no later than any of the bars, remains reached.
  process_bars-IsReached :
      (fomc_dates : List ℕ) (bars : List Bar) (r : Runner) (w : World) (time : ℕ)
      → IsReached r.last_processed time
      → IsSorted bars
      → All (λ (b : Bar). time ≤ b.time) bars
      → IsReached (process_bars hub fl ro fomc_dates bars (r, w)).1.0.last_processed time
  unfolding process_bars
  process_bars-IsReached fomc_dates [] r w time h sorted late = h
  process_bars-IsReached fomc_dates (b ∷ bars) r w time h sorted late =
      after (process_bar hub fl ro fomc_dates b (r, w)) (process_bar-Keeps fomc_dates b r w) (λ t.
        process_bars-IsReached fomc_dates bars (record t.0 { last_processed = some b.time }) t.1
          time late.0 sorted.1 late.1)
    where
      after :
          (o : Outcome (Runner × World))
          → Keeps r.last_processed o
          → ((t : Runner × World)
              → IsReached
                  (process_bars hub fl ro fomc_dates bars
                    (record t.0 { last_processed = some b.time }, t.1)).1.0.last_processed
                  time)
          → IsReached
              (and_then o λ t.
                process_bars hub fl ro fomc_dates bars
                  (record t.0 { last_processed = some b.time }, t.1)).1.0.last_processed
              time
      after (raised x, s) k go = subst (λ l. IsReached l time) (sym k) h
      after (returned x, s) k go = go s

  -- Bars in order that have all been processed are all reached.
  process_bars-All :
      (fomc_dates : List ℕ) (bars : List Bar) (r : Runner) (w : World)
      → IsSorted bars
      → HasReturned (process_bars hub fl ro fomc_dates bars (r, w))
      → All
          (λ (b : Bar).
            IsReached (process_bars hub fl ro fomc_dates bars (r, w)).1.0.last_processed b.time)
          bars
  unfolding process_bars
  process_bars-All fomc_dates [] r w sorted back = tt
  process_bars-All fomc_dates (b ∷ bars) r w sorted back =
      let o = process_bar hub fl ro fomc_dates b (r, w) in
      let go = λ (t : Runner × World).
        process_bars hub fl ro fomc_dates bars (record t.0 { last_processed = some b.time }, t.1) in
      let (_, rest, is) = and_then-HasReturned o go back in
      let r' = record o.1.0 { last_processed = some b.time } in
      subst
        (λ (t : Runner × World). All (λ (c : Bar). IsReached t.0.last_processed c.time) (b ∷ bars))
        (sym is)
        (
          process_bars-IsReached fomc_dates bars r' o.1.1 b.time (omega arith) sorted.1 sorted.0,
          process_bars-All fomc_dates bars r' o.1.1 sorted.1 rest,
        )

  -- Both for the bars of a poll and for what was reached before it.
  fresh-IsReached :
      (fomc_dates : List ℕ) (now : ℕ) (candles : List Bar) (r : Runner) (w : World) (time : ℕ)
      → IsReached r.last_processed time
      → IsReached
          (process_bars hub fl ro fomc_dates
            (filter_new_closed_bars r.last_processed now candles)
            (r, w)).1.0.last_processed
          time
  fresh-IsReached fomc_dates now candles r w time h =
      let (sorted, (_, holds)) =
        filter_new_closed_bars-IfNew r.last_processed now candles (λ (b : Bar). time ≤ b.time) in
      process_bars-IsReached fomc_dates (filter_new_closed_bars r.last_processed now candles) r w
        time h sorted (holds (every candles))
    where
      later :
          (last : Option ℕ) (b : Bar) → IsReached last time → IsLater last b.time → time ≤ b.time
      later none b h l = absurd h
      later (some last) b h l = omega arith

      every : (cs : List Bar) → All (IfNew r.last_processed now (λ (b : Bar). time ≤ b.time)) cs
      every [] = tt
      every (b ∷ cs) = (λ c l. later r.last_processed b h l, every cs)

  -- Every bar is still forming at `now` or reached.
  abbrev pub ReachedAll : ℕ → List Bar → Option ℕ → Type 0
  ReachedAll now bars last = All (λ (b : Bar). IsForming now b ⊎ IsReached last b.time) bars

  All-ReachedAll :
      (now : ℕ) (last last' : Option ℕ) (bars : List Bar)
      → ((time : ℕ) → IsReached last time → IsReached last' time)
      → All (IfNew last now (λ (b : Bar). IsReached last' b.time)) bars
      → ReachedAll now bars last'
  All-ReachedAll now last last' bars keep h =
      All-weaken (IfNew last now (λ (b : Bar). IsReached last' b.time))
        (λ (b : Bar). IsForming now b ⊎ IsReached last' b.time) bars
        (λ b new. elim ((IfNew-IsOldOr last now (λ (c : Bar). IsReached last' c.time) b).0 new) [
          | inl forming ↦ inl forming
          | inr (inl reached) ↦ inr (keep b.time reached)
          | inr (inr reached) ↦ inr reached
        ])
        h

  not_back :
      (last last' : Option ℕ)
      → ((time : ℕ) → IsReached last time → IsReached last' time)
      → IsNoEarlier last last'
  not_back none last' keep = tt
  not_back (some l) last' keep = keep l (omega arith)

  -- A poll that the bridge answers and that nothing interrupts has processed, in turn, the new closed
  -- candles: each is passed over, if there is no day and its date is before today's, or taken by the day
  -- of its date, whose range then covers it, whose last bar it is if it is a session bar, and which is
  -- decided then if it is one at or after 10:00. Every candle that is not still forming when the poll begins is then no later than the last bar that counts
  -- as processed, which is no earlier than before.
  pub poll_bars-IsReached :
      (fomc_dates : List ℕ) (fetch_count : ℕ) (candles : List Bar) (r : Runner) (w : World)
      → (hub.get_candles fetch_count w).0 ≡ returned candles
      → HasReturned (poll_bars hub fl ro fomc_dates fetch_count (r, w))
      → ReachedAll
          (hub.now w)
          candles
          (poll_bars hub fl ro fomc_dates fetch_count (r, w)).1.0.last_processed
        × IsNoEarlier r.last_processed
            (poll_bars hub fl ro fomc_dates fetch_count (r, w)).1.0.last_processed
        × Processes hub fl ro
            (filter_new_closed_bars r.last_processed (hub.now w) candles)
            (r, (hub.get_candles fetch_count w).1)
            (poll_bars hub fl ro fomc_dates fetch_count (r, w)).1
  unfolding poll_bars
  poll_bars-IsReached fomc_dates fetch_count candles r w answer =
      answered (hub.get_candles fetch_count w).0 (hub.get_candles fetch_count w).1 answer
    where
      answered :
          (reply : Reply (List Bar)) (w' : World)
          → reply ≡ returned candles
          → HasReturned (candles_reply hub fl ro fomc_dates (hub.now w) reply (r, w'))
          → ReachedAll
              (hub.now w)
              candles
              (candles_reply hub fl ro fomc_dates (hub.now w) reply (r, w')).1.0.last_processed
            × IsNoEarlier r.last_processed
                (candles_reply hub fl ro fomc_dates (hub.now w) reply (r, w')).1.0.last_processed
            × Processes hub fl ro
                (filter_new_closed_bars r.last_processed (hub.now w) candles)
                (r, w')
                (candles_reply hub fl ro fomc_dates (hub.now w) reply (r, w')).1
      answered (raised x) w' is back = cc
      answered (returned cs) w' is back =
          let same : cs ≡ candles = cc in
          let now = hub.now w in
          let bars = filter_new_closed_bars r.last_processed now cs in
          let last = (process_bars hub fl ro fomc_dates bars (r, w')).1.0.last_processed in
          let (sorted, (holds, _)) =
            filter_new_closed_bars-IfNew r.last_processed now cs
              (λ (b : Bar). IsReached last b.time) in
          let keep = λ (time : ℕ). fresh-IsReached fomc_dates now cs r w' time in
          (
            subst (λ ds. ReachedAll now ds last) same
                (All-ReachedAll now r.last_processed last cs keep
                  (holds (process_bars-All fomc_dates bars r w' sorted back))),
            not_back r.last_processed last keep,
            subst
                (λ ds.
                  Processes hub fl ro (filter_new_closed_bars r.last_processed now ds) (r, w')
                    (process_bars hub fl ro fomc_dates bars (r, w')).1)
                same (process_bars-Processes hub fl ro fomc_dates bars (r, w') back),
          )
