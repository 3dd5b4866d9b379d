-- ===== src/Tracking/Tests.antt =====
-- A desk on paper, and the theorems of position tracking at it.
use the_bot.Common.{◌*◌, ℕ, ◌≡◌, refl, Bool, true, false, List, [], ◌∷◌, none, some, if◌then◌else◌}
use the_bot.Common.Floats.{half_points}
use the_bot.Common.Deque.{last}
use the_bot.Orders.Target.{compute_target}
use the_bot.Detection.Bars.{long}
use the_bot.Orders.Broker.{raised, returned, raised_with, done, Position, History, stop_loss}
use the_bot.Tracking.Desk.{PartialClose, OpenTrade, Desk, Statement, update_trade_partial_close}
use the_bot.Tracking.Orphans.{check_for_orphaned_positions}
use the_bot.Tracking.Tracker.{
  minute, Post, register_new_position, load_from_db, check_positions, check_for_orphans,
}
use the_bot.Tracking.Trace.{halvings, looks}
use the_bot.Tracking.Spread.{IsSpread, Run-IsSpread}
use the_bot.Tracking.Entries.{entries}
use the_bot.Tracking.Sound.{Sound}
use the_bot.Tracking.Runs.{Run, opened, start, after, checks, orphans, loads, elapses, Run-Sound}
use the_bot.Tracking.Resolved.{IsResponsive, check_positions_resolved}
use the_bot.Tracking.Fates.{Treats}
use the_bot.Tracking.Recovery.{check_for_orphaned_positions-Treats}

-- The clock, what the broker lists, the rows of the database, and whether it takes partial closes.
record Paper : Type 0 where
  time : ℕ
  positions : List Position
  rows : List OpenTrade
  takes_partial : Bool

abbrev history : History
history = record {
  is_closed = true;
  close_price = some 600;
  close_time = some (1500 * minute);
  profit = none;
  close_reason = some stop_loss;
}

abbrev part : PartialClose
part = record { close_price = 1000; closed_volume = 2; remaining_volume = 2; time = 1020 * minute }

abbrev accepts : Statement → Paper → Bool
accepts (update_trade_partial_close _ _) w = w.takes_partial
accepts _ w = true

abbrev paper : Desk Paper
paper = record {
  now = λ w. w.time;
  get_positions = λ magic w. (returned w.positions, w);
  get_position_history = λ t w. (returned history, w);
  close_position_partial = λ t v w. (returned part, w);
  modify_position = λ t price w. (returned done, w);
  get_candles = λ w. (returned [], w);
  balance = λ w. (returned 1000, w);
  get_open_real_trades = λ w. (returned w.rows, w);
  get_current_equity = λ w. (returned none, w);
  write_orphan_trade = λ row w. (returned 9, w);
  execute = λ q w. (if accepts q w then returned done else raised (raised_with 1), w);
  commit = λ w. (returned done, w);
  rollback = λ w. w;
  utc_of = λ p. returned p.time;
  ny_of = λ p. returned p.time;
}

abbrev position : ℕ → Position
position t = record {
  ticket = t;
  direction = long;
  open_price = 1000;
  time = 350 * minute;
  volume = 4;
}

abbrev row : OpenTrade
row = record { trade_id = 5; ticket = some 100; partial_closed = false; entry_time = 350 * minute }

-- At five the position 100 is still open, and the database refuses the update.
abbrev at_five : Paper
at_five = record {
  time = 1021 * minute;
  positions = position 100 ∷ [];
  rows = row ∷ [];
  takes_partial = false;
}

abbrev after_five : Post Paper
after_five = check_positions paper half_points (λ x. x) (load_from_db paper (opened 7 1 at_five))

-- The process is started again.
abbrev restarted : Post Paper
restarted =
    check_positions paper half_points (λ x. x)
      (load_from_db paper (opened 7 1 after_five.scene.world))

halved_again : (halvings 100 after_five.scene.trace ≡ 1) × (halvings 100 restarted.scene.trace ≡ 1)
unfolding check_positions load_from_db
halved_again = (refl, refl)

not_halved_again :
    halvings 100 (check_positions paper half_points (λ x. x) after_five).scene.trace ≡ 1
unfolding check_positions load_from_db
not_halved_again = refl

abbrev all_closed : Paper
all_closed = record {
  time = 1500 * minute;
  positions = position 200 ∷ [];
  rows = row ∷ [];
  takes_partial = true;
}

abbrev at_end : Post Paper
at_end =
    check_for_orphans paper half_points (λ x. x)
      (check_positions paper half_points (λ x. x)
        (record after_five { scene = record after_five.scene { world = all_closed } }))

-- 100 is out, and the orphan 200 is in.
tracked_at_end : (entries 100 at_end.tracker.tracked ≡ 0) × (entries 200 at_end.tracker.tracked ≡ 1)
unfolding check_positions check_for_orphans load_from_db compute_target last
tracked_at_end = (refl, refl)

Run-at_end : Run paper half_points (λ x. x) (opened 7 1 at_five) at_end
Run-at_end =
    after (after (after (after (after start loads) checks) (elapses all_closed)) checks) orphans

Run-Sound_example : Sound at_end
Run-Sound_example = Run-Sound paper half_points (λ x. x) 7 1 at_five at_end Run-at_end

-- The tracker looks for orphans at once, not again after a minute, and again later.
abbrev next_minute : Paper
next_minute = record all_closed { time = 1022 * minute }

abbrev ten_later : Paper
ten_later = record all_closed { time = 1031 * minute }

abbrev looking : Paper → Post Paper → Post Paper
looking w p =
    check_for_orphans paper half_points (λ x. x) (record p { scene = record p.scene { world = w } })

abbrev at_night : Post Paper
at_night = looking ten_later (looking next_minute (looking at_five (opened 7 1 at_five)))

Run-at_night : Run paper half_points (λ x. x) (opened 7 1 at_five) at_night
Run-at_night =
    after
      (after
        (after (after (after (after start (elapses at_five)) orphans) (elapses next_minute))
          orphans)
        (elapses ten_later))
      orphans

looks_at_night : looks at_night.scene.trace ≡ 1021 * minute ∷ 1031 * minute ∷ []
unfolding check_for_orphans compute_target last
looks_at_night = refl

Run-IsSpread_example : IsSpread (looks at_night.scene.trace)
Run-IsSpread_example = Run-IsSpread paper half_points (λ x. x) 7 1 at_five at_night Run-at_night

-- A database that accepts everything.
abbrev accepting : Desk Paper
accepting = record paper { execute = λ q w. (returned done, w) }

accepting-IsResponsive : IsResponsive accepting 100
accepting-IsResponsive = record {
  closes = λ w. (history, refl, refl);
  writes = λ q w. refl;
  commits = λ w. refl;
}

abbrev overnight : Post Paper
overnight = register_new_position accepting 100 5 (350 * minute) (opened 7 1 all_closed)

check_positions_resolved_example :
    entries 100 (check_positions accepting half_points (λ x. x) overnight).tracker.tracked ≡ 0
unfolding register_new_position
check_positions_resolved_example =
    check_positions_resolved accepting 100 half_points (λ x. x) accepting-IsResponsive overnight
      (position 200 ∷ []) refl refl

check_for_orphaned_positions-Treats_example :
    Treats paper half_points 7 1
      (1500 * minute)
      (record { world = all_closed; trace = [] })
      (check_for_orphaned_positions paper half_points 7 1
        (1500 * minute)
        (record { world = all_closed; trace = [] })).0
      (check_for_orphaned_positions paper half_points 7 1
        (1500 * minute)
        (record { world = all_closed; trace = [] })).1
check_for_orphaned_positions-Treats_example =
    check_for_orphaned_positions-Treats paper half_points 7 1 (1500 * minute)
      (record { world = all_closed; trace = [] })
