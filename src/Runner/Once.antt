-- ===== src/Runner/Once.antt =====
-- A fill is acted upon in one poll only.
use mathlib.Core.Path.{subst}
use the_bot.Common.{
  ℕ, ◌≡◌, refl, sym, ap, ◌∙◌, Bool, true, false, List, [], ◌∷◌, ◌++◌, map, append-nil, Option, none,
  some, All,
}
use the_bot.Common.Floats.{Arith}
use the_bot.Orders.Broker.{raised, returned, done}
use the_bot.Orders.Sizing.{Rounding}
use the_bot.Orders.Machine.{Key, Info, Manager, Machine, is_active}
use the_bot.Orders.Fills.{is_open, check_for_fills}
use the_bot.Runner.Hub.{Event, DayRun, ordered, Hub, Outcome, and_then}
use the_bot.Runner.Day.{flush_new_events}
use the_bot.Runner.Polling.{
  Checked, any_filled, managers_of, put_back, check_fills, targets_for, fills_of,
  check_order_manager_fills,
}

-- One of the manager's orders has filled.
abbrev pub HasWon : ℕ × Manager → Type 0
HasWon (user, m) = (t : ℕ) × (m.winner_ticket ≡ some t)

is_open-won :
    (a : Bool) (pending : List (Key × Info)) (winner : Option ℕ) (t : ℕ)
    → winner ≡ some t
    → is_open a pending winner ≡ false
is_open-won true [] winner t e = refl
is_open-won true (p ∷ rest) none t e = cc
is_open-won true (p ∷ rest) (some x) t e = refl
is_open-won false pending winner t e = refl

-- The entries, none of which has filled in this poll.
abbrev unfilled : List (ℕ × Manager) → List Checked
unfilled [] = []
unfilled ((user, m) ∷ rest) =
    record { user_id = user; manager = m; newly_filled = false } ∷ unfilled rest

managers_of-unfilled : (ms : List (ℕ × Manager)) → managers_of (unfilled ms) ≡ ms
managers_of-unfilled [] = refl
managers_of-unfilled ((user, m) ∷ rest) = ap (λ ms. (user, m) ∷ ms) (managers_of-unfilled rest)

any_filled-unfilled : (ms : List (ℕ × Manager)) → any_filled (unfilled ms) ≡ false
any_filled-unfilled [] = refl
any_filled-unfilled (m ∷ rest) = any_filled-unfilled rest

module _ {World : Type 0} (hub : Hub World) (fl : Arith) (ro : Rounding) where
  check_for_fills-won :
      (user : ℕ) (m : Manager) (w : World)
      → HasWon (user, m)
      → check_for_fills (hub.orders user) (record { manager = m; world = w; journal = [] })
        ≡ (false, record { manager = m; world = w; journal = [] })
  unfolding check_for_fills
  check_for_fills-won user m w (t, e) =
      rw (is_open-won (is_active m) m.pending m.winner_ticket t e, check_for_fills) refl

  check_fills-won :
      (ms : List (ℕ × Manager)) (w : World)
      → All HasWon ms
      → check_fills hub fl ro ms w ≡ ((unfilled ms, []), w)
  unfolding check_fills
  check_fills-won [] w h = refl
  check_fills-won ((user, m) ∷ rest) w h =
      let Answer = (List Checked × List Event) × World in
      let next = λ (x : Bool × Machine World).
        let ((checked, events), w') = check_fills hub fl ro rest x.1.world in
        let answer : Answer = (
          (
            record { user_id = user; manager = x.1.manager; newly_filled = x.0 } ∷ checked,
            map (ordered user) x.1.journal ++ events,
          ),
          w',
        ) in
        answer in
      let add = λ (a : Answer).
        let answer : Answer =
          ((record { user_id = user; manager = m; newly_filled = false } ∷ a.0.0, a.0.1), a.1) in
        answer in
      ap next (check_for_fills-won user m w h.0) ∙ ap add (check_fills-won rest w h.1)

  -- Once every order manager of the day has a fill, whatever has become of it, the check for fills asks
  -- no broker, fetches no bars, attaches no target and changes no order manager: it only writes the
  -- events that are left to write.
  pub check_order_manager_fills-flush_new_events :
      (d : DayRun) (w : World) (m : ℕ × Manager) (ms : List (ℕ × Manager))
      → d.order_managers ≡ m ∷ ms
      → All HasWon (m ∷ ms)
      → check_order_manager_fills hub fl ro (d, w) ≡ flush_new_events hub fl ro (d, w)
  unfolding check_order_manager_fills
  check_order_manager_fills-flush_new_events d w m ms is won =
      idle d.order_managers is (subst (All HasWon) (sym is) won)
    where
      written :
          (o : Outcome (DayRun × World)) (checked : List Checked)
          → any_filled checked ≡ false
          → and_then o (targets_for hub fl ro checked (any_filled checked)) ≡ o
      written (raised x, t) checked none_filled = refl
      written (returned done, t) checked none_filled = rw none_filled refl

      unchanged :
          (managers : List (ℕ × Manager))
          → managers ≡ d.order_managers
          → (put_back hub fl ro ((managers_of (unfilled managers), []), w) d).0 ≡ d
      unchanged managers e = λ i. record d {
        order_managers = (managers_of-unfilled managers ∙ e) i;
        todays_events = append-nil d.todays_events i;
      }

      idle :
          (managers : List (ℕ × Manager))
          → managers ≡ m ∷ ms
          → All HasWon managers
          → fills_of hub fl ro managers (d, w) ≡ flush_new_events hub fl ro (d, w)
      idle [] e h = cc
      idle (n ∷ ns) e h =
          let Answer = (List Checked × List Event) × World in
          let write = λ (a : Answer).
            and_then
              (flush_new_events hub fl ro (put_back hub fl ro ((managers_of a.0.0, a.0.1), a.1) d))
              (targets_for hub fl ro a.0.0 (any_filled a.0.0)) in
          ap write (check_fills-won (n ∷ ns) w h)
          ∙ written
              (flush_new_events hub fl ro
                (put_back hub fl ro ((managers_of (unfilled (n ∷ ns)), []), w) d))
              (unfilled (n ∷ ns)) (any_filled-unfilled (n ∷ ns))
          ∙ ap (λ (c : DayRun). flush_new_events hub fl ro (c, w)) (unchanged (n ∷ ns) (e ∙ sym is))
