-- ===== src/Orders/Siblings.antt =====
-- What becomes of the other pending orders when one of them fills: `_on_fill` and
-- `_handle_sibling_cancel_failure` of shadow_runner/order_manager.py.
use the_bot.Common.{
  ℕ, ◌≡◌, refl, ap, Bool, true, false, List, [], ◌∷◌, ◌++◌, Option, none, some, if◌then◌else◌,
}
use the_bot.Orders.Broker.{Reply, raised, returned, Error, Position, Outside, Done, done}
use the_bot.Orders.Machine.{
  Key, Info, Machine, emit, Event, now_ny, pending_order_cancelled, duplicate_fill_closed,
  safety_check_failed, candidate_filled, sibling_filled, cancel_sibling_order,
  duplicate_fill_close_failed,
}
use the_bot.Orders.Placing.{same_key}
use the_bot.Orders.View.{View}
use the_bot.Orders.Quiet.{cancel_siblings-Quiet}
use the_bot.Orders.Fills.{
  find_position, close_duplicate_reply, close_if_duplicate, sibling_positions_reply,
  handle_sibling_cancel_failure, cancel_sibling_reply, cancel_sibling, cancel_siblings, on_fill,
  won_by,
}

-- The machine `s` with the world `w`, after one more event.
abbrev pub told : {World : Type 0} → Event → Machine World → World → Machine World
told e s w = record s { world = w; journal = s.journal ++ e ∷ [] }

module _ {World : Type 0} (o : Outside World) where
  -- What becomes of the sibling order `ticket`, by the broker's answers: it is cancelled; or, when the
  -- cancellation fails, its position is looked for and closed; or a check about it fails, because it has
  -- no position, the positions cannot be had, or the position cannot be closed.
  pub data Fate (ticket : ℕ) (s : Machine World) : Machine World → Type 0 where
    cancelled :
        (w : World)
        → o.cancel_pending_order ticket s.world ≡ (returned done, w)
        → Fate ticket s (told (pending_order_cancelled (o.now w) ticket sibling_filled) s w)
    unlisted :
        (e e' : Error) (w w' : World)
        → o.cancel_pending_order ticket s.world ≡ (raised e, w)
        → o.get_positions s.manager.config.magic_number w ≡ (raised e', w')
        → Fate ticket s
            (told (safety_check_failed (o.now w') cancel_sibling_order e (some ticket)) s w')
    without_position :
        (e : Error) (ps : List Position) (w w' : World)
        → o.cancel_pending_order ticket s.world ≡ (raised e, w)
        → o.get_positions s.manager.config.magic_number w ≡ (returned ps, w')
        → find_position ticket ps ≡ none
        → Fate ticket s
            (told (safety_check_failed (o.now w') cancel_sibling_order e (some ticket)) s w')
    closed :
        (e : Error) (ps : List Position) (p : Position) (w w' w'' : World)
        → o.cancel_pending_order ticket s.world ≡ (raised e, w)
        → o.get_positions s.manager.config.magic_number w ≡ (returned ps, w')
        → find_position ticket ps ≡ some p
        → o.close_position ticket w' ≡ (returned done, w'')
        → Fate ticket s (told (duplicate_fill_closed (o.now w'') ticket) s w'')
    left_open :
        (e e' : Error) (ps : List Position) (p : Position) (w w' w'' : World)
        → o.cancel_pending_order ticket s.world ≡ (raised e, w)
        → o.get_positions s.manager.config.magic_number w ≡ (returned ps, w')
        → find_position ticket ps ≡ some p
        → o.close_position ticket w' ≡ (raised e', w'')
        → Fate ticket s (
            told
              (safety_check_failed (o.now w'') duplicate_fill_close_failed e' (some ticket))
              s
              w'')

  cancel_sibling-Fate : (ticket : ℕ) (s : Machine World) → Fate ticket s (cancel_sibling o ticket s)
  unfolding cancel_sibling handle_sibling_cancel_failure
  cancel_sibling-Fate ticket s =
      answered (o.cancel_pending_order ticket s.world).0 (o.cancel_pending_order ticket s.world).1
        refl
    where
      closing :
          (e : Error) (ps : List Position) (p : Position) (w w' : World) (r : Reply Done)
          (w'' : World)
          → o.cancel_pending_order ticket s.world ≡ (raised e, w)
          → o.get_positions s.manager.config.magic_number w ≡ (returned ps, w')
          → find_position ticket ps ≡ some p
          → o.close_position ticket w' ≡ (r, w'')
          → Fate ticket s (close_duplicate_reply o ticket r (record s { world = w'' }))
      closing e ps p w w' (raised e') w'' c g f h = left_open e e' ps p w w' w'' c g f h
      closing e ps p w w' (returned done) w'' c g f h = closed e ps p w w' w'' c g f h

      found :
          (e : Error) (ps : List Position) (x : Option Position) (w w' : World)
          → o.cancel_pending_order ticket s.world ≡ (raised e, w)
          → o.get_positions s.manager.config.magic_number w ≡ (returned ps, w')
          → find_position ticket ps ≡ x
          → Fate ticket s (close_if_duplicate o ticket e x (record s { world = w' }))
      found e ps none w w' c g f = without_position e ps w w' c g f
      found e ps (some p) w w' c g f =
          closing e ps p w w' (o.close_position ticket w').0 (o.close_position ticket w').1 c g f
            refl

      listed :
          (e : Error) (r : Reply (List Position)) (w w' : World)
          → o.cancel_pending_order ticket s.world ≡ (raised e, w)
          → o.get_positions s.manager.config.magic_number w ≡ (r, w')
          → Fate ticket s (sibling_positions_reply o ticket e r (record s { world = w' }))
      listed e (raised e') w w' c g = unlisted e e' w w' c g
      listed e (returned ps) w w' c g = found e ps (find_position ticket ps) w w' c g refl

      answered :
          (r : Reply Done) (w : World)
          → o.cancel_pending_order ticket s.world ≡ (r, w)
          → Fate ticket s (cancel_sibling_reply o ticket r (record s { world = w }))
      answered (returned done) w c = cancelled w c
      answered (raised e) w c =
          let magic = s.manager.config.magic_number in
          listed e (o.get_positions magic w).0 w (o.get_positions magic w).1 c refl

  -- The winner's own entry is passed over, and any other meets its fate.
  abbrev pub Passes : Bool → ℕ → Machine World → Machine World → Type 0
  Passes true ticket s t = t ≡ s
  Passes false ticket s t = Fate ticket s t

  -- From `s` to `s'` every entry but the winner's meets its fate, in order, and nothing else happens.
  abbrev pub Settles : Key → List (Key × Info) → Machine World → Machine World → Type 0
  Settles winning_key [] s s' = s' ≡ s
  Settles winning_key ((k, i) ∷ rest) s s' =
      (t : Machine World) × Passes (same_key k winning_key) i.order_ticket s t
      × Settles winning_key rest t s'

  cancel_sibling-Passes :
      (b : Bool) (ticket : ℕ) (s : Machine World)
      → Passes b ticket s (if b then s else cancel_sibling o ticket s)
  cancel_sibling-Passes true ticket s = refl
  cancel_sibling-Passes false ticket s = cancel_sibling-Fate ticket s

  cancel_siblings-Settles :
      (w : Key) (pending : List (Key × Info)) (s : Machine World)
      → Settles w pending s (cancel_siblings o w pending s)
  unfolding cancel_siblings
  cancel_siblings-Settles w [] s = refl
  cancel_siblings-Settles w ((k, i) ∷ rest) s =
      let t = if same_key k w then s else cancel_sibling o i.order_ticket s in
      (t, cancel_sibling-Passes (same_key k w) i.order_ticket s, cancel_siblings-Settles w rest t)

  -- When the order of an entry fills at a position: it is journaled and recorded as the winner, with the
  -- position that is watched; then every other pending order, in turn, is cancelled and journaled so if
  -- the broker cancels it; if not, its own position is closed and journaled so if the broker lists one
  -- and closes it; and otherwise a failed check about it is journaled; nothing else happens to the
  -- journal, the manager or the world, but that in the end the winner's is the only pending order.
  pub on_fill-Settles :
      (k : Key) (i : Info) (p : Position) (s : Machine World)
      → (s' : Machine World) × Settles k s.manager.pending
          (told
            (candidate_filled (o.now s.world) p.ticket i.direction p.open_price)
            (record s { manager = won_by i p s.manager })
            s.world)
          s'
        × (on_fill o k i p s ≡ record s' { manager = record s'.manager { pending = (k, i) ∷ [] } })
        × ((on_fill o k i p s).manager.winner_ticket ≡ some i.order_ticket)
        × ((on_fill o k i p s).manager.winner_position_ticket ≡ some p.ticket)
  unfolding on_fill
  on_fill-Settles k i p s =
      let won = record s { manager = won_by i p s.manager } in
      let e : Event = candidate_filled (now_ny o won) p.ticket i.direction p.open_price in
      let begun = emit o e won in
      let quiet = cancel_siblings-Quiet o k s.manager.pending begun in
      (
        cancel_siblings o k s.manager.pending begun,
        cancel_siblings-Settles k s.manager.pending begun,
        refl,
        ap (λ (v : View). v.winner) quiet,
        ap (λ (v : View). v.position) quiet,
      )
