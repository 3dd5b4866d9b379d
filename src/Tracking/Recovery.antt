-- ===== src/Tracking/Recovery.antt =====
-- What an orphan check comes to, by the answers of the broker and of the database:
-- shadow_runner/orphan_recovery.py.
use mathlib.Core.Path.{subst}
use the_bot.Common.{
  sym, ℕ, ◌≡◌, refl, inl, inr, false, List, [], ◌∷◌, Option, none, some, Bool-cases,
}
use the_bot.Common.Floats.{Float, Arith}
use the_bot.Common.Deque.{last}
use the_bot.Detection.Bars.{Bar}
use the_bot.Orders.Broker.{Reply, raised, returned, Done, done, Position}
use the_bot.Orders.Target.{compute_target}
use the_bot.Tracking.Desk.{OpenTrade, Event, Desk, Scene}
use the_bot.Tracking.Orphans.{
  Result, Sunk, knows, bars_before, heal_reply, target_reply, write_row, row_reply, row_committed,
  target_of, then_rest, or_nought, equity_reply, record_reply, times_of, times_reply,
  fill_time_reply, heal_orphan, record_orphan_trade, healed_reply, recover, recover_all,
  known_reply, broker_reply, check_for_orphaned_positions,
}
use the_bot.Tracking.Fates.{
  Heals, no_candles, no_target, refused, attached, HasEquity, of_trades, of_account, unknown, RowOf,
  Writes, no_equity, unwritten, uncommitted, written, Records, untimed, failed, kept, Recovers,
  finished, passed, malformed, treated, Treats, unlisted, unknown_trades, looped,
}

module _ {World : Type 0} (d : Desk World) (fl : Arith) where
  module _ (p : Position) (now time : ℕ) (events : List Event) (s : Scene World)
      (timed : d.utc_of p ≡ returned time) where
    modified-Heals :
        (candles : List Bar) (target : Float) (w : World) (r : Reply Done) (w' : World)
        → d.get_candles s.world ≡ (returned candles, w)
        → compute_target fl (last 6 (bars_before time candles)) p.direction ≡ returned target
        → d.modify_position p.ticket target w ≡ (r, w')
        → Heals d fl p now
            (events, s)
            (heal_reply d fl p now target r (events, record s { world = w' })).0
            (heal_reply d fl p now target r (events, record s { world = w' })).1
    modified-Heals candles target w (raised e) w' c g m =
        refused candles time target e w w' timed c g m
    modified-Heals candles target w (returned done) w' c g m =
        attached candles time target w w' timed c g m

    computed-Heals :
        (candles : List Bar) (w : World) (r : Reply Float)
        → d.get_candles s.world ≡ (returned candles, w)
        → compute_target fl (last 6 (bars_before time candles)) p.direction ≡ r
        → Heals d fl p now
            (events, s)
            (target_reply d fl p now r (events, record s { world = w })).0
            (target_reply d fl p now r (events, record s { world = w })).1
    computed-Heals candles w (raised e) c g = no_target candles time e w timed c g
    computed-Heals candles w (returned target) c g =
        modified-Heals candles target w (d.modify_position p.ticket target w).0
          (d.modify_position p.ticket target w).1 c g refl

    listed-Heals :
        (r : Reply (List Bar)) (w : World)
        → d.get_candles s.world ≡ (r, w)
        → Heals d fl p now
            (events, s)
            (target_reply d fl p now (target_of d fl p time r) (events, record s { world = w })).0
            (target_reply d fl p now (target_of d fl p time r) (events, record s { world = w })).1
    listed-Heals (raised e) w c = no_candles e w c
    listed-Heals (returned candles) w c =
        computed-Heals candles w (compute_target fl (last 6 (bars_before time candles)) p.direction)
          c refl

  module _ (p : Position) (target : Option Float) (risk_pct : Float) (times : ℕ × ℕ)
      (s : Scene World) where
    committed-Writes :
        (equity : Float) (trade : ℕ) (w w' : World) (r : Reply Done) (w'' : World)
        → HasEquity d fl s.world equity w
        → d.write_orphan_trade (RowOf d fl p target risk_pct times equity) w ≡ (returned trade, w')
        → d.commit w' ≡ (r, w'')
        → Writes d fl p target risk_pct times s
            (row_committed d fl p trade r (record s { world = w'' })).0
            (row_committed d fl p trade r (record s { world = w'' })).1
    committed-Writes equity trade w w' (raised e) w'' h q c =
        uncommitted equity trade e w w' w'' h q c
    committed-Writes equity trade w w' (returned done) w'' h q c =
        written equity trade w w' w'' h q c

    row-Writes :
        (equity : Float) (w : World) (r : Reply ℕ) (w' : World)
        → HasEquity d fl s.world equity w
        → d.write_orphan_trade (RowOf d fl p target risk_pct times equity) w ≡ (r, w')
        → Writes d fl p target risk_pct times s
            (row_reply d fl p r (record s { world = w' })).0
            (row_reply d fl p r (record s { world = w' })).1
    row-Writes equity w (raised e) w' h q = unwritten equity e w w' h q
    row-Writes equity w (returned trade) w' h q =
        committed-Writes equity trade w w' (d.commit w').0 (d.commit w').1 h q refl

    write_row-Writes :
        (equity : Float) (w : World)
        → HasEquity d fl s.world equity w
        → Writes d fl p target risk_pct times s
            (write_row d fl p target risk_pct times equity (record s { world = w })).0
            (write_row d fl p target risk_pct times equity (record s { world = w })).1
    write_row-Writes equity w h =
        let o = d.write_orphan_trade (RowOf d fl p target risk_pct times equity) w in
        row-Writes equity w o.0 o.1 h refl

    balance-Writes :
        (w : World) (r : Reply Float) (w' : World)
        → d.get_current_equity s.world ≡ (returned none, w)
        → d.balance w ≡ (r, w')
        → HasEquity d fl s.world (or_nought d fl r) w'
    balance-Writes w (raised e) w' q b = unknown e w w' q b
    balance-Writes w (returned x) w' q b = of_account x w w' q b

    equity_reply-Writes :
        (r : Reply (Option Float)) (w : World)
        → d.get_current_equity s.world ≡ (r, w)
        → Writes d fl p target risk_pct times s
            (equity_reply d fl p target risk_pct times r (record s { world = w })).0
            (equity_reply d fl p target risk_pct times r (record s { world = w })).1
    equity_reply-Writes (raised e) w q = no_equity e w q
    equity_reply-Writes (returned (some x)) w q = write_row-Writes x w (of_trades x w q)
    equity_reply-Writes (returned none) w q =
        write_row-Writes (or_nought d fl (d.balance w).0) (d.balance w).1
          (balance-Writes w (d.balance w).0 (d.balance w).1 q refl)

  recorded-Records :
      (p : Position) (target : Option Float) (risk_pct : Float) (now : ℕ) (t : Sunk World)
      (times : ℕ × ℕ) (r : Reply ℕ) (s : Scene World)
      → times_of d fl (d.utc_of p) (d.ny_of p) ≡ returned times
      → Writes d fl p target risk_pct times t.1 r s
      → Records d fl p target risk_pct now t
          (record_reply d fl p now times.1 r (t.0, s)).0
          (record_reply d fl p now times.1 r (t.0, s)).1
  recorded-Records p target risk_pct now t times (raised e) s timed h = failed times e s timed h
  recorded-Records p target risk_pct now t times (returned trade) s timed h =
      kept times trade s timed h

  times_reply-Records :
      (p : Position) (target : Option Float) (risk_pct : Float) (now : ℕ) (t : Sunk World)
      (r : Reply (ℕ × ℕ))
      → times_of d fl (d.utc_of p) (d.ny_of p) ≡ r
      → Records d fl p target risk_pct now t
          (times_reply d fl p target risk_pct now r t).0
          (times_reply d fl p target risk_pct now r t).1
  times_reply-Records p target risk_pct now t (raised e) timed = untimed e timed
  times_reply-Records p target risk_pct now (events, s) (returned times) timed =
      let (r, w) = d.get_current_equity s.world in
      let o = equity_reply d fl p target risk_pct times r (record s { world = w }) in
      recorded-Records p target risk_pct now (events, s) times o.0 o.1 timed
        (equity_reply-Writes p target risk_pct times s r w refl)

  module _ (known : List OpenTrade) (risk_pct : Float) (now : ℕ) where
    recover-Recovers :
        (p : Position) (rest : List Position) (t : Sunk World) (r : Reply ℕ)
        → knows p.ticket known ≡ false
        → d.utc_of p ≡ r
        → ((t' : Sunk World)
            → Recovers d fl known risk_pct now rest t'
                (recover_all d fl known rest risk_pct now t').0
                (recover_all d fl known rest risk_pct now t').1)
        → (o : Reply (List Result) × Sunk World)
        → o ≡ (
            let (h, t') = fill_time_reply d fl p now r t in
            then_rest d fl
              (healed_reply d fl p risk_pct now h t')
              (recover_all d fl known rest risk_pct now))
        → Recovers d fl known risk_pct now (p ∷ rest) t o.0 o.1
    unfolding record_orphan_trade healed_reply
    recover-Recovers p rest t (raised e) is_not timed later o is =
        subst (λ o. Recovers d fl known risk_pct now (p ∷ rest) t o.0 o.1) (sym is)
          (malformed p rest t e is_not timed)
    recover-Recovers p rest (events, s) (returned time) is_not timed later o is =
        let (c, w) = d.get_candles s.world in
        let (healed, t') =
          target_reply d fl p now (target_of d fl p time c) (events, record s { world = w }) in
        let times = times_of d fl (d.utc_of p) (d.ny_of p) in
        let (trade, t'') = times_reply d fl p healed.1 risk_pct now times t' in
        let (r, t''') = recover_all d fl known rest risk_pct now t'' in
        subst (λ o. Recovers d fl known risk_pct now (p ∷ rest) (events, s) o.0 o.1) (sym is)
          (treated p rest (events, s) t' t'' t''' time healed trade r is_not timed
            (listed-Heals p now time events s timed c w refl)
            (times_reply-Records p healed.1 risk_pct now t' times refl) (later t''))

    recover_all-Recovers :
        (positions : List Position) (t : Sunk World)
        → Recovers d fl known risk_pct now positions t
            (recover_all d fl known positions risk_pct now t).0
            (recover_all d fl known positions risk_pct now t).1
    unfolding recover_all recover heal_orphan
    recover_all-Recovers [] t = finished t
    recover_all-Recovers (p ∷ rest) t = elim (Bool-cases (knows p.ticket known)) [
      | inl is ↦
          rw (is, recover_all)
            (passed p rest t (recover_all d fl known rest risk_pct now t).1
              (recover_all d fl known rest risk_pct now t).0 is (recover_all-Recovers rest t))
      | inr is_not ↦
          recover-Recovers p rest t (d.utc_of p) is_not refl (recover_all-Recovers rest)
            (recover_all d fl known (p ∷ rest) risk_pct now t) (rw (is_not, recover_all) refl)
    ]

  -- An orphan check, by the answers of the broker and of the database: if the positions are not listed,
  -- it reports that and treats none; if the open trades are not, it raises. Else it takes the positions
  -- in the broker's order: one that an open trade knows is passed over, and any other is treated. Its
  -- target, computed from the candles before the fill, is attached, or the failure of that is reported;
  -- and then a trade at the target or else at the entry price is written and committed, or the failure
  -- of that is rolled back and reported, and whatever fails so, the rest is treated all the same. It
  -- raises only if the open trades are not listed or an orphan's UTC time is malformed, which ends the
  -- check and loses its results and events.
  pub check_for_orphaned_positions-Treats :
      (magic : ℕ) (risk_pct : Float) (now : ℕ) (s : Scene World)
      → Treats d fl magic risk_pct now s
          (check_for_orphaned_positions d fl magic risk_pct now s).0
          (check_for_orphaned_positions d fl magic risk_pct now s).1
  unfolding check_for_orphaned_positions
  check_for_orphaned_positions-Treats magic risk_pct now s =
      listed (d.get_positions magic s.world).0 (d.get_positions magic s.world).1 refl
    where
      looped_over :
          (positions : List Position) (w : World) (r : Reply (List OpenTrade)) (w' : World)
          → d.get_positions magic s.world ≡ (returned positions, w)
          → d.get_open_real_trades w ≡ (r, w')
          → Treats d fl magic risk_pct now s
              (known_reply d fl positions risk_pct now r (record s { world = w' })).0
              (known_reply d fl positions risk_pct now r (record s { world = w' })).1
      looped_over positions w (raised e) w' q k = unknown_trades positions e w w' q k
      looped_over positions w (returned known) w' q k =
          let (r, (events, s')) =
            recover_all d fl known positions risk_pct now ([], record s { world = w' }) in
          looped positions known w w' r events s' q k
            (recover_all-Recovers known risk_pct now positions ([], record s { world = w' }))

      listed :
          (r : Reply (List Position)) (w : World)
          → d.get_positions magic s.world ≡ (r, w)
          → Treats d fl magic risk_pct now s
              (broker_reply d fl risk_pct now r (record s { world = w })).0
              (broker_reply d fl risk_pct now r (record s { world = w })).1
      listed (raised e) w q = unlisted e w q
      listed (returned positions) w q =
          looped_over positions w (d.get_open_real_trades w).0 (d.get_open_real_trades w).1 q refl
