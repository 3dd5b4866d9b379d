-- ===== src/Tracking/Spread.antt =====
-- The throttle of the orphan check.
use mathlib.Core.Path.{subst}
use the_bot.Common.{
  ℕ, ◌+◌, ◌≤◌, ◌≡◌, refl, ap, sym, ◌∙◌, inl, inr, false, List, [], ◌∷◌, ◌++◌, Option, none, some,
  arith, Bool-cases,
}
use the_bot.Common.Floats.{Float, Arith}
use the_bot.Tracking.Desk.{Desk, looked, leave, call}
use the_bot.Tracking.Orphans.{broker_reply, check_for_orphaned_positions}
use the_bot.Tracking.Tracker.{orphan_check_interval, Post, now_ny, is_recent, check_for_orphans}
use the_bot.Tracking.Trace.{looks, looks-append}
use the_bot.Tracking.Still.{broker_reply-Calm}
use the_bot.Tracking.Looks.{
  Overlooks, load_from_db-Overlooks, register-Overlooks, check_positions-Overlooks,
  orphans_reply-Overlooks,
}
use the_bot.Tracking.Runs.{
  opened, Move, loads, registers, checks, orphans, elapses, Run, start, after,
}

-- Every time is at least five minutes after the one before it.
abbrev pub IsSpread : List ℕ → Type 0
IsSpread [] = Unit
IsSpread (now ∷ []) = Unit
IsSpread (now ∷ next ∷ rest) = (now + orphan_check_interval ≤ next) × IsSpread (next ∷ rest)

abbrev last_look : List ℕ → Option ℕ
last_look [] = none
last_look (now ∷ []) = some now
last_look (now ∷ next ∷ rest) = last_look (next ∷ rest)

-- The tracker knows the last of its orphan checks.
record IsThrottled (times : List ℕ) (last : Option ℕ) : Type 0 where
  spread : IsSpread times
  known : last ≡ last_look times

abbrev Throttled : {World : Type 0} → Post World → Type 0
Throttled p = IsThrottled (looks p.scene.trace) p.tracker.last_orphan_check

last_look-append : (times : List ℕ) (now : ℕ) → last_look (times ++ now ∷ []) ≡ some now
last_look-append [] now = refl
last_look-append (t ∷ []) now = refl
last_look-append (t ∷ u ∷ rest) now = last_look-append (u ∷ rest) now

-- The last of the times is at least five minutes before `now`.
abbrev IsDue : Option ℕ → ℕ → Type 0
IsDue none now = Unit
IsDue (some last) now = last + orphan_check_interval ≤ now

append-IsSpread :
    (times : List ℕ) (now : ℕ)
    → IsSpread times
    → IsDue (last_look times) now
    → IsSpread (times ++ now ∷ [])
append-IsSpread [] now h due = tt
append-IsSpread (t ∷ []) now h due = (due, tt)
append-IsSpread (t ∷ u ∷ rest) now h due = (h.0, append-IsSpread (u ∷ rest) now h.1 due)

module _ {World : Type 0} (d : Desk World) (fl : Arith) (round2 : Float → Float) where
  is_due : (now : ℕ) (last : Option ℕ) → is_recent d fl round2 now last ≡ false → IsDue last now
  is_due now none h = tt
  is_due now (some last) h = ground arith

  Throttled-Overlooks : {p p' : Post World} → Overlooks p p' → Throttled p → Throttled p'
  Throttled-Overlooks o h = record {
    spread = subst IsSpread (sym o.same_looks) h.spread;
    known = o.same_last ∙ h.known ∙ ap last_look (sym o.same_looks);
  }

  check_for_orphans-Throttled :
      (p : Post World) → Throttled p → Throttled (check_for_orphans d fl round2 p)
  unfolding check_for_orphans check_for_orphaned_positions
  check_for_orphans-Throttled p h =
      let now = now_ny d p.scene in
      elim (Bool-cases (is_recent d fl round2 now p.tracker.last_orphan_check)) [
        | inl recent ↦ rw (recent, check_for_orphans) h
        | inr old ↦
            let t = record p.tracker { last_orphan_check = some now } in
            let s0 = leave d (looked now) p.scene in
            let (r, s1) = call d (d.get_positions t.magic_number) s0 in
            let (r', s2) = broker_reply d fl t.risk_pct now r s1 in
            let times =
              (broker_reply-Calm d fl round2 t.risk_pct now r s1).same_looks
              ∙ looks-append p.scene.trace (looked now ∷ []) in
            let due =
              subst (λ last. IsDue last now) h.known (is_due now p.tracker.last_orphan_check old) in
            rw (old, check_for_orphans)
              (Throttled-Overlooks
                (orphans_reply-Overlooks d fl round2 r' (record { tracker = t; scene = s2 }))
                (record {
                  spread =
                      subst IsSpread (sym times)
                        (append-IsSpread (looks p.scene.trace) now h.spread due);
                  known =
                      sym (last_look-append (looks p.scene.trace) now) ∙ ap last_look (sym times);
                }))
      ]

  Move-Throttled : {p p' : Post World} → Move d fl round2 p p' → Throttled p → Throttled p'
  Move-Throttled loads h = Throttled-Overlooks (load_from_db-Overlooks d _) h
  Move-Throttled (registers ticket trade entry_time) h =
      Throttled-Overlooks (register-Overlooks d ticket trade entry_time _) h
  Move-Throttled checks h = Throttled-Overlooks (check_positions-Overlooks d fl round2 _) h
  Move-Throttled orphans h = check_for_orphans-Throttled _ h
  Move-Throttled (elapses world) h = h

  Run-Throttled : {p p' : Post World} → Run d fl round2 p p' → Throttled p → Throttled p'
  Run-Throttled start h = h
  Run-Throttled (after run move) h = Move-Throttled move (Run-Throttled run h)

  -- However the calls of a process are ordered, and however its clock runs, each orphan check of a
  -- tracker that looks at the broker does so at least five minutes after the one before it.
  pub Run-IsSpread :
      (magic : ℕ) (risk_pct : Float) (world : World) (p : Post World)
      → Run d fl round2 (opened magic risk_pct world) p
      → IsSpread (looks p.scene.trace)
  Run-IsSpread magic risk_pct world p run =
      (Run-Throttled run (record { spread = tt; known = refl })).spread
