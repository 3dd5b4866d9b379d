-- ===== src/Tracking/Trace.antt =====
-- What the traces of position tracking are judged by, and the steps that add nothing to it.
use mathlib.Core.Path.{subst}
use the_bot.Common.{
  ℕ, ◌+◌, ◌≤◌, ◌≡◌, refl, ap, sym, ◌∙◌, ◌⊎◌, inl, inr, List, [], ◌∷◌, ◌++◌, append-nil, Option,
  arith, ◌==◌, if◌then◌else◌,
}
use the_bot.Orders.Broker.{Error, Reply, raised, returned, Done, done}
use the_bot.Tracking.Desk.{
  Check, Event, safety_check_failed, real_trade_closed, Statement, write_event, Desk, Scene, Effect,
  halved, committed, recorded, alerted, taken, looked, call, execute_all, then_commit, commit_reply,
  transact,
}
use the_bot.Tracking.Tracker.{alert_reply, emit_check_failure}

abbrev pub here : ℕ → ℕ → ℕ
here t k = if t == k then 1 else 0

-- How often a partial close of the position `t` was made, how often it was taken into tracking, and how
-- often its final close was committed.
abbrev pub closings_of : ℕ → List Statement → ℕ
closings_of t [] = 0
closings_of t (write_event (real_trade_closed _ k _) ∷ rest) = here t k + closings_of t rest
closings_of t (_ ∷ rest) = closings_of t rest

abbrev pub halvings : ℕ → List Effect → ℕ
halvings t [] = 0
halvings t (halved k _ ∷ rest) = here t k + halvings t rest
halvings t (_ ∷ rest) = halvings t rest

abbrev pub takings : ℕ → List Effect → ℕ
takings t [] = 0
takings t (taken k ∷ rest) = here t k + takings t rest
takings t (_ ∷ rest) = takings t rest

abbrev pub closings : ℕ → List Effect → ℕ
closings t [] = 0
closings t (committed qs ∷ rest) = closings_of t qs + closings t rest
closings t (_ ∷ rest) = closings t rest

pub halvings-append :
    (t : ℕ) (xs ys : List Effect) → halvings t (xs ++ ys) ≡ halvings t xs + halvings t ys
halvings-append t [] ys = omega arith
halvings-append t (halved k v ∷ xs) ys = omega (arith, halvings-append t xs ys)
halvings-append t (committed _ ∷ xs) ys = halvings-append t xs ys
halvings-append t (recorded _ _ ∷ xs) ys = halvings-append t xs ys
halvings-append t (alerted _ ∷ xs) ys = halvings-append t xs ys
halvings-append t (taken _ ∷ xs) ys = halvings-append t xs ys
halvings-append t (looked _ ∷ xs) ys = halvings-append t xs ys

pub takings-append :
    (t : ℕ) (xs ys : List Effect) → takings t (xs ++ ys) ≡ takings t xs + takings t ys
takings-append t [] ys = omega arith
takings-append t (taken k ∷ xs) ys = omega (arith, takings-append t xs ys)
takings-append t (committed _ ∷ xs) ys = takings-append t xs ys
takings-append t (recorded _ _ ∷ xs) ys = takings-append t xs ys
takings-append t (alerted _ ∷ xs) ys = takings-append t xs ys
takings-append t (halved _ _ ∷ xs) ys = takings-append t xs ys
takings-append t (looked _ ∷ xs) ys = takings-append t xs ys

pub closings-append :
    (t : ℕ) (xs ys : List Effect) → closings t (xs ++ ys) ≡ closings t xs + closings t ys
closings-append t [] ys = omega arith
closings-append t (committed qs ∷ xs) ys = omega (arith, closings-append t xs ys)
closings-append t (taken _ ∷ xs) ys = closings-append t xs ys
closings-append t (recorded _ _ ∷ xs) ys = closings-append t xs ys
closings-append t (alerted _ ∷ xs) ys = closings-append t xs ys
closings-append t (halved _ _ ∷ xs) ys = closings-append t xs ys
closings-append t (looked _ ∷ xs) ys = closings-append t xs ys

-- The times of the orphan checks.
abbrev pub looks : List Effect → List ℕ
looks [] = []
looks (looked now ∷ rest) = now ∷ looks rest
looks (_ ∷ rest) = looks rest

pub looks-append : (xs ys : List Effect) → looks (xs ++ ys) ≡ looks xs ++ looks ys
looks-append [] ys = refl
looks-append (looked now ∷ xs) ys = ap (λ ns. now ∷ ns) (looks-append xs ys)
looks-append (committed _ ∷ xs) ys = looks-append xs ys
looks-append (recorded _ _ ∷ xs) ys = looks-append xs ys
looks-append (alerted _ ∷ xs) ys = looks-append xs ys
looks-append (halved _ _ ∷ xs) ys = looks-append xs ys
looks-append (taken _ ∷ xs) ys = looks-append xs ys

pub looks-append-nil : (xs ys : List Effect) → looks ys ≡ [] → looks (xs ++ ys) ≡ looks xs
looks-append-nil xs ys h = looks-append xs ys ∙ ap (λ ns. looks xs ++ ns) h ∙ append-nil (looks xs)

-- From `xs` to `ys` no partial close, no taking and no orphan check has been added, and no closing is
-- lost.
pub record Calm (xs ys : List Effect) : Type 0 where
  pub same_halvings : (t : ℕ) → halvings t ys ≡ halvings t xs
  pub same_takings : (t : ℕ) → takings t ys ≡ takings t xs
  pub more_closings : (t : ℕ) → closings t xs ≤ closings t ys
  pub same_looks : looks ys ≡ looks xs

pub Calm-refl : (xs : List Effect) → Calm xs xs
Calm-refl xs = record {
  same_halvings = λ t. refl;
  same_takings = λ t. refl;
  more_closings = λ t. omega arith;
  same_looks = refl;
}

pub Calm-trans : {xs ys zs : List Effect} → Calm xs ys → Calm ys zs → Calm xs zs
Calm-trans c c' = record {
  same_halvings = λ t. c'.same_halvings t ∙ c.same_halvings t;
  same_takings = λ t. c'.same_takings t ∙ c.same_takings t;
  more_closings = λ t. omega (arith, c.more_closings t, c'.more_closings t);
  same_looks = c'.same_looks ∙ c.same_looks;
}

pub Calm-append :
    (xs ys : List Effect)
    → ((t : ℕ) → halvings t ys ≡ 0)
    → ((t : ℕ) → takings t ys ≡ 0)
    → looks ys ≡ []
    → Calm xs (xs ++ ys)
Calm-append xs ys h k l = record {
  same_halvings = λ t. omega (arith, halvings-append t xs ys, h t);
  same_takings = λ t. omega (arith, takings-append t xs ys, k t);
  more_closings = λ t. omega (arith, closings-append t xs ys);
  same_looks = looks-append-nil xs ys l;
}

module _ {World : Type 0} (d : Desk World) where
  execute_all-trace :
      (qs : List Statement) (r : Reply Done) (s : Scene World)
      → (execute_all d qs r s).1.trace ≡ s.trace
  execute_all-trace [] r s = refl
  execute_all-trace (q ∷ rest) (raised e) s = refl
  execute_all-trace (q ∷ rest) (returned x) s =
      let (r, s') = call d (d.execute q) s in execute_all-trace rest r s'

  -- A transaction either raises and commits nothing, or returns and has committed all statements.
  abbrev pub Atomic : List Statement → Scene World → Reply Done × Scene World → Type 0
  Atomic all s (r, s') =
      ((e : Error) × (r ≡ raised e) × (s'.trace ≡ s.trace))
      ⊎ ((x : Done) × (r ≡ returned x) × (s'.trace ≡ s.trace ++ committed all ∷ []))

  then_commit-Atomic :
      (all : List Statement) (s : Scene World) (r : Reply Done) (s' : Scene World)
      → s'.trace ≡ s.trace
      → Atomic all s (then_commit d all r s')
  then_commit-Atomic all s (raised e) s' h = inl (e, refl, h)
  then_commit-Atomic all s (returned x) s' h =
      let (r, s'') = call d d.commit s' in commit-Atomic r s'' h
    where
      commit-Atomic :
          (r : Reply Done) (s' : Scene World)
          → s'.trace ≡ s.trace
          → Atomic all s (commit_reply d all r s')
      commit-Atomic (raised e) s' h = inl (e, refl, h)
      commit-Atomic (returned x) s' h = inr (x, refl, ap (λ tr. tr ++ committed all ∷ []) h)

  pub transact-Atomic : (all : List Statement) (s : Scene World) → Atomic all s (transact d all s)
  unfolding transact
  transact-Atomic all s =
      let (r, s') = execute_all d all (returned done) s in
      then_commit-Atomic all s r s' (execute_all-trace all (returned done) s)

  pub transact-Calm :
      (all : List Statement) (s : Scene World) → Calm s.trace (transact d all s).1.trace
  transact-Calm all s = elim (transact-Atomic all s) [
    | inl (e, _, same) ↦ subst (Calm s.trace) (sym same) (Calm-refl s.trace)
    | inr (x, _, more) ↦
        subst (Calm s.trace) (sym more)
          (Calm-append s.trace (committed all ∷ []) (λ t. refl) (λ t. refl) refl)
  ]

  alert_reply-Calm :
      (e : Event) (r : Reply Done) (s : Scene World) → Calm s.trace (alert_reply d e r s).trace
  alert_reply-Calm e (raised x) s = Calm-refl s.trace
  alert_reply-Calm e (returned x) s =
      Calm-append s.trace (alerted e ∷ []) (λ t. refl) (λ t. refl) refl

  pub emit_check_failure-Calm :
      (check : Check) (e : Error) (ticket : Option ℕ) (s : Scene World)
      → Calm s.trace (emit_check_failure d check e ticket s).trace
  unfolding emit_check_failure
  emit_check_failure-Calm check e ticket s =
      let event = safety_check_failed (d.now s.world) check e ticket in
      let (r, s') = transact d (write_event event ∷ []) s in
      Calm-trans (transact-Calm (write_event event ∷ []) s) (alert_reply-Calm event r s')
