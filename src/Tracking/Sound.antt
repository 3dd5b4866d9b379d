-- ===== src/Tracking/Sound.antt =====
-- Every operation of the position tracker keeps its dictionary in step with what the run has done.
use the_bot.Common.{
  ℕ, ◌+◌, ◌≤◌, ◌≡◌, refl, ◌∙◌, inl, inr, false, List, [], ◌∷◌, ◌++◌, Option, arith, ◌==◌,
  Bool-cases,
}
use the_bot.Orders.Broker.{Error}
use the_bot.Tracking.Desk.{looked, Check, Desk, Scene, Effect, taken}
use the_bot.Tracking.Tracker.{
  Info, Post, put, drop_ticket, marked, emit_check_failure, keep_tracked,
}
use the_bot.Tracking.Trace.{
  here, halvings, takings, closings, halvings-append, takings-append, closings-append, Calm,
  emit_check_failure-Calm,
}
use the_bot.Tracking.Entries.{
  entries, unhalved, Distinct, entries-put, unhalved-put, entries-drop_ticket, unhalved-drop_ticket,
  entries-mark, unhalved-mark,
}

-- No ticket is tracked twice; a position was halved at most once for each time that it was taken into
-- tracking, and less often while it may still be halved; and a position that was taken is tracked until
-- its final close is committed.
pub record IsSound (tracked : List (ℕ × Info)) (trace : List Effect) : Type 0 where
  pub distinct : Distinct tracked
  pub bounded : (t : ℕ) → halvings t trace + unhalved t tracked ≤ takings t trace
  pub kept : (t : ℕ) → 1 ≤ takings t trace → 1 ≤ entries t tracked + closings t trace

abbrev pub Sound : {World : Type 0} → Post World → Type 0
Sound p = IsSound p.tracker.tracked p.scene.trace

pub Sound-Calm :
    {tracked : List (ℕ × Info)} {xs ys : List Effect}
    → Calm xs ys
    → IsSound tracked xs
    → IsSound tracked ys
Sound-Calm c h = record {
  distinct = h.distinct;
  bounded = λ t. omega (arith, h.bounded t, c.same_halvings t, c.same_takings t);
  kept = λ t took.
      let before = h.kept t (omega (arith, c.same_takings t)) in
      omega (arith, before, c.more_closings t);
}

-- From `xs` to `ys` the partial closes grow by `dh` and the closings by `dc` at least, the takings not.
pub record Grows (dh dc : ℕ → ℕ) (xs ys : List Effect) : Type 0 where
  pub halved_by : (t : ℕ) → halvings t ys ≡ halvings t xs + dh t
  pub taken_by : (t : ℕ) → takings t ys ≡ takings t xs
  pub closed_by : (t : ℕ) → closings t xs + dc t ≤ closings t ys

pub Grows-Calm :
    {dh dc : ℕ → ℕ} {xs ys zs : List Effect} → Grows dh dc xs ys → Calm ys zs → Grows dh dc xs zs
Grows-Calm g c = record {
  halved_by = λ t. c.same_halvings t ∙ g.halved_by t;
  taken_by = λ t. c.same_takings t ∙ g.taken_by t;
  closed_by = λ t. omega (arith, g.closed_by t, c.more_closings t);
}

-- A step about the ticket `k` leaves what is known of the others.
abbrev pub Steps : {World : Type 0} → ℕ → Post World → Post World → Type 0
Steps k p p' =
    Sound p'
    × ((t : ℕ) → (t == k) ≡ false → unhalved t p'.tracker.tracked ≡ unhalved t p.tracker.tracked)

pub Sound-taken :
    (k : ℕ) (i : Info) {tracked : List (ℕ × Info)} {trace : List Effect}
    → IsSound tracked trace
    → IsSound (put k i tracked) (trace ++ taken k ∷ [])
Sound-taken k i {tracked = tracked} {trace = trace} h = record {
  distinct = λ t. ground (arith, entries-put t k i tracked, h.distinct t);
  bounded = λ t.
      let halved_as = halvings-append t trace (taken k ∷ []) in
      let taken_as = takings-append t trace (taken k ∷ []) in
      let entered = unhalved-put t k i tracked in let before = h.bounded t in ground arith;
  kept = λ t took.
      let taken_as = takings-append t trace (taken k ∷ []) in
      let closed_as = closings-append t trace (taken k ∷ []) in
      let entered = entries-put t k i tracked in let before = h.kept t in ground arith;
}

pub Sound-looked :
    (now : ℕ) {tracked : List (ℕ × Info)} {trace : List Effect}
    → IsSound tracked trace
    → IsSound tracked (trace ++ looked now ∷ [])
Sound-looked now {trace = trace} h = record {
  distinct = h.distinct;
  bounded = λ t.
      let halved_as = halvings-append t trace (looked now ∷ []) in
      let taken_as = takings-append t trace (looked now ∷ []) in
      let before = h.bounded t in omega arith;
  kept = λ t took.
      let taken_as = takings-append t trace (looked now ∷ []) in
      let closed_as = closings-append t trace (looked now ∷ []) in
      let before = h.kept t (omega arith) in omega arith;
}

module _ {World : Type 0} (d : Desk World) where
  pub Calm-Steps :
      (k : ℕ) (p : Post World) (s : Scene World)
      → Calm p.scene.trace s.trace
      → Sound p
      → Steps k p (record p { scene = s })
  Calm-Steps k p s c h = (Sound-Calm c h, λ t other. refl)

  pub failure-Steps :
      (k : ℕ) (p : Post World) (check : Check) (e : Error) (ticket : Option ℕ)
      → Sound p
      → Steps k p (record p { scene = emit_check_failure d check e ticket p.scene })
  failure-Steps k p check e ticket h =
      Calm-Steps k p (emit_check_failure d check e ticket p.scene)
        (emit_check_failure-Calm d check e ticket p.scene) h

  -- The position `k` is out of tracking, and its final close is committed.
  pub dropped-Steps :
      (k : ℕ) (p : Post World) (s : Scene World)
      → Grows (λ t. 0) (λ t. here t k) p.scene.trace s.trace
      → Sound p
      → Steps k p (record {
        tracker = keep_tracked d (drop_ticket k p.tracker.tracked) p.tracker;
        scene = s;
      })
  dropped-Steps k p s g h = (
    record {
      distinct = λ t.
          let entered = entries-drop_ticket t k p.tracker.tracked in
          let before = h.distinct t in ground arith;
      bounded = λ t.
          let entered = unhalved-drop_ticket t k p.tracker.tracked in
          let before = h.bounded t in
          let halved_as = g.halved_by t in let taken_as = g.taken_by t in ground arith;
      kept = λ t took.
          let entered = entries-drop_ticket t k p.tracker.tracked in
          let before = h.kept t (omega (arith, g.taken_by t)) in
          let closed_as = g.closed_by t in ground arith;
    },
    λ t other. let entered = unhalved-drop_ticket t k p.tracker.tracked in ground arith,
  )

  -- The position `k` has been halved, and is marked.
  pub marked-Steps :
      (k : ℕ) (p : Post World) (s : Scene World)
      → Grows (λ t. here t k) (λ t. 0) p.scene.trace s.trace
      → 1 ≤ unhalved k p.tracker.tracked
      → Sound p
      → Steps k p (marked d k (record p { scene = s }))
  marked-Steps k p s g open_half h = (
    record {
      distinct = λ t. omega (arith, entries-mark t k p.tracker.tracked, h.distinct t);
      bounded = λ t. elim (Bool-cases (t == k)) [
        | inl same ↦
            let t_is_k : t ≡ k = ground arith in
            let entered = unhalved-mark t k p.tracker.tracked in
            let before = h.bounded t in
            let halved_as = g.halved_by t in
            let taken_as = g.taken_by t in
            let open_half' : 1 ≤ unhalved t p.tracker.tracked = rw t_is_k open_half in ground arith
        | inr other ↦
            let entered = unhalved-mark t k p.tracker.tracked in
            let before = h.bounded t in
            let halved_as = g.halved_by t in let taken_as = g.taken_by t in ground arith
      ];
      kept = λ t took.
          let before = h.kept t (omega (arith, g.taken_by t)) in
          omega (arith, before, entries-mark t k p.tracker.tracked, g.closed_by t);
    },
    λ t other. let entered = unhalved-mark t k p.tracker.tracked in ground arith,
  )
