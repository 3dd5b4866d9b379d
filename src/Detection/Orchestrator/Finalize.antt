-- ===== src/Detection/Orchestrator/Finalize.antt =====
-- Which attempt wins the day: `DayOrchestrator.finalize`.
use mathlib.Core.List.{Memᴰ}
use mathlib.Core.Path.{subst}
use mathlib.Core.Bool.{false≢true}
use the_bot.Common.{
  ℕ, ◌≡◌, refl, sym, ◌∙◌, ◌⊎◌, inl, inr, Bool, true, false, List, [], ◌∷◌, none, some, arith,
  if◌then◌else◌, All, Bool-cases,
}
use the_bot.Common.Floats.{Float}
use the_bot.Detection.Attempt.{close_as_scratch}
use the_bot.Detection.Orchestrator.{
  Keyed, Day, has_filled, filled_of, key_lt, least_from, winner_of, trade_of, finalize,
}

-- No key of the list comes before `w`'s.
abbrev pub IsLeast : Keyed → List Keyed → Type 0
IsLeast w = All (λ k. key_lt k w ≡ false)

key_lt_trans : (a b c : Keyed) → key_lt b a ≡ false → key_lt c b ≡ false → key_lt c a ≡ false
unfolding key_lt
key_lt_trans a b c p q = ground arith

key_lt_asym : (a b : Keyed) → key_lt a b ≡ true → key_lt b a ≡ false
unfolding key_lt
key_lt_asym a b p = ground arith

key_lt_irrefl : (a : Keyed) → key_lt a a ≡ false
unfolding key_lt
key_lt_irrefl a = ground arith

-- The result is `best` or in the list, and comes before neither.
skip_second : {w best k : Keyed} {ks : List Keyed} → Memᴰ w (best ∷ ks) → Memᴰ w (best ∷ k ∷ ks)
skip_second (Memᴰ.head e) = Memᴰ.head e
skip_second (Memᴰ.tail m) = Memᴰ.tail (Memᴰ.tail m)

least_from-IsLeast :
    (best : Keyed) (ks : List Keyed)
    → Memᴰ (least_from best ks) (best ∷ ks) × IsLeast (least_from best ks) (best ∷ ks)
unfolding least_from
least_from-IsLeast best [] = (Memᴰ.head refl, (key_lt_irrefl best, tt))
least_from-IsLeast best (k ∷ ks) = elim (Bool-cases (key_lt k best)) [
  | inl less ↦
      let (in_rest, least) = least_from-IsLeast k ks in
      let w = least_from k ks in
      let chosen : least_from best (k ∷ ks) ≡ w = rw less in
      subst Wins (sym chosen)
        (Memᴰ.tail in_rest, (key_lt_trans w k best least.0 (key_lt_asym k best less), least))
  | inr more ↦
      let (in_rest, least) = least_from-IsLeast best ks in
      let w = least_from best ks in
      let chosen : least_from best (k ∷ ks) ≡ w = rw more in
      subst Wins (sym chosen)
        (skip_second in_rest, (least.0, (key_lt_trans w best k least.0 more, least.1)))
]
  where
    Wins : Keyed → Type 0
    Wins w = Memᴰ w (best ∷ k ∷ ks) × IsLeast w (best ∷ k ∷ ks)

mem_nil : {w : Keyed} → Memᴰ w [] → ⊥
mem_nil m = elim m [ ]

-- The attempts that filled are among all attempts, and the least of them is the least of all that
-- filled.
kept :
    (w k : Keyed) (rest ks : List Keyed) (b : Bool)
    → has_filled k ≡ b
    → (Memᴰ w rest → Memᴰ w ks × (has_filled w ≡ true))
    → Memᴰ w (if b then k ∷ rest else rest)
    → Memᴰ w (k ∷ ks) × (has_filled w ≡ true)
kept w k rest ks true is later (Memᴰ.head e) = (Memᴰ.head e, rw e is)
kept w k rest ks true is later (Memᴰ.tail m) = let (n, f) = later m in (Memᴰ.tail n, f)
kept w k rest ks false is later m = let (n, f) = later m in (Memᴰ.tail n, f)

mem-filled_of :
    (w : Keyed) (ks : List Keyed) → Memᴰ w (filled_of ks) → Memᴰ w ks × (has_filled w ≡ true)
unfolding filled_of
mem-filled_of w [] m = elim (mem_nil m) [ ]
mem-filled_of w (k ∷ ks) m = kept w k (filled_of ks) ks (has_filled k) refl (mem-filled_of w ks) m

-- No attempt that filled has a key before `w`'s.
abbrev pub IsFirstFilled : Keyed → List Keyed → Type 0
IsFirstFilled w = All (λ k. has_filled k ≡ true → key_lt k w ≡ false)

IsLeast-filled_of : (w : Keyed) (ks : List Keyed) → IsLeast w (filled_of ks) → IsFirstFilled w ks
unfolding filled_of
IsLeast-filled_of w [] h = tt
IsLeast-filled_of w (k ∷ ks) h = elim (Bool-cases (has_filled k)) [
  | inl is ↦
      let h' : IsLeast w (k ∷ filled_of ks) = rw is at h in
      ((λ _. h'.0), IsLeast-filled_of w ks h'.1)
  | inr is_not ↦
      let h' : IsLeast w (filled_of ks) = rw is_not at h in
      ((λ is. absurd (false≢true (sym is_not ∙ is))), IsLeast-filled_of w ks h')
]

none_filled : (ks : List Keyed) → filled_of ks ≡ [] → All (λ k. has_filled k ≡ false) ks
unfolding filled_of
none_filled [] h = tt
none_filled (k ∷ ks) h = elim (Bool-cases (has_filled k)) [
  | inl is ↦ cc (let h' : Path (List Keyed) (k ∷ filled_of ks) [] = rw is at h in h')
  | inr is_not ↦ (is_not, none_filled ks (let h' : filled_of ks ≡ [] = rw is_not at h in h'))
]

-- What `finalize` may return: nothing, if nothing filled; or the trade of the first that filled.
abbrev pub FirstWins : Day → ℕ → Float → Type 0
FirstWins day timestamp final_close =
    (All (λ k. has_filled k ≡ false) day.attempts
      × (finalize day timestamp final_close ≡ (none, [])))
    ⊎ ((w : Keyed) × Memᴰ w day.attempts
        × (has_filled w ≡ true)
        × IsFirstFilled w day.attempts
        × ((finalize day timestamp final_close).0
            ≡ some (trade_of (close_as_scratch w.attempt timestamp final_close).0)))

FirstWins-of :
    (day : Day) (timestamp : ℕ) (final_close : Float) (ks : List Keyed)
    → filled_of day.attempts ≡ ks
    → FirstWins day timestamp final_close
unfolding finalize winner_of
FirstWins-of day timestamp final_close [] e =
    inl (none_filled day.attempts e, rw (e, winner_of, finalize))
FirstWins-of day timestamp final_close (k ∷ ks) e =
    let (m, least) = least_from-IsLeast k ks in
    let w = least_from k ks in
    let (in_day, is) = mem-filled_of w day.attempts (rw e m) in
    inr (w, in_day, is, IsLeast-filled_of w day.attempts (rw e least), rw (e, winner_of, finalize))

-- Either no attempt of the day filled, and there is no trade and no event; or the trade is that of an
-- attempt of the day that filled and of which no other that filled has a key before it, closed as a
-- scratch at the final close if it was still open.
pub finalize-FirstWins :
    (day : Day) (timestamp : ℕ) (final_close : Float) → FirstWins day timestamp final_close
finalize-FirstWins day timestamp final_close =
    FirstWins-of day timestamp final_close (filled_of day.attempts) refl
