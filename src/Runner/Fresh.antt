-- ===== src/Runner/Fresh.antt =====
-- Which of the polled candles are processed, and in what order.
use mathlib.Core.Bool.{true≢false}
use the_bot.Common.{
  ℕ, ◌+◌, ◌≤◌, ◌<◌, ◌≡◌, ◌↔◌, ◌⊎◌, sym, ◌∙◌, inl, inr, Bool, true, false, List, [], ◌∷◌, Option,
  none, some, arith, ltb, Bool-cases, if◌then◌else◌, All,
}
use the_bot.Detection.Bars.{Bar}
use the_bot.Runner.Bars.{
  insert_by_time, sort_by_time, is_new_closed, keep_new, filter_new_closed_bars,
}

-- The bar is closed at `now`.
abbrev pub IsClosed : ℕ → Bar → Type 0
IsClosed now b = b.time + 5 ≤ now

abbrev pub IsForming : ℕ → Bar → Type 0
IsForming now b = now < b.time + 5

-- A bar of the time `time` is among what has been processed.
abbrev pub IsReached : Option ℕ → ℕ → Type 0
IsReached none time = ⊥
IsReached (some last) time = time ≤ last

abbrev pub IsLater : Option ℕ → ℕ → Type 0
IsLater none time = Unit
IsLater (some last) time = last < time

-- The second is no earlier than the first.
abbrev pub IsNoEarlier : Option ℕ → Option ℕ → Type 0
IsNoEarlier none last = Unit
IsNoEarlier (some time) last = IsReached last time

abbrev pub IsSorted : List Bar → Type 0
IsSorted [] = Unit
IsSorted (b ∷ bars) = All (λ (c : Bar). b.time ≤ c.time) bars × IsSorted bars

if-All :
    (P : Bar → Type 0) (u : Bool) (xs ys : List Bar)
    → All P xs
    → All P ys
    → All P (if u then xs else ys)
if-All P true xs ys h g = h
if-All P false xs ys h g = g

pub All-weaken :
    (P Q : Bar → Type 0) (bars : List Bar) → ((b : Bar) → P b → Q b) → All P bars → All Q bars
All-weaken P Q [] f h = tt
All-weaken P Q (b ∷ bars) f h = (f b h.0, All-weaken P Q bars f h.1)

insert-All :
    (P : Bar → Type 0) (b : Bar) (bars : List Bar)
    → P b
    → All P bars
    → All P (insert_by_time b bars)
insert-All P b [] h hs = (h, tt)
insert-All P b (c ∷ bars) h hs =
    if-All P (ltb c.time b.time) (c ∷ insert_by_time b bars) (b ∷ c ∷ bars)
      (hs.0, insert-All P b bars h hs.1) (h, hs)

All-insert :
    (P : Bar → Type 0) (b : Bar) (bars : List Bar)
    → All P (insert_by_time b bars)
    → P b × All P bars
All-insert P b [] h = h
All-insert P b (c ∷ bars) h = parts (ltb c.time b.time) h (All-insert P b bars)
  where
    parts :
        (u : Bool)
        → All P (if u then c ∷ insert_by_time b bars else b ∷ c ∷ bars)
        → (All P (insert_by_time b bars) → P b × All P bars)
        → P b × All P (c ∷ bars)
    parts true g go = let (first, rest) = go g.1 in (first, (g.0, rest))
    parts false g go = g

insert-IsSorted : (b : Bar) (bars : List Bar) → IsSorted bars → IsSorted (insert_by_time b bars)
insert-IsSorted b [] h = (tt, tt)
insert-IsSorted b (c ∷ bars) h = elim (Bool-cases (ltb c.time b.time)) [
  | inl before ↦ rw before (
    insert-All (λ (x : Bar). c.time ≤ x.time) b bars (ground arith) h.0,
    insert-IsSorted b bars h.1,
  )
  | inr after ↦
      let le : b.time ≤ c.time = ground arith in
      rw after (
        (
          le,
          All-weaken (λ (x : Bar). c.time ≤ x.time) (λ (x : Bar). b.time ≤ x.time) bars
              (λ x h'. omega arith) h.0,
        ),
        h,
      )
]

sort-IsSorted : (bars : List Bar) → IsSorted (sort_by_time bars)
sort-IsSorted [] = tt
sort-IsSorted (b ∷ bars) = insert-IsSorted b (sort_by_time bars) (sort-IsSorted bars)

sort-All : (P : Bar → Type 0) (bars : List Bar) → All P (sort_by_time bars) ↔ All P bars
sort-All P [] = (λ h. h, λ h. h)
sort-All P (b ∷ bars) =
    let (to, from) = sort-All P bars in
    (
      λ h. let (first, rest) = All-insert P b (sort_by_time bars) h in (first, to rest),
      λ h. insert-All P b (sort_by_time bars) h.0 (from h.1),
    )

is_new_closed_iff :
    (last : Option ℕ) (now : ℕ) (b : Bar)
    → (is_new_closed last now b ≡ true) ↔ (IsClosed now b × IsLater last b.time)
is_new_closed_iff none now b = (λ h. (ground arith, tt), λ h. let c = h.0 in ground arith)
is_new_closed_iff (some last) now b =
    (λ h. (ground arith, ground arith), λ h. let (c, d) = h in ground arith)

-- `P` holds of the bar if it is closed, and later than what has been processed.
abbrev pub IfNew : Option ℕ → ℕ → (Bar → Type 0) → Bar → Type 0
IfNew last now P b = IsClosed now b → IsLater last b.time → P b

keep_new-All :
    (P : Bar → Type 0) (last : Option ℕ) (now : ℕ) (bars : List Bar)
    → All P (keep_new last now bars) ↔ All (IfNew last now P) bars
keep_new-All P last now [] = (λ h. h, λ h. h)
keep_new-All P last now (b ∷ bars) =
    let (to, from) = keep_new-All P last now bars in
    let (opens, closes) = is_new_closed_iff last now b in
    elim (Bool-cases (is_new_closed last now b)) [
      | inl new ↦
          let (c, l) = opens new in rw new (λ h. (λ c' l'. h.0, to h.1), λ h. (h.0 c l, from h.1))
      | inr old ↦
          rw old
            (λ h. (λ c l. absurd (true≢false (sym (closes (c, l)) ∙ old)), to h), λ h. from h.1)
    ]

pub filter_new_closed_bars-IfNew :
    (last : Option ℕ) (now : ℕ) (candles : List Bar) (P : Bar → Type 0)
    → IsSorted (filter_new_closed_bars last now candles)
      × (All P (filter_new_closed_bars last now candles) ↔ All (IfNew last now P) candles)
unfolding filter_new_closed_bars
filter_new_closed_bars-IfNew last now candles P =
    let (to, from) = sort-All P (keep_new last now candles) in
    let (to', from') = keep_new-All P last now candles in
    (sort-IsSorted (keep_new last now candles), (λ h. to' (to h), λ h. from (from' h)))

IsLater-cases : (last : Option ℕ) (time : ℕ) → IsLater last time ⊎ IsReached last time
IsLater-cases none time = inl tt
IsLater-cases (some last) time = elim (Bool-cases (ltb last time)) [
  | inl h ↦ inl (ground arith)
  | inr h ↦ inr (ground arith)
]

IsForming-cases : (now : ℕ) (b : Bar) → IsForming now b ⊎ IsClosed now b
IsForming-cases now b = elim (Bool-cases (ltb now (b.time + 5))) [
  | inl h ↦ inl (ground arith)
  | inr h ↦ inr (ground arith)
]

-- `P` holds of the bar, unless it is still forming or has been processed.
abbrev pub IsOldOr : Option ℕ → ℕ → (Bar → Type 0) → Bar → Type 0
IsOldOr last now P b = IsForming now b ⊎ (IsReached last b.time ⊎ P b)

not_both : (last : Option ℕ) (time : ℕ) → IsLater last time → IsReached last time → ⊥
not_both none time l r = r
not_both (some last) time l r = omega arith

pub IfNew-IsOldOr :
    (last : Option ℕ) (now : ℕ) (P : Bar → Type 0) (b : Bar)
    → IfNew last now P b ↔ IsOldOr last now P b
IfNew-IsOldOr last now P b = (
  λ new. elim (IsForming-cases now b) [
    | inl forming ↦ inl forming
    | inr closed ↦ elim (IsLater-cases last b.time) [
      | inl later ↦ inr (inr (new closed later))
      | inr reached ↦ inr (inl reached)
    ]
  ],
  λ h c l. elim h [
    | inl forming ↦ absurd (let e : ⊥ = omega arith in e)
    | inr (inl reached) ↦ absurd (not_both last b.time l reached)
    | inr (inr holds) ↦ holds
  ],
)

-- The bars that are processed are in the order of their times, and they are exactly the candles that
-- are neither still forming nor processed already: a predicate holds of all of them just when it holds
-- of all such candles.
pub filter_new_closed_bars-IsSorted :
    (last : Option ℕ) (now : ℕ) (candles : List Bar) (P : Bar → Type 0)
    → IsSorted (filter_new_closed_bars last now candles)
      × (All P (filter_new_closed_bars last now candles) ↔ All (IsOldOr last now P) candles)
filter_new_closed_bars-IsSorted last now candles P =
    let (sorted, (to, from)) = filter_new_closed_bars-IfNew last now candles P in
    (
      sorted,
      (
        λ h.
            All-weaken (IfNew last now P) (IsOldOr last now P) candles
              (λ b. (IfNew-IsOldOr last now P b).0) (to h),
        λ h. from (
            All-weaken (IsOldOr last now P) (IfNew last now P) candles
              (λ b. (IfNew-IsOldOr last now P b).1) h),
      ),
    )
