-- ===== src/Common/Deque.antt =====
-- Python's `collections.deque(maxlen=k)`: what remains of a sequence when only its last `k`
-- elements are kept.
use Prim.Native.Nat.{ℕ, ◌+◌, ◌-◌, ◌≤◌, min}
use mathlib.Core.Path.{◌≡◌, ◌∙◌, sym, ap}
use mathlib.Core.List.{List, [], ◌∷◌, ◌++◌, map}
use native.Mathlib.Nat.{zero-add}
use native.Mathlib.Omega.{arith}
use the_bot.Common.Every.{All, All-drop}
use the_bot.Common.Lists.{
  length, drop, length-append, length-drop, drop-append, drop-drop, map_from, length-map_from,
  drop-map_from, length-map, drop-map, map_from-append,
}

module _ {ℓ} {A : Type ℓ} where
  -- The last `k` elements (`xs[-k:]` for a positive `k`).
  unfoldable pub last : ℕ → List A → List A
  last k xs = drop (length xs - k) xs

  -- `d.append(x)` where `d` is a deque with `maxlen=k`.
  abbrev pub push : ℕ → List A → A → List A
  push k d x = last k (d ++ x ∷ [])

  pub length-last : (k : ℕ) (xs : List A) → length (last k xs) ≡ min k (length xs)
  unfolding last
  length-last k xs = omega (arith, length-drop (length xs - k) xs)

  pub last_all : (k : ℕ) (xs : List A) → length xs ≤ k → last k xs ≡ xs
  unfolding last
  last_all k xs h = ap (λ n. drop n xs) (let e : length xs - k ≡ 0 = omega arith in e)

  -- Keeping the last `k` at every step keeps the last `k` of the whole sequence.
  pub push-last : (k : ℕ) (xs : List A) (x : A) → push k (last k xs) x ≡ last k (xs ++ x ∷ [])
  unfolding last
  push-last k xs x =
      let m = length xs - k in
      let ys = xs ++ x ∷ [] in
      let joined : drop m xs ++ x ∷ [] ≡ drop m ys =
        sym (drop-append m xs (x ∷ []) (omega arith)) in
      let total : m + (length (drop m ys) - k) ≡ length ys - k =
        omega (arith, length-append xs (x ∷ []), length-drop m ys) in
      ap (λ t. drop (length t - k) t) joined
      ∙ drop-drop m (length (drop m ys) - k) ys
      ∙ ap (λ n. drop n ys) total

-- A full deque of elements with their positions.
pub last-map_from {ℓ κ} :
    {A : Type ℓ} {B : Type κ} (f : ℕ → A → B) (k : ℕ) (xs : List A)
    → last k (map_from f 0 xs) ≡ map_from f (length xs - k) (drop (length xs - k) xs)
unfolding last
last-map_from f k xs = rw (length-map_from f 0 xs, drop-map_from f 0 (length xs - k) xs, zero-add)

-- One more element, with its position.
pub push-map_from {ℓ κ} :
    {A : Type ℓ} {B : Type κ} (f : ℕ → A → B) (k : ℕ) (xs : List A) (x : A)
    → push k (last k (map_from f 0 xs)) (f (length xs) x) ≡ last k (map_from f 0 (xs ++ x ∷ []))
push-map_from f k xs x =
    push-last k (map_from f 0 xs) (f (length xs) x)
    ∙ ap (last k) (sym (map_from-append f 0 xs (x ∷ []) ∙ rw zero-add))

-- Nothing is lost by keeping the last elements twice.
pub last-last {ℓ} : {A : Type ℓ} (k : ℕ) (xs : List A) → last k (last k xs) ≡ last k xs
last-last k xs = last_all k (last k xs) (omega (arith, length-last k xs))

pub last-map {ℓ κ} :
    {A : Type ℓ} {B : Type κ} (f : A → B) (k : ℕ) (xs : List A)
    → last k (map f xs) ≡ map f (last k xs)
unfolding last
last-map f k xs = rw (length-map f xs) (drop-map f (length xs - k) xs)

pub All-last {ℓ κ} :
    {A : Type ℓ} (P : A → Type κ) (k : ℕ) (xs : List A) → All P xs → All P (last k xs)
unfolding last
All-last P k xs h = All-drop P (length xs - k) xs h
