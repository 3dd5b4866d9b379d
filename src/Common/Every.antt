-- ===== src/Common/Every.antt =====
-- A property of every element of a list.
use mathlib.Core.Bool.{Bool, true, false}
use mathlib.Core.List.{List, [], ◌∷◌, ◌++◌}
use Prim.Native.Nat.{ℕ, zero, suc, ◌+◌, ◌≤◌, ◌<◌}
use native.Mathlib.Omega.{arith}
use the_bot.Common.Tests.{if◌then◌else◌}
use the_bot.Common.Lists.{drop, range, flat_map}

abbrev pub All {ℓ κ} : {A : Type ℓ} → (A → Type κ) → List A → Type κ
All P [] = Unit
All P (x ∷ xs) = P x × All P xs

module _ {ℓ κ} {A : Type ℓ} (P : A → Type κ) where
  pub All-append : (xs ys : List A) → All P xs → All P ys → All P (xs ++ ys)
  All-append [] ys hx hy = hy
  All-append (x ∷ xs) ys hx hy = (hx.0, All-append xs ys hx.1 hy)

  pub All-drop : (n : ℕ) (xs : List A) → All P xs → All P (drop n xs)
  All-drop zero xs h = h
  All-drop (suc n) [] h = tt
  All-drop (suc n) (x ∷ xs) h = All-drop n xs h.1

  pub All-if : (b : Bool) (x : A) → P x → All P (if b then x ∷ [] else [])
  All-if true x h = (h, tt)
  All-if false x h = tt

  pub All-flat_map-range :
      (f : ℕ → List A) (s n : ℕ)
      → ((j : ℕ) → s ≤ j → j < s + n → All P (f j))
      → All P (flat_map f (range s n))
  All-flat_map-range f s zero h = tt
  All-flat_map-range f s (suc n) h =
      All-append (f s) (flat_map f (range (suc s) n)) (h s (omega arith) (omega arith))
        (All-flat_map-range f (suc s) n (λ j p q. h j (omega arith) (omega arith)))
