-- ===== src/Common/Lists.antt =====
-- Lists measured and indexed by native numbers, under the library's names, and lists whose
-- elements are built from their positions (Python's `enumerate`).
use Prim.Native.Nat.{ℕ, zero, suc, ◌+◌, ◌-◌, ◌≤◌, ◌<◌, min}
use mathlib.Core.Path.{◌≡◌, refl, sym, ap, ap₂, ◌∙◌}
use mathlib.Core.List.{List, [], ◌∷◌, ◌++◌, map, append-nil, append_assoc}
use mathlib.Core.Option.{Option, none, some}
use native.Mathlib.Nat.{add-zero, add-suc, suc-add, zero-add}
use native.Mathlib.Omega.{arith}

module _ {ℓ} {A : Type ℓ} where
  abbrev pub length : List A → ℕ
  length [] = 0
  length (x ∷ xs) = suc (length xs)

  abbrev pub get_elem? : List A → ℕ → Option A
  get_elem? [] i = none
  get_elem? (x ∷ xs) zero = some x
  get_elem? (x ∷ xs) (suc i) = get_elem? xs i

  abbrev pub take : ℕ → List A → List A
  take zero xs = []
  take (suc n) [] = []
  take (suc n) (x ∷ xs) = x ∷ take n xs

  abbrev pub drop : ℕ → List A → List A
  drop zero xs = xs
  drop (suc n) [] = []
  drop (suc n) (x ∷ xs) = drop n xs

  pub length-append : (xs ys : List A) → length (xs ++ ys) ≡ length xs + length ys
  length-append [] ys = omega arith
  length-append (x ∷ xs) ys = omega (arith, length-append xs ys)

  pub length-take : (n : ℕ) (xs : List A) → length (take n xs) ≡ min n (length xs)
  length-take zero xs = omega arith
  length-take (suc n) [] = omega arith
  length-take (suc n) (x ∷ xs) = omega (arith, length-take n xs)

  pub length-drop : (n : ℕ) (xs : List A) → length (drop n xs) ≡ length xs - n
  length-drop zero xs = omega arith
  length-drop (suc n) [] = omega arith
  length-drop (suc n) (x ∷ xs) = omega (arith, length-drop n xs)

  pub drop-append : (n : ℕ) (xs ys : List A) → n ≤ length xs → drop n (xs ++ ys) ≡ drop n xs ++ ys
  drop-append zero xs ys h = refl
  drop-append (suc n) [] ys h = absurd (omega arith)
  drop-append (suc n) (x ∷ xs) ys h = drop-append n xs ys (omega arith)

  pub take-append : (n : ℕ) (xs ys : List A) → n ≤ length xs → take n (xs ++ ys) ≡ take n xs
  take-append zero xs ys h = refl
  take-append (suc n) [] ys h = absurd (omega arith)
  take-append (suc n) (x ∷ xs) ys h = ap (λ t. x ∷ t) (take-append n xs ys (omega arith))

  pub take_all : (n : ℕ) (xs : List A) → length xs ≤ n → take n xs ≡ xs
  take_all zero [] h = refl
  take_all zero (x ∷ xs) h = absurd (omega arith)
  take_all (suc n) [] h = refl
  take_all (suc n) (x ∷ xs) h = ap (λ t. x ∷ t) (take_all n xs (omega arith))

  pub drop-drop : (m n : ℕ) (xs : List A) → drop n (drop m xs) ≡ drop (m + n) xs
  drop-drop zero n xs = rw zero-add
  drop-drop (suc m) zero [] = rw suc-add
  drop-drop (suc m) (suc n) [] = rw suc-add
  drop-drop (suc m) n (x ∷ xs) = rw suc-add (drop-drop m n xs)

  pub get_elem?-append :
      (xs ys : List A) (i : ℕ) → i < length xs → get_elem? (xs ++ ys) i ≡ get_elem? xs i
  get_elem?-append [] ys i h = absurd (omega arith)
  get_elem?-append (x ∷ xs) ys zero h = refl
  get_elem?-append (x ∷ xs) ys (suc i) h = get_elem?-append xs ys i (omega arith)

  pub get_elem?-append_some :
      (xs ys : List A) (i : ℕ) {x : A} → get_elem? xs i ≡ some x → get_elem? (xs ++ ys) i ≡ some x
  get_elem?-append_some [] ys i h = cc
  get_elem?-append_some (x ∷ xs) ys zero h = h
  get_elem?-append_some (x ∷ xs) ys (suc i) h = get_elem?-append_some xs ys i h

  pub get_elem?-append_here :
      (xs : List A) (y : A) (ys : List A) → get_elem? (xs ++ y ∷ ys) (length xs) ≡ some y
  get_elem?-append_here [] y ys = refl
  get_elem?-append_here (x ∷ xs) y ys = get_elem?-append_here xs y ys

  pub get_elem?-drop : (n i : ℕ) (xs : List A) → get_elem? (drop n xs) i ≡ get_elem? xs (n + i)
  get_elem?-drop zero i xs = rw zero-add
  get_elem?-drop (suc n) i [] = refl
  get_elem?-drop (suc n) i (x ∷ xs) = rw suc-add (get_elem?-drop n i xs)

  pub get_elem?_lt : (xs : List A) (i : ℕ) → i < length xs → (x : A) × (get_elem? xs i ≡ some x)
  get_elem?_lt [] i h = absurd (omega arith)
  get_elem?_lt (x ∷ xs) zero h = (x, refl)
  get_elem?_lt (x ∷ xs) (suc i) h = get_elem?_lt xs i (omega arith)

abbrev pub to_list {ℓ} : {A : Type ℓ} → Option A → List A
to_list none = []
to_list (some a) = a ∷ []

-- The numbers `start`, `start + 1`, … (Python's `range`, by its start and its length).
abbrev pub range : ℕ → ℕ → List ℕ
range start zero = []
range start (suc n) = start ∷ range (suc start) n

pub range-append : (s m n : ℕ) → range s (m + n) ≡ range s m ++ range (s + m) n
range-append s zero n = rw (zero-add, add-zero)
range-append s (suc m) n = rw suc-add (rw (range-append (suc s) m n, add-suc, suc-add))

module _ {ℓ κ} {A : Type ℓ} {B : Type κ} where
  -- Every element with its position, counted from `start`.
  abbrev pub map_from : (ℕ → A → B) → ℕ → List A → List B
  map_from f start [] = []
  map_from f start (x ∷ xs) = f start x ∷ map_from f (suc start) xs

  abbrev pub flat_map : (A → List B) → List A → List B
  flat_map f [] = []
  flat_map f (x ∷ xs) = f x ++ flat_map f xs

  pub length-map : (f : A → B) (xs : List A) → length (map f xs) ≡ length xs
  length-map f [] = refl
  length-map f (x ∷ xs) = ap suc (length-map f xs)

  pub drop-map : (f : A → B) (n : ℕ) (xs : List A) → drop n (map f xs) ≡ map f (drop n xs)
  drop-map f zero xs = refl
  drop-map f (suc n) [] = refl
  drop-map f (suc n) (x ∷ xs) = drop-map f n xs

  pub flat_map-append :
      (f : A → List B) (xs ys : List A) → flat_map f (xs ++ ys) ≡ flat_map f xs ++ flat_map f ys
  flat_map-append f [] ys = refl
  flat_map-append f (x ∷ xs) ys = rw (flat_map-append f xs ys) (sym (append_assoc (f x) _ _))

  pub length-map_from : (f : ℕ → A → B) (s : ℕ) (xs : List A) → length (map_from f s xs) ≡ length xs
  length-map_from f s [] = refl
  length-map_from f s (x ∷ xs) = ap suc (length-map_from f (suc s) xs)

  pub map_from-append :
      (f : ℕ → A → B) (s : ℕ) (xs ys : List A)
      → map_from f s (xs ++ ys) ≡ map_from f s xs ++ map_from f (s + length xs) ys
  map_from-append f s [] ys = rw add-zero
  map_from-append f s (x ∷ xs) ys =
      rw (add-suc, ← suc-add) (ap (λ t. f s x ∷ t) (map_from-append f (suc s) xs ys))

  pub drop-map_from :
      (f : ℕ → A → B) (s n : ℕ) (xs : List A)
      → drop n (map_from f s xs) ≡ map_from f (s + n) (drop n xs)
  drop-map_from f s zero xs = rw add-zero
  drop-map_from f s (suc n) [] = refl
  drop-map_from f s (suc n) (x ∷ xs) = rw (add-suc, ← suc-add) (drop-map_from f (suc s) n xs)

  pub get_elem?-map_from :
      (f : ℕ → A → B) (s : ℕ) (xs : List A) (i : ℕ) {x : A}
      → get_elem? xs i ≡ some x
      → get_elem? (map_from f s xs) i ≡ some (f (s + i) x)
  get_elem?-map_from f s [] i h = cc
  get_elem?-map_from f s (x ∷ xs) zero h = rw add-zero (ground arith)
  get_elem?-map_from f s (x ∷ xs) (suc i) h =
      rw (add-suc, ← suc-add) (get_elem?-map_from f (suc s) xs i h)

module _ {ℓ κ μ} {A : Type ℓ} {B : Type κ} {C : Type μ} where
  -- Reading back from the elements what their positions did not touch.
  pub map-map_from :
      (g : B → C) (f : ℕ → A → B) (h : A → C) (s : ℕ) (xs : List A)
      → ((i : ℕ) (x : A) → g (f i x) ≡ h x)
      → map g (map_from f s xs) ≡ map h xs
  map-map_from g f h s [] e = refl
  map-map_from g f h s (x ∷ xs) e = rw (e s x, map-map_from g f h (suc s) xs e)

module _ {ℓ} {B : Type ℓ} where
  -- A loop over a range of which no round returns anything.
  pub flat_map-range_nil :
      (f : ℕ → List B) (s n : ℕ)
      → ((j : ℕ) → s ≤ j → j < s + n → f j ≡ [])
      → flat_map f (range s n) ≡ []
  flat_map-range_nil f s zero h = refl
  flat_map-range_nil f s (suc n) h =
      rw (h s (omega arith) (omega arith))
        (flat_map-range_nil f (suc s) n (λ j p q. h j (omega arith) (omega arith)))

  -- Two loops over a range whose rounds return the same.
  pub flat_map-range_eq :
      (f g : ℕ → List B) (s n : ℕ)
      → ((j : ℕ) → s ≤ j → j < s + n → f j ≡ g j)
      → flat_map f (range s n) ≡ flat_map g (range s n)
  flat_map-range_eq f g s zero h = refl
  flat_map-range_eq f g s (suc n) h =
      ap₂ ◌++◌ (h s (omega arith) (omega arith))
        (flat_map-range_eq f g (suc s) n (λ j p q. h j (omega arith) (omega arith)))

-- Where a loop over no number starts does not matter.
pub flat_map-range_start {ℓ} :
    {B : Type ℓ} (g : ℕ → List B) (p a m : ℕ)
    → (0 < m → p ≡ a)
    → flat_map g (range p m) ≡ flat_map g (range a m)
flat_map-range_start g p a zero h = refl
flat_map-range_start g p a (suc m) h = ap (λ s. flat_map g (range s (suc m))) (h (omega arith))

-- A loop over the first `n` numbers of which only the rounds from `a` up to `b` return anything.
pub flat_map-clip {ℓ} :
    {B : Type ℓ} (f g : ℕ → List B) (a b n : ℕ)
    → ((j : ℕ) → j < a → f j ≡ [])
    → ((j : ℕ) → a ≤ j → j < b → f j ≡ g j)
    → ((j : ℕ) → b ≤ j → f j ≡ [])
    → flat_map f (range 0 n) ≡ flat_map g (range a (min b n - a))
flat_map-clip f g a b n before within after =
    let m = min b n - a in
    let p = min a n in
    let r = n - p - m in
    let cut : n ≡ p + (m + r) = omega arith in
    let first : flat_map f (range 0 p) ≡ [] =
      flat_map-range_nil f 0 p (λ j u v. before j (omega arith)) in
    let middle : flat_map f (range p m) ≡ flat_map g (range a m) =
      flat_map-range_eq f g p m (λ j u v. within j (omega arith) (omega arith))
      ∙ flat_map-range_start g p a m (λ h. omega arith) in
    let final : flat_map f (range (p + m) r) ≡ [] =
      flat_map-range_nil f (p + m) r (λ j u v. after j (omega arith)) in
    ap (λ t. flat_map f (range 0 t)) cut
    ∙ ap (flat_map f) (range-append 0 p (m + r) ∙ rw (zero-add, range-append p m r))
    ∙ flat_map-append f (range 0 p) (range p m ++ range (p + m) r)
    ∙ ap₂ ◌++◌ first (flat_map-append f (range p m) (range (p + m) r) ∙ ap₂ ◌++◌ middle final)
    ∙ append-nil (flat_map g (range a m))
