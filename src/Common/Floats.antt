-- ===== src/Common/Floats.antt =====
-- Python's floats, as far as the code relies on them.
--
-- A finite float is represented by its place in the increasing order of the finite floats, so that
-- the comparisons of the code are those of natural numbers, exactly. What the arithmetic does to
-- the places is not in the repository's code: the operations are the fields of `Arith`, and a theorem
-- that relies on what rounding does says so. NaN and the infinities are left out: no price of the code
-- is one.
use Prim.Native.Nat.{ℕ, ◌+◌, ◌-◌, ◌*◌, ◌/◌}

abbrev pub Float : Type 0
Float = ℕ

-- Arithmetic on floats, and the literals of the code.
pub record Arith : Type 0 where
  pub add : Float → Float → Float
  pub sub : Float → Float → Float
  pub mul : Float → Float → Float
  pub div : Float → Float → Float
  -- 0, 2 and 5
  pub nought : Float
  pub two : Float
  pub five : Float
  -- 0.0001
  pub pip : Float

-- Whole numbers of half points (0.000005), for concrete runs: a pip is 20 of them.
abbrev pub half_points : Arith
half_points = record {
  add = λ a b. a + b;
  sub = λ a b. a - b;
  mul = λ a b. a * b;
  div = λ a b. a / b;
  nought = 0;
  two = 2;
  five = 5;
  pip = 20;
}
