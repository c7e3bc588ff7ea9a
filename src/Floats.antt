-- ===== src/Floats.antt =====
-- The machine's `float` and `double`, of which the program asks conversions and a few operations.
-- Nothing is assumed of them: a sample is moved, or handed to one of these.
use linux_opensource_univers.Prelude.{ℕ, ◌+◌, ◌*◌, ◌/◌}

pub record Floats : Type 1 where
  pub Float : Type 0
  pub Double : Type 0
  -- The literal n / d, such as `0.95f` for 95 and 100.
  pub literal : ℕ → ℕ → Float
  -- `(float)n` and `(double)n` of an unsigned integer
  pub float_of : ℕ → Float
  pub double_of : ℕ → Double
  -- `static_cast<uint32_t>(x)`
  pub u32_of : Float → ℕ
  -- `(float)x` of a double
  pub narrow : Double → Float
  pub mul : Float → Float → Float
  pub div : Float → Float → Float
  pub add_double : Double → Double → Double
  pub div_double : Double → Double → Double

-- Natural numbers in the place of floats, for running a definition
abbrev pub naturals : Floats
naturals = record {
  Float = ℕ;
  Double = ℕ;
  literal = λ n d. n / d;
  float_of = λ n. n;
  double_of = λ n. n;
  u32_of = λ n. n;
  narrow = λ n. n;
  mul = λ a b. a * b;
  div = λ a b. a / b;
  add_double = λ a b. a + b;
  div_double = λ a b. a / b;
}
