-- ===== src/Numbers.antt =====
-- Python's numbers as the detector computes with them. An `int` is a native number: every integer
-- that reaches the detector has passed a `ge=0` field of src/yamazaki/contracts.py. A `float` is
-- the number of its IEEE 754 bit pattern, and the operations of the processor are a parameter.
use yamazaki_incubator.Base.{ℕ, ◌+◌, ◌-◌, Bool, true, false, leb, if◌then◌else◌}
use yamazaki_incubator.Base.Result.{Result, ok, ◌>>=◌}

abbrev pub Float : Type 0
Float = ℕ

pub record Floats : Type 0 where
  -- the value of a small int, and the literal n * 10^-k
  pub of_int : ℕ → Float
  pub decimal : ℕ → ℕ → Float
  pub add : Float → Float → Float
  pub sub : Float → Float → Float
  pub mul : Float → Float → Float
  pub div : Float → Float → Float
  pub abs : Float → Float
  -- `float(n)`, and `n / m` on two ints, rounded once. Both raise `OverflowError` for a result
  -- beyond the doubles.
  pub to_double : ℕ → Result Float
  pub int_div : ℕ → ℕ → Result Float
  pub eq : Float → Float → Bool
  pub le : Float → Float → Bool
  pub lt : Float → Float → Bool
  -- an int and a float are compared exactly
  pub int_le : ℕ → Float → Bool
  pub le_int : Float → ℕ → Bool

pub data Number : Type 0 where
  int : ℕ → Number
  float : Float → Number

module _ (F : Floats) where
  -- `float(a)`, also where Python converts the int of a mixed operation
  unfoldable pub to_float : Number → Result Float
  to_float (int n) = F.to_double n
  to_float (float x) = ok x

  -- `a <= b`
  unfoldable pub num_le : Number → Number → Bool
  num_le (int a) (int b) = leb a b
  num_le (int a) (float y) = F.int_le a y
  num_le (float x) (int b) = F.le_int x b
  num_le (float x) (float y) = F.le x y

  -- `a + b`
  unfoldable pub num_add : Number → Number → Result Number
  unfolding to_float
  num_add (int a) (int b) = ok (int (a + b))
  num_add a b = do x ← to_float a; y ← to_float b; ok (float (F.add x y))

  -- `a / 2`, which is a float for an int too
  unfoldable pub halve : Number → Result Number
  halve (int a) = do x ← F.int_div a 2; ok (float x)
  halve (float x) = ok (float (F.div x (F.of_int 2)))

  -- `abs(value - center)` for an int `value`
  unfoldable pub distance : ℕ → Number → Result Number
  distance value (int c) = ok (int (value - c + (c - value)))
  distance value (float c) = do x ← F.to_double value; ok (float (F.abs (F.sub x c)))

  -- `a > 0`
  unfoldable pub is_positive : Number → Bool
  is_positive (int n) = if leb n 0 then false else true
  is_positive (float x) = F.lt (F.of_int 0) x
