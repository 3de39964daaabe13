-- ===== src/Detector/Conversions.antt =====
-- That the blocks of `SlowQueryDetector.detect` of src/yamazaki/slow_query.py return for numbers that
-- a double can hold.
use yamazaki_incubator.Base.{
  ℕ, zero, suc, ◌+◌, ◌-◌, ◌*◌, ◌/◌, ◌%◌, ◌<◌, ◌≡◌, inl, inr, refl, ap, Bool, false, Option, none,
  some, List, [], ◌∷◌, arith, nat_beq, length, All, Bool-cases,
}
use yamazaki_incubator.Base.Result.{Result, ok}
use yamazaki_incubator.Base.Sort.{insert, sorted, length-sorted}
use yamazaki_incubator.Numbers.{
  Number, int, float, Floats, to_float, num_le, num_add, halve, distance,
}
use yamazaki_incubator.Contracts.{QueryRun}
use yamazaki_incubator.Detector.Stats.{index, middle, median, distances, deviation}
use yamazaki_incubator.Detector.Rules.{SlowQueryThresholds}

abbrev pub Returns {ℓ} : {A : Type ℓ} → Result A → Type ℓ
Returns {A = A} r = (a : A) × (r ≡ ok a)

-- It returns a value that satisfies the predicate.
abbrev pub ReturnsIn : {A : Type 0} → (A → Type 0) → Result A → Type 0
ReturnsIn {A = A} P r = (a : A) × (r ≡ ok a) × P a

pub index-ReturnsIn :
    {A : Type 0} (P : A → Type 0) (xs : List A) (i : ℕ)
    → i < length xs
    → All P xs
    → ReturnsIn P (index xs i)
unfolding index
index-ReturnsIn P [] i h fits = absurd (omega arith)
index-ReturnsIn P (x ∷ xs) zero h fits = (x, refl, fits.0)
index-ReturnsIn P (x ∷ xs) (suc i) h fits = index-ReturnsIn P xs i (omega arith) fits.1

module _ {A : Type 0} (P : A → Type 0) (le : A → A → Bool) where
  All-insert : (a : A) (xs : List A) → P a → All P xs → All P (insert le a xs)
  unfolding insert
  All-insert a [] p fits = (p, tt)
  All-insert a (x ∷ xs) p fits = elim (Bool-cases (le a x)) [
    | inl e ↦ rw (insert, e) (p, fits)
    | inr e ↦ rw (insert, e) (fits.0, All-insert a xs p fits.1)
  ]

  pub All-sorted : (xs : List A) → All P xs → All P (sorted le xs)
  unfolding sorted
  All-sorted [] fits = tt
  All-sorted (x ∷ xs) fits = All-insert x (sorted le xs) fits.0 (All-sorted xs fits.1)

module _ (F : Floats) (bound : ℕ) where
  -- An int below the bound is converted and divided without an error. For the doubles of IEEE 754
  -- the bound can be 2 to the power of 1023.
  pub record Converts : Type 0 where
    pub to_double : (n : ℕ) → n < bound → Returns (F.to_double n)
    pub int_div : (n m : ℕ) → n < bound → 0 < m → Returns (F.int_div n m)

  -- An int whose double is below the bound.
  abbrev pub IsHalf : ℕ → Type 0
  IsHalf n = 2 * n < bound

  abbrev pub IsHalfOrNone : Option ℕ → Type 0
  IsHalfOrNone none = Unit
  IsHalfOrNone (some n) = IsHalf n

  abbrev pub NumberIsHalf : Number → Type 0
  NumberIsHalf (int n) = IsHalf n
  NumberIsHalf (float x) = Unit

  abbrev SumFits : Number → Type 0
  SumFits (int n) = n < bound
  SumFits (float x) = Unit

  -- The numbers that `detect` reads are at most half of the bound.
  pub record Fits (T : SlowQueryThresholds) (query : QueryRun) (history : List QueryRun)
      : Type 0 where
    pub duration : IsHalf query.duration_ms
    pub queue : IsHalfOrNone query.queue_time_ms
    pub memory : IsHalfOrNone query.peak_memory_bytes
    pub scanned : IsHalfOrNone query.scanned_rows
    pub duration_limit : IsHalf T.duration_ms
    pub queue_limit : IsHalf T.queue_time_ms
    pub memory_limit : IsHalf T.peak_memory_bytes
    pub scanned_limit : IsHalf T.scanned_rows
    pub past : All (λ item. IsHalf item.duration_ms) history

  module _ (converts : Converts) where
    pub to_float-Returns : (a : Number) → NumberIsHalf a → Returns (to_float F a)
    unfolding to_float
    to_float-Returns (int n) h = converts.to_double n (omega arith)
    to_float-Returns (float x) h = (x, refl)

    num_add-ReturnsIn :
        (a b : Number) → NumberIsHalf a → NumberIsHalf b → ReturnsIn SumFits (num_add F a b)
    unfolding num_add to_float
    num_add-ReturnsIn (int a) (int b) h k = (int (a + b), refl, omega arith)
    num_add-ReturnsIn (int a) (float y) h k =
        let (x, e) = converts.to_double a (omega arith) in (float (F.add x y), rw e refl, tt)
    num_add-ReturnsIn (float x) (int b) h k =
        let (y, e) = converts.to_double b (omega arith) in (float (F.add x y), rw e refl, tt)
    num_add-ReturnsIn (float x) (float y) h k = (float (F.add x y), refl, tt)

    halve-ReturnsIn : (a : Number) → SumFits a → ReturnsIn NumberIsHalf (halve F a)
    unfolding halve
    halve-ReturnsIn (int n) h =
        let (x, e) = converts.int_div n 2 h (omega arith) in (float x, rw e refl, tt)
    halve-ReturnsIn (float x) h = (float (F.div x (F.of_int 2)), refl, tt)

    distance-ReturnsIn :
        (value : ℕ) (center : Number)
        → IsHalf value
        → NumberIsHalf center
        → ReturnsIn NumberIsHalf (distance F value center)
    unfolding distance
    distance-ReturnsIn value (int c) h k = (int (value - c + (c - value)), refl, omega arith)
    distance-ReturnsIn value (float c) h k =
        let (x, e) = converts.to_double value (omega arith) in
        (float (F.abs (F.sub x c)), rw e refl, tt)

    distances-ReturnsIn :
        (durations : List ℕ) (center : Number)
        → All IsHalf durations
        → NumberIsHalf center
        → ReturnsIn
            (λ xs. (length xs ≡ length durations) × All NumberIsHalf xs)
            (distances F durations center)
    unfolding distances
    distances-ReturnsIn [] center h k = ([], refl, (refl, tt))
    distances-ReturnsIn (value ∷ durations) center h k =
        let (x, e, p) = distance-ReturnsIn value center h.0 k in
        let (xs, f, (same, q)) = distances-ReturnsIn durations center h.1 k in
        (x ∷ xs, rw (e, f) refl, (ap suc same, (p, q)))

    middle-ReturnsIn :
        (xs : List Number)
        → 0 < length xs
        → All NumberIsHalf xs
        → ReturnsIn NumberIsHalf (middle F xs)
    unfolding middle
    middle-ReturnsIn xs h fits = elim (Bool-cases (nat_beq (length xs % 2) 1)) [
      | inl odd ↦
          let (a, e, p) = index-ReturnsIn NumberIsHalf xs (length xs / 2) (omega arith) fits in
          (a, ground arith, p)
      | inr even ↦
          let (a, e, p) = index-ReturnsIn NumberIsHalf xs (length xs / 2 - 1) (omega arith) fits in
          let (b, f, q) = index-ReturnsIn NumberIsHalf xs (length xs / 2) (omega arith) fits in
          let (total, g, r) = num_add-ReturnsIn a b p q in
          let (c, i, s) = halve-ReturnsIn total r in
          let some_left : nat_beq (length xs) 0 ≡ false = ground arith in
          (c, rw (some_left, even, e, f, g) i, s)
    ]

    pub median-ReturnsIn :
        (xs : List Number)
        → 0 < length xs
        → All NumberIsHalf xs
        → ReturnsIn NumberIsHalf (median F xs)
    unfolding median
    median-ReturnsIn xs h fits =
        middle-ReturnsIn (sorted (num_le F) xs) (omega (arith, length-sorted (num_le F) xs))
          (All-sorted NumberIsHalf (num_le F) xs fits)

    pub deviation-ReturnsIn :
        (durations : List ℕ) (center : Number)
        → 0 < length durations
        → All IsHalf durations
        → NumberIsHalf center
        → ReturnsIn NumberIsHalf (deviation F durations center)
    unfolding deviation
    deviation-ReturnsIn durations center h fits k =
        let (values, e, (same, all_fit)) = distances-ReturnsIn durations center fits k in
        let (mad, f, p) = median-ReturnsIn values (omega (arith, same)) all_fit in (mad, rw e f, p)
