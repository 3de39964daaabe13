-- ===== src/Detector/Stats.antt =====
-- The statistics of `detect` in src/yamazaki/slow_query.py, and `statistics.median`.
use yamazaki_incubator.Base.{
  ℕ, zero, suc, ◌+◌, ◌-◌, ◌*◌, ◌/◌, ◌%◌, List, [], ◌∷◌, length, nat_beq, if◌then◌else◌,
}
use yamazaki_incubator.Base.Result.{Result, ok, raised, ◌>>=◌}
use yamazaki_incubator.Base.Sort.{sorted}
use yamazaki_incubator.Numbers.{Number, Floats, num_le, num_add, halve, distance}

-- `xs[i]`
unfoldable pub index {ℓ} : {A : Type ℓ} → List A → ℕ → Result A
index [] i = raised "IndexError"
index (x ∷ xs) zero = ok x
index (x ∷ xs) (suc i) = index xs i

-- `max(0, ceil(n * 0.95) - 1)`. The rank is that of exact arithmetic: 19/20 of `n` is an integer,
-- and the double 0.95 lies below 19/20, or it is at least 1/20 away from every integer, which is
-- more than the rounding of the product for any list that fits in memory.
unfoldable pub p95_index : ℕ → ℕ
p95_index n = (n * 95 + 99) / 100 - 1

-- `durations[max(0, ceil(len(durations) * 0.95) - 1)]`
unfoldable pub p95_of : List ℕ → Result ℕ
unfolding index p95_index
p95_of durations = index durations (p95_index (length durations))

module _ (F : Floats) where
  -- The middle of a sorted list, or the mean of the two in the middle.
  unfoldable pub middle : List Number → Result Number
  unfolding index num_add halve
  middle data' =
      let n = length data' in
      if nat_beq n 0
      then raised "StatisticsError"
      else if nat_beq (n % 2) 1
      then index data' (n / 2)
      else do
        below ← index data' (n / 2 - 1)
        above ← index data' (n / 2)
        total ← num_add F below above
        halve F total

  -- `statistics.median`
  unfoldable pub median : List Number → Result Number
  unfolding middle sorted num_le
  median values = middle (sorted (num_le F) values)

  -- `abs(value - center) for value in durations`
  unfoldable pub distances : List ℕ → Number → Result (List Number)
  unfolding distance
  distances [] center = ok []
  distances (value ∷ durations) center = do
    first ← distance F value center
    rest ← distances durations center
    ok (first ∷ rest)

  -- `median(abs(value - center) for value in durations)`
  unfoldable pub deviation : List ℕ → Number → Result Number
  unfolding median distances
  deviation durations center = do values ← distances durations center; median values
