-- ===== src/Engines/Collected.antt =====
-- What the adapters promise of the records that they hand over, in the terms of the normalization.
use yamazaki_incubator.Base.{ℕ, ◌≡◌, refl, Option, none, some, List, [], ◌∷◌, String, All, subst}
use yamazaki_incubator.Base.Result.{Result, ok, raised, ◌>>=◌, >>=-returned, ok-injective}
use yamazaki_incubator.Base.Int.{ℤ, pos, pos_part}
use yamazaki_incubator.Contracts.{EngineKind, non_negative}
use yamazaki_incubator.Engines.{RawQueryRecord}
use yamazaki_incubator.Engines.Cells.{
  Cell, missing, integer, real, words, octets, flag, moment, nested, Casts, int_of, optional_int,
  clamped, each_row,
}

-- The metric passes the check of the contract.
abbrev pub Passes : Option ℤ → Type 0
Passes metric = (n : Option ℕ) × (non_negative metric ≡ ok n)

-- A record of the engine and the cluster, of which no metric is negative.
pub record IsCollected (engine : EngineKind) (cluster_id : String) (raw : RawQueryRecord)
    : Type 0 where
  pub of_engine : raw.engine ≡ engine
  pub of_cluster : raw.cluster_id ≡ cluster_id
  pub duration : (n : ℕ) × (raw.duration_ms ≡ pos n)
  pub queue_time : Passes raw.queue_time_ms
  pub cpu_time : Passes raw.cpu_time_ms
  pub peak_memory : Passes raw.peak_memory_bytes
  pub scanned : Passes raw.scanned_rows
  pub returned : Passes raw.returned_rows
  pub shuffled : Passes raw.shuffle_bytes
  pub spilled : Passes raw.spill_bytes

pub none-Passes : Passes none
unfolding non_negative
none-Passes = (none, refl)

clamped-some-Passes :
    (r : Result ℤ) (m : Option ℤ)
    → (r >>= (λ n. ok (pos (pos_part n))) >>= λ n. ok (some n)) ≡ ok m
    → Passes m
unfolding non_negative
clamped-some-Passes (ok n) m h = subst Passes (ok-injective h) (some (pos_part n), refl)
clamped-some-Passes (raised e) m h = cc h

module _ (K : Casts) where
  pub optional_int-Passes : (c : Cell) (m : Option ℤ) → optional_int K c ≡ ok m → Passes m
  unfolding optional_int
  optional_int-Passes missing m h = subst Passes (ok-injective h) none-Passes
  optional_int-Passes (integer n) m h = clamped-some-Passes (int_of K (integer n)) m h
  optional_int-Passes (real x) m h = clamped-some-Passes (int_of K (real x)) m h
  optional_int-Passes (words s) m h = clamped-some-Passes (int_of K (words s)) m h
  optional_int-Passes (octets bs) m h = clamped-some-Passes (int_of K (octets bs)) m h
  optional_int-Passes (flag b) m h = clamped-some-Passes (int_of K (flag b)) m h
  optional_int-Passes (moment d) m h = clamped-some-Passes (int_of K (moment d)) m h
  optional_int-Passes (nested j) m h = clamped-some-Passes (int_of K (nested j)) m h

  pub clamped-pos : (c : Cell) (n : ℤ) → clamped K c ≡ ok n → (k : ℕ) × (n ≡ pos k)
  clamped-pos c n h =
      let (m, _, e) = >>=-returned (int_of K c) _ h in
      (pos_part m, subst (λ x. x ≡ pos (pos_part m)) (ok-injective e) refl)

-- What each conversion gives has the property, where the loop returns.
pub each_row-All {ℓ κ μ} :
    {A : Type ℓ} {B : Type κ} (P : B → Type μ) (convert : A → Result B) (rows : List A)
    (made : List B)
    → ((row : A) (b : B) → convert row ≡ ok b → P b)
    → each_row convert rows ≡ ok made
    → All P made
unfolding each_row
each_row-All P convert [] made f h = subst (All P) (ok-injective h) tt
each_row-All P convert (row ∷ rows) made f h =
    let (b, e, h') = >>=-returned (convert row) _ h in
    let (others, e', h'') = >>=-returned (each_row convert rows) _ h' in
    subst (All P) (ok-injective h'') (f row b e, each_row-All P convert rows others f e')
