-- ===== src/Base/Result.antt =====
-- Python exceptions as values. An exception is the name of its class, which is all that the
-- program reads of one (`type(exc).__name__` in src/yamazaki/service.py).
use yamazaki_incubator.Base.{String, ◌≡◌, refl, ◌⊎◌, inl, inr, Bool, true, false}

pub data Result {ℓ} (A : Type ℓ) : Type ℓ where
  ok : A → Result A
  raised : String → Result A

-- `if not b: raise e`
abbrev pub require : Bool → String → Result (Unit {0})
require true e = ok tt
require false e = raised e

infixl 5 ◌>>=◌ ◌>>◌
abbrev pub ◌>>=◌ {ℓ κ} : {X : Type ℓ} {Y : Type κ} → Result X → (X → Result Y) → Result Y
raised e >>= k = raised e
ok x >>= k = k x

abbrev pub ◌>>◌ {ℓ} : {Y : Type ℓ} → Result (Unit {0}) → Result Y → Result Y
◌>>◌ r next = r >>= λ _. next

pub Result-cases {ℓ} :
    {A : Type ℓ} (r : Result A) → ((a : A) × (r ≡ ok a)) ⊎ ((e : String) × (r ≡ raised e))
Result-cases (raised e) = inr (e, refl)
Result-cases (ok a) = inl (a, refl)

-- A chain that returned has a first step that returned.
pub >>=-returned {ℓ κ} :
    {X : Type ℓ} {Y : Type κ} (r : Result X) (k : X → Result Y) {y : Y}
    → (r >>= k) ≡ ok y
    → (x : X) × (r ≡ ok x) × (k x ≡ ok y)
>>=-returned (raised e) k returned = cc
>>=-returned (ok x) k returned = (x, refl, returned)

pub ok-injective {ℓ} : {A : Type ℓ} {a b : A} → ok a ≡ ok b → a ≡ b
ok-injective h = cc
