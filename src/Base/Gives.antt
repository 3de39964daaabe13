-- ===== src/Base/Gives.antt =====
-- Statements that return wherever they start, and what holds of the value.
use yamazaki_incubator.Base.{◌≡◌, refl, Bool, true, if◌then◌else◌}
use yamazaki_incubator.Base.Result.{Result, ok}
use yamazaki_incubator.Base.Exec.{Exec, pure, lift, continue, ◌>>=◌}

pub record Gives {S A : Type 0} (m : Exec S A) (Q : A → Type 0) : Type 0 where
  pub at : (s : S) → (a : A) × ((m s).0 ≡ ok a) × Q a

module _ {S A : Type 0} {Q : A → Type 0} where
  pub Gives-pure : (a : A) → Q a → Gives {S = S} (pure a) Q
  Gives-pure a q = record { at = λ s. (a, refl, q) }

  pub Gives-if : (b : Bool) (m n : Exec S A) → b ≡ true → Gives m Q → Gives (if b then m else n) Q
  Gives-if b m n e g = rw e g

module _ {S A B : Type 0} {Q : B → Type 0} where
  continue_gives :
      (r : Result A) (f : A → Exec S B) (s : S) (a : A)
      → r ≡ ok a
      → Gives (f a) Q
      → (b : B) × ((continue r f s).0 ≡ ok b) × Q b
  continue_gives r f s a e g = rw e (g.at s)

  pub Gives-bind :
      (P : A → Type 0) (m : Exec S A) (f : A → Exec S B)
      → Gives m P
      → ((a : A) → P a → Gives (f a) Q)
      → Gives (m >>= f) Q
  Gives-bind P m f t k = record {
    at = λ s. let (a, e, p) = t.at s in continue_gives (m s).0 f (m s).1 a e (k a p);
  }

  pub Gives-after :
      (r : Result A) (a : A) (f : A → Exec S B) → r ≡ ok a → Gives (f a) Q → Gives (lift r >>= f) Q
  Gives-after r a f e g = record { at = λ s. continue_gives r f s a e g }
