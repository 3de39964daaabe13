-- ===== src/Base/Ensures.antt =====
-- What holds of the value of a statement, wherever it starts, if it returns.
use yamazaki_incubator.Base.{◌≡◌, refl, subst, Bool, true, false, String, if◌then◌else◌}
use yamazaki_incubator.Base.Result.{Result, ok, raised, ok-injective}
use yamazaki_incubator.Base.Exec.{Exec, pure, raise, lift, continue, ◌>>=◌}

pub record Ensures {S A : Type 0} (m : Exec S A) (Q : A → Type 0) : Type 0 where
  pub at : (s : S) (a : A) → (m s).0 ≡ ok a → Q a

module _ {S A : Type 0} {Q : A → Type 0} where
  pub Ensures-pure : (a : A) → Q a → Ensures {S = S} (pure a) Q
  Ensures-pure a q = record { at = λ s b h. subst Q (ok-injective h) q }

  pub Ensures-lift : (r : Result A) → ((a : A) → r ≡ ok a → Q a) → Ensures {S = S} (lift r) Q
  Ensures-lift r q = record { at = λ s a h. q a h }

  pub Ensures-raise : (e : String) → Ensures {S = S} (raise e) Q
  Ensures-raise e = record { at = λ s a h. cc h }

  pub Ensures-if :
      (b : Bool) (m n : Exec S A)
      → (b ≡ true → Ensures m Q)
      → (b ≡ false → Ensures n Q)
      → Ensures (if b then m else n) Q
  Ensures-if true m n f g = f refl
  Ensures-if false m n f g = g refl

module _ {S A B : Type 0} {Q : B → Type 0} where
  continue_at :
      (r : Result A) (f : A → Exec S B) (s : S) (b : B)
      → ((a : A) → r ≡ ok a → Ensures (f a) Q)
      → (continue r f s).0 ≡ ok b
      → Q b
  continue_at (ok a) f s b k h = (k a refl).at s b h
  continue_at (raised e) f s b k h = cc h

  -- The rest may use what the first statement ensures.
  pub Ensures-bind :
      (P : A → Type 0) (m : Exec S A) (f : A → Exec S B)
      → Ensures m P
      → ((a : A) → P a → Ensures (f a) Q)
      → Ensures (m >>= f) Q
  Ensures-bind P m f t k = record {
    at = λ s b h. continue_at (m s).0 f (m s).1 b (λ a e. k a (t.at s a e)) h;
  }

  -- The rest may use nothing of it.
  pub Ensures-then :
      (m : Exec S A) (f : A → Exec S B) → ((a : A) → Ensures (f a) Q) → Ensures (m >>= f) Q
  Ensures-then m f k = record { at = λ s b h. continue_at (m s).0 f (m s).1 b (λ a e. k a) h }

-- What holds of the value of a statement and of the state that it leaves, if it returns.
pub record Leaves {S A : Type 0} (m : Exec S A) (Q : A → S → Type 0) : Type 0 where
  pub at : (s : S) (a : A) → (m s).0 ≡ ok a → Q a (m s).1

module _ {S A B : Type 0} {Q : B → S → Type 0} where
  continue_leaves :
      (r : Result A) (f : A → Exec S B) (s : S) (b : B)
      → ((a : A) → Leaves (f a) Q)
      → (continue r f s).0 ≡ ok b
      → Q b (continue r f s).1
  continue_leaves (ok a) f s b k h = (k a).at s b h
  continue_leaves (raised e) f s b k h = cc h

  pub Leaves-then :
      (m : Exec S A) (f : A → Exec S B) → ((a : A) → Leaves (f a) Q) → Leaves (m >>= f) Q
  Leaves-then m f k = record { at = λ s b h. continue_leaves (m s).0 f (m s).1 b k h }
