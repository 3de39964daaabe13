-- ===== src/Base/Exec.antt =====
-- Statements that act on a state and may raise. What was done before a raise stays done, so the
-- state comes back beside the exception too.
use yamazaki_incubator.Base.{◌≡◌, String, inl, inr}
use yamazaki_incubator.Base.Result.{Result, ok, raised, Result-cases}

abbrev pub Exec {ℓ} : Type ℓ → Type ℓ → Type ℓ
Exec S A = S → Result A × S

module _ {ℓ} {S A : Type ℓ} where
  abbrev pub pure : A → Exec S A
  pure a s = (ok a, s)

  abbrev pub raise : String → Exec S A
  raise e s = (raised e, s)

  -- A pure call that may raise.
  abbrev pub lift : Result A → Exec S A
  lift r s = (r, s)

  abbrev pub gets : (S → A) → Exec S A
  gets f s = (ok (f s), s)

abbrev pub modify : {S : Type 0} → (S → S) → Exec S (Unit {0})
modify f s = (ok tt, f s)

module _ {ℓ} {S A B : Type ℓ} where
  abbrev pub continue : Result A → (A → Exec S B) → Exec S B
  continue (ok a) f s = f a s
  continue (raised e) f s = (raised e, s)

  infixl 5 ◌>>=◌ ◌>>◌
  abbrev pub ◌>>=◌ : Exec S A → (A → Exec S B) → Exec S B
  ◌>>=◌ m f s = let (result, after) = m s in continue result f after

  abbrev pub ◌>>◌ : Exec S A → Exec S B → Exec S B
  ◌>>◌ first next = first >>= λ _. next

-- `try: m except Exception as exc: handler(type(exc).__name__)`
abbrev pub handled : {S A : Type 0} → Result A → (String → Exec S A) → Exec S A
handled (ok a) handler s = (ok a, s)
handled (raised e) handler s = handler e s

abbrev pub catch : {S A : Type 0} → Exec S A → (String → Exec S A) → Exec S A
catch m handler s = let (r, s') = m s in handled r handler s'

-- `try: m finally: last`: the last statement runs, and only if it returns, the outcome of the first
-- is the outcome.
unfoldable pub try_finally : {W A : Type 0} → Exec W A → Exec W (Unit {0}) → Exec W A
try_finally m last w =
    let (result, after) = m w in
    let (closed, end) = last after in
    elim closed [ ok _ ↦ (result, end) | raised e ↦ (raised e, end) ]

-- The last statement acts on what the first one left.
pub try_finally-state :
    {W A : Type 0} (m : Exec W A) (last : Exec W (Unit {0})) (w : W)
    → (try_finally m last w).1 ≡ (last (m w).1).1
unfolding try_finally
try_finally-state m last w = elim (Result-cases (last (m w).1).0) [
  | inl (_, e) ↦ rw (e, try_finally)
  | inr (_, e) ↦ rw (e, try_finally)
]
