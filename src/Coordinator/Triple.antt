-- ===== src/Coordinator/Triple.antt =====
-- A logic for the statements of `investigate` in src/yamazaki/service.py, whatever the ports do. In
-- `Triple P m Q E` the local variables satisfy `P` before `m`, `Q a` after it returns `a`, and `E`
-- after it raises.
use yamazaki_incubator.Base.{◌≡◌, refl, sym, subst, Bool, true, false, String, if◌then◌else◌}
use yamazaki_incubator.Base.Result.{Result, ok, raised}
use yamazaki_incubator.Base.Exec.{Exec, pure, lift, continue, handled, catch, ◌>>=◌}
use yamazaki_incubator.Coordinator.Frame.{Progress, Run, on_world, ask, update, gets_progress}

-- A condition on the outcome of a statement.
abbrev pub Post :
    {W A : Type 0} → (A → Progress → Type 0) → (Progress → Type 0) → Result A × Run W → Type 0
Post Q E (ok a, s) = Q a s.progress
Post Q E (raised e, s) = E s.progress

pub record Triple {W A : Type 0} (P : Progress → Type 0) (m : Exec (Run W) A)
    (Q : A → Progress → Type 0) (E : Progress → Type 0) : Type 0 where
  pub at : (s : Run W) → P s.progress → Post Q E (m s)

module _ {W A : Type 0} (Q : A → Progress → Type 0) (E : Progress → Type 0) where
  world-Post :
      (r : Result A) (s : Run W)
      → ((a : A) → r ≡ ok a → Q a s.progress)
      → E s.progress
      → Post Q E (r, s)
  world-Post (ok a) s q e = q a refl
  world-Post (raised x) s q e = e

  catch-Post :
      (E' : Progress → Type 0) (handler : String → Exec (Run W) A) (r : Result A) (s : Run W)
      → ((e : String) → Triple E' (handler e) Q E)
      → Post Q E' (r, s)
      → Post Q E (handled r handler s)
  catch-Post E' handler (ok a) s k h = h
  catch-Post E' handler (raised e) s k h = (k e).at s h

module _ {W A B : Type 0} (Q : B → Progress → Type 0) (E : Progress → Type 0) where
  bind-Post :
      (M : A → Progress → Type 0) (f : A → Exec (Run W) B) (r : Result A) (s : Run W)
      → ((a : A) → Triple (M a) (f a) Q E)
      → Post M E (r, s)
      → Post Q E (continue r f s)
  bind-Post M f (ok a) s k h = (k a).at s h
  bind-Post M f (raised e) s k h = h

  lift-Post :
      (P : Progress → Type 0) (f : A → Exec (Run W) B) (r : Result A) (s : Run W)
      → ((a : A) → r ≡ ok a → Triple P (f a) Q E)
      → ((p : Progress) → P p → E p)
      → P s.progress
      → Post Q E (continue r f s)
  lift-Post P f (ok a) s k e h = (k a refl).at s h
  lift-Post P f (raised x) s k e h = e s.progress h

module _ {W A : Type 0} {P : Progress → Type 0} {Q : A → Progress → Type 0}
    {E : Progress → Type 0} where
  pub Triple-pure : (a : A) → ((p : Progress) → P p → Q a p) → Triple {W = W} P (pure a) Q E
  Triple-pure a h = record { at = λ s p. h s.progress p }

  -- A call of a port leaves the local variables alone.
  pub Triple-world :
      (m : Exec W A)
      → ((a : A) (p : Progress) → P p → Q a p)
      → ((p : Progress) → P p → E p)
      → Triple P (on_world m) Q E
  unfolding on_world
  Triple-world m q e = record {
    at = λ s h.
        let (r, w) = m s.world in
        world-Post Q E r (record s { world = w }) (λ a _. q a s.progress h) (e s.progress h);
  }

  pub Triple-ask : (m : W → A × W) → ((a : A) (p : Progress) → P p → Q a p) → Triple P (ask m) Q E
  unfolding ask
  Triple-ask m q = record { at = λ s h. q (m s.world).0 s.progress h }

  pub Triple-lift :
      (r : Result A)
      → ((a : A) → r ≡ ok a → (p : Progress) → P p → Q a p)
      → ((p : Progress) → P p → E p)
      → Triple {W = W} P (lift r) Q E
  Triple-lift r q e = record {
    at = λ s h. world-Post Q E r s (λ a x. q a x s.progress h) (e s.progress h);
  }

  pub Triple-if :
      (b : Bool) (m n : Exec (Run W) A)
      → (b ≡ true → Triple P m Q E)
      → (b ≡ false → Triple P n Q E)
      → Triple P (if b then m else n) Q E
  Triple-if true m n f g = f refl
  Triple-if false m n f g = g refl

module _ {W A B : Type 0} {P : Progress → Type 0} {Q : B → Progress → Type 0}
    {E : Progress → Type 0} where
  pub Triple-bind :
      (M : A → Progress → Type 0) (m : Exec (Run W) A) (f : A → Exec (Run W) B)
      → Triple P m M E
      → ((a : A) → Triple (M a) (f a) Q E)
      → Triple P (m >>= f) Q E
  Triple-bind M m f t k = record {
    at = λ s h. let (r, s') = m s in bind-Post Q E M f r s' k (t.at s h);
  }

  -- After a pure call the rest may use that it returned.
  pub Triple-bind-lift :
      (r : Result A) (f : A → Exec (Run W) B)
      → ((a : A) → r ≡ ok a → Triple P (f a) Q E)
      → ((p : Progress) → P p → E p)
      → Triple P (lift r >>= f) Q E
  Triple-bind-lift r f k e = record { at = λ s h. lift-Post Q E P f r s k e h }

module _ {W : Type 0} {P : Progress → Type 0} {Q : Unit {0} → Progress → Type 0}
    {E : Progress → Type 0} where
  pub Triple-update :
      (f : Progress → Progress)
      → ((p : Progress) → P p → Q tt (f p))
      → Triple {W = W} P (update f) Q E
  unfolding update
  Triple-update f h = record { at = λ s p. h s.progress p }

module _ {W A : Type 0} {P : Progress → Type 0} {Q : A → Progress → Type 0}
    {E E' : Progress → Type 0} where
  pub Triple-catch :
      (m : Exec (Run W) A) (handler : String → Exec (Run W) A)
      → Triple P m Q E'
      → ((e : String) → Triple E' (handler e) Q E)
      → Triple P (catch m handler) Q E
  Triple-catch m handler t k = record {
    at = λ s h. let (r, s') = m s in catch-Post Q E E' handler r s' k (t.at s h);
  }

module _ {W A B : Type 0} {P : Progress → Type 0} {Q : B → Progress → Type 0}
    {E : Progress → Type 0} where
  -- After a look at the local variables the rest may use what was seen.
  pub Triple-bind-gets :
      (g : Progress → A) (f : A → Exec (Run W) B)
      → ((a : A) → Triple (λ p. P p × (g p ≡ a)) (f a) Q E)
      → Triple P (gets_progress g >>= f) Q E
  unfolding gets_progress
  Triple-bind-gets g f k = record { at = λ s h. (k (g s.progress)).at s (h, refl) }

  -- A port or an environment is asked, and the rest starts from the same condition.
  pub Triple-then :
      (m : Exec W A) (f : A → Exec (Run W) B)
      → ((p : Progress) → P p → E p)
      → ((a : A) → Triple P (f a) Q E)
      → Triple P (on_world m >>= f) Q E
  Triple-then m f e k = Triple-bind (λ _. P) (on_world m) f (Triple-world m (λ a p h. h) e) k

  pub Triple-asked :
      (m : W → A × W) (f : A → Exec (Run W) B)
      → ((a : A) → Triple P (f a) Q E)
      → Triple P (ask m >>= f) Q E
  Triple-asked m f k = Triple-bind (λ _. P) (ask m) f (Triple-ask m (λ a p h. h)) k

module _ {W A : Type 0} {P P' : Progress → Type 0} {Q : A → Progress → Type 0}
    {E : Progress → Type 0} where
  pub Triple-weaken :
      (m : Exec (Run W) A) → ((p : Progress) → P p → P' p) → Triple P' m Q E → Triple P m Q E
  Triple-weaken m h t = record { at = λ s p. t.at s (h s.progress p) }

module _ {W A : Type 0} where
  sure-Post :
      {a : A} (P : Progress → Type 0) (r : Result A) (s : Run W)
      → r ≡ ok a
      → P s.progress
      → Post (λ _. P) (λ _. ⊥) (r, s)
  sure-Post P (ok a) s h p = p
  sure-Post P (raised e) s h p = cc

  -- A port that does not raise.
  pub Triple-sure :
      {P : Progress → Type 0} {a : A} (m : Exec W A)
      → ((w : W) → (m w).0 ≡ ok a)
      → Triple P (on_world m) (λ _. P) (λ _. ⊥)
  unfolding on_world
  Triple-sure {P} m sure = record {
    at = λ s h. let (r, w) = m s.world in sure-Post P r (record s { world = w }) (sure s.world) h;
  }

  -- A statement that no exception leaves returns.
  pub Post-ok :
      (Q : A → Progress → Type 0) (r : Result A) (s : Run W)
      → Post Q (λ _. ⊥) (r, s)
      → (a : A) × (r ≡ ok a) × Q a s.progress
  Post-ok Q (ok a) s h = (a, refl, h)
  Post-ok Q (raised e) s h = elim h [ ]

module _ {W A B : Type 0} where
  -- The environment is asked what it always answers alike.
  pub Triple-answer :
      {P : Progress → Type 0} {Q : B → Progress → Type 0} {E : Progress → Type 0} (a : A)
      (m : W → A × W) (f : A → Exec (Run W) B)
      → ((w : W) → (m w).0 ≡ a)
      → Triple P (f a) Q E
      → Triple P (ask m >>= f) Q E
  unfolding ask
  Triple-answer {P} {Q} {E} a m f same t = record {
    at = λ s h.
        let (b, w) = m s.world in
        subst (λ x. Post Q E (f x (record s { world = w }))) (sym (same s.world))
          (t.at (record s { world = w }) h);
  }

module _ {W A : Type 0} where
  -- The rest need only cope with what the environment answers.
  pub Triple-from :
      {B : Type 0} {P : Progress → Type 0} {Q : B → Progress → Type 0} {E : Progress → Type 0}
      (m : W → A × W) (f : A → Exec (Run W) B)
      → ((w : W) → Triple P (f (m w).0) Q E)
      → Triple P (ask m >>= f) Q E
  unfolding ask
  Triple-from m f t = record {
    at = λ s h. let (b, w) = m s.world in (t s.world).at (record s { world = w }) h;
  }

  Post-both :
      (Q R : A → Progress → Type 0) (r : Result A) (s : Run W)
      → Post Q (λ _. ⊥) (r, s)
      → Post R (λ _. ⊥) (r, s)
      → Post (λ a p. Q a p × R a p) (λ _. ⊥) (r, s)
  Post-both Q R (ok a) s h k = (h, k)
  Post-both Q R (raised e) s h k = h

  pub Triple-both :
      {P P' : Progress → Type 0} {Q R : A → Progress → Type 0} (m : Exec (Run W) A)
      → Triple P m Q (λ _. ⊥)
      → Triple P' m R (λ _. ⊥)
      → Triple (λ p. P p × P' p) m (λ a p. Q a p × R a p) (λ _. ⊥)
  Triple-both {Q} {R} m t u = record {
    at = λ s h. let (r, s') = m s in Post-both Q R r s' (t.at s h.0) (u.at s h.1);
  }

module _ {W A : Type 0} where
  Post-follow :
      (Q R : A → Progress → Type 0) (r : Result A) (s : Run W)
      → ((a : A) (p : Progress) → Q a p → R a p)
      → Post Q (λ _. ⊥) (r, s)
      → Post R (λ _. ⊥) (r, s)
  Post-follow Q R (ok a) s f h = f a s.progress h
  Post-follow Q R (raised e) s f h = h

  pub Triple-follow :
      {P : Progress → Type 0} {Q R : A → Progress → Type 0} (m : Exec (Run W) A)
      → ((a : A) (p : Progress) → Q a p → R a p)
      → Triple P m Q (λ _. ⊥)
      → Triple P m R (λ _. ⊥)
  Triple-follow {Q} {R} m f t = record {
    at = λ s h. let (r, s') = m s in Post-follow Q R r s' f (t.at s h);
  }
