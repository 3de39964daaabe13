-- ===== src/Coordinator/Rows.antt =====
-- A logic of what is in the tables while `investigate` of src/yamazaki/service.py runs: which rows
-- are there, and whether a statement has named a row that is not.
use yamazaki_incubator.Base.{
  ◌≡◌, refl, Bool, true, false, List, [], ◌∷◌, ◌++◌, All, All-append, String, if◌then◌else◌,
}
use yamazaki_incubator.Base.Result.{Result, ok, raised}
use yamazaki_incubator.Base.Exec.{Exec, pure, lift, continue, handled, catch, ◌>>=◌}
use yamazaki_incubator.Contracts.{Uuid}
use yamazaki_incubator.Coordinator.Frame.{Progress, Run, on_world, ask, update, gets_progress}

-- A row that foreign keys name.
pub data RowKey : Type 0 where
  cluster : (cluster_id : String) → RowKey
  query : (query_run_id : Uuid) → RowKey
  diagnosis : (diagnosis_id : Uuid) → RowKey

-- `Intact` holds while no statement has named a row that was not there.
pub record Tables (W : Type 0) : Type 1 where
  pub Intact : W → Type 0
  pub Has : RowKey → W → Type 0

module _ {W : Type 0} (T : Tables W) where
  open T use {Intact, Has}

  abbrev pub HasAll : List RowKey → W → Type 0
  HasAll rows w = All (λ r. Has r w) rows

  -- No row goes, and no row is named that is not there.
  pub record Grows (w w' : W) : Type 0 where
    pub intact : Intact w → Intact w'
    pub kept : (r : RowKey) → Has r w → Has r w'

  pub Grows-refl : (w : W) → Grows w w
  Grows-refl w = record { intact = λ i. i; kept = λ r h. h }

  HasAll-kept : (rows : List RowKey) (w w' : W) → Grows w w' → HasAll rows w → HasAll rows w'
  HasAll-kept [] w w' g h = tt
  HasAll-kept (r ∷ rows) w w' g h = (g.kept r h.0, HasAll-kept rows w w' g h.1)

  module _ {A : Type 0} (M : A → Type 0) (new : A → List RowKey) where
    -- What is known of a value and the rows it stands for.
    abbrev pub Known : Result A → W → Type 0
    Known (ok a) w = M a × HasAll (new a) w
    Known (raised e) w = Unit

  -- A call of a port: started where the tables are intact and the rows `need` are there, it keeps
  -- that, and the rows `new` are there too if it returns.
  pub record Port {A : Type 0} (need : List RowKey) (m : Exec W A) (M : A → Type 0)
      (new : A → List RowKey) : Type 0 where
    pub at : (w : W) → Intact w → HasAll need w → Grows w (m w).1 × Known M new (m w).0 (m w).1

  -- The same for a statement of the coordinator.
  pub record Step {A : Type 0} (need : List RowKey) (m : Exec (Run W) A) (M : A → Type 0)
      (new : A → List RowKey) : Type 0 where
    pub at :
        (s : Run W)
        → Intact s.world
        → HasAll need s.world
        → Grows s.world (m s).1.world × Known M new (m s).0 (m s).1.world

  -- A question to the environment leaves the tables alone.
  abbrev pub Quiet : {A : Type 0} → (W → A × W) → Type 0
  Quiet m = (w : W) → Grows w (m w).1

  pub lift-Known :
      {A : Type 0} {M : A → Type 0} (r : Result A) (w : W)
      → ((a : A) → r ≡ ok a → M a)
      → Known M (λ _. []) r w
  lift-Known (ok a) w h = (h a refl, tt)
  lift-Known (raised e) w h = tt

  module _ {A : Type 0} {need : List RowKey} {M : A → Type 0} where
    pub Step-pure : (a : A) → M a → Step need (pure a) M (λ _. [])
    Step-pure a h = record { at = λ s i k. (Grows-refl s.world, (h, tt)) }

    pub Step-lift : (r : Result A) → ((a : A) → r ≡ ok a → M a) → Step need (lift r) M (λ _. [])
    Step-lift r h = record { at = λ s i k. (Grows-refl s.world, lift-Known r s.world h) }

    pub Step-world :
        {new : A → List RowKey} (m : Exec W A) → Port need m M new → Step need (on_world m) M new
    unfolding on_world
    Step-world m p = record { at = λ s i k. p.at s.world i k }

    pub Step-if :
        {new : A → List RowKey} (b : Bool) (m n : Exec (Run W) A)
        → Step need m M new
        → Step need n M new
        → Step need (if b then m else n) M new
    Step-if true m n t u = t
    Step-if false m n t u = u

  pub Step-update :
      {need : List RowKey} (f : Progress → Progress) → Step need (update f) (λ _. Unit) (λ _. [])
  unfolding update
  Step-update f = record { at = λ s i k. (Grows-refl s.world, (tt, tt)) }

  bind-Known :
      {A B : Type 0} (need : List RowKey) {N : B → Type 0} (M : A → Type 0) (new : A → List RowKey)
      (r : Result A) (s : Run W) (w : W) (f : A → Exec (Run W) B)
      → Intact w
      → HasAll need w
      → Grows w s.world
      → Known M new r s.world
      → ((a : A) → M a → Step (new a ++ need) (f a) N (λ _. []))
      → Grows w (continue r f s).1.world
        × Known N (λ _. []) (continue r f s).0 (continue r f s).1.world
  bind-Known need M new (ok a) s w f i k g known next =
      let (g', done) =
        (next a known.0).at s (g.intact i)
          (All-append (λ r. Has r s.world) (new a) need known.1 (HasAll-kept need w s.world g k)) in
      (record { intact = λ j. g'.intact (g.intact j); kept = λ r h. g'.kept r (g.kept r h) }, done)
  bind-Known need M new (raised e) s w f i k g known next = (g, tt)

  module _ {A B : Type 0} {need : List RowKey} {N : B → Type 0} where
    -- The rest may use what is known of the value, and the rows that it stands for.
    pub Step-bind :
        {M : A → Type 0} {new : A → List RowKey} (m : Exec (Run W) A) (f : A → Exec (Run W) B)
        → Step need m M new
        → ((a : A) → M a → Step (new a ++ need) (f a) N (λ _. []))
        → Step need (m >>= f) N (λ _. [])
    Step-bind {M} {new} m f t next = record {
      at = λ s i k.
          let (g, known) = t.at s i k in
          bind-Known need M new (m s).0 (m s).1 s.world f i k g known next;
    }

    pub Step-asked :
        (m : W → A × W) (f : A → Exec (Run W) B)
        → Quiet m
        → ((a : A) → Step need (f a) N (λ _. []))
        → Step need (ask m >>= f) N (λ _. [])
    unfolding ask
    Step-asked m f quiet next = record {
      at = λ s i k.
          bind-Known need (λ _. Unit) (λ _. []) (ok (m s.world).0)
            (record s { world = (m s.world).1 }) s.world f i k (quiet s.world) (tt, tt)
            (λ a _. next a);
    }

    pub Step-gets :
        (g : Progress → A) (f : A → Exec (Run W) B)
        → ((a : A) → Step need (f a) N (λ _. []))
        → Step need (gets_progress g >>= f) N (λ _. [])
    unfolding gets_progress
    Step-gets g f next = record { at = λ s i k. (next (g s.progress)).at s i k }

  -- More rows do no harm.
  pub Step-weaken :
      {A : Type 0} {need more : List RowKey} {M : A → Type 0} {new : A → List RowKey}
      (m : Exec (Run W) A)
      → ((w : W) → HasAll more w → HasAll need w)
      → Step need m M new
      → Step more m M new
  Step-weaken m h t = record { at = λ s i k. t.at s i (h s.world k) }

  -- A call of a port that names rows which are there.
  pub Step-send :
      {A : Type 0} {need rows : List RowKey} {M : A → Type 0} {new : A → List RowKey} (m : Exec W A)
      → ((w : W) → HasAll need w → HasAll rows w)
      → Port rows m M new
      → Step need (on_world m) M new
  Step-send m h p = Step-weaken (on_world m) h (Step-world m p)

  catch-Known :
      (handler : String → Exec (Run W) (Unit {0})) (r : Result (Unit {0})) (s : Run W) (w : W)
      → Intact w
      → Grows w s.world
      → ((e : String) → Step [] (handler e) (λ _. Unit) (λ _. []))
      → Grows w (handled r handler s).1.world
        × Known (λ _. Unit) (λ _. []) (handled r handler s).0 (handled r handler s).1.world
  catch-Known handler (ok a) s w i g next = (g, (tt, tt))
  catch-Known handler (raised e) s w i g next =
      let (g', done) = (next e).at s (g.intact i) tt in
      (record { intact = λ j. g'.intact (g.intact j); kept = λ r h. g'.kept r (g.kept r h) }, done)

  pub Step-catch :
      {need : List RowKey} (m : Exec (Run W) (Unit {0}))
      (handler : String → Exec (Run W) (Unit {0}))
      → Step need m (λ _. Unit) (λ _. [])
      → ((e : String) → Step [] (handler e) (λ _. Unit) (λ _. []))
      → Step need (catch m handler) (λ _. Unit) (λ _. [])
  Step-catch m handler t next = record {
    at = λ s i k. catch-Known handler (m s).0 (m s).1 s.world i (t.at s i k).0 next;
  }
