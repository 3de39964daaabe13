-- ===== src/Persistence/Laws.antt =====
-- What the repository of src/yamazaki/persistence.py keeps, on a server whose tables behave as SQL
-- says: a committed row is found under its key, and a refused statement is rolled back.
use yamazaki_incubator.Base.{
  ℕ, ◌+◌, ◌≡◌, refl, ap, ◌∙◌, subst, Option, none, some, List, [], ◌∷◌, String, arith, length,
}
use yamazaki_incubator.Base.Result.{Result, ok, raised, ok-injective}
use yamazaki_incubator.Base.Exec.{Exec, pure, continue, ◌>>◌}
use yamazaki_incubator.Contracts.{
  ClusterTarget, QueryRun, EvidenceRef, InvestigationRequest, InvestigationResult,
}
use yamazaki_incubator.Persistence.{
  Table, Codec, Server, ClusterRow, QueryRow, EvidenceRow, InvestigationRow, key, cluster_row,
  query_row, evidence_row, state_of, result_payload_of, save_cluster, save_query_run, save_evidence,
  save_investigation,
}

-- What SQL documents of a table whose rows have the primary key `primary`.
pub record TableLaws {DB Row : Type 0} (T : Table DB Row) (primary : Row → String) : Type 0 where
  pub found_key : (k : String) (db : DB) (row : Row) → T.find k db ≡ some row → primary row ≡ k
  pub insert_found :
      (row : Row) (db db' : DB)
      → T.insert row db ≡ (ok tt, db')
      → T.find (primary row) db' ≡ some row
  pub change_found :
      (k : String) (f : Row → Row) (row : Row) (db db' : DB)
      → primary (f row) ≡ primary row
      → T.find k db ≡ some row
      → T.change k f db ≡ (ok tt, db')
      → T.find k db' ≡ some (f row)

-- A contract that was dumped loads again.
abbrev pub RoundTrip : {Payload A : Type 0} → Codec Payload A → Type 0
RoundTrip {Payload} {A} c = (a : A) → c.load_contract (c.model_dump a) ≡ ok a

module _ {S A : Type 0} where
  then_pure_of :
      (r : Result (Unit {0})) (t : S) (a b : A) (s' : S)
      → continue r (λ _. pure a) t ≡ (ok b, s')
      → (a ≡ b) × (◌≡◌ {A = Result (Unit {0}) × S} (r, t) (ok tt, s'))
  then_pure_of (ok x) t a b s' h = (ok-injective (ap (λ y. y.0) h), ap (λ y. (ok x, y.1)) h)
  then_pure_of (raised e) t a b s' h = cc (ap (λ y. y.0) h)

  -- A statement followed by `return a` returned.
  then_pure :
      (m : Exec S (Unit {0})) (a b : A) (s s' : S)
      → (m >> pure a) s ≡ (ok b, s')
      → (a ≡ b) × (m s ≡ (ok tt, s'))
  then_pure m a b s s' h = let (r, t) = m s in then_pure_of r t a b s' h

module _ {S A : Type 0} where
  then_of :
      (k : Exec S A) (r : Result (Unit {0})) (t : S) (b : A) (s' : S)
      → continue r (λ _. k) t ≡ (ok b, s')
      → (u : S) × (◌≡◌ {A = Result (Unit {0}) × S} (r, t) (ok tt, u)) × (k u ≡ (ok b, s'))
  then_of k (ok x) t b s' h = (t, refl, h)
  then_of k (raised e) t b s' h = cc (ap (λ y. y.0) h)

  -- Two statements returned, one after the other.
  then_inv :
      (m : Exec S (Unit {0})) (k : Exec S A) (s : S) (b : A) (s' : S)
      → (m >> k) s ≡ (ok b, s')
      → (u : S) × (m s ≡ (ok tt, u)) × (k u ≡ (ok b, s'))
  then_inv m k s b s' h = let (r, t) = m s in then_of k r t b s' h

module _ {Payload DB : Type 0} (S : Server Payload DB) where
  -- The key of what is saved leads to a row that loads as what was returned.
  save_query_run-stores :
      TableLaws S.query_runs (λ row. row.query_run_id)
      → RoundTrip S.query_codec
      → (q r : QueryRun) (db db' : DB) (o : Option (QueryRow Payload))
      → S.query_runs.find (key S q.query_run_id) db ≡ o
      → save_query_run S q db ≡ (ok r, db')
      → (row : QueryRow Payload) × (S.query_runs.find (key S q.query_run_id) db' ≡ some row)
        × (S.query_codec.load_contract row.payload ≡ ok r)
  unfolding save_query_run
  save_query_run-stores L t q r db db' none e h =
      let (a, b) =
        then_pure (S.query_runs.insert (query_row S q)) q r db db' (rw (e, save_query_run) at h) in
      (query_row S q, L.insert_found (query_row S q) db db' b, t q ∙ ap ok a)
  save_query_run-stores L t q r db db' (some row) e h =
      let h' : (S.query_codec.load_contract row.payload, db) ≡ (ok r, db') =
        rw (e, save_query_run) at h in
      (
        row,
        subst (λ d. S.query_runs.find (key S q.query_run_id) d ≡ some row) (ap (λ y. y.1) h') e,
        ap (λ y. y.0) h',
      )

  save_query_run-found :
      (q : QueryRun) (db : DB) (row : QueryRow Payload)
      → S.query_runs.find (key S q.query_run_id) db ≡ some row
      → save_query_run S q db ≡ (S.query_codec.load_contract row.payload, db)
  unfolding save_query_run
  save_query_run-found q db row e = rw (e, save_query_run)

  -- On a table with the laws of SQL and a codec that loads what it dumped: after
  -- `save_query_run` returned a run, saving any run with the same identifier returns that same
  -- run and leaves the database as it is. The first write wins.
  pub save_query_run-twice :
      TableLaws S.query_runs (λ row. row.query_run_id)
      → RoundTrip S.query_codec
      → (q q' r : QueryRun) (db db' : DB) → q'.query_run_id ≡ q.query_run_id
      → save_query_run S q db ≡ (ok r, db')
      → save_query_run S q' db' ≡ (ok r, db')
  save_query_run-twice L t q q' r db db' e h =
      let (row, there, loads) =
        save_query_run-stores L t q r db db' (S.query_runs.find (key S q.query_run_id) db) refl h in
      save_query_run-found q' db' row (ap (λ i. S.query_runs.find (key S i) db') e ∙ there)
      ∙ ap (λ x. (x, db')) loads

  -- The key of what is saved leads to a row that loads as what was returned.
  save_evidence-stores :
      TableLaws S.evidence_refs (λ row. row.evidence_id)
      → RoundTrip S.evidence_codec
      → (v r : EvidenceRef) (db db' : DB) (o : Option (EvidenceRow Payload))
      → S.evidence_refs.find (key S v.evidence_id) db ≡ o
      → save_evidence S v db ≡ (ok r, db')
      → (row : EvidenceRow Payload) × (S.evidence_refs.find (key S v.evidence_id) db' ≡ some row)
        × (S.evidence_codec.load_contract row.payload ≡ ok r)
  unfolding save_evidence
  save_evidence-stores L t v r db db' none e h =
      let (a, b) =
        then_pure (S.evidence_refs.insert (evidence_row S v)) v r db db'
          (rw (e, save_evidence) at h) in
      (evidence_row S v, L.insert_found (evidence_row S v) db db' b, t v ∙ ap ok a)
  save_evidence-stores L t v r db db' (some row) e h =
      let h' : (S.evidence_codec.load_contract row.payload, db) ≡ (ok r, db') =
        rw (e, save_evidence) at h in
      (
        row,
        subst (λ d. S.evidence_refs.find (key S v.evidence_id) d ≡ some row) (ap (λ y. y.1) h') e,
        ap (λ y. y.0) h',
      )

  save_evidence-found :
      (v : EvidenceRef) (db : DB) (row : EvidenceRow Payload)
      → S.evidence_refs.find (key S v.evidence_id) db ≡ some row
      → save_evidence S v db ≡ (S.evidence_codec.load_contract row.payload, db)
  unfolding save_evidence
  save_evidence-found v db row e = rw (e, save_evidence)

  -- On a table with the laws of SQL and a codec that loads what it dumped: after `save_evidence`
  -- returned a reference, saving any reference with the same identifier returns that same one
  -- and leaves the database as it is.
  pub save_evidence-twice :
      TableLaws S.evidence_refs (λ row. row.evidence_id)
      → RoundTrip S.evidence_codec
      → (v v' r : EvidenceRef) (db db' : DB) → v'.evidence_id ≡ v.evidence_id
      → save_evidence S v db ≡ (ok r, db')
      → save_evidence S v' db' ≡ (ok r, db')
  save_evidence-twice L t v v' r db db' e h =
      let (row, there, loads) =
        save_evidence-stores L t v r db db' (S.evidence_refs.find (key S v.evidence_id) db) refl
          h in
      save_evidence-found v' db' row (ap (λ i. S.evidence_refs.find (key S i) db') e ∙ there)
      ∙ ap (λ x. (x, db')) loads

  save_cluster_stores :
      TableLaws S.clusters (λ row. row.cluster_id)
      → (target : ClusterTarget) (db db' : DB) (o : Option (ClusterRow Payload))
      → S.clusters.find target.cluster_id db ≡ o
      → save_cluster S target db ≡ (ok tt, db')
      → S.clusters.find target.cluster_id db' ≡ some (cluster_row S target)
  unfolding save_cluster
  save_cluster_stores L target db db' none e h =
      L.insert_found (cluster_row S target) db db' (rw (e, save_cluster) at h)
  save_cluster_stores L target db db' (some row) e h =
      L.change_found target.cluster_id _ row db db' refl e (rw (e, save_cluster) at h)
      ∙ ap
          (λ i. some (record {
            cluster_id = i;
            engine = target.engine;
            payload = S.cluster_codec.model_dump target;
          }))
          (L.found_key target.cluster_id db row e)

  -- On a table with the laws of SQL, after `save_cluster` returned, the row of the cluster is
  -- the one of the target that was saved.
  pub save_cluster-last :
      TableLaws S.clusters (λ row. row.cluster_id)
      → (target : ClusterTarget) (db db' : DB) → save_cluster S target db ≡ (ok tt, db')
      → S.clusters.find target.cluster_id db' ≡ some (cluster_row S target)
  save_cluster-last L target db db' h =
      save_cluster_stores L target db db' (S.clusters.find target.cluster_id db) refl h

  module _ (request : InvestigationRequest) where
    -- The investigation is stored, after `version` updates and last with the result `o`.
    abbrev pub Stored : ℕ → Option InvestigationResult → DB → Type 0
    Stored version o db =
        (row : InvestigationRow Payload) × (S.investigations.find (key S request.investigation_id)
            db
          ≡ some row)
        × (row.version ≡ version)
        × (row.state ≡ state_of S o)
        × (row.result_payload ≡ result_payload_of S o)
        × (row.request_payload ≡ S.request_codec.model_dump request)

    -- The saves of one investigation, in their order.
    abbrev pub save_all : List (Option InvestigationResult) → Exec DB (Unit {0})
    save_all [] = pure tt
    save_all (o ∷ rest) = save_investigation S request o >> save_all rest

    abbrev pub last_of :
        Option InvestigationResult → List (Option InvestigationResult) → Option InvestigationResult
    last_of o [] = o
    last_of o (p ∷ rest) = last_of p rest

    first_save :
        TableLaws S.investigations (λ row. row.investigation_id)
        → (o : Option InvestigationResult) (db db' : DB)
        → S.investigations.find (key S request.investigation_id) db ≡ none
        → save_investigation S request o db ≡ (ok tt, db')
        → Stored 0 o db'
    unfolding save_investigation
    first_save L o db db' e h =
        (_, L.insert_found _ db db' (rw (e, save_investigation) at h), refl, refl, refl, refl)

    next_save :
        TableLaws S.investigations (λ row. row.investigation_id)
        → (version : ℕ) (o p : Option InvestigationResult) (db db' : DB) → Stored version o db
        → save_investigation S request p db ≡ (ok tt, db')
        → Stored (version + 1) p db'
    unfolding save_investigation
    next_save L version o p db db' (row, e, v, a, b, c) h = (
      _,
      L.change_found _ _ row db db' refl e (rw (e, save_investigation) at h),
      ap (λ n. n + 1) v,
      refl,
      refl,
      c,
    )

    Stored-at :
        (o : Option InvestigationResult) (db : DB) {m n : ℕ} → m ≡ n → Stored m o db → Stored n o db
    Stored-at o db e stored = subst (λ v. Stored v o db) e stored

    more_saves :
        TableLaws S.investigations (λ row. row.investigation_id)
        → (version : ℕ) (o : Option InvestigationResult) (rest : List (Option InvestigationResult))
          (db db' : DB)
        → Stored version o db
        → save_all rest db ≡ (ok tt, db')
        → Stored (version + length rest) (last_of o rest) db'
    more_saves L version o [] db db' stored h =
        Stored-at o db' (omega arith) (subst (Stored version o) (ap (λ y. y.1) h) stored)
    more_saves L version o (p ∷ rest) db db' stored h =
        let (u, first, others) =
          then_inv (save_investigation S request p) (save_all rest) db tt db' h in
        Stored-at (last_of p rest) db' (omega arith) (
          more_saves L (version + 1) p rest u db' (next_save L version o p db u stored first)
            others)

    -- On a table with the laws of SQL, where the investigation was not stored and a sequence of
    -- saves of it returned, its row has one version less than there were saves, the state and the
    -- result of the last of them, and the request.
    pub save_all-Stored :
        TableLaws S.investigations (λ row. row.investigation_id)
        → (o : Option InvestigationResult) (rest : List (Option InvestigationResult)) (db db' : DB)
        → S.investigations.find (key S request.investigation_id) db ≡ none
        → save_all (o ∷ rest) db ≡ (ok tt, db')
        → Stored (length rest) (last_of o rest) db'
    save_all-Stored L o rest db db' e h =
        let (u, first, others) =
          then_inv (save_investigation S request o) (save_all rest) db tt db' h in
        Stored-at (last_of o rest) db' (omega arith)
          (more_saves L 0 o rest u db' (first_save L o db u e first) others)
