-- ===== src/Agent/Laws.antt =====
-- What the model may put into a diagnosis, in src/yamazaki/agent.py.
use yamazaki_incubator.Base.{
  ◌≡◌, ◌≢◌, refl, ap, subst, true, false, Option, none, some, List, [], ◌∷◌, String, contains, All,
  is_empty, arith, nat_eq, string_eq, Bool-cases, Option-cases, inl, inr, sym, ◌∙◌,
}
use yamazaki_incubator.Base.Result.{ok, >>=-returned, ok-injective}
use yamazaki_incubator.Base.Exec.{Exec}
use yamazaki_incubator.Base.Unique.{from_keys}
use yamazaki_incubator.Numbers.{Floats}
use yamazaki_incubator.Json.{Platform}
use yamazaki_incubator.Contracts.{
  Uuid, QueryRun, EvidenceRef, EvidenceBundle, ids_of, DetectionResult, RootCause, validate_cause,
  Diagnosis, validate_diagnosis, agent_assisted, Recommendation, validate_recommendation,
}
use yamazaki_incubator.Agent.{
  CauseOutput, DiagnosisOutput, PromptQuery, prompt_query, with_next, allowed, cited,
  assisted_causes, conclude, read_output, diagnose,
}

-- A cause that cites evidence, and none but that of the bundle.
abbrev pub Grounded : EvidenceBundle → RootCause → Type 0
Grounded evidence c =
    (c.evidence_ids ≢ []) × All (λ i. contains (ids_of evidence.items) i ≡ true) c.evidence_ids

module _ (F : Floats) (P : Platform) where
  allowed-contains :
      (items : List EvidenceRef) (s : String) (i : Uuid)
      → allowed F P items s ≡ some i
      → contains (ids_of items) i ≡ true
  unfolding allowed
  allowed-contains [] s i h = cc
  allowed-contains (item ∷ items) s i h = elim (Option-cases (allowed F P items s)) [
    | inl e ↦ ground (arith, rw e at h)
    | inr there ↦
        let (j, e) = there in
        let same : some j ≡ some i = rw e at h in
        ground (arith, allowed-contains items s i (e ∙ same))
  ]

  abbrev InBundle : List EvidenceRef → List Uuid → Type 0
  InBundle items = All (λ i. contains (ids_of items) i ≡ true)

  next-InBundle :
      (items : List EvidenceRef) (s : String) (rest : List Uuid) (o : Option Uuid)
      → allowed F P items s ≡ o
      → InBundle items rest
      → InBundle items (with_next o rest)
  next-InBundle items s rest (some i) e h = (allowed-contains items s i e, h)
  next-InBundle items s rest none e h = h

  cited-InBundle :
      (items : List EvidenceRef) (ss : List String) → InBundle items (cited F P items ss)
  unfolding cited
  cited-InBundle items [] = tt
  cited-InBundle items (s ∷ ss) =
      next-InBundle items s (cited F P items ss) (allowed F P items s) refl
        (cited-InBundle items ss)

  validated_cause : (c d : RootCause) → validate_cause F c ≡ ok d → c ≡ d
  unfolding validate_cause
  validated_cause c d h = ground arith

  assisted_causes-Grounded :
      (evidence : EvidenceBundle) (outputs : List CauseOutput) (causes : List RootCause)
      → assisted_causes F P evidence.items outputs ≡ ok causes
      → All (Grounded evidence) causes
  unfolding assisted_causes
  assisted_causes-Grounded evidence [] causes h =
      subst (All (Grounded evidence)) (ok-injective h) tt
  assisted_causes-Grounded evidence (o ∷ outputs) causes h =
      let ids = cited F P evidence.items (from_keys o.evidence_ids) in
      elim (Bool-cases (is_empty ids)) [
        | inl e ↦ assisted_causes-Grounded evidence outputs causes (rw e at h)
        | inr e ↦
            let (made, m, h') = >>=-returned (validate_cause F _) _ (rw e at h) in
            let (others, r, h'') = >>=-returned (assisted_causes F P evidence.items outputs) _ h' in
            subst (All (Grounded evidence)) (ok-injective h'') (
              subst (Grounded evidence) (validated_cause _ made m)
                  ((λ z. cc (e, z)), cited-InBundle evidence.items (from_keys o.evidence_ids)),
              assisted_causes-Grounded evidence outputs others r,
            )
      ]

  module _ (model_id prompt_version : String) (diagnosis_id recommendation_id : Uuid) where
    -- What the assisted diagnosis is bound to, whatever the model returned.
    pub record IsAssisted (query : QueryRun) (evidence : EvidenceBundle) (diagnosis : Diagnosis)
        (recommendation : Recommendation) : Type 0 where
      pub of_query : diagnosis.query_run_id ≡ query.query_run_id
      pub by_agent : diagnosis.source ≡ agent_assisted
      pub some_cause : diagnosis.causes ≢ []
      pub grounded : All (Grounded evidence) diagnosis.causes
      pub linked : recommendation.diagnosis_id ≡ diagnosis.diagnosis_id
      pub review_only : recommendation.actionable ≡ false

    validated_diagnosis : (g h : Diagnosis) → validate_diagnosis g ≡ ok h → g ≡ h
    unfolding validate_diagnosis
    validated_diagnosis g h e = ground arith

    validated_recommendation : (r s : Recommendation) → validate_recommendation r ≡ ok s → r ≡ s
    unfolding validate_recommendation
    validated_recommendation r s e = ground arith

    conclude-IsAssisted :
        (query : QueryRun) (evidence : EvidenceBundle) (output : DiagnosisOutput)
        (causes : List RootCause) (g : Diagnosis) (r : Recommendation)
        → All (Grounded evidence) causes
        → conclude F P model_id prompt_version diagnosis_id recommendation_id query evidence output
            causes
          ≡ ok (some (g, r))
        → IsAssisted query evidence g r
    unfolding conclude
    conclude-IsAssisted query evidence output [] g r all h = cc (ok-injective h)
    conclude-IsAssisted query evidence output (c ∷ cs) g r all h =
        let (g', a, h') = >>=-returned (validate_diagnosis _) _ h in
        let (r', b, h'') = >>=-returned (validate_recommendation _) _ h' in
        let made : g' ≡ g = cc h'' in
        let said : r' ≡ r = cc h'' in
        let first = validated_diagnosis _ g' a ∙ made in
        subst (λ x. IsAssisted query evidence x r) first
          (subst (IsAssisted query evidence _) (validated_recommendation _ r' b ∙ said) (record {
            of_query = refl;
            by_agent = refl;
            some_cause = λ z. cc z;
            grounded = all;
            linked = ap (λ (x : Diagnosis). x.diagnosis_id) (sym (validated_diagnosis _ g' a));
            review_only = refl;
          }))

    read_output-IsAssisted :
        (query : QueryRun) (evidence : EvidenceBundle) (o : Option DiagnosisOutput) (g : Diagnosis)
        (r : Recommendation)
        → read_output F P model_id prompt_version diagnosis_id recommendation_id query evidence o
          ≡ ok (some (g, r))
        → IsAssisted query evidence g r
    unfolding read_output
    read_output-IsAssisted query evidence none g r h = cc h
    read_output-IsAssisted query evidence (some output) g r h =
        let (causes, e, h') = >>=-returned (assisted_causes F P evidence.items output.causes) _ h in
        conclude-IsAssisted query evidence output causes g r
          (assisted_causes-Grounded evidence output.causes causes e) h'

    module _ {W : Type 0}
        (run_sync : PromptQuery
          → DetectionResult
          → EvidenceBundle
          → Exec W (Option DiagnosisOutput)) where
      -- Whatever the model returns: where `diagnose` returns a diagnosis, it is one of the query, by
      -- the agent, with a cause at least, each cause cites evidence and none but that of the bundle,
      -- and the recommendation is of the diagnosis and not actionable.
      pub diagnose-IsAssisted :
          (query : QueryRun) (detection : DetectionResult) (evidence : EvidenceBundle)
          (g : Diagnosis) (r : Recommendation) (w : W)
          → (diagnose F P model_id prompt_version diagnosis_id recommendation_id run_sync query
              detection evidence w).0
            ≡ ok (some (g, r))
          → IsAssisted query evidence g r
      unfolding diagnose
      diagnose-IsAssisted query detection evidence g r w h =
          let (o, e, h') =
            >>=-returned (run_sync (prompt_query query) detection evidence w).0 _ h in
          read_output-IsAssisted query evidence o g r h'
