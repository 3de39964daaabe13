-- ===== src/Detector/Decision.antt =====
-- The decision that `SlowQueryDetector.detect` of src/yamazaki/slow_query.py draws from what its
-- blocks have appended.
use yamazaki_incubator.Base.{
  ℕ, String, leb, Bool-cases, ◌<◌, ◌*◌, ◌≤◌, ◌≡◌, ◌≢◌, ◌↔◌, ◌⊎◌, inl, inr, refl, ap, sym, true,
  false, not, List, [], ◌∷◌, arith, length, is_empty,
}
use yamazaki_incubator.Base.Result.{ok, ok-injective, ◌>>=◌, Result-cases, >>=-returned}
use yamazaki_incubator.Numbers.{Float, Floats}
use yamazaki_incubator.Contracts.{
  Uuid, QueryRun, EvidenceRef, DetectionResult, no_severity, high, in_unit, validate_detection,
  unique_evidence_ids, rule,
}
use yamazaki_incubator.Detector.{detect, conclude, severity_of}
use yamazaki_incubator.Detector.Rules.{
  SlowQueryThresholds, Findings, nothing, signal, crossed, ◌<>◌, query_rules, duration_rule,
  queue_rule, memory_rule, scan_rule, history_rule, stagnation_rule, findings,
}

module _ (F : Floats) where
  -- What `validate_detection` returns is what it was given.
  validated : (d : DetectionResult) {e : DetectionResult} → validate_detection F d ≡ ok e → d ≡ e
  unfolding validate_detection
  validated d h = ground arith

  validated-in_unit :
      (d : DetectionResult) {e : DetectionResult}
      → validate_detection F d ≡ ok e
      → in_unit F e.confidence ≡ true
  unfolding validate_detection
  validated-in_unit d h = ground arith

  anomaly_iff : {A : Type 0} (xs : List A) → (not (is_empty xs) ≡ true) ↔ (xs ≢ [])
  anomaly_iff [] = (λ e. cc, λ h. absurd (h refl))
  anomaly_iff (x ∷ xs) = (λ e. λ q. cc, λ h. refl)

  pub findings-split :
      (T : SlowQueryThresholds) (query : QueryRun) (history progress_snapshots : List QueryRun)
      (found : Findings)
      → findings F T query history progress_snapshots ≡ ok found
      → (own : Findings) × (query_rules F T query ≡ ok own)
        × (regressions : Findings) × (history_rule F T query history ≡ ok regressions)
        × (found ≡ own <> regressions <> stagnation_rule F T query progress_snapshots)
  unfolding findings
  findings-split T query history progress_snapshots found h =
      let (own, e, rest) = >>=-returned (query_rules F T query) _ h in
      let (regressions, f, last) = >>=-returned (history_rule F T query history) _ rest in
      (own, e, regressions, f, sym (ok-injective last))

  pub query_rules-split :
      (T : SlowQueryThresholds) (query : QueryRun) (own : Findings)
      → query_rules F T query ≡ ok own
      → (duration queue memory scan : Findings) × (duration_rule F T query ≡ ok duration)
        × (queue_rule F T query query.queue_time_ms ≡ ok queue)
        × (memory_rule F T query query.peak_memory_bytes ≡ ok memory)
        × (scan_rule F T query query.scanned_rows query.returned_rows ≡ ok scan)
        × (own ≡ duration <> queue <> memory <> scan)
  unfolding query_rules
  query_rules-split T query own h =
      let (duration, a, h1) = >>=-returned (duration_rule F T query) _ h in
      let (queue, b, h2) = >>=-returned (queue_rule F T query query.queue_time_ms) _ h1 in
      let (memory, c, h3) = >>=-returned (memory_rule F T query query.peak_memory_bytes) _ h2 in
      let (scan, d, h4) =
        >>=-returned (scan_rule F T query query.scanned_rows query.returned_rows) _ h3 in
      (duration, queue, memory, scan, a, b, c, d, sym (ok-injective h4))

  -- What a metric against its threshold appends, if the conversions return.
  pub crossed-split :
      (code : String) (value limit : ℕ) (found : Findings)
      → crossed F code value limit ≡ ok found
      → ((value < limit) × (found ≡ nothing))
        ⊎ ((limit ≤ value)
            × (observed threshold : Float) × (found ≡ signal F code observed threshold rule))
  unfolding crossed
  crossed-split code value limit found h = elim (Bool-cases (leb limit value)) [
    | inl e ↦
        let (observed, a, h1) = >>=-returned (F.to_double value) _ (rw e at h) in
        let (threshold, b, h2) = >>=-returned (F.to_double limit) _ h1 in
        inr (ground arith, observed, threshold, sym (ok-injective h2))
    | inr e ↦ inl (ground arith, sym (ok-injective (rw e at h)))
  ]

  -- The duration block is the first: at the threshold there is a signal.
  findings-at_threshold :
      (T : SlowQueryThresholds) (query : QueryRun) (own rest : Findings)
      → query_rules F T query ≡ ok own
      → T.duration_ms ≤ query.duration_ms
      → is_empty (own <> rest).signals ≡ false
  unfolding duration_rule
  findings-at_threshold T query own rest h reached =
      let (duration, queue, memory, scan, e, _, _, _, same) = query_rules-split T query own h in
      elim (crossed-split "duration_threshold" query.duration_ms T.duration_ms duration e) [
        | inl (below, _) ↦ absurd (omega arith)
        | inr (_, observed, threshold, found) ↦ rw (same, found) refl
      ]

  severity_of-high :
      (T : SlowQueryThresholds) (query : QueryRun) (found : Findings)
      → (T.duration_ms ≤ query.duration_ms → is_empty found.signals ≡ false)
      → (severity_of F T query found.signals ≡ high)
        ↔ ((2 ≤ length found.signals) ⊎ (T.duration_ms * 2 ≤ query.duration_ms))
  unfolding severity_of
  severity_of-high T query found h = (λ e. ground arith, λ e. ground arith)

  severity_of-none :
      (T : SlowQueryThresholds) (query : QueryRun) (found : Findings)
      → (severity_of F T query found.signals ≡ no_severity) ↔ (found.signals ≡ [])
  unfolding severity_of
  severity_of-none T query found = (λ e. ground arith, λ e. ground arith)

  module _ (T : SlowQueryThresholds) (id : Uuid) (query : QueryRun) (history : List QueryRun)
      (evidence : List EvidenceRef) (progress_snapshots : List QueryRun) where
    -- A result of `detect` is the conclusion from the findings.
    pub detect-ok :
        (d : DetectionResult)
        → detect F T id query history evidence progress_snapshots ≡ ok d
        → (found : Findings) × (findings F T query history progress_snapshots ≡ ok found)
          × (d ≡ conclude F T id query evidence found)
    unfolding detect
    detect-ok d h = elim (Result-cases (findings F T query history progress_snapshots)) [
      | inl (found, e) ↦
          (found, e, sym (validated (conclude F T id query evidence found) (rw e at h)))
      | inr (x, e) ↦ cc (rw e at h)
    ]

    pub detect-query_run_id :
        (d : DetectionResult)
        → detect F T id query history evidence progress_snapshots ≡ ok d
        → d.query_run_id ≡ query.query_run_id
    unfolding conclude
    detect-query_run_id d h =
        let (found, _, same) = detect-ok d h in ap (λ (x : DetectionResult). x.query_run_id) same

    pub detect-in_unit :
        (d : DetectionResult)
        → detect F T id query history evidence progress_snapshots ≡ ok d
        → in_unit F d.confidence ≡ true
    unfolding detect
    detect-in_unit d h =
        let (found, _, valid) = >>=-returned (findings F T query history progress_snapshots) _ h in
        validated-in_unit (conclude F T id query evidence found) valid

    -- A result of `detect` is an anomaly exactly if it has a signal, its severity is "none"
    -- exactly if it has none, and "high" exactly if it has two signals or more or the query ran
    -- for twice the threshold of the duration.
    pub detect-severity :
        (d : DetectionResult)
        → detect F T id query history evidence progress_snapshots ≡ ok d
        → ((d.anomaly ≡ true) ↔ (d.signals ≢ []))
          × ((d.severity ≡ no_severity) ↔ (d.signals ≡ []))
          × ((d.severity ≡ high)
              ↔ ((2 ≤ length d.signals) ⊎ (T.duration_ms * 2 ≤ query.duration_ms)))
    unfolding conclude
    detect-severity d h =
        let (found, e, same) = detect-ok d h in
        let (own, from_query, r, _, split) =
          findings-split T query history progress_snapshots found e in
        rw same (
          anomaly_iff found.signals,
          severity_of-none T query found,
          severity_of-high T query found (λ p. rw split (
              findings-at_threshold T query own (r <> stagnation_rule F T query progress_snapshots)
                from_query p)),
        )

    -- The evidence has no influence on what `detect` decides: with other evidence it raises as it
    -- did, or returns the same result but for the identifiers of the evidence.
    pub detect-evidence :
        (other : List EvidenceRef)
        → detect F T id query history other progress_snapshots ≡ (do
          d ← detect F T id query history evidence progress_snapshots
          ok (record d { evidence_ids = unique_evidence_ids other }))
    unfolding detect conclude validate_detection
    detect-evidence other = elim (Result-cases (findings F T query history progress_snapshots)) [
      | inl (found, e) ↦ rw e (ground arith)
      | inr (x, e) ↦ rw e
    ]
