-- ===== src/Detector/Signals.antt =====
-- Which signals `SlowQueryDetector.detect` of src/yamazaki/slow_query.py can report.
use mathlib.Core.List.{Sublist, map-append}
use mathlib.Core.List.Sublist
use yamazaki_incubator.Base.{
  ℕ, ◌≡◌, inl, inr, Option, none, some, List, [], ◌∷◌, ◌++◌, String, map, ltb, length, Bool-cases,
  string_eq,
}
use yamazaki_incubator.Base.Result.{ok, ok-injective, >>=-returned}
use yamazaki_incubator.Numbers.{int, Floats}
use yamazaki_incubator.Contracts.{
  Uuid, QueryRun, EvidenceRef, DetectionResult, DetectionSignal, statistical,
}
use yamazaki_incubator.Detector.Stats.{p95_of, median, deviation}
use yamazaki_incubator.Detector.{detect, conclude}
use yamazaki_incubator.Detector.Decision.{detect-ok, findings-split, query_rules-split}
use yamazaki_incubator.Detector.Blocks.{
  codes_of, Reports, Appends, Appends-Reports, p95_rule-Appends, mad_rule-Appends,
  duration_rule-Reporting, queue_rule-Reporting, memory_rule-Reporting, scanned_rule-Reporting,
  amplification_rule-Reporting, stagnation_rule-Reports,
}
use yamazaki_incubator.Detector.Rules.{
  SlowQueryThresholds, Findings, ◌<>◌, scan_rule, scanned_rule, amplification_rule, p95_rule,
  mad_rule, regression_rules, comparable_durations, history_rule, stagnation_rule, query_rules,
  findings,
}

-- The codes in the order in which `detect` can append them.
abbrev pub signal_codes : List String
signal_codes =
    "duration_threshold" ∷ "queue_time_threshold" ∷ "memory_threshold" ∷ "scanned_rows_threshold"
    ∷ "scan_amplification" ∷ "p95_regression" ∷ "mad_regression" ∷ "progress_stagnation" ∷ []

abbrev Within : Findings → List String → Type 0
Within f names = Sublist (codes_of f.signals) names

<>-Within :
    (a b : Findings) (xs ys : List String) → Within a xs → Within b ys → Within (a <> b) (xs ++ ys)
<>-Within a b xs ys p q =
    rw (map-append (λ (s : DetectionSignal). s.code) a.signals b.signals) (Sublist.append p q)

Reports-Within : (f : Findings) (name : String) → Reports f name → Within f (name ∷ [])
Reports-Within f name (inl e) = rw e (Sublist.cons name (Sublist.refl []))
Reports-Within f name (inr e) = rw e (Sublist.refl (name ∷ []))

module _ (F : Floats) (T : SlowQueryThresholds) (query : QueryRun) where
  scan_rule-Within :
      (n m : Option ℕ) (found : Findings)
      → scan_rule F T query n m ≡ ok found
      → Within found ("scanned_rows_threshold" ∷ "scan_amplification" ∷ [])
  unfolding scan_rule
  scan_rule-Within none m found h =
      rw (← ok-injective h) (
        Sublist.cons "scanned_rows_threshold" (Sublist.cons "scan_amplification" (Sublist.refl [])))
  scan_rule-Within (some n) m found h =
      let (crossing, e, h1) = >>=-returned (scanned_rule F T query n) _ h in
      let (amplification, f, h2) = >>=-returned (amplification_rule F T query n m) _ h1 in
      rw (← ok-injective h2) (
        <>-Within crossing amplification ("scanned_rows_threshold" ∷ []) ("scan_amplification" ∷ [])
          (Reports-Within crossing "scanned_rows_threshold"
            (scanned_rule-Reporting F T query n crossing e))
          (Reports-Within amplification "scan_amplification"
            (amplification_rule-Reporting F T query n m amplification f)))

  pub regression_rules-split :
      (durations : List ℕ) (found : Findings)
      → regression_rules F T query durations ≡ ok found
      → (by_p95 by_mad : Findings) × Appends F "p95_regression" statistical by_p95
        × Appends F "mad_regression" statistical by_mad
        × (by_p95 <> by_mad ≡ found)
  unfolding regression_rules
  regression_rules-split durations found h =
      let (p95, _, h1) = >>=-returned (p95_of durations) _ h in
      let (by_p95, e, h2) = >>=-returned (p95_rule F T query p95) _ h1 in
      let (center, _, h3) = >>=-returned (median F (map int durations)) _ h2 in
      let (mad, _, h4) = >>=-returned (deviation F durations center) _ h3 in
      let (by_mad, f, h5) = >>=-returned (mad_rule F T query center mad) _ h4 in
      (
        by_p95,
        by_mad,
        p95_rule-Appends F T query p95 by_p95 e,
        mad_rule-Appends F T query center mad by_mad f,
        ok-injective h5,
      )

  history_rule-Within :
      (history : List QueryRun) (found : Findings)
      → history_rule F T query history ≡ ok found
      → Within found ("p95_regression" ∷ "mad_regression" ∷ [])
  unfolding history_rule
  history_rule-Within history found h =
      elim (Bool-cases (ltb (length (comparable_durations F T query history)) T.baseline_samples)) [
        | inl few ↦
            rw (← ok-injective (rw few at h))
              (Sublist.cons "p95_regression" (Sublist.cons "mad_regression" (Sublist.refl [])))
        | inr enough ↦
            let (a, b, p, q, e) =
              regression_rules-split (comparable_durations F T query history) found
                (rw enough at h) in
            rw (← e) (
              <>-Within a b ("p95_regression" ∷ []) ("mad_regression" ∷ [])
                (Reports-Within a "p95_regression"
                  (Appends-Reports F "p95_regression" statistical a p))
                (Reports-Within b "mad_regression"
                  (Appends-Reports F "mad_regression" statistical b q)))
      ]

  query_rules-Within :
      (own : Findings)
      → query_rules F T query ≡ ok own
      → Within own (
          "duration_threshold" ∷ "queue_time_threshold" ∷ "memory_threshold"
          ∷ "scanned_rows_threshold" ∷ "scan_amplification" ∷ [])
  query_rules-Within own h =
      let (duration, queue, memory, scan, a, b, c, d, same) = query_rules-split F T query own h in
      rw same (
        <>-Within duration (queue <> memory <> scan) ("duration_threshold" ∷ []) _
          (Reports-Within duration "duration_threshold"
            (duration_rule-Reporting F T query duration a))
          (<>-Within queue (memory <> scan) ("queue_time_threshold" ∷ []) _
            (Reports-Within queue "queue_time_threshold"
              (queue_rule-Reporting F T query query.queue_time_ms queue b))
            (<>-Within memory scan ("memory_threshold" ∷ []) _
              (Reports-Within memory "memory_threshold"
                (memory_rule-Reporting F T query query.peak_memory_bytes memory c))
              (scan_rule-Within query.scanned_rows query.returned_rows scan d))))

  pub findings-Within :
      (history progress_snapshots : List QueryRun) (found : Findings)
      → findings F T query history progress_snapshots ≡ ok found
      → Within found signal_codes
  findings-Within history progress_snapshots found h =
      let (own, d, r, e, same) = findings-split F T query history progress_snapshots found h in
      let last = stagnation_rule F T query progress_snapshots in
      rw same (
        <>-Within own (r <> last) _ _ (query_rules-Within own d) (
          <>-Within r last ("p95_regression" ∷ "mad_regression" ∷ []) ("progress_stagnation" ∷ [])
            (history_rule-Within history r e)
            (Reports-Within last "progress_stagnation"
              (stagnation_rule-Reports F T query progress_snapshots))))

  -- The signals of a result of `detect` are some of the eight, each at most once and in the
  -- order of the blocks.
  pub detect-codes :
      (id : Uuid) (history : List QueryRun) (evidence : List EvidenceRef)
      (progress_snapshots : List QueryRun) (d : DetectionResult)
      → detect F T id query history evidence progress_snapshots ≡ ok d
      → Sublist (codes_of d.signals) signal_codes
  unfolding conclude
  detect-codes id history evidence progress_snapshots d h =
      let (found, e, same) = detect-ok F T id query history evidence progress_snapshots d h in
      rw same (findings-Within history progress_snapshots found e)
