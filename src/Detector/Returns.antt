-- ===== src/Detector/Returns.antt =====
-- That the blocks of `SlowQueryDetector.detect` of src/yamazaki/slow_query.py return, for numbers that
-- the doubles can hold.
use yamazaki_incubator.Base.{
  ℕ, ◌-◌, ◌+◌, ◌*◌, ◌/◌, ◌≤◌, ◌<◌, ◌≡◌, inl, inr, refl, Bool, Option, none, some, List, [], ◌∷◌,
  String, map, arith, leb, ltb, length, keep, All, Bool-cases, if◌then◌else◌,
}
use yamazaki_incubator.Base.Sort.{sorted}
use yamazaki_incubator.Numbers.{Number, int, Float, Floats, is_positive}
use yamazaki_incubator.Contracts.{QueryRun, rule, statistical}
use yamazaki_incubator.Detector.Stats.{p95_index, p95_of}
use yamazaki_incubator.Detector.Conversions.{
  Returns, Converts, Fits, IsHalf, IsHalfOrNone, NumberIsHalf, All-sorted, index-ReturnsIn,
  median-ReturnsIn, deviation-ReturnsIn, to_float-Returns,
}
use yamazaki_incubator.Detector.Rules.{
  SlowQueryThresholds, Findings, nothing, gap, signal, crossed, same_group, duration_rule,
  queue_rule, memory_rule, scan_rule, scanned_rule, amplification_rule, regressed, p95_rule,
  mad_rule, regression_rules, comparable_durations, history_rule, stagnation_rule, query_rules,
  findings, ◌<>◌,
}

length-map : {A B : Type 0} (f : A → B) (xs : List A) → length (map f xs) ≡ length xs
length-map f [] = refl
length-map f (x ∷ xs) = ground (arith, length-map f xs)

module _ (F : Floats) (bound : ℕ) (converts : Converts F bound) (T : SlowQueryThresholds)
    (query : QueryRun) where
  crossed-Returns :
      (code : String) (value limit : ℕ)
      → IsHalf F bound value
      → IsHalf F bound limit
      → Returns (crossed F code value limit)
  unfolding crossed
  crossed-Returns code value limit h k = elim (Bool-cases (leb limit value)) [
    | inl reached ↦
        let (observed, e) = converts.to_double value (omega arith) in
        let (threshold, f) = converts.to_double limit (omega arith) in
        (signal F code observed threshold rule, rw (reached, e, f) refl)
    | inr below ↦ (nothing, rw below refl)
  ]

  regressed-Returns :
      (code : String) (threshold : Float)
      → IsHalf F bound query.duration_ms
      → Returns (regressed F T query code threshold)
  unfolding regressed
  regressed-Returns code threshold h = elim (Bool-cases (F.le_int threshold query.duration_ms)) [
    | inl reached ↦
        let (observed, e) = converts.to_double query.duration_ms (omega arith) in
        (signal F code observed threshold statistical, rw (reached, e) refl)
    | inr below ↦ (nothing, rw below refl)
  ]

  p95_rule-Returns :
      (p95 : ℕ)
      → IsHalf F bound p95
      → IsHalf F bound query.duration_ms
      → Returns (p95_rule F T query p95)
  unfolding p95_rule
  p95_rule-Returns p95 h k =
      let (value, e) = converts.to_double p95 (omega arith) in
      let (found, f) = regressed-Returns "p95_regression" (F.mul value T.p95_multiplier) k in
      (found, rw e f)

  mad_rule-Returns :
      (center mad : Number)
      → NumberIsHalf F bound center
      → NumberIsHalf F bound mad
      → IsHalf F bound query.duration_ms
      → Returns (mad_rule F T query center mad)
  unfolding mad_rule
  mad_rule-Returns center mad h k l = elim (Bool-cases (is_positive F mad)) [
    | inl positive ↦
        let (spread, e) = to_float-Returns F bound converts mad k in
        let (middle, f) = to_float-Returns F bound converts center h in
        let (found, g) =
          regressed-Returns "mad_regression" (F.add middle (F.mul T.mad_multiplier spread)) l in
        (found, rw (positive, e, f) g)
    | inr zero_ ↦ (nothing, rw zero_ refl)
  ]

  map-int :
      (durations : List ℕ)
      → All (IsHalf F bound) durations
      → All (NumberIsHalf F bound) (map int durations)
  map-int [] fits = tt
  map-int (d ∷ durations) fits = (fits.0, map-int durations fits.1)

  regression_rules-Returns :
      (durations : List ℕ)
      → 0 < length durations
      → All (IsHalf F bound) durations
      → IsHalf F bound query.duration_ms
      → Returns (regression_rules F T query durations)
  unfolding regression_rules p95_of p95_index
  regression_rules-Returns durations h fits k =
      let n = length durations in
      let (p95, a, p) =
        index-ReturnsIn (IsHalf F bound) durations ((n * 95 + 99) / 100 - 1) (omega arith) fits in
      let (by_p95, b) = p95_rule-Returns p95 p k in
      let (center, c, q) =
        median-ReturnsIn F bound converts (map int durations)
          (omega (arith, length-map int durations)) (map-int durations fits) in
      let (mad, d, r) = deviation-ReturnsIn F bound converts durations center h fits q in
      let (by_mad, e) = mad_rule-Returns center mad q r k in
      (by_p95 <> by_mad, rw (a, b, c, d, e) refl)

  All-selected :
      (test : QueryRun → Bool) (history : List QueryRun)
      → All (λ item. IsHalf F bound item.duration_ms) history
      → All (IsHalf F bound) (map (λ item. item.duration_ms) (keep test history))
  All-selected test [] fits = tt
  All-selected test (item ∷ history) fits = elim (Bool-cases (test item)) [
    | inl e ↦ rw e (fits.0, All-selected test history fits.1)
    | inr e ↦ rw e (All-selected test history fits.1)
  ]

  -- What the block of the amplification appends.
  abbrev amplified : Float → Findings
  amplified amplification =
      if F.le T.scan_amplification amplification
      then signal F "scan_amplification" amplification T.scan_amplification statistical
      else nothing

  amplification_rule-Returns :
      (scanned : ℕ) (returned : Option ℕ)
      → IsHalf F bound scanned
      → Returns (amplification_rule F T query scanned returned)
  unfolding amplification_rule
  amplification_rule-Returns scanned none h = (_, refl)
  amplification_rule-Returns scanned (some returned) h = elim (Bool-cases (ltb 0 returned)) [
    | inl e ↦
        let (amplification, f) = converts.int_div scanned returned (omega arith) (ground arith) in
        (amplified amplification, rw (e, f) refl)
    | inr e ↦ (nothing, rw e refl)
  ]

  module _ (history : List QueryRun) (fits : Fits F bound T query history) where
    queue_rule-Returns : (v : Option ℕ) → IsHalfOrNone F bound v → Returns (queue_rule F T query v)
    unfolding queue_rule
    queue_rule-Returns none h = (_, refl)
    queue_rule-Returns (some value) h =
        crossed-Returns "queue_time_threshold" value T.queue_time_ms h fits.queue_limit

    memory_rule-Returns :
        (v : Option ℕ) → IsHalfOrNone F bound v → Returns (memory_rule F T query v)
    unfolding memory_rule
    memory_rule-Returns none h = (_, refl)
    memory_rule-Returns (some value) h =
        crossed-Returns "memory_threshold" value T.peak_memory_bytes h fits.memory_limit

    scan_rule-Returns :
        (n m : Option ℕ) → IsHalfOrNone F bound n → Returns (scan_rule F T query n m)
    unfolding scan_rule scanned_rule
    scan_rule-Returns none m h = (_, refl)
    scan_rule-Returns (some scanned) m h =
        let (crossing, e) =
          crossed-Returns "scanned_rows_threshold" scanned T.scanned_rows h fits.scanned_limit in
        let (amplification, f) = amplification_rule-Returns scanned m h in
        (crossing <> amplification, rw (e, f) refl)

    query_rules-Returns : Returns (query_rules F T query)
    unfolding query_rules duration_rule
    query_rules-Returns =
        let (duration, a) =
          crossed-Returns "duration_threshold" query.duration_ms T.duration_ms fits.duration
            fits.duration_limit in
        let (queue, b) = queue_rule-Returns query.queue_time_ms fits.queue in
        let (memory, c) = memory_rule-Returns query.peak_memory_bytes fits.memory in
        let (scan, d) = scan_rule-Returns query.scanned_rows query.returned_rows fits.scanned in
        (duration <> queue <> memory <> scan, rw (a, b, c, d) refl)

    history_rule-Returns : 1 ≤ T.baseline_samples → Returns (history_rule F T query history)
    unfolding history_rule comparable_durations
    history_rule-Returns h =
        let selected = map (λ item. item.duration_ms) (keep (same_group query) history) in
        let durations = sorted leb selected in
        elim (Bool-cases (ltb (length durations) T.baseline_samples)) [
          | inl few ↦ (gap "history_baseline_insufficient", rw few refl)
          | inr enough ↦
              let (found, e) =
                regression_rules-Returns durations (ground arith)
                  (All-sorted (IsHalf F bound) leb selected
                    (All-selected (same_group query) history fits.past))
                  fits.duration in
              (found, rw enough e)
        ]

    pub findings-Returns :
        (snapshots : List QueryRun)
        → 1 ≤ T.baseline_samples
        → Returns (findings F T query history snapshots)
    unfolding findings
    findings-Returns snapshots h =
        let (own, d) = query_rules-Returns in
        let (r, e) = history_rule-Returns h in
        (own <> r <> stagnation_rule F T query snapshots, rw (d, e) refl)
