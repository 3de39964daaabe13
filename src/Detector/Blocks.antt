-- ===== src/Detector/Blocks.antt =====
-- What a single block of `SlowQueryDetector.detect` of src/yamazaki/slow_query.py appends when it
-- returns.
use yamazaki_incubator.Base.{
  ℕ, ◌≡◌, ◌⊎◌, inl, inr, Option, none, some, List, [], ◌∷◌, String, map, arith, ltb, Bool-cases,
  string_eq, sym, refl,
}
use yamazaki_incubator.Base.Result.{Result, ok, ok-injective, >>=-returned}
use yamazaki_incubator.Numbers.{Float, Number, Floats, to_float, is_positive}
use yamazaki_incubator.Contracts.{QueryRun, DetectionSignal, InferenceKind, rule, statistical}
use yamazaki_incubator.Detector.Decision.{crossed-split}
use yamazaki_incubator.Detector.Rules.{
  SlowQueryThresholds, Findings, nothing, gap, signal, crossed, regressed, duration_rule,
  queue_rule, memory_rule, scanned_rule, amplification_rule, p95_rule, mad_rule, stagnation_rule,
}

abbrev pub codes_of : List DetectionSignal → List String
codes_of = map (λ s. s.code)

-- A block reports its code once or not at all.
abbrev pub Reports : Findings → String → Type 0
Reports f name = (codes_of f.signals ≡ []) ⊎ (codes_of f.signals ≡ name ∷ [])

-- A block appends nothing, or one signal of its code.
abbrev pub Appends : Floats → String → InferenceKind → Findings → Type 0
Appends F code kind found =
    (found ≡ nothing)
    ⊎ ((observed threshold : Float) × (found ≡ signal F code observed threshold kind))

pub Appends-Reports :
    (F : Floats) (code : String) (kind : InferenceKind) (found : Findings)
    → Appends F code kind found
    → Reports found code
Appends-Reports F code kind found (inl e) = rw e (inl refl)
Appends-Reports F code kind found (inr (observed, threshold, e)) = rw e (inr refl)

pub Appends-gaps :
    (F : Floats) (code : String) (kind : InferenceKind) (found : Findings)
    → Appends F code kind found
    → found.gaps ≡ []
Appends-gaps F code kind found (inl e) = rw e refl
Appends-gaps F code kind found (inr (observed, threshold, e)) = rw e refl

-- What a block that returns reports.
abbrev pub Reporting : Result Findings → String → Type 0
Reporting block name = (found : Findings) → block ≡ ok found → Reports found name

gap-Reporting : (name code : String) → Reporting (ok (gap name)) code
gap-Reporting name code found h = rw (← ok-injective h) (inl refl)

module _ (F : Floats) (T : SlowQueryThresholds) (query : QueryRun) where
  pub crossed-Appends :
      (code : String) (value limit : ℕ) (found : Findings)
      → crossed F code value limit ≡ ok found
      → Appends F code rule found
  crossed-Appends code value limit found h = elim (crossed-split F code value limit found h) [
    | inl (_, e) ↦ inl e
    | inr (_, observed, threshold, e) ↦ inr (observed, threshold, e)
  ]

  regressed-Appends :
      (code : String) (threshold : Float) (found : Findings)
      → regressed F T query code threshold ≡ ok found
      → Appends F code statistical found
  unfolding regressed
  regressed-Appends code threshold found h =
      elim (Bool-cases (F.le_int threshold query.duration_ms)) [
        | inl e ↦
            let (observed, _, h1) = >>=-returned (F.to_double query.duration_ms) _ (rw e at h) in
            inr (observed, threshold, sym (ok-injective h1))
        | inr e ↦ inl (sym (ok-injective (rw e at h)))
      ]

  pub p95_rule-Appends :
      (p95 : ℕ) (found : Findings)
      → p95_rule F T query p95 ≡ ok found
      → Appends F "p95_regression" statistical found
  unfolding p95_rule
  p95_rule-Appends p95 found h =
      let (value, _, h1) = >>=-returned (F.to_double p95) _ h in
      regressed-Appends "p95_regression" (F.mul value T.p95_multiplier) found h1

  pub mad_rule-Appends :
      (center mad : Number) (found : Findings)
      → mad_rule F T query center mad ≡ ok found
      → Appends F "mad_regression" statistical found
  unfolding mad_rule
  mad_rule-Appends center mad found h = elim (Bool-cases (is_positive F mad)) [
    | inl e ↦
        let (spread, _, h1) = >>=-returned (to_float F mad) _ (rw e at h) in
        let (middle, _, h2) = >>=-returned (to_float F center) _ h1 in
        regressed-Appends "mad_regression" (F.add middle (F.mul T.mad_multiplier spread)) found h2
    | inr e ↦ inl (sym (ok-injective (rw e at h)))
  ]

  crossed-Reporting :
      (code : String) (value limit : ℕ) → Reporting (crossed F code value limit) code
  crossed-Reporting code value limit found h =
      Appends-Reports F code rule found (crossed-Appends code value limit found h)

  pub duration_rule-Reporting : Reporting (duration_rule F T query) "duration_threshold"
  unfolding duration_rule
  duration_rule-Reporting = crossed-Reporting "duration_threshold" query.duration_ms T.duration_ms

  pub queue_rule-Reporting :
      (v : Option ℕ) → Reporting (queue_rule F T query v) "queue_time_threshold"
  unfolding queue_rule
  queue_rule-Reporting none = gap-Reporting "queue_time_unavailable" "queue_time_threshold"
  queue_rule-Reporting (some value) = crossed-Reporting "queue_time_threshold" value T.queue_time_ms

  pub memory_rule-Reporting :
      (v : Option ℕ) → Reporting (memory_rule F T query v) "memory_threshold"
  unfolding memory_rule
  memory_rule-Reporting none = gap-Reporting "peak_memory_unavailable" "memory_threshold"
  memory_rule-Reporting (some value) =
      crossed-Reporting "memory_threshold" value T.peak_memory_bytes

  pub scanned_rule-Reporting :
      (n : ℕ) → Reporting (scanned_rule F T query n) "scanned_rows_threshold"
  unfolding scanned_rule
  scanned_rule-Reporting n = crossed-Reporting "scanned_rows_threshold" n T.scanned_rows

  pub amplification_rule-Reporting :
      (n : ℕ) (v : Option ℕ) → Reporting (amplification_rule F T query n v) "scan_amplification"
  unfolding amplification_rule
  amplification_rule-Reporting n none found h =
      gap-Reporting "returned_rows_unavailable" "scan_amplification" found h
  amplification_rule-Reporting n (some m) found h = elim (Bool-cases (ltb 0 m)) [
    | inl e ↦
        let (amplification, _, h1) = >>=-returned (F.int_div n m) _ (rw e at h) in
        rw (← ok-injective h1) (ground arith)
    | inr e ↦ rw (← ok-injective (rw e at h)) (inl refl)
  ]

  pub stagnation_rule-Reports :
      (snapshots : List QueryRun)
      → Reports (stagnation_rule F T query snapshots) "progress_stagnation"
  unfolding stagnation_rule
  stagnation_rule-Reports snapshots = ground arith
