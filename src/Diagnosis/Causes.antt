-- ===== src/Diagnosis/Causes.antt =====
-- `RuleDiagnoser.diagnose` of src/yamazaki/diagnosis.py: it returns on all that the detector
-- reports, and what it reports rests on the evidence.
use text.Mathlib.TextEquality.{eq_iff}
use yamazaki_incubator.Base.{
  ◌≤◌, ◌≡◌, inl, inr, refl, ◌∙◌, Bool, true, false, ◌&&◌, ◌||◌, List, [], ◌∷◌, String, map, arith,
  length, all, All, contains, All-map, ==-refl, Bool-cases, string_eq, nat_eq,
}
use yamazaki_incubator.Base.Result.{ok, raised, ◌>>=◌, Result-cases}
use yamazaki_incubator.Base.Text.{has_length}
use yamazaki_incubator.Base.Unique.{all_different}
use yamazaki_incubator.Numbers.{Float, Floats}
use yamazaki_incubator.Contracts.{
  Uuid, DetectionSignal, RootCause, is_code, in_unit, validate_cause,
}
use yamazaki_incubator.Detector.Signals.{signal_codes}
use yamazaki_incubator.Diagnosis.{Cause, causes_table, lookup, cause_of, causes_of}

abbrev pub has_cause : String → Bool
has_cause code = elim (cause_of code) [ ok _ ↦ true | raised _ ↦ false ]

abbrev is_fit : Cause → Bool
is_fit c = is_code c.code && has_length 1 2000 c.explanation

lookup-all :
    (test : Cause → Bool) (d : List (String × Cause)) (k : String) (c : Cause)
    → all (λ e. test e.1) d ≡ true
    → lookup d k ≡ ok c
    → test c ≡ true
unfolding lookup
lookup-all test [] k c h e = cc
lookup-all test ((j, v) ∷ d) k c h e = ground (arith, lookup-all test d k c)

causes_table-is_fit : all (λ e. is_fit e.1) causes_table ≡ true
unfolding is_code
causes_table-is_fit = refl

pub signal_codes-has_cause : all has_cause signal_codes ≡ true
unfolding cause_of
signal_codes-has_cause = refl

abbrev pub causes_codes : List RootCause → List String
causes_codes = map (λ c. c.code)

-- A cause for the signal is among those listed, or was seen before.
abbrev pub IsCovered : List String → List RootCause → DetectionSignal → Type 0
IsCovered seen causes s =
    (c : Cause) × (cause_of s.code ≡ ok c)
    × (contains seen c.code || contains (causes_codes causes) c.code ≡ true)

module _ (F : Floats) (referenced : List Uuid) (confidence : Float) where
  abbrev made : DetectionSignal → Cause → RootCause
  made signal cause = record {
    code = cause.code;
    explanation = cause.explanation;
    inference_kind = signal.inference_kind;
    evidence_ids = referenced;
    confidence = confidence;
  }

  validate_cause-ok :
      (signal : DetectionSignal) (cause : Cause)
      → cause_of signal.code ≡ ok cause
      → in_unit F confidence ≡ true
      → validate_cause F (made signal cause) ≡ ok (made signal cause)
  unfolding validate_cause cause_of
  validate_cause-ok signal cause found fits =
      ground (arith, lookup-all is_fit causes_table signal.code cause causes_table-is_fit found)

  -- What the loop yields, started with the codes `seen`: causes with different codes that are new,
  -- at most one for each signal, which cite what is referenced; and a cause for every signal.
  pub record CausesFit (seen : List String) (signals : List DetectionSignal)
      (causes : List RootCause) : Type 0 where
    pub different : all_different (causes_codes causes) ≡ true
    pub fresh : (k : String) → contains seen k ≡ true → contains (causes_codes causes) k ≡ false
    pub few : length causes ≤ length signals
    pub cited : All (λ c. c.evidence_ids ≡ referenced) causes
    pub covered : All (IsCovered seen causes) signals

  causes_of-old :
      (s : DetectionSignal) (signals : List DetectionSignal) (seen : List String) (cause : Cause)
      → cause_of s.code ≡ ok cause
      → contains seen cause.code ≡ true
      → causes_of F referenced confidence seen (s ∷ signals)
        ≡ causes_of F referenced confidence seen signals
  unfolding causes_of
  causes_of-old s signals seen cause e old = rw (e, old)

  causes_of-new :
      (s : DetectionSignal) (signals : List DetectionSignal) (seen : List String) (cause : Cause)
      → cause_of s.code ≡ ok cause
      → contains seen cause.code ≡ false
      → in_unit F confidence ≡ true
      → causes_of F referenced confidence seen (s ∷ signals) ≡ (do
        others ← causes_of F referenced confidence (cause.code ∷ seen) signals
        ok (made s cause ∷ others))
  unfolding causes_of
  causes_of-new s signals seen cause e new fits = rw (e, new, validate_cause-ok s cause e fits)

  CausesFit-nil : (seen : List String) → CausesFit seen [] []
  unfolding all_different
  CausesFit-nil seen = record {
    different = refl;
    fresh = λ k h. refl;
    few = omega arith;
    cited = tt;
    covered = tt;
  }

  CausesFit-old :
      (s : DetectionSignal) (signals : List DetectionSignal) (seen : List String) (cause : Cause)
      (causes : List RootCause)
      → cause_of s.code ≡ ok cause
      → contains seen cause.code ≡ true
      → CausesFit seen signals causes
      → CausesFit seen (s ∷ signals) causes
  CausesFit-old s signals seen cause causes e old fit = record {
    different = fit.different;
    fresh = fit.fresh;
    few = omega (arith, fit.few);
    cited = fit.cited;
    covered = ((cause, e, rw old), fit.covered);
  }

  IsCovered-new :
      (seen : List String) (causes : List RootCause) (root : RootCause) (s : DetectionSignal)
      → IsCovered (root.code ∷ seen) causes s
      → IsCovered seen (root ∷ causes) s
  IsCovered-new seen causes root s (c, e, h) = (c, e, ground arith)

  CausesFit-new :
      (s : DetectionSignal) (signals : List DetectionSignal) (seen : List String) (cause : Cause)
      (causes : List RootCause)
      → cause_of s.code ≡ ok cause
      → contains seen cause.code ≡ false
      → CausesFit (cause.code ∷ seen) signals causes
      → CausesFit seen (s ∷ signals) (made s cause ∷ causes)
  unfolding all_different
  CausesFit-new s signals seen cause causes e new fit = record {
    different = rw (fit.fresh cause.code (rw (==-refl cause.code))) fit.different;
    fresh = λ k h. ground (arith, fit.fresh k, eq_iff cause.code k);
    few = omega (arith, fit.few);
    cited = (refl, fit.cited);
    covered = (
      (cause, e, rw (==-refl cause.code) (ground arith)),
      All-map (IsCovered-new seen causes (made s cause)) signals fit.covered,
    );
  }

  pub causes_of-Returns :
      (signals : List DetectionSignal) (seen : List String)
      → in_unit F confidence ≡ true
      → all (λ s. has_cause s.code) signals ≡ true
      → (causes : List RootCause) × (causes_of F referenced confidence seen signals ≡ ok causes)
        × CausesFit seen signals causes
  unfolding causes_of
  causes_of-Returns [] seen fits known = ([], refl, CausesFit-nil seen)
  causes_of-Returns (s ∷ signals) seen fits known = elim (Result-cases (cause_of s.code)) [
    | inr (x, e) ↦ absurd (ground arith)
    | inl (cause, e) ↦ elim (Bool-cases (contains seen cause.code)) [
      | inl old ↦
          let (causes, r, fit) = causes_of-Returns signals seen fits (ground arith) in
          (
            causes,
            causes_of-old s signals seen cause e old ∙ r,
            CausesFit-old s signals seen cause causes e old fit,
          )
      | inr new ↦
          let (causes, r, fit) =
            causes_of-Returns signals (cause.code ∷ seen) fits (ground arith) in
          (
            made s cause ∷ causes,
            causes_of-new s signals seen cause e new fits ∙ rw r,
            CausesFit-new s signals seen cause causes e new fit,
          )
    ]
  ]
