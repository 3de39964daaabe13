-- ===== src/Contracts/Evidence.antt =====
-- `EvidenceRef` and `EvidenceBundle` of src/yamazaki/contracts.py, and `unique_evidence_ids` of
-- src/yamazaki/ports.py.
use yamazaki_incubator.Base.{
  Bool, ◌&&◌, ◌||◌, Option, List, String, map, leb, nat_beq, length, all, nat_eq,
}
use yamazaki_incubator.Base.Result.{Result, ok, ◌>>◌, require}
use yamazaki_incubator.Base.Int.{ℤ}
use yamazaki_incubator.Base.Text.{codes, has_length, is_digit}
use yamazaki_incubator.Base.Unique.{from_keys, all_different}
use yamazaki_incubator.Numbers.{Float}
use yamazaki_incubator.Contracts.Kinds.{Uuid, EngineKind, Sensitivity, RedactionStatus}
use yamazaki_incubator.Contracts.Time.{DateTime}
use yamazaki_incubator.Contracts.Query.{at_most}

-- `int | float | str | bool | None`
pub data Fact : Type 0 where
  int_fact : ℤ → Fact
  float_fact : Float → Fact
  text_fact : String → Fact
  bool_fact : Bool → Fact
  no_fact : Fact

abbrev pub Facts : Type 0
Facts = List (String × Fact)

pub record EvidenceRef : Type 0 where
  pub evidence_id : Uuid
  pub query_run_id : Uuid
  pub source_kind : String
  pub engine : EngineKind
  pub collected_at : DateTime
  pub summary : String
  pub facts : Facts
  pub content_hash : String
  pub sensitivity : Sensitivity
  pub storage_locator : Option String
  pub redaction_status : RedactionStatus

-- `^[0-9a-f]{64}$`
unfoldable pub is_content_hash : String → Bool
is_content_hash s =
    nat_beq (length (codes s)) 64 && all (λ c. is_digit c || leb b'a' c && leb c b'f') (codes s)

unfoldable pub validate_evidence : EvidenceRef → Result EvidenceRef
unfolding is_content_hash
validate_evidence e = do
  require (has_length 1 128 e.source_kind) "ValidationError"
  require (has_length 1 500 e.summary) "ValidationError"
  require (is_content_hash e.content_hash) "ValidationError"
  require (at_most 256 e.storage_locator) "ValidationError"
  ok e

pub record EvidenceBundle : Type 0 where
  pub items : List EvidenceRef

-- `[item.evidence_id for item in items]`
abbrev pub ids_of : List EvidenceRef → List Uuid
ids_of = map (λ e. e.evidence_id)

-- `EvidenceBundle(items=items)` with `_validate_items`
unfoldable pub bundle_of : List EvidenceRef → Result EvidenceBundle
unfolding all_different
bundle_of items = do
  require (leb (length items) 12) "ValidationError"
  require (all_different (ids_of items)) "ValidationError"
  ok (record { items = items })

-- `tuple(dict.fromkeys(item.evidence_id for item in items))`
unfoldable pub unique_evidence_ids : List EvidenceRef → List Uuid
unfolding from_keys
unique_evidence_ids items = from_keys (ids_of items)
