-- ===== src/Json.antt =====
-- JSON values, as `json.dumps` and `json.loads` exchange them, and what the program computes from
-- them with code that it does not contain: SHA-256, UUID version 5, and the texts of `datetime` and
-- `UUID` values. Nothing that is proved depends on what those functions return, but for the laws
-- that a theorem names.
use yamazaki_incubator.Base.{Bool, true, false, String, [], ◌∷◌, ◌≡◌}
use yamazaki_incubator.Base.Int.{ℤ}
use yamazaki_incubator.Numbers.{Float}
use yamazaki_incubator.Contracts.{
  Uuid, DateTime, Fact, int_fact, float_fact, text_fact, bool_fact, no_fact, Facts, EvidenceBundle,
  is_content_hash,
}

mutual
  pub data Json : Type 0 where
    null : Json
    bool : Bool → Json
    int : ℤ → Json
    float : Float → Json
    text : String → Json
    array : Items → Json
    object : Fields → Json

  pub data Items : Type 0 where
    end : Items
    item : Json → Items → Items

  -- A dict with text keys, in insertion order.
  pub data Fields : Type 0 where
    done : Fields
    field : String → Json → Fields → Fields

abbrev pub fact_json : Fact → Json
fact_json (int_fact n) = int n
fact_json (float_fact x) = float x
fact_json (text_fact s) = text s
fact_json (bool_fact b) = bool b
fact_json no_fact = null

unfoldable pub facts_json : Facts → Fields
facts_json [] = done
facts_json ((k, v) ∷ rest) = field k (fact_json v) (facts_json rest)

-- `not payload` of a dict
abbrev pub is_empty_dict : Fields → Bool
is_empty_dict done = true
is_empty_dict (field _ _ _) = false

pub record Platform : Type 0 where
  -- `content_digest` on a JSON value: SHA-256 of its sorted dump, in hexadecimal
  pub content_digest : Json → String
  -- `EvidenceBundle.digest`: SHA-256 of the model's JSON
  pub bundle_digest : EvidenceBundle → String
  -- `uuid5` in the program's namespace
  pub uuid5 : String → Uuid
  -- `str(uuid)` and `datetime.isoformat`
  pub uuid_text : Uuid → String
  pub isoformat : DateTime → String

-- A SHA-256 digest prints as 64 hexadecimal digits.
pub record DigestLaws (P : Platform) : Type 0 where
  pub content_hex : (v : Json) → is_content_hash (P.content_digest v) ≡ true
  pub bundle_hex : (b : EvidenceBundle) → is_content_hash (P.bundle_digest b) ≡ true
