-- ===== src/EvidenceStore/Register.antt =====
-- What src/yamazaki/evidence_store.py promises: a register in which each name is written once. It
-- keeps the digest of what was written and forgets the text.
use yamazaki_incubator.Base.{
  ◌≡◌, refl, true, ◌⊎◌, inl, inr, Option, none, some, List, [], ◌∷◌, String, ◌==◌, string_eq,
  Bool-cases, if◌then◌else◌,
}
use yamazaki_incubator.Base.Result.{ok, raised}
use yamazaki_incubator.Base.Exec.{Exec}
use yamazaki_incubator.Json.{Fields, object, Platform}
use yamazaki_incubator.Contracts.{Uuid}
use yamazaki_incubator.EvidenceStore.Locator.{is_file_name}
use yamazaki_incubator.EvidenceStore.{
  Entry, file, Directory, Codec, owner_file, entry_of, locator_of,
}

abbrev pub Register : Type 0
Register = List (String × String)

unfoldable pub digest_at : (name : String) → Register → Option String
digest_at name [] = none
digest_at name ((n, digest) ∷ rest) = if n == name then some digest else digest_at name rest

-- A name that is there keeps its digest.
abbrev settled : (name digest : String) → Option String → Exec Register (String × String)
settled name digest none r = (ok (name, digest), (name, digest) ∷ r)
settled name digest (some old) r =
    if old == digest then (ok (name, digest), r) else (raised "ValueError", r)

unfoldable pub write_once : (name digest : String) → Exec Register (String × String)
write_once name digest r = settled name digest (digest_at name r) r

-- What is relied on: a dumped dict is loaded as a dict of the same digest, and the text of a UUID
-- and ".json" make a file name.
pub record StoreLaws (P : Platform) (J : Codec) : Type 0 where
  pub loaded :
      (p : Fields)
      → (q : Fields) × (J.loads (J.dumps p) ≡ ok (object q))
        × (P.content_digest (object q) ≡ P.content_digest (object p))
  pub named : (id : Uuid) → is_file_name (locator_of P id) ≡ true

module _ (P : Platform) (J : Codec) where
  -- The entry is a file of the owner's, with a dict of the digest.
  pub record Stands (entry : Entry) (digest : String) : Type 0 where
    pub content : String
    pub is_owned : entry ≡ file owner_file content
    pub fields : Fields
    pub loads : J.loads content ≡ ok (object fields)
    pub digests : P.content_digest (object fields) ≡ digest

  pub data Represents : Directory → Register → Type 0 where
    both_empty : Represents [] []
    both_have :
        (name digest : String) (entry : Entry) {s : Directory} {r : Register}
        → Stands entry digest
        → Represents s r
        → Represents ((name, entry) ∷ s) ((name, digest) ∷ r)

  abbrev pub Found : Option Entry → Option String → Type 0
  Found entry digest =
      ((entry ≡ none) × (digest ≡ none))
      ⊎ ((e : Entry) × (d : String) × (entry ≡ some e) × (digest ≡ some d) × Stands e d)

  pub Found-same :
      (name : String) {s : Directory} {r : Register}
      → Represents s r
      → Found (entry_of name s) (digest_at name r)
  unfolding entry_of digest_at
  Found-same name both_empty = inl (refl, refl)
  Found-same name (both_have n d e stands rest) = elim (Bool-cases (n == name)) [
    | inl h ↦ inr (e, d, rw h, rw h, stands)
    | inr h ↦ rw h (Found-same name rest)
  ]
