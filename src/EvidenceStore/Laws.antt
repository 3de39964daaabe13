-- ===== src/EvidenceStore/Laws.antt =====
-- src/yamazaki/evidence_store.py implements the register, and what follows for its clients.
use yamazaki_incubator.Base.{
  ◌≡◌, refl, sym, ap, ◌∙◌, Option-cases, ==-refl, true, inl, inr, none, some, List, [], ◌∷◌, String,
  ◌==◌, string_eq, Bool-cases,
}
use yamazaki_incubator.Base.Result.{Result, ok, ok-injective}
use yamazaki_incubator.Json.{Fields, object, Platform}
use yamazaki_incubator.Contracts.{Uuid}
use yamazaki_incubator.EvidenceStore.Locator.{is_file_name}
use yamazaki_incubator.EvidenceStore.Register.{
  Register, digest_at, write_once, StoreLaws, Stands, Represents, both_empty, both_have, Found-same,
}
use yamazaki_incubator.EvidenceStore.{
  Entry, Directory, Codec, entry_of, locator_of, write, read, resolve, store_at, check_existing,
  create,
}

module _ (P : Platform) (J : Codec) where
  -- The two outcomes are the same, and the two states stand for each other.
  abbrev pub Matches :
      Result (String × String) × Directory → Result (String × String) × Register → Type 0
  Matches done promised = (done.0 ≡ promised.0) × Represents P J done.1 promised.1

  -- The outcomes of a list of calls of `write`, and those of the register.
  abbrev pub run : List (Uuid × Fields) → Directory → List (Result (String × String))
  run [] s = []
  run ((id, p) ∷ calls) s = let (outcome, after) = write P J id p s in outcome ∷ run calls after

  abbrev pub run_register : List (Uuid × Fields) → Register → List (Result (String × String))
  run_register [] r = []
  run_register ((id, p) ∷ calls) r =
      let (outcome, after) = write_once (locator_of P id) (P.content_digest (object p)) r in
      outcome ∷ run_register calls after

  module _ (laws : StoreLaws P J) where
    create-Matches :
        (id : Uuid) (p : Fields) {s : Directory} {r : Register}
        → Represents P J s r
        → entry_of (locator_of P id) s ≡ none
        → digest_at (locator_of P id) r ≡ none
        → Matches (write P J id p s) (write_once (locator_of P id) (P.content_digest (object p)) r)
    unfolding write write_once resolve store_at create
    create-Matches id p represents e d =
        let (q, loads, digests) = laws.loaded p in
        (
          rw (laws.named id, e, d),
          rw (laws.named id, e, d)
              (both_have _ _ _
                (record {
                  content = J.dumps p;
                  is_owned = refl;
                  fields = q;
                  loads = loads;
                  digests = digests;
                })
                represents),
        )

    settle-Matches :
        (id : Uuid) (p : Fields) {s : Directory} {r : Register} (entry : Entry) (digest : String)
        → Represents P J s r
        → entry_of (locator_of P id) s ≡ some entry
        → digest_at (locator_of P id) r ≡ some digest
        → Stands P J entry digest
        → Matches (write P J id p s) (write_once (locator_of P id) (P.content_digest (object p)) r)
    unfolding write write_once resolve store_at check_existing
    settle-Matches id p entry digest represents e d stands =
        elim (Bool-cases (digest == P.content_digest (object p))) [
          | inl h ↦ (
            rw (laws.named id, e, d, stands.is_owned, stands.loads, stands.digests, h),
            rw (laws.named id, e, d, stands.is_owned, stands.loads, stands.digests, h) represents,
          )
          | inr h ↦ (
            rw (laws.named id, e, d, stands.is_owned, stands.loads, stands.digests, h),
            rw (laws.named id, e, d, stands.is_owned, stands.loads, stands.digests, h) represents,
          )
        ]

    write-Matches :
        (id : Uuid) (p : Fields) {s : Directory} {r : Register}
        → Represents P J s r
        → Matches (write P J id p s) (write_once (locator_of P id) (P.content_digest (object p)) r)
    write-Matches id p represents = elim (Found-same P J (locator_of P id) represents) [
      | inl (e, d) ↦ create-Matches id p represents e d
      | inr (entry, digest, e, d, stands) ↦ settle-Matches id p entry digest represents e d stands
    ]

    run_same :
        (calls : List (Uuid × Fields)) (s : Directory) (r : Register)
        → Represents P J s r
        → run calls s ≡ run_register calls r
    run_same [] s r represents = refl
    run_same ((id, p) ∷ calls) s r represents =
        let (same, after) = write-Matches id p represents in rw (same, run_same calls _ _ after)

    -- With a codec that loads what it dumps, up to the digest, and UUID texts that make file
    -- names: the outcomes of any list of calls of `write` on an empty store are those of a
    -- register that keeps one digest for each name, returns it again for the same digest and
    -- raises `ValueError` for another.
    pub run-refines : (calls : List (Uuid × Fields)) → run calls [] ≡ run_register calls []
    run-refines calls = run_same calls [] [] both_empty

    read-Stands :
        (locator : String) (s : Directory) (entry : Entry) (digest : String)
        → is_file_name locator ≡ true
        → entry_of locator s ≡ some entry
        → Stands P J entry digest
        → (q : Fields) × (read P J locator s ≡ (ok q, s)) × (P.content_digest (object q) ≡ digest)
    unfolding read resolve
    read-Stands locator s entry digest named e stands =
        (stands.fields, rw (named, e, stands.is_owned, stands.loads), stands.digests)

    write_once-kept :
        (name digest l d : String) (r : Register)
        → (write_once name digest r).0 ≡ ok (l, d)
        → (l ≡ name) × (d ≡ digest) × (digest_at name (write_once name digest r).1 ≡ some digest)
    unfolding write_once digest_at
    write_once-kept name digest l d r h = elim (Option-cases (digest_at name r)) [
      | inl none_there ↦
          let same = ok-injective (rw none_there at h) in
          (sym (ap (λ x. x.0) same), sym (ap (λ x. x.1) same), rw (none_there, ==-refl name))
      | inr (old, there) ↦ elim (Bool-cases (old == digest)) [
        | inl agree ↦
            let same = ok-injective (rw (there, agree) at h) in
            (
              sym (ap (λ x. x.0) same),
              sym (ap (λ x. x.1) same),
              rw (there, agree) (there ∙ ap some ((string_eq.same_iff old digest).0 agree)),
            )
        | inr differ ↦ cc (rw (there, differ) at h)
      ]
    ]

    -- With such a codec, in a directory that stands for a register: what `write` returns is a
    -- locator and the digest of the payload, and `read` of that locator then returns a dict of
    -- that digest and changes nothing.
    pub write-read :
        (id : Uuid) (p : Fields) (s : Directory) (r : Register) (l d : String)
        → Represents P J s r
        → (write P J id p s).0 ≡ ok (l, d)
        → (q : Fields) × (read P J l (write P J id p s).1 ≡ (ok q, (write P J id p s).1))
          × (P.content_digest (object q) ≡ d)
          × (d ≡ P.content_digest (object p))
    write-read id p s r l d represents h =
        let name = locator_of P id in
        let digest = P.content_digest (object p) in
        let (same, after) = write-Matches id p represents in
        let (el, ed, kept) = write_once-kept name digest l d r (sym same ∙ h) in
        elim (Found-same P J name after) [
          | inl (_, none_there) ↦ cc
          | inr (entry, there, e, e', stands) ↦
              let (q, reads, digests) =
                read-Stands name (write P J id p s).1 entry there (laws.named id) e stands in
              (q, rw el reads, digests ∙ cc, ed)
        ]
