-- ===== src/EvidenceStore/Kept.antt =====
-- `write` of src/yamazaki/evidence_store.py adds and never changes.
use yamazaki_incubator.Base.{
  ◌≡◌, refl, subst, ℕ, Option-cases, true, ◌⊎◌, inl, inr, none, some, ◌∷◌, String, ◌==◌, string_eq,
  Bool-cases,
}
use yamazaki_incubator.Base.Result.{Result, ok, raised}
use yamazaki_incubator.Json.{Json, Fields, Platform}
use yamazaki_incubator.Contracts.{Uuid}
use yamazaki_incubator.EvidenceStore.Locator.{is_file_name}
use yamazaki_incubator.EvidenceStore.{
  Entry, file, symlink, folder, Directory, Codec, owner_file, entry_of, locator_of, write, resolve,
  store_at, check_existing, create,
}

module _ (P : Platform) (J : Codec) where
  checked_here :
      (digest l content : String) (mode : ℕ) (v : Result Json) (s : Directory)
      → J.loads content ≡ v
      → (check_existing P J l digest (some (file mode content)) s).1 ≡ s
  unfolding check_existing
  checked_here digest l content mode (raised e) s h = rw h
  checked_here digest l content mode (ok v) s h = elim (Bool-cases (P.content_digest v == digest)) [
    | inl k ↦ rw (h, k)
    | inr k ↦ rw (h, k)
  ]

  write-kept :
      (id : Uuid) (p : Fields) (s : Directory) (entry : Entry)
      → is_file_name (locator_of P id) ≡ true
      → entry_of (locator_of P id) s ≡ some entry
      → (write P J id p s).1 ≡ s
  unfolding write resolve store_at
  write-kept id p s symlink named e = rw (named, e)
  write-kept id p s folder named e = rw (named, e)
  write-kept id p s (file mode content) named e =
      rw (named, e) (checked_here _ (locator_of P id) content mode (J.loads content) s refl)

  write_cases :
      (id : Uuid) (p : Fields) (s : Directory)
      → ((write P J id p s).1 ≡ s)
        ⊎ ((e : Entry) × (entry_of (locator_of P id) s ≡ none)
            × ((write P J id p s).1 ≡ (locator_of P id, e) ∷ s))
  unfolding write resolve store_at create
  write_cases id p s = elim (Bool-cases (is_file_name (locator_of P id))) [
    | inr h ↦ inl (rw h)
    | inl named ↦ elim (Option-cases (entry_of (locator_of P id) s)) [
      | inl e ↦ inr (file owner_file (J.dumps p), e, rw (named, e))
      | inr (entry, e) ↦ inl (write-kept id p s entry named e)
    ]
  ]

  -- Every entry of the directory, whatever its name and kind, is the same entry after any call of
  -- `write`, also where the call raises.
  pub entry_of-write :
      (id : Uuid) (p : Fields) (s : Directory) (name : String) (entry : Entry)
      → entry_of name s ≡ some entry
      → entry_of name (write P J id p s).1 ≡ some entry
  unfolding entry_of
  entry_of-write id p s name entry h = elim (write_cases id p s) [
    | inl e ↦ rw e h
    | inr (made, absent, e) ↦ elim (Bool-cases (locator_of P id == name)) [
      | inl same ↦
          let there =
            subst (λ n. entry_of n s ≡ none) ((string_eq.same_iff _ name).0 same) absent in
          cc
      | inr other ↦ rw (e, other) h
    ]
  ]
