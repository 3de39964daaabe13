-- ===== src/EvidenceStore/Locator.antt =====
-- The test of a locator in `_resolve` of src/yamazaki/evidence_store.py, on `pathlib`'s reading of a
-- POSIX path: the parts are what stands between the slashes, without the empty ones and the dots.
use Prim.Native.Char.{Char, code}
use yamazaki_incubator.Base.{
  ◌≡◌, ◌≢◌, ◌↔◌, refl, Bool, true, false, not, ◌||◌, List, [], ◌∷◌, String, All, keep, length,
  arith, nat_beq, ◌==◌, if◌then◌else◌, string_eq, Bool-cases, inl, inr, subst, ==-refl, All-keep,
  nat_beq_iff,
}

abbrev is_slash : Char → Bool
is_slash c = nat_beq (code c) b'/'

abbrev pub has_slash : String → Bool
has_slash String.[] = false
has_slash (String.◌∷◌ c s) = is_slash c || has_slash s

-- `Path(s).is_absolute()`
abbrev is_absolute : String → Bool
is_absolute String.[] = false
is_absolute (String.◌∷◌ c s) = is_slash c

onto_first : Char → List String → List String
onto_first c [] = String.◌∷◌ c String.[] ∷ []
onto_first c (part ∷ rest) = String.◌∷◌ c part ∷ rest

split_slash : String → List String
unfolding onto_first
split_slash String.[] = String.[] ∷ []
split_slash (String.◌∷◌ c s) =
    let rest = split_slash s in if is_slash c then String.[] ∷ rest else onto_first c rest

abbrev is_part : String → Bool
is_part part = not (part == "" || part == ".")

-- `Path(s).parts` of a relative path
unfoldable pub parts : String → List String
unfolding split_slash
parts s = keep is_part (split_slash s)

last_or_empty : List String → String
last_or_empty [] = ""
last_or_empty (part ∷ []) = part
last_or_empty (part ∷ next ∷ rest) = last_or_empty (next ∷ rest)

-- `Path(s).name` of a relative path
unfoldable pub name : String → String
unfolding last_or_empty
name s = last_or_empty (parts s)

-- The locator is one relative file name.
unfoldable pub is_file_name : (locator : String) → Bool
is_file_name locator = not (
    is_absolute locator
    || not (nat_beq (length (parts locator)) 1)
    || not (name locator == locator))

onto_first-plain :
    (c : Char) (ps : List String)
    → is_slash c ≡ false
    → All (λ p. has_slash p ≡ false) ps
    → All (λ p. has_slash p ≡ false) (onto_first c ps)
unfolding onto_first
onto_first-plain c [] h k = (rw h, tt)
onto_first-plain c (p ∷ ps) h k = (rw (h, k.0), k.1)

split_slash-plain : (s : String) → All (λ p. has_slash p ≡ false) (split_slash s)
unfolding split_slash
split_slash-plain String.[] = (refl, tt)
split_slash-plain (String.◌∷◌ c s) = elim (Bool-cases (is_slash c)) [
  | inl h ↦ rw h (refl, split_slash-plain s)
  | inr h ↦ rw h (onto_first-plain c (split_slash s) h (split_slash-plain s))
]

-- A text without slashes is its own only part.
split_slash-whole : (s : String) → has_slash s ≡ false → split_slash s ≡ s ∷ []
unfolding split_slash onto_first
split_slash-whole String.[] h = refl
split_slash-whole (String.◌∷◌ c s) h = elim (Bool-cases (is_slash c)) [
  | inl k ↦ cc
  | inr k ↦ rw (k, split_slash-whole s (rw k at h))
]

All-kept :
    (P : String → Type 0) (f : String → Bool) (ps : List String) → All P ps → All P (keep f ps)
All-kept P f [] h = tt
All-kept P f (p ∷ ps) h = elim (Bool-cases (f p)) [
  | inl k ↦ rw k (h.0, All-kept P f ps h.1)
  | inr k ↦ rw k (All-kept P f ps h.1)
]

only_part : (ps : List String) (s : String) → length ps ≡ 1 → last_or_empty ps ≡ s → ps ≡ s ∷ []
unfolding last_or_empty
only_part [] s h e = cc
only_part (p ∷ []) s h e = rw e
only_part (p ∷ q ∷ ps) s h e = cc

-- Not empty and not a dot.
part-named : (s : String) → is_part s ≡ true → (s ≢ "") × (s ≢ ".")
part-named s h =
    (λ e. cc (subst (λ x. is_part x ≡ true) e h), λ e. cc (subst (λ x. is_part x ≡ true) e h))

named-part : (s : String) → s ≢ "" → s ≢ "." → is_part s ≡ true
named-part s h k = ground (arith, h, k, string_eq.same_iff s "", string_eq.same_iff s ".")

absolute-has_slash : (s : String) → has_slash s ≡ false → is_absolute s ≡ false
absolute-has_slash String.[] h = refl
absolute-has_slash (String.◌∷◌ c s) h = ground arith

three_tests :
    (a b c : Bool) → not (a || not b || not c) ≡ true → (a ≡ false) × (b ≡ true) × (c ≡ true)
three_tests false true true h = (refl, refl, refl)
three_tests false true false h = cc
three_tests false false c h = cc
three_tests true b c h = cc

-- A locator passes the test of `_resolve` exactly if it contains no slash, is not empty and is
-- not a single dot.
pub is_file_name_iff :
    (locator : String)
    → (is_file_name locator ≡ true)
      ↔ ((has_slash locator ≡ false) × (locator ≢ "") × (locator ≢ "."))
unfolding is_file_name parts name
is_file_name_iff s = (
  λ h.
      let (_, one, whole) = three_tests (is_absolute s) _ _ h in
      let only =
        only_part (parts s) s ((nat_beq_iff _ 1).0 one) ((string_eq.same_iff _ s).0 whole) in
      let plain =
        subst (All (λ p. has_slash p ≡ false)) only
          (All-kept (λ p. has_slash p ≡ false) is_part (split_slash s) (split_slash-plain s)) in
      let (filled, undotted) =
        part-named s
          (subst (All (λ p. is_part p ≡ true)) only (All-keep is_part (split_slash s))).0 in
      (plain.0, filled, undotted),
  λ h.
      let (plain, filled, undotted) = h in
      rw (
        absolute-has_slash s plain,
        split_slash-whole s plain,
        named-part s filled undotted,
        ==-refl s,
      ),
)
