-- ===== src/Base/Unique.antt =====
-- `tuple(dict.fromkeys(xs))`: each value once, at its first place; and `len(set(xs)) == len(xs)`.
use yamazaki_incubator.Base.{
  ◌≡◌, refl, Bool, true, false, ◌&&◌, not, List, [], ◌∷◌, arith, Eq, ◌==◌, contains, if◌then◌else◌,
}

module _ {ℓ} {A : Type ℓ} ⦃e : Eq A⦄ where
  unfoldable pub discard : A → List A → List A
  discard a [] = []
  discard a (x ∷ xs) = let rest = discard a xs in if x == a then rest else x ∷ rest

  unfoldable pub from_keys : List A → List A
  unfolding discard
  from_keys [] = []
  from_keys (x ∷ xs) = x ∷ discard x (from_keys xs)

  -- `len(set(xs)) == len(xs)`
  unfoldable pub all_different : List A → Bool
  all_different [] = true
  all_different (x ∷ xs) = not (contains xs x) && all_different xs

  pub contains-discard :
      (a b : A) (xs : List A)
      → contains (discard a xs) b ≡ (if a == b then false else contains xs b)
  unfolding discard
  contains-discard a b [] = ground arith
  contains-discard a b (x ∷ xs) =
      ground (arith, contains-discard a b xs, e.same_iff x a, e.same_iff x b, e.same_iff a b)

  -- `from_keys` keeps every member.
  pub contains-from_keys : (b : A) (xs : List A) → contains (from_keys xs) b ≡ contains xs b
  unfolding from_keys
  contains-from_keys b [] = refl
  contains-from_keys b (x ∷ xs) =
      ground (arith, contains-discard x b (from_keys xs), contains-from_keys b xs)

  all_different-discard :
      (a : A) (xs : List A) → all_different xs ≡ true → all_different (discard a xs) ≡ true
  unfolding all_different discard
  all_different-discard a [] h = refl
  all_different-discard a (x ∷ xs) h =
      ground (arith, all_different-discard a xs, contains-discard a x xs)

  pub all_different-from_keys : (xs : List A) → all_different (from_keys xs) ≡ true
  unfolding all_different from_keys
  all_different-from_keys [] = refl
  all_different-from_keys (x ∷ xs) = ground (
    arith,
    all_different-from_keys xs,
    all_different-discard x (from_keys xs),
    contains-discard x x (from_keys xs),
    e.same_iff x x,
  )

  discard-absent : (a : A) (xs : List A) → contains xs a ≡ false → discard a xs ≡ xs
  unfolding discard
  discard-absent a [] h = refl
  discard-absent a (x ∷ xs) h = ground (arith, discard-absent a xs)

  -- On a list with no repetition `from_keys` changes nothing.
  pub from_keys-all_different : (xs : List A) → all_different xs ≡ true → from_keys xs ≡ xs
  unfolding all_different from_keys
  from_keys-all_different [] h = refl
  from_keys-all_different (x ∷ xs) h =
      ground (arith, from_keys-all_different xs, discard-absent x xs)
