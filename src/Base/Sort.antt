-- ===== src/Base/Sort.antt =====
-- Python's `sorted` by a Boolean order: a stable sort, here by insertion. Over the natural numbers
-- it gives the one ascending list with the given values.
use mathlib.Core.List.{Perm, Permᴰ}
use mathlib.Core.Logic.{∥∥₁_elim}
use yamazaki_incubator.Base.{
  ℕ, zero, suc, ◌≤◌, ◌<◌, ◌≡◌, refl, ap, ◌∙◌, Bool, List, [], ◌∷◌, arith, leb, ltb, length, keep,
  All, get_or, if◌then◌else◌,
}

module _ {ℓ} {A : Type ℓ} (le : A → A → Bool) where
  unfoldable pub insert : A → List A → List A
  insert a [] = a ∷ []
  insert a (x ∷ xs) = let rest = insert a xs in if le a x then a ∷ x ∷ xs else x ∷ rest

  unfoldable pub sorted : List A → List A
  unfolding insert
  sorted [] = []
  sorted (x ∷ xs) = insert x (sorted xs)

  -- Inserting puts one value more in, under every test.
  count-insert :
      (test : A → Bool) (a : A) (xs : List A)
      → length (keep test (insert a xs)) ≡ length (keep test (a ∷ xs))
  unfolding insert
  count-insert test a [] = refl
  count-insert test a (x ∷ xs) = ground (arith, count-insert test a xs)

  pub count-sorted :
      (test : A → Bool) (xs : List A) → length (keep test (sorted xs)) ≡ length (keep test xs)
  unfolding sorted
  count-sorted test [] = refl
  count-sorted test (x ∷ xs) = ground (arith, count-insert test x (sorted xs), count-sorted test xs)

  length-insert : (a : A) (xs : List A) → length (insert a xs) ≡ suc (length xs)
  unfolding insert
  length-insert a [] = refl
  length-insert a (x ∷ xs) = ground (arith, length-insert a xs)

  pub length-sorted : (xs : List A) → length (sorted xs) ≡ length xs
  unfolding sorted
  length-sorted [] = refl
  length-sorted (x ∷ xs) = length-insert x (sorted xs) ∙ ap suc (length-sorted xs)

insert-insert :
    (a b : ℕ) (xs : List ℕ) → insert leb a (insert leb b xs) ≡ insert leb b (insert leb a xs)
unfolding insert
insert-insert a b [] = ground arith
insert-insert a b (x ∷ xs) = ground (arith, insert-insert a b xs)

sorted-permᴰ : {xs ys : List ℕ} → Permᴰ xs ys → sorted leb xs ≡ sorted leb ys
unfolding sorted
sorted-permᴰ Permᴰ.nil = refl
sorted-permᴰ (Permᴰ.cons e p) = cc (e, sorted-permᴰ p)
sorted-permᴰ (Permᴰ.swap {a = a} {b = b} {l = l} e f) = cc (e, f, insert-insert a b (sorted leb l))
sorted-permᴰ (Permᴰ.trans p q) = sorted-permᴰ p ∙ sorted-permᴰ q

list-set : IsSet (List ℕ)
list-set = hlevel

-- The order of the input does not matter.
pub sorted-perm : {xs ys : List ℕ} → Perm xs ys → sorted leb xs ≡ sorted leb ys
sorted-perm {xs} {ys} p = ∥∥₁_elim p (list-set (sorted leb xs) (sorted leb ys)) sorted-permᴰ

abbrev pub IsSorted : List ℕ → Type 0
IsSorted [] = Unit
IsSorted (x ∷ xs) = All (λ y. x ≤ y) xs × IsSorted xs

All-insert :
    (n a : ℕ) (xs : List ℕ) → n ≤ a → All (λ y. n ≤ y) xs → All (λ y. n ≤ y) (insert leb a xs)
unfolding insert
All-insert n a [] p h = (p, tt)
All-insert n a (x ∷ xs) p h = ground (arith, All-insert n a xs p h.1)

All-le_trans : (a n : ℕ) (xs : List ℕ) → a ≤ n → All (λ y. n ≤ y) xs → All (λ y. a ≤ y) xs
All-le_trans a n [] p h = tt
All-le_trans a n (x ∷ xs) p h = (omega arith, All-le_trans a n xs p h.1)

insert-IsSorted : (a : ℕ) (xs : List ℕ) → IsSorted xs → IsSorted (insert leb a xs)
unfolding insert
insert-IsSorted a [] h = (tt, tt)
insert-IsSorted a (x ∷ xs) h =
    ground (arith, insert-IsSorted a xs h.1, All-insert x a xs, All-le_trans a x xs)

pub sorted-IsSorted : (xs : List ℕ) → IsSorted (sorted leb xs)
unfolding sorted
sorted-IsSorted [] = tt
sorted-IsSorted (x ∷ xs) = insert-IsSorted x (sorted leb xs) (sorted-IsSorted xs)

-- At a place of an ascending list: as many values as its rank asks lie at or below it, and no more
-- than come before it lie strictly below it.
abbrev pub count_le : ℕ → List ℕ → ℕ
count_le v xs = length (keep (λ x. leb x v) xs)

abbrev pub count_lt : ℕ → List ℕ → ℕ
count_lt v xs = length (keep (λ x. ltb x v) xs)

none_below : (v : ℕ) (xs : List ℕ) → All (λ y. v ≤ y) xs → count_lt v xs ≡ 0
none_below v [] h = refl
none_below v (x ∷ xs) h = ground (arith, none_below v xs h.1)

get_or-ge : (n d i : ℕ) (xs : List ℕ) → All (λ y. n ≤ y) xs → i < length xs → n ≤ get_or xs i d
get_or-ge n d i [] h lt = absurd (omega arith)
get_or-ge n d zero (x ∷ xs) h lt = h.0
get_or-ge n d (suc i) (x ∷ xs) h lt = get_or-ge n d i xs h.1 (omega arith)

pub count_le-get_or :
    (d i : ℕ) (xs : List ℕ) → IsSorted xs → i < length xs → suc i ≤ count_le (get_or xs i d) xs
count_le-get_or d i [] h lt = absurd (omega arith)
count_le-get_or d zero (x ∷ xs) h lt = ground arith
count_le-get_or d (suc i) (x ∷ xs) h lt =
    ground (arith, count_le-get_or d i xs h.1, get_or-ge x d i xs h.0)

pub count_lt-get_or :
    (d i : ℕ) (xs : List ℕ) → IsSorted xs → i < length xs → count_lt (get_or xs i d) xs ≤ i
count_lt-get_or d i [] h lt = absurd (omega arith)
count_lt-get_or d zero (x ∷ xs) h lt = ground (arith, none_below x xs h.0)
count_lt-get_or d (suc i) (x ∷ xs) h lt = ground (arith, count_lt-get_or d i xs h.1)
