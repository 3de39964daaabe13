-- ===== src/Base/Text.antt =====
-- Texts: Python's `len`, `s[:n]`, `str(n)` and the patterns of the contract fields, which are
-- walks over the characters. Elsewhere a text is only compared.
use Prim.Native.Char.{code}
use Prim.Native.String
use yamazaki_incubator.Base.{
  ℕ, zero, suc, ◌/◌, ◌%◌, ◌≤◌, String, Bool, true, false, ltb, ◌&&◌, ◌||◌, List, [], ◌∷◌, ◌++◌,
  arith, leb, nat_beq, length, all, ◌≡◌, ap, nat_beq_iff, refl, if◌then◌else◌,
}

abbrev pub codes : String → List ℕ
codes String.[] = []
codes (String.◌∷◌ c s) = code c ∷ codes s

-- `len(s)`
abbrev pub text_length : String → ℕ
text_length s = length (codes s)

-- `s[:n]`
unfoldable pub truncate : ℕ → String → String
truncate zero s = String.[]
truncate (suc n) String.[] = String.[]
truncate (suc n) (String.◌∷◌ c s) = String.◌∷◌ c (truncate n s)

pub text_length-truncate-le : (n : ℕ) (s : String) → text_length (truncate n s) ≤ n
unfolding truncate
text_length-truncate-le zero s = omega arith
text_length-truncate-le (suc n) String.[] = omega arith
text_length-truncate-le (suc n) (String.◌∷◌ c s) = omega (arith, text_length-truncate-le n s)

-- The parts of an f-string, joined.
unfoldable pub join : List String → String
join [] = ""
join (s ∷ rest) = String.◌++◌ s (join rest)

-- `separator.join(parts)`
unfoldable pub separated : (separator : String) → List String → String
separated separator [] = ""
separated separator (s ∷ []) = s
separated separator (s ∷ t ∷ rest) =
    String.◌++◌ s (String.◌++◌ separator (separated separator (t ∷ rest)))

pub codes-append : (s t : String) → codes (String.◌++◌ s t) ≡ codes s ++ codes t
codes-append String.[] t = ap codes (String.append.nil t)
codes-append (String.◌∷◌ c s) t = rw (String.append.cons c s t, codes-append s t)

nat_beq_refl : (n : ℕ) → nat_beq n n ≡ true
nat_beq_refl n = (nat_beq_iff n n).1 refl

-- `s.startswith(prefix)` and `s <= t`, on characters
abbrev pub starts_with : (s prefix : List ℕ) → Bool
starts_with s [] = true
starts_with [] (p ∷ prefix) = false
starts_with (c ∷ s) (p ∷ prefix) = nat_beq c p && starts_with s prefix

pub starts_with-append : (s t : String) → starts_with (codes (String.◌++◌ s t)) (codes s) ≡ true
starts_with-append String.[] t = refl
starts_with-append (String.◌∷◌ c s) t =
    rw (String.append.cons c s t, starts_with-append s t, nat_beq_refl (code c))

abbrev pub codes_le : List ℕ → List ℕ → Bool
codes_le [] t = true
codes_le (c ∷ s) [] = false
codes_le (c ∷ s) (d ∷ t) = ltb c d || (nat_beq c d && codes_le s t)

digit : ℕ → String
digit n =
    if nat_beq n 0
    then "0"
    else if nat_beq n 1
    then "1"
    else if nat_beq n 2
    then "2"
    else if nat_beq n 3
    then "3"
    else if nat_beq n 4
    then "4"
    else if nat_beq n 5
    then "5"
    else if nat_beq n 6
    then "6"
    else if nat_beq n 7
    then "7"
    else if nat_beq n 8
    then "8"
    else "9"

-- With more fuel than the number, the fuel is not used up: each round divides by ten.
show_digits : ℕ → ℕ → String
unfolding digit
show_digits zero n = ""
show_digits (suc f) n =
    let front = show_digits f (n / 10) in
    if leb n 9 then digit n else String.◌++◌ front (digit (n % 10))

-- `str(n)`
unfoldable pub show_ℕ : ℕ → String
unfolding show_digits
show_ℕ n = show_digits (suc n) n

-- `Field(min_length=lo, max_length=hi)`
abbrev pub has_length : ℕ → ℕ → String → Bool
has_length lo hi s = leb lo (text_length s) && leb (text_length s) hi

abbrev pub is_lower : ℕ → Bool
is_lower c = leb b'a' c && leb c b'z'

abbrev pub is_upper : ℕ → Bool
is_upper c = leb b'A' c && leb c b'Z'

abbrev pub is_digit : ℕ → Bool
is_digit c = leb b'0' c && leb c b'9'

-- `[a-z0-9_]`
abbrev pub is_code_char : ℕ → Bool
is_code_char c = is_lower c || is_digit c || nat_beq c b'_'

-- A first character, then at most `n` of another kind.
abbrev pub starts_then : (ℕ → Bool) → (ℕ → Bool) → ℕ → List ℕ → Bool
starts_then first other n [] = false
starts_then first other n (c ∷ cs) = first c && all other cs && leb (length cs) n
