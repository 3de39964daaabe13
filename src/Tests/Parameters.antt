-- ===== src/Tests/Parameters.antt =====
-- Concrete instances of what the model takes as parameters.
use yamazaki_incubator.Base.{
  ℕ, zero, suc, ◌+◌, ◌-◌, ◌*◌, ◌/◌, refl, true, some, List, [], ◌∷◌, String, ◌==◌, string_eq, leb,
  ltb, nat_beq, arith, if◌then◌else◌,
}
use yamazaki_incubator.Base.Result.{Result, ok, raised}
use yamazaki_incubator.Base.Int.{pos, pos_part}
use yamazaki_incubator.Engines.Cells.{Casts, words, integer}
use yamazaki_incubator.Base.Text.{text_length, show_ℕ}
use yamazaki_incubator.Numbers.{Floats}
use yamazaki_incubator.Json.{Platform, DigestLaws}
use yamazaki_incubator.Redaction.{SqlGlot}
use yamazaki_incubator.Contracts.{is_content_hash, in_unit}
use yamazaki_incubator.Detector
use yamazaki_incubator.Detector.Conversions.{Converts}
use yamazaki_incubator.Detector.Total.{ConfidenceLaws}

abbrev power : ℕ → ℕ
power zero = 1
power (suc zero) = 10
power _ = 100

-- From here on an int is too large.
abbrev pub limit : ℕ
limit = 1000000000000

abbrev pub hundredths : Floats
hundredths = record {
  of_int = λ n. n * 100;
  decimal = λ n k. n * 100 / power k;
  add = λ x y. x + y;
  sub = λ x y. x - y;
  mul = λ x y. x * y / 100;
  div = λ x y. if nat_beq y 0 then 0 else x * 100 / y;
  abs = λ x. x;
  to_double = λ n. if ltb n limit then ok (n * 100) else raised "OverflowError";
  int_div = λ n m. if ltb n limit then ok (n * 100 / m) else raised "OverflowError";
  eq = nat_beq;
  le = leb;
  lt = ltb;
  int_le = λ n x. leb (n * 100) x;
  le_int = λ x n. leb x (n * 100);
}

pub hundredths-Converts : Converts hundredths limit
hundredths-Converts = record {
  to_double = λ n h. (n * 100, ground arith);
  int_div = λ n m h p. (n * 100 / m, ground arith);
}

pub hundredths-ConfidenceLaws : ConfidenceLaws hundredths
unfolding in_unit Detector.discounted
hundredths-ConfidenceLaws = record {
  zero_fits = refl;
  floor_fits = refl;
  discounted_le_one = λ n h. ground arith;
  above_floor = λ x h. ground arith;
}

abbrev hex64 : String
hex64 = "0123456789abcdef0123456789abcdef0123456789abcdef0123456789abcdef"

abbrev pub platform : Platform
platform = record {
  content_digest = λ _. hex64;
  bundle_digest = λ _. hex64;
  uuid5 = λ s. text_length s;
  uuid_text = λ n. show_ℕ n;
  isoformat = λ _. "2026-01-01T00:00:00+00:00";
}

pub platform-DigestLaws : DigestLaws platform
unfolding is_content_hash
platform-DigestLaws = record { content_hex = λ _. refl; bundle_hex = λ _. refl }

-- Expression 0 is a command, 1 a literal, 2 an identifier, and all others are queries. A text of
-- more than 40 characters is one that the tokenizer refuses.
abbrev pub sqlglot : SqlGlot
sqlglot = record {
  Expression = ℕ;
  parse = λ sql _. if leb 41 (text_length sql) then raised "TokenError" else ok (some 7 ∷ []);
  is_command = λ e. nat_beq e 0;
  is_literal = λ e. nat_beq e 1;
  is_identifier = λ e. nat_beq e 2;
  placeholder = 3;
  identifier = 4;
  transform = λ f e. f e;
  sql = λ _. "SELECT ?";
  key_upper = λ _. "SELECT";
  is_alnum = λ _. true;
  is_subclass = λ e base. e == base;
  upper = λ s. s;
}

-- Texts are their own upper and lower cases, and every number in a text is 7.
abbrev pub casts : Casts
casts = record {
  str = λ value. elim value [ words s ↦ s | integer (pos n) ↦ show_ℕ n | _ ↦ "" ];
  int_of_text = λ _. ok (pos 7);
  int_of_octets = λ _. raised "ValueError";
  int_of_float = λ x. ok (pos (x / 100));
  float_of_text = λ _. ok 700;
  float_of_octets = λ _. raised "ValueError";
  float_of_int = λ n. ok (pos_part n * 100);
  milliseconds = λ x. ok (pos (x * 10));
  microseconds = λ x. ok (pos (x * 10000));
  lower = λ s. s;
  upper = λ s. s;
  includes = λ s part. s == part;
}

-- The list that a call returns.
abbrev pub returned_list : {A : Type 0} → Result (List A) → List A
returned_list (ok xs) = xs
returned_list (raised e) = []
