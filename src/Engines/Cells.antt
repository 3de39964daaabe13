-- ===== src/Engines/Cells.antt =====
-- The values in the rows of an engine, which no declaration types, and the conversions of
-- src/yamazaki/engines/clickhouse.py and src/yamazaki/engines/doris.py (`_datetime`, `_optional_int`
-- and `_optional_string` are the same in both). The classes of a value that are told apart are those
-- that the program tells apart.
use yamazaki_incubator.Base.{
  ℕ, Bool, true, false, not, Option, none, some, List, [], ◌∷◌, String, nat_beq, is_empty, ◌==◌,
  if◌then◌else◌, string_eq,
}
use yamazaki_incubator.Base.Result.{Result, ok, raised, ◌>>=◌}
use yamazaki_incubator.Base.Int.{ℤ, pos, negsuc, pos_part}
use yamazaki_incubator.Numbers.{Floats, Float}
use yamazaki_incubator.Json.{Json, object, text, is_empty_dict}
use yamazaki_incubator.Json
use yamazaki_incubator.Contracts.{
  DateTime, utc_aware, Fact, int_fact, float_fact, text_fact, bool_fact, no_fact,
}

pub data Cell : Type 0 where
  -- `None`, which `row.get` also gives for a missing column
  missing : Cell
  integer : ℤ → Cell
  real : Float → Cell
  words : String → Cell
  octets : List ℕ → Cell
  flag : Bool → Cell
  moment : DateTime → Cell
  -- a list or a dict
  nested : Json → Cell

abbrev pub Row : Type 0
Row = List (String × Cell)

-- `row.get(column)`
unfoldable pub get_cell : Row → String → Cell
get_cell [] column = missing
get_cell ((k, v) ∷ row) column = if k == column then v else get_cell row column

-- `row[column]`
unfoldable pub item_of : Row → String → Result Cell
item_of [] column = raised "KeyError"
item_of ((k, v) ∷ row) column = if k == column then ok v else item_of row column

-- What Python's built-in types do with the texts and floats that an engine sends.
pub record Casts : Type 0 where
  -- `str(value)`
  pub str : Cell → String
  -- `int(value)` and `float(value)` of a text, of bytes, and of a float
  pub int_of_text : String → Result ℤ
  pub int_of_octets : List ℕ → Result ℤ
  pub int_of_float : Float → Result ℤ
  pub float_of_text : String → Result Float
  pub float_of_octets : List ℕ → Result Float
  pub float_of_int : ℤ → Result Float
  -- `round(x * 1_000)`, and the microseconds of `timedelta(seconds=x)`
  pub milliseconds : Float → Result ℤ
  pub microseconds : Float → Result ℤ
  -- `s.lower()` and `s.upper()`
  pub lower : String → String
  pub upper : String → String
  -- `part in s`
  pub includes : String → (part : String) → Bool

abbrev is_true_json : Json → Bool
is_true_json (object fields) = not (is_empty_dict fields)
is_true_json (Json.array Json.end) = false
is_true_json _ = true

module _ (F : Floats) where
  -- The truth of a value, on which `value or default` rests.
  unfoldable pub is_true : Cell → Bool
  is_true missing = false
  is_true (integer (pos n)) = not (nat_beq n 0)
  is_true (integer (negsuc n)) = true
  is_true (real x) = not (F.eq x (F.of_int 0))
  is_true (words s) = not (s == "")
  is_true (octets bytes) = not (is_empty bytes)
  is_true (flag b) = b
  is_true (moment d) = true
  is_true (nested j) = is_true_json j

  -- `value or default`
  abbrev pub or_else : Cell → Cell → Cell
  or_else value default = if is_true value then value else default

module _ (K : Casts) where
  -- `int(value)`
  unfoldable pub int_of : Cell → Result ℤ
  int_of (integer n) = ok n
  int_of (flag b) = ok (pos (if b then 1 else 0))
  int_of (real x) = K.int_of_float x
  int_of (words s) = K.int_of_text s
  int_of (octets bytes) = K.int_of_octets bytes
  int_of missing = raised "TypeError"
  int_of (moment d) = raised "TypeError"
  int_of (nested j) = raised "TypeError"

  -- `float(value)`
  unfoldable pub float_of : Cell → Result Float
  float_of (integer n) = K.float_of_int n
  float_of (flag b) = K.float_of_int (pos (if b then 1 else 0))
  float_of (real x) = ok x
  float_of (words s) = K.float_of_text s
  float_of (octets bytes) = K.float_of_octets bytes
  float_of missing = raised "TypeError"
  float_of (moment d) = raised "TypeError"
  float_of (nested j) = raised "TypeError"

  -- `max(0, int(value))`
  abbrev pub clamped : Cell → Result ℤ
  clamped value = int_of value >>= λ n. ok (pos (pos_part n))

  -- `_optional_int`
  unfoldable pub optional_int : Cell → Result (Option ℤ)
  unfolding int_of
  optional_int missing = ok none
  optional_int value = clamped value >>= λ n. ok (some n)

  -- `_optional_string`
  unfoldable pub optional_string : Cell → Option String
  optional_string missing = none
  optional_string value = some (K.str value)

  -- A value of the `native` dict, of which only `None` and the text are read.
  unfoldable pub native_fact : Cell → Fact
  native_fact missing = no_fact
  native_fact (integer n) = int_fact n
  native_fact (real x) = float_fact x
  native_fact (words s) = text_fact s
  native_fact (flag b) = bool_fact b
  native_fact value = text_fact (K.str value)

  -- A value inside a payload. What JSON has no type for is dumped by `default=str`.
  unfoldable pub cell_json : Cell → Json
  cell_json missing = Json.null
  cell_json (integer n) = Json.int n
  cell_json (real x) = Json.float x
  cell_json (words s) = text s
  cell_json (flag b) = Json.bool b
  cell_json (nested j) = j
  cell_json value = text (K.str value)

-- `_datetime`
unfoldable pub datetime_of : Cell → Result DateTime
datetime_of (moment d) = ok (utc_aware d)
datetime_of _ = raised "TypeError"

-- The loop that appends a record for each row: the first that raises ends it.
unfoldable pub each_row {ℓ κ} :
    {A : Type ℓ} {B : Type κ} → (A → Result B) → List A → Result (List B)
each_row convert [] = ok []
each_row convert (row ∷ rows) =
    let rest = each_row convert rows in
    convert row >>= λ made. rest >>= λ others. ok (made ∷ others)
