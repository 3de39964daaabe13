-- ===== src/Redaction.antt =====
-- src/yamazaki/redaction.py: fail-closed redaction of SQL. The SQL parser (sqlglot) is a parameter.
pub mod Laws
use Prim.Native.Char.{code}
use Prim.Native.String
use yamazaki_incubator.Base.{
  ℕ, ◌+◌, ◌-◌, Bool, true, false, not, ◌&&◌, ◌||◌, Option, none, some, List, [], ◌∷◌, ◌++◌, String,
  leb, ltb, nat_beq, is_empty, ◌==◌, if◌then◌else◌, string_eq,
}
use yamazaki_incubator.Base.Result.{Result, ok, raised, ◌>>=◌, ◌>>◌, require}
use yamazaki_incubator.Base.Text.{
  codes, text_length, truncate, has_length, is_lower, is_upper, is_digit, join,
}
use yamazaki_incubator.Contracts.{RedactionStatus, redacted, omitted, at_most}

pub data Dialect : Type 0 where
  clickhouse mysql : Dialect

-- What the module uses of sqlglot, and of Python's tables of Unicode.
pub record SqlGlot : Type 1 where
  pub Expression : Type 0
  -- `parse(sql, read=dialect, error_level=RAISE)`, or the class of the exception that it raises
  pub parse : String → Dialect → Result (List (Option Expression))
  pub is_command : Expression → Bool
  pub is_literal : Expression → Bool
  pub is_identifier : Expression → Bool
  -- `Placeholder()` and `Identifier(this="identifier", quoted=False)`
  pub placeholder : Expression
  pub identifier : Expression
  pub transform : (Expression → Expression) → Expression → Expression
  -- `.sql(comments=False)` and `.key.upper()`
  pub sql : Expression → String
  pub key_upper : Expression → String
  -- `str.isalnum` of a character that is not ASCII
  pub is_alnum : ℕ → Bool
  -- `issubclass`, on the names of exception classes
  pub is_subclass : String → String → Bool
  -- `str.upper`
  pub upper : String → String

-- `\s`
unfoldable pub is_space : ℕ → Bool
is_space c =
    (leb 9 c && leb c 13)
    || (leb 28 c && leb c 32)
    || nat_beq c 0x85
    || nat_beq c 0xa0
    || nat_beq c 0x1680
    || (leb 0x2000 c && leb c 0x200a)
    || nat_beq c 0x2028
    || nat_beq c 0x2029
    || nat_beq c 0x202f
    || nat_beq c 0x205f
    || nat_beq c 0x3000

unfoldable pub skip_space : List ℕ → List ℕ
unfolding is_space
skip_space [] = []
skip_space (c ∷ cs) = if is_space c then skip_space cs else c ∷ cs

-- The text from its first character that is no white space.
unfoldable pub skip_space_text : String → String
unfolding is_space
skip_space_text String.[] = String.[]
skip_space_text (String.◌∷◌ c s) = if is_space (code c) then skip_space_text s else String.◌∷◌ c s

-- `[A-Za-z]*`
unfoldable pub leading_letters : String → String
leading_letters String.[] = String.[]
leading_letters (String.◌∷◌ c s) =
    if is_lower (code c) || is_upper (code c) then String.◌∷◌ c (leading_letters s) else String.[]

-- A letter under IGNORECASE: the long s, U+017F, counts as an s, and the dotted capital I, U+0130,
-- and the dotless small i, U+0131, as an i.
unfoldable pub fold_case : ℕ → ℕ
fold_case c =
    if nat_beq c 0x17f
    then b'S'
    else if nat_beq c 0x130 || nat_beq c 0x131
    then b'I'
    else if is_lower c
    then c - 32
    else c

-- The rest after a keyword, if the text begins with it.
unfoldable pub after_word : List ℕ → List ℕ → Option (List ℕ)
unfolding fold_case
after_word [] cs = some cs
after_word (w ∷ ws) [] = none
after_word (w ∷ ws) (c ∷ cs) = if nat_beq (fold_case c) w then after_word ws cs else none

pub record RedactionResult : Type 0 where
  pub status : RedactionStatus
  pub statement_type : String
  pub structure : Option String
  pub reason : Option String

unfoldable pub validate_redaction : RedactionResult → Result RedactionResult
validate_redaction r = do
  require (has_length 1 64 r.statement_type) "ValidationError"
  require (at_most 4000 r.structure) "ValidationError"
  require (at_most 128 r.reason) "ValidationError"
  ok r

abbrev pub omit : String → String → RedactionResult
omit statement_type reason = record {
  status = omitted;
  statement_type = statement_type;
  structure = none;
  reason = some reason;
}

module _ (G : SqlGlot) where
  unfoldable pub is_word_char : ℕ → Bool
  is_word_char c =
      is_lower c || is_upper c || is_digit c || nat_beq c b'_' || (leb 128 c && G.is_alnum c)

  -- `\b` after a keyword
  unfoldable pub at_word_end : Option (List ℕ) → Bool
  unfolding is_word_char
  at_word_end none = false
  at_word_end (some []) = true
  at_word_end (some (c ∷ cs)) = not (is_word_char c)

  -- `^\s*(SELECT|WITH|SHOW|EXPLAIN)\b`
  unfoldable pub has_read_only_prefix : String → Bool
  unfolding skip_space after_word at_word_end
  has_read_only_prefix sql =
      let rest = skip_space (codes sql) in
      at_word_end (after_word (codes "SELECT") rest)
      || at_word_end (after_word (codes "WITH") rest)
      || at_word_end (after_word (codes "SHOW") rest)
      || at_word_end (after_word (codes "EXPLAIN") rest)

  -- `_prefix`: the first word in upper case, or "unknown" if the text does not begin with a letter.
  unfoldable pub prefix : String → String
  unfolding skip_space_text leading_letters
  prefix sql =
      let word = leading_letters (skip_space_text sql) in
      if word == "" then "unknown" else truncate 64 (G.upper word)

  -- `replace`
  unfoldable pub replace : G.Expression → G.Expression
  replace node =
      if G.is_literal node
      then G.placeholder
      else if G.is_identifier node
      then G.identifier
      else node

  -- The end of `redact_sql`, for the one statement that was parsed.
  unfoldable pub redact_expression : G.Expression → Result RedactionResult
  unfolding replace
  redact_expression expression = validate_redaction (record {
    status = redacted;
    statement_type = G.key_upper expression;
    structure = some (truncate 4000 (G.sql (G.transform replace expression)));
    reason = none;
  })

  unfoldable pub redact_statements : String → List (Option G.Expression) → Result RedactionResult
  unfolding redact_expression prefix
  redact_statements sql (some e ∷ []) =
      if G.is_command e
      then validate_redaction (omit (prefix sql) "unsupported_statement_shape")
      else redact_expression e
  redact_statements sql _ = validate_redaction (omit (prefix sql) "unsupported_statement_shape")

  -- `except (ParseError, ValueError)`; any other exception of the parser passes through.
  unfoldable pub redact_parsed :
      String → Result (List (Option G.Expression)) → Result RedactionResult
  unfolding redact_statements prefix
  redact_parsed sql (ok statements) = redact_statements sql statements
  redact_parsed sql (raised e) =
      if G.is_subclass e "ParseError" || G.is_subclass e "ValueError"
      then validate_redaction (omit (prefix sql) "parse_failed")
      else raised e

  unfoldable pub redact_sql : String → Dialect → Result RedactionResult
  unfolding has_read_only_prefix redact_parsed
  redact_sql sql dialect =
      if has_read_only_prefix sql
      then redact_parsed sql (G.parse sql dialect)
      else validate_redaction (omit "unsupported" "non_read_only_prefix")
