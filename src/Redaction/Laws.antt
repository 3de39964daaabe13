-- ===== src/Redaction/Laws.antt =====
-- `redact_sql` of src/yamazaki/redaction.py fails closed.
use yamazaki_incubator.Base.{
  ◌≡◌, inl, inr, refl, ap, true, false, ◌||◌, Option, some, List, [], ◌∷◌, String, arith,
  Bool-cases, string_eq,
}
use yamazaki_incubator.Base.Result.{Result, ok, raised}
use yamazaki_incubator.Base.Text.{truncate}
use yamazaki_incubator.Redaction.{
  SqlGlot, Dialect, RedactionResult, validate_redaction, omit, has_read_only_prefix, prefix,
  replace, redact_expression, redact_statements, redact_parsed, redact_sql,
}

module _ (G : SqlGlot) where
  -- The one way in which a structure leaves the redaction: the text has a read-only prefix, it was
  -- parsed into one statement that is no command, and the structure is the print of that statement
  -- with its literals and identifiers replaced, cut to 4000 characters.
  pub record IsRedacted (sql : String) (dialect : Dialect) (structure : String) : Type 0 where
    pub expression : G.Expression
    pub read_only : has_read_only_prefix G sql ≡ true
    pub parsed : G.parse sql dialect ≡ ok (some expression ∷ [])
    pub no_command : G.is_command expression ≡ false
    pub printed : structure ≡ truncate 4000 (G.sql (G.transform (replace G) expression))

  validated : (x r : RedactionResult) → validate_redaction x ≡ ok r → x ≡ r
  unfolding validate_redaction
  validated x r h = ground arith

  omit-structure :
      {A : Type 0} (kind reason : String) (r : RedactionResult) (structure : String)
      → validate_redaction (omit kind reason) ≡ ok r
      → r.structure ≡ some structure
      → A
  omit-structure kind reason r structure h s =
      let e = ap (λ (x : RedactionResult). x.structure) (validated (omit kind reason) r h) in cc

  redact_expression-printed :
      (e : G.Expression) (r : RedactionResult) (structure : String)
      → redact_expression G e ≡ ok r
      → r.structure ≡ some structure
      → structure ≡ truncate 4000 (G.sql (G.transform (replace G) e))
  unfolding redact_expression
  redact_expression-printed e r structure h s =
      let q = ap (λ (x : RedactionResult). x.structure) (validated _ r h) in cc

  redact_statements-IsRedacted :
      (sql : String) (dialect : Dialect) (statements : List (Option G.Expression))
      (r : RedactionResult) (structure : String)
      → has_read_only_prefix G sql ≡ true
      → G.parse sql dialect ≡ ok statements
      → redact_statements G sql statements ≡ ok r
      → r.structure ≡ some structure
      → IsRedacted sql dialect structure
  unfolding redact_statements
  redact_statements-IsRedacted sql dialect (some e ∷ []) r structure p q h s =
      elim (Bool-cases (G.is_command e)) [
        | inl command ↦
            omit-structure (prefix G sql) "unsupported_statement_shape" r structure
              (rw command at h) s
        | inr plain ↦ record {
          expression = e;
          read_only = p;
          parsed = q;
          no_command = plain;
          printed = redact_expression-printed e r structure (rw plain at h) s;
        }
      ]
  redact_statements-IsRedacted sql dialect _ r structure p q h s =
      omit-structure (prefix G sql) "unsupported_statement_shape" r structure h s

  redact_parsed-IsRedacted :
      (sql : String) (dialect : Dialect) (parsed : Result (List (Option G.Expression)))
      (r : RedactionResult) (structure : String)
      → has_read_only_prefix G sql ≡ true
      → G.parse sql dialect ≡ parsed
      → redact_parsed G sql parsed ≡ ok r
      → r.structure ≡ some structure
      → IsRedacted sql dialect structure
  unfolding redact_parsed
  redact_parsed-IsRedacted sql dialect (ok statements) r structure p q h s =
      redact_statements-IsRedacted sql dialect statements r structure p q h s
  redact_parsed-IsRedacted sql dialect (raised e) r structure p q h s =
      elim (Bool-cases (G.is_subclass e "ParseError" || G.is_subclass e "ValueError")) [
        | inl caught ↦ omit-structure (prefix G sql) "parse_failed" r structure (rw caught at h) s
        | inr passed ↦ cc (rw passed at h)
      ]

  -- Redaction fails closed: where `redact_sql` returns a structure, the text has a read-only
  -- prefix, it was parsed into one statement that is no command, and the structure is the print
  -- of that statement with literals and identifiers replaced, cut to 4000 characters.
  pub redact_sql-IsRedacted :
      (sql : String) (dialect : Dialect) (r : RedactionResult) (structure : String)
      → redact_sql G sql dialect ≡ ok r
      → r.structure ≡ some structure
      → IsRedacted sql dialect structure
  unfolding redact_sql
  redact_sql-IsRedacted sql dialect r structure h s =
      elim (Bool-cases (has_read_only_prefix G sql)) [
        | inl p ↦
            redact_parsed-IsRedacted sql dialect (G.parse sql dialect) r structure p refl
              (rw p at h) s
        | inr p ↦ omit-structure "unsupported" "non_read_only_prefix" r structure (rw p at h) s
      ]
