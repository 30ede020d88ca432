-- ===== src/Pgwire/Catalog/Predicates.antt =====
-- internal/pgwire/catalog.go: the predicates of a WHERE clause as patterns, and the literals behind them.
use redash_wire.Common.{ℕ, not, Option, none, some, List, [], ◌∷◌, ◌==◌, drop}
use redash_wire.Common.Text.{Bytes, codes, is_digit}
use redash_wire.Common.Regex.{
  Re, one, nothing, seq, alt, star, group, at_start, boundary, byte, literal, plus, optional,
  any_of, sequence, blanks, some_blanks, find, part,
}

abbrev words : List Bytes → Re
words [] = nothing
words (w ∷ []) = literal w
words (w ∷ v ∷ ws) = alt (literal w) (words (v ∷ ws))

-- `\b(?:a|b)\s*` and an operator
abbrev word_then : List Bytes → Re → Re
word_then ws op = sequence (boundary ∷ words ws ∷ blanks ∷ op ∷ [])

abbrev pub name_eq_re : Re
name_eq_re = word_then (codes "relname" ∷ codes "table_name" ∷ codes "tablename" ∷ []) (byte b'=')

abbrev pub oid_eq_re : Re
oid_eq_re = word_then (codes "oid" ∷ codes "attrelid" ∷ []) (byte b'=')

-- `~\*?`
abbrev tilde : Re
tilde = seq (byte b'~') (optional (byte b'*'))

-- `operator\s*\(\s*pg_catalog\s*\.\s*~\*?\s*\)`
abbrev operator_tilde : Re
operator_tilde = sequence (
    literal (codes "operator")
    ∷ blanks
    ∷ byte b'('
    ∷ blanks
    ∷ literal (codes "pg_catalog")
    ∷ blanks
    ∷ byte b'.'
    ∷ blanks
    ∷ tilde
    ∷ blanks
    ∷ byte b')'
    ∷ [])

abbrev pub name_pattern_re : Re
name_pattern_re = word_then (codes "relname" ∷ []) (group 1 (alt tilde operator_tilde))

abbrev pub schema_re : Re
schema_re =
    word_then (codes "nspname" ∷ codes "table_schema" ∷ codes "schemaname" ∷ [])
      (group 1 (any_of (byte b'=') (tilde ∷ operator_tilde ∷ [])))

abbrev pub empty_join_re : Re
empty_join_re = sequence (
    group 1 (
      any_of (byte b',')
        (seq boundary (literal (codes "join")) ∷ seq boundary (literal (codes "from")) ∷ []))
    ∷ some_blanks
    ∷ optional (literal (codes "pg_catalog."))
    ∷ words (
        codes "pg_inherits"
        ∷ codes "pg_index"
        ∷ codes "pg_constraint"
        ∷ codes "pg_trigger"
        ∷ codes "pg_rewrite"
        ∷ codes "pg_policy"
        ∷ codes "pg_depend"
        ∷ codes "pg_partitioned_table"
        ∷ [])
    ∷ boundary
    ∷ [])

abbrev pub leading_int_re : Re
leading_int_re = sequence (at_start ∷ blanks ∷ group 1 (plus (one is_digit)) ∷ boundary ∷ [])

-- `'([^']*)'`
abbrev pub quoted_re : Re
quoted_re = sequence (byte b'\'' ∷ group 1 (star (one (λ c. not (c == b'\'')))) ∷ byte b'\'' ∷ [])

abbrev pub leading_quoted_re : Re
leading_quoted_re = sequence (at_start ∷ blanks ∷ quoted_re ∷ [])

unfoldable pub quoted_at : Bytes → ℕ → Option Bytes
unfolding find part
quoted_at sql i = elim (find leading_quoted_re (drop i sql)) [
  | none ↦ none
  | some g ↦ some (part (drop i sql) 1 g)
]
