-- ===== src/Pgwire/Catalog/Columns.antt =====
-- internal/pgwire/catalog.go, `requestedColumns`: the columns that the select list of a catalog query
-- asks for. A scalar subquery in it has a select list of its own, shorter by a parenthesis at least: the
-- fuel is the length of the text.
pub mod Fuel
use redash_wire.Common.{
  ℕ, zero, suc, ◌+◌, Bool, true, false, ◌&&◌, Option, none, some, List, [], ◌∷◌, map, ◌==◌,
  if◌then◌else◌, length, take, drop, any,
}
use redash_wire.Common.Text.{Bytes, codes, has_prefix, to_lower, trim_space, trim_last, fields}
use redash_wire.Common.Numerals.{ℤ, pos, is_zero_int}
use redash_wire.Common.Regex.{
  Re, seq, alt, at_start, at_end, literal, optional, sequence, blanks, some_blanks, find, matches,
  span, part, slice,
}
use redash_wire.Sqltext.Mask.{postgres}
use redash_wire.Sqltext.Redact.{redact}
use redash_wire.Sqltext.Statements.{split_top_level_commas}
use redash_wire.Pgwire.Catalog.Syntax.{
  SelCol, ident, ident_re, func_call_re, is_space, token_at, depth_after, trim_quotes, unqualify,
  expr_col,
}

abbrev pub select_start_re : Re
select_start_re = sequence (
    at_start
    ∷ blanks
    ∷ literal (codes "select")
    ∷ some_blanks
    ∷ optional (seq (alt (literal (codes "distinct")) (literal (codes "all"))) some_blanks)
    ∷ [])

abbrev pub bare_ident_re : Re
bare_ident_re = sequence (at_start ∷ ident ∷ at_end ∷ [])

-- Where the top-level FROM stands. The last argument is the text from the place on.
from_at : Bytes → ℕ → ℤ → Bytes → Option ℕ
unfolding token_at
from_at red i d [] = none
from_at red i d (c ∷ cs) =
    let later = from_at red (suc i) (depth_after c d) cs in
    if c == b'f' && is_zero_int d && token_at red i (codes "from") then some i else later

unfoldable pub select_list : Bytes → Option Bytes
unfolding find span to_lower redact from_at
select_list sql =
    let red = to_lower (redact postgres sql) in
    elim (find select_start_re red) [
      | none ↦ none
      | some g ↦
          let (a, b) = span 0 g in
          elim (from_at red b (pos 0) (drop b red)) [
            | none ↦ some (drop b sql)
            | some i ↦ some (slice b i sql)
          ]
    ]

-- `as` and a blank stand behind a blank.
as_follows : Bytes → Bool
unfolding is_space
as_follows (a ∷ s ∷ sp ∷ rest) = a == b'a' && s == b's' && is_space sp
as_follows _ = false

-- Where the last top-level AS stands, by the blank in front of it.
as_at : ℕ → ℤ → Bytes → Option ℕ
unfolding as_follows is_space
as_at i d [] = none
as_at i d (c ∷ cs) = elim (as_at (suc i) (depth_after c d) cs) [
  | some j ↦ some j
  | none ↦ if is_space c && is_zero_int d && as_follows cs then some i else none
]

-- `strings.LastIndex` of a text that is not empty.
last_index : Bytes → Bytes → Option ℕ
unfolding has_prefix
last_index [] p = none
last_index (c ∷ s) p = elim (last_index s p) [
  | some i ↦ some (suc i)
  | none ↦ if has_prefix (c ∷ s) p then some 0 else none
]

-- The form of two words, from where the second begins.
two_words : Bytes → Option ℕ → Bytes × Bytes
unfolding matches trim_space
two_words item none = (item, [])
two_words item (some i) =
    if matches bare_ident_re (drop i item)
    then (trim_space (take i item), drop i item)
    else (item, [])

-- An item of exactly two words.
of_words : Bytes → Bytes → List Bytes → Bytes × Bytes
unfolding two_words last_index
of_words item red (f ∷ g ∷ []) = two_words item (last_index red g)
of_words item red _ = (item, [])

unfoldable pub split_alias : Bytes → Bytes × Bytes
unfolding to_lower redact as_at fields of_words trim_space trim_quotes
split_alias item =
    let red = to_lower (redact postgres item) in
    elim (as_at 0 (pos 0) red) [
      | some at ↦ (trim_space (take at item), trim_quotes (trim_space (drop (at + 3) item)))
      | none ↦ of_words item red (fields red)
    ]

-- A column with its name, unless that is empty.
named : SelCol → Option SelCol
named c = elim c.output [ [] ↦ none | _ ∷ _ ↦ some c ]

-- The alias, or the name of the expression.
with_alias : (Bytes → Bytes) → SelCol → Bytes → Option SelCol
unfolding named
with_alias name c [] = named (record c { output = name c.expr })
with_alias name c (a ∷ rest) = some (record c { output = a ∷ rest })

parse_item : (Bytes → Bytes) → Bytes → Option SelCol
unfolding split_alias expr_col with_alias
parse_item name [] = none
parse_item name (b ∷ bs) =
    let (expr, alias) = split_alias (b ∷ bs) in with_alias name (expr_col expr) alias

unfoldable pub parse_sel_col : (Bytes → Bytes) → Bytes → Option SelCol
unfolding trim_space parse_item
parse_sel_col name item = parse_item name (trim_space item)

parse_all : (Bytes → Bytes) → List Bytes → List SelCol
unfolding parse_sel_col
parse_all name [] = []
parse_all name (p ∷ ps) = elim (parse_sel_col name p) [
  | none ↦ parse_all name ps
  | some c ↦ c ∷ parse_all name ps
]

or_defaults : List SelCol → List SelCol → List SelCol
or_defaults defaults [] = defaults
or_defaults defaults (c ∷ cs) = c ∷ cs

unfoldable pub columns_with : (Bytes → Bytes) → Bytes → List SelCol → List SelCol
unfolding select_list trim_space or_defaults parse_all split_top_level_commas
columns_with name sql defaults = elim (select_list sql) [
  | none ↦ defaults
  | some list ↦
      let l = trim_space list in
      if any (λ c. c == b'*') l
      then defaults
      else or_defaults defaults (parse_all name (split_top_level_commas postgres l))
]

abbrev no_name : Bytes
no_name = codes "?column?"

first_output : List SelCol → Bytes
first_output [] = no_name
first_output (c ∷ cs) = c.output

-- Without a leading parenthesis.
inside : Bytes → Option Bytes
unfolding trim_last
inside [] = none
inside (c ∷ cs) = if c == b'(' then some (trim_last b')' cs) else none

unfoldable pub expr_name : ℕ → Bytes → Bytes
unfolding matches unqualify inside first_output columns_with token_at to_lower find part
expr_name zero expr = no_name
expr_name (suc n) expr = elim (matches ident_re expr) [
  | true ↦ unqualify expr
  | false ↦ elim (inside expr) [
    | some inner ↦ first_output (columns_with (expr_name n) inner [])
    | none ↦ elim (token_at (to_lower expr) 0 (codes "case")) [
      | true ↦ codes "case"
      | false ↦ elim (find func_call_re expr) [ none ↦ no_name | some g ↦ part expr 1 g ]
    ]
  ]
]

unfoldable pub requested_columns : Bytes → List SelCol → List SelCol
unfolding columns_with expr_name
requested_columns sql defaults = columns_with (expr_name (suc (length sql))) sql defaults

abbrev pub output_names : List SelCol → List Bytes
output_names cols = map (λ c. c.output) cols
