-- ===== src/Mysqlwire/Local/Settings.antt =====
-- internal/mysqlwire/query.go: SHOW VARIABLES and SHOW STATUS.
use redash_wire.Common.{
  Bool, true, ◌&&◌, Option, none, some, List, [], ◌∷◌, ◌++◌, map, ◌==◌, if◌then◌else◌,
}
use redash_wire.Common.Text.{
  Bytes, codes, equal, one_of, to_lower, equal_fold, trim_space, trim_right, contains,
}
use redash_wire.Mysqlwire.{Cell, text_cell, Answer, result_set}
use redash_wire.Mysqlwire.Lexer.{Token, tok_word, tok_string, tok_op, is_tok, same_tok, lex_tokens}
use redash_wire.Mysqlwire.Like.{like_matcher}
use redash_wire.Mysqlwire.Scan.{is_ident}
use redash_wire.Mysqlwire.Variables.{session_variables, variable_value, sprint_cell}

-- `lexTokens(strings.TrimRight(strings.TrimSpace(sql), ";"))`
unfoldable pub show_tokens : Bytes → List Token
unfolding lex_tokens trim_space trim_right
show_tokens sql = lex_tokens (trim_right (λ c. c == b';') (trim_space sql))

-- The strings in front of a ")".
unfoldable pub listed : List Token → List Bytes
unfolding is_tok same_tok
listed [] = []
listed (t ∷ toks) =
    let rest = listed toks in
    if is_tok t tok_op (codes ")")
    then []
    else if same_tok t.kind tok_string
    then t.text ∷ rest
    else rest

unfoldable pub names_compared : Token → Token → List Token → List Bytes
unfolding is_tok same_tok to_lower listed
names_compared b c rest =
    if is_tok b tok_op (codes "=") && same_tok c.kind tok_string
    then to_lower c.text ∷ []
    else if is_tok b tok_word (codes "in") && is_tok c tok_op (codes "(")
    then map to_lower (listed rest)
    else []

-- The loop of `variableNamesIn`.
unfoldable pub variable_names_in : List Token → List Bytes
unfolding equal_fold same_tok names_compared
variable_names_in (a ∷ b ∷ c ∷ rest) =
    let names =
      if equal_fold a.text (codes "variable_name") && is_ident a
      then names_compared b c rest
      else [] in
    names ++ variable_names_in (b ∷ c ∷ rest)
variable_names_in _ = []

-- The string in front of the other tokens.
abbrev pub head_string : List Token → Option Bytes
head_string [] = none
head_string (t ∷ _) = if same_tok t.kind tok_string then some t.text else none

-- What one token of the loop of `handleShowVariables` makes of the filter.
unfoldable pub refine : (Bytes → Bool) → Token → List Token → Bytes → Bool
unfolding is_tok same_tok like_matcher variable_names_in equal
refine match t rest =
    if is_tok t tok_word (codes "like")
    then elim (head_string rest) [ none ↦ match | some p ↦ like_matcher p ]
    else if is_tok t tok_word (codes "where")
    then elim (variable_names_in rest) [ [] ↦ match | n ∷ ns ↦ one_of (n ∷ ns) ]
    else match

unfoldable pub variable_filter : (Bytes → Bool) → List Token → Bytes → Bool
unfolding refine
variable_filter match [] = match
variable_filter match (t ∷ rest) = variable_filter (refine match t rest) rest

-- The rows of the variables that the filter admits.
unfoldable pub variable_rows : (Bytes → Bool) → Bool → List (Bytes × Cell) → List (List Cell)
unfolding sprint_cell variable_value
variable_rows match read_only [] = []
variable_rows match read_only ((name, value) ∷ vars) =
    let rest = variable_rows match read_only vars in
    if match name
    then (text_cell name ∷ text_cell (sprint_cell (variable_value name value read_only)) ∷ [])
      ∷ rest
    else rest

abbrev variable_columns : List Bytes
variable_columns = codes "Variable_name" ∷ codes "Value" ∷ []

unfoldable pub handle_show_variables : Bytes → Bool → Answer
unfolding show_tokens variable_filter variable_rows
handle_show_variables sql read_only =
    result_set variable_columns
      (variable_rows (variable_filter (λ name. true) (show_tokens sql)) read_only session_variables)

unfoldable pub handle_show_status : Bytes → Answer
unfolding contains
handle_show_status lower =
    if contains lower (codes "ssl_version")
    then result_set variable_columns ((text_cell (codes "Ssl_version") ∷ text_cell [] ∷ []) ∷ [])
    else result_set variable_columns []
