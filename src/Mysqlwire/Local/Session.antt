-- ===== src/Mysqlwire/Local/Session.antt =====
-- internal/mysqlwire/query.go: the session that a local statement sees, and a SELECT without FROM.
use redash_wire.Common.{
  ℕ, Bool, ◌&&◌, ◌||◌, Option, none, some, List, [], ◌∷◌, map, if◌then◌else◌, choose,
}
use redash_wire.Common.Numerals.{pos, parse_int64}
use redash_wire.Common.Text.{Bytes, codes, equal, one_of, trim_space}
use redash_wire.Redash.{DataSource, SchemaTable}
use redash_wire.Sqltext.Mask.{mysql}
use redash_wire.Sqltext.Statements.{split_top_level_commas}
use redash_wire.Mysqlwire.{Cell, null_cell, int_cell, float_cell, text_cell, Answer, result_set}
use redash_wire.Mysqlwire.Lexer.{
  Token, tok_word, tok_var, tok_number, tok_string, tok_op, is_tok, same_tok, lex_tokens,
}
use redash_wire.Mysqlwire.Scan.{select_list, split_alias}
use redash_wire.Mysqlwire.Value.{Floats}
use redash_wire.Mysqlwire.Variables.{server_version, local_user, lookup_variable}

pub record LocalSession : Type 0 where
  pub db_name : Bytes
  pub conn_id : ℕ
  pub sources : List DataSource
  pub schema : List SchemaTable
  pub read_only : Bool
  -- The language's floats.
  pub floats : Floats

abbrev pub local_functions : List Bytes
local_functions =
    codes "version"
    ∷ codes "database"
    ∷ codes "schema"
    ∷ codes "current_user"
    ∷ codes "user"
    ∷ codes "session_user"
    ∷ codes "system_user"
    ∷ codes "connection_id"
    ∷ []

-- The name of an output column: the alias, or the expression.
abbrev pub named_by : Bytes → Bytes → Bytes
named_by expr [] = expr
named_by expr (c ∷ alias) = c ∷ alias

abbrev pub text_or_null : Bytes → Cell
text_or_null [] = null_cell
text_or_null (c ∷ s) = text_cell (c ∷ s)

unfoldable pub call_local_function : Bytes → LocalSession → Cell
unfolding equal
call_local_function name sess =
    choose
      ((equal name (codes "version"), text_cell server_version)
        ∷ (equal name (codes "database") || equal name (codes "schema"), text_or_null sess.db_name)
        ∷ (
          one_of
              (codes "user"
                ∷ codes "current_user"
                ∷ codes "session_user"
                ∷ codes "system_user"
                ∷ [])
              name,
          text_cell local_user,
        )
        ∷ (equal name (codes "connection_id"), int_cell (pos sess.conn_id))
        ∷ [])
      null_cell

abbrev float_or : Option Bytes → Cell → Cell
float_or none c = c
float_or (some f) c = float_cell f

-- A numeric literal: an int64, or else a float, or else as `other` says.
unfoldable pub number_cell : Floats → Bytes → Cell → Cell
unfolding parse_int64
number_cell floats s other = elim (parse_int64 s) [
  | some n ↦ int_cell n
  | none ↦ float_or (floats.parse_float s) other
]

abbrev or_null : Option Cell → Cell
or_null none = null_cell
or_null (some c) = c

unfoldable pub word_cell : Bytes → Cell
unfolding equal
word_cell w =
    choose
      ((equal w (codes "null"), null_cell)
        ∷ (equal w (codes "true"), int_cell (pos 1))
        ∷ (equal w (codes "false"), int_cell (pos 0))
        ∷ (equal w (codes "current_user"), text_cell local_user)
        ∷ [])
      null_cell

-- `evalLocalExpr` of one token.
unfoldable pub eval_token : Token → LocalSession → Cell
unfolding lookup_variable number_cell word_cell
eval_token t sess = elim t.kind [
  | tok_var ↦ or_null (lookup_variable t.text sess.read_only)
  | tok_number ↦ number_cell sess.floats t.text (text_cell t.text)
  | tok_string ↦ text_cell t.text
  | tok_word ↦ word_cell t.text
  | _ ↦ null_cell
]

unfoldable pub eval_tokens : List Token → LocalSession → Cell
unfolding eval_token same_tok is_tok call_local_function
eval_tokens (t ∷ []) sess = eval_token t sess
eval_tokens (a ∷ b ∷ c ∷ []) sess =
    if same_tok a.kind tok_word && (is_tok b tok_op (codes "(") && is_tok c tok_op (codes ")"))
    then call_local_function a.text sess
    else null_cell
eval_tokens _ sess = null_cell

unfoldable pub eval_local_expr : Bytes → LocalSession → Cell
unfolding lex_tokens eval_tokens
eval_local_expr expr sess = eval_tokens (lex_tokens expr) sess

-- The items of a select list, trimmed, without the empty ones.
unfoldable pub items_of : List Bytes → List Bytes
unfolding trim_space
items_of [] = []
items_of (part ∷ parts) =
    let rest = items_of parts in elim (trim_space part) [ [] ↦ rest | c ∷ item ↦ (c ∷ item) ∷ rest ]

unfoldable pub select_parts : Bytes → List Bytes
unfolding split_top_level_commas select_list items_of
select_parts sql = items_of (split_top_level_commas mysql (select_list sql))

unfoldable pub item_name : Bytes → Bytes
unfolding split_alias
item_name item = let (expr, alias) = split_alias item in named_by expr alias

unfoldable pub select_answer : LocalSession → List Bytes → Answer
unfolding item_name eval_local_expr split_alias
select_answer sess [] = result_set (codes "result" ∷ []) ((text_cell [] ∷ []) ∷ [])
select_answer sess (item ∷ items) =
    result_set (map item_name (item ∷ items))
      (map (λ it. eval_local_expr (split_alias it).0 sess) (item ∷ items) ∷ [])

unfoldable pub handle_local_select : Bytes → LocalSession → Answer
unfolding select_parts select_answer
handle_local_select sql sess = select_answer sess (select_parts sql)
