-- ===== src/Mysqlwire/Local/Tables.antt =====
-- internal/mysqlwire/query.go: SHOW TABLES.
use redash_wire.Common.{
  Bool, true, false, not, ◌&&◌, ◌||◌, Option, none, some, List, [], ◌∷◌, ◌++◌, drop, if◌then◌else◌,
}
use redash_wire.Common.Text.{Bytes, codes, equal, equal_fold}
use redash_wire.Redash.{DataSource, SchemaTable}
use redash_wire.Mysqlwire.{
  Cell, text_cell, Answer, result_set, refused_with, MyError, er_parse_error, er_bad_db_error,
  er_not_supported_yet, Checked, checked, failed, ◌>>=◌,
}
use redash_wire.Mysqlwire.Lexer.{Token, tok_word, tok_string, is_tok, same_tok, alias_text}
use redash_wire.Mysqlwire.Like.{like_matcher}
use redash_wire.Mysqlwire.Scan.{is_ident}
use redash_wire.Mysqlwire.Local.Session.{LocalSession}
use redash_wire.Mysqlwire.Local.Settings.{show_tokens}

-- A test of a table's name and type.
abbrev pub TableTest : Type 0
TableTest = Bytes → Bytes → Bool

abbrev pub show_tables_syntax_error : MyError
show_tables_syntax_error = record {
  code = er_parse_error;
  message =
      codes
        "You have an error in your SQL syntax; expected SHOW [FULL] TABLES [{FROM | IN} db] [LIKE 'pattern' | WHERE expr]";
}

-- go-mysql's own text stands around the messages of these three.
abbrev pub unsupported : Bytes → MyError
unsupported db = record {
  code = er_not_supported_yet;
  message =
      codes "SHOW TABLES WHERE beyond Tables_in_"
      ++ (db ++ codes " or Table_type compared with =, !=, <> or LIKE, joined by AND");
}

abbrev pub other_database : Bytes → MyError
other_database name = record {
  code = er_not_supported_yet;
  message =
      codes "SHOW TABLES FROM a database other than the current one; USE `"
      ++ (name ++ codes "` first");
}

abbrev pub no_database : Bytes → MyError
no_database name = record { code = er_bad_db_error; message = name }

-- The loop over the sources for another database.
unfoldable pub wrong_database : Bytes → List DataSource → MyError
unfolding equal_fold
wrong_database named [] = no_database named
wrong_database named (ds ∷ sources) =
    if equal_fold ds.name named then other_database ds.name else wrong_database named sources

-- FROM or IN and the database behind it; what is left.
unfoldable pub named_database : LocalSession → List Token → Checked (List Token)
unfolding equal_fold alias_text wrong_database same_tok
named_database sess [] = failed show_tables_syntax_error
named_database sess (t ∷ rest) =
    if not (is_ident t)
    then failed show_tables_syntax_error
    else if equal_fold (alias_text t) sess.db_name
    then checked rest
    else failed (wrong_database (alias_text t) sess.sources)

unfoldable pub after_from : LocalSession → List Token → Checked (List Token)
unfolding is_tok named_database
after_from sess [] = checked []
after_from sess (t ∷ rest) =
    if is_tok t tok_word (codes "from") || is_tok t tok_word (codes "in")
    then named_database sess rest
    else checked (t ∷ rest)

-- The conditions between the ANDs.
unfoldable pub split_and : List Token → List Token → List (List Token)
unfolding is_tok
split_and cond [] = cond ∷ []
split_and cond (t ∷ toks) =
    let cut = cond ∷ split_and [] toks in
    let on = split_and (cond ++ (t ∷ [])) toks in
    if is_tok t tok_word (codes "and") then cut else on

abbrev the_name : Bytes → Bytes → Bytes
the_name name table_type = name

abbrev the_type : Bytes → Bytes → Bytes
the_type name table_type = table_type

-- The field that a condition compares.
unfoldable pub condition_field : Bytes → Bytes → Option (Bytes → Bytes → Bytes)
unfolding equal_fold
condition_field db col =
    if equal_fold col (codes "tables_in_" ++ db)
    then some the_name
    else if equal_fold col (codes "table_type")
    then some the_type
    else none

unfoldable pub condition_test : Bytes → Bytes → Option (Bytes → Bool)
unfolding equal equal_fold like_matcher
condition_test op value =
    if equal op (codes "=")
    then some (λ s. equal_fold s value)
    else if equal op (codes "!=") || equal op (codes "<>")
    then some (λ s. not (equal_fold s value))
    else if equal op (codes "like")
    then some (like_matcher value)
    else if equal op (codes "not like")
    then some (λ s. not (like_matcher value s))
    else none

-- `op` and `rest` of a condition, the two tokens of NOT LIKE being one operator.
unfoldable pub condition_op : Token → List Token → Bytes × List Token
unfolding is_tok
condition_op t [] = (t.text, [])
condition_op t (u ∷ rest) =
    if is_tok t tok_word (codes "not") && is_tok u tok_word (codes "like")
    then (codes "not like", rest)
    else (t.text, u ∷ rest)

-- Exactly one string.
abbrev pub only_string : List Token → Option Bytes
only_string (t ∷ []) = if same_tok t.kind tok_string then some t.text else none
only_string _ = none

abbrev test_of :
    Option (Bytes → Bytes → Bytes)
    → Option Bytes
    → (Bytes → Option (Bytes → Bool))
    → MyError
    → Checked TableTest
test_of (some field) (some value) test e = elim (test value) [
  | none ↦ failed e
  | some p ↦ checked (λ name table_type. p (field name table_type))
]
test_of _ _ test e = failed e

unfoldable pub show_tables_condition : Bytes → List Token → Checked TableTest
unfolding condition_field condition_test condition_op alias_text same_tok
show_tables_condition db (col ∷ t ∷ u ∷ rest) =
    if not (is_ident col)
    then failed (unsupported db)
    else (let (op, value) = condition_op t (u ∷ rest) in
        test_of (condition_field db (alias_text col)) (only_string value) (condition_test op)
          (unsupported db))
show_tables_condition db _ = failed (unsupported db)

unfoldable pub show_tables_conditions : Bytes → List (List Token) → Checked TableTest
unfolding show_tables_condition
show_tables_conditions db [] = checked (λ name table_type. true)
show_tables_conditions db (cond ∷ conds) = do
  p ← show_tables_condition db cond
  ps ← show_tables_conditions db conds
  checked (λ name table_type. p name table_type && ps name table_type)

unfoldable pub show_tables_where : Bytes → List Token → Checked TableTest
unfolding split_and show_tables_conditions
show_tables_where db [] = failed show_tables_syntax_error
show_tables_where db (t ∷ toks) = show_tables_conditions db (split_and [] (t ∷ toks))

-- The suffix of the column's name and the test of a table.
unfoldable pub show_tables_filter : Bytes → List Token → Checked (Bytes × TableTest)
unfolding is_tok same_tok like_matcher show_tables_where
show_tables_filter db [] = checked ([], λ name table_type. true)
show_tables_filter db (t ∷ rest) =
    let by_where = show_tables_where db rest >>= λ p. checked ([], p) in
    let otherwise =
      if is_tok t tok_word (codes "where") then by_where else failed show_tables_syntax_error in
    if is_tok t tok_word (codes "like")
    then elim (only_string rest) [
      | some pattern ↦
          checked
            (codes " (" ++ (pattern ++ codes ")"), λ name table_type. like_matcher pattern name)
      | none ↦ otherwise
    ]
    else otherwise

abbrev pub base_table : Bytes
base_table = codes "BASE TABLE"

abbrev table_row : Bool → Bytes → List Cell
table_row full name =
    if full then text_cell name ∷ text_cell base_table ∷ [] else text_cell name ∷ []

-- The rows of the tables that the test admits.
unfoldable pub table_rows : Bool → TableTest → List SchemaTable → List (List Cell)
table_rows full match [] = []
table_rows full match (t ∷ tables) =
    let rest = table_rows full match tables in
    if match t.name base_table then table_row full t.name ∷ rest else rest

abbrev tables_column : Bytes → Bytes
tables_column [] = codes "Tables"
tables_column (c ∷ db) = codes "Tables_in_" ++ (c ∷ db)

abbrev starts_full : List Token → Bool
starts_full [] = false
starts_full (t ∷ _) = is_tok t tok_word (codes "full")

abbrev pub answer_of : Checked Answer → Answer
answer_of (checked a) = a
answer_of (failed e) = refused_with e

-- Behind SHOW.
unfoldable pub show_tables : LocalSession → Bool → List Token → Checked Answer
unfolding after_from show_tables_filter table_rows
show_tables sess full toks = do
  rest ← after_from sess toks
  (suffix, match) ← show_tables_filter sess.db_name rest
  checked (
      result_set
        ((tables_column sess.db_name ++ suffix) ∷ (if full then codes "Table_type" ∷ [] else []))
        (table_rows full match sess.schema))

unfoldable pub handle_show_tables : Bytes → LocalSession → Answer
unfolding show_tokens is_tok show_tables
handle_show_tables sql sess =
    let toks = drop 1 (show_tokens sql) in
    if starts_full toks
    then answer_of (show_tables sess true (drop 2 toks))
    else answer_of (show_tables sess false (drop 1 toks))
