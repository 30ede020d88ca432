-- ===== src/Mysqlwire/Local/InfoSchema.antt =====
-- internal/mysqlwire/query.go: queries over information_schema.
use redash_wire.Common.{
  ℕ, zero, suc, ◌+◌, Bool, true, false, not, ◌&&◌, ◌||◌, Option, none, some, List, [], ◌∷◌, ◌++◌,
  map, any, all, length, drop, ◌==◌, if◌then◌else◌, choose,
}
use redash_wire.Common.Numerals.{pos, negsuc}
use redash_wire.Common.Text.{Bytes, codes, equal, to_lower, equal_fold, contains}
use redash_wire.Redash.{SchemaTable, SchemaColumn}
use redash_wire.Mysqlwire.{Cell, null_cell, int_cell, float_cell, text_cell, Answer, result_set}
use redash_wire.Mysqlwire.Lexer.{
  Token, tok_word, tok_string, tok_op, tok_number, is_tok, same_tok, lex_tokens,
}
use redash_wire.Mysqlwire.Like.{like_matcher}
use redash_wire.Mysqlwire.Scan.{
  is_ident, normalize, lower_redacted, token_at, scan_top, split_alias,
}
use redash_wire.Mysqlwire.Value.{Floats}
use redash_wire.Mysqlwire.Variables.{sprint_cell}
use redash_wire.Mysqlwire.Local.Session.{
  LocalSession, select_parts, named_by, text_or_null, number_cell,
}
use redash_wire.Mysqlwire.Local.Settings.{head_string, listed}

abbrev pub info_schema_columns_star : List Bytes
info_schema_columns_star =
    codes "TABLE_CATALOG"
    ∷ codes "TABLE_SCHEMA"
    ∷ codes "TABLE_NAME"
    ∷ codes "COLUMN_NAME"
    ∷ codes "ORDINAL_POSITION"
    ∷ codes "COLUMN_DEFAULT"
    ∷ codes "IS_NULLABLE"
    ∷ codes "DATA_TYPE"
    ∷ codes "CHARACTER_MAXIMUM_LENGTH"
    ∷ codes "CHARACTER_OCTET_LENGTH"
    ∷ codes "NUMERIC_PRECISION"
    ∷ codes "NUMERIC_SCALE"
    ∷ codes "DATETIME_PRECISION"
    ∷ codes "CHARACTER_SET_NAME"
    ∷ codes "COLLATION_NAME"
    ∷ codes "COLUMN_TYPE"
    ∷ codes "COLUMN_KEY"
    ∷ codes "EXTRA"
    ∷ codes "PRIVILEGES"
    ∷ codes "COLUMN_COMMENT"
    ∷ codes "GENERATION_EXPRESSION"
    ∷ codes "SRS_ID"
    ∷ []

abbrev pub info_schema_statistics_star : List Bytes
info_schema_statistics_star =
    codes "TABLE_CATALOG"
    ∷ codes "TABLE_SCHEMA"
    ∷ codes "TABLE_NAME"
    ∷ codes "NON_UNIQUE"
    ∷ codes "INDEX_SCHEMA"
    ∷ codes "INDEX_NAME"
    ∷ codes "SEQ_IN_INDEX"
    ∷ codes "COLUMN_NAME"
    ∷ codes "COLLATION"
    ∷ codes "CARDINALITY"
    ∷ codes "SUB_PART"
    ∷ codes "PACKED"
    ∷ codes "NULLABLE"
    ∷ codes "INDEX_TYPE"
    ∷ codes "COMMENT"
    ∷ codes "INDEX_COMMENT"
    ∷ codes "IS_VISIBLE"
    ∷ codes "EXPRESSION"
    ∷ []

pub record SelectItem : Type 0 where
  pub name : Bytes
  pub expr : Bytes

abbrev star_items : List Bytes → List SelectItem
star_items = map (λ s. record { name = s; expr = s })

-- `strings.HasSuffix(item, ".*")`
unfoldable pub ends_star : Bytes → Bool
ends_star [] = false
ends_star (c ∷ []) = false
ends_star (c ∷ d ∷ []) = c == b'.' && d == b'*'
ends_star (c ∷ d ∷ e ∷ cs) = ends_star (d ∷ e ∷ cs)

unfoldable pub item_of : List Bytes → Bytes → List SelectItem
unfolding equal ends_star split_alias
item_of star item =
    if equal item (codes "*") || ends_star item
    then star_items star
    else (let (expr, alias) = split_alias item in
        record { name = named_by expr alias; expr = expr } ∷ [])

-- The loop of `selectItems`.
unfoldable pub items_from : List Bytes → List Bytes → List SelectItem
unfolding item_of
items_from star [] = []
items_from star (item ∷ items) = item_of star item ++ items_from star items

unfoldable pub select_items : Bytes → List Bytes → List SelectItem
unfolding select_parts items_from
select_items sql star = elim (items_from star (select_parts sql)) [
  | [] ↦ star_items star
  | item ∷ items ↦ item ∷ items
]

unfoldable pub item_names : List SelectItem → List Bytes
item_names = map (λ (it : SelectItem). it.name)

-- A row of a catalog table, by the name of the field.
abbrev pub Fields : Type 0
Fields = Bytes → Cell

-- `eval` on the tokens of the item.
unfoldable pub eval_item : Floats → List Token → Fields → Cell
unfolding same_tok is_tok to_lower number_cell
eval_item floats (t ∷ []) get =
    if is_ident t
    then get (to_lower t.text)
    else if same_tok t.kind tok_string
    then text_cell t.text
    else if same_tok t.kind tok_number
    then number_cell floats t.text null_cell
    else null_cell
eval_item floats (a ∷ dot ∷ b ∷ []) get =
    if is_ident a && (is_tok dot tok_op (codes ".") && is_ident b)
    then get (to_lower b.text)
    else null_cell
eval_item floats _ get = null_cell

unfoldable pub eval : Floats → SelectItem → Fields → Cell
unfolding lex_tokens eval_item
eval floats it get = eval_item floats (lex_tokens it.expr) get

unfoldable pub info_schema_column_value : Bytes → Bytes → Bytes → ℕ → SchemaColumn → Cell
unfolding equal
info_schema_column_value field db_name table ordinal col =
    choose
      ((equal field (codes "table_catalog"), text_cell (codes "def"))
        ∷ (equal field (codes "table_schema"), text_cell db_name)
        ∷ (equal field (codes "table_name"), text_cell table)
        ∷ (equal field (codes "column_name"), text_cell col.name)
        ∷ (equal field (codes "ordinal_position"), int_cell (pos ordinal))
        ∷ (
          equal field (codes "data_type") || equal field (codes "column_type"),
          text_or_null col.kind,
        )
        ∷ (equal field (codes "column_comment"), text_cell col.comment)
        ∷ [])
      null_cell

-- A condition on a field.
pub record Cond : Type 0 where
  pub field : Bytes
  pub test : Bytes → Bool

-- The field that an identifier names, which may be qualified, and what follows it.
unfoldable pub qualified : Token → List Token → Bytes × List Token
unfolding is_tok same_tok to_lower
qualified t (dot ∷ u ∷ rest) =
    if is_tok dot tok_op (codes ".") && is_ident u
    then (to_lower u.text, rest)
    else (to_lower t.text, dot ∷ u ∷ rest)
qualified t rest = (to_lower t.text, rest)

-- What follows a ")".
unfoldable pub behind_list : List Token → List Token
unfolding is_tok
behind_list [] = []
behind_list (t ∷ toks) = if is_tok t tok_op (codes ")") then toks else behind_list toks

abbrev opens_list : List Token → Bool
opens_list [] = false
opens_list (t ∷ _) = is_tok t tok_op (codes "(")

-- The test that stands behind a field, with what follows it.
unfoldable pub field_test : Token → List Token → Option ((Bytes → Bool) × List Token)
unfolding is_tok same_tok equal_fold like_matcher listed behind_list
field_test op rest =
    if is_tok op tok_op (codes "=")
    then elim (head_string rest) [ none ↦ none | some v ↦ some (λ s. equal_fold s v, drop 1 rest) ]
    else if is_tok op tok_word (codes "like")
    then elim (head_string rest) [ none ↦ none | some p ↦ some (like_matcher p, drop 1 rest) ]
    else if is_tok op tok_word (codes "in") && opens_list rest
    then some (λ s. any (λ v. equal_fold s v) (listed (drop 1 rest)), behind_list (drop 1 rest))
    else none

abbrev add_cond : Cond → Option (List Cond) → Option (List Cond)
add_cond c none = none
add_cond c (some cs) = some (c ∷ cs)

-- What a round of the loop of `infoSchemaFilter` finds behind a field: the end of the text, a test, or
-- nothing that it knows.
unfoldable pub known_test : List Bytes → Bytes → List Token → Option ((Bytes → Bool) × List Token)
unfolding equal_fold field_test
known_test columns field [] = none
known_test columns field (op ∷ rest) =
    if any (λ c. equal_fold c field) columns then field_test op rest else none

-- The loop of `infoSchemaFilter`; none where an OR admits everything. Each round takes a token.
unfoldable pub filter_conds : ℕ → List Bytes → List Token → Option (List Cond)
unfolding is_tok same_tok qualified known_test
filter_conds zero columns toks = some []
filter_conds (suc fuel) columns [] = some []
filter_conds (suc fuel) columns (t ∷ rest) =
    let (field, after) = qualified t rest in
    let skip = filter_conds fuel columns rest in
    let ends : Option (List Cond) = some [] in
    let found : Option (List Cond) = elim (known_test columns field after) [
      | none ↦ skip
      | some (test, more) ↦
          add_cond (record { field = field; test = test }) (filter_conds fuel columns more)
    ] in
    if is_tok t tok_word (codes "or")
    then none
    else if not (is_ident t)
    then skip
    else elim after [ [] ↦ ends | _ ∷ _ ↦ found ]

unfoldable pub holds : Fields → Cond → Bool
unfolding sprint_cell
holds get c = elim (get c.field) [
  | null_cell ↦ false
  | int_cell i ↦ c.test (sprint_cell (int_cell i))
  | float_cell f ↦ c.test (sprint_cell (float_cell f))
  | text_cell s ↦ c.test (sprint_cell (text_cell s))
]

unfoldable pub starts_where : Bytes → ℕ → ℕ → Bool
unfolding token_at
starts_where red i c = c == b'w' && token_at red i (codes "where")

unfoldable pub info_schema_filter : Bytes → List Bytes → Fields → Bool
unfolding lower_redacted scan_top starts_where lex_tokens filter_conds holds
info_schema_filter sql columns get =
    let red = lower_redacted sql in
    elim (scan_top (starts_where red) (pos 0) 0 red) [
      | none ↦ true
      | some at ↦
          (let toks = lex_tokens (drop (at + 5) sql) in
            elim (filter_conds (length toks) columns toks) [
              | none ↦ true
              | some conds ↦ all (holds get) conds
            ])
    ]

-- The rows of the columns of one table, from an ordinal on.
unfoldable pub column_rows :
    LocalSession
    → (Fields → Bool)
    → List SelectItem
    → Bytes
    → ℕ
    → List SchemaColumn
    → List (List Cell)
unfolding info_schema_column_value eval
column_rows sess admit items table ord [] = []
column_rows sess admit items table ord (col ∷ cols) =
    let rest = column_rows sess admit items table (ord + 1) cols in
    let get = λ (field : Bytes). info_schema_column_value field sess.db_name table ord col in
    if admit get then map (λ it. eval sess.floats it get) items ∷ rest else rest

unfoldable pub all_column_rows :
    LocalSession → (Fields → Bool) → List SelectItem → List SchemaTable → List (List Cell)
unfolding column_rows
all_column_rows sess admit items [] = []
all_column_rows sess admit items (t ∷ tables) =
    column_rows sess admit items t.name 1 t.columns ++ all_column_rows sess admit items tables

unfoldable pub handle_info_schema_columns : Bytes → LocalSession → Answer
unfolding select_items info_schema_filter all_column_rows item_names
handle_info_schema_columns sql sess =
    let items = select_items sql info_schema_columns_star in
    result_set (item_names items)
      (all_column_rows sess (info_schema_filter sql info_schema_columns_star) items sess.schema)

unfoldable pub handle_info_schema_tables : Bytes → List SchemaTable → Answer
unfolding contains
handle_info_schema_tables lower schema =
    if contains lower (codes "data_length") || contains lower (codes "total_size")
    then result_set
        (codes "name"
          ∷ codes "comment"
          ∷ codes "data_size"
          ∷ codes "index_size"
          ∷ codes "total_size"
          ∷ [])
        (map
          (λ (t : SchemaTable).
            text_cell t.name ∷ null_cell ∷ null_cell ∷ null_cell ∷ null_cell ∷ [])
          schema)
    else result_set (codes "table_name" ∷ codes "table_type" ∷ [])
        (map (λ (t : SchemaTable). text_cell t.name ∷ text_cell (codes "BASE TABLE") ∷ []) schema)

unfoldable pub handle_info_schema_table_details : List SchemaTable → Answer
handle_info_schema_table_details schema =
    result_set
      (codes "charset"
        ∷ codes "collation"
        ∷ codes "engine"
        ∷ codes "name"
        ∷ codes "estimated_row"
        ∷ [])
      (map
        (λ (t : SchemaTable).
          text_cell (codes "utf8mb4")
          ∷ text_cell (codes "utf8mb4_general_ci")
          ∷ text_cell (codes "InnoDB")
          ∷ text_cell t.name
          ∷ int_cell (negsuc 0)
          ∷ [])
        schema)

abbrev routine_columns : List Bytes
routine_columns =
    codes "function_schema"
    ∷ codes "function_name"
    ∷ codes "create_statement"
    ∷ codes "function_type"
    ∷ []

-- The columns of `*` in another catalog table.
abbrev other_star : Bytes → List Bytes
other_star lower =
    if contains lower (codes "information_schema.statistics")
    then info_schema_statistics_star
    else codes "name" ∷ []

unfoldable pub info_cases : Bytes → Bytes → LocalSession → List (Bool × Answer)
unfolding contains handle_info_schema_tables handle_info_schema_table_details
    handle_info_schema_columns
info_cases sql lower sess =
    (contains lower (codes "information_schema.routines"), result_set routine_columns [])
    ∷ (
      contains lower (codes "information_schema.tables"),
      handle_info_schema_tables lower sess.schema,
    )
    ∷ (
      contains lower (codes "information_schema.collation_character_set_applicability"),
      handle_info_schema_table_details sess.schema,
    )
    ∷ (contains lower (codes "information_schema.columns"), handle_info_schema_columns sql sess)
    ∷ []

unfoldable pub handle_information_schema : Bytes → LocalSession → Answer
unfolding normalize info_cases select_items item_names contains
handle_information_schema sql sess =
    let lower = normalize sql in
    choose (info_cases sql lower sess)
      (result_set (item_names (select_items sql (other_star lower))) [])
