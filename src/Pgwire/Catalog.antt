-- ===== src/Pgwire/Catalog.antt =====
-- internal/pgwire/catalog.go, `HandleCatalogQuery`: which listing answers a catalog query, and its rows.
pub mod Syntax
pub mod Columns
pub mod Case
pub mod Values
pub mod Tables
pub mod Predicates
pub mod Filter
pub mod Kinds
pub mod Fits
use redash_wire.Common.{
  ℕ, suc, Bool, true, not, ◌||◌, Option, none, some, List, [], ◌∷◌, ◌++◌, map, length, ◌≡◌, refl,
  choose, All-choose,
}
use redash_wire.Common.Text.{Bytes, codes, contains}
use redash_wire.Redash.{DataSource, SchemaTable, SchemaColumn}
use redash_wire.Sqltext.Token.{contains_token}
use redash_wire.Pgwire.Message.{
  Message, row_description, data_row, command_complete, ready_for_query, text_field, select_tag,
  send_result, send_empty_result, is_answer, is_answer-data_row,
}
use redash_wire.Pgwire.Catalog.Syntax.{SelCol}
use redash_wire.Pgwire.Catalog.Columns.{requested_columns, output_names}
use redash_wire.Pgwire.Catalog.Values.{row_for}
use redash_wire.Pgwire.Catalog.Tables.{pg_class_lookup, pg_attribute_lookup}
use redash_wire.Pgwire.Catalog.Filter.{Patterns, admitted_tables}
use redash_wire.Pgwire.Catalog.Kinds.{relkind_admits_tables, table_type_admits_base_tables}
use redash_wire.Pgwire.Query.{normalize}
use redash_wire.Pgwire.Query.Local.{handle_pg_database_query}
use redash_wire.Pgwire.Query.Local.Answers.{is_answer-handle_pg_database_query}

-- A column under the name of its expression.
abbrev plain : Bytes → SelCol
plain name = record { output = name; expr = name; cast = [] }

-- A column without an expression.
abbrev bare : Bytes → SelCol
bare name = record { output = name; expr = []; cast = [] }

abbrev pub row_of_table : List SelCol → ℕ × SchemaTable → List (Option Bytes)
row_of_table cols (i, t) = row_for cols (pg_class_lookup i t)

-- The rows of a table's columns, the first of which has the ordinal given.
pub rows_of_columns :
    List SelCol → ℕ → SchemaTable → ℕ → List SchemaColumn → List (List (Option Bytes))
rows_of_columns cols i t ordinal [] = []
rows_of_columns cols i t ordinal (c ∷ cs) =
    row_for cols (pg_attribute_lookup i t ordinal c.name)
    ∷ rows_of_columns cols i t (suc ordinal) cs

pub rows_of_tables : List SelCol → List (ℕ × SchemaTable) → List (List (Option Bytes))
unfolding rows_of_columns
rows_of_tables cols [] = []
rows_of_tables cols ((i, t) ∷ ts) = rows_of_columns cols i t 1 t.columns ++ rows_of_tables cols ts

unfoldable pub column_rows :
    Patterns → Bytes → List SchemaTable → List SelCol → Bool → List (List (Option Bytes))
unfolding rows_of_tables admitted_tables
column_rows ps sql schema cols kind_ok = rows_of_tables cols (admitted_tables ps sql schema kind_ok)

-- The rows that are given for the columns that the query asks for.
unfoldable pub send_listing :
    Bytes → List SelCol → (List SelCol → List (List (Option Bytes))) → List Message
unfolding requested_columns send_result
send_listing sql defaults rows =
    let cols = requested_columns sql defaults in send_result (output_names cols) (rows cols)

unfoldable pub handle_info_schema_tables : Patterns → Bytes → List SchemaTable → List Message
unfolding admitted_tables table_type_admits_base_tables
handle_info_schema_tables ps sql schema =
    send_listing sql
      (plain (codes "table_schema") ∷ plain (codes "table_name") ∷ plain (codes "table_type") ∷ [])
      (λ cols.
        map (row_of_table cols) (admitted_tables ps sql schema (table_type_admits_base_tables sql)))

unfoldable pub handle_info_schema_columns : Patterns → Bytes → List SchemaTable → List Message
unfolding column_rows
handle_info_schema_columns ps sql schema =
    send_listing sql
      (plain (codes "table_name")
        ∷ plain (codes "column_name")
        ∷ plain (codes "ordinal_position")
        ∷ plain (codes "data_type")
        ∷ plain (codes "is_nullable")
        ∷ [])
      (λ cols. column_rows ps sql schema cols true)

unfoldable pub handle_pg_attribute : Patterns → Bytes → List SchemaTable → List Message
unfolding column_rows relkind_admits_tables
handle_pg_attribute ps sql schema =
    send_listing sql
      (plain (codes "attname") ∷ plain (codes "attnum") ∷ plain (codes "atttypid") ∷ [])
      (λ cols. column_rows ps sql schema cols (relkind_admits_tables sql))

unfoldable pub handle_pg_class_query : Patterns → Bytes → List SchemaTable → List Message
unfolding admitted_tables relkind_admits_tables
handle_pg_class_query ps sql schema =
    send_listing sql
      (plain (codes "oid") ∷ plain (codes "table_name") ∷ plain (codes "table_schema") ∷ [])
      (λ cols. map (row_of_table cols) (admitted_tables ps sql schema (relkind_admits_tables sql)))

unfoldable pub handle_pg_namespace_query : List Message
unfolding text_field
handle_pg_namespace_query =
    row_description (text_field (codes "nspname") ∷ [])
    ∷ data_row (some (codes "public") ∷ [])
    ∷ command_complete (codes "SELECT 1")
    ∷ ready_for_query
    ∷ []

unfoldable pub statio_row : SchemaTable → List (Option Bytes)
statio_row t = some t.name ∷ none ∷ none ∷ none ∷ none ∷ []

unfoldable pub handle_pg_statio_query : List SchemaTable → List Message
unfolding text_field statio_row
handle_pg_statio_query schema =
    row_description (
      text_field (codes "name")
      ∷ text_field (codes "comment")
      ∷ record { name = codes "total_size"; data_type_oid = 20; data_type_size = some 8 }
      ∷ record { name = codes "data_size"; data_type_oid = 20; data_type_size = some 8 }
      ∷ record { name = codes "index_size"; data_type_oid = 20; data_type_size = some 8 }
      ∷ [])
    ∷ (map data_row (map statio_row schema)
        ++ command_complete (select_tag (length schema)) ∷ ready_for_query ∷ [])

-- The tests of `HandleCatalogQuery` in their order, each with its answer.
unfoldable pub catalog_cases :
    Patterns → Bytes → Bytes → List SchemaTable → List DataSource → List (Bool × List Message)
unfolding contains_token contains handle_pg_database_query handle_pg_statio_query send_empty_result
    handle_pg_namespace_query requested_columns handle_info_schema_columns handle_info_schema_tables
    handle_pg_attribute handle_pg_class_query
catalog_cases ps sql lower schema sources =
    (contains_token lower (codes "pg_database"), handle_pg_database_query sources)
    ∷ (contains lower (codes "pg_statio_user_tables"), handle_pg_statio_query schema)
    ∷ (
      contains_token lower (codes "information_schema.columns"),
      handle_info_schema_columns ps sql schema,
    )
    ∷ (
      contains_token lower (codes "information_schema.tables"),
      handle_info_schema_tables ps sql schema,
    )
    ∷ (contains_token lower (codes "pg_attribute"), handle_pg_attribute ps sql schema)
    ∷ (contains_token lower (codes "pg_class"), handle_pg_class_query ps sql schema)
    ∷ (
      contains_token lower (codes "pg_type") || contains_token lower (codes "pg_enum"),
      send_empty_result
          (output_names (requested_columns sql (bare (codes "oid") ∷ bare (codes "typname") ∷ []))),
    )
    ∷ (
      contains_token lower (codes "pg_proc"),
      send_empty_result
          (output_names (requested_columns sql (bare (codes "oid") ∷ bare (codes "proname") ∷ []))),
    )
    ∷ (contains_token lower (codes "pg_namespace"), handle_pg_namespace_query)
    ∷ (
      not (contains_token lower (codes "from")),
      send_listing sql (bare (codes "result") ∷ []) (λ cols. map (λ _. none) cols ∷ []),
    )
    ∷ []

unfoldable pub handle_catalog_query :
    Patterns → Bytes → List SchemaTable → List DataSource → List Message
unfolding normalize catalog_cases
handle_catalog_query ps sql schema sources =
    choose (catalog_cases ps sql (normalize sql) schema sources)
      (send_empty_result (codes "name" ∷ []))

is_answer-send_listing :
    (sql : Bytes) (defaults : List SelCol) (rows : List SelCol → List (List (Option Bytes)))
    → is_answer (send_listing sql defaults rows) ≡ true
unfolding send_listing is_answer
is_answer-send_listing sql defaults rows =
    is_answer-data_row (rows (requested_columns sql defaults)) _

is_answer-handle_pg_statio_query :
    (schema : List SchemaTable) → is_answer (handle_pg_statio_query schema) ≡ true
unfolding handle_pg_statio_query is_answer
is_answer-handle_pg_statio_query schema = is_answer-data_row (map statio_row schema) _

-- A catalog query has one answer, which ends with the one ReadyForQuery.
pub is_answer-handle_catalog_query :
    (ps : Patterns) (sql : Bytes) (schema : List SchemaTable) (sources : List DataSource)
    → is_answer (handle_catalog_query ps sql schema sources) ≡ true
unfolding handle_catalog_query catalog_cases is_answer handle_pg_namespace_query send_empty_result
    handle_info_schema_columns handle_info_schema_tables handle_pg_attribute handle_pg_class_query
is_answer-handle_catalog_query ps sql schema sources =
    All-choose (λ ms. is_answer ms ≡ true) (catalog_cases ps sql (normalize sql) schema sources)
      (send_empty_result (codes "name" ∷ []))
      (
        is_answer-handle_pg_database_query sources,
        (
          is_answer-handle_pg_statio_query schema,
          (
            is_answer-send_listing sql _ _,
            (
              is_answer-send_listing sql _ _,
              (
                is_answer-send_listing sql _ _,
                (
                  is_answer-send_listing sql _ _,
                  (refl, (refl, (refl, (is_answer-send_listing sql _ _, tt)))),
                ),
              ),
            ),
          ),
        ),
      )
      refl
