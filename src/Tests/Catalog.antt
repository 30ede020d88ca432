-- ===== src/Tests/Catalog.antt =====
-- internal/pgwire/catalog.go at concrete inputs.
use redash_wire.Common.{ℕ, arith, true, false, none, some, List, [], ◌∷◌, map, ◌≡◌, refl}
use redash_wire.Common.Text.{Bytes, codes, equal}
use redash_wire.Redash.{SchemaTable, SchemaColumn}
use redash_wire.Pgwire.Catalog.{column_rows, handle_catalog_query}
use redash_wire.Pgwire.Catalog.Syntax.{SelCol, expr_col}
use redash_wire.Pgwire.Catalog.Columns.{requested_columns, output_names, select_list}
use redash_wire.Pgwire.Catalog.Case.{eval_cond}
use redash_wire.Pgwire.Catalog.Values.{eval_fuel, eval_expr, row_for}
use redash_wire.Pgwire.Catalog.Tables.{pg_class_lookup, pg_attribute_lookup}
use redash_wire.Pgwire.Catalog.Filter.{Patterns, admitted_tables}
use redash_wire.Pgwire.Catalog.Kinds.{
  expand_array_literal, relkind_admits_tables, table_type_admits_base_tables,
}
use redash_wire.Pgwire.Catalog.Values.Fuel.{eval_expr-fuel}
use redash_wire.Pgwire.Catalog.Fits.{rows_fit, rows_fit-handle_catalog_query}

abbrev column : Bytes → SchemaColumn
column name = record { name = name; kind = []; comment = [] }

abbrev orders : SchemaTable
orders = record { name = codes "orders"; columns = column (codes "id") ∷ column (codes "sum") ∷ [] }

abbrev users : SchemaTable
users = record { name = codes "users"; columns = column (codes "id") ∷ [] }

abbrev schema : List SchemaTable
schema = orders ∷ users ∷ []

-- A pattern that is a word matches that word.
abbrev by_word : Patterns
unfolding equal
by_word = record { compile = λ pattern. some (equal pattern) }

list_ends_at_from :
    select_list (codes "SELECT a, (select 1 from b) FROM c") ≡ some (codes "a, (select 1 from b) ")
unfolding select_list
list_ends_at_from = refl

names_asked :
    output_names (requested_columns (codes "select distinct relname, count(*) from pg_class") [])
    ≡ []
unfolding requested_columns
names_asked = refl

names_listed :
    output_names (requested_columns (codes "select c.a as \"Name\", n.b::text, f(x), c.oid id") [])
    ≡ codes "Name" ∷ codes "b" ∷ codes "f" ∷ codes "id" ∷ []
unfolding requested_columns
names_listed = refl

inner_name :
    output_names (requested_columns (codes "select b, (select q.a from t)") [])
    ≡ codes "b" ∷ codes "a" ∷ []
unfolding requested_columns
inner_name = refl

-- A literal or a quoted name at the head of the list is taken for blanks behind SELECT.
literal_lost : output_names (requested_columns (codes "select 'y', a from t") []) ≡ codes "a" ∷ []
unfolding requested_columns
literal_lost = refl

quoted_name_lost :
    output_names (requested_columns (codes "select \"a\", b from t") []) ≡ codes "b" ∷ []
unfolding requested_columns
quoted_name_lost = refl

-- A literal behind an operator is taken for blanks, but for its last byte.
comparison_lost :
    eval_cond
      (λ text. eval_expr (expr_col text) (pg_class_lookup 0 orders))
      (codes " relkind = 'r' ")
    ≡ false
unfolding eval_cond eval_expr expr_col pg_class_lookup
comparison_lost = refl

comparison_found :
    eval_cond (λ text. eval_expr (expr_col text) (pg_class_lookup 0 orders)) (codes " relam = 2 ")
    ≡ true
unfolding eval_cond eval_expr expr_col pg_class_lookup
comparison_found = refl

kind_shown :
    eval_expr
      (expr_col
        (codes "CASE c.relkind WHEN 'v' THEN 'view' WHEN 'r' THEN 'table' ELSE 'other' END"))
      (pg_class_lookup 0 orders)
    ≡ some (codes "table")
unfolding eval_expr expr_col pg_class_lookup
kind_shown = refl

condition_shown :
    eval_expr
      (expr_col (codes "case when relname not in ('a', 'b') then 1 else 2 end"))
      (pg_class_lookup 0 orders)
    ≡ some (codes "1")
unfolding eval_expr expr_col pg_class_lookup
condition_shown = refl

unknown_shown : eval_expr (expr_col (codes "c.relacl")) (pg_class_lookup 0 orders) ≡ none
unfolding eval_expr expr_col pg_class_lookup
unknown_shown = refl

relation_name :
    eval_expr (expr_col (codes "c.oid::pg_catalog.regclass")) (pg_class_lookup 0 orders)
    ≡ some (codes "orders")
unfolding eval_expr expr_col pg_class_lookup
relation_name = refl

array_expanded : expand_array_literal (codes "{r, \"v\"}") ≡ codes "r" ∷ codes "v" ∷ []
unfolding expand_array_literal
array_expanded = refl

views_only :
    relkind_admits_tables (codes "select 1 from pg_class where relkind in ('v','m')") ≡ false
unfolding relkind_admits_tables
views_only = refl

any_table :
    relkind_admits_tables (codes "select 1 from pg_class where relkind = any ('{r,v}')") ≡ true
unfolding relkind_admits_tables
any_table = refl

base_tables :
    table_type_admits_base_tables (codes "select 1 where table_type <> 'base table'") ≡ false
unfolding table_type_admits_base_tables
base_tables = refl

abbrev indices : List (ℕ × SchemaTable) → List ℕ
indices ts = map (λ t. t.0) ts

named_table :
    indices (
      admitted_tables by_word
        (codes "select oid from pg_class where relname = 'ORDERS'")
        schema
        true)
    ≡ 0 ∷ []
unfolding admitted_tables
named_table = refl

table_by_oid :
    indices (
      admitted_tables by_word
        (codes "select attname from pg_attribute where attrelid = 16385")
        schema
        true)
    ≡ 1 ∷ []
unfolding admitted_tables
table_by_oid = refl

table_by_pattern :
    indices (
      admitted_tables by_word
        (codes "select oid from pg_class c where c.relname OPERATOR(pg_catalog.~) 'users'")
        schema
        true)
    ≡ 1 ∷ []
unfolding admitted_tables equal
table_by_pattern = refl

other_schema :
    indices (admitted_tables by_word (codes "select 1 where nspname = 'sales'") schema true) ≡ []
unfolding admitted_tables
other_schema = refl

outer_join_kept :
    indices (
      admitted_tables by_word
        (codes "select 1 from pg_class left join pg_index on true")
        schema
        true)
    ≡ 0 ∷ 1 ∷ []
unfolding admitted_tables
outer_join_kept = refl

inner_join_empty :
    indices (
      admitted_tables by_word
        (codes "select 1 from pg_class join pg_catalog.pg_index on true")
        schema
        true)
    ≡ []
unfolding admitted_tables
inner_join_empty = refl

columns_listed :
    column_rows by_word
      (codes "select attname, attnum from pg_attribute where attrelid = '16384'")
      schema
      (requested_columns (codes "select attname, attnum from pg_attribute") [])
      true
    ≡ (some (codes "id") ∷ some (codes "1") ∷ [])
      ∷ (some (codes "sum") ∷ some (codes "2") ∷ [])
      ∷ []
unfolding column_rows requested_columns row_for pg_attribute_lookup admitted_tables
columns_listed = refl

rows_fit-handle_catalog_query_example :
    rows_fit 0
      (handle_catalog_query by_word (codes "select relname, relkind from pg_class") schema [])
    ≡ true
rows_fit-handle_catalog_query_example =
    rows_fit-handle_catalog_query by_word (codes "select relname, relkind from pg_class") schema []

abbrev kind_case : SelCol
kind_case = record {
  output = codes "kind";
  expr = codes "case when relam = 2 then relname end";
  cast = [];
}

eval_expr-fuel_example :
    eval_fuel 99 (pg_class_lookup 0 orders) kind_case
    ≡ eval_expr kind_case (pg_class_lookup 0 orders)
eval_expr-fuel_example = eval_expr-fuel 99 (pg_class_lookup 0 orders) kind_case (omega arith)

heap_named : eval_expr kind_case (pg_class_lookup 0 orders) ≡ some (codes "orders")
unfolding eval_expr pg_class_lookup
heap_named = refl
