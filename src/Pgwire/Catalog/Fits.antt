-- ===== src/Pgwire/Catalog/Fits.antt =====
-- internal/pgwire/catalog.go: every row of a catalog answer has a value for each column it announces.
use redash_wire.Common.{
  ℕ, suc, Bool, true, ◌&&◌, Option, none, List, [], ◌∷◌, ◌++◌, map, ◌==◌, length, ◌≡◌, refl, arith,
  All, All-map, All-intro, All-append, All-choose,
}
use redash_wire.Common.Text.{Bytes, codes}
use redash_wire.Redash.{DataSource, SchemaTable, SchemaColumn}
use redash_wire.Pgwire.Message.{
  Message, row_description, data_row, text_field, send_result, send_empty_result,
}
use redash_wire.Pgwire.Query.{normalize}
use redash_wire.Pgwire.Query.Local.{handle_pg_database_query, pg_database_row}
use redash_wire.Pgwire.Catalog.Syntax.{SelCol}
use redash_wire.Pgwire.Catalog.Columns.{requested_columns, output_names}
use redash_wire.Pgwire.Catalog.Values.{Lookup, eval_expr, row_for}
use redash_wire.Pgwire.Catalog.Filter.{Patterns, admitted_tables}
use redash_wire.Pgwire.Catalog.Kinds.{relkind_admits_tables}
use redash_wire.Pgwire.Catalog.{
  send_listing, handle_info_schema_tables, handle_info_schema_columns, handle_pg_attribute,
  handle_pg_class_query, handle_pg_namespace_query, handle_pg_statio_query, statio_row,
  row_of_table, rows_of_columns, rows_of_tables, column_rows, catalog_cases, handle_catalog_query,
}

-- Rows have the width of the fields announced before them, at first so many.
unfoldable pub rows_fit : ℕ → List Message → Bool
rows_fit w [] = true
rows_fit w (row_description fields ∷ ms) = rows_fit (length fields) ms
rows_fit w (data_row values ∷ ms) = length values == w && rows_fit w ms
rows_fit w (_ ∷ ms) = rows_fit w ms

length-map {ℓ κ} :
    {A : Type ℓ} {B : Type κ} (f : A → B) (xs : List A) → length (map f xs) ≡ length xs
length-map f [] = refl
length-map f (x ∷ xs) = omega (arith, length-map f xs)

-- As many values as columns.
HasWidth : ℕ → List (Option Bytes) → Type 0
HasWidth w row = length row ≡ w

rows_fit-rows :
    (w : ℕ) (rows : List (List (Option Bytes))) (ms : List Message)
    → All (HasWidth w) rows
    → rows_fit w (map data_row rows ++ ms) ≡ rows_fit w ms
unfolding rows_fit HasWidth
rows_fit-rows w [] ms h = refl
rows_fit-rows w (row ∷ rows) ms h =
    let rest = rows_fit-rows w rows ms h.1 in let here = h.0 in grind arith

rows_fit-send_result :
    (columns : List Bytes) (rows : List (List (Option Bytes)))
    → All (HasWidth (length columns)) rows
    → rows_fit 0 (send_result columns rows) ≡ true
unfolding send_result rows_fit
rows_fit-send_result columns rows h =
    rows_fit-rows (length (map text_field columns)) rows _ (rw (length-map text_field columns) h)

rows_fit-send_listing :
    (sql : Bytes) (defaults : List SelCol) (rows : List SelCol → List (List (Option Bytes)))
    → ((cols : List SelCol) → All (HasWidth (length cols)) (rows cols))
    → rows_fit 0 (send_listing sql defaults rows) ≡ true
unfolding send_listing
rows_fit-send_listing sql defaults rows h =
    let cols = requested_columns sql defaults in
    rows_fit-send_result (output_names cols) (rows cols)
      (rw (length-map (λ c. c.output) cols) (h cols))

HasWidth-row_for : (cols : List SelCol) (get : Lookup) → HasWidth (length cols) (row_for cols get)
unfolding HasWidth row_for
HasWidth-row_for cols get = length-map (λ c. eval_expr c get) cols

HasWidth-nulls : (cols : List SelCol) → HasWidth (length cols) (map (λ _. none) cols)
unfolding HasWidth
HasWidth-nulls cols = length-map (λ _. none) cols

widths_of_tables :
    (cols : List SelCol) (tables : List (ℕ × SchemaTable))
    → All (HasWidth (length cols)) (map (row_of_table cols) tables)
widths_of_tables cols tables =
    All-map (HasWidth (length cols)) (row_of_table cols) tables
      (All-intro _ tables (λ t. HasWidth-row_for cols _))

widths_of_columns :
    (cols : List SelCol) (i : ℕ) (t : SchemaTable) (ordinal : ℕ) (columns : List SchemaColumn)
    → All (HasWidth (length cols)) (rows_of_columns cols i t ordinal columns)
unfolding rows_of_columns
widths_of_columns cols i t ordinal [] = tt
widths_of_columns cols i t ordinal (c ∷ columns) =
    (HasWidth-row_for cols _, widths_of_columns cols i t (suc ordinal) columns)

widths_of_rows :
    (cols : List SelCol) (tables : List (ℕ × SchemaTable))
    → All (HasWidth (length cols)) (rows_of_tables cols tables)
unfolding rows_of_tables
widths_of_rows cols [] = tt
widths_of_rows cols ((i, t) ∷ tables) =
    All-append (HasWidth (length cols)) (rows_of_columns cols i t 1 t.columns)
      (rows_of_tables cols tables) (widths_of_columns cols i t 1 t.columns)
      (widths_of_rows cols tables)

widths_of_column_rows :
    (ps : Patterns) (sql : Bytes) (schema : List SchemaTable) (cols : List SelCol) (kind_ok : Bool)
    → All (HasWidth (length cols)) (column_rows ps sql schema cols kind_ok)
unfolding column_rows
widths_of_column_rows ps sql schema cols kind_ok =
    widths_of_rows cols (admitted_tables ps sql schema kind_ok)

rows_fit-handle_pg_statio_query :
    (schema : List SchemaTable) → rows_fit 0 (handle_pg_statio_query schema) ≡ true
unfolding handle_pg_statio_query rows_fit statio_row HasWidth
rows_fit-handle_pg_statio_query schema =
    rows_fit-rows 5 (map statio_row schema) _
      (All-map (HasWidth 5) statio_row schema (All-intro _ schema (λ t. refl)))

rows_fit-handle_pg_database_query :
    (sources : List DataSource) → rows_fit 0 (handle_pg_database_query sources) ≡ true
unfolding handle_pg_database_query rows_fit pg_database_row HasWidth
rows_fit-handle_pg_database_query sources =
    rows_fit-rows 4 (map pg_database_row sources) _
      (All-map (HasWidth 4) pg_database_row sources (All-intro _ sources (λ t. refl)))

-- Whatever the catalog query, the tables and the data sources, every row of the answer has exactly one
-- value for each column that the answer announces.
pub rows_fit-handle_catalog_query :
    (ps : Patterns) (sql : Bytes) (schema : List SchemaTable) (sources : List DataSource)
    → rows_fit 0 (handle_catalog_query ps sql schema sources) ≡ true
unfolding handle_catalog_query catalog_cases rows_fit handle_pg_namespace_query send_empty_result
    handle_info_schema_columns handle_info_schema_tables handle_pg_attribute handle_pg_class_query
rows_fit-handle_catalog_query ps sql schema sources =
    All-choose (λ ms. rows_fit 0 ms ≡ true) (catalog_cases ps sql (normalize sql) schema sources)
      (send_empty_result (codes "name" ∷ []))
      (
        rows_fit-handle_pg_database_query sources,
        (
          rows_fit-handle_pg_statio_query schema,
          (
            rows_fit-send_listing sql _ _ (λ cols. widths_of_column_rows ps sql schema cols true),
            (
              rows_fit-send_listing sql _ _ (λ cols. widths_of_tables cols _),
              (
                rows_fit-send_listing sql _ _
                    (λ cols. widths_of_column_rows ps sql schema cols (relkind_admits_tables sql)),
                (
                  rows_fit-send_listing sql _ _ (λ cols. widths_of_tables cols _),
                  (
                    refl,
                    (
                      refl,
                      (
                        refl,
                        (rows_fit-send_listing sql _ _ (λ cols. (HasWidth-nulls cols, tt)), tt),
                      ),
                    ),
                  ),
                ),
              ),
            ),
          ),
        ),
      )
      refl
