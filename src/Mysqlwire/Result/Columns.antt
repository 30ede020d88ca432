-- ===== src/Mysqlwire/Result/Columns.antt =====
-- internal/mysqlwire/query.go, `buildResult`: go-mysql refuses a result whose column has values of two
-- types, and takes a column's type from its values.
use redash_wire.Common.{
  suc, Bool, true, not, Option, none, some, List, [], ◌∷◌, map, length, any, all, ◌≡◌, ◌≢◌, refl,
  ap, Bool-cases, inl, inr, All, all-All, All-map, All-mono, All-intro, All-zip, any-All,
}
use redash_wire.Common.Numerals.{ℤ}
use redash_wire.Common.Text.{Bytes, codes, equal, to_lower, trim_space, has_prefix}
use redash_wire.Pgwire.Query.Result.{
  Value, null, bool_value, number_value, text_value, json_value, Row, Column, QueryResult, cell,
}
use redash_wire.Mysqlwire.{Cell, null_cell, int_cell, float_cell, text_cell, Answer, result_set}
use redash_wire.Mysqlwire.Value.{
  Floats, ColKind, kind_string, kind_int, kind_float, kind_bool, as_int64, as_exact_float64,
  convert_value, convert_plain, or_text, int_found, float_found,
}
use redash_wire.Mysqlwire.Result.{
  is_nested, found, int_or_null, float_or_null, column_kind, row_value, row_values, write_words,
  column_names, result_of_rows, build_result,
}

-- The cells of the one type that a kind stands for.
abbrev pub OfKind : ColKind → Cell → Type 0
OfKind k null_cell = Unit
OfKind kind_int (int_cell _) = Unit
OfKind kind_bool (int_cell _) = Unit
OfKind kind_float (float_cell _) = Unit
OfKind kind_string (text_cell _) = Unit
OfKind _ _ = ⊥

abbrev pub RowOf : List ColKind → List Cell → Type 0
RowOf [] [] = Unit
RowOf (k ∷ ks) (c ∷ cs) = OfKind k c × RowOf ks cs
RowOf _ _ = ⊥

-- The values that a kind has a cell of its type for.
abbrev fits : Floats → ColKind → Value → Bool
fits floats kind_string v = true
fits floats kind_bool v = not (is_nested v)
fits floats kind_int v = int_or_null v
fits floats kind_float v = float_or_null floats v

OfKind-int :
    (o : Option ℤ) (v : Value) (t : Bytes)
    → found o ≡ true
    → OfKind kind_int (or_text (int_found o) v t)
OfKind-int none v t h = cc
OfKind-int (some n) v t h = tt

OfKind-float :
    (o : Option Bytes) (v : Value) (t : Bytes)
    → found o ≡ true
    → OfKind kind_float (or_text (float_found o) v t)
OfKind-float none v t h = cc
OfKind-float (some f) v t h = tt

OfKind-convert_plain :
    (floats : Floats) (v : Value) (t : Bytes) (k : ColKind)
    → v ≢ null
    → fits floats k v ≡ true
    → OfKind k (convert_plain floats v t k)
unfolding convert_plain
OfKind-convert_plain floats null t k n h = absurd (n refl)
OfKind-convert_plain floats v t kind_string n h = tt
OfKind-convert_plain floats v t kind_bool n h = tt
OfKind-convert_plain floats (number_value s) t kind_int n h =
    OfKind-int (as_int64 (number_value s)) (number_value s) t h
OfKind-convert_plain floats v t kind_int n h = OfKind-int (as_int64 v) v t h
OfKind-convert_plain floats v t kind_float n h = OfKind-float (as_exact_float64 floats v) v t h

OfKind-row_value :
    (floats : Floats) (v : Value) (t : Bytes) (k : ColKind)
    → fits floats k v ≡ true
    → OfKind k (row_value floats v t k)
unfolding row_value convert_value as_int64 as_exact_float64
OfKind-row_value floats null t k h = tt
OfKind-row_value floats (json_value s) t kind_string h = tt
OfKind-row_value floats (json_value s) t kind_bool h = cc
OfKind-row_value floats (json_value s) t kind_int h = cc
OfKind-row_value floats (json_value s) t kind_float h = cc
OfKind-row_value floats (bool_value b) t k h =
    OfKind-convert_plain floats (bool_value b) t k (λ e. cc) h
OfKind-row_value floats (number_value s) t k h =
    OfKind-convert_plain floats (number_value s) t k (λ e. cc) h
OfKind-row_value floats (text_value s) t k h =
    OfKind-convert_plain floats (text_value s) t k (λ e. cc) h

-- Every value of a column fits the kind chosen for it.
abbrev FitsAll : Floats → ColKind → Column → List Row → Type 0
FitsAll floats k col rows = All (λ (row : Row). fits floats k (cell col.name row) ≡ true) rows

fits_text : (floats : Floats) (col : Column) (rows : List Row) → FitsAll floats kind_string col rows
fits_text floats col rows =
    All-intro (λ row. fits floats kind_string (cell col.name row) ≡ true) rows (λ row. refl)

fits-column_kind :
    (floats : Floats) (col : Column) (rows : List Row)
    → FitsAll floats (column_kind floats col rows) col rows
unfolding column_kind
fits-column_kind floats col rows = elim (Bool-cases (equal col.kind (codes "boolean"))) [
  | inl b ↦ elim (Bool-cases (any (λ row. is_nested (cell col.name row)) rows)) [
    | inl y ↦ rw (b, y) (fits_text floats col rows)
    | inr n ↦ rw (b, n) (any-All (λ row. is_nested (cell col.name row)) rows n)
  ]
  | inr b ↦ elim (Bool-cases (equal col.kind (codes "integer"))) [
    | inl i ↦ elim (Bool-cases (all (λ row. int_or_null (cell col.name row)) rows)) [
      | inl y ↦ rw (b, i, y) (all-All (λ row. int_or_null (cell col.name row)) rows y)
      | inr n ↦ rw (b, i, n) (fits_text floats col rows)
    ]
    | inr i ↦ elim (Bool-cases (equal col.kind (codes "float"))) [
      | inl f ↦ elim (Bool-cases (all (λ row. float_or_null floats (cell col.name row)) rows)) [
        | inl y ↦ rw (b, i, f, y) (all-All (λ row. float_or_null floats (cell col.name row)) rows y)
        | inr n ↦ rw (b, i, f, n) (fits_text floats col rows)
      ]
      | inr f ↦ rw (b, i, f) (fits_text floats col rows)
    ]
  ]
]

abbrev pub kinds_of : Floats → List Row → List Column → List ColKind
kinds_of floats rows = map (λ (col : Column). column_kind floats col rows)

-- A row that fits the kinds of the columns.
abbrev FitsRow : Floats → List Row → Row → List Column → Type 0
FitsRow floats rows row =
    All (λ (col : Column). fits floats (column_kind floats col rows) (cell col.name row) ≡ true)

RowOf-row_values :
    (floats : Floats) (rows : List Row) (row : Row) (columns : List Column)
    → FitsRow floats rows row columns
    → RowOf (kinds_of floats rows columns) (row_values floats rows row columns)
unfolding row_values
RowOf-row_values floats rows row [] h = tt
RowOf-row_values floats rows row (col ∷ columns) h = (
  OfKind-row_value floats (cell col.name row) col.kind (column_kind floats col rows) h.0,
  RowOf-row_values floats rows row columns h.1,
)

-- From a column's values to a row's.
FitsRow-All :
    (floats : Floats) (rows some_rows : List Row) (columns : List Column)
    → All (λ (col : Column). FitsAll floats (column_kind floats col rows) col some_rows) columns
    → All (λ row. FitsRow floats rows row columns) some_rows
FitsRow-All floats rows some_rows [] h =
    All-intro (λ row. FitsRow floats rows row []) some_rows (λ row. tt)
FitsRow-All floats rows some_rows (col ∷ columns) h =
    All-zip (λ row. fits floats (column_kind floats col rows) (cell col.name row) ≡ true)
      (λ row. FitsRow floats rows row columns) some_rows h.0
      (FitsRow-All floats rows some_rows columns h.1)

-- Every value of a result is null or of the one type of its column, and there are as many names as
-- columns.
abbrev pub IsUniform : Floats → QueryResult → Answer → Type 0
IsUniform floats result (result_set names rows) =
    (length names ≡ length result.columns)
    × All (RowOf (kinds_of floats result.rows result.columns)) rows
IsUniform floats result _ = Unit

length-column_names : (columns : List Column) → length (column_names columns) ≡ length columns
unfolding column_names
length-column_names [] = refl
length-column_names (c ∷ columns) = ap suc (length-column_names columns)

IsUniform-result_of_rows :
    (floats : Floats) (columns : List Column) (rows : List Row)
    → IsUniform floats
        (record { columns = columns; rows = rows })
        (result_of_rows floats (record { columns = columns; rows = rows }))
unfolding result_of_rows
IsUniform-result_of_rows floats [] rows = tt
IsUniform-result_of_rows floats (c ∷ cs) rows =
    let columns = c ∷ cs in
    (
      length-column_names columns,
      All-map (RowOf (kinds_of floats rows columns)) (λ row. row_values floats rows row columns)
          rows
          (All-mono (λ row. FitsRow floats rows row columns)
            (λ row. RowOf (kinds_of floats rows columns) (row_values floats rows row columns)) rows
            (λ row. RowOf-row_values floats rows row columns)
            (FitsRow-All floats rows rows columns (
              All-intro (λ (col : Column). FitsAll floats (column_kind floats col rows) col rows)
                columns (λ col. fits-column_kind floats col rows)))),
    )

-- In the result of a query every value of a column is null or of the one type that was chosen for the
-- whole column, so that go-mysql refuses no result; there is a name for every column.
pub IsUniform-build_result :
    (floats : Floats) (sql : Bytes) (result : QueryResult)
    → IsUniform floats result (build_result floats sql result)
unfolding build_result
IsUniform-build_result floats sql result =
    elim (Bool-cases (any (has_prefix (to_lower (trim_space sql))) write_words)) [
      | inl w ↦ rw w tt
      | inr r ↦ rw r (IsUniform-result_of_rows floats result.columns result.rows)
    ]
