-- ===== src/Mysqlwire/Result.antt =====
-- internal/mysqlwire/query.go, `buildResult`: the answer to a query that Redash has run.
pub mod Columns
use redash_wire.Common.{
  ℕ, Bool, true, false, not, ◌&&◌, ◌||◌, Option, none, some, List, [], ◌∷◌, map, length, any, all,
  if◌then◌else◌,
}
use redash_wire.Common.Text.{Bytes, codes, equal, to_lower, trim_space, has_prefix}
use redash_wire.Pgwire.Query.Result.{
  Value, null, bool_value, number_value, text_value, json_value, Row, Column, QueryResult, cell,
}
use redash_wire.Mysqlwire.{Cell, null_cell, Answer, affected, no_columns, result_set}
use redash_wire.Mysqlwire.Value.{
  Floats, ColKind, kind_string, kind_int, kind_float, kind_bool, as_int64, as_exact_float64,
  convert_value,
}

-- `map[string]any` or `[]any`
abbrev pub is_nested : Value → Bool
is_nested (json_value _) = true
is_nested _ = false

abbrev pub found {ℓ} : {A : Type ℓ} → Option A → Bool
found none = false
found (some _) = true

-- A null is passed over by the loops of `columnKind`.
abbrev pub int_or_null : Value → Bool
int_or_null null = true
int_or_null v = found (as_int64 v)

abbrev pub float_or_null : Floats → Value → Bool
float_or_null floats null = true
float_or_null floats v = found (as_exact_float64 floats v)

unfoldable pub column_kind : Floats → Column → List Row → ColKind
unfolding equal cell as_int64 as_exact_float64
column_kind floats col rows =
    if equal col.kind (codes "boolean")
    then (if any (λ row. is_nested (cell col.name row)) rows then kind_string else kind_bool)
    else if equal col.kind (codes "integer")
    then (if all (λ row. int_or_null (cell col.name row)) rows then kind_int else kind_string)
    else if equal col.kind (codes "float")
    then (if all (λ row. float_or_null floats (cell col.name row)) rows
        then kind_float
        else kind_string)
    else kind_string

-- One value of a row.
unfoldable pub row_value : Floats → Value → Bytes → ColKind → Cell
unfolding convert_value
row_value floats null t kind = null_cell
row_value floats v t kind = convert_value floats v t kind

unfoldable pub row_values : Floats → List Row → Row → List Column → List Cell
unfolding row_value column_kind cell
row_values floats rows row =
    map (λ (col : Column).
      row_value floats (cell col.name row) col.kind (column_kind floats col rows))

-- The first words that `buildResult` takes for writes.
abbrev pub write_words : List Bytes
write_words =
    codes "insert"
    ∷ codes "update"
    ∷ codes "delete"
    ∷ codes "create"
    ∷ codes "drop"
    ∷ codes "alter"
    ∷ []

unfoldable pub column_names : List Column → List Bytes
column_names = map (λ (col : Column). col.name)

unfoldable pub result_of_rows : Floats → QueryResult → Answer
unfolding row_values column_names
result_of_rows floats result = elim result.columns [
  | [] ↦ no_columns
  | _ ∷ _ ↦
      result_set (column_names result.columns)
        (map (λ row. row_values floats result.rows row result.columns) result.rows)
]

unfoldable pub build_result : Floats → Bytes → QueryResult → Answer
unfolding to_lower trim_space has_prefix result_of_rows
build_result floats sql result =
    if any (has_prefix (to_lower (trim_space sql))) write_words
    then affected (length result.rows)
    else result_of_rows floats result
