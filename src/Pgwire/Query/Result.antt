-- ===== src/Pgwire/Query/Result.antt =====
-- internal/pgwire/types.go, rewrite.go and query.go: how the result of a query is shown. A value of a
-- row is what `json.Decoder` with `UseNumber` makes of it, an object or an array by its encoding.
-- Times are the package time's: the kind of a text by the code's layouts, and the text of a value in
-- the layout of a kind, are parameters.
pub mod Columns
use redash_wire.Common.{
  ℕ, Bool, true, false, not, ◌&&◌, ◌||◌, Option, none, some, List, [], ◌∷◌, ◌++◌, map, length, ◌==◌,
  if◌then◌else◌, choose,
}
use redash_wire.Common.Text.{Bytes, codes, equal, one_of, to_lower, trim_space, has_prefix, decimal}
use redash_wire.Pgwire.Message.{
  FieldDescription, Message, row_description, data_row, command_complete, notice_response,
  ready_for_query, select_tag,
}

pub data Value : Type 0 where
  null : Value
  bool_value : Bool → Value
  number_value : Bytes → Value
  text_value : Bytes → Value
  json_value : Bytes → Value

abbrev pub Row : Type 0
Row = List (Bytes × Value)

pub record Column : Type 0 where
  pub name : Bytes
  pub kind : Bytes

pub record QueryResult : Type 0 where
  pub columns : List Column
  pub rows : List Row

-- `row[name]`, where a missing key and a null are one.
unfoldable pub cell : Bytes → Row → Value
unfolding equal
cell name [] = null
cell name ((k, v) ∷ row) = if equal k name then v else cell name row

unfoldable pub redash_type_to_pg_oid : Bytes → ℕ
unfolding equal
redash_type_to_pg_oid t =
    choose
      ((equal t (codes "string"), 25)
        ∷ (equal t (codes "integer"), 20)
        ∷ (equal t (codes "float"), 701)
        ∷ (equal t (codes "boolean"), 16)
        ∷ (equal t (codes "datetime"), 1114)
        ∷ (equal t (codes "date"), 1082)
        ∷ (equal t (codes "json") || equal t (codes "jsonb"), 3802)
        ∷ [])
      25

-- none is -1.
unfoldable pub redash_type_to_pg_size : Bytes → Option ℕ
unfolding equal
redash_type_to_pg_size t =
    choose
      ((equal t (codes "boolean"), some 1)
        ∷ (equal t (codes "integer"), some 8)
        ∷ (equal t (codes "float"), some 8)
        ∷ (equal t (codes "date"), some 4)
        ∷ (equal t (codes "datetime"), some 8)
        ∷ [])
      none

abbrev is_json : Value → Bool
is_json (json_value _) = true
is_json _ = false

-- The loop of `columnIsJSON`.
unfoldable pub json_loop : Bool → List Row → Bytes → Bool
unfolding cell
json_loop any_complex [] name = any_complex
json_loop any_complex (row ∷ rows) name =
    let keep = json_loop any_complex rows name in
    let yes = json_loop true rows name in
    elim (cell name row) [ null ↦ keep | json_value _ ↦ yes | _ ↦ false ]

unfoldable pub column_is_json : List Row → Bytes → Bool
unfolding json_loop
column_is_json rows name = json_loop false rows name

-- `fmt.Sprintf("%v", val)`
unfoldable pub sprint : Value → Bytes
sprint null = codes "<nil>"
sprint (bool_value b) = if b then codes "true" else codes "false"
sprint (number_value s) = s
sprint (text_value s) = s
sprint (json_value s) = s

-- `s[:i]` at the first "T" or " ".
unfoldable pub date_part : Bytes → Bytes
date_part [] = []
date_part (c ∷ cs) = if c == b'T' || c == b' ' then [] else c ∷ date_part cs

unfoldable pub format_bool : Value → Bytes
unfolding to_lower equal sprint
format_bool (bool_value b) = if b then codes "t" else codes "f"
format_bool (text_value s) =
    if one_of (codes "true" ∷ codes "1" ∷ codes "t" ∷ []) (to_lower s) then codes "t" else codes "f"
format_bool v = sprint v

unfoldable pub format_value : Value → Bytes → Bytes
unfolding format_bool date_part equal sprint
format_value (json_value s) t = s
format_value v t =
    if equal t (codes "boolean")
    then format_bool v
    else if equal t (codes "date")
    then date_part (sprint v)
    else sprint v

pub data DatetimeKind : Type 0 where
  datetime_text : DatetimeKind
  datetime_naive : DatetimeKind
  datetime_aware : DatetimeKind

unfoldable pub same_datetime : DatetimeKind → DatetimeKind → Bool
same_datetime datetime_text datetime_text = true
same_datetime datetime_naive datetime_naive = true
same_datetime datetime_aware datetime_aware = true
same_datetime _ _ = false

-- What the package time does: the kind that the layouts give a text, and the text of a value that has
-- been parsed, in the layout of a kind.
pub record Times : Type 0 where
  pub kind_of : Bytes → DatetimeKind
  pub format : DatetimeKind → Bytes → Bytes

unfoldable pub parse_datetime : Times → Value → DatetimeKind
parse_datetime times (text_value s) = times.kind_of s
parse_datetime times _ = datetime_text

-- One round of the loop of `datetimeColumnKind`, on the kind so far and `seen`; none is its early
-- return.
unfoldable pub datetime_step : Times → DatetimeKind → Bool → Value → Option (DatetimeKind × Bool)
unfolding parse_datetime same_datetime
datetime_step times kind seen null = some (kind, seen)
datetime_step times kind seen v =
    let k = parse_datetime times v in
    if same_datetime k datetime_text || (seen && not (same_datetime k kind))
    then none
    else some (k, true)

unfoldable pub datetime_loop : Times → DatetimeKind → Bool → List Row → Bytes → DatetimeKind
unfolding cell datetime_step
datetime_loop times kind seen [] name = kind
datetime_loop times kind seen (row ∷ rows) name =
    elim (datetime_step times kind seen (cell name row)) [
      | none ↦ datetime_text
      | some next ↦ datetime_loop times next.0 next.1 rows name
    ]

unfoldable pub datetime_column_kind : Times → List Row → Bytes → DatetimeKind
unfolding datetime_loop
datetime_column_kind times rows name = datetime_loop times datetime_naive false rows name

unfoldable pub format_datetime : Times → Value → DatetimeKind → Bytes
unfolding parse_datetime same_datetime format_value sprint
format_datetime times v kind =
    if same_datetime kind datetime_text || same_datetime (parse_datetime times v) datetime_text
    then format_value v []
    else times.format kind (sprint v)

unfoldable pub field_of : Times → List Row → Column → FieldDescription
unfolding equal redash_type_to_pg_oid redash_type_to_pg_size column_is_json datetime_column_kind
field_of times rows col =
    if column_is_json rows col.name
    then record { name = col.name; data_type_oid = 3802; data_type_size = none }
    else if equal col.kind (codes "datetime")
    then elim (datetime_column_kind times rows col.name) [
      | datetime_aware ↦ record {
        name = col.name;
        data_type_oid = 1184;
        data_type_size = redash_type_to_pg_size col.kind;
      }
      | datetime_text ↦ record { name = col.name; data_type_oid = 25; data_type_size = none }
      | datetime_naive ↦ record {
        name = col.name;
        data_type_oid = redash_type_to_pg_oid col.kind;
        data_type_size = redash_type_to_pg_size col.kind;
      }
    ]
    else record {
      name = col.name;
      data_type_oid = redash_type_to_pg_oid col.kind;
      data_type_size = redash_type_to_pg_size col.kind;
    }

unfoldable pub build_row_description : Times → List Column → List Row → Message
unfolding field_of
build_row_description times columns rows = row_description (map (field_of times rows) columns)

-- One value of a data row.
unfoldable pub shown_value : Times → List Row → Column → Value → Option Bytes
unfolding equal format_datetime datetime_column_kind format_value
shown_value times rows col null = none
shown_value times rows col v = some (
    if equal col.kind (codes "datetime")
    then format_datetime times v (datetime_column_kind times rows col.name)
    else format_value v col.kind)

unfoldable pub data_value : Times → List Row → Row → Column → Option Bytes
unfolding cell shown_value
data_value times rows row col = shown_value times rows col (cell col.name row)

unfoldable pub build_data_rows : Times → List Column → List Row → List (List (Option Bytes))
unfolding data_value
build_data_rows times columns rows = map (λ row. map (data_value times rows row) columns) rows

unfoldable pub is_write_without_result_rows : Bytes → QueryResult → Bool
unfolding to_lower trim_space has_prefix
is_write_without_result_rows sql result =
    let lower = to_lower (trim_space sql) in
    (has_prefix lower (codes "insert")
      || has_prefix lower (codes "update")
      || has_prefix lower (codes "delete"))
    && length result.rows == 0

unfoldable pub command_tag : Bytes → ℕ → Bytes
unfolding to_lower trim_space has_prefix decimal
command_tag sql row_count =
    let lower = to_lower (trim_space sql) in
    choose
      ((has_prefix lower (codes "insert"), codes "INSERT 0 " ++ decimal row_count)
        ∷ (has_prefix lower (codes "update"), codes "UPDATE " ++ decimal row_count)
        ∷ (has_prefix lower (codes "delete"), codes "DELETE " ++ decimal row_count)
        ∷ (has_prefix lower (codes "create"), codes "CREATE TABLE")
        ∷ (has_prefix lower (codes "drop"), codes "DROP TABLE")
        ∷ (has_prefix lower (codes "alter"), codes "ALTER TABLE")
        ∷ [])
      (select_tag row_count)

abbrev pub counts_notice : Bytes
counts_notice =
    codes
      "redash-wire: Redash does not report affected-row counts; the command tag count is not accurate for writes"

-- The description and the rows, which a result without columns has not.
unfoldable pub result_rows : Times → QueryResult → List Message
unfolding build_row_description build_data_rows
result_rows times result = elim result.columns [
  | [] ↦ []
  | _ ∷ _ ↦
      build_row_description times result.columns result.rows
      ∷ map data_row (build_data_rows times result.columns result.rows)
]

unfoldable pub send_query_result : Times → Bytes → QueryResult → List Message
unfolding result_rows is_write_without_result_rows command_tag
send_query_result times sql result =
    result_rows times result
    ++ ((if is_write_without_result_rows sql result then notice_response counts_notice ∷ [] else [])
        ++ command_complete (command_tag sql (length result.rows)) ∷ ready_for_query ∷ [])
