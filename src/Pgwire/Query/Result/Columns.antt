-- ===== src/Pgwire/Query/Result/Columns.antt =====
-- internal/pgwire/query.go: the type that a column is given, and the values it holds.
use redash_wire.Common.{
  Bool, true, false, List, [], ◌∷◌, ◌++◌, length, if◌then◌else◌, ◌≡◌, ◌⊎◌, refl, ◌∙◌,
}
use redash_wire.Common.Text.{Bytes}
use redash_wire.Pgwire.Message.{
  Message, notice_response, command_complete, ready_for_query, is_answer, is_answer-data_row,
}
use redash_wire.Pgwire.Query.Result.{
  Value, null, Row, Column, QueryResult, DatetimeKind, Times, parse_datetime, send_query_result,
  result_rows, build_data_rows, is_write_without_result_rows, counts_notice, command_tag,
  build_row_description,
}

-- A value that is missing or of the kind.
abbrev pub OfKind : Times → DatetimeKind → Value → Type 0
OfKind times k v = (v ≡ null) ⊎ (parse_datetime times v ≡ k)

is_answer-result_rows :
    (times : Times) (columns : List Column) (rows : List Row) (ms : List Message)
    → is_answer (result_rows times (record { columns = columns; rows = rows }) ++ ms) ≡ is_answer ms
unfolding result_rows is_answer build_row_description
is_answer-result_rows times [] rows ms = refl
is_answer-result_rows times (col ∷ columns) rows ms =
    is_answer-data_row (build_data_rows times (col ∷ columns) rows) ms

is_answer_notice :
    (b : Bool) (notice tag : Bytes)
    → is_answer (
        (if b then notice_response notice ∷ [] else [])
        ++ command_complete tag ∷ ready_for_query ∷ [])
      ≡ true
unfolding is_answer
is_answer_notice true notice tag = refl
is_answer_notice false notice tag = refl

-- The answer with the result of a query ends with the one ReadyForQuery.
pub is_answer-send_query_result :
    (times : Times) (sql : Bytes) (result : QueryResult)
    → is_answer (send_query_result times sql result) ≡ true
unfolding send_query_result
is_answer-send_query_result times sql result =
    is_answer-result_rows times result.columns result.rows _
    ∙ is_answer_notice (is_write_without_result_rows sql result) counts_notice
        (command_tag sql (length result.rows))
