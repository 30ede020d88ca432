-- ===== src/Redash/Client.antt =====
-- internal/redash/client.go: the answers of the API, as their JSON decodes, and what the client makes
-- of them. A part of an answer that is decoded later (`json.RawMessage`) is given by the shapes that
-- the code tries on it. The library of HTTP is the answers themselves.
pub mod SchemaJob
pub mod Requests
use redash_wire.Common.{
  ℕ, Bool, true, false, not, ◌&&◌, Option, none, some, List, [], ◌∷◌, ◌++◌, map, ◌==◌,
  if◌then◌else◌,
}
use redash_wire.Common.Text.{Bytes, codes, trim_space}
use redash_wire.Redash.{Err, SchemaColumn, SchemaTable}
use redash_wire.Redash.Job.{JobInfo, Round, JobResult, Request, poll_job}

abbrev pub error_of : Bytes → Err
error_of text = record {
  http_status = none;
  query_error = none;
  context_ended = false;
  text = text;
}

-- An `httpError`.
abbrev pub http_error : ℕ → Err
http_error code = record {
  http_status = some code;
  query_error = none;
  context_ended = false;
  text = codes "request failed";
}

-- A column of the raw schema: a JSON text (a null decodes to the empty one), an object with its
-- three fields, or anything else.
pub data RawColumn : Type 0 where
  column_text : Bytes → RawColumn
  column_object : Bytes → Bytes → Bytes → RawColumn
  column_other : RawColumn

pub record SchemaTableRaw : Type 0 where
  pub name : Bytes
  pub columns : List RawColumn

-- One round of the loop of `toSchemaTable`.
unfoldable raw_column : RawColumn → List SchemaColumn
raw_column (column_text s) = record { name = s; kind = []; comment = [] } ∷ []
raw_column (column_object name kind description) =
    record { name = name; kind = kind; comment = description } ∷ []
raw_column column_other = []

raw_columns : List RawColumn → List SchemaColumn
raw_columns [] = []
raw_columns (c ∷ cs) = raw_column c ++ raw_columns cs

unfoldable pub to_schema_table : SchemaTableRaw → SchemaTable
unfolding raw_columns raw_column
to_schema_table r = record { name = r.name; columns = raw_columns r.columns }

-- A JSON value under the key "error": absent, null, a text, or anything else as it is written.
pub data RawError : Type 0 where
  error_absent : RawError
  error_null : RawError
  error_text_of : Bytes → RawError
  error_raw : Bytes → RawError

unfoldable pub error_text : RawError → Bytes
unfolding trim_space
error_text error_absent = []
error_text error_null = []
error_text (error_text_of s) = s
error_text (error_raw raw) = trim_space raw

-- `len(e.Error) > 0 && string(e.Error) != "null"`
unfoldable pub has_error : RawError → Bool
has_error error_absent = false
has_error error_null = false
has_error _ = true

-- What came of asking for a schema.
pub data Tables : Type 0 where
  tables_ok : List SchemaTable → Tables
  tables_error : Err → Tables

-- `tables` on the keys "error" and "schema".
unfoldable pub tables : RawError → Option (List SchemaTableRaw) → Tables
unfolding has_error error_text to_schema_table
tables error schema =
    if has_error error
    then tables_error (error_of (codes "schema request failed: " ++ error_text error))
    else elim schema [
      | none ↦ tables_error (error_of (codes "schema response contained no schema"))
      | some raws ↦ tables_ok (map to_schema_table raws)
    ]

-- The result of a finished schema job: none, the array of tables, an object with the keys of the
-- schema answer, or neither.
pub data RawResult : Type 0 where
  result_absent : RawResult
  result_array : List SchemaTableRaw → RawResult
  result_object : RawError → Option (List SchemaTableRaw) → RawResult
  result_other : RawResult

unfoldable pub schema_from_job_result : RawResult → Tables
unfolding tables
schema_from_job_result result_absent =
    tables_error (error_of (codes "schema job finished without a schema"))
schema_from_job_result (result_array raws) = tables error_absent (some raws)
schema_from_job_result (result_object error schema) = tables error schema
schema_from_job_result result_other = tables_error (error_of (codes "decoding schema job result"))

-- The answer to a request: the transport's error, or a status with what its body decodes to.
pub data Reply (A : Type 0) : Type 0 where
  no_reply : Err → Reply A
  replied : ℕ → Option A → Reply A

-- The body of an answer to a query: the result, a job, or neither.
pub data QueryEnvelope (R : Type 0) : Type 0 where
  query_result : R → QueryEnvelope R
  query_job : QueryEnvelope R
  query_neither : QueryEnvelope R

-- What `ExecuteQuery` returns; `query_polled` is the result of the job's loop.
pub data QueryOutcome (R : Type 0) : Type 0 where
  query_ok : R → QueryOutcome R
  query_error : Err → QueryOutcome R
  query_polled : JobResult → QueryOutcome R

module _ {R : Type 0} where
  unfoldable pub execute_query :
      Reply (QueryEnvelope R) → List (Round JobInfo) → QueryOutcome R × List Request
  execute_query (no_reply e) rounds = (query_error (error_of e.text), [])
  execute_query (replied code body) rounds =
      if not (code == 200)
      then (query_error (error_of (codes "redash API error")), [])
      else elim body [
        | none ↦ (query_error (error_of (codes "decoding response")), [])
        | some (query_result r) ↦ (query_ok r, [])
        | some query_job ↦ let (result, sent) = poll_job 0 rounds in (query_polled result, sent)
        | some query_neither ↦
            (query_error (error_of (codes "unexpected response: no query_result or job")), [])
      ]
