-- ===== src/Proxy/Session.antt =====
-- internal/proxy/session.go. What a session asks of Redash is its second log; what Redash answers, and
-- what else the session reads from outside while it handles a query, is the query's `World`. A write
-- to the client that fails ends the session, so the writes here succeed.
pub mod Frame
pub mod Pipeline
pub mod ReadOnly
pub mod Gated
use redash_wire.Common.{
  ℕ, suc, Bool, true, false, not, ◌&&◌, ◌||◌, Option, none, some, List, [], ◌∷◌, ◌++◌, ◌==◌,
  if◌then◌else◌, choose,
}
use redash_wire.Common.Text.{Bytes, codes, equal, trim_space}
use redash_wire.Redash.{DataSource, SchemaTable, Err}
use redash_wire.Redash.Registry.{DataSourceRegistry, lookup, filter_by_type, is_postgres_compatible}
use redash_wire.Redash.SchemaCache.{SchemaCache, Fetched, schema_ok, schema_err, get}
use redash_wire.Health.Gate.{Gate, suspect_redash, client_message}
use redash_wire.Health.Checker.{suspicious}
use redash_wire.Sqltext.Mask.{postgres}
use redash_wire.Sqltext.Statements.{is_multi_statement}
use redash_wire.Sqltext.Verb.{write_verb}
use redash_wire.Pgwire.Message.{
  Message, error_response, send_error, send_error_code, send_empty_query, send_ready_for_query,
}
use redash_wire.Pgwire.Query.{is_local_query, is_catalog_query}
use redash_wire.Pgwire.Query.Local.{
  Params, param, LocalSession, handle_local_query, read_only_hint, sql_state_read_only,
}
use redash_wire.Pgwire.Query.Result.{QueryResult, Times, send_query_result}
use redash_wire.Pgwire.Catalog.Filter.{Patterns}
use redash_wire.Pgwire.Catalog.{handle_catalog_query}
use redash_wire.Pgwire.Rewrite.{rewrite_timestamp_comparisons}

pub record Session : Type 0 where
  pub registry : DataSourceRegistry
  pub gate : Gate
  pub listen_addr : Bytes
  pub read_only : Bool
  pub data_source_id : ℕ
  pub ds_type : Bytes
  pub params : Params
  pub process_id : ℕ
  pub extended_err : Bool
  pub schema_cache : SchemaCache

pub data Executed : Type 0 where
  executed_ok : QueryResult → Executed
  executed_err : Err → Executed

-- The outside during one query: whether the gate is still open when the schema is fetched, what the
-- fetch and the query come to, and the time.
pub record World : Type 0 where
  pub up_at_fetch : Bool
  pub schema : Fetched
  pub result : Executed
  pub now : Bytes

pub data RedashCall : Type 0 where
  get_schema : ℕ → RedashCall
  execute_query : Bytes → ℕ → RedashCall

-- The state, what the client is sent, and what Redash is asked.
abbrev pub Step : Type 0
Step = Session × List Message × List RedashCall

-- The choice of the data source in `serve`.
unfoldable pub select_source : Session → Params → Session
unfolding param lookup is_postgres_compatible
select_source s params =
    let named = param (codes "database") params in
    let db_name = if equal named [] then param (codes "user") params else named in
    let s1 = record s { params = params } in
    elim (lookup s.registry db_name) [
      | none ↦ s1
      | some ds ↦
          if is_postgres_compatible ds.kind
          then record s1 { data_source_id = ds.id; ds_type = ds.kind }
          else s1
    ]

-- `admit`: none lets the client in.
unfoldable pub admit : Session → Session × Option Bytes
unfolding suspect_redash client_message
admit s =
    if s.gate.up
    then (s, none)
    else (record s { gate = suspect_redash s.gate }, some (client_message s.gate))

-- The schema of an answer of the cache; an error is nil.
unfoldable pub fetched_schema : Fetched → List SchemaTable
fetched_schema (schema_ok tables) = tables
fetched_schema (schema_err e) = []

unfoldable pub session_schema : Session → World → Session × List SchemaTable × List RedashCall
unfolding get fetched_schema
session_schema s w =
    if s.data_source_id == 0
    then (s, [], [])
    else if not w.up_at_fetch
    then (s, [], [])
    else (let (cache, r, fetched) = get s.schema_cache w.schema in
        (
          record s { schema_cache = cache },
          fetched_schema r,
          if fetched then get_schema s.data_source_id ∷ [] else [],
        ))

abbrev pub no_source_message : Bytes
no_source_message =
    codes
      "no data source selected; connect with a valid database name (use SELECT datname FROM pg_database to list available data sources)"

abbrev pub multi_message : Bytes
multi_message = codes "multi-statement queries are not supported; send one statement per request"

abbrev pub failed_message : Bytes
failed_message = codes "query execution failed (see proxy logs for details)"

-- What the client is told of an error: the message of a query's own error, and nothing of another.
unfoldable pub error_message : Err → Bytes
error_message e = elim e.query_error [ none ↦ failed_message | some message ↦ message ]

-- The part of `handleQuery` behind the call of Redash.
unfoldable pub answer_executed : Times → Session → Bytes → Executed → Session × List Message
unfolding send_query_result suspicious suspect_redash send_error error_message
answer_executed times s sql (executed_ok result) = (s, send_query_result times sql result)
answer_executed times s sql (executed_err e) = (
  if suspicious (some e) then record s { gate = suspect_redash s.gate } else s,
  send_error (error_message e),
)

unfoldable pub run_query : Times → World → Session → Bytes → Step
run_query times w s sql =
    let sent =
      if is_postgres_compatible s.ds_type then rewrite_timestamp_comparisons sql else sql in
    let (s', messages) = answer_executed times s sent w.result in
    (s', messages, execute_query sent s.data_source_id ∷ [])

unfoldable pub refuse_write : Bytes → List Message
unfolding send_error_code
refuse_write verb =
    send_error_code sql_state_read_only
      (codes "cannot execute " ++ verb ++ codes " in a read-only transaction") read_only_hint

-- The part behind the read-only test.
unfoldable pub guarded_query : Times → World → Session → Bytes → Step
guarded_query times w s sql =
    if s.read_only && not (equal (write_verb postgres sql) [])
    then (s, refuse_write (write_verb postgres sql), [])
    else run_query times w s sql

unfoldable pub local_session : World → Session → LocalSession
unfolding filter_by_type is_postgres_compatible
local_session w s = record {
  startup_params = s.params;
  sources = filter_by_type s.registry.all is_postgres_compatible;
  listen_addr = s.listen_addr;
  read_only = s.read_only;
  backend_pid = s.process_id;
  now = w.now;
}

unfoldable pub catalog_query : Patterns → World → Session → Bytes → Step
catalog_query patterns w s sql =
    let (s', schema, calls) = session_schema s w in
    (
      s',
      handle_catalog_query patterns sql schema
          (filter_by_type s.registry.all is_postgres_compatible),
      calls,
    )

-- The tests of `handleQuery` on the trimmed text in their order, each with what it does: those behind
-- the test of the gate, and all.
unfoldable pub open_cases : Patterns → World → Session → Bytes → List (Bool × Step)
unfolding is_local_query handle_local_query local_session is_catalog_query send_error
open_cases patterns w s sql =
    (is_local_query sql, (s, handle_local_query sql (local_session w s), []))
    ∷ (is_catalog_query sql, catalog_query patterns w s sql)
    ∷ (s.data_source_id == 0, (s, send_error no_source_message, []))
    ∷ []

unfoldable pub query_cases : Patterns → World → Session → Bytes → List (Bool × Step)
unfolding send_empty_query is_multi_statement send_error suspect_redash client_message
query_cases patterns w s sql =
    (equal sql [], (s, send_empty_query, []))
    ∷ (is_multi_statement postgres sql, (s, send_error multi_message, []))
    ∷ (
      not s.gate.up,
      (record s { gate = suspect_redash s.gate }, send_error (client_message s.gate), []),
    )
    ∷ open_cases patterns w s sql

unfoldable pub handle_trimmed : Patterns → Times → World → Session → Bytes → Step
handle_trimmed patterns times w s sql =
    choose (query_cases patterns w s sql) (guarded_query times w s sql)

unfoldable pub handle_query : Patterns → Times → World → Session → Bytes → Step
handle_query patterns times w s sql = handle_trimmed patterns times w s (trim_space sql)

-- A message of the client. `extended` is Parse, Bind, Describe, Execute, Close and Flush.
pub data ClientMessage : Type 0 where
  query : Bytes → ClientMessage
  terminate : ClientMessage
  extended : ClientMessage
  sync : ClientMessage
  unsupported : ClientMessage

unfoldable pub send_extended_error : List Message
send_extended_error =
    error_response (codes "ERROR") (codes "0A000")
      (codes "extended query protocol is not supported") []
    ∷ []

-- One round of the loop of `serve`; none ends the session.
unfoldable pub serve_message : Patterns → Times → World → Session → ClientMessage → Option Step
serve_message patterns times w s (query sql) =
    some (handle_query patterns times w (record s { extended_err = false }) sql)
serve_message patterns times w s terminate = none
serve_message patterns times w s extended =
    if s.extended_err
    then some (s, [], [])
    else some (record s { extended_err = true }, send_extended_error, [])
serve_message patterns times w s sync =
    some (record s { extended_err = false }, send_ready_for_query, [])
serve_message patterns times w s unsupported =
    if s.extended_err
    then some (s, [], [])
    else some (s, send_error (codes "unsupported message type"), [])

-- The loop of `serve` over the messages of the client, each with its world.
unfoldable pub serve : Patterns → Times → Session → List (World × ClientMessage) → Step
serve patterns times s [] = (s, [], [])
serve patterns times s ((w, m) ∷ rest) = elim (serve_message patterns times w s m) [
  | none ↦ (s, [], [])
  | some (s', sent, calls) ↦
      let (last, more, later) = serve patterns times s' rest in (last, sent ++ more, calls ++ later)
]
