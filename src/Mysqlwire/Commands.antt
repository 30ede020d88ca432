-- ===== src/Mysqlwire/Commands.antt =====
-- internal/mysqlwire/handler.go: the commands of a session. What Redash answers, and what else is read
-- from outside while a command is handled, is the command's `World`.
pub mod ReadOnly
pub mod Gated
pub mod Errors
use redash_wire.Common.{
  ℕ, Bool, true, false, not, ◌&&◌, ◌||◌, Option, none, some, List, [], ◌∷◌, ◌++◌, ◌==◌, any, drop,
  if◌then◌else◌, choose,
}
use redash_wire.Common.Text.{
  Bytes, codes, equal, to_lower, trim_space, trim_left, trim_right, has_prefix,
}
use redash_wire.Redash.{SchemaTable, Err}
use redash_wire.Redash.Registry.{filter_by_type, is_my_sql_compatible}
use redash_wire.Redash.SchemaCache.{Fetched, schema_ok, schema_err, get}
use redash_wire.Health.Gate.{Gate, suspect_redash}
use redash_wire.Health.Checker.{suspicious}
use redash_wire.Sqltext.Mask.{mysql}
use redash_wire.Sqltext.Statements.{is_multi_statement}
use redash_wire.Sqltext.Verb.{write_verb}
use redash_wire.Pgwire.Query.Result.{QueryResult}
use redash_wire.Mysqlwire.{
  MyError, er_unknown_error, er_no_db_error, er_option_prevents_statement, er_query_interrupted,
  er_unknown_com_error, Answer, nothing, refused_with,
}
use redash_wire.Mysqlwire.Handler.{Handler, use_db, gate_error}
use redash_wire.Mysqlwire.Kill.{
  Kill, kill_error, kill, parse_kill, ConnTable, KillEffect, handle_kill,
}
use redash_wire.Mysqlwire.Local.{is_local_query, handle_local_query}
use redash_wire.Mysqlwire.Local.Session.{LocalSession}
use redash_wire.Mysqlwire.Result.{build_result}
use redash_wire.Mysqlwire.Strip.{strip_db_qualifier}
use redash_wire.Mysqlwire.Value.{Floats}

-- What `ExecuteQuery` returns.
pub data Executed : Type 0 where
  executed_ok : QueryResult → Executed
  executed_err : Err → Executed

-- The outside during one command: the gate as the command meets it, and whether it is open when the
-- schema is fetched; what the fetch and the query come to, whether the query's context had ended then,
-- and the session's; the table of connections.
pub record World : Type 0 where
  pub gate : Gate
  pub up_at_fetch : Bool
  pub schema : Fetched
  pub result : Executed
  pub query_ended : Bool
  pub session_ended : Bool
  pub conns : ConnTable

-- What Redash is asked, and what a KILL does.
pub data Call : Type 0 where
  fetch_schema : ℕ → Call
  execute_query : Bytes → ℕ → Call
  kill_effect : KillEffect → Call

abbrev pub Step : Type 0
Step = Handler × Answer × List Call

abbrev pub unknown_error : Bytes → MyError
unknown_error message = record { code = er_unknown_error; message = message }

abbrev pub multi_message : Bytes
multi_message = codes "multi-statement queries are not supported; send one statement per request"

abbrev pub no_db_error : MyError
no_db_error = record {
  code = er_no_db_error;
  message =
      codes
        "No database selected; use USE <database> (SHOW DATABASES to list available data sources)";
}

abbrev pub read_only_error : MyError
read_only_error = record {
  code = er_option_prevents_statement;
  message =
      codes
        "The MySQL server is running with the --read-only option so it cannot execute this statement (redash-wire is in read-only mode for this profile; only reads reach Redash. Set read_only: false in the config to allow writes.)";
}

abbrev pub interrupted_error : MyError
interrupted_error = record {
  code = er_query_interrupted;
  message = codes "Query execution was interrupted";
}

abbrev fetched_tables : Fetched → List SchemaTable
fetched_tables (schema_ok tables) = tables
fetched_tables (schema_err e) = []

-- `getSchema`
unfoldable pub session_tables : Handler → World → Handler × List SchemaTable × List Call
unfolding get
session_tables h w =
    if h.data_source_id == 0
    then (h, [], [])
    else if not w.up_at_fetch
    then (h, [], [])
    else (let (cache, r, fetched) = get h.schema_cache w.schema in
        (
          record h { schema_cache = cache },
          fetched_tables r,
          if fetched then fetch_schema h.data_source_id ∷ [] else [],
        ))

unfoldable pub local_session : Floats → Handler → List SchemaTable → LocalSession
unfolding filter_by_type is_my_sql_compatible
local_session floats h tables = record {
  db_name = h.db_name;
  conn_id = h.conn_id;
  sources = filter_by_type h.registry.all is_my_sql_compatible;
  schema = tables;
  read_only = h.read_only;
  floats = floats;
}

unfoldable pub local_query : Floats → World → Handler → Bytes → Step
unfolding handle_local_query local_session
local_query floats w h query =
    let (h', tables, calls) = session_tables h w in
    (h', handle_local_query query (local_session floats h tables), calls)

-- `executeRemote`: a failure is an interruption where the query's context had ended and the session's
-- had not.
pub data Remote : Type 0 where
  remote_ok : QueryResult → Remote
  interrupted : Remote
  remote_err : Err → Remote

unfoldable pub execute_remote : World → Remote
execute_remote w = elim w.result [
  | executed_ok r ↦ remote_ok r
  | executed_err e ↦ if w.query_ended && not w.session_ended then interrupted else remote_err e
]

abbrev pub failed_message : Bytes
failed_message = codes "query execution failed (see proxy logs for details)"

-- What the client is told of an error: the message of a query's own error, and nothing of another.
unfoldable pub error_text : Err → Bytes
error_text e = elim e.query_error [ none ↦ failed_message | some message ↦ message ]

unfoldable pub answer_remote : Floats → Handler → Bytes → Remote → Handler × Answer
unfolding build_result suspicious suspect_redash error_text
answer_remote floats h query (remote_ok r) = (h, build_result floats query r)
answer_remote floats h query interrupted = (h, refused_with interrupted_error)
answer_remote floats h query (remote_err e) = (
  if suspicious (some e) then record h { gate = suspect_redash h.gate } else h,
  refused_with (unknown_error (error_text e)),
)

unfoldable pub run_query : Floats → World → Handler → Bytes → Step
unfolding strip_db_qualifier execute_remote answer_remote
run_query floats w h query =
    let sent = strip_db_qualifier h.db_name query in
    let (h', answer) = answer_remote floats h sent (execute_remote w) in
    (h', answer, execute_query sent h.data_source_id ∷ [])

-- The part from the read-only test on.
unfoldable pub guarded_query : Floats → World → Handler → Bytes → Step
unfolding write_verb run_query
guarded_query floats w h query =
    if h.read_only && not (equal (write_verb mysql query) [])
    then (h, refused_with read_only_error, [])
    else run_query floats w h query

-- The answer to a change of the database: an error, or OK.
abbrev pub changed : Handler × Option MyError → Step
changed (h, none) = (h, nothing, [])
changed (h, some e) = (h, refused_with e, [])

-- "`;\"'"
abbrev is_quote : ℕ → Bool
is_quote c = c == b'`' || (c == b';' || (c == b'"' || c == b'\''))

unfoldable pub use_statement : Handler → Bytes → Step
unfolding use_db trim_space trim_left trim_right
use_statement h query =
    changed (use_db h (trim_right is_quote (trim_left is_quote (trim_space (drop 4 query)))))

-- The tests behind the one for KILL in their order, each with what it does.
unfoldable pub open_cases : Floats → World → Handler → Bytes → List (Bool × Step)
unfolding to_lower has_prefix use_statement is_local_query local_query
open_cases floats w h query =
    (not h.gate.up, (h, refused_with (gate_error h.gate), []))
    ∷ (has_prefix (to_lower query) (codes "use "), use_statement h query)
    ∷ (is_local_query query, local_query floats w h query)
    ∷ (h.data_source_id == 0, (h, refused_with no_db_error, []))
    ∷ []

abbrev kill_calls : List KillEffect → List Call
kill_calls [] = []
kill_calls (e ∷ effects) = kill_effect e ∷ kill_calls effects

abbrev pub kill_answer : Handler → Option MyError × List KillEffect → Step
kill_answer h (none, effects) = (h, nothing, kill_calls effects)
kill_answer h (some e, effects) = (h, refused_with e, kill_calls effects)

-- From the test for KILL on.
unfoldable pub kill_or_query : Floats → World → Handler → Bytes → Option Kill → Step
unfolding handle_kill open_cases guarded_query
kill_or_query floats w h query (some (kill_error e)) = (h, refused_with e, [])
kill_or_query floats w h query (some (kill id query_only)) =
    kill_answer h (handle_kill w.conns id query_only)
kill_or_query floats w h query none =
    choose (open_cases floats w h query) (guarded_query floats w h query)

unfoldable pub handle_trimmed : Floats → World → Handler → Bytes → Step
unfolding equal is_multi_statement parse_kill kill_or_query
handle_trimmed floats w h query =
    if equal query []
    then (h, nothing, [])
    else if is_multi_statement mysql query
    then (h, refused_with (unknown_error multi_message), [])
    else kill_or_query floats w h query (parse_kill query)

unfoldable pub handle_query : Floats → World → Handler → Bytes → Step
unfolding trim_space handle_trimmed
handle_query floats w h query = handle_trimmed floats w h (trim_space query)

-- What go-mysql calls on the handler for a command of the client.
pub data Command : Type 0 where
  query : Bytes → Command
  init_db : Bytes → Command
  field_list : Command
  stmt_prepare : Command
  stmt_execute : Command
  stmt_close : Command
  other_command : Command

abbrev pub unsupported : Handler → MyError → Step
unsupported h e = (h, refused_with e, [])

unfoldable pub handle_command : Floats → World → Handler → Command → Step
unfolding handle_query use_db
handle_command floats w h (query sql) = handle_query floats w h sql
handle_command floats w h (init_db name) = changed (use_db h name)
handle_command floats w h field_list =
    unsupported h (unknown_error (codes "COM_FIELD_LIST is not supported"))
handle_command floats w h stmt_prepare =
    unsupported h (unknown_error (codes "prepared statements are not supported"))
handle_command floats w h stmt_execute =
    unsupported h (unknown_error (codes "prepared statements are not supported"))
handle_command floats w h stmt_close = (h, nothing, [])
handle_command floats w h other_command =
    unsupported h (record { code = er_unknown_com_error; message = codes "unsupported command" })

-- A session over the commands of its client: the handler, the answers, and the calls.
unfoldable pub serve : Floats → Handler → List (World × Command) → Handler × List Answer × List Call
unfolding handle_command
serve floats h [] = (h, [], [])
serve floats h ((w, c) ∷ rest) =
    let (h', answer, calls) = handle_command floats w (record h { gate = w.gate }) c in
    let (last, answers, later) = serve floats h' rest in (last, answer ∷ answers, calls ++ later)
