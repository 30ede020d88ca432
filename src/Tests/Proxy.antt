-- ===== src/Tests/Proxy.antt =====
-- internal/proxy at concrete inputs.
use redash_wire.Common.{
  ℕ, Bool, true, false, Option, none, some, List, [], ◌∷◌, ◌++◌, take, ◌≡◌, ◌↔◌, refl, All,
}
use redash_wire.Common.Text.{Bytes, codes}
use redash_wire.Redash.Registry.{new_data_source_registry}
use redash_wire.Redash.SchemaCache.{new_schema_cache, schema_ok}
use redash_wire.Health.Gate.{kind_unreachable, new_gate, fail}
use redash_wire.Pgwire.Message.{is_answer}
use redash_wire.Pgwire.Query.Result.{Times, datetime_text}
use redash_wire.Pgwire.Catalog.Filter.{Patterns}
use redash_wire.Proxy.Session.{
  Session, World, executed_ok, executed_err, RedashCall, execute_query, ClientMessage, query,
  terminate, extended, sync, unsupported, handle_query, serve,
}
use redash_wire.Proxy.Session.Pipeline.{is_answer-handle_query, readies, owed, readies-serve}
use redash_wire.Proxy.Session.Gated.{calls-serve_closed}
use redash_wire.Proxy.Session.ReadOnly.{AllRead, AllRead-serve}
use redash_wire.Proxy.Cancel.{
  CancelEvent, opened, query_started, server_after, secret_of, cancel_by_key,
  cancel_by_key-secret_of,
}
use redash_wire.Proxy.PeekConn.{PeekConn, watch_read, stream, stream-watch_read}

abbrev patterns : Patterns
patterns = record { compile = λ pattern. none }

abbrev times : Times
times = record { kind_of = λ s. datetime_text; format = λ k s. s }

abbrev world : World
world = record {
  up_at_fetch = true;
  schema = schema_ok [];
  result = executed_ok (record { columns = []; rows = [] });
  now = [];
}

abbrev session : Session
session = record {
  registry = new_data_source_registry [];
  gate = new_gate;
  listen_addr = codes "127.0.0.1:15432";
  read_only = true;
  data_source_id = 3;
  ds_type = codes "pg";
  params = [];
  process_id = 1;
  extended_err = false;
  schema_cache = new_schema_cache;
}

abbrev closed_session : Session
closed_session = record session { gate = (fail new_gate kind_unreachable []).0 }

abbrev messages : List (World × ClientMessage)
messages =
    (world, extended)
    ∷ (world, unsupported)
    ∷ (world, extended)
    ∷ (world, sync)
    ∷ (world, query (codes "select 1 from t"))
    ∷ (world, query (codes "delete from t"))
    ∷ []

two_answers : owed false messages ≡ 3
unfolding owed
two_answers = refl

one_call :
    (serve patterns times session messages).2 ≡ execute_query (codes "select 1 from t") 3 ∷ []
unfolding serve redash_wire.Proxy.Session.serve_message handle_query
    redash_wire.Proxy.Session.handle_trimmed redash_wire.Proxy.Session.query_cases
    redash_wire.Common.Text.equal new_gate redash_wire.Proxy.Session.open_cases
    redash_wire.Proxy.Session.guarded_query redash_wire.Sqltext.Verb.write_verb
    redash_wire.Proxy.Session.run_query redash_wire.Pgwire.Rewrite.rewrite_timestamp_comparisons
    redash_wire.Proxy.Session.answer_executed
one_call = refl

is_answer-handle_query_example :
    is_answer (handle_query patterns times world session (codes "drop table t")).1 ≡ true
is_answer-handle_query_example =
    is_answer-handle_query patterns times world session (codes "drop table t")

readies-serve_example : readies (serve patterns times session messages).1 ≡ owed false messages
readies-serve_example = readies-serve patterns times session messages

gate_closed : closed_session.gate.up ≡ false
unfolding fail new_gate
gate_closed = refl

calls-serve_closed_example : (serve patterns times closed_session messages).2 ≡ []
calls-serve_closed_example = calls-serve_closed patterns times closed_session messages gate_closed

AllRead-serve_example : AllRead (serve patterns times session messages).2
AllRead-serve_example = AllRead-serve patterns times session messages refl

abbrev past : List CancelEvent
past = query_started 1 ∷ opened (codes "efgh") ∷ opened (codes "abcd") ∷ []

cancelled_one : cancel_by_key 1 (codes "abcd") (server_after past).cancelers ≡ 1 ∷ []
unfolding cancel_by_key server_after
cancelled_one = refl

cancel_by_key-secret_of_example :
    All
      (λ p. (p ≡ 1) × (secret_of 1 past ≡ some (codes "abcd")))
      (cancel_by_key 1 (codes "abcd") (server_after past).cancelers)
cancel_by_key-secret_of_example = cancel_by_key-secret_of past 1 (codes "abcd")

abbrev conn : PeekConn
conn = record { unread = codes "ab"; wire = codes "cdef" }

order_is_lost : stream (watch_read conn 2) ≡ codes "cdabef"
unfolding watch_read
order_is_lost = refl

stream-watch_read_example :
    (stream (watch_read conn 2) ≡ stream conn)
    ↔ (take 2 (codes "cdef") ++ codes "ab" ≡ codes "ab" ++ take 2 (codes "cdef"))
stream-watch_read_example = stream-watch_read conn 2
