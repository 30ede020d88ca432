-- ===== src/Proxy/Session/ReadOnly.antt =====
-- internal/proxy/session.go: the read-only mode.
use redash_wire.Common.{
  Bool, true, false, not, ◌&&◌, List, [], ◌∷◌, ◌==◌, if◌then◌else◌, ◌≡◌, refl, ap, ◌∙◌, Bool-cases,
  inl, inr, All, All-choose, All-append,
}
use redash_wire.Common.Text.{Bytes, codes, equal, trim_space}
use redash_wire.Redash.Registry.{is_postgres_compatible}
use redash_wire.Redash.SchemaCache.{get}
use redash_wire.Sqltext.Mask.{postgres}
use redash_wire.Sqltext.Verb.{write_verb}
use redash_wire.Pgwire.Query.Result.{Times}
use redash_wire.Pgwire.Catalog.Filter.{Patterns}
use redash_wire.Pgwire.Rewrite.{rewrite_timestamp_comparisons}
use redash_wire.Pgwire.Rewrite.Reads.{rewrite_timestamp_comparisons-write_verb}
use redash_wire.Proxy.Session.Frame.{Keeps-handle_query}
use redash_wire.Proxy.Session.Pipeline.{calls-serve-some, discards, rejects}
use redash_wire.Pgwire.Message.{send_error}
use redash_wire.Proxy.Session.{
  send_extended_error, Session, World, RedashCall, get_schema, execute_query, Step, session_schema,
  run_query, refuse_write, query_cases, open_cases, guarded_query, catalog_query, handle_trimmed,
  handle_query, ClientMessage, query, terminate, extended, sync, unsupported, serve_message, serve,
}

-- A call that writes nothing: for a schema, or of a statement that passes the read-only test.
unfoldable pub IsRead : RedashCall → Type 0
IsRead (get_schema _) = Unit
IsRead (execute_query sql _) = write_verb postgres sql ≡ []

abbrev pub AllRead : List RedashCall → Type 0
AllRead calls = All IsRead calls

unchanged :
    (b : Bool) (raw : Bytes)
    → write_verb postgres (trim_space raw) ≡ []
    → (if b then rewrite_timestamp_comparisons (trim_space raw) else trim_space raw)
      ≡ trim_space raw
unchanged true raw h = rewrite_timestamp_comparisons-write_verb raw h
unchanged false raw h = refl

AllRead-run_query :
    (times : Times) (w : World) (s : Session) (raw : Bytes)
    → write_verb postgres (trim_space raw) ≡ []
    → AllRead (run_query times w s (trim_space raw)).2
unfolding run_query IsRead
AllRead-run_query times w s raw h =
    (ap (write_verb postgres) (unchanged (is_postgres_compatible s.ds_type) raw h) ∙ h, tt)

-- A refusal asks nothing, and behind it there is no verb.
AllRead-refused :
    (r : Bool) (verb : Bytes) (x y : Step)
    → r ≡ true
    → x.2 ≡ []
    → (verb ≡ [] → AllRead y.2)
    → AllRead (if r && not (equal verb []) then x else y).2
unfolding IsRead equal
AllRead-refused false verb x y e h k = cc
AllRead-refused true [] x y e h k = k refl
AllRead-refused true (v ∷ vs) x y e h k = rw h tt

AllRead-guarded_query :
    (times : Times) (w : World) (s : Session) (raw : Bytes)
    → s.read_only ≡ true
    → AllRead (guarded_query times w s (trim_space raw)).2
unfolding guarded_query
AllRead-guarded_query times w s raw h =
    let sql = trim_space raw in
    AllRead-refused s.read_only (write_verb postgres sql)
      (s, refuse_write (write_verb postgres sql), []) (run_query times w s sql) h refl
      (AllRead-run_query times w s raw)

AllRead-session_schema : (s : Session) (w : World) → AllRead (session_schema s w).2
unfolding session_schema IsRead
AllRead-session_schema s w = elim (Bool-cases (s.data_source_id == 0)) [
  | inl z ↦ rw (z, session_schema) tt
  | inr p ↦ elim (Bool-cases w.up_at_fetch) [
    | inl u ↦ elim (Bool-cases (get s.schema_cache w.schema).2) [
      | inl f ↦ rw (p, u, f, session_schema) (tt, tt)
      | inr f ↦ rw (p, u, f, session_schema) tt
    ]
    | inr d ↦ rw (p, d, session_schema) tt
  ]
]

AllRead-handle_query :
    (patterns : Patterns) (times : Times) (w : World) (s : Session) (sql : Bytes)
    → s.read_only ≡ true
    → AllRead (handle_query patterns times w s sql).2
unfolding handle_query handle_trimmed query_cases open_cases catalog_query
AllRead-handle_query patterns times w s raw h =
    All-choose (λ (step : Step). AllRead step.2) (query_cases patterns w s (trim_space raw))
      (guarded_query times w s (trim_space raw))
      (tt, (tt, (tt, (tt, (AllRead-session_schema s w, (tt, tt))))))
      (AllRead-guarded_query times w s raw h)

-- In a session in read-only mode, whatever its client sends, every statement that Redash is asked to
-- run passes the read-only test as it is sent.
pub AllRead-serve :
    (patterns : Patterns) (times : Times) (s : Session) (ms : List (World × ClientMessage))
    → s.read_only ≡ true
    → AllRead (serve patterns times s ms).2
unfolding serve serve_message
AllRead-serve patterns times s [] h = tt
AllRead-serve patterns times s ((w, query sql) ∷ ms) h =
    let s0 = record s { extended_err = false } in
    let step = handle_query patterns times w s0 sql in
    All-append IsRead step.2 (serve patterns times step.0 ms).2
      (AllRead-handle_query patterns times w s0 sql h)
      (AllRead-serve patterns times step.0 ms
        ((Keeps-handle_query patterns times w s0 sql).read_only ∙ h))
AllRead-serve patterns times s ((w, terminate) ∷ ms) h = tt
AllRead-serve patterns times s ((w, extended) ∷ ms) h = elim (Bool-cases s.extended_err) [
  | inl l ↦
      rw
        (calls-serve-some patterns times w s extended (s, [], []) ms
          (discards patterns times w s l).0)
        (AllRead-serve patterns times s ms h)
  | inr l ↦
      rw
        (calls-serve-some patterns times w s extended
          (record s { extended_err = true }, send_extended_error, []) ms
          (rejects patterns times w s l).0)
        (AllRead-serve patterns times (record s { extended_err = true }) ms h)
]
AllRead-serve patterns times s ((w, sync) ∷ ms) h =
    AllRead-serve patterns times (record s { extended_err = false }) ms h
AllRead-serve patterns times s ((w, unsupported) ∷ ms) h = elim (Bool-cases s.extended_err) [
  | inl l ↦
      rw
        (calls-serve-some patterns times w s unsupported (s, [], []) ms
          (discards patterns times w s l).1)
        (AllRead-serve patterns times s ms h)
  | inr l ↦
      rw
        (calls-serve-some patterns times w s unsupported
          (s, send_error (codes "unsupported message type"), []) ms
          (rejects patterns times w s l).1)
        (AllRead-serve patterns times s ms h)
]
