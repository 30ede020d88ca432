-- ===== src/Proxy/Session/Pipeline.antt =====
-- internal/proxy/session.go: how many answers a client gets.
use redash_wire.Common.{
  ℕ, suc, ◌+◌, Bool, true, false, not, ◌&&◌, some, List, [], ◌∷◌, ◌++◌, if◌then◌else◌, ◌≡◌, refl,
  ap, ◌∙◌, Bool-cases, inl, inr, arith, All-choose,
}
use redash_wire.Common.Text.{Bytes, codes, equal, trim_space}
use redash_wire.Redash.Registry.{filter_by_type, is_postgres_compatible}
use redash_wire.Sqltext.Mask.{postgres}
use redash_wire.Sqltext.Verb.{write_verb}
use redash_wire.Pgwire.Message.{
  Message, ready_for_query, is_answer, send_error, send_error_code, send_empty_query,
  send_ready_for_query,
}
use redash_wire.Pgwire.Query.Local.Answers.{is_answer-handle_local_query}
use redash_wire.Pgwire.Query.Result.{Times}
use redash_wire.Pgwire.Query.Result.Columns.{is_answer-send_query_result}
use redash_wire.Pgwire.Catalog.Filter.{Patterns}
use redash_wire.Pgwire.Catalog.{is_answer-handle_catalog_query}
use redash_wire.Pgwire.Rewrite.{rewrite_timestamp_comparisons}
use redash_wire.Proxy.Session.Frame.{Keeps-handle_query}
use redash_wire.Proxy.Session.{
  Session, World, Executed, executed_ok, executed_err, Step, session_schema, answer_executed,
  run_query, refuse_write, guarded_query, local_session, catalog_query, query_cases, open_cases,
  handle_trimmed, handle_query, ClientMessage, query, terminate, extended, sync, unsupported,
  send_extended_error, serve_message, serve,
}

is_answer-answer_executed :
    (times : Times) (s : Session) (sql : Bytes) (r : Executed)
    → is_answer (answer_executed times s sql r).1 ≡ true
unfolding answer_executed is_answer send_error send_error_code
is_answer-answer_executed times s sql (executed_ok result) =
    is_answer-send_query_result times sql result
is_answer-answer_executed times s sql (executed_err e) = refl

-- A step whose answer ends with the one ReadyForQuery.
abbrev Answers : Step → Type 0
Answers step = is_answer step.1 ≡ true

Answers-if : (b : Bool) (x y : Step) → Answers x → Answers y → Answers (if b then x else y)
Answers-if true x y h k = h
Answers-if false x y h k = k

Answers-guarded_query :
    (times : Times) (w : World) (s : Session) (sql : Bytes) → Answers (guarded_query times w s sql)
unfolding guarded_query run_query refuse_write is_answer send_error_code
Answers-guarded_query times w s sql =
    Answers-if (s.read_only && not (equal (write_verb postgres sql) []))
      (s, refuse_write (write_verb postgres sql), []) (run_query times w s sql) refl
      (is_answer-answer_executed times s
        (if is_postgres_compatible s.ds_type then rewrite_timestamp_comparisons sql else sql)
        w.result)

is_answer-handle_trimmed :
    (patterns : Patterns) (times : Times) (w : World) (s : Session) (sql : Bytes)
    → Answers (handle_trimmed patterns times w s sql)
unfolding handle_trimmed query_cases open_cases is_answer send_error send_error_code
    send_empty_query catalog_query
is_answer-handle_trimmed patterns times w s sql =
    All-choose Answers (query_cases patterns w s sql) (guarded_query times w s sql)
      (
        refl,
        (
          refl,
          (
            refl,
            (
              is_answer-handle_local_query sql (local_session w s),
              (
                is_answer-handle_catalog_query patterns sql (session_schema s w).1
                    (filter_by_type s.registry.all is_postgres_compatible),
                (refl, tt),
              ),
            ),
          ),
        ),
      )
      (Answers-guarded_query times w s sql)

-- Every simple query has one answer, which ends with the one ReadyForQuery, whatever becomes of it.
pub is_answer-handle_query :
    (patterns : Patterns) (times : Times) (w : World) (s : Session) (sql : Bytes)
    → is_answer (handle_query patterns times w s sql).1 ≡ true
unfolding handle_query
is_answer-handle_query patterns times w s sql =
    is_answer-handle_trimmed patterns times w s (trim_space sql)

unfoldable pub readies : List Message → ℕ
readies [] = 0
readies (ready_for_query ∷ ms) = suc (readies ms)
readies (_ ∷ ms) = readies ms

readies-append : (ms ns : List Message) → readies (ms ++ ns) ≡ readies ms + readies ns
unfolding readies
readies-append [] ns = omega arith
readies-append (m ∷ ms) ns = ground (arith, readies-append ms ns)

readies-is_answer : (ms : List Message) → is_answer ms ≡ true → readies ms ≡ 1
unfolding readies is_answer
readies-is_answer [] h = cc
readies-is_answer (m ∷ []) h = ground arith
readies-is_answer (m ∷ n ∷ ms) h = ground (arith, readies-is_answer (n ∷ ms))

-- The ReadyForQuery messages owed for the client's messages: one for each query and each Sync, and one
-- for an unsupported message outside a rejected pipeline.
unfoldable pub owed : Bool → List (World × ClientMessage) → ℕ
owed rejected [] = 0
owed rejected ((_, query _) ∷ ms) = suc (owed false ms)
owed rejected ((_, terminate) ∷ ms) = 0
owed rejected ((_, extended) ∷ ms) = owed true ms
owed rejected ((_, sync) ∷ ms) = suc (owed false ms)
owed true ((_, unsupported) ∷ ms) = owed true ms
owed false ((_, unsupported) ∷ ms) = suc (owed false ms)

readies-serve-some :
    (patterns : Patterns) (times : Times) (w : World) (s : Session) (m : ClientMessage)
    (step : Step) (ms : List (World × ClientMessage))
    → serve_message patterns times w s m ≡ some step
    → readies (serve patterns times s ((w, m) ∷ ms)).1
      ≡ readies step.1 + readies (serve patterns times step.0 ms).1
unfolding serve
readies-serve-some patterns times w s m step ms h =
    rw (h, serve) (readies-append step.1 (serve patterns times step.0 ms).1)

pub calls-serve-some :
    (patterns : Patterns) (times : Times) (w : World) (s : Session) (m : ClientMessage)
    (step : Step) (ms : List (World × ClientMessage))
    → serve_message patterns times w s m ≡ some step
    → (serve patterns times s ((w, m) ∷ ms)).2 ≡ step.2 ++ (serve patterns times step.0 ms).2
unfolding serve
calls-serve-some patterns times w s m step ms h = rw (h, serve) refl

-- An unsupported message, or one of the extended protocol, in a rejected pipeline.
pub discards :
    (patterns : Patterns) (times : Times) (w : World) (s : Session)
    → s.extended_err ≡ true
    → (serve_message patterns times w s extended ≡ some (s, [], []))
      × (serve_message patterns times w s unsupported ≡ some (s, [], []))
unfolding serve_message
discards patterns times w s h = (ground arith, ground arith)

pub rejects :
    (patterns : Patterns) (times : Times) (w : World) (s : Session)
    → s.extended_err ≡ false
    → (serve_message patterns times w s extended
        ≡ some (record s { extended_err = true }, send_extended_error, []))
      × (serve_message patterns times w s unsupported
          ≡ some (s, send_error (codes "unsupported message type"), []))
unfolding serve_message
rejects patterns times w s h = (ground arith, ground arith)

-- A client is sent exactly the ReadyForQuery messages that it is owed, whatever it sends.
pub readies-serve :
    (patterns : Patterns) (times : Times) (s : Session) (ms : List (World × ClientMessage))
    → readies (serve patterns times s ms).1 ≡ owed s.extended_err ms
unfolding serve owed readies serve_message send_extended_error send_ready_for_query send_error
    send_error_code
readies-serve patterns times s [] = refl
readies-serve patterns times s ((w, query sql) ∷ ms) =
    let s0 = record s { extended_err = false } in
    let step = handle_query patterns times w s0 sql in
    let one = readies-is_answer step.1 (is_answer-handle_query patterns times w s0 sql) in
    let ih = readies-serve patterns times step.0 ms in
    let same = (Keeps-handle_query patterns times w s0 sql).extended_err in
    readies-append step.1 (serve patterns times step.0 ms).1
    ∙ omega (arith, one, ih, ap (λ b. owed b ms) same)
readies-serve patterns times s ((w, terminate) ∷ ms) = refl
readies-serve patterns times s ((w, extended) ∷ ms) = elim (Bool-cases s.extended_err) [
  | inl l ↦ omega (
    arith,
    readies-serve-some patterns times w s extended (s, [], []) ms (discards patterns times w s l).0,
    readies-serve patterns times s ms,
    ap (λ b. owed b ms) l,
  )
  | inr l ↦ omega (
    arith,
    readies-serve-some patterns times w s extended
        (record s { extended_err = true }, send_extended_error, []) ms
        (rejects patterns times w s l).0,
    readies-serve patterns times (record s { extended_err = true }) ms,
  )
]
readies-serve patterns times s ((w, sync) ∷ ms) =
    ap suc (readies-serve patterns times (record s { extended_err = false }) ms)
readies-serve patterns times s ((w, unsupported) ∷ ms) = elim (Bool-cases s.extended_err) [
  | inl l ↦ omega (
    arith,
    readies-serve-some patterns times w s unsupported (s, [], []) ms
        (discards patterns times w s l).1,
    readies-serve patterns times s ms,
    ap (λ b. owed b ms) l,
    ap (λ b. owed b ((w, unsupported) ∷ ms)) l,
  )
  | inr l ↦ omega (
    arith,
    readies-serve-some patterns times w s unsupported
        (s, send_error (codes "unsupported message type"), []) ms (rejects patterns times w s l).1,
    readies-serve patterns times s ms,
    ap (λ b. owed b ms) l,
    ap (λ b. owed b ((w, unsupported) ∷ ms)) l,
  )
]
