-- ===== src/Proxy/Session/Gated.antt =====
-- internal/proxy/session.go: a session whose gate is closed.
use redash_wire.Common.{Bool, true, false, not, List, [], ◌∷◌, ◌≡◌, refl, ap, ◌∙◌, arith, choose}
use redash_wire.Common.Text.{Bytes, equal, trim_space}
use redash_wire.Sqltext.Mask.{postgres}
use redash_wire.Sqltext.Statements.{is_multi_statement}
use redash_wire.Pgwire.Query.Result.{Times}
use redash_wire.Pgwire.Catalog.Filter.{Patterns}
use redash_wire.Proxy.Session.Frame.{Keeps-handle_query}
use redash_wire.Health.Gate.{suspect_redash, client_message}
use redash_wire.Pgwire.Message.{send_empty_query, send_error}
use redash_wire.Proxy.Session.{
  multi_message, open_cases, Session, World, Step, query_cases, guarded_query, handle_trimmed,
  handle_query, ClientMessage, query, terminate, extended, sync, unsupported, serve_message, serve,
}

-- The third test holds, and the first three ask nothing.
choose_third :
    (b c u : Bool) (x y z : Step) (rest : List (Bool × Step)) (d : Step)
    → u ≡ true
    → x.2 ≡ []
    → y.2 ≡ []
    → z.2 ≡ []
    → (choose ((b, x) ∷ (c, y) ∷ (u, z) ∷ rest) d).2 ≡ []
choose_third true c u x y z rest d e h k l = h
choose_third false true u x y z rest d e h k l = k
choose_third false false true x y z rest d e h k l = l
choose_third false false false x y z rest d e h k l = cc

calls-handle_query :
    (patterns : Patterns) (times : Times) (w : World) (s : Session) (sql : Bytes)
    → s.gate.up ≡ false
    → (handle_query patterns times w s sql).2 ≡ []
unfolding handle_query handle_trimmed query_cases
calls-handle_query patterns times w s raw h =
    let sql = trim_space raw in
    choose_third (equal sql []) (is_multi_statement postgres sql) (not s.gate.up)
      (s, send_empty_query, []) (s, send_error multi_message, [])
      (record s { gate = suspect_redash s.gate }, send_error (client_message s.gate), [])
      (open_cases patterns w s sql) (guarded_query times w s sql) (ap not h) refl refl refl

-- While the gate is closed a session asks Redash nothing, whatever its client sends.
pub calls-serve_closed :
    (patterns : Patterns) (times : Times) (s : Session) (ms : List (World × ClientMessage))
    → s.gate.up ≡ false
    → (serve patterns times s ms).2 ≡ []
unfolding serve serve_message
calls-serve_closed patterns times s [] h = refl
calls-serve_closed patterns times s ((w, query sql) ∷ ms) h =
    let s0 = record s { extended_err = false } in
    let step = handle_query patterns times w s0 sql in
    let up = (Keeps-handle_query patterns times w s0 sql).up in
    rw (calls-handle_query patterns times w s0 sql h)
      (calls-serve_closed patterns times step.0 ms (up ∙ h))
calls-serve_closed patterns times s ((w, terminate) ∷ ms) h = refl
calls-serve_closed patterns times s ((w, extended) ∷ ms) h = ground (
  arith,
  calls-serve_closed patterns times s ms h,
  calls-serve_closed patterns times (record s { extended_err = true }) ms h,
)
calls-serve_closed patterns times s ((w, sync) ∷ ms) h =
    calls-serve_closed patterns times (record s { extended_err = false }) ms h
calls-serve_closed patterns times s ((w, unsupported) ∷ ms) h =
    ground (arith, calls-serve_closed patterns times s ms h)
