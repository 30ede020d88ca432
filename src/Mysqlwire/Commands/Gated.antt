-- ===== src/Mysqlwire/Commands/Gated.antt =====
-- internal/mysqlwire/handler.go: a session whose gate is closed.
use redash_wire.Common.{
  false, not, Option, none, some, List, [], ◌∷◌, ◌≡◌, ap, All, All-append, if_both, if_cases,
}
use redash_wire.Common.Text.{Bytes, equal, trim_space}
use redash_wire.Sqltext.Mask.{mysql}
use redash_wire.Sqltext.Statements.{is_multi_statement}
use redash_wire.Mysqlwire.{MyError}
use redash_wire.Mysqlwire.Handler.{Handler, use_db}
use redash_wire.Mysqlwire.Kill.{Kill, kill_error, kill, parse_kill, KillEffect, handle_kill}
use redash_wire.Mysqlwire.Value.{Floats}
use redash_wire.Mysqlwire.Commands.{
  World, Call, kill_effect, Step, open_cases, changed, kill_calls, kill_answer, kill_or_query,
  handle_trimmed, handle_query, Command, query, init_db, field_list, stmt_prepare, stmt_execute,
  stmt_close, other_command, handle_command, serve,
}

-- A call that Redash does not see.
unfoldable pub IsKill : Call → Type 0
IsKill (kill_effect _) = Unit
IsKill _ = ⊥

abbrev Quiet : Step → Type 0
Quiet step = All IsKill step.2

All-kill_calls : (effects : List KillEffect) → All IsKill (kill_calls effects)
unfolding IsKill
All-kill_calls [] = tt
All-kill_calls (e ∷ effects) = (tt, All-kill_calls effects)

Quiet-kill_answer : (h : Handler) (r : Option MyError × List KillEffect) → Quiet (kill_answer h r)
Quiet-kill_answer h (none, effects) = All-kill_calls effects
Quiet-kill_answer h (some e, effects) = All-kill_calls effects

Quiet-changed : (r : Handler × Option MyError) → Quiet (changed r)
Quiet-changed (h, none) = tt
Quiet-changed (h, some e) = tt

Quiet-kill_or_query :
    (floats : Floats) (w : World) (h : Handler) (sql : Bytes) (k : Option Kill)
    → h.gate.up ≡ false
    → Quiet (kill_or_query floats w h sql k)
unfolding kill_or_query open_cases
Quiet-kill_or_query floats w h sql (some (kill_error e)) closed = tt
Quiet-kill_or_query floats w h sql (some (kill id query_only)) closed =
    Quiet-kill_answer h (handle_kill w.conns id query_only)
Quiet-kill_or_query floats w h sql none closed =
    if_cases Quiet (not h.gate.up) _ _ (λ _. tt) (λ opened. cc (ap not closed))

Quiet-handle_command :
    (floats : Floats) (w : World) (h : Handler) (c : Command)
    → h.gate.up ≡ false
    → Quiet (handle_command floats w h c)
unfolding handle_command handle_query handle_trimmed
Quiet-handle_command floats w h (query raw) closed =
    let sql = trim_space raw in
    if_both Quiet (equal sql []) _ _ tt (
      if_both Quiet (is_multi_statement mysql sql) _ _ tt
        (Quiet-kill_or_query floats w h sql (parse_kill sql) closed))
Quiet-handle_command floats w h (init_db name) closed = Quiet-changed (use_db h name)
Quiet-handle_command floats w h field_list closed = tt
Quiet-handle_command floats w h stmt_prepare closed = tt
Quiet-handle_command floats w h stmt_execute closed = tt
Quiet-handle_command floats w h stmt_close closed = tt
Quiet-handle_command floats w h other_command closed = tt

-- While the gate is closed a MySQL session asks Redash nothing, whatever its client sends: it only
-- carries out what a KILL asks for.
pub All-serve_closed :
    (floats : Floats) (h : Handler) (commands : List (World × Command))
    → All (λ (wc : World × Command). wc.0.gate.up ≡ false) commands
    → All IsKill (serve floats h commands).2
unfolding serve
All-serve_closed floats h [] closed = tt
All-serve_closed floats h ((w, c) ∷ rest) closed =
    let step = handle_command floats w (record h { gate = w.gate }) c in
    All-append IsKill step.2 (serve floats step.0 rest).2
      (Quiet-handle_command floats w (record h { gate = w.gate }) c closed.0)
      (All-serve_closed floats step.0 rest closed.1)
