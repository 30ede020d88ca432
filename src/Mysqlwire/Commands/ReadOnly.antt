-- ===== src/Mysqlwire/Commands/ReadOnly.antt =====
-- internal/mysqlwire/handler.go: the read-only mode.
use redash_wire.Common.{
  ℕ, Bool, true, false, not, ◌&&◌, Option, none, some, List, [], ◌∷◌, ◌==◌, if◌then◌else◌, ◌≡◌,
  refl, ◌∙◌, Bool-cases, inl, inr, All, All-choose, All-append, choose, if_both, if_cases,
}
use redash_wire.Common.Text.{Bytes, equal, trim_space}
use redash_wire.Redash.{DataSource, SchemaTable}
use redash_wire.Health.Checker.{suspicious}
use redash_wire.Redash.Registry.{lookup, is_my_sql_compatible}
use redash_wire.Redash.SchemaCache.{get}
use redash_wire.Sqltext.Mask.{mysql}
use redash_wire.Sqltext.Statements.{is_multi_statement}
use redash_wire.Sqltext.Verb.{write_verb}
use redash_wire.Mysqlwire.{MyError}
use redash_wire.Mysqlwire.Handler.{Handler, use_db, use_found}
use redash_wire.Mysqlwire.Kill.{Kill, kill_error, kill, parse_kill, KillEffect, handle_kill}
use redash_wire.Mysqlwire.Strip.{strip_db_qualifier}
use redash_wire.Mysqlwire.Value.{Floats}
use redash_wire.Mysqlwire.Commands.{
  World, Call, fetch_schema, execute_query, Step, session_tables, local_query, Remote, remote_ok,
  interrupted, remote_err, answer_remote, execute_remote, run_query, guarded_query, changed,
  use_statement, open_cases, kill_calls, kill_answer, kill_or_query, handle_trimmed, handle_query,
  Command, query, init_db, field_list, stmt_prepare, stmt_execute, stmt_close, other_command,
  handle_command, serve,
}

-- A call that writes nothing: other than a statement, or what is left of a statement that passes the
-- read-only test when its database's qualifiers are cut.
unfoldable pub IsRead : Call → Type 0
IsRead (execute_query sent _) =
    (db sql : Bytes) × (sent ≡ strip_db_qualifier db sql) × (write_verb mysql sql ≡ [])
IsRead _ = Unit

-- A step of a session in a mode: it keeps the mode, and in read-only mode it only reads.
abbrev Safe : Bool → Step → Type 0
Safe mode step = (step.0.read_only ≡ mode) × (mode ≡ true → All IsRead step.2)

read_only-use_found :
    (h : Handler) (name : Bytes) (o : Option DataSource)
    → (use_found h name o).0.read_only ≡ h.read_only
unfolding use_found
read_only-use_found h name none = refl
read_only-use_found h name (some ds) = elim (Bool-cases (is_my_sql_compatible ds.kind)) [
  | inl y ↦ rw y refl
  | inr n ↦ rw n refl
]

-- What both results of a change of the database are said of.
abbrev SameMode : Handler → Handler × Option MyError → Type 0
SameMode h r = r.0.read_only ≡ h.read_only

read_only-use_db : (h : Handler) (name : Bytes) → (use_db h name).0.read_only ≡ h.read_only
unfolding use_db
read_only-use_db h name = if_both (SameMode h) (not h.authenticated) _ _ refl (
    if_both (SameMode h) (not h.gate.up) _ _ refl
      (read_only-use_found h name (lookup h.registry name)))

no_verb :
    (mode : Bool) (verb : Bytes) → mode ≡ true → (mode && not (equal verb [])) ≡ false → verb ≡ []
unfolding equal
no_verb false verb on h = cc
no_verb true [] on h = refl
no_verb true (v ∷ vs) on h = cc

Safe-changed :
    (mode : Bool) (r : Handler × Option MyError) → r.0.read_only ≡ mode → Safe mode (changed r)
Safe-changed mode (h, none) e = (e, λ _. tt)
Safe-changed mode (h, some error) e = (e, λ _. tt)

All-kill_calls : (effects : List KillEffect) → All IsRead (kill_calls effects)
unfolding IsRead
All-kill_calls [] = tt
All-kill_calls (e ∷ effects) = (tt, All-kill_calls effects)

Safe-kill_answer :
    (h : Handler) (r : Option MyError × List KillEffect) → Safe h.read_only (kill_answer h r)
Safe-kill_answer h (none, effects) = (refl, λ _. All-kill_calls effects)
Safe-kill_answer h (some e, effects) = (refl, λ _. All-kill_calls effects)

abbrev SafeTables : Bool → Handler × List SchemaTable × List Call → Type 0
SafeTables mode r = (r.0.read_only ≡ mode) × All IsRead r.2

All-fetched : (b : Bool) (id : ℕ) → All IsRead (if b then fetch_schema id ∷ [] else [])
unfolding IsRead
All-fetched true id = (tt, tt)
All-fetched false id = tt

Safe-session_tables : (h : Handler) (w : World) → SafeTables h.read_only (session_tables h w)
unfolding session_tables
Safe-session_tables h w =
    let fetched = (get h.schema_cache w.schema).2 in
    if_both (SafeTables h.read_only) (h.data_source_id == 0) _ _ (refl, tt)
      (if_both (SafeTables h.read_only) (not w.up_at_fetch) _ _ (refl, tt)
        (refl, All-fetched fetched h.data_source_id))

Safe-local_query :
    (floats : Floats) (w : World) (h : Handler) (sql : Bytes)
    → Safe h.read_only (local_query floats w h sql)
unfolding local_query
Safe-local_query floats w h sql = let safe = Safe-session_tables h w in (safe.0, λ _. safe.1)

read_only-answer_remote :
    (floats : Floats) (h : Handler) (sql : Bytes) (r : Remote)
    → (answer_remote floats h sql r).0.read_only ≡ h.read_only
unfolding answer_remote
read_only-answer_remote floats h sql (remote_ok r) = refl
read_only-answer_remote floats h sql interrupted = refl
read_only-answer_remote floats h sql (remote_err e) =
    if_both (λ (k : Handler). k.read_only ≡ h.read_only) (suspicious (some e)) _ _ refl refl

Safe-guarded_query :
    (floats : Floats) (w : World) (h : Handler) (sql : Bytes)
    → Safe h.read_only (guarded_query floats w h sql)
unfolding guarded_query run_query IsRead
Safe-guarded_query floats w h sql =
    let sent = strip_db_qualifier h.db_name sql in
    if_cases (Safe h.read_only) (h.read_only && not (equal (write_verb mysql sql) [])) _ _
      (λ _. (refl, λ _. tt))
      (λ passes. (
        read_only-answer_remote floats h sent (execute_remote w),
        λ on. ((h.db_name, sql, refl, no_verb h.read_only (write_verb mysql sql) on passes), tt),
      ))

Safe-open_cases :
    (floats : Floats) (w : World) (h : Handler) (sql : Bytes)
    → Safe h.read_only (choose (open_cases floats w h sql) (guarded_query floats w h sql))
unfolding open_cases use_statement
Safe-open_cases floats w h sql =
    All-choose (Safe h.read_only) (open_cases floats w h sql) (guarded_query floats w h sql)
      (
        (refl, λ _. tt),
        (
          Safe-changed h.read_only _ (read_only-use_db h _),
          (Safe-local_query floats w h sql, ((refl, λ _. tt), tt)),
        ),
      )
      (Safe-guarded_query floats w h sql)

Safe-kill_or_query :
    (floats : Floats) (w : World) (h : Handler) (sql : Bytes) (k : Option Kill)
    → Safe h.read_only (kill_or_query floats w h sql k)
unfolding kill_or_query
Safe-kill_or_query floats w h sql (some (kill_error e)) = (refl, λ _. tt)
Safe-kill_or_query floats w h sql (some (kill id query_only)) =
    Safe-kill_answer h (handle_kill w.conns id query_only)
Safe-kill_or_query floats w h sql none = Safe-open_cases floats w h sql

Safe-handle_query :
    (floats : Floats) (w : World) (h : Handler) (sql : Bytes)
    → Safe h.read_only (handle_query floats w h sql)
unfolding handle_query handle_trimmed
Safe-handle_query floats w h raw =
    let sql = trim_space raw in
    if_both (Safe h.read_only) (equal sql []) _ _ (refl, λ _. tt)
      (if_both (Safe h.read_only) (is_multi_statement mysql sql) _ _ (refl, λ _. tt)
        (Safe-kill_or_query floats w h sql (parse_kill sql)))

Safe-handle_command :
    (floats : Floats) (w : World) (h : Handler) (c : Command)
    → Safe h.read_only (handle_command floats w h c)
unfolding handle_command
Safe-handle_command floats w h (query sql) = Safe-handle_query floats w h sql
Safe-handle_command floats w h (init_db name) =
    Safe-changed h.read_only (use_db h name) (read_only-use_db h name)
Safe-handle_command floats w h field_list = (refl, λ _. tt)
Safe-handle_command floats w h stmt_prepare = (refl, λ _. tt)
Safe-handle_command floats w h stmt_execute = (refl, λ _. tt)
Safe-handle_command floats w h stmt_close = (refl, λ _. tt)
Safe-handle_command floats w h other_command = (refl, λ _. tt)

-- In a session in read-only mode, whatever commands its client sends and however the outside moves,
-- every statement that Redash is asked to run is a statement that passes the read-only test, less the
-- qualifiers of a database.
pub All-serve_read_only :
    (floats : Floats) (h : Handler) (commands : List (World × Command))
    → h.read_only ≡ true
    → All IsRead (serve floats h commands).2
unfolding serve
All-serve_read_only floats h [] on = tt
All-serve_read_only floats h ((w, c) ∷ rest) on =
    let h1 = record h { gate = w.gate } in
    let step = handle_command floats w h1 c in
    let safe = Safe-handle_command floats w h1 c in
    All-append IsRead step.2 (serve floats step.0 rest).2 (safe.1 on)
      (All-serve_read_only floats step.0 rest (safe.0 ∙ on))
