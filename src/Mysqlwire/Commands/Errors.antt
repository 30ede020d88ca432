-- ===== src/Mysqlwire/Commands/Errors.antt =====
-- internal/mysqlwire/handler.go: what a client learns of an error.
use redash_wire.Common.{
  Bool, true, false, not, ◌&&◌, Option, none, some, List, [], ◌∷◌, ◌≡◌, refl, sym, ap, ◌∙◌, choose,
  if◌then◌else◌, Bool-cases, inl, inr,
}
use redash_wire.Common.Text.{Bytes, equal, trim_space}
use redash_wire.Redash.{Err}
use redash_wire.Sqltext.Mask.{mysql}
use redash_wire.Sqltext.Statements.{is_multi_statement}
use redash_wire.Sqltext.Verb.{write_verb}
use redash_wire.Mysqlwire.{Answer, refused_with}
use redash_wire.Mysqlwire.Handler.{Handler}
use redash_wire.Mysqlwire.Kill.{Kill, kill_error, kill, parse_kill}
use redash_wire.Mysqlwire.Strip.{strip_db_qualifier}
use redash_wire.Mysqlwire.Value.{Floats}
use redash_wire.Mysqlwire.Commands.{
  World, Executed, executed_ok, executed_err, Step, Remote, interrupted, remote_err, error_text,
  execute_remote, answer_remote, open_cases, run_query, guarded_query, kill_or_query,
  handle_trimmed, handle_query, unknown_error, interrupted_error,
}

-- The steps answer alike.
abbrev SameAnswer : Step → Step → Type 0
SameAnswer x y = x.1 ≡ y.1

choose_alike :
    (cs : List (Bool × Step)) (x y : Step) → SameAnswer x y → SameAnswer (choose cs x) (choose cs y)
choose_alike [] x y e = e
choose_alike ((true, z) ∷ cs) x y e = refl
choose_alike ((false, z) ∷ cs) x y e = choose_alike cs x y e

if_alike :
    (b : Bool) (x y z : Step)
    → SameAnswer y z
    → SameAnswer (if b then x else y) (if b then x else z)
if_alike true x y z e = refl
if_alike false x y z e = e

-- An interruption, or the text of the error.
abbrev told : World → Bytes → Answer
told w text =
    if w.query_ended && not w.session_ended
    then refused_with interrupted_error
    else refused_with (unknown_error text)

told_lem :
    (floats : Floats) (w : World) (h : Handler) (sent : Bytes) (e : Err)
    → (answer_remote floats h sent (execute_remote (record w { result = executed_err e }))).1
      ≡ told w (error_text e)
unfolding answer_remote execute_remote
told_lem floats w h sent e = elim (Bool-cases (w.query_ended && not w.session_ended)) [
  | inl y ↦ rw y refl
  | inr n ↦ rw n refl
]

module _ (floats : Floats) (w : World) (h : Handler) (e f : Err)
    (alike : error_text e ≡ error_text f) where
  abbrev world_of : Err → World
  world_of err = record w { result = executed_err err }

  run_alike :
      (sql : Bytes)
      → SameAnswer (run_query floats (world_of e) h sql) (run_query floats (world_of f) h sql)
  unfolding run_query
  run_alike sql =
      let sent = strip_db_qualifier h.db_name sql in
      told_lem floats w h sent e ∙ ap (told w) alike ∙ sym (told_lem floats w h sent f)

  kill_alike :
      (sql : Bytes) (k : Option Kill)
      → SameAnswer
          (kill_or_query floats (world_of e) h sql k)
          (kill_or_query floats (world_of f) h sql k)
  unfolding kill_or_query guarded_query open_cases redash_wire.Mysqlwire.Commands.session_tables
  kill_alike sql (some (kill_error err)) = refl
  kill_alike sql (some (kill id query_only)) = refl
  kill_alike sql none =
      choose_alike (open_cases floats (world_of e) h sql) (guarded_query floats (world_of e) h sql)
        (guarded_query floats (world_of f) h sql)
        (if_alike (h.read_only && not (equal (write_verb mysql sql) [])) _ _ _ (run_alike sql))

  query_alike :
      (sql : Bytes)
      → SameAnswer (handle_query floats (world_of e) h sql) (handle_query floats (world_of f) h sql)
  unfolding handle_query handle_trimmed
  query_alike raw =
      let sql = trim_space raw in
      if_alike (equal sql []) _ _ _
        (if_alike (is_multi_statement mysql sql) _ _ _ (kill_alike sql (parse_kill sql)))

same_text : (e f : Err) → e.query_error ≡ none → f.query_error ≡ none → error_text e ≡ error_text f
unfolding error_text
same_text e f h k = rw (h, k, error_text) refl

-- Of two failures that are no errors of the query itself, such as of the network or of the
-- credentials, a client cannot tell which one its query met.
pub handle_query_hides :
    (floats : Floats) (w : World) (h : Handler) (sql : Bytes) (e f : Err)
    → e.query_error ≡ none
    → f.query_error ≡ none
    → (handle_query floats (record w { result = executed_err e }) h sql).1
      ≡ (handle_query floats (record w { result = executed_err f }) h sql).1
handle_query_hides floats w h sql e f no_e no_f =
    query_alike floats w h e f (same_text e f no_e no_f) sql
