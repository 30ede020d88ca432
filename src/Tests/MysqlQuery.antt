-- ===== src/Tests/MysqlQuery.antt =====
-- internal/mysqlwire's queries at concrete inputs.
use redash_wire.Common.{true, false, none, List, [], ◌∷◌, ◌≡◌, ◌↔◌, refl, All, map}
use redash_wire.Common.Text.{Bytes, codes}
use redash_wire.Redash.{DataSource, Err}
use redash_wire.Redash.Registry.{new_data_source_registry}
use redash_wire.Redash.SchemaCache.{schema_ok}
use redash_wire.Health.Gate.{new_gate, fail, kind_unreachable}
use redash_wire.Pgwire.Query.Result.{QueryResult, number_value}
use redash_wire.Mysqlwire.{text_cell, result_set}
use redash_wire.Sqltext.Mask.{mysql}
use redash_wire.Sqltext.Verb.{write_verb}
use redash_wire.Mysqlwire.Handler.{Handler, new_handler}
use redash_wire.Mysqlwire.Lexer.{Token, lex_tokens, lex_quoted}
use redash_wire.Mysqlwire.Lexer.Quoted.{lex_quoted-quoted}
use redash_wire.Common.Runes.{runes}
use redash_wire.Mysqlwire.Like.{like_matcher}
use redash_wire.Mysqlwire.Like.Matches.{Like, like_matcher_iff}
use redash_wire.Mysqlwire.Result.{build_result}
use redash_wire.Mysqlwire.Result.Columns.{IsUniform, IsUniform-build_result}
use redash_wire.Mysqlwire.Scan.{select_list, split_alias}
use redash_wire.Mysqlwire.Strip.{strip_db_qualifier}
use redash_wire.Mysqlwire.Strip.Cuts.{Cut, Cut-strip_db_qualifier}
use redash_wire.Mysqlwire.Value.{Floats}
use redash_wire.Mysqlwire.Commands.{
  World, executed_ok, executed_err, Command, query, init_db, serve, handle_query, execute_query,
}
use redash_wire.Mysqlwire.Commands.ReadOnly.{IsRead, All-serve_read_only}
use redash_wire.Mysqlwire.Commands.Gated.{IsKill, All-serve_closed}
use redash_wire.Mysqlwire.Commands.Errors.{handle_query_hides}

abbrev words : List Token → List Bytes
words = map (λ (t : Token). t.text)

abbrev statement : Bytes
statement = codes "SELECT `a b`, 'it''s' -- c"

texts : words (lex_tokens statement) ≡ codes "select" ∷ codes "a b" ∷ codes "," ∷ codes "it's" ∷ []
unfolding lex_tokens
texts = refl

lex_quoted-quoted_example : lex_quoted b'\'' true (codes "it''s \\\\' x") ≡ (codes "it's \\", 9)
lex_quoted-quoted_example = lex_quoted-quoted b'\'' true (codes " x") (codes "it's \\") refl refl

like_matcher_iff_example :
    (like_matcher (codes "a_\\%%") (codes "Ab%cd") ≡ true)
    ↔ Like (runes (codes "a_\\%%")) (runes (codes "Ab%cd"))
like_matcher_iff_example = like_matcher_iff (codes "a_\\%%") (codes "Ab%cd")

-- U+00E9 is one rune of two bytes, and a byte of it alone is one rune as well.
like_rune :
    (like_matcher (codes "_") (195 ∷ 169 ∷ []) ≡ true)
    × (like_matcher (codes "_") (195 ∷ []) ≡ true)
    × (like_matcher (codes "_") (169 ∷ 169 ∷ []) ≡ false)
unfolding like_matcher
like_rune = (refl, refl, refl)

runes_lem :
    runes (225 ∷ 130 ∷ 160 ∷ 240 ∷ 159 ∷ 152 ∷ 128 ∷ 237 ∷ 160 ∷ 128 ∷ [])
    ≡ 4256 ∷ 128512 ∷ 65533 ∷ 65533 ∷ 65533 ∷ []
unfolding runes
runes_lem = refl

like_holds : like_matcher (codes "a_\\%%") (codes "Ab%cd") ≡ true
unfolding like_matcher
like_holds = refl

list_of :
    select_list (codes "select distinct a, (select 1 from t) b from u")
    ≡ codes " a, (select 1 from t) b "
unfolding select_list
list_of = refl

alias_of : split_alias (codes "count(*) n") ≡ (codes "count(*)", codes "n")
unfolding split_alias
alias_of = refl

-- Floats that are never found.
abbrev floats : Floats
floats = record { parse_float = λ s. none; is_zero = λ f. true }

abbrev result : QueryResult
result = record {
  columns = record { name = codes "n"; kind = codes "integer" } ∷ [];
  rows =
      ((codes "n", number_value (codes "7")) ∷ [])
      ∷ ((codes "n", number_value (codes "99999999999999999999")) ∷ [])
      ∷ [];
}

degrades :
    build_result floats (codes "select n from t") result
    ≡ result_set
        (codes "n" ∷ [])
        ((text_cell (codes "7") ∷ []) ∷ (text_cell (codes "99999999999999999999") ∷ []) ∷ [])
unfolding build_result
degrades = refl

IsUniform-build_result_example :
    IsUniform floats result (build_result floats (codes "select n from t") result)
IsUniform-build_result_example = IsUniform-build_result floats (codes "select n from t") result

stripped :
    strip_db_qualifier (codes "shop") (codes "select shop.id from shop.orders o")
    ≡ codes "select shop.id from orders o"
unfolding strip_db_qualifier
stripped = refl

-- A keyword that the quoted database follows at once runs into the table's name.
runs_together :
    strip_db_qualifier (codes "shop") (codes "select 1 from`shop`.orders")
    ≡ codes "select 1 fromorders"
unfolding strip_db_qualifier
runs_together = refl

-- What the read-only test passes is a write once the qualifier is cut.
abbrev disguised : Bytes
disguised = codes "explain `shop`.analyze delete from t"

disguised_passes : write_verb mysql disguised ≡ []
unfolding write_verb
disguised_passes = refl

sent_writes : write_verb mysql (strip_db_qualifier (codes "shop") disguised) ≡ codes "DELETE"
unfolding write_verb strip_db_qualifier
sent_writes = refl

Cut-strip_db_qualifier_example :
    Cut
      (strip_db_qualifier (codes "shop") (codes "show tables from shop"))
      (codes "show tables from shop")
Cut-strip_db_qualifier_example =
    Cut-strip_db_qualifier (codes "shop") (codes "show tables from shop")

abbrev shop : DataSource
shop = record { id = 4; name = codes "shop"; kind = codes "mysql" }

abbrev handler : Handler
handler = record (new_handler (new_data_source_registry (shop ∷ [])) new_gate true) {
  authenticated = true;
  data_source_id = 4;
  db_name = codes "shop";
}

abbrev err_of : Bytes → Err
err_of text = record { http_status = none; query_error = none; context_ended = false; text = text }

abbrev world : World
world = record {
  gate = new_gate;
  up_at_fetch = true;
  schema = schema_ok [];
  result = executed_ok result;
  query_ended = false;
  session_ended = false;
  conns = [];
}

abbrev commands : List (World × Command)
commands =
    (world, query (codes "select n from shop.t"))
    ∷ (world, query (codes "delete from shop.t"))
    ∷ (world, query (codes "SELECT @@read_only"))
    ∷ []

is_sent :
    (serve floats handler ((world, query disguised) ∷ [])).2
    ≡ execute_query (codes "explain analyze delete from t") 4 ∷ []
unfolding serve new_handler new_gate
is_sent = refl

All-serve_read_only_example : All IsRead (serve floats handler commands).2
unfolding new_handler
All-serve_read_only_example = All-serve_read_only floats handler commands refl

abbrev closed_world : World
closed_world = record world { gate = (fail new_gate kind_unreachable (codes "refused")).0 }

abbrev closed_commands : List (World × Command)
closed_commands =
    (closed_world, query (codes "select n from t")) ∷ (closed_world, init_db (codes "shop")) ∷ []

closed : closed_world.gate.up ≡ false
unfolding fail new_gate
closed = refl

All-serve_closed_example : All IsKill (serve floats handler closed_commands).2
All-serve_closed_example = All-serve_closed floats handler closed_commands (closed, (closed, tt))

handle_query_hides_example :
    (handle_query floats
      (record world { result = executed_err (err_of (codes "refused")) })
      handler
      (codes "select 1 from t")).1
    ≡ (handle_query floats
        (record world { result = executed_err (err_of (codes "timeout")) })
        handler
        (codes "select 1 from t")).1
handle_query_hides_example =
    handle_query_hides floats world handler (codes "select 1 from t") (err_of (codes "refused"))
      (err_of (codes "timeout")) refl refl
