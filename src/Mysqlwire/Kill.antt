-- ===== src/Mysqlwire/Kill.antt =====
-- internal/mysqlwire: KILL (`parseKill`, `handleKill`, `interrupt` and `executeRemote` of handler.go) and
-- the table of connections in server.go that it is looked up in.
pub mod Table
pub mod Words
use redash_wire.Common.{
  ℕ, ◌<◌, ◌^◌, Bool, true, false, not, ◌&&◌, ◌||◌, Option, none, some, List, [], ◌∷◌, ◌++◌, ◌==◌,
  if◌then◌else◌, ◌≡◌, refl, ap, ◌∙◌, sym, Bool-cases, inl, inr, arith, choose,
}
use redash_wire.Common.Text.{Bytes, codes, equal, to_lower, trim_space, fields, trim_last}
use redash_wire.Common.Numerals.{parse_uint}
use redash_wire.Redash.{Err}
use redash_wire.Pgwire.Query.Result.{QueryResult}
use redash_wire.Sqltext.Mask.{mysql}
use redash_wire.Sqltext.Redact.{redact}
use redash_wire.Mysqlwire.Scan.{normalize}
use redash_wire.Mysqlwire.{MyError, er_parse_error, er_no_such_thread}

-- `strings.TrimSuffix(s, ";")`
unfoldable pub trim_semicolon : Bytes → Bytes
unfolding trim_last
trim_semicolon = trim_last b';'

-- A KILL that does not parse, or its id and whether only the query is to end.
pub data Kill : Type 0 where
  kill_error : MyError → Kill
  kill : ℕ → Bool → Kill

abbrev pub kill_syntax : MyError
kill_syntax = record {
  code = er_parse_error;
  message = codes "You have an error in your SQL syntax; expected KILL [CONNECTION | QUERY] <id>";
}

abbrev pub kill_no_id : Bytes → MyError
kill_no_id arg = record {
  code = er_parse_error;
  message =
      codes "You have an error in your SQL syntax; KILL expects a connection id, got '"
      ++ arg
      ++ codes "'";
}

-- The arguments behind QUERY or CONNECTION.
unfoldable pub kill_id : Bool → List Bytes → Kill
unfolding parse_uint
kill_id query_only [] = kill_error kill_syntax
kill_id query_only (arg ∷ b ∷ rest) = kill_error kill_syntax
kill_id query_only (arg ∷ []) = elim (parse_uint arg 32) [
  | none ↦ kill_error (kill_no_id arg)
  | some n ↦ kill n query_only
]

unfoldable pub kill_args : List Bytes → Kill
unfolding equal kill_id
kill_args [] = kill_id false []
kill_args (arg ∷ rest) =
    if equal arg (codes "query") || equal arg (codes "connection")
    then kill_id (equal arg (codes "query")) rest
    else kill_id false (arg ∷ rest)

-- None where the statement is no KILL at all.
unfoldable pub kill_fields : List Bytes → Option Kill
unfolding equal kill_args
kill_fields [] = none
kill_fields (word ∷ args) = if not (equal word (codes "kill")) then none else some (kill_args args)

unfoldable pub parse_kill : Bytes → Option Kill
unfolding normalize trim_semicolon fields kill_fields
parse_kill query = kill_fields (fields (trim_semicolon (normalize query)))

-- A live connection, with whether its handler's `cancelQuery` is set.
pub record LiveConn : Type 0 where
  pub conn_id : ℕ
  pub in_flight : Bool

abbrev pub ConnTable : Type 0
ConnTable = List LiveConn

unfoldable pub remove_conn : ℕ → ConnTable → ConnTable
remove_conn id [] = []
remove_conn id (c ∷ cs) = let rest = remove_conn id cs in if c.conn_id == id then rest else c ∷ rest

-- A write to the map replaces what was there.
unfoldable pub add_conn : ℕ → ConnTable → ConnTable
unfolding remove_conn
add_conn id cs = record { conn_id = id; in_flight = false } ∷ remove_conn id cs

unfoldable pub lookup_conn : ℕ → ConnTable → Option LiveConn
lookup_conn id [] = none
lookup_conn id (c ∷ cs) = if c.conn_id == id then some c else lookup_conn id cs

-- `executeRemote` sets `cancelQuery` and clears it.
unfoldable pub set_cancel_query : ℕ → Bool → ConnTable → ConnTable
set_cancel_query id b [] = []
set_cancel_query id b (c ∷ cs) =
    let rest = set_cancel_query id b cs in
    if c.conn_id == id then record c { in_flight = b } ∷ rest else c ∷ rest

-- What a KILL does: it cancels the query of a connection, and closes it.
pub data KillEffect : Type 0 where
  query_cancelled : ℕ → KillEffect
  disconnected : ℕ → KillEffect

unfoldable pub interrupt : LiveConn → List KillEffect
interrupt c = if not c.in_flight then [] else query_cancelled c.conn_id ∷ []

-- go-mysql's own text for the code, which ends with the id.
abbrev pub no_such_thread : MyError
no_such_thread = record { code = er_no_such_thread; message = codes "Unknown thread id" }

unfoldable pub handle_kill : ConnTable → ℕ → Bool → Option MyError × List KillEffect
unfolding lookup_conn interrupt
handle_kill table id query_only = elim (lookup_conn id table) [
  | none ↦ (some no_such_thread, [])
  | some c ↦
      if query_only
      then (none, interrupt c)
      else (none, interrupt c ++ (disconnected c.conn_id ∷ []))
]

-- What happens to the table.
pub data ConnEvent : Type 0 where
  conn_added : ℕ → ConnEvent
  conn_removed : ℕ → ConnEvent
  remote_started : ℕ → ConnEvent
  remote_ended : ℕ → ConnEvent

unfoldable pub conn_step : ConnTable → ConnEvent → ConnTable
unfolding add_conn remove_conn set_cancel_query
conn_step t (conn_added id) = add_conn id t
conn_step t (conn_removed id) = remove_conn id t
conn_step t (remote_started id) = set_cancel_query id true t
conn_step t (remote_ended id) = set_cancel_query id false t

-- The table after a list of events, the newest first.
unfoldable pub table_after : List ConnEvent → ConnTable
unfolding conn_step
table_after [] = []
table_after (e ∷ past) = conn_step (table_after past) e
