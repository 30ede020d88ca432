-- ===== src/Pgwire/Query/Local.antt =====
-- internal/pgwire/query.go, `HandleLocalQuery`: the statements that the proxy answers without Redash.
-- The two regular expressions and `net.SplitHostPort` are written as functions of the bytes.
pub mod Setting
pub mod Answers
use redash_wire.Common.{
  ℕ, Bool, true, false, not, ◌&&◌, ◌||◌, Option, none, some, List, [], ◌∷◌, ◌++◌, map, any, length,
  take, drop, ◌==◌, if◌then◌else◌, choose,
}
use redash_wire.Common.Text.{
  Bytes, codes, equal, to_lower, trim_space, trim_right, has_prefix, contains, fields, replace_byte,
  decimal,
}
use redash_wire.Redash.{DataSource}
use redash_wire.Sqltext.Token.{contains_token}
use redash_wire.Pgwire.Message.{
  FieldDescription, Message, row_description, data_row, command_complete, ready_for_query, oid_bool,
  oid_int4, text_field, send_error_code, send_command_complete, send_single_row_result,
  send_empty_result, select_tag,
}
use redash_wire.Pgwire.Query.{normalize, is_space, has_keyword, is_simple_select}
use redash_wire.Pgwire.Query.Local.Setting.{read_only_setting, split_host_port}

abbrev pub Params : Type 0
Params = List (Bytes × Bytes)

-- A missing key of a Go map gives "".
unfoldable pub param : Bytes → Params → Bytes
unfolding equal
param k [] = []
param k ((j, v) ∷ m) = if equal j k then v else param k m

-- The session's answer to a query; `now` is the time, in the layout of the code.
pub record LocalSession : Type 0 where
  pub startup_params : Params
  pub sources : List DataSource
  pub listen_addr : Bytes
  pub read_only : Bool
  pub backend_pid : ℕ
  pub now : Bytes

abbrev pub read_only_hint : Bytes
read_only_hint =
    codes
      "redash-wire is running in read-only mode for this profile; only reads reach Redash. Set read_only: false in the config to allow writes."

abbrev pub sql_state_read_only : Bytes
sql_state_read_only = codes "25006"

unfoldable pub on_off : Bool → Bytes
on_off b = if b then codes "on" else codes "off"

-- "read" and "write" are neighbours.
unfoldable pub has_read_write : List Bytes → Bool
unfolding equal
has_read_write [] = false
has_read_write (a ∷ []) = false
has_read_write (a ∷ b ∷ ws) =
    (equal a (codes "read") && equal b (codes "write")) || has_read_write (b ∷ ws)

-- The values of a setting that ask for writes.
unfoldable pub is_off : Option Bytes → Bool
unfolding equal
is_off none = false
is_off (some v) =
    equal v (codes "off") || equal v (codes "false") || equal v (codes "0") || equal v (codes "no")

-- `asksForReadWrite` on the words of the statement.
unfoldable pub asks_words : List Bytes → Bytes → Bool
unfolding equal read_only_setting to_lower is_off has_read_write
asks_words [] raw = false
asks_words (word ∷ words) raw =
    if equal word (codes "set")
    then is_off (read_only_setting (to_lower raw)) || has_read_write (word ∷ words)
    else if equal word (codes "begin") || equal word (codes "start")
    then has_read_write (word ∷ words)
    else false

unfoldable pub asks_for_read_write : Bytes → Bytes → Bool
unfolding fields replace_byte asks_words
asks_for_read_write lower raw =
    asks_words (fields (replace_byte b';' b' ' (replace_byte b'=' b' ' lower))) raw

abbrev pub shown_values : Bool → Params
shown_values read_only =
    (codes "server_version", codes "14.0")
    ∷ (codes "server_encoding", codes "UTF8")
    ∷ (codes "client_encoding", codes "UTF8")
    ∷ (codes "lc_collate", codes "en_US.UTF-8")
    ∷ (codes "lc_ctype", codes "en_US.UTF-8")
    ∷ (codes "is_superuser", codes "on")
    ∷ (codes "session_authorization", codes "redash")
    ∷ (codes "standard_conforming_strings", codes "on")
    ∷ (codes "timezone", codes "UTC")
    ∷ (codes "datestyle", codes "ISO, MDY")
    ∷ (codes "integer_datetimes", codes "on")
    ∷ (codes "max_identifier_length", codes "63")
    ∷ (codes "transaction_isolation", codes "read committed")
    ∷ (codes "search_path", codes "\"$user\", public")
    ∷ (codes "transaction_read_only", on_off read_only)
    ∷ (codes "default_transaction_read_only", on_off read_only)
    ∷ []

unfoldable pub handle_show_command : Bytes → Bool → List Message
unfolding send_single_row_result param on_off
handle_show_command name read_only =
    send_single_row_result name (param name (shown_values read_only))

unfoldable pub pg_database_row : DataSource → List (Option Bytes)
unfolding decimal
pg_database_row ds = some ds.name ∷ some (decimal ds.id) ∷ some (codes "f") ∷ some (codes "t") ∷ []

unfoldable pub handle_pg_database_query : List DataSource → List Message
unfolding text_field pg_database_row
handle_pg_database_query sources =
    row_description (
      text_field (codes "datname")
      ∷ record { name = codes "oid"; data_type_oid = oid_int4; data_type_size = some 4 }
      ∷ record { name = codes "datistemplate"; data_type_oid = oid_bool; data_type_size = some 1 }
      ∷ record { name = codes "datallowconn"; data_type_oid = oid_bool; data_type_size = some 1 }
      ∷ [])
    ∷ (map data_row (map pg_database_row sources)
        ++ command_complete (select_tag (length sources)) ∷ ready_for_query ∷ [])

-- A text, or another in its place where it is empty.
unfoldable pub or_else : Bytes → Bytes → Bytes
or_else [] b = b
or_else (c ∷ cs) b = c ∷ cs

abbrev pub listen_host : Bytes → Bytes
listen_host addr =
    let host = (split_host_port addr).0 in
    if equal host (codes "0.0.0.0") then codes "127.0.0.1" else or_else host (codes "127.0.0.1")

-- The scalar functions.
unfoldable pub handle_scalar : Bytes → LocalSession → List Message
unfolding contains param or_else split_host_port decimal send_single_row_result send_empty_result
    equal
handle_scalar lower sess =
    if contains lower (codes "version()")
    then send_single_row_result (codes "version")
        (codes "PostgreSQL 14.0 on redash-wire, compiled by redash-wire")
    else if contains lower (codes "current_database()")
    then send_single_row_result (codes "current_database")
        (or_else (param (codes "database") sess.startup_params) (codes "redash"))
    else if contains lower (codes "current_schema()")
    then send_single_row_result (codes "current_schema") (codes "public")
    else if contains lower (codes "current_schemas(")
    then send_single_row_result (codes "current_schemas") (codes "{public}")
    else if contains lower (codes "current_user")
    then send_single_row_result (codes "current_user")
        (or_else (param (codes "user") sess.startup_params) (codes "redash"))
    else if contains lower (codes "session_user")
    then send_single_row_result (codes "session_user")
        (or_else (param (codes "user") sess.startup_params) (codes "redash"))
    else if contains lower (codes "inet_server_addr")
    then send_single_row_result (codes "inet_server_addr") (listen_host sess.listen_addr)
    else if contains lower (codes "inet_server_port")
    then send_single_row_result (codes "inet_server_port")
        (or_else (split_host_port sess.listen_addr).1 (codes "15432"))
    else if contains lower (codes "pg_is_in_recovery")
    then send_single_row_result (codes "pg_is_in_recovery") (codes "f")
    else if contains lower (codes "pg_backend_pid")
    then send_single_row_result (codes "pg_backend_pid") (decimal sess.backend_pid)
    else if contains lower (codes "pg_postmaster_start_time")
    then send_single_row_result (codes "pg_postmaster_start_time") sess.now
    else send_empty_result (codes "result" ∷ [])

-- "; \t\r\n"
abbrev is_terminator : ℕ → Bool
is_terminator c = c == b';' || is_space c

-- The tests of `HandleLocalQuery` in their order, each with its answer.
unfoldable pub local_cases : Bytes → Bytes → LocalSession → List (Bool × List Message)
unfolding asks_for_read_write send_error_code has_keyword has_prefix send_command_complete
    trim_space trim_right handle_show_command contains_token handle_pg_database_query
    is_simple_select send_empty_result
local_cases sql lower sess =
    (
      sess.read_only && asks_for_read_write lower sql,
      send_error_code sql_state_read_only
          (codes "cannot set transaction read-write mode while redash-wire is in read-only mode")
          read_only_hint,
    )
    ∷ (has_keyword lower (codes "set"), send_command_complete (codes "SET"))
    ∷ (has_prefix lower (codes "begin"), send_command_complete (codes "BEGIN"))
    ∷ (has_prefix lower (codes "commit"), send_command_complete (codes "COMMIT"))
    ∷ (has_prefix lower (codes "rollback"), send_command_complete (codes "ROLLBACK"))
    ∷ (has_prefix lower (codes "deallocate"), send_command_complete (codes "DEALLOCATE"))
    ∷ (has_prefix lower (codes "close"), send_command_complete (codes "CLOSE CURSOR"))
    ∷ (has_prefix lower (codes "discard"), send_command_complete (codes "DISCARD ALL"))
    ∷ (
      has_keyword lower (codes "show"),
      handle_show_command (trim_space (trim_right is_terminator (drop 4 lower))) sess.read_only,
    )
    ∷ (contains_token lower (codes "pg_database"), handle_pg_database_query sess.sources)
    ∷ (not (is_simple_select lower), send_empty_result (codes "result" ∷ []))
    ∷ []

unfoldable pub handle_local_query : Bytes → LocalSession → List Message
unfolding normalize local_cases handle_scalar
handle_local_query sql sess =
    let lower = normalize sql in choose (local_cases sql lower sess) (handle_scalar lower sess)
