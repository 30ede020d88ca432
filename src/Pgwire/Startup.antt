-- ===== src/Pgwire/Startup.antt =====
-- internal/pgwire/startup.go. The client's side is the messages it sends; a message that does not come
-- is the end of the list. What is written is the list of messages.
pub mod Auth
use redash_wire.Common.{
  ℕ, Bool, true, false, ◌&&◌, Option, none, some, List, [], ◌∷◌, ◌++◌, map, if◌then◌else◌,
}
use redash_wire.Common.Text.{Bytes, codes, equal}
use redash_wire.Pgwire.Message.{
  Message, error_response, encryption_denied, authentication_cleartext_password, authentication_ok,
  parameter_status, backend_key_data, ready_for_query, send_fatal,
}
use redash_wire.Pgwire.Query.Local.{Params, param, on_off}

pub data StartupMessage : Type 0 where
  ssl_request : StartupMessage
  gss_enc_request : StartupMessage
  cancel_request : ℕ → Bytes → StartupMessage
  startup_message : Params → StartupMessage
  password_message : Bytes → StartupMessage
  other_message : StartupMessage

-- The errors that `HandleStartup` returns, and its parameters.
pub data StartupResult : Type 0 where
  started : Params → StartupResult
  auth_failed : StartupResult
  connection_refused : Bytes → StartupResult
  cancel_requested : ℕ → Bytes → StartupResult
  startup_broken : StartupResult

abbrev pub sql_state_connection_failure : Bytes
sql_state_connection_failure = codes "08006"

abbrev pub parameter_statuses : Bool → List Message
parameter_statuses read_only =
    parameter_status (codes "server_version") (codes "14.0")
    ∷ parameter_status (codes "server_encoding") (codes "UTF8")
    ∷ parameter_status (codes "client_encoding") (codes "UTF8")
    ∷ parameter_status (codes "DateStyle") (codes "ISO, MDY")
    ∷ parameter_status (codes "TimeZone") (codes "UTC")
    ∷ parameter_status (codes "standard_conforming_strings") (codes "on")
    ∷ parameter_status (codes "integer_datetimes") (codes "on")
    ∷ parameter_status (codes "default_transaction_read_only") (on_off read_only)
    ∷ []

-- `%q` of the user's name, for a name without bytes that it escapes.
abbrev pub quoted : Bytes → Bytes
quoted s = codes "\"" ++ s ++ codes "\""

-- The configuration of the server, the key of the session, and the answer of `admit`: none lets the
-- client in.
pub record Entry : Type 0 where
  pub username : Bytes
  pub password : Bytes
  pub process_id : ℕ
  pub secret_key : Bytes
  pub read_only : Bool
  pub admit : Option Bytes

unfoldable pub credentials_match : Entry → Bytes → Bytes → Bool
unfolding equal
credentials_match e user password = equal user e.username && equal password e.password

unfoldable pub welcome : Entry → List Message
unfolding on_off
welcome e =
    authentication_ok
    ∷ (parameter_statuses e.read_only
        ++ backend_key_data e.process_id e.secret_key ∷ ready_for_query ∷ [])

-- `admit`, and the rest of the start.
unfoldable pub enter : Entry → Params → StartupResult × List Message
unfolding welcome send_fatal
enter e params = elim e.admit [
  | some reason ↦ (connection_refused reason, send_fatal sql_state_connection_failure reason)
  | none ↦ (started params, welcome e)
]

-- `authenticate` behind the request for the password, and what follows it. The last part says whether
-- `admit` was asked.
unfoldable pub check_password :
    Entry → Params → List StartupMessage → StartupResult × List Message × Bool
unfolding credentials_match param enter
check_password e params (password_message password ∷ _) =
    let user = param (codes "user") params in
    if credentials_match e user password
    then (let (result, sent) = enter e params in (result, sent, true))
    else (
      auth_failed,
      error_response (codes "FATAL") (codes "28P01")
            (codes "password authentication failed for user " ++ quoted user) []
          ∷ [],
      false,
    )
check_password e params _ = (startup_broken, [], false)

unfoldable pub handle_startup : Entry → List StartupMessage → StartupResult × List Message × Bool
unfolding check_password
handle_startup e [] = (startup_broken, [], false)
handle_startup e (ssl_request ∷ rest) =
    let (result, sent, asked) = handle_startup e rest in (result, encryption_denied ∷ sent, asked)
handle_startup e (gss_enc_request ∷ rest) =
    let (result, sent, asked) = handle_startup e rest in (result, encryption_denied ∷ sent, asked)
handle_startup e (cancel_request pid secret ∷ rest) = (cancel_requested pid secret, [], false)
handle_startup e (startup_message params ∷ rest) =
    let (result, sent, asked) = check_password e params rest in
    (result, authentication_cleartext_password ∷ sent, asked)
handle_startup e (password_message _ ∷ rest) = (startup_broken, [], false)
handle_startup e (other_message ∷ rest) = (startup_broken, [], false)
