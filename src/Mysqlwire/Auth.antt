-- ===== src/Mysqlwire/Auth.antt =====
-- internal/mysqlwire/auth.go and server.go's `handleConn` up to the end of the handshake. go-mysql
-- hands the handler the database of the handshake, checks what the client sends against the password
-- of `GetCredential`, and calls `OnAuthSuccess` only if it fits. That check is the parameter `fits`.
use redash_wire.Common.{
  ℕ, Bool, true, false, not, ◌&&◌, Option, none, some, [], ◌∷◌, if◌then◌else◌, ◌≡◌, refl, ap, ◌∙◌,
  Bool-cases, inl, inr,
}
use redash_wire.Common.Text.{Bytes, equal}
use redash_wire.Health.Gate.{Gate}
use redash_wire.Redash.Registry.{DataSourceRegistry}
use redash_wire.Mysqlwire.{MyError}
use redash_wire.Mysqlwire.Handler.{Handler, new_handler, use_db, login, gate_error}

pub record CredentialAuthHandler : Type 0 where
  pub username : Bytes
  pub password : Bytes
  -- A random text of the connection.
  pub decoy : Bytes

-- The one password that go-mysql is given; it is always given one.
unfoldable pub get_credential : CredentialAuthHandler → Bytes → Bytes
unfolding equal
get_credential a user = if equal user a.username then a.password else a.decoy

-- What a client sends in its handshake.
pub record Handshake : Type 0 where
  pub user : Bytes
  pub response : Bytes
  pub database : Bytes

-- What the client is told: that it is let in, an error of the handler, or go-mysql's own "Access
-- denied", which names the user only.
pub data Outcome : Type 0 where
  let_in : Outcome
  refused : MyError → Outcome
  denied : Outcome

unfoldable pub outcome_of : Option MyError → Outcome
outcome_of none = let_in
outcome_of (some e) = refused e

-- A database is handed on only if the client names one.
unfoldable pub named_database : Handler → Bytes → Handler × Option MyError
unfolding equal use_db
named_database h db = if equal db [] then (h, none) else use_db h db

-- An error of `UseDB` ends the handshake at once.
check_response :
    (Bytes → Bytes → Bool)
    → CredentialAuthHandler
    → ℕ
    → Handshake
    → Handler
    → Option MyError
    → Handler × Outcome
unfolding get_credential login outcome_of
check_response fits a id client h (some e) = (h, refused e)
check_response fits a id client h none =
    if fits (get_credential a client.user) client.response
    then (let (h', err) = login h id in (h', outcome_of err))
    else (h, denied)

unfoldable pub handshake :
    (Bytes → Bytes → Bool) → CredentialAuthHandler → ℕ → Handler → Handshake → Handler × Outcome
unfolding named_database check_response
handshake fits a id h client =
    let (h1, err) = named_database h client.database in check_response fits a id client h1 err

-- Whether a client has the configured name and password.
abbrev knows : (Bytes → Bytes → Bool) → CredentialAuthHandler → Handshake → Bool
knows fits a client = equal client.user a.username && fits a.password client.response

-- What a session that has logged in answers to the database, or the gate before it.
abbrev answer_in : Handler → Bytes → Option MyError
answer_in h db = if not h.gate.up then some (gate_error h.gate) else (named_database h db).1

abbrev session_of : DataSourceRegistry → Gate → Bool → ℕ → Handler
session_of registry gate read_only id = record (new_handler registry gate read_only) {
  authenticated = true;
  conn_id = id;
}

-- For a new session, what `login` says of the database that was handed on.
login-named_database :
    (registry : DataSourceRegistry) (gate : Gate) (read_only : Bool) (id : ℕ) (db : Bytes)
    → (login (named_database (new_handler registry gate read_only) db).0 id).1
      ≡ answer_in (session_of registry gate read_only id) db
unfolding named_database login use_db new_handler equal
login-named_database registry gate read_only id [] = elim (Bool-cases gate.up) [
  | inl g ↦ rw g refl
  | inr g ↦ rw g refl
]
login-named_database registry gate read_only id (c ∷ cs) = elim (Bool-cases gate.up) [
  | inl g ↦ rw g refl
  | inr g ↦ rw g refl
]

named_database-ok :
    (registry : DataSourceRegistry) (gate : Gate) (read_only : Bool) (db : Bytes)
    → (named_database (new_handler registry gate read_only) db).1 ≡ none
unfolding named_database use_db new_handler equal
named_database-ok registry gate read_only [] = refl
named_database-ok registry gate read_only (c ∷ cs) = refl

response_checked :
    (fits : Bytes → Bytes → Bool) (a : CredentialAuthHandler) (id : ℕ) (client : Handshake)
    (h : Handler) (e : Option MyError)
    → fits a.decoy client.response ≡ false
    → e ≡ none
    → (check_response fits a id client h e).1
      ≡ (if knows fits a client then outcome_of (login h id).1 else denied)
unfolding check_response get_credential
response_checked fits a id client h (some e) n o = cc
response_checked fits a id client h none n o = elim (Bool-cases (equal client.user a.username)) [
  | inr u ↦ rw (u, n) refl
  | inl u ↦ elim (Bool-cases (fits a.password client.response)) [
    | inl f ↦ rw (u, f) refl
    | inr f ↦ rw (u, f) refl
  ]
]

-- No response of the client fits the decoy. Then a client without the configured name and password is
-- told "Access denied", whatever the database it names, the data sources and the gate; one that has
-- them is told what a session that has logged in answers to the choice of that database.
pub handshake-answer_in :
    (fits : Bytes → Bytes → Bool) (a : CredentialAuthHandler) (id : ℕ)
    (registry : DataSourceRegistry) (gate : Gate) (read_only : Bool) (client : Handshake)
    → fits a.decoy client.response ≡ false
    → (handshake fits a id (new_handler registry gate read_only) client).1 ≡ (
        if knows fits a client
        then outcome_of (answer_in (session_of registry gate read_only id) client.database)
        else denied)
unfolding handshake
handshake-answer_in fits a id registry gate read_only client n =
    let named = named_database (new_handler registry gate read_only) client.database in
    response_checked fits a id client named.0 named.1 n
      (named_database-ok registry gate read_only client.database)
    ∙ ap (λ e. if knows fits a client then outcome_of e else denied)
        (login-named_database registry gate read_only id client.database)
