-- ===== src/Pgwire/Startup/Auth.antt =====
-- internal/pgwire/startup.go and the credentials.
use redash_wire.Common.{Bool, true, false, some, List, ◌∷◌, ◌≡◌, ◌⊎◌, All}
use redash_wire.Common.Text.{Bytes, codes, equal}
use redash_wire.Pgwire.Message.{
  Message, error_response, encryption_denied, authentication_cleartext_password,
}
use redash_wire.Pgwire.Query.Local.{Params, param}
use redash_wire.Pgwire.Startup.{
  StartupMessage, ssl_request, gss_enc_request, startup_message, password_message, StartupResult,
  started, connection_refused, Entry,
}

-- The client gave the configured user and password, in the order of the protocol.
pub data Proves (e : Entry) : List StartupMessage → Params → Type 0 where
  behind_ssl :
      (ms : List StartupMessage) (ps : Params) → Proves e ms ps → Proves e (ssl_request ∷ ms) ps
  behind_gss :
      (ms : List StartupMessage) (ps : Params) → Proves e ms ps → Proves e (gss_enc_request ∷ ms) ps
  proves :
      (ps : Params) (ms : List StartupMessage)
      → param (codes "user") ps ≡ e.username
      → Proves e (startup_message ps ∷ password_message e.password ∷ ms) ps

-- Messages that say nothing of the server but that it asks for a password.
unfoldable pub is_reserved : Message → Bool
is_reserved encryption_denied = true
is_reserved authentication_cleartext_password = true
is_reserved (error_response _ code _ _) = equal code (codes "28P01")
is_reserved _ = false

unfoldable pub is_started : StartupResult → Bool
is_started (started _) = true
is_started _ = false

-- What may come of a start under a condition on the parameters that let a client in.
abbrev pub Guarded : (Params → Type 0) → Entry → StartupResult × List Message × Bool → Type 0
Guarded P e (result, sent, asked) =
    ((ps : Params) × P ps
      × ((result ≡ started ps)
          ⊎ ((reason : Bytes) × (result ≡ connection_refused reason) × (e.admit ≡ some reason))))
    ⊎ ((asked ≡ false) × All (λ m. is_reserved m ≡ true) sent × (is_started result ≡ false))
