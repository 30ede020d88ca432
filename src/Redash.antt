-- ===== src/Redash.antt =====
-- The package internal/redash: its data, and its errors as far as the callers look into them.
pub mod Registry
pub mod SchemaCache
pub mod Views
pub mod Job
pub mod Reader
pub mod Client
use redash_wire.Common.{ℕ, Bool, true, false, ◌||◌, Option, none, some, List, ◌==◌}
use redash_wire.Common.Text.{Bytes}

pub record DataSource : Type 0 where
  pub id : ℕ
  pub name : Bytes
  pub kind : Bytes

pub record SchemaColumn : Type 0 where
  pub name : Bytes
  pub kind : Bytes
  pub comment : Bytes

pub record SchemaTable : Type 0 where
  pub name : Bytes
  pub columns : List SchemaColumn

-- A Go error, by what `errors.As` and `errors.Is` find in its chain: the status of an `httpError`,
-- the message of a `QueryError`, a context that ended; and its text.
pub record Err : Type 0 where
  pub http_status : Option ℕ
  pub query_error : Option Bytes
  pub context_ended : Bool
  pub text : Bytes

-- `isFatalStatus`: 401, 403 and 404.
unfoldable pub is_fatal_status : ℕ → Bool
is_fatal_status code = code == 401 || code == 403 || code == 404
