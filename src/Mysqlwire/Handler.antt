-- ===== src/Mysqlwire/Handler.antt =====
-- internal/mysqlwire/handler.go: the handler's choice of a data source. An error is some, nil is none.
-- The gate does not move within one call; the log is left out.
use redash_wire.Common.{
  ℕ, Bool, true, false, not, Option, none, some, List, [], ◌∷◌, ◌++◌, if◌then◌else◌, ◌≡◌, ◌⊎◌,
}
use redash_wire.Common.Text.{Bytes, codes, equal}
use redash_wire.Redash.{DataSource}
use redash_wire.Redash.Registry.{DataSourceRegistry, lookup, is_my_sql_compatible}
use redash_wire.Redash.SchemaCache.{SchemaCache, new_schema_cache, reset}
use redash_wire.Health.Gate.{Gate, client_message}
use redash_wire.Mysqlwire.{MyError, er_unknown_error, er_bad_db_error}

pub record Handler : Type 0 where
  pub registry : DataSourceRegistry
  pub gate : Gate
  pub read_only : Bool
  pub data_source_id : ℕ
  pub db_name : Bytes
  pub authenticated : Bool
  pub pending_db : Bytes
  pub conn_id : ℕ
  pub schema_cache : SchemaCache

unfoldable pub new_handler : DataSourceRegistry → Gate → Bool → Handler
unfolding new_schema_cache
new_handler registry gate read_only = record {
  registry = registry;
  gate = gate;
  read_only = read_only;
  data_source_id = 0;
  db_name = [];
  authenticated = false;
  pending_db = [];
  conn_id = 0;
  schema_cache = new_schema_cache;
}

abbrev pub gate_error : Gate → MyError
gate_error gate = record { code = er_unknown_error; message = client_message gate }

abbrev pub unknown_database : Bytes → MyError
unknown_database name = record {
  code = er_bad_db_error;
  message = codes "Unknown database '" ++ name ++ codes "'";
}

abbrev pub not_compatible : Bytes → MyError
not_compatible name = record {
  code = er_bad_db_error;
  message = codes "database '" ++ name ++ codes "' is not a MySQL-compatible data source";
}

-- The part of `UseDB` behind the look-up.
unfoldable pub use_found : Handler → Bytes → Option DataSource → Handler × Option MyError
unfolding is_my_sql_compatible reset
use_found h name none = (h, some (unknown_database name))
use_found h name (some ds) =
    if not (is_my_sql_compatible ds.kind) then (h, some (not_compatible name)) else (
      record h { data_source_id = ds.id; db_name = ds.name; schema_cache = reset h.schema_cache },
      none,
    )

unfoldable pub use_db : Handler → Bytes → Handler × Option MyError
unfolding lookup use_found
use_db h name =
    if not h.authenticated
    then (record h { pending_db = name }, none)
    else if not h.gate.up
    then (h, some (gate_error h.gate))
    else use_found h name (lookup h.registry name)

unfoldable pub login : Handler → ℕ → Handler × Option MyError
unfolding equal use_db
login h id =
    let h1 = record h { authenticated = true; conn_id = id } in
    if not h1.gate.up
    then (h1, some (gate_error h1.gate))
    else if equal h1.pending_db []
    then (h1, none)
    else use_db (record h1 { pending_db = [] }) h1.pending_db

-- What go-mysql calls on the handler, with the gate as it is then.
pub data HandlerCall : Type 0 where
  called_use_db : Gate → Bytes → HandlerCall
  called_login : Gate → ℕ → HandlerCall

unfoldable pub handler_call : Handler → HandlerCall → Handler
unfolding use_db login
handler_call h (called_use_db gate name) = (use_db (record h { gate = gate }) name).0
handler_call h (called_login gate id) = (login (record h { gate = gate }) id).0

unfoldable pub handler_calls : Handler → List HandlerCall → Handler
unfolding handler_call
handler_calls h [] = h
handler_calls h (c ∷ cs) = handler_calls (handler_call h c) cs

-- No data source is chosen, or it is one that its registry finds and that is MySQL's.
abbrev pub IsServed : Handler → Type 0
IsServed h =
    (h.data_source_id ≡ 0)
    ⊎ ((name : Bytes) × (ds : DataSource) × (lookup h.registry name ≡ some ds)
        × (is_my_sql_compatible ds.kind ≡ true)
        × (h.data_source_id ≡ ds.id)
        × (h.db_name ≡ ds.name))
