-- ===== src/Tests/Mysqlwire.antt =====
-- internal/mysqlwire at concrete inputs.
use redash_wire.Common.{true, false, none, some, List, [], ◌∷◌, ◌≡◌, refl}
use redash_wire.Common.Text.{Bytes, codes, equal, decimal, fields}
use redash_wire.Redash.{DataSource}
use redash_wire.Redash.Registry.{DataSourceRegistry, new_data_source_registry}
use redash_wire.Health.Gate.{new_gate}
use redash_wire.Mysqlwire.Handler.{
  HandlerCall, called_use_db, called_login, handler_calls, new_handler,
}
use redash_wire.Mysqlwire.Auth.{
  CredentialAuthHandler, Handshake, handshake, denied, let_in, handshake-answer_in,
}
use redash_wire.Mysqlwire.Scan.{normalize}
use redash_wire.Mysqlwire.Kill.{
  parse_kill, kill, trim_semicolon, handle_kill, table_after, ConnEvent, conn_added, conn_removed,
  remote_started, query_cancelled, disconnected,
}
use redash_wire.Mysqlwire.Kill.Table.{handle_kill-table_after}

abbrev shop : DataSource
shop = record { id = 4; name = codes "shop"; kind = codes "rds_mysql" }

abbrev lake : DataSource
lake = record { id = 5; name = codes "lake"; kind = codes "pg" }

abbrev registry : DataSourceRegistry
registry = new_data_source_registry (shop ∷ lake ∷ [])

abbrev calls : List HandlerCall
calls =
    called_use_db new_gate (codes "shop")
    ∷ called_login new_gate 1
    ∷ called_use_db new_gate (codes "lake")
    ∷ []

shop_stays : (handler_calls (new_handler registry new_gate false) calls).data_source_id ≡ 4
unfolding handler_calls redash_wire.Mysqlwire.Handler.handler_call
    redash_wire.Mysqlwire.Handler.login redash_wire.Mysqlwire.Handler.use_db
    redash_wire.Mysqlwire.Handler.use_found new_handler new_gate new_data_source_registry
    redash_wire.Redash.Registry.lookup redash_wire.Redash.Registry.is_my_sql_compatible equal
    redash_wire.Redash.Registry.dict_lookup redash_wire.Redash.Registry.dict_insert
shop_stays = refl

abbrev auth : CredentialAuthHandler
auth = record { username = codes "dev"; password = codes "secret"; decoy = codes "xyz" }

abbrev client : Handshake
client = record { user = codes "dev"; response = codes "secret"; database = codes "shop" }

abbrev stranger : Handshake
stranger = record { user = codes "root"; response = codes "secret"; database = codes "shop" }

decoy_fails : equal (codes "xyz") (codes "secret") ≡ false
unfolding equal
decoy_fails = refl

handshake-answer_in_example :
    (handshake equal auth 1 (new_handler registry new_gate false) client).1 ≡ let_in
unfolding equal redash_wire.Mysqlwire.Auth.outcome_of redash_wire.Mysqlwire.Auth.named_database
    redash_wire.Mysqlwire.Handler.use_db redash_wire.Mysqlwire.Handler.use_found new_handler
    new_gate new_data_source_registry redash_wire.Redash.Registry.lookup
    redash_wire.Redash.Registry.is_my_sql_compatible redash_wire.Redash.Registry.dict_lookup
    redash_wire.Redash.Registry.dict_insert
handshake-answer_in_example =
    handshake-answer_in equal auth 1 registry new_gate false client decoy_fails

stranger_denied : (handshake equal auth 1 (new_handler registry new_gate false) stranger).1 ≡ denied
unfolding handshake redash_wire.Mysqlwire.Auth.named_database new_handler equal
    redash_wire.Mysqlwire.Handler.use_db redash_wire.Mysqlwire.Auth.get_credential
stranger_denied = refl

abbrev kill_text : Bytes
kill_text = codes " KILL /* now */ Query 7;"

kill_seven : parse_kill kill_text ≡ some (kill 7 true)
unfolding parse_kill
kill_seven = refl

seven_words :
    fields (trim_semicolon (normalize kill_text)) ≡ codes "kill" ∷ codes "query" ∷ decimal 7 ∷ []
unfolding fields trim_semicolon normalize decimal
seven_words = refl

abbrev past : List ConnEvent
past = remote_started 7 ∷ conn_added 8 ∷ conn_added 7 ∷ []

handle_kill-table_after_example :
    handle_kill (table_after past) 7 false ≡ (none, query_cancelled 7 ∷ disconnected 7 ∷ [])
unfolding redash_wire.Mysqlwire.Kill.Table.running
handle_kill-table_after_example = handle_kill-table_after past 7 false
