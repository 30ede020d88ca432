-- ===== src/Tests/Pgwire.antt =====
-- internal/pgwire at concrete inputs.
use redash_wire.Common.{true, false, none, List, [], ◌∷◌, ◌≡◌, ◌==◌, if◌then◌else◌, refl}
use redash_wire.Common.Text.{Bytes, codes, trim_space}
use redash_wire.Sqltext.Mask.{postgres}
use redash_wire.Sqltext.Verb.{write_verb}
use redash_wire.Pgwire.Query.{is_local_query, is_catalog_query}
use redash_wire.Pgwire.Query.Local.{asks_for_read_write}
use redash_wire.Pgwire.Query.Local.Setting.{split_host_port}
use redash_wire.Pgwire.Query.Result.{
  null, text_value, Row, DatetimeKind, datetime_text, datetime_naive, datetime_aware, Times,
  command_tag,
}
use redash_wire.Pgwire.Startup.{
  Entry, StartupMessage, ssl_request, startup_message, password_message,
}
use redash_wire.Pgwire.Rewrite.{rewrite_timestamp_comparisons}
use redash_wire.Pgwire.Rewrite.Reads.{rewrite_timestamp_comparisons-write_verb}

local_statements :
    (is_local_query (codes "set\nx = 1") ≡ true)
    × (is_local_query (codes "settings") ≡ false)
    × (is_local_query (codes "select version()") ≡ true)
    × (is_local_query (codes "select 'pg_database' from t") ≡ false)
    × (is_catalog_query (codes "select 1 from pg_catalog.pg_class") ≡ true)
unfolding is_local_query is_catalog_query
local_statements = (refl, refl, refl, refl, refl)

asks_off :
    asks_for_read_write
      (codes "set default_transaction_read_only = off")
      (codes "SET default_transaction_read_only = 'OFF'")
    ≡ true
unfolding asks_for_read_write
asks_off = refl

asks_begin : asks_for_read_write (codes "begin isolation level serializable, read write;") [] ≡ true
unfolding asks_for_read_write
asks_begin = refl

bracketed_address : split_host_port (codes "[::1]:15432") ≡ (codes "::1", codes "15432")
unfolding split_host_port
bracketed_address = refl

tag_of_delete : command_tag (codes "DELETE FROM t") 0 ≡ codes "DELETE 0"
unfolding command_tag
tag_of_delete = refl

rewritten :
    rewrite_timestamp_comparisons
      (codes "UPDATE t SET a = ' where ' WHERE \"at\" = '2024-01-15 10:30:00.123+00' and b = 1")
    ≡ codes
        "UPDATE t SET a = ' where ' WHERE date_trunc('milliseconds', \"at\") = '2024-01-15 10:30:00.123+00' and b = 1"
unfolding rewrite_timestamp_comparisons
rewritten = refl

whole_seconds :
    rewrite_timestamp_comparisons (codes "delete from t where \"at\" = '2024-01-15 10:30:00'")
    ≡ codes "delete from t where \"at\" = '2024-01-15 10:30:00'"
unfolding rewrite_timestamp_comparisons
whole_seconds = refl

reads_only :
    write_verb postgres (trim_space (codes " select \"a\" = '2024-01-15 10:30:00.123' ")) ≡ []
unfolding write_verb trim_space
reads_only = refl

rewrite_timestamp_comparisons-write_verb_example :
    rewrite_timestamp_comparisons (trim_space (codes " select \"a\" = '2024-01-15 10:30:00.123' "))
    ≡ trim_space (codes " select \"a\" = '2024-01-15 10:30:00.123' ")
rewrite_timestamp_comparisons-write_verb_example =
    rewrite_timestamp_comparisons-write_verb (codes " select \"a\" = '2024-01-15 10:30:00.123' ")
      reads_only

abbrev ends_in_z : Bytes → DatetimeKind
ends_in_z [] = datetime_text
ends_in_z (c ∷ []) = if c == b'Z' then datetime_aware else datetime_naive
ends_in_z (c ∷ d ∷ s) = ends_in_z (d ∷ s)

abbrev times : Times
times = record { kind_of = ends_in_z; format = λ k s. s }

abbrev rows : List Row
rows =
    ((codes "at", text_value (codes "2024-01-15T10:30:00Z")) ∷ []) ∷ ((codes "at", null) ∷ []) ∷ []

abbrev entry : Entry
entry = record {
  username = codes "me";
  password = codes "secret";
  process_id = 1;
  secret_key = codes "abcd";
  read_only = true;
  admit = none;
}

abbrev wrong_password : List StartupMessage
wrong_password =
    ssl_request
    ∷ startup_message ((codes "user", codes "me") ∷ [])
    ∷ password_message (codes "guess")
    ∷ []
