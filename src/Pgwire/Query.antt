-- ===== src/Pgwire/Query.antt =====
-- internal/pgwire/query.go: which statements the proxy answers itself, and with what.
pub mod Local
pub mod Result
use redash_wire.Common.{
  ℕ, Bool, true, false, not, ◌&&◌, ◌||◌, Option, none, some, List, [], ◌∷◌, any, length, drop,
  get_elem?, ltb, ◌==◌, if◌then◌else◌,
}
use redash_wire.Common.Text.{Bytes, codes, to_lower, trim_space, has_prefix, contains}
use redash_wire.Sqltext.Mask.{postgres}
use redash_wire.Sqltext.Redact.{redact}
use redash_wire.Sqltext.Token.{contains_token}

unfoldable pub normalize : Bytes → Bytes
unfolding to_lower trim_space redact
normalize sql = to_lower (trim_space (redact postgres sql))

-- catalog.go, `isSpace`: narrower than the white space of `strings.TrimSpace`.
abbrev pub is_space : ℕ → Bool
is_space b = b == b' ' || b == 9 || b == 10 || b == 13

-- The byte behind the keyword is there and is white space.
opens_space : Bytes → Bool
opens_space [] = false
opens_space (c ∷ _) = is_space c

unfoldable pub has_keyword : Bytes → Bytes → Bool
unfolding opens_space has_prefix
has_keyword lower kw = has_prefix lower kw && opens_space (drop (length kw) lower)

unfoldable pub is_simple_select : Bytes → Bool
unfolding has_keyword contains_token
is_simple_select lower =
    has_keyword lower (codes "select") && not (contains_token lower (codes "from"))

abbrev pub function_patterns : List Bytes
function_patterns =
    codes "version()"
    ∷ codes "current_database()"
    ∷ codes "current_schema()"
    ∷ codes "current_schemas("
    ∷ codes "current_user"
    ∷ codes "session_user"
    ∷ codes "inet_server_addr()"
    ∷ codes "inet_server_port()"
    ∷ codes "pg_is_in_recovery()"
    ∷ codes "pg_backend_pid()"
    ∷ codes "pg_postmaster_start_time()"
    ∷ []

-- `IsLocalQuery` on the normalized statement.
unfoldable pub is_local : Bytes → Bool
unfolding has_keyword has_prefix is_simple_select contains_token
is_local lower =
    has_keyword lower (codes "set")
    || has_keyword lower (codes "show")
    || has_prefix lower (codes "begin")
    || has_prefix lower (codes "commit")
    || has_prefix lower (codes "rollback")
    || has_prefix lower (codes "deallocate")
    || has_prefix lower (codes "close")
    || has_prefix lower (codes "discard")
    || (is_simple_select lower && any (λ pattern. contains_token lower pattern) function_patterns)
    || contains_token lower (codes "pg_database")

unfoldable pub is_local_query : Bytes → Bool
unfolding normalize is_local
is_local_query sql = is_local (normalize sql)

abbrev pub pg_tables : List Bytes
pg_tables =
    codes "pg_type"
    ∷ codes "pg_class"
    ∷ codes "pg_namespace"
    ∷ codes "pg_proc"
    ∷ codes "pg_attribute"
    ∷ codes "pg_attrdef"
    ∷ codes "pg_constraint"
    ∷ codes "pg_index"
    ∷ codes "pg_trigger"
    ∷ codes "pg_description"
    ∷ codes "pg_depend"
    ∷ codes "pg_extension"
    ∷ codes "pg_enum"
    ∷ codes "pg_inherits"
    ∷ codes "pg_sequence"
    ∷ codes "pg_collation"
    ∷ codes "pg_am"
    ∷ codes "pg_roles"
    ∷ codes "pg_user"
    ∷ codes "pg_views"
    ∷ codes "pg_tables"
    ∷ codes "pg_indexes"
    ∷ codes "pg_settings"
    ∷ codes "pg_database"
    ∷ codes "pg_available_extensions"
    ∷ []

unfoldable pub contains_pg_catalog_ref : Bytes → Bool
unfolding contains_token contains
contains_pg_catalog_ref lower =
    contains_token lower (codes "pg_catalog.")
    || contains_token lower (codes "information_schema.")
    || any (λ t. contains_token lower t) pg_tables
    || any (λ prefix. contains lower prefix) (codes "pg_statio_" ∷ codes "pg_stat_" ∷ [])

unfoldable pub is_catalog_query : Bytes → Bool
unfolding normalize contains_pg_catalog_ref
is_catalog_query sql = contains_pg_catalog_ref (normalize sql)
