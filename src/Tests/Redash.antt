-- ===== src/Tests/Redash.antt =====
-- internal/redash at concrete inputs.
use redash_wire.Common.{ℕ, true, false, none, some, List, [], ◌∷◌, ◌++◌, ◌+◌, ◌*◌, ◌≤◌, ◌≡◌, refl}
use redash_wire.Common.Text.{codes, equal, to_lower}
use redash_wire.Redash.{DataSource, SchemaTable, Err}
use redash_wire.Redash.Registry.{
  new_data_source_registry, lookup, is_postgres_compatible, is_my_sql_compatible, wire_protocol,
  filter_by_type,
}
use redash_wire.Redash.Registry.Spec.{Answers, lookup-Answers}
use redash_wire.Redash.SchemaCache.{
  Fetched, schema_ok, schema_err, new_schema_cache, get, reset, get_all, Use, gets, resets,
  resets_in, fetches, fetches-new_schema_cache,
}
use redash_wire.Redash.Views.{new_data_source_views, DataSourceView}

abbrev warehouse : DataSource
warehouse = record { id = 7; name = codes "Warehouse"; kind = codes "pg" }

abbrev warehouse_again : DataSource
warehouse_again = record { id = 3; name = codes "WAREHOUSE"; kind = codes "rds_mysql" }

abbrev sources : List DataSource
sources = warehouse ∷ warehouse_again ∷ []

lookup_exact : lookup (new_data_source_registry sources) (codes "Warehouse") ≡ some warehouse
unfolding lookup new_data_source_registry redash_wire.Redash.Registry.dict_lookup
    redash_wire.Redash.Registry.dict_insert equal
lookup_exact = refl

lookup_folded : lookup (new_data_source_registry sources) (codes "warehouse") ≡ some warehouse_again
unfolding lookup new_data_source_registry redash_wire.Redash.Registry.dict_lookup
    redash_wire.Redash.Registry.dict_insert equal to_lower
lookup_folded = refl

lookup_unknown : lookup (new_data_source_registry sources) (codes "lake") ≡ none
unfolding lookup new_data_source_registry redash_wire.Redash.Registry.dict_lookup
    redash_wire.Redash.Registry.dict_insert equal to_lower
lookup_unknown = refl

lookup-Answers_example :
    Answers sources
      (codes "warehouse")
      (lookup (new_data_source_registry sources) (codes "warehouse"))
lookup-Answers_example = lookup-Answers sources (codes "warehouse")

wire_of_redshift : wire_protocol (codes "Redshift") ≡ codes "postgres"
unfolding wire_protocol
wire_of_redshift = refl

wire_of_athena : wire_protocol (codes "athena") ≡ []
unfolding wire_protocol
wire_of_athena = refl

abbrev ids : List DataSourceView → List ℕ
ids [] = []
ids (v ∷ vs) = v.id ∷ ids vs

views_sorted : ids (new_data_source_views sources) ≡ 3 ∷ 7 ∷ []
unfolding new_data_source_views
views_sorted = refl

abbrev timed_out : Err
timed_out = record {
  http_status = none;
  query_error = none;
  context_ended = false;
  text = codes "timeout";
}

abbrev users : List SchemaTable
users = record { name = codes "users"; columns = [] } ∷ []

abbrev fetched : List Fetched
fetched = schema_err timed_out ∷ schema_err timed_out ∷ schema_err timed_out ∷ schema_ok users ∷ []

three_fetches : (get_all new_schema_cache fetched).1 ≡ 3
unfolding get_all get new_schema_cache
three_fetches = refl

abbrev failing : List Use
failing = gets (schema_err timed_out) ∷ gets (schema_err timed_out) ∷ []

abbrev uses : List Use
uses = failing ++ failing ++ resets ∷ failing ++ failing

six_fetches : fetches new_schema_cache uses ≡ 6
unfolding fetches get reset new_schema_cache
six_fetches = refl

fetches-new_schema_cache_example : fetches new_schema_cache uses ≤ 3 + 3 * resets_in uses
fetches-new_schema_cache_example = fetches-new_schema_cache uses

fetched_first : (get new_schema_cache (schema_ok users)).2 ≡ true
unfolding get new_schema_cache
fetched_first = refl
