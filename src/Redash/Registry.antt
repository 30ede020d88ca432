-- ===== src/Redash/Registry.antt =====
-- internal/redash/registry.go. A Go map is an association list; a second write to a key replaces the
-- first. `loggedCollisions` only keeps a warning from being logged twice, and is left out.
pub mod Spec
use redash_wire.Common.{
  ℕ, Bool, true, false, ◌||◌, Option, none, some, List, [], ◌∷◌, ltb, if◌then◌else◌, select,
}
use redash_wire.Common.Text.{Bytes, codes, equal, contains, to_lower}
use redash_wire.Redash.{DataSource}

abbrev pub Dict : Type 0
Dict = List (Bytes × DataSource)

unfoldable pub dict_lookup : Bytes → Dict → Option DataSource
dict_lookup k [] = none
dict_lookup k ((j, v) ∷ m) = if equal j k then some v else dict_lookup k m

unfoldable pub dict_insert : Bytes → DataSource → Dict → Dict
dict_insert k v [] = (k, v) ∷ []
dict_insert k v ((j, w) ∷ m) = if equal j k then (j, v) ∷ m else (j, w) ∷ dict_insert k v m

pub record DataSourceRegistry : Type 0 where
  pub by_exact : Dict
  pub by_lower : Dict
  pub all : List DataSource

-- The write to `byLower`: a clash goes to the lower id.
lower_entry : Dict → Bytes → DataSource → Option DataSource → Dict
lower_entry m low ds none = dict_insert low ds m
lower_entry m low ds (some existing) = if ltb ds.id existing.id then dict_insert low ds m else m

-- One round of the loop of `NewDataSourceRegistry`.
unfoldable pub add_source : DataSourceRegistry → DataSource → DataSourceRegistry
unfolding lower_entry
add_source r ds =
    let low = to_lower ds.name in
    record r {
      by_exact = dict_insert ds.name ds r.by_exact;
      by_lower = lower_entry r.by_lower low ds (dict_lookup low r.by_lower);
    }

unfoldable pub add_sources : DataSourceRegistry → List DataSource → DataSourceRegistry
add_sources r [] = r
add_sources r (ds ∷ sources) = add_sources (add_source r ds) sources

unfoldable pub new_data_source_registry : List DataSource → DataSourceRegistry
unfolding add_sources add_source
new_data_source_registry sources =
    add_sources (record { by_exact = []; by_lower = []; all = sources }) sources

unfoldable pub lookup : DataSourceRegistry → Bytes → Option DataSource
lookup r name = elim (dict_lookup name r.by_exact) [
  | some ds ↦ some ds
  | none ↦ dict_lookup (to_lower name) r.by_lower
]

unfoldable pub is_postgres_compatible : Bytes → Bool
unfolding equal contains to_lower
is_postgres_compatible ds_type =
    let t = to_lower ds_type in
    equal t (codes "pg")
    || equal t (codes "postgres")
    || equal t (codes "postgresql")
    || equal t (codes "redshift")
    || equal t (codes "cockroachdb")
    || contains t (codes "postgres")

unfoldable pub is_my_sql_compatible : Bytes → Bool
unfolding equal contains to_lower
is_my_sql_compatible ds_type =
    let t = to_lower ds_type in
    equal t (codes "mysql")
    || equal t (codes "rds_mysql")
    || equal t (codes "aurora_mysql")
    || equal t (codes "mariadb")
    || contains t (codes "mysql")

unfoldable pub filter_by_type : List DataSource → (Bytes → Bool) → List DataSource
filter_by_type sources pred = select (λ ds. pred ds.kind) sources

-- "postgres", "mysql" or "".
unfoldable pub wire_protocol : Bytes → Bytes
unfolding is_postgres_compatible is_my_sql_compatible
wire_protocol ds_type =
    if is_postgres_compatible ds_type
    then codes "postgres"
    else if is_my_sql_compatible ds_type
    then codes "mysql"
    else []
