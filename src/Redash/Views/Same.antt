-- ===== src/Redash/Views/Same.antt =====
-- internal/redash/registry.go: two published lists that count as equal, and the list that a registry
-- holds.
use redash_wire.Common.{true, List, [], ◌∷◌, ◌≡◌, refl, arith}
use redash_wire.Common.Text.{equal_iff}
use redash_wire.Redash.{DataSource}
use redash_wire.Redash.Registry.{
  DataSourceRegistry, add_source, add_sources, new_data_source_registry,
}
use redash_wire.Redash.Views.{DataSourceView, same_view, same_views}

same_view_eq : (v w : DataSourceView) → same_view v w ≡ true → v ≡ w
unfolding same_view
same_view_eq v w h =
    ground (arith, equal_iff v.name w.name, equal_iff v.kind w.kind, equal_iff v.wire w.wire)

pub same_views_eq : (vs ws : List DataSourceView) → same_views vs ws ≡ true → vs ≡ ws
unfolding same_views
same_views_eq [] [] h = refl
same_views_eq [] (w ∷ ws) h = absurd cc
same_views_eq (v ∷ vs) [] h = absurd cc
same_views_eq (v ∷ vs) (w ∷ ws) h = ground (arith, same_view_eq v w, same_views_eq vs ws)

-- The registry of a list holds the list.
all-add_sources :
    (sources : List DataSource) (r : DataSourceRegistry) → (add_sources r sources).all ≡ r.all
unfolding add_sources add_source
all-add_sources [] r = refl
all-add_sources (ds ∷ sources) r = all-add_sources sources (add_source r ds)

pub all-new_data_source_registry :
    (sources : List DataSource) → (new_data_source_registry sources).all ≡ sources
unfolding new_data_source_registry
all-new_data_source_registry sources = all-add_sources sources _
