-- ===== src/Redash/Views.antt =====
-- internal/redash/registry.go, the published list of data sources and the registry that is replaced
-- as a whole. `sort.Slice` is insertion: two sources of one id do not occur in Redash, so the order
-- of views that compare equal is nobody's concern.
pub mod Same
use redash_wire.Common.{ℕ, Bool, true, false, List, [], ◌∷◌, map, ltb, ◌==◌, if◌then◌else◌}
use redash_wire.Common.Text.{less, Bytes, equal, to_lower}
use redash_wire.Redash.{DataSource}
use redash_wire.Redash.Registry.{DataSourceRegistry, new_data_source_registry, wire_protocol}

pub record DataSourceView : Type 0 where
  pub id : ℕ
  pub name : Bytes
  pub kind : Bytes
  pub wire : Bytes

unfoldable pub view_of : DataSource → DataSourceView
unfolding wire_protocol
view_of ds = record { id = ds.id; name = ds.name; kind = ds.kind; wire = wire_protocol ds.kind }

unfoldable pub view_less : DataSourceView → DataSourceView → Bool
unfolding less equal to_lower
view_less v w =
    let li = to_lower v.name in
    let lj = to_lower w.name in if equal li lj then ltb v.id w.id else less li lj

unfoldable pub insert_view : DataSourceView → List DataSourceView → List DataSourceView
insert_view v [] = v ∷ []
insert_view v (w ∷ ws) = if view_less w v then w ∷ insert_view v ws else v ∷ w ∷ ws

unfoldable pub sort_views : List DataSourceView → List DataSourceView
sort_views [] = []
sort_views (v ∷ vs) = insert_view v (sort_views vs)

unfoldable pub new_data_source_views : List DataSource → List DataSourceView
unfolding sort_views insert_view view_less view_of
new_data_source_views sources = sort_views (map view_of sources)

-- The equality of two published lists, which the checker sees as one of their encodings.
unfoldable pub same_view : DataSourceView → DataSourceView → Bool
same_view v w =
    if v.id == w.id
    then if equal v.name w.name
      then if equal v.kind w.kind then equal v.wire w.wire else false
      else false
    else false

unfoldable pub same_views : List DataSourceView → List DataSourceView → Bool
same_views [] [] = true
same_views [] (w ∷ ws) = false
same_views (v ∷ vs) [] = false
same_views (v ∷ vs) (w ∷ ws) = if same_view v w then same_views vs ws else false

pub record SwappableRegistry : Type 0 where
  pub current : DataSourceRegistry

unfoldable pub new_swappable_registry : List DataSource → SwappableRegistry
new_swappable_registry sources = record { current = new_data_source_registry sources }

unfoldable pub replace : SwappableRegistry → List DataSource → SwappableRegistry
replace s sources = record s { current = new_data_source_registry sources }
