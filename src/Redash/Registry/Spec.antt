-- ===== src/Redash/Registry/Spec.antt =====
-- internal/redash/registry.go: the registry and the list of its sources.
use redash_wire.Common.{
  ◌≤◌, false, Option, none, some, List, [], ◌∷◌, ltb, if◌then◌else◌, ◌≡◌, ◌≢◌, ◌⊎◌, All, refl, sym,
  ap, ◌∙◌, inl, inr, Bool-cases, Option-cases, arith,
}
use redash_wire.Common.Text.{Bytes, equal, equal_iff, to_lower}
use redash_wire.Redash.{DataSource}
use redash_wire.Redash.Registry.{
  Dict, dict_lookup, dict_insert, DataSourceRegistry, add_source, add_sources,
  new_data_source_registry, lookup,
}

dict_lookup-insert :
    (k j : Bytes) (v : DataSource) (m : Dict)
    → dict_lookup j (dict_insert k v m) ≡ (if equal k j then some v else dict_lookup j m)
unfolding dict_lookup dict_insert
dict_lookup-insert k j v [] = refl
dict_lookup-insert k j v ((i, w) ∷ m) =
    ground (arith, equal_iff k j, equal_iff i k, equal_iff i j, dict_lookup-insert k j v m)

-- The last source of that very name.
pub last_named : Bytes → List DataSource → Option DataSource → Option DataSource
last_named name [] found = found
last_named name (ds ∷ sources) found =
    last_named name sources (if equal ds.name name then some ds else found)

-- The better of a source found so far and a new one: the lower id, and the earlier of equal ids.
pub lower_id : DataSource → Option DataSource → Option DataSource
lower_id ds none = some ds
lower_id ds (some old) = if ltb ds.id old.id then some ds else some old

-- The source of lowest id among those whose name is `low` in lower case.
pub lowest_named : Bytes → List DataSource → Option DataSource → Option DataSource
lowest_named low [] found = found
lowest_named low (ds ∷ sources) found =
    lowest_named low sources (if equal (to_lower ds.name) low then lower_id ds found else found)

by_exact-add_sources :
    (sources : List DataSource) (r : DataSourceRegistry) (name : Bytes)
    → dict_lookup name (add_sources r sources).by_exact
      ≡ last_named name sources (dict_lookup name r.by_exact)
unfolding add_sources add_source last_named
by_exact-add_sources [] r name = refl
by_exact-add_sources (ds ∷ sources) r name =
    by_exact-add_sources sources (add_source r ds) name
    ∙ ap (last_named name sources) (dict_lookup-insert ds.name name ds r.by_exact)

by_lower-add_source :
    (ds : DataSource) (r : DataSourceRegistry) (low : Bytes)
    → dict_lookup low (add_source r ds).by_lower ≡ (
        if equal (to_lower ds.name) low
        then lower_id ds (dict_lookup low r.by_lower)
        else dict_lookup low r.by_lower)
unfolding add_source lower_id
by_lower-add_source ds r low = ground (
  arith,
  dict_lookup-insert (to_lower ds.name) low ds r.by_lower,
  equal_iff (to_lower ds.name) low,
)

by_lower-add_sources :
    (sources : List DataSource) (r : DataSourceRegistry) (low : Bytes)
    → dict_lookup low (add_sources r sources).by_lower
      ≡ lowest_named low sources (dict_lookup low r.by_lower)
unfolding add_sources lowest_named
by_lower-add_sources [] r low = refl
by_lower-add_sources (ds ∷ sources) r low =
    by_lower-add_sources sources (add_source r ds) low
    ∙ ap (lowest_named low sources) (by_lower-add_source ds r low)

abbrev pub In : DataSource → List DataSource → Type 0
In ds [] = ⊥
In ds (x ∷ xs) = (ds ≡ x) ⊎ In ds xs

last_named-some :
    (name : Bytes) (sources : List DataSource) (found : Option DataSource) (ds : DataSource)
    → last_named name sources found ≡ some ds
    → (found ≡ some ds) ⊎ (In ds sources × (ds.name ≡ name))
unfolding last_named
last_named-some name [] found ds h = inl h
last_named-some name (x ∷ xs) found ds h =
    elim (last_named-some name xs (if equal x.name name then some x else found) ds h) [
      | inl e ↦ ground (arith, equal_iff x.name name)
      | inr (m, e) ↦ inr (inr m, e)
    ]

last_named-none :
    (name : Bytes) (sources : List DataSource) (found : Option DataSource)
    → last_named name sources found ≡ none
    → (found ≡ none) × All (λ s. equal s.name name ≡ false) sources
unfolding last_named
last_named-none name [] found h = (h, tt)
last_named-none name (x ∷ xs) found h =
    let (e, all) = last_named-none name xs (if equal x.name name then some x else found) h in
    elim (Bool-cases (equal x.name name)) [ inl k ↦ cc (rw k at e) | inr k ↦ (rw k at e, (k, all)) ]

-- `ds` is at most what was found before.
abbrev LeFound : DataSource → Option DataSource → Type 0
LeFound ds none = Unit
LeFound ds (some old) = ds.id ≤ old.id

record Lowest (low : Bytes) (sources : List DataSource) (found : Option DataSource)
    (ds : DataSource) : Type 0 where
  from_list : (found ≡ some ds) ⊎ (In ds sources × (to_lower ds.name ≡ low))
  le_found : LeFound ds found
  le_all : All (λ s. (equal (to_lower s.name) low ≡ false) ⊎ (ds.id ≤ s.id)) sources

lower_id_cases :
    (x : DataSource) (found : Option DataSource) (ds : DataSource)
    → lower_id x found ≡ some ds
    → (ds ≡ x) ⊎ (found ≡ some ds)
unfolding lower_id
lower_id_cases x none ds h = inl cc
lower_id_cases x (some old) ds h = ground arith

lower_id_le :
    (x : DataSource) (found : Option DataSource) (ds : DataSource)
    → LeFound ds (lower_id x found)
    → LeFound ds found × (ds.id ≤ x.id)
unfolding lower_id
lower_id_le x none ds h = (tt, h)
lower_id_le x (some old) ds h = elim (Bool-cases (ltb x.id old.id)) [
  | inl k ↦ let h' : ds.id ≤ x.id = rw k at h in (ground arith, h')
  | inr k ↦ let h' : ds.id ≤ old.id = rw k at h in (h', ground arith)
]

LeFound-refl : (found : Option DataSource) (ds : DataSource) → found ≡ some ds → LeFound ds found
LeFound-refl none ds h = tt
LeFound-refl (some old) ds h = ground arith

lowest_named-some :
    (low : Bytes) (sources : List DataSource) (found : Option DataSource) (ds : DataSource)
    → lowest_named low sources found ≡ some ds
    → Lowest low sources found ds
unfolding lowest_named
lowest_named-some low [] found ds h = record {
  from_list = inl h;
  le_found = LeFound-refl found ds h;
  le_all = tt;
}
lowest_named-some low (x ∷ xs) found ds h = elim (Bool-cases (equal (to_lower x.name) low)) [
  | inl k ↦
      let ih = lowest_named-some low xs (lower_id x found) ds (rw (k, lowest_named) at h) in
      let (l, l') = lower_id_le x found ds ih.le_found in
      record {
        from_list = elim ih.from_list [
          | inl e ↦ elim (lower_id_cases x found ds e) [
            | inl q ↦ inr (inl q, rw q ((equal_iff (to_lower x.name) low).0 k))
            | inr q ↦ inl q
          ]
          | inr (m, e) ↦ inr (inr m, e)
        ];
        le_found = l;
        le_all = (inr l', ih.le_all);
      }
  | inr k ↦
      let ih = lowest_named-some low xs found ds (rw (k, lowest_named) at h) in
      record {
        from_list = elim ih.from_list [ inl e ↦ inl e | inr (m, e) ↦ inr (inr m, e) ];
        le_found = ih.le_found;
        le_all = (inl k, ih.le_all);
      }
]

lower_id-ne-none : (x : DataSource) (found : Option DataSource) → lower_id x found ≢ none
unfolding lower_id
lower_id-ne-none x none h = cc
lower_id-ne-none x (some old) h = ground arith

lowest_named-none :
    (low : Bytes) (sources : List DataSource) (found : Option DataSource)
    → lowest_named low sources found ≡ none
    → (found ≡ none) × All (λ s. equal (to_lower s.name) low ≡ false) sources
unfolding lowest_named
lowest_named-none low [] found h = (h, tt)
lowest_named-none low (x ∷ xs) found h =
    let (e, all) = lowest_named-none low xs _ h in
    elim (Bool-cases (equal (to_lower x.name) low)) [
      | inl k ↦ absurd (lower_id-ne-none x found (rw k at e))
      | inr k ↦ (rw k at e, (k, all))
    ]

-- The source that a client gets for `name`: one of that very name, if there is any, and else the one
-- of lowest id among those whose names differ in case only.
pub data Resolves (sources : List DataSource) (name : Bytes) (ds : DataSource) : Type 0 where
  exact : In ds sources → ds.name ≡ name → Resolves sources name ds
  folded :
      All (λ s. equal s.name name ≡ false) sources
      → In ds sources
      → to_lower ds.name ≡ to_lower name
      → All (λ s. (equal (to_lower s.name) (to_lower name) ≡ false) ⊎ (ds.id ≤ s.id)) sources
      → Resolves sources name ds

abbrev empty_registry : List DataSource → DataSourceRegistry
empty_registry sources = record { by_exact = []; by_lower = []; all = sources }

lookup_cases :
    (sources : List DataSource) (name : Bytes)
    → ((ds : DataSource) × (last_named name sources none ≡ some ds)
        × (lookup (new_data_source_registry sources) name ≡ some ds))
      ⊎ ((last_named name sources none ≡ none)
          × (lookup (new_data_source_registry sources) name
              ≡ lowest_named (to_lower name) sources none))
unfolding lookup new_data_source_registry dict_lookup
lookup_cases sources name =
    let e = by_exact-add_sources sources (empty_registry sources) name in
    let f = by_lower-add_sources sources (empty_registry sources) (to_lower name) in
    elim (Option-cases (last_named name sources none)) [
      | inl n ↦ inr (n, rw (e ∙ n, lookup) f)
      | inr (ds, s) ↦ inl (ds, s, rw (e ∙ s, lookup))
    ]

-- What the registry answers with is resolved by the rule, whatever the order of the sources.
lookup-Resolves :
    (sources : List DataSource) (name : Bytes) (ds : DataSource)
    → lookup (new_data_source_registry sources) name ≡ some ds
    → Resolves sources name ds
lookup-Resolves sources name ds h = elim (lookup_cases sources name) [
  | inl (x, s, e) ↦ elim (last_named-some name sources none ds (s ∙ sym e ∙ h)) [
    | inl q ↦ cc
    | inr (m, q) ↦ exact m q
  ]
  | inr (n, e) ↦
      let l = lowest_named-some (to_lower name) sources none ds (sym e ∙ h) in
      elim l.from_list [
        | inl q ↦ cc
        | inr (m, q) ↦ folded (last_named-none name sources none n).1 m q l.le_all
      ]
]

-- The registry knows nothing of a name only where no source bears it in any case.
lookup-none :
    (sources : List DataSource) (name : Bytes)
    → lookup (new_data_source_registry sources) name ≡ none
    → All (λ s. equal (to_lower s.name) (to_lower name) ≡ false) sources
lookup-none sources name h = elim (lookup_cases sources name) [
  | inl (x, s, e) ↦ cc
  | inr (n, e) ↦ (lowest_named-none (to_lower name) sources none (sym e ∙ h)).1
]

-- What the registry may answer to a name: a source that the name resolves to, or nothing, where the
-- names of all sources differ from it in more than case.
abbrev pub Answers : List DataSource → Bytes → Option DataSource → Type 0
Answers sources name (some ds) = Resolves sources name ds
Answers sources name none = All (λ s. equal (to_lower s.name) (to_lower name) ≡ false) sources

lookup-Answers_by :
    (sources : List DataSource) (name : Bytes) (o : Option DataSource)
    → lookup (new_data_source_registry sources) name ≡ o
    → Answers sources name o
lookup-Answers_by sources name none h = lookup-none sources name h
lookup-Answers_by sources name (some ds) h = lookup-Resolves sources name ds h

-- A name finds the source of that very name, or else the one of lowest id among the sources whose
-- names differ from it in case only, whatever the order of the list; it finds none only where no
-- source bears the name in any case.
pub lookup-Answers :
    (sources : List DataSource) (name : Bytes)
    → Answers sources name (lookup (new_data_source_registry sources) name)
lookup-Answers sources name = lookup-Answers_by sources name _ refl
