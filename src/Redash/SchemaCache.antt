-- ===== src/Redash/SchemaCache.antt =====
-- internal/redash/schema_cache.go. The fetch is a value that the cache may or may not ask for; the
-- last part of a result says whether it did.
use redash_wire.Common.{
  ℕ, suc, ◌+◌, ◌*◌, ◌≤◌, Bool, true, false, List, [], ◌∷◌, leb, if◌then◌else◌, ◌≡◌, refl, ap, ◌∙◌,
  arith,
}
use redash_wire.Redash.{SchemaTable, Err}

pub record SchemaCache : Type 0 where
  pub ready : Bool
  pub attempts : ℕ
  pub schema : List SchemaTable

abbrev pub max_schema_fetch_attempts : ℕ
max_schema_fetch_attempts = 3

-- `(schema, nil)` or `(nil, err)`
pub data Fetched : Type 0 where
  schema_ok : List SchemaTable → Fetched
  schema_err : Err → Fetched

unfoldable pub new_schema_cache : SchemaCache
new_schema_cache = record { ready = false; attempts = 0; schema = [] }

-- What a fetch that was made leaves behind.
store_fetched : SchemaCache → Fetched → SchemaCache × Fetched
store_fetched c (schema_ok s) = (record c { schema = s; ready = true }, schema_ok s)
store_fetched c (schema_err e) = (c, schema_err e)

unfoldable pub get : SchemaCache → Fetched → SchemaCache × Fetched × Bool
unfolding store_fetched
get c fetch =
    if c.ready
    then (c, schema_ok c.schema, false)
    else if leb max_schema_fetch_attempts c.attempts
    then (c, schema_ok [], false)
    else (let (c', r) = store_fetched (record c { attempts = c.attempts + 1 }) fetch in
        (c', r, true))

unfoldable pub reset : SchemaCache → SchemaCache
reset c = record c { ready = false; attempts = 0; schema = [] }

-- Calls of `Get` one after another: the last state, and the number of fetches made.
abbrev count_if : Bool → ℕ → ℕ
count_if true n = suc n
count_if false n = n

unfoldable pub get_all : SchemaCache → List Fetched → SchemaCache × ℕ
get_all c [] = (c, 0)
get_all c (f ∷ fs) =
    let (c', _, fetched) = get c f in let (last, n) = get_all c' fs in (last, count_if fetched n)

-- What happens to a cache: `Get`, with what a fetch would bring, and `Reset`.
pub data Use : Type 0 where
  gets : Fetched → Use
  resets : Use

-- The fetches that are made.
unfoldable pub fetches : SchemaCache → List Use → ℕ
unfolding get reset
fetches c [] = 0
fetches c (gets f ∷ uses) =
    let (c', _, fetched) = get c f in let n = fetches c' uses in count_if fetched n
fetches c (resets ∷ uses) = fetches (reset c) uses

abbrev pub resets_in : List Use → ℕ
resets_in [] = 0
resets_in (gets f ∷ uses) = resets_in uses
resets_in (resets ∷ uses) = suc (resets_in uses)

fetches_bounded :
    (c : SchemaCache) (uses : List Use)
    → c.attempts ≤ 3
    → fetches c uses + c.attempts ≤ 3 + 3 * resets_in uses
unfolding fetches get reset
fetches_bounded c [] h = omega arith
fetches_bounded c (gets f ∷ uses) h = ground (arith, fetches_bounded (get c f).0 uses)
fetches_bounded c (resets ∷ uses) h = omega (arith, fetches_bounded (reset c) uses (omega arith))

-- A new cache that is asked and reset in any order makes three fetches at most, and three more at
-- most for each reset, whatever the fetches bring.
pub fetches-new_schema_cache :
    (uses : List Use) → fetches new_schema_cache uses ≤ 3 + 3 * resets_in uses
unfolding new_schema_cache
fetches-new_schema_cache uses = omega (arith, fetches_bounded new_schema_cache uses (omega arith))

get_all_ready : (c : SchemaCache) (fs : List Fetched) → c.ready ≡ true → get_all c fs ≡ (c, 0)
unfolding get_all get
get_all_ready c [] h = refl
get_all_ready c (f ∷ fs) h = ground (arith, get_all_ready c fs h)

-- What a successful fetch leaves behind.
get_stored :
    (c : SchemaCache) (s : List SchemaTable)
    → (get c (schema_ok s)).2 ≡ true
    → ((get c (schema_ok s)).0.ready ≡ true) × ((get c (schema_ok s)).0.schema ≡ s)
unfolding get
get_stored c s h = ground arith

get_ready :
    (c : SchemaCache) (f : Fetched) → c.ready ≡ true → get c f ≡ (c, schema_ok c.schema, false)
unfolding get
get_ready c f h = rw h

-- Once a fetch has succeeded, no later call fetches again, and every one of them answers with the
-- schema that was fetched.
get_all_after_success :
    (c : SchemaCache) (s : List SchemaTable) (fs : List Fetched) (f : Fetched)
    → (get c (schema_ok s)).2 ≡ true
    → let c' = (get c (schema_ok s)).0 in
      ((get_all c' fs).1 ≡ 0) × (get (get_all c' fs).0 f ≡ (c', schema_ok s, false))
get_all_after_success c s fs f h =
    let c' = (get c (schema_ok s)).0 in
    let (r, e) = get_stored c s h in
    let all = get_all_ready c' fs r in
    (
      ap (λ (x : SchemaCache × ℕ). x.1) all,
      rw all (get_ready c' f r ∙ ap (λ x. (c', schema_ok x, false)) e),
    )
