-- ===== src/Pgwire/Catalog/Filter.antt =====
-- internal/pgwire/catalog.go: the tables that the WHERE clause of a catalog query admits. Compiling a
-- pattern of the client is the record `Patterns`.
use redash_wire.Common.{
  ℕ, suc, ◌-◌, ◌^◌, Bool, true, false, not, ◌&&◌, ◌||◌, Option, none, some, List, [], ◌∷◌, ◌++◌,
  ◌==◌, if◌then◌else◌, drop, take, any, all,
}
use redash_wire.Common.Text.{
  Bytes, codes, equal, equal_fold, contains, index, to_lower, fields, one_of,
}
use redash_wire.Common.Numerals.{ℤ, pos, negsuc, parse_int64}
use redash_wire.Common.Regex.{find, find_all, span, part, Groups}
use redash_wire.Redash.{SchemaTable}
use redash_wire.Sqltext.Mask.{postgres}
use redash_wire.Sqltext.Redact.{redact}
use redash_wire.Pgwire.Catalog.Syntax.{unqualify}
use redash_wire.Pgwire.Catalog.Tables.{table_oid}
use redash_wire.Pgwire.Catalog.Predicates.{
  name_eq_re, oid_eq_re, name_pattern_re, schema_re, empty_join_re, leading_int_re, quoted_at,
}

-- `regexp.Compile` and `MatchString`
pub record Patterns : Type 0 where
  pub compile : Bytes → Option (Bytes → Bool)

pub record RelationFilter : Type 0 where
  pub names : List Bytes
  pub patterns : List (Bytes → Bool)
  pub oids : List ℤ
  -- No table qualifies.
  pub nobody : Bool

-- One round of each loop of `parseRelationFilter`, for the groups of a match.
abbrev Round : Type 0
Round = RelationFilter → Groups → RelationFilter

add_name : RelationFilter → Option Bytes → RelationFilter
add_name f none = f
add_name f (some n) = record f { names = f.names ++ (n ∷ []) }

name_round : Bytes → Round
unfolding quoted_at span add_name
name_round sql f g = add_name f (quoted_at sql (span 0 g).1)

add_oid : RelationFilter → ℤ → RelationFilter
add_oid f n = record f { oids = f.oids ++ (n ∷ []) }

-- `n, _ := strconv.Atoi(s)` of digits: too many of them give the greatest int.
digits_int : Bytes → ℤ
unfolding parse_int64
digits_int s = elim (parse_int64 s) [ none ↦ pos (2 ^ 63 - 1) | some n ↦ n ]

-- 'name'::regclass, or a number.
oid_literal : RelationFilter → Option Bytes → RelationFilter
unfolding parse_int64 unqualify add_name add_oid
oid_literal f none = f
oid_literal f (some v) = elim (parse_int64 v) [
  | some n ↦ add_oid f n
  | none ↦ add_name f (some (unqualify v))
]

oid_round : Bytes → Round
unfolding quoted_at find part span oid_literal add_oid digits_int
oid_round sql f g =
    let rest = drop (span 0 g).1 sql in
    elim (find leading_int_re rest) [
      | some h ↦ add_oid f (digits_int (part rest 1 h))
      | none ↦ oid_literal f (quoted_at sql (span 0 g).1)
    ]

-- `(?i)` in front of a pattern under an operator with a star.
folded : Bytes → Bytes → Bytes
unfolding contains index
folded op pat = if contains op (codes "*") then codes "(?i)" ++ pat else pat

add_pattern : RelationFilter → Option (Bytes → Bool) → RelationFilter
add_pattern f none = f
add_pattern f (some p) = record f { patterns = f.patterns ++ (p ∷ []) }

pattern_round : Patterns → Bytes → Bytes → Round
unfolding quoted_at span part folded add_pattern
pattern_round ps sql red f g = elim (quoted_at sql (span 0 g).1) [
  | none ↦ f
  | some pat ↦ add_pattern f (ps.compile (folded (part red 1 g) pat))
]

none_if : Bool → RelationFilter → RelationFilter
none_if b f = record f { nobody = f.nobody || b }

-- A pattern that does not match "public".
not_public : Option (Bytes → Bool) → Bool
not_public none = false
not_public (some p) = not (p (codes "public"))

schema_round : Patterns → Bytes → Bytes → Round
unfolding quoted_at span part folded none_if not_public equal_fold equal
schema_round ps sql red f g = elim (quoted_at sql (span 0 g).1) [
  | none ↦ f
  | some v ↦
      let op = part red 1 g in
      if equal op (codes "=")
      then none_if (not (equal_fold v (codes "public"))) f
      else none_if (not_public (ps.compile (folded op v))) f
]

last_of : List Bytes → Option Bytes
last_of [] = none
last_of (w ∷ []) = some w
last_of (w ∷ v ∷ ws) = last_of (v ∷ ws)

unfoldable pub is_outer_join : Bytes → Bool
unfolding fields last_of equal
is_outer_join before = elim (last_of (fields before)) [
  | none ↦ false
  | some w ↦ one_of (codes "left" ∷ codes "full" ∷ codes "outer" ∷ []) w
]

join_round : Bytes → Round
unfolding span part equal none_if is_outer_join
join_round red f g =
    none_if (not (equal (part red 1 g) (codes "join") && is_outer_join (take (span 1 g).0 red))) f

each : Round → RelationFilter → List Groups → RelationFilter
each round f [] = f
each round f (g ∷ gs) = each round (round f g) gs

unfoldable pub parse_relation_filter : Patterns → Bytes → RelationFilter
unfolding to_lower redact find_all each name_round oid_round pattern_round schema_round join_round
parse_relation_filter ps sql =
    let red = to_lower (redact postgres sql) in
    let f0 : RelationFilter = record { names = []; patterns = []; oids = []; nobody = false } in
    let f1 = each (name_round sql) f0 (find_all name_eq_re red) in
    let f2 = each (oid_round sql) f1 (find_all oid_eq_re red) in
    let f3 = each (pattern_round ps sql red) f2 (find_all name_pattern_re red) in
    let f4 = each (schema_round ps sql red) f3 (find_all schema_re red) in
    each (join_round red) f4 (find_all empty_join_re red)

same_int : ℤ → ℤ → Bool
same_int (pos m) (pos n) = m == n
same_int (negsuc m) (negsuc n) = m == n
same_int _ _ = false

-- A list of alternatives that is empty restricts nothing.
unless_empty {ℓ} : {A : Type ℓ} → List A → (A → Bool) → Bool
unless_empty [] p = true
unless_empty (x ∷ xs) p = any p (x ∷ xs)

unfoldable pub admits : RelationFilter → ℕ → SchemaTable → Bool
unfolding unless_empty equal_fold same_int table_oid
admits f i t =
    not f.nobody
    && unless_empty f.names (λ n. equal_fold n t.name)
    && all (λ p. p t.name) f.patterns
    && unless_empty f.oids (λ oid. same_int oid (pos (table_oid i)))

admitted_from : RelationFilter → ℕ → List SchemaTable → List (ℕ × SchemaTable)
unfolding admits
admitted_from f i [] = []
admitted_from f i (t ∷ ts) =
    let rest = admitted_from f (suc i) ts in if admits f i t then (i, t) ∷ rest else rest

-- The tables with their indices.
unfoldable pub admitted_tables : Patterns → Bytes → List SchemaTable → Bool → List (ℕ × SchemaTable)
unfolding admitted_from parse_relation_filter
admitted_tables ps sql schema kind_ok =
    if kind_ok then admitted_from (parse_relation_filter ps sql) 0 schema else []
