-- ===== src/Pgwire/Catalog/Kinds.antt =====
-- internal/pgwire/catalog.go, `columnPredicates`: which kinds of relation a catalog query asks for.
use redash_wire.Common.{
  ℕ, suc, Bool, true, false, not, ◌&&◌, ◌||◌, Option, none, some, List, [], ◌∷◌, ◌++◌, map, ◌==◌,
  if◌then◌else◌, drop, take, any,
}
use redash_wire.Common.Text.{
  Bytes, codes, equal, has_prefix, to_lower, to_upper, trim_space, trim_left, trim_right, fields,
}
use redash_wire.Common.Regex.{
  Re, group, boundary, byte, literal, any_of, sequence, blanks, some_blanks, find_all, span, part,
  Groups,
}
use redash_wire.Sqltext.Mask.{postgres}
use redash_wire.Sqltext.Redact.{redact}
use redash_wire.Pgwire.Catalog.Syntax.{trim_quotes}
use redash_wire.Pgwire.Catalog.Predicates.{quoted_re, quoted_at}

pub record KindPredicate : Type 0 where
  pub negated : Bool
  pub values : List Bytes

-- `compileKindPredRe`
abbrev pub kind_pred_re : Bytes → Re
kind_pred_re column = sequence (
    boundary
    ∷ literal column
    ∷ boundary
    ∷ blanks
    ∷ group 1 (
        any_of (sequence (byte b'=' ∷ blanks ∷ literal (codes "any") ∷ blanks ∷ byte b'(' ∷ [])) (
          sequence
            (literal (codes "not") ∷ some_blanks ∷ literal (codes "in") ∷ blanks ∷ byte b'(' ∷ [])
          ∷ sequence (literal (codes "in") ∷ blanks ∷ byte b'(' ∷ [])
          ∷ literal (codes "!=")
          ∷ literal (codes "<>")
          ∷ byte b'='
          ∷ []))
    ∷ [])

-- `strings.Split(s, ",")`
split_commas : Bytes → List Bytes
split_commas [] = [] ∷ []
split_commas (c ∷ cs) = elim (split_commas cs) [
  | [] ↦ []
  | w ∷ ws ↦ if c == b',' then [] ∷ w ∷ ws else (c ∷ w) ∷ ws
]

ends_with : ℕ → Bytes → Bool
ends_with b [] = false
ends_with b (c ∷ []) = c == b
ends_with b (c ∷ d ∷ cs) = ends_with b (d ∷ cs)

abbrev is_brace : ℕ → Bool
is_brace c = c == b'{' || c == b'}'

unfoldable pub expand_array_literal : Bytes → List Bytes
unfolding has_prefix ends_with split_commas trim_left trim_right trim_quotes trim_space
expand_array_literal v =
    if has_prefix v (codes "{") && ends_with b'}' v
    then map (λ p. trim_quotes (trim_space p))
        (split_commas (trim_right is_brace (trim_left is_brace v)))
    else v ∷ []

-- The bytes before a closing parenthesis, or all.
before_paren : Bytes → ℕ
before_paren [] = 0
before_paren (c ∷ cs) = if c == b')' then 0 else suc (before_paren cs)

expand_all : Bytes → List Groups → List Bytes
unfolding part expand_array_literal
expand_all s [] = []
expand_all s (g ∷ gs) = expand_array_literal (part s 1 g) ++ expand_all s gs

-- The values of a list in parentheses, or the one literal behind the operator.
values_at : Bytes → Bytes → Bytes → ℕ → Option (List Bytes)
unfolding ends_with find_all expand_all before_paren quoted_at expand_array_literal
values_at sql red op i =
    if ends_with b'(' op
    then (let list = take (before_paren (drop i red)) (drop i sql) in
        some (expand_all list (find_all quoted_re list)))
    else elim (quoted_at sql i) [ none ↦ none | some v ↦ some (expand_array_literal v) ]

join_words : List Bytes → Bytes
join_words [] = []
join_words (w ∷ ws) = w ++ join_words ws

is_negated : Bytes → Bool
unfolding equal has_prefix
is_negated op = equal op (codes "<>") || equal op (codes "!=") || has_prefix op (codes "notin")

predicate_of : Bytes → Option (List Bytes) → List KindPredicate
unfolding is_negated
predicate_of op none = []
predicate_of op (some values) = record { negated = is_negated op; values = values } ∷ []

predicates_from : Bytes → Bytes → List Groups → List KindPredicate
unfolding part span fields join_words predicate_of values_at
predicates_from sql red [] = []
predicates_from sql red (g ∷ gs) =
    let op = join_words (fields (part red 1 g)) in
    predicate_of op (values_at sql red op (span 1 g).1) ++ predicates_from sql red gs

unfoldable pub column_predicates : Bytes → Re → List KindPredicate
unfolding to_lower redact predicates_from find_all
column_predicates sql re =
    let red = to_lower (redact postgres sql) in predicates_from sql red (find_all re red)

names_kind : (Bytes → Bytes) → Bytes → List Bytes → Bool
unfolding equal
names_kind fold want values = any (λ v. equal (fold v) (fold want)) values

-- The loop of `predicatesAdmit` with its two flags.
admit_from : (Bytes → Bytes) → Bytes → Bool → Bool → List KindPredicate → Bool
unfolding names_kind
admit_from fold want has_positive found [] = not has_positive || found
admit_from fold want has_positive found (p ∷ ps) = elim p.negated [
  | true ↦ elim (names_kind fold want p.values) [
    | true ↦ false
    | false ↦ admit_from fold want has_positive found ps
  ]
  | false ↦ admit_from fold want true (found || names_kind fold want p.values) ps
]

unfoldable pub predicates_admit : List KindPredicate → Bytes → (Bytes → Bytes) → Bool
unfolding admit_from
predicates_admit preds want fold = admit_from fold want false false preds

unfoldable pub relkind_admits_tables : Bytes → Bool
unfolding predicates_admit column_predicates
relkind_admits_tables sql =
    predicates_admit (column_predicates sql (kind_pred_re (codes "relkind"))) (codes "r") (λ s. s)

unfoldable pub table_type_admits_base_tables : Bytes → Bool
unfolding predicates_admit column_predicates to_upper
table_type_admits_base_tables sql =
    predicates_admit (column_predicates sql (kind_pred_re (codes "table_type")))
      (codes "BASE TABLE") to_upper
