-- ===== src/Pgwire/Catalog/Columns/Fuel.antt =====
-- internal/pgwire/catalog.go, `requestedColumns`: the fuel is enough.
use redash_wire.Common.{
  ℕ, zero, suc, ◌≤◌, ◌<◌, Option, none, some, List, [], ◌∷◌, length, take, drop, All, length-drop,
  ◌≡◌, refl, ap, arith, Bool-cases, Option-cases, inl, inr, if_both, ◌==◌,
}
use redash_wire.Common.Text.{Bytes, to_lower, trim_space, trim_last, fields}
use redash_wire.Common.Numerals.{pos}
use redash_wire.Common.Regex.{find, span, slice, matches}
use redash_wire.Common.Lengths.{
  Agree, All-below, length-take, length-slice, length-trim_space, length-trim_last,
}
use redash_wire.Sqltext.Mask.{postgres}
use redash_wire.Sqltext.Redact.{redact}
use redash_wire.Sqltext.Statements.{split_top_level_commas}
use redash_wire.Sqltext.Statements.Commas.{split_top_level_commas_parts}
use redash_wire.Pgwire.Catalog.Syntax.{SelCol, expr_col, ident_re}
use redash_wire.Pgwire.Catalog.Syntax.Shorter.{length-expr_col}
use redash_wire.Pgwire.Catalog.Columns.{
  select_start_re, bare_ident_re, from_at, select_list, as_at, last_index, two_words, of_words,
  split_alias, named, with_alias, parse_item, parse_sel_col, parse_all, columns_with, inside,
  first_output, expr_name, requested_columns,
}

length-two_words : (item : Bytes) (o : Option ℕ) → length (two_words item o).0 ≤ length item
unfolding two_words
length-two_words item none = omega arith
length-two_words item (some i) =
    if_both (λ (r : Bytes × Bytes). length r.0 ≤ length item) (matches bare_ident_re (drop i item))
      (trim_space (take i item), drop i item) (item, [])
      (omega (arith, length-trim_space (take i item), length-take i item)) (omega arith)

length-of_words :
    (item red : Bytes) (words : List Bytes) → length (of_words item red words).0 ≤ length item
unfolding of_words
length-of_words item red [] = omega arith
length-of_words item red (f ∷ []) = omega arith
length-of_words item red (f ∷ g ∷ []) = length-two_words item (last_index red g)
length-of_words item red (f ∷ g ∷ h ∷ hs) = omega arith

length-split_alias : (item : Bytes) → length (split_alias item).0 ≤ length item
unfolding split_alias
length-split_alias item =
    let red : Bytes = to_lower (redact postgres item) in
    elim (Option-cases (as_at 0 (pos 0) red)) [
      | inl n ↦ rw (split_alias, n) (length-of_words item red (fields red))
      | inr (i, e) ↦
          rw (split_alias, e) (omega (arith, length-trim_space (take i item), length-take i item))
    ]

alias_agrees :
    (f g : Bytes → Bytes) (c : SelCol) (alias : Bytes)
    → f c.expr ≡ g c.expr
    → with_alias f c alias ≡ with_alias g c alias
unfolding with_alias
alias_agrees f g c [] h = ap (λ o. named (record c { output = o })) h
alias_agrees f g c (a ∷ rest) h = refl

item_agrees :
    (k : ℕ) (f g : Bytes → Bytes) (item : Bytes)
    → Agree k f g
    → length item < k
    → parse_item f item ≡ parse_item g item
unfolding parse_item
item_agrees k f g [] h s = refl
item_agrees k f g (b ∷ bs) h s =
    let expr : Bytes = (split_alias (b ∷ bs)).0 in
    let short : length (expr_col expr).expr < k =
      omega (arith, length-expr_col expr, length-split_alias (b ∷ bs)) in
    alias_agrees f g (expr_col expr) (split_alias (b ∷ bs)).1 (h (expr_col expr).expr short)

parse_all-Agree :
    (k : ℕ) (f g : Bytes → Bytes) (items : List Bytes)
    → Agree k f g
    → All (λ p. length p < k) items
    → parse_all f items ≡ parse_all g items
unfolding parse_all parse_sel_col
parse_all-Agree k f g [] h a = refl
parse_all-Agree k f g (p ∷ ps) h a =
    let here : parse_item f (trim_space p) ≡ parse_item g (trim_space p) =
      (let s = a.0 in item_agrees k f g (trim_space p) h (omega (arith, length-trim_space p))) in
    elim (Option-cases (parse_item g (trim_space p))) [
      | inl n ↦ rw (parse_all, here, n) (parse_all-Agree k f g ps h a.1)
      | inr (c, e) ↦ rw (parse_all, here, e) (ap (◌∷◌ c) (parse_all-Agree k f g ps h a.1))
    ]

length-select_list : (sql list : Bytes) → select_list sql ≡ some list → length list ≤ length sql
unfolding select_list
length-select_list sql list h =
    let red : Bytes = to_lower (redact postgres sql) in
    elim (Option-cases (find select_start_re red)) [
      | inl n ↦ absurd (cc (rw (select_list, n) at h))
      | inr (g, e) ↦
          let b : ℕ = (span 0 g).1 in
          elim (Option-cases (from_at red b (pos 0) (drop b red))) [
            | inl n ↦
                let same : some (drop b sql) ≡ some list = rw (select_list, e, n) at h in
                let l : length (drop b sql) ≡ length list = cc in omega (arith, length-drop b sql)
            | inr (i, f) ↦
                let same : some (slice b i sql) ≡ some list = rw (select_list, e, f) at h in
                let l : length (slice b i sql) ≡ length list = cc in
                omega (arith, length-slice b i sql)
          ]
    ]

columns_with-Agree :
    (k : ℕ) (f g : Bytes → Bytes) (sql : Bytes) (defaults : List SelCol)
    → Agree k f g
    → length sql < k
    → columns_with f sql defaults ≡ columns_with g sql defaults
unfolding columns_with
columns_with-Agree k f g sql defaults h s = elim (Option-cases (select_list sql)) [
  | inl n ↦ rw (columns_with, n) refl
  | inr (list, e) ↦
      let l : Bytes = trim_space list in
      let parts =
        All-below (length l) k (split_top_level_commas postgres l)
          (omega (arith, length-select_list sql list e, length-trim_space list))
          (split_top_level_commas_parts postgres l) in
      rw (columns_with, e, parse_all-Agree k f g (split_top_level_commas postgres l) h parts) refl
]

length-inside : (expr inner : Bytes) → inside expr ≡ some inner → length inner < length expr
unfolding inside
length-inside [] inner h = absurd cc
length-inside (c ∷ cs) inner h = elim (Bool-cases (c == b'(')) [
  | inl y ↦
      let same : some (trim_last b')' cs) ≡ some inner = rw (inside, y) at h in
      let l : length (trim_last b')' cs) ≡ length inner = cc in
      omega (arith, length-trim_last b')' cs)
  | inr n ↦ absurd (cc (rw (inside, n) at h))
]

expr_name-enough :
    (n m : ℕ) (expr : Bytes)
    → length expr < n
    → length expr < m
    → expr_name n expr ≡ expr_name m expr
unfolding expr_name
expr_name-enough zero m expr h k = absurd (omega arith)
expr_name-enough (suc n) zero expr h k = absurd (omega arith)
expr_name-enough (suc n) (suc m) expr h k = elim (Bool-cases (matches ident_re expr)) [
  | inl y ↦ rw (expr_name, y) refl
  | inr y ↦ elim (Option-cases (inside expr)) [
    | inl i ↦ rw (expr_name, y, i) refl
    | inr (inner, e) ↦
        rw (expr_name, y, e)
          (ap first_output (
            columns_with-Agree (length expr) (expr_name n) (expr_name m) inner []
              (λ t s. expr_name-enough n m t (omega arith) (omega arith))
              (length-inside expr inner e)))
  ]
]

-- The columns that a query asks for are found: with any fuel above its length they are the same.
requested_columns-fuel :
    (n : ℕ) (sql : Bytes) (defaults : List SelCol)
    → length sql < n
    → columns_with (expr_name n) sql defaults ≡ requested_columns sql defaults
unfolding requested_columns
requested_columns-fuel n sql defaults h =
    columns_with-Agree (suc (length sql)) (expr_name n) (expr_name (suc (length sql))) sql defaults
      (λ t s. expr_name-enough n (suc (length sql)) t (omega arith) (omega arith)) (omega arith)
