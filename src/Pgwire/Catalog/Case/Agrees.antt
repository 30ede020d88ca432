-- ===== src/Pgwire/Catalog/Case/Agrees.antt =====
-- internal/pgwire/catalog.go, `evalCase`: only the values of texts shorter than the CASE count.
use redash_wire.Common.{
  ℕ, zero, suc, ◌-◌, ◌≤◌, ◌<◌, Bool, Option, none, some, List, [], ◌∷◌, length, any, All, ◌≡◌, refl,
  arith, Bool-cases, Option-cases, inl, inr, if_both, if_cases, not, ◌||◌, ◌==◌,
}
use redash_wire.Common.Text.{Bytes, codes, to_lower, trim_space, trim_last, fields}
use redash_wire.Common.Numerals.{ℤ, pos, is_zero_int}
use redash_wire.Common.Regex.{find, part, slice}
use redash_wire.Common.Lengths.{
  Value, Agree, All-below, length-slice, length-part, length-trim_space, length-trim_last,
}
use redash_wire.Sqltext.Mask.{postgres}
use redash_wire.Sqltext.Redact.{redact}
use redash_wire.Sqltext.Statements.Commas.{split_top_level_commas_parts}
use redash_wire.Pgwire.Catalog.Syntax.{token_at, depth_after}
use redash_wire.Pgwire.Catalog.Case.{
  Span, first_at, case_words, keyword_at, spans_from, is_kw, arms, unwrapped, items_of, same_value,
  compared, cond_re, eval_cond, by_operand, case_of, eval_case,
}

any-Agree :
    (k : ℕ) (f g : Value) (left : Option Bytes) (items : List Bytes)
    → Agree k f g
    → All (λ p. length p < k) items
    → any (λ item. same_value left (f item)) items ≡ any (λ item. same_value left (g item)) items
any-Agree k f g left [] h a = refl
any-Agree k f g left (item ∷ items) h a = rw (h item a.0, any-Agree k f g left items h a.1) refl

length-unwrapped : (s : Bytes) → length (unwrapped s) ≤ length s
unfolding unwrapped
length-unwrapped [] = omega arith
length-unwrapped (c ∷ cs) =
    if_both (λ t. length t ≤ suc (length cs)) _ (trim_last b')' cs) (trim_last b')' (c ∷ cs))
      (omega (arith, length-trim_last b')' cs)) (length-trim_last b')' (c ∷ cs))

items_below : (k : ℕ) (right : Bytes) → length right < k → All (λ p. length p < k) (items_of right)
unfolding items_of
items_below k right h =
    All-below (length (unwrapped right)) k (items_of right) (omega (arith, length-unwrapped right))
      (split_top_level_commas_parts postgres (unwrapped right))

compared-Agree :
    (k : ℕ) (f g : Value) (left : Option Bytes) (op : List Bytes) (right : Bytes)
    → Agree k f g
    → length right < k
    → compared f left op right ≡ compared g left op right
unfolding compared
compared-Agree k f g left op right h s =
    rw (compared, h right s, any-Agree k f g left (items_of right) h (items_below k right s)) refl

eval_cond-Agree : (k : ℕ) (f g : Value) → Agree k f g → Agree k (eval_cond f) (eval_cond g)
unfolding eval_cond
eval_cond-Agree k f g h cond s = elim (Option-cases (find cond_re (redact postgres cond))) [
  | inl n ↦ rw (eval_cond, n) refl
  | inr (gs, e) ↦
      let same : f (part cond 1 gs) ≡ g (part cond 1 gs) =
        h (part cond 1 gs) (omega (arith, length-part cond 1 gs)) in
      let short : length (trim_space (part cond 3 gs)) < k =
        omega (arith, length-part cond 3 gs, length-trim_space (part cond 3 gs)) in
      elim (Option-cases (g (part cond 1 gs))) [
        | inl m ↦ rw (eval_cond, e, same, m) refl
        | inr (left, m) ↦
            rw (eval_cond, e, same, m)
              (compared-Agree k f g (some left) (fields (to_lower (part cond 2 gs)))
                (trim_space (part cond 3 gs)) h short)
      ]
]

-- Each keyword ends behind the head of the text.
abbrev Stops : List Span → Type 0
Stops spans = All (λ s. 0 < s.stop) spans

first_at-some :
    (red : Bytes) (i : ℕ) (ws : List Bytes) (w : Bytes)
    → All (λ v. 0 < length v) ws
    → first_at red i ws ≡ some w
    → 0 < length w
unfolding first_at
first_at-some red i [] w a e = absurd cc
first_at-some red i (v ∷ ws) w a e = elim (Bool-cases (token_at red i v)) [
  | inl h ↦
      let same : some v ≡ some w = rw (first_at, h) at e in
      let b : 0 < length v = a.0 in let l : length v ≡ length w = cc in omega arith
  | inr h ↦ first_at-some red i ws w a.1 (rw (first_at, h) at e)
]

keyword_at-some :
    (red : Bytes) (i : ℕ) (d : ℤ) (c : ℕ) (w : Bytes) → keyword_at red i d c ≡ some w → 0 < length w
unfolding keyword_at
keyword_at-some red i d c w =
    if_cases (λ o. o ≡ some w → 0 < length w) (c == b'(' || c == b')' || not (is_zero_int d)) none
      (first_at red i case_words) (λ _ e. absurd cc)
      (λ _ e.
        first_at-some red i case_words w
          (omega arith, (omega arith, (omega arith, (omega arith, (omega arith, tt))))) e)

Stops-spans_from :
    (red : Bytes) (i skip : ℕ) (d : ℤ) (cs : Bytes) → Stops (spans_from red i skip d cs)
unfolding spans_from
Stops-spans_from red i skip d [] = tt
Stops-spans_from red i (suc skip) d (c ∷ cs) = Stops-spans_from red (suc i) skip d cs
Stops-spans_from red i zero d (c ∷ cs) = elim (Option-cases (keyword_at red i d c)) [
  | inl n ↦ rw (spans_from, n) (Stops-spans_from red (suc i) zero (depth_after c d) cs)
  | inr (w, e) ↦
      let l : 0 < length w = keyword_at-some red i d c w e in
      rw (spans_from, e) (omega arith, Stops-spans_from red (suc i) (length w - 1) d cs)
]

-- What stands behind a keyword is shorter than the text.
short_slice :
    (expr : Bytes) (s next : Span)
    → 0 < length expr
    → 0 < s.stop
    → length (slice s.stop next.start expr) < length expr
short_slice expr s next e h = omega (arith, length-slice s.stop next.start expr)

arms-Agree :
    (f g : Value) (p q : Bytes → Bool) (expr : Bytes) (spans : List Span)
    → Agree (length expr) f g
    → Agree (length expr) p q
    → 0 < length expr
    → Stops spans
    → arms f p expr spans ≡ arms g q expr spans
unfolding arms
arms-Agree f g p q expr [] h k e a = refl
arms-Agree f g p q expr (s ∷ []) h k e a = refl
arms-Agree f g p q expr (s ∷ next ∷ []) h k e a =
    rw (h (slice s.stop next.start expr) (short_slice expr s next e a.0)) refl
arms-Agree f g p q expr (s ∷ next ∷ last ∷ rest) h k e a =
    let first = short_slice expr s next e a.0 in
    let second = short_slice expr next last e a.1.0 in
    let cond : Bytes = slice s.stop next.start expr in
    elim (Bool-cases (is_kw (codes "when") s)) [
      | inl w ↦ elim (Bool-cases (is_kw (codes "then") next)) [
        | inl t ↦ elim (Bool-cases (q cond)) [
          | inl y ↦ rw (arms, w, t, k cond first, y) (h (slice next.stop last.start expr) second)
          | inr n ↦
              rw (arms, w, t, k cond first, n) (arms-Agree f g p q expr (last ∷ rest) h k e a.1.1)
        ]
        | inr t ↦ rw (arms, w, t) refl
      ]
      | inr w ↦ elim (Bool-cases (is_kw (codes "else") s)) [
        | inl l ↦ rw (arms, w, l) (h cond first)
        | inr l ↦ rw (arms, w, l) (arms-Agree f g p q expr (next ∷ last ∷ rest) h k e a.1)
      ]
    ]

by_operand-Agree :
    (f g : Value) (expr operand : Bytes) (spans : List Span)
    → Agree (length expr) f g
    → length operand < length expr
    → Stops spans
    → by_operand f expr operand spans ≡ by_operand g expr operand spans
unfolding by_operand
by_operand-Agree f g expr [] spans h s a =
    arms-Agree f g (eval_cond f) (eval_cond g) expr spans h (eval_cond-Agree (length expr) f g h)
      (omega arith) a
by_operand-Agree f g expr (c ∷ operand) spans h s a =
    arms-Agree f g (λ cond. same_value (f (c ∷ operand)) (f cond))
      (λ cond. same_value (g (c ∷ operand)) (g cond)) expr spans h
      (λ cond l. rw (h (c ∷ operand) s, h cond l) refl) (omega arith) a

case_of-Agree :
    (f g : Value) (expr : Bytes) (spans : List Span)
    → Agree (length expr) f g
    → 0 < length expr
    → Stops spans
    → case_of f expr spans ≡ case_of g expr spans
unfolding case_of
case_of-Agree f g expr [] h e a = refl
case_of-Agree f g expr (s ∷ []) h e a = refl
case_of-Agree f g expr (s ∷ next ∷ []) h e a = refl
case_of-Agree f g expr (s ∷ next ∷ third ∷ []) h e a = refl
case_of-Agree f g expr (s ∷ next ∷ third ∷ fourth ∷ rest) h e a =
    let operand : Bytes = trim_space (slice s.stop next.start expr) in
    let short : length operand < length expr =
      omega
        (arith, short_slice expr s next e a.0, length-trim_space (slice s.stop next.start expr)) in
    rw (by_operand-Agree f g expr operand (next ∷ third ∷ fourth ∷ rest) h short a.1) refl

-- The value of a CASE depends on the values of shorter texts only.
pub eval_case-Agree :
    (f g : Value) (expr : Bytes)
    → Agree (length expr) f g
    → 0 < length expr
    → eval_case f expr ≡ eval_case g expr
unfolding eval_case
eval_case-Agree f g expr h e =
    let red : Bytes = to_lower (redact postgres expr) in
    case_of-Agree f g expr (spans_from red 0 0 (pos 0) red) h e
      (Stops-spans_from red 0 0 (pos 0) red)
