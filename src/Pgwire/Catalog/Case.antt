-- ===== src/Pgwire/Catalog/Case.antt =====
-- internal/pgwire/catalog.go, `evalCase` and `evalCond`: a CASE of which the values of its parts are
-- given. A value is nil or the text it is shown as.
pub mod Agrees
use redash_wire.Common.{
  ℕ, zero, suc, ◌+◌, ◌-◌, Bool, true, false, not, ◌&&◌, ◌||◌, Option, none, some, List, [], ◌∷◌,
  ◌==◌, if◌then◌else◌, length, any,
}
use redash_wire.Common.Text.{Bytes, codes, equal, to_lower, trim_space, trim_last, fields}
use redash_wire.Common.Numerals.{ℤ, pos, is_zero_int}
use redash_wire.Common.Regex.{
  Re, one, seq, lazy_star, group, at_start, at_end, boundary, any_byte, byte, literal, literal_fold,
  any_of, sequence, blanks, some_blanks, find, part, slice,
}
use redash_wire.Sqltext.Mask.{postgres}
use redash_wire.Sqltext.Redact.{redact}
use redash_wire.Sqltext.Statements.{split_top_level_commas}
use redash_wire.Pgwire.Catalog.Syntax.{depth_after, token_at}

cond_re : Re
unfolding literal_fold
cond_re = sequence (
    at_start
    ∷ blanks
    ∷ group 1 (seq (one any_byte) (lazy_star (one any_byte)))
    ∷ blanks
    ∷ group 2 (
        any_of (byte b'=') (
          literal (codes "<>")
          ∷ literal (codes "!=")
          ∷ sequence (
              boundary
              ∷ literal_fold (codes "not")
              ∷ some_blanks
              ∷ literal_fold (codes "in")
              ∷ boundary
              ∷ [])
          ∷ sequence (boundary ∷ literal_fold (codes "in") ∷ boundary ∷ [])
          ∷ []))
    ∷ blanks
    ∷ group 3 (seq (one any_byte) (lazy_star (one any_byte)))
    ∷ blanks
    ∷ at_end
    ∷ [])

unfoldable pub same_value : Option Bytes → Option Bytes → Bool
unfolding equal
same_value (some a) (some b) = equal a b
same_value _ _ = false

-- A keyword of a CASE and where it stands.
pub record Span : Type 0 where
  pub kw : Bytes
  pub start : ℕ
  pub stop : ℕ

-- The first of some keywords that stands at a place.
first_at : Bytes → ℕ → List Bytes → Option Bytes
unfolding token_at
first_at red i [] = none
first_at red i (w ∷ ws) = if token_at red i w then some w else first_at red i ws

abbrev case_words : List Bytes
case_words = codes "case" ∷ codes "when" ∷ codes "then" ∷ codes "else" ∷ codes "end" ∷ []

-- The keyword at a place, outside parentheses.
keyword_at : Bytes → ℕ → ℤ → ℕ → Option Bytes
unfolding first_at
keyword_at red i d c =
    if c == b'(' || c == b')' || not (is_zero_int d) then none else first_at red i case_words

-- The keywords from a place on, whose text is the last argument; so many bytes of it are passed.
spans_from : Bytes → ℕ → ℕ → ℤ → Bytes → List Span
unfolding keyword_at
spans_from red i skip d [] = []
spans_from red i (suc skip) d (c ∷ cs) = spans_from red (suc i) skip d cs
spans_from red i zero d (c ∷ cs) = elim (keyword_at red i d c) [
  | none ↦ spans_from red (suc i) zero (depth_after c d) cs
  | some w ↦
      record { kw = w; start = i; stop = i + length w } ∷ spans_from red (suc i) (length w - 1) d cs
]

is_kw : Bytes → Span → Bool
unfolding equal
is_kw w s = equal s.kw w

ends_case : List Span → Bool
unfolding is_kw
ends_case [] = false
ends_case (s ∷ []) = is_kw (codes "end") s
ends_case (s ∷ t ∷ ss) = ends_case (t ∷ ss)

-- The WHEN conditions in order, up to the first that holds or an ELSE. The arguments are the value of
-- an expression and whether a condition holds.
arms : (Bytes → Option Bytes) → (Bytes → Bool) → Bytes → List Span → Option Bytes
unfolding is_kw
arms value hit expr [] = none
arms value hit expr (s ∷ []) = none
arms value hit expr (s ∷ next ∷ []) =
    if is_kw (codes "else") s then value (slice s.stop next.start expr) else none
arms value hit expr (s ∷ next ∷ last ∷ rest) = elim (is_kw (codes "when") s) [
  | true ↦ elim (is_kw (codes "then") next) [
    | true ↦ elim (hit (slice s.stop next.start expr)) [
      | true ↦ value (slice next.stop last.start expr)
      | false ↦ arms value hit expr (last ∷ rest)
    ]
    | false ↦ none
  ]
  | false ↦ elim (is_kw (codes "else") s) [
    | true ↦ value (slice s.stop next.start expr)
    | false ↦ arms value hit expr (next ∷ last ∷ rest)
  ]
]

abbrev same_bool : Bool → Bool → Bool
same_bool true b = b
same_bool false b = not b

is_op : Bytes → List Bytes → Bool
unfolding equal
is_op w [] = false
is_op w (f ∷ []) = equal f w
is_op w (f ∷ g ∷ gs) = false

is_nil : Option Bytes → Bool
is_nil none = true
is_nil (some v) = false

-- Without a parenthesis in front and one behind.
unwrapped : Bytes → Bytes
unfolding trim_last
unwrapped [] = []
unwrapped (c ∷ cs) = if c == b'(' then trim_last b')' cs else trim_last b')' (c ∷ cs)

items_of : Bytes → List Bytes
unfolding unwrapped split_top_level_commas
items_of right = split_top_level_commas postgres (unwrapped right)

-- The value on the left against what stands on the right of an operator, given by its words.
compared : (Bytes → Option Bytes) → Option Bytes → List Bytes → Bytes → Bool
unfolding same_value is_op is_nil items_of
compared value left op right =
    if is_op (codes "=") op || is_op (codes "<>") op || is_op (codes "!=") op
    then not (is_nil (value right))
      && same_bool (is_op (codes "=") op) (same_value left (value right))
    else same_bool (any (λ item. same_value left (value item)) (items_of right))
        (is_op (codes "in") op)

unfoldable pub eval_cond : (Bytes → Option Bytes) → Bytes → Bool
unfolding find redact part to_lower fields trim_space compared cond_re
eval_cond value cond = elim (find cond_re (redact postgres cond)) [
  | none ↦ false
  | some g ↦ elim (value (part cond 1 g)) [
    | none ↦ false
    | some left ↦
        compared value (some left) (fields (to_lower (part cond 2 g))) (trim_space (part cond 3 g))
  ]
]

-- The simple form compares with the operand, the searched form tests each condition.
by_operand : (Bytes → Option Bytes) → Bytes → Bytes → List Span → Option Bytes
unfolding arms eval_cond same_value
by_operand value expr [] spans = arms value (eval_cond value) expr spans
by_operand value expr (c ∷ operand) spans =
    arms value (λ cond. same_value (value (c ∷ operand)) (value cond)) expr spans

case_of : (Bytes → Option Bytes) → Bytes → List Span → Option Bytes
unfolding ends_case is_kw trim_space by_operand
case_of value expr (s ∷ next ∷ third ∷ fourth ∷ rest) =
    if is_kw (codes "case") s && ends_case (third ∷ fourth ∷ rest)
    then by_operand value expr (trim_space (slice s.stop next.start expr))
        (next ∷ third ∷ fourth ∷ rest)
    else none
case_of value expr _ = none

unfoldable pub eval_case : (Bytes → Option Bytes) → Bytes → Option Bytes
unfolding to_lower redact case_of spans_from
eval_case value expr =
    let red = to_lower (redact postgres expr) in case_of value expr (spans_from red 0 0 (pos 0) red)
