-- ===== src/Pgwire/Catalog/Values.antt =====
-- internal/pgwire/catalog.go, `evalExpr`: the value of a select item for a row. A value is nil or the
-- text it is shown as. The operands of a CASE are shorter than the CASE: the fuel is the length of the
-- expression.
pub mod Fuel
use redash_wire.Common.{
  ℕ, zero, suc, Bool, true, false, ◌&&◌, Option, none, some, List, [], ◌∷◌, ◌++◌, map, ◌==◌,
  if◌then◌else◌, length,
}
use redash_wire.Common.Text.{Bytes, codes, equal, contains, to_lower, trim_space, is_digit}
use redash_wire.Common.Regex.{
  Re, one, seq, star, group, at_start, at_end, any_byte, byte, plus, optional, sequence, find,
  matches, part,
}
use redash_wire.Pgwire.Catalog.Syntax.{
  SelCol, ident_re, func_call_re, token_at, unqualify, expr_col,
}
use redash_wire.Pgwire.Catalog.Case.{eval_case}

-- A key that a row does not know has the value nil.
abbrev pub Lookup : Type 0
Lookup = Bytes → Option Bytes

abbrev literal_re : Re
literal_re =
    sequence (at_start ∷ byte b'\'' ∷ group 1 (star (one any_byte)) ∷ byte b'\'' ∷ at_end ∷ [])

abbrev number_re : Re
number_re = sequence (
    at_start
    ∷ optional (byte b'-')
    ∷ plus (one is_digit)
    ∷ optional (seq (byte b'.') (plus (one is_digit)))
    ∷ at_end
    ∷ [])

-- `''` in a literal stands for a quote.
unquote : Bytes → Bytes
unquote [] = []
unquote (c ∷ []) = c ∷ []
unquote (c ∷ d ∷ cs) = elim (c == b'\'' && d == b'\'') [
  | true ↦ b'\'' ∷ unquote cs
  | false ↦ c ∷ unquote (d ∷ cs)
]

literal_value : Bytes → Option Bytes
unfolding find part unquote
literal_value expr = elim (find literal_re expr) [
  | none ↦ none
  | some g ↦ some (unquote (part expr 1 g))
]

call_value : Lookup → Bytes → Option Bytes
unfolding find part to_lower
call_value get expr = elim (find func_call_re expr) [
  | none ↦ none
  | some g ↦ get (codes "fn:" ++ to_lower (part expr 1 g))
]

starts_quoted : Bytes → Bool
starts_quoted [] = false
starts_quoted (c ∷ cs) = c == b'\''

-- An oid that is cast to regclass is shown as a relation name.
ident_value : Lookup → SelCol → Bytes → Option Bytes
unfolding to_lower unqualify contains
ident_value get c expr =
    get (if contains c.cast (codes "regclass") then codes "regclass" else to_lower (unqualify expr))

-- An expression that is not empty, of which the value of a CASE is given.
by_form : Lookup → SelCol → Bytes → Option Bytes → Option Bytes
unfolding starts_quoted to_lower equal matches ident_value literal_value token_at call_value
by_form get c expr of_case =
    let lower = to_lower expr in
    if equal lower (codes "true")
    then some (codes "t")
    else if equal lower (codes "false")
    then some (codes "f")
    else if equal lower (codes "null")
    then none
    else if matches ident_re expr
    then ident_value get c expr
    else if matches number_re expr
    then some expr
    else if starts_quoted expr
    then literal_value expr
    else if token_at lower 0 (codes "case")
    then of_case
    else call_value get expr

eval_form : Lookup → SelCol → Bytes → (Bytes → Option Bytes) → Option Bytes
unfolding by_form eval_case
eval_form get c [] value = none
eval_form get c (b ∷ expr) value = by_form get c (b ∷ expr) (eval_case value (b ∷ expr))

unfoldable pub eval_fuel : ℕ → Lookup → SelCol → Option Bytes
unfolding eval_form trim_space expr_col
eval_fuel zero get c = none
eval_fuel (suc n) get c =
    eval_form get c (trim_space c.expr) (λ text. eval_fuel n get (expr_col text))

unfoldable pub eval_expr : SelCol → Lookup → Option Bytes
unfolding eval_fuel
eval_expr c get = eval_fuel (suc (length c.expr)) get c

unfoldable pub row_for : List SelCol → Lookup → List (Option Bytes)
unfolding eval_expr
row_for cols get = map (λ c. eval_expr c get) cols
