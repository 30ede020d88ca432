-- ===== src/Pgwire/Catalog/Values/Fuel.antt =====
-- internal/pgwire/catalog.go, `evalExpr`: the fuel is enough.
use redash_wire.Common.{ℕ, zero, suc, ◌<◌, [], ◌∷◌, length, ◌≡◌, refl, ap, arith}
use redash_wire.Common.Text.{Bytes, trim_space}
use redash_wire.Common.Lengths.{Value, Agree, length-trim_space}
use redash_wire.Pgwire.Catalog.Syntax.Shorter.{length-expr_col}
use redash_wire.Pgwire.Catalog.Syntax.{SelCol, expr_col}
use redash_wire.Pgwire.Catalog.Case.Agrees.{eval_case-Agree}
use redash_wire.Pgwire.Catalog.Values.{Lookup, by_form, eval_form, eval_fuel, eval_expr}

eval_form-Agree :
    (get : Lookup) (c : SelCol) (expr : Bytes) (f g : Value)
    → Agree (length expr) f g
    → eval_form get c expr f ≡ eval_form get c expr g
unfolding eval_form
eval_form-Agree get c [] f g h = refl
eval_form-Agree get c (b ∷ expr) f g h =
    ap (by_form get c (b ∷ expr)) (eval_case-Agree f g (b ∷ expr) h (omega arith))

eval_fuel-enough :
    (n m : ℕ) (get : Lookup) (c : SelCol)
    → length c.expr < n
    → length c.expr < m
    → eval_fuel n get c ≡ eval_fuel m get c
unfolding eval_fuel
eval_fuel-enough zero m get c h k = absurd (omega arith)
eval_fuel-enough (suc n) zero get c h k = absurd (omega arith)
eval_fuel-enough (suc n) (suc m) get c h k =
    eval_form-Agree get c (trim_space c.expr) (λ t. eval_fuel n get (expr_col t))
      (λ t. eval_fuel m get (expr_col t))
      (λ t s.
        eval_fuel-enough n m get (expr_col t)
          (omega (arith, length-expr_col t, length-trim_space c.expr))
          (omega (arith, length-expr_col t, length-trim_space c.expr)))

-- The value of a select item is found: with any fuel above the length of its expression it is the same.
pub eval_expr-fuel :
    (n : ℕ) (get : Lookup) (c : SelCol) → length c.expr < n → eval_fuel n get c ≡ eval_expr c get
unfolding eval_expr
eval_expr-fuel n get c h = eval_fuel-enough n (suc (length c.expr)) get c h (omega arith)
