-- ===== src/Pgwire/Catalog/Syntax/Shorter.antt =====
-- internal/pgwire/catalog.go, `exprCol`: an expression is no longer than its text.
use redash_wire.Common.{length, take, ◌≤◌, arith, Option-cases, inl, inr}
use redash_wire.Common.Text.{Bytes, trim_space}
use redash_wire.Common.Regex.{find, span}
use redash_wire.Common.Lengths.{length-take, length-trim_space}
use redash_wire.Pgwire.Catalog.Syntax.{expr_col, cast_suffix_re}

pub length-expr_col : (t : Bytes) → length (expr_col t).expr ≤ length t
unfolding expr_col
length-expr_col t = elim (Option-cases (find cast_suffix_re (trim_space t))) [
  | inl n ↦ rw (expr_col, n) (length-trim_space t)
  | inr (g, e) ↦
      let cut : Bytes = take (span 0 g).0 (trim_space t) in
      rw (expr_col, e)
        (omega (
          arith,
          length-trim_space cut,
          length-take (span 0 g).0 (trim_space t),
          length-trim_space t,
        ))
]
