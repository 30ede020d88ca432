-- ===== src/Mysqlwire/Lexer/Spans.antt =====
-- internal/mysqlwire/query.go, `lexTokens`: where the tokens of a text stand.
use redash_wire.Common.{ℕ, ◌+◌, ◌≤◌, List, [], ◌∷◌, ◌≡◌, length, take, drop}
use redash_wire.Common.Text.{Bytes}
use redash_wire.Mysqlwire.Lexer.{Token}

-- The tokens stand one behind the other in `s` from `from` on, each with its bytes at its position.
pub Placed : Bytes → ℕ → List Token → Type 0
Placed s from [] = Unit
Placed s from (t ∷ toks) =
    (from ≤ t.pos)
    × (t.orig ≡ take (length t.orig) (drop t.pos s))
    × Placed s (t.pos + length t.orig) toks
