-- ===== src/Sqltext/Token.antt =====
-- internal/sqltext/sqltext.go, `ContainsToken` and `hasStatementToken`.
pub mod Occurs
pub mod Word
use redash_wire.Common.{
  ℕ, zero, suc, ◌+◌, ◌-◌, Bool, true, false, not, ◌&&◌, ◌||◌, Option, none, some, List, [], ◌∷◌,
  ◌==◌, if◌then◌else◌, length, drop, get_elem?,
}
use redash_wire.Common.Text.{Bytes, index, has_prefix}
use redash_wire.Sqltext.Mask.{is_ident_byte}

-- `isIdentByte(s[i])`; `false` past the end of the text.
unfoldable pub ident_at : Bytes → ℕ → Bool
unfolding is_ident_byte
ident_at s i = elim (get_elem? s i) [ none ↦ false | some b ↦ is_ident_byte b ]

-- `idx > 0 && isIdentByte(s[idx-1])`
unfoldable pub ident_before : Bytes → ℕ → Bool
unfolding ident_at
ident_before s zero = false
ident_before s (suc i) = ident_at s i

-- The loop over `strings.Index(s[from:], tok)`: it goes on at `idx + 1` until `accept` holds at `idx`.
unfoldable pub search_from : ℕ → Bytes → Bytes → (ℕ → Bool) → ℕ → Bool
search_from zero s tok accept from = false
search_from (suc fuel) s tok accept from = elim (index (drop from s) tok) [
  | none ↦ false
  | some k ↦ elim (accept (from + k)) [
    | true ↦ true
    | false ↦ search_from fuel s tok accept (from + k + 1)
  ]
]

-- `!isIdentByte(tok[len(tok)-1])`
unfoldable pub ends_open : Bytes → Bool
unfolding is_ident_byte
ends_open [] = true
ends_open (c ∷ []) = not (is_ident_byte c)
ends_open (c ∷ e ∷ cs) = ends_open (e ∷ cs)

-- `leftOK && rightOK`
unfoldable pub token_bounds : Bytes → Bytes → ℕ → Bool
unfolding ident_before ends_open
token_bounds s tok idx =
    not (ident_before s idx) && (ends_open tok || not (ident_at s (idx + length tok)))

unfoldable pub contains_token : Bytes → Bytes → Bool
unfolding search_from token_bounds index has_prefix
contains_token s [] = false
contains_token s (c ∷ cs) = search_from (suc (length s)) s (c ∷ cs) (token_bounds s (c ∷ cs)) 0

-- ' ', \t, \r and \n
abbrev pub is_gap : ℕ → Bool
is_gap c = c == b' ' || c == b'\t' || c == b'\r' || c == b'\n'

-- Past the blanks the text goes on with "(".
unfoldable pub calls : Bytes → Bool
calls [] = false
calls (c ∷ cs) = if is_gap c then calls cs else c == b'('

-- A whole word that no "(" follows.
unfoldable pub statement_bounds : Bytes → Bytes → ℕ → Bool
unfolding ident_before calls
statement_bounds s tok idx =
    not (ident_before s idx)
    && not (ident_at s (idx + length tok))
    && not (calls (drop (idx + length tok) s))

unfoldable pub has_statement_token : Bytes → Bytes → Bool
unfolding search_from statement_bounds index has_prefix
has_statement_token s tok = search_from (suc (length s)) s tok (statement_bounds s tok) 0
