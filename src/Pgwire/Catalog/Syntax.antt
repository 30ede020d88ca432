-- ===== src/Pgwire/Catalog/Syntax.antt =====
-- internal/pgwire/catalog.go: the words and names of SQL that the catalog queries are read by.
pub mod Shorter
use redash_wire.Common.{
  ℕ, zero, suc, ◌+◌, Bool, true, not, ◌&&◌, ◌||◌, Option, none, some, [], ◌∷◌, ◌==◌, if◌then◌else◌,
  length, take, drop, get_elem?,
}
use redash_wire.Common.Text.{
  Bytes, codes, has_prefix, to_lower, trim_space, trim_left, trim_right, is_digit, is_upper,
  is_lower,
}
use redash_wire.Common.Numerals.{ℤ, increment, decrement}
use redash_wire.Common.Regex.{
  Re, one, seq, alt, star, group, at_start, at_end, any_byte, is_letter, is_name_byte, byte,
  literal, plus, optional, sequence, blanks, find, span,
}

pub record SelCol : Type 0 where
  pub output : Bytes
  pub expr : Bytes
  pub cast : Bytes

-- `[A-Za-z_][\w$]*`
abbrev pub ident : Re
ident = seq (one is_letter) (star (one is_name_byte))

abbrev quoted_ident : Re
quoted_ident = sequence (byte b'"' ∷ plus (one (λ c. not (c == b'"'))) ∷ byte b'"' ∷ [])

abbrev pub ident_re : Re
ident_re = sequence (
    at_start
    ∷ alt ident quoted_ident
    ∷ star (seq (byte b'.') (alt ident quoted_ident))
    ∷ at_end
    ∷ [])

abbrev pub func_call_re : Re
func_call_re = sequence (
    at_start
    ∷ star (seq ident (byte b'.'))
    ∷ group 1 ident
    ∷ blanks
    ∷ byte b'('
    ∷ star (one any_byte)
    ∷ byte b')'
    ∷ at_end
    ∷ [])

abbrev pub cast_suffix_re : Re
cast_suffix_re = sequence (
    plus (
      sequence (
        blanks
        ∷ literal (codes "::")
        ∷ blanks
        ∷ star (seq ident (byte b'.'))
        ∷ ident
        ∷ optional (sequence (byte b'(' ∷ star (one (λ c. not (c == b')'))) ∷ byte b')' ∷ []))
        ∷ []))
    ∷ blanks
    ∷ at_end
    ∷ [])

unfoldable pub is_ident_byte : ℕ → Bool
is_ident_byte b = b == b'_' || b == b'$' || is_lower b || is_upper b || is_digit b

unfoldable pub is_space : ℕ → Bool
is_space b = b == b' ' || b == 9 || b == 10 || b == 13

-- Whether there is no identifier byte at a place.
free_at : Bytes → ℕ → Bool
unfolding is_ident_byte
free_at s i = elim (get_elem? s i) [ none ↦ true | some c ↦ not (is_ident_byte c) ]

free_before : Bytes → ℕ → Bool
unfolding free_at
free_before s zero = true
free_before s (suc i) = free_at s i

unfoldable pub token_at : Bytes → ℕ → Bytes → Bool
unfolding has_prefix free_at free_before
token_at s i tok = has_prefix (drop i s) tok && free_before s i && free_at s (i + length tok)

abbrev pub depth_after : ℕ → ℤ → ℤ
depth_after c d = if c == b'(' then increment d else if c == b')' then decrement d else d

unfoldable pub trim_quotes : Bytes → Bytes
unfolding trim_left trim_right
trim_quotes s = trim_right (λ c. c == b'"') (trim_left (λ c. c == b'"') s)

-- What stands behind the last dot.
behind_dot : Bytes → Option Bytes
behind_dot [] = none
behind_dot (c ∷ cs) = elim (behind_dot cs) [
  | some s ↦ some s
  | none ↦ if c == b'.' then some cs else none
]

or_whole : Bytes → Option Bytes → Bytes
or_whole s none = s
or_whole s (some t) = t

unfoldable pub unqualify : Bytes → Bytes
unfolding trim_quotes trim_space behind_dot or_whole
unqualify s = let t = trim_quotes (trim_space s) in trim_quotes (or_whole t (behind_dot t))

unfoldable pub expr_col : Bytes → SelCol
unfolding trim_space find span to_lower
expr_col expr =
    let e = trim_space expr in
    elim (find cast_suffix_re e) [
      | none ↦ record { output = []; expr = e; cast = [] }
      | some g ↦
          let (a, b) = span 0 g in
          record { output = []; expr = trim_space (take a e); cast = to_lower (drop a e) }
    ]
