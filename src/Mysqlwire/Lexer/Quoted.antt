-- ===== src/Mysqlwire/Lexer/Quoted.antt =====
-- internal/mysqlwire/query.go, `lexQuoted`: it undoes the quoting of a text.
use redash_wire.Common.{
  ℕ, suc, Bool, true, false, ◌&&◌, ◌||◌, [], ◌∷◌, ◌++◌, ◌==◌, if◌then◌else◌, ◌≡◌, refl, ap, ◌∙◌,
  arith, length, Bool-cases, inl, inr,
}
use redash_wire.Common.Text.{Bytes}
use redash_wire.Sqltext.Mask.{next_is}
use redash_wire.Mysqlwire.Lexer.{reads, unescape, lex_quoted}

-- A byte as it stands in a text quoted by `q`: the quote is doubled, and so is a backslash where it
-- escapes.
abbrev pub quoted_byte : ℕ → Bool → ℕ → Bytes
quoted_byte q escapes c = if c == q || (escapes && c == b'\\') then c ∷ c ∷ [] else c ∷ []

abbrev pub quoted : ℕ → Bool → Bytes → Bytes
quoted q escapes [] = []
quoted q escapes (c ∷ cs) = quoted_byte q escapes c ++ quoted q escapes cs

closing_step :
    (q : ℕ) (escapes : Bool) (rest : Bytes)
    → next_is q rest ≡ false
    → (q == b'\\') ≡ false
    → lex_quoted q escapes (q ∷ rest) ≡ ([], 1)
unfolding lex_quoted
closing_step q escapes [] h k = ground arith
closing_step q escapes (d ∷ rest) h k = ground arith

module _ (q : ℕ) (escapes : Bool) (rest : Bytes) where
  -- The quoted text with its closing quote, and what follows.
  abbrev closed : Bytes → Bytes
  closed s = quoted q escapes s ++ (q ∷ rest)

  opens_closed : (s : Bytes) → (d : ℕ) × (t : Bytes) × (closed s ≡ d ∷ t)
  opens_closed [] = (q, rest, refl)
  opens_closed (c ∷ s) = elim (Bool-cases (c == q || (escapes && c == b'\\'))) [
    | inl y ↦ (c, c ∷ closed s, rw y refl)
    | inr n ↦ (c, closed s, rw n refl)
  ]

  plain_step :
      (c : ℕ) (t : Bytes)
      → (d : ℕ) × (u : Bytes) × (t ≡ d ∷ u)
      → (c == q || (escapes && c == b'\\')) ≡ false
      → lex_quoted q escapes (c ∷ t) ≡ reads (c ∷ []) 1 (lex_quoted q escapes t)
  unfolding lex_quoted
  plain_step c [] (d, u, e) n = absurd cc
  plain_step c (d ∷ u) _ n = ground arith

  pair_step :
      (c : ℕ) (t : Bytes)
      → (q == b'\\') ≡ false
      → (c == q || (escapes && c == b'\\')) ≡ true
      → lex_quoted q escapes (c ∷ c ∷ t) ≡ reads (c ∷ []) 2 (lex_quoted q escapes t)
  unfolding lex_quoted unescape
  pair_step c t h y = ground arith

  -- The contents of a quoted text are the text, and all its bytes are passed.
  pub lex_quoted-quoted :
      (s : Bytes)
      → (q == b'\\') ≡ false
      → next_is q rest ≡ false
      → lex_quoted q escapes (closed s) ≡ (s, suc (length (quoted q escapes s)))
  lex_quoted-quoted [] k h = closing_step q escapes rest h k
  lex_quoted-quoted (c ∷ s) k h = elim (Bool-cases (c == q || (escapes && c == b'\\'))) [
    | inl y ↦ rw (y) (
        pair_step c (closed s) k y
        ∙ ap (reads (c ∷ []) 2) (lex_quoted-quoted s k h)
        ∙ ap (λ n. (c ∷ s, n)) (omega arith))
    | inr n ↦ rw (n) (
        plain_step c (closed s) (opens_closed s) n
        ∙ ap (reads (c ∷ []) 1) (lex_quoted-quoted s k h)
        ∙ ap (λ n. (c ∷ s, n)) (omega arith))
  ]
