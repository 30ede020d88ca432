-- ===== src/Mysqlwire/Scan.antt =====
-- internal/mysqlwire/query.go and handler.go: what is found in the redacted text of a statement by its
-- position, and read from the statement itself.
use redash_wire.Common.{
  ℕ, zero, suc, ◌+◌, ◌-◌, Bool, true, false, not, ◌&&◌, ◌||◌, Option, none, some, List, [], ◌∷◌,
  ◌==◌, if◌then◌else◌, length, take, drop, get_elem?,
}
use redash_wire.Common.Numerals.{ℤ, pos, increment, decrement, is_zero_int}
use redash_wire.Common.Text.{
  Bytes, codes, equal, one_of, to_lower, trim_space, trim_left, index, has_prefix,
}
use redash_wire.Sqltext.Mask.{mysql}
use redash_wire.Sqltext.Redact.{redact}
use redash_wire.Mysqlwire.Lexer.{
  is_ident_byte, Token, tok_word, tok_quoted, tok_op, tok_var, same_tok, is_tok, alias_text,
  lex_tokens, is_space, run_len,
}

unfoldable pub normalize : Bytes → Bytes
unfolding redact trim_space to_lower
normalize sql = to_lower (trim_space (redact mysql sql))

-- The text that positions are looked for in.
unfoldable pub lower_redacted : Bytes → Bytes
unfolding redact to_lower
lower_redacted sql = to_lower (redact mysql sql)

-- `isIdentByte(s[i])`; false past the end.
unfoldable pub ident_at : Bytes → ℕ → Bool
unfolding is_ident_byte
ident_at s i = elim (get_elem? s i) [ none ↦ false | some b ↦ is_ident_byte b ]

unfoldable pub ident_before : Bytes → ℕ → Bool
unfolding ident_at
ident_before s zero = false
ident_before s (suc i) = ident_at s i

unfoldable pub token_at : Bytes → ℕ → Bytes → Bool
unfolding has_prefix ident_before ident_at
token_at s i kw =
    has_prefix (drop i s) kw && (not (ident_before s i) && not (ident_at s (i + length kw)))

unfoldable pub has_keyword : Bytes → Bytes → Bool
unfolding has_prefix ident_at
has_keyword lower kw = has_prefix lower kw && not (ident_at lower (length kw))

-- The depth of parentheses behind the byte `c`; it may fall below 0.
unfoldable pub depth_after : ℤ → ℕ → ℤ
depth_after depth c =
    if c == b'(' then increment depth else if c == b')' then decrement depth else depth

-- The loops of `selectList` and `infoSchemaFilter` over the redacted text, from its byte `i` on: the
-- first place outside parentheses where `stop` holds of the place and its byte.
unfoldable pub scan_top : (ℕ → ℕ → Bool) → ℤ → ℕ → Bytes → Option ℕ
unfolding depth_after
scan_top stop depth i [] = none
scan_top stop depth i (c ∷ cs) =
    let on = scan_top stop (depth_after depth c) (suc i) cs in
    if is_zero_int depth && stop i c then some i else on

abbrev or_end : Option ℕ → ℕ → ℕ
or_end none n = n
or_end (some i) n = i

unfoldable pub ends_list : Bytes → ℕ → ℕ → Bool
unfolding token_at
ends_list red i c =
    c == b';'
    || ((c == b'l' && token_at red i (codes "limit"))
        || (c == b'f' && token_at red i (codes "from")))

abbrev pub select_modifiers : List Bytes
select_modifiers =
    codes "all"
    ∷ codes "distinct"
    ∷ codes "distinctrow"
    ∷ codes "sql_no_cache"
    ∷ codes "sql_cache"
    ∷ codes "sql_calc_found_rows"
    ∷ []

-- The loop of `selectList` over the modifiers; each round takes a word.
unfoldable pub drop_modifiers : ℕ → Bytes → Bytes
unfolding trim_left run_len equal to_lower
drop_modifiers zero list = list
drop_modifiers (suc fuel) list =
    let trimmed = trim_left is_space list in
    let n = run_len (λ c. not (is_space c)) trimmed in
    let rest = drop_modifiers fuel (drop n trimmed) in
    if one_of select_modifiers (to_lower (take n trimmed)) then rest else list

-- `selectList` behind the keyword at `k`.
unfoldable pub list_behind : Bytes → Bytes → ℕ → Bytes
unfolding scan_top ends_list drop_modifiers
list_behind sql red k =
    let start = k + 6 in
    let end = or_end (scan_top (ends_list red) (pos 0) start (drop start red)) (length red) in
    let list = take (end - start) (drop start sql) in drop_modifiers (suc (length list)) list

unfoldable pub select_list : Bytes → Bytes
unfolding lower_redacted index has_prefix list_behind
select_list sql =
    let red = lower_redacted sql in
    elim (index red (codes "select")) [ none ↦ [] | some k ↦ list_behind sql red k ]

abbrev pub not_an_alias : List Bytes
not_an_alias =
    codes "and"
    ∷ codes "as"
    ∷ codes "false"
    ∷ codes "in"
    ∷ codes "is"
    ∷ codes "like"
    ∷ codes "not"
    ∷ codes "null"
    ∷ codes "or"
    ∷ codes "true"
    ∷ []

abbrev pub is_ident : Token → Bool
is_ident t = same_tok t.kind tok_word || same_tok t.kind tok_quoted

-- The two tests of `splitAlias`, on the last token and the one before it.
unfoldable pub after_as : Token → Token → Bool
unfolding is_tok same_tok
after_as last prev =
    is_tok prev tok_word (codes "as")
    && (not (same_tok last.kind tok_op) && not (same_tok last.kind tok_var))

unfoldable pub bare_alias : Token → Token → Bool
unfolding same_tok equal
bare_alias last prev =
    is_ident last
    && (not (one_of not_an_alias last.text)
        && (not (same_tok prev.kind tok_op) || equal prev.text (codes ")")))

abbrev some_more : List Token → Bool
some_more [] = false
some_more (_ ∷ _) = true

-- `splitAlias` on the tokens from the last back: the expression and the alias.
unfoldable pub split_ends : Bytes → List Token → Bytes × Bytes
unfolding trim_space after_as bare_alias alias_text
split_ends item (last ∷ prev ∷ more) =
    if some_more more && after_as last prev
    then (trim_space (take prev.pos item), alias_text last)
    else if bare_alias last prev
    then (trim_space (take last.pos item), alias_text last)
    else (trim_space item, [])
split_ends item _ = (trim_space item, [])

-- The tokens from the last back.
unfoldable pub from_last : List Token → List Token → List Token
from_last done [] = done
from_last done (t ∷ toks) = from_last (t ∷ done) toks

unfoldable pub split_alias : Bytes → Bytes × Bytes
unfolding lex_tokens split_ends from_last
split_alias item = split_ends item (from_last [] (lex_tokens item))
