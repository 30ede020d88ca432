-- ===== src/Mysqlwire/Lexer.antt =====
-- internal/mysqlwire/query.go, `lexTokens` and `lexQuoted`, and handler.go's `isIdentByte`. The lexer is
-- given the bytes from its `i` on.
pub mod Spans
pub mod Quoted
use redash_wire.Common.{
  ℕ, zero, suc, ◌+◌, Bool, true, false, not, ◌&&◌, ◌||◌, Option, none, some, List, [], ◌∷◌, ◌++◌,
  ◌==◌, if◌then◌else◌, length, take, drop, choose,
}
use redash_wire.Common.Text.{
  Bytes, codes, equal, to_lower, index, has_prefix, is_upper, is_lower, is_digit,
}
use redash_wire.Sqltext.Mask.{line_len, next_is}

unfoldable pub is_ident_byte : ℕ → Bool
is_ident_byte b = b == b'_' || b == b'$' || is_lower b || is_upper b || is_digit b

pub data TokKind : Type 0 where
  tok_word tok_var tok_number tok_string tok_quoted tok_op : TokKind

unfoldable pub same_tok : TokKind → TokKind → Bool
same_tok tok_word tok_word = true
same_tok tok_var tok_var = true
same_tok tok_number tok_number = true
same_tok tok_string tok_string = true
same_tok tok_quoted tok_quoted = true
same_tok tok_op tok_op = true
same_tok _ _ = false

pub record Token : Type 0 where
  pub kind : TokKind
  pub text : Bytes
  pub orig : Bytes
  pub pos : ℕ

-- `t.is(kind, text)`
unfoldable pub is_tok : Token → TokKind → Bytes → Bool
unfolding same_tok equal
is_tok t kind text = same_tok t.kind kind && equal t.text text

unfoldable pub alias_text : Token → Bytes
alias_text t = elim t.kind [ tok_word ↦ t.orig | _ ↦ t.text ]

-- What `\` and the byte behind it stand for.
unfoldable pub unescape : ℕ → Bytes
unescape c =
    choose
      ((c == b'n', 10 ∷ [])
        ∷ (c == b'r', 13 ∷ [])
        ∷ (c == b't', 9 ∷ [])
        ∷ (c == b'0', 0 ∷ [])
        ∷ (c == b'b', 8 ∷ [])
        ∷ (c == b'Z', 26 ∷ [])
        ∷ (c == b'%' || c == b'_', b'\\' ∷ c ∷ [])
        ∷ [])
      (c ∷ [])

-- Text in front of what is read, and the bytes passed for it.
abbrev pub reads : Bytes → ℕ → Bytes × ℕ → Bytes × ℕ
reads text n (more, m) = (text ++ more, n + m)

-- `lexQuoted` behind its opening quote `q`: the contents, and the bytes passed.
unfoldable pub lex_quoted : ℕ → Bool → Bytes → Bytes × ℕ
unfolding unescape
lex_quoted q escapes [] = ([], 0)
lex_quoted q escapes (c ∷ []) = if c == q then ([], 1) else (c ∷ [], 1)
lex_quoted q escapes (c ∷ d ∷ cs) =
    let pair = lex_quoted q escapes cs in
    let on = lex_quoted q escapes (d ∷ cs) in
    if escapes && c == b'\\'
    then reads (unescape d) 2 pair
    else if c == q
    then (if d == q then reads (q ∷ []) 2 pair else ([], 1))
    else reads (c ∷ []) 1 on

-- The bytes that a loop passes while `p` holds.
unfoldable pub run_len : (ℕ → Bool) → Bytes → ℕ
run_len p [] = 0
run_len p (c ∷ cs) = if p c then suc (run_len p cs) else 0

abbrev pub in_name : ℕ → Bool
in_name c = is_ident_byte c || c == b'.'

-- The bytes of a variable behind its "@".
unfoldable pub var_len : Bytes → ℕ
unfolding run_len is_ident_byte
var_len [] = 0
var_len (c ∷ cs) = if c == b'@' then suc (run_len in_name cs) else run_len in_name (c ∷ cs)

-- The bytes of a block comment behind its "/".
unfoldable pub comment_len : Bytes → ℕ
unfolding index has_prefix
comment_len cs = elim (index (drop 1 cs) (codes "*/")) [ none ↦ length cs | some n ↦ suc (n + 2) ]

abbrev is_angle : ℕ → Bool
is_angle c = c == b'<' || c == b'>' || c == b'!'

abbrev is_compare : ℕ → Bool
is_compare c = c == b'<' || c == b'>' || c == b'='

-- The bytes of an operator behind its first byte `c`.
unfoldable pub op_len : ℕ → Bytes → ℕ
op_len c [] = 0
op_len c (d ∷ cs) = if is_angle c && is_compare d then 1 else 0

-- One round of the loop of `lexTokens` at the byte `c`: it passes `c` and as many bytes behind it as
-- the number says, for no token or for one of a kind and a text.
pub data Round : Type 0 where
  passed : ℕ → Round
  lexed : TokKind → Bytes → ℕ → Round

abbrev spelled : TokKind → ℕ → Bytes → ℕ → Round
spelled kind c cs n = lexed kind (c ∷ take n cs) n

abbrev lowered : TokKind → ℕ → Bytes → ℕ → Round
lowered kind c cs n = lexed kind (to_lower (c ∷ take n cs)) n

abbrev quoted_round : TokKind → Bytes × ℕ → Round
quoted_round kind (text, n) = lexed kind text n

abbrev pub is_space : ℕ → Bool
is_space c = c == b' ' || c == b'\t' || c == b'\r' || c == b'\n'

unfoldable pub lex_round : ℕ → Bytes → Round
unfolding line_len comment_len lex_quoted var_len run_len op_len is_ident_byte to_lower
lex_round c cs =
    choose
      ((is_space c, passed 0)
        ∷ (c == b'#' || (c == b'-' && next_is b'-' cs), passed (line_len cs))
        ∷ (c == b'/' && next_is b'*' cs, passed (comment_len cs))
        ∷ (c == b'\'' || c == b'"', quoted_round tok_string (lex_quoted c true cs))
        ∷ (c == b'`', quoted_round tok_quoted (lex_quoted c false cs))
        ∷ (c == b'@', lowered tok_var c cs (var_len cs))
        ∷ (is_digit c, spelled tok_number c cs (run_len in_name cs))
        ∷ (is_ident_byte c, lowered tok_word c cs (run_len is_ident_byte cs))
        ∷ [])
      (spelled tok_op c cs (op_len c cs))

-- The token of a round at `pos`; `orig` is what the round passes.
unfoldable pub emit : ℕ → Bytes → Round → List Token → List Token
emit pos s (passed n) toks = toks
emit pos s (lexed kind text n) toks =
    record { kind = kind; text = text; orig = take (suc n) s; pos = pos } ∷ toks

abbrev pub round_len : Round → ℕ
round_len (passed n) = n
round_len (lexed kind text n) = n

-- The loop of `lexTokens`. Each round passes a byte or more.
unfoldable pub lex_from : ℕ → ℕ → Bytes → List Token
unfolding lex_round emit
lex_from zero pos s = []
lex_from (suc fuel) pos [] = []
lex_from (suc fuel) pos (c ∷ cs) =
    let r = lex_round c cs in
    emit pos (c ∷ cs) r (lex_from fuel (pos + suc (round_len r)) (drop (round_len r) cs))

unfoldable pub lex_tokens : Bytes → List Token
unfolding lex_from
lex_tokens s = lex_from (length s) 0 s
