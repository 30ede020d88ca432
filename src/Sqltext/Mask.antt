-- ===== src/Sqltext/Mask.antt =====
-- internal/sqltext/sqltext.go, `scanMask`: which bytes of a text are code. A text is walked with the
-- bytes before the current one (the nearest first) and the bytes from it on.
use redash_wire.Common.{
  ℕ, zero, suc, ◌+◌, ◌-◌, Bool, true, false, ◌&&◌, ◌||◌, none, some, List, [], ◌∷◌, ◌==◌,
  if◌then◌else◌, length, take, drop,
}
use redash_wire.Common.Text.{Bytes, index, has_prefix, is_upper, is_lower, is_digit}

pub data Dialect : Type 0 where
  postgres mysql : Dialect

abbrev pub is_mysql : Dialect → Bool
is_mysql postgres = false
is_mysql mysql = true

abbrev pub is_postgres : Dialect → Bool
is_postgres postgres = true
is_postgres mysql = false

unfoldable pub is_ident_byte : ℕ → Bool
is_ident_byte b = b == b'_' || is_lower b || is_upper b || is_digit b

-- `i+1 < n && sql[i+1] == x`, at the bytes behind the current one.
abbrev pub next_is : ℕ → Bytes → Bool
next_is x [] = false
next_is x (c ∷ _) = c == x

-- Each loop below is given the bytes from its `i` on, and gives the bytes that it passes.

-- `for i < n && sql[i] != '\n'`
unfoldable pub line_len : Bytes → ℕ
line_len [] = 0
line_len (c ∷ cs) = if c == b'\n' then 0 else suc (line_len cs)

-- The loop of a block comment behind its opening.
unfoldable pub block_len : Dialect → ℕ → Bytes → ℕ
block_len d zero s = 0
block_len d (suc depth) [] = 0
block_len d (suc depth) (c ∷ []) = 1
block_len d (suc depth) (c ∷ e ∷ cs) =
    let close = suc (suc (block_len d depth cs)) in
    let nested = suc (suc (block_len d (suc (suc depth)) cs)) in
    let other = suc (block_len d (suc depth) (e ∷ cs)) in
    if c == b'*' && e == b'/'
    then close
    else if is_postgres d && c == b'/' && e == b'*'
    then nested
    else other

-- The loop of a quoted region behind its opening quote.
unfoldable pub quoted_len : Bool → ℕ → Bytes → ℕ
quoted_len backslash quote [] = 0
quoted_len backslash quote (c ∷ []) = 1
quoted_len backslash quote (c ∷ e ∷ cs) =
    let pair = suc (suc (quoted_len backslash quote cs)) in
    let other = suc (quoted_len backslash quote (e ∷ cs)) in
    if backslash && c == b'\\'
    then pair
    else if c == quote
    then (if e == quote then pair else 1)
    else other

-- `for j < n && isIdentByte(sql[j])`
unfoldable pub ident_len : Bytes → ℕ
unfolding is_ident_byte
ident_len [] = 0
ident_len (c ∷ cs) = if is_ident_byte c then suc (ident_len cs) else 0

-- The length of a dollar-quoted string, from the bytes behind its first `$`; 0 where none opens.
unfoldable pub dollar_len : Bytes → ℕ
unfolding ident_len index has_prefix
dollar_len cs =
    let k = ident_len cs in
    if next_is b'$' (drop k cs)
    then (let tag = b'$' ∷ take (suc k) cs in
        elim (index (drop (suc k) cs) tag) [
          | none ↦ suc (length cs)
          | some idx ↦ length tag + idx + length tag
        ])
    else 0

-- `backslashEscapes`, for the quote that follows `before`.
unfoldable pub backslash_escapes : Dialect → ℕ → Bytes → Bool
unfolding is_ident_byte
backslash_escapes mysql quote before = if quote == b'`' then false else true
backslash_escapes postgres quote [] = false
backslash_escapes postgres quote (prev ∷ []) = quote == b'\'' && (prev == b'E' || prev == b'e')
backslash_escapes postgres quote (prev ∷ prev2 ∷ _) =
    quote == b'\''
    && (prev == b'E' || prev == b'e')
    && (if is_ident_byte prev2 then false else true)

-- One round of the outer loop at the byte `c`: the length of the region that opens here and is not
-- code, or 0 where `c` is code. The flag is `protectIdentifierQuotes`.
unfoldable pub region_len : Dialect → Bool → Bytes → ℕ → Bytes → ℕ
region_len d protect before c cs =
    if (c == b'-' && next_is b'-' cs) || (is_mysql d && c == b'#')
    then line_len (c ∷ cs)
    else if c == b'/' && next_is b'*' cs
    then suc (suc (block_len d 1 (drop 1 cs)))
    else if c == b'\'' || (protect && (c == b'"' || (is_mysql d && c == b'`')))
    then suc (quoted_len (backslash_escapes d c before) c cs)
    else if is_postgres d && c == b'$'
    then dollar_len cs
    else 0

-- What is left to pass at the byte `c`: of a region that is open (`skip`), or of one that opens here.
unfoldable pub passed_len : Dialect → Bool → ℕ → Bytes → ℕ → Bytes → ℕ
passed_len d protect skip before c cs = if skip == 0 then region_len d protect before c cs else skip

-- The outer loop. The bytes that a region passes keep `false`.
unfoldable pub mask_from : Dialect → Bool → ℕ → Bytes → Bytes → List Bool
mask_from d protect skip before [] = []
mask_from d protect skip before (c ∷ cs) =
    let n = passed_len d protect skip before c cs in
    (n == 0) ∷ mask_from d protect (n - 1) (c ∷ before) cs

unfoldable pub scan_mask : Dialect → Bytes → Bool → List Bool
unfolding mask_from passed_len region_len line_len block_len quoted_len dollar_len backslash_escapes
scan_mask d sql protect = mask_from d protect 0 [] sql

unfoldable pub code_mask : Dialect → Bytes → List Bool
unfolding scan_mask
code_mask d sql = scan_mask d sql true
