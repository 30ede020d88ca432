-- ===== src/Common/Runes.antt =====
-- The runes of a Go string, as `range` and the package regexp decode them from UTF-8: a byte that
-- opens no valid sequence stands for U+FFFD by itself.
use redash_wire.Common.{
  ℕ, zero, suc, ◌+◌, ◌-◌, ◌*◌, Bool, ◌&&◌, List, [], ◌∷◌, ◌==◌, leb, ltb, if◌then◌else◌,
}
use redash_wire.Common.Text.{Bytes, lower_byte}

abbrev between : ℕ → ℕ → ℕ → Bool
between low high b = leb low b && leb b high

abbrev is_continuation : ℕ → Bool
is_continuation = between 128 191

-- U+FFFD, with no byte more than the first.
abbrev rune_error : ℕ × ℕ
rune_error = (65533, 0)

-- The second byte of three: no longer form than needed, and no surrogate.
abbrev is_second_of_three : ℕ → ℕ → Bool
is_second_of_three c d = between (if c == 224 then 160 else 128) (if c == 237 then 159 else 191) d

-- The second byte of four: no longer form than needed, and nothing above U+10FFFF.
abbrev is_second_of_four : ℕ → ℕ → Bool
is_second_of_four c d = between (if c == 240 then 144 else 128) (if c == 244 then 143 else 191) d

two_bytes : ℕ → Bytes → ℕ × ℕ
two_bytes c (d ∷ rest) = if is_continuation d then ((c - 192) * 64 + (d - 128), 1) else rune_error
two_bytes c _ = rune_error

three_bytes : ℕ → Bytes → ℕ × ℕ
three_bytes c (d ∷ e ∷ rest) =
    if is_second_of_three c d && is_continuation e
    then ((c - 224) * 4096 + (d - 128) * 64 + (e - 128), 2)
    else rune_error
three_bytes c _ = rune_error

four_bytes : ℕ → Bytes → ℕ × ℕ
four_bytes c (d ∷ e ∷ f ∷ rest) =
    if is_second_of_four c d && is_continuation e && is_continuation f
    then ((c - 240) * 262144 + (d - 128) * 4096 + (e - 128) * 64 + (f - 128), 3)
    else rune_error
four_bytes c _ = rune_error

-- The rune that a byte opens, and how many of the bytes behind it belong to it.
decode_rune : ℕ → Bytes → ℕ × ℕ
unfolding two_bytes three_bytes four_bytes
decode_rune c rest =
    if ltb c 128
    then (c, 0)
    else if between 194 223 c
    then two_bytes c rest
    else if between 224 239 c
    then three_bytes c rest
    else if between 240 244 c
    then four_bytes c rest
    else rune_error

-- The first argument counts the bytes that belong to the rune before.
runes_from : ℕ → Bytes → List ℕ
unfolding decode_rune
runes_from n [] = []
runes_from (suc n) (c ∷ cs) = runes_from n cs
runes_from zero (c ∷ cs) = let (r, more) = decode_rune c cs in r ∷ runes_from more cs

unfoldable pub runes : Bytes → List ℕ
unfolding runes_from
runes = runes_from 0

-- The rune that stands for the case variants of one, by `unicode.SimpleFold`: a letter of ASCII, to
-- which the long s and the Kelvin sign belong. A rune beyond these stands for itself alone.
unfoldable pub fold_rune : ℕ → ℕ
unfolding lower_byte
fold_rune r = if r == 383 then b's' else if r == 8490 then b'k' else lower_byte r
