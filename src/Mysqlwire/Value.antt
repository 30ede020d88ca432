-- ===== src/Mysqlwire/Value.antt =====
-- internal/mysqlwire/query.go: the value of one cell of a result. What JSON decodes to is
-- `Pgwire.Query.Result.Value`: numbers are texts, since the client decodes with `UseNumber`.
use redash_wire.Common.{
  ℕ, suc, Bool, false, not, ◌||◌, Option, none, some, [], ◌∷◌, ◌==◌, ltb, if◌then◌else◌,
}
use redash_wire.Common.Numerals.{ℤ, pos, is_zero_int, parse_int64}
use redash_wire.Common.Text.{
  Bytes, codes, equal, one_of, to_lower, is_digit, trim_last, replace_first,
}
use redash_wire.Pgwire.Query.Result.{
  Value, bool_value, number_value, text_value, json_value, sprint,
}
use redash_wire.Mysqlwire.{Cell, int_cell, float_cell, text_cell}

-- Floating-point numbers of the language, each by its shortest text: what `strconv.ParseFloat` makes of
-- a text, none where it fails, and whether a number is 0.
pub record Floats : Type 0 where
  pub parse_float : Bytes → Option Bytes
  pub is_zero : Bytes → Bool

pub data ColKind : Type 0 where
  kind_string kind_int kind_float kind_bool : ColKind

unfoldable pub as_int64 : Value → Option ℤ
unfolding parse_int64
as_int64 (number_value s) = parse_int64 s
as_int64 _ = none

abbrev is_exponent : ℕ → Bool
is_exponent c = c == b'e' || c == b'E'

unfoldable pub significant_digits : Bytes → ℕ
significant_digits [] = 0
significant_digits (c ∷ cs) =
    let count = if is_digit c then suc (significant_digits cs) else significant_digits cs in
    if is_exponent c then 0 else count

unfoldable pub as_exact_float64 : Floats → Value → Option Bytes
unfolding significant_digits
as_exact_float64 floats (number_value s) =
    if ltb 15 (significant_digits s) then none else floats.parse_float s
as_exact_float64 floats _ = none

-- `err == nil && i != 0` of a parsed integer and of a parsed float.
abbrev non_zero_int : Option ℤ → Bool
non_zero_int none = false
non_zero_int (some i) = not (is_zero_int i)

abbrev non_zero_float : Floats → Option Bytes → Bool
non_zero_float floats none = false
non_zero_float floats (some f) = not (floats.is_zero f)

abbrev bit : Bool → ℤ
bit b = if b then pos 1 else pos 0

unfoldable pub bool_to01 : Floats → Value → ℤ
unfolding equal to_lower parse_int64
bool_to01 floats (bool_value b) = bit b
bool_to01 floats (number_value s) =
    bit (non_zero_int (parse_int64 s) || non_zero_float floats (floats.parse_float s))
bool_to01 floats (text_value s) =
    bit (one_of (codes "true" ∷ codes "1" ∷ codes "t" ∷ []) (to_lower s))
bool_to01 floats _ = pos 0

unfoldable pub stringify_value : Value → Bytes → Bytes
unfolding equal sprint trim_last replace_first
stringify_value (number_value s) redash_type = s
stringify_value v redash_type =
    if equal redash_type (codes "datetime")
    then trim_last b'Z' (replace_first b'T' b' ' (sprint v))
    else sprint v

-- A number that a parse found, or the value's text.
abbrev pub or_text : Option Cell → Value → Bytes → Cell
or_text none v redash_type = text_cell (stringify_value v redash_type)
or_text (some c) v redash_type = c

abbrev pub int_found : Option ℤ → Option Cell
int_found none = none
int_found (some n) = some (int_cell n)

abbrev pub float_found : Option Bytes → Option Cell
float_found none = none
float_found (some f) = some (float_cell f)

-- `convertValue` of a value that is not nested.
unfoldable pub convert_plain : Floats → Value → Bytes → ColKind → Cell
unfolding bool_to01 as_int64 as_exact_float64 stringify_value
convert_plain floats v t kind_bool = int_cell (bool_to01 floats v)
convert_plain floats v t kind_int = or_text (int_found (as_int64 v)) v t
convert_plain floats v t kind_float = or_text (float_found (as_exact_float64 floats v)) v t
convert_plain floats v t kind_string = text_cell (stringify_value v t)

-- `convertValue`; a null is left out of it by the caller.
unfoldable pub convert_value : Floats → Value → Bytes → ColKind → Cell
unfolding convert_plain
convert_value floats (json_value s) t kind = text_cell s
convert_value floats v t kind = convert_plain floats v t kind
