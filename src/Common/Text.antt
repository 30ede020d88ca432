-- ===== src/Common/Text.antt =====
-- Go's strings as byte sequences, with the functions of the package `strings` that the code calls.
-- Bytes of 0x80 and above have no case and are no white space here, as in ASCII text.
use Prim.Native.Char.{code}
use Prim.Native.String.{String}
use Prim.Native.Nat.{ℕ, zero, suc, ◌+◌, ◌-◌, ◌/◌, ◌%◌}
use mathlib.Core.Path.{◌≡◌, refl}
use mathlib.Core.Logic.{◌↔◌}
use mathlib.Core.Bool.{Bool, true, false, ◌&&◌, ◌||◌}
use mathlib.Core.List.{List, [], ◌∷◌, ◌++◌, map}
use mathlib.Core.Option
use mathlib.Core.Option.{Option, none, some}
use native.Mathlib.Omega.{arith}
use redash_wire.Common.Tests.{leb, ltb, ◌==◌, if◌then◌else◌}
use redash_wire.Common.Lists.{any}

abbrev pub Bytes : Type 0
Bytes = List ℕ

-- The bytes of an ASCII literal.
abbrev pub codes : String → Bytes
codes String.[] = []
codes (String.◌∷◌ c s) = code c ∷ codes s

-- `s == t` on strings.
unfoldable pub equal : Bytes → Bytes → Bool
equal [] [] = true
equal [] (e ∷ t) = false
equal (c ∷ s) [] = false
equal (c ∷ s) (e ∷ t) = if c == e then equal s t else false

pub equal_iff : (s t : Bytes) → (equal s t ≡ true) ↔ (s ≡ t)
unfolding equal
equal_iff [] [] = (λ _. refl, λ _. refl)
equal_iff [] (e ∷ t) = (λ h. cc, λ h. cc)
equal_iff (c ∷ s) [] = (λ h. cc, λ h. cc)
equal_iff (c ∷ s) (e ∷ t) = grind (arith, equal_iff s t)

pub equal_refl : (a : Bytes) → equal a a ≡ true
equal_refl a = (equal_iff a a).1 refl

-- A membership test in a list of words.
abbrev pub one_of : List Bytes → Bytes → Bool
one_of ws w = any (λ x. equal x w) ws

abbrev pub is_upper : ℕ → Bool
is_upper c = leb b'A' c && leb c b'Z'

abbrev pub is_lower : ℕ → Bool
is_lower c = leb b'a' c && leb c b'z'

abbrev pub is_digit : ℕ → Bool
is_digit c = leb b'0' c && leb c b'9'

unfoldable pub lower_byte : ℕ → ℕ
lower_byte c = if is_upper c then c + 32 else c

unfoldable pub upper_byte : ℕ → ℕ
upper_byte c = if is_lower c then c - 32 else c

-- `strings.ToLower`, `strings.ToUpper`
unfoldable pub to_lower : Bytes → Bytes
unfolding lower_byte
to_lower = map lower_byte

unfoldable pub to_upper : Bytes → Bytes
unfolding upper_byte
to_upper = map upper_byte

-- `strings.EqualFold`
unfoldable pub equal_fold : Bytes → Bytes → Bool
unfolding equal to_lower
equal_fold a b = equal (to_lower a) (to_lower b)

-- `strings.HasPrefix`, the prefix second as in Go.
unfoldable pub has_prefix : Bytes → Bytes → Bool
has_prefix s [] = true
has_prefix [] (p ∷ ps) = false
has_prefix (c ∷ s) (p ∷ ps) = c == p && has_prefix s ps

-- `strings.Index`: the place of the first occurrence.
unfoldable pub index : Bytes → Bytes → Option ℕ
index [] p = if has_prefix [] p then some 0 else none
index (c ∷ s) p = if has_prefix (c ∷ s) p then some 0 else Option.map suc (index s p)

-- `strings.Contains`
unfoldable pub contains : Bytes → Bytes → Bool
unfolding index has_prefix
contains s p = elim (index s p) [ none ↦ false | some _ ↦ true ]

-- ' ', \t, \n, \v, \f and \r: the white space of `strings.TrimSpace` and `strings.Fields`.
abbrev pub is_white : ℕ → Bool
is_white c = c == b' ' || (leb 9 c && leb c 13)

unfoldable pub trim_left : (ℕ → Bool) → Bytes → Bytes
trim_left p [] = []
trim_left p (c ∷ cs) = if p c then trim_left p cs else c ∷ cs

-- A byte of the cutset goes if all behind it has gone.
unfoldable pub trim_right : (ℕ → Bool) → Bytes → Bytes
trim_right p [] = []
trim_right p (c ∷ cs) = elim (trim_right p cs) [
  | [] ↦ if p c then [] else c ∷ []
  | x ∷ xs ↦ c ∷ x ∷ xs
]

-- `strings.TrimSpace`
unfoldable pub trim_space : Bytes → Bytes
unfolding trim_left trim_right
trim_space s = trim_right is_white (trim_left is_white s)

-- Adds a byte to the word that is being read.
abbrev push_word : ℕ → List Bytes → List Bytes
push_word c [] = (c ∷ []) ∷ []
push_word c (w ∷ ws) = (c ∷ w) ∷ ws

-- `strings.Fields`, from the right: the flag says that the first word still grows.
fields_onto : Bytes → Bool × List Bytes
fields_onto [] = (false, [])
fields_onto (c ∷ cs) =
    let (grows, ws) = fields_onto cs in
    if is_white c then (false, ws) else (true, if grows then push_word c ws else (c ∷ []) ∷ ws)

unfoldable pub fields : Bytes → List Bytes
unfolding fields_onto
fields s = (fields_onto s).1

-- The digits of a number, at most as many as the fuel.
unfoldable pub digits : ℕ → ℕ → Bytes
digits zero n = []
digits (suc fuel) n = elim (leb n 9) [
  | true ↦ (b'0' + n) ∷ []
  | false ↦ digits fuel (n / 10) ++ ((b'0' + n % 10) ∷ [])
]

-- `strconv.Itoa`; a number has no more digits than one more than itself.
unfoldable pub decimal : ℕ → Bytes
unfolding digits
decimal n = digits (suc n) n

-- `strings.ReplaceAll` of one byte by another.
unfoldable pub replace_byte : ℕ → ℕ → Bytes → Bytes
replace_byte c d [] = []
replace_byte c d (b ∷ bs) = (if b == c then d else b) ∷ replace_byte c d bs

-- `strings.TrimSuffix(s, b)` for one byte.
unfoldable pub trim_last : ℕ → Bytes → Bytes
trim_last b [] = []
trim_last b (c ∷ []) = if c == b then [] else c ∷ []
trim_last b (c ∷ d ∷ cs) = c ∷ trim_last b (d ∷ cs)

-- `strings.Replace(s, b, d, 1)` for two bytes.
unfoldable pub replace_first : ℕ → ℕ → Bytes → Bytes
replace_first b d [] = []
replace_first b d (c ∷ cs) = if c == b then d ∷ cs else c ∷ replace_first b d cs

-- `s < t` on strings.
unfoldable pub less : Bytes → Bytes → Bool
less s [] = false
less [] (d ∷ t) = true
less (c ∷ s) (d ∷ t) = if c == d then less s t else ltb c d
