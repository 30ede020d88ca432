-- ===== src/Common/Numerals.antt =====
-- Go's `strconv.ParseUint` in base 10.
use Prim.Native.Nat.{ℕ, zero, suc, ◌+◌, ◌-◌, ◌*◌, ◌/◌, ◌%◌, ◌<◌, ◌^◌}
use mathlib.Core.Path.{◌≡◌, refl, sym, ap, ◌∙◌}
use mathlib.Core.Logic.{inl, inr}
use mathlib.Core.Bool.{Bool, false}
use mathlib.Core.List.{[], ◌∷◌, ◌++◌}
use mathlib.Core.Option.{Option, none, some}
use native.Mathlib.Omega.{arith}
use redash_wire.Common.Tests.{leb, ltb, ◌==◌, if◌then◌else◌, Bool-cases}
use redash_wire.Common.Text.{Bytes, is_digit, digits, decimal}

-- The value of a digit behind a value.
next_digit : Option ℕ → ℕ → Option ℕ
next_digit none c = none
next_digit (some v) c = if is_digit c then some (v * 10 + (c - b'0')) else none

digits_value : Option ℕ → Bytes → Option ℕ
unfolding next_digit
digits_value v [] = v
digits_value v (c ∷ cs) = digits_value (next_digit v c) cs

-- A number that does not fit is an error, as are no digits.
fitting : ℕ → Option ℕ → Option ℕ
fitting bits none = none
fitting bits (some v) = if ltb v (2 ^ bits) then some v else none

unfoldable pub parse_uint : Bytes → ℕ → Option ℕ
unfolding fitting digits_value
parse_uint [] bits = none
parse_uint (c ∷ cs) bits = fitting bits (digits_value (some 0) (c ∷ cs))

fits : (bits n : ℕ) → n < 2 ^ bits → fitting bits (some n) ≡ some n
unfolding fitting
fits bits n h = ground arith

fitting_fits : (bits : ℕ) (v : Option ℕ) (n : ℕ) → fitting bits v ≡ some n → n < 2 ^ bits
unfolding fitting
fitting_fits bits none n h = absurd cc
fitting_fits bits (some v) n h = elim (Bool-cases (ltb v (2 ^ bits))) [
  | inl l ↦ ground arith
  | inr g ↦ ground arith
]

-- What is read fits.
pub parse_uint_fits : (s : Bytes) (bits n : ℕ) → parse_uint s bits ≡ some n → n < 2 ^ bits
unfolding parse_uint
parse_uint_fits [] bits n h = absurd cc
parse_uint_fits (c ∷ cs) bits n h = fitting_fits bits (digits_value (some 0) (c ∷ cs)) n h

-- `negsuc n` is -(n + 1).
pub data ℤ : Type 0 where
  pos : ℕ → ℤ
  negsuc : ℕ → ℤ

abbrev pub negate : ℕ → ℤ
negate zero = pos 0
negate (suc n) = negsuc n

abbrev pub positive : Option ℕ → Option ℤ
positive none = none
positive (some n) = some (pos n)

-- -2^63 is an int64.
abbrev pub negative : Option ℕ → Option ℤ
negative none = none
negative (some n) = if ltb (2 ^ 63) n then none else some (negate n)

abbrev pub increment : ℤ → ℤ
increment (pos n) = pos (n + 1)
increment (negsuc zero) = pos 0
increment (negsuc (suc n)) = negsuc n

abbrev pub decrement : ℤ → ℤ
decrement (pos zero) = negsuc 0
decrement (pos (suc n)) = pos n
decrement (negsuc n) = negsuc (n + 1)

abbrev pub is_zero_int : ℤ → Bool
is_zero_int (pos n) = n == 0
is_zero_int (negsuc n) = false

-- `strconv.ParseInt(s, 10, 64)`
unfoldable pub parse_int64 : Bytes → Option ℤ
unfolding parse_uint
parse_int64 [] = none
parse_int64 (c ∷ cs) =
    if c == b'-'
    then negative (parse_uint cs 64)
    else if c == b'+'
    then positive (parse_uint cs 63)
    else positive (parse_uint (c ∷ cs) 63)

digits_value-append :
    (v : Option ℕ) (s : Bytes) (c : ℕ)
    → digits_value v (s ++ (c ∷ [])) ≡ next_digit (digits_value v s) c
unfolding digits_value
digits_value-append v [] c = refl
digits_value-append v (d ∷ s) c = digits_value-append (next_digit v d) s c

next_digit-digit : (v d : ℕ) → d < 10 → next_digit (some v) (b'0' + d) ≡ some (v * 10 + d)
unfolding next_digit
next_digit-digit v d h = ground arith

digits_value-digits : (fuel n : ℕ) → n < fuel → digits_value (some 0) (digits fuel n) ≡ some n
unfolding digits digits_value
digits_value-digits zero n h = absurd (omega arith)
digits_value-digits (suc fuel) n h = elim (Bool-cases (leb n 9)) [
  | inl s ↦
      let small : n < 10 = ground arith in
      rw (s, digits)
        (digits_value-append (some 0) [] (b'0' + n)
          ∙ next_digit-digit 0 n small
          ∙ ap some (omega arith))
  | inr l ↦
      let big : 9 < n = ground arith in
      let less : n / 10 < fuel = omega arith in
      let last : n % 10 < 10 = omega arith in
      rw (l, digits)
        (digits_value-append (some 0) (digits fuel (n / 10)) (b'0' + n % 10)
          ∙ ap (λ v. next_digit v (b'0' + n % 10)) (digits_value-digits fuel (n / 10) less)
          ∙ next_digit-digit (n / 10) (n % 10) last
          ∙ ap some (omega arith))
]

-- There is a last digit.
ends_digits : (fuel n : ℕ) → (s : Bytes) × (c : ℕ) × (digits (suc fuel) n ≡ s ++ (c ∷ []))
unfolding digits
ends_digits fuel n = elim (Bool-cases (leb n 9)) [
  | inl s ↦ ([], b'0' + n, rw (s, digits) refl)
  | inr l ↦ (digits fuel (n / 10), b'0' + n % 10, rw (l, digits) refl)
]

parse_uint-append :
    (s : Bytes) (c bits : ℕ)
    → parse_uint (s ++ (c ∷ [])) bits ≡ fitting bits (digits_value (some 0) (s ++ (c ∷ [])))
unfolding parse_uint
parse_uint-append [] c bits = refl
parse_uint-append (d ∷ s) c bits = refl

-- A number that fits is read back from its decimal form.
pub parse_uint-decimal : (bits n : ℕ) → n < 2 ^ bits → parse_uint (decimal n) bits ≡ some n
unfolding decimal
parse_uint-decimal bits n h =
    let (s, c, e) = ends_digits n n in
    ap (λ t. parse_uint t bits) e
    ∙ parse_uint-append s c bits
    ∙ ap (λ t. fitting bits (digits_value (some 0) t)) (sym e)
    ∙ ap (fitting bits) (digits_value-digits (suc n) n (omega arith))
    ∙ fits bits n h
