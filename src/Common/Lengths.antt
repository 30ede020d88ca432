-- ===== src/Common/Lengths.antt =====
-- Cutting a text makes it no longer.
use redash_wire.Common.{
  ℕ, zero, suc, ◌-◌, ◌≤◌, ◌<◌, ◌≡◌, All, Option, Bool, List, [], ◌∷◌, length, take, drop,
  length-drop, arith, Bool-cases, inl, inr,
}
use redash_wire.Common.Text.{Bytes, trim_left, trim_right, trim_space, trim_last, is_white}
use redash_wire.Common.Regex.{slice, part, span, Groups}

pub length-take {ℓ} : {A : Type ℓ} (n : ℕ) (xs : List A) → length (take n xs) ≤ length xs
length-take zero xs = omega arith
length-take (suc n) [] = omega arith
length-take (suc n) (x ∷ xs) = omega (arith, length-take n xs)

pub length-slice : (a b : ℕ) (s : Bytes) → length (slice a b s) ≤ length s - a
length-slice a b s = omega (arith, length-take (b - a) (drop a s), length-drop a s)

pub length-part : (s : Bytes) (n : ℕ) (g : Groups) → length (part s n g) ≤ length s
unfolding part
length-part s n g = omega (arith, length-slice (span n g).0 (span n g).1 s)

length-trim_left : (p : ℕ → Bool) (s : Bytes) → length (trim_left p s) ≤ length s
unfolding trim_left
length-trim_left p [] = omega arith
length-trim_left p (c ∷ cs) = elim (Bool-cases (p c)) [
  | inl h ↦ rw h (omega (arith, length-trim_left p cs))
  | inr h ↦ rw h (omega arith)
]

length-trim_right : (p : ℕ → Bool) (s : Bytes) → length (trim_right p s) ≤ length s
unfolding trim_right
length-trim_right p [] = omega arith
length-trim_right p (c ∷ cs) = ground (arith, length-trim_right p cs)

pub length-trim_space : (s : Bytes) → length (trim_space s) ≤ length s
unfolding trim_space
length-trim_space s =
    omega (arith, length-trim_right is_white (trim_left is_white s), length-trim_left is_white s)

pub length-trim_last : (b : ℕ) (s : Bytes) → length (trim_last b s) ≤ length s
unfolding trim_last
length-trim_last b [] = omega arith
length-trim_last b (c ∷ []) = ground arith
length-trim_last b (c ∷ d ∷ cs) = omega (arith, length-trim_last b (d ∷ cs))

-- A function of the text of an expression.
abbrev pub Value : Type 0
Value = Bytes → Option Bytes

-- Two functions agree on the texts shorter than a bound.
abbrev pub Agree {ℓ} : {A : Type ℓ} → ℕ → (Bytes → A) → (Bytes → A) → Type ℓ
Agree k f g = (t : Bytes) → length t < k → f t ≡ g t

pub All-below :
    (n k : ℕ) (ps : List Bytes) → n < k → All (λ p. length p ≤ n) ps → All (λ p. length p < k) ps
All-below n k [] h a = tt
All-below n k (p ∷ ps) h a = (let b = a.0 in omega arith, All-below n k ps h a.1)
