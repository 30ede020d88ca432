-- ===== src/Sqltext/Verb/Fuel.antt =====
-- internal/sqltext/sqltext.go: the loops of `WriteVerb` over EXPLAIN and its options.
use redash_wire.Common.{
  ℕ, zero, suc, ◌+◌, ◌≤◌, ◌<◌, Bool, true, false, some, [], ◌∷◌, length, take, drop, ◌≡◌, refl, ap,
  inl, inr, Bool-cases, Option-cases, arith, if◌then◌else◌, length-drop,
}
use redash_wire.Common.Text.{Bytes, codes, equal, equal_iff, trim_left, index}
use redash_wire.Sqltext.Mask.{ident_len}
use redash_wire.Sqltext.Token.{is_gap}
use redash_wire.Sqltext.Verb.{
  skip_lead, lead_word, is_explain_option, explain_round, strip_options, strip_explain_options,
  strip_explain,
}

length-skip_lead : (s : Bytes) → length (skip_lead s) ≤ length s
unfolding skip_lead
length-skip_lead [] = omega arith
length-skip_lead (c ∷ cs) = ground (arith, length-skip_lead cs)

length-trim_left : (p : ℕ → Bool) (s : Bytes) → length (trim_left p s) ≤ length s
unfolding trim_left
length-trim_left p [] = omega arith
length-trim_left p (c ∷ cs) = ground (arith, length-trim_left p cs)

length-take-pos : (n : ℕ) (s : Bytes) → length (take n s) + length (drop n s) ≡ length s
length-take-pos zero s = omega arith
length-take-pos (suc n) [] = omega arith
length-take-pos (suc n) (c ∷ s) = omega (arith, length-take-pos n s)

-- `leadWord` gives a part of the text, and a shorter rest if there is a word.
length-lead_word : (s : Bytes) → length (lead_word s).0 + length (lead_word s).1 ≤ length s
unfolding lead_word
length-lead_word s =
    omega (arith, length-skip_lead s, length-take-pos (ident_len (skip_lead s)) (skip_lead s))

is_explain_option_nil : is_explain_option [] ≡ false
unfolding is_explain_option
is_explain_option_nil = refl

length_pos : (w : Bytes) → is_explain_option w ≡ true → 0 < length w
length_pos [] h = cc (is_explain_option_nil)
length_pos (c ∷ w) h = omega arith

explain_length :
    (body : Bytes)
    → equal (lead_word body).0 (codes "explain") ≡ true
    → length (lead_word body).0 ≡ 7
explain_length body e = ap length ((equal_iff _ _).0 e)

length-explain_round : (t next : Bytes) → explain_round t ≡ some next → length next < length t
unfolding explain_round
length-explain_round [] next e = cc
length-explain_round (c ∷ cs) next e =
    let (word, after) = lead_word (c ∷ cs) in
    elim (Option-cases (index (c ∷ cs) (b')' ∷ []))) [
      | inl i ↦ ground (arith, length-lead_word (c ∷ cs), length_pos word)
      | inr (n, i) ↦ ground (arith, length-drop n cs, length-lead_word (c ∷ cs), length_pos word)
    ]

-- More fuel than bytes: the loop over the options ends by itself, and its result is settled.
pub strip_options_settled :
    (fuel more : ℕ) (rest : Bytes)
    → length rest < fuel
    → length rest < more
    → strip_options fuel rest ≡ strip_options more rest
unfolding strip_options
strip_options_settled zero more rest h k = absurd (omega arith)
strip_options_settled (suc f) zero rest h k = absurd (omega arith)
strip_options_settled (suc f) (suc g) rest h k =
    let t = trim_left is_gap rest in
    elim (Option-cases (explain_round t)) [
      | inl e ↦ rw (e, strip_options)
      | inr (next, e) ↦
          let shorter : length next < length rest =
            omega (arith, length-explain_round t next e, length-trim_left is_gap rest) in
          rw (e, strip_options) (strip_options_settled f g next (omega arith) (omega arith))
    ]

length-strip_options : (fuel : ℕ) (rest : Bytes) → length (strip_options fuel rest) ≤ length rest
unfolding strip_options
length-strip_options zero rest = omega arith
length-strip_options (suc f) rest =
    let t = trim_left is_gap rest in
    elim (Option-cases (explain_round t)) [
      | inl e ↦ rw (e, strip_options) (length-trim_left is_gap rest)
      | inr (next, e) ↦
          rw (e, strip_options)
            (omega (
              arith,
              length-strip_options f next,
              length-explain_round t next e,
              length-trim_left is_gap rest,
            ))
    ]

pub length-strip_explain_options :
    (rest : Bytes) → length (strip_explain_options rest) ≤ length rest
unfolding strip_explain_options
length-strip_explain_options rest = length-strip_options (suc (length rest)) rest

pub strip_explain_step :
    (f : ℕ) (explained : Bool) (body : Bytes)
    → strip_explain (suc f) explained body ≡ (
        if equal (lead_word body).0 (codes "explain")
        then strip_explain f true (strip_explain_options (lead_word body).1)
        else (explained, body))
unfolding strip_explain
strip_explain_step f explained body = refl

-- The loop over EXPLAIN leaves a statement that does not open with EXPLAIN: nothing hides behind a
-- nested EXPLAIN.
pub strip_explain-not_explain :
    (fuel : ℕ) (explained : Bool) (body : Bytes)
    → length body < fuel
    → equal (lead_word (strip_explain fuel explained body).1).0 (codes "explain") ≡ false
strip_explain-not_explain zero explained body h = absurd (omega arith)
strip_explain-not_explain (suc f) explained body h =
    rw (strip_explain_step f explained body)
      (elim (Bool-cases (equal (lead_word body).0 (codes "explain"))) [
        | inl e ↦ rw e (
            strip_explain-not_explain f true (strip_explain_options (lead_word body).1) (
              omega (
                arith,
                length-strip_explain_options (lead_word body).1,
                length-lead_word body,
                explain_length body e,
              )))
        | inr e ↦ rw e e
      ])
