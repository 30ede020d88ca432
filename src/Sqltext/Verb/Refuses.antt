-- ===== src/Sqltext/Verb/Refuses.antt =====
-- internal/sqltext/sqltext.go: `WriteVerb` on the first word of a statement.
use mathlib.Core.List.{map-append}
use redash_wire.Common.{
  ℕ, suc, Bool, true, false, [], ◌∷◌, ◌++◌, length, ◌≡◌, refl, sym, ap, ◌∙◌, arith, if◌then◌else◌,
  All,
}
use redash_wire.Common.Text.{
  Bytes, codes, equal, lower_byte, to_lower, to_upper, trim_space, trim_left, trim_right, is_white,
}
use redash_wire.Sqltext.Mask.{Dialect, ident_len, is_ident_byte, region_len, passed_len}
use redash_wire.Sqltext.Redact.{redact, redact_byte}
use redash_wire.Sqltext.Redact.Stable.{redact_from, redact_lem}
use redash_wire.Sqltext.Token.Word.{begins_ident, take-append, drop-append}
use redash_wire.Sqltext.Verb.Fuel.{strip_explain_step}
use redash_wire.Sqltext.Verb.{
  skip_lead, lead_word, is_read_lead, verb_of, verb_from, verb_body, write_verb, is_trailer,
}

abbrev pub IsIdent : Bytes → Type 0
IsIdent w = All (λ c. is_ident_byte c ≡ true) w

region_len_ident :
    (d : Dialect) (before : Bytes) (c : ℕ) (cs : Bytes)
    → is_ident_byte c ≡ true
    → region_len d true before c cs ≡ 0
unfolding region_len is_ident_byte
region_len_ident d before c cs h = ground arith

-- The bytes of a word are code, wherever the scan of code has come.
redact_from_ident :
    (d : Dialect) (w before rest : Bytes)
    → IsIdent w
    → (before' : Bytes) × (redact_from d 0 before (w ++ rest) ≡ w ++ redact_from d 0 before' rest)
unfolding redact_from passed_len redact_byte
redact_from_ident d [] before rest h = (before, refl)
redact_from_ident d (c ∷ w) before rest h =
    let (b, e) = redact_from_ident d w (c ∷ before) rest h.1 in
    (b, rw (region_len_ident d before c (w ++ rest) h.0) (ap (◌∷◌ c) e))

-- The text does not go on with the word.
abbrev Ends : Bytes → Type 0
Ends r = begins_ident r ≡ false

redact_from-Ends :
    (d : Dialect) (skip : ℕ) (before r : Bytes) → Ends r → Ends (redact_from d skip before r)
unfolding redact_from begins_ident redact_byte is_ident_byte
redact_from-Ends d skip before [] h = h
redact_from-Ends d skip before (c ∷ r) h = ground arith

trim_right_keep :
    (p : ℕ → Bool) (c : ℕ) (x : Bytes) → p c ≡ false → trim_right p (c ∷ x) ≡ c ∷ trim_right p x
unfolding trim_right
trim_right_keep p c x h = go (trim_right p x)
  where
    go :
        (t : Bytes)
        → (elim t as (λ _. Bytes) [ [] ↦ if p c then [] else c ∷ [] | y ∷ ys ↦ c ∷ y ∷ ys ]) ≡ c ∷ t
    go [] = rw h
    go (y ∷ ys) = refl

trim_right-append :
    (p : ℕ → Bool) (w r : Bytes)
    → All (λ c. p c ≡ false) w
    → trim_right p (w ++ r) ≡ w ++ trim_right p r
trim_right-append p [] r h = refl
trim_right-append p (c ∷ w) r h =
    trim_right_keep p c (w ++ r) h.0 ∙ ap (◌∷◌ c) (trim_right-append p w r h.1)

trim_right-Ends : (p : ℕ → Bool) (r : Bytes) → Ends r → Ends (trim_right p r)
unfolding trim_right begins_ident
trim_right-Ends p [] h = refl
trim_right-Ends p (c ∷ r) h = go (trim_right p r)
  where
    go :
        (t : Bytes)
        → Ends (elim t as (λ _. Bytes) [ [] ↦ if p c then [] else c ∷ [] | y ∷ ys ↦ c ∷ y ∷ ys ])
    go [] = ground arith
    go (y ∷ ys) = h

to_lower-Ends : (r : Bytes) → Ends r → Ends (to_lower r)
unfolding to_lower begins_ident is_ident_byte
to_lower-Ends [] h = refl
to_lower-Ends (c ∷ r) h = ground arith

-- A byte of a word is neither white nor a trailer, before and after `ToLower`.
record IsPlain (c : ℕ) : Type 0 where
  white : is_white c ≡ false
  low_ident : is_ident_byte (lower_byte c) ≡ true
  low_trailer : is_trailer (lower_byte c) ≡ false

is_plain : (c : ℕ) → is_ident_byte c ≡ true → IsPlain c
unfolding is_ident_byte lower_byte
is_plain c h = ground arith

All-white : (w : Bytes) → IsIdent w → All (λ c. is_white c ≡ false) w
All-white [] h = tt
All-white (c ∷ w) h = ((is_plain c h.0).white, All-white w h.1)

All-trailer : (w : Bytes) → IsIdent w → All (λ c. is_trailer c ≡ false) (to_lower w)
unfolding to_lower
All-trailer [] h = tt
All-trailer (c ∷ w) h = ((is_plain c h.0).low_trailer, All-trailer w h.1)

to_lower-IsIdent : (w : Bytes) → IsIdent w → IsIdent (to_lower w)
unfolding to_lower
to_lower-IsIdent [] h = tt
to_lower-IsIdent (c ∷ w) h = ((is_plain c h.0).low_ident, to_lower-IsIdent w h.1)

to_lower-append : (a b : Bytes) → to_lower (a ++ b) ≡ to_lower a ++ to_lower b
unfolding to_lower
to_lower-append a b = map-append _ a b

trim_left_word :
    (c : ℕ) (w r : Bytes) → is_white c ≡ false → trim_left is_white (c ∷ w ++ r) ≡ c ∷ w ++ r
unfolding trim_left
trim_left_word c w r h = rw h

trim_space_word :
    (c : ℕ) (w r : Bytes)
    → IsIdent (c ∷ w)
    → trim_space (c ∷ (w ++ r)) ≡ c ∷ (w ++ trim_right is_white r)
unfolding trim_space
trim_space_word c w r h =
    ap (trim_right is_white) (trim_left_word c w r (is_plain c h.0).white)
    ∙ trim_right-append is_white (c ∷ w) r (All-white (c ∷ w) h)

ident_len-append : (w r : Bytes) → IsIdent w → Ends r → ident_len (w ++ r) ≡ length w
unfolding ident_len begins_ident
ident_len-append [] [] h e = refl
ident_len-append [] (c ∷ r) h e = rw e
ident_len-append (c ∷ w) r h e = rw (h.0) (ap suc (ident_len-append w r h.1 e))

skip_lead_word : (c : ℕ) (x : Bytes) → is_ident_byte c ≡ true → skip_lead (c ∷ x) ≡ c ∷ x
unfolding skip_lead is_ident_byte
skip_lead_word c x h = ground arith

-- The first word of a text that opens with one.
pub lead_word-append :
    (c : ℕ) (w r : Bytes) → IsIdent (c ∷ w) → Ends r → lead_word (c ∷ (w ++ r)) ≡ (c ∷ w, r)
unfolding lead_word
lead_word-append c w r h e = rw (
  skip_lead_word c (w ++ r) h.0,
  ident_len-append (c ∷ w) r h e,
  take-append (c ∷ w) r,
  drop-append (c ∷ w) r,
)

verb_body_lem :
    (d : Dialect) (sql : Bytes)
    → verb_body d sql ≡ trim_right is_trailer (to_lower (trim_space (redact d sql)))
unfolding verb_body
verb_body_lem d sql = refl

record WordBody (d : Dialect) (c : ℕ) (w rest : Bytes) : Type 0 where
  tail : Bytes
  ends : Ends tail
  body : verb_body d (c ∷ (w ++ rest)) ≡ to_lower (c ∷ w) ++ tail

-- What `WriteVerb` judges still opens with the word, in lower case.
opens_with_word :
    (d : Dialect) (c : ℕ) (w rest : Bytes) → IsIdent (c ∷ w) → Ends rest → WordBody d c w rest
opens_with_word d c w rest h e =
    let (b, red) = redact_from_ident d (c ∷ w) [] rest h in
    let r = trim_right is_white (redact_from d 0 b rest) in
    record {
      tail = trim_right is_trailer (to_lower r);
      ends =
          trim_right-Ends is_trailer (to_lower r)
            (to_lower-Ends r (trim_right-Ends is_white _ (redact_from-Ends d 0 b rest e)));
      body =
          verb_body_lem d (c ∷ (w ++ rest))
          ∙ ap (λ s. trim_right is_trailer (to_lower (trim_space s)))
              (redact_lem d (c ∷ (w ++ rest)) ∙ red)
          ∙ ap (λ s. trim_right is_trailer (to_lower s))
              (trim_space_word c w (redact_from d 0 b rest) h)
          ∙ ap (trim_right is_trailer) (to_lower-append (c ∷ w) r)
          ∙ trim_right-append is_trailer (to_lower (c ∷ w)) (to_lower r) (All-trailer (c ∷ w) h);
    }

verb_of_other :
    (d : Dialect) (c : ℕ) (w body : Bytes)
    → is_read_lead (c ∷ w) ≡ false
    → verb_of d false (c ∷ w) body ≡ to_upper (c ∷ w)
unfolding verb_of equal
verb_of_other d c w body k = rw k

-- A word that is neither a read nor EXPLAIN is its own verb.
verb_word :
    (d : Dialect) (c : ℕ) (w r : Bytes)
    → IsIdent (c ∷ w)
    → Ends r
    → is_read_lead (c ∷ w) ≡ false
    → equal (c ∷ w) (codes "explain") ≡ false
    → verb_from d (c ∷ (w ++ r)) ≡ to_upper (c ∷ w)
unfolding verb_from
verb_word d c w r h e k x =
    rw
      (
        strip_explain_step (suc (length (w ++ r))) false (c ∷ (w ++ r)),
        lead_word-append c w r h e,
        x,
        lead_word-append c w r h e,
      )
      (verb_of_other d c w (c ∷ (w ++ r)) k)

to_lower_cons : (c : ℕ) (w : Bytes) → to_lower (c ∷ w) ≡ lower_byte c ∷ to_lower w
unfolding to_lower
to_lower_cons c w = refl

write_verb_lem : (d : Dialect) (sql : Bytes) → write_verb d sql ≡ verb_from d (verb_body d sql)
unfolding write_verb
write_verb_lem d sql = refl

-- A text that opens with a word, in any case, other than the seven reads and EXPLAIN is refused with
-- that word as its verb, whatever follows it.
pub write_verb_word :
    (d : Dialect) (c : ℕ) (w rest : Bytes)
    → All (λ b. is_ident_byte b ≡ true) (c ∷ w)
    → begins_ident rest ≡ false
    → is_read_lead (to_lower (c ∷ w)) ≡ false
    → equal (to_lower (c ∷ w)) (codes "explain") ≡ false
    → write_verb d (c ∷ (w ++ rest)) ≡ to_upper (to_lower (c ∷ w))
write_verb_word d c w rest h e k x =
    let b = opens_with_word d c w rest h e in
    let low = to_lower_cons c w in
    write_verb_lem d (c ∷ (w ++ rest))
    ∙ ap (verb_from d) (b.body ∙ ap (λ s. s ++ b.tail) low)
    ∙ verb_word d (lower_byte c) (to_lower w) b.tail (rw low at (to_lower-IsIdent (c ∷ w) h)) b.ends
        (rw low at k) (rw low at x)
    ∙ ap to_upper (sym low)
