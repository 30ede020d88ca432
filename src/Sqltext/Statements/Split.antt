-- ===== src/Sqltext/Statements/Split.antt =====
-- internal/sqltext/sqltext.go: the statements of a text.
use redash_wire.Common.{
  ℕ, Bool, true, false, ◌&&◌, ◌||◌, List, [], ◌∷◌, ◌++◌, ◌==◌, if◌then◌else◌, length, replicate,
  ◌≡◌, refl, sym, ap, ◌∙◌, inl, inr, Bool-cases, arith, length-append, append_assoc, append-nil,
}
use redash_wire.Common.Text.{Bytes}
use redash_wire.Sqltext.Mask.{Dialect, code_mask}
use redash_wire.Sqltext.Redact.{redact_byte, apply_mask, redact}
use redash_wire.Sqltext.Redact.Stable.{code_mask-redact, length-code_mask, redact-apply_mask}
use redash_wire.Sqltext.Statements.Trimmed.{Kept, all_seen, Kept-flush}
use redash_wire.Sqltext.Statements.{
  Marked, with_mask, text, segment_has_code, flush, statements_from, statements,
}

segment_has_code-append :
    (x y : Marked) → segment_has_code (x ++ y) ≡ (segment_has_code x || segment_has_code y)
unfolding segment_has_code
segment_has_code-append [] y = refl
segment_has_code-append ((c, m) ∷ r) y = ground (arith, segment_has_code-append r y)

-- A segment of the redacted text: every byte is code.
abbrev pub redacted : Marked → Marked
redacted [] = []
redacted ((c, m) ∷ r) = (redact_byte m c, true) ∷ redacted r

segment_has_code_one :
    (c : ℕ) (m : Bool)
    → segment_has_code ((redact_byte m c, true) ∷ []) ≡ segment_has_code ((c, m) ∷ [])
unfolding segment_has_code redact_byte
segment_has_code_one c m = ground arith

length-flush :
    (x y : Marked) → segment_has_code x ≡ segment_has_code y → length (flush x) ≡ length (flush y)
unfolding flush
length-flush x y e = ground arith

is_cut : (c : ℕ) (m : Bool) → (redact_byte m c == b';' && true) ≡ (c == b';' && m)
unfolding redact_byte
is_cut c m = ground arith

statements_from_cons :
    (seg : Marked) (c : ℕ) (m : Bool) (r : Marked)
    → statements_from seg ((c, m) ∷ r) ≡ (
        if c == b';' && m
        then flush seg ++ statements_from [] r
        else statements_from (seg ++ (c, m) ∷ []) r)
unfolding statements_from
statements_from_cons seg c m r = refl

length-statements_from :
    (seg seg' r : Marked)
    → segment_has_code seg' ≡ segment_has_code seg
    → length (statements_from seg' (redacted r)) ≡ length (statements_from seg r)
length-statements_from seg seg' [] e = unfold statements_from in length-flush seg' seg e
length-statements_from seg seg' ((c, m) ∷ r) e =
    rw (statements_from_cons seg c m r, statements_from_cons seg' _ true (redacted r), is_cut c m)
      (elim (Bool-cases (c == b';' && m)) [
        | inl h ↦ rw h (
            length-append (flush seg') _
            ∙ cc (length-flush seg' seg e, length-statements_from [] [] r refl)
            ∙ sym (length-append (flush seg) _))
        | inr h ↦ rw h (
            length-statements_from (seg ++ (c, m) ∷ []) (seg' ++ (redact_byte m c, true) ∷ []) r (
              segment_has_code-append seg' _
              ∙ cc (e, segment_has_code_one c m)
              ∙ sym (segment_has_code-append seg _)))
      ])

pub with_mask-redacted :
    (cs : Bytes) (ms : List Bool)
    → length ms ≡ length cs
    → with_mask (apply_mask ms cs) (replicate (length cs) true) ≡ redacted (with_mask cs ms)
unfolding with_mask apply_mask
with_mask-redacted [] [] e = refl
with_mask-redacted [] (m ∷ ms) e = refl
with_mask-redacted (c ∷ cs) [] e = absurd (omega arith)
with_mask-redacted (c ∷ cs) (m ∷ ms) e =
    ap (◌∷◌ (redact_byte m c, true)) (with_mask-redacted cs ms (omega arith))

-- The marked bytes of a redacted text.
pub with_mask-redact :
    (d : Dialect) (sql : Bytes)
    → with_mask (redact d sql) (code_mask d (redact d sql))
      ≡ redacted (with_mask sql (code_mask d sql))
with_mask-redact d sql =
    rw (code_mask-redact, redact-apply_mask)
      (with_mask-redacted sql (code_mask d sql) (length-code_mask d sql))

-- Semicolons inside literals, quoted identifiers and comments are never counted: a text and its
-- redaction hold the same number of statements.
length-statements-redact :
    (d : Dialect) (sql : Bytes) → length (statements d (redact d sql)) ≡ length (statements d sql)
unfolding statements
length-statements-redact d sql =
    rw with_mask-redact (length-statements_from [] [] (with_mask sql (code_mask d sql)) refl)

pub text-with_mask :
    (cs : Bytes) (ms : List Bool) → length ms ≡ length cs → text (with_mask cs ms) ≡ cs
unfolding with_mask
text-with_mask [] [] e = refl
text-with_mask [] (m ∷ ms) e = refl
text-with_mask (c ∷ cs) [] e = absurd (omega arith)
text-with_mask (c ∷ cs) (m ∷ ms) e = ap (◌∷◌ c) (text-with_mask cs ms (omega arith))

-- A segment with no semicolon that is code.
abbrev IsOneSegment : Marked → Type 0
IsOneSegment [] = Unit
IsOneSegment ((c, m) ∷ r) = ((c == b';' && m) ≡ false) × IsOneSegment r

IsOneSegment-append : (x y : Marked) → IsOneSegment x → IsOneSegment y → IsOneSegment (x ++ y)
IsOneSegment-append [] y h k = k
IsOneSegment-append ((c, m) ∷ r) y h k = (h.0, IsOneSegment-append r y h.1 k)

-- The way to cut a marked text at its semicolons.
pub data Cuts : Marked → List Marked → Type 0 where
  last : {seg : Marked} → IsOneSegment seg → Cuts seg (seg ∷ [])
  cut :
      {seg r all : Marked} {segs : List Marked} (c : ℕ) (m : Bool)
      → IsOneSegment seg
      → (c == b';' && m) ≡ true
      → all ≡ seg ++ (c, m) ∷ r
      → Cuts r segs
      → Cuts all (seg ∷ segs)

-- `seg` has been read, `r` is to come.
record Cut (seg r : Marked) : Type 0 where
  segs : List Marked
  cuts : Cuts (seg ++ r) segs
  kept : Kept segs (statements_from seg r)

statements_from-Cut : (seg r : Marked) → IsOneSegment seg → Cut seg r
statements_from-Cut seg [] h = record {
  segs = seg ∷ [];
  cuts = rw append-nil (last h);
  kept = unfold statements_from in rw append-nil at (Kept-flush seg [] [] all_seen);
}
statements_from-Cut seg ((c, m) ∷ r) h = elim (Bool-cases (c == b';' && m)) [
  | inl e ↦
      let later = statements_from-Cut [] r tt in
      record {
        segs = seg ∷ later.segs;
        cuts = cut c m h e refl later.cuts;
        kept =
            rw (statements_from_cons seg c m r, e)
              (Kept-flush seg later.segs (statements_from [] r) later.kept);
      }
  | inr e ↦
      let later =
        statements_from-Cut (seg ++ (c, m) ∷ []) r (IsOneSegment-append seg _ h (e, tt)) in
      record {
        segs = later.segs;
        cuts = rw append_assoc at later.cuts;
        kept = rw (statements_from_cons seg c m r, e) later.kept;
      }
]

-- `Statements` cuts the whole text at its semicolons that are code, and at no other. In order, it
-- gives of each piece that has a byte of code, other than a blank, a tab, a line feed or a carriage
-- return, the text without the white space at its ends, and of the other pieces nothing.
pub statements_lem :
    (d : Dialect) (sql : Bytes)
    → (segs : List Marked) × Cuts (with_mask sql (code_mask d sql)) segs
      × Kept segs (statements d sql)
unfolding statements
statements_lem d sql =
    let all = statements_from-Cut [] (with_mask sql (code_mask d sql)) tt in
    (all.segs, all.cuts, all.kept)
