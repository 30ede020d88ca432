-- ===== src/Sqltext/Statements/Commas.antt =====
-- internal/sqltext/sqltext.go: the parts of `SplitTopLevelCommas`.
use redash_wire.Common.{
  ℕ, ◌+◌, ◌-◌, ◌≤◌, All, true, false, ◌&&◌, List, [], ◌∷◌, ◌++◌, ◌==◌, if◌then◌else◌, length, ◌≡◌,
  refl, ap, ◌∙◌, arith, length-append, append_assoc,
}
use redash_wire.Common.Text.{Bytes}
use redash_wire.Sqltext.Mask.{Dialect, code_mask}
use redash_wire.Sqltext.Redact.{redact_byte, redact}
use redash_wire.Sqltext.Redact.Stable.{length-code_mask}
use redash_wire.Sqltext.Statements.{Marked, with_mask, text, commas_from, split_top_level_commas}
use redash_wire.Sqltext.Statements.Split.{redacted, with_mask-redact, text-with_mask}

-- `strings.Join(parts, ",")`, and what follows the first part of it.
abbrev rest_commas : List Bytes → Bytes
rest_commas [] = []
rest_commas (p ∷ ps) = b',' ∷ (p ++ rest_commas ps)

abbrev pub join_commas : List Bytes → Bytes
join_commas [] = []
join_commas (p ∷ ps) = p ++ rest_commas ps

rest_commas-commas_from :
    (r : Marked) (depth : ℕ) (part : Bytes)
    → rest_commas (commas_from depth part r) ≡ b',' ∷ join_commas (commas_from depth part r)
unfolding commas_from
rest_commas-commas_from [] depth part = refl
rest_commas-commas_from ((c, m) ∷ r) depth part = ground (
  arith,
  rest_commas-commas_from r (depth + 1) (part ++ c ∷ []),
  rest_commas-commas_from r (depth - 1) (part ++ c ∷ []),
  rest_commas-commas_from r depth (part ++ c ∷ []),
  rest_commas-commas_from r depth [],
)

join_commas-commas_from :
    (r : Marked) (depth : ℕ) (part : Bytes)
    → join_commas (commas_from depth part r) ≡ part ++ text r
unfolding commas_from
join_commas-commas_from [] depth part = refl
join_commas-commas_from ((c, m) ∷ r) depth part = ground (
  arith,
  join_commas-commas_from r (depth + 1) (part ++ c ∷ []),
  join_commas-commas_from r (depth - 1) (part ++ c ∷ []),
  join_commas-commas_from r depth (part ++ c ∷ []),
  join_commas-commas_from r depth [],
  rest_commas-commas_from r depth [],
  append_assoc part (c ∷ []) (text r),
)

-- The parts of a select list, joined by commas, are the list again: nothing is lost or moved.
pub join_commas-split_top_level_commas :
    (d : Dialect) (s : Bytes) → join_commas (split_top_level_commas d s) ≡ s
unfolding split_top_level_commas
join_commas-split_top_level_commas d s =
    join_commas-commas_from (with_mask s (code_mask d s)) 0 []
    ∙ text-with_mask s (code_mask d s) (length-code_mask d s)

-- The length of each part.
abbrev pub lengths : List Bytes → List ℕ
lengths [] = []
lengths (p ∷ ps) = length p ∷ lengths ps

length_snoc :
    (x y : Bytes) (a b : ℕ) → length x ≡ length y → length (x ++ a ∷ []) ≡ length (y ++ b ∷ [])
length_snoc x y a b e = omega (arith, length-append x (a ∷ []), length-append y (b ∷ []))

-- A byte that is not code never cuts, and what is written for it does not either.
commas_from_blank :
    (depth : ℕ) (part : Bytes) (c : ℕ) (r : Marked)
    → commas_from depth part ((redact_byte false c, true) ∷ r)
      ≡ commas_from depth (part ++ redact_byte false c ∷ []) r
unfolding commas_from redact_byte
commas_from_blank depth part c r = ground arith

commas_from_skip :
    (depth : ℕ) (part : Bytes) (c : ℕ) (r : Marked)
    → lengths (commas_from depth (part ++ c ∷ []) r)
      ≡ lengths (commas_from depth part ((c, false) ∷ r))
unfolding commas_from
commas_from_skip depth part c r = refl

-- A byte that is code, in a text and in its redaction.
commas_from_code :
    (depth : ℕ) (part : Bytes) (c : ℕ) (r : Marked)
    → commas_from depth part ((c, true) ∷ r) ≡ (
        if c == b'('
        then commas_from (depth + 1) (part ++ c ∷ []) r
        else if c == b')'
        then commas_from (depth - 1) (part ++ c ∷ []) r
        else if c == b',' && depth == 0
        then part ∷ commas_from depth [] r
        else commas_from depth (part ++ c ∷ []) r)
unfolding commas_from
commas_from_code depth part c r = refl

redacted_code : (c : ℕ) (r : Marked) → redacted ((c, true) ∷ r) ≡ (c, true) ∷ redacted r
unfolding redact_byte
redacted_code c r = refl

lengths-commas_from :
    (r : Marked) (depth : ℕ) (part part' : Bytes)
    → length part' ≡ length part
    → lengths (commas_from depth part' (redacted r)) ≡ lengths (commas_from depth part r)
lengths-commas_from [] depth part part' e = unfold commas_from in ground arith
lengths-commas_from ((c, false) ∷ r) depth part part' e =
    ap lengths (commas_from_blank depth part' c (redacted r))
    ∙ lengths-commas_from r depth (part ++ c ∷ []) (part' ++ redact_byte false c ∷ [])
        (length_snoc part' part _ c e)
    ∙ commas_from_skip depth part c r
lengths-commas_from ((c, true) ∷ r) depth part part' e =
    let s = length_snoc part' part c c e in
    let x = part ++ c ∷ [] in
    let x' = part' ++ c ∷ [] in
    rw (redacted_code, commas_from_code depth part c r, commas_from_code depth part' c (redacted r))
      (ground (
        arith,
        lengths-commas_from r (depth + 1) x x' s,
        lengths-commas_from r (depth - 1) x x' s,
        lengths-commas_from r depth x x' s,
        lengths-commas_from r depth [] [] refl,
        e,
      ))

-- Commas and parentheses inside literals, quoted identifiers and comments never count: a select list
-- and its redaction are cut at the same places.
lengths-split_top_level_commas-redact :
    (d : Dialect) (s : Bytes)
    → lengths (split_top_level_commas d (redact d s)) ≡ lengths (split_top_level_commas d s)
unfolding split_top_level_commas
lengths-split_top_level_commas-redact d s =
    rw with_mask-redact (lengths-commas_from (with_mask s (code_mask d s)) 0 [] [] refl)

rest_commas_parts :
    (n : ℕ) (ps : List Bytes) → length (rest_commas ps) ≤ n → All (λ p. length p ≤ n) ps
rest_commas_parts n [] h = tt
rest_commas_parts n (p ∷ ps) h =
    let both = length-append p (rest_commas ps) in
    (omega arith, rest_commas_parts n ps (omega arith))

join_commas_parts :
    (n : ℕ) (ps : List Bytes) → length (join_commas ps) ≤ n → All (λ p. length p ≤ n) ps
join_commas_parts n [] h = tt
join_commas_parts n (p ∷ ps) h =
    let both = length-append p (rest_commas ps) in
    (omega arith, rest_commas_parts n ps (omega arith))

-- No part is longer than the list.
pub split_top_level_commas_parts :
    (d : Dialect) (s : Bytes) → All (λ p. length p ≤ length s) (split_top_level_commas d s)
split_top_level_commas_parts d s =
    let e = ap length (join_commas-split_top_level_commas d s) in
    join_commas_parts (length s) (split_top_level_commas d s) (omega arith)
