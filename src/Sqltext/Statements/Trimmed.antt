-- ===== src/Sqltext/Statements/Trimmed.antt =====
-- `strings.TrimSpace` of a segment, and what a segment is kept for, each told without the code.
use redash_wire.Common.{
  ℕ, true, false, List, [], ◌∷◌, ◌++◌, ◌≡◌, ◌≢◌, ◌⊎◌, refl, ap, ◌∙◌, inl, inr, Bool-cases, arith,
  All,
}
use redash_wire.Common.Text.{Bytes, is_white, trim_space, trim_left, trim_right}
use redash_wire.Sqltext.Statements.{Marked, text, segment_has_code, flush}

abbrev pub BeginsDark : Bytes → Type 0
BeginsDark [] = Unit
BeginsDark (c ∷ t) = is_white c ≡ false

abbrev pub EndsDark : Bytes → Type 0
EndsDark [] = Unit
EndsDark (c ∷ []) = is_white c ≡ false
EndsDark (c ∷ d ∷ t) = EndsDark (d ∷ t)

abbrev pub AllWhite : Bytes → Type 0
AllWhite = All (λ c. is_white c ≡ true)

-- `t` is `s` without the white space at both ends.
pub record IsTrimmed (s t : Bytes) : Type 0 where
  pub before : Bytes
  pub after : Bytes
  pub parts : s ≡ before ++ (t ++ after)
  pub white_before : AllWhite before
  pub white_after : AllWhite after
  pub begins : BeginsDark t
  pub ends : EndsDark t

record TrimmedLeft (s t : Bytes) : Type 0 where
  before : Bytes
  parts : s ≡ before ++ t
  white : AllWhite before
  begins : BeginsDark t

record TrimmedRight (s t : Bytes) : Type 0 where
  after : Bytes
  parts : s ≡ t ++ after
  white : AllWhite after
  begins : BeginsDark s → BeginsDark t
  ends : EndsDark t

trim_left-TrimmedLeft : (s : Bytes) → TrimmedLeft s (trim_left is_white s)
unfolding trim_left
trim_left-TrimmedLeft [] = record { before = []; parts = refl; white = tt; begins = tt }
trim_left-TrimmedLeft (c ∷ cs) = elim (Bool-cases (is_white c)) [
  | inl w ↦
      let h = trim_left-TrimmedLeft cs in
      rw (w, trim_left)
        (record {
          before = c ∷ h.before;
          parts = ap (◌∷◌ c) h.parts;
          white = (w, h.white);
          begins = h.begins;
        })
  | inr d ↦ rw (d, trim_left) (record { before = []; parts = refl; white = tt; begins = d })
]

-- A byte before a text that has been trimmed at its end.
TrimmedRight-cons :
    (c : ℕ) (cs t : Bytes)
    → trim_right is_white cs ≡ t
    → TrimmedRight cs t
    → TrimmedRight (c ∷ cs) (trim_right is_white (c ∷ cs))
unfolding trim_right
TrimmedRight-cons c cs [] e h = elim (Bool-cases (is_white c)) [
  | inl w ↦
      rw (e, trim_right)
        (rw w (record {
          after = c ∷ h.after;
          parts = ap (◌∷◌ c) h.parts;
          white = (w, h.white);
          begins = λ _. tt;
          ends = tt;
        }))
  | inr d ↦
      rw (e, trim_right)
        (rw d (record {
          after = h.after;
          parts = ap (◌∷◌ c) h.parts;
          white = h.white;
          begins = λ b. b;
          ends = d;
        }))
]
TrimmedRight-cons c cs (x ∷ t) e h =
    rw (e, trim_right)
      (record {
        after = h.after;
        parts = ap (◌∷◌ c) h.parts;
        white = h.white;
        begins = λ b. b;
        ends = h.ends;
      })

trim_right-TrimmedRight : (s : Bytes) → TrimmedRight s (trim_right is_white s)
trim_right-TrimmedRight [] =
    unfold trim_right in record { after = []; parts = refl; white = tt; begins = λ b. b; ends = tt }
trim_right-TrimmedRight (c ∷ cs) =
    TrimmedRight-cons c cs (trim_right is_white cs) refl (trim_right-TrimmedRight cs)

pub trim_space-IsTrimmed : (s : Bytes) → IsTrimmed s (trim_space s)
unfolding trim_space
trim_space-IsTrimmed s =
    let l = trim_left-TrimmedLeft s in
    let r = trim_right-TrimmedRight (trim_left is_white s) in
    record {
      before = l.before;
      after = r.after;
      parts = l.parts ∙ ap (◌++◌ l.before) r.parts;
      white_before = l.white;
      white_after = r.white;
      begins = r.begins l.begins;
      ends = r.ends;
    }

-- A byte that is code, and no blank, tab, line feed or carriage return, stands in the segment.
abbrev pub HasCode : Marked → Type 0
HasCode [] = ⊥
HasCode ((c, m) ∷ r) =
    ((m ≡ true) × (c ≢ b' ') × (c ≢ b'\t') × (c ≢ b'\n') × (c ≢ b'\r')) ⊎ HasCode r

pub segment_has_code-HasCode : (seg : Marked) → segment_has_code seg ≡ true → HasCode seg
unfolding segment_has_code
segment_has_code-HasCode [] h = absurd cc
segment_has_code-HasCode ((c, m) ∷ r) h = ground (arith, segment_has_code-HasCode r)

pub HasCode-segment_has_code : (seg : Marked) → HasCode seg → segment_has_code seg ≡ true
unfolding segment_has_code
HasCode-segment_has_code [] h = absurd h
HasCode-segment_has_code ((c, m) ∷ r) h = ground (arith, HasCode-segment_has_code r)

-- The texts of the segments that carry code, trimmed and in order.
pub data Kept : List Marked → List Bytes → Type 0 where
  all_seen : Kept [] []
  kept :
      {seg : Marked} {segs : List Marked} {t : Bytes} {ts : List Bytes}
      → HasCode seg
      → IsTrimmed (text seg) t
      → Kept segs ts
      → Kept (seg ∷ segs) (t ∷ ts)
  dropped :
      {seg : Marked} {segs : List Marked} {ts : List Bytes}
      → ¬ HasCode seg
      → Kept segs ts
      → Kept (seg ∷ segs) ts

pub Kept-flush :
    (seg : Marked) (segs : List Marked) (ts : List Bytes)
    → Kept segs ts
    → Kept (seg ∷ segs) (flush seg ++ ts)
unfolding flush
Kept-flush seg segs ts h = elim (Bool-cases (segment_has_code seg)) [
  | inl y ↦
      rw (y, flush) (kept (segment_has_code-HasCode seg y) (trim_space-IsTrimmed (text seg)) h)
  | inr n ↦ rw (n, flush) (dropped (λ k. cc (HasCode-segment_has_code seg k)) h)
]
