-- ===== src/Pgwire/Rewrite/Reads.antt =====
-- internal/pgwire/rewrite.go and the test of the read-only mode.
use redash_wire.Common.{
  ℕ, ◌≤◌, Bool, true, false, not, ◌||◌, [], ◌∷◌, ◌++◌, ◌==◌, ==_iff, if◌then◌else◌, ◌≡◌, ◌≢◌, ◌⊎◌,
  refl, sym, ap, ◌∙◌, Bool-cases, inl, inr, arith, All, All-append, append_assoc, and_eq_true,
  or_eq_true,
}
use redash_wire.Common.Text.{
  Bytes, codes, equal, lower_byte, to_lower, to_upper, trim_left, trim_right, trim_space, is_white,
  has_prefix,
}
use redash_wire.Sqltext.Mask.{postgres, is_ident_byte}
use redash_wire.Sqltext.Token.Word.{begins_ident}
use redash_wire.Sqltext.Verb.{write_verb, is_read_lead}
use redash_wire.Sqltext.Verb.Refuses.{write_verb_word}
use redash_wire.Pgwire.Rewrite.{rewrite_timestamp_comparisons}

-- A text that starts with a byte that is no white space, or an empty one.
unfoldable starts_black : Bytes → Bool
starts_black [] = true
starts_black (c ∷ _) = not (is_white c)

starts_black-trim_left : (s : Bytes) → starts_black (trim_left is_white s) ≡ true
unfolding starts_black trim_left
starts_black-trim_left [] = refl
starts_black-trim_left (c ∷ cs) = elim (Bool-cases (is_white c)) [
  | inl w ↦ rw (w, trim_left) (starts_black-trim_left cs)
  | inr b ↦ rw (b, trim_left) (ap not b)
]

starts_black-trim_right :
    (s : Bytes) → starts_black s ≡ true → starts_black (trim_right is_white s) ≡ true
unfolding starts_black trim_right
starts_black-trim_right [] h = refl
starts_black-trim_right (c ∷ cs) h = ground arith

starts_black-trim_space : (s : Bytes) → starts_black (trim_space s) ≡ true
unfolding trim_space
starts_black-trim_space s =
    starts_black-trim_right (trim_left is_white s) (starts_black-trim_left s)

trim_left-black : (s : Bytes) → starts_black s ≡ true → trim_left is_white s ≡ s
unfolding starts_black trim_left
trim_left-black [] h = refl
trim_left-black (c ∷ cs) h = ground arith

trim_right_step :
    (p : ℕ → Bool) (c : ℕ) (cs r t : Bytes)
    → r ++ t ≡ cs
    → (y : Bytes) × (elim r [ [] ↦ if p c then [] else c ∷ [] | x ∷ xs ↦ c ∷ x ∷ xs ] ++ y ≡ c ∷ cs)
trim_right_step p c cs [] t e = elim (Bool-cases (p c)) [
  | inl w ↦ (c ∷ cs, rw w refl)
  | inr b ↦ (cs, rw b refl)
]
trim_right_step p c cs (x ∷ xs) t e = (t, ap (λ s. c ∷ s) e)

-- What `trim_right` leaves is the start of the text.
trim_right-prefix : (p : ℕ → Bool) (s : Bytes) → (t : Bytes) × (trim_right p s ++ t ≡ s)
unfolding trim_right
trim_right-prefix p [] = ([], refl)
trim_right-prefix p (c ∷ cs) =
    let (t, e) = trim_right-prefix p cs in trim_right_step p c cs (trim_right p cs) t e

has_prefix-append : (s t p : Bytes) → has_prefix s p ≡ true → has_prefix (s ++ t) p ≡ true
unfolding has_prefix
has_prefix-append s t [] h = refl
has_prefix-append [] t (p ∷ ps) h = cc
has_prefix-append (c ∷ s) t (p ∷ ps) h =
    let (a, b) = and_eq_true (c == p) (has_prefix s ps) h in rw a (has_prefix-append s t ps b)

to_lower-append : (s t : Bytes) → to_lower (s ++ t) ≡ to_lower s ++ to_lower t
unfolding to_lower
to_lower-append [] t = refl
to_lower-append (c ∷ s) t = ap (λ x. lower_byte c ∷ x) (to_lower-append s t)

-- The keyword of a trimmed text is that of the text.
has_prefix-to_lower_trim :
    (s p : Bytes)
    → starts_black s ≡ true
    → has_prefix (to_lower (trim_space s)) p ≡ true
    → has_prefix (to_lower s) p ≡ true
unfolding trim_space
has_prefix-to_lower_trim s p b h =
    let (t, e) = trim_right-prefix is_white s in
    let h' : has_prefix (to_lower (trim_right is_white s)) p ≡ true =
      rw (trim_left-black s b) at h in
    rw⁻¹ e (
      rw (to_lower-append (trim_right is_white s) t)
        (has_prefix-append (to_lower (trim_right is_white s)) (to_lower t) p h'))

-- The identifier bytes at the start of a text, and the rest.
span : Bytes → Bytes × Bytes
span [] = ([], [])
span (c ∷ cs) = let (w, r) = span cs in if is_ident_byte c then (c ∷ w, r) else ([], c ∷ cs)

span_lem :
    (s : Bytes)
    → ((span s).0 ++ (span s).1 ≡ s)
      × All (λ b. is_ident_byte b ≡ true) (span s).0
      × (begins_ident (span s).1 ≡ false)
unfolding span begins_ident
span_lem [] = (refl, tt, refl)
span_lem (c ∷ cs) = elim (Bool-cases (is_ident_byte c)) [
  | inl i ↦ let (e, all, b) = span_lem cs in rw (i, span) (ap (λ s. c ∷ s) e, (i, all), b)
  | inr n ↦ rw (n, span) (refl, tt, n)
]

is_ident_byte-lower : (c k : ℕ) → lower_byte c ≡ k → b'a' ≤ k → k ≤ b'z' → is_ident_byte c ≡ true
unfolding lower_byte is_ident_byte
is_ident_byte-lower c k h l u = ground arith

-- The text begins with the letters, in any case.
Opens : Bytes → Bytes → Type 0
Opens [] s = Unit
Opens (k ∷ ks) [] = ⊥
Opens (k ∷ ks) (c ∷ s) = (lower_byte c ≡ k) × Opens ks s

has_prefix-Opens : (s p : Bytes) → has_prefix (to_lower s) p ≡ true → Opens p s
unfolding has_prefix to_lower Opens
has_prefix-Opens s [] h = tt
has_prefix-Opens [] (k ∷ ks) h = cc
has_prefix-Opens (c ∷ s) (k ∷ ks) h =
    let (a, b) = and_eq_true (lower_byte c == k) (has_prefix (to_lower s) ks) h in
    ((==_iff (lower_byte c) k).0 a, has_prefix-Opens s ks b)

record Split (ks s : Bytes) : Type 0 where
  before : Bytes
  after : Bytes
  splits : s ≡ before ++ after
  lower : to_lower before ≡ ks
  ident : All (λ b. is_ident_byte b ≡ true) before

abbrev Letters : Bytes → Type 0
Letters ks = All (λ k. (b'a' ≤ k) × (k ≤ b'z')) ks

Opens-Split : (ks s : Bytes) → Letters ks → Opens ks s → Split ks s
unfolding Opens to_lower
Opens-Split [] s l h = record { before = []; after = s; splits = refl; lower = refl; ident = tt }
Opens-Split (k ∷ ks) [] l h = elim h [ ]
Opens-Split (k ∷ ks) (c ∷ s) l h =
    let ih = Opens-Split ks s l.1 h.1 in
    record {
      before = c ∷ ih.before;
      after = ih.after;
      splits = ap (λ x. c ∷ x) ih.splits;
      lower = ap (λ x. x ∷ to_lower ih.before) h.0 ∙ ap (λ x. k ∷ x) ih.lower;
      ident = (is_ident_byte-lower c k h.0 l.0.0 l.0.1, ih.ident);
    }

-- A word that begins with the letters of neither a read nor EXPLAIN is refused.
refused :
    (k : ℕ) (ks s : Bytes)
    → Letters (k ∷ ks)
    → Opens (k ∷ ks) s
    → ((x : Bytes) → is_read_lead (k ∷ (ks ++ x)) ≡ false)
    → ((x : Bytes) → equal (k ∷ (ks ++ x)) (codes "explain") ≡ false)
    → write_verb postgres s ≢ []
unfolding Opens to_lower to_upper
refused k ks [] l h r e w = elim h [ ]
refused k ks (c ∷ s) l h r e w =
    let p = Opens-Split ks s l.1 h.1 in
    let (q, all, b) = span_lem p.after in
    let word = p.before ++ (span p.after).0 in
    let rest = (span p.after).1 in
    let low : to_lower (c ∷ word) ≡ k ∷ (ks ++ to_lower (span p.after).0) =
      ap (λ x. x ∷ to_lower word) h.0
      ∙ ap (λ x. k ∷ x)
          (to_lower-append p.before (span p.after).0
            ∙ ap (λ x. x ++ to_lower (span p.after).0) p.lower) in
    let text : c ∷ s ≡ c ∷ (word ++ rest) =
      ap (λ x. c ∷ x)
        (p.splits
          ∙ ap (λ x. p.before ++ x) (sym q)
          ∙ sym (append_assoc p.before (span p.after).0 rest)) in
    let verb =
      write_verb_word postgres c word rest
        (
          is_ident_byte-lower c k h.0 l.0.0 l.0.1,
          All-append (λ x. is_ident_byte x ≡ true) p.before (span p.after).0 p.ident all,
        )
        b (rw low (r (to_lower (span p.after).0))) (rw low (e (to_lower (span p.after).0))) in
    let none_left : to_upper (to_lower (c ∷ word)) ≡ [] =
      sym verb ∙ ap (write_verb postgres) (sym text) ∙ w in
    cc

Letters-update : Letters (codes "update")
Letters-update = (
  (omega arith, omega arith),
  (
    (omega arith, omega arith),
    (
      (omega arith, omega arith),
      ((omega arith, omega arith), ((omega arith, omega arith), ((omega arith, omega arith), tt))),
    ),
  ),
)

Letters-delete : Letters (codes "delete")
Letters-delete = (
  (omega arith, omega arith),
  (
    (omega arith, omega arith),
    (
      (omega arith, omega arith),
      ((omega arith, omega arith), ((omega arith, omega arith), ((omega arith, omega arith), tt))),
    ),
  ),
)

refused_keyword :
    (s : Bytes) → Opens (codes "update") s ⊎ Opens (codes "delete") s → write_verb postgres s ≢ []
unfolding is_read_lead equal
refused_keyword s (inl h) = refused b'u' (codes "pdate") s Letters-update h (λ x. refl) (λ x. refl)
refused_keyword s (inr h) = refused b'd' (codes "elete") s Letters-delete h (λ x. refl) (λ x. refl)

-- No statement that passes the read-only test is rewritten: what Redash is sent is the client's text.
pub rewrite_timestamp_comparisons-write_verb :
    (raw : Bytes)
    → let sql = trim_space raw in
      write_verb postgres sql ≡ [] → rewrite_timestamp_comparisons sql ≡ sql
unfolding rewrite_timestamp_comparisons
rewrite_timestamp_comparisons-write_verb raw h =
    let sql = trim_space raw in
    let black = starts_black-trim_space raw in
    let lower = to_lower (trim_space sql) in
    elim (Bool-cases (has_prefix lower (codes "update") || has_prefix lower (codes "delete"))) [
      | inl y ↦
          let opens = λ (p : Bytes) (k : has_prefix lower p ≡ true).
            has_prefix-Opens sql p (has_prefix-to_lower_trim sql p black k) in
          absurd (
            refused_keyword sql
              (elim (or_eq_true (has_prefix lower (codes "update"))
                (has_prefix lower (codes "delete")) y) [
                  | inl u ↦ inl (opens (codes "update") u)
                  | inr d ↦ inr (opens (codes "delete") d)
                ])
              h)
      | inr n ↦ rw (n, rewrite_timestamp_comparisons) refl
    ]
