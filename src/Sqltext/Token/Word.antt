-- ===== src/Sqltext/Token/Word.antt =====
-- internal/sqltext/sqltext.go: what the two token tests mean, as ways to cut the text in three.
use redash_wire.Common.{
  ℕ, zero, suc, ◌+◌, ◌≤◌, Bool, true, false, not, ◌&&◌, ◌||◌, [], ◌∷◌, ◌++◌, length, take, drop,
  ◌≡◌, ◌↔◌, ◌⊎◌, refl, ap, sym, ◌∙◌, arith, drop-drop, length-append, take-append-drop,
}
use redash_wire.Common.Text.{Bytes, has_prefix}
use redash_wire.Sqltext.Mask.{is_ident_byte}
use redash_wire.Sqltext.Token.{
  ident_at, ident_before, ends_open, token_bounds, statement_bounds, calls, contains_token,
  has_statement_token,
}
use redash_wire.Sqltext.Token.Occurs.{Occurs, search_from_iff}

-- The text begins, or ends, with an identifier byte.
unfoldable pub begins_ident : Bytes → Bool
begins_ident [] = false
begins_ident (c ∷ cs) = is_ident_byte c

unfoldable pub ends_ident : Bytes → Bool
ends_ident [] = false
ends_ident (c ∷ []) = is_ident_byte c
ends_ident (c ∷ e ∷ cs) = ends_ident (e ∷ cs)

-- A whole word: `ContainsToken` asks nothing of what follows a token such as "version(".
pub record IsWord (s tok : Bytes) : Type 0 where
  pub before : Bytes
  pub after : Bytes
  pub splits : s ≡ before ++ (tok ++ after)
  pub left : ends_ident before ≡ false
  pub right : (ends_ident tok ≡ false) ⊎ (begins_ident after ≡ false)

-- A whole word that is no function call.
pub record IsStatementWord (s tok : Bytes) : Type 0 where
  pub before : Bytes
  pub after : Bytes
  pub splits : s ≡ before ++ (tok ++ after)
  pub left : ends_ident before ≡ false
  pub right : begins_ident after ≡ false
  pub no_call : calls after ≡ false

has_prefix_split : (s p : Bytes) → has_prefix s p ≡ true → s ≡ p ++ drop (length p) s
unfolding has_prefix
has_prefix_split s [] h = refl
has_prefix_split [] (p ∷ ps) h = cc
has_prefix_split (c ∷ s) (p ∷ ps) h = ground (arith, has_prefix_split s ps)

pub has_prefix-append : (p b : Bytes) → has_prefix (p ++ b) p ≡ true
unfolding has_prefix
has_prefix-append [] b = refl
has_prefix-append (c ∷ p) b = ground (arith, has_prefix-append p b)

pub drop-append : (a b : Bytes) → drop (length a) (a ++ b) ≡ b
drop-append [] b = refl
drop-append (c ∷ a) b = drop-append a b

ident_at-drop : (s : Bytes) (i : ℕ) → ident_at s i ≡ begins_ident (drop i s)
unfolding ident_at begins_ident
ident_at-drop [] zero = refl
ident_at-drop [] (suc i) = refl
ident_at-drop (c ∷ s) zero = refl
ident_at-drop (c ∷ s) (suc i) = ident_at-drop s i

ident_before-take : (s : Bytes) (i : ℕ) → i ≤ length s → ident_before s i ≡ ends_ident (take i s)
unfolding ident_before ends_ident
ident_before-take s zero h = refl
ident_before-take [] (suc i) h = absurd (omega arith)
ident_before-take (c ∷ s) (suc zero) h = refl
ident_before-take (c ∷ []) (suc (suc i)) h = absurd (omega arith)
ident_before-take (c ∷ e ∷ s) (suc (suc i)) h = ident_before-take (e ∷ s) (suc i) (omega arith)

pub take-append : (a b : Bytes) → take (length a) (a ++ b) ≡ a
take-append [] b = refl
take-append (c ∷ a) b = ap (◌∷◌ c) (take-append a b)

ends_open-not : (t : ℕ) (ts : Bytes) → ends_open (t ∷ ts) ≡ not (ends_ident (t ∷ ts))
unfolding ends_open ends_ident
ends_open-not t [] = refl
ends_open-not t (e ∷ ts) = ends_open-not e ts

-- An occurrence cuts the text in three.
record Parts (s tok : Bytes) (i : ℕ) : Type 0 where
  splits : s ≡ take i s ++ (tok ++ drop (i + length tok) s)
  left : ident_before s i ≡ ends_ident (take i s)
  right : ident_at s (i + length tok) ≡ begins_ident (drop (i + length tok) s)

parts : (s tok : Bytes) (i : ℕ) → i ≤ length s → has_prefix (drop i s) tok ≡ true → Parts s tok i
parts s tok i h p = record {
  splits =
      sym (take-append-drop i s)
      ∙ ap (◌++◌ (take i s)) (
          has_prefix_split (drop i s) tok p
          ∙ ap (◌++◌ tok) (drop-drop s i (length tok) (i + length tok) refl));
  left = ident_before-take s i h;
  right = ident_at-drop s (i + length tok);
}

-- A cut gives back the occurrence.
record Place (before tok after : Bytes) : Type 0 where
  inside : length before ≤ length (before ++ (tok ++ after))
  stands : has_prefix (drop (length before) (before ++ (tok ++ after))) tok ≡ true
  left : ident_before (before ++ (tok ++ after)) (length before) ≡ ends_ident before
  behind : drop (length before + length tok) (before ++ (tok ++ after)) ≡ after

place : (before tok after : Bytes) → Place before tok after
place before tok after = record {
  inside = omega (arith, length-append before (tok ++ after));
  stands = rw drop-append (has_prefix-append tok after);
  left =
      ident_before-take (before ++ (tok ++ after)) (length before)
        (omega (arith, length-append before (tok ++ after)))
      ∙ ap ends_ident (take-append before (tok ++ after));
  behind =
      sym (drop-drop (before ++ (tok ++ after)) (length before) (length tok) _ refl)
      ∙ rw drop-append (drop-append tok after);
}

token_bounds_lem :
    (s tok : Bytes) (i : ℕ)
    → token_bounds s tok i
      ≡ (not (ident_before s i) && (ends_open tok || not (ident_at s (i + length tok))))
unfolding token_bounds
token_bounds_lem s tok i = refl

statement_bounds_lem :
    (s tok : Bytes) (i : ℕ)
    → statement_bounds s tok i ≡ (
        not (ident_before s i)
        && not (ident_at s (i + length tok))
        && not (calls (drop (i + length tok) s)))
unfolding statement_bounds
statement_bounds_lem s tok i = refl

-- The test at an occurrence, read on the three parts.
not_or_cases :
    (l o x : Bool) → (not l && (not o || not x)) ≡ true → (l ≡ false) × ((o ≡ false) ⊎ (x ≡ false))
not_or_cases l o x h = ground arith

or_not_cases :
    (l o x : Bool) → l ≡ false → (o ≡ false) ⊎ (x ≡ false) → (not l && (not o || not x)) ≡ true
or_not_cases l o x h k = ground arith

not_and_cases :
    (l x c : Bool) → (not l && not x && not c) ≡ true → (l ≡ false) × (x ≡ false) × (c ≡ false)
not_and_cases l x c h = ground arith

and_not_cases :
    (l x c : Bool) → l ≡ false → x ≡ false → c ≡ false → (not l && not x && not c) ≡ true
and_not_cases l x c h k m = ground arith

module _ (s : Bytes) (t : ℕ) (ts : Bytes) where
  abbrev Found : (ℕ → Bool) → Type 0
  Found accept = (i : ℕ) × Occurs s (t ∷ ts) accept 0 i

  IsWord-Found : Found (token_bounds s (t ∷ ts)) → IsWord s (t ∷ ts)
  IsWord-Found (i, o) =
      let q = parts s (t ∷ ts) i o.inside o.stands in
      let (l, r) =
        not_or_cases _ _ _ (rw (token_bounds_lem, ends_open-not, q.left, q.right) at o.accepted) in
      record {
        before = take i s;
        after = drop (i + length (t ∷ ts)) s;
        splits = q.splits;
        left = l;
        right = r;
      }

  IsStatementWord-Found : Found (statement_bounds s (t ∷ ts)) → IsStatementWord s (t ∷ ts)
  IsStatementWord-Found (i, o) =
      let q = parts s (t ∷ ts) i o.inside o.stands in
      let (l, r, c) =
        not_and_cases _ _ _ (rw (statement_bounds_lem, q.left, q.right) at o.accepted) in
      record {
        before = take i s;
        after = drop (i + length (t ∷ ts)) s;
        splits = q.splits;
        left = l;
        right = r;
        no_call = c;
      }

Found-IsWord :
    (before after : Bytes) (t : ℕ) (ts : Bytes)
    → ends_ident before ≡ false
    → (ends_ident (t ∷ ts) ≡ false) ⊎ (begins_ident after ≡ false)
    → let s = before ++ ((t ∷ ts) ++ after) in Found s t ts (token_bounds s (t ∷ ts))
Found-IsWord before after t ts l r =
    let q = place before (t ∷ ts) after in
    (
      length before,
      record {
        after = omega arith;
        inside = q.inside;
        stands = q.stands;
        accepted =
            rw (token_bounds_lem, ends_open-not, q.left, ident_at-drop, q.behind)
              (or_not_cases _ _ _ l r);
      },
    )

Found-IsStatementWord :
    (before after : Bytes) (t : ℕ) (ts : Bytes)
    → ends_ident before ≡ false
    → begins_ident after ≡ false
    → calls after ≡ false
    → let s = before ++ ((t ∷ ts) ++ after) in Found s t ts (statement_bounds s (t ∷ ts))
Found-IsStatementWord before after t ts l r c =
    let q = place before (t ∷ ts) after in
    (
      length before,
      record {
        after = omega arith;
        inside = q.inside;
        stands = q.stands;
        accepted =
            rw (statement_bounds_lem, q.left, ident_at-drop, q.behind) (and_not_cases _ _ _ l r c);
      },
    )

contains_token-Found :
    (s : Bytes) (t : ℕ) (ts : Bytes)
    → (contains_token s (t ∷ ts) ≡ true) ↔ Found s t ts (token_bounds s (t ∷ ts))
unfolding contains_token
contains_token-Found s t ts = search_from_iff s t ts (token_bounds s (t ∷ ts))

has_statement_token-Found :
    (s : Bytes) (t : ℕ) (ts : Bytes)
    → (has_statement_token s (t ∷ ts) ≡ true) ↔ Found s t ts (statement_bounds s (t ∷ ts))
unfolding has_statement_token
has_statement_token-Found s t ts = search_from_iff s t ts (statement_bounds s (t ∷ ts))

-- `ContainsToken` answers true exactly where the token stands in the text as a whole word.
contains_token_iff :
    (s : Bytes) (t : ℕ) (ts : Bytes) → (contains_token s (t ∷ ts) ≡ true) ↔ IsWord s (t ∷ ts)
contains_token_iff s t ts = (
  λ h. IsWord-Found s t ts ((contains_token-Found s t ts).0 h),
  λ w. rw w.splits (
      (contains_token-Found (w.before ++ ((t ∷ ts) ++ w.after)) t ts).1
        (Found-IsWord w.before w.after t ts w.left w.right)),
)

-- `hasStatementToken` answers true exactly where the token stands in the text as a whole word that
-- no parenthesis makes a function call.
pub has_statement_token_iff :
    (s : Bytes) (t : ℕ) (ts : Bytes)
    → (has_statement_token s (t ∷ ts) ≡ true) ↔ IsStatementWord s (t ∷ ts)
has_statement_token_iff s t ts = (
  λ h. IsStatementWord-Found s t ts ((has_statement_token-Found s t ts).0 h),
  λ w. rw w.splits (
      (has_statement_token-Found (w.before ++ ((t ∷ ts) ++ w.after)) t ts).1
        (Found-IsStatementWord w.before w.after t ts w.left w.right w.no_call)),
)
