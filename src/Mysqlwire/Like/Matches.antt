-- ===== src/Mysqlwire/Like/Matches.antt =====
-- internal/mysqlwire/query.go, `likeMatcher`: it decides MySQL's LIKE, on runes.
use redash_wire.Common.{
  ℕ, Bool, true, false, not, ◌||◌, List, [], ◌∷◌, ◌==◌, ◌≡◌, ◌↔◌, refl, sym, arith, Bool-cases, inl,
  inr, ==_iff, and_eq_true, or_eq_true, ap, ◌∙◌, ◌⊎◌,
}
use redash_wire.Common.Text.{Bytes}
use redash_wire.Common.Runes.{runes, fold_rune}
use redash_wire.Mysqlwire.Like.{
  Item, any_run, any_rune, literal, compile, match_items, like_matcher,
}

-- A rune that LIKE takes for itself.
abbrev pub is_plain : ℕ → Bool
is_plain b = not (b == b'%' || b == b'_' || b == b'\\')

-- What LIKE means of runes: % stands for any of them, _ for one, a backslash takes the special
-- meaning of the rune behind it, and case is ignored as `fold_rune` does. A backslash at the end stands for itself.
pub data Like : List ℕ → List ℕ → Type 0 where
  both_end : Like [] []
  percent_none : {b : ℕ} {p s : List ℕ} → b ≡ b'%' → Like p s → Like (b ∷ p) s
  percent_more : {b c : ℕ} {p s : List ℕ} → b ≡ b'%' → Like (b ∷ p) s → Like (b ∷ p) (c ∷ s)
  underscore : {b c : ℕ} {p s : List ℕ} → b ≡ b'_' → Like p s → Like (b ∷ p) (c ∷ s)
  escaped :
      {b d c : ℕ} {p s : List ℕ}
      → b ≡ b'\\'
      → fold_rune d ≡ fold_rune c
      → Like p s
      → Like (b ∷ d ∷ p) (c ∷ s)
  trailing : {b c : ℕ} → b ≡ b'\\' → fold_rune b ≡ fold_rune c → Like (b ∷ []) (c ∷ [])
  plain :
      {b c : ℕ} {p s : List ℕ}
      → is_plain b ≡ true
      → fold_rune b ≡ fold_rune c
      → Like p s
      → Like (b ∷ p) (c ∷ s)

rune_kind : (b : ℕ) → (b ≡ b'\\') ⊎ ((b ≡ b'%') ⊎ ((b ≡ b'_') ⊎ (is_plain b ≡ true)))
rune_kind b = elim (Bool-cases (b == b'\\')) [
  | inl e ↦ inl ((==_iff b b'\\').0 e)
  | inr n ↦ elim (Bool-cases (b == b'%')) [
    | inl e ↦ inr (inl ((==_iff b b'%').0 e))
    | inr m ↦ elim (Bool-cases (b == b'_')) [
      | inl e ↦ inr (inr (inl ((==_iff b b'_').0 e)))
      | inr k ↦ inr (inr (inr (rw (n, m, k) refl)))
    ]
  ]
]

compile-plain :
    (b : ℕ) (p : List ℕ) → is_plain b ≡ true → compile false (b ∷ p) ≡ literal b ∷ compile false p
unfolding compile
compile-plain b p h = ground arith

-- What the compiled pattern `p` matches, it is like.
abbrev Sound : List ℕ → Type 0
Sound p = (s : List ℕ) → match_items (compile false p) s ≡ true → Like p s

from_run :
    (b : ℕ) (p s : List ℕ)
    → b ≡ b'%'
    → Sound p
    → match_items (any_run ∷ compile false p) s ≡ true
    → Like (b ∷ p) s
unfolding match_items
from_run b p [] e ih h = percent_none e (ih [] h)
from_run b p (c ∷ s) e ih h =
    elim (or_eq_true (match_items (compile false p) (c ∷ s))
      (match_items (any_run ∷ compile false p) s) h) [
        | inl now ↦ percent_none e (ih (c ∷ s) now)
        | inr later ↦ percent_more e (from_run b p s e ih later)
      ]

from_any :
    (b : ℕ) (p s : List ℕ)
    → b ≡ b'_'
    → Sound p
    → match_items (any_rune ∷ compile false p) s ≡ true
    → Like (b ∷ p) s
unfolding match_items
from_any b p [] e ih h = cc
from_any b p (c ∷ s) e ih h = underscore e (ih s h)

-- A literal matches the first rune, and the rest matches the others.
literal_inv :
    (b : ℕ) (items : List Item) (s : List ℕ)
    → match_items (literal b ∷ items) s ≡ true
    → (c : ℕ) × (t : List ℕ) × (s ≡ c ∷ t)
      × (fold_rune b ≡ fold_rune c)
      × (match_items items t ≡ true)
unfolding match_items
literal_inv b items [] h = absurd cc
literal_inv b items (c ∷ t) h =
    let both = and_eq_true (fold_rune b == fold_rune c) (match_items items t) h in
    (c, t, refl, (==_iff (fold_rune b) (fold_rune c)).0 both.0, both.1)

from_literal :
    (b : ℕ) (p s : List ℕ)
    → is_plain b ≡ true
    → Sound p
    → match_items (literal b ∷ compile false p) s ≡ true
    → Like (b ∷ p) s
from_literal b p s e ih h =
    let (c, t, eq, same, rest) = literal_inv b (compile false p) s h in
    rw eq (plain e same (ih t rest))

from_escaped :
    (b d : ℕ) (p s : List ℕ)
    → b ≡ b'\\'
    → Sound p
    → match_items (literal d ∷ compile false p) s ≡ true
    → Like (b ∷ d ∷ p) s
from_escaped b d p s e ih h =
    let (c, t, eq, same, rest) = literal_inv d (compile false p) s h in
    rw eq (escaped e same (ih t rest))

nothing_left : (t : List ℕ) → match_items [] t ≡ true → t ≡ []
unfolding match_items
nothing_left [] h = refl
nothing_left (c ∷ t) h = absurd cc

from_trailing :
    (b : ℕ) (s : List ℕ) → b ≡ b'\\' → match_items (literal b'\\' ∷ []) s ≡ true → Like (b ∷ []) s
from_trailing b s e h =
    let (c, t, eq, same, rest) = literal_inv b'\\' [] s h in
    rw (eq, nothing_left t rest) (trailing e (ap fold_rune e ∙ same))

-- The ways on from the first rune of a pattern.
from_first :
    (b : ℕ) (p s : List ℕ)
    → (b ≡ b'\\' → match_items (compile true p) s ≡ true → Like (b ∷ p) s)
    → Sound p
    → match_items (compile false (b ∷ p)) s ≡ true
    → Like (b ∷ p) s
unfolding compile
from_first b p s backslash ih h = elim (rune_kind b) [
  | inl e ↦ backslash e (rw e at h)
  | inr (inl e) ↦ from_run b p s e ih (rw e at h)
  | inr (inr (inl e)) ↦ from_any b p s e ih (rw e at h)
  | inr (inr (inr e)) ↦
      from_literal b p s e ih (ap (λ items. match_items items s) (sym (compile-plain b p e)) ∙ h)
]

Like-match_items : (p : List ℕ) → Sound p
unfolding compile
Like-match_items [] s h = rw (nothing_left s h) both_end
Like-match_items (b ∷ []) s h = from_first b [] s (from_trailing b s) (Like-match_items []) h
Like-match_items (b ∷ d ∷ p) s h =
    from_first b (d ∷ p) s (λ e. from_escaped b d p s e (Like-match_items p))
      (Like-match_items (d ∷ p)) h

run_skip :
    (items : List Item) (s : List ℕ)
    → match_items items s ≡ true
    → match_items (any_run ∷ items) s ≡ true
unfolding match_items
run_skip items [] h = h
run_skip items (c ∷ s) h = rw h

run_more :
    (items : List Item) (c : ℕ) (s : List ℕ)
    → match_items (any_run ∷ items) s ≡ true
    → match_items (any_run ∷ items) (c ∷ s) ≡ true
unfolding match_items
run_more items c s h = elim (Bool-cases (match_items items (c ∷ s))) [
  | inl now ↦ rw now refl
  | inr on ↦ rw on h
]

match_items-Like : {p s : List ℕ} → Like p s → match_items (compile false p) s ≡ true
unfolding compile match_items
match_items-Like both_end = refl
match_items-Like (percent_none {p} {s} e d) =
    rw e (run_skip (compile false p) s (match_items-Like d))
match_items-Like (percent_more {b} {c} {p} {s} e d) =
    rw e (run_more (compile false p) c s (rw e at (match_items-Like d)))
match_items-Like (underscore e d) = rw e (match_items-Like d)
match_items-Like (escaped {d = x} {c} e same d) =
    rw e (rw ((==_iff (fold_rune x) (fold_rune c)).1 same) (match_items-Like d))
match_items-Like (trailing {c} e same) =
    rw e (rw ((==_iff (fold_rune b'\\') (fold_rune c)).1 (ap fold_rune (sym e) ∙ same)) refl)
match_items-Like (plain {b} {c} {p} e same d) =
    rw (compile-plain b p e) (rw ((==_iff (fold_rune b) (fold_rune c)).1 same) (match_items-Like d))

-- The matcher compiled from a pattern accepts a text exactly if the runes of the text are LIKE those
-- of the pattern.
pub like_matcher_iff :
    (pattern s : Bytes) → (like_matcher pattern s ≡ true) ↔ Like (runes pattern) (runes s)
unfolding like_matcher
like_matcher_iff pattern s = (Like-match_items (runes pattern) (runes s), match_items-Like)
