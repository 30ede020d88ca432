-- ===== src/Mysqlwire/Strip/Cuts.antt =====
-- internal/mysqlwire/handler.go, `stripDBQualifier`: it only cuts.
use redash_wire.Common.{
  ℕ, zero, suc, ◌+◌, ◌-◌, ◌≤◌, Bool, not, ◌&&◌, ◌||◌, [], ◌∷◌, ◌++◌, ◌==◌, leb, if◌then◌else◌, ◌≡◌,
  refl, ap, arith, length, take, drop, take-append-drop, Bool-cases, inl, inr,
}
use mathlib.Core.Path.{subst}
use redash_wire.Common.Text.{Bytes, equal_fold, trim_right}
use redash_wire.Mysqlwire.Lexer.{is_space, run_len}
use redash_wire.Mysqlwire.Strip.{
  Context, Strip, slice, has_dot, is_from, identifier_in, identifier_at, cut_name, at_keyword,
  table_ref_keyword_at, strip_round, strip_loop, strip_context, strip_start, strip_db_qualifier,
}

-- The first text is the second with bytes left out.
pub data Cut : Bytes → Bytes → Type 0 where
  ended : Cut [] []
  kept : {c : ℕ} {s t : Bytes} → Cut s t → Cut (c ∷ s) (c ∷ t)
  left_out : {c : ℕ} {s t : Bytes} → Cut s t → Cut s (c ∷ t)

Cut-refl : (s : Bytes) → Cut s s
Cut-refl [] = ended
Cut-refl (c ∷ s) = kept (Cut-refl s)

Cut-all : (s : Bytes) → Cut [] s
Cut-all [] = ended
Cut-all (c ∷ s) = left_out (Cut-all s)

Cut-append : {s t u v : Bytes} → Cut s t → Cut u v → Cut (s ++ u) (t ++ v)
Cut-append ended k = k
Cut-append (kept h) k = kept (Cut-append h k)
Cut-append (left_out h) k = left_out (Cut-append h k)

Cut-take : (n m : ℕ) (s : Bytes) → n ≤ m → Cut (take n s) (take m s)
Cut-take zero m s h = Cut-all (take m s)
Cut-take (suc n) zero s h = absurd (omega arith)
Cut-take (suc n) (suc m) [] h = ended
Cut-take (suc n) (suc m) (c ∷ s) h = kept (Cut-take n m s (omega arith))

Cut-trans : {s t u : Bytes} → Cut s t → Cut t u → Cut s u
Cut-trans h ended = h
Cut-trans (kept h) (kept k) = kept (Cut-trans h k)
Cut-trans (left_out h) (kept k) = left_out (Cut-trans h k)
Cut-trans h (left_out k) = left_out (Cut-trans h k)

Cut-first :
    (p : ℕ → Bool) (c : ℕ) (r cs : Bytes)
    → r ≡ trim_right p cs
    → Cut r cs
    → Cut (trim_right p (c ∷ cs)) (c ∷ cs)
unfolding trim_right
Cut-first p c [] cs e h = elim (Bool-cases (p c)) [
  | inl y ↦ rw (← e) (rw y (Cut-all (c ∷ cs)))
  | inr n ↦ rw (← e) (rw n (kept (Cut-all cs)))
]
Cut-first p c (x ∷ r) cs e h = rw (← e) (kept h)

Cut-trim_right : (p : ℕ → Bool) (s : Bytes) → Cut (trim_right p s) s
unfolding trim_right
Cut-trim_right p [] = ended
Cut-trim_right p (c ∷ cs) = Cut-first p c (trim_right p cs) cs refl (Cut-trim_right p cs)

take-nil : (n : ℕ) → take {A = ℕ} n [] ≡ []
take-nil zero = refl
take-nil (suc n) = refl

take_split : (n m : ℕ) (s : Bytes) → n ≤ m → take m s ≡ take n s ++ take (m - n) (drop n s)
take_split zero m s h = let e : m - 0 ≡ m = omega arith in rw e refl
take_split (suc n) zero s h = absurd (omega arith)
take_split (suc n) (suc m) [] h = rw (take-nil (suc m - suc n)) refl
take_split (suc n) (suc m) (c ∷ s) h =
    let e : suc m - suc n ≡ m - n = omega arith in
    rw e (ap (λ t. c ∷ t) (take_split n m s (omega arith)))

-- What stands before `copied` in the output is the statement before it with bytes left out.
record IsCut (x : Context) (s : Strip) : Type 0 where
  pub behind : s.copied ≤ s.at
  pub cut : Cut s.out (take s.copied x.query)

-- A piece is copied, and what follows it up to `m` left out.
Cut-piece :
    (x : Context) (s : Strip) (piece : Bytes) (m : ℕ)
    → IsCut x s
    → s.copied ≤ m
    → Cut piece (take (m - s.copied) (drop s.copied x.query))
    → Cut (s.out ++ piece) (take m x.query)
Cut-piece x s piece m i h c = rw (take_split s.copied m x.query h) (Cut-append i.cut c)

IsCut-cut_name :
    (x : Context) (s : Strip) (b : Bool) (kw_start start end : ℕ)
    → IsCut x s
    → s.copied ≤ kw_start
    → kw_start ≤ start
    → start ≤ end
    → IsCut x (cut_name x s b kw_start start end)
unfolding cut_name
IsCut-cut_name x s b kw_start start end i h k l = elim (Bool-cases (has_dot x.query end)) [
  | inl dot ↦ rw dot (record {
    behind = omega arith;
    cut =
        Cut-piece x s (slice x.query s.copied start) (end + 1) i (omega arith)
          (Cut-take (start - s.copied) (end + 1 - s.copied) (drop s.copied x.query) (omega arith));
  })
  | inr no_dot ↦ elim (Bool-cases b) [
    | inl y ↦
        rw (no_dot, y)
          (record {
            behind = omega arith;
            cut =
                Cut-piece x s (trim_right is_space (slice x.query s.copied kw_start)) end i
                  (omega arith)
                  (Cut-trans (Cut-trim_right is_space (slice x.query s.copied kw_start)) (
                    Cut-take (kw_start - s.copied) (end - s.copied) (drop s.copied x.query)
                      (omega arith)));
          })
    | inr n ↦ rw (no_dot, n) i
  ]
]

le-identifier_in : (i : ℕ) (s : Bytes) → i ≤ (identifier_in i s).1
unfolding identifier_in
le-identifier_in i [] = omega arith
le-identifier_in i (c ∷ cs) = ground arith

-- A round leaves what is copied behind its place.
IsCut-at_keyword : (x : Context) (s : Strip) (kw : Bytes) → IsCut x s → IsCut x (at_keyword x s kw)
unfolding at_keyword identifier_at
IsCut-at_keyword x s kw i =
    let seen = if is_from kw then s.from_seen + 1 else s.from_seen in
    let names_database = is_from kw && (x.is_show && (not x.table_first || not (seen == 1))) in
    let past : Strip = record s { at = s.at + length kw; from_seen = seen } in
    let start = past.at + run_len is_space (drop past.at x.query) in
    let found = identifier_at x.query start in
    let safe : IsCut x past = record { behind = omega (arith, i.behind); cut = i.cut } in
    elim (Bool-cases (equal_fold found.0 x.db_name)) [
      | inl y ↦ rw y (
          IsCut-cut_name x past names_database s.at start found.1 safe i.behind (omega arith)
            (le-identifier_in start (drop start x.query)))
      | inr n ↦ rw n safe
    ]

IsCut-round_at :
    (x : Context) (s : Strip) (kw : Bytes)
    → kw ≡ table_ref_keyword_at x.red s.at x.first x.is_show
    → IsCut x s
    → IsCut x (strip_round x s)
unfolding strip_round
IsCut-round_at x s [] e i =
    rw (← e, strip_round) (record { behind = omega (arith, i.behind); cut = i.cut })
IsCut-round_at x s (c ∷ kw) e i = rw (← e, strip_round) (IsCut-at_keyword x s (c ∷ kw) i)

IsCut-strip_loop : (fuel : ℕ) (x : Context) (s : Strip) → IsCut x s → IsCut x (strip_loop fuel x s)
unfolding strip_loop
IsCut-strip_loop zero x s i = i
IsCut-strip_loop (suc fuel) x s i = elim (Bool-cases (leb (length x.red) s.at)) [
  | inl y ↦ rw y i
  | inr n ↦ rw n (
      IsCut-strip_loop fuel x (strip_round x s)
        (IsCut-round_at x s (table_ref_keyword_at x.red s.at x.first x.is_show) refl i))
]

Cut-rest : (s q : Bytes) (n : ℕ) → Cut s (take n q) → Cut (s ++ drop n q) q
Cut-rest s q n h =
    subst (λ t. Cut (s ++ drop n q) t) (take-append-drop n q) (Cut-append h (Cut-refl (drop n q)))

-- The statement that is sent on is the statement with bytes left out: nothing is put in its place or
-- moved.
pub Cut-strip_db_qualifier : (db query : Bytes) → Cut (strip_db_qualifier db query) query
unfolding strip_db_qualifier
Cut-strip_db_qualifier [] query = Cut-refl query
Cut-strip_db_qualifier (c ∷ db) query =
    let x = strip_context (c ∷ db) query in
    let end = strip_loop (length x.red) x strip_start in
    let done =
      IsCut-strip_loop (length x.red) x strip_start
        (record { behind = omega arith; cut = ended }) in
    Cut-rest end.out query end.copied done.cut
