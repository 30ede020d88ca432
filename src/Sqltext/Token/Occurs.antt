-- ===== src/Sqltext/Token/Occurs.antt =====
-- internal/sqltext/sqltext.go: the search loop and the occurrences of a token.
use mathlib.Core.Option
use redash_wire.Common.{
  ℕ, zero, suc, ◌+◌, ◌-◌, ◌≤◌, ◌<◌, Bool, true, false, Option, none, some, [], ◌∷◌, length, drop,
  length-drop, drop-drop, ◌≡◌, ◌≢◌, ◌↔◌, refl, sym, inl, inr, Bool-cases, Option-cases, arith,
}
use redash_wire.Common.Text.{Bytes, index, has_prefix}
use redash_wire.Sqltext.Token.{search_from}

-- `tok` stands in `s` at `i`, where `accept` holds.
pub record Occurs (s tok : Bytes) (accept : ℕ → Bool) (from i : ℕ) : Type 0 where
  pub after : from ≤ i
  pub inside : i ≤ length s
  pub stands : has_prefix (drop i s) tok ≡ true
  pub accepted : accept i ≡ true

map-suc : (o : Option ℕ) (k : ℕ) → Option.map suc o ≡ some k → (j : ℕ) × (o ≡ some j) × (k ≡ suc j)
map-suc none k e = cc
map-suc (some j) k e = (j, refl, ground arith)

map-suc-none : (o : Option ℕ) → Option.map suc o ≡ none → o ≡ none
map-suc-none none e = refl
map-suc-none (some j) e = cc

pub index-some :
    (s p : Bytes) (k : ℕ) → index s p ≡ some k → (k ≤ length s) × (has_prefix (drop k s) p ≡ true)
unfolding index
index-some [] p zero e = ground arith
index-some [] p (suc k) e = ground arith
index-some (c ∷ s) p zero e = ground (arith, map-suc (index s p) 0)
index-some (c ∷ s) p (suc k) e = ground (arith, map-suc (index s p) (suc k), index-some s p k)

-- Nothing before the place that `index` gives, and nothing at all where it gives none.
pub index_first :
    (s p : Bytes) (j : ℕ)
    → has_prefix (drop j s) p ≡ true
    → j ≤ length s
    → (k : ℕ) × (index s p ≡ some k) × (k ≤ j)
unfolding index
index_first [] p zero h l = (0, ground arith, omega arith)
index_first [] p (suc j) h l = absurd (omega arith)
index_first (c ∷ s) p zero h l = (0, rw h, omega arith)
index_first (c ∷ s) p (suc j) h l = elim (Bool-cases (has_prefix (c ∷ s) p)) [
  | inl e ↦ (0, rw e, omega arith)
  | inr e ↦ let (k, f, b) = index_first s p j h (omega arith) in (suc k, rw (e, f), omega arith)
]

has_prefix_inside :
    (s : Bytes) (i t : ℕ) (ts : Bytes) → has_prefix (drop i s) (t ∷ ts) ≡ true → i < length s
unfolding has_prefix
has_prefix_inside [] zero t ts h = cc
has_prefix_inside [] (suc i) t ts h = cc
has_prefix_inside (c ∷ s) zero t ts h = omega arith
has_prefix_inside (c ∷ s) (suc i) t ts h = omega (arith, has_prefix_inside s i t ts h)

module _ (s : Bytes) (t : ℕ) (ts : Bytes) (accept : ℕ → Bool) where
  abbrev Found : ℕ → Type 0
  Found from = (i : ℕ) × Occurs s (t ∷ ts) accept from i

  -- A place found from a later start.
  Found-weaken : (from later : ℕ) → from ≤ later → Found later → Found from
  Found-weaken from later h (i, o) = (
    i,
    record { after = omega arith; inside = o.inside; stands = o.stands; accepted = o.accepted },
  )

  index_from :
      (from k : ℕ)
      → from ≤ length s
      → index (drop from s) (t ∷ ts) ≡ some k
      → (from + k < length s) × (has_prefix (drop (from + k) s) (t ∷ ts) ≡ true)
  index_from from k b e =
      let (_, h) = index-some (drop from s) (t ∷ ts) k e in
      let h' = rw (drop-drop s from k (from + k) refl) at h in
      (has_prefix_inside s (from + k) t ts h', h')

  search_from_sound :
      (fuel from : ℕ)
      → from ≤ length s
      → search_from fuel s (t ∷ ts) accept from ≡ true
      → Found from
  unfolding search_from
  search_from_sound zero from b h = cc
  search_from_sound (suc fuel) from b h = elim (Option-cases (index (drop from s) (t ∷ ts))) [
    | inl e ↦ cc (rw (e, search_from) at h)
    | inr (k, e) ↦
        let (inside, stands) = index_from from k b e in
        elim (Bool-cases (accept (from + k))) [
          | inl a ↦ (
            from + k,
            record { after = omega arith; inside = omega arith; stands = stands; accepted = a },
          )
          | inr a ↦
              Found-weaken from (from + k + 1) (omega arith)
                (search_from_sound fuel (from + k + 1) (omega arith) (rw (e, a, search_from) at h))
        ]
  ]

  later : (i j : ℕ) → accept i ≡ true → accept j ≡ false → j ≢ i
  later i j x y q = cc

  search_from_complete :
      (fuel from i : ℕ)
      → length s < from + fuel
      → Occurs s (t ∷ ts) accept from i
      → search_from fuel s (t ∷ ts) accept from ≡ true
  unfolding search_from
  search_from_complete zero from i f o = absurd (omega (arith, o.after, o.inside))
  search_from_complete (suc fuel) from i f o =
      let e : from + (i - from) ≡ i = omega (arith, o.after) in
      let (k, g, le) =
        index_first (drop from s) (t ∷ ts) (i - from)
          (rw (drop-drop s from (i - from) i (sym e)) o.stands)
          (omega (arith, length-drop from s, o.inside)) in
      elim (Bool-cases (accept (from + k))) [
        | inl a ↦ rw (g, a, search_from)
        | inr a ↦
            rw (g, a, search_from)
              (search_from_complete fuel (from + k + 1) i (omega arith) (record {
                after = omega (arith, later i (from + k) o.accepted a, o.after);
                inside = o.inside;
                stands = o.stands;
                accepted = o.accepted;
              }))
      ]

  -- With one round more than the text has bytes, the loop decides whether there is an accepted
  -- occurrence.
  pub search_from_iff : (search_from (suc (length s)) s (t ∷ ts) accept 0 ≡ true) ↔ Found 0
  search_from_iff = (
    search_from_sound (suc (length s)) 0 (omega arith),
    λ (i, o). search_from_complete (suc (length s)) 0 i (omega arith) o,
  )
