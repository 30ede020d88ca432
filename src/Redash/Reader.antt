-- ===== src/Redash/Reader.antt =====
-- internal/redash/client.go, `maxBytesReader`: the body of an answer, read through the bound. The
-- reader below is the body that is left and, for each call, how much it hands out at most. The field
-- `remaining` never falls below zero, since no call reads more than it.
use redash_wire.Common.{
  ℕ, zero, suc, ◌+◌, ◌-◌, ◌*◌, ◌^◌, ◌≤◌, ◌<◌, min, Bool, true, false, List, [], ◌∷◌, ◌++◌, length,
  take, drop, ltb, ◌==◌, if◌then◌else◌, ◌≡◌, ◌≢◌, ◌⊎◌, refl, ==_iff, ap, ◌∙◌, arith, length-append,
  take-append-drop, append_assoc, Bool-cases, inl, inr,
}
use redash_wire.Common.Text.{Bytes}

pub record MaxBytesReader : Type 0 where
  pub body : Bytes
  pub remaining : ℕ

abbrev pub default_max_result_bytes : ℕ
default_max_result_bytes = 256 * 2 ^ 20

unfoldable pub new_max_bytes_reader : Bytes → ℕ → MaxBytesReader
new_max_bytes_reader body limit = record { body = body; remaining = limit + 1 }

-- What a call returns: bytes, or `errResultTooLarge`.
pub data ReadResult : Type 0 where
  read_bytes : Bytes → ReadResult
  result_too_large : ReadResult

-- `Read` with a buffer of `len` bytes, from a reader below that fills `most` of it at most.
unfoldable pub read : MaxBytesReader → ℕ → ℕ → MaxBytesReader × ReadResult
read m len most =
    if m.remaining == 0
    then (m, result_too_large)
    else (let p = if ltb m.remaining len then m.remaining else len in
        let chunk = take (min p most) m.body in
        (
          record m { body = drop (min p most) m.body; remaining = m.remaining - length chunk },
          read_bytes chunk,
        ))

-- Calls one after another: the bytes they read, and whether one of them failed.
unfoldable pub read_all : MaxBytesReader → List (ℕ × ℕ) → MaxBytesReader × Bytes × Bool
read_all m [] = (m, [], false)
read_all m ((len, most) ∷ calls) =
    let (m', r) = read m len most in
    let (last, bytes, failed) = read_all m' calls in
    elim r [ result_too_large ↦ (m, [], true) | read_bytes chunk ↦ (last, chunk ++ bytes, failed) ]

length-take_le : {A : Type 0} (n : ℕ) (xs : List A) → length (take n xs) ≤ n
length-take_le zero xs = omega arith
length-take_le (suc n) [] = omega arith
length-take_le (suc n) (x ∷ xs) = omega (arith, length-take_le n xs)

-- What the calls have read, what is left, and what may still be read.
record HasRead (m last : MaxBytesReader) (bytes : Bytes) (failed : Bool) : Type 0 where
  split : bytes ++ last.body ≡ m.body
  count : length bytes + last.remaining ≡ m.remaining
  full : failed ≡ true → last.remaining ≡ 0

HasRead-step :
    (m m' last : MaxBytesReader) (bytes : Bytes) (failed : Bool) (n : ℕ)
    → n ≤ m.remaining
    → m' ≡ record { body = drop n m.body; remaining = m.remaining - length (take n m.body) }
    → HasRead m' last bytes failed
    → HasRead m last (take n m.body ++ bytes) failed
HasRead-step m m' last bytes failed n h e k =
    let body : m'.body ≡ drop n m.body = ap (λ (x : MaxBytesReader). x.body) e in
    let remaining : m'.remaining ≡ m.remaining - length (take n m.body) =
      ap (λ (x : MaxBytesReader). x.remaining) e in
    record {
      split =
          append_assoc (take n m.body) bytes last.body
          ∙ ap (λ x. take n m.body ++ x) (k.split ∙ body)
          ∙ take-append-drop n m.body;
      count =
          omega (
            arith,
            k.count,
            remaining,
            length-append (take n m.body) bytes,
            length-take_le n m.body,
          );
      full = k.full;
    }

read_small :
    (m : MaxBytesReader) (len most : ℕ)
    → (m.remaining == 0) ≡ false
    → (n : ℕ) × (n ≤ m.remaining)
      × ((read m len most).0
          ≡ record { body = drop n m.body; remaining = m.remaining - length (take n m.body) })
      × ((read m len most).1 ≡ read_bytes (take n m.body))
unfolding read
read_small m len most p =
    let n = min (if ltb m.remaining len then m.remaining else len) most in
    (n, ground arith, rw (p, read) refl, rw (p, read) refl)

HasRead-read_all :
    (m : MaxBytesReader) (calls : List (ℕ × ℕ))
    → let (last, bytes, failed) = read_all m calls in HasRead m last bytes failed
unfolding read_all read
HasRead-read_all m [] = record { split = refl; count = omega arith; full = λ h. cc }
HasRead-read_all m ((len, most) ∷ calls) = elim (Bool-cases (m.remaining == 0)) [
  | inl z ↦
      rw (z, read_all, read)
        (record { split = refl; count = omega arith; full = λ _. ground arith })
  | inr p ↦
      let (n, small, state, result) = read_small m len most p in
      rw (result, read_all)
        (HasRead-step m (read m len most).0 _ _ _ n small state
          (HasRead-read_all (read m len most).0 calls))
]

read_spent :
    (m : MaxBytesReader) (len most : ℕ) → m.remaining ≡ 0 → (read m len most).1 ≡ result_too_large
unfolding read
read_spent m len most h = ground arith

take_some : (n c : ℕ) (cs : Bytes) → 0 < n → read_bytes (take n (c ∷ cs)) ≢ read_bytes []
take_some zero c cs h = absurd (omega arith)
take_some (suc n) c cs h = λ e. cc

-- A call with room for a byte that hands out none, and no error, has met the end of the body.
read_progress :
    (m : MaxBytesReader) (len most : ℕ) (body : Bytes)
    → m.body ≡ body
    → 0 < len
    → 0 < most
    → ((read m len most).1 ≢ read_bytes []) ⊎ (body ≡ [])
unfolding read
read_progress m len most [] e l k = inr refl
read_progress m len most (c ∷ cs) e l k = elim (Bool-cases (m.remaining == 0)) [
  | inl z ↦ inl (rw (z, read) (λ q. cc))
  | inr p ↦
      let n = min (if ltb m.remaining len then m.remaining else len) most in
      inl (rw (p, read) (rw e (take_some n c cs (ground arith))))
]

-- However a body is read through the bound, the bytes that come are its first ones, at most one more
-- than the limit, and a call fails only when more than the limit has come, so that no body within the
-- limit is refused. Nor is one cut short without an error: once more than the limit has come, the next
-- call fails, and a call with room for a byte that neither fails nor hands one out has met the end of
-- the body.
pub read_all-new_max_bytes_reader :
    (body : Bytes) (limit : ℕ) (calls : List (ℕ × ℕ)) (len most : ℕ)
    → 0 < len
    → 0 < most
    → let (last, bytes, failed) = read_all (new_max_bytes_reader body limit) calls in
      (bytes ++ last.body ≡ body)
      × (length bytes ≤ limit + 1)
      × ((failed ≡ false) ⊎ (limit < length body))
      × ((length bytes ≤ limit) ⊎ ((read last len most).1 ≡ result_too_large))
      × (((read last len most).1 ≢ read_bytes []) ⊎ (last.body ≡ []))
unfolding new_max_bytes_reader
read_all-new_max_bytes_reader body limit calls len most l k =
    let m = new_max_bytes_reader body limit in
    let h = HasRead-read_all m calls in
    let (last, bytes, failed) = read_all m calls in
    (
      h.split,
      omega (arith, h.count),
      elim (Bool-cases failed) [
        | inl f ↦
            inr (omega (arith, h.count, h.full f, length-append bytes last.body, ap length h.split))
        | inr f ↦ inl f
      ],
      elim (Bool-cases (last.remaining == 0)) [
        | inl z ↦ inr (read_spent last len most ((==_iff last.remaining 0).0 z))
        | inr p ↦ inl (let q : last.remaining ≢ 0 = ground arith in omega (arith, h.count))
      ],
      read_progress last len most last.body refl l k,
    )
