-- ===== src/Sqltext/Redact/Stable.antt =====
-- internal/sqltext/sqltext.go: what Redact does to text that it has redacted.
use redash_wire.Common.{
  ℕ, suc, ◌-◌, Bool, true, false, [], ◌∷◌, ◌==◌, ◌≡◌, refl, ap, ◌∙◌, arith, length, replicate, inl,
  inr, Bool-cases, drop,
}
use redash_wire.Common.Text.{Bytes}
use redash_wire.Sqltext.Mask.{
  Dialect, next_is, line_len, ident_len, dollar_len, region_len, mask_from, passed_len, code_mask,
}
use redash_wire.Sqltext.Redact.{redact_byte, apply_mask, redact}

-- `Redact`, with the mask made on the way.
unfoldable pub redact_from : Dialect → ℕ → Bytes → Bytes → Bytes
redact_from d skip before [] = []
redact_from d skip before (c ∷ cs) =
    let n = passed_len d true skip before c cs in
    redact_byte (n == 0) c ∷ redact_from d (n - 1) (c ∷ before) cs

redact_from-apply_mask :
    (d : Dialect) (skip : ℕ) (before cs : Bytes)
    → apply_mask (mask_from d true skip before cs) cs ≡ redact_from d skip before cs
unfolding redact_from mask_from apply_mask
redact_from-apply_mask d skip before [] = refl
redact_from-apply_mask d skip before (c ∷ cs) =
    ap (◌∷◌ (redact_byte (passed_len d true skip before c cs == 0) c))
      (redact_from-apply_mask d (passed_len d true skip before c cs - 1) (c ∷ before) cs)

-- A byte behind the current one that is no blank was there before.
next_is_cons :
    (x : ℕ) (code : Bool) (c : ℕ) (rs cs : Bytes)
    → (x == b' ') ≡ false
    → (x == b'\n') ≡ false
    → next_is x (redact_byte code c ∷ rs) ≡ true
    → next_is x (c ∷ cs) ≡ true
unfolding redact_byte
next_is_cons x code c rs cs h k e = ground arith

next_is-redact_from :
    (d : Dialect) (x skip : ℕ) (before cs : Bytes)
    → (x == b' ') ≡ false
    → (x == b'\n') ≡ false
    → next_is x (redact_from d skip before cs) ≡ true
    → next_is x cs ≡ true
unfolding redact_from
next_is-redact_from d x skip before [] h k e = e
next_is-redact_from d x skip before (c ∷ cs) h k e =
    next_is_cons x _ c (redact_from d (passed_len d true skip before c cs - 1) (c ∷ before) cs) cs h
      k e

-- A dollar quote opens behind a `$`.
abbrev opens : Bytes → Bool
opens cs = next_is b'$' (drop (ident_len cs) cs)

opens_cons :
    (code : Bool) (c : ℕ) (rs cs : Bytes)
    → (opens rs ≡ true → opens cs ≡ true)
    → opens (redact_byte code c ∷ rs) ≡ true
    → opens (c ∷ cs) ≡ true
unfolding redact_byte ident_len
opens_cons code c rs cs ih e = ground arith

opens-redact_from :
    (d : Dialect) (skip : ℕ) (before cs : Bytes)
    → opens (redact_from d skip before cs) ≡ true
    → opens cs ≡ true
unfolding redact_from
opens-redact_from d skip before [] e = e
opens-redact_from d skip before (c ∷ cs) e =
    opens_cons _ c _ cs
      (opens-redact_from d (passed_len d true skip before c cs - 1) (c ∷ before) cs) e

dollar_len-eq_zero : (cs : Bytes) → dollar_len cs ≡ 0 → opens cs ≡ false
unfolding dollar_len
dollar_len-eq_zero cs e = elim (Bool-cases (opens cs)) [
  | inl h ↦ absurd (ground (arith))
  | inr h ↦ h
]

dollar_len_closed : (cs : Bytes) → opens cs ≡ false → dollar_len cs ≡ 0
unfolding dollar_len
dollar_len_closed cs h = rw h

dollar_len-redact_from :
    (d : Dialect) (skip : ℕ) (before cs : Bytes)
    → dollar_len cs ≡ 0
    → dollar_len (redact_from d skip before cs) ≡ 0
dollar_len-redact_from d skip before cs e =
    elim (Bool-cases (opens (redact_from d skip before cs))) [
      | inl h ↦
          absurd (ground (arith, opens-redact_from d skip before cs h, dollar_len-eq_zero cs e))
      | inr h ↦ dollar_len_closed _ h
    ]

-- A byte that opens no region opens none in front of redacted text.
region_len-redact_from :
    (d : Dialect) (c : ℕ) (skip : ℕ) (b b' before cs : Bytes)
    → region_len d true b c cs ≡ 0
    → region_len d true b' c (redact_from d skip before cs) ≡ 0
unfolding region_len line_len
region_len-redact_from d c skip b b' before cs e = ground (
  arith,
  next_is-redact_from d b'-' skip before cs refl refl,
  next_is-redact_from d b'*' skip before cs refl refl,
  dollar_len-redact_from d skip before cs,
)

region_len_blank :
    (d : Dialect) (b cs : Bytes) (x : ℕ) → region_len d true b (redact_byte false x) cs ≡ 0
unfolding region_len redact_byte
region_len_blank d b cs x = ground arith

passed_len-eq_zero :
    (d : Dialect) (skip : ℕ) (before : Bytes) (c : ℕ) (cs : Bytes)
    → (passed_len d true skip before c cs == 0) ≡ true
    → region_len d true before c cs ≡ 0
unfolding passed_len
passed_len-eq_zero d skip before c cs h = ground arith

-- The first byte of redacted text is code.
region_len_head :
    (d : Dialect) (skip : ℕ) (b before : Bytes) (c : ℕ) (cs : Bytes)
    → let n = passed_len d true skip before c cs in
      region_len d true b (redact_byte (n == 0) c) (redact_from d (n - 1) (c ∷ before) cs) ≡ 0
unfolding redact_byte
region_len_head d skip b before c cs =
    let n = passed_len d true skip before c cs in
    elim (Bool-cases (n == 0)) [
      | inl h ↦ rw h (
          region_len-redact_from d c (n - 1) before b (c ∷ before) cs
            (passed_len-eq_zero d skip before c cs h))
      | inr h ↦ rw h (region_len_blank d b _ c)
    ]

mask_from_cons :
    (d : Dialect) (b : Bytes) (c : ℕ) (cs : Bytes)
    → region_len d true b c cs ≡ 0
    → mask_from d true 0 b (c ∷ cs) ≡ true ∷ mask_from d true 0 (c ∷ b) cs
unfolding mask_from passed_len
mask_from_cons d b c cs e = rw e

mask_from-redact_from :
    (d : Dialect) (skip : ℕ) (b before cs : Bytes)
    → mask_from d true 0 b (redact_from d skip before cs) ≡ replicate (length cs) true
unfolding redact_from
mask_from-redact_from d skip b before [] = unfold mask_from in refl
mask_from-redact_from d skip b before (c ∷ cs) =
    mask_from_cons d b _ _ (region_len_head d skip b before c cs)
    ∙ ap (◌∷◌ true)
        (mask_from-redact_from d (passed_len d true skip before c cs - 1) _ (c ∷ before) cs)

code_mask_lem : (d : Dialect) (sql : Bytes) → code_mask d sql ≡ mask_from d true 0 [] sql
unfolding code_mask
code_mask_lem d sql = refl

pub redact-apply_mask :
    (d : Dialect) (sql : Bytes) → redact d sql ≡ apply_mask (code_mask d sql) sql
unfolding redact
redact-apply_mask d sql = refl

pub redact_lem : (d : Dialect) (sql : Bytes) → redact d sql ≡ redact_from d 0 [] sql
redact_lem d sql =
    redact-apply_mask d sql
    ∙ ap (λ m. apply_mask m sql) (code_mask_lem d sql)
    ∙ redact_from-apply_mask d 0 [] sql

pub code_mask-redact :
    (d : Dialect) (sql : Bytes) → code_mask d (redact d sql) ≡ replicate (length sql) true
code_mask-redact d sql = rw (redact_lem d sql, code_mask_lem) (mask_from-redact_from d 0 [] [] sql)

apply_mask_code : (cs : Bytes) → apply_mask (replicate (length cs) true) cs ≡ cs
unfolding apply_mask redact_byte
apply_mask_code [] = refl
apply_mask_code (c ∷ cs) = ap (◌∷◌ c) (apply_mask_code cs)

length-redact_from :
    (d : Dialect) (skip : ℕ) (before cs : Bytes) → length (redact_from d skip before cs) ≡ length cs
unfolding redact_from
length-redact_from d skip before [] = refl
length-redact_from d skip before (c ∷ cs) =
    ap suc (length-redact_from d (passed_len d true skip before c cs - 1) (c ∷ before) cs)

-- `Redact` keeps the length of the text.
pub length-redact : (d : Dialect) (sql : Bytes) → length (redact d sql) ≡ length sql
length-redact d sql = rw redact_lem (length-redact_from d 0 [] sql)

-- Redacting a redacted text changes nothing.
pub redact-redact : (d : Dialect) (sql : Bytes) → redact d (redact d sql) ≡ redact d sql
redact-redact d sql =
    redact-apply_mask d (redact d sql)
    ∙ ap (λ m. apply_mask m (redact d sql)) (code_mask-redact d sql)
    ∙ rw (← length-redact d sql) (apply_mask_code (redact d sql))

length-mask_from :
    (d : Dialect) (protect : Bool) (skip : ℕ) (before cs : Bytes)
    → length (mask_from d protect skip before cs) ≡ length cs
unfolding mask_from
length-mask_from d protect skip before [] = refl
length-mask_from d protect skip before (c ∷ cs) =
    ap suc (length-mask_from d protect (passed_len d protect skip before c cs - 1) (c ∷ before) cs)

pub length-code_mask : (d : Dialect) (sql : Bytes) → length (code_mask d sql) ≡ length sql
length-code_mask d sql = rw code_mask_lem (length-mask_from d true 0 [] sql)
