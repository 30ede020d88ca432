-- ===== src/Sqltext/Redact.antt =====
-- internal/sqltext/sqltext.go, `Redact`.
pub mod Stable
use redash_wire.Common.{
  ℕ, Bool, true, false, List, [], ◌∷◌, ◌==◌, if◌then◌else◌, ◌≡◌, refl, arith, length, map,
}
use redash_wire.Common.Text.{Bytes}
use redash_wire.Sqltext.Mask.{Dialect, code_mask, mask_from}

-- The byte that `Redact` writes for one byte.
unfoldable pub redact_byte : Bool → ℕ → ℕ
redact_byte code c = if code then c else if c == b'\n' then b'\n' else b' '

-- The loop of `Redact`.
unfoldable pub apply_mask : List Bool → Bytes → Bytes
unfolding redact_byte
apply_mask (m ∷ ms) (c ∷ cs) = redact_byte m c ∷ apply_mask ms cs
apply_mask _ _ = []

unfoldable pub redact : Dialect → Bytes → Bytes
unfolding code_mask apply_mask
redact d sql = apply_mask (code_mask d sql) sql
