-- ===== src/Health/Checker/Interval.antt =====
-- internal/health/checker.go: how long the checker waits.
use redash_wire.Common.{
  inl, inr, ℕ, zero, suc, ◌+◌, ◌-◌, ◌*◌, ◌^◌, ◌%◌, ◌≤◌, ◌<◌, min, max, true, false, ltb,
  if◌then◌else◌, ◌≡◌, refl, sym, ap, List, ◌∙◌, arith, Bool-cases,
}
use native.Mathlib.Nat.{pow-suc, mul_assoc, mul_comm}
use redash_wire.Health.Gate.{kind_unreachable, kind_rejected, same_kind, status}
use redash_wire.Health.Checker.{Checker, double, signed_less, back_off, next_interval, Outcome}
use redash_wire.Health.Checker.Trace.{
  IsAt, failures_in, answered_in, open_after, cause_after, rejections_in,
}

double_small : (d : ℕ) → d < 2 ^ 62 → double d ≡ d * 2
unfolding double
double_small d h = omega arith

signed_less_small : (a b : ℕ) → a < 2 ^ 63 → b < 2 ^ 63 → signed_less a b ≡ ltb a b
unfolding signed_less
signed_less_small a b h k =
    let e : (a + 2 ^ 63) % 2 ^ 64 ≡ a + 2 ^ 63 = omega arith in
    let f : (b + 2 ^ 63) % 2 ^ 64 ≡ b + 2 ^ 63 = omega arith in rw (e, f) (ground arith)

le_mul_pow : (n d : ℕ) → d ≤ d * 2 ^ n
le_mul_pow zero d = omega arith
le_mul_pow (suc n) d =
    let ih = le_mul_pow n d in rw (pow-suc 2 n, sym (mul_assoc d (2 ^ n) 2)) (omega (arith, ih))

mul_pow-suc : (n d : ℕ) → d * 2 * 2 ^ n ≡ d * 2 ^ suc n
mul_pow-suc n d = rw (pow-suc 2 n, mul_assoc d 2 (2 ^ n), mul_comm 2 (2 ^ n)) refl

-- The back-off, capped: the wait doubles with each failure until it meets the limit.
back_off_lem :
    (n limit d : ℕ)
    → limit ≤ 2 ^ 62
    → d < 2 ^ 63
    → (let b = back_off n limit d in if signed_less b limit then b else limit)
      ≡ min (d * 2 ^ n) limit
unfolding back_off
back_off_lem zero limit d h k = rw (signed_less_small d limit k (omega arith)) (ground arith)
back_off_lem (suc n) limit d h k =
    let less = signed_less_small d limit k (omega arith) in
    elim (Bool-cases (ltb d limit)) [
      | inl l ↦
          let small : d < 2 ^ 62 = ground arith in
          let e = double_small d small in
          let ih = back_off_lem n limit (double d) h (omega (arith, e)) in
          rw (less ∙ l, back_off)
            (ih ∙ ap (λ x. min (x * 2 ^ n) limit) e ∙ ap (λ x. min x limit) (mul_pow-suc n d))
      | inr l ↦ rw (less ∙ l, back_off, less ∙ l) (ground (arith, le_mul_pow (suc n) d))
    ]

-- A proxy that has worked and whose Redash is unreachable is probed at the interval first and then
-- twice as late after each further failure, up to the longer of the offline limit and the interval.
pub next_interval-IsAt :
    (c : Checker) (past : List Outcome)
    → IsAt c past
    → answered_in past ≡ true
    → open_after c.threshold past ≡ false
    → rejections_in past ≡ 0
    → max c.max_offline c.interval ≤ 2 ^ 62
    → next_interval c
      ≡ min (c.interval * 2 ^ (failures_in past - c.threshold)) (max c.max_offline c.interval)
unfolding next_interval same_kind status
next_interval-IsAt c past h answered closed calm small =
    let up : c.gate.up ≡ false = h.up ∙ closed in
    let kind : c.gate.kind ≡ kind_unreachable = rw (h.kind, closed, calm) refl in
    let ever_up : c.ever_up ≡ true = h.ever_up ∙ answered in
    let b =
      back_off_lem (failures_in past - c.threshold) (max c.max_offline c.interval) c.interval small
        (omega arith) in
    rw (up, kind, ever_up, h.failures) b

-- A failure that the threshold absorbed is settled by the next probe after the confirm delay.
next_interval_absorbed :
    (c : Checker) (past : List Outcome)
    → IsAt c past
    → open_after c.threshold past ≡ true
    → 0 < failures_in past
    → next_interval c ≡ c.confirm_delay
unfolding next_interval same_kind status
next_interval_absorbed c past h o f = ground arith

-- Credentials that are believed to be rejected are not tried again before their own interval.
next_interval_rejected :
    (c : Checker) (past : List Outcome)
    → IsAt c past
    → open_after c.threshold past ≡ false
    → cause_after c.rejected_threshold past ≡ kind_rejected
    → next_interval c ≡ c.rejected_interval
unfolding next_interval same_kind status
next_interval_rejected c past h o k = ground arith
