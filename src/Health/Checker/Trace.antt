-- ===== src/Health/Checker/Trace.antt =====
-- internal/health/checker.go: the state of the checker as a function of what its probes met.
use redash_wire.Common.{
  ℕ, suc, Bool, true, false, ◌&&◌, ◌||◌, List, [], ◌∷◌, ltb, leb, ◌==◌, if◌then◌else◌, ◌≡◌, refl,
  arith,
}
use redash_wire.Redash.{DataSource, Err}
use redash_wire.Redash.Views.{SwappableRegistry}
use redash_wire.Health.Gate.{
  Kind, kind_ok, kind_unreachable, kind_rejected, same_kind, new_gate, fail, recover,
}
use redash_wire.Health.Checker.{
  confirm, Checker, Outcome, listed, failed, cancelled, new_checker, classify, confirmed_kind,
  publish, record_success, record_failure, probe,
}

-- The state after a list of outcomes, the newest first.
unfoldable pub state_after : Checker → List Outcome → Checker
unfolding probe
state_after c [] = c
state_after c (o ∷ past) = (probe (state_after c past) o).0

-- The failures since the last success.
abbrev pub failures_in : List Outcome → ℕ
failures_in [] = 0
failures_in (listed _ ∷ past) = 0
failures_in (failed _ ∷ past) = suc (failures_in past)
failures_in (cancelled ∷ past) = failures_in past

-- The rejections since the last outcome of another kind.
unfoldable pub rejections_in : List Outcome → ℕ
rejections_in [] = 0
rejections_in (listed _ ∷ past) = 0
rejections_in (failed e ∷ past) =
    let n = rejections_in past in if same_kind (classify e) kind_rejected then suc n else 0
rejections_in (cancelled ∷ past) = rejections_in past

-- Whether Redash ever answered.
abbrev pub answered_in : List Outcome → Bool
answered_in [] = false
answered_in (listed _ ∷ past) = true
answered_in (failed _ ∷ past) = answered_in past
answered_in (cancelled ∷ past) = answered_in past

-- Whether the gate is to be open: no failure since the last success, or too few of them to believe
-- in a proxy that has worked.
abbrev pub open_after : ℕ → List Outcome → Bool
open_after threshold past =
    failures_in past == 0 || (answered_in past && ltb (failures_in past) threshold)

-- What a closed gate says.
abbrev pub cause_after : ℕ → List Outcome → Kind
cause_after rejected_threshold past =
    if ltb 0 (rejections_in past) && leb rejected_threshold (rejections_in past)
    then kind_rejected
    else kind_unreachable

-- A checker whose counters, gate and last kind are those that the outcomes call for.
pub record IsAt (c : Checker) (past : List Outcome) : Type 0 where
  pub failures : c.failures ≡ failures_in past
  pub rejections : c.rejections ≡ rejections_in past
  pub ever_up : c.ever_up ≡ answered_in past
  pub up : c.gate.up ≡ open_after c.threshold past
  pub kind :
      c.gate.kind
      ≡ (if open_after c.threshold past then kind_ok else cause_after c.rejected_threshold past)
  pub last_kind : c.last_kind ≡ c.gate.kind

IsAt-listed :
    (c : Checker) (past : List Outcome) (sources : List DataSource)
    → IsAt c past
    → IsAt (record_success c sources).0 (listed sources ∷ past)
unfolding record_success publish recover rejections_in
IsAt-listed c past sources h = record {
  failures = refl;
  rejections = refl;
  ever_up = refl;
  up = refl;
  kind = refl;
  last_kind = refl;
}

IsAt-failed :
    (c : Checker) (past : List Outcome) (err : Err)
    → IsAt c past
    → IsAt (record_failure c err).0 (failed err ∷ past)
unfolding record_failure confirmed_kind confirm fail rejections_in same_kind
IsAt-failed c past err h = record {
  failures = ground arith;
  rejections = ground arith;
  ever_up = ground arith;
  up = ground arith;
  kind = ground arith;
  last_kind = ground arith;
}

IsAt-probe :
    (c : Checker) (past : List Outcome) (o : Outcome) → IsAt c past → IsAt (probe c o).0 (o ∷ past)
unfolding probe rejections_in
IsAt-probe c past (listed sources) h =
    IsAt-listed (record c { probed = true }) past sources
      (record {
        failures = h.failures;
        rejections = h.rejections;
        ever_up = h.ever_up;
        up = h.up;
        kind = h.kind;
        last_kind = h.last_kind;
      })
IsAt-probe c past (failed err) h =
    IsAt-failed (record c { probed = true }) past err
      (record {
        failures = h.failures;
        rejections = h.rejections;
        ever_up = h.ever_up;
        up = h.up;
        kind = h.kind;
        last_kind = h.last_kind;
      })
IsAt-probe c past cancelled h = record {
  failures = h.failures;
  rejections = h.rejections;
  ever_up = h.ever_up;
  up = h.up;
  kind = h.kind;
  last_kind = h.last_kind;
}

-- Whatever the options are and whatever the probes of a new checker met, its counters are the
-- failures and rejections in a row, its gate is closed exactly from the first failure of a proxy
-- that never worked, or the failure that reaches the threshold, to the next success, and a closed
-- gate blames the credentials exactly when the last rejections reach their own threshold.
pub state_after-IsAt :
    (c : Checker) (past : List Outcome) → IsAt c [] → IsAt (state_after c past) past
unfolding state_after
state_after-IsAt c [] h = h
state_after-IsAt c (o ∷ past) h = IsAt-probe (state_after c past) past o (state_after-IsAt c past h)

pub new_checker-IsAt : (registry : SwappableRegistry) → IsAt (new_checker registry new_gate) []
unfolding new_checker new_gate rejections_in
new_checker-IsAt registry = record {
  failures = refl;
  rejections = refl;
  ever_up = refl;
  up = refl;
  kind = refl;
  last_kind = refl;
}
