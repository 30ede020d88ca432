-- ===== src/Tests/Health.antt =====
-- internal/health at concrete inputs.
use redash_wire.Common.{◌*◌, true, false, none, some, List, [], ◌∷◌, ◌≡◌, refl, arith}
use redash_wire.Common.Text.{codes}
use redash_wire.Redash.{Err}
use redash_wire.Redash.Views.{new_swappable_registry}
use redash_wire.Health.Gate.{kind_ok, kind_unreachable, kind_rejected, new_gate, client_message}
use redash_wire.Health.Checker.{
  Checker, Outcome, listed, failed, cancelled, Wake, timer_fired, suspicion, new_checker,
  next_interval, run_loop, second, suspicious,
}
use redash_wire.Health.Checker.Trace.{
  IsAt, state_after, rejections_in, state_after-IsAt, new_checker-IsAt,
}
use redash_wire.Health.Checker.Interval.{next_interval-IsAt}
use redash_wire.Health.Checker.App.{AppState, IsShown, last_listed, hear_all, hear_all-run_loop}

abbrev unreachable : Err
unreachable = record {
  http_status = none;
  query_error = none;
  context_ended = false;
  text = codes "i/o timeout";
}

abbrev forbidden : Err
forbidden = record {
  http_status = some 403;
  query_error = none;
  context_ended = false;
  text = codes "403";
}

abbrev bad_sql : Err
bad_sql = record {
  http_status = none;
  query_error = some (codes "syntax");
  context_ended = false;
  text = codes "syntax";
}

abbrev fresh : Checker
fresh = new_checker (new_swappable_registry []) new_gate

abbrev down_twice : List Outcome
down_twice = failed unreachable ∷ failed unreachable ∷ listed [] ∷ []

abbrev rejected_thrice : List Outcome
rejected_thrice = failed forbidden ∷ cancelled ∷ failed forbidden ∷ failed forbidden ∷ []

first_failure_is_absorbed :
    let c = state_after fresh (failed unreachable ∷ listed [] ∷ []) in
    (c.gate.up ≡ true) × (next_interval c ≡ second)
unfolding state_after next_interval new_checker new_gate redash_wire.Health.Checker.confirmed_kind
    redash_wire.Health.Checker.publish redash_wire.Health.Gate.recover
first_failure_is_absorbed = (refl, refl)

two_failures_close : (state_after fresh down_twice).gate.up ≡ false
unfolding state_after new_checker new_gate redash_wire.Health.Checker.confirmed_kind
    redash_wire.Health.Checker.publish redash_wire.Health.Gate.recover redash_wire.Health.Gate.fail
two_failures_close = refl

third_rejection_is_believed : (state_after fresh rejected_thrice).gate.kind ≡ kind_rejected
unfolding state_after new_checker new_gate redash_wire.Health.Checker.confirmed_kind
    redash_wire.Health.Gate.fail
third_rejection_is_believed = refl

suspicion_of_queries : (suspicious (some bad_sql) ≡ false) × (suspicious (some unreachable) ≡ true)
unfolding suspicious
suspicion_of_queries = (refl, refl)

fresh-IsAt : IsAt fresh []
fresh-IsAt = new_checker-IsAt (new_swappable_registry [])

state_after-IsAt_example : IsAt (state_after fresh rejected_thrice) rejected_thrice
state_after-IsAt_example = state_after-IsAt fresh rejected_thrice fresh-IsAt

down_twice-IsAt : IsAt (state_after fresh down_twice) down_twice
down_twice-IsAt = state_after-IsAt fresh down_twice fresh-IsAt

next_interval-IsAt_example : next_interval (state_after fresh down_twice) ≡ 10 * second
unfolding state_after new_checker new_gate rejections_in redash_wire.Health.Checker.confirmed_kind
    redash_wire.Health.Checker.publish redash_wire.Health.Gate.recover
    redash_wire.Health.Gate.same_kind
next_interval-IsAt_example =
    next_interval-IsAt (state_after fresh down_twice) down_twice down_twice-IsAt refl refl refl
      (omega arith)

abbrev blip : List Outcome
blip = failed unreachable ∷ listed [] ∷ []

abbrev app : AppState
app = record { kind = kind_ok; sources = none }

app-IsShown : IsShown app fresh
unfolding new_checker new_gate redash_wire.Health.Gate.same_kind
app-IsShown = record { kind = refl; last_kind = refl; up = refl; sources = refl; registry = refl }

abbrev wakes : List (Wake × Outcome)
wakes =
    (timer_fired, listed [])
    ∷ (suspicion, failed unreachable)
    ∷ (timer_fired, failed unreachable)
    ∷ []

hear_all-run_loop_example :
    IsShown (hear_all app (run_loop fresh wakes).1) (run_loop fresh wakes).0
    × ((run_loop fresh wakes).0.registry.current.all ≡ last_listed fresh.registry.current.all wakes)
hear_all-run_loop_example = hear_all-run_loop app fresh wakes app-IsShown
