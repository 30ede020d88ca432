-- ===== src/Health/Checker.antt =====
-- internal/health/checker.go. A probe takes the outcome of its request as an argument and returns
-- the new state with the log events it emitted. Durations are nanoseconds.
pub mod Interval
pub mod Trace
pub mod App
use redash_wire.Common.{
  ℕ, zero, suc, ◌+◌, ◌-◌, ◌*◌, ◌/◌, ◌%◌, ◌^◌, max, min, Bool, true, false, not, ◌&&◌, ◌||◌, Option,
  none, some, List, [], ◌∷◌, ◌++◌, length, ltb, if◌then◌else◌,
}
use redash_wire.Common.Text.{Bytes}
use redash_wire.Redash.{DataSource, Err, is_fatal_status}
use redash_wire.Redash.Views.{
  DataSourceView, new_data_source_views, same_views, SwappableRegistry, replace,
}
use redash_wire.Health.Gate.{
  Kind, kind_ok, kind_unreachable, kind_rejected, same_kind, Gate, Status, fail, recover, status,
  take_suspicion,
}

-- The events of the log that the app reads; `probe_blip` is the debug line of an absorbed failure.
pub data Event : Type 0 where
  redash_up : ℕ → Event
  redash_down : Kind → Err → ℕ → Event
  redash_retry : Kind → Err → ℕ → Event
  data_sources_unchanged : ℕ → Event
  data_sources_refreshed : List DataSourceView → Event
  probe_blip : Kind → ℕ → Err → Event

pub record Checker : Type 0 where
  pub registry : SwappableRegistry
  pub gate : Gate
  pub interval : ℕ
  pub confirm_delay : ℕ
  pub rejected_interval : ℕ
  pub max_offline : ℕ
  pub timeout : ℕ
  pub startup_timeout : ℕ
  pub threshold : ℕ
  pub rejected_threshold : ℕ
  pub failures : ℕ
  pub rejections : ℕ
  pub probed : Bool
  pub ever_up : Bool
  pub last_kind : Kind
  pub fingerprint : Option (List DataSourceView)

abbrev pub second : ℕ
second = 1000000000

-- `NewChecker` without options.
unfoldable pub new_checker : SwappableRegistry → Gate → Checker
new_checker registry gate = record {
  registry = registry;
  gate = gate;
  interval = 10 * second;
  confirm_delay = second;
  rejected_interval = 300 * second;
  max_offline = 120 * second;
  timeout = 5 * second;
  startup_timeout = 10 * second;
  threshold = 2;
  rejected_threshold = 3;
  failures = 0;
  rejections = 0;
  probed = false;
  ever_up = false;
  last_kind = kind_ok;
  fingerprint = none;
}

unfoldable pub classify : Err → Kind
unfolding is_fatal_status
classify e = elim e.http_status [
  | none ↦ kind_unreachable
  | some code ↦ if is_fatal_status code then kind_rejected else kind_unreachable
]

-- `confirmedKind` on a kind, the rejections so far and the threshold.
unfoldable pub confirm : Kind → ℕ → ℕ → ℕ × Kind
confirm kind_rejected rejections threshold =
    let n = rejections + 1 in (n, if ltb n threshold then kind_unreachable else kind_rejected)
confirm kind rejections threshold = (0, kind)

unfoldable pub confirmed_kind : Checker → Err → Checker × Kind
unfolding confirm classify
confirmed_kind c e =
    let (rejections, kind) = confirm (classify e) c.rejections c.rejected_threshold in
    (record c { rejections = rejections }, kind)

-- `d *= 2` on an int64 seen as an unsigned word.
unfoldable pub double : ℕ → ℕ
double d = d * 2 % 2 ^ 64

-- `<` of two such words.
unfoldable pub signed_less : ℕ → ℕ → Bool
signed_less a b = ltb ((a + 2 ^ 63) % 2 ^ 64) ((b + 2 ^ 63) % 2 ^ 64)

-- The loop of `nextInterval`, which runs once for each failure above the threshold at most.
unfoldable pub back_off : ℕ → ℕ → ℕ → ℕ
unfolding double signed_less
back_off zero limit d = d
back_off (suc n) limit d = if signed_less d limit then back_off n limit (double d) else d

unfoldable pub next_interval : Checker → ℕ
unfolding status same_kind
next_interval c =
    let s = status c.gate in
    if not s.up && same_kind s.kind kind_rejected
    then c.rejected_interval
    else if s.up && ltb 0 c.failures
    then c.confirm_delay
    else if not s.up && c.ever_up
    then (let limit = max c.max_offline c.interval in
        let d = back_off (c.failures - c.threshold) limit c.interval in
        if signed_less d limit then d else limit)
    else c.interval

-- `publish` on the last list published: the list to remember and the event.
unfoldable pub publish_views :
    Option (List DataSourceView) → List DataSourceView → Option (List DataSourceView) × Event
unfolding same_views
publish_views none views = (some views, data_sources_refreshed views)
publish_views (some old) views =
    if same_views views old
    then (some old, data_sources_unchanged (length views))
    else (some views, data_sources_refreshed views)

unfoldable pub publish : Checker → List DataSource → Checker × Event
unfolding publish_views
publish c sources =
    let (fingerprint, event) = publish_views c.fingerprint (new_data_source_views sources) in
    (record c { fingerprint = fingerprint }, event)

unfoldable pub record_success : Checker → List DataSource → Checker × List Event
record_success c sources =
    let c1 = record c {
      failures = 0;
      rejections = 0;
      ever_up = true;
      last_kind = kind_ok;
      registry = replace c.registry sources;
    } in
    let (c2, event) = publish c1 sources in
    let (gate, moved) = recover c2.gate in
    let c3 = record c2 { gate = gate } in
    (c3, event ∷ (if moved then redash_up (length sources) ∷ [] else []))

unfoldable pub record_failure : Checker → Err → Checker × List Event
record_failure c err =
    let (c1, kind) = confirmed_kind (record c { failures = c.failures + 1 }) err in
    if c1.ever_up && ltb c1.failures c1.threshold && c1.gate.up
    then (c1, probe_blip kind c1.failures err ∷ [])
    else (let (gate, transitioned) = fail c1.gate kind err.text in
        let c2 = record c1 { gate = gate } in
        let retry_in = next_interval c2 / second in
        (
          record c2 { last_kind = kind },
          (if transitioned || not (same_kind kind c1.last_kind)
                then redash_down kind err retry_in
                else redash_retry kind err retry_in)
              ∷ [],
        ))

-- What came of `ListDataSources`: a list, an error, or an error because the parent context ended.
pub data Outcome : Type 0 where
  listed : List DataSource → Outcome
  failed : Err → Outcome
  cancelled : Outcome

-- The deadline that `Probe` gives its request.
unfoldable pub probe_timeout : Checker → ℕ
probe_timeout c = if c.ever_up then c.timeout else c.startup_timeout

unfoldable pub probe : Checker → Outcome → Checker × List Event
unfolding record_success record_failure
probe c (listed sources) = record_success (record c { probed = true }) sources
probe c (failed err) = record_failure (record c { probed = true }) err
probe c cancelled = (record c { probed = true }, [])

-- What the `select` of `Run` received.
pub data Wake : Type 0 where
  timer_fired : Wake
  suspicion : Wake

-- The loop of `Run` until the context ends.
unfoldable pub run_loop : Checker → List (Wake × Outcome) → Checker × List Event
unfolding probe
run_loop c [] = (c, [])
run_loop c ((timer_fired, o) ∷ rest) =
    let (c1, log) = probe c o in let (c2, more) = run_loop c1 rest in (c2, log ++ more)
run_loop c ((suspicion, o) ∷ rest) =
    let (c1, log) = probe (record c { gate = take_suspicion c.gate }) o in
    let (c2, more) = run_loop c1 rest in (c2, log ++ more)

unfoldable pub run : Checker → Outcome → List (Wake × Outcome) → Checker × List Event
unfolding run_loop probe
run c first rest =
    if c.probed
    then run_loop c rest
    else (let (c1, log) = probe c first in let (c2, more) = run_loop c1 rest in (c2, log ++ more))

-- `Suspicious`, for an error that is there.
unfoldable pub suspicious : Option Err → Bool
suspicious none = false
suspicious (some e) = not e.context_ended && elim e.query_error [ none ↦ true | some _ ↦ false ]
