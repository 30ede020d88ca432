-- ===== src/Health/Checker/App.antt =====
-- internal/health/checker.go: what the menu bar app knows from the log events.
use redash_wire.Common.{
  Bool, true, false, sym, ◌∙◌, Option, none, some, List, [], ◌∷◌, ◌++◌, ◌≡◌, refl, ap, arith,
  Bool-cases, inl, inr,
}
use redash_wire.Redash.{DataSource, Err}
use redash_wire.Redash.Registry.{new_data_source_registry}
use redash_wire.Redash.Views.Same.{same_views_eq, all-new_data_source_registry}
use redash_wire.Redash.Views.{
  DataSourceView, same_views, new_data_source_views, SwappableRegistry, replace,
}
use redash_wire.Health.Gate.{Kind, kind_ok, same_kind, fail, recover, take_suspicion}
use redash_wire.Health.Checker.{
  Event, redash_up, redash_down, data_sources_refreshed, Checker, Outcome, listed, failed,
  cancelled, Wake, timer_fired, suspicion, confirm, confirmed_kind, publish, publish_views,
  record_success, record_failure, probe, run_loop,
}

-- What the app shows: the state of Redash, and the list of data sources.
pub record AppState : Type 0 where
  pub kind : Kind
  pub sources : Option (List DataSourceView)

unfoldable pub hear : AppState → Event → AppState
hear a (redash_up _) = record a { kind = kind_ok }
hear a (redash_down kind _ _) = record a { kind = kind }
hear a (data_sources_refreshed views) = record a { sources = some views }
hear a _ = a

unfoldable pub hear_all : AppState → List Event → AppState
unfolding hear
hear_all a [] = a
hear_all a (e ∷ log) = hear_all (hear a e) log

hear_all-append :
    (a : AppState) (log more : List Event)
    → hear_all a (log ++ more) ≡ hear_all (hear_all a log) more
unfolding hear_all
hear_all-append a [] more = refl
hear_all-append a (e ∷ log) more = hear_all-append (hear a e) log more

-- The list of the data sources in `sources`, once Redash has worked, and none before.
abbrev pub ShowsList : Bool → Option (List DataSourceView) → List DataSource → Type 0
ShowsList true shown sources = shown ≡ some (new_data_source_views sources)
ShowsList false shown sources = shown ≡ none

-- The app shows the kind of the gate and the list of the registry that the sessions look names up in,
-- and the gate is open exactly when that kind is `kind_ok`. The checker remembers the list last
-- published.
pub record IsShown (a : AppState) (c : Checker) : Type 0 where
  pub kind : a.kind ≡ c.gate.kind
  pub last_kind : c.last_kind ≡ c.gate.kind
  pub up : c.gate.up ≡ same_kind c.gate.kind kind_ok
  pub sources : a.sources ≡ c.fingerprint
  pub registry : ShowsList c.ever_up a.sources c.registry.current.all

-- Published or found unchanged, the list to remember is the new one.
publish_views-some :
    (old : Option (List DataSourceView)) (views : List DataSourceView)
    → (publish_views old views).0 ≡ some views
unfolding publish_views
publish_views-some none views = refl
publish_views-some (some old) views = elim (Bool-cases (same_views views old)) [
  | inl s ↦ rw s (ap some (sym (same_views_eq views old s)))
  | inr d ↦ rw d refl
]

publish_heard :
    (a : AppState) (old : Option (List DataSourceView)) (views : List DataSourceView)
    → a.sources ≡ old
    → let (now, event) = publish_views old views in hear a event ≡ record a { sources = now }
unfolding publish_views hear
publish_heard a none views h = refl
publish_heard a (some old) views h = elim (Bool-cases (same_views views old)) [
  | inl s ↦ rw (s, hear) (ap (λ x. record a { sources = x }) h)
  | inr d ↦ rw (d, hear) refl
]

IsShown-listed :
    (a : AppState) (c : Checker) (sources : List DataSource)
    → IsShown a c
    → let (c', log) = record_success c sources in IsShown (hear_all a log) c'
unfolding record_success publish publish_views recover hear_all hear same_kind replace
    new_data_source_registry
IsShown-listed a c sources h =
    let views = new_data_source_views sources in
    let heard = publish_heard a c.fingerprint views h.sources in
    let shown =
      publish_views-some c.fingerprint views
      ∙ ap (λ x. some (new_data_source_views x)) (sym (all-new_data_source_registry sources)) in
    rw heard (elim (Bool-cases c.gate.up) [
      | inl u ↦ rw u (record {
        kind = ground arith;
        last_kind = refl;
        up = refl;
        sources = refl;
        registry = shown;
      })
      | inr d ↦
          rw d
            (record { kind = refl; last_kind = refl; up = refl; sources = refl; registry = shown })
    ])

ShowsList-kept :
    (b b' : Bool) (shown shown' : Option (List DataSourceView)) (r r' : SwappableRegistry)
    → r' ≡ r
    → b' ≡ b
    → shown' ≡ shown
    → ShowsList b shown r.current.all
    → ShowsList b' shown' r'.current.all
ShowsList-kept b b' shown shown' r r' e f g h = rw (e, f, g) h

-- A failure leaves the registry and the list alone.
record_failure_keeps :
    (a : AppState) (c : Checker) (err : Err)
    → let (c', log) = record_failure c err in
      (c'.registry ≡ c.registry) × (c'.ever_up ≡ c.ever_up) × ((hear_all a log).sources ≡ a.sources)
unfolding record_failure confirmed_kind hear_all hear
record_failure_keeps a c err = (ground arith, ground arith, ground arith)

IsShown-failed :
    (a : AppState) (c : Checker) (err : Err)
    → IsShown a c
    → let (c', log) = record_failure c err in IsShown (hear_all a log) c'
unfolding record_failure confirmed_kind confirm fail hear_all hear same_kind
IsShown-failed a c err h = record {
  kind = ground arith;
  last_kind = ground arith;
  up = ground arith;
  sources = ground arith;
  registry =
      let (r, e, s) = record_failure_keeps a c err in ShowsList-kept _ _ _ _ _ _ r e s h.registry;
}

IsShown-probed : (a : AppState) (c : Checker) → IsShown a c → IsShown a (record c { probed = true })
IsShown-probed a c h = record {
  kind = h.kind;
  last_kind = h.last_kind;
  up = h.up;
  sources = h.sources;
  registry = h.registry;
}

IsShown-take_suspicion :
    (a : AppState) (c : Checker)
    → IsShown a c
    → IsShown a (record c { gate = take_suspicion c.gate })
unfolding take_suspicion
IsShown-take_suspicion a c h = record {
  kind = h.kind;
  last_kind = h.last_kind;
  up = h.up;
  sources = h.sources;
  registry = h.registry;
}

IsShown-probe :
    (a : AppState) (c : Checker) (o : Outcome)
    → IsShown a c
    → let (c', log) = probe c o in IsShown (hear_all a log) c'
unfolding probe hear_all
IsShown-probe a c (listed sources) h =
    IsShown-listed a (record c { probed = true }) sources (IsShown-probed a c h)
IsShown-probe a c (failed err) h =
    IsShown-failed a (record c { probed = true }) err (IsShown-probed a c h)
IsShown-probe a c cancelled h = IsShown-probed a c h

-- The list of the last probe that Redash answered, `now` where it answered none.
abbrev pub last_listed : List DataSource → List (Wake × Outcome) → List DataSource
last_listed now [] = now
last_listed now ((w, listed sources) ∷ rest) = last_listed sources rest
last_listed now ((w, failed err) ∷ rest) = last_listed now rest
last_listed now ((w, cancelled) ∷ rest) = last_listed now rest

probe_registry :
    (a : AppState) (c : Checker) (w : Wake) (o : Outcome) (rest : List (Wake × Outcome))
    → last_listed (probe c o).0.registry.current.all rest
      ≡ last_listed c.registry.current.all ((w, o) ∷ rest)
unfolding probe record_success publish replace record_failure confirmed_kind
probe_registry a c w (listed sources) rest =
    ap (λ x. last_listed x rest) (all-new_data_source_registry sources)
probe_registry a c w (failed err) rest =
    ap (λ (x : SwappableRegistry). last_listed x.current.all rest)
      (record_failure_keeps a (record c { probed = true }) err).0
probe_registry a c w cancelled rest = refl

-- An app that shows the state of the gate and the data sources of the registry, and then hears the
-- log events of the checker, still shows both after any number of probes, started by the timer or by
-- a suspicion; and the registry then holds the list of the last probe that Redash answered.
pub hear_all-run_loop :
    (a : AppState) (c : Checker) (wakes : List (Wake × Outcome))
    → IsShown a c
    → let (c', log) = run_loop c wakes in
      IsShown (hear_all a log) c'
      × (c'.registry.current.all ≡ last_listed c.registry.current.all wakes)
unfolding run_loop hear_all
hear_all-run_loop a c [] h = (h, refl)
hear_all-run_loop a c ((timer_fired, o) ∷ rest) h =
    let on =
      hear_all-run_loop (hear_all a (probe c o).1) (probe c o).0 rest (IsShown-probe a c o h) in
    (
      rw (hear_all-append a (probe c o).1 (run_loop (probe c o).0 rest).1) on.0,
      on.1 ∙ probe_registry a c timer_fired o rest,
    )
hear_all-run_loop a c ((suspicion, o) ∷ rest) h =
    let d = record c { gate = take_suspicion c.gate } in
    let on =
      hear_all-run_loop (hear_all a (probe d o).1) (probe d o).0 rest
        (IsShown-probe a d o (IsShown-take_suspicion a c h)) in
    (
      rw (hear_all-append a (probe d o).1 (run_loop (probe d o).0 rest).1) on.0,
      on.1 ∙ probe_registry a d suspicion o rest,
    )
