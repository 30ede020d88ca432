-- ===== src/Tests/Accept.antt =====
-- The accept loop of internal/proxy and internal/mysqlwire at concrete inputs.
use redash_wire.Common.{true, false, Option, none, some, List, [], ◌∷◌, inl, ◌≡◌, refl, arith}
use redash_wire.Proxy.Accept.{
  Loop, Event, accepting, acquiring, backing_off, returned, accepted, accept_failed, acquired,
  slept, session_ended, shut_down, waited, next_backoff, step, at_first, Reaches, here, after,
  IsSound,
}
use redash_wire.Proxy.Accept.Sound.{IsSound-Reaches}

-- What a list of events makes of the loop.
abbrev steps : Option Loop → List Event → Option Loop
unfolding step
steps none es = none
steps (some l) [] = some l
steps (some l) (e ∷ es) = steps (step l e) es

two_errors :
    steps (some at_first) (accept_failed false ∷ slept ∷ accept_failed false ∷ [])
    ≡ some
        (record { phase = backing_off; backoff = 10000000; in_flight = 0; context_ended = false })
unfolding steps step
two_errors = refl

wait_capped : next_backoff 640000000 ≡ 1000000000
unfolding next_backoff
wait_capped = refl

-- After the shutdown the loop waits for the session that still runs.
drained :
    steps
      (some at_first)
      (accepted ∷ acquired ∷ shut_down ∷ accept_failed true ∷ session_ended ∷ waited ∷ [])
    ≡ some (record { phase = returned false; backoff = 0; in_flight = 0; context_ended = true })
unfolding steps step
drained = refl

not_drained :
    steps (some at_first) (accepted ∷ acquired ∷ shut_down ∷ accept_failed true ∷ waited ∷ [])
    ≡ none
unfolding steps step
not_drained = refl

abbrev one_session : Loop
one_session = record { phase = accepting; backoff = 0; in_flight = 1; context_ended = false }

abbrev with_conn : Loop
with_conn = record at_first { phase = acquiring }

to_one_session : Reaches at_first one_session
unfolding step
to_one_session =
    after at_first with_conn one_session accepted refl
      (after with_conn one_session one_session acquired refl (here one_session))

IsSound-Reaches_example : IsSound one_session
IsSound-Reaches_example =
    IsSound-Reaches at_first one_session to_one_session (omega arith, inl refl, tt)
