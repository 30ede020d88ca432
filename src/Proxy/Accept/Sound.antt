-- ===== src/Proxy/Accept/Sound.antt =====
-- internal/proxy/server.go and internal/mysqlwire/server.go, `Serve`: what holds whatever happens.
use redash_wire.Common.{
  ℕ, zero, suc, Bool, ◌||◌, inl, inr, Option, none, some, ltb, if_both, if_cases, ◌≡◌, refl, sym,
  arith,
}
use redash_wire.Proxy.Accept.{
  max_concurrent_conns, Phase, accepting, acquiring, backing_off, draining, returned, Loop, Event,
  accepted, accept_failed, acquired, slept, session_ended, shut_down, waited, next_backoff,
  on_accepted, on_failed, on_acquired, on_slept, on_ended, on_waited, step, Reaches, here, after,
  Rests, Waits, IsSound,
}

-- A predicate on what there is.
abbrev Holds : (Loop → Type 0) → Option Loop → Type 0
Holds P none = Unit
Holds P (some l) = P l

Waits-next_backoff : (b : ℕ) → Waits b → Waits (next_backoff b)
unfolding next_backoff
Waits-next_backoff b (inl e) = rw e (inr (omega arith, omega arith))
Waits-next_backoff b (inr (lo, hi)) = inr (ground arith, ground arith)

Holds-some : (P : Loop → Type 0) (o : Option Loop) (l : Loop) → o ≡ some l → Holds P o → P l
Holds-some P none l e h = absurd cc
Holds-some P (some m) l e h = let same : m ≡ l = cc in rw (sym same) h

IsSound-on_accepted : (l : Loop) (p : Phase) → IsSound l → Holds IsSound (on_accepted l p)
unfolding on_accepted
IsSound-on_accepted l accepting (n, w, r) = (n, inl refl, tt)
IsSound-on_accepted l acquiring h = tt
IsSound-on_accepted l backing_off h = tt
IsSound-on_accepted l draining h = tt
IsSound-on_accepted l (returned b) h = tt

IsSound-on_failed :
    (l : Loop) (closed : Bool) (p : Phase) → IsSound l → Holds IsSound (on_failed l closed p)
unfolding on_failed
IsSound-on_failed l closed accepting (n, w, r) =
    if_both (Holds IsSound) (l.context_ended || closed) (some (record l { phase = draining }))
      (some (record l { phase = backing_off; backoff = next_backoff l.backoff })) (n, w, tt)
      (n, Waits-next_backoff l.backoff w, tt)
IsSound-on_failed l closed acquiring h = tt
IsSound-on_failed l closed backing_off h = tt
IsSound-on_failed l closed draining h = tt
IsSound-on_failed l closed (returned b) h = tt

IsSound-on_acquired : (l : Loop) (p : Phase) → IsSound l → Holds IsSound (on_acquired l p)
unfolding on_acquired
IsSound-on_acquired l acquiring (n, w, r) =
    if_cases (Holds IsSound) (ltb l.in_flight max_concurrent_conns)
      (some (record l { phase = accepting; in_flight = suc l.in_flight })) none
      (λ free. (ground arith, w, tt)) (λ _. tt)
IsSound-on_acquired l accepting h = tt
IsSound-on_acquired l backing_off h = tt
IsSound-on_acquired l draining h = tt
IsSound-on_acquired l (returned b) h = tt

IsSound-on_slept : (l : Loop) (p : Phase) → IsSound l → Holds IsSound (on_slept l p)
unfolding on_slept
IsSound-on_slept l backing_off (n, w, r) = (n, w, tt)
IsSound-on_slept l accepting h = tt
IsSound-on_slept l acquiring h = tt
IsSound-on_slept l draining h = tt
IsSound-on_slept l (returned b) h = tt

-- A loop at rest has no session that could end.
Rests-less : (p : Phase) (m n : ℕ) → m ≡ suc n → Rests p m → Rests p n
Rests-less accepting m n e r = tt
Rests-less acquiring m n e r = tt
Rests-less backing_off m n e r = tt
Rests-less draining m n e r = tt
Rests-less (returned b) m n e r = omega arith

IsSound-on_ended : (l : Loop) (m : ℕ) → l.in_flight ≡ m → IsSound l → Holds IsSound (on_ended l m)
unfolding on_ended
IsSound-on_ended l zero e h = tt
IsSound-on_ended l (suc m) e (n, w, r) = (omega arith, w, Rests-less l.phase l.in_flight m e r)

IsSound-on_waited : (l : Loop) (p : Phase) (m : ℕ) → IsSound l → Holds IsSound (on_waited l p m)
unfolding on_waited
IsSound-on_waited l draining zero (n, w, r) = (omega arith, w, refl)
IsSound-on_waited l draining (suc m) h = tt
IsSound-on_waited l accepting m h = tt
IsSound-on_waited l acquiring m h = tt
IsSound-on_waited l backing_off m h = tt
IsSound-on_waited l (returned b) m h = tt

IsSound-step : (l : Loop) (e : Event) → IsSound l → Holds IsSound (step l e)
unfolding step
IsSound-step l accepted h = IsSound-on_accepted l l.phase h
IsSound-step l (accept_failed closed) h = IsSound-on_failed l closed l.phase h
IsSound-step l acquired h = IsSound-on_acquired l l.phase h
IsSound-step l slept h = IsSound-on_slept l l.phase h
IsSound-step l session_ended h = IsSound-on_ended l l.in_flight refl h
IsSound-step l shut_down h = h
IsSound-step l waited h = IsSound-on_waited l l.phase l.in_flight h

-- Whatever happens from a state in which it holds: at most 200 sessions run, the wait after an error is
-- none or from 5 ms to 1 s, and a loop that has returned has left no session behind.
pub IsSound-Reaches : (l n : Loop) → Reaches l n → IsSound l → IsSound n
IsSound-Reaches l n (here k) h = h
IsSound-Reaches l n (after k m j e s r) h =
    IsSound-Reaches m n r (Holds-some IsSound (step l e) m s (IsSound-step l e h))
