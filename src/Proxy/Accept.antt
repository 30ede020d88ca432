-- ===== src/Proxy/Accept.antt =====
-- internal/proxy/server.go and internal/mysqlwire/server.go, `Serve`: the accept loop, which is the same in
-- both. What happens to it, from outside or by its own goroutines, is an event; durations are nanoseconds.
pub mod Sound
use redash_wire.Common.{
  ℕ, zero, suc, ◌+◌, ◌*◌, ◌≤◌, Bool, true, false, not, ◌||◌, ◌⊎◌, inl, inr, Option, none, some, min,
  ltb, ◌==◌, if◌then◌else◌, if_both, if_cases, ◌≡◌, refl, sym, arith,
}

abbrev pub max_concurrent_conns : ℕ
max_concurrent_conns = 200

abbrev pub accept_backoff_min : ℕ
accept_backoff_min = 5000000

abbrev pub accept_backoff_max : ℕ
accept_backoff_max = 1000000000

-- Where the loop stands: at `Accept`, before the semaphore with a connection, in the wait after an error,
-- at `wg.Wait`, or returned with an error or without one.
pub data Phase : Type 0 where
  accepting acquiring backing_off draining : Phase
  returned : Bool → Phase

pub record Loop : Type 0 where
  pub phase : Phase
  pub backoff : ℕ
  -- The sessions that run, each of which holds a place of the semaphore.
  pub in_flight : ℕ
  pub context_ended : Bool

pub data Event : Type 0 where
  accepted : Event
  -- An error of `Accept`, with whether it is `net.ErrClosed`.
  accept_failed : Bool → Event
  acquired : Event
  slept : Event
  -- A session returns or panics.
  session_ended : Event
  shut_down : Event
  waited : Event

unfoldable pub next_backoff : ℕ → ℕ
next_backoff b = if b == 0 then accept_backoff_min else min (2 * b) accept_backoff_max

on_accepted : Loop → Phase → Option Loop
on_accepted l accepting = some (record l { phase = acquiring; backoff = 0 })
on_accepted l _ = none

on_failed : Loop → Bool → Phase → Option Loop
unfolding next_backoff
on_failed l closed accepting =
    if l.context_ended || closed
    then some (record l { phase = draining })
    else some (record l { phase = backing_off; backoff = next_backoff l.backoff })
on_failed l closed _ = none

-- The semaphore has so many places.
on_acquired : Loop → Phase → Option Loop
on_acquired l acquiring =
    if ltb l.in_flight max_concurrent_conns
    then some (record l { phase = accepting; in_flight = suc l.in_flight })
    else none
on_acquired l _ = none

on_slept : Loop → Phase → Option Loop
on_slept l backing_off = some (record l { phase = accepting })
on_slept l _ = none

on_ended : Loop → ℕ → Option Loop
on_ended l zero = none
on_ended l (suc n) = some (record l { in_flight = n })

on_waited : Loop → Phase → ℕ → Option Loop
on_waited l draining zero =
    some (record l { phase = returned (not l.context_ended); in_flight = 0 })
on_waited l _ _ = none

-- What an event makes of the loop, if it can happen then.
unfoldable pub step : Loop → Event → Option Loop
unfolding on_accepted on_failed on_acquired on_slept on_ended on_waited
step l accepted = on_accepted l l.phase
step l (accept_failed closed) = on_failed l closed l.phase
step l acquired = on_acquired l l.phase
step l slept = on_slept l l.phase
step l session_ended = on_ended l l.in_flight
step l shut_down = some (record l { context_ended = true })
step l waited = on_waited l l.phase l.in_flight

abbrev pub at_first : Loop
at_first = record { phase = accepting; backoff = 0; in_flight = 0; context_ended = false }

-- A loop that some events lead to from another.
pub data Reaches : Loop → Loop → Type 0 where
  here : (l : Loop) → Reaches l l
  after : (l m n : Loop) (e : Event) → step l e ≡ some m → Reaches m n → Reaches l n

-- A loop that has returned has no sessions.
abbrev pub Rests : Phase → ℕ → Type 0
Rests (returned _) n = n ≡ 0
Rests _ n = Unit

-- No wait, or one within its bounds.
abbrev pub Waits : ℕ → Type 0
Waits b = (b ≡ 0) ⊎ ((accept_backoff_min ≤ b) × (b ≤ accept_backoff_max))

abbrev pub IsSound : Loop → Type 0
IsSound l = (l.in_flight ≤ max_concurrent_conns) × Waits l.backoff × Rests l.phase l.in_flight
