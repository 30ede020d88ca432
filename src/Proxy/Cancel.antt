-- ===== src/Proxy/Cancel.antt =====
-- internal/proxy/server.go, the directory of sessions that a CancelRequest is looked up in, and
-- session.go's `cancelInFlight`. A cancellation is the ProcessID of the session whose query is
-- cancelled.
use redash_wire.Common.{
  ℕ, ◌+◌, Bool, true, false, ◌&&◌, Option, none, some, List, [], ◌∷◌, ◌==◌, if◌then◌else◌, ◌≡◌, All,
  Option-cases, and_eq_true, refl, sym, ap, ◌∙◌, Bool-cases, inl, inr, arith,
}
use redash_wire.Common.Text.{Bytes, equal, equal_iff}

pub record SessionCanceler : Type 0 where
  pub pid : ℕ
  pub secret : Bytes
  -- Whether a query is in flight (`queryCancel` is not nil).
  pub in_flight : Bool

abbrev pub Cancelers : Type 0
Cancelers = List SessionCanceler

unfoldable pub deregister_canceler : ℕ → Cancelers → Cancelers
deregister_canceler pid [] = []
deregister_canceler pid (c ∷ cs) =
    let rest = deregister_canceler pid cs in if c.pid == pid then rest else c ∷ rest

-- A write to the map replaces what was there.
unfoldable pub register_canceler : ℕ → Bytes → Cancelers → Cancelers
unfolding deregister_canceler
register_canceler pid secret cs =
    record { pid = pid; secret = secret; in_flight = false } ∷ deregister_canceler pid cs

unfoldable pub find_canceler : ℕ → Cancelers → Option SessionCanceler
find_canceler pid [] = none
find_canceler pid (c ∷ cs) = if c.pid == pid then some c else find_canceler pid cs

-- A session sets and clears its `queryCancel`.
unfoldable pub set_in_flight : ℕ → Bool → Cancelers → Cancelers
set_in_flight pid b [] = []
set_in_flight pid b (c ∷ cs) =
    let rest = set_in_flight pid b cs in
    if c.pid == pid then record c { in_flight = b } ∷ rest else c ∷ rest

-- `cancelByKey`: the sessions whose query it cancels.
unfoldable pub cancel_by_key : ℕ → Bytes → Cancelers → List ℕ
unfolding equal find_canceler
cancel_by_key pid secret cs = elim (find_canceler pid cs) [
  | none ↦ []
  | some c ↦ if equal c.secret secret && c.in_flight then pid ∷ [] else []
]

-- What happens to the directory.
pub data CancelEvent : Type 0 where
  opened : Bytes → CancelEvent
  closed : ℕ → CancelEvent
  query_started : ℕ → CancelEvent
  query_ended : ℕ → CancelEvent
  cancel_requested : ℕ → Bytes → CancelEvent

pub record Server : Type 0 where
  pub conn_seq : ℕ
  pub cancelers : Cancelers

-- `connSeq.Add(1)` wraps at 2^32 in the code; the number of connections of a run stays below.
unfoldable pub cancel_step : Server → CancelEvent → Server × List ℕ
unfolding register_canceler deregister_canceler set_in_flight cancel_by_key
cancel_step v (opened secret) =
    let pid = v.conn_seq + 1 in
    (record v { conn_seq = pid; cancelers = register_canceler pid secret v.cancelers }, [])
cancel_step v (closed pid) = (record v { cancelers = deregister_canceler pid v.cancelers }, [])
cancel_step v (query_started pid) =
    (record v { cancelers = set_in_flight pid true v.cancelers }, [])
cancel_step v (query_ended pid) = (record v { cancelers = set_in_flight pid false v.cancelers }, [])
cancel_step v (cancel_requested pid secret) = (v, cancel_by_key pid secret v.cancelers)

-- The directory after a list of events, the newest first.
unfoldable pub server_after : List CancelEvent → Server
unfolding cancel_step
server_after [] = record { conn_seq = 0; cancelers = [] }
server_after (e ∷ past) = (cancel_step (server_after past) e).0

-- The secret that the session `pid` was handed, if it was opened.
pub secret_of : ℕ → List CancelEvent → Option Bytes
secret_of pid [] = none
secret_of pid (opened secret ∷ past) =
    if (server_after past).conn_seq + 1 == pid then some secret else secret_of pid past
secret_of pid (_ ∷ past) = secret_of pid past

abbrev secret_in : Option SessionCanceler → Option Bytes
secret_in none = none
secret_in (some c) = some c.secret

find_canceler-deregister_canceler :
    (pid q : ℕ) (cs : Cancelers)
    → find_canceler pid (deregister_canceler q cs)
      ≡ (if q == pid then none else find_canceler pid cs)
unfolding find_canceler deregister_canceler
find_canceler-deregister_canceler pid q [] = ground arith
find_canceler-deregister_canceler pid q (x ∷ cs) =
    ground (arith, find_canceler-deregister_canceler pid q cs)

secret_in-set_in_flight :
    (pid q : ℕ) (b : Bool) (cs : Cancelers)
    → secret_in (find_canceler pid (set_in_flight q b cs)) ≡ secret_in (find_canceler pid cs)
unfolding find_canceler set_in_flight
secret_in-set_in_flight pid q b [] = refl
secret_in-set_in_flight pid q b (x ∷ cs) = ground (arith, secret_in-set_in_flight pid q b cs)

-- Every entry holds the secret that its session was handed.
secret_in-secret_of :
    (pid : ℕ) (past : List CancelEvent) (secret : Bytes)
    → secret_in (find_canceler pid (server_after past).cancelers) ≡ some secret
    → secret_of pid past ≡ some secret
unfolding server_after secret_of cancel_step register_canceler find_canceler
secret_in-secret_of pid [] secret h = cc
secret_in-secret_of pid (opened handed ∷ past) secret h = ground (
  arith,
  secret_in-secret_of pid past secret,
  find_canceler-deregister_canceler pid ((server_after past).conn_seq + 1)
      (server_after past).cancelers,
)
secret_in-secret_of pid (closed q ∷ past) secret h = ground (
  arith,
  secret_in-secret_of pid past secret,
  find_canceler-deregister_canceler pid q (server_after past).cancelers,
)
secret_in-secret_of pid (query_started q ∷ past) secret h =
    secret_in-secret_of pid past secret
      (sym (secret_in-set_in_flight pid q true (server_after past).cancelers) ∙ h)
secret_in-secret_of pid (query_ended q ∷ past) secret h =
    secret_in-secret_of pid past secret
      (sym (secret_in-set_in_flight pid q false (server_after past).cancelers) ∙ h)
secret_in-secret_of pid (cancel_requested q s ∷ past) secret h =
    secret_in-secret_of pid past secret h

-- A request cancels a query of no session but the one it names, and only with the secret that this
-- session was handed.
pub cancel_by_key-secret_of :
    (past : List CancelEvent) (pid : ℕ) (secret : Bytes)
    → All
        (λ p. (p ≡ pid) × (secret_of pid past ≡ some secret))
        (cancel_by_key pid secret (server_after past).cancelers)
unfolding cancel_by_key
cancel_by_key-secret_of past pid secret =
    let cs = (server_after past).cancelers in
    elim (Option-cases (find_canceler pid cs)) [
      | inl n ↦ rw (n, cancel_by_key) tt
      | inr (c, f) ↦ elim (Bool-cases (equal c.secret secret && c.in_flight)) [
        | inl y ↦
            rw (f, cancel_by_key)
              (rw y (
                (
                  refl,
                  secret_in-secret_of pid past c.secret (ap secret_in f)
                      ∙ ap some (
                          (equal_iff c.secret secret).0
                            (and_eq_true (equal c.secret secret) c.in_flight y).0),
                ),
                tt,
              ))
        | inr n ↦ rw (f, cancel_by_key) (rw n tt)
      ]
    ]
