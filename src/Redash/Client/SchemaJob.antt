-- ===== src/Redash/Client/SchemaJob.antt =====
-- internal/redash/client.go, `GetSchema` and `pollSchemaJob`: the loop looks at the job it has before
-- it waits for the next round.
use redash_wire.Common.{
  ℕ, ◌+◌, Bool, true, false, ◌||◌, Option, none, some, List, [], ◌∷◌, ◌++◌, leb, ◌==◌,
  if◌then◌else◌, ◌≡◌, ◌≢◌, inl, inr, refl, any, Option-cases, Bool-cases, arith,
}
use redash_wire.Common.Text.{codes}
use redash_wire.Redash.{Err}
use redash_wire.Redash.Job.{
  Round, context_done, deadline, polled, poll_error, Request, get_job, cancel_job, is_fatal,
  max_consecutive_poll_errors,
}
use redash_wire.Redash.Job.Cancel.{cancels, is_last}
use redash_wire.Redash.Client.{
  RawError, RawResult, Tables, tables_error, error_text, error_of, schema_from_job_result, tables,
  SchemaTableRaw, Reply, no_reply, replied,
}

pub record SchemaJob : Type 0 where
  pub status : ℕ
  pub error : RawError
  pub result : RawResult

pub data SchemaResult : Type 0 where
  still_fetching : SchemaResult
  fetched : Tables → SchemaResult
  unknown_status : ℕ → SchemaResult
  refused : Err → SchemaResult
  context_error : SchemaResult
  timed_out : SchemaResult
  gave_up : ℕ → Err → SchemaResult

-- The `switch` on the status: `none` goes on.
unfoldable pub schema_outcome : SchemaJob → Option SchemaResult
unfolding schema_from_job_result error_text
schema_outcome job =
    if job.status == 1 || job.status == 2
    then none
    else if job.status == 3
    then some (fetched (schema_from_job_result job.result))
    else if job.status == 4
    then some (
        fetched (tables_error (error_of (codes "schema request failed: " ++ error_text job.error))))
    else some (unknown_status job.status)

-- The rest of the loop after a job that goes on.
poll_rounds : ℕ → List (Round SchemaJob) → SchemaResult × List Request
poll_rounds errors [] = (still_fetching, [])
poll_rounds errors (context_done ∷ rounds) = (context_error, cancel_job ∷ [])
poll_rounds errors (deadline ∷ rounds) = (timed_out, cancel_job ∷ [])
poll_rounds errors (polled job ∷ rounds) =
    let (r, sent) = poll_rounds 0 rounds in
    elim (schema_outcome job) [ none ↦ (r, get_job ∷ sent) | some result ↦ (result, get_job ∷ []) ]
poll_rounds errors (poll_error err ended ∷ rounds) =
    let (r, sent) = poll_rounds (errors + 1) rounds in
    if is_fatal err
    then (refused err, get_job ∷ [])
    else if ended
    then (context_error, get_job ∷ cancel_job ∷ [])
    else if leb max_consecutive_poll_errors (errors + 1)
    then (gave_up (errors + 1) err, get_job ∷ cancel_job ∷ [])
    else (r, get_job ∷ sent)

unfoldable pub poll_schema_job : SchemaJob → List (Round SchemaJob) → SchemaResult × List Request
unfolding poll_rounds schema_outcome
poll_schema_job job rounds = elim (schema_outcome job) [
  | none ↦ poll_rounds 0 rounds
  | some result ↦ (result, [])
]

-- The body of the schema answer.
pub record SchemaEnvelope : Type 0 where
  pub schema : Option (List SchemaTableRaw)
  pub error : RawError
  pub job : Option SchemaJob

-- `GetSchema` once the body has been decoded; none is a body that does not decode.
schema_answer : Option SchemaEnvelope → List (Round SchemaJob) → SchemaResult × List Request
schema_answer none rounds = (fetched (tables_error (error_of (codes "decoding schema"))), [])
schema_answer (some envelope) rounds = elim envelope.job [
  | none ↦ (fetched (tables envelope.error envelope.schema), [])
  | some job ↦ poll_schema_job job rounds
]

unfoldable pub get_schema :
    Reply SchemaEnvelope → List (Round SchemaJob) → SchemaResult × List Request
unfolding schema_answer tables
get_schema (no_reply e) rounds = (fetched (tables_error (error_of e.text)), [])
get_schema (replied code body) rounds =
    if code == 200
    then schema_answer body rounds
    else (fetched (tables_error (error_of (codes "schema request failed"))), [])

-- A loop that ended on the client's context, on its deadline, or on too many failures in a row.
unfoldable pub interrupted : SchemaResult → Bool
interrupted context_error = true
interrupted timed_out = true
interrupted (gave_up _ _) = true
interrupted _ = false

schema_outcome-interrupted :
    (job : SchemaJob) (r : SchemaResult)
    → schema_outcome job ≡ some r
    → (interrupted r ≡ false) × (r ≢ still_fetching)
unfolding schema_outcome interrupted
schema_outcome-interrupted job r h = (ground arith, λ k. ground arith)

cancels-poll_rounds :
    (errors : ℕ) (rounds : List (Round SchemaJob))
    → let (r, sent) = poll_rounds errors rounds in cancels sent ≡ (if interrupted r then 1 else 0)
unfolding poll_rounds interrupted cancels
cancels-poll_rounds errors [] = refl
cancels-poll_rounds errors (context_done ∷ rounds) = refl
cancels-poll_rounds errors (deadline ∷ rounds) = refl
cancels-poll_rounds errors (polled job ∷ rounds) = elim (Option-cases (schema_outcome job)) [
  | inl n ↦ rw (n, poll_rounds, cancels) (cancels-poll_rounds 0 rounds)
  | inr (r, e) ↦
      rw (e, poll_rounds, cancels) (rw ((schema_outcome-interrupted job r e).0, interrupted) refl)
]
cancels-poll_rounds errors (poll_error err ended ∷ rounds) =
    ground (arith, cancels-poll_rounds (errors + 1) rounds)

poll_rounds_ends :
    (errors : ℕ) (rounds : List (Round SchemaJob))
    → any is_last rounds ≡ true
    → (poll_rounds errors rounds).0 ≢ still_fetching
unfolding poll_rounds is_last
poll_rounds_ends errors [] h = cc
poll_rounds_ends errors (context_done ∷ rounds) h = λ k. cc
poll_rounds_ends errors (deadline ∷ rounds) h = λ k. cc
poll_rounds_ends errors (polled job ∷ rounds) h = elim (Option-cases (schema_outcome job)) [
  | inl n ↦ rw (n, poll_rounds) (poll_rounds_ends 0 rounds h)
  | inr (r, e) ↦ rw (e, poll_rounds) (schema_outcome-interrupted job r e).1
]
poll_rounds_ends errors (poll_error err ended ∷ rounds) h =
    λ k. ground (arith, poll_rounds_ends (errors + 1) rounds h)

-- A result that is known, or a loop that gave up, with as many cancellations as it is to send.
IsDone : List (Round SchemaJob) → SchemaResult × List Request → Type 0
IsDone rounds (r, sent) =
    (cancels sent ≡ (if interrupted r then 1 else 0))
    × (any is_last rounds ≡ true → r ≢ still_fetching)

IsDone-fetched : (rounds : List (Round SchemaJob)) (t : Tables) → IsDone rounds (fetched t, [])
unfolding IsDone interrupted cancels
IsDone-fetched rounds t = (refl, λ _ k. cc)

IsDone-poll_schema_job :
    (job : SchemaJob) (rounds : List (Round SchemaJob)) → IsDone rounds (poll_schema_job job rounds)
unfolding poll_schema_job IsDone cancels
IsDone-poll_schema_job job rounds = elim (Option-cases (schema_outcome job)) [
  | inl n ↦ rw (n, poll_schema_job) (cancels-poll_rounds 0 rounds, poll_rounds_ends 0 rounds)
  | inr (r, e) ↦
      let (a, k) = schema_outcome-interrupted job r e in
      rw (e, poll_schema_job) (rw (a, cancels) refl, λ _. k)
]

IsDone-schema_answer :
    (body : Option SchemaEnvelope) (rounds : List (Round SchemaJob))
    → IsDone rounds (schema_answer body rounds)
unfolding schema_answer
IsDone-schema_answer none rounds = IsDone-fetched rounds _
IsDone-schema_answer (some envelope) rounds = elim (Option-cases envelope.job) [
  | inl n ↦ rw (n, schema_answer) (IsDone-fetched rounds _)
  | inr (job, e) ↦ rw (e, schema_answer) (IsDone-poll_schema_job job rounds)
]

IsDone-get_schema :
    (reply : Reply SchemaEnvelope) (rounds : List (Round SchemaJob))
    → IsDone rounds (get_schema reply rounds)
unfolding get_schema
IsDone-get_schema (no_reply e) rounds = IsDone-fetched rounds _
IsDone-get_schema (replied code body) rounds = elim (Bool-cases (code == 200)) [
  | inl y ↦ rw (y, get_schema) (IsDone-schema_answer body rounds)
  | inr n ↦ rw (n, get_schema) (IsDone-fetched rounds _)
]

-- Whatever Redash answers, a schema job is cancelled, once, exactly when the client's context ended,
-- the deadline came, or too many status requests failed in a row.
cancels-get_schema :
    (reply : Reply SchemaEnvelope) (rounds : List (Round SchemaJob))
    → let (r, sent) = get_schema reply rounds in cancels sent ≡ (if interrupted r then 1 else 0)
unfolding IsDone
cancels-get_schema reply rounds = (IsDone-get_schema reply rounds).0

-- Whatever Redash answers, the fetch of a schema ends when its deadline comes or its context ends.
get_schema_ends :
    (reply : Reply SchemaEnvelope) (rounds : List (Round SchemaJob))
    → any is_last rounds ≡ true
    → (get_schema reply rounds).0 ≢ still_fetching
unfolding IsDone
get_schema_ends reply rounds h = (IsDone-get_schema reply rounds).1 h
