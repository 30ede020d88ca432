-- ===== src/Redash/Job.antt =====
-- internal/redash/client.go, the two loops that follow a job: `pollJob` and `pollSchemaJob`. A round
-- is what one `select` of the loop receives, with the answer to the status request that a tick
-- sends. The requests that a loop sends are its log. The poll ticker and the deadline timer are part
-- of the rounds.
pub mod Cancel
pub mod Transient
use redash_wire.Common.{
  ℕ, zero, suc, ◌+◌, Bool, true, false, ◌||◌, Option, none, some, List, [], ◌∷◌, leb, ◌==◌,
  if◌then◌else◌,
}
use redash_wire.Common.Text.{Bytes, codes, contains, to_lower}
use redash_wire.Redash.{Err, is_fatal_status}

pub record JobInfo : Type 0 where
  pub status : ℕ
  pub error : Bytes
  pub query_result_id : Option ℕ

-- `polled job` and `poll_error err ended`: the answer to the status request, and whether the context
-- had ended when it came.
pub data Round (J : Type 0) : Type 0 where
  context_done : Round J
  deadline : Round J
  polled : J → Round J
  poll_error : Err → Bool → Round J

pub data Request : Type 0 where
  get_job : Request
  cancel_job : Request
  get_query_result : ℕ → Request

-- How a loop ends; `still_polling` is a loop whose rounds have not ended it yet.
pub data JobResult : Type 0 where
  still_polling : JobResult
  no_data : JobResult
  result_of : ℕ → JobResult
  query_failed : Bytes → JobResult
  unknown_status : ℕ → JobResult
  refused : Err → JobResult
  context_error : JobResult
  timed_out : JobResult
  gave_up : ℕ → Err → JobResult

abbrev pub max_consecutive_poll_errors : ℕ
max_consecutive_poll_errors = 5

unfoldable pub is_no_data_error : Bytes → Bool
unfolding contains to_lower
is_no_data_error msg =
    let lower = to_lower msg in
    contains lower (codes "query completed but it returned no data")
    || contains lower (codes "no data was returned")

-- The `switch` on the status: `none` goes on polling.
unfoldable pub job_outcome : JobInfo → Option JobResult
job_outcome job =
    if job.status == 1 || job.status == 2
    then none
    else if job.status == 3
    then some (elim job.query_result_id [ none ↦ no_data | some id ↦ result_of id ])
    else if job.status == 4
    then some (if is_no_data_error job.error then no_data else query_failed job.error)
    else some (unknown_status job.status)

-- A fatal answer, by `errors.As` and `isFatalStatus`.
unfoldable pub is_fatal : Err → Bool
unfolding is_fatal_status
is_fatal e = elim e.http_status [ none ↦ false | some code ↦ is_fatal_status code ]

-- What the result still asks of Redash.
unfoldable pub result_requests : JobResult → List Request
result_requests (result_of id) = get_query_result id ∷ []
result_requests _ = []

-- `pollJob` with its count of errors in a row.
unfoldable pub poll_job : ℕ → List (Round JobInfo) → JobResult × List Request
poll_job errors [] = (still_polling, [])
poll_job errors (context_done ∷ rounds) = (context_error, cancel_job ∷ [])
poll_job errors (deadline ∷ rounds) = (timed_out, cancel_job ∷ [])
poll_job errors (polled job ∷ rounds) =
    let (r, sent) = poll_job 0 rounds in
    elim (job_outcome job) [
      | none ↦ (r, get_job ∷ sent)
      | some result ↦ (result, get_job ∷ result_requests result)
    ]
poll_job errors (poll_error err ended ∷ rounds) =
    let (r, sent) = poll_job (errors + 1) rounds in
    if is_fatal err
    then (refused err, get_job ∷ [])
    else if ended
    then (context_error, get_job ∷ cancel_job ∷ [])
    else if leb max_consecutive_poll_errors (errors + 1)
    then (gave_up (errors + 1) err, get_job ∷ cancel_job ∷ [])
    else (r, get_job ∷ sent)
