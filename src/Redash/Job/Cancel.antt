-- ===== src/Redash/Job/Cancel.antt =====
-- internal/redash/client.go, `pollJob`: the requests for the cancellation of a job.
use redash_wire.Common.{
  ℕ, suc, ◌+◌, Bool, true, false, some, List, [], ◌∷◌, if◌then◌else◌, ◌≡◌, ◌≢◌, inl, inr, refl,
  Option-cases, arith, any,
}
use redash_wire.Redash.Job.{
  JobInfo, Round, context_done, deadline, polled, poll_error, Request, get_job, cancel_job,
  JobResult, still_polling, no_data, result_of, query_failed, unknown_status, refused,
  context_error, timed_out, gave_up, job_outcome, poll_job, result_requests,
}

-- A loop that ended on the client's context, on its deadline, or on too many failures in a row. A
-- status request that Redash refuses (401, 403 or 404) and a status that the client does not know
-- end the loop as well, with the job left as it is.
unfoldable pub interrupted : JobResult → Bool
interrupted still_polling = false
interrupted no_data = false
interrupted (result_of _) = false
interrupted (query_failed _) = false
interrupted (unknown_status _) = false
interrupted (refused _) = false
interrupted context_error = true
interrupted timed_out = true
interrupted (gave_up _ _) = true

unfoldable pub cancels : List Request → ℕ
cancels [] = 0
cancels (cancel_job ∷ sent) = suc (cancels sent)
cancels (_ ∷ sent) = cancels sent

job_outcome-interrupted :
    (job : JobInfo) (r : JobResult)
    → job_outcome job ≡ some r
    → (interrupted r ≡ false) × (cancels (get_job ∷ result_requests r) ≡ 0)
unfolding job_outcome interrupted cancels result_requests
job_outcome-interrupted job r h = ground arith

-- The job is cancelled, once, exactly when the loop ends because the client's context ended, the
-- deadline came, or too many status requests failed in a row. It is not cancelled when the job ended,
-- nor when Redash refuses a status request (401, 403 or 404) or reports an unknown status.
pub cancels-poll_job :
    (errors : ℕ) (rounds : List (Round JobInfo))
    → let (r, sent) = poll_job errors rounds in cancels sent ≡ (if interrupted r then 1 else 0)
unfolding poll_job interrupted cancels
cancels-poll_job errors [] = refl
cancels-poll_job errors (context_done ∷ rounds) = refl
cancels-poll_job errors (deadline ∷ rounds) = refl
cancels-poll_job errors (polled job ∷ rounds) = elim (Option-cases (job_outcome job)) [
  | inl n ↦ rw (n, poll_job, cancels) (cancels-poll_job 0 rounds)
  | inr (r, e) ↦
      let (a, c) = job_outcome-interrupted job r e in
      rw (e, poll_job, cancels) (rw (a, interrupted) c)
]
cancels-poll_job errors (poll_error err ended ∷ rounds) =
    ground (arith, cancels-poll_job (errors + 1) rounds)

-- A round that ends every loop.
unfoldable pub is_last : {J : Type 0} → Round J → Bool
is_last context_done = true
is_last deadline = true
is_last _ = false

job_outcome-ends : (job : JobInfo) (r : JobResult) → job_outcome job ≡ some r → r ≢ still_polling
unfolding job_outcome
job_outcome-ends job r h k = ground arith

-- A loop whose deadline comes, or whose context ends, ends.
poll_job_ends :
    (errors : ℕ) (rounds : List (Round JobInfo))
    → any is_last rounds ≡ true
    → (poll_job errors rounds).0 ≢ still_polling
unfolding poll_job is_last
poll_job_ends errors [] h = cc
poll_job_ends errors (context_done ∷ rounds) h = λ k. cc
poll_job_ends errors (deadline ∷ rounds) h = λ k. cc
poll_job_ends errors (polled job ∷ rounds) h = elim (Option-cases (job_outcome job)) [
  | inl n ↦ rw (n, poll_job) (poll_job_ends 0 rounds h)
  | inr (r, e) ↦ rw (e, poll_job) (job_outcome-ends job r e)
]
poll_job_ends errors (poll_error err ended ∷ rounds) h =
    λ k. ground (arith, poll_job_ends (errors + 1) rounds h)
