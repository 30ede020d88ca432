-- ===== src/Redash/Job/Transient.antt =====
-- internal/redash/client.go, `pollJob`: status requests that fail now and then.
use redash_wire.Common.{
  ℕ, ◌+◌, Bool, true, false, not, ◌&&◌, List, [], ◌∷◌, ltb, ◌≡◌, inl, inr, refl, Option-cases,
  arith,
}
use redash_wire.Redash.{Err}
use redash_wire.Redash.Job.{
  JobInfo, Round, context_done, deadline, polled, poll_error, job_outcome, is_fatal, poll_job,
}

-- The rounds without those whose status request failed.
pub answered_rounds : List (Round JobInfo) → List (Round JobInfo)
answered_rounds [] = []
answered_rounds (poll_error _ _ ∷ rounds) = answered_rounds rounds
answered_rounds (r ∷ rounds) = r ∷ answered_rounds rounds

-- No error is fatal, none came when the context had ended, and fewer than five came in a row, after
-- `errors` of them.
unfoldable pub is_mild : ℕ → List (Round JobInfo) → Bool
is_mild errors [] = true
is_mild errors (poll_error err ended ∷ rounds) =
    not (is_fatal err) && not ended && ltb (errors + 1) 5 && is_mild (errors + 1) rounds
is_mild errors (polled _ ∷ rounds) = is_mild 0 rounds
is_mild errors (_ ∷ rounds) = true

is_mild-poll_error :
    (errors : ℕ) (err : Err) (ended : Bool) (rounds : List (Round JobInfo))
    → is_mild errors (poll_error err ended ∷ rounds) ≡ true
    → (is_fatal err ≡ false)
      × (ended ≡ false)
      × (ltb (errors + 1) 5 ≡ true)
      × (is_mild (errors + 1) rounds ≡ true)
unfolding is_mild
is_mild-poll_error errors err ended rounds h = ground arith

-- A query whose status requests fail now and then, never five times in a row, has the result that
-- it has without those failures.
pub poll_job-answered_rounds :
    (errors : ℕ) (rounds : List (Round JobInfo))
    → is_mild errors rounds ≡ true
    → (poll_job errors rounds).0 ≡ (poll_job 0 (answered_rounds rounds)).0
unfolding poll_job answered_rounds is_mild
poll_job-answered_rounds errors [] h = refl
poll_job-answered_rounds errors (context_done ∷ rounds) h = refl
poll_job-answered_rounds errors (deadline ∷ rounds) h = refl
poll_job-answered_rounds errors (polled job ∷ rounds) h =
    let ih = poll_job-answered_rounds 0 rounds h in
    elim (Option-cases (job_outcome job)) [
      | inl n ↦ rw (n, poll_job, answered_rounds) ih
      | inr (r, e) ↦ rw (e, poll_job, answered_rounds) refl
    ]
poll_job-answered_rounds errors (poll_error err ended ∷ rounds) h =
    let (fatal, e, few, rest) = is_mild-poll_error errors err ended rounds h in
    let ih = poll_job-answered_rounds (errors + 1) rounds rest in ground (arith, fatal, e, few, ih)
