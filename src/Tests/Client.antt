-- ===== src/Tests/Client.antt =====
-- internal/redash, the client at concrete answers.
use redash_wire.Common.{
  ℕ, ◌+◌, ◌≤◌, ◌<◌, true, false, none, some, List, [], ◌∷◌, ◌++◌, length, any, if◌then◌else◌, ◌≡◌,
  ◌≢◌, ◌⊎◌, refl, arith,
}
use redash_wire.Common.Text.{codes}
use redash_wire.Redash.Client.Requests.{fetched, parse_query_result, redash_error_message}
use redash_wire.Redash.{Err}
use redash_wire.Redash.Job.{
  JobInfo, Round, context_done, deadline, polled, poll_error, Request, get_job, cancel_job,
  get_query_result, JobResult, still_polling, result_of, gave_up, no_data, query_failed, poll_job,
  is_no_data_error,
}
use redash_wire.Redash.Job.Cancel.{interrupted, cancels, cancels-poll_job, is_last}
use redash_wire.Redash.Job.Transient.{answered_rounds, is_mild, poll_job-answered_rounds}
use redash_wire.Redash.Reader.{
  MaxBytesReader, new_max_bytes_reader, read, read_bytes, result_too_large, read_all,
  read_all-new_max_bytes_reader,
}
use redash_wire.Redash.Client.{error_absent, Reply, replied, result_absent}
use redash_wire.Redash.Client.SchemaJob.{SchemaJob, SchemaEnvelope}

abbrev unavailable : Err
unavailable = record {
  http_status = some 503;
  query_error = none;
  context_ended = false;
  text = codes "503";
}

abbrev running : JobInfo
running = record { status = 2; error = []; query_result_id = none }

abbrev finished : JobInfo
finished = record { status = 3; error = []; query_result_id = some 9 }

abbrev blip : Round JobInfo
blip = poll_error unavailable false

abbrev blips : List (Round JobInfo)
blips = blip ∷ blip ∷ polled running ∷ blip ∷ blip ∷ blip ∷ blip ∷ polled finished ∷ []

abbrev five_blips : List (Round JobInfo)
five_blips = blip ∷ blip ∷ blip ∷ blip ∷ blip ∷ polled finished ∷ []

blips_lem : (poll_job 0 blips).0 ≡ result_of 9
unfolding poll_job redash_wire.Redash.Job.is_fatal redash_wire.Redash.Job.job_outcome
blips_lem = refl

five_blips_lem :
    poll_job 0 five_blips
    ≡ (gave_up 5 unavailable, get_job ∷ get_job ∷ get_job ∷ get_job ∷ get_job ∷ cancel_job ∷ [])
unfolding poll_job redash_wire.Redash.Job.is_fatal
five_blips_lem = refl

cancels-poll_job_example :
    cancels (poll_job 0 five_blips).1 ≡ (if interrupted (poll_job 0 five_blips).0 then 1 else 0)
cancels-poll_job_example = cancels-poll_job 0 five_blips

has_deadline : any is_last (polled running ∷ deadline ∷ []) ≡ true
unfolding is_last
has_deadline = refl

blips_mild : is_mild 0 blips ≡ true
unfolding is_mild redash_wire.Redash.Job.is_fatal
blips_mild = refl

poll_job-answered_rounds_example : (poll_job 0 blips).0 ≡ (poll_job 0 (answered_rounds blips)).0
poll_job-answered_rounds_example = poll_job-answered_rounds 0 blips blips_mild

no_data_of_mysql : is_no_data_error (codes "Error: No data was returned.") ≡ true
unfolding is_no_data_error
no_data_of_mysql = refl

abbrev schema_running : SchemaJob
schema_running = record { status = 1; error = error_absent; result = result_absent }

abbrev enqueued : Reply SchemaEnvelope
enqueued =
    replied 200 (some (record { schema = none; error = error_absent; job = some schema_running }))

abbrev late : List (Round SchemaJob)
late = polled schema_running ∷ deadline ∷ []

late_ends : any is_last late ≡ true
unfolding is_last
late_ends = refl

abbrev buffers : List (ℕ × ℕ)
buffers = (4, 4) ∷ (4, 2) ∷ (4, 4) ∷ (4, 4) ∷ []

too_large :
    let (last, bytes, failed) = read_all (new_max_bytes_reader (codes "abcdefghij") 6) buffers in
    (bytes ≡ codes "abcdefg") × (failed ≡ true)
unfolding read_all new_max_bytes_reader redash_wire.Redash.Reader.read
too_large = (refl, refl)

read_all-new_max_bytes_reader_example :
    let (last, bytes, failed) = read_all (new_max_bytes_reader (codes "abcdefghij") 6) buffers in
    (bytes ++ last.body ≡ codes "abcdefghij")
    × (length bytes ≤ 6 + 1)
    × ((failed ≡ false) ⊎ (6 < 10))
    × ((length bytes ≤ 6) ⊎ ((read last 4 2).1 ≡ result_too_large))
    × (((read last 4 2).1 ≢ read_bytes []) ⊎ (last.body ≡ []))
read_all-new_max_bytes_reader_example =
    read_all-new_max_bytes_reader (codes "abcdefghij") 6 buffers 4 2 (omega arith) (omega arith)

result_parsed :
    parse_query_result (codes "a" ∷ []) (some (codes "1") ∷ some (codes "2") ∷ [])
    ≡ fetched (record { columns = codes "a" ∷ []; rows = codes "1" ∷ codes "2" ∷ [] })
unfolding parse_query_result
result_parsed = refl

message_of_error : redash_error_message (some ([], codes "down")) ≡ codes "down"
unfolding redash_error_message
message_of_error = refl
