-- ===== src/Batch/Outcome.antt =====
-- `apply_recognition_outcome` of crates/voicetext-speech/src/application/batch_models.rs: what a
-- provider's answer makes of a claimed job. The consumer's projection check is a parameter.
use voicetext_gateway.Prelude.{
  Bool, true, false, none, some, Result, ok, err, Text, text, if◌then◌else◌, ◌&&◌,
}
use voicetext_gateway.Job.{
  BatchJob, BatchFailure, BatchTransitionError, complete, fail, record_retryable_failure,
  record_unknown_outcome,
}
use voicetext_gateway.Job.Profile.{InvalidBatchFailure, new_failure}
use voicetext_gateway.Batch.Models.{RecognitionFailure, BatchRecognitionResult, BatchJobSnapshot}
use voicetext_gateway.Batch.Validate.{valid_result}

abbrev or_else : Result InvalidBatchFailure BatchFailure → BatchFailure → BatchFailure
or_else (ok f) g = f
or_else (err e) g = g

unfoldable pub batch_failure : Text → BatchFailure
batch_failure code =
    or_else (new_failure code) (record { code = text "INVALID_RECOGNITION_FAILURE" })

-- `snapshot.job.…?; Ok(snapshot)`
abbrev after_job :
    BatchJobSnapshot
    → Result BatchTransitionError (Unit {0}) × BatchJob
    → Result BatchTransitionError BatchJobSnapshot
after_job s (ok u, job) = ok (record s { job = job })
after_job s (err e, job) = err e

unfoldable pub apply_recognition_outcome :
    (Text → BatchRecognitionResult → Bool)
    → BatchJobSnapshot
    → Result RecognitionFailure BatchRecognitionResult
    → Result BatchTransitionError BatchJobSnapshot
apply_recognition_outcome projectable s (ok r) =
    let valid = valid_result s r in
    if valid && projectable s.id r
    then after_job
        (record s {
          retry_after_millis = none;
          provider_reference = r.provider_reference;
          result = some r;
        })
        (complete s.job)
    else after_job
        (record s {
          retry_after_millis = none;
          provider_reference = r.provider_reference;
          result = none;
        })
        (fail
          (batch_failure (
            if valid
            then text "PROVIDER_RESULT_PROJECTION_FAILED"
            else text "INVALID_RECOGNITION_RESULT"))
          s.job)
apply_recognition_outcome projectable s
      (err (RecognitionFailure.known_not_accepted true code reference after)) =
    after_job (record s { retry_after_millis = after; provider_reference = reference })
      (record_retryable_failure (batch_failure code) s.job)
apply_recognition_outcome projectable s
      (err (RecognitionFailure.known_not_accepted false code reference after)) =
    after_job (record s { retry_after_millis = none; provider_reference = reference })
      (fail (batch_failure code) s.job)
apply_recognition_outcome projectable s
      (err (RecognitionFailure.known_accepted_terminal code reference)) =
    after_job (record s { retry_after_millis = none; provider_reference = reference })
      (fail (batch_failure code) s.job)
apply_recognition_outcome projectable s
      (err (RecognitionFailure.unknown_after_send code reference)) =
    after_job (record s { retry_after_millis = none; provider_reference = reference })
      (record_unknown_outcome (batch_failure code) s.job)
