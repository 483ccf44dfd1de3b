-- ===== src/Batch/Answers.antt =====
-- When an answer completes a job of application/batch_models.rs, and when it allows a retry.
use voicetext_gateway.Prelude.{
  ℕ, ◌≡◌, ◌↔◌, refl, ap, sym, ◌∙◌, Bool, true, some, Result, ok, err, Text, arith, ◌&&◌,
}
use voicetext_gateway.Job.{BatchJobState, BatchJobStatus, status}
use voicetext_gateway.Job.Attempts.{attempt_number}
use voicetext_gateway.Batch.Models.{RecognitionFailure, BatchRecognitionResult, BatchJobSnapshot}
use voicetext_gateway.Batch.Validate.{valid_result}
use voicetext_gateway.Batch.Bounds.{Fits, valid_result_iff}
use voicetext_gateway.Batch.Outcome.{apply_recognition_outcome}
use voicetext_gateway.Batch.Verdict.{
  verdict, fitting, kept_delay, concluded, outcome-concluded, concluded-status, concluded-attempt,
  not_completed, RetryAllowed, verdict-retryable, answered_concluded,
}

-- A claimed job takes every answer of the provider: the transition is never refused, the attempt is
-- kept, and the job ends with the status that the answer calls for, so that it is never left
-- submitting. Its identity, its audio, its request and its revision stay as they were.
pub answer_total :
    (projectable : Text → BatchRecognitionResult → Bool) (s : BatchJobSnapshot) (n : ℕ)
    (answer : Result RecognitionFailure BatchRecognitionResult)
    → s.job.state ≡ BatchJobState.submitting n
    → (t : BatchJobSnapshot) × (apply_recognition_outcome projectable s answer ≡ ok t)
      × (status t.job.state ≡ verdict (fitting projectable s answer) answer)
      × (attempt_number t.job.state ≡ n)
      × (t.job.profile ≡ s.job.profile)
      × (t.job.fingerprint ≡ s.job.fingerprint)
      × (t.id ≡ s.id)
      × (t.audio ≡ s.audio)
      × (t.authoritative_duration_millis ≡ s.authoritative_duration_millis)
      × (t.keyterms ≡ s.keyterms)
      × (t.revision ≡ s.revision)
answer_total projectable s n answer h = (
  concluded projectable s n answer,
  outcome-concluded projectable s n answer h,
  concluded-status (fitting projectable s answer) s n answer,
  concluded-attempt (fitting projectable s answer) s n answer,
  refl,
  refl,
  refl,
  refl,
  refl,
  refl,
  refl,
)

-- A job completes only with a result that fits its snapshot and that the consumer can represent, and
-- the very result is kept.
pub completes_only_fitting :
    (projectable : Text → BatchRecognitionResult → Bool) (s t : BatchJobSnapshot) (n : ℕ)
    (answer : Result RecognitionFailure BatchRecognitionResult)
    → apply_recognition_outcome projectable s answer ≡ ok t
    → t.job.state ≡ BatchJobState.completed n
    → (r : BatchRecognitionResult) × (answer ≡ ok r)
      × Fits s r
      × (projectable s.id r ≡ true)
      × (t.result ≡ some r)
completes_only_fitting projectable s t n (ok r) h e =
    let (m, _, c) = answered_concluded projectable s t (ok r) h in
    let k : valid_result s r && projectable s.id r ≡ true = ground (arith, c) in
    (r, refl, (valid_result_iff s r).0 (ground arith), ground arith, ground (arith, c))
completes_only_fitting projectable s t n (err f) h e =
    let (m, _, c) = answered_concluded projectable s t (err f) h in
    absurd (not_completed (fitting projectable s (err f)) s m n f (cc))

-- A job becomes retryable only when the provider is known not to have accepted the submission and
-- called it retryable; its delay is then the provider's. In every other case no delay is kept.
pub retries_only_unaccepted :
    (projectable : Text → BatchRecognitionResult → Bool) (s t : BatchJobSnapshot)
    (answer : Result RecognitionFailure BatchRecognitionResult)
    → apply_recognition_outcome projectable s answer ≡ ok t
    → ((status t.job.state ≡ BatchJobStatus.retryable) ↔ RetryAllowed answer)
      × (t.retry_after_millis ≡ kept_delay answer)
retries_only_unaccepted projectable s t answer h =
    let (m, _, c) = answered_concluded projectable s t answer h in
    let e : status t.job.state ≡ verdict (fitting projectable s answer) answer =
      ap (λ (u : BatchJobSnapshot). status u.job.state) c
      ∙ concluded-status (fitting projectable s answer) s m answer in
    (
      (
        λ k. (verdict-retryable (fitting projectable s answer) answer).0 (sym e ∙ k),
        λ k. e ∙ (verdict-retryable (fitting projectable s answer) answer).1 k,
      ),
      ap (λ (u : BatchJobSnapshot). u.retry_after_millis) c,
    )
