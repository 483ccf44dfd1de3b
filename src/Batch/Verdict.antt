-- ===== src/Batch/Verdict.antt =====
-- What `apply_recognition_outcome` of application/batch_models.rs decides.
use voicetext_gateway.Prelude.{
  ℕ, ◌≡◌, ◌≢◌, ◌↔◌, refl, Bool, true, false, Option, none, some, Result, ok, err, Text, arith,
  if◌then◌else◌, ◌&&◌, text,
}
use voicetext_gateway.Job.{
  BatchJobState, BatchJobStatus, submission, status, complete, fail, record_retryable_failure,
  record_unknown_outcome,
}
use voicetext_gateway.Job.Attempts.{attempt_number}
use voicetext_gateway.Batch.Models.{
  RecognitionFailure, BatchRecognitionResult, BatchJobSnapshot, ProviderReference,
  failure_reference,
}
use voicetext_gateway.Batch.Validate.{valid_result}
use voicetext_gateway.Batch.Outcome.{batch_failure, apply_recognition_outcome}

-- The status that an answer calls for.
abbrev pub verdict : Bool → Result RecognitionFailure BatchRecognitionResult → BatchJobStatus
verdict fits (ok r) = if fits then BatchJobStatus.completed else BatchJobStatus.failed
verdict fits (err (RecognitionFailure.known_not_accepted true code reference after)) =
    BatchJobStatus.retryable
verdict fits (err (RecognitionFailure.known_not_accepted false code reference after)) =
    BatchJobStatus.failed
verdict fits (err (RecognitionFailure.known_accepted_terminal code reference)) =
    BatchJobStatus.failed
verdict fits (err (RecognitionFailure.unknown_after_send code reference)) =
    BatchJobStatus.outcome_unknown

abbrev pub fitting :
    (Text → BatchRecognitionResult → Bool)
    → BatchJobSnapshot
    → Result RecognitionFailure BatchRecognitionResult
    → Bool
fitting projectable s (ok r) = valid_result s r && projectable s.id r
fitting projectable s (err f) = false

abbrev pub kept_result :
    Bool
    → Result RecognitionFailure BatchRecognitionResult
    → Option BatchRecognitionResult
    → Option BatchRecognitionResult
kept_result true (ok r) old = some r
kept_result false (ok r) old = none
kept_result fits (err f) old = old

abbrev pub kept_delay : Result RecognitionFailure BatchRecognitionResult → Option ℕ
kept_delay (err (RecognitionFailure.known_not_accepted true code reference after)) = after
kept_delay _ = none

abbrev pub told_reference :
    Result RecognitionFailure BatchRecognitionResult → Option ProviderReference
told_reference (ok r) = r.provider_reference
told_reference (err f) = failure_reference f

-- The state that concludes attempt `n`.
abbrev pub concluded_state :
    Bool → BatchJobSnapshot → ℕ → Result RecognitionFailure BatchRecognitionResult → BatchJobState
concluded_state true s n (ok r) = BatchJobState.completed n
concluded_state false s n (ok r) = BatchJobState.failed n (
    batch_failure (
      if valid_result s r
      then text "PROVIDER_RESULT_PROJECTION_FAILED"
      else text "INVALID_RECOGNITION_RESULT"))
concluded_state fits s n (err (RecognitionFailure.known_not_accepted true code reference after)) =
    BatchJobState.retryable n (batch_failure code)
concluded_state fits s n (err (RecognitionFailure.known_not_accepted false code reference after)) =
    BatchJobState.failed n (batch_failure code)
concluded_state fits s n (err (RecognitionFailure.known_accepted_terminal code reference)) =
    BatchJobState.failed n (batch_failure code)
concluded_state fits s n (err (RecognitionFailure.unknown_after_send code reference)) =
    BatchJobState.outcome_unknown n (submission (batch_failure code))

abbrev pub concluded :
    (Text → BatchRecognitionResult → Bool)
    → BatchJobSnapshot
    → ℕ
    → Result RecognitionFailure BatchRecognitionResult
    → BatchJobSnapshot
concluded projectable s n answer = record s {
  job = record s.job { state = concluded_state (fitting projectable s answer) s n answer };
  retry_after_millis = kept_delay answer;
  provider_reference = told_reference answer;
  result = kept_result (fitting projectable s answer) answer s.result;
}

pub concluded-status :
    (fits : Bool) (s : BatchJobSnapshot) (n : ℕ)
    (answer : Result RecognitionFailure BatchRecognitionResult)
    → status (concluded_state fits s n answer) ≡ verdict fits answer
concluded-status true s n (ok r) = refl
concluded-status false s n (ok r) = refl
concluded-status fits s n (err (RecognitionFailure.known_not_accepted true c p a)) = refl
concluded-status fits s n (err (RecognitionFailure.known_not_accepted false c p a)) = refl
concluded-status fits s n (err (RecognitionFailure.known_accepted_terminal c p)) = refl
concluded-status fits s n (err (RecognitionFailure.unknown_after_send c p)) = refl

pub concluded-attempt :
    (fits : Bool) (s : BatchJobSnapshot) (n : ℕ)
    (answer : Result RecognitionFailure BatchRecognitionResult)
    → attempt_number (concluded_state fits s n answer) ≡ n
concluded-attempt true s n (ok r) = refl
concluded-attempt false s n (ok r) = refl
concluded-attempt fits s n (err (RecognitionFailure.known_not_accepted true c p a)) = refl
concluded-attempt fits s n (err (RecognitionFailure.known_not_accepted false c p a)) = refl
concluded-attempt fits s n (err (RecognitionFailure.known_accepted_terminal c p)) = refl
concluded-attempt fits s n (err (RecognitionFailure.unknown_after_send c p)) = refl

-- A failure completes nothing.
pub not_completed :
    (fits : Bool) (s : BatchJobSnapshot) (m n : ℕ) (f : RecognitionFailure)
    → concluded_state fits s m (err f) ≢ BatchJobState.completed n
not_completed fits s m n (RecognitionFailure.known_not_accepted true c p a) e = cc
not_completed fits s m n (RecognitionFailure.known_not_accepted false c p a) e = cc
not_completed fits s m n (RecognitionFailure.known_accepted_terminal c p) e = cc
not_completed fits s m n (RecognitionFailure.unknown_after_send c p) e = cc

-- The answers after which another submission is safe.
abbrev pub RetryAllowed : Result RecognitionFailure BatchRecognitionResult → Type 0
RetryAllowed (err (RecognitionFailure.known_not_accepted true code reference after)) = Unit {0}
RetryAllowed _ = ⊥

pub verdict-retryable :
    (fits : Bool) (answer : Result RecognitionFailure BatchRecognitionResult)
    → (verdict fits answer ≡ BatchJobStatus.retryable) ↔ RetryAllowed answer
verdict-retryable true (ok r) = ground arith
verdict-retryable false (ok r) = ground arith
verdict-retryable fits (err (RecognitionFailure.known_not_accepted true c p a)) = ground arith
verdict-retryable fits (err (RecognitionFailure.known_not_accepted false c p a)) = ground arith
verdict-retryable fits (err (RecognitionFailure.known_accepted_terminal c p)) = ground arith
verdict-retryable fits (err (RecognitionFailure.unknown_after_send c p)) = ground arith

pub outcome-concluded :
    (projectable : Text → BatchRecognitionResult → Bool) (s : BatchJobSnapshot) (n : ℕ)
    (answer : Result RecognitionFailure BatchRecognitionResult)
    → s.job.state ≡ BatchJobState.submitting n
    → apply_recognition_outcome projectable s answer ≡ ok (concluded projectable s n answer)
unfolding apply_recognition_outcome complete fail record_retryable_failure record_unknown_outcome
outcome-concluded projectable s n (ok r) h = ground arith
outcome-concluded projectable s n (err (RecognitionFailure.known_not_accepted true c p a)) h =
    ground arith
outcome-concluded projectable s n (err (RecognitionFailure.known_not_accepted false c p a)) h =
    ground arith
outcome-concluded projectable s n (err (RecognitionFailure.known_accepted_terminal c p)) h =
    ground arith
outcome-concluded projectable s n (err (RecognitionFailure.unknown_after_send c p)) h = ground arith

-- An answer is taken only by a job that is submitting.
answered_submitting :
    (projectable : Text → BatchRecognitionResult → Bool) (s t : BatchJobSnapshot)
    (answer : Result RecognitionFailure BatchRecognitionResult)
    → apply_recognition_outcome projectable s answer ≡ ok t
    → (n : ℕ) × (s.job.state ≡ BatchJobState.submitting n)
unfolding apply_recognition_outcome complete fail record_retryable_failure record_unknown_outcome
answered_submitting projectable s t (ok r) h = ground arith
answered_submitting projectable s t (err (RecognitionFailure.known_not_accepted true c p a)) h =
    ground arith
answered_submitting projectable s t (err (RecognitionFailure.known_not_accepted false c p a)) h =
    ground arith
answered_submitting projectable s t (err (RecognitionFailure.known_accepted_terminal c p)) h =
    ground arith
answered_submitting projectable s t (err (RecognitionFailure.unknown_after_send c p)) h =
    ground arith

pub answered_concluded :
    (projectable : Text → BatchRecognitionResult → Bool) (s t : BatchJobSnapshot)
    (answer : Result RecognitionFailure BatchRecognitionResult)
    → apply_recognition_outcome projectable s answer ≡ ok t
    → (n : ℕ) × (s.job.state ≡ BatchJobState.submitting n) × (t ≡ concluded projectable s n answer)
answered_concluded projectable s t answer h =
    let (n, e) = answered_submitting projectable s t answer h in
    (n, e, cc (outcome-concluded projectable s n answer e))
