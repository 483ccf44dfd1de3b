-- ===== src/Job.antt =====
-- crates/voicetext-speech/src/domain/batch.rs: the identity and the lifecycle of one batch job.
-- A `NonZeroU32` is a number from 1 to `u32_max`. A method on `&mut self` is a `Method`.
pub mod Profile
pub mod Lifecycle
pub mod Attempts
mod Tests
use voicetext_gateway.Prelude.{
  ℕ, ◌+◌, some, none, Bool, true, false, List, [], ◌∷◌, Result, ok, err, Method, pure, get, put,
  ensure, ok_or, of_result, ◌>>=◌, ◌>>◌, checked, u32_max,
}
pub use Profile.{BatchProfile, BatchFailure}

pub data BatchUnknownOutcome : Type 0 where
  submission : BatchFailure → BatchUnknownOutcome
  interrupted_submission : BatchUnknownOutcome

pub data BatchJobStatus : Type 0 where
  accepted submitting retryable completed failed outcome_unknown : BatchJobStatus

pub data BatchJobState : Type 0 where
  accepted : BatchJobState
  submitting : ℕ → BatchJobState
  retryable : ℕ → BatchFailure → BatchJobState
  completed : ℕ → BatchJobState
  failed : ℕ → BatchFailure → BatchJobState
  outcome_unknown : ℕ → BatchUnknownOutcome → BatchJobState

abbrev pub status : BatchJobState → BatchJobStatus
status BatchJobState.accepted = BatchJobStatus.accepted
status (BatchJobState.submitting n) = BatchJobStatus.submitting
status (BatchJobState.retryable n f) = BatchJobStatus.retryable
status (BatchJobState.completed n) = BatchJobStatus.completed
status (BatchJobState.failed n f) = BatchJobStatus.failed
status (BatchJobState.outcome_unknown n r) = BatchJobStatus.outcome_unknown

abbrev pub is_terminal : BatchJobState → Bool
is_terminal (BatchJobState.completed n) = true
is_terminal (BatchJobState.failed n f) = true
is_terminal (BatchJobState.outcome_unknown n r) = true
is_terminal _ = false

pub data BatchTransitionError : Type 0 where
  invalid_transition : BatchJobStatus → BatchJobStatus → BatchTransitionError
  attempt_overflow : ℕ → BatchTransitionError

-- A fingerprint is the list of its 32 bytes.
pub record BatchJob : Type 0 where
  pub profile : BatchProfile
  pub fingerprint : List ℕ
  pub state : BatchJobState

unfoldable pub accept : BatchProfile → List ℕ → BatchJob
accept profile fingerprint = record {
  profile = profile;
  fingerprint = fingerprint;
  state = BatchJobState.accepted;
}

unfoldable pub restore : BatchProfile → List ℕ → BatchJobState → BatchJob
restore profile fingerprint state = record {
  profile = profile;
  fingerprint = fingerprint;
  state = state;
}

abbrev pub Job : Type 0 → Type 0
Job A = Method BatchJob BatchTransitionError A

next_attempt : BatchJobState → Result BatchTransitionError ℕ
next_attempt BatchJobState.accepted = ok 1
next_attempt (BatchJobState.retryable attempt failure) = elim (checked u32_max (attempt + 1)) [
  | some n ↦ ok n
  | none ↦ err (attempt_overflow attempt)
]
next_attempt state = err (invalid_transition (status state) BatchJobStatus.submitting)

unfoldable pub begin_submission : Job ℕ
unfolding next_attempt
begin_submission = do
  job ← get
  attempt ← of_result (next_attempt job.state)
  put (record job { state = BatchJobState.submitting attempt })
  pure attempt

attempt_of : BatchJobState → BatchJobStatus → Result BatchTransitionError ℕ
attempt_of (BatchJobState.submitting attempt) to = ok attempt
attempt_of state to = err (invalid_transition (status state) to)

submission_attempt : BatchJobStatus → Job ℕ
unfolding attempt_of
submission_attempt to job = (attempt_of job.state to, job)

-- The body that the four outcomes share: the attempt of the submission, then the new state.
conclude : BatchJobStatus → (ℕ → BatchJobState) → Job (Unit {0})
unfolding submission_attempt
conclude to state = do
  attempt ← submission_attempt to
  job ← get
  put (record job { state = state attempt })

unfoldable pub record_retryable_failure : BatchFailure → Job (Unit {0})
unfolding conclude
record_retryable_failure failure =
    conclude BatchJobStatus.retryable λ attempt. BatchJobState.retryable attempt failure

unfoldable pub complete : Job (Unit {0})
unfolding conclude
complete = conclude BatchJobStatus.completed λ attempt. BatchJobState.completed attempt

unfoldable pub fail : BatchFailure → Job (Unit {0})
unfolding conclude
fail failure = conclude BatchJobStatus.failed λ attempt. BatchJobState.failed attempt failure

unfoldable pub record_unknown_outcome : BatchFailure → Job (Unit {0})
unfolding conclude
record_unknown_outcome failure =
    conclude BatchJobStatus.outcome_unknown
      λ attempt. BatchJobState.outcome_unknown attempt (submission failure)

recovered : BatchJobState → Bool × BatchJobState
recovered (BatchJobState.submitting attempt) =
    (true, BatchJobState.outcome_unknown attempt interrupted_submission)
recovered state = (false, state)

unfoldable pub recover_interrupted_submission : BatchJob → Bool × BatchJob
unfolding recovered
recover_interrupted_submission job =
    let (changed, state) = recovered job.state in (changed, record job { state = state })

-- One call of the job's interface.
pub data Call : Type 0 where
  begins completes recovers : Call
  retries fails loses : BatchFailure → Call

abbrev told {ℓ} : {A : Type ℓ} → Result BatchTransitionError A × BatchJob → Bool × BatchJob
told (ok a, job) = (true, job)
told (err e, job) = (false, job)

-- The job after a call, refused or not, and whether it was carried out.
unfoldable pub step : Call → BatchJob → Bool × BatchJob
unfolding begin_submission record_retryable_failure complete fail record_unknown_outcome
    recover_interrupted_submission
step begins job = told (begin_submission job)
step completes job = told (complete job)
step (retries failure) job = told (record_retryable_failure failure job)
step (fails failure) job = told (fail failure job)
step (loses failure) job = told (record_unknown_outcome failure job)
step recovers job = recover_interrupted_submission job

unfoldable pub run : BatchJob → List Call → BatchJob
run job [] = job
run job (c ∷ cs) = run (step c job).1 cs
