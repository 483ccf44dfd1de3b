-- ===== src/Batch/Execute.antt =====
-- `execute` of crates/voicetext-speech/src/application/batch.rs: claim an actionable job, call the
-- provider once, and store what it answered.
use voicetext_gateway.Prelude.{
  ℕ, Bool, true, false, not, List, Option, none, some, Text, Result, ok, err, Method, pure,
  fail_with, attempt, map_err, of_result, ◌>>=◌, if◌then◌else◌,
}
use voicetext_gateway.Job.{
  BatchJob, BatchJobState, BatchTransitionError, is_terminal, begin_submission,
}
use voicetext_gateway.Batch.Models.{
  RecognitionFailure, BatchRecognitionRequest, BatchRecognitionResult, BatchJobSnapshot,
  BatchJobUpdateOutcome, BatchJobStoreFailure, BatchAudioSpoolFailure, BatchAudioRemoveOutcome,
}
use voicetext_gateway.Batch.Outcome.{apply_recognition_outcome}
use voicetext_gateway.Batch.Ports.{
  BatchCoordinator, BatchCoordinatorFailure, transition, post_egress_store, post_egress_conflict,
}

pub data BatchExecutionOutcome : Type 0 where
  persisted : BatchJobSnapshot → BatchExecutionOutcome
  not_claimed : Option BatchJobSnapshot → BatchExecutionOutcome
  not_actionable : BatchJobSnapshot → BatchExecutionOutcome

pub record BatchExecutionReport : Type 0 where
  pub outcome : BatchExecutionOutcome
  pub post_persistence_cleanup : Option (Result BatchAudioSpoolFailure BatchAudioRemoveOutcome)

abbrev pub report :
    BatchExecutionOutcome
    → Option (Result BatchAudioSpoolFailure BatchAudioRemoveOutcome)
    → BatchExecutionReport
report o c = record { outcome = o; post_persistence_cleanup = c }

-- `matches!(state, Accepted | Retryable { .. })`
abbrev pub is_actionable : BatchJobState → Bool
is_actionable BatchJobState.accepted = true
is_actionable (BatchJobState.retryable n f) = true
is_actionable _ = false

-- The job to submit with its audio, or the report that ends the call before any submission.
pub data Claim : Type 0 where
  claimed : BatchJobSnapshot → List ℕ → Claim
  unclaimed : BatchExecutionOutcome → Claim

-- `begin_submission()?` and the fields that a claim clears.
abbrev pub claim_snapshot :
    BatchJobSnapshot
    → Result BatchTransitionError ℕ × BatchJob
    → Result BatchTransitionError BatchJobSnapshot
claim_snapshot s (ok n, job) =
    ok (record s { job = job; provider_reference = none; retry_after_millis = none; result = none })
claim_snapshot s (err e, job) = err e

abbrev pub claim_outcome : List ℕ → BatchJobUpdateOutcome → Claim
claim_outcome audio (BatchJobUpdateOutcome.stored s) = claimed s audio
claim_outcome audio (BatchJobUpdateOutcome.revision_conflict s) = unclaimed (not_claimed (some s))
claim_outcome audio BatchJobUpdateOutcome.missing = unclaimed (not_claimed none)

abbrev pub request : BatchJobSnapshot → List ℕ → BatchRecognitionRequest
request s audio = record {
  profile = s.job.profile;
  audio = audio;
  authoritative_duration_millis = s.authoritative_duration_millis;
  keyterms = s.keyterms;
}

module _ {W : Type 0} (c : BatchCoordinator W) where
  open c use {recognizer, jobs, spool}

  abbrev Batch : Type 0 → Type 0
  Batch A = Method W BatchCoordinatorFailure A

  -- Store the claim under the revision that was loaded.
  unfoldable pub swap_claim : BatchJobSnapshot → List ℕ → BatchJobSnapshot → Batch Claim
  swap_claim s audio next = do
    swapped ← map_err BatchCoordinatorFailure.store (jobs.compare_and_swap s.revision next)
    pure (claim_outcome audio swapped)

  unfoldable pub claim_with : BatchJobSnapshot → List ℕ → Batch Claim
  unfolding begin_submission swap_claim
  claim_with s audio = do
    next ← map_err transition (of_result (claim_snapshot s (begin_submission s.job)))
    swap_claim s audio next

  unfoldable pub claim_loaded : BatchJobSnapshot → Batch Claim
  unfolding claim_with
  claim_loaded s = do
    audio ← map_err BatchCoordinatorFailure.spool (spool.read s.audio)
    claim_with s audio

  unfoldable pub claim_found : Option BatchJobSnapshot → Batch Claim
  unfolding claim_loaded
  claim_found none = pure (unclaimed (not_claimed none))
  claim_found (some s) =
      if not (is_actionable s.job.state)
      then pure (unclaimed (not_actionable s))
      else claim_loaded s

  unfoldable pub claim : Text → Batch Claim
  unfolding claim_found
  claim id = do found ← map_err BatchCoordinatorFailure.store (jobs.load id); claim_found found

  abbrev pub removed_report :
      BatchJobSnapshot
      → Result BatchAudioSpoolFailure BatchAudioRemoveOutcome
      → Batch BatchExecutionReport
  removed_report s removed = pure (report (persisted s) (some removed))

  -- The audio of a job that has ended is removed, and the outcome of that is reported apart.
  unfoldable pub clean_up : BatchJobSnapshot → Batch BatchExecutionReport
  clean_up s =
      if is_terminal s.job.state
      then attempt (spool.remove s.audio) >>= removed_report s
      else pure (report (persisted s) none)

  unfoldable pub stored_outcome :
      Result BatchJobStoreFailure BatchJobUpdateOutcome → Batch BatchExecutionReport
  unfolding clean_up
  stored_outcome (ok (BatchJobUpdateOutcome.stored s)) = clean_up s
  stored_outcome (ok (BatchJobUpdateOutcome.revision_conflict s)) = fail_with post_egress_conflict
  stored_outcome (ok BatchJobUpdateOutcome.missing) = fail_with post_egress_conflict
  stored_outcome (err failure) = fail_with (post_egress_store failure)

  unfoldable pub store_answer : BatchJobSnapshot → BatchJobSnapshot → Batch BatchExecutionReport
  unfolding stored_outcome
  store_answer s next = do
    swapped ← attempt (jobs.compare_and_swap s.revision next)
    stored_outcome swapped

  unfoldable pub take_answer :
      (Text → BatchRecognitionResult → Bool)
      → BatchJobSnapshot
      → Result RecognitionFailure BatchRecognitionResult
      → Batch BatchExecutionReport
  unfolding store_answer
  take_answer projectable s answer = do
    next ← map_err transition (of_result (apply_recognition_outcome projectable s answer))
    store_answer s next

  unfoldable pub submit :
      (Text → BatchRecognitionResult → Bool)
      → BatchJobSnapshot
      → List ℕ
      → Batch BatchExecutionReport
  unfolding take_answer
  submit projectable s audio = do
    answer ← attempt (recognizer.recognize (request s audio))
    take_answer projectable s answer

  unfoldable pub submit_claim :
      (Text → BatchRecognitionResult → Bool) → Claim → Batch BatchExecutionReport
  unfolding submit
  submit_claim projectable (claimed s audio) = submit projectable s audio
  submit_claim projectable (unclaimed o) = pure (report o none)

  unfoldable pub execute_with_cleanup_report :
      (Text → BatchRecognitionResult → Bool) → Text → Batch BatchExecutionReport
  unfolding claim submit_claim
  execute_with_cleanup_report projectable id = do won ← claim id; submit_claim projectable won

  unfoldable pub execute :
      (Text → BatchRecognitionResult → Bool) → Text → Batch BatchExecutionOutcome
  unfolding execute_with_cleanup_report
  execute projectable id = do r ← execute_with_cleanup_report projectable id; pure r.outcome
