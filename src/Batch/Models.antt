-- ===== src/Batch/Models.antt =====
-- The provider-neutral data of crates/voicetext-speech/src/application/ports.rs. An identity or a
-- handle is the text that it wraps; an audio artifact is the list of its bytes.
use voicetext_gateway.Prelude.{ℕ, Bool, List, Option, Text, F32}
use voicetext_gateway.Job.{BatchJob, BatchProfile}

pub data ProviderOperationKind : Type 0 where
  request_id transcription_id session_id : ProviderOperationKind

pub record ProviderReference : Type 0 where
  pub id : Text
  pub operation_kind : Option ProviderOperationKind

pub data RecognitionFailureClass : Type 0 where
  known_not_accepted : Bool → RecognitionFailureClass
  known_accepted_terminal unknown_after_send : RecognitionFailureClass

-- `known_not_accepted retryable code provider_reference retry_after_millis`.
pub data RecognitionFailure : Type 0 where
  known_not_accepted : Bool → Text → Option ProviderReference → Option ℕ → RecognitionFailure
  known_accepted_terminal unknown_after_send : Text → Option ProviderReference → RecognitionFailure

abbrev pub class : RecognitionFailure → RecognitionFailureClass
class (RecognitionFailure.known_not_accepted retryable code reference after) =
    RecognitionFailureClass.known_not_accepted retryable
class (RecognitionFailure.known_accepted_terminal code reference) =
    RecognitionFailureClass.known_accepted_terminal
class (RecognitionFailure.unknown_after_send code reference) =
    RecognitionFailureClass.unknown_after_send

abbrev pub failure_code : RecognitionFailure → Text
failure_code (RecognitionFailure.known_not_accepted retryable code reference after) = code
failure_code (RecognitionFailure.known_accepted_terminal code reference) = code
failure_code (RecognitionFailure.unknown_after_send code reference) = code

abbrev pub failure_reference : RecognitionFailure → Option ProviderReference
failure_reference (RecognitionFailure.known_not_accepted retryable code reference after) = reference
failure_reference (RecognitionFailure.known_accepted_terminal code reference) = reference
failure_reference (RecognitionFailure.unknown_after_send code reference) = reference

pub record BatchRecognitionRequest : Type 0 where
  pub profile : BatchProfile
  pub audio : List ℕ
  pub authoritative_duration_millis : ℕ
  pub keyterms : List Text

pub record BatchSegment : Type 0 where
  pub start_millis : ℕ
  pub end_millis : ℕ
  pub text : Text
  pub confidence : Option F32
  pub speaker : Option Text

pub record BatchReadableSegment : Type 0 where
  pub start_millis : ℕ
  pub end_millis : ℕ
  pub text : Text
  pub source_segment_indices : List ℕ

pub record BatchRecognitionResult : Type 0 where
  pub profile : BatchProfile
  pub text : Text
  pub duration_millis : ℕ
  pub provider_duration_millis : Option ℕ
  pub segments : List BatchSegment
  pub readable_segments : Option (List BatchReadableSegment)
  pub provider_reference : Option ProviderReference

pub record BatchJobSnapshot : Type 0 where
  pub id : Text
  pub job : BatchJob
  pub audio : Text
  pub authoritative_duration_millis : ℕ
  pub keyterms : List Text
  pub provider_reference : Option ProviderReference
  pub retry_after_millis : Option ℕ
  pub result : Option BatchRecognitionResult
  pub revision : ℕ

pub data BatchJobInsertOutcome : Type 0 where
  inserted existing : BatchJobSnapshot → BatchJobInsertOutcome

pub data BatchJobUpdateOutcome : Type 0 where
  stored revision_conflict : BatchJobSnapshot → BatchJobUpdateOutcome
  missing : BatchJobUpdateOutcome

pub data BatchJobStoreFailure : Type 0 where
  unavailable invalid_snapshot : Text → BatchJobStoreFailure

pub data BatchAudioSpoolFailure : Type 0 where
  unavailable : Text → BatchAudioSpoolFailure
  missing identity_conflict capacity_exceeded : BatchAudioSpoolFailure

pub data BatchAudioStoreOutcome : Type 0 where
  stored existing : Text → BatchAudioStoreOutcome

pub data BatchAudioRemoveOutcome : Type 0 where
  removed already_missing : BatchAudioRemoveOutcome
