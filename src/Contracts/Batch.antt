-- ===== src/Contracts/Batch.antt =====
-- crates/voicetext-gateway/src/contracts/batch.rs: the v3 responses as a consumer reads them. `U` is the
-- type of UUIDs; the JSON library and the conversion of milliseconds to floating-point seconds are
-- parameters.
use voicetext_gateway.Prelude.{
  ℕ, suc, Bool, true, false, not, ◌&&◌, ◌||◌, List, [], ◌∷◌, Option, none, some, Text, text, Result,
  ok, and_then, ok_or_err, leb, ltb, ◌==◌, if◌then◌else◌, length, is_empty, trim, byte_len, F64,
}
use voicetext_gateway.Contracts.Live.{ContractViolation, require, canonical, max_safe_integer}
use voicetext_gateway.Gateway.Slots.{BatchIdentity, elevenlabs_scribe_v2_multi_v3}
use voicetext_gateway.Contracts.BatchModels.{
  max_batch_segments, max_retry_after_ms, max_response_bytes, contract_version, BatchResponseStatus,
  Utterance, BatchTranscription, BatchTaskResult, SegmentV3, ResultV3, EnvelopeV3, validate_text,
  validate_error_code, require_identity, validate_confidence, validate_provider_request, is_none,
  iff, in_state, is_failure, accepted, ok_status,
}

module _ (milliseconds_to_seconds : ℕ → F64) where
  abbrev pub utterance : SegmentV3 → Utterance
  utterance s = record {
    start = milliseconds_to_seconds s.start_ms;
    end = milliseconds_to_seconds s.end_ms;
    transcript = s.text;
    confidence = s.confidence;
  }

  -- The loop over the segments: the utterances, from an index and a previous end on.
  unfoldable pub read_segments :
      ℕ → ℕ → ℕ → List SegmentV3 → Result ContractViolation (List Utterance)
  read_segments duration index previous_end [] = ok []
  read_segments duration index previous_end (s ∷ ss) =
      and_then (require (s.index == index) (text "non-contiguous segment index")) λ _.
        and_then
          (require (leb previous_end s.start_ms && ltb s.start_ms s.end_ms && leb s.end_ms duration)
            (text "invalid segment timeline"))
          λ _. and_then (validate_text s.text false) λ _.
            and_then (validate_confidence s.confidence) λ _.
              and_then (read_segments duration (suc index) s.end_ms ss)
                λ rest. ok (utterance s ∷ rest)

  unfoldable pub validate_v3_result :
      {I : Type 0} → ResultV3 I → Result ContractViolation BatchTranscription
  validate_v3_result result = and_then (validate_text result.text true) λ _.
      and_then
        (require (is_empty result.text || not (is_empty (trim result.text)))
          (text "batch text cannot contain only whitespace"))
        λ _.
          and_then
            (require (leb result.duration_ms max_safe_integer)
              (text "duration exceeds safe integer"))
            λ _.
              and_then
                (require (leb (length result.segments) max_batch_segments)
                  (text "too many segments"))
                λ _.
                  and_then
                    (require (iff (is_empty result.text) (is_empty result.segments))
                      (text "text and segments disagree"))
                    λ _.
                      and_then (read_segments result.duration_ms 0 0 result.segments) λ utterances.
                        and_then (validate_provider_request result.provider_request) λ _.
                          ok (record {
                            duration_seconds = milliseconds_to_seconds result.duration_ms;
                            utterances = utterances;
                            readable_segments = [];
                            provider_request_id = result.provider_request;
                          })

  module _ {U : Type 0} (uuid_eq : U → U → Bool) where
    unfoldable pub accepted_v3 : EnvelopeV3 U → Result ContractViolation (BatchTaskResult U)
    accepted_v3 response =
        and_then
          (require (in_state response (text "running")) (text "invalid batch v3 pending state"))
          λ _.
            and_then
              (require
                (is_none response.retryable
                  && is_none response.error_code
                  && is_none response.result)
                (text "pending response contains terminal fields"))
              λ _.
                and_then (ok_or_err (text "missing retry delay") response.retry_after_ms)
                  λ retry_after_ms.
                    and_then
                      (require (leb retry_after_ms max_retry_after_ms)
                        (text "retry delay exceeds limit"))
                      λ _.
                        and_then (ok_or_err (text "missing next action") response.next_action)
                          λ next_action.
                            ok (BatchTaskResult.pending response.job_id next_action retry_after_ms)

    unfoldable pub failed_v3 : EnvelopeV3 U → Result ContractViolation (BatchTaskResult U)
    failed_v3 response =
        and_then (require (is_none response.result) (text "failed response contains result")) λ _.
          and_then (ok_or_err (text "missing error code") response.error_code) λ error_code.
            and_then (validate_error_code error_code)
              λ _. ok (BatchTaskResult.failed response.job_id error_code)

    unfoldable pub completed_v3 :
        EnvelopeV3 U → BatchIdentity → Result ContractViolation (BatchTaskResult U)
    completed_v3 response expected =
        and_then
          (require
            (in_state response (text "completed")
              && is_none response.retryable
              && is_none response.error_code)
            (text "invalid batch v3 completed state"))
          λ _. and_then (ok_or_err (text "missing batch result") response.result) λ result.
            and_then
              (require (uuid_eq result.result_id response.job_id)
                (text "batch result identity mismatch"))
              λ _.
                and_then (require_identity result.provider result.model result.language expected)
                  λ _.
                    and_then (validate_v3_result result)
                      λ transcription. ok (BatchTaskResult.completed response.job_id transcription)

    unfoldable pub terminal_v3 :
        EnvelopeV3 U → BatchIdentity → Result ContractViolation (BatchTaskResult U)
    unfolding failed_v3 completed_v3
    terminal_v3 response expected =
        and_then
          (require (is_none response.next_action && is_none response.retry_after_ms)
            (text "terminal response contains polling fields"))
          λ _.
            let failure = failed_v3 response in
            let completion = completed_v3 response expected in
            if is_failure response then failure else completion

    unfoldable pub by_status :
        BatchResponseStatus
        → EnvelopeV3 U
        → BatchIdentity
        → Result ContractViolation (BatchTaskResult U)
    unfolding accepted_v3 terminal_v3
    by_status accepted response expected = accepted_v3 response
    by_status ok_status response expected = terminal_v3 response expected

    -- `parse_v3`, once the fields have been read
    unfoldable pub judge_v3 :
        EnvelopeV3 U
        → BatchResponseStatus
        → BatchIdentity
        → Result ContractViolation (BatchTaskResult U)
    unfolding by_status
    judge_v3 response http_status expected =
        and_then
          (require (response.contract_version == contract_version expected)
            (text "contract version mismatch"))
          λ _.
            and_then (require_identity response.provider response.model response.language expected)
              λ _. by_status http_status response expected

-- `deserialize_job_id`: a canonical text that `Uuid::parse_str` accepts
unfoldable pub deserialize_job_id : {U : Type 0} → (Text → Option U) → Text → Option U
deserialize_job_id parse_str value = if canonical value then parse_str value else none

module _ {U : Type 0} (parse_str : Text → Option U) where
  abbrev pub with_result_id : ResultV3 Text → Option U → Option (Option (ResultV3 U))
  with_result_id r none = none
  with_result_id r (some id) = some (
      some (record {
        result_id = id;
        provider = r.provider;
        model = r.model;
        language = r.language;
        text = r.text;
        duration_ms = r.duration_ms;
        segments = r.segments;
        provider_request = r.provider_request;
      }))

  abbrev pub decode_result : Option (ResultV3 Text) → Option (Option (ResultV3 U))
  decode_result none = some none
  decode_result (some r) = with_result_id r (deserialize_job_id parse_str r.result_id)

  abbrev pub with_ids :
      EnvelopeV3 Text → Option U → Option (Option (ResultV3 U)) → Option (EnvelopeV3 U)
  with_ids e none r = none
  with_ids e (some id) none = none
  with_ids e (some id) (some r) = some (record {
    contract_version = e.contract_version;
    provider = e.provider;
    model = e.model;
    language = e.language;
    success = e.success;
    status = e.status;
    job_id = id;
    next_action = e.next_action;
    retry_after_ms = e.retry_after_ms;
    retryable = e.retryable;
    error_code = e.error_code;
    result = r;
  })

  -- The ids are decoded with the other fields, and fail with them.
  unfoldable pub decode_envelope : Option (EnvelopeV3 Text) → Option (EnvelopeV3 U)
  decode_envelope none = none
  decode_envelope (some e) =
      with_ids e (deserialize_job_id parse_str e.job_id) (decode_result e.result)

  -- `parse_response` for the ElevenLabs identity: `from_str` reads a JSON value and `from_value` its
  -- fields.
  unfoldable pub parse_response_v3 :
      {V : Type 0}
      → (U → U → Bool)
      → (ℕ → F64)
      → (Text → Option V)
      → (V → Option (EnvelopeV3 Text))
      → Text
      → BatchResponseStatus
      → Result ContractViolation (BatchTaskResult U)
  parse_response_v3 uuid_eq seconds from_str from_value json status =
      and_then
        (require (leb (byte_len json) max_response_bytes)
          (text "batch response exceeds byte limit"))
        λ _. and_then (ok_or_err (text "invalid batch JSON") (from_str json)) λ value.
          and_then
            (ok_or_err (text "invalid batch v3 response") (decode_envelope (from_value value)))
            λ response. judge_v3 seconds uuid_eq response status elevenlabs_scribe_v2_multi_v3
