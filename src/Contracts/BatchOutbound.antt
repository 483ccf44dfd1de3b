-- ===== src/Contracts/BatchOutbound.antt =====
-- crates/voicetext-gateway/src/contracts/batch_outbound.rs: the batch responses that the server sends.
use voicetext_gateway.Prelude.{
  ℕ, suc, ◌+◌, Bool, true, false, not, ◌&&◌, ◌||◌, List, [], ◌∷◌, map, Option, none, some, Text,
  text, Result, ok, and_then, ok_or_err, leb, ltb, length, is_empty, trim, byte_len, utf16_len, F64,
  is_some, checked, u64_max,
}
use voicetext_gateway.Gateway.Slots.{
  BatchIdentity, deepgram_nova3_multi_v2, elevenlabs_scribe_v2_multi_v3,
}
use voicetext_gateway.Contracts.Live.{ContractViolation, Check, require, max_safe_integer}
use voicetext_gateway.Contracts.BatchModels.{
  BatchResponseStatus, accepted, ok_status, NextAction, SegmentV3, ResultV3, provider, model,
  language, validate_error_code, validate_confidence, validate_provider_request, iff, is_none,
  max_batch_segments, max_batch_chars, max_retry_after_ms, max_response_bytes,
}
use voicetext_gateway.Batch.Validate.{max_readable_references}

pub record OutboundSegment : Type 0 where
  pub start_millis : ℕ
  pub end_millis : ℕ
  pub text : Text
  pub confidence : Option F64

pub record OutboundReadableSegment : Type 0 where
  pub start_millis : ℕ
  pub end_millis : ℕ
  pub text : Text
  pub source_segment_indices : List ℕ

pub record OutboundTranscription : Type 0 where
  pub text : Text
  pub duration_millis : ℕ
  pub segments : List OutboundSegment
  pub readable_segments : List OutboundReadableSegment
  pub provider_request_id : Option Text

pub data OutboundBatchResponse (U : Type 0) : Type 0 where
  pending : U → NextAction → ℕ → OutboundBatchResponse U
  failed : U → Text → OutboundBatchResponse U
  completed : U → OutboundTranscription → OutboundBatchResponse U

pub record SerializedBatchResponse : Type 0 where
  pub status : BatchResponseStatus
  pub body : Text

-- `StateV3`, with its `success`, `status` and `retryable`
pub data StateV3 (U : Type 0) : Type 0 where
  pending : Bool → Text → U → NextAction → ℕ → StateV3 U
  failed : Bool → Text → U → Bool → Text → StateV3 U
  completed : Bool → Text → U → ResultV3 U → StateV3 U

pub record UtteranceV2 : Type 0 where
  pub start : F64
  pub end : F64
  pub transcript : Text
  pub confidence : Option F64

pub record ReadableV2 : Type 0 where
  pub start : F64
  pub end : F64
  pub transcript : Text
  pub source_utterance_indices : List ℕ

pub record ResultV2 : Type 0 where
  pub provider : Text
  pub model : Text
  pub language : Text
  pub text : Text
  pub duration_seconds : F64
  pub utterances : List UtteranceV2
  pub readable_segments : List ReadableV2

-- The structs that are serialized: `PendingV2`, `FailedV2`, `CompletedV2` and `EnvelopeV3` with its
-- version, provider, model, language and state.
pub data Body (U : Type 0) : Type 0 where
  pending_v2 : Bool → Text → U → NextAction → ℕ → Body U
  failed_v2 : Bool → Text → U → Bool → Text → Body U
  completed_v2 : Bool → Text → U → ResultV2 → Body U
  envelope_v3 : ℕ → Text → Text → Text → StateV3 U → Body U

abbrev fits_after : ℕ → ℕ → OutboundSegment → Bool
fits_after duration previous_end s =
    leb previous_end s.start_millis && ltb s.start_millis s.end_millis && leb s.end_millis duration

-- The loop over the segments.
unfoldable pub check_outbound : ℕ → ℕ → List OutboundSegment → Check
check_outbound duration previous_end [] = ok tt
check_outbound duration previous_end (s ∷ ss) =
    and_then (require (fits_after duration previous_end s) (text "invalid segment timeline")) λ _.
      and_then
        (require (not (is_empty (trim s.text)) && leb (utf16_len s.text) max_batch_chars)
          (text "invalid segment text"))
        λ _.
          and_then (validate_confidence s.confidence) λ _. check_outbound duration s.end_millis ss

-- `previous.is_none_or(|value| index > value)`
abbrev after : Option ℕ → ℕ → Bool
after none index = true
after (some value) index = ltb value index

-- The loop over the sources of a readable segment: the last of them.
unfoldable pub check_sources : ℕ → Option ℕ → List ℕ → Result ContractViolation (Option ℕ)
check_sources count previous [] = ok previous
check_sources count previous (i ∷ is) =
    and_then (require (ltb i count && after previous i) (text "invalid readable source index"))
      λ _. check_sources count (some i) is

-- The loop over the readable segments: the references and the UTF-16 units.
unfoldable pub check_readables :
    ℕ → ℕ → ℕ → ℕ → List OutboundReadableSegment → Result ContractViolation (ℕ × ℕ)
check_readables duration count references characters [] = ok (references, characters)
check_readables duration count references characters (s ∷ ss) =
    and_then
      (require (ltb s.start_millis s.end_millis && leb s.end_millis duration)
        (text "invalid readable segment timeline"))
      λ _.
        and_then (require (not (is_empty (trim s.text))) (text "invalid readable segment text"))
          λ _. and_then (check_sources count none s.source_segment_indices) λ previous.
            and_then (require (is_some previous) (text "readable segment has no source")) λ _.
              and_then
                (ok_or_err (text "too many readable references")
                  (checked u64_max (references + length s.source_segment_indices)))
                λ r.
                  and_then
                    (ok_or_err (text "too much readable text")
                      (checked u64_max (characters + utf16_len s.text)))
                    λ c. check_readables duration count r c ss

unfoldable pub validate_readable : OutboundTranscription → Check
validate_readable result =
    and_then
      (require (leb (length result.readable_segments) max_batch_segments)
        (text "too many readable segments"))
      λ _.
        and_then
          (check_readables result.duration_millis (length result.segments) 0 0
            result.readable_segments)
          λ (references, characters).
            require (leb references max_readable_references && leb characters max_batch_chars)
              (text "readable projection exceeds bounds")

-- What each identity can represent.
unfoldable pub representable : BatchIdentity → OutboundTranscription → Check
representable elevenlabs_scribe_v2_multi_v3 result =
    and_then
      (require (iff (is_empty result.text) (is_empty result.segments))
        (text "text and segments disagree"))
      λ _.
        and_then
          (require (is_empty result.text || not (is_empty (trim result.text)))
            (text "batch text cannot contain only whitespace"))
          λ _.
            require (is_empty result.readable_segments)
              (text "v3 cannot represent readable segments")
representable deepgram_nova3_multi_v2 result =
    require (is_none result.provider_request_id) (text "v2 cannot represent provider request id")

unfoldable pub validate_outbound : BatchIdentity → OutboundTranscription → Check
unfolding validate_readable
validate_outbound identity result =
    and_then
      (require (leb result.duration_millis max_safe_integer) (text "duration exceeds safe integer"))
      λ _.
        and_then
          (require (leb (utf16_len result.text) max_batch_chars) (text "batch text exceeds bound"))
          λ _.
            and_then
              (require (leb (length result.segments) max_batch_segments) (text "too many segments"))
              λ _. and_then (representable identity result) λ _.
                and_then (check_outbound result.duration_millis 0 result.segments) λ _.
                  and_then (validate_provider_request result.provider_request_id)
                    λ _. validate_readable result

-- `enumerate().map(…)`, from an index on
abbrev pub numbered : ℕ → List OutboundSegment → List SegmentV3
numbered index [] = []
numbered index (s ∷ ss) =
    record {
      index = index;
      start_ms = s.start_millis;
      end_ms = s.end_millis;
      text = s.text;
      confidence = s.confidence;
    }
    ∷ numbered (suc index) ss

module _ (seconds : ℕ → F64) where
  abbrev pub result_v2 : OutboundTranscription → ResultV2
  result_v2 result = record {
    provider = provider deepgram_nova3_multi_v2;
    model = model deepgram_nova3_multi_v2;
    language = language deepgram_nova3_multi_v2;
    text = result.text;
    duration_seconds = seconds result.duration_millis;
    utterances =
        map
          (λ s. record {
            start = seconds s.start_millis;
            end = seconds s.end_millis;
            transcript = s.text;
            confidence = s.confidence;
          })
          result.segments;
    readable_segments =
        map
          (λ s. record {
            start = seconds s.start_millis;
            end = seconds s.end_millis;
            transcript = s.text;
            source_utterance_indices = s.source_segment_indices;
          })
          result.readable_segments;
  }

module _ {U : Type 0} where
  abbrev pub result_v3 : BatchIdentity → U → OutboundTranscription → ResultV3 U
  result_v3 identity job_id result = record {
    result_id = job_id;
    provider = provider identity;
    model = model identity;
    language = language identity;
    text = result.text;
    duration_ms = result.duration_millis;
    segments = numbered 0 result.segments;
    provider_request = result.provider_request_id;
  }

  abbrev pub envelope : BatchIdentity → StateV3 U → Body U
  envelope identity state =
      Body.envelope_v3 3 (provider identity) (model identity) (language identity) state

  abbrev pub pending_body : BatchIdentity → U → NextAction → ℕ → Body U
  pending_body deepgram_nova3_multi_v2 job_id action delay =
      Body.pending_v2 true (text "running") job_id action delay
  pending_body elevenlabs_scribe_v2_multi_v3 job_id action delay =
      envelope elevenlabs_scribe_v2_multi_v3
        (StateV3.pending true (text "running") job_id action delay)

  abbrev pub failed_body : BatchIdentity → U → Text → Body U
  failed_body deepgram_nova3_multi_v2 job_id code =
      Body.failed_v2 false (text "failed") job_id false code
  failed_body elevenlabs_scribe_v2_multi_v3 job_id code =
      envelope elevenlabs_scribe_v2_multi_v3
        (StateV3.failed false (text "failed") job_id false code)

module _ {U : Type 0} (seconds : ℕ → F64) where
  abbrev pub completed_body : BatchIdentity → U → OutboundTranscription → Body U
  completed_body deepgram_nova3_multi_v2 job_id result =
      Body.completed_v2 true (text "completed") job_id (result_v2 seconds result)
  completed_body elevenlabs_scribe_v2_multi_v3 job_id result =
      envelope elevenlabs_scribe_v2_multi_v3 (
        StateV3.completed true (text "completed") job_id
          (result_v3 elevenlabs_scribe_v2_multi_v3 job_id result))

  -- The status and the body of a response, once it is valid.
  unfoldable pub response_body :
      BatchIdentity
      → OutboundBatchResponse U
      → Result ContractViolation (BatchResponseStatus × Body U)
  response_body identity (OutboundBatchResponse.pending job_id action delay) =
      and_then (require (leb delay max_retry_after_ms) (text "retry delay exceeds limit"))
        λ _. ok (accepted, pending_body identity job_id action delay)
  response_body identity (OutboundBatchResponse.failed job_id code) =
      and_then (validate_error_code code) λ _. ok (ok_status, failed_body identity job_id code)
  response_body identity (OutboundBatchResponse.completed job_id result) =
      and_then (validate_outbound identity result)
        λ _. ok (ok_status, completed_body identity job_id result)

  unfoldable pub serialize_response :
      (Body U → Option Text)
      → BatchIdentity
      → OutboundBatchResponse U
      → Result ContractViolation SerializedBatchResponse
  unfolding response_body
  serialize_response to_string identity response =
      and_then (response_body identity response) λ (status, body).
        and_then (ok_or_err (text "cannot serialize batch response") (to_string body)) λ printed.
          and_then
            (require (leb (byte_len printed) max_response_bytes)
              (text "batch response exceeds byte limit"))
            λ _. ok (record { status = status; body = printed })
