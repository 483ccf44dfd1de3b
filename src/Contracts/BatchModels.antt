-- ===== src/Contracts/BatchModels.antt =====
-- crates/voicetext-gateway/src/contracts/batch.rs: the batch identities, the bounds, the frames of the
-- v3 responses and the checks of one field. `U` is the type of UUIDs.
use voicetext_gateway.Prelude.{
  ℕ, Bool, true, false, not, ◌&&◌, ◌||◌, List, Option, none, some, Text, text, leb, ◌==◌, is_empty,
  all, trim, text_eq, utf16_len, F64, is_some,
}
use voicetext_gateway.Contracts.Live.{Check, require, max_error_code_chars}
use voicetext_gateway.Contracts.Server.{good_confidence}
use voicetext_gateway.Gateway.Slots.{
  BatchIdentity, deepgram_nova3_multi_v2, elevenlabs_scribe_v2_multi_v3,
}

abbrev pub max_provider_request_id_chars : ℕ
max_provider_request_id_chars = 256

abbrev pub max_batch_segments : ℕ
max_batch_segments = 10000

abbrev pub max_batch_chars : ℕ
max_batch_chars = 1000000

abbrev pub max_retry_after_ms : ℕ
max_retry_after_ms = 3600000

abbrev pub max_response_bytes : ℕ
max_response_bytes = 2097152

abbrev pub contract_version : BatchIdentity → ℕ
contract_version deepgram_nova3_multi_v2 = 2
contract_version elevenlabs_scribe_v2_multi_v3 = 3

abbrev pub provider : BatchIdentity → Text
provider deepgram_nova3_multi_v2 = text "deepgram"
provider elevenlabs_scribe_v2_multi_v3 = text "elevenlabs"

abbrev pub model : BatchIdentity → Text
model deepgram_nova3_multi_v2 = text "nova-3"
model elevenlabs_scribe_v2_multi_v3 = text "scribe_v2"

abbrev pub language : BatchIdentity → Text
language identity = text "multi"

pub data BatchResponseStatus : Type 0 where
  accepted ok_status : BatchResponseStatus

pub data NextAction : Type 0 where
  poll retry : NextAction

pub record Utterance : Type 0 where
  pub start : F64
  pub end : F64
  pub transcript : Text
  pub confidence : Option F64

pub record ReadableSegment : Type 0 where
  pub start : F64
  pub end : F64
  pub transcript : Text
  pub source_utterance_indices : List ℕ

pub record BatchTranscription : Type 0 where
  pub duration_seconds : F64
  pub utterances : List Utterance
  pub readable_segments : List ReadableSegment
  pub provider_request_id : Option Text

pub data BatchTaskResult (U : Type 0) : Type 0 where
  pending : U → NextAction → ℕ → BatchTaskResult U
  failed : U → Text → BatchTaskResult U
  completed : U → BatchTranscription → BatchTaskResult U

pub record SegmentV3 : Type 0 where
  pub index : ℕ
  pub start_ms : ℕ
  pub end_ms : ℕ
  pub text : Text
  pub confidence : Option F64

-- `I` is the type of the ids.
pub record ResultV3 (I : Type 0) : Type 0 where
  pub result_id : I
  pub provider : Text
  pub model : Text
  pub language : Text
  pub text : Text
  pub duration_ms : ℕ
  pub segments : List SegmentV3
  pub provider_request : Option Text

pub record EnvelopeV3 (I : Type 0) : Type 0 where
  pub contract_version : ℕ
  pub provider : Text
  pub model : Text
  pub language : Text
  pub success : Bool
  pub status : Text
  pub job_id : I
  pub next_action : Option NextAction
  pub retry_after_ms : Option ℕ
  pub retryable : Option Bool
  pub error_code : Option Text
  pub result : Option (ResultV3 I)

-- `validate_text`
unfoldable pub validate_text : Text → Bool → Check
validate_text value allow_empty =
    require (leb (utf16_len value) max_batch_chars && (allow_empty || not (is_empty (trim value))))
      (text "invalid transcript text")

abbrev pub is_code_byte : ℕ → Bool
is_code_byte b = (leb 65 b && leb b 90) || (leb 48 b && leb b 57) || b == 95

unfoldable pub validate_error_code : Text → Check
validate_error_code value =
    require
      (not (is_empty value) && leb (utf16_len value) max_error_code_chars && all is_code_byte value)
      (text "invalid error code")

unfoldable pub require_identity : Text → Text → Text → BatchIdentity → Check
require_identity p m l expected =
    require
      (text_eq p (provider expected) && text_eq m (model expected) && text_eq l (language expected))
      (text "batch identity mismatch")

unfoldable pub validate_confidence : Option F64 → Check
validate_confidence value = require (good_confidence value) (text "invalid confidence")

-- `(0x20..=0x7e).contains(&byte)`
abbrev pub is_graphic : ℕ → Bool
is_graphic b = leb 0x20 b && leb b 0x7e

abbrev pub good_request : Option Text → Bool
good_request none = true
good_request (some id) =
    not (is_empty id) && leb (utf16_len id) max_provider_request_id_chars && all is_graphic id

unfoldable pub validate_provider_request : Option Text → Check
validate_provider_request id = require (good_request id) (text "invalid provider request id")

-- `value.is_none()`
abbrev pub is_none {ℓ} : {A : Type ℓ} → Option A → Bool
is_none o = not (is_some o)

-- `a == b` of Booleans
abbrev pub iff : Bool → Bool → Bool
iff true b = b
iff false b = not b

-- `response.success && response.status == …`
abbrev pub in_state : {I : Type 0} → EnvelopeV3 I → Text → Bool
in_state response status = response.success && text_eq response.status status

-- `retryable == Some(false)`
abbrev pub not_retryable : Option Bool → Bool
not_retryable none = false
not_retryable (some b) = not b

abbrev pub is_failure : {I : Type 0} → EnvelopeV3 I → Bool
is_failure response =
    not response.success
    && text_eq response.status (text "failed")
    && not_retryable response.retryable
