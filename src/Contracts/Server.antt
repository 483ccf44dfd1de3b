-- ===== src/Contracts/Server.antt =====
-- The commands and the server frames of crates/voicetext-gateway/src/contracts/live.rs. The JSON values
-- and the functions that read them are parameters.
use voicetext_gateway.Prelude.{
  ℕ, Bool, true, false, not, ◌&&◌, Option, none, some, Text, text, Result, ok, err, and_then,
  ok_or_err, leb, ◌==◌, if◌then◌else◌, is_empty, text_eq, byte_len, utf16_len, F64, is_finite_f64,
  in_unit_interval_f64,
}
use voicetext_gateway.Contracts.Live.{
  ContractViolation, require, ClientCommand, LiveIdentity, Provider, Model, deepgram, elevenlabs,
  nova3, scribe_v2_realtime, FinalizeStatus, flushed, no_provider, timeout, TranscriptSegment,
  Uuids, identity_wire, deserialize_session_id, max_command_bytes, max_error_code_chars,
  max_error_message_chars, max_safe_integer, max_transcript_limit,
}

pub data ServerMessage (U : Type 0) : Type 0 where
  ready : U → LiveIdentity → ServerMessage U
  ack : ℕ → ServerMessage U
  partial final segment_final : TranscriptSegment → ServerMessage U
  error : Text → Text → ServerMessage U
  finalize_complete : FinalizeStatus → Bool → ServerMessage U
  usage_update resumed : ServerMessage U

pub record ReadyWire : Type 0 where
  pub session_id : Text
  pub provider : Provider
  pub model : Model

-- `confidence` and `is_segment_final` have their defaults when they are missing.
pub record SegmentWire : Type 0 where
  pub text : Text
  pub start_ms : ℕ
  pub duration_ms : ℕ
  pub confidence : Option F64
  pub is_segment_final : Bool

pub record FinalWire : Type 0 where
  pub text : Text
  pub start_ms : ℕ
  pub duration_ms : ℕ
  pub confidence : Option F64

pub record ErrorWire : Type 0 where
  pub code : Text
  pub message : Text

pub record FinalizeWire : Type 0 where
  pub status : FinalizeStatus
  pub saw_result : Bool

-- What the contracts ask of a `serde_json::Value`: its text, its number of fields when it is an object,
-- its `type` when that is a string, and its fields as one of the frames.
pub record Json (V : Type 0) : Type 0 where
  pub from_str : Text → Option V
  pub object_len : V → Option ℕ
  pub type_of : V → Option Text
  pub ready_from_value : V → Option ReadyWire
  pub ack_from_value : V → Option ℕ
  pub segment_from_value : V → Option SegmentWire
  pub final_from_value : V → Option FinalWire
  pub error_from_value : V → Option ErrorWire
  pub finalize_from_value : V → Option FinalizeWire

-- `Some(t) == Some(expected)`
abbrev pub is_type : Option Text → Text → Bool
is_type none expected = false
is_type (some t) expected = text_eq t expected

module _ {V : Type 0} (json : Json V) where
  command_of : Option Text → Result ContractViolation ClientCommand
  command_of t =
      if is_type t (text "finalize")
      then ok ClientCommand.finalize
      else if is_type t (text "close")
      then ok ClientCommand.close
      else err (text "unsupported live client command")

  unfoldable pub parse_client_command : Text → Result ContractViolation ClientCommand
  unfolding command_of
  parse_client_command frame =
      and_then
        (require (leb (byte_len frame) max_command_bytes) (text "live command exceeds byte limit"))
        λ _.
          and_then (ok_or_err (text "invalid live client command") (json.from_str frame)) λ value.
            and_then (ok_or_err (text "invalid live client command") (json.object_len value)) λ len.
              and_then (require (len == 1) (text "live client command has extra fields"))
                λ _. command_of (json.type_of value)

abbrev pub provider_eq : Provider → Provider → Bool
provider_eq deepgram deepgram = true
provider_eq elevenlabs elevenlabs = true
provider_eq p q = false

abbrev pub model_eq : Model → Model → Bool
model_eq nova3 nova3 = true
model_eq scribe_v2_realtime scribe_v2_realtime = true
model_eq m n = false

-- `confidence.is_none_or(|value| value.is_finite() && (0.0..=1.0).contains(&value))`
abbrev pub good_confidence : Option F64 → Bool
good_confidence none = true
good_confidence (some value) = is_finite_f64 value && in_unit_interval_f64 value

unfoldable pub validate_segment :
    Text → ℕ → ℕ → Option F64 → ℕ → Result ContractViolation TranscriptSegment
validate_segment words start_ms duration_ms confidence maximum =
    and_then (require (leb (utf16_len words) maximum) (text "live transcript exceeds bound")) λ _.
      and_then
        (require (leb start_ms max_safe_integer && leb duration_ms max_safe_integer)
          (text "live segment time exceeds safe integer"))
        λ _. and_then (require (good_confidence confidence) (text "invalid live confidence")) λ _.
          ok (record {
            text = words;
            start_ms = start_ms;
            duration_ms = duration_ms;
            confidence = confidence;
          })

-- `!matches!((status, saw_result), (Flushed, false) | (NoProvider, true))`
abbrev pub consistent : FinalizeStatus → Bool → Bool
consistent flushed saw_result = saw_result
consistent no_provider saw_result = not saw_result
consistent timeout saw_result = true

module _ {U V : Type 0} (uuids : Uuids U) (json : Json V) where
  unfoldable pub ready_session : ReadyWire → Option U → Option (U × Provider × Model)
  ready_session w none = none
  ready_session w (some id) = some (id, w.provider, w.model)

  -- The session id is decoded with the other fields, and fails with them.
  unfoldable pub decode_ready : Option ReadyWire → Option (U × Provider × Model)
  unfolding ready_session
  decode_ready none = none
  decode_ready (some w) = ready_session w (deserialize_session_id uuids w.session_id)

  unfoldable pub parse_ready : V → LiveIdentity → Result ContractViolation (ServerMessage U)
  unfolding decode_ready
  parse_ready value expected =
      and_then
        (ok_or_err (text "invalid ready message") (decode_ready (json.ready_from_value value)))
        λ (session_id, provider, model).
          and_then
            (require
              (provider_eq provider (identity_wire expected).0
                && model_eq model (identity_wire expected).1)
              (text "ready identity mismatch"))
            λ _. ok (ServerMessage.ready session_id expected)

  unfoldable pub parse_ack : V → Result ContractViolation (ServerMessage U)
  parse_ack value =
      and_then (ok_or_err (text "invalid ack message") (json.ack_from_value value)) λ seq.
        and_then
          (require (leb 1 seq && leb seq max_safe_integer) (text "invalid audio acknowledgement"))
          λ _. ok (ServerMessage.ack seq)

  unfoldable pub parse_partial : V → ℕ → Result ContractViolation (ServerMessage U)
  parse_partial value maximum =
      and_then (ok_or_err (text "invalid partial message") (json.segment_from_value value)) λ wire.
        and_then (validate_segment wire.text wire.start_ms wire.duration_ms wire.confidence maximum)
          λ segment. ok (
            if wire.is_segment_final
            then ServerMessage.segment_final segment
            else ServerMessage.partial segment)

  unfoldable pub parse_final : V → ℕ → Result ContractViolation (ServerMessage U)
  parse_final value maximum =
      and_then (ok_or_err (text "invalid final message") (json.final_from_value value)) λ wire.
        and_then (validate_segment wire.text wire.start_ms wire.duration_ms wire.confidence maximum)
          λ segment. ok (ServerMessage.final segment)

  unfoldable pub parse_error : V → Result ContractViolation (ServerMessage U)
  parse_error value =
      and_then (ok_or_err (text "invalid error message") (json.error_from_value value)) λ wire.
        and_then
          (require (not (is_empty wire.code) && leb (utf16_len wire.code) max_error_code_chars)
            (text "invalid live error code"))
          λ _.
            and_then
              (require (leb (utf16_len wire.message) max_error_message_chars)
                (text "live error message exceeds bound"))
              λ _. ok (ServerMessage.error wire.code wire.message)

  unfoldable pub parse_finalize : V → Result ContractViolation (ServerMessage U)
  parse_finalize value =
      and_then
        (ok_or_err (text "invalid finalize acknowledgement") (json.finalize_from_value value))
        λ wire.
          and_then
            (require (consistent wire.status wire.saw_result)
              (text "inconsistent finalize evidence"))
            λ _. ok (ServerMessage.finalize_complete wire.status wire.saw_result)

  unfoldable pub parse_empty :
      V → Text → ServerMessage U → Result ContractViolation (ServerMessage U)
  parse_empty value expected result =
      and_then (ok_or_err (text "server message is not an object") (json.object_len value)) λ len.
        and_then
          (require (len == 1 && is_type (json.type_of value) expected)
            (text "unexpected fields in empty server message"))
          λ _. ok result

  unfoldable pub parse_typed :
      V → Text → LiveIdentity → ℕ → Result ContractViolation (ServerMessage U)
  unfolding parse_ready parse_ack parse_partial parse_final parse_error parse_finalize parse_empty
  parse_typed value message_type expected maximum =
      if text_eq message_type (text "ready")
      then parse_ready value expected
      else if text_eq message_type (text "ack")
      then parse_ack value
      else if text_eq message_type (text "partial")
      then parse_partial value maximum
      else if text_eq message_type (text "final")
      then parse_final value maximum
      else if text_eq message_type (text "error")
      then parse_error value
      else if text_eq message_type (text "finalize_complete")
      then parse_finalize value
      else if text_eq message_type (text "usage_update")
      then parse_empty value (text "usage_update") ServerMessage.usage_update
      else if text_eq message_type (text "resumed")
      then parse_empty value (text "resumed") ServerMessage.resumed
      else err (text "unsupported live server message type")

  unfoldable pub parse_server_message :
      Text → LiveIdentity → ℕ → Result ContractViolation (ServerMessage U)
  unfolding parse_typed
  parse_server_message frame expected max_transcript_chars =
      and_then
        (require (leb 1 max_transcript_chars && leb max_transcript_chars max_transcript_limit)
          (text "invalid transcript bound"))
        λ _. and_then (ok_or_err (text "invalid live server JSON") (json.from_str frame)) λ value.
          and_then (ok_or_err (text "live server message has no type") (json.type_of value))
            λ message_type. parse_typed value message_type expected max_transcript_chars
