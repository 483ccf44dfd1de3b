-- ===== src/Contracts/Outbound.antt =====
-- crates/voicetext-gateway/src/contracts/live_outbound.rs: the frames that the server sends.
use voicetext_gateway.Prelude.{
  ℕ, ◌+◌, Bool, true, not, ◌&&◌, Option, none, some, Text, text, Result, ok, and_then, ok_or_err,
  leb, is_empty, utf16_len, F64, is_some, checked, u64_max,
}
use voicetext_gateway.Contracts.Live.{
  ContractViolation, Check, require, LiveIdentity, Provider, Model, FinalizeStatus,
  TranscriptSegment, Uuids, identity_wire, session_uuid, max_error_code_chars,
  max_error_message_chars, max_safe_integer,
}
use voicetext_gateway.Contracts.Server.{good_confidence, consistent}

abbrev pub max_transcript_chars : ℕ
max_transcript_chars = 65536

pub data OutboundServerMessage (U : Type 0) : Type 0 where
  ready : U → LiveIdentity → OutboundServerMessage U
  ack : ℕ → OutboundServerMessage U
  partial final segment_final : TranscriptSegment → OutboundServerMessage U
  finalize_complete : FinalizeStatus → Bool → OutboundServerMessage U
  error : Text → Text → OutboundServerMessage U

-- The structs that are serialized, each with its `type` first.
pub data Wire (U : Type 0) : Type 0 where
  ready : Text → U → Provider → Model → Wire U
  ack : Text → ℕ → Wire U
  segment : Text → Text → ℕ → ℕ → Option F64 → Option Bool → Wire U
  finalize : Text → FinalizeStatus → Bool → Wire U
  error : Text → Text → Text → Wire U

unfoldable pub validate_outbound_segment : TranscriptSegment → Check
validate_outbound_segment s =
    and_then
      (require (leb (utf16_len s.text) max_transcript_chars) (text "live transcript exceeds bound"))
      λ _.
        and_then
          (require (leb s.start_ms max_safe_integer && leb s.duration_ms max_safe_integer)
            (text "live segment time exceeds safe integer"))
          λ _.
            and_then
              (require (is_some (checked u64_max (s.start_ms + s.duration_ms)))
                (text "live segment timing overflow"))
              λ _. require (good_confidence s.confidence) (text "invalid live confidence")

unfoldable pub validate_finalize : FinalizeStatus → Bool → Check
validate_finalize status saw_result =
    require (consistent status saw_result) (text "inconsistent finalize evidence")

abbrev pub segment_wire : {U : Type 0} → Text → TranscriptSegment → Option Bool → Wire U
segment_wire message_type s is_segment_final =
    Wire.segment message_type s.text s.start_ms s.duration_ms s.confidence is_segment_final

module _ {U : Type 0} (uuids : Uuids U) where
  unfoldable pub validate_session_id : U → Check
  validate_session_id session_id =
      require (session_uuid uuids session_id) (text "invalid live session UUID")

  -- The frame of a message, once it is valid.
  unfoldable pub message_wire : OutboundServerMessage U → Result ContractViolation (Wire U)
  unfolding validate_session_id validate_outbound_segment validate_finalize
  message_wire (OutboundServerMessage.ready session_id identity) =
      and_then (validate_session_id session_id) λ _.
        ok (
          Wire.ready (text "ready") session_id (identity_wire identity).0
            (identity_wire identity).1)
  message_wire (OutboundServerMessage.ack seq) =
      and_then
        (require (leb 1 seq && leb seq max_safe_integer) (text "invalid audio acknowledgement"))
        λ _. ok (Wire.ack (text "ack") seq)
  message_wire (OutboundServerMessage.partial s) =
      and_then (validate_outbound_segment s) λ _. ok (segment_wire (text "partial") s none)
  message_wire (OutboundServerMessage.final s) =
      and_then (validate_outbound_segment s) λ _. ok (segment_wire (text "final") s none)
  message_wire (OutboundServerMessage.segment_final s) =
      and_then (validate_outbound_segment s) λ _. ok (segment_wire (text "partial") s (some true))
  message_wire (OutboundServerMessage.finalize_complete status saw_result) =
      and_then (validate_finalize status saw_result)
        λ _. ok (Wire.finalize (text "finalize_complete") status saw_result)
  message_wire (OutboundServerMessage.error code message) =
      and_then
        (require (not (is_empty code) && leb (utf16_len code) max_error_code_chars)
          (text "invalid live error code"))
        λ _.
          and_then
            (require (leb (utf16_len message) max_error_message_chars)
              (text "live error message exceeds bound"))
            λ _. ok (Wire.error (text "error") code message)

  unfoldable pub serialize_server_message :
      (Wire U → Option Text) → OutboundServerMessage U → Result ContractViolation Text
  unfolding message_wire
  serialize_server_message to_string message =
      and_then (message_wire message)
        λ wire. ok_or_err (text "cannot serialize live server message") (to_string wire)
