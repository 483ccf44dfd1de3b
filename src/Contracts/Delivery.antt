-- ===== src/Contracts/Delivery.antt =====
-- A server frame that is sent and received: contracts/live_outbound.rs against contracts/live.rs.
use mathlib.Core.Option
use mathlib.Core.Path.{subst}
use voicetext_gateway.Prelude.{
  ℕ, ◌≤◌, ◌≡◌, refl, sym, ap, ◌∙◌, Bool, true, false, ◌&&◌, Option, none, some, Text, text, text_eq,
  ok, and_then_into, and_then_bound, ok_injective, ok_or_err, ok_or_err-ok, utf16_len, F64, arith,
}
use voicetext_gateway.Contracts.Live.{
  ContractViolation, require, LiveIdentity, deepgram_nova3, elevenlabs_scribe_v2_realtime,
  TranscriptSegment, Uuids, identity_wire, max_transcript_limit,
}
use voicetext_gateway.Contracts.Server.{
  ServerMessage, ReadyWire, Json, good_confidence, validate_segment, parse_ready, parse_ack,
  parse_partial, parse_final, parse_error, parse_finalize, parse_typed, parse_server_message,
  decode_ready, ready_session, provider_eq, model_eq,
}
use voicetext_gateway.Contracts.Outbound.{
  OutboundServerMessage, Wire, validate_outbound_segment, validate_finalize, validate_session_id,
  message_wire, segment_wire, serialize_server_message,
}
use voicetext_gateway.Contracts.Config.{UuidLaws, session_back, require_passed}

-- The number that is read for a number that was printed. A number in [0, 1] is read as one in [0, 1],
-- but its last bit may differ.
pub record Rereads (reread : F64 → F64) : Type 0 where
  pub good : (c : F64) → good_confidence (some c) ≡ true → good_confidence (some (reread c)) ≡ true

pub confidence_back :
    (reread : F64 → F64)
    → Rereads reread
    → (o : Option F64) (e : ContractViolation) → require (good_confidence o) e ≡ ok tt
    → require (good_confidence (Option.map reread o)) e ≡ ok tt
confidence_back reread good none e h = h
confidence_back reread good (some c) e h =
    let h1 : good_confidence (some c) ≡ true = require_passed _ e h in rw (good.good c h1) refl

-- The flag of a segment, with its default.
abbrev flag_of : Option Bool → Bool
flag_of none = false
flag_of (some b) = b

module _ {U V : Type 0} (uuids : Uuids U) (json : Json V) (reread : F64 → F64) where
  -- The value has the type and the fields of a frame that was printed, if it is a frame of that type. A
  -- confidence that is not a number is printed as `null`; one in [0, 1] is read back.
  abbrev pub HasFields : V → Wire U → Type 0
  HasFields v (Wire.ready t u p m) =
      (json.type_of v ≡ some t)
      × (t ≡ text "ready"
          → json.ready_from_value v
            ≡ some (record { session_id = uuids.hyphenated u; provider = p; model = m }))
  HasFields v (Wire.ack t n) =
      (json.type_of v ≡ some t) × (t ≡ text "ack" → json.ack_from_value v ≡ some n)
  HasFields v (Wire.segment t words a d c f) =
      (json.type_of v ≡ some t)
      × (t ≡ text "partial"
          → good_confidence c ≡ true
          → json.segment_from_value v
            ≡ some (record {
              text = words;
              start_ms = a;
              duration_ms = d;
              confidence = Option.map reread c;
              is_segment_final = flag_of f;
            }))
      × (t ≡ text "final"
          → f ≡ none
          → good_confidence c ≡ true
          → json.final_from_value v
            ≡ some (record {
              text = words;
              start_ms = a;
              duration_ms = d;
              confidence = Option.map reread c;
            }))
  HasFields v (Wire.finalize t s b) =
      (json.type_of v ≡ some t)
      × (t ≡ text "finalize_complete"
          → json.finalize_from_value v ≡ some (record { status = s; saw_result = b }))
  HasFields v (Wire.error t c m) =
      (json.type_of v ≡ some t)
      × (t ≡ text "error" → json.error_from_value v ≡ some (record { code = c; message = m }))

  -- Frames that were printed are read back with their fields.
  abbrev pub WiresRead : (Wire U → Option Text) → Type 0
  WiresRead to_string =
      (w : Wire U) (t : Text)
      → to_string w ≡ some t
      → (v : V) × (json.from_str t ≡ some v) × HasFields v w

  abbrev reread_segment : TranscriptSegment → TranscriptSegment
  reread_segment s = record s { confidence = Option.map reread s.confidence }

  -- What a client is told by a message.
  abbrev pub received : OutboundServerMessage U → ServerMessage U
  received (OutboundServerMessage.ready u i) = ServerMessage.ready u i
  received (OutboundServerMessage.ack n) = ServerMessage.ack n
  received (OutboundServerMessage.partial s) = ServerMessage.partial (reread_segment s)
  received (OutboundServerMessage.final s) = ServerMessage.final (reread_segment s)
  received (OutboundServerMessage.segment_final s) = ServerMessage.segment_final (reread_segment s)
  received (OutboundServerMessage.finalize_complete status b) =
      ServerMessage.finalize_complete status b
  received (OutboundServerMessage.error c m) = ServerMessage.error c m

  -- The client expects the identity that is announced, and has room for the transcript.
  abbrev pub Awaits : LiveIdentity → ℕ → OutboundServerMessage U → Type 0
  Awaits expected maximum (OutboundServerMessage.ready u i) = i ≡ expected
  Awaits expected maximum (OutboundServerMessage.partial s) = utf16_len s.text ≤ maximum
  Awaits expected maximum (OutboundServerMessage.final s) = utf16_len s.text ≤ maximum
  Awaits expected maximum (OutboundServerMessage.segment_final s) = utf16_len s.text ≤ maximum
  Awaits expected maximum m = Unit {0}

  segment_received :
      Rereads reread
      → (s : TranscriptSegment) (maximum : ℕ) → validate_outbound_segment s ≡ ok tt
      → utf16_len s.text ≤ maximum
      → validate_segment s.text s.start_ms s.duration_ms (Option.map reread s.confidence) maximum
        ≡ ok (reread_segment s)
  unfolding validate_segment validate_outbound_segment
  segment_received good s maximum h l = and_then_bound h λ a room h1. and_then_bound h1 λ b safe h2.
      and_then_bound h2 λ c fits confident. and_then_into _ (ground arith) (
        and_then_into _ safe
          (and_then_into _ (confidence_back reread good s.confidence _ confident) refl))

  outbound-good :
      (s : TranscriptSegment)
      → validate_outbound_segment s ≡ ok tt
      → good_confidence s.confidence ≡ true
  unfolding validate_outbound_segment
  outbound-good s h = and_then_bound h λ a room h1.
      and_then_bound h1
        λ b safe h2. and_then_bound h2 λ c fits confident. require_passed _ _ confident

  ready_agrees :
      (i : LiveIdentity)
      → (provider_eq (identity_wire i).0 (identity_wire i).0
          && model_eq (identity_wire i).1 (identity_wire i).1)
        ≡ true
  ready_agrees deepgram_nova3 = refl
  ready_agrees elevenlabs_scribe_v2_realtime = refl

  module _ (laws : UuidLaws uuids) (good : Rereads reread) (expected : LiveIdentity)
      (maximum : ℕ) where
    -- The client's reading of a value with the fields of a message.
    Understood : V → OutboundServerMessage U → Type 0
    Understood v m =
        (t : Text) × (json.type_of v ≡ some t)
        × (parse_typed uuids json v t expected maximum ≡ ok (received m))

    partial_understood :
        (v : V) (s : TranscriptSegment)
        → Awaits expected maximum (OutboundServerMessage.partial s)
        → validate_outbound_segment s ≡ ok tt
        → HasFields v (segment_wire (text "partial") s none)
        → parse_partial uuids json v maximum ≡ ok (ServerMessage.partial (reread_segment s))
    unfolding parse_partial
    partial_understood v s a h (t, f, _) =
        and_then_into _ (ap (ok_or_err _) (f refl (outbound-good s h)))
          (and_then_into _ (segment_received good s maximum h a) refl)

    segment_understood :
        (v : V) (s : TranscriptSegment)
        → Awaits expected maximum (OutboundServerMessage.segment_final s)
        → validate_outbound_segment s ≡ ok tt
        → HasFields v (segment_wire (text "partial") s (some true))
        → parse_partial uuids json v maximum ≡ ok (ServerMessage.segment_final (reread_segment s))
    unfolding parse_partial
    segment_understood v s a h (t, f, _) =
        and_then_into _ (ap (ok_or_err _) (f refl (outbound-good s h)))
          (and_then_into _ (segment_received good s maximum h a) refl)

    final_understood :
        (v : V) (s : TranscriptSegment)
        → Awaits expected maximum (OutboundServerMessage.final s)
        → validate_outbound_segment s ≡ ok tt
        → HasFields v (segment_wire (text "final") s none)
        → parse_final uuids json v maximum ≡ ok (ServerMessage.final (reread_segment s))
    unfolding parse_final
    final_understood v s a h (t, _, f) =
        and_then_into _ (ap (ok_or_err _) (f refl refl (outbound-good s h)))
          (and_then_into _ (segment_received good s maximum h a) refl)

    ready_understood :
        (v : V) (u : U) (i : LiveIdentity)
        → i ≡ expected
        → validate_session_id uuids u ≡ ok tt
        → HasFields v (Wire.ready (text "ready") u (identity_wire i).0 (identity_wire i).1)
        → parse_ready uuids json v expected ≡ ok (ServerMessage.ready u i)
    unfolding parse_ready decode_ready ready_session validate_session_id
    ready_understood v u i a h f =
        let (p, m) = identity_wire i in
        let session = session_back uuids laws u (require_passed _ _ h) in
        let wire : ReadyWire = record {
          session_id = uuids.hyphenated u;
          provider = p;
          model = m;
        } in
        let decoded =
          ap (decode_ready uuids json) (f.1 refl) ∙ ap (ready_session uuids json wire) session in
        subst (λ x. parse_ready uuids json v x ≡ ok (ServerMessage.ready u i)) a
          (and_then_into {a = (u, p, m)} _ (ap (ok_or_err _) decoded)
            (and_then_into _ (rw (ready_agrees i) refl) refl))

    understood :
        (m : OutboundServerMessage U) (w : Wire U) (v : V)
        → Awaits expected maximum m
        → message_wire uuids m ≡ ok w
        → HasFields v w
        → Understood v m
    unfolding message_wire parse_typed text_eq Understood parse_ack parse_finalize parse_error
        validate_finalize
    understood (OutboundServerMessage.ready u i) w v a h f = and_then_bound h λ c valid e.
        let g = subst (HasFields v) (sym (ok_injective _ w e)) f in
        (text "ready", g.0, ready_understood v u i a valid g)
    understood (OutboundServerMessage.ack n) w v a h f = and_then_bound h λ c valid e.
        let g = subst (HasFields v) (sym (ok_injective _ w e)) f in
        (
          text "ack",
          g.0,
          and_then_into _ (ap (ok_or_err _) (g.1 refl)) (and_then_into _ valid refl),
        )
    understood (OutboundServerMessage.partial s) w v a h f = and_then_bound h λ c valid e.
        let g = subst (HasFields v) (sym (ok_injective _ w e)) f in
        (text "partial", g.0, partial_understood v s a valid g)
    understood (OutboundServerMessage.final s) w v a h f = and_then_bound h λ c valid e.
        let g = subst (HasFields v) (sym (ok_injective _ w e)) f in
        (text "final", g.0, final_understood v s a valid g)
    understood (OutboundServerMessage.segment_final s) w v a h f = and_then_bound h λ c valid e.
        let g = subst (HasFields v) (sym (ok_injective _ w e)) f in
        (text "partial", g.0, segment_understood v s a valid g)
    understood (OutboundServerMessage.finalize_complete s b) w v a h f =
        and_then_bound h λ c valid e.
          let g = subst (HasFields v) (sym (ok_injective _ w e)) f in
          (
            text "finalize_complete",
            g.0,
            and_then_into _ (ap (ok_or_err _) (g.1 refl)) (and_then_into _ valid refl),
          )
    understood (OutboundServerMessage.error c m) w v a h f = and_then_bound h λ b coded h1.
        and_then_bound h1 λ d short e.
          let g = subst (HasFields v) (sym (ok_injective _ w e)) f in
          (
            text "error",
            g.0,
            and_then_into _ (ap (ok_or_err _) (g.1 refl))
                (and_then_into _ coded (and_then_into _ short refl)),
          )

    -- If the frames and the UUIDs that were printed are read back, with a confidence in [0, 1] as one,
    -- then a client with a transcript bound from 1 to 65536 that awaits the announced identity and
    -- has room for the transcript receives, from the frame of a message that the server could
    -- write, that message.
    pub parse-serialize :
        (to_string : Wire U → Option Text)
        → WiresRead to_string
        → (1 ≤ maximum) × (maximum ≤ max_transcript_limit)
        → (m : OutboundServerMessage U) (frame : Text) → Awaits expected maximum m
        → serialize_server_message uuids to_string m ≡ ok frame
        → parse_server_message uuids json frame expected maximum ≡ ok (received m)
    unfolding serialize_server_message parse_server_message Understood
    parse-serialize to_string reads bound m frame a h = and_then_bound h λ w valid printed.
        let (v, parsed, fields) = reads w frame (ok_or_err-ok _ _ frame printed) in
        let (t, typed, told) = understood m w v a valid fields in
        and_then_into _ (ground arith) (
          and_then_into _ (ap (ok_or_err _) parsed) (and_then_into _ (ap (ok_or_err _) typed) told))
