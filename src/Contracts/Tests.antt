-- ===== src/Contracts/Tests.antt =====
-- Concrete frames, over a JSON library that prints ACKs, polls and the configs of one client.
use mathlib.Core.Option
use voicetext_gateway.Prelude.{
  ap, sym, ◌&&◌, text_eq_iff, byte_len, and_then, trim, is_whitespace, is_control, utf16_len, ℕ,
  zero, suc, F64, is_finite_f64, in_unit_interval_f64, ◌∙◌, ◌≤◌, ◌≡◌, refl, true, false, List, [],
  ◌∷◌, Option, none, some, Text, text, text_eq, ok, if◌then◌else◌, ◌==◌, arith,
}
use voicetext_gateway.Contracts.Live.{
  canonical, ClientConfig, ConfigWire, Provider, Model, Encoding, deepgram, elevenlabs, nova3,
  scribe_v2_realtime, opus, pcm_s16le, validate_language, validate_keyterms, total_keyterms, Uuids,
  deepgram_nova3, TranscriptSegment, pcm_s16le16_khz, parse_client_config, serialize_client_config,
  config_wire,
}
use voicetext_gateway.Contracts.Server.{
  ServerMessage, Json, SegmentWire, good_confidence, parse_server_message,
}
use voicetext_gateway.Contracts.Outbound.{
  OutboundServerMessage, Wire, message_wire, validate_outbound_segment, serialize_server_message,
}
use voicetext_gateway.Contracts.Config.{UuidLaws, ReadsBack, parse-serialize_config}
use voicetext_gateway.Contracts.Delivery.{Rereads, WiresRead, parse-serialize}

abbrev session : Text
session = text "0b5b94a4-39a5-4e62-a7e2-c9b8b4a6a3f1"

-- The only UUID is that of the session.
abbrev uuids : Uuids (Unit {0})
uuids = record {
  parse_str = λ t. some tt;
  hyphenated = λ u. session;
  is_rfc4122 = λ u. true;
  version_num = λ u. 4;
}

uuid_laws : UuidLaws uuids
unfolding canonical byte_len
uuid_laws = record { parse_back = λ u. refl; hyphenated-canonical = λ u. refl }

-- A confidence that was printed, before the rest: one that is not finite is printed as if it were absent.
abbrev with_confidence : Option F64 → Text → Text
with_confidence none t = 0 ∷ t
with_confidence (some c) t = if is_finite_f64 c then 1 ∷ c ∷ t else 0 ∷ t

abbrev print_wire : Wire (Unit {0}) → Option Text
print_wire (Wire.ack t n) = if text_eq t (text "ack") then some (0 ∷ n ∷ []) else none
print_wire (Wire.segment t words a d c none) =
    if text_eq t (text "partial") then some (1 ∷ a ∷ d ∷ with_confidence c words) else none
print_wire w = none

abbrev type_name : Text → Option Text
type_name (zero ∷ n ∷ []) = some (text "ack")
type_name (suc k ∷ a ∷ d ∷ t) = some (text "partial")
type_name t = none

abbrev read_ack : Text → Option ℕ
read_ack (zero ∷ n ∷ []) = some n
read_ack t = none

abbrev segment_read : ℕ → ℕ → Option F64 → Text → Option SegmentWire
segment_read a d c words = some (record {
  text = words;
  start_ms = a;
  duration_ms = d;
  confidence = c;
  is_segment_final = false;
})

abbrev read_segment : Text → Option SegmentWire
read_segment (suc k ∷ a ∷ d ∷ zero ∷ words) = segment_read a d none words
read_segment (suc k ∷ a ∷ d ∷ suc l ∷ c ∷ words) = segment_read a d (some c) words
read_segment t = none

-- A value is the text that was parsed.
abbrev json : Json Text
json = record {
  from_str = λ t. some t;
  object_len = λ v. some 2;
  type_of = type_name;
  ready_from_value = λ v. none;
  ack_from_value = read_ack;
  segment_from_value = read_segment;
  final_from_value = λ v. none;
  error_from_value = λ v. none;
  finalize_from_value = λ v. none;
}

printed_as :
    (m n : Text) (x t : Text) → (if text_eq m n then some x else none) ≡ some t → (m ≡ n) × (x ≡ t)
printed_as m n x t h = ground (arith, text_eq_iff m n)

segment_back :
    (a d : ℕ) (c : Option F64) (words : Text)
    → good_confidence c ≡ true
    → read_segment (1 ∷ a ∷ d ∷ with_confidence c words)
      ≡ segment_read a d (Option.map (λ x. x) c) words
segment_back a d none words h = refl
segment_back a d (some c) words h =
    let finite : is_finite_f64 c ≡ true = ground arith in rw finite refl

different : text "partial" ≡ text "final" → ⊥
different h = cc

wires_read : WiresRead uuids json (λ c. c) print_wire
wires_read (Wire.ready m u p q) t h = cc
wires_read (Wire.ack m n) t h =
    let (e, k) = printed_as m (text "ack") (0 ∷ n ∷ []) t h in
    (t, refl, (ap type_name (sym k) ∙ ap some (sym e), λ _. ap read_ack (sym k)))
wires_read (Wire.segment m words a d c (some f)) t h = cc
wires_read (Wire.segment m words a d c none) t h =
    let (e, k) = printed_as m (text "partial") (1 ∷ a ∷ d ∷ with_confidence c words) t h in
    (
      t,
      refl,
      (
        ap type_name (sym k) ∙ ap some (sym e),
        (λ _ good. ap read_segment (sym k) ∙ segment_back a d c words good),
        λ final _ _. absurd (different (sym e ∙ final)),
      ),
    )
wires_read (Wire.finalize m s b) t h = cc
wires_read (Wire.error m c e) t h = cc

rereads : Rereads (λ c. c)
rereads = record { good = λ c h. h }

-- The bits of 0.5.
abbrev one_half : F64
one_half = 4602678819172646912

abbrev heard : TranscriptSegment
heard = record { text = text "hi"; start_ms = 100; duration_ms = 400; confidence = some one_half }

abbrev heard_frame : Text
heard_frame = 1 ∷ 100 ∷ 400 ∷ 1 ∷ one_half ∷ text "hi"

heard_sent :
    serialize_server_message uuids print_wire (OutboundServerMessage.partial heard) ≡ ok heard_frame
unfolding serialize_server_message message_wire validate_outbound_segment and_then text_eq utf16_len
    is_finite_f64 in_unit_interval_f64
heard_sent = refl

short : utf16_len heard.text ≤ 65536
unfolding utf16_len
short = omega arith

parse-serialize_example :
    parse_server_message uuids json heard_frame deepgram_nova3 65536
    ≡ ok (ServerMessage.partial heard)
parse-serialize_example =
    parse-serialize uuids json (λ c. c) uuid_laws rereads deepgram_nova3 65536 print_wire wires_read
      (omega arith, omega arith) (OutboundServerMessage.partial heard) heard_frame short heard_sent

abbrev print_config :
    Provider → Model → Text → ℕ → ℕ → ℕ → Text → Encoding → ℕ → List Text → Option Text
print_config deepgram nova3 language capabilities channels protocol id pcm_s16le rate [] =
    if capabilities == 1 && channels == 1 && protocol == 2 && text_eq id session && rate == 16000
    then some language
    else none
print_config p m language capabilities channels protocol id e rate ks = none

abbrev config_to_string : ConfigWire Text → Option Text
config_to_string w =
    print_config w.provider w.model w.language w.capabilities w.channels w.protocol_v
      w.client_session_id w.encoding w.sample_rate w.keyterms

abbrev english : ClientConfig (Unit {0})
english = record {
  identity = deepgram_nova3;
  language = text "en";
  client_session_id = tt;
  audio_format = pcm_s16le16_khz;
  keyterms = [];
}

abbrev wire_with : Text → ConfigWire Text
wire_with language = config_wire (record english { language = language }) session

printed_config :
    (p : Provider) (m : Model) (language : Text) (capabilities channels protocol : ℕ) (id : Text)
    (e : Encoding) (rate : ℕ) (ks : List Text) (t : Text)
    → print_config p m language capabilities channels protocol id e rate ks ≡ some t
    → wire_with t ≡ record {
      provider = p;
      model = m;
      language = language;
      capabilities = capabilities;
      channels = channels;
      protocol_v = protocol;
      client_session_id = id;
      encoding = e;
      sample_rate = rate;
      keyterms = ks;
    }
printed_config deepgram nova3 l c h v id pcm_s16le r [] t e = ground (arith, text_eq_iff id session)
printed_config deepgram nova3 l c h v id pcm_s16le r (k ∷ ks) t e = cc
printed_config deepgram nova3 l c h v id opus r ks t e = cc
printed_config deepgram scribe_v2_realtime l c h v id f r ks t e = cc
printed_config elevenlabs m l c h v id f r ks t e = cc

config_read : ReadsBack (ConfigWire Text) config_to_string (λ t. some (wire_with t))
config_read w t h = ap some (
    printed_config w.provider w.model w.language w.capabilities w.channels w.protocol_v
      w.client_session_id w.encoding w.sample_rate w.keyterms t h)

config_sent : serialize_client_config uuids config_to_string english ≡ ok (text "en")
unfolding serialize_client_config validate_language validate_keyterms total_keyterms and_then
    text_eq trim is_whitespace is_control utf16_len
config_sent = refl

parse-serialize_config_example :
    parse_client_config uuids (λ t. some (wire_with t)) (text "en") ≡ ok english
parse-serialize_config_example =
    parse-serialize_config uuids uuid_laws config_to_string (λ t. some (wire_with t)) config_read
      english (text "en") refl config_sent
