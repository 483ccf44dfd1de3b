-- ===== src/Contracts/Live.antt =====
-- The data and the checks of crates/voicetext-gateway/src/contracts/live.rs, with the config frame. A
-- `ContractViolation` is the text that it wraps. Of the JSON library, the functions that turn a text
-- into the fields of a frame, and back, are parameters.
use voicetext_gateway.Prelude.{
  ℕ, ◌+◌, Bool, true, false, not, ◌&&◌, ◌||◌, List, [], ◌∷◌, Option, none, some, Text, text, Result,
  ok, err, and_then, ok_or_err, leb, ◌==◌, if◌then◌else◌, length, is_empty, any, get_elem?,
  is_control, trim, text_eq, byte_len, utf16_len, checked, u64_max, F64,
}

abbrev pub ContractViolation : Type 0
ContractViolation = Text

abbrev pub max_error_code_chars : ℕ
max_error_code_chars = 128

abbrev pub max_error_message_chars : ℕ
max_error_message_chars = 2048

abbrev pub max_keyterm_chars : ℕ
max_keyterm_chars = 256

abbrev pub max_keyterm_count : ℕ
max_keyterm_count = 100

abbrev pub max_keyterm_total_chars : ℕ
max_keyterm_total_chars = 8192

abbrev pub max_language_chars : ℕ
max_language_chars = 64

abbrev pub max_safe_integer : ℕ
max_safe_integer = 9007199254740991

abbrev pub max_transcript_limit : ℕ
max_transcript_limit = 65536

abbrev pub max_command_bytes : ℕ
max_command_bytes = 1024

pub data ClientCommand : Type 0 where
  finalize close : ClientCommand

pub data LiveIdentity : Type 0 where
  deepgram_nova3 elevenlabs_scribe_v2_realtime : LiveIdentity

pub data Provider : Type 0 where
  deepgram elevenlabs : Provider

pub data Model : Type 0 where
  nova3 scribe_v2_realtime : Model

pub data AudioFormat : Type 0 where
  opus48_khz pcm_s16le16_khz : AudioFormat

pub data Encoding : Type 0 where
  opus pcm_s16le : Encoding

pub data FinalizeStatus : Type 0 where
  flushed no_provider timeout : FinalizeStatus

abbrev pub identity_wire : LiveIdentity → Provider × Model
identity_wire deepgram_nova3 = (deepgram, nova3)
identity_wire elevenlabs_scribe_v2_realtime = (elevenlabs, scribe_v2_realtime)

pub record TranscriptSegment : Type 0 where
  pub text : Text
  pub start_ms : ℕ
  pub duration_ms : ℕ
  pub confidence : Option F64

-- `U` is the type of UUIDs.
pub record ClientConfig (U : Type 0) : Type 0 where
  pub identity : LiveIdentity
  pub language : Text
  pub client_session_id : U
  pub audio_format : AudioFormat
  pub keyterms : List Text

-- The fields of a config frame, with the type `I` of its session id. The only type is `config`; the
-- only capability is `finalize_ack`, and so the list of capabilities is its length.
pub record ConfigWire (I : Type 0) : Type 0 where
  pub provider : Provider
  pub model : Model
  pub language : Text
  pub capabilities : ℕ
  pub channels : ℕ
  pub protocol_v : ℕ
  pub client_session_id : I
  pub encoding : Encoding
  pub sample_rate : ℕ
  pub keyterms : List Text

-- The functions of `uuid::Uuid` that the contracts call.
pub record Uuids (U : Type 0) : Type 0 where
  pub parse_str : Text → Option U
  pub hyphenated : U → Text
  pub is_rfc4122 : U → Bool
  pub version_num : U → ℕ

abbrev pub Check : Type 0
Check = Result ContractViolation (Unit {0})

abbrev pub require : Bool → ContractViolation → Check
require true message = ok tt
require false message = err message

unfoldable pub validate_language : Text → Check
validate_language language =
    require
      (not (is_empty (trim language))
        && text_eq (trim language) language
        && leb (utf16_len language) max_language_chars
        && not (any is_control language))
      (text "invalid live language")

unfoldable pub good_keyterm : Text → Bool
good_keyterm keyterm =
    not (is_empty (trim keyterm))
    && text_eq (trim keyterm) keyterm
    && leb (utf16_len keyterm) max_keyterm_chars
    && not (any is_control keyterm)

-- The loop over the keyterms, with the UTF-16 units counted so far.
unfoldable pub total_keyterms : ℕ → List Text → Result ContractViolation ℕ
total_keyterms total [] = ok total
total_keyterms total (keyterm ∷ keyterms) =
    and_then (require (good_keyterm keyterm) (text "invalid live keyterm")) λ _.
      and_then
        (ok_or_err (text "live keyterms exceed total bound")
          (checked u64_max (total + utf16_len keyterm)))
        λ n. total_keyterms n keyterms

unfoldable pub validate_keyterms : List Text → Check
validate_keyterms keyterms =
    and_then (require (leb (length keyterms) max_keyterm_count) (text "too many live keyterms"))
      λ _. and_then (total_keyterms 0 keyterms) λ total.
        require (leb total max_keyterm_total_chars) (text "live keyterms exceed total bound")

-- `byte.is_ascii_hexdigit()`
unfoldable pub is_ascii_hexdigit : ℕ → Bool
is_ascii_hexdigit b = (leb 48 b && leb b 57) || (leb 97 b && leb b 102) || (leb 65 b && leb b 70)

-- `[8, 13, 18, 23].contains(&index)`
abbrev is_hyphen_index : ℕ → Bool
is_hyphen_index i = i == 8 || i == 13 || i == 18 || i == 23

-- The byte at an index is `-`.
hyphen_at : Text → ℕ → Bool
hyphen_at value i = elim (get_elem? value i) [ none ↦ false | some b ↦ b == 45 ]

-- `bytes.iter().enumerate().all(…)`, from an index on.
hex_from : ℕ → Text → Bool
unfolding is_ascii_hexdigit
hex_from i [] = true
hex_from i (b ∷ bytes) =
    let rest = hex_from (i + 1) bytes in (is_hyphen_index i || is_ascii_hexdigit b) && rest

-- The text is canonical. Only an ASCII text passes, and its characters are its bytes.
unfoldable pub canonical : Text → Bool
unfolding hyphen_at hex_from
canonical value =
    byte_len value == 36
    && hyphen_at value 8
    && hyphen_at value 13
    && hyphen_at value 18
    && hyphen_at value 23
    && hex_from 0 value

-- `(1..=8).contains(&uuid.get_version_num())` of an RFC 4122 UUID
abbrev pub session_uuid : {U : Type 0} → Uuids U → U → Bool
session_uuid uuids u =
    uuids.is_rfc4122 u && leb 1 (uuids.version_num u) && leb (uuids.version_num u) 8

-- The UUID that was parsed, if the text and the UUID are those of a session.
abbrev pub checked_session : {U : Type 0} → Uuids U → Text → Option U → Option U
checked_session uuids value none = none
checked_session uuids value (some uuid) =
    if not (canonical value) || not (session_uuid uuids uuid) then none else some uuid

unfoldable pub deserialize_session_id : {U : Type 0} → Uuids U → Text → Option U
deserialize_session_id uuids value = checked_session uuids value (uuids.parse_str value)

-- `match (wire.provider, wire.model)`
abbrev pub identity_of : Provider → Model → Result ContractViolation LiveIdentity
identity_of deepgram nova3 = ok deepgram_nova3
identity_of elevenlabs scribe_v2_realtime = ok elevenlabs_scribe_v2_realtime
identity_of provider model = err (text "live provider/model identity mismatch")

-- `match (wire.encoding, wire.sample_rate)`
abbrev pub format_of : Encoding → ℕ → Result ContractViolation AudioFormat
format_of opus rate =
    if rate == 48000 then ok opus48_khz else err (text "incompatible live audio format")
format_of pcm_s16le rate =
    if rate == 16000 then ok pcm_s16le16_khz else err (text "incompatible live audio format")

abbrev pub format_wire : AudioFormat → Encoding × ℕ
format_wire opus48_khz = (opus, 48000)
format_wire pcm_s16le16_khz = (pcm_s16le, 16000)

-- The frame of a config, with its session id; a UUID is written in its hyphenated form.
abbrev pub config_wire : {U I : Type 0} → ClientConfig U → I → ConfigWire I
config_wire config id = record {
  provider = (identity_wire config.identity).0;
  model = (identity_wire config.identity).1;
  language = config.language;
  capabilities = 1;
  channels = 1;
  protocol_v = 2;
  client_session_id = id;
  encoding = (format_wire config.audio_format).0;
  sample_rate = (format_wire config.audio_format).1;
  keyterms = config.keyterms;
}

module _ {U : Type 0} (uuids : Uuids U) where
  unfoldable pub with_session : ConfigWire Text → Option U → Option (ConfigWire U)
  with_session w none = none
  with_session w (some id) = some (record {
    provider = w.provider;
    model = w.model;
    language = w.language;
    capabilities = w.capabilities;
    channels = w.channels;
    protocol_v = w.protocol_v;
    client_session_id = id;
    encoding = w.encoding;
    sample_rate = w.sample_rate;
    keyterms = w.keyterms;
  })

  -- The session id is decoded with the other fields, and fails with them.
  unfoldable pub decode_config : Option (ConfigWire Text) → Option (ConfigWire U)
  unfolding with_session
  decode_config none = none
  decode_config (some w) = with_session w (deserialize_session_id uuids w.client_session_id)

  unfoldable pub parse_client_config :
      (Text → Option (ConfigWire Text)) → Text → Result ContractViolation (ClientConfig U)
  unfolding decode_config
  parse_client_config from_str json =
      and_then (ok_or_err (text "invalid live config JSON") (decode_config (from_str json))) λ wire.
        and_then (require (wire.protocol_v == 2) (text "unsupported live protocol version")) λ _.
          and_then (require (wire.channels == 1) (text "live audio must be mono")) λ _.
            and_then (require (wire.capabilities == 1) (text "invalid live capabilities")) λ _.
              and_then (identity_of wire.provider wire.model) λ identity.
                and_then (format_of wire.encoding wire.sample_rate) λ audio_format.
                  and_then (validate_language wire.language) λ _.
                    and_then (validate_keyterms wire.keyterms) λ _. ok (record {
                      identity = identity;
                      language = wire.language;
                      client_session_id = wire.client_session_id;
                      audio_format = audio_format;
                      keyterms = wire.keyterms;
                    })

  unfoldable pub serialize_client_config :
      (ConfigWire Text → Option Text) → ClientConfig U → Result ContractViolation Text
  serialize_client_config to_string config = and_then (validate_language config.language) λ _.
      and_then (validate_keyterms config.keyterms) λ _.
        ok_or_err (text "cannot serialize live config")
          (to_string (config_wire config (uuids.hyphenated config.client_session_id)))
