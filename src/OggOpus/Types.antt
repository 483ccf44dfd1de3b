-- ===== src/OggOpus/Types.antt =====
-- The constants, the data types and the readings of bytes of crates/voicetext-audio/src/ogg_opus.rs.
use voicetext_gateway.Prelude.{
  ℕ, zero, suc, ◌+◌, ◌*◌, ◌/◌, ◌%◌, Bool, ◌==◌, Option, List, [], ◌∷◌, take, drop, u64_max,
}

abbrev pub max_ogg_opus_bytes : ℕ
max_ogg_opus_bytes = 67108864

abbrev pub max_opus_tags_bytes : ℕ
max_opus_tags_bytes = 1048576

abbrev pub max_tag_field_bytes : ℕ
max_tag_field_bytes = 65536

abbrev pub max_tag_count : ℕ
max_tag_count = 4096

abbrev pub max_pre_skip_samples : ℕ
max_pre_skip_samples = 48000

-- discord_opus.rs
abbrev pub max_packet_bytes : ℕ
max_packet_bytes = 1275

abbrev pub max_samples_per_packet : ℕ
max_samples_per_packet = 5760

abbrev pub sample_rate_hz : ℕ
sample_rate_hz = 48000

abbrev pub no_granule_position : ℕ
no_granule_position = u64_max

pub record ValidatedOggOpus : Type 0 where
  pub pre_skip_samples : ℕ
  pub duration_samples : ℕ
  pub duration_millis : ℕ
  pub audio_packet_count : ℕ

pub data OggOpusValidationError : Type 0 where
  invalid_size invalid_container invalid_logical_stream : OggOpusValidationError
  invalid_identification_header invalid_comment_header : OggOpusValidationError
  invalid_audio_packet invalid_granule_position missing_end_of_stream : OggOpusValidationError

pub record ContainerSummary : Type 0 where
  pub serial : ℕ
  pub final_granule : ℕ

-- `ogg::Packet`
pub record Packet : Type 0 where
  pub payload : List ℕ
  pub stream_serial : ℕ
  pub first_in_stream : Bool
  pub last_in_stream : Bool
  pub first_in_page : Bool
  pub last_in_page : Bool
  pub absgp_page : ℕ

-- `from_le_bytes`
unfoldable pub from_le_bytes : List ℕ → ℕ
from_le_bytes [] = 0
from_le_bytes (b ∷ bs) = b + 256 * from_le_bytes bs

-- `bytes[i]`, where the length has been checked.
abbrev pub byte_at : ℕ → List ℕ → ℕ
byte_at i [] = 0
byte_at zero (b ∷ bs) = b
byte_at (suc i) (b ∷ bs) = byte_at i bs

-- `&bytes[from..from + count]`
abbrev pub slice : ℕ → ℕ → List ℕ → List ℕ
slice from count bytes = take count (drop from bytes)

abbrev pub sum : List ℕ → ℕ
sum [] = 0
sum (x ∷ xs) = x + sum xs

-- `flags & mask != 0` for a mask of one bit.
abbrev pub has_bit : ℕ → ℕ → Bool
has_bit flags mask = flags / mask % 2 == 1

-- The variables of the loop in `scan_container`.
pub record ScanState : Type 0 where
  pub serial : Option ℕ
  pub expected_sequence : ℕ
  pub previous_granule : ℕ
  pub saw_position : Bool
  pub final_granule : Option ℕ
