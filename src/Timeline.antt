-- ===== src/Timeline.antt =====
-- crates/voicetext-speech/src/application/live_timeline.rs: live timing held against the audio that
-- was written to the provider. Each integer is a number below its type's maximum.
pub mod Horizon
pub mod Finals
mod Tests
use voicetext_gateway.Prelude.{
  Text, F32, ℕ, ◌+◌, ◌-◌, ◌*◌, ◌/◌, ◌%◌, Bool, true, false, not, Option, none, some, Result, ok,
  err, Method, pure, get, put, ensure, ok_or, fail_with, ◌>>=◌, ◌>>◌, ◌==◌, ltb, leb, if◌then◌else◌,
  checked, u64_max, ◌||◌,
}

-- application/ports.rs: the events of a live recognizer.
pub data LiveTranscriptStability : Type 0 where
  partial segment_final utterance_final : LiveTranscriptStability

abbrev pub is_partial : LiveTranscriptStability → Bool
is_partial partial = true
is_partial _ = false

pub record LiveTranscript : Type 0 where
  pub text : Text
  pub start_millis : ℕ
  pub duration_millis : ℕ
  pub confidence : Option F32
  pub stability : LiveTranscriptStability

abbrev pub provider_lead_tolerance_millis : ℕ
provider_lead_tolerance_millis = 250

abbrev pub pcm_s16le_bytes_per_sample : ℕ
pcm_s16le_bytes_per_sample = 2

pub data AcceptedAudioError : Type 0 where
  invalid_configuration empty_frame misaligned_frame arithmetic_overflow : AcceptedAudioError

pub data LiveTimelineError : Type 0 where
  timing_overflow beyond_accepted_audio final_regression_or_overlap : LiveTimelineError

pub record PendingAudioAcceptance : Type 0 where
  pub total_sample_frames : ℕ
  pub horizon_millis : ℕ

pub record LiveTimeline : Type 0 where
  pub sample_rate_hz : ℕ
  pub bytes_per_sample_frame : ℕ
  pub accepted_sample_frames : ℕ
  pub accepted_horizon_millis : ℕ
  pub last_final_end_millis : Option ℕ

-- `checked_mul(1_000)?.checked_div(rate)?`
unfoldable pub checked_horizon_millis : ℕ → ℕ → Result AcceptedAudioError ℕ
checked_horizon_millis total rate = elim (checked u64_max (total * 1000)) [
  | none ↦ err arithmetic_overflow
  | some scaled ↦ if rate == 0 then err invalid_configuration else ok (scaled / rate)
]

unfoldable pub new : ℕ → ℕ → Result AcceptedAudioError LiveTimeline
new sample_rate_hz channels =
    if sample_rate_hz == 0 || channels == 0
    then err invalid_configuration
    else elim (checked u64_max (channels * pcm_s16le_bytes_per_sample)) [
      | none ↦ err arithmetic_overflow
      | some bytes ↦ ok (record {
        sample_rate_hz = sample_rate_hz;
        bytes_per_sample_frame = bytes;
        accepted_sample_frames = 0;
        accepted_horizon_millis = 0;
        last_final_end_millis = none;
      })
    ]

-- The conversion of `usize` to `u64` cannot fail on a 64-bit target, and is the identity.
unfoldable pub prepare_audio_write :
    LiveTimeline → ℕ → Result AcceptedAudioError PendingAudioAcceptance
unfolding checked_horizon_millis
prepare_audio_write t byte_len =
    if byte_len == 0
    then err empty_frame
    else if not (byte_len % t.bytes_per_sample_frame == 0)
    then err misaligned_frame
    else elim (checked u64_max (t.accepted_sample_frames + byte_len / t.bytes_per_sample_frame)) [
      | none ↦ err arithmetic_overflow
      | some total ↦ elim (checked_horizon_millis total t.sample_rate_hz) [
        | err e ↦ err e
        | ok horizon ↦ ok (record { total_sample_frames = total; horizon_millis = horizon })
      ]
    ]

unfoldable pub commit_audio_write : PendingAudioAcceptance → LiveTimeline → LiveTimeline
commit_audio_write p t = record t {
  accepted_sample_frames = p.total_sample_frames;
  accepted_horizon_millis = p.horizon_millis;
}

-- `saturating_sub` is the truncated subtraction of ℕ.
unfoldable pub validate_horizon : ℕ → Method LiveTimeline LiveTimelineError (Unit {0})
validate_horizon end_millis t =
    ensure (leb (end_millis - t.accepted_horizon_millis) provider_lead_tolerance_millis)
      beyond_accepted_audio t

-- `last_final_end_millis.is_some_and(|previous_end| start_millis < previous_end)`
abbrev regresses : Option ℕ → ℕ → Bool
regresses none start = false
regresses (some previous_end) start = ltb start previous_end

record_final : LiveTranscript → ℕ → Method LiveTimeline LiveTimelineError (Unit {0})
record_final x end_millis t =
    if is_partial x.stability
    then pure tt t
    else if regresses t.last_final_end_millis x.start_millis
    then fail_with final_regression_or_overlap t
    else put (record t { last_final_end_millis = some end_millis }) t

unfoldable pub validate_transcript :
    LiveTranscript → Method LiveTimeline LiveTimelineError (Unit {0})
unfolding validate_horizon record_final
validate_transcript x = do
  end_millis ← ok_or (checked u64_max (x.start_millis + x.duration_millis)) timing_overflow
  validate_horizon end_millis
  record_final x end_millis

unfoldable pub validate_utterance_end : ℕ → Method LiveTimeline LiveTimelineError (Unit {0})
unfolding validate_horizon
validate_utterance_end last_word_end_millis = validate_horizon last_word_end_millis
