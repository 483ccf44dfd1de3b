-- ===== src/ElevenLabs/Tests.antt =====
-- Concrete messages of an ElevenLabs session after one second of mono audio at 1000 Hz. Every
-- character counts as alphanumeric and as its own lower case.
use voicetext_gateway.Prelude.{
  ◌≡◌, refl, true, [], ◌∷◌, none, some, text, arith, IsOk, Unicode, split_whitespace, is_whitespace,
}
use voicetext_gateway.Timeline.{
  LiveTimeline, LiveTranscript, LiveTranscriptStability, PendingAudioAcceptance,
  validate_transcript, prepare_audio_write, commit_audio_write,
}
use voicetext_gateway.Timeline.Horizon
use voicetext_gateway.Live.{LiveRecognitionEvent}
use voicetext_gateway.ElevenLabs.{
  LiveState, fold_chars, ParsedLiveMessage, segment_final, new, record_audio, apply,
  user_audio_millis,
}
use voicetext_gateway.ElevenLabs.Spans
use voicetext_gateway.ElevenLabs.Spans.{Kept, apply-Kept}
use voicetext_gateway.ElevenLabs.Accepted.{Synced, adapter_accepted, write-Synced}

abbrev plain : Unicode
plain = record {
  is_alphanumeric = λ c. true;
  char_to_lowercase = λ c. c ∷ [];
  str_to_lowercase = λ t. t;
}

abbrev state : LiveState
state = record_audio 2000 (new 1000 none)

abbrev timeline : LiveTimeline
timeline = record {
  sample_rate_hz = 1000;
  bytes_per_sample_frame = 2;
  accepted_sample_frames = 1000;
  accepted_horizon_millis = 1000;
  last_final_end_millis = none;
}

abbrev message : ParsedLiveMessage
message = ParsedLiveMessage.transcript segment_final (text "hello") none

abbrev hello : LiveTranscript
hello = record {
  text = text "hello";
  start_millis = 0;
  duration_millis = 1000;
  confidence = none;
  stability = LiveTranscriptStability.segment_final;
}

state-Inv : Spans.Inv state
unfolding new record_audio user_audio_millis
state-Inv = record {
  representable = omega arith;
  ordered = omega arith;
  within = omega arith;
  settled = λ h. refl;
  recent_stable_bounded = omega arith;
  recent_committed_bounded = omega arith;
  pending_bounded = omega arith;
}

timeline-Inv : Horizon.Inv timeline
timeline-Inv = record {
  rate_pos = omega arith;
  frame_pos = omega arith;
  exact = refl;
  scaled_fits = omega arith;
}

state-Synced : Synced state timeline
unfolding new record_audio
state-Synced = record {
  same_rate = refl;
  mono = refl;
  same_audio = refl;
  representable = omega arith;
  finals_before = omega arith;
}

hears : (apply plain message state).0 ≡ some (LiveRecognitionEvent.transcript hello)
unfolding apply new record_audio split_whitespace is_whitespace fold_chars
hears = refl

apply-Kept_example : Kept (apply plain message state) state
apply-Kept_example = apply-Kept plain message state state-Inv

adapter_accepted_example :
    IsOk (validate_transcript hello timeline).0
    × Synced (apply plain message state).1 (validate_transcript hello timeline).1
adapter_accepted_example =
    adapter_accepted plain message state timeline hello state-Inv timeline-Inv state-Synced hears

abbrev pending : PendingAudioAcceptance
pending = record { total_sample_frames = 1100; horizon_millis = 1100 }

write-Synced_example : Synced (record_audio 200 state) (commit_audio_write pending timeline)
unfolding prepare_audio_write new record_audio
write-Synced_example =
    write-Synced state timeline 200 pending timeline-Inv state-Synced refl (omega arith)
