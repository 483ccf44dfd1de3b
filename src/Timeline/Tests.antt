-- ===== src/Timeline/Tests.antt =====
-- Concrete audio and transcripts on a mono timeline at 1000 Hz.
use voicetext_gateway.Prelude.{
  ◌≡◌, ◌≤◌, ◌+◌, ◌*◌, ◌↔◌, ◌⊎◌, refl, true, [], ◌∷◌, none, IsOk, text, u64_max, arith,
}
use voicetext_gateway.Timeline.{
  LiveTimeline, LiveTranscript, LiveTranscriptStability, PendingAudioAcceptance,
  prepare_audio_write, commit_audio_write, validate_transcript, is_partial,
  provider_lead_tolerance_millis,
}
use voicetext_gateway.Timeline.Horizon.{Inv, commit-Inv}
use voicetext_gateway.Timeline.Finals.{
  final_end, accepts_iff, finals-Ordered, writes, hears, ends, run, finals, Ordered,
}

abbrev start : LiveTimeline
start = record {
  sample_rate_hz = 1000;
  bytes_per_sample_frame = 2;
  accepted_sample_frames = 0;
  accepted_horizon_millis = 0;
  last_final_end_millis = none;
}

abbrev pending : PendingAudioAcceptance
pending = record { total_sample_frames = 100; horizon_millis = 100 }

abbrev hello : LiveTranscript
hello = record {
  text = text "hello";
  start_millis = 0;
  duration_millis = 90;
  confidence = none;
  stability = LiveTranscriptStability.segment_final;
}

start-Inv : Inv start
start-Inv = record {
  rate_pos = omega arith;
  frame_pos = omega arith;
  exact = refl;
  scaled_fits = omega arith;
}

commit-Inv_example :
    let t = commit_audio_write pending start in
    Inv t × (t.accepted_sample_frames * 2 ≡ 0 * 2 + 200) × (0 ≤ t.accepted_horizon_millis)
unfolding prepare_audio_write
commit-Inv_example = commit-Inv start 200 pending start-Inv refl

accepts_iff_example : IsOk (validate_transcript hello start).0 ↔ (
    (0 + 90 ≤ u64_max)
    × (0 + 90 ≤ 0 + provider_lead_tolerance_millis)
    × ((is_partial hello.stability ≡ true) ⊎ (final_end none ≤ 0)))
accepts_iff_example = accepts_iff hello start

finals-Ordered_example :
    let is = writes 200 ∷ hears hello ∷ hears hello ∷ ends 100 ∷ [] in
    Ordered 0
      ((run is start).accepted_horizon_millis + provider_lead_tolerance_millis)
      (finals is start)
finals-Ordered_example =
    finals-Ordered (writes 200 ∷ hears hello ∷ hears hello ∷ ends 100 ∷ []) start start-Inv
