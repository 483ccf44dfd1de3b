-- ===== src/ElevenLabs/Accepted.antt =====
-- Between elevenlabs/live_state.rs and application/live_timeline.rs: what the provider's adapter says
-- is what the coordinator accepts.
use mathlib.Core.Path.{subst}
use voicetext_gateway.Prelude.{
  ℕ, ◌+◌, ◌*◌, ◌/◌, ◌≤◌, ◌<◌, ◌≡◌, ◌∙◌, sym, ◌⊎◌, true, arith, Unicode, some, ok, IsOk, u64_max,
  inr,
}
use voicetext_gateway.Timeline.{
  LiveTimeline, LiveTranscript, PendingAudioAcceptance, validate_transcript, is_partial,
  prepare_audio_write, commit_audio_write,
}
use voicetext_gateway.Timeline.Horizon
use voicetext_gateway.Timeline.Horizon.{commit-Inv}
use voicetext_gateway.Timeline.Finals.{final_end, accepts_iff}
use voicetext_gateway.Live.{LiveRecognitionEvent}
use voicetext_gateway.ElevenLabs.{
  LiveState, ParsedLiveMessage, session_started, terminal_error, ignore, segment_final,
  utterance_final, partial, apply, user_audio_millis, record_audio,
}
use voicetext_gateway.ElevenLabs.Spans
use voicetext_gateway.ElevenLabs.Spans.{Spanned, apply-Kept}

-- The adapter and the coordinator's timeline stand at the same audio, on one channel.
pub record Synced (s : LiveState) (t : LiveTimeline) : Type 0 where
  pub same_rate : t.sample_rate_hz ≡ s.sample_rate_hz
  pub mono : t.bytes_per_sample_frame ≡ 2
  pub same_audio : s.user_audio_bytes ≡ t.accepted_sample_frames * 2
  pub representable : s.user_audio_bytes * 1000 ≤ u64_max
  pub finals_before : final_end t.last_final_end_millis ≤ s.segment_end_millis

double_div : (f r : ℕ) → 0 < r → f * 2 * 1000 / (r * 2) ≡ f * 1000 / r
double_div f r p = grind arith

-- The adapter's clock is the accepted-audio horizon.
pub clock_horizon :
    (s : LiveState) (t : LiveTimeline)
    → Horizon.Inv t
    → Synced s t
    → user_audio_millis s ≡ t.accepted_horizon_millis
unfolding user_audio_millis
clock_horizon s t v y = ground (
  arith,
  double_div t.accepted_sample_frames t.sample_rate_hz v.rate_pos,
  v.exact,
  y.same_rate,
  y.same_audio,
  y.representable,
  v.rate_pos,
)

div_le : (a r : ℕ) → a / r ≤ a
div_le a r = grind arith

apply_audio :
    (unicode : Unicode) (m : ParsedLiveMessage) (s : LiveState)
    → ((apply unicode m s).1.user_audio_bytes ≡ s.user_audio_bytes)
      × ((apply unicode m s).1.sample_rate_hz ≡ s.sample_rate_hz)
unfolding apply
apply_audio unicode (session_started r) s = ground arith
apply_audio unicode (ParsedLiveMessage.transcript partial t c) s = ground arith
apply_audio unicode (ParsedLiveMessage.transcript segment_final t c) s = ground arith
apply_audio unicode (ParsedLiveMessage.transcript utterance_final t c) s = ground arith
apply_audio unicode (terminal_error code) s = ground arith
apply_audio unicode ignore s = ground arith

-- What a transcript that passes leaves of the timeline.
validated_same :
    (x : LiveTranscript) (t : LiveTimeline)
    → ((validate_transcript x t).1.sample_rate_hz ≡ t.sample_rate_hz)
      × ((validate_transcript x t).1.bytes_per_sample_frame ≡ t.bytes_per_sample_frame)
      × ((validate_transcript x t).1.accepted_sample_frames ≡ t.accepted_sample_frames)
unfolding validate_transcript
validated_same x t = ground arith

validated_final :
    (x : LiveTranscript) (t : LiveTimeline) (n : ℕ)
    → final_end t.last_final_end_millis ≤ n
    → (is_partial x.stability ≡ true) ⊎ (n ≡ x.start_millis + x.duration_millis)
    → final_end (validate_transcript x t).1.last_final_end_millis ≤ n
unfolding validate_transcript
validated_final x t n h k = ground arith

horizon_fits : (t : LiveTimeline) → Horizon.Inv t → t.accepted_horizon_millis ≤ u64_max
horizon_fits t v =
    omega (arith, v.exact, v.scaled_fits, div_le (t.accepted_sample_frames * 1000) t.sample_rate_hz)

module _ (unicode : Unicode) (m : ParsedLiveMessage) (s : LiveState) (t : LiveTimeline)
    (x : LiveTranscript) where
  Spanned-here :
      Spans.Inv s
      → (apply unicode m s).0 ≡ some (LiveRecognitionEvent.transcript x)
      → Spanned (some (LiveRecognitionEvent.transcript x)) s (apply unicode m s).1
  Spanned-here v h = subst (λ e. Spanned e s (apply unicode m s).1) h (apply-Kept unicode m s v).1

  -- While the adapter and the timeline stand at the same mono audio, every transcript that the adapter
  -- makes out of a message passes the coordinator's timeline, and the two still agree afterwards: the
  -- adapter never makes its own session fail by its timing.
  pub adapter_accepted :
      Spans.Inv s
      → Horizon.Inv t
      → Synced s t
      → (apply unicode m s).0 ≡ some (LiveRecognitionEvent.transcript x)
      → IsOk (validate_transcript x t).0 × Synced (apply unicode m s).1 (validate_transcript x t).1
  adapter_accepted v w y h =
      let (start, end, last, grows) = Spanned-here v h in
      let clock = clock_horizon s t w y in
      let (rate, bytes, frames) = validated_same x t in
      let (audio, sample) = apply_audio unicode m s in
      (
        (accepts_iff x t).1 (
          omega (arith, end, clock, horizon_fits t w),
          omega (arith, end, clock),
          inr (omega (arith, start, y.finals_before)),
        ),
        record {
          same_rate = rate ∙ y.same_rate ∙ sym sample;
          mono = bytes ∙ y.mono;
          same_audio = omega (arith, audio, frames, y.same_audio);
          representable = rw audio y.representable;
          finals_before =
              validated_final x t (apply unicode m s).1.segment_end_millis
                (omega (arith, y.finals_before, grows)) (ground arith);
        },
      )

-- A write that the timeline admits and the provider takes keeps them at the same audio, as long as
-- its bytes times 1000 fit a `u64`.
pub write-Synced :
    (s : LiveState) (t : LiveTimeline) (n : ℕ) (p : PendingAudioAcceptance)
    → Horizon.Inv t
    → Synced s t
    → prepare_audio_write t n ≡ ok p
    → (s.user_audio_bytes + n) * 1000 ≤ u64_max
    → Synced (record_audio n s) (commit_audio_write p t)
unfolding record_audio commit_audio_write
write-Synced s t n p v y h k = record {
  same_rate = y.same_rate;
  mono = y.mono;
  same_audio = grind (arith, (commit-Inv t n p v h).1, y.mono, y.same_audio);
  representable = ground arith;
  finals_before = y.finals_before;
}
