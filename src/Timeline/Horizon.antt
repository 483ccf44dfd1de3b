-- ===== src/Timeline/Horizon.antt =====
-- The accepted-audio horizon of application/live_timeline.rs.
use voicetext_gateway.Prelude.{ℕ, ◌+◌, ◌*◌, ◌/◌, ◌%◌, ◌≤◌, ◌<◌, ◌≡◌, ◌↔◌, arith, ok, IsOk, u64_max}
use voicetext_gateway.Timeline.{
  LiveTimeline, PendingAudioAcceptance, new, prepare_audio_write, commit_audio_write,
}

-- The horizon is the whole milliseconds of the accepted sample frames.
pub record Inv (t : LiveTimeline) : Type 0 where
  pub rate_pos : 0 < t.sample_rate_hz
  pub frame_pos : 0 < t.bytes_per_sample_frame
  pub exact : t.accepted_horizon_millis ≡ t.accepted_sample_frames * 1000 / t.sample_rate_hz
  pub scaled_fits : t.accepted_sample_frames * 1000 ≤ u64_max

-- A timeline is made exactly for a positive rate and a positive number of channels, and then it
-- satisfies the invariant, with no audio accepted.
pub new-Inv :
    (rate channels : ℕ) (t : LiveTimeline)
    → new rate channels ≡ ok t
    → Inv t × (t.accepted_horizon_millis ≡ 0) × (t.sample_rate_hz ≡ rate)
unfolding new
new-Inv rate channels t h = ground arith

pub div_mono : (a b r : ℕ) → 0 < r → a ≤ b → a / r ≤ b / r
div_mono a b r p h = grind arith

whole_frames : (n b : ℕ) → n % b ≡ 0 → n / b * b ≡ n
whole_frames n b h = grind arith

prepare_inverts :
    (t : LiveTimeline) (n : ℕ) (p : PendingAudioAcceptance)
    → prepare_audio_write t n ≡ ok p
    → (0 < n)
      × (n % t.bytes_per_sample_frame ≡ 0)
      × (p.total_sample_frames ≡ t.accepted_sample_frames + n / t.bytes_per_sample_frame)
      × (p.horizon_millis ≡ p.total_sample_frames * 1000 / t.sample_rate_hz)
      × (p.total_sample_frames * 1000 ≤ u64_max)
unfolding prepare_audio_write
prepare_inverts t n p h = ground arith

-- A prepared write, when it is committed, keeps the invariant, accounts for its bytes exactly, and
-- never moves the horizon back.
pub commit-Inv :
    (t : LiveTimeline) (n : ℕ) (p : PendingAudioAcceptance)
    → Inv t
    → prepare_audio_write t n ≡ ok p
    → let t' = commit_audio_write p t in
      Inv t'
      × (t'.accepted_sample_frames * t.bytes_per_sample_frame
          ≡ t.accepted_sample_frames * t.bytes_per_sample_frame + n)
      × (t.accepted_horizon_millis ≤ t'.accepted_horizon_millis)
unfolding commit_audio_write
commit-Inv t n p v h =
    let (pos, aligned, total, horizon, fits) = prepare_inverts t n p h in
    (
      record {
        rate_pos = v.rate_pos;
        frame_pos = v.frame_pos;
        exact = horizon;
        scaled_fits = fits;
      },
      rw total (omega (arith, whole_frames n t.bytes_per_sample_frame aligned)),
      rw (horizon, v.exact) (div_mono _ _ t.sample_rate_hz v.rate_pos (omega arith)),
    )

-- A write is prepared exactly if it is not empty, holds whole sample frames, and leaves the frame
-- count times 1000 within a `u64`.
pub prepare_iff :
    (t : LiveTimeline) (n : ℕ)
    → Inv t
    → IsOk (prepare_audio_write t n) ↔ (
        (0 < n)
        × (n % t.bytes_per_sample_frame ≡ 0)
        × ((t.accepted_sample_frames + n / t.bytes_per_sample_frame) * 1000 ≤ u64_max))
unfolding prepare_audio_write
prepare_iff t n v = ground arith
