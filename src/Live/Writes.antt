-- ===== src/Live/Writes.antt =====
-- Audio writes and finalization of application/live.rs, with any provider.
use mathlib.Core.Path.{subst, sym}
use voicetext_gateway.Prelude.{
  ℕ, ◌+◌, ◌*◌, ◌≡◌, refl, Bool-cases, true, List, Result, ok, err, inl, inr, arith, length,
  contains, ltb, contains-insert,
}
use voicetext_gateway.Session
use voicetext_gateway.Session.{LiveSession, LiveSessionError, streaming, failed, accepts}
use voicetext_gateway.Session.Invariant
use voicetext_gateway.Session.Confirm.{with_next, accept_audio_cases, confirms_next}
use voicetext_gateway.Timeline.{
  PendingAudioAcceptance, AcceptedAudioError, prepare_audio_write, commit_audio_write,
}
use voicetext_gateway.Timeline.Horizon
use voicetext_gateway.Timeline.Horizon.{commit-Inv}
use voicetext_gateway.Batch.Models.{RecognitionFailure}
use voicetext_gateway.Live.{
  LiveCoordinator, LiveCoordinatorError, recognition, domain, invalid_audio_frame,
  invalid_provider_event, LiveRecognizerSession, LiveAudioFrame, provider_write, prepared,
  sequenced, written, confirmed, max_pcm_frame_bytes,
}

-- What holds of a coordinator between two calls.
pub record Inv {P : Type 0} (c : LiveCoordinator P) : Type 0 where
  pub session : Invariant.Inv c.domain
  pub timeline : Horizon.Inv c.timeline

module _ {P : Type 0} (session : LiveRecognizerSession P) (c : LiveCoordinator P)
    (pcm : List ℕ) where
  abbrev next_frame : LiveAudioFrame
  next_frame = record { sequence = c.domain.last_sequence + 1; pcm_s16le = pcm }

  -- What a write of `pcm` leaves, by its result.
  abbrev pub AfterWrite : Result LiveCoordinatorError ℕ × LiveCoordinator P → Type 0
  AfterWrite (ok n, d) =
      (n ≡ c.domain.last_sequence + 1)
      × (session.write_audio next_frame c.provider ≡ (ok tt, d.provider))
      × (contains n d.domain.provider_written_audio ≡ true)
      × (d.timeline.accepted_sample_frames * c.timeline.bytes_per_sample_frame
          ≡ c.timeline.accepted_sample_frames * c.timeline.bytes_per_sample_frame + length pcm)
  AfterWrite (err (recognition e), d) =
      (session.write_audio next_frame c.provider ≡ (err e, d.provider))
      × (d.domain.phase ≡ failed)
      × (d.timeline ≡ c.timeline)
  AfterWrite (err (domain e), d) = d ≡ c
  AfterWrite (err invalid_audio_frame, d) = d ≡ c
  AfterWrite (err (invalid_provider_event e), d) = ⊥

  answered :
      (pending : PendingAudioAcceptance) (a : Result RecognitionFailure (Unit {0}) × P)
      → Inv c
      → prepare_audio_write c.timeline (length pcm) ≡ ok pending
      → c.domain.phase ≡ streaming
      → session.write_audio next_frame c.provider ≡ a
      → AfterWrite (
          written (c.domain.last_sequence + 1) pending (record c { domain = with_next c.domain }) a)
  unfolding written Session.fail
  answered pending (err e, p) v h s w = (w, ground arith, refl)
  answered pending (ok u, p) v h s w =
      subst
        (λ r. AfterWrite (
          confirmed (c.domain.last_sequence + 1)
            (record {
              domain = with_next c.domain;
              provider = p;
              timeline = commit_audio_write pending c.timeline;
            })
            r))
        (sym (confirms_next c.domain v.session s))
        (
          refl,
          w,
          ground (
            arith,
            contains-insert (c.domain.last_sequence + 1) (c.domain.last_sequence + 1)
                c.domain.provider_written_audio,
          ),
          (commit-Inv c.timeline (length pcm) pending v.timeline h).1,
        )

  prepared_after :
      (a : Result AcceptedAudioError PendingAudioAcceptance)
      → Inv c
      → prepare_audio_write c.timeline (length pcm) ≡ a
      → AfterWrite (prepared session pcm c a)
  unfolding prepared
  prepared_after (err e) v h = refl
  prepared_after (ok pending) v h =
      accept_audio_cases (λ r. AfterWrite (sequenced session pcm pending c r)) c.domain (λ e. refl)
        (λ s. answered pending (session.write_audio next_frame c.provider) v h s refl)

  -- A write that succeeds returns the next sequence, the provider took exactly this frame under it,
  -- it is confirmed as written, and the accepted audio grows by exactly its bytes. If the provider
  -- fails, its failure is returned, the session has failed and the timeline is as before. Any other
  -- refusal leaves the whole coordinator, the provider included, as it was.
  pub write_outcome : Inv c → AfterWrite (provider_write session pcm c)
  unfolding provider_write
  write_outcome v = elim (Bool-cases (ltb max_pcm_frame_bytes (length pcm))) [
    | inl e ↦ rw e refl
    | inr e ↦ rw e (prepared_after (prepare_audio_write c.timeline (length pcm)) v refl)
  ]
