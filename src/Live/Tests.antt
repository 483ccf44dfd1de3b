-- ===== src/Live/Tests.antt =====
-- Concrete runs of a live coordinator. The provider takes every frame, answers a number of reads with
-- finalize evidence, and then ends its stream.
use voicetext_gateway.Prelude.{
  ℕ, zero, suc, ◌≡◌, refl, [], ◌∷◌, Option, none, some, IsSome, Result, ok, text, arith, inr,
  is_finite, in_unit_interval,
}
use voicetext_gateway.Session
use voicetext_gateway.Session.{LiveSession, streaming, finalizing}
use voicetext_gateway.Session.Invariant.{new-Inv}
use voicetext_gateway.Session.Confirm.{mark_ready-Inv}
use voicetext_gateway.Timeline
use voicetext_gateway.Timeline.{LiveTimeline, LiveTranscript, LiveTranscriptStability}
use voicetext_gateway.Batch.Models.{RecognitionFailure}
use voicetext_gateway.Live.{
  LiveCoordinator, LiveCoordinatorEvent, LiveRecognitionEvent, LiveRecognizerSession,
  finalize_result_observed, provider_write, apply_provider_event, next_event, open_session,
}
use voicetext_gateway.Live.Writes.{Inv, AfterWrite, write_outcome}
use voicetext_gateway.Live.Events.{AfterEvent, event_outcome, transcript_passes}
use voicetext_gateway.Live.History.{
  writes, acks, receives, starts_finalize, live_run, live_run-Inv, IsFreshSession, IsFreshTimeline,
  open-Inv,
}
use voicetext_gateway.Live.Reading.{next_event_returns}

abbrev evidence : ℕ → Result RecognitionFailure (Option LiveRecognitionEvent)
evidence zero = ok none
evidence (suc k) = ok (some finalize_result_observed)

abbrev before : ℕ → ℕ
before zero = zero
before (suc k) = k

abbrev provider : LiveRecognizerSession ℕ
provider = record {
  write_audio = λ f p. (ok tt, p);
  next_event = λ p. (evidence p, before p);
  finalize = λ p. (ok tt, p);
  close = λ p. (ok tt, p);
}

abbrev factory : ℕ → Result RecognitionFailure ℕ
factory n = ok n

abbrev timeline : LiveTimeline
timeline = record {
  sample_rate_hz = 1000;
  bytes_per_sample_frame = 2;
  accepted_sample_frames = 0;
  accepted_horizon_millis = 0;
  last_final_end_millis = none;
}

abbrev ready : LiveSession
ready = (Session.mark_ready Session.new).1

abbrev coordinator : LiveCoordinator ℕ
coordinator = record { domain = ready; provider = 2; timeline = timeline }

abbrev hello : LiveTranscript
hello = record {
  text = text "hello";
  start_millis = 0;
  duration_millis = 90;
  confidence = some 0x3f000000;
  stability = LiveTranscriptStability.segment_final;
}

abbrev heard : Result RecognitionFailure (Option LiveRecognitionEvent)
heard = ok (some (LiveRecognitionEvent.transcript hello))

coordinator-Inv : Inv coordinator
coordinator-Inv = record {
  session = mark_ready-Inv Session.new new-Inv;
  timeline = record {
    rate_pos = omega arith;
    frame_pos = omega arith;
    exact = refl;
    scaled_fits = omega arith;
  };
}

write_outcome_example :
    AfterWrite provider coordinator (1 ∷ 2 ∷ []) (provider_write provider (1 ∷ 2 ∷ []) coordinator)
write_outcome_example = write_outcome provider coordinator (1 ∷ 2 ∷ []) coordinator-Inv

event_outcome_example : AfterEvent coordinator heard (apply_provider_event heard coordinator)
event_outcome_example = event_outcome coordinator heard

transcript_passes_example :
    (apply_provider_event heard coordinator).0 ≡ ok (some (LiveCoordinatorEvent.transcript hello))
unfolding is_finite in_unit_interval
transcript_passes_example =
    transcript_passes coordinator hello
      (omega arith, omega arith, (refl, refl), omega arith, inr (omega arith))

live_run-Inv_example : Inv (
    live_run provider
      (writes (1 ∷ 2 ∷ []) ∷ receives heard ∷ acks 1 ∷ starts_finalize ∷ [])
      coordinator)
live_run-Inv_example =
    live_run-Inv provider (writes (1 ∷ 2 ∷ []) ∷ receives heard ∷ acks 1 ∷ starts_finalize ∷ [])
      coordinator coordinator-Inv

next_event_returns_example : IsSome (next_event provider 3 coordinator)
next_event_returns_example = next_event_returns provider 2 coordinator (refl, (refl, λ e. cc))

open-Inv_example :
    Inv coordinator
    × IsFreshSession coordinator.domain
    × IsFreshTimeline coordinator.timeline
    × (factory 2 ≡ ok coordinator.provider)
unfolding open_session Timeline.new Session.mark_ready Session.new
open-Inv_example = open-Inv factory 2 1000 1 coordinator refl
