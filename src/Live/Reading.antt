-- ===== src/Live/Reading.antt =====
-- The loop of `next_event` in application/live.rs ends.
use voicetext_gateway.Prelude.{
  ℕ, zero, suc, ◌≡◌, ◌≢◌, refl, Bool, false, Option, none, some, IsSome, Result, ok, err,
}
use voicetext_gateway.Session
use voicetext_gateway.Session.{LiveSession, LiveSessionError}
use voicetext_gateway.Timeline
use voicetext_gateway.Timeline.{LiveTimeline, LiveTimelineError, LiveTranscript}
use voicetext_gateway.Batch.Models.{RecognitionFailure}
use voicetext_gateway.Live.{
  LiveCoordinator, LiveCoordinatorError, LiveRecognitionEvent, LiveCoordinatorEvent,
  LiveRecognizerSession, apply_provider_event, timed, observed, bounded_transcript,
  check_transcript, InvalidProviderEvent, finalize_result_observed, next_answer, next_event,
  stream_ended,
}

module _ {P : Type 0} (session : LiveRecognizerSession P) where
  abbrev Again : Type 0
  Again =
      LiveCoordinator P
      → Option (Result LiveCoordinatorError (Option LiveCoordinatorEvent) × LiveCoordinator P)

  -- The provider answers `k` reads with finalize evidence, and the next one otherwise.
  abbrev pub EvidenceThenOther : ℕ → P → Type 0
  EvidenceThenOther zero p = (session.next_event p).0 ≢ ok (some finalize_result_observed)
  EvidenceThenOther (suc k) p =
      ((session.next_event p).0 ≡ ok (some finalize_result_observed))
      × EvidenceThenOther k (session.next_event p).1

  timed_ends :
      (e : LiveCoordinatorEvent) (b : Bool) (again : Again) (c : LiveCoordinator P)
      (r : Result LiveTimelineError (Unit {0}) × LiveTimeline)
      → IsSome (next_answer session b again (timed (some e) c r))
  unfolding timed next_answer
  timed_ends e b again c (ok u, t) = tt
  timed_ends e b again c (err x, t) = tt

  bounded_ends :
      (x : LiveTranscript) (b : Bool) (again : Again) (c : LiveCoordinator P)
      (r : Result InvalidProviderEvent (Unit {0}))
      → IsSome (next_answer session b again (bounded_transcript x r c))
  unfolding bounded_transcript next_answer
  bounded_ends x b again c (ok u) =
      timed_ends (LiveCoordinatorEvent.transcript x) b again c
        (Timeline.validate_transcript x c.timeline)
  bounded_ends x b again c (err e) = tt

  other_ends :
      (received : Result RecognitionFailure (Option LiveRecognitionEvent)) (again : Again)
      (c : LiveCoordinator P)
      → received ≢ ok (some finalize_result_observed)
      → IsSome (next_answer session (stream_ended received) again (apply_provider_event received c))
  unfolding apply_provider_event next_answer
  other_ends (err e) again c h = tt
  other_ends (ok none) again c h = tt
  other_ends (ok (some (LiveRecognitionEvent.transcript x))) again c h =
      bounded_ends x false again c (check_transcript x)
  other_ends (ok (some (LiveRecognitionEvent.utterance_end n))) again c h =
      timed_ends (LiveCoordinatorEvent.utterance_end n) false again c
        (Timeline.validate_utterance_end n c.timeline)
  other_ends (ok (some finalize_result_observed)) again c h = absurd (h refl)

  observed_ends :
      (again : Again) (c : LiveCoordinator P) (r : Result LiveSessionError (Unit {0}) × LiveSession)
      → ((s : LiveSession) → IsSome (again (record c { domain = s })))
      → IsSome (next_answer session false again (observed c r))
  unfolding observed next_answer
  observed_ends again c (ok u, s) h = h s
  observed_ends again c (err e, s) h = tt

  -- If the provider answers `k` reads with finalize evidence and the next one otherwise, `next_event`
  -- returns within `k + 1` reads, in any phase of the session.
  pub next_event_returns :
      (k : ℕ) (c : LiveCoordinator P)
      → EvidenceThenOther k c.provider
      → IsSome (next_event session (suc k) c)
  unfolding next_event
  next_event_returns zero c h =
      other_ends (session.next_event c.provider).0 (next_event session zero)
        (record c { provider = (session.next_event c.provider).1 }) h
  next_event_returns (suc k) c (h, rest) = rw h (
      observed_ends (next_event session (suc k))
        (record c { provider = (session.next_event c.provider).1 })
        (Session.mark_finalize_result_observed c.domain)
        (λ s.
          next_event_returns k
            (record c { provider = (session.next_event c.provider).1; domain = s }) rest))
