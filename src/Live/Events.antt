-- ===== src/Live/Events.antt =====
-- What application/live.rs makes of the provider's events.
use mathlib.Core.Path.{subst}
use voicetext_gateway.Prelude.{
  ℕ, ◌+◌, ◌≤◌, ◌≡◌, ◌↔◌, ◌⊎◌, refl, Bool-cases, true, Option, none, some, Result, Result-cases, ok,
  err, IsOk, IsErr, ◌-◌, leb, inl, inr, arith, length, u64_max, F32, is_finite, in_unit_interval,
}
use voicetext_gateway.Session
use voicetext_gateway.Session.{LiveSession, LiveSessionError, finalizing, is_terminal}
use voicetext_gateway.Session.Confirm.{fail_terminal}
use voicetext_gateway.Timeline
use voicetext_gateway.Timeline.{
  LiveTranscript, LiveTimeline, LiveTimelineError, is_partial, provider_lead_tolerance_millis,
}
use voicetext_gateway.Timeline.Finals.{final_end, accepts_iff}
use voicetext_gateway.Batch.Models.{RecognitionFailure}
use voicetext_gateway.Live.{
  LiveCoordinator, LiveCoordinatorError, LiveRecognitionEvent, LiveCoordinatorEvent,
  finalize_result_observed, InvalidProviderEvent, fail_after_provider_error, check_transcript,
  max_transcript_chars, apply_provider_event, bounded_transcript, timed, observed,
}

abbrev IsConfidence : Option F32 → Type 0
IsConfidence none = Unit {0}
IsConfidence (some v) = (is_finite v ≡ true) × (in_unit_interval v ≡ true)

-- What a transcript that transport sees satisfies.
abbrev pub Passed : LiveTranscript → LiveTimeline → Type 0
Passed x t =
    (length x.text ≤ max_transcript_chars)
    × (x.start_millis + x.duration_millis ≤ u64_max)
    × IsConfidence x.confidence
    × (x.start_millis + x.duration_millis
        ≤ t.accepted_horizon_millis + provider_lead_tolerance_millis)
    × ((is_partial x.stability ≡ true) ⊎ (final_end t.last_final_end_millis ≤ x.start_millis))

validate_refused :
    (x : LiveTranscript) (t : LiveTimeline)
    → IsErr (Timeline.validate_transcript x t).0
    → (Timeline.validate_transcript x t).1 ≡ t
unfolding Timeline.validate_transcript
validate_refused x t h = ground arith

validate_horizon_same :
    (x : LiveTranscript) (t : LiveTimeline)
    → (Timeline.validate_transcript x t).1.accepted_horizon_millis ≡ t.accepted_horizon_millis
unfolding Timeline.validate_transcript
validate_horizon_same x t = ground arith

module _ {P : Type 0} (c : LiveCoordinator P) where
  abbrev Received : Type 0
  Received = Result RecognitionFailure (Option LiveRecognitionEvent)

  abbrev Answer : Type 0
  Answer = Result LiveCoordinatorError (Option LiveCoordinatorEvent) × LiveCoordinator P

  -- What holds of the answer to a provider event.
  abbrev pub AfterEvent : Received → Answer → Type 0
  AfterEvent received (err e, d) =
      (is_terminal d.domain.phase ≡ true) × (d.timeline ≡ c.timeline) × (d.provider ≡ c.provider)
  AfterEvent received (ok (some (LiveCoordinatorEvent.transcript x)), d) =
      (received ≡ ok (some (LiveRecognitionEvent.transcript x)))
      × Passed x c.timeline
      × (d.domain ≡ c.domain)
      × (d.timeline.accepted_horizon_millis ≡ c.timeline.accepted_horizon_millis)
  AfterEvent received (ok (some (LiveCoordinatorEvent.utterance_end n)), d) =
      (received ≡ ok (some (LiveRecognitionEvent.utterance_end n)))
      × (n ≤ c.timeline.accepted_horizon_millis + provider_lead_tolerance_millis)
      × (d ≡ c)
  AfterEvent received (ok none, d) =
      (d.timeline ≡ c.timeline)
      × (((received ≡ ok none) × (d ≡ c))
          ⊎ ((received ≡ ok (some finalize_result_observed))
              × (c.domain.phase ≡ finalizing)
              × (d.domain.finalize_result_observed ≡ true)))

  checked_iff :
      (x : LiveTranscript)
      → IsOk (check_transcript x) ↔ (
          (length x.text ≤ max_transcript_chars)
          × (x.start_millis + x.duration_millis ≤ u64_max)
          × IsConfidence x.confidence)
  unfolding check_transcript
  checked_iff x = ground arith

  heard_timed :
      (x : LiveTranscript) (r : Result LiveTimelineError (Unit {0}) × LiveTimeline)
      → (IsOk r.0 → Passed x c.timeline)
      → (IsErr r.0 → r.1 ≡ c.timeline)
      → r.1.accepted_horizon_millis ≡ c.timeline.accepted_horizon_millis
      → AfterEvent
          (ok (some (LiveRecognitionEvent.transcript x)))
          (timed (some (LiveCoordinatorEvent.transcript x)) c r)
  unfolding timed fail_after_provider_error
  heard_timed x (ok u, t) p s h = (refl, p tt, refl, h)
  heard_timed x (err e, t) p s h = (fail_terminal c.domain, s tt, refl)

  heard :
      (x : LiveTranscript) (r : Result InvalidProviderEvent (Unit {0}))
      → check_transcript x ≡ r
      → AfterEvent (ok (some (LiveRecognitionEvent.transcript x))) (bounded_transcript x r c)
  unfolding bounded_transcript fail_after_provider_error timed
  heard x (err e) h = (fail_terminal c.domain, refl, refl)
  heard x (ok u) h =
      let (short, fits, conf) = (checked_iff x).0 (rw h tt) in
      heard_timed x (Timeline.validate_transcript x c.timeline)
        (λ p.
          let (_, near, follows) = (accepts_iff x c.timeline).0 p in
          (short, fits, conf, near, follows))
        (validate_refused x c.timeline) (validate_horizon_same x c.timeline)

  ended :
      (n : ℕ)
      → AfterEvent (ok (some (LiveRecognitionEvent.utterance_end n))) (
          timed
            (some (LiveCoordinatorEvent.utterance_end n))
            c
            (Timeline.validate_utterance_end n c.timeline))
  unfolding timed fail_after_provider_error Timeline.validate_utterance_end
  ended n =
      elim (Bool-cases
        (leb (n - c.timeline.accepted_horizon_millis) provider_lead_tolerance_millis)) [
          | inl e ↦ rw e (refl, ground arith, refl)
          | inr e ↦ rw e (fail_terminal c.domain, refl, refl)
        ]

  evidenced :
      (r : Result LiveSessionError (Unit {0}) × LiveSession)
      → (IsOk r.0 → (c.domain.phase ≡ finalizing) × (r.1.finalize_result_observed ≡ true))
      → AfterEvent (ok (some finalize_result_observed)) (observed c r)
  unfolding observed fail_after_provider_error
  evidenced (ok u, s) p = let (f, o) = p tt in (refl, inr (refl, f, o))
  evidenced (err e, s) p = (fail_terminal s, refl, refl)

  observes :
      IsOk (Session.mark_finalize_result_observed c.domain).0
      → (c.domain.phase ≡ finalizing)
        × ((Session.mark_finalize_result_observed c.domain).1.finalize_result_observed ≡ true)
  unfolding Session.mark_finalize_result_observed
  observes h = ground arith

  -- Whatever the provider sends, an error that is returned leaves the session closed or failed with
  -- the timeline as it was; a transcript is passed on unchanged, only if it holds at most 65,536
  -- characters, its end is a `u64`, its confidence is a finite number from 0 to 1, it ends at most
  -- 250 ms past the accepted audio and, unless partial, starts no earlier than the last final ended;
  -- an utterance end only within the same 250 ms; and nothing is passed on only at the end of the
  -- stream or for finalize evidence, which is recorded and only accepted while finalizing.
  pub event_outcome : (received : Received) → AfterEvent received (apply_provider_event received c)
  unfolding apply_provider_event fail_after_provider_error
  event_outcome (err e) = (fail_terminal c.domain, refl, refl)
  event_outcome (ok none) = (refl, inl (refl, refl))
  event_outcome (ok (some (LiveRecognitionEvent.transcript x))) = heard x (check_transcript x) refl
  event_outcome (ok (some (LiveRecognitionEvent.utterance_end n))) = ended n
  event_outcome (ok (some finalize_result_observed)) =
      evidenced (Session.mark_finalize_result_observed c.domain) observes

  passed_timed :
      (x : LiveTranscript) (r : Result LiveTimelineError (Unit {0}) × LiveTimeline)
      → IsOk r.0
      → (timed (some (LiveCoordinatorEvent.transcript x)) c r).0
        ≡ ok (some (LiveCoordinatorEvent.transcript x))
  unfolding timed
  passed_timed x (ok u, t) p = refl
  passed_timed x (err e, t) p = absurd p

  -- A transcript within all those bounds is passed on, whatever the session's phase.
  pub transcript_passes :
      (x : LiveTranscript)
      → Passed x c.timeline
      → (apply_provider_event (ok (some (LiveRecognitionEvent.transcript x))) c).0
        ≡ ok (some (LiveCoordinatorEvent.transcript x))
  unfolding apply_provider_event
  transcript_passes x (short, fits, conf, near, follows) =
      elim (Result-cases (check_transcript x)) [
        | inl (u, e) ↦ rw e (
            passed_timed x (Timeline.validate_transcript x c.timeline)
              ((accepts_iff x c.timeline).1 (fits, near, follows)))
        | inr (f, e) ↦ absurd (subst IsOk e ((checked_iff x).1 (short, fits, conf)))
      ]
