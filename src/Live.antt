-- ===== src/Live.antt =====
-- crates/voicetext-speech/src/application/live.rs: one provider-bound live recognition session. The
-- provider's session is a record of methods over its own state `P`.
pub mod Writes
pub mod Events
pub mod History
pub mod Reading
mod Tests
use voicetext_gateway.Prelude.{
  ℕ, zero, suc, ◌+◌, Bool, true, false, not, ◌||◌, Option, none, some, List, [], ◌∷◌, Text, F32,
  is_finite, in_unit_interval, Result, ok, err, Method, pure, get, put, fail_with, attempt, map_err,
  of_result, ensure, ok_or, ◌>>=◌, ◌>>◌, checked, u64_max, ltb, length, if◌then◌else◌,
}
use voicetext_gateway.Session
use voicetext_gateway.Session.{LiveSession, LiveSessionError, FinalizeStatus, FinalizeOutcome}
use voicetext_gateway.Timeline
use voicetext_gateway.Timeline.{
  LiveTimeline, LiveTimelineError, LiveTranscript, AcceptedAudioError, PendingAudioAcceptance,
  timing_overflow, beyond_accepted_audio, final_regression_or_overlap,
}
use voicetext_gateway.Batch.Models.{RecognitionFailure}

abbrev pub max_pcm_frame_bytes : ℕ
max_pcm_frame_bytes = 65536

abbrev pub max_transcript_chars : ℕ
max_transcript_chars = 65536

pub data InvalidProviderEvent : Type 0 where
  transcript_too_long transcript_timing_overflow : InvalidProviderEvent
  timestamp_beyond_accepted_audio final_timestamp_regression_or_overlap : InvalidProviderEvent
  invalid_confidence : InvalidProviderEvent

pub data LiveCoordinatorError : Type 0 where
  domain : LiveSessionError → LiveCoordinatorError
  recognition : RecognitionFailure → LiveCoordinatorError
  invalid_audio_frame : LiveCoordinatorError
  invalid_provider_event : InvalidProviderEvent → LiveCoordinatorError

-- application/ports.rs
pub data LiveRecognitionEvent : Type 0 where
  transcript : LiveTranscript → LiveRecognitionEvent
  utterance_end : ℕ → LiveRecognitionEvent
  finalize_result_observed : LiveRecognitionEvent

pub data LiveCoordinatorEvent : Type 0 where
  transcript : LiveTranscript → LiveCoordinatorEvent
  utterance_end : ℕ → LiveCoordinatorEvent

pub record LiveAudioFrame : Type 0 where
  pub sequence : ℕ
  pub pcm_s16le : List ℕ

-- The trait of an open provider session.
pub record LiveRecognizerSession (P : Type 0) : Type 0 where
  pub write_audio : LiveAudioFrame → Method P RecognitionFailure (Unit {0})
  pub next_event : Method P RecognitionFailure (Option LiveRecognitionEvent)
  pub finalize : Method P RecognitionFailure (Unit {0})
  pub close : Method P RecognitionFailure (Unit {0})

pub record LiveCoordinator (P : Type 0) : Type 0 where
  pub domain : LiveSession
  pub provider : P
  pub timeline : LiveTimeline

abbrev pub map_timeline_error : LiveTimelineError → InvalidProviderEvent
map_timeline_error timing_overflow = transcript_timing_overflow
map_timeline_error beyond_accepted_audio = timestamp_beyond_accepted_audio
map_timeline_error final_regression_or_overlap = final_timestamp_regression_or_overlap

-- `is_some_and(|value| !value.is_finite() || !(0.0..=1.0).contains(&value))`
abbrev pub bad_confidence : Option F32 → Bool
bad_confidence none = false
bad_confidence (some v) = not (is_finite v) || not (in_unit_interval v)

abbrev overflows : Option ℕ → Bool
overflows none = true
overflows (some n) = false

-- The free function `validate_transcript`.
unfoldable pub check_transcript : LiveTranscript → Result InvalidProviderEvent (Unit {0})
check_transcript x =
    if ltb max_transcript_chars (length x.text)
    then err transcript_too_long
    else if overflows (checked u64_max (x.start_millis + x.duration_millis))
    then err transcript_timing_overflow
    else if bad_confidence x.confidence
    then err invalid_confidence
    else ok tt

abbrev pub Live : Type 0 → Type 0 → Type 0
Live P A = Method (LiveCoordinator P) LiveCoordinatorError A

-- `phase` and `pending_audio_count`.
abbrev pub pending_audio_count : {P : Type 0} → LiveCoordinator P → ℕ
pending_audio_count c = length c.domain.pending_audio

abbrev pub of_domain :
    {P : Type 0} {A : Type 0}
    → LiveCoordinator P
    → Result LiveSessionError A × LiveSession
    → Result LiveCoordinatorError A × LiveCoordinator P
of_domain c (ok a, s) = (ok a, record c { domain = s })
of_domain c (err e, s) = (err (LiveCoordinatorError.domain e), record c { domain = s })

-- A call of the session state machine, with `?`.
abbrev pub on_domain : {P : Type 0} {A : Type 0} → Method LiveSession LiveSessionError A → Live P A
on_domain m c = of_domain c (m c.domain)

unfoldable pub fail_after_provider_error : {P : Type 0} → LiveCoordinator P → LiveCoordinator P
fail_after_provider_error c = record c { domain = (Session.fail c.domain).1 }

abbrev pub fail_then : {P : Type 0} {A : Type 0} → LiveCoordinatorError → Live P A
fail_then e c = (err e, fail_after_provider_error c)

unfoldable pub ack_sent : {P : Type 0} → ℕ → Live P (Unit {0})
ack_sent sequence = on_domain (Session.mark_ack_sent sequence)

unfoldable pub complete_finalize : {P : Type 0} → FinalizeStatus → Live P FinalizeOutcome
complete_finalize status = on_domain (Session.complete_finalize status)

-- What follows `timeline.validate_…`: an error is mapped and made terminal.
unfoldable pub timed :
    {P : Type 0} {A : Type 0}
    → A
    → LiveCoordinator P
    → Result LiveTimelineError (Unit {0}) × LiveTimeline
    → Result LiveCoordinatorError A × LiveCoordinator P
unfolding fail_after_provider_error
timed a c (ok u, t) = (ok a, record c { timeline = t })
timed a c (err e, t) =
    fail_then (invalid_provider_event (map_timeline_error e)) (record c { timeline = t })

unfoldable pub observed :
    {P : Type 0}
    → LiveCoordinator P
    → Result LiveSessionError (Unit {0}) × LiveSession
    → Result LiveCoordinatorError (Option LiveCoordinatorEvent) × LiveCoordinator P
unfolding fail_after_provider_error
observed c (ok u, s) = (ok none, record c { domain = s })
observed c (err e, s) = fail_then (LiveCoordinatorError.domain e) (record c { domain = s })

unfoldable pub bounded_transcript :
    {P : Type 0}
    → LiveTranscript
    → Result InvalidProviderEvent (Unit {0})
    → Live P (Option LiveCoordinatorEvent)
unfolding fail_after_provider_error timed
bounded_transcript x (err e) c = fail_then (invalid_provider_event e) c
bounded_transcript x (ok u) c =
    timed (some (LiveCoordinatorEvent.transcript x)) c (Timeline.validate_transcript x c.timeline)

unfoldable pub apply_provider_event :
    {P : Type 0}
    → Result RecognitionFailure (Option LiveRecognitionEvent)
    → Live P (Option LiveCoordinatorEvent)
unfolding fail_after_provider_error timed observed bounded_transcript
apply_provider_event (err e) c = fail_then (recognition e) c
apply_provider_event (ok none) c = (ok none, c)
apply_provider_event (ok (some (LiveRecognitionEvent.transcript x))) c =
    bounded_transcript x (check_transcript x) c
apply_provider_event (ok (some (LiveRecognitionEvent.utterance_end last))) c =
    timed (some (LiveCoordinatorEvent.utterance_end last)) c
      (Timeline.validate_utterance_end last c.timeline)
apply_provider_event (ok (some finalize_result_observed)) c =
    observed c (Session.mark_finalize_result_observed c.domain)

unfoldable pub confirmed :
    {P : Type 0}
    → ℕ
    → LiveCoordinator P
    → Result LiveSessionError (Unit {0}) × LiveSession
    → Result LiveCoordinatorError ℕ × LiveCoordinator P
confirmed sequence c (ok u, s) = (ok sequence, record c { domain = s })
confirmed sequence c (err e, s) = (err (LiveCoordinatorError.domain e), record c { domain = s })

-- What follows the provider's answer to a write.
unfoldable pub written :
    {P : Type 0}
    → ℕ
    → PendingAudioAcceptance
    → LiveCoordinator P
    → Result RecognitionFailure (Unit {0}) × P
    → Result LiveCoordinatorError ℕ × LiveCoordinator P
unfolding fail_after_provider_error confirmed
written sequence pending c (err e, p) = fail_then (recognition e) (record c { provider = p })
written sequence pending c (ok u, p) =
    confirmed sequence
      (record c { provider = p; timeline = Timeline.commit_audio_write pending c.timeline })
      (Session.mark_provider_write_succeeded sequence c.domain)

unfoldable pub finalize_answered :
    {P : Type 0}
    → LiveCoordinator P
    → Result RecognitionFailure (Unit {0}) × P
    → Result LiveCoordinatorError (Unit {0}) × LiveCoordinator P
unfolding fail_after_provider_error
finalize_answered c (ok u, p) = (ok u, record c { provider = p })
finalize_answered c (err e, p) = fail_then (recognition e) (record c { provider = p })

-- The provider's failure to close comes before the session's.
unfoldable pub close_result :
    Result RecognitionFailure (Unit {0})
    → Result LiveSessionError (Unit {0})
    → Result LiveCoordinatorError (Unit {0})
close_result (err e) d = err (recognition e)
close_result (ok u) (err e) = err (LiveCoordinatorError.domain e)
close_result (ok u) (ok v) = ok tt

-- `matches!(received, Ok(None))`
abbrev pub stream_ended : Result RecognitionFailure (Option LiveRecognitionEvent) → Bool
stream_ended (ok none) = true
stream_ended _ = false

module _ {P : Type 0} (session : LiveRecognizerSession P) where
  unfoldable pub sequenced :
      List ℕ
      → PendingAudioAcceptance
      → LiveCoordinator P
      → Result LiveSessionError ℕ × LiveSession
      → Result LiveCoordinatorError ℕ × LiveCoordinator P
  unfolding written
  sequenced pcm pending c (err e, s) =
      (err (LiveCoordinatorError.domain e), record c { domain = s })
  sequenced pcm pending c (ok n, s) =
      written n pending (record c { domain = s })
        (session.write_audio (record { sequence = n; pcm_s16le = pcm }) c.provider)

  unfoldable pub prepared :
      List ℕ
      → LiveCoordinator P
      → Result AcceptedAudioError PendingAudioAcceptance
      → Result LiveCoordinatorError ℕ × LiveCoordinator P
  unfolding sequenced
  prepared pcm c (err e) = (err invalid_audio_frame, c)
  prepared pcm c (ok pending) = sequenced pcm pending c (Session.accept_audio c.domain)

  unfoldable pub provider_write : List ℕ → Live P ℕ
  unfolding prepared
  provider_write pcm c =
      if ltb max_pcm_frame_bytes (length pcm)
      then (err invalid_audio_frame, c)
      else prepared pcm c (Timeline.prepare_audio_write c.timeline (length pcm))

  unfoldable pub finalize_begun :
      LiveCoordinator P
      → Result LiveSessionError (Unit {0}) × LiveSession
      → Result LiveCoordinatorError (Unit {0}) × LiveCoordinator P
  unfolding finalize_answered
  finalize_begun c (err e, s) = (err (LiveCoordinatorError.domain e), record c { domain = s })
  finalize_begun c (ok u, s) =
      finalize_answered (record c { domain = s }) (session.finalize c.provider)

  unfoldable pub begin_finalize : Live P (Unit {0})
  unfolding finalize_begun
  begin_finalize c = finalize_begun c (Session.begin_finalize c.domain)

  -- Both closes are made.
  unfoldable pub close : Live P (Unit {0})
  unfolding close_result
  close c =
      let (r, p) = session.close c.provider in
      let (d, s) = Session.close c.domain in
      (close_result r d, record c { provider = p; domain = s })

  -- `next_event`: how one answer ends its loop, or starts it again.
  unfoldable pub next_answer :
      Bool
      → (LiveCoordinator P
          → Option (Result LiveCoordinatorError (Option LiveCoordinatorEvent) × LiveCoordinator P))
      → Result LiveCoordinatorError (Option LiveCoordinatorEvent) × LiveCoordinator P
      → Option (Result LiveCoordinatorError (Option LiveCoordinatorEvent) × LiveCoordinator P)
  next_answer ended again (err e, c) = some (err e, c)
  next_answer ended again (ok (some event), c) = some (ok (some event), c)
  next_answer true again (ok none, c) = some (ok none, c)
  next_answer false again (ok none, c) = again c

  -- The loop of `next_event`, with a bound on its rounds.
  unfoldable pub next_event :
      ℕ
      → LiveCoordinator P
      → Option (Result LiveCoordinatorError (Option LiveCoordinatorEvent) × LiveCoordinator P)
  unfolding next_answer apply_provider_event
  next_event zero c = none
  next_event (suc n) c =
      let (received, p) = session.next_event c.provider in
      next_answer (stream_ended received) (next_event n)
        (apply_provider_event received (record c { provider = p }))

-- `open`: the provider's session is opened by the factory after the timeline is made.
unfoldable pub opened :
    {P : Type 0}
    → LiveTimeline
    → Result RecognitionFailure P
    → Result LiveCoordinatorError (LiveCoordinator P)
opened timeline (err e) = err (recognition e)
opened timeline (ok p) = elim (Session.mark_ready Session.new).0 [
  | ok u ↦
      ok (record { domain = (Session.mark_ready Session.new).1; provider = p; timeline = timeline })
  | err e ↦ err (LiveCoordinatorError.domain e)
]

unfoldable pub open_on :
    {P R : Type 0}
    → (R → Result RecognitionFailure P)
    → R
    → Result AcceptedAudioError LiveTimeline
    → Result LiveCoordinatorError (LiveCoordinator P)
unfolding opened
open_on factory request (err e) = err invalid_audio_frame
open_on factory request (ok timeline) = opened timeline (factory request)

unfoldable pub open_session :
    {P R : Type 0}
    → (R → Result RecognitionFailure P)
    → R
    → ℕ
    → ℕ
    → Result LiveCoordinatorError (LiveCoordinator P)
unfolding open_on
open_session factory request sample_rate_hz channels =
    open_on factory request (Timeline.new sample_rate_hz channels)
