-- ===== src/Live/History.antt =====
-- Whole histories of one coordinator of application/live.rs, with any provider.
use mathlib.Core.Path.{subst}
use voicetext_gateway.Prelude.{
  ℕ, ◌≡◌, refl, sym, false, arith, List, [], ◌∷◌, Option, none, some, Result, ok, err, Bool-cases,
  inl, inr, length, ltb, IsErr,
}
use voicetext_gateway.Session
use voicetext_gateway.Session.{streaming, LiveSession, LiveSessionError, FinalizeStatus}
use voicetext_gateway.Session.Confirm.{
  accept_audio-Inv, confirm-Inv, ack-Inv, begin_finalize-Inv, observe-Inv, complete_finalize-Inv,
  close-Inv, fail-Inv, mark_ready-Inv,
}
use voicetext_gateway.Session.Invariant
use voicetext_gateway.Session.Invariant.{new-Inv}
use voicetext_gateway.Timeline
use voicetext_gateway.Timeline.{
  LiveTimeline, LiveTimelineError, LiveTranscript, AcceptedAudioError, PendingAudioAcceptance,
}
use voicetext_gateway.Timeline.Horizon
use voicetext_gateway.Timeline.Horizon.{commit-Inv}
use voicetext_gateway.Timeline.Finals.{validate_transcript-Inv, validate_utterance_end-Inv}
use voicetext_gateway.Batch.Models.{RecognitionFailure}
use voicetext_gateway.Live
use voicetext_gateway.Live.{
  LiveCoordinator, LiveCoordinatorError, LiveRecognitionEvent, LiveCoordinatorEvent,
  LiveRecognizerSession, provider_write, apply_provider_event, ack_sent, timed, observed, written,
  confirmed, prepared, sequenced, bounded_transcript, check_transcript, InvalidProviderEvent,
  finalize_result_observed, finalize_begun, finalize_answered, fail_after_provider_error,
  max_pcm_frame_bytes, of_domain, close_result,
}
use voicetext_gateway.Live.Writes.{Inv}

-- One call of a coordinator: a provider event is whatever the provider answered to a read.
pub data LiveCall : Type 0 where
  writes : List ℕ → LiveCall
  acks : ℕ → LiveCall
  receives : Result RecognitionFailure (Option LiveRecognitionEvent) → LiveCall
  starts_finalize closes : LiveCall
  finishes : FinalizeStatus → LiveCall

domain_Inv :
    {P A : Type 0} (c : LiveCoordinator P) (r : Result LiveSessionError A × LiveSession)
    → Inv c
    → Session.Invariant.Inv r.1
    → Inv (of_domain c r).1
domain_Inv c (ok a, s) v w = record { session = w; timeline = v.timeline }
domain_Inv c (err e, s) v w = record { session = w; timeline = v.timeline }

fail_Inv : {P : Type 0} (c : LiveCoordinator P) → Inv c → Inv (fail_after_provider_error c)
unfolding fail_after_provider_error
fail_Inv c v = record { session = fail-Inv c.domain v.session; timeline = v.timeline }

confirmed_Inv :
    {P : Type 0} (n : ℕ) (c : LiveCoordinator P)
    (r : Result LiveSessionError (Unit {0}) × LiveSession)
    → Horizon.Inv c.timeline
    → Session.Invariant.Inv r.1
    → Inv (confirmed n c r).1
unfolding confirmed
confirmed_Inv n c (ok u, s) t w = record { session = w; timeline = t }
confirmed_Inv n c (err e, s) t w = record { session = w; timeline = t }

timed_Inv :
    {P A : Type 0} (a : A) (c : LiveCoordinator P)
    (r : Result LiveTimelineError (Unit {0}) × LiveTimeline)
    → Inv c
    → Horizon.Inv r.1
    → Inv (timed a c r).1
unfolding timed
timed_Inv a c (ok u, t) v w = record { session = v.session; timeline = w }
timed_Inv a c (err e, t) v w =
    fail_Inv (record c { timeline = t }) (record { session = v.session; timeline = w })

bounded_Inv :
    {P : Type 0} (x : LiveTranscript) (r : Result InvalidProviderEvent (Unit {0}))
    (c : LiveCoordinator P)
    → Inv c
    → Inv (bounded_transcript x r c).1
unfolding bounded_transcript
bounded_Inv x (err e) c v = fail_Inv c v
bounded_Inv x (ok u) c v =
    timed_Inv (some (LiveCoordinatorEvent.transcript x)) c
      (Timeline.validate_transcript x c.timeline) v
      (validate_transcript-Inv x c.timeline v.timeline)

observed_Inv :
    {P : Type 0} (c : LiveCoordinator P) (r : Result LiveSessionError (Unit {0}) × LiveSession)
    → Inv c
    → Session.Invariant.Inv r.1
    → Inv (observed c r).1
unfolding observed
observed_Inv c (ok u, s) v w = record { session = w; timeline = v.timeline }
observed_Inv c (err e, s) v w =
    fail_Inv (record c { domain = s }) (record { session = w; timeline = v.timeline })

event_Inv :
    {P : Type 0} (r : Result RecognitionFailure (Option LiveRecognitionEvent))
    (c : LiveCoordinator P)
    → Inv c
    → Inv (apply_provider_event r c).1
unfolding apply_provider_event
event_Inv (err e) c v = fail_Inv c v
event_Inv (ok none) c v = v
event_Inv (ok (some (LiveRecognitionEvent.transcript x))) c v =
    bounded_Inv x (check_transcript x) c v
event_Inv (ok (some (LiveRecognitionEvent.utterance_end n))) c v =
    timed_Inv (some (LiveCoordinatorEvent.utterance_end n)) c
      (Timeline.validate_utterance_end n c.timeline) v
      (validate_utterance_end-Inv n c.timeline v.timeline)
event_Inv (ok (some finalize_result_observed)) c v =
    observed_Inv c (Session.mark_finalize_result_observed c.domain) v
      (observe-Inv c.domain v.session)

module _ {P : Type 0} (session : LiveRecognizerSession P) where
  pub live_step : LiveCall → LiveCoordinator P → LiveCoordinator P
  live_step (writes pcm) c = (provider_write session pcm c).1
  live_step (acks n) c = (ack_sent n c).1
  live_step (receives r) c = (apply_provider_event r c).1
  live_step starts_finalize c = (Live.begin_finalize session c).1
  live_step (finishes status) c = (Live.complete_finalize status c).1
  live_step closes c = (Live.close session c).1

  pub live_run : List LiveCall → LiveCoordinator P → LiveCoordinator P
  live_run [] c = c
  live_run (k ∷ ks) c = live_run ks (live_step k c)

  written_Inv :
      (n : ℕ) (pending : PendingAudioAcceptance) (c : LiveCoordinator P)
      (a : Result RecognitionFailure (Unit {0}) × P)
      → Session.Invariant.Inv c.domain
      → Horizon.Inv c.timeline
      → Horizon.Inv (Timeline.commit_audio_write pending c.timeline)
      → Inv (written n pending c a).1
  unfolding written
  written_Inv n pending c (err e, p) v t w =
      fail_Inv (record c { provider = p }) (record { session = v; timeline = t })
  written_Inv n pending c (ok u, p) v t w =
      confirmed_Inv n
        (record c { provider = p; timeline = Timeline.commit_audio_write pending c.timeline })
        (Session.mark_provider_write_succeeded n c.domain) w (confirm-Inv n c.domain v)

  sequenced_Inv :
      (pcm : List ℕ) (pending : PendingAudioAcceptance) (c : LiveCoordinator P)
      (r : Result LiveSessionError ℕ × LiveSession)
      → Session.Invariant.Inv r.1
      → Horizon.Inv c.timeline
      → Horizon.Inv (Timeline.commit_audio_write pending c.timeline)
      → Inv (sequenced session pcm pending c r).1
  unfolding sequenced
  sequenced_Inv pcm pending c (err e, s) v t w = record { session = v; timeline = t }
  sequenced_Inv pcm pending c (ok n, s) v t w =
      written_Inv n pending (record c { domain = s })
        (session.write_audio (record { sequence = n; pcm_s16le = pcm }) c.provider) v t w

  prepared_Inv :
      (pcm : List ℕ) (c : LiveCoordinator P) (r : Result AcceptedAudioError PendingAudioAcceptance)
      → Inv c
      → Timeline.prepare_audio_write c.timeline (length pcm) ≡ r
      → Inv (prepared session pcm c r).1
  unfolding prepared
  prepared_Inv pcm c (err e) v h = v
  prepared_Inv pcm c (ok pending) v h =
      sequenced_Inv pcm pending c (Session.accept_audio c.domain)
        (accept_audio-Inv c.domain v.session) v.timeline
        (commit-Inv c.timeline (length pcm) pending v.timeline h).0

  write_Inv : (pcm : List ℕ) (c : LiveCoordinator P) → Inv c → Inv (provider_write session pcm c).1
  unfolding provider_write
  write_Inv pcm c v = elim (Bool-cases (ltb max_pcm_frame_bytes (length pcm))) [
    | inl e ↦ rw e v
    | inr e ↦
        rw e (prepared_Inv pcm c (Timeline.prepare_audio_write c.timeline (length pcm)) v refl)
  ]

  finalize_answered_Inv :
      (c : LiveCoordinator P) (a : Result RecognitionFailure (Unit {0}) × P)
      → Inv c
      → Inv (finalize_answered c a).1
  unfolding finalize_answered
  finalize_answered_Inv c (ok u, p) v = record { session = v.session; timeline = v.timeline }
  finalize_answered_Inv c (err e, p) v =
      fail_Inv (record c { provider = p }) (record { session = v.session; timeline = v.timeline })

  begun_Inv :
      (c : LiveCoordinator P) (r : Result LiveSessionError (Unit {0}) × LiveSession)
      → Session.Invariant.Inv r.1
      → Horizon.Inv c.timeline
      → Inv (finalize_begun session c r).1
  unfolding finalize_begun
  begun_Inv c (err e, s) v t = record { session = v; timeline = t }
  begun_Inv c (ok u, s) v t =
      finalize_answered_Inv (record c { domain = s }) (session.finalize c.provider)
        (record { session = v; timeline = t })

  live_step-Inv : (k : LiveCall) (c : LiveCoordinator P) → Inv c → Inv (live_step k c)
  unfolding live_step ack_sent Live.complete_finalize Live.begin_finalize Live.close
  live_step-Inv (writes pcm) c v = write_Inv pcm c v
  live_step-Inv (acks n) c v =
      domain_Inv c (Session.mark_ack_sent n c.domain) v (ack-Inv n c.domain v.session)
  live_step-Inv (receives r) c v = event_Inv r c v
  live_step-Inv starts_finalize c v =
      begun_Inv c (Session.begin_finalize c.domain) (begin_finalize-Inv c.domain v.session)
        v.timeline
  live_step-Inv (finishes status) c v =
      domain_Inv c (Session.complete_finalize status c.domain) v
        (complete_finalize-Inv status c.domain v.session)
  live_step-Inv closes c v = record {
    session = close-Inv c.domain v.session;
    timeline = v.timeline;
  }

  -- Any history of writes, ACKs, provider events, finalizations and closes, with whatever the
  -- provider answers, keeps the session's and the timeline's invariants.
  pub live_run-Inv : (ks : List LiveCall) (c : LiveCoordinator P) → Inv c → Inv (live_run ks c)
  unfolding live_run
  live_run-Inv [] c v = v
  live_run-Inv (k ∷ ks) c v = live_run-Inv ks (live_step k c) (live_step-Inv k c v)

-- The session streams, no sequence was assigned and no finalize evidence was seen.
abbrev pub IsFreshSession : LiveSession → Type 0
IsFreshSession d =
    (d.phase ≡ streaming)
    × (d.pending_audio ≡ [])
    × (d.provider_written_audio ≡ [])
    × (d.last_sequence ≡ 0)
    × (d.accepted_audio ≡ false)
    × (d.finalize_result_observed ≡ false)

-- No audio was accepted, and no final transcript passed.
abbrev pub IsFreshTimeline : LiveTimeline → Type 0
IsFreshTimeline t =
    (t.accepted_sample_frames ≡ 0)
    × (t.accepted_horizon_millis ≡ 0)
    × (t.last_final_end_millis ≡ none)

new_fresh :
    (rate channels : ℕ) (t : LiveTimeline) → Timeline.new rate channels ≡ ok t → IsFreshTimeline t
unfolding Timeline.new
new_fresh rate channels t h = ground arith

abbrev Opened :
    {P : Type 0}
    → LiveTimeline
    → Result RecognitionFailure P
    → Result LiveCoordinatorError (LiveCoordinator P)
    → Type 0
Opened t p (err e) = Unit
Opened t p (ok c) = Inv c × (c.timeline ≡ t) × IsFreshSession c.domain × (p ≡ ok c.provider)

opened_Inv :
    {P : Type 0} (t : LiveTimeline) (r : Result RecognitionFailure P) (c : LiveCoordinator P)
    → Horizon.Inv t
    → Live.opened t r ≡ ok c
    → Opened t r (ok c)
unfolding Live.opened Session.mark_ready Session.new
opened_Inv t (err e) c v h = absurd (subst IsErr h tt)
opened_Inv t (ok p) c v h =
    subst (λ r. Opened t (ok p) r) h
      (
        record { session = mark_ready-Inv Session.new new-Inv; timeline = v },
        refl,
        (refl, refl, refl, refl, refl, refl),
        refl,
      )

opening :
    {P R : Type 0} (factory : R → Result RecognitionFailure P) (request : R) (c : LiveCoordinator P)
    (r : Result AcceptedAudioError LiveTimeline)
    → ((t : LiveTimeline) → r ≡ ok t → Horizon.Inv t × IsFreshTimeline t)
    → Live.open_on factory request r ≡ ok c
    → Inv c
      × IsFreshSession c.domain
      × IsFreshTimeline c.timeline
      × (factory request ≡ ok c.provider)
unfolding Live.open_on
opening factory request c (err e) f h = absurd (subst IsErr h tt)
opening factory request c (ok t) f h =
    let (v, z) = f t refl in
    let (w, e, s, p) = opened_Inv t (factory request) c v h in
    (w, s, subst IsFreshTimeline (sym e) z, p)

-- A session that opens holds the session that the factory opened, streams with the invariants, and
-- starts empty: no sequence assigned, pending or written to the provider, no audio accepted, no finalize
-- evidence and no final transcript.
pub open-Inv :
    {P R : Type 0} (factory : R → Result RecognitionFailure P) (request : R)
    (sample_rate_hz channels : ℕ) (c : LiveCoordinator P)
    → Live.open_session factory request sample_rate_hz channels ≡ ok c
    → Inv c
      × IsFreshSession c.domain
      × IsFreshTimeline c.timeline
      × (factory request ≡ ok c.provider)
unfolding Live.open_session
open-Inv factory request sample_rate_hz channels c h =
    opening factory request c (Timeline.new sample_rate_hz channels)
      (λ t e.
        let (v, _, _) = Horizon.new-Inv sample_rate_hz channels t e in
        (v, new_fresh sample_rate_hz channels t e))
      h
