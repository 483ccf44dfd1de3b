-- ===== src/Session/Confirm.antt =====
-- One audio frame on its way through a session of domain/live.rs: accepted, then confirmed.
use mathlib.Core.Path.{subst}
use voicetext_gateway.Prelude.{
  ℕ, ◌+◌, ◌≡◌, refl, true, Result, ok, err, arith, insert, contains-insert,
}
use voicetext_gateway.Session.{
  LiveSession, LiveSessionError, streaming, accept_audio, mark_provider_write_succeeded,
  invalid_transition, pending_audio_limit_reached, audio_sequence_exhausted, FinalizeStatus, step,
  replied, Reply, assigned, outcome, done, accepts, writes, acks, starts_finalize, observes_result,
  finishes, closes, fails, mark_ack_sent, mark_ready, marks_ready, begin_finalize,
  mark_finalize_result_observed, complete_finalize, close, fail, is_terminal,
}
use voicetext_gateway.Session.Types.{LiveSessionOperation}
use voicetext_gateway.Session.Invariant.{Inv, step-Inv, next_not_pending}

-- The session with its next frame accepted.
abbrev pub with_next : LiveSession → LiveSession
with_next s = record s {
  pending_audio = insert (s.last_sequence + 1) s.pending_audio;
  last_sequence = s.last_sequence + 1;
  accepted_audio = true;
}

pub accept_audio_cases :
    (Q : Result LiveSessionError ℕ × LiveSession → Type 0) (s : LiveSession)
    → ((e : LiveSessionError) → Q (err e, s))
    → (s.phase ≡ streaming → Q (ok (s.last_sequence + 1), with_next s))
    → Q (accept_audio s)
unfolding accept_audio
accept_audio_cases Q s refused accepted = ground (
  arith,
  refused (invalid_transition s.phase LiveSessionOperation.accept_audio),
  refused pending_audio_limit_reached,
  refused audio_sequence_exhausted,
)

pub confirms_next :
    (s : LiveSession)
    → Inv s
    → s.phase ≡ streaming
    → mark_provider_write_succeeded (s.last_sequence + 1) (with_next s) ≡ (
      ok tt,
      record (with_next s) {
        provider_written_audio = insert (s.last_sequence + 1) s.provider_written_audio;
      },
    )
unfolding mark_provider_write_succeeded
confirms_next s v p = ground (
  arith,
  contains-insert (s.last_sequence + 1) (s.last_sequence + 1) s.pending_audio,
  next_not_pending s v,
  v.written_pending (s.last_sequence + 1),
)

replied_state {ℓ} :
    {A : Type ℓ} (f : A → Reply) (r : Result LiveSessionError A × LiveSession)
    → (replied f r).1 ≡ r.1
replied_state f (ok a, s) = refl
replied_state f (err e, s) = refl

-- The invariant after the calls by themselves.
pub accept_audio-Inv : (s : LiveSession) → Inv s → Inv (accept_audio s).1
unfolding step
accept_audio-Inv s v = subst Inv (replied_state assigned (accept_audio s)) (step-Inv accepts s v)

pub confirm-Inv : (n : ℕ) (s : LiveSession) → Inv s → Inv (mark_provider_write_succeeded n s).1
unfolding step
confirm-Inv n s v =
    subst Inv (replied_state (λ _. done) (mark_provider_write_succeeded n s))
      (step-Inv (writes n) s v)

pub ack-Inv : (n : ℕ) (s : LiveSession) → Inv s → Inv (mark_ack_sent n s).1
unfolding step
ack-Inv n s v = subst Inv (replied_state (λ _. done) (mark_ack_sent n s)) (step-Inv (acks n) s v)

pub begin_finalize-Inv : (s : LiveSession) → Inv s → Inv (begin_finalize s).1
unfolding step
begin_finalize-Inv s v =
    subst Inv (replied_state (λ _. done) (begin_finalize s)) (step-Inv starts_finalize s v)

pub observe-Inv : (s : LiveSession) → Inv s → Inv (mark_finalize_result_observed s).1
unfolding step
observe-Inv s v =
    subst Inv (replied_state (λ _. done) (mark_finalize_result_observed s))
      (step-Inv observes_result s v)

pub complete_finalize-Inv :
    (status : FinalizeStatus) (s : LiveSession) → Inv s → Inv (complete_finalize status s).1
unfolding step
complete_finalize-Inv status s v =
    subst Inv (replied_state outcome (complete_finalize status s)) (step-Inv (finishes status) s v)

pub close-Inv : (s : LiveSession) → Inv s → Inv (close s).1
unfolding step
close-Inv s v = subst Inv (replied_state (λ _. done) (close s)) (step-Inv closes s v)

pub fail-Inv : (s : LiveSession) → Inv s → Inv (fail s).1
unfolding step
fail-Inv s v = subst Inv (replied_state (λ _. done) (fail s)) (step-Inv fails s v)

pub mark_ready-Inv : (s : LiveSession) → Inv s → Inv (mark_ready s).1
unfolding step
mark_ready-Inv s v = subst Inv (replied_state (λ _. done) (mark_ready s)) (step-Inv marks_ready s v)

pub fail_terminal : (s : LiveSession) → is_terminal (fail s).1.phase ≡ true
unfolding fail
fail_terminal s = ground arith
