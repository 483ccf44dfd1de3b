-- ===== src/Session.antt =====
-- crates/voicetext-speech/src/domain/live.rs: the lifecycle of one live transcription session.
-- A method on `&mut self` is a `Method`: it returns its result with the session that it leaves.
-- A `BTreeSet` is the ascending list of its elements, a `RawAudioSequence` the number that it wraps.
mod Types
mod Cases
pub mod Invariant
pub mod Confirm
pub mod Trace
pub mod Lifecycle
mod Tests
use voicetext_gateway.Prelude.{
  ℕ, ◌+◌, Bool, true, false, not, List, [], ◌∷◌, Result, ok, err, Method, pure, get, put, ensure,
  ok_or, fail_with, ◌>>=◌, ◌>>◌, ◌==◌, if◌then◌else◌, length, is_empty, checked, u64_max, contains,
  insert, remove,
}
use Types.{LiveSessionOperation}
pub use Types.{
  LiveSessionPhase, awaiting_ready, streaming, finalizing, finalized, closed, failed,
  FinalizeStatus, flushed, no_provider, timeout, FinalizeOutcome, LiveSessionError,
  invalid_transition, pending_audio_limit_reached, audio_sequence_exhausted, unknown_audio_sequence,
  provider_write_already_confirmed, provider_write_not_confirmed, finalize_has_pending_audio,
  flushed_without_result, no_provider_after_audio, no_provider_after_result,
}

abbrev pub max_pending_audio_sequences : ℕ
max_pending_audio_sequences = 256

pub record LiveSession : Type 0 where
  pub phase : LiveSessionPhase
  pub pending_audio : List ℕ
  pub provider_written_audio : List ℕ
  pub last_sequence : ℕ
  pub accepted_audio : Bool
  pub finalize_result_observed : Bool

unfoldable pub new : LiveSession
new = record {
  phase = awaiting_ready;
  pending_audio = [];
  provider_written_audio = [];
  last_sequence = 0;
  accepted_audio = false;
  finalize_result_observed = false;
}

-- `PartialEq` on phases.
abbrev pub is_phase : LiveSessionPhase → LiveSessionPhase → Bool
is_phase awaiting_ready awaiting_ready = true
is_phase streaming streaming = true
is_phase finalizing finalizing = true
is_phase finalized finalized = true
is_phase closed closed = true
is_phase failed failed = true
is_phase _ _ = false

abbrev pub Session : Type 0 → Type 0
Session A = Method LiveSession LiveSessionError A

unfoldable pub require_phase : LiveSessionPhase → LiveSessionOperation → Session (Unit {0})
require_phase expected operation s =
    ensure (is_phase s.phase expected) (invalid_transition s.phase operation) s

unfoldable pub mark_ready : Session (Unit {0})
unfolding require_phase
mark_ready = do
  require_phase awaiting_ready LiveSessionOperation.become_ready
  s ← get
  put (record s { phase = streaming })

unfoldable pub accept_audio : Session ℕ
unfolding require_phase
accept_audio = do
  require_phase streaming LiveSessionOperation.accept_audio
  s ← get
  ensure (not (length s.pending_audio == max_pending_audio_sequences)) pending_audio_limit_reached
  value ← ok_or (checked u64_max (s.last_sequence + 1)) audio_sequence_exhausted
  put (record s {
    pending_audio = insert value s.pending_audio;
    last_sequence = value;
    accepted_audio = true;
  })
  pure value

unfoldable pub mark_provider_write_succeeded : ℕ → Session (Unit {0})
unfolding require_phase
mark_provider_write_succeeded sequence = do
  require_phase streaming LiveSessionOperation.confirm_provider_write
  s ← get
  ensure (contains sequence s.pending_audio) (unknown_audio_sequence sequence)
  ensure (not (contains sequence s.provider_written_audio))
      (provider_write_already_confirmed sequence)
  put (record s { provider_written_audio = insert sequence s.provider_written_audio })

unfoldable pub mark_ack_sent : ℕ → Session (Unit {0})
unfolding require_phase
mark_ack_sent sequence = do
  require_phase streaming LiveSessionOperation.confirm_acknowledgement
  s ← get
  ensure (contains sequence s.pending_audio) (unknown_audio_sequence sequence)
  ensure (contains sequence s.provider_written_audio) (provider_write_not_confirmed sequence)
  put (record s {
    provider_written_audio = remove sequence s.provider_written_audio;
    pending_audio = remove sequence s.pending_audio;
  })

unfoldable pub begin_finalize : Session (Unit {0})
unfolding require_phase
begin_finalize = do
  require_phase streaming LiveSessionOperation.begin_finalize
  s ← get
  ensure (is_empty s.pending_audio) finalize_has_pending_audio
  put (record s { finalize_result_observed = false; phase = finalizing })

unfoldable pub mark_finalize_result_observed : Session (Unit {0})
unfolding require_phase
mark_finalize_result_observed = do
  require_phase finalizing LiveSessionOperation.observe_finalize_result
  s ← get
  put (record s { finalize_result_observed = true })

-- The guards of the `match status` in `complete_finalize`, in their order.
check_status : FinalizeStatus → Session (Unit {0})
check_status flushed s = ensure s.finalize_result_observed flushed_without_result s
check_status no_provider s =
    if s.accepted_audio
    then fail_with no_provider_after_audio s
    else ensure (not s.finalize_result_observed) no_provider_after_result s
check_status timeout s = pure tt s

unfoldable pub complete_finalize : FinalizeStatus → Session FinalizeOutcome
unfolding require_phase check_status
complete_finalize status = do
  require_phase finalizing LiveSessionOperation.complete_finalize
  check_status status
  s ← get
  put (record s { phase = finalized })
  pure (record { status = status; saw_result = s.finalize_result_observed })

abbrev pub is_terminal : LiveSessionPhase → Bool
is_terminal closed = true
is_terminal failed = true
is_terminal _ = false

unfoldable pub close : Session (Unit {0})
close = do
  s ← get
  ensure (not (is_terminal s.phase)) (invalid_transition s.phase LiveSessionOperation.close)
  put (record s { phase = closed })

unfoldable pub fail : Session (Unit {0})
fail = do
  s ← get
  ensure (not (is_terminal s.phase)) (invalid_transition s.phase LiveSessionOperation.fail)
  put (record s { phase = failed })

-- One call of the public interface, and what it reports.
pub data Call : Type 0 where
  marks_ready accepts : Call
  writes acks : ℕ → Call
  starts_finalize observes_result : Call
  finishes : FinalizeStatus → Call
  closes fails : Call

pub data Reply : Type 0 where
  done : Reply
  assigned : ℕ → Reply
  outcome : FinalizeOutcome → Reply

abbrev replied {ℓ} :
    {A : Type ℓ}
    → (A → Reply)
    → Result LiveSessionError A × LiveSession
    → Result LiveSessionError Reply × LiveSession
replied f (ok a, s) = (ok (f a), s)
replied f (err e, s) = (err e, s)

unfoldable pub step : Call → Session Reply
unfolding mark_ready accept_audio mark_provider_write_succeeded mark_ack_sent begin_finalize
    mark_finalize_result_observed complete_finalize close fail
step marks_ready s = replied (λ _. done) (mark_ready s)
step accepts s = replied assigned (accept_audio s)
step (writes n) s = replied (λ _. done) (mark_provider_write_succeeded n s)
step (acks n) s = replied (λ _. done) (mark_ack_sent n s)
step starts_finalize s = replied (λ _. done) (begin_finalize s)
step observes_result s = replied (λ _. done) (mark_finalize_result_observed s)
step (finishes status) s = replied outcome (complete_finalize status s)
step closes s = replied (λ _. done) (close s)
step fails s = replied (λ _. done) (fail s)

-- The session after a sequence of calls, refused ones included.
unfoldable pub run : LiveSession → List Call → LiveSession
run s [] = s
run s (c ∷ cs) = run (step c s).1 cs
