-- ===== src/Session/Types.antt =====
-- The phases, operations, errors and outcomes of crates/voicetext-speech/src/domain/live.rs.
use voicetext_gateway.Prelude.{ℕ, Bool}

pub data LiveSessionPhase : Type 0 where
  awaiting_ready streaming finalizing finalized closed failed : LiveSessionPhase

pub data FinalizeStatus : Type 0 where
  flushed no_provider timeout : FinalizeStatus

pub record FinalizeOutcome : Type 0 where
  pub status : FinalizeStatus
  pub saw_result : Bool

pub data LiveSessionOperation : Type 0 where
  become_ready accept_audio confirm_provider_write confirm_acknowledgement : LiveSessionOperation
  begin_finalize observe_finalize_result complete_finalize close fail : LiveSessionOperation

pub data LiveSessionError : Type 0 where
  invalid_transition : LiveSessionPhase → LiveSessionOperation → LiveSessionError
  pending_audio_limit_reached audio_sequence_exhausted : LiveSessionError
  unknown_audio_sequence : ℕ → LiveSessionError
  provider_write_already_confirmed : ℕ → LiveSessionError
  provider_write_not_confirmed : ℕ → LiveSessionError
  finalize_has_pending_audio flushed_without_result : LiveSessionError
  no_provider_after_audio no_provider_after_result : LiveSessionError
