-- ===== src/Session/Cases.antt =====
-- How the three calls of domain/live.rs that move audio sequences end: refused with the session as
-- it was, or with the named change under the named guards.
use voicetext_gateway.Prelude.{
  ℕ, ◌+◌, ◌≤◌, ◌≡◌, ◌≢◌, true, false, arith, contains, insert, remove, length, u64_max,
}
use voicetext_gateway.Session.{
  LiveSession, streaming, max_pending_audio_sequences, accepts, writes, acks, step,
}

module _ (P : LiveSession → Type 0) (s : LiveSession) (refused : P s) where
  pub accepts_cases :
      (s.phase ≡ streaming
        → length s.pending_audio ≢ max_pending_audio_sequences
        → s.last_sequence + 1 ≤ u64_max
        → P (record s {
          pending_audio = insert (s.last_sequence + 1) s.pending_audio;
          last_sequence = s.last_sequence + 1;
          accepted_audio = true;
        }))
      → P (step accepts s).1
  unfolding step
  accepts_cases changed = ground arith

  pub writes_cases :
      (n : ℕ)
      → (s.phase ≡ streaming
          → contains n s.pending_audio ≡ true
          → contains n s.provider_written_audio ≡ false
          → P (record s { provider_written_audio = insert n s.provider_written_audio }))
      → P (step (writes n) s).1
  unfolding step
  writes_cases n changed = ground arith

  pub acks_cases :
      (n : ℕ)
      → (s.phase ≡ streaming
          → contains n s.pending_audio ≡ true
          → contains n s.provider_written_audio ≡ true
          → P (record s {
            provider_written_audio = remove n s.provider_written_audio;
            pending_audio = remove n s.pending_audio;
          }))
      → P (step (acks n) s).1
  unfolding step
  acks_cases n changed = ground arith
