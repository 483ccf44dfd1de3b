-- ===== src/Session/Invariant.antt =====
-- What holds of a live session between two calls of domain/live.rs.
use voicetext_gateway.Prelude.{
  ℕ, ◌+◌, ◌≤◌, ◌<◌, ◌≡◌, ◌⊎◌, refl, true, false, List, [], ◌∷◌, arith, Above, contains, length,
  u64_max, Above-insert, Above-remove, Above-contains, contains-insert, contains-remove,
  length-insert, length-remove,
}
use voicetext_gateway.Session.Cases.{accepts_cases, writes_cases, acks_cases}
use voicetext_gateway.Session.{
  LiveSession, finalizing, streaming, awaiting_ready, max_pending_audio_sequences, new, Call,
  marks_ready, accepts, writes, acks, starts_finalize, observes_result, finishes, closes, fails,
  step, run,
}

pub record Inv (s : LiveSession) : Type 0 where
  pub pending_above : Above 0 s.pending_audio
  pub written_above : Above 0 s.provider_written_audio
  pub pending_assigned : (n : ℕ) → contains n s.pending_audio ≡ true → n ≤ s.last_sequence
  pub written_pending :
      (n : ℕ) → contains n s.provider_written_audio ≡ true → contains n s.pending_audio ≡ true
  pub bounded : length s.pending_audio ≤ max_pending_audio_sequences
  pub representable : s.last_sequence ≤ u64_max
  pub accepted : 0 < s.last_sequence → s.accepted_audio ≡ true
  pub drained : s.phase ≡ finalizing → s.pending_audio ≡ []
  pub quiet :
      (s.phase ≡ awaiting_ready) ⊎ (s.phase ≡ streaming) → s.finalize_result_observed ≡ false
  pub fresh : s.phase ≡ awaiting_ready → s.last_sequence ≡ 0

pub new-Inv : Inv new
unfolding new contains
new-Inv = record {
  pending_above = tt;
  written_above = tt;
  pending_assigned = λ n h. cc;
  written_pending = λ n h. cc;
  bounded = omega arith;
  representable = omega arith;
  accepted = λ h. absurd (omega arith);
  drained = λ h. refl;
  quiet = λ h. refl;
  fresh = λ h. refl;
}

-- The next sequence is not pending yet.
pub next_not_pending :
    (s : LiveSession) → Inv s → contains (s.last_sequence + 1) s.pending_audio ≡ false
next_not_pending s v = ground (arith, v.pending_assigned (s.last_sequence + 1))

accepts-Inv : (s : LiveSession) → Inv s → Inv (step accepts s).1
accepts-Inv s v = accepts_cases Inv s v λ p l h. record {
  pending_above =
      Above-insert 0 (s.last_sequence + 1) s.pending_audio (omega arith) v.pending_above;
  written_above = v.written_above;
  pending_assigned = λ n e.
      ground (arith, contains-insert n (s.last_sequence + 1) s.pending_audio, v.pending_assigned n);
  written_pending = λ n e.
      ground (arith, contains-insert n (s.last_sequence + 1) s.pending_audio, v.written_pending n);
  bounded = omega (
    arith,
    v.bounded,
    length-insert (s.last_sequence + 1) s.pending_audio (next_not_pending s v),
  );
  representable = h;
  accepted = λ _. refl;
  drained = λ e. cc;
  quiet = v.quiet;
  fresh = λ e. cc;
}

writes-Inv : (n : ℕ) (s : LiveSession) → Inv s → Inv (step (writes n) s).1
writes-Inv n s v = writes_cases Inv s v n λ p old new. record {
  pending_above = v.pending_above;
  pending_assigned = v.pending_assigned;
  bounded = v.bounded;
  representable = v.representable;
  accepted = v.accepted;
  drained = v.drained;
  quiet = v.quiet;
  fresh = v.fresh;
  written_above =
      Above-insert 0 n s.provider_written_audio
        (Above-contains 0 n s.pending_audio v.pending_above old) v.written_above;
  written_pending =
      λ m e. ground (arith, contains-insert m n s.provider_written_audio, v.written_pending m);
}

acks-Inv : (n : ℕ) (s : LiveSession) → Inv s → Inv (step (acks n) s).1
acks-Inv n s v = acks_cases Inv s v n λ p old written. record {
  pending_above = Above-remove 0 n s.pending_audio v.pending_above;
  written_above = Above-remove 0 n s.provider_written_audio v.written_above;
  pending_assigned =
      λ m e. ground (arith, contains-remove m n s.pending_audio, v.pending_assigned m);
  written_pending = λ m e. ground (
    arith,
    contains-remove m n s.pending_audio,
    contains-remove m n s.provider_written_audio,
    v.written_pending m,
  );
  bounded = omega (arith, v.bounded, length-remove 0 n s.pending_audio v.pending_above old);
  representable = v.representable;
  accepted = v.accepted;
  drained = λ e. cc;
  quiet = v.quiet;
  fresh = λ e. cc;
}

-- Every call, refused or not, keeps the invariant.
pub step-Inv : (c : Call) (s : LiveSession) → Inv s → Inv (step c s).1
unfolding step
step-Inv marks_ready s v = ground arith
step-Inv accepts s v = accepts-Inv s v
step-Inv (writes n) s v = writes-Inv n s v
step-Inv (acks n) s v = acks-Inv n s v
step-Inv starts_finalize s v = ground arith
step-Inv observes_result s v = ground arith
step-Inv (finishes status) s v = ground arith
step-Inv closes s v = ground arith
step-Inv fails s v = ground arith

run-Inv : (s : LiveSession) (cs : List Call) → Inv s → Inv (run s cs)
unfolding run
run-Inv s [] v = v
run-Inv s (c ∷ cs) v = run-Inv (step c s).1 cs (step-Inv c s v)

-- Whatever calls are made of a new session, the invariant holds: at most 256 frames are pending,
-- every pending sequence has been assigned, provider writes are confirmed only for pending frames,
-- a finalizing session has none, and no result is on record before finalization begins.
pub run-new-Inv : (cs : List Call) → Inv (run new cs)
run-new-Inv cs = run-Inv new cs new-Inv
