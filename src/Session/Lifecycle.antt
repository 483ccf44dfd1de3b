-- ===== src/Session/Lifecycle.antt =====
-- The order in which a session of domain/live.rs passes through its phases, and what its finalize
-- outcome says.
use voicetext_gateway.Prelude.{
  ◌≡◌, refl, true, false, List, [], ◌∷◌, arith, ok, err, IsErr, leb, ◌<◌,
}
use voicetext_gateway.Session.{
  LiveSession, LiveSessionPhase, LiveSessionError, awaiting_ready, streaming, finalizing, finalized,
  closed, failed, is_terminal, flushed, no_provider, timeout, FinalizeStatus, FinalizeOutcome, Call,
  marks_ready, finishes, Reply, outcome, new, step, run,
}
use voicetext_gateway.Session.Invariant.{run-new-Inv}
use voicetext_gateway.Session.Trace.{weigh, any_result, any_assign, result_seen, ack_balance}

-- A refused call leaves the session exactly as it was.
pub step_refused_unchanged :
    (c : Call) (s : LiveSession) {e : LiveSessionError} → (step c s).0 ≡ err e → (step c s).1 ≡ s
unfolding step
step_refused_unchanged marks_ready s h = ground arith
step_refused_unchanged _ s h = ground arith

-- The phase diagram.
infix 40 ◌⟶◌
pub data ◌⟶◌ : LiveSessionPhase → LiveSessionPhase → Type 0 where
  become_ready : awaiting_ready ⟶ streaming
  stream : streaming ⟶ streaming
  drain : streaming ⟶ finalizing
  observe : finalizing ⟶ finalizing
  complete : finalizing ⟶ finalized
  shut : {p : LiveSessionPhase} → is_terminal p ≡ false → p ⟶ closed
  break : {p : LiveSessionPhase} → is_terminal p ≡ false → p ⟶ failed

ruleset edges = (become_ready, stream, drain, observe, complete, shut, break)

-- A call that succeeds follows an edge of the phase diagram.
pub step-⟶ :
    (c : Call) (s : LiveSession) {r : Reply} → (step c s).0 ≡ ok r → s.phase ⟶ (step c s).1.phase
unfolding step
step-⟶ marks_ready s h = grind (arith, edges)
step-⟶ _ s h = grind (arith, edges)

-- A closed or failed session refuses every call, and no history changes it.
terminal_refuses :
    (c : Call) (s : LiveSession)
    → is_terminal s.phase ≡ true
    → IsErr (step c s).0 × ((step c s).1 ≡ s)
unfolding step
terminal_refuses marks_ready s h = ground arith
terminal_refuses _ s h = ground arith

run_terminal : (s : LiveSession) (cs : List Call) → is_terminal s.phase ≡ true → run s cs ≡ s
unfolding run
run_terminal s [] h = refl
run_terminal s (c ∷ cs) h = rw (terminal_refuses c s h).1 (run_terminal s cs h)

-- Once a session is closed or failed, any history leaves it unchanged, and a call after that history
-- is refused: neither terminal phase overwrites the other.
pub terminal_absorbs :
    (s : LiveSession) (cs : List Call) (c : Call)
    → is_terminal s.phase ≡ true
    → (run s cs ≡ s) × IsErr (step c (run s cs)).0
terminal_absorbs s cs c h =
    (run_terminal s cs h, rw (run_terminal s cs h) (terminal_refuses c s h).0)

-- What the evidence of a history says of a finalize status.
abbrev pub Truthful : FinalizeStatus → List Call → Type 0
Truthful flushed cs = 0 < weigh any_result new cs
Truthful no_provider cs = (weigh any_assign new cs ≡ 0) × (weigh any_result new cs ≡ 0)
Truthful timeout cs = Unit {0}

-- If a session finalizes after some history, the outcome bears the requested status and tells
-- whether a result was observed in that history; it is `flushed` only if one was, and `no_provider`
-- only if none was and no frame was ever accepted; and no frame awaits its ACK.
pub finalize-Truthful :
    (status : FinalizeStatus) (cs : List Call) (o : FinalizeOutcome)
    → (step (finishes status) (run new cs)).0 ≡ ok (outcome o)
    → (o.status ≡ status)
      × (o.saw_result ≡ leb 1 (weigh any_result new cs))
      × Truthful status cs
      × ((run new cs).pending_audio ≡ [])
unfolding step
finalize-Truthful flushed cs o h = ground (arith, result_seen cs, (run-new-Inv cs).drained)
finalize-Truthful no_provider cs o h =
    ground (
      arith,
      result_seen cs,
      (ack_balance cs).1,
      (run-new-Inv cs).drained,
      (run-new-Inv cs).accepted,
    )
finalize-Truthful timeout cs o h = ground (arith, result_seen cs, (run-new-Inv cs).drained)
