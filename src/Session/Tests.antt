-- ===== src/Session/Tests.antt =====
-- Concrete histories of live sessions.
use voicetext_gateway.Prelude.{
  ◌≡◌, ◌≤◌, ◌+◌, refl, true, List, [], ◌∷◌, leb, contains, insert, remove, IsErr, arith,
}
use voicetext_gateway.Session.{
  LiveSession, flushed, FinalizeOutcome, Call, marks_ready, accepts, writes, acks, starts_finalize,
  observes_result, closes, fails, new, step, run,
}
use voicetext_gateway.Session.Trace.{
  ack_once, result_seen, weigh, assigns_of, acks_of, writes_of, any_result, bit,
}
use voicetext_gateway.Session.Lifecycle.{terminal_absorbs, finalize-Truthful, Truthful}

-- One frame written and acknowledged, a second ACK refused, and a result while finalizing.
abbrev calls : List Call
calls = marks_ready ∷ accepts ∷ writes 1 ∷ acks 1 ∷ acks 1 ∷ starts_finalize ∷ observes_result ∷ []

abbrev flushed_outcome : FinalizeOutcome
flushed_outcome = record { status = flushed; saw_result = true }

abbrev broken : LiveSession
broken = (step fails new).1

ack_once_example :
    (weigh (assigns_of 1) new calls ≡ bit (leb 1 (run new calls).last_sequence))
    × (weigh (acks_of 1) new calls ≤ weigh (writes_of 1) new calls)
    × (weigh (writes_of 1) new calls ≤ weigh (assigns_of 1) new calls)
    × (weigh (acks_of 1) new calls + bit (contains 1 (run new calls).pending_audio)
        ≡ weigh (assigns_of 1) new calls)
ack_once_example = ack_once 1 calls (omega arith)

result_seen_example : leb 1 (weigh any_result new calls) ≡ (run new calls).finalize_result_observed
result_seen_example = result_seen calls

finalize-Truthful_example :
    (flushed ≡ flushed)
    × (true ≡ leb 1 (weigh any_result new calls))
    × Truthful flushed calls
    × ((run new calls).pending_audio ≡ [])
unfolding new step run contains insert remove
finalize-Truthful_example = finalize-Truthful flushed calls flushed_outcome refl

terminal_absorbs_example :
    (run broken (closes ∷ []) ≡ broken) × IsErr (step accepts (run broken (closes ∷ []))).0
unfolding new step
terminal_absorbs_example = terminal_absorbs broken (closes ∷ []) accepts refl
