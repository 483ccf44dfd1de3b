-- ===== src/Batch/Fence.antt =====
-- When `execute` of application/batch.rs calls the provider, seen in the calls that it makes of its
-- ports.
use voicetext_gateway.Prelude.{
  ℕ, suc, ◌≤◌, ◌≡◌, refl, Bool, List, [], ◌∷◌, Option, none, some, Text, pure, arith, ap, Result,
  ok, err, inl, inr, Bool-cases,
}
use voicetext_gateway.Job.{BatchJobState, is_terminal, begin_submission}
use voicetext_gateway.Batch.Models.{
  BatchRecognitionResult, BatchJobSnapshot, BatchJobUpdateOutcome, BatchJobStoreFailure,
}
use voicetext_gateway.Batch.Ports.{
  BatchCoordinator, BatchCoordinatorFailure, admission_conflict, admission_store_uncertain,
  admission_cleanup, transition, post_egress_store, post_egress_conflict, Effect, loads, swaps,
  reads_audio, recognizes, traced,
}
use voicetext_gateway.Batch.Logs.{Logs, call_or, call_then, result_or, in_turn}
use voicetext_gateway.Batch.Outcome.{apply_recognition_outcome}
use voicetext_gateway.Batch.Execute.{
  BatchExecutionOutcome, persisted, not_claimed, not_actionable, BatchExecutionReport,
  claim_snapshot, claim_outcome, is_actionable, request, Claim, claimed, unclaimed, claim_with,
  swap_claim, claim_loaded, claim_found, claim, clean_up, stored_outcome, take_answer, store_answer,
  submit, submit_claim, execute_with_cleanup_report,
}

-- The calls of the provider in a log.
abbrev pub submissions : List Effect → ℕ
submissions [] = 0
submissions (recognizes q r ∷ rest) = suc (submissions rest)
submissions (_ ∷ rest) = submissions rest

abbrev pub IsSubmitting : BatchJobState → Type 0
IsSubmitting (BatchJobState.submitting n) = Unit {0}
IsSubmitting _ = ⊥

-- The latest call of a log stored a snapshot that claims a submission.
abbrev pub ClaimStored : List Effect → Type 0
ClaimStored (swaps revision s (ok (BatchJobUpdateOutcome.stored t)) ∷ rest) =
    IsSubmitting s.job.state
ClaimStored _ = ⊥

-- Each call of the provider directly follows a stored claim.
abbrev pub Fenced : List Effect → Type 0
Fenced [] = Unit {0}
Fenced (recognizes q r ∷ rest) = ClaimStored rest × Fenced rest
Fenced (_ ∷ rest) = Fenced rest

-- What an outcome of `execute` says of the submissions made.
abbrev pub Told : BatchExecutionOutcome → ℕ → Type 0
Told (persisted s) n = n ≡ 1
Told (not_claimed s) n = n ≡ 0
Told (not_actionable s) n = n ≡ 0

abbrev pub NotPersisted : BatchExecutionOutcome → Type 0
NotPersisted (persisted s) = ⊥
NotPersisted _ = Unit {0}

-- The failures of a store or of the spool come before any submission, those after egress follow one.
-- A refused transition may come before or after.
abbrev pub ToldFailure : BatchCoordinatorFailure → ℕ → Type 0
ToldFailure (post_egress_store f) n = n ≡ 1
ToldFailure post_egress_conflict n = n ≡ 1
ToldFailure (transition e) n = n ≤ 1
ToldFailure _ n = n ≡ 0

abbrev pub BeforeEgress : BatchCoordinatorFailure → Type 0
BeforeEgress (post_egress_store f) = ⊥
BeforeEgress post_egress_conflict = ⊥
BeforeEgress _ = Unit {0}

-- A result of the claim, with the log that it leaves.
abbrev ClaimLog : Result BatchCoordinatorFailure Claim → List Effect → Type 0
ClaimLog (ok (claimed s audio)) log = ClaimStored log × (submissions log ≡ 0) × Fenced log
ClaimLog (ok (unclaimed o)) log = (submissions log ≡ 0) × Fenced log × NotPersisted o
ClaimLog (err e) log = (submissions log ≡ 0) × Fenced log × BeforeEgress e

-- How many submissions each result tells of.
abbrev pub EgressLog : Result BatchCoordinatorFailure BatchExecutionReport → List Effect → Type 0
EgressLog (ok r) log = Fenced log × Told r.outcome (submissions log)
EgressLog (err e) log = Fenced log × ToldFailure e (submissions log)

claim_snapshot-IsSubmitting :
    (s : BatchJobSnapshot) (t : BatchJobSnapshot)
    → claim_snapshot s (begin_submission s.job) ≡ ok t
    → IsSubmitting t.job.state
unfolding begin_submission
claim_snapshot-IsSubmitting s t h = ground arith

claim_outcome_log :
    (audio : List ℕ) (n : ℕ) (s : BatchJobSnapshot) (log : List Effect) (u : BatchJobUpdateOutcome)
    → submissions log ≡ 0
    → Fenced log
    → IsSubmitting s.job.state
    → ClaimLog (ok (claim_outcome audio u)) (swaps n s (ok u) ∷ log)
claim_outcome_log audio n s log (BatchJobUpdateOutcome.stored t) h f i = (i, h, f)
claim_outcome_log audio n s log (BatchJobUpdateOutcome.revision_conflict t) h f i = (h, f, tt)
claim_outcome_log audio n s log BatchJobUpdateOutcome.missing h f i = (h, f, tt)

failed_log :
    (e : BatchCoordinatorFailure) (log : List Effect) → ClaimLog (err e) log → EgressLog (err e) log
failed_log (admission_conflict s) log h = (h.1, h.0)
failed_log (BatchCoordinatorFailure.spool x) log h = (h.1, h.0)
failed_log (BatchCoordinatorFailure.store x) log h = (h.1, h.0)
failed_log (admission_store_uncertain x y) log h = (h.1, h.0)
failed_log (admission_cleanup x y) log h = (h.1, h.0)
failed_log (transition x) log h = (h.1, omega (arith, h.0))
failed_log (post_egress_store x) log h = absurd h.2
failed_log post_egress_conflict log h = absurd h.2

module _ {W : Type 0} (c : BatchCoordinator W) where
  claim_loaded_log :
      (s : BatchJobSnapshot) (log : List Effect)
      → submissions log ≡ 0
      → Fenced log
      → Logs (claim_loaded (traced c) s) log ClaimLog
  unfolding claim_loaded traced
  claim_loaded_log s log h f =
      call_or ClaimLog log BatchCoordinatorFailure.spool (reads_audio s.audio)
        (c.spool.read s.audio) (claim_with (traced c) s) with_audio (λ x. (h, f, tt))
    where
      swapped :
          (audio : List ℕ) (t : BatchJobSnapshot)
          → IsSubmitting t.job.state
          → Logs (swap_claim (traced c) s audio t) (reads_audio s.audio (ok audio) ∷ log) ClaimLog
      swapped audio t i =
          call_or ClaimLog (reads_audio s.audio (ok audio) ∷ log) BatchCoordinatorFailure.store
            (swaps s.revision t) (c.jobs.compare_and_swap s.revision t)
            (λ u. pure (claim_outcome audio u))
            (λ u w.
              claim_outcome_log audio s.revision t (reads_audio s.audio (ok audio) ∷ log) u h f i)
            (λ x. (h, f, tt))

      with_audio :
          (audio : List ℕ)
          → Logs (claim_with (traced c) s audio) (reads_audio s.audio (ok audio) ∷ log) ClaimLog
      with_audio audio =
          result_or ClaimLog (reads_audio s.audio (ok audio) ∷ log) transition
            (claim_snapshot s (begin_submission s.job)) (swap_claim (traced c) s audio)
            (λ t e. swapped audio t (claim_snapshot-IsSubmitting s t e)) (λ x e. (h, f, tt))

  found_log :
      (id : Text) (o : Option BatchJobSnapshot)
      → Logs (claim_found (traced c) o) (loads id (ok o) ∷ []) ClaimLog
  unfolding claim_found
  found_log id none w = (refl, tt, tt)
  found_log id (some s) w = elim (Bool-cases (is_actionable s.job.state)) [
    | inl e ↦ rw e (claim_loaded_log s (loads id (ok (some s)) ∷ []) refl tt w)
    | inr e ↦ rw e (refl, tt, tt)
  ]

  claim_log : (id : Text) → Logs (claim (traced c) id) [] ClaimLog
  unfolding claim traced
  claim_log id =
      call_or ClaimLog [] BatchCoordinatorFailure.store (loads id) (c.jobs.load id)
        (claim_found (traced c)) (found_log id) (λ x. (refl, tt, tt))

  stored_log :
      (r : Result BatchJobStoreFailure BatchJobUpdateOutcome) (log : List Effect)
      → submissions log ≡ 1
      → Fenced log
      → Logs (stored_outcome (traced c) r) log EgressLog
  unfolding stored_outcome clean_up traced
  stored_log (ok (BatchJobUpdateOutcome.stored s)) log h f w =
      elim (Bool-cases (is_terminal s.job.state)) [ inl e ↦ rw e (f, h) | inr e ↦ rw e (f, h) ]
  stored_log (ok (BatchJobUpdateOutcome.revision_conflict s)) log h f w = (f, h)
  stored_log (ok BatchJobUpdateOutcome.missing) log h f w = (f, h)
  stored_log (err x) log h f w = (f, h)

  -- The log of a submission that a stored claim precedes.
  submit_log :
      (projectable : Text → BatchRecognitionResult → Bool) (s : BatchJobSnapshot) (audio : List ℕ)
      (log : List Effect)
      → ClaimStored log
      → submissions log ≡ 0
      → Fenced log
      → Logs (submit (traced c) projectable s audio) log EgressLog
  unfolding submit take_answer store_answer traced
  submit_log projectable s audio log st h f =
      call_then EgressLog log (recognizes (request s audio))
        (c.recognizer.recognize (request s audio)) (take_answer (traced c) projectable s)
        λ answer.
          let sent : List Effect = recognizes (request s audio) answer ∷ log in
          result_or EgressLog sent transition (apply_recognition_outcome projectable s answer)
            (store_answer (traced c) s)
            (λ t e.
              call_then EgressLog sent (swaps s.revision t) (c.jobs.compare_and_swap s.revision t)
                (stored_outcome (traced c))
                (λ r. stored_log r (swaps s.revision t r ∷ sent) (ap suc h) (st, f)))
            (λ x e. ((st, f), omega (arith, h)))

  claimed_log :
      (projectable : Text → BatchRecognitionResult → Bool) (k : Claim) (log : List Effect)
      → ClaimLog (ok k) log
      → Logs (submit_claim (traced c) projectable k) log EgressLog
  unfolding submit_claim
  claimed_log projectable (claimed s audio) log h = submit_log projectable s audio log h.0 h.1 h.2
  claimed_log projectable (unclaimed (persisted s)) log h = absurd h.2
  claimed_log projectable (unclaimed (not_claimed s)) log h = λ w. (h.1, h.0)
  claimed_log projectable (unclaimed (not_actionable s)) log h = λ w. (h.1, h.0)

  -- One execution of a job calls the provider at most once, and directly after the store took a
  -- snapshot that claims the submission; an outcome that is persisted tells of one call, any other
  -- outcome of none; a failure of the store or of the spool tells of none, and a post-egress failure
  -- of one.
  pub execute_fenced :
      (projectable : Text → BatchRecognitionResult → Bool) (id : Text)
      → Logs (execute_with_cleanup_report (traced c) projectable id) [] EgressLog
  unfolding execute_with_cleanup_report
  execute_fenced projectable id =
      in_turn EgressLog [] ClaimLog (claim (traced c) id) (submit_claim (traced c) projectable)
        (claim_log id) (claimed_log projectable) failed_log
