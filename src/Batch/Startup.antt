-- ===== src/Batch/Startup.antt =====
-- What startup reconciliation of application/batch_recovery.rs reports and does, seen in the calls
-- that it makes of its ports.
use voicetext_gateway.Prelude.{
  ℕ, zero, suc, ◌≤◌, ◌+◌, ◌≡◌, refl, ap, sym, ◌∙◌, true, false, List, [], ◌∷◌, ◌++◌, Option, none,
  Text, pure, arith, Result, ok, err, inl, inr, Bool-cases, length, length-append, length-take, All,
  All-append, take, last?, leb, min, if◌then◌else◌,
}
use mathlib.Core.Option
use mathlib.Core.Path.{subst}
use mathlib.Core.List.{append-nil, append_assoc}
use voicetext_gateway.Job.{BatchJobState, interrupted_submission, recover_interrupted_submission}
use voicetext_gateway.Batch.Models.{BatchJobSnapshot, BatchJobUpdateOutcome}
use voicetext_gateway.Batch.Ports.{
  BatchCoordinator, BatchCoordinatorFailure, Effect, swaps, removes_audio, recognizes, traced,
}
use voicetext_gateway.Batch.Logs.{Logs, call_or, in_turn}
use voicetext_gateway.Batch.Execute.{is_actionable}
use voicetext_gateway.Batch.Recover.{
  BatchStartupRecovery, empty_report, recovered_snapshot, recovery_batch_limit, swapped_candidate,
  reconcile_state, reconcile_each, reconcile_candidates,
}
use voicetext_gateway.Batch.Filing.{
  is_waiting, is_submitting, is_terminal, Filed, waiting-Filed, terminal-Filed, submitting_parts,
  empty-Filed,
}

abbrev pub IsInterrupted : BatchJobState → Type 0
IsInterrupted (BatchJobState.outcome_unknown n interrupted_submission) = Unit {0}
IsInterrupted _ = ⊥

-- The latest call stored a snapshot with that audio, in exchange for an interrupted one.
abbrev pub JustStored : Text → List Effect → Type 0
JustStored h (swaps n s (ok (BatchJobUpdateOutcome.stored t)) ∷ rest) = t.audio ≡ h
JustStored h _ = ⊥

-- The provider is never called; each replacement is an interrupted submission; and audio is removed
-- only for a snapshot that was stored just before.
abbrev pub Reconciled : List Effect → Type 0
Reconciled [] = Unit {0}
Reconciled (recognizes q r ∷ rest) = ⊥
Reconciled (swaps n s r ∷ rest) = IsInterrupted s.job.state × Reconciled rest
Reconciled (removes_audio h r ∷ rest) = JustStored h rest × Reconciled rest
Reconciled (_ ∷ rest) = Reconciled rest

-- The candidates that a report accounts for.
abbrev pub reported : BatchStartupRecovery → ℕ
reported r =
    length r.actionable
    + length r.recovered_unknown
    + length r.conflicts
    + length r.missing
    + length r.invalid_candidates

abbrev pub AllActionable : List BatchJobSnapshot → Type 0
AllActionable = All (λ s. is_actionable s.job.state ≡ true)

-- A report after `n` candidates, those seen.
abbrev pub Reports :
    List BatchJobSnapshot
    → ℕ
    → Option Text
    → Result BatchCoordinatorFailure BatchStartupRecovery
    → List Effect
    → Type 0
Reports seen n cursor (ok r) log =
    Reconciled log
    × Filed seen r log
    × (reported r ≡ n)
    × AllActionable r.actionable
    × (r.next_cursor ≡ cursor)
Reports seen n cursor (err e) log = Reconciled log

-- The cursor to go on from.
abbrev pub page_cursor : List BatchJobSnapshot → Option Text
page_cursor candidates =
    if leb recovery_batch_limit (length candidates)
    then Option.map (λ s. s.id) (last? (take recovery_batch_limit candidates))
    else none

take_whole : (n : ℕ) (ss : List BatchJobSnapshot) → length ss ≤ n → take n ss ≡ ss
take_whole zero [] h = refl
take_whole zero (s ∷ ss) h = absurd (omega arith)
take_whole (suc n) [] h = refl
take_whole (suc n) (s ∷ ss) h = ap (λ x. s ∷ x) (take_whole n ss (omega arith))

recovered-IsInterrupted :
    (s : BatchJobSnapshot) (n : ℕ)
    → s.job.state ≡ BatchJobState.submitting n
    → IsInterrupted (recovered_snapshot s).job.state
unfolding recover_interrupted_submission
recovered-IsInterrupted s n h = ground arith

module _ {W : Type 0} (c : BatchCoordinator W) where
  swapped_log :
      (seen : List BatchJobSnapshot) (k n : ℕ) (s : BatchJobSnapshot) (u : BatchJobUpdateOutcome)
      (r : BatchStartupRecovery) (log : List Effect)
      → s.job.state ≡ BatchJobState.submitting n
      → Reconciled log
      → Filed seen r log
      → AllActionable r.actionable
      → Logs
          (swapped_candidate (traced c) s.id u r)
          (swaps k (recovered_snapshot s) (ok u) ∷ log)
          (Reports (seen ++ s ∷ []) (suc (reported r)) r.next_cursor)
  unfolding swapped_candidate traced
  swapped_log seen k n s (BatchJobUpdateOutcome.stored t) r log e v f a =
      let i = recovered-IsInterrupted s n e in
      let (w, x, b) = submitting_parts seen s r log f n e in
      call_or (Reports (seen ++ s ∷ []) (suc (reported r)) r.next_cursor) _
        BatchCoordinatorFailure.spool (removes_audio t.audio) (c.spool.remove t.audio)
        (λ _. pure (record r { recovered_unknown = r.recovered_unknown ++ t ∷ [] }))
        (λ y w'. (
          (refl, (i, v)),
          record {
            waiting = w;
            terminal = x;
            submitting = b;
            taken = ap (λ z. z ++ t ∷ []) f.taken;
            refused = f.refused;
            absent = f.absent;
          },
          omega (arith, length-append r.recovered_unknown (t ∷ [])),
          a,
          refl,
        ))
        (λ y. (refl, (i, v)))
  swapped_log seen k n s (BatchJobUpdateOutcome.revision_conflict t) r log e v f a =
      let (w, x, b) = submitting_parts seen s r log f n e in
      λ w'. (
        (recovered-IsInterrupted s n e, v),
        record {
          waiting = w;
          terminal = x;
          submitting = b;
          taken = f.taken;
          refused = ap (λ z. z ++ t ∷ []) f.refused;
          absent = f.absent;
        },
        omega (arith, length-append r.conflicts (t ∷ [])),
        a,
        refl,
      )
  swapped_log seen k n s BatchJobUpdateOutcome.missing r log e v f a =
      let (w, x, b) = submitting_parts seen s r log f n e in
      λ w'. (
        (recovered-IsInterrupted s n e, v),
        record {
          waiting = w;
          terminal = x;
          submitting = b;
          taken = f.taken;
          refused = f.refused;
          absent = ap (λ z. z ++ s.id ∷ []) f.absent;
        },
        omega (arith, length-append r.missing (s.id ∷ [])),
        a,
        refl,
      )

  waiting_log :
      (seen : List BatchJobSnapshot) (s : BatchJobSnapshot) (r : BatchStartupRecovery)
      (log : List Effect)
      → is_waiting s.job.state ≡ true
      → is_terminal s.job.state ≡ false
      → is_submitting s.job.state ≡ false
      → is_actionable s.job.state ≡ true
      → Reconciled log
      → Filed seen r log
      → AllActionable r.actionable
      → Reports
          (seen ++ s ∷ [])
          (suc (reported r))
          r.next_cursor
          (ok (record r { actionable = r.actionable ++ s ∷ [] }))
          log
  waiting_log seen s r log w t b act v f a = (
    v,
    waiting-Filed seen s r log f w t b,
    omega (arith, length-append r.actionable (s ∷ [])),
    All-append _ r.actionable (s ∷ []) a (act, tt),
    refl,
  )

  terminal_log :
      (seen : List BatchJobSnapshot) (s : BatchJobSnapshot) (r : BatchStartupRecovery)
      (log : List Effect)
      → is_waiting s.job.state ≡ false
      → is_terminal s.job.state ≡ true
      → is_submitting s.job.state ≡ false
      → Reconciled log
      → Filed seen r log
      → AllActionable r.actionable
      → Reports
          (seen ++ s ∷ [])
          (suc (reported r))
          r.next_cursor
          (ok (record r { invalid_candidates = r.invalid_candidates ++ s ∷ [] }))
          log
  terminal_log seen s r log w t b v f a = (
    v,
    terminal-Filed seen s r log f w t b,
    omega (arith, length-append r.invalid_candidates (s ∷ [])),
    a,
    refl,
  )

  state_log :
      (seen : List BatchJobSnapshot) (s : BatchJobSnapshot) (state : BatchJobState)
      (r : BatchStartupRecovery) (log : List Effect)
      → s.job.state ≡ state
      → Reconciled log
      → Filed seen r log
      → AllActionable r.actionable
      → Logs
          (reconcile_state (traced c) state s r)
          log
          (Reports (seen ++ s ∷ []) (suc (reported r)) r.next_cursor)
  unfolding reconcile_state traced
  state_log seen s BatchJobState.accepted r log e v f a = λ w.
      waiting_log seen s r log (ap is_waiting e) (ap is_terminal e) (ap is_submitting e)
        (ap is_actionable e) v f a
  state_log seen s (BatchJobState.retryable n x) r log e v f a = λ w.
      waiting_log seen s r log (ap is_waiting e) (ap is_terminal e) (ap is_submitting e)
        (ap is_actionable e) v f a
  state_log seen s (BatchJobState.submitting n) r log e v f a =
      call_or (Reports (seen ++ s ∷ []) (suc (reported r)) r.next_cursor) log
        BatchCoordinatorFailure.store (swaps s.revision (recovered_snapshot s))
        (c.jobs.compare_and_swap s.revision (recovered_snapshot s))
        (λ u. swapped_candidate (traced c) s.id u r)
        (λ u. swapped_log seen s.revision n s u r log e v f a)
        (λ x. (recovered-IsInterrupted s n e, v))
  state_log seen s (BatchJobState.completed n) r log e v f a =
      λ w. terminal_log seen s r log (ap is_waiting e) (ap is_terminal e) (ap is_submitting e) v f a
  state_log seen s (BatchJobState.failed n x) r log e v f a =
      λ w. terminal_log seen s r log (ap is_waiting e) (ap is_terminal e) (ap is_submitting e) v f a
  state_log seen s (BatchJobState.outcome_unknown n x) r log e v f a =
      λ w. terminal_log seen s r log (ap is_waiting e) (ap is_terminal e) (ap is_submitting e) v f a

  each_log :
      (page seen ss : List BatchJobSnapshot) (r : BatchStartupRecovery) (n : ℕ)
      (cursor : Option Text) (log : List Effect)
      → seen ++ ss ≡ page
      → Reconciled log
      → Filed seen r log
      → AllActionable r.actionable
      → reported r + length ss ≡ n
      → r.next_cursor ≡ cursor
      → Logs (reconcile_each (traced c) ss r) log (Reports page n cursor)
  unfolding reconcile_each
  each_log page seen [] r n cursor log o v f a e k =
      λ w. (v, subst (λ x. Filed x r log) (sym (append-nil seen) ∙ o) f, omega (arith, e), a, k)
  each_log page seen (s ∷ rest) r n cursor log o v f a e k =
      in_turn (Reports page n cursor) log
        (Reports (seen ++ s ∷ []) (suc (reported r)) r.next_cursor)
        (reconcile_state (traced c) s.job.state s r) (reconcile_each (traced c) rest)
        (state_log seen s s.job.state r log refl v f a)
        (λ q l h.
          each_log page (seen ++ s ∷ []) rest q n cursor l (append_assoc seen (s ∷ []) rest ∙ o) h.0
            h.1 h.3 (omega (arith, h.2, e)) (h.4 ∙ k))
        (λ x l h. h)

  -- Reconciliation of a page, the first 100 candidates, never calls the provider, replaces a snapshot
  -- only by an interrupted submission whose outcome is unknown, and removes audio only for a snapshot
  -- that was stored just before. If it reports, then the actionable jobs are the accepted and retryable
  -- candidates, the invalid ones are the terminal candidates, and for exactly the candidates in
  -- submission a replacement was sent, in order, and filed by the store's answer: what it stored, what it
  -- had instead, or the id that it did not have. The report so accounts for each candidate once, and it
  -- gives a cursor, the identity of the last of them, exactly if there are 100 or more.
  pub reconcile_page :
      (candidates : List BatchJobSnapshot)
      → Logs (reconcile_candidates (traced c) candidates) [] (
          Reports
            (take recovery_batch_limit candidates)
            (min recovery_batch_limit (length candidates))
            (page_cursor candidates))
  unfolding reconcile_candidates
  reconcile_page candidates w = elim (Bool-cases (leb recovery_batch_limit (length candidates))) [
    | inl e ↦ rw e (
        each_log (take recovery_batch_limit candidates) [] (take recovery_batch_limit candidates) _
          _ _ [] refl tt (empty-Filed _) tt
          (omega (arith, length-take recovery_batch_limit candidates)) refl w)
    | inr e ↦ rw e (
        each_log (take recovery_batch_limit candidates) [] candidates (empty_report none) _ none []
          (sym (take_whole recovery_batch_limit candidates (ground arith))) tt (empty-Filed none) tt
          (ground arith) refl w)
  ]
