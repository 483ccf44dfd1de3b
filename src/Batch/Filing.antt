-- ===== src/Batch/Filing.antt =====
-- How a startup report of application/batch_recovery.rs files the candidates, told from their states and
-- from the answers of the store.
use voicetext_gateway.Prelude.{
  ℕ, ◌≡◌, refl, ap, sym, ◌∙◌, Bool, true, false, List, [], ◌∷◌, ◌++◌, Option, Text, ok, inl, inr,
  Bool-cases, if◌then◌else◌,
}
use voicetext_gateway.Job.{BatchJobState}
use voicetext_gateway.Batch.Models.{BatchJobSnapshot, BatchJobUpdateOutcome}
use voicetext_gateway.Batch.Ports.{Effect, swaps}
use voicetext_gateway.Batch.Recover.{BatchStartupRecovery, empty_report, recovered_snapshot}

-- The candidates whose state passes a test, as they are filed.
abbrev pub chosen :
    (BatchJobState → Bool)
    → (BatchJobSnapshot → BatchJobSnapshot)
    → List BatchJobSnapshot
    → List BatchJobSnapshot
chosen p f [] = []
chosen p f (s ∷ ss) = if p s.job.state then f s ∷ chosen p f ss else chosen p f ss

abbrev pub is_waiting : BatchJobState → Bool
is_waiting BatchJobState.accepted = true
is_waiting (BatchJobState.retryable n f) = true
is_waiting _ = false

abbrev pub is_submitting : BatchJobState → Bool
is_submitting (BatchJobState.submitting n) = true
is_submitting _ = false

abbrev pub is_terminal : BatchJobState → Bool
is_terminal (BatchJobState.completed n) = true
is_terminal (BatchJobState.failed n f) = true
is_terminal (BatchJobState.outcome_unknown n f) = true
is_terminal _ = false

-- What the log tells of the replacements, the oldest first: the snapshots that were sent, those that the
-- store took and those it had instead, and the ids of those it did not have.
abbrev pub sent : List Effect → List BatchJobSnapshot
sent [] = []
sent (swaps n s r ∷ rest) = sent rest ++ s ∷ []
sent (_ ∷ rest) = sent rest

abbrev pub stored_in : List Effect → List BatchJobSnapshot
stored_in [] = []
stored_in (swaps n s (ok (BatchJobUpdateOutcome.stored t)) ∷ rest) = stored_in rest ++ t ∷ []
stored_in (_ ∷ rest) = stored_in rest

abbrev pub conflicts_in : List Effect → List BatchJobSnapshot
conflicts_in [] = []
conflicts_in (swaps n s (ok (BatchJobUpdateOutcome.revision_conflict t)) ∷ rest) =
    conflicts_in rest ++ t ∷ []
conflicts_in (_ ∷ rest) = conflicts_in rest

abbrev pub missing_in : List Effect → List Text
missing_in [] = []
missing_in (swaps n s (ok BatchJobUpdateOutcome.missing) ∷ rest) = missing_in rest ++ s.id ∷ []
missing_in (_ ∷ rest) = missing_in rest

-- The report files each candidate that was seen by its state, in order; the interrupted submissions are
-- those that were sent to the store, and are filed by its answers.
pub record Filed (seen : List BatchJobSnapshot) (r : BatchStartupRecovery) (log : List Effect)
    : Type 0 where
  pub waiting : r.actionable ≡ chosen is_waiting (λ s. s) seen
  pub terminal : r.invalid_candidates ≡ chosen is_terminal (λ s. s) seen
  pub submitting : sent log ≡ chosen is_submitting recovered_snapshot seen
  pub taken : r.recovered_unknown ≡ stored_in log
  pub refused : r.conflicts ≡ conflicts_in log
  pub absent : r.missing ≡ missing_in log

chosen_skip :
    (p : BatchJobState → Bool) (f : BatchJobSnapshot → BatchJobSnapshot) (s : BatchJobSnapshot)
    → p s.job.state ≡ false
    → (seen : List BatchJobSnapshot) → chosen p f (seen ++ s ∷ []) ≡ chosen p f seen
chosen_skip p f s h [] = rw h refl
chosen_skip p f s h (t ∷ ts) = rw (chosen_skip p f s h ts) refl

chosen_take :
    (p : BatchJobState → Bool) (f : BatchJobSnapshot → BatchJobSnapshot) (s : BatchJobSnapshot)
    → p s.job.state ≡ true
    → (seen : List BatchJobSnapshot) → chosen p f (seen ++ s ∷ []) ≡ chosen p f seen ++ f s ∷ []
chosen_take p f s h [] = rw h refl
chosen_take p f s h (t ∷ ts) = elim (Bool-cases (p t.job.state)) [
  | inl e ↦ rw (e, chosen_take p f s h ts) refl
  | inr e ↦ rw (e, chosen_take p f s h ts) refl
]

module _ (seen : List BatchJobSnapshot) (s : BatchJobSnapshot) (r : BatchStartupRecovery)
    (log : List Effect) (v : Filed seen r log) where
  pub waiting-Filed :
      is_waiting s.job.state ≡ true
      → is_terminal s.job.state ≡ false
      → is_submitting s.job.state ≡ false
      → Filed (seen ++ s ∷ []) (record r { actionable = r.actionable ++ s ∷ [] }) log
  waiting-Filed w t b = record {
    waiting = ap (λ x. x ++ s ∷ []) v.waiting ∙ sym (chosen_take is_waiting _ s w seen);
    terminal = v.terminal ∙ sym (chosen_skip is_terminal _ s t seen);
    submitting = v.submitting ∙ sym (chosen_skip is_submitting _ s b seen);
    taken = v.taken;
    refused = v.refused;
    absent = v.absent;
  }

  pub terminal-Filed :
      is_waiting s.job.state ≡ false
      → is_terminal s.job.state ≡ true
      → is_submitting s.job.state ≡ false
      → Filed
          (seen ++ s ∷ [])
          (record r { invalid_candidates = r.invalid_candidates ++ s ∷ [] })
          log
  terminal-Filed w t b = record {
    waiting = v.waiting ∙ sym (chosen_skip is_waiting _ s w seen);
    terminal = ap (λ x. x ++ s ∷ []) v.terminal ∙ sym (chosen_take is_terminal _ s t seen);
    submitting = v.submitting ∙ sym (chosen_skip is_submitting _ s b seen);
    taken = v.taken;
    refused = v.refused;
    absent = v.absent;
  }

  -- The parts of a report that a replacement does not fill.
  pub submitting_parts :
      (n : ℕ)
      → s.job.state ≡ BatchJobState.submitting n
      → (r.actionable ≡ chosen is_waiting (λ s. s) (seen ++ s ∷ []))
        × (r.invalid_candidates ≡ chosen is_terminal (λ s. s) (seen ++ s ∷ []))
        × (sent log ++ recovered_snapshot s ∷ []
            ≡ chosen is_submitting recovered_snapshot (seen ++ s ∷ []))
  submitting_parts n e = (
    v.waiting ∙ sym (chosen_skip is_waiting _ s (ap is_waiting e) seen),
    v.terminal ∙ sym (chosen_skip is_terminal _ s (ap is_terminal e) seen),
    ap (λ x. x ++ recovered_snapshot s ∷ []) v.submitting
        ∙ sym (chosen_take is_submitting recovered_snapshot s (ap is_submitting e) seen),
  )

pub empty-Filed : (cursor : Option Text) → Filed [] (empty_report cursor) []
empty-Filed cursor = record {
  waiting = refl;
  terminal = refl;
  submitting = refl;
  taken = refl;
  refused = refl;
  absent = refl;
}
