-- ===== src/Batch/Recover.antt =====
-- crates/voicetext-speech/src/application/batch_recovery.rs: one page of startup reconciliation.
use voicetext_gateway.Prelude.{
  ℕ, List, [], ◌∷◌, ◌++◌, Option, none, Text, Method, pure, map_err, ◌>>=◌, leb, if◌then◌else◌,
  length, take, last?,
}
use mathlib.Core.Option
use voicetext_gateway.Job.{BatchJobState, recover_interrupted_submission}
use voicetext_gateway.Batch.Models.{BatchJobSnapshot, BatchJobUpdateOutcome}
use voicetext_gateway.Batch.Ports.{BatchCoordinator, BatchCoordinatorFailure}

abbrev pub recovery_batch_limit : ℕ
recovery_batch_limit = 100

pub record BatchStartupRecovery : Type 0 where
  pub actionable : List BatchJobSnapshot
  pub recovered_unknown : List BatchJobSnapshot
  pub conflicts : List BatchJobSnapshot
  pub missing : List Text
  pub invalid_candidates : List BatchJobSnapshot
  pub next_cursor : Option Text

abbrev pub empty_report : Option Text → BatchStartupRecovery
empty_report cursor = record {
  actionable = [];
  recovered_unknown = [];
  conflicts = [];
  missing = [];
  invalid_candidates = [];
  next_cursor = cursor;
}

abbrev pub recovered_snapshot : BatchJobSnapshot → BatchJobSnapshot
recovered_snapshot s = record s { job = (recover_interrupted_submission s.job).1 }

module _ {W : Type 0} (c : BatchCoordinator W) where
  open c use {jobs, spool}

  abbrev Batch : Type 0 → Type 0
  Batch A = Method W BatchCoordinatorFailure A

  unfoldable pub swapped_candidate :
      Text → BatchJobUpdateOutcome → BatchStartupRecovery → Batch BatchStartupRecovery
  swapped_candidate id (BatchJobUpdateOutcome.stored s) r =
      map_err BatchCoordinatorFailure.spool (spool.remove s.audio) >>= λ _.
      pure (record r { recovered_unknown = r.recovered_unknown ++ s ∷ [] })
  swapped_candidate id (BatchJobUpdateOutcome.revision_conflict s) r =
      pure (record r { conflicts = r.conflicts ++ s ∷ [] })
  swapped_candidate id BatchJobUpdateOutcome.missing r =
      pure (record r { missing = r.missing ++ id ∷ [] })

  -- The `match snapshot.job.state()` of the loop.
  unfoldable pub reconcile_state :
      BatchJobState → BatchJobSnapshot → BatchStartupRecovery → Batch BatchStartupRecovery
  unfolding swapped_candidate
  reconcile_state BatchJobState.accepted s r =
      pure (record r { actionable = r.actionable ++ s ∷ [] })
  reconcile_state (BatchJobState.retryable n f) s r =
      pure (record r { actionable = r.actionable ++ s ∷ [] })
  reconcile_state (BatchJobState.submitting n) s r = do
    swapped ←
        map_err BatchCoordinatorFailure.store
          (jobs.compare_and_swap s.revision (recovered_snapshot s))
    swapped_candidate s.id swapped r
  reconcile_state _ s r = pure (record r { invalid_candidates = r.invalid_candidates ++ s ∷ [] })

  unfoldable pub reconcile_each :
      List BatchJobSnapshot → BatchStartupRecovery → Batch BatchStartupRecovery
  unfolding reconcile_state
  reconcile_each [] r = pure r
  reconcile_each (s ∷ rest) r = do r' ← reconcile_state s.job.state s r; reconcile_each rest r'

  unfoldable pub reconcile_candidates : List BatchJobSnapshot → Batch BatchStartupRecovery
  unfolding reconcile_each
  reconcile_candidates candidates =
      if leb recovery_batch_limit (length candidates)
      then (let page = take recovery_batch_limit candidates in
          reconcile_each page (empty_report (Option.map (λ s. s.id) (last? page))))
      else reconcile_each candidates (empty_report none)

  unfoldable pub recover_startup : Option Text → Batch BatchStartupRecovery
  unfolding reconcile_candidates
  recover_startup after = do
    candidates ←
        map_err BatchCoordinatorFailure.store
          (jobs.list_recovery_candidates after recovery_batch_limit)
    reconcile_candidates candidates

  unfoldable pub recover_startup_through : Option Text → Text → Batch BatchStartupRecovery
  unfolding reconcile_candidates
  recover_startup_through after through = do
    candidates ←
        map_err BatchCoordinatorFailure.store
          (jobs.list_recovery_candidates_through after through recovery_batch_limit)
    reconcile_candidates candidates
