-- ===== src/Job/Lifecycle.antt =====
-- The states that a batch job of domain/batch.rs passes through.
use voicetext_gateway.Prelude.{◌≡◌, refl, ap, true, false, List, [], ◌∷◌, arith}
use voicetext_gateway.Job.{BatchJob, BatchJobStatus, status, is_terminal, Call, begins, step, run}

-- A refused call leaves the job as it was.
pub job_refused_unchanged :
    (c : Call) (job : BatchJob) → (step c job).0 ≡ false → (step c job).1 ≡ job
unfolding step
job_refused_unchanged begins job h = ground arith
job_refused_unchanged _ job h = ground arith

step_identity :
    (c : Call) (job : BatchJob)
    → ((step c job).1.profile ≡ job.profile) × ((step c job).1.fingerprint ≡ job.fingerprint)
unfolding step
step_identity begins job = ground arith
step_identity _ job = ground arith

-- No history changes the profile or the fingerprint that a job was accepted with.
pub run_identity :
    (job : BatchJob) (cs : List Call)
    → ((run job cs).profile ≡ job.profile) × ((run job cs).fingerprint ≡ job.fingerprint)
unfolding run
run_identity job [] = (refl, refl)
run_identity job (c ∷ cs) = ground (arith, step_identity c job, run_identity (step c job).1 cs)

-- The state diagram of a job.
infix 40 ◌⟶◌
pub data ◌⟶◌ : BatchJobStatus → BatchJobStatus → Type 0 where
  first : BatchJobStatus.accepted ⟶ BatchJobStatus.submitting
  again : BatchJobStatus.retryable ⟶ BatchJobStatus.submitting
  refused : BatchJobStatus.submitting ⟶ BatchJobStatus.retryable
  done : BatchJobStatus.submitting ⟶ BatchJobStatus.completed
  lost : BatchJobStatus.submitting ⟶ BatchJobStatus.failed
  unsure : BatchJobStatus.submitting ⟶ BatchJobStatus.outcome_unknown

ruleset edges = (first, again, refused, done, lost, unsure)

-- Every call that is carried out follows an edge of the state diagram.
pub job_step-⟶ :
    (c : Call) (job : BatchJob)
    → (step c job).0 ≡ true
    → status job.state ⟶ status (step c job).1.state
unfolding step
job_step-⟶ begins job h = grind (arith, edges)
job_step-⟶ _ job h = grind (arith, edges)

terminal_refuses :
    (c : Call) (job : BatchJob)
    → is_terminal job.state ≡ true
    → ((step c job).0 ≡ false) × ((step c job).1 ≡ job)
unfolding step
terminal_refuses begins job h = ground arith
terminal_refuses _ job h = ground arith

run_terminal : (job : BatchJob) (cs : List Call) → is_terminal job.state ≡ true → run job cs ≡ job
unfolding run
run_terminal job [] h = refl
run_terminal job (c ∷ cs) h = ground (
  arith,
  terminal_refuses c job h,
  run_terminal job cs h,
  ap (λ j. run j cs) (terminal_refuses c job h).1,
)

-- A completed job, a failed one and one whose outcome is unknown stay as they are under any history,
-- and refuse every later call; in particular no other submission begins.
pub job_terminal_absorbs :
    (job : BatchJob) (cs : List Call) (c : Call)
    → is_terminal job.state ≡ true
    → (run job cs ≡ job) × ((step c (run job cs)).0 ≡ false)
job_terminal_absorbs job cs c h =
    (run_terminal job cs h, rw (run_terminal job cs h) (terminal_refuses c job h).0)
