-- ===== src/Job/Attempts.antt =====
-- How many submissions a batch job of domain/batch.rs begins.
use voicetext_gateway.Prelude.{
  ℕ, ◌+◌, ◌≤◌, ◌≡◌, Bool, true, false, List, [], ◌∷◌, arith, u32_max, if◌then◌else◌,
}
use voicetext_gateway.Job.{
  BatchJob, BatchProfile, BatchJobState, accept, Call, begins, retries, step, run,
}

-- The number of the latest attempt.
abbrev pub attempt_number : BatchJobState → ℕ
attempt_number BatchJobState.accepted = 0
attempt_number (BatchJobState.submitting n) = n
attempt_number (BatchJobState.retryable n f) = n
attempt_number (BatchJobState.completed n) = n
attempt_number (BatchJobState.failed n f) = n
attempt_number (BatchJobState.outcome_unknown n r) = n

-- 1 once the latest attempt may have reached the provider.
abbrev pub engaged : BatchJobState → ℕ
engaged BatchJobState.accepted = 0
engaged (BatchJobState.retryable n f) = 0
engaged _ = 1

abbrev pub is_begin : Call → Bool
is_begin begins = true
is_begin _ = false

abbrev pub is_retry : Call → Bool
is_retry (retries f) = true
is_retry _ = false

abbrev carried : (Call → Bool) → Call → Bool → ℕ
carried p c true = if p c then 1 else 0
carried p c false = 0

-- The calls of a history that satisfy a test and are carried out.
pub times : (Call → Bool) → BatchJob → List Call → ℕ
times p job [] = 0
times p job (c ∷ cs) = carried p c (step c job).0 + times p (step c job).1 cs

record Counts (c : Call) (job : BatchJob) : Type 0 where
  attempts :
      carried is_begin c (step c job).0 + attempt_number job.state
      ≡ attempt_number (step c job).1.state
  engagements :
      carried is_begin c (step c job).0 + engaged job.state
      ≡ carried is_retry c (step c job).0 + engaged (step c job).1.state
  capped : attempt_number job.state ≤ u32_max → attempt_number (step c job).1.state ≤ u32_max

step-Counts : (c : Call) (job : BatchJob) → Counts c job
unfolding step
step-Counts begins job = ground arith
step-Counts _ job = ground arith

record Totals (job : BatchJob) (cs : List Call) : Type 0 where
  attempts : times is_begin job cs + attempt_number job.state ≡ attempt_number (run job cs).state
  engagements :
      times is_begin job cs + engaged job.state ≡ times is_retry job cs + engaged (run job cs).state
  capped : attempt_number job.state ≤ u32_max → attempt_number (run job cs).state ≤ u32_max

run-Totals : (job : BatchJob) (cs : List Call) → Totals job cs
unfolding run times
run-Totals job [] = omega arith
run-Totals job (c ∷ cs) =
    let one = step-Counts c job in
    let rest = run-Totals (step c job).1 cs in
    record {
      attempts = omega (arith, one.attempts, rest.attempts);
      engagements = omega (arith, one.engagements, rest.engagements);
      capped = λ h. rest.capped (one.capped h);
    }

-- In any history of an accepted job, the submissions begun are counted exactly by its attempt
-- number, which never wraps, and they exceed the failures recorded as retryable by one while the
-- latest attempt may have reached the provider, and by none otherwise: no submission is repeated
-- unless the one before it was recorded as not accepted.
pub submissions_fenced :
    (profile : BatchProfile) (fingerprint : List ℕ) (cs : List Call)
    → let job = accept profile fingerprint in
      (times is_begin job cs ≡ attempt_number (run job cs).state)
      × (attempt_number (run job cs).state ≤ u32_max)
      × (times is_begin job cs ≡ times is_retry job cs + engaged (run job cs).state)
unfolding accept
submissions_fenced profile fingerprint cs =
    let t = run-Totals (accept profile fingerprint) cs in
    (omega (arith, t.attempts), t.capped (omega arith), omega (arith, t.engagements))
