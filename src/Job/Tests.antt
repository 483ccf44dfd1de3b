-- ===== src/Job/Tests.antt =====
-- Concrete histories of batch jobs.
use voicetext_gateway.Prelude.{◌≡◌, ◌≤◌, ◌+◌, refl, false, text, [], ◌∷◌, u32_max}
use voicetext_gateway.Job.{
  BatchJob, BatchProfile, BatchFailure, BatchJobState, accept, begins, completes, retries, recovers,
  step, run,
}
use voicetext_gateway.Job.Lifecycle.{job_terminal_absorbs}
use voicetext_gateway.Job.Attempts.{
  submissions_fenced, times, is_begin, is_retry, attempt_number, engaged,
}

abbrev profile : BatchProfile
profile = record {
  contract_version = 1;
  provider = text "deepgram";
  model = text "nova-3";
  language = text "en";
}

abbrev busy : BatchFailure
busy = record { code = text "BUSY" }

abbrev ended : BatchJob
ended = record { profile = profile; fingerprint = 7 ∷ []; state = BatchJobState.completed 2 }

submissions_fenced_example :
    let job = accept profile (7 ∷ []) in
    let cs = begins ∷ retries busy ∷ begins ∷ completes ∷ [] in
    (times is_begin job cs ≡ attempt_number (run job cs).state)
    × (attempt_number (run job cs).state ≤ u32_max)
    × (times is_begin job cs ≡ times is_retry job cs + engaged (run job cs).state)
submissions_fenced_example =
    submissions_fenced profile (7 ∷ []) (begins ∷ retries busy ∷ begins ∷ completes ∷ [])

job_terminal_absorbs_example :
    (run ended (begins ∷ recovers ∷ []) ≡ ended)
    × ((step begins (run ended (begins ∷ recovers ∷ []))).0 ≡ false)
job_terminal_absorbs_example = job_terminal_absorbs ended (begins ∷ recovers ∷ []) begins refl
