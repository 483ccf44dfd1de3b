-- ===== src/Batch/Tests.antt =====
-- Concrete runs of the batch coordinator over a store that holds one job.
use voicetext_gateway.Prelude.{
  ℕ, ◌+◌, ◌==◌, ◌≡◌, refl, Bool, true, [], ◌∷◌, Option, none, some, Text, text, Result, ok, Method,
  if◌then◌else◌,
}
use voicetext_gateway.Prelude.{◌↔◌, text_eq, byte_len}
use voicetext_gateway.Job.Profile.{profile_eq}
use voicetext_gateway.Job.Attempts.{attempt_number}
use voicetext_gateway.Batch.Validate.{
  valid_result, check_segments, next_bytes, segment_fits, readable_valid,
}
use voicetext_gateway.Batch.Bounds.{Fits, valid_result_iff}
use voicetext_gateway.Batch.Verdict.{verdict, fitting, kept_delay, RetryAllowed}
use voicetext_gateway.Batch.Answers.{answer_total, completes_only_fitting, retries_only_unaccepted}
use voicetext_gateway.Job.{BatchJobStatus, status, complete, BatchProfile, BatchJobState, accept}
use voicetext_gateway.Batch.Models.{
  BatchRecognitionResult, BatchJobSnapshot, BatchJobInsertOutcome, BatchJobUpdateOutcome,
  BatchJobStoreFailure, BatchAudioStoreOutcome, BatchAudioRemoveOutcome, RecognitionFailure,
}
use voicetext_gateway.Batch.Ports.{BatchCoordinator, traced}
use voicetext_gateway.Batch.Logs.{Logs}
use voicetext_gateway.Batch.Admit.{BatchAdmissionRequest, admit}
use voicetext_gateway.Batch.Execute.{execute_with_cleanup_report}
use voicetext_gateway.Batch.Recover.{reconcile_candidates}
use voicetext_gateway.Batch.Outcome.{apply_recognition_outcome}
use voicetext_gateway.Batch.Fence.{EgressLog, execute_fenced, submissions}
use voicetext_gateway.Batch.Custody.{AdmitLog, admit_custody}
use voicetext_gateway.Batch.Startup.{Reports, page_cursor, reconcile_page}

abbrev profile : BatchProfile
profile = record {
  contract_version = 1;
  provider = text "deepgram";
  model = text "nova-3";
  language = text "en";
}

abbrev answer : BatchRecognitionResult
answer = record {
  profile = profile;
  text = text "hello";
  duration_millis = 1000;
  provider_duration_millis = none;
  segments =
      record {
        start_millis = 0;
        end_millis = 900;
        text = text "hello";
        confidence = none;
        speaker = none;
      }
      ∷ [];
  readable_segments = none;
  provider_reference = none;
}

abbrev waiting : BatchJobSnapshot
waiting = record {
  id = text "job";
  job = accept profile (7 ∷ []);
  audio = text "audio";
  authoritative_duration_millis = 1000;
  keyterms = [];
  provider_reference = none;
  retry_after_millis = none;
  result = none;
  revision = 0;
}

-- The store is the snapshot that it holds.
abbrev World : Type 0
World = Option BatchJobSnapshot

abbrev swap : ℕ → BatchJobSnapshot → Method World BatchJobStoreFailure BatchJobUpdateOutcome
swap n s none = (ok BatchJobUpdateOutcome.missing, none)
swap n s (some held) =
    if held.revision == n
    then (let next = record s { revision = n + 1 } in
        (ok (BatchJobUpdateOutcome.stored next), some next))
    else (ok (BatchJobUpdateOutcome.revision_conflict held), some held)

abbrev ports : BatchCoordinator World
ports = record {
  recognizer = record { recognize = λ q w. (ok answer, w) };
  jobs = record {
    load = λ id w. (ok w, w);
    insert = λ id job audio d k w. (ok (BatchJobInsertOutcome.inserted waiting), some waiting);
    compare_and_swap = swap;
    list_recovery_candidates = λ a n w. (ok [], w);
    list_recovery_candidates_through = λ a h n w. (ok [], w);
  };
  spool = record {
    store = λ id bytes w. (ok (BatchAudioStoreOutcome.stored (text "audio")), w);
    read = λ h w. (ok (1 ∷ 2 ∷ []), w);
    remove = λ h w. (ok BatchAudioRemoveOutcome.removed, w);
  };
}

abbrev anything : Text → BatchRecognitionResult → Bool
anything id r = true

abbrev admission : BatchAdmissionRequest
admission = record {
  id = text "job";
  profile = profile;
  fingerprint = 7 ∷ [];
  audio = 1 ∷ 2 ∷ [];
  authoritative_duration_millis = 1000;
  keyterms = [];
}

-- An accepted job is submitted once.
executes_once :
    submissions
      (execute_with_cleanup_report (traced ports) anything (text "job") (some waiting, [])).1.1
    ≡ 1
unfolding traced execute_with_cleanup_report accept apply_recognition_outcome valid_result
    profile_eq text_eq byte_len check_segments next_bytes segment_fits readable_valid complete
executes_once = refl

execute_fenced_example :
    Logs (execute_with_cleanup_report (traced ports) anything (text "job")) [] EgressLog
execute_fenced_example = execute_fenced ports anything (text "job")

admit_custody_example : Logs (admit (traced ports) admission) [] (AdmitLog admission)
admit_custody_example = admit_custody ports admission

abbrev submitted : BatchJobSnapshot
submitted = record waiting {
  job = record { profile = profile; fingerprint = 7 ∷ []; state = BatchJobState.submitting 1 };
}

reconcile_page_example :
    Logs
      (reconcile_candidates (traced ports) (waiting ∷ submitted ∷ []))
      []
      (Reports (waiting ∷ submitted ∷ []) 2 (page_cursor (waiting ∷ submitted ∷ [])))
reconcile_page_example = reconcile_page ports (waiting ∷ submitted ∷ [])

abbrev completed : BatchJobSnapshot
completed = record submitted {
  job = record { profile = profile; fingerprint = 7 ∷ []; state = BatchJobState.completed 1 };
  result = some answer;
}

completes : apply_recognition_outcome anything submitted (ok answer) ≡ ok completed
unfolding accept apply_recognition_outcome valid_result profile_eq text_eq byte_len check_segments
    next_bytes segment_fits readable_valid complete
completes = refl

valid : valid_result submitted answer ≡ true
unfolding valid_result profile_eq text_eq byte_len check_segments next_bytes segment_fits
    readable_valid
valid = refl

answer_total_example :
    (t : BatchJobSnapshot) × (apply_recognition_outcome anything submitted (ok answer) ≡ ok t)
    × (status t.job.state ≡ verdict (fitting anything submitted (ok answer)) (ok answer))
    × (attempt_number t.job.state ≡ 1)
    × (t.job.profile ≡ profile)
    × (t.job.fingerprint ≡ 7 ∷ [])
    × (t.id ≡ text "job")
    × (t.audio ≡ text "audio")
    × (t.authoritative_duration_millis ≡ 1000)
    × (t.keyterms ≡ [])
    × (t.revision ≡ 0)
unfolding accept
answer_total_example = answer_total anything submitted 1 (ok answer) refl

abbrev answered : Result RecognitionFailure BatchRecognitionResult
answered = ok answer

completes_only_fitting_example :
    (r : BatchRecognitionResult) × (answered ≡ ok r)
    × Fits submitted r
    × (anything (text "job") r ≡ true)
    × (some answer ≡ some r)
completes_only_fitting_example =
    completes_only_fitting anything submitted completed 1 (ok answer) completes refl

retries_only_unaccepted_example :
    ((BatchJobStatus.completed ≡ BatchJobStatus.retryable) ↔ RetryAllowed (ok answer))
    × (none ≡ kept_delay (ok answer))
retries_only_unaccepted_example =
    retries_only_unaccepted anything submitted completed (ok answer) completes

valid_result_iff_example : (valid_result submitted answer ≡ true) ↔ Fits submitted answer
valid_result_iff_example = valid_result_iff submitted answer
