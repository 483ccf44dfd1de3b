-- ===== src/Batch/Admit.antt =====
-- `admit` of crates/voicetext-speech/src/application/batch.rs: idempotent admission, with the
-- rollback of an artifact that this call created.
use voicetext_gateway.Prelude.{
  ℕ, Bool, true, false, not, ◌&&◌, List, Option, none, some, Text, text_eq, Result, ok, err, Method,
  pure, fail_with, attempt, map_err, of_result, ◌>>=◌, if◌then◌else◌,
}
use voicetext_gateway.Job.{BatchProfile, accept}
use voicetext_gateway.Job.Profile.{profile_eq}
use voicetext_gateway.Batch.Models.{
  BatchJobSnapshot, BatchJobInsertOutcome, BatchJobStoreFailure, BatchAudioStoreOutcome,
}
use voicetext_gateway.Batch.Ports.{
  BatchCoordinator, BatchCoordinatorFailure, admission_conflict, admission_store_uncertain,
  admission_cleanup,
}

pub record BatchAdmissionRequest : Type 0 where
  pub id : Text
  pub profile : BatchProfile
  pub fingerprint : List ℕ
  pub audio : List ℕ
  pub authoritative_duration_millis : ℕ
  pub keyterms : List Text

pub data BatchAdmissionOutcome : Type 0 where
  accepted replay : BatchJobSnapshot → BatchAdmissionOutcome

unfoldable pub classify_existing :
    BatchJobSnapshot → BatchAdmissionRequest → Result BatchCoordinatorFailure BatchAdmissionOutcome
classify_existing existing request =
    if profile_eq existing.job.profile request.profile
      && text_eq existing.job.fingerprint request.fingerprint
    then ok (replay existing)
    else err (admission_conflict existing)

-- The handle, and whether this call owns the artifact.
abbrev pub stored_audio : BatchAudioStoreOutcome → Text × Bool
stored_audio (BatchAudioStoreOutcome.stored handle) = (handle, true)
stored_audio (BatchAudioStoreOutcome.existing handle) = (handle, false)

module _ {W : Type 0} (c : BatchCoordinator W) where
  open c use {jobs, spool}

  abbrev Batch : Type 0 → Type 0
  Batch A = Method W BatchCoordinatorFailure A

  unfoldable pub resolve_race :
      BatchJobSnapshot → BatchAdmissionRequest → Bool → Text → Batch BatchAdmissionOutcome
  resolve_race existing request owns candidate =
      if owns && not (text_eq candidate existing.audio)
      then (map_err (admission_cleanup none) (spool.remove candidate) >>= λ _.
          of_result (classify_existing existing request))
      else of_result (classify_existing existing request)

  -- The insert failed: find out whether the job is there all the same.
  unfoldable pub settle :
      BatchAdmissionRequest
      → Bool
      → Text
      → BatchJobStoreFailure
      → Result BatchJobStoreFailure (Option BatchJobSnapshot)
      → Batch BatchAdmissionOutcome
  unfolding resolve_race
  settle request owns audio insert (ok (some existing)) = resolve_race existing request owns audio
  settle request owns audio insert (ok none) =
      if owns
      then (map_err (admission_cleanup (some insert)) (spool.remove audio) >>= λ _.
          fail_with (BatchCoordinatorFailure.store insert))
      else fail_with (BatchCoordinatorFailure.store insert)
  settle request owns audio insert (err verification) =
      fail_with (admission_store_uncertain insert verification)

  unfoldable pub insert_result :
      BatchAdmissionRequest
      → Bool
      → Text
      → Result BatchJobStoreFailure BatchJobInsertOutcome
      → Batch BatchAdmissionOutcome
  unfolding settle
  insert_result request owns audio (ok (BatchJobInsertOutcome.inserted s)) = pure (accepted s)
  insert_result request owns audio (ok (BatchJobInsertOutcome.existing s)) =
      resolve_race s request owns audio
  insert_result request owns audio (err insert) = do
    found ← attempt (jobs.load request.id)
    settle request owns audio insert found

  unfoldable pub insert_held :
      BatchAdmissionRequest → BatchAudioStoreOutcome → Batch BatchAdmissionOutcome
  unfolding insert_result
  insert_held request kept = do
    let held = stored_audio kept
    inserted ← attempt (
        jobs.insert request.id (accept request.profile request.fingerprint) held.0
          request.authoritative_duration_millis request.keyterms)
    insert_result request held.1 held.0 inserted

  unfoldable pub admit_new : BatchAdmissionRequest → Batch BatchAdmissionOutcome
  unfolding insert_held
  admit_new request = do
    kept ← map_err BatchCoordinatorFailure.spool (spool.store request.id request.audio)
    insert_held request kept

  unfoldable pub admit_found :
      BatchAdmissionRequest → Option BatchJobSnapshot → Batch BatchAdmissionOutcome
  unfolding admit_new
  admit_found request (some existing) = of_result (classify_existing existing request)
  admit_found request none = admit_new request

  unfoldable pub admit : BatchAdmissionRequest → Batch BatchAdmissionOutcome
  unfolding admit_found
  admit request = do
    found ← map_err BatchCoordinatorFailure.store (jobs.load request.id)
    admit_found request found
