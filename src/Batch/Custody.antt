-- ===== src/Batch/Custody.antt =====
-- What `admit` of application/batch.rs accepts, and which audio artifacts it removes, seen in the
-- calls that it makes of its ports.
use voicetext_gateway.Prelude.{
  ◌≡◌, ◌↔◌, refl, sym, ◌∙◌, Bool, true, false, ◌&&◌, List, [], ◌∷◌, Option, none, some, Text,
  text_eq, text_eq_iff, arith, Result, ok, err, ◌⊎◌, inl, inr, Bool-cases, fail_with, of_result,
}
use voicetext_gateway.Job.{BatchJob, accept}
use voicetext_gateway.Job.Profile.{profile_eq, profile_eq_iff}
use voicetext_gateway.Batch.Models.{
  BatchJobSnapshot, BatchJobInsertOutcome, BatchJobStoreFailure, BatchAudioStoreOutcome,
}
use voicetext_gateway.Batch.Ports.{
  BatchCoordinator, BatchCoordinatorFailure, admission_conflict, admission_cleanup, Effect, loads,
  inserts, stores_audio, removes_audio, traced,
}
use voicetext_gateway.Batch.Logs.{Logs, call_or, call_then}
use voicetext_gateway.Batch.Admit.{
  BatchAdmissionRequest, BatchAdmissionOutcome, accepted, replay, classify_existing, resolve_race,
  settle, insert_result, insert_held, admit_new, admit_found, admit,
}

-- The artifact was created by a call of the log.
abbrev pub Owned : Text → List Effect → Type 0
Owned h [] = ⊥
Owned h (stores_audio i (ok (BatchAudioStoreOutcome.stored g)) ∷ rest) = (g ≡ h) ⊎ Owned h rest
Owned h (_ ∷ rest) = Owned h rest

-- The log asks for the artifact to be removed.
abbrev pub Removed : Text → List Effect → Type 0
Removed h [] = ⊥
Removed h (removes_audio g r ∷ rest) = (g ≡ h) ⊎ Removed h rest
Removed h (_ ∷ rest) = Removed h rest

-- Only artifacts that the same log created before are removed.
abbrev pub RemovesOwned : List Effect → Type 0
RemovesOwned [] = Unit {0}
RemovesOwned (removes_audio h r ∷ rest) = Owned h rest × RemovesOwned rest
RemovesOwned (_ ∷ rest) = RemovesOwned rest

-- The snapshot is bound to the request's profile and fingerprint.
abbrev pub SameRequest : BatchJobSnapshot → BatchAdmissionRequest → Type 0
SameRequest s request =
    (s.job.profile ≡ request.profile) × (s.job.fingerprint ≡ request.fingerprint)

-- Each artifact that the log created was asked to be removed, or is the one in use.
abbrev pub NoOrphan : Text → List Effect → Type 0
NoOrphan used log = (h : Text) → Owned h log → (used ≡ h) ⊎ Removed h log

abbrev pub InsertedLast : BatchJobSnapshot → List Effect → Type 0
InsertedLast s (inserts i j a (ok (BatchJobInsertOutcome.inserted t)) ∷ rest) = t ≡ s
InsertedLast s _ = ⊥

-- What each result of an admission tells.
abbrev pub AdmitTells :
    BatchAdmissionRequest
    → Result BatchCoordinatorFailure BatchAdmissionOutcome
    → List Effect
    → Type 0
AdmitTells request (ok (accepted s)) log = InsertedLast s log
AdmitTells request (ok (replay s)) log = SameRequest s request × NoOrphan s.audio log
AdmitTells request (err (admission_conflict s)) log =
    (¬ SameRequest s request) × NoOrphan s.audio log
AdmitTells request (err (BatchCoordinatorFailure.store f)) log =
    (h : Text) → Owned h log → Removed h log
AdmitTells request (err _) log = Unit {0}

abbrev pub AdmitLog :
    BatchAdmissionRequest
    → Result BatchCoordinatorFailure BatchAdmissionOutcome
    → List Effect
    → Type 0
AdmitLog request r log = RemovesOwned log × AdmitTells request r log

SameRequest-iff :
    (s : BatchJobSnapshot) (request : BatchAdmissionRequest)
    → (profile_eq s.job.profile request.profile && text_eq s.job.fingerprint request.fingerprint
        ≡ true)
      ↔ SameRequest s request
SameRequest-iff s request = ground (
  arith,
  profile_eq_iff s.job.profile request.profile,
  text_eq_iff s.job.fingerprint request.fingerprint,
)

classified_log :
    (s : BatchJobSnapshot) (request : BatchAdmissionRequest) (log : List Effect)
    → RemovesOwned log
    → NoOrphan s.audio log
    → AdmitLog request (classify_existing s request) log
unfolding classify_existing
classified_log s request log o n =
    elim (Bool-cases
      (profile_eq s.job.profile request.profile && text_eq s.job.fingerprint request.fingerprint)) [
        | inl e ↦ rw e (o, ((SameRequest-iff s request).0 e, n))
        | inr e ↦ rw e (o, (λ same. cc ((SameRequest-iff s request).1 same), n))
      ]

-- The artifacts that a log created are the candidate alone, if this call owns it, and none
-- otherwise; nothing foreign was removed.
record Holds (owns : Bool) (candidate : Text) (log : List Effect) : Type 0 where
  untouched : RemovesOwned log
  mine : owns ≡ true → Owned candidate log
  only : (h : Text) → Owned h log → (owns ≡ true) × (candidate ≡ h)

module _ {W : Type 0} (c : BatchCoordinator W) (request : BatchAdmissionRequest) where
  resolve_log :
      (existing : BatchJobSnapshot) (owns : Bool) (candidate : Text) (log : List Effect)
      → Holds owns candidate log
      → Logs (resolve_race (traced c) existing request owns candidate) log (AdmitLog request)
  unfolding resolve_race traced
  resolve_log existing true candidate log v = elim (Bool-cases (text_eq candidate existing.audio)) [
    | inl e ↦ rw e (λ w.
        classified_log existing request log v.untouched
          (λ h o. inl (sym ((text_eq_iff candidate existing.audio).0 e) ∙ (v.only h o).1)))
    | inr e ↦ rw e (
        call_or (AdmitLog request) log (admission_cleanup none) (removes_audio candidate)
          (c.spool.remove candidate) (λ _. of_result (classify_existing existing request))
          (λ r w.
            classified_log existing request (removes_audio candidate (ok r) ∷ log)
              (v.mine refl, v.untouched) (λ h o. inr (inl (v.only h o).1)))
          (λ x. ((v.mine refl, v.untouched), tt)))
  ]
  resolve_log existing false candidate log v =
      λ w. classified_log existing request log v.untouched (λ h o. cc ((v.only h o).0))

  settle_log :
      (owns : Bool) (audio : Text) (insert : BatchJobStoreFailure)
      (found : Result BatchJobStoreFailure (Option BatchJobSnapshot)) (log : List Effect)
      → Holds owns audio log
      → Logs (settle (traced c) request owns audio insert found) log (AdmitLog request)
  unfolding settle traced
  settle_log owns audio insert (ok (some existing)) log v = resolve_log existing owns audio log v
  settle_log true audio insert (ok none) log v =
      call_or (AdmitLog request) log (admission_cleanup (some insert)) (removes_audio audio)
        (c.spool.remove audio) (λ _. fail_with (BatchCoordinatorFailure.store insert))
        (λ r w. ((v.mine refl, v.untouched), λ h o. inl (v.only h o).1))
        (λ x. ((v.mine refl, v.untouched), tt))
  settle_log false audio insert (ok none) log v = λ w. (v.untouched, λ h o. cc ((v.only h o).0))
  settle_log owns audio insert (err verification) log v = λ w. (v.untouched, tt)

  inserted_log :
      (owns : Bool) (audio : Text) (r : Result BatchJobStoreFailure BatchJobInsertOutcome)
      (job : BatchJob) (log : List Effect)
      → Holds owns audio log
      → Logs
          (insert_result (traced c) request owns audio r)
          (inserts request.id job audio r ∷ log)
          (AdmitLog request)
  unfolding insert_result traced
  inserted_log owns audio (ok (BatchJobInsertOutcome.inserted s)) job log v =
      λ w. (v.untouched, refl)
  inserted_log owns audio (ok (BatchJobInsertOutcome.existing s)) job log v =
      resolve_log s owns audio _ (record { untouched = v.untouched; mine = v.mine; only = v.only })
  inserted_log owns audio (err x) job log v =
      call_then (AdmitLog request) (inserts request.id job audio (err x) ∷ log) (loads request.id)
        (c.jobs.load request.id) (settle (traced c) request owns audio x)
        λ found.
          settle_log owns audio x found
            (loads request.id found ∷ inserts request.id job audio (err x) ∷ log)
            (record { untouched = v.untouched; mine = v.mine; only = v.only })

  held_log :
      (kept : BatchAudioStoreOutcome)
      → Logs
          (insert_held (traced c) request kept)
          (stores_audio request.id (ok kept) ∷ loads request.id (ok none) ∷ [])
          (AdmitLog request)
  unfolding insert_held traced
  held_log (BatchAudioStoreOutcome.stored handle) =
      call_then (AdmitLog request) _ (inserts request.id job handle) _
        (insert_result (traced c) request true handle)
        λ r.
          inserted_log true handle r job _
            (record { untouched = tt; mine = λ e. inl refl; only = λ h o. (refl, owner h o) })
    where
      job : BatchJob
      job = accept request.profile request.fingerprint

      owner : (h : Text) → (handle ≡ h) ⊎ ⊥ → handle ≡ h
      owner h (inl e) = e
      owner h (inr x) = absurd x
  held_log (BatchAudioStoreOutcome.existing handle) =
      call_then (AdmitLog request) _ (inserts request.id job handle) _
        (insert_result (traced c) request false handle)
        λ r.
          inserted_log false handle r job _
            (record { untouched = tt; mine = λ e. cc; only = λ h o. absurd o })
    where
      job : BatchJob
      job = accept request.profile request.fingerprint

  found_log :
      (found : Option BatchJobSnapshot)
      → Logs
          (admit_found (traced c) request found)
          (loads request.id (ok found) ∷ [])
          (AdmitLog request)
  unfolding admit_found admit_new traced
  found_log (some existing) = λ w. classified_log existing request _ tt (λ h o. absurd o)
  found_log none =
      call_or (AdmitLog request) (loads request.id (ok none) ∷ []) BatchCoordinatorFailure.spool
        (stores_audio request.id) (c.spool.store request.id request.audio)
        (insert_held (traced c) request) held_log (λ x. (tt, tt))

  -- An admission removes no artifact but one that it created itself. It accepts a job only when the
  -- store inserted it last, answers with a replay only for a job of the same profile and
  -- fingerprint, and with a conflict only for one that differs; and after a replay, a conflict or a
  -- failure of the store, each artifact that it created is in use by that job or was asked to be
  -- removed.
  pub admit_custody : Logs (admit (traced c) request) [] (AdmitLog request)
  unfolding admit traced
  admit_custody =
      call_or (AdmitLog request) [] BatchCoordinatorFailure.store (loads request.id)
        (c.jobs.load request.id) (admit_found (traced c) request) found_log
        (λ x. (tt, λ h o. absurd o))
