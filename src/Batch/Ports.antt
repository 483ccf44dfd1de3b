-- ===== src/Batch/Ports.antt =====
-- The traits of crates/voicetext-speech/src/application/ports.rs that the coordinator calls, over
-- any state `W` of the world, and the coordinator's failures. A trait object is a record of methods.
use voicetext_gateway.Prelude.{ℕ, List, ◌∷◌, Option, Text, Result, Method}
use voicetext_gateway.Job.{BatchJob, BatchTransitionError}
use voicetext_gateway.Batch.Models.{
  RecognitionFailure, BatchRecognitionRequest, BatchRecognitionResult, BatchJobSnapshot,
  BatchJobInsertOutcome, BatchJobUpdateOutcome, BatchJobStoreFailure, BatchAudioSpoolFailure,
  BatchAudioStoreOutcome, BatchAudioRemoveOutcome,
}

pub record BatchJobStore (W : Type 0) : Type 0 where
  pub load : Text → Method W BatchJobStoreFailure (Option BatchJobSnapshot)
  pub insert :
      Text → BatchJob → Text → ℕ → List Text → Method W BatchJobStoreFailure BatchJobInsertOutcome
  pub compare_and_swap : ℕ → BatchJobSnapshot → Method W BatchJobStoreFailure BatchJobUpdateOutcome
  pub list_recovery_candidates :
      Option Text → ℕ → Method W BatchJobStoreFailure (List BatchJobSnapshot)
  pub list_recovery_candidates_through :
      Option Text → Text → ℕ → Method W BatchJobStoreFailure (List BatchJobSnapshot)

pub record BatchAudioSpool (W : Type 0) : Type 0 where
  pub store : Text → List ℕ → Method W BatchAudioSpoolFailure BatchAudioStoreOutcome
  pub read : Text → Method W BatchAudioSpoolFailure (List ℕ)
  pub remove : Text → Method W BatchAudioSpoolFailure BatchAudioRemoveOutcome

pub record BatchRecognizer (W : Type 0) : Type 0 where
  pub recognize : BatchRecognitionRequest → Method W RecognitionFailure BatchRecognitionResult

-- `BatchCoordinator`
pub record BatchCoordinator (W : Type 0) : Type 0 where
  pub recognizer : BatchRecognizer W
  pub jobs : BatchJobStore W
  pub spool : BatchAudioSpool W

pub data BatchCoordinatorFailure : Type 0 where
  admission_conflict : BatchJobSnapshot → BatchCoordinatorFailure
  spool : BatchAudioSpoolFailure → BatchCoordinatorFailure
  store : BatchJobStoreFailure → BatchCoordinatorFailure
  admission_store_uncertain : BatchJobStoreFailure → BatchJobStoreFailure → BatchCoordinatorFailure
  admission_cleanup : Option BatchJobStoreFailure → BatchAudioSpoolFailure → BatchCoordinatorFailure
  transition : BatchTransitionError → BatchCoordinatorFailure
  post_egress_store : BatchJobStoreFailure → BatchCoordinatorFailure
  post_egress_conflict : BatchCoordinatorFailure

-- One call of a port, with its arguments and its reply.
pub data Effect : Type 0 where
  loads : Text → Result BatchJobStoreFailure (Option BatchJobSnapshot) → Effect
  inserts : Text → BatchJob → Text → Result BatchJobStoreFailure BatchJobInsertOutcome → Effect
  swaps : ℕ → BatchJobSnapshot → Result BatchJobStoreFailure BatchJobUpdateOutcome → Effect
  lists : Result BatchJobStoreFailure (List BatchJobSnapshot) → Effect
  stores_audio : Text → Result BatchAudioSpoolFailure BatchAudioStoreOutcome → Effect
  reads_audio : Text → Result BatchAudioSpoolFailure (List ℕ) → Effect
  removes_audio : Text → Result BatchAudioSpoolFailure BatchAudioRemoveOutcome → Effect
  recognizes : BatchRecognitionRequest → Result RecognitionFailure BatchRecognitionResult → Effect

-- A world with the calls made of it, the latest first.
abbrev pub Logged : Type 0 → Type 0
Logged W = W × List Effect

abbrev pub logging {ℓ κ} :
    {W : Type 0} {E : Type ℓ} {A : Type κ}
    → (Result E A → Effect)
    → Method W E A
    → Method (Logged W) E A
logging effect m (w, log) = let (r, v) = m w in (r, (v, effect r ∷ log))

-- The same ports, which also log each call.
unfoldable pub traced : {W : Type 0} → BatchCoordinator W → BatchCoordinator (Logged W)
traced c = record {
  recognizer = record { recognize = λ q. logging (recognizes q) (c.recognizer.recognize q) };
  jobs = record {
    load = λ i. logging (loads i) (c.jobs.load i);
    insert = λ i j a d k. logging (inserts i j a) (c.jobs.insert i j a d k);
    compare_and_swap = λ n s. logging (swaps n s) (c.jobs.compare_and_swap n s);
    list_recovery_candidates = λ a n. logging lists (c.jobs.list_recovery_candidates a n);
    list_recovery_candidates_through =
        λ a h n. logging lists (c.jobs.list_recovery_candidates_through a h n);
  };
  spool = record {
    store = λ i b. logging (stores_audio i) (c.spool.store i b);
    read = λ h. logging (reads_audio h) (c.spool.read h);
    remove = λ h. logging (removes_audio h) (c.spool.remove h);
  };
}
