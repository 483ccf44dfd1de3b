-- ===== src/Records/State.antt =====
-- The state columns of crates/voicetext-gateway/src/storage/records.rs.
use mathlib.Core.Option
use mathlib.Core.Path.{subst}
use voicetext_gateway.Prelude.{
  ℕ, ◌≤◌, ◌<◌, ◌≡◌, ◌↔◌, refl, inl, inr, Option, none, some, Text, text, Result, ok, err, and_then,
  and_then-ok, ok_or_err, transpose, ◌==◌, if◌then◌else◌, text_eq, text_eq_iff, byte_len, u32_max,
  ℤ, pos, negsuc, Result-cases, try_from, arith, ◌&&◌,
}
use voicetext_gateway.Job.{BatchFailure, BatchJobState, submission, interrupted_submission}
use voicetext_gateway.Job.Profile.{new_failure, new_failure_iff, IsIdentity, max_code_bytes}
use voicetext_gateway.Records.Checks.{RecordError}

-- The columns `state`, `attempt`, `failure_code` and `unknown_reason`.
abbrev pub StateColumns : Type 0
StateColumns = Text × Option ℤ × Option Text × Option Text

unfoldable pub flatten_state : BatchJobState → StateColumns
flatten_state BatchJobState.accepted = (text "accepted", none, none, none)
flatten_state (BatchJobState.submitting n) = (text "submitting", some (pos n), none, none)
flatten_state (BatchJobState.retryable n f) = (text "retryable", some (pos n), some f.code, none)
flatten_state (BatchJobState.completed n) = (text "completed", some (pos n), none, none)
flatten_state (BatchJobState.failed n f) = (text "failed", some (pos n), some f.code, none)
flatten_state (BatchJobState.outcome_unknown n (submission f)) =
    (text "outcome_unknown", some (pos n), some f.code, some (text "submission"))
flatten_state (BatchJobState.outcome_unknown n interrupted_submission) =
    (text "outcome_unknown", some (pos n), none, some (text "interrupted_submission"))

-- `NonZeroU32::new`
abbrev non_zero : ℕ → Option ℕ
non_zero n = if n == 0 then none else some n

unfoldable pub restore_attempt : ℤ → Result RecordError ℕ
restore_attempt value =
    ok_or_err (text "INVALID_ATTEMPT")
      (elim (try_from u32_max value) [ none ↦ none | some n ↦ non_zero n ])

abbrev pub as_record_error {ℓ κ} :
    {E : Type ℓ} {A : Type κ} → Text → Result E A → Result RecordError A
as_record_error e (ok a) = ok a
as_record_error e (err x) = err e

unfoldable pub restore_failure : Text → Result RecordError BatchFailure
restore_failure value = as_record_error (text "INVALID_FAILURE_CODE") (new_failure value)

-- The `match` on the columns read.
unfoldable pub restored :
    Text → Option ℕ → Option BatchFailure → Option Text → Result RecordError BatchJobState
restored state none none none =
    if text_eq state (text "accepted")
    then ok BatchJobState.accepted
    else err (text "INVALID_STATE_SNAPSHOT")
restored state (some attempt) none none =
    if text_eq state (text "submitting")
    then ok (BatchJobState.submitting attempt)
    else if text_eq state (text "completed")
    then ok (BatchJobState.completed attempt)
    else err (text "INVALID_STATE_SNAPSHOT")
restored state (some attempt) (some failure) none =
    if text_eq state (text "retryable")
    then ok (BatchJobState.retryable attempt failure)
    else if text_eq state (text "failed")
    then ok (BatchJobState.failed attempt failure)
    else err (text "INVALID_STATE_SNAPSHOT")
restored state (some attempt) (some failure) (some reason) =
    if text_eq state (text "outcome_unknown") && text_eq reason (text "submission")
    then ok (BatchJobState.outcome_unknown attempt (submission failure))
    else err (text "INVALID_STATE_SNAPSHOT")
restored state (some attempt) none (some reason) =
    if text_eq state (text "outcome_unknown") && text_eq reason (text "interrupted_submission")
    then ok (BatchJobState.outcome_unknown attempt interrupted_submission)
    else err (text "INVALID_STATE_SNAPSHOT")
restored state attempt failure reason = err (text "INVALID_STATE_SNAPSHOT")

unfoldable pub restore_state : StateColumns → Result RecordError BatchJobState
unfolding restore_attempt restore_failure restored
restore_state (state, attempt, failure_code, unknown_reason) =
    and_then (transpose restore_attempt attempt)
      λ a. and_then (transpose restore_failure failure_code) λ f. restored state a f unknown_reason

-- A failure that `BatchFailure::new` can have made.
abbrev pub IsFailure : BatchFailure → Type 0
IsFailure f = IsIdentity f.code × (byte_len f.code ≤ max_code_bytes)

abbrev pub IsAttempt : ℕ → Type 0
IsAttempt n = (0 < n) × (n ≤ u32_max)

-- A state that its type can hold: a `NonZeroU32` attempt and a validated failure.
abbrev pub IsState : BatchJobState → Type 0
IsState BatchJobState.accepted = Unit {0}
IsState (BatchJobState.submitting n) = IsAttempt n
IsState (BatchJobState.retryable n f) = IsAttempt n × IsFailure f
IsState (BatchJobState.completed n) = IsAttempt n
IsState (BatchJobState.failed n f) = IsAttempt n × IsFailure f
IsState (BatchJobState.outcome_unknown n (submission f)) = IsAttempt n × IsFailure f
IsState (BatchJobState.outcome_unknown n interrupted_submission) = IsAttempt n

attempt_back : (n : ℕ) → IsAttempt n → restore_attempt (pos n) ≡ ok n
unfolding restore_attempt
attempt_back n h = ground arith

failure_back : (f : BatchFailure) → IsFailure f → restore_failure f.code ≡ ok f
unfolding restore_failure
failure_back f h = rw ((new_failure_iff f.code f).1 (h.0, h.1, refl)) refl

pub restore-flatten : (s : BatchJobState) → IsState s → restore_state (flatten_state s) ≡ ok s
unfolding restore_state flatten_state restored text_eq and_then
restore-flatten BatchJobState.accepted h = refl
restore-flatten (BatchJobState.submitting n) h = rw (attempt_back n h) refl
restore-flatten (BatchJobState.retryable n f) h = rw (attempt_back n h.0, failure_back f h.1) refl
restore-flatten (BatchJobState.completed n) h = rw (attempt_back n h) refl
restore-flatten (BatchJobState.failed n f) h = rw (attempt_back n h.0, failure_back f h.1) refl
restore-flatten (BatchJobState.outcome_unknown n (submission f)) h =
    rw (attempt_back n h.0, failure_back f h.1) refl
restore-flatten (BatchJobState.outcome_unknown n interrupted_submission) h =
    rw (attempt_back n h) refl

-- The predicate holds of the value, if there is one.
abbrev OptAll {ℓ} : {A : Type ℓ} → (A → Type 0) → Option A → Type 0
OptAll P none = Unit {0}
OptAll P (some a) = P a

IsAttempt-read :
    (o : Option ℤ) (a : Option ℕ)
    → transpose restore_attempt o ≡ ok a
    → (o ≡ Option.map pos a) × OptAll IsAttempt a
unfolding restore_attempt
IsAttempt-read none a h = ground arith
IsAttempt-read (some (pos n)) a h = ground arith
IsAttempt-read (some (negsuc n)) a h = ground arith

IsFailure-made :
    (t : Text) (f : BatchFailure) → restore_failure t ≡ ok f → (t ≡ f.code) × IsFailure f
unfolding restore_failure
IsFailure-made t f h = ground (arith, new_failure_iff t f)

IsFailure-read :
    (o : Option Text) (f : Option BatchFailure)
    → transpose restore_failure o ≡ ok f
    → (o ≡ Option.map (λ x. x.code) f) × OptAll IsFailure f
IsFailure-read none f h = ground arith
IsFailure-read (some t) none h = elim (Result-cases (restore_failure t)) [
  | inl (x, e) ↦ absurd (ground arith)
  | inr (x, e) ↦ absurd (ground arith)
]
IsFailure-read (some t) (some f) h = ground (arith, IsFailure-made t f)

restored_read :
    (state : Text) (a : Option ℕ) (f : Option BatchFailure) (reason : Option Text)
    (s : BatchJobState)
    → OptAll IsAttempt a
    → OptAll IsFailure f
    → restored state a f reason ≡ ok s
    → (flatten_state s ≡ (state, Option.map pos a, Option.map (λ x. x.code) f, reason)) × IsState s
unfolding flatten_state restored
restored_read state none none none s p q h = ground (arith, text_eq_iff state (text "accepted"))
restored_read state (some n) none none s p q h =
    ground (arith, text_eq_iff state (text "submitting"), text_eq_iff state (text "completed"))
restored_read state (some n) (some f) none s p q h =
    ground (arith, text_eq_iff state (text "retryable"), text_eq_iff state (text "failed"))
restored_read state (some n) (some f) (some r) s p q h =
    ground (arith, text_eq_iff state (text "outcome_unknown"), text_eq_iff r (text "submission"))
restored_read state (some n) none (some r) s p q h = ground (
  arith,
  text_eq_iff state (text "outcome_unknown"),
  text_eq_iff r (text "interrupted_submission"),
)
restored_read state none (some f) reason s p q h = ground arith
restored_read state none none (some r) s p q h = ground arith

flatten-restore :
    (c : StateColumns) (s : BatchJobState)
    → restore_state c ≡ ok s
    → (flatten_state s ≡ c) × IsState s
unfolding restore_state
flatten-restore (state, a, f, r) s h =
    let (n, ea, h1) = and_then-ok (transpose restore_attempt a) _ s h in
    let (x, ef, h2) = and_then-ok (transpose restore_failure f) _ s h1 in
    let (ka, pa) = IsAttempt-read a n ea in
    let (kf, pf) = IsFailure-read f x ef in rw (ka, kf) (restored_read state n x r s pa pf h2)

-- The state columns hold a state exactly if they are those that it is written as, and it is one that
-- its type can hold: an attempt from 1 to 2^32 - 1 and an unambiguous failure code of at most 128
-- bytes. So each state is read back as it was written, and no other columns are read.
pub restore_state_iff :
    (c : StateColumns) (s : BatchJobState)
    → (restore_state c ≡ ok s) ↔ ((flatten_state s ≡ c) × IsState s)
restore_state_iff c s =
    (flatten-restore c s, λ (e, v). subst (λ d. restore_state d ≡ ok s) e (restore-flatten s v))
