-- ===== src/Records/Stored.antt =====
-- What a row that is read is known to hold, and which results of the coordinator the rows can hold.
use mathlib.Core.Path.{subst}
use voicetext_gateway.Prelude.{
  is_some, ℕ, ◌+◌, ◌≤◌, ◌≡◌, refl, Bool, true, false, List, [], ◌∷◌, Option, none, some, Text, ok,
  and_then, and_then_bound, ok_injective, some_ok-ok, length, All, byte_len, arith,
}
use voicetext_gateway.Job.{BatchJobState, BatchProfile, restore}
use voicetext_gateway.Batch.Models.{BatchRecognitionResult, BatchJobSnapshot, ProviderReference}
use voicetext_gateway.Records.Checks.{
  is_completed, is_retryable, validate_keyterms, validate_result_presence, validate_retry_after,
  total_keyterms, bad_keyterm, max_keyterms, max_keyterms_bytes, max_retry_after_millis,
}
use voicetext_gateway.Records.State.{IsState, restore_state_iff}
use voicetext_gateway.Records.Results.{
  Json, batch_result, restore_text, restore_result, validate_result,
}
use voicetext_gateway.Records.Laws.{refuse_passed}
use voicetext_gateway.Records.Rows.{
  Uuids, JobRecord, restore_retry_after, told_reference, read_record, as_fingerprint, reference,
}

-- Keyterms within the contract: at most 100, each in bounds, of at most 16384 bytes together.
abbrev keyterm_bytes : List Text → ℕ
keyterm_bytes [] = 0
keyterm_bytes (k ∷ ks) = byte_len k + keyterm_bytes ks

abbrev KeytermsBounded : List Text → Type 0
KeytermsBounded ks =
    (length ks ≤ max_keyterms)
    × All (λ k. bad_keyterm k ≡ false) ks
    × (keyterm_bytes ks ≤ max_keyterms_bytes)

-- A delay is kept for a retryable job only, and is at most an hour.
abbrev DelayBounded : BatchJobState → Option ℕ → Type 0
DelayBounded state none = Unit {0}
DelayBounded state (some n) = (is_retryable state ≡ true) × (n ≤ max_retry_after_millis)

-- The result belongs to the snapshot and is within the bounds.
abbrev ResultBelongs :
    BatchProfile → ℕ → Option ProviderReference → Option BatchRecognitionResult → Type 0
ResultBelongs profile duration reference none = Unit {0}
ResultBelongs profile duration reference (some r) =
    (r.profile ≡ profile)
    × (r.duration_millis ≡ duration)
    × (r.provider_reference ≡ reference)
    × (validate_result r ≡ ok tt)

pub record Stored (s : BatchJobSnapshot) : Type 0 where
  pub state : IsState s.job.state
  pub fingerprint : length s.job.fingerprint ≡ 32
  pub keyterms : KeytermsBounded s.keyterms
  pub presence : is_some s.result ≡ is_completed s.job.state
  pub delay : DelayBounded s.job.state s.retry_after_millis
  pub result :
      ResultBelongs s.job.profile s.authoritative_duration_millis s.provider_reference s.result

total_keyterms_sound :
    (n m : ℕ) (ks : List Text)
    → total_keyterms n ks ≡ ok m
    → All (λ k. bad_keyterm k ≡ false) ks × (m ≡ n + keyterm_bytes ks)
unfolding total_keyterms and_then
total_keyterms_sound n m [] h = ground arith
total_keyterms_sound n m (k ∷ ks) h = ground (arith, total_keyterms_sound (n + byte_len k) m ks)

keyterms_bounded : (ks : List Text) → validate_keyterms ks ≡ ok tt → KeytermsBounded ks
unfolding validate_keyterms
keyterms_bounded ks h = and_then_bound h λ a few h1. and_then_bound h1 λ n total h2.
    let (good, sum) = total_keyterms_sound 0 n ks total in (ground arith, good, ground arith)

presence_kept :
    (s : BatchJobState) (b : Bool) → validate_result_presence s b ≡ ok tt → b ≡ is_completed s
unfolding validate_result_presence
presence_kept s b h = ground arith

delay_bounded :
    (s : BatchJobState) (o : Option ℕ) → validate_retry_after s o ≡ ok tt → DelayBounded s o
unfolding validate_retry_after
delay_bounded s none h = tt
delay_bounded s (some n) h = ground arith

fingerprint_length : (a b : List ℕ) → as_fingerprint a ≡ ok b → length b ≡ 32
unfolding as_fingerprint
fingerprint_length a b h = ground arith

delay_read :
    (s : BatchJobState) (z : Option _) (o : Option ℕ)
    → restore_retry_after s z ≡ ok o
    → DelayBounded s o
unfolding restore_retry_after
delay_read s z o h = and_then_bound h λ m read h1.
    and_then_bound h1
      λ u valid h2. subst (λ x. DelayBounded s x) (ok_injective m o h2) (delay_bounded s m valid)

module _ {V : Type 0} (json : Json V) where
  -- A result that is read belongs to the profile, duration and reference that it is read for.
  result_read :
      (p : BatchProfile) (d : ℕ) (o : Option ProviderReference) (t : Text)
      (r : BatchRecognitionResult)
      → restore_text json p d o t ≡ ok r
      → (r.profile ≡ p)
        × (r.duration_millis ≡ d)
        × (r.provider_reference ≡ o)
        × (validate_result r ≡ ok tt)
  unfolding restore_text
  result_read p d o t r h = and_then_bound h λ a bounded h1. and_then_bound h1 λ c parsed h2.
      and_then_bound h2 λ b same h3. and_then_bound h3 λ u valid h4.
        let e = ok_injective (batch_result p o c) r h4 in
        let duration : c.duration_millis ≡ d = ground (arith, refuse_passed _ _ b same) in
        subst
          (λ x.
            (x.profile ≡ p)
            × (x.duration_millis ≡ d)
            × (x.provider_reference ≡ o)
            × (validate_result x ≡ ok tt))
          e (refl, duration, refl, valid)

  result_belongs :
      (p : BatchProfile) (d : ℕ) (told : Option ProviderReference)
      (o : Option BatchRecognitionResult) (value : Option Text)
      → restore_result json value p d told ≡ ok o
      → ResultBelongs p d (told_reference o told) o
  unfolding restore_result
  result_belongs p d told none value h = tt
  result_belongs p d told (some r) none h = cc
  result_belongs p d told (some r) (some t) h =
      let (x, read, same) = some_ok-ok (restore_text json p d told t) (some r) h in
      let k : x ≡ r = cc in
      let (profile, duration, _, valid) =
        result_read p d told t r (subst (λ y. restore_text json p d told t ≡ ok y) k read) in
      (profile, duration, refl, valid)

  module _ {U : Type 0} (uuids : Uuids U) where
    -- A snapshot that is read from a row, whatever the row holds, has a state that its type allows,
    -- a fingerprint of 32 bytes, at most 100 keyterms within their bounds, a result exactly if it
    -- is completed, which then bears its profile, duration and reference and passes the validation,
    -- and a delay only if it is retryable, of at most an hour.
    pub read-Stored :
        (r : JobRecord U V) (s : BatchJobSnapshot) → read_record uuids json r ≡ ok s → Stored s
    unfolding read_record restore
    read-Stored r s h = and_then_bound h λ version h_version h1.
        and_then_bound h1 λ profile h_profile h2. and_then_bound h2 λ a h_fields h3.
          and_then_bound h3 λ fingerprint h_fingerprint h4. and_then_bound h4 λ b h_handle h5.
            and_then_bound h5 λ duration h_duration h6. and_then_bound h6 λ terms h_terms h7.
              and_then_bound h7 λ c h_keyterms h8. and_then_bound h8 λ told h_reference h9.
                and_then_bound h9 λ state h_state h10. and_then_bound h10 λ value h_value h11.
                  and_then_bound h11 λ result h_result h12. and_then_bound h12 λ d h_presence h13.
                    and_then_bound h13 λ delay h_delay h14.
                      and_then_bound h14 λ revision h_revision h15.
                        subst Stored (ok_injective _ s h15) (record {
                          state = ((restore_state_iff _ state).0 h_state).1;
                          fingerprint = fingerprint_length r.fingerprint fingerprint h_fingerprint;
                          keyterms = keyterms_bounded terms h_keyterms;
                          presence = presence_kept state (is_some result) h_presence;
                          delay = delay_read state r.retry_after_millis delay h_delay;
                          result = result_belongs profile duration told result value h_result;
                        })
