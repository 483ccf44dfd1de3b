-- ===== src/Records/RoundTrip.antt =====
-- A snapshot that is written to a row and read from it: storage/records.rs in both directions.
use mathlib.Core.Option
use mathlib.Core.Path.{subst}
use voicetext_gateway.Prelude.{
  is_some, ℕ, ◌≤◌, ◌≡◌, refl, sym, ap, List, Option, none, some, Text, text, Result, ok,
  and_then_into, and_then_bound, ok_injective, ok_or_err, ok_or_err-ok, transpose, some_ok,
  some_ok-ok, length, ℤ, try_from, i64_max, u16_max, u64_max, arith, text_eq_iff,
}
use voicetext_gateway.Job.{BatchJobState, restore}
use voicetext_gateway.Batch.Models.{ProviderReference, BatchRecognitionResult, BatchJobSnapshot}
use voicetext_gateway.Records.Checks.{
  RecordError, validate_handle, validate_reference, validate_result_presence, validate_retry_after,
}
use voicetext_gateway.Records.State.{as_record_error, restore-flatten}
use voicetext_gateway.Records.Results.{
  Json, serialize_result, restore_text, restore_result, compatible_result_text,
}
use voicetext_gateway.Records.Rows.{
  Uuids, JobRecord, reference, into_signed, restore_retry_after, as_fingerprint, told_reference,
  canonical_uuid, read_record, write_record, value_of,
}
use voicetext_gateway.Records.Laws.{
  JsonLaws, IsSnapshot, forget_kind, forget_result, forgotten, refuse_passed, signed_back,
  serialized, restore-serialize,
}

reference_back :
    (o : Option ProviderReference)
    → validate_reference o ≡ ok tt
    → reference (Option.map (λ v. v.id) o) ≡ ok (Option.map forget_kind o)
unfolding reference validate_reference
reference_back none h = and_then_into _ h refl
reference_back (some p) h = and_then_into _ h refl

fingerprint_back : (b : List ℕ) → length b ≡ 32 → as_fingerprint b ≡ ok b
unfolding as_fingerprint
fingerprint_back b h = ground arith

signed_read :
    (e : RecordError) (n : ℕ) (z : ℤ)
    → ok_or_err e (into_signed i64_max n) ≡ ok z
    → ok_or_err e (try_from u64_max z) ≡ ok n
signed_read e n z h =
    ap (ok_or_err e) (signed_back i64_max u64_max n z (omega arith) (ok_or_err-ok e _ z h)).1

unsigned_back :
    (big top n : ℕ) (z : ℤ)
    → top ≤ big
    → ok_or_err (text "INVALID_CONTRACT_VERSION") (into_signed top n) ≡ ok z
    → ok_or_err (text "INVALID_CONTRACT_VERSION") (try_from big z) ≡ ok n
unsigned_back big top n z l h =
    ap (ok_or_err (text "INVALID_CONTRACT_VERSION"))
      (signed_back top big n z l (ok_or_err-ok _ _ z h)).1

delay_back :
    (e : RecordError) (o : Option ℕ) (z : Option ℤ)
    → transpose (λ v. ok_or_err e (into_signed i64_max v)) o ≡ ok z
    → transpose (λ v. ok_or_err e (try_from u64_max v)) z ≡ ok o
delay_back e none z h =
    let k : none ≡ z = cc in
    subst (λ y. transpose (λ v. ok_or_err e (try_from u64_max v)) y ≡ ok none) k refl
delay_back e (some n) z h =
    let (x, k, zx) = some_ok-ok (ok_or_err e (into_signed i64_max n)) z h in
    subst (λ y. transpose (λ v. ok_or_err e (try_from u64_max v)) y ≡ ok (some n)) (sym zx)
      (ap some_ok (signed_read e n x k))

retry_back :
    (s : BatchJobState) (o : Option ℕ) (z : Option ℤ)
    → validate_retry_after s o ≡ ok tt
    → transpose (λ v. ok_or_err (text "INVALID_RETRY_AFTER") (into_signed i64_max v)) o ≡ ok z
    → restore_retry_after s z ≡ ok o
unfolding restore_retry_after
retry_back s o z h k = and_then_into _ (delay_back _ o z k) (and_then_into _ h refl)

presence_back :
    {A B : Type 0} (f : A → Result RecordError B) (o : Option A) (t : Option B)
    → transpose f o ≡ ok t
    → is_some t ≡ is_some o
presence_back f none t h = cc
presence_back f (some a) t h = let (b, _, e) = some_ok-ok (f a) t h in ap is_some e

module _ {V : Type 0} (json : Json V) (laws : JsonLaws json) where
  value_back :
      (t : Option Text) (v : Option V)
      → transpose (value_of json) t ≡ ok v
      → compatible_result_text json v t ≡ ok t
  unfolding compatible_result_text value_of
  value_back none v h =
      let k : none ≡ v = cc in subst (λ y. compatible_result_text json y none ≡ ok none) k refl
  value_back (some t) v h =
      let (x, k, e) = some_ok-ok (value_of json t) v h in
      subst (λ y. compatible_result_text json y (some t) ≡ ok (some t)) (sym e)
        (and_then_into _ k (rw (laws.value_eq_refl t x (ok_or_err-ok _ _ x k)) refl))

  result_back :
      (s : BatchJobSnapshot) (o : Option BatchRecognitionResult) (t : Option Text)
      → transpose (serialize_result json s) o ≡ ok t
      → restore_result json t s.job.profile s.authoritative_duration_millis
          (Option.map forget_kind s.provider_reference)
        ≡ ok (Option.map forget_result o)
  unfolding restore_result
  result_back s none t h =
      let k : none ≡ t = cc in
      subst
        (λ y.
          restore_result json y s.job.profile s.authoritative_duration_millis
            (Option.map forget_kind s.provider_reference)
          ≡ ok none)
        k refl
  result_back s (some r) t h =
      let (x, k, e) = some_ok-ok (serialize_result json s r) t h in
      let (_, _, same, _, _, _) = serialized json laws s r x k in
      let back =
        ap some_ok
          (restore-serialize json laws s r x (Option.map forget_kind r.provider_reference) k) in
      subst
        (λ y.
          restore_result json y s.job.profile s.authoritative_duration_millis
            (Option.map forget_kind s.provider_reference)
          ≡ ok (some (forget_result r)))
        (sym e)
        (subst
          (λ p.
            some_ok (
              restore_text json s.job.profile s.authoritative_duration_millis
                (Option.map forget_kind p) x)
            ≡ ok (some (forget_result r)))
          same back)

  told_back :
      (s : BatchJobSnapshot) (o : Option BatchRecognitionResult) (t : Option Text)
      → transpose (serialize_result json s) o ≡ ok t
      → told_reference (Option.map forget_result o) (Option.map forget_kind s.provider_reference)
        ≡ Option.map forget_kind s.provider_reference
  told_back s none t h = refl
  told_back s (some r) t h =
      let (x, k, e) = some_ok-ok (serialize_result json s r) t h in
      let (_, _, same, _, _, _) = serialized json laws s r x k in ap (Option.map forget_kind) same

  presence_kept :
      (s : BatchJobState) (o : Option BatchRecognitionResult) (t : Option Text)
      (p : BatchJobSnapshot)
      → transpose (serialize_result json p) o ≡ ok t
      → validate_result_presence s (is_some t) ≡ ok tt
      → validate_result_presence s (is_some (Option.map forget_result o)) ≡ ok tt
  presence_kept s none t p h k =
      subst (λ b. validate_result_presence s b ≡ ok tt)
        (presence_back (serialize_result json p) none t h) k
  presence_kept s (some r) t p h k =
      subst (λ b. validate_result_presence s b ≡ ok tt)
        (presence_back (serialize_result json p) (some r) t h) k

  module _ {U : Type 0} (uuids : Uuids U) where
    canonical_back :
        (t : Text) (u : U) → canonical_uuid uuids json t ≡ ok u → uuids.hyphenated u ≡ t
    unfolding canonical_uuid
    canonical_back t u h = and_then_bound h λ a e k. and_then_bound k λ b x l.
        let passed = refuse_passed _ _ b x in
        let same = ok_injective a u l in
        subst (λ y. uuids.hyphenated y ≡ t) same
          (ground (arith, text_eq_iff (uuids.hyphenated a) t))

    -- If the JSON library reads back what it printed, and a snapshot has what the types of its
    -- fields guarantee, then the row that it is written to is read back as that snapshot, less the
    -- kinds of provider operation, which no column keeps.
    pub read-write :
        (s : BatchJobSnapshot) (w : JobRecord U V)
        → IsSnapshot s
        → write_record uuids json s ≡ ok w
        → read_record uuids json w ≡ ok (forgotten s)
    unfolding write_record read_record restore
    read-write s w v h = and_then_bound h λ id h_id h1. and_then_bound h1 λ a h_handle h2.
        and_then_bound h2 λ b h_profile h3. and_then_bound h3 λ c h_keyterms h4.
          and_then_bound h4 λ d h_reference h5. and_then_bound h5 λ e h_retry h6.
            and_then_bound h6 λ t h_text h7. and_then_bound h7 λ f h_presence h8.
              and_then_bound h8 λ j h_json h9. and_then_bound h9 λ version h_version h10.
                and_then_bound h10 λ duration h_duration h11.
                  and_then_bound h11 λ terms h_terms h12. and_then_bound h12 λ delay h_delay h13.
                    and_then_bound h13 λ revision h_revision h14.
                      subst (λ y. read_record uuids json y ≡ ok (forgotten s))
                        (ok_injective _ w h14)
                        (and_then_into _ (unsigned_back u16_max _ _ _ (omega arith) h_version) (
                          and_then_into _ (ap (as_record_error (text "INVALID_PROFILE")) v.profile)
                            (and_then_into _ h_profile (
                              and_then_into _ (fingerprint_back s.job.fingerprint v.fingerprint) (
                                and_then_into _
                                  (subst (λ y. validate_handle s.audio y ≡ ok a)
                                    (sym (canonical_back s.id id h_id)) h_handle)
                                  (and_then_into _ (signed_read _ _ duration h_duration) (
                                    and_then_into _
                                      (ap (ok_or_err (text "INVALID_KEYTERMS")) (
                                        laws.keyterms_back s.keyterms terms
                                          (ok_or_err-ok _ _ terms h_terms)))
                                      (and_then_into _ h_keyterms (
                                        and_then_into _
                                          (reference_back s.provider_reference h_reference)
                                          (and_then_into _ (restore-flatten s.job.state v.state) (
                                            and_then_into _ (value_back t j h_json) (
                                              and_then_into _ (result_back s s.result t h_text) (
                                                and_then_into _
                                                  (presence_kept s.job.state s.result t s h_text
                                                    h_presence)
                                                  (and_then_into _
                                                    (retry_back s.job.state s.retry_after_millis
                                                      delay h_retry h_delay)
                                                    (and_then_into _
                                                      (signed_read _ _ revision h_revision)
                                                      (rw
                                                        (
                                                          canonical_back s.id id h_id,
                                                          told_back s s.result t h_text,
                                                        )
                                                        refl))))))))))))))))
