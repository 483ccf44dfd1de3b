-- ===== src/Records/Checks.antt =====
-- The field checks of crates/voicetext-gateway/src/storage/records.rs. A `RecordError` is the text
-- that it wraps.
use voicetext_gateway.Prelude.{
  ℕ, ◌+◌, Bool, true, false, not, ◌&&◌, ◌||◌, List, [], ◌∷◌, ◌++◌, Option, none, some, Text, text,
  Result, ok, err, and_then, ltb, leb, ◌==◌, if◌then◌else◌, length, is_empty, all, any, is_control,
  trim, text_eq, byte_len, checked, u64_max, strip_prefix, strip_suffix, ok_or_err, is_some,
}
use voicetext_gateway.Job.{BatchProfile, BatchJobState}
use voicetext_gateway.Batch.Models.{ProviderReference}

abbrev pub RecordError : Type 0
RecordError = Text

abbrev pub Check : Type 0
Check = Result RecordError (Unit {0})

abbrev pub max_keyterms : ℕ
max_keyterms = 100

abbrev pub max_keyterm_bytes : ℕ
max_keyterm_bytes = 256

abbrev pub max_keyterms_bytes : ℕ
max_keyterms_bytes = 16384

abbrev pub max_provider_reference_bytes : ℕ
max_provider_reference_bytes = 256

abbrev pub max_profile_field_bytes : ℕ
max_profile_field_bytes = 256

abbrev pub max_retry_after_millis : ℕ
max_retry_after_millis = 3600000

abbrev pub max_serialized_result_bytes : ℕ
max_serialized_result_bytes = 33554432

-- An early return with the error, when the test holds.
abbrev pub refuse : Bool → RecordError → Check
refuse bad e = if bad then err e else ok tt

unfoldable pub is_lower_hex : ℕ → Bool
is_lower_hex byte = (leb 48 byte && leb byte 57) || (leb 97 byte && leb byte 102)

bad_digest : Text → Bool
unfolding is_lower_hex
bad_digest digest = not (byte_len digest == 64) || not (all is_lower_hex digest)

handle_digest : Text → Text → Option Text
handle_digest handle job_id = elim (strip_prefix (job_id ++ text "-") handle) [
  | none ↦ none
  | some value ↦ strip_suffix (text ".ogg") value
]

unfoldable pub validate_handle : Text → Text → Check
unfolding bad_digest handle_digest
validate_handle handle job_id =
    and_then (ok_or_err (text "INVALID_AUDIO_HANDLE") (handle_digest handle job_id))
      λ digest. refuse (bad_digest digest) (text "INVALID_AUDIO_HANDLE")

unfoldable pub bad_keyterm : Text → Bool
bad_keyterm keyterm =
    is_empty keyterm
    || ltb max_keyterm_bytes (byte_len keyterm)
    || not (text_eq (trim keyterm) keyterm)
    || any is_control keyterm

-- The loop over the keyterms, with the bytes counted so far.
unfoldable pub total_keyterms : ℕ → List Text → Result RecordError ℕ
total_keyterms total [] = ok total
total_keyterms total (keyterm ∷ keyterms) =
    if bad_keyterm keyterm
    then err (text "INVALID_KEYTERMS")
    else (and_then
        (ok_or_err (text "INVALID_KEYTERMS") (checked u64_max (total + byte_len keyterm)))
        λ n. total_keyterms n keyterms)

unfoldable pub validate_keyterms : List Text → Check
validate_keyterms keyterms =
    and_then (refuse (ltb max_keyterms (length keyterms)) (text "INVALID_KEYTERMS")) λ _.
      and_then (total_keyterms 0 keyterms)
        λ total. refuse (ltb max_keyterms_bytes total) (text "INVALID_KEYTERMS")

unfoldable pub validate_profile : BatchProfile → Check
validate_profile profile =
    refuse
      (any (λ value. ltb max_profile_field_bytes (byte_len value))
        (profile.provider ∷ profile.model ∷ profile.language ∷ []))
      (text "INVALID_PROFILE")

-- `(0x20..=0x7e).contains(&byte)`
is_graphic : ℕ → Bool
is_graphic byte = leb 0x20 byte && leb byte 0x7e

unfoldable pub validate_reference : Option ProviderReference → Check
unfolding is_graphic
validate_reference none = ok tt
validate_reference (some value) =
    refuse
      (is_empty value.id
        || ltb max_provider_reference_bytes (byte_len value.id)
        || not (all is_graphic value.id))
      (text "INVALID_PROVIDER_REFERENCE")

unfoldable pub bounded_json : Text → Check
bounded_json value =
    refuse (ltb max_serialized_result_bytes (byte_len value)) (text "RESULT_TOO_LARGE")

-- `matches!(state, BatchJobState::Completed { .. })`
abbrev pub is_completed : BatchJobState → Bool
is_completed (BatchJobState.completed n) = true
is_completed _ = false

-- `matches!(state, BatchJobState::Retryable { .. })`
abbrev pub is_retryable : BatchJobState → Bool
is_retryable (BatchJobState.retryable n f) = true
is_retryable _ = false

abbrev differ : Bool → Bool → Bool
differ true b = not b
differ _ b = b

unfoldable pub validate_result_presence : BatchJobState → Bool → Check
validate_result_presence state has_result =
    refuse (differ (is_completed state) has_result) (text "INVALID_RESULT_STATE")

abbrev too_long : Option ℕ → Bool
too_long none = false
too_long (some value) = ltb max_retry_after_millis value

unfoldable pub validate_retry_after : BatchJobState → Option ℕ → Check
validate_retry_after state retry_after_millis =
    refuse (too_long retry_after_millis || (not (is_retryable state) && is_some retry_after_millis))
      (text "INVALID_RETRY_AFTER")
