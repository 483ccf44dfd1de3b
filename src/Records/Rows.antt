-- ===== src/Records/Rows.antt =====
-- The rows of crates/voicetext-gateway/src/storage/records.rs, read and written. The columns of a row
-- are numbers, texts and JSON values; the libraries for UUIDs and JSON are parameters.
use mathlib.Core.Option
use voicetext_gateway.Prelude.{
  is_some, ℕ, ◌==◌, not, List, Option, none, some, Text, text, Result, ok, err, and_then, ok_or_err,
  transpose, if◌then◌else◌, length, text_eq, ℤ, pos, try_from, checked, i16_max, i64_max, u16_max,
  u64_max,
}
use voicetext_gateway.Job.{BatchJobState, restore}
use voicetext_gateway.Job.Profile.{new_profile}
use voicetext_gateway.Batch.Models.{ProviderReference, BatchRecognitionResult, BatchJobSnapshot}
use voicetext_gateway.Records.Checks.{
  RecordError, refuse, validate_handle, validate_keyterms, validate_profile, validate_reference,
  validate_result_presence, validate_retry_after,
}
use voicetext_gateway.Records.State.{flatten_state, restore_state, as_record_error}
use voicetext_gateway.Records.Results.{
  Json, serialize_result, restore_result, compatible_result_text,
}

-- The functions of `uuid::Uuid` that the mapping calls.
pub record Uuids (U : Type 0) : Type 0 where
  pub parse_str : Text → Option U
  pub hyphenated : U → Text

pub record JobRecord (U V : Type 0) : Type 0 where
  pub job_id : U
  pub contract_version : ℤ
  pub provider : Text
  pub model : Text
  pub language : Text
  pub fingerprint : List ℕ
  pub audio_handle : Text
  pub authoritative_duration_millis : ℤ
  pub keyterms : V
  pub state : Text
  pub attempt : Option ℤ
  pub failure_code : Option Text
  pub unknown_reason : Option Text
  pub provider_reference : Option Text
  pub retry_after_millis : Option ℤ
  pub result_json : Option V
  pub result_text : Option Text
  pub revision : ℤ

-- `WritableRecord` has the same columns; the states that it names are static texts.
abbrev pub WritableRecord : Type 0 → Type 0 → Type 0
WritableRecord U V = JobRecord U V

unfoldable pub reference : Option Text → Result RecordError (Option ProviderReference)
reference value =
    let reference = Option.map (λ id. record { id = id; operation_kind = none }) value in
    and_then (validate_reference reference) λ _. ok reference

-- `i16::try_from` and `i64::try_from` of an unsigned number.
abbrev pub into_signed : ℕ → ℕ → Option ℤ
into_signed top n = Option.map pos (checked top n)

unfoldable pub restore_retry_after : BatchJobState → Option ℤ → Result RecordError (Option ℕ)
restore_retry_after state value =
    and_then (transpose (λ v. ok_or_err (text "INVALID_RETRY_AFTER") (try_from u64_max v)) value)
      λ millis. and_then (validate_retry_after state millis) λ _. ok millis

-- `if let Some(result) = &result { provider_reference.clone_from(&result.provider_reference) }`
abbrev pub told_reference :
    Option BatchRecognitionResult → Option ProviderReference → Option ProviderReference
told_reference none reference = reference
told_reference (some result) reference = result.provider_reference

-- `try_into` for a `[u8; 32]`
unfoldable pub as_fingerprint : List ℕ → Result RecordError (List ℕ)
as_fingerprint bytes = if length bytes == 32 then ok bytes else err (text "INVALID_FINGERPRINT")

-- `serde_json::from_str` on the result's own text
unfoldable pub value_of : {V : Type 0} → Json V → Text → Result RecordError V
value_of json value = ok_or_err (text "INVALID_RESULT_JSON") (json.value_from_str value)

module _ {U V : Type 0} (uuids : Uuids U) (json : Json V) where
  unfoldable pub canonical_uuid : Text → Result RecordError U
  canonical_uuid value =
      and_then (ok_or_err (text "INVALID_JOB_ID") (uuids.parse_str value)) λ uuid.
        and_then (refuse (not (text_eq (uuids.hyphenated uuid) value)) (text "INVALID_JOB_ID"))
          λ _. ok uuid

  -- `BatchJobSnapshot::try_from`
  unfoldable pub read_record : JobRecord U V → Result RecordError BatchJobSnapshot
  unfolding as_fingerprint reference restore_retry_after restore
  read_record r =
      let id = uuids.hyphenated r.job_id in
      and_then (ok_or_err (text "INVALID_CONTRACT_VERSION") (try_from u16_max r.contract_version))
        λ contract_version.
          and_then
            (as_record_error (text "INVALID_PROFILE")
              (new_profile contract_version r.provider r.model r.language))
            λ profile. and_then (validate_profile profile) λ _.
              and_then (as_fingerprint r.fingerprint) λ fingerprint.
                and_then (validate_handle r.audio_handle id) λ _.
                  and_then
                    (ok_or_err (text "INVALID_DURATION")
                      (try_from u64_max r.authoritative_duration_millis))
                    λ duration.
                      and_then
                        (ok_or_err (text "INVALID_KEYTERMS") (json.keyterms_from_value r.keyterms))
                        λ keyterms. and_then (validate_keyterms keyterms) λ _.
                          and_then (reference r.provider_reference) λ provider_reference.
                            and_then
                              (restore_state (r.state, r.attempt, r.failure_code, r.unknown_reason))
                              λ state.
                                and_then (compatible_result_text json r.result_json r.result_text)
                                  λ value.
                                    and_then
                                      (restore_result json value profile duration
                                        provider_reference)
                                      λ result.
                                        and_then (validate_result_presence state (is_some result))
                                          λ _.
                                            and_then
                                              (restore_retry_after state r.retry_after_millis)
                                              λ retry_after_millis.
                                                and_then
                                                  (ok_or_err (text "INVALID_REVISION")
                                                    (try_from u64_max r.revision))
                                                  λ revision. ok (record {
                                                    id = id;
                                                    job = restore profile fingerprint state;
                                                    audio = r.audio_handle;
                                                    authoritative_duration_millis = duration;
                                                    keyterms = keyterms;
                                                    provider_reference =
                                                        told_reference result provider_reference;
                                                    retry_after_millis = retry_after_millis;
                                                    result = result;
                                                    revision = revision;
                                                  })

  -- `WritableRecord::try_from`
  unfoldable pub write_record : BatchJobSnapshot → Result RecordError (WritableRecord U V)
  unfolding canonical_uuid value_of
  write_record s = and_then (canonical_uuid s.id) λ job_id.
      and_then (validate_handle s.audio s.id) λ _. and_then (validate_profile s.job.profile) λ _.
        and_then (validate_keyterms s.keyterms) λ _.
          and_then (validate_reference s.provider_reference) λ _.
            and_then (validate_retry_after s.job.state s.retry_after_millis) λ _.
              let (state, attempt, failure_code, unknown_reason) = flatten_state s.job.state in
              and_then (transpose (serialize_result json s) s.result) λ result_text.
                and_then (validate_result_presence s.job.state (is_some result_text)) λ _.
                  and_then (transpose (value_of json) result_text) λ result_json.
                    and_then
                      (ok_or_err (text "INVALID_CONTRACT_VERSION")
                        (into_signed i16_max s.job.profile.contract_version))
                      λ contract_version.
                        and_then
                          (ok_or_err (text "INVALID_DURATION")
                            (into_signed i64_max s.authoritative_duration_millis))
                          λ duration.
                            and_then
                              (ok_or_err (text "INVALID_KEYTERMS")
                                (json.keyterms_to_value s.keyterms))
                              λ keyterms.
                                and_then
                                  (transpose
                                    (λ v.
                                      ok_or_err (text "INVALID_RETRY_AFTER")
                                        (into_signed i64_max v))
                                    s.retry_after_millis)
                                  λ retry_after_millis.
                                    and_then
                                      (ok_or_err (text "INVALID_REVISION")
                                        (into_signed i64_max s.revision))
                                      λ revision. ok (record {
                                        job_id = job_id;
                                        contract_version = contract_version;
                                        provider = s.job.profile.provider;
                                        model = s.job.profile.model;
                                        language = s.job.profile.language;
                                        fingerprint = s.job.fingerprint;
                                        audio_handle = s.audio;
                                        authoritative_duration_millis = duration;
                                        keyterms = keyterms;
                                        state = state;
                                        attempt = attempt;
                                        failure_code = failure_code;
                                        unknown_reason = unknown_reason;
                                        provider_reference =
                                            Option.map (λ v. v.id) s.provider_reference;
                                        retry_after_millis = retry_after_millis;
                                        result_json = result_json;
                                        result_text = result_text;
                                        revision = revision;
                                      })
