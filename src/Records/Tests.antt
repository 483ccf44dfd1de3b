-- ===== src/Records/Tests.antt =====
-- Concrete rows, over a JSON library that prints results without segments.
use voicetext_gateway.Prelude.{
  ℕ, ◌≡◌, ◌↔◌, refl, true, List, [], ◌∷◌, Option, none, some, Text, text, ok, pos, and_then,
  text_eq, strip_prefix, strip_suffix, byte_len, trim, is_whitespace, is_control, arith,
}
use voicetext_gateway.Job.{BatchProfile, BatchJobState, restore}
use voicetext_gateway.Batch.Models.{BatchRecognitionResult, BatchJobSnapshot}
use voicetext_gateway.Batch.Validate.{
  valid_result, check_segments as check_answered, next_bytes, segment_fits, readable_valid,
}
use voicetext_gateway.Records.State.{
  StateColumns, flatten_state, restore_state, IsState, restore_state_iff,
}
use voicetext_gateway.Records.Results.{
  Json, SegmentRecord, ReadableRecord, ResultRecord, validate_result, serialize_result,
  reference_eq, check_segments, count_references,
}
use voicetext_gateway.Records.Rows.{Uuids, JobRecord, read_record, write_record, value_of}
use voicetext_gateway.Records.Checks.{
  validate_handle, validate_profile, validate_keyterms, total_keyterms, bad_keyterm,
  validate_reference, validate_retry_after, bounded_json, validate_result_presence,
}
use voicetext_gateway.Job.Profile.{new_profile, profile_eq}
use voicetext_gateway.Records.Laws.{JsonLaws, IsSnapshot, forgotten}
use voicetext_gateway.Records.RoundTrip.{read-write}
use voicetext_gateway.Records.Stored.{Stored, read-Stored}
use voicetext_gateway.Records.Storable.{valid_result_storable}

abbrev printed :
    Text → ℕ → Option ℕ → List SegmentRecord → Option (List ReadableRecord) → Option Text
printed words duration none [] none = some (duration ∷ words)
printed words duration d ss rs = none

abbrev parsed : Text → Option ResultRecord
parsed [] = none
parsed (duration ∷ words) = some (record {
  text = words;
  duration_millis = duration;
  provider_duration_millis = none;
  segments = [];
  readable_segments = none;
})

abbrev json : Json (List Text)
json = record {
  value_from_str = λ t. some (t ∷ []);
  value_to_string = λ v. [];
  value_eq = λ v w. true;
  keyterms_to_value = λ ks. some ks;
  keyterms_from_value = λ v. some v;
  result_to_string = λ r.
      printed r.text r.duration_millis r.provider_duration_millis r.segments r.readable_segments;
  result_from_str = parsed;
}

parsed_back :
    (words : Text) (duration : ℕ) (d : Option ℕ) (ss : List SegmentRecord)
    (rs : Option (List ReadableRecord)) (t : Text)
    → printed words duration d ss rs ≡ some t
    → parsed t
      ≡ some (record {
        text = words;
        duration_millis = duration;
        provider_duration_millis = d;
        segments = ss;
        readable_segments = rs;
      })
parsed_back words duration none [] none [] h = cc
parsed_back words duration none [] none (x ∷ t) h = cc
parsed_back words duration none [] (some rs) t h = cc
parsed_back words duration none (s ∷ ss) rs t h = cc
parsed_back words duration (some d) ss rs t h = cc

json_laws : JsonLaws json
json_laws = record {
  value_eq_refl = λ t v h. refl;
  keyterms_back = λ ks v h. cc;
  result_back = λ r t f h.
      parsed_back r.text r.duration_millis r.provider_duration_millis r.segments r.readable_segments
        t h;
}

abbrev uuids : Uuids Text
uuids = record { parse_str = λ t. some t; hyphenated = λ t. t }

abbrev profile : BatchProfile
profile = record {
  contract_version = 2;
  provider = text "deepgram";
  model = text "nova-3";
  language = text "multi";
}

abbrev bytes : List ℕ
bytes =
    1 ∷ 2 ∷ 3 ∷ 4 ∷ 5 ∷ 6 ∷ 7 ∷ 8 ∷ 9 ∷ 10 ∷ 11 ∷ 12 ∷ 13 ∷ 14 ∷ 15 ∷ 16 ∷ 17 ∷ 18 ∷ 19 ∷ 20 ∷ 21
    ∷ 22 ∷ 23 ∷ 24 ∷ 25 ∷ 26 ∷ 27 ∷ 28 ∷ 29 ∷ 30 ∷ 31 ∷ 32 ∷ []

abbrev silence : BatchRecognitionResult
silence = record {
  profile = profile;
  text = text "";
  duration_millis = 1000;
  provider_duration_millis = none;
  segments = [];
  readable_segments = none;
  provider_reference = none;
}

abbrev finished : BatchJobSnapshot
finished = record {
  id = text "7";
  job = restore profile bytes (BatchJobState.completed 2);
  audio = text "7-0123456789abcdef0123456789abcdef0123456789abcdef0123456789abcdef.ogg";
  authoritative_duration_millis = 1000;
  keyterms = text "tide" ∷ [];
  provider_reference = none;
  retry_after_millis = none;
  result = some silence;
  revision = 4;
}

abbrev row : JobRecord Text (List Text)
row = record {
  job_id = text "7";
  contract_version = pos 2;
  provider = text "deepgram";
  model = text "nova-3";
  language = text "multi";
  fingerprint = bytes;
  audio_handle = text "7-0123456789abcdef0123456789abcdef0123456789abcdef0123456789abcdef.ogg";
  authoritative_duration_millis = pos 1000;
  keyterms = text "tide" ∷ [];
  state = text "completed";
  attempt = some (pos 2);
  failure_code = none;
  unknown_reason = none;
  provider_reference = none;
  retry_after_millis = none;
  result_json = some ((1000 ∷ []) ∷ []);
  result_text = some (1000 ∷ []);
  revision = pos 4;
}

finished_written : write_record uuids json finished ≡ ok row
unfolding write_record restore and_then text_eq validate_handle strip_prefix strip_suffix byte_len
    validate_profile validate_keyterms total_keyterms bad_keyterm trim is_whitespace is_control
    validate_reference validate_retry_after serialize_result profile_eq reference_eq validate_result
    check_segments count_references bounded_json validate_result_presence value_of flatten_state
finished_written = refl

finished_typed : IsSnapshot finished
unfolding restore new_profile text_eq trim is_whitespace is_control
finished_typed = record { profile = refl; fingerprint = refl; state = (omega arith, omega arith) }

read-write_example : read_record uuids json row ≡ ok (forgotten finished)
read-write_example = read-write json json_laws uuids finished row finished_typed finished_written

read-Stored_example : Stored (forgotten finished)
read-Stored_example = read-Stored json uuids row (forgotten finished) read-write_example

restore_state_iff_example :
    let columns : StateColumns = (text "completed", some (pos 2), none, none) in
    (restore_state columns ≡ ok (BatchJobState.completed 2))
    ↔ ((flatten_state (BatchJobState.completed 2) ≡ columns) × IsState (BatchJobState.completed 2))
restore_state_iff_example =
    restore_state_iff (text "completed", some (pos 2), none, none) (BatchJobState.completed 2)

abbrev spoken : BatchRecognitionResult
spoken = record silence {
  text = text "ebb";
  segments =
      record {
        start_millis = 0;
        end_millis = 900;
        text = text "ebb";
        confidence = none;
        speaker = some (text "1");
      }
      ∷ [];
}

spoken_valid : valid_result (record finished { result = none }) spoken ≡ true
unfolding valid_result restore profile_eq text_eq byte_len check_answered next_bytes segment_fits
    readable_valid
spoken_valid = refl

valid_result_storable_example : validate_result spoken ≡ ok tt
unfolding byte_len is_control
valid_result_storable_example =
    valid_result_storable (record finished { result = none }) spoken spoken_valid (refl, tt)
