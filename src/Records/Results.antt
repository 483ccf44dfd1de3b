-- ===== src/Records/Results.antt =====
-- The result columns of crates/voicetext-gateway/src/storage/records.rs, and the bounds of
-- storage/records/result_validation.rs. The JSON library is a parameter.
use mathlib.Core.Option
use voicetext_gateway.Prelude.{
  ℕ, ◌+◌, Bool, true, false, not, ◌&&◌, ◌||◌, List, [], ◌∷◌, map, Option, none, some, Text, text,
  Result, ok, err, and_then, ltb, leb, ◌==◌, if◌then◌else◌, length, is_empty, last?, any,
  is_control, text_eq, byte_len, checked, u64_max, ok_or_err, F32, transpose,
}
use voicetext_gateway.Job.Profile.{BatchProfile, profile_eq}
use voicetext_gateway.Batch.Models.{
  ProviderOperationKind, ProviderReference, BatchSegment, BatchReadableSegment,
  BatchRecognitionResult, BatchJobSnapshot,
}
use voicetext_gateway.Batch.Validate.{bad_confidence, increasing}
use voicetext_gateway.Records.Checks.{
  RecordError, Check, refuse, bounded_json, max_provider_reference_bytes,
}

pub record SegmentRecord : Type 0 where
  pub start_millis : ℕ
  pub end_millis : ℕ
  pub text : Text
  pub confidence : Option F32
  pub speaker : Option Text

pub record ReadableRecord : Type 0 where
  pub start_millis : ℕ
  pub end_millis : ℕ
  pub text : Text
  pub source_segment_indices : List ℕ

pub record ResultRecord : Type 0 where
  pub text : Text
  pub duration_millis : ℕ
  pub provider_duration_millis : Option ℕ
  pub segments : List SegmentRecord
  pub readable_segments : Option (List ReadableRecord)

-- The functions of `serde_json` that the mapping calls, on its values `V`.
pub record Json (V : Type 0) : Type 0 where
  pub value_from_str : Text → Option V
  pub value_to_string : V → Text
  pub value_eq : V → V → Bool
  pub keyterms_to_value : List Text → Option V
  pub keyterms_from_value : V → Option (List Text)
  pub result_to_string : ResultRecord → Option Text
  pub result_from_str : Text → Option ResultRecord

abbrev pub max_segments : ℕ
max_segments = 10000

abbrev pub max_text_bytes : ℕ
max_text_bytes = 4194304

abbrev pub max_readable_references : ℕ
max_readable_references = 100000

abbrev pub bad_speaker : Option Text → Bool
bad_speaker none = false
bad_speaker (some value) =
    is_empty value || ltb max_provider_reference_bytes (byte_len value) || any is_control value

unfoldable pub bad_segment : ℕ → ℕ → BatchSegment → Bool
bad_segment duration previous_end s =
    ltb s.start_millis previous_end
    || leb s.end_millis s.start_millis
    || ltb duration s.end_millis
    || is_empty s.text
    || ltb max_text_bytes (byte_len s.text)
    || bad_confidence s.confidence
    || bad_speaker s.speaker

-- The loop over the segments.
unfoldable pub check_segments : ℕ → ℕ → List BatchSegment → Check
check_segments duration previous_end [] = ok tt
check_segments duration previous_end (s ∷ rest) =
    if bad_segment duration previous_end s
    then err (text "INVALID_RESULT")
    else check_segments duration s.end_millis rest

-- `last().is_none_or(|index| *index >= count)`
abbrev last_beyond : Option ℕ → ℕ → Bool
last_beyond none count = true
last_beyond (some i) count = leb count i

unfoldable pub bad_readable : ℕ → ℕ → ℕ → BatchReadableSegment → Bool
bad_readable duration count previous_end s =
    ltb s.start_millis previous_end
    || leb s.end_millis s.start_millis
    || ltb duration s.end_millis
    || is_empty s.text
    || ltb max_text_bytes (byte_len s.text)
    || is_empty s.source_segment_indices
    || not (increasing s.source_segment_indices)
    || last_beyond (last? s.source_segment_indices) count

-- The loop over the readable segments, with the references counted so far.
unfoldable pub check_readable : ℕ → ℕ → ℕ → ℕ → List BatchReadableSegment → Result RecordError ℕ
check_readable duration count references previous_end [] = ok references
check_readable duration count references previous_end (s ∷ rest) =
    and_then
      (ok_or_err (text "RESULT_TOO_LARGE")
        (checked u64_max (references + length s.source_segment_indices)))
      λ n.
        if bad_readable duration count previous_end s
        then err (text "INVALID_RESULT")
        else check_readable duration count n s.end_millis rest

unfoldable pub count_references : ℕ → ℕ → Option (List BatchReadableSegment) → Result RecordError ℕ
count_references duration count none = ok 0
count_references duration count (some segments) =
    and_then (refuse (ltb max_segments (length segments)) (text "RESULT_TOO_LARGE"))
      λ _. check_readable duration count 0 0 segments

unfoldable pub validate_result : BatchRecognitionResult → Check
validate_result r =
    and_then
      (refuse (ltb max_text_bytes (byte_len r.text) || ltb max_segments (length r.segments))
        (text "RESULT_TOO_LARGE"))
      λ _. and_then (check_segments r.duration_millis 0 r.segments) λ _.
        and_then (count_references r.duration_millis (length r.segments) r.readable_segments)
          λ references. refuse (ltb max_readable_references references) (text "RESULT_TOO_LARGE")

-- `PartialEq` of provider references.
unfoldable pub kind_eq : Option ProviderOperationKind → Option ProviderOperationKind → Bool
kind_eq none none = true
kind_eq (some ProviderOperationKind.request_id) (some ProviderOperationKind.request_id) = true
kind_eq (some ProviderOperationKind.transcription_id)
      (some ProviderOperationKind.transcription_id) =
    true
kind_eq (some ProviderOperationKind.session_id) (some ProviderOperationKind.session_id) = true
kind_eq j k = false

unfoldable pub reference_eq : Option ProviderReference → Option ProviderReference → Bool
unfolding kind_eq
reference_eq none none = true
reference_eq (some p) (some q) = text_eq p.id q.id && kind_eq p.operation_kind q.operation_kind
reference_eq p q = false

abbrev pub segment_record : BatchSegment → SegmentRecord
segment_record s = record {
  start_millis = s.start_millis;
  end_millis = s.end_millis;
  text = s.text;
  confidence = s.confidence;
  speaker = s.speaker;
}

abbrev pub readable_record : BatchReadableSegment → ReadableRecord
readable_record s = record {
  start_millis = s.start_millis;
  end_millis = s.end_millis;
  text = s.text;
  source_segment_indices = s.source_segment_indices;
}

abbrev pub batch_segment : SegmentRecord → BatchSegment
batch_segment s = record {
  start_millis = s.start_millis;
  end_millis = s.end_millis;
  text = s.text;
  confidence = s.confidence;
  speaker = s.speaker;
}

abbrev pub batch_readable : ReadableRecord → BatchReadableSegment
batch_readable s = record {
  start_millis = s.start_millis;
  end_millis = s.end_millis;
  text = s.text;
  source_segment_indices = s.source_segment_indices;
}

-- The record that `serialize_result` writes.
abbrev pub result_record : BatchRecognitionResult → ResultRecord
result_record r = record {
  text = r.text;
  duration_millis = r.duration_millis;
  provider_duration_millis = r.provider_duration_millis;
  segments = map segment_record r.segments;
  readable_segments = Option.map (map readable_record) r.readable_segments;
}

-- The result that `restore_result` reads.
abbrev pub batch_result :
    BatchProfile → Option ProviderReference → ResultRecord → BatchRecognitionResult
batch_result profile provider_reference r = record {
  profile = profile;
  text = r.text;
  duration_millis = r.duration_millis;
  provider_duration_millis = r.provider_duration_millis;
  segments = map batch_segment r.segments;
  readable_segments = Option.map (map batch_readable) r.readable_segments;
  provider_reference = provider_reference;
}

module _ {V : Type 0} (json : Json V) where
  unfoldable pub serialize_result :
      BatchJobSnapshot → BatchRecognitionResult → Result RecordError Text
  serialize_result snapshot result =
      and_then
        (refuse
          (not (profile_eq result.profile snapshot.job.profile)
            || not (result.duration_millis == snapshot.authoritative_duration_millis)
            || not (reference_eq result.provider_reference snapshot.provider_reference))
          (text "INVALID_RESULT_IDENTITY"))
        λ _. and_then (validate_result result) λ _.
          and_then
            (ok_or_err (text "INVALID_RESULT_JSON") (json.result_to_string (result_record result)))
            λ value. and_then (bounded_json value) λ _. ok value

  unfoldable pub restore_text :
      BatchProfile → ℕ → Option ProviderReference → Text → Result RecordError BatchRecognitionResult
  restore_text profile duration provider_reference value = and_then (bounded_json value) λ _.
      and_then (ok_or_err (text "INVALID_RESULT_JSON") (json.result_from_str value)) λ read.
        let result = batch_result profile provider_reference read in
        and_then
          (refuse (not (result.duration_millis == duration)) (text "INVALID_RESULT_IDENTITY"))
          λ _. and_then (validate_result result) λ _. ok result

  unfoldable pub restore_result :
      Option Text
      → BatchProfile
      → ℕ
      → Option ProviderReference
      → Result RecordError (Option BatchRecognitionResult)
  restore_result value profile duration provider_reference =
      transpose (restore_text profile duration provider_reference) value

  unfoldable pub compatible_result_text : Option V → Option Text → Result RecordError (Option Text)
  compatible_result_text none none = ok none
  compatible_result_text (some legacy) none = ok (some (json.value_to_string legacy))
  compatible_result_text (some legacy) (some exact) =
      and_then (ok_or_err (text "INVALID_RESULT_JSON") (json.value_from_str exact)) λ exact_value.
        if json.value_eq exact_value legacy
        then ok (some exact)
        else ok (some (json.value_to_string legacy))
  compatible_result_text none (some exact) = err (text "INVALID_RESULT_REPRESENTATION")
