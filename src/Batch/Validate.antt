-- ===== src/Batch/Validate.antt =====
-- `valid_result` of crates/voicetext-speech/src/application/batch_models.rs: the bounds that a
-- provider's result has to meet before it can complete a job.
use voicetext_gateway.Prelude.{
  ℕ, ◌+◌, Bool, true, false, not, ◌&&◌, ◌||◌, List, [], ◌∷◌, Option, none, some, ltb, leb, ◌==◌,
  if◌then◌else◌, length, is_empty, last?, Text, byte_len, F32, is_finite, in_unit_interval, checked,
  u64_max,
}
use voicetext_gateway.Job.Profile.{profile_eq}
use voicetext_gateway.Batch.Models.{
  BatchSegment, BatchReadableSegment, BatchRecognitionResult, BatchJobSnapshot,
}

abbrev pub max_segments : ℕ
max_segments = 10000

abbrev pub max_transcript_bytes : ℕ
max_transcript_bytes = 4194304

abbrev pub max_readable_references : ℕ
max_readable_references = 100000

-- `is_some_and(|value| !value.is_finite() || !(0.0..=1.0).contains(&value))`
abbrev pub bad_confidence : Option F32 → Bool
bad_confidence none = false
bad_confidence (some v) = not (is_finite v) || not (in_unit_interval v)

-- `map_or(Some(bytes), |speaker| bytes.checked_add(speaker.len()))`
add_speaker : ℕ → Option Text → Option ℕ
add_speaker bytes none = some bytes
add_speaker bytes (some speaker) = checked u64_max (bytes + byte_len speaker)

-- The bytes counted after a segment, unless they overflow a `usize`.
unfoldable pub next_bytes : ℕ → BatchSegment → Option ℕ
unfolding add_speaker
next_bytes bytes s = elim (checked u64_max (bytes + byte_len s.text)) [
  | none ↦ none
  | some n ↦ add_speaker n s.speaker
]

unfoldable pub segment_fits : ℕ → ℕ → ℕ → BatchSegment → Bool
segment_fits duration previous_end bytes s = not (
    ltb s.start_millis previous_end
    || leb s.end_millis s.start_millis
    || ltb duration s.end_millis
    || is_empty s.text
    || ltb max_transcript_bytes bytes
    || bad_confidence s.confidence)

-- The loop over the segments: the bytes counted, unless it returns false.
unfoldable pub check_segments : ℕ → ℕ → ℕ → List BatchSegment → Option ℕ
check_segments duration previous_end bytes [] = some bytes
check_segments duration previous_end bytes (s ∷ rest) = elim (next_bytes bytes s) [
  | none ↦ none
  | some n ↦ elim (segment_fits duration previous_end n s) [
    | false ↦ none
    | true ↦ check_segments duration s.end_millis n rest
  ]
]

-- `windows(2).all(|pair| pair[0] < pair[1])`
unfoldable pub increasing : List ℕ → Bool
increasing [] = true
increasing (x ∷ []) = true
increasing (x ∷ y ∷ xs) = ltb x y && increasing (y ∷ xs)

-- `last().is_some_and(|index| *index < count)`
abbrev last_below : Option ℕ → ℕ → Bool
last_below none count = false
last_below (some i) count = ltb i count

unfoldable pub sources_valid : List ℕ → ℕ → Bool
unfolding increasing
sources_valid indices count =
    not (is_empty indices) && increasing indices && last_below (last? indices) count

unfoldable pub readable_fits : ℕ → ℕ → ℕ → ℕ → ℕ → BatchReadableSegment → Bool
unfolding sources_valid
readable_fits duration count previous_end references bytes s =
    leb previous_end s.start_millis
    && ltb s.start_millis s.end_millis
    && leb s.end_millis duration
    && not (is_empty s.text)
    && leb references max_readable_references
    && leb bytes max_transcript_bytes
    && sources_valid s.source_segment_indices count

-- `segments.iter().all(…)` with the variables that the closure captures.
unfoldable pub check_readable : ℕ → ℕ → ℕ → ℕ → ℕ → List BatchReadableSegment → Bool
check_readable duration count previous_end references bytes [] = true
check_readable duration count previous_end references bytes (s ∷ rest) =
    elim (checked u64_max (references + length s.source_segment_indices)) [
      | none ↦ false
      | some r ↦ elim (checked u64_max (bytes + byte_len s.text)) [
        | none ↦ false
        | some b ↦ elim (readable_fits duration count previous_end r b s) [
          | false ↦ false
          | true ↦ check_readable duration count s.end_millis r b rest
        ]
      ]
    ]

-- `readable_segments.as_ref().is_none_or(…)`
unfoldable pub readable_valid : ℕ → ℕ → ℕ → Option (List BatchReadableSegment) → Bool
readable_valid duration count bytes none = true
readable_valid duration count bytes (some segments) =
    if ltb max_segments (length segments)
    then false
    else check_readable duration count 0 0 bytes segments

unfoldable pub segments_valid : BatchRecognitionResult → Option ℕ → Bool
segments_valid r none = false
segments_valid r (some bytes) =
    readable_valid r.duration_millis (length r.segments) bytes r.readable_segments

unfoldable pub valid_result : BatchJobSnapshot → BatchRecognitionResult → Bool
unfolding segments_valid
valid_result snapshot r =
    if not (profile_eq r.profile snapshot.job.profile)
      || not (r.duration_millis == snapshot.authoritative_duration_millis)
      || ltb max_transcript_bytes (byte_len r.text)
      || ltb max_segments (length r.segments)
    then false
    else segments_valid r (check_segments r.duration_millis 0 (byte_len r.text) r.segments)
