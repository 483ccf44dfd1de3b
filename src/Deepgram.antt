-- ===== src/Deepgram.antt =====
-- crates/voicetext-providers/src/deepgram/timeline.rs: the segments of a Deepgram result, clamped to
-- the audio and made disjoint. The bits of an `f64` are a number.
pub mod Timing
pub mod Disjoint
pub mod Exact
mod Tests
use voicetext_gateway.Prelude.{
  ℕ, zero, suc, ◌+◌, ◌-◌, ◌/◌, max, min, Bool, true, false, not, ◌&&◌, ◌||◌, ltb, leb,
  if◌then◌else◌, Option, none, some, List, [], ◌∷◌, ◌++◌, Text, text, text_eq, split_whitespace,
  join_spaces, is_empty, length, take, drop, saturating, u64_max, F32, Unicode, Result, ok, err,
}
use voicetext_gateway.Batch.Models.{RecognitionFailure, ProviderReference, request_id}

-- deepgram/dto.rs
pub record ParsedSegment : Type 0 where
  pub start_ms : ℕ
  pub end_ms : ℕ
  pub text : Text
  pub confidence : Option F32
  pub speaker : Option Text
  pub start_seconds : ℕ
  pub end_seconds : ℕ

pub record ParsedReadableSegment : Type 0 where
  pub start_ms : ℕ
  pub end_ms : ℕ
  pub text : Text
  pub source_segment_indices : List ℕ

pub record ParsedBatchResult : Type 0 where
  pub text : Text
  pub provider_duration_ms : ℕ
  pub segments : List ParsedSegment
  pub readable_segments : List ParsedReadableSegment
  pub provider_request_id : Option Text

abbrev pub timestamp_tolerance_millis : ℕ
timestamp_tolerance_millis = 250

abbrev pub timestamp_relative_tolerance_divisor : ℕ
timestamp_relative_tolerance_divisor = 200

abbrev pub max_utterance_overlap_millis : ℕ
max_utterance_overlap_millis = 10000

unfoldable pub invalid_timing : Option ProviderReference → RecognitionFailure
invalid_timing provider_reference =
    RecognitionFailure.unknown_after_send (text "DEEPGRAM_INVALID_TIMING") provider_reference

-- The new end, in place of a write through `end_millis`.
unfoldable pub normalize_end :
    ℕ → ℕ → ℕ → ℕ → Option ProviderReference → Result RecognitionFailure ℕ
unfolding invalid_timing
normalize_end start_millis end_millis authoritative maximum_provider_end provider_reference =
    if leb authoritative start_millis
      || ltb maximum_provider_end end_millis
      || leb end_millis start_millis
    then err (invalid_timing provider_reference)
    else ok (min end_millis authoritative)

-- The two loops of `normalize` over segments, with `?`.
unfoldable pub normalize_segments :
    List ParsedSegment
    → ℕ
    → ℕ
    → Option ProviderReference
    → Result RecognitionFailure (List ParsedSegment)
unfolding normalize_end
normalize_segments [] authoritative maximum reference = ok []
normalize_segments (s ∷ ss) authoritative maximum reference =
    elim (normalize_end s.start_ms s.end_ms authoritative maximum reference) [
      | err e ↦ err e
      | ok end_ms ↦ elim (normalize_segments ss authoritative maximum reference) [
        | err e ↦ err e
        | ok rest ↦ ok (record s { end_ms = end_ms } ∷ rest)
      ]
    ]

unfoldable pub normalize_readable :
    List ParsedReadableSegment
    → ℕ
    → ℕ
    → Option ProviderReference
    → Result RecognitionFailure (List ParsedReadableSegment)
unfolding normalize_end
normalize_readable [] authoritative maximum reference = ok []
normalize_readable (s ∷ ss) authoritative maximum reference =
    elim (normalize_end s.start_ms s.end_ms authoritative maximum reference) [
      | err e ↦ err e
      | ok end_ms ↦ elim (normalize_readable ss authoritative maximum reference) [
        | err e ↦ err e
        | ok rest ↦ ok (record s { end_ms = end_ms } ∷ rest)
      ]
    ]

abbrev pub pushed :
    ParsedSegment
    → Result RecognitionFailure (List ParsedSegment × Bool)
    → Result RecognitionFailure (List ParsedSegment × Bool)
pushed p (err e) = err e
pushed p (ok (rest, flag)) = ok (p ∷ rest, flag)

abbrev pub maximum_provider_end : ℕ → ℕ
maximum_provider_end authoritative = saturating u64_max (
    authoritative
    + max timestamp_tolerance_millis (authoritative / timestamp_relative_tolerance_divisor))

-- `map(|id| ProviderReference::operation(RequestId, id))`
abbrev pub reference_of : Option Text → Option ProviderReference
reference_of none = none
reference_of (some id) = some (record { id = id; operation_kind = some request_id })

module _ (unicode : Unicode) where
  unfoldable pub words_equal : List Text → List Text → Bool
  words_equal (l ∷ ls) (r ∷ rs) =
      text_eq (unicode.str_to_lowercase l) (unicode.str_to_lowercase r) && words_equal ls rs
  words_equal _ _ = true

  -- `haystack.windows(n).any(…)`, for a needle that is not empty: the windows are the starts of the
  -- haystack's tails that are long enough.
  unfoldable pub window_equal : List Text → List Text → Bool
  unfolding words_equal
  window_equal [] needle = false
  window_equal (w ∷ ws) needle =
      (leb (length needle) (length (w ∷ ws)) && words_equal (take (length needle) (w ∷ ws)) needle)
      || window_equal ws needle

  unfoldable pub contains_words : List Text → List Text → Bool
  unfolding window_equal
  contains_words haystack needle =
      not (is_empty needle) && leb (length needle) (length haystack) && window_equal haystack needle

  -- The `for` loop over the number of shared words, downwards to 1.
  unfoldable pub merge_shared : ℕ → List Text → List Text → Option Text
  unfolding words_equal
  merge_shared zero previous current = none
  merge_shared (suc n) previous current =
      if words_equal (drop (length previous - suc n) previous) (take (suc n) current)
      then some (join_spaces (previous ++ drop (suc n) current))
      else merge_shared n previous current

  -- What the loop found, or both texts.
  abbrev or_both : Option Text → Text → Text → Text
  or_both (some merged) previous current = merged
  or_both none previous current = previous ++ 32 ∷ current

  unfoldable pub merge_contained_text : Text → Text → Text
  unfolding contains_words merge_shared
  merge_contained_text previous current =
      let previous_words = split_whitespace previous in
      let current_words = split_whitespace current in
      if contains_words previous_words current_words
      then previous
      else if contains_words current_words previous_words
      then current
      else or_both
          (merge_shared (min (length previous_words) (length current_words)) previous_words
            current_words)
          previous current

  -- The loop of `normalize_utterance_overlaps` once `normalized` has a last element: that element, the
  -- flag, and the segments to come. The elements before the last no longer change.
  unfoldable pub disjoint_from :
      ParsedSegment
      → Bool
      → List ParsedSegment
      → Option ProviderReference
      → Result RecognitionFailure (List ParsedSegment × Bool)
  unfolding merge_contained_text invalid_timing
  disjoint_from previous changed [] reference = ok (previous ∷ [], changed)
  disjoint_from previous changed (s ∷ ss) reference =
      if leb previous.end_ms s.start_ms
      then pushed previous (disjoint_from s changed ss reference)
      else if ltb max_utterance_overlap_millis (previous.end_ms - s.start_ms)
      then err (invalid_timing reference)
      else if leb s.end_ms previous.end_ms
      then disjoint_from (record previous { text = merge_contained_text previous.text s.text }) true
          ss reference
      else pushed previous
          (disjoint_from (record s { start_ms = previous.end_ms }) true ss reference)

  unfoldable pub normalize_utterance_overlaps :
      List ParsedSegment
      → Option ProviderReference
      → Result RecognitionFailure (List ParsedSegment × Bool)
  unfolding disjoint_from
  normalize_utterance_overlaps [] reference = ok ([], false)
  normalize_utterance_overlaps (s ∷ ss) reference = disjoint_from s false ss reference

  abbrev pub disjoint_result :
      ParsedBatchResult
      → List ParsedReadableSegment
      → Result RecognitionFailure (List ParsedSegment × Bool)
      → Result RecognitionFailure ParsedBatchResult
  disjoint_result parsed readable (err e) = err e
  disjoint_result parsed readable (ok (segments, changed)) =
      ok (record parsed {
        segments = segments;
        readable_segments = if changed then [] else readable;
      })

  unfoldable pub normalize : ParsedBatchResult → ℕ → Result RecognitionFailure ParsedBatchResult
  unfolding normalize_segments normalize_readable normalize_utterance_overlaps
  normalize parsed authoritative =
      let maximum = maximum_provider_end authoritative in
      let reference = reference_of parsed.provider_request_id in
      elim (normalize_segments parsed.segments authoritative maximum reference) [
        | err e ↦ err e
        | ok segments ↦
            elim (normalize_readable parsed.readable_segments authoritative maximum reference) [
              | err e ↦ err e
              | ok readable ↦
                  disjoint_result parsed readable (normalize_utterance_overlaps segments reference)
            ]
      ]
