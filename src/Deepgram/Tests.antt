-- ===== src/Deepgram/Tests.antt =====
-- Two overlapping utterances of a Deepgram result. Every text is its own lower case.
use voicetext_gateway.Prelude.{
  ℕ, ◌≡◌, ◌↔◌, refl, true, false, [], ◌∷◌, Option, none, ok, text, Unicode, All, arith,
}
use voicetext_gateway.Batch.Models.{ProviderReference}
use voicetext_gateway.Deepgram.{
  ParsedSegment, ParsedBatchResult, normalize, normalize_utterance_overlaps,
}
use voicetext_gateway.Deepgram.Disjoint.{Disjoint, normalize-Disjoint}
use voicetext_gateway.Deepgram.Exact.{SegmentTimely, ReadableTimely, clamp, normalize_iff}

abbrev plain : Unicode
plain = record {
  is_alphanumeric = λ c. true;
  char_to_lowercase = λ c. c ∷ [];
  str_to_lowercase = λ t. t;
}

abbrev utterance : ℕ → ℕ → ParsedSegment
utterance start stop = record {
  start_ms = start;
  end_ms = stop;
  text = text "hello";
  confidence = none;
  speaker = none;
  start_seconds = 0;
  end_seconds = 0;
}

abbrev parsed : ParsedBatchResult
parsed = record {
  text = text "hello hello";
  provider_duration_ms = 2600;
  segments = utterance 0 1500 ∷ utterance 1000 2600 ∷ [];
  readable_segments = [];
  provider_request_id = none;
}

abbrev normalized : ParsedBatchResult
normalized = record parsed { segments = utterance 0 1500 ∷ utterance 1500 2500 ∷ [] }

normalize-Disjoint_example :
    Disjoint 0 2500 normalized.segments
    × ((reference : Option ProviderReference)
        → normalize_utterance_overlaps plain normalized.segments reference
          ≡ ok (normalized.segments, false))
unfolding normalize
normalize-Disjoint_example = normalize-Disjoint plain parsed normalized 2500 refl

abbrev separate : ParsedBatchResult
separate = record parsed { segments = utterance 0 900 ∷ utterance 1000 2600 ∷ [] }

normalize_iff_example : (normalize plain separate 2500 ≡ ok (clamp 2500 separate)) ↔ (
    All (SegmentTimely 2500) separate.segments
    × All (ReadableTimely 2500) separate.readable_segments
    × (clamp 2500 separate ≡ clamp 2500 separate))
normalize_iff_example = normalize_iff plain 2500 separate (clamp 2500 separate) (omega arith, tt)
