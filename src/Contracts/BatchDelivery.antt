-- ===== src/Contracts/BatchDelivery.antt =====
-- A v3 batch response that is sent and read: contracts/batch_outbound.rs against contracts/batch.rs.
use mathlib.Core.Option
use voicetext_gateway.Prelude.{
  ℕ, suc, ◌≡◌, refl, ap, List, [], ◌∷◌, map, none, some, Text, ok, and_then_into, and_then_bound,
  length, is_empty, F64, arith, true, All,
}
use voicetext_gateway.Gateway.Slots.{elevenlabs_scribe_v2_multi_v3}
use voicetext_gateway.Contracts.Config.{require_passed}
use voicetext_gateway.Contracts.Server.{good_confidence}
use voicetext_gateway.Contracts.Delivery.{Rereads, confidence_back}
use voicetext_gateway.Contracts.BatchModels.{
  Utterance, BatchTaskResult, SegmentV3, ResultV3, EnvelopeV3, validate_text, validate_confidence,
}
use voicetext_gateway.Contracts.Batch.{read_segments, validate_v3_result}
use voicetext_gateway.Contracts.BatchOutbound.{
  OutboundSegment, OutboundTranscription, OutboundBatchResponse, StateV3, check_outbound,
  representable, validate_outbound, numbered, result_v3,
}

-- The confidences of a response are numbers in [0, 1].
abbrev pub Confident : {U : Type 0} → StateV3 U → Type 0
Confident (StateV3.completed success status id r) =
    All (λ s. good_confidence s.confidence ≡ true) r.segments
Confident s = Unit {0}

checked-good :
    (d i lo : ℕ) (ss : List OutboundSegment)
    → check_outbound d lo ss ≡ ok tt
    → All (λ s. good_confidence s.confidence ≡ true) (numbered i ss)
unfolding check_outbound validate_confidence
checked-good d i lo [] h = tt
checked-good d i lo (s ∷ ss) h = and_then_bound h λ a timed h1. and_then_bound h1 λ b worded h2.
    and_then_bound h2
      λ c sure rest. (require_passed _ _ sure, checked-good d (suc i) s.end_millis ss rest)

pub outbound-Confident :
    {U : Type 0} (id : U) (r : OutboundTranscription)
    → validate_outbound elevenlabs_scribe_v2_multi_v3 r ≡ ok tt
    → All
        (λ s. good_confidence s.confidence ≡ true)
        (result_v3 elevenlabs_scribe_v2_multi_v3 id r).segments
unfolding validate_outbound
outbound-Confident id r h = and_then_bound h λ a safe h1. and_then_bound h1 λ b short h2.
    and_then_bound h2 λ c few h3. and_then_bound h3 λ d fit h4.
      and_then_bound h4 λ e timed h5. checked-good r.duration_millis 0 0 r.segments timed

module _ (reread : F64 → F64) where
  abbrev reread_segment : SegmentV3 → SegmentV3
  reread_segment s = record s { confidence = Option.map reread s.confidence }

  -- A result as it is read, with its id.
  abbrev pub read_result : {U I : Type 0} → I → ResultV3 U → ResultV3 I
  read_result id r = record {
    result_id = id;
    provider = r.provider;
    model = r.model;
    language = r.language;
    text = r.text;
    duration_ms = r.duration_ms;
    segments = map reread_segment r.segments;
    provider_request = r.provider_request;
  }

  module _ {U I : Type 0} (name : U → I) where
    -- The fields of an envelope, in each state; those that are not written have their defaults.
    abbrev pub fields_of : ℕ → Text → Text → Text → StateV3 U → EnvelopeV3 I
    fields_of version p m l (StateV3.pending success status id action delay) = record {
      contract_version = version;
      provider = p;
      model = m;
      language = l;
      success = success;
      status = status;
      job_id = name id;
      next_action = some action;
      retry_after_ms = some delay;
      retryable = none;
      error_code = none;
      result = none;
    }
    fields_of version p m l (StateV3.failed success status id retryable code) = record {
      contract_version = version;
      provider = p;
      model = m;
      language = l;
      success = success;
      status = status;
      job_id = name id;
      next_action = none;
      retry_after_ms = none;
      retryable = some retryable;
      error_code = some code;
      result = none;
    }
    fields_of version p m l (StateV3.completed success status id r) = record {
      contract_version = version;
      provider = p;
      model = m;
      language = l;
      success = success;
      status = status;
      job_id = name id;
      next_action = none;
      retry_after_ms = none;
      retryable = none;
      error_code = none;
      result = some (read_result (name r.result_id) r);
    }

  module _ (seconds : ℕ → F64) where
    abbrev pub told_utterances : List OutboundSegment → List Utterance
    told_utterances [] = []
    told_utterances (s ∷ ss) =
        record {
          start = seconds s.start_millis;
          end = seconds s.end_millis;
          transcript = s.text;
          confidence = Option.map reread s.confidence;
        }
        ∷ told_utterances ss

    -- What a consumer is told by a response.
    abbrev pub told : {U : Type 0} → OutboundBatchResponse U → BatchTaskResult U
    told (OutboundBatchResponse.pending id action delay) = BatchTaskResult.pending id action delay
    told (OutboundBatchResponse.failed id code) = BatchTaskResult.failed id code
    told (OutboundBatchResponse.completed id r) = BatchTaskResult.completed id (record {
      duration_seconds = seconds r.duration_millis;
      utterances = told_utterances r.segments;
      readable_segments = [];
      provider_request_id = r.provider_request_id;
    })

    segments_told :
        Rereads reread
        → (d i lo : ℕ) (ss : List OutboundSegment) → check_outbound d lo ss ≡ ok tt
        → read_segments seconds d i lo (map reread_segment (numbered i ss))
          ≡ ok (told_utterances ss)
    unfolding check_outbound read_segments validate_text validate_confidence
    segments_told good d i lo [] h = refl
    segments_told good d i lo (s ∷ ss) h = and_then_bound h λ a timed h1.
        and_then_bound h1 λ b worded h2. and_then_bound h2 λ c sure rest.
          and_then_into _ (ground arith) (
            and_then_into _ timed (
              and_then_into _ (ground arith) (
                and_then_into _ (confidence_back reread good s.confidence _ sure)
                  (and_then_into _ (segments_told good d (suc i) s.end_millis ss rest) refl))))

    same_length :
        (i : ℕ) (ss : List OutboundSegment)
        → length (map reread_segment (numbered i ss)) ≡ length ss
    same_length i [] = refl
    same_length i (s ∷ ss) = ap suc (same_length (suc i) ss)

    same_empty :
        (i : ℕ) (ss : List OutboundSegment)
        → is_empty (map reread_segment (numbered i ss)) ≡ is_empty ss
    same_empty i [] = refl
    same_empty i (s ∷ ss) = refl

    pub result_told :
        Rereads reread
        → {U I : Type 0} (id : U) (name : I) (r : OutboundTranscription)
        → validate_outbound elevenlabs_scribe_v2_multi_v3 r ≡ ok tt
        → validate_v3_result seconds
            (read_result name (result_v3 elevenlabs_scribe_v2_multi_v3 id r))
          ≡ ok (record {
            duration_seconds = seconds r.duration_millis;
            utterances = told_utterances r.segments;
            readable_segments = [];
            provider_request_id = r.provider_request_id;
          })
    unfolding validate_outbound validate_v3_result representable validate_text
    result_told good id name r h = and_then_bound h λ a safe h1. and_then_bound h1 λ b short h2.
        and_then_bound h2 λ c few h3. and_then_bound h3 λ d fit h4. and_then_bound h4 λ e timed h5.
          and_then_bound h5 λ f requested h6. and_then_bound fit λ g agree fit1.
            and_then_bound fit1 λ i worded plain.
              let n = same_length 0 r.segments in
              let m = same_empty 0 r.segments in
              and_then_into _ (ground arith) (
                and_then_into _ worded (
                  and_then_into _ safe (
                    and_then_into _ (ground arith) (
                      and_then_into _ (ground arith) (
                        and_then_into _ (segments_told good r.duration_millis 0 0 r.segments timed)
                          (and_then_into _ requested refl))))))
