-- ===== src/Contracts/Projection.antt =====
-- crates/voicetext-gateway/src/contracts/batch_projection.rs: the projection of a result to the public
-- response, which the coordinator asks before it completes a job. The conversion of an `f32` to an
-- `f64` is a parameter.
use mathlib.Core.Option
use voicetext_gateway.Prelude.{
  ℕ, ◌==◌, ◌≡◌, Bool, true, false, ◌&&◌, List, [], map, Option, inl, inr, none, some, Text, Result,
  Result-cases, ok, err, text_eq, F32, F64, if◌then◌else◌, arith,
}
use voicetext_gateway.Batch.Models.{
  ProviderReference, BatchSegment, BatchRecognitionResult, BatchReadableSegment,
}
use voicetext_gateway.Gateway.Slots.{
  BatchIdentity, deepgram_nova3_multi_v2, elevenlabs_scribe_v2_multi_v3,
}
use voicetext_gateway.Contracts.BatchModels.{contract_version, provider, model, language}
use voicetext_gateway.Contracts.BatchOutbound.{
  OutboundSegment, OutboundBatchResponse, SerializedBatchResponse, Body, serialize_response,
}

-- `as_deref().unwrap_or_default()`
abbrev or_empty : Option (List BatchReadableSegment) → List BatchReadableSegment
or_empty none = []
or_empty (some ss) = ss

-- Only the v3 contract carries the provider's request id.
abbrev request_id_of : BatchIdentity → Option ProviderReference → Option Text
request_id_of deepgram_nova3_multi_v2 reference = none
request_id_of elevenlabs_scribe_v2_multi_v3 reference = Option.map (λ r. r.id) reference

abbrev pub completed_segment : (F32 → F64) → BatchSegment → OutboundSegment
completed_segment widen s = record {
  start_millis = s.start_millis;
  end_millis = s.end_millis;
  text = s.text;
  confidence = Option.map widen s.confidence;
}

unfoldable pub completed_response :
    {U : Type 0}
    → (F32 → F64)
    → BatchIdentity
    → U
    → BatchRecognitionResult
    → OutboundBatchResponse U
completed_response widen identity job_id r = OutboundBatchResponse.completed job_id (record {
  text = r.text;
  duration_millis = r.duration_millis;
  segments = map (completed_segment widen) r.segments;
  readable_segments =
      map
        (λ s. record {
          start_millis = s.start_millis;
          end_millis = s.end_millis;
          text = s.text;
          source_segment_indices = s.source_segment_indices;
        })
        (or_empty r.readable_segments);
  provider_request_id = request_id_of identity r.provider_reference;
})

-- The profile is that of an identity.
abbrev bears : BatchRecognitionResult → BatchIdentity → Bool
bears r identity =
    r.profile.contract_version == contract_version identity
    && text_eq r.profile.provider (provider identity)
    && text_eq r.profile.model (model identity)
    && text_eq r.profile.language (language identity)

unfoldable pub identity_for_result : BatchRecognitionResult → Option BatchIdentity
identity_for_result r =
    if bears r deepgram_nova3_multi_v2
    then some deepgram_nova3_multi_v2
    else if bears r elevenlabs_scribe_v2_multi_v3
    then some elevenlabs_scribe_v2_multi_v3
    else none

abbrev succeeded {ℓ κ} : {E : Type ℓ} {A : Type κ} → Result E A → Bool
succeeded (ok a) = true
succeeded (err e) = false

module _ {U : Type 0} (parse_str : Text → Option U) (widen : F32 → F64) (seconds : ℕ → F64)
    (to_string : Body U → Option Text) where
  unfoldable pub project : Option U → Option BatchIdentity → BatchRecognitionResult → Bool
  project none identity r = false
  project (some job_id) none r = false
  project (some job_id) (some identity) r =
      succeeded
        (serialize_response seconds to_string identity (completed_response widen identity job_id r))

  -- `GatewayBatchResultProjection::validate`: whether it succeeds.
  unfoldable pub validate : Text → BatchRecognitionResult → Bool
  unfolding project
  validate id r = project (parse_str id) (identity_for_result r) r

  -- The completed response of a result that passes the projection serializes.
  pub project_served :
      (job_id : U) (identity : BatchIdentity) (r : BatchRecognitionResult)
      → project (some job_id) (some identity) r ≡ true
      → (response : SerializedBatchResponse) × (serialize_response seconds to_string identity
            (completed_response widen identity job_id r)
          ≡ ok response)
  unfolding project
  project_served u i r h =
      elim (Result-cases
        (serialize_response seconds to_string i (completed_response widen i u r))) [
          | inl (a, e) ↦ (a, e)
          | inr (x, e) ↦ absurd (ground arith)
        ]
