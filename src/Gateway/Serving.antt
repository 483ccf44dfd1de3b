-- ===== src/Gateway/Serving.antt =====
-- From the provider's result to the client that polls: application/batch_models.rs, the projection of
-- contracts/batch_projection.rs and the answer of server/batch.rs, against the v3 consumer of
-- contracts/batch.rs.
use mathlib.Core.Option
use mathlib.Core.Path.{subst}
use voicetext_gateway.Prelude.{
  ℕ, ◌≡◌, refl, sym, ap, ◌∙◌, Bool, true, List, [], ◌∷◌, map, Option, none, some, Text, text_eq,
  text_eq_iff, Result, ok, and_then_into, and_then_bound, ok_injective, ok_or_err, F32, F64,
}
use voicetext_gateway.Job.{BatchJobState}
use voicetext_gateway.Batch.Models.{BatchRecognitionResult, BatchJobSnapshot, BatchSegment}
use voicetext_gateway.Batch.Outcome.{apply_recognition_outcome}
use voicetext_gateway.Batch.Verdict.{answered_concluded}
use voicetext_gateway.Batch.Answers.{completes_only_fitting}
use voicetext_gateway.Gateway.Slots.{BatchIdentity, elevenlabs_scribe_v2_multi_v3}
use voicetext_gateway.Gateway.BatchStatus.{
  Response, identity_for_profile, outbound_for, response_for_snapshot, or_unavailable, or_database,
  get,
}
use voicetext_gateway.Contracts.Delivery.{Rereads}
use voicetext_gateway.Contracts.BatchModels.{ok_status, Utterance, BatchTaskResult, EnvelopeV3}
use voicetext_gateway.Contracts.Batch.{parse_response_v3}
use voicetext_gateway.Contracts.BatchOutbound.{
  OutboundTranscription, OutboundBatchResponse, SerializedBatchResponse, Body, response_body,
  serialize_response,
}
use voicetext_gateway.Contracts.BatchDelivery.{told, told_utterances}
use voicetext_gateway.Contracts.BatchRoundTrip.{JobIdLaws, EnvelopesRead, parse-serialize_v3}
use voicetext_gateway.Contracts.Projection.{
  completed_response, identity_for_result, validate, project, project_served, completed_segment,
}

same_identity :
    (r : BatchRecognitionResult) → identity_for_result r ≡ identity_for_profile r.profile
unfolding identity_for_result identity_for_profile
same_identity r = refl

completed_status :
    {U : Type 0} (seconds : ℕ → F64) (to_string : Body U → Option Text) (i : BatchIdentity) (u : U)
    (x : OutboundTranscription) (response : SerializedBatchResponse)
    → serialize_response seconds to_string i (OutboundBatchResponse.completed u x) ≡ ok response
    → response.status ≡ ok_status
unfolding serialize_response response_body
completed_status seconds to_string i u x response h = and_then_bound h λ sb valid h1.
    and_then_bound h1 λ printed p h2. and_then_bound h2 λ b bounded e. and_then_bound valid λ c v k.
      sym (ap (λ z. z.status) (ok_injective _ response e))
      ∙ sym (ap (λ z. z.0) (ok_injective _ sb k))

-- A provider's segment as the client is told of it: the times in seconds, the confidence as it is
-- printed and read.
abbrev pub heard_segment : (F32 → F64) → (ℕ → F64) → BatchSegment → Utterance
heard_segment confidence seconds s = record {
  start = seconds s.start_millis;
  end = seconds s.end_millis;
  transcript = s.text;
  confidence = Option.map confidence s.confidence;
}

-- A provider's result as the client is told of it.
abbrev pub heard_result :
    {U : Type 0} → (F32 → F64) → (ℕ → F64) → U → BatchRecognitionResult → BatchTaskResult U
heard_result confidence seconds id r = BatchTaskResult.completed id (record {
  duration_seconds = seconds r.duration_millis;
  utterances = map (heard_segment confidence seconds) r.segments;
  readable_segments = [];
  provider_request_id = Option.map (λ p. p.id) r.provider_reference;
})

map_twice :
    (reread : F64 → F64) (widen : F32 → F64) (o : Option F32)
    → Option.map reread (Option.map widen o) ≡ Option.map (λ c. reread (widen c)) o
map_twice reread widen none = refl
map_twice reread widen (some c) = refl

module _ (reread : F64 → F64) (widen : F32 → F64) (seconds : ℕ → F64) where
  utterances_heard :
      (ss : List BatchSegment)
      → told_utterances reread seconds (map (completed_segment widen) ss)
        ≡ map (heard_segment (λ c. reread (widen c)) seconds) ss
  utterances_heard [] = refl
  utterances_heard (s ∷ ss) = rw (map_twice reread widen s.confidence, utterances_heard ss) refl

  result_heard :
      {U : Type 0} (u : U) (r : BatchRecognitionResult)
      → told reread seconds (completed_response widen elevenlabs_scribe_v2_multi_v3 u r)
        ≡ heard_result (λ c. reread (widen c)) seconds u r
  unfolding completed_response
  result_heard u r =
      ap
        (λ us. BatchTaskResult.completed u (record {
          duration_seconds = seconds r.duration_millis;
          utterances = us;
          readable_segments = [];
          provider_request_id = Option.map (λ p. p.id) r.provider_reference;
        }))
        (utterances_heard r.segments)

module _ {U : Type 0} (hyphenated : U → Text) (parse_str : Text → Option U) (uuid_eq : U → U → Bool)
    (reread : F64 → F64) (widen : F32 → F64) (seconds : ℕ → F64)
    (to_string : Body U → Option Text) where
  completed_answer :
      (u : U) (s : BatchJobSnapshot) (n : ℕ) (r : BatchRecognitionResult)
      (response : SerializedBatchResponse)
      → s.job.state ≡ BatchJobState.completed n
      → s.result ≡ some r
      → serialize_response seconds to_string elevenlabs_scribe_v2_multi_v3
          (completed_response widen elevenlabs_scribe_v2_multi_v3 u r)
        ≡ ok response
      → response_for_snapshot widen seconds to_string elevenlabs_scribe_v2_multi_v3 u s
        ≡ ok (record { status = 200; body = response.body })
  unfolding response_for_snapshot outbound_for completed_response
  completed_answer u s n r response e kept h =
      let i = elevenlabs_scribe_v2_multi_v3 in
      and_then_into _
        (subst
          (λ st.
            outbound_for widen seconds to_string i u s st ≡ ok (completed_response widen i u r))
          (sym e) (and_then_into _ (ap (ok_or_err _) kept) refl))
        (and_then_into _ (ap (or_unavailable widen seconds to_string) h)
          (rw (completed_status seconds to_string i u _ response h) refl))

  found :
      {E : Type 0} (u : U) (id : Text) (load : Text → Result E (Option BatchJobSnapshot))
      (t : BatchJobSnapshot) (i : BatchIdentity) (a : Response)
      → parse_str id ≡ some u
      → hyphenated u ≡ id
      → load id ≡ ok (some t)
      → identity_for_profile t.job.profile ≡ some i
      → response_for_snapshot widen seconds to_string i u t ≡ ok a
      → get widen seconds to_string parse_str hyphenated load true id ≡ ok a
  unfolding get
  found u id load t i a parsed named loaded profile h =
      let same : text_eq (hyphenated u) id ≡ true = (text_eq_iff (hyphenated u) id).1 named in
      and_then_into _ refl (
        and_then_into _ (ap (ok_or_err _) parsed) (
          and_then_into _ (rw same refl) (
            and_then_into _ (ap (or_database widen seconds to_string) (ap load named ∙ loaded))
              (and_then_into _ refl (and_then_into _ (ap (ok_or_err _) profile) h)))))

  -- If the envelopes and the UUIDs that were printed are read back, with confidences in [0, 1] as such,
  -- then, for a job with the v3 profile whose id is a printed UUID: when an answer of the provider
  -- completes the job under the gateway's projection and the store returns the job so completed, an
  -- authenticated request for it is answered with status 200, and the consumer reads from the body
  -- exactly the provider's result: its duration, its segments in order and its request id.
  pub completed_read :
      (laws : JobIdLaws hyphenated parse_str uuid_eq) (good : Rereads reread) {V E : Type 0}
      (from_str : Text → Option V) (from_value : V → Option (EnvelopeV3 Text))
      (reads : EnvelopesRead hyphenated reread to_string from_str from_value)
      (s t : BatchJobSnapshot) (n : ℕ) (r : BatchRecognitionResult) (u : U)
      (load : Text → Result E (Option BatchJobSnapshot))
      → apply_recognition_outcome (validate parse_str widen seconds to_string) s (ok r) ≡ ok t
      → t.job.state ≡ BatchJobState.completed n
      → identity_for_profile s.job.profile ≡ some elevenlabs_scribe_v2_multi_v3
      → hyphenated u ≡ s.id
      → load s.id ≡ ok (some t)
      → (body : Text) × (get widen seconds to_string parse_str hyphenated load true s.id
          ≡ ok (record { status = 200; body = body }))
        × (parse_response_v3 parse_str uuid_eq seconds from_str from_value body ok_status
            ≡ ok (heard_result (λ c. reread (widen c)) seconds u r))
  unfolding validate completed_response
  completed_read laws good from_str from_value reads s t n r u load h e profile named loaded =
      let i = elevenlabs_scribe_v2_multi_v3 in
      let (r', answered, fits, projected, kept) =
        completes_only_fitting (validate parse_str widen seconds to_string) s t n (ok r) h e in
      let same_r : r' ≡ r = ok_injective r' r (sym answered) in
      let (m, _, c) =
        answered_concluded (validate parse_str widen seconds to_string) s t (ok r) h in
      let same_profile : t.job.profile ≡ s.job.profile = ap (λ x. x.job.profile) c in
      let parsed : parse_str s.id ≡ some u = ap parse_str (sym named) ∙ laws.parse_back u in
      let identity : identity_for_result r' ≡ some i =
        same_identity r' ∙ ap identity_for_profile fits.same_profile ∙ profile in
      let passes : project parse_str widen seconds to_string (some u) (some i) r' ≡ true =
        subst (λ o. project parse_str widen seconds to_string o (some i) r' ≡ true) parsed
          (subst (λ o. project parse_str widen seconds to_string (parse_str s.id) o r' ≡ true)
            identity projected) in
      let (response, serialized) = project_served parse_str widen seconds to_string u i r' passes in
      let status = completed_status seconds to_string i u _ response serialized in
      let read =
        parse-serialize_v3 hyphenated parse_str uuid_eq reread seconds laws good to_string from_str
          from_value reads (completed_response widen i u r') response serialized in
      (
        response.body,
        found u s.id load t i _ parsed named loaded (ap identity_for_profile same_profile ∙ profile)
            (completed_answer u t n r' response e kept serialized),
        subst
            (λ x.
              parse_response_v3 parse_str uuid_eq seconds from_str from_value response.body x
              ≡ ok (heard_result (λ c. reread (widen c)) seconds u r))
            status
            (read
              ∙ ap ok (
                  result_heard reread widen seconds u r'
                  ∙ ap (heard_result (λ c. reread (widen c)) seconds u) same_r)),
      )
