-- ===== src/Contracts/BatchRoundTrip.antt =====
-- A v3 batch response from the server's value to the consumer's: batch_outbound.rs and batch.rs.
use mathlib.Core.Path.{subst}
use voicetext_gateway.Prelude.{
  ℕ, ◌≡◌, refl, sym, ap, ◌∙◌, Bool, true, false, Option, some, Text, text, text_eq, ok,
  and_then_into, and_then_bound, ok_injective, ok_or_err, ok_or_err-ok, F64,
}
use voicetext_gateway.Gateway.Slots.{elevenlabs_scribe_v2_multi_v3}
use voicetext_gateway.Contracts.Live.{canonical}
use voicetext_gateway.Contracts.Delivery.{Rereads}
use voicetext_gateway.Contracts.BatchModels.{
  BatchResponseStatus, accepted, ok_status, EnvelopeV3, require_identity, provider, model, language,
}
use voicetext_gateway.Contracts.Batch.{
  accepted_v3, failed_v3, completed_v3, terminal_v3, judge_v3, by_status, deserialize_job_id,
  decode_envelope, parse_response_v3,
}
use voicetext_gateway.Contracts.BatchOutbound.{
  OutboundBatchResponse, SerializedBatchResponse, StateV3, Body, response_body, serialize_response,
  result_v3,
}
use voicetext_gateway.Contracts.BatchDelivery.{
  Confident, outbound-Confident, fields_of, told, result_told,
}

-- The state that a response is written as.
abbrev state_of : {U : Type 0} → OutboundBatchResponse U → StateV3 U
state_of (OutboundBatchResponse.pending id action delay) =
    StateV3.pending true (text "running") id action delay
state_of (OutboundBatchResponse.failed id code) = StateV3.failed false (text "failed") id false code
state_of (OutboundBatchResponse.completed id r) =
    StateV3.completed true (text "completed") id (result_v3 elevenlabs_scribe_v2_multi_v3 id r)

abbrev status_of : {U : Type 0} → OutboundBatchResponse U → BatchResponseStatus
status_of (OutboundBatchResponse.pending id action delay) = accepted
status_of (OutboundBatchResponse.failed id code) = ok_status
status_of (OutboundBatchResponse.completed id r) = ok_status

-- A UUID is written as a canonical text, read back from it, and equal to itself.
pub record JobIdLaws {U : Type 0} (hyphenated : U → Text) (parse_str : Text → Option U)
    (uuid_eq : U → U → Bool) : Type 0 where
  pub parse_back : (u : U) → parse_str (hyphenated u) ≡ some u
  pub hyphenated-canonical : (u : U) → canonical (hyphenated u) ≡ true
  pub eq_refl : (u : U) → uuid_eq u u ≡ true

-- Envelopes that were printed are read back with their fields, if their confidences are in [0, 1]: one
-- that is not a number is printed as `null`.
abbrev pub EnvelopesRead :
    {U V : Type 0}
    → (U → Text)
    → (F64 → F64)
    → (Body U → Option Text)
    → (Text → Option V)
    → (V → Option (EnvelopeV3 Text))
    → Type 0
EnvelopesRead hyphenated reread to_string from_str from_value =
    (version : ℕ) (p m l : Text) (s : StateV3 _) (t : Text)
    → Confident s
    → to_string (Body.envelope_v3 version p m l s) ≡ some t
    → (v : _) × (from_str t ≡ some v)
      × (from_value v ≡ some (fields_of reread hyphenated version p m l s))

module _ {U : Type 0} (hyphenated : U → Text) (parse_str : Text → Option U) (uuid_eq : U → U → Bool)
    (reread : F64 → F64) (seconds : ℕ → F64) where
  module _ (laws : JobIdLaws hyphenated parse_str uuid_eq) (good : Rereads reread) where
    job_back : (u : U) → deserialize_job_id parse_str (hyphenated u) ≡ some u
    unfolding deserialize_job_id
    job_back u = rw (laws.hyphenated-canonical u) (laws.parse_back u)

    decoded :
        (version : ℕ) (p m l : Text) (s : StateV3 U)
        → decode_envelope parse_str (some (fields_of reread hyphenated version p m l s))
          ≡ some (fields_of reread (λ u. u) version p m l s)
    unfolding decode_envelope
    decoded version p m l (StateV3.pending success status id action delay) = rw (job_back id) refl
    decoded version p m l (StateV3.failed success status id retryable code) = rw (job_back id) refl
    decoded version p m l (StateV3.completed success status id r) =
        rw (job_back id, job_back r.result_id) refl

    Judged : OutboundBatchResponse U → Type 0
    Judged m =
        let i = elevenlabs_scribe_v2_multi_v3 in
        judge_v3 seconds uuid_eq
          (fields_of reread (λ u. u) 3 (provider i) (model i) (language i) (state_of m))
          (status_of m) i
        ≡ ok (told reread seconds m)

    judged :
        (m : OutboundBatchResponse U) (sb : BatchResponseStatus × Body U)
        → response_body seconds elevenlabs_scribe_v2_multi_v3 m ≡ ok sb
        → Judged m
    unfolding Judged response_body judge_v3 by_status accepted_v3 terminal_v3 failed_v3 completed_v3
        require_identity text_eq
    judged (OutboundBatchResponse.pending id action delay) sb h = and_then_bound h λ a short e.
        and_then_into _ refl (
          and_then_into _ refl (
            and_then_into _ refl (
              and_then_into _ refl
                (and_then_into _ refl (and_then_into _ short (and_then_into _ refl refl))))))
    judged (OutboundBatchResponse.failed id code) sb h = and_then_bound h λ a coded e.
        and_then_into _ refl (
          and_then_into _ refl (
            and_then_into _ refl
              (and_then_into _ refl (and_then_into _ refl (and_then_into _ coded refl)))))
    judged (OutboundBatchResponse.completed id r) sb h = and_then_bound h λ a valid e.
        and_then_into _ refl (
          and_then_into _ refl (
            and_then_into _ refl (
              and_then_into _ refl (
                and_then_into _ refl (
                  and_then_into _ (rw (laws.eq_refl id) refl) (
                    and_then_into _ refl
                      (and_then_into _ (result_told reread seconds good id id r valid) refl)))))))

    confident :
        (m : OutboundBatchResponse U) (sb : BatchResponseStatus × Body U)
        → response_body seconds elevenlabs_scribe_v2_multi_v3 m ≡ ok sb
        → Confident (state_of m)
    unfolding response_body
    confident (OutboundBatchResponse.pending id action delay) sb h = tt
    confident (OutboundBatchResponse.failed id code) sb h = tt
    confident (OutboundBatchResponse.completed id r) sb h =
        and_then_bound h λ a valid e. outbound-Confident id r valid

    -- The status and the body of what was serialized.
    body_of :
        (m : OutboundBatchResponse U) (sb : BatchResponseStatus × Body U)
        → response_body seconds elevenlabs_scribe_v2_multi_v3 m ≡ ok sb
        → let i = elevenlabs_scribe_v2_multi_v3 in
          sb ≡ (status_of m, Body.envelope_v3 3 (provider i) (model i) (language i) (state_of m))
    unfolding response_body
    body_of (OutboundBatchResponse.pending id action delay) sb h =
        and_then_bound h λ a short e. sym (ok_injective _ sb e)
    body_of (OutboundBatchResponse.failed id code) sb h =
        and_then_bound h λ a coded e. sym (ok_injective _ sb e)
    body_of (OutboundBatchResponse.completed id r) sb h =
        and_then_bound h λ a valid e. sym (ok_injective _ sb e)

    -- If the envelopes and the UUIDs that were printed are read back, with confidences in [0, 1] as
    -- such, then a consumer reads, from each v3 response that the server could write and under the
    -- status that came with it, the pending, failed or completed job that the server meant.
    pub parse-serialize_v3 :
        {V : Type 0} (to_string : Body U → Option Text) (from_str : Text → Option V)
        (from_value : V → Option (EnvelopeV3 Text))
        → EnvelopesRead hyphenated reread to_string from_str from_value
        → (m : OutboundBatchResponse U) (r : SerializedBatchResponse)
        → serialize_response seconds to_string elevenlabs_scribe_v2_multi_v3 m ≡ ok r
        → parse_response_v3 parse_str uuid_eq seconds from_str from_value r.body r.status
          ≡ ok (told reread seconds m)
    unfolding serialize_response parse_response_v3 Judged
    parse-serialize_v3 to_string from_str from_value reads m r h =
        and_then_bound h λ (status, body) valid h1. and_then_bound h1 λ printed h_print h2.
          and_then_bound h2 λ b bounded e.
            let i = elevenlabs_scribe_v2_multi_v3 in
            let same = body_of m (status, body) valid in
            let (v, parsed, fields) =
              reads 3 (provider i) (model i) (language i) (state_of m) printed
                (confident m (status, body) valid)
                (subst (λ x. to_string x ≡ some printed) (ap (λ x. x.1) same)
                  (ok_or_err-ok _ _ printed h_print)) in
            let decoding = ap (decode_envelope parse_str) fields ∙ decoded 3 _ _ _ (state_of m) in
            subst
              (λ x.
                parse_response_v3 parse_str uuid_eq seconds from_str from_value x.body x.status
                ≡ ok (told reread seconds m))
              (ok_injective _ r e)
              (and_then_into _ bounded (
                and_then_into _ (ap (ok_or_err _) parsed) (
                  and_then_into _ (ap (ok_or_err _) decoding) (
                    subst
                      (λ x.
                        judge_v3 seconds uuid_eq
                          (fields_of reread (λ u. u) 3 (provider i) (model i) (language i)
                            (state_of m))
                          x i
                        ≡ ok (told reread seconds m))
                      (sym (ap (λ x. x.0) same)) (judged m (status, body) valid)))))
