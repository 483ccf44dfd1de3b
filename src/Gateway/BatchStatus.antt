-- ===== src/Gateway/BatchStatus.antt =====
-- crates/voicetext-gateway/src/server/batch.rs: the answer to a request for a batch job. Whether the
-- request is authenticated, and what the store loads, are parameters; the metrics are left out.
use voicetext_gateway.Prelude.{
  ℕ, Bool, not, ◌&&◌, Option, none, some, Text, text, text_eq, Result, ok, err, and_then, ok_or_err,
  leb, ◌==◌, if◌then◌else◌, is_empty, all, byte_len, F32, F64,
}
use voicetext_gateway.Job.{
  BatchProfile, BatchJobState, BatchUnknownOutcome, interrupted_submission, submission,
}
use voicetext_gateway.Batch.Models.{BatchJobSnapshot}
use voicetext_gateway.Gateway.Slots.{
  BatchIdentity, deepgram_nova3_multi_v2, elevenlabs_scribe_v2_multi_v3,
}
use voicetext_gateway.Contracts.BatchModels.{
  BatchResponseStatus, accepted, ok_status, poll, retry, is_code_byte,
}
use voicetext_gateway.Contracts.BatchOutbound.{OutboundBatchResponse, Body, serialize_response}
use voicetext_gateway.Contracts.Projection.{completed_response}

abbrev default_poll_millis : ℕ
default_poll_millis = 1000

abbrev default_retry_millis : ℕ
default_retry_millis = 1000

pub data GatewayHttpError : Type 0 where
  unauthorized not_found : GatewayHttpError
  unavailable : Text → GatewayHttpError

pub record Response : Type 0 where
  pub status : ℕ
  pub body : Text

unfoldable pub identity_for_profile : BatchProfile → Option BatchIdentity
identity_for_profile p =
    if p.contract_version == 2
      && text_eq p.provider (text "deepgram")
      && text_eq p.model (text "nova-3")
      && text_eq p.language (text "multi")
    then some deepgram_nova3_multi_v2
    else if p.contract_version == 3
        && text_eq p.provider (text "elevenlabs")
        && text_eq p.model (text "scribe_v2")
        && text_eq p.language (text "multi")
    then some elevenlabs_scribe_v2_multi_v3
    else none

unfoldable pub safe_failure_code : Text → Text
safe_failure_code code =
    if not (is_empty code) && leb (byte_len code) 128 && all is_code_byte code
    then code
    else text "TRANSCRIPTION_FAILED"

-- `unwrap_or`
abbrev or_default : ℕ → Option ℕ → ℕ
or_default d none = d
or_default d (some n) = n

abbrev unknown_code : BatchUnknownOutcome → Text
unknown_code interrupted_submission = text "SUBMISSION_INTERRUPTED"
unknown_code (submission f) = text "PROVIDER_OUTCOME_UNKNOWN"

abbrev status_code : BatchResponseStatus → ℕ
status_code accepted = 202
status_code ok_status = 200

module _ {U : Type 0} (widen : F32 → F64) (seconds : ℕ → F64)
    (to_string : Body U → Option Text) where
  -- The `match snapshot.job.state()` of `response_for_snapshot`.
  unfoldable pub outbound_for :
      BatchIdentity
      → U
      → BatchJobSnapshot
      → BatchJobState
      → Result GatewayHttpError (OutboundBatchResponse U)
  unfolding safe_failure_code
  outbound_for identity job_id s BatchJobState.accepted =
      ok (OutboundBatchResponse.pending job_id poll default_poll_millis)
  outbound_for identity job_id s (BatchJobState.submitting n) =
      ok (OutboundBatchResponse.pending job_id poll default_poll_millis)
  outbound_for identity job_id s (BatchJobState.retryable n f) = ok (
      OutboundBatchResponse.pending job_id retry
        (or_default default_retry_millis s.retry_after_millis))
  outbound_for identity job_id s (BatchJobState.failed n f) =
      ok (OutboundBatchResponse.failed job_id (safe_failure_code f.code))
  outbound_for identity job_id s (BatchJobState.outcome_unknown n reason) =
      ok (OutboundBatchResponse.failed job_id (unknown_code reason))
  outbound_for identity job_id s (BatchJobState.completed n) =
      and_then (ok_or_err (unavailable (text "INVALID_JOB_SNAPSHOT")) s.result)
        λ r. ok (completed_response widen identity job_id r)

  -- `map_err(|_| …)` on what `serialize_response` returns
  abbrev pub or_unavailable : {E A : Type 0} → Result E A → Result GatewayHttpError A
  or_unavailable (ok a) = ok a
  or_unavailable (err e) = err (unavailable (text "RESPONSE_PROJECTION_FAILED"))

  unfoldable pub response_for_snapshot :
      BatchIdentity → U → BatchJobSnapshot → Result GatewayHttpError Response
  unfolding outbound_for
  response_for_snapshot identity job_id s =
      and_then (outbound_for identity job_id s s.job.state) λ outbound.
        and_then (or_unavailable (serialize_response seconds to_string identity outbound))
          λ serialized.
            ok (record { status = status_code serialized.status; body = serialized.body })

  abbrev pub or_database : {E A : Type 0} → Result E A → Result GatewayHttpError A
  or_database (ok a) = ok a
  or_database (err e) = err (unavailable (text "DATABASE_UNAVAILABLE"))

  -- `if !… { return Err(…); }`
  abbrev guard : Bool → GatewayHttpError → Result GatewayHttpError (Unit {0})
  guard b e = if b then ok tt else err e

  -- `authentic` tells what `authenticate` found.
  unfoldable pub get :
      {E : Type 0}
      → (Text → Option U)
      → (U → Text)
      → (Text → Result E (Option BatchJobSnapshot))
      → Bool
      → Text
      → Result GatewayHttpError Response
  unfolding identity_for_profile response_for_snapshot
  get parse_str hyphenated load authentic job_id_path = and_then (guard authentic unauthorized) λ _.
      and_then (ok_or_err not_found (parse_str job_id_path)) λ job_uuid.
        and_then (guard (text_eq (hyphenated job_uuid) job_id_path) not_found) λ _.
          and_then (or_database (load (hyphenated job_uuid))) λ loaded.
            and_then (ok_or_err not_found loaded) λ snapshot.
              and_then
                (ok_or_err (unavailable (text "INVALID_JOB_SNAPSHOT"))
                  (identity_for_profile snapshot.job.profile))
                λ identity. response_for_snapshot identity job_uuid snapshot
