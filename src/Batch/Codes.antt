-- ===== src/Batch/Codes.antt =====
-- The failure codes that application/batch_models.rs records.
use voicetext_gateway.Prelude.{
  ◌≤◌, ◌≡◌, refl, ok, Text, byte_len, Result-cases, inl, inr, text_eq, trim, is_whitespace,
  is_control, text,
}
use voicetext_gateway.Job.Profile.{new_failure, new_failure_iff, max_code_bytes, IsIdentity}
use voicetext_gateway.Batch.Outcome.{batch_failure}

fallback_legal :
    new_failure (text "INVALID_RECOGNITION_FAILURE")
    ≡ ok (record { code = text "INVALID_RECOGNITION_FAILURE" })
unfolding new_failure text_eq trim is_whitespace byte_len is_control
fallback_legal = refl

-- Whatever text a provider gives as its code, the code kept is an unambiguous text of at most 128
-- bytes.
pub failure_code_bounded :
    (code : Text)
    → IsIdentity (batch_failure code).code × (byte_len (batch_failure code).code ≤ max_code_bytes)
unfolding batch_failure
failure_code_bounded code = elim (Result-cases (new_failure code)) [
  | inl (f, e) ↦ rw e (let (i, b, k) = (new_failure_iff code f).0 e in rw k (i, b))
  | inr (x, e) ↦ rw e (let (i, b, _) = (new_failure_iff _ _).0 fallback_legal in (i, b))
]
