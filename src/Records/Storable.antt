-- ===== src/Records/Storable.antt =====
-- `valid_result` of application/batch_models.rs against storage/records/result_validation.rs: the two
-- validations that a result meets on its way into the ledger.
use voicetext_gateway.Prelude.{
  ℕ, ◌+◌, ◌≤◌, ◌≡◌, refl, ap, ◌∙◌, true, false, List, [], ◌∷◌, Option, none, some, ok, and_then,
  and_then_into, length, All, arith,
}
use voicetext_gateway.Batch.Models.{
  BatchSegment, BatchReadableSegment, BatchRecognitionResult, BatchJobSnapshot,
}
use voicetext_gateway.Batch.Bounds.{
  Follow, ReadableFollow, ReadableSound, total_bytes, total_references, readable_bytes,
  valid_result_iff,
}
use voicetext_gateway.Batch.Validate.{sources_valid, valid_result}
use voicetext_gateway.Records.Results.{
  validate_result, check_segments, bad_segment, bad_readable, check_readable, count_references,
  max_readable_references, bad_speaker, max_text_bytes,
}

segments_storable :
    (d lo : ℕ) (ss : List BatchSegment)
    → Follow d lo ss
    → total_bytes ss ≤ max_text_bytes
    → All (λ s. bad_speaker s.speaker ≡ false) ss
    → check_segments d lo ss ≡ ok tt
unfolding check_segments bad_segment
segments_storable d lo [] f b v = refl
segments_storable d lo (s ∷ ss) f b v = ground (arith, segments_storable d s.end_millis ss)

readables_storable :
    (d c n lo : ℕ) (ss : List BatchReadableSegment)
    → ReadableFollow d c lo ss
    → n + total_references ss ≤ max_readable_references
    → readable_bytes ss ≤ max_text_bytes
    → check_readable d c n lo ss ≡ ok (n + total_references ss)
unfolding check_readable bad_readable and_then sources_valid
readables_storable d c n lo [] f b v = ground arith
readables_storable d c n lo (s ∷ ss) f b v =
    ground (arith, readables_storable d c (n + length s.source_segment_indices) s.end_millis ss)

references_storable :
    (d c n : ℕ) (o : Option (List BatchReadableSegment))
    → ReadableSound d c n o
    → (m : ℕ) × (count_references d c o ≡ ok m) × (m ≤ max_readable_references)
unfolding count_references
references_storable d c n none v = (0, refl, omega arith)
references_storable d c n (some ss) v = (
  total_references ss,
  and_then_into _ (ground arith) (
      readables_storable d c 0 0 ss (ground arith) (ground arith) (ground arith)
      ∙ ap ok (omega arith)),
  ground arith,
)

-- A result that the coordinator accepts passes the ledger's own validation, if each speaker that it
-- names has a name of 1 to 256 bytes without control characters.
pub valid_result_storable :
    (s : BatchJobSnapshot) (r : BatchRecognitionResult)
    → valid_result s r ≡ true
    → All (λ t. bad_speaker t.speaker ≡ false) r.segments
    → validate_result r ≡ ok tt
unfolding validate_result
valid_result_storable s r h v =
    let f = (valid_result_iff s r).0 h in
    let (n, counted, few) =
      references_storable r.duration_millis (length r.segments) _ r.readable_segments f.readable in
    let bytes = f.budget in
    let count = f.bounded in
    and_then_into _ (ground arith) (
      and_then_into _ (segments_storable r.duration_millis 0 r.segments f.follow (omega arith) v)
        (and_then_into _ counted (ground arith)))
