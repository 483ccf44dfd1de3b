-- ===== src/OggOpus/Headers.antt =====
-- crates/voicetext-audio/src/ogg_opus.rs: the identification and the comment header.
use voicetext_gateway.Prelude.{
  ℕ, zero, suc, ◌+◌, not, ◌||◌, ◌==◌, ltb, if◌then◌else◌, List, text, text_eq, length, take, Result,
  ok, err, and_then,
}
use voicetext_gateway.OggOpus.Types.{
  max_opus_tags_bytes, max_tag_field_bytes, max_tag_count, max_pre_skip_samples,
  OggOpusValidationError, from_le_bytes, byte_at, slice, invalid_identification_header,
  invalid_comment_header,
}

unfoldable pub validate_identification_header : List ℕ → Result OggOpusValidationError ℕ
unfolding from_le_bytes
validate_identification_header payload =
    if not (length payload == 19)
      || not (text_eq (take 8 payload) (text "OpusHead"))
      || not (byte_at 8 payload == 1)
      || not (byte_at 9 payload == 1 || byte_at 9 payload == 2)
      || not (byte_at 18 payload == 0)
    then err invalid_identification_header
    else let pre_skip = from_le_bytes (slice 10 2 payload) in
      if ltb max_pre_skip_samples pre_skip then err invalid_identification_header else ok pre_skip

-- The reads of the comment header: what is read, with the offset after it.
unfoldable pub read_u32_at : List ℕ → ℕ → Result OggOpusValidationError (ℕ × ℕ)
unfolding from_le_bytes
read_u32_at payload offset =
    if ltb (length payload) (offset + 4)
    then err invalid_comment_header
    else ok (from_le_bytes (slice offset 4 payload), offset + 4)

unfoldable pub read_bounded_tag_length : List ℕ → ℕ → Result OggOpusValidationError (ℕ × ℕ)
unfolding read_u32_at
read_bounded_tag_length payload offset =
    and_then (read_u32_at payload offset)
      λ r. if ltb max_tag_field_bytes r.0 then err invalid_comment_header else ok r

-- A length and its field: the offset after both.
unfoldable pub skip_field : List ℕ → ℕ → Result OggOpusValidationError ℕ
unfolding read_bounded_tag_length
skip_field payload offset =
    and_then (read_bounded_tag_length payload offset)
      λ r. if ltb (length payload) (r.1 + r.0) then err invalid_comment_header else ok (r.1 + r.0)

-- `for _ in 0..count`
unfoldable pub skip_fields : ℕ → List ℕ → ℕ → Result OggOpusValidationError ℕ
unfolding skip_field
skip_fields zero payload offset = ok offset
skip_fields (suc count) payload offset =
    and_then (skip_field payload offset) λ next. skip_fields count payload next

unfoldable pub validate_comment_header : List ℕ → Result OggOpusValidationError (Unit {0})
unfolding skip_fields
validate_comment_header payload =
    if ltb (length payload) 16
      || ltb max_opus_tags_bytes (length payload)
      || not (text_eq (take 8 payload) (text "OpusTags"))
    then err invalid_comment_header
    else and_then (skip_field payload 8) λ offset. and_then (read_u32_at payload offset) λ r.
      if ltb max_tag_count r.0
      then err invalid_comment_header
      else and_then (skip_fields r.0 payload r.1) λ _. ok tt
