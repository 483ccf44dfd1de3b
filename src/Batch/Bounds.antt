-- ===== src/Batch/Bounds.antt =====
-- What `valid_result` of application/batch_models.rs establishes, stated without its loops.
use voicetext_gateway.Prelude.{
  ℕ, ◌+◌, ◌≤◌, ◌<◌, ◌≡◌, ◌↔◌, refl, true, false, List, [], ◌∷◌, Option, none, some, arith, length,
  is_empty, Text, byte_len, Option-cases, inl, inr,
}
use voicetext_gateway.Job.Profile.{profile_eq_iff}
use voicetext_gateway.Batch.Models.{
  BatchSegment, BatchReadableSegment, BatchRecognitionResult, BatchJobSnapshot,
}
use voicetext_gateway.Batch.Validate.{
  max_segments, max_transcript_bytes, max_readable_references, bad_confidence, next_bytes,
  segment_fits, readable_fits, check_segments, check_readable, sources_valid, readable_valid,
  segments_valid, valid_result,
}

abbrev speaker_bytes : Option Text → ℕ
speaker_bytes none = 0
speaker_bytes (some t) = byte_len t

-- All the text of the segments, the speakers' names included.
abbrev pub total_bytes : List BatchSegment → ℕ
total_bytes [] = 0
total_bytes (s ∷ rest) = byte_len s.text + speaker_bytes s.speaker + total_bytes rest

-- Segments that follow one another without overlap, from `lo` on, within the duration.
abbrev pub Follow : ℕ → ℕ → List BatchSegment → Type 0
Follow duration lo [] = Unit {0}
Follow duration lo (s ∷ rest) =
    (lo ≤ s.start_millis)
    × (s.start_millis < s.end_millis)
    × (s.end_millis ≤ duration)
    × (is_empty s.text ≡ false)
    × (bad_confidence s.confidence ≡ false)
    × Follow duration s.end_millis rest

next_bytes_iff :
    (b n : ℕ) (s : BatchSegment)
    → n ≤ max_transcript_bytes
    → (next_bytes b s ≡ some n) ↔ (n ≡ b + byte_len s.text + speaker_bytes s.speaker)
unfolding next_bytes
next_bytes_iff b n s h = ground arith

check_segments_sound :
    (d lo b n : ℕ) (ss : List BatchSegment)
    → b ≤ max_transcript_bytes
    → check_segments d lo b ss ≡ some n
    → Follow d lo ss × (n ≡ b + total_bytes ss) × (n ≤ max_transcript_bytes)
unfolding check_segments segment_fits next_bytes
check_segments_sound d lo b n [] h e = ground arith
check_segments_sound d lo b n (s ∷ rest) h e = elim (Option-cases (next_bytes b s)) [
  | inl x ↦ absurd (ground arith)
  | inr (m, x) ↦ ground (arith, check_segments_sound d s.end_millis m n rest)
]

check_segments_complete :
    (d lo b : ℕ) (ss : List BatchSegment)
    → Follow d lo ss
    → b + total_bytes ss ≤ max_transcript_bytes
    → check_segments d lo b ss ≡ some (b + total_bytes ss)
unfolding check_segments segment_fits
check_segments_complete d lo b [] v h = ground arith
check_segments_complete d lo b (s ∷ rest) v h =
    let n = b + byte_len s.text + speaker_bytes s.speaker in
    let e = (next_bytes_iff b n s (omega arith)).1 refl in
    ground (arith, e, check_segments_complete d s.end_millis n rest)

abbrev pub total_references : List BatchReadableSegment → ℕ
total_references [] = 0
total_references (s ∷ rest) = length s.source_segment_indices + total_references rest

abbrev pub readable_bytes : List BatchReadableSegment → ℕ
readable_bytes [] = 0
readable_bytes (s ∷ rest) = byte_len s.text + readable_bytes rest

-- Readable segments that follow one another, each with increasing sources among the raw segments.
abbrev pub ReadableFollow : ℕ → ℕ → ℕ → List BatchReadableSegment → Type 0
ReadableFollow duration count lo [] = Unit {0}
ReadableFollow duration count lo (s ∷ rest) =
    (lo ≤ s.start_millis)
    × (s.start_millis < s.end_millis)
    × (s.end_millis ≤ duration)
    × (is_empty s.text ≡ false)
    × (sources_valid s.source_segment_indices count ≡ true)
    × ReadableFollow duration count s.end_millis rest

abbrev pub ReadableWithin : ℕ → ℕ → ℕ → ℕ → ℕ → List BatchReadableSegment → Type 0
ReadableWithin duration count lo references bytes ss =
    ReadableFollow duration count lo ss
    × (references + total_references ss ≤ max_readable_references)
    × (bytes + readable_bytes ss ≤ max_transcript_bytes)

check_readable_sound :
    (d c lo r b : ℕ) (ss : List BatchReadableSegment)
    → r ≤ max_readable_references
    → b ≤ max_transcript_bytes
    → check_readable d c lo r b ss ≡ true
    → ReadableWithin d c lo r b ss
unfolding check_readable readable_fits
check_readable_sound d c lo r b [] h k e = omega arith
check_readable_sound d c lo r b (s ∷ rest) h k e = ground (
  arith,
  check_readable_sound d c s.end_millis (r + length s.source_segment_indices) (b + byte_len s.text)
      rest,
)

check_readable_complete :
    (d c lo r b : ℕ) (ss : List BatchReadableSegment)
    → ReadableWithin d c lo r b ss
    → check_readable d c lo r b ss ≡ true
unfolding check_readable readable_fits
check_readable_complete d c lo r b [] v = refl
check_readable_complete d c lo r b (s ∷ rest) v = ground (
  arith,
  check_readable_complete d c s.end_millis (r + length s.source_segment_indices)
      (b + byte_len s.text) rest,
)

-- The readable projection, where there is one.
abbrev pub ReadableSound : ℕ → ℕ → ℕ → Option (List BatchReadableSegment) → Type 0
ReadableSound duration count bytes none = Unit {0}
ReadableSound duration count bytes (some ss) =
    (length ss ≤ max_segments) × ReadableWithin duration count 0 0 bytes ss

readable_valid_iff :
    (d c b : ℕ) (o : Option (List BatchReadableSegment))
    → b ≤ max_transcript_bytes
    → (readable_valid d c b o ≡ true) ↔ ReadableSound d c b o
unfolding readable_valid
readable_valid_iff d c b none h = (λ e. tt, λ e. refl)
readable_valid_iff d c b (some ss) h = (
  λ e. ground (arith, check_readable_sound d c 0 0 b ss),
  λ v. ground (arith, check_readable_complete d c 0 0 b ss),
)

-- What makes a result fit to complete the job of a snapshot.
pub record Fits (snapshot : BatchJobSnapshot) (r : BatchRecognitionResult) : Type 0 where
  pub same_profile : r.profile ≡ snapshot.job.profile
  pub same_duration : r.duration_millis ≡ snapshot.authoritative_duration_millis
  pub bounded : length r.segments ≤ max_segments
  pub follow : Follow r.duration_millis 0 r.segments
  pub budget : byte_len r.text + total_bytes r.segments ≤ max_transcript_bytes
  pub readable :
      ReadableSound r.duration_millis
        (length r.segments)
        (byte_len r.text + total_bytes r.segments)
        r.readable_segments

valid_result_sound :
    (snapshot : BatchJobSnapshot) (r : BatchRecognitionResult)
    → valid_result snapshot r ≡ true
    → Fits snapshot r
unfolding valid_result segments_valid
valid_result_sound snapshot r e =
    elim (Option-cases (check_segments r.duration_millis 0 (byte_len r.text) r.segments)) [
      | inl x ↦ absurd (ground arith)
      | inr (n, x) ↦
          let (f, eq, le) =
            check_segments_sound r.duration_millis 0 (byte_len r.text) n r.segments (ground arith)
              x in
          record {
            same_profile = ground (arith, profile_eq_iff r.profile snapshot.job.profile);
            same_duration = ground arith;
            bounded = ground arith;
            follow = f;
            budget = omega arith;
            readable =
                (readable_valid_iff r.duration_millis (length r.segments)
                    (byte_len r.text + total_bytes r.segments) r.readable_segments (omega arith)).0
                  (ground arith);
          }
    ]

valid_result_complete :
    (snapshot : BatchJobSnapshot) (r : BatchRecognitionResult)
    → Fits snapshot r
    → valid_result snapshot r ≡ true
unfolding valid_result segments_valid
valid_result_complete snapshot r v =
    let e =
      check_segments_complete r.duration_millis 0 (byte_len r.text) r.segments v.follow v.budget in
    let k =
      (readable_valid_iff r.duration_millis (length r.segments)
          (byte_len r.text + total_bytes r.segments) r.readable_segments v.budget).1
        v.readable in
    ground (arith, e, k, profile_eq_iff r.profile snapshot.job.profile)

-- A result passes exactly if it bears the job's profile and duration, its segments follow one
-- another without overlap within that duration, with text and with confidences in [0, 1], its
-- readable segments do so too and cite increasing indices of raw segments, and the counts of
-- segments, of bytes and of citations keep to their limits.
pub valid_result_iff :
    (snapshot : BatchJobSnapshot) (r : BatchRecognitionResult)
    → (valid_result snapshot r ≡ true) ↔ Fits snapshot r
valid_result_iff snapshot r = (valid_result_sound snapshot r, valid_result_complete snapshot r)
