-- ===== src/Deepgram/Exact.antt =====
-- Exactly what `normalize` of deepgram/timeline.rs returns for utterances that do not overlap.
use mathlib.Core.Path.{subst}
use voicetext_gateway.Prelude.{
  ℕ, ◌≤◌, ◌<◌, ◌+◌, ◌/◌, ◌≡◌, ◌↔◌, refl, false, ap, sym, ◌∙◌, List, [], ◌∷◌, map, max, min, Option,
  Result-cases, ok, inl, inr, IsOk, All, Unicode, arith, u64_max, ok_injective,
}
use voicetext_gateway.Deepgram.{
  ParsedSegment, ParsedReadableSegment, ParsedBatchResult, normalize, normalize_segments,
  normalize_readable, normalize_utterance_overlaps, maximum_provider_end, reference_of,
}
use voicetext_gateway.Deepgram.Disjoint.{Disjoint, overlaps_fixed}
use voicetext_gateway.Batch.Models.{ProviderReference}

-- An interval that starts inside the audio, is not empty, and ends at most 250 ms or half a percent of
-- the audio's duration after it, whichever is more.
abbrev pub IsTimely : ℕ → ℕ → ℕ → Type 0
IsTimely d start_ms end_ms =
    (start_ms < d) × (start_ms < end_ms) × (end_ms ≤ d + max 250 (d / 200)) × (end_ms ≤ u64_max)

abbrev pub SegmentTimely : ℕ → ParsedSegment → Type 0
SegmentTimely d s = IsTimely d s.start_ms s.end_ms

abbrev pub ReadableTimely : ℕ → ParsedReadableSegment → Type 0
ReadableTimely d s = IsTimely d s.start_ms s.end_ms

-- Each segment ends by the start of the next.
abbrev pub Apart : List ParsedSegment → Type 0
Apart [] = Unit {0}
Apart (s ∷ []) = Unit {0}
Apart (s ∷ t ∷ ss) = (s.end_ms ≤ t.start_ms) × Apart (t ∷ ss)

abbrev pub clamp_segment : ℕ → ParsedSegment → ParsedSegment
clamp_segment d s = record s { end_ms = min s.end_ms d }

abbrev pub clamp_readable : ℕ → ParsedReadableSegment → ParsedReadableSegment
clamp_readable d s = record s { end_ms = min s.end_ms d }

-- The result with every end clamped to the audio, and otherwise unchanged.
abbrev pub clamp : ℕ → ParsedBatchResult → ParsedBatchResult
clamp d parsed = record parsed {
  segments = map (clamp_segment d) parsed.segments;
  readable_segments = map (clamp_readable d) parsed.readable_segments;
}

module _ (d : ℕ) (reference : Option ProviderReference) where
  segments_clamped :
      (ss : List ParsedSegment)
      → All (SegmentTimely d) ss
      → normalize_segments ss d (maximum_provider_end d) reference ≡ ok (map (clamp_segment d) ss)
  unfolding normalize_segments
  segments_clamped [] h = refl
  segments_clamped (s ∷ ss) h = ground (arith, segments_clamped ss h.1)

  segments_timely :
      (ss : List ParsedSegment)
      → IsOk (normalize_segments ss d (maximum_provider_end d) reference)
      → All (SegmentTimely d) ss
  unfolding normalize_segments
  segments_timely [] h = tt
  segments_timely (s ∷ ss) h = ground (arith, segments_timely ss)

  readable_clamped :
      (ss : List ParsedReadableSegment)
      → All (ReadableTimely d) ss
      → normalize_readable ss d (maximum_provider_end d) reference ≡ ok (map (clamp_readable d) ss)
  unfolding normalize_readable
  readable_clamped [] h = refl
  readable_clamped (s ∷ ss) h = ground (arith, readable_clamped ss h.1)

  readable_timely :
      (ss : List ParsedReadableSegment)
      → IsOk (normalize_readable ss d (maximum_provider_end d) reference)
      → All (ReadableTimely d) ss
  unfolding normalize_readable
  readable_timely [] h = tt
  readable_timely (s ∷ ss) h = ground (arith, readable_timely ss)

clamped-Disjoint :
    (d lo : ℕ) (s : ParsedSegment) (ss : List ParsedSegment)
    → lo ≤ s.start_ms
    → All (SegmentTimely d) (s ∷ ss)
    → Apart (s ∷ ss)
    → Disjoint lo d (map (clamp_segment d) (s ∷ ss))
clamped-Disjoint d lo s [] l (v, w) a = (l, omega arith, omega arith, tt)
clamped-Disjoint d lo s (t ∷ ss) l (v, w) a =
    (l, omega arith, omega arith, clamped-Disjoint d (min s.end_ms d) t ss (omega arith) w a.1)

module _ (unicode : Unicode) (d : ℕ) where
  overlaps_kept :
      (ss : List ParsedSegment) (reference : Option ProviderReference)
      → All (SegmentTimely d) ss
      → Apart ss
      → normalize_utterance_overlaps unicode (map (clamp_segment d) ss) reference
        ≡ ok (map (clamp_segment d) ss, false)
  unfolding normalize_utterance_overlaps
  overlaps_kept [] reference h a = refl
  overlaps_kept (s ∷ ss) reference h a =
      overlaps_fixed unicode d reference 0 (map (clamp_segment d) (s ∷ ss))
        (clamped-Disjoint d 0 s ss (omega arith) h a)

  normalized :
      (parsed : ParsedBatchResult)
      → All (SegmentTimely d) parsed.segments
      → All (ReadableTimely d) parsed.readable_segments
      → Apart parsed.segments
      → normalize unicode parsed d ≡ ok (clamp d parsed)
  unfolding normalize
  normalized parsed v w a =
      let reference = reference_of parsed.provider_request_id in
      rw (segments_clamped d reference parsed.segments v, normalize)
        (rw (readable_clamped d reference parsed.readable_segments w, normalize)
          (rw (overlaps_kept parsed.segments reference v a, normalize) refl))

  timely :
      (parsed q : ParsedBatchResult)
      → normalize unicode parsed d ≡ ok q
      → All (SegmentTimely d) parsed.segments × All (ReadableTimely d) parsed.readable_segments
  unfolding normalize
  timely parsed q h =
      let reference = reference_of parsed.provider_request_id in
      elim (Result-cases
        (normalize_segments parsed.segments d (maximum_provider_end d) reference)) [
          | inr (e, k) ↦ absurd (ground arith)
          | inl (ss, k) ↦
              elim (Result-cases (
                normalize_readable parsed.readable_segments d (maximum_provider_end d) reference)) [
                  | inr (e, l) ↦ absurd (ground arith)
                  | inl (rs, l) ↦ (
                    segments_timely d reference parsed.segments (subst IsOk (sym k) tt),
                    readable_timely d reference parsed.readable_segments (subst IsOk (sym l) tt),
                  )
                ]
        ]

  -- For utterances that do not overlap, `normalize` returns a result exactly if every segment and every
  -- readable segment starts inside the audio, is not empty, and ends at most 250 ms or half a percent of
  -- its duration after it; and then it returns its argument with every end clamped to the duration.
  pub normalize_iff :
      (parsed q : ParsedBatchResult)
      → Apart parsed.segments
      → (normalize unicode parsed d ≡ ok q) ↔ (
          All (SegmentTimely d) parsed.segments
          × All (ReadableTimely d) parsed.readable_segments
          × (q ≡ clamp d parsed))
  normalize_iff parsed q a = (
    (λ h.
        let (v, w) = timely parsed q h in
        (v, w, ok_injective _ _ (sym h ∙ normalized parsed v w a))),
    (λ h. normalized parsed h.0 h.1 a ∙ sym (ap ok h.2)),
  )
