-- ===== src/Deepgram/Disjoint.antt =====
-- The overlaps of utterances in deepgram/timeline.rs.
use mathlib.Core.Path.{subst}
use voicetext_gateway.Prelude.{
  ℕ, ◌≤◌, ◌<◌, ◌-◌, ◌≡◌, refl, Bool, Bool-cases, true, false, List, [], ◌∷◌, Option, Result,
  Result-cases, ok, err, inl, inr, All, Unicode, arith, leb, ltb,
}
use voicetext_gateway.Deepgram.{
  ParsedSegment, ParsedBatchResult, disjoint_from, normalize_utterance_overlaps, pushed,
  max_utterance_overlap_millis, merge_contained_text, normalize, normalize_segments,
  normalize_readable, maximum_provider_end, reference_of, disjoint_result, ParsedReadableSegment,
}
use voicetext_gateway.Deepgram.Timing.{IsInside, Inside, segments-Inside}
use voicetext_gateway.Batch.Models.{RecognitionFailure, ProviderReference}

-- Segments that are not empty, follow one another from `lo` on without overlap, and end by `hi`.
abbrev pub Disjoint : ℕ → ℕ → List ParsedSegment → Type 0
Disjoint lo hi [] = Unit {0}
Disjoint lo hi (s ∷ ss) =
    (lo ≤ s.start_ms) × (s.start_ms < s.end_ms) × (s.end_ms ≤ hi) × Disjoint s.end_ms hi ss

abbrev pub DisjointResult : ℕ → ℕ → Result RecognitionFailure (List ParsedSegment × Bool) → Type 0
DisjointResult lo hi (err e) = Unit {0}
DisjointResult lo hi (ok (ss, changed)) = Disjoint lo hi ss

leb-true : (a b : ℕ) → a ≤ b → leb a b ≡ true
leb-true a b h = ground arith

result_weaken :
    (a b hi : ℕ) (r : Result RecognitionFailure (List ParsedSegment × Bool))
    → b ≤ a
    → DisjointResult a hi r
    → DisjointResult b hi r
result_weaken a b hi (err e) l h = tt
result_weaken a b hi (ok ([], c)) l h = tt
result_weaken a b hi (ok (s ∷ ss, c)) l h = (omega arith, h.1, h.2, h.3)

pushed_disjoint :
    (lo hi : ℕ) (p : ParsedSegment) (r : Result RecognitionFailure (List ParsedSegment × Bool))
    → lo ≤ p.start_ms
    → IsInside hi p
    → DisjointResult p.end_ms hi r
    → DisjointResult lo hi (pushed p r)
pushed_disjoint lo hi p (err e) l (a, b) h = tt
pushed_disjoint lo hi p (ok (ss, c)) l (a, b) h = (l, a, b, h)

module _ (unicode : Unicode) (hi : ℕ) (reference : Option ProviderReference) where
  from_disjoint :
      (p : ParsedSegment) (changed : Bool) (ss : List ParsedSegment)
      → IsInside hi p
      → All (IsInside hi) ss
      → DisjointResult p.start_ms hi (disjoint_from unicode p changed ss reference)
  unfolding disjoint_from
  from_disjoint p changed [] (a, b) h = (omega arith, a, b, tt)
  from_disjoint p changed (s ∷ ss) v (w, h) = elim (Bool-cases (leb p.end_ms s.start_ms)) [
    | inl e ↦ rw e (
        pushed_disjoint p.start_ms hi p (disjoint_from unicode s changed ss reference) (omega arith)
          v
          (result_weaken s.start_ms p.end_ms hi (disjoint_from unicode s changed ss reference)
            (ground arith) (from_disjoint s changed ss w h)))
    | inr e ↦ rw e (elim (Bool-cases (ltb max_utterance_overlap_millis (p.end_ms - s.start_ms))) [
      | inl f ↦ rw f tt
      | inr f ↦ rw f (elim (Bool-cases (leb s.end_ms p.end_ms)) [
        | inl g ↦ rw g (
            from_disjoint (record p { text = merge_contained_text unicode p.text s.text }) true ss v
              h)
        | inr g ↦ rw g (
            pushed_disjoint p.start_ms hi p
              (disjoint_from unicode (record s { start_ms = p.end_ms }) true ss reference)
              (omega arith) v
              (from_disjoint (record s { start_ms = p.end_ms }) true ss (ground arith) h))
      ])
    ])
  ]

  overlaps_disjoint :
      (ss : List ParsedSegment)
      → All (IsInside hi) ss
      → DisjointResult 0 hi (normalize_utterance_overlaps unicode ss reference)
  unfolding normalize_utterance_overlaps
  overlaps_disjoint [] h = tt
  overlaps_disjoint (s ∷ ss) (v, h) =
      result_weaken s.start_ms 0 hi (disjoint_from unicode s false ss reference) (omega arith)
        (from_disjoint s false ss v h)

  from_fixed :
      (p : ParsedSegment) (ss : List ParsedSegment)
      → Disjoint p.end_ms hi ss
      → disjoint_from unicode p false ss reference ≡ ok (p ∷ ss, false)
  unfolding disjoint_from
  from_fixed p [] h = refl
  from_fixed p (s ∷ ss) (l, a, b, h) = rw (leb-true p.end_ms s.start_ms l, from_fixed s ss h) refl

  -- Segments that do not overlap are left as they are.
  pub overlaps_fixed :
      (lo : ℕ) (ss : List ParsedSegment)
      → Disjoint lo hi ss
      → normalize_utterance_overlaps unicode ss reference ≡ ok (ss, false)
  unfolding normalize_utterance_overlaps
  overlaps_fixed lo [] h = refl
  overlaps_fixed lo (s ∷ ss) (l, a, b, h) = from_fixed s ss h

-- What `normalize` returns for audio of a duration.
abbrev NormalResult : ℕ → Result RecognitionFailure ParsedBatchResult → Type 0
NormalResult d (err e) = Unit {0}
NormalResult d (ok q) = Disjoint 0 d q.segments

module _ (unicode : Unicode) where
  segmented :
      (parsed : ParsedBatchResult) (d : ℕ) (readable : List ParsedReadableSegment)
      (r : Result RecognitionFailure (List ParsedSegment × Bool))
      → DisjointResult 0 d r
      → NormalResult d (disjoint_result unicode parsed readable r)
  segmented parsed d readable (err e) h = tt
  segmented parsed d readable (ok (ss, c)) h = h

  normalize_result :
      (parsed : ParsedBatchResult) (d : ℕ) → NormalResult d (normalize unicode parsed d)
  unfolding normalize
  normalize_result parsed d =
      elim (Result-cases (
        normalize_segments parsed.segments d (maximum_provider_end d)
          (reference_of parsed.provider_request_id))) [
            | inr (e, h) ↦ rw (h, normalize) tt
            | inl (ss, h) ↦
                rw (h, normalize)
                  (elim (Result-cases (
                    normalize_readable parsed.readable_segments d (maximum_provider_end d)
                      (reference_of parsed.provider_request_id))) [
                        | inr (e, k) ↦ rw (k, normalize) tt
                        | inl (rs, k) ↦
                            rw (k, normalize)
                              (segmented parsed d rs
                                (normalize_utterance_overlaps unicode ss
                                  (reference_of parsed.provider_request_id))
                                (overlaps_disjoint unicode d
                                  (reference_of parsed.provider_request_id) ss
                                  (subst (Inside d) h (
                                    segments-Inside d (maximum_provider_end d)
                                      (reference_of parsed.provider_request_id) parsed.segments))))
                      ])
          ]

  -- A result that `normalize` returns has segments that are not empty, follow one another without
  -- overlap, and end within the authoritative duration; and to normalize their overlaps again changes
  -- nothing.
  pub normalize-Disjoint :
      (parsed q : ParsedBatchResult) (d : ℕ)
      → normalize unicode parsed d ≡ ok q
      → Disjoint 0 d q.segments
        × ((reference : Option ProviderReference)
            → normalize_utterance_overlaps unicode q.segments reference ≡ ok (q.segments, false))
  normalize-Disjoint parsed q d h =
      let v = subst (NormalResult d) h (normalize_result parsed d) in
      (v, λ reference. overlaps_fixed unicode d reference 0 q.segments v)
