-- ===== src/Deepgram/Timing.antt =====
-- The clamping of segment ends in deepgram/timeline.rs.
use voicetext_gateway.Prelude.{ℕ, ◌≤◌, ◌<◌, List, [], ◌∷◌, Result, ok, err, All, arith, Option}
use voicetext_gateway.Deepgram.{ParsedSegment, normalize_segments}
use voicetext_gateway.Batch.Models.{RecognitionFailure, ProviderReference}

-- A segment that is not empty and lies inside the audio.
abbrev pub IsInside : ℕ → ParsedSegment → Type 0
IsInside authoritative s = (s.start_ms < s.end_ms) × (s.end_ms ≤ authoritative)

abbrev pub Inside : ℕ → Result RecognitionFailure (List ParsedSegment) → Type 0
Inside d (err e) = Unit {0}
Inside d (ok ts) = All (IsInside d) ts

module _ (authoritative maximum : ℕ) (reference : Option ProviderReference) where
  -- What is clamped lies inside the audio.
  pub segments-Inside :
      (ss : List ParsedSegment)
      → Inside authoritative (normalize_segments ss authoritative maximum reference)
  unfolding normalize_segments
  segments-Inside [] = tt
  segments-Inside (s ∷ ss) = ground (arith, segments-Inside ss)
