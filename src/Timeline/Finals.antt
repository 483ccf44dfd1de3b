-- ===== src/Timeline/Finals.antt =====
-- Which transcripts application/live_timeline.rs lets pass.
use mathlib.Core.Path.{subst}
use voicetext_gateway.Prelude.{
  ℕ, ◌+◌, ◌≤◌, ◌≡◌, ◌↔◌, ◌⊎◌, true, false, Option, none, some, List, [], ◌∷◌, arith, Result, ok,
  err, Result-cases, inl, inr, IsOk, u64_max, if◌then◌else◌,
}
use voicetext_gateway.Timeline.{
  LiveTimeline, LiveTranscript, PendingAudioAcceptance, prepare_audio_write, commit_audio_write,
  validate_transcript, is_partial, provider_lead_tolerance_millis, validate_utterance_end,
  LiveTimelineError, AcceptedAudioError, timing_overflow, beyond_accepted_audio,
  final_regression_or_overlap,
}
use voicetext_gateway.Timeline.Horizon.{Inv, commit-Inv}

-- The end of the last final transcript, from 0.
abbrev pub final_end : Option ℕ → ℕ
final_end none = 0
final_end (some e) = e

-- A transcript passes exactly if its end is a `u64`, is at most 250 ms past the accepted audio, and
-- it is partial or starts no earlier than the last accepted final ended.
pub accepts_iff :
    (x : LiveTranscript) (t : LiveTimeline)
    → IsOk (validate_transcript x t).0 ↔ (
        (x.start_millis + x.duration_millis ≤ u64_max)
        × (x.start_millis + x.duration_millis
            ≤ t.accepted_horizon_millis + provider_lead_tolerance_millis)
        × ((is_partial x.stability ≡ true) ⊎ (final_end t.last_final_end_millis ≤ x.start_millis)))
unfolding validate_transcript
accepts_iff x t = ground arith

-- What passes on the session's timeline: an audio write that the provider took, a transcript, or the
-- end of an utterance.
pub data Input : Type 0 where
  writes : ℕ → Input
  hears : LiveTranscript → Input
  ends : ℕ → Input

abbrev committed : LiveTimeline → Result AcceptedAudioError PendingAudioAcceptance → LiveTimeline
committed t (ok p) = commit_audio_write p t
committed t (err e) = t

pub step : Input → LiveTimeline → LiveTimeline
step (writes n) t = committed t (prepare_audio_write t n)
step (hears x) t = (validate_transcript x t).1
step (ends n) t = (validate_utterance_end n t).1

pub run : List Input → LiveTimeline → LiveTimeline
run [] t = t
run (i ∷ is) t = run is (step i t)

-- The final transcripts that pass, as pairs of start and end.
abbrev passed : Input → Result LiveTimelineError (Unit {0}) → List (ℕ × ℕ) → List (ℕ × ℕ)
passed (hears x) (ok u) rest =
    if is_partial x.stability
    then rest
    else (x.start_millis, x.start_millis + x.duration_millis) ∷ rest
passed _ _ rest = rest

abbrev answer : Input → LiveTimeline → Result LiveTimelineError (Unit {0})
answer (hears x) t = (validate_transcript x t).0
answer _ t = ok tt

pub finals : List Input → LiveTimeline → List (ℕ × ℕ)
finals [] t = []
finals (i ∷ is) t = passed i (answer i t) (finals is (step i t))

-- Intervals that follow one another from `lo` on, and end by `hi`.
abbrev pub Ordered : ℕ → ℕ → List (ℕ × ℕ) → Type 0
Ordered lo hi [] = Unit {0}
Ordered lo hi ((a, b) ∷ r) = (lo ≤ a) × (a ≤ b) × (b ≤ hi) × Ordered b hi r

step-Inv :
    (i : Input) (t : LiveTimeline)
    → Inv t
    → Inv (step i t) × (t.accepted_horizon_millis ≤ (step i t).accepted_horizon_millis)
unfolding step validate_transcript validate_utterance_end
step-Inv (writes n) t v = elim (Result-cases (prepare_audio_write t n)) [
  | inl (p, e) ↦ rw e (let (w, _, m) = commit-Inv t n p v e in (w, m))
  | inr (x, e) ↦ rw e (v, omega arith)
]
step-Inv (hears x) t v = ground arith
step-Inv (ends n) t v = ground arith

pub validate_transcript-Inv :
    (x : LiveTranscript) (t : LiveTimeline) → Inv t → Inv (validate_transcript x t).1
unfolding validate_transcript
validate_transcript-Inv x t v = ground arith

pub validate_utterance_end-Inv :
    (n : ℕ) (t : LiveTimeline) → Inv t → Inv (validate_utterance_end n t).1
unfolding validate_utterance_end
validate_utterance_end-Inv n t v = ground arith

run_horizon :
    (is : List Input) (t : LiveTimeline)
    → Inv t
    → Inv (run is t) × (t.accepted_horizon_millis ≤ (run is t).accepted_horizon_millis)
unfolding run
run_horizon [] t v = (v, omega arith)
run_horizon (i ∷ is) t v =
    let (w, m) = step-Inv i t v in let (z, k) = run_horizon is (step i t) w in (z, omega arith)

-- How `validate_transcript` ends: refused, passed as a partial, or passed as a final that moves the
-- last final end.
transcript_cases :
    (P : Result LiveTimelineError (Unit {0}) × LiveTimeline → Type 0) (x : LiveTranscript)
    (t : LiveTimeline)
    → ((e : LiveTimelineError) → P (err e, t))
    → (is_partial x.stability ≡ true → P (ok tt, t))
    → (is_partial x.stability ≡ false
        → final_end t.last_final_end_millis ≤ x.start_millis
        → x.start_millis + x.duration_millis
          ≤ t.accepted_horizon_millis + provider_lead_tolerance_millis
        → P (ok tt, record t { last_final_end_millis = some (x.start_millis + x.duration_millis) }))
    → P (validate_transcript x t)
unfolding validate_transcript
transcript_cases P x t refused revised final = ground (
  arith,
  refused timing_overflow,
  refused beyond_accepted_audio,
  refused final_regression_or_overlap,
)

hears-Ordered :
    (x : LiveTranscript) (t : LiveTimeline) (hi : ℕ) (rest : LiveTimeline → List (ℕ × ℕ))
    → t.accepted_horizon_millis + provider_lead_tolerance_millis ≤ hi
    → Ordered
        (final_end (validate_transcript x t).1.last_final_end_millis)
        hi
        (rest (validate_transcript x t).1)
    → Ordered
        (final_end t.last_final_end_millis)
        hi
        (passed (hears x) (validate_transcript x t).0 (rest (validate_transcript x t).1))
hears-Ordered x t hi rest h =
    transcript_cases
      (λ r.
        Ordered (final_end r.1.last_final_end_millis) hi (rest r.1)
        → Ordered (final_end t.last_final_end_millis) hi (passed (hears x) r.0 (rest r.1)))
      x t (λ e k. k) (λ p k. rw p k) (λ p a b k. rw p (a, omega arith, omega arith, k))

-- Only a transcript moves the last final end.
writes_final :
    (n : ℕ) (t : LiveTimeline) → (step (writes n) t).last_final_end_millis ≡ t.last_final_end_millis
unfolding step commit_audio_write
writes_final n t = ground arith

ends_final :
    (n : ℕ) (t : LiveTimeline) → (step (ends n) t).last_final_end_millis ≡ t.last_final_end_millis
unfolding step validate_utterance_end
ends_final n t = ground arith

-- On any history of writes and provider events, the final transcripts that pass follow one another
-- without overlap, from the last final before it on, and end at most 250 ms past the audio accepted
-- by its end.
pub finals-Ordered :
    (is : List Input) (t : LiveTimeline)
    → Inv t
    → Ordered
        (final_end t.last_final_end_millis)
        ((run is t).accepted_horizon_millis + provider_lead_tolerance_millis)
        (finals is t)
unfolding run finals step
finals-Ordered [] t v = tt
finals-Ordered (writes n ∷ is) t v =
    subst
      (λ o.
        Ordered (final_end o)
          ((run is (step (writes n) t)).accepted_horizon_millis + provider_lead_tolerance_millis)
          (finals is (step (writes n) t)))
      (writes_final n t) (finals-Ordered is (step (writes n) t) (step-Inv (writes n) t v).0)
finals-Ordered (hears x ∷ is) t v =
    hears-Ordered x t _ (finals is) (omega (arith, (run_horizon (hears x ∷ is) t v).1))
      (finals-Ordered is (step (hears x) t) (step-Inv (hears x) t v).0)
finals-Ordered (ends n ∷ is) t v =
    subst
      (λ o.
        Ordered (final_end o)
          ((run is (step (ends n) t)).accepted_horizon_millis + provider_lead_tolerance_millis)
          (finals is (step (ends n) t)))
      (ends_final n t) (finals-Ordered is (step (ends n) t) (step-Inv (ends n) t v).0)
