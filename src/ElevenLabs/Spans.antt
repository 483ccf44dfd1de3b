-- ===== src/ElevenLabs/Spans.antt =====
-- The times of the transcripts of elevenlabs/live_state.rs, and the bounds of its queues.
use voicetext_gateway.Prelude.{
  ℕ, ◌+◌, ◌*◌, ◌≤◌, ◌≡◌, ◌∙◌, sym, ◌⊎◌, refl, max, Bool, Bool-cases, true, false, not, ◌||◌, ◌==◌,
  List, [], ◌∷◌, Option, none, some, Text, length, drop, length-append, length-drop, trim, is_empty,
  inl, inr, arith, Unicode, if◌then◌else◌, F32, saturating, u64_max,
}
use voicetext_gateway.Timeline.{is_partial, LiveTranscriptStability}
use voicetext_gateway.Timeline.Horizon.{div_mono}
use voicetext_gateway.Live.{LiveRecognitionEvent, finalize_result_observed}
use voicetext_gateway.ElevenLabs
use voicetext_gateway.ElevenLabs.{
  LiveState, ParsedLiveMessage, TranscriptKind, session_started, terminal_error, ignore,
  segment_final, utterance_final, partial, apply, on_partial, on_segment_final, on_utterance_final,
  finish_utterance, result_of, already_stable, user_audio_millis, current_segment_start,
  transcript_event, record_audio, max_recent_texts, max_pending_events, bytes_per_sample,
  push_bounded, div_or_zero, push_pending, remember,
}
use voicetext_gateway.ElevenLabs.Blanks.{is_blank, normalize_blank, append_blank, trim_blank}

-- Between two calls: what is committed lies before what is stable, and that within the audio written;
-- without stable text the two coincide; and the queues are bounded.
pub record Inv (s : LiveState) : Type 0 where
  pub representable : s.user_audio_bytes ≤ u64_max
  pub ordered : s.committed_end_millis ≤ s.segment_end_millis
  pub within : s.segment_end_millis ≤ user_audio_millis s
  pub settled : is_blank s.stable_text ≡ true → s.segment_end_millis ≡ s.committed_end_millis
  pub recent_stable_bounded : length s.recent_stable ≤ max_recent_texts
  pub recent_committed_bounded : length s.recent_committed ≤ max_recent_texts
  pub pending_bounded : length s.pending ≤ max_pending_events

push_length {ℓ} :
    {A : Type ℓ} (limit : ℕ) (q : List A) (x : A)
    → 1 ≤ limit
    → length q ≤ limit
    → length (push_bounded limit q x) ≤ limit
unfolding push_bounded
push_length limit q x p h =
    ground
      (arith, length-append (if length q == limit then drop 1 q else q) (x ∷ []), length-drop 1 q)

at_most : (a b c : ℕ) → a ≤ b → b ≤ c → a ≤ c
at_most a b c h k = omega arith

millis_grows :
    (a b r : ℕ)
    → a ≤ b
    → div_or_zero (saturating u64_max (a * 1000)) r ≤ div_or_zero (saturating u64_max (b * 1000)) r
millis_grows a b r h = elim (Bool-cases (r == 0)) [
  | inl e ↦ rw e (omega arith)
  | inr e ↦ rw e (div_mono _ _ r (ground arith) (ground arith))
]

-- The audio written only grows the clock.
pub record_audio-Inv : (n : ℕ) (s : LiveState) → Inv s → Inv (record_audio n s)
unfolding record_audio user_audio_millis
record_audio-Inv n s v = record {
  representable = ground arith;
  ordered = v.ordered;
  within = at_most _ _ _ v.within (
      millis_grows s.user_audio_bytes (saturating u64_max (s.user_audio_bytes + n))
        (s.sample_rate_hz * bytes_per_sample) (ground (arith, v.representable)));
  settled = v.settled;
  recent_stable_bounded = v.recent_stable_bounded;
  recent_committed_bounded = v.recent_committed_bounded;
  pending_bounded = v.pending_bounded;
}

-- What an event that is returned in state `s` satisfies, and the state `t` that it leaves.
abbrev pub Spanned : Option LiveRecognitionEvent → LiveState → LiveState → Type 0
Spanned none s t = s.segment_end_millis ≤ t.segment_end_millis
Spanned (some (LiveRecognitionEvent.transcript x)) s t =
    (x.start_millis ≡ s.segment_end_millis)
    × (x.start_millis + x.duration_millis ≡ user_audio_millis s)
    × ((is_partial x.stability ≡ true) ⊎ (t.segment_end_millis ≡ user_audio_millis s))
    × (s.segment_end_millis ≤ t.segment_end_millis)
Spanned (some (LiveRecognitionEvent.utterance_end n)) s t = ⊥
Spanned (some finalize_result_observed) s t = s.finalizing ≡ true

abbrev pub Kept : Option LiveRecognitionEvent × LiveState → LiveState → Type 0
Kept r s = Inv r.1 × Spanned r.0 s r.1

-- An event from the end of the last segment to the clock.
event-Spanned :
    (text : Text) (start end_millis : ℕ) (c : Option F32) (b : LiveTranscriptStability)
    (s t : LiveState)
    → start ≡ s.segment_end_millis
    → end_millis ≡ user_audio_millis s
    → start ≤ end_millis
    → (is_partial b ≡ true) ⊎ (t.segment_end_millis ≡ user_audio_millis s)
    → s.segment_end_millis ≤ t.segment_end_millis
    → Spanned (some (transcript_event text start end_millis c b)) s t
unfolding transcript_event
event-Spanned text start end_millis c b s t p q l h g = (p, omega arith, h, g)

start_is_end : (s : LiveState) → Inv s → current_segment_start s ≡ s.segment_end_millis
unfolding current_segment_start
start_is_end s v = omega (arith, v.ordered)

-- The pending queue does not enter.
Spanned-pending :
    (e : LiveRecognitionEvent) (s t : LiveState) (q : List LiveRecognitionEvent)
    → Spanned (some e) s t
    → Spanned (some e) s (record t { pending = q })
Spanned-pending (LiveRecognitionEvent.transcript x) s t q h = h
Spanned-pending (LiveRecognitionEvent.utterance_end n) s t q h = h
Spanned-pending finalize_result_observed s t q h = h

module _ (unicode : Unicode) where
  partial-Kept :
      (t : Text) (c : Option F32) (s : LiveState) → Inv s → Kept (on_partial unicode t c s) s
  unfolding on_partial
  partial-Kept t c s v = elim (Bool-cases (is_empty (ElevenLabs.normalize unicode t))) [
    | inl e ↦ rw e (v, omega arith)
    | inr e ↦ rw e (
      v,
      event-Spanned t (current_segment_start s) (user_audio_millis s) c
          LiveTranscriptStability.partial s s (start_is_end s v) refl
          (omega (arith, start_is_end s v, v.within)) (inl refl) (omega arith),
    )
  ]

  segment-Kept :
      (t : Text) (c : Option F32) (s : LiveState) → Inv s → Kept (on_segment_final unicode t c s) s
  unfolding on_segment_final user_audio_millis remember transcript_event
  segment-Kept t c s v =
      let normalized = ElevenLabs.normalize unicode t in
      elim (Bool-cases (
        is_empty normalized
        || ElevenLabs.contains_at_boundary s.recent_stable s.accepted_audio_boundary normalized)) [
          | inl e ↦ rw e (v, omega arith)
          | inr e ↦ rw e (
            record {
              representable = v.representable;
              ordered = omega (arith, start_is_end s v, v.within, v.ordered);
              within = omega (arith, start_is_end s v, v.within);
              settled = λ h.
                  ground (
                    arith,
                    append_blank s.stable_text t (normalize_blank unicode t (ground arith)),
                  );
              recent_stable_bounded =
                  push_length max_recent_texts s.recent_stable
                    (s.accepted_audio_boundary, normalized) (omega arith) v.recent_stable_bounded;
              recent_committed_bounded = v.recent_committed_bounded;
              pending_bounded = v.pending_bounded;
            },
            event-Spanned t (current_segment_start s)
                (max (user_audio_millis s) (current_segment_start s)) c
                LiveTranscriptStability.segment_final s
                (record s {
                  segment_end_millis = max (user_audio_millis s) (current_segment_start s);
                })
                (start_is_end s v) (omega (arith, start_is_end s v, v.within)) (omega arith)
                (inr (omega (arith, start_is_end s v, v.within))) (omega (arith, start_is_end s v)),
          )
        ]

  finish-Kept :
      (f : Bool) (e : Option LiveRecognitionEvent) (s t : LiveState)
      → Inv t
      → s.finalizing ≡ f
      → Spanned e s t
      → Kept (finish_utterance unicode f e t) s
  unfolding finish_utterance push_pending user_audio_millis
  finish-Kept false e s t v h k = (v, k)
  finish-Kept true none s t v h k = (v, h)
  finish-Kept true (some e) s t v h k = (
    record {
      representable = v.representable;
      ordered = v.ordered;
      within = v.within;
      settled = v.settled;
      recent_stable_bounded = v.recent_stable_bounded;
      recent_committed_bounded = v.recent_committed_bounded;
      pending_bounded =
          push_length max_pending_events t.pending finalize_result_observed (omega arith)
            v.pending_bounded;
    },
    Spanned-pending e s t (push_pending t.pending finalize_result_observed) k,
  )

  -- An utterance that is not a duplicate starts where the last segment ended.
  utterance_start :
      (r : Option Text) (had : Bool) (text : Text) (boundary start seg : ℕ)
      → already_stable unicode r had ≡ false
      → boundary ≡ seg
      → (had ≡ false → start ≡ seg)
      → (result_of unicode r text boundary start).1 ≡ seg
  utterance_start none had text boundary start seg h p q = q h
  utterance_start (some []) had text boundary start seg h p q = cc
  utterance_start (some (c ∷ t)) had text boundary start seg h p q = p

  duplicate-Spanned :
      (d e : Bool) (r : Option Text) (had : Bool) (text : Text) (boundary start end_millis : ℕ)
      (c : Option F32) (s t : LiveState)
      → Inv s
      → boundary ≡ s.segment_end_millis
      → (had ≡ false → start ≡ s.segment_end_millis)
      → end_millis ≡ user_audio_millis s
      → t.segment_end_millis ≡ end_millis
      → Spanned
          (if d || e || already_stable unicode r had
            then none
            else some (
                transcript_event
                  (result_of unicode r text boundary start).0
                  (result_of unicode r text boundary start).1
                  end_millis
                  c
                  LiveTranscriptStability.utterance_final))
          s
          t
  duplicate-Spanned d e r had text boundary start end_millis c s t v p q m g =
      elim (Bool-cases (d || e || already_stable unicode r had)) [
        | inl h ↦ rw h (omega (arith, v.within))
        | inr h ↦ rw h (
            event-Spanned (result_of unicode r text boundary start).0
              (result_of unicode r text boundary start).1 end_millis c
              LiveTranscriptStability.utterance_final s t
              (utterance_start r had text boundary start s.segment_end_millis (ground arith) p q) m
              (omega (
                arith,
                v.within,
                m,
                utterance_start r had text boundary start s.segment_end_millis (ground arith) p q,
              ))
              (inr (g ∙ m)) (omega (arith, v.within)))
      ]

  recent_kept :
      (b : Bool) (q : List (ℕ × Text)) (x : ℕ × Text)
      → length q ≤ max_recent_texts
      → length (if b then q else push_bounded max_recent_texts q x) ≤ max_recent_texts
  recent_kept true q x h = h
  recent_kept false q x h = push_length max_recent_texts q x (omega arith) h

  utterance-Kept :
      (t : Text) (c : Option F32) (s : LiveState)
      → Inv s
      → Kept (on_utterance_final unicode t c s) s
  unfolding on_utterance_final user_audio_millis remember
  utterance-Kept t c s v =
      let normalized = ElevenLabs.normalize unicode t in
      finish-Kept s.finalizing _ s _
        (record {
          representable = v.representable;
          ordered = omega arith;
          within = omega (arith, v.within, v.ordered);
          settled = λ h. refl;
          recent_stable_bounded = v.recent_stable_bounded;
          recent_committed_bounded =
              recent_kept (is_empty normalized) s.recent_committed
                (s.accepted_audio_boundary, normalized) v.recent_committed_bounded;
          pending_bounded = v.pending_bounded;
        })
        refl
        (duplicate-Spanned (is_empty normalized)
          (ElevenLabs.contains_at_boundary s.recent_committed s.accepted_audio_boundary normalized)
          (ElevenLabs.committed_suffix_after_stable_prefix unicode t s.stable_text)
          (not (is_empty (trim s.stable_text))) t _ _ _ c s _ v (omega (arith, v.within, v.ordered))
          (λ h. sym (v.settled (trim_blank s.stable_text (ground arith))))
          (omega (arith, v.within, v.ordered)) refl)

  -- Whatever message arrives, the invariant is kept; a transcript that is returned starts exactly
  -- where the last segment ended and ends exactly at the clock of the audio written, and a final one
  -- moves the segment end there; no utterance end is made up; and finalize evidence is returned only
  -- while a finalization is under way.
  pub apply-Kept : (m : ParsedLiveMessage) (s : LiveState) → Inv s → Kept (apply unicode m s) s
  unfolding apply user_audio_millis
  apply-Kept (session_started none) s v = (v, omega arith)
  apply-Kept (session_started (some r)) s v = (
    record {
      representable = v.representable;
      ordered = v.ordered;
      within = v.within;
      settled = v.settled;
      recent_stable_bounded = v.recent_stable_bounded;
      recent_committed_bounded = v.recent_committed_bounded;
      pending_bounded = v.pending_bounded;
    },
    omega arith,
  )
  apply-Kept (ParsedLiveMessage.transcript partial t c) s v = partial-Kept t c s v
  apply-Kept (ParsedLiveMessage.transcript segment_final t c) s v = segment-Kept t c s v
  apply-Kept (ParsedLiveMessage.transcript utterance_final t c) s v = utterance-Kept t c s v
  apply-Kept (terminal_error code) s v = (v, omega arith)
  apply-Kept ignore s v = (v, omega arith)
