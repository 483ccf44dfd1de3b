-- ===== src/ElevenLabs.antt =====
-- crates/voicetext-providers/src/elevenlabs/live_state.rs: the timeline and the duplicates of a live
-- ElevenLabs session. A `VecDeque` is the list of its elements, front first; an index into a `str` is
-- the number of scalar values before it; `u64::try_from` of a 64-bit `usize` is the identity.
pub mod Blanks
pub mod Spans
pub mod Accepted
mod Tests
use voicetext_gateway.Prelude.{
  ℕ, zero, suc, ◌+◌, ◌-◌, ◌*◌, ◌/◌, max, min, Bool, true, false, not, ◌&&◌, ◌||◌, ◌==◌, ltb,
  if◌then◌else◌, Option, none, some, List, [], ◌∷◌, ◌++◌, Text, text_eq, trim, split_whitespace,
  is_empty, length, drop, any, saturating, u64_max, F32, Unicode,
}
use voicetext_gateway.Batch.Models.{ProviderReference, ProviderOperationKind, session_id}
use voicetext_gateway.Timeline.{LiveTranscript, LiveTranscriptStability}
use voicetext_gateway.Live.{LiveRecognitionEvent, finalize_result_observed}

-- elevenlabs/live_dto.rs
pub data TranscriptKind : Type 0 where
  partial segment_final utterance_final : TranscriptKind

pub data ParsedLiveMessage : Type 0 where
  session_started : Option Text → ParsedLiveMessage
  transcript : TranscriptKind → Text → Option F32 → ParsedLiveMessage
  terminal_error : Text → ParsedLiveMessage
  ignore : ParsedLiveMessage

abbrev pub bytes_per_sample : ℕ
bytes_per_sample = 2

abbrev pub max_recent_texts : ℕ
max_recent_texts = 8

abbrev pub max_pending_events : ℕ
max_pending_events = 4

pub record LiveState : Type 0 where
  pub sample_rate_hz : ℕ
  pub user_audio_bytes : ℕ
  pub accepted_audio_boundary : ℕ
  pub segment_end_millis : ℕ
  pub committed_end_millis : ℕ
  pub finalizing : Bool
  pub stable_text : Text
  pub recent_stable : List (ℕ × Text)
  pub recent_committed : List (ℕ × Text)
  pub pending : List LiveRecognitionEvent
  pub provider_reference : Option ProviderReference

unfoldable pub new : ℕ → Option ProviderReference → LiveState
new sample_rate_hz provider_reference = record {
  sample_rate_hz = sample_rate_hz;
  user_audio_bytes = 0;
  accepted_audio_boundary = 0;
  segment_end_millis = 0;
  committed_end_millis = 0;
  finalizing = false;
  stable_text = [];
  recent_stable = [];
  recent_committed = [];
  pending = [];
  provider_reference = provider_reference;
}

unfoldable pub record_audio : ℕ → LiveState → LiveState
record_audio bytes s = record s {
  user_audio_bytes = saturating u64_max (s.user_audio_bytes + bytes);
  accepted_audio_boundary = saturating u64_max (s.accepted_audio_boundary + 1);
}

abbrev pub has_user_audio : LiveState → Bool
has_user_audio s = not (s.user_audio_bytes == 0)

unfoldable pub begin_finalize : LiveState → LiveState
begin_finalize s = record s { finalizing = has_user_audio s }

unfoldable pub cancel_finalize : LiveState → LiveState
cancel_finalize s = record s { finalizing = false }

-- `pending.pop_front()`
abbrev front : List LiveRecognitionEvent → Option LiveRecognitionEvent
front [] = none
front (e ∷ es) = some e

unfoldable pub pop_pending : LiveState → Option LiveRecognitionEvent × LiveState
pop_pending s = (front s.pending, record s { pending = drop 1 s.pending })

unfoldable pub current_segment_start : LiveState → ℕ
current_segment_start s = max s.segment_end_millis s.committed_end_millis

-- `checked_div(…).unwrap_or_default()`
abbrev pub div_or_zero : ℕ → ℕ → ℕ
div_or_zero a b = if b == 0 then 0 else a / b

unfoldable pub user_audio_millis : LiveState → ℕ
user_audio_millis s =
    div_or_zero (saturating u64_max (s.user_audio_bytes * 1000))
      (s.sample_rate_hz * bytes_per_sample)

unfoldable pub transcript_event :
    Text → ℕ → ℕ → Option F32 → LiveTranscriptStability → LiveRecognitionEvent
transcript_event text start_millis end_millis confidence stability =
    LiveRecognitionEvent.transcript (record {
      text = text;
      start_millis = start_millis;
      duration_millis = end_millis - start_millis;
      confidence = confidence;
      stability = stability;
    })

unfoldable pub contains_at_boundary : List (ℕ × Text) → ℕ → Text → Bool
contains_at_boundary queue boundary normalized =
    any (λ e. e.0 == boundary && text_eq e.1 normalized) queue

-- A queue at its limit loses its front to the new element.
unfoldable pub push_bounded {ℓ} : {A : Type ℓ} → ℕ → List A → A → List A
push_bounded limit queue x = (if length queue == limit then drop 1 queue else queue) ++ x ∷ []

unfoldable pub remember : List (ℕ × Text) → ℕ → Text → List (ℕ × Text)
unfolding push_bounded
remember queue boundary value = push_bounded max_recent_texts queue (boundary, value)

unfoldable pub push_pending :
    List LiveRecognitionEvent → LiveRecognitionEvent → List LiveRecognitionEvent
unfolding push_bounded
push_pending queue event = push_bounded max_pending_events queue event

unfoldable pub append_stable : Text → Text → Text
append_stable accumulator text =
    (if is_empty accumulator then accumulator else accumulator ++ 32 ∷ []) ++ trim text

module _ (unicode : Unicode) where
  -- The alphanumeric characters of some words, in lower case.
  unfoldable pub fold_chars : Text → Text
  fold_chars [] = []
  fold_chars (c ∷ t) =
      let rest = fold_chars t in
      if unicode.is_alphanumeric c then unicode.char_to_lowercase c ++ rest else rest

  unfoldable pub fold_words : List Text → Text
  fold_words [] = []
  fold_words (w ∷ ws) = fold_chars w ++ fold_words ws

  unfoldable pub normalize : Text → Text
  unfolding fold_words
  normalize t = fold_words (split_whitespace t)

  -- The loop of `lexical_tokens`: the token so far, its start, and the index of the next character.
  unfoldable pub tokens_from : Text → ℕ → ℕ → Text → List (Text × ℕ)
  tokens_from current start index [] = if is_empty current then [] else (current, start) ∷ []
  tokens_from current start index (c ∷ t) =
      let alnum = unicode.is_alphanumeric c in
      let rest =
        tokens_from (if alnum then current ++ unicode.char_to_lowercase c else [])
          (if alnum && is_empty current then index else start) (suc index) t in
      if not alnum && not (is_empty current) then (current, start) ∷ rest else rest

  unfoldable pub lexical_tokens : Text → List (Text × ℕ)
  unfolding tokens_from
  lexical_tokens t = tokens_from [] 0 0 t

  -- `stable.iter().zip(&committed).all(…)`
  abbrev pub zip_equal : List (Text × ℕ) → List (Text × ℕ) → Bool
  zip_equal ((s, i) ∷ ss) ((c, j) ∷ cs) = text_eq s c && zip_equal ss cs
  zip_equal _ _ = true

  -- The text from the start of the `n`th token on.
  abbrev suffix_from : Text → List (Text × ℕ) → ℕ → Option Text
  suffix_from t [] n = none
  suffix_from t ((w, i) ∷ ws) zero = some (trim (drop i t))
  suffix_from t ((w, i) ∷ ws) (suc n) = suffix_from t ws n

  unfoldable pub committed_suffix_after_stable_prefix : Text → Text → Option Text
  unfolding lexical_tokens
  committed_suffix_after_stable_prefix committed stable =
      let stable_tokens = lexical_tokens stable in
      let committed_tokens = lexical_tokens committed in
      if is_empty stable_tokens
      then none
      else if ltb (length committed_tokens) (length stable_tokens)
          || not (zip_equal stable_tokens committed_tokens)
      then none
      else if length stable_tokens == length committed_tokens
      then some []
      else suffix_from committed committed_tokens (length stable_tokens)

  unfoldable pub on_partial :
      Text → Option F32 → LiveState → Option LiveRecognitionEvent × LiveState
  unfolding normalize current_segment_start user_audio_millis transcript_event
  on_partial text confidence s = if is_empty (normalize text) then (none, s) else (
    some (
        transcript_event text (current_segment_start s) (user_audio_millis s) confidence
          LiveTranscriptStability.partial),
    s,
  )

  unfoldable pub on_segment_final :
      Text → Option F32 → LiveState → Option LiveRecognitionEvent × LiveState
  unfolding normalize current_segment_start user_audio_millis transcript_event contains_at_boundary
      remember append_stable
  on_segment_final text confidence s =
      let normalized = normalize text in
      if is_empty normalized
        || contains_at_boundary s.recent_stable s.accepted_audio_boundary normalized
      then (none, s)
      else let start = current_segment_start s in
        let segment_end = max (user_audio_millis s) start in
        (
          some (
              transcript_event text start segment_end confidence
                LiveTranscriptStability.segment_final),
          record s {
            segment_end_millis = segment_end;
            recent_stable = remember s.recent_stable s.accepted_audio_boundary normalized;
            stable_text = append_stable s.stable_text text;
          },
        )

  -- The text and the start of an utterance's result.
  abbrev pub result_of : Option Text → Text → ℕ → ℕ → Text × ℕ
  result_of none text stable_boundary commit_start = (text, commit_start)
  result_of (some []) text stable_boundary commit_start = (text, commit_start)
  result_of (some (c ∷ t)) text stable_boundary commit_start = (c ∷ t, stable_boundary)

  -- `reconciliation == Some("") || (had_stable && reconciliation.is_none())`
  abbrev pub already_stable : Option Text → Bool → Bool
  already_stable none had_stable = had_stable
  already_stable (some t) had_stable = is_empty t

  -- The last lines, once the state is updated: `finalize_observed` puts the evidence after the event.
  unfoldable pub finish_utterance :
      Bool → Option LiveRecognitionEvent → LiveState → Option LiveRecognitionEvent × LiveState
  unfolding push_pending
  finish_utterance false event s = (event, s)
  finish_utterance true none s = (some finalize_result_observed, s)
  finish_utterance true (some e) s =
      (some e, record s { pending = push_pending s.pending finalize_result_observed })

  unfoldable pub on_utterance_final :
      Text → Option F32 → LiveState → Option LiveRecognitionEvent × LiveState
  unfolding normalize user_audio_millis transcript_event contains_at_boundary remember
      finish_utterance committed_suffix_after_stable_prefix
  on_utterance_final text confidence s =
      let normalized = normalize text in
      let commit_start = s.committed_end_millis in
      let end_millis = max (user_audio_millis s) commit_start in
      let stable_boundary = min (max s.segment_end_millis commit_start) end_millis in
      let reconciliation = committed_suffix_after_stable_prefix text s.stable_text in
      let had_stable = not (is_empty (trim s.stable_text)) in
      let duplicate =
        is_empty normalized
        || contains_at_boundary s.recent_committed s.accepted_audio_boundary normalized
        || already_stable reconciliation had_stable in
      let (result_text, start) = result_of reconciliation text stable_boundary commit_start in
      finish_utterance s.finalizing
        (if duplicate
          then none
          else some (
              transcript_event result_text start end_millis confidence
                LiveTranscriptStability.utterance_final))
        (record s {
          committed_end_millis = end_millis;
          segment_end_millis = end_millis;
          recent_committed =
              if is_empty normalized
              then s.recent_committed
              else remember s.recent_committed s.accepted_audio_boundary normalized;
          stable_text = [];
          finalizing = false;
        })

  unfoldable pub apply : ParsedLiveMessage → LiveState → Option LiveRecognitionEvent × LiveState
  unfolding on_partial on_segment_final on_utterance_final
  apply (session_started none) s = (none, s)
  apply (session_started (some reference)) s = (
    none,
    record s {
      provider_reference = some (record { id = reference; operation_kind = some session_id });
    },
  )
  apply (ParsedLiveMessage.transcript partial text confidence) s = on_partial text confidence s
  apply (ParsedLiveMessage.transcript segment_final text confidence) s =
      on_segment_final text confidence s
  apply (ParsedLiveMessage.transcript utterance_final text confidence) s =
      on_utterance_final text confidence s
  apply (terminal_error code) s = (none, s)
  apply ignore s = (none, s)
