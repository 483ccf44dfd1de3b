-- ===== src/Records/Laws.antt =====
-- What the mapping of storage/records.rs relies on: the JSON library reads back what it wrote, and a
-- snapshot has what its types guarantee. Also the lemmas on each column that is written and read.
use mathlib.Core.Option
use mathlib.Core.Path.{subst}
use voicetext_gateway.Prelude.{
  ℕ, ◌≤◌, ◌≡◌, refl, sym, ap, ◌∙◌, Bool, true, false, List, [], ◌∷◌, map, Option, none, some, Text,
  text, ok, and_then-ok, and_then_into, ok_or_err, ok_or_err-ok, length, All, F32, is_finite,
  text_eq_iff, ℤ, pos, try_from, arith,
}
use voicetext_gateway.Job.{BatchProfile}
use voicetext_gateway.Job.Profile.{new_profile, profile_eq_iff}
use voicetext_gateway.Batch.Models.{
  ProviderOperationKind, request_id, transcription_id, session_id, ProviderReference, BatchSegment,
  BatchReadableSegment, BatchRecognitionResult, BatchJobSnapshot,
}
use voicetext_gateway.Batch.Validate.{bad_confidence}
use voicetext_gateway.Records.Checks.{RecordError, refuse, bounded_json}
use voicetext_gateway.Records.State.{IsState}
use voicetext_gateway.Records.Results.{
  Json, ResultRecord, result_record, batch_result, segment_record, batch_segment, readable_record,
  batch_readable, reference_eq, kind_eq, validate_result, check_segments, bad_segment,
  serialize_result, restore_text,
}
use voicetext_gateway.Records.Rows.{into_signed}

abbrev pub FiniteConfidence : Option F32 → Type 0
FiniteConfidence none = Unit {0}
FiniteConfidence (some v) = is_finite v ≡ true

-- Values that were printed are read back. JSON has no number for an infinity or a NaN.
pub record JsonLaws {V : Type 0} (json : Json V) : Type 0 where
  pub value_eq_refl : (t : Text) (v : V) → json.value_from_str t ≡ some v → json.value_eq v v ≡ true
  pub keyterms_back :
      (ks : List Text) (v : V)
      → json.keyterms_to_value ks ≡ some v
      → json.keyterms_from_value v ≡ some ks
  pub result_back :
      (r : ResultRecord) (t : Text)
      → All (λ s. FiniteConfidence s.confidence) r.segments
      → json.result_to_string r ≡ some t
      → json.result_from_str t ≡ some r

-- What the types of a snapshot's fields guarantee: a validated profile, a fingerprint of 32 bytes and
-- a state with a positive `u32` attempt and a validated failure.
pub record IsSnapshot (s : BatchJobSnapshot) : Type 0 where
  pub profile :
      let p = s.job.profile in new_profile p.contract_version p.provider p.model p.language ≡ ok p
  pub fingerprint : length s.job.fingerprint ≡ 32
  pub state : IsState s.job.state

-- A reference without its kind of operation, which no column keeps.
abbrev pub forget_kind : ProviderReference → ProviderReference
forget_kind p = record p { operation_kind = none }

abbrev pub forget_result : BatchRecognitionResult → BatchRecognitionResult
forget_result r = record r { provider_reference = Option.map forget_kind r.provider_reference }

abbrev pub forgotten : BatchJobSnapshot → BatchJobSnapshot
forgotten s = record s {
  provider_reference = Option.map forget_kind s.provider_reference;
  result = Option.map forget_result s.result;
}

pub refuse_passed : (b : Bool) (e : RecordError) (u : Unit {0}) → refuse b e ≡ ok u → b ≡ false
refuse_passed b e u h = ground arith

pub signed_back :
    (top big n : ℕ) (z : ℤ)
    → top ≤ big
    → into_signed top n ≡ some z
    → (z ≡ pos n) × (try_from big z ≡ some n)
signed_back top big n z l h = ground arith

kind_eq-true : (j k : Option ProviderOperationKind) → kind_eq j k ≡ true → j ≡ k
unfolding kind_eq
kind_eq-true none none h = refl
kind_eq-true none (some k) h = cc
kind_eq-true (some request_id) none h = cc
kind_eq-true (some transcription_id) none h = cc
kind_eq-true (some session_id) none h = cc
kind_eq-true (some request_id) (some request_id) h = refl
kind_eq-true (some request_id) (some transcription_id) h = cc
kind_eq-true (some request_id) (some session_id) h = cc
kind_eq-true (some transcription_id) (some request_id) h = cc
kind_eq-true (some transcription_id) (some transcription_id) h = refl
kind_eq-true (some transcription_id) (some session_id) h = cc
kind_eq-true (some session_id) (some request_id) h = cc
kind_eq-true (some session_id) (some transcription_id) h = cc
kind_eq-true (some session_id) (some session_id) h = refl

pub reference_eq-true : (p q : Option ProviderReference) → reference_eq p q ≡ true → p ≡ q
unfolding reference_eq
reference_eq-true none none h = refl
reference_eq-true none (some q) h = cc
reference_eq-true (some p) none h = cc
reference_eq-true (some p) (some q) h =
    ground (arith, text_eq_iff p.id q.id, kind_eq-true p.operation_kind q.operation_kind)

segments_back : (ss : List BatchSegment) → map batch_segment (map segment_record ss) ≡ ss
segments_back [] = refl
segments_back (s ∷ ss) = rw (segments_back ss) refl

readables_back : (ss : List BatchReadableSegment) → map batch_readable (map readable_record ss) ≡ ss
readables_back [] = refl
readables_back (s ∷ ss) = rw (readables_back ss) refl

readable_back :
    (o : Option (List BatchReadableSegment))
    → Option.map (map batch_readable) (Option.map (map readable_record) o) ≡ o
readable_back none = refl
readable_back (some ss) = rw (readables_back ss) refl

batch_result-result_record :
    (p : BatchProfile) (o : Option ProviderReference) (r : BatchRecognitionResult)
    → batch_result p o (result_record r) ≡ record r { profile = p; provider_reference = o }
batch_result-result_record p o r =
    rw (segments_back r.segments, readable_back r.readable_segments) refl

confidence_finite : (o : Option F32) → bad_confidence o ≡ false → FiniteConfidence o
confidence_finite none h = tt
confidence_finite (some v) h = ground arith

segment_finite :
    (d lo : ℕ) (s : BatchSegment) → bad_segment d lo s ≡ false → bad_confidence s.confidence ≡ false
unfolding bad_segment
segment_finite d lo s h = ground arith

segments_finite :
    (d lo : ℕ) (ss : List BatchSegment) (u : Unit {0})
    → check_segments d lo ss ≡ ok u
    → All (λ s. FiniteConfidence s.confidence) (map segment_record ss)
unfolding check_segments
segments_finite d lo [] u h = tt
segments_finite d lo (s ∷ ss) u h = ground (
  arith,
  segments_finite d s.end_millis ss u,
  segment_finite d lo s,
  confidence_finite s.confidence,
)

pub result_finite :
    (r : BatchRecognitionResult) (u : Unit {0})
    → validate_result r ≡ ok u
    → All (λ s. FiniteConfidence s.confidence) (result_record r).segments
unfolding validate_result
result_finite r u h =
    let (a, _, h1) = and_then-ok _ _ u h in
    let (b, e, _) = and_then-ok (check_segments r.duration_millis 0 r.segments) _ u h1 in
    segments_finite r.duration_millis 0 r.segments b e

refuse-false : (b : Bool) (e : RecordError) → b ≡ false → refuse b e ≡ ok tt
refuse-false b e h = rw h refl

module _ {V : Type 0} (json : Json V) where
  restore_text_lem :
      (p : BatchProfile) (o : Option ProviderReference) (c : ResultRecord) (t : Text)
      (u v : Unit {0})
      → bounded_json t ≡ ok u
      → json.result_from_str t ≡ some c
      → validate_result (batch_result p o c) ≡ ok v
      → restore_text json p c.duration_millis o t ≡ ok (batch_result p o c)
  unfolding restore_text
  restore_text_lem p o c t u v h k l = and_then_into _ h (
      and_then_into _ (ap (ok_or_err (text "INVALID_RESULT_JSON")) k)
        (and_then_into _ (refuse-false _ _ (ground arith)) (and_then_into _ l refl)))

  -- What a result that was written is known to be.
  pub serialized :
      JsonLaws json
      → (s : BatchJobSnapshot) (r : BatchRecognitionResult) (t : Text)
      → serialize_result json s r ≡ ok t
      → (r.profile ≡ s.job.profile)
        × (r.duration_millis ≡ s.authoritative_duration_millis)
        × (r.provider_reference ≡ s.provider_reference)
        × (validate_result r ≡ ok tt)
        × (bounded_json t ≡ ok tt)
        × (json.result_from_str t ≡ some (result_record r))
  unfolding serialize_result
  serialized laws s r t h =
      let (u, ids, h1) = and_then-ok _ _ t h in
      let (v, valid, h2) = and_then-ok (validate_result r) _ t h1 in
      let (x, printed, h3) = and_then-ok _ _ t h2 in
      let (w, bounded, h4) = and_then-ok (bounded_json x) _ t h3 in
      let same : x ≡ t = cc in
      let identity = refuse_passed _ _ u ids in
      (
        ground (arith, profile_eq_iff r.profile s.job.profile),
        ground arith,
        ground (arith, reference_eq-true r.provider_reference s.provider_reference),
        valid,
        subst (λ y. bounded_json y ≡ ok tt) same bounded,
        subst (λ y. json.result_from_str y ≡ some (result_record r)) same
            (laws.result_back (result_record r) x (result_finite r v valid)
              (ok_or_err-ok _ _ x printed)),
      )

  -- A result that was written is read back under the profile and the duration of its snapshot.
  pub restore-serialize :
      JsonLaws json
      → (s : BatchJobSnapshot) (r : BatchRecognitionResult) (t : Text)
        (o : Option ProviderReference)
      → serialize_result json s r ≡ ok t
      → restore_text json s.job.profile s.authoritative_duration_millis o t
        ≡ ok (record r { provider_reference = o })
  unfolding validate_result
  restore-serialize laws s r t o h =
      let (profiles, durations, _, valid, bounded, read) = serialized laws s r t h in
      let back = batch_result-result_record r.profile o r in
      let valid_back = subst (λ b. validate_result b ≡ ok tt) (sym back) valid in
      let restored =
        restore_text_lem r.profile o (result_record r) t tt tt bounded read valid_back in
      subst
        (λ p.
          restore_text json p s.authoritative_duration_millis o t
          ≡ ok (record r { provider_reference = o }))
        profiles
        (subst (λ d. restore_text json r.profile d o t ≡ ok (record r { provider_reference = o }))
          durations (restored ∙ ap ok back))
