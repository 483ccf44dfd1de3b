-- ===== src/Contracts/BatchTests.antt =====
-- Concrete batch responses, over a JSON library that prints failures and short results,
-- and a completed job.
use voicetext_gateway.Prelude.{
  ℕ, zero, suc, ap, sym, ◌∙◌, List, F32, Result, is_finite, in_unit_interval, is_finite_f64,
  in_unit_interval_f64, ◌≡◌, refl, Bool, true, false, ◌&&◌, [], ◌∷◌, Option, none, some, Text, text,
  text_eq, text_eq_iff, ok, F64, if◌then◌else◌, ◌==◌, arith, byte_len, and_then, utf16_len, trim,
  is_whitespace,
}
use voicetext_gateway.Job.{BatchProfile, BatchJobState, restore, complete}
use voicetext_gateway.Job.Profile.{profile_eq}
use voicetext_gateway.Batch.Models.{BatchRecognitionResult, BatchJobSnapshot}
use voicetext_gateway.Batch.Outcome.{apply_recognition_outcome}
use voicetext_gateway.Batch.Validate.{
  valid_result, check_segments, next_bytes, segment_fits, readable_valid,
}
use voicetext_gateway.Gateway.Slots.{elevenlabs_scribe_v2_multi_v3}
use voicetext_gateway.Contracts.Live.{canonical}
use voicetext_gateway.Contracts.Delivery.{Rereads}
use voicetext_gateway.Contracts.BatchModels.{
  ok_status, SegmentV3, ResultV3, EnvelopeV3, validate_text, validate_confidence,
  validate_provider_request,
}
use voicetext_gateway.Contracts.Batch.{parse_response_v3}
use voicetext_gateway.Contracts.BatchOutbound.{
  OutboundBatchResponse, OutboundTranscription, SerializedBatchResponse, StateV3, Body,
  serialize_response, response_body, check_outbound, representable, validate_outbound,
  check_readables,
}
use voicetext_gateway.Contracts.BatchDelivery.{fields_of, told}
use voicetext_gateway.Contracts.BatchRoundTrip.{JobIdLaws, EnvelopesRead, parse-serialize_v3}
use voicetext_gateway.Contracts.Projection.{completed_response, identity_for_result, validate}
use voicetext_gateway.Gateway.BatchStatus.{identity_for_profile, get}
use voicetext_gateway.Gateway.Serving.{heard_result, completed_read}

abbrev job : Text
job = text "0b5b94a4-39a5-4e62-a7e2-c9b8b4a6a3f1"

abbrev job_of : Unit {0} → Text
job_of u = job

abbrev uuid_of : Text → Option (Unit {0})
uuid_of t = some tt

abbrev same_uuid : Unit {0} → Unit {0} → Bool
same_uuid u v = true

id_laws : JobIdLaws job_of uuid_of same_uuid
unfolding canonical byte_len
id_laws = record { parse_back = λ u. refl; hyphenated-canonical = λ u. refl; eq_refl = λ u. refl }

rereads : Rereads (λ c. c)
rereads = record { good = λ c h. h }

abbrev no_time : ℕ → F64
no_time n = 0

abbrev print_failed : ℕ → Text → Text → Text → Bool → Text → Bool → Text → Option Text
print_failed version p m l false status false code =
    if version == 3
      && text_eq p (text "elevenlabs")
      && text_eq m (text "scribe_v2")
      && text_eq l (text "multi")
      && text_eq status (text "failed")
    then some (0 ∷ code)
    else none
print_failed version p m l success status retryable code = none

-- A completed job is printed if its result has one segment, with a confidence and all of the text.
abbrev print_segment : Bool → ℕ → ℕ → ℕ → Text → Option F64 → Option Text
print_segment true duration start stop words (some c) =
    some (1 ∷ duration ∷ start ∷ stop ∷ c ∷ words)
print_segment _ duration start stop words c = none

abbrev is_ours : Text → Text → Text → Bool
is_ours p m l =
    text_eq p (text "elevenlabs") && text_eq m (text "scribe_v2") && text_eq l (text "multi")

abbrev print_completed :
    ℕ
    → Text
    → Text
    → Text
    → Bool
    → Text
    → Text
    → Text
    → Text
    → Text
    → ℕ
    → List SegmentV3
    → Option Text
    → Option Text
print_completed version p m l true status q n k words duration (s ∷ []) none =
    print_segment
      (version == 3
        && is_ours p m l
        && text_eq status (text "completed")
        && is_ours q n k
        && text_eq s.text words
        && s.index == 0)
      duration s.start_ms s.end_ms words s.confidence
print_completed version p m l success status q n k words duration segments request = none

abbrev print_body : Body (Unit {0}) → Option Text
print_body (Body.envelope_v3 version p m l (StateV3.failed success status u retryable code)) =
    print_failed version p m l success status retryable code
print_body (Body.envelope_v3 version p m l (StateV3.completed success status u r)) =
    print_completed version p m l success status r.provider r.model r.language r.text r.duration_ms
      r.segments r.provider_request
print_body b = none

abbrev envelope : StateV3 (Unit {0}) → Option (EnvelopeV3 Text)
envelope s =
    some (fields_of (λ c. c) job_of 3 (text "elevenlabs") (text "scribe_v2") (text "multi") s)

abbrev one_segment : ℕ → ℕ → ℕ → F64 → Text → ResultV3 (Unit {0})
one_segment duration start stop c words = record {
  result_id = tt;
  provider = text "elevenlabs";
  model = text "scribe_v2";
  language = text "multi";
  text = words;
  duration_ms = duration;
  segments =
      record { index = 0; start_ms = start; end_ms = stop; text = words; confidence = some c } ∷ [];
  provider_request = none;
}

abbrev read_envelope : Text → Option (EnvelopeV3 Text)
read_envelope (zero ∷ code) = envelope (StateV3.failed false (text "failed") tt false code)
read_envelope (suc n ∷ duration ∷ start ∷ stop ∷ c ∷ words) =
    envelope
      (StateV3.completed true (text "completed") tt (one_segment duration start stop c words))
read_envelope t = none

printed_failed :
    (version : ℕ) (p m l : Text) (success : Bool) (status : Text) (u : Unit {0}) (retryable : Bool)
    (code t : Text)
    → print_failed version p m l success status retryable code ≡ some t
    → read_envelope t
      ≡ some
          (fields_of (λ c. c) job_of version p m l (StateV3.failed success status u retryable code))
printed_failed version p m l false status u false code t h = ground (
  arith,
  text_eq_iff p (text "elevenlabs"),
  text_eq_iff m (text "scribe_v2"),
  text_eq_iff l (text "multi"),
  text_eq_iff status (text "failed"),
)
printed_failed version p m l false status u true code t h = cc
printed_failed version p m l true status u retryable code t h = cc

printed_segment :
    (b : Bool) (duration start stop : ℕ) (words : Text) (c : Option F64) (t : Text)
    → print_segment b duration start stop words c ≡ some t
    → (b ≡ true) × (x : F64) × (c ≡ some x) × (1 ∷ duration ∷ start ∷ stop ∷ x ∷ words ≡ t)
printed_segment true duration start stop words (some c) t h = (refl, c, refl, cc)
printed_segment true duration start stop words none t h = cc
printed_segment false duration start stop words c t h = cc

ours :
    (p m l : Text)
    → is_ours p m l ≡ true
    → (p ≡ text "elevenlabs") × (m ≡ text "scribe_v2") × (l ≡ text "multi")
ours p m l h = ground (
  arith,
  text_eq_iff p (text "elevenlabs"),
  text_eq_iff m (text "scribe_v2"),
  text_eq_iff l (text "multi"),
)

ours_printed :
    (version : ℕ) (p m l status q n k said words : Text) (index : ℕ)
    → (version == 3
        && is_ours p m l
        && text_eq status (text "completed")
        && is_ours q n k
        && text_eq said words
        && index == 0)
      ≡ true
    → (version ≡ 3)
      × (is_ours p m l ≡ true)
      × (status ≡ text "completed")
      × (is_ours q n k ≡ true)
      × (said ≡ words)
      × (index ≡ 0)
ours_printed version p m l status q n k said words index h =
    ground (arith, text_eq_iff status (text "completed"), text_eq_iff said words)

printed_completed :
    (version : ℕ) (p m l : Text) (success : Bool) (status q n k words : Text) (duration : ℕ)
    (segments : List SegmentV3) (request : Option Text) (t : Text)
    → print_completed version p m l success status q n k words duration segments request ≡ some t
    → read_envelope t
      ≡ some (
          fields_of
            (λ c. c)
            job_of
            version
            p
            m
            l
            (StateV3.completed success status tt (record {
              result_id = tt;
              provider = q;
              model = n;
              language = k;
              text = words;
              duration_ms = duration;
              segments = segments;
              provider_request = request;
            })))
printed_completed version p m l true status q n k words duration (s ∷ []) none t h =
    let (tests, x, confidence, printed) =
      printed_segment _ duration s.start_ms s.end_ms words s.confidence t h in
    let (version_is, identity, named, again, same_text, first) =
      ours_printed version p m l status q n k s.text words s.index tests in
    let (e1, e2, e3) = ours p m l identity in
    let (e4, e5, e6) = ours q n k again in ap read_envelope (sym printed) ∙ cc
printed_completed version p m l true status q n k words duration (s ∷ []) (some x) t h = cc
printed_completed version p m l true status q n k words duration [] request t h = cc
printed_completed version p m l true status q n k words duration (s ∷ z ∷ ss) request t h = cc
printed_completed version p m l false status q n k words duration segments request t h = cc

bodies_read : EnvelopesRead job_of (λ c. c) print_body (λ t. some t) read_envelope
bodies_read version p m l (StateV3.pending success status u action delay) t good h = cc
bodies_read version p m l (StateV3.failed success status u retryable code) t good h =
    (t, refl, printed_failed version p m l success status u retryable code t h)
bodies_read version p m l (StateV3.completed success status u r) t good h = (
  t,
  refl,
  printed_completed version p m l success status r.provider r.model r.language r.text r.duration_ms
      r.segments r.provider_request t h,
)

-- The bits of 0.5.
abbrev one_half : F64
one_half = 4602678819172646912

abbrev transcription : OutboundTranscription
transcription = record {
  text = text "ebb";
  duration_millis = 1000;
  segments =
      record { start_millis = 0; end_millis = 900; text = text "ebb"; confidence = some one_half }
      ∷ [];
  readable_segments = [];
  provider_request_id = none;
}

abbrev printed_result : SerializedBatchResponse
printed_result = record { status = ok_status; body = 1 ∷ 1000 ∷ 0 ∷ 900 ∷ one_half ∷ text "ebb" }

result_sent :
    serialize_response no_time print_body elevenlabs_scribe_v2_multi_v3
      (OutboundBatchResponse.completed tt transcription)
    ≡ ok printed_result
unfolding serialize_response response_body validate_outbound representable check_outbound
    validate_confidence validate_provider_request check_readables validate_text and_then text_eq
    byte_len utf16_len trim is_whitespace is_finite_f64 in_unit_interval_f64
result_sent = refl

parse-serialize_v3_example :
    parse_response_v3 uuid_of same_uuid no_time
      (λ t. some t)
      read_envelope
      printed_result.body
      ok_status
    ≡ ok (told (λ c. c) no_time (OutboundBatchResponse.completed tt transcription))
parse-serialize_v3_example =
    parse-serialize_v3 job_of uuid_of same_uuid (λ c. c) no_time id_laws rereads print_body
      (λ t. some t) read_envelope bodies_read (OutboundBatchResponse.completed tt transcription)
      printed_result result_sent

abbrev profile : BatchProfile
profile = record {
  contract_version = 3;
  provider = text "elevenlabs";
  model = text "scribe_v2";
  language = text "multi";
}

abbrev answer : BatchRecognitionResult
answer = record {
  profile = profile;
  text = text "ebb";
  duration_millis = 1000;
  provider_duration_millis = none;
  segments =
      record {
        start_millis = 0;
        end_millis = 900;
        text = text "ebb";
        confidence = some 0x3f000000;
        speaker = none;
      }
      ∷ [];
  readable_segments = none;
  provider_reference = none;
}

abbrev snapshot : BatchJobState → Option BatchRecognitionResult → BatchJobSnapshot
snapshot state result = record {
  id = job;
  job = restore profile (7 ∷ []) state;
  audio = text "audio";
  authoritative_duration_millis = 1000;
  keyterms = [];
  provider_reference = none;
  retry_after_millis = none;
  result = result;
  revision = 1;
}

-- The only confidence is 0.5.
abbrev widened : F32 → F64
widened c = one_half

completed :
    apply_recognition_outcome
      (validate uuid_of widened no_time print_body)
      (snapshot (BatchJobState.submitting 1) none)
      (ok answer)
    ≡ ok (snapshot (BatchJobState.completed 1) (some answer))
unfolding apply_recognition_outcome validate valid_result restore complete profile_eq text_eq
    byte_len check_segments next_bytes segment_fits readable_valid identity_for_result
    completed_response serialize_response response_body validate_outbound representable
    validate_text check_outbound and_then utf16_len trim is_whitespace check_readables
    validate_confidence validate_provider_request is_finite in_unit_interval is_finite_f64
    in_unit_interval_f64
completed = refl

is_v3 :
    identity_for_profile (snapshot (BatchJobState.submitting 1) none).job.profile
    ≡ some elevenlabs_scribe_v2_multi_v3
unfolding identity_for_profile restore text_eq
is_v3 = refl

is_completed :
    (snapshot (BatchJobState.completed 1) (some answer)).job.state ≡ BatchJobState.completed 1
unfolding restore
is_completed = refl

-- The store has the completed job.
abbrev stored : Text → Result (Unit {0}) (Option BatchJobSnapshot)
stored id = ok (some (snapshot (BatchJobState.completed 1) (some answer)))

completed_read_example :
    (body : Text) × (get widened no_time print_body uuid_of job_of stored true job
      ≡ ok (record { status = 200; body = body }))
    × (parse_response_v3 uuid_of same_uuid no_time (λ t. some t) read_envelope body ok_status
        ≡ ok (heard_result widened no_time tt answer))
completed_read_example =
    completed_read job_of uuid_of same_uuid (λ c. c) widened no_time print_body id_laws rereads
      (λ t. some t) read_envelope bodies_read (snapshot (BatchJobState.submitting 1) none)
      (snapshot (BatchJobState.completed 1) (some answer)) 1 answer tt stored completed is_completed
      is_v3 refl refl
