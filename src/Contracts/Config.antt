-- ===== src/Contracts/Config.antt =====
-- A config frame that is written and read: contracts/live.rs in both directions.
use mathlib.Core.Path.{subst}
use voicetext_gateway.Prelude.{
  ℕ, ◌+◌, ◌≤◌, ◌≡◌, refl, ap, ◌∙◌, Bool, true, false, List, [], ◌∷◌, Option, none, some, Text, text,
  ok, is_empty, length, any, is_control, trim, utf16_len, All, and_then, and_then_into,
  and_then_bound, ok_injective, ok_or_err, ok_or_err-ok, text_eq_iff, arith,
}
use voicetext_gateway.Contracts.Live.{
  ContractViolation, require, LiveIdentity, AudioFormat, deepgram_nova3,
  elevenlabs_scribe_v2_realtime, opus48_khz, pcm_s16le16_khz, ClientConfig, ConfigWire, Uuids,
  identity_wire, identity_of, format_wire, format_of, canonical, session_uuid,
  deserialize_session_id, config_wire, decode_config, with_session, parse_client_config,
  serialize_client_config, validate_language, validate_keyterms, total_keyterms, good_keyterm,
  max_keyterm_count, max_keyterm_total_chars, max_language_chars,
}

-- A UUID is written as a canonical text, and read back from it.
pub record UuidLaws {U : Type 0} (uuids : Uuids U) : Type 0 where
  pub parse_back : (u : U) → uuids.parse_str (uuids.hyphenated u) ≡ some u
  pub hyphenated-canonical : (u : U) → canonical (uuids.hyphenated u) ≡ true

-- The fields of a frame that was written are read back.
abbrev pub ReadsBack : (W : Type 0) → (W → Option Text) → (Text → Option W) → Type 0
ReadsBack W to_string from_str = (w : W) (t : Text) → to_string w ≡ some t → from_str t ≡ some w

identity_back : (i : LiveIdentity) → identity_of (identity_wire i).0 (identity_wire i).1 ≡ ok i
identity_back deepgram_nova3 = refl
identity_back elevenlabs_scribe_v2_realtime = refl

format_back : (f : AudioFormat) → format_of (format_wire f).0 (format_wire f).1 ≡ ok f
format_back opus48_khz = refl
format_back pcm_s16le16_khz = refl

-- The UTF-16 units of all keyterms.
abbrev pub keyterm_units : List Text → ℕ
keyterm_units [] = 0
keyterm_units (k ∷ ks) = utf16_len k + keyterm_units ks

-- The texts of a config are in bounds, and its session id is an RFC 4122 UUID of version 1 to 8.
pub record ValidConfig {U : Type 0} (uuids : Uuids U) (c : ClientConfig U) : Type 0 where
  pub language :
      (is_empty (trim c.language) ≡ false)
      × (trim c.language ≡ c.language)
      × (utf16_len c.language ≤ max_language_chars)
      × (any is_control c.language ≡ false)
  pub few : length c.keyterms ≤ max_keyterm_count
  pub each : All (λ k. good_keyterm k ≡ true) c.keyterms
  pub total : keyterm_units c.keyterms ≤ max_keyterm_total_chars
  pub session : session_uuid uuids c.client_session_id ≡ true

pub require_passed : (b : Bool) (e : ContractViolation) → require b e ≡ ok tt → b ≡ true
require_passed true e h = refl
require_passed false e h = cc

total_keyterms_sound :
    (n m : ℕ) (ks : List Text)
    → total_keyterms n ks ≡ ok m
    → All (λ k. good_keyterm k ≡ true) ks × (m ≡ n + keyterm_units ks)
unfolding total_keyterms and_then
total_keyterms_sound n m [] h = ground arith
total_keyterms_sound n m (k ∷ ks) h = ground (arith, total_keyterms_sound (n + utf16_len k) m ks)

decoded_session :
    {U : Type 0} (uuids : Uuids U) (t : Text) (u : U)
    → deserialize_session_id uuids t ≡ some u
    → session_uuid uuids u ≡ true
unfolding deserialize_session_id
decoded_session uuids t u h = ground arith

decoded_config :
    {U : Type 0} (uuids : Uuids U) (o : Option (ConfigWire Text)) (w : ConfigWire U)
    → decode_config uuids o ≡ some w
    → session_uuid uuids w.client_session_id ≡ true
unfolding decode_config with_session
decoded_config uuids none w h = cc
decoded_config uuids (some c) w h =
    ground (arith, decoded_session uuids c.client_session_id w.client_session_id)

module _ {U : Type 0} (uuids : Uuids U) (laws : UuidLaws uuids) where
  pub session_back :
      (u : U)
      → session_uuid uuids u ≡ true
      → deserialize_session_id uuids (uuids.hyphenated u) ≡ some u
  unfolding deserialize_session_id
  session_back u h = rw (laws.parse_back u, laws.hyphenated-canonical u, h) refl

  decoded_back :
      (c : ClientConfig U)
      → session_uuid uuids c.client_session_id ≡ true
      → decode_config uuids (some (config_wire c (uuids.hyphenated c.client_session_id)))
        ≡ some (config_wire c c.client_session_id)
  unfolding decode_config with_session
  decoded_back c h = rw (session_back c.client_session_id h) refl

  -- If config frames and UUIDs that were printed are read back, then a config with an RFC 4122
  -- session id of version 1 to 8, once it is written, is read back unchanged.
  pub parse-serialize_config :
      (to_string : ConfigWire Text → Option Text) (from_str : Text → Option (ConfigWire Text))
      → ReadsBack (ConfigWire Text) to_string from_str
      → (config : ClientConfig U) (t : Text) → session_uuid uuids config.client_session_id ≡ true
      → serialize_client_config uuids to_string config ≡ ok t
      → parse_client_config uuids from_str t ≡ ok config
  unfolding serialize_client_config parse_client_config
  parse-serialize_config to_string from_str reads config t session h =
      and_then_bound h λ a language h1. and_then_bound h1 λ b keyterms h2.
        let read =
          reads (config_wire config (uuids.hyphenated config.client_session_id)) t
            (ok_or_err-ok _ _ t h2) in
        and_then_into _
          (ap (ok_or_err (text "invalid live config JSON"))
            (ap (decode_config uuids) read ∙ decoded_back config session))
          (and_then_into _ refl (
            and_then_into _ refl (
              and_then_into _ refl (
                and_then_into _ (identity_back config.identity) (
                  and_then_into _ (format_back config.audio_format)
                    (and_then_into _ language (and_then_into _ keyterms refl)))))))

-- A config frame that is accepted is within the bounds of the contract.
pub parse_config-Valid :
    {U : Type 0} (uuids : Uuids U) (from_str : Text → Option (ConfigWire Text)) (t : Text)
    (config : ClientConfig U)
    → parse_client_config uuids from_str t ≡ ok config
    → ValidConfig uuids config
unfolding parse_client_config validate_language validate_keyterms
parse_config-Valid uuids from_str t config h = and_then_bound h λ w decoded h1.
    and_then_bound h1 λ a version h2. and_then_bound h2 λ b mono h3.
      and_then_bound h3 λ c capable h4. and_then_bound h4 λ identity known h5.
        and_then_bound h5 λ format compatible h6. and_then_bound h6 λ d language h7.
          and_then_bound h7 λ e keyterms h8. and_then_bound keyterms λ f few k1.
            and_then_bound k1 λ n summed total.
              let (each, sum) = total_keyterms_sound 0 n w.keyterms summed in
              let spoken = require_passed _ _ language in
              subst (ValidConfig uuids) (ok_injective _ config h8) (record {
                language = ground (arith, text_eq_iff (trim w.language) w.language);
                few = ground arith;
                each = each;
                total = ground arith;
                session = decoded_config uuids (from_str t) w (ok_or_err-ok _ _ w decoded);
              })
