-- ===== src/Job/Profile.antt =====
-- The validated texts of crates/voicetext-speech/src/domain/batch.rs: profiles and failure codes.
use voicetext_gateway.Prelude.{
  ℕ, ◌≤◌, ◌<◌, ◌≡◌, ◌≢◌, ◌↔◌, Bool, true, false, not, ◌&&◌, ◌||◌, Text, [], Result, ok, err, ◌==◌,
  ltb, if◌then◌else◌, any, is_empty, is_control, trim, text_eq, text_eq_iff, byte_len, arith,
}

pub data BatchProfileField : Type 0 where
  provider_field model_field language_field : BatchProfileField

pub data InvalidBatchProfile : Type 0 where
  zero_contract_version : InvalidBatchProfile
  invalid_identity : BatchProfileField → InvalidBatchProfile

pub data InvalidBatchFailure : Type 0 where
  invalid_code code_too_long : InvalidBatchFailure

pub record BatchProfile : Type 0 where
  pub contract_version : ℕ
  pub provider : Text
  pub model : Text
  pub language : Text

pub record BatchFailure : Type 0 where
  pub code : Text

unfoldable pub validate_profile_field :
    Text → BatchProfileField → Result InvalidBatchProfile (Unit {0})
validate_profile_field value field =
    if is_empty value || not (text_eq (trim value) value) || any is_control value
    then err (invalid_identity field)
    else ok tt

-- `?` on a validation.
abbrev and_then {ℓ κ} : {E : Type ℓ} {A : Type κ} → Result E (Unit {0}) → Result E A → Result E A
and_then (ok u) r = r
and_then (err e) r = err e

unfoldable pub new_profile : ℕ → Text → Text → Text → Result InvalidBatchProfile BatchProfile
unfolding validate_profile_field
new_profile contract_version provider model language =
    if contract_version == 0
    then err zero_contract_version
    else and_then (validate_profile_field provider provider_field) (
        and_then (validate_profile_field model model_field) (
          and_then (validate_profile_field language language_field) (
            ok (record {
              contract_version = contract_version;
              provider = provider;
              model = model;
              language = language;
            }))))

abbrev pub max_code_bytes : ℕ
max_code_bytes = 128

unfoldable pub new_failure : Text → Result InvalidBatchFailure BatchFailure
new_failure code =
    if is_empty code || not (text_eq (trim code) code)
    then err invalid_code
    else if ltb max_code_bytes (byte_len code)
    then err code_too_long
    else if any is_control code
    then err invalid_code
    else ok (record { code = code })

-- `PartialEq` of profiles.
unfoldable pub profile_eq : BatchProfile → BatchProfile → Bool
profile_eq p q =
    p.contract_version == q.contract_version
    && text_eq p.provider q.provider
    && text_eq p.model q.model
    && text_eq p.language q.language

pub profile_eq_iff : (p q : BatchProfile) → (profile_eq p q ≡ true) ↔ (p ≡ q)
unfolding profile_eq
profile_eq_iff p q = ground (
  arith,
  text_eq_iff p.provider q.provider,
  text_eq_iff p.model q.model,
  text_eq_iff p.language q.language,
)

-- A text that identifies without ambiguity: not empty, not padded, and free of control characters.
abbrev pub IsIdentity : Text → Type 0
IsIdentity t = (t ≢ []) × (trim t ≡ t) × (any is_control t ≡ false)

valid-IsIdentity :
    (t : Text) → (is_empty t || not (text_eq (trim t) t) || any is_control t ≡ false) ↔ IsIdentity t
valid-IsIdentity t = ground (arith, text_eq_iff (trim t) t)

-- A profile is made exactly from a positive contract version and three unambiguous texts, and holds
-- them unchanged.
pub new_profile_iff :
    (version : ℕ) (provider model language : Text) (p : BatchProfile)
    → (new_profile version provider model language ≡ ok p) ↔ (
        (0 < version)
        × IsIdentity provider
        × IsIdentity model
        × IsIdentity language
        × (p ≡ record {
          contract_version = version;
          provider = provider;
          model = model;
          language = language;
        }))
unfolding new_profile
new_profile_iff version provider model language p =
    ground (arith, valid-IsIdentity provider, valid-IsIdentity model, valid-IsIdentity language)

-- A failure code is accepted exactly if it is an unambiguous text of at most 128 bytes, and is kept
-- unchanged.
pub new_failure_iff :
    (code : Text) (f : BatchFailure)
    → (new_failure code ≡ ok f)
      ↔ (IsIdentity code × (byte_len code ≤ max_code_bytes) × (f ≡ record { code = code }))
unfolding new_failure
new_failure_iff code f = ground (arith, text_eq_iff (trim code) code)
