-- ===== src/Mfa/Types.antt =====
-- The enumeration, data classes and state of auth/mfa_provider.py. A user handle is the text whose
-- UTF-8 it is; bytes are lists of numbers.
use bt_api_security.Prelude.{String, ℕ, Bool, Option, List, Eq, nat_Eq, string_Eq, holds, holds_iff}
use bt_api_security.Dict.{Dict}

pub data MfaType : Type 0 where
  totp hotp webauthn sms email : MfaType

unfoldable pub MfaType-discrete : Discrete MfaType
MfaType-discrete = hlevel

instance abbrev pub mfa_type_Eq : Eq MfaType
mfa_type_Eq = record {
  test = λ a b. holds (MfaType-discrete a b);
  test_iff = λ a b. holds_iff (MfaType-discrete a b);
}

unfoldable pub mfa_type_value : MfaType → String
mfa_type_value totp = "totp"
mfa_type_value hotp = "hotp"
mfa_type_value webauthn = "webauthn"
mfa_type_value sms = "sms"
mfa_type_value email = "email"

pub record MfaConfig : Type 0 where
  pub user_id : String
  pub mfa_type : MfaType
  pub is_enabled : Bool
  pub secret : Option String
  pub backup_codes : List String
  pub counter : ℕ
  pub created_at : ℕ
  pub last_used : Option ℕ
  pub credential_id : Option String
  pub public_key : Option (List ℕ)
  pub sign_count : ℕ
  pub user_handle : Option String

pub record WebauthnCredential : Type 0 where
  pub credential_id : List ℕ
  pub public_key : List ℕ
  pub user_handle : String
  pub rp_id : String
  pub sign_count : ℕ
  pub created_at : ℕ

-- An entry of `_webauthn_challenges`.
pub record Challenge : Type 0 where
  pub challenge : String
  pub expires_at : ℕ

-- The messages that `MFAError` is raised with.
pub data MfaError : Type 0 where
  pyotp_required cryptography_required no_credentials not_configured : MfaError

pub record MfaProvider : Type 0 where
  pub issuer_name : String
  pub totp_window : ℕ
  pub hotp_counter_start : ℕ
  pub backup_codes_count : ℕ
  pub rp_id : String
  pub rp_name : String
  pub mfa_configs : Dict MfaConfig
  pub webauthn_credentials : Dict WebauthnCredential
  pub webauthn_challenges : Dict Challenge

-- `pyotp`: the provisioning URI of a secret for an issuer and a name, the check of a token at a
-- time within a window, and at a counter.
pub record Otp : Type 0 where
  pub provisioning_uri : String → String → String → String
  pub verify_totp : String → String → ℕ → ℕ → Bool
  pub verify_hotp : String → String → ℕ → Bool
