-- ===== src/Mfa/Provider.antt =====
-- `MFAProvider` of auth/mfa_provider.py: one-time passwords, disabling, and what only reads.
use bt_api_security.Prelude.{
  String, ℕ, ◌+◌, Bool, true, false, not, ◌&&◌, Option, none, some, List, [], ◌∷◌, if◌then◌else◌,
  ◌==◌, nat_Eq, string_Eq, remove_first, contains, Result, ok, err,
}
use bt_api_security.Prelude.Text.{◌^◌}
use bt_api_security.Dict.{Dict, lookup, erase, adjust}
use bt_api_security.Mfa.Types.{
  totp, hotp, webauthn, mfa_type_Eq, mfa_type_value, MfaConfig, WebauthnCredential, MfaError,
  not_configured, MfaProvider, Otp,
}
use bt_api_security.Mfa.Setup.{generate_backup_codes, generate_codes, init}

-- `if backup_code and backup_code in config.backup_codes`
abbrev pub has_backup : Option String → MfaConfig → Bool
has_backup none c = false
has_backup (some code) c = not (code == "") && contains code c.backup_codes

abbrev pub drop_backup : Option String → MfaConfig → MfaConfig
drop_backup none c = c
drop_backup (some code) c = record c { backup_codes = remove_first code c.backup_codes }

-- The writes of a verification.
abbrev pub use_backup : Option String → ℕ → MfaConfig → MfaConfig
use_backup code now c = record (drop_backup code c) { last_used = some now }

abbrev pub pass_totp : ℕ → MfaConfig → MfaConfig
pass_totp now c = record c { last_used = some now; is_enabled = true }

abbrev pub pass_hotp : ℕ → MfaConfig → MfaConfig
pass_hotp now c = record c { counter = c.counter + 1; last_used = some now; is_enabled = true }

-- A write to the configuration of a user.
abbrev pub write_config : String → (MfaConfig → MfaConfig) → MfaProvider → MfaProvider
write_config user_id f s = record s { mfa_configs = adjust user_id f s.mfa_configs }

-- The token check of a configuration; no secret or an empty one fails.
unfoldable pub totp_passes : Otp → String → ℕ → ℕ → MfaConfig → Bool
totp_passes otp token window now c = elim c.secret [
  | none ↦ false
  | some secret ↦ not (secret == "") && otp.verify_totp secret token window now
]

unfoldable pub hotp_passes : Otp → String → MfaConfig → Bool
hotp_passes otp token c = elim c.secret [
  | none ↦ false
  | some secret ↦ not (secret == "") && otp.verify_hotp secret token c.counter
]

-- `now` is the clock of the token check, `used` that of `last_used`.
unfoldable pub check_totp :
    Otp → ℕ → ℕ → String → String → Option String → MfaConfig → MfaProvider → Bool × MfaProvider
unfolding totp_passes
check_totp otp now used user_id token backup_code c s =
    if not (c.mfa_type == totp)
    then (false, s)
    else if has_backup backup_code c
    then (true, write_config user_id (use_backup backup_code used) s)
    else if totp_passes otp token s.totp_window now c
    then (true, write_config user_id (pass_totp used) s)
    else (false, s)

unfoldable pub verify_totp :
    Otp → ℕ → ℕ → String → String → Option String → MfaProvider → Bool × MfaProvider
unfolding check_totp
verify_totp otp now used user_id token backup_code s = elim (lookup user_id s.mfa_configs) [
  | none ↦ (false, s)
  | some c ↦ check_totp otp now used user_id token backup_code c s
]

unfoldable pub check_hotp :
    Otp → ℕ → String → String → Option String → MfaConfig → MfaProvider → Bool × MfaProvider
unfolding hotp_passes
check_hotp otp used user_id token backup_code c s =
    if not (c.mfa_type == hotp)
    then (false, s)
    else if has_backup backup_code c
    then (true, write_config user_id (use_backup backup_code used) s)
    else if hotp_passes otp token c
    then (true, write_config user_id (pass_hotp used) s)
    else (false, s)

unfoldable pub verify_hotp :
    Otp → ℕ → String → String → Option String → MfaProvider → Bool × MfaProvider
unfolding check_hotp
verify_hotp otp used user_id token backup_code s = elim (lookup user_id s.mfa_configs) [
  | none ↦ (false, s)
  | some c ↦ check_hotp otp used user_id token backup_code c s
]

-- `self._webauthn_credentials.pop(config.credential_id, None)` for a credential that is not `None`.
abbrev pub drop_credential : Option String → Dict WebauthnCredential → Dict WebauthnCredential
drop_credential none d = d
drop_credential (some id) d = erase id d

unfoldable pub forget : String → MfaConfig → MfaProvider → MfaProvider
forget user_id c s = record s {
  mfa_configs = erase user_id s.mfa_configs;
  webauthn_credentials = drop_credential c.credential_id s.webauthn_credentials;
  webauthn_challenges = erase ("auth_" ^ user_id) (erase user_id s.webauthn_challenges);
}

-- The backup code that is removed first goes with the configuration.
unfoldable pub disable_mfa : String → Option String → MfaProvider → Bool × MfaProvider
unfolding forget
disable_mfa user_id backup_code s = elim (lookup user_id s.mfa_configs) [
  | none ↦ (false, s)
  | some c ↦ if has_backup backup_code c then (true, forget user_id c s) else (false, s)
]

unfoldable pub get_mfa_status : String → MfaProvider → Option MfaConfig
get_mfa_status user_id s = lookup user_id s.mfa_configs

-- `none` if the draws run out.
unfoldable pub regenerate_backup_codes :
    List ℕ → String → MfaProvider → Option (Result MfaError (List String) × MfaProvider)
unfolding generate_codes
regenerate_backup_codes draws user_id s = elim (lookup user_id s.mfa_configs) [
  | none ↦ some (err not_configured, s)
  | some c ↦ elim (generate_backup_codes draws s) [
    | none ↦ none
    | some codes ↦ some (ok codes, write_config user_id (λ c. record c { backup_codes = codes }) s)
  ]
]

unfoldable pub is_mfa_enabled : String → MfaProvider → Bool
is_mfa_enabled user_id s = elim (lookup user_id s.mfa_configs) [
  | none ↦ false
  | some c ↦ c.is_enabled
]

pub record Method : Type 0 where
  pub type : String
  pub name : String
  pub description : String
  pub available : Bool

unfoldable pub get_available_mfa_methods : (pyotp crypto : Bool) → List Method
unfolding mfa_type_value
get_available_mfa_methods pyotp crypto =
    record {
      type = mfa_type_value totp;
      name = "Time-based One-Time Password (TOTP)";
      description = "Use authenticator app like Google Authenticator";
      available = pyotp;
    }
    ∷ record {
      type = mfa_type_value hotp;
      name = "HMAC-based One-Time Password (HOTP)";
      description = "Counter-based one-time passwords";
      available = pyotp;
    }
    ∷ record {
      type = mfa_type_value webauthn;
      name = "WebAuthn/FIDO2";
      description = "Hardware security keys or biometric authentication";
      available = crypto;
    }
    ∷ []

-- The module's provider: every call replaces it, unless the constructor raises.
unfoldable pub initialize_mfa_provider :
    (pyotp crypto : Bool)
    → String
    → ℕ
    → ℕ
    → ℕ
    → String
    → String
    → Option MfaProvider
    → Result MfaError MfaProvider × Option MfaProvider
unfolding init
initialize_mfa_provider pyotp crypto issuer_name totp_window hotp_counter_start backup_codes_count
      rp_id rp_name held =
    elim (init pyotp crypto issuer_name totp_window hotp_counter_start backup_codes_count rp_id
      rp_name) [ err e ↦ (err e, held) | ok s ↦ (ok s, some s) ]
