-- ===== src/Mfa/Setup.antt =====
-- `MFAProvider` of auth/mfa_provider.py: construction, backup codes, set-up of TOTP and HOTP.
-- `draws` are the numbers that `secrets.randbelow(1000000)` gives, in order.
use bt_api_security.Prelude.{
  String, ℕ, ◌/◌, ◌%◌, Bool, true, false, Option, none, some, List, [], ◌∷◌, ltb, if◌then◌else◌,
  ◌==◌, nat_Eq, string_Eq, length, add, Result, ok, err,
}
use bt_api_security.Prelude.Text.{◌^◌}
use bt_api_security.Prelude.Decimal.{digit}
use bt_api_security.Dict.{insert}
use bt_api_security.Mfa.Types.{
  MfaType, totp, hotp, mfa_type_Eq, MfaConfig, MfaError, pyotp_required, cryptography_required,
  MfaProvider, Otp,
}

-- `__init__`; `pyotp` and `crypto` tell whether the packages are installed.
unfoldable pub init :
    (pyotp crypto : Bool) → String → ℕ → ℕ → ℕ → String → String → Result MfaError MfaProvider
init false crypto issuer_name totp_window hotp_counter_start backup_codes_count rp_id rp_name =
    err pyotp_required
init true false issuer_name totp_window hotp_counter_start backup_codes_count rp_id rp_name =
    err cryptography_required
init true true issuer_name totp_window hotp_counter_start backup_codes_count rp_id rp_name =
    ok (record {
      issuer_name = issuer_name;
      totp_window = totp_window;
      hotp_counter_start = hotp_counter_start;
      backup_codes_count = backup_codes_count;
      rp_id = rp_id;
      rp_name = rp_name;
      mfa_configs = [];
      webauthn_credentials = [];
      webauthn_challenges = [];
    })

-- `f"{n:06d}"` for a number below a million.
unfoldable pub six_digits : ℕ → String
unfolding digit
six_digits n =
    digit (n / 100000 % 10)
    ^ digit (n / 10000 % 10)
    ^ digit (n / 1000 % 10)
    ^ digit (n / 100 % 10)
    ^ digit (n / 10 % 10)
    ^ digit (n % 10)

-- The loop of `_generate_backup_codes`; `none` if it has not ended when the draws run out.
unfoldable pub generate_codes : ℕ → List ℕ → List String → Option (List String)
generate_codes count [] codes = if ltb (length codes) count then none else some codes
generate_codes count (d ∷ draws) codes =
    let rest = generate_codes count draws (add (six_digits d) codes) in
    if ltb (length codes) count then rest else some codes

abbrev pub generate_backup_codes : List ℕ → MfaProvider → Option (List String)
generate_backup_codes draws s = generate_codes s.backup_codes_count draws []

abbrev pub new_config : String → MfaType → ℕ → MfaConfig
new_config user_id type now = record {
  user_id = user_id;
  mfa_type = type;
  is_enabled = false;
  secret = none;
  backup_codes = [];
  counter = 0;
  created_at = now;
  last_used = none;
  credential_id = none;
  public_key = none;
  sign_count = 0;
  user_handle = none;
}

abbrev pub store_config : String → MfaConfig → MfaProvider → MfaProvider
store_config user_id c s = record s { mfa_configs = insert user_id c s.mfa_configs }

pub record TotpSetup : Type 0 where
  pub secret : String
  pub provisioning_uri : String
  pub backup_codes : List String
  pub qr_code : Option String

-- `account_name or user_id`
abbrev pub name_or : Option String → String → String
name_or none user_id = user_id
name_or (some n) user_id = if n == "" then user_id else n

-- `secret` is what `pyotp.random_base32` gives, `qr_code` what `_generate_qr_code` makes of a URI.
unfoldable pub setup_totp :
    Otp
    → (String → Option String)
    → List ℕ
    → String
    → ℕ
    → String
    → Option String
    → MfaProvider
    → Option (TotpSetup × MfaProvider)
unfolding generate_codes
setup_totp otp qr_code draws secret now user_id account_name s =
    elim (generate_backup_codes draws s) [
      | none ↦ none
      | some codes ↦
          let uri = otp.provisioning_uri secret s.issuer_name (name_or account_name user_id) in
          some (
            record {
              secret = secret;
              provisioning_uri = uri;
              backup_codes = codes;
              qr_code = qr_code uri;
            },
            store_config user_id
                (record (new_config user_id totp now) {
                  secret = some secret;
                  backup_codes = codes;
                })
                s,
          )
    ]

pub record HotpSetup : Type 0 where
  pub secret : String
  pub backup_codes : List String
  pub initial_counter : ℕ

unfoldable pub setup_hotp :
    List ℕ → String → ℕ → String → MfaProvider → Option (HotpSetup × MfaProvider)
unfolding generate_codes
setup_hotp draws secret now user_id s = elim (generate_backup_codes draws s) [
  | none ↦ none
  | some codes ↦ some (
    record { secret = secret; backup_codes = codes; initial_counter = s.hotp_counter_start },
    store_config user_id
        (record (new_config user_id hotp now) {
          secret = some secret;
          backup_codes = codes;
          counter = s.hotp_counter_start;
        })
        s,
  )
]
