-- ===== src/Mfa/Tests.antt =====
-- Concrete runs of auth/mfa_provider.py.
use bt_api_security.Prelude.{
  String, ℕ, zero, suc, ◌≤◌, ◌≡◌, refl, ◌↔◌, true, false, Option, none, some, List, [], ◌∷◌, ◌++◌,
  if◌then◌else◌, ◌==◌, nat_Eq, string_Eq, length,
}
use bt_api_security.Prelude.Text.{◌^◌, ends_with}
use bt_api_security.Prelude.Decimal.{digit}
use bt_api_security.Dict.{lookup, insert}
use bt_api_security.Mfa.Types.{MfaType-discrete, totp, hotp, MfaConfig, MfaProvider, Otp}
use bt_api_security.Mfa.Setup.{generate_codes, six_digits, new_config, TotpSetup, setup_totp}
use bt_api_security.Mfa.Provider.{verify_totp, verify_hotp, check_hotp, hotp_passes}
use bt_api_security.Mfa.Webauthn.{
  AssertionData, Codec, from_bytes, client_fits, read_assertion, new_sign_count, authenticate,
  accept_assertion, verify_webauthn_authentication,
}
use bt_api_security.Mfa.Codes.{IsDistinct, generate_codes_iff}
use bt_api_security.Mfa.Traces.{AllConfigs, anything, Reach, here, next, setup_totp_step}
use bt_api_security.Mfa.BackupCodes.{HasNoEffect, backup_once}
use bt_api_security.Mfa.Counters.{IsPast, counter_passed}
use bt_api_security.Mfa.Replay.{disguised, replay_refused, signature_ignored}

abbrev otp : Otp
otp = record {
  provisioning_uri = λ secret issuer name. "otpauth://" ^ secret;
  verify_totp = λ secret token window now. token == "111111";
  verify_hotp = λ secret token counter. token == "222222";
}

abbrev zeros : ℕ → List ℕ
zeros zero = []
zeros (suc n) = 0 ∷ zeros n

-- Text that is not empty can be decoded: "data" to authenticator data with both flags and count 7.
abbrev decode_text : String → Option (List ℕ)
decode_text t =
    if t == ""
    then none
    else if t == "data"
    then some (zeros 32 ++ 5 ∷ 0 ∷ 0 ∷ 0 ∷ 7 ∷ [])
    else some (1 ∷ [])

abbrev codec : Codec
codec = record {
  cbor2_available = true;
  client_data = λ t. some (record {
    challenge = some t;
    type = some "webauthn.get";
    origin = some "https://example.org";
  });
  decode = decode_text;
  encode = λ xs. "AQ";
  auth_data = λ xs. none;
}

abbrev empty_provider : MfaProvider
empty_provider = record {
  issuer_name = "issuer";
  totp_window = 1;
  hotp_counter_start = 0;
  backup_codes_count = 2;
  rp_id = "example.org";
  rp_name = "Example";
  mfa_configs = [];
  webauthn_credentials = [];
  webauthn_challenges = [];
}

abbrev totp_config : MfaConfig
totp_config = record (new_config "alice" totp 5) {
  secret = some "S";
  backup_codes = "000012" ∷ "000034" ∷ [];
}

abbrev enrolled : MfaProvider
enrolled = record empty_provider { mfa_configs = ("alice", totp_config) ∷ [] }

abbrev alice_setup : TotpSetup
alice_setup = record {
  secret = "S";
  provisioning_uri = "otpauth://S";
  backup_codes = "000012" ∷ "000034" ∷ [];
  qr_code = none;
}

alice_set_up :
    setup_totp otp (λ uri. none) (12 ∷ 12 ∷ 34 ∷ 56 ∷ []) "S" 5 "alice" none empty_provider
    ≡ some (alice_setup, enrolled)
unfolding setup_totp generate_codes six_digits digit insert
alice_set_up = refl

enrolled-Reach : Reach otp codec anything empty_provider enrolled
enrolled-Reach = next here (
    setup_totp_step (λ uri. none) (12 ∷ 12 ∷ 34 ∷ 56 ∷ []) "S" 5 "alice" none alice_setup tt
      alice_set_up)

generate_codes_iff_example : (2 ≤ 2) ↔ (
    (out : List String) × (generate_codes 2 (12 ∷ 12 ∷ 34 ∷ []) [] ≡ some out)
    × (length out ≡ 2)
    × IsDistinct out)
unfolding six_digits digit
generate_codes_iff_example = generate_codes_iff 2 (12 ∷ 12 ∷ 34 ∷ [])

abbrev spent : MfaProvider
spent = (verify_totp otp 6 7 "alice" "000000" (some "000012") enrolled).1

backup_once_example :
    ((verify_totp otp 6 7 "alice" "000000" (some "000012") enrolled).0 ≡ true)
    × HasNoEffect otp "alice" "000012" spent
unfolding lookup insert MfaType-discrete
backup_once_example =
    backup_once otp codec empty_provider enrolled spent totp_config 6 7 "alice" "000000" "000012"
      refl enrolled-Reach refl refl refl here

abbrev hotp_config : MfaConfig
hotp_config = record (new_config "alice" hotp 5) { secret = some "S"; counter = 3 }

abbrev counting : MfaProvider
counting = record empty_provider { mfa_configs = ("alice", hotp_config) ∷ [] }

counter_passed_example :
    (hotp ≡ hotp)
    × (hotp_passes otp "222222" hotp_config ≡ true)
    × AllConfigs (IsPast "alice" 3) (verify_hotp otp 9 "alice" "222222" none counting).1
unfolding lookup verify_hotp check_hotp hotp_passes MfaType-discrete
counter_passed_example =
    counter_passed otp codec counting (verify_hotp otp 9 "alice" "222222" none counting).1
      hotp_config 9 "alice" "222222" refl refl here

abbrev assertion : AssertionData
assertion = record {
  client_data_json = some "c1";
  authenticator_data = some "data";
  credential_id = some "AQ";
  signature = some "sig";
}

abbrev registered : MfaProvider
registered = record empty_provider {
  webauthn_credentials =
      (
        "AQ",
        record {
          credential_id = 1 ∷ [];
          public_key = 2 ∷ [];
          user_handle = "alice";
          rp_id = "example.org";
          sign_count = 6;
          created_at = 0;
        },
      )
      ∷ [];
  webauthn_challenges = ("auth_bob", record { challenge = "c1"; expires_at = 100 }) ∷ [];
}

-- The credential is alice's, the user is bob.
replay_refused_example :
    (verify_webauthn_authentication codec 51 52 "alice" assertion
      (verify_webauthn_authentication codec 50 50 "bob" assertion registered).1).0
    ≡ false
unfolding lookup verify_webauthn_authentication authenticate accept_assertion read_assertion
    new_sign_count client_fits from_bytes ends_with
replay_refused_example =
    replay_refused otp codec registered
      (verify_webauthn_authentication codec 50 50 "bob" assertion registered).1 50 50 51 52 "bob"
      "alice" assertion assertion refl here refl refl

signature_ignored_example :
    (verify_webauthn_authentication codec 50 50 "bob"
      (record assertion { signature = some "forged" })
      (disguised (9 ∷ []) "carol" registered)).0
    ≡ (verify_webauthn_authentication codec 50 50 "bob" assertion registered).0
signature_ignored_example =
    signature_ignored codec 50 50 "bob" "carol" (9 ∷ []) (1 ∷ []) (1 ∷ []) assertion (some "forged")
      registered refl refl
