-- ===== src/Mfa/Traces.antt =====
-- Sequences of calls to auth/mfa_provider.py, and what they keep of the configurations.
use bt_api_security.Prelude.{
  String, ℕ, ◌≡◌, sym, ap, ◌∙◌, inl, inr, Option, some, List, [], nat_Eq, string_Eq, Result,
}
use bt_api_security.Dict.{lookup}
use bt_api_security.Dict.Laws.{lookup-insert-cases, lookup-adjust-cases, lookup-erase-cases}
use bt_api_security.Mfa.Types.{
  totp, hotp, webauthn, mfa_type_Eq, MfaConfig, MfaError, MfaProvider, Otp,
}
use bt_api_security.Mfa.Setup.{
  TotpSetup, HotpSetup, generate_codes, new_config, store_config, setup_totp, setup_hotp,
}
use bt_api_security.Mfa.Provider.{
  write_config, verify_totp, verify_hotp, use_backup, pass_totp, pass_hotp, forget, disable_mfa,
  regenerate_backup_codes,
}
use bt_api_security.Mfa.Webauthn.{
  CredentialData, AssertionData, Codec, verify_webauthn_registration,
  generate_webauthn_registration_options, generate_webauthn_authentication_options,
  verify_webauthn_authentication,
}

-- What a sequence of calls may draw, whose HOTP it may set up, and whether it may register.
pub record Allowed : Type 1 where
  pub draws : List ℕ → Type 0
  pub hotp_for : String → Type 0
  pub registers : Type 0

abbrev pub anything : Allowed
anything = record { draws = λ ds. Unit; hotp_for = λ user_id. Unit; registers = Unit }

pub data Step (otp : Otp) (codec : Codec) (ok_for : Allowed) (s : MfaProvider)
    : MfaProvider → Type 0 where
  setup_totp_step :
      {t : MfaProvider} (qr_code : String → Option String) (draws : List ℕ) (secret : String)
      (now : ℕ) (user_id : String) (account : Option String) (made : TotpSetup)
      → ok_for.draws draws
      → setup_totp otp qr_code draws secret now user_id account s ≡ some (made, t)
      → Step otp codec ok_for s t
  setup_hotp_step :
      {t : MfaProvider} (draws : List ℕ) (secret : String) (now : ℕ) (user_id : String)
      (made : HotpSetup)
      → ok_for.draws draws
      → ok_for.hotp_for user_id
      → setup_hotp draws secret now user_id s ≡ some (made, t)
      → Step otp codec ok_for s t
  regenerate_step :
      {t : MfaProvider} (draws : List ℕ) (user_id : String) (made : Result MfaError (List String))
      → ok_for.draws draws
      → regenerate_backup_codes draws user_id s ≡ some (made, t)
      → Step otp codec ok_for s t
  verify_totp_step :
      (now used : ℕ) (user_id token : String) (backup : Option String)
      → Step otp codec ok_for s (verify_totp otp now used user_id token backup s).1
  verify_hotp_step :
      (used : ℕ) (user_id token : String) (backup : Option String)
      → Step otp codec ok_for s (verify_hotp otp used user_id token backup s).1
  disable_step :
      (user_id : String) (backup : Option String)
      → Step otp codec ok_for s (disable_mfa user_id backup s).1
  registration_options_step :
      (challenge handle : String) (now : ℕ) (user_id username : String) (display : Option String)
      → Step otp codec ok_for s
          (generate_webauthn_registration_options challenge handle now user_id username display s).1
  register_step :
      (checked now stamped : ℕ) (user_id : String) (sent : CredentialData)
      → ok_for.registers
      → Step otp codec ok_for s
          (verify_webauthn_registration codec checked now stamped user_id sent s).1
  authentication_options_step :
      (challenge : String) (now : ℕ) (user_id : String)
      → Step otp codec ok_for s
          (generate_webauthn_authentication_options codec challenge now user_id s).1
  authenticate_step :
      (checked used : ℕ) (user_id : String) (sent : AssertionData)
      → Step otp codec ok_for s (verify_webauthn_authentication codec checked used user_id sent s).1

pub data Reach (otp : Otp) (codec : Codec) (ok_for : Allowed) (s : MfaProvider)
    : MfaProvider → Type 0 where
  here : Reach otp codec ok_for s s
  next :
      {t u : MfaProvider}
      → Reach otp codec ok_for s t
      → Step otp codec ok_for t u
      → Reach otp codec ok_for s u

-- `R` holds of every stored configuration.
pub record AllConfigs (R : String → MfaConfig → Type 0) (s : MfaProvider) : Type 0 where
  pub at : (k : String) (c : MfaConfig) → lookup k s.mfa_configs ≡ some c → R k c

-- `R` outlives every write that a provider makes to a configuration.
pub record IsKept (ok_for : Allowed) (R : String → MfaConfig → Type 0) : Type 0 where
  pub on_totp :
      (k secret : String) (now count : ℕ) (draws : List ℕ) (codes : List String)
      → ok_for.draws draws
      → generate_codes count draws [] ≡ some codes
      → R k (record (new_config k totp now) { secret = some secret; backup_codes = codes })
  pub on_hotp :
      (k secret : String) (now count start : ℕ) (draws : List ℕ) (codes : List String)
      → ok_for.draws draws
      → ok_for.hotp_for k
      → generate_codes count draws [] ≡ some codes
      → R k (record (new_config k hotp now) {
        secret = some secret;
        backup_codes = codes;
        counter = start;
      })
  pub on_codes :
      (k : String) (c : MfaConfig) (count : ℕ) (draws : List ℕ) (codes : List String)
      → ok_for.draws draws
      → generate_codes count draws [] ≡ some codes
      → R k c
      → R k (record c { backup_codes = codes })
  pub on_register :
      (k : String) (c : MfaConfig)
      → ok_for.registers
      → c.backup_codes ≡ []
      → c.mfa_type ≡ webauthn
      → R k c
  pub on_backup :
      (k : String) (c : MfaConfig) (code : Option String) (now : ℕ)
      → R k c
      → R k (use_backup code now c)
  pub on_totp_pass : (k : String) (c : MfaConfig) (now : ℕ) → R k c → R k (pass_totp now c)
  pub on_hotp_pass : (k : String) (c : MfaConfig) (now : ℕ) → R k c → R k (pass_hotp now c)
  pub on_used :
      (k : String) (c : MfaConfig) (now : ℕ) → R k c → R k (record c { last_used = some now })

module _ {R : String → MfaConfig → Type 0} where
  pub same-AllConfigs :
      (s t : MfaProvider) → t.mfa_configs ≡ s.mfa_configs → AllConfigs R s → AllConfigs R t
  same-AllConfigs s t e all_of = record { at = λ k c h. all_of.at k c (ap (lookup k) (sym e) ∙ h) }

  pub store-AllConfigs :
      (user_id : String) (c : MfaConfig) (s : MfaProvider)
      → R user_id c
      → AllConfigs R s
      → AllConfigs R (store_config user_id c s)
  store-AllConfigs user_id c s new all_of = record {
    at = λ k d h. elim (lookup-insert-cases user_id k c s.mfa_configs h) [
      | inl (same, e) ↦ rw (← same, e) new
      | inr old ↦ all_of.at k d old
    ];
  }

  pub write-AllConfigs :
      (user_id : String) (f : MfaConfig → MfaConfig) (s : MfaProvider)
      → ((c : MfaConfig) → R user_id c → R user_id (f c))
      → AllConfigs R s
      → AllConfigs R (write_config user_id f s)
  write-AllConfigs user_id f s keep all_of = record {
    at = λ k d h. elim (lookup-adjust-cases user_id k f s.mfa_configs h) [
      | inl (c, same, known, e) ↦
          rw (← same, e)
            (keep c (all_of.at user_id c (ap (λ j. lookup j s.mfa_configs) same ∙ known)))
      | inr old ↦ all_of.at k d old
    ];
  }

  pub forget-AllConfigs :
      (user_id : String) (c : MfaConfig) (s : MfaProvider)
      → AllConfigs R s
      → AllConfigs R (forget user_id c s)
  unfolding forget
  forget-AllConfigs user_id c s all_of = record {
    at = λ k d h. all_of.at k d (lookup-erase-cases user_id k s.mfa_configs h).1;
  }
