-- ===== src/Mfa/Kept.antt =====
-- Every method of auth/mfa_provider.py keeps what its writes to configurations keep.
use bt_api_security.Prelude.{
  String, ℕ, ◌≡◌, refl, inl, inr, Option, some, List, [], arith, ltb, Bool-cases, Option-cases,
  ◌==◌, nat_Eq, string_Eq, Result,
}
use bt_api_security.Dict.{lookup}
use bt_api_security.Mfa.Types.{totp, hotp, mfa_type_Eq, MfaConfig, MfaError, MfaProvider, Otp}
use bt_api_security.Mfa.Setup.{
  TotpSetup, HotpSetup, generate_codes, store_config, setup_totp, setup_hotp,
}
use bt_api_security.Mfa.Provider.{
  write_config, verify_totp, check_totp, verify_hotp, check_hotp, totp_passes, hotp_passes,
  has_backup, use_backup, pass_totp, pass_hotp, forget, disable_mfa, regenerate_backup_codes,
}
use bt_api_security.Mfa.Webauthn.{
  CredentialData, AssertionData, Codec, store_registration, register, read_registration,
  verify_webauthn_registration, generate_webauthn_registration_options,
  generate_webauthn_authentication_options, store_assertion, authenticate, accept_assertion,
  verify_webauthn_authentication,
}
use bt_api_security.Prelude.Text.{◌^◌}
use bt_api_security.Mfa.Traces.{
  Allowed, Step, setup_totp_step, setup_hotp_step, regenerate_step, verify_totp_step,
  verify_hotp_step, disable_step, registration_options_step, register_step,
  authentication_options_step, authenticate_step, Reach, here, next, AllConfigs, IsKept,
  same-AllConfigs, store-AllConfigs, write-AllConfigs, forget-AllConfigs,
}

-- The second component of what was returned.
pub the_state :
    {A B : Type 0} {x y : A × B} → ◌≡◌ {A = Option (A × B)} (some x) (some y) → x.1 ≡ y.1
the_state e = ground arith

module _ (otp : Otp) (codec : Codec) {ok_for : Allowed} {R : String → MfaConfig → Type 0}
    (kept : IsKept ok_for R) (s : MfaProvider) (all_of : AllConfigs R s) where
  -- A method that leaves the state, writes one configuration, or drops one.
  pub data Written (user_id : String) (t : MfaProvider) : Type 0 where
    unchanged : t ≡ s → Written user_id t
    written :
        (f : MfaConfig → MfaConfig)
        → ((c : MfaConfig) → R user_id c → R user_id (f c))
        → t ≡ write_config user_id f s
        → Written user_id t
    dropped : (c : MfaConfig) → t ≡ forget user_id c s → Written user_id t

  Written-AllConfigs : (user_id : String) {t : MfaProvider} → Written user_id t → AllConfigs R t
  Written-AllConfigs user_id (unchanged e) = rw e all_of
  Written-AllConfigs user_id (written f keep e) = rw e (write-AllConfigs user_id f s keep all_of)
  Written-AllConfigs user_id (dropped c e) = rw e (forget-AllConfigs user_id c s all_of)

  check_totp-Written :
      (now used : ℕ) (user_id token : String) (backup : Option String) (c : MfaConfig)
      → Written user_id (check_totp otp now used user_id token backup c s).1
  unfolding check_totp
  check_totp-Written now used user_id token backup c = elim (Bool-cases (c.mfa_type == totp)) [
    | inr other ↦ unchanged (rw other refl)
    | inl right ↦ elim (Bool-cases (has_backup backup c)) [
      | inl backed ↦
          written (use_backup backup used) (λ d h. kept.on_backup user_id d backup used h)
            (rw (right, backed) refl)
      | inr plain ↦ elim (Bool-cases (totp_passes otp token s.totp_window now c)) [
        | inl passed ↦
            written (pass_totp used) (λ d h. kept.on_totp_pass user_id d used h)
              (rw (right, plain, passed) refl)
        | inr failed ↦ unchanged (rw (right, plain, failed) refl)
      ]
    ]
  ]

  pub verify_totp-Written :
      (now used : ℕ) (user_id token : String) (backup : Option String)
      → Written user_id (verify_totp otp now used user_id token backup s).1
  unfolding verify_totp
  verify_totp-Written now used user_id token backup =
      elim (Option-cases (lookup user_id s.mfa_configs)) [
        | inl missing ↦ unchanged (rw (missing, verify_totp) refl)
        | inr (c, known) ↦
            rw (known, verify_totp) (check_totp-Written now used user_id token backup c)
      ]

  check_hotp-Written :
      (used : ℕ) (user_id token : String) (backup : Option String) (c : MfaConfig)
      → Written user_id (check_hotp otp used user_id token backup c s).1
  unfolding check_hotp
  check_hotp-Written used user_id token backup c = elim (Bool-cases (c.mfa_type == hotp)) [
    | inr other ↦ unchanged (rw other refl)
    | inl right ↦ elim (Bool-cases (has_backup backup c)) [
      | inl backed ↦
          written (use_backup backup used) (λ d h. kept.on_backup user_id d backup used h)
            (rw (right, backed) refl)
      | inr plain ↦ elim (Bool-cases (hotp_passes otp token c)) [
        | inl passed ↦
            written (pass_hotp used) (λ d h. kept.on_hotp_pass user_id d used h)
              (rw (right, plain, passed) refl)
        | inr failed ↦ unchanged (rw (right, plain, failed) refl)
      ]
    ]
  ]

  pub verify_hotp-Written :
      (used : ℕ) (user_id token : String) (backup : Option String)
      → Written user_id (verify_hotp otp used user_id token backup s).1
  unfolding verify_hotp
  verify_hotp-Written used user_id token backup =
      elim (Option-cases (lookup user_id s.mfa_configs)) [
        | inl missing ↦ unchanged (rw (missing, verify_hotp) refl)
        | inr (c, known) ↦ rw (known, verify_hotp) (check_hotp-Written used user_id token backup c)
      ]

  pub disable_mfa-Written :
      (user_id : String) (backup : Option String) → Written user_id (disable_mfa user_id backup s).1
  unfolding disable_mfa
  disable_mfa-Written user_id backup = elim (Option-cases (lookup user_id s.mfa_configs)) [
    | inl missing ↦ unchanged (rw (missing, disable_mfa) refl)
    | inr (c, known) ↦ elim (Bool-cases (has_backup backup c)) [
      | inl backed ↦ dropped c (rw (known, disable_mfa, backed) refl)
      | inr plain ↦ unchanged (rw (known, disable_mfa, plain) refl)
    ]
  ]

  register-AllConfigs :
      (checked now stamped : ℕ) (user_id : String) (sent : CredentialData)
      → ok_for.registers
      → AllConfigs R (verify_webauthn_registration codec checked now stamped user_id sent s).1
  unfolding verify_webauthn_registration register store_registration
  register-AllConfigs checked now stamped user_id sent allowed =
      elim (Option-cases (lookup user_id s.webauthn_challenges)) [
        | inl missing ↦ rw (missing, verify_webauthn_registration) all_of
        | inr (c, known) ↦ elim (Bool-cases (ltb c.expires_at checked)) [
          | inl late ↦
              rw (known, verify_webauthn_registration, late) (same-AllConfigs s _ refl all_of)
          | inr early ↦ elim (Option-cases (read_registration codec c.challenge s.rp_id sent)) [
            | inl refused ↦
                rw (known, verify_webauthn_registration, early, refused, register) all_of
            | inr (r, read) ↦
                rw (known, verify_webauthn_registration, early, read, register)
                  (same-AllConfigs (store_config user_id _ s) _ refl (
                    store-AllConfigs user_id _ s (kept.on_register user_id _ allowed refl refl)
                      all_of))
          ]
        ]
      ]

  authenticate-AllConfigs :
      (checked used : ℕ) (user_id : String) (sent : AssertionData)
      → AllConfigs R (verify_webauthn_authentication codec checked used user_id sent s).1
  unfolding verify_webauthn_authentication authenticate store_assertion
  authenticate-AllConfigs checked used user_id sent =
      elim (Option-cases (lookup ("auth_" ^ user_id) s.webauthn_challenges)) [
        | inl missing ↦ rw (missing, verify_webauthn_authentication) all_of
        | inr (c, known) ↦ elim (Bool-cases (ltb c.expires_at checked)) [
          | inl late ↦
              rw (known, verify_webauthn_authentication, late) (same-AllConfigs s _ refl all_of)
          | inr early ↦ elim (Option-cases (accept_assertion codec c.challenge sent s)) [
            | inl refused ↦
                rw (known, verify_webauthn_authentication, early, refused, authenticate) all_of
            | inr ((id, count), read) ↦
                rw (known, verify_webauthn_authentication, early, read, authenticate)
                  (same-AllConfigs (write_config user_id _ s) _ refl
                    (write-AllConfigs user_id _ s (λ d h. kept.on_used user_id d used h) all_of))
          ]
        ]
      ]

  authentication_options-AllConfigs :
      (challenge : String) (now : ℕ) (user_id : String)
      → AllConfigs R (generate_webauthn_authentication_options codec challenge now user_id s).1
  unfolding generate_webauthn_authentication_options
  authentication_options-AllConfigs challenge now user_id =
      same-AllConfigs s _ (ground arith) all_of

  setup_totp-AllConfigs :
      {t : MfaProvider} (qr_code : String → Option String) (draws : List ℕ) (secret : String)
      (now : ℕ) (user_id : String) (account : Option String) (made : TotpSetup)
      → ok_for.draws draws
      → setup_totp otp qr_code draws secret now user_id account s ≡ some (made, t)
      → AllConfigs R t
  unfolding setup_totp
  setup_totp-AllConfigs qr_code draws secret now user_id account made drawn h =
      elim (Option-cases (generate_codes s.backup_codes_count draws [])) [
        | inl open' ↦ absurd (let k = rw (open', setup_totp) at h in cc)
        | inr (codes, ends) ↦
            let k = rw (ends, setup_totp) at h in
            let new = kept.on_totp user_id secret now s.backup_codes_count draws codes drawn ends in
            rw (← the_state k) (store-AllConfigs user_id _ s new all_of)
      ]

  setup_hotp-AllConfigs :
      {t : MfaProvider} (draws : List ℕ) (secret : String) (now : ℕ) (user_id : String)
      (made : HotpSetup)
      → ok_for.draws draws
      → ok_for.hotp_for user_id
      → setup_hotp draws secret now user_id s ≡ some (made, t)
      → AllConfigs R t
  unfolding setup_hotp
  setup_hotp-AllConfigs draws secret now user_id made drawn allowed h =
      elim (Option-cases (generate_codes s.backup_codes_count draws [])) [
        | inl open' ↦ absurd (let k = rw (open', setup_hotp) at h in cc)
        | inr (codes, ends) ↦
            let k = rw (ends, setup_hotp) at h in
            let new =
              kept.on_hotp user_id secret now s.backup_codes_count s.hotp_counter_start draws codes
                drawn allowed ends in
            rw (← the_state k) (store-AllConfigs user_id _ s new all_of)
      ]

  regenerate-AllConfigs :
      {t : MfaProvider} (draws : List ℕ) (user_id : String) (made : Result MfaError (List String))
      → ok_for.draws draws
      → regenerate_backup_codes draws user_id s ≡ some (made, t)
      → AllConfigs R t
  unfolding regenerate_backup_codes
  regenerate-AllConfigs draws user_id made drawn h =
      elim (Option-cases (lookup user_id s.mfa_configs)) [
        | inl missing ↦
            let k = rw (missing, regenerate_backup_codes) at h in rw (← the_state k) all_of
        | inr (c, known) ↦ elim (Option-cases (generate_codes s.backup_codes_count draws [])) [
          | inl open' ↦ absurd (let k = rw (known, open', regenerate_backup_codes) at h in cc)
          | inr (codes, ends) ↦
              let k = rw (known, ends, regenerate_backup_codes) at h in
              rw (← the_state k) (
                write-AllConfigs user_id _ s
                  (λ d r. kept.on_codes user_id d s.backup_codes_count draws codes drawn ends r)
                  all_of)
        ]
      ]

module _ (otp : Otp) (codec : Codec) {ok_for : Allowed} {R : String → MfaConfig → Type 0}
    (kept : IsKept ok_for R) where
  Step-AllConfigs :
      {s t : MfaProvider} → Step otp codec ok_for s t → AllConfigs R s → AllConfigs R t
  unfolding generate_webauthn_registration_options
  Step-AllConfigs {s} (setup_totp_step qr_code draws secret now user_id account made drawn e) h =
      setup_totp-AllConfigs otp codec kept s h qr_code draws secret now user_id account made drawn e
  Step-AllConfigs {s} (setup_hotp_step draws secret now user_id made drawn allowed e) h =
      setup_hotp-AllConfigs otp codec kept s h draws secret now user_id made drawn allowed e
  Step-AllConfigs {s} (regenerate_step draws user_id made drawn e) h =
      regenerate-AllConfigs otp codec kept s h draws user_id made drawn e
  Step-AllConfigs {s} (verify_totp_step now used user_id token backup) h =
      Written-AllConfigs otp codec kept s h user_id
        (verify_totp-Written otp codec kept s h now used user_id token backup)
  Step-AllConfigs {s} (verify_hotp_step used user_id token backup) h =
      Written-AllConfigs otp codec kept s h user_id
        (verify_hotp-Written otp codec kept s h used user_id token backup)
  Step-AllConfigs {s} (disable_step user_id backup) h =
      Written-AllConfigs otp codec kept s h user_id
        (disable_mfa-Written otp codec kept s h user_id backup)
  Step-AllConfigs {s} (registration_options_step challenge handle now user_id username display) h =
      same-AllConfigs s _ refl h
  Step-AllConfigs {s} (register_step checked now stamped user_id sent allowed) h =
      register-AllConfigs otp codec kept s h checked now stamped user_id sent allowed
  Step-AllConfigs {s} (authentication_options_step challenge now user_id) h =
      authentication_options-AllConfigs otp codec kept s h challenge now user_id
  Step-AllConfigs {s} (authenticate_step checked used user_id sent) h =
      authenticate-AllConfigs otp codec kept s h checked used user_id sent

  pub Reach-AllConfigs :
      {s t : MfaProvider} → Reach otp codec ok_for s t → AllConfigs R s → AllConfigs R t
  Reach-AllConfigs here h = h
  Reach-AllConfigs (next r step) h = Step-AllConfigs step (Reach-AllConfigs r h)
