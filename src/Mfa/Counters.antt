-- ===== src/Mfa/Counters.antt =====
-- The HOTP counters of auth/mfa_provider.py.
use bt_api_security.Prelude.{
  String, ℕ, ◌<◌, ◌≡◌, refl, sym, ◌∙◌, ◌≢◌, inl, inr, true, false, Option, none, some, arith,
  Bool-cases, ◌==◌, nat_Eq, string_Eq,
}
use bt_api_security.Dict.{lookup}
use bt_api_security.Dict.Laws.{lookup-adjust_self}
use bt_api_security.Mfa.Types.{
  MfaType, MfaType-discrete, totp, hotp, webauthn, mfa_type_Eq, MfaConfig, MfaProvider, Otp,
}
use bt_api_security.Mfa.Provider.{
  write_config, verify_hotp, check_hotp, hotp_passes, use_backup, pass_hotp,
}
use bt_api_security.Mfa.Webauthn.{Codec}
use bt_api_security.Mfa.Traces.{Allowed, Reach, AllConfigs, IsKept}
use bt_api_security.Mfa.Kept.{Reach-AllConfigs}

-- Any calls but those that set up HOTP for a user.
abbrev pub no_setup_for : String → Allowed
no_setup_for user_id = record { draws = λ ds. Unit; hotp_for = λ k. k ≢ user_id; registers = Unit }

-- If a user's configuration is for HOTP, its counter is above `n`.
abbrev pub IsPast : String → ℕ → String → MfaConfig → Type 0
IsPast user_id n k c = k ≡ user_id → c.mfa_type ≡ hotp → n < c.counter

on_backup-IsPast :
    (user_id : String) (n : ℕ) (k : String) (c : MfaConfig) (given : Option String) (now : ℕ)
    → IsPast user_id n k c
    → IsPast user_id n k (use_backup given now c)
on_backup-IsPast user_id n k c none now h = h
on_backup-IsPast user_id n k c (some given) now h = h

not_hotp : {A : Type 0} (x : MfaType) → x == hotp ≡ false → x ≡ hotp → A
not_hotp x other e = absurd (let k = (mfa_type_Eq.test_iff x hotp).1 e in cc)

IsPast-IsKept : (user_id : String) (n : ℕ) → IsKept (no_setup_for user_id) (IsPast user_id n)
unfolding MfaType-discrete
IsPast-IsKept user_id n = record {
  on_totp = λ k secret now count draws codes drawn ends same e. not_hotp totp refl e;
  on_hotp = λ k secret now count start draws codes drawn allowed ends same e. absurd (allowed same);
  on_codes = λ k c count draws codes drawn ends h. h;
  on_register = λ k c allowed none_left t same e. not_hotp webauthn refl (sym t ∙ e);
  on_backup = on_backup-IsPast user_id n;
  on_totp_pass = λ k c now h. h;
  on_hotp_pass = λ k c now h same e. omega (arith, h same e);
  on_used = λ k c now h. h;
}

passed-IsPast :
    (user_id : String) (used : ℕ) (s : MfaProvider) (c : MfaConfig)
    → lookup user_id s.mfa_configs ≡ some c
    → AllConfigs (IsPast user_id c.counter) (write_config user_id (pass_hotp used) s)
passed-IsPast user_id used s c known = record {
  at = λ k d h same type.
      let stored = lookup-adjust_self user_id (pass_hotp used) s.mfa_configs known in
      let found = rw same at h in
      let e : pass_hotp used c ≡ d = ground arith in rw (← e) (omega arith);
}

-- If `verify_hotp` accepts a token of a user whose configuration's counter is `n`, then the
-- configuration was for HOTP, `pyotp` accepted the token at `n`, and in whatever state calls lead to
-- that do not set up HOTP for the user again, a counter for HOTP that the user has is above `n`.
pub counter_passed :
    (otp : Otp) (codec : Codec) (s t : MfaProvider) (c : MfaConfig) (used : ℕ)
    (user_id token : String)
    → lookup user_id s.mfa_configs ≡ some c
    → (verify_hotp otp used user_id token none s).0 ≡ true
    → Reach otp codec (no_setup_for user_id) (verify_hotp otp used user_id token none s).1 t
    → (c.mfa_type ≡ hotp)
      × (hotp_passes otp token c ≡ true)
      × AllConfigs (IsPast user_id c.counter) t
unfolding verify_hotp check_hotp
counter_passed otp codec s t c used user_id token known accepted rest =
    elim (Bool-cases (c.mfa_type == hotp)) [
      | inr other ↦ absurd (let k = rw (known, verify_hotp, other) at accepted in cc)
      | inl right ↦ elim (Bool-cases (hotp_passes otp token c)) [
        | inr failed ↦ absurd (let k = rw (known, verify_hotp, right, failed) at accepted in cc)
        | inl passed ↦
            let moved : AllConfigs (IsPast user_id c.counter)
                (verify_hotp otp used user_id token none s).1 =
              rw (known, verify_hotp, right, passed) (passed-IsPast user_id used s c known) in
            (
              (mfa_type_Eq.test_iff c.mfa_type hotp).0 right,
              passed,
              Reach-AllConfigs otp codec (IsPast-IsKept user_id c.counter) rest moved,
            )
      ]
    ]
