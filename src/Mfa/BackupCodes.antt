-- ===== src/Mfa/BackupCodes.antt =====
-- A backup code of auth/mfa_provider.py passes once.
use bt_api_security.Prelude.{
  String, ℕ, ◌≡◌, refl, inl, inr, true, false, Option, none, some, [], map, arith, Option-cases,
  nat_Eq, string_Eq, contains,
}
use bt_api_security.Dict.{lookup}
use bt_api_security.Dict.Laws.{lookup-adjust_self}
use bt_api_security.Mfa.Types.{MfaType-discrete, totp, mfa_type_Eq, MfaConfig, MfaProvider, Otp}
use bt_api_security.Mfa.Setup.{six_digits}
use bt_api_security.Mfa.Provider.{
  write_config, verify_totp, check_totp, verify_hotp, check_hotp, has_backup, use_backup,
  disable_mfa,
}
use bt_api_security.Mfa.Webauthn.{Codec}
use bt_api_security.Mfa.Codes.{
  IsDistinct, IsDistinct-remove_first, contains-removed, contains-remove_first,
  generated-IsDistinct, contains-generated,
}
use bt_api_security.Mfa.Traces.{Allowed, anything, Reach, AllConfigs, IsKept}
use bt_api_security.Mfa.Kept.{Reach-AllConfigs}

abbrev HasDistinct : String → MfaConfig → Type 0
HasDistinct k c = IsDistinct c.backup_codes

on_backup-HasDistinct :
    (k : String) (c : MfaConfig) (code : Option String) (now : ℕ)
    → HasDistinct k c
    → HasDistinct k (use_backup code now c)
on_backup-HasDistinct k c none now d = d
on_backup-HasDistinct k c (some code) now d = IsDistinct-remove_first code c.backup_codes d

HasDistinct-IsKept : IsKept anything HasDistinct
HasDistinct-IsKept = record {
  on_totp = λ k secret now count draws codes drawn ends.
      generated-IsDistinct count draws [] codes tt ends;
  on_hotp = λ k secret now count start draws codes drawn allowed ends.
      generated-IsDistinct count draws [] codes tt ends;
  on_codes =
      λ k c count draws codes drawn ends d. generated-IsDistinct count draws [] codes tt ends;
  on_register = λ k c allowed e t. rw e tt;
  on_backup = on_backup-HasDistinct;
  on_totp_pass = λ k c now d. d;
  on_hotp_pass = λ k c now d. d;
  on_used = λ k c now d. d;
}

-- Any calls that do not draw a code.
abbrev pub without : String → Allowed
without code = record {
  draws = λ ds. contains code (map six_digits ds) ≡ false;
  hotp_for = λ user_id. Unit;
  registers = Unit;
}

-- A user's configuration has no such backup code.
abbrev IsGone : String → String → String → MfaConfig → Type 0
IsGone user_id code k c = k ≡ user_id → contains code c.backup_codes ≡ false

on_backup-IsGone :
    (user_id code k : String) (c : MfaConfig) (given : Option String) (now : ℕ)
    → IsGone user_id code k c
    → IsGone user_id code k (use_backup given now c)
on_backup-IsGone user_id code k c none now h = h
on_backup-IsGone user_id code k c (some given) now h =
    λ same. contains-remove_first code given c.backup_codes (h same)

IsGone-IsKept : (user_id code : String) → IsKept (without code) (IsGone user_id code)
IsGone-IsKept user_id code = record {
  on_totp = λ k secret now count draws codes drawn ends same.
      contains-generated code count draws [] codes refl drawn ends;
  on_hotp = λ k secret now count start draws codes drawn allowed ends same.
      contains-generated code count draws [] codes refl drawn ends;
  on_codes = λ k c count draws codes drawn ends h same.
      contains-generated code count draws [] codes refl drawn ends;
  on_register = λ k c allowed e t same. rw e refl;
  on_backup = on_backup-IsGone user_id code;
  on_totp_pass = λ k c now h. h;
  on_hotp_pass = λ k c now h. h;
  on_used = λ k c now h. h;
}

abbrev pub NoConfigs : MfaProvider → Type 0
NoConfigs s = s.mfa_configs ≡ []

NoConfigs-AllConfigs :
    {R : String → MfaConfig → Type 0} (s : MfaProvider) → NoConfigs s → AllConfigs R s
unfolding lookup
NoConfigs-AllConfigs s fresh = record { at = λ k c h. absurd (let j = rw fresh at h in cc) }

-- A code has no effect on any of the methods that take one.
abbrev pub HasNoEffect : Otp → String → String → MfaProvider → Type 0
HasNoEffect otp user_id code u =
    ((now used : ℕ) (token : String)
      → verify_totp otp now used user_id token (some code) u
        ≡ verify_totp otp now used user_id token none u)
    × ((used : ℕ) (token : String)
        → verify_hotp otp used user_id token (some code) u
          ≡ verify_hotp otp used user_id token none u)
    × (disable_mfa user_id (some code) u ≡ (false, u))

gone-HasNoEffect :
    (otp : Otp) (user_id code : String) (u : MfaProvider)
    → AllConfigs (IsGone user_id code) u
    → HasNoEffect otp user_id code u
unfolding verify_totp check_totp verify_hotp check_hotp disable_mfa
gone-HasNoEffect otp user_id code u all_of = elim (Option-cases (lookup user_id u.mfa_configs)) [
  | inl missing ↦ (
    λ now used token. rw (missing, verify_totp) refl,
    λ used token. rw (missing, verify_hotp) refl,
    rw (missing, disable_mfa) refl,
  )
  | inr (c, known) ↦
      let gone : has_backup (some code) c ≡ false =
        ground (arith, all_of.at user_id c known refl) in
      (
        λ now used token. rw (known, verify_totp, gone) refl,
        λ used token. rw (known, verify_hotp, gone) refl,
        rw (known, disable_mfa, gone) refl,
      )
]

spent-IsGone :
    (user_id code : String) (used : ℕ) (s : MfaProvider) (c : MfaConfig)
    → lookup user_id s.mfa_configs ≡ some c
    → AllConfigs HasDistinct s
    → AllConfigs (IsGone user_id code) (write_config user_id (use_backup (some code) used) s)
spent-IsGone user_id code used s c known distinct = record {
  at = λ k d h same.
      let spent = lookup-adjust_self user_id (use_backup (some code) used) s.mfa_configs known in
      let found = rw same at h in
      let e : use_backup (some code) used c ≡ d = ground arith in
      rw (← e) (contains-removed code c.backup_codes (distinct.at user_id c known));
}

-- A provider starts without configurations. If a user's configuration for TOTP holds a non-empty
-- backup code after any calls, `verify_totp` accepts it, whatever the token. After any further calls
-- that do not draw that code, giving it has no effect: both verifications do what they do without a
-- backup code, and `disable_mfa` refuses it.
pub backup_once :
    (otp : Otp) (codec : Codec) (s t u : MfaProvider) (c : MfaConfig) (now used : ℕ)
    (user_id token code : String)
    → NoConfigs s
    → Reach otp codec anything s t
    → lookup user_id t.mfa_configs ≡ some c
    → c.mfa_type ≡ totp
    → has_backup (some code) c ≡ true
    → Reach otp codec (without code) (verify_totp otp now used user_id token (some code) t).1 u
    → ((verify_totp otp now used user_id token (some code) t).0 ≡ true)
      × HasNoEffect otp user_id code u
unfolding verify_totp check_totp MfaType-discrete
backup_once otp codec s t u c now used user_id token code fresh first known type backed rest =
    let distinct =
      Reach-AllConfigs otp codec HasDistinct-IsKept first (NoConfigs-AllConfigs s fresh) in
    let spent = spent-IsGone user_id code used t c known distinct in
    let moved : AllConfigs (IsGone user_id code)
        (verify_totp otp now used user_id token (some code) t).1 =
      rw (known, verify_totp, type, backed) spent in
    (
      rw (known, verify_totp, type, backed) refl,
      gone-HasNoEffect otp user_id code u
          (Reach-AllConfigs otp codec (IsGone-IsKept user_id code) rest moved),
    )
