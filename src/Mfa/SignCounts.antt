-- ===== src/Mfa/SignCounts.antt =====
-- The sign counts of the WebAuthn credentials of auth/mfa_provider.py.
use bt_api_security.Prelude.{
  String, ℕ, ◌≤◌, ◌<◌, ◌≡◌, refl, sym, ap, ◌∙◌, inl, inr, Option, some, List, [], arith, ltb,
  Bool-cases, Option-cases, nat_Eq, string_Eq, Result,
}
use mathlib.Core.Option
use bt_api_security.Dict.{lookup}
use bt_api_security.Dict.Laws.{lookup-adjust-cases, lookup-erase-cases}
use bt_api_security.Mfa.Types.{MfaConfig, WebauthnCredential, MfaError, MfaProvider, Otp}
use bt_api_security.Mfa.Setup.{TotpSetup, HotpSetup, generate_codes, setup_totp, setup_hotp}
use bt_api_security.Mfa.Provider.{forget, regenerate_backup_codes}
use bt_api_security.Mfa.Webauthn.{
  AssertionData, Codec, and_then, flags_fit, item, slice, from_bytes, client_fits, read_assertion,
  new_sign_count, set_sign_count, store_assertion, authenticate, accept_assertion,
  verify_webauthn_authentication, generate_webauthn_registration_options,
  generate_webauthn_authentication_options,
}
use bt_api_security.Prelude.Text.{◌^◌}
use bt_api_security.Mfa.Traces.{
  Allowed, Step, setup_totp_step, setup_hotp_step, regenerate_step, verify_totp_step,
  verify_hotp_step, disable_step, registration_options_step, register_step,
  authentication_options_step, authenticate_step, Reach, here, next, AllConfigs, IsKept,
}
use bt_api_security.Mfa.Kept.{
  the_state, Written, unchanged, written, dropped, verify_totp-Written, verify_hotp-Written,
  disable_mfa-Written,
}

-- The parts of an assertion that tell which count of which credential it is.
module _ (codec : Codec) where
  abbrev pub authenticator_of : AssertionData → Option (List ℕ)
  authenticator_of sent = and_then sent.authenticator_data codec.decode

  abbrev pub credential_of : AssertionData → Option (List ℕ)
  credential_of sent = and_then sent.credential_id codec.decode

  -- The assertions with one authenticator data and one credential.
  pub read-parts :
      (challenge rp_id : String) (sent : AssertionData) (a : List ℕ) (id : String)
      → read_assertion codec challenge rp_id sent ≡ some (a, id)
      → (authenticator_of sent ≡ some a) × (Option.map codec.encode (credential_of sent) ≡ some id)
  unfolding read_assertion
  read-parts challenge rp_id sent a id h =
      elim (Option-cases (and_then sent.client_data_json codec.client_data)) [
        | inl e ↦ absurd (let k = rw e at h in cc)
        | inr (client, e) ↦ elim (Bool-cases (client_fits challenge "webauthn.get" rp_id client)) [
          | inr e2 ↦ absurd (let k = rw (e, e2) at h in cc)
          | inl e2 ↦ elim (Option-cases (authenticator_of sent)) [
            | inl e3 ↦ absurd (let k = rw (e, e2, e3) at h in cc)
            | inr (b, e3) ↦ elim (Option-cases (credential_of sent)) [
              | inl e4 ↦ absurd (let k = rw (e, e2, e3, e4) at h in cc)
              | inr (raw, e4) ↦
                  let k = rw (e, e2, e3, e4) at h in (e3 ∙ ground arith, rw e4 (ground arith))
            ]
          ]
        ]
      ]

  pub count-parts :
      (sent : AssertionData) (a : List ℕ) (c : WebauthnCredential) (n : ℕ)
      → new_sign_count codec sent a c ≡ some n
      → (n ≡ from_bytes 0 (slice 33 37 a)) × (c.sign_count < n)
  unfolding new_sign_count
  count-parts sent a c n h = elim (Option-cases (and_then sent.signature codec.decode)) [
    | inl e ↦ absurd (let k = rw e at h in cc)
    | inr (signature, e) ↦ elim (Option-cases (item 32 a)) [
      | inl e2 ↦ absurd (let k = rw (e, e2) at h in cc)
      | inr (flags, e2) ↦ elim (Bool-cases (flags_fit codec flags)) [
        | inr e3 ↦ absurd (let k = rw (e, e2, e3) at h in cc)
        | inl e3 ↦ elim (Bool-cases (ltb c.sign_count (from_bytes 0 (slice 33 37 a)))) [
          | inr e4 ↦ absurd (let k = rw (e, e2, e3, e4) at h in cc)
          | inl e4 ↦ let k = rw (e, e2, e3, e4) at h in (ground arith, ground arith)
        ]
      ]
    ]
  ]

  -- What an accepted assertion says, and what it is held against.
  pub accepted-parts :
      (challenge other : String) (sent : AssertionData) (count : ℕ) (s : MfaProvider)
      → accept_assertion codec challenge sent s ≡ some (other, count)
      → (a : List ℕ) × (c : WebauthnCredential) × (read_assertion codec challenge s.rp_id sent
          ≡ some (a, other))
        × (lookup other s.webauthn_credentials ≡ some c)
        × (new_sign_count codec sent a c ≡ some count)
  unfolding accept_assertion
  accepted-parts challenge other sent count s h =
      elim (Option-cases (read_assertion codec challenge s.rp_id sent)) [
        | inl e ↦ absurd (let k = rw e at h in cc)
        | inr ((a, b), e) ↦ elim (Option-cases (lookup b s.webauthn_credentials)) [
          | inl e2 ↦ absurd (let k = rw (e, e2) at h in cc)
          | inr (c, e2) ↦ elim (Option-cases (new_sign_count codec sent a c)) [
            | inl e3 ↦ absurd (let k = rw (e, e2, e3) at h in cc)
            | inr (m, e3) ↦
                let k = rw (e, e2, e3) at h in
                let same : b ≡ other = ground arith in
                let right : m ≡ count = ground arith in
                (
                  a,
                  c,
                  e ∙ ap (λ x. some (a, x)) same,
                  ap (λ x. lookup x s.webauthn_credentials) (sym same) ∙ e2,
                  e3 ∙ ap some right,
                )
          ]
        ]
      ]

-- A credential that is stored under `id` has a count of at least `n`.
pub record AtLeast (id : String) (n : ℕ) (s : MfaProvider) : Type 0 where
  pub at : (c : WebauthnCredential) → lookup id s.webauthn_credentials ≡ some c → n ≤ c.sign_count

-- Any calls but registrations of credentials.
abbrev pub no_registrations : Allowed
no_registrations = record { draws = λ ds. Unit; hotp_for = λ user_id. Unit; registers = ⊥ }

always : IsKept no_registrations (λ k c. Unit)
always = record {
  on_totp = λ k secret now count draws codes drawn ends. tt;
  on_hotp = λ k secret now count start draws codes drawn allowed ends. tt;
  on_codes = λ k c count draws codes drawn ends h. tt;
  on_register = λ k c allowed none_left t. tt;
  on_backup = λ k c code now h. tt;
  on_totp_pass = λ k c now h. tt;
  on_hotp_pass = λ k c now h. tt;
  on_used = λ k c now h. tt;
}

all_always : (s : MfaProvider) → AllConfigs (λ k c. Unit) s
all_always s = record { at = λ k c h. tt }

module _ (id : String) (n : ℕ) where
  same-AtLeast :
      (s t : MfaProvider)
      → t.webauthn_credentials ≡ s.webauthn_credentials
      → AtLeast id n s
      → AtLeast id n t
  same-AtLeast s t e least = record { at = λ c h. least.at c (ap (lookup id) (sym e) ∙ h) }

  forget-AtLeast :
      (user_id : String) (c : MfaConfig) (s : MfaProvider)
      → AtLeast id n s
      → AtLeast id n (forget user_id c s)
  unfolding forget
  forget-AtLeast user_id c s least = elim (Option-cases c.credential_id) [
    | inl e ↦ same-AtLeast s (forget user_id c s) (rw e refl) least
    | inr (gone, e) ↦ record {
      at = λ d h.
          let k = rw e at h in least.at d (lookup-erase-cases gone id s.webauthn_credentials k).1;
    }
  ]

  Written-AtLeast :
      (otp : Otp) (codec : Codec) (s : MfaProvider) (user_id : String) {t : MfaProvider}
      → Written otp codec always s (all_always s) user_id t
      → AtLeast id n s
      → AtLeast id n t
  Written-AtLeast otp codec s user_id (unchanged e) least = rw e least
  Written-AtLeast otp codec s user_id (written f keep e) least = rw e (same-AtLeast s _ refl least)
  Written-AtLeast otp codec s user_id (dropped c e) least = rw e (forget-AtLeast user_id c s least)

  raise-AtLeast :
      (codec : Codec) (used : ℕ) (user_id other : String) (count : ℕ) (s : MfaProvider)
      (c : WebauthnCredential)
      → lookup other s.webauthn_credentials ≡ some c
      → c.sign_count < count
      → AtLeast id n s
      → AtLeast id n (store_assertion codec used user_id other count s)
  unfolding store_assertion
  raise-AtLeast codec used user_id other count s c known more least = record {
    at = λ d h.
        elim (lookup-adjust-cases other id (set_sign_count codec count) s.webauthn_credentials h) [
          | inr old ↦ least.at d old
          | inl (b, same, found, e) ↦
              let j : lookup id s.webauthn_credentials ≡ some c = rw (← same) known in
              let low = least.at c j in rw e (omega arith)
        ];
  }

  authenticate-AtLeast :
      (codec : Codec) (checked used : ℕ) (user_id : String) (sent : AssertionData) (s : MfaProvider)
      → AtLeast id n s
      → AtLeast id n (verify_webauthn_authentication codec checked used user_id sent s).1
  unfolding verify_webauthn_authentication authenticate
  authenticate-AtLeast codec checked used user_id sent s least =
      elim (Option-cases (lookup ("auth_" ^ user_id) s.webauthn_challenges)) [
        | inl missing ↦ rw (missing, verify_webauthn_authentication) least
        | inr (c, known) ↦ elim (Bool-cases (ltb c.expires_at checked)) [
          | inl late ↦
              rw (known, verify_webauthn_authentication, late) (same-AtLeast s _ refl least)
          | inr early ↦ elim (Option-cases (accept_assertion codec c.challenge sent s)) [
            | inl refused ↦
                rw (known, verify_webauthn_authentication, early, refused, authenticate) least
            | inr ((other, count), read) ↦
                let (a, credential, parts, found, raised) =
                  accepted-parts codec c.challenge other sent count s read in
                rw (known, verify_webauthn_authentication, early, read, authenticate)
                  (raise-AtLeast codec used user_id other count s credential found
                    (count-parts codec sent a credential count raised).1 least)
          ]
        ]
      ]

  setup_totp-AtLeast :
      (otp : Otp) {s t : MfaProvider} (qr_code : String → Option String) (draws : List ℕ)
      (secret : String) (now : ℕ) (user_id : String) (account : Option String) (made : TotpSetup)
      → setup_totp otp qr_code draws secret now user_id account s ≡ some (made, t)
      → AtLeast id n s
      → AtLeast id n t
  unfolding setup_totp
  setup_totp-AtLeast otp {s} qr_code draws secret now user_id account made h least =
      elim (Option-cases (generate_codes s.backup_codes_count draws [])) [
        | inl open' ↦ absurd (let k = rw (open', setup_totp) at h in cc)
        | inr (codes, ends) ↦
            let k = rw (ends, setup_totp) at h in rw (← the_state k) (same-AtLeast s _ refl least)
      ]

  setup_hotp-AtLeast :
      {s t : MfaProvider} (draws : List ℕ) (secret : String) (now : ℕ) (user_id : String)
      (made : HotpSetup)
      → setup_hotp draws secret now user_id s ≡ some (made, t)
      → AtLeast id n s
      → AtLeast id n t
  unfolding setup_hotp
  setup_hotp-AtLeast {s} draws secret now user_id made h least =
      elim (Option-cases (generate_codes s.backup_codes_count draws [])) [
        | inl open' ↦ absurd (let k = rw (open', setup_hotp) at h in cc)
        | inr (codes, ends) ↦
            let k = rw (ends, setup_hotp) at h in rw (← the_state k) (same-AtLeast s _ refl least)
      ]

  regenerate-AtLeast :
      {s t : MfaProvider} (draws : List ℕ) (user_id : String) (made : Result MfaError (List String))
      → regenerate_backup_codes draws user_id s ≡ some (made, t)
      → AtLeast id n s
      → AtLeast id n t
  unfolding regenerate_backup_codes
  regenerate-AtLeast {s} draws user_id made h least =
      elim (Option-cases (lookup user_id s.mfa_configs)) [
        | inl missing ↦
            let k = rw (missing, regenerate_backup_codes) at h in rw (← the_state k) least
        | inr (c, known) ↦ elim (Option-cases (generate_codes s.backup_codes_count draws [])) [
          | inl open' ↦ absurd (let k = rw (known, open', regenerate_backup_codes) at h in cc)
          | inr (codes, ends) ↦
              let k = rw (known, ends, regenerate_backup_codes) at h in
              rw (← the_state k) (same-AtLeast s _ refl least)
        ]
      ]

  Step-AtLeast :
      (otp : Otp) (codec : Codec) {s t : MfaProvider}
      → Step otp codec no_registrations s t
      → AtLeast id n s
      → AtLeast id n t
  unfolding generate_webauthn_registration_options generate_webauthn_authentication_options
  Step-AtLeast otp codec {s} (setup_totp_step qr_code draws secret now user_id account made drawn e)
        h =
      setup_totp-AtLeast otp qr_code draws secret now user_id account made e h
  Step-AtLeast otp codec {s} (setup_hotp_step draws secret now user_id made drawn allowed e) h =
      setup_hotp-AtLeast draws secret now user_id made e h
  Step-AtLeast otp codec {s} (regenerate_step draws user_id made drawn e) h =
      regenerate-AtLeast draws user_id made e h
  Step-AtLeast otp codec {s} (verify_totp_step now used user_id token backup) h =
      Written-AtLeast otp codec s user_id
        (verify_totp-Written otp codec always s (all_always s) now used user_id token backup) h
  Step-AtLeast otp codec {s} (verify_hotp_step used user_id token backup) h =
      Written-AtLeast otp codec s user_id
        (verify_hotp-Written otp codec always s (all_always s) used user_id token backup) h
  Step-AtLeast otp codec {s} (disable_step user_id backup) h =
      Written-AtLeast otp codec s user_id
        (disable_mfa-Written otp codec always s (all_always s) user_id backup) h
  Step-AtLeast otp codec {s}
        (registration_options_step challenge handle now user_id username display) h =
      same-AtLeast s _ refl h
  Step-AtLeast otp codec {s} (register_step checked now stamped user_id sent allowed) h =
      absurd allowed
  Step-AtLeast otp codec {s} (authentication_options_step challenge now user_id) h =
      same-AtLeast s _ (ground arith) h
  Step-AtLeast otp codec {s} (authenticate_step checked used user_id sent) h =
      authenticate-AtLeast codec checked used user_id sent s h

  pub Reach-AtLeast :
      (otp : Otp) (codec : Codec) {s t : MfaProvider}
      → Reach otp codec no_registrations s t
      → AtLeast id n s
      → AtLeast id n t
  Reach-AtLeast otp codec here h = h
  Reach-AtLeast otp codec (next r step) h =
      Step-AtLeast otp codec step (Reach-AtLeast otp codec r h)
