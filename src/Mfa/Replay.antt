-- ===== src/Mfa/Replay.antt =====
-- What `verify_webauthn_authentication` of auth/mfa_provider.py accepts, and accepts again.
use mathlib.Core.Option
use bt_api_security.Prelude.{
  String, ℕ, ◌≡◌, refl, sym, ap, ◌∙◌, ◌≢◌, inl, inr, true, false, Option, some, List, [], ◌∷◌, map,
  arith, ltb, Bool-cases, Option-cases, nat_Eq, string_Eq,
}
use bt_api_security.Dict.{Dict, lookup}
use bt_api_security.Dict.Laws.{lookup-adjust_self}
use bt_api_security.Mfa.Types.{WebauthnCredential, MfaProvider, Otp}
use bt_api_security.Mfa.Webauthn.{
  AssertionData, Codec, and_then, read_assertion, new_sign_count, set_sign_count, store_assertion,
  authenticate, accept_assertion, verify_webauthn_authentication,
}
use bt_api_security.Prelude.Text.{◌^◌}
use bt_api_security.Mfa.Traces.{Reach}
use bt_api_security.Mfa.SignCounts.{
  authenticator_of, credential_of, read-parts, count-parts, AtLeast, no_registrations,
  accepted-parts, Reach-AtLeast,
}

module _ (codec : Codec) where
  abbrev Accepted : ℕ → String → AssertionData → MfaProvider → MfaProvider → Type 0
  Accepted used user_id sent s t =
      (challenge : String) × (id : String) × (count : ℕ) × (accept_assertion codec challenge sent s
        ≡ some (id, count))
      × (t ≡ store_assertion codec used user_id id count s)

  passed-Accepted :
      (checked used : ℕ) (user_id : String) (sent : AssertionData) (s : MfaProvider)
      → (verify_webauthn_authentication codec checked used user_id sent s).0 ≡ true
      → Accepted used user_id sent s
          (verify_webauthn_authentication codec checked used user_id sent s).1
  unfolding verify_webauthn_authentication authenticate
  passed-Accepted checked used user_id sent s h =
      elim (Option-cases (lookup ("auth_" ^ user_id) s.webauthn_challenges)) [
        | inl missing ↦ absurd (let k = rw (missing, verify_webauthn_authentication) at h in cc)
        | inr (c, known) ↦ elim (Bool-cases (ltb c.expires_at checked)) [
          | inl late ↦ absurd (let k = rw (known, verify_webauthn_authentication, late) at h in cc)
          | inr early ↦ elim (Option-cases (accept_assertion codec c.challenge sent s)) [
            | inl refused ↦ absurd (
                let k =
                  rw (known, verify_webauthn_authentication, early, refused, authenticate) at h in
                cc)
            | inr ((id, count), read) ↦ (
              c.challenge,
              id,
              count,
              read,
              rw (known, verify_webauthn_authentication, early, read, authenticate) refl,
            )
          ]
        ]
      ]

  stored-AtLeast :
      (used : ℕ) (user_id id : String) (count : ℕ) (s : MfaProvider) (c : WebauthnCredential)
      → lookup id s.webauthn_credentials ≡ some c
      → AtLeast id count (store_assertion codec used user_id id count s)
  unfolding store_assertion
  stored-AtLeast used user_id id count s c known = record {
    at = λ d h.
        let stored =
          lookup-adjust_self id (set_sign_count codec count) s.webauthn_credentials known in
        let e : set_sign_count codec count c ≡ d = ground arith in rw (← e) (omega arith);
  }

  -- The count that an assertion carries was enough before, so it is not enough any more.
  spent-refused :
      (challenge again id : String) (count m : ℕ) (first later : AssertionData) (s t : MfaProvider)
      (other : String)
      → authenticator_of codec later ≡ authenticator_of codec first
      → credential_of codec later ≡ credential_of codec first
      → accept_assertion codec challenge first s ≡ some (id, count)
      → AtLeast id count t
      → accept_assertion codec again later t ≢ some (other, m)
  spent-refused challenge again id count m first later s t other same_data same_id before least
        after =
      let (a, c, read, found, raised) = accepted-parts codec challenge id first count s before in
      let (b, d, read2, found2, raised2) = accepted-parts codec again other later m t after in
      let (data1, id1) = read-parts codec challenge s.rp_id first a id read in
      let (data2, id2) = read-parts codec again t.rp_id later b other read2 in
      let ids : other ≡ id = ground arith in
      let bytes : b ≡ a = ground arith in
      let low = least.at d (ap (λ x. lookup x t.webauthn_credentials) (sym ids) ∙ found2) in
      let (n1, more1) = count-parts codec first a c count raised in
      let (n2, more2) = count-parts codec later b d m raised2 in
      let n3 = rw bytes at n2 in omega arith

  later-refused :
      (checked used : ℕ) (user_id : String) (later : AssertionData) (t : MfaProvider)
      → ((challenge id : String) (count : ℕ)
          → accept_assertion codec challenge later t ≢ some (id, count))
      → (verify_webauthn_authentication codec checked used user_id later t).0 ≡ false
  later-refused checked used user_id later t never =
      elim (Bool-cases (verify_webauthn_authentication codec checked used user_id later t).0) [
        | inr refused ↦ refused
        | inl passed ↦
            let (challenge, id, count, accepted, e) =
              passed-Accepted checked used user_id later t passed in
            absurd (never challenge id count accepted)
      ]

-- After an assertion is accepted, `verify_webauthn_authentication` refuses every assertion with the
-- same authenticator data and credential id, for any user, with any client data and signature, in
-- every state that calls other than registrations lead to.
pub replay_refused :
    (otp : Otp) (codec : Codec) (s t : MfaProvider) (checked used checked_again used_again : ℕ)
    (user_id other : String) (first later : AssertionData)
    → (verify_webauthn_authentication codec checked used user_id first s).0 ≡ true
    → Reach otp codec no_registrations
        (verify_webauthn_authentication codec checked used user_id first s).1
        t
    → authenticator_of codec later ≡ authenticator_of codec first
    → credential_of codec later ≡ credential_of codec first
    → (verify_webauthn_authentication codec checked_again used_again other later t).0 ≡ false
replay_refused otp codec s t checked used checked_again used_again user_id other first later
      accepted rest same_data same_id =
    let (challenge, id, count, before, e) =
      passed-Accepted codec checked used user_id first s accepted in
    let (a, c, read, found, raised) = accepted-parts codec challenge id first count s before in
    let stored = stored-AtLeast codec used user_id id count s c found in
    let least = Reach-AtLeast id count otp codec rest (rw e stored) in
    later-refused codec checked_again used_again other later t (λ again id2 m.
      spent-refused codec challenge again id count m first later s t id2 same_data same_id before
        least)

abbrev pub disguise : List ℕ → String → WebauthnCredential → WebauthnCredential
disguise key owner c = record c { public_key = key; user_handle = owner }

-- A provider whose stored credentials all have some key and some owner.
abbrev pub disguised : List ℕ → String → MfaProvider → MfaProvider
disguised key owner s = record s {
  webauthn_credentials = map (λ e. (e.0, disguise key owner e.1)) s.webauthn_credentials;
}

lookup-disguised :
    (key : List ℕ) (owner id : String) (d : Dict WebauthnCredential)
    → lookup id (map (λ e. (e.0, disguise key owner e.1)) d)
      ≡ Option.map (disguise key owner) (lookup id d)
unfolding lookup
lookup-disguised key owner id [] = refl
lookup-disguised key owner id ((k, c) ∷ d) = ground (arith, lookup-disguised key owner id d)

disguised-accepted :
    (codec : Codec) (challenge : String) (sent : AssertionData) (key : List ℕ) (owner : String)
    (s : MfaProvider)
    → accept_assertion codec challenge sent (disguised key owner s)
      ≡ accept_assertion codec challenge sent s
unfolding accept_assertion new_sign_count
disguised-accepted codec challenge sent key owner s =
    elim (Option-cases (read_assertion codec challenge s.rp_id sent)) [
      | inl e ↦ rw e refl
      | inr ((a, id), e) ↦ elim (Option-cases (lookup id s.webauthn_credentials)) [
        | inl e2 ↦ rw (e, lookup-disguised key owner id s.webauthn_credentials, e2) refl
        | inr (c, e2) ↦ rw (e, lookup-disguised key owner id s.webauthn_credentials, e2) refl
      ]
    ]

forged-accepted :
    (codec : Codec) (challenge : String) (sent : AssertionData) (forged : Option String)
    (s : MfaProvider) {x y : List ℕ}
    → and_then sent.signature codec.decode ≡ some x
    → and_then forged codec.decode ≡ some y
    → accept_assertion codec challenge (record sent { signature = forged }) s
      ≡ accept_assertion codec challenge sent s
unfolding accept_assertion read_assertion new_sign_count
forged-accepted codec challenge sent forged s hx hy = rw (hx, hy) refl

-- `verify_webauthn_authentication` answers alike whatever keys and owners the stored credentials
-- have and whatever the signature is, as long as it can be decoded.
pub signature_ignored :
    (codec : Codec) (checked used : ℕ) (user_id owner : String) (key x y : List ℕ)
    (sent : AssertionData) (forged : Option String) (s : MfaProvider)
    → and_then sent.signature codec.decode ≡ some x
    → and_then forged codec.decode ≡ some y
    → (verify_webauthn_authentication codec checked used user_id
        (record sent { signature = forged })
        (disguised key owner s)).0
      ≡ (verify_webauthn_authentication codec checked used user_id sent s).0
unfolding verify_webauthn_authentication authenticate
signature_ignored codec checked used user_id owner key x y sent forged s hx hy =
    elim (Option-cases (lookup ("auth_" ^ user_id) s.webauthn_challenges)) [
      | inl missing ↦ rw (missing, verify_webauthn_authentication) refl
      | inr (c, known) ↦
          let same =
            disguised-accepted codec c.challenge (record sent { signature = forged }) key owner s
            ∙ forged-accepted codec c.challenge sent forged s hx hy in
          elim (Bool-cases (ltb c.expires_at checked)) [
            | inl late ↦ rw (known, verify_webauthn_authentication, late) refl
            | inr early ↦ elim (Option-cases (accept_assertion codec c.challenge sent s)) [
              | inl e ↦
                  rw (known, verify_webauthn_authentication, early, authenticate, same, e) refl
              | inr (r, e) ↦
                  rw (known, verify_webauthn_authentication, early, authenticate, same, e) refl
            ]
          ]
    ]
