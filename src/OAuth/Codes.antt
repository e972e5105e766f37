-- ===== src/OAuth/Codes.antt =====
-- Authorization codes of auth/oauth2_provider.py: when one is redeemed, and that it is redeemed once.
use bt_api_security.Prelude.{
  String, ℕ, ◌≤◌, ◌≡◌, refl, ◌∙◌, ◌≢◌, ◌↔◌, inl, inr, true, false, Option, none, some, arith,
  eq_iff, Bool-cases, Option-cases, ◌==◌, nat_Eq, string_Eq, ok, Result-cases,
}
use bt_api_security.Dict.{lookup, adjust}
use bt_api_security.OAuth.Types.{Value, AuthorizationCode, code_is_valid, code_is_expired}
use bt_api_security.OAuth.Inputs.{require_text}
use bt_api_security.OAuth.Provider.{
  Provider, method_or_plain, compare_verifier, check_pkce, check_verifier, optional_text,
  mark_code_used, validate_authorization_code,
}

-- The verifier `v` answers `challenge` by the method of that name.
pub data Accepts (s256 : String → String) (v challenge : String) : String → Type 0 where
  by_plain : {m : String} → m ≡ "plain" → v ≡ challenge → Accepts s256 v challenge m
  by_s256 : {m : String} → m ≡ "S256" → s256 v ≡ challenge → Accepts s256 v challenge m

-- The verifier answers the challenge that the code was asked for with, if there was one.
pub data Answers (s256 : String → String) (method : Option String)
    : Option String → Option String → Type 0 where
  unchallenged : {verifier : Option String} → Answers s256 method none verifier
  empty_challenge :
      {c : String} {verifier : Option String} → c ≡ "" → Answers s256 method (some c) verifier
  answered :
      {c v : String}
      → c ≢ ""
      → Accepts s256 v c (method_or_plain method)
      → Answers s256 method (some c) (some v)

module _ (s256 : String → String) where
  compare_verifier_sound :
      (m v c : String) → compare_verifier s256 m v c ≡ ok true → Accepts s256 v c m
  unfolding compare_verifier
  compare_verifier_sound m v c h = elim (Bool-cases (m == "plain")) [
    | inl plain ↦ by_plain ((eq_iff m "plain").0 plain) (ground (arith, eq_iff v c))
    | inr other ↦ elim (Bool-cases (m == "S256")) [
      | inl hashed ↦ by_s256 ((eq_iff m "S256").0 hashed) (ground (arith, eq_iff (s256 v) c))
      | inr neither ↦ absurd (ground arith)
    ]
  ]

  compare_verifier_complete :
      (v c : String) {m : String} → Accepts s256 v c m → compare_verifier s256 m v c ≡ ok true
  unfolding compare_verifier
  compare_verifier_complete v c (by_plain {m} named e) =
      ground (arith, eq_iff m "plain", eq_iff v c)
  compare_verifier_complete v c (by_s256 {m} named e) = rw named (ground (arith, eq_iff (s256 v) c))

  check_pkce_sound :
      (challenge method verifier : Option String)
      → check_pkce s256 challenge method verifier ≡ ok tt
      → Answers s256 method challenge verifier
  unfolding check_pkce
  check_pkce_sound none method verifier h = unchallenged
  check_pkce_sound (some c) method none h = empty_challenge (ground (arith, eq_iff c ""))
  check_pkce_sound (some c) method (some v) h = elim (Bool-cases (c == "")) [
    | inl empty ↦ empty_challenge ((eq_iff c "").0 empty)
    | inr given ↦
        answered (λ e. ground (arith, eq_iff c ""))
          (compare_verifier_sound (method_or_plain method) v c (ground arith))
  ]

  check_pkce_complete :
      (method : Option String) {challenge verifier : Option String}
      → Answers s256 method challenge verifier
      → check_pkce s256 challenge method verifier ≡ ok tt
  unfolding check_pkce
  check_pkce_complete method unchallenged = refl
  check_pkce_complete method (empty_challenge {c} {verifier = none} e) = ground (arith, eq_iff c "")
  check_pkce_complete method (empty_challenge {c} {verifier = some v} e) =
      ground (arith, eq_iff c "")
  check_pkce_complete method (answered {c} {v} given a) =
      ground (arith, eq_iff c "", compare_verifier_complete v c a)

-- What a code must satisfy to be redeemed at `now` by a client, with a redirect URI and a verifier.
pub record IsRedeemable (s256 : String → String) (now : ℕ) (p : Provider)
    (key client_id uri : String) (verifier : Option String) (c : AuthorizationCode) : Type 0 where
  pub issued : lookup key p.auth_codes ≡ some c
  pub unused : c.used ≡ false
  pub fresh : now ≤ c.expires_at
  pub same_client : c.client_id ≡ client_id
  pub same_uri : c.redirect_uri ≡ uri
  pub proven : Answers s256 c.code_challenge_method c.code_challenge verifier

abbrev pub spend_code : String → Provider → Provider
spend_code key p = record p { auth_codes = adjust key mark_code_used p.auth_codes }

module _ (s256 : String → String) (now : ℕ) (p : Provider) (code client_id uri verifier : Value)
    (key id place : String) (answer : Option String) (code_text : require_text "code" code ≡ ok key)
    (client_text : require_text "client_id" client_id ≡ ok id)
    (uri_text : require_text "redirect_uri" uri ≡ ok place)
    (verifier_text : optional_text "code_verifier" verifier ≡ ok answer) where
  redeem_complete :
      (c : AuthorizationCode)
      → IsRedeemable s256 now p key id place answer c
      → validate_authorization_code s256 now code client_id uri verifier p
        ≡ (ok (mark_code_used c), spend_code key p)
  unfolding validate_authorization_code code_is_valid code_is_expired check_verifier
  redeem_complete c r =
      rw (code_text, client_text, uri_text, verifier_text)
        (ground (
          arith,
          r.issued,
          r.unused,
          r.fresh,
          r.same_client,
          r.same_uri,
          eq_iff c.client_id id,
          eq_iff c.redirect_uri place,
          check_pkce_complete s256 c.code_challenge_method r.proven,
        ))

  redeem_sound :
      (c' : AuthorizationCode) (p' : Provider)
      → validate_authorization_code s256 now code client_id uri verifier p ≡ (ok c', p')
      → (c : AuthorizationCode) × IsRedeemable s256 now p key id place answer c
        × (c' ≡ mark_code_used c)
        × (p' ≡ spend_code key p)
  unfolding validate_authorization_code code_is_valid code_is_expired check_verifier
  redeem_sound c' p' h =
      let k = rw (code_text, client_text, uri_text, verifier_text) at h in
      elim (Option-cases (lookup key p.auth_codes)) [
        | inl unknown ↦ absurd (ground arith)
        | inr (c, known) ↦
            let l = rw known at k in
            elim (Result-cases (check_pkce s256 c.code_challenge c.code_challenge_method answer)) [
              | inl (t, proven) ↦ (
                c,
                record {
                  issued = known;
                  unused = ground arith;
                  fresh = ground arith;
                  same_client = ground (arith, eq_iff c.client_id id);
                  same_uri = ground (arith, eq_iff c.redirect_uri place);
                  proven =
                      check_pkce_sound s256 c.code_challenge c.code_challenge_method answer proven;
                },
                ground arith,
                ground arith,
              )
              | inr (e, refused) ↦ absurd (ground arith)
            ]
      ]

  -- For arguments that are valid texts: the call succeeds exactly for a code that was issued, is
  -- unused and fresh, belongs to the client and the redirect URI, and whose challenge (if any) the
  -- verifier answers; it then returns the code marked as used and changes nothing else.
  pub redeem_iff :
      (c' : AuthorizationCode) (p' : Provider)
      → (validate_authorization_code s256 now code client_id uri verifier p ≡ (ok c', p')) ↔ (
          (c : AuthorizationCode) × IsRedeemable s256 now p key id place answer c
          × (c' ≡ mark_code_used c)
          × (p' ≡ spend_code key p))
  redeem_iff c' p' = (redeem_sound c' p', λ (c, r, e, f). redeem_complete c r ∙ rw (e, f) refl)
