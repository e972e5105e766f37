-- ===== src/OAuth/Rotation.antt =====
-- `refresh_access_token` of auth/oauth2_provider.py: when it succeeds, and what the new tokens are.
use bt_api_security.Prelude.{
  String, ℕ, ◌+◌, ◌*◌, ◌≡◌, refl, sym, ap, ◌∙◌, ◌⊎◌, inl, inr, Bool, true, false, some, arith,
  eq_iff, Bool-cases, Option-cases, ◌==◌, nat_Eq, string_Eq, ok, err, Result-cases, second,
}
use bt_api_security.Dict.{lookup, insert}
use bt_api_security.Dict.Laws.{lookup-adjust_self, lookup-insert_self}
use bt_api_security.OAuth.Types.{
  Value, OAuthClient, OAuthUser, AccessToken, RefreshToken, OAuthError, refresh_is_valid,
  user_not_found, user_inactive, str,
}
use bt_api_security.OAuth.Inputs.{require_text, supports_refresh_grant}
use bt_api_security.OAuth.Provider.{Provider}
use bt_api_security.OAuth.Tokens.{
  Draw, refresh_access_token, reissue, get_active_user, issue_access_token, attach_refresh_token,
  refresh_for, generate_refresh_token, store_access_token, new_access_token,
}

-- What a refresh needs of the stored token.
pub record IsRefreshable (now : ℕ) (p : Provider) (key id : String) (old : RefreshToken)
    : Type 0 where
  pub issued : lookup key p.refresh_tokens ≡ some old
  pub valid : refresh_is_valid now old ≡ true
  pub same_client : old.client_id ≡ id
  pub client : OAuthClient
  pub client_known : lookup id p.clients ≡ some client
  pub client_refreshes : supports_refresh_grant client ≡ true
  pub user : OAuthUser
  pub user_active : get_active_user old.user_id p ≡ (ok user, p)

get_active_user-cases :
    (id : String) (p : Provider)
    → ((u : OAuthUser) × (get_active_user id p ≡ (ok u, p)))
      ⊎ ((e : OAuthError) × (get_active_user id p ≡ (err e, p)))
unfolding get_active_user
get_active_user-cases id p = elim (Result-cases (require_text "user_id" (str id))) [
  | inr (e, bad) ↦ inr (e, rw bad refl)
  | inl (k, good) ↦ elim (Option-cases (lookup k p.users)) [
    | inl unknown ↦ inr (user_not_found, rw (good, unknown) refl)
    | inr (u, known) ↦ elim (Bool-cases u.is_active) [
      | inl active ↦ inl (u, rw (good, known, active) refl)
      | inr inactive ↦ inr (user_inactive, rw (good, known, inactive) refl)
    ]
  ]
]

module _ (draw : Draw) (now : ℕ) (key : String) (client_id : Value) (p : Provider) where
  pub refresh_runs :
      (id : String) (old : RefreshToken) (rotates : Bool)
      → p.enable_token_rotation ≡ rotates
      → require_text "client_id" client_id ≡ ok id
      → IsRefreshable now p key id old
      → refresh_access_token draw now key client_id p ≡ reissue draw old key rotates p
  unfolding refresh_access_token
  refresh_runs id old rotates which text r =
      rw
        (
          text,
          r.issued,
          r.valid,
          (eq_iff old.client_id id).1 r.same_client,
          r.client_known,
          r.client_refreshes,
          r.user_active,
        )
        (ap (λ b. reissue draw old key b p) which)

  pub refresh_ok :
      (a : AccessToken) (p' : Provider)
      → refresh_access_token draw now key client_id p ≡ (ok a, p')
      → (id : String) × (old : RefreshToken) × (require_text "client_id" client_id ≡ ok id)
        × IsRefreshable now p key id old
  unfolding refresh_access_token
  refresh_ok a p' h = elim (Result-cases (require_text "client_id" client_id)) [
    | inr (e, bad) ↦ absurd (let k = rw bad at h in cc)
    | inl (id, good) ↦
        let k = rw good at h in
        elim (Option-cases (lookup key p.refresh_tokens)) [
          | inl unknown ↦ absurd (let l = rw unknown at k in cc)
          | inr (old, known) ↦
              let l = rw known at k in
              elim (Bool-cases (refresh_is_valid now old)) [
                | inr stale ↦ absurd (let m = rw stale at l in cc)
                | inl valid ↦
                    let m = rw valid at l in
                    elim (Bool-cases (old.client_id == id)) [
                      | inr other ↦ absurd (let n = rw other at m in cc)
                      | inl same ↦
                          let n = rw same at m in
                          elim (Option-cases (lookup id p.clients)) [
                            | inl missing ↦ absurd (let o = rw missing at n in cc)
                            | inr (client, found) ↦
                                let o = rw found at n in
                                elim (Bool-cases (supports_refresh_grant client)) [
                                  | inr never ↦ absurd (let q = rw never at o in cc)
                                  | inl grants ↦
                                      let q = rw grants at o in
                                      elim (get_active_user-cases old.user_id p) [
                                        | inr (e, refused) ↦ absurd (let r = rw refused at q in cc)
                                        | inl (user, active) ↦ (
                                          id,
                                          old,
                                          good,
                                          record {
                                            issued = known;
                                            valid = valid;
                                            same_client = (eq_iff old.client_id id).0 same;
                                            client = client;
                                            client_known = found;
                                            client_refreshes = grants;
                                            user = user;
                                            user_active = active;
                                          },
                                        )
                                      ]
                                ]
                          ]
                    ]
              ]
        ]
  ]

-- The access token that a refresh with `old` gives, at the provider `p'` that it leaves.
pub record IsRenewal (draw : Draw) (old : RefreshToken) (lifetime : ℕ) (a : AccessToken)
    (p' : Provider) : Type 0 where
  pub drawn : a.token ≡ draw.token
  pub same_client : a.client_id ≡ old.client_id
  pub same_user : a.user_id ≡ some old.user_id
  pub same_scopes : a.scopes ≡ old.scopes
  pub lives : a.expires_at ≡ draw.issued + lifetime * second
  pub stored : lookup draw.token p'.access_tokens ≡ some a

module _ (draw : Draw) (key : String) (old : RefreshToken) (p : Provider) (a : AccessToken)
    (p' : Provider) where
  -- Rotation: the new refresh token is the drawn one.
  renews :
      reissue draw old key true p ≡ (ok a, p')
      → IsRenewal draw old p.token_lifetime a p' × (a.refresh_token ≡ some draw.refresh_token)
  unfolding reissue issue_access_token attach_refresh_token refresh_for generate_refresh_token
      store_access_token
  renews h = elim (Result-cases (require_text "user_id" (str old.user_id))) [
    | inr (e, bad) ↦ absurd (let k = rw bad at h in cc)
    | inl (owner, good) ↦
        let k = rw good at h in
        let made =
          lookup-insert_self draw.token
            (record (new_access_token draw p.token_lifetime old.client_id (some old.user_id)
              old.scopes) { refresh_token = some draw.refresh_token })
            p.access_tokens in
        (
          record {
            drawn = ground arith;
            same_client = ground arith;
            same_user = ground arith;
            same_scopes = ground arith;
            lives = ground arith;
            stored = ground (arith, made);
          },
          ground arith,
        )
  ]

  -- No rotation: the old refresh token stays in use, and the new access token names it.
  renews_without :
      reissue draw old key false p ≡ (ok a, p')
      → IsRenewal draw old p.token_lifetime a p'
        × (a.refresh_token ≡ some old.token)
        × (p'.refresh_tokens ≡ p.refresh_tokens)
  unfolding reissue issue_access_token attach_refresh_token store_access_token
  renews_without h =
      let first =
        new_access_token draw p.token_lifetime old.client_id (some old.user_id) old.scopes in
      let made =
        lookup-adjust_self draw.token (λ x. record x { refresh_token = some old.token })
          (insert draw.token first p.access_tokens)
          (lookup-insert_self draw.token first p.access_tokens) in
      (
        record {
          drawn = ground arith;
          same_client = ground arith;
          same_user = ground arith;
          same_scopes = ground arith;
          lives = ground arith;
          stored = ground (arith, made);
        },
        ground arith,
        ground arith,
      )

-- What the answer says of refresh tokens, with rotation and without.
abbrev pub RefreshFate : Draw → RefreshToken → Provider → AccessToken → Provider → Type 0
RefreshFate draw old p a p' =
    ((p.enable_token_rotation ≡ true) × (a.refresh_token ≡ some draw.refresh_token))
    ⊎ ((p.enable_token_rotation ≡ false)
        × (a.refresh_token ≡ some old.token)
        × (p'.refresh_tokens ≡ p.refresh_tokens))

-- A refresh that succeeds found a stored, valid refresh token of this client, whose client may
-- refresh and whose user is active; the access token it gives is stored, has the same client, user
-- and scopes, lives for the configured time, and names a new refresh token if tokens rotate, the
-- old one if not.
pub refresh_sound :
    (draw : Draw) (now : ℕ) (key : String) (client_id : Value) (p : Provider) (a : AccessToken)
    (p' : Provider)
    → refresh_access_token draw now key client_id p ≡ (ok a, p')
    → (id : String) × (old : RefreshToken) × (require_text "client_id" client_id ≡ ok id)
      × IsRefreshable now p key id old
      × IsRenewal draw old p.token_lifetime a p'
      × RefreshFate draw old p a p'
refresh_sound draw now key client_id p a p' h =
    let (id, old, text, r) = refresh_ok draw now key client_id p a p' h in
    elim (Bool-cases p.enable_token_rotation) [
      | inl rotates ↦
          let (new, named) =
            renews draw key old p a p'
              (sym (refresh_runs draw now key client_id p id old true rotates text r) ∙ h) in
          (id, old, text, r, new, inl (rotates, named))
      | inr keeps ↦
          let (new, named, same) =
            renews_without draw key old p a p'
              (sym (refresh_runs draw now key client_id p id old false keeps text r) ∙ h) in
          (id, old, text, r, new, inr (keeps, named, same))
    ]
