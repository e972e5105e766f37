-- ===== src/OAuth/Traces.antt =====
-- What a sequence of calls to auth/oauth2_provider.py keeps: whatever each of its writes keeps.
use bt_api_security.Prelude.{String, ℕ, ◌≢◌, not, Option, List, [], ◌∷◌, nat_Eq, string_Eq, All}
use bt_api_security.Prelude.Keeps.{Keeps, keeps_rules}
use bt_api_security.Dict.{Dict, insert, adjust, erase_all}
use bt_api_security.OAuth.Types.{
  Value, Collection, OAuthClient, OAuthUser, AuthorizationCode, AccessToken, RefreshToken,
  code_is_valid, refresh_is_valid,
}
use bt_api_security.OAuth.Provider.{
  Provider, Action, mark_code_used, validate_authorization_code, register_client, register_user,
  generate_authorization_code,
}
use bt_api_security.OAuth.Tokens.{mark_used, validate_access_token, cleanup_expired_tokens, stale}
use bt_api_security.OAuth.Frames.{
  generate_access_token-Keeps, refresh_access_token-Keeps, revoke_token-Keeps,
}
use bt_api_security.OAuth.Calls.{
  Call, add_client, add_user, authorize, redeem, issue, check, refresh, revoke, cleanup, perform,
  perform_all, ignore,
}

-- The call does not draw `key` from `secrets`, as a code or as a refresh token.
unfoldable pub NotDrawn : String → Call → Type 0
NotDrawn key (authorize id owner uri scopes challenge method code t t') = code ≢ key
NotDrawn key (issue draw id owner scopes g) = draw.refresh_token ≢ key
NotDrawn key (refresh draw now token id) = draw.refresh_token ≢ key
NotDrawn key _ = Unit

-- `P` outlives every write that a provider makes without drawing `key`.
pub record IsStable (key : String) (P : Provider → Type 0) : Type 0 where
  pub on_clients : (d : Dict OAuthClient) (p : Provider) → P p → P (record p { clients = d })
  pub on_users : (d : Dict OAuthUser) (p : Provider) → P p → P (record p { users = d })
  pub on_access : (d : Dict AccessToken) (p : Provider) → P p → P (record p { access_tokens = d })
  pub on_code :
      (k : String) (c : AuthorizationCode) (p : Provider)
      → k ≢ key
      → P p
      → P (record p { auth_codes = insert k c p.auth_codes })
  pub on_spend :
      (k : String) (p : Provider)
      → P p
      → P (record p { auth_codes = adjust k mark_code_used p.auth_codes })
  pub on_drop_codes :
      (ks : List String) (p : Provider)
      → P p
      → P (record p { auth_codes = erase_all ks p.auth_codes })
  pub on_refresh :
      (k : String) (r : RefreshToken) (p : Provider)
      → k ≢ key
      → P p
      → P (record p { refresh_tokens = insert k r p.refresh_tokens })
  pub on_mark :
      (k : String) (p : Provider)
      → P p
      → P (record p { refresh_tokens = adjust k mark_used p.refresh_tokens })
  pub on_drop_refreshes :
      (ks : List String) (p : Provider)
      → P p
      → P (record p { refresh_tokens = erase_all ks p.refresh_tokens })

module _ (s256 : String → String) {key : String} {P : Provider → Type 0}
    (stable : IsStable key P) where
  ignore-Keeps : {A : Type 0} (m : Action A) → Keeps P m → Keeps P (ignore m)
  ignore-Keeps m k = search keeps_rules depth 8

  register_client-Keeps :
      (id secret : Value) (uris scopes grants : Collection) (confidential : Value) (now : ℕ)
      → Keeps P (register_client id secret uris scopes grants confidential now)
  unfolding register_client
  register_client-Keeps id secret uris scopes grants confidential now =
      search (keeps_rules, stable.on_clients) depth 24

  register_user-Keeps :
      (id name email mfa : Value) (now : ℕ) → Keeps P (register_user id name email mfa now)
  unfolding register_user
  register_user-Keeps id name email mfa now = search (keeps_rules, stable.on_users) depth 24

  generate_authorization_code-Keeps :
      (id owner uri : Value) (scopes : Collection) (challenge method : Option String)
      (code : String) (t t' : ℕ)
      → code ≢ key
      → Keeps P (generate_authorization_code id owner uri scopes challenge method code t t')
  unfolding generate_authorization_code
  generate_authorization_code-Keeps id owner uri scopes challenge method code t t' ne =
      search (keeps_rules, stable.on_code) depth 40

  validate_authorization_code-Keeps :
      (now : ℕ) (code id uri verifier : Value)
      → Keeps P (validate_authorization_code s256 now code id uri verifier)
  unfolding validate_authorization_code
  validate_authorization_code-Keeps now code id uri verifier =
      search (keeps_rules, stable.on_spend) depth 40

  validate_access_token-Keeps :
      (now : ℕ) (token : Value) (scopes : Collection)
      → Keeps P (validate_access_token now token scopes)
  unfolding validate_access_token
  validate_access_token-Keeps now token scopes = search keeps_rules depth 20

  cleanup_expired_tokens-Keeps : (clock : String → ℕ) → Keeps P (cleanup_expired_tokens clock)
  unfolding cleanup_expired_tokens
  cleanup_expired_tokens-Keeps clock = record {
    at = λ p h.
        stable.on_drop_refreshes (stale clock (λ t r. not (refresh_is_valid t r)) p.refresh_tokens)
          _
          (stable.on_access _ _
            (stable.on_drop_codes (stale clock (λ t c. not (code_is_valid t c)) p.auth_codes) _ h));
  }

  perform-Keeps : (c : Call) → NotDrawn key c → Keeps P (perform s256 c)
  unfolding perform NotDrawn
  perform-Keeps (add_client id secret uris scopes grants confidential now) n =
      ignore-Keeps _ (register_client-Keeps id secret uris scopes grants confidential now)
  perform-Keeps (add_user id name email mfa now) n =
      ignore-Keeps _ (register_user-Keeps id name email mfa now)
  perform-Keeps (authorize id owner uri scopes challenge method code t t') n =
      ignore-Keeps _
        (generate_authorization_code-Keeps id owner uri scopes challenge method code t t' n)
  perform-Keeps (redeem now code id uri verifier) n =
      ignore-Keeps _ (validate_authorization_code-Keeps now code id uri verifier)
  perform-Keeps (issue draw id owner scopes g) n = ignore-Keeps _ (
      generate_access_token-Keeps P draw stable.on_access
        (λ r p. stable.on_refresh draw.refresh_token r p n) stable.on_mark id owner scopes g)
  perform-Keeps (check now token scopes) n =
      ignore-Keeps _ (validate_access_token-Keeps now token scopes)
  perform-Keeps (refresh draw now token id) n = ignore-Keeps _ (
      refresh_access_token-Keeps P draw stable.on_access
        (λ r p. stable.on_refresh draw.refresh_token r p n) stable.on_mark now token id)
  perform-Keeps (revoke token) n =
      ignore-Keeps _ (revoke_token-Keeps P stable.on_access stable.on_mark token)
  perform-Keeps (cleanup clock) n = ignore-Keeps _ (cleanup_expired_tokens-Keeps clock)

  pub perform_all-Keeps :
      (cs : List Call) (p : Provider) → All (NotDrawn key) cs → P p → P (perform_all s256 cs p)
  unfolding perform_all
  perform_all-Keeps [] p n h = h
  perform_all-Keeps (c ∷ cs) p n h = perform_all-Keeps cs _ n.1 ((perform-Keeps c n.0).at p h)
