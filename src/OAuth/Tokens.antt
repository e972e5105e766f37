-- ===== src/OAuth/Tokens.antt =====
-- `OAuth2Provider` of auth/oauth2_provider.py: access and refresh tokens, and their clean-up.
use bt_api_security.Prelude.{
  String, ℕ, ◌+◌, ◌*◌, Bool, true, false, not, Option, none, some, List, [], ◌∷◌, if◌then◌else◌,
  ◌==◌, nat_Eq, string_Eq, length, select, contains, is_subset, ok, ◌>>=◌, ◌>>◌, pure, raise, lift,
  gets, modify, raise_if, or_raise, second, whole_seconds,
}
use bt_api_security.Dict.{Dict, lookup, has_key, insert, erase, adjust, erase_all, keys}
use bt_api_security.OAuth.Types.{
  GrantType, authorization_code, refresh_grant, pkce, grant_Eq, Value, str, Collection, bearer,
  token_type_value, OAuthUser, AccessToken, RefreshToken, user_not_found, user_inactive,
  user_required, user_required_for_refresh, invalid_client, client_mismatch, grant_not_allowed,
  invalid_access_token, access_token_expired, insufficient_scopes, invalid_refresh_token,
  refresh_token_expired_or_used, can_use_grant_type, code_is_valid, access_is_expired,
  access_is_valid, refresh_is_valid,
}
use bt_api_security.OAuth.Inputs.{
  require_text, normalize_scopes, validate_client_scopes, supports_refresh_grant,
}
use bt_api_security.OAuth.Provider.{Provider, Action}
use bt_api_security.Prelude.Text.{sort, join}

-- What one issue of tokens draws from `secrets` and from the clock.
pub record Draw : Type 0 where
  pub token : String
  pub refresh_token : String
  pub issued : ℕ
  pub created : ℕ
  pub refresh_issued : ℕ
  pub refresh_created : ℕ

-- `_get_active_user`
unfoldable pub get_active_user : String → Action OAuthUser
get_active_user user_id = do
  id ← lift (require_text "user_id" (str user_id))
  user ← or_raise (← gets (λ p. lookup id p.users)) user_not_found
  raise_if (not user.is_active) user_inactive
  pure user

-- `_generate_refresh_token`
unfoldable pub generate_refresh_token : Draw → String → String → List String → Action RefreshToken
generate_refresh_token draw client_id user_id scopes = do
  owner ← lift (require_text "user_id" (str user_id))
  lifetime ← gets (λ p. p.refresh_token_lifetime)
  let refresh : RefreshToken = record {
    token = draw.refresh_token;
    client_id = client_id;
    user_id = owner;
    scopes = scopes;
    created_at = draw.refresh_created;
    expires_at = draw.refresh_issued + lifetime * second;
    used = false;
  }
  modify (λ p. record p { refresh_tokens = insert draw.refresh_token refresh p.refresh_tokens })
  pure refresh

abbrev pub new_access_token : Draw → ℕ → String → Option String → List String → AccessToken
new_access_token draw lifetime client_id user_id scopes = record {
  token = draw.token;
  token_type = bearer;
  client_id = client_id;
  user_id = user_id;
  scopes = scopes;
  expires_at = draw.issued + lifetime * second;
  created_at = draw.created;
  refresh_token = none;
}

unfoldable pub store_access_token : AccessToken → Action AccessToken
store_access_token access = do
  modify (λ p. record p { access_tokens = insert access.token access p.access_tokens })
  pure access

unfoldable pub refresh_for : Draw → AccessToken → Option String → Action AccessToken
unfolding generate_refresh_token
refresh_for draw access none = raise user_required_for_refresh
refresh_for draw access (some user_id) = do
  refresh ← generate_refresh_token draw access.client_id user_id access.scopes
  pure (record access { refresh_token = some refresh.token })

-- The refresh token that goes with an access token, if one is wanted.
unfoldable pub attach_refresh_token : Draw → Bool → AccessToken → Action AccessToken
unfolding refresh_for
attach_refresh_token draw false access = pure access
attach_refresh_token draw true access = refresh_for draw access access.user_id

-- `_issue_access_token`
unfoldable pub issue_access_token :
    Draw → String → Option String → List String → Bool → Action AccessToken
unfolding attach_refresh_token store_access_token
issue_access_token draw client_id user_id scopes with_refresh = do
  lifetime ← gets (λ p. p.token_lifetime)
  access ←
      attach_refresh_token draw with_refresh
        (new_access_token draw lifetime client_id user_id scopes)
  store_access_token access

abbrev pub needs_user : GrantType → Bool
needs_user g = contains g (authorization_code ∷ pkce ∷ refresh_grant ∷ [])

abbrev pub gives_refresh : GrantType → Bool
gives_refresh g = contains g (authorization_code ∷ pkce ∷ [])

unfoldable pub checked_user : GrantType → Option String → Action (Option String)
checked_user g user_id =
    if needs_user g
    then elim user_id [
      | none ↦ raise user_required
      | some id ↦ do owner ← lift (require_text "user_id" (str id)); pure (some owner)
    ]
    else pure user_id

unfoldable pub generate_access_token :
    Draw → Value → Option String → Collection → GrantType → Action AccessToken
unfolding checked_user
generate_access_token draw client_id user_id scopes grant_type = do
  id ← lift (require_text "client_id" client_id)
  wanted ← lift (normalize_scopes scopes)
  client ← or_raise (← gets (λ p. lookup id p.clients)) invalid_client
  raise_if (not (can_use_grant_type grant_type client)) grant_not_allowed
  lift (validate_client_scopes client wanted)
  owner ← checked_user grant_type user_id
  issue_access_token draw id owner wanted (gives_refresh grant_type)

unfoldable pub validate_access_token : ℕ → Value → Collection → Action AccessToken
validate_access_token now token required_scopes = do
  key ← lift (require_text "token" token)
  required ← lift (normalize_scopes required_scopes)
  access ← or_raise (← gets (λ p. lookup key p.access_tokens)) invalid_access_token
  raise_if (not (access_is_valid now access)) access_token_expired
  raise_if (not (is_subset required access.scopes)) insufficient_scopes
  pure access

abbrev pub mark_used : RefreshToken → RefreshToken
mark_used t = record t { used = true }

abbrev pub set_refresh_token : Option String → AccessToken → AccessToken
set_refresh_token r a = record a { refresh_token = r }

-- After the checks: the old token is spent if tokens rotate, and the new access token names its
-- refresh token.
unfoldable pub reissue : Draw → RefreshToken → String → Bool → Action AccessToken
reissue draw old key true = do
  modify (λ p. record p { refresh_tokens = adjust key mark_used p.refresh_tokens })
  issue_access_token draw old.client_id (some old.user_id) old.scopes true
reissue draw old key false = do
  access ← issue_access_token draw old.client_id (some old.user_id) old.scopes false
  modify (λ p. record p {
    access_tokens = adjust access.token (set_refresh_token (some old.token)) p.access_tokens;
  })
  pure (set_refresh_token (some old.token) access)

unfoldable pub refresh_access_token : Draw → ℕ → String → Value → Action AccessToken
unfolding reissue
refresh_access_token draw now refresh_token client_id = do
  id ← lift (require_text "client_id" client_id)
  old ← or_raise (← gets (λ p. lookup refresh_token p.refresh_tokens)) invalid_refresh_token
  raise_if (not (refresh_is_valid now old)) refresh_token_expired_or_used
  raise_if (not (old.client_id == id)) client_mismatch
  client ← or_raise (← gets (λ p. lookup id p.clients)) invalid_client
  raise_if (not (supports_refresh_grant client)) grant_not_allowed
  get_active_user old.user_id
  rotates ← gets (λ p. p.enable_token_rotation)
  reissue draw old refresh_token rotates

unfoldable pub revoke_token : String → Action Bool
revoke_token token p =
    if has_key token p.access_tokens
    then (ok true, record p { access_tokens = erase token p.access_tokens })
    else if has_key token p.refresh_tokens
    then (ok true, record p { refresh_tokens = adjust token mark_used p.refresh_tokens })
    else (ok false, p)

-- The answer of `introspect_token`; an inactive unknown token has nothing else.
pub data Introspection : Type 0 where
  unknown : Introspection
  known :
      (active : Bool) (client_id : String) (user_id : Option String) (scope : String) (exp iat : ℕ)
      (token_type : String)
      → Introspection

unfoldable pub introspect_token : ℕ → String → Provider → Introspection
introspect_token now token p = elim (lookup token p.access_tokens) [
  | some a ↦
      known (access_is_valid now a) a.client_id a.user_id (join (sort a.scopes))
        (whole_seconds a.expires_at) (whole_seconds a.created_at) (token_type_value a.token_type)
  | none ↦ elim (lookup token p.refresh_tokens) [
    | some r ↦
        known (refresh_is_valid now r) r.client_id (some r.user_id) (join (sort r.scopes))
          (whole_seconds r.expires_at) (whole_seconds r.created_at) "refresh_token"
    | none ↦ unknown
  ]
]

pub record CleanupCounts : Type 0 where
  pub authorization_codes : ℕ
  pub access_tokens : ℕ
  pub refresh_tokens : ℕ

-- The keys of the entries that fail a test; `clock k` is the time at which entry `k` is looked at.
abbrev pub stale : {V : Type 0} → (String → ℕ) → (ℕ → V → Bool) → Dict V → List String
stale clock is_stale d = keys (select (λ e. is_stale (clock e.0) e.1) d)

unfoldable pub cleanup_expired_tokens : (String → ℕ) → Action CleanupCounts
unfolding erase_all
cleanup_expired_tokens clock p =
    let codes = stale clock (λ t c. not (code_is_valid t c)) p.auth_codes in
    let accesses = stale clock access_is_expired p.access_tokens in
    let refreshes = stale clock (λ t r. not (refresh_is_valid t r)) p.refresh_tokens in
    (
      ok (record {
        authorization_codes = length codes;
        access_tokens = length accesses;
        refresh_tokens = length refreshes;
      }),
      record p {
        auth_codes = erase_all codes p.auth_codes;
        access_tokens = erase_all accesses p.access_tokens;
        refresh_tokens = erase_all refreshes p.refresh_tokens;
      },
    )
