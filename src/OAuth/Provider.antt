-- ===== src/OAuth/Provider.antt =====
-- `OAuth2Provider` of auth/oauth2_provider.py: its state, registration, and authorization codes.
-- Each reading of the clock and each random token is an argument.
use bt_api_security.Prelude.{
  String, ℕ, ◌+◌, ◌*◌, Bool, true, false, not, ◌&&◌, ◌||◌, Option, none, some, [], if◌then◌else◌,
  ◌==◌, nat_Eq, string_Eq, contains, ok, err, Exec, ◌>>=◌, ◌>>◌, pure, lift, gets, modify, raise_if,
  or_raise, second,
}
use bt_api_security.Dict.{Dict, lookup, insert, adjust}
use bt_api_security.OAuth.Types.{
  Value, none_value, Collection, OAuthClient, OAuthUser, AuthorizationCode, AccessToken,
  RefreshToken, OAuthError, user_not_found, user_inactive, invalid_client, invalid_redirect_uri,
  pkce_not_supported, challenge_required, unsupported_method, invalid_code, code_expired_or_used,
  client_mismatch, redirect_mismatch, verifier_required, invalid_verifier, code_is_valid,
}
use bt_api_security.OAuth.Inputs.{
  Checked, ◌>=>◌, require_text, require_positive_int, require_bool, normalize_scopes,
  normalize_redirect_uris, normalize_grant_types, validate_client_scopes,
}

pub record Provider : Type 0 where
  pub issuer_url : String
  pub token_lifetime : ℕ
  pub refresh_token_lifetime : ℕ
  pub enable_pkce : Bool
  pub enable_token_rotation : Bool
  pub clients : Dict OAuthClient
  pub users : Dict OAuthUser
  pub auth_codes : Dict AuthorizationCode
  pub access_tokens : Dict AccessToken
  pub refresh_tokens : Dict RefreshToken

abbrev pub Action : Type 0 → Type 0
Action A = Exec OAuthError Provider A

-- `__init__`, less the RSA key.
unfoldable pub init : Value → Value → Value → Value → Value → Checked Provider
init issuer_url token_lifetime refresh_token_lifetime enable_pkce enable_token_rotation =
    require_text "issuer_url" issuer_url >=> λ issuer.
    require_positive_int "token_lifetime" token_lifetime >=> λ lifetime.
    require_positive_int "refresh_token_lifetime" refresh_token_lifetime >=> λ refresh_lifetime.
    require_bool "enable_pkce" enable_pkce >=> λ with_pkce.
    require_bool "enable_token_rotation" enable_token_rotation >=> λ rotation. ok (record {
      issuer_url = issuer;
      token_lifetime = lifetime;
      refresh_token_lifetime = refresh_lifetime;
      enable_pkce = with_pkce;
      enable_token_rotation = rotation;
      clients = [];
      users = [];
      auth_codes = [];
      access_tokens = [];
      refresh_tokens = [];
    })

unfoldable pub register_client :
    Value → Value → Collection → Collection → Collection → Value → ℕ → Action OAuthClient
register_client client_id client_secret redirect_uris scopes grant_types is_confidential now = do
  id ← lift (require_text "client_id" client_id)
  secret ← lift (require_text "client_secret" client_secret)
  uris ← lift (normalize_redirect_uris redirect_uris)
  allowed ← lift (normalize_scopes scopes)
  grants ← lift (normalize_grant_types grant_types)
  confidential ← lift (require_bool "is_confidential" is_confidential)
  let client : OAuthClient = record {
    client_id = id;
    client_secret = secret;
    redirect_uris = uris;
    scopes = allowed;
    grant_types = grants;
    is_confidential = confidential;
    created_at = now;
  }
  modify (λ p. record p { clients = insert id client p.clients })
  pure client

unfoldable pub register_user : Value → Value → Value → Value → ℕ → Action OAuthUser
register_user user_id username email mfa_enabled now = do
  id ← lift (require_text "user_id" user_id)
  name ← lift (require_text "username" username)
  address ← lift (require_text "email" email)
  mfa ← lift (require_bool "mfa_enabled" mfa_enabled)
  let user : OAuthUser = record {
    user_id = id;
    username = name;
    email = address;
    is_active = true;
    mfa_enabled = mfa;
    totp_secret = none;
    created_at = now;
  }
  modify (λ p. record p { users = insert id user p.users })
  pure user

-- `get_client_info`, `get_user_info`
unfoldable pub get_client_info : String → Provider → Option OAuthClient
get_client_info client_id p = lookup client_id p.clients

unfoldable pub get_user_info : String → Provider → Option OAuthUser
get_user_info user_id p = lookup user_id p.users

-- The truth value of a text that may be `None`.
abbrev pub truthy : Option String → Bool
truthy none = false
truthy (some s) = not (s == "")

-- `code_challenge_method not in (None, "plain", "S256")`
check_method : Option String → Checked (Unit {0})
check_method none = ok tt
check_method (some m) = if m == "plain" || m == "S256" then ok tt else err (unsupported_method m)

check_challenge : Bool → Option String → Option String → Checked (Unit {0})
check_challenge enabled challenge method =
    if truthy challenge && not enabled
    then err pkce_not_supported
    else if truthy method && not (truthy challenge)
    then err challenge_required
    else check_method method

-- `created` and `expiring` are the clock's readings for the two time stamps.
unfoldable pub generate_authorization_code :
    Value
    → Value
    → Value
    → Collection
    → Option String
    → Option String
    → String
    → ℕ
    → ℕ
    → Action String
unfolding check_challenge check_method
generate_authorization_code client_id user_id redirect_uri scopes challenge method code created
      expiring =
    do
      id ← lift (require_text "client_id" client_id)
      owner ← lift (require_text "user_id" user_id)
      uri ← lift (require_text "redirect_uri" redirect_uri)
      wanted ← lift (normalize_scopes scopes)
      client ← or_raise (← gets (λ p. lookup id p.clients)) invalid_client
      user ← or_raise (← gets (λ p. lookup owner p.users)) user_not_found
      raise_if (not user.is_active) user_inactive
      raise_if (not (contains uri client.redirect_uris)) invalid_redirect_uri
      lift (validate_client_scopes client wanted)
      lift (check_challenge (← gets (λ p. p.enable_pkce)) challenge method)
      modify (λ p. record p {
        auth_codes =
            insert code
              (record {
                code = code;
                client_id = id;
                user_id = owner;
                redirect_uri = uri;
                scopes = wanted;
                code_challenge = challenge;
                code_challenge_method = method;
                created_at = created;
                expires_at = expiring + 600 * second;
                used = false;
              })
              p.auth_codes;
      })
      pure code

unfoldable pub optional_text : String → Value → Checked (Option String)
optional_text field none_value = ok none
optional_text field v = require_text field v >=> λ s. ok (some s)

abbrev pub mark_code_used : AuthorizationCode → AuthorizationCode
mark_code_used c = record c { used = true }

-- `code_challenge_method or "plain"`
unfoldable pub method_or_plain : Option String → String
method_or_plain none = "plain"
method_or_plain (some m) = if m == "" then "plain" else m

-- `s256` is the unpadded base64url text of the SHA-256 digest.
module _ (s256 : String → String) where
  unfoldable pub compare_verifier : String → String → String → Checked Bool
  compare_verifier method verifier challenge =
      if method == "plain"
      then ok (verifier == challenge)
      else if method == "S256"
      then ok (s256 verifier == challenge)
      else err (unsupported_method method)

  -- `_validate_pkce`
  unfoldable pub validate_pkce : String → String → Option String → Checked Bool
  unfolding method_or_plain compare_verifier
  validate_pkce verifier challenge method =
      compare_verifier (method_or_plain method) verifier challenge

  -- The PKCE part of `validate_authorization_code`: challenge, method and verifier.
  unfoldable pub check_pkce : Option String → Option String → Option String → Checked (Unit {0})
  unfolding validate_pkce
  check_pkce none method verifier = ok tt
  check_pkce (some challenge) method none = if challenge == "" then ok tt else err verifier_required
  check_pkce (some challenge) method (some v) =
      if challenge == ""
      then ok tt
      else validate_pkce v challenge method >=> λ fits. if fits then ok tt else err invalid_verifier

  unfoldable pub check_verifier : AuthorizationCode → Option String → Checked (Unit {0})
  check_verifier auth_code verifier =
      check_pkce auth_code.code_challenge auth_code.code_challenge_method verifier

  unfoldable pub validate_authorization_code :
      ℕ → Value → Value → Value → Value → Action AuthorizationCode
  unfolding check_verifier optional_text
  validate_authorization_code now code client_id redirect_uri code_verifier = do
    key ← lift (require_text "code" code)
    id ← lift (require_text "client_id" client_id)
    uri ← lift (require_text "redirect_uri" redirect_uri)
    verifier ← lift (optional_text "code_verifier" code_verifier)
    auth_code ← or_raise (← gets (λ p. lookup key p.auth_codes)) invalid_code
    raise_if (not (code_is_valid now auth_code)) code_expired_or_used
    raise_if (not (auth_code.client_id == id)) client_mismatch
    raise_if (not (auth_code.redirect_uri == uri)) redirect_mismatch
    lift (check_verifier auth_code verifier)
    modify (λ p. record p { auth_codes = adjust key mark_code_used p.auth_codes })
    pure (mark_code_used auth_code)
