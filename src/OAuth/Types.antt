-- ===== src/OAuth/Types.antt =====
-- The enumerations, data classes and errors of auth/oauth2_provider.py.
use bt_api_security.Prelude.{
  String, ℕ, ◌-◌, Bool, not, ◌&&◌, Option, List, ltb, Eq, nat_Eq, string_Eq, holds, holds_iff,
  contains, whole_seconds,
}

pub data GrantType : Type 0 where
  authorization_code client_credentials refresh_grant pkce : GrantType

unfoldable pub GrantType-discrete : Discrete GrantType
GrantType-discrete = hlevel

instance abbrev pub grant_Eq : Eq GrantType
grant_Eq = record {
  test = λ a b. holds (GrantType-discrete a b);
  test_iff = λ a b. holds_iff (GrantType-discrete a b);
}

pub data TokenType : Type 0 where
  bearer jwt : TokenType

unfoldable pub token_type_value : TokenType → String
token_type_value bearer = "Bearer"
token_type_value jwt = "JWT"

-- What a caller may pass for a scalar argument.
pub data Value : Type 0 where
  none_value : Value
  str : String → Value
  boolean : Bool → Value
  -- An integer, as its sign (true for a negative one) and its size.
  integer : Bool → ℕ → Value
  grant : GrantType → Value
  -- A value of any other type.
  other : Value

-- What a caller may pass where a collection is wanted.
pub data Collection : Type 0 where
  absent : Collection
  one_text : String → Collection
  items : List Value → Collection
  not_iterable : Collection

pub record OAuthClient : Type 0 where
  pub client_id : String
  pub client_secret : String
  pub redirect_uris : List String
  pub scopes : List String
  pub grant_types : List GrantType
  pub is_confidential : Bool
  pub created_at : ℕ

pub record OAuthUser : Type 0 where
  pub user_id : String
  pub username : String
  pub email : String
  pub is_active : Bool
  pub mfa_enabled : Bool
  pub totp_secret : Option String
  pub created_at : ℕ

pub record AuthorizationCode : Type 0 where
  pub code : String
  pub client_id : String
  pub user_id : String
  pub redirect_uri : String
  pub scopes : List String
  pub code_challenge : Option String
  pub code_challenge_method : Option String
  pub created_at : ℕ
  pub expires_at : ℕ
  pub used : Bool

pub record AccessToken : Type 0 where
  pub token : String
  pub token_type : TokenType
  pub client_id : String
  pub user_id : Option String
  pub scopes : List String
  pub expires_at : ℕ
  pub created_at : ℕ
  pub refresh_token : Option String

pub record RefreshToken : Type 0 where
  pub token : String
  pub client_id : String
  pub user_id : String
  pub scopes : List String
  pub created_at : ℕ
  pub expires_at : ℕ
  pub used : Bool

-- The messages that `OAuthError` is raised with.
pub data OAuthError : Type 0 where
  not_text not_positive not_boolean not_strings : String → OAuthError
  redirect_uris_empty grant_types_not_iterable grant_types_empty : OAuthError
  unsupported_grant_type : Value → OAuthError
  invalid_scopes user_not_found user_inactive user_required_for_refresh : OAuthError
  invalid_client invalid_redirect_uri pkce_not_supported challenge_required : OAuthError
  unsupported_method : String → OAuthError
  invalid_code code_expired_or_used client_mismatch redirect_mismatch : OAuthError
  verifier_required invalid_verifier grant_not_allowed user_required : OAuthError
  invalid_access_token access_token_expired insufficient_scopes : OAuthError
  invalid_refresh_token refresh_token_expired_or_used : OAuthError

-- `OAuthClient.can_use_grant_type`, `OAuthClient.has_scope`
unfoldable pub can_use_grant_type : GrantType → OAuthClient → Bool
can_use_grant_type g c = contains g c.grant_types

pub has_scope : String → OAuthClient → Bool
has_scope s c = contains s c.scopes

-- `AuthorizationCode.is_expired`, `is_valid`
unfoldable pub code_is_expired : ℕ → AuthorizationCode → Bool
code_is_expired now c = ltb c.expires_at now

unfoldable pub code_is_valid : ℕ → AuthorizationCode → Bool
unfolding code_is_expired
code_is_valid now c = not c.used && not (code_is_expired now c)

-- `AccessToken.is_expired`, `is_valid`, `get_expires_in`
unfoldable pub access_is_expired : ℕ → AccessToken → Bool
access_is_expired now t = ltb t.expires_at now

unfoldable pub access_is_valid : ℕ → AccessToken → Bool
unfolding access_is_expired
access_is_valid now t = not (access_is_expired now t)

unfoldable pub get_expires_in : ℕ → AccessToken → ℕ
get_expires_in now t = whole_seconds (t.expires_at - now)

-- `RefreshToken.is_expired`, `is_valid`
unfoldable pub refresh_is_expired : ℕ → RefreshToken → Bool
refresh_is_expired now t = ltb t.expires_at now

unfoldable pub refresh_is_valid : ℕ → RefreshToken → Bool
unfolding refresh_is_expired
refresh_is_valid now t = not t.used && not (refresh_is_expired now t)
