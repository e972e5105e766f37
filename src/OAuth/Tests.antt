-- ===== src/OAuth/Tests.antt =====
-- Runs of auth/oauth2_provider.py on a small provider.
use bt_api_security.Prelude.{
  String, ℕ, ◌+◌, ◌*◌, ◌≡◌, refl, ◌≢◌, ◌↔◌, true, false, none, some, List, [], ◌∷◌, arith, eq_iff,
  nat_Eq, string_Eq, length, All, Result, ok, err, second,
}
use bt_api_security.Prelude.Text.{strip}
use bt_api_security.Dict.{lookup, insert, adjust, has_key, IsUnique}
use bt_api_security.OAuth.Types.{
  authorization_code, refresh_grant, grant_Eq, Value, str, absent, OAuthClient, OAuthUser,
  AuthorizationCode, AccessToken, RefreshToken, OAuthError, bearer, not_text, refresh_is_valid,
  code_is_valid, access_is_valid, GrantType-discrete,
}
use bt_api_security.OAuth.Inputs.{require_text, supports_refresh_grant}
use bt_api_security.OAuth.Provider.{
  Provider, check_pkce, optional_text, mark_code_used, validate_authorization_code,
}
use bt_api_security.OAuth.Tokens.{
  Draw, get_active_user, issue_access_token, refresh_access_token, revoke_token,
  cleanup_expired_tokens,
}
use bt_api_security.OAuth.Codes.{IsRedeemable, spend_code, redeem_iff}
use bt_api_security.OAuth.Calls.{
  Call, authorize, redeem, revoke, cleanup, perform, perform_all, perform_error_unchanged,
}
use bt_api_security.OAuth.Traces.{NotDrawn}
use bt_api_security.OAuth.SingleUse.{Refuses, redeem_once, rotated_once, revoked_refused}
use bt_api_security.OAuth.Rotation.{IsRefreshable, IsRenewal, RefreshFate, refresh_sound}
use bt_api_security.OAuth.Cleanup.{cleanup_filters, valid_entries, invalid_entries}

abbrev s256 : String → String
s256 s = s

abbrev app : OAuthClient
app = record {
  client_id = "app";
  client_secret = "secret";
  redirect_uris = "https://app/cb" ∷ [];
  scopes = "read" ∷ [];
  grant_types = authorization_code ∷ refresh_grant ∷ [];
  is_confidential = true;
  created_at = 0;
}

abbrev ann : OAuthUser
ann = record {
  user_id = "ann";
  username = "Ann";
  email = "ann@example.com";
  is_active = true;
  mfa_enabled = false;
  totp_secret = none;
  created_at = 0;
}

abbrev code : AuthorizationCode
code = record {
  code = "c1";
  client_id = "app";
  user_id = "ann";
  redirect_uri = "https://app/cb";
  scopes = "read" ∷ [];
  code_challenge = some "v";
  code_challenge_method = some "S256";
  created_at = 0;
  expires_at = 600;
  used = false;
}

abbrev old_refresh : RefreshToken
old_refresh = record {
  token = "r1";
  client_id = "app";
  user_id = "ann";
  scopes = "read" ∷ [];
  created_at = 0;
  expires_at = 900;
  used = false;
}

abbrev provider : Provider
provider = record {
  issuer_url = "https://issuer";
  token_lifetime = 60;
  refresh_token_lifetime = 600;
  enable_pkce = true;
  enable_token_rotation = true;
  clients = ("app", app) ∷ [];
  users = ("ann", ann) ∷ [];
  auth_codes = ("c1", code) ∷ [];
  access_tokens = [];
  refresh_tokens = ("r1", old_refresh) ∷ [];
}

abbrev draw : Draw
draw = record {
  token = "t2";
  refresh_token = "r2";
  issued = 100;
  created = 100;
  refresh_issued = 100;
  refresh_created = 100;
}

abbrev uri : String
uri = "https://app/cb"

text_c1 : require_text "code" (str " c1 ") ≡ ok "c1"
unfolding require_text strip
text_c1 = refl

text_app : require_text "client_id" (str "app") ≡ ok "app"
unfolding require_text strip
text_app = refl

text_uri : require_text "redirect_uri" (str uri) ≡ ok uri
unfolding require_text strip
text_uri = refl

text_verifier : optional_text "code_verifier" (str "v") ≡ ok (some "v")
unfolding optional_text require_text strip
text_verifier = refl

abbrev attempt : ℕ → Value → Provider → Result OAuthError AuthorizationCode × Provider
attempt now c p = validate_authorization_code s256 now c (str "app") (str uri) (str "v") p

redeem_iff_example :
    (attempt 500 (str " c1 ") provider ≡ (ok (mark_code_used code), spend_code "c1" provider)) ↔ (
      (c : AuthorizationCode) × IsRedeemable s256 500 provider "c1" "app" uri (some "v") c
      × (mark_code_used code ≡ mark_code_used c)
      × (spend_code "c1" provider ≡ spend_code "c1" provider))
redeem_iff_example =
    redeem_iff s256 500 provider (str " c1 ") (str "app") (str uri) (str "v") "c1" "app" uri
      (some "v") text_c1 text_app text_uri text_verifier (mark_code_used code)
      (spend_code "c1" provider)

redeemed : attempt 500 (str " c1 ") provider ≡ (ok (mark_code_used code), spend_code "c1" provider)
unfolding validate_authorization_code require_text strip lookup code_is_valid adjust check_pkce
redeemed = refl

abbrev between : List Call
between =
    redeem 510 (str "c1") (str "app") (str uri) (str "v")
    ∷ authorize (str "app") (str "ann") (str uri) absent none none "c2" 520 521
    ∷ cleanup (λ _. 530)
    ∷ []

between_fresh : All (NotDrawn "c1") between
unfolding NotDrawn
between_fresh = (tt, (λ e. ground (arith, eq_iff "c2" "c1"), (tt, tt)))

text_c1_again : require_text "code" (str "c1") ≡ ok "c1"
unfolding require_text strip
text_c1_again = refl

redeem_once_example :
    Refuses (attempt 540 (str "c1")) (perform_all s256 between (spend_code "c1" provider))
redeem_once_example =
    redeem_once s256 "c1" provider 500 (str " c1 ") (str "app") (str uri) (str "v") text_c1
      (mark_code_used code) (spend_code "c1" provider) redeemed between between_fresh 540 (str "c1")
      (str "app") (str uri) (str "v") text_c1_again

abbrev new_access : AccessToken
new_access = record {
  token = "t2";
  token_type = bearer;
  client_id = "app";
  user_id = some "ann";
  scopes = "read" ∷ [];
  expires_at = 100 + 60 * second;
  created_at = 100;
  refresh_token = some "r2";
}

abbrev refreshed : Provider
refreshed = record provider {
  access_tokens = ("t2", new_access) ∷ [];
  refresh_tokens =
      ("r1", record old_refresh { used = true })
      ∷ (
        "r2",
        record old_refresh { token = "r2"; created_at = 100; expires_at = 100 + 600 * second },
      )
      ∷ [];
}

refreshes : refresh_access_token draw 100 "r1" (str "app") provider ≡ (ok new_access, refreshed)
unfolding refresh_access_token require_text strip lookup refresh_is_valid supports_refresh_grant
    GrantType-discrete insert adjust get_active_user issue_access_token
refreshes = refl

refresh_sound_example :
    (id : String) × (old : RefreshToken) × (require_text "client_id" (str "app") ≡ ok id)
    × IsRefreshable 100 provider "r1" id old
    × IsRenewal draw old provider.token_lifetime new_access refreshed
    × RefreshFate draw old provider new_access refreshed
refresh_sound_example =
    refresh_sound draw 100 "r1" (str "app") provider new_access refreshed refreshes

r2-ne-r1 : draw.refresh_token ≢ "r1"
r2-ne-r1 = λ e. ground (arith, eq_iff "r2" "r1")

not_drawn : All (NotDrawn "r1") (revoke "t2" ∷ [])
unfolding NotDrawn
not_drawn = (tt, tt)

rotated_once_example :
    Refuses
      (refresh_access_token draw 200 "r1" (str "app"))
      (perform_all s256 (revoke "t2" ∷ []) refreshed)
rotated_once_example =
    rotated_once s256 draw 100 "r1" (str "app") provider new_access refreshed refl r2-ne-r1
      refreshes (revoke "t2" ∷ []) not_drawn draw 200 (str "app")

no_access : has_key "r1" provider.access_tokens ≡ false
unfolding has_key lookup
no_access = refl

is_refresh : has_key "r1" provider.refresh_tokens ≡ true
unfolding has_key lookup
is_refresh = refl

revoked_refused_example :
    ((revoke_token "r1" provider).0 ≡ ok true)
    × Refuses
        (refresh_access_token draw 200 "r1" (str "app"))
        (perform_all s256 [] (revoke_token "r1" provider).1)
revoked_refused_example =
    revoked_refused s256 "r1" provider no_access is_refresh [] tt draw 200 (str "app")

abbrev bad_redeem : Call
bad_redeem = redeem 500 (str "  ") (str "app") (str uri) (str "v")

bad_redeem_raises : (perform s256 bad_redeem provider).0 ≡ err (not_text "code")
unfolding perform validate_authorization_code require_text strip
bad_redeem_raises = refl

perform_error_unchanged_example : (perform s256 bad_redeem provider).1 ≡ provider
perform_error_unchanged_example =
    perform_error_unchanged s256 bad_redeem provider (not_text "code") bad_redeem_raises

IsUnique-codes : IsUnique provider.auth_codes
unfolding has_key lookup
IsUnique-codes = (refl, tt)

IsUnique-refreshes : IsUnique provider.refresh_tokens
unfolding has_key lookup
IsUnique-refreshes = (refl, tt)

cleanup_filters_example : cleanup_expired_tokens (λ _. 700) provider ≡ (
  ok (record {
    authorization_codes = length (invalid_entries (λ _. 700) code_is_valid provider.auth_codes);
    access_tokens = length (invalid_entries (λ _. 700) access_is_valid provider.access_tokens);
    refresh_tokens = length (invalid_entries (λ _. 700) refresh_is_valid provider.refresh_tokens);
  }),
  record provider {
    auth_codes = valid_entries (λ _. 700) code_is_valid provider.auth_codes;
    access_tokens = valid_entries (λ _. 700) access_is_valid provider.access_tokens;
    refresh_tokens = valid_entries (λ _. 700) refresh_is_valid provider.refresh_tokens;
  },
)
cleanup_filters_example = cleanup_filters (λ _. 700) provider IsUnique-codes tt IsUnique-refreshes
