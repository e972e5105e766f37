-- ===== src/OAuth/Inputs.antt =====
-- The checks that auth/oauth2_provider.py makes of its arguments.
use bt_api_security.Prelude.{
  String, ℕ, ◌+◌, ◌-◌, ◌*◌, Bool, true, false, ◌&&◌, ◌||◌, Option, none, some, List, [], ◌∷◌, leb,
  nat_eq, if◌then◌else◌, ◌==◌, nat_Eq, string_Eq, any, contains, add, is_subset, Result, ok, err,
}
use bt_api_security.Prelude.Text.{strip}
use bt_api_security.OAuth.Types.{
  GrantType, authorization_code, client_credentials, refresh_grant, pkce, grant_Eq, Value, str,
  boolean, integer, grant, Collection, absent, one_text, items, not_iterable, OAuthError, not_text,
  not_positive, not_boolean, not_strings, redirect_uris_empty, grant_types_not_iterable,
  grant_types_empty, unsupported_grant_type, invalid_scopes, OAuthClient,
}
use mathlib.Core.Option
use Prim.Native.Char.{code}

abbrev pub Checked : Type 0 → Type 0
Checked A = Result OAuthError A

infixl 5 ◌>=>◌
abbrev pub ◌>=>◌ : {A B : Type 0} → Checked A → (A → Checked B) → Checked B
ok a >=> f = f a
err e >=> f = err e

unfoldable pub require_text : String → Value → Checked String
require_text field (str s) =
    let text = strip s in if text == "" then err (not_text field) else ok text
require_text field _ = err (not_text field)

is_digit : ℕ → Bool
is_digit c = leb 48 c && leb c 57

-- The digits of `int(text)`, with single underscores between them; `after` tells whether a digit
-- stands just before.
digits_value : ℕ → Bool → String → Option ℕ
digits_value acc after String.[] = if after then some acc else none
digits_value acc after (String.◌∷◌ c s) =
    let digit = is_digit (code c) in
    let rest = digits_value (if digit then acc * 10 + (code c - 48) else acc) digit s in
    if digit || (nat_eq (code c) 95 && after) then rest else none

-- `int(text)` for a stripped text: a sign, then ASCII digits.
signed_value : String → Option (Bool × ℕ)
signed_value String.[] = none
signed_value (String.◌∷◌ c s) =
    if nat_eq (code c) 45
    then Option.map (λ n. (true, n)) (digits_value 0 false s)
    else Option.map (λ n. (false, n))
        (digits_value 0 false (if nat_eq (code c) 43 then s else String.◌∷◌ c s))

positive : String → Bool → ℕ → Checked ℕ
positive field negative n = if negative || nat_eq n 0 then err (not_positive field) else ok n

positive_of_text : String → String → Checked ℕ
positive_of_text field text = elim (signed_value text) [
  | none ↦ err (not_positive field)
  | some (negative, n) ↦ positive field negative n
]

unfoldable pub require_positive_int : String → Value → Checked ℕ
unfolding is_digit digits_value signed_value positive positive_of_text
require_positive_int field (integer negative n) = positive field negative n
require_positive_int field (str s) =
    let text = strip s in
    if text == "" then err (not_positive field) else positive_of_text field text
require_positive_int field _ = err (not_positive field)

unfoldable pub require_bool : String → Value → Checked Bool
require_bool field (boolean b) = ok b
require_bool field _ = err (not_boolean field)

-- The loop of `_normalize_scopes`.
unfoldable pub normalize_each : List Value → List String → Checked (List String)
normalize_each [] normalized = ok normalized
normalize_each (v ∷ vs) normalized =
    require_text "scope" v >=> λ scope. normalize_each vs (add scope normalized)

unfoldable pub normalize_scopes : Collection → Checked (List String)
unfolding normalize_each
normalize_scopes absent = ok []
normalize_scopes (items vs) = normalize_each vs []
normalize_scopes (one_text _) = err (not_strings "scopes")
normalize_scopes not_iterable = err (not_strings "scopes")

unfoldable pub require_texts : String → List Value → Checked (List String)
require_texts field [] = ok []
require_texts field (v ∷ vs) =
    require_text field v >=> λ text. require_texts field vs >=> λ texts. ok (text ∷ texts)

require_some : List String → Checked (List String)
require_some [] = err redirect_uris_empty
require_some (u ∷ us) = ok (u ∷ us)

unfoldable pub normalize_redirect_uris : Collection → Checked (List String)
unfolding require_texts require_some
normalize_redirect_uris (items vs) = require_texts "redirect_uri" vs >=> require_some
normalize_redirect_uris _ = err (not_strings "redirect_uris")

-- `GrantType(value)`
unfoldable pub grant_of_value : String → Option GrantType
grant_of_value s =
    if s == "authorization_code"
    then some authorization_code
    else if s == "client_credentials"
    then some client_credentials
    else if s == "refresh_token"
    then some refresh_grant
    else if s == "authorization_code_with_pkce"
    then some pkce
    else none

grant_of : Value → Checked GrantType
grant_of (grant g) = ok g
grant_of v = require_text "grant_type" v >=> λ text. elim (grant_of_value text) [
  | none ↦ err (unsupported_grant_type v)
  | some g ↦ ok g
]

unfoldable pub normalize_grants : List Value → List GrantType → Checked (List GrantType)
unfolding grant_of
normalize_grants [] normalized = ok normalized
normalize_grants (v ∷ vs) normalized = grant_of v >=> λ g. normalize_grants vs (add g normalized)

require_some_grant : List GrantType → Checked (List GrantType)
require_some_grant [] = err grant_types_empty
require_some_grant (g ∷ gs) = ok (g ∷ gs)

unfoldable pub normalize_grant_types : Collection → Checked (List GrantType)
unfolding normalize_grants require_some_grant
normalize_grant_types (items vs) = normalize_grants vs [] >=> require_some_grant
normalize_grant_types _ = err grant_types_not_iterable

-- `_validate_client_scopes`: no scopes at all are always valid.
unfoldable pub validate_client_scopes : OAuthClient → List String → Checked (Unit {0})
validate_client_scopes client scopes =
    if is_subset scopes client.scopes then ok tt else err invalid_scopes

-- `_supports_refresh_grant`
unfoldable pub supports_refresh_grant : OAuthClient → Bool
supports_refresh_grant client =
    any (λ g. contains g (refresh_grant ∷ authorization_code ∷ pkce ∷ [])) client.grant_types
