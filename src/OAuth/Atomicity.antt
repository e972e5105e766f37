-- ===== src/OAuth/Atomicity.antt =====
-- Which methods of auth/oauth2_provider.py change nothing when they raise.
use bt_api_security.Prelude.{
  String, ℕ, ◌≡◌, refl, inl, inr, Bool, true, false, Option, none, some, List, arith, nat_Eq,
  string_Eq, ok, ◌>>=◌, ◌>>◌, gets, Result-cases,
}
use bt_api_security.Prelude.Atomic.{
  IsReadOnly, IsTotal, IsAtomic, IsAtomic-read_only, IsAtomic-total, IsAtomic-bind_read,
  IsAtomic-bind_known, IsAtomic-bind_total, IsTotal-bind, IsTotal-modify, IsTotal-gets,
  IsReadOnly-gets, read_rules, total_rules,
}
use bt_api_security.OAuth.Types.{
  GrantType, Value, str, Collection, OAuthUser, AccessToken, RefreshToken,
}
use bt_api_security.OAuth.Inputs.{require_text}
use bt_api_security.OAuth.Provider.{
  Provider, generate_authorization_code, register_client, register_user,
  validate_authorization_code,
}
use bt_api_security.OAuth.Tokens.{
  Draw, issue_access_token, generate_access_token, refresh_access_token, reissue, get_active_user,
  attach_refresh_token, refresh_for, generate_refresh_token, store_access_token, checked_user,
  new_access_token,
}

ruleset atomic_rules = (read_rules, total_rules, IsAtomic-bind_read, IsAtomic-total)

pub register_client-IsAtomic :
    (client_id client_secret : Value) (redirect_uris scopes grant_types : Collection)
    (confidential : Value) (now : ℕ)
    → IsAtomic
        (register_client client_id client_secret redirect_uris scopes grant_types confidential now)
unfolding register_client
register_client-IsAtomic client_id client_secret redirect_uris scopes grant_types confidential now =
    search atomic_rules depth 20

pub register_user-IsAtomic :
    (user_id username email mfa : Value) (now : ℕ)
    → IsAtomic (register_user user_id username email mfa now)
unfolding register_user
register_user-IsAtomic user_id username email mfa now = search atomic_rules depth 20

pub generate_authorization_code-IsAtomic :
    (client_id user_id uri : Value) (scopes : Collection) (challenge method : Option String)
    (code : String) (t t' : ℕ)
    → IsAtomic (generate_authorization_code client_id user_id uri scopes challenge method code t t')
unfolding generate_authorization_code
generate_authorization_code-IsAtomic client_id user_id uri scopes challenge method code t t' =
    search atomic_rules depth 30

pub validate_authorization_code-IsAtomic :
    (s256 : String → String) (now : ℕ) (code client_id uri verifier : Value)
    → IsAtomic (validate_authorization_code s256 now code client_id uri verifier)
unfolding validate_authorization_code
validate_authorization_code-IsAtomic s256 now code client_id uri verifier =
    search atomic_rules depth 30

module _ (draw : Draw) where
  generate_refresh_token-IsAtomic :
      (client_id user_id : String) (scopes : List String)
      → IsAtomic (generate_refresh_token draw client_id user_id scopes)
  unfolding generate_refresh_token
  generate_refresh_token-IsAtomic client_id user_id scopes = search atomic_rules depth 20

  refresh_for-IsAtomic :
      (a : AccessToken) (user_id : Option String) → IsAtomic (refresh_for draw a user_id)
  unfolding refresh_for
  refresh_for-IsAtomic a none = search (IsAtomic-read_only, read_rules)
  refresh_for-IsAtomic a (some user_id) =
      IsAtomic-bind_total _ _ (generate_refresh_token-IsAtomic a.client_id user_id a.scopes)
        (λ r. search total_rules)

  attach_refresh_token-IsAtomic :
      (wanted : Bool) (a : AccessToken) → IsAtomic (attach_refresh_token draw wanted a)
  unfolding attach_refresh_token
  attach_refresh_token-IsAtomic false a = search (IsAtomic-read_only, read_rules)
  attach_refresh_token-IsAtomic true a = refresh_for-IsAtomic a a.user_id

  store_access_token-IsTotal : (a : AccessToken) → IsTotal (store_access_token a)
  unfolding store_access_token
  store_access_token-IsTotal a = search total_rules depth 12

  issue_access_token-IsAtomic :
      (client_id : String) (user_id : Option String) (scopes : List String) (wanted : Bool)
      → IsAtomic (issue_access_token draw client_id user_id scopes wanted)
  unfolding issue_access_token
  issue_access_token-IsAtomic client_id user_id scopes wanted =
      search
        (
          atomic_rules, IsAtomic-bind_total, attach_refresh_token-IsAtomic,
          store_access_token-IsTotal,
        )
        depth 12

  checked_user-IsReadOnly :
      (g : GrantType) (user_id : Option String) → IsReadOnly (checked_user g user_id)
  unfolding checked_user
  checked_user-IsReadOnly g none = search read_rules
  checked_user-IsReadOnly g (some id) = search read_rules depth 12

  pub generate_access_token-IsAtomic :
      (client_id : Value) (user_id : Option String) (scopes : Collection) (g : GrantType)
      → IsAtomic (generate_access_token draw client_id user_id scopes g)
  unfolding generate_access_token
  generate_access_token-IsAtomic client_id user_id scopes g =
      search (atomic_rules, checked_user-IsReadOnly, issue_access_token-IsAtomic) depth 20

  generate_refresh_token-IsTotal :
      (client_id user_id : String) (scopes : List String) {owner : String}
      → require_text "user_id" (str user_id) ≡ ok owner
      → IsTotal (generate_refresh_token draw client_id user_id scopes)
  unfolding generate_refresh_token
  generate_refresh_token-IsTotal client_id user_id scopes e = record { value = λ p. rw e (_, refl) }

  attach_refresh_token-IsTotal :
      (wanted : Bool) (a : AccessToken) (user_id : String) {owner : String}
      → a.user_id ≡ some user_id
      → require_text "user_id" (str user_id) ≡ ok owner
      → IsTotal (attach_refresh_token draw wanted a)
  unfolding attach_refresh_token refresh_for
  attach_refresh_token-IsTotal false a user_id own e = search total_rules
  attach_refresh_token-IsTotal true a user_id own e =
      rw own (search (total_rules, generate_refresh_token-IsTotal a.client_id user_id a.scopes e))

  -- With a user id that is a text, a refresh token can be issued.
  issue_access_token-IsTotal :
      (client_id user_id : String) (scopes : List String) (wanted : Bool) {owner : String}
      → require_text "user_id" (str user_id) ≡ ok owner
      → IsTotal (issue_access_token draw client_id (some user_id) scopes wanted)
  unfolding issue_access_token
  issue_access_token-IsTotal client_id user_id scopes wanted e =
      IsTotal-bind _ _ (IsTotal-gets _) (λ lifetime.
        IsTotal-bind _ _
          (attach_refresh_token-IsTotal wanted
            (new_access_token draw lifetime client_id (some user_id) scopes) user_id refl e)
          store_access_token-IsTotal)

  reissue-IsAtomic :
      (old : RefreshToken) (key : String) (rotates : Bool) {owner : String}
      → require_text "user_id" (str old.user_id) ≡ ok owner
      → IsAtomic (reissue draw old key rotates)
  unfolding reissue
  reissue-IsAtomic old key true e = IsAtomic-total _ (
      IsTotal-bind _ _ (IsTotal-modify _)
        (λ _. issue_access_token-IsTotal old.client_id old.user_id old.scopes true e))
  reissue-IsAtomic old key false e = IsAtomic-total _ (
      IsTotal-bind _ _ (issue_access_token-IsTotal old.client_id old.user_id old.scopes false e)
        (λ _. search total_rules))

  get_active_user-IsReadOnly : (user_id : String) → IsReadOnly (get_active_user user_id)
  unfolding get_active_user
  get_active_user-IsReadOnly user_id = search read_rules depth 20

  get_active_user_text :
      (user_id : String) (p : Provider) (u : OAuthUser)
      → (get_active_user user_id p).0 ≡ ok u
      → (owner : String) × (require_text "user_id" (str user_id) ≡ ok owner)
  unfolding get_active_user
  get_active_user_text user_id p u h = elim (Result-cases (require_text "user_id" (str user_id))) [
    | inl found ↦ found
    | inr (e, k) ↦ absurd (ground (arith, rw k at h))
  ]

  active_then_reissue :
      (old : RefreshToken) (key : String)
      → IsAtomic (
          get_active_user old.user_id
          >> (gets (λ p. p.enable_token_rotation) >>= reissue draw old key))
  active_then_reissue old key =
      IsAtomic-bind_known (get_active_user old.user_id) _ (get_active_user-IsReadOnly old.user_id)
        (λ u p e.
          IsAtomic-bind_read _ _ (IsReadOnly-gets _) (λ rotates.
            reissue-IsAtomic old key rotates (get_active_user_text old.user_id p u e).1))

  pub refresh_access_token-IsAtomic :
      (now : ℕ) (token : String) (client_id : Value)
      → IsAtomic (refresh_access_token draw now token client_id)
  unfolding refresh_access_token
  refresh_access_token-IsAtomic now token client_id =
      search (read_rules, IsAtomic-bind_read, active_then_reissue) depth 20
