-- ===== src/OAuth/Frames.antt =====
-- The writes of the token methods of auth/oauth2_provider.py: what every such write keeps, the
-- methods keep.
use bt_api_security.Prelude.{
  String, ℕ, inl, inr, Bool, true, false, Option, none, some, List, Bool-cases, nat_Eq, string_Eq,
}
use bt_api_security.Prelude.Keeps.{Keeps, keeps_rules}
use bt_api_security.OAuth.Types.{GrantType, Value, Collection, AccessToken, RefreshToken}
use bt_api_security.Dict.{Dict, insert, adjust, erase, has_key}
use bt_api_security.OAuth.Provider.{Provider}
use bt_api_security.OAuth.Tokens.{
  Draw, issue_access_token, generate_access_token, refresh_access_token, reissue, get_active_user,
  mark_used, attach_refresh_token, refresh_for, generate_refresh_token, revoke_token,
  store_access_token, checked_user,
}

module _ (P : Provider → Type 0) (draw : Draw)
    (on_access : (d : Dict AccessToken) (p : Provider) → P p → P (record p { access_tokens = d }))
    (on_refresh : (r : RefreshToken) (p : Provider)
      → P p
      → P (record p { refresh_tokens = insert draw.refresh_token r p.refresh_tokens }))
    (on_mark : (k : String) (p : Provider)
      → P p
      → P (record p { refresh_tokens = adjust k mark_used p.refresh_tokens })) where
  get_active_user-Keeps : (user_id : String) → Keeps P (get_active_user user_id)
  unfolding get_active_user
  get_active_user-Keeps user_id = search keeps_rules depth 12

  generate_refresh_token-Keeps :
      (client_id user_id : String) (scopes : List String)
      → Keeps P (generate_refresh_token draw client_id user_id scopes)
  unfolding generate_refresh_token
  generate_refresh_token-Keeps client_id user_id scopes = search (keeps_rules, on_refresh) depth 12

  refresh_for-Keeps :
      (a : AccessToken) (user_id : Option String) → Keeps P (refresh_for draw a user_id)
  unfolding refresh_for
  refresh_for-Keeps a none = search keeps_rules
  refresh_for-Keeps a (some user_id) = search (keeps_rules, generate_refresh_token-Keeps) depth 12

  attach_refresh_token-Keeps :
      (wanted : Bool) (a : AccessToken) → Keeps P (attach_refresh_token draw wanted a)
  unfolding attach_refresh_token
  attach_refresh_token-Keeps false a = search keeps_rules
  attach_refresh_token-Keeps true a = refresh_for-Keeps a a.user_id

  store_access_token-Keeps : (a : AccessToken) → Keeps P (store_access_token a)
  unfolding store_access_token
  store_access_token-Keeps a = search (keeps_rules, on_access) depth 12

  pub issue_access_token-Keeps :
      (client_id : String) (user_id : Option String) (scopes : List String) (wanted : Bool)
      → Keeps P (issue_access_token draw client_id user_id scopes wanted)
  unfolding issue_access_token
  issue_access_token-Keeps client_id user_id scopes wanted =
      search (keeps_rules, attach_refresh_token-Keeps, store_access_token-Keeps) depth 12

  checked_user-Keeps : (g : GrantType) (user_id : Option String) → Keeps P (checked_user g user_id)
  unfolding checked_user
  checked_user-Keeps g none = search keeps_rules depth 12
  checked_user-Keeps g (some id) = search keeps_rules depth 12

  pub generate_access_token-Keeps :
      (client_id : Value) (user_id : Option String) (scopes : Collection) (g : GrantType)
      → Keeps P (generate_access_token draw client_id user_id scopes g)
  unfolding generate_access_token
  generate_access_token-Keeps client_id user_id scopes g =
      search (keeps_rules, checked_user-Keeps, issue_access_token-Keeps) depth 12

  reissue-Keeps :
      (old : RefreshToken) (key : String) (rotates : Bool) → Keeps P (reissue draw old key rotates)
  unfolding reissue
  reissue-Keeps old key true = search (keeps_rules, on_mark, issue_access_token-Keeps) depth 12
  reissue-Keeps old key false = search (keeps_rules, on_access, issue_access_token-Keeps) depth 12

  pub refresh_access_token-Keeps :
      (now : ℕ) (token : String) (client_id : Value)
      → Keeps P (refresh_access_token draw now token client_id)
  unfolding refresh_access_token
  refresh_access_token-Keeps now token client_id =
      search (keeps_rules, get_active_user-Keeps, reissue-Keeps) depth 20

module _ (P : Provider → Type 0)
    (on_access : (d : Dict AccessToken) (p : Provider) → P p → P (record p { access_tokens = d }))
    (on_mark : (k : String) (p : Provider)
      → P p
      → P (record p { refresh_tokens = adjust k mark_used p.refresh_tokens })) where
  pub revoke_token-Keeps : (token : String) → Keeps P (revoke_token token)
  unfolding revoke_token
  revoke_token-Keeps token = record {
    at = λ p h. elim (Bool-cases (has_key token p.access_tokens)) [
      | inl access ↦ rw access (on_access (erase token p.access_tokens) p h)
      | inr not_access ↦ elim (Bool-cases (has_key token p.refresh_tokens)) [
        | inl refresh ↦ rw (not_access, refresh) (on_mark token p h)
        | inr missing ↦ rw (not_access, missing) h
      ]
    ];
  }
