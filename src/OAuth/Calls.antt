-- ===== src/OAuth/Calls.antt =====
-- The calls that a client of auth/oauth2_provider.py can make, in sequence.
use bt_api_security.Prelude.{
  String, ℕ, ◌≡◌, Option, List, [], ◌∷◌, arith, nat_Eq, string_Eq, err, ◌>>◌, pure,
}
use bt_api_security.Prelude.Atomic.{
  IsAtomic, IsAtomic-bind_total, IsTotal-pure, IsAtomic-read_only, read_rules,
}
use bt_api_security.OAuth.Types.{GrantType, Value, Collection, OAuthError}
use bt_api_security.OAuth.Provider.{
  Provider, Action, generate_authorization_code, register_client, register_user,
  validate_authorization_code,
}
use bt_api_security.OAuth.Tokens.{
  Draw, generate_access_token, refresh_access_token, revoke_token, validate_access_token,
  cleanup_expired_tokens,
}
use bt_api_security.OAuth.Atomicity.{
  register_client-IsAtomic, register_user-IsAtomic, generate_authorization_code-IsAtomic,
  validate_authorization_code-IsAtomic, generate_access_token-IsAtomic,
  refresh_access_token-IsAtomic,
}

-- One call with its arguments, and with what the clock and `secrets` give it.
pub data Call : Type 0 where
  add_client : Value → Value → Collection → Collection → Collection → Value → ℕ → Call
  add_user : Value → Value → Value → Value → ℕ → Call
  authorize :
      Value → Value → Value → Collection → Option String → Option String → String → ℕ → ℕ → Call
  redeem : ℕ → Value → Value → Value → Value → Call
  issue : Draw → Value → Option String → Collection → GrantType → Call
  check : ℕ → Value → Collection → Call
  refresh : Draw → ℕ → String → Value → Call
  revoke : String → Call
  cleanup : (String → ℕ) → Call

-- A call, its result dropped.
abbrev pub ignore : {A : Type 0} → Action A → Action (Unit {0})
ignore m = m >> pure tt

module _ (s256 : String → String) where
  unfoldable pub perform : Call → Action (Unit {0})
  perform (add_client id secret uris scopes grants confidential now) =
      ignore (register_client id secret uris scopes grants confidential now)
  perform (add_user id name email mfa now) = ignore (register_user id name email mfa now)
  perform (authorize id owner uri scopes challenge method code t t') =
      ignore (generate_authorization_code id owner uri scopes challenge method code t t')
  perform (redeem now code id uri verifier) =
      ignore (validate_authorization_code s256 now code id uri verifier)
  perform (issue draw id owner scopes g) = ignore (generate_access_token draw id owner scopes g)
  perform (check now token scopes) = ignore (validate_access_token now token scopes)
  perform (refresh draw now token id) = ignore (refresh_access_token draw now token id)
  perform (revoke token) = ignore (revoke_token token)
  perform (cleanup clock) = ignore (cleanup_expired_tokens clock)

  -- The provider after some calls, each of which may have raised.
  unfoldable pub perform_all : List Call → Provider → Provider
  perform_all [] p = p
  perform_all (c ∷ cs) p = perform_all cs (perform c p).1

  ignore-IsAtomic : {A : Type 0} (m : Action A) → IsAtomic m → IsAtomic (ignore m)
  ignore-IsAtomic m a = IsAtomic-bind_total m _ a (λ _. IsTotal-pure tt)

  validate_access_token-IsAtomic :
      (now : ℕ) (token : Value) (scopes : Collection)
      → IsAtomic (validate_access_token now token scopes)
  unfolding validate_access_token
  validate_access_token-IsAtomic now token scopes = search (IsAtomic-read_only, read_rules) depth 20

  revoke_token-IsAtomic : (token : String) → IsAtomic (revoke_token token)
  unfolding revoke_token
  revoke_token-IsAtomic token = record { undone = λ p e h. ground arith }

  cleanup_expired_tokens-IsAtomic : (clock : String → ℕ) → IsAtomic (cleanup_expired_tokens clock)
  unfolding cleanup_expired_tokens
  cleanup_expired_tokens-IsAtomic clock = record { undone = λ p e h. cc }

  perform-IsAtomic : (c : Call) → IsAtomic (perform c)
  unfolding perform
  perform-IsAtomic (add_client id secret uris scopes grants confidential now) =
      ignore-IsAtomic _ (register_client-IsAtomic id secret uris scopes grants confidential now)
  perform-IsAtomic (add_user id name email mfa now) =
      ignore-IsAtomic _ (register_user-IsAtomic id name email mfa now)
  perform-IsAtomic (authorize id owner uri scopes challenge method code t t') =
      ignore-IsAtomic _
        (generate_authorization_code-IsAtomic id owner uri scopes challenge method code t t')
  perform-IsAtomic (redeem now code id uri verifier) =
      ignore-IsAtomic _ (validate_authorization_code-IsAtomic s256 now code id uri verifier)
  perform-IsAtomic (issue draw id owner scopes g) =
      ignore-IsAtomic _ (generate_access_token-IsAtomic draw id owner scopes g)
  perform-IsAtomic (check now token scopes) =
      ignore-IsAtomic _ (validate_access_token-IsAtomic now token scopes)
  perform-IsAtomic (refresh draw now token id) =
      ignore-IsAtomic _ (refresh_access_token-IsAtomic draw now token id)
  perform-IsAtomic (revoke token) = ignore-IsAtomic _ (revoke_token-IsAtomic token)
  perform-IsAtomic (cleanup clock) = ignore-IsAtomic _ (cleanup_expired_tokens-IsAtomic clock)

  -- Whichever method is called with whichever arguments: if it raises, the provider is as before.
  pub perform_error_unchanged :
      (c : Call) (p : Provider) (e : OAuthError) → (perform c p).0 ≡ err e → (perform c p).1 ≡ p
  perform_error_unchanged c p e h = (perform-IsAtomic c).undone p e h
