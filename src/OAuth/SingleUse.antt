-- ===== src/OAuth/SingleUse.antt =====
-- Authorization codes of auth/oauth2_provider.py are redeemed once, and a revoked or rotated
-- refresh token is dead, whatever is called afterwards.
use bt_api_security.Prelude.{
  String, ℕ, ◌≡◌, refl, sym, ap, ◌∙◌, ◌≢◌, inl, inr, true, false, some, List, arith, eq_iff,
  Option-cases, nat_Eq, string_Eq, All, ok, err, Result-cases,
}
use bt_api_security.Dict.{Dict, lookup, adjust, erase_all, has_key}
use bt_api_security.Dict.Laws.{
  lookup-insert-cases, lookup-adjust-cases, lookup-erase_all, lookup-adjust_self, lookup-adjust,
}
use bt_api_security.OAuth.Types.{
  Value, AuthorizationCode, AccessToken, RefreshToken, OAuthError, code_is_valid, code_is_expired,
  refresh_is_valid, refresh_is_expired, invalid_code, code_expired_or_used, invalid_refresh_token,
  refresh_token_expired_or_used,
}
use bt_api_security.OAuth.Inputs.{require_text}
use bt_api_security.OAuth.Provider.{
  Provider, Action, mark_code_used, validate_authorization_code, optional_text,
}
use bt_api_security.OAuth.Tokens.{Draw, mark_used, refresh_access_token, reissue, revoke_token}
use bt_api_security.OAuth.Frames.{issue_access_token-Keeps}
use bt_api_security.OAuth.Rotation.{refresh_ok, refresh_runs}
use bt_api_security.OAuth.Codes.{redeem_iff}
use bt_api_security.OAuth.Calls.{Call, perform_all}
use bt_api_security.OAuth.Traces.{NotDrawn, IsStable, perform_all-Keeps}

-- No unused code is stored under the key.
pub record IsSpentCode (key : String) (p : Provider) : Type 0 where
  pub spent : (c : AuthorizationCode) → lookup key p.auth_codes ≡ some c → c.used ≡ true

-- No usable refresh token is stored under the key.
pub record IsDeadRefresh (key : String) (p : Provider) : Type 0 where
  pub dead : (r : RefreshToken) → lookup key p.refresh_tokens ≡ some r → r.used ≡ true

lookup-erase_all-old :
    {V : Type 0} (j : String) (ks : List String) (d : Dict V) {v : V}
    → lookup j (erase_all ks d) ≡ some v
    → lookup j d ≡ some v
lookup-erase_all-old j ks d h = ground (arith, lookup-erase_all j ks d)

module _ (key : String) where
  IsSpentCode-IsStable : IsStable key (IsSpentCode key)
  IsSpentCode-IsStable = record {
    on_clients = λ d p v. record { spent = v.spent };
    on_users = λ d p v. record { spent = v.spent };
    on_access = λ d p v. record { spent = v.spent };
    on_code = λ k c p ne v. record {
      spent = λ d h. ground (arith, lookup-insert-cases k key c p.auth_codes h, v.spent d);
    };
    on_spend = λ k p v. record {
      spent = λ d h. elim (lookup-adjust-cases k key mark_code_used p.auth_codes h) [
        | inl (c, same, known, e) ↦ ap (λ x. x.used) e
        | inr known ↦ v.spent d known
      ];
    };
    on_drop_codes =
        λ ks p v. record { spent = λ c h. v.spent c (lookup-erase_all-old key ks p.auth_codes h) };
    on_refresh = λ k r p ne v. record { spent = v.spent };
    on_mark = λ k p v. record { spent = v.spent };
    on_drop_refreshes = λ ks p v. record { spent = v.spent };
  }

  IsDeadRefresh-IsStable : IsStable key (IsDeadRefresh key)
  IsDeadRefresh-IsStable = record {
    on_clients = λ d p v. record { dead = v.dead };
    on_users = λ d p v. record { dead = v.dead };
    on_access = λ d p v. record { dead = v.dead };
    on_code = λ k c p ne v. record { dead = v.dead };
    on_spend = λ k p v. record { dead = v.dead };
    on_drop_codes = λ ks p v. record { dead = v.dead };
    on_refresh = λ k r p ne v. record {
      dead = λ d h. ground (arith, lookup-insert-cases k key r p.refresh_tokens h, v.dead d);
    };
    on_mark = λ k p v. record {
      dead = λ d h. elim (lookup-adjust-cases k key mark_used p.refresh_tokens h) [
        | inl (c, same, known, e) ↦ ap (λ x. x.used) e
        | inr known ↦ v.dead d known
      ];
    };
    on_drop_refreshes = λ ks p v. record {
      dead = λ c h. v.dead c (lookup-erase_all-old key ks p.refresh_tokens h);
    };
  }

-- Neither an answer nor a change.
abbrev pub Refuses : {A : Type 0} → Action A → Provider → Type 0
Refuses m p = (e : OAuthError) × (m p ≡ (err e, p))

refused-redeem :
    (s256 : String → String) (key : String) (p : Provider)
    → IsSpentCode key p
    → (now : ℕ) (code client_id uri verifier : Value) → require_text "code" code ≡ ok key
    → Refuses (validate_authorization_code s256 now code client_id uri verifier) p
unfolding validate_authorization_code code_is_valid code_is_expired
refused-redeem s256 key p v now code client_id uri verifier code_text =
    rw code_text (elim (Result-cases (require_text "client_id" client_id)) [
      | inr (e, bad) ↦ (e, rw bad refl)
      | inl (id, good) ↦ elim (Result-cases (require_text "redirect_uri" uri)) [
        | inr (e, bad) ↦ (e, rw (good, bad) refl)
        | inl (place, good_uri) ↦ elim (Result-cases (optional_text "code_verifier" verifier)) [
          | inr (e, bad) ↦ (e, rw (good, good_uri, bad) refl)
          | inl (answer, good_verifier) ↦ elim (Option-cases (lookup key p.auth_codes)) [
            | inl unknown ↦ (invalid_code, rw (good, good_uri, good_verifier, unknown) refl)
            | inr (c, known) ↦ (
              code_expired_or_used,
              rw (good, good_uri, good_verifier, known, v.spent c known) refl,
            )
          ]
        ]
      ]
    ])

refused-refresh :
    (key : String) (p : Provider)
    → IsDeadRefresh key p
    → (draw : Draw) (now : ℕ) (client_id : Value)
    → Refuses (refresh_access_token draw now key client_id) p
unfolding refresh_access_token refresh_is_valid refresh_is_expired
refused-refresh key p v draw now client_id =
    elim (Result-cases (require_text "client_id" client_id)) [
      | inr (e, bad) ↦ (e, rw bad refl)
      | inl (id, good) ↦ elim (Option-cases (lookup key p.refresh_tokens)) [
        | inl unknown ↦ (invalid_refresh_token, rw (good, unknown) refl)
        | inr (r, known) ↦ (refresh_token_expired_or_used, rw (good, known, v.dead r known) refl)
      ]
    ]

spent_after :
    (s256 : String → String) (key : String) (p : Provider) (now : ℕ)
    (code client_id uri verifier : Value)
    → require_text "code" code ≡ ok key
    → (c : AuthorizationCode) (p' : Provider)
    → validate_authorization_code s256 now code client_id uri verifier p ≡ (ok c, p')
    → IsSpentCode key p'
unfolding validate_authorization_code
spent_after s256 key p now code client_id uri verifier code_text c p' h =
    elim (Result-cases (require_text "client_id" client_id)) [
      | inr (e, bad) ↦ absurd (let k = rw (code_text, bad) at h in cc)
      | inl (id, good) ↦ elim (Result-cases (require_text "redirect_uri" uri)) [
        | inr (e, bad) ↦ absurd (let k = rw (code_text, good, bad) at h in cc)
        | inl (place, good_uri) ↦ elim (Result-cases (optional_text "code_verifier" verifier)) [
          | inr (e, bad) ↦ absurd (let k = rw (code_text, good, good_uri, bad) at h in cc)
          | inl (answer, good_verifier) ↦
              let (old, r, e, after) =
                (redeem_iff s256 now p code client_id uri verifier key id place answer code_text
                    good good_uri good_verifier c p').0
                  h in
              rw after (record {
                spent = λ d found.
                    ground (arith, lookup-adjust_self key mark_code_used p.auth_codes r.issued);
              })
        ]
      ]
    ]

-- A code that was redeemed is refused for good: after any calls that do not draw the same code
-- again, whatever the second attempt's other arguments and its time.
pub redeem_once :
    (s256 : String → String) (key : String) (p : Provider) (now : ℕ)
    (code client_id uri verifier : Value)
    → require_text "code" code ≡ ok key
    → (c : AuthorizationCode) (p' : Provider)
    → validate_authorization_code s256 now code client_id uri verifier p ≡ (ok c, p')
    → (cs : List Call) → All (NotDrawn key) cs
    → (later : ℕ) (code' client_id' uri' verifier' : Value) → require_text "code" code' ≡ ok key
    → Refuses
        (validate_authorization_code s256 later code' client_id' uri' verifier')
        (perform_all s256 cs p')
redeem_once s256 key p now code client_id uri verifier text c p' h cs fresh later code' client_id'
      uri' verifier' text' =
    refused-redeem s256 key (perform_all s256 cs p')
      (perform_all-Keeps s256 (IsSpentCode-IsStable key) cs p' fresh
        (spent_after s256 key p now code client_id uri verifier text c p' h))
      later code' client_id' uri' verifier' text'

marked-IsDeadRefresh :
    (key : String) (p : Provider)
    → IsDeadRefresh key (record p { refresh_tokens = adjust key mark_used p.refresh_tokens })
marked-IsDeadRefresh key p = record {
  dead = λ r h. elim (Option-cases (lookup key p.refresh_tokens)) [
    | inl none_there ↦
        ground (arith, lookup-adjust key key mark_used p.refresh_tokens, eq_iff key key)
    | inr (old, known) ↦ ground (arith, lookup-adjust_self key mark_used p.refresh_tokens known)
  ];
}

dead_after_reissue :
    (draw : Draw) (old : RefreshToken) (key : String) (p : Provider)
    → draw.refresh_token ≢ key
    → IsDeadRefresh key (reissue draw old key true p).1
unfolding reissue
dead_after_reissue draw old key p ne =
    let stable = IsDeadRefresh-IsStable key in
    (issue_access_token-Keeps (IsDeadRefresh key) draw stable.on_access
        (λ r q. stable.on_refresh draw.refresh_token r q ne) stable.on_mark old.client_id
        (some old.user_id) old.scopes true).at
      _ (marked-IsDeadRefresh key p)

-- With rotation on, a refresh token that was used, and replaced by another one, is refused for
-- good: after any calls that do not draw the same token again.
pub rotated_once :
    (s256 : String → String) (draw : Draw) (now : ℕ) (key : String) (client_id : Value)
    (p : Provider) (a : AccessToken) (p' : Provider)
    → p.enable_token_rotation ≡ true
    → draw.refresh_token ≢ key
    → refresh_access_token draw now key client_id p ≡ (ok a, p')
    → (cs : List Call) → All (NotDrawn key) cs
    → (draw' : Draw) (later : ℕ) (client_id' : Value)
    → Refuses (refresh_access_token draw' later key client_id') (perform_all s256 cs p')
rotated_once s256 draw now key client_id p a p' rotates ne h cs fresh draw' later client_id' =
    let (id, old, text, r) = refresh_ok draw now key client_id p a p' h in
    let run : reissue draw old key true p ≡ (ok a, p') =
      sym (refresh_runs draw now key client_id p id old true rotates text r) ∙ h in
    let dead : IsDeadRefresh key p' =
      rw (← ap (λ x. x.1) run) (dead_after_reissue draw old key p ne) in
    refused-refresh key (perform_all s256 cs p')
      (perform_all-Keeps s256 (IsDeadRefresh-IsStable key) cs p' fresh dead) draw' later client_id'

-- Revoking a known refresh token that is no access token succeeds, and the token is refused for
-- good: after any calls that do not draw the same token again.
pub revoked_refused :
    (s256 : String → String) (key : String) (p : Provider)
    → has_key key p.access_tokens ≡ false
    → has_key key p.refresh_tokens ≡ true
    → (cs : List Call) → All (NotDrawn key) cs
    → (draw : Draw) (later : ℕ) (client_id : Value)
    → (revoke_token key p).0 ≡ ok true
      × Refuses
          (refresh_access_token draw later key client_id)
          (perform_all s256 cs (revoke_token key p).1)
unfolding revoke_token
revoked_refused s256 key p not_access is_refresh cs fresh draw later client_id =
    rw (not_access, is_refresh)
      (
        refl,
        refused-refresh key _
            (perform_all-Keeps s256 (IsDeadRefresh-IsStable key) cs _ fresh
              (marked-IsDeadRefresh key p))
            draw later client_id,
      )
