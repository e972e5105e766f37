-- ===== src/OAuth/Cleanup.antt =====
-- `cleanup_expired_tokens` of auth/oauth2_provider.py, against filtering by validity.
use bt_api_security.Prelude.{
  String, ℕ, ◌≡◌, refl, ap, ◌∙◌, Bool, not, arith, nat_Eq, string_Eq, length, select, ok,
}
use bt_api_security.Dict.{Dict, IsUnique, erase_all}
use bt_api_security.Dict.Sweep.{erase_all_selected, length-keys, select-agree}
use bt_api_security.OAuth.Types.{
  AccessToken, code_is_valid, access_is_expired, access_is_valid, refresh_is_valid,
}
use bt_api_security.OAuth.Provider.{Provider}
use bt_api_security.OAuth.Tokens.{cleanup_expired_tokens, stale}

module _ {V : Type 0} (clock : String → ℕ) (is_valid : ℕ → V → Bool) where
  abbrev pub valid_entries : Dict V → Dict V
  valid_entries d = select (λ e. is_valid (clock e.0) e.1) d

  abbrev pub invalid_entries : Dict V → Dict V
  invalid_entries d = select (λ e. not (is_valid (clock e.0) e.1)) d

  module _ (is_stale : ℕ → V → Bool) (agree : (t : ℕ) (v : V) → is_stale t v ≡ not (is_valid t v))
      (d : Dict V) where
    sweep_valid : IsUnique d → erase_all (stale clock is_stale d) d ≡ valid_entries d
    sweep_valid u =
        erase_all_selected (λ e. is_stale (clock e.0) e.1) d u
        ∙ select-agree (λ e. not (is_stale (clock e.0) e.1)) (λ e. is_valid (clock e.0) e.1) d
            (λ e. ground (arith, agree (clock e.0) e.1))

    count_invalid : length (stale clock is_stale d) ≡ length (invalid_entries d)
    count_invalid =
        length-keys (select (λ e. is_stale (clock e.0) e.1) d)
        ∙ ap length (
            select-agree (λ e. is_stale (clock e.0) e.1) (λ e. not (is_valid (clock e.0) e.1)) d
              (λ e. agree (clock e.0) e.1))

expired-not-valid : (t : ℕ) (a : AccessToken) → access_is_expired t a ≡ not (access_is_valid t a)
unfolding access_is_valid
expired-not-valid t a = ground arith

-- Where no dictionary repeats a key: what is left is exactly what is valid at the time it is looked
-- at, in its order; the counts are those of the invalid entries. Clients, users and settings stay.
pub cleanup_filters :
    (clock : String → ℕ) (p : Provider)
    → IsUnique p.auth_codes
    → IsUnique p.access_tokens
    → IsUnique p.refresh_tokens
    → cleanup_expired_tokens clock p ≡ (
      ok (record {
        authorization_codes = length (invalid_entries clock code_is_valid p.auth_codes);
        access_tokens = length (invalid_entries clock access_is_valid p.access_tokens);
        refresh_tokens = length (invalid_entries clock refresh_is_valid p.refresh_tokens);
      }),
      record p {
        auth_codes = valid_entries clock code_is_valid p.auth_codes;
        access_tokens = valid_entries clock access_is_valid p.access_tokens;
        refresh_tokens = valid_entries clock refresh_is_valid p.refresh_tokens;
      },
    )
unfolding cleanup_expired_tokens
cleanup_filters clock p uc ua ur =
    rw
      (
        sweep_valid clock code_is_valid (λ t c. not (code_is_valid t c)) (λ t c. refl) p.auth_codes
            uc,
        sweep_valid clock access_is_valid access_is_expired expired-not-valid p.access_tokens ua,
        sweep_valid clock refresh_is_valid (λ t r. not (refresh_is_valid t r)) (λ t r. refl)
            p.refresh_tokens ur,
        count_invalid clock code_is_valid (λ t c. not (code_is_valid t c)) (λ t c. refl)
            p.auth_codes,
        count_invalid clock access_is_valid access_is_expired expired-not-valid p.access_tokens,
        count_invalid clock refresh_is_valid (λ t r. not (refresh_is_valid t r)) (λ t r. refl)
            p.refresh_tokens,
      )
      refl
