-- ===== src/Mfa/Webauthn.antt =====
-- `MFAProvider` of auth/mfa_provider.py: WebAuthn registration and authentication.
use bt_api_security.Prelude.{
  String, ℕ, zero, suc, ◌+◌, ◌-◌, ◌*◌, ◌/◌, ◌%◌, Bool, true, false, not, ◌&&◌, Option, none, some,
  List, [], ◌∷◌, map, ltb, nat_eq, if◌then◌else◌, ◌==◌, nat_Eq, string_Eq, drop, take, select, ok,
  err, Exec, second,
}
use bt_api_security.Prelude.Text.{◌^◌, ends_with}
use bt_api_security.Dict.{lookup, insert, erase, adjust}
use bt_api_security.Mfa.Types.{
  webauthn, WebauthnCredential, Challenge, MfaError, no_credentials, MfaProvider,
}
use bt_api_security.Mfa.Setup.{new_config}

-- The fields that are read of the client data; `none` is a missing one.
pub record ClientData : Type 0 where
  pub challenge : Option String
  pub type : Option String
  pub origin : Option String

-- The fields of what the browser sends; `none` is a missing one.
pub record CredentialData : Type 0 where
  pub client_data_json : Option String
  pub attestation_object : Option String

pub record AssertionData : Type 0 where
  pub client_data_json : Option String
  pub authenticator_data : Option String
  pub credential_id : Option String
  pub signature : Option String

-- `base64`, `json` and `cbor2`, as the provider uses them; `none` is an exception. `auth_data`
-- gives the `authData` of an attestation object, empty if it is missing.
pub record Codec : Type 0 where
  pub cbor2_available : Bool
  pub client_data : String → Option ClientData
  pub decode : String → Option (List ℕ)
  pub encode : List ℕ → String
  pub auth_data : List ℕ → Option (List ℕ)

abbrev pub and_then : {A B : Type 0} → Option A → (A → Option B) → Option B
and_then none f = none
and_then (some a) f = f a

abbrev pub guard : Bool → Option (Unit {0})
guard true = some tt
guard false = none

-- `xs[i:j]` and `xs[i]`
abbrev pub slice : ℕ → ℕ → List ℕ → List ℕ
slice i j xs = take (j - i) (drop i xs)

abbrev pub item : ℕ → List ℕ → Option ℕ
item n [] = none
item zero (x ∷ xs) = some x
item (suc n) (x ∷ xs) = item n xs

-- `int.from_bytes(xs, "big")`
unfoldable pub from_bytes : ℕ → List ℕ → ℕ
from_bytes acc [] = acc
from_bytes acc (x ∷ xs) = from_bytes (acc * 256 + x) xs

abbrev pub is_some_text : Option String → String → Bool
is_some_text none t = false
is_some_text (some s) t = s == t

abbrev pub origin_fits : String → Option String → Bool
origin_fits rp_id none = false
origin_fits rp_id (some origin) = not (origin == "") && ends_with rp_id origin

-- The three checks of the client data.
unfoldable pub client_fits : String → String → String → ClientData → Bool
unfolding ends_with
client_fits challenge type rp_id d =
    is_some_text d.challenge challenge && is_some_text d.type type && origin_fits rp_id d.origin

pub record RegistrationOptions : Type 0 where
  pub challenge : String
  pub rp : String × String
  pub user : String × String × String
  pub algorithms : List (Bool × ℕ)
  pub timeout : ℕ

-- `display_name or username`
abbrev pub display_or : Option String → String → String
display_or none username = username
display_or (some d) username = if d == "" then username else d

abbrev pub store_challenge : String → String → ℕ → MfaProvider → MfaProvider
store_challenge key challenge now s = record s {
  webauthn_challenges =
      insert key (record { challenge = challenge; expires_at = now + 300 * second })
        s.webauthn_challenges;
}

-- `challenge` is drawn from `secrets`, `handle` the base64 text of the user's id. An algorithm is
-- its sign (true for a negative number) and its size.
unfoldable pub generate_webauthn_registration_options :
    String
    → String
    → ℕ
    → String
    → String
    → Option String
    → MfaProvider
    → RegistrationOptions × MfaProvider
generate_webauthn_registration_options challenge handle now user_id username display_name s = (
  record {
    challenge = challenge;
    rp = (s.rp_id, s.rp_name);
    user = (handle, username, display_or display_name username);
    algorithms = (true, 7) ∷ (true, 257) ∷ [];
    timeout = 60000;
  },
  store_challenge user_id challenge now s,
)

-- What a registration leaves of the authenticator's data: sign count, credential and key.
pub record Registration : Type 0 where
  pub sign_count : ℕ
  pub credential_id : List ℕ
  pub public_key : List ℕ

-- `auth_data[32]` raises on shorter data, which empty data is too.
unfoldable pub parse_auth_data : List ℕ → Option Registration
unfolding from_bytes
parse_auth_data auth_data = and_then (item 32 auth_data) (λ flags.
    let end = 39 + from_bytes 0 (slice 37 39 auth_data) in
    some (record {
      sign_count = from_bytes 0 (slice 33 37 auth_data);
      credential_id = slice 39 end auth_data;
      public_key = drop end auth_data;
    }))

pub record AuthenticationOptions : Type 0 where
  pub challenge : String
  pub timeout : ℕ
  pub rp_id : String
  pub allow_credentials : List String

module _ (codec : Codec) where
  -- The part of `verify_webauthn_registration` under `try`, before it stores anything.
  unfoldable pub read_registration : String → String → CredentialData → Option Registration
  unfolding client_fits parse_auth_data
  read_registration challenge rp_id sent = and_then (guard codec.cbor2_available) λ _.
      and_then (and_then sent.client_data_json codec.client_data) λ client.
        and_then (guard (client_fits challenge "webauthn.create" rp_id client)) λ _.
          and_then (and_then (and_then sent.attestation_object codec.decode) codec.auth_data)
            λ auth_data. parse_auth_data auth_data

  unfoldable pub store_registration : ℕ → ℕ → String → Registration → MfaProvider → MfaProvider
  store_registration now stamped user_id r s =
      let id = codec.encode r.credential_id in
      record s {
        webauthn_credentials =
            insert id
              (record {
                credential_id = r.credential_id;
                public_key = r.public_key;
                user_handle = user_id;
                rp_id = s.rp_id;
                sign_count = r.sign_count;
                created_at = now;
              })
              s.webauthn_credentials;
        mfa_configs =
            insert user_id
              (record (new_config user_id webauthn stamped) {
                is_enabled = true;
                credential_id = some id;
                public_key = some r.public_key;
                sign_count = r.sign_count;
                user_handle = some user_id;
              })
              s.mfa_configs;
        webauthn_challenges = erase user_id s.webauthn_challenges;
      }

  -- What happens with a challenge that is stored and not expired.
  unfoldable pub register :
      ℕ → ℕ → String → CredentialData → Challenge → MfaProvider → Bool × MfaProvider
  unfolding read_registration store_registration
  register now stamped user_id sent c s = elim (read_registration c.challenge s.rp_id sent) [
    | none ↦ (false, s)
    | some r ↦ (true, store_registration now stamped user_id r s)
  ]

  -- `checked` is the clock that the expiry is held against.
  unfoldable pub verify_webauthn_registration :
      ℕ → ℕ → ℕ → String → CredentialData → MfaProvider → Bool × MfaProvider
  unfolding register
  verify_webauthn_registration checked now stamped user_id sent s =
      elim (lookup user_id s.webauthn_challenges) [
        | none ↦ (false, s)
        | some c ↦
            if ltb c.expires_at checked
            then (false, record s { webauthn_challenges = erase user_id s.webauthn_challenges })
            else register now stamped user_id sent c s
      ]

  abbrev pub owned_by : String → String × WebauthnCredential → Bool
  owned_by user_id e = e.1.user_handle == user_id

  unfoldable pub generate_webauthn_authentication_options :
      String → ℕ → String → Exec MfaError MfaProvider AuthenticationOptions
  generate_webauthn_authentication_options challenge now user_id s =
      elim (select (owned_by user_id) s.webauthn_credentials) [
        | [] ↦ (err no_credentials, s)
        | e ∷ es ↦ (
          ok (record {
            challenge = challenge;
            timeout = 60000;
            rp_id = s.rp_id;
            allow_credentials = map (λ e. codec.encode e.1.credential_id) (e ∷ es);
          }),
          store_challenge ("auth_" ^ user_id) challenge now s,
        )
      ]

  -- The client's and the authenticator's sent and the credential's key, before it is looked up.
  unfoldable pub read_assertion : String → String → AssertionData → Option (List ℕ × String)
  unfolding client_fits
  read_assertion challenge rp_id sent =
      and_then (and_then sent.client_data_json codec.client_data) λ client.
        and_then (guard (client_fits challenge "webauthn.get" rp_id client)) λ _.
          and_then (and_then sent.authenticator_data codec.decode) λ authenticator.
            and_then (and_then sent.credential_id codec.decode)
              λ id. some (authenticator, codec.encode id)

  -- User present and user verified: the bits 0x01 and 0x04 of the flags.
  abbrev pub flags_fit : ℕ → Bool
  flags_fit flags = nat_eq (flags % 2) 1 && nat_eq (flags / 4 % 2) 1

  -- The new sign count, if the signature can be decoded, the flags fit and the count is higher.
  unfoldable pub new_sign_count : AssertionData → List ℕ → WebauthnCredential → Option ℕ
  unfolding from_bytes
  new_sign_count sent authenticator credential =
      and_then (and_then sent.signature codec.decode) λ signature.
        and_then (item 32 authenticator) λ flags. and_then (guard (flags_fit flags)) λ _.
          let count = from_bytes 0 (slice 33 37 authenticator) in
          and_then (guard (ltb credential.sign_count count)) λ _. some count

  -- The credential and the count with which an assertion is accepted.
  unfoldable pub accept_assertion : String → AssertionData → MfaProvider → Option (String × ℕ)
  unfolding read_assertion new_sign_count
  accept_assertion challenge sent s = and_then (read_assertion challenge s.rp_id sent) λ found.
      and_then (lookup found.1 s.webauthn_credentials) λ credential.
        and_then (new_sign_count sent found.0 credential) λ count. some (found.1, count)

  abbrev pub set_sign_count : ℕ → WebauthnCredential → WebauthnCredential
  set_sign_count count c = record c { sign_count = count }

  unfoldable pub store_assertion : ℕ → String → String → ℕ → MfaProvider → MfaProvider
  store_assertion used user_id id count s = record s {
    webauthn_credentials = adjust id (set_sign_count count) s.webauthn_credentials;
    mfa_configs = adjust user_id (λ c. record c { last_used = some used }) s.mfa_configs;
    webauthn_challenges = erase ("auth_" ^ user_id) s.webauthn_challenges;
  }

  unfoldable pub authenticate :
      ℕ → String → AssertionData → Challenge → MfaProvider → Bool × MfaProvider
  unfolding accept_assertion store_assertion
  authenticate used user_id sent c s = elim (accept_assertion c.challenge sent s) [
    | none ↦ (false, s)
    | some (id, count) ↦ (true, store_assertion used user_id id count s)
  ]

  unfoldable pub verify_webauthn_authentication :
      ℕ → ℕ → String → AssertionData → MfaProvider → Bool × MfaProvider
  unfolding authenticate
  verify_webauthn_authentication checked used user_id sent s =
      elim (lookup ("auth_" ^ user_id) s.webauthn_challenges) [
        | none ↦ (false, s)
        | some c ↦
            if ltb c.expires_at checked
            then (
              false,
              record s { webauthn_challenges = erase ("auth_" ^ user_id) s.webauthn_challenges },
            )
            else authenticate used user_id sent c s
      ]
