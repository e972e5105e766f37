-- ===== src/Encryption/Errors.antt =====
-- What `EncryptionManager` of core/encryption_manager.py cannot encrypt or decrypt.
use bt_api_security.Prelude.{
  String, ℕ, ◌≡◌, refl, ap, ◌∙◌, inl, inr, true, false, Option, none, some, List, [], arith,
  Bool-cases, Option-cases, ◌==◌, nat_Eq, string_Eq, ok, err, Result-cases,
}
use bt_api_security.Encryption.Types.{
  EncryptionAlgorithm, aes_256_gcm, aes_256_cbc, chacha20_poly1305, EncryptionKey, EncryptionError,
  library, key_not_found, unsupported_algorithm, Draw, KeyManager,
}
use bt_api_security.Encryption.Remote.{
  Kms, Vault, generate_aws, get_aws, aws_manager, generate_vault, get_vault, vault_manager,
}
use bt_api_security.Encryption.Manager.{
  Ciphers, EncryptionManager, Encrypted, Input, to_bytes, encrypt_aes_gcm, encrypt_chacha20, Sealed,
  seal, envelope, encrypt_under, get_active_key, get_stored, usable, choose_key, encrypt, decrypt,
}
use bt_api_security.Encryption.Local.{Storage, LocalKeyManager, get_key, delete_key, local_manager}
use bt_api_security.Encryption.Stored.{get-delete_self}
use bt_api_security.Encryption.Active.{Active-cases, reused, raised, generated}

module _ (lib : Ciphers) (storage : Storage) where
  active-reused :
      (d : Draw) (k : EncryptionKey) (s : EncryptionManager LocalKeyManager)
      → s.active_key ≡ some k
      → k.is_active ≡ true
      → get_active_key lib (local_manager storage) d s ≡ (ok k, s)
  unfolding get_active_key
  active-reused d k s active used =
      let known : usable lib (local_manager storage) s.active_key ≡ some k =
        rw (active, used) refl in
      rw (get_active_key, known) refl

  deleted-decrypt :
      (key_id : String) (later : ℕ) (e : Encrypted) (keys : LocalKeyManager)
      (s : EncryptionManager LocalKeyManager)
      → s.keys ≡ delete_key storage key_id keys
      → e.key_id ≡ key_id
      → decrypt lib (local_manager storage) later e s ≡ (err (key_not_found key_id), s)
  unfolding decrypt
  deleted-decrypt key_id later e keys s deleted carried =
      let gone : get_key storage key_id s.keys ≡ ok none =
        rw deleted (get-delete_self storage key_id keys) in
      rw (carried, gone) refl

  -- Over local key files, after `delete_key` of a key id that is not empty, both `encrypt` with that
  -- id and `decrypt` of what carries it raise that the key is not found, and change nothing. With
  -- the deleted key as the active key of a manager, `encrypt` without an id still encrypts under it,
  -- and `decrypt` raises of whatever was sealed under it that the key is not found.
  pub deleted_refused :
      (key_id : String) (d : Draw) (now later : ℕ) (nonce : List ℕ) (input : Input)
      (carrier : Encrypted) (k : EncryptionKey) (sealed : Sealed) (keys : LocalKeyManager)
      (s t : EncryptionManager LocalKeyManager)
      → (key_id == "") ≡ false
      → s.keys ≡ delete_key storage key_id keys
      → carrier.key_id ≡ key_id
      → k.key_id ≡ key_id
      → k.is_active ≡ true
      → t ≡ record s { active_key = some k }
      → (encrypt lib (local_manager storage) d now nonce input (some key_id) s
          ≡ (err (key_not_found key_id), s))
        × (decrypt lib (local_manager storage) later carrier s ≡ (err (key_not_found key_id), s))
        × (encrypt lib (local_manager storage) d now nonce input none t
            ≡ (encrypt_under lib input nonce k, t))
        × (decrypt lib (local_manager storage) later (envelope lib k sealed) t
            ≡ (err (key_not_found key_id), t))
  unfolding encrypt choose_key
  deleted_refused key_id d now later nonce input carrier k sealed keys s t given deleted carried
        same used kept =
      let gone : get_key storage key_id s.keys ≡ ok none =
        rw deleted (get-delete_self storage key_id keys) in
      let reused = active-reused d k t (ap (λ u. u.active_key) kept) used in
      (
        rw (given, gone) refl,
        deleted-decrypt key_id later carrier keys s deleted carried,
        rw reused refl,
        deleted-decrypt key_id later (envelope lib k sealed) keys t
            (ap (λ u. u.keys) kept ∙ deleted) same,
      )

-- The key manager hands out keys without key data.
record KeepsNoData {S : Type 0} (manager : KeyManager S) : Type 0 where
  on_generate :
      (d : Draw) (algorithm : EncryptionAlgorithm) (k : EncryptionKey) (s : S)
      → (manager.generate_key d algorithm s).0 ≡ ok k
      → k.key_data ≡ []
  on_get :
      (now : ℕ) (key_id : String) (k : EncryptionKey) (s : S)
      → (manager.get_key now key_id s).0 ≡ ok (some k)
      → k.key_data ≡ []

module _ {C : Type 0} where
  aws-KeepsNoData : (kms : Kms C) → KeepsNoData (aws_manager kms)
  unfolding generate_aws get_aws
  aws-KeepsNoData kms = record {
    on_generate = λ d algorithm k s h. ground arith;
    on_get = λ now key_id k s h. ground arith;
  }

  vault-KeepsNoData : (vault : Vault C) → KeepsNoData (vault_manager vault)
  unfolding generate_vault get_vault
  vault-KeepsNoData vault = record {
    on_generate = λ d algorithm k s h. ground arith;
    on_get = λ now key_id k s h. ground arith;
  }

-- The ciphers raise on an empty key.
pub record RefusesEmpty (lib : Ciphers) : Type 0 where
  pub gcm : (nonce plain : List ℕ) → lib.gcm_encrypt [] nonce plain ≡ none
  pub chacha : (nonce plain : List ℕ) → lib.chacha_encrypt [] nonce plain ≡ none

module _ (lib : Ciphers) (refuses : RefusesEmpty lib) where
  seal-raises :
      (a : EncryptionAlgorithm) (nonce plain : List ℕ) (k : EncryptionKey)
      → k.key_data ≡ []
      → (x : EncryptionError) × (seal lib a nonce plain k ≡ err x)
  unfolding seal encrypt_aes_gcm encrypt_chacha20
  seal-raises aes_256_gcm nonce plain k e =
      (library, rw (encrypt_aes_gcm, e, refuses.gcm nonce plain) refl)
  seal-raises aes_256_cbc nonce plain k e = (unsupported_algorithm aes_256_cbc, refl)
  seal-raises chacha20_poly1305 nonce plain k e =
      (library, rw (encrypt_chacha20, e, refuses.chacha nonce plain) refl)

  under-raises :
      (input : Input) (nonce : List ℕ) (k : EncryptionKey)
      → k.key_data ≡ []
      → (x : EncryptionError) × (encrypt_under lib input nonce k ≡ err x)
  unfolding encrypt_under
  under-raises input nonce k e =
      let (x, r) = seal-raises k.algorithm nonce (to_bytes lib input) k e in
      (x, rw (encrypt_under, r) refl)

  module _ {S : Type 0} (manager : KeyManager S) (empty : KeepsNoData manager) where
    active-empty :
        (d : Draw) (k : EncryptionKey) (s : EncryptionManager S)
        → ((n : EncryptionKey) → s.active_key ≡ some n → n.key_data ≡ [])
        → (get_active_key lib manager d s).0 ≡ ok k
        → k.key_data ≡ []
    active-empty d k s none_active h = elim (Active-cases lib manager d s) [
      | reused n there e ↦
          let j = rw e at h in
          let same : n ≡ k = ground arith in none_active k (there ∙ ap some same)
      | raised x made e ↦ absurd (let j = rw e at h in cc)
      | generated n made e ↦
          let j = rw e at h in
          let same : n ≡ k = ground arith in
          empty.on_generate d s.default_algorithm k s.keys (made ∙ ap ok same)
    ]

    stored-empty :
        (now : ℕ) (key_id : String) (k : EncryptionKey) (s : EncryptionManager S)
        → (get_stored lib manager now key_id s).0 ≡ ok k
        → k.key_data ≡ []
    stored-empty now key_id k s h = elim (Result-cases (manager.get_key now key_id s.keys).0) [
      | inr (x, e) ↦ absurd (let j = rw e at h in cc)
      | inl (found, e) ↦ elim (Option-cases found) [
        | inl missing ↦ absurd (let j = rw (e, missing) at h in cc)
        | inr (n, there) ↦
            let j = rw (e, there) at h in
            let same : n ≡ k = ground arith in
            empty.on_get now key_id k s.keys (e ∙ ap ok (there ∙ ap some same))
      ]
    ]

    chosen-empty :
        (d : Draw) (now : ℕ) (chosen : Option String) (k : EncryptionKey) (s : EncryptionManager S)
        → ((n : EncryptionKey) → s.active_key ≡ some n → n.key_data ≡ [])
        → (choose_key lib manager d now chosen s).0 ≡ ok k
        → k.key_data ≡ []
    unfolding choose_key
    chosen-empty d now none k s none_active h = active-empty d k s none_active h
    chosen-empty d now (some i) k s none_active h = elim (Bool-cases (i == "")) [
      | inl blank ↦ active-empty d k s none_active (rw blank at h)
      | inr given ↦ stored-empty now i k s (rw given at h)
    ]

    encrypt-raises :
        (d : Draw) (now : ℕ) (nonce : List ℕ) (input : Input) (chosen : Option String)
        (s : EncryptionManager S)
        → ((n : EncryptionKey) → s.active_key ≡ some n → n.key_data ≡ [])
        → (x : EncryptionError) × ((encrypt lib manager d now nonce input chosen s).0 ≡ err x)
    unfolding encrypt
    encrypt-raises d now nonce input chosen s none_active =
        elim (Result-cases (choose_key lib manager d now chosen s).0) [
          | inr (x, e) ↦ (x, rw e refl)
          | inl (k, e) ↦
              let (x, r) =
                under-raises input nonce k (chosen-empty d now chosen k s none_active e) in
              (x, rw (e, r) refl)
        ]

-- If the ciphers raise on an empty key, `encrypt` over `AWSKMSKeyManager` and over
-- `HashiCorpVaultKeyManager` raises whatever it is given, as long as the active key, if there is
-- one, has no key data.
pub remote_raises :
    {C : Type 0} (lib : Ciphers) (refuses : RefusesEmpty lib) (kms : Kms C) (vault : Vault C)
    (d : Draw) (now : ℕ) (nonce : List ℕ) (input : Input) (chosen : Option String)
    (s : EncryptionManager C)
    → ((n : EncryptionKey) → s.active_key ≡ some n → n.key_data ≡ [])
    → ((x : EncryptionError) × ((encrypt lib (aws_manager kms) d now nonce input chosen s).0
          ≡ err x))
      × ((x : EncryptionError) × ((encrypt lib (vault_manager vault) d now nonce input chosen s).0
            ≡ err x))
remote_raises lib refuses kms vault d now nonce input chosen s none_active = (
  encrypt-raises lib refuses (aws_manager kms) (aws-KeepsNoData kms) d now nonce input chosen s
      none_active,
  encrypt-raises lib refuses (vault_manager vault) (vault-KeepsNoData vault) d now nonce input
      chosen s none_active,
)
