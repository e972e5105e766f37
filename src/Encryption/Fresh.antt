-- ===== src/Encryption/Fresh.antt =====
-- A new `EncryptionManager` on a `LocalKeyManager` of core/encryption_manager.py.
use bt_api_security.Prelude.{
  ℕ, ◌-◌, ◌≤◌, ◌≡◌, refl, true, none, some, List, arith, nat_Eq, string_Eq, length, drop, ok,
}
use bt_api_security.Encryption.Types.{
  EncryptionAlgorithm, aes_256_gcm, aes_256_cbc, chacha20_poly1305, EncryptionKey, Draw,
}
use bt_api_security.Encryption.Local.{
  Storage, LocalKeyManager, is_supported, new_key, generate_key, local_manager,
}
use bt_api_security.Encryption.Stored.{StorageLaws}
use bt_api_security.Encryption.LocalLaws.{local-IsLawful}
use bt_api_security.Encryption.Manager.{
  Ciphers, EncryptionManager, Encrypted, Input, Sealed, to_bytes, encrypt_aes_gcm, encrypt_chacha20,
  seal, envelope, encrypt_under, get_active_key, choose_key, encrypt, decrypt,
}
use bt_api_security.Encryption.Ciphers.{CipherLaws}
use bt_api_security.Encryption.Active.{IsReady}
use bt_api_security.Encryption.RoundTrip.{Reach, decrypts_later}

-- 2 ^ 31 - 1, the most that both ciphers take at once.
abbrev pub max_bytes : ℕ
max_bytes = 2147483647

-- The ciphers take a key of 32 bytes, a nonce of 12 bytes (AES-GCM one of 8 to 128 bytes) and at
-- most `max_bytes` bytes of data.
pub record Accepts (lib : Ciphers) : Type 0 where
  pub gcm :
      (key nonce plain : List ℕ)
      → length key ≡ 32
      → 8 ≤ length nonce
      → length nonce ≤ 128
      → length plain ≤ max_bytes
      → (r : List ℕ × List ℕ) × (lib.gcm_encrypt key nonce plain ≡ some r)
  pub chacha :
      (key nonce plain : List ℕ)
      → length key ≡ 32
      → length nonce ≡ 12
      → length plain ≤ max_bytes
      → (r : List ℕ) × (lib.chacha_encrypt key nonce plain ≡ some r)

seal-returns :
    (lib : Ciphers) (accepts : Accepts lib) (storage : Storage) (a : EncryptionAlgorithm)
    (nonce plain : List ℕ) (k : EncryptionKey)
    → is_supported storage a ≡ true
    → length k.key_data ≡ 32
    → length nonce ≡ 12
    → length plain ≤ max_bytes
    → (d : Sealed) × (seal lib a nonce plain k ≡ ok d)
unfolding seal encrypt_aes_gcm encrypt_chacha20
seal-returns lib accepts storage aes_256_gcm nonce plain k supported long nonce_size short =
    let (r, e) =
      accepts.gcm k.key_data nonce plain long (omega (arith, nonce_size))
        (omega (arith, nonce_size)) short in
    (record { ciphertext = r.0; nonce = nonce; tag = r.1 }, rw (encrypt_aes_gcm, e) refl)
seal-returns lib accepts storage aes_256_cbc nonce plain k supported long nonce_size short =
    absurd (let j = supported in cc)
seal-returns lib accepts storage chacha20_poly1305 nonce plain k supported long nonce_size short =
    let (r, e) = accepts.chacha k.key_data nonce plain long nonce_size short in
    (
      record { ciphertext = r; nonce = nonce; tag = drop (length r - 16) r },
      rw (encrypt_chacha20, e) refl,
    )

abbrev pub fresh_manager : LocalKeyManager → EncryptionAlgorithm → EncryptionManager LocalKeyManager
fresh_manager keys algorithm = record {
  keys = keys;
  default_algorithm = algorithm;
  active_key = none;
}

fresh-encrypts :
    (lib : Ciphers) (accepts : Accepts lib) (storage : Storage) (d : Draw) (now : ℕ)
    (nonce : List ℕ) (input : Input) (a : EncryptionAlgorithm) (keys : LocalKeyManager)
    → is_supported storage a ≡ true
    → length d.key_bytes ≡ 32
    → length nonce ≡ 12
    → length (to_bytes lib input) ≤ max_bytes
    → (e : Encrypted) × ((encrypt lib
          (local_manager storage)
          d
          now
          nonce
          input
          none
          (fresh_manager keys a)).0
        ≡ ok e)
unfolding encrypt choose_key get_active_key generate_key encrypt_under
fresh-encrypts lib accepts storage d now nonce input a keys supported long nonce_size short =
    let (sealed, e) =
      seal-returns lib accepts storage a nonce (to_bytes lib input) (new_key storage d a) supported
        long nonce_size short in
    (envelope lib (new_key storage d a) sealed, rw (supported, encrypt_under, e) refl)

-- A new encryption manager over local key files, with AES-GCM or ChaCha20-Poly1305 as its algorithm,
-- ciphers and storage that undo what they do, 32 random bytes for the key and 12 for the nonce,
-- encrypts any data of less than 2 ^ 31 bytes; and what it returned decrypts to the data at any time after
-- any calls that encrypt, decrypt and rotate keys, as long as no new key gets the id of the first
-- one, and no rotation gives a new key the id of the key that it replaces.
pub fresh_round_trip :
    (lib : Ciphers) (laws : CipherLaws lib) (accepts : Accepts lib) (storage : Storage)
    (files : StorageLaws storage) (d : Draw) (now later : ℕ) (nonce : List ℕ) (input : Input)
    (a : EncryptionAlgorithm) (keys : LocalKeyManager)
    → is_supported storage a ≡ true
    → length d.key_bytes ≡ 32
    → length nonce ≡ 12
    → length (to_bytes lib input) ≤ max_bytes
    → (e : Encrypted) × ((encrypt lib
          (local_manager storage)
          d
          now
          nonce
          input
          none
          (fresh_manager keys a)).0
        ≡ ok e)
      × ((t : EncryptionManager LocalKeyManager)
          → Reach lib
              (local_manager storage)
              e.key_id
              (encrypt lib (local_manager storage) d now nonce input none (fresh_manager keys a)).1
              t
          → decrypt lib (local_manager storage) later e t ≡ (ok (to_bytes lib input), t))
fresh_round_trip lib laws accepts storage files d now later nonce input a keys supported long
      nonce_size short =
    let (e, h) =
      fresh-encrypts lib accepts storage d now nonce input a keys supported long nonce_size short in
    let ready : IsReady (local_manager storage) (fresh_manager keys a) = record {
      at = λ k there. absurd (let j = there in cc);
    } in
    (
      e,
      h,
      λ t rest.
          decrypts_later lib laws (local_manager storage) (local-IsLawful storage files) d now later
            nonce input none e (fresh_manager keys a) t ready tt h rest,
    )
