-- ===== src/Encryption/Ciphers.antt =====
-- Encryption under a key in core/encryption_manager.py, undone by decryption under the same key.
use bt_api_security.Prelude.{
  ℕ, ◌-◌, ◌≡◌, refl, inl, inr, Option, none, some, List, [], ◌∷◌, arith, Option-cases, nat_Eq,
  string_Eq, length, drop, ok, Result-cases,
}
use bt_api_security.Encryption.Types.{
  EncryptionAlgorithm, aes_256_gcm, aes_256_cbc, chacha20_poly1305, algorithm_value, EncryptionKey,
}
use bt_api_security.Encryption.Manager.{
  Ciphers, Encrypted, Input, Sealed, to_bytes, encrypt_aes_gcm, encrypt_chacha20, decrypt_aes_gcm,
  decrypt_chacha20, seal, tag_text, envelope, encrypt_under, decode_tag, open_with, decrypt_under,
}

-- Each cipher after itself under one key and nonce; the tag of AES-GCM is
-- 16 bytes long.
pub record CipherLaws (lib : Ciphers) : Type 0 where
  pub gcm_opens :
      (key nonce plain ciphertext tag : List ℕ)
      → lib.gcm_encrypt key nonce plain ≡ some (ciphertext, tag)
      → (lib.gcm_decrypt key nonce tag ciphertext ≡ some plain) × (length tag ≡ 16)
  pub chacha_opens :
      (key nonce plain ciphertext : List ℕ)
      → lib.chacha_encrypt key nonce plain ≡ some ciphertext
      → lib.chacha_decrypt key nonce ciphertext ≡ some plain

module _ (lib : Ciphers) (laws : CipherLaws lib) where
  -- What was sealed opens under a key with the same data.
  Opens : EncryptionAlgorithm → List ℕ → Sealed → EncryptionKey → Type 0
  Opens a plain d j =
      (tag : Option (List ℕ)) × (decode_tag lib (tag_text lib d.tag) ≡ some tag)
      × (open_with lib (algorithm_value a) d.ciphertext d.nonce tag j ≡ ok plain)

  gcm-Opens :
      (nonce plain ciphertext tag : List ℕ) (k j : EncryptionKey)
      → lib.gcm_encrypt k.key_data nonce plain ≡ some (ciphertext, tag)
      → j.key_data ≡ k.key_data
      → Opens aes_256_gcm plain (record { ciphertext = ciphertext; nonce = nonce; tag = tag }) j
  unfolding Opens open_with algorithm_value decrypt_aes_gcm
  gcm-Opens nonce plain ciphertext [] k j h same =
      absurd (omega (arith, (laws.gcm_opens k.key_data nonce plain ciphertext [] h).1))
  gcm-Opens nonce plain ciphertext (b ∷ bs) k j h same = (
    some (b ∷ bs),
    refl,
    rw (same, (laws.gcm_opens k.key_data nonce plain ciphertext (b ∷ bs) h).0) refl,
  )

  chacha-Opens :
      (nonce plain ciphertext tag : List ℕ) (k j : EncryptionKey)
      → lib.chacha_encrypt k.key_data nonce plain ≡ some ciphertext
      → j.key_data ≡ k.key_data
      → Opens chacha20_poly1305 plain
          (record { ciphertext = ciphertext; nonce = nonce; tag = tag })
          j
  unfolding Opens open_with algorithm_value decrypt_chacha20
  chacha-Opens nonce plain ciphertext [] k j h same =
      (none, refl, rw (same, laws.chacha_opens k.key_data nonce plain ciphertext h) refl)
  chacha-Opens nonce plain ciphertext (b ∷ bs) k j h same =
      (some (b ∷ bs), refl, rw (same, laws.chacha_opens k.key_data nonce plain ciphertext h) refl)

  sealed-Opens :
      (a : EncryptionAlgorithm) (nonce plain : List ℕ) (d : Sealed) (k j : EncryptionKey)
      → seal lib a nonce plain k ≡ ok d
      → j.key_data ≡ k.key_data
      → Opens a plain d j
  unfolding seal encrypt_aes_gcm encrypt_chacha20
  sealed-Opens aes_256_gcm nonce plain d k j h same =
      elim (Option-cases (lib.gcm_encrypt k.key_data nonce plain)) [
        | inl e ↦ absurd (let r = rw (encrypt_aes_gcm, e) at h in cc)
        | inr ((ciphertext, tag), e) ↦
            let r = rw (encrypt_aes_gcm, e) at h in
            let right : record { ciphertext = ciphertext; nonce = nonce; tag = tag } ≡ d =
              ground arith in
            rw (← right) (gcm-Opens nonce plain ciphertext tag k j e same)
      ]
  sealed-Opens chacha20_poly1305 nonce plain d k j h same =
      elim (Option-cases (lib.chacha_encrypt k.key_data nonce plain)) [
        | inl e ↦ absurd (let r = rw (encrypt_chacha20, e) at h in cc)
        | inr (ciphertext, e) ↦
            let r = rw (encrypt_chacha20, e) at h in
            let right : record {
              ciphertext = ciphertext;
              nonce = nonce;
              tag = drop (length ciphertext - 16) ciphertext;
            }
                ≡ d =
              ground arith in
            rw (← right) (chacha-Opens nonce plain ciphertext _ k j e same)
      ]
  sealed-Opens aes_256_cbc nonce plain d k j h same = absurd (let r = h in cc)

  pub decrypt-encrypt_under :
      (input : Input) (nonce : List ℕ) (k j : EncryptionKey) (e : Encrypted)
      → encrypt_under lib input nonce k ≡ ok e
      → j.key_data ≡ k.key_data
      → (decrypt_under lib e j ≡ ok (to_bytes lib input)) × (e.key_id ≡ k.key_id)
  unfolding encrypt_under decrypt_under Opens
  decrypt-encrypt_under input nonce k j e h same =
      elim (Result-cases (seal lib k.algorithm nonce (to_bytes lib input) k)) [
        | inr (x, r) ↦ absurd (let q = rw (encrypt_under, r) at h in cc)
        | inl (d, r) ↦
            let q = rw (encrypt_under, r) at h in
            let right : envelope lib k d ≡ e = ground arith in
            let (tag, decoded, opened) =
              sealed-Opens k.algorithm nonce (to_bytes lib input) d k j r same in
            rw (← right) (rw (decrypt_under, decoded) opened, refl)
      ]
