-- ===== src/Encryption/Stored.antt =====
-- The files of `LocalKeyManager` of core/encryption_manager.py: what is written is read back.
use bt_api_security.Prelude.{
  String, ℕ, ◌≡◌, refl, ap, ◌∙◌, ◌≢◌, inl, inr, true, none, some, List, arith, Bool-cases, nat_Eq,
  string_Eq, ok,
}
use bt_api_security.Dict.Laws.{
  lookup-insert_self, lookup-insert_ne, lookup-erase_self, lookup-erase_ne,
}
use bt_api_security.Encryption.Types.{
  KeyProvider, EncryptionAlgorithm, aes_256_gcm, aes_256_cbc, chacha20_poly1305, local, aws_kms,
  hashicorp_vault, hsm, provider_value, algorithm_value, provider_of, algorithm_of, EncryptionKey,
  to_dict, Draw, KeyManager,
}
use bt_api_security.Encryption.Local.{
  Storage, LocalKeyManager, store_key, new_key, is_supported, generate_key, from_dict, read_key,
  get_from, get_key, delete_key, local_manager,
}
use bt_api_security.Encryption.Interface.{Holds, HoldsKey, Avoids}

-- Fernet after itself under one key.
pub record StorageLaws (lib : Storage) : Type 0 where
  pub decrypt-encrypt :
      (master_key seed key_data : List ℕ)
      → lib.fernet_decrypt master_key (lib.fernet_encrypt master_key seed key_data) ≡ some key_data

provider_of-value : (p : KeyProvider) → provider_of (provider_value p) ≡ some p
unfolding provider_of provider_value
provider_of-value local = refl
provider_of-value aws_kms = refl
provider_of-value hashicorp_vault = refl
provider_of-value hsm = refl

algorithm_of-value : (a : EncryptionAlgorithm) → algorithm_of (algorithm_value a) ≡ some a
unfolding algorithm_of algorithm_value
algorithm_of-value aes_256_gcm = refl
algorithm_of-value aes_256_cbc = refl
algorithm_of-value chacha20_poly1305 = refl

pub get-delete_self :
    (lib : Storage) (key_id : String) (s : LocalKeyManager)
    → get_key lib key_id (delete_key lib key_id s) ≡ ok none
unfolding get_key get_from delete_key
get-delete_self lib key_id s = rw (get_key, lookup-erase_self key_id s.key_files) refl

module _ (lib : Storage) (laws : StorageLaws lib) where
  from_dict-to_dict : (k : EncryptionKey) → from_dict lib (to_dict k) k.key_data ≡ some k
  unfolding from_dict to_dict
  from_dict-to_dict k =
      rw (from_dict, algorithm_of-value k.algorithm, provider_of-value k.provider) refl

  read-stored :
      (master_key seed : List ℕ) (k : EncryptionKey)
      → read_key lib master_key (lib.fernet_encrypt master_key seed k.key_data) (some (to_dict k))
        ≡ some k
  unfolding read_key
  read-stored master_key seed k =
      rw (read_key, laws.decrypt-encrypt master_key seed k.key_data, from_dict-to_dict k) refl

  -- A stored key is read back, and the keys of other ids are as before.
  pub get-store_self :
      (seed : List ℕ) (k : EncryptionKey) (s : LocalKeyManager)
      → get_key lib k.key_id (store_key lib seed k s) ≡ ok (some k)
  unfolding get_key get_from store_key
  get-store_self seed k s =
      rw
        (
          get_key,
          lookup-insert_self k.key_id (lib.fernet_encrypt s.master_key seed k.key_data) s.key_files,
          lookup-insert_self k.key_id (some (to_dict k)) s.meta_files,
          get_from,
          read-stored s.master_key seed k,
        )
        refl

  pub get-store_ne :
      (seed : List ℕ) (k : EncryptionKey) (key_id : String) (s : LocalKeyManager)
      → k.key_id ≢ key_id
      → get_key lib key_id (store_key lib seed k s) ≡ get_key lib key_id s
  unfolding get_key get_from store_key
  get-store_ne seed k key_id s other =
      rw
        (
          get_key,
          lookup-insert_ne k.key_id key_id (lib.fernet_encrypt s.master_key seed k.key_data)
              s.key_files other,
          lookup-insert_ne k.key_id key_id (some (to_dict k)) s.meta_files other,
        )
        refl

  pub get-delete_ne :
      (gone key_id : String) (s : LocalKeyManager)
      → gone ≢ key_id
      → get_key lib key_id (delete_key lib gone s) ≡ get_key lib key_id s
  unfolding get_key get_from delete_key
  get-delete_ne gone key_id s other =
      rw
        (
          get_key,
          lookup-erase_ne gone key_id s.key_files other,
          lookup-erase_ne gone key_id s.meta_files other,
        )
        refl

  abbrev pub manager : KeyManager LocalKeyManager
  manager = local_manager lib

  -- A store of another key, or of the same one with the same data, keeps a key.
  pub store-Holds :
      (seed : List ℕ) (k : EncryptionKey) (s : LocalKeyManager)
      → HoldsKey manager k (store_key lib seed k s)
  store-Holds seed k s = record {
    found = λ now.
        (k, ap (λ r. (r, store_key lib seed k s)) (get-store_self seed k s), refl, refl, refl);
  }

  pub moved-Holds :
      (key_id : String) (key_data : List ℕ) (held : EncryptionAlgorithm) (s t : LocalKeyManager)
      → get_key lib key_id t ≡ get_key lib key_id s
      → Holds manager key_id key_data held s
      → Holds manager key_id key_data held t
  moved-Holds key_id key_data held s t e h = record {
    found = λ now.
        let (k, found, id, bytes, algorithm) = h.found now in
        (k, ap (λ r. (r, t)) (e ∙ ap (λ p. p.0) found), id, bytes, algorithm);
  }

  pub generate_holds :
      (d : Draw) (algorithm : EncryptionAlgorithm) (k : EncryptionKey) (s : LocalKeyManager)
      → (generate_key lib d algorithm s).0 ≡ ok k
      → HoldsKey manager k (generate_key lib d algorithm s).1
        × (k.is_active ≡ true)
        × (k.algorithm ≡ algorithm)
  unfolding generate_key
  generate_holds d algorithm k s h = elim (Bool-cases (is_supported lib algorithm)) [
    | inr no' ↦ absurd (let j = rw no' at h in cc)
    | inl supported ↦
        let j = rw supported at h in
        let e : new_key lib d algorithm ≡ k = ground arith in
        rw (supported, ← e) (store-Holds d.seed (new_key lib d algorithm) s, refl, refl)
  ]

  pub generate_keeps :
      (d : Draw) (algorithm : EncryptionAlgorithm) (key_id : String) (key_data : List ℕ)
      (held : EncryptionAlgorithm) (s : LocalKeyManager)
      → Avoids key_id (generate_key lib d algorithm s).0
      → Holds manager key_id key_data held s
      → Holds manager key_id key_data held (generate_key lib d algorithm s).1
  unfolding generate_key
  generate_keeps d algorithm key_id key_data held s avoids h =
      elim (Bool-cases (is_supported lib algorithm)) [
        | inr no' ↦ rw no' h
        | inl supported ↦
            let other = rw supported at avoids in
            rw supported (
              moved-Holds key_id key_data held s _
                (get-store_ne d.seed (new_key lib d algorithm) key_id s other) h)
      ]
