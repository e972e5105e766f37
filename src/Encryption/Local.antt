-- ===== src/Encryption/Local.antt =====
-- `LocalKeyManager` of core/encryption_manager.py. A file named after a key is an entry under the
-- key's id; file operations succeed.
use bt_api_security.Prelude.{
  String, ℕ, Bool, true, false, Option, none, some, List, if◌then◌else◌, nat_Eq, string_Eq, Result,
  ok, err, Exec, ◌>>=◌, ◌>>◌, pure, modify, or_raise, whole_seconds,
}
use bt_api_security.Prelude.Text.{◌^◌}
use bt_api_security.Prelude.Decimal.{decimal}
use bt_api_security.Dict.{Dict, lookup, insert, erase}
use bt_api_security.Encryption.Types.{
  local, EncryptionAlgorithm, aes_256_gcm, aes_256_cbc, chacha20_poly1305, provider_of,
  algorithm_of, EncryptionKey, Metadata, to_dict, EncryptionError, cryptography_required,
  unsupported_algorithm, retrieve_failed, key_not_found, Draw, KeyManager,
}

-- `hashlib` and `cryptography`: digest, key derivation (salt, iterations, password), and Fernet
-- under a key. `none` is an exception.
pub record Storage : Type 0 where
  pub utf8 : String → List ℕ
  pub sha256 : List ℕ → List ℕ
  pub pbkdf2 : List ℕ → ℕ → List ℕ → List ℕ
  pub fernet_encrypt : List ℕ → List ℕ → List ℕ → List ℕ
  pub fernet_decrypt : List ℕ → List ℕ → Option (List ℕ)

-- What `json.load` makes of a file: the dictionary of a key, or an exception, also where a field is
-- missing.
abbrev pub MetaFile : Type 0
MetaFile = Option Metadata

pub record LocalKeyManager : Type 0 where
  pub master_password : String
  pub master_key : List ℕ
  pub key_files : Dict (List ℕ)
  pub meta_files : Dict MetaFile

module _ (lib : Storage) where
  unfoldable pub derive_master_key : String → List ℕ
  derive_master_key password =
      lib.pbkdf2 (lib.sha256 (lib.utf8 password)) 100000 (lib.utf8 password)

  -- `__init__` on a directory with such files; `crypto` tells whether `cryptography` is installed.
  unfoldable pub init :
      Bool → Dict (List ℕ) → Dict MetaFile → String → Result EncryptionError LocalKeyManager
  unfolding derive_master_key
  init false key_files meta_files password = err cryptography_required
  init true key_files meta_files password = ok (record {
    master_password = password;
    master_key = derive_master_key password;
    key_files = key_files;
    meta_files = meta_files;
  })

  unfoldable pub store_key : List ℕ → EncryptionKey → LocalKeyManager → LocalKeyManager
  unfolding to_dict
  store_key seed k s = record s {
    key_files = insert k.key_id (lib.fernet_encrypt s.master_key seed k.key_data) s.key_files;
    meta_files = insert k.key_id (some (to_dict k)) s.meta_files;
  }

  abbrev pub new_id : Draw → String
  new_id d = "key_" ^ decimal (whole_seconds d.named_at) ^ "_" ^ d.suffix

  abbrev pub new_key : Draw → EncryptionAlgorithm → EncryptionKey
  new_key d algorithm = record {
    key_id = new_id d;
    key_data = d.key_bytes;
    algorithm = algorithm;
    created_at = d.created_at;
    provider = local;
    key_size = 256;
    is_active = true;
  }

  abbrev pub is_supported : EncryptionAlgorithm → Bool
  is_supported aes_256_gcm = true
  is_supported aes_256_cbc = false
  is_supported chacha20_poly1305 = true

  unfoldable pub generate_key :
      Draw → EncryptionAlgorithm → Exec EncryptionError LocalKeyManager EncryptionKey
  unfolding store_key
  generate_key d algorithm s =
      if is_supported algorithm
      then (ok (new_key d algorithm), store_key d.seed (new_key d algorithm) s)
      else (err (unsupported_algorithm algorithm), s)

  -- The key of a dictionary and key data; `none` is a `ValueError`.
  unfoldable pub from_dict : Metadata → List ℕ → Option EncryptionKey
  unfolding algorithm_of provider_of
  from_dict m key_data = elim (algorithm_of m.algorithm) [
    | none ↦ none
    | some algorithm ↦ elim (provider_of m.provider) [
      | none ↦ none
      | some provider ↦ some (record {
        key_id = m.key_id;
        key_data = key_data;
        algorithm = algorithm;
        created_at = m.created_at;
        provider = provider;
        key_size = m.key_size;
        is_active = m.is_active;
      })
    ]
  ]

  -- The part of `get_key` under `try`.
  unfoldable pub read_key : List ℕ → List ℕ → MetaFile → Option EncryptionKey
  unfolding from_dict
  read_key master_key encrypted meta = elim (meta) [
    | none ↦ none
    | some m ↦ elim (lib.fernet_decrypt master_key encrypted) [
      | none ↦ none
      | some key_data ↦ from_dict m key_data
    ]
  ]

  -- What `get_key` does with what it finds of the two files.
  unfoldable pub get_from :
      List ℕ
      → String
      → Option (List ℕ)
      → Option MetaFile
      → Result EncryptionError (Option EncryptionKey)
  unfolding read_key
  get_from master_key key_id none meta = ok none
  get_from master_key key_id (some encrypted) none = ok none
  get_from master_key key_id (some encrypted) (some meta) =
      elim (read_key master_key encrypted meta) [
        | none ↦ err (retrieve_failed key_id)
        | some k ↦ ok (some k)
      ]

  unfoldable pub get_key : String → LocalKeyManager → Result EncryptionError (Option EncryptionKey)
  unfolding get_from
  get_key key_id s =
      get_from s.master_key key_id (lookup key_id s.key_files) (lookup key_id s.meta_files)

  abbrev pub retire : EncryptionKey → EncryptionKey
  retire k = record k { is_active = false }

  -- What follows once the key is found: a new key, and the old one stored as inactive.
  unfoldable pub replace_key :
      Draw → EncryptionKey → Exec EncryptionError LocalKeyManager EncryptionKey
  unfolding generate_key store_key
  replace_key d old =
      generate_key d old.algorithm >>= λ k. modify (store_key d.old_seed (retire old)) >> pure k

  unfoldable pub rotate_key : Draw → String → Exec EncryptionError LocalKeyManager EncryptionKey
  unfolding get_key replace_key
  rotate_key d key_id = (λ s. (get_key key_id s, s)) >>= λ found.
      or_raise found (key_not_found key_id) >>= replace_key d

  unfoldable pub delete_key : String → LocalKeyManager → LocalKeyManager
  delete_key key_id s = record s {
    key_files = erase key_id s.key_files;
    meta_files = erase key_id s.meta_files;
  }

  abbrev pub local_manager : KeyManager LocalKeyManager
  local_manager = record {
    generate_key = generate_key;
    get_key = λ now key_id s. (get_key key_id s, s);
    rotate_key = λ d now. rotate_key d;
    delete_key = λ key_id. modify (delete_key key_id);
  }
