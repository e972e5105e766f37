-- ===== src/Encryption/Types.antt =====
-- The enumerations, keys and errors of core/encryption_manager.py, and the `KeyManager` class.
use bt_api_security.Prelude.{
  String, ℕ, Bool, Option, none, some, List, if◌then◌else◌, ◌==◌, nat_Eq, string_Eq, Exec,
}

pub data KeyProvider : Type 0 where
  local aws_kms hashicorp_vault hsm : KeyProvider

pub data EncryptionAlgorithm : Type 0 where
  aes_256_gcm aes_256_cbc chacha20_poly1305 : EncryptionAlgorithm

unfoldable pub provider_value : KeyProvider → String
provider_value local = "local"
provider_value aws_kms = "aws_kms"
provider_value hashicorp_vault = "hashicorp_vault"
provider_value hsm = "hsm"

unfoldable pub algorithm_value : EncryptionAlgorithm → String
algorithm_value aes_256_gcm = "aes_256_gcm"
algorithm_value aes_256_cbc = "aes_256_cbc"
algorithm_value chacha20_poly1305 = "chacha20_poly1305"

-- `KeyProvider(v)` and `EncryptionAlgorithm(v)`; `none` is a `ValueError`.
unfoldable pub provider_of : String → Option KeyProvider
provider_of v =
    if v == "local"
    then some local
    else if v == "aws_kms"
    then some aws_kms
    else if v == "hashicorp_vault"
    then some hashicorp_vault
    else if v == "hsm"
    then some hsm
    else none

unfoldable pub algorithm_of : String → Option EncryptionAlgorithm
algorithm_of v =
    if v == "aes_256_gcm"
    then some aes_256_gcm
    else if v == "aes_256_cbc"
    then some aes_256_cbc
    else if v == "chacha20_poly1305"
    then some chacha20_poly1305
    else none

pub record EncryptionKey : Type 0 where
  pub key_id : String
  pub key_data : List ℕ
  pub algorithm : EncryptionAlgorithm
  pub created_at : ℕ
  pub provider : KeyProvider
  pub key_size : ℕ
  pub is_active : Bool

-- The dictionary that a key is stored as.
pub record Metadata : Type 0 where
  pub key_id : String
  pub algorithm : String
  pub created_at : ℕ
  pub provider : String
  pub key_size : ℕ
  pub is_active : Bool

unfoldable pub to_dict : EncryptionKey → Metadata
unfolding algorithm_value provider_value
to_dict k = record {
  key_id = k.key_id;
  algorithm = algorithm_value k.algorithm;
  created_at = k.created_at;
  provider = provider_value k.provider;
  key_size = k.key_size;
  is_active = k.is_active;
}

-- The messages of `EncryptionError`, and `library` for an exception of the libraries that is passed
-- on.
pub data EncryptionError : Type 0 where
  cryptography_required boto3_required hvac_required not_authenticated vault_arguments_required
        tag_required library :
      EncryptionError
  unsupported_algorithm : EncryptionAlgorithm → EncryptionError
  unknown_algorithm : String → EncryptionError
  unsupported_provider : KeyProvider → EncryptionError
  retrieve_failed key_not_found not_found_after_rotation rotate_failed delete_failed :
      String → EncryptionError
  create_failed : EncryptionError

-- What a call takes from outside: the clock, twice, and random bytes. `suffix` is
-- `os.urandom(4).hex()`, `seed` is what Fernet draws.
pub record Draw : Type 0 where
  pub key_bytes : List ℕ
  pub suffix : String
  pub named_at : ℕ
  pub created_at : ℕ
  pub seed : List ℕ
  pub old_seed : List ℕ

-- The abstract class, for managers whose state is an `S`. A number is the clock.
pub record KeyManager (S : Type 0) : Type 0 where
  pub generate_key : Draw → EncryptionAlgorithm → Exec EncryptionError S EncryptionKey
  pub get_key : ℕ → String → Exec EncryptionError S (Option EncryptionKey)
  pub rotate_key : Draw → ℕ → String → Exec EncryptionError S EncryptionKey
  pub delete_key : String → Exec EncryptionError S (Unit {0})
