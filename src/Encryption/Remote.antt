-- ===== src/Encryption/Remote.antt =====
-- `AWSKMSKeyManager` and `HashiCorpVaultKeyManager` of core/encryption_manager.py. The services are
-- parameters: each call answers, `none` or `false` for an exception, and leaves a state of type `C`.
use bt_api_security.Prelude.{
  String, ℕ, Bool, true, false, Option, none, some, [], nat_eq, if◌then◌else◌, ◌==◌, nat_Eq,
  string_Eq, Result, ok, err, Exec, ◌>>=◌, pure, or_raise, whole_seconds,
}
use bt_api_security.Prelude.Text.{◌^◌}
use bt_api_security.Prelude.Decimal.{decimal}
use bt_api_security.Encryption.Types.{
  aws_kms, hashicorp_vault, EncryptionAlgorithm, aes_256_gcm, aes_256_cbc, chacha20_poly1305,
  algorithm_value, EncryptionKey, EncryptionError, boto3_required, hvac_required, not_authenticated,
  create_failed, rotate_failed, delete_failed, not_found_after_rotation, Draw, KeyManager,
}

-- `boto3`: the id of a created key for a description, id and state of a key, rotation, and
-- deletion in some days.
pub record Kms (C : Type 0) : Type 0 where
  pub create_key : String → C → Option String × C
  pub describe_key : String → C → Option (String × String) × C
  pub rotate_key : String → C → Bool × C
  pub schedule_key_deletion : String → ℕ → C → Bool × C

pub record VaultKey : Type 0 where
  pub type : String
  pub creation_time : ℕ
  pub deletion_time : ℕ

-- `hvac`: `secrets.transit`; a deletion time of 0 is one that is missing.
pub record Vault (C : Type 0) : Type 0 where
  pub create_key : String → String → C → Bool × C
  pub read_key : String → C → Option VaultKey × C
  pub rotate_key : String → C → Bool × C
  pub delete_key : String → C → Bool × C

-- A call that either succeeds or raises `e`.
abbrev pub or_fail : {A C : Type 0} → EncryptionError → Option A × C → Result EncryptionError A × C
or_fail e (none, c) = (err e, c)
or_fail e (some a, c) = (ok a, c)

abbrev pub or_fail_if :
    {C : Type 0} → EncryptionError → Bool × C → Result EncryptionError (Unit {0}) × C
or_fail_if e (false, c) = (err e, c)
or_fail_if e (true, c) = (ok tt, c)

-- A call whose exceptions count as no answer.
abbrev pub or_none :
    {A B C : Type 0} → (A → B) → Option A × C → Result EncryptionError (Option B) × C
or_none f (none, c) = (ok none, c)
or_none f (some a, c) = (ok (some (f a)), c)

unfoldable pub init_aws : {C : Type 0} → Bool → C → Result EncryptionError C
init_aws false client = err boto3_required
init_aws true client = ok client

unfoldable pub init_vault :
    {C : Type 0} → (hvac authenticated : Bool) → C → Result EncryptionError C
init_vault false authenticated client = err hvac_required
init_vault true false client = err not_authenticated
init_vault true true client = ok client

abbrev pub kms_key : EncryptionAlgorithm → ℕ → String → Bool → EncryptionKey
kms_key algorithm now key_id is_active = record {
  key_id = key_id;
  key_data = [];
  algorithm = algorithm;
  created_at = now;
  provider = aws_kms;
  key_size = 256;
  is_active = is_active;
}

abbrev pub vault_key : EncryptionAlgorithm → ℕ → String → Bool → EncryptionKey
vault_key algorithm now key_id is_active = record {
  key_id = key_id;
  key_data = [];
  algorithm = algorithm;
  created_at = now;
  provider = hashicorp_vault;
  key_size = 256;
  is_active = is_active;
}

-- What both managers do once a rotation succeeded.
abbrev pub found_after_rotation :
    {C : Type 0} → String → Option EncryptionKey → Exec EncryptionError C EncryptionKey
found_after_rotation key_id found = or_raise found (not_found_after_rotation key_id)

module _ {C : Type 0} (kms : Kms C) where
  unfoldable pub generate_aws : Draw → EncryptionAlgorithm → Exec EncryptionError C EncryptionKey
  unfolding algorithm_value
  generate_aws d algorithm =
      (λ c.
        or_fail create_failed
          (kms.create_key ("bt_api_py " ^ algorithm_value algorithm ^ " key") c))
      >>= λ key_id. pure (kms_key algorithm d.created_at key_id true)

  unfoldable pub get_aws : ℕ → String → Exec EncryptionError C (Option EncryptionKey)
  get_aws now key_id c =
      or_none (λ (id, state). kms_key aes_256_gcm now id (state == "Enabled"))
        (kms.describe_key key_id c)

  unfoldable pub rotate_aws : ℕ → String → Exec EncryptionError C EncryptionKey
  unfolding get_aws
  rotate_aws now key_id =
      (λ c. or_fail_if (rotate_failed key_id) (kms.rotate_key key_id c)) >>= λ u.
      get_aws now key_id >>= found_after_rotation key_id

  unfoldable pub delete_aws : String → Exec EncryptionError C (Unit {0})
  delete_aws key_id c = or_fail_if (delete_failed key_id) (kms.schedule_key_deletion key_id 7 c)

  abbrev pub aws_manager : KeyManager C
  aws_manager = record {
    generate_key = generate_aws;
    get_key = get_aws;
    rotate_key = λ d. rotate_aws;
    delete_key = delete_aws;
  }

unfoldable pub get_vault_key_type : EncryptionAlgorithm → String
get_vault_key_type aes_256_gcm = "aes256-gcm96"
get_vault_key_type chacha20_poly1305 = "chacha20-poly1305"
get_vault_key_type aes_256_cbc = "aes256-gcm96"

unfoldable pub parse_vault_type : String → EncryptionAlgorithm
parse_vault_type t =
    if t == "aes256-gcm96"
    then aes_256_gcm
    else if t == "chacha20-poly1305"
    then chacha20_poly1305
    else aes_256_gcm

module _ {C : Type 0} (vault : Vault C) where
  unfoldable pub generate_vault : Draw → EncryptionAlgorithm → Exec EncryptionError C EncryptionKey
  unfolding algorithm_value get_vault_key_type
  generate_vault d algorithm =
      let name =
        "bt_api_py_" ^ algorithm_value algorithm ^ "_" ^ decimal (whole_seconds d.named_at) in
      (λ c. or_fail_if create_failed (vault.create_key name (get_vault_key_type algorithm) c))
      >>= λ u. pure (vault_key algorithm d.created_at name true)

  unfoldable pub get_vault : String → Exec EncryptionError C (Option EncryptionKey)
  unfolding parse_vault_type
  get_vault key_id c =
      or_none
        (λ k. vault_key (parse_vault_type k.type) k.creation_time key_id (nat_eq k.deletion_time 0))
        (vault.read_key key_id c)

  unfoldable pub rotate_vault : String → Exec EncryptionError C EncryptionKey
  unfolding get_vault
  rotate_vault key_id =
      (λ c. or_fail_if (rotate_failed key_id) (vault.rotate_key key_id c)) >>= λ u.
      get_vault key_id >>= found_after_rotation key_id

  unfoldable pub delete_vault : String → Exec EncryptionError C (Unit {0})
  delete_vault key_id c = or_fail_if (delete_failed key_id) (vault.delete_key key_id c)

  abbrev pub vault_manager : KeyManager C
  vault_manager = record {
    generate_key = generate_vault;
    get_key = λ now. get_vault;
    rotate_key = λ d now. rotate_vault;
    delete_key = delete_vault;
  }
