-- ===== src/Encryption/Tests.antt =====
-- Concrete runs of core/encryption_manager.py.
use bt_api_security.Prelude.{
  String, ℕ, ◌*◌, ◌≡◌, refl, ap, ◌≢◌, inl, inr, true, false, none, some, List, [], ◌∷◌, ◌++◌, arith,
  eq_iff, nat_eq, if◌then◌else◌, Bool-cases, ◌==◌, nat_Eq, string_Eq, length, Result, ok, err,
  second,
}
use bt_api_security.Prelude.Decimal.{decimal}
use bt_api_security.Dict.{lookup, insert}
use bt_api_security.Encryption.Types.{
  aes_256_gcm, chacha20_poly1305, to_dict, algorithm_value, provider_value, algorithm_of,
  provider_of, EncryptionError, EncryptionKey, key_not_found, Draw,
}
use bt_api_security.Encryption.Local.{
  Storage, LocalKeyManager, new_key, store_key, from_dict, read_key, get_from, get_key,
  generate_key, rotate_key, replace_key, delete_key, local_manager,
}
use bt_api_security.Encryption.Stored.{StorageLaws}
use bt_api_security.Encryption.Interface.{IsLawful}
use bt_api_security.Encryption.LocalLaws.{local-IsLawful}
use bt_api_security.Encryption.Remote.{Kms, Vault, aws_manager, vault_manager}
use bt_api_security.Encryption.Manager
use bt_api_security.Encryption.Manager.{
  Sealed, Ciphers, EncryptionManager, Encrypted, bytes, encrypt_aes_gcm, seal, encrypt_under,
  get_active_key, choose_key, encrypt, decrypt, rotate_keys,
}
use bt_api_security.Encryption.Ciphers.{CipherLaws}
use bt_api_security.Encryption.RoundTrip.{Reach, here, next, rotate_step, decrypts_later}
use bt_api_security.Encryption.Fresh.{Accepts, fresh_manager, fresh_round_trip}
use bt_api_security.Encryption.Errors.{RefusesEmpty, deleted_refused, remote_raises}

abbrev plain_storage : Storage
plain_storage = record {
  utf8 = λ t. [];
  sha256 = λ b. b;
  pbkdf2 = λ salt iterations password. salt;
  fernet_encrypt = λ key seed plain. plain;
  fernet_decrypt = λ key b. some b;
}

files : StorageLaws plain_storage
files = record { decrypt-encrypt = λ key seed plain. refl }

abbrev sixteen : List ℕ
sixteen = 1 ∷ 2 ∷ 3 ∷ 4 ∷ 5 ∷ 6 ∷ 7 ∷ 8 ∷ 9 ∷ 10 ∷ 11 ∷ 12 ∷ 13 ∷ 14 ∷ 15 ∷ 16 ∷ []

abbrev twelve : List ℕ
twelve = 1 ∷ 2 ∷ 3 ∷ 4 ∷ 5 ∷ 6 ∷ 7 ∷ 8 ∷ 9 ∷ 10 ∷ 11 ∷ 12 ∷ []

-- The ciphertext is the data; keys are 32 bytes long.
abbrev ciphers : Ciphers
ciphers = record {
  utf8 = λ t. [];
  gcm_encrypt = λ key nonce plain. if nat_eq (length key) 32 then some (plain, sixteen) else none;
  gcm_decrypt = λ key nonce tag ciphertext. some ciphertext;
  chacha_encrypt = λ key nonce plain. if nat_eq (length key) 32 then some plain else none;
  chacha_decrypt = λ key nonce ciphertext. some ciphertext;
  rsa_key_pair = λ n. none;
  rsa_encrypt = λ key plain. none;
  rsa_decrypt = λ key ciphertext. none;
}

opens_gcm :
    (key nonce plain ciphertext tag : List ℕ)
    → ciphers.gcm_encrypt key nonce plain ≡ some (ciphertext, tag)
    → (ciphers.gcm_decrypt key nonce tag ciphertext ≡ some plain) × (length tag ≡ 16)
opens_gcm key nonce plain ciphertext tag h = elim (Bool-cases (nat_eq (length key) 32)) [
  | inr short ↦ absurd (let j = rw short at h in cc)
  | inl long ↦
      let j = rw long at h in
      let same : ciphertext ≡ plain = ground arith in
      let right : sixteen ≡ tag = ground arith in (ap some same, rw (← right) refl)
]

ciphers_law : CipherLaws ciphers
ciphers_law = record {
  gcm_opens = opens_gcm;
  chacha_opens = λ key nonce plain ciphertext h. ground arith;
}

ciphers_accept : Accepts ciphers
ciphers_accept = record {
  gcm = λ key nonce plain long least most short. ((plain, sixteen), rw long refl);
  chacha = λ key nonce plain long nonce_size short. (plain, rw long refl);
}

ciphers_refuse : RefusesEmpty ciphers
ciphers_refuse = record { gcm = λ nonce plain. refl; chacha = λ nonce plain. refl }

local-IsLawful_example : IsLawful (local_manager plain_storage)
local-IsLawful_example = local-IsLawful plain_storage files

abbrev draw : String → Draw
draw suffix = record {
  key_bytes = sixteen ++ sixteen;
  suffix = suffix;
  named_at = 5 * second;
  created_at = 5 * second;
  seed = [];
  old_seed = [];
}

abbrev no_keys : LocalKeyManager
no_keys = record { master_password = "pw"; master_key = []; key_files = []; meta_files = [] }

abbrev Opened : Encrypted → EncryptionManager LocalKeyManager → Type 0
Opened e t = decrypt ciphers (local_manager plain_storage) 9 e t ≡ (ok (7 ∷ 8 ∷ []), t)

fresh_round_trip_example :
    (e : Encrypted) × ((encrypt ciphers
        (local_manager plain_storage)
        (draw "aa")
        5
        twelve
        (bytes (7 ∷ 8 ∷ []))
        none
        (fresh_manager no_keys chacha20_poly1305)).0
      ≡ ok e)
    × ((t : EncryptionManager LocalKeyManager)
        → Reach ciphers
            (local_manager plain_storage)
            e.key_id
            (encrypt ciphers
              (local_manager plain_storage)
              (draw "aa")
              5
              twelve
              (bytes (7 ∷ 8 ∷ []))
              none
              (fresh_manager no_keys chacha20_poly1305)).1
            t
        → Opened e t)
fresh_round_trip_example =
    fresh_round_trip ciphers ciphers_law ciphers_accept plain_storage files (draw "aa") 5 9 twelve
      (bytes (7 ∷ 8 ∷ [])) chacha20_poly1305 no_keys refl refl refl (omega arith)

abbrev first : Result EncryptionError Encrypted × EncryptionManager LocalKeyManager
first =
    encrypt ciphers (local_manager plain_storage) (draw "aa") 5 [] (bytes (7 ∷ 8 ∷ [])) none
      (fresh_manager no_keys aes_256_gcm)

abbrev envelope : Encrypted
envelope = record {
  key_id = "key_5_aa";
  algorithm = "aes_256_gcm";
  encrypted_data = some (7 ∷ 8 ∷ []);
  nonce = some [];
  tag = some (some sixteen);
}

abbrev rotated : EncryptionManager LocalKeyManager
rotated = (rotate_keys ciphers (local_manager plain_storage) (draw "bb") (draw "cc") 6 first.1).1

apart : (a b : String) → (a == b) ≡ false → a ≢ b
apart a b h e = absurd (ground (arith, eq_iff a b))

-- The active key has been rotated since.
rotated-Reach : Reach ciphers (local_manager plain_storage) "key_5_aa" first.1 rotated
unfolding encrypt choose_key get_active_key generate_key decimal store_key rotate_key replace_key
    get_key get_from read_key from_dict to_dict algorithm_of provider_of algorithm_value
    provider_value lookup insert
rotated-Reach = next here (
    rotate_step (draw "bb") (draw "cc") 6 (apart "key_5_bb" "key_5_aa" refl) (λ old e.
      let same : new_key plain_storage (draw "aa") aes_256_gcm ≡ old = ground arith in
      rw (← same) (apart "key_5_cc" "key_5_aa" refl, apart "key_5_cc" "key_5_aa" refl)))

decrypts_later_example :
    decrypt ciphers (local_manager plain_storage) 9 envelope rotated ≡ (ok (7 ∷ 8 ∷ []), rotated)
unfolding encrypt choose_key get_active_key generate_key encrypt_under seal encrypt_aes_gcm
    algorithm_value decimal
decrypts_later_example =
    decrypts_later ciphers ciphers_law (local_manager plain_storage) local-IsLawful_example
      (draw "aa") 5 9 [] (bytes (7 ∷ 8 ∷ [])) none envelope (fresh_manager no_keys aes_256_gcm)
      rotated (record { at = λ k there. absurd (let j = there in cc) }) tt refl rotated-Reach

-- The active key has been deleted.
abbrev after_delete : EncryptionManager LocalKeyManager
after_delete = record first.1 { keys = delete_key plain_storage "key_5_aa" first.1.keys }

abbrev deleted_key : EncryptionKey
deleted_key = new_key plain_storage (draw "aa") aes_256_gcm

abbrev still_active : EncryptionManager LocalKeyManager
still_active = record after_delete { active_key = some deleted_key }

abbrev gcm_sealed : Sealed
gcm_sealed = record { ciphertext = 7 ∷ 8 ∷ []; nonce = []; tag = sixteen }

deleted_refused_example :
    (encrypt ciphers
        (local_manager plain_storage)
        (draw "bb")
        6
        []
        (bytes (7 ∷ 8 ∷ []))
        (some "key_5_aa")
        after_delete
      ≡ (err (key_not_found "key_5_aa"), after_delete))
    × (decrypt ciphers (local_manager plain_storage) 9 envelope after_delete
        ≡ (err (key_not_found "key_5_aa"), after_delete))
    × (encrypt ciphers
          (local_manager plain_storage)
          (draw "bb")
          6
          []
          (bytes (7 ∷ 8 ∷ []))
          none
          still_active
        ≡ (encrypt_under ciphers (bytes (7 ∷ 8 ∷ [])) [] deleted_key, still_active))
    × (decrypt ciphers
          (local_manager plain_storage)
          9
          (Manager.envelope ciphers deleted_key gcm_sealed)
          still_active
        ≡ (err (key_not_found "key_5_aa"), still_active))
unfolding decimal
deleted_refused_example =
    deleted_refused ciphers plain_storage "key_5_aa" (draw "bb") 6 9 [] (bytes (7 ∷ 8 ∷ []))
      envelope deleted_key gcm_sealed first.1.keys after_delete still_active refl refl refl refl
      refl refl

abbrev kms : Kms (Unit {0})
kms = record {
  create_key = λ description c. (some "arn", c);
  describe_key = λ key_id c. (some (key_id, "Enabled"), c);
  rotate_key = λ key_id c. (true, c);
  schedule_key_deletion = λ key_id days c. (true, c);
}

abbrev vault : Vault (Unit {0})
vault = record {
  create_key = λ name type c. (true, c);
  read_key = λ name c. (none, c);
  rotate_key = λ name c. (true, c);
  delete_key = λ name c. (true, c);
}

abbrev remote : EncryptionManager (Unit {0})
remote = record { keys = tt; default_algorithm = aes_256_gcm; active_key = none }

remote_raises_example :
    ((x : EncryptionError) × ((encrypt ciphers
          (aws_manager kms)
          (draw "aa")
          5
          []
          (bytes (7 ∷ []))
          none
          remote).0
        ≡ err x))
    × ((x : EncryptionError) × ((encrypt ciphers
            (vault_manager vault)
            (draw "aa")
            5
            []
            (bytes (7 ∷ []))
            none
            remote).0
          ≡ err x))
remote_raises_example =
    remote_raises ciphers ciphers_refuse kms vault (draw "aa") 5 [] (bytes (7 ∷ [])) none remote
      (λ n there. absurd (let j = there in cc))
