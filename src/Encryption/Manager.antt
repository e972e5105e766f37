-- ===== src/Encryption/Manager.antt =====
-- `EncryptionManager` of core/encryption_manager.py over a key manager, and the module's functions.
use bt_api_security.Prelude.{
  String, ℕ, ◌-◌, Bool, true, false, Option, none, some, List, [], ◌∷◌, if◌then◌else◌, ◌==◌, nat_Eq,
  string_Eq, length, drop, Result, ok, err, Exec, ◌>>=◌, ◌>>◌, pure, lift, modify, or_raise,
}
use bt_api_security.Encryption.Types.{
  KeyProvider, local, aws_kms, hashicorp_vault, hsm, EncryptionAlgorithm, aes_256_gcm, aes_256_cbc,
  chacha20_poly1305, algorithm_value, EncryptionKey, EncryptionError, cryptography_required,
  vault_arguments_required, unsupported_provider, key_not_found, unsupported_algorithm,
  unknown_algorithm, tag_required, library, Draw, KeyManager,
}

-- A base64 text is the bytes that `b64decode` gives for it, `none` if it raises; the text of no bytes
-- is the empty one.
abbrev pub Base64 : Type 0
Base64 = Option (List ℕ)

abbrev pub is_blank : Base64 → Bool
is_blank none = false
is_blank (some []) = true
is_blank (some (b ∷ bs)) = false

-- `cryptography`: the ciphers take key, nonce, (tag) and data; `none` is an exception.
-- The RSA operations are on PEM texts as bytes, with OAEP padding.
pub record Ciphers : Type 0 where
  pub utf8 : String → List ℕ
  pub gcm_encrypt : List ℕ → List ℕ → List ℕ → Option (List ℕ × List ℕ)
  pub gcm_decrypt : List ℕ → List ℕ → List ℕ → List ℕ → Option (List ℕ)
  pub chacha_encrypt : List ℕ → List ℕ → List ℕ → Option (List ℕ)
  pub chacha_decrypt : List ℕ → List ℕ → List ℕ → Option (List ℕ)
  pub rsa_key_pair : ℕ → Option (List ℕ × List ℕ)
  pub rsa_encrypt : List ℕ → List ℕ → Option (List ℕ)
  pub rsa_decrypt : List ℕ → List ℕ → Option (List ℕ)

pub record EncryptionManager (S : Type 0) : Type 0 where
  pub keys : S
  pub default_algorithm : EncryptionAlgorithm
  pub active_key : Option EncryptionKey

-- The dictionary that `encrypt` returns.
pub record Encrypted : Type 0 where
  pub key_id : String
  pub algorithm : String
  pub encrypted_data : Base64
  pub nonce : Base64
  pub tag : Option Base64

-- Data that is text or bytes.
pub data Input : Type 0 where
  text : String → Input
  bytes : List ℕ → Input

-- What the ciphers return: ciphertext, nonce and tag.
pub record Sealed : Type 0 where
  pub ciphertext : List ℕ
  pub nonce : List ℕ
  pub tag : List ℕ

unfoldable pub init :
    {S : Type 0} → Bool → S → EncryptionAlgorithm → Result EncryptionError (EncryptionManager S)
init false keys algorithm = err cryptography_required
init true keys algorithm =
    ok (record { keys = keys; default_algorithm = algorithm; active_key = none })

module _ (lib : Ciphers) where
  abbrev pub to_bytes : Input → List ℕ
  to_bytes (text t) = lib.utf8 t
  to_bytes (bytes b) = b

  -- The nonce is the 12 bytes that are drawn.
  unfoldable pub encrypt_aes_gcm : List ℕ → List ℕ → EncryptionKey → Option Sealed
  encrypt_aes_gcm nonce data_bytes k = elim (lib.gcm_encrypt k.key_data nonce data_bytes) [
    | none ↦ none
    | some (ciphertext, tag) ↦ some (record { ciphertext = ciphertext; nonce = nonce; tag = tag })
  ]

  unfoldable pub encrypt_chacha20 : List ℕ → List ℕ → EncryptionKey → Option Sealed
  encrypt_chacha20 nonce data_bytes k = elim (lib.chacha_encrypt k.key_data nonce data_bytes) [
    | none ↦ none
    | some ciphertext ↦ some (record {
      ciphertext = ciphertext;
      nonce = nonce;
      tag = drop (length ciphertext - 16) ciphertext;
    })
  ]

  unfoldable pub decrypt_aes_gcm : List ℕ → EncryptionKey → List ℕ → List ℕ → Option (List ℕ)
  decrypt_aes_gcm ciphertext k nonce tag = lib.gcm_decrypt k.key_data nonce tag ciphertext

  unfoldable pub decrypt_chacha20 : List ℕ → EncryptionKey → List ℕ → Option (List ℕ)
  decrypt_chacha20 ciphertext k nonce = lib.chacha_decrypt k.key_data nonce ciphertext

  abbrev pub or_library : {A : Type 0} → Option A → Result EncryptionError A
  or_library none = err library
  or_library (some a) = ok a

  -- The choice of a cipher in `encrypt`.
  unfoldable pub seal :
      EncryptionAlgorithm → List ℕ → List ℕ → EncryptionKey → Result EncryptionError Sealed
  unfolding encrypt_aes_gcm encrypt_chacha20
  seal aes_256_gcm nonce data_bytes k = or_library (encrypt_aes_gcm nonce data_bytes k)
  seal chacha20_poly1305 nonce data_bytes k = or_library (encrypt_chacha20 nonce data_bytes k)
  seal aes_256_cbc nonce data_bytes k = err (unsupported_algorithm aes_256_cbc)

  -- `b64encode(tag).decode() if tag else None`
  abbrev pub tag_text : List ℕ → Option Base64
  tag_text [] = none
  tag_text (b ∷ bs) = some (some (b ∷ bs))

  abbrev pub envelope : EncryptionKey → Sealed → Encrypted
  envelope k d = record {
    key_id = k.key_id;
    algorithm = algorithm_value k.algorithm;
    encrypted_data = some d.ciphertext;
    nonce = some d.nonce;
    tag = tag_text d.tag;
  }

  unfoldable pub encrypt_under : Input → List ℕ → EncryptionKey → Result EncryptionError Encrypted
  unfolding seal algorithm_value
  encrypt_under input nonce k = elim (seal k.algorithm nonce (to_bytes input) k) [
    | err e ↦ err e
    | ok d ↦ ok (envelope k d)
  ]

  -- `b64decode(tag_b64) if tag_b64 else None`; the inner `none` is an exception.
  abbrev pub decode_tag : Option Base64 → Option (Option (List ℕ))
  decode_tag none = some none
  decode_tag (some t) =
      if is_blank t then some none else elim t [ none ↦ none | some b ↦ some (some b) ]

  -- The choice of a cipher in `decrypt`.
  unfoldable pub open_with :
      String → List ℕ → List ℕ → Option (List ℕ) → EncryptionKey → Result EncryptionError (List ℕ)
  unfolding algorithm_value decrypt_aes_gcm decrypt_chacha20
  open_with algorithm ciphertext nonce tag k =
      if algorithm == algorithm_value aes_256_gcm
      then (elim tag [
        | none ↦ err tag_required
        | some t ↦ or_library (decrypt_aes_gcm ciphertext k nonce t)
      ])
      else if algorithm == algorithm_value chacha20_poly1305
      then or_library (decrypt_chacha20 ciphertext k nonce)
      else err (unknown_algorithm algorithm)

  unfoldable pub decrypt_under : Encrypted → EncryptionKey → Result EncryptionError (List ℕ)
  unfolding open_with
  decrypt_under e k = elim e.encrypted_data [
    | none ↦ err library
    | some ciphertext ↦ elim e.nonce [
      | none ↦ err library
      | some nonce ↦ elim (decode_tag e.tag) [
        | none ↦ err library
        | some tag ↦ open_with e.algorithm ciphertext nonce tag k
      ]
    ]
  ]

  -- The keys are PEM texts in base64.
  unfoldable pub generate_key_pair : ℕ → Result EncryptionError (Base64 × Base64)
  generate_key_pair key_size = elim (lib.rsa_key_pair key_size) [
    | none ↦ err library
    | some (private_pem, public_pem) ↦ ok (some private_pem, some public_pem)
  ]

  unfoldable pub encrypt_with_public_key : Input → Base64 → Result EncryptionError Base64
  encrypt_with_public_key input public_key_pem = elim public_key_pem [
    | none ↦ err library
    | some pem ↦ elim (lib.rsa_encrypt pem (to_bytes input)) [
      | none ↦ err library
      | some encrypted ↦ ok (some encrypted)
    ]
  ]

  unfoldable pub decrypt_with_private_key : Base64 → Base64 → Result EncryptionError (List ℕ)
  decrypt_with_private_key encrypted_data private_key_pem = elim private_key_pem [
    | none ↦ err library
    | some pem ↦ elim encrypted_data [
      | none ↦ err library
      | some encrypted ↦ or_library (lib.rsa_decrypt pem encrypted)
    ]
  ]

  module _ {S : Type 0} (manager : KeyManager S) where
    -- A call to the key manager.
    abbrev pub on_keys :
        {A : Type 0} → Exec EncryptionError S A → Exec EncryptionError (EncryptionManager S) A
    on_keys m s = ((m s.keys).0, record s { keys = (m s.keys).1 })

    -- The active key, if there is one and it is active.
    abbrev pub usable : Option EncryptionKey → Option EncryptionKey
    usable none = none
    usable (some k) = if k.is_active then some k else none

    abbrev pub set_active : EncryptionKey → EncryptionManager S → EncryptionManager S
    set_active k s = record s { active_key = some k }

    unfoldable pub get_active_key : Draw → Exec EncryptionError (EncryptionManager S) EncryptionKey
    get_active_key d s = elim (usable s.active_key) [
      | some k ↦ (ok k, s)
      | none ↦
          (on_keys (manager.generate_key d s.default_algorithm) >>= λ k.
          modify (set_active k) >> pure k)
            s
    ]

    abbrev pub get_stored : ℕ → String → Exec EncryptionError (EncryptionManager S) EncryptionKey
    get_stored now key_id =
        on_keys (manager.get_key now key_id) >>= λ found. or_raise found (key_not_found key_id)

    -- The key of `encrypt`; an empty key id counts as none.
    unfoldable pub choose_key :
        Draw → ℕ → Option String → Exec EncryptionError (EncryptionManager S) EncryptionKey
    unfolding get_active_key
    choose_key d now none = get_active_key d
    choose_key d now (some key_id) =
        if key_id == "" then get_active_key d else get_stored now key_id

    unfoldable pub encrypt :
        Draw
        → ℕ
        → List ℕ
        → Input
        → Option String
        → Exec EncryptionError (EncryptionManager S) Encrypted
    unfolding choose_key encrypt_under
    encrypt d now nonce input key_id =
        choose_key d now key_id >>= λ k. lift (encrypt_under input nonce k)

    unfoldable pub decrypt : ℕ → Encrypted → Exec EncryptionError (EncryptionManager S) (List ℕ)
    unfolding decrypt_under
    decrypt now e = get_stored now e.key_id >>= λ k. lift (decrypt_under e k)

    -- The two draws are those of `_get_active_key` and of the rotation.
    unfoldable pub rotate_keys :
        Draw → Draw → ℕ → Exec EncryptionError (EncryptionManager S) EncryptionKey
    unfolding get_active_key
    rotate_keys first d now = get_active_key first >>= λ active.
        on_keys (manager.rotate_key d now active.key_id) >>= λ k. modify (set_active k) >> pure k

-- The key managers that `create_key_manager` builds, with their arguments.
pub data Chosen : Type 0 where
  local_manager : String → String → Chosen
  aws_manager : String → Chosen
  vault_manager : String → String → String → Chosen

-- The keyword arguments; `none` is one that is missing or, for the two of Vault, not a text.
pub record Arguments : Type 0 where
  pub key_dir : Option String
  pub master_password : Option String
  pub region : Option String
  pub vault_url : Option String
  pub token : Option String
  pub mount_path : Option String

abbrev pub or_else : Option String → String → String
or_else none default = default
or_else (some t) default = t

abbrev pub choose_vault :
    Option String → Option String → Option String → Result EncryptionError Chosen
choose_vault none token mount_path = err vault_arguments_required
choose_vault (some url) none mount_path = err vault_arguments_required
choose_vault (some url) (some token) mount_path =
    ok (vault_manager url token (or_else mount_path "transit"))

unfoldable pub create_key_manager : KeyProvider → Arguments → Result EncryptionError Chosen
create_key_manager local a =
    ok (local_manager (or_else a.key_dir "./keys") (or_else a.master_password ""))
create_key_manager aws_kms a = ok (aws_manager (or_else a.region "us-east-1"))
create_key_manager hashicorp_vault a = choose_vault a.vault_url a.token a.mount_path
create_key_manager hsm a = err (unsupported_provider hsm)

-- The global instance: the first manager that is initialised stays.
unfoldable pub initialize_encryption_manager :
    {S : Type 0}
    → Bool
    → S
    → Option (EncryptionManager S)
    → Result EncryptionError (EncryptionManager S) × Option (EncryptionManager S)
unfolding init
initialize_encryption_manager crypto keys (some m) = (ok m, some m)
initialize_encryption_manager crypto keys none = elim (init crypto keys aes_256_gcm) [
  | err e ↦ (err e, none)
  | ok m ↦ (ok m, some m)
]
