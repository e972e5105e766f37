-- ===== src/Encryption/Interface.antt =====
-- What the users of `KeyManager` of core/encryption_manager.py rely on.
use bt_api_security.Prelude.{
  String, ℕ, ◌≡◌, ◌≢◌, true, none, some, List, nat_Eq, string_Eq, Result, ok, Returns,
}
use bt_api_security.Encryption.Types.{
  EncryptionAlgorithm, EncryptionKey, EncryptionError, Draw, KeyManager,
}

-- The manager finds such a key under an id, at any time, and finding it changes nothing.
pub record Holds {S : Type 0} (manager : KeyManager S) (key_id : String) (key_data : List ℕ)
    (algorithm : EncryptionAlgorithm) (s : S) : Type 0 where
  pub found :
      (now : ℕ)
      → (k : EncryptionKey) × (manager.get_key now key_id s ≡ (ok (some k), s))
        × (k.key_id ≡ key_id)
        × (k.key_data ≡ key_data)
        × (k.algorithm ≡ algorithm)

abbrev pub HoldsKey : {S : Type 0} → KeyManager S → EncryptionKey → S → Type 0
HoldsKey manager k s = Holds manager k.key_id k.key_data k.algorithm s

-- A key that is returned has another id.
abbrev pub Avoids : String → Result EncryptionError EncryptionKey → Type 0
Avoids key_id r = Returns r (λ k. k.key_id ≢ key_id)

pub record IsLawful {S : Type 0} (manager : KeyManager S) : Type 0 where
  pub get_same : (now : ℕ) (key_id : String) (s : S) → (manager.get_key now key_id s).1 ≡ s
  -- A generated key is held, active and for the algorithm, and replaces no key of another id.
  pub generate_holds :
      (d : Draw) (algorithm : EncryptionAlgorithm) (k : EncryptionKey) (s : S)
      → (manager.generate_key d algorithm s).0 ≡ ok k
      → HoldsKey manager k (manager.generate_key d algorithm s).1
        × (k.is_active ≡ true)
        × (k.algorithm ≡ algorithm)
  pub generate_keeps :
      (d : Draw) (algorithm : EncryptionAlgorithm) (key_id : String) (key_data : List ℕ)
      (held : EncryptionAlgorithm) (s : S)
      → Avoids key_id (manager.generate_key d algorithm s).0
      → Holds manager key_id key_data held s
      → Holds manager key_id key_data held (manager.generate_key d algorithm s).1
  -- A rotation of a held key gives an active key for the same algorithm, and keeps what is held, the rotated key among it.
  pub rotate_holds :
      (d : Draw) (now : ℕ) (old : String) (old_data : List ℕ) (old_algorithm : EncryptionAlgorithm)
      (k : EncryptionKey) (s : S)
      → Holds manager old old_data old_algorithm s
      → (manager.rotate_key d now old s).0 ≡ ok k
      → k.key_id ≢ old
      → HoldsKey manager k (manager.rotate_key d now old s).1
        × (k.is_active ≡ true)
        × (k.algorithm ≡ old_algorithm)
  pub rotate_keeps :
      (d : Draw) (now : ℕ) (old : String) (old_data : List ℕ) (old_algorithm : EncryptionAlgorithm)
      (key_id : String) (key_data : List ℕ) (held : EncryptionAlgorithm) (s : S)
      → Holds manager old old_data old_algorithm s
      → Avoids key_id (manager.rotate_key d now old s).0
      → Holds manager key_id key_data held s
      → Holds manager key_id key_data held (manager.rotate_key d now old s).1
  -- A deleted key is gone, and no other.
  pub delete_gone :
      (now : ℕ) (key_id : String) (s : S)
      → manager.get_key now key_id (manager.delete_key key_id s).1
        ≡ (ok none, (manager.delete_key key_id s).1)
  pub delete_keeps :
      (gone key_id : String) (key_data : List ℕ) (held : EncryptionAlgorithm) (s : S)
      → gone ≢ key_id
      → Holds manager key_id key_data held s
      → Holds manager key_id key_data held (manager.delete_key gone s).1
