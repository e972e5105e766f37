-- ===== src/Encryption/LocalLaws.antt =====
-- `LocalKeyManager` of core/encryption_manager.py keeps the promises of a key manager.
use bt_api_security.Prelude.{
  String, ℕ, ◌≡◌, refl, sym, ap, ◌∙◌, ◌≢◌, inl, inr, true, some, List, arith, eq_iff, Bool-cases,
  Option-cases, ◌==◌, nat_Eq, string_Eq, ok, err, Result-cases,
}
use bt_api_security.Encryption.Types.{
  EncryptionAlgorithm, EncryptionKey, EncryptionError, key_not_found, unsupported_algorithm, Draw,
}
use bt_api_security.Encryption.Local.{
  Storage, LocalKeyManager, store_key, new_key, is_supported, generate_key, get_key, retire,
  replace_key, rotate_key, delete_key, local_manager,
}
use bt_api_security.Encryption.Interface.{Holds, HoldsKey, Avoids, IsLawful}
use bt_api_security.Encryption.Stored.{
  StorageLaws, get-store_self, get-store_ne, get-delete_self, get-delete_ne, manager, store-Holds,
  moved-Holds, generate_holds, generate_keeps,
}

module _ (lib : Storage) (laws : StorageLaws lib) where
  -- What a rotation of a found key leaves: the new key, then the old one as inactive.
  rotated : Draw → EncryptionKey → LocalKeyManager → LocalKeyManager
  rotated d old s =
      store_key lib d.old_seed (retire lib old)
        (store_key lib d.seed (new_key lib d old.algorithm) s)

  data Rotation (d : Draw) (key_id : String) (s : LocalKeyManager) : Type 0 where
    failed : (e : EncryptionError) → rotate_key lib d key_id s ≡ (err e, s) → Rotation d key_id s
    done :
        (old : EncryptionKey)
        → get_key lib key_id s ≡ ok (some old)
        → rotate_key lib d key_id s ≡ (ok (new_key lib d old.algorithm), rotated d old s)
        → Rotation d key_id s

  Rotation-cases : (d : Draw) (key_id : String) (s : LocalKeyManager) → Rotation d key_id s
  unfolding rotate_key replace_key generate_key rotated
  Rotation-cases d key_id s = elim (Result-cases (get_key lib key_id s)) [
    | inr (e, raised) ↦ failed e (rw raised refl)
    | inl (found, got) ↦ elim (Option-cases found) [
      | inl missing ↦ failed (key_not_found key_id) (rw (got, missing) refl)
      | inr (old, there) ↦ elim (Bool-cases (is_supported lib old.algorithm)) [
        | inr no' ↦ failed (unsupported_algorithm old.algorithm) (rw (got, there, no') refl)
        | inl supported ↦ done old (got ∙ ap ok there) (rw (got, there, supported) refl)
      ]
    ]
  ]

  rotate-Holds :
      (d : Draw) (now : ℕ) (old : String) (old_data : List ℕ) (old_algorithm : EncryptionAlgorithm)
      (k : EncryptionKey) (s : LocalKeyManager)
      → Holds (manager lib laws) old old_data old_algorithm s
      → (rotate_key lib d old s).0 ≡ ok k
      → k.key_id ≢ old
      → HoldsKey (manager lib laws) k (rotate_key lib d old s).1
        × (k.is_active ≡ true)
        × (k.algorithm ≡ old_algorithm)
  unfolding rotated
  rotate-Holds d now old old_data old_algorithm k s h result other = elim (Rotation-cases d old s) [
    | failed e r ↦ absurd (let j = rw r at result in cc)
    | done was got r ↦
        let (stored, e, id, bytes, algorithm) = h.found now in
        let j = rw r at result in
        let new : new_key lib d was.algorithm ≡ k = ground arith in
        let same : was ≡ stored = ground arith in
        let apart : was.key_id ≢ (new_key lib d was.algorithm).key_id =
          λ x. other (ap (λ y. y.key_id) (sym new) ∙ sym x ∙ ap (λ y. y.key_id) same ∙ id) in
        let t = store_key lib d.seed (new_key lib d was.algorithm) s in
        let held =
          moved-Holds lib laws _ _ _ t (rotated d was s)
            (get-store_ne lib laws d.old_seed (retire lib was) _ t apart)
            (store-Holds lib laws d.seed (new_key lib d was.algorithm) s) in
        rw (r, ← new) (held, refl, ap (λ y. y.algorithm) same ∙ algorithm)
  ]

  rotate_keeps :
      (d : Draw) (now : ℕ) (old : String) (old_data : List ℕ) (old_algorithm : EncryptionAlgorithm)
      (key_id : String) (key_data : List ℕ) (held : EncryptionAlgorithm) (s : LocalKeyManager)
      → Holds (manager lib laws) old old_data old_algorithm s
      → Avoids key_id (rotate_key lib d old s).0
      → Holds (manager lib laws) key_id key_data held s
      → Holds (manager lib laws) key_id key_data held (rotate_key lib d old s).1
  unfolding rotated
  rotate_keeps d now old old_data old_algorithm key_id key_data held s h avoids keep =
      elim (Rotation-cases d old s) [
        | failed e r ↦ rw r keep
        | done was got r ↦
            let (stored, e, id, bytes, algorithm) = h.found now in
            let other = rw r at avoids in
            let same : was ≡ stored = ground arith in
            let was_id : was.key_id ≡ old = ap (λ y. y.key_id) same ∙ id in
            let t = store_key lib d.seed (new_key lib d was.algorithm) s in
            let kept =
              moved-Holds lib laws key_id key_data held s t
                (get-store_ne lib laws d.seed (new_key lib d was.algorithm) key_id s other) keep in
            rw r (elim (Bool-cases (old == key_id)) [
              | inr apart ↦
                  moved-Holds lib laws key_id key_data held t _
                    (get-store_ne lib laws d.old_seed (retire lib was) key_id t
                      (λ x. absurd (ground (arith, eq_iff old key_id))))
                    kept
              | inl here ↦ record {
                found = λ at_time.
                    let (stored2, e2, id2, bytes2, algorithm2) = keep.found at_time in
                    let here' : old ≡ key_id = (eq_iff old key_id).0 here in
                    let e3 = rw (← here') at e2 in
                    let same2 : was ≡ stored2 = ground arith in
                    let whole = get-store_self lib laws d.old_seed (retire lib was) t in
                    (
                      retire lib was,
                      ap (λ r. (r, rotated d was s))
                          (ap (λ x. get_key lib x (rotated d was s)) (sym (was_id ∙ here'))
                            ∙ whole),
                      was_id ∙ here',
                      ap (λ y. y.key_data) same2 ∙ bytes2,
                      ap (λ y. y.algorithm) same2 ∙ algorithm2,
                    );
              }
            ])
      ]

-- `LocalKeyManager` keeps every promise of a key manager, if Fernet decrypts what it encrypted: a new key is found with the data and algorithm it was made
-- with, and a key stays so when others are made, rotated or deleted and when it is rotated itself;
-- a deleted key is not found.
pub local-IsLawful : (lib : Storage) → StorageLaws lib → IsLawful (local_manager lib)
local-IsLawful lib laws = record {
  get_same = λ now key_id s. refl;
  generate_holds = generate_holds lib laws;
  generate_keeps = generate_keeps lib laws;
  rotate_holds = rotate-Holds lib laws;
  rotate_keeps = rotate_keeps lib laws;
  delete_gone =
      λ now key_id s. ap (λ r. (r, delete_key lib key_id s)) (get-delete_self lib key_id s);
  delete_keeps = λ gone key_id key_data held s other.
      moved-Holds lib laws key_id key_data held s (delete_key lib gone s)
        (get-delete_ne lib laws gone key_id s other);
}
