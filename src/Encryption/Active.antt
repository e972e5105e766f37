-- ===== src/Encryption/Active.antt =====
-- The key that `EncryptionManager` of core/encryption_manager.py encrypts with, over any key manager
-- that keeps its promises.
use bt_api_security.Prelude.{
  String, ℕ, ◌≡◌, refl, ap, ◌∙◌, inl, inr, Option, none, some, List, arith, Option-cases, nat_Eq,
  string_Eq, Result, ok, err, lift, Result-cases, resume,
}
use bt_api_security.Encryption.Types.{
  EncryptionAlgorithm, EncryptionKey, EncryptionError, Draw, KeyManager,
}
use bt_api_security.Encryption.Manager.{
  Ciphers, EncryptionManager, usable, set_active, get_active_key, get_stored,
}
use bt_api_security.Encryption.Interface.{Holds, HoldsKey, Avoids, IsLawful}

-- The manager holds the active key.
pub record IsReady {S : Type 0} (manager : KeyManager S) (s : EncryptionManager S) : Type 0 where
  pub at : (k : EncryptionKey) → s.active_key ≡ some k → HoldsKey manager k s.keys

-- A key id that is given is one that the manager holds.
abbrev pub IsKnown : {S : Type 0} → KeyManager S → Option String → S → Type 0
IsKnown manager none s = Unit
IsKnown manager (some key_id) s =
    (key_data : List ℕ) × (held : EncryptionAlgorithm) × Holds manager key_id key_data held s

module _ {S : Type 0} (lib : Ciphers) (manager : KeyManager S) where
  abbrev pub with_keys : S → EncryptionManager S → EncryptionManager S
  with_keys keys s = record s { keys = keys }

  -- How `_get_active_key` ends.
  pub data Active (d : Draw) (s : EncryptionManager S) : Type 0 where
    reused :
        (k : EncryptionKey)
        → s.active_key ≡ some k
        → get_active_key lib manager d s ≡ (ok k, s)
        → Active d s
    raised :
        (e : EncryptionError)
        → (manager.generate_key d s.default_algorithm s.keys).0 ≡ err e
        → get_active_key lib manager d s
          ≡ (err e, with_keys (manager.generate_key d s.default_algorithm s.keys).1 s)
        → Active d s
    generated :
        (k : EncryptionKey)
        → (manager.generate_key d s.default_algorithm s.keys).0 ≡ ok k
        → get_active_key lib manager d s ≡ (
          ok k,
          set_active lib manager k
              (with_keys (manager.generate_key d s.default_algorithm s.keys).1 s),
        )
        → Active d s

  pub Active-cases : (d : Draw) (s : EncryptionManager S) → Active d s
  unfolding get_active_key
  Active-cases d s = elim (Option-cases (usable lib manager s.active_key)) [
    | inr (k, there) ↦ reused k (ground arith) (rw (get_active_key, there) refl)
    | inl missing ↦ elim (Result-cases (manager.generate_key d s.default_algorithm s.keys).0) [
      | inl (k, e) ↦ generated k e (rw (get_active_key, missing, e) refl)
      | inr (x, e) ↦ raised x e (rw (get_active_key, missing, e) refl)
    ]
  ]

module _ {S : Type 0} (lib : Ciphers) (manager : KeyManager S) (lawful : IsLawful manager) where
  -- The active key is held afterwards, and a key of another id than a new one stays held.
  pub active-HoldsKey :
      (d : Draw) (k : EncryptionKey) (s : EncryptionManager S)
      → IsReady manager s
      → (get_active_key lib manager d s).0 ≡ ok k
      → HoldsKey manager k (get_active_key lib manager d s).1.keys
  active-HoldsKey d k s ready h = elim (Active-cases lib manager d s) [
    | reused n there e ↦
        let j = rw e at h in
        let same : n ≡ k = ground arith in rw e (ready.at k (there ∙ ap some same))
    | raised x made e ↦ absurd (let j = rw e at h in cc)
    | generated n made e ↦
        let j = rw e at h in
        let same : n ≡ k = ground arith in
        rw e (lawful.generate_holds d s.default_algorithm k s.keys (made ∙ ap ok same)).0
  ]

  pub active-IsReady :
      (d : Draw) (s : EncryptionManager S)
      → IsReady manager s
      → IsReady manager (get_active_key lib manager d s).1
  active-IsReady d s ready = elim (Active-cases lib manager d s) [
    | reused n there e ↦ rw e ready
    | raised x made e ↦ rw e (record {
      at = λ k there.
          lawful.generate_keeps d s.default_algorithm k.key_id k.key_data k.algorithm s.keys
            (rw made tt) (ready.at k there);
    })
    | generated n made e ↦ rw e (record {
      at = λ k there.
          let same : n ≡ k = ground arith in
          (lawful.generate_holds d s.default_algorithm k s.keys (made ∙ ap ok same)).0;
    })
  ]

  pub active-Holds :
      (d : Draw) (key_id : String) (key_data : List ℕ) (held : EncryptionAlgorithm)
      (s : EncryptionManager S)
      → Avoids key_id (manager.generate_key d s.default_algorithm s.keys).0
      → Holds manager key_id key_data held s.keys
      → Holds manager key_id key_data held (get_active_key lib manager d s).1.keys
  active-Holds d key_id key_data held s avoids h = elim (Active-cases lib manager d s) [
    | reused n there e ↦ rw e h
    | raised x made e ↦
        rw e (lawful.generate_keeps d s.default_algorithm key_id key_data held s.keys avoids h)
    | generated n made e ↦
        rw e (lawful.generate_keeps d s.default_algorithm key_id key_data held s.keys avoids h)
  ]

  pub get_stored-state :
      (now : ℕ) (key_id : String) (s : EncryptionManager S)
      → (get_stored lib manager now key_id s).1 ≡ s
  get_stored-state now key_id s = elim (Result-cases (manager.get_key now key_id s.keys).0) [
    | inr (x, e) ↦ rw (e, lawful.get_same now key_id s.keys) refl
    | inl (found, e) ↦ elim (Option-cases found) [
      | inl missing ↦ rw (e, missing, lawful.get_same now key_id s.keys) refl
      | inr (k, there) ↦ rw (e, there, lawful.get_same now key_id s.keys) refl
    ]
  ]

  -- A method that goes on without the state leaves what the first part left.
  pub lift-state :
      {A B : Type 0} (r : Result EncryptionError A) (f : A → Result EncryptionError B)
      (t : EncryptionManager S)
      → (resume r (λ a. lift (f a)) t).1 ≡ t
  lift-state (ok a) f t = refl
  lift-state (err e) f t = refl
