-- ===== src/Encryption/RoundTrip.antt =====
-- Sequences of calls to `EncryptionManager` of core/encryption_manager.py, and the data that was
-- encrypted before them.
use bt_api_security.Prelude.{
  String, ℕ, ◌≡◌, refl, inl, inr, Option, none, some, List, arith, Bool-cases, ◌==◌, nat_Eq,
  string_Eq, ok, Result-cases,
}
use bt_api_security.Encryption.Types.{EncryptionAlgorithm, EncryptionKey, Draw, KeyManager}
use bt_api_security.Encryption.Manager.{
  Ciphers, EncryptionManager, Encrypted, Input, to_bytes, encrypt_under, decrypt_under,
  get_active_key, get_stored, choose_key, encrypt, decrypt, rotate_keys,
}
use bt_api_security.Encryption.Interface.{Holds, HoldsKey, Avoids, IsLawful}
use bt_api_security.Encryption.Ciphers.{CipherLaws, decrypt-encrypt_under}
use bt_api_security.Encryption.Active.{
  IsReady, IsKnown, active-HoldsKey, active-IsReady, active-Holds, get_stored-state, lift-state,
}

-- The id of a rotated key is not `key_id`, nor that of the key it replaces.
abbrev pub RotationAvoids :
    {S : Type 0} → Ciphers → KeyManager S → String → Draw → Draw → ℕ → EncryptionManager S → Type 0
RotationAvoids lib manager key_id first d now s =
    (old : EncryptionKey)
    → (get_active_key lib manager first s).0 ≡ ok old
    → Avoids key_id
        (manager.rotate_key d now old.key_id (get_active_key lib manager first s).1.keys).0
      × Avoids old.key_id
          (manager.rotate_key d now old.key_id (get_active_key lib manager first s).1.keys).0

-- A call that gives no new key the id `key_id`.
pub data Step {S : Type 0} (lib : Ciphers) (manager : KeyManager S) (key_id : String)
    (s : EncryptionManager S) : EncryptionManager S → Type 0 where
  encrypt_step :
      (d : Draw) (now : ℕ) (nonce : List ℕ) (input : Input) (chosen : Option String)
      → Avoids key_id (manager.generate_key d s.default_algorithm s.keys).0
      → Step lib manager key_id s (encrypt lib manager d now nonce input chosen s).1
  decrypt_step :
      (now : ℕ) (e : Encrypted) → Step lib manager key_id s (decrypt lib manager now e s).1
  rotate_step :
      (first d : Draw) (now : ℕ)
      → Avoids key_id (manager.generate_key first s.default_algorithm s.keys).0
      → RotationAvoids lib manager key_id first d now s
      → Step lib manager key_id s (rotate_keys lib manager first d now s).1

pub data Reach {S : Type 0} (lib : Ciphers) (manager : KeyManager S) (key_id : String)
    (s : EncryptionManager S) : EncryptionManager S → Type 0 where
  here : Reach lib manager key_id s s
  next :
      {t u : EncryptionManager S}
      → Reach lib manager key_id s t
      → Step lib manager key_id t u
      → Reach lib manager key_id s u

module _ {S : Type 0} (lib : Ciphers) (manager : KeyManager S) (lawful : IsLawful manager) where
  -- The manager is ready, and a key is held.
  record Keeps (key_id : String) (key_data : List ℕ) (held : EncryptionAlgorithm)
      (s : EncryptionManager S) : Type 0 where
    ready : IsReady manager s
    kept : Holds manager key_id key_data held s.keys

  chosen-Keeps :
      (d : Draw) (now : ℕ) (chosen : Option String) (key_id : String) (key_data : List ℕ)
      (held : EncryptionAlgorithm) (s : EncryptionManager S)
      → Avoids key_id (manager.generate_key d s.default_algorithm s.keys).0
      → Keeps key_id key_data held s
      → Keeps key_id key_data held (choose_key lib manager d now chosen s).1
  unfolding choose_key
  chosen-Keeps d now none key_id key_data held s avoids h = record {
    ready = active-IsReady lib manager lawful d s h.ready;
    kept = active-Holds lib manager lawful d key_id key_data held s avoids h.kept;
  }
  chosen-Keeps d now (some i) key_id key_data held s avoids h = elim (Bool-cases (i == "")) [
    | inl blank ↦ rw blank (record {
      ready = active-IsReady lib manager lawful d s h.ready;
      kept = active-Holds lib manager lawful d key_id key_data held s avoids h.kept;
    })
    | inr given ↦ rw (given, get_stored-state lib manager lawful now i s) h
  ]

  rotated-Keeps :
      (first d : Draw) (now : ℕ) (key_id : String) (key_data : List ℕ) (held : EncryptionAlgorithm)
      (s : EncryptionManager S)
      → Avoids key_id (manager.generate_key first s.default_algorithm s.keys).0
      → RotationAvoids lib manager key_id first d now s
      → Keeps key_id key_data held s
      → Keeps key_id key_data held (rotate_keys lib manager first d now s).1
  unfolding rotate_keys
  rotated-Keeps first d now key_id key_data held s avoids apart h =
      let t = (get_active_key lib manager first s).1 in
      let ready = active-IsReady lib manager lawful first s h.ready in
      let kept = active-Holds lib manager lawful first key_id key_data held s avoids h.kept in
      elim (Result-cases (get_active_key lib manager first s).0) [
        | inr (x, e) ↦ rw e (record { ready = ready; kept = kept })
        | inl (old, e) ↦
            let (away, fresh) = apart old e in
            let active = active-HoldsKey lib manager lawful first old s h.ready e in
            let after =
              lawful.rotate_keeps d now old.key_id old.key_data old.algorithm key_id key_data held
                t.keys active away kept in
            elim (Result-cases (manager.rotate_key d now old.key_id t.keys).0) [
              | inr (x, r) ↦
                  rw (e, r)
                    (record {
                      kept = after;
                      ready = record {
                        at = λ k there.
                            lawful.rotate_keeps d now old.key_id old.key_data old.algorithm k.key_id
                              k.key_data k.algorithm t.keys active (rw r tt) (ready.at k there);
                      };
                    })
              | inl (n, r) ↦
                  let other = rw r at fresh in
                  let new =
                    lawful.rotate_holds d now old.key_id old.key_data old.algorithm n t.keys active
                      r other in
                  rw (e, r)
                    (record {
                      kept = after;
                      ready = record {
                        at = λ k there. let same : n ≡ k = ground arith in rw (← same) new.0;
                      };
                    })
            ]
      ]

  Step-Keeps :
      (key_id : String) (key_data : List ℕ) (held : EncryptionAlgorithm) {s t : EncryptionManager S}
      → Step lib manager key_id s t
      → Keeps key_id key_data held s
      → Keeps key_id key_data held t
  unfolding encrypt decrypt
  Step-Keeps key_id key_data held {s} (encrypt_step d now nonce input chosen avoids) h =
      let r = choose_key lib manager d now chosen s in
      rw (lift-state lib manager lawful r.0 (encrypt_under lib input nonce) r.1)
        (chosen-Keeps d now chosen key_id key_data held s avoids h)
  Step-Keeps key_id key_data held {s} (decrypt_step now e) h =
      let r = get_stored lib manager now e.key_id s in
      rw
        (
          lift-state lib manager lawful r.0 (decrypt_under lib e) r.1,
          get_stored-state lib manager lawful now e.key_id s,
        )
        h
  Step-Keeps key_id key_data held {s} (rotate_step first d now avoids apart) h =
      rotated-Keeps first d now key_id key_data held s avoids apart h

  Reach-Keeps :
      (key_id : String) (key_data : List ℕ) (held : EncryptionAlgorithm) {s t : EncryptionManager S}
      → Reach lib manager key_id s t
      → Keeps key_id key_data held s
      → Keeps key_id key_data held t
  Reach-Keeps key_id key_data held here h = h
  Reach-Keeps key_id key_data held (next r step) h =
      Step-Keeps key_id key_data held step (Reach-Keeps key_id key_data held r h)

  -- The key that `encrypt` takes is held.
  stored-HoldsKey :
      (now : ℕ) (key_id : String) (k : EncryptionKey) (s : EncryptionManager S)
      → IsKnown manager (some key_id) s.keys
      → (get_stored lib manager now key_id s).0 ≡ ok k
      → HoldsKey manager k s.keys
  stored-HoldsKey now key_id k s (key_data, held, known) h =
      let (j, e, id, bytes, algorithm) = known.found now in
      let r = rw e at h in
      let same : j ≡ k = ground arith in rw (← same, id, bytes, algorithm) known

  chosen-HoldsKey :
      (d : Draw) (now : ℕ) (chosen : Option String) (k : EncryptionKey) (s : EncryptionManager S)
      → IsReady manager s
      → IsKnown manager chosen s.keys
      → (choose_key lib manager d now chosen s).0 ≡ ok k
      → HoldsKey manager k (choose_key lib manager d now chosen s).1.keys
  unfolding choose_key
  chosen-HoldsKey d now none k s ready known h = active-HoldsKey lib manager lawful d k s ready h
  chosen-HoldsKey d now (some i) k s ready known h = elim (Bool-cases (i == "")) [
    | inl blank ↦
        let j = rw blank at h in rw blank (active-HoldsKey lib manager lawful d k s ready j)
    | inr given ↦
        let j = rw given at h in
        rw (given, get_stored-state lib manager lawful now i s) (stored-HoldsKey now i k s known j)
  ]

  chosen-IsReady :
      (d : Draw) (now : ℕ) (chosen : Option String) (s : EncryptionManager S)
      → IsReady manager s
      → IsReady manager (choose_key lib manager d now chosen s).1
  unfolding choose_key
  chosen-IsReady d now none s ready = active-IsReady lib manager lawful d s ready
  chosen-IsReady d now (some i) s ready = elim (Bool-cases (i == "")) [
    | inl blank ↦ rw blank (active-IsReady lib manager lawful d s ready)
    | inr given ↦ rw (given, get_stored-state lib manager lawful now i s) ready
  ]

  held-decrypts :
      (laws : CipherLaws lib) (later : ℕ) (input : Input) (nonce : List ℕ) (k : EncryptionKey)
      (e : Encrypted) (t : EncryptionManager S)
      → encrypt_under lib input nonce k ≡ ok e
      → HoldsKey manager k t.keys
      → decrypt lib manager later e t ≡ (ok (to_bytes lib input), t)
  unfolding decrypt
  held-decrypts laws later input nonce k e t made h =
      let (j, found, id, bytes, algorithm) = h.found later in
      let (opened, right) = decrypt-encrypt_under lib laws input nonce k j e made bytes in
      rw (right, found, opened) refl

-- Over a key manager that keeps its promises, with ciphers that undo themselves: what `encrypt`
-- returned for some data, `decrypt` turns back into that data, at any later time and after any calls
-- that encrypt, decrypt and rotate keys, as long as no new key gets the id of the key that was used,
-- and no rotation gives a new key the id of the key that it replaces. The active key, if there is
-- one, and the key that is asked for, if one is, must be held when `encrypt` is called.
pub decrypts_later :
    {S : Type 0} (lib : Ciphers) (laws : CipherLaws lib) (manager : KeyManager S)
    (lawful : IsLawful manager) (d : Draw) (now later : ℕ) (nonce : List ℕ) (input : Input)
    (chosen : Option String) (e : Encrypted) (s t : EncryptionManager S)
    → IsReady manager s
    → IsKnown manager chosen s.keys
    → (encrypt lib manager d now nonce input chosen s).0 ≡ ok e
    → Reach lib manager e.key_id (encrypt lib manager d now nonce input chosen s).1 t
    → decrypt lib manager later e t ≡ (ok (to_bytes lib input), t)
unfolding encrypt
decrypts_later lib laws manager lawful d now later nonce input chosen e s t ready known h rest =
    elim (Result-cases (choose_key lib manager d now chosen s).0) [
      | inr (x, raised) ↦ absurd (let j = rw raised at h in cc)
      | inl (k, found) ↦
          let r = choose_key lib manager d now chosen s in
          let made : encrypt_under lib input nonce k ≡ ok e = rw found at h in
          let (opened, id) = decrypt-encrypt_under lib laws input nonce k k e made refl in
          let after =
            rw (lift-state lib manager lawful r.0 (encrypt_under lib input nonce) r.1, id) at
              rest in
          let held = chosen-HoldsKey lib manager lawful d now chosen k s ready known found in
          let kept = Reach-Keeps lib manager lawful k.key_id k.key_data k.algorithm after (record {
            ready = chosen-IsReady lib manager lawful d now chosen s ready;
            kept = held;
          }) in
          held-decrypts lib manager lawful laws later input nonce k e t made kept.kept
    ]
