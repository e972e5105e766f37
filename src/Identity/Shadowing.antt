-- ===== src/Identity/Shadowing.antt =====
-- Identities of core/identity_manager.py with a username that is taken.
use bt_api_security.Prelude.{
  String, ℕ, ◌≡◌, refl, sym, ap, ◌∙◌, ◌≢◌, inl, inr, Bool, Option, none, some, [], ◌∷◌, arith,
  eq_iff, Bool-cases, Option-cases, ◌==◌, nat_Eq, string_Eq, Result-cases,
}
use bt_api_security.Dict.{Dict, lookup, insert, adjust}
use bt_api_security.Dict.Laws.{lookup-insert_ne, lookup-adjust_ne}
use bt_api_security.Identity.Types.{
  local, active, user_status_Eq, identity_provider_Eq, Value, Identity, IdentityManager, Bcrypt,
}
use bt_api_security.Identity.Manager.{
  wants_hash, with_hash, hash_password, create_identity, new_identity, find_first, is_named,
  verify_password, credentials_fit, authenticate_user,
}

module _ {V : Type 0} (p : V → Bool) where
  find_first-insert :
      (k : String) (v : V) (d : Dict V) {r : String × V}
      → lookup k d ≡ none
      → find_first p d ≡ some r
      → find_first p (insert k v d) ≡ some r
  unfolding find_first lookup insert
  find_first-insert k v [] fresh h = absurd (let j = h in cc)
  find_first-insert k v ((j, w) ∷ d) fresh h = elim (Bool-cases (j == k)) [
    | inl here ↦ absurd (let e = rw here at fresh in cc)
    | inr apart ↦ elim (Bool-cases (p w)) [
      | inl good ↦ rw (apart, good) (rw good at h)
      | inr bad ↦ rw (apart, bad) (find_first-insert k v d (rw apart at fresh) (rw bad at h))
    ]
  ]

  find_first-known :
      (key : String) (v : V) (d : Dict V) → find_first p d ≡ some (key, v) → lookup key d ≢ none
  unfolding find_first lookup
  find_first-known key v [] h = absurd (let j = h in cc)
  find_first-known key v ((j, w) ∷ d) h = ground (arith, eq_iff j key, find_first-known key v d)

  find_first-adjust :
      (k key : String) (f : V → V) (v : V) (d : Dict V)
      → ((w : V) → p (f w) ≡ p w)
      → key ≢ k
      → find_first p d ≡ some (key, v)
      → find_first p (adjust k f d) ≡ some (key, v)
  unfolding find_first adjust
  find_first-adjust k key f v [] same other h = h
  find_first-adjust k key f v ((j, w) ∷ d) same other h =
      ground (arith, eq_iff j k, same w, find_first-adjust k key f v d same other)

-- Whether the credentials of an identity fit does not depend on the others.
verify_password-same :
    (bcrypt : Bcrypt) (id password : String) (s t : IdentityManager)
    → lookup id t.identities ≡ lookup id s.identities
    → verify_password bcrypt id password t ≡ verify_password bcrypt id password s
unfolding verify_password
verify_password-same bcrypt id password s t e = rw (verify_password, e) refl

-- The identity that is found first decides the answer.
first-decides :
    (bcrypt : Bcrypt) (now : ℕ) (username password key : String) (i : Identity)
    (s t : IdentityManager)
    → find_first (is_named username local) s.identities ≡ some (key, i)
    → find_first (is_named username local) t.identities ≡ some (key, i)
    → lookup i.identity_id t.identities ≡ lookup i.identity_id s.identities
    → (authenticate_user bcrypt now username password local t).0
      ≡ (authenticate_user bcrypt now username password local s).0
unfolding authenticate_user credentials_fit
first-decides bcrypt now username password key i s t before after e =
    elim (Bool-cases (i.status == active)) [
      | inr other ↦ rw (authenticate_user, before, after, other) refl
      | inl good ↦
          let same = verify_password-same bcrypt i.identity_id password s t e in
          elim (Result-cases (verify_password bcrypt i.identity_id password s)) [
            | inr (x, r) ↦ rw (authenticate_user, before, after, good, same, r) refl
            | inl (b, r) ↦ elim (Bool-cases b) [
              | inl yes' ↦ rw (authenticate_user, before, after, good, same, r, yes') refl
              | inr no' ↦ rw (authenticate_user, before, after, good, same, r, no') refl
            ]
          ]
    ]

-- The identities after `create_identity`.
created :
    (bcrypt : Bcrypt) (uuid salt : String) (now changed_at : ℕ) (username email full_name : String)
    (password : Option String) (attributes : Dict Value) (s : IdentityManager) (key : String)
    (i : Identity)
    → lookup uuid s.identities ≡ none
    → i.identity_id ≢ uuid
    → find_first (is_named username local) s.identities ≡ some (key, i)
    → let t =
        (create_identity bcrypt uuid salt now changed_at username email full_name password local
          attributes s).1 in
      (find_first (is_named username local) t.identities ≡ some (key, i))
      × (lookup i.identity_id t.identities ≡ lookup i.identity_id s.identities)
unfolding create_identity
created bcrypt uuid salt now changed_at username email full_name password attributes s key i fresh
      other found =
    let n = new_identity uuid now username email full_name local attributes in
    let first = find_first-insert (is_named username local) uuid n s.identities fresh found in
    let there = lookup-insert_ne uuid i.identity_id n s.identities (λ e. other (sym e)) in
    let apart : key ≢ uuid = λ e.
      find_first-known (is_named username local) key i s.identities found
        (ap (λ k. lookup k s.identities) e ∙ fresh) in
    elim (Option-cases (wants_hash local password)) [
      | inl none_wanted ↦ rw none_wanted (first, there)
      | inr (p, wanted) ↦ elim (Result-cases (hash_password bcrypt salt p)) [
        | inr (x, raised) ↦ rw (wanted, raised) (first, there)
        | inl (hash, made) ↦
            rw (wanted, made)
              (
                find_first-adjust (is_named username local) uuid key (with_hash hash changed_at) i
                    (insert uuid n s.identities) (λ w. refl) apart first,
                lookup-adjust_ne uuid i.identity_id (with_hash hash changed_at)
                      (insert uuid n s.identities) (λ e. other (sym e))
                    ∙ there,
              )
      ]
    ]

-- A username may be given to a second local identity with a new id, but that changes no answer: with
-- whatever password, `authenticate_user` answers for the identity that has the name already, so that
-- nobody can log in as the new one.
pub shadowed_refused :
    (bcrypt : Bcrypt) (uuid salt : String) (now changed_at at_time : ℕ)
    (username email full_name : String) (password : Option String) (attributes : Dict Value)
    (s : IdentityManager) (key : String) (i : Identity) (given : String)
    → lookup uuid s.identities ≡ none
    → i.identity_id ≢ uuid
    → find_first (is_named username local) s.identities ≡ some (key, i)
    → (authenticate_user bcrypt at_time username given local
        (create_identity bcrypt uuid salt now changed_at username email full_name password local
          attributes s).1).0
      ≡ (authenticate_user bcrypt at_time username given local s).0
shadowed_refused bcrypt uuid salt now changed_at at_time username email full_name password
      attributes s key i given fresh other found =
    let (first, there) =
      created bcrypt uuid salt now changed_at username email full_name password attributes s key i
        fresh other found in
    first-decides bcrypt at_time username given key i s _ found first there
