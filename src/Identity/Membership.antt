-- ===== src/Identity/Membership.antt =====
-- Group membership in core/identity_manager.py: the two places it is kept in agree.
use bt_api_security.Prelude.{
  String, ℕ, ◌≡◌, refl, sym, ◌∙◌, ◌≢◌, inl, inr, Bool, true, false, not, ◌&&◌, ◌||◌, Option, none,
  some, List, [], ◌∷◌, arith, eq_iff, if◌then◌else◌, Bool-cases, Option-cases, ◌==◌, nat_Eq,
  string_Eq, contains, add, discard, contains-append, Result, ok, err, Result-cases,
}
use bt_api_security.Dict.{Dict, lookup, adjust}
use bt_api_security.Dict.Laws.{lookup-adjust, lookup-insert}
use bt_api_security.Identity.Types.{
  IdentityProvider, active, user_status_Eq, Value, Identity, Group, IdentityError, Config,
  IdentityManager, Bcrypt,
}
use bt_api_security.Identity.Accounts.{write_known}
use bt_api_security.Identity.Manager.{
  has_some, init, default_groups, write_identity, new_identity, store_identity, wants_hash,
  with_hash, hash_password, create_identity, find_first, is_named, credentials_fit, log_in,
  authenticate_user, create_group, write_members, write_user_groups, add_user_to_group,
  remove_user_from_group,
}
use bt_api_security.Identity.Queries.{get_user_groups, get_group_members}

contains-add : (a b : String) (xs : List String) → contains a (add b xs) ≡ (contains a xs || b == a)
contains-add a b xs = ground (arith, contains-append a xs (b ∷ []), eq_iff a b, eq_iff b a)

contains-discard :
    (a b : String) (xs : List String) → contains a (discard b xs) ≡ (contains a xs && not (b == a))
contains-discard a b [] = refl
contains-discard a b (x ∷ xs) =
    ground (arith, contains-discard a b xs, eq_iff x a, eq_iff x b, eq_iff b a)

-- A user's groups are those that list the user, and every identity has a set of groups.
pub record IsConsistent (s : IdentityManager) : Type 0 where
  pub agrees :
      (id g : String) → contains g (get_user_groups id s) ≡ contains id (get_group_members g s)
  pub known : (id : String) → has_some (lookup id s.identities) ≡ has_some (lookup id s.user_groups)

pub init-IsConsistent : (c : Config) (now : ℕ) → IsConsistent (init c now)
unfolding get_user_groups get_group_members init default_groups lookup
init-IsConsistent c now = record { agrees = λ id g. ground arith; known = λ id. refl }

module _ (s : IdentityManager) where
  has_some-adjust :
      {V : Type 0} (k j : String) (f : V → V) (d : Dict V)
      → has_some (lookup j (adjust k f d)) ≡ has_some (lookup j d)
  has_some-adjust k j f d = ground (arith, lookup-adjust k j f d)

  write_identity-IsConsistent :
      (id : String) (f : Identity → Identity)
      → IsConsistent s
      → IsConsistent (write_identity id f s)
  unfolding get_user_groups get_group_members
  write_identity-IsConsistent id f h = record {
    agrees = λ j g. h.agrees j g;
    known = λ j. has_some-adjust id j f s.identities ∙ h.known j;
  }

  pub write_known-IsConsistent :
      (id : String) (f : Identity → Identity) → IsConsistent s → IsConsistent (write_known id f s).1
  write_known-IsConsistent id f h = elim (Bool-cases (has_some (lookup id s.identities))) [
    | inl there ↦ rw there (write_identity-IsConsistent id f h)
    | inr missing ↦ rw missing h
  ]

  store-IsConsistent :
      (i : Identity)
      → lookup i.identity_id s.identities ≡ none
      → IsConsistent s
      → IsConsistent (store_identity i s)
  unfolding get_user_groups get_group_members
  store-IsConsistent i fresh h = record {
    agrees = λ j g. ground (
      arith,
      h.agrees j g,
      h.known i.identity_id,
      fresh,
      lookup-insert i.identity_id j [] s.user_groups,
      eq_iff i.identity_id j,
    );
    known = λ j. ground (
      arith,
      h.known j,
      lookup-insert i.identity_id j [] s.user_groups,
      lookup-insert i.identity_id j i s.identities,
    );
  }

  pub new_group-IsConsistent :
      (uuid : String) (now : ℕ) (name description : String) (parents : Option (List String))
      → lookup uuid s.all_groups ≡ none
      → IsConsistent s
      → IsConsistent (create_group uuid now name description parents s).1
  unfolding create_group get_user_groups get_group_members
  new_group-IsConsistent uuid now name description parents fresh h = record {
    agrees = λ j g. ground (
      arith,
      h.agrees j g,
      fresh,
      lookup-insert uuid g (create_group uuid now name description parents s).0 s.all_groups,
      eq_iff uuid g,
    );
    known = h.known;
  }

  -- What a write to both places leaves.
  abbrev both :
      String → String → (List String → List String) → (List String → List String) → IdentityManager
  both id g on_groups on_members = record (write_members g on_members s) {
    user_groups = adjust id on_groups s.user_groups;
  }

  groups-both :
      (id g j : String) (on_groups on_members : List String → List String) {i : List String}
      → lookup id s.user_groups ≡ some i
      → get_user_groups j (both id g on_groups on_members)
        ≡ (if id == j then on_groups (get_user_groups j s) else get_user_groups j s)
  unfolding get_user_groups
  groups-both id g j on_groups on_members there =
      ground (arith, lookup-adjust id j on_groups s.user_groups, eq_iff id j)

  members-both :
      (id g k : String) (on_groups on_members : List String → List String) {x : Group}
      → lookup g s.all_groups ≡ some x
      → get_group_members k (both id g on_groups on_members)
        ≡ (if g == k then on_members (get_group_members k s) else get_group_members k s)
  unfolding get_group_members
  members-both id g k on_groups on_members there = ground (
    arith,
    lookup-adjust g k (λ x. record x { members = on_members x.members }) s.all_groups,
    eq_iff g k,
  )

  add-IsConsistent :
      (id g : String) {i : List String} {x : Group}
      → lookup id s.user_groups ≡ some i
      → lookup g s.all_groups ≡ some x
      → IsConsistent s
      → IsConsistent (both id g (add g) (add id))
  add-IsConsistent id g {i} {x} there group h = record {
    agrees = λ j k.
        rw (groups-both id g j (add g) (add id) there, members-both id g k (add g) (add id) group)
          (ground (
            arith,
            h.agrees j k,
            contains-add k g (get_user_groups j s),
            contains-add j id (get_group_members k s),
            eq_iff id j,
            eq_iff g k,
          ));
    known = λ j. h.known j ∙ sym (has_some-adjust id j (add g) s.user_groups);
  }

  discard-IsConsistent :
      (id g : String) {i : List String} {x : Group}
      → lookup id s.user_groups ≡ some i
      → lookup g s.all_groups ≡ some x
      → IsConsistent s
      → IsConsistent (both id g (discard g) (discard id))
  discard-IsConsistent id g {i} {x} there group h = record {
    agrees = λ j k.
        rw
          (
            groups-both id g j (discard g) (discard id) there,
            members-both id g k (discard g) (discard id) group,
          )
          (ground (
            arith,
            h.agrees j k,
            contains-discard k g (get_user_groups j s),
            contains-discard j id (get_group_members k s),
            eq_iff id j,
            eq_iff g k,
          ));
    known = λ j. h.known j ∙ sym (has_some-adjust id j (discard g) s.user_groups);
  }

  -- How `add_user_to_group` and `remove_user_from_group` end.
  pub data Changed (id g : String) (on_groups on_members : List String → List String)
      (r : Result IdentityError Bool × IdentityManager) : Type 0 where
    refused : r ≡ (ok false, s) → Changed id g on_groups on_members r
    changed :
        {i : List String} {x : Group}
        → lookup id s.user_groups ≡ some i
        → lookup g s.all_groups ≡ some x
        → r ≡ (ok true, both id g on_groups on_members)
        → Changed id g on_groups on_members r

  add-Changed :
      (id g : String) → IsConsistent s → Changed id g (add g) (add id) (add_user_to_group id g s)
  unfolding add_user_to_group
  add-Changed id g h = elim (Option-cases (lookup id s.identities)) [
    | inl e ↦ refused (rw (add_user_to_group, e) refl)
    | inr (i, e) ↦ elim (Option-cases (lookup g s.all_groups)) [
      | inl e2 ↦ refused (rw (add_user_to_group, e, e2) refl)
      | inr (x, e2) ↦ elim (Option-cases (lookup id s.user_groups)) [
        | inl e3 ↦ absurd (ground (arith, h.known id))
        | inr (gs, e3) ↦ changed e3 e2 (rw (add_user_to_group, e, e2, write_user_groups, e3) refl)
      ]
    ]
  ]

  remove-Changed :
      (id g : String)
      → IsConsistent s
      → Changed id g (discard g) (discard id) (remove_user_from_group id g s)
  unfolding remove_user_from_group
  remove-Changed id g h = elim (Option-cases (lookup id s.identities)) [
    | inl e ↦ refused (rw (remove_user_from_group, e) refl)
    | inr (i, e) ↦ elim (Option-cases (lookup g s.all_groups)) [
      | inl e2 ↦ refused (rw (remove_user_from_group, e, e2) refl)
      | inr (x, e2) ↦ elim (Option-cases (lookup id s.user_groups)) [
        | inl e3 ↦ absurd (ground (arith, h.known id))
        | inr (gs, e3) ↦
            changed e3 e2 (rw (remove_user_from_group, e, e2, write_user_groups, e3) refl)
      ]
    ]
  ]

  pub add_user-IsConsistent :
      (id g : String) → IsConsistent s → IsConsistent (add_user_to_group id g s).1
  add_user-IsConsistent id g h = elim (add-Changed id g h) [
    | refused e ↦ rw e h
    | changed there group e ↦ rw e (add-IsConsistent id g there group h)
  ]

  pub remove_user-IsConsistent :
      (id g : String) → IsConsistent s → IsConsistent (remove_user_from_group id g s).1
  remove_user-IsConsistent id g h = elim (remove-Changed id g h) [
    | refused e ↦ rw e h
    | changed there group e ↦ rw e (discard-IsConsistent id g there group h)
  ]

  pub never-raise :
      (id g : String) (x : IdentityError)
      → IsConsistent s
      → ((add_user_to_group id g s).0 ≢ err x) × ((remove_user_from_group id g s).0 ≢ err x)
  never-raise id g x h = (
    λ raised. elim (add-Changed id g h) [
      | refused e ↦ absurd (let k = rw e at raised in cc)
      | changed there group e ↦ absurd (let k = rw e at raised in cc)
    ],
    λ raised. elim (remove-Changed id g h) [
      | refused e ↦ absurd (let k = rw e at raised in cc)
      | changed there group e ↦ absurd (let k = rw e at raised in cc)
    ],
  )

pub create-IsConsistent :
    (bcrypt : Bcrypt) (uuid salt : String) (now changed_at : ℕ) (username email full_name : String)
    (password : Option String) (provider : IdentityProvider) (attributes : Dict Value)
    (s : IdentityManager)
    → lookup uuid s.identities ≡ none
    → IsConsistent s
    → IsConsistent
        (create_identity bcrypt uuid salt now changed_at username email full_name password provider
          attributes s).1
unfolding create_identity
create-IsConsistent bcrypt uuid salt now changed_at username email full_name password provider
      attributes s fresh h =
    let i = new_identity uuid now username email full_name provider attributes in
    let stored = store-IsConsistent s i fresh h in
    elim (Option-cases (wants_hash provider password)) [
      | inl none_wanted ↦ rw none_wanted stored
      | inr (p, wanted) ↦ elim (Result-cases (hash_password bcrypt salt p)) [
        | inr (x, raised) ↦ rw (wanted, raised) stored
        | inl (hash, made) ↦
            rw (wanted, made)
              (write_identity-IsConsistent (store_identity i s) uuid (with_hash hash changed_at)
                stored)
      ]
    ]

pub authenticate-IsConsistent :
    (bcrypt : Bcrypt) (now : ℕ) (username password : String) (provider : IdentityProvider)
    (s : IdentityManager)
    → IsConsistent s
    → IsConsistent (authenticate_user bcrypt now username password provider s).1
unfolding authenticate_user
authenticate-IsConsistent bcrypt now username password provider s h =
    elim (Option-cases (find_first (is_named username provider) s.identities)) [
      | inl e ↦ rw (authenticate_user, e) h
      | inr ((key, i), e) ↦ elim (Bool-cases (i.status == active)) [
        | inr other ↦ rw (authenticate_user, e, other) h
        | inl good ↦
            elim (Result-cases
              (credentials_fit bcrypt provider username password i.identity_id s)) [
                | inr (x, r) ↦ rw (authenticate_user, e, good, r) h
                | inl (b, r) ↦ elim (Bool-cases b) [
                  | inl t ↦
                      rw (authenticate_user, e, good, r, t)
                        (write_identity-IsConsistent s key (log_in bcrypt now) h)
                  | inr t ↦ rw (authenticate_user, e, good, r, t) h
                ]
              ]
      ]
    ]
