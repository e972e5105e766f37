-- ===== src/Identity/Manager.antt =====
-- `IdentityManager` of core/identity_manager.py: identities, authentication, group membership.
use bt_api_security.Prelude.{
  String, ℕ, Bool, true, false, not, ◌&&◌, Option, none, some, List, [], ◌∷◌, ◌++◌, if◌then◌else◌,
  ◌==◌, nat_Eq, string_Eq, contains, add, discard, Result, ok, err, Exec, ◌>>=◌, ◌>>◌, pure, lift,
  modify,
}
use bt_api_security.Dict.{Dict, lookup, insert, adjust}
use bt_api_security.Identity.Types.{
  IdentityProvider, local, ldap, saml, openid_connect, active_directory, identity_provider_Eq,
  UserStatus, active, user_status_Eq, Value, text, is_falsy, Identity, Group, IdentityError,
  bcrypt_required, hash_not_text, invalid_hash, no_user_groups, Config, IdentityManager, Bcrypt,
}

abbrev pub has_some : {A : Type 0} → Option A → Bool
has_some none = false
has_some (some a) = true

abbrev pub or_empty : Option (List String) → List String
or_empty none = []
or_empty (some xs) = xs

unfoldable pub default_providers : Config → List IdentityProvider
default_providers c =
    local ∷ (if has_some c.ldap_users then ldap ∷ [] else []) ++ (if c.saml then saml ∷ [] else [])

abbrev pub new_group : String → String → String → List String → ℕ → Group
new_group group_id name description parents now = record {
  group_id = group_id;
  name = name;
  description = description;
  members = [];
  parent_groups = parents;
  attributes = [];
  created_at = now;
}

unfoldable pub default_groups : ℕ → Dict Group
default_groups now =
    ("traders", new_group "traders" "Traders" "Trading desk users" [] now)
    ∷ ("administrators", new_group "administrators" "Administrators" "System administrators" [] now)
    ∷ ("auditors", new_group "auditors" "Auditors" "Compliance and audit users" [] now)
    ∷ []

unfoldable pub init : Config → ℕ → IdentityManager
unfolding default_providers default_groups
init c now = record {
  providers = default_providers c;
  ldap_users = or_empty c.ldap_users;
  identities = [];
  all_groups = default_groups now;
  user_groups = [];
}

abbrev pub write_identity : String → (Identity → Identity) → IdentityManager → IdentityManager
write_identity identity_id f s = record s { identities = adjust identity_id f s.identities }

abbrev pub write_group : String → (Group → Group) → IdentityManager → IdentityManager
write_group group_id f s = record s { all_groups = adjust group_id f s.all_groups }

abbrev pub set_attribute : String → Value → Identity → Identity
set_attribute key v i = record i { attributes = insert key v i.attributes }

abbrev pub set_status : UserStatus → Identity → Identity
set_status st i = record i { status = st }

abbrev pub new_identity :
    String → ℕ → String → String → String → IdentityProvider → Dict Value → Identity
new_identity id now username email full_name provider attributes = record {
  identity_id = id;
  username = username;
  email = email;
  full_name = full_name;
  department = none;
  title = none;
  manager_id = none;
  groups = [];
  attributes = attributes;
  provider = provider;
  status = active;
  created_at = now;
  last_login = none;
  password_changed = none;
}

abbrev pub store_identity : Identity → IdentityManager → IdentityManager
store_identity i s = record s {
  identities = insert i.identity_id i s.identities;
  user_groups = insert i.identity_id [] s.user_groups;
}

-- `provider == LOCAL and password`
abbrev pub wants_hash : IdentityProvider → Option String → Option String
wants_hash provider none = none
wants_hash provider (some password) =
    if provider == local && not (password == "") then some password else none

-- The writes of a password hash.
abbrev pub with_hash : String → ℕ → Identity → Identity
with_hash hash now i = record (set_attribute "password_hash" (text hash) i) {
  password_changed = some now;
}

-- The values of a dictionary that satisfy a test: the key and the object of the first one.
unfoldable pub find_first : {V : Type 0} → (V → Bool) → Dict V → Option (String × V)
find_first p [] = none
find_first p ((k, v) ∷ d) = let rest = find_first p d in if p v then some (k, v) else rest

abbrev pub is_named : String → IdentityProvider → Identity → Bool
is_named username provider i = i.username == username && i.provider == provider

unfoldable pub authenticate_ldap : String → IdentityManager → Bool
authenticate_ldap username s = contains username s.ldap_users

module _ (bcrypt : Bcrypt) where
  -- `salt` is what `bcrypt.gensalt` draws.
  unfoldable pub hash_password : String → String → Result IdentityError String
  hash_password salt password =
      if bcrypt.is_available then ok (bcrypt.hashpw salt password) else err bcrypt_required

  -- `uuid` is drawn; `changed` is the clock of `password_changed`.
  unfoldable pub create_identity :
      (uuid salt : String) (now changed : ℕ) (username email full_name : String)
      → Option String
      → IdentityProvider
      → Dict Value
      → Exec IdentityError IdentityManager Identity
  unfolding hash_password
  create_identity uuid salt now changed username email full_name password provider attributes =
      let i = new_identity uuid now username email full_name provider attributes in
      modify (store_identity i) >> elim (wants_hash provider password) [
        | none ↦ pure i
        | some p ↦ lift (hash_password salt p) >>= λ hash.
            modify (write_identity uuid (with_hash hash changed)) >> pure (with_hash hash changed i)
      ]

  -- The check against the stored value.
  unfoldable pub check_hash : String → Value → Result IdentityError Bool
  check_hash password v =
      if is_falsy v
      then ok false
      else if not bcrypt.is_available
      then err bcrypt_required
      else elim v [
        | text hash ↦ elim (bcrypt.checkpw password hash) [
          | none ↦ err invalid_hash
          | some b ↦ ok b
        ]
        | _ ↦ err hash_not_text
      ]

  unfoldable pub verify_password : String → String → IdentityManager → Result IdentityError Bool
  unfolding check_hash
  verify_password identity_id password s = elim (lookup identity_id s.identities) [
    | none ↦ ok false
    | some i ↦
        if not (i.provider == local) then ok false else elim (lookup "password_hash" i.attributes) [
          | none ↦ ok false
          | some v ↦ check_hash password v
        ]
  ]

  -- The credentials, for each provider.
  unfoldable pub credentials_fit :
      IdentityProvider → String → String → String → IdentityManager → Result IdentityError Bool
  unfolding verify_password authenticate_ldap
  credentials_fit local username password identity_id s = verify_password identity_id password s
  credentials_fit ldap username password identity_id s = ok (authenticate_ldap username s)
  credentials_fit saml username password identity_id s = ok false
  credentials_fit openid_connect username password identity_id s = ok false
  credentials_fit active_directory username password identity_id s = ok false

  abbrev pub log_in : ℕ → Identity → Identity
  log_in now i = record i { last_login = some now }

  -- The object found may stand under a key that is not its id.
  unfoldable pub authenticate_user :
      ℕ → String → String → IdentityProvider → Exec IdentityError IdentityManager (Option Identity)
  unfolding find_first credentials_fit
  authenticate_user now username password provider s =
      elim (find_first (is_named username provider) s.identities) [
        | none ↦ (ok none, s)
        | some (key, i) ↦
            if not (i.status == active)
            then (ok none, s)
            else elim (credentials_fit provider username password i.identity_id s) [
              | err e ↦ (err e, s)
              | ok false ↦ (ok none, s)
              | ok true ↦ (ok (some (log_in now i)), write_identity key (log_in now) s)
            ]
      ]

unfoldable pub create_group :
    (uuid : String) (now : ℕ) (name description : String)
    → Option (List String)
    → IdentityManager
    → Group × IdentityManager
create_group uuid now name description parents s =
    let g = new_group uuid name description (or_empty parents) now in
    (g, record s { all_groups = insert uuid g s.all_groups })

abbrev pub write_members : String → (List String → List String) → IdentityManager → IdentityManager
write_members group_id f s = write_group group_id (λ g. record g { members = f g.members }) s

-- `self._user_groups[identity_id]` and a write to the set there.
abbrev pub write_user_groups :
    String → (List String → List String) → Exec IdentityError IdentityManager Bool
write_user_groups identity_id f s = elim (lookup identity_id s.user_groups) [
  | none ↦ (err no_user_groups, s)
  | some gs ↦ (ok true, record s { user_groups = adjust identity_id f s.user_groups })
]

-- The methods below that change membership write the group first.
unfoldable pub add_user_to_group : String → String → Exec IdentityError IdentityManager Bool
add_user_to_group identity_id group_id s =
    if has_some (lookup identity_id s.identities) && has_some (lookup group_id s.all_groups)
    then write_user_groups identity_id (add group_id) (write_members group_id (add identity_id) s)
    else (ok false, s)

unfoldable pub remove_user_from_group : String → String → Exec IdentityError IdentityManager Bool
remove_user_from_group identity_id group_id s =
    if has_some (lookup identity_id s.identities) && has_some (lookup group_id s.all_groups)
    then write_user_groups identity_id (discard group_id)
        (write_members group_id (discard identity_id) s)
    else (ok false, s)
