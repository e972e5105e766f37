-- ===== src/Identity/Types.antt =====
-- The enumerations, data classes and state of core/identity_manager.py.
use bt_api_security.Prelude.{
  String, ℕ, Bool, true, false, Option, List, [], ◌∷◌, nat_eq, Eq, ◌==◌, nat_Eq, string_Eq, holds,
  holds_iff,
}
use bt_api_security.Dict.{Dict}

pub data IdentityProvider : Type 0 where
  local ldap saml openid_connect active_directory : IdentityProvider

pub data UserStatus : Type 0 where
  active inactive suspended locked : UserStatus

unfoldable pub IdentityProvider-discrete : Discrete IdentityProvider
IdentityProvider-discrete = hlevel

instance abbrev pub identity_provider_Eq : Eq IdentityProvider
identity_provider_Eq = record {
  test = λ a b. holds (IdentityProvider-discrete a b);
  test_iff = λ a b. holds_iff (IdentityProvider-discrete a b);
}

unfoldable pub UserStatus-discrete : Discrete UserStatus
UserStatus-discrete = hlevel

instance abbrev pub user_status_Eq : Eq UserStatus
user_status_Eq = record {
  test = λ a b. holds (UserStatus-discrete a b);
  test_iff = λ a b. holds_iff (UserStatus-discrete a b);
}

unfoldable pub provider_value : IdentityProvider → String
provider_value local = "local"
provider_value ldap = "ldap"
provider_value saml = "saml"
provider_value openid_connect = "openid_connect"
provider_value active_directory = "active_directory"

unfoldable pub status_value : UserStatus → String
status_value active = "active"
status_value inactive = "inactive"
status_value suspended = "suspended"
status_value locked = "locked"

-- The values of attributes: `None`, texts, numbers, and lists or sets, whose items are given as `str`
-- gives them.
pub data Value : Type 0 where
  nothing : Value
  text : String → Value
  number : ℕ → Value
  texts : List String → Value

-- `if not v`
abbrev pub is_falsy : Value → Bool
is_falsy nothing = true
is_falsy (text t) = t == ""
is_falsy (number n) = nat_eq n 0
is_falsy (texts []) = true
is_falsy (texts (t ∷ ts)) = false

pub record Identity : Type 0 where
  pub identity_id : String
  pub username : String
  pub email : String
  pub full_name : String
  pub department : Option String
  pub title : Option String
  pub manager_id : Option String
  pub groups : List String
  pub attributes : Dict Value
  pub provider : IdentityProvider
  pub status : UserStatus
  pub created_at : ℕ
  pub last_login : Option ℕ
  pub password_changed : Option ℕ

pub record Group : Type 0 where
  pub group_id : String
  pub name : String
  pub description : String
  pub members : List String
  pub parent_groups : List String
  pub attributes : Dict Value
  pub created_at : ℕ

-- `ImportError`, the exceptions of a stored hash that is no text or that bcrypt refuses, `KeyError`.
pub data IdentityError : Type 0 where
  bcrypt_required hash_not_text invalid_hash no_user_groups : IdentityError

-- The configuration: the user names of its LDAP section, if it has one that is not empty, and
-- whether it has a SAML section.
pub record Config : Type 0 where
  pub ldap_users : Option (List String)
  pub saml : Bool

pub record IdentityManager : Type 0 where
  pub providers : List IdentityProvider
  pub ldap_users : List String
  pub identities : Dict Identity
  pub all_groups : Dict Group
  pub user_groups : Dict (List String)

-- `bcrypt`: the hash of a password under a salt, and the check of a password, `none` for an
-- exception.
pub record Bcrypt : Type 0 where
  pub is_available : Bool
  pub hashpw : String → String → String
  pub checkpw : String → String → Option Bool
