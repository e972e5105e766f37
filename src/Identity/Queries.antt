-- ===== src/Identity/Queries.antt =====
-- `IdentityManager` of core/identity_manager.py: what only reads.
use bt_api_security.Prelude.{
  String, ℕ, ◌+◌, Bool, true, false, ◌&&◌, ◌||◌, Option, none, some, List, [], ◌∷◌, ◌++◌, leb,
  if◌then◌else◌, ◌==◌, nat_Eq, string_Eq, length, contains, add,
}
use bt_api_security.Prelude.Text.{is_within}
use bt_api_security.Dict.{Dict, lookup, insert}
use bt_api_security.Identity.Types.{
  IdentityProvider, UserStatus, user_status_Eq, Value, text, number, texts, nothing, Identity,
  Group, IdentityManager, provider_value, status_value,
}
use bt_api_security.Identity.Manager.{find_first}

unfoldable pub get_user_groups : String → IdentityManager → List String
get_user_groups identity_id s = elim (lookup identity_id s.user_groups) [ none ↦ [] | some gs ↦ gs ]

unfoldable pub get_group_members : String → IdentityManager → List String
get_group_members group_id s = elim (lookup group_id s.all_groups) [
  | none ↦ []
  | some g ↦ g.members
]

unfoldable pub get_identity : String → IdentityManager → Option Identity
get_identity identity_id s = lookup identity_id s.identities

unfoldable pub get_group : String → IdentityManager → Option Group
get_group group_id s = lookup group_id s.all_groups

unfoldable pub get_identity_by_username : String → IdentityManager → Option Identity
unfolding find_first
get_identity_by_username username s = elim (find_first (λ i. i.username == username) s.identities) [
  | none ↦ none
  | some (key, i) ↦ some i
]

-- The filters of a search; `none` and an empty text filter nothing.
pub record Filters : Type 0 where
  pub query : Option String
  pub group_id : Option String
  pub department : Option String
  pub status : Option UserStatus

-- A filter that holds unless it is a text that is not empty and fails the test.
abbrev pub unless_blank : Option String → (String → Bool) → Bool
unless_blank none p = true
unless_blank (some t) p = t == "" || p t

abbrev pub is_text : Option String → String → Bool
is_text none t = false
is_text (some d) t = d == t

abbrev pub has_status : Option UserStatus → Identity → Bool
has_status none i = true
has_status (some st) i = i.status == st

-- `lower` is `str.lower`.
module _ (lower : String → String) where
  unfoldable pub fits_query : Identity → String → Bool
  unfolding is_within
  fits_query i query =
      is_within (lower query) (lower i.username)
      || is_within (lower query) (lower i.email)
      || is_within (lower query) (lower i.full_name)

  unfoldable pub fits : Filters → IdentityManager → Identity → Bool
  unfolding fits_query get_user_groups
  fits f s i =
      unless_blank f.query (fits_query i)
      && unless_blank f.group_id (λ g. contains g (get_user_groups i.identity_id s))
      && unless_blank f.department (is_text i.department)
      && has_status f.status i

  -- The loop, which stops when the results are as many as the limit after one is added.
  unfoldable pub search_loop : (Identity → Bool) → ℕ → List Identity → Dict Identity → List Identity
  search_loop p limit results [] = results
  search_loop p limit results ((k, i) ∷ d) =
      let with_i = search_loop p limit (results ++ i ∷ []) d in
      let without_i = search_loop p limit results d in
      if p i
      then (if leb limit (length (results ++ i ∷ [])) then results ++ i ∷ [] else with_i)
      else without_i

  unfoldable pub search_identities : Filters → ℕ → IdentityManager → List Identity
  unfolding fits search_loop
  search_identities f limit s = search_loop (fits f s) limit [] s.identities

abbrev pub permission_texts : Option Value → List String
permission_texts none = []
permission_texts (some nothing) = []
permission_texts (some (text t)) = []
permission_texts (some (number n)) = []
permission_texts (some (texts ts)) = ts

abbrev pub add_all : List String → List String → List String
add_all [] xs = xs
add_all (t ∷ ts) xs = add_all ts (add t xs)

abbrev pub group_permissions : Option Group → List String
group_permissions none = []
group_permissions (some g) = permission_texts (lookup "permissions" g.attributes)

unfoldable pub collect_permissions : List String → IdentityManager → List String → List String
collect_permissions [] s found = found
collect_permissions (g ∷ gs) s found =
    collect_permissions gs s (add_all (group_permissions (lookup g s.all_groups)) found)

-- The groups and the direct permissions; the inherited ones are always none.
unfoldable pub get_user_permissions :
    String → IdentityManager → List String × List String × List String
unfolding get_user_groups collect_permissions
get_user_permissions identity_id s =
    (get_user_groups identity_id s, collect_permissions (get_user_groups identity_id s) s [], [])

-- Both synchronisations are placeholders with the same answer: created, updated, errors.
unfoldable pub sync_with_external_provider : IdentityProvider → String × ℕ × ℕ × List String
unfolding provider_value
sync_with_external_provider p = (provider_value p, 0, 0, [])

pub record Summary : Type 0 where
  pub total_identities : ℕ
  pub total_groups : ℕ
  pub by_status : Dict ℕ
  pub by_provider : Dict ℕ
  pub providers : List IdentityProvider

abbrev pub count_of : String → Dict ℕ → ℕ
count_of k d = elim (lookup k d) [ none ↦ 0 | some n ↦ n ]

-- `counts[k] = counts.get(k, 0) + 1` for a key of each identity.
unfoldable pub tally : (Identity → String) → Dict Identity → Dict ℕ → Dict ℕ
tally key [] counts = counts
tally key ((k, i) ∷ d) counts = tally key d (insert (key i) (count_of (key i) counts + 1) counts)

unfoldable pub get_identity_summary : IdentityManager → Summary
unfolding tally status_value provider_value
get_identity_summary s = record {
  total_identities = length s.identities;
  total_groups = length s.all_groups;
  by_status = tally (λ i. status_value i.status) s.identities [];
  by_provider = tally (λ i. provider_value i.provider) s.identities [];
  providers = s.providers;
}
