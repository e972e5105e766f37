-- ===== src/Identity/Tests.antt =====
-- Concrete runs of core/identity_manager.py.
use bt_api_security.Prelude.{
  String, ◌≡◌, refl, ◌≢◌, true, false, none, some, [], map, arith, eq_iff, ◌==◌, nat_Eq, string_Eq,
  take, select, contains, err,
}
use bt_api_security.Prelude.Text.{◌^◌}
use bt_api_security.Dict.{lookup, insert, adjust}
use bt_api_security.Identity.Types.{
  local, active, IdentityProvider-discrete, Identity, no_user_groups, IdentityManager, Bcrypt,
}
use bt_api_security.Identity.Manager.{
  default_groups, init, new_identity, with_hash, hash_password, create_identity, find_first,
  authenticate_user, add_user_to_group, remove_user_from_group,
}
use bt_api_security.Identity.Queries.{
  get_user_groups, get_group_members, Filters, fits, search_identities,
}
use bt_api_security.Identity.Traces.{Reach, here, next, create_step, add_step, membership_agrees}
use bt_api_security.Identity.Reports.{search_identities-take}
use bt_api_security.Identity.Shadowing.{shadowed_refused}

abbrev bcrypt : Bcrypt
bcrypt = record {
  is_available = true;
  hashpw = λ salt password. salt ^ password;
  checkpw = λ password hash. some (hash == ("salt" ^ password));
}

abbrev empty_manager : IdentityManager
empty_manager = init (record { ldap_users = none; saml = false }) 5

abbrev with_ann : IdentityManager
with_ann =
    (create_identity bcrypt "id1" "salt" 5 6 "ann" "a@x" "Ann" (some "pw") local [] empty_manager).1

abbrev with_trader : IdentityManager
with_trader = (add_user_to_group "id1" "traders" with_ann).1

with_trader-Reach : Reach bcrypt empty_manager with_trader
unfolding init lookup
with_trader-Reach =
    next (next here (create_step "id1" "salt" 5 6 "ann" "a@x" "Ann" (some "pw") local [] refl))
      (add_step "id1" "traders")

membership_agrees_example :
    (contains "traders" (get_user_groups "id1" with_trader)
      ≡ contains "id1" (get_group_members "traders" with_trader))
    × ((add_user_to_group "id1" "traders" with_trader).0 ≢ err no_user_groups)
    × ((remove_user_from_group "id1" "traders" with_trader).0 ≢ err no_user_groups)
membership_agrees_example =
    membership_agrees bcrypt (record { ldap_users = none; saml = false }) 5 with_trader "id1"
      "traders" no_user_groups with_trader-Reach

trader_is_member : contains "traders" (get_user_groups "id1" with_trader) ≡ true
unfolding get_user_groups add_user_to_group create_identity hash_password IdentityProvider-discrete
    init default_groups lookup insert adjust
trader_is_member = refl

abbrev by_query : Filters
by_query = record { query = some "AN"; group_id = none; department = none; status = some active }

search_identities-take_example :
    search_identities (λ t. t) by_query 0 with_ann
    ≡ take 1 (select (fits (λ t. t) by_query with_ann) (map (λ e. e.1) with_ann.identities))
search_identities-take_example = search_identities-take (λ t. t) by_query 0 with_ann

abbrev second_ann : IdentityManager
second_ann =
    (create_identity bcrypt "id2" "salt" 7 8 "ann" "b@x" "Ann B" (some "other") local [] with_ann).1

abbrev ann : Identity
ann = with_hash "saltpw" 6 (new_identity "id1" 5 "ann" "a@x" "Ann" local [])

apart : (a b : String) → (a == b) ≡ false → a ≢ b
apart a b h e = absurd (ground (arith, eq_iff a b))

shadowed_refused_example :
    (authenticate_user bcrypt 9 "ann" "other" local second_ann).0
    ≡ (authenticate_user bcrypt 9 "ann" "other" local with_ann).0
unfolding create_identity hash_password find_first IdentityProvider-discrete init lookup insert
    adjust
shadowed_refused_example =
    shadowed_refused bcrypt "id2" "salt" 7 8 9 "ann" "b@x" "Ann B" (some "other") [] with_ann "id1"
      ann "other" refl (apart "id1" "id2" refl) refl
