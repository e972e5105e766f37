-- ===== src/Identity/Reports.antt =====
-- The searches and counts of core/identity_manager.py.
use bt_api_security.Prelude.{
  String, ℕ, zero, suc, ◌+◌, ◌≤◌, ◌≡◌, refl, sym, ap, ◌∙◌, inl, inr, Bool, true, false, List, [],
  ◌∷◌, ◌++◌, map, arith, leb, Bool-cases, nat_Eq, string_Eq, length, take, select, length-append,
  append-[], append_assoc,
}
use bt_api_security.Dict.{Dict}
use bt_api_security.Identity.Types.{Identity, IdentityManager}
use bt_api_security.Identity.Queries.{Filters, fits, search_loop, search_identities}

-- A limit of 0 stops after the first result too.
abbrev pub at_least_one : ℕ → ℕ
at_least_one zero = 1
at_least_one (suc n) = suc n

at_least_one-le : (n : ℕ) → n ≤ at_least_one n
at_least_one-le zero = omega arith
at_least_one-le (suc n) = omega arith

at_least_one-same : (n : ℕ) → 2 ≤ at_least_one n → at_least_one n ≡ n
at_least_one-same zero h = absurd (omega (arith, h))
at_least_one-same (suc n) h = refl

-- With room for `n` and one more results, the loop takes that many.
search_loop-take :
    (lower : String → String) (p : Identity → Bool) (limit n : ℕ) (results : List Identity)
    (d : Dict Identity)
    → length results + suc n ≡ at_least_one limit
    → search_loop lower p limit results d ≡ results ++ take (suc n) (select p (map (λ e. e.1) d))
unfolding search_loop
search_loop-take lower p limit n results [] room = sym (append-[] results)
search_loop-take lower p limit zero results ((k, i) ∷ d) room = elim (Bool-cases (p i)) [
  | inr no' ↦ rw no' (search_loop-take lower p limit zero results d room)
  | inl yes' ↦
      let full : leb limit (length (results ++ i ∷ [])) ≡ true =
        ground (arith, at_least_one-le limit, length-append results (i ∷ [])) in
      rw (yes', full) refl
]
search_loop-take lower p limit (suc n) results ((k, i) ∷ d) room = elim (Bool-cases (p i)) [
  | inr no' ↦ rw no' (search_loop-take lower p limit (suc n) results d room)
  | inl yes' ↦
      let longer = length-append results (i ∷ []) in
      let same = at_least_one-same limit (omega (arith, room)) in
      let more : leb limit (length (results ++ i ∷ [])) ≡ false =
        ground (arith, same, longer, room) in
      let rest =
        search_loop-take lower p limit n (results ++ i ∷ []) d (omega (arith, longer, room)) in
      rw (yes', more) (rest ∙ append_assoc results (i ∷ []) _)
]

room-at_least_one : (limit : ℕ) → (n : ℕ) × (suc n ≡ at_least_one limit)
room-at_least_one zero = (0, refl)
room-at_least_one (suc n) = (n, refl)

-- A search returns the identities that fit the filters, in the order of their creation, as many as
-- the limit, and one where the limit is 0.
pub search_identities-take :
    (lower : String → String) (f : Filters) (limit : ℕ) (s : IdentityManager)
    → search_identities lower f limit s
      ≡ take (at_least_one limit) (select (fits lower f s) (map (λ e. e.1) s.identities))
unfolding search_identities
search_identities-take lower f limit s =
    let (n, room) = room-at_least_one limit in
    search_loop-take lower (fits lower f s) limit n [] s.identities (omega (arith, room))
    ∙ ap (λ m. take m (select (fits lower f s) (map (λ e. e.1) s.identities))) room
