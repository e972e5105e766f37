-- ===== src/Dict/Sweep.antt =====
-- Deleting the keys of the entries that fail a test, one after the other, against filtering.
use bt_api_security.Prelude.{
  String, suc, ◌≡◌, refl, ap, ◌∙◌, inl, inr, Bool, false, not, List, [], ◌∷◌, arith, eq_iff,
  Bool-cases, nat_Eq, string_Eq, length, select, contains,
}
use bt_api_security.Dict.{Dict, lookup, has_key, erase, erase_all, keys, IsUnique}

module _ {ℓ} {V : Type ℓ} where
  erase_absent : (k : String) (d : Dict V) → has_key k d ≡ false → erase k d ≡ d
  unfolding erase has_key lookup
  erase_absent k [] h = refl
  erase_absent k ((j, v) ∷ d) h = ground (arith, erase_absent k d)

  erase_here : (k : String) (v : V) (d : Dict V) → erase k ((k, v) ∷ d) ≡ erase k d
  unfolding erase
  erase_here k v d = ground (arith, eq_iff k k)

  erase_all-cons :
      (ks : List String) (k : String) (v : V) (d : Dict V)
      → contains k ks ≡ false
      → erase_all ks ((k, v) ∷ d) ≡ (k, v) ∷ erase_all ks d
  unfolding erase_all erase
  erase_all-cons [] k v d h = refl
  erase_all-cons (j ∷ ks) k v d h =
      ground (arith, eq_iff j k, eq_iff k j, erase_all-cons ks k v (erase j d))

  contains-keys :
      (f : String × V → Bool) (k : String) (d : Dict V)
      → has_key k d ≡ false
      → contains k (keys (select f d)) ≡ false
  unfolding has_key lookup
  contains-keys f k [] h = refl
  contains-keys f k ((j, v) ∷ d) h = ground (arith, contains-keys f k d)

  -- The entries that are left are the ones that fail the test, in their order.
  pub erase_all_selected :
      (f : String × V → Bool) (d : Dict V)
      → IsUnique d
      → erase_all (keys (select f d)) d ≡ select (λ e. not (f e)) d
  unfolding erase_all erase
  erase_all_selected f [] u = refl
  erase_all_selected f ((k, v) ∷ d) u = elim (Bool-cases (f (k, v))) [
    | inl out ↦ rw out (
        ap (erase_all (keys (select f d))) (erase_here k v d ∙ erase_absent k d u.0)
        ∙ erase_all_selected f d u.1)
    | inr stays ↦ rw stays (
        erase_all-cons (keys (select f d)) k v d (contains-keys f k d u.0)
        ∙ ap (λ x. (k, v) ∷ x) (erase_all_selected f d u.1))
  ]

  pub length-keys : (d : Dict V) → length (keys d) ≡ length d
  length-keys [] = refl
  length-keys (e ∷ d) = ap suc (length-keys d)

  pub select-agree :
      (f g : String × V → Bool) (d : Dict V)
      → ((e : String × V) → f e ≡ g e)
      → select f d ≡ select g d
  select-agree f g [] h = refl
  select-agree f g (e ∷ d) h = ground (arith, h e, select-agree f g d h)
