-- ===== src/Dict/Laws.antt =====
-- The laws of dictionaries: what each operation leaves to be read, and that keys stay unique.
use bt_api_security.Prelude.{
  String, none, some, List, [], ◌∷◌, ◌≡◌, refl, ◌≢◌, ◌==◌, arith, string_Eq, if◌then◌else◌,
  contains, eq_iff, Option-cases, Bool-cases, inl, inr, ◌⊎◌, ◌||◌, true,
}
use bt_api_security.Dict.{Dict, lookup, has_key, insert, erase, adjust, erase_all, IsUnique}
use mathlib.Core.Option

module _ {ℓ} {V : Type ℓ} where
  pub lookup-insert :
      (k j : String) (v : V) (d : Dict V)
      → lookup j (insert k v d) ≡ (if k == j then some v else lookup j d)
  unfolding lookup insert
  lookup-insert k j v [] = refl
  lookup-insert k j v ((i, w) ∷ d) =
      ground (arith, eq_iff k j, eq_iff i k, eq_iff i j, lookup-insert k j v d)

  pub lookup-erase :
      (k j : String) (d : Dict V) → lookup j (erase k d) ≡ (if k == j then none else lookup j d)
  unfolding lookup erase
  lookup-erase k j [] = ground arith
  lookup-erase k j ((i, w) ∷ d) =
      ground (arith, eq_iff k j, eq_iff i k, eq_iff i j, lookup-erase k j d)

  pub lookup-adjust :
      (k j : String) (f : V → V) (d : Dict V)
      → lookup j (adjust k f d) ≡ (if k == j then Option.map f (lookup j d) else lookup j d)
  unfolding lookup adjust
  lookup-adjust k j f [] = ground arith
  lookup-adjust k j f ((i, w) ∷ d) =
      ground (arith, eq_iff k j, eq_iff i k, eq_iff i j, lookup-adjust k j f d)

  pub lookup-insert_self : (k : String) (v : V) (d : Dict V) → lookup k (insert k v d) ≡ some v
  lookup-insert_self k v d = ground (arith, eq_iff k k, lookup-insert k k v d)

  pub lookup-insert_ne :
      (k j : String) (v : V) (d : Dict V) → k ≢ j → lookup j (insert k v d) ≡ lookup j d
  lookup-insert_ne k j v d h = ground (arith, eq_iff k j, lookup-insert k j v d)

  pub lookup-erase_self : (k : String) (d : Dict V) → lookup k (erase k d) ≡ none
  lookup-erase_self k d = ground (arith, eq_iff k k, lookup-erase k k d)

  pub lookup-erase_ne : (k j : String) (d : Dict V) → k ≢ j → lookup j (erase k d) ≡ lookup j d
  lookup-erase_ne k j d h = ground (arith, eq_iff k j, lookup-erase k j d)

  pub lookup-adjust_self :
      (k : String) (f : V → V) (d : Dict V) {v : V}
      → lookup k d ≡ some v
      → lookup k (adjust k f d) ≡ some (f v)
  lookup-adjust_self k f d h = ground (arith, eq_iff k k, lookup-adjust k k f d)

  pub lookup-adjust_ne :
      (k j : String) (f : V → V) (d : Dict V) → k ≢ j → lookup j (adjust k f d) ≡ lookup j d
  lookup-adjust_ne k j f d h = ground (arith, eq_iff k j, lookup-adjust k j f d)

  pub lookup-erase_all :
      (j : String) (ks : List String) (d : Dict V)
      → lookup j (erase_all ks d) ≡ (if contains j ks then none else lookup j d)
  unfolding erase_all
  lookup-erase_all j [] d = refl
  lookup-erase_all j (k ∷ ks) d =
      ground (arith, lookup-erase_all j ks (erase k d), lookup-erase k j d)

  pub insert-IsUnique : (k : String) (v : V) (d : Dict V) → IsUnique d → IsUnique (insert k v d)
  unfolding insert has_key
  insert-IsUnique k v [] h = ground arith
  insert-IsUnique k v ((j, w) ∷ d) h =
      ground (arith, eq_iff j k, eq_iff k j, insert-IsUnique k v d h.1, lookup-insert k j v d)

  pub erase-IsUnique : (k : String) (d : Dict V) → IsUnique d → IsUnique (erase k d)
  unfolding erase has_key
  erase-IsUnique k [] h = tt
  erase-IsUnique k ((j, w) ∷ d) h =
      ground (arith, eq_iff j k, eq_iff k j, erase-IsUnique k d h.1, lookup-erase k j d)

  pub adjust-IsUnique : (k : String) (f : V → V) (d : Dict V) → IsUnique d → IsUnique (adjust k f d)
  unfolding adjust has_key
  adjust-IsUnique k f [] h = tt
  adjust-IsUnique k f ((j, w) ∷ d) h =
      ground (arith, eq_iff j k, eq_iff k j, adjust-IsUnique k f d h.1, lookup-adjust k j f d)

  pub erase_all-IsUnique : (ks : List String) (d : Dict V) → IsUnique d → IsUnique (erase_all ks d)
  unfolding erase_all
  erase_all-IsUnique [] d h = h
  erase_all-IsUnique (k ∷ ks) d h = erase_all-IsUnique ks (erase k d) (erase-IsUnique k d h)

  -- Presence of a key, and the value that shows it.
  pub has_key_of_lookup :
      (k : String) (d : Dict V) {v : V} → lookup k d ≡ some v → has_key k d ≡ true
  unfolding has_key
  has_key_of_lookup k d h = ground arith

  pub lookup_of_has_key :
      (k : String) (d : Dict V) → has_key k d ≡ true → (v : V) × (lookup k d ≡ some v)
  unfolding has_key
  lookup_of_has_key k d h = elim (Option-cases (lookup k d)) [
    | inl e ↦ absurd (ground arith)
    | inr found ↦ found
  ]

  pub has_key-insert :
      (k j : String) (v : V) (d : Dict V) → has_key j (insert k v d) ≡ (k == j || has_key j d)
  unfolding has_key
  has_key-insert k j v d = ground (arith, lookup-insert k j v d)

  pub has_key-insert_of_has_key :
      (k j : String) (v : V) (d : Dict V) → has_key j d ≡ true → has_key j (insert k v d) ≡ true
  has_key-insert_of_has_key k j v d h = ground (arith, has_key-insert k j v d)

  pub has_key-adjust :
      (k j : String) (f : V → V) (d : Dict V) → has_key j (adjust k f d) ≡ has_key j d
  unfolding has_key
  has_key-adjust k j f d = ground (arith, lookup-adjust k j f d)

  -- What a lookup finds after an update: the new entry, or an old one.
  pub lookup-insert-cases :
      (k j : String) (v : V) (d : Dict V) {w : V}
      → lookup j (insert k v d) ≡ some w
      → ((k ≡ j) × (w ≡ v)) ⊎ (lookup j d ≡ some w)
  lookup-insert-cases k j v d h = ground (arith, eq_iff k j, lookup-insert k j v d)

  pub lookup-adjust-cases :
      (k j : String) (f : V → V) (d : Dict V) {w : V}
      → lookup j (adjust k f d) ≡ some w
      → ((v : V) × (k ≡ j) × (lookup j d ≡ some v) × (w ≡ f v)) ⊎ (lookup j d ≡ some w)
  lookup-adjust-cases k j f d h = elim (Bool-cases (k == j)) [
    | inr other ↦ inr (ground (arith, lookup-adjust k j f d))
    | inl same ↦ elim (Option-cases (lookup j d)) [
      | inl e ↦ absurd (ground (arith, lookup-adjust k j f d))
      | inr (v, e) ↦ inl (v, (eq_iff k j).0 same, e, ground (arith, lookup-adjust k j f d))
    ]
  ]

  pub lookup-erase-cases :
      (k j : String) (d : Dict V) {w : V}
      → lookup j (erase k d) ≡ some w
      → (k ≢ j) × (lookup j d ≡ some w)
  lookup-erase-cases k j d h =
      (λ e. ground (arith, eq_iff k j, lookup-erase k j d), ground (arith, lookup-erase k j d))
