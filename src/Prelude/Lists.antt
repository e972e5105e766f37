-- ===== src/Prelude/Lists.antt =====
-- Lists measured by native numbers, Boolean searches in them, and predicates on all their items.
use Prim.Native.Nat.{ℕ, zero, suc, ◌+◌, ◌-◌, ◌≤◌}
use mathlib.Core.Path.{◌≡◌, refl, ap}
use mathlib.Core.List.{List, [], ◌∷◌, ◌++◌}
use mathlib.Core.Bool.{Bool, true, false, ◌&&◌, ◌||◌, not}
use native.Mathlib.Omega.{arith}
use bt_api_security.Prelude.Tests.{if◌then◌else◌, Eq, ◌==◌}

module _ {ℓ} {A : Type ℓ} where
  abbrev pub length : List A → ℕ
  length [] = 0
  length (x ∷ xs) = suc (length xs)

  abbrev pub drop : ℕ → List A → List A
  drop zero xs = xs
  drop (suc n) [] = []
  drop (suc n) (x ∷ xs) = drop n xs

  abbrev pub take : ℕ → List A → List A
  take zero xs = []
  take (suc n) [] = []
  take (suc n) (x ∷ xs) = x ∷ take n xs

  abbrev pub any : (A → Bool) → List A → Bool
  any p [] = false
  any p (x ∷ xs) = p x || any p xs

  abbrev pub all : (A → Bool) → List A → Bool
  all p [] = true
  all p (x ∷ xs) = p x && all p xs

  -- A comprehension with an `if`.
  abbrev pub select : (A → Bool) → List A → List A
  select p [] = []
  select p (x ∷ xs) = if p x then x ∷ select p xs else select p xs

  pub length-append : (xs ys : List A) → length (xs ++ ys) ≡ length xs + length ys
  length-append [] ys = omega arith
  length-append (x ∷ xs) ys = omega (arith, length-append xs ys)

  pub append-[] : (xs : List A) → xs ++ [] ≡ xs
  append-[] [] = refl
  append-[] (x ∷ xs) = ap (λ l. x ∷ l) (append-[] xs)

  pub append_assoc : (xs ys zs : List A) → (xs ++ ys) ++ zs ≡ xs ++ (ys ++ zs)
  append_assoc [] ys zs = refl
  append_assoc (x ∷ xs) ys zs = ap (λ l. x ∷ l) (append_assoc xs ys zs)

  pub length-drop : (n : ℕ) (xs : List A) → length (drop n xs) ≡ length xs - n
  length-drop zero xs = omega arith
  length-drop (suc n) [] = omega arith
  length-drop (suc n) (x ∷ xs) = omega (arith, length-drop n xs)

  pub length-select-le : (p : A → Bool) (xs : List A) → length (select p xs) ≤ length xs
  length-select-le p [] = omega arith
  length-select-le p (x ∷ xs) = ground (arith, length-select-le p xs)

  abbrev pub All {κ} : (A → Type κ) → List A → Type κ
  All P [] = Unit
  All P (x ∷ xs) = P x × All P xs

-- A Python set: its items without repetition, in the order of iteration.
module _ {ℓ} {A : Type ℓ} ⦃e : Eq A⦄ where
  abbrev pub contains : A → List A → Bool
  contains a xs = any (λ x. x == a) xs

  abbrev pub add : A → List A → List A
  add a xs = if contains a xs then xs else xs ++ a ∷ []

  abbrev pub discard : A → List A → List A
  discard a xs = select (λ x. not (x == a)) xs

  -- `xs.remove(a)` for an `a` that is there: the first one goes.
  abbrev pub remove_first : A → List A → List A
  remove_first a [] = []
  remove_first a (x ∷ xs) = if x == a then xs else x ∷ remove_first a xs

  abbrev pub is_subset : List A → List A → Bool
  is_subset xs ys = all (λ x. contains x ys) xs

  pub contains_here : (a : A) (xs : List A) → contains a (a ∷ xs) ≡ true
  contains_here a xs = rw ((e.test_iff a a).1 refl)

  pub contains_there : (a x : A) (xs : List A) → contains a xs ≡ true → contains a (x ∷ xs) ≡ true
  contains_there a x xs h = ground arith

  -- Membership in a set after `add` and `discard`.
  pub contains-append :
      (a : A) (xs ys : List A) → contains a (xs ++ ys) ≡ (contains a xs || contains a ys)
  contains-append a [] ys = refl
  contains-append a (x ∷ xs) ys = ground (arith, contains-append a xs ys)

  pub contains-add_self : (a : A) (xs : List A) → contains a (add a xs) ≡ true
  contains-add_self a xs = ground (arith, contains-append a xs (a ∷ []), e.test_iff a a)

  pub contains-add_of_contains :
      (a b : A) (xs : List A) → contains a xs ≡ true → contains a (add b xs) ≡ true
  contains-add_of_contains a b xs h = ground (arith, contains-append a xs (b ∷ []))

  pub contains-discard_self : (a : A) (xs : List A) → contains a (discard a xs) ≡ false
  contains-discard_self a [] = refl
  contains-discard_self a (x ∷ xs) = ground (arith, contains-discard_self a xs)
