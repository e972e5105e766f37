-- ===== src/Prelude/Objects.antt =====
-- A method of an object: it reads and changes the object's state, and returns or raises. What was
-- written before a raise stays written.
use mathlib.Core.Path.{◌≡◌, refl}
use mathlib.Core.Logic.{◌⊎◌, inl, inr}
use mathlib.Core.Bool.{Bool, true, false}
use mathlib.Core.Option.{Option, none, some}

pub data Result (E A : Type 0) : Type 0 where
  ok : A → Result E A
  err : E → Result E A

abbrev pub Exec : Type 0 → Type 0 → Type 0 → Type 0
Exec E S A = S → Result E A × S

-- What follows a call: the rest of the method, or the raise goes on.
abbrev pub resume : {E S A B : Type 0} → Result E A → (A → Exec E S B) → Exec E S B
resume (ok a) f s = f a s
resume (err e) f s = (err e, s)

infixl 5 ◌>>=◌ ◌>>◌
abbrev pub ◌>>=◌ : {E S A B : Type 0} → Exec E S A → (A → Exec E S B) → Exec E S B
◌>>=◌ m f s = resume (m s).0 f (m s).1

abbrev pub ◌>>◌ : {E S A B : Type 0} → Exec E S A → Exec E S B → Exec E S B
m >> k = m >>= λ _. k

module _ {E S : Type 0} where
  abbrev pub pure : {A : Type 0} → A → Exec E S A
  pure a s = (ok a, s)

  abbrev pub raise : {A : Type 0} → E → Exec E S A
  raise e s = (err e, s)

  -- A call that reads and writes no state.
  abbrev pub lift : {A : Type 0} → Result E A → Exec E S A
  lift r s = (r, s)

  abbrev pub gets : {A : Type 0} → (S → A) → Exec E S A
  gets f s = (ok (f s), s)

  abbrev pub modify : (S → S) → Exec E S (Unit {0})
  modify f s = (ok tt, f s)

  -- `if test: raise e`
  abbrev pub raise_if : Bool → E → Exec E S (Unit {0})
  raise_if true e s = (err e, s)
  raise_if false e s = (ok tt, s)

  -- `x = o; if not x: raise e`
  abbrev pub or_raise : {A : Type 0} → Option A → E → Exec E S A
  or_raise none e s = (err e, s)
  or_raise (some a) e s = (ok a, s)

-- A statement about what was returned; nothing is said of a raise.
abbrev pub Returns : {E A : Type 0} → Result E A → (A → Type 0) → Type 0
Returns (ok a) P = P a
Returns (err e) P = Unit

pub Result-cases :
    {E A : Type 0} (r : Result E A) → ((a : A) × (r ≡ ok a)) ⊎ ((e : E) × (r ≡ err e))
Result-cases (ok a) = inl (a, refl)
Result-cases (err e) = inr (e, refl)
