-- ===== src/Prelude/Keeps.antt =====
-- Invariants of methods, one rule for each way to build a method.
use mathlib.Core.Bool.{Bool, true, false}
use mathlib.Core.Option.{Option, none, some}
use bt_api_security.Prelude.Tests.{if◌then◌else◌}
use bt_api_security.Prelude.Objects.{
  Result, ok, err, Exec, resume, ◌>>=◌, pure, raise, lift, gets, modify, raise_if, or_raise,
}

-- `m` keeps `P`, whether it returns or raises.
pub record Keeps {E S A : Type 0} (P : S → Type 0) (m : Exec E S A) : Type 0 where
  pub at : (s : S) → P s → P (m s).1

module _ {E S A : Type 0} {P : S → Type 0} where
  pub Keeps-pure : (a : A) → Keeps {E = E} P (pure a)
  Keeps-pure a = record { at = λ s h. h }

  pub Keeps-raise : (e : E) → Keeps {A = A} P (raise e)
  Keeps-raise e = record { at = λ s h. h }

  pub Keeps-lift : (r : Result E A) → Keeps P (lift r)
  Keeps-lift r = record { at = λ s h. h }

  pub Keeps-gets : (f : S → A) → Keeps {E = E} P (gets f)
  Keeps-gets f = record { at = λ s h. h }

  pub Keeps-or_raise : (o : Option A) (e : E) → Keeps P (or_raise o e)
  Keeps-or_raise none e = record { at = λ s h. h }
  Keeps-or_raise (some a) e = record { at = λ s h. h }

  pub Keeps-if :
      (b : Bool) (m n : Exec E S A) → Keeps P m → Keeps P n → Keeps P (if b then m else n)
  Keeps-if true m n km kn = km
  Keeps-if false m n km kn = kn

module _ {E S : Type 0} {P : S → Type 0} where
  pub Keeps-raise_if : (b : Bool) (e : E) → Keeps P (raise_if b e)
  Keeps-raise_if true e = record { at = λ s h. h }
  Keeps-raise_if false e = record { at = λ s h. h }

  pub Keeps-modify : (f : S → S) → ((s : S) → P s → P (f s)) → Keeps {E = E} P (modify f)
  Keeps-modify f h = record { at = h }

module _ {E S A B : Type 0} {P : S → Type 0} where
  Keeps-rest :
      (r : Result E A) (f : A → Exec E S B)
      → ((a : A) → Keeps P (f a))
      → (s : S) → P s
      → P (resume r f s).1
  Keeps-rest (ok a) f kf s h = (kf a).at s h
  Keeps-rest (err e) f kf s h = h

  pub Keeps-bind :
      (m : Exec E S A) (f : A → Exec E S B)
      → Keeps P m
      → ((a : A) → Keeps P (f a))
      → Keeps P (m >>= f)
  Keeps-bind m f km kf = record { at = λ s h. Keeps-rest (m s).0 f kf (m s).1 (km.at s h) }

pub ruleset keeps_rules = (
  Keeps-pure, Keeps-raise, Keeps-lift, Keeps-gets, Keeps-or_raise, Keeps-if, Keeps-raise_if,
  Keeps-modify, Keeps-bind,
)
