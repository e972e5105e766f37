-- ===== src/Prelude/Atomic.antt =====
-- Methods that change nothing when they raise: rules for read-only and for total parts.
use mathlib.Core.Path.{◌≡◌, refl, ◌∙◌}
use mathlib.Core.Bool.{Bool, true, false}
use mathlib.Core.Option.{Option, none, some}
use native.Mathlib.Omega.{arith}
use bt_api_security.Prelude.Tests.{if◌then◌else◌}
use bt_api_security.Prelude.Objects.{
  Result, ok, err, Exec, resume, ◌>>=◌, pure, raise, lift, gets, modify, raise_if, or_raise,
}

module _ {E S A : Type 0} where
  -- The state is left alone.
  pub record IsReadOnly (m : Exec E S A) : Type 0 where
    pub same : (s : S) → (m s).1 ≡ s

  -- No error is raised.
  pub record IsTotal (m : Exec E S A) : Type 0 where
    pub value : (s : S) → (a : A) × ((m s).0 ≡ ok a)

  -- An error leaves the state alone.
  pub record IsAtomic (m : Exec E S A) : Type 0 where
    pub undone : (s : S) (e : E) → (m s).0 ≡ err e → (m s).1 ≡ s

  pub IsAtomic-read_only : (m : Exec E S A) → IsReadOnly m → IsAtomic m
  IsAtomic-read_only m r = record { undone = λ s e h. r.same s }

  pub IsAtomic-total : (m : Exec E S A) → IsTotal m → IsAtomic m
  IsAtomic-total m t = record { undone = λ s e h. let (a, k) = t.value s in ground arith }

  pub IsReadOnly-lift : (r : Result E A) → IsReadOnly (lift r)
  IsReadOnly-lift r = record { same = λ s. refl }

  pub IsReadOnly-gets : (f : S → A) → IsReadOnly (gets f)
  IsReadOnly-gets f = record { same = λ s. refl }

  pub IsReadOnly-pure : (a : A) → IsReadOnly (pure a)
  IsReadOnly-pure a = record { same = λ s. refl }

  pub IsReadOnly-raise : (e : E) → IsReadOnly (raise e)
  IsReadOnly-raise e = record { same = λ s. refl }

  pub IsReadOnly-or_raise : (o : Option A) (e : E) → IsReadOnly (or_raise o e)
  IsReadOnly-or_raise none e = record { same = λ s. refl }
  IsReadOnly-or_raise (some a) e = record { same = λ s. refl }

  pub IsReadOnly-if :
      (b : Bool) (m n : Exec E S A) → IsReadOnly m → IsReadOnly n → IsReadOnly (if b then m else n)
  IsReadOnly-if true m n rm rn = rm
  IsReadOnly-if false m n rm rn = rn

  pub IsTotal-pure : (a : A) → IsTotal (pure a)
  IsTotal-pure a = record { value = λ s. (a, refl) }

  pub IsTotal-gets : (f : S → A) → IsTotal (gets f)
  IsTotal-gets f = record { value = λ s. (f s, refl) }

module _ {E S : Type 0} where
  pub IsReadOnly-raise_if : (b : Bool) (e : E) → IsReadOnly {S = S} (raise_if b e)
  IsReadOnly-raise_if true e = record { same = λ s. refl }
  IsReadOnly-raise_if false e = record { same = λ s. refl }

  pub IsTotal-modify : (f : S → S) → IsTotal {E = E} (modify f)
  IsTotal-modify f = record { value = λ s. (tt, refl) }

module _ {E S A B : Type 0} (f : A → Exec E S B) where
  resume-same :
      (r : Result E A) (s t : S) → ((a : A) → IsReadOnly (f a)) → t ≡ s → (resume r f t).1 ≡ s
  resume-same (ok a) s t rf h = (rf a).same t ∙ h
  resume-same (err e) s t rf h = h

  resume-undone :
      (r : Result E A) (s t : S)
      → ((a : A) → IsAtomic (f a))
      → t ≡ s
      → (e : E) → (resume r f t).0 ≡ err e
      → (resume r f t).1 ≡ s
  resume-undone (ok a) s t af h e k = (af a).undone t e k ∙ h
  resume-undone (err x) s t af h e k = h

  resume-known :
      (r : Result E A) (s t : S)
      → ((a : A) → r ≡ ok a → IsAtomic (f a))
      → t ≡ s
      → (e : E) → (resume r f t).0 ≡ err e
      → (resume r f t).1 ≡ s
  resume-known (ok a) s t af h e k = (af a refl).undone t e k ∙ h
  resume-known (err x) s t af h e k = h

  resume-total :
      (r : Result E A) (s t : S)
      → ((a : A) → IsTotal (f a))
      → ((x : E) → r ≡ err x → t ≡ s)
      → (e : E) → (resume r f t).0 ≡ err e
      → (resume r f t).1 ≡ s
  resume-total (ok a) s t tf am e k = let (b, v) = (tf a).value t in absurd (ground arith)
  resume-total (err x) s t tf am e k = am x refl

module _ {E S A B : Type 0} (m : Exec E S A) (f : A → Exec E S B) where
  pub IsReadOnly-bind : IsReadOnly m → ((a : A) → IsReadOnly (f a)) → IsReadOnly (m >>= f)
  IsReadOnly-bind rm rf = record { same = λ s. resume-same f (m s).0 s (m s).1 rf (rm.same s) }

  pub IsTotal-bind : IsTotal m → ((a : A) → IsTotal (f a)) → IsTotal (m >>= f)
  IsTotal-bind tm tf = record {
    value = λ s. let (a, e) = tm.value s in rw e ((tf a).value (m s).1);
  }

  -- Reads first, then a method that is atomic.
  pub IsAtomic-bind_read : IsReadOnly m → ((a : A) → IsAtomic (f a)) → IsAtomic (m >>= f)
  IsAtomic-bind_read rm af = record {
    undone = λ s. resume-undone f (m s).0 s (m s).1 af (rm.same s);
  }

  -- The same, where the rest of the method may use that the read returned `a`.
  pub IsAtomic-bind_known :
      IsReadOnly m → ((a : A) (t : S) → (m t).0 ≡ ok a → IsAtomic (f a)) → IsAtomic (m >>= f)
  IsAtomic-bind_known rm af = record {
    undone = λ s. resume-known f (m s).0 s (m s).1 (λ a e. af a s e) (rm.same s);
  }

  -- An atomic method, then one that cannot raise.
  pub IsAtomic-bind_total : IsAtomic m → ((a : A) → IsTotal (f a)) → IsAtomic (m >>= f)
  IsAtomic-bind_total am tf = record {
    undone = λ s. resume-total f (m s).0 s (m s).1 tf (am.undone s);
  }

pub ruleset read_rules = (
  IsReadOnly-lift, IsReadOnly-gets, IsReadOnly-pure, IsReadOnly-raise, IsReadOnly-or_raise,
  IsReadOnly-raise_if, IsReadOnly-if, IsReadOnly-bind,
)

pub ruleset total_rules = (IsTotal-pure, IsTotal-gets, IsTotal-modify, IsTotal-bind)
