-- ===== src/Mfa/Codes.antt =====
-- Backup codes of auth/mfa_provider.py: the loop that draws them, and lists of distinct codes.
use bt_api_security.Prelude.{
  String, ℕ, ◌+◌, ◌≤◌, ◌<◌, ◌≡◌, refl, ◌↔◌, inl, inr, true, false, none, some, List, [], ◌∷◌, ◌++◌,
  map, arith, eq_iff, ltb, ltb→lt, lt→ltb, Bool-cases, ◌==◌, nat_Eq, string_Eq, length,
  length-append, remove_first, contains, add, contains-append,
}
use bt_api_security.Mfa.Setup.{six_digits, generate_codes}

-- No code stands twice.
abbrev pub IsDistinct : List String → Type 0
IsDistinct [] = Unit
IsDistinct (x ∷ xs) = (contains x xs ≡ false) × IsDistinct xs

IsDistinct-snoc :
    (a : String) (xs : List String)
    → contains a xs ≡ false
    → IsDistinct xs
    → IsDistinct (xs ++ a ∷ [])
IsDistinct-snoc a [] h d = (refl, tt)
IsDistinct-snoc a (x ∷ xs) h d = (
  ground (arith, contains-append x xs (a ∷ []), eq_iff x a, eq_iff a x, d.0),
  IsDistinct-snoc a xs (ground arith) d.1,
)

IsDistinct-add : (a : String) (xs : List String) → IsDistinct xs → IsDistinct (add a xs)
IsDistinct-add a xs d = elim (Bool-cases (contains a xs)) [
  | inl there ↦ rw there d
  | inr absent ↦ rw absent (IsDistinct-snoc a xs absent d)
]

pub contains-remove_first :
    (code a : String) (xs : List String)
    → contains code xs ≡ false
    → contains code (remove_first a xs) ≡ false
contains-remove_first code a [] h = refl
contains-remove_first code a (x ∷ xs) h = ground (arith, contains-remove_first code a xs)

pub IsDistinct-remove_first :
    (a : String) (xs : List String) → IsDistinct xs → IsDistinct (remove_first a xs)
IsDistinct-remove_first a [] d = tt
IsDistinct-remove_first a (x ∷ xs) d = elim (Bool-cases (x == a)) [
  | inl here ↦ rw here d.1
  | inr later ↦ rw later (contains-remove_first x a xs d.0, IsDistinct-remove_first a xs d.1)
]

-- A code that is removed from a list of distinct codes is gone.
pub contains-removed :
    (a : String) (xs : List String) → IsDistinct xs → contains a (remove_first a xs) ≡ false
contains-removed a [] d = refl
contains-removed a (x ∷ xs) d = ground (arith, eq_iff x a, d.0, contains-removed a xs d.1)

-- The distinct codes among some and those that the draws give.
abbrev pub collect : List ℕ → List String → List String
collect [] codes = codes
collect (d ∷ draws) codes = collect draws (add (six_digits d) codes)

length-add :
    (a : String) (xs : List String)
    → (length xs ≤ length (add a xs)) × (length (add a xs) ≤ length xs + 1)
length-add a xs = ground (arith, length-append xs (a ∷ []))

length-collect :
    (draws : List ℕ) (codes : List String) → length codes ≤ length (collect draws codes)
length-collect [] codes = omega arith
length-collect (d ∷ draws) codes =
    omega
      (arith, (length-add (six_digits d) codes).0, length-collect draws (add (six_digits d) codes))

-- What the loop returns, if it returns.
abbrev pub Ends : ℕ → List ℕ → List String → Type 0
Ends count draws codes =
    (out : List String) × (generate_codes count draws codes ≡ some out)
    × (length out ≡ count)
    × IsDistinct out

enough-Ends :
    (count : ℕ) (draws : List ℕ) (codes : List String)
    → IsDistinct codes
    → length codes ≤ count
    → count ≤ length (collect draws codes)
    → Ends count draws codes
unfolding generate_codes
enough-Ends count [] codes d few enough =
    let full : ltb (length codes) count ≡ false = ground arith in
    (codes, rw full refl, omega arith, d)
enough-Ends count (n ∷ draws) codes d few enough = elim (Bool-cases (ltb (length codes) count)) [
  | inr full ↦ (codes, rw full refl, ground arith, d)
  | inl more ↦
      let (out, ends, right, distinct) =
        enough-Ends count draws (add (six_digits n) codes) (IsDistinct-add (six_digits n) codes d)
          (omega (arith, ltb→lt _ _ more, (length-add (six_digits n) codes).1)) enough in
      (out, rw more ends, right, distinct)
]

short-open :
    (count : ℕ) (draws : List ℕ) (codes : List String)
    → length (collect draws codes) < count
    → generate_codes count draws codes ≡ none
unfolding generate_codes
short-open count [] codes short = ground arith
short-open count (n ∷ draws) codes short =
    let more : ltb (length codes) count ≡ true =
      lt→ltb _ _ (omega (arith, short, length-collect (n ∷ draws) codes)) in
    rw more (short-open count draws (add (six_digits n) codes) short)

-- The loop ends on exactly those draws that have enough distinct codes among them, and then gives
-- as many codes as are wanted, no two the same.
pub generate_codes_iff :
    (count : ℕ) (draws : List ℕ)
    → (count ≤ length (collect draws [])) ↔ (
        (out : List String) × (generate_codes count draws [] ≡ some out)
        × (length out ≡ count)
        × IsDistinct out)
generate_codes_iff count draws = (
  λ enough. enough-Ends count draws [] tt (omega arith) enough,
  λ (out, ends, right, distinct). elim (Bool-cases (ltb (length (collect draws [])) count)) [
    | inr enough ↦ ground arith
    | inl short ↦ absurd (let never = short-open count draws [] (ltb→lt _ _ short) in cc)
  ],
)

-- Codes that end the loop are distinct, and none but those drawn.
pub generated-IsDistinct :
    (count : ℕ) (draws : List ℕ) (codes out : List String)
    → IsDistinct codes
    → generate_codes count draws codes ≡ some out
    → IsDistinct out
unfolding generate_codes
generated-IsDistinct count [] codes out d h = elim (Bool-cases (ltb (length codes) count)) [
  | inl more ↦ absurd (let k = rw more at h in cc)
  | inr full ↦ let e : codes ≡ out = ground arith in rw (← e) d
]
generated-IsDistinct count (n ∷ draws) codes out d h =
    elim (Bool-cases (ltb (length codes) count)) [
      | inl more ↦
          generated-IsDistinct count draws (add (six_digits n) codes) out
            (IsDistinct-add (six_digits n) codes d) (rw more at h)
      | inr full ↦ let k = rw full at h in let e : codes ≡ out = ground arith in rw (← e) d
    ]

contains-add_other :
    (code a : String) (xs : List String)
    → contains code xs ≡ false
    → (a == code) ≡ false
    → contains code (add a xs) ≡ false
contains-add_other code a xs h ne = ground (arith, contains-append code xs (a ∷ []))

pub contains-generated :
    (code : String) (count : ℕ) (draws : List ℕ) (codes out : List String)
    → contains code codes ≡ false
    → contains code (map six_digits draws) ≡ false
    → generate_codes count draws codes ≡ some out
    → contains code out ≡ false
unfolding generate_codes
contains-generated code count [] codes out absent fresh h =
    elim (Bool-cases (ltb (length codes) count)) [
      | inl more ↦ absurd (let k = rw more at h in cc)
      | inr full ↦ let e : codes ≡ out = ground arith in rw (← e) absent
    ]
contains-generated code count (n ∷ draws) codes out absent fresh h =
    elim (Bool-cases (ltb (length codes) count)) [
      | inl more ↦
          contains-generated code count draws (add (six_digits n) codes) out
            (contains-add_other code (six_digits n) codes absent (ground arith)) (ground arith)
            (rw more at h)
      | inr full ↦ let k = rw full at h in let e : codes ≡ out = ground arith in rw (← e) absent
    ]
