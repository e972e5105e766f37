-- ===== src/Prelude/Text.antt =====
-- `str.strip()`: Python's white space, cut from both ends of a text.
use Prim.Native.Nat.{ℕ}
use Prim.Native.Char.{Char, code}
use Prim.Native.String
use Prim.Native.String.{String, compare}
use Prim.Native.Nat.{Ordering}
use mathlib.Core.List.{List, [], ◌∷◌}
use mathlib.Core.Path.{◌≡◌, refl}
use mathlib.Core.Bool.{Bool, true, false, ◌||◌, ◌&&◌}
use bt_api_security.Prelude.Tests.{◌==◌, string_Eq, leb, nat_eq, if◌then◌else◌, Bool-cases}
use mathlib.Core.Logic.{inl, inr}

-- `str.isspace` on one code point.
pub is_space : ℕ → Bool
is_space c =
    (leb 9 c && leb c 13)
    || (leb 28 c && leb c 32)
    || nat_eq c 133
    || nat_eq c 160
    || nat_eq c 5760
    || (leb 8192 c && leb c 8202)
    || nat_eq c 8232
    || nat_eq c 8233
    || nat_eq c 8239
    || nat_eq c 8287
    || nat_eq c 12288

lstrip : String → String
lstrip String.[] = String.[]
lstrip (String.◌∷◌ c s) = if is_space (code c) then lstrip s else String.◌∷◌ c s

rstrip_cons : Char → String → String
rstrip_cons c String.[] = if is_space (code c) then String.[] else String.◌∷◌ c String.[]
rstrip_cons c (String.◌∷◌ d s) = String.◌∷◌ c (String.◌∷◌ d s)

rstrip : String → String
rstrip String.[] = String.[]
rstrip (String.◌∷◌ c s) = rstrip_cons c (rstrip s)

unfoldable pub strip : String → String
unfolding is_space lstrip rstrip rstrip_cons
strip s = rstrip (lstrip s)

infixr 6 ◌^◌
abbrev pub ◌^◌ : String → String → String
s ^ t = String.◌++◌ s t

-- `s.endswith(tail)`, on the characters of `s`.
unfoldable pub ends_with : String → String → Bool
ends_with tail String.[] = tail == ""
ends_with tail (String.◌∷◌ c s) = let rest = ends_with tail s in String.◌∷◌ c s == tail || rest

starts_with : String → String → Bool
starts_with String.[] t = true
starts_with (String.◌∷◌ c s) String.[] = false
starts_with (String.◌∷◌ c s) (String.◌∷◌ d t) = nat_eq (code c) (code d) && starts_with s t

-- `s in t` for texts.
unfoldable pub is_within : String → String → Bool
unfolding starts_with
is_within s String.[] = s == ""
is_within s (String.◌∷◌ c t) = starts_with s (String.◌∷◌ c t) || is_within s t

-- Python's order of texts is by code points, which is the order of their UTF-8.
insert_sorted : String → List String → List String
insert_sorted s [] = s ∷ []
insert_sorted s (t ∷ ts) = elim (compare s t) [
  | Ordering.gt ↦ t ∷ insert_sorted s ts
  | _ ↦ s ∷ t ∷ ts
]

-- `sorted(texts)`
unfoldable pub sort : List String → List String
unfolding insert_sorted
sort [] = []
sort (s ∷ ss) = insert_sorted s (sort ss)

-- `" ".join(texts)`
unfoldable pub join : List String → String
join [] = ""
join (s ∷ []) = s
join (s ∷ t ∷ ts) = String.◌++◌ s (String.◌++◌ " " (join (t ∷ ts)))

rstrip-rstrip_cons :
    (c : Char) (r : String) → rstrip r ≡ r → rstrip (rstrip_cons c r) ≡ rstrip_cons c r
unfolding rstrip rstrip_cons
rstrip-rstrip_cons c String.[] h = elim (Bool-cases (is_space (code c))) [
  | inl space ↦ rw space
  | inr letter ↦ rw (letter, rstrip_cons, letter)
]
rstrip-rstrip_cons c (String.◌∷◌ d s) h = rw h

rstrip-rstrip : (s : String) → rstrip (rstrip s) ≡ rstrip s
unfolding rstrip
rstrip-rstrip String.[] = refl
rstrip-rstrip (String.◌∷◌ c s) = rstrip-rstrip_cons c (rstrip s) (rstrip-rstrip s)

lstrip-rstrip_cons :
    (c : Char) (r : String) → is_space (code c) ≡ false → lstrip (rstrip_cons c r) ≡ rstrip_cons c r
unfolding lstrip rstrip_cons
lstrip-rstrip_cons c String.[] h = rw (h, h)
lstrip-rstrip_cons c (String.◌∷◌ d s) h = rw h

lstrip-rstrip : (s : String) → lstrip (rstrip (lstrip s)) ≡ rstrip (lstrip s)
unfolding lstrip rstrip
lstrip-rstrip String.[] = refl
lstrip-rstrip (String.◌∷◌ c s) = elim (Bool-cases (is_space (code c))) [
  | inl space ↦ rw space (lstrip-rstrip s)
  | inr letter ↦ rw letter (lstrip-rstrip_cons c (rstrip s) letter)
]

-- A stripped text has nothing left to strip.
pub strip-strip : (s : String) → strip (strip s) ≡ strip s
unfolding strip
strip-strip s = rw (lstrip-rstrip s) (rstrip-rstrip (lstrip s))

strip_both_ends : strip "  a b " ≡ "a b"
unfolding strip
strip_both_ends = refl
