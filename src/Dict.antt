-- ===== src/Dict.antt =====
-- Python's `dict` with text keys, in insertion order: the list of its items.
pub mod Laws
pub mod Sweep
use bt_api_security.Prelude.{
  String, Bool, true, false, not, ◌||◌, Option, none, some, List, [], ◌∷◌, ◌++◌, map, ◌≡◌, ◌==◌,
  string_Eq, if◌then◌else◌, contains, select,
}

abbrev pub Dict {ℓ} : Type ℓ → Type ℓ
Dict V = List (String × V)

module _ {ℓ} {V : Type ℓ} where
  -- `d.get(k)`
  unfoldable pub lookup : String → Dict V → Option V
  lookup k [] = none
  lookup k ((j, v) ∷ d) = if j == k then some v else lookup k d

  -- `k in d`
  unfoldable pub has_key : String → Dict V → Bool
  unfolding lookup
  has_key k d = elim (lookup k d) [ none ↦ false | some _ ↦ true ]

  -- `d[k] = v`
  unfoldable pub insert : String → V → Dict V → Dict V
  insert k v [] = (k, v) ∷ []
  insert k v ((j, w) ∷ d) = if j == k then (k, v) ∷ d else (j, w) ∷ insert k v d

  -- `d.pop(k, None)`
  unfoldable pub erase : String → Dict V → Dict V
  erase k d = select (λ e. not (e.0 == k)) d

  -- A write through a reference to the object that `d[k]` holds.
  unfoldable pub adjust : String → (V → V) → Dict V → Dict V
  adjust k f [] = []
  adjust k f ((j, v) ∷ d) = if j == k then (j, f v) ∷ d else (j, v) ∷ adjust k f d

  abbrev pub keys : Dict V → List String
  keys = map (λ e. e.0)

  -- `for k in ks: del d[k]`
  unfoldable pub erase_all : List String → Dict V → Dict V
  unfolding erase
  erase_all [] d = d
  erase_all (k ∷ ks) d = erase_all ks (erase k d)

-- No key stands twice.
abbrev pub IsUnique {ℓ} : {V : Type ℓ} → Dict V → Type 0
IsUnique [] = Unit
IsUnique ((k, v) ∷ d) = (has_key k d ≡ false) × IsUnique d
