-- ===== src/Dict.antt =====
-- Python's `dict`: the entries in the order in which their keys were first inserted. Writing to a
-- key that is there keeps its place.
pub mod Laws
use mathlib.Core.Logic.{ite}
use block_lut.Prelude.{Option, none, some, List, [], ◌∷◌, ◌≡◌}

abbrev pub Dict {ℓ} : Type ℓ → Type ℓ → Type ℓ
Dict K V = List (K × V)

module _ {ℓ} {K V : Type ℓ} (dec : Discrete K) where
  -- `d.get(k)`
  unfoldable pub get : K → Dict K V → Option V
  get k [] = none
  get k ((j, v) ∷ d) = ite (dec j k) (some v) (get k d)

  -- `d[k] = v`
  unfoldable pub put : K → V → Dict K V → Dict K V
  put k v [] = (k, v) ∷ []
  put k v ((j, w) ∷ d) = ite (dec j k) ((j, v) ∷ d) ((j, w) ∷ put k v d)

  -- `del d[k]`, for a key that is there
  unfoldable pub remove : K → Dict K V → Dict K V
  remove k [] = []
  remove k ((j, w) ∷ d) = ite (dec j k) d ((j, w) ∷ remove k d)

  -- A change of the object that `d[k]` holds.
  unfoldable pub modify : K → (V → V) → Dict K V → Dict K V
  modify k f [] = []
  modify k f ((j, w) ∷ d) = ite (dec j k) ((j, f w) ∷ d) ((j, w) ∷ modify k f d)

  -- No key stands twice.
  abbrev pub IsDistinct : Dict K V → Type ℓ
  IsDistinct [] = Unit
  IsDistinct ((k, v) ∷ d) = (get k d ≡ none) × IsDistinct d

-- A change of every value.
unfoldable pub map_values {ℓ} : {K V : Type ℓ} → (V → V) → Dict K V → Dict K V
map_values f [] = []
map_values f ((k, v) ∷ d) = (k, f v) ∷ map_values f d
