-- ===== src/Counter.antt =====
-- `collections.Counter` over expert indices, and the choice of the most frequent keys:
-- `most_common(k)` and `heapq.nlargest(k, items, key)` both give what a stable sort by falling
-- score puts first, so that of two equal scores the earlier item comes first.
pub mod Largest
pub mod Laws
use native.Mathlib.Decide.{ℕ_discrete}
use mathlib.Core.Option
use block_lut.Prelude.{
  ℕ, zero, suc, ◌+◌, Option, none, some, List, [], ◌∷◌, ltb, if◌then◌else◌, take,
}
use block_lut.Dict
use block_lut.Dict.{Dict}

abbrev pub Counter : Type 0
Counter = Dict ℕ ℕ

-- `c[key]`, which is 0 for a key that is not there
unfoldable pub count : ℕ → Counter → ℕ
count key c = Option.get_or (Dict.get ℕ_discrete key c) 0

-- `c[key] += 1`
unfoldable pub increment : ℕ → Counter → Counter
unfolding count
increment key c = Dict.put ℕ_discrete key (count key c + 1) c

-- `c.update(keys)`
unfoldable pub update : List ℕ → Counter → Counter
unfolding increment
update [] c = c
update (key ∷ keys) c = update keys (increment key c)

-- An item goes before the first one of a smaller score.
unfoldable pub insert_item {ℓ} : {A : Type ℓ} → (A → ℕ) → A → List A → List A
insert_item score x [] = x ∷ []
insert_item score x (y ∷ ys) =
    if ltb (score y) (score x) then x ∷ y ∷ ys else y ∷ insert_item score x ys

-- `sorted(items, key=score, reverse=True)`, item by item.
unfoldable pub sort_onto {ℓ} : {A : Type ℓ} → (A → ℕ) → List A → List A → List A
unfolding insert_item
sort_onto score sorted [] = sorted
sort_onto score sorted (x ∷ xs) = sort_onto score (insert_item score x sorted) xs

unfoldable pub nlargest {ℓ} : {A : Type ℓ} → (A → ℕ) → ℕ → List A → List A
unfolding sort_onto
nlargest score k items = take k (sort_onto score [] items)
