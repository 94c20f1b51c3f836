-- ===== src/Counter/Largest.antt =====
-- What `nlargest` picks: a stable sort by falling score, cut after `k` items.
use mathlib.Core.List.{Perm, perm_middle, append-nil}
use mathlib.Core.List.Perm
use block_lut.Prelude.{
  ℕ, subst, ◌≤◌, ◌≡◌, List, [], ◌∷◌, ◌++◌, length, drop, min, arith, All, ltb, Bool-cases, inl, inr,
  tests, length-take, take-append-drop,
}
use block_lut.Counter.{insert_item, sort_onto, nlargest}

module _ {ℓ} {A : Type ℓ} (score : A → ℕ) where
  -- Each item's score is at least that of every later one.
  abbrev pub IsFalling : List A → Type 0
  IsFalling [] = Unit
  IsFalling (x ∷ xs) = All (λ y. score y ≤ score x) xs × IsFalling xs

  insert_item-perm : (x : A) (ys : List A) → Perm (insert_item score x ys) (x ∷ ys)
  unfolding insert_item
  insert_item-perm x [] = Perm.refl _
  insert_item-perm x (y ∷ ys) = elim (Bool-cases (ltb (score y) (score x))) [
    | inl before ↦ rw before (Perm.refl _)
    | inr after ↦ rw after (Perm.trans (Perm.cons y (insert_item-perm x ys)) (Perm.swap x y ys))
  ]

  All-insert_item :
      (P : A → Type 0) (x : A) (ys : List A) → P x → All P ys → All P (insert_item score x ys)
  unfolding insert_item
  All-insert_item P x [] h k = (h, tt)
  All-insert_item P x (y ∷ ys) h k = elim (Bool-cases (ltb (score y) (score x))) [
    | inl before ↦ rw before (h, k)
    | inr after ↦ rw after (k.0, All-insert_item P x ys h k.1)
  ]

  All-le : (m n : ℕ) (ys : List A) → m ≤ n → All (λ y. score y ≤ m) ys → All (λ y. score y ≤ n) ys
  All-le m n [] h k = tt
  All-le m n (y ∷ ys) h k = (omega (arith, k.0), All-le m n ys h k.1)

  insert_item-IsFalling : (x : A) (ys : List A) → IsFalling ys → IsFalling (insert_item score x ys)
  unfolding insert_item
  insert_item-IsFalling x [] f = (tt, tt)
  insert_item-IsFalling x (y ∷ ys) f = elim (Bool-cases (ltb (score y) (score x))) [
    | inl before ↦
        let higher : score y ≤ score x = omega tests in
        rw before ((higher, All-le (score y) (score x) ys higher f.0), f)
    | inr after ↦ rw after (
      All-insert_item (λ z. score z ≤ score y) x ys (ground arith) f.0,
      insert_item-IsFalling x ys f.1,
    )
  ]

  sort_onto-perm : (sorted xs : List A) → Perm (sort_onto score sorted xs) (xs ++ sorted)
  unfolding sort_onto
  sort_onto-perm sorted [] = Perm.refl _
  sort_onto-perm sorted (x ∷ xs) =
      Perm.trans (sort_onto-perm (insert_item score x sorted) xs) (
        Perm.trans (Perm.append (Perm.refl xs) (insert_item-perm x sorted)) (perm_middle xs sorted))

  pub sort_onto-IsFalling :
      (sorted xs : List A) → IsFalling sorted → IsFalling (sort_onto score sorted xs)
  unfolding sort_onto
  sort_onto-IsFalling sorted [] f = f
  sort_onto-IsFalling sorted (x ∷ xs) f =
      sort_onto-IsFalling (insert_item score x sorted) xs (insert_item-IsFalling x sorted f)

  sorted_items : (items : List A) → Perm (sort_onto score [] items) items
  sorted_items items =
      subst (Perm (sort_onto score [] items)) (append-nil items) (sort_onto-perm [] items)

  -- The items picked, followed by the items left out, are the items in an order of falling score;
  -- as many are picked as asked for, or all.
  pub nlargest_lem :
      (k : ℕ) (items : List A)
      → (rest : List A) × Perm (nlargest score k items ++ rest) items
        × IsFalling (nlargest score k items ++ rest)
        × (length (nlargest score k items) ≡ min k (length (nlargest score k items ++ rest)))
  unfolding nlargest
  nlargest_lem k items =
      let sorted = sort_onto score [] items in
      (
        drop k sorted,
        rw take-append-drop (sorted_items items),
        rw take-append-drop (sort_onto-IsFalling [] items tt),
        rw take-append-drop (length-take k sorted),
      )
