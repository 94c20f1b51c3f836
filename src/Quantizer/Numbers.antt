-- ===== src/Quantizer/Numbers.antt =====
-- What the quantizer uses of torch: floats with their operations, reductions of one-dimensional
-- tensors, and random permutations, of which each draw has a number.
use block_lut.Prelude.{
  ◌⊎◌, inl, inr, Option-cases, ℕ, suc, ◌<◌, ◌≡◌, refl, ap, none, some, List, [], ◌∷◌, length,
  get_or, get_elem?, get_elem?-some, All,
}
use block_lut.Outcome.{Returns, Result, raise, index_error, ◌>>=◌, ok}

pub record Numbers (A : Type 0) : Type 0 where
  pub zero : A
  pub one : A
  pub two : A
  -- 1e-10
  pub tiny : A
  pub infinity : A
  pub abs : A → A
  pub add : A → A → A
  pub sub : A → A → A
  pub mul : A → A → A
  pub div : A → A → A
  -- `clamp(min=...)`
  pub clamp_min : A → A → A
  -- `.float()` and `.to(torch.bfloat16)`
  pub float : A → A
  pub bfloat16 : A → A
  -- `max()`, `mean()`, `argmin()` and `torch.sort`
  pub amax : List A → A
  pub mean : List A → A
  pub argmin : List A → ℕ
  pub sort : List A → List A
  -- `torch.randperm(n)`, of the draw that the first argument numbers
  pub randperm : ℕ → ℕ → List ℕ

-- Tensors of the lengths that torch documents, and `argmin` within its tensor.
pub record IsShaped {A : Type 0} (n : Numbers A) : Type 0 where
  pub length-sort : (xs : List A) → length (n.sort xs) ≡ length xs
  pub length-randperm : (draw k : ℕ) → length (n.randperm draw k) ≡ k
  pub randperm-All : (draw k : ℕ) → All (λ i. i < k) (n.randperm draw k)
  pub argmin-lt : (x : A) (xs : List A) → n.argmin (x ∷ xs) < suc (length xs)

-- The order of floats: `argmin` finds the first of the least elements.
pub record IsOrdered {A : Type 0} (n : Numbers A) (Le : A → A → Type 0) : Type 0 where
  pub argmin-Le :
      (x : A) (xs : List A) → All (Le (get_or (x ∷ xs) (n.argmin (x ∷ xs)) n.zero)) (x ∷ xs)

-- NaN of IEEE 754: it comes from 0 times infinity, is kept by `+`, and is what `argmin` finds
-- first. `Finite` is a set of floats in which means do not leave the range.
pub record HasNan {A : Type 0} (n : Numbers A) (nan : A) (Finite : A → Type 0) : Type 0 where
  pub zero_infinity : n.mul n.zero n.infinity ≡ nan
  pub add_nan : (x : A) → n.add x nan ≡ nan
  pub mean-Finite : (x y : A) → Finite x → Finite y → Finite (n.div (n.add x y) n.two)
  pub first_nan :
      (x : A) (zs : List A)
      → Finite x
      → n.argmin (n.add (n.abs (n.sub x x)) (n.mul n.one n.infinity) ∷ nan ∷ zs) ≡ 1

-- `xs[idx]` for an index tensor: out of range is an IndexError.
unfoldable pub gather : {A : Type 0} → List A → List ℕ → Result (List A)
gather xs [] = ok []
gather xs (i ∷ indices) = elim (get_elem? xs i) [
  | some x ↦ gather xs indices >>= λ rest. ok (x ∷ rest)
  | none ↦ raise index_error
]

pub gather-length :
    {A : Type 0} (xs : List A) (indices : List ℕ)
    → All (λ i. i < length xs) indices
    → (ys : List A) × (gather xs indices ≡ ok ys) × (length ys ≡ length indices)
unfolding gather
gather-length xs [] h = ([], refl, refl)
gather-length xs (i ∷ indices) (h, hs) =
    let (x, found) = get_elem?-some xs i h in
    let (rest, runs, long) = gather-length xs indices hs in
    (x ∷ rest, rw (gather, found, runs), ap suc long)

-- What is gathered is as long as the index tensor.
pub gather-cases :
    {A : Type 0} (xs : List A) (indices : List ℕ)
    → (gather xs indices ≡ raise index_error)
      ⊎ Returns (λ ys. length ys ≡ length indices) (gather xs indices)
unfolding gather
gather-cases xs [] = inr ([], refl, refl)
gather-cases xs (i ∷ indices) = elim (Option-cases (get_elem? xs i)) [
  | inl missing ↦ inl (rw (gather, missing) refl)
  | inr (x, found) ↦ elim (gather-cases xs indices) [
    | inl stops ↦ inl (rw (gather, found, stops) refl)
    | inr (ys, runs, long) ↦ inr (x ∷ ys, rw (gather, found, runs) refl, ap suc long)
  ]
]
