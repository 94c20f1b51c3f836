-- ===== src/Tests/Blocks.antt =====
-- A MoE block over the integers. The experts finish in the opposite order of their ids.
use mathlib.Core.Int.{ℤ, ◌+ℤ◌, ◌*ℤ◌, +ℤ_idl, +ℤ_assoc, +ℤ_comm, zero-*ℤ}
use mathlib.Core.Int.{pos, negsuc}
use mathlib.Core.Nat as Unary
use block_lut.Prelude.{
  ℕ, ◌<◌, ◌≡◌, refl, none, List, [], ◌∷◌, length, All, get_or, ◌==◌, if◌then◌else◌, arith, some,
}
use block_lut.Outcome.{Returns}
use block_lut.Experts.Executor.{Event, dispatch_local}
use block_lut.Routing.{mixture}
use block_lut.MoeBlock.{Block, mask_row, forward}
use block_lut.MoeBlock.Sums.{IsModule}
use block_lut.MoeBlock.Mixture.{
  IsChoosing, FinishesOnce, with_shared, block_mask, forward-mixture_block,
}
use block_lut.Tests.Integers.{integers, integers-IsExact, add_mul}

abbrev two : ℤ
two = pos (Unary.suc (Unary.suc Unary.zero))

abbrev minus_one : ℤ
minus_one = negsuc Unary.zero

-- A token that is not negative chooses the experts 0 and 2, a negative one 2 and 1.
abbrev choose : ℤ → List ℕ × List ℤ
choose (pos n) = (0 ∷ 2 ∷ [], two ∷ minus_one ∷ [])
choose (negsuc n) = (2 ∷ 1 ∷ [], minus_one ∷ two ∷ [])

abbrev block : Block ℤ ℤ
block = record {
  arithmetic = integers;
  space = record { zero = pos Unary.zero; add = ◌+ℤ◌; scale = ◌*ℤ◌ };
  num_experts = 3;
  num_experts_per_tok = 2;
  choose = choose;
  shared_experts = some (λ x. x *ℤ two);
}

block-IsModule : IsModule block.arithmetic block.space
block-IsModule = record {
  add_assoc = +ℤ_assoc;
  add_comm = +ℤ_comm;
  zero_add = +ℤ_idl;
  scale_zero = zero-*ℤ;
  scale_add = add_mul;
}

as_many : (x : ℤ) → length ((choose x).0) ≡ 2
as_many (pos n) = refl
as_many (negsuc n) = refl

weighed : (x : ℤ) → length ((choose x).1) ≡ 2
weighed (pos n) = refl
weighed (negsuc n) = refl

within : (x : ℤ) → All (λ i. i < 3) ((choose x).0)
within (pos n) = (omega arith, (omega arith, tt))
within (negsuc n) = (omega arith, (omega arith, tt))

block-IsChoosing : IsChoosing block
block-IsChoosing = record {
  some_slot = omega arith;
  as_many = as_many;
  weighed = weighed;
  within = within;
}

-- The expert 1 changes the sign, the others add two.
abbrev expert : ℕ → ℤ → ℤ
expert i x = if i == 1 then x *ℤ minus_one else x +ℤ two

abbrev tokens : List ℤ
tokens = two ∷ minus_one ∷ []

abbrev mask : List (List ℕ)
mask = block_mask block integers-IsExact block-IsModule expert tokens

abbrev backwards : List Event → List ℕ
backwards events = 2 ∷ 1 ∷ 0 ∷ []

backwards-FinishesOnce :
    FinishesOnce 3 ((dispatch_local 3 mask 1 none).0) (backwards ((dispatch_local 3 mask 1 none).0))
unfolding dispatch_local mask_row
backwards-FinishesOnce e h = ground arith

forward-mixture_block_example :
    Returns
      (λ r.
        (t : ℕ)
        → t < 2
        → let row = get_or tokens t (pos Unary.zero) in
          let (ids, weights) = block.choose row in
          get_or (r.0) t (pos Unary.zero)
          ≡ with_shared block integers-IsExact block-IsModule expert row
              (mixture block.space (λ i. expert i row) ids weights (pos Unary.zero)))
      (forward block expert backwards (1 ∷ 2 ∷ 1 ∷ []) tokens 1 none)
unfolding dispatch_local
forward-mixture_block_example =
    forward-mixture_block block integers-IsExact block-IsModule expert tokens backwards
      (1 ∷ 2 ∷ 1 ∷ []) 1 none refl block-IsChoosing (none, refl, tt) backwards-FinishesOnce
