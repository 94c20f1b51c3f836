-- ===== src/Tests/Integers.antt =====
-- The integers of the library as exact numbers.
use mathlib.Core.Int.{
  ℤ, suc_ℤ, pred_ℤ, neg_ℤ, ◌+ℤ◌, ◌-ℤ◌, ◌*ℤ◌, suc_ℤ-+ℤ, pred_ℤ-+ℤ, suc_ℤ-*ℤ, pred_ℤ-*ℤ, zero-*ℤ,
  +ℤ_idl, +ℤ_assoc, +ℤ_comm, *ℤ_comm, *ℤ-one, -ℤ-+ℤ_cancel, neg_ℤ-suc_ℤ, neg_ℤ-pred_ℤ, neg_ℤ-+ℤ,
  neg_ℤ-neg_ℤ,
}
use mathlib.Core.Int
use mathlib.Core.Int.{pos, negsuc}
use mathlib.Core.Nat.{zero, suc}
use block_lut.Prelude.{
  List, [], ◌∷◌, ◌++◌, ◌+◌, take, drop, length, get_or, arith, ◌≡◌, sym, ap, ◌∙◌,
}
use block_lut.Planning.Coverage.{e_minus_i_k_minus_1}
use block_lut.Planning.Coverage.Symmetric.{symmetric}
use block_lut.Planning.Coverage.LeaveOut.{e_minus_i_k_minus_1-symmetric}
use block_lut.Planning.Distribution.Total.{total}
use block_lut.Planning.Distribution.{calculate_prob}
use block_lut.Planning.Distribution.Total.{total-calculate_prob}
use block_lut.Planning.Scalars.{Arithmetic, IsExact}

ℤ_steps :
    (P : ℤ → Type 0)
    → P (pos zero)
    → ((a : ℤ) → P a → P (suc_ℤ a))
    → ((a : ℤ) → P a → P (pred_ℤ a))
    → (a : ℤ) → P a
ℤ_steps P z s p (pos zero) = z
ℤ_steps P z s p (pos (suc n)) = s (pos n) (ℤ_steps P z s p (pos n))
ℤ_steps P z s p (negsuc zero) = p (pos zero) z
ℤ_steps P z s p (negsuc (suc n)) = p (negsuc n) (ℤ_steps P z s p (negsuc n))

swap_last : (x y z : ℤ) → (x +ℤ y) +ℤ z ≡ (x +ℤ z) +ℤ y
swap_last x y z = +ℤ_assoc x y z ∙ ap (λ w. x +ℤ w) (+ℤ_comm y z) ∙ sym (+ℤ_assoc x z y)

pub add_mul : (a b c : ℤ) → (a +ℤ b) *ℤ c ≡ a *ℤ c +ℤ b *ℤ c
add_mul a b c =
    ℤ_steps (λ x. (x +ℤ b) *ℤ c ≡ x *ℤ c +ℤ b *ℤ c)
      (ap (λ x. x *ℤ c) (+ℤ_idl b)
        ∙ sym (+ℤ_idl (b *ℤ c))
        ∙ ap (λ x. x +ℤ b *ℤ c) (sym (zero-*ℤ c)))
      (λ x h.
        ap (λ y. y *ℤ c) (suc_ℤ-+ℤ x b)
        ∙ suc_ℤ-*ℤ (x +ℤ b) c
        ∙ ap (λ y. y +ℤ c) h
        ∙ swap_last (x *ℤ c) (b *ℤ c) c
        ∙ ap (λ y. y +ℤ b *ℤ c) (sym (suc_ℤ-*ℤ x c)))
      (λ x h.
        ap (λ y. y *ℤ c) (pred_ℤ-+ℤ x b)
        ∙ pred_ℤ-*ℤ (x +ℤ b) c
        ∙ ap (λ y. y -ℤ c) h
        ∙ swap_last (x *ℤ c) (b *ℤ c) (neg_ℤ c)
        ∙ ap (λ y. y +ℤ b *ℤ c) (sym (pred_ℤ-*ℤ x c)))
      a

neg_mul : (b c : ℤ) → neg_ℤ b *ℤ c ≡ neg_ℤ (b *ℤ c)
neg_mul b c =
    ℤ_steps (λ x. neg_ℤ x *ℤ c ≡ neg_ℤ (x *ℤ c)) (zero-*ℤ c ∙ ap neg_ℤ (sym (zero-*ℤ c)))
      (λ x h.
        ap (λ y. y *ℤ c) (neg_ℤ-suc_ℤ x)
        ∙ pred_ℤ-*ℤ (neg_ℤ x) c
        ∙ ap (λ y. y -ℤ c) h
        ∙ sym (neg_ℤ-+ℤ (x *ℤ c) c)
        ∙ ap neg_ℤ (sym (suc_ℤ-*ℤ x c)))
      (λ x h.
        ap (λ y. y *ℤ c) (neg_ℤ-pred_ℤ x)
        ∙ suc_ℤ-*ℤ (neg_ℤ x) c
        ∙ ap (λ y. y +ℤ c) h
        ∙ ap (λ y. neg_ℤ (x *ℤ c) +ℤ y) (sym (neg_ℤ-neg_ℤ c))
        ∙ sym (neg_ℤ-+ℤ (x *ℤ c) (neg_ℤ c))
        ∙ ap neg_ℤ (sym (pred_ℤ-*ℤ x c)))
      b

mul_assoc : (a b c : ℤ) → (a *ℤ b) *ℤ c ≡ a *ℤ (b *ℤ c)
mul_assoc a b c =
    ℤ_steps (λ x. (x *ℤ b) *ℤ c ≡ x *ℤ (b *ℤ c))
      (ap (λ y. y *ℤ c) (zero-*ℤ b) ∙ zero-*ℤ c ∙ sym (zero-*ℤ (b *ℤ c)))
      (λ x h.
        ap (λ y. y *ℤ c) (suc_ℤ-*ℤ x b)
        ∙ add_mul (x *ℤ b) b c
        ∙ ap (λ y. y +ℤ b *ℤ c) h
        ∙ sym (suc_ℤ-*ℤ x (b *ℤ c)))
      (λ x h.
        ap (λ y. y *ℤ c) (pred_ℤ-*ℤ x b)
        ∙ add_mul (x *ℤ b) (neg_ℤ b) c
        ∙ ap (λ y. y +ℤ neg_ℤ b *ℤ c) h
        ∙ ap (λ y. x *ℤ (b *ℤ c) +ℤ y) (neg_mul b c)
        ∙ sym (pred_ℤ-*ℤ x (b *ℤ c)))
      a

abbrev pub integers : Arithmetic ℤ
integers = record { zero = pos zero; one = Int.one; add = ◌+ℤ◌; mul = ◌*ℤ◌; sub = ◌-ℤ◌ }

pub integers-IsExact : IsExact integers
integers-IsExact = record {
  add_assoc = +ℤ_assoc;
  add_comm = +ℤ_comm;
  zero_add = +ℤ_idl;
  zero_mul = zero-*ℤ;
  one_mul = λ a. *ℤ_comm Int.one a ∙ *ℤ-one a;
  mul_assoc = mul_assoc;
  mul_comm = *ℤ_comm;
  add_mul = add_mul;
  sub_add = -ℤ-+ℤ_cancel;
}

-- 3, -2, 5 and -1.
abbrev weights : List ℤ
weights =
    pos (suc (suc (suc zero)))
    ∷ negsuc (suc zero)
    ∷ pos (suc (suc (suc (suc (suc zero)))))
    ∷ negsuc zero
    ∷ []

e_minus_i_k_minus_1-symmetric_example :
    e_minus_i_k_minus_1 integers 3 weights 1
    ≡ symmetric integers 2 (take 1 weights ++ drop (1 + 1) weights)
e_minus_i_k_minus_1-symmetric_example =
    e_minus_i_k_minus_1-symmetric integers integers-IsExact 2 1 weights (omega arith)

total-calculate_prob_example :
    total integers
      (λ i. get_or (calculate_prob integers weights) i (pos zero))
      (length (calculate_prob integers weights))
    ≡ Int.one
total-calculate_prob_example = total-calculate_prob integers integers-IsExact weights
