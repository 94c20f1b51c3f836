-- ===== src/Planning/Scalars.antt =====
-- The arithmetic of a number type, and the laws that exact numbers have.
use block_lut.Prelude.{◌≡◌}

pub record Arithmetic (A : Type 0) : Type 0 where
  pub zero : A
  pub one : A
  pub add : A → A → A
  pub mul : A → A → A
  pub sub : A → A → A

pub record IsExact {A : Type 0} (n : Arithmetic A) : Type 0 where
  pub add_assoc : (a b c : A) → n.add (n.add a b) c ≡ n.add a (n.add b c)
  pub add_comm : (a b : A) → n.add a b ≡ n.add b a
  pub zero_add : (a : A) → n.add n.zero a ≡ a
  pub zero_mul : (a : A) → n.mul n.zero a ≡ n.zero
  pub one_mul : (a : A) → n.mul n.one a ≡ a
  pub mul_assoc : (a b c : A) → n.mul (n.mul a b) c ≡ n.mul a (n.mul b c)
  pub mul_comm : (a b : A) → n.mul a b ≡ n.mul b a
  pub add_mul : (a b c : A) → n.mul (n.add a b) c ≡ n.add (n.mul a c) (n.mul b c)
  pub sub_add : (a b : A) → n.add (n.sub a b) b ≡ a
