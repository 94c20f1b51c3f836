-- ===== src/Hooks.antt =====
-- `_register_hooks_recursively` of `LUT_MoEEngine` in runtime/model_offload.py, over a tree of
-- modules: the ids of the modules, and which of them get hooks. A tensor is a number, and where
-- its data lies is a function of the tensor. What the hooks do when they run is not modelled.
pub mod Numbering
use block_lut.Prelude.{
  ℕ, zero, suc, ◌+◌, Bool, true, false, not, ◌||◌, List, [], ◌∷◌, ◌++◌, ◌==◌, if◌then◌else◌,
}

mutual
  -- A module with its own parameters and buffers, and its children.
  pub data Module : Type 0 where
    node : List ℕ → List ℕ → Modules → Module

  pub data Modules : Type 0 where
    none : Modules
    more : Module → Modules → Modules

pub record Memory : Type 0 where
  pub data_ptr : ℕ → ℕ
  pub offload_set : List ℕ

-- `ptr in offload_set`
unfoldable pub mem : ℕ → List ℕ → Bool
mem p [] = false
mem p (q ∷ ps) = let rest = mem p ps in if q == p then true else rest

-- A test of a tensor of the list.
unfoldable pub any_of : (ℕ → Bool) → List ℕ → Bool
any_of test [] = false
any_of test (t ∷ ts) = test t || any_of test ts

unfoldable pub is_offloaded : Memory → ℕ → Bool
unfolding mem
is_offloaded s t = mem (s.data_ptr t) s.offload_set

-- What the registration does, in order.
pub data Registration : Type 0 where
  set_id add_hooks : ℕ → Registration

-- The hooks of a module that has a parameter or a buffer of its own that is offloaded.
unfoldable pub hooks_of : Memory → List ℕ → List ℕ → ℕ → List Registration
unfolding any_of is_offloaded
hooks_of s params buffers id =
    if any_of (is_offloaded s) params || any_of (is_offloaded s) buffers
    then Registration.add_hooks id ∷ []
    else []

unfoldable mutual
  unfolding hooks_of

  -- `count` is the number that is shared by the calls; the last one is returned.
  pub register : Memory → Module → ℕ → List Registration × ℕ
  register s (node params buffers children) count =
      let (events, last) = register_children s children count in
      (Registration.set_id count ∷ events ++ hooks_of s params buffers count, last)

  -- The loop over the children.
  pub register_children : Memory → Modules → ℕ → List Registration × ℕ
  register_children s none count = ([], count)
  register_children s (more child children) count =
      let (events, last) = register s child (count + 1) in
      let (rest, end) = register_children s children last in (events ++ rest, end)
