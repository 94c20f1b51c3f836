-- ===== src/Hooks/Numbering.antt =====
-- The ids of the modules: each module has its own, in the order of a walk from the root.
use native.Mathlib.Nat.{zero-add, suc-add}
use block_lut.Prelude.{
  ℕ, zero, suc, ◌+◌, ◌≡◌, refl, ap, ◌∙◌, Bool-cases, inl, inr, ◌||◌, List, [], ◌∷◌, ◌++◌, range',
  arith, append-nil,
}
use block_lut.Hooks.{
  Module, Modules, node, none, more, Memory, Registration, any_of, is_offloaded, hooks_of, register,
  register_children,
}

mutual
  pub size : Module → ℕ
  size (node params buffers children) = suc (sizes children)

  sizes : Modules → ℕ
  sizes none = 0
  sizes (more child children) = size child + sizes children

-- The ids in the order in which they are given.
pub ids : List Registration → List ℕ
ids [] = []
ids (Registration.set_id id ∷ events) = id ∷ ids events
ids (Registration.add_hooks id ∷ events) = ids events

ids-append : (xs ys : List Registration) → ids (xs ++ ys) ≡ ids xs ++ ids ys
unfolding ids
ids-append [] ys = refl
ids-append (Registration.set_id id ∷ xs) ys = ap (◌∷◌ id) (ids-append xs ys)
ids-append (Registration.add_hooks id ∷ xs) ys = ids-append xs ys

ids-hooks_of : (s : Memory) (ps bs : List ℕ) (id : ℕ) → ids (hooks_of s ps bs id) ≡ []
unfolding ids hooks_of
ids-hooks_of s ps bs id =
    elim (Bool-cases (any_of (is_offloaded s) ps || any_of (is_offloaded s) bs)) [
      | inl t ↦ rw t refl
      | inr f ↦ rw f refl
    ]

range'-append :
    (first m n k : ℕ) → first + m ≡ k → range' first m ++ range' k n ≡ range' first (m + n)
range'-append first zero n k e = let same : k ≡ first = omega arith in rw (zero-add, same) refl
range'-append first (suc m) n k e =
    rw suc-add (ap (◌∷◌ first) (range'-append (suc first) m n k (omega arith)))

mutual
  unfolding ids register size

  ids-register :
      (s : Memory) (m : Module) (count : ℕ)
      → (ids ((register s m count).0) ≡ range' count (size m))
        × (suc ((register s m count).1) ≡ count + size m)
  ids-register s (node ps bs children) count =
      let (numbered, last) = ids-register_children s children count in
      let (events, end) = register_children s children count in
      (
        ap (◌∷◌ count) (
            ids-append events (hooks_of s ps bs count)
            ∙ rw (numbered, ids-hooks_of s ps bs count)
                (append-nil (range' (suc count) (sizes children)))),
        omega (arith, last),
      )

  ids-register_children :
      (s : Memory) (ms : Modules) (count : ℕ)
      → (ids ((register_children s ms count).0) ≡ range' (suc count) (sizes ms))
        × ((register_children s ms count).1 ≡ count + sizes ms)
  ids-register_children s none count = (refl, omega arith)
  ids-register_children s (more child children) count =
      let (numbered, last) = ids-register s child (count + 1) in
      let first = register s child (count + 1) in
      let next : count + 1 ≡ suc count = omega arith in
      let (numbered2, last2) = ids-register_children s children (first.1) in
      (
        ids-append (first.0) ((register_children s children (first.1)).0)
            ∙ rw (numbered, numbered2)
                (ap (λ c. range' c (size child) ++ range' (suc (first.1)) (sizes children)) next
                  ∙ range'-append (suc count) (size child) (sizes children) (suc (first.1))
                      (omega (arith, last))),
        omega (arith, last, last2),
      )
