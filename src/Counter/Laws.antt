-- ===== src/Counter/Laws.antt =====
-- What a counter gives after it was incremented.
use native.Mathlib.Decide.{ℕ_discrete}
use mathlib.Core.List.{Mem, mem-cons_of_mem, mem-cons_self, mem-cast}
use block_lut.Prelude.{ℕ, ◌+◌, ◌<◌, ◌≡◌, sym, List, [], ◌∷◌, map, arith, ◌==◌, if◌then◌else◌}
use block_lut.Dict
use block_lut.Dict.Laws.{get-put}
use block_lut.Counter.{Counter, count, increment, update}

pub count-increment :
    (e key : ℕ) (c : Counter) → count e (increment key c) ≡ (if key == e then 1 else 0) + count e c
unfolding count increment
count-increment e key c = ground (arith, get-put ℕ_discrete e key (count key c + 1) c)

pub mem_of_count : (e : ℕ) (c : Counter) → 0 < count e c → Mem e (map (λ (item : ℕ × ℕ). item.0) c)
unfolding count Dict.get
mem_of_count e [] h = absurd (omega arith)
mem_of_count e ((k, n) ∷ c) h = elim (ℕ_discrete k e) [
  | yes p ↦ mem-cast (sym p) mem-cons_self
  | no p ↦ mem-cons_of_mem k (mem_of_count e c (ground arith))
]

-- How often a key stands in a list.
abbrev pub occurrences : ℕ → List ℕ → ℕ
occurrences e [] = 0
occurrences e (x ∷ xs) = (if x == e then 1 else 0) + occurrences e xs

pub count-update :
    (e : ℕ) (keys : List ℕ) (c : Counter) → count e (update keys c) ≡ occurrences e keys + count e c
unfolding update
count-update e [] c = omega arith
count-update e (key ∷ keys) c =
    omega (arith, count-update e keys (increment key c), count-increment e key c)
