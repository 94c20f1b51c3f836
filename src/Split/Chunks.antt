-- ===== src/Split/Chunks.antt =====
-- The chunks of `split_chunks`: together they are the array, and none is longer than the rest.
use mathlib.Core.List.{flatten}
use block_lut.Prelude.{
  ℕ, zero, suc, ◌+◌, ◌-◌, ◌*◌, ◌≤◌, ◌<◌, min, ◌≡◌, refl, sym, ap, ◌∙◌, List, [], ◌∷◌, ◌++◌, length,
  take, drop, arith, All, take-append-drop, drop-drop, drop_all, length-take, length-drop,
}
use block_lut.Outcome.{ok}
use block_lut.Split.{ceil_div, slice, chunks_from, split_chunks}

-- Past the end it does not matter how much is taken.
take_clip :
    {A : Type 0} (m n : ℕ) (xs : List A)
    → min m (length xs) ≡ min n (length xs)
    → take m xs ≡ take n xs
take_clip zero zero xs h = refl
take_clip zero (suc n) [] h = refl
take_clip zero (suc n) (x ∷ xs) h = absurd (omega arith)
take_clip (suc m) zero [] h = refl
take_clip (suc m) zero (x ∷ xs) h = absurd (omega arith)
take_clip (suc m) (suc n) [] h = refl
take_clip (suc m) (suc n) (x ∷ xs) h = ap (◌∷◌ x) (take_clip m n xs (omega arith))

slice-append-drop :
    {A : Type 0} (a e : ℕ) (xs : List A)
    → slice a (min (length xs) (a + e)) xs ++ drop (a + e) xs ≡ drop a xs
slice-append-drop a e xs = rw (
  take_clip (min (length xs) (a + e) - a) e (drop a xs) (omega (arith, length-drop a xs)),
  ← drop-drop a e xs,
  take-append-drop,
)

next_multiple : (c e : ℕ) → (c + 1) * e ≡ c * e + e
next_multiple c e = omega arith

module _ {A : Type 0} (e : ℕ) (xs : List A) where
  -- From a chunk on, the chunks are the rest of the array, if the last one reaches its end.
  flatten-chunks_from :
      (rounds c : ℕ)
      → length xs ≤ (c + rounds) * e
      → flatten (chunks_from rounds c e xs) ≡ drop (c * e) xs
  unfolding chunks_from flatten
  flatten-chunks_from zero c h = sym (drop_all (c * e) xs (omega arith))
  flatten-chunks_from (suc rounds) c h =
      rw (flatten-chunks_from rounds (c + 1) (omega arith), next_multiple c e)
        (slice-append-drop (c * e) e xs)

  chunks_from-le : (rounds c : ℕ) → All (λ chunk. length chunk ≤ e) (chunks_from rounds c e xs)
  unfolding chunks_from
  chunks_from-le zero c = tt
  chunks_from-le (suc rounds) c = (
    omega (
      arith,
      next_multiple c e,
      length-take (min (length xs) ((c + 1) * e) - c * e) (drop (c * e) xs),
    ),
    chunks_from-le rounds (c + 1),
  )

  length-chunks_from : (rounds c : ℕ) → length (chunks_from rounds c e xs) ≡ rounds
  unfolding chunks_from
  length-chunks_from zero c = refl
  length-chunks_from (suc rounds) c = ap suc (length-chunks_from rounds (c + 1))

-- The chunks cover the array.
covers : (n k : ℕ) → n ≤ (0 + suc k) * ceil_div n (suc k)
covers n k = grind arith

-- With at least one chunk nothing is raised; there are exactly as many chunks as asked for, their
-- concatenation is the array, and none is longer than the array's length divided by their number,
-- rounded up.
pub split_chunks-flatten :
    {A : Type 0} (num_file_chunks : ℕ) (xs : List A)
    → 0 < num_file_chunks
    → (chunks : List (List A)) × (split_chunks num_file_chunks xs ≡ ok chunks)
      × (length chunks ≡ num_file_chunks)
      × (flatten chunks ≡ xs)
      × All (λ chunk. length chunk ≤ ceil_div (length xs) num_file_chunks) chunks
unfolding split_chunks
split_chunks-flatten zero xs h = elim h [ ]
split_chunks-flatten (suc k) xs h =
    let e = ceil_div (length xs) (suc k) in
    let start : 0 * e ≡ 0 = omega arith in
    let whole : drop (0 * e) xs ≡ xs = rw start in
    (
      chunks_from (suc k) 0 e xs,
      refl,
      length-chunks_from e xs (suc k) 0,
      flatten-chunks_from e xs (suc k) 0 (covers (length xs) k) ∙ whole,
      chunks_from-le e xs (suc k) 0,
    )
