-- ===== src/Planning/Coverage/LeaveOut.antt =====
-- What the entries of the tables are, and the sum that leaves one element out.
use mathlib.Core.List.{reverse_aux}
use block_lut.Prelude.{
  ℕ, zero, suc, ◌+◌, ◌-◌, ◌<◌, ◌≤◌, ◌≡◌, refl, ap, ◌∙◌, List, [], ◌∷◌, ◌++◌, length, get_or, take,
  drop, arith, length-replicate, get_or-replicate,
}
use mathlib.Core.Path.{ap₂}
use block_lut.Planning.Scalars.{Arithmetic, IsExact}
use block_lut.Planning.Distribution.Total.{total-cong}
use block_lut.Planning.Coverage.{
  row_rest, next_row, first_row, rows_from, dp, rows_back, b_dp, e_minus_i_k_minus_1,
}
use block_lut.Planning.Coverage.Symmetric.{symmetric, split_symmetric}

two_more : (i : ℕ) → i + 2 ≡ suc (i + 1)
two_more i = omega arith

one_less : (q m : ℕ) → suc q - 1 - m ≡ q - m
one_less q m = omega arith

reverse_aux-twice :
    {A : Type 0} (us ws vs : List A)
    → reverse_aux (reverse_aux us ws) vs ≡ reverse_aux ws (us ++ vs)
reverse_aux-twice [] ws vs = refl
reverse_aux-twice (u ∷ us) ws vs = reverse_aux-twice us (u ∷ ws) vs

module _ {A : Type 0} (n : Arithmetic A) where
  -- A row holds the symmetric sums of some elements, up to `k`.
  abbrev Holds : ℕ → List A → List A → Type 0
  Holds k ps row = (length row ≡ suc k) × ((m : ℕ) → m ≤ k → get_or row m n.zero ≡ symmetric n m ps)

  length-row_rest : (w last : A) (xs : List A) → length (row_rest n w last xs) ≡ length xs
  unfolding row_rest
  length-row_rest w last [] = refl
  length-row_rest w last (x ∷ xs) = ap suc (length-row_rest w x xs)

  get_or-row_rest :
      (w last : A) (xs : List A) (m : ℕ)
      → m < length xs
      → get_or (row_rest n w last xs) m n.zero
        ≡ n.add (get_or xs m n.zero) (n.mul w (get_or (last ∷ xs) m n.zero))
  unfolding row_rest
  get_or-row_rest w last [] m h = absurd (omega arith)
  get_or-row_rest w last (x ∷ xs) zero h = refl
  get_or-row_rest w last (x ∷ xs) (suc m) h = get_or-row_rest w x xs m (omega arith)

  next_row-Holds :
      (k : ℕ) (w : A) (ps row : List A) → Holds k ps row → Holds k (w ∷ ps) (next_row n w row)
  unfolding next_row
  next_row-Holds k w ps [] h = absurd (omega (arith, h.0))
  next_row-Holds k w ps (x ∷ row) h = (ap suc (length-row_rest w x row) ∙ h.0, λ m l. cell m l)
    where
      cell : (m : ℕ) → m ≤ k → get_or (next_row n w (x ∷ row)) m n.zero ≡ symmetric n m (w ∷ ps)
      cell zero l = refl
      cell (suc m) l =
          get_or-row_rest w x row m (omega (arith, h.0))
          ∙ ap₂ (λ a b. n.add a (n.mul w b)) (h.1 (suc m) l) (h.1 m (omega arith))

  first_row-Holds : (k : ℕ) → Holds k [] (first_row n k)
  unfolding first_row
  first_row-Holds k = (ap suc (length-replicate k n.zero), λ m l. cell m)
    where
      cell : (m : ℕ) → get_or (first_row n k) m n.zero ≡ symmetric n m []
      cell zero = refl
      cell (suc m) = get_or-replicate k m n.zero

  rows_from-Holds :
      (k i : ℕ) (ps row ws : List A)
      → Holds k ps row
      → i ≤ length ws
      → Holds k (reverse_aux (take i ws) ps) (get_or (rows_from n row ws) i [])
  unfolding rows_from
  rows_from-Holds k zero ps row [] h l = h
  rows_from-Holds k zero ps row (w ∷ ws) h l = h
  rows_from-Holds k (suc i) ps row [] h l = absurd (omega arith)
  rows_from-Holds k (suc i) ps row (w ∷ ws) h l =
      rows_from-Holds k i (w ∷ ps) (next_row n w row) ws (next_row-Holds k w ps row h) (omega arith)

  rows_back-Holds :
      (k i : ℕ) (ws : List A) → i ≤ length ws → Holds k (drop i ws) (get_or (rows_back n k ws) i [])
  unfolding rows_back
  rows_back-Holds k zero [] l = first_row-Holds k
  rows_back-Holds k (suc i) [] l = absurd (omega arith)
  rows_back-Holds k zero (w ∷ ws) l =
      next_row-Holds k w ws (get_or (rows_back n k ws) 0 []) (rows_back-Holds k 0 ws (omega arith))
  rows_back-Holds k (suc i) (w ∷ ws) l = rows_back-Holds k i ws (omega arith)

  -- With exact arithmetic, the loop of `CoverageToWeight` over the two tables gives, for the
  -- element at `i`, the weighted sum over the choices of `k - 1` of all other elements: what the
  -- comment calls E_{-i}(k-1), for a positive `k`.
  pub e_minus_i_k_minus_1-symmetric :
      IsExact n
      → (q i : ℕ) (ws : List A) → i < length ws
      → e_minus_i_k_minus_1 n (suc q) ws i ≡ symmetric n q (take i ws ++ drop (i + 1) ws)
  unfolding e_minus_i_k_minus_1 dp b_dp
  e_minus_i_k_minus_1-symmetric x q i ws l =
      let front =
        rows_from-Holds (suc q) i [] (first_row n (suc q)) ws (first_row-Holds (suc q))
          (omega arith) in
      let back = rows_back-Holds (suc q) (i + 1) ws (omega arith) in
      total-cong n _
        (λ m.
          n.mul (symmetric n m (reverse_aux (take i ws) []))
            (symmetric n (q - m) (drop (i + 1) ws)))
        (suc q)
        (λ m h. ap₂ n.mul (front.1 m (omega arith)) (
          ap (λ j. get_or (get_or (b_dp n (suc q) ws) j []) (suc q - 1 - m) n.zero) (two_more i)
          ∙ ap (λ j. get_or (get_or (rows_back n (suc q) ws) (i + 1) []) j n.zero) (one_less q m)
          ∙ back.1 (q - m) (omega arith)))
      ∙ split_symmetric n x (reverse_aux (take i ws) []) (drop (i + 1) ws) q
      ∙ ap (symmetric n q) (reverse_aux-twice (take i ws) [] (drop (i + 1) ws))
