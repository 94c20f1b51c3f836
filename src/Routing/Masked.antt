-- ===== src/Routing/Masked.antt =====
-- The rows after a masked addition, one by one.
use block_lut.Prelude.{
  ℕ, zero, suc, ◌<◌, ◌≡◌, refl, ap, Bool, true, false, List, [], ◌∷◌, map, length, get_or, arith,
  if◌then◌else◌,
}
use block_lut.Routing.{Space, any, select, add_at, scale_rows, add_rows}

-- Where a mask chooses nothing, it chooses no row.
pub any-get_or : (mask : List Bool) (t : ℕ) → any mask ≡ false → get_or mask t false ≡ false
unfolding any
any-get_or [] t h = refl
any-get_or (true ∷ mask) t h = absurd (cc)
any-get_or (false ∷ mask) zero h = refl
any-get_or (false ∷ mask) (suc t) h = any-get_or mask t h

module _ {A V : Type 0} (s : Space A V) where
  pub length-add_at :
      (mask : List Bool) (rows values : List V) → length (add_at s mask rows values) ≡ length rows
  unfolding add_at
  length-add_at [] rows values = refl
  length-add_at (b ∷ mask) [] values = refl
  length-add_at (false ∷ mask) (r ∷ rows) values = ap suc (length-add_at mask rows values)
  length-add_at (true ∷ mask) (r ∷ rows) [] = refl
  length-add_at (true ∷ mask) (r ∷ rows) (v ∷ values) = ap suc (length-add_at mask rows values)

  -- The chosen rows get what is computed from their own weight and input.
  pub add_at-get_or :
      (f : V → V) (mask : List Bool) (weights : List A) (xs rows : List V) (t : ℕ) (a : A)
      → length mask ≡ length rows
      → length weights ≡ length rows
      → length xs ≡ length rows
      → t < length rows
      → get_or
          (add_at s mask rows (scale_rows s (select mask weights) (map f (select mask xs))))
          t
          s.zero
        ≡ (if get_or mask t false
            then s.add
                (get_or rows t s.zero)
                (s.scale (get_or weights t a) (f (get_or xs t s.zero)))
            else get_or rows t s.zero)
  unfolding add_at scale_rows select
  add_at-get_or f mask weights xs [] t a hm hw hx l = absurd (omega arith)
  add_at-get_or f [] weights xs (r ∷ rows) t a hm hw hx l = absurd (omega arith)
  add_at-get_or f (b ∷ mask) [] xs (r ∷ rows) t a hm hw hx l = absurd (omega arith)
  add_at-get_or f (b ∷ mask) (w ∷ weights) [] (r ∷ rows) t a hm hw hx l = absurd (omega arith)
  add_at-get_or f (true ∷ mask) (w ∷ weights) (x ∷ xs) (r ∷ rows) zero a hm hw hx l = refl
  add_at-get_or f (false ∷ mask) (w ∷ weights) (x ∷ xs) (r ∷ rows) zero a hm hw hx l = refl
  add_at-get_or f (true ∷ mask) (w ∷ weights) (x ∷ xs) (r ∷ rows) (suc t) a hm hw hx l =
      add_at-get_or f mask weights xs rows t a (omega arith) (omega arith) (omega arith)
        (omega arith)
  add_at-get_or f (false ∷ mask) (w ∷ weights) (x ∷ xs) (r ∷ rows) (suc t) a hm hw hx l =
      add_at-get_or f mask weights xs rows t a (omega arith) (omega arith) (omega arith)
        (omega arith)

  pub add_rows-get_or :
      (rows others : List V) (t : ℕ)
      → length others ≡ length rows
      → t < length rows
      → get_or (add_rows s rows others) t s.zero
        ≡ s.add (get_or rows t s.zero) (get_or others t s.zero)
  unfolding add_rows
  add_rows-get_or [] others t h l = absurd (omega arith)
  add_rows-get_or (r ∷ rows) [] t h l = absurd (omega arith)
  add_rows-get_or (r ∷ rows) (o ∷ others) zero h l = refl
  add_rows-get_or (r ∷ rows) (o ∷ others) (suc t) h l =
      add_rows-get_or rows others t (omega arith) (omega arith)
