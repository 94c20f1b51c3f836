-- ===== src/BitPlane/Quads.antt =====
-- Arrays whose length is a multiple of 4, and what the packing of `BitPlane` computes on them.
use block_lut.Prelude.{
  ℕ, suc, ◌+◌, ◌*◌, ◌/◌, ◌%◌, ◌<◌, ◌≡◌, refl, sym, ap, ◌∙◌, List, [], ◌∷◌, map, length, arith, All,
  agree_below, agree_below→eq,
}
use block_lut.Outcome.{ok}
use block_lut.BitPlane.{stride, zip_with, broadcast, or_shl, pack_nibbles, pack_crumbs}

pub data Quads {ℓ} {A : Type ℓ} : List A → Type ℓ where
  none_left : Quads []
  quad : (a b c d : A) {xs : List A} → Quads xs → Quads (a ∷ b ∷ c ∷ d ∷ xs)

pub quads {ℓ} : {A : Type ℓ} (xs : List A) → length xs % 4 ≡ 0 → Quads xs
quads [] h = none_left
quads (a ∷ []) h = absurd (omega arith)
quads (a ∷ b ∷ []) h = absurd (omega arith)
quads (a ∷ b ∷ c ∷ []) h = absurd (omega arith)
quads (a ∷ b ∷ c ∷ d ∷ xs) h = quad a b c d (quads xs (omega arith))

pub Quads-map {ℓ κ} :
    {A : Type ℓ} {B : Type κ} (f : A → B) {xs : List A} → Quads xs → Quads (map f xs)
Quads-map f none_left = none_left
Quads-map f (quad a b c d q) = quad (f a) (f b) (f c) (f d) (Quads-map f q)

-- The bytes of a plane of 4-bit values, and of one of 2-bit values.
unfoldable pub nibbles : List ℕ → List ℕ
nibbles [] = []
nibbles (a ∷ []) = []
nibbles (a ∷ b ∷ xs) = (a + 16 * b) ∷ nibbles xs

unfoldable pub crumbs : List ℕ → List ℕ
crumbs (a ∷ b ∷ c ∷ d ∷ xs) = (a + 4 * b + 16 * c + 64 * d) ∷ crumbs xs
crumbs xs = []

-- On arrays of one length nothing is stretched.
broadcast_same :
    (f : ℕ → ℕ → ℕ) (xs ys : List ℕ)
    → length xs ≡ length ys
    → broadcast f xs ys ≡ ok (zip_with f xs ys)
unfolding broadcast
broadcast_same f [] [] h = refl
broadcast_same f [] (y ∷ ys) h = absurd (omega arith)
broadcast_same f (x ∷ xs) [] h = absurd (omega arith)
broadcast_same f (x ∷ []) (y ∷ []) h = refl
broadcast_same f (x ∷ []) (y ∷ y' ∷ ys) h = absurd (omega arith)
broadcast_same f (x ∷ x' ∷ xs) (y ∷ []) h = absurd (omega arith)
broadcast_same f (x ∷ x' ∷ xs) (y ∷ y' ∷ ys) h = ground arith

-- Values of disjoint bits are added by `|`.
nibble_or : (a b : ℕ) → a < 16 → b < 16 → or_shl 4 a b ≡ a + 16 * b
unfolding agree_below
nibble_or a b p q =
    let byte = a + 16 * b in
    let at : or_shl 4 (byte % 16) (byte / 16) ≡ byte =
      agree_below→eq (λ x. or_shl 4 (x % 16) (x / 16)) (λ x. x) 256 refl byte (omega arith) in
    let first : byte % 16 ≡ a = omega arith in
    let second : byte / 16 ≡ b = omega arith in rw (first, second) at at

abbrev or_crumbs : ℕ → ℕ → ℕ → ℕ → ℕ
or_crumbs a b c d = or_shl 6 (or_shl 4 (or_shl 2 a b) c) d

crumb_or :
    (a b c d : ℕ) → a < 4 → b < 4 → c < 4 → d < 4 → or_crumbs a b c d ≡ a + 4 * b + 16 * c + 64 * d
unfolding agree_below
crumb_or a b c d p q r s =
    let byte = a + 4 * b + 16 * c + 64 * d in
    let at : or_crumbs (byte % 4) (byte / 4 % 4) (byte / 16 % 4) (byte / 64) ≡ byte =
      agree_below→eq (λ x. or_crumbs (x % 4) (x / 4 % 4) (x / 16 % 4) (x / 64)) (λ x. x) 256 refl
        byte (omega arith) in
    let first : byte % 4 ≡ a = omega arith in
    let second : byte / 4 % 4 ≡ b = omega arith in
    let third : byte / 16 % 4 ≡ c = omega arith in
    let fourth : byte / 64 ≡ d = omega arith in rw (first, second, third, fourth) at at

-- Two slices of a quadruple array, of step 2 or 4, are equally long.
length-stride_two :
    {A : Type 0} {xs : List A} → Quads xs → length (stride 0 2 xs) ≡ length (stride 1 2 xs)
unfolding stride
length-stride_two none_left = refl
length-stride_two (quad a b c d q) = ap (λ n. suc (suc n)) (length-stride_two q)

abbrev quarter : {A : Type 0} {xs : List A} → Quads xs → ℕ
quarter none_left = 0
quarter (quad a b c d q) = suc (quarter q)

length-stride_four :
    {A : Type 0} {xs : List A} (q : Quads xs)
    → (length (stride 0 4 xs) ≡ quarter q)
      × (length (stride 1 4 xs) ≡ quarter q)
      × (length (stride 2 4 xs) ≡ quarter q)
      × (length (stride 3 4 xs) ≡ quarter q)
unfolding stride
length-stride_four none_left = (refl, refl, refl, refl)
length-stride_four (quad a b c d q) =
    let (e, f, g, h) = length-stride_four q in (ap suc e, ap suc f, ap suc g, ap suc h)

length-zip_with :
    (f : ℕ → ℕ → ℕ) (xs ys : List ℕ) → length xs ≡ length ys → length (zip_with f xs ys) ≡ length xs
unfolding zip_with
length-zip_with f [] ys h = refl
length-zip_with f (x ∷ xs) [] h = absurd (omega arith)
length-zip_with f (x ∷ xs) (y ∷ ys) h = ap suc (length-zip_with f xs ys (omega arith))

zip_nibbles :
    {xs : List ℕ}
    → Quads xs
    → All (λ x. x < 16) xs
    → zip_with (or_shl 4) (stride 0 2 xs) (stride 1 2 xs) ≡ nibbles xs
unfolding stride zip_with nibbles
zip_nibbles none_left h = refl
zip_nibbles (quad a b c d q) h =
    cc (nibble_or a b h.0 h.1.0, nibble_or c d h.1.1.0 h.1.1.1.0, zip_nibbles q h.1.1.1.1)

pub pack_nibbles-Quads :
    {xs : List ℕ} → Quads xs → All (λ x. x < 16) xs → pack_nibbles xs ≡ ok (nibbles xs)
unfolding pack_nibbles
pack_nibbles-Quads q h = broadcast_same _ _ _ (length-stride_two q) ∙ ap ok (zip_nibbles q h)

zip_crumbs :
    {xs : List ℕ}
    → Quads xs
    → All (λ x. x < 4) xs
    → zip_with
        (or_shl 6)
        (zip_with (or_shl 4) (zip_with (or_shl 2) (stride 0 4 xs) (stride 1 4 xs)) (stride 2 4 xs))
        (stride 3 4 xs)
      ≡ crumbs xs
unfolding stride zip_with crumbs
zip_crumbs none_left h = refl
zip_crumbs (quad a b c d q) h =
    cc (crumb_or a b c d h.0 h.1.0 h.1.1.0 h.1.1.1.0, zip_crumbs q h.1.1.1.1)

pub pack_crumbs-Quads :
    {xs : List ℕ} → Quads xs → All (λ x. x < 4) xs → pack_crumbs xs ≡ ok (crumbs xs)
unfolding pack_crumbs
pack_crumbs-Quads {xs} q h =
    let (e, f, g, k) = length-stride_four q in
    let two = zip_with (or_shl 2) (stride 0 4 xs) (stride 1 4 xs) in
    let two_length : length two ≡ quarter q = length-zip_with _ _ _ (e ∙ sym f) ∙ e in
    let three_length : length (zip_with (or_shl 4) two (stride 2 4 xs)) ≡ quarter q =
      length-zip_with _ _ _ (two_length ∙ sym g) ∙ two_length in
    rw
      (
        broadcast_same (or_shl 2) (stride 0 4 xs) (stride 1 4 xs) (e ∙ sym f),
        broadcast_same (or_shl 4) two (stride 2 4 xs) (two_length ∙ sym g),
        broadcast_same (or_shl 6) _ (stride 3 4 xs) (three_length ∙ sym k),
      )
      (ap ok (zip_crumbs q h))
