-- ===== src/BitPlane/RoundTrip.antt =====
-- Packing and reading back: the whole index from the three planes, and its low bits from the part
-- of the planes that a colder tier reads.
use block_lut.Prelude.{
  true, ℕ, ◌*◌, ◌/◌, ◌%◌, ◌<◌, ◌≡◌, refl, sym, append-nil, ap, ◌∙◌, List, [], ◌∷◌, ◌++◌, map,
  length, arith, All, take, drop, take-append_left, drop-append_left, drop-drop, length-append,
  append_assoc,
}
use mathlib.Core.List.{flatten}
use block_lut.Outcome.{ok}
use block_lut.BitPlane.{low, mid, high, pack_bitplanes, zip_with}
use block_lut.BitPlane.Quads.{
  Quads, none_left, quad, quads, Quads-map, nibbles, crumbs, pack_nibbles-Quads, pack_crumbs-Quads,
}
use block_lut.BitPlane.Readers.{
  read_size, read_planes, unpack_4bit, unpack_crumbs, unpack_six, unpack_planes, add_plane,
}

abbrev pub IsByte : ℕ → Type 0
IsByte i = i < 256

All-map-low : (xs : List ℕ) → All (λ x. x < 16) (map low xs)
All-map-low [] = tt
All-map-low (x ∷ xs) = (omega arith, All-map-low xs)

All-map-mid : (xs : List ℕ) → All (λ x. x < 4) (map mid xs)
All-map-mid [] = tt
All-map-mid (x ∷ xs) = (omega arith, All-map-mid xs)

All-map-high : (xs : List ℕ) → All (λ x. x < 4) (map high xs)
All-map-high [] = tt
All-map-high (x ∷ xs) = (omega arith, All-map-high xs)

-- The three planes of an array of indices.
abbrev planes : List ℕ → List ℕ
planes xs = nibbles (map low xs) ++ (crumbs (map mid xs) ++ crumbs (map high xs))

pack_bitplanes-planes : {xs : List ℕ} → Quads xs → pack_bitplanes xs ≡ ok (planes xs)
unfolding pack_bitplanes
pack_bitplanes-planes {xs} q = rw (
  pack_nibbles-Quads (Quads-map low q) (All-map-low xs),
  pack_crumbs-Quads (Quads-map mid q) (All-map-mid xs),
  pack_crumbs-Quads (Quads-map high q) (All-map-high xs),
)

length-nibbles : {xs : List ℕ} → Quads xs → length (nibbles (map low xs)) ≡ length xs / 2
unfolding nibbles
length-nibbles none_left = refl
length-nibbles (quad a b c d q) = omega (arith, length-nibbles q)

length-crumbs : (f : ℕ → ℕ) {xs : List ℕ} → Quads xs → length (crumbs (map f xs)) ≡ length xs / 4
unfolding crumbs
length-crumbs f none_left = refl
length-crumbs f (quad a b c d q) = omega (arith, length-crumbs f q)

length-Quads : {xs : List ℕ} → Quads xs → length xs % 4 ≡ 0
length-Quads none_left = refl
length-Quads (quad a b c d q) = omega (arith, length-Quads q)

unpack_4bit-nibbles : {xs : List ℕ} → Quads xs → unpack_4bit (nibbles (map low xs)) ≡ map low xs
unfolding unpack_4bit nibbles
unpack_4bit-nibbles none_left = refl
unpack_4bit-nibbles (quad a b c d q) = ground (arith, unpack_4bit-nibbles q)

unpack_crumbs-crumbs :
    {xs : List ℕ} → Quads xs → All (λ x. x < 4) xs → unpack_crumbs (crumbs xs) ≡ xs
unfolding unpack_crumbs crumbs
unpack_crumbs-crumbs none_left h = refl
unpack_crumbs-crumbs (quad a b c d q) h = ground (arith, unpack_crumbs-crumbs q h.1.1.1.1)

-- Eight bits of an index are its three planes.
join_planes :
    (xs : List ℕ)
    → All IsByte xs
    → zip_with (add_plane 64) (zip_with (add_plane 16) (map low xs) (map mid xs)) (map high xs) ≡ xs
unfolding zip_with
join_planes [] h = refl
join_planes (x ∷ xs) h = ground (arith, join_planes xs h.1)

join_six : (xs : List ℕ) → zip_with (add_plane 16) (map low xs) (map mid xs) ≡ map (λ i. i % 64) xs
unfolding zip_with
join_six [] = refl
join_six (x ∷ xs) = ground (arith, join_six xs)

module _ {xs : List ℕ} (q : Quads xs) where
  take-nibbles :
      (rest : List ℕ) → take (length xs / 2) (nibbles (map low xs) ++ rest) ≡ nibbles (map low xs)
  take-nibbles rest = rw (← length-nibbles q) (take-append_left (nibbles (map low xs)) rest)

  drop-nibbles : (rest : List ℕ) → drop (length xs / 2) (nibbles (map low xs) ++ rest) ≡ rest
  drop-nibbles rest = rw (← length-nibbles q) (drop-append_left (nibbles (map low xs)) rest)

  take-mid :
      (rest : List ℕ) → take (length xs / 4) (crumbs (map mid xs) ++ rest) ≡ crumbs (map mid xs)
  take-mid rest = rw (← length-crumbs mid q) (take-append_left (crumbs (map mid xs)) rest)

  drop-mid : (rest : List ℕ) → drop (length xs / 4) (crumbs (map mid xs) ++ rest) ≡ rest
  drop-mid rest = rw (← length-crumbs mid q) (drop-append_left (crumbs (map mid xs)) rest)

  six_planes :
      (rest : List ℕ)
      → unpack_six (length xs) (nibbles (map low xs) ++ (crumbs (map mid xs) ++ rest))
        ≡ zip_with (add_plane 16) (map low xs) (map mid xs)
  unfolding unpack_six
  six_planes rest = rw (
    take-nibbles,
    drop-nibbles,
    take-mid,
    unpack_4bit-nibbles q,
    unpack_crumbs-crumbs (Quads-map mid q) (All-map-mid xs),
  )

  unpack_planes-planes : All IsByte xs → unpack_planes (length xs) (planes xs) ≡ xs
  unfolding unpack_planes
  unpack_planes-planes h = rw (
    six_planes,
    ← drop-drop (length xs / 2) (length xs / 4) (planes xs),
    drop-nibbles,
    drop-mid,
    unpack_crumbs-crumbs (Quads-map high q) (All-map-high xs),
    join_planes xs h,
  )

  length-planes : length (planes xs) ≡ length xs
  length-planes = omega (
    arith,
    length-append (nibbles (map low xs)) (crumbs (map mid xs) ++ crumbs (map high xs)),
    length-append (crumbs (map mid xs)) (crumbs (map high xs)),
    length-nibbles q,
    length-crumbs mid q,
    length-crumbs high q,
    length-Quads q,
  )

  -- The part of a chunk that tier 1 reads ends where the middle plane ends.
  take_two_planes :
      take (length xs * 3 / 4) (planes xs) ≡ nibbles (map low xs) ++ crumbs (map mid xs)
  take_two_planes =
      let two = nibbles (map low xs) ++ crumbs (map mid xs) in
      let size : length xs * 3 / 4 ≡ length two = omega (
        arith,
        length-append (nibbles (map low xs)) (crumbs (map mid xs)),
        length-nibbles q,
        length-crumbs mid q,
        length-Quads q,
      ) in
      rw (size, ← append_assoc) (take-append_left two (crumbs (map high xs)))

  six_of_two_planes :
      unpack_six (length xs) (nibbles (map low xs) ++ crumbs (map mid xs)) ≡ map (λ i. i % 64) xs
  six_of_two_planes =
      ap (λ l. unpack_six (length xs) (nibbles (map low xs) ++ l))
        (sym (append-nil (crumbs (map mid xs))))
      ∙ six_planes []
      ∙ join_six xs

-- An array of bytes whose length is a multiple of 4 is packed without an exception, into as many
-- bytes, and the three planes give every index back.
pub unpack_planes-pack_bitplanes :
    (indices : List ℕ)
    → length indices % 4 ≡ 0
    → All IsByte indices
    → (packed : List ℕ) × (pack_bitplanes indices ≡ ok packed)
      × (length packed ≡ length indices)
      × (unpack_planes (length indices) packed ≡ indices)
unpack_planes-pack_bitplanes indices h bytes =
    let q = quads indices h in
    (planes indices, pack_bitplanes-planes q, length-planes q, unpack_planes-planes q bytes)

tiers-planes :
    (indices : List ℕ) {packed : List ℕ}
    → length indices % 4 ≡ 0
    → pack_bitplanes indices ≡ ok packed
    → let n = length indices in
      (unpack_4bit (take (read_size true 2 n n) packed) ≡ map (λ i. i % 16) indices)
      × (unpack_six n (take (read_size true 1 n n) packed) ≡ map (λ i. i % 64) indices)
unfolding read_size
tiers-planes indices {packed} h e =
    let q = quads indices h in
    let same : packed ≡ planes indices = cc (e, pack_bitplanes-planes q) in
    rw same
      (rw (take-nibbles q) (unpack_4bit-nibbles q), rw (take_two_planes q) (six_of_two_planes q))

length-pack_bitplanes :
    (indices packed : List ℕ)
    → length indices % 4 ≡ 0
    → pack_bitplanes indices ≡ ok packed
    → length packed ≡ length indices
length-pack_bitplanes indices packed h e =
    let q = quads indices h in
    let same : packed ≡ planes indices = cc (e, pack_bitplanes-planes q) in
    ap length same ∙ length-planes q

-- Of the bytes packed from an array whose length is a multiple of 4 and stored as one chunk, what
-- tier 2 reads is unpacked by the kernel to the low 4 bits of every index, and what tier 1 reads
-- holds the low 6 bits. With more chunks this does not hold, since each is cut on its own.
pub tiers-pack_bitplanes :
    (indices : List ℕ) {packed : List ℕ}
    → length indices % 4 ≡ 0
    → pack_bitplanes indices ≡ ok packed
    → let stored : List (List ℕ) = packed ∷ [] in
      (unpack_4bit (flatten (read_planes true 2 stored)) ≡ map (λ i. i % 16) indices)
      × (unpack_six (length indices) (flatten (read_planes true 1 stored))
          ≡ map (λ i. i % 64) indices)
unfolding read_planes flatten
tiers-pack_bitplanes indices {packed} h e =
    let (cold, warm) = tiers-planes indices h e in
    let long = length-pack_bitplanes indices packed h e in
    let whole : (tier : ℕ)
        → flatten (read_planes true tier (packed ∷ []))
          ≡ take (read_size true tier (length indices) (length indices)) packed =
      λ tier. append-nil _ ∙ ap (λ (k : ℕ). take (read_size true tier k k) packed) long in
    (ap unpack_4bit (whole 2) ∙ cold, ap (unpack_six (length indices)) (whole 1) ∙ warm)
