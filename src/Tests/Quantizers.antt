-- ===== src/Tests/Quantizers.antt =====
-- The LUT quantizer over the natural numbers, and its greedy merge over numbers with an infinity
-- and NaN.
use block_lut.Prelude.{
  ℕ, zero, suc, ◌+◌, ◌-◌, ◌*◌, ◌/◌, All2, ◌≤◌, ◌<◌, max, ◌≡◌, refl, sym, subst, ap, inl, inr,
  Bool-cases, none, some, List, [], ◌∷◌, map, length, get_or, take, range', sum, All, leb, leb→le,
  arith, if◌then◌else◌,
}
use block_lut.Outcome.{ok, Returns}
use block_lut.Split.{CodeType, ceil_div}
use block_lut.Quantizer.Numbers.{Numbers, IsShaped, IsOrdered, HasNan}
use block_lut.Quantizer.State.{LutQuantizer}
use block_lut.Quantizer.Kmeans.{store_codebook}
use block_lut.Quantizer.Nested.{greedy_merge}
use block_lut.Quantizer.Nested.Merging.{length-greedy_merge, merge_front, greedy_merge-merge_front}
use block_lut.Quantizer.Blocks.{train}
use block_lut.Quantizer.Blocks.Trained.{HasNested, train-HasNested, train-store_codebook}
use block_lut.Quantizer.Codes.{
  is_blockwise, quantize, decompress, decompress_blocklut, normalize_blocks,
}
use block_lut.Quantizer.Codes.Nearest.{IsNearest, quantize-IsNearest}
use block_lut.Quantizer.Codes.Agree.{decompress-decompress_blocklut}

unfoldable pub least : List ℕ → ℕ
least [] = 0
least (x ∷ []) = 0
least (x ∷ y ∷ ys) = let j = least (y ∷ ys) in if leb x (get_or (y ∷ ys) j 0) then 0 else suc j

pub least-lt : (x : ℕ) (xs : List ℕ) → least (x ∷ xs) < suc (length xs)
unfolding least
least-lt x [] = omega arith
least-lt x (y ∷ ys) = ground (arith, least-lt y ys)

weaken : (m k : ℕ) (xs : List ℕ) → m ≤ k → All (λ x. k ≤ x) xs → All (λ x. m ≤ x) xs
weaken m k [] h a = tt
weaken m k (x ∷ xs) h (a, rest) = (omega arith, weaken m k xs h rest)

pub least-le : (x : ℕ) (xs : List ℕ) → All (λ y. get_or (x ∷ xs) (least (x ∷ xs)) 0 ≤ y) (x ∷ xs)
unfolding least
least-le x [] = (omega arith, tt)
least-le x (y ∷ ys) =
    let rest = least (y ∷ ys) in
    let pick : ℕ → Type 0 = λ i. All (λ z. get_or (x ∷ y ∷ ys) i 0 ≤ z) (x ∷ y ∷ ys) in
    elim (Bool-cases (leb x (get_or (y ∷ ys) rest 0))) [
      | inl t ↦
          subst (λ b. pick (if b then 0 else suc rest)) (sym t)
            (omega arith, weaken x _ (y ∷ ys) (leb→le x _ t) (least-le y ys))
      | inr f ↦ subst (λ b. pick (if b then 0 else suc rest)) (sym f) (ground arith, least-le y ys)
    ]

unfoldable pub largest : List ℕ → ℕ
largest [] = 0
largest (x ∷ xs) = max x (largest xs)

unfoldable pub insert : ℕ → List ℕ → List ℕ
insert x [] = x ∷ []
insert x (y ∷ ys) = let rest = insert x ys in if leb x y then x ∷ y ∷ ys else y ∷ rest

unfoldable pub sorted : List ℕ → List ℕ
unfolding insert
sorted [] = []
sorted (x ∷ xs) = insert x (sorted xs)

length-insert : (x : ℕ) (xs : List ℕ) → length (insert x xs) ≡ suc (length xs)
unfolding insert
length-insert x [] = refl
length-insert x (y ∷ ys) = elim (Bool-cases (leb x y)) [
  | inl t ↦ rw t refl
  | inr f ↦ rw f (ap suc (length-insert x ys))
]

length-sorted : (xs : List ℕ) → length (sorted xs) ≡ length xs
unfolding sorted
length-sorted [] = refl
length-sorted (x ∷ xs) = omega (arith, length-insert x (sorted xs), length-sorted xs)

length-range' : (first k : ℕ) → length (range' first k) ≡ k
length-range' first zero = refl
length-range' first (suc k) = ap suc (length-range' (suc first) k)

range'-lt : (first k m : ℕ) → first + k ≤ m → All (λ i. i < m) (range' first k)
range'-lt first zero m h = tt
range'-lt first (suc k) m h = (omega arith, range'-lt (suc first) k m (omega arith))

abbrev pub naturals : Numbers ℕ
unfolding least largest sorted
naturals = record {
  zero = 0;
  one = 1;
  two = 2;
  tiny = 1;
  infinity = 0;
  abs = λ x. x;
  add = ◌+◌;
  sub = λ x y. x - y + (y - x);
  mul = ◌*◌;
  div = ◌/◌;
  clamp_min = max;
  float = λ x. x;
  bfloat16 = λ x. x;
  amax = largest;
  mean = λ xs. sum xs / length xs;
  argmin = least;
  sort = sorted;
  randperm = λ draw k. range' 0 k;
}

pub naturals-IsShaped : IsShaped naturals
unfolding least largest sorted
naturals-IsShaped = record {
  length-sort = length-sorted;
  length-randperm = λ draw k. length-range' 0 k;
  randperm-All = λ draw k. range'-lt 0 k k (omega arith);
  argmin-lt = least-lt;
}

pub naturals-IsOrdered : IsOrdered naturals ◌≤◌
unfolding least largest sorted
naturals-IsOrdered = record { argmin-Le = least-le }

abbrev pub quantizer : CodeType → LutQuantizer ℕ
quantizer code_type = record {
  code_type = code_type;
  block_size = 2;
  lut_size = 3;
  lut_codebook = none;
  nested_mapped64 = none;
  nested_mapped16 = none;
}

abbrev weights : List ℕ
weights = 4 ∷ 8 ∷ 5 ∷ 10 ∷ 6 ∷ []

length-greedy_merge_example : length (greedy_merge naturals (1 ∷ 5 ∷ 7 ∷ 20 ∷ []) 2) ≡ 2
length-greedy_merge_example = length-greedy_merge naturals (1 ∷ 5 ∷ 7 ∷ 20 ∷ []) 2 naturals-IsShaped

train-HasNested_example :
    Returns (HasNested naturals) (train naturals (quantizer CodeType.nestedlut) weights 1)
train-HasNested_example =
    train-HasNested naturals naturals-IsShaped (quantizer CodeType.nestedlut) weights 1 refl
      (omega arith) (omega arith) (omega arith)

train-store_codebook_example :
    Returns
      (λ trained.
        (codebook : List ℕ) × (trained ≡ store_codebook (quantizer CodeType.blocklut) codebook)
        × (length codebook ≡ 3))
      (train naturals (quantizer CodeType.blocklut) weights 1)
train-store_codebook_example =
    train-store_codebook naturals naturals-IsShaped (quantizer CodeType.blocklut) weights 1
      (inr refl) (omega arith) (omega arith) (omega arith)

quantize-IsNearest_example :
    Returns
      (λ z.
        ((scaled : List ℕ × List ℕ) × (normalize_blocks naturals 2 weights ≡ ok scaled)
          × All2
              (IsNearest naturals ◌≤◌ (0 ∷ 1 ∷ 2 ∷ []))
              (take 5 (map (λ x. x) (scaled.0)))
              z.indices)
        × (length z.indices ≡ 5)
        × (length z.absmax ≡ ceil_div 5 2)
        × (z.codebook ≡ 0 ∷ 1 ∷ 2 ∷ []))
      (quantize naturals (quantizer CodeType.blocklut) weights (some (0 ∷ 1 ∷ 2 ∷ [])))
unfolding is_blockwise naturals
quantize-IsNearest_example =
    quantize-IsNearest naturals naturals-IsShaped naturals-IsOrdered (quantizer CodeType.blocklut)
      weights (0 ∷ 1 ∷ 2 ∷ []) refl (omega arith) (omega arith) (omega arith)

decompress-decompress_blocklut_example :
    decompress naturals (quantizer CodeType.blocklut) (1 ∷ 0 ∷ 1 ∷ []) (8 ∷ 10 ∷ []) (1 ∷ 2 ∷ [])
    ≡ decompress_blocklut naturals (1 ∷ 0 ∷ 1 ∷ []) (8 ∷ 10 ∷ []) (1 ∷ 2 ∷ []) 2
unfolding is_blockwise
decompress-decompress_blocklut_example =
    decompress-decompress_blocklut naturals (quantizer CodeType.blocklut) 1 (0 ∷ 1 ∷ [])
      (8 ∷ 10 ∷ []) (1 ∷ 2 ∷ []) refl (omega arith)

decompresses :
    decompress naturals (quantizer CodeType.blocklut) (1 ∷ 0 ∷ 1 ∷ []) (8 ∷ 10 ∷ []) (1 ∷ 2 ∷ [])
    ≡ ok (16 ∷ 8 ∷ 20 ∷ [])
unfolding decompress naturals
decompresses = refl

-- A number, infinity or NaN.
data Float : Type 0 where
  nan infinity : Float
  number : ℕ → Float

plus : Float → Float → Float
plus x nan = nan
plus nan infinity = nan
plus infinity infinity = infinity
plus (number x) infinity = infinity
plus nan (number y) = nan
plus infinity (number y) = infinity
plus (number x) (number y) = number (x + y)

product : Float → Float → Float
product (number zero) infinity = nan
product (number (suc x)) infinity = infinity
product (number x) (number y) = number (x * y)
product x y = nan

halved : Float → Float
halved (number x) = number (x / 2)
halved x = x

-- Where NaN is first.
first_nan : List Float → ℕ
first_nan [] = 0
first_nan (nan ∷ xs) = 0
first_nan (infinity ∷ xs) = suc (first_nan xs)
first_nan (number x ∷ xs) = suc (first_nan xs)

distance : Float → Float → Float
distance (number x) (number y) = number (x - y + (y - x))
distance x y = nan

abbrev IsNumber : Float → Type 0
IsNumber (number x) = Unit {0}
IsNumber x = ⊥

abbrev floats : Numbers Float
unfolding plus product halved first_nan distance
floats = record {
  zero = number 0;
  one = number 1;
  two = number 2;
  tiny = number 1;
  infinity = infinity;
  abs = λ x. x;
  add = plus;
  sub = distance;
  mul = product;
  div = λ x y. halved x;
  clamp_min = λ x y. y;
  float = λ x. x;
  bfloat16 = λ x. x;
  amax = λ xs. number 1;
  mean = λ xs. number 1;
  argmin = first_nan;
  sort = λ xs. xs;
  randperm = λ draw k. range' 0 k;
}

halved-IsNumber : (x y : Float) → IsNumber x → IsNumber y → IsNumber (halved (plus x y))
unfolding halved plus
halved-IsNumber (number x) (number y) hx hy = tt
halved-IsNumber (number x) nan hx hy = elim hy [ ]
halved-IsNumber (number x) infinity hx hy = elim hy [ ]
halved-IsNumber nan y hx hy = elim hx [ ]
halved-IsNumber infinity y hx hy = elim hx [ ]

diagonal_first :
    (x : Float) (zs : List Float)
    → IsNumber x
    → first_nan (plus (distance x x) (product (number 1) infinity) ∷ nan ∷ zs) ≡ 1
unfolding first_nan plus distance product
diagonal_first (number x) zs h = refl
diagonal_first nan zs h = elim h [ ]
diagonal_first infinity zs h = elim h [ ]

floats-HasNan : HasNan floats nan IsNumber
unfolding plus product halved first_nan distance
floats-HasNan = record {
  zero_infinity = refl;
  add_nan = λ x. refl;
  mean-Finite = halved-IsNumber;
  first_nan = diagonal_first;
}

abbrev far_first : List Float
far_first = number 0 ∷ number 50 ∷ number 90 ∷ number 91 ∷ []

-- 0 and 50 are merged, and 90 and 91 are left.
greedy_merge-merge_front_example :
    greedy_merge floats far_first 3
    ≡ merge_front (λ x y. halved (plus x y)) (length far_first - 3) far_first
unfolding floats
greedy_merge-merge_front_example =
    greedy_merge-merge_front floats nan IsNumber floats-HasNan far_first 3 (omega arith)
      (tt, (tt, (tt, (tt, tt))))

merges_far_first : greedy_merge floats far_first 3 ≡ number 25 ∷ number 90 ∷ number 91 ∷ []
unfolding greedy_merge plus product halved first_nan distance
merges_far_first = refl
