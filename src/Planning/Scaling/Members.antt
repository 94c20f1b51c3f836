-- ===== src/Planning/Scaling/Members.antt =====
-- Index arrays: membership, choice by a test, and writes at chosen indices.
use block_lut.Prelude.{
  same_or_other, ℕ, zero, suc, ◌+◌, ◌≤◌, ◌<◌, ◌≡◌, ◌≢◌, inl, inr, refl, sym, subst, ap, ◌∙◌, Bool,
  true, false, Bool-cases, List, [], ◌∷◌, length, get_or, set_at, range', if◌then◌else◌, All, arith,
  length-set_at, get_or-set_at_same, get_or-set_at_other,
}
use block_lut.Planning.Scaling.{member, choose, write}

length-choose : (test : ℕ → Bool) (js : List ℕ) → length (choose test js) ≤ length js
unfolding choose
length-choose test [] = omega arith
length-choose test (j ∷ js) = ground (arith, length-choose test js)

pub member_head : (i : ℕ) (js : List ℕ) → member i (i ∷ js) ≡ true
unfolding member
member_head i js = ground arith

pub member_tail : (i j : ℕ) (js : List ℕ) → i ≢ j → member i (j ∷ js) ≡ member i js
unfolding member
member_tail i j js d = ground arith

pub none_is_member : (i : ℕ) → member i [] ≡ false
unfolding member
none_is_member i = refl

pub false_or_true : {P : Type 0} {b : Bool} → b ≡ true → b ≡ false → P
false_or_true t f = absurd (cc (t, f))

-- What passes the test stays.
pub member-choose :
    (test : ℕ → Bool) (i : ℕ) (js : List ℕ)
    → test i ≡ true
    → member i (choose test js) ≡ member i js
unfolding choose
member-choose test i [] t = refl
member-choose test i (j ∷ js) t = elim (same_or_other i j) [
  | inl e ↦
      let passes : test j ≡ true = subst (λ k. test k ≡ true) e t in
      rw passes (
        subst (λ k. member k (j ∷ choose test js) ≡ member k (j ∷ js)) (sym e)
          (member_head j (choose test js) ∙ sym (member_head j js)))
  | inr d ↦ elim (Bool-cases (test j)) [
    | inl s ↦ rw s (
        member_tail i j (choose test js) d ∙ member-choose test i js t ∙ sym (member_tail i j js d))
    | inr f ↦ rw f (member-choose test i js t ∙ sym (member_tail i j js d))
  ]
]

-- What is chosen passes the test and was there.
pub chosen :
    (test : ℕ → Bool) (i : ℕ) (js : List ℕ)
    → member i (choose test js) ≡ true
    → (test i ≡ true) × (member i js ≡ true)
unfolding choose
chosen test i [] h = false_or_true h (none_is_member i)
chosen test i (j ∷ js) h = elim (same_or_other i j) [
  | inl e ↦
      subst (λ k. (test k ≡ true) × (member k (j ∷ js) ≡ true)) (sym e)
        (
          head_passes (test j) refl
              (subst (λ k. member k (if test j then j ∷ choose test js else choose test js) ≡ true)
                e h)
              (chosen test j js),
          member_head j js,
        )
  | inr d ↦
      let (passes, there) = chosen test i js (dropped (test j) d h) in
      (passes, member_tail i j js d ∙ there)
]
  where
    head_passes :
        (b : Bool)
        → test j ≡ b
        → member j (if b then j ∷ choose test js else choose test js) ≡ true
        → (member j (choose test js) ≡ true → (test j ≡ true) × (member j js ≡ true))
        → test j ≡ true
    head_passes true e m next = e
    head_passes false e m next = (next m).0

    dropped :
        (b : Bool)
        → i ≢ j
        → member i (if b then j ∷ choose test js else choose test js) ≡ true
        → member i (choose test js) ≡ true
    dropped true d m = sym (member_tail i j (choose test js) d) ∙ m
    dropped false d m = m

-- Where an element fails the test, less is chosen than there was.
pub shorter :
    (test : ℕ → Bool) (i : ℕ) (js : List ℕ)
    → member i js ≡ true
    → test i ≡ false
    → length (choose test js) < length js
unfolding choose
shorter test i [] h f = false_or_true h (none_is_member i)
shorter test i (j ∷ js) h f = elim (same_or_other i j) [
  | inl e ↦
      let fails : test j ≡ false = subst (λ k. test k ≡ false) e f in
      rw fails (omega (arith, length-choose test js))
  | inr d ↦
      let less = shorter test i js (sym (member_tail i j js d) ∙ h) f in
      elim (Bool-cases (test j)) [
        | inl s ↦ rw s (omega (arith, less))
        | inr n ↦ rw n (omega (arith, less))
      ]
]

module _ {A : Type 0} (value : ℕ → A) where
  pub length-write : (js : List ℕ) (pi : List A) → length (write js value pi) ≡ length pi
  unfolding write
  length-write [] pi = refl
  length-write (j ∷ js) pi =
      omega (arith, length-write js (set_at pi j (value j)), length-set_at pi j (value j))

  pub write_other :
      (js : List ℕ) (pi : List A) (i : ℕ) (d : A)
      → member i js ≡ false
      → get_or (write js value pi) i d ≡ get_or pi i d
  unfolding write
  write_other [] pi i d m = refl
  write_other (j ∷ js) pi i d m = elim (same_or_other i j) [
    | inl e ↦ false_or_true (subst (λ k. member k (j ∷ js) ≡ true) (sym e) (member_head j js)) m
    | inr n ↦
        write_other js (set_at pi j (value j)) i d (sym (member_tail i j js n) ∙ m)
        ∙ get_or-set_at_other pi j i (value j) d (λ e. n (sym e))
  ]

  pub write_inside :
      (js : List ℕ) (pi : List A) (i : ℕ) (d : A)
      → i < length pi
      → member i js ≡ true
      → get_or (write js value pi) i d ≡ value i
  unfolding write
  write_inside [] pi i d l m = false_or_true m (none_is_member i)
  write_inside (j ∷ js) pi i d l m = elim (Bool-cases (member i js)) [
    | inl t ↦
        write_inside js (set_at pi j (value j)) i d (omega (arith, length-set_at pi j (value j))) t
    | inr f ↦ elim (same_or_other i j) [
      | inl e ↦
          write_other js (set_at pi j (value j)) i d f
          ∙ subst (λ k. get_or (set_at pi k (value k)) i d ≡ value i) e
              (get_or-set_at_same pi i (value i) d l)
      | inr n ↦ false_or_true (sym (member_tail i j js n) ∙ m) f
    ]
  ]

pub length-range' : (first k : ℕ) → length (range' first k) ≡ k
length-range' first zero = refl
length-range' first (suc k) = ap suc (length-range' (suc first) k)

pub member-range' : (first k i : ℕ) → first ≤ i → i < first + k → member i (range' first k) ≡ true
member-range' first zero i h l = absurd (omega arith)
member-range' first (suc k) i h l = elim (same_or_other i first) [
  | inl e ↦
      subst (λ j. member j (range' first (suc k)) ≡ true) (sym e)
        (member_head first (range' (suc first) k))
  | inr d ↦
      member_tail i first (range' (suc first) k) d
      ∙ member-range' (suc first) k i (omega arith) (omega arith)
]

pub range'-lt : (first k i : ℕ) → member i (range' first k) ≡ true → i < first + k
range'-lt first zero i m = false_or_true m (none_is_member i)
range'-lt first (suc k) i m = elim (same_or_other i first) [
  | inl e ↦ omega arith
  | inr d ↦
      omega
        (arith, range'-lt (suc first) k i (sym (member_tail i first (range' (suc first) k) d) ∙ m))
]

pub All-get_or :
    {A : Type 0} (P : A → Type 0) (xs : List A) (i : ℕ) (d : A)
    → All P xs
    → i < length xs
    → P (get_or xs i d)
All-get_or P [] i d a l = absurd (omega arith)
All-get_or P (x ∷ xs) zero d (p, a) l = p
All-get_or P (x ∷ xs) (suc i) d (p, a) l = All-get_or P xs i d a (omega arith)
