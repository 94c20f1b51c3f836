-- ===== src/Planning/Scaling/Ends.antt =====
-- The loop of `scale_to_k` ends, and leaves no probability above `1 - tol`.
use block_lut.Outcome.{Result, ok, raise, index_error}
use block_lut.Prelude.{
  same_or_other, ℕ, zero, suc, ◌≤◌, ◌<◌, ◌≡◌, ◌⊎◌, inl, inr, refl, sym, subst, ap, ◌∙◌, Bool, true,
  false, not, Bool-cases, List, [], ◌∷◌, map, length, get_or, range', All, arith, length-map,
}
use block_lut.Planning.Scaling.{
  Reals, member, write, new_value, over_ones, not_in, write_zero, scale_loop, scale_to_k,
}
use block_lut.Planning.Scaling.Members.{
  member_head, member_tail, none_is_member, false_or_true, member-choose, chosen, shorter,
  length-write, write_other, write_inside, member-range', range'-lt, length-range', All-get_or,
}

-- What the loop relies on: 0 is below the cap, and so is each of the values with the property, if
-- their sum is below the tolerance.
pub record IsScale {A : Type 0} (r : Reals A) (P : A → Type 0) : Type 0 where
  pub zero_below : r.at_least r.zero r.cap ≡ false
  pub sum_below :
      (xs : List A)
      → All P xs
      → r.less (r.sum xs) r.tol ≡ true
      → All (λ x. r.at_least x r.cap ≡ false) xs

module _ {A : Type 0} (f : ℕ → A) (Q : A → Type 0) where
  All-members : (js : List ℕ) → ((i : ℕ) → member i js ≡ true → Q (f i)) → All Q (map f js)
  All-members [] h = tt
  All-members (j ∷ js) h = (
    h j (member_head j js),
    All-members js (λ i m. elim (same_or_other i j) [
      | inl e ↦ subst (λ k. Q (f k)) (sym e) (h j (member_head j js))
      | inr d ↦ h i (member_tail i j js d ∙ m)
    ]),
  )

  at_member : (js : List ℕ) → All Q (map f js) → (i : ℕ) → member i js ≡ true → Q (f i)
  at_member [] a i m = false_or_true m (none_is_member i)
  at_member (j ∷ js) (q, a) i m = elim (same_or_other i j) [
    | inl e ↦ subst (λ k. Q (f k)) (sym e) q
    | inr d ↦ at_member js a i (sym (member_tail i j js d) ∙ m)
  ]

List-cases : {A : Type 0} (xs : List A) → (xs ≡ []) ⊎ ((x : A) × (rest : List A) × (xs ≡ x ∷ rest))
List-cases [] = inl refl
List-cases (x ∷ xs) = inr (x, xs, refl)

negated : (b : Bool) → not b ≡ true → b ≡ false
negated true h = sym h
negated false h = refl

module _ {A : Type 0} (r : Reals A) where
  -- At the cap or below it.
  abbrev pub Capped : A → Type 0
  Capped v = (v ≡ r.cap) ⊎ (r.at_least v r.cap ≡ false)

  -- The loop has returned, with as many values, all of them capped, or raised an IndexError.
  abbrev pub AllCapped : ℕ → Result (List A) → Type 0
  AllCapped n (ok ys) = (length ys ≡ n) × ((i : ℕ) → i < n → Capped (get_or ys i r.zero))
  AllCapped n (raise e) = e ≡ index_error

  module _ (P : A → Type 0) (s : IsScale r P) where
    record IsOpen (pi : List A) (remaining : List ℕ) : Type 0 where
      inside : (i : ℕ) → member i remaining ≡ true → i < length pi
      plain : (i : ℕ) → member i remaining ≡ true → P (get_or pi i r.zero)
      done : (i : ℕ) → i < length pi → member i remaining ≡ false → Capped (get_or pi i r.zero)

    -- The sum of what remains is below the tolerance.
    sum_small :
        (pi : List A) (remaining : List ℕ)
        → IsOpen pi remaining
        → r.less (r.sum (map (λ j. get_or pi j r.zero) remaining)) r.tol ≡ true
        → AllCapped (length pi) (ok pi)
    sum_small pi remaining o t =
        let small =
          s.sum_below (map (λ j. get_or pi j r.zero) remaining)
            (All-members (λ j. get_or pi j r.zero) P remaining o.plain) t in
        (
          refl,
          λ i l. elim (Bool-cases (member i remaining)) [
            | inl m ↦ inr (
                at_member (λ j. get_or pi j r.zero) (λ x. r.at_least x r.cap ≡ false) remaining
                  small i m)
            | inr f ↦ o.done i l f
          ],
        )

    -- What is written to all remaining indices is below the cap.
    write_all :
        (value : ℕ → A) (pi : List A) (remaining : List ℕ)
        → IsOpen pi remaining
        → ((i : ℕ) → member i remaining ≡ true → r.at_least (value i) r.cap ≡ false)
        → AllCapped (length pi) (ok (write remaining value pi))
    write_all value pi remaining o below = (
      length-write value remaining pi,
      λ i l. elim (Bool-cases (member i remaining)) [
        | inl m ↦
            subst Capped (sym (write_inside value remaining pi i r.zero l m)) (inr (below i m))
        | inr f ↦ subst Capped (sym (write_other value remaining pi i r.zero f)) (o.done i l f)
      ],
    )

    -- The indices in `over` are cut off.
    cut_off :
        (pi : List A) (remaining over : List ℕ)
        → IsOpen pi remaining
        → IsOpen (write over (λ m. r.cap) pi) (not_in r over remaining)
    unfolding not_in
    cut_off pi remaining over o =
        let outside : ℕ → Bool = λ i. not (member i over) in
        record {
          inside = λ i m.
              subst (λ n. i < n) (sym (length-write (λ m. r.cap) over pi))
                (o.inside i ((chosen outside i remaining m).1));
          plain = λ i m.
              let (out, there) = chosen outside i remaining m in
              subst P
                (sym (write_other (λ m. r.cap) over pi i r.zero (negated (member i over) out)))
                (o.plain i there);
          done = λ i l m.
              let inside = subst (λ n. i < n) (length-write (λ m. r.cap) over pi) l in
              elim (Bool-cases (member i over)) [
                | inl t ↦ inl (write_inside (λ m. r.cap) over pi i r.zero inside t)
                | inr f ↦
                    subst Capped (sym (write_other (λ m. r.cap) over pi i r.zero f))
                      (o.done i inside (sym (member-choose outside i remaining (ap not f)) ∙ m))
              ];
        }

    -- Where nothing is over, every new value is below the cap.
    below :
        (pi : List A) (factor : A) (remaining : List ℕ)
        → over_ones r pi factor remaining ≡ []
        → (i : ℕ) → member i remaining ≡ true
        → r.at_least (new_value r pi factor i) r.cap ≡ false
    unfolding over_ones
    below pi factor remaining nothing i m =
        let over : ℕ → Bool = λ j. r.at_least (new_value r pi factor j) r.cap in
        elim (Bool-cases (over i)) [
          | inl t ↦
              false_or_true (member-choose over i remaining t ∙ m)
                (ap (member i) nothing ∙ none_is_member i)
          | inr f ↦ f
        ]

    -- Where something is over, fewer indices are left.
    fewer :
        (pi : List A) (factor : A) (remaining : List ℕ) (x : ℕ) (rest : List ℕ)
        → over_ones r pi factor remaining ≡ x ∷ rest
        → {fuel : ℕ} → length remaining ≤ suc fuel
        → length (not_in r (x ∷ rest) remaining) ≤ fuel
    unfolding over_ones not_in
    fewer pi factor remaining x rest some_over h =
        let over : ℕ → Bool = λ j. r.at_least (new_value r pi factor j) r.cap in
        let there = chosen over x remaining (ap (member x) some_over ∙ member_head x rest) in
        let less =
          shorter (λ i. not (member i (x ∷ rest))) x remaining (there.1)
            (ap not (member_head x rest)) in
        omega (arith, less)

    as_long : {m n : ℕ} (o : Result (List A)) → m ≡ n → AllCapped m o → AllCapped n o
    as_long (ok ys) e (long, caps) = (long ∙ e, λ i l. caps i (omega (arith, e)))
    as_long (raise x) e raised = raised

    write_zero-AllCapped :
        (pi : List A) (left : List ℕ)
        → IsOpen pi left
        → AllCapped (length pi) (write_zero r left pi)
    unfolding write_zero
    write_zero-AllCapped pi [] o = refl
    write_zero-AllCapped pi (i ∷ left) o =
        write_all (λ m. r.zero) pi (i ∷ left) o (λ j m. s.zero_below)

    scale_loop-AllCapped :
        (fuel : ℕ) (pi : List A) (remaining : List ℕ) (k : A)
        → length remaining ≤ fuel
        → IsOpen pi remaining
        → AllCapped (length pi) (scale_loop r fuel pi remaining k)
    unfolding scale_loop
    scale_loop-AllCapped fuel pi [] k h o = (refl, λ i l. o.done i l (none_is_member i))
    scale_loop-AllCapped zero pi (j ∷ js) k h o = absurd (omega arith)
    scale_loop-AllCapped (suc fuel) pi (j ∷ js) k h o =
        let all = j ∷ js in
        let total = r.sum (map (λ i. get_or pi i r.zero) all) in
        let factor = r.div k total in
        elim (Bool-cases (r.less total r.tol)) [
          | inl t ↦ rw (scale_loop, t) (sum_small pi all o t)
          | inr f ↦ elim (List-cases (over_ones r pi factor all)) [
            | inl nothing ↦
                rw (scale_loop, f, nothing)
                  (write_all (new_value r pi factor) pi all o (below pi factor all nothing))
            | inr (x, rest, some_over) ↦
                let capped = write (x ∷ rest) (λ m. r.cap) pi in
                let left = not_in r (x ∷ rest) all in
                let open_left = cut_off pi all (x ∷ rest) o in
                let same = length-write (λ m. r.cap) (x ∷ rest) pi in
                elim (Bool-cases (r.at_least r.zero (r.minus_count k (length (x ∷ rest))))) [
                  | inl none_left ↦
                      rw (scale_loop, f, some_over, none_left)
                        (as_long (write_zero r left capped) same
                          (write_zero-AllCapped capped left open_left))
                  | inr more_left ↦
                      rw (scale_loop, f, some_over, more_left)
                        (as_long _ same (
                          scale_loop-AllCapped fuel capped left _
                            (fewer pi factor all x rest some_over h) open_left))
                ]
          ]
        ]

    -- Where the sum of the probabilities is not 0, and their multiples by `k` over that sum have
    -- the property, say are not negative: the loop of `scale_to_k` ends within as many rounds as
    -- there are probabilities. It returns as many values as were given, each of them `1 - tol` or below
    -- it, or raises an IndexError, which is for an array of no indices.
    pub scale_to_k-AllCapped :
        (probs : List A) (k : A)
        → r.is_zero (r.sum probs) ≡ false
        → All P (map (λ p. r.mul p (r.div k (r.sum probs))) probs)
        → AllCapped (length probs) (scale_to_k r probs k)
    unfolding scale_to_k
    scale_to_k-AllCapped probs k z plain =
        let scale : A → A = λ p. r.mul p (r.div k (r.sum probs)) in
        let pi = map scale probs in
        let bound : (i : ℕ) → member i (range' 0 (length pi)) ≡ true → i < length pi =
          λ i m. omega (arith, range'-lt 0 (length pi) i m) in
        rw (scale_to_k, z)
          (as_long _ (length-map scale probs) (
            scale_loop-AllCapped (length pi) pi (range' 0 (length pi)) k
              (omega (arith, length-range' 0 (length pi)))
              (record {
                inside = bound;
                plain = λ i m. All-get_or P pi i r.zero plain (bound i m);
                done = λ i l m.
                    false_or_true (member-range' 0 (length pi) i (omega arith) (omega arith)) m;
              })))
