-- ===== src/Dict/Laws.antt =====
-- What is read from a dictionary after a write, and how its size changes.
use mathlib.Core.Logic.{ite, if_pos, if_neg}
use mathlib.Core.Option
use block_lut.Prelude.{
  suc, ◌≤◌, ◌≡◌, ◌≢◌, refl, none, some, [], ◌∷◌, length, arith, Option-cases, inl, inr,
}
use mathlib.Core.Path.{subst₂}
use block_lut.Dict.{Dict, get, put, remove, modify, IsDistinct, map_values}

module _ {ℓ} {K V : Type ℓ} (dec : Discrete K) where
  pub get-put :
      (j k : K) (v : V) (d : Dict K V)
      → get dec j (put dec k v d) ≡ ite (dec k j) (some v) (get dec j d)
  unfolding get put
  get-put j k v [] = refl
  get-put j k v ((i, w) ∷ d) = ground (arith, get-put j k v d)

  pub get-modify :
      (j k : K) (f : V → V) (d : Dict K V)
      → get dec j (modify dec k f d) ≡ ite (dec k j) (Option.map f (get dec j d)) (get dec j d)
  unfolding get modify
  get-modify j k f [] = ground arith
  get-modify j k f ((i, w) ∷ d) = ground (arith, get-modify j k f d)

  pub get-remove :
      (j k : K) (d : Dict K V)
      → IsDistinct dec d
      → get dec j (remove dec k d) ≡ ite (dec k j) none (get dec j d)
  unfolding get remove
  get-remove j k [] h = ground arith
  get-remove j k ((i, w) ∷ d) h = ground (arith, get-remove j k d h.1)

  pub put-IsDistinct :
      (k : K) (v : V) (d : Dict K V) → IsDistinct dec d → IsDistinct dec (put dec k v d)
  unfolding put get
  put-IsDistinct k v [] h = (refl, tt)
  put-IsDistinct k v ((i, w) ∷ d) h = elim (dec i k) [
    | yes p ↦ rw (if_pos _ p) h
    | no p ↦ rw (if_neg _ p) (ground (arith, get-put i k v d), put-IsDistinct k v d h.1)
  ]

  pub modify-IsDistinct :
      (k : K) (f : V → V) (d : Dict K V) → IsDistinct dec d → IsDistinct dec (modify dec k f d)
  unfolding modify get
  modify-IsDistinct k f [] h = tt
  modify-IsDistinct k f ((i, w) ∷ d) h = elim (dec i k) [
    | yes p ↦ rw (if_pos _ p) h
    | no p ↦ rw (if_neg _ p) (ground (arith, get-modify i k f d), modify-IsDistinct k f d h.1)
  ]

  pub remove-IsDistinct :
      (k : K) (d : Dict K V) → IsDistinct dec d → IsDistinct dec (remove dec k d)
  unfolding remove get
  remove-IsDistinct k [] h = tt
  remove-IsDistinct k ((i, w) ∷ d) h = elim (dec i k) [
    | yes p ↦ rw (if_pos _ p) h.1
    | no p ↦ rw (if_neg _ p) (ground (arith, get-remove i k d h.1), remove-IsDistinct k d h.1)
  ]

  pub length-put_new :
      (k : K) (v : V) (d : Dict K V) → get dec k d ≡ none → length (put dec k v d) ≡ suc (length d)
  unfolding put get
  length-put_new k v [] h = refl
  length-put_new k v ((i, w) ∷ d) h = ground (arith, length-put_new k v d)

  pub length-put_old :
      (k : K) (v w : V) (d : Dict K V) → get dec k d ≡ some w → length (put dec k v d) ≡ length d
  unfolding put get
  length-put_old k v w [] h = ground arith
  length-put_old k v w ((i, u) ∷ d) h = ground (arith, length-put_old k v w d)

  pub length-remove :
      (k : K) (w : V) (d : Dict K V)
      → get dec k d ≡ some w
      → suc (length (remove dec k d)) ≡ length d
  unfolding remove get
  length-remove k w [] h = ground arith
  length-remove k w ((i, u) ∷ d) h = ground (arith, length-remove k w d)

-- A property of every entry.
abbrev pub Each {ℓ} : {K V : Type ℓ} → Discrete K → (K → V → Type ℓ) → Dict K V → Type ℓ
Each {K = K} {V = V} dec P d = (k : K) (v : V) → get dec k d ≡ some v → P k v

module _ {ℓ} {K V : Type ℓ} (dec : Discrete K) (Q : K → V → Type ℓ) where
  pub Each-put :
      (k : K) (v : V) (d : Dict K V)
      → Q k v
      → ((j : K) (w : V) → k ≢ j → get dec j d ≡ some w → Q j w)
      → Each dec Q (put dec k v d)
  Each-put k v d new old = λ j w h. elim (dec k j) [
    | yes p ↦ subst₂ Q p (ground (arith, get-put dec j k v d)) new
    | no p ↦ old j w p (rw (get-put, if_neg _ p) at h)
  ]

  pub Each-modify :
      (k : K) (f : V → V) (d : Dict K V)
      → ((v : V) → get dec k d ≡ some v → Q k (f v))
      → ((j : K) (w : V) → k ≢ j → get dec j d ≡ some w → Q j w)
      → Each dec Q (modify dec k f d)
  Each-modify k f d changed old = λ j w h. elim (dec k j) [
    | yes p ↦ elim (Option-cases (get dec k d)) [
      | inl missing ↦ absurd (ground (arith, get-modify dec j k f d))
      | inr (v, found) ↦ subst₂ Q p (ground (arith, get-modify dec j k f d)) (changed v found)
    ]
    | no p ↦ old j w p (rw (get-modify, if_neg _ p) at h)
  ]

module _ {ℓ} {K V : Type ℓ} (dec : Discrete K) where
  pub length-remove-le : (k : K) (d : Dict K V) → length (remove dec k d) ≤ length d
  unfolding remove
  length-remove-le k [] = omega arith
  length-remove-le k ((i, u) ∷ d) = ground (arith, length-remove-le k d)

  pub length-modify : (k : K) (f : V → V) (d : Dict K V) → length (modify dec k f d) ≡ length d
  unfolding modify
  length-modify k f [] = refl
  length-modify k f ((i, u) ∷ d) = ground (arith, length-modify k f d)

  pub get-map_values :
      (j : K) (f : V → V) (d : Dict K V) → get dec j (map_values f d) ≡ Option.map f (get dec j d)
  unfolding get map_values
  get-map_values j f [] = refl
  get-map_values j f ((i, u) ∷ d) = ground (arith, get-map_values j f d)

  pub map_values-IsDistinct :
      (f : V → V) (d : Dict K V) → IsDistinct dec d → IsDistinct dec (map_values f d)
  unfolding map_values
  map_values-IsDistinct f [] h = tt
  map_values-IsDistinct f ((i, u) ∷ d) h =
      (rw (get-map_values i f d, h.0), map_values-IsDistinct f d h.1)
