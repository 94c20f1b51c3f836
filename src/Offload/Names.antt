-- ===== src/Offload/Names.antt =====
-- The map from names to ids that numbering in order gives.
use block_lut.Prelude.{
  ℕ, suc, ◌+◌, ◌≡◌, refl, ap, ◌∙◌, String, none, [], ◌∷◌, ◌++◌, length, arith, string_discrete,
}
use block_lut.Dict
use block_lut.Dict.{Dict}
use block_lut.Offload.{NameIdMap}

-- A put of a new key comes last.
pub put_new :
    {K V : Type 0} (dec : Discrete K) (k : K) (v : V) (d : Dict K V)
    → Dict.get dec k d ≡ none
    → Dict.put dec k v d ≡ d ++ ((k, v) ∷ [])
unfolding Dict.get Dict.put
put_new dec k v [] h = refl
put_new dec k v ((j, w) ∷ d) h = ground (arith, put_new dec k v d)

module _ {T : Type 0} where
  abbrev pub numbered_names : ℕ → Dict String T → NameIdMap
  numbered_names first [] = []
  numbered_names first ((k, v) ∷ rest) = (k, first) ∷ numbered_names (suc first) rest

  -- No name stands twice, in what was loaded and what comes.
  abbrev pub AreNew : Dict String T → Dict String T → Type 0
  AreNew done [] = Unit
  AreNew done ((k, v) ∷ rest) =
      (Dict.get string_discrete k done ≡ none) × AreNew (done ++ ((k, v) ∷ [])) rest

  pub numbered_names-append :
      (first : ℕ) (us vs : Dict String T)
      → numbered_names first (us ++ vs)
        ≡ numbered_names first us ++ numbered_names (length us + first) vs
  numbered_names-append first [] vs = ap (λ n. numbered_names n vs) (omega arith)
  numbered_names-append first ((k, v) ∷ us) vs = ap (◌∷◌ (k, first)) (
      numbered_names-append (suc first) us vs
      ∙ ap (λ n. numbered_names (suc first) us ++ numbered_names n vs) (omega arith))

  pub get-numbered_names :
      (k : String) (first : ℕ) (done : Dict String T)
      → Dict.get string_discrete k done ≡ none
      → Dict.get string_discrete k (numbered_names first done) ≡ none
  unfolding Dict.get
  get-numbered_names k first [] h = refl
  get-numbered_names k first ((j, v) ∷ done) h =
      ground (arith, get-numbered_names k (suc first) done)
