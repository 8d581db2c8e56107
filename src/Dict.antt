-- ===== src/Dict.antt =====
-- Maps with text keys, as JavaScript's `Map` and plain objects keep them: entries in order of
-- insertion, a write to a present key in place. At most one entry has a key (`IsUnique`).
use hellgraph.Base.{
  String, ◌≡◌, refl, Bool, true, false, Option, none, some, List, [], ◌∷◌, arith, ◌==◌, ==_iff,
  if◌then◌else◌,
}

abbrev pub Dict {ℓ} : Type ℓ → Type ℓ
Dict V = List (String × V)

module _ {ℓ} {V : Type ℓ} where
  unfoldable pub get : Dict V → String → Option V
  get [] k = none
  get ((j, v) ∷ m) k = if j == k then some v else get m k

  abbrev pub has : Dict V → String → Bool
  has m k = elim (get m k) [ none ↦ false | some _ ↦ true ]

  unfoldable pub put : Dict V → String → V → Dict V
  put [] k v = (k, v) ∷ []
  put ((j, w) ∷ m) k v = if j == k then (j, v) ∷ m else (j, w) ∷ put m k v

  unfoldable pub delete : Dict V → String → Dict V
  delete [] k = []
  delete ((j, w) ∷ m) k = if j == k then m else (j, w) ∷ delete m k

  abbrev pub IsUnique : Dict V → Type ℓ
  IsUnique [] = Unit
  IsUnique ((k, v) ∷ m) = (get m k ≡ none) × IsUnique m

  pub get-nil : (k : String) → get [] k ≡ none
  unfolding get
  get-nil k = refl

  pub get-put :
      (m : Dict V) (k : String) (v : V) (j : String)
      → get (put m k v) j ≡ (if k == j then some v else get m j)
  unfolding get put
  get-put [] k v j = refl
  get-put ((i, w) ∷ m) k v j = ground (arith, ==_iff i k, ==_iff i j, ==_iff k j, get-put m k v j)

  pub get-delete :
      (m : Dict V) (k j : String)
      → IsUnique m
      → get (delete m k) j ≡ (if k == j then none else get m j)
  unfolding get delete
  get-delete [] k j u = ground arith
  get-delete ((i, w) ∷ m) k j u =
      ground (arith, ==_iff i k, ==_iff i j, ==_iff k j, get-delete m k j)

  pub put-IsUnique : (m : Dict V) (k : String) (v : V) → IsUnique m → IsUnique (put m k v)
  unfolding get put
  put-IsUnique [] k v u = (refl, tt)
  put-IsUnique ((i, w) ∷ m) k v u =
      ground (arith, ==_iff i k, ==_iff k i, put-IsUnique m k v, get-put m k v i)

  pub delete-IsUnique : (m : Dict V) (k : String) → IsUnique m → IsUnique (delete m k)
  unfolding get delete
  delete-IsUnique [] k u = tt
  delete-IsUnique ((i, w) ∷ m) k u =
      ground (arith, ==_iff i k, ==_iff k i, delete-IsUnique m k, get-delete m k i)
