-- ===== src/HashDict.antt =====
-- Go's map[uint64]V as an association list. `for k := range m` visits the entries in some order, here
-- that of the list.
use webircgateway.Base.{ℕ, ◌≡◌, refl, Option, none, some, List, [], ◌∷◌, arith, ◌==◌, if◌then◌else◌}

abbrev pub HashDict {ℓ} : Type ℓ → Type ℓ
HashDict V = List (ℕ × V)

module _ {ℓ} {V : Type ℓ} where
  unfoldable pub lookup : HashDict V → ℕ → Option V
  lookup [] k = none
  lookup ((j, v) ∷ m) k = if j == k then some v else lookup m k

  unfoldable pub insert : HashDict V → ℕ → V → HashDict V
  insert [] k v = (k, v) ∷ []
  insert ((j, w) ∷ m) k v = if j == k then (k, v) ∷ m else (j, w) ∷ insert m k v

  unfoldable pub erase : HashDict V → ℕ → HashDict V
  erase [] k = []
  erase ((j, w) ∷ m) k = let rest = erase m k in if j == k then rest else (j, w) ∷ rest

  pub lookup-insert :
      (m : HashDict V) (k j : ℕ) (v : V)
      → lookup (insert m k v) j ≡ (if k == j then some v else lookup m j)
  unfolding lookup insert
  lookup-insert [] k j v = refl
  lookup-insert ((i, w) ∷ m) k j v = ground (arith, lookup-insert m k j v)

  pub lookup-erase :
      (m : HashDict V) (k j : ℕ) → lookup (erase m k) j ≡ (if k == j then none else lookup m j)
  unfolding lookup erase
  lookup-erase [] k j = ground arith
  lookup-erase ((i, w) ∷ m) k j = ground (arith, lookup-erase m k j)
