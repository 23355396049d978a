-- ===== src/Dict.antt =====
-- Go's map[string]V as an association list: at most one entry is ever written for a key.
-- The order of the entries stands for the order in which `range` visits them, which Go leaves open.
use webircgateway.Base.{
  ◌≡◌, ◌≢◌, inl, inr, refl, Bool, true, false, Option, none, some, List, [], ◌∷◌, ◌++◌, arith,
  if◌then◌else◌, Bool-cases, All, subst,
}
use webircgateway.Text.Bytes.{Bytes, equal, equal_iff}

abbrev pub Dict {ℓ} : Type ℓ → Type ℓ
Dict V = List (Bytes × V)

module _ {ℓ} {V : Type ℓ} where
  unfoldable pub lookup : Dict V → Bytes → Option V
  unfolding equal
  lookup [] k = none
  lookup ((j, v) ∷ m) k = if equal j k then some v else lookup m k

  -- m[k] = v
  unfoldable pub insert : Dict V → Bytes → V → Dict V
  unfolding equal
  insert [] k v = (k, v) ∷ []
  insert ((j, w) ∷ m) k v = if equal j k then (k, v) ∷ m else (j, w) ∷ insert m k v

  -- delete(m, k)
  unfoldable pub erase : Dict V → Bytes → Dict V
  unfolding equal
  erase [] k = []
  erase ((j, w) ∷ m) k = let rest = erase m k in if equal j k then rest else (j, w) ∷ rest

  pub lookup-insert :
      (m : Dict V) (k j : Bytes) (v : V)
      → lookup (insert m k v) j ≡ (if equal k j then some v else lookup m j)
  unfolding lookup insert
  lookup-insert [] k j v = refl
  lookup-insert ((i, w) ∷ m) k j v =
      ground (arith, equal_iff k j, equal_iff i k, equal_iff i j, lookup-insert m k j v)

  pub lookup-erase :
      (m : Dict V) (k j : Bytes) → lookup (erase m k) j ≡ (if equal k j then none else lookup m j)
  unfolding lookup erase
  lookup-erase [] k j = ground arith
  lookup-erase ((i, w) ∷ m) k j =
      ground (arith, equal_iff k j, equal_iff i k, equal_iff i j, lookup-erase m k j)

-- No key of m is k.
abbrev pub LacksKey {ℓ} : {V : Type ℓ} → Bytes → Dict V → Type 0
LacksKey k [] = Unit
LacksKey k ((j, v) ∷ m) = (j ≢ k) × LacksKey k m

abbrev pub Distinct {ℓ} : {V : Type ℓ} → Dict V → Type 0
Distinct [] = Unit
Distinct ((j, v) ∷ m) = LacksKey j m × Distinct m

-- A new key goes behind the others.
pub insert-LacksKey {ℓ} :
    {V : Type ℓ} (m : Dict V) (k : Bytes) (v : V) → LacksKey k m → insert m k v ≡ m ++ (k, v) ∷ []
unfolding insert
insert-LacksKey [] k v h = refl
insert-LacksKey ((j, w) ∷ m) k v (hj, hm) = ground (arith, equal_iff j k, insert-LacksKey m k v hm)

pub LacksKey-append {ℓ} :
    {V : Type ℓ} (m : Dict V) (k n : Bytes) (v : V)
    → LacksKey k m
    → n ≢ k
    → LacksKey k (m ++ (n, v) ∷ [])
LacksKey-append [] k n v h d = (d, tt)
LacksKey-append ((j, u) ∷ m) k n v (hj, h) d = (hj, LacksKey-append m k n v h d)

-- A property of every value of a map.
module _ {ℓ κ} {V : Type ℓ} (P : V → Type κ) where
  abbrev pub EachValue : Dict V → Type κ
  EachValue = All (λ entry. P (entry.1))

  found :
      (b : Bool) (v w : V) (rest : Option V)
      → P v
      → (rest ≡ some w → P w)
      → (if b then some v else rest) ≡ some w
      → P w
  found true v w rest h next e = let same : v ≡ w = cc in subst P same h
  found false v w rest h next e = next e

  pub lookup-EachValue : (m : Dict V) (k : Bytes) (v : V) → EachValue m → lookup m k ≡ some v → P v
  unfolding lookup
  lookup-EachValue [] k v h e = absurd (ground arith)
  lookup-EachValue ((j, w) ∷ m) k v (hw, h) e =
      found (equal j k) w v (lookup m k) hw (lookup-EachValue m k v h) e

  pub insert-EachValue :
      (m : Dict V) (k : Bytes) (v : V) → EachValue m → P v → EachValue (insert m k v)
  unfolding insert
  insert-EachValue [] k v h hv = (hv, tt)
  insert-EachValue ((j, w) ∷ m) k v (hw, h) hv = elim (Bool-cases (equal j k)) [
    | inl e ↦ rw e (hv, h)
    | inr e ↦ rw e (hw, insert-EachValue m k v h hv)
  ]

  pub erase-EachValue : (m : Dict V) (k : Bytes) → EachValue m → EachValue (erase m k)
  unfolding erase
  erase-EachValue [] k h = tt
  erase-EachValue ((j, w) ∷ m) k (hw, h) = elim (Bool-cases (equal j k)) [
    | inl e ↦ rw e (erase-EachValue m k h)
    | inr e ↦ rw e (hw, erase-EachValue m k h)
  ]
