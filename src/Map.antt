-- ===== src/Map.antt =====
-- JavaScript's `Map`: entries in the order in which their keys were first set.
use node_red_contrib_pod_gat.Prelude.{
  ◌≡◌, refl, Option, none, some, List, [], ◌∷◌, Eq, ◌==◌, if◌then◌else◌, arith,
}

abbrev pub Map {ℓ κ} : Type ℓ → Type κ → Type (ℓ ⊔ κ)
Map K V = List (K × V)

module _ {ℓ κ} {K : Type ℓ} {V : Type κ} ⦃e : Eq K⦄ where
  unfoldable pub get : Map K V → K → Option V
  get [] k = none
  get ((j, v) ∷ m) k = if j == k then some v else get m k

  -- A key that is there keeps its place.
  unfoldable pub set : Map K V → K → V → Map K V
  set [] k v = (k, v) ∷ []
  set ((j, w) ∷ m) k v = if j == k then (k, v) ∷ m else (j, w) ∷ set m k v

  unfoldable pub delete : Map K V → K → Map K V
  delete [] k = []
  delete ((j, w) ∷ m) k = let rest = delete m k in if j == k then rest else (j, w) ∷ rest

  pub get-set :
      (m : Map K V) (k j : K) (v : V) → get (set m k v) j ≡ (if k == j then some v else get m j)
  unfolding get set
  get-set [] k j v = refl
  get-set ((i, w) ∷ m) k j v =
      ground (arith, e.beq_iff k j, e.beq_iff i k, e.beq_iff i j, get-set m k j v)

  pub get-delete : (m : Map K V) (k j : K) → get (delete m k) j ≡ (if k == j then none else get m j)
  unfolding get delete
  get-delete [] k j = ground arith
  get-delete ((i, w) ∷ m) k j =
      ground (arith, e.beq_iff k j, e.beq_iff i k, e.beq_iff i j, get-delete m k j)

pub ruleset map_laws = (get-set, get-delete)

module _ {ℓ κ} {K : Type ℓ} {V : Type κ} where
  -- `[...m.values()]`
  abbrev pub values : Map K V → List V
  values [] = []
  values ((k, v) ∷ m) = v ∷ values m
