-- ===== src/GoMap/Defs.antt =====
-- The operations on a map.
use dss.Prelude.{String, ◌≡◌, Bool, Option, none, some, List, [], ◌∷◌, map, ◌==◌, if◌then◌else◌}

abbrev pub GoMap {ℓ} : Type ℓ → Type ℓ
GoMap V = List (String × V)

module _ {ℓ} {V : Type ℓ} where
  -- `v, ok := m[k]`
  unfoldable pub get : GoMap V → String → Option V
  get [] k = none
  get ((j, v) ∷ m) k = if j == k then some v else get m k

  -- `m[k] = v`
  unfoldable pub set : GoMap V → String → V → GoMap V
  set [] k v = (k, v) ∷ []
  set ((j, w) ∷ m) k v = if j == k then (k, v) ∷ m else (j, w) ∷ set m k v

  -- `delete(m, k)`
  unfoldable pub delete : GoMap V → String → GoMap V
  delete [] k = []
  delete ((j, w) ∷ m) k = let rest = delete m k in if j == k then rest else (j, w) ∷ rest

  -- What `for _, v := range m` visits.
  abbrev pub values : GoMap V → List V
  values m = map (λ e. e.1) m

  -- `for _, v := range m { if p(v) { *v = f(*v) } }`, where the values are pointers.
  unfoldable pub modify_where : (V → Bool) → (V → V) → GoMap V → GoMap V
  modify_where p f [] = []
  modify_where p f ((j, v) ∷ m) = (j, if p v then f v else v) ∷ modify_where p f m

  abbrev pub HasDistinctKeys : GoMap V → Type ℓ
  HasDistinctKeys [] = Unit
  HasDistinctKeys ((j, v) ∷ m) = (get m j ≡ none) × HasDistinctKeys m
