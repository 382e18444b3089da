-- ===== src/GoMap/Laws.antt =====
-- What a client may use of a map.
use mathlib.Core.List.{Memᴰ}
use mathlib.Core.List.Memᴰ
use dss.Prelude.{
  String, ◌≡◌, refl, ap, sym, ◌∙◌, Bool, Option, none, some, inl, inr, [], ◌∷◌, arith, ◌==◌, eq_iff,
  str_eq_refl, if◌then◌else◌, Bool-cases,
}
use dss.GoMap.Defs.{GoMap, get, set, delete, values, modify_where, HasDistinctKeys}

module _ {ℓ} {V : Type ℓ} where
  pub get-set :
      (m : GoMap V) (k j : String) (v : V)
      → get (set m k v) j ≡ (if k == j then some v else get m j)
  unfolding get set
  get-set [] k j v = refl
  get-set ((i, w) ∷ m) k j v = ground (arith, get-set m k j v, eq_iff i k, eq_iff i j, eq_iff k j)

  pub get-delete :
      (m : GoMap V) (k j : String) → get (delete m k) j ≡ (if k == j then none else get m j)
  unfolding get delete
  get-delete [] k j = ground arith
  get-delete ((i, w) ∷ m) k j = ground (arith, get-delete m k j, eq_iff i k, eq_iff i j, eq_iff k j)

  abbrev pub modified : (V → Bool) → (V → V) → Option V → Option V
  modified p f none = none
  modified p f (some v) = some (if p v then f v else v)

  pub get-modify_where :
      (p : V → Bool) (f : V → V) (m : GoMap V) (k : String)
      → get (modify_where p f m) k ≡ modified p f (get m k)
  unfolding get modify_where
  get-modify_where p f [] k = refl
  get-modify_where p f ((j, v) ∷ m) k = ground (arith, get-modify_where p f m k)

  pub set-HasDistinctKeys :
      (m : GoMap V) (k : String) (v : V) → HasDistinctKeys m → HasDistinctKeys (set m k v)
  unfolding set get
  set-HasDistinctKeys [] k v h = (refl, tt)
  set-HasDistinctKeys ((j, w) ∷ m) k v h =
      ground (arith, eq_iff j k, eq_iff k j, get-set m k j v, set-HasDistinctKeys m k v h.1)

  pub delete-HasDistinctKeys :
      (m : GoMap V) (k : String) → HasDistinctKeys m → HasDistinctKeys (delete m k)
  unfolding delete get
  delete-HasDistinctKeys [] k h = tt
  delete-HasDistinctKeys ((j, w) ∷ m) k h =
      ground (arith, get-delete m k j, delete-HasDistinctKeys m k h.1)

  pub modify_where-HasDistinctKeys :
      (p : V → Bool) (f : V → V) (m : GoMap V)
      → HasDistinctKeys m
      → HasDistinctKeys (modify_where p f m)
  unfolding modify_where
  modify_where-HasDistinctKeys p f [] h = tt
  modify_where-HasDistinctKeys p f ((j, v) ∷ m) h =
      (get-modify_where p f m j ∙ ap (modified p f) h.0, modify_where-HasDistinctKeys p f m h.1)

  -- A stored value is visited by a `range`.
  pub mem-values_of_get : (m : GoMap V) (k : String) {v : V} → get m k ≡ some v → Memᴰ v (values m)
  unfolding get
  mem-values_of_get [] k e = cc
  mem-values_of_get ((j, w) ∷ m) k e = elim (Bool-cases (j == k)) [
    | inl q ↦ Memᴰ.head (ground arith)
    | inr q ↦ Memᴰ.tail (mem-values_of_get m k (rw q at e))
  ]

  -- What a `range` visits is stored under some key, if the keys are distinct.
  pub get_of_mem-values :
      (m : GoMap V) {v : V}
      → HasDistinctKeys m
      → Memᴰ v (values m)
      → (k : String) × (get m k ≡ some v)
  unfolding get
  get_of_mem-values [] d e = absurd (Memᴰ.not-nil e)
  get_of_mem-values ((j, w) ∷ m) d e = elim (Memᴰ.cases_cons e) [
    | inl q ↦ (j, rw (str_eq_refl j) (ap some (sym q)))
    | inr r ↦ let (k, found) = get_of_mem-values m d.1 r in (k, ground (arith, eq_iff j k))
  ]
