-- ===== src/Raft/NodeMap.antt =====
-- A Go map from node IDs, as a list of entries in the order in which a range visits them.
use dss.Prelude.{
  ℕ, suc, ◌≡◌, refl, inl, inr, Option, none, some, List, [], ◌∷◌, nat_eq, length, if◌then◌else◌,
  arith, Bool-cases, nat_eq_iff,
}

-- A uint64.
abbrev pub NodeId : Type 0
NodeId = ℕ

abbrev pub NodeMap : Type 0 → Type 0
NodeMap V = List (NodeId × V)

module _ {V : Type 0} where
  unfoldable pub get : NodeMap V → NodeId → Option V
  get [] id = none
  get ((j, v) ∷ m) id = if nat_eq j id then some v else get m id

  unfoldable pub set : NodeMap V → NodeId → V → NodeMap V
  set [] id v = (id, v) ∷ []
  set ((j, w) ∷ m) id v =
      let rest = set m id v in if nat_eq j id then (id, v) ∷ m else (j, w) ∷ rest

  unfoldable pub delete : NodeMap V → NodeId → NodeMap V
  delete [] id = []
  delete ((j, w) ∷ m) id = let rest = delete m id in if nat_eq j id then rest else (j, w) ∷ rest

  abbrev pub HasDistinctKeys : NodeMap V → Type 0
  HasDistinctKeys [] = Unit
  HasDistinctKeys ((j, v) ∷ m) = (get m j ≡ none) × HasDistinctKeys m

  pub get-set :
      (m : NodeMap V) (id j : NodeId) (v : V)
      → get (set m id v) j ≡ (if nat_eq id j then some v else get m j)
  unfolding get set
  get-set [] id j v = refl
  get-set ((k, w) ∷ m) id j v = ground (arith, get-set m id j v)

  pub get-delete :
      (m : NodeMap V) (id j : NodeId)
      → get (delete m id) j ≡ (if nat_eq id j then none else get m j)
  unfolding get delete
  get-delete [] id j = ground arith
  get-delete ((k, w) ∷ m) id j = ground (arith, get-delete m id j)

  pub set-HasDistinctKeys :
      (m : NodeMap V) (id : NodeId) (v : V) → HasDistinctKeys m → HasDistinctKeys (set m id v)
  unfolding set get
  set-HasDistinctKeys [] id v h = (refl, tt)
  set-HasDistinctKeys ((k, w) ∷ m) id v h = elim (Bool-cases (nat_eq k id)) [
    | inl e ↦ let same = (nat_eq_iff k id).0 e in rw e (rw same at h.0, h.1)
    | inr e ↦ rw e ((ground (arith, get-set m id k v, h.0)), set-HasDistinctKeys m id v h.1)
  ]

  pub delete-HasDistinctKeys :
      (m : NodeMap V) (id : NodeId) → HasDistinctKeys m → HasDistinctKeys (delete m id)
  unfolding delete get
  delete-HasDistinctKeys [] id h = tt
  delete-HasDistinctKeys ((k, w) ∷ m) id h = elim (Bool-cases (nat_eq k id)) [
    | inl e ↦ rw e (delete-HasDistinctKeys m id h.1)
    | inr e ↦ rw e ((ground (arith, get-delete m id k, h.0)), delete-HasDistinctKeys m id h.1)
  ]

  delete-absent : (m : NodeMap V) (id : NodeId) → get m id ≡ none → delete m id ≡ m
  unfolding delete get
  delete-absent [] id h = refl
  delete-absent ((k, w) ∷ m) id h = elim (Bool-cases (nat_eq k id)) [
    | inl e ↦ let x = rw e at h in absurd (ground arith)
    | inr e ↦ rw e (rw (delete-absent m id (rw e at h)) refl)
  ]

  -- A deletion of a key takes one entry away.
  pub length-delete :
      (m : NodeMap V) (id : NodeId) {v : V}
      → HasDistinctKeys m
      → get m id ≡ some v
      → suc (length (delete m id)) ≡ length m
  unfolding delete get
  length-delete [] id d h = ground arith
  length-delete ((k, w) ∷ m) id d h = elim (Bool-cases (nat_eq k id)) [
    | inl e ↦ let same = (nat_eq_iff k id).0 e in rw (e, delete-absent m id (rw same at d.0)) refl
    | inr e ↦ rw (e, length-delete m id d.1 (rw e at h)) refl
  ]

  -- A write never makes the map smaller, and of a new key it adds an entry.
  pub length-set :
      (m : NodeMap V) (id : NodeId) (v : V) → get m id ≡ none → length (set m id v) ≡ suc (length m)
  unfolding set get
  length-set [] id v h = refl
  length-set ((k, w) ∷ m) id v h = elim (Bool-cases (nat_eq k id)) [
    | inl e ↦ let x = rw e at h in absurd (ground arith)
    | inr e ↦ rw (e, length-set m id v (rw e at h)) refl
  ]
