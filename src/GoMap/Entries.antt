-- ===== src/GoMap/Entries.antt =====
-- A predicate on the entries of a map, kept by the operations.
use dss.Prelude.{
  String, ◌≡◌, subst, inl, inr, Bool, some, ◌==◌, eq_iff, arith, Bool-cases, Option-cases,
}
use dss.GoMap.Defs.{GoMap, get, set, delete, modify_where}
use dss.GoMap.Laws.{get-set, get-delete, get-modify_where}

module _ {ℓ κ} {V : Type ℓ} (Q : String → V → Type κ) where
  abbrev pub AllEntries : GoMap V → Type (ℓ ⊔ κ)
  AllEntries m = (k : String) (v : V) → get m k ≡ some v → Q k v

  pub set-AllEntries :
      (m : GoMap V) (k : String) (v : V) → Q k v → AllEntries m → AllEntries (set m k v)
  set-AllEntries m k v q all j w e = elim (Bool-cases (k == j)) [
    | inl h ↦
        let same : v ≡ w = ground (arith, get-set m k j v) in
        subst (λ i. Q i w) ((eq_iff k j).0 h) (subst (Q k) same q)
    | inr h ↦ all j w (ground (arith, get-set m k j v))
  ]

  pub delete-AllEntries : (m : GoMap V) (k : String) → AllEntries m → AllEntries (delete m k)
  delete-AllEntries m k all j w e = elim (Bool-cases (k == j)) [
    | inl h ↦ absurd (ground (arith, get-delete m k j))
    | inr h ↦ all j w (ground (arith, get-delete m k j))
  ]

  pub modify_where-AllEntries :
      (p : V → Bool) (f : V → V) (m : GoMap V)
      → ((k : String) (v : V) → Q k v → Q k (f v))
      → AllEntries m
      → AllEntries (modify_where p f m)
  modify_where-AllEntries p f m step all j w e = elim (Option-cases (get m j)) [
    | inl h ↦ absurd (ground (arith, get-modify_where p f m j))
    | inr (v, h) ↦ elim (Bool-cases (p v)) [
      | inl b ↦
          let same : f v ≡ w = ground (arith, get-modify_where p f m j) in
          subst (Q j) same (step j v (all j v h))
      | inr b ↦
          let same : v ≡ w = ground (arith, get-modify_where p f m j) in
          subst (Q j) same (all j v h)
    ]
  ]
