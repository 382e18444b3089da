-- ===== src/GoMap/Counts.antt =====
-- How many values of a map pass a test, before and after an operation.
use dss.Prelude.{
  ℕ, ◌+◌, ◌≤◌, ◌≡◌, refl, ap, inl, inr, String, Bool, true, false, ◌==◌, List, [], ◌∷◌, filter,
  length, if◌then◌else◌, arith, Bool-cases,
}
use dss.GoMap.Defs.{GoMap, set, delete, values, modify_where}

abbrev pub bit : Bool → ℕ
bit true = 1
bit false = 0

module _ {ℓ} {V : Type ℓ} (p : V → Bool) where
  abbrev pub count : GoMap V → ℕ
  count m = length (filter p (values m))

  pub length-filter-cons :
      (x : V) (xs : List V) → length (filter p (x ∷ xs)) ≡ bit (p x) + length (filter p xs)
  unfolding filter
  length-filter-cons x xs = elim (Bool-cases (p x)) [
    | inl e ↦ rw e (omega arith)
    | inr e ↦ rw e (omega arith)
  ]

  pub count-set-le : (m : GoMap V) (k : String) (v : V) → count (set m k v) ≤ count m + bit (p v)
  unfolding set
  count-set-le [] k v = omega (arith, length-filter-cons v [])
  count-set-le ((j, w) ∷ m) k v = elim (Bool-cases (j == k)) [
    | inl e ↦ rw e (omega (arith, length-filter-cons v (values m), length-filter-cons w (values m)))
    | inr e ↦ rw e (
        omega (
          arith,
          length-filter-cons w (values (set m k v)),
          length-filter-cons w (values m),
          count-set-le m k v,
        ))
  ]

  pub count-delete-le : (m : GoMap V) (k : String) → count (delete m k) ≤ count m
  unfolding delete
  count-delete-le [] k = omega arith
  count-delete-le ((j, w) ∷ m) k = elim (Bool-cases (j == k)) [
    | inl e ↦ rw e (omega (arith, length-filter-cons w (values m), count-delete-le m k))
    | inr e ↦ rw e (
        omega (
          arith,
          length-filter-cons w (values (delete m k)),
          length-filter-cons w (values m),
          count-delete-le m k,
        ))
  ]

  pub count-modify_where :
      (q : V → Bool) (f : V → V) (m : GoMap V)
      → ((v : V) → p (f v) ≡ p v)
      → count (modify_where q f m) ≡ count m
  unfolding modify_where
  count-modify_where q f [] h = refl
  count-modify_where q f ((j, w) ∷ m) h = omega (
    arith,
    length-filter-cons (if q w then f w else w) (values (modify_where q f m)),
    length-filter-cons w (values m),
    count-modify_where q f m h,
    same,
  )
    where
      same : bit (p (if q w then f w else w)) ≡ bit (p w)
      same = elim (Bool-cases (q w)) [ inl e ↦ rw e (ap bit (h w)) | inr e ↦ rw e refl ]

  filter-grows :
      (r : V → Bool) (x : V) (xs : List V) → length (filter r xs) ≤ length (filter r (x ∷ xs))
  unfolding filter
  filter-grows r x xs = ground arith

  -- What passes one test passes two others, one after the other.
  pub length-filter-filter :
      (q r : V → Bool) (xs : List V)
      → ((x : V) → p x ≡ true → (q x ≡ true) × (r x ≡ true))
      → length (filter p xs) ≤ length (filter r (filter q xs))
  unfolding filter
  length-filter-filter q r [] h = omega arith
  length-filter-filter q r (x ∷ xs) h = elim (Bool-cases (p x)) [
    | inl e ↦ let (a, b) = h x e in rw (e, a, b) (omega (arith, length-filter-filter q r xs h))
    | inr e ↦ rw e (elim (Bool-cases (q x)) [
      | inl a ↦ rw a (omega (arith, length-filter-filter q r xs h, filter-grows r x (filter q xs)))
      | inr b ↦ rw b (length-filter-filter q r xs h)
    ])
  ]

  pub length-filter_mono :
      (q : V → Bool) (xs : List V)
      → ((x : V) → p x ≡ true → q x ≡ true)
      → length (filter p xs) ≤ length (filter q xs)
  unfolding filter
  length-filter_mono q [] h = omega arith
  length-filter_mono q (x ∷ xs) h = elim (Bool-cases (p x)) [
    | inl e ↦ rw (e, h x e) (omega (arith, length-filter_mono q xs h))
    | inr e ↦ rw e (elim (Bool-cases (q x)) [
      | inl a ↦ rw a (omega (arith, length-filter_mono q xs h))
      | inr a ↦ rw a (length-filter_mono q xs h)
    ])
  ]
