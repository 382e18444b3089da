-- ===== src/Rid/Store/Subscriptions/Count.antt =====
-- The counts of `MaxSubscriptionCountInCellsByOwner` bound the subscriptions of each cell.
use dss.Prelude.{
  ℕ, ◌||◌, subst, sym, ◌+◌, ◌≤◌, ◌≡◌, ap, inl, inr, Bool, true, List, [], ◌∷◌, any, filter, length,
  nat_eq, if◌then◌else◌, arith, Bool-cases, nat_eq_iff,
}
use dss.Rid.Store.Records.{SubscriptionRecord}
use dss.Rid.Store.Subscriptions.{Counts, increment, count_cells, count_records, max_count}
use dss.GoMap.{bit, length-filter-cons}

-- `counts[c]`
lookup : Counts → ℕ → ℕ
lookup [] c = 0
lookup ((d, n) ∷ counts) c = if nat_eq d c then n else lookup counts c

bit-or : (a b : Bool) → bit (a || b) ≤ bit a + bit b
bit-or a b = ground arith

lookup-increment :
    (counts : Counts) (c d : ℕ) → lookup (increment counts c) d ≡ bit (nat_eq c d) + lookup counts d
unfolding lookup increment
lookup-increment [] c d = ground arith
lookup-increment ((e, n) ∷ counts) c d = ground (arith, lookup-increment counts c d)

lookup-le-max : (counts : Counts) (c : ℕ) → lookup counts c ≤ max_count counts
unfolding lookup max_count
lookup-le-max [] c = omega arith
lookup-le-max ((d, n) ∷ counts) c = elim (Bool-cases (nat_eq d c)) [
  | inl e ↦ rw e (omega arith)
  | inr e ↦ rw e (omega (arith, lookup-le-max counts c))
]

module _ (want : List ℕ) (c : ℕ) (wanted : any (nat_eq c) want ≡ true) where
  -- A cell that is counted is counted as itself.
  counted-le :
      (d : ℕ) (counts : Counts)
      → bit (nat_eq c d) + lookup counts c
        ≤ lookup (if any (nat_eq d) want then increment counts d else counts) c
  counted-le d counts = elim (Bool-cases (nat_eq c d)) [
    | inl e ↦
        let same : c ≡ d = (nat_eq_iff c d).0 e in
        let w : any (nat_eq d) want ≡ true = subst (λ x. any (nat_eq x) want ≡ true) same wanted in
        let n : bit (nat_eq d c) ≡ 1 = ap bit ((nat_eq_iff d c).1 (sym same)) in
        rw (e, w) (omega (arith, lookup-increment counts d c, n))
    | inr e ↦ rw e (elim (Bool-cases (any (nat_eq d) want)) [
      | inl w ↦ rw w (omega (arith, lookup-increment counts d c))
      | inr w ↦ rw w (omega arith)
    ])
  ]

  count_cells-le :
      (cells : List ℕ) (counts : Counts)
      → bit (any (nat_eq c) cells) + lookup counts c ≤ lookup (count_cells want cells counts) c
  unfolding count_cells any
  count_cells-le [] counts = omega arith
  count_cells-le (d ∷ cells) counts =
      let next = if any (nat_eq d) want then increment counts d else counts in
      omega (
        arith,
        counted-le d counts,
        count_cells-le cells next,
        bit-or (nat_eq c d) (any (nat_eq c) cells),
      )

  -- The records that hold a cell of the area are counted for that cell.
  count_records-le :
      (recs : List SubscriptionRecord) (counts : Counts)
      → length (filter (λ rec. any (nat_eq c) rec.cells) recs) + lookup counts c
        ≤ lookup (count_records want recs counts) c
  unfolding count_records filter
  count_records-le [] counts = omega arith
  count_records-le (rec ∷ recs) counts = omega (
    arith,
    length-filter-cons (λ (r : SubscriptionRecord). any (nat_eq c) r.cells) rec recs,
    count_cells-le rec.cells counts,
    count_records-le recs (count_cells want rec.cells counts),
  )

  pub length-le-max_count :
      (recs : List SubscriptionRecord)
      → length (filter (λ rec. any (nat_eq c) rec.cells) recs)
        ≤ max_count (count_records want recs [])
  length-le-max_count recs =
      omega (arith, count_records-le recs [], lookup-le-max (count_records want recs []) c)
