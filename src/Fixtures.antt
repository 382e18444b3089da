-- ===== src/Fixtures.antt =====
-- The outside code, instantiated for the tests: all cells stand at level 13, and nothing is merged.
use mathlib.Core.List.{Memᴰ}
use mathlib.Core.List.Memᴰ
use dss.Prelude.{
  ℕ, ◌↔◌, ◌⊎◌, inl, inr, true, List, [], ◌∷◌, ◌++◌, refl, subst, ◌≡◌, Bool, true, any, any_iff,
  nat_eq, nat_eq_iff, ◌&&◌,
}
use dss.External.{External, CellUnion, S2Laws, ContainsUnion}

abbrev pub flatten : List CellUnion → CellUnion
flatten [] = []
flatten (c ∷ cs) = c ++ flatten cs

-- Every cell of the second is in the first.
abbrev pub subset : CellUnion → CellUnion → Bool
subset a [] = true
subset a (c ∷ cs) = any (nat_eq c) a && subset a cs

abbrev pub ext0 : External
ext0 = record {
  level = λ c. 13;
  cell_union_from_union = flatten;
  denormalize = λ c l m. c;
  contains = subset;
  digest = λ s. s;
  format = λ t. "T";
}

mem-append : (c : ℕ) (us vs : CellUnion) → Memᴰ c (us ++ vs) ↔ (Memᴰ c us ⊎ Memᴰ c vs)
mem-append c [] vs = (λ m. inr m, λ w. elim w [ inl m ↦ absurd (Memᴰ.not-nil m) | inr m ↦ m ])
mem-append c (u ∷ us) vs = (
  λ m. elim (Memᴰ.cases_cons m) [
    | inl e ↦ inl (Memᴰ.head e)
    | inr n ↦ elim ((mem-append c us vs).0 n) [ inl k ↦ inl (Memᴰ.tail k) | inr k ↦ inr k ]
  ],
  λ w. elim w [
    | inl m ↦ elim (Memᴰ.cases_cons m) [
      | inl e ↦ Memᴰ.head e
      | inr n ↦ Memᴰ.tail ((mem-append c us vs).1 (inl n))
    ]
    | inr m ↦ Memᴰ.tail ((mem-append c us vs).1 (inr m))
  ],
)

mem-flatten :
    (c : ℕ) (us : List CellUnion) → Memᴰ c (flatten us) ↔ ((u : CellUnion) × Memᴰ u us × Memᴰ c u)
mem-flatten c [] = (λ m. absurd (Memᴰ.not-nil m), λ w. absurd (Memᴰ.not-nil w.1))
mem-flatten c (u ∷ us) = (
  λ m. elim ((mem-append c u (flatten us)).0 m) [
    | inl n ↦ (u, Memᴰ.head refl, n)
    | inr n ↦ let (v, k, q) = (mem-flatten c us).0 n in (v, Memᴰ.tail k, q)
  ],
  λ w. elim (Memᴰ.cases_cons w.1) [
    | inl e ↦ (mem-append c u (flatten us)).1 (inl (subst (Memᴰ c) e w.2))
    | inr k ↦ (mem-append c u (flatten us)).1 (inr ((mem-flatten c us).1 (w.0, k, w.2)))
  ],
)

pub ext0-S2Laws : S2Laws ext0
ext0-S2Laws = record { mem-relevel = λ l c us h. mem-flatten c us }

subset_mem : (a b : CellUnion) → ((c : ℕ) → Memᴰ c b → Memᴰ c a) → subset a b ≡ true
subset_mem a [] h = refl
subset_mem a (c ∷ cs) h =
    rw
      (
        (any_iff (nat_eq c) a).1 (c, h c (Memᴰ.head refl), (nat_eq_iff c c).1 refl),
        subset_mem a cs (λ d m. h d (Memᴰ.tail m)),
      )
      refl

pub ext0-ContainsUnion : ContainsUnion ext0
ext0-ContainsUnion = record {
  part = λ a b.
      subset_mem (flatten (a ∷ b ∷ [])) b
        (λ c m. (mem-flatten c (a ∷ b ∷ [])).1 (b, Memᴰ.tail (Memᴰ.head refl), m));
}
