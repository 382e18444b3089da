-- ===== src/Prelude/Lists.antt =====
-- Lists measured by native numbers, membership that computes, and the loop with a limit.
use Prim.Native.Nat.{ℕ, zero, suc, ◌+◌, ◌-◌, ◌≤◌, ◌<◌}
use mathlib.Core.Path.{◌≡◌, refl, sym, ap, ◌∙◌}
use mathlib.Core.Logic.{◌↔◌, inl, inr}
use mathlib.Core.Bool.{Bool, true, false, ◌||◌, false≢true}
use mathlib.Core.List.{List, [], ◌∷◌, ◌++◌, map, append-nil, append_assoc}
use mathlib.Core.List.{Memᴰ}
use mathlib.Core.List.Memᴰ
use native.Mathlib.Omega.{arith}
use dss.Prelude.Tests.{leb, leb→le, if◌then◌else◌, Bool-cases}

module _ {ℓ} {A : Type ℓ} where
  abbrev pub length : List A → ℕ
  length [] = 0
  length (x ∷ xs) = suc (length xs)

  abbrev pub take : ℕ → List A → List A
  take zero xs = []
  take (suc n) [] = []
  take (suc n) (x ∷ xs) = x ∷ take n xs

module _ {ℓ} {A : Type ℓ} (p : A → Bool) where
  -- `p` holds of some element.
  unfoldable pub any : List A → Bool
  any [] = false
  any (x ∷ xs) = p x || any xs

  -- The elements that pass a Boolean test.
  unfoldable pub filter : List A → List A
  filter [] = []
  filter (x ∷ xs) = if p x then x ∷ filter xs else filter xs

  -- `for _, x := range xs { if !p(x) { continue }; out = append(out, x); if len(out) >= stop { break } }`
  unfoldable pub collect : ℕ → List A → List A → List A
  collect stop [] out = out
  collect stop (x ∷ xs) out =
      let out' = out ++ x ∷ [] in
      let skip = collect stop xs out in
      let more = collect stop xs out' in
      if p x then (if leb stop (length out') then out' else more) else skip

module _ {ℓ} {A : Type ℓ} where
  pub length-append : (xs ys : List A) → length (xs ++ ys) ≡ length xs + length ys
  length-append [] ys = omega arith
  length-append (x ∷ xs) ys = omega (arith, length-append xs ys)

  take-nil : (n : ℕ) → take {A = A} n [] ≡ []
  take-nil zero = refl
  take-nil (suc n) = refl

  pub take-all : (n : ℕ) (xs : List A) → length xs ≤ n → take n xs ≡ xs
  take-all zero [] h = refl
  take-all zero (x ∷ xs) h = absurd (omega arith)
  take-all (suc n) [] h = refl
  take-all (suc n) (x ∷ xs) h = ap (λ t. x ∷ t) (take-all n xs (omega arith))

  pub length-take-le : (n : ℕ) (xs : List A) → length (take n xs) ≤ n
  length-take-le zero xs = omega arith
  length-take-le (suc n) [] = omega arith
  length-take-le (suc n) (x ∷ xs) = omega (arith, length-take-le n xs)

  pub mem-take : (n : ℕ) {a : A} (xs : List A) → Memᴰ a (take n xs) → Memᴰ a xs
  mem-take zero xs m = absurd (Memᴰ.not-nil m)
  mem-take (suc n) [] m = absurd (Memᴰ.not-nil m)
  mem-take (suc n) (x ∷ xs) m = elim (Memᴰ.cases_cons m) [
    | inl e ↦ Memᴰ.head e
    | inr h ↦ Memᴰ.tail (mem-take n xs h)
  ]

  pub mem-filter :
      (p : A → Bool) {a : A} (xs : List A) → Memᴰ a xs → p a ≡ true → Memᴰ a (filter p xs)
  unfolding filter
  mem-filter p [] m h = absurd (Memᴰ.not-nil m)
  mem-filter p (x ∷ xs) m h = elim (Memᴰ.cases_cons m) [
    | inl e ↦ rw (← e, h) (Memᴰ.head refl)
    | inr n ↦ elim (Bool-cases (p x)) [
      | inl q ↦ rw q (Memᴰ.tail (mem-filter p xs n h))
      | inr q ↦ rw q (mem-filter p xs n h)
    ]
  ]

  pub mem_of_filter :
      (p : A → Bool) {a : A} (xs : List A) → Memᴰ a (filter p xs) → Memᴰ a xs × (p a ≡ true)
  unfolding filter
  mem_of_filter p [] m = absurd (Memᴰ.not-nil m)
  mem_of_filter p (x ∷ xs) m = elim (Bool-cases (p x)) [
    | inl q ↦ elim (Memᴰ.cases_cons (rw q at m)) [
      | inl e ↦ (Memᴰ.head e, rw e q)
      | inr n ↦ let (r, h) = mem_of_filter p xs n in (Memᴰ.tail r, h)
    ]
    | inr q ↦ let (n, h) = mem_of_filter p xs (rw q at m) in (Memᴰ.tail n, h)
  ]

  pub any_iff :
      (p : A → Bool) (xs : List A) → (any p xs ≡ true) ↔ ((x : A) × Memᴰ x xs × (p x ≡ true))
  unfolding any
  any_iff p [] = (λ h. absurd (false≢true h), λ w. absurd (Memᴰ.not-nil w.1))
  any_iff p (x ∷ xs) = elim (Bool-cases (p x)) [
    | inl h ↦ rw h (λ _. (x, Memᴰ.head refl, h), λ _. refl)
    | inr h ↦ rw h (
      λ g. let (y, m, q) = (any_iff p xs).0 g in (y, Memᴰ.tail m, q),
      λ w. elim (Memᴰ.cases_cons w.1) [
        | inl e ↦ absurd (false≢true (sym h ∙ ap p (sym e) ∙ w.2))
        | inr m ↦ (any_iff p xs).1 (w.0, m, w.2)
      ],
    )
  ]

  -- The loop keeps the first matches in order, as far as the limit leaves room.
  pub collect-eq-take :
      (p : A → Bool) (stop : ℕ) (xs out : List A)
      → length out < stop
      → collect p stop xs out ≡ out ++ take (stop - length out) (filter p xs)
  unfolding filter collect
  collect-eq-take p stop [] out h = rw (take-nil (stop - length out), append-nil)
  collect-eq-take p stop (x ∷ xs) out h = elim (Bool-cases (p x)) [
    | inl q ↦ rw q (elim (Bool-cases (leb stop (length (out ++ x ∷ [])))) [
      | inl full ↦ rw (full, last (leb→le stop (length (out ++ x ∷ [])) full))
      | inr room ↦ rw (
        room,
        collect-eq-take p stop xs (out ++ x ∷ []) (below room),
        append_assoc,
        more (below room),
      )
    ])
    | inr q ↦ rw q (collect-eq-take p stop xs out h)
  ]
    where
      size : length (out ++ x ∷ []) ≡ suc (length out)
      size = omega (arith, length-append out (x ∷ []))

      last : stop ≤ length (out ++ x ∷ []) → stop - length out ≡ suc 0
      last full = omega (arith, size)

      below : leb stop (length (out ++ x ∷ [])) ≡ false → length (out ++ x ∷ []) < stop
      below room = ground arith

      more : length (out ++ x ∷ []) < stop → stop - length out ≡ suc (stop - length (out ++ x ∷ []))
      more room = omega (arith, size)

module _ {ℓ κ} {A : Type ℓ} {B : Type κ} (f : A → B) where
  pub mem-map : {a : A} (xs : List A) → Memᴰ a xs → Memᴰ (f a) (map f xs)
  mem-map [] m = absurd (Memᴰ.not-nil m)
  mem-map (x ∷ xs) (Memᴰ.head e) = Memᴰ.head (ap f e)
  mem-map (x ∷ xs) (Memᴰ.tail m) = Memᴰ.tail (mem-map xs m)

  pub mem_of_map : {b : B} (xs : List A) → Memᴰ b (map f xs) → (a : A) × Memᴰ a xs × (b ≡ f a)
  mem_of_map [] m = absurd (Memᴰ.not-nil m)
  mem_of_map (x ∷ xs) m = elim (Memᴰ.cases_cons m) [
    | inl e ↦ (x, Memᴰ.head refl, e)
    | inr n ↦ let (a, r, e) = mem_of_map xs n in (a, Memᴰ.tail r, e)
  ]

module _ {ℓ} {A : Type ℓ} (p : A → Bool) where
  pub length-filter-le : (xs : List A) → length (filter p xs) ≤ length xs
  unfolding filter
  length-filter-le [] = omega arith
  length-filter-le (x ∷ xs) = ground (arith, length-filter-le xs)
