-- ===== src/Models/Union/Block.antt =====
-- One block of the loop in `UnionCellsVolumes4D`, run over the bounds of all volumes.
use mathlib.Core.List.{Memᴰ}
use mathlib.Core.List.Memᴰ
use dss.Prelude.{
  ℕ, ◌≡◌, refl, ◌∙◌, ◌⊎◌, inl, inr, Bool, true, false, Option, none, some, List, [], ◌∷◌,
  Bool-cases,
}
use dss.Models.Union.Loop.{widen}

-- The variables `u`, `r` of one bound agree with a bound `x` that the loop has read.
abbrev pub Covers : (ℕ → ℕ → Type 0) → Bool → Option ℕ → Option ℕ → Type 0
Covers R true none x = Unit
Covers R true (some b) x = ⊥
Covers R false none x = ⊥
Covers R false (some b) none = ⊥
Covers R false (some b) (some a) = R b a

-- Once unbounded, the result has no bound.
abbrev pub IsSound : Bool → Option ℕ → Type 0
IsSound true none = Unit
IsSound true (some b) = ⊥
IsSound false r = Unit

module _ (beats : ℕ → ℕ → Bool) (copy : ℕ → Option ℕ) where
  -- The block over all bounds.
  unfoldable pub run : List (Option ℕ) → Bool → Option ℕ → Bool × Option ℕ
  run [] u r = (u, r)
  run (x ∷ xs) u r = let (u', r') = widen beats copy x u r in run xs u' r'

-- The copy of a bound keeps it.
abbrev pub Copies : (ℕ → Option ℕ) → Option ℕ → Type 0
Copies copy none = Unit
Copies copy (some b) = copy b ≡ some b

abbrev pub AllCopies : (ℕ → Option ℕ) → List (Option ℕ) → Type 0
AllCopies copy [] = Unit
AllCopies copy (x ∷ xs) = Copies copy x × AllCopies copy xs

-- One block, for a comparison `beats` that decides when `R` fails.
module _ (R : ℕ → ℕ → Type 0) (beats : ℕ → ℕ → Bool) (same : (b : ℕ) → R b b)
    (won : (b r a : ℕ) → beats b r ≡ true → R r a → R b a)
    (lost : (b r : ℕ) → beats b r ≡ false → R r b) (copy : ℕ → Option ℕ) where
  widen-Covers :
      (bound : Option ℕ) (u : Bool) (r x : Option ℕ)
      → Copies copy bound
      → Covers R u r x
      → Covers R (widen beats copy bound u r).0 (widen beats copy bound u r).1 x
  unfolding widen
  widen-Covers none u r x c h = tt
  widen-Covers (some b) true none x c h = tt
  widen-Covers (some b) false (some r) (some a) c h = elim (Bool-cases (beats b r)) [
    | inl w ↦ rw (w, c) (won b r a w h)
    | inr l ↦ rw l h
  ]
  widen-Covers (some b) true (some r) x c h = absurd h
  widen-Covers (some b) false none x c h = absurd h
  widen-Covers (some b) false (some r) none c h = absurd h

  widen-new :
      (bound : Option ℕ) (u : Bool) (r : Option ℕ)
      → Copies copy bound
      → IsSound u r
      → Covers R (widen beats copy bound u r).0 (widen beats copy bound u r).1 bound
  unfolding widen
  widen-new none u r c h = tt
  widen-new (some b) true none c h = tt
  widen-new (some b) true (some r) c h = absurd h
  widen-new (some b) false none c h = rw c (same b)
  widen-new (some b) false (some r) c h = elim (Bool-cases (beats b r)) [
    | inl w ↦ rw (w, c) (same b)
    | inr l ↦ rw l (lost b r l)
  ]

  widen-IsSound :
      (bound : Option ℕ) (u : Bool) (r : Option ℕ)
      → Copies copy bound
      → IsSound u r
      → IsSound (widen beats copy bound u r).0 (widen beats copy bound u r).1
  unfolding widen
  widen-IsSound none u r c h = tt
  widen-IsSound (some b) true none c h = tt
  widen-IsSound (some b) true (some r) c h = absurd h
  widen-IsSound (some b) false none c h = tt
  widen-IsSound (some b) false (some r) c h = tt

  run-Covers :
      (xs : List (Option ℕ)) (u : Bool) (r x : Option ℕ)
      → AllCopies copy xs
      → Covers R u r x
      → Covers R (run beats copy xs u r).0 (run beats copy xs u r).1 x
  unfolding run
  run-Covers [] u r x c h = h
  run-Covers (y ∷ xs) u r x c h =
      let (u', r') = widen beats copy y u r in
      run-Covers xs u' r' x c.1 (widen-Covers y u r x c.0 h)

  -- Every bound that was read is covered.
  pub run-Covers_mem :
      (xs : List (Option ℕ)) (u : Bool) (r x : Option ℕ)
      → AllCopies copy xs
      → IsSound u r
      → Memᴰ x xs
      → Covers R (run beats copy xs u r).0 (run beats copy xs u r).1 x
  unfolding run
  run-Covers_mem [] u r x c s m = absurd (Memᴰ.not-nil m)
  run-Covers_mem (y ∷ xs) u r x c s m =
      let (u', r') = widen beats copy y u r in
      elim (Memᴰ.cases_cons m) [
        | inl e ↦ run-Covers xs u' r' x c.1 (rw e (widen-new y u r c.0 s))
        | inr n ↦ run-Covers_mem xs u' r' x c.1 (widen-IsSound y u r c.0 s) n
      ]

module _ (beats : ℕ → ℕ → Bool) (copy : ℕ → Option ℕ) where
  widen-picks :
      (bound : Option ℕ) (u : Bool) (r : Option ℕ)
      → Copies copy bound
      → ((widen beats copy bound u r).1 ≡ bound) ⊎ ((widen beats copy bound u r).1 ≡ r)
  unfolding widen
  widen-picks none u r c = inl refl
  widen-picks (some b) true r c = inr refl
  widen-picks (some b) false none c = inl c
  widen-picks (some b) false (some r) c = elim (Bool-cases (beats b r)) [
    | inl w ↦ inl (rw (w, c))
    | inr l ↦ inr (rw l)
  ]

  run_picks :
      (xs : List (Option ℕ)) (u : Bool) (r : Option ℕ)
      → AllCopies copy xs
      → Memᴰ (run beats copy xs u r).1 xs ⊎ ((run beats copy xs u r).1 ≡ r)
  unfolding run
  run_picks [] u r c = inr refl
  run_picks (y ∷ xs) u r c =
      let (u', r') = widen beats copy y u r in
      elim (run_picks xs u' r' c.1) [
        | inl m ↦ inl (Memᴰ.tail m)
        | inr e ↦ elim (widen-picks y u r c.0) [
          | inl f ↦ inl (Memᴰ.head (e ∙ f))
          | inr f ↦ inr (e ∙ f)
        ]
      ]

  -- From the loop's start, the bound of the result is one of those that were read.
  pub run_attained :
      (x : Option ℕ) (xs : List (Option ℕ))
      → AllCopies copy (x ∷ xs)
      → Memᴰ (run beats copy (x ∷ xs) false none).1 (x ∷ xs)
  unfolding run widen
  run_attained none xs c = elim (run_picks xs true none c.1) [
    | inl m ↦ Memᴰ.tail m
    | inr e ↦ Memᴰ.head e
  ]
  run_attained (some b) xs c = elim (run_picks xs false (copy b) c.1) [
    | inl m ↦ Memᴰ.tail m
    | inr e ↦ Memᴰ.head (e ∙ c.0)
  ]
