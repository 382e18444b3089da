-- ===== src/Exec/Laws.antt =====
-- Inversion of a run that succeeds, and the loop whose test may fail.
use mathlib.Core.List.{Memᴰ}
use dss.Prelude.{
  ℕ, ◌≡◌, refl, ap, ◌⊎◌, inl, inr, Bool, true, false, List, [], ◌∷◌, ◌++◌, collect, arith,
}
use dss.Exec.Defs.{
  Error, Result, ok, err, Exec, continue, ◌>>=◌, raise_if, lift, bind_result, collect_result,
}

module _ {S A B : Type 0} where
  -- A sequence that succeeds went through its first part.
  pub >>=-ok :
      (m : Exec S A) (f : A → Exec S B) {s s' : S} {b : B}
      → (m >>= f) s ≡ (ok b, s')
      → (a : A) × (t : S) × (m s ≡ (ok a, t)) × (f a t ≡ (ok b, s'))
  >>=-ok m f {s} h = go (m s) refl h
    where
      go :
          {s' : S} {b : B} (x : Result A × S)
          → m s ≡ x
          → continue x.0 f x.1 ≡ (ok b, s')
          → (a : A) × (t : S) × (m s ≡ (ok a, t)) × (f a t ≡ (ok b, s'))
      go (ok a, t) e h = (a, t, e, h)
      go (err e', t) e h = ground arith

pub Result-cases {ℓ} :
    {A : Type ℓ} (r : Result A) → ((a : A) × (r ≡ ok a)) ⊎ ((e : Error) × (r ≡ err e))
Result-cases (ok a) = inl (a, refl)
Result-cases (err e) = inr (e, refl)

-- Two runs that succeed alike return the same in the same state.
pub ok-pair :
    {A S : Type 0} {a b : A} {s t : S} → Path (Result A × S) (ok a, s) (ok b, t) → (a ≡ b) × (s ≡ t)
ok-pair h = (cc h, cc h)

-- A result that was lifted.
pub lift-ok : {A S : Type 0} (r : Result A) {a : A} {s s' : S} → lift r s ≡ (ok a, s') → r ≡ ok a
lift-ok r h = ap (λ x. x.0) h

pub bind_result-ok {ℓ κ} :
    {A : Type ℓ} {B : Type κ} (r : Result A) (f : A → Result B) {b : B}
    → bind_result r f ≡ ok b
    → (a : A) × (r ≡ ok a) × (f a ≡ ok b)
bind_result-ok (ok a) f h = (a, refl, h)
bind_result-ok (err e) f h = cc

-- A guard that lets the run go on did not hold.
pub raise_if-ok :
    {S : Type 0} (b : Bool) (e : Error) {s s' : S} {u : Unit {0}}
    → raise_if b e s ≡ (ok u, s')
    → (b ≡ false) × (s' ≡ s)
raise_if-ok true e h = ground arith
raise_if-ok false e h = (refl, cc)

-- Where the test fails on no element, the loop is the loop without failures.
pub collect_result-ok {ℓ} :
    {A : Type ℓ} (p : A → Result Bool) (q : A → Bool) (stop : ℕ) (xs out : List A)
    → ((x : A) → Memᴰ x xs → p x ≡ ok (q x))
    → collect_result p stop xs out ≡ ok (collect q stop xs out)
unfolding collect_result collect
collect_result-ok p q stop [] out h = refl
collect_result-ok p q stop (x ∷ xs) out h =
    let skip = collect_result-ok p q stop xs out (λ y m. h y (Memᴰ.tail m)) in
    let more = collect_result-ok p q stop xs (out ++ x ∷ []) (λ y m. h y (Memᴰ.tail m)) in
    ground (arith, h x (Memᴰ.head refl), skip, more)
