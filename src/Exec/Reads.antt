-- ===== src/Exec/Reads.antt =====
-- Runs that leave the state as it is.
use dss.Prelude.{◌≡◌, refl, sym, ap, subst, ◌∙◌, Bool, true, false}
use dss.Exec.Defs.{Error, Result, ok, err, Exec, continue, ◌>>=◌, raise_if}
use dss.Exec.Laws.{>>=-ok}

abbrev pub Reads : {S A : Type 0} → Exec S A → Type 0
Reads {S} m = (s : S) → (m s).1 ≡ s

abbrev pub HasFailed : {S A : Type 0} → S → Result A × S → Type 0
HasFailed s x = (x.1 ≡ s) × (e : Error) × (x.0 ≡ err e)

module _ {S A B : Type 0} where
  continue-Reads :
      (r : Result A) (f : A → Exec S B) (s : S) → ((a : A) → Reads (f a)) → (continue r f s).1 ≡ s
  continue-Reads (ok a) f s h = h a s
  continue-Reads (err e) f s h = refl

  pub >>=-Reads :
      (m : Exec S A) (f : A → Exec S B) → Reads m → ((a : A) → Reads (f a)) → Reads (m >>= f)
  >>=-Reads m f h k s = continue-Reads (m s).0 f (m s).1 k ∙ h s

  -- After a first part, parts that only read change nothing.
  pub then-Reads :
      (m : Exec S A) (f : A → Exec S B) (s : S)
      → ((a : A) → Reads (f a))
      → ((m >>= f) s).1 ≡ (m s).1
  then-Reads m f s h = continue-Reads (m s).0 f (m s).1 h

  -- A run that fails in the state where it began.
  pub failed-bind :
      (m : Exec S A) (f : A → Exec S B) (s : S) → HasFailed s (m s) → HasFailed s ((m >>= f) s)
  failed-bind m f s (same, e, q) =
      subst (λ x. HasFailed s (continue x.0 f x.1)) (sym (pair_lem q same)) (refl, e, refl)
    where
      pair_lem :
          {A : Type 0} {x : Result A × S} {e : Error} → x.0 ≡ err e → x.1 ≡ s → x ≡ (err e, s)
      pair_lem {x} {e} p q = cc (p, q)

  -- A sequence whose first part reads goes on in the same state.
  pub Reads-ok :
      (m : Exec S A) (f : A → Exec S B) {s s' : S} {b : B}
      → Reads m
      → (m >>= f) s ≡ (ok b, s')
      → (a : A) × (m s ≡ (ok a, s)) × (f a s ≡ (ok b, s'))
  Reads-ok m f {s} {s'} {b} reads h =
      let (a, t, e, k) = >>=-ok m f h in
      let same : t ≡ s = cc (reads s) in (a, rw same at e, rw same at k)

  -- To prove what a sequence comes to, whose first part reads: where that fails, and where it goes on.
  pub Reads-cases {ℓ} :
      (P : Result B × S → Type ℓ) (m : Exec S A) (f : A → Exec S B) (s : S)
      → Reads m
      → ((e : Error) → P (err e, s))
      → ((a : A) → m s ≡ (ok a, s) → P (f a s))
      → P ((m >>= f) s)
  Reads-cases P m f s reads failed goes_on =
      subst (λ x. P (continue x.0 f x.1)) (sym same) (go (m s).0 same)
    where
      same : m s ≡ ((m s).0, s)
      same = ap (λ t. ((m s).0, t)) (reads s)

      go : (r : Result A) → m s ≡ (r, s) → P (continue r f s)
      go (ok a) q = goes_on a q
      go (err e) q = failed e

pub raise_if-Reads : {S : Type 0} (b : Bool) (e : Error) → Reads {S = S} (raise_if b e)
raise_if-Reads true e s = refl
raise_if-Reads false e s = refl
