-- ===== src/Exec/Keeps.antt =====
-- Runs that keep a predicate on the state, whether they succeed or not.
use dss.Prelude.{sym, subst, Bool, true, false}
use dss.Exec.Defs.{Result, ok, err, Exec, continue, ◌>>=◌, when}
use dss.Exec.Reads.{Reads}

module _ {ℓ} {S : Type 0} (P : S → Type ℓ) where
  abbrev pub Keeps : {A : Type 0} → Exec S A → Type ℓ
  Keeps m = (s : S) → P s → P (m s).1

  pub Keeps-of_Reads : {A : Type 0} (m : Exec S A) → Reads m → Keeps m
  Keeps-of_Reads m reads s p = subst P (sym (reads s)) p

  module _ {A B : Type 0} where
    continue-keeps :
        (r : Result A) (f : A → Exec S B) (s : S)
        → ((a : A) → Keeps (f a))
        → P s
        → P (continue r f s).1
    continue-keeps (ok a) f s h p = h a s p
    continue-keeps (err e) f s h p = p

    pub >>=-Keeps :
        (m : Exec S A) (f : A → Exec S B) → Keeps m → ((a : A) → Keeps (f a)) → Keeps (m >>= f)
    >>=-Keeps m f h k s p = continue-keeps (m s).0 f (m s).1 k (h s p)

  -- After a part that only reads.
  pub Reads-Keeps :
      {A B : Type 0} (m : Exec S A) (f : A → Exec S B)
      → Reads m
      → ((a : A) → Keeps (f a))
      → Keeps (m >>= f)
  Reads-Keeps m f h = >>=-Keeps m f (Keeps-of_Reads m h)

  pub when-Keeps : (b : Bool) (m : Exec S (Unit {0})) → Keeps m → Keeps (when b m)
  when-Keeps true m h s p = h s p
  when-Keeps false m h s p = p
