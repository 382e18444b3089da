-- ===== src/Exec/Defs.antt =====
-- The types and the combinators.
use dss.Prelude.{
  ℕ, Bool, true, false, Option, none, some, List, [], ◌∷◌, ◌++◌, leb, length, if◌then◌else◌,
}

-- The codes of pkg/errors/errors.go.
pub data Code : Type 0 where
  area_too_large already_exists bad_request version_mismatch not_found permission_denied : Code
  exhausted unauthenticated not_implemented unavailable precondition_failed : Code

-- `coded c` is an error whose code is `c`, `uncoded` one of no code, `err_not_found` the sentinel
-- `repos.ErrNotFound`, `err_self_removed` the one of the Raft consumer, and `panic` a run-time panic
-- (a nil pointer read).
pub data Error : Type 0 where
  coded : Code → Error
  uncoded err_not_found err_self_removed panic : Error

pub data Result {ℓ} (A : Type ℓ) : Type ℓ where
  ok : A → Result A
  err : Error → Result A

abbrev pub is_panic : Error → Bool
is_panic panic = true
is_panic _ = false

-- A panic that nothing recovers ends the process.
abbrev pub has_panicked {ℓ} : {A : Type ℓ} → Result A → Bool
has_panicked (ok a) = false
has_panicked (err e) = is_panic e

-- `stacktrace.PropagateWithCode(err, c, …)`; plain `Propagate` keeps the code.
abbrev pub with_code : Code → Error → Error
with_code c panic = panic
with_code c _ = coded c

abbrev pub map_err {ℓ} : {A : Type ℓ} → (Error → Error) → Result A → Result A
map_err f (ok a) = ok a
map_err f (err e) = err (f e)

-- `*p`, which panics at nil.
abbrev pub deref {ℓ} : {A : Type ℓ} → Option A → Result A
deref none = err panic
deref (some a) = ok a

-- `if err != nil && !errors.Is(err, repos.ErrNotFound)`: the error "not found" leaves nil.
abbrev pub or_none {ℓ} : {A : Type ℓ} → Result A → Result (Option A)
or_none (ok a) = ok (some a)
or_none (err err_not_found) = ok none
or_none (err e) = err e

module _ {ℓ κ} {A : Type ℓ} {B : Type κ} where
  abbrev pub bind_result : Result A → (A → Result B) → Result B
  bind_result (ok a) f = f a
  bind_result (err e) f = err e

abbrev pub Exec : Type 0 → Type 0 → Type 0
Exec S A = S → Result A × S

module _ {S A : Type 0} where
  abbrev pub pure : A → Exec S A
  pure a s = (ok a, s)

  abbrev pub raise : Error → Exec S A
  raise e s = (err e, s)

  abbrev pub lift : Result A → Exec S A
  lift r s = (r, s)

  abbrev pub gets : (S → A) → Exec S A
  gets f s = (ok (f s), s)

module _ {S A B : Type 0} where
  abbrev pub continue : Result A → (A → Exec S B) → Exec S B
  continue (ok a) f s = f a s
  continue (err e) f s = (err e, s)

  infixl 5 ◌>>=◌ ◌>>◌
  abbrev pub ◌>>=◌ : Exec S A → (A → Exec S B) → Exec S B
  ◌>>=◌ m f s = let (r, s') = m s in continue r f s'

  abbrev pub ◌>>◌ : Exec S A → Exec S B → Exec S B
  m >> n = m >>= λ _. n

abbrev pub modify : {S : Type 0} → (S → S) → Exec S (Unit {0})
modify f s = (ok tt, f s)

-- `if b { return nil, e }`
abbrev pub raise_if : {S : Type 0} → Bool → Error → Exec S (Unit {0})
raise_if true e s = (err e, s)
raise_if false e s = (ok tt, s)

-- `if b { m }`, where `m` returns nothing but an error.
abbrev pub when : {S : Type 0} → Bool → Exec S (Unit {0}) → Exec S (Unit {0})
when true m s = m s
when false m s = (ok tt, s)

-- `collect` with a test that may fail: the loop ends at the first failure.
unfoldable pub collect_result {ℓ} :
    {A : Type ℓ} → (A → Result Bool) → ℕ → List A → List A → Result (List A)
collect_result p stop [] out = ok out
collect_result p stop (x ∷ xs) out =
    let out' = out ++ x ∷ [] in
    let skip = collect_result p stop xs out in
    let more = collect_result p stop xs out' in
    bind_result (p x) (λ b. if b then (if leb stop (length out') then ok out' else more) else skip)
