-- ===== src/Models/Union/Covers.antt =====
-- What the union's bounds and cells are, from its volumes'.
use mathlib.Core.List.{Memᴰ}
use dss.Prelude.{
  ℕ, ◌≡◌, refl, ◌∙◌, ◌≤◌, ◌<◌, Bool, true, false, Option, none, some, List, [], ◌∷◌, ◌++◌, map, ltb,
  arith, mem-map,
}
use dss.External.{External, Time}
use dss.Models.Volume.{CellsVolume4D, Altitude, after, before, time_p, zero_time}
use dss.Models.Union.Loop.{Acc, step, loop, union_cells_volumes_4d}
use mathlib.Core.List.{append-nil, append_assoc}
use dss.Models.Union.Block.{run, Covers, Copies, AllCopies, run-Covers_mem}

-- An upper bound of which nil is "none" is no tighter than the other.
abbrev pub IsUpper : Option ℕ → Option ℕ → Type 0
IsUpper none inner = Unit
IsUpper (some b) none = ⊥
IsUpper (some b) (some a) = a ≤ b

abbrev pub IsLower : Option ℕ → Option ℕ → Type 0
IsLower none inner = Unit
IsLower (some b) none = ⊥
IsLower (some b) (some a) = b ≤ a

-- The bounds of `outer` hold those of `inner`.
pub record HoldsBounds (outer inner : CellsVolume4D) : Type 0 where
  pub end_time : IsUpper outer.end_time inner.end_time
  pub start_time : IsLower outer.start_time inner.start_time
  pub altitude_lo : IsLower outer.altitude_lo inner.altitude_lo
  pub altitude_hi : IsUpper outer.altitude_hi inner.altitude_hi

abbrev pub IsNonzero : Option Time → Type 0
IsNonzero none = Unit
IsNonzero (some t) = zero_time < t

-- No time of the volumes is Go's zero time, which `timeP` takes for "no time".
abbrev pub HaveNonzeroTimes : List CellsVolume4D → Type 0
HaveNonzeroTimes [] = Unit
HaveNonzeroTimes (v ∷ vs) = IsNonzero v.start_time × IsNonzero v.end_time × HaveNonzeroTimes vs

abbrev AtLeast : ℕ → ℕ → Type 0
AtLeast b a = a ≤ b

abbrev AtMost : ℕ → ℕ → Type 0
AtMost b a = b ≤ a

abbrev pub above : ℕ → ℕ → Bool
above a b = ltb b a

-- The loop runs its four blocks side by side, and gathers the cells.
module _ where
  pub loop-end_time :
      (vs : List CellsVolume4D) (acc : Acc)
      → (loop acc vs).end_time
        ≡ (run after time_p (map (λ v. v.end_time) vs) acc.unbounded_end acc.end_time).1
  unfolding loop run step
  loop-end_time [] acc = refl
  loop-end_time (v ∷ vs) acc = loop-end_time vs (step acc v)

  pub loop-start_time :
      (vs : List CellsVolume4D) (acc : Acc)
      → (loop acc vs).start_time
        ≡ (run before time_p (map (λ v. v.start_time) vs) acc.unbounded_start acc.start_time).1
  unfolding loop run step
  loop-start_time [] acc = refl
  loop-start_time (v ∷ vs) acc = loop-start_time vs (step acc v)

  pub loop-altitude_lo :
      (vs : List CellsVolume4D) (acc : Acc)
      → (loop acc vs).altitude_lo
        ≡ (run ltb some (map (λ v. v.altitude_lo) vs) acc.unbounded_lo acc.altitude_lo).1
  unfolding loop run step
  loop-altitude_lo [] acc = refl
  loop-altitude_lo (v ∷ vs) acc = loop-altitude_lo vs (step acc v)

  pub loop-altitude_hi :
      (vs : List CellsVolume4D) (acc : Acc)
      → (loop acc vs).altitude_hi
        ≡ (run above some (map (λ v. v.altitude_hi) vs) acc.unbounded_hi acc.altitude_hi).1
  unfolding loop run step
  loop-altitude_hi [] acc = refl
  loop-altitude_hi (v ∷ vs) acc = loop-altitude_hi vs (step acc v)

  pub loop-cell_unions :
      (vs : List CellsVolume4D) (acc : Acc)
      → (loop acc vs).cell_unions ≡ acc.cell_unions ++ map (λ v. v.cells) vs
  unfolding loop step
  loop-cell_unions [] acc = rw append-nil
  loop-cell_unions (v ∷ vs) acc =
      loop-cell_unions vs (step acc v)
      ∙ append_assoc acc.cell_unions (v.cells ∷ []) (map (λ w. w.cells) vs)

-- A copy by `timeP` keeps what is not the zero time.
time_p-Copies : (t : Option Time) → IsNonzero t → Copies time_p t
unfolding time_p
time_p-Copies none h = tt
time_p-Copies (some t) h = ground arith

pub ends_copied :
    (vs : List CellsVolume4D) → HaveNonzeroTimes vs → AllCopies time_p (map (λ v. v.end_time) vs)
ends_copied [] h = tt
ends_copied (v ∷ vs) h = (time_p-Copies v.end_time h.1, ends_copied vs h.2)

pub starts_copied :
    (vs : List CellsVolume4D) → HaveNonzeroTimes vs → AllCopies time_p (map (λ v. v.start_time) vs)
starts_copied [] h = tt
starts_copied (v ∷ vs) h = (time_p-Copies v.start_time h.0, starts_copied vs h.2)

pub all_copied : (xs : List (Option Altitude)) → AllCopies some xs
all_copied [] = tt
all_copied (none ∷ xs) = (tt, all_copied xs)
all_copied (some a ∷ xs) = (refl, all_copied xs)

IsUpper-covers :
    (beats : ℕ → ℕ → Bool) (copy : ℕ → Option ℕ) (xs : List (Option ℕ)) (x : Option ℕ)
    → ((b r a : ℕ) → beats b r ≡ true → a ≤ r → a ≤ b)
    → ((b r : ℕ) → beats b r ≡ false → b ≤ r)
    → AllCopies copy xs
    → Memᴰ x xs
    → IsUpper (run beats copy xs false none).1 x
IsUpper-covers beats copy xs x w l c m =
    upper (run beats copy xs false none) x
      (run-Covers_mem AtLeast beats (λ b. omega arith) w l copy xs false none x c tt m)
  where
    upper : (p : Bool × Option ℕ) (y : Option ℕ) → Covers AtLeast p.0 p.1 y → IsUpper p.1 y
    upper (u, none) y h = tt
    upper (true, some b) y h = absurd h
    upper (false, some b) none h = h
    upper (false, some b) (some a) h = h

IsLower-covers :
    (beats : ℕ → ℕ → Bool) (copy : ℕ → Option ℕ) (xs : List (Option ℕ)) (x : Option ℕ)
    → ((b r a : ℕ) → beats b r ≡ true → r ≤ a → b ≤ a)
    → ((b r : ℕ) → beats b r ≡ false → r ≤ b)
    → AllCopies copy xs
    → Memᴰ x xs
    → IsLower (run beats copy xs false none).1 x
IsLower-covers beats copy xs x w l c m =
    lower (run beats copy xs false none) x
      (run-Covers_mem AtMost beats (λ b. omega arith) w l copy xs false none x c tt m)
  where
    lower : (p : Bool × Option ℕ) (y : Option ℕ) → Covers AtMost p.0 p.1 y → IsLower p.1 y
    lower (u, none) y h = tt
    lower (true, some b) y h = absurd h
    lower (false, some b) none h = h
    lower (false, some b) (some a) h = h

module _ (ext : External) where
  -- The bounds of the union hold those of every volume in it, if no time is the zero time.
  pub union-HoldsBounds :
      (vs : List CellsVolume4D) (v : CellsVolume4D)
      → HaveNonzeroTimes vs
      → Memᴰ v vs
      → HoldsBounds (union_cells_volumes_4d ext vs) v
  unfolding union_cells_volumes_4d
  union-HoldsBounds vs v h m = record {
    end_time = rw loop-end_time (
        IsUpper-covers after time_p _ v.end_time (λ b r a w q. ground arith) (λ b r q. ground arith)
          (ends_copied vs h) (mem-map (λ w. w.end_time) vs m));
    start_time = rw loop-start_time (
        IsLower-covers before time_p _ v.start_time (λ b r a w q. ground arith)
          (λ b r q. ground arith) (starts_copied vs h) (mem-map (λ w. w.start_time) vs m));
    altitude_lo = rw loop-altitude_lo (
        IsLower-covers ltb some _ v.altitude_lo (λ b r a w q. ground arith) (λ b r q. ground arith)
          (all_copied _) (mem-map (λ w. w.altitude_lo) vs m));
    altitude_hi = rw loop-altitude_hi (
        IsUpper-covers above some _ v.altitude_hi (λ b r a w q. ground arith)
          (λ b r q. ground arith) (all_copied _) (mem-map (λ w. w.altitude_hi) vs m));
  }
