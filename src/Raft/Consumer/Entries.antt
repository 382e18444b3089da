-- ===== src/Raft/Consumer/Entries.antt =====
-- What `entriesToApply` leaves of a stretch of the log.
use dss.Prelude.{
  ℕ, zero, suc, ◌+◌, ◌-◌, ◌%◌, ◌^◌, ◌≤◌, ◌<◌, ◌≡◌, refl, ap, ◌∙◌, ◌⊎◌, inl, inr, List, [], ◌∷◌, ltb,
  length, arith, Bool-cases, if◌then◌else◌,
}
use dss.Exec.{ok}
use dss.Raft.Consumer.{EntryData, Entry, drop, entries_to_apply, last_index}

-- The log of a group: what has been committed at an index, from 1 on.
abbrev pub Log : Type 0
Log = ℕ → EntryData

-- The entries of a stretch of the log, from an index on.
abbrev pub stretch : Log → ℕ → ℕ → List Entry
stretch log first zero = []
stretch log first (suc n) = record { index = first; data_ = log first } ∷ stretch log (suc first) n

length-stretch : (log : Log) (first n : ℕ) → length (stretch log first n) ≡ n
length-stretch log first zero = refl
length-stretch log first (suc n) = ap suc (length-stretch log (suc first) n)

same_stretch : (log : Log) (a b m n : ℕ) → a ≡ b → m ≡ n → stretch log a m ≡ stretch log b n
same_stretch log a b m n p q = ap (λ i. stretch log i m) p ∙ ap (stretch log b) q

drop-stretch :
    (log : Log) (k first n : ℕ) → drop k (stretch log first n) ≡ stretch log (first + k) (n - k)
unfolding drop
drop-stretch log zero first zero = refl
drop-stretch log zero first (suc n) =
    same_stretch log first (first + 0) (suc n) (suc n - 0) (omega arith) (omega arith)
drop-stretch log (suc k) first zero =
    same_stretch log (first + suc k) (first + suc k) 0 (0 - suc k) refl (omega arith)
drop-stretch log (suc k) first (suc n) =
    drop-stretch log k (suc first) n
    ∙ same_stretch log (suc first + k) (first + suc k) (n - k) (suc n - suc k) (omega arith)
        (omega arith)

pub last_index-stretch :
    (log : Log) (e : Entry) (first n : ℕ)
    → last_index e (stretch log (suc first) n) ≡ (if ltb 0 n then first + n else e.index)
unfolding last_index
last_index-stretch log e first zero = refl
last_index-stretch log e first (suc n) = last_index-stretch log _ (suc first) n ∙ ground arith

skip_lem :
    (applied first : ℕ)
    → first ≤ applied + 1
    → applied + 1 < 2 ^ 64
    → (applied + 1 + 2 ^ 64 - first) % 2 ^ 64 ≡ applied + 1 - first
skip_lem applied first near fits = omega arith

-- The entries after the applied index.
abbrev pub remaining : Log → ℕ → ℕ → ℕ → List Entry
remaining log applied first n = stretch log (suc applied) (first + n - (applied + 1))

remaining-none :
    (log : Log) (applied first n : ℕ) → first + n ≤ applied + 1 → remaining log applied first n ≡ []
remaining-none log applied first n h = ap (stretch log (suc applied)) {y = 0} (omega arith)

remaining-drop :
    (log : Log) (applied first n : ℕ)
    → first ≤ applied + 1
    → drop (applied + 1 - first) (stretch log first n) ≡ remaining log applied first n
remaining-drop log applied first n h =
    drop-stretch log (applied + 1 - first) first n
    ∙ ap (λ i. stretch log i (n - (applied + 1 - first))) {y = suc applied} (omega arith)
    ∙ ap (stretch log (suc applied)) (omega arith)

-- Of a stretch of the log, exactly the entries after the applied index are left, provided that it
-- does not begin after the next index.
pub entries_to_apply-stretch :
    (log : Log) (applied first n : ℕ)
    → applied + 1 < 2 ^ 64
    → (es : List Entry) → entries_to_apply applied (stretch log first n) ≡ ok es
    → ((n ≡ 0) × (es ≡ [])) ⊎ ((first ≤ applied + 1) × (es ≡ remaining log applied first n))
unfolding entries_to_apply
entries_to_apply-stretch log applied first zero fits es h = inl (refl, cc h)
entries_to_apply-stretch log applied first (suc n) fits es h =
    elim (Bool-cases (ltb ((applied + 1) % 2 ^ 64) first)) [
      | inl gap ↦ let x = rw gap at h in absurd (ground arith)
      | inr near ↦
          let x = rw near at h in
          let reach : first ≤ applied + 1 = ground arith in
          inr (reach, go reach (rw (skip_lem applied first reach fits) at x))
    ]
  where
    whole : List Entry
    whole = stretch log first (suc n)

    go :
        first ≤ applied + 1
        → (if ltb (applied + 1 - first) (length whole)
            then ok (drop (applied + 1 - first) whole)
            else ok [])
          ≡ ok es
        → es ≡ remaining log applied first (suc n)
    go near x = elim (Bool-cases (ltb (applied + 1 - first) (length whole))) [
      | inl more ↦ cc (rw more at x, remaining-drop log applied first (suc n) near)
      | inr late ↦
          let size = length-stretch log first (suc n) in
          cc (rw late at x, remaining-none log applied first (suc n) (ground (arith, size)))
    ]
