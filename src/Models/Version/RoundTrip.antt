-- ===== src/Models/Version/RoundTrip.antt =====
-- A version is read back from its text, and two versions match when they were made at the same time.
use dss.Prelude.{
  ℕ, ◌+◌, ◌-◌, ◌^◌, ◌≤◌, ◌<◌, ◌≡◌, ◌↔◌, refl, sym, ap, ◌∙◌, inl, inr, Bool, true, false, Option,
  some, none, ◌==◌, arith, eq_iff, String-cases,
}
use dss.Exec.{ok}
use dss.External.{Time}
use dss.Models.Version.{
  unix_epoch, unix_nanos, format_uint, parse_signed, nanos_of, version_of_nanos,
  version_from_string, version_from_time, matches,
}
use dss.Models.Version.Digits.{parse-format}

-- The times whose nanoseconds since 1970 fit in an int64.
pub record IsUnixTime (t : Time) : Type 0 where
  pub after_epoch : unix_epoch ≤ t
  pub fits : t < unix_epoch + 2 ^ 63

unix_nanos_lem : (t : Time) → IsUnixTime t → unix_nanos t ≡ t - unix_epoch
unfolding unix_nanos
unix_nanos_lem t h = omega arith

format_injective : (m n : ℕ) → m < 2 ^ 64 → n < 2 ^ 64 → format_uint m ≡ format_uint n → m ≡ n
format_injective m n a b e =
    let p : (false, some m) ≡ (false, some n) =
      sym (parse-format m a) ∙ ap parse_signed e ∙ parse-format n b in
    cc p

empty_lem : parse_signed "" ≡ (false, none)
unfolding parse_signed
empty_lem = refl

format-ne-empty : (n : ℕ) → n < 2 ^ 64 → (format_uint n == "") ≡ false
format-ne-empty n h = elim (String-cases (format_uint n) "") [
  | inl e ↦ absurd (clash (sym (parse-format n h) ∙ ap parse_signed e ∙ empty_lem))
  | inr e ↦ e
]
  where
    clash : Path (Bool × Option ℕ) (false, some n) (false, none) → ⊥
    clash p = cc p

nanos_of_lem : (n : ℕ) → n < 2 ^ 63 → nanos_of (false, some n) ≡ ok n
unfolding nanos_of
nanos_of_lem n h = ground arith

-- The text of a version of a time from 1970 to 2262 is read back as that version, its time included.
pub version_from_string-version_from_time :
    (t : Time)
    → IsUnixTime t
    → version_from_string (version_from_time t).s ≡ ok (version_from_time t)
unfolding version_from_string version_from_time version_of_nanos
version_from_string-version_from_time t h =
    rw
      (
        unix_nanos_lem t h,
        format-ne-empty (t - unix_epoch) (omega arith),
        parse-format (t - unix_epoch) (omega arith),
        nanos_of_lem (t - unix_epoch) (omega arith),
      )
      (ap (λ x. ok (record { t = x; s = format_uint (t - unix_epoch) })) (whole t h.after_epoch))
  where
    whole : (t : Time) → unix_epoch ≤ t → unix_epoch + (t - unix_epoch) ≡ t
    whole t le = omega arith

-- Two versions of times from 1970 to 2262 match exactly when the times are equal.
pub matches-version_from_time :
    (t u : Time)
    → IsUnixTime t
    → IsUnixTime u
    → (matches (some (version_from_time t)) (some (version_from_time u)) ≡ true) ↔ (t ≡ u)
unfolding matches version_from_time
matches-version_from_time t u h k = (
  λ e.
      let q = (eq_iff (format_uint (unix_nanos t)) (format_uint (unix_nanos u))).0 e in
      let p =
        format_injective (t - unix_epoch) (u - unix_epoch) (omega arith) (omega arith)
          (rw (unix_nanos_lem t h, unix_nanos_lem u k) at q) in
      omega arith,
  λ e. (eq_iff _ _).1 (ap (λ x. format_uint (unix_nanos x)) e),
)
