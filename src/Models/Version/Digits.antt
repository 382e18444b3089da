-- ===== src/Models/Version/Digits.antt =====
-- The digits of a number spell it.
use Prim.Native.Char.{code}
use Prim.Native.String.{◌∷◌ as char_cons, [] as empty}
use dss.Prelude.{
  ℕ, zero, suc, ◌+◌, ◌*◌, ◌/◌, ◌%◌, ◌^◌, ◌<◌, ◌≡◌, refl, ap, ◌∙◌, inl, inr, String, Bool, true,
  false, some, none, ◌&&◌, not, nat_eq, arith, Bool-cases,
}
use dss.Models.Version.{
  version_base, digit, digits, digit_value, scan, parse_digits, parse_signed, format_uint,
}

-- Every digit up to the last one passes the test, which is evaluated.
passes : (ℕ → Bool) → ℕ → Bool
passes test zero = test 0
passes test (suc last) = test (suc last) && passes test last

digit-passes :
    (test : ℕ → Bool) (last : ℕ) → passes test last ≡ true → (d : ℕ) → d < suc last → test d ≡ true
unfolding passes
digit-passes test zero h d small = let none_left : d ≡ 0 = omega arith in rw none_left h
digit-passes test (suc last) h d small = elim (Bool-cases (nat_eq d (suc last))) [
  | inl e ↦ let top : d ≡ suc last = ground arith in rw top (ground arith)
  | inr e ↦ digit-passes test last (ground arith) d (ground arith)
]

spells : ℕ → Bool
unfolding digit_value digit
spells d = elim (digit_value (digit d)) [ none ↦ false | some e ↦ nat_eq e d ]

spells_all : passes spells 31 ≡ true
unfolding passes spells
spells_all = refl

unsigned : ℕ → Bool
unfolding digit
unsigned d = not (nat_eq (code (digit d)) b'+') && not (nat_eq (code (digit d)) b'-')

unsigned_all : passes unsigned 31 ≡ true
unfolding passes unsigned
unsigned_all = refl

digit_value-digit : (d : ℕ) → d < 32 → digit_value (digit d) ≡ some d
unfolding spells
digit_value-digit d h = let e = digit-passes spells 31 spells_all d h in ground arith

-- The numbers that `f` digits can spell.
abbrev capacity : ℕ → ℕ
capacity zero = 1
capacity (suc f) = version_base * capacity f

scan-digit :
    (n : ℕ) (out : String)
    → scan (char_cons (digit (n % version_base)) out) (n / version_base) ≡ scan out n
unfolding scan
scan-digit n out =
    rw (scan, digit_value-digit (n % version_base) (omega arith)) (ap (scan out) (whole n))
  where
    whole : (n : ℕ) → n / version_base * version_base + n % version_base ≡ n
    whole n = omega arith

scan-digits : (f n : ℕ) (out : String) → n < capacity f → scan (digits f n out) 0 ≡ scan out n
unfolding digits
scan-digits zero n out h = ap (scan out) (omega arith)
scan-digits (suc f) n out h = elim (Bool-cases (nat_eq n 0)) [
  | inl e ↦ rw e (ap (scan out) (ground arith))
  | inr e ↦ rw e (scan-digits f (n / version_base) _ (omega arith) ∙ scan-digit n out)
]

-- A text that begins with a digit.
record HasDigit (s : String) : Type 0 where
  d : ℕ
  rest : String
  small : d < 32
  is_head : s ≡ char_cons (digit d) rest

digits-HasDigit : (f n : ℕ) (out : String) → HasDigit out → HasDigit (digits f n out)
unfolding digits
digits-HasDigit zero n out h = h
digits-HasDigit (suc f) n out h = elim (Bool-cases (nat_eq n 0)) [
  | inl e ↦ rw e h
  | inr e ↦ rw e (
      digits-HasDigit f (n / version_base) _
        (record { d = n % version_base; rest = out; small = omega arith; is_head = refl }))
]

digit-is_unsigned :
    (d : ℕ)
    → d < 32
    → (nat_eq (code (digit d)) b'+' ≡ false) × (nat_eq (code (digit d)) b'-' ≡ false)
unfolding unsigned
digit-is_unsigned d h = let e = digit-passes unsigned 31 unsigned_all d h in ground arith

parse_signed-digits : (s : String) → HasDigit s → parse_signed s ≡ (false, scan s 0)
unfolding parse_signed parse_digits
parse_signed-digits s h =
    let (a, b) = digit-is_unsigned h.d h.small in rw h.is_head (rw (a, b) refl)

zero_text : parse_signed "0" ≡ (false, some 0)
unfolding parse_signed parse_digits scan digit_value
zero_text = refl

positive-HasDigit : (f n : ℕ) → nat_eq n 0 ≡ false → HasDigit (digits (suc f) n empty)
unfolding digits
positive-HasDigit f n h = rw h (
    digits-HasDigit f (n / version_base) _
      (record { d = n % version_base; rest = empty; small = omega arith; is_head = refl }))

parse-digits :
    (f n : ℕ)
    → nat_eq n 0 ≡ false
    → n < capacity (suc f)
    → parse_signed (digits (suc f) n empty) ≡ (false, some n)
unfolding scan
parse-digits f n e h =
    parse_signed-digits _ (positive-HasDigit f n e)
    ∙ ap (λ r. (false, r)) (scan-digits (suc f) n empty h)

pub parse-format : (n : ℕ) → n < 2 ^ 64 → parse_signed (format_uint n) ≡ (false, some n)
unfolding format_uint
parse-format n h = elim (Bool-cases (nat_eq n 0)) [
  | inl e ↦ rw e (zero_text ∙ ap (λ k. (false, some k)) (ground arith))
  | inr e ↦ rw e (parse-digits 12 n e (omega arith))
]
