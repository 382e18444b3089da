-- ===== src/Models/Version.antt =====
-- `Version` of pkg/models/models.go: the time of the last write, as a text in base 32. The conversions
-- are those of Go's strconv, with the sign and the range of an int64.
pub mod Digits
pub mod RoundTrip
mod Tests
use Prim.Native.Char.{Char, code}
use Prim.Native.String.{[] as empty, ◌∷◌ as char_cons, char_at}
use dss.Prelude.{
  ℕ, zero, suc, ◌+◌, ◌-◌, ◌*◌, ◌/◌, ◌%◌, ◌^◌, String, Bool, true, false, Option, none, some, ◌&&◌,
  ◌==◌, ltb, leb, nat_eq, if◌then◌else◌,
}
use dss.Exec.{Result, ok, err, uncoded}
use dss.External.{Time}

pub record Version : Type 0 where
  pub t : Time
  pub s : String

abbrev pub version_base : ℕ
version_base = 32

-- 1970-01-01, in nanoseconds since year 1
abbrev pub unix_epoch : Time
unix_epoch = 62135596800 * 1000000000

-- `uint64(t.UnixNano())`
unfoldable pub unix_nanos : Time → ℕ
unix_nanos t = (t + 4 * 2 ^ 64 - unix_epoch) % 2 ^ 64

abbrev pub digit_table : String
digit_table = "0123456789abcdefghijklmnopqrstuv"

unfoldable pub digit : ℕ → Char
digit d = char_at digit_table d

-- The digits of `n` before `out`, of which a uint64 has 13 at most.
unfoldable pub digits : ℕ → ℕ → String → String
digits zero n out = out
digits (suc f) n out =
    let rest = digits f (n / version_base) (char_cons (digit (n % version_base)) out) in
    if nat_eq n 0 then out else rest

-- `strconv.FormatUint(n, 32)`
unfoldable pub format_uint : ℕ → String
format_uint n = if nat_eq n 0 then "0" else digits 13 n empty

-- The value of a digit, in lower or upper case.
unfoldable pub digit_value : Char → Option ℕ
digit_value c =
    if leb b'0' (code c) && leb (code c) b'9'
    then some (code c - b'0')
    else if leb b'a' (code c) && leb (code c) b'v'
    then some (code c - b'a' + 10)
    else if leb b'A' (code c) && leb (code c) b'V'
    then some (code c - b'A' + 10)
    else none

-- The number that the digits spell behind `n`.
unfoldable pub scan : String → ℕ → Option ℕ
scan empty n = some n
scan (char_cons c s) n = elim (digit_value c) [
  | none ↦ none
  | some d ↦ scan s (n * version_base + d)
]

unfoldable pub parse_digits : String → Option ℕ
parse_digits empty = none
parse_digits (char_cons c s) = scan (char_cons c s) 0

-- A text without its sign, if it is not negative.
unfoldable pub parse_signed : String → Bool × Option ℕ
parse_signed empty = (false, none)
parse_signed (char_cons c s) =
    if nat_eq (code c) b'+'
    then (false, parse_digits s)
    else if nat_eq (code c) b'-'
    then (true, parse_digits s)
    else (false, parse_digits (char_cons c s))

-- A number of nanoseconds that is not negative: `strconv.ParseInt(s, 32, 64)`, which refuses what does
-- not fit, and the test of its sign.
unfoldable pub nanos_of : Bool × Option ℕ → Result ℕ
nanos_of (negative, none) = err uncoded
nanos_of (true, some n) = if nat_eq n 0 then ok 0 else err uncoded
nanos_of (false, some n) = if ltb n (2 ^ 63) then ok n else err uncoded

-- `time.Unix(0, nanos)`
unfoldable pub version_of_nanos : String → Result ℕ → Result Version
version_of_nanos s (err e) = err e
version_of_nanos s (ok n) = ok (record { t = unix_epoch + n; s = s })

-- `VersionFromString`
unfoldable pub version_from_string : String → Result Version
version_from_string s =
    if s == "" then err uncoded else version_of_nanos s (nanos_of (parse_signed s))

-- `VersionFromTime`
unfoldable pub version_from_time : Time → Version
version_from_time t = record { t = t; s = format_uint (unix_nanos t) }

-- `Version.Matches`; nil matches nothing.
unfoldable pub matches : Option Version → Option Version → Bool
matches none w = false
matches (some v) none = false
matches (some v) (some w) = v.s == w.s
