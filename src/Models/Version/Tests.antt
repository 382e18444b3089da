-- ===== src/Models/Version/Tests.antt =====
-- A version, its text, and texts that are no versions.
use dss.Prelude.{◌≡◌, refl, ◌+◌, arith}
use dss.Exec.{ok, err, uncoded}
use dss.Models.Version.{
  unix_epoch, unix_nanos, digit, digits, format_uint, digit_value, scan, parse_digits, parse_signed,
  nanos_of, version_of_nanos, version_from_string, version_from_time,
}
use dss.Models.Version.RoundTrip.{IsUnixTime, version_from_string-version_from_time}
use dss.External.{Time}

abbrev night : Time
night = unix_epoch + 1700000000000000000

version_text : (version_from_time night).s ≡ "1f5ssvor2k000"
unfolding version_from_time unix_nanos format_uint digits digit
version_text = refl

minus_zero : version_from_string "-0" ≡ ok (record { t = unix_epoch; s = "-0" })
unfolding digit_value scan parse_digits parse_signed nanos_of version_of_nanos version_from_string
minus_zero = refl

too_large : version_from_string "8000000000000" ≡ err uncoded
unfolding digit_value scan parse_digits parse_signed nanos_of version_of_nanos version_from_string
too_large = refl

no_version : version_from_string "" ≡ err uncoded
unfolding version_from_string
no_version = refl

night-IsUnixTime : IsUnixTime night
night-IsUnixTime = omega arith

version_from_string-version_from_time_example :
    version_from_string (version_from_time night).s ≡ ok (version_from_time night)
version_from_string-version_from_time_example =
    version_from_string-version_from_time night night-IsUnixTime
