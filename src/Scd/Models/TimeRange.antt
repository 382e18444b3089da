-- ===== src/Scd/Models/TimeRange.antt =====
-- `AdjustTimeRange` of pkg/scd/models/subscriptions.go.
pub mod Laws
mod Tests
use dss.Prelude.{ℕ, ◌+◌, ◌-◌, ◌*◌, ltb, Option, none, some, if◌then◌else◌}
use dss.Exec.{Result, ok, err, coded, bad_request, deref, bind_result}
use dss.External.{Time}
use dss.Scd.Models.Defs.{Subscription}

abbrev pub minute : ℕ
minute = 60 * 1000000000

abbrev pub max_clock_skew : ℕ
max_clock_skew = 5 * minute

abbrev pub max_subscription_duration : ℕ
max_subscription_duration = 24 * (60 * minute)

-- The start time: that of the request, if it is not too far in the past, or a default.
unfoldable pub adjusted_start : Time → Option Time → Option Subscription → Result (Option Time)
adjusted_start now none none = ok (some now)
adjusted_start now none (some old) = ok old.start_time
adjusted_start now (some t) old =
    if ltb max_clock_skew (now - t) then err (coded bad_request) else ok (some t)

-- The end time of the request, or that of the existing subscription.
unfoldable pub requested_end : Option Time → Option Subscription → Option Time
requested_end (some t) old = some t
requested_end none (some old) = old.end_time
requested_end none none = none

unfoldable pub adjusted_end : Time → Option Time → Time
adjusted_end start (some t) = t
adjusted_end start none = start + max_subscription_duration

unfoldable pub with_times : Subscription → Time → Time → Result Subscription
with_times sub start end =
    if ltb end start
    then err (coded bad_request)
    else if ltb max_subscription_duration (end - start)
    then err (coded bad_request)
    else ok
        (record sub { volume = record sub.volume { start_time = some start; end_time = some end } })

-- A start time that is nil is read in any case, for the end time or by the checks.
unfoldable pub adjust_time_range : Time → Subscription → Option Subscription → Result Subscription
unfolding adjusted_start requested_end adjusted_end with_times
adjust_time_range now sub old = bind_result (adjusted_start now sub.start_time old) (λ maybe_start.
    bind_result (deref maybe_start)
      (λ start. with_times sub start (adjusted_end start (requested_end sub.end_time old))))
