-- ===== src/Rid/Models/TimeRange.antt =====
-- `AdjustTimeRange` of an ISA and of a subscription. Both read only the volume of the stored one.
pub mod Laws
mod Tests
use dss.Prelude.{ℕ, ◌+◌, ◌-◌, ◌*◌, ltb, Option, none, some, if◌then◌else◌}
use dss.Exec.{Result, ok, err, coded, bad_request, panic, deref, bind_result}
use dss.External.{Time}
use dss.Models.{CellsVolume4D}
use dss.Rid.Models.{Isa, Subscription}

abbrev pub max_clock_skew : ℕ
max_clock_skew = 5 * (60 * 1000000000)

abbrev pub max_subscription_duration : ℕ
max_subscription_duration = 24 * (60 * (60 * 1000000000))

-- The start time: that of the request, if it is not too far in the past, or a default.
unfoldable pub requested_start : Time → Option Time → Option CellsVolume4D → Result (Option Time)
requested_start now none none = ok (some now)
requested_start now none (some old) = ok old.start_time
requested_start now (some t) old =
    if ltb max_clock_skew (now - t) then err (coded bad_request) else ok (some t)

-- The end time of the request, or the stored one.
unfoldable pub requested_end : Option Time → Option CellsVolume4D → Option Time
requested_end (some t) old = some t
requested_end none (some old) = old.end_time
requested_end none none = none

abbrev pub with_range : CellsVolume4D → Time → Time → CellsVolume4D
with_range v start end = record v { start_time = some start; end_time = some end }

-- The checks of an ISA's times, of which the start is read only if there is an end.
unfoldable pub isa_range : CellsVolume4D → Option Time → Option Time → Result CellsVolume4D
isa_range v start none = err (coded bad_request)
isa_range v none (some end) = err panic
isa_range v (some start) (some end) =
    if ltb end start then err (coded bad_request) else ok (with_range v start end)

-- `IdentificationServiceArea.AdjustTimeRange`
unfoldable pub adjust_isa : Time → Isa → Option CellsVolume4D → Result Isa
adjust_isa now isa old = bind_result (requested_start now isa.start_time old) (λ start.
    bind_result (isa_range isa.volume start (requested_end isa.end_time old))
      (λ v. ok (record isa { volume = v })))

unfoldable pub default_end : Time → Option Time → Time
default_end start (some t) = t
default_end start none = start + max_subscription_duration

unfoldable pub subscription_range : CellsVolume4D → Time → Time → Result CellsVolume4D
subscription_range v start end =
    if ltb end start
    then err (coded bad_request)
    else if ltb max_subscription_duration (end - start)
    then err (coded bad_request)
    else ok (with_range v start end)

-- `Subscription.AdjustTimeRange`; the start is read in any case.
unfoldable pub adjust_subscription :
    Time → Subscription → Option CellsVolume4D → Result Subscription
adjust_subscription now sub old =
    bind_result (requested_start now sub.start_time old) (λ maybe_start.
      bind_result (deref maybe_start) (λ start.
        bind_result
          (subscription_range sub.volume start (default_end start (requested_end sub.end_time old)))
          (λ v. ok (record sub { volume = v }))))
