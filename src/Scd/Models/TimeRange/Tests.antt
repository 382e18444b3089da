-- ===== src/Scd/Models/TimeRange/Tests.antt =====
-- A subscription without an end time ends after 24 hours.
use dss.Prelude.{◌≡◌, refl, none, some, true, false, []}
use dss.Exec.{ok}
use dss.Scd.Models.Defs.{Subscription}
use dss.Scd.Models.TimeRange.{
  adjusted_start, requested_end, adjusted_end, with_times, adjust_time_range,
}
use dss.Scd.Models.TimeRange.Laws.{IsAdjusted, adjust-IsAdjusted}

abbrev open_ended : Subscription
open_ended = record {
  id = "j";
  version = "";
  notification_index = 0;
  manager = "uss1";
  uss_base_url = "https://uss1";
  notify_for_operational_intents = true;
  notify_for_constraints = false;
  implicit_subscription = false;
  volume = record {
    cells = [];
    start_time = some 10;
    end_time = none;
    altitude_lo = none;
    altitude_hi = none;
  };
}

abbrev day_long : Subscription
day_long = record open_ended {
  volume = record open_ended.volume { start_time = some 10; end_time = some 86400000000010 };
}

adjusted : adjust_time_range 11 open_ended none ≡ ok day_long
unfolding adjusted_start requested_end adjusted_end with_times adjust_time_range
adjusted = refl

adjust-IsAdjusted_example : IsAdjusted 11 open_ended none day_long
adjust-IsAdjusted_example = adjust-IsAdjusted 11 open_ended none day_long adjusted
