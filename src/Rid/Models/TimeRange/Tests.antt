-- ===== src/Rid/Models/TimeRange/Tests.antt =====
-- Times that an adjustment fills in, and times that it refuses.
use dss.Prelude.{◌≡◌, refl, none, some, [], ◌∷◌}
use dss.Exec.{ok, err, coded, bad_request}
use dss.Models.{CellsVolume4D}
use dss.Rid.Models.{Isa}
use dss.Rid.Models.TimeRange.{requested_start, requested_end, isa_range, adjust_isa}

abbrev area : CellsVolume4D
area = record {
  cells = 1 ∷ 2 ∷ [];
  start_time = none;
  end_time = none;
  altitude_lo = none;
  altitude_hi = none;
}

abbrev isa : Isa
isa = record {
  id = "f";
  url = "https://uss1";
  owner = "uss1";
  version = none;
  writer = "w";
  volume = area;
}

no_end : adjust_isa 10 isa none ≡ err (coded bad_request)
unfolding requested_start requested_end isa_range adjust_isa
no_end = refl

stored_times :
    adjust_isa 10 isa (some (record area { start_time = some 5; end_time = some 20 }))
    ≡ ok (record isa { volume = record area { start_time = some 5; end_time = some 20 } })
unfolding requested_start requested_end isa_range adjust_isa
stored_times = refl
