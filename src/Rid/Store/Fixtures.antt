-- ===== src/Rid/Store/Fixtures.antt =====
-- Data for the tests: an ISA and a subscription of `uss1` and `uss2` that share a cell.
use dss.Prelude.{none, some, [], ◌∷◌, ◌+◌}
use dss.External.{Time}
use dss.Models.{CellsVolume4D}
use dss.Models.Version.{unix_epoch}
use dss.Rid.Models.{Isa, Subscription}

abbrev pub day : Time
day = 86400000000000

-- The present of the tests.
abbrev pub noon : Time
noon = unix_epoch + 1700000000000000000

abbrev pub area : CellsVolume4D
area = record {
  cells = 1 ∷ 2 ∷ [];
  start_time = some noon;
  end_time = some (noon + 1000);
  altitude_lo = none;
  altitude_hi = none;
}

abbrev pub isa_f : Isa
isa_f = record {
  id = "f";
  url = "https://uss1";
  owner = "uss1";
  version = none;
  writer = "w";
  volume = area;
}

abbrev pub sub_g : Subscription
sub_g = record {
  id = "g";
  url = "https://uss2";
  notification_index = 0;
  owner = "uss2";
  version = none;
  writer = "w";
  volume = record area { cells = 2 ∷ 3 ∷ [] };
}
