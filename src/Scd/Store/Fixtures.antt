-- ===== src/Scd/Store/Fixtures.antt =====
-- A small store for the tests: `uss2` holds the operational intent `b`.
use dss.Prelude.{
  String, ◌≡◌, refl, inl, inr, none, some, [], ◌∷◌, arith, length-filter-le, subst, ◌==◌, eq_iff,
  Bool-cases,
}
use dss.GoMap
use dss.Models.{CellsVolume4D}
use dss.Scd.Store.Records.{State, OperationalIntentRecord, initial_state}
use dss.Scd.Store.Valid.{IsValid, HasBounds, IsAttached}
use dss.Scd.Store.OperationalIntents.Search.{IsWithinLimit, matches}

abbrev pub volume_b : CellsVolume4D
volume_b = record {
  cells = 1 ∷ 2 ∷ [];
  start_time = some 10;
  end_time = some 20;
  altitude_lo = some 0;
  altitude_hi = some 100;
}

abbrev pub volume_a : CellsVolume4D
volume_a = record {
  cells = 2 ∷ 3 ∷ [];
  start_time = some 15;
  end_time = some 25;
  altitude_lo = some 50;
  altitude_hi = some 60;
}

abbrev pub rec_b : OperationalIntentRecord
rec_b = record {
  id = "b";
  manager = "uss2";
  version = 1;
  state = "Accepted";
  uss_base_url = "https://uss2";
  subscription_id = none;
  uss_requested_ovn = "";
  past_ovns = [];
  updated_at = 1;
  volume = volume_b;
}

abbrev pub s0 : State
s0 = record initial_state { operational_intents = ("b", rec_b) ∷ [] }

-- The only entry of a map.
pub one :
    {V : Type 0} (k j : String) (v w : V) → GoMap.get ((k, v) ∷ []) j ≡ some w → (k ≡ j) × (v ≡ w)
unfolding GoMap.get
one k j v w e = elim (Bool-cases (k == j)) [
  | inl q ↦ ((eq_iff k j).0 q, ground arith)
  | inr q ↦ cc (rw q at e)
]

pub rec_b-HasBounds : HasBounds volume_b
rec_b-HasBounds = record {
  start = 10;
  end = 20;
  lo = 0;
  hi = 100;
  start_eq = refl;
  end_eq = refl;
  lo_eq = refl;
  hi_eq = refl;
}

pub s0-IsValid : IsValid s0
unfolding GoMap.get
s0-IsValid = record {
  distinct_oirs = (refl, tt);
  distinct_subs = tt;
  distinct_constraints = tt;
  distinct_availabilities = tt;
  availability_usses = λ m rec e. absurd (ground arith);
  oir_ids = λ id rec e. let (k, r) = one "b" id rec_b rec e in subst (λ x. x.id ≡ id) r k;
  oir_bounds = λ id rec e.
      let (k, r) = one "b" id rec_b rec e in subst (λ x. HasBounds x.volume) r rec_b-HasBounds;
  sub_ids = λ id rec e. cc;
  constraint_ids = λ id rec e. cc;
  constraint_times = λ id rec e. absurd (ground arith);
}

pub s0-IsAttached : IsAttached s0
s0-IsAttached = record {
  at = λ id rec sub e d. let (k, r) = one "b" id rec_b rec e in absurd (ground (arith, d, r));
}

pub small : IsWithinLimit volume_a s0
small = omega (arith, length-filter-le (matches volume_a) (rec_b ∷ []))
