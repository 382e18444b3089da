-- ===== src/Scd/Store/Valid.antt =====
-- The states that the operations keep: each table holds a key once, a record stands under its own
-- id, an availability under its USS, and a stored operational intent or constraint has the bounds that the queries read.
use dss.Prelude.{◌≡◌, some}
use dss.GoMap
use dss.External.{Time}
use dss.Models.{CellsVolume4D, Altitude}
use dss.Scd.Models.{EntityId, Manager}
use dss.Scd.Store.Records.{
  State, OperationalIntentRecord, SubscriptionRecord, ConstraintRecord, AvailabilityRecord,
}

-- The volume has all four bounds, as `UpsertOperationalIntent` demands.
pub record HasBounds (v : CellsVolume4D) : Type 0 where
  pub start : Time
  pub end : Time
  pub lo : Altitude
  pub hi : Altitude
  pub start_eq : v.start_time ≡ some start
  pub end_eq : v.end_time ≡ some end
  pub lo_eq : v.altitude_lo ≡ some lo
  pub hi_eq : v.altitude_hi ≡ some hi

pub record HasTimes (v : CellsVolume4D) : Type 0 where
  pub start : Time
  pub end : Time
  pub start_eq : v.start_time ≡ some start
  pub end_eq : v.end_time ≡ some end

pub record IsValid (s : State) : Type 0 where
  pub distinct_oirs : GoMap.HasDistinctKeys s.operational_intents
  pub distinct_subs : GoMap.HasDistinctKeys s.subscriptions
  pub distinct_constraints : GoMap.HasDistinctKeys s.constraints
  pub distinct_availabilities : GoMap.HasDistinctKeys s.availabilities
  pub availability_usses :
      (uss : Manager) (rec : AvailabilityRecord)
      → GoMap.get s.availabilities uss ≡ some rec
      → rec.uss ≡ uss
  pub oir_ids :
      (id : EntityId) (rec : OperationalIntentRecord)
      → GoMap.get s.operational_intents id ≡ some rec
      → rec.id ≡ id
  pub oir_bounds :
      (id : EntityId) (rec : OperationalIntentRecord)
      → GoMap.get s.operational_intents id ≡ some rec
      → HasBounds rec.volume
  pub sub_ids :
      (id : EntityId) (rec : SubscriptionRecord)
      → GoMap.get s.subscriptions id ≡ some rec
      → rec.id ≡ id
  pub constraint_ids :
      (id : EntityId) (rec : ConstraintRecord) → GoMap.get s.constraints id ≡ some rec → rec.id ≡ id
  pub constraint_times :
      (id : EntityId) (rec : ConstraintRecord)
      → GoMap.get s.constraints id ≡ some rec
      → HasTimes rec.volume

-- Every operational intent with a subscription has one that is stored.
pub record IsAttached (s : State) : Type 0 where
  pub at :
      (id : EntityId) (rec : OperationalIntentRecord) (sub_id : EntityId)
      → GoMap.get s.operational_intents id ≡ some rec
      → rec.subscription_id ≡ some sub_id
      → (sub : SubscriptionRecord) × (GoMap.get s.subscriptions sub_id ≡ some sub)
