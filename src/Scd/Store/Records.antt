-- ===== src/Scd/Store/Records.antt =====
-- store.go: the state, its records and the tests that the queries share. A stored pointer is a value
-- here: the source clones what it stores and what it hands out.
use dss.Prelude.{
  ℕ, String, Bool, false, Option, none, some, List, [], ◌∷◌, ◌&&◌, not, nat_eq, leb, any, length,
  ◌++◌, if◌then◌else◌,
}
use dss.GoMap.{GoMap}
use dss.Exec.{Result, ok, err, uncoded}
use dss.External.{CellUnion, Time}
use dss.Models.{CellsVolume4D, after, before}
use dss.Scd.Models.{
  EntityId, Manager, Ovn, VersionNumber, OperationalIntentState, UssAvailabilityState,
}

pub record ConstraintRecord : Type 0 where
  pub id : EntityId
  pub manager : Manager
  pub version : VersionNumber
  pub uss_base_url : String
  pub volume : CellsVolume4D
  pub updated_at : Time

pub record SubscriptionRecord : Type 0 where
  pub id : EntityId
  pub manager : Manager
  pub notification_index : ℕ
  pub uss_base_url : String
  pub notify_for_operational_intents : Bool
  pub notify_for_constraints : Bool
  pub implicit_subscription : Bool
  pub start_time : Time
  pub end_time : Time
  pub cells : CellUnion
  pub updated_at : Time

pub record OperationalIntentRecord : Type 0 where
  pub id : EntityId
  pub manager : Manager
  pub version : VersionNumber
  pub state : OperationalIntentState
  pub uss_base_url : String
  pub subscription_id : Option EntityId
  pub uss_requested_ovn : String
  pub past_ovns : List Ovn
  pub updated_at : Time
  pub volume : CellsVolume4D

pub record AvailabilityRecord : Type 0 where
  pub uss : Manager
  pub availability : UssAvailabilityState
  pub updated_at : Time

pub record State : Type 0 where
  pub constraints : GoMap ConstraintRecord
  pub subscriptions : GoMap SubscriptionRecord
  pub operational_intents : GoMap OperationalIntentRecord
  pub availabilities : GoMap AvailabilityRecord

-- `resetState`
abbrev pub initial_state : State
initial_state = record {
  constraints = [];
  subscriptions = [];
  operational_intents = [];
  availabilities = [];
}

-- `cellSet`: the set of the cells, as a list.
abbrev pub cell_set : CellUnion → List ℕ
cell_set cells = cells

-- `overlaps`
unfoldable pub overlaps : CellUnion → List ℕ → Bool
unfolding any
overlaps cells set = any (λ c. any (nat_eq c) set) cells

-- `overlapsTime`; nil bounds no side.
unfoldable pub overlaps_time : Time → Time → CellsVolume4D → Bool
overlaps_time start end v =
    not (elim v.end_time [ none ↦ false | some e ↦ after start e ])
    && not (elim v.start_time [ none ↦ false | some s ↦ before end s ])

-- `requireExtentTimes`
unfoldable pub require_extent_times : Option Time → Option Time → Result (Unit {0})
require_extent_times none end = err uncoded
require_extent_times (some s) none = err uncoded
require_extent_times (some s) (some e) = ok tt

-- `listExpired`, with the records' `endTime`. A limit of 0 means unlimited.
unfoldable pub list_expired {ℓ} : {R : Type ℓ} → (R → Time) → List R → Time → ℕ → List R → List R
list_expired end_time [] threshold limit out = out
list_expired end_time (rec ∷ rest) threshold limit out =
    let out' = out ++ rec ∷ [] in
    let skip = list_expired end_time rest threshold limit out in
    let more = list_expired end_time rest threshold limit out' in
    if after (end_time rec) threshold
    then skip
    else (if not (nat_eq limit 0) && leb limit (length out') then out' else more)
