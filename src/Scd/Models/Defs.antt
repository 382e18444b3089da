-- ===== src/Scd/Models/Defs.antt =====
-- The types of pkg/scd/models, and the functions on them that the operations call.
use Prim.Native.Char.{Char, code}
use Prim.Native.String.{[] as empty, ◌∷◌ as char_cons, ◌++◌ as append}
use dss.Prelude.{
  ℕ, String, ◌+◌, ◌%◌, ◌^◌, Bool, true, false, Option, List, not, ◌||◌, ◌==◌, nat_eq, if◌then◌else◌,
}
use dss.External.{External, Time}
use dss.Models.{CellsVolume4D}

-- `dssmodels.ID`, `Manager` and `OVN` are texts.
abbrev pub EntityId : Type 0
EntityId = String

abbrev pub Manager : Type 0
Manager = String

abbrev pub Ovn : Type 0
Ovn = String

-- `VersionNumber` is an int32; the value is its bit pattern, below 2 ^ 32.
abbrev pub VersionNumber : Type 0
VersionNumber = ℕ

-- `v + 1` at int32.
unfoldable pub next_version : VersionNumber → VersionNumber
next_version v = (v + 1) % 2 ^ 32

abbrev pub no_ovn_phrase : Ovn
no_ovn_phrase = "Available from USS"

-- `OperationalIntentState`, a text too.
abbrev pub OperationalIntentState : Type 0
OperationalIntentState = String

abbrev pub accepted : OperationalIntentState
accepted = "Accepted"

abbrev pub activated : OperationalIntentState
activated = "Activated"

abbrev pub nonconforming : OperationalIntentState
nonconforming = "Nonconforming"

abbrev pub contingent : OperationalIntentState
contingent = "Contingent"

-- `RequiresSubscription`
unfoldable pub requires_subscription : OperationalIntentState → Bool
requires_subscription s = not (s == accepted)

-- `OperationalIntentState.RequiresKey`
unfoldable pub requires_key : OperationalIntentState → Bool
requires_key s = if s == nonconforming || s == contingent then false else true

-- `IsValidInDSS`
unfoldable pub is_valid_in_dss : OperationalIntentState → Bool
is_valid_in_dss s =
    if s == accepted || (s == activated || (s == nonconforming || s == contingent))
    then true
    else false

-- `RequiresCMSA`
unfoldable pub requires_cmsa : OperationalIntentState → Bool
requires_cmsa s = if s == nonconforming || s == contingent then true else false

abbrev pub UssAvailabilityState : Type 0
UssAvailabilityState = String

abbrev pub unknown : UssAvailabilityState
unknown = "Unknown"

abbrev pub normal : UssAvailabilityState
normal = "Normal"

abbrev pub down : UssAvailabilityState
down = "Down"

pub record UssAvailabilityStatus : Type 0 where
  pub uss : Manager
  pub availability : UssAvailabilityState
  pub version : Ovn

pub record OperationalIntent : Type 0 where
  pub id : EntityId
  pub manager : Manager
  pub uss_availability : UssAvailabilityState
  pub version : VersionNumber
  pub state : OperationalIntentState
  pub ovn : Ovn
  pub past_ovns : List Ovn
  pub uss_base_url : String
  pub subscription_id : Option EntityId
  pub volume : CellsVolume4D
  pub open volume use *

-- `OperationalIntent.RequiresKey`
unfoldable pub oi_requires_key : OperationalIntent → Bool
oi_requires_key o = not (o.uss_availability == down) || not (o.state == accepted)

pub record Subscription : Type 0 where
  pub id : EntityId
  pub version : Ovn
  pub notification_index : ℕ
  pub manager : Manager
  pub uss_base_url : String
  pub notify_for_operational_intents : Bool
  pub notify_for_constraints : Bool
  pub implicit_subscription : Bool
  pub volume : CellsVolume4D
  pub open volume use *

-- The source's field `UssAvailability` of a constraint is never set, and is left out.
pub record Constraint : Type 0 where
  pub id : EntityId
  pub manager : Manager
  pub version : VersionNumber
  pub ovn : Ovn
  pub uss_base_url : String
  pub volume : CellsVolume4D
  pub open volume use *

-- `strings.ReplaceAll(s, old, new)` for texts of one character.
unfoldable pub replace_all : String → Char → Char → String
replace_all empty old new = empty
replace_all (char_cons c s) old new =
    char_cons (if nat_eq (code c) (code old) then new else c) (replace_all s old new)

-- `NewOVNFromTime`
unfoldable pub new_ovn_from_time : External → Time → String → Ovn
unfolding replace_all
new_ovn_from_time ext t salt =
    replace_all
      (replace_all (replace_all (ext.digest (append salt (ext.format t))) "+" "-") "/" ".") "=" "_"
