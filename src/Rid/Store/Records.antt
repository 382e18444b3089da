-- ===== src/Rid/Store/Records.antt =====
-- store.go: the state, its records, and the checks that both tables share.
use dss.Prelude.{
  ℕ, String, Bool, Option, none, some, List, [], ◌∷◌, ◌++◌, ◌&&◌, not, ltb, nat_eq, any, length,
  if◌then◌else◌,
}
use dss.GoMap
use dss.GoMap.{GoMap}
use dss.Exec.{Result, ok, err, uncoded, bind_result}
use dss.External.{External, CellUnion, Time}
use dss.Models.{Altitude, after, before, validate_cell}
use dss.Models.Version.{Version, version_from_time, matches}
use dss.Rid.Models.{EntityId, Owner}

pub record IsaRecord : Type 0 where
  pub id : EntityId
  pub url : String
  pub owner : Owner
  pub cells : CellUnion
  pub start_time : Time
  pub end_time : Time
  pub altitude_hi : Option Altitude
  pub altitude_lo : Option Altitude
  pub writer : String
  pub updated_at : Time

pub record SubscriptionRecord : Type 0 where
  pub id : EntityId
  pub url : String
  pub notification_index : ℕ
  pub owner : Owner
  pub cells : CellUnion
  pub start_time : Time
  pub end_time : Time
  pub altitude_hi : Option Altitude
  pub altitude_lo : Option Altitude
  pub writer : String
  pub updated_at : Time

pub record State : Type 0 where
  pub isas : GoMap IsaRecord
  pub subscriptions : GoMap SubscriptionRecord

-- `resetState`
abbrev pub initial_state : State
initial_state = record { isas = []; subscriptions = [] }

-- `cellSet`: the set of the cells, as a list.
abbrev pub cell_set : CellUnion → List ℕ
cell_set cells = cells

-- `overlaps`
unfoldable pub overlaps : CellUnion → List ℕ → Bool
overlaps cells set = any (λ c. any (nat_eq c) set) cells

-- The loop of `validateWriteData`.
unfoldable pub validate_cells : External → CellUnion → Result (Unit {0})
validate_cells ext [] = ok tt
validate_cells ext (c ∷ cells) =
    let rest = validate_cells ext cells in bind_result (validate_cell ext c) (λ _. rest)

unfoldable pub validate_times : Option Time → Option Time → Result (Unit {0})
validate_times none end = err uncoded
validate_times (some start) none = err uncoded
validate_times (some start) (some end) = if not (before start end) then err uncoded else ok tt

-- `validateWriteData`
unfoldable pub validate_write_data :
    External → CellUnion → Option Time → Option Time → Result (Unit {0})
validate_write_data ext [] start end = err uncoded
validate_write_data ext (c ∷ cells) start end =
    bind_result (validate_cells ext (c ∷ cells)) (λ _. validate_times start end)

-- `findForWrite`, with the time that a record's `version` is made of.
unfoldable pub find_for_write {ℓ} :
    {R : Type ℓ} → (R → Time) → GoMap R → EntityId → Option Version → Option R
find_for_write updated_at store id want = elim (GoMap.get store id) [
  | none ↦ none
  | some rec ↦
      if not (matches (some (version_from_time (updated_at rec))) want) then none else some rec
]

-- `listExpired`, with the records' `endTime`. A limit of 0 means unlimited.
unfoldable pub list_expired {ℓ} :
    {R : Type ℓ} → (R → Time) → GoMap R → Time → ℕ → List EntityId → List EntityId
list_expired end_time [] threshold limit out = out
list_expired end_time ((id, rec) ∷ rest) threshold limit out =
    let out' = out ++ id ∷ [] in
    let skip = list_expired end_time rest threshold limit out in
    let more = list_expired end_time rest threshold limit out' in
    if after (end_time rec) threshold
    then skip
    else (if ltb 0 limit && ltb limit (length out') then out' else more)
