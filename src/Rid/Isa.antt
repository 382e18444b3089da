-- ===== src/Rid/Isa.antt =====
-- pkg/rid/operations/isa.go, from the payloads on.
pub mod Access
pub mod Notified
pub mod Outcome
pub mod Quota
pub mod Effects
pub mod Laws
mod Tests
use dss.Prelude.{Bool, String, Option, none, some, List, [], ◌∷◌, not, ◌==◌, if◌then◌else◌}
use dss.Exec.{
  Result, ok, err, coded, bad_request, with_code, map_err, bind_result, already_exists, not_found,
  version_mismatch, permission_denied, Exec, pure, raise, raise_if, lift, ◌>>=◌, ◌>>◌,
}
use dss.External.{External, CellUnion, Time}
use dss.Models.{CellsVolume4D, levelify}
use dss.Models.Version.{Version, matches}
use dss.Rid.Models.{EntityId, Owner, Isa, Subscription, validate_url}
use dss.Rid.Models.TimeRange.{adjust_isa}
use dss.Rid.Store.Records.{State}
use dss.Rid.Store.Isas.{get_isa, insert_isa, update_isa, delete_isa, is_present}
use dss.Rid.Store.Subscriptions.{update_notification_idxs_in_cells}

-- The ISA is nil where the store returned nil.
pub record IsaResult : Type 0 where
  pub isa : Option Isa
  pub subscriptions : List Subscription

pub record DeleteIsaPayload : Type 0 where
  pub id : EntityId
  pub owner : Owner
  pub version : Option Version

abbrev pub or_raise : {A : Type 0} → Option A → Exec State A → Exec State A
or_raise none m = m
or_raise (some a) m = pure a

-- `newISA`, where `cells` is the result of `CalculateCovering` and `extents` gives the rest of the
-- volume; `scheme` is what `validate_url` takes.
unfoldable pub new_isa :
    EntityId
    → Owner
    → String
    → String
    → Option Version
    → CellsVolume4D
    → Result CellUnion
    → Bool
    → (String → Result String)
    → Result Isa
new_isa id owner url writer version extents cells allow_http scheme =
    bind_result
      (if allow_http then ok tt else map_err (with_code bad_request) (validate_url scheme url))
      (λ _. bind_result (map_err (with_code bad_request) cells) (λ covering. ok (record {
        id = id;
        url = url;
        owner = owner;
        version = version;
        writer = writer;
        volume = record extents { cells = covering };
      })))

-- The version and the owner of a request must be those of what is stored.
unfoldable pub check_access :
    Option Version → Owner → Option Version → Owner → Exec State (Unit {0})
check_access version owner old_version old_owner = do
  raise_if (not (matches version old_version)) (coded version_mismatch)
  raise_if (not (old_owner == owner)) (coded permission_denied)

abbrev pub volume_of : Option Isa → Option CellsVolume4D
volume_of none = none
volume_of (some isa) = some isa.volume

-- `executeDeleteISA`
unfoldable pub execute_delete_isa : Time → DeleteIsaPayload → Exec State IsaResult
unfolding check_access
execute_delete_isa now payload = do
  found ← get_isa payload.id
  old ← or_raise found (raise (coded not_found))
  check_access payload.version payload.owner old.version old.owner
  ret ← delete_isa old
  subs ← update_notification_idxs_in_cells now old.cells
  pure (record { isa = ret; subscriptions = subs })

module _ (ext : External) where
  -- `executeInsertISA`
  unfoldable pub execute_insert_isa : Time → Isa → Exec State IsaResult
  execute_insert_isa now requested = do
    isa ← lift (adjust_isa now requested none)
    old ← get_isa isa.id
    raise_if (is_present old) (coded already_exists)
    subs ← update_notification_idxs_in_cells now isa.cells
    ret ← insert_isa ext now isa
    pure (record { isa = some ret; subscriptions = subs })

  -- The cells of the two volumes, at one level.
  unfoldable pub notified_cells : CellUnion → CellUnion → CellUnion
  notified_cells old new = levelify ext (ext.cell_union_from_union (old ∷ new ∷ []))

  -- `executeUpdateISA`; the times are adjusted before the checks.
  unfoldable pub execute_update_isa : Time → Isa → Exec State IsaResult
  unfolding check_access notified_cells
  execute_update_isa now requested = do
    found ← get_isa requested.id
    isa ← lift (adjust_isa now requested (volume_of found))
    old ← or_raise found (raise (coded not_found))
    check_access isa.version isa.owner old.version old.owner
    subs ← update_notification_idxs_in_cells now (notified_cells old.cells isa.cells)
    ret ← update_isa ext now isa
    pure (record { isa = ret; subscriptions = subs })
