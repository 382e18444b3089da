-- ===== src/Scd/Oir/Query.antt =====
-- `executeGetOperationalIntentReference` and `executeQueryOperationalIntentReferences`, from the
-- parsed id and area on.
pub mod Laws
mod Tests
use dss.Prelude.{List, map, Option, none, some, not, ◌==◌, if◌then◌else◌}
use dss.Exec.{coded, not_found, Exec, pure, raise, ◌>>=◌}
use dss.External.{External}
use dss.Models.{CellsVolume4D}
use dss.Scd.Models.{EntityId, Manager, no_ovn_phrase}
use dss.Scd.Models.Rest.{OperationalIntentReference, operational_intent_to_rest}
use dss.Scd.Store.Records.{State}
use dss.Scd.Store.OperationalIntents.{get_operational_intent, search_operational_intents}
use dss.Scd.Oir.Delete.{or_raise}
use dss.Scd.Oir.Key.{scrubbed}

module _ (ext : External) (manager : Manager) where
  -- `executeGetOperationalIntentReference`
  unfoldable pub get_operational_intent_reference : EntityId → Exec State OperationalIntentReference
  get_operational_intent_reference id = do
    found ← get_operational_intent ext id
    op ← or_raise found (raise (coded not_found))
    pure (
        operational_intent_to_rest ext
          (if not (op.manager == manager) then record op { ovn = no_ovn_phrase } else op))

  -- `executeQueryOperationalIntentReferences`
  unfoldable pub query_operational_intent_references :
      CellsVolume4D → Exec State (List OperationalIntentReference)
  query_operational_intent_references v = do
    ops ← search_operational_intents ext v
    pure (map (scrubbed ext manager) ops)
