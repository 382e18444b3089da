-- ===== src/Rid/Models.antt =====
-- pkg/rid/models: identification service areas (ISAs) and subscriptions.
pub mod TimeRange
use dss.Prelude.{ℕ, String, Option, ◌==◌, if◌then◌else◌}
use dss.Exec.{Result, ok, err, uncoded, bind_result}
use dss.Models.{CellsVolume4D}
use dss.Models.Version.{Version}

abbrev pub EntityId : Type 0
EntityId = String

abbrev pub Owner : Type 0
Owner = String

-- `IdentificationServiceArea`
pub record Isa : Type 0 where
  pub id : EntityId
  pub url : String
  pub owner : Owner
  pub version : Option Version
  pub writer : String
  pub volume : CellsVolume4D
  pub open volume use *

pub record Subscription : Type 0 where
  pub id : EntityId
  pub url : String
  pub notification_index : ℕ
  pub owner : Owner
  pub version : Option Version
  pub writer : String
  pub volume : CellsVolume4D
  pub open volume use *

-- `ValidateURL`; `scheme` is the scheme that `url.Parse` reads from the text, if it accepts it.
unfoldable pub validate_url : (String → Result String) → String → Result (Unit {0})
validate_url scheme s =
    bind_result (scheme s) (λ found. if found == "https" then ok tt else err uncoded)
