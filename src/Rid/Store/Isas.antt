-- ===== src/Rid/Store/Isas.antt =====
-- identification_service_area.go
pub mod Search
pub mod Writes
use dss.Prelude.{
  ℕ, suc, Bool, false, Option, none, some, List, [], ◌∷◌, ◌&&◌, not, map, collect, length, any,
  if◌then◌else◌,
}
use dss.GoMap
use dss.Exec.{
  Result, ok, err, coded, uncoded, bad_request, not_implemented, Exec, pure, raise, raise_if, lift,
  gets, bind_result, deref, ◌>>=◌, ◌>>◌,
}
use dss.External.{External, CellUnion, Time}
use dss.Models.{max_result_limit, after, before}
use dss.Models.Version.{version_from_time}
use dss.Rid.Models.{EntityId, Isa}
use dss.Rid.Store.Records.{
  State, IsaRecord, cell_set, overlaps, validate_write_data, find_for_write, list_expired,
}

-- `isaRecordFromModel`, which reads both times.
unfoldable pub isa_record_from_model : Isa → Time → Result IsaRecord
isa_record_from_model isa updated_at = bind_result (deref isa.start_time) (λ start.
    bind_result (deref isa.end_time) (λ end. ok (record {
      id = isa.id;
      url = isa.url;
      owner = isa.owner;
      cells = isa.cells;
      start_time = start;
      end_time = end;
      altitude_hi = isa.altitude_hi;
      altitude_lo = isa.altitude_lo;
      writer = isa.writer;
      updated_at = updated_at;
    })))

-- `isaRecord.toModel`
unfoldable pub isa_to_model : IsaRecord → Isa
isa_to_model rec = record {
  id = rec.id;
  url = rec.url;
  owner = rec.owner;
  version = some (version_from_time rec.updated_at);
  writer = rec.writer;
  volume = record {
    cells = rec.cells;
    start_time = some rec.start_time;
    end_time = some rec.end_time;
    altitude_lo = rec.altitude_lo;
    altitude_hi = rec.altitude_hi;
  };
}

-- `GetISA`
unfoldable pub get_isa : EntityId → Exec State (Option Isa)
get_isa id s = elim (GoMap.get s.isas id) [
  | none ↦ (ok none, s)
  | some rec ↦ (ok (some (isa_to_model rec)), s)
]

abbrev pub is_present {ℓ} : {A : Type ℓ} → Option A → Bool
is_present none = false
is_present (some a) = Bool.true

-- `r.state.ISAs[id] = rec`, and the model that is returned.
unfoldable pub put_isa : EntityId → IsaRecord → Exec State Isa
put_isa id rec s = (ok (isa_to_model rec), record s { isas = GoMap.set s.isas id rec })

-- `UpdateISA` from its second test on: the owner of the stored ISA stays.
unfoldable pub overwrite_isa : Time → Isa → Option IsaRecord → Exec State (Option Isa)
unfolding put_isa
overwrite_isa now isa none = pure none
overwrite_isa now isa (some prev) = do
  rec ← lift (isa_record_from_model isa now)
  stored ← put_isa isa.id (record rec { owner = prev.owner })
  pure (some stored)

module _ (ext : External) where
  -- `InsertISA`
  unfoldable pub insert_isa : Time → Isa → Exec State Isa
  insert_isa now isa = do
    lift (validate_write_data ext isa.cells isa.start_time isa.end_time)
    stored ← gets (λ (s : State). GoMap.get s.isas isa.id)
    raise_if (is_present stored) uncoded
    rec ← lift (isa_record_from_model isa now)
    put_isa isa.id rec

  -- `UpdateISA`
  unfoldable pub update_isa : Time → Isa → Exec State (Option Isa)
  update_isa now isa = do
    lift (validate_write_data ext isa.cells isa.start_time isa.end_time)
    prev ← gets (λ (s : State).
        find_for_write (λ (rec : IsaRecord). rec.updated_at) s.isas isa.id isa.version)
    overwrite_isa now isa prev

-- `DeleteISA`
unfoldable pub delete_isa : Isa → Exec State (Option Isa)
delete_isa isa s =
    elim (find_for_write (λ (rec : IsaRecord). rec.updated_at) s.isas isa.id isa.version) [
      | none ↦ (ok none, s)
      | some rec ↦ (ok (some (isa_to_model rec)), record s { isas = GoMap.delete s.isas isa.id })
    ]

-- The filters of `SearchISAs`.
unfoldable pub isa_matches : CellUnion → Time → Option Time → IsaRecord → Bool
unfolding overlaps
isa_matches cells earliest latest rec =
    not (before rec.end_time earliest)
    && not (elim latest [ none ↦ false | some t ↦ after rec.start_time t ])
    && overlaps rec.cells (cell_set cells)

-- `SearchISAs`, which stops when it has more than the limit.
unfoldable pub search_isas : CellUnion → Option Time → Option Time → Exec State (List Isa)
search_isas [] earliest latest = raise (coded bad_request)
search_isas (c ∷ cells) none latest = raise uncoded
search_isas (c ∷ cells) (some earliest) latest = gets (λ (s : State). map isa_to_model (
    collect (isa_matches (c ∷ cells) earliest latest) (suc max_result_limit) (GoMap.values s.isas)
      []))

-- `ListExpiredISAs`
unfoldable pub list_expired_isas : Time → Exec State (List EntityId)
list_expired_isas threshold = gets (λ (s : State).
    list_expired (λ (rec : IsaRecord). rec.end_time) s.isas threshold max_result_limit [])

-- `DeleteExpiredISAs`
unfoldable pub delete_expired_isas : Time → ℕ → Exec State (List EntityId)
delete_expired_isas threshold limit = raise (coded not_implemented)

-- `CountISAs`
unfoldable pub count_isas : Exec State ℕ
count_isas = gets (λ (s : State). length s.isas)
