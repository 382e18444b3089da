-- ===== src/Rid/Store/Isas/Writes.antt =====
-- What the writes of the store come to: an error that leaves the state, or a stored record.
use dss.Prelude.{
  ◌≡◌, refl, sym, ◌∙◌, subst, ◌⊎◌, inl, inr, true, Option, none, some, arith, Option-cases,
}
use dss.GoMap
use dss.Exec.{ok, uncoded, deref}
use dss.Exec.Laws.{bind_result-ok, Result-cases}
use dss.Exec.Reads.{HasFailed}
use dss.External.{External, Time}
use dss.Models.Version.{version_from_time, matches}
use dss.Rid.Models.{Isa}
use dss.Rid.Store.Records.{State, IsaRecord, validate_write_data, find_for_write}
use dss.Rid.Store.Keeps.{HasExtent, validated-HasExtent}
use dss.Rid.Store.Isas.{
  isa_record_from_model, isa_to_model, put_isa, overwrite_isa, insert_isa, update_isa, delete_isa,
}

-- The record is that of an ISA, of the time `now`.
pub record IsRecordOf (now : Time) (isa : Isa) (rec : IsaRecord) : Type 0 where
  pub id : rec.id ≡ isa.id
  pub url : rec.url ≡ isa.url
  pub owner : rec.owner ≡ isa.owner
  pub cells : rec.cells ≡ isa.cells
  pub start_time : isa.start_time ≡ some rec.start_time
  pub end_time : isa.end_time ≡ some rec.end_time
  pub altitude_hi : rec.altitude_hi ≡ isa.altitude_hi
  pub altitude_lo : rec.altitude_lo ≡ isa.altitude_lo
  pub writer : rec.writer ≡ isa.writer
  pub updated_at : rec.updated_at ≡ now

deref_lem : {A : Type 0} (o : Option A) (a : A) → deref o ≡ ok a → o ≡ some a
deref_lem none a h = ground arith
deref_lem (some b) a h = ground arith

record_lem :
    (now : Time) (isa : Isa) (rec : IsaRecord)
    → isa_record_from_model isa now ≡ ok rec
    → IsRecordOf now isa rec
unfolding isa_record_from_model
record_lem now isa rec h =
    let (a, e0, h0) = bind_result-ok (deref isa.start_time) _ h in
    let (b, e1, h1) = bind_result-ok (deref isa.end_time) _ h0 in
    record {
      id = cc h1;
      url = cc h1;
      owner = cc h1;
      cells = cc h1;
      start_time = deref_lem isa.start_time a e0 ∙ cc h1;
      end_time = deref_lem isa.end_time b e1 ∙ cc h1;
      altitude_hi = cc h1;
      altitude_lo = cc h1;
      writer = cc h1;
      updated_at = cc h1;
    }

find_lem :
    (isa : Isa) (prev : IsaRecord) (s : State)
    → GoMap.get s.isas isa.id ≡ some prev
    → matches (some (version_from_time prev.updated_at)) isa.version ≡ true
    → find_for_write (λ (rec : IsaRecord). rec.updated_at) s.isas isa.id isa.version ≡ some prev
unfolding find_for_write
find_lem isa prev s g v = rw (find_for_write, g, v) refl

pub delete_lem :
    (isa : Isa) (prev : IsaRecord) (s : State)
    → GoMap.get s.isas isa.id ≡ some prev
    → matches (some (version_from_time prev.updated_at)) isa.version ≡ true
    → delete_isa isa s
      ≡ (ok (some (isa_to_model prev)), record s { isas = GoMap.delete s.isas isa.id })
unfolding delete_isa
delete_lem isa prev s g v = rw (delete_isa, find_lem isa prev s g v) refl

module _ (ext : External) (now : Time) where
  -- An ISA that may be stored has been stored.
  pub record IsStored (isa : Isa) (s s' : State) : Type 0 where
    pub rec : IsaRecord
    pub is_record : IsRecordOf now isa rec
    pub extent : HasExtent ext rec.cells rec.start_time rec.end_time
    pub tables : s' ≡ record s { isas = GoMap.set s.isas isa.id rec }

  stored_lem :
      (isa : Isa) (rec : IsaRecord) (s : State)
      → validate_write_data ext isa.cells isa.start_time isa.end_time ≡ ok tt
      → IsRecordOf now isa rec
      → IsStored isa s (record s { isas = GoMap.set s.isas isa.id rec })
  stored_lem isa rec s q r = record {
    rec = rec;
    is_record = r;
    extent =
        subst (λ c. HasExtent ext c rec.start_time rec.end_time) (sym r.cells)
          (validated-HasExtent ext isa.cells isa.start_time isa.end_time rec.start_time rec.end_time
            q r.start_time r.end_time);
    tables = refl;
  }

  owned_lem :
      (isa : Isa) (prev rec : IsaRecord)
      → prev.owner ≡ isa.owner
      → IsRecordOf now isa rec
      → IsRecordOf now isa (record rec { owner = prev.owner })
  owned_lem isa prev rec o r = ground arith

  pub insert_lem :
      (isa : Isa) (s : State)
      → HasFailed s (insert_isa ext now isa s)
        ⊎ (IsStored isa s (insert_isa ext now isa s).1
            × ((r : Isa) × ((insert_isa ext now isa s).0 ≡ ok r)))
  unfolding insert_isa put_isa
  insert_lem isa s =
      elim (Result-cases (validate_write_data ext isa.cells isa.start_time isa.end_time)) [
        | inr (e, q) ↦ rw q (inl (refl, e, refl))
        | inl (u, q) ↦ rw q (elim (Option-cases (GoMap.get s.isas isa.id)) [
          | inr (old, g) ↦ rw g (inl (refl, uncoded, refl))
          | inl g ↦ rw g (elim (Result-cases (isa_record_from_model isa now)) [
            | inr (e, m) ↦ rw m (inl (refl, e, refl))
            | inl (rec, m) ↦
                rw m (inr (stored_lem isa rec s q (record_lem now isa rec m), (_, refl)))
          ])
        ])
      ]

  pub update_lem :
      (isa : Isa) (prev : IsaRecord) (s : State)
      → GoMap.get s.isas isa.id ≡ some prev
      → prev.owner ≡ isa.owner
      → matches (some (version_from_time prev.updated_at)) isa.version ≡ true
      → HasFailed s (update_isa ext now isa s)
        ⊎ (IsStored isa s (update_isa ext now isa s).1
            × ((r : Isa) × ((update_isa ext now isa s).0 ≡ ok (some r))))
  unfolding update_isa overwrite_isa put_isa
  update_lem isa prev s g o v =
      elim (Result-cases (validate_write_data ext isa.cells isa.start_time isa.end_time)) [
        | inr (e, q) ↦ rw q (inl (refl, e, refl))
        | inl (u, q) ↦
            rw (q, find_lem isa prev s g v)
              (elim (Result-cases (isa_record_from_model isa now)) [
                | inr (e, m) ↦ rw m (inl (refl, e, refl))
                | inl (rec, m) ↦ rw m (
                    inr (
                      stored_lem isa (record rec { owner = prev.owner }) s q
                          (owned_lem isa prev rec o (record_lem now isa rec m)),
                      (_, refl),
                    ))
              ])
      ]
