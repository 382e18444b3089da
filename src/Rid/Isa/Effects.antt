-- ===== src/Rid/Isa/Effects.antt =====
-- What an operation on ISAs that succeeds demands, and what it leaves, of the two tables.
use dss.Prelude.{
  ◌+◌, ◌%◌, ◌^◌, ◌≤◌, ◌≡◌, refl, ap, ◌∙◌, ◌⊎◌, inl, inr, ◌↔◌, Bool, true, none, some, arith, ◌&&◌,
  not, Bool-cases,
}
use dss.GoMap
use dss.GoMap.{modified, get-modify_where}
use dss.External.{External, CellUnion, Time}
use dss.Models.{before}
use dss.Models.Version.{version_from_time, matches}
use dss.Rid.Models.{EntityId, Isa}
use dss.Rid.Models.TimeRange.Laws.{IsAdjustedIsa}
use dss.Rid.Store.Records.{State, IsaRecord, SubscriptionRecord}
use dss.Rid.Store.Keeps.{HasExtent}
use dss.Rid.Store.Isas.{isa_to_model}
use dss.Rid.Store.Isas.Search.{SharesCell, overlaps_iff}
use dss.Rid.Store.Isas.Writes.{IsRecordOf}
use dss.Rid.Store.Subscriptions.{is_live_in_cells, is_owner, bumped}
use dss.Rid.Isa.{DeleteIsaPayload}
use dss.Rid.Isa.Notified.{in_either, or_iff}

-- The record with its index one higher, at uint64.
abbrev pub raised : SubscriptionRecord → SubscriptionRecord
raised rec = record rec { notification_index = (rec.notification_index + 1) % 2 ^ 64 }

-- Not expired, and in the area.
abbrev pub IsToldAt : Time → (CellUnion → Type 0) → SubscriptionRecord → Type 0
IsToldAt now InArea rec = (now ≤ rec.end_time) × InArea rec.cells

-- The subscriptions in the area that have not expired have an index one higher, and no other
-- subscription is changed or made.
pub record HasTold (now : Time) (InArea : CellUnion → Type 0) (s s' : State) : Type 0 where
  pub told :
      (id : EntityId) (rec : SubscriptionRecord)
      → GoMap.get s.subscriptions id ≡ some rec
      → IsToldAt now InArea rec
      → GoMap.get s'.subscriptions id ≡ some (raised rec)
  pub others :
      (id : EntityId) (rec : SubscriptionRecord)
      → GoMap.get s.subscriptions id ≡ some rec
      → ¬ IsToldAt now InArea rec
      → GoMap.get s'.subscriptions id ≡ some rec
  pub none_made :
      (id : EntityId) → GoMap.get s.subscriptions id ≡ none → GoMap.get s'.subscriptions id ≡ none

module _ (now : Time) (InArea : CellUnion → Type 0) (p : SubscriptionRecord → Bool)
    (p_iff : (rec : SubscriptionRecord) → (p rec ≡ true) ↔ IsToldAt now InArea rec) where
  pub told_lem :
      (s s' : State)
      → s'.subscriptions ≡ GoMap.modify_where p bumped s.subscriptions
      → HasTold now InArea s s'
  unfolding bumped
  told_lem s s' e = record {
    told = λ id rec g r. after id ∙ rw (g, (p_iff rec).1 r) refl;
    others = λ id rec g n. elim (Bool-cases (p rec)) [
      | inl y ↦ absurd (n ((p_iff rec).0 y))
      | inr y ↦ after id ∙ rw (g, y) refl
    ];
    none_made = λ id g. after id ∙ rw g refl;
  }
    where
      after :
          (id : EntityId)
          → GoMap.get s'.subscriptions id ≡ modified p bumped (GoMap.get s.subscriptions id)
      after id = ap (λ m. GoMap.get m id) e ∙ get-modify_where p bumped s.subscriptions id

and_iff : (a b : Bool) → ((a && b) ≡ true) ↔ ((a ≡ true) × (b ≡ true))
and_iff a b = ground arith

live_time : (end now : Time) → (not (before end now) ≡ true) ↔ (now ≤ end)
live_time end now = ground arith

pub live_iff :
    (now : Time) (cells : CellUnion) (rec : SubscriptionRecord)
    → (is_live_in_cells now cells none rec ≡ true) ↔ IsToldAt now (λ cs. SharesCell cs cells) rec
unfolding is_live_in_cells is_owner
live_iff now cells rec = (
  λ h.
      let (t, c) = (and_iff _ _).0 h in
      ((live_time rec.end_time now).0 t, (overlaps_iff rec.cells cells).0 c),
  λ w. (and_iff _ _).1 ((live_time rec.end_time now).1 w.0, (overlaps_iff rec.cells cells).1 w.1),
)

-- In one of two areas.
abbrev pub InEither : CellUnion → CellUnion → CellUnion → Type 0
InEither a b cs = SharesCell cs a ⊎ SharesCell cs b

pub either_iff :
    (now : Time) (a b : CellUnion) (rec : SubscriptionRecord)
    → (in_either now a b rec ≡ true) ↔ IsToldAt now (InEither a b) rec
either_iff now a b rec = (
  λ h. elim ((or_iff _ _).0 h) [
    | inl e ↦ let (t, c) = (live_iff now a rec).0 e in (t, inl c)
    | inr e ↦ let (t, c) = (live_iff now b rec).0 e in (t, inr c)
  ],
  λ w. (or_iff _ _).1 (elim w.1 [
    | inl c ↦ inl ((live_iff now a rec).1 (w.0, c))
    | inr c ↦ inr ((live_iff now b rec).1 (w.0, c))
  ]),
)

module _ (ext : External) (now : Time) where
  -- The ISA has been stored, and the subscriptions in the area have been told.
  pub record IsWritten (isa : Isa) (InArea : CellUnion → Type 0) (s s' : State) : Type 0 where
    pub rec : IsaRecord
    pub is_record : IsRecordOf now isa rec
    pub extent : HasExtent ext rec.cells rec.start_time rec.end_time
    pub isas : s'.isas ≡ GoMap.set s.isas isa.id rec
    pub subscriptions : HasTold now InArea s s'

  pub record IsInserted (requested : Isa) (s s' : State) : Type 0 where
    pub isa : Isa
    pub adjusted : IsAdjustedIsa now requested none isa
    pub was_absent : GoMap.get s.isas requested.id ≡ none
    pub written : IsWritten isa (λ cs. SharesCell cs isa.cells) s s'

  pub record IsUpdated (requested : Isa) (s s' : State) : Type 0 where
    pub prev : IsaRecord
    pub isa : Isa
    pub found : GoMap.get s.isas requested.id ≡ some prev
    pub adjusted : IsAdjustedIsa now requested (some (isa_to_model prev).volume) isa
    pub version : matches requested.version (some (version_from_time prev.updated_at)) ≡ true
    pub owner : prev.owner ≡ requested.owner
    pub written : IsWritten isa (InEither prev.cells isa.cells) s s'

pub record IsDeleted (now : Time) (p : DeleteIsaPayload) (s s' : State) : Type 0 where
  pub prev : IsaRecord
  pub found : GoMap.get s.isas p.id ≡ some prev
  pub version : matches p.version (some (version_from_time prev.updated_at)) ≡ true
  pub owner : prev.owner ≡ p.owner
  pub isas : s'.isas ≡ GoMap.delete s.isas p.id
  pub subscriptions : HasTold now (λ cs. SharesCell cs prev.cells) s s'
