-- ===== src/Rid/Isa/Laws.antt =====
-- What a successful operation on ISAs demands and leaves, and what every one keeps.
use dss.Prelude.{◌≡◌, sym, ◌∙◌, ◌↔◌, Bool, true, ap, subst, inl, inr, none, arith}
use dss.Exec.{Result, ok, err}
use dss.External.{External, CellUnion, Time, IsAtLevel, S2Laws}
use dss.Rid.Models.{Isa}
use dss.Rid.Store.Records.{State, SubscriptionRecord}
use dss.Rid.Store.Keeps.{IsValid, stored_isa-IsValid, deleted_isa-IsValid, bumped-IsValid}
use dss.Rid.Store.Isas.Writes.{IsStored}
use dss.Rid.Store.Subscriptions.{is_live_in_cells, bumped}
use dss.Rid.Isa.Notified.{in_either, notified_either_lem}
use dss.Rid.Isa.Effects.{
  IsToldAt, told_lem, live_iff, InEither, either_iff, IsWritten, IsInserted, IsUpdated, IsDeleted,
}
use dss.Rid.Store.Isas.Search.{SharesCell}
use dss.GoMap
use dss.Rid.Isa.Outcome.{notified, HasFailedIsa, insert-cases, update-cases, delete-cases}
use dss.Rid.Isa.{
  IsaResult, DeleteIsaPayload, execute_delete_isa, execute_insert_isa, execute_update_isa,
}

ok-not_err :
    {A : Type 0} {x : Result A × State} (s' : State) (a : A)
    → ((e : _) × (x.0 ≡ err e))
    → x ≡ (ok a, s')
    → ⊥
ok-not_err s' a (e, q) h = ground (arith, q, h)

module _ (ext : External) (now : Time) where
  -- An ISA has been stored after a notification.
  written_lem :
      (isa : Isa) (InArea : CellUnion → Type 0) (p : SubscriptionRecord → Bool)
      → ((rec : SubscriptionRecord) → (p rec ≡ true) ↔ IsToldAt now InArea rec)
      → (s s' : State)
      → IsStored ext now isa
          (record s { subscriptions = GoMap.modify_where p bumped s.subscriptions })
          s'
      → IsWritten ext now isa InArea s s'
  written_lem isa InArea p p_iff s s' st = record {
    rec = st.rec;
    is_record = st.is_record;
    extent = st.extent;
    isas = ap (λ t. t.isas) st.tables;
    subscriptions = told_lem now InArea p p_iff s s' (ap (λ t. t.subscriptions) st.tables);
  }

  -- An insertion of an ISA that succeeds was of one that was not stored. It stores the ISA of the
  -- request, with the times that `AdjustTimeRange` gives. It raises the index of exactly the
  -- subscriptions that share a cell with it and have not expired, by one at 64 bits, and changes
  -- nothing else.
  pub insert-IsInserted :
      (requested : Isa) (s s' : State) (r : IsaResult)
      → execute_insert_isa ext now requested s ≡ (ok r, s')
      → IsInserted ext now requested s s'
  insert-IsInserted requested s s' r h = elim (insert-cases ext now requested s) [
    | inl f ↦ absurd (ok-not_err s' r f.error h)
    | inr c ↦ record {
      isa = c.isa;
      adjusted = c.adjusted;
      was_absent = c.was_absent;
      written =
          written_lem c.isa (λ cs. SharesCell cs c.isa.cells)
            (is_live_in_cells now c.isa.cells none) (live_iff now c.isa.cells) s s'
            (subst (IsStored ext now c.isa _) (ap (λ x. x.1) h) c.stored);
    }
  ]

  -- In a valid store, an update of an ISA that succeeds was of a stored one of the requesting owner, at
  -- its version. It stores the ISA of the request, with the times that `AdjustTimeRange` gives. It
  -- raises the index of exactly the subscriptions that share a cell with the ISA before or after the
  -- update and have not expired, by one at 64 bits, and changes nothing else, given how S2 merges
  -- cells of one level.
  pub update-IsUpdated :
      (laws : S2Laws ext) (requested : Isa) (s s' : State) (r : IsaResult)
      → IsValid ext s
      → execute_update_isa ext now requested s ≡ (ok r, s')
      → IsUpdated ext now requested s s'
  update-IsUpdated laws requested s s' r v h = elim (update-cases ext now requested s) [
    | inl f ↦ absurd (ok-not_err s' r f.error h)
    | inr c ↦ record {
      prev = c.prev;
      isa = c.isa;
      found = c.found;
      adjusted = c.adjusted;
      version = c.version;
      owner = c.owner;
      written =
          written_lem c.isa (InEither c.prev.cells c.isa.cells)
            (in_either now c.prev.cells c.isa.cells) (either_iff now c.prev.cells c.isa.cells) s s'
            (subst (λ t. IsStored ext now c.isa t s')
              (ap (λ m. record s { subscriptions = m })
                (notified_either_lem ext laws c.prev.cells c.isa.cells
                  (record { at = (v.isas_fit requested.id c.prev c.found).1.level })
                  (subst (IsAtLevel ext 13) c.stored.is_record.cells
                    (record { at = c.stored.extent.level }))
                  now s.subscriptions))
              (subst (IsStored ext now c.isa _) (ap (λ x. x.1) h) c.stored));
    }
  ]

  module _ (s : State) (v : IsValid ext s) where
    -- In a valid store, a deletion of an ISA that succeeds was of a stored one of the requesting owner,
    -- at its version. It removes the ISA, raises the index of exactly the subscriptions that share a
    -- cell with it and have not expired, by one at 64 bits, and changes nothing else.
    pub delete-IsDeleted :
        (p : DeleteIsaPayload) (s' : State) (r : IsaResult)
        → execute_delete_isa now p s ≡ (ok r, s')
        → IsDeleted now p s s'
    delete-IsDeleted p s' r h = elim (delete-cases now p s (λ id rec g. (v.isas_fit id rec g).0)) [
      | inl f ↦ absurd (ok-not_err s' r (f.1, f.2) h)
      | inr c ↦
          let tables = sym (ap (λ x. x.1) h) ∙ c.tables in
          record {
            prev = c.prev;
            found = c.found;
            version = c.version;
            owner = c.owner;
            isas =
                ap (λ t. t.isas) tables
                ∙ ap (GoMap.delete s.isas) (v.isas_fit p.id c.prev c.found).0;
            subscriptions =
                told_lem now (λ cs. SharesCell cs c.prev.cells)
                  (is_live_in_cells now c.prev.cells none) (live_iff now c.prev.cells) s s'
                  (ap (λ t. t.subscriptions) tables);
          }
    ]

    notified-IsValid : (cells : CellUnion) → IsValid ext (notified now cells s)
    notified-IsValid cells = bumped-IsValid ext s v (is_live_in_cells now cells none)

    failed-IsValid :
        {A : Type 0} (x : Result A × State) → HasFailedIsa ext now s x → IsValid ext x.1
    failed-IsValid x f = elim f.state [
      | inl e ↦ subst (IsValid ext) (sym e) v
      | inr (cells, e) ↦ subst (IsValid ext) (sym e) (notified-IsValid cells)
    ]

    stored-IsValid :
        (cells : CellUnion) (isa : Isa) (s' : State)
        → IsStored ext now isa (notified now cells s) s'
        → IsValid ext s'
    stored-IsValid cells isa s' st = subst (IsValid ext) (sym st.tables) (
        stored_isa-IsValid ext (notified now cells s) (notified-IsValid cells) isa.id st.rec
          (st.is_record.id, st.extent))

    pub insert-IsValid : (isa : Isa) → IsValid ext (execute_insert_isa ext now isa s).1
    insert-IsValid isa = elim (insert-cases ext now isa s) [
      | inl f ↦ failed-IsValid _ f
      | inr c ↦ stored-IsValid c.isa.cells c.isa _ c.stored
    ]

    pub update-IsValid : (isa : Isa) → IsValid ext (execute_update_isa ext now isa s).1
    update-IsValid isa = elim (update-cases ext now isa s) [
      | inl f ↦ failed-IsValid _ f
      | inr c ↦ stored-IsValid _ c.isa _ c.stored
    ]

    pub delete-IsValid : (p : DeleteIsaPayload) → IsValid ext (execute_delete_isa now p s).1
    delete-IsValid p = elim (delete-cases now p s (λ id rec g. (v.isas_fit id rec g).0)) [
      | inl f ↦ subst (IsValid ext) (sym f.0) v
      | inr c ↦ subst (IsValid ext) (sym c.tables) (
          bumped-IsValid ext _ (deleted_isa-IsValid ext s v c.prev.id)
            (is_live_in_cells now c.prev.cells none))
    ]
