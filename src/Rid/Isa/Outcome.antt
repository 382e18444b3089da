-- ===== src/Rid/Isa/Outcome.antt =====
-- What the operations on ISAs come to.
use dss.Prelude.{◌≡◌, refl, sym, ap, subst, ◌⊎◌, inl, inr, true, none, some, Option-cases}
use dss.GoMap
use dss.Exec.{Error, Result, err, coded, not_found, already_exists}
use dss.Exec.Laws.{Result-cases}
use dss.Exec.Reads.{HasFailed, failed-bind, then-Reads}
use dss.External.{External, CellUnion, Time}
use dss.Models.Version.{version_from_time, matches}
use dss.Rid.Models.{EntityId, Isa}
use dss.Rid.Models.TimeRange.{adjust_isa}
use dss.Rid.Models.TimeRange.Laws.{IsAdjustedIsa, adjust_isa_lem}
use dss.Rid.Store.Records.{State, IsaRecord}
use dss.Rid.Store.Isas.{isa_to_model, get_isa, insert_isa, update_isa}
use dss.Rid.Store.Isas.Writes.{IsStored, insert_lem, update_lem, delete_lem}
use dss.Rid.Store.Subscriptions.{is_live_in_cells, bumped, update_notification_idxs_in_cells}
use dss.Rid.Isa.{
  DeleteIsaPayload, execute_delete_isa, execute_insert_isa, notified_cells, execute_update_isa,
}
use dss.Rid.Isa.Access.{access-cases, matches_symm, matches_refl}

-- The state after the subscriptions in some cells have been notified.
abbrev pub notified : Time → CellUnion → State → State
notified now cells s = record s {
  subscriptions = GoMap.modify_where (is_live_in_cells now cells none) bumped s.subscriptions;
}

module _ (ext : External) (now : Time) where
  -- An error, after which some subscriptions may have been notified already.
  pub record HasFailedIsa {A : Type 0} (s : State) (x : Result A × State) : Type 0 where
    pub error : (e : Error) × (x.0 ≡ err e)
    pub state : (x.1 ≡ s) ⊎ ((cells : CellUnion) × (x.1 ≡ notified now cells s))

  early : {A : Type 0} (s : State) (e : Error) → HasFailedIsa {A = A} s (err e, s)
  early s e = record { error = (e, refl); state = inl refl }

  late :
      {A : Type 0} (s : State) (cells : CellUnion) (x : Result A × State)
      → HasFailed (notified now cells s) x
      → HasFailedIsa s x
  late s cells x f = record { error = (f.1, f.2); state = inr (cells, f.0) }

  -- An insertion that does not fail has checked the ISA, notified the subscriptions in its cells, and
  -- stored it.
  pub record WasInserted (requested : Isa) (s s' : State) : Type 0 where
    pub isa : Isa
    pub adjusted : IsAdjustedIsa now requested none isa
    pub was_absent : GoMap.get s.isas requested.id ≡ none
    pub stored : IsStored ext now isa (notified now isa.cells s) s'

  pub insert-cases :
      (requested : Isa) (s : State)
      → HasFailedIsa s (execute_insert_isa ext now requested s)
        ⊎ WasInserted requested s (execute_insert_isa ext now requested s).1
  unfolding execute_insert_isa get_isa update_notification_idxs_in_cells
  insert-cases requested s = elim (Result-cases (adjust_isa now requested none)) [
    | inr (e, q) ↦ rw q (inl (early s e))
    | inl (isa, q) ↦ rw q (elim (Option-cases (GoMap.get s.isas isa.id)) [
      | inr (old, g) ↦ rw (g, get_isa) (inl (early s (coded already_exists)))
      | inl g ↦
          rw (g, get_isa)
            (elim (insert_lem ext now isa (notified now isa.cells s)) [
              | inl f ↦ inl (
                  late s isa.cells _
                    (failed-bind (insert_isa ext now isa) _ (notified now isa.cells s) f))
              | inr (st, r) ↦
                  let a = adjust_isa_lem now requested none isa q in
                  inr (record {
                    isa = isa;
                    adjusted = a;
                    was_absent = subst (λ i. GoMap.get s.isas i ≡ none) (ap (λ x. x.id) a.result) g;
                    stored =
                        subst (IsStored ext now isa (notified now isa.cells s))
                          (sym (
                            then-Reads (insert_isa ext now isa) _ (notified now isa.cells s)
                              (λ ret t. refl)))
                          st;
                  })
            ])
    ])
  ]

  -- An update that does not fail has checked the ISA, notified the subscriptions in its cells, old and
  -- new, and stored it.
  pub record WasUpdated (requested : Isa) (s s' : State) : Type 0 where
    pub prev : IsaRecord
    pub isa : Isa
    pub found : GoMap.get s.isas requested.id ≡ some prev
    pub adjusted : IsAdjustedIsa now requested (some (isa_to_model prev).volume) isa
    pub version : matches requested.version (some (version_from_time prev.updated_at)) ≡ true
    pub owner : prev.owner ≡ requested.owner
    pub stored : IsStored ext now isa (notified now (notified_cells ext prev.cells isa.cells) s) s'

  pub update-cases :
      (requested : Isa) (s : State)
      → HasFailedIsa s (execute_update_isa ext now requested s)
        ⊎ WasUpdated requested s (execute_update_isa ext now requested s).1
  unfolding execute_update_isa get_isa update_notification_idxs_in_cells isa_to_model
  update-cases requested s = elim (Option-cases (GoMap.get s.isas requested.id)) [
    | inl g ↦
        rw (g, get_isa)
          (elim (Result-cases (adjust_isa now requested none)) [
            | inr (e, q) ↦ rw q (inl (early s e))
            | inl (isa, q) ↦ rw q (inl (early s (coded not_found)))
          ])
    | inr (prev, g) ↦
        rw (g, get_isa)
          (elim (Result-cases (adjust_isa now requested (some (isa_to_model prev).volume))) [
            | inr (e, q) ↦ rw q (inl (early s e))
            | inl (isa, q) ↦ rw q (
                let a = adjust_isa_lem now requested (some (isa_to_model prev).volume) isa q in
                elim (access-cases isa.version isa.owner (some (version_from_time prev.updated_at))
                  prev.owner s) [
                    | inr (e, c) ↦ rw c (inl (early s e))
                    | inl (c, v, o) ↦ rw c (
                        let s1 = notified now (notified_cells ext prev.cells isa.cells) s in
                        elim (update_lem ext now isa prev s1 (rw a.result g) o
                          (matches_symm isa.version _ v)) [
                            | inl f ↦ inl (
                                late s (notified_cells ext prev.cells isa.cells) _
                                  (failed-bind (update_isa ext now isa) _ s1 f))
                            | inr (st, r) ↦ inr (record {
                              prev = prev;
                              isa = isa;
                              found = g;
                              adjusted = a;
                              version = rw a.result at v;
                              owner = rw a.result at o;
                              stored =
                                  subst (IsStored ext now isa s1)
                                    (sym (then-Reads (update_isa ext now isa) _ s1 (λ ret t. refl)))
                                    st;
                            })
                          ])
                  ])
          ])
  ]

-- A deletion that does not fail has checked and removed the ISA and notified the subscriptions in its
-- cells.
pub record WasDeleted (now : Time) (p : DeleteIsaPayload) (s s' : State) : Type 0 where
  pub prev : IsaRecord
  pub found : GoMap.get s.isas p.id ≡ some prev
  pub version : matches p.version (some (version_from_time prev.updated_at)) ≡ true
  pub owner : prev.owner ≡ p.owner
  pub tables : s' ≡ notified now prev.cells (record s { isas = GoMap.delete s.isas prev.id })

-- Records stand under their own ids.
abbrev pub HasIds : State → Type 0
HasIds s = (id : EntityId) (rec : IsaRecord) → GoMap.get s.isas id ≡ some rec → rec.id ≡ id

pub delete-cases :
    (now : Time) (p : DeleteIsaPayload) (s : State)
    → HasIds s
    → HasFailed s (execute_delete_isa now p s) ⊎ WasDeleted now p s (execute_delete_isa now p s).1
unfolding execute_delete_isa get_isa isa_to_model update_notification_idxs_in_cells
delete-cases now p s ids = elim (Option-cases (GoMap.get s.isas p.id)) [
  | inl g ↦ rw (g, get_isa) (inl (refl, coded not_found, refl))
  | inr (prev, g) ↦
      rw (g, get_isa)
        (elim (access-cases p.version p.owner (some (version_from_time prev.updated_at)) prev.owner
          s) [
            | inr (e, c) ↦ rw c (inl (refl, e, refl))
            | inl (c, v, o) ↦
                rw
                  (
                    c,
                    delete_lem (isa_to_model prev) prev s
                        (subst (λ i. GoMap.get s.isas i ≡ some prev) (sym (ids p.id prev g)) g)
                        (matches_refl (version_from_time prev.updated_at)),
                  )
                  (inr (record { prev = prev; found = g; version = v; owner = o; tables = refl }))
          ])
]
