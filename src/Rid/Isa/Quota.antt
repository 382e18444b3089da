-- ===== src/Rid/Isa/Quota.antt =====
-- The operations on ISAs only notify subscriptions, which keeps the quota.
use dss.Prelude.{◌≡◌, ◌≤◌, sym, ap, subst, inl, inr, none}
use dss.GoMap.{count}
use dss.Exec.{Result}
use dss.External.{External, CellUnion, Time}
use dss.Rid.Models.{Isa}
use dss.Rid.Store.Records.{State}
use dss.Rid.Store.Keeps.{IsValid}
use dss.Rid.Store.Quota.{holds, limit, IsWithinQuota, bumped-IsWithinQuota}
use dss.Rid.Store.Isas.Writes.{IsStored}
use dss.Rid.Store.Subscriptions.{is_live_in_cells}
use dss.Rid.Isa.Outcome.{notified, HasFailedIsa, insert-cases, update-cases, delete-cases}
use dss.Rid.Isa.{DeleteIsaPayload, execute_delete_isa, execute_insert_isa, execute_update_isa}

same_subscriptions-IsWithinQuota :
    (now : Time) (s s' : State)
    → s'.subscriptions ≡ s.subscriptions
    → IsWithinQuota now s
    → IsWithinQuota now s'
same_subscriptions-IsWithinQuota now s s' e q = record {
  within = λ owner c. subst (λ m. count (holds now owner c) m ≤ limit) (sym e) (q.within owner c);
}

module _ (ext : External) (now : Time) (s : State) (q : IsWithinQuota now s) where
  notified-IsWithinQuota : (cells : CellUnion) → IsWithinQuota now (notified now cells s)
  notified-IsWithinQuota cells = bumped-IsWithinQuota now (is_live_in_cells now cells none) s q

  failed-IsWithinQuota :
      {A : Type 0} (x : Result A × State) → HasFailedIsa ext now s x → IsWithinQuota now x.1
  failed-IsWithinQuota x f = elim f.state [
    | inl e ↦ subst (IsWithinQuota now) (sym e) q
    | inr (cells, e) ↦ subst (IsWithinQuota now) (sym e) (notified-IsWithinQuota cells)
  ]

  stored_quota :
      (cells : CellUnion) (isa : Isa) (s' : State)
      → IsStored ext now isa (notified now cells s) s'
      → IsWithinQuota now s'
  stored_quota cells isa s' st =
      same_subscriptions-IsWithinQuota now (notified now cells s) s'
        (ap (λ t. t.subscriptions) st.tables) (notified-IsWithinQuota cells)

  pub insert-IsWithinQuota : (isa : Isa) → IsWithinQuota now (execute_insert_isa ext now isa s).1
  insert-IsWithinQuota isa = elim (insert-cases ext now isa s) [
    | inl f ↦ failed-IsWithinQuota _ f
    | inr c ↦ stored_quota c.isa.cells c.isa _ c.stored
  ]

  pub update-IsWithinQuota : (isa : Isa) → IsWithinQuota now (execute_update_isa ext now isa s).1
  update-IsWithinQuota isa = elim (update-cases ext now isa s) [
    | inl f ↦ failed-IsWithinQuota _ f
    | inr c ↦ stored_quota _ c.isa _ c.stored
  ]

  pub delete-IsWithinQuota :
      IsValid ext s → (p : DeleteIsaPayload) → IsWithinQuota now (execute_delete_isa now p s).1
  delete-IsWithinQuota v p = elim (delete-cases now p s (λ id rec g. (v.isas_fit id rec g).0)) [
    | inl f ↦ subst (IsWithinQuota now) (sym f.0) q
    | inr c ↦
        same_subscriptions-IsWithinQuota now (notified now c.prev.cells s) _
          (ap (λ t. t.subscriptions) c.tables) (notified-IsWithinQuota c.prev.cells)
  ]
