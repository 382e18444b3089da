-- ===== src/Scd/Constraints/Laws.antt =====
-- The operations on constraints keep the store valid.
use dss.Prelude.{◌≡◌, refl, ap, inl, inr, arith, Option-cases}
use mathlib.Core.Option
use dss.GoMap
use dss.GoMap.{get-set, get-delete}
use dss.Exec.{ok, coded, not_found, lift, raise}
use dss.Exec.Reads.{Reads}
use dss.Exec.Keeps.{Keeps, >>=-Keeps, Reads-Keeps}
use dss.External.{External, Time}
use dss.Models.{CellsVolume4D}
use dss.Scd.Models.{EntityId, Constraint}
use dss.Scd.Store.Records.{State}
use dss.Scd.Store.Valid.{IsValid}
use dss.Scd.Store.Keeps.{upsert_constraint-Keeps, delete_constraint-Keeps, increment-Keeps}
use dss.Scd.Store.Subscriptions.{increment_notification_indices_for_constraints}
use dss.Scd.Store.Constraints.{
  constraint_to_model, get_constraint, upsert_constraint, delete_constraint,
}
use dss.Scd.Oir.Delete.{or_raise}
use dss.Scd.Oir.Keeps.{or_raise-Reads}
use dss.Scd.Constraints.{
  DeleteConstraintPayload, constraint_version, check_delete_constraint, find_constraint,
  constraint_notify_volume, put_constraint, delete_constraint_reference,
}

module _ (ext : External) where
  pub find_lem :
      (id : EntityId) (s : State)
      → find_constraint ext id s
        ≡ (ok (Option.map (constraint_to_model ext) (GoMap.get s.constraints id)), s)
  unfolding find_constraint get_constraint
  find_lem id s = elim (Option-cases (GoMap.get s.constraints id)) [
    | inl e ↦ ground arith
    | inr (rec, e) ↦ ground arith
  ]

  pub find-Reads : (id : EntityId) → Reads (find_constraint ext id)
  find-Reads id s = ap (λ x. x.1) (find_lem id s)

  notify-Keeps :
      (v : CellsVolume4D) → Keeps IsValid (increment_notification_indices_for_constraints ext v)
  unfolding increment_notification_indices_for_constraints
  notify-Keeps v = increment-Keeps ext v _

  check-Reads :
      (p : DeleteConstraintPayload) (old : Constraint) → Reads (check_delete_constraint p old)
  unfolding check_delete_constraint
  check-Reads p old s = ground arith

  -- An upsert of a constraint keeps the store valid, whether it succeeds or not.
  pub put_constraint-IsValid :
      (now : Time) (c : Constraint) (s : State) → IsValid s → IsValid (put_constraint ext now c s).1
  unfolding put_constraint
  put_constraint-IsValid now c =
      Reads-Keeps IsValid (find_constraint ext c.id) _ (find-Reads c.id) (λ old.
        Reads-Keeps IsValid (lift (constraint_version c old)) _ (λ s. refl)
          (λ version.
            >>=-Keeps IsValid (upsert_constraint ext now (record c { version = version })) _
              (upsert_constraint-Keeps ext now _)
              (λ stored.
                >>=-Keeps IsValid
                  (increment_notification_indices_for_constraints ext
                    (constraint_notify_volume ext c old))
                  _ (notify-Keeps (constraint_notify_volume ext c old)) (λ subs s v. v))))

  -- A deletion of a constraint keeps the store valid, whether it succeeds or not.
  pub delete_constraint-IsValid :
      (p : DeleteConstraintPayload) (s : State)
      → IsValid s
      → IsValid (delete_constraint_reference ext p s).1
  unfolding delete_constraint_reference
  delete_constraint-IsValid p =
      Reads-Keeps IsValid (find_constraint ext p.id) _ (find-Reads p.id) (λ found.
        Reads-Keeps IsValid (or_raise found (raise (coded not_found))) _
          (or_raise-Reads found _ (λ s. refl))
          (λ old. Reads-Keeps IsValid (check_delete_constraint p old) _ (check-Reads p old) (λ u.
            >>=-Keeps IsValid (delete_constraint p.id) _ (delete_constraint-Keeps p.id) (λ u.
              >>=-Keeps IsValid (increment_notification_indices_for_constraints ext old.volume) _
                (notify-Keeps old.volume) (λ subs s v. v)))))
