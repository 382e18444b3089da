-- ===== src/Scd/Constraints/Stored.antt =====
-- What a successful upsert of a constraint demands and leaves.
use dss.Prelude.{
  ◌≡◌, refl, sym, ap, ◌∙◌, inl, inr, false, Option, none, some, ◌==◌, arith, eq_iff, str_eq_refl,
}
use mathlib.Core.Option
use dss.GoMap
use dss.GoMap.{get-set, get-delete}
use dss.Exec.{ok, lift}
use dss.Exec.Laws.{ok-pair, >>=-ok, Result-cases}
use dss.Exec.Reads.{Reads-ok}
use dss.External.{External, Time}
use dss.Models.{CellsVolume4D}
use dss.Scd.Models.{EntityId, VersionNumber, next_version, Constraint}
use dss.Scd.Store.Records.{State, ConstraintRecord, require_extent_times}
use dss.Scd.Store.Subscriptions.{increment_notification_indices_for_constraints}
use dss.Scd.Store.Subscriptions.Laws.{increment_lem}
use dss.Scd.Store.Constraints.{constraint_to_model, validate_cells, upsert_constraint}
use dss.Scd.Constraints.{
  ConstraintChange, constraint_version, find_constraint, constraint_notify_volume, put_constraint,
}
use dss.Scd.Constraints.Laws.{find_lem, find-Reads}

-- How a new record follows from the stored one, if any.
abbrev pub FollowsConstraint :
    External → Constraint → Option ConstraintRecord → ConstraintRecord → Type 0
FollowsConstraint ext c none rec = (c.ovn ≡ "") × (rec.version ≡ 1)
FollowsConstraint ext c (some old) rec =
    (old.manager ≡ c.manager)
    × ((constraint_to_model ext old).ovn ≡ c.ovn)
    × (rec.version ≡ next_version old.version)

pub record StoresConstraint (ext : External) (now : Time) (c : Constraint) (s s' : State)
    : Type 0 where
  pub rec : ConstraintRecord
  pub stored : GoMap.get s'.constraints c.id ≡ some rec
  pub manager : rec.manager ≡ c.manager
  pub uss_base_url : rec.uss_base_url ≡ c.uss_base_url
  pub volume : rec.volume ≡ c.volume
  pub updated_at : rec.updated_at ≡ now
  pub follows : FollowsConstraint ext c (GoMap.get s.constraints c.id) rec
  pub others :
      (id : EntityId)
      → (c.id == id) ≡ false
      → GoMap.get s'.constraints id ≡ GoMap.get s.constraints id
  pub operational_intents : s'.operational_intents ≡ s.operational_intents
  pub availabilities : s'.availabilities ≡ s.availabilities

version-Follows :
    (ext : External) (c : Constraint) (o : Option ConstraintRecord) (v : VersionNumber)
    (rec : ConstraintRecord)
    → constraint_version c (Option.map (constraint_to_model ext) o) ≡ ok v
    → rec.version ≡ v
    → FollowsConstraint ext c o rec
unfolding constraint_version constraint_to_model
version-Follows ext c none v rec h e = ((eq_iff c.ovn "").0 (ground arith), ground arith)
version-Follows ext c (some old) v rec h e = (
  (eq_iff old.manager c.manager).0 (ground arith),
  (eq_iff (constraint_to_model ext old).ovn c.ovn).0 (ground arith),
  ground arith,
)

abbrev stored_record : Time → Constraint → ConstraintRecord
stored_record now c = record {
  id = c.id;
  manager = c.manager;
  version = c.version;
  uss_base_url = c.uss_base_url;
  volume = c.volume;
  updated_at = now;
}

module _ (ext : External) (now : Time) where
  upsert_constraint-ok :
      (c stored : Constraint) (s s1 : State)
      → upsert_constraint ext now c s ≡ (ok stored, s1)
      → s1 ≡ record s { constraints = GoMap.set s.constraints c.id (stored_record now c) }
  unfolding upsert_constraint
  upsert_constraint-ok c stored s s1 h = elim (Result-cases (validate_cells ext c.cells)) [
    | inl (u, e) ↦ elim (Result-cases (require_extent_times c.start_time c.end_time)) [
      | inl (v, f) ↦ sym (ok-pair (rw f at (rw (e, upsert_constraint) at h))).1
      | inr (x, f) ↦ cc (rw f at (rw (e, upsert_constraint) at h))
    ]
    | inr (x, e) ↦ cc (rw (e, upsert_constraint) at h)
  ]

  notify-same :
      (v : CellsVolume4D) (s : State)
      → (increment_notification_indices_for_constraints ext v s).1 ≡ record s {
        subscriptions = (increment_notification_indices_for_constraints ext v s).1.subscriptions;
      }
  unfolding increment_notification_indices_for_constraints
  notify-same v s = rw increment_lem refl

  -- An upsert of a constraint that succeeds stores one of the requesting manager with the volume and
  -- the URL of the request under its id. A new one has version 1 and was requested without an OVN;
  -- another belonged to the same manager, its OVN was the one given, and its version is followed by
  -- the next. No other constraint and no operational intent or availability changes.
  pub put_constraint-Stores :
      (c : Constraint) {s s' : State} {r : ConstraintChange}
      → put_constraint ext now c s ≡ (ok r, s')
      → StoresConstraint ext now c s s'
  unfolding put_constraint
  put_constraint-Stores c {s} {s'} h =
      let (o, e0, h0) = Reads-ok (find_constraint ext c.id) _ (find-Reads ext c.id) h in
      let same = (ok-pair (sym e0 ∙ find_lem ext c.id s)).0 in
      let (v, e1, h1) = Reads-ok (lift (constraint_version c o)) _ (λ t. refl) h0 in
      let (stored, s1, e2, h2) =
        >>=-ok (upsert_constraint ext now (record c { version = v })) _ h1 in
      let (subs, s2, e3, h3) =
        >>=-ok
          (increment_notification_indices_for_constraints ext (constraint_notify_volume ext c o)) _
          h2 in
      written v
        (version-Follows ext c (GoMap.get s.constraints c.id) v
          (stored_record now (record c { version = v })) (rw same at (ap (λ x. x.0) e1)) refl)
        (tables v (constraint_notify_volume ext c o) s1 s2
          (upsert_constraint-ok (record c { version = v }) stored s s1 e2)
          (ap (λ x. x.1) (sym e3) ∙ notify-same (constraint_notify_volume ext c o) s1)
          (ok-pair h3).1)
    where
      new_record : VersionNumber → ConstraintRecord
      new_record v = stored_record now (record c { version = v })

      Written : VersionNumber → Type 0
      Written v = s' ≡ record s {
        constraints = GoMap.set s.constraints c.id (new_record v);
        subscriptions = s'.subscriptions;
      }

      tables :
          (v : VersionNumber) (vol : CellsVolume4D) (s1 s2 : State)
          → s1 ≡ record s { constraints = GoMap.set s.constraints c.id (new_record v) }
          → s2 ≡ record s1 {
            subscriptions =
                (increment_notification_indices_for_constraints ext vol s1).1.subscriptions;
          }
          → s2 ≡ s'
          → Written v
      tables v vol s1 s2 a b d = cc (a, b, d)

      written :
          (v : VersionNumber)
          → FollowsConstraint ext c (GoMap.get s.constraints c.id) (new_record v)
          → Written v
          → StoresConstraint ext now c s s'
      written v f q = record {
        rec = new_record v;
        stored = rw (q, get-set, str_eq_refl) refl;
        manager = refl;
        uss_base_url = refl;
        volume = refl;
        updated_at = refl;
        follows = f;
        others = λ id ne. rw (q, get-set, ne) refl;
        operational_intents = ap (λ t. t.operational_intents) q;
        availabilities = ap (λ t. t.availabilities) q;
      }
