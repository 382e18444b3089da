-- ===== src/Scd/Store/OperationalIntents/Laws.antt =====
-- What reads and writes of one operational intent come to.
use dss.Prelude.{
  ◌≡◌, refl, sym, ◌∙◌, ◌⊎◌, inl, inr, false, some, [], ◌∷◌, ◌==◌, str_eq_refl, arith, if◌then◌else◌,
  Bool-cases, Option-cases, some_of,
}
use mathlib.Core.Option
use dss.GoMap
use dss.GoMap.{GoMap, get-set, get-delete}
use dss.Exec.{ok}
use dss.External.{External, Time}
use dss.Scd.Models.{EntityId, OperationalIntent, new_ovn_from_time}
use dss.Scd.Store.Records.{State, OperationalIntentRecord, require_extent_times}
use dss.Scd.Store.Valid.{HasBounds}
use dss.Scd.Store.OperationalIntents.Build.{attach, stored_availability, build_lem}
use dss.Scd.Store.OperationalIntents.Defs.{
  operational_intent_to_model, get_operational_intent, upsert_operational_intent, record_of,
}

module _ (ext : External) (s : State) where
  pub get_operational_intent_lem :
      (id : EntityId)
      → get_operational_intent ext id s
        ≡ (ok (Option.map (attach ext s) (GoMap.get s.operational_intents id)), s)
  unfolding get_operational_intent
  get_operational_intent_lem id = elim (Option-cases (GoMap.get s.operational_intents id)) [
    | inl e ↦ rw (e, get_operational_intent)
    | inr (rec, e) ↦ rw (e, get_operational_intent) (rw build_lem)
  ]

  abbrev pub with_oi : EntityId → OperationalIntentRecord → State
  with_oi id rec = record s { operational_intents = GoMap.set s.operational_intents id rec }

module _ (ext : External) (now : Time) (s : State) (o : OperationalIntent) where
  -- With all four bounds the operational intent is stored, and handed out as stored.
  pub upsert_bounded :
      HasBounds o.volume
      → upsert_operational_intent ext now o s
        ≡ (ok (attach ext s (record_of now o)), with_oi ext s o.id (record_of now o))
  unfolding upsert_operational_intent require_extent_times
  upsert_bounded b =
      ground (arith, build_lem ext (with_oi ext s o.id (record_of now o)) (record_of now o ∷ []))

  -- Without one of them nothing is stored.
  pub upsert-ok :
      {op : OperationalIntent} {s' : State}
      → upsert_operational_intent ext now o s ≡ (ok op, s')
      → HasBounds o.volume
  unfolding upsert_operational_intent require_extent_times
  upsert-ok h =
      let (start, start_eq) = some_of o.start_time (λ e. ground arith) in
      let (end, end_eq) = some_of o.end_time (λ e. ground arith) in
      let (lo, lo_eq) = some_of o.altitude_lo (λ e. ground arith) in
      let (hi, hi_eq) = some_of o.altitude_hi (λ e. ground arith) in
      record {
        start = start;
        end = end;
        lo = lo;
        hi = hi;
        start_eq = start_eq;
        end_eq = end_eq;
        lo_eq = lo_eq;
        hi_eq = hi_eq;
      }

  -- An upsert has all four bounds, or leaves the state as it is.
  pub upsert-cases : HasBounds o.volume ⊎ ((upsert_operational_intent ext now o s).1 ≡ s)
  unfolding upsert_operational_intent require_extent_times
  upsert-cases = elim (Option-cases o.start_time) [
    | inl e ↦ inr (ground arith)
    | inr (start, e) ↦ elim (Option-cases o.end_time) [
      | inl f ↦ inr (ground arith)
      | inr (end, f) ↦ elim (Option-cases o.altitude_lo) [
        | inl g ↦ inr (ground arith)
        | inr (lo, g) ↦ elim (Option-cases o.altitude_hi) [
          | inl k ↦ inr (ground arith)
          | inr (hi, k) ↦ inl (record {
            start = start;
            end = end;
            lo = lo;
            hi = hi;
            start_eq = e;
            end_eq = f;
            lo_eq = g;
            hi_eq = k;
          })
        ]
      ]
    ]
  ]

  pub upsert-ok_eqs :
      {op : OperationalIntent} {s' : State}
      → upsert_operational_intent ext now o s ≡ (ok op, s')
      → (op ≡ attach ext s (record_of now o)) × (s' ≡ with_oi ext s o.id (record_of now o))
  upsert-ok_eqs h = let e = sym (upsert_bounded (upsert-ok h)) ∙ h in (cc, cc)

-- What was handed out for `o`: its fields, its OVN, and its manager's availability on record.
pub record IsStored (ext : External) (now : Time) (s : State) (o op : OperationalIntent)
    : Type 0 where
  pub id : op.id ≡ o.id
  pub manager : op.manager ≡ o.manager
  pub version : op.version ≡ o.version
  pub state : op.state ≡ o.state
  pub past_ovns : op.past_ovns ≡ o.past_ovns
  pub uss_base_url : op.uss_base_url ≡ o.uss_base_url
  pub subscription_id : op.subscription_id ≡ o.subscription_id
  pub volume : op.volume ≡ o.volume
  pub ovn : op.ovn ≡ (if o.ovn == "" then new_ovn_from_time ext now o.id else o.ovn)
  pub uss_availability : op.uss_availability ≡ stored_availability s o.manager

module _ (ext : External) (now : Time) (s : State) (o : OperationalIntent) where
  attach-IsStored : IsStored ext now s o (attach ext s (record_of now o))
  unfolding record_of operational_intent_to_model
  attach-IsStored = record {
    id = refl;
    manager = refl;
    version = refl;
    state = refl;
    past_ovns = refl;
    uss_base_url = refl;
    subscription_id = refl;
    volume = refl;
    ovn = elim (Bool-cases (o.ovn == "")) [ inl e ↦ rw e | inr e ↦ rw (e, e) ];
    uss_availability = refl;
  }

  -- An upsert that succeeds hands out the operational intent with the fields given, an OVN (the one
  -- asked for, or one made from the time of the request) and its manager's availability on record. A
  -- read by its id then returns just that, a read by another id what it returned before, and the
  -- other tables are as they were.
  pub get-upsert :
      {op : OperationalIntent} {s' : State}
      → upsert_operational_intent ext now o s ≡ (ok op, s')
      → IsStored ext now s o op
        × (get_operational_intent ext o.id s' ≡ (ok (some op), s'))
        × ((id : EntityId)
            → (o.id == id) ≡ false
            → (get_operational_intent ext id s').0 ≡ (get_operational_intent ext id s).0)
        × (s' ≡ record s { operational_intents = s'.operational_intents })
  get-upsert {op} {s'} h =
      let (op_eq, s_eq) = upsert-ok_eqs ext now s o h in
      (
        rw op_eq attach-IsStored,
        rw (s_eq, op_eq, get_operational_intent_lem, get-set, str_eq_refl),
        λ id ne. rw (s_eq, get_operational_intent_lem, get-set, ne, get_operational_intent_lem),
        rw s_eq,
      )
