-- ===== src/Scd/Store/Subscriptions/Laws.antt =====
-- What the notification loop does, as one equation and as a statement about the stored records.
use mathlib.Core.List.{Memᴰ}
use dss.Prelude.{
  ◌+◌, ◌%◌, ◌^◌, ◌≡◌, refl, sym, ◌↔◌, inl, inr, Bool, true, none, some, List, [], ◌∷◌, map, ◌&&◌,
  filter, arith, Bool-cases, mem-map, mem_of_map, mem-filter, mem_of_filter,
}
use dss.GoMap
use dss.GoMap.{GoMap, modified, get-modify_where, mem-values_of_get, get_of_mem-values}
use dss.Exec.{ok}
use dss.External.{External}
use dss.Models.{CellsVolume4D}
use dss.Scd.Models.{EntityId, Subscription}
use dss.Scd.Store.Records.{State, SubscriptionRecord}
use dss.Scd.Store.Spec.{SharesCell, IsOrdered, overlaps_iff, overlaps_time_iff}
use dss.Scd.Store.Subscriptions.Defs.{
  subscription_to_model, in_cells_volume, bumped, increment_loop, increment_notification_indices,
}

-- The subscriptions that a notification reaches.
abbrev pub reached : CellsVolume4D → (SubscriptionRecord → Bool) → SubscriptionRecord → Bool
reached v notified rec = in_cells_volume v rec && notified rec

module _ (ext : External) where
  increment_loop_lem :
      (p : SubscriptionRecord → Bool) (m : GoMap SubscriptionRecord)
      → increment_loop ext p m ≡ (
        GoMap.modify_where p bumped m,
        map (λ rec. subscription_to_model ext (bumped rec)) (filter p (GoMap.values m)),
      )
  unfolding increment_loop filter GoMap.modify_where
  increment_loop_lem p [] = refl
  increment_loop_lem p ((k, rec) ∷ m) = elim (Bool-cases (p rec)) [
    | inl h ↦ rw (increment_loop_lem p m, h)
    | inr h ↦ rw (increment_loop_lem p m, h)
  ]

  module _ (v : CellsVolume4D) (notified : SubscriptionRecord → Bool) (s : State) where
    pub increment_lem : increment_notification_indices ext v notified s ≡ (
      ok (
          map
            (λ rec. subscription_to_model ext (bumped rec))
            (filter (reached v notified) (GoMap.values s.subscriptions))),
      record s { subscriptions = GoMap.modify_where (reached v notified) bumped s.subscriptions },
    )
    unfolding increment_notification_indices
    increment_lem = rw increment_loop_lem

-- A subscription that asks for the notifications and shares a cell and an instant with the area.
pub record IsReached (v : CellsVolume4D) (notified : SubscriptionRecord → Bool)
    (rec : SubscriptionRecord) : Type 0 where
  pub cells : SharesCell rec.cells v.cells
  pub starts : IsOrdered (some rec.start_time) v.end_time
  pub ends : IsOrdered v.start_time (some rec.end_time)
  pub asks : notified rec ≡ true

and_true : (a b : Bool) → (a && b) ≡ true → (a ≡ true) × (b ≡ true)
and_true a b h = ground arith

pub reached_iff :
    (v : CellsVolume4D) (notified : SubscriptionRecord → Bool) (rec : SubscriptionRecord)
    → (reached v notified rec ≡ true) ↔ IsReached v notified rec
unfolding in_cells_volume
reached_iff v notified rec = (
  λ h.
      let (q, n) = and_true _ _ h in
      let (c, t) = and_true _ _ q in
      let (st, en) = (overlaps_time_iff rec.start_time rec.end_time v).0 t in
      record { cells = (overlaps_iff rec.cells v.cells).0 c; starts = st; ends = en; asks = n },
  λ r. rw (
    (overlaps_iff rec.cells v.cells).1 r.cells,
    (overlaps_time_iff rec.start_time rec.end_time v).1 (r.starts, r.ends),
    r.asks,
  ),
)

-- The record with its index one higher, at uint64.
abbrev pub raised : SubscriptionRecord → SubscriptionRecord
raised rec = record rec { notification_index = (rec.notification_index + 1) % 2 ^ 64 }

bumped-raised : (rec : SubscriptionRecord) → bumped rec ≡ raised rec
unfolding bumped
bumped-raised rec = refl

-- The effect of a notification on the store, and what it hands out.
pub record Notifies (ext : External) (v : CellsVolume4D) (notified : SubscriptionRecord → Bool)
    (s s' : State) (out : List Subscription) : Type 0 where
  pub reached_bumped :
      (id : EntityId) (rec : SubscriptionRecord)
      → GoMap.get s.subscriptions id ≡ some rec
      → IsReached v notified rec
      → GoMap.get s'.subscriptions id ≡ some (raised rec)
  pub others_kept :
      (id : EntityId) (rec : SubscriptionRecord)
      → GoMap.get s.subscriptions id ≡ some rec
      → ¬ IsReached v notified rec
      → GoMap.get s'.subscriptions id ≡ some rec
  pub none_made :
      (id : EntityId) → GoMap.get s.subscriptions id ≡ none → GoMap.get s'.subscriptions id ≡ none
  pub told :
      (sub : Subscription)
      → Memᴰ sub out ↔ (
          (id : EntityId) × (rec : SubscriptionRecord) × (GoMap.get s.subscriptions id ≡ some rec)
          × IsReached v notified rec
          × (sub ≡ subscription_to_model ext (raised rec)))
  pub rest_kept : s' ≡ record s { subscriptions = s'.subscriptions }

module _ (ext : External) (v : CellsVolume4D) (notified : SubscriptionRecord → Bool)
    (s : State) where
  after_bump :
      (id : EntityId)
      → GoMap.get (GoMap.modify_where (reached v notified) bumped s.subscriptions) id
        ≡ modified (reached v notified) bumped (GoMap.get s.subscriptions id)
  after_bump id = get-modify_where (reached v notified) bumped s.subscriptions id

  -- A notification of an area never fails. It raises the index of exactly the stored subscriptions
  -- that ask for it and share a cell and an instant with the area, it leaves all else in the store,
  -- and it returns exactly those subscriptions, with the index after the raise, if no key is stored
  -- twice.
  pub increment-Notifies :
      GoMap.HasDistinctKeys s.subscriptions
      → (out : List Subscription) × (s' : State) × (increment_notification_indices ext v notified s
          ≡ (ok out, s'))
        × Notifies ext v notified s s' out
  increment-Notifies distinct = (
    _,
    _,
    increment_lem ext v notified s,
    record {
      reached_bumped =
          λ id rec e r. rw (after_bump id, e, (reached_iff v notified rec).1 r, bumped-raised rec);
      others_kept = λ id rec e n. elim (Bool-cases (reached v notified rec)) [
        | inl q ↦ absurd (n ((reached_iff v notified rec).0 q))
        | inr q ↦ rw (after_bump id, e, q)
      ];
      none_made = λ id e. rw (after_bump id, e);
      told = λ sub. (
        λ m.
            let (rec, n, e) = mem_of_map _ _ m in
            let (stored, q) = mem_of_filter _ _ n in
            let (id, g) = get_of_mem-values s.subscriptions distinct stored in
            (id, rec, g, (reached_iff v notified rec).0 q, rw (bumped-raised rec) at e),
        λ w.
            rw (w.4, sym (bumped-raised w.1))
              (mem-map _ _ (
                mem-filter _ _ (mem-values_of_get s.subscriptions w.0 w.2)
                  ((reached_iff v notified w.1).1 w.3))),
      );
      rest_kept = refl;
    },
  )
