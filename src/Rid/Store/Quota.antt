-- ===== src/Rid/Store/Quota.antt =====
-- The quota of requirement DSS0030, said without the code, and the writes that keep it.
use dss.Prelude.{
  ℕ, ◌≤◌, ◌<◌, ◌≡◌, refl, ap, inl, inr, Bool, true, some, [], ◌&&◌, not, any, filter, nat_eq, ◌==◌,
  arith, Bool-cases, any_iff, subst, sym, nat_eq_iff, eq_iff,
}
use dss.GoMap
use dss.GoMap.{
  GoMap, bit, count, count-set-le, count-delete-le, count-modify_where, length-filter_mono,
  length-filter-filter,
}
use dss.External.{CellUnion, Time}
use dss.Models.{before}
use dss.Rid.Models.{EntityId, Owner}
use dss.Rid.Store.Records.{State, SubscriptionRecord}
use dss.Rid.Store.Subscriptions.{is_live_in_cells, bumped, count_records, max_count}
use dss.Rid.Store.Subscriptions.Count.{length-le-max_count}

-- A subscription of the owner that has not expired and holds the cell.
unfoldable pub holds : Time → Owner → ℕ → SubscriptionRecord → Bool
holds now owner c rec =
    (rec.owner == owner) && not (before rec.end_time now) && any (nat_eq c) rec.cells

abbrev pub limit : ℕ
limit = 10

-- No owner has more than ten subscriptions in a cell that have not expired.
pub record IsWithinQuota (now : Time) (s : State) : Type 0 where
  pub within : (owner : Owner) (c : ℕ) → count (holds now owner c) s.subscriptions ≤ limit

holds-earlier :
    (now later : Time) (owner : Owner) (c : ℕ) (rec : SubscriptionRecord)
    → now ≤ later
    → holds later owner c rec ≡ true
    → holds now owner c rec ≡ true
unfolding holds
holds-earlier now later owner c rec le e = ground arith

-- Later, fewer subscriptions have not expired.
pub later-IsWithinQuota :
    (now later : Time) (s : State) → now ≤ later → IsWithinQuota now s → IsWithinQuota later s
later-IsWithinQuota now later s le h = record {
  within = λ owner c. omega (
    arith,
    h.within owner c,
    length-filter_mono (holds later owner c) (holds now owner c) (GoMap.values s.subscriptions)
        (λ rec e. holds-earlier now later owner c rec le e),
  );
}

holds-bumped :
    (now : Time) (owner : Owner) (c : ℕ) (rec : SubscriptionRecord)
    → holds now owner c (bumped rec) ≡ holds now owner c rec
unfolding holds bumped
holds-bumped now owner c rec = refl

pub bumped-IsWithinQuota :
    (now : Time) (q : SubscriptionRecord → Bool) (s : State)
    → IsWithinQuota now s
    → IsWithinQuota now (record s { subscriptions = GoMap.modify_where q bumped s.subscriptions })
bumped-IsWithinQuota now q s h = record {
  within = λ owner c. omega (
    arith,
    h.within owner c,
    count-modify_where (holds now owner c) q bumped s.subscriptions (holds-bumped now owner c),
  );
}

pub deleted-IsWithinQuota :
    (now : Time) (id : EntityId) (s : State)
    → IsWithinQuota now s
    → IsWithinQuota now (record s { subscriptions = GoMap.delete s.subscriptions id })
deleted-IsWithinQuota now id s h = record {
  within = λ owner c.
      omega (arith, h.within owner c, count-delete-le (holds now owner c) s.subscriptions id);
}

-- What the count of an area is a bound of.
abbrev pub IsCounted : Time → SubscriptionRecord → State → Type 0
IsCounted now rec s =
    (c : ℕ)
    → holds now rec.owner c rec ≡ true
    → count (holds now rec.owner c) s.subscriptions < limit

holds-owner :
    (now : Time) (owner : Owner) (c : ℕ) (rec : SubscriptionRecord)
    → holds now owner c rec ≡ true
    → rec.owner ≡ owner
unfolding holds
holds-owner now owner c rec e = (eq_iff rec.owner owner).0 (ground arith)

holds-cell :
    (now : Time) (owner : Owner) (c : ℕ) (rec : SubscriptionRecord)
    → holds now owner c rec ≡ true
    → any (nat_eq c) rec.cells ≡ true
unfolding holds
holds-cell now owner c rec e = ground arith

bit-le : (b : Bool) → bit b ≤ 1
bit-le b = ground arith

holds-live :
    (now : Time) (owner : Owner) (c : ℕ) (cells : CellUnion) (rec : SubscriptionRecord)
    → any (nat_eq c) cells ≡ true
    → holds now owner c rec ≡ true
    → (is_live_in_cells now cells (some owner) rec ≡ true) × (any (nat_eq c) rec.cells ≡ true)
unfolding holds is_live_in_cells
holds-live now owner c cells rec w e =
    let (d, m, q) = (any_iff (nat_eq c) rec.cells).0 (holds-cell now owner c rec e) in
    let shared : any (λ x. any (nat_eq x) cells) rec.cells ≡ true =
      (any_iff (λ x. any (nat_eq x) cells) rec.cells).1
        (d, m, subst (λ x. any (nat_eq x) cells ≡ true) ((nat_eq_iff c d).0 q) w) in
    ground arith

pub stored-IsWithinQuota :
    (now : Time) (id : EntityId) (rec : SubscriptionRecord) (s : State)
    → IsCounted now rec s
    → IsWithinQuota now s
    → IsWithinQuota now (record s { subscriptions = GoMap.set s.subscriptions id rec })
stored-IsWithinQuota now id rec s counted h = record {
  within = λ owner c. elim (Bool-cases (holds now owner c rec)) [
    | inl e ↦
        let same = holds-owner now owner c rec e in
        let below : count (holds now owner c) s.subscriptions < limit =
          subst (λ o. count (holds now o c) s.subscriptions < limit) same
            (counted c (subst (λ o. holds now o c rec ≡ true) (sym same) e)) in
        omega (
          arith,
          below,
          count-set-le (holds now owner c) s.subscriptions id rec,
          bit-le (holds now owner c rec),
        )
    | inr e ↦
        omega (
          arith,
          h.within owner c,
          count-set-le (holds now owner c) s.subscriptions id rec,
          ap bit e,
        )
  ];
}

-- The test of `checkSubscriptionCount` at the cells of the subscription.
pub check-IsCounted :
    (now : Time) (rec : SubscriptionRecord) (s : State)
    → max_count (
        count_records rec.cells
          (filter (is_live_in_cells now rec.cells (some rec.owner)) (GoMap.values s.subscriptions))
          [])
      < limit
    → IsCounted now rec s
check-IsCounted now rec s small c e =
    let wanted = holds-cell now rec.owner c rec e in
    omega (
      arith,
      small,
      length-le-max_count rec.cells c wanted
          (filter (is_live_in_cells now rec.cells (some rec.owner)) (GoMap.values s.subscriptions)),
      length-filter-filter (holds now rec.owner c) (is_live_in_cells now rec.cells (some rec.owner))
          (λ (r : SubscriptionRecord). any (nat_eq c) r.cells) (GoMap.values s.subscriptions)
          (λ r h. holds-live now rec.owner c rec.cells r wanted h),
    )
