-- ===== src/Scd/Oir/Resolve/Laws.antt =====
-- The subscription that is attached covers the operational intent.
use dss.Prelude.{
  ℕ, ◌≡◌, refl, ap, subst, ◌∙◌, inl, inr, ◌≤◌, Bool, true, false, Option, none, some, ◌||◌, arith,
  Bool-cases, Option-cases,
}
use dss.Exec.{Result, ok, deref}
use dss.Exec.Laws.{bind_result-ok}
use dss.External.{External, ContainsUnion}
use dss.Models.{CellsVolume4D, after, before}
use dss.Scd.Models.{Subscription}
use dss.Scd.Store.Spec.{IsOrdered}
use dss.Scd.Oir.Params.{ValidOirParams}
use dss.Scd.Oir.Resolve.{
  Changed, extend, cover_start, cover_end, cover_cells, ensure_subscription_covers_oir,
}

-- One step keeps all but the volume, says whether it changed anything, and changes only an implicit
-- subscription.
pub record IsStep (sub : Subscription) (c : Changed) : Type 0 where
  pub same : c.0 ≡ record sub { volume = c.0.volume }
  pub unchanged : c.1 ≡ false → c.0 ≡ sub
  pub explicit : sub.implicit_subscription ≡ false → c.1 ≡ false

extend-IsStep :
    (sub : Subscription) (v : CellsVolume4D) {c : Changed}
    → extend sub v ≡ ok c
    → IsStep sub c × (c.0.volume ≡ v)
extend-IsStep sub v {c} h = elim (Bool-cases sub.implicit_subscription) [
  | inl e ↦
      let q : c ≡ (record sub { volume = v }, true) = cc (rw e at h) in
      rw q (record { same = refl; unchanged = λ f. cc f; explicit = λ f. cc (e, f) }, refl)
  | inr e ↦ cc (rw e at h)
]

kept-IsStep :
    (sub : Subscription) {c : Changed}
    → Path (Result Changed) (ok (sub, false)) (ok c)
    → IsStep sub c × (c.0 ≡ sub)
kept-IsStep sub {c} h =
    let q : c ≡ (sub, false) = cc in
    rw q (record { same = refl; unchanged = λ f. refl; explicit = λ f. refl }, refl)

IsOrdered-refl : (a : Option ℕ) → IsOrdered a a
IsOrdered-refl none = tt
IsOrdered-refl (some a) = omega arith

IsOrdered-none : (a : Option ℕ) → IsOrdered a none
IsOrdered-none none = tt
IsOrdered-none (some a) = tt

deref-ok : {A : Type 0} (o : Option A) {a : A} → deref o ≡ ok a → o ≡ some a
deref-ok none h = ground arith
deref-ok (some a) h = cc

after-false : (s t : ℕ) → after s t ≡ false → s ≤ t
after-false s t h = ground arith

before-false : (s t : ℕ) → before s t ≡ false → t ≤ s
before-false s t h = ground arith

module _ (sub : Subscription) (params : ValidOirParams) where
  cover_start_lem :
      {c : Changed}
      → cover_start sub params ≡ ok c
      → IsStep sub c
        × IsOrdered (c.0.start_time) (params.volume.start_time)
        × (c.0.end_time ≡ sub.end_time)
        × (c.0.cells ≡ sub.cells)
  unfolding cover_start
  cover_start_lem {c} h = elim (Option-cases sub.start_time) [
    | inl e ↦
        let (st, q) = kept-IsStep sub (rw (e, cover_start) at h) in
        (st, rw q (rw e tt), ap (λ x. x.end_time) q, ap (λ x. x.cells) q)
    | inr (s, e) ↦
        let (t, f, k) =
          bind_result-ok (deref params.volume.start_time) _ (rw (e, cover_start) at h) in
        elim (Bool-cases (after s t)) [
          | inl b ↦
              let (st, q) =
                extend-IsStep sub (record sub.volume { start_time = params.volume.start_time })
                  (rw b at k) in
              (
                st,
                rw q (IsOrdered-refl params.volume.start_time),
                ap (λ v. v.end_time) q,
                ap (λ v. v.cells) q,
              )
          | inr b ↦
              let (st, q) = kept-IsStep sub (rw b at k) in
              (
                st,
                rw (q, e, deref-ok params.volume.start_time f) (after-false s t b),
                ap (λ x. x.end_time) q,
                ap (λ x. x.cells) q,
              )
        ]
  ]

  cover_end_lem :
      {c : Changed}
      → cover_end sub params ≡ ok c
      → IsStep sub c
        × IsOrdered (params.volume.end_time) (c.0.end_time)
        × (c.0.start_time ≡ sub.start_time)
        × (c.0.cells ≡ sub.cells)
  unfolding cover_end
  cover_end_lem {c} h = elim (Option-cases sub.end_time) [
    | inl e ↦
        let (st, q) = kept-IsStep sub (rw (e, cover_end) at h) in
        (
          st,
          rw q (rw e (IsOrdered-none params.volume.end_time)),
          ap (λ x. x.start_time) q,
          ap (λ x. x.cells) q,
        )
    | inr (s, e) ↦
        let (t, f, k) = bind_result-ok (deref params.volume.end_time) _ (rw (e, cover_end) at h) in
        elim (Bool-cases (before s t)) [
          | inl b ↦
              let (st, q) =
                extend-IsStep sub (record sub.volume { end_time = params.volume.end_time })
                  (rw b at k) in
              (
                st,
                rw q (IsOrdered-refl params.volume.end_time),
                ap (λ v. v.start_time) q,
                ap (λ v. v.cells) q,
              )
          | inr b ↦
              let (st, q) = kept-IsStep sub (rw b at k) in
              (
                st,
                rw (q, e, deref-ok params.volume.end_time f) (before-false s t b),
                ap (λ x. x.start_time) q,
                ap (λ x. x.cells) q,
              )
        ]
  ]

  module _ (ext : External) where
    cells-IsStep : {c : Changed} → cover_cells ext sub params ≡ ok c → IsStep sub c
    unfolding cover_cells
    cells-IsStep {c} h = elim (Bool-cases (ext.contains sub.cells params.volume.cells)) [
      | inl b ↦ (kept-IsStep sub (rw b at h)).0
      | inr b ↦ (extend-IsStep sub _ (rw b at h)).0
    ]

    cover_cells_lem :
        {c : Changed}
        → ContainsUnion ext
        → cover_cells ext sub params ≡ ok c
        → IsStep sub c
          × (ext.contains c.0.cells params.volume.cells ≡ true)
          × (c.0.start_time ≡ sub.start_time)
          × (c.0.end_time ≡ sub.end_time)
    unfolding cover_cells
    cover_cells_lem {c} law h = elim (Bool-cases (ext.contains sub.cells params.volume.cells)) [
      | inl b ↦
          let (st, q) = kept-IsStep sub (rw b at h) in
          (st, rw q b, ap (λ x. x.start_time) q, ap (λ x. x.end_time) q)
      | inr b ↦
          let (st, q) = extend-IsStep sub _ (rw b at h) in
          (
            st,
            rw q (law.part sub.cells params.volume.cells),
            ap (λ v. v.start_time) q,
            ap (λ v. v.end_time) q,
          )
    ]

all_false : (a b c : Bool) → (a || (b || c)) ≡ false → (a ≡ false) × (b ≡ false) × (c ≡ false)
all_false a b c h = (ground arith, ground arith, ground arith)

-- Whatever S2 does, the subscription keeps its identity, and is the same if no change is reported.
pub ensure-IsStep :
    (ext : External) (sub : Subscription) (params : ValidOirParams) {c : Changed}
    → ensure_subscription_covers_oir ext sub params ≡ ok c
    → (c.0.id ≡ sub.id) × (c.1 ≡ false → c.0 ≡ sub)
unfolding ensure_subscription_covers_oir
ensure-IsStep ext sub params {c} h =
    let (a, e1, h1) = bind_result-ok (cover_start sub params) _ h in
    let (b, e2, h2) = bind_result-ok (cover_end a.0 params) _ h1 in
    let (d, e3, h3) = bind_result-ok (cover_cells ext b.0 params) _ h2 in
    let q : (d.0, a.1 || (b.1 || d.1)) ≡ c = cc h3 in
    subst (λ c. (c.0.id ≡ sub.id) × (c.1 ≡ false → c.0 ≡ sub)) q
      (join a b d (cover_start_lem sub params e1).0 (cover_end_lem a.0 params e2).0
        (cells-IsStep b.0 params ext e3))
  where
    join :
        (a b d : Changed)
        → IsStep sub a
        → IsStep a.0 b
        → IsStep b.0 d
        → (d.0.id ≡ sub.id) × ((a.1 || (b.1 || d.1)) ≡ false → d.0 ≡ sub)
    join a b d st1 st2 st3 = (
      ap (λ t. t.id) st3.same ∙ ap (λ t. t.id) st2.same ∙ ap (λ t. t.id) st1.same,
      λ f.
          let (x, y, z) = all_false a.1 b.1 d.1 f in
          st3.unchanged z ∙ st2.unchanged y ∙ st1.unchanged x,
    )

-- The subscription covers the request in time and space. It differs from the one before at most in
-- its volume, only if this was said, and only if it is implicit.
pub record IsCovering (ext : External) (sub : Subscription) (params : ValidOirParams) (c : Changed)
    : Type 0 where
  pub starts : IsOrdered c.0.start_time params.volume.start_time
  pub ends : IsOrdered params.volume.end_time c.0.end_time
  pub cells : ext.contains c.0.cells params.volume.cells ≡ true
  pub same : c.0 ≡ record sub { volume = c.0.volume }
  pub unchanged : c.1 ≡ false → c.0 ≡ sub
  pub explicit : sub.implicit_subscription ≡ false → c.0 ≡ sub

module _ (ext : External) (sub : Subscription) (params : ValidOirParams) where
  -- The three steps, each on what the one before left.
  steps-IsCovering :
      (a b d : Changed)
      → IsStep sub a
        × IsOrdered a.0.start_time params.volume.start_time
        × (a.0.end_time ≡ sub.end_time)
        × (a.0.cells ≡ sub.cells)
      → IsStep a.0 b
        × IsOrdered params.volume.end_time b.0.end_time
        × (b.0.start_time ≡ a.0.start_time)
        × (b.0.cells ≡ a.0.cells)
      → IsStep b.0 d
        × (ext.contains d.0.cells params.volume.cells ≡ true)
        × (d.0.start_time ≡ b.0.start_time)
        × (d.0.end_time ≡ b.0.end_time)
      → IsCovering ext sub params (d.0, a.1 || (b.1 || d.1))
  steps-IsCovering a b d (st1, starts, end1, cells1) (st2, ends, start2, cells2)
        (st3, cells, start3, end3) =
      record {
        starts = rw (start3, start2) starts;
        ends = rw end3 ends;
        cells = cells;
        same = cc (st1.same, st2.same, st3.same);
        unchanged = λ f.
            let (x, y, z) = all_false a.1 b.1 d.1 f in
            st3.unchanged z ∙ st2.unchanged y ∙ st1.unchanged x;
        explicit = λ i.
            let x = st1.unchanged (st1.explicit i) in
            let y = st2.unchanged (st2.explicit (ap (λ t. t.implicit_subscription) x ∙ i)) ∙ x in
            st3.unchanged (st3.explicit (ap (λ t. t.implicit_subscription) y ∙ i)) ∙ y;
      }

  -- If it succeeds, `ensureSubscriptionCoversOIR` gives a subscription that begins no later and ends
  -- no earlier than the operational intent, wherever it is bounded, and whose cells contain those of
  -- the operational intent. It is the one that was given but for its volume, the same one if no change
  -- is reported, and the same one if it is not implicit.
  pub ensure-IsCovering :
      {c : Changed}
      → ContainsUnion ext
      → ensure_subscription_covers_oir ext sub params ≡ ok c
      → IsCovering ext sub params c
  unfolding ensure_subscription_covers_oir
  ensure-IsCovering {c} law h =
      let (a, e1, h1) = bind_result-ok (cover_start sub params) _ h in
      let (b, e2, h2) = bind_result-ok (cover_end a.0 params) _ h1 in
      let (d, e3, h3) = bind_result-ok (cover_cells ext b.0 params) _ h2 in
      let q : (d.0, a.1 || (b.1 || d.1)) ≡ c = cc h3 in
      subst (IsCovering ext sub params) q (
        steps-IsCovering a b d (cover_start_lem sub params e1) (cover_end_lem a.0 params e2)
          (cover_cells_lem b.0 params ext law e3))
