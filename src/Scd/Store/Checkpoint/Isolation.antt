-- ===== src/Scd/Store/Checkpoint/Isolation.antt =====
-- The checkpoint of pkg/scd/store/memstore/store.go shares no record with the table in use.
use mathlib.Core.List.{Memᴰ}
use mathlib.Core.List.Memᴰ
use dss.Prelude.{
  ℕ, ◌≤◌, ◌<◌, ◌≡◌, refl, ◌∙◌, inl, inr, [], ◌∷◌, nat_eq, arith, Bool-cases, nat_eq_iff,
}
use dss.GoMap.{GoMap}
use dss.Scd.Store.Records.{SubscriptionRecord}
use dss.Scd.Store.Checkpoint.Pointers.{
  Heap, write, alloc, PointerRepo, clone, raise_loop, Write, upsert, remove, notify, perform, save,
  reset, read, table, perform_values,
}
use dss.Scd.Store.Checkpoint.Memory.{
  Holds, AreDistinct, read-same, read-set, read-delete, set-Holds, delete-Holds, set-AreDistinct,
  delete-AreDistinct, raise_loop-next, raise_loop-other, read-raise_loop,
}

alloc-at : (rec : SubscriptionRecord) (h : Heap) → (alloc rec h).1.at_ h.next ≡ rec
unfolding alloc write
alloc-at rec h = rw ((nat_eq_iff h.next h.next).1 refl) refl

alloc-other :
    (rec : SubscriptionRecord) (h : Heap) (x : ℕ) → x < h.next → (alloc rec h).1.at_ x ≡ h.at_ x
unfolding alloc write
alloc-other rec h x lt = elim (Bool-cases (nat_eq x h.next)) [
  | inl e ↦ let same = (nat_eq_iff x h.next).0 e in absurd (omega (arith, same, lt))
  | inr e ↦ rw e refl
]

-- The table points to memory that has been given out.
abbrev pub IsBelow : GoMap ℕ → Heap → Type 0
IsBelow m h = (q : ℕ) → Holds m q → q < h.next

-- The clone reads as the table, it stands in new memory, and what was there before is not changed.
record IsClone (m : GoMap ℕ) (h : Heap) (m' : GoMap ℕ) (h' : Heap) : Type 0 where
  reads : read h' m' ≡ read h m
  kept : (x : ℕ) → x < h.next → h'.at_ x ≡ h.at_ x
  grows : h.next ≤ h'.next
  fresh : (q : ℕ) → Holds m' q → (h.next ≤ q) × (q < h'.next)
  distinct : AreDistinct m'

clone_lem : (m : GoMap ℕ) (h : Heap) → IsBelow m h → IsClone m h (clone m h).0 (clone m h).1
unfolding clone read alloc
clone_lem [] h below = record {
  reads = refl;
  kept = λ x lt. refl;
  grows = omega arith;
  fresh = λ q n. absurd (Memᴰ.not-nil n);
  distinct = tt;
}
clone_lem ((id, q) ∷ m) h below =
    let h1 = (alloc (h.at_ q) h).1 in
    let c = clone_lem m h1 (λ x n. let lt = below x (Memᴰ.tail n) in omega (arith, lt)) in
    let rest : read h1 m ≡ read h m =
      read-same h h1 m (λ x n. alloc-other (h.at_ q) h x (below x (Memᴰ.tail n))) in
    record {
      reads = rw (c.kept h.next (omega arith), alloc-at (h.at_ q) h, c.reads, rest) refl;
      kept = λ x lt. c.kept x (omega (arith, lt)) ∙ alloc-other (h.at_ q) h x lt;
      grows = omega (arith, c.grows);
      fresh = λ x n. elim (Memᴰ.cases_cons n) [
        | inl e ↦ (omega (arith, e), omega (arith, e, c.grows))
        | inr k ↦ let (lo, hi) = c.fresh x k in (omega (arith, lo), hi)
      ];
      distinct = (λ n. let (lo, hi) = c.fresh h.next n in absurd (omega (arith, lo)), c.distinct);
    }

-- No two ids share a pointer, and none is in use and in the checkpoint.
pub record IsSeparate (r : PointerRepo) : Type 0 where
  pub state_below : IsBelow r.state r.heap
  pub checkpoint_below : IsBelow r.checkpoint r.heap
  pub distinct : AreDistinct r.state
  pub apart : (q : ℕ) → Holds r.state q → ¬ Holds r.checkpoint q

-- The records of the checkpoint.
abbrev pub saved : PointerRepo → GoMap SubscriptionRecord
saved r = read r.heap r.checkpoint

-- What a step comes to.
pub record Leads (r : PointerRepo) (state checkpoint : GoMap SubscriptionRecord) : Type 0 where
  pub separate : IsSeparate r
  pub state_eq : table r ≡ state
  pub checkpoint_eq : saved r ≡ checkpoint

pub save_lem : (r : PointerRepo) → IsSeparate r → Leads (save r) (table r) (table r)
unfolding save
save_lem r s =
    let c = clone_lem r.state r.heap s.state_below in
    record {
      separate = record {
        state_below = λ q n. let lt = s.state_below q n in omega (arith, lt, c.grows);
        checkpoint_below = λ q n. (c.fresh q n).1;
        distinct = s.distinct;
        apart = λ q n k.
            let lt = s.state_below q n in
            let (lo, hi) = c.fresh q k in absurd (omega (arith, lt, lo));
      };
      state_eq = read-same r.heap _ r.state (λ q n. c.kept q (s.state_below q n));
      checkpoint_eq = c.reads;
    }

pub reset_lem : (r : PointerRepo) → IsSeparate r → Leads (reset r) (saved r) (saved r)
unfolding reset
reset_lem r s =
    let c = clone_lem r.checkpoint r.heap s.checkpoint_below in
    record {
      separate = record {
        state_below = λ q n. (c.fresh q n).1;
        checkpoint_below = λ q n. let lt = s.checkpoint_below q n in omega (arith, lt, c.grows);
        distinct = c.distinct;
        apart = λ q n k.
            let lt = s.checkpoint_below q k in
            let (lo, hi) = c.fresh q n in absurd (omega (arith, lt, lo));
      };
      state_eq = c.reads;
      checkpoint_eq = read-same r.heap _ r.checkpoint (λ q n. c.kept q (s.checkpoint_below q n));
    }

pub perform_lem :
    (w : Write) (r : PointerRepo)
    → IsSeparate r
    → Leads (perform w r) (perform_values (w ∷ []) (table r)) (saved r)
unfolding perform perform_values alloc
perform_lem (upsert id rec) r s =
    let h = (alloc rec r.heap).1 in
    let new : ¬ Holds r.state r.heap.next =
      (λ n. let lt = s.state_below _ n in absurd (omega (arith, lt))) in
    record {
      separate = record {
        state_below = λ q n. elim (set-Holds r.state id r.heap.next q n) [
          | inl e ↦ omega (arith, e)
          | inr k ↦ let lt = s.state_below q k in omega (arith, lt)
        ];
        checkpoint_below = λ q n. let lt = s.checkpoint_below q n in omega (arith, lt);
        distinct = set-AreDistinct r.state id r.heap.next new s.distinct;
        apart = λ q n k. elim (set-Holds r.state id r.heap.next q n) [
          | inl e ↦ let lt = s.checkpoint_below q k in absurd (omega (arith, lt, e))
          | inr n' ↦ s.apart q n' k
        ];
      };
      state_eq =
          read-set h r.state id r.heap.next
          ∙ rw
              (
                alloc-at rec r.heap,
                read-same r.heap h r.state (λ q n. alloc-other rec r.heap q (s.state_below q n)),
              )
              refl;
      checkpoint_eq =
          read-same r.heap h r.checkpoint
            (λ q n. alloc-other rec r.heap q (s.checkpoint_below q n));
    }
perform_lem (remove id) r s = record {
  separate = record {
    state_below = λ q n. s.state_below q (delete-Holds r.state id q n);
    checkpoint_below = s.checkpoint_below;
    distinct = delete-AreDistinct r.state id s.distinct;
    apart = λ q n k. s.apart q (delete-Holds r.state id q n) k;
  };
  state_eq = read-delete r.heap r.state id;
  checkpoint_eq = refl;
}
perform_lem (notify notified) r s =
    let h = raise_loop notified r.state r.heap in
    let next = raise_loop-next notified r.state r.heap in
    record {
      separate = record {
        state_below = λ q n. let lt = s.state_below q n in omega (arith, lt, next);
        checkpoint_below = λ q n. let lt = s.checkpoint_below q n in omega (arith, lt, next);
        distinct = s.distinct;
        apart = s.apart;
      };
      state_eq = read-raise_loop notified r.state r.heap s.distinct;
      checkpoint_eq =
          read-same r.heap h r.checkpoint
            (λ q n. raise_loop-other notified r.state r.heap q (λ k. s.apart q k n));
    }
