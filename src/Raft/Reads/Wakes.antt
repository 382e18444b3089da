-- ===== src/Raft/Reads/Wakes.antt =====
-- The waiters of pkg/raftstore/consensus/readindex.go: each read goes on waiting on its channel, or the
-- channel is closed.
use mathlib.Core.List.{Memᴰ}
use dss.Prelude.{
  ℕ, ◌≤◌, ◌≡◌, refl, sym, ap, ◌∙◌, subst, ◌⊎◌, inl, inr, String, true, some, List, [], ◌∷◌, ◌==◌,
  leb, arith, Bool-cases, Option-cases, eq_iff, str_eq_refl,
}
use dss.GoMap
use dss.GoMap.{GoMap, get-set, get-delete}
use dss.Raft.Proposals.{Channel}
use dss.Raft.Reads.{PendingRead, ReadIndexTracker, set_index, is_ready, release_loop}

-- A channel that is closed stays closed.
pub loop-keeps :
    (a : ℕ) (m : GoMap PendingRead) (cl : List Channel) (c : Channel)
    → Memᴰ c cl
    → Memᴰ c (release_loop a m cl).1
unfolding release_loop
loop-keeps a [] cl c n = n
loop-keeps a ((k, q) ∷ m) cl c n = elim (Bool-cases (is_ready a q)) [
  | inl r ↦ rw r (loop-keeps a m (q.done ∷ cl) c (Memᴰ.tail n))
  | inr r ↦ rw r (loop-keeps a m cl c n)
]

-- The channel of a read that is ready is closed.
pub loop-closes :
    (a : ℕ) (m : GoMap PendingRead) (cl : List Channel) (id : String) (p : PendingRead)
    → GoMap.get m id ≡ some p
    → is_ready a p ≡ true
    → Memᴰ p.done (release_loop a m cl).1
unfolding release_loop GoMap.get
loop-closes a [] cl id p h ready = absurd (ground (arith, h))
loop-closes a ((k, q) ∷ m) cl id p h ready = elim (Bool-cases (k == id)) [
  | inl e ↦
      let same : q ≡ p = cc (rw e at h) in
      let r : is_ready a q ≡ true = subst (λ x. is_ready a x ≡ true) (sym same) ready in
      rw r (loop-keeps a m (q.done ∷ cl) p.done (Memᴰ.head (sym (ap (λ x. x.done) same))))
  | inr e ↦ elim (Bool-cases (is_ready a q)) [
    | inl r ↦ rw r (loop-closes a m (q.done ∷ cl) id p (rw e at h) ready)
    | inr r ↦ rw r (loop-closes a m cl id p (rw e at h) ready)
  ]
]

-- Where the read stands that waits on a channel: it still waits, or the channel is closed.
abbrev pub WaitsOrIsClosed : ReadIndexTracker → String → Channel → Type 0
WaitsOrIsClosed r id c =
    ((q : PendingRead) × (GoMap.get r.pending id ≡ some q) × (q.done ≡ c)) ⊎ Memᴰ c r.closed

pub set_index-keeps :
    (id : String) (i a : ℕ) (r : ReadIndexTracker) (c : Channel)
    → Memᴰ c r.closed
    → Memᴰ c (set_index id i a r).closed
unfolding set_index
set_index-keeps id i a r c n = elim (Option-cases (GoMap.get r.pending id)) [
  | inl e ↦ rw (e, set_index) n
  | inr (q, e) ↦ elim (Bool-cases (leb i a)) [
    | inl le ↦ rw (e, set_index) (rw le (Memᴰ.tail n))
    | inr gt ↦ rw (e, set_index) (rw gt n)
  ]
]

pub set_index-closes :
    (id : String) (i a : ℕ) (r : ReadIndexTracker) (p : PendingRead)
    → GoMap.get r.pending id ≡ some p
    → i ≤ a
    → Memᴰ p.done (set_index id i a r).closed
unfolding set_index
set_index-closes id i a r p h le =
    let le' : leb i a ≡ true = ground arith in rw (h, set_index) (rw le' (Memᴰ.head refl))

pub set_index-WaitsOrIsClosed :
    (id : String) (i a : ℕ) (r : ReadIndexTracker) (j : String) (p : PendingRead)
    → GoMap.get r.pending j ≡ some p
    → WaitsOrIsClosed (set_index id i a r) j p.done
unfolding set_index
set_index-WaitsOrIsClosed id i a r j p h = elim (Option-cases (GoMap.get r.pending id)) [
  | inl e ↦ rw (e, set_index) (inl (p, h, refl))
  | inr (q, e) ↦
      let set_q : PendingRead = record q { index = i; index_known = true } in
      elim (Bool-cases (id == j)) [
        | inl s ↦
            let same : q ≡ p = cc (rw ((eq_iff id j).0 s) at e, h) in
            elim (Bool-cases (leb i a)) [
              | inl le ↦ rw (e, set_index) (rw le (inr (Memᴰ.head (sym (ap (λ x. x.done) same)))))
              | inr gt ↦
                  rw (e, set_index)
                    (rw gt (
                      inl (set_q, get-set r.pending id j set_q ∙ rw s refl, ap (λ x. x.done) same)))
            ]
        | inr s ↦ elim (Bool-cases (leb i a)) [
          | inl le ↦ rw (e, set_index) (rw le (inl (p, get-delete r.pending id j ∙ rw s h, refl)))
          | inr gt ↦
              rw (e, set_index) (rw gt (inl (p, get-set r.pending id j set_q ∙ rw s h, refl)))
        ]
      ]
]

-- A read that still waits has the index that was set last.
pub set_index-known :
    (id : String) (i a : ℕ) (r : ReadIndexTracker) (p : PendingRead)
    → GoMap.get (set_index id i a r).pending id ≡ some p
    → (p.index_known ≡ true) × (p.index ≡ i)
unfolding set_index
set_index-known id i a r p h = elim (Option-cases (GoMap.get r.pending id)) [
  | inl e ↦ let k = rw (e, set_index) at h in absurd (ground (arith, e, k))
  | inr (q, e) ↦
      let k = rw (e, set_index) at h in
      elim (Bool-cases (leb i a)) [
        | inl le ↦
            let x = rw (get-delete r.pending id id, str_eq_refl id) at (rw le at k) in
            absurd (ground (arith, x))
        | inr gt ↦
            let x = rw (get-set r.pending id id, str_eq_refl id) at (rw gt at k) in (cc x, cc x)
      ]
]
