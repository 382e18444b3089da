-- ===== src/Raft/Reads/Laws.antt =====
-- Which reads are released, and that none is released twice.
use mathlib.Core.List.{Memᴰ}
use mathlib.Core.List.Memᴰ
use dss.Prelude.{
  ℕ, ◌≤◌, ◌≡◌, refl, sym, subst, ◌↔◌, ◌⊎◌, inl, inr, String, true, false, none, some, List, [], ◌∷◌,
  ◌==◌, leb, arith, Bool-cases, Option-cases, eq_iff, str_eq_refl,
}
use dss.GoMap
use dss.GoMap.{GoMap, get-set, get-delete, set-HasDistinctKeys, delete-HasDistinctKeys}
use dss.Raft.Proposals.{Channel}
use dss.Raft.Reads.{PendingRead, ReadIndexTracker, set_index, is_ready, release_loop}

-- What the loop leaves: the reads that are not ready.
pub loop-get :
    (a : ℕ) (m : GoMap PendingRead) (cl : List Channel) (id : String)
    → GoMap.HasDistinctKeys m
    → (p : PendingRead)
    → (GoMap.get (release_loop a m cl).0 id ≡ some p)
      ↔ ((GoMap.get m id ≡ some p) × (is_ready a p ≡ false))
unfolding release_loop GoMap.get
loop-get a [] cl id d p = (λ h. absurd (ground arith), λ w. absurd (ground (arith, w.0)))
loop-get a ((k, q) ∷ m) cl id d p = elim (Bool-cases (is_ready a q)) [
  | inl r ↦ rw r (
    λ h.
        let (g, n) = (loop-get a m (q.done ∷ cl) id d.1 p).0 h in
        elim (Bool-cases (k == id)) [
          | inl e ↦ let same = (eq_iff k id).0 e in absurd (ground (arith, d.0, g, same))
          | inr e ↦ rw e (g, n)
        ],
    λ w. elim (Bool-cases (k == id)) [
      | inl e ↦ absurd (ground (arith, rw e at w.0, w.1, r))
      | inr e ↦ (loop-get a m (q.done ∷ cl) id d.1 p).1 (rw e at w.0, w.1)
    ],
  )
  | inr r ↦ rw r (elim (Bool-cases (k == id)) [
    | inl e ↦ rw e (λ h. (h, subst (λ x. is_ready a x ≡ false) (some_eq h) r), λ w. w.0)
    | inr e ↦ rw e (loop-get a m cl id d.1 p)
  ])
]
  where
    some_eq : {x y : PendingRead} → some x ≡ some y → x ≡ y
    some_eq h = cc h

-- A pending read whose channel is this one, and that may be released at the applied index.
pub record IsReleased (a : ℕ) (m : GoMap PendingRead) (c : Channel) : Type 0 where
  pub id : String
  pub read : PendingRead
  pub found : GoMap.get m id ≡ some read
  pub ready : is_ready a read ≡ true
  pub done : read.done ≡ c

rest-IsReleased :
    (a : ℕ) (k : String) (q : PendingRead) (m : GoMap PendingRead) (c : Channel)
    → GoMap.get m k ≡ none
    → IsReleased a m c
    → IsReleased a ((k, q) ∷ m) c
unfolding GoMap.get
rest-IsReleased a k q m c absent w = elim (Bool-cases (k == w.id)) [
  | inl e ↦ absurd (ground (arith, absent, w.found, (eq_iff k w.id).0 e))
  | inr e ↦ record {
    id = w.id;
    read = w.read;
    found = rw e w.found;
    ready = w.ready;
    done = w.done;
  }
]

-- The channels that are closed after the loop: those before, and those of the reads that were ready.
pub loop-closed :
    (a : ℕ) (m : GoMap PendingRead) (cl : List Channel) (c : Channel)
    → GoMap.HasDistinctKeys m
    → Memᴰ c (release_loop a m cl).1
    → Memᴰ c cl ⊎ IsReleased a m c
unfolding release_loop GoMap.get
loop-closed a [] cl c d h = inl h
loop-closed a ((k, q) ∷ m) cl c d h = elim (Bool-cases (is_ready a q)) [
  | inl r ↦ elim (loop-closed a m (q.done ∷ cl) c d.1 (rw r at h)) [
    | inl n ↦ elim (Memᴰ.cases_cons n) [
      | inl e ↦
          inr
            (record { id = k; read = q; found = rw (str_eq_refl k) refl; ready = r; done = sym e })
      | inr n' ↦ inl n'
    ]
    | inr w ↦ inr (rest-IsReleased a k q m c d.0 w)
  ]
  | inr r ↦ elim (loop-closed a m cl c d.1 (rw r at h)) [
    | inl n ↦ inl n
    | inr w ↦ inr (rest-IsReleased a k q m c d.0 w)
  ]
]

-- The reads and the channels after `setIndex`.
pub set_index-get :
    (id : String) (i a : ℕ) (r : ReadIndexTracker) (j : String) (p : PendingRead)
    → GoMap.get (set_index id i a r).pending j ≡ some p
    → (q : PendingRead) × (GoMap.get r.pending j ≡ some q)
      × (q.done ≡ p.done)
      × ((p ≡ q) ⊎ ((j ≡ id) × (p.index ≡ i)))
unfolding set_index
set_index-get id i a r j p h = elim (Option-cases (GoMap.get r.pending id)) [
  | inl e ↦ (p, rw (e, set_index) at h, refl, inl refl)
  | inr (q, e) ↦
      let k = rw (e, set_index) at h in
      elim (Bool-cases (leb i a)) [
        | inl le ↦
            let x = rw (get-delete r.pending id j) at (rw le at k) in
            elim (Bool-cases (id == j)) [
              | inl s ↦ absurd (ground (arith, rw s at x))
              | inr s ↦ (p, rw s at x, refl, inl refl)
            ]
        | inr gt ↦
            let x = rw (get-set r.pending id j) at (rw gt at k) in
            elim (Bool-cases (id == j)) [
              | inl s ↦
                  let same = (eq_iff id j).0 s in
                  let y = rw s at x in (q, rw same at e, cc y, inr (sym same, cc y))
              | inr s ↦ (p, rw s at x, refl, inl refl)
            ]
      ]
]

pub set_index-closed :
    (id : String) (i a : ℕ) (r : ReadIndexTracker) (c : Channel)
    → Memᴰ c (set_index id i a r).closed
    → Memᴰ c r.closed
      ⊎ ((p : PendingRead) × (GoMap.get r.pending id ≡ some p) × (p.done ≡ c) × (i ≤ a))
unfolding set_index
set_index-closed id i a r c h = elim (Option-cases (GoMap.get r.pending id)) [
  | inl e ↦ inl (rw (e, set_index) at h)
  | inr (q, e) ↦
      let k = rw (e, set_index) at h in
      elim (Bool-cases (leb i a)) [
        | inl le ↦ elim (Memᴰ.cases_cons (rw le at k)) [
          | inl s ↦ inr (q, e, sym s, ground arith)
          | inr n ↦ inl n
        ]
        | inr gt ↦ inl (rw gt at k)
      ]
]

pub set_index-HasDistinctKeys :
    (id : String) (i a : ℕ) (r : ReadIndexTracker)
    → GoMap.HasDistinctKeys r.pending
    → GoMap.HasDistinctKeys (set_index id i a r).pending
unfolding set_index
set_index-HasDistinctKeys id i a r d = elim (Option-cases (GoMap.get r.pending id)) [
  | inl e ↦ rw (e, set_index) d
  | inr (q, e) ↦ elim (Bool-cases (leb i a)) [
    | inl le ↦ rw (e, set_index) (rw le (delete-HasDistinctKeys r.pending id d))
    | inr gt ↦ rw (e, set_index) (rw gt (set-HasDistinctKeys r.pending id _ d))
  ]
]
