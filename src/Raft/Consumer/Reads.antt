-- ===== src/Raft/Consumer/Reads.antt =====
-- Which reads an update releases.
use mathlib.Core.List.{Memᴰ}
use dss.Prelude.{
  ℕ, ◌≤◌, ◌≡◌, refl, sym, ap, ◌∙◌, subst, Bool-cases, ◌⊎◌, inl, inr, String, true, false, some,
  List, [], ◌∷◌, arith, ◌+◌,
}
use dss.GoMap
use dss.GoMap.{GoMap}
use dss.Raft.Proposals.{Channel}
use dss.Raft.Reads.{PendingRead, ReadIndexTracker, set_index, is_ready, release_loop, release_up_to}
use dss.Raft.Reads.Laws.{
  loop-get, loop-closed, set_index-get, set_index-closed, set_index-HasDistinctKeys,
}
use dss.Raft.Reads.Wakes.{WaitsOrIsClosed, loop-keeps, loop-closes}
use dss.Raft.Consumer.Wakes.{
  state_of, set_indices-keeps, set_indices-closes, set_indices-WaitsOrIsClosed,
  set_indices-IsRecorded,
}
use dss.Raft.Consumer.{ReadState, set_indices}

module _ (a : ℕ) where
  set_indices-get :
      (states : List ReadState) (r : ReadIndexTracker) (j : String) (p : PendingRead)
      → GoMap.get (set_indices a states r).pending j ≡ some p
      → (q : PendingRead) × (GoMap.get r.pending j ≡ some q)
        × (q.done ≡ p.done)
        × ((p ≡ q) ⊎ Memᴰ (state_of j p.index) states)
  unfolding set_indices
  set_indices-get [] r j p h = (p, h, refl, inl refl)
  set_indices-get (rs ∷ states) r j p h =
      let (q, g, d, w) = set_indices-get states (set_index rs.request_ctx rs.index a r) j p h in
      let (q', g', d', w') = set_index-get rs.request_ctx rs.index a r j q g in
      (
        q',
        g',
        d' ∙ d,
        elim w [
          | inr n ↦ inr (Memᴰ.tail n)
          | inl e ↦ elim w' [
            | inl e' ↦ inl (e ∙ e')
            | inr (same, at_index) ↦ inr (Memᴰ.head (cc (same, at_index, e)))
          ]
        ],
      )

  -- A read that waits on the channel, for which the library reports an index that is reached.
  abbrev Served : List ReadState → ReadIndexTracker → Channel → Type 0
  Served states r c =
      (j : String) × (q : PendingRead) × (i : ℕ) × (GoMap.get r.pending j ≡ some q)
      × (q.done ≡ c)
      × Memᴰ (state_of j i) states
      × (i ≤ a)

  set_indices-closed :
      (states : List ReadState) (r : ReadIndexTracker) (c : Channel)
      → Memᴰ c (set_indices a states r).closed
      → Memᴰ c r.closed ⊎ Served states r c
  unfolding set_indices
  set_indices-closed [] r c h = inl h
  set_indices-closed (rs ∷ states) r c h =
      elim (set_indices-closed states (set_index rs.request_ctx rs.index a r) c h) [
        | inl n ↦ elim (set_index-closed rs.request_ctx rs.index a r c n) [
          | inl n' ↦ inl n'
          | inr (q, g, d, le) ↦ inr (rs.request_ctx, q, rs.index, g, d, Memᴰ.head refl, le)
        ]
        | inr (j, q, i, g, d, m, le) ↦
            let (q', g', d', w) = set_index-get rs.request_ctx rs.index a r j q g in
            inr (j, q', i, g', d' ∙ d, Memᴰ.tail m, le)
      ]

  set_indices-HasDistinctKeys :
      (states : List ReadState) (r : ReadIndexTracker)
      → GoMap.HasDistinctKeys r.pending
      → GoMap.HasDistinctKeys (set_indices a states r).pending
  unfolding set_indices
  set_indices-HasDistinctKeys [] r d = d
  set_indices-HasDistinctKeys (rs ∷ states) r d =
      set_indices-HasDistinctKeys states (set_index rs.request_ctx rs.index a r)
        (set_index-HasDistinctKeys rs.request_ctx rs.index a r d)

  -- The index of a read was reported before, or is reported now.
  abbrev pub IsReported : List ReadState → String → PendingRead → ℕ → Type 0
  IsReported states id p i =
      ((p.index_known ≡ true) × (p.index ≡ i))
      ⊎ Memᴰ (record { request_ctx = id; index = i }) states

  -- A read is released, whose index is reached.
  pub record Releases (states : List ReadState) (r : ReadIndexTracker) (c : Channel) : Type 0 where
    pub id : String
    pub read : PendingRead
    pub index : ℕ
    pub found : GoMap.get r.pending id ≡ some read
    pub done : read.done ≡ c
    pub reported : IsReported states id read index
    pub reached : index ≤ a

  -- After the read states of an update: no read waits whose index is reached, the channels that were
  -- closed are of reads whose index is, every read that waited goes on waiting on its channel or has
  -- it closed, a reported index that is reached closes it, and one that is not is recorded.
  pub record HasServed (states : List ReadState) (r r' : ReadIndexTracker) : Type 0 where
    pub waiting :
        (id : String) (p : PendingRead)
        → GoMap.get r'.pending id ≡ some p
        → p.index_known ≡ true
        → a + 1 ≤ p.index
    pub released : (c : Channel) → Memᴰ c r'.closed → Memᴰ c r.closed ⊎ Releases states r c
    pub kept : (c : Channel) → Memᴰ c r.closed → Memᴰ c r'.closed
    pub served :
        (id : String) (p : PendingRead)
        → GoMap.get r.pending id ≡ some p
        → WaitsOrIsClosed r' id p.done
    pub answered :
        (id : String) (p : PendingRead) (i : ℕ)
        → GoMap.get r.pending id ≡ some p
        → Memᴰ (state_of id i) states
        → i ≤ a
        → Memᴰ p.done r'.closed
    pub recorded :
        (id : String) (p : PendingRead) (i : ℕ)
        → Memᴰ (state_of id i) states
        → GoMap.get r'.pending id ≡ some p
        → (p.index_known ≡ true) × Memᴰ (state_of id p.index) states

  ready_lem : (p : PendingRead) → is_ready a p ≡ true → (p.index_known ≡ true) × (p.index ≤ a)
  unfolding is_ready
  ready_lem p h = (ground arith, ground arith)

  not_ready : (p : PendingRead) → is_ready a p ≡ false → p.index_known ≡ true → a + 1 ≤ p.index
  unfolding is_ready
  not_ready p h k = ground arith

  pub served_lem :
      (states : List ReadState) (r : ReadIndexTracker)
      → GoMap.HasDistinctKeys r.pending
      → HasServed states r (release_up_to a (set_indices a states r))
  unfolding release_up_to
  served_lem states r d =
      let mid = set_indices a states r in
      let d' = set_indices-HasDistinctKeys states r d in
      record {
        waiting = λ id p g k. not_ready p ((loop-get a mid.pending mid.closed id d' p).0 g).1 k;
        released = λ c m. elim (loop-closed a mid.pending mid.closed c d' m) [
          | inl n ↦ elim (set_indices-closed states r c n) [
            | inl n' ↦ inl n'
            | inr (j, q, i, g, done, rs, le) ↦ inr (record {
              id = j;
              read = q;
              index = i;
              found = g;
              done = done;
              reported = inr rs;
              reached = le;
            })
          ]
          | inr w ↦
              let (q, g, done, from) = set_indices-get states r w.id w.read w.found in
              let (known, le) = ready_lem w.read w.ready in
              inr (record {
                id = w.id;
                read = q;
                index = w.read.index;
                found = g;
                done = done ∙ w.done;
                reported = elim from [
                  | inl e ↦ inl (ap (λ x. x.index_known) (sym e) ∙ known, ap (λ x. x.index) (sym e))
                  | inr rs ↦ inr rs
                ];
                reached = le;
              })
        ];
        kept = λ c n. loop-keeps a mid.pending mid.closed c (set_indices-keeps a states r c n);
        served = λ id p g. elim (set_indices-WaitsOrIsClosed a states r id p g) [
          | inr n ↦ inr (loop-keeps a mid.pending mid.closed p.done n)
          | inl (q, g', done) ↦ elim (Bool-cases (is_ready a q)) [
            | inl y ↦ inr (
                subst (λ c. Memᴰ c (release_loop a mid.pending mid.closed).1) done
                  (loop-closes a mid.pending mid.closed id q g' y))
            | inr n ↦ inl (q, (loop-get a mid.pending mid.closed id d' q).1 (g', n), done)
          ]
        ];
        answered = λ id p i g m le.
            loop-keeps a mid.pending mid.closed p.done
              (set_indices-closes a states r id p i g m le);
        recorded = λ id p i m g.
            set_indices-IsRecorded a states states r id (λ j n. n) (inr (i, m)) p
              ((loop-get a mid.pending mid.closed id d' p).0 g).0;
      }
