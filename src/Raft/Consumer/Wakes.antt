-- ===== src/Raft/Consumer/Wakes.antt =====
-- What the read states of an update in pkg/raftstore/consensus/consensus.go do to the reads that wait.
use mathlib.Core.List.{Memᴰ}
use mathlib.Core.List.Memᴰ
use dss.Prelude.{
  ℕ, ◌≤◌, ◌≡◌, refl, sym, ap, ◌∙◌, subst, ◌⊎◌, inl, inr, String, true, some, List, [], ◌∷◌,
}
use dss.GoMap
use dss.Raft.Proposals.{Channel}
use dss.Raft.Reads.{PendingRead, ReadIndexTracker, set_index}
use dss.Raft.Reads.Laws.{set_index-get}
use dss.Raft.Reads.Wakes.{
  WaitsOrIsClosed, set_index-keeps, set_index-closes, set_index-WaitsOrIsClosed, set_index-known,
}
use dss.Raft.Consumer.{ReadState, set_indices}

abbrev pub state_of : String → ℕ → ReadState
state_of id i = record { request_ctx = id; index = i }

module _ (a : ℕ) where
  pub set_indices-keeps :
      (states : List ReadState) (r : ReadIndexTracker) (c : Channel)
      → Memᴰ c r.closed
      → Memᴰ c (set_indices a states r).closed
  unfolding set_indices
  set_indices-keeps [] r c n = n
  set_indices-keeps (rs ∷ states) r c n =
      set_indices-keeps states (set_index rs.request_ctx rs.index a r) c
        (set_index-keeps rs.request_ctx rs.index a r c n)

  pub set_indices-WaitsOrIsClosed :
      (states : List ReadState) (r : ReadIndexTracker) (j : String) (p : PendingRead)
      → GoMap.get r.pending j ≡ some p
      → WaitsOrIsClosed (set_indices a states r) j p.done
  unfolding set_indices
  set_indices-WaitsOrIsClosed [] r j p h = inl (p, h, refl)
  set_indices-WaitsOrIsClosed (rs ∷ states) r j p h =
      let next = set_index rs.request_ctx rs.index a r in
      elim (set_index-WaitsOrIsClosed rs.request_ctx rs.index a r j p h) [
        | inl (q, g, d) ↦
            subst (WaitsOrIsClosed (set_indices a states next) j) d
              (set_indices-WaitsOrIsClosed states next j q g)
        | inr n ↦ inr (set_indices-keeps states next p.done n)
      ]

  -- A read is answered, for which an index is reported that is reached.
  pub set_indices-closes :
      (states : List ReadState) (r : ReadIndexTracker) (j : String) (p : PendingRead) (i : ℕ)
      → GoMap.get r.pending j ≡ some p
      → Memᴰ (state_of j i) states
      → i ≤ a
      → Memᴰ p.done (set_indices a states r).closed
  unfolding set_indices
  set_indices-closes [] r j p i h m le = absurd (Memᴰ.not-nil m)
  set_indices-closes (rs ∷ states) r j p i h m le =
      let next = set_index rs.request_ctx rs.index a r in
      elim (Memᴰ.cases_cons m) [
        | inl e ↦ set_indices-keeps states next p.done (
            set_index-closes rs.request_ctx rs.index a r p
              (ap (λ x. GoMap.get r.pending x.request_ctx) (sym e) ∙ h)
              (subst (λ x. x.index ≤ a) e le))
        | inr n ↦ elim (set_index-WaitsOrIsClosed rs.request_ctx rs.index a r j p h) [
          | inl (q, g, d) ↦
              subst (λ c. Memᴰ c (set_indices a states next).closed) d
                (set_indices-closes states next j q i g n le)
          | inr n' ↦ set_indices-keeps states next p.done n'
        ]
      ]

  -- The read has an index that the library reports.
  abbrev pub IsRecorded : List ReadState → String → PendingRead → Type 0
  IsRecorded states j p = (p.index_known ≡ true) × Memᴰ (state_of j p.index) states

  -- What is recorded of a read that still waits, where an index is reported for it.
  pub set_indices-IsRecorded :
      (all states : List ReadState) (r : ReadIndexTracker) (j : String)
      → ((i : ℕ) → Memᴰ (state_of j i) states → Memᴰ (state_of j i) all)
      → ((p : PendingRead) → GoMap.get r.pending j ≡ some p → IsRecorded all j p)
        ⊎ ((i : ℕ) × Memᴰ (state_of j i) states)
      → (p : PendingRead) → GoMap.get (set_indices a states r).pending j ≡ some p
      → IsRecorded all j p
  unfolding set_indices
  set_indices-IsRecorded all [] r j sub (inl known) p h = known p h
  set_indices-IsRecorded all [] r j sub (inr (i, m)) p h = absurd (Memᴰ.not-nil m)
  set_indices-IsRecorded all (rs ∷ states) r j sub known p h =
      set_indices-IsRecorded all states (set_index rs.request_ctx rs.index a r) j
        (λ i m. sub i (Memᴰ.tail m))
        (elim known [
          | inl k ↦ inl (λ q g. kept k q g)
          | inr (i, m) ↦ elim (Memᴰ.cases_cons m) [
            | inl e ↦ inl (λ q g. fresh (ap (λ x. x.request_ctx) e) q g)
            | inr n ↦ inr (i, n)
          ]
        ])
        p h
    where
      fresh :
          j ≡ rs.request_ctx
          → (q : PendingRead) → GoMap.get (set_index rs.request_ctx rs.index a r).pending j ≡ some q
          → IsRecorded all j q
      fresh e q g =
          let (k, at_index) = set_index-known rs.request_ctx rs.index a r q (
            subst (λ x. GoMap.get (set_index rs.request_ctx rs.index a r).pending x ≡ some q) e
              g) in
          (k, sub q.index (Memᴰ.head (cc (e, at_index))))

      kept :
          ((p : PendingRead) → GoMap.get r.pending j ≡ some p → IsRecorded all j p)
          → (q : PendingRead) → GoMap.get (set_index rs.request_ctx rs.index a r).pending j ≡ some q
          → IsRecorded all j q
      kept k q g =
          let (q', g', d, w) = set_index-get rs.request_ctx rs.index a r j q g in
          elim w [
            | inl e ↦ subst (IsRecorded all j) (sym e) (k q' g')
            | inr (same, at_index) ↦ fresh same q g
          ]
