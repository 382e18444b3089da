-- ===== src/Raft/Consumer/Laws.antt =====
-- A node is a replica: its store is what the log makes of the first store, up to the applied index.
use dss.Prelude.{
  ℕ, zero, suc, ◌+◌, ◌-◌, ◌^◌, ◌≤◌, ◌<◌, ◌≡◌, refl, sym, ap, ◌∙◌, subst, inl, inr, none, some, List,
  not, leb, arith, Bool-cases, Option-cases,
}
use dss.Exec.{Result, ok, err, uncoded, has_panicked, raise_if, lift, Exec}
use dss.Exec.Laws.{>>=-ok, lift-ok, ok-pair, Result-cases}
use dss.Exec.Reads.{Reads-ok, raise_if-Reads}
use dss.Raft.Membership.{ConfChangeSingle, restore}
use dss.Raft.Consumer.{
  ConfChange, ConfChangeContext, ConfChangeV2, EntryData, empty_entry, normal_entry,
  conf_change_entry, conf_change_v2_entry, Entry, Snapshot, SnapshotUpdate, Update, Consensus,
  entries_to_apply, last_index, Environment, untrack, submit_normal_entry, apply_config_change,
  read_context, checked_change, apply_checked, apply_config_change_v2, publish_entry, publish_loop,
  maybe_snapshot, publish_entries, install_snapshot, serve_reads, handle_update,
}
use dss.Raft.Consumer.Entries.{Log, stretch, entries_to_apply-stretch, last_index-stretch}

module _ {S R : Type 0} (env : Environment S R) where
  -- What one entry of the log does to the store.
  abbrev pub entry_effect : EntryData → S → S
  entry_effect (normal_entry (some p)) s = (env.serve p s).1
  entry_effect empty_entry s = s
  entry_effect (normal_entry none) s = s
  entry_effect (conf_change_entry cc) s = s
  entry_effect (conf_change_v2_entry cc) s = s

  -- The store after the entries of the log up to an index.
  abbrev pub replay : Log → S → ℕ → S
  replay log s0 zero = s0
  replay log s0 (suc n) = entry_effect (log (suc n)) (replay log s0 n)

  -- A run that writes neither the store nor the applied index.
  abbrev Spares : {A : Type 0} → Exec (Consensus S R) A → Type 0
  Spares {A} m =
      (c c' : Consensus S R) (a : A)
      → m c ≡ (ok a, c')
      → (c'.store ≡ c.store) × (c'.applied_index ≡ c.applied_index)

  config_change-Spares : (cc : ConfChange) → Spares (apply_config_change env cc)
  unfolding apply_config_change
  config_change-Spares cc c c' u h = (ground arith, ground arith)

  checked-Spares :
      (cctx : ConfChangeContext) (r : Result ConfChangeSingle) → Spares (apply_checked env cctx r)
  unfolding apply_checked untrack
  checked-Spares cctx (err e) c c' u h = (ground arith, ground arith)
  checked-Spares cctx (ok change) c c' u h = (ground arith, ground arith)

  config_change_v2-Spares : (cc : ConfChangeV2) → Spares (apply_config_change_v2 env cc)
  unfolding apply_config_change_v2
  config_change_v2-Spares cc c c' u h =
      let (cctx, e0, h0) = Reads-ok (lift (read_context cc.context)) _ (λ t. refl) h in
      checked-Spares cctx (checked_change env cc.changes cctx.member.url c.membership) c c' u h0

  -- An entry that is published has its effect on the store.
  entry_lem :
      (d : EntryData) (c c' : Consensus S R) (u : Unit {0})
      → publish_entry env d c ≡ (ok u, c')
      → (c'.store ≡ entry_effect d c.store) × (c'.applied_index ≡ c.applied_index)
  unfolding publish_entry submit_normal_entry untrack
  entry_lem empty_entry c c' u h = (ground arith, ground arith)
  entry_lem (normal_entry none) c c' u h = absurd (ground arith)
  entry_lem (normal_entry (some p)) c c' u h =
      elim (Bool-cases (has_panicked (env.serve p c.store).0)) [
        | inl e ↦ let k = rw e at h in absurd (ground arith)
        | inr e ↦
            let k = rw e at h in (sym (ap (λ x. x.1.store) k), sym (ap (λ x. x.1.applied_index) k))
      ]
  entry_lem (conf_change_entry none) c c' u h = absurd (ground arith)
  entry_lem (conf_change_entry (some cc)) c c' u h = config_change-Spares cc c c' u h
  entry_lem (conf_change_v2_entry none) c c' u h = absurd (ground arith)
  entry_lem (conf_change_v2_entry (some cc)) c c' u h = config_change_v2-Spares cc c c' u h

  module _ (log : Log) (s0 : S) where
    -- A stretch of the log, right after what the store has seen.
    loop_lem :
        (n from : ℕ) (c c' : Consensus S R) (u : Unit {0})
        → c.store ≡ replay log s0 from
        → publish_loop env (stretch log (suc from) n) c ≡ (ok u, c')
        → (c'.store ≡ replay log s0 (from + n)) × (c'.applied_index ≡ c.applied_index)
    unfolding publish_loop
    loop_lem zero from c c' u at_from h = (
      sym (ap (λ x. x.1.store) h) ∙ at_from ∙ ap (replay log s0) (omega arith),
      sym (ap (λ x. x.1.applied_index) h),
    )
    loop_lem (suc n) from c c' u at_from h =
        let (v, t, e, k) = >>=-ok (publish_entry env (log (suc from))) _ h in
        let (st, ap_eq) = entry_lem (log (suc from)) c t v e in
        let (st', ap_eq') =
          loop_lem n (suc from) t c' u (st ∙ ap (entry_effect (log (suc from))) at_from) k in
        (st' ∙ ap (replay log s0) (shift from n), ap_eq' ∙ ap_eq)
      where
        shift : (a b : ℕ) → suc a + b ≡ a + suc b
        shift a b = omega arith

    -- The store is what the log makes of the first store, up to the applied index.
    pub record IsReplica (c : Consensus S R) : Type 0 where
      pub store : c.store ≡ replay log s0 c.applied_index
      pub fits : c.applied_index + 1 < 2 ^ 64

    snapshot_lem :
        (interval : ℕ) (c c' : Consensus S R) (u : Unit {0})
        → maybe_snapshot env interval c ≡ (ok u, c')
        → (c'.store ≡ c.store) × (c'.applied_index ≡ c.applied_index)
    unfolding maybe_snapshot
    snapshot_lem interval c c' u h = (ground arith, ground arith)

    abbrev first_entry : Consensus S R → Entry
    first_entry c = record { index = suc c.applied_index; data_ = log (suc c.applied_index) }

    publish_lem :
        (interval n : ℕ) (c c' : Consensus S R) (u : Unit {0})
        → c.store ≡ replay log s0 c.applied_index
        → publish_entries env interval (stretch log (suc c.applied_index) n) c ≡ (ok u, c')
        → (c'.store ≡ replay log s0 (c.applied_index + n))
          × (c'.applied_index ≡ c.applied_index + n)
    unfolding publish_entries
    publish_lem interval zero c c' u at_now h = (
      sym (ap (λ x. x.1.store) h) ∙ at_now ∙ ap (replay log s0) (omega arith),
      sym (ap (λ x. x.1.applied_index) h) ∙ omega arith,
    )
    publish_lem interval (suc n) c c' u at_now h =
        let rest = stretch log (suc (suc c.applied_index)) n in
        let whole = stretch log (suc c.applied_index) (suc n) in
        let (v, t, e, k) = >>=-ok (publish_loop env whole) _ h in
        let (st, ai) = loop_lem (suc n) c.applied_index c t v at_now e in
        let moved = record t { applied_index = last_index (first_entry c) rest } in
        let (st', ai') = snapshot_lem interval moved c' u k in
        (
          st' ∙ st,
          ai' ∙ last_index-stretch log (first_entry c) (suc c.applied_index) n ∙ ground arith,
        )

    -- What the library promises of an update: its entries are a stretch of the log, and a snapshot is
    -- that of the store at its index.
    pub record IsFromLog (u : Update) : Type 0 where
      pub first : ℕ
      pub count : ℕ
      pub committed : u.committed_entries ≡ stretch log first count
      pub small : first + count < 2 ^ 64
      pub faithful :
          (up : SnapshotUpdate) (snap : Snapshot)
          → u.snapshot ≡ some up
          → up.snapshot ≡ some snap
          → (s : S) → env.restore_store snap.app_data s ≡ replay log s0 up.index
      pub snapshot_small : (up : SnapshotUpdate) → u.snapshot ≡ some up → up.index + 1 < 2 ^ 64

    -- A node that has come this far, and no less than another.
    abbrev pub IsAhead : Consensus S R → Consensus S R → Type 0
    IsAhead c c' = IsReplica c' × (c.applied_index ≤ c'.applied_index)

    install_lem :
        (u : Update) (c c' : Consensus S R)
        → IsFromLog u
        → IsReplica c
        → install_snapshot env u.snapshot c ≡ (ok tt, c')
        → IsAhead c c'
    unfolding install_snapshot
    install_lem u c c' from r h = elim (Option-cases u.snapshot) [
      | inl e ↦
          let same = sym (ok-pair (rw (e, install_snapshot) at h)).1 in
          (
            subst IsReplica (sym same) r,
            subst (λ x. c.applied_index ≤ x.applied_index) (sym same) (omega arith),
          )
      | inr (up, e) ↦
          let k = rw (e, install_snapshot) at h in
          elim (Bool-cases (leb up.index c.applied_index)) [
            | inl q ↦ let x = rw q at k in absurd (ground arith)
            | inr q ↦ elim (Option-cases up.snapshot) [
              | inl f ↦ let x = rw (q, f) at k in absurd (ground arith)
              | inr (snap, f) ↦
                  elim (Result-cases (restore snap.members snap.removed_ids c.membership)) [
                    | inr (x, g) ↦ let y = rw (q, f, g) at k in absurd (ground arith)
                    | inl (m, g) ↦
                        let same = sym (ok-pair (rw (q, f, g) at k)).1 in
                        (
                          record {
                            store =
                                ap (λ x. x.store) same
                                ∙ from.faithful up snap e f c.store
                                ∙ ap (λ x. replay log s0 x.applied_index) (sym same);
                            fits =
                                subst (λ x. x.applied_index + 1 < 2 ^ 64) (sym same)
                                  (from.snapshot_small up e);
                          },
                          subst (λ x. c.applied_index ≤ x.applied_index) (sym same) (ground arith),
                        )
                  ]
            ]
          ]
    ]

    apply_lem :
        (interval : ℕ) (u : Update) (es : List Entry) (c c' : Consensus S R)
        → IsFromLog u
        → IsReplica c
        → entries_to_apply c.applied_index u.committed_entries ≡ ok es
        → publish_entries env interval es c ≡ (ok tt, c')
        → IsAhead c c'
    apply_lem interval u es c c' from r e h =
        elim (entries_to_apply-stretch log c.applied_index from.first from.count r.fits es
          (rw from.committed at e)) [
            | inl (none_left, empty) ↦ go 0 (rw empty at h) (let fits = r.fits in omega arith)
            | inr (near, left) ↦
                let n = from.first + from.count - (c.applied_index + 1) in
                go n (rw left at h) (let small = from.small in let fits = r.fits in omega arith)
          ]
      where
        go :
            (n : ℕ)
            → publish_entries env interval (stretch log (suc c.applied_index) n) c ≡ (ok tt, c')
            → c.applied_index + n + 1 < 2 ^ 64
            → IsAhead c c'
        go n k fits =
            let (st, ai) = publish_lem interval n c c' tt r.store k in
            (
              record {
                store = st ∙ ap (replay log s0) (sym ai);
                fits = subst (λ i. i + 1 < 2 ^ 64) (sym ai) fits;
              },
              subst (λ i. c.applied_index ≤ i) (sym ai) (omega arith),
            )

    -- An update that is handled leaves a replica, that is as far as before or further.
    pub handle_update-IsAhead :
        (interval : ℕ) (u : Update) (c c' : Consensus S R)
        → IsFromLog u
        → IsReplica c
        → handle_update env interval u c ≡ (ok tt, c')
        → IsAhead c c'
    unfolding handle_update serve_reads
    handle_update-IsAhead interval u c c' from r h =
        let (v, e0, h0) =
          Reads-ok (raise_if (not (env.saves u)) uncoded) _
            (raise_if-Reads (not (env.saves u)) uncoded) h in
        let (w, t, e1, h1) = >>=-ok (install_snapshot env u.snapshot) _ h0 in
        let (r', le) = install_lem u c t from r e1 in
        let (es, e2, h2) =
          Reads-ok (lift (entries_to_apply t.applied_index u.committed_entries)) _ (λ x. refl) h1 in
        let (x, t', e3, h3) = >>=-ok (publish_entries env interval es) _ h2 in
        let (r'', le') = apply_lem interval u es t t' from r' (lift-ok _ e2) e3 in
        let store_eq = sym (ap (λ y. y.1.store) h3) in
        let index_eq = sym (ap (λ y. y.1.applied_index) h3) in
        (
          record {
            store = store_eq ∙ r''.store ∙ ap (replay log s0) (sym index_eq);
            fits = subst (λ i. i + 1 < 2 ^ 64) (sym index_eq) r''.fits;
          },
          subst (λ i. c.applied_index ≤ i) (sym index_eq) (omega (arith, le, le')),
        )
