-- ===== src/Raft/Consumer/Serves.antt =====
-- An update serves the reads whose index it reaches.
use dss.Prelude.{
  ℕ, ◌≡◌, refl, sym, ap, ◌∙◌, subst, Option, none, some, List, [], ◌∷◌, not, arith, inl, inr,
  Bool-cases,
}
use dss.GoMap
use dss.Exec.{Result, ok, err, uncoded, has_panicked, raise_if, lift}
use dss.Exec.Laws.{>>=-ok}
use dss.Exec.Reads.{Reads-ok, raise_if-Reads}
use dss.Exec.Keeps.{Keeps, >>=-Keeps, Reads-Keeps}
use dss.Raft.Reads.{ReadIndexTracker, release_up_to}
use dss.Raft.Membership.{ConfChangeSingle}
use dss.Raft.Consumer.{
  ConfChange, ConfChangeContext, ConfChangeV2, EntryData, empty_entry, normal_entry,
  conf_change_entry, conf_change_v2_entry, Entry, SnapshotUpdate, Update, Consensus,
  entries_to_apply, Environment, untrack, submit_normal_entry, apply_config_change, checked_change,
  apply_checked, read_context, apply_config_change_v2, publish_entry, publish_loop, maybe_snapshot,
  publish_entries, install_snapshot, set_indices, serve_reads, handle_update,
}
use dss.Raft.Consumer.Reads.{HasServed, served_lem}

module _ {S R : Type 0} (env : Environment S R) where
  -- The read tracker stays as it is.
  abbrev HasReads : ReadIndexTracker → Consensus S R → Type 0
  HasReads r c = c.read_tracker ≡ r

  module _ (r : ReadIndexTracker) where
    checked-Keeps :
        (cctx : ConfChangeContext) (x : Result ConfChangeSingle)
        → Keeps (HasReads r) (apply_checked env cctx x)
    unfolding apply_checked untrack
    checked-Keeps cctx (err e) c h = h
    checked-Keeps cctx (ok change) c h = ground arith

    config_change_v2-Keeps :
        (cc : ConfChangeV2) → Keeps (HasReads r) (apply_config_change_v2 env cc)
    unfolding apply_config_change_v2
    config_change_v2-Keeps cc =
        Reads-Keeps (HasReads r) (lift (read_context cc.context)) _ (λ t. refl)
          (λ cctx c.
            checked-Keeps cctx (checked_change env cc.changes cctx.member.url c.membership) c)

    config_change-Keeps : (cc : ConfChange) → Keeps (HasReads r) (apply_config_change env cc)
    unfolding apply_config_change
    config_change-Keeps cc c h = ground arith

    entry-Keeps : (d : EntryData) → Keeps (HasReads r) (publish_entry env d)
    unfolding publish_entry submit_normal_entry untrack
    entry-Keeps empty_entry = λ c h. h
    entry-Keeps (normal_entry none) = λ c h. h
    entry-Keeps (normal_entry (some p)) = λ c h.
        elim (Bool-cases (has_panicked (env.serve p c.store).0)) [ inl e ↦ rw e h | inr e ↦ rw e h ]
    entry-Keeps (conf_change_entry none) = λ c h. h
    entry-Keeps (conf_change_entry (some cc)) = config_change-Keeps cc
    entry-Keeps (conf_change_v2_entry none) = λ c h. h
    entry-Keeps (conf_change_v2_entry (some cc)) = config_change_v2-Keeps cc

    loop-Keeps : (es : List Entry) → Keeps (HasReads r) (publish_loop env es)
    unfolding publish_loop
    loop-Keeps [] = λ c h. h
    loop-Keeps (e ∷ es) =
        >>=-Keeps (HasReads r) (publish_entry env e.data_) _ (entry-Keeps e.data_)
          (λ u. loop-Keeps es)

    snapshot-Keeps : (interval : ℕ) → Keeps (HasReads r) (maybe_snapshot env interval)
    unfolding maybe_snapshot
    snapshot-Keeps interval c h = ground arith

    publish-Keeps :
        (interval : ℕ) (es : List Entry) → Keeps (HasReads r) (publish_entries env interval es)
    unfolding publish_entries
    publish-Keeps interval [] = λ c h. h
    publish-Keeps interval (e ∷ es) =
        >>=-Keeps (HasReads r) (publish_loop env (e ∷ es)) _ (loop-Keeps (e ∷ es))
          (λ u c h. snapshot-Keeps interval _ h)

    install-Keeps : (up : Option SnapshotUpdate) → Keeps (HasReads r) (install_snapshot env up)
    unfolding install_snapshot
    install-Keeps none c h = h
    install-Keeps (some up) c h = ground arith

  -- After an update that is handled, where no id waits twice: a read that waited still waits on its
  -- channel, or its channel is closed; it is closed if the update reports an index for the read that
  -- has been applied; a reported index that has not been applied is recorded; no read waits whose
  -- recorded index has been applied; a closed channel stays closed; and the channels that were closed
  -- are of reads with reported indices that have been applied.
  pub handle_update-HasServed :
      (interval : ℕ) (u : Update) (c c' : Consensus S R)
      → GoMap.HasDistinctKeys c.read_tracker.pending
      → handle_update env interval u c ≡ (ok tt, c')
      → HasServed c'.applied_index u.read_states c.read_tracker c'.read_tracker
  unfolding handle_update serve_reads
  handle_update-HasServed interval u c c' d h =
      let r = c.read_tracker in
      let (v, e0, h0) =
        Reads-ok (raise_if (not (env.saves u)) uncoded) _
          (raise_if-Reads (not (env.saves u)) uncoded) h in
      let (w, t, e1, h1) = >>=-ok (install_snapshot env u.snapshot) _ h0 in
      let (es, e2, h2) =
        Reads-ok (lift (entries_to_apply t.applied_index u.committed_entries)) _ (λ x. refl) h1 in
      let (x, t', e3, h3) = >>=-ok (publish_entries env interval es) _ h2 in
      let kept : t.read_tracker ≡ r =
        sym (ap (λ y. y.1.read_tracker) e1) ∙ install-Keeps r u.snapshot c refl in
      let kept' : t'.read_tracker ≡ r =
        sym (ap (λ y. y.1.read_tracker) e3) ∙ publish-Keeps r interval es t kept in
      subst (λ y. HasServed y.applied_index u.read_states r y.read_tracker) (ap (λ y. y.1) h3)
        (subst
          (λ q.
            HasServed t'.applied_index u.read_states r
              (release_up_to t'.applied_index (set_indices t'.applied_index u.read_states q)))
          (sym kept') (served_lem t'.applied_index u.read_states r d))
