-- ===== src/Scd/Store/Checkpoint/Laws.antt =====
-- A checkpoint is what it was when it was made, whatever is written after it.
use dss.Prelude.{◌≡◌, refl, sym, ap, ◌∙◌, List, [], ◌∷◌}
use dss.GoMap.{GoMap}
use dss.Scd.Store.Records.{SubscriptionRecord}
use dss.Scd.Store.Checkpoint.Pointers.{
  PointerRepo, Write, upsert, remove, notify, perform, perform_all, save, reset, table,
  perform_values,
}
use dss.Scd.Store.Checkpoint.Isolation.{IsSeparate, saved, Leads, save_lem, reset_lem, perform_lem}

perform_values-cons :
    (w : Write) (ws : List Write) (m : GoMap SubscriptionRecord)
    → perform_values (w ∷ ws) m ≡ perform_values ws (perform_values (w ∷ []) m)
unfolding perform_values
perform_values-cons (upsert id rec) ws m = refl
perform_values-cons (remove id) ws m = refl
perform_values-cons (notify notified) ws m = refl

perform_all_lem :
    (ws : List Write) (r : PointerRepo)
    → IsSeparate r
    → Leads (perform_all ws r) (perform_values ws (table r)) (saved r)
unfolding perform_all perform_values
perform_all_lem [] r s = record { separate = s; state_eq = refl; checkpoint_eq = refl }
perform_all_lem (w ∷ ws) r s =
    let l = perform_lem w r s in
    let l' = perform_all_lem ws (perform w r) l.separate in
    record {
      separate = l'.separate;
      state_eq =
          l'.state_eq
          ∙ ap (perform_values ws) l.state_eq
          ∙ sym (perform_values-cons w ws (table r));
      checkpoint_eq = l'.checkpoint_eq ∙ l.checkpoint_eq;
    }

module _ (r : PointerRepo) (s : IsSeparate r) where
  -- In memory, where a table is a map of pointers and notifications write records in place: after a
  -- checkpoint, writes do to the table what they do to values; a restore brings back the records that
  -- the table had at the checkpoint, whatever was written since; and so does a second restore, after
  -- more writes. It holds where no two ids share a record and none is shared with the checkpoint, and
  -- this holds again after the second restore.
  pub reset-perform_all :
      (ws ws' : List Write)
      → (table (perform_all ws (save r)) ≡ perform_values ws (table r))
        × (table (reset (perform_all ws (save r))) ≡ table r)
        × (table (reset (perform_all ws' (reset (perform_all ws (save r))))) ≡ table r)
        × IsSeparate (reset (perform_all ws' (reset (perform_all ws (save r)))))
  reset-perform_all ws ws' =
      let a = save_lem r s in
      let b = perform_all_lem ws (save r) a.separate in
      let c = reset_lem (perform_all ws (save r)) b.separate in
      let d = perform_all_lem ws' (reset (perform_all ws (save r))) c.separate in
      let e = reset_lem (perform_all ws' (reset (perform_all ws (save r)))) d.separate in
      let kept = b.checkpoint_eq ∙ a.checkpoint_eq in
      (
        b.state_eq ∙ ap (perform_values ws) a.state_eq,
        c.state_eq ∙ kept,
        e.state_eq ∙ d.checkpoint_eq ∙ c.checkpoint_eq ∙ kept,
        e.separate,
      )
