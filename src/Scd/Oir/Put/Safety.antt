-- ===== src/Scd/Oir/Put/Safety.antt =====
-- What an upsert demands of a request before it writes.
use dss.Prelude.{◌≡◌, inl, inr, true, Option, none, some, arith, Bool-cases, Option-cases}
use mathlib.Core.List.{Memᴰ}
use dss.Exec.{Result, ok}
use dss.Exec.Laws.{>>=-ok}
use dss.Exec.Reads.{Reads-ok}
use dss.External.{External, Time}
use dss.Scd.Models.{EntityId, Manager, OperationalIntent, Subscription, requires_key}
use dss.Scd.Models.Rest.{OperationalIntentReference}
use dss.Scd.Store.Records.{State, OperationalIntentRecord}
use dss.Scd.Store.Valid.{IsValid}
use dss.Scd.Store.OperationalIntents.Build.{attach}
use dss.Scd.Store.OperationalIntents.Search.{IsWithinLimit}
use dss.Scd.Oir.Params.{to_oir, ValidOirParams, in_key}
use dss.Scd.Oir.Delete.{ChangeResponse}
use dss.Scd.Oir.Key.{AirspaceConflict, validate_key_and_provide_conflict_response}
use dss.Scd.Oir.Key.Laws.{IsRelevant, key_checked}
use dss.Scd.Oir.Key.Conflict.{entries, IsReported, conflict_sound, conflict_complete}
use dss.Scd.Oir.Resolve.{Resolved}
use dss.Scd.Store.Subscriptions.{increment_notification_indices_for_operational_intents}
use dss.Scd.Store.OperationalIntents.{upsert_operational_intent}
use dss.Scd.Oir.Keeps.{check_key-Reads}
use dss.Scd.Oir.Put.Defs.{
  upsert_attached, remove_previous, notify_volume, PutResult, response, conflicting, Prior,
  check_key, write_oir, put_resolved, put_operational_intent_reference,
}
use dss.Scd.Oir.Put.Trace.{put-trace, stored_oir}

different :
    {r : ChangeResponse} {c : AirspaceConflict} {s s' : State}
    → Path (Result PutResult × State) (ok (response r), s) (ok (conflicting c), s')
    → ⊥
different h = ground arith

module _ (ext : External) (now : Time) (m : Manager) (params : ValidOirParams) where
  -- The writes never end in a conflict.
  write-not-conflicting :
      (old : Option OperationalIntent) (p : Prior) (r : Resolved) (c : AirspaceConflict)
      (s s' : State)
      → write_oir ext now m params old p r s ≡ (ok (conflicting c), s')
      → ⊥
  unfolding write_oir
  write-not-conflicting old p r c s s' h =
      let (att, s1, e1, h1) = >>=-ok (upsert_attached ext now r) _ h in
      let (op, s2, e2, h2) =
        >>=-ok (upsert_operational_intent ext now (to_oir params m att p.version p.past_ovns)) _
          h1 in
      let (u, s3, e3, h3) = >>=-ok (remove_previous ext now r p.previous_sub) _ h2 in
      let (subs, s4, e4, h4) =
        >>=-ok
          (increment_notification_indices_for_operational_intents ext
            (notify_volume ext now params old))
          _ h3 in
      different h4

  module _ {s s' : State} where
    -- The key was checked first; a conflict ends the run, and only a run without one goes on to write.
    pub resolved-response :
        (old : Option OperationalIntent) (p : Prior) (r : Resolved) {c : ChangeResponse}
        → put_resolved ext now m params old p r s ≡ (ok (response c), s')
        → (check_key ext m params r.attached_sub s ≡ (ok none, s))
          × (write_oir ext now m params old p r s ≡ (ok (response c), s'))
    unfolding put_resolved
    resolved-response old p r h =
        let (found, e, k) =
          Reads-ok (check_key ext m params r.attached_sub) _
            (check_key-Reads ext now m params r.attached_sub) h in
        elim (Option-cases found) [ inl f ↦ (rw f at e, rw f at k) | inr (c, f) ↦ cc (rw f at k) ]

    pub resolved-conflict :
        (old : Option OperationalIntent) (p : Prior) (r : Resolved) {c : AirspaceConflict}
        → put_resolved ext now m params old p r s ≡ (ok (conflicting c), s')
        → (check_key ext m params r.attached_sub s ≡ (ok (some c), s)) × (s' ≡ s)
    unfolding put_resolved
    resolved-conflict old p r h =
        let (found, e, k) =
          Reads-ok (check_key ext m params r.attached_sub) _
            (check_key-Reads ext now m params r.attached_sub) h in
        elim (Option-cases found) [
          | inl f ↦ absurd (write-not-conflicting old p r _ s s' (rw f at k))
          | inr (c, f) ↦ (cc (rw f at e, rw f at k), cc (rw f at k))
        ]

    -- A conflict came out of the check of the key.
    conflict-checked :
        {c : AirspaceConflict}
        → put_operational_intent_reference ext now m params s ≡ (ok (conflicting c), s')
        → (s' ≡ s)
          × (requires_key params.state ≡ true)
          × (sub : Option Subscription) × (validate_key_and_provide_conflict_response ext m params
                sub s
              ≡ (ok (some c), s))
    unfolding check_key
    conflict-checked h =
        let t = put-trace ext now m params h in
        let (e, k) = resolved-conflict (stored_oir ext s params) t.before t.resolved t.wrote in
        elim (Bool-cases (requires_key params.state)) [
          | inl q ↦ (k, q, t.resolved.attached_sub, rw q at e)
          | inr q ↦ cc (rw q at e)
        ]

    -- In a valid store, an upsert to a state that requires a key succeeds only if the key names the OVN
    -- of each other stored operational intent that the volume of the request intersects and that is not
    -- exempt, provided that no more operational intents intersect the volume than a query returns.
    pub put-key :
        {c : ChangeResponse}
        → IsValid s
        → put_operational_intent_reference ext now m params s ≡ (ok (response c), s')
        → requires_key params.state ≡ true
        → IsWithinLimit params.volume s
        → (id : EntityId) (rec : OperationalIntentRecord) → IsRelevant ext s params id rec
        → in_key params (attach ext s rec).ovn ≡ true
    unfolding check_key
    put-key valid h needs small id rec r =
        let t = put-trace ext now m params h in
        let (e, k) = resolved-response (stored_oir ext s params) t.before t.resolved t.wrote in
        key_checked ext m params t.resolved.attached_sub valid (rw needs at e) small id rec r

    -- In a valid store, an upsert that ends in a conflict was to a state that requires a key, and
    -- changes nothing. Each operational intent that it reports is stored, in the volume of the
    -- request, another one, not exempt and not in the key, and its OVN is shown only to its own
    -- manager.
    pub put-conflict :
        {c : AirspaceConflict}
        → IsValid s
        → put_operational_intent_reference ext now m params s ≡ (ok (conflicting c), s')
        → (s' ≡ s)
          × (requires_key params.state ≡ true)
          × ((ref : OperationalIntentReference)
              → Memᴰ ref (entries c.missing_operational_intents)
              → IsReported ext s m params ref)
    put-conflict valid h =
        let (same, needs, sub, e) = conflict-checked h in
        (same, needs, conflict_sound ext m params sub valid e)

    -- In a valid store, a conflict reports each stored operational intent that is in the volume of the
    -- request, another one, not exempt and not in the key, provided that no more operational intents
    -- are in the volume than a query returns.
    pub put-conflict_complete :
        {c : AirspaceConflict}
        → IsValid s
        → put_operational_intent_reference ext now m params s ≡ (ok (conflicting c), s')
        → IsWithinLimit params.volume s
        → (ref : OperationalIntentReference) → IsReported ext s m params ref
        → Memᴰ ref (entries c.missing_operational_intents)
    put-conflict_complete valid h small ref r =
        let (same, needs, sub, e) = conflict-checked h in
        conflict_complete ext m params sub valid e small ref r
