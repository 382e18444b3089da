-- ===== src/Scd/Oir/Put/Trace.antt =====
-- The stages of an upsert that returns a result: all of them but the writes leave the state as it is.
use dss.Prelude.{◌≡◌, refl, ap, false, Option}
use mathlib.Core.Option
use dss.GoMap
use dss.Exec.{ok, raise_if, lift}
use dss.Exec.Laws.{raise_if-ok}
use dss.Exec.Reads.{Reads-ok, raise_if-Reads}
use dss.External.{External, Time}
use dss.Scd.Models.{Manager, OperationalIntent}
use dss.Scd.Store.Records.{State}
use dss.Scd.Store.Subscriptions.{lock_subscriptions_on_cells}
use dss.Scd.Store.OperationalIntents.Build.{attach}
use dss.Scd.Store.OperationalIntents.Laws.{get_operational_intent_lem}
use dss.Scd.Oir.Params.{ValidOirParams, validate_upsert_request_against_previous_oir}
use dss.Scd.Oir.Resolve.{Resolved, resolve_subscription}
use dss.Scd.Oir.Reads.{prior-Reads, resolve-Reads}
use dss.Scd.Oir.Put.Defs.{
  PutResult, Prior, prior, may_not_put, put_resolved, put_operational_intent_reference,
}

-- The operational intent that is stored under the id of the request.
abbrev pub stored_oir : External → State → ValidOirParams → Option OperationalIntent
stored_oir ext s params = Option.map (attach ext s) (GoMap.get s.operational_intents params.id)

pub record PutTrace (ext : External) (now : Time) (m : Manager) (params : ValidOirParams)
    (s s' : State) (result : PutResult) : Type 0 where
  pub before : Prior
  pub resolved : Resolved
  pub checked :
      validate_upsert_request_against_previous_oir m params.ovn (stored_oir ext s params) ≡ ok tt
  pub read : prior ext m params (stored_oir ext s params) s ≡ (ok before, s)
  pub allowed : may_not_put before params ≡ false
  pub chosen : resolve_subscription ext before.previous_sub m params s ≡ (ok resolved, s)
  pub wrote :
      put_resolved ext now m params (stored_oir ext s params) before resolved s ≡ (ok result, s')

module _ (ext : External) (now : Time) (m : Manager) (params : ValidOirParams) where
  pub put-trace :
      {s s' : State} {result : PutResult}
      → put_operational_intent_reference ext now m params s ≡ (ok result, s')
      → PutTrace ext now m params s s' result
  unfolding put_operational_intent_reference lock_subscriptions_on_cells
  put-trace {s} h =
      let h1 = rw get_operational_intent_lem at h in
      let (u, e1, h2) =
        Reads-ok
          (lift
            (validate_upsert_request_against_previous_oir m params.ovn (stored_oir ext s params)))
          _ (λ t. refl) h1 in
      let (p, e2, h3) =
        Reads-ok (prior ext m params (stored_oir ext s params)) _
          (prior-Reads ext m params (stored_oir ext s params)) h2 in
      let (v, e3, h4) = Reads-ok (raise_if (may_not_put p params) _) _ (raise_if-Reads _ _) h3 in
      let (r, e4, h5) =
        Reads-ok (resolve_subscription ext p.previous_sub m params) _
          (resolve-Reads ext p.previous_sub m params) h4 in
      record {
        before = p;
        resolved = r;
        checked = ap (λ x. x.0) e1;
        read = e2;
        allowed = (raise_if-ok _ _ e3).0;
        chosen = e4;
        wrote = h5;
      }
