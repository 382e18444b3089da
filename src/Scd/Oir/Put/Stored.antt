-- ===== src/Scd/Oir/Put/Stored.antt =====
-- What a successful upsert leaves in the store.
use dss.Prelude.{
  ◌≡◌, refl, sym, ◌∙◌, inl, inr, false, Option, none, some, [], ◌∷◌, ◌++◌, not, ◌==◌, arith,
  if◌then◌else◌, Bool-cases, Option-cases, eq_iff, str_eq_refl,
}
use dss.GoMap
use dss.GoMap.{get-set}
use dss.Exec.{ok}
use dss.Exec.Reads.{Reads-ok}
use dss.External.{External, Time}
use dss.Scd.Models.{EntityId, Manager, Ovn, next_version, OperationalIntent}
use dss.Scd.Store.Records.{State, OperationalIntentRecord}
use dss.Scd.Store.Subscriptions.{get_subscription}
use dss.Scd.Store.OperationalIntents.{record_of}
use dss.Scd.Store.OperationalIntents.Build.{availability_or_default_lem}
use dss.Scd.Oir.Params.{ValidOirParams, to_oir, validate_upsert_request_against_previous_oir}
use dss.Scd.Oir.Delete.{ChangeResponse}
use dss.Scd.Oir.Reads.{get_subscription-Reads}
use dss.Scd.Oir.Put.Defs.{
  response, Prior, prior, prior_of_old, prior_of_new, put_operational_intent_reference,
}
use dss.Scd.Oir.Put.Trace.{put-trace, stored_oir}
use dss.Scd.Oir.Put.Safety.{resolved-response}
use dss.Scd.Oir.Put.Writes.{write-trace, written_rec, tables_written}

-- How the new record follows from the operational intent that was stored, if any.
abbrev pub Follows :
    Manager → ValidOirParams → Option OperationalIntent → OperationalIntentRecord → Type 0
Follows m params none rec = (params.ovn ≡ "") × (rec.version ≡ 1) × (rec.past_ovns ≡ [])
Follows m params (some old) rec =
    (old.manager ≡ m)
    × (old.ovn ≡ params.ovn)
    × (rec.version ≡ next_version old.version)
    × (rec.past_ovns ≡ old.past_ovns ++ params.ovn ∷ [])

pub record Stores (ext : External) (now : Time) (m : Manager) (params : ValidOirParams)
    (s s' : State) : Type 0 where
  pub rec : OperationalIntentRecord
  pub stored : GoMap.get s'.operational_intents params.id ≡ some rec
  pub manager : rec.manager ≡ m
  pub state : rec.state ≡ params.state
  pub volume : rec.volume ≡ params.volume
  pub uss_base_url : rec.uss_base_url ≡ params.uss_base_url
  pub requested_ovn : rec.uss_requested_ovn ≡ params.new_ovn
  pub updated_at : rec.updated_at ≡ now
  pub follows : Follows m params (stored_oir ext s params) rec
  pub others :
      (id : EntityId)
      → (params.id == id) ≡ false
      → GoMap.get s'.operational_intents id ≡ GoMap.get s.operational_intents id
  pub constraints : s'.constraints ≡ s.constraints
  pub availabilities : s'.availabilities ≡ s.availabilities

checked-old :
    (m : Manager) (ovn : Ovn) (old : OperationalIntent)
    → validate_upsert_request_against_previous_oir m ovn (some old) ≡ ok tt
    → (old.manager ≡ m) × (old.ovn ≡ ovn)
unfolding validate_upsert_request_against_previous_oir
checked-old m ovn old h =
    ((eq_iff old.manager m).0 (ground arith), (eq_iff old.ovn ovn).0 (ground arith))

checked-new :
    (m : Manager) (ovn : Ovn)
    → validate_upsert_request_against_previous_oir m ovn none ≡ ok tt
    → ovn ≡ ""
unfolding validate_upsert_request_against_previous_oir
checked-new m ovn h = (eq_iff ovn "").0 (ground arith)

-- An OVN that was not given is stored as the empty text.
requested : (ovn : Ovn) → (if not (ovn == "") then ovn else "") ≡ ovn
requested ovn = elim (Bool-cases (ovn == "")) [
  | inl e ↦ rw e (sym ((eq_iff ovn "").0 e))
  | inr e ↦ rw e refl
]

module _ (ext : External) (m : Manager) (params : ValidOirParams) (s : State) where
  -- The version and the past OVNs that a previous operational intent leads to.
  prior-Follows :
      (old : Option OperationalIntent) {p : Prior} (rec : OperationalIntentRecord)
      → validate_upsert_request_against_previous_oir m params.ovn old ≡ ok tt
      → prior ext m params old s ≡ (ok p, s)
      → rec.version ≡ p.version
      → rec.past_ovns ≡ p.past_ovns
      → Follows m params old rec
  unfolding prior prior_of_new prior_of_old
  prior-Follows none rec c h v q =
      let e = rw availability_or_default_lem at h in
      (checked-new m params.ovn c, v ∙ cc e, q ∙ cc e)
  prior-Follows (some old) rec c h v q =
      let (a, b) = checked-old m params.ovn old c in
      elim (Option-cases old.subscription_id) [
        | inl e ↦ let k = rw e at h in (a, b, v ∙ cc k, q ∙ cc k)
        | inr (id, e) ↦
            let (sub, e1, k) =
              Reads-ok (get_subscription ext id) _ (get_subscription-Reads ext id) (rw e at h) in
            (a, b, v ∙ cc k, q ∙ cc k)
      ]

module _ (ext : External) (now : Time) (m : Manager) (params : ValidOirParams) {s s' : State} where
  -- An upsert that succeeds stores, under the id of the request, an operational intent of the
  -- requesting manager with the state, the volume, the URL and the OVN of the request. A new one has
  -- version 1 and was requested without an OVN; another belonged to the same manager, its OVN was the
  -- one given, and its version is followed by the next and its past OVNs by that one. No other
  -- operational intent, constraint or availability changes.
  pub put-Stores :
      {c : ChangeResponse}
      → put_operational_intent_reference ext now m params s ≡ (ok (response c), s')
      → Stores ext now m params s s'
  unfolding record_of to_oir
  put-Stores h =
      let t = put-trace ext now m params h in
      let (e, k) =
        resolved-response ext now m params (stored_oir ext s params) t.before t.resolved t.wrote in
      let w = write-trace ext now m params (stored_oir ext s params) t.before t.resolved s s' k in
      let q = tables_written ext now w in
      record {
        rec = written_rec ext now w;
        stored = rw (q, get-set, str_eq_refl);
        manager = refl;
        state = refl;
        volume = refl;
        uss_base_url = refl;
        requested_ovn = requested params.new_ovn;
        updated_at = refl;
        follows =
            prior-Follows ext m params s (stored_oir ext s params) _ t.checked t.read refl refl;
        others = λ id ne. rw (q, get-set, ne);
        constraints = cc q;
        availabilities = cc q;
      }
