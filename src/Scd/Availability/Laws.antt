-- ===== src/Scd/Availability/Laws.antt =====
-- A report of availability is read back, and is what the operational intents of its USS show.
use dss.Prelude.{
  ◌≡◌, refl, sym, ap, ◌∙◌, inl, inr, false, Option, none, some, ◌==◌, arith, Option-cases, eq_iff,
  str_eq_refl,
}
use mathlib.Core.Option
use dss.GoMap
use dss.GoMap.{get-set}
use dss.Exec.{ok, lift}
use dss.Exec.Laws.{ok-pair}
use dss.Exec.Reads.{Reads, Reads-ok}
use dss.External.{External, Time}
use dss.Scd.Models.{Manager}
use dss.Scd.Store.Records.{State, AvailabilityRecord}
use dss.Scd.Store.Availability.{
  availability_to_model, get_uss_availability, upsert_uss_availability,
}
use dss.Scd.Store.OperationalIntents.Build.{stored_availability}
use dss.Scd.Availability.{
  SetUssAvailabilityPayload, AvailabilityResponse, availability_response,
  check_availability_version, find_uss_availability, read_uss_availability, set_uss_availability,
}

module _ (ext : External) where
  find_lem :
      (id : Manager) (s : State)
      → find_uss_availability ext id s
        ≡ (ok (Option.map (availability_to_model ext) (GoMap.get s.availabilities id)), s)
  unfolding find_uss_availability get_uss_availability
  find_lem id s = elim (Option-cases (GoMap.get s.availabilities id)) [
    | inl e ↦ ground arith
    | inr (rec, e) ↦ ground arith
  ]

  find-Reads : (id : Manager) → Reads (find_uss_availability ext id)
  find-Reads id s = ap (λ x. x.1) (find_lem id s)

  -- What a read says of a record.
  response_of : Manager → Option AvailabilityRecord → AvailabilityResponse
  response_of id none = record { uss = id; availability = "Unknown"; version = "" }
  response_of id (some rec) = availability_response (availability_to_model ext rec)

  read_lem :
      (id : Manager) (s : State)
      → read_uss_availability ext id s ≡ (ok (response_of id (GoMap.get s.availabilities id)), s)
  unfolding read_uss_availability response_of
  read_lem id s = elim (Option-cases (GoMap.get s.availabilities id)) [
    | inl e ↦ ground (arith, find_lem id s)
    | inr (rec, e) ↦ ground (arith, find_lem id s)
  ]

  -- A report that succeeds named the version that a read would have returned before, the empty one
  -- for a USS that had reported nothing.
  checked_lem :
      (p : SetUssAvailabilityPayload) (o : Option AvailabilityRecord)
      → check_availability_version p.old_version (Option.map (availability_to_model ext) o) ≡ ok tt
      → (response_of p.uss o).version ≡ p.old_version
  unfolding check_availability_version response_of availability_response
  checked_lem p none h = sym ((eq_iff p.old_version "").0 (ground arith))
  checked_lem p (some rec) h =
      (eq_iff (availability_to_model ext rec).version p.old_version).0 (ground arith)

  module _ (now : Time) (p : SetUssAvailabilityPayload) {s s' : State}
      {r : AvailabilityResponse} where
    -- A report that succeeds named the version that a read returned before, the empty one for a USS
    -- that had reported nothing. A read then returns what the report returned, which is what it was
    -- given, and the operational intents of the USS show it. What is read of another USS stays as it
    -- was, and so do the other tables.
    pub set-read :
        set_uss_availability ext now p s ≡ (ok r, s')
        → (before : AvailabilityResponse) × (read_uss_availability ext p.uss s ≡ (ok before, s))
          × (before.version ≡ p.old_version)
          × (r.availability ≡ p.availability)
          × (read_uss_availability ext p.uss s' ≡ (ok r, s'))
          × (stored_availability s' p.uss ≡ p.availability)
          × ((id : Manager)
              → (p.uss == id) ≡ false
              → (read_uss_availability ext id s').0 ≡ (read_uss_availability ext id s).0)
          × (s' ≡ record s { availabilities = s'.availabilities })
    unfolding set_uss_availability upsert_uss_availability response_of availability_response
        availability_to_model
    set-read h =
        let (o, e0, h0) = Reads-ok (find_uss_availability ext p.uss) _ (find-Reads p.uss) h in
        let h1 = rw (ok-pair (sym e0 ∙ find_lem p.uss s)).0 at h0 in
        let (u, e, k) =
          Reads-ok
            (lift (
              check_availability_version p.old_version
                (Option.map (availability_to_model ext) (GoMap.get s.availabilities p.uss))))
            _ (λ t. refl) h1 in
        let (qr, qs) = ok-pair k in
        (
          response_of p.uss (GoMap.get s.availabilities p.uss),
          read_lem p.uss s,
          checked_lem p (GoMap.get s.availabilities p.uss) (ap (λ x. x.0) e),
          sym (ap (λ x. x.availability) qr),
          rw⁻¹ (qs, qr) (rw (read_lem, get-set, str_eq_refl) refl),
          rw⁻¹ qs (rw (get-set, str_eq_refl) refl),
          λ id ne. rw⁻¹ qs (rw (read_lem, get-set, ne, read_lem) refl),
          rw⁻¹ qs refl,
        )
