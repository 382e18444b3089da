-- ===== src/Scd/Oir/Tests.antt =====
-- The operations at a concrete store: `uss2` holds the operational intent `b`, and `uss1` asks for one
-- that intersects it.
use mathlib.Core.List.{Memᴰ}
use dss.Prelude.{
  none, String, ◌≡◌, refl, true, false, some, List, [], ◌∷◌, arith, subst, any, filter, collect,
}
use dss.GoMap
use dss.Exec.{ok, collect_result}
use dss.Scd.Models.{no_ovn_phrase}
use dss.Scd.Store.Records.{State, SubscriptionRecord, OperationalIntentRecord, initial_state}
use dss.Scd.Store.Valid.{IsValid, HasBounds, IsAttached}
use dss.Fixtures.{ext0, ext0-ContainsUnion}
use dss.Scd.Oir.Resolve.{Changed}
use dss.Scd.Oir.Resolve.Laws.{IsCovering, ensure-IsCovering}
use dss.Scd.Models.{Subscription}
use dss.Scd.Store.Fixtures.{volume_a, rec_b, s0, one, rec_b-HasBounds, s0-IsValid, small}
use dss.Scd.Oir.Params.{ValidOirParams}
use dss.Models.Union.{union_cells_volumes_4d}
use dss.Scd.Models.{requires_key, oi_requires_key, next_version, new_ovn_from_time, replace_all}
use dss.Scd.Models.Rest.{
  operational_intent_to_rest, constraint_to_rest, group_by_url, make_subscribers_to_notify,
}
use dss.Scd.Store.Records.{overlaps, overlaps_time, require_extent_times}
use dss.Scd.Store.Availability.{
  availability_to_model, get_uss_availability, availability_or_default,
}
use dss.Scd.Store.Subscriptions.{
  in_cells_volume, bumped, subscription_to_model, get_subscription, upsert_subscription,
  increment_loop, increment_notification_indices,
  increment_notification_indices_for_operational_intents, delete_subscription,
  lock_subscriptions_on_cells,
}
use dss.Scd.Store.OperationalIntents.{
  too_low, too_high, oi_matches, no_cells, depends_on, init_availabilities, availability_of,
  record_of, operational_intent_to_model, fill_availabilities, build_operational_intents,
  get_operational_intent, upsert_operational_intent, search_operational_intents,
  delete_operational_intent, get_dependent_operational_intents,
}
use dss.Scd.Store.Constraints.{constraint_matches, constraint_to_model, search_constraints}
use dss.Scd.Oir.Params.{
  in_key, to_oir, new_implicit_subscription, validate_upsert_request_against_previous_oir,
  only_dependent, subscription_is_implicit_and_only_attached_to_oir,
}
use dss.Scd.Oir.Delete.{
  previous_subscription, remove_subscription, check_delete, delete_checked,
  delete_operational_intent_reference,
}
use dss.Scd.Oir.Resolve.{
  cover_start, cover_end, is_being_replaced, cover_cells, ensure_subscription_covers_oir,
  requested_subscription, use_requested, choose_subscription, resolve_subscription,
}
use dss.Scd.Oir.Key.{
  is_missing, constraint_is_missing, scrubbed, scrubbed_constraint, missing_constraints, conflict,
  validate_key_and_provide_conflict_response,
}
use dss.Scd.Oir.Put.{
  subscription_ids, prior_of_old, prior_of_new, prior, may_not_put, check_key, upsert_attached,
  remove_previous, notify_volume, write_oir, put_resolved, put_operational_intent_reference,
}
use dss.Scd.Oir.Put.{response, conflicting}
use dss.Scd.Oir.Put.Safety.{put-key, put-conflict, put-conflict_complete}
use dss.Scd.Oir.Put.Attached.{put-IsAttached}
use dss.Scd.Oir.Put.Stored.{Stores, put-Stores}
use dss.Scd.Oir.Key.Laws.{IsRelevant}
use dss.Scd.Oir.Key.Conflict.{entries, IsReported}
use dss.Scd.Oir.Delete.Laws.{IsDeleted, delete-removed, delete-IsAttached}
use dss.Scd.Store.OperationalIntents.Build.{attach}
use dss.Scd.Models.Rest.{OperationalIntentReference}
use dss.Scd.Oir.Delete.{ChangeResponse, DeleteOirPayload}
use dss.Scd.Oir.Key.{AirspaceConflict}

abbrev params_a : List String → ValidOirParams
params_a key = record {
  id = "a";
  ovn = "";
  new_ovn = "";
  state = "Accepted";
  volume = volume_a;
  subscription_id = "";
  uss_base_url = "https://uss1";
  implicit_subscription = record { id = "i"; base_url = "https://uss1"; for_constraints = false };
  key = key;
}

put_a :
    (c : ChangeResponse) × (s' : State) × (put_operational_intent_reference ext0 5 "uss1"
        (params_a ("bT" ∷ []))
        s0
      ≡ (ok (response c), s'))
unfolding any filter collect GoMap.get GoMap.set GoMap.delete GoMap.modify_where collect_result
    union_cells_volumes_4d requires_key oi_requires_key next_version new_ovn_from_time replace_all
    operational_intent_to_rest constraint_to_rest group_by_url make_subscribers_to_notify overlaps
    overlaps_time require_extent_times availability_to_model get_uss_availability
    availability_or_default in_cells_volume bumped subscription_to_model get_subscription
    upsert_subscription increment_loop increment_notification_indices
    increment_notification_indices_for_operational_intents delete_subscription
    lock_subscriptions_on_cells too_low too_high oi_matches no_cells depends_on init_availabilities
    availability_of record_of operational_intent_to_model fill_availabilities
    build_operational_intents get_operational_intent upsert_operational_intent
    search_operational_intents delete_operational_intent get_dependent_operational_intents
    constraint_matches constraint_to_model search_constraints in_key to_oir
    new_implicit_subscription validate_upsert_request_against_previous_oir only_dependent
    subscription_is_implicit_and_only_attached_to_oir previous_subscription remove_subscription
    check_delete delete_checked delete_operational_intent_reference cover_start cover_end
    is_being_replaced cover_cells ensure_subscription_covers_oir requested_subscription
    use_requested choose_subscription resolve_subscription is_missing constraint_is_missing scrubbed
    scrubbed_constraint missing_constraints conflict validate_key_and_provide_conflict_response
    subscription_ids prior_of_old prior_of_new prior may_not_put check_key upsert_attached
    remove_previous notify_volume write_oir put_resolved put_operational_intent_reference
put_a = (_, _, refl)

put_a_conflict :
    (c : AirspaceConflict) × (s' : State) × (put_operational_intent_reference ext0 5 "uss1"
        (params_a [])
        s0
      ≡ (ok (conflicting c), s'))
unfolding any filter collect GoMap.get GoMap.set GoMap.delete GoMap.modify_where collect_result
    union_cells_volumes_4d requires_key oi_requires_key next_version new_ovn_from_time replace_all
    operational_intent_to_rest constraint_to_rest group_by_url make_subscribers_to_notify overlaps
    overlaps_time require_extent_times availability_to_model get_uss_availability
    availability_or_default in_cells_volume bumped subscription_to_model get_subscription
    upsert_subscription increment_loop increment_notification_indices
    increment_notification_indices_for_operational_intents delete_subscription
    lock_subscriptions_on_cells too_low too_high oi_matches no_cells depends_on init_availabilities
    availability_of record_of operational_intent_to_model fill_availabilities
    build_operational_intents get_operational_intent upsert_operational_intent
    search_operational_intents delete_operational_intent get_dependent_operational_intents
    constraint_matches constraint_to_model search_constraints in_key to_oir
    new_implicit_subscription validate_upsert_request_against_previous_oir only_dependent
    subscription_is_implicit_and_only_attached_to_oir previous_subscription remove_subscription
    check_delete delete_checked delete_operational_intent_reference cover_start cover_end
    is_being_replaced cover_cells ensure_subscription_covers_oir requested_subscription
    use_requested choose_subscription resolve_subscription is_missing constraint_is_missing scrubbed
    scrubbed_constraint missing_constraints conflict validate_key_and_provide_conflict_response
    subscription_ids prior_of_old prior_of_new prior may_not_put check_key upsert_attached
    remove_previous notify_volume write_oir put_resolved put_operational_intent_reference
put_a_conflict = (_, _, refl)

b-IsRelevant : (key : List String) → IsRelevant ext0 s0 (params_a key) "b" rec_b
unfolding any filter collect GoMap.get GoMap.set GoMap.delete GoMap.modify_where collect_result
    union_cells_volumes_4d requires_key oi_requires_key next_version new_ovn_from_time replace_all
    operational_intent_to_rest constraint_to_rest group_by_url make_subscribers_to_notify overlaps
    overlaps_time require_extent_times availability_to_model get_uss_availability
    availability_or_default in_cells_volume bumped subscription_to_model get_subscription
    upsert_subscription increment_loop increment_notification_indices
    increment_notification_indices_for_operational_intents delete_subscription
    lock_subscriptions_on_cells too_low too_high oi_matches no_cells depends_on init_availabilities
    availability_of record_of operational_intent_to_model fill_availabilities
    build_operational_intents get_operational_intent upsert_operational_intent
    search_operational_intents delete_operational_intent get_dependent_operational_intents
    constraint_matches constraint_to_model search_constraints in_key to_oir
    new_implicit_subscription validate_upsert_request_against_previous_oir only_dependent
    subscription_is_implicit_and_only_attached_to_oir previous_subscription remove_subscription
    check_delete delete_checked delete_operational_intent_reference cover_start cover_end
    is_being_replaced cover_cells ensure_subscription_covers_oir requested_subscription
    use_requested choose_subscription resolve_subscription is_missing constraint_is_missing scrubbed
    scrubbed_constraint missing_constraints conflict validate_key_and_provide_conflict_response
    subscription_ids prior_of_old prior_of_new prior may_not_put check_key upsert_attached
    remove_previous notify_volume write_oir put_resolved put_operational_intent_reference
b-IsRelevant key = record {
  stored = refl;
  other = refl;
  in_area = record {
    cells = record { cell = 2; left = Memᴰ.tail (Memᴰ.head refl); right = Memᴰ.head refl };
    starts = omega arith;
    ends = omega arith;
    above = omega arith;
    below = omega arith;
  };
  required = refl;
}

put-key_example : in_key (params_a ("bT" ∷ [])) (attach ext0 s0 rec_b).ovn ≡ true
unfolding requires_key
put-key_example =
    put-key ext0 5 "uss1" (params_a ("bT" ∷ [])) s0-IsValid put_a.2 refl small "b" rec_b
      (b-IsRelevant ("bT" ∷ []))

-- The reference to `b`, with its OVN hidden.
abbrev ref_b : OperationalIntentReference
ref_b = record (operational_intent_to_rest ext0 (attach ext0 s0 rec_b)) { ovn = no_ovn_phrase }

b-IsReported : IsReported ext0 s0 "uss1" (params_a []) ref_b
unfolding any filter collect GoMap.get GoMap.set GoMap.delete GoMap.modify_where collect_result
    union_cells_volumes_4d requires_key oi_requires_key next_version new_ovn_from_time replace_all
    operational_intent_to_rest constraint_to_rest group_by_url make_subscribers_to_notify overlaps
    overlaps_time require_extent_times availability_to_model get_uss_availability
    availability_or_default in_cells_volume bumped subscription_to_model get_subscription
    upsert_subscription increment_loop increment_notification_indices
    increment_notification_indices_for_operational_intents delete_subscription
    lock_subscriptions_on_cells too_low too_high oi_matches no_cells depends_on init_availabilities
    availability_of record_of operational_intent_to_model fill_availabilities
    build_operational_intents get_operational_intent upsert_operational_intent
    search_operational_intents delete_operational_intent get_dependent_operational_intents
    constraint_matches constraint_to_model search_constraints in_key to_oir
    new_implicit_subscription validate_upsert_request_against_previous_oir only_dependent
    subscription_is_implicit_and_only_attached_to_oir previous_subscription remove_subscription
    check_delete delete_checked delete_operational_intent_reference cover_start cover_end
    is_being_replaced cover_cells ensure_subscription_covers_oir requested_subscription
    use_requested choose_subscription resolve_subscription is_missing constraint_is_missing scrubbed
    scrubbed_constraint missing_constraints conflict validate_key_and_provide_conflict_response
    subscription_ids prior_of_old prior_of_new prior may_not_put check_key upsert_attached
    remove_previous notify_volume write_oir put_resolved put_operational_intent_reference
b-IsReported = record {
  id = "b";
  rec = rec_b;
  relevant = b-IsRelevant [];
  absent = refl;
  shown = refl;
}

put-conflict_example :
    (put_a_conflict.1 ≡ s0)
    × (requires_key "Accepted" ≡ true)
    × ((ref : OperationalIntentReference)
        → Memᴰ ref (entries put_a_conflict.0.missing_operational_intents)
        → IsReported ext0 s0 "uss1" (params_a []) ref)
put-conflict_example = put-conflict ext0 5 "uss1" (params_a []) s0-IsValid put_a_conflict.2

put-conflict_complete_example : Memᴰ ref_b (entries put_a_conflict.0.missing_operational_intents)
put-conflict_complete_example =
    put-conflict_complete ext0 5 "uss1" (params_a []) s0-IsValid put_a_conflict.2 small ref_b
      b-IsReported

put-Stores_example : Stores ext0 5 "uss1" (params_a ("bT" ∷ [])) s0 put_a.1
put-Stores_example = put-Stores ext0 5 "uss1" (params_a ("bT" ∷ [])) put_a.2

abbrev payload_b : DeleteOirPayload
payload_b = record { id = "b"; manager = "uss2"; ovn = "bT" }

-- A store where `a` has the implicit subscription `i`.
abbrev rec_a : OperationalIntentRecord
rec_a = record rec_b { id = "a"; subscription_id = some "i" }

abbrev sub_i : SubscriptionRecord
sub_i = record {
  id = "i";
  manager = "uss2";
  notification_index = 0;
  uss_base_url = "https://uss2";
  notify_for_operational_intents = true;
  notify_for_constraints = false;
  implicit_subscription = true;
  start_time = 10;
  end_time = 20;
  cells = 1 ∷ 2 ∷ [];
  updated_at = 1;
}

abbrev s2 : State
s2 = record initial_state {
  operational_intents = ("a", rec_a) ∷ [];
  subscriptions = ("i", sub_i) ∷ [];
}

s2-IsValid : IsValid s2
unfolding GoMap.get
s2-IsValid = record {
  distinct_oirs = (refl, tt);
  distinct_subs = (refl, tt);
  distinct_constraints = tt;
  distinct_availabilities = tt;
  availability_usses = λ m rec e. absurd (ground arith);
  oir_ids = λ id rec e. let (k, r) = one "a" id rec_a rec e in subst (λ x. x.id ≡ id) r k;
  oir_bounds = λ id rec e.
      let (k, r) = one "a" id rec_a rec e in subst (λ x. HasBounds x.volume) r rec_b-HasBounds;
  sub_ids = λ id rec e. let (k, r) = one "i" id sub_i rec e in subst (λ x. x.id ≡ id) r k;
  constraint_ids = λ id rec e. cc;
  constraint_times = λ id rec e. absurd (ground arith);
}

s2-IsAttached : IsAttached s2
unfolding GoMap.get
s2-IsAttached = record {
  at = λ id rec sub e d.
      let (k, r) = one "a" id rec_a rec e in
      let same : "i" ≡ sub = ground (arith, d, r) in
      (sub_i, subst (λ x. GoMap.get s2.subscriptions x ≡ some sub_i) same refl);
}

abbrev payload_a : DeleteOirPayload
payload_a = record { id = "a"; manager = "uss2"; ovn = "aT" }

-- The subscription goes with its only operational intent.
delete_a :
    (c : ChangeResponse) × (delete_operational_intent_reference ext0 payload_a s2
      ≡ (ok c, initial_state))
unfolding any filter collect GoMap.get GoMap.set GoMap.delete GoMap.modify_where collect_result
    union_cells_volumes_4d requires_key oi_requires_key next_version new_ovn_from_time replace_all
    operational_intent_to_rest constraint_to_rest group_by_url make_subscribers_to_notify overlaps
    overlaps_time require_extent_times availability_to_model get_uss_availability
    availability_or_default in_cells_volume bumped subscription_to_model get_subscription
    upsert_subscription increment_loop increment_notification_indices
    increment_notification_indices_for_operational_intents delete_subscription
    lock_subscriptions_on_cells too_low too_high oi_matches no_cells depends_on init_availabilities
    availability_of record_of operational_intent_to_model fill_availabilities
    build_operational_intents get_operational_intent upsert_operational_intent
    search_operational_intents delete_operational_intent get_dependent_operational_intents
    constraint_matches constraint_to_model search_constraints in_key to_oir
    new_implicit_subscription validate_upsert_request_against_previous_oir only_dependent
    subscription_is_implicit_and_only_attached_to_oir previous_subscription remove_subscription
    check_delete delete_checked delete_operational_intent_reference cover_start cover_end
    is_being_replaced cover_cells ensure_subscription_covers_oir requested_subscription
    use_requested choose_subscription resolve_subscription is_missing constraint_is_missing scrubbed
    scrubbed_constraint missing_constraints conflict validate_key_and_provide_conflict_response
    subscription_ids prior_of_old prior_of_new prior may_not_put check_key upsert_attached
    remove_previous notify_volume write_oir put_resolved put_operational_intent_reference
delete_a = (_, refl)

delete-removed_example : IsDeleted ext0 payload_a s2 initial_state
delete-removed_example = delete-removed ext0 payload_a delete_a.1

delete-IsAttached_example : IsAttached initial_state
delete-IsAttached_example = delete-IsAttached ext0 payload_a s2-IsValid s2-IsAttached delete_a.1

-- An implicit subscription that begins too late and lacks a cell.
abbrev late : Subscription
late = record {
  id = "i";
  version = "";
  notification_index = 4;
  manager = "uss1";
  uss_base_url = "https://uss1";
  notify_for_operational_intents = true;
  notify_for_constraints = false;
  implicit_subscription = true;
  volume = record {
    cells = 2 ∷ [];
    start_time = some 18;
    end_time = some 40;
    altitude_lo = none;
    altitude_hi = none;
  };
}

covered : (c : Changed) × (ensure_subscription_covers_oir ext0 late (params_a []) ≡ ok c)
unfolding any ensure_subscription_covers_oir cover_start cover_end cover_cells
covered = (_, refl)

ensure-IsCovering_example : IsCovering ext0 late (params_a []) covered.0
ensure-IsCovering_example = ensure-IsCovering ext0 late (params_a []) ext0-ContainsUnion covered.1

-- An update of `a` that replaces its implicit subscription `i` by a new one, `j`.
abbrev params_j : ValidOirParams
params_j = record (params_a []) {
  ovn = "aT";
  implicit_subscription = record { id = "j"; base_url = "https://uss2"; for_constraints = true };
}

put_j :
    (c : ChangeResponse) × (s' : State) × (put_operational_intent_reference ext0 5 "uss2" params_j
        s2
      ≡ (ok (response c), s'))
unfolding any filter collect GoMap.get GoMap.set GoMap.delete GoMap.modify_where collect_result
    union_cells_volumes_4d requires_key oi_requires_key next_version new_ovn_from_time replace_all
    operational_intent_to_rest constraint_to_rest group_by_url make_subscribers_to_notify overlaps
    overlaps_time require_extent_times availability_to_model get_uss_availability
    availability_or_default in_cells_volume bumped subscription_to_model get_subscription
    upsert_subscription increment_loop increment_notification_indices
    increment_notification_indices_for_operational_intents delete_subscription
    lock_subscriptions_on_cells too_low too_high oi_matches no_cells depends_on init_availabilities
    availability_of record_of operational_intent_to_model fill_availabilities
    build_operational_intents get_operational_intent upsert_operational_intent
    search_operational_intents delete_operational_intent get_dependent_operational_intents
    constraint_matches constraint_to_model search_constraints in_key to_oir
    new_implicit_subscription validate_upsert_request_against_previous_oir only_dependent
    subscription_is_implicit_and_only_attached_to_oir previous_subscription remove_subscription
    check_delete delete_checked delete_operational_intent_reference cover_start cover_end
    is_being_replaced cover_cells ensure_subscription_covers_oir requested_subscription
    use_requested choose_subscription resolve_subscription is_missing constraint_is_missing scrubbed
    scrubbed_constraint missing_constraints conflict validate_key_and_provide_conflict_response
    subscription_ids prior_of_old prior_of_new prior may_not_put check_key upsert_attached
    remove_previous notify_volume write_oir put_resolved put_operational_intent_reference
put_j = (_, _, refl)

put-IsAttached_example : IsAttached put_j.1
unfolding GoMap.get
put-IsAttached_example = put-IsAttached ext0 5 "uss2" params_j s2-IsValid s2-IsAttached refl put_j.2
