-- ===== src/Rid/Subscriptions/Tests.antt =====
-- A subscription is created, updated and deleted; the update resets its notification index.
use dss.Prelude.{◌≡◌, refl, none, some, false, [], ◌∷◌, ◌+◌, any, filter, collect}
use dss.GoMap
use dss.Exec.{ok}
use dss.Fixtures.{ext0}
use dss.Models.{validate_cell, levelify}
use dss.Models.Version.{unix_nanos, digit, digits, format_uint, version_from_time, matches}
use dss.Rid.Models.{Subscription, validate_url}
use dss.Rid.Models.TimeRange.{
  requested_start, requested_end, isa_range, adjust_isa, default_end, subscription_range,
  adjust_subscription,
}
use dss.Rid.Store.Records.{
  State, initial_state, overlaps, validate_cells, validate_times, validate_write_data,
  find_for_write,
}
use dss.Rid.Store.Isas.{
  isa_record_from_model, isa_to_model, get_isa, put_isa, overwrite_isa, insert_isa, update_isa,
  delete_isa, isa_matches, search_isas,
}
use dss.Rid.Store.Subscriptions.{
  sub_record_from_model, sub_to_model, get_subscription, put_subscription, overwrite_subscription,
  insert_subscription, update_subscription, delete_subscription, is_owner, is_live_in_cells, bumped,
  update_notification_idxs_in_cells, increment, count_cells, count_records, max_count,
  max_subscription_count_in_cells_by_owner,
}
use dss.Rid.Store.Fixtures.{noon, sub_g}
use dss.Rid.Isa.{check_access}
use dss.Rid.Subscriptions.{
  SubscriptionResult, new_subscription, check_subscription_count, insert_and_search,
  update_and_search, execute_create_subscription, execute_update_subscription,
  execute_delete_subscription,
}
use dss.Rid.Subscriptions.Outcome.{IsCreated, IsUpdated}
use dss.Rid.Subscriptions.Laws.{
  create-IsCreated, update_subscription-IsUpdated, update-resets_index,
}
use dss.Rid.Store.Records.{SubscriptionRecord}

create_g :
    (r : SubscriptionResult) × (s : State) × (execute_create_subscription ext0 noon sub_g
        initial_state
      ≡ (ok r, s))
unfolding filter any collect GoMap.get GoMap.set GoMap.delete GoMap.modify_where validate_cell
    levelify unix_nanos digit digits format_uint version_from_time matches requested_start
    requested_end isa_range adjust_isa default_end subscription_range adjust_subscription overlaps
    validate_cells validate_times validate_write_data find_for_write isa_record_from_model
    isa_to_model get_isa put_isa overwrite_isa insert_isa update_isa delete_isa isa_matches
    search_isas sub_record_from_model sub_to_model get_subscription put_subscription
    overwrite_subscription insert_subscription update_subscription delete_subscription is_owner
    is_live_in_cells bumped update_notification_idxs_in_cells increment count_cells count_records
    max_count max_subscription_count_in_cells_by_owner check_access check_subscription_count
    insert_and_search update_and_search execute_create_subscription execute_update_subscription
    execute_delete_subscription new_subscription
create_g = (_, _, refl)

abbrev record_g : SubscriptionRecord
record_g = record {
  id = "g";
  url = "https://uss2";
  notification_index = 7;
  owner = "uss2";
  cells = 2 ∷ 3 ∷ [];
  start_time = noon;
  end_time = noon + 1000;
  altitude_hi = none;
  altitude_lo = none;
  writer = "w";
  updated_at = noon;
}

-- The subscription `g`, notified seven times.
abbrev s1 : State
s1 = record initial_state { subscriptions = ("g", record_g) ∷ [] }

abbrev sub_g2 : Subscription
sub_g2 = record sub_g { url = "https://uss2/2"; version = some (version_from_time noon) }

new_g :
    new_subscription "g" "uss2" "https://uss2/2" "w"
      (some (version_from_time noon))
      sub_g.volume
      false
      (λ url. ok "https")
    ≡ ok sub_g2
unfolding new_subscription validate_url
new_g = refl

update_g :
    (r : SubscriptionResult) × (s : State) × (execute_update_subscription ext0 (noon + 1) sub_g2 s1
      ≡ (ok r, s))
unfolding filter any collect GoMap.get GoMap.set GoMap.delete GoMap.modify_where validate_cell
    levelify unix_nanos digit digits format_uint version_from_time matches requested_start
    requested_end isa_range adjust_isa default_end subscription_range adjust_subscription overlaps
    validate_cells validate_times validate_write_data find_for_write isa_record_from_model
    isa_to_model get_isa put_isa overwrite_isa insert_isa update_isa delete_isa isa_matches
    search_isas sub_record_from_model sub_to_model get_subscription put_subscription
    overwrite_subscription insert_subscription update_subscription delete_subscription is_owner
    is_live_in_cells bumped update_notification_idxs_in_cells increment count_cells count_records
    max_count max_subscription_count_in_cells_by_owner check_access check_subscription_count
    insert_and_search update_and_search execute_create_subscription execute_update_subscription
    execute_delete_subscription new_subscription
update_g = (_, _, refl)

delete_g :
    (execute_delete_subscription
      (record { id = "g"; owner = "uss2"; version = some (version_from_time noon) })
      s1).1
    ≡ initial_state
unfolding filter any collect GoMap.get GoMap.set GoMap.delete GoMap.modify_where validate_cell
    levelify unix_nanos digit digits format_uint version_from_time matches requested_start
    requested_end isa_range adjust_isa default_end subscription_range adjust_subscription overlaps
    validate_cells validate_times validate_write_data find_for_write isa_record_from_model
    isa_to_model get_isa put_isa overwrite_isa insert_isa update_isa delete_isa isa_matches
    search_isas sub_record_from_model sub_to_model get_subscription put_subscription
    overwrite_subscription insert_subscription update_subscription delete_subscription is_owner
    is_live_in_cells bumped update_notification_idxs_in_cells increment count_cells count_records
    max_count max_subscription_count_in_cells_by_owner check_access check_subscription_count
    insert_and_search update_and_search execute_create_subscription execute_update_subscription
    execute_delete_subscription new_subscription
delete_g = refl

create-IsCreated_example : IsCreated ext0 noon sub_g initial_state create_g.1
create-IsCreated_example =
    create-IsCreated ext0 noon sub_g initial_state create_g.1 create_g.0 create_g.2

update_subscription-IsUpdated_example : IsUpdated ext0 (noon + 1) sub_g2 s1 update_g.1
update_subscription-IsUpdated_example =
    update_subscription-IsUpdated ext0 (noon + 1) sub_g2 s1 update_g.1 update_g.0 update_g.2

update-resets_index_example :
    (rec : SubscriptionRecord) × (GoMap.get update_g.1.subscriptions "g" ≡ some rec)
    × (rec.notification_index ≡ 0)
update-resets_index_example =
    update-resets_index ext0 (noon + 1) "g" "uss2" "https://uss2/2" "w"
      (some (version_from_time noon)) sub_g.volume false (λ url. ok "https") sub_g2 s1 update_g.1
      update_g.0 new_g update_g.2
