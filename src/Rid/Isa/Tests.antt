-- ===== src/Rid/Isa/Tests.antt =====
-- An ISA is inserted, updated and deleted.
use dss.Prelude.{
  ◌≡◌, refl, none, some, [], ◌∷◌, ◌+◌, any, filter, collect, arith, List, length, length-filter-le,
  suc, ◌≤◌,
}
use dss.GoMap
use dss.Exec.{ok}
use dss.Fixtures.{ext0, ext0-S2Laws}
use dss.Models.{validate_cell, levelify}
use dss.Models.Version.{unix_nanos, digit, digits, format_uint, version_from_time, matches}
use dss.Rid.Models.{Isa}
use dss.Rid.Models.TimeRange.{
  requested_start, requested_end, isa_range, adjust_isa, default_end, subscription_range,
  adjust_subscription,
}
use dss.Rid.Store.Records.{
  State, initial_state, SubscriptionRecord, overlaps, validate_cells, validate_times,
  validate_write_data, find_for_write,
}
use dss.Rid.Store.Isas.{
  isa_record_from_model, isa_to_model, get_isa, put_isa, overwrite_isa, insert_isa, update_isa,
  delete_isa, isa_matches, search_isas,
}
use dss.Rid.Store.Subscriptions.{
  sub_record_from_model, sub_to_model, get_subscription, put_subscription, overwrite_subscription,
  insert_subscription, update_subscription, delete_subscription, is_owner, is_live_in_cells, bumped,
  update_notification_idxs_in_cells, increment, count_cells, count_records, max_count,
  max_subscription_count_in_cells_by_owner,
}
use dss.Rid.Store.Fixtures.{noon, isa_f, sub_g}
use dss.Models.{max_result_limit}
use dss.Rid.Store.Isas.Search.{Finds, search_isas-Finds}
use dss.Rid.Store.Keeps.{IsValid}
use dss.Rid.Isa.{
  IsaResult, DeleteIsaPayload, check_access, execute_delete_isa, execute_insert_isa, notified_cells,
  execute_update_isa,
}
use dss.Rid.Subscriptions.{insert_and_search, execute_create_subscription, check_subscription_count}
use dss.Rid.Run.{create_subscription, handle, next, begin, Run-IsValid}
use dss.Rid.Isa.Effects.{IsInserted, IsUpdated, IsDeleted}
use dss.Rid.Isa.Laws.{insert-IsInserted, update-IsUpdated, delete-IsDeleted, insert-IsValid}

-- A store with a subscription that shares a cell with the ISA.
abbrev s_g : State
s_g = handle ext0 noon (create_subscription sub_g) initial_state

s_g-IsValid : IsValid ext0 s_g
s_g-IsValid = Run-IsValid ext0 (next (begin noon) noon (omega arith) (create_subscription sub_g))

insert_f :
    (r : IsaResult) × (s : State) × (execute_insert_isa ext0 (noon + 1) isa_f s_g ≡ (ok r, s))
unfolding filter any collect GoMap.get GoMap.set GoMap.delete GoMap.modify_where validate_cell
    levelify unix_nanos digit digits format_uint version_from_time matches requested_start
    requested_end isa_range adjust_isa default_end subscription_range adjust_subscription overlaps
    validate_cells validate_times validate_write_data find_for_write isa_record_from_model
    isa_to_model get_isa put_isa overwrite_isa insert_isa update_isa delete_isa isa_matches
    search_isas sub_record_from_model sub_to_model get_subscription put_subscription
    overwrite_subscription insert_subscription update_subscription delete_subscription is_owner
    is_live_in_cells bumped update_notification_idxs_in_cells increment count_cells count_records
    max_count max_subscription_count_in_cells_by_owner check_access execute_delete_isa
    execute_insert_isa notified_cells execute_update_isa handle insert_and_search
    execute_create_subscription check_subscription_count
insert_f = (_, _, refl)

abbrev s1 : State
s1 = (execute_insert_isa ext0 (noon + 1) isa_f s_g).1

-- The same ISA with another URL, at the version that was stored.
abbrev isa_f2 : Isa
isa_f2 = record isa_f { url = "https://uss1/2"; version = some (version_from_time (noon + 1)) }

update_f :
    (r : IsaResult) × (s : State) × (execute_update_isa ext0 (noon + 2) isa_f2 s1 ≡ (ok r, s))
unfolding filter any collect GoMap.get GoMap.set GoMap.delete GoMap.modify_where validate_cell
    levelify unix_nanos digit digits format_uint version_from_time matches requested_start
    requested_end isa_range adjust_isa default_end subscription_range adjust_subscription overlaps
    validate_cells validate_times validate_write_data find_for_write isa_record_from_model
    isa_to_model get_isa put_isa overwrite_isa insert_isa update_isa delete_isa isa_matches
    search_isas sub_record_from_model sub_to_model get_subscription put_subscription
    overwrite_subscription insert_subscription update_subscription delete_subscription is_owner
    is_live_in_cells bumped update_notification_idxs_in_cells increment count_cells count_records
    max_count max_subscription_count_in_cells_by_owner check_access execute_delete_isa
    execute_insert_isa notified_cells execute_update_isa handle insert_and_search
    execute_create_subscription check_subscription_count
update_f = (_, _, refl)

abbrev payload_f : DeleteIsaPayload
payload_f = record { id = "f"; owner = "uss1"; version = some (version_from_time (noon + 1)) }

delete_f : (r : IsaResult) × (s : State) × (execute_delete_isa (noon + 2) payload_f s1 ≡ (ok r, s))
unfolding filter any collect GoMap.get GoMap.set GoMap.delete GoMap.modify_where validate_cell
    levelify unix_nanos digit digits format_uint version_from_time matches requested_start
    requested_end isa_range adjust_isa default_end subscription_range adjust_subscription overlaps
    validate_cells validate_times validate_write_data find_for_write isa_record_from_model
    isa_to_model get_isa put_isa overwrite_isa insert_isa update_isa delete_isa isa_matches
    search_isas sub_record_from_model sub_to_model get_subscription put_subscription
    overwrite_subscription insert_subscription update_subscription delete_subscription is_owner
    is_live_in_cells bumped update_notification_idxs_in_cells increment count_cells count_records
    max_count max_subscription_count_in_cells_by_owner check_access execute_delete_isa
    execute_insert_isa notified_cells execute_update_isa handle insert_and_search
    execute_create_subscription check_subscription_count
delete_f = (_, _, refl)

-- The subscription has been told of the ISA.
told_g :
    (rec : SubscriptionRecord) × (GoMap.get insert_f.1.subscriptions "g" ≡ some rec)
    × (rec.notification_index ≡ 1)
unfolding filter any collect GoMap.get GoMap.set GoMap.delete GoMap.modify_where validate_cell
    levelify unix_nanos digit digits format_uint version_from_time matches requested_start
    requested_end isa_range adjust_isa default_end subscription_range adjust_subscription overlaps
    validate_cells validate_times validate_write_data find_for_write isa_record_from_model
    isa_to_model get_isa put_isa overwrite_isa insert_isa update_isa delete_isa isa_matches
    search_isas sub_record_from_model sub_to_model get_subscription put_subscription
    overwrite_subscription insert_subscription update_subscription delete_subscription is_owner
    is_live_in_cells bumped update_notification_idxs_in_cells increment count_cells count_records
    max_count max_subscription_count_in_cells_by_owner check_access execute_delete_isa
    execute_insert_isa notified_cells execute_update_isa handle insert_and_search
    execute_create_subscription check_subscription_count insert_f
told_g = (_, refl, refl)

insert-IsInserted_example : IsInserted ext0 (noon + 1) isa_f s_g insert_f.1
insert-IsInserted_example =
    insert-IsInserted ext0 (noon + 1) isa_f s_g insert_f.1 insert_f.0 insert_f.2

s1-IsValid : IsValid ext0 s1
s1-IsValid = insert-IsValid ext0 (noon + 1) s_g s_g-IsValid isa_f

update-IsUpdated_example : IsUpdated ext0 (noon + 2) isa_f2 s1 update_f.1
update-IsUpdated_example =
    update-IsUpdated ext0 (noon + 2) ext0-S2Laws isa_f2 s1 update_f.1 update_f.0 s1-IsValid
      update_f.2

delete-IsDeleted_example : IsDeleted (noon + 2) payload_f s1 delete_f.1
delete-IsDeleted_example =
    delete-IsDeleted ext0 (noon + 2) s1 s1-IsValid payload_f delete_f.1 delete_f.0 delete_f.2

one_isa : length (GoMap.values s1.isas) ≡ 1
unfolding filter any collect GoMap.get GoMap.set GoMap.delete GoMap.modify_where validate_cell
    levelify unix_nanos digit digits format_uint version_from_time matches requested_start
    requested_end isa_range adjust_isa default_end subscription_range adjust_subscription overlaps
    validate_cells validate_times validate_write_data find_for_write isa_record_from_model
    isa_to_model get_isa put_isa overwrite_isa insert_isa update_isa delete_isa isa_matches
    search_isas sub_record_from_model sub_to_model get_subscription put_subscription
    overwrite_subscription insert_subscription update_subscription delete_subscription is_owner
    is_live_in_cells bumped update_notification_idxs_in_cells increment count_cells count_records
    max_count max_subscription_count_in_cells_by_owner check_access execute_delete_isa
    execute_insert_isa notified_cells execute_update_isa handle insert_and_search
    execute_create_subscription check_subscription_count
one_isa = refl

few : length (filter (isa_matches (2 ∷ []) noon none) (GoMap.values s1.isas)) ≤ suc max_result_limit
few =
    omega (arith, length-filter-le (isa_matches (2 ∷ []) noon none) (GoMap.values s1.isas), one_isa)

search_isas-Finds_example :
    (out : List Isa) × (search_isas (2 ∷ []) (some noon) none s1 ≡ (ok out, s1))
    × Finds (2 ∷ []) noon none s1 out
search_isas-Finds_example = search_isas-Finds 2 [] noon none s1 s1-IsValid.distinct_isas few
