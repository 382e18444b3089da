-- ===== src/Scd/Store/Tests.antt =====
-- The store's operations at the store of the fixtures.
use mathlib.Core.List.{Memᴰ}
use dss.Prelude.{
  ◌≡◌, refl, inl, inr, true, false, none, some, List, [], ◌∷◌, arith, any, filter, collect, ◌==◌,
}
use mathlib.Core.List.Memᴰ
use dss.GoMap
use dss.Scd.Store.Checkpoint.Pointers.{
  PointerRepo, Write, upsert, remove, notify, perform_all, save, reset, table, perform_values,
}
use dss.Scd.Store.Checkpoint.Isolation.{IsSeparate}
use dss.Scd.Store.Checkpoint.Laws.{reset-perform_all}
use dss.Exec.{ok, collect_result}
use dss.Scd.Models.{EntityId, OperationalIntent, Subscription, new_ovn_from_time, replace_all}
use dss.Scd.Store.Records.{
  State, OperationalIntentRecord, SubscriptionRecord, initial_state, overlaps, overlaps_time,
  require_extent_times,
}
use dss.Scd.Store.Spec.{Intersects}
use dss.Scd.Store.Availability.{
  availability_to_model, get_uss_availability, availability_or_default,
}
use dss.Scd.Store.Subscriptions.{increment_notification_indices}
use dss.Scd.Store.Subscriptions.Laws.{Notifies, increment-Notifies}
use dss.Scd.Store.OperationalIntents.{
  too_low, too_high, oi_matches, no_cells, init_availabilities, availability_of, record_of,
  operational_intent_to_model, fill_availabilities, build_operational_intents,
  get_operational_intent, upsert_operational_intent, search_operational_intents,
}
use dss.Scd.Store.OperationalIntents.Build.{attach}
use dss.Scd.Store.OperationalIntents.Laws.{IsStored, get-upsert}
use dss.Scd.Store.OperationalIntents.Search.{search_sound, search_complete}
use dss.Fixtures.{ext0}
use dss.Scd.Store.Fixtures.{volume_a, rec_b, s0, s0-IsValid, small}

found_b :
    (s' : State) × (search_operational_intents ext0 volume_a s0
      ≡ (ok (attach ext0 s0 rec_b ∷ []), s'))
unfolding any filter collect GoMap.get GoMap.set collect_result new_ovn_from_time replace_all
    overlaps overlaps_time require_extent_times availability_to_model get_uss_availability
    availability_or_default too_low too_high oi_matches no_cells init_availabilities availability_of
    record_of operational_intent_to_model fill_availabilities build_operational_intents
    get_operational_intent upsert_operational_intent search_operational_intents
found_b = (_, refl)

b-Intersects : Intersects volume_a rec_b.volume
b-Intersects = record {
  cells = record { cell = 2; left = Memᴰ.tail (Memᴰ.head refl); right = Memᴰ.head refl };
  starts = omega arith;
  ends = omega arith;
  above = omega arith;
  below = omega arith;
}

search_sound_example :
    (rec : OperationalIntentRecord) × (GoMap.get s0.operational_intents (attach ext0 s0 rec_b).id
      ≡ some rec)
    × (attach ext0 s0 rec_b ≡ attach ext0 s0 rec)
    × Intersects volume_a rec.volume
search_sound_example =
    search_sound ext0 volume_a s0 s0-IsValid found_b.1 (attach ext0 s0 rec_b) (Memᴰ.head refl)

search_complete_example : Memᴰ (attach ext0 s0 rec_b) (attach ext0 s0 rec_b ∷ [])
unfolding GoMap.get
search_complete_example =
    search_complete ext0 volume_a s0 s0-IsValid found_b.1 small "b" rec_b refl b-Intersects

abbrev oi_c : OperationalIntent
oi_c = record {
  id = "c";
  manager = "uss1";
  uss_availability = "";
  version = 3;
  state = "Activated";
  ovn = "";
  past_ovns = "x" ∷ [];
  uss_base_url = "https://uss1";
  subscription_id = none;
  volume = volume_a;
}

put_c :
    (op : OperationalIntent) × (s' : State) × (upsert_operational_intent ext0 7 oi_c s0
      ≡ (ok op, s'))
unfolding any filter collect GoMap.get GoMap.set collect_result new_ovn_from_time replace_all
    overlaps overlaps_time require_extent_times availability_to_model get_uss_availability
    availability_or_default too_low too_high oi_matches no_cells init_availabilities availability_of
    record_of operational_intent_to_model fill_availabilities build_operational_intents
    get_operational_intent upsert_operational_intent search_operational_intents
put_c = (_, _, refl)

get-upsert_example :
    IsStored ext0 7 s0 oi_c put_c.0
    × (get_operational_intent ext0 "c" put_c.1 ≡ (ok (some put_c.0), put_c.1))
    × ((id : EntityId)
        → ("c" == id) ≡ false
        → (get_operational_intent ext0 id put_c.1).0 ≡ (get_operational_intent ext0 id s0).0)
    × (put_c.1 ≡ record s0 { operational_intents = put_c.1.operational_intents })
get-upsert_example = get-upsert ext0 7 s0 oi_c put_c.2

abbrev sub_i : SubscriptionRecord
sub_i = record {
  id = "i";
  manager = "uss2";
  notification_index = 0;
  uss_base_url = "https://uss2";
  notify_for_operational_intents = true;
  notify_for_constraints = false;
  implicit_subscription = true;
  start_time = 10;
  end_time = 20;
  cells = 1 ∷ 2 ∷ [];
  updated_at = 1;
}

abbrev s3 : State
s3 = record initial_state { subscriptions = ("i", sub_i) ∷ [] }

increment-Notifies_example :
    (out : List Subscription) × (s' : State) × (increment_notification_indices ext0 volume_a
        (λ rec. rec.notify_for_operational_intents)
        s3
      ≡ (ok out, s'))
    × Notifies ext0 volume_a (λ rec. rec.notify_for_operational_intents) s3 s' out
unfolding GoMap.get
increment-Notifies_example =
    increment-Notifies ext0 volume_a (λ rec. rec.notify_for_operational_intents) s3 (refl, tt)

-- The subscription at pointer 0, and no checkpoint.
abbrev pointers : PointerRepo
pointers = record {
  heap = record { at_ = λ q. sub_i; next = 1 };
  state = ("i", 0) ∷ [];
  checkpoint = [];
}

pointers-IsSeparate : IsSeparate pointers
pointers-IsSeparate = record {
  state_below = λ q n. elim (Memᴰ.cases_cons n) [
    | inl e ↦ omega (arith, e)
    | inr k ↦ absurd (Memᴰ.not-nil k)
  ];
  checkpoint_below = λ q n. absurd (Memᴰ.not-nil n);
  distinct = (Memᴰ.not-nil, tt);
  apart = λ q n k. absurd (Memᴰ.not-nil k);
}

abbrev writes : List Write
writes = notify (λ rec. true) ∷ remove "i" ∷ upsert "j" sub_i ∷ []

abbrev restored : PointerRepo
restored = reset (perform_all writes (save pointers))

abbrev restored_again : PointerRepo
restored_again = reset (perform_all (notify (λ rec. true) ∷ []) restored)

reset-perform_all_example :
    (table (perform_all writes (save pointers)) ≡ perform_values writes (table pointers))
    × (table restored ≡ table pointers)
    × (table restored_again ≡ table pointers)
    × IsSeparate restored_again
reset-perform_all_example =
    reset-perform_all pointers pointers-IsSeparate writes (notify (λ rec. true) ∷ [])
