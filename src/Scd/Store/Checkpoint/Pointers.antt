-- ===== src/Scd/Store/Checkpoint/Pointers.antt =====
-- The table of subscriptions of pkg/scd/store/memstore/store.go as it is in memory: a map from ids to
-- pointers, whose records are written in place by a notification, and cloned by a checkpoint. No other
-- field of a record, and no record of another table, is ever written in place: the other writes of the
-- store put a new record into a map. The cells of a record are a value here.
use dss.Prelude.{ℕ, suc, Bool, List, [], ◌∷◌, nat_eq, if◌then◌else◌}
use dss.GoMap
use dss.GoMap.{GoMap}
use dss.Scd.Models.{EntityId}
use dss.Scd.Store.Records.{SubscriptionRecord}
use dss.Scd.Store.Subscriptions.{bumped}

-- The memory: what each pointer points to, and the first pointer that has not been given out.
pub record Heap : Type 0 where
  pub at_ : ℕ → SubscriptionRecord
  pub next : ℕ

-- `*q = rec`
unfoldable pub write : ℕ → SubscriptionRecord → Heap → Heap
write q rec h = record h { at_ = λ x. if nat_eq x q then rec else h.at_ x }

-- `&rec`
unfoldable pub alloc : SubscriptionRecord → Heap → ℕ × Heap
unfolding write
alloc rec h = (h.next, record (write h.next rec h) { next = suc h.next })

-- The table of subscriptions, and that of the checkpoint.
pub record PointerRepo : Type 0 where
  pub heap : Heap
  pub state : GoMap ℕ
  pub checkpoint : GoMap ℕ

-- The loop of `clone` over the subscriptions.
unfoldable pub clone : GoMap ℕ → Heap → GoMap ℕ × Heap
unfolding alloc
clone [] h = ([], h)
clone ((id, q) ∷ m) h =
    let (p, h1) = alloc (h.at_ q) h in let (rest, h2) = clone m h1 in ((id, p) ∷ rest, h2)

-- `rec.NotificationIndex++`, if the record is one to notify: if it lies in the area and asks for it.
unfoldable pub raise_at : (SubscriptionRecord → Bool) → ℕ → Heap → Heap
unfolding write
raise_at notified q h = if notified (h.at_ q) then write q (bumped (h.at_ q)) h else h

-- The loop of `incrementNotificationIndices`.
unfoldable pub raise_loop : (SubscriptionRecord → Bool) → GoMap ℕ → Heap → Heap
unfolding raise_at
raise_loop notified [] h = h
raise_loop notified ((id, q) ∷ m) h = raise_loop notified m (raise_at notified q h)

-- What the writes of the store do to the table: `UpsertSubscription` and `DeleteSubscription`, once
-- they are let through, and the notifications.
pub data Write : Type 0 where
  upsert : EntityId → SubscriptionRecord → Write
  remove : EntityId → Write
  notify : (SubscriptionRecord → Bool) → Write

unfoldable pub perform : Write → PointerRepo → PointerRepo
unfolding alloc raise_loop
perform (upsert id rec) r =
    let (p, h) = alloc rec r.heap in record r { heap = h; state = GoMap.set r.state id p }
perform (remove id) r = record r { state = GoMap.delete r.state id }
perform (notify notified) r = record r { heap = raise_loop notified r.state r.heap }

unfoldable pub perform_all : List Write → PointerRepo → PointerRepo
unfolding perform
perform_all [] r = r
perform_all (w ∷ ws) r = perform_all ws (perform w r)

-- `Checkpoint`
unfoldable pub save : PointerRepo → PointerRepo
unfolding clone
save r = let (m, h) = clone r.state r.heap in record r { heap = h; checkpoint = m }

-- `Restore`
unfoldable pub reset : PointerRepo → PointerRepo
unfolding clone
reset r = let (m, h) = clone r.checkpoint r.heap in record r { heap = h; state = m }

-- The records that a table holds.
unfoldable pub read : Heap → GoMap ℕ → GoMap SubscriptionRecord
read h [] = []
read h ((id, q) ∷ m) = (id, h.at_ q) ∷ read h m

-- The table in use, with its records.
abbrev pub table : PointerRepo → GoMap SubscriptionRecord
table r = read r.heap r.state

-- The same writes to a table that holds its records as values.
unfoldable pub perform_values : List Write → GoMap SubscriptionRecord → GoMap SubscriptionRecord
perform_values [] m = m
perform_values (upsert id rec ∷ ws) m = perform_values ws (GoMap.set m id rec)
perform_values (remove id ∷ ws) m = perform_values ws (GoMap.delete m id)
perform_values (notify notified ∷ ws) m = perform_values ws (GoMap.modify_where notified bumped m)
