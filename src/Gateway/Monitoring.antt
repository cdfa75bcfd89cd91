-- ===== src/Gateway/Monitoring.antt =====
-- services/gateway/internal/store/monitoring.go: lookups, subscriptions and the versioned snapshots
-- that tell the scheduler whether a product is watched.
pub mod Sync
pub mod Reconcile
use price_scount.Base.{
  ℕ, ◌+◌, String, Bool, false, not, ◌&&◌, none, List, [], ◌∷◌, ◌++◌, ◌==◌, exists, find, update,
  if◌then◌else◌, incr64, Tx, pure, raise, gets, or_raise, modify, ◌>>=◌, ◌>>◌, not_found, database,
}
use price_scount.Env.{Env, Uuid}
use price_scount.Contracts.{
  TrackRequest, lookup_task, track_request, queue_lookup_tasks, queue_track_requests,
}
use price_scount.Outbox.Table.{EventKey, insert_event}
use price_scount.Gateway.Db.{
  Db, Product, Subscription, Lookup, pending, find_product, read_uuid, enqueue,
}
use price_scount.Gateway.Alerts.{watches}

-- SELECT EXISTS(SELECT 1 FROM subscriptions WHERE product_id=$1 AND active AND NOT paused).
abbrev pub is_watched : Uuid → List Subscription → Bool
is_watched product rows = exists (watches product) rows

-- WHERE id=$1 AND user_id=$2.
abbrev pub owned_by : Uuid → Uuid → Subscription → Bool
owned_by id user s = s.id == id && s.user_id == user

abbrev pub ten_minutes : ℕ
ten_minutes = 600000000

module _ (env : Env) (now : ℕ) where
  abbrev pub new_lookup : Uuid → String → Lookup
  new_lookup id url = record {
    id = id;
    url = url;
    status = pending;
    name = none;
    price = none;
    error = none;
    expires_at = now + ten_minutes;
  }

  -- CreateLookup; the task id is the UUID that the code draws.
  unfoldable pub create_lookup : Uuid → String → String → Tx Db (Unit {0})
  unfolding enqueue
  create_lookup id url task_id db =
      if exists (λ l. l.id == id) db.lookups
      then raise database db
      else (do
        modify (λ d. record d { lookups = d.lookups ++ new_lookup id url ∷ [] })
        enqueue now (EventKey.lookup task_id) queue_lookup_tasks (
            lookup_task (record {
              task_id = task_id;
              lookup_id = env.uuid_string id;
              url = url;
              platform = "wb";
            })))
          db

  -- lockProduct; a missing row is an error without a sentinel.
  unfoldable pub lock_product : Uuid → Tx Db Product
  lock_product id db = or_raise database (find_product id db.products) db

  abbrev pub snapshot_request : Product → ℕ → Bool → TrackRequest
  snapshot_request p version active = record {
    task_id = env.new_task_id p.id version;
    action = "set_state";
    version = version;
    active = active;
    product_id = env.uuid_string p.id;
    url = p.url;
    platform = p.platform;
    interval_hours = 1;
    chat_id = 0;
  }

  -- snapshot: the event of one version of a product.
  unfoldable pub snapshot : Product → ℕ → Db → Db
  snapshot p version db = record db {
    outbox =
        insert_event now (EventKey.track p.id version) queue_track_requests
          (track_request (snapshot_request p version (is_watched p.id db.subscriptions))) db.outbox;
  }

  abbrev pub set_version : Uuid → ℕ → Db → Db
  set_version id version db = record db {
    products = update (λ p. p.id == id) (λ p. record p { monitor_version = version }) db.products;
  }

  -- version++, the UPDATE of the product and its snapshot.
  unfoldable pub bump : Product → Db → Db
  unfolding snapshot
  bump p db =
      let version = incr64 p.monitor_version in snapshot p version (set_version p.id version db)

  -- QueueForce; the task is the UUID that the code draws.
  unfoldable pub queue_force : Uuid → String → Uuid → ℕ → Tx Db Uuid
  queue_force task sub_id user chat = do
    id ← read_uuid env sub_id
    found ← gets (λ db. find (λ s. owned_by id user s && s.active) db.subscriptions)
    s ← or_raise not_found found
    product ← gets (λ db. find_product s.product_id db.products)
    p ← or_raise not_found product
    owner ← gets (λ db. find (λ u. u.id == s.user_id) db.users)
    u ← or_raise not_found owner
    if not (u.chat_id == chat) then raise not_found else do
      taken ← gets (λ db. exists (λ f. f.task_id == task) db.force_requests)
      if taken then raise database else do
        modify (λ db. record db {
          force_requests =
              db.force_requests
              ++ record { task_id = task; product_id = p.id; user_id = user; chat_id = chat } ∷ [];
        })
        enqueue now (EventKey.force (env.uuid_string task)) queue_track_requests (
            track_request (record {
              task_id = env.uuid_string task;
              action = "force";
              version = 0;
              active = false;
              product_id = env.uuid_string p.id;
              url = p.url;
              platform = p.platform;
              interval_hours = 0;
              chat_id = chat;
            }))
        pure task

  unfoldable pub bump_all : List Product → Db → Db
  bump_all [] db = db
  bump_all (p ∷ rest) db = bump_all rest (bump p db)

  -- ReconcileMonitoring: one snapshot of every product.
  unfoldable pub reconcile : Tx Db (Unit {0})
  reconcile = modify (λ db. bump_all db.products db)
