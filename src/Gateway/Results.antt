-- ===== src/Gateway/Results.antt =====
-- services/gateway/internal/store/results.go: ProcessPriceResult, one transaction for each result
-- of the extractor.
pub mod Redelivery
pub mod Effects
pub mod Forced
pub mod Told
pub mod Latest
pub mod Calm
pub mod Sync
pub mod Marked
use Prim.Native.String.{count}
use price_scount.Base.{
  ℕ, ◌+◌, String, Bool, true, false, not, ◌&&◌, ◌||◌, Option, none, some, [], ◌∷◌, ◌++◌, ◌==◌,
  str_eq, ltb, exists, find, update, if◌then◌else◌, Tx, pure, raise, gets, or_raise, modify, ◌>>=◌,
  ◌>>◌, invalid_result, database,
}
use price_scount.Base.Int.{float_lt, float_zero, is_nan, is_inf}
use price_scount.Base.Text.{join, format_int}
use price_scount.Env.{Env, Uuid}
use price_scount.Contracts.{PriceResult, notify_task, queue_notify_tasks}
use price_scount.Outbox.Table.{EventKey, insert_event}
use price_scount.Gateway.Alerts.{alert_rows, send_alerts}
use price_scount.Gateway.Db.{Db, Product, done, failed, find_product, read_uuid}

abbrev pub is_empty : String → Bool
is_empty s = str_eq s ""

unfoldable pub has_bad_price : PriceResult → Bool
has_bad_price r = r.success && (is_nan r.price || is_inf r.price || float_lt r.price float_zero)

-- INSERT INTO processed_price_results ... ON CONFLICT DO NOTHING; whether a row was inserted.
unfoldable pub mark_processed : Uuid → Tx Db Bool
mark_processed id db =
    if exists (λ u. u == id) db.processed
    then pure false db
    else pure true (record db { processed = db.processed ++ id ∷ [] })

-- Older than the latest successful result of the product.
unfoldable pub is_stale : PriceResult → Option ℕ → Bool
is_stale r none = false
is_stale r (some latest) = r.success && ltb r.scraped_at latest

abbrev pub touch_product : Uuid → ℕ → Db → Db
touch_product id at db = record db {
  products = update (λ p. p.id == id) (λ p. record p { latest_result_at = some at }) db.products;
}

abbrev pub hour : ℕ
hour = 3600000000

module _ (env : Env) (now : ℕ) where
  unfoldable pub finish_lookup : PriceResult → Uuid → Tx Db (Unit {0})
  finish_lookup r id =
      if r.success
      then (do
        price ← or_raise database (env.numeric r.price)
        modify (λ db. record db {
          lookups =
              update (λ l. l.id == id)
                (λ l. record l {
                  status = done;
                  name = some r.name;
                  price = some price;
                  expires_at = now + hour;
                })
                db.lookups;
        }))
      else modify (λ db. record db {
        lookups =
            update (λ l. l.id == id) (λ l. record l { status = failed; error = some r.error })
              db.lookups;
      })

  -- The branch of a result with a lookup id.
  unfoldable pub process_lookup : PriceResult → Tx Db (Unit {0})
  unfolding has_bad_price read_uuid
  process_lookup r = do
    lookup ← or_raise invalid_result (env.uuid_parse r.lookup_id)
    if has_bad_price r then raise invalid_result else do
      task ← read_uuid env r.task_id
      inserted ← mark_processed task
      if not inserted then pure tt else do id ← read_uuid env r.lookup_id; finish_lookup r id

  -- INSERT INTO price_history; the columns refuse a long currency, a large price and a known task.
  unfoldable pub insert_history : PriceResult → Uuid → Uuid → Tx Db (Unit {0})
  insert_history r product task db = elim (env.numeric r.price) [
    | none ↦ raise database db
    | some price ↦
        if ltb 3 (count r.currency) || exists (λ h. h.task_id == task) db.price_history
        then raise database db
        else modify
            (λ d. record d {
              price_history =
                  d.price_history
                  ++ record {
                    product_id = product;
                    price = price;
                    currency = r.currency;
                    scraped_at = r.scraped_at;
                    task_id = task;
                  }
                    ∷ [];
            })
            db
  ]

  -- The warning sign stands without its variation selector, which no text here can hold.
  unfoldable pub force_text : PriceResult → Product → String
  force_text r p =
      if r.success
      then join (
          "📊 Текущая цена\n\n"
          ∷ p.name
          ∷ "\n"
          ∷ p.url
          ∷ "\n\nЦена: "
          ∷ env.format_price r.price
          ∷ " "
          ∷ r.currency
          ∷ [])
      else join ("⚠ Не удалось проверить цену\n\n" ∷ p.name ∷ "\n" ∷ p.url ∷ "\n\n" ∷ r.error ∷ [])

  unfoldable pub notify_force : PriceResult → Product → ℕ → Db → Db
  notify_force r p chat db = record db {
    outbox =
        insert_event now (EventKey.force_result r.task_id) queue_notify_tasks
          (notify_task (record {
            task_id = r.task_id;
            channel = "telegram";
            target = format_int chat;
            text = force_text r p;
            direction = "";
            not_before = 0;
          }))
          db.outbox;
  }

  unfoldable pub store_history : PriceResult → Product → Uuid → Tx Db (Unit {0})
  store_history r p task = if r.success then insert_history r p.id task else pure tt

  -- A successful result that is not stale moves the product's newest time.
  unfoldable pub touch_latest : PriceResult → Product → Db → Db
  touch_latest r p db =
      if r.success && not (is_stale r p.latest_result_at)
      then touch_product p.id r.scraped_at db
      else db

  -- The force reply to the chat that asked, or else the alerts of a fresh price.
  unfoldable pub announce : PriceResult → Product → Option ℕ → Db → Db
  unfolding notify_force
  announce r p (some chat) db = notify_force r p chat db
  announce r p none db =
      if not r.success || is_stale r p.latest_result_at
      then db
      else send_alerts env now r p (alert_rows p.id db.users db.subscriptions) db

  unfoldable pub record_result : PriceResult → Product → Uuid → Option ℕ → Tx Db (Unit {0})
  unfolding store_history
  record_result r p task force_chat = do
    store_history r p task
    modify (λ db. announce r p force_chat (touch_latest r p db))

  unfoldable pub save_result : PriceResult → Product → Uuid → Option ℕ → Tx Db (Unit {0})
  save_result r p task force_chat = do
    inserted ← mark_processed task
    if not inserted
        then pure tt
        else (if r.success && r.scraped_at == 0
            then raise invalid_result
            else record_result r p task force_chat)

  -- A force result without its request is only marked.
  unfoldable pub drop_unknown : Uuid → Tx Db (Unit {0})
  drop_unknown task = mark_processed task >> pure tt

  -- What the force request of the task says: none, or the chat that asked.
  unfoldable pub check_force : PriceResult → Product → Uuid → Tx Db (Unit {0})
  check_force r p task db = elim (find (λ f. f.task_id == task) db.force_requests) [
    | none ↦ if r.force then drop_unknown task db else save_result r p task none db
    | some f ↦
        if not (str_eq (env.uuid_string f.product_id) r.product_id)
        then raise invalid_result db
        else save_result r p task (some f.chat_id) db
  ]

  -- The branch of a result without a lookup id.
  unfoldable pub process_product : PriceResult → Tx Db (Unit {0})
  unfolding has_bad_price read_uuid
  process_product r = do
    product_id ← or_raise invalid_result (env.uuid_parse r.product_id)
    if has_bad_price r then raise invalid_result else do
      id ← read_uuid env r.product_id
      found ← gets (λ db. find_product id db.products)
      p ← or_raise invalid_result found
      task ← read_uuid env r.task_id
      check_force r p task

  unfoldable pub process_price_result : PriceResult → Tx Db (Unit {0})
  process_price_result r = do
    task ← or_raise invalid_result (env.uuid_parse r.task_id)
    (if not (is_empty r.lookup_id) && not (is_empty r.product_id)
        then raise invalid_result
        else if not (is_empty r.lookup_id)
        then process_lookup r
        else process_product r)
