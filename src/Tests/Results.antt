-- ===== src/Tests/Results.antt =====
-- Runs of ProcessPriceResult on a small database.
use price_scount.Base.{
  List, String, inr, true, false, some, [], ◌∷◌, ◌≡◌, refl, ok, settle, map, ◌++◌,
}
use price_scount.Contracts.{PriceResult}
use price_scount.Outbox.Table.{insert_event}
use price_scount.Gateway.Db.{Db, Product, find_product, read_uuid}
use price_scount.Tests.Samples.{
  sample_env, user, product, price, subscription, watched_db, force_request, low_result,
}
use price_scount.Gateway.Alerts.{classify, watches, alert_rows, send_alerts, send_alert, set_alert}
use price_scount.Gateway.Alerts.Exact.{alerted}
use price_scount.Gateway.Alerts.Events.{alert_events}
use price_scount.Gateway.Results.{
  process_price_result, process_product, check_force, save_result, record_result, store_history,
  insert_history, touch_latest, is_stale, announce, mark_processed, has_bad_price, touch_product,
}
use price_scount.Outbox.Table.{Row}
use price_scount.Gateway.Alerts.Story.{Story}
use price_scount.Gateway.Results.Told.{fresh_alerts}
use price_scount.Gateway.Results.Forced.{Reports, Kept, reply_row, forced_reply}
use price_scount.Gateway.Results.Effects.{Arrives, quiet_result, fresh_result, point}
use price_scount.Gateway.Results.Marked.{with_mark}
use price_scount.Gateway.Results.Redelivery.{process_price_result_again}
use price_scount.Gateway.Results.Latest.{process_price_result-Advances, Advances}

abbrev low_after : Db
low_after = (settle (process_price_result sample_env 100 low_result) watched_db).1

low-Arrives : Arrives sample_env low_result watched_db product 9
unfolding has_bad_price
low-Arrives = record {
  parsed_task = 9;
  parses_task = refl;
  parsed_product = 1;
  parses_product = refl;
  no_lookup = refl;
  sound_price = refl;
  product_id = 1;
  reads_product = refl;
  found = refl;
  reads_task = refl;
  unseen = refl;
  dated = refl;
}

process_price_result_again_example :
    process_price_result sample_env 200 low_result low_after ≡ ok (tt, low_after)
unfolding process_price_result process_product has_bad_price read_uuid check_force save_result
    mark_processed record_result store_history insert_history touch_latest is_stale announce
    alert_rows send_alerts watches send_alert set_alert classify insert_event
process_price_result_again_example =
    process_price_result_again sample_env 100 200 low_result watched_db low_after refl

process_price_result-Advances_example :
    (q : Product) × (find_product 1 low_after.products ≡ some q) × Advances product q
unfolding process_price_result process_product has_bad_price read_uuid check_force save_result
    mark_processed record_result store_history insert_history touch_latest is_stale announce
    alert_rows send_alerts watches send_alert set_alert classify insert_event
process_price_result-Advances_example =
    process_price_result-Advances sample_env 100 low_result watched_db low_after 1 product refl refl

fresh_result_example :
    (db' : Db) × (process_price_result sample_env 100 low_result watched_db ≡ ok (tt, db'))
    × (db'.subscriptions ≡ map (alerted (price 150) 1) watched_db.subscriptions)
    × (db'.outbox
        ≡ [] ++ alert_events sample_env 100 low_result product (user ∷ []) (subscription ∷ []))
    × (db'.products ≡ (touch_product 1 50 watched_db).products)
    × (db'.price_history ≡ [] ++ point low_result product 9 (price 150) ∷ [])
    × (db'.processed ≡ [] ++ 9 ∷ [])
fresh_result_example =
    fresh_result sample_env 100 low_result watched_db product 9 (price 150) low-Arrives
      (record { stored = refl; short_currency = refl; new_task = refl }) refl refl refl
      (unfold is_stale in refl) ((user, refl), tt) (tt, tt) (refl, tt)

fresh_alerts_example :
    (db' : Db) × (rows : List Row) × (process_price_result sample_env 100 low_result watched_db
      ≡ ok (tt, db'))
    × (db'.outbox ≡ [] ++ rows)
    × Story sample_env 100 low_result product
        (user ∷ [])
        watched_db.subscriptions
        db'.subscriptions
        rows
fresh_alerts_example =
    fresh_alerts sample_env 100 low_result watched_db product 9 (price 150) low-Arrives
      (record { stored = refl; short_currency = refl; new_task = refl }) refl refl refl
      (unfold is_stale in refl) ((user, refl), tt) (tt, tt) (refl, tt)

abbrev failed_result : PriceResult
failed_result = record low_result { success = false }

failed-Arrives : Arrives sample_env failed_result watched_db product 9
unfolding has_bad_price
failed-Arrives = record {
  parsed_task = 9;
  parses_task = refl;
  parsed_product = 1;
  parses_product = refl;
  no_lookup = refl;
  sound_price = refl;
  product_id = 1;
  reads_product = refl;
  found = refl;
  reads_task = refl;
  unseen = refl;
  dated = refl;
}

quiet_result_example :
    ((with_mark 9 watched_db).subscriptions ≡ watched_db.subscriptions)
    × ((with_mark 9 watched_db).products ≡ watched_db.products)
    × ((with_mark 9 watched_db).outbox ≡ watched_db.outbox)
unfolding process_price_result process_product has_bad_price read_uuid check_force save_result
    mark_processed record_result store_history touch_latest is_stale announce
quiet_result_example =
    quiet_result sample_env 100 failed_result watched_db product 9 (with_mark 9 watched_db)
      failed-Arrives refl refl refl refl

abbrev forced_result : PriceResult
forced_result = record low_result { force = true }

abbrev asked_db : Db
asked_db = record watched_db { force_requests = force_request ∷ [] }

asked-Arrives : Arrives sample_env forced_result asked_db product 9
unfolding has_bad_price
asked-Arrives = record {
  parsed_task = 9;
  parses_task = refl;
  parsed_product = 1;
  parses_product = refl;
  no_lookup = refl;
  sound_price = refl;
  product_id = 1;
  reads_product = refl;
  found = refl;
  reads_task = refl;
  unseen = refl;
  dated = refl;
}

forced_reply_example :
    (db' : Db) × (text : String) × (process_price_result sample_env 100 forced_result asked_db
      ≡ ok (tt, db'))
    × Reports sample_env 100 forced_result asked_db product 9 text
    × (db'.outbox ≡ reply_row 100 forced_result 77 text ∷ [])
    × (db'.subscriptions ≡ asked_db.subscriptions)
    × (db'.processed ≡ 9 ∷ [])
    × Kept sample_env 100 forced_result asked_db product 9 db'
forced_reply_example =
    forced_reply sample_env 100 forced_result asked_db product 9 force_request asked-Arrives
      (inr (price 150, record { stored = refl; short_currency = refl; new_task = refl })) refl refl
      refl
