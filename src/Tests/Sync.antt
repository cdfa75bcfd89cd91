-- ===== src/Tests/Sync.antt =====
-- Runs of the operations on subscriptions.
use price_scount.Base.{none, true, ◌≡◌, refl, arith, settle}
use price_scount.Outbox.Table.{insert_event}
use price_scount.Gateway.Db.{Db, read_uuid}
use price_scount.Tests.Samples.{low_result, sample_env, price, empty_db}
use price_scount.Gateway.Alerts.{watches}
use price_scount.Gateway.Monitoring.{is_watched, bump, snapshot, lock_product}
use price_scount.Gateway.Monitoring.Sync.{InSync}
use price_scount.Gateway.Subscriptions.{
  create_subscription, upsert_subscription, new_subscription, mutate_subscription, pause,
}
use price_scount.Gateway.Subscriptions.Sync.{HasRoom}
use price_scount.Gateway.Subscriptions.Create.{create_subscription-InSync}
use price_scount.Gateway.Handler.{PatchRequest}
use price_scount.Gateway.Alerts.{classify, alert_rows, send_alerts, send_alert, set_alert}
use price_scount.Gateway.Results.{
  process_price_result, process_product, check_force, save_result, record_result, store_history,
  insert_history, touch_latest, is_stale, announce, mark_processed, has_bad_price,
}
use price_scount.Gateway.Results.Sync.{process_price_result-InSync}

-- Nobody watches the product, and no snapshot was made.
empty-InSync : InSync empty_db
unfolding watches
empty-InSync = record { none_ahead = λ i v p e lt. refl; current = λ i p e. refl }

empty-HasRoom : HasRoom empty_db
empty-HasRoom i p e = ground arith

abbrev subscribed : Db
subscribed = (settle (create_subscription sample_env 100 3 5 1 (price 200) (price 900)) empty_db).1

create_subscription-InSync_example :
    InSync subscribed × (is_watched 1 subscribed.subscriptions ≡ true)
unfolding create_subscription lock_product upsert_subscription new_subscription bump snapshot
    insert_event watches
create_subscription-InSync_example =
    create_subscription-InSync sample_env 100 3 5 1 (price 200) (price 900) 3 empty_db subscribed
      empty-InSync empty-HasRoom tt refl

subscribed-InSync : InSync subscribed
unfolding create_subscription lock_product upsert_subscription new_subscription bump snapshot
    insert_event watches
subscribed-InSync =
    (create_subscription-InSync sample_env 100 3 5 1 (price 200) (price 900) 3 empty_db subscribed
      empty-InSync empty-HasRoom tt refl).0

abbrev paused_db : Db
paused_db = (settle (mutate_subscription sample_env 200 "3" 5 pause) subscribed).1

abbrev pause_request : PatchRequest
pause_request = record { chat_id = 77; action = "pause"; min_price = none; max_price = none }

abbrev received : Db
received = (settle (process_price_result sample_env 200 low_result) subscribed).1

process_price_result-InSync_example : InSync received
unfolding create_subscription lock_product upsert_subscription new_subscription bump snapshot
    insert_event watches process_price_result process_product has_bad_price read_uuid check_force
    save_result mark_processed record_result store_history insert_history touch_latest is_stale
    announce alert_rows send_alerts send_alert set_alert classify
process_price_result-InSync_example =
    process_price_result-InSync sample_env 200 low_result subscribed received subscribed-InSync refl
