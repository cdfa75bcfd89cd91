-- ===== src/Tests/Routes.antt =====
-- Runs of the routes and of the consumers.
use price_scount.Base.{
  ◌⊎◌, ℕ, zero, Bool, String, ◌≤◌, ◌<◌, suc, true, false, none, some, [], ◌≡◌, ◌≢◌, refl, str_eq,
}
use price_scount.Base.Text.{parse_int}
use price_scount.Contracts.{TrackRequest, NotifyTask}
use price_scount.Delivery.{ack}
use price_scount.Gateway.Handler.{
  PatchRequest, no_subscription, patch_subscription, delete_subscription, get_history, post_check,
}
use price_scount.Gateway.Handler.Effects.{unknown_chat}
use price_scount.Gateway.Consumer.{handle}
use price_scount.Gateway.Consumer.Again.{Answered, handle_answers}
use price_scount.Scheduler.Consumer as Requests
use price_scount.Scheduler.Consumer.Again.{request_again}
use price_scount.Scheduler.Db.{SchedulerDb}
use price_scount.Notifier.Alert.{
  Outcome, Reply, sent, no_response, answer, send, send_once, seconds,
}
use price_scount.Notifier.Alert.Retries.{send-exact, is_retried}
use price_scount.Notifier.Consumer as Notices
use price_scount.Notifier.Consumer.{Message, delivered, is_early}
use price_scount.Notifier.Consumer.Kept.{handle-Kept, Kept}
use price_scount.Tests.Samples.{sample_env, watched_db, low_result}

abbrev stranger : PatchRequest
stranger = record { chat_id = 78; action = "pause"; min_price = none; max_price = none }

unknown_chat_example :
    (patch_subscription sample_env 100 "3" (some stranger) watched_db
      ≡ (no_subscription, watched_db))
    × (delete_subscription sample_env 100 "3" (some 78) watched_db ≡ (no_subscription, watched_db))
    × (get_history sample_env 100 "3" (some 78) watched_db ≡ (no_subscription, watched_db))
    × (post_check sample_env 100 9 "3" (some 78) watched_db ≡ (no_subscription, watched_db))
unknown_chat_example = unknown_chat sample_env 100 "3" 9 stranger watched_db refl refl

handle_answers_example :
    Answered sample_env 100 200
      (some low_result)
      watched_db
      (handle sample_env 100 (some low_result) watched_db)
handle_answers_example = handle_answers sample_env 100 200 (some low_result) watched_db

abbrev unscheduled : SchedulerDb
unscheduled = record { scheduled_urls = []; processed_force = []; outbox = [] }

abbrev first_snapshot : TrackRequest
first_snapshot = record {
  task_id = "9";
  action = "set_state";
  version = 1;
  active = true;
  product_id = "1";
  url = "https://www.wildberries.ru/catalog/1/detail.aspx";
  platform = "wb";
  interval_hours = 1;
  chat_id = 0;
}

request_again_example :
    ((Requests.handle sample_env 100 4 (some first_snapshot) unscheduled).0 ≢ ack
      → (Requests.handle sample_env 100 4 (some first_snapshot) unscheduled).1 ≡ unscheduled)
    × ((Requests.handle sample_env 100 4 (some first_snapshot) unscheduled).0 ≡ ack
        → Requests.handle sample_env 200 5
            (some first_snapshot)
            (Requests.handle sample_env 100 4 (some first_snapshot) unscheduled).1
          ≡ (ack, (Requests.handle sample_env 100 4 (some first_snapshot) unscheduled).1))
request_again_example = request_again sample_env 100 200 4 5 (some first_snapshot) unscheduled

-- No response to the first request, and a delivery by the second one.
abbrev replies : ℕ → Reply
replies zero = no_response
replies (suc n) = answer 200 true 0

send-exact_example :
    (k : ℕ) × ((send replies).requests ≡ suc k)
    × (k ≤ 3)
    × ((send replies).outcome ≡ send_once (replies k))
    × ((j : ℕ) → j < k → is_retried (send_once (replies j)) ≡ true)
    × ((k ≡ 3) ⊎ (is_retried (send_once (replies k)) ≡ false))
    × ((send replies).waited ≤ seconds 90)
send-exact_example = send-exact replies

abbrev notice : NotifyTask
notice = record {
  task_id = "9";
  channel = "telegram";
  target = "77";
  text = "text";
  direction = "";
  not_before = 0;
}

abbrev accepts : ℕ → String → Outcome
accepts chat text = sent

abbrev publishes : Message → Bool
publishes m = true

handle-Kept_example :
    Kept notice (Notices.handle 100 200 accepts publishes (some notice))
    × (Notices.handle 100 200 accepts publishes (some notice) ≡ delivered
        → (is_early 100 notice ≡ false)
          × (str_eq notice.channel "telegram" ≡ true)
          × (chat : ℕ) × (parse_int notice.target ≡ some chat)
          × (accepts chat notice.text ≡ sent))
handle-Kept_example = handle-Kept 100 200 accepts publishes notice
