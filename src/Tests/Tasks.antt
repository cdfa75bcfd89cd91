-- ===== src/Tests/Tasks.antt =====
-- Runs of the extractor and of the bot's sessions.
use price_scount.Base.{String, Bool, true, some, ◌≡◌}
use price_scount.Contracts.{LookupTask, ScraperTask, PriceResult}
use price_scount.Delivery.{requeue}
use price_scount.Extractor.{Fetched, product, handle_lookup, handle_scraper}
use price_scount.Extractor.Answers.{tasks_answered}
use price_scount.Bot.Sessions.{Session, Sessions, idle_session, waiting_lookup, waiting_min_price}
use price_scount.Tests.Samples.{price}

abbrev lookup_task : LookupTask
lookup_task = record {
  task_id = "9";
  lookup_id = "3";
  url = "https://www.wildberries.ru/catalog/1/detail.aspx";
  platform = "wb";
}

abbrev scraper_task : ScraperTask
scraper_task = record {
  task_id = "9";
  product_id = "1";
  url = "https://www.wildberries.ru/catalog/1/detail.aspx";
  platform = "wb";
  scheduled_at = 50;
  force = true;
  chat_id = 77;
}

abbrev page : String → Fetched
page url = product (record { name = "Kettle"; price = price 150; currency = "RUB" })

abbrev publishes : PriceResult → Bool
publishes r = true

tasks_answered_example :
    (((handle_lookup 100 page publishes (some lookup_task)).verdict ≡ requeue → ⊥)
      → (r : PriceResult) × ((handle_lookup 100 page publishes (some lookup_task)).published
          ≡ some r)
        × (r.task_id ≡ "9")
        × (r.lookup_id ≡ "3")
        × (r.product_id ≡ ""))
    × (((handle_scraper 100 page publishes (some scraper_task)).verdict ≡ requeue → ⊥)
        → (r : PriceResult) × ((handle_scraper 100 page publishes (some scraper_task)).published
            ≡ some r)
          × (r.task_id ≡ "9")
          × (r.product_id ≡ "1")
          × (r.lookup_id ≡ "")
          × (r.force ≡ true))
tasks_answered_example = tasks_answered 100 page publishes lookup_task scraper_task

abbrev waiting : Session
waiting = record idle_session { step = waiting_lookup; lookup_id = "3"; page = 2 }

abbrev completed : Session
completed = record idle_session { step = waiting_min_price; product_name = "Kettle" }

abbrev sessions : Sessions
sessions chat = some waiting
