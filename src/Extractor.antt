-- ===== src/Extractor.antt =====
-- services/extractor/internal/consumer/consumer.go: from a task to a price result. A delivery is what
-- encoding/json reads, `none` when it is malformed. `fetch` is the page load of Wildberries.
-- Cancellation and logging are left out.
pub mod Answers
use price_scount.Base.{
  ℕ, String, Bool, true, false, Option, none, some, str_eq, if◌then◌else◌, [], ◌∷◌,
}
use price_scount.Base.Text.{join}
use price_scount.Base.Int.{Float64, float_zero}
use price_scount.Contracts.{LookupTask, ScraperTask, PriceResult}
use price_scount.Delivery.{Verdict, ack, drop, requeue}

-- marketplace.Product.
pub record Product : Type 0 where
  pub name : String
  pub price : Float64
  pub currency : String

-- A product, or the text of the error.
pub data Fetched : Type 0 where
  product : Product → Fetched
  fetch_error : String → Fetched

-- What a delivery makes: the result that is handed to the broker, if any, and the answer.
pub record Outcome : Type 0 where
  pub published : Option PriceResult
  pub verdict : Verdict

module _ (now : ℕ) (fetch_product : String → Fetched) (publishes : PriceResult → Bool) where
  -- fetch of a platform.
  unfoldable pub fetch : String → String → Fetched
  fetch platform url =
      if str_eq platform "wb"
      then fetch_product url
      else fetch_error (join ("unknown platform: " ∷ platform ∷ []))

  abbrev pub blank : String → String → PriceResult
  blank task url = record {
    task_id = task;
    lookup_id = "";
    product_id = "";
    url = url;
    name = "";
    price = float_zero;
    currency = "";
    scraped_at = now;
    success = false;
    error = "";
    force = false;
    chat_id = 0;
  }

  abbrev pub lookup_result : LookupTask → Fetched → PriceResult
  lookup_result t (fetch_error e) = record (blank t.task_id t.url) {
    lookup_id = t.lookup_id;
    error = e;
  }
  lookup_result t (product p) = record (blank t.task_id t.url) {
    lookup_id = t.lookup_id;
    success = true;
    name = p.name;
    price = p.price;
    currency = p.currency;
  }

  abbrev pub scraper_result : ScraperTask → Fetched → PriceResult
  scraper_result t (fetch_error e) = record (blank t.task_id t.url) {
    product_id = t.product_id;
    force = t.force;
    chat_id = t.chat_id;
    error = e;
  }
  scraper_result t (product p) = record (blank t.task_id t.url) {
    product_id = t.product_id;
    force = t.force;
    chat_id = t.chat_id;
    success = true;
    price = p.price;
    currency = p.currency;
  }

  abbrev pub hand_over : PriceResult → Outcome
  hand_over r =
      if publishes r
      then record { published = some r; verdict = ack }
      else record { published = none; verdict = requeue }

  -- handleLookup.
  unfoldable pub handle_lookup : Option LookupTask → Outcome
  handle_lookup none = record { published = none; verdict = drop }
  handle_lookup (some t) = hand_over (lookup_result t (fetch t.platform t.url))

  -- handleScraper.
  unfoldable pub handle_scraper : Option ScraperTask → Outcome
  handle_scraper none = record { published = none; verdict = drop }
  handle_scraper (some t) = hand_over (scraper_result t (fetch t.platform t.url))
